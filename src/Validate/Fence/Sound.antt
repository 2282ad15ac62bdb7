-- ===== src/Validate/Fence/Sound.antt =====
-- The fence of julep/validate.py, and what stands below a concurrent branch.
use julep.Prelude.{
  In, In-All, All-of_In, ◌≡◌, refl, Bool, true, false, ◌||◌, List, [], ◌++◌, ◌↔◌, All, All-append,
  collect, collect-append, collect-eq_nil, collect-of_nil, append-eq_nil, append-nil, arith, sym,
  ◌∙◌, All-append_left, All-append_right, Bool-cases, inl, inr,
}
use julep.Kinds.{Op}
use julep.Ir.{
  Node, node, Slot, absent, present, CaseSlot, no_cases, switch, Cases, end, case, info, slot_nodes,
  case_nodes, case_slot_nodes, children,
}
use julep.Ir.Walk.{Node-induction}
use julep.Validate.Diagnostic.{Diagnostic, is_recv, is_emit, is_loop}
use julep.Validate.Fence.{
  fence_here, fence_below, fence, fence_slot, fence_case_slot, fence_cases,
  check_session_concurrency_fence,
}

abbrev pub is_concurrent : Op → Bool
is_concurrent Op.par = true
is_concurrent Op.each = true
is_concurrent _ = false

abbrev below_at : Op → (branches body all : List Node) → List Node
below_at Op.par branches body all = branches
below_at Op.each branches body all = body
below_at _ branches body all = all

-- The nodes directly below a node: the branches of a concurrent one, all children of another.
abbrev pub below : Node → List Node
below (node i l r b p c d) = below_at i.op (slot_nodes l ++ slot_nodes r) (slot_nodes b) (
    slot_nodes l
    ++ (slot_nodes r ++ (slot_nodes b ++ (slot_nodes p ++ (case_slot_nodes c ++ slot_nodes d)))))

-- `m` is `n` or stands below it.
pub data Below : Node → Node → Type 0 where
  self : (n : Node) → Below n n
  down : (n k m : Node) → In k (below n) → Below k m → Below n m

-- `m` stands in or below a branch of a `par` or the body of an `each`, somewhere in `n`.
pub data Concurrent : Node → Node → Type 0 where
  enter :
      (n k m : Node)
      → is_concurrent (info n).op ≡ true
      → In k (below n)
      → Below k m
      → Concurrent n m
  deeper : (n k m : Node) → In k (below n) → Concurrent k m → Concurrent n m

-- No channel operation and no session loop.
abbrev pub IsSequential : Node → Type 0
IsSequential n =
    (is_recv (info n) ≡ false) × (is_emit (info n) ≡ false) × (is_loop (info n).op ≡ false)

slot-collect : (f : Bool) (s : Slot) → fence_slot f s ≡ collect (fence f) (slot_nodes s)
unfolding fence
slot-collect f absent = refl
slot-collect f (present n) = rw append-nil

cases-collect : (f : Bool) (cs : Cases) → fence_cases f cs ≡ collect (fence f) (case_nodes cs)
unfolding fence
cases-collect f end = refl
cases-collect f (case k n cs) = rw (cases-collect f cs)

case_slot-collect :
    (f : Bool) (c : CaseSlot) → fence_case_slot f c ≡ collect (fence f) (case_slot_nodes c)
unfolding fence
case_slot-collect f no_cases = refl
case_slot-collect f (switch cs) = cases-collect f cs

-- The walk stops only at a fenced LOOP.
rest_at : Op → Bool → List Diagnostic → List Diagnostic
rest_at Op.loop true ds = []
rest_at _ fenced ds = ds

at-below :
    (op : Op) (f : Bool) (l r b p d : Slot) (c : CaseSlot)
    → fence_below op f (fence_slot true l ++ fence_slot true r) (fence_slot true b) (
        fence_slot f l
        ++ (fence_slot f r
            ++ (fence_slot f b ++ (fence_slot f p ++ (fence_case_slot f c ++ fence_slot f d)))))
      ≡ rest_at op f (
          collect (fence (f || is_concurrent op)) (
            below_at op (slot_nodes l ++ slot_nodes r) (slot_nodes b) (
              slot_nodes l
              ++ (slot_nodes r
                  ++ (slot_nodes b ++ (slot_nodes p ++ (case_slot_nodes c ++ slot_nodes d)))))))
unfolding rest_at
at-below Op.par true l r b p d c = simp (slot-collect, collect-append)
at-below Op.par false l r b p d c = simp (slot-collect, collect-append)
at-below Op.each true l r b p d c = slot-collect true b
at-below Op.each false l r b p d c = slot-collect true b
at-below Op.loop true l r b p d c = refl
at-below _ true l r b p d c = simp (slot-collect, case_slot-collect, collect-append)
at-below _ false l r b p d c = simp (slot-collect, case_slot-collect, collect-append)

fence-below :
    (f : Bool) (n : Node)
    → fence f n
      ≡ fence_here f (info n)
        ++ rest_at (info n).op f (collect (fence (f || is_concurrent (info n).op)) (below n))
unfolding fence
fence-below f (node i l r b p c d) = rw (at-below i.op f l r b p d c)

rest_at-open :
    (op : Op) (f : Bool) (ds : List Diagnostic) → is_loop op ≡ false → rest_at op f ds ≡ ds
unfolding rest_at
rest_at-open op f ds h = ground arith

rest_at-unfenced : (op : Op) (ds : List Diagnostic) → rest_at op false ds ≡ ds
unfolding rest_at
rest_at-unfenced op ds = ground arith

here-IsSequential : (n : Node) → fence_here true (info n) ≡ [] → IsSequential n
here-IsSequential n h = ground arith

IsSequential-here : (n : Node) → IsSequential n → fence_here true (info n) ≡ []
IsSequential-here n h = ground arith

silent-Below : {n m : Node} → fence true n ≡ [] → Below n m → IsSequential m
silent-Below h (self n) = here-IsSequential n (append-eq_nil _ _ (rw fence-below at h)).0
silent-Below h (down n k m e rest) =
    let (a, z) = append-eq_nil (fence_here true (info n)) _ (rw fence-below at h) in
    let quiet = here-IsSequential n a in
    let all =
      collect-eq_nil (fence true) (below n) (sym (rest_at-open (info n).op true _ quiet.2) ∙ z) in
    silent-Below (In-All (λ x. fence true x ≡ []) all e) rest

-- What is directly below a node is found among its children.
pub All-below {ℓ} : (P : Node → Type ℓ) (n : Node) → All P (children n) → All P (below n)
unfolding children
All-below P (node i l r b p c d) h =
    let h1 = All-append_right P (slot_nodes l) _ h in
    let h2 = All-append_right P (slot_nodes r) _ h1 in
    go i.op _ _ _
      (All-append P (slot_nodes l) (slot_nodes r) (All-append_left P (slot_nodes l) _ h)
        (All-append_left P (slot_nodes r) _ h1))
      (All-append_left P (slot_nodes b) _ h2) h
  where
    go :
        (op : Op) (two body all : List Node)
        → All P two
        → All P body
        → All P all
        → All P (below_at op two body all)
    go Op.par xs ys zs two body all = two
    go Op.each xs ys zs two body all = body
    go _ xs ys zs two body all = all

Below-silent : (n : Node) → ((m : Node) → Below n m → IsSequential m) → fence true n ≡ []
Below-silent =
    Node-induction {P = λ n. ((m : Node) → Below n m → IsSequential m) → fence true n ≡ []}
      λ n h quiet.
        rw
          (
            fence-below,
            IsSequential-here n (quiet n (self n)),
            rest_at-open (info n).op true (collect (fence true) (below n)) (quiet n (self n)).2,
          )
          (collect-of_nil (fence true) (below n) (
            All-of_In _ (λ k. fence true k ≡ []) (below n)
              (λ k e f. f (λ m x. quiet m (down n k m e x))) (All-below _ n h)))

-- Each node directly below is walked with the fence up if this one is concurrent.
fence-inner :
    (n : Node) → fence false n ≡ [] → All (λ k. fence (is_concurrent (info n).op) k ≡ []) (below n)
fence-inner n h = collect-eq_nil (fence (is_concurrent (info n).op)) (below n) (
    sym (rest_at-unfenced (info n).op _)
    ∙ (append-eq_nil (fence_here false (info n)) _ (rw fence-below at h)).1)

Concurrent-Below : {n m : Node} → Concurrent n m → Below n m
Concurrent-Below (enter n k m c e rest) = down n k m e rest
Concurrent-Below (deeper n k m e rest) = down n k m e (Concurrent-Below rest)

silent-Concurrent : {n m : Node} → fence false n ≡ [] → Concurrent n m → IsSequential m
silent-Concurrent h (enter n k m conc e rest) =
    silent-Below (In-All (λ x. fence true x ≡ []) (rw conc at (fence-inner n h)) e) rest
silent-Concurrent h (deeper n k m e rest) = elim (Bool-cases (is_concurrent (info n).op)) [
  | inl conc ↦
      silent-Below (In-All (λ x. fence true x ≡ []) (rw conc at (fence-inner n h)) e)
        (Concurrent-Below rest)
  | inr seq ↦
      silent-Concurrent (In-All (λ x. fence false x ≡ []) (rw seq at (fence-inner n h)) e) rest
]

-- No channel operation and no session loop is concurrent.
abbrev pub Quiet : Node → Type 0
Quiet n = (m : Node) → Concurrent n m → IsSequential m

Quiet-inner :
    (n : Node) (f : Bool)
    → is_concurrent (info n).op ≡ f
    → Quiet n
    → All (λ k. Quiet k → fence false k ≡ []) (below n)
    → All (λ k. fence f k ≡ []) (below n)
Quiet-inner n true c quiet h =
    All-of_In _ (λ k. fence true k ≡ []) (below n)
      (λ k e _. Below-silent k (λ m x. quiet m (enter n k m c e x))) h
Quiet-inner n false c quiet h =
    All-of_In _ (λ k. fence false k ≡ []) (below n) (λ k e f. f (λ m x. quiet m (deeper n k m e x)))
      h

Concurrent-silent : (n : Node) → Quiet n → fence false n ≡ []
Concurrent-silent = Node-induction {P = λ n. Quiet n → fence false n ≡ []} λ n h quiet.
    rw (fence-below, rest_at-unfenced)
      (collect-of_nil (fence (is_concurrent (info n).op)) (below n)
        (Quiet-inner n _ refl quiet (All-below _ n h)))

-- The fence reports nothing exactly when no recv, no emit and no LOOP stands in or below a branch
-- of a `par` or the body of an `each`, at any depth.
pub fence_exact :
    (flow : Node)
    → (check_session_concurrency_fence flow ≡ [])
      ↔ ((m : Node) → Concurrent flow m → IsSequential m)
unfolding check_session_concurrency_fence
fence_exact flow = (λ h m c. silent-Concurrent h c, Concurrent-silent flow)
