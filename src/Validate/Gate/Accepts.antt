-- ===== src/Validate/Gate/Accepts.antt =====
-- Flows that `validate` of julep/validate.py lets through.
use julep.Prelude.{
  Text, ◌≡◌, refl, sym, ◌∙◌, Bool, true, false, not, ◌||◌, ℤ, pos, ◌≤ℤ◌, or_else, is_some, Option,
  List, [], ◌∷◌, ◌++◌, map, All, All-of_In, In-collect, In-append_right, In, here, there, In-All,
  return, gather, >>=-eq-return, arith, collect,
}
use mathlib.Core.Path.{subst}
use julep.Json.{Json}
use julep.Kinds.{Op}
use julep.Ir.{
  Info, Node, node, Slot, absent, present, CaseSlot, info, body, walk, children, slot_nodes,
}
use julep.Ir.Walk.{walk-children}
use julep.Contracts.{ToolManifest}
use julep.Transforms.{ids, collect_duplicate_ids}
use julep.Transforms.Duplicates.{Distinct, duplicates_exact}
use julep.Validate.Diagnostic.{
  Diagnostic, err, flag, blocking, blocking_parts, blocking-collect, blocking-gather, blocking-flag,
  is_loop, dup_id, iter_no_body, iter_bad_bound,
}
use julep.Validate.Fence.{fence, check_session_concurrency_fence}
use julep.Validate.Fence.Errors.{fence_errors}
use julep.Validate.Fence.Sound.{below, Below, self, down, Quiet, All-below, fence_exact}
use julep.Validate.Turns.{judge, classify, check_loop, check_session_loop_productivity}
use julep.Validate.Turns.Trace.{Event, receive, Trace}
use julep.Validate.Turns.Trace.Count.{HasBound, BoundAt}
use julep.Validate.Turns.Trace.Steps.{HasBound-below}
use julep.Validate.Turns.Trace.Sound.{all_sends, inside-Quiet, turn_receives_once}
use julep.Validate.Args.{check_ann_retry_fields}
use julep.Validate.Calls.{check_call_and_ctx, check_degraded}
use julep.Validate.Session.{has_slot}
use julep.Validate.Structure.{below_one, op_rules, field_rules, check_structure}
use julep.Validate.Gate.{Target, is_session, session_rules, check_edge, check_node, validate}

loop_verdict :
    (k x : Node)
    → is_loop (info k).op ≡ true
    → body k ≡ present x
    → blocking (check_loop k) ≡ []
    → blocking (judge (info k).id (classify x)) ≡ []
unfolding check_loop
loop_verdict (node i l r absent p c d) x o f h = cc
loop_verdict (node i l r (present y) p c d) x o f h = rw (← present-eq f) (rw o at h)
  where
    present-eq : {a b : Node} → present a ≡ present b → a ≡ b
    present-eq h = cc

-- What is visited from a node directly below is visited from the node.
In-walk : (n j k : Node) → In j (below n) → In k (walk j) → In k (walk n)
In-walk n j k e i =
    In-All (λ x. In k (walk x) → In k (walk n))
      (All-below (λ x. In k (walk x) → In k (walk n)) n
        (All-of_In (λ _. Unit {0}) (λ x. In k (walk x) → In k (walk n)) (children n)
          (λ x m _ y. rw walk-children (there (In-collect walk m y))) (trivial (children n))))
      e i
  where
    trivial : (xs : List Node) → All (λ _. Unit {0}) xs
    trivial [] = tt
    trivial (x ∷ xs) = (tt, trivial xs)

Below-facts :
    {n k : Node}
    → Below n k
    → Quiet n
    → All HasBound (walk n)
    → Quiet k × All HasBound (walk k) × In k (walk n)
Below-facts (self n) q h = (q, h, rw walk-children here)
Below-facts (down n j k e rest) q h =
    let (q', h', i) = Below-facts rest (inside-Quiet q e) (HasBound-below n j e h) in
    (q', h', In-walk n j k e i)

is_loop-eq : (op : Op) → is_loop op ≡ true → op ≡ Op.loop
is_loop-eq op h = ground arith

loop_body-below : (n x : Node) → is_loop (info n).op ≡ true → body n ≡ present x → In x (below n)
loop_body-below (node i l r b p c d) x o e =
    rw (is_loop-eq i.op o, e)
      (In-append_right (slot_nodes l) _ (In-append_right (slot_nodes r) _ here))

module _ (registered : List Text) (reserved : Json → List Text)
    (incompatible : Option Json → Option Json → Bool) where
  abbrev Passes : Option ToolManifest → Node → Type 0
  Passes m n =
      (d : List Diagnostic) × (check_node registered reserved incompatible m n ≡ return d)
      × (blocking d ≡ [])

  -- The parts of an accepted run.
  validate_parts :
      (n : Node) (m : Option ToolManifest) (t : Target) (ds : List Diagnostic)
      → validate registered reserved incompatible n m t ≡ return ds
      → blocking ds ≡ []
      → (blocking (map (λ id. err dup_id id) (collect_duplicate_ids n)) ≡ [])
        × (blocking (session_rules (is_session t n) n) ≡ [])
        × All (Passes m) (walk n)
  unfolding validate
  validate_parts n m t ds h b =
      let (nodes, e, k) =
        >>=-eq-return (gather (check_node registered reserved incompatible m) (walk n)) _ h in
      let (b0, b1) =
        blocking_parts (map (λ id. err dup_id id) (collect_duplicate_ids n)) _
          (rw (returned k) b) in
      let (b2, b3) = blocking_parts (session_rules (is_session t n) n) nodes b1 in
      (b0, b2, blocking-gather (check_node registered reserved incompatible m) (walk n) nodes e b3)
    where
      returned : {a b : List Diagnostic} → return a ≡ return b → a ≡ b
      returned h = cc

  structure_parts :
      (m : Option ToolManifest) (n : Node)
      → Passes m n
      → (s : List Diagnostic) × (check_structure registered reserved n ≡ return s)
        × (blocking s ≡ [])
  unfolding check_node
  structure_parts m n (d, h, b) =
      let (s, e, h1) = >>=-eq-return (check_structure registered reserved n) _ h in
      let (r, e1, h2) = >>=-eq-return (check_ann_retry_fields (info n)) _ h1 in
      let (x, e2, h3) = >>=-eq-return (check_edge registered reserved incompatible m n) _ h2 in
      let (b0, _) =
        blocking_parts s (r ++ (check_call_and_ctx m (info n) ++ (x ++ check_degraded n)))
          (subst (λ y. blocking y ≡ []) (sym (returned h3)) b) in
      (s, e, b0)
    where
      returned : {a b : List Diagnostic} → return a ≡ return b → a ≡ b
      returned h = cc

  positive : (b : Option ℤ) → (not (is_some b) || below_one b) ≡ false → pos 0 ≤ℤ or_else b (pos 0)
  positive b h = ground arith

  op-HasBound :
      (op : Op) (i : Info) (l r b p d : Slot) (c : CaseSlot) (s : List Diagnostic)
      → op_rules registered reserved op i l r b p d c ≡ return s
      → blocking s ≡ []
      → BoundAt op i.bound
  unfolding op_rules
  op-HasBound Op.iter_up_to i l r b p d c s h k =
      let (_, k1) =
        blocking_parts (flag (not (has_slot b)) (err iter_no_body i.id)) _
          (subst (λ y. blocking y ≡ []) (sym (returned h)) k) in
      let (k2, _) =
        blocking_parts (flag (not (is_some i.bound) || below_one i.bound) (err iter_bad_bound i.id))
          _ k1 in
      positive i.bound (blocking-flag _ (err iter_bad_bound i.id) refl k2)
    where
      returned : {a b : List Diagnostic} → return a ≡ return b → a ≡ b
      returned h = cc
  op-HasBound Op.prim i l r b p d c s h k = tt
  op-HasBound _ i l r b p d c s h k = tt

  pass-HasBound : (m : Option ToolManifest) (n : Node) → Passes m n → HasBound n
  unfolding check_structure
  pass-HasBound m (node i l r b p c d) ok =
      let (s, e, k) = structure_parts m (node i l r b p c d) ok in
      let (rules, e', f) = >>=-eq-return (op_rules registered reserved i.op i l r b p d c) _ e in
      let (_, k') =
        blocking_parts (field_rules registered reserved i (has_slot d) c) rules
          (subst (λ y. blocking y ≡ []) (sym (returned f)) k) in
      op-HasBound i.op i l r b p d c rules e' k'
    where
      returned : {a b : List Diagnostic} → return a ≡ return b → a ≡ b
      returned h = cc

  bounds_hold : (m : Option ToolManifest) (ns : List Node) → All (Passes m) ns → All HasBound ns
  bounds_hold m ns h = All-of_In (Passes m) HasBound ns (λ n _ ok. pass-HasBound m n ok) h

  no_duplicates : (xs : List Text) → blocking (map (λ id. err dup_id id) xs) ≡ [] → xs ≡ []
  unfolding blocking
  no_duplicates [] h = refl
  no_duplicates (x ∷ xs) h = cc

  -- In an accepted flow all node ids are distinct.
  pub validate-Distinct :
      (n : Node) (m : Option ToolManifest) (t : Target) (ds : List Diagnostic)
      → validate registered reserved incompatible n m t ≡ return ds
      → blocking ds ≡ []
      → Distinct (ids (walk n))
  validate-Distinct n m t ds h b =
      let (dups, _, _) = validate_parts n m t ds h b in
      (duplicates_exact n).0 (no_duplicates (collect_duplicate_ids n) dups)

  validate-Quiet :
      (n : Node) (m : Option ToolManifest) (t : Target) (ds : List Diagnostic)
      → validate registered reserved incompatible n m t ≡ return ds
      → blocking ds ≡ []
      → Quiet n
  unfolding check_session_concurrency_fence
  validate-Quiet n m t ds h b =
      let (_, rules, _) = validate_parts n m t ds h b in
      let (fenced, _) = blocking_parts (fence false n) _ rules in
      (fence_exact n).0 (sym (fence_errors false n) ∙ fenced)

  -- The verdicts on a LOOP of an accepted flow.
  validate-judge :
      (n k x : Node) (m : Option ToolManifest) (t : Target) (ds : List Diagnostic)
      → validate registered reserved incompatible n m t ≡ return ds
      → blocking ds ≡ []
      → In k (walk n)
      → is_loop (info k).op ≡ true
      → body k ≡ present x
      → blocking (judge (info k).id (classify x)) ≡ []
  unfolding check_session_loop_productivity
  validate-judge n k x m t ds h b e o f =
      let (_, rules, _) = validate_parts n m t ds h b in
      let (_, rest) = blocking_parts (check_session_concurrency_fence n) _ rules in
      let (turns, _) = blocking_parts (collect check_loop (walk n)) _ rest in
      loop_verdict k x o f
        (In-All (λ y. blocking (check_loop y) ≡ []) (blocking-collect check_loop (walk n) turns) e)

  -- Every session loop of an accepted flow takes exactly one message a turn, before it emits: each
  -- completed evaluation of the body is one receive and then only emits.
  pub accepted_turns :
      (n k x : Node) (m : Option ToolManifest) (t : Target) (ds : List Diagnostic)
      (events : List Event)
      → validate registered reserved incompatible n m t ≡ return ds
      → blocking ds ≡ []
      → Below n k
      → is_loop (info k).op ≡ true
      → body k ≡ present x
      → Trace x events
      → (rest : List Event) × (events ≡ receive ∷ rest) × (all_sends rest ≡ true)
  accepted_turns n k x m t ds events h b under o f run =
      let (_, _, passed) = validate_parts n m t ds h b in
      let (q, bounds, visited) =
        Below-facts under (validate-Quiet n m t ds h b) (bounds_hold m (walk n) passed) in
      let inside = loop_body-below k x o f in
      turn_receives_once (info k).id x events (validate-judge n k x m t ds h b visited o f)
        (inside-Quiet q inside) (HasBound-below k x inside bounds) run

  pub accepted_bounds :
      (n : Node) (m : Option ToolManifest) (t : Target) (ds : List Diagnostic)
      → validate registered reserved incompatible n m t ≡ return ds
      → blocking ds ≡ []
      → All HasBound (walk n)
  accepted_bounds n m t ds h b =
      let (_, _, passed) = validate_parts n m t ds h b in bounds_hold m (walk n) passed
