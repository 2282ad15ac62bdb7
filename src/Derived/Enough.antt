-- ===== src/Derived/Enough.antt =====
-- The scan of julep/derived.py has fuel enough.
use julep.Prelude.{
  ℕ, zero, suc, ◌≤◌, ◌≡◌, refl, sym, ap, ◌∙◌, arith, length, Option, none, some, List, [], ◌∷◌, In,
  In-All, here, there, Result, return, raise, gather, ◌>>=◌,
}
use julep.Ir.{MergeKind, Node, info, children, walk}
use julep.Ir.Walk.{walk-children, walk_shorter}
use julep.Contracts.{ToolManifest}
use julep.Derived.{
  both, flatten_race_group, branch_admission, race_kind, root_kind, scan_groups, scan,
  check_race_admission,
}
use julep.Derived.Tree.{outside, scan_tree}
use julep.Derived.Branches.{group-All}
use julep.Derived.Scan.{tree_groups, scan_exact, root-in_group, flatten-root}

gather-eq :
    {A B : Type 0} (g h : A → Result (List B)) (xs : List A)
    → ((x : A) → In x xs → g x ≡ h x)
    → gather g xs ≡ gather h xs
gather-eq g h [] e = refl
gather-eq g h (x ∷ xs) e = rw (e x here, gather-eq g h xs (λ y m. e y (there m))) refl

bind-eq :
    {A B : Type 0} (r : Result A) (g h : A → Result B)
    → ((a : A) → r ≡ return a → g a ≡ h a)
    → (r >>= g) ≡ (r >>= h)
bind-eq (return a) g h e = e a refl
bind-eq (raise x) g h e = refl

module _ (m : ToolManifest) where
  -- With as much fuel as there are nodes, the scan is the structural one, whatever is left over.
  pub scan_enough :
      (f : ℕ) (chain : Option MergeKind) (n : Node)
      → length (walk n) ≤ f
      → scan m f chain n ≡ scan_tree m (outside chain) n
  unfolding scan
  scan_enough zero chain n h = absurd (omega (arith, h, ap length (walk-children n)))
  scan_enough (suc f) chain n h =
      go (λ c x k. scan_enough f c x k) (root_kind (info n) chain) refl ∙ sym (scan_exact m chain n)
    where
      below : (x : Node) → In x (children n) → length (walk x) ≤ f
      below x i = omega (arith, walk_shorter n x i, h)

      go :
          ((c : Option MergeKind) (x : Node)
            → length (walk x) ≤ f
            → scan m f c x ≡ scan_tree m (outside c) x)
          → (o : Option MergeKind) → root_kind (info n) chain ≡ o
          → scan_groups m o n (scan m f)
            ≡ tree_groups m o n
                (gather (λ c. scan_tree m (outside (race_kind (info n))) c) (children n))
      go ih none e = gather-eq _ _ (children n) (λ x i. ih (race_kind (info n)) x (below x i))
      go ih (some k) e = bind-eq (flatten_race_group n) _ _ λ bs q. gather-eq _ _ bs λ b i.
          ap (both (branch_admission m b)) (
            ih none b (
              In-All (λ x. length (walk x) ≤ f)
                (group-All (λ x. length (walk x) ≤ f)
                  (λ x y s j. omega (arith, walk_shorter x y j, s)) k n
                  (root-in_group (info n) chain k e).0 below bs
                  (sym (flatten-root n chain k e) ∙ q))
                i))

pub check_race_admission-tree :
    (flow : Node) (m : ToolManifest) → check_race_admission flow m ≡ scan_tree m (outside none) flow
unfolding check_race_admission
check_race_admission-tree flow m = scan_enough m (length (walk flow)) none flow (omega arith)
