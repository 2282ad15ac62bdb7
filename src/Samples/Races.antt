-- ===== src/Samples/Races.antt =====
-- Races of two calls.
use julep.Prelude.{
  ◌≡◌, refl, Text, text, text_eq, get, decimal, none, some, [], ◌∷◌, return, here, ◌+◌,
}
use julep.Kinds.{Op, shape_join}
use julep.Ir.{call, native_tool, Merge, race, same_kind, Node, walk, info}
use julep.Shapes.{surface_shape}
use julep.Validate.Diagnostic.{blocking}
use julep.Dsl.{nid}
use julep.Derived.{flatten_race_group, step_admission, branch_admission, check_race_admission}
use julep.Derived.Combinators.{par_group, race_of, quorum_of}
use julep.Derived.Flatten.{flatten-group}
use julep.Derived.Within.{self, down}
use julep.Derived.Branch.{IsRaceSafe}
use julep.Derived.Safe.{admitted_races}
use julep.Samples.Flows.{blank, leaf_of, pair_of}
use julep.Samples.Plans.{manifest}

program : Unit {0}
unfolding check_race_admission branch_admission step_admission flatten_race_group same_kind walk get
    text_eq surface_shape shape_join blocking par_group quorum_of race_of nid decimal
program = tt

abbrev frozen_call : Text → Text → Node
frozen_call id name = leaf_of (record (blank Op.prim id) {
  step = some (call (record { tool = native_tool name; ctx = none; frozen_hash = some name }));
})

abbrev first : Node
first = frozen_call (text "a") (text "fetch")

abbrev second : Node
second = frozen_call (text "b") (text "store")

abbrev racing : Merge
racing = record { kind = race; hedge_ms = none; quorum_m = none; reducer = none }

abbrev raced : Node
raced = pair_of (record (blank Op.par (text "race#0")) { merge = some racing }) first second

built : race_of none (first ∷ second ∷ []) none 0 ≡ return (raced, 1)
unfolding program
built = refl

admitted : check_race_admission raced manifest ≡ return []
unfolding program
admitted = refl

nothing : blocking [] ≡ []
unfolding program
nothing = refl

admitted_races_example : IsRaceSafe manifest (info first).step
admitted_races_example =
    admitted_races manifest raced raced first [] admitted nothing (self raced)
      (racing, refl, refl, refl) (down raced first first here (self first)) refl

flatten-group_example :
    (g : Node) × (par_group none (first ∷ second ∷ []) racing (text "race") 4 ≡ return (g, 4 + 1))
    × (flatten_race_group g ≡ return (first ∷ second ∷ []))
flatten-group_example = flatten-group none racing (text "race") first second [] 4 (refl, (refl, tt))
