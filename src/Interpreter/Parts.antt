-- ===== src/Interpreter/Parts.antt =====
-- What `_eval` of julep/execution/interpreter.py reads off a node: its branches, its waves and its
-- fields with their defaults.
use julep.Prelude.{
  ℕ, zero, suc, Text, text, text_eq, Bool, true, false, ℤ, pos, negsuc, Option, none, some, List,
  [], ◌∷◌, ◌++◌, take, drop, length, if◌then◌else◌,
}
use julep.Json.{Json, obj, bool, get_field, null}
use julep.Ir.{
  Ann, Merge, MergeKind, all, Node, node, Slot, absent, present, Cases, end, case, ChannelRef,
}
use julep.Derived.{is_par}
use julep.Interpreter.Env.{other, Reply, ok, raised}

abbrev pub slot : Slot → Option Node
slot absent = none
slot (present n) = some n

abbrev pub timeout_of : Option Ann → Option ℤ
timeout_of none = none
timeout_of (some a) = a.timeout

abbrev pub batchable_of : Option Ann → Bool
batchable_of none = false
batchable_of (some a) = a.batchable

-- `cases.get(key)`
unfoldable pub get_case : Text → Cases → Option Node
get_case k end = none
get_case k (case j n cs) = if text_eq j k then some n else get_case k cs

-- `n.merge is None or n.merge.kind == "all"`
abbrev pub merges_all : Option Merge → Bool
merges_all none = true
merges_all (some m) = elim m.kind [ all ↦ true | _ ↦ false ]

abbrev pub both : Reply (List Node) → Reply (List Node) → Reply (List Node)
both (ok xs) (ok ys) = ok (xs ++ ys)
both (ok xs) r = r
both l r = l

unfoldable mutual
  -- `_all_branches`
  pub all_branches : Node → Reply (List Node)
  all_branches (node i l r b p c d) =
      let two = both (branches_below l) (branches_below r) in
      elim (is_par i.op) [
        | true ↦ if merges_all i.merge then two else ok (node i l r b p c d ∷ [])
        | false ↦ ok (node i l r b p c d ∷ [])
      ]

  pub branches_below : Slot → Reply (List Node)
  branches_below absent = raised (other (text "AssertionError()"))
  branches_below (present n) = all_branches n

abbrev pub kind_of : Option Merge → MergeKind
kind_of none = all
kind_of (some m) = m.kind

-- `merge.quorum_m if merge and merge.quorum_m else 1`
abbrev pub quorum_of : Option Merge → ℤ
quorum_of none = pos 1
quorum_of (some m) = elim m.quorum_m [ none ↦ pos 1 | some (pos zero) ↦ pos 1 | some q ↦ q ]

abbrev pub hedge_of : Option Merge → Option ℤ
hedge_of none = none
hedge_of (some m) = m.hedge_ms

abbrev pub reducer_of : Option Merge → Option Text
reducer_of none = none
reducer_of (some m) = m.reducer

-- The list in pieces of `suc w`; a piece takes one at least, so as many as there are items are enough.
unfoldable pub chunks : {A : Type 0} → (fuel w : ℕ) → List A → List (List A)
chunks zero w xs = []
chunks (suc f) w [] = []
chunks (suc f) w (x ∷ xs) = (x ∷ take w xs) ∷ chunks f w (drop w xs)

-- The waves of `_eval_each`: `range` goes nowhere with a negative step, and refuses a step of 0.
unfoldable pub waves : {A : Type 0} → Option ℤ → List A → Reply (List (List A))
unfolding chunks
waves none [] = ok []
waves none (x ∷ xs) = ok ((x ∷ xs) ∷ [])
waves (some (pos zero)) xs = raised (other (text "ValueError()"))
waves (some (pos (suc w))) xs = ok (chunks (length xs) w xs)
waves (some (negsuc n)) xs = ok []

-- `node.args["value"]` if it is given, for a message that is not the value.
unfoldable pub override : Option Json → Option Json
unfolding get_field
override (some (obj fs)) = elim (get_field (text "value") fs) [ some null ↦ none | o ↦ o ]
override _ = none

-- `node.args.get("split") is True`
unfoldable pub split_result : Option Json → Bool
unfolding get_field
split_result (some (obj fs)) = elim (get_field (text "split") fs) [ some (bool b) ↦ b | _ ↦ false ]
split_result _ = false

abbrev pub loop_out_channel : Option (List ChannelRef) → Text
loop_out_channel (some (i ∷ o ∷ rest)) = o.name
loop_out_channel _ = text "out"
