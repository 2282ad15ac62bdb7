-- ===== src/Kinds.antt =====
-- julep/kinds.py: the leaf enumerations, and the order of shapes by cost.
pub mod Join
use mathlib.Core.List.{foldl}
use julep.Prelude.{ℕ, Bool, true, false, List, [], ◌∷◌, leb, ltb, if◌then◌else◌}

-- Structural operators of the IR.
pub data Op : Type 0 where
  prim ident arr seq par each alt iter_up_to eval_plan app loop : Op

-- Cost classes of a flow, cheapest first.
pub data Shape : Type 0 where
  pipeline dataflow branching feedback staged agent : Shape

pub data Effect : Type 0 where
  read write external dangerous : Effect

pub data Idempotency : Type 0 where
  required native best_effort none : Idempotency

pub data ContextScope : Type 0 where
  none local summary whole_session : ContextScope

pub data SummaryPolicy : Type 0 where
  result_only compressed_trace full_child_ref : SummaryPolicy

abbrev pub shape_rank : Shape → ℕ
shape_rank pipeline = 0
shape_rank dataflow = 1
shape_rank branching = 2
shape_rank feedback = 3
shape_rank staged = 4
shape_rank agent = 5

abbrev pub shape_leq : Shape → Shape → Bool
shape_leq a b = leb (shape_rank a) (shape_rank b)

-- `max` by rank keeps the first of the largest.
abbrev pub costlier : Shape → Shape → Shape
costlier a b = if ltb (shape_rank a) (shape_rank b) then b else a

unfoldable pub shape_join : List Shape → Shape
shape_join [] = pipeline
shape_join (s ∷ rest) = foldl costlier s rest

-- `c.idempotency in RACE_SAFE_IDEMPOTENCY`
abbrev pub race_safe_idempotency : Idempotency → Bool
race_safe_idempotency native = true
race_safe_idempotency required = true
race_safe_idempotency _ = false

abbrev pub is_read : Effect → Bool
is_read read = true
is_read _ = false

abbrev pub is_dangerous : Effect → Bool
is_dangerous dangerous = true
is_dangerous _ = false

-- The equality of two scopes.
unfoldable pub same_scope : ContextScope → ContextScope → Bool
same_scope none none = true
same_scope local local = true
same_scope summary summary = true
same_scope whole_session whole_session = true
same_scope _ _ = false
