-- ===== src/Dsl.antt =====
-- julep/dsl.py: the combinators that emit flows. Each takes the counter of `_nid` and returns the
-- next one; `source` is what `_capture_source` found on the stack.
use julep.Prelude.{
  ℕ, suc, Text, text, Bool, true, false, ◌||◌, ℤ, pos, ltb_ℤ, decimal, Option, none, some, is_some,
  List, [], ◌∷◌, ◌++◌, if◌then◌else◌, Result, return, raise, value_error,
}
use julep.Json.{Json}
use julep.Kinds.{Op, Shape, pipeline, SummaryPolicy}
use julep.Ir.{
  ToolRef, native_tool, mcp_tool, ContextPolicy, Ann, SubContract, Step, SourceSpan, Info, Node,
  node, Slot, absent, present, no_cases, switch, Cases, end, case,
}

-- `_nid`
unfoldable pub nid : Text → ℕ → Text
unfolding decimal
nid tag n = tag ++ (text "#" ++ decimal n)

-- The defaults of `Node`.
abbrev pub fields : Op → Text → Info
fields op id = record {
  op = op;
  id = id;
  ann = none;
  step = none;
  select = none;
  bound = none;
  state_schema = none;
  channels = none;
  controller = none;
  pure = none;
  args = none;
  merge = none;
  prompt = none;
  tools = none;
  tool_aliases = none;
  tool_defs = none;
  tool_contracts = none;
  subflows = none;
  budget = none;
  max_rounds = none;
  ctx = none;
  summarizer = none;
  round_note = none;
  native_tools = none;
  require_tool_call = none;
  output_schema = none;
  output_retries = none;
  subflow_queues = none;
  source = none;
}

abbrev pub leaf : Info → Node
leaf i = node i absent absent absent absent no_cases absent

-- A node with two branches.
abbrev pub two : Info → Node → Node → Node
two i l r = node i (present l) (present r) absent absent no_cases absent

abbrev tag_of : ToolRef → Text
tag_of (native_tool name) = text "call"
tag_of (mcp_tool server tool) = text "mcp"

-- `if summary_policy is not None and contract.summary_policy is None`
abbrev with_policy : SubContract → Option SummaryPolicy → SubContract
with_policy c none = c
with_policy c (some p) = elim c.summary_policy [
  | none ↦ record { shape = c.shape; summary_policy = some p; queue = none }
  | some q ↦ c
]

abbrev pub contract_of : Shape → Option SummaryPolicy → SubContract
contract_of s p = record { shape = s; summary_policy = p; queue = none }

-- `pred or select`
abbrev first_of : (pred select : Option Text) → Option Text
first_of none select = select
first_of (some []) select = select
first_of (some (c ∷ t)) select = some (c ∷ t)

-- `max_parallel is not None and max_parallel < 1`
abbrev below_one : Option ℤ → Bool
below_one none = false
below_one (some n) = ltb_ℤ n (pos 1)

-- `flag or None`
abbrev only_true : Bool → Option Bool
only_true true = some true
only_true false = none

module _ (source : Option SourceSpan) where
  -- The fields of a node with a fresh id.
  abbrev pub fresh : Op → Text → ℕ → Info
  unfolding nid
  fresh op tag n = record (fields op (nid tag n)) { source = source }

  unfoldable pub call_tool : ToolRef → Option ContextPolicy → Option Ann → ℕ → Node × ℕ
  unfolding nid
  call_tool ref ctx ann n = (
    leaf (record (fresh Op.prim (tag_of ref) n) {
      ann = ann;
      step = some (Step.call (record { tool = ref; ctx = ctx; frozen_hash = none }));
    }),
    suc n,
  )

  unfoldable pub think : Text → Option ContextPolicy → Option Ann → ℕ → Node × ℕ
  unfolding nid
  think reasoner ctx ann n = (
    leaf (record (fresh Op.prim (text "think") n) {
      ann = ann;
      step = some (Step.think (record { reasoner = reasoner; ctx = ctx }));
    }),
    suc n,
  )

  unfoldable pub ident : ℕ → Node × ℕ
  unfolding nid
  ident n = (leaf (fresh Op.ident (text "ident") n), suc n)

  unfoldable pub arr : Text → Option Json → ℕ → Node × ℕ
  unfolding nid
  arr pure args n =
      (leaf (record (fresh Op.arr (text "arr") n) { pure = some pure; args = args }), suc n)

  unfoldable pub sub_flow : Text → Option SubContract → Option SummaryPolicy → ℕ → Node × ℕ
  unfolding nid
  sub_flow ref contract policy n = (
    leaf (record (fresh Op.prim (text "sub") n) {
      step = some (
          Step.sub (record {
            ref = ref;
            contract =
                with_policy (elim contract [ none ↦ contract_of pipeline policy | some c ↦ c ])
                  policy;
          }));
    }),
    suc n,
  )

  -- The loop of `_binary`.
  unfoldable pub binary_loop : Op → Text → Node → List Node → ℕ → Node × ℕ
  unfolding nid
  binary_loop op tag acc [] n = (acc, n)
  binary_loop op tag acc (x ∷ xs) n = binary_loop op tag (two (fresh op tag n) acc x) xs (suc n)

  abbrev pub binary : Op → Text → List Node → ℕ → Result (Node × ℕ)
  unfolding binary_loop
  binary op tag [] n = raise value_error
  binary op tag (x ∷ xs) n = return (binary_loop op tag x xs n)

  unfoldable pub seq : List Node → ℕ → Result (Node × ℕ)
  unfolding binary_loop
  seq flows n = binary Op.seq (text "seq") flows n

  -- `par` and `fanout`
  unfoldable pub par : List Node → ℕ → Result (Node × ℕ)
  unfolding binary_loop
  par flows n = binary Op.par (text "par") flows n

  abbrev switch_of :
      (select : Option Text) → Option Cases → (default : Slot) → ℕ → Result (Node × ℕ)
  unfolding nid
  switch_of none cases default n = raise value_error
  switch_of (some s) none default n = raise value_error
  switch_of (some s) (some end) default n = raise value_error
  switch_of (some s) (some (case k x cs)) default n = return (
    node (record (fresh Op.alt (text "alt") n) { select = some s }) absent absent absent absent
        (switch (case k x cs)) default,
    suc n,
  )

  abbrev choice_of : (pred : Option Text) → (if_true if_false : Slot) → ℕ → Result (Node × ℕ)
  unfolding nid
  choice_of (some p) (present t) (present f) n =
      return (two (record (fresh Op.alt (text "alt") n) { pure = some p }) t f, suc n)
  choice_of _ _ _ n = raise value_error

  abbrev is_given : Slot → Bool
  is_given absent = false
  is_given (present n) = true

  unfoldable pub alt :
      (pred : Option Text)
      → (if_true if_false : Slot) → (select : Option Text) → Option Cases
      → (default : Slot) → ℕ
      → Result (Node × ℕ)
  unfolding nid
  alt pred if_true if_false select cases default n =
      if is_some cases || is_given default
      then if is_some pred || (is_given if_true || is_given if_false)
        then raise value_error
        else switch_of select cases default n
      else choice_of (first_of pred select) if_true if_false n

  unfoldable pub each :
      Node → (max_parallel : Option ℤ) → (reducer : Option Text) → ℕ → Result (Node × ℕ)
  unfolding nid
  each body max_parallel reducer n =
      if below_one max_parallel
      then raise value_error
      else return (
        node (record (fresh Op.each (text "each") n) { bound = max_parallel; pure = reducer })
            absent absent (present body) absent no_cases absent,
        suc n,
      )

  unfoldable pub iter_up_to : ℤ → Node → (until : Option Text) → ℕ → Node × ℕ
  unfolding nid
  iter_up_to max body until n = (
    node (record (fresh Op.iter_up_to (text "iter") n) { bound = some max; pure = until }) absent
        absent (present body) absent no_cases absent,
    suc n,
  )

  unfoldable pub stage : Text → ℕ → Node × ℕ
  unfolding nid
  stage planner n =
      (leaf (record (fresh Op.eval_plan (text "stage") n) { controller = some planner }), suc n)

  -- The optional arguments of `app`.
  pub record AppArgs : Type 0 where
    pub tools : Option (List Text)
    pub tool_aliases : Option (List (Text × Text))
    pub subflows : Option (List Text)
    pub budget : Option Json
    pub max_rounds : Option ℤ
    pub ctx : Option ContextPolicy
    pub summarizer : Option Text
    pub round_note : Option Text
    pub native_tools : Bool
    pub require_tool_call : Bool
    pub output_schema : Option Json
    pub output_retries : Option ℤ
    pub subflow_queues : Option (List (Text × Text))

  unfoldable pub app : Text → AppArgs → ℕ → Node × ℕ
  unfolding nid
  app controller a n = (
    leaf (record (fresh Op.app (text "app") n) {
      controller = some controller;
      tools = a.tools;
      tool_aliases = a.tool_aliases;
      subflows = a.subflows;
      budget = a.budget;
      max_rounds = a.max_rounds;
      ctx = a.ctx;
      summarizer = a.summarizer;
      round_note = a.round_note;
      native_tools = only_true a.native_tools;
      require_tool_call = only_true a.require_tool_call;
      output_schema = a.output_schema;
      output_retries = a.output_retries;
      subflow_queues = a.subflow_queues;
    }),
    suc n,
  )
