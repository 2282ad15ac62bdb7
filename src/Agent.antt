-- ===== src/Agent.antt =====
-- The policy of julep/agent_loop.py on the calls of an agent: who may call what, and how often. The
-- contracts are those that `manifest_contracts_for_agent` carries, decoded.
pub mod Limits
use julep.Prelude.{
  ℕ, zero, suc, ◌+◌, Text, text_eq, has_text, get, or_else, Bool, true, false, not, ◌&&◌, ◌||◌,
  ltb_ℤ, ltb, leb, ℤ, pos, ◌+ℤ◌, Option, none, some, List, [], ◌∷◌, if◌then◌else◌,
}
use julep.Kinds.{is_dangerous}
use julep.Contracts.{ToolContract, conservative_default, contract_allows_retry}
use julep.Capabilities.{Budget}

pub record AgentContract : Type 0 where
  pub contract : ToolContract
  pub asserted : Bool
  pub approval : Bool
  pub max_calls : Option ℤ

-- The reasons of a `CallDenial`.
pub data CallDenial : Type 0 where
  not_granted approval_only max_calls_exceeded : CallDenial

abbrev pub AgentContractMap : Type 0
AgentContractMap = List (Text × AgentContract)

abbrev contract_or : Option AgentContract → ToolContract
contract_or none = conservative_default
contract_or (some a) = a.contract

unfoldable pub contract_for_tool : Text → AgentContractMap → ToolContract
unfolding get
contract_for_tool tool contracts = contract_or (get tool contracts)

abbrev is_asserted : Option AgentContract → Bool
is_asserted none = false
is_asserted (some a) = a.asserted

unfoldable pub contract_asserted_for_tool : Text → AgentContractMap → Bool
unfolding get
contract_asserted_for_tool tool contracts = is_asserted (get tool contracts)

abbrev wants_approval : Option AgentContract → Bool
wants_approval none = false
wants_approval (some a) = a.approval

unfoldable pub approval_required_for_tool : Text → AgentContractMap → Bool
unfolding get contract_for_tool
approval_required_for_tool tool contracts =
    is_dangerous (contract_for_tool tool contracts).effect || wants_approval (get tool contracts)

unfoldable pub authorize_call :
    Text → (unconstrained : Bool) → (granted_set : List Text) → AgentContractMap → Option CallDenial
unfolding has_text approval_required_for_tool
authorize_call tool unconstrained granted_set contracts =
    if not unconstrained && not (has_text tool granted_set)
    then some not_granted
    else if approval_required_for_tool tool contracts
    then some approval_only
    else none

abbrev limit_of : Option AgentContract → Option ℤ
limit_of none = none
limit_of (some a) = a.max_calls

unfoldable pub max_calls_for_tool : Text → AgentContractMap → Option ℤ
unfolding get
max_calls_for_tool tool contracts = limit_of (get tool contracts)

-- `d[k] = v`
unfoldable pub put : Text → ℕ → List (Text × ℕ) → List (Text × ℕ)
unfolding text_eq
put k v [] = (k, v) ∷ []
put k v ((j, u) ∷ d) = let rest = put k v d in if text_eq j k then (j, v) ∷ d else (j, u) ∷ rest

-- `state.call_counts.get(key, 0)`
unfoldable pub count_of : Text → List (Text × ℕ) → ℕ
unfolding get
count_of key counts = or_else (get key counts) 0

abbrev pub charge_at :
    Option ℤ → (key : Text) → (counts : List (Text × ℕ)) → Option CallDenial × List (Text × ℕ)
unfolding count_of put
charge_at none key counts = (none, counts)
charge_at (some limit) key counts =
    if ltb_ℤ (pos (count_of key counts)) limit
    then (none, put key (suc (count_of key counts)) counts)
    else (some max_calls_exceeded, counts)

-- `charge_tool_call`, with the counters that it leaves.
unfoldable pub charge_tool_call :
    (tool : Text)
    → AgentContractMap
    → (count_key : Option Text) → (counts : List (Text × ℕ)) → Option CallDenial × List (Text × ℕ)
unfolding max_calls_for_tool charge_at
charge_tool_call tool contracts count_key counts =
    charge_at (max_calls_for_tool tool contracts) (or_else count_key tool) counts

unfoldable pub authorize_subflow : Text → Option (List Text) → Option CallDenial
unfolding has_text
authorize_subflow ref none = none
authorize_subflow ref (some granted) = if has_text ref granted then none else some not_granted

abbrev cost_exceeds : ℤ → Option ℤ → Bool
cost_exceeds spent none = false
cost_exceeds spent (some limit) = ltb_ℤ limit spent

unfoldable pub would_exceed_budget : (spent next_cost : ℤ) → Option Budget → Bool
unfolding ◌+ℤ◌
would_exceed_budget spent next_cost none = false
would_exceed_budget spent next_cost (some b) = cost_exceeds (spent +ℤ next_cost) b.cost

unfoldable pub retry_max_attempts_for_contract :
    ToolContract → (asserted : Bool) → (idempotent_max_attempts : ℤ) → ℤ
unfolding contract_allows_retry
retry_max_attempts_for_contract c asserted attempts =
    if asserted && contract_allows_retry c then attempts else pos 1
