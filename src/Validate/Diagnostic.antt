-- ===== src/Validate/Diagnostic.antt =====
-- Diagnostics of julep/validate.py, derived.py, staged.py and capabilities.py, without their messages.
use julep.Prelude.{
  ◌≡◌, refl, Text, text_eq, Bool, true, false, ◌&&◌, Option, none, some, List, [], ◌∷◌, ◌++◌, arith,
  All, collect, append-eq_nil, Result, return, gather, return_injective, >>=-eq-return, sym, ◌∙◌,
}
use julep.Kinds.{Op}
use julep.Ir.{Step, call, native_tool, mcp_tool, Info, recv_tool, emit_tool}

pub data Code : Type 0 where
  cycle dup_id : Code
  session_recv_in_parallel session_emit_in_parallel session_loop_in_parallel : Code
  session_loop_eval_plan_controller session_loop_not_recv_guarded : Code
  session_loop_emit_before_recv session_loop_multiple_recv : Code
  session_loop_in_eval_plan session_loop_nested session_loop_bad_fields : Code
  channel_undeclared session_channel_undeclared : Code
  session_loop_in_flow session_recv_in_flow session_emit_in_flow : Code
  session_recv_outside_loop session_emit_outside_loop : Code
  prim_no_step step_on_nonprim alt_fields_on_nonalt arr_args_on_nonarr missing_branch : Code
  alt_switch_has_binary_branch alt_switch_has_pred alt_no_select unknown_pure alt_no_cases : Code
  alt_binary_has_select alt_binary_has_default alt_no_pred : Code
  arr_no_pure arr_has_child arr_args_not_object arr_args_bad_key arr_args_secret arr_args_not_json :
      Code
  iter_no_body iter_bad_bound each_no_body each_bad_bound : Code
  eval_no_plan eval_plan_too_rich : Code
  app_no_controller app_reserved_reply_key app_ctx_no_budget app_summary_no_summarizer : Code
  retry_field_range retry_field_type : Code
  unfrozen_call missing_manifest retry_non_idempotent_dangerous : Code
  seq_type ctx_par_degraded ctx_each_degraded : Code
  race_sub race_unfrozen race_no_manifest race_unasserted race_unsafe race_rich_branch : Code
  plan_tool_unbound plan_tool_ambiguous plan_too_rich plan_dynamic_fanout : Code
  plan_tool_ungranted plan_sub_too_rich plan_budget : Code
  cap_tool_denied cap_server_denied cap_version_pin cap_memory_denied : Code
  cap_model_denied cap_model_id_denied cap_subflow_denied : Code
  cap_app_tool_denied cap_app_approval_tool cap_app_subflow_denied : Code
  approval_ungated : Code

pub data Severity : Type 0 where
  error warning : Severity

pub record Diagnostic : Type 0 where
  pub code : Code
  pub node_id : Text
  pub severity : Severity

abbrev pub err : Code → Text → Diagnostic
err code id = record { code = code; node_id = id; severity = error }

abbrev pub warn : Code → Text → Diagnostic
warn code id = record { code = code; node_id = id; severity = warning }

abbrev keep_error : Severity → Diagnostic → List Diagnostic → List Diagnostic
keep_error error d ds = d ∷ ds
keep_error warning d ds = ds

-- `[d for d in diags if d.severity == "error"]`
unfoldable pub blocking : List Diagnostic → List Diagnostic
blocking [] = []
blocking (d ∷ ds) = keep_error d.severity d (blocking ds)

pub blocking-append : (xs ys : List Diagnostic) → blocking (xs ++ ys) ≡ blocking xs ++ blocking ys
unfolding blocking
blocking-append [] ys = refl
blocking-append (x ∷ xs) ys = ground (arith, blocking-append xs ys)

pub blocking_parts :
    (xs ys : List Diagnostic) → blocking (xs ++ ys) ≡ [] → (blocking xs ≡ []) × (blocking ys ≡ [])
blocking_parts xs ys h = append-eq_nil _ _ (sym (blocking-append xs ys) ∙ h)

-- If no diagnostic of a loop is blocking, none of any round is.
pub blocking-collect {ℓ} :
    {A : Type ℓ} (f : A → List Diagnostic) (xs : List A)
    → blocking (collect f xs) ≡ []
    → All (λ x. blocking (f x) ≡ []) xs
blocking-collect f [] h = tt
blocking-collect f (x ∷ xs) h =
    let (a, b) = blocking_parts (f x) (collect f xs) h in (a, blocking-collect f xs b)

-- A loop over a list that raises nothing returns something for each element, and blocks if one does.
pub blocking-gather {ℓ} :
    {A : Type ℓ} (f : A → Result (List Diagnostic)) (xs : List A) (ds : List Diagnostic)
    → gather f xs ≡ return ds
    → blocking ds ≡ []
    → All (λ x. (d : List Diagnostic) × (f x ≡ return d) × (blocking d ≡ [])) xs
blocking-gather f [] ds h b = tt
blocking-gather f (x ∷ xs) ds h b =
    let (d, e, k) = >>=-eq-return (f x) _ h in
    let (rest, e', k') = >>=-eq-return (gather f xs) _ k in
    let (b0, b1) = blocking_parts d rest (rw (return_injective k') b) in
    ((d, e, b0), blocking-gather f xs rest e' b1)

-- A diagnostic that is added when a test passes.
abbrev pub flag : Bool → Diagnostic → List Diagnostic
flag true d = d ∷ []
flag false d = []

pub blocking-flag :
    (b : Bool) (d : Diagnostic) → d.severity ≡ error → blocking (flag b d) ≡ [] → b ≡ false
unfolding blocking
blocking-flag true d e h = ground arith
blocking-flag false d e h = refl

-- The name of the native tool that a step calls.
abbrev pub native_call : Option Step → Option Text
native_call (some (call s)) = elim s.tool [ native_tool name ↦ some name | mcp_tool a b ↦ none ]
native_call _ = none

abbrev is_named : Text → Option Text → Bool
is_named t none = false
is_named t (some name) = text_eq name t

abbrev pub is_prim : Op → Bool
is_prim Op.prim = true
is_prim _ = false

abbrev pub is_loop : Op → Bool
is_loop Op.loop = true
is_loop _ = false

unfoldable pub is_recv : Info → Bool
is_recv i = is_prim i.op && is_named recv_tool (native_call i.step)

unfoldable pub is_emit : Info → Bool
is_emit i = is_prim i.op && is_named emit_tool (native_call i.step)

-- Only a prim leaf is a channel operation.
pub not-prim-no-channel :
    (i : Info) → is_prim i.op ≡ false → (is_recv i ≡ false) × (is_emit i ≡ false)
unfolding is_recv is_emit
not-prim-no-channel i h = (rw h, rw h)
