-- ===== src/Dispatch/Tests.antt =====
-- Requests through the pipeline of src/dispatch.ts, with concrete answers of the calls it makes.
use clawclub_server.Common.{
  ◌≡◌, refl, true, false, none, some, [], ◌∷◌, any, ok, err, Text, text_eq, is_visible_text,
}
use clawclub_server.Errors.{quota_exceeded}
use clawclub_server.Quotas.Allowance.{MemberRole}
use clawclub_server.Dispatch.Payload.{
  Payload, str, property, read_raw_string, extract_requested_club_id,
}
use clawclub_server.Dispatch.Authorize.{
  Actor, ActionAuth, raw_club_id, IsClubAdmin, require_club_admin, pre_authorize_role,
  has_any_club_admin_role, pre_authorize_raw_scope, pre_authorize_parsed_scope,
  scope_declaration_for,
}
use clawclub_server.Dispatch.Exec.{answered}
use clawclub_server.Dispatch.Gate.{
  GateRun, passed, rejected_quality, run_llm_gate_for, run_budgeted_gate, gate_artifact,
  settle_gate, idempotency_replay, gate_verdict_to_app_error,
}
use clawclub_server.Dispatch.Settled.{
  SpendAsked, run_llm_gate_for-SpendAsked, SpendSettled, OutputSettled,
  run_llm_gate_for-SpendSettled, run_llm_gate_for-OutputSettled,
}
use clawclub_server.Dispatch.Admission.{Admitted, run_llm_gate_for-Admitted}
use clawclub_server.Dispatch.Pipeline.{
  AuthResult, Request, dispatch_authenticated, execute_authenticated, log_unless_replay,
  run_quota_for, execute_with_client_key_barrier_if_present, check_gate_club,
}
use clawclub_server.Dispatch.Access.{
  is_costly, Authorized, dispatch_authenticated-Authorized, dispatch_authenticated-IsClubAdmin,
}

-- A gated request whose content passes.
abbrev gated : GateRun
gated = record {
  has_gate = true;
  has_actor = true;
  has_client_key = true;
  terminal_error = ok none;
  replay_hit = ok false;
  can_store_terminal_error = true;
  should_skip = ok false;
  low_substance = ok false;
  has_budget_club = ok true;
  has_output_budget = true;
  has_spend_budget = true;
  spend_reservation = ok 4;
  output_reservation = ok 5;
  verdict = ok (passed 300 12);
  spend_finalized = ok tt;
  spend_released = ok tt;
  output_finalized = ok tt;
}

-- The output reservation is refused, and the release of the spend fails.
abbrev unreleased : GateRun
unreleased = record gated {
  output_reservation = err quota_exceeded;
  spend_released = err quota_exceeded;
}

run_llm_gate_for-SpendAsked_example : SpendAsked (run_llm_gate_for unreleased []).1
run_llm_gate_for-SpendAsked_example = run_llm_gate_for-SpendAsked unreleased

run_llm_gate_for-SpendSettled_example :
    SpendSettled (run_llm_gate_for (record gated { output_reservation = err quota_exceeded }) []).1
run_llm_gate_for-SpendSettled_example =
    run_llm_gate_for-SpendSettled (record gated { output_reservation = err quota_exceeded }) refl
      refl

run_llm_gate_for-OutputSettled_example :
    OutputSettled (run_llm_gate_for (record gated { verdict = ok (rejected_quality 300 12) }) []).1
run_llm_gate_for-OutputSettled_example =
    run_llm_gate_for-OutputSettled (record gated { verdict = ok (rejected_quality 300 12) }) refl
      refl

run_llm_gate_for-Admitted_example : Admitted gated
unfolding run_llm_gate_for run_budgeted_gate gate_artifact settle_gate idempotency_replay answered
    gate_verdict_to_app_error
run_llm_gate_for-Admitted_example = run_llm_gate_for-Admitted gated refl

-- A club admin of the club "c".
abbrev admin : Actor
admin = record {
  member_id = 109 ∷ [];
  memberships = record { club_id = 99 ∷ []; role = MemberRole.clubadmin; is_owner = false } ∷ [];
  is_superadmin = false;
}

abbrev club_c : Payload
club_c = ("clubId", str (99 ∷ [])) ∷ []

abbrev request : Request
request = record {
  def = record {
    action = "clubadmin.content.remove";
    auth = ActionAuth.clubadmin;
    scope = some (raw_club_id "clubId");
    skip_requested_club_scope_precheck = false;
    quota_action = none;
    has_handler = true;
    refresh_actor_on_success = false;
  };
  bearer_token = some (116 ∷ []);
  payload = club_c;
  authenticate_bearer_token =
      ok (some (record { actor = admin; active_club_ids = (99 ∷ []) ∷ [] }));
  parse_action_input = ok club_c;
  has_client_key_barrier = true;
  replay_at_log = ok false;
  replay_at_quota = ok false;
  pre_gate = ok tt;
  has_quota_club = ok true;
  has_content_create_quota = true;
  enforce_content_create_quota = ok tt;
  gate = record gated { has_gate = false };
  handle = ok tt;
  refreshed = ok true;
}

reaches_handler : any is_costly (dispatch_authenticated request []).1 ≡ true
unfolding dispatch_authenticated execute_authenticated log_unless_replay run_quota_for
    execute_with_client_key_barrier_if_present check_gate_club run_llm_gate_for idempotency_replay
    pre_authorize_role pre_authorize_raw_scope pre_authorize_parsed_scope scope_declaration_for
    require_club_admin read_raw_string extract_requested_club_id property has_any_club_admin_role
    is_costly is_visible_text text_eq
reaches_handler = refl

dispatch_authenticated-Authorized_example : Authorized request
dispatch_authenticated-Authorized_example =
    dispatch_authenticated-Authorized request reaches_handler

dispatch_authenticated-IsClubAdmin_example :
    (auth : AuthResult) × (parsed : Payload) × (club_id : Text) × (request.authenticate_bearer_token
      ≡ ok (some auth))
    × (request.parse_action_input ≡ ok parsed)
    × (extract_requested_club_id parsed ≡ some club_id)
    × IsClubAdmin auth.actor club_id
unfolding scope_declaration_for
dispatch_authenticated-IsClubAdmin_example =
    dispatch_authenticated-IsClubAdmin request "clubId" refl refl reaches_handler
