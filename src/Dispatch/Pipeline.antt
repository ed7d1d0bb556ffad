-- ===== src/Dispatch/Pipeline.antt =====
-- src/dispatch.ts: `runQuotaFor`, `executeWithClientKeyBarrierIfPresent`, `dispatchCold`,
-- `dispatchOptionalMember`, `dispatchAuthenticated` and `dispatch`. What the registered action and
-- the repository answer in one request are the fields of `Request`.
use clawclub_server.Common.{
  String, Bool, true, false, not, ◌&&◌, ◌||◌, Option, none, some, List, if◌then◌else◌, any, Result,
  ok, guard, or_throw, Text, text_eq, trim, is_visible_text,
}
use clawclub_server.Errors.{
  invalid_data, invalid_input, unknown_action, unauthenticated, forbidden_scope, not_implemented,
}
use clawclub_server.Quotas.Allowance.{QuotaAction}
use clawclub_server.Quotas.Allowance.QuotaAction.{
  content_create, messages_send, llm_output_tokens, embedding_query, clubs_apply, clubs_create,
}
use clawclub_server.Dispatch.Payload.{
  RawValue, str, other, Payload, extract_requested_club_id_for_gate,
}
use clawclub_server.Dispatch.Authorize.{
  Actor, ActionAuth, no_auth, optional_member, ScopeStrategy, pre_authorize_role,
  pre_authorize_raw_scope, pre_authorize_parsed_scope,
}
use clawclub_server.Dispatch.Exec.{
  stamped_member, logged_request, enforced_quota, ran_handler, Exec, pure, throw, lift, call,
  safely, ◌>>=◌, ◌>>◌, rethrowing,
}
use clawclub_server.Dispatch.Gate.{GateRun, run_llm_gate_for}

-- A registered action, as far as the pipeline reads it. Its idempotency and its gate are in `GateRun`.
pub record ActionDefinition : Type 0 where
  pub action : String
  pub auth : ActionAuth
  pub scope : Option ScopeStrategy
  pub skip_requested_club_scope_precheck : Bool
  pub quota_action : Option QuotaAction
  pub has_handler : Bool
  pub refresh_actor_on_success : Bool

pub record AuthResult : Type 0 where
  pub actor : Actor
  pub active_club_ids : List Text

pub record Request : Type 0 where
  pub def : ActionDefinition
  pub bearer_token : Option Text
  pub payload : Payload
  pub authenticate_bearer_token : Result (Option AuthResult)
  pub parse_action_input : Result Payload
  pub has_client_key_barrier : Bool
  -- `peekIdempotencyReplay`, where the repository has it, before the log and before the quota
  pub replay_at_log : Result Bool
  pub replay_at_quota : Result Bool
  pub pre_gate : Result (Unit {0})
  -- `resolveBudgetClubId`, or else the club that the request names; `false` where there is none
  pub has_quota_club : Result Bool
  -- whether the repository has `enforceContentCreateQuota`, and its answer
  pub has_content_create_quota : Bool
  pub enforce_content_create_quota : Result (Unit {0})
  pub gate : GateRun
  pub handle : Result (Unit {0})
  -- whether the token is still valid
  pub refreshed : Result Bool

-- The branches on the declared quota.
unfoldable pub enforce_quota : Request → QuotaAction → Exec (Unit {0})
enforce_quota req content_create = do
  club ← lift req.has_quota_club
  lift (guard club invalid_data)
  lift (guard req.has_content_create_quota invalid_data)
  call enforced_quota req.enforce_content_create_quota
enforce_quota req messages_send = throw invalid_data
enforce_quota req llm_output_tokens = throw invalid_data
enforce_quota req embedding_query = throw invalid_data
enforce_quota req clubs_apply = throw invalid_data
enforce_quota req clubs_create = throw invalid_data

-- A replay is not counted again.
abbrev quota_for : Request → Option QuotaAction → Exec (Unit {0})
quota_for req none = pure tt
quota_for req (some action) = do
  replay ← if req.gate.has_client_key then lift req.replay_at_quota else pure false
  if replay then pure tt else enforce_quota req action

unfoldable pub run_quota_for : Request → Exec (Unit {0})
run_quota_for req = quota_for req req.def.quota_action

-- A client key needs an actor and the lock of the repository.
unfoldable pub execute_with_client_key_barrier_if_present :
    Request → (has_actor : Bool) → Exec (Unit {0}) → Exec (Unit {0})
execute_with_client_key_barrier_if_present req has_actor execute =
    if not req.gate.has_client_key then execute else do
      lift (guard has_actor invalid_data)
      lift (guard req.has_client_key_barrier invalid_data)
      execute

-- A replay is not logged again.
unfoldable pub log_unless_replay : Request → Exec (Unit {0})
log_unless_replay req = do
  replay ← if req.gate.has_client_key then lift req.replay_at_log else pure false
  if replay then pure tt else safely logged_request

-- The club that a gated request names is one of the actor's, unless the actor is a superadmin.
abbrev club_in_scope : AuthResult → Option Text → Bool
club_in_scope auth none = true
club_in_scope auth (some club_id) =
    any (text_eq club_id) auth.active_club_ids || auth.actor.is_superadmin

unfoldable pub check_gate_club : Request → AuthResult → Payload → Result (Unit {0})
check_gate_club req auth parsed =
    if req.gate.has_gate && not req.def.skip_requested_club_scope_precheck
    then guard (club_in_scope auth (extract_requested_club_id_for_gate req.def.action parsed))
        forbidden_scope
    else ok tt

-- The handler, and the actor read again where the action asks for it.
abbrev run_handler : Request → Exec (Unit {0})
run_handler req = do
  lift (guard req.def.has_handler not_implemented)
  call ran_handler req.handle
  if req.def.refresh_actor_on_success
      then (lift req.refreshed >>= λ valid. lift (guard valid unauthenticated))
      else pure tt

-- The gate for a request with or without an actor.
abbrev gate_for : Request → Bool → Exec (Unit {0})
gate_for req has_actor = run_llm_gate_for (record req.gate { has_actor = has_actor })

-- The request once it is authorized as far as the parsed input tells.
unfoldable pub execute_authenticated : Request → Actor → Payload → Exec (Unit {0})
execute_authenticated req actor parsed = do
  log_unless_replay req
  lift (pre_authorize_parsed_scope req.def.auth req.def.scope parsed actor)
  lift req.pre_gate
  run_quota_for req
  gate_for req true
  run_handler req

abbrev pub token_given : Option Text → Bool
token_given none = false
token_given (some t) = is_visible_text t

unfoldable pub dispatch_authenticated : Request → Exec (Unit {0})
dispatch_authenticated req = do
  lift (guard (token_given req.bearer_token) unauthenticated)
  found ← lift req.authenticate_bearer_token
  auth ← lift (or_throw found unauthenticated)
  lift (pre_authorize_role req.def.auth auth.actor)
  lift (pre_authorize_raw_scope req.def.auth req.def.scope req.payload auth.actor)
  safely stamped_member
  parsed ← rethrowing (lift req.parse_action_input) (safely logged_request)
  lift (check_gate_club req auth parsed)
  execute_with_client_key_barrier_if_present req true (execute_authenticated req auth.actor parsed)

-- Without an actor a gated action fails, and so does a client key.
unfoldable pub dispatch_cold : Request → Exec (Unit {0})
dispatch_cold req = do
  parsed ← lift req.parse_action_input
  execute_with_client_key_barrier_if_present req false do
    gate_for req false
    lift (guard req.def.has_handler not_implemented)
    call ran_handler req.handle

-- The actor of an action that may be called with or without a token.
abbrev optional_actor : Request → Exec (Option Actor)
optional_actor req = elim req.bearer_token [
  | none ↦ pure none
  | some t ↦ do
    lift (guard (is_visible_text t) unauthenticated)
    found ← lift req.authenticate_bearer_token
    auth ← lift (or_throw found unauthenticated)
    safely stamped_member
    pure (some auth.actor)
]

abbrev is_some : {A : Type 0} → Option A → Bool
is_some none = false
is_some (some a) = true

unfoldable pub dispatch_optional_member : Request → Exec (Unit {0})
dispatch_optional_member req = do
  actor ← optional_actor req
  parsed ← lift req.parse_action_input
  execute_with_client_key_barrier_if_present req (is_some actor) do
    gate_for req (is_some actor)
    lift (guard req.def.has_handler not_implemented)
    call ran_handler req.handle

-- The branch on the auth that the action declares.
unfoldable pub dispatch_known : Request → Exec (Unit {0})
dispatch_known req = elim req.def.auth [
  | no_auth ↦ dispatch_cold req
  | optional_member ↦ dispatch_optional_member req
  | ActionAuth.member ↦ dispatch_authenticated req
  | ActionAuth.clubadmin ↦ dispatch_authenticated req
  | ActionAuth.superadmin ↦ dispatch_authenticated req
]

-- An action that is not registered: a caller with a valid token is logged.
abbrev unknown : (known_caller : Bool) → Exec (Unit {0})
unknown known_caller =
    (if known_caller then (safely stamped_member >> safely logged_request) else pure tt)
    >> throw unknown_action

abbrev dispatch_found : Bool → Option Request → Exec (Unit {0})
dispatch_found known_caller none = unknown known_caller
dispatch_found known_caller (some req) = dispatch_known req

-- `get_action` gives the request under the definition of the action of that name.
unfoldable pub dispatch :
    (get_action : Text → Option Request) (known_caller : Bool) (action : RawValue) → Exec (Unit {0})
dispatch get_action known_caller (str action) =
    if is_visible_text action
    then dispatch_found known_caller (get_action (trim action))
    else throw invalid_input
dispatch get_action known_caller other = throw invalid_input
