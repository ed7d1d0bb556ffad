-- ===== src/Dispatch/Access.antt =====
-- src/dispatch.ts: what an authenticated request must have passed before it costs anything.
use clawclub_server.Common.{
  String, ◌≡◌, refl, ap, ◌∙◌, ◌⊎◌, inl, inr, Bool, true, false, not, Option, none, some, List, [],
  ◌∷◌, arith, if◌then◌else◌, any, Result, ok, guard, or_throw, Option-cases, Text, Result-cases,
}
use clawclub_server.Errors.{ErrorCode, invalid_data, unauthenticated}
use clawclub_server.Dispatch.Payload.{Payload, extract_requested_club_id}
use clawclub_server.Dispatch.Authorize.{
  clubadmin, raw_club_id, pre_authorize_role, pre_authorize_raw_scope, pre_authorize_parsed_scope,
  IsClubAdmin, require_club_admin-eq-ok_iff, scope_declaration_for,
}
use clawclub_server.Dispatch.Exec.{
  Effect, stamped_member, logged_request, Exec, lift, safely, ◌>>=◌ as ◌>>>=◌, ◌>>◌ as ◌>>>◌,
  rethrowing,
}
use clawclub_server.Dispatch.Pipeline.{
  Request, AuthResult, token_given, dispatch_authenticated, execute_authenticated,
  execute_with_client_key_barrier_if_present, log_unless_replay, check_gate_club,
}

-- Everything but the stamp and the log of the request.
unfoldable pub is_costly : Effect → Bool
is_costly stamped_member = false
is_costly logged_request = false
is_costly _ = true

-- The actor passed each check of the declared auth and scope, on the raw and on the parsed input.
pub record Authorized (req : Request) : Type 0 where
  pub auth : AuthResult
  pub parsed : Payload
  pub authenticated : req.authenticate_bearer_token ≡ ok (some auth)
  pub parses : req.parse_action_input ≡ ok parsed
  pub role_passed : pre_authorize_role req.def.auth auth.actor ≡ ok tt
  pub raw_scope_passed :
      pre_authorize_raw_scope req.def.auth req.def.scope req.payload auth.actor ≡ ok tt
  pub parsed_scope_passed :
      pre_authorize_parsed_scope req.def.auth req.def.scope parsed auth.actor ≡ ok tt

module _ (req : Request) where
  -- A computation that costs something only if the request is authorized.
  unfoldable CostsIfAuthorized : {A : Type 0} → Exec A → Type 0
  CostsIfAuthorized m =
      (trace : List Effect)
      → any is_costly trace ≡ false
      → (any is_costly (m trace).1 ≡ false) ⊎ Authorized req

  free : {A : Type 0} (r : Result A) → CostsIfAuthorized (lift r)
  unfolding CostsIfAuthorized
  free r trace h = inl h

  granted : {A : Type 0} (m : Exec A) → Authorized req → CostsIfAuthorized m
  unfolding CostsIfAuthorized
  granted m p trace h = inr p

  check :
      {A B : Type 0} (r : Result A) (f : A → Exec B)
      → ((a : A) → r ≡ ok a → CostsIfAuthorized (f a))
      → CostsIfAuthorized (lift r >>>= f)
  unfolding CostsIfAuthorized
  check r f hf trace h = elim (Result-cases r) [
    | inl (a, e) ↦ rw e (hf a e trace h)
    | inr (x, e) ↦ rw e (inl h)
  ]

  logs :
      {B : Type 0} (e : Effect) (k : Exec B)
      → is_costly e ≡ false
      → CostsIfAuthorized k
      → CostsIfAuthorized (safely e >>> k)
  unfolding CostsIfAuthorized
  logs e k he hk trace h = hk (e ∷ trace) (ground arith)

  when :
      {A : Type 0} (b : Bool) (m k : Exec A)
      → CostsIfAuthorized m
      → CostsIfAuthorized k
      → CostsIfAuthorized (if b then m else k)
  when true m k hm hk = hm
  when false m k hm hk = hk

  seq :
      {A B : Type 0} (m : Exec A) (f : A → Exec B)
      → CostsIfAuthorized m
      → ((a : A) → CostsIfAuthorized (f a))
      → CostsIfAuthorized (m >>>= f)
  unfolding CostsIfAuthorized
  seq m f hm hf trace h = elim (Result-cases (m trace).0) [
    | inl (a, r) ↦ elim (hm trace h) [ inl cheap ↦ rw r (hf a (m trace).1 cheap) | inr p ↦ inr p ]
    | inr (e, r) ↦ rw r (hm trace h)
  ]

  stamp :
      {B : Type 0} (k : Exec B)
      → CostsIfAuthorized k
      → CostsIfAuthorized (safely stamped_member >>> k)
  unfolding CostsIfAuthorized is_costly
  stamp k hk trace h = hk (stamped_member ∷ trace) h

  log : CostsIfAuthorized (safely logged_request)
  unfolding CostsIfAuthorized is_costly
  log trace h = inl h

  log_unless_replay-costs : CostsIfAuthorized (log_unless_replay req)
  unfolding log_unless_replay
  log_unless_replay-costs =
      seq _ _ (when req.gate.has_client_key _ _ (free req.replay_at_log) (free (ok false)))
        (λ replay. when replay _ _ (free (ok tt)) log)

  parse :
      {B : Type 0} (f : Payload → Exec B)
      → ((parsed : Payload) → req.parse_action_input ≡ ok parsed → CostsIfAuthorized (f parsed))
      → CostsIfAuthorized (rethrowing (lift req.parse_action_input) (safely logged_request) >>>= f)
  unfolding CostsIfAuthorized is_costly
  parse f hf trace h = elim (Result-cases req.parse_action_input) [
    | inl (a, r) ↦ simp r (hf a r trace h)
    | inr (e, r) ↦ simp r (inl h)
  ]

  module _ (auth : AuthResult) (parsed : Payload)
      (authenticated : req.authenticate_bearer_token ≡ ok (some auth))
      (parses : req.parse_action_input ≡ ok parsed)
      (role : pre_authorize_role req.def.auth auth.actor ≡ ok tt)
      (raw : pre_authorize_raw_scope req.def.auth req.def.scope req.payload auth.actor
        ≡ ok tt) where
    execute_authenticated-costs : CostsIfAuthorized (execute_authenticated req auth.actor parsed)
    unfolding execute_authenticated
    execute_authenticated-costs = seq _ _ log_unless_replay-costs (λ _.
        check (pre_authorize_parsed_scope req.def.auth req.def.scope parsed auth.actor) _
          (λ _ scope. granted _ (record {
            auth = auth;
            parsed = parsed;
            authenticated = authenticated;
            parses = parses;
            role_passed = role;
            raw_scope_passed = raw;
            parsed_scope_passed = scope;
          })))

    barrier-costs : CostsIfAuthorized (
        execute_with_client_key_barrier_if_present req true
          (execute_authenticated req auth.actor parsed))
    unfolding execute_with_client_key_barrier_if_present
    barrier-costs = when (not req.gate.has_client_key) _ _ execute_authenticated-costs (
        check (ok tt) _ (λ _ _.
          check (guard req.has_client_key_barrier invalid_data) _
            (λ _ _. execute_authenticated-costs)))

  or_throw-eq-ok :
      {A : Type 0} (o : Option A) (e : ErrorCode) (a : A) → or_throw o e ≡ ok a → o ≡ some a
  or_throw-eq-ok none e a h = cc
  or_throw-eq-ok (some x) e a h = cc

  dispatch_authenticated-costs : CostsIfAuthorized (dispatch_authenticated req)
  unfolding dispatch_authenticated
  dispatch_authenticated-costs =
      check (guard (token_given req.bearer_token) unauthenticated) _ (λ _ _.
        check req.authenticate_bearer_token _ (λ found known.
          check (or_throw found unauthenticated) _ (λ auth is_auth.
            check (pre_authorize_role req.def.auth auth.actor) _ (λ _ role.
              check (pre_authorize_raw_scope req.def.auth req.def.scope req.payload auth.actor) _
                (λ _ raw. stamp _ (
                  parse _ (λ parsed parses. check (check_gate_club req auth parsed) _ (λ _ _.
                    barrier-costs auth parsed
                      (known ∙ ap ok (or_throw-eq-ok found unauthenticated auth is_auth)) parses
                      role raw))))))))

-- A request that reaches the quota, a budget, the gate or the handler of an action for members is
-- authorized: it passed the checks of the action's auth and of its scope, on the raw payload and on
-- the parsed input.
pub dispatch_authenticated-Authorized :
    (req : Request) → any is_costly (dispatch_authenticated req []).1 ≡ true → Authorized req
unfolding CostsIfAuthorized
dispatch_authenticated-Authorized req h = elim (dispatch_authenticated-costs req [] refl) [
  | inl cheap ↦ cc
  | inr p ↦ p
]

-- For an action of club admins whose scope is a club, that means: the input names a club that the
-- actor administers.
Authorized-IsClubAdmin :
    (req : Request) (key : String)
    → req.def.auth ≡ clubadmin
    → scope_declaration_for clubadmin req.def.scope ≡ raw_club_id key
    → (a : Authorized req)
    → (club_id : Text) × (extract_requested_club_id a.parsed ≡ some club_id)
      × IsClubAdmin a.auth.actor club_id
unfolding pre_authorize_parsed_scope
Authorized-IsClubAdmin req key auth scope a =
    let passed = a.parsed_scope_passed in
    elim (Option-cases (extract_requested_club_id a.parsed)) [
      | inl n ↦ cc (simp (auth, scope, n) at passed)
      | inr (club_id, n) ↦ (
        club_id,
        n,
        (require_club_admin-eq-ok_iff a.auth.actor club_id).0 (simp (auth, scope, n) at passed),
      )
    ]

-- A request that reaches the quota, a budget, the gate or the handler of an action of club admins
-- whose scope, declared or implied, is a club (`rawClubId`, with any key) names a club in its parsed
-- input that its actor administers, or names one and the actor is a superadmin.
pub dispatch_authenticated-IsClubAdmin :
    (req : Request) (key : String)
    → req.def.auth ≡ clubadmin
    → scope_declaration_for clubadmin req.def.scope ≡ raw_club_id key
    → any is_costly (dispatch_authenticated req []).1 ≡ true
    → (auth : AuthResult) × (parsed : Payload) × (club_id : Text) × (req.authenticate_bearer_token
        ≡ ok (some auth))
      × (req.parse_action_input ≡ ok parsed)
      × (extract_requested_club_id parsed ≡ some club_id)
      × IsClubAdmin auth.actor club_id
dispatch_authenticated-IsClubAdmin req key auth scope h =
    let a = dispatch_authenticated-Authorized req h in
    let (club_id, names, admin) = Authorized-IsClubAdmin req key auth scope a in
    (a.auth, a.parsed, club_id, a.authenticated, a.parses, names, admin)
