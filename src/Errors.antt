-- ===== src/Errors.antt =====
-- src/errors.ts: the error codes and their HTTP statuses.
use Prim.Native.Nat.{ℕ}

pub data ErrorCode : Type 0 where
  account_not_active : ErrorCode
  application_blocked : ErrorCode
  application_already_decided : ErrorCode
  application_creation_failed : ErrorCode
  application_in_flight : ErrorCode
  application_limit_reached : ErrorCode
  application_not_mutable : ErrorCode
  application_not_found : ErrorCode
  application_update_failed : ErrorCode
  candidate_name_required : ErrorCode
  challenge_already_used : ErrorCode
  challenge_expired : ErrorCode
  client_key_conflict : ErrorCode
  club_already_exists : ErrorCode
  club_archive_expired : ErrorCode
  club_archive_not_found : ErrorCode
  club_archived : ErrorCode
  club_not_found : ErrorCode
  content_already_removed : ErrorCode
  content_not_found : ErrorCode
  duplicate_vouch : ErrorCode
  email_already_registered : ErrorCode
  email_does_not_match_invite : ErrorCode
  embedding_unavailable : ErrorCode
  event_not_found : ErrorCode
  event_rsvp_closed : ErrorCode
  forbidden_role : ErrorCode
  forbidden_scope : ErrorCode
  gate_rejected : ErrorCode
  gate_unavailable : ErrorCode
  illegal_content : ErrorCode
  invalid_data : ErrorCode
  invalid_auth_header : ErrorCode
  invalid_challenge : ErrorCode
  invalid_input : ErrorCode
  invalid_invitation_code : ErrorCode
  invalid_json : ErrorCode
  invalid_mentions : ErrorCode
  invalid_proof : ErrorCode
  invalid_state_transition : ErrorCode
  invalid_state : ErrorCode
  invitation_expired : ErrorCode
  invitation_invalid : ErrorCode
  invitation_quota_exceeded : ErrorCode
  invitation_issue_failed : ErrorCode
  invitation_already_expired : ErrorCode
  invitation_already_open : ErrorCode
  invitation_already_revoked : ErrorCode
  invitation_ambiguous : ErrorCode
  invitation_not_found : ErrorCode
  invitation_revoked : ErrorCode
  invitation_support_withdrawn : ErrorCode
  invitation_used : ErrorCode
  low_quality_content : ErrorCode
  member_already_active : ErrorCode
  member_creation_failed : ErrorCode
  member_cap_below_current_count : ErrorCode
  member_cap_reached : ErrorCode
  member_delete_blocked : ErrorCode
  member_not_found : ErrorCode
  method_not_allowed : ErrorCode
  message_already_removed : ErrorCode
  message_not_found : ErrorCode
  membership_exists : ErrorCode
  membership_not_found : ErrorCode
  missing_row : ErrorCode
  owner_club_limit_reached : ErrorCode
  not_available : ErrorCode
  not_found : ErrorCode
  not_implemented : ErrorCode
  payload_timeout : ErrorCode
  payload_too_large : ErrorCode
  profile_not_found : ErrorCode
  profile_generation_unavailable : ErrorCode
  quota_exceeded : ErrorCode
  recipient_unavailable : ErrorCode
  remove_requires_archived : ErrorCode
  slug_conflict : ErrorCode
  sponsor_not_found : ErrorCode
  stale_client : ErrorCode
  secret_replay_unavailable : ErrorCode
  thread_not_found : ErrorCode
  token_not_found : ErrorCode
  unauthenticated : ErrorCode
  unknown_action : ErrorCode
  version_conflict : ErrorCode
  vouchee_not_accessible : ErrorCode
  worker_fatal : ErrorCode

-- The record `ERROR_STATUS`.
pub error_status : ErrorCode → ℕ
error_status account_not_active = 403
error_status application_blocked = 403
error_status application_already_decided = 409
error_status application_creation_failed = 500
error_status application_in_flight = 409
error_status application_limit_reached = 429
error_status application_not_mutable = 409
error_status application_not_found = 404
error_status application_update_failed = 500
error_status candidate_name_required = 422
error_status challenge_already_used = 422
error_status challenge_expired = 422
error_status client_key_conflict = 409
error_status club_already_exists = 409
error_status club_archive_expired = 409
error_status club_archive_not_found = 404
error_status club_archived = 409
error_status club_not_found = 404
error_status content_already_removed = 409
error_status content_not_found = 404
error_status duplicate_vouch = 409
error_status email_already_registered = 409
error_status email_does_not_match_invite = 409
error_status embedding_unavailable = 503
error_status event_not_found = 404
error_status event_rsvp_closed = 409
error_status forbidden_role = 403
error_status forbidden_scope = 403
error_status gate_rejected = 422
error_status gate_unavailable = 503
error_status illegal_content = 422
error_status invalid_data = 500
error_status invalid_auth_header = 401
error_status invalid_challenge = 422
error_status invalid_input = 400
error_status invalid_invitation_code = 422
error_status invalid_json = 400
error_status invalid_mentions = 409
error_status invalid_proof = 422
error_status invalid_state_transition = 409
error_status invalid_state = 409
error_status invitation_expired = 409
error_status invitation_invalid = 404
error_status invitation_quota_exceeded = 429
error_status invitation_issue_failed = 500
error_status invitation_already_expired = 409
error_status invitation_already_open = 409
error_status invitation_already_revoked = 409
error_status invitation_ambiguous = 409
error_status invitation_not_found = 404
error_status invitation_revoked = 409
error_status invitation_support_withdrawn = 409
error_status invitation_used = 409
error_status low_quality_content = 422
error_status member_already_active = 409
error_status member_creation_failed = 500
error_status member_cap_below_current_count = 409
error_status member_cap_reached = 409
error_status member_delete_blocked = 409
error_status member_not_found = 404
error_status method_not_allowed = 405
error_status message_already_removed = 409
error_status message_not_found = 404
error_status membership_exists = 409
error_status membership_not_found = 404
error_status missing_row = 500
error_status owner_club_limit_reached = 409
error_status not_available = 501
error_status not_found = 404
error_status not_implemented = 501
error_status payload_timeout = 408
error_status payload_too_large = 413
error_status profile_not_found = 404
error_status profile_generation_unavailable = 503
error_status quota_exceeded = 429
error_status recipient_unavailable = 404
error_status remove_requires_archived = 409
error_status slug_conflict = 409
error_status sponsor_not_found = 404
error_status stale_client = 409
error_status secret_replay_unavailable = 409
error_status thread_not_found = 404
error_status token_not_found = 404
error_status unauthenticated = 401
error_status unknown_action = 400
error_status version_conflict = 409
error_status vouchee_not_accessible = 404
error_status worker_fatal = 500
