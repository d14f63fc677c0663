-- ===== src/Contributions/Holds.antt =====
-- apps/contributions/services.py: the holds of the PMO.
use dev_nepal.Prelude.{
  ℕ, Bool, true, false, not, ◌&&◌, ◌||◌, Option, none, some, [], Text, is_some, is_nil, same_id,
}
use dev_nepal.Accounts.{Actor, is_super_admin}
use dev_nepal.Service.{reply, read, look, choose, transaction, ◌>>=◌, ◌>>◌, key_of}
use dev_nepal.Contributions.Data.{
  VerificationStatus, ContributionRecord, Op, Payload, ContributionError, Call, audit_decision,
  refuse, require_privileged_mfa, update_row, require_reason, require_hold_response, is_unscored,
}

-- `_require_hold_manager`
unfoldable pub require_hold_manager : Actor → Op → Call (Unit {0})
unfolding require_privileged_mfa
require_hold_manager actor op = do
  status ← read (λ s. s.row.status)
  choose (is_super_admin actor)
      (require_privileged_mfa actor op ContributionError.unauthorized_hold_manager)
      (refuse actor op (Payload.status_payload status) Payload.nothing
        ContributionError.unauthorized_hold_manager)

abbrev pub hold : Actor → Text → ℕ → ContributionRecord → ContributionRecord
hold pmo reason now row = record row {
  held_from_status = some row.status;
  hold_active = true;
  hold_reason = reason;
  held_by = key_of pmo;
  held_at = some now;
  hold_released_by = none;
  hold_released_at = none;
  hold_release_reason = [];
  hold_response = [];
  hold_responded_at = none;
}

unfoldable pub place_on_hold : (pmo : Actor) → (reason : Text) → Call (Unit {0})
unfolding audit_decision
place_on_hold pmo reason = do
  cleaned ← require_reason reason
  require_hold_manager pmo Op.hold_denied
  transaction do
    locked ← read (λ s. s.row)
    choose (locked.hold_active || not (is_unscored locked.status))
        (refuse pmo Op.hold_denied (Payload.status_payload locked.status) Payload.nothing
          ContributionError.invalid_status_transition)
        (reply tt)
    now ← look (λ env. env.now)
    update_row (hold pmo cleaned now)
    audit_decision pmo Op.held (Payload.hold_payload locked.status false [])
        (Payload.hold_payload locked.status true cleaned)

abbrev pub was_unscored : Option VerificationStatus → Bool
was_unscored none = false
was_unscored (some status) = is_unscored status

abbrev pub release : Actor → Text → ℕ → ContributionRecord → ContributionRecord
release pmo reason now row = record row {
  hold_active = false;
  hold_released_by = key_of pmo;
  hold_released_at = some now;
  hold_release_reason = reason;
}

unfoldable pub release_hold : (pmo : Actor) → (reason : Text) → Call (Unit {0})
unfolding audit_decision
release_hold pmo reason = do
  cleaned ← require_reason reason
  require_hold_manager pmo Op.release_hold_denied
  transaction do
    locked ← read (λ s. s.row)
    choose (not locked.hold_active || not (was_unscored locked.held_from_status))
        (refuse pmo Op.release_hold_denied (Payload.status_payload locked.status) Payload.nothing
          ContributionError.invalid_status_transition)
        (reply tt)
    now ← look (λ env. env.now)
    update_row (release pmo cleaned now)
    audit_decision pmo Op.hold_released (Payload.hold_payload locked.status true [])
        (Payload.hold_payload locked.status false cleaned)

-- The active account of the record's contributor.
abbrev pub is_contributor : Actor → ContributionRecord → Bool
is_contributor none row = false
is_contributor (some user) row = user.is_active && same_id row.contributor (some user.pk)

abbrev pub responded : ContributionRecord → Bool
responded row = is_some row.hold_responded_at || not (is_nil row.hold_response)

abbrev pub respond : Text → ℕ → ContributionRecord → ContributionRecord
respond response now row = record row { hold_response = response; hold_responded_at = some now }

abbrev refuse_response : Actor → VerificationStatus → ContributionError → Call (Unit {0})
refuse_response actor status e =
    refuse actor Op.hold_response_denied (Payload.status_payload status) Payload.nothing e

unfoldable pub respond_to_hold : (contributor : Actor) → (response : Text) → Call (Unit {0})
unfolding audit_decision
respond_to_hold contributor response = do
  cleaned ← require_hold_response response
  row ← read (λ s. s.row)
  choose (is_contributor contributor row) (reply tt)
      (refuse_response contributor row.status ContributionError.unauthorized_hold_responder)
  transaction do
    choose row.hold_active (reply tt)
        (refuse_response contributor row.status ContributionError.invalid_status_transition)
    choose (responded row)
        (refuse_response contributor row.status ContributionError.hold_response_already_recorded)
        (reply tt)
    now ← look (λ env. env.now)
    update_row (respond cleaned now)
    audit_decision contributor Op.hold_responded (Payload.status_payload row.status)
        (Payload.response_payload row.status cleaned)
