-- ===== src/Contributions/Verification.antt =====
-- apps/contributions/services.py: decisions on a record, its revocation, and the scan of its file.
use dev_nepal.Prelude.{
  ℕ, Bool, true, false, not, ◌&&◌, ◌||◌, Option, none, some, any, Text, is_some, is_none, same_id,
  ltb, ◌==◌, if◌then◌else◌,
}
use dev_nepal.Accounts.{Actor, is_publisher_active, is_super_admin}
use dev_nepal.Service.{
  returns, reply, fail_if, read, look, choose, transaction, ◌>>=◌, ◌>>◌, key_of,
}
use dev_nepal.Contributions.Data.{
  VerificationStatus, EvidenceScanStatus, ContributionRecord, Op, Payload, ContributionError, Call,
  audit_decision, refuse, require_privileged_mfa, update_row, require_reason, is_accepted,
  is_revoked, is_clean, is_provider_event, is_user,
}

-- DECISION_STATUSES
abbrev pub is_decision : VerificationStatus → Bool
is_decision VerificationStatus.accepted = true
is_decision VerificationStatus.rejected = true
is_decision VerificationStatus.pending_info = true
is_decision _ = false

unfoldable pub is_authorized_verifier : Actor → Call Bool
unfolding require_privileged_mfa
is_authorized_verifier none env s = (returns false, s)
is_authorized_verifier (some user) env s =
    if not user.is_active
    then (returns false, s)
    else if user.is_superuser
    then (require_privileged_mfa (some user) Op.verify_denied
            ContributionError.unauthorized_verifier
          >> reply true)
        env s
    else (returns (any (is_user user.pk) env.maintainers), s)

-- `verifier` has passed `_is_authorized_verifier`.
unfoldable pub is_valid_second_approver : Actor → (verifier : Actor) → Call Bool
unfolding require_privileged_mfa
is_valid_second_approver none verifier env s = (returns false, s)
is_valid_second_approver (some user) verifier env s =
    if not user.is_active || same_id (some user.pk) (key_of verifier)
    then (returns false, s)
    else if user.is_superuser || is_publisher_active env.publishers (some user) env.ministry
    then (require_privileged_mfa (some user) Op.verify_denied
            ContributionError.invalid_second_approver
          >> reply true)
        env s
    else (returns false, s)

-- A verifier may decide on their own work only with a second approval, unless the provider vouches
-- for it.
abbrev pub is_own_work : Actor → ContributionRecord → Bool
is_own_work verifier row =
    is_some row.contributor
    && same_id row.contributor (key_of verifier)
    && not (is_provider_event row.source)

unfoldable pub require_second_approval :
    Actor → VerificationStatus → (second : Actor) → Call (Option ℕ)
require_second_approval verifier decision second = do
  row ← read (λ s. s.row)
  choose (not (is_own_work verifier row)) (reply row.secondary_approval_by) (
      choose (is_none second)
        (refuse verifier Op.verify_denied (Payload.status_payload row.status)
          (Payload.decision_payload decision) ContributionError.self_approval)
        (is_valid_second_approver second verifier >>= λ valid.
          choose valid (reply (key_of second)) (
            refuse verifier Op.verify_denied (Payload.status_payload row.status)
              (Payload.decision_payload decision) ContributionError.invalid_second_approver)))

-- `link_profile_credit`, and the event of apps/analytics.
abbrev credit : VerificationStatus → Call (Unit {0})
credit decision = do
  evaluates ← look (λ env. env.evaluates)
  fail_if (is_accepted decision && not evaluates) ContributionError.recognition_evaluation
  lost ← look (λ env. is_some env.ministry && not env.records_event)
  fail_if (is_accepted decision && lost) ContributionError.contribution_analytics

abbrev pub decide :
    Actor
    → VerificationStatus
    → Text
    → (second : Option ℕ) → ℕ
    → ContributionRecord
    → ContributionRecord
decide verifier decision reason second now row = record row {
  status = decision;
  verified_by = key_of verifier;
  verified_at = some now;
  verification_note = reason;
  secondary_approval_by = second;
}

-- The transaction of `verify`.
unfoldable pub save_decision :
    Actor → VerificationStatus → Text → (second : Option ℕ) → Call (Unit {0})
unfolding audit_decision
save_decision verifier decision reason second = transaction do
  before ← read (λ s. s.row.status)
  now ← look (λ env. env.now)
  update_row (decide verifier decision reason second now)
  audit_decision verifier (Op.decided decision) (Payload.status_payload before)
      (Payload.decided_payload decision reason second)
  credit decision

abbrev pub lacks_scan : VerificationStatus → ContributionRecord → Bool
lacks_scan decision row =
    is_accepted decision && ltb 0 row.evidence_size_bytes && not (is_clean row.evidence_scan)

-- What `verify` does once its verifier is authorised.
unfoldable pub settle :
    (verifier : Actor) → VerificationStatus → (reason : Text) → (second : Actor) → Call (Unit {0})
settle verifier decision reason second = do
  row ← read (λ s. s.row)
  fail_if (is_revoked row.status) ContributionError.invalid_status_transition
  fail_if row.hold_active ContributionError.invalid_status_transition
  choose (lacks_scan decision row)
      (refuse verifier Op.verify_denied (Payload.status_scan row.status row.evidence_scan)
        (Payload.decision_payload decision) ContributionError.evidence_file_pending_scan)
      (reply tt)
  choose (is_accepted row.status)
      (refuse verifier Op.verify_denied (Payload.status_payload row.status)
        (Payload.decision_payload decision) ContributionError.invalid_status_transition)
      (reply tt)
  approved ← require_second_approval verifier decision second
  save_decision verifier decision reason approved

unfoldable pub verify :
    (verifier : Actor)
    → VerificationStatus
    → (reason : Text) → (second_approval_by : Actor) → Call (Unit {0})
verify verifier decision reason second = do
  cleaned ← require_reason reason
  fail_if (not (is_decision decision)) ContributionError.invalid_decision
  authorized ← is_authorized_verifier verifier
  choose authorized (settle verifier decision cleaned second) (
      refuse verifier Op.verify_denied Payload.nothing (Payload.decision_payload decision)
        ContributionError.unauthorized_verifier)

abbrev revoke_row : Actor → Text → ℕ → ContributionRecord → ContributionRecord
revoke_row super_admin reason now row = record row {
  status = VerificationStatus.revoked;
  revoked_by = key_of super_admin;
  revoked_at = some now;
  revocation_reason = reason;
}

-- The transaction of `revoke`.
unfoldable pub save_revocation : Actor → Text → Call (Unit {0})
unfolding audit_decision
save_revocation super_admin reason = transaction do
  before ← read (λ s. s.row.status)
  now ← look (λ env. env.now)
  update_row (revoke_row super_admin reason now)
  reverses ← look (λ env. env.reverses)
  fail_if (not reverses) ContributionError.recognition_evaluation
  audit_decision super_admin Op.revoked (Payload.status_payload before)
      (Payload.status_reason VerificationStatus.revoked reason)

unfoldable pub revoke : (super_admin : Actor) → (reason : Text) → Call (Unit {0})
unfolding require_privileged_mfa
revoke super_admin reason = do
  cleaned ← require_reason reason
  row ← read (λ s. s.row)
  choose (is_super_admin super_admin)
      (require_privileged_mfa super_admin Op.revoke_denied ContributionError.unauthorized_revoker)
      (refuse super_admin Op.revoke_denied (Payload.status_payload row.status) Payload.nothing
        ContributionError.unauthorized_revoker)
  fail_if (not (is_accepted row.status)) ContributionError.invalid_status_transition
  save_revocation super_admin cleaned

-- The results that a scanner reports.
abbrev is_scan_result : EvidenceScanStatus → Bool
is_scan_result EvidenceScanStatus.clean = true
is_scan_result EvidenceScanStatus.failed = true
is_scan_result EvidenceScanStatus.quarantined = true
is_scan_result _ = false

abbrev quarantine : ContributionRecord → ContributionRecord
quarantine row = record row {
  evidence_file = false;
  evidence_scan = EvidenceScanStatus.quarantined;
}

abbrev passed : ContributionRecord → ContributionRecord
passed row = record row { evidence_scan = EvidenceScanStatus.clean }

unfoldable pub record_evidence_scan_result : EvidenceScanStatus → Call (Unit {0})
unfolding audit_decision
record_evidence_scan_result scan_status = do
  row ← read (λ s. s.row)
  fail_if (row.evidence_size_bytes == 0) ContributionError.invalid_evidence_file
  fail_if (not (is_scan_result scan_status)) ContributionError.invalid_evidence_file
  deletes ← look (λ env. env.deletes_file)
  fail_if (not (is_clean scan_status) && not deletes) ContributionError.invalid_evidence_file
  choose (is_clean scan_status) (update_row passed) (update_row quarantine)
  after ← read (λ s. s.row.evidence_scan)
  audit_decision none Op.evidence_scanned (Payload.scan_payload row.evidence_scan)
      (Payload.scan_payload after)
