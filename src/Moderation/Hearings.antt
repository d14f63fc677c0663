-- ===== src/Moderation/Hearings.antt =====
-- apps/moderation/services.py: appeals, and their resolution.
use dev_nepal.Prelude.{ℕ, Bool, true, false, not, ◌||◌, some, Text, same_id, if◌then◌else◌}
use dev_nepal.Accounts.{Actor}
use dev_nepal.Service.{
  Reply, returns, raises, reply, fail_if, read, look, choose, transaction, ◌>>=◌, ◌>>◌, key_of,
}
use dev_nepal.Moderation.Data.{
  CaseStatus, AppealStatus, CaseEventType, Provenance, Comment, ModerationCase, Op, Payload,
  ModerationError, Env, Desk, Call, record_audit, refuse, require_super_admin, update_case,
  add_event, lacks_text,
}
use dev_nepal.Moderation.Enforcement.{restore_enforcement}
use dev_nepal.Moderation.Cases.{is_action_taken, is_appealed, is_outcome, is_overturned, is_pending}

abbrev pub appealed_case : Text → ℕ → ModerationCase → ModerationCase
appealed_case grounds now case = record case {
  appeal_text = grounds;
  appealed_at = some now;
  appeal_status = some AppealStatus.pending;
  status = CaseStatus.appealed;
}

unfoldable pub appeal : (member : Actor) → (grounds : Text) → Call (Unit {0})
unfolding record_audit add_event
appeal member grounds = do
  fail_if (lacks_text grounds) ModerationError.appeal_refused
  case ← read (λ s. s.case)
  fail_if case.security_containment ModerationError.security_containment
  fail_if (not (is_action_taken case.status)) ModerationError.appeal_refused
  choose (same_id case.reporter (key_of member)) (reply tt)
      (refuse member Op.appeal_denied Payload.nothing ModerationError.appeal_ownership)
  fail_if (is_pending case.appeal_status) ModerationError.appeal_refused
  now ← look (λ env. env.now)
  transaction do
    update_case (appealed_case grounds now)
    add_event member CaseEventType.appealed (Comment.text_comment grounds)
  record_audit member Op.appeal Payload.nothing
      (Payload.appeal_payload CaseStatus.appealed (some AppealStatus.pending) Provenance.nothing)

abbrev pub resolved : Actor → AppealStatus → ℕ → ModerationCase → ModerationCase
resolved super_admin outcome now case = record case {
  appeal_status = some outcome;
  appeal_decided_by = key_of super_admin;
  appeal_decided_at = some now;
  status = if is_overturned outcome then CaseStatus.closed_no_action else CaseStatus.action_taken;
}

-- The transaction of `resolve_appeal`.
unfoldable pub settle_appeal : Actor → AppealStatus → Text → Call (Unit {0})
unfolding add_event
settle_appeal super_admin outcome reason = transaction do
  choose (is_overturned outcome) (restore_enforcement super_admin) (reply tt)
  now ← look (λ env. env.now)
  update_case (resolved super_admin outcome now)
  add_event super_admin CaseEventType.decided (Comment.text_comment reason)
  choose (is_overturned outcome)
      (add_event super_admin CaseEventType.reinstated (Comment.text_comment reason)) (reply tt)

abbrev is_restoration : ModerationError → Bool
is_restoration ModerationError.appeal_restoration = true
is_restoration _ = false

-- `except AppealRestorationError:`, with the audit of the denial.
abbrev pub rescue :
    Actor → Reply ModerationError (Unit {0}) × Desk → Env → Reply ModerationError (Unit {0}) × Desk
rescue super_admin (returns a, s) env = (returns a, s)
rescue super_admin (raises e, s) env =
    if is_restoration e
    then refuse super_admin Op.appeal_restore_denied (Payload.action_payload s.case.action) e env s
    else (raises e, s)

abbrev settle_or_audit : Actor → AppealStatus → Text → Call (Unit {0})
settle_or_audit super_admin outcome reason env s =
    rescue super_admin (settle_appeal super_admin outcome reason env s) env

abbrev pub restored_payload : AppealStatus → ModerationCase → Payload
restored_payload outcome case =
    Payload.appeal_payload case.status case.appeal_status
      (if is_overturned outcome then case.enforcement_provenance else Provenance.nothing)

unfoldable pub resolve_appeal :
    (super_admin : Actor) → AppealStatus → (reason : Text) → Call (Unit {0})
unfolding record_audit
resolve_appeal super_admin outcome reason = do
  require_super_admin super_admin Op.appeal_resolved
  fail_if (not (is_outcome outcome)) ModerationError.appeal_refused
  fail_if (lacks_text reason) ModerationError.appeal_refused
  before ← read (λ s. s.case)
  fail_if (not (is_appealed before.status) || not (is_pending before.appeal_status))
      ModerationError.appeal_refused
  settle_or_audit super_admin outcome reason
  after ← read (λ s. s.case)
  record_audit super_admin Op.appeal_resolved
      (Payload.appeal_payload before.status before.appeal_status Provenance.nothing)
      (restored_payload outcome after)
