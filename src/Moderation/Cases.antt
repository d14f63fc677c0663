-- ===== src/Moderation/Cases.antt =====
-- apps/moderation/services.py: reports, assignment, decisions and containment.
use dev_nepal.Prelude.{
  ℕ, Bool, true, false, not, Option, none, some, [], ◌∷◌, Text, is_nil, if◌then◌else◌,
}
use dev_nepal.Accounts.{Actor}
use dev_nepal.Service.{
  Reply, returns, raises, reply, fail_if, read, look, choose, transaction, ◌>>=◌, ◌>>◌, key_of,
}
use dev_nepal.Moderation.Data.{
  ReportReason, CaseStatus, ModerationAction, AppealStatus, CaseEventType, Target, Provenance,
  Comment, ModerationCase, Op, Payload, ModerationError, Env, Desk, Call, record_audit, refuse,
  require_super_admin, update_case, add_event, lacks_text, payload_of,
}
use dev_nepal.Moderation.Enforcement.{enforce_action}

-- SECURITY_REASONS
unfoldable pub is_security_reason : ReportReason → Bool
is_security_reason ReportReason.security_concern = true
is_security_reason ReportReason.malware = true
is_security_reason ReportReason.unsafe_link = true
is_security_reason _ = false

-- DECISION_TARGET_STATUS
unfoldable pub decision_target_status : ModerationAction → CaseStatus
decision_target_status ModerationAction.no_action = CaseStatus.closed_no_action
decision_target_status ModerationAction.escalation = CaseStatus.escalated
decision_target_status _ = CaseStatus.action_taken

-- WORKING_STATUSES
abbrev pub is_working : CaseStatus → Bool
is_working CaseStatus.new = true
is_working CaseStatus.under_review = true
is_working CaseStatus.escalated = true
is_working _ = false

abbrev pub is_action_taken : CaseStatus → Bool
is_action_taken CaseStatus.action_taken = true
is_action_taken _ = false

abbrev pub is_appealed : CaseStatus → Bool
is_appealed CaseStatus.appealed = true
is_appealed _ = false

abbrev pub is_pending : Option AppealStatus → Bool
is_pending (some AppealStatus.pending) = true
is_pending _ = false

abbrev pub is_overturned : AppealStatus → Bool
is_overturned AppealStatus.overturned = true
is_overturned _ = false

abbrev pub is_outcome : AppealStatus → Bool
is_outcome AppealStatus.pending = false
is_outcome _ = true

abbrev pub new_case :
    (pk : ℕ) → Actor → ReportReason → (details evidence_url : Text) → Env → ModerationCase
new_case pk reporter reason details evidence_url env = record {
  pk = pk;
  reporter = key_of reporter;
  reason = reason;
  details = details;
  evidence_url = evidence_url;
  assigned_to = none;
  status = if is_security_reason reason then CaseStatus.escalated else CaseStatus.new;
  action = none;
  action_reason = none;
  enforcement_provenance = Provenance.nothing;
  decision_comment = [];
  decided_by = none;
  decided_at = none;
  appeal_text = [];
  appealed_at = none;
  appeal_status = none;
  appeal_decided_by = none;
  appeal_decided_at = none;
  security_containment = false;
  events =
      record {
        actor = key_of reporter;
        event = CaseEventType.created;
        comment = Comment.reason_comment reason;
        created_at = env.now;
      }
      ∷ [];
}

-- `file_report`, with the key of the new case; a reason that is not in the list is `none`.
unfoldable pub file_report :
    (pk : ℕ)
    → Actor
    → Target
    → Option ReportReason
    → (details evidence_url : Text) → Env
    → Reply ModerationError Desk
unfolding record_audit is_security_reason
file_report pk reporter target none details evidence_url env =
    raises ModerationError.invalid_report_reason
file_report pk reporter Target.gone (some reason) details evidence_url env =
    raises ModerationError.invalid_report_target
file_report pk reporter target (some reason) details evidence_url env =
    returns
      (record_audit reporter Op.report_filed Payload.nothing Payload.nothing env (record {
        case = new_case pk reporter reason details evidence_url env;
        target = target;
        audit = [];
      })).1

abbrev pub assigned : Actor → ModerationCase → ModerationCase
assigned super_admin case = record case {
  assigned_to = key_of super_admin;
  status = CaseStatus.under_review;
}

unfoldable pub assign_case : (super_admin : Actor) → Call (Unit {0})
unfolding require_super_admin record_audit add_event
assign_case super_admin = do
  require_super_admin super_admin Op.assign
  before ← read (λ s. s.case)
  fail_if (not (is_working before.status)) ModerationError.decision_refused
  transaction do
    update_case (assigned super_admin)
    add_event super_admin CaseEventType.assigned Comment.empty
  after ← read (λ s. s.case)
  record_audit super_admin Op.assign (payload_of before) (payload_of after)

abbrev pub decided :
    Actor
    → ModerationAction
    → ReportReason
    → Provenance
    → (comment : Text) → ℕ
    → ModerationCase
    → ModerationCase
decided super_admin action reason provenance comment now case = record case {
  action = some action;
  action_reason = some reason;
  enforcement_provenance = provenance;
  decision_comment = comment;
  decided_by = key_of super_admin;
  decided_at = some now;
  status = decision_target_status action;
}

abbrev decision_event : ModerationAction → CaseEventType
decision_event ModerationAction.escalation = CaseEventType.escalated
decision_event _ = CaseEventType.action_taken

abbrev decision_comment_of : Text → ReportReason → Comment
decision_comment_of comment reason =
    if is_nil comment then Comment.reason_comment reason else Comment.text_comment comment

-- The transaction of `record_decision`.
unfoldable pub enact : Actor → ModerationAction → ReportReason → Text → Call (Unit {0})
unfolding decision_target_status add_event
enact super_admin action reason comment = transaction do
  provenance ← enforce_action super_admin action
  now ← look (λ env. env.now)
  update_case (decided super_admin action reason provenance comment now)
  add_event super_admin (decision_event action) (decision_comment_of comment reason)

abbrev decide_with : Actor → ModerationAction → Option ReportReason → Text → Call (Unit {0})
decide_with super_admin verdict none comment =
    refuse super_admin Op.decide_denied Payload.nothing ModerationError.decision_refused
decide_with super_admin verdict (some reason) comment = do
  before ← read (λ s. s.case)
  fail_if (not (is_working before.status)) ModerationError.decision_refused
  enact super_admin verdict reason comment
  after ← read (λ s. s.case)
  record_audit super_admin Op.decide (payload_of before) (payload_of after)

-- A reason that is not in the list is `none`.
unfoldable pub record_decision :
    (super_admin : Actor)
    → ModerationAction
    → Option ReportReason
    → (comment : Text) → Call (Unit {0})
unfolding record_audit
record_decision super_admin action reason comment = do
  require_super_admin super_admin Op.decide
  decide_with super_admin action reason comment

unfoldable pub enable_security_containment :
    (super_admin : Actor) → (reason : Text) → Call (Unit {0})
unfolding record_audit add_event
enable_security_containment super_admin reason = do
  require_super_admin super_admin Op.contain
  choose (lacks_text reason)
      (refuse super_admin Op.contain_denied Payload.nothing ModerationError.decision_refused)
      (reply tt)
  transaction do
    update_case (λ case. record case { security_containment = true })
    add_event super_admin CaseEventType.escalated (Comment.text_comment reason)
  record_audit super_admin Op.contain Payload.nothing (Payload.contained reason)
