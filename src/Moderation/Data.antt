-- ===== src/Moderation/Data.antt =====
-- apps/moderation/enums.py and models.py: a case with its report, what is reported, and the audit
-- trail.
use dev_nepal.Prelude.{ℕ, Bool, Option, List, ◌∷◌, Text, strip, is_nil, if◌then◌else◌}
use dev_nepal.Accounts.{Actor, is_super_admin, has_privileged_session}
use dev_nepal.Service.{Service, returns, raises, Event, EventResult, key_of}
use dev_nepal.Projects.Enums.{ProjectStatus}
use dev_nepal.Administration.Grants.{Account}

pub data ReportReason : Type 0 where
  impersonation gov_branding_misuse unsafe_link malware copyright harassment spam unlawful_content
        security_concern other :
      ReportReason

pub data CaseStatus : Type 0 where
  new under_review action_taken closed_no_action appealed escalated : CaseStatus

pub data ModerationAction : Type 0 where
  no_action warning content_restriction unpublish account_suspension escalation : ModerationAction

pub data AppealStatus : Type 0 where
  pending upheld overturned : AppealStatus

pub data CaseEventType : Type 0 where
  created assigned commented action_taken appealed escalated decided reinstated : CaseEventType

pub data BlogModerationState : Type 0 where
  not_reviewed under_review restricted reinstated : BlogModerationState

-- What a report is about, with the column that moderation writes: `gone` has been deleted, and a row
-- of another model has no `is_active`.
pub data Target : Type 0 where
  blog_post : BlogModerationState → Target
  project : ProjectStatus → Target
  account : Account → Target
  other gone : Target

-- `enforcement_provenance`, which only `_enforcement_provenance` writes.
pub data Provenance : Type 0 where
  nothing : Provenance
  of_blog_post : (before enforced : BlogModerationState) → Provenance
  of_project : (before enforced : ProjectStatus) → Provenance
  of_account : (before enforced : Bool) → Provenance

pub data Comment : Type 0 where
  empty : Comment
  reason_comment : ReportReason → Comment
  text_comment : Text → Comment

pub record ModerationEvent : Type 0 where
  pub actor : Option ℕ
  pub event : CaseEventType
  pub comment : Comment
  pub created_at : ℕ

-- A case and the columns of its report.
pub record ModerationCase : Type 0 where
  pub pk : ℕ
  pub reporter : Option ℕ
  pub reason : ReportReason
  pub details : Text
  pub evidence_url : Text
  pub assigned_to : Option ℕ
  pub status : CaseStatus
  pub action : Option ModerationAction
  pub action_reason : Option ReportReason
  pub enforcement_provenance : Provenance
  pub decision_comment : Text
  pub decided_by : Option ℕ
  pub decided_at : Option ℕ
  pub appeal_text : Text
  pub appealed_at : Option ℕ
  pub appeal_status : Option AppealStatus
  pub appeal_decided_by : Option ℕ
  pub appeal_decided_at : Option ℕ
  pub security_containment : Bool
  pub events : List ModerationEvent

pub data Op : Type 0 where
  report_filed assign decide decide_denied contain contain_denied appeal appeal_denied
        appeal_resolved appeal_restore_denied project_unpublished account_suspended blog_restricted
        project_restored blog_restored account_restored assign_denied export export_denied :
      Op
  privileged_denied : Op → Op

pub data Payload : Type 0 where
  nothing : Payload
  case_payload : CaseStatus → Option ModerationAction → Option ReportReason → Payload
  appeal_payload : CaseStatus → Option AppealStatus → Provenance → Payload
  action_payload : Option ModerationAction → Payload
  contained : Text → Payload
  target_payload : Target → Payload
  purpose : Text → Payload
  rate_limited : Payload

pub data ModerationError : Type 0 where
  invalid_report_reason invalid_report_target authorization decision_refused appeal_refused
        appeal_ownership appeal_restoration security_containment export_purpose export_rate_limit
        blog_transition :
      ModerationError

-- The clock, and the setting PRIVILEGED_MFA_BYPASS.
pub record Env : Type 0 where
  pub now : ℕ
  pub mfa_bypass : Bool

-- A case, the row that its report is about, and the trail.
pub record Desk : Type 0 where
  pub case : ModerationCase
  pub target : Target
  pub audit : List (Event Op Payload)

abbrev pub Call : Type 0 → Type 0
Call A = Service Env Desk ModerationError A

abbrev pub note : Actor → Op → Payload → Payload → EventResult → Env → Desk → Desk
note actor op before after result env s = record s {
  audit =
      record {
        actor = key_of actor;
        action = op;
        before = before;
        after = after;
        result = result;
        created_at = env.now;
      }
      ∷ s.audit;
}

-- `record_audit`
unfoldable pub record_audit : Actor → Op → Payload → Payload → Call (Unit {0})
record_audit actor op before after env s =
    (returns tt, note actor op before after EventResult.success env s)

-- `record_audit` of a failure, then `raise`.
abbrev pub refuse : {A : Type 0} → Actor → Op → Payload → ModerationError → Call A
refuse actor op after e env s =
    (raises e, note actor op Payload.nothing after EventResult.failure env s)

-- `_require_super_admin`, and `require_privileged_mfa` in it.
unfoldable pub require_super_admin : Actor → Op → Call (Unit {0})
require_super_admin actor op env s =
    if is_super_admin actor
    then (if has_privileged_session env.mfa_bypass actor
        then (returns tt, s)
        else refuse actor (Op.privileged_denied op) Payload.nothing ModerationError.authorization
            env s)
    else refuse actor (Op.privileged_denied op) Payload.nothing ModerationError.authorization env s

abbrev pub update_case : (ModerationCase → ModerationCase) → Call (Unit {0})
update_case f env s = (returns tt, record s { case = f s.case })

abbrev pub set_target : Target → Call (Unit {0})
set_target target env s = (returns tt, record s { target = target })

-- `ModerationEvent.objects.create`
unfoldable pub add_event : Actor → CaseEventType → Comment → Call (Unit {0})
add_event actor event comment env s = (
  returns tt,
  record s {
    case = record s.case {
      events =
          record { actor = key_of actor; event = event; comment = comment; created_at = env.now }
          ∷ s.case.events;
    };
  },
)

-- `not _require_text(value)`
abbrev pub lacks_text : Text → Bool
lacks_text value = is_nil (strip value)

abbrev pub payload_of : ModerationCase → Payload
payload_of case = Payload.case_payload case.status case.action case.action_reason
