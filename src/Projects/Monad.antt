-- ===== src/Projects/Monad.antt =====
-- The rows that a project service sees, and its calls: apps/projects/services.py raises exceptions,
-- writes rows and schedules notifications. What is written stays written when a service raises,
-- outside `transaction.atomic`. The object that a service is handed is its row.
use dev_nepal.Prelude.{ℕ, Bool, Option, none, some, List, ◌∷◌, Text, strip, if◌then◌else◌}
use dev_nepal.Accounts.{User, Actor, MinistryPublisher, has_privileged_session}
use dev_nepal.Projects.Enums.{ProjectStatus, TaskStatus, MaintainerRole, ApplicationStatus}
use dev_nepal.Projects.Data.{
  Project, Closure, ProjectVersion, ProjectReview, ProjectReviewAssignment, ProjectMaintainer,
  ProjectSuitability, RepositoryConnection, ProjectAttachment, ProjectBookmark,
  CommunityTermsAcceptance,
}

-- The actions that a service is authorised for, by which a denial is audited.
pub data Operation : Type 0 where
  submit assign_reviewer request_changes reject review_decision resubmit approve revoke_approval
        publish publisher_publish pause resume completion_summary_update complete cancel archive
        restore reopen open_personal unpublish_personal edit suitability_complete
        suitability_confirm update extend_deadline maintainer_assign task_create
        application_decide :
      Operation

-- The action of an audit event.
pub data AuditAction : Type 0 where
  denied : Operation → AuditAction
  submitted reviewer_assigned changes_requested rejected resubmitted approved approval_revoked
        published publisher_published paused resumed completion_summary_updated completed cancelled
        archived restored reopened community_terms_accepted personal_listing_opened
        personal_listing_unpublished material_edit suitability_completed suitability_confirmed
        deadline_expired deadline_extended maintainer_sla_flagged maintainer_assigned task_created
        application_decided :
      AuditAction

-- The fields that an edit may name and that bear on review.
pub data FieldName : Type 0 where
  title_en title_ne summary_en summary_ne description_md problem_statement license license_id
        repository_url data_classification signoff_model security_contact communication_channel
        prerequisites default_branch issue_tracker_url documentation_url :
      FieldName

-- The JSON of `before` and `after`.
pub data Payload : Type 0 where
  nothing : Payload
  status : ProjectStatus → Payload
  status_version : ProjectStatus → ℕ → Payload
  status_changed : ProjectStatus → List FieldName → Payload
  status_flag : ProjectStatus → AuditAction → Payload
  assignment : ProjectReviewAssignment → Payload
  closure : Closure → Payload
  deadline : Option ℕ → Payload
  terms : Text → Payload
  areas : List Text → Payload
  confirmed_by : ℕ → Payload
  maintainer : ℕ → MaintainerRole → Bool → (created : Bool) → Payload
  task : ℕ → TaskStatus → Payload
  application : ApplicationStatus → Payload

pub data AuditResult : Type 0 where
  success failure : AuditResult

pub record AuditEvent : Type 0 where
  pub actor : Option ℕ
  pub action : AuditAction
  pub before : Payload
  pub after : Payload
  pub result : AuditResult
  pub created_at : ℕ

pub data NotificationType : Type 0 where
  review_comment review_decision project_status application_status : NotificationType

-- `project:<pk>:<word>:<pk of the row>`
pub data DedupKey : Type 0 where
  review submission published : ℕ → DedupKey
  -- `application:<pk>:event:<pk>`, and `:recipient:<pk>` for a submission.
  application_event : (application event : ℕ) (recipient : Option ℕ) → DedupKey

pub data ContextUrl : Type 0 where
  authoring public_page : (slug : Text) → ContextUrl
  application_page : (pk : ℕ) → ContextUrl

pub record Notice : Type 0 where
  pub recipient : ℕ
  pub type_ : NotificationType
  pub context_url : ContextUrl
  pub dedup_key : DedupKey

-- The rows of one project and those that its services read, the newest first in each history.
pub record Store : Type 0 where
  pub project : Project
  pub versions : List ProjectVersion
  pub reviews : List ProjectReview
  pub assignment : Option ProjectReviewAssignment
  pub maintainers : List ProjectMaintainer
  pub suitability : Option ProjectSuitability
  pub tasks : List TaskStatus
  pub connections : List RepositoryConnection
  pub attachments : List ProjectAttachment
  pub bookmarks : List ProjectBookmark
  pub publishers : List MinistryPublisher
  pub accounts : List User
  pub acceptances : List CommunityTermsAcceptance
  pub audit : List AuditEvent
  pub outbox : List Notice

-- The result of `urllib.parse.urlparse`, as far as it is read.
pub record ParsedUrl : Type 0 where
  pub scheme : Text
  pub netloc : Text
  pub path : Text

-- What a call reads from outside: the instant at which it runs, settings, and the functions of
-- other packages: Unicode normalisation, URL splitting, and the `iexact` lookup of the database.
pub record Env : Type 0 where
  pub now : ℕ
  pub today : ℕ
  pub mfa_bypass : Bool
  pub default_response_sla_days : ℕ
  pub nfc : Text → Text
  pub urlparse : Text → ParsedUrl
  pub iexact : Text → Text → Bool

-- apps/taxonomy/fields.py
unfoldable pub normalize_nfc : Env → Text → Text
unfolding strip
normalize_nfc env value = strip (env.nfc value)

pub data Violation : Type 0 where
  government_project_required ministry_owner_missing maintainer_missing contact_channel_missing
        contribution_mode_missing response_expectation_missing suitability_not_confirmed
        repository_readiness_unconfirmed instructions_missing difficulty_missing effort_missing
        task_missing license_missing license_not_approved repository_url_missing
        repository_connection_missing readme_missing code_of_conduct_missing security_path_missing
        issue_entry_missing branch_controls_missing attachment_quarantined :
      Violation
  field_missing : FieldName → Violation
  approved_license_missing public_repository_connection_missing : Violation

-- What a `ProjectLifecycleError` says.
pub data Reason : Type 0 where
  not_allowed : (from to : ProjectStatus) → Reason
  personal_never_reviewed reviewer_assignment_not_in_review reviewer_not_super_admin
        due_at_not_future no_submitted_version invalid_checklist reason_required
        publish_at_not_future no_approved_version government_required not_a_draft
        reopen_only_by_approval restore_not_archived restore_target review_required
        terms_not_accepted summary_required personal_only suitability_incomplete areas_unconfirmed
        archived_read_only deadline_required deadline_not_future :
      Reason

pub data SummaryError : Type 0 where
  missing_fields : Closure → SummaryError
  no_deliverables too_many_deliverables : SummaryError
  bad_deliverable bad_label bad_url : (index : ℕ) → SummaryError
  government_only not_open_or_paused : SummaryError

-- What an `ApplicationError` or an `ApplicationAuthorizationError` says.
pub data ApplicationReason : Type 0 where
  inactive_member not_accepting not_open direct_only already_exists bad_answer not_configured
        unanswered analytics_failed not_applicant not_info_requested empty_info :
      ApplicationReason
  decision_unavailable : (from to : ApplicationStatus) → ApplicationReason
  withdrawal_unavailable : ApplicationStatus → ApplicationReason

pub data Error : Type 0 where
  authorization : Operation → Error
  lifecycle : Reason → Error
  submission_readiness : List FieldName → Error
  publish_readiness : List Violation → Error
  completion_summary : SummaryError → Error
  material_edit_closed : ProjectStatus → Error
  unknown_fields : Error
  terms_unauthorized : Error
  application_error : ApplicationReason → Error

pub data Result (A : Type 0) : Type 0 where
  ok : A → Result A
  err : Error → Result A

abbrev pub Action : Type 0 → Type 0
Action A = Env → Store → Result A × Store

module _ {A : Type 0} where
  abbrev pub pure : A → Action A
  pure a env s = (ok a, s)

  abbrev pub raise : Error → Action A
  raise e env s = (err e, s)

  abbrev pub gets : (Store → A) → Action A
  gets f env s = (ok (f s), s)

  abbrev pub asks : (Env → A) → Action A
  asks f env s = (ok (f env), s)

  abbrev pub commit : Store → Result A × Store → Result A × Store
  commit before (ok a, after) = (ok a, after)
  commit before (err e, after) = (err e, before)

  -- `with transaction.atomic():` rolls every row back when the block raises.
  abbrev pub atomic : Action A → Action A
  atomic m env s = commit s (m env s)

module _ {A B : Type 0} where
  abbrev pub continue : (A → Action B) → Env → Result A × Store → Result B × Store
  continue f env (ok a, s) = f a env s
  continue f env (err e, s) = (err e, s)

infixl 5 ◌>>=◌ ◌>>◌
abbrev pub ◌>>=◌ : {A B : Type 0} → Action A → (A → Action B) → Action B
◌>>=◌ m f env s = continue f env (m env s)

abbrev pub ◌>>◌ : {B : Type 0} → Action (Unit {0}) → Action B → Action B
m >> k = m >>= λ _. k

abbrev pub modify : (Store → Store) → Action (Unit {0})
modify f env s = (ok tt, f s)

-- `if test: raise e`
abbrev pub raise_if : Bool → Error → Action (Unit {0})
raise_if test e env s = (if test then err e else ok tt, s)

abbrev pub pk_of : Actor → Option ℕ
pk_of none = none
pk_of (some user) = some user.pk

-- The event that `record_audit` creates.
abbrev pub event : Actor → AuditAction → Payload → Payload → AuditResult → Env → AuditEvent
event actor action before after result env = record {
  actor = pk_of actor;
  action = action;
  before = before;
  after = after;
  result = result;
  created_at = env.now;
}

abbrev pub add_event : AuditEvent → Store → Store
add_event e s = record s { audit = e ∷ s.audit }

-- apps/audit/services.py
unfoldable pub record_audit :
    Actor → AuditAction → Payload → Payload → AuditResult → Action (Unit {0})
record_audit actor action before after result env s =
    (ok tt, add_event (event actor action before after result env) s)

-- The store after a denial.
abbrev pub denial : Actor → Operation → Env → Store → Store
denial actor op env s = add_event (event actor (denied op) nothing nothing failure env) s

-- The last lines of a refusal: `record_audit(…, result="failure")`, then `raise`.
unfoldable pub deny : Actor → Operation → Action (Unit {0})
unfolding record_audit
deny actor op = do record_audit actor (denied op) nothing nothing failure; raise (authorization op)

-- apps/accounts/services.py, with the error type of this component.
unfoldable pub require_privileged_mfa : Actor → Operation → Action (Unit {0})
unfolding deny has_privileged_session
require_privileged_mfa actor op env s =
    if has_privileged_session env.mfa_bypass actor then (ok tt, s) else deny actor op env s

abbrev pub set_project : Project → Store → Store
set_project p s = record s { project = p }

abbrev pub update_project : (Project → Project) → Action (Unit {0})
update_project f = modify (λ s. record s { project = f s.project })
