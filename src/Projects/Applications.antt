-- ===== src/Projects/Applications.antt =====
-- apps/projects/services.py: applications to a project, their decisions and their timeline.
-- A service takes the application's row and returns it as it is saved; one that raises has not
-- written it.
mod Screening
mod Notifications
unfoldable pub use Screening.*
unfoldable pub use Notifications.*
pub mod History
pub mod Submission
mod Tests
pub mod Laws
use dev_nepal.Prelude.{
  ℕ, suc, Bool, true, false, not, ◌&&◌, ◌||◌, Option, none, some, List, [], ◌∷◌, ◌⊎◌, inl, inr, any,
  filter, is_nil, length, map, Text, strip, is_blank, ◌==◌, same_id, is_some, if◌then◌else◌,
}
use dev_nepal.Accounts.{
  User, Actor, is_super_admin, is_publisher_active, Ministry, MinistryPublisher, org_is_active,
  publisher_status_is_active,
}
use dev_nepal.Projects.Enums.{
  ProjectStatus, ContributionMode, ParticipationKind, ApplicationStatus, ApplicationEventType,
  is_personal, status_eq, status_in, application_status_in, kind_eq,
}
use dev_nepal.Projects.Data.{
  Project, ProjectScreeningQuestion, ScreeningAnswer, ApplicationEvent, Application,
}
use dev_nepal.Projects.Monad.{
  Store, Env, Action, Operation, AuditAction, Payload, success, NotificationType, ContextUrl,
  DedupKey, ApplicationReason, Error, application_error, Result, ok, err, pure, raise, gets, asks,
  raise_if, modify, ◌>>=◌, ◌>>◌, pk_of, record_audit, deny, require_privileged_mfa, normalize_nfc,
}
use dev_nepal.Projects.Access.{is_owner}
use dev_nepal.Projects.Lifecycle.{schedule_notification, schedule_all}

abbrev refuse : {A : Type 0} → ApplicationReason → Action A
refuse reason = raise (application_error reason)

abbrev refuse_if : Bool → ApplicationReason → Action (Unit {0})
refuse_if test reason = raise_if test (application_error reason)

-- APPLICATION_BLOCKED_STATES
abbrev pub application_blocked_states : List ProjectStatus
application_blocked_states =
    ProjectStatus.paused ∷ ProjectStatus.completed ∷ ProjectStatus.cancelled
    ∷ ProjectStatus.archived ∷ []

unfoldable pub application_decision_transitions : ApplicationStatus → List ApplicationStatus
application_decision_transitions ApplicationStatus.submitted =
    ApplicationStatus.accepted ∷ ApplicationStatus.waitlisted ∷ ApplicationStatus.declined
    ∷ ApplicationStatus.info_requested ∷ []
application_decision_transitions ApplicationStatus.info_requested =
    ApplicationStatus.accepted ∷ ApplicationStatus.waitlisted ∷ ApplicationStatus.declined ∷ []
application_decision_transitions ApplicationStatus.waitlisted =
    ApplicationStatus.accepted ∷ ApplicationStatus.declined ∷ []
application_decision_transitions ApplicationStatus.accepted = []
application_decision_transitions ApplicationStatus.declined = []
application_decision_transitions ApplicationStatus.withdrawn = []

abbrev is_direct : Option ContributionMode → Bool
is_direct (some ContributionMode.open_direct) = true
is_direct _ = false

abbrev is_interest : ParticipationKind → Bool
is_interest kind = kind_eq kind ParticipationKind.interest

abbrev pub same_application : Actor → ParticipationKind → Application → Bool
same_application member kind application =
    same_id (some application.applicant.pk) (pk_of member) && kind_eq application.kind kind

abbrev member_is_active : Actor → Bool
member_is_active none = false
member_is_active (some user) = user.is_active

-- `ApplicationEvent.objects.create`; the row's key is the number of rows before it.
abbrev pub timeline_event :
    Env
    → Actor
    → ApplicationEventType
    → Text
    → Option ApplicationStatus
    → ApplicationStatus
    → (pk : ℕ) → ApplicationEvent
timeline_event env actor event comment from_status to_status pk = record {
  pk = pk;
  actor = pk_of actor;
  event = event;
  comment = normalize_nfc env comment;
  from_status = from_status;
  to_status = some to_status;
}

abbrev pub add_event :
    Env
    → Actor
    → ApplicationEventType
    → Text
    → Option ApplicationStatus
    → ApplicationStatus
    → Application
    → Application
add_event env actor event comment from_status to_status application = record application {
  events =
      timeline_event env actor event comment from_status to_status (length application.events)
      ∷ application.events;
}

-- What `create` writes, before its first event.
abbrev new_application :
    Env → User → ParticipationKind → Text → List ScreeningAnswer → (pk : ℕ) → Application
new_application env member kind motivation screening pk = record {
  pk = pk;
  applicant = member;
  kind = kind;
  status = ApplicationStatus.submitted;
  motivation = normalize_nfc env motivation;
  screening_answers = screening;
  decided_by = none;
  decided_at = none;
  decision_note = [];
  events = [];
}

unfoldable pub submitted_application :
    Env → User → ParticipationKind → Text → List ScreeningAnswer → (pk : ℕ) → Application
submitted_application env member kind motivation screening pk =
    add_event env (some member) ApplicationEventType.submitted motivation none
      ApplicationStatus.submitted (new_application env member kind motivation screening pk)

abbrev lift : {A : Type 0} → ApplicationReason ⊎ A → Action A
lift (inl reason) = refuse reason
lift (inr a) = pure a

abbrev the_member : Actor → Action User
the_member none = refuse ApplicationReason.inactive_member
the_member (some user) = pure user

-- `recorded` tells whether `record_event` of apps/analytics persists its event: when it raises, the
-- transaction takes the application back.
unfoldable pub apply_to_project :
    Actor
    → List ProjectScreeningQuestion
    → List Application
    → List Answer
    → ParticipationKind
    → Text
    → (recorded : Bool) → Action Application
unfolding validated_screening_answers submitted_application
    schedule_application_submission_notifications
apply_to_project member questions applications answers kind motivation recorded = do
  refuse_if (not (member_is_active member)) ApplicationReason.inactive_member
  p ← gets (λ s. s.project)
  refuse_if (status_in p.status application_blocked_states) ApplicationReason.not_accepting
  refuse_if (not (status_eq p.status ProjectStatus.open_for_contribution))
      ApplicationReason.not_open
  refuse_if (not (is_interest kind) && is_direct p.content.contribution_mode)
      ApplicationReason.direct_only
  refuse_if (any (same_application member kind) applications) ApplicationReason.already_exists
  screening ← lift (validated_screening_answers questions answers)
  user ← the_member member
  refuse_if (is_some p.ministry && not recorded) ApplicationReason.analytics_failed
  application ←
      asks (λ env.
        submitted_application env user kind motivation screening (suc (length applications)))
  schedule_application_submission_notifications application
  pure application

unfoldable pub require_application_decider : Actor → Action (Unit {0})
unfolding is_super_admin is_owner is_publisher_active require_privileged_mfa deny
require_application_decider actor env s =
    if is_super_admin actor
    then require_privileged_mfa actor Operation.application_decide env s
    else if is_personal s.project.project_type
    then (if is_owner actor s.project
        then (ok tt, s)
        else deny actor Operation.application_decide env s)
    else if is_publisher_active s.publishers actor s.project.ministry
    then require_privileged_mfa actor Operation.application_decide env s
    else deny actor Operation.application_decide env s

abbrev decision_event : ApplicationStatus → ApplicationEventType
decision_event ApplicationStatus.info_requested = ApplicationEventType.info_requested
decision_event _ = ApplicationEventType.status_changed

-- The saved application, with its event.
unfoldable pub decided : Env → Actor → ApplicationStatus → (note : Text) → Application → Application
decided env decider decision note application =
    add_event env decider (decision_event decision) note (some application.status) decision
      (record application {
        status = decision;
        decided_by = pk_of decider;
        decided_at = some env.now;
        decision_note = normalize_nfc env note;
      })

unfoldable pub decide_application :
    Actor → Application → (decision : ApplicationStatus) → (note : Text) → Action Application
unfolding decided record_audit application_decision_transitions
decide_application decider application decision note = do
  require_application_decider decider
  refuse_if
      (not (application_status_in decision (application_decision_transitions application.status)))
      (ApplicationReason.decision_unavailable application.status decision)
  saved ← asks (λ env. decided env decider decision note application)
  record_audit decider AuditAction.application_decided (Payload.application application.status)
      (Payload.application decision) success
  schedule_application_decision_notification saved
  pure saved

abbrev is_applicant : Actor → Application → Bool
is_applicant actor application = same_id (some application.applicant.pk) (pk_of actor)

unfoldable pub provide_info : Actor → Application → Text → Action Application
provide_info applicant application text = do
  refuse_if (not (is_applicant applicant application)) ApplicationReason.not_applicant
  refuse_if (not (application_status_in application.status (ApplicationStatus.info_requested ∷ [])))
      ApplicationReason.not_info_requested
  refuse_if (is_blank text) ApplicationReason.empty_info
  asks (λ env.
      add_event env applicant ApplicationEventType.info_provided text (some application.status)
        application.status application)

abbrev pub withdrawable : List ApplicationStatus
withdrawable =
    ApplicationStatus.submitted ∷ ApplicationStatus.info_requested ∷ ApplicationStatus.waitlisted
    ∷ []

unfoldable pub withdraw_application : Actor → Application → Action Application
withdraw_application applicant application = do
  refuse_if (not (is_applicant applicant application)) ApplicationReason.not_applicant
  refuse_if (not (application_status_in application.status withdrawable))
      (ApplicationReason.withdrawal_unavailable application.status)
  asks (λ env.
      add_event env applicant ApplicationEventType.withdrawn [] (some application.status)
        ApplicationStatus.withdrawn (record application { status = ApplicationStatus.withdrawn }))

unfoldable pub can_view_timeline : Actor → Application → Store → Bool
unfolding is_super_admin is_publisher_active
can_view_timeline none application s = false
can_view_timeline (some user) application s =
    if not user.is_active
    then false
    else if application.applicant.pk == user.pk
    then true
    else if is_super_admin (some user)
    then true
    else if is_personal s.project.project_type
    then s.project.owner.pk == user.pk
    else is_publisher_active s.publishers (some user) s.project.ministry
