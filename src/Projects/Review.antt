-- ===== src/Projects/Review.antt =====
-- apps/projects/services.py: submission and review, from `submit_for_review` to `revoke_approval`.
pub mod Laws
use mathlib.Core.Option
use dev_nepal.Prelude.{
  ℕ, Bool, true, false, not, ◌&&◌, ◌||◌, Option, none, some, List, [], ◌∷◌, Text, text, text_eq,
  strip, is_blank, is_nil, any, filter, leb, ◌==◌, is_some, is_none, if◌then◌else◌,
}
use dev_nepal.Accounts.{User, Actor}
use dev_nepal.Projects.Enums.{ProjectStatus, ReviewDecision, is_personal, status_eq}
use dev_nepal.Projects.Data.{Project, Content, ProjectReviewAssignment}
use dev_nepal.Projects.Monad.{
  Store, Env, Action, Operation, AuditAction, Payload, nothing, assignment, success, FieldName,
  normalize_nfc, Error, authorization, lifecycle, submission_readiness, not_allowed,
  personal_never_reviewed, reviewer_assignment_not_in_review, reviewer_not_super_admin,
  due_at_not_future, no_submitted_version, invalid_checklist, reason_required,
  publish_at_not_future, Result, ok, err, pure, raise, gets, asks, raise_if, modify, update_project,
  atomic, ◌>>=◌, ◌>>◌, pk_of, record_audit, deny,
}
use dev_nepal.Projects.Access.{require_super_admin, require_publisher}
use dev_nepal.Projects.Lifecycle.{
  latest_version, create_version, review_row, perform_transition, schedule_review_notifications,
  schedule_review_queue_notifications,
}

-- A `datetime` argument: naive, or an instant.
pub record Moment : Type 0 where
  pub is_aware : Bool
  pub at : ℕ

-- `timezone.is_naive(t) or t <= now`
abbrev not_future : Moment → ℕ → Bool
not_future t now = not t.is_aware || leb t.at now

abbrev status_is : ProjectStatus → Action Bool
status_is status = gets (λ s. status_eq s.project.status status)

-- `if project.status != status: raise …("transition from … to … is not allowed")`
unfoldable pub require_status : (status to_status : ProjectStatus) → Action (Unit {0})
require_status status to_status env s =
    if status_eq s.project.status status
    then (ok tt, s)
    else (err (lifecycle (not_allowed s.project.status to_status)), s)

abbrev missing_field : Text → FieldName → List FieldName → List FieldName
missing_field value field rest = if is_blank value then field ∷ rest else rest

unfoldable pub missing_bilingual : Content → List FieldName
unfolding is_blank
missing_bilingual c = missing_field c.title_en FieldName.title_en (
    missing_field c.title_ne FieldName.title_ne (
      missing_field c.summary_en FieldName.summary_en
        (missing_field c.summary_ne FieldName.summary_ne [])))

unfoldable pub submit_for_review : Actor → Action (Unit {0})
submit_for_review publisher = do
  require_publisher publisher Operation.submit
  p ← gets (λ s. s.project)
  raise_if (is_personal p.project_type) (lifecycle personal_never_reviewed)
  raise_if (not (is_nil (missing_bilingual p.content)))
      (submission_readiness (missing_bilingual p.content))
  version ← create_version publisher
  perform_transition ProjectStatus.in_review publisher AuditAction.submitted false none
  schedule_review_queue_notifications version

-- SUITABILITY_AREAS of apps/projects/models.py
unfoldable pub suitability_areas : List Text
suitability_areas =
    text "legal_authority"
    ∷ text "source_code_rights"
    ∷ text "data_classification"
    ∷ text "security_exposure"
    ∷ text "procurement_restrictions"
    ∷ text "third_party_licenses"
    ∷ text "repository_readiness"
    ∷ text "maintainer_capacity"
    ∷ text "contribution_agreement"
    ∷ text "public_communications"
    ∷ []

-- A key outside the areas, or a value that is no Boolean.
abbrev invalid_item : Text × Option Bool → Bool
invalid_item (area, value) = not (any (text_eq area) suitability_areas) || is_none value

unfoldable pub checklist_is_invalid : List (Text × Option Bool) → Bool
unfolding suitability_areas
checklist_is_invalid checklist = any invalid_item checklist

abbrev not_reviewer : Option User → Bool
not_reviewer none = true
not_reviewer (some user) = not user.is_active || not user.is_superuser

abbrev not_future_or_none : Option Moment → ℕ → Bool
not_future_or_none none now = true
not_future_or_none (some t) now = not_future t now

abbrev assignment_payload : Option ProjectReviewAssignment → Payload
assignment_payload none = nothing
assignment_payload (some a) = assignment a

-- The block that writes, once every check has passed; `none` does not reach it.
unfoldable pub store_assignment :
    Actor → Option User → Option Moment → Text → List (Text × Option Bool) → Action (Unit {0})
unfolding latest_version normalize_nfc record_audit strip
store_assignment super_admin none due_at note checklist env s = (ok tt, s)
store_assignment super_admin (some reviewer) none note checklist env s = (ok tt, s)
store_assignment super_admin (some reviewer) (some t) note checklist env s =
    elim (latest_version s.versions) [
      | none ↦ (err (lifecycle no_submitted_version), s)
      | some version ↦
          let row : ProjectReviewAssignment = record {
            version = version.version_number;
            reviewer = reviewer.pk;
            assigned_by = pk_of super_admin;
            due_at = t.at;
            reviewer_note = normalize_nfc env (strip (normalize_nfc env note));
            checklist = checklist;
          } in
          record_audit super_admin AuditAction.reviewer_assigned (assignment_payload s.assignment)
            (assignment row) success env (record s { assignment = some row })
    ]

unfoldable pub assign_reviewer :
    Actor
    → (reviewer : Option User) → (due_at : Option Moment) → (reviewer_note : Text)
    → (checklist : List (Text × Option Bool)) → Action (Unit {0})
assign_reviewer super_admin reviewer due_at reviewer_note checklist = do
  require_super_admin super_admin Operation.assign_reviewer
  in_review ← status_is ProjectStatus.in_review
  raise_if (not in_review) (lifecycle reviewer_assignment_not_in_review)
  raise_if (not_reviewer reviewer) (lifecycle reviewer_not_super_admin)
  now ← asks (λ env. env.now)
  raise_if (not_future_or_none due_at now) (lifecycle due_at_not_future)
  latest ← gets (λ s. latest_version s.versions)
  raise_if (is_none latest) (lifecycle no_submitted_version)
  raise_if (checklist_is_invalid checklist) (lifecycle invalid_checklist)
  atomic (store_assignment super_admin reviewer due_at reviewer_note checklist)

abbrev latest_number : Store → Option ℕ
latest_number s = Option.map (λ v. v.version_number) (latest_version s.versions)

-- The row that `filter(project=project, version=latest).first()` finds, if it names another reviewer.
unfoldable pub assigned_to_other : Actor → Store → Bool
unfolding latest_version
assigned_to_other actor s = elim (s.assignment) [
  | none ↦ false
  | some a ↦ elim (latest_version s.versions) [
    | none ↦ false
    | some v ↦ elim actor [
      | none ↦ a.version == v.version_number
      | some user ↦ a.version == v.version_number && not (a.reviewer == user.pk)
    ]
  ]
]

unfoldable pub require_assigned_reviewer : Actor → Action (Unit {0})
unfolding assigned_to_other deny
require_assigned_reviewer super_admin env s =
    if assigned_to_other super_admin s
    then deny super_admin Operation.review_decision env s
    else (ok tt, s)

unfoldable pub request_changes : Actor → (reason : Text) → Action (Unit {0})
request_changes super_admin reason = do
  require_super_admin super_admin Operation.request_changes
  require_assigned_reviewer super_admin
  require_status ProjectStatus.in_review ProjectStatus.changes_requested
  raise_if (is_blank reason) (lifecycle reason_required)
  before_status ← gets (λ s. s.project.status)
  row ←
      review_row super_admin ReviewDecision.changes_requested reason before_status
        ProjectStatus.changes_requested
  latest ← gets (λ s. latest_version s.versions)
  perform_transition ProjectStatus.changes_requested super_admin AuditAction.changes_requested false
      latest
  schedule_review_notifications row

unfoldable pub reject_submission : Actor → (reason : Text) → Action (Unit {0})
reject_submission super_admin reason = do
  require_super_admin super_admin Operation.reject
  require_assigned_reviewer super_admin
  require_status ProjectStatus.in_review ProjectStatus.draft
  raise_if (is_blank reason) (lifecycle reason_required)
  before_status ← gets (λ s. s.project.status)
  row ← review_row super_admin ReviewDecision.rejected reason before_status ProjectStatus.draft
  latest ← gets (λ s. latest_version s.versions)
  perform_transition ProjectStatus.draft super_admin AuditAction.rejected false latest
  schedule_review_notifications row

unfoldable pub resubmit : Actor → Action (Unit {0})
resubmit publisher = do
  require_publisher publisher Operation.resubmit
  require_status ProjectStatus.changes_requested ProjectStatus.in_review
  version ← create_version publisher
  perform_transition ProjectStatus.in_review publisher AuditAction.resubmitted false none
  schedule_review_queue_notifications version

abbrev scheduled_in_past : Option Moment → ℕ → Bool
scheduled_in_past none now = false
scheduled_in_past (some t) now = not_future t now

abbrev set_schedule : Option Moment → Project → Project
set_schedule none p = p
set_schedule (some t) p = record p { scheduled_publication_at = some t.at }

unfoldable pub approve : Actor → (publish_at : Option Moment) → (comment : Text) → Action (Unit {0})
approve super_admin publish_at comment = do
  require_super_admin super_admin Operation.approve
  require_assigned_reviewer super_admin
  require_status ProjectStatus.in_review ProjectStatus.approved
  now ← asks (λ env. env.now)
  raise_if (scheduled_in_past publish_at now) (lifecycle publish_at_not_future)
  cleaned ← asks (λ env. strip (normalize_nfc env comment))
  before_status ← gets (λ s. s.project.status)
  row ← atomic do
    row ←
        review_row super_admin ReviewDecision.approved cleaned before_status ProjectStatus.approved
    update_project (set_schedule publish_at)
    latest ← gets (λ s. latest_version s.versions)
    perform_transition ProjectStatus.approved super_admin AuditAction.approved false latest
    pure row
  schedule_review_notifications row

unfoldable pub revoke_approval : Actor → (reason : Text) → Action (Unit {0})
revoke_approval super_admin reason = do
  require_super_admin super_admin Operation.revoke_approval
  require_assigned_reviewer super_admin
  require_status ProjectStatus.approved ProjectStatus.changes_requested
  raise_if (is_blank reason) (lifecycle reason_required)
  before_status ← gets (λ s. s.project.status)
  row ←
      review_row super_admin ReviewDecision.revoked reason before_status
        ProjectStatus.changes_requested
  update_project (λ p. record p { scheduled_publication_at = none })
  perform_transition ProjectStatus.changes_requested super_admin AuditAction.approval_revoked false
      none
  schedule_review_notifications row
