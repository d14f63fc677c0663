-- ===== src/Projects/Publication.antt =====
-- apps/projects/services.py: publication by the PMO, by the owning ministry, and on schedule.
pub mod Laws
use dev_nepal.Prelude.{
  ℕ, Bool, true, false, not, ◌&&◌, Option, none, some, List, [], ◌∷◌, ◌++◌, Text, text, strip,
  is_nil, is_none, leb, ◌==◌, if◌then◌else◌,
}
use dev_nepal.Accounts.{Actor}
use dev_nepal.Projects.Enums.{ProjectStatus, ReviewDecision, is_government, status_eq}
use dev_nepal.Projects.Data.{Project, ProjectVersion}
use dev_nepal.Projects.Monad.{
  Store, Env, Action, Operation, AuditAction, status, status_version, success, normalize_nfc, Error,
  lifecycle, publish_readiness, no_approved_version, government_required, not_a_draft, Violation,
  Result, ok, err, pure, raise, gets, asks, raise_if, modify, update_project, atomic, ◌>>=◌, ◌>>◌,
  pk_of, record_audit,
}
use dev_nepal.Projects.Access.{require_super_admin, require_publisher}
use dev_nepal.Projects.Lifecycle.{
  latest_version, create_version, review_row, schedule_publication_notifications,
}
use dev_nepal.Projects.Review.{require_status}
use dev_nepal.Projects.Readiness.{check_publish_readiness, publisher_publish_readiness}

-- `if violations: raise PublishReadinessError(violations)`
unfoldable pub require_ready : (Env → Store → List Violation) → Action (Unit {0})
require_ready check env s = elim (check env s) [
  | [] ↦ (ok tt, s)
  | v ∷ vs ↦ (err (publish_readiness (v ∷ vs)), s)
]

-- The latest version, or `ProjectLifecycleError`.
unfoldable pub require_version : Action ProjectVersion
unfolding latest_version
require_version env s = elim (latest_version s.versions) [
  | none ↦ (err (lifecycle no_approved_version), s)
  | some version ↦ (ok version, s)
]

-- The columns that publication writes.
unfoldable pub opened : (now version : ℕ) → Project → Project
opened now version p = record p {
  status = ProjectStatus.open_for_contribution;
  status_changed_at = some now;
  published_at = some now;
  current_version = some version;
}

abbrev pub unscheduled : Project → Project
unscheduled p = record p { scheduled_publication_at = none }

-- `version.save` with the stamps; `none` leaves `published_by` as it is.
abbrev pub stamp : (now number : ℕ) → Option ℕ → ProjectVersion → ProjectVersion
stamp now number none v =
    if v.version_number == number then record v { published_at = some now } else v
stamp now number (some user) v =
    if v.version_number == number
    then record v { published_at = some now; published_by = some user }
    else v

unfoldable pub stamp_version :
    (now number : ℕ) → Option ℕ → List ProjectVersion → List ProjectVersion
stamp_version now number by [] = []
stamp_version now number by (v ∷ vs) = stamp now number by v ∷ stamp_version now number by vs

-- The writes of `project.save` and `version.save`: the PMO and the schedule also clear the date.
unfoldable pub open_now : (now number : ℕ) → Option ℕ → (clear : Bool) → Store → Store
unfolding opened stamp_version
open_now now number by clear s = record s {
  project =
      if clear then unscheduled (opened now number s.project) else opened now number s.project;
  versions = stamp_version now number by s.versions;
}

unfoldable pub publish : Actor → (comment : Text) → Action (Unit {0})
publish super_admin comment = do
  require_super_admin super_admin Operation.publish
  require_status ProjectStatus.approved ProjectStatus.open_for_contribution
  require_ready check_publish_readiness
  version ← require_version
  before_status ← gets (λ s. s.project.status)
  now ← asks (λ env. env.now)
  modify (open_now now version.version_number (pk_of super_admin) true)
  cleaned ← asks (λ env. strip (normalize_nfc env comment))
  review_row super_admin ReviewDecision.published cleaned before_status
        ProjectStatus.open_for_contribution
      >>= λ _. pure tt
  record_audit super_admin AuditAction.published (status before_status)
      (status_version ProjectStatus.open_for_contribution version.version_number) success
  schedule_publication_notifications version

-- The block under `transaction.atomic` of `publish_by_publisher`.
unfoldable pub publish_draft : Actor → Action ProjectVersion
publish_draft publisher = do
  before_status ← gets (λ s. s.project.status)
  raise_if (not (status_eq before_status ProjectStatus.draft)) (lifecycle not_a_draft)
  require_ready publisher_publish_readiness
  version ← create_version publisher
  now ← asks (λ env. env.now)
  modify (open_now now version.version_number (pk_of publisher) false)
  review_row publisher ReviewDecision.published (text "Published by the owning ministry")
        before_status ProjectStatus.open_for_contribution
      >>= λ _. pure tt
  record_audit publisher AuditAction.publisher_published (status before_status)
      (status_version ProjectStatus.open_for_contribution version.version_number) success
  pure version

unfoldable pub publish_by_publisher : Actor → Action (Unit {0})
publish_by_publisher publisher = do
  require_publisher publisher Operation.publisher_publish
  p ← gets (λ s. s.project)
  raise_if (not (is_government p.project_type)) (lifecycle government_required)
  version ← atomic (publish_draft publisher)
  schedule_publication_notifications version

-- `_publish_system`
unfoldable pub publish_system : Action (Unit {0})
publish_system = do
  require_ready check_publish_readiness
  version ← require_version
  before_status ← gets (λ s. s.project.status)
  now ← asks (λ env. env.now)
  modify (open_now now version.version_number none true)
  record_audit none AuditAction.published (status before_status)
      (status_version ProjectStatus.open_for_contribution version.version_number) success
  schedule_publication_notifications version

abbrev schedule_has_come : Option ℕ → ℕ → Bool
schedule_has_come none moment = false
schedule_has_come (some t) moment = leb t moment

unfoldable pub is_due : ℕ → Project → Bool
is_due moment p =
    is_government p.project_type
    && status_eq p.status ProjectStatus.approved
    && schedule_has_come p.scheduled_publication_at moment

-- The body of the loop: the rows of one project after it, and whether it was published.
-- Every error of `_publish_system` is a `ProjectLifecycleError`, which the loop logs.
unfoldable pub publish_one : Env → ℕ → Store → Bool × Store
unfolding is_due publish_system
publish_one env moment s =
    if is_due moment s.project
    then (let (r, s') = publish_system env s in elim r [ ok _ ↦ (true, s') | err _ ↦ (false, s') ])
    else (false, s)

-- `publish_due_scheduled` over the rows of each project, with the ids that it published.
unfoldable pub publish_due_scheduled : Env → Option ℕ → List Store → List ℕ × List Store
unfolding publish_one
publish_due_scheduled env now [] = ([], [])
publish_due_scheduled env now (s ∷ ss) =
    let moment : ℕ = elim now [ none ↦ env.now | some t ↦ t ] in
    let (done, s') = publish_one env moment s in
    let (published, ss') = publish_due_scheduled env now ss in
    (if done then s'.project.pk ∷ published else published, s' ∷ ss')
