-- ===== src/Projects/Lifecycle.antt =====
-- The state machine of apps/projects/services.py: the tables of transitions, submission versions,
-- review rows, the transition itself and the notifications that it schedules.
pub mod Laws
use mathlib.Core.List.{foldl}
use dev_nepal.Prelude.{
  ℕ, suc, ◌+◌, max, Bool, true, false, not, ◌&&◌, ◌||◌, Option, none, some, List, [], ◌∷◌, map,
  filter, length, Text, ltb, ◌==◌, if◌then◌else◌,
}
use dev_nepal.Accounts.{User, Actor}
use dev_nepal.Projects.Enums.{
  ProjectType, ProjectStatus, ReviewDecision, is_personal, status_eq, status_in,
}
use dev_nepal.Projects.Data.{
  Project, Snapshot, ProjectVersion, ProjectReview, ProjectBookmark, Content, Closure, License,
}
use dev_nepal.Projects.Monad.{
  Store, Env, Action, AuditAction, Payload, nothing, status, status_version, success,
  NotificationType, review_comment, review_decision, project_status, DedupKey, review, submission,
  published, ContextUrl, authoring, public_page, Notice, normalize_nfc, Error, lifecycle, Reason,
  not_allowed, no_submitted_version, Result, ok, err, pure, raise, gets, asks, raise_if, modify,
  update_project, ◌>>=◌, ◌>>◌, pk_of, record_audit,
}

unfoldable pub transitions : ProjectStatus → List ProjectStatus
transitions ProjectStatus.draft = ProjectStatus.in_review ∷ []
transitions ProjectStatus.in_review =
    ProjectStatus.changes_requested ∷ ProjectStatus.approved ∷ ProjectStatus.draft ∷ []
transitions ProjectStatus.changes_requested = ProjectStatus.in_review ∷ []
transitions ProjectStatus.approved =
    ProjectStatus.open_for_contribution ∷ ProjectStatus.changes_requested ∷ []
transitions ProjectStatus.open_for_contribution =
    ProjectStatus.paused ∷ ProjectStatus.completed ∷ ProjectStatus.cancelled
    ∷ ProjectStatus.archived ∷ []
transitions ProjectStatus.paused =
    ProjectStatus.open_for_contribution ∷ ProjectStatus.completed ∷ ProjectStatus.cancelled
    ∷ ProjectStatus.archived ∷ []
transitions ProjectStatus.completed =
    ProjectStatus.archived ∷ ProjectStatus.open_for_contribution ∷ []
transitions ProjectStatus.cancelled =
    ProjectStatus.archived ∷ ProjectStatus.open_for_contribution ∷ []
transitions ProjectStatus.archived = []

unfoldable pub personal_transitions : ProjectStatus → List ProjectStatus
personal_transitions ProjectStatus.draft = ProjectStatus.open_for_contribution ∷ []
personal_transitions ProjectStatus.open_for_contribution =
    ProjectStatus.draft ∷ ProjectStatus.paused ∷ ProjectStatus.completed ∷ ProjectStatus.cancelled
    ∷ ProjectStatus.archived ∷ []
personal_transitions ProjectStatus.paused =
    ProjectStatus.open_for_contribution ∷ ProjectStatus.completed ∷ ProjectStatus.cancelled
    ∷ ProjectStatus.archived ∷ []
personal_transitions ProjectStatus.completed = ProjectStatus.archived ∷ []
personal_transitions ProjectStatus.cancelled = ProjectStatus.archived ∷ []
personal_transitions ProjectStatus.in_review = []
personal_transitions ProjectStatus.changes_requested = []
personal_transitions ProjectStatus.approved = []
personal_transitions ProjectStatus.archived = []

unfoldable pub transitions_for : ProjectType → ProjectStatus → List ProjectStatus
unfolding transitions personal_transitions
transitions_for ProjectType.personal = personal_transitions
transitions_for ProjectType.government = transitions

abbrev pub restore_targets : List ProjectStatus
restore_targets =
    ProjectStatus.open_for_contribution ∷ ProjectStatus.paused ∷ ProjectStatus.completed
    ∷ ProjectStatus.cancelled ∷ []

abbrev ministry_pk : Project → Option ℕ
ministry_pk p = elim (p.ministry) [ none ↦ none | some m ↦ some m.pk ]

unfoldable pub snapshot_project : Project → Snapshot
snapshot_project p = record {
  project_type = p.project_type;
  owner = p.owner.pk;
  ministry = ministry_pk p;
  slug = p.slug;
  content = p.content;
  closure = p.closure;
  status = p.status;
  scheduled_publication_at = p.scheduled_publication_at;
  published_at = p.published_at;
  current_version = p.current_version;
  last_maintainer_activity_at = p.last_maintainer_activity_at;
  deadline = p.deadline;
  archive_reason = p.archive_reason;
  archived_at = p.archived_at;
}

abbrev pub newer : ProjectVersion → Option ProjectVersion → Option ProjectVersion
newer v none = some v
newer v (some w) = if ltb v.version_number w.version_number then some w else some v

-- `order_by("-version_number").first()`
unfoldable pub latest_version : List ProjectVersion → Option ProjectVersion
latest_version [] = none
latest_version (v ∷ vs) = newer v (latest_version vs)

unfoldable pub next_version_number : List ProjectVersion → ℕ
unfolding latest_version
next_version_number vs = elim (latest_version vs) [ none ↦ 1 | some v ↦ v.version_number + 1 ]

-- The row that `create_version` inserts.
unfoldable pub new_version : Actor → Env → Store → ProjectVersion
unfolding next_version_number snapshot_project
new_version submitted_by env s = record {
  version_number = next_version_number s.versions;
  snapshot = snapshot_project s.project;
  submitted_by = pk_of submitted_by;
  submitted_at = env.now;
  published_at = none;
  published_by = none;
}

unfoldable pub create_version : Actor → Action ProjectVersion
unfolding new_version
create_version submitted_by env s =
    let version = new_version submitted_by env s in
    (ok version, record s { versions = version ∷ s.versions })

-- The row that `_review_row` inserts; `comment` is stored through an NFC text field.
unfoldable pub new_review :
    Actor
    → ReviewDecision
    → (comment : Text) → (from_status to_status : ProjectStatus) → (version : ℕ) → Env
    → Store
    → ProjectReview
unfolding normalize_nfc
new_review reviewer decision comment from_status to_status version env s = record {
  pk = length s.reviews + 1;
  version = version;
  reviewer = pk_of reviewer;
  decision = decision;
  comment = normalize_nfc env comment;
  from_status = from_status;
  to_status = to_status;
}

abbrev pub add_review : ProjectReview → Store → Store
add_review row s = record s { reviews = row ∷ s.reviews }

unfoldable pub review_row :
    Actor
    → ReviewDecision
    → (comment : Text) → (from_status to_status : ProjectStatus) → Action ProjectReview
unfolding latest_version
review_row reviewer decision comment from_status to_status env s =
    elim (latest_version s.versions) [
      | none ↦ (err (lifecycle no_submitted_version), s)
      | some version ↦
          let row : ProjectReview =
            new_review reviewer decision comment from_status to_status version.version_number env
              s in
          (ok row, add_review row s)
    ]

abbrev is_archived : ProjectStatus → Bool
is_archived ProjectStatus.archived = true
is_archived _ = false

-- The columns that a transition writes.
unfoldable pub moved : ProjectStatus → ℕ → Project → Project
moved to_status now p = record p {
  status = to_status;
  status_changed_at = some now;
  archived_at = if is_archived to_status then some now else p.archived_at;
}

-- The `after` payload: the status, and the version where `extra_after` names one.
abbrev pub with_version : ProjectStatus → Option ProjectVersion → Payload
with_version to_status none = status to_status
with_version to_status (some version) = status_version to_status version.version_number

unfoldable pub perform_transition :
    ProjectStatus
    → Actor
    → AuditAction
    → (allowed_override : Bool) → (extra_after : Option ProjectVersion) → Action (Unit {0})
unfolding transitions_for moved record_audit
perform_transition to_status actor action allowed_override extra_after = do
  p ← gets (λ s. s.project)
  raise_if
      (not allowed_override && not (status_in to_status (transitions_for p.project_type p.status)))
      (lifecycle (not_allowed p.status to_status))
  now ← asks (λ env. env.now)
  update_project (moved to_status now)
  record_audit actor action (status p.status) (with_version to_status extra_after) success

-- `_schedule_notification`, on what is to be sent: a failure of `notify` is logged and dropped.
unfoldable pub schedule_notification :
    User → NotificationType → ContextUrl → DedupKey → List Notice → List Notice
schedule_notification recipient type_ context_url dedup_key outbox =
    if recipient.is_active
    then record {
      recipient = recipient.pk;
      type_ = type_;
      context_url = context_url;
      dedup_key = dedup_key;
    }
      ∷ outbox
    else outbox

unfoldable pub schedule_all :
    List User → NotificationType → ContextUrl → DedupKey → List Notice → List Notice
unfolding schedule_notification
schedule_all [] type_ context_url dedup_key outbox = outbox
schedule_all (user ∷ users) type_ context_url dedup_key outbox =
    schedule_all users type_ context_url dedup_key
      (schedule_notification user type_ context_url dedup_key outbox)

abbrev post : (Project → List Notice → List Notice) → Action (Unit {0})
post f = modify (λ s. record s { outbox = f s.project s.outbox })

abbrev review_type : ReviewDecision → NotificationType
review_type ReviewDecision.changes_requested = review_comment
review_type ReviewDecision.revoked = review_comment
review_type _ = review_decision

unfoldable pub schedule_review_notifications : ProjectReview → Action (Unit {0})
schedule_review_notifications row =
    post λ p.
      schedule_notification p.owner (review_type row.decision) (authoring p.slug) (review row.pk)

abbrev is_active_superuser : User → Bool
is_active_superuser user = user.is_active && user.is_superuser

unfoldable pub schedule_review_queue_notifications : ProjectVersion → Action (Unit {0})
schedule_review_queue_notifications version = do
  reviewers ← gets (λ s. filter is_active_superuser s.accounts)
  post λ p.
      schedule_all reviewers review_decision (authoring p.slug) (submission version.version_number)

abbrev wants_change : ProjectBookmark → Bool
wants_change bookmark = bookmark.notify_on_change

unfoldable pub schedule_publication_notifications : ProjectVersion → Action (Unit {0})
schedule_publication_notifications version = do
  followers ← gets (λ s. map (λ b. b.user) (filter wants_change s.bookmarks))
  post λ p.
      schedule_all (p.owner ∷ followers) project_status (public_page p.slug)
        (published version.version_number)
