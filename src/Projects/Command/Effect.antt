-- ===== src/Projects/Command/Effect.antt =====
-- What a call of apps/projects/services.py may do to the rows of a project, and the proof that each
-- service does no more.
pub mod ReviewCalls
pub mod PublicationCalls
pub mod ClosureCalls
pub mod PersonalCalls
use dev_nepal.Prelude.{
  ℕ, ◌≡◌, refl, ◌⊎◌, inl, inr, Bool, true, false, Option, none, some, List, [], ◌∷◌, map, Text,
  arith,
}
use dev_nepal.Accounts.{User, Actor}
use dev_nepal.Projects.Enums.{government, ProjectStatus, status_in}
use dev_nepal.Projects.Data.{Project, ProjectVersion, Closure}
use dev_nepal.Projects.Monad.{
  Store, Env, Action, Operation, AuditEvent, Payload, Error, authorization, Result, ok, err, denial,
  raise_if, ◌>>◌,
}
use dev_nepal.Projects.Access.{require_super_admin}
use dev_nepal.Projects.Access.Laws.{
  Guards, require_super_admin-Guards, require_publisher-Guards, require_owner_or_super_admin-Guards,
}
use dev_nepal.Projects.Lifecycle.{
  latest_version, transitions_for, restore_targets, perform_transition, create_version, review_row,
  next_version_number, schedule_review_notifications, schedule_review_queue_notifications,
  schedule_publication_notifications,
}
use dev_nepal.Projects.Review
use dev_nepal.Projects.Publication
use dev_nepal.Projects.Closure
use dev_nepal.Projects.Closure.{status_in_payload}
use dev_nepal.Projects.Personal

-- The columns that no call writes.
pub record SameIdentity (p q : Project) : Type 0 where
  pub pk : q.pk ≡ p.pk
  pub project_type : q.project_type ≡ p.project_type
  pub owner : q.owner ≡ p.owner
  pub ministry : q.ministry ≡ p.ministry
  pub slug : q.slug ≡ p.slug
  pub content : q.content ≡ p.content

-- A move that the tables list, the publication of a ministry's own draft, or a restoration.
abbrev pub Moves : Project → ProjectStatus → Type 0
Moves p to =
    (status_in to (transitions_for p.project_type p.status) ≡ true)
    ⊎ ((p.project_type ≡ government)
        × (p.status ≡ ProjectStatus.draft)
        × (to ≡ ProjectStatus.open_for_contribution))
    ⊎ ((p.status ≡ ProjectStatus.archived) × (status_in to restore_targets ≡ true))

abbrev pub tail : List AuditEvent → List AuditEvent
tail [] = []
tail (_ ∷ es) = es

-- The statuses that the newest event names before and after.
abbrev pub newest_change : List AuditEvent → Option ProjectStatus × Option ProjectStatus
newest_change [] = (none, none)
newest_change (e ∷ _) = (status_in_payload e.before, status_in_payload e.after)

abbrev pub numbers : List ProjectVersion → List ℕ
numbers [] = []
numbers (v ∷ vs) = v.version_number ∷ numbers vs

pub numbers-stamp_version :
    (now number : ℕ) (by : Option ℕ) (vs : List ProjectVersion)
    → numbers (Publication.stamp_version now number by vs) ≡ numbers vs
unfolding Publication.stamp_version
numbers-stamp_version now number by [] = refl
numbers-stamp_version now number by (v ∷ vs) =
    ground (arith, numbers-stamp_version now number by vs)

abbrev map_version :
    (ProjectVersion → ProjectVersion) → Option ProjectVersion → Option ProjectVersion
map_version f none = none
map_version f (some v) = some (f v)

pub latest_version-stamp_version :
    (now number : ℕ) (by : Option ℕ) (vs : List ProjectVersion)
    → latest_version (Publication.stamp_version now number by vs)
      ≡ map_version (Publication.stamp now number by) (latest_version vs)
unfolding Publication.stamp_version latest_version
latest_version-stamp_version now number by [] = refl
latest_version-stamp_version now number none (v ∷ vs) =
    ground (arith, latest_version-stamp_version now number none vs)
latest_version-stamp_version now number (some user) (v ∷ vs) =
    ground (arith, latest_version-stamp_version now number (some user) vs)

-- What holds of the rows after a call, whether it returned or raised.
pub record Effect (s s' : Store) : Type 0 where
  pub identity : SameIdentity s.project s'.project
  -- At most one event is added to the trail, and none is lost.
  pub trail : (s'.audit ≡ s.audit) ⊎ (tail s'.audit ≡ s.audit)
  -- A change of status is a move, and the event that is added tells it.
  pub move :
      (s'.project.status ≡ s.project.status)
      ⊎ (Moves s.project s'.project.status
          × (tail s'.audit ≡ s.audit)
          × (newest_change s'.audit ≡ (some s.project.status, some s'.project.status)))
  -- At most one version is added, under the next number.
  pub version :
      (numbers s'.versions ≡ numbers s.versions)
      ⊎ (numbers s'.versions ≡ next_version_number s.versions ∷ numbers s.versions)

-- A call that raises has not moved the project.
abbrev pub Outcome : Store → Result (Unit {0}) × Store → Type 0
Outcome s (ok _, s') = Effect s s'
Outcome s (err _, s') = Effect s s' × (s'.project.status ≡ s.project.status)

pub denial-Outcome :
    (actor : Actor) (op : Operation) (env : Env) (s : Store)
    → Outcome s (err (authorization op), denial actor op env s)
denial-Outcome actor op env s = ground arith

require_assigned_reviewer-Guards :
    (actor : Actor) (env : Env) (s : Store)
    → Guards actor Operation.review_decision env s (Review.require_assigned_reviewer actor)
unfolding Review.require_assigned_reviewer
require_assigned_reviewer-Guards actor env s = ground arith

-- The two guards of a review decision.
pub reviewer-Guards :
    (actor : Actor) (op : Operation) (env : Env) (s : Store)
    → (require_super_admin actor op env s ≡ (ok tt, s))
        × (Review.require_assigned_reviewer actor env s ≡ (ok tt, s))
      ⊎ ((require_super_admin actor op env s ≡ (ok tt, s))
            × (Review.require_assigned_reviewer actor env s ≡ (
              err (authorization Operation.review_decision),
              denial actor Operation.review_decision env s,
            ))
          ⊎ (require_super_admin actor op env s ≡ (err (authorization op), denial actor op env s)))
reviewer-Guards actor op env s =
    ground (
      arith,
      require_super_admin-Guards actor op env s,
      require_assigned_reviewer-Guards actor env s,
    )
