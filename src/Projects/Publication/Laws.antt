-- ===== src/Projects/Publication/Laws.antt =====
-- Publication: what it takes, what it writes, and the two ways round it.
use dev_nepal.Prelude.{
  ℕ, ◌+◌, length, ◌≡◌, refl, ◌⊎◌, inl, inr, ◌≢◌, Bool, true, false, some, none, List, [], ◌∷◌, Text,
  strip, nil-cases, Bool-cases, arith, Option-cases,
}
use dev_nepal.Accounts.{Actor, is_super_admin, has_privileged_session}
use dev_nepal.Projects.Enums.{government, ProjectStatus, ReviewDecision}
use dev_nepal.Projects.Data.{ProjectVersion, ProjectReview}
use dev_nepal.Projects.Monad.{
  Store, Env, Operation, ok, pk_of, normalize_nfc, record_audit, AuditEvent, AuditAction, status,
  status_version, success, event,
}
use dev_nepal.Projects.Access.Laws.{require_super_admin-pass, require_super_admin-Guards}
use dev_nepal.Projects.Lifecycle.{
  latest_version, new_review, perform_transition, schedule_publication_notifications,
}
use dev_nepal.Projects.Lifecycle.Laws.{review_row-some}
use dev_nepal.Projects.Review.{require_status}
use dev_nepal.Projects.Readiness.{check_publish_readiness}
use dev_nepal.Projects.Publication.{
  publish, publish_one, publish_due_scheduled, is_due, require_ready, require_version, open_now,
  stamp, opened, unscheduled,
}
use dev_nepal.Projects.Access.{require_owner_or_super_admin}
use dev_nepal.Projects.Closure.{resume}
use dev_nepal.Projects.Command.Effect.PublicationCalls.{latest_version-open_now}

-- The event of a publication.
abbrev publication_event : Actor → ℕ → ProjectStatus → Env → AuditEvent
publication_event actor number before env =
    event actor AuditAction.published (status before)
      (status_version ProjectStatus.open_for_contribution number) success env

-- What publication leaves: an open project that shows its latest version, with that version
-- stamped and no date left, and one more event, which tells the status before.
pub record IsPublished (s s' : Store) (env : Env) (actor : Actor) (v : ProjectVersion)
    : Type 0 where
  pub project : s'.project ≡ unscheduled (opened env.now v.version_number s.project)
  pub status : s'.project.status ≡ ProjectStatus.open_for_contribution
  pub version : s'.project.current_version ≡ some v.version_number
  pub unscheduled : s'.project.scheduled_publication_at ≡ none
  pub latest : latest_version s'.versions ≡ some (stamp env.now v.version_number (pk_of actor) v)
  pub audit : s'.audit ≡ publication_event actor v.version_number s.project.status env ∷ s.audit

-- The review row of a publication by the PMO.
abbrev pub publication_review : Actor → Text → ProjectVersion → Env → Store → ProjectReview
publication_review actor comment v env s = record {
  pk = length s.reviews + 1;
  version = v.version_number;
  reviewer = pk_of actor;
  decision = ReviewDecision.published;
  comment = normalize_nfc env (strip (normalize_nfc env comment));
  from_status = ProjectStatus.approved;
  to_status = ProjectStatus.open_for_contribution;
}

-- A Super Admin in a verified session who publishes an approved project with no readiness violation
-- and a submitted version succeeds, and leaves it published, with one more event and one more review
-- row, which tells the decision, the version and both statuses.
pub publish_ready :
    (actor : Actor) (comment : Text) (env : Env) (s : Store) (v : ProjectVersion)
    → is_super_admin actor ≡ true
    → has_privileged_session env.mfa_bypass actor ≡ true
    → s.project.status ≡ ProjectStatus.approved
    → check_publish_readiness env s ≡ []
    → latest_version s.versions ≡ some v
    → let (r, s') = publish actor comment env s in
      (r ≡ ok tt)
      × IsPublished s s' env actor v
      × (s'.reviews ≡ publication_review actor comment v env s ∷ s.reviews)
unfolding new_review publish require_status require_ready require_version record_audit open_now
    schedule_publication_notifications
publish_ready actor comment env s v h k approved ready latest =
    rw (require_super_admin-pass actor Operation.publish env s h k) (
      ground (
        arith,
        latest_version-open_now env.now (pk_of actor) true s v latest,
        review_row-some actor ReviewDecision.published (strip (normalize_nfc env comment))
            s.project.status ProjectStatus.open_for_contribution env
            (open_now env.now v.version_number (pk_of actor) true s)
            (stamp env.now v.version_number (pk_of actor) v)
            (latest_version-open_now env.now (pk_of actor) true s v latest),
      ))

-- Nobody publishes by `publish` unless the project was approved, had no readiness violation and had
-- a version.
pub publish_requires :
    (actor : Actor) (comment : Text) (env : Env) (s : Store)
    → (publish actor comment env s).0 ≡ ok tt
    → (s.project.status ≡ ProjectStatus.approved)
      × (check_publish_readiness env s ≡ [])
      × (latest_version s.versions ≢ none)
unfolding publish require_status require_ready require_version
publish_requires actor comment env s h =
    ground (arith, require_super_admin-Guards actor Operation.publish env s)

-- A project that the schedule publishes: it was due and ready, and `s'` is its publication, which
-- adds no review row.
abbrev pub Opens : Env → ℕ → Store → Store → Type 0
Opens env moment s s' =
    (is_due moment s.project ≡ true)
    × (check_publish_readiness env s ≡ [])
    × ((v : ProjectVersion) × (latest_version s.versions ≡ some v)
        × IsPublished s s' env none v
        × (s'.reviews ≡ s.reviews))

-- A project that the schedule leaves: it was not due, not ready, or without a version.
abbrev pub Waits : Env → ℕ → Store → Store → Type 0
Waits env moment s s' =
    ((is_due moment s.project ≡ false)
      ⊎ ((check_publish_readiness env s ≢ []) ⊎ (latest_version s.versions ≡ none)))
    × (s' ≡ s)

-- One round: the rows stay as they are, or the project is published.
abbrev Round : Env → ℕ → Store → Bool × Store → Type 0
Round env moment s (done, s') =
    (done ≡ false) × Waits env moment s s' ⊎ ((done ≡ true) × Opens env moment s s')

publish_one-due :
    (env : Env) (moment : ℕ) (s : Store) (v : ProjectVersion)
    → is_due moment s.project ≡ true
    → check_publish_readiness env s ≡ []
    → latest_version s.versions ≡ some v
    → ((publish_one env moment s).0 ≡ true)
      × IsPublished s (publish_one env moment s).1 env none v
      × ((publish_one env moment s).1.reviews ≡ s.reviews)
unfolding publish_one require_ready require_version record_audit open_now
    schedule_publication_notifications
publish_one-due env moment s v due ready e =
    ground (arith, latest_version-open_now env.now none true s v e)

publish_one-skip :
    (env : Env) (moment : ℕ) (s : Store)
    → (is_due moment s.project ≡ false)
      ⊎ ((check_publish_readiness env s ≢ []) ⊎ (latest_version s.versions ≡ none))
    → ((publish_one env moment s).0 ≡ false) × ((publish_one env moment s).1 ≡ s)
unfolding publish_one require_ready require_version
publish_one-skip env moment s h = ground arith

publish_one-Round :
    (env : Env) (moment : ℕ) (s : Store) → Round env moment s (publish_one env moment s)
publish_one-Round env moment s = elim (Option-cases (latest_version s.versions)) [
  | inl e ↦ wait (inr (inr e))
  | inr (v, e) ↦ elim (Bool-cases (is_due moment s.project)) [
    | inr late ↦ wait (inl late)
    | inl due ↦ elim (nil-cases (check_publish_readiness env s)) [
      | inr more ↦ wait (inr (inl more))
      | inl ready ↦
          let (done, published, reviews) = publish_one-due env moment s v due ready e in
          inr (done, (due, ready, (v, e, published, reviews)))
    ]
  ]
]
  where
    wait :
        (is_due moment s.project ≡ false)
          ⊎ ((check_publish_readiness env s ≢ []) ⊎ (latest_version s.versions ≡ none))
        → Round env moment s (publish_one env moment s)
    wait h = let (skipped, same) = publish_one-skip env moment s h in inl (skipped, (h, same))

-- Every project waits and is not reported, or is published and reported in its turn.
abbrev pub Rounds : Env → ℕ → List Store → List ℕ × List Store → Type 0
Rounds env moment [] (ids, []) = ids ≡ []
Rounds env moment [] (ids, _ ∷ _) = ⊥
Rounds env moment (s ∷ ss) (ids, []) = ⊥
Rounds env moment (s ∷ ss) (ids, s' ∷ ss') =
    Waits env moment s s' × Rounds env moment ss (ids, ss')
    ⊎ ((rest : List ℕ) × (ids ≡ s'.project.pk ∷ rest)
        × Opens env moment s s'
        × Rounds env moment ss (rest, ss'))

-- `publish_due_scheduled` at an explicit moment publishes and reports, in their order, exactly the
-- projects that are due, have no readiness violation and have a version; every other project keeps
-- all its rows.
pub publish_due_scheduled-Rounds :
    (env : Env) (moment : ℕ) (ss : List Store)
    → Rounds env moment ss (publish_due_scheduled env (some moment) ss)
unfolding publish_due_scheduled
publish_due_scheduled-Rounds env moment [] = refl
publish_due_scheduled-Rounds env moment (s ∷ ss) = elim (publish_one-Round env moment s) [
  | inl (skipped, same) ↦ rw skipped (inl (same, publish_due_scheduled-Rounds env moment ss))
  | inr (done, opens) ↦ rw done (inr (_, refl, opens, publish_due_scheduled-Rounds env moment ss))
]

-- Who passes the guard of `resume` can resume a government project that is approved: it opens,
-- whatever readiness violations it has, with its publication date, current version, versions and
-- reviews as they were.
pub resume_skips_publication :
    (actor : Actor) (env : Env) (s : Store)
    → require_owner_or_super_admin actor Operation.resume env s ≡ (ok tt, s)
    → s.project.project_type ≡ government
    → s.project.status ≡ ProjectStatus.approved
    → let (r, s') = resume actor env s in
      (r ≡ ok tt)
      × (s'.project.status ≡ ProjectStatus.open_for_contribution)
      × (s'.project.published_at ≡ s.project.published_at)
      × (s'.project.current_version ≡ s.project.current_version)
      × (s'.versions ≡ s.versions)
      × (s'.reviews ≡ s.reviews)
unfolding resume perform_transition
resume_skips_publication actor env s may gov approved = rw may (ground arith)
