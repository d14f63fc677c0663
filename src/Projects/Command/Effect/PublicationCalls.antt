-- ===== src/Projects/Command/Effect/PublicationCalls.antt =====
-- Publication does no more than an effect.
use dev_nepal.Prelude.{ℕ, ◌≡◌, inl, inr, Bool, true, false, Option, none, some, ◌∷◌, Text, arith}
use dev_nepal.Accounts.{Actor}
use dev_nepal.Projects.Enums.{ProjectStatus}
use dev_nepal.Projects.Data.{ProjectVersion}
use dev_nepal.Projects.Monad.{Store, Env, Operation}
use dev_nepal.Projects.Access.Laws.{require_super_admin-Guards, require_publisher-Guards}
use dev_nepal.Projects.Lifecycle.{
  transitions_for, create_version, schedule_publication_notifications,
}
use dev_nepal.Projects.Review
use dev_nepal.Projects.Publication
use dev_nepal.Prelude.{Option-cases}
use dev_nepal.Projects.Monad.{pk_of, record_audit}
use dev_nepal.Projects.Lifecycle.{new_version}
use dev_nepal.Projects.Readiness.Laws.{ready-is_government}
use dev_nepal.Projects.Lifecycle.Laws.{
  review_row-some, latest_version-new_version, new_version-number,
}
use dev_nepal.Projects.Monad.{normalize_nfc}
use dev_nepal.Prelude.{strip, text}
use dev_nepal.Projects.Enums.{ReviewDecision}
use dev_nepal.Projects.Lifecycle.{latest_version}
use dev_nepal.Projects.Command.Effect.{
  Effect, Outcome, numbers, denial-Outcome, numbers-stamp_version, latest_version-stamp_version,
}

-- The latest version after publication is the stamped one.
pub latest_version-open_now :
    (now : ℕ) (by : Option ℕ) (clear : Bool) (s : Store) (v : ProjectVersion)
    → latest_version s.versions ≡ some v
    → latest_version (Publication.open_now now v.version_number by clear s).versions
      ≡ some (Publication.stamp now v.version_number by v)
unfolding Publication.open_now
latest_version-open_now now by clear s v e =
    ground (arith, latest_version-stamp_version now v.version_number by s.versions)

numbers-open_now :
    (now number : ℕ) (by : Option ℕ) (clear : Bool) (s : Store)
    → numbers (Publication.open_now now number by clear s).versions ≡ numbers s.versions
unfolding Publication.open_now
numbers-open_now now number by clear s = numbers-stamp_version now number by s.versions

module _ (actor : Actor) (env : Env) (s : Store) where
  pub publish-Outcome : (comment : Text) → Outcome s (Publication.publish actor comment env s)
  unfolding Publication.publish transitions_for record_audit Review.require_status
      Publication.require_ready Publication.require_version Publication.open_now
      schedule_publication_notifications
  publish-Outcome comment = elim (require_super_admin-Guards actor Operation.publish env s) [
    | inl p ↦ elim (Option-cases (latest_version s.versions)) [
      | inl e ↦ rw p (ground arith)
      | inr (v, e) ↦
          let s' = Publication.open_now env.now v.version_number (pk_of actor) true s in
          rw p (
            ground (
              arith,
              ready-is_government env s,
              numbers-open_now env.now v.version_number (pk_of actor) true s,
              review_row-some actor ReviewDecision.published (strip (normalize_nfc env comment))
                  s.project.status ProjectStatus.open_for_contribution env s'
                  (Publication.stamp env.now v.version_number (pk_of actor) v)
                  (latest_version-open_now env.now (pk_of actor) true s v e),
            ))
    ]
    | inr p ↦ rw p (denial-Outcome actor Operation.publish env s)
  ]

  pub publish_by_publisher-Outcome : Outcome s (Publication.publish_by_publisher actor env s)
  unfolding Publication.publish_by_publisher Publication.publish_draft record_audit create_version
      Publication.require_ready Publication.open_now schedule_publication_notifications
  publish_by_publisher-Outcome =
      elim (require_publisher-Guards actor Operation.publisher_publish env s) [
        | inl p ↦
            let version = new_version actor env s in
            let s' = record s { versions = version ∷ s.versions } in
            rw p (
              ground (
                arith,
                new_version-number actor env s,
                numbers-open_now env.now version.version_number (pk_of actor) false s',
                review_row-some actor ReviewDecision.published
                    (text "Published by the owning ministry") s.project.status
                    ProjectStatus.open_for_contribution env
                    (Publication.open_now env.now version.version_number (pk_of actor) false s')
                    (Publication.stamp env.now version.version_number (pk_of actor) version)
                    (latest_version-open_now env.now (pk_of actor) false s' version
                      (latest_version-new_version actor env s)),
              ))
        | inr p ↦ rw p (denial-Outcome actor Operation.publisher_publish env s)
      ]

pub publish_one-Effect :
    (env : Env) (moment : ℕ) (s : Store) → Effect s (Publication.publish_one env moment s).1
unfolding Publication.publish_one transitions_for record_audit Publication.require_ready
    Publication.require_version Publication.open_now schedule_publication_notifications
publish_one-Effect env moment s = elim (Option-cases (latest_version s.versions)) [
  | inl e ↦ ground arith
  | inr (v, e) ↦ ground (arith, numbers-open_now env.now v.version_number none true s)
]
