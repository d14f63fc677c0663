-- ===== src/Projects/Lifecycle/Laws.antt =====
-- The steps that the services share: a review row, a version, a transition.
use dev_nepal.Prelude.{ℕ, suc, ◌≡◌, refl, Option, none, some, List, ◌∷◌, Text, arith}
use dev_nepal.Accounts.{Actor}
use dev_nepal.Projects.Enums.{ProjectStatus, ReviewDecision}
use dev_nepal.Projects.Data.{ProjectVersion}
use dev_nepal.Projects.Monad.{Store, Env, ok, err, lifecycle, no_submitted_version}
use dev_nepal.Projects.Lifecycle.{
  latest_version, next_version_number, new_version, new_review, add_review, review_row,
}

module _ (reviewer : Actor) (decision : ReviewDecision) (comment : Text)
    (from_status to_status : ProjectStatus) (env : Env) (s : Store) where
  -- With a version to attach to, a review row is added and nothing else changes.
  pub review_row-some :
      (v : ProjectVersion)
      → latest_version s.versions ≡ some v
      → review_row reviewer decision comment from_status to_status env s ≡ (
          let row =
            new_review reviewer decision comment from_status to_status v.version_number env s in
          (ok row, add_review row s))
  unfolding review_row
  review_row-some v e = rw (e, review_row)

  -- Without one it raises.
  pub review_row-none :
      latest_version s.versions ≡ none
      → review_row reviewer decision comment from_status to_status env s
        ≡ (err (lifecycle no_submitted_version), s)
  unfolding review_row
  review_row-none e = rw (e, review_row)

-- The number of a version, 0 for none.
abbrev pub number_of : Option ProjectVersion → ℕ
number_of none = 0
number_of (some v) = v.version_number

-- The next number is one more than the greatest.
pub next-number_of :
    (vs : List ProjectVersion) → next_version_number vs ≡ suc (number_of (latest_version vs))
unfolding next_version_number
next-number_of vs = ground arith

-- A new version is the latest one.
pub latest_version-new_version :
    (actor : Actor) (env : Env) (s : Store)
    → latest_version (new_version actor env s ∷ s.versions) ≡ some (new_version actor env s)
unfolding latest_version new_version
latest_version-new_version actor env s = ground arith

pub new_version-number :
    (actor : Actor) (env : Env) (s : Store)
    → (new_version actor env s).version_number ≡ next_version_number s.versions
unfolding new_version
new_version-number actor env s = refl
