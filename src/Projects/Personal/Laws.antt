-- ===== src/Projects/Personal/Laws.antt =====
-- A member's own listing: the gate of the community terms, and the way round it.
use dev_nepal.Prelude.{◌≡◌, ◌⊎◌, true, false, some, Text, is_blank, text_eq_refl, arith}
use dev_nepal.Accounts.{User, Actor}
use dev_nepal.Projects.Enums.{personal, ProjectStatus}
use dev_nepal.Projects.Monad.{Store, Env, Operation, ok}
use dev_nepal.Projects.Access.{is_owner, require_owner_or_super_admin}
use dev_nepal.Projects.Access.Laws.{require_publisher-Guards, require_publisher_iff}
use dev_nepal.Projects.Lifecycle.{perform_transition}
use dev_nepal.Projects.Closure.{resume}
use dev_nepal.Projects.Personal.{
  community_terms_version, has_accepted_community_terms, accept_community_terms,
  open_personal_listing,
}

-- `open_personal_listing` succeeds only for the active owner of a personal listing in draft or
-- paused, who has accepted the current terms, and with a summary.
pub open_personal_listing_requires :
    (actor : Actor) (env : Env) (s : Store)
    → (open_personal_listing actor env s).0 ≡ ok tt
    → (s.project.project_type ≡ personal)
      × (is_owner actor s.project ≡ true)
      × (has_accepted_community_terms actor community_terms_version s.acceptances ≡ true)
      × (is_blank s.project.content.summary_en ≡ false)
      × ((s.project.status ≡ ProjectStatus.draft) ⊎ (s.project.status ≡ ProjectStatus.paused))
unfolding open_personal_listing perform_transition
open_personal_listing_requires actor env s h = ground (
  arith,
  require_publisher-Guards actor Operation.open_personal env s,
  require_publisher_iff actor Operation.open_personal env s,
)

-- Accepting the terms is recorded once: after a first acceptance by an active member the terms are
-- accepted, and a second call succeeds and changes nothing.
pub accept_community_terms_twice :
    (user : User) (version : Text) (env env' : Env) (s : Store)
    → user.is_active ≡ true
    → let (r, s') = accept_community_terms (some user) version env s in
      (r ≡ ok tt)
      × (has_accepted_community_terms (some user) version s'.acceptances ≡ true)
      × (accept_community_terms (some user) version env' s' ≡ (ok tt, s'))
unfolding accept_community_terms has_accepted_community_terms
accept_community_terms_twice user version env env' s active = ground (arith, text_eq_refl version)

-- The owner can `resume` a personal listing that is still a draft: it opens, whether or not the
-- owner has accepted the community terms, and whether or not it has a summary.
pub resume_skips_terms :
    (actor : Actor) (env : Env) (s : Store)
    → require_owner_or_super_admin actor Operation.resume env s ≡ (ok tt, s)
    → s.project.project_type ≡ personal
    → s.project.status ≡ ProjectStatus.draft
    → let (r, s') = resume actor env s in
      (r ≡ ok tt)
      × (s'.project.status ≡ ProjectStatus.open_for_contribution)
      × (s'.acceptances ≡ s.acceptances)
unfolding resume perform_transition
resume_skips_terms actor env s may own draft = rw may (ground arith)
