-- ===== src/Projects/Command/Effect/PersonalCalls.antt =====
-- The calls on a personal listing do no more than an effect.
use dev_nepal.Prelude.{inl, inr, Text, arith}
use dev_nepal.Accounts.{Actor}
use dev_nepal.Projects.Monad.{Store, Env, Operation}
use dev_nepal.Projects.Access.Laws.{require_publisher-Guards}
use dev_nepal.Projects.Lifecycle.{perform_transition}
use dev_nepal.Projects.Personal
use dev_nepal.Projects.Command.Effect.{Outcome, denial-Outcome}

module _ (actor : Actor) (env : Env) (s : Store) where
  pub open_personal_listing-Outcome : Outcome s (Personal.open_personal_listing actor env s)
  unfolding Personal.open_personal_listing perform_transition
  open_personal_listing-Outcome =
      elim (require_publisher-Guards actor Operation.open_personal env s) [
        | inl p ↦ rw p (ground arith)
        | inr p ↦ rw p (denial-Outcome actor Operation.open_personal env s)
      ]

  pub unpublish_personal_listing-Outcome :
      Outcome s (Personal.unpublish_personal_listing actor env s)
  unfolding Personal.unpublish_personal_listing perform_transition
  unpublish_personal_listing-Outcome =
      elim (require_publisher-Guards actor Operation.unpublish_personal env s) [
        | inl p ↦ rw p (ground arith)
        | inr p ↦ rw p (denial-Outcome actor Operation.unpublish_personal env s)
      ]

  pub accept_community_terms-Outcome :
      (version : Text) → Outcome s (Personal.accept_community_terms actor version env s)
  unfolding Personal.accept_community_terms
  accept_community_terms-Outcome version = ground arith
