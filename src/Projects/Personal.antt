-- ===== src/Projects/Personal.antt =====
-- apps/projects/services.py: community terms and the publication of a member's own listing.
pub mod Laws
use dev_nepal.Prelude.{
  ℕ, Bool, true, false, not, ◌&&◌, Option, none, some, List, [], ◌∷◌, Text, text, text_eq, is_blank,
  any, ◌==◌, if◌then◌else◌,
}
use dev_nepal.Accounts.{User, Actor}
use dev_nepal.Projects.Enums.{ProjectStatus, is_personal}
use dev_nepal.Projects.Data.{Project, CommunityTermsAcceptance}
use dev_nepal.Projects.Monad.{
  Store, Env, Action, Operation, AuditAction, nothing, terms, success, terms_unauthorized,
  lifecycle, review_required, terms_not_accepted, summary_required, personal_only, ok, err, pure,
  raise, gets, raise_if, modify, ◌>>=◌, ◌>>◌, record_audit,
}
use dev_nepal.Projects.Access.{require_publisher}
use dev_nepal.Projects.Lifecycle.{perform_transition}

-- COMMUNITY_TERMS_VERSION
unfoldable pub community_terms_version : Text
community_terms_version = text "2026.09"

abbrev accepts : ℕ → Text → CommunityTermsAcceptance → Bool
accepts user version acceptance = acceptance.user == user && text_eq acceptance.version version

unfoldable pub has_accepted_community_terms : Actor → Text → List CommunityTermsAcceptance → Bool
has_accepted_community_terms none version rows = false
has_accepted_community_terms (some user) version rows = any (accepts user.pk version) rows

abbrev add_acceptance : ℕ → Text → Store → Store
add_acceptance user version s = record s {
  acceptances = record { user = user; version = version } ∷ s.acceptances;
}

unfoldable pub accept_community_terms : Actor → (version : Text) → Action (Unit {0})
unfolding has_accepted_community_terms record_audit
accept_community_terms none version env s = (err terms_unauthorized, s)
accept_community_terms (some user) version env s =
    if not user.is_active
    then (err terms_unauthorized, s)
    else if has_accepted_community_terms (some user) version s.acceptances
    then (ok tt, s)
    else record_audit (some user) AuditAction.community_terms_accepted nothing (terms version)
        success env (add_acceptance user.pk version s)

unfoldable pub open_personal_listing : Actor → Action (Unit {0})
open_personal_listing owner = do
  require_publisher owner Operation.open_personal
  p ← gets (λ s. s.project)
  raise_if (not (is_personal p.project_type)) (lifecycle review_required)
  accepted ← gets (λ s. has_accepted_community_terms owner community_terms_version s.acceptances)
  raise_if (not accepted) (lifecycle terms_not_accepted)
  raise_if (is_blank p.content.summary_en) (lifecycle summary_required)
  perform_transition ProjectStatus.open_for_contribution owner AuditAction.personal_listing_opened
      false none

unfoldable pub unpublish_personal_listing : Actor → Action (Unit {0})
unpublish_personal_listing owner = do
  require_publisher owner Operation.unpublish_personal
  p ← gets (λ s. s.project)
  raise_if (not (is_personal p.project_type)) (lifecycle personal_only)
  perform_transition ProjectStatus.draft owner AuditAction.personal_listing_unpublished false none
