-- ===== src/Moderation/Restoration.antt =====
-- How an appeal restores the target, and what it undoes.
use dev_nepal.Prelude.{◌≡◌, refl, inl, inr, Bool, true, false, not, ◌&&◌, Bool-cases, arith}
use dev_nepal.Accounts.{Actor}
use dev_nepal.Projects.Enums.{status_eq}
use dev_nepal.Moderation.Data.{ModerationAction, Target, Provenance, Env, Desk, record_audit}
use dev_nepal.Moderation.Enforcement.{
  restore_target, restore_enforcement, provenance_of, same_state, same_flag,
}
use dev_nepal.Moderation.Guards.{Either, applies, enforced}

-- The target still has the state that was enforced.
abbrev pub matches : Provenance → Target → Bool
matches Provenance.nothing _ = true
matches (Provenance.of_project _ enforced) (Target.project status) = status_eq status enforced
matches (Provenance.of_blog_post _ enforced) (Target.blog_post state) = same_state state enforced
matches (Provenance.of_account _ enforced) (Target.account row) = same_flag row.is_active enforced
matches _ _ = false

abbrev pub restored_form : Provenance → Target → Target
restored_form (Provenance.of_project before _) (Target.project _) = Target.project before
restored_form (Provenance.of_blog_post before _) (Target.blog_post _) = Target.blog_post before
restored_form (Provenance.of_account before _) (Target.account row) =
    Target.account (record row { is_active = before })
restored_form _ target = target

restore_target-cases :
    (actor : Actor) (p : Provenance) (env : Env) (s : Desk) (target : Target)
    → s.target ≡ target
    → Either (restore_target actor p target env s) tt s (matches p target) (restored_form p target)
unfolding record_audit
restore_target-cases actor Provenance.nothing env s target e = inl (refl, (s, (refl, refl, e)))
restore_target-cases actor (Provenance.of_project before after) env s (Target.project status) e =
    elim (Bool-cases (status_eq status after)) [
      | inl same ↦ rw same (inl (refl, (_, (refl, refl, refl))))
      | inr changed ↦ rw changed (inr (refl, (_, refl)))
    ]
restore_target-cases actor (Provenance.of_project before after) env s (Target.blog_post _) e =
    inr (refl, (_, refl))
restore_target-cases actor (Provenance.of_project before after) env s (Target.account _) e =
    inr (refl, (_, refl))
restore_target-cases actor (Provenance.of_project before after) env s Target.other e =
    inr (refl, (_, refl))
restore_target-cases actor (Provenance.of_project before after) env s Target.gone e =
    inr (refl, (_, refl))
restore_target-cases actor (Provenance.of_blog_post before after) env s (Target.blog_post state) e =
    elim (Bool-cases (same_state state after)) [
      | inl same ↦ rw same (inl (refl, (_, (refl, refl, refl))))
      | inr changed ↦ rw changed (inr (refl, (_, refl)))
    ]
restore_target-cases actor (Provenance.of_blog_post before after) env s (Target.project _) e =
    inr (refl, (_, refl))
restore_target-cases actor (Provenance.of_blog_post before after) env s (Target.account _) e =
    inr (refl, (_, refl))
restore_target-cases actor (Provenance.of_blog_post before after) env s Target.other e =
    inr (refl, (_, refl))
restore_target-cases actor (Provenance.of_blog_post before after) env s Target.gone e =
    inr (refl, (_, refl))
restore_target-cases actor (Provenance.of_account before after) env s (Target.account row) e =
    elim (Bool-cases (same_flag row.is_active after)) [
      | inl same ↦ rw same (inl (refl, (_, (refl, refl, refl))))
      | inr changed ↦ rw changed (inr (refl, (_, refl)))
    ]
restore_target-cases actor (Provenance.of_account before after) env s (Target.blog_post _) e =
    inr (refl, (_, refl))
restore_target-cases actor (Provenance.of_account before after) env s (Target.project _) e =
    inr (refl, (_, refl))
restore_target-cases actor (Provenance.of_account before after) env s Target.other e =
    inr (refl, (_, refl))
restore_target-cases actor (Provenance.of_account before after) env s Target.gone e =
    inr (refl, (_, refl))

pub restore_enforcement-cases :
    (actor : Actor) (env : Env) (s : Desk)
    → Either
        (restore_enforcement actor env s)
        tt
        s
        (not s.case.security_containment && matches s.case.enforcement_provenance s.target)
        (restored_form s.case.enforcement_provenance s.target)
unfolding restore_enforcement
restore_enforcement-cases actor env s = elim (Bool-cases s.case.security_containment) [
  | inl contained ↦ simp contained (inr (refl, (_, refl)))
  | inr free ↦
      simp free (restore_target-cases actor s.case.enforcement_provenance env s s.target refl)
]

-- Restoration undoes enforcement.
pub enforced-matches :
    (action : ModerationAction) (target : Target)
    → applies action target ≡ true
    → (matches (provenance_of target action) (enforced action target) ≡ true)
      × (restored_form (provenance_of target action) (enforced action target) ≡ target)
unfolding provenance_of
enforced-matches ModerationAction.no_action target h = (refl, refl)
enforced-matches ModerationAction.warning target h = (refl, refl)
enforced-matches ModerationAction.escalation target h = (refl, refl)
enforced-matches ModerationAction.content_restriction (Target.project _) h = (refl, refl)
enforced-matches ModerationAction.content_restriction (Target.blog_post _) h = (refl, refl)
enforced-matches ModerationAction.unpublish (Target.project _) h = (refl, refl)
enforced-matches ModerationAction.unpublish (Target.blog_post _) h = (refl, refl)
enforced-matches ModerationAction.account_suspension (Target.account row) h = (refl, refl)
enforced-matches ModerationAction.content_restriction (Target.account _) h =
    absurd (ground (arith, h))
enforced-matches ModerationAction.content_restriction Target.other h = absurd (ground (arith, h))
enforced-matches ModerationAction.content_restriction Target.gone h = absurd (ground (arith, h))
enforced-matches ModerationAction.unpublish (Target.account _) h = absurd (ground (arith, h))
enforced-matches ModerationAction.unpublish Target.other h = absurd (ground (arith, h))
enforced-matches ModerationAction.unpublish Target.gone h = absurd (ground (arith, h))
enforced-matches ModerationAction.account_suspension (Target.blog_post _) h =
    absurd (ground (arith, h))
enforced-matches ModerationAction.account_suspension (Target.project _) h =
    absurd (ground (arith, h))
enforced-matches ModerationAction.account_suspension Target.other h = absurd (ground (arith, h))
enforced-matches ModerationAction.account_suspension Target.gone h = absurd (ground (arith, h))
