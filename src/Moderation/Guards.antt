-- ===== src/Moderation/Guards.antt =====
-- The guards of the calls on a case, and the effect of enforcement on the target.
use dev_nepal.Prelude.{◌≡◌, refl, ◌⊎◌, inl, inr, Bool, true, false, ◌&&◌, Bool-cases, arith}
use dev_nepal.Accounts.{Actor, is_super_admin, has_privileged_session}
use dev_nepal.Service.{Reply, returns, raises}
use dev_nepal.Projects.Enums.{ProjectStatus}
use dev_nepal.Moderation.Data.{
  ModerationAction, BlogModerationState, Target, Op, ModerationError, Env, Desk,
  require_super_admin, record_audit,
}
use dev_nepal.Moderation.Enforcement.{
  enforce_action, enforce_on, restrict_content, suspend_account, provenance_of,
  transition_moderation, moderation_transitions,
}

-- A Super Admin with a verified session
abbrev pub may_moderate : Env → Actor → Bool
may_moderate env actor = is_super_admin actor && has_privileged_session env.mfa_bypass actor

-- The case and the target are as they were.
abbrev pub Keeps : Desk → Desk → Type 0
Keeps s s' = (s'.case ≡ s.case) × (s'.target ≡ s.target)

pub require_super_admin-returns :
    (actor : Actor) (op : Op) (env : Env) (s : Desk)
    → may_moderate env actor ≡ true
    → require_super_admin actor op env s ≡ (returns tt, s)
unfolding require_super_admin
require_super_admin-returns actor op env s h = ground arith

pub require_super_admin-cases :
    (actor : Actor) (op : Op) (env : Env) (s : Desk)
    → (may_moderate env actor ≡ true) × (require_super_admin actor op env s ≡ (returns tt, s))
      ⊎ ((s' : Desk) × (require_super_admin actor op env s
            ≡ (raises ModerationError.authorization, s'))
          × Keeps s s')
unfolding require_super_admin
require_super_admin-cases actor op env s = elim (Bool-cases (is_super_admin actor)) [
  | inr outsider ↦ inr (
    (require_super_admin actor op env s).1,
    rw outsider refl,
    (rw outsider refl, rw outsider refl),
  )
  | inl admin ↦ elim (Bool-cases (has_privileged_session env.mfa_bypass actor)) [
    | inl verified ↦ inl (rw (admin, verified) refl, rw (admin, verified) refl)
    | inr open_session ↦ inr (
      (require_super_admin actor op env s).1,
      rw (admin, open_session) refl,
      (rw (admin, open_session) refl, rw (admin, open_session) refl),
    )
  ]
]

-- What a decision does to a target of the right kind, and what it leaves of it otherwise.
abbrev pub restricted_form : Target → Target
restricted_form (Target.blog_post _) = Target.blog_post BlogModerationState.restricted
restricted_form (Target.project _) = Target.project ProjectStatus.draft
restricted_form target = target

abbrev pub suspended_form : Target → Target
suspended_form (Target.account row) = Target.account (record row { is_active = false })
suspended_form target = target

abbrev pub enforced : ModerationAction → Target → Target
enforced ModerationAction.content_restriction target = restricted_form target
enforced ModerationAction.unpublish target = restricted_form target
enforced ModerationAction.account_suspension target = suspended_form target
enforced _ target = target

-- The action applies to the target.
abbrev pub is_restrictable : Target → Bool
is_restrictable (Target.blog_post BlogModerationState.under_review) = true
is_restrictable (Target.project _) = true
is_restrictable _ = false

abbrev pub is_account : Target → Bool
is_account (Target.account _) = true
is_account _ = false

abbrev pub applies : ModerationAction → Target → Bool
applies ModerationAction.content_restriction target = is_restrictable target
applies ModerationAction.unpublish target = is_restrictable target
applies ModerationAction.account_suspension target = is_account target
applies _ _ = true

-- A call that leaves the case, and returns with a target, or raises.
abbrev pub Writes : {A : Type 0} → Reply ModerationError A × Desk → A → Desk → Target → Type 0
Writes r a s target =
    (s' : Desk) × ((r ≡ (returns a, s')) × (s'.case ≡ s.case) × (s'.target ≡ target))

-- A call that either writes the target or raises and writes nothing.
abbrev pub Either :
    {A : Type 0} → Reply ModerationError A × Desk → A → Desk → Bool → Target → Type 0
Either r a s may target =
    (may ≡ true) × Writes r a s target
    ⊎ (may ≡ false) × ((e : ModerationError) × (r ≡ (raises e, s)))

restrict_content-cases :
    (actor : Actor) (env : Env) (s : Desk) (target : Target)
    → Either
        (restrict_content actor target env s)
        tt
        s
        (is_restrictable target)
        (restricted_form target)
unfolding transition_moderation moderation_transitions record_audit
restrict_content-cases actor env s (Target.blog_post BlogModerationState.under_review) =
    inl (refl, (_, (refl, refl, refl)))
restrict_content-cases actor env s (Target.blog_post BlogModerationState.not_reviewed) =
    inr (refl, (_, refl))
restrict_content-cases actor env s (Target.blog_post BlogModerationState.restricted) =
    inr (refl, (_, refl))
restrict_content-cases actor env s (Target.blog_post BlogModerationState.reinstated) =
    inr (refl, (_, refl))
restrict_content-cases actor env s (Target.project status) = inl (refl, (_, (refl, refl, refl)))
restrict_content-cases actor env s (Target.account row) = inr (refl, (_, refl))
restrict_content-cases actor env s Target.other = inr (refl, (_, refl))
restrict_content-cases actor env s Target.gone = inr (refl, (_, refl))

suspend_account-cases :
    (actor : Actor) (env : Env) (s : Desk) (target : Target)
    → Either (suspend_account actor target env s) tt s (is_account target) (suspended_form target)
unfolding record_audit
suspend_account-cases actor env s (Target.account row) = inl (refl, (_, (refl, refl, refl)))
suspend_account-cases actor env s (Target.blog_post _) = inr (refl, (_, refl))
suspend_account-cases actor env s (Target.project _) = inr (refl, (_, refl))
suspend_account-cases actor env s Target.other = inr (refl, (_, refl))
suspend_account-cases actor env s Target.gone = inr (refl, (_, refl))

enforce_on-cases :
    (actor : Actor) (action : ModerationAction) (env : Env) (s : Desk)
    → Either
        (enforce_on actor action s.target env s)
        tt
        s
        (applies action s.target)
        (enforced action s.target)
enforce_on-cases actor ModerationAction.content_restriction env s =
    restrict_content-cases actor env s s.target
enforce_on-cases actor ModerationAction.unpublish env s =
    restrict_content-cases actor env s s.target
enforce_on-cases actor ModerationAction.account_suspension env s =
    suspend_account-cases actor env s s.target
enforce_on-cases actor ModerationAction.no_action env s = inl (refl, (_, (refl, refl, refl)))
enforce_on-cases actor ModerationAction.warning env s = inl (refl, (_, (refl, refl, refl)))
enforce_on-cases actor ModerationAction.escalation env s = inl (refl, (_, (refl, refl, refl)))

pub enforce_action-cases :
    (actor : Actor) (action : ModerationAction) (env : Env) (s : Desk)
    → Either
        (enforce_action actor action env s)
        (provenance_of s.target action)
        s
        (applies action s.target)
        (enforced action s.target)
unfolding enforce_action
enforce_action-cases actor action env s = elim (enforce_on-cases actor action env s) [
  | inl (may, (s', (q, c, t))) ↦ inl (may, (s', (rw q refl, c, t)))
  | inr (may, (e, q)) ↦ inr (may, (e, rw q refl))
]
