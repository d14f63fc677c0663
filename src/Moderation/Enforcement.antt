-- ===== src/Moderation/Enforcement.antt =====
-- apps/moderation/services.py: what a decision does to the reported row, and how an appeal undoes it;
-- apps/blogs/services.py: the transitions of a post's moderation.
use dev_nepal.Prelude.{Bool, true, false, not, List, [], ◌∷◌, any}
use dev_nepal.Accounts.{Actor}
use dev_nepal.Service.{reply, fail, fail_if, read, choose, ◌>>=◌, ◌>>◌}
use dev_nepal.Projects.Enums.{ProjectStatus, status_eq}
use dev_nepal.Moderation.Data.{
  ModerationAction, BlogModerationState, Target, Provenance, Op, Payload, ModerationError, Call,
  record_audit, set_target,
}

-- MODERATION_TRANSITIONS
unfoldable pub moderation_transitions : BlogModerationState → List BlogModerationState
moderation_transitions BlogModerationState.not_reviewed = BlogModerationState.under_review ∷ []
moderation_transitions BlogModerationState.under_review =
    BlogModerationState.restricted ∷ BlogModerationState.reinstated ∷ []
moderation_transitions BlogModerationState.restricted = BlogModerationState.reinstated ∷ []
moderation_transitions BlogModerationState.reinstated = BlogModerationState.under_review ∷ []

abbrev pub same_state : BlogModerationState → BlogModerationState → Bool
same_state BlogModerationState.not_reviewed BlogModerationState.not_reviewed = true
same_state BlogModerationState.under_review BlogModerationState.under_review = true
same_state BlogModerationState.restricted BlogModerationState.restricted = true
same_state BlogModerationState.reinstated BlogModerationState.reinstated = true
same_state _ _ = false

-- `_transition_moderation`, of a post in `state`.
unfoldable pub transition_moderation :
    Actor → (state to_state : BlogModerationState) → Op → Call (Unit {0})
unfolding moderation_transitions record_audit
transition_moderation actor state to_state op =
    choose (any (same_state to_state) (moderation_transitions state))
      (set_target (Target.blog_post to_state)
        >> record_audit actor op (Payload.target_payload (Target.blog_post state))
            (Payload.target_payload (Target.blog_post to_state)))
      (fail ModerationError.blog_transition)

abbrev pub is_content_action : ModerationAction → Bool
is_content_action ModerationAction.content_restriction = true
is_content_action ModerationAction.unpublish = true
is_content_action _ = false

abbrev pub is_suspension : ModerationAction → Bool
is_suspension ModerationAction.account_suspension = true
is_suspension _ = false

-- `_enforcement_provenance`
abbrev pub content_provenance : Target → Provenance
content_provenance (Target.blog_post state) =
    Provenance.of_blog_post state BlogModerationState.restricted
content_provenance (Target.project status) = Provenance.of_project status ProjectStatus.draft
content_provenance _ = Provenance.nothing

abbrev pub suspension_provenance : Target → Provenance
suspension_provenance (Target.account row) = Provenance.of_account row.is_active false
suspension_provenance _ = Provenance.nothing

unfoldable pub provenance_of : Target → ModerationAction → Provenance
provenance_of target ModerationAction.content_restriction = content_provenance target
provenance_of target ModerationAction.unpublish = content_provenance target
provenance_of target ModerationAction.account_suspension = suspension_provenance target
provenance_of target _ = Provenance.nothing

abbrev write_target : Actor → Op → (before after : Target) → Call (Unit {0})
write_target actor op before after =
    set_target after
    >> record_audit actor op (Payload.target_payload before) (Payload.target_payload after)

-- The content action: `restrict_post` of a post, or a project back to draft.
abbrev pub restrict_content : Actor → Target → Call (Unit {0})
restrict_content actor (Target.blog_post state) =
    transition_moderation actor state BlogModerationState.restricted Op.blog_restricted
restrict_content actor (Target.project status) =
    write_target actor Op.project_unpublished (Target.project status)
      (Target.project ProjectStatus.draft)
restrict_content actor _ = fail ModerationError.decision_refused

abbrev pub suspend_account : Actor → Target → Call (Unit {0})
suspend_account actor (Target.account row) =
    write_target actor Op.account_suspended (Target.account row)
      (Target.account (record row { is_active = false }))
suspend_account actor _ = fail ModerationError.decision_refused

abbrev pub enforce_on : Actor → ModerationAction → Target → Call (Unit {0})
enforce_on actor ModerationAction.content_restriction target = restrict_content actor target
enforce_on actor ModerationAction.unpublish target = restrict_content actor target
enforce_on actor ModerationAction.account_suspension target = suspend_account actor target
enforce_on actor _ target = reply tt

-- `_enforce_action`
unfoldable pub enforce_action : Actor → ModerationAction → Call Provenance
unfolding provenance_of transition_moderation record_audit
enforce_action actor action = do
  target ← read (λ s. s.target)
  enforce_on actor action target
  reply (provenance_of target action)

abbrev pub same_flag : Bool → Bool → Bool
same_flag true b = b
same_flag false b = not b

-- `_restore_target_state`, with the comparison of the field that was enforced.
abbrev restore_target_state :
    Actor → Op → (unchanged : Bool) → (enforced before : Target) → Call (Unit {0})
restore_target_state actor op unchanged enforced before =
    choose unchanged (write_target actor op enforced before)
      (fail ModerationError.appeal_restoration)

abbrev pub restore_target : Actor → Provenance → Target → Call (Unit {0})
restore_target actor Provenance.nothing _ = reply tt
restore_target actor (Provenance.of_project before enforced) (Target.project status) =
    restore_target_state actor Op.project_restored (status_eq status enforced)
      (Target.project status) (Target.project before)
restore_target actor (Provenance.of_blog_post before enforced) (Target.blog_post state) =
    restore_target_state actor Op.blog_restored (same_state state enforced) (Target.blog_post state)
      (Target.blog_post before)
restore_target actor (Provenance.of_account before enforced) (Target.account row) =
    restore_target_state actor Op.account_restored (same_flag row.is_active enforced)
      (Target.account row) (Target.account (record row { is_active = before }))
restore_target actor _ _ = fail ModerationError.appeal_restoration

-- `_restore_enforcement`
unfoldable pub restore_enforcement : Actor → Call (Unit {0})
unfolding record_audit
restore_enforcement actor = do
  case ← read (λ s. s.case)
  fail_if case.security_containment ModerationError.appeal_restoration
  target ← read (λ s. s.target)
  restore_target actor case.enforcement_provenance target
