-- ===== src/Moderation/Laws.antt =====
-- Cases over histories of calls.
use dev_nepal.Prelude.{
  ◌≡◌, refl, ap, ◌∙◌, Bool, true, false, Option, none, some, List, [], ◌∷◌, arith,
}
use dev_nepal.Moderation.Data.{
  CaseStatus, ModerationAction, AppealStatus, BlogModerationState, Target, Provenance,
  ModerationCase, Env, Desk,
}
use dev_nepal.Moderation.Enforcement.{provenance_of}
use dev_nepal.Moderation.Cases.{
  decision_target_status, is_working, is_appealed, is_pending, is_overturned,
}
use dev_nepal.Moderation.Guards.{applies, enforced}
use dev_nepal.Moderation.History.{
  Step, stays, assigns, decides, contains, appeals, upholds, overturns, Act, act, run,
}
use dev_nepal.Moderation.Steps.{act-Step}

abbrev pub was_overturned : Option AppealStatus → Bool
was_overturned none = false
was_overturned (some outcome) = is_overturned outcome

abbrev pub is_closed : CaseStatus → Bool
is_closed CaseStatus.closed_no_action = true
is_closed _ = false

-- The columns of a case fit together.
pub record IsCoherent (c : ModerationCase) : Type 0 where
  pub appeal : is_pending c.appeal_status ≡ is_appealed c.status
  pub undecided : is_working c.status ≡ true → c.enforcement_provenance ≡ Provenance.nothing
  pub unheard : is_working c.status ≡ true → c.appeal_status ≡ none
  pub final : was_overturned c.appeal_status ≡ true → is_closed c.status ≡ true

working-decision :
    (action : ModerationAction) (target : Target)
    → is_working (decision_target_status action) ≡ true
    → provenance_of target action ≡ Provenance.nothing
unfolding decision_target_status provenance_of
working-decision ModerationAction.escalation target h = refl
working-decision ModerationAction.no_action target h = refl
working-decision ModerationAction.warning target h = refl
working-decision ModerationAction.content_restriction target h = absurd (ground (arith, h))
working-decision ModerationAction.unpublish target h = absurd (ground (arith, h))
working-decision ModerationAction.account_suspension target h = absurd (ground (arith, h))

decided_is_not_appealed :
    (action : ModerationAction) → is_appealed (decision_target_status action) ≡ false
unfolding decision_target_status
decided_is_not_appealed verdict = ground arith

Step-IsCoherent : {s s' : Desk} → Step s s' → IsCoherent s.case → IsCoherent s'.case
Step-IsCoherent (stays c t) v = rw c v
Step-IsCoherent (assigns working to same appeal contained t) v = record {
  appeal = rw (to, appeal, v.unheard working) refl;
  undecided = λ _. same.provenance ∙ v.undecided working;
  unheard = λ _. appeal ∙ v.unheard working;
  final = λ h. absurd (ground (arith, rw (appeal, v.unheard working) at h));
}
Step-IsCoherent (decides action working may to taken provenance reporter appeal contained t) v =
    record {
      appeal = rw (to, appeal, v.unheard working, decided_is_not_appealed action) refl;
      undecided = λ h. provenance ∙ working-decision action _ (rw to at h);
      unheard = λ _. appeal ∙ v.unheard working;
      final = λ h. absurd (ground (arith, rw (appeal, v.unheard working) at h));
    }
Step-IsCoherent (contains set to same appeal t) v = record {
  appeal = rw (to, appeal) v.appeal;
  undecided = λ h. same.provenance ∙ v.undecided (rw to at h);
  unheard = λ h. appeal ∙ v.unheard (rw to at h);
  final = λ h. rw to (v.final (rw appeal at h));
}
Step-IsCoherent (appeals actioned free to waiting same contained t) v = record {
  appeal = rw (to, waiting) refl;
  undecided = λ h. absurd (ground (arith, rw to at h));
  unheard = λ h. absurd (ground (arith, rw to at h));
  final = λ h. absurd (ground (arith, rw waiting at h));
}
Step-IsCoherent (upholds a p to outcome same contained t) v = record {
  appeal = rw (to, outcome) refl;
  undecided = λ h. absurd (ground (arith, rw to at h));
  unheard = λ h. absurd (ground (arith, rw to at h));
  final = λ h. absurd (ground (arith, rw outcome at h));
}
Step-IsCoherent (overturns a p may to outcome same contained t) v = record {
  appeal = rw (to, outcome) refl;
  undecided = λ h. absurd (ground (arith, rw to at h));
  unheard = λ h. absurd (ground (arith, rw to at h));
  final = λ h. rw to refl;
}

-- After any history of calls, by whomever and whether they return or raise, on a case whose columns
-- fit together: an appeal is pending exactly when the status is appealed, a case that still awaits a
-- decision has nothing to restore and no appeal, and a case whose appeal was overturned is closed.
pub run-IsCoherent :
    (cs : List (Env × Act)) (s : Desk) → IsCoherent s.case → IsCoherent (run cs s).case
unfolding run
run-IsCoherent [] s v = v
run-IsCoherent ((env, c) ∷ cs) s v =
    run-IsCoherent cs (act c env s).1 (Step-IsCoherent (act-Step c env s) v)

-- A post that nobody has flagged, under a case with nothing to restore.
abbrev IsUnflagged : Desk → Type 0
IsUnflagged s =
    (s.target ≡ Target.blog_post BlogModerationState.not_reviewed)
    × (s.case.enforcement_provenance ≡ Provenance.nothing)

unflagged-decision :
    (action : ModerationAction)
    → applies action (Target.blog_post BlogModerationState.not_reviewed) ≡ true
    → (enforced action (Target.blog_post BlogModerationState.not_reviewed)
        ≡ Target.blog_post BlogModerationState.not_reviewed)
      × (provenance_of (Target.blog_post BlogModerationState.not_reviewed) action
          ≡ Provenance.nothing)
unfolding provenance_of
unflagged-decision ModerationAction.escalation h = (refl, refl)
unflagged-decision ModerationAction.no_action h = (refl, refl)
unflagged-decision ModerationAction.warning h = (refl, refl)
unflagged-decision ModerationAction.content_restriction h = absurd (ground (arith, h))
unflagged-decision ModerationAction.unpublish h = absurd (ground (arith, h))
unflagged-decision ModerationAction.account_suspension h = absurd (ground (arith, h))

Step-IsUnflagged : {s s' : Desk} → Step s s' → IsUnflagged s → IsUnflagged s'
Step-IsUnflagged (stays c t) (post, free) = (t ∙ post, ap (λ d. d.enforcement_provenance) c ∙ free)
Step-IsUnflagged (assigns working to same appeal contained t) (post, free) =
    (t ∙ post, same.provenance ∙ free)
Step-IsUnflagged (decides action working may to taken provenance reporter appeal contained t)
      (post, free) =
    let (kept, nothing) = unflagged-decision action (rw post at may) in
    (t ∙ (rw post kept), provenance ∙ (rw post nothing))
Step-IsUnflagged (contains set to same appeal t) (post, free) = (t ∙ post, same.provenance ∙ free)
Step-IsUnflagged (appeals actioned open_ to waiting same contained t) (post, free) =
    (t ∙ post, same.provenance ∙ free)
Step-IsUnflagged (upholds a p to outcome same contained t) (post, free) =
    (t ∙ post, same.provenance ∙ free)
Step-IsUnflagged (overturns a p may to outcome same contained t) (post, free) =
    (t ∙ (rw free post), same.provenance ∙ free)

-- A reported post that nobody has reviewed keeps its moderation state through any history of calls
-- on its case that starts with nothing to restore: no decision restricts it.
pub unflagged_posts_stay :
    (cs : List (Env × Act)) (s : Desk)
    → s.target ≡ Target.blog_post BlogModerationState.not_reviewed
    → s.case.enforcement_provenance ≡ Provenance.nothing
    → (run cs s).target ≡ Target.blog_post BlogModerationState.not_reviewed
unfolding run
unflagged_posts_stay [] s post free = post
unflagged_posts_stay ((env, c) ∷ cs) s post free =
    let (post', free') = Step-IsUnflagged (act-Step c env s) (post, free) in
    unflagged_posts_stay cs (act c env s).1 post' free'
