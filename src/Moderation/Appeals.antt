-- ===== src/Moderation/Appeals.antt =====
-- Decisions and appeals, one after the other.
use dev_nepal.Prelude.{◌≡◌, refl, sym, ◌∙◌, true, false, some, List, ◌∷◌, Text, same_id, any, arith}
use dev_nepal.Accounts.{Actor}
use dev_nepal.Service.{returns, key_of}
use dev_nepal.Projects.Enums.{ProjectStatus}
use dev_nepal.Administration.Grants.{Account, is_active_admin}
use dev_nepal.Moderation.Data.{
  ReportReason, CaseStatus, ModerationAction, AppealStatus, Target, Provenance, ModerationCase, Env,
  Desk, lacks_text,
}
use dev_nepal.Moderation.Enforcement.{provenance_of, is_content_action}
use dev_nepal.Moderation.Cases.{
  decision_target_status, is_working, is_action_taken, is_pending, record_decision,
}
use dev_nepal.Moderation.Hearings.{appeal, resolve_appeal}
use dev_nepal.Moderation.Guards.{may_moderate, applies, enforced}
use dev_nepal.Moderation.Resolution.{
  appeal-HasAppealed, applied-restores, decision-HasDecided, resolve-overturned,
}

-- A decision on a case that awaits one and has neither an appeal nor containment, with an action
-- that applies to the target, then an appeal by the reporter and its resolution as overturned, with
-- nothing between them: each of the three calls returns, the case is closed and the target is as it
-- was before the decision. The decision and the resolution are made by Super Admins with verified
-- sessions, the appeal has grounds and the resolution a reason, and the action is one that counts as
-- action taken.
pub overturn_restores :
    (super_admin judge member : Actor) (action : ModerationAction) (reason : ReportReason)
    (comment grounds why : Text) (env env' env'' : Env) (s : Desk)
    → may_moderate env super_admin ≡ true
    → may_moderate env'' judge ≡ true
    → is_working s.case.status ≡ true
    → applies action s.target ≡ true
    → is_action_taken (decision_target_status action) ≡ true
    → s.case.security_containment ≡ false
    → is_pending s.case.appeal_status ≡ false
    → same_id s.case.reporter (key_of member) ≡ true
    → lacks_text grounds ≡ false
    → lacks_text why ≡ false
    → (s1 : Desk) × ((s2 : Desk) × ((s3 : Desk) × ((record_decision super_admin action
                (some reason)
                comment
                env
                s
              ≡ (returns tt, s1))
            × (appeal member grounds env' s1 ≡ (returns tt, s2))
            × (resolve_appeal judge AppealStatus.overturned why env'' s2 ≡ (returns tt, s3))
            × (s3.case.status ≡ CaseStatus.closed_no_action)
            × (s3.target ≡ s.target))))
overturn_restores super_admin judge member action reason comment grounds why env env' env'' s
      moderator judges working may counts free unheard own given reasoned =
    let (s1, (q1, d)) =
      decision-HasDecided super_admin action reason comment env s moderator working may in
    let (s2, (q2, a)) =
      appeal-HasAppealed member grounds env' s1 given (d.contained ∙ free) (rw d.status counts)
        (rw d.reporter own) (rw d.appeal unheard) in
    let (still, back) =
      applied-restores action s s2 may (a.provenance ∙ d.provenance) a.contained
        (a.target ∙ d.target) in
    let (s3, (q3, c, t)) =
      resolve-overturned judge why env'' s2 (judges, reasoned, rw a.status refl, rw a.appeal refl)
        still in
    (s1, (s2, (s3, (q1, q2, q3, c, t ∙ back))))

content_action-project :
    (action : ModerationAction) (status : ProjectStatus)
    → is_content_action action ≡ true
    → (applies action (Target.project status) ≡ true)
      × (enforced action (Target.project status) ≡ Target.project ProjectStatus.draft)
      × (provenance_of (Target.project status) action
          ≡ Provenance.of_project status ProjectStatus.draft)
      × (decision_target_status action ≡ CaseStatus.action_taken)
unfolding provenance_of decision_target_status
content_action-project ModerationAction.content_restriction status h = (refl, refl, refl, refl)
content_action-project ModerationAction.unpublish status h = (refl, refl, refl, refl)
content_action-project ModerationAction.no_action status h = absurd (ground (arith, h))
content_action-project ModerationAction.warning status h = absurd (ground (arith, h))
content_action-project ModerationAction.account_suspension status h = absurd (ground (arith, h))
content_action-project ModerationAction.escalation status h = absurd (ground (arith, h))

-- A case about another report of the same row.
abbrev pub with_case : ModerationCase → Desk → Desk
with_case case s = record s { case = case }

-- Two cases about one project, both decided with an action that applies: when the reporter of the
-- first appeals, and the appeal is overturned, the project has the status that it had before both
-- decisions, while the second case still says that action was taken. (Neither case has containment
-- or an appeal before, the decisions and the resolution are made by Super Admins with verified
-- sessions, and the texts are given.)
pub overturn_lifts_both :
    (super_admin judge member : Actor) (action : ModerationAction) (reason : ReportReason)
    (comment grounds why : Text) (env env' : Env) (s : Desk) (status : ProjectStatus)
    (second : ModerationCase)
    → s.target ≡ Target.project status
    → may_moderate env super_admin ≡ true
    → may_moderate env' judge ≡ true
    → is_working s.case.status ≡ true
    → is_working second.status ≡ true
    → is_content_action action ≡ true
    → s.case.security_containment ≡ false
    → is_pending s.case.appeal_status ≡ false
    → same_id s.case.reporter (key_of member) ≡ true
    → lacks_text grounds ≡ false
    → lacks_text why ≡ false
    → (s1 : Desk) × ((s2 : Desk) × ((s3 : Desk) × ((s4 : Desk) × ((record_decision super_admin
                  action
                  (some reason)
                  comment
                  env
                  s
                ≡ (returns tt, s1))
              × (record_decision super_admin action (some reason) comment env (with_case second s1)
                  ≡ (returns tt, s2))
              × (appeal member grounds env' (with_case s1.case s2) ≡ (returns tt, s3))
              × (resolve_appeal judge AppealStatus.overturned why env' s3 ≡ (returns tt, s4))
              × (s2.case.status ≡ CaseStatus.action_taken)
              × (s4.target ≡ Target.project status)))))
overturn_lifts_both super_admin judge member action reason comment grounds why env env' s status
      second project moderator judges working working' content free unheard own given reasoned =
    let (may, falls, kept, counts) = content_action-project action status content in
    let (may', falls', _, _) = content_action-project action ProjectStatus.draft content in
    let (s1, (q1, d1)) =
      decision-HasDecided super_admin action reason comment env s moderator working
        (rw project may) in
    let lowered : enforced action s.target ≡ Target.project ProjectStatus.draft =
      rw project falls in
    let drafted = d1.target ∙ lowered in
    let (s2, (q2, d2)) =
      decision-HasDecided super_admin action reason comment env (with_case second s1) moderator
        working' (rw drafted may') in
    let lowered' : enforced action s1.target ≡ Target.project ProjectStatus.draft =
      rw drafted falls' in
    let drafted' = d2.target ∙ lowered' in
    let (s3, (q3, a)) =
      appeal-HasAppealed member grounds env' (with_case s1.case s2) given (d1.contained ∙ free)
        (rw (d1.status, counts) refl) (rw d1.reporter own) (rw d1.appeal unheard) in
    let (still, back) =
      applied-restores action s s3 (rw project may) (a.provenance ∙ d1.provenance) a.contained
        (a.target ∙ drafted' ∙ sym lowered) in
    let (s4, (q4, _, t)) =
      resolve-overturned judge why env' s3 (judges, reasoned, rw a.status refl, rw a.appeal refl)
        still in
    (s1, (s2, (s3, (s4, (q1, q2, q3, q4, d2.status ∙ counts, t ∙ back ∙ project)))))

-- The last active Super Admin's account, and the accounts of the others, none of whom is an active
-- Super Admin: a decision to suspend it, by whoever may moderate (the same person, for one), returns,
-- and no active Super Admin is left.
pub suspends_last_admin :
    (actor : Actor) (reason : ReportReason) (comment : Text) (env : Env) (s : Desk) (row : Account)
    (others : List Account)
    → s.target ≡ Target.account row
    → may_moderate env actor ≡ true
    → is_working s.case.status ≡ true
    → any is_active_admin others ≡ false
    → (s' : Desk) × ((row' : Account) × ((record_decision actor ModerationAction.account_suspension
              (some reason)
              comment
              env
              s
            ≡ (returns tt, s'))
          × (s'.target ≡ Target.account row')
          × (row'.pk ≡ row.pk)
          × (any is_active_admin (row' ∷ others) ≡ false)))
suspends_last_admin actor reason comment env s row others account may working alone =
    let (s', (q, d)) =
      decision-HasDecided actor ModerationAction.account_suspension reason comment env s may working
        (rw account refl) in
    (
      s',
      (
        record row { is_active = false },
        (q, d.target ∙ (rw account refl), refl, ground (arith, alone)),
      ),
    )
