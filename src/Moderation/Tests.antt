-- ===== src/Moderation/Tests.antt =====
-- The theorems about apps/moderation at concrete inputs.
use dev_nepal.Prelude.{ℕ, ◌≡◌, refl, true, false, some, List, [], ◌∷◌, text, strip, any}
use dev_nepal.Accounts.{User, is_super_admin, has_privileged_session}
use dev_nepal.Service.{returns}
use dev_nepal.Projects.Enums.{ProjectStatus}
use dev_nepal.Administration.Grants.{Account, is_active_admin}
use dev_nepal.Moderation.Data.{
  ReportReason, CaseStatus, ModerationAction, AppealStatus, BlogModerationState, Target,
  ModerationCase, Env, Desk, lacks_text,
}
use dev_nepal.Moderation.Cases.{new_case, record_decision, decision_target_status, is_action_taken}
use dev_nepal.Moderation.Hearings.{appeal, resolve_appeal}
use dev_nepal.Moderation.Guards.{may_moderate}
use dev_nepal.Moderation.History.{Step, Act, assign_, decide_, appeal_, resolve_, act, run}
use dev_nepal.Moderation.Steps.{act-Step}
use dev_nepal.Moderation.Laws.{IsCoherent, run-IsCoherent, unflagged_posts_stay}
use dev_nepal.Moderation.Appeals.{
  overturn_restores, with_case, overturn_lifts_both, suspends_last_admin,
}

abbrev admin : User
admin = record { pk = 1; is_active = true; is_superuser = true; otp_verified = true }

abbrev member : User
member = record { pk = 5; is_active = true; is_superuser = false; otp_verified = false }

abbrev env : Env
env = record { now = 100; mfa_bypass = false }

abbrev reported : ℕ → ModerationCase
reported pk = record (new_case pk (some member) ReportReason.spam (text "ads") [] env) {
  status = CaseStatus.under_review;
}

abbrev desk : Target → Desk
desk target = record { case = reported 7; target = target; audit = [] }

abbrev project : Desk
project = desk (Target.project ProjectStatus.open_for_contribution)

abbrev calls : List (Env × Act)
calls =
    (env, assign_ (some admin))
    ∷ (env, decide_ (some admin) ModerationAction.unpublish (some ReportReason.spam) (text "ads"))
    ∷ (env, appeal_ (some member) (text "mistake"))
    ∷ (env, resolve_ (some admin) AppealStatus.overturned (text "agreed"))
    ∷ []

act-Step_example :
    Step project
      (act
        (decide_ (some admin) ModerationAction.unpublish (some ReportReason.spam) [])
        env
        project).1
act-Step_example =
    act-Step (decide_ (some admin) ModerationAction.unpublish (some ReportReason.spam) []) env
      project

reported-IsCoherent : IsCoherent (reported 7)
reported-IsCoherent = record {
  appeal = refl;
  undecided = λ h. refl;
  unheard = λ h. refl;
  final = λ h. h;
}

run-IsCoherent_example : IsCoherent (run calls project).case
run-IsCoherent_example = run-IsCoherent calls project reported-IsCoherent

unflagged_posts_stay_example :
    (run calls (desk (Target.blog_post BlogModerationState.not_reviewed))).target
    ≡ Target.blog_post BlogModerationState.not_reviewed
unflagged_posts_stay_example =
    unflagged_posts_stay calls (desk (Target.blog_post BlogModerationState.not_reviewed)) refl refl

admin-may_moderate : may_moderate env (some admin) ≡ true
unfolding is_super_admin has_privileged_session
admin-may_moderate = refl

unpublish_counts : is_action_taken (decision_target_status ModerationAction.unpublish) ≡ true
unfolding decision_target_status
unpublish_counts = refl

grounds_are_given : lacks_text (text "mistake") ≡ false
unfolding strip
grounds_are_given = refl

overturn_restores_example :
    (s1 : Desk) × ((s2 : Desk) × ((s3 : Desk) × ((record_decision
              (some admin)
              ModerationAction.unpublish
              (some ReportReason.spam)
              []
              env
              project
            ≡ (returns tt, s1))
          × (appeal (some member) (text "mistake") env s1 ≡ (returns tt, s2))
          × (resolve_appeal (some admin) AppealStatus.overturned (text "mistake") env s2
              ≡ (returns tt, s3))
          × (s3.case.status ≡ CaseStatus.closed_no_action)
          × (s3.target ≡ Target.project ProjectStatus.open_for_contribution))))
overturn_restores_example =
    overturn_restores (some admin) (some admin) (some member) ModerationAction.unpublish
      ReportReason.spam [] (text "mistake") (text "mistake") env env env project admin-may_moderate
      admin-may_moderate refl refl unpublish_counts refl refl refl grounds_are_given
      grounds_are_given

overturn_lifts_both_example :
    (s1 : Desk) × ((s2 : Desk) × ((s3 : Desk) × ((s4 : Desk) × ((record_decision
                (some admin)
                ModerationAction.unpublish
                (some ReportReason.spam)
                []
                env
                project
              ≡ (returns tt, s1))
            × (record_decision
                  (some admin)
                  ModerationAction.unpublish
                  (some ReportReason.spam)
                  []
                  env
                  (with_case (reported 8) s1)
                ≡ (returns tt, s2))
            × (appeal (some member) (text "mistake") env (with_case s1.case s2) ≡ (returns tt, s3))
            × (resolve_appeal (some admin) AppealStatus.overturned (text "mistake") env s3
                ≡ (returns tt, s4))
            × (s2.case.status ≡ CaseStatus.action_taken)
            × (s4.target ≡ Target.project ProjectStatus.open_for_contribution)))))
overturn_lifts_both_example =
    overturn_lifts_both (some admin) (some admin) (some member) ModerationAction.unpublish
      ReportReason.spam [] (text "mistake") (text "mistake") env env project
      ProjectStatus.open_for_contribution (reported 8) refl admin-may_moderate admin-may_moderate
      refl refl refl refl refl refl grounds_are_given grounds_are_given

-- The account of the only Super Admin, whom a member has reported.
abbrev last_admin : Account
last_admin = record { pk = 1; is_active = true; is_superuser = true; is_staff = true }

abbrev members : List Account
members = record { pk = 5; is_active = true; is_superuser = false; is_staff = false } ∷ []

suspends_last_admin_example :
    (s' : Desk) × ((row' : Account) × ((record_decision
            (some admin)
            ModerationAction.account_suspension
            (some ReportReason.spam)
            []
            env
            (desk (Target.account last_admin))
          ≡ (returns tt, s'))
        × (s'.target ≡ Target.account row')
        × (row'.pk ≡ 1)
        × (any is_active_admin (row' ∷ members) ≡ false)))
suspends_last_admin_example =
    suspends_last_admin (some admin) ReportReason.spam [] env (desk (Target.account last_admin))
      last_admin members refl admin-may_moderate refl refl
