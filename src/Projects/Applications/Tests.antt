-- ===== src/Projects/Applications/Tests.antt =====
-- The theorems about applications at a member's application to an open project.
use dev_nepal.Prelude.{◌≡◌, refl, inl, true, false, some, List, [], ◌∷◌, text, strip}
use dev_nepal.Accounts.{is_super_admin, is_publisher_active, has_privileged_session}
use dev_nepal.Projects.Enums.{ProjectStatus, ParticipationKind, ApplicationStatus}
use dev_nepal.Projects.Data.{Application, ProjectScreeningQuestion}
use dev_nepal.Projects.Monad.{Store, Env, ok, require_privileged_mfa}
use dev_nepal.Projects.Lifecycle.{schedule_notification}
use dev_nepal.Projects.Applications.{
  Answer, apply_to_project, submitted_application, validated_screening_answers, provide,
  answer_rows, schedule_application_submission_notifications, application_recipients,
  require_application_decider,
}
use dev_nepal.Projects.Applications.History.{Act}
use dev_nepal.Projects.Applications.Submission.{IsSubmitted, apply_to_project-IsSubmitted}
use dev_nepal.Projects.Applications.Laws.{Timeline, run, run-Timeline}
use dev_nepal.Projects.Sample.{admin, publisher, member, env, store}

abbrev open_project : Store
open_project = store ProjectStatus.open_for_contribution

abbrev questions : List ProjectScreeningQuestion
questions =
    record { pk = 1; question = text "Why?"; is_required = true; is_active = true }
    ∷ record { pk = 2; question = text "Old?"; is_required = true; is_active = false }
    ∷ []

abbrev answers : List Answer
answers = record { question_id = some 1; answer = text " To help " } ∷ []

abbrev application : Application
application =
    submitted_application env member ParticipationKind.application (text "Hello")
      (record { question_id = 1; question = text "Why?"; answer = text "To help" } ∷ []) 1

applied :
    (apply_to_project
      (some member)
      questions
      []
      answers
      ParticipationKind.application
      (text "Hello")
      true
      env
      open_project).0
    ≡ ok application
unfolding apply_to_project validated_screening_answers provide answer_rows submitted_application
    schedule_application_submission_notifications application_recipients schedule_notification strip
applied = refl

apply_to_project-IsSubmitted_example :
    IsSubmitted (some member) questions [] ParticipationKind.application open_project application
apply_to_project-IsSubmitted_example =
    apply_to_project-IsSubmitted (some member) questions [] answers ParticipationKind.application
      (text "Hello") true env open_project applied

-- The publisher asks, the member answers, the PMO accepts.
abbrev history : List (Env × Act)
history =
    (env, Act.decide (some publisher) ApplicationStatus.info_requested (text "When?"))
    ∷ (env, Act.provide (some member) (text "Now"))
    ∷ (env, Act.decide (some admin) ApplicationStatus.accepted [])
    ∷ []

begun : Timeline application.events application.status
unfolding submitted_application
begun = inl (record { first = refl; from = refl; to = refl; submitted = refl })

run-Timeline_example :
    Timeline
      (run history (application, open_project)).0.events
      (run history (application, open_project)).0.status
run-Timeline_example = run-Timeline history application open_project begun

abbrev declined : Application
declined = record application { status = ApplicationStatus.declined }

publisher_decides :
    require_application_decider (some publisher) env open_project ≡ (ok tt, open_project)
unfolding require_application_decider require_privileged_mfa is_super_admin is_publisher_active
    has_privileged_session
publisher_decides = refl
