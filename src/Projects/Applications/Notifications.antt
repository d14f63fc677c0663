-- ===== src/Projects/Applications/Notifications.antt =====
-- apps/projects/services.py: whom a submission and a decision notify.
use dev_nepal.Prelude.{
  ℕ, Bool, not, ◌&&◌, none, some, List, [], ◌∷◌, any, filter, ◌==◌, if◌then◌else◌,
}
use dev_nepal.Accounts.{
  User, Ministry, MinistryPublisher, org_is_active, publisher_status_is_active,
}
use dev_nepal.Projects.Enums.{is_personal}
use dev_nepal.Projects.Data.{Application}
use dev_nepal.Projects.Monad.{Store, Action, NotificationType, ContextUrl, DedupKey, modify}
use dev_nepal.Projects.Lifecycle.{schedule_notification}

-- The recipients are the owner, or the active publishers of the active ministry.
abbrev publishes_for : Ministry → User → MinistryPublisher → Bool
publishes_for ministry user row =
    row.user == user.pk && row.ministry == ministry.pk && publisher_status_is_active row.status

abbrev is_recipient : Ministry → List MinistryPublisher → User → Bool
is_recipient ministry publishers user =
    org_is_active ministry.status && user.is_active && any (publishes_for ministry user) publishers

unfoldable pub application_recipients : Store → List User
application_recipients s =
    if is_personal s.project.project_type then s.project.owner ∷ [] else elim (s.project.ministry) [
      | none ↦ []
      | some ministry ↦ filter (is_recipient ministry s.publishers) s.accounts
    ]

abbrev is_other : ℕ → User → Bool
is_other pk user = not (user.pk == pk)

abbrev notify_submission : (application event : ℕ) → List User → Store → Store
notify_submission application event [] s = s
notify_submission application event (user ∷ users) s =
    notify_submission application event users (record s {
      outbox =
          schedule_notification user NotificationType.application_status
            (ContextUrl.application_page application)
            (DedupKey.application_event application event (some user.pk)) s.outbox;
    })

-- The event is the newest of the timeline.
abbrev newest_event : Application → ℕ
newest_event application = elim (application.events) [ [] ↦ 0 | e ∷ _ ↦ e.pk ]

unfoldable pub schedule_application_submission_notifications : Application → Action (Unit {0})
unfolding application_recipients schedule_notification
schedule_application_submission_notifications application = modify λ s.
    notify_submission application.pk (newest_event application)
      (filter (is_other application.applicant.pk) (application_recipients s)) s

unfoldable pub schedule_application_decision_notification : Application → Action (Unit {0})
unfolding schedule_notification
schedule_application_decision_notification application = modify λ s. record s {
  outbox =
      schedule_notification application.applicant NotificationType.application_status
        (ContextUrl.application_page application.pk)
        (DedupKey.application_event application.pk (newest_event application) none) s.outbox;
}
