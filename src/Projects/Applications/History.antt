-- ===== src/Projects/Applications/History.antt =====
-- What happens to an application after it is submitted, as one type of calls, and the diagram of its
-- statuses.
use dev_nepal.Prelude.{◌≡◌, refl, length, true, some, [], ◌∷◌, Text, arith}
use dev_nepal.Accounts.{Actor}
use dev_nepal.Projects.Enums.{ApplicationStatus, ApplicationEventType, application_status_in}
use dev_nepal.Projects.Data.{ApplicationEvent, Application}
use dev_nepal.Projects.Monad.{Store, Env, Action, ok}
use dev_nepal.Projects.Applications.{
  timeline_event, add_event, decided, decide_application, provide_info, withdraw_application,
  application_decision_transitions, withdrawable, require_application_decider,
  schedule_application_decision_notification,
}

pub data Act : Type 0 where
  decide : Actor → ApplicationStatus → Text → Act
  provide : Actor → Text → Act
  withdraw : Actor → Act

unfoldable pub act : Act → Application → Action Application
act (decide actor decision note) application = decide_application actor application decision note
act (provide actor text) application = provide_info actor application text
act (withdraw actor) application = withdraw_application actor application

-- An application that is not settled.
pub data IsPending : ApplicationStatus → Type 0 where
  submitted_is_pending : IsPending ApplicationStatus.submitted
  info_is_pending : IsPending ApplicationStatus.info_requested
  waitlisted_is_pending : IsPending ApplicationStatus.waitlisted

infix 40 ◌⟶◌
pub data ◌⟶◌ : ApplicationStatus → ApplicationStatus → Type 0 where
  asks_info : ApplicationStatus.submitted ⟶ ApplicationStatus.info_requested
  gives_info : ApplicationStatus.info_requested ⟶ ApplicationStatus.info_requested
  waitlists_new : ApplicationStatus.submitted ⟶ ApplicationStatus.waitlisted
  waitlists_asked : ApplicationStatus.info_requested ⟶ ApplicationStatus.waitlisted
  accepts : {a : ApplicationStatus} → IsPending a → a ⟶ ApplicationStatus.accepted
  declines : {a : ApplicationStatus} → IsPending a → a ⟶ ApplicationStatus.declined
  withdraws : {a : ApplicationStatus} → IsPending a → a ⟶ ApplicationStatus.withdrawn

ruleset moves = (
  submitted_is_pending, info_is_pending, waitlisted_is_pending, asks_info, gives_info,
  waitlists_new, waitlists_asked, accepts, declines, withdraws,
)

decision-⟶ :
    (a b : ApplicationStatus)
    → application_status_in b (application_decision_transitions a) ≡ true
    → a ⟶ b
unfolding application_decision_transitions
decision-⟶ a b h = grind (arith, moves)

withdrawal-⟶ :
    (a : ApplicationStatus)
    → application_status_in a withdrawable ≡ true
    → a ⟶ ApplicationStatus.withdrawn
withdrawal-⟶ a h = grind (arith, moves)

info-⟶ :
    (a : ApplicationStatus)
    → application_status_in a (ApplicationStatus.info_requested ∷ []) ≡ true
    → a ⟶ a
info-⟶ a h = grind (arith, moves)

-- One event is added, from the status before to the status after.
pub record Adds (a a' : Application) : Type 0 where
  pub event : ApplicationEvent
  pub events : a'.events ≡ event ∷ a.events
  pub from : event.from_status ≡ some a.status
  pub to : event.to_status ≡ some a'.status
  pub edge : a.status ⟶ a'.status
  pub applicant : a'.applicant ≡ a.applicant

-- What a call that returns has saved.
pub decide-saved :
    (actor : Actor) (decision : ApplicationStatus) (note : Text) (a : Application) (env : Env)
    (s : Store) {a' : Application}
    → (decide_application actor a decision note env s).0 ≡ ok a'
    → (a' ≡ decided env actor decision note a)
      × (application_status_in decision (application_decision_transitions a.status) ≡ true)
      × (require_application_decider actor env s ≡ (ok tt, s))
unfolding decide_application require_application_decider schedule_application_decision_notification
decide-saved actor decision note a env s h = ground arith

provide-saved :
    (actor : Actor) (text : Text) (a : Application) (env : Env) (s : Store) {a' : Application}
    → (provide_info actor a text env s).0 ≡ ok a'
    → (a' ≡ add_event env actor ApplicationEventType.info_provided text (some a.status) a.status a)
      × (application_status_in a.status (ApplicationStatus.info_requested ∷ []) ≡ true)
unfolding provide_info
provide-saved actor text a env s h = ground arith

withdraw-saved :
    (actor : Actor) (a : Application) (env : Env) (s : Store) {a' : Application}
    → (withdraw_application actor a env s).0 ≡ ok a'
    → (a'
        ≡ add_event env actor ApplicationEventType.withdrawn []
            (some a.status)
            ApplicationStatus.withdrawn
            (record a { status = ApplicationStatus.withdrawn }))
      × (application_status_in a.status withdrawable ≡ true)
unfolding withdraw_application
withdraw-saved actor a env s h = ground arith

-- A row that gets an event of its new status, with the old one.
add_event-Adds :
    (env : Env) (actor : Actor) (event : ApplicationEventType) (text : Text) (a b : Application)
    → a.status ⟶ b.status
    → b.events ≡ a.events
    → b.applicant ≡ a.applicant
    → Adds a (add_event env actor event text (some a.status) b.status b)
add_event-Adds env actor event text a b edge same same' = record {
  event = timeline_event env actor event text (some a.status) b.status (length b.events);
  events = cc;
  from = refl;
  to = refl;
  edge = edge;
  applicant = same';
}

decided-Adds :
    (actor : Actor) (decision : ApplicationStatus) (note : Text) (a : Application) (env : Env)
    → a.status ⟶ decision
    → Adds a (decided env actor decision note a)
unfolding decided
decided-Adds actor decision note a env edge = add_event-Adds env actor _ note a _ edge refl refl

-- A call that returns adds one event, along an edge of the diagram.
pub act-Adds :
    (c : Act) (a : Application) (env : Env) (s : Store) {a' : Application}
    → (act c a env s).0 ≡ ok a'
    → Adds a a'
unfolding act
act-Adds (decide actor decision note) a env s h =
    let (saved, listed, _) = decide-saved actor decision note a env s h in
    rw saved (decided-Adds actor decision note a env (decision-⟶ a.status decision listed))
act-Adds (provide actor text) a env s h =
    let (saved, asked) = provide-saved actor text a env s h in
    rw saved (add_event-Adds env actor _ text a a (info-⟶ a.status asked) refl refl)
act-Adds (withdraw actor) a env s h =
    let (saved, pending) = withdraw-saved actor a env s h in
    rw saved (add_event-Adds env actor _ [] a _ (withdrawal-⟶ a.status pending) refl refl)
