-- ===== src/Projects/Applications/Laws.antt =====
-- The timeline of an application tells its history, and a settled application stays settled.
use dev_nepal.Prelude.{
  ◌≡◌, refl, ◌⊎◌, inr, Bool, true, false, some, none, List, [], ◌∷◌, sym, ◌∙◌, ap, arith,
}
use dev_nepal.Accounts.{Actor, is_super_admin, is_publisher_active}
use dev_nepal.Projects.Enums.{ApplicationStatus}
use dev_nepal.Projects.Data.{ApplicationEvent, Application}
use dev_nepal.Projects.Access.{is_owner}
use dev_nepal.Projects.Monad.{Store, Env, Result, ok, err}
use dev_nepal.Projects.Applications.{require_application_decider, can_view_timeline}
use dev_nepal.Projects.Applications.History.{
  Act, act, Adds, act-Adds, ◌⟶◌, IsPending, submitted_is_pending, info_is_pending,
  waitlisted_is_pending, asks_info, gives_info, waitlists_new, waitlists_asked, accepts, declines,
  withdraws,
}

-- The first event of a timeline: the submission.
pub record Begins (e : ApplicationEvent) (es : List ApplicationEvent) (status : ApplicationStatus)
    : Type 0 where
  pub first : es ≡ []
  pub from : e.from_status ≡ none
  pub to : e.to_status ≡ some ApplicationStatus.submitted
  pub submitted : status ≡ ApplicationStatus.submitted

-- The events lead from a submission to the status, each from where the one before it ended, and
-- along an edge of the diagram.
abbrev pub Timeline : List ApplicationEvent → ApplicationStatus → Type 0
Timeline [] status = ⊥
Timeline (e ∷ es) status =
    Begins e es status
    ⊎ ((before : ApplicationStatus) × (e.from_status ≡ some before)
        × (e.to_status ≡ some status)
        × (before ⟶ status)
        × Timeline es before)

-- The rows after a history of calls; one that raises has not saved the application.
unfoldable pub after : Application → Result Application × Store → Application × Store
after a (ok a', s) = (a', s)
after a (err e, s) = (a, s)

unfoldable pub run : List (Env × Act) → Application × Store → Application × Store
unfolding after
run [] (a, s) = (a, s)
run ((env, c) ∷ cs) (a, s) = run cs (after a (act c a env s))

Adds-Timeline :
    (a a' : Application) → Adds a a' → Timeline a.events a.status → Timeline a'.events a'.status
Adds-Timeline a a' h t = rw h.events (inr (a.status, h.from, h.to, h.edge, t))

after-Timeline :
    (c : Act) (a : Application) (env : Env) (s : Store)
    → Timeline a.events a.status
    → Timeline (after a (act c a env s)).0.events (after a (act c a env s)).0.status
unfolding after
after-Timeline c a env s t = go (act c a env s) (λ a' h. act-Adds c a env s h)
  where
    go :
        (r : Result Application × Store)
        → ((a' : Application) → r.0 ≡ ok a' → Adds a a')
        → Timeline (after a r).0.events (after a r).0.status
    go (ok a', s') h = Adds-Timeline a a' (h a' refl) t
    go (err e, s') h = t

-- Whatever decisions, answers and withdrawals are attempted, by whomever, an application whose
-- timeline leads from its submission to its status keeps such a timeline.
pub run-Timeline :
    (cs : List (Env × Act)) (a : Application) (s : Store)
    → Timeline a.events a.status
    → Timeline (run cs (a, s)).0.events (run cs (a, s)).0.status
unfolding run
run-Timeline [] a s t = t
run-Timeline ((env, c) ∷ cs) a s t =
    run-Timeline cs (after a (act c a env s)).0 (after a (act c a env s)).1
      (after-Timeline c a env s t)

abbrev pub is_settled : ApplicationStatus → Bool
is_settled ApplicationStatus.accepted = true
is_settled ApplicationStatus.declined = true
is_settled ApplicationStatus.withdrawn = true
is_settled _ = false

pending_is_not_settled : {a : ApplicationStatus} → IsPending a → is_settled a ≡ false
pending_is_not_settled submitted_is_pending = refl
pending_is_not_settled info_is_pending = refl
pending_is_not_settled waitlisted_is_pending = refl

edge_is_not_settled : {a b : ApplicationStatus} → a ⟶ b → is_settled a ≡ false
edge_is_not_settled asks_info = refl
edge_is_not_settled gives_info = refl
edge_is_not_settled waitlists_new = refl
edge_is_not_settled waitlists_asked = refl
edge_is_not_settled (accepts p) = pending_is_not_settled p
edge_is_not_settled (declines p) = pending_is_not_settled p
edge_is_not_settled (withdraws p) = pending_is_not_settled p

after-settled :
    (c : Act) (a : Application) (env : Env) (s : Store)
    → is_settled a.status ≡ true
    → (after a (act c a env s)).0 ≡ a
unfolding after
after-settled c a env s settled = go (act c a env s) (λ a' h. act-Adds c a env s h)
  where
    go :
        (r : Result Application × Store)
        → ((a' : Application) → r.0 ≡ ok a' → Adds a a')
        → (after a r).0 ≡ a
    go (ok a', s') h =
        let impossible : true ≡ false = sym settled ∙ edge_is_not_settled (h a' refl).edge in cc
    go (err e, s') h = refl

-- An accepted, declined or withdrawn application is never written again: no history of calls
-- changes its row or its timeline.
pub run-settled :
    (cs : List (Env × Act)) (a : Application) (s : Store)
    → is_settled a.status ≡ true
    → (run cs (a, s)).0 ≡ a
unfolding run
run-settled [] a s h = refl
run-settled ((env, c) ∷ cs) a s h =
    let same = after-settled c a env s h in
    run-settled cs (after a (act c a env s)).0 (after a (act c a env s)).1
      (ap (λ b. is_settled b.status) same ∙ h)
    ∙ same

-- Whoever may decide an application may see its timeline.
pub decider_views :
    (actor : Actor) (application : Application) (env : Env) (s : Store)
    → require_application_decider actor env s ≡ (ok tt, s)
    → can_view_timeline actor application s ≡ true
unfolding require_application_decider can_view_timeline is_super_admin is_publisher_active is_owner
decider_views none application env s h = ground arith
decider_views (some user) application env s h = ground arith
