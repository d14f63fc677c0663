-- ===== src/Projects/Command/Refinement.antt =====
-- The services refine the diagram of project statuses, call by call and over any history.
use dev_nepal.Prelude.{◌≡◌, refl, ◌⊎◌, inl, inr, true, some, arith}
use dev_nepal.Projects.Enums.{ProjectType, government, personal, ProjectStatus, status_in}
use dev_nepal.Projects.Monad.{Store, Env, Result, ok, err}
use dev_nepal.Projects.Lifecycle.{transitions_for, restore_targets}
use dev_nepal.Projects.Command.{Command, execute}
use dev_nepal.Projects.Command.Effect.{Effect, Outcome, tail, newest_change}
use dev_nepal.Projects.Command.Effect.ReviewCalls
use dev_nepal.Projects.Command.Effect.PublicationCalls
use dev_nepal.Projects.Command.Effect.ClosureCalls
use dev_nepal.Projects.Command.Effect.PersonalCalls

-- A project that has been published and is not archived.
pub data IsPublic : ProjectStatus → Type 0 where
  open_is_public : IsPublic ProjectStatus.open_for_contribution
  paused_is_public : IsPublic ProjectStatus.paused
  completed_is_public : IsPublic ProjectStatus.completed
  cancelled_is_public : IsPublic ProjectStatus.cancelled

-- A project in which work goes on.
pub data IsLive : ProjectStatus → Type 0 where
  open_is_live : IsLive ProjectStatus.open_for_contribution
  paused_is_live : IsLive ProjectStatus.paused

-- The diagram, with the edges named for what happens.
infix 40 ◌⊢◌⟶◌
pub data ◌⊢◌⟶◌ : ProjectType → ProjectStatus → ProjectStatus → Type 0 where
  submits : government ⊢ ProjectStatus.draft ⟶ ProjectStatus.in_review
  publishes_draft :
      (t : ProjectType) → t ⊢ ProjectStatus.draft ⟶ ProjectStatus.open_for_contribution
  returns : government ⊢ ProjectStatus.in_review ⟶ ProjectStatus.changes_requested
  approves : government ⊢ ProjectStatus.in_review ⟶ ProjectStatus.approved
  rejects : government ⊢ ProjectStatus.in_review ⟶ ProjectStatus.draft
  resubmits : government ⊢ ProjectStatus.changes_requested ⟶ ProjectStatus.in_review
  publishes : government ⊢ ProjectStatus.approved ⟶ ProjectStatus.open_for_contribution
  revokes : government ⊢ ProjectStatus.approved ⟶ ProjectStatus.changes_requested
  unpublishes : personal ⊢ ProjectStatus.open_for_contribution ⟶ ProjectStatus.draft
  pauses : (t : ProjectType) → t ⊢ ProjectStatus.open_for_contribution ⟶ ProjectStatus.paused
  resumes : (t : ProjectType) → t ⊢ ProjectStatus.paused ⟶ ProjectStatus.open_for_contribution
  completes : (t : ProjectType) {a : ProjectStatus} → IsLive a → t ⊢ a ⟶ ProjectStatus.completed
  cancels : (t : ProjectType) {a : ProjectStatus} → IsLive a → t ⊢ a ⟶ ProjectStatus.cancelled
  archives : (t : ProjectType) {a : ProjectStatus} → IsPublic a → t ⊢ a ⟶ ProjectStatus.archived
  reopens_completed : government ⊢ ProjectStatus.completed ⟶ ProjectStatus.open_for_contribution
  reopens_cancelled : government ⊢ ProjectStatus.cancelled ⟶ ProjectStatus.open_for_contribution
  restores : (t : ProjectType) {b : ProjectStatus} → IsPublic b → t ⊢ ProjectStatus.archived ⟶ b

ruleset statuses = (
  open_is_public, paused_is_public, completed_is_public, cancelled_is_public, open_is_live,
  paused_is_live,
)

ruleset edges = (
  submits, publishes_draft, returns, approves, rejects, resubmits, publishes, revokes, unpublishes,
  pauses, resumes, completes, cancels, archives, reopens_completed, reopens_cancelled, restores,
)

table-⟶ :
    (t : ProjectType) (a b : ProjectStatus) → status_in b (transitions_for t a) ≡ true → t ⊢ a ⟶ b
unfolding transitions_for
table-⟶ government _ b h = grind (arith, edges, statuses)
table-⟶ personal _ b h = grind (arith, edges, statuses)

target-IsPublic : (b : ProjectStatus) → status_in b restore_targets ≡ true → IsPublic b
target-IsPublic b h = grind (arith, statuses)

Moves-⟶ :
    (t : ProjectType) (a b : ProjectStatus)
    → (status_in b (transitions_for t a) ≡ true)
      ⊎ ((t ≡ government) × (a ≡ ProjectStatus.draft) × (b ≡ ProjectStatus.open_for_contribution))
      ⊎ ((a ≡ ProjectStatus.archived) × (status_in b restore_targets ≡ true))
    → t ⊢ a ⟶ b
Moves-⟶ t a b m = grind (arith, table-⟶, target-IsPublic, publishes_draft, restores)

-- Every call has an effect that the diagram and the audit trail allow.
pub execute-Outcome : (c : Command) (env : Env) (s : Store) → Outcome s (execute c env s)
unfolding execute
execute-Outcome (Command.submit_for_review a) env s = ReviewCalls.submit_for_review-Outcome a env s
execute-Outcome (Command.resubmit a) env s = ReviewCalls.resubmit-Outcome a env s
execute-Outcome (Command.publish_by_publisher a) env s =
    PublicationCalls.publish_by_publisher-Outcome a env s
execute-Outcome (Command.pause a) env s = ClosureCalls.pause-Outcome a env s
execute-Outcome (Command.resume a) env s = ClosureCalls.resume-Outcome a env s
execute-Outcome (Command.complete a) env s = ClosureCalls.complete-Outcome a env s
execute-Outcome (Command.reopen a) env s = ClosureCalls.reopen-Outcome a env s
execute-Outcome (Command.open_personal_listing a) env s =
    PersonalCalls.open_personal_listing-Outcome a env s
execute-Outcome (Command.unpublish_personal_listing a) env s =
    PersonalCalls.unpublish_personal_listing-Outcome a env s
execute-Outcome (Command.assign_reviewer a r d n k) env s =
    ReviewCalls.assign_reviewer-Outcome a env s r d n k
execute-Outcome (Command.request_changes a r) env s = ReviewCalls.request_changes-Outcome a env s r
execute-Outcome (Command.reject_submission a r) env s =
    ReviewCalls.reject_submission-Outcome a env s r
execute-Outcome (Command.revoke_approval a r) env s = ReviewCalls.revoke_approval-Outcome a env s r
execute-Outcome (Command.publish a k) env s = PublicationCalls.publish-Outcome a env s k
execute-Outcome (Command.cancel a r) env s = ClosureCalls.cancel-Outcome a env s r
execute-Outcome (Command.archive a r) env s = ClosureCalls.archive-Outcome a env s r
execute-Outcome (Command.accept_community_terms a v) env s =
    PersonalCalls.accept_community_terms-Outcome a env s v
execute-Outcome (Command.approve a p k) env s = ReviewCalls.approve-Outcome a env s p k
execute-Outcome (Command.publish_scheduled m) env s = PublicationCalls.publish_one-Effect env m s
execute-Outcome (Command.save_completion_summary a k) env s =
    ClosureCalls.save_completion_summary-Outcome a env s k
execute-Outcome (Command.restore a t) env s = ClosureCalls.restore-Outcome a env s t

Outcome-Effect : (s : Store) (r : Result (Unit {0}) × Store) → Outcome s r → Effect s r.1
Outcome-Effect s (ok _, s') h = h
Outcome-Effect s (err _, s') h = h.0

pub execute-Effect : (c : Command) (env : Env) (s : Store) → Effect s (execute c env s).1
execute-Effect c env s = Outcome-Effect s (execute c env s) (execute-Outcome c env s)

-- Whatever call of `Command` is made, by whomever and in whatever state, the project's status stays
-- or moves along one edge of the diagram, and a call that raises does not move it.
pub execute-⟶ :
    (c : Command) (env : Env) (s : Store)
    → ((execute c env s).1.project.status ≡ s.project.status)
      ⊎ (s.project.project_type ⊢ s.project.status ⟶ (execute c env s).1.project.status)
        × ((execute c env s).0 ≡ ok tt)
execute-⟶ c env s = go (execute c env s) (execute-Outcome c env s)
  where
    go :
        (r : Result (Unit {0}) × Store)
        → Outcome s r
        → (r.1.project.status ≡ s.project.status)
          ⊎ (s.project.project_type ⊢ s.project.status ⟶ r.1.project.status) × (r.0 ≡ ok tt)
    go (err e, s') h = inl h.1
    go (ok tt, s') h = elim (h.move) [
      | inl same ↦ inl same
      | inr (m, _, _) ↦
          inr (Moves-⟶ s.project.project_type s.project.status s'.project.status m, refl)
    ]

-- A call of `Command` that changes the status adds one audit event, which tells the status before
-- and after; a call that does not adds one event or none. No call takes an event away.
pub execute-audits :
    (c : Command) (env : Env) (s : Store)
    → let s' = (execute c env s).1 in
      ((s'.project.status ≡ s.project.status) × ((s'.audit ≡ s.audit) ⊎ (tail s'.audit ≡ s.audit)))
      ⊎ ((tail s'.audit ≡ s.audit)
          × (newest_change s'.audit ≡ (some s.project.status, some s'.project.status)))
execute-audits c env s = elim ((execute-Effect c env s).move) [
  | inl same ↦ inl (same, (execute-Effect c env s).trail)
  | inr (m, grown, told) ↦ inr (grown, told)
]
