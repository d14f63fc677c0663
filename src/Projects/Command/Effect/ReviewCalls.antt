-- ===== src/Projects/Command/Effect/ReviewCalls.antt =====
-- Submission and review do no more than an effect.
use dev_nepal.Prelude.{inl, inr, Bool, Option, List, Text, arith}
use dev_nepal.Accounts.{User, Actor}
use dev_nepal.Projects.Monad.{Store, Env, Operation}
use dev_nepal.Projects.Access.Laws.{require_super_admin-Guards, require_publisher-Guards}
use dev_nepal.Projects.Lifecycle.{
  perform_transition, create_version, review_row, schedule_review_notifications,
  schedule_review_queue_notifications,
}
use dev_nepal.Projects.Review
use dev_nepal.Projects.Command.Effect.{Outcome, denial-Outcome, reviewer-Guards}

module _ (actor : Actor) (env : Env) (s : Store) where
  pub submit_for_review-Outcome : Outcome s (Review.submit_for_review actor env s)
  unfolding Review.submit_for_review create_version schedule_review_queue_notifications
      perform_transition
  submit_for_review-Outcome = elim (require_publisher-Guards actor Operation.submit env s) [
    | inl p ↦ rw p (ground arith)
    | inr p ↦ rw p (denial-Outcome actor Operation.submit env s)
  ]

  pub resubmit-Outcome : Outcome s (Review.resubmit actor env s)
  unfolding Review.resubmit Review.require_status create_version schedule_review_queue_notifications
      perform_transition
  resubmit-Outcome = elim (require_publisher-Guards actor Operation.resubmit env s) [
    | inl p ↦ rw p (ground arith)
    | inr p ↦ rw p (denial-Outcome actor Operation.resubmit env s)
  ]

  pub request_changes-Outcome :
      (reason : Text) → Outcome s (Review.request_changes actor reason env s)
  unfolding Review.request_changes Review.require_status review_row perform_transition
      schedule_review_notifications
  request_changes-Outcome reason = elim (reviewer-Guards actor Operation.request_changes env s) [
    | inl (p, q) ↦ rw p (rw q (ground arith))
    | inr (inl (p, q)) ↦ rw p (rw q (denial-Outcome actor Operation.review_decision env s))
    | inr (inr p) ↦ rw p (denial-Outcome actor Operation.request_changes env s)
  ]

  pub reject_submission-Outcome :
      (reason : Text) → Outcome s (Review.reject_submission actor reason env s)
  unfolding Review.reject_submission Review.require_status review_row perform_transition
      schedule_review_notifications
  reject_submission-Outcome reason = elim (reviewer-Guards actor Operation.reject env s) [
    | inl (p, q) ↦ rw p (rw q (ground arith))
    | inr (inl (p, q)) ↦ rw p (rw q (denial-Outcome actor Operation.review_decision env s))
    | inr (inr p) ↦ rw p (denial-Outcome actor Operation.reject env s)
  ]

  pub approve-Outcome :
      (publish_at : Option Review.Moment) (comment : Text)
      → Outcome s (Review.approve actor publish_at comment env s)
  unfolding Review.approve Review.require_status review_row perform_transition
      schedule_review_notifications
  approve-Outcome publish_at comment = elim (reviewer-Guards actor Operation.approve env s) [
    | inl (p, q) ↦ rw p (rw q (ground arith))
    | inr (inl (p, q)) ↦ rw p (rw q (denial-Outcome actor Operation.review_decision env s))
    | inr (inr p) ↦ rw p (denial-Outcome actor Operation.approve env s)
  ]

  pub revoke_approval-Outcome :
      (reason : Text) → Outcome s (Review.revoke_approval actor reason env s)
  unfolding Review.revoke_approval Review.require_status review_row perform_transition
      schedule_review_notifications
  revoke_approval-Outcome reason = elim (reviewer-Guards actor Operation.revoke_approval env s) [
    | inl (p, q) ↦ rw p (rw q (ground arith))
    | inr (inl (p, q)) ↦ rw p (rw q (denial-Outcome actor Operation.review_decision env s))
    | inr (inr p) ↦ rw p (denial-Outcome actor Operation.revoke_approval env s)
  ]

  pub assign_reviewer-Outcome :
      (reviewer : Option User) (due_at : Option Review.Moment) (note : Text)
      (checklist : List (Text × Option Bool))
      → Outcome s (Review.assign_reviewer actor reviewer due_at note checklist env s)
  unfolding Review.assign_reviewer Review.store_assignment
  assign_reviewer-Outcome reviewer due_at note checklist =
      elim (require_super_admin-Guards actor Operation.assign_reviewer env s) [
        | inl p ↦ rw p (ground arith)
        | inr p ↦ rw p (denial-Outcome actor Operation.assign_reviewer env s)
      ]
