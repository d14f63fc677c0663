-- ===== src/Projects/Command/Effect/ClosureCalls.antt =====
-- Pausing, closing, archiving and reopening do no more than an effect.
use dev_nepal.Prelude.{inl, inr, Option, Text, arith}
use dev_nepal.Accounts.{Actor}
use dev_nepal.Projects.Enums.{ProjectStatus}
use dev_nepal.Projects.Data.{Closure}
use dev_nepal.Projects.Monad.{Store, Env, Operation}
use dev_nepal.Projects.Access.Laws.{require_super_admin-Guards, require_owner_or_super_admin-Guards}
use dev_nepal.Projects.Lifecycle.{perform_transition, review_row}
use dev_nepal.Projects.Publication
use dev_nepal.Projects.Closure
use dev_nepal.Projects.Closure.{status_in_payload}
use dev_nepal.Projects.Monad.{record_audit}
use dev_nepal.Projects.Command.Effect.{Outcome, denial-Outcome}

module _ (actor : Actor) (env : Env) (s : Store) where
  pub pause-Outcome : Outcome s (Closure.pause actor env s)
  unfolding Closure.pause perform_transition
  pause-Outcome = elim (require_owner_or_super_admin-Guards actor Operation.pause env s) [
    | inl p ↦ rw p (ground arith)
    | inr p ↦ rw p (denial-Outcome actor Operation.pause env s)
  ]

  pub resume-Outcome : Outcome s (Closure.resume actor env s)
  unfolding Closure.resume perform_transition
  resume-Outcome = elim (require_owner_or_super_admin-Guards actor Operation.resume env s) [
    | inl p ↦ rw p (ground arith)
    | inr p ↦ rw p (denial-Outcome actor Operation.resume env s)
  ]

  pub complete-Outcome : Outcome s (Closure.complete actor env s)
  unfolding Closure.complete perform_transition Closure.validate_completion_summary
  complete-Outcome = elim (require_owner_or_super_admin-Guards actor Operation.complete env s) [
    | inl p ↦ rw p (ground arith)
    | inr p ↦ rw p (denial-Outcome actor Operation.complete env s)
  ]

  pub save_completion_summary-Outcome :
      (proposed : Closure) → Outcome s (Closure.save_completion_summary actor proposed env s)
  unfolding Closure.save_completion_summary record_audit
  save_completion_summary-Outcome proposed =
      elim (require_owner_or_super_admin-Guards actor Operation.completion_summary_update env s) [
        | inl p ↦ rw p (ground arith)
        | inr p ↦ rw p (denial-Outcome actor Operation.completion_summary_update env s)
      ]

  pub cancel-Outcome : (reason : Text) → Outcome s (Closure.cancel actor reason env s)
  unfolding Closure.cancel perform_transition
  cancel-Outcome reason = elim (require_owner_or_super_admin-Guards actor Operation.cancel env s) [
    | inl p ↦ rw p (ground arith)
    | inr p ↦ rw p (denial-Outcome actor Operation.cancel env s)
  ]

  pub archive-Outcome : (reason : Text) → Outcome s (Closure.archive actor reason env s)
  unfolding Closure.archive perform_transition
  archive-Outcome reason =
      elim (require_owner_or_super_admin-Guards actor Operation.archive env s) [
        | inl p ↦ rw p (ground arith)
        | inr p ↦ rw p (denial-Outcome actor Operation.archive env s)
      ]

  pub restore-Outcome :
      (to_status : Option ProjectStatus) → Outcome s (Closure.restore actor to_status env s)
  unfolding Closure.restore Closure.restore_to review_row perform_transition
  restore-Outcome to_status = elim (require_super_admin-Guards actor Operation.restore env s) [
    | inl p ↦ rw p (ground arith)
    | inr p ↦ rw p (denial-Outcome actor Operation.restore env s)
  ]

  pub reopen-Outcome : Outcome s (Closure.reopen actor env s)
  unfolding Closure.reopen Publication.require_ready perform_transition
  reopen-Outcome = elim (require_super_admin-Guards actor Operation.reopen env s) [
    | inl p ↦ rw p (ground arith)
    | inr p ↦ rw p (denial-Outcome actor Operation.reopen env s)
  ]
