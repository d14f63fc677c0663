-- ===== src/Projects/Command.antt =====
-- The calls that change a project's status or closure, as one type, and the abstract machine that
-- they follow.
pub mod Effect
pub mod Refinement
pub mod Numbering
use dev_nepal.Prelude.{ℕ, Option, List, Text, Bool}
use dev_nepal.Accounts.{User, Actor}
use dev_nepal.Projects.Enums.{ProjectStatus}
use dev_nepal.Projects.Data.{Closure}
use dev_nepal.Projects.Monad.{Action, ok}
use dev_nepal.Projects.Review
use dev_nepal.Projects.Review.{Moment}
use dev_nepal.Projects.Publication
use dev_nepal.Projects.Closure
use dev_nepal.Projects.Personal

pub data Command : Type 0 where
  submit_for_review resubmit publish_by_publisher pause resume complete reopen open_personal_listing
        unpublish_personal_listing :
      Actor → Command
  assign_reviewer : Actor → Option User → Option Moment → Text → List (Text × Option Bool) → Command
  request_changes reject_submission revoke_approval publish cancel archive accept_community_terms :
      Actor → Text → Command
  approve : Actor → Option Moment → Text → Command
  publish_scheduled : (moment : ℕ) → Command
  save_completion_summary : Actor → Closure → Command
  restore : Actor → Option ProjectStatus → Command

unfoldable pub execute : Command → Action (Unit {0})
execute (Command.submit_for_review actor) = Review.submit_for_review actor
execute (Command.resubmit actor) = Review.resubmit actor
execute (Command.publish_by_publisher actor) = Publication.publish_by_publisher actor
execute (Command.pause actor) = Closure.pause actor
execute (Command.resume actor) = Closure.resume actor
execute (Command.complete actor) = Closure.complete actor
execute (Command.reopen actor) = Closure.reopen actor
execute (Command.open_personal_listing actor) = Personal.open_personal_listing actor
execute (Command.unpublish_personal_listing actor) = Personal.unpublish_personal_listing actor
execute (Command.assign_reviewer actor reviewer due_at note checklist) =
    Review.assign_reviewer actor reviewer due_at note checklist
execute (Command.request_changes actor reason) = Review.request_changes actor reason
execute (Command.reject_submission actor reason) = Review.reject_submission actor reason
execute (Command.revoke_approval actor reason) = Review.revoke_approval actor reason
execute (Command.publish actor comment) = Publication.publish actor comment
execute (Command.cancel actor reason) = Closure.cancel actor reason
execute (Command.archive actor reason) = Closure.archive actor reason
execute (Command.accept_community_terms actor version) =
    Personal.accept_community_terms actor version
execute (Command.approve actor publish_at comment) = Review.approve actor publish_at comment
-- One round of the loop of `publish_due_scheduled`, which logs every error.
execute (Command.publish_scheduled moment) =
    λ env s. (ok tt, (Publication.publish_one env moment s).1)
execute (Command.save_completion_summary actor closure) =
    Closure.save_completion_summary actor closure
execute (Command.restore actor to_status) = Closure.restore actor to_status
