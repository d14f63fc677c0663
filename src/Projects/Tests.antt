-- ===== src/Projects/Tests.antt =====
-- The theorems about apps/projects at concrete inputs.
use dev_nepal.Prelude.{
  ℕ, ◌≤◌, ◌≡◌, refl, ◌⊎◌, inr, ◌↔◌, ◌≢◌, false, none, some, List, [], ◌∷◌, text, is_blank,
}
use dev_nepal.Accounts.{is_super_admin, has_privileged_session, is_publisher_active}
use dev_nepal.Projects.Enums.{government, ProjectStatus}
use dev_nepal.Projects.Monad.{
  Store, Env, Operation, authorization, lifecycle, not_allowed, ok, err, denial,
  require_privileged_mfa, record_audit, Result,
}
use dev_nepal.Projects.Access.{require_super_admin, require_publisher, require_owner_or_super_admin}
use dev_nepal.Projects.Access.Laws.{MayPublish}
use dev_nepal.Projects.Lifecycle.{
  new_version, latest_version, transitions_for, perform_transition, review_row,
  schedule_publication_notifications,
}
use dev_nepal.Projects.Data.{Closure}
use dev_nepal.Projects.Review
use dev_nepal.Projects.Review.{missing_bilingual, assigned_to_other, require_status}
use dev_nepal.Projects.Review.Laws.{
  HoldsBack, IsHeard, IsAssigned, assigned_reviewer_decides, submit_in_review_frees_review,
}
use dev_nepal.Projects.Readiness.{check_publish_readiness}
use dev_nepal.Projects.Readiness.Laws.{
  HasOwnership, HasInstructions, HasRepository, check_publish_readiness_iff,
}
use dev_nepal.Projects.Publication.{
  publish, publish_due_scheduled, require_ready, require_version, open_now,
}
use dev_nepal.Projects.Publication.Laws.{
  IsPublished, publication_review, Rounds, publish_ready, publish_requires,
  publish_due_scheduled-Rounds, resume_skips_publication,
}
use dev_nepal.Projects.Closure.{
  resume, archive, restore, complete, validated_completion_summary, validate_completion_summary,
  normalize_deliverables, normalize_deliverable,
}
use dev_nepal.Projects.Closure.Laws.{IsEvidence, complete_requires, restore-archive}
use dev_nepal.Projects.Personal.{
  open_personal_listing, has_accepted_community_terms, community_terms_version,
}
use dev_nepal.Projects.Command.{Command, execute}
use dev_nepal.Projects.Command.Effect.{numbers, tail, newest_change}
use dev_nepal.Projects.Command.Refinement.{◌⊢◌⟶◌, execute-⟶, execute-audits}
use dev_nepal.Projects.Command.Numbering.{run, countdown, run-countdown}
use dev_nepal.Projects.Sample.{
  admin, second_admin, publisher, member, env, store, listing, version, assignment, evidence,
}

abbrev approved : Store
approved = store ProjectStatus.approved

abbrev in_review : Store
in_review = store ProjectStatus.in_review

abbrev open_project : Store
open_project = store ProjectStatus.open_for_contribution

check_publish_readiness_iff_example :
    (check_publish_readiness env approved ≡ [])
    ↔ (HasOwnership approved × HasInstructions approved × HasRepository env approved)
check_publish_readiness_iff_example = check_publish_readiness_iff env approved

approved_is_ready : check_publish_readiness env approved ≡ []
unfolding check_publish_readiness
approved_is_ready = refl

published : (publish (some admin) [] env approved).0 ≡ ok tt
unfolding publish require_super_admin require_privileged_mfa require_status require_ready
    require_version latest_version check_publish_readiness review_row record_audit open_now
    schedule_publication_notifications is_super_admin has_privileged_session
published = refl

publish_ready_example :
    ((publish (some admin) [] env approved).0 ≡ ok tt)
    × IsPublished approved (publish (some admin) [] env approved).1 env (some admin) version
    × ((publish (some admin) [] env approved).1.reviews
        ≡ publication_review (some admin) [] version env approved ∷ [])
unfolding latest_version is_super_admin has_privileged_session
publish_ready_example =
    publish_ready (some admin) [] env approved version refl refl refl approved_is_ready refl

publish_requires_example :
    (approved.project.status ≡ ProjectStatus.approved)
    × (check_publish_readiness env approved ≡ [])
    × (latest_version approved.versions ≢ none)
publish_requires_example = publish_requires (some admin) [] env approved published

execute-⟶_example :
    ((execute (Command.publish (some admin) []) env approved).1.project.status
      ≡ ProjectStatus.approved)
    ⊎ (government
        ⊢ ProjectStatus.approved ⟶
          (execute (Command.publish (some admin) []) env approved).1.project.status)
      × ((execute (Command.publish (some admin) []) env approved).0 ≡ ok tt)
execute-⟶_example = execute-⟶ (Command.publish (some admin) []) env approved

execute-audits_example :
    let s' = (execute (Command.publish (some admin) []) env approved).1 in
    ((s'.project.status ≡ ProjectStatus.approved) × ((s'.audit ≡ []) ⊎ (tail s'.audit ≡ [])))
    ⊎ ((tail s'.audit ≡ [])
        × (newest_change s'.audit ≡ (some ProjectStatus.approved, some s'.project.status)))
execute-audits_example = execute-audits (Command.publish (some admin) []) env approved

-- A publication, a pause, and a resumption by the ministry's publisher.
abbrev history : List (Env × Command)
history =
    (env, Command.publish (some admin) [])
    ∷ (env, Command.pause (some publisher))
    ∷ (env, Command.resume (some publisher))
    ∷ []

run-countdown_example : (m : ℕ) × (1 ≤ m) × (numbers (run history approved).versions ≡ countdown m)
run-countdown_example = run-countdown history approved 1 refl

assigned_reviewer_decides_example :
    let denied : Result (Unit {0}) × Store = (
      err (authorization Operation.review_decision),
      denial (some second_admin) Operation.review_decision env in_review,
    ) in
    HoldsBack in_review second_admin
      × (Review.approve (some second_admin) none [] env in_review ≡ denied)
      × (Review.request_changes (some second_admin) (text "why") env in_review ≡ denied)
      × (Review.reject_submission (some second_admin) (text "why") env in_review ≡ denied)
      × (Review.revoke_approval (some second_admin) (text "why") env in_review ≡ denied)
    ⊎ ¬ (HoldsBack in_review second_admin)
      × IsHeard second_admin (Review.approve (some second_admin) none []) env in_review
      × IsHeard second_admin (Review.request_changes (some second_admin) (text "why")) env in_review
      × IsHeard second_admin
          (Review.reject_submission (some second_admin) (text "why"))
          env
          in_review
      × IsHeard second_admin (Review.revoke_approval (some second_admin) (text "why")) env in_review
unfolding is_super_admin has_privileged_session
assigned_reviewer_decides_example =
    assigned_reviewer_decides second_admin env in_review (text "why") [] none refl refl

publisher_may : MayPublish (some publisher) env in_review
unfolding is_super_admin has_privileged_session is_publisher_active
publisher_may = inr (refl, inr refl, refl)

in_review_IsAssigned : IsAssigned in_review assignment version
unfolding latest_version
in_review_IsAssigned = record {
  government = refl;
  in_review = refl;
  latest = refl;
  assignment = refl;
  version = refl;
}

submit_in_review_frees_review_example :
    let (r, s') = Review.submit_for_review (some publisher) env in_review in
    (r ≡ err (lifecycle (not_allowed ProjectStatus.in_review ProjectStatus.in_review)))
    × (s'.versions ≡ new_version (some publisher) env in_review ∷ in_review.versions)
    × (s'.project.status ≡ ProjectStatus.in_review)
    × (assigned_to_other (some second_admin) s' ≡ false)
unfolding missing_bilingual
submit_in_review_frees_review_example =
    submit_in_review_frees_review (some publisher) (some second_admin) env in_review assignment
      version publisher_may in_review_IsAssigned refl

publish_due_scheduled-Rounds_example :
    Rounds env 95
      (approved ∷ in_review ∷ [])
      (publish_due_scheduled env (some 95) (approved ∷ in_review ∷ []))
publish_due_scheduled-Rounds_example =
    publish_due_scheduled-Rounds env 95 (approved ∷ in_review ∷ [])

publisher_resumes :
    require_owner_or_super_admin (some publisher) Operation.resume env approved ≡ (ok tt, approved)
unfolding require_owner_or_super_admin require_publisher require_privileged_mfa is_super_admin
    has_privileged_session is_publisher_active
publisher_resumes = refl

resume_skips_publication_example :
    let (r, s') = resume (some publisher) env approved in
    (r ≡ ok tt)
    × (s'.project.status ≡ ProjectStatus.open_for_contribution)
    × (s'.project.published_at ≡ none)
    × (s'.project.current_version ≡ none)
    × (s'.versions ≡ version ∷ [])
    × (s'.reviews ≡ [])
resume_skips_publication_example =
    resume_skips_publication (some publisher) env approved publisher_resumes refl refl

completed : (complete (some admin) env open_project).0 ≡ ok tt
unfolding complete require_owner_or_super_admin require_privileged_mfa validate_completion_summary
    validated_completion_summary normalize_deliverables normalize_deliverable perform_transition
    transitions_for is_super_admin has_privileged_session
completed = refl

complete_requires_example :
    ((c : Closure) × (validated_completion_summary env evidence ≡ inr c) × IsEvidence env c)
    × ((open_project.project.status ≡ ProjectStatus.open_for_contribution)
        ⊎ (open_project.project.status ≡ ProjectStatus.paused))
complete_requires_example = complete_requires (some admin) env open_project refl completed

validated : validated_completion_summary env evidence ≡ inr evidence
unfolding validated_completion_summary normalize_deliverables normalize_deliverable
validated = refl

publisher_cancels :
    require_owner_or_super_admin (some publisher) Operation.cancel env in_review
    ≡ (ok tt, in_review)
unfolding require_owner_or_super_admin require_publisher require_privileged_mfa is_super_admin
    has_privileged_session is_publisher_active
publisher_cancels = refl

restore-archive_example :
    let (r, s') = archive (some admin) (text "old") env open_project in
    let (r', s'') = restore (some admin) none env s' in
    (r ≡ ok tt)
    × (s'.project.status ≡ ProjectStatus.archived)
    × (r' ≡ ok tt)
    × (s''.project.status ≡ ProjectStatus.open_for_contribution)
    × (s''.project.archived_at ≡ none)
unfolding is_super_admin has_privileged_session latest_version
restore-archive_example =
    restore-archive (some admin) (text "old") env env open_project version refl refl refl refl refl

-- The listing of a member who has accepted the terms.
abbrev accepted : Store
accepted = record listing { acceptances = record { user = 3; version = text "2026.09" } ∷ [] }

opened_listing : (open_personal_listing (some member) env accepted).0 ≡ ok tt
unfolding open_personal_listing require_publisher has_accepted_community_terms
    community_terms_version perform_transition transitions_for is_blank
opened_listing = refl

member_resumes :
    require_owner_or_super_admin (some member) Operation.resume env listing ≡ (ok tt, listing)
unfolding require_owner_or_super_admin require_publisher is_super_admin
member_resumes = refl
