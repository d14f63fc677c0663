-- ===== src/Projects/Closure.antt =====
-- apps/projects/services.py: closure evidence, and the ways in which a published project pauses,
-- ends, is archived and comes back.
pub mod Laws
use mathlib.Core.Option
use dev_nepal.Prelude.{
  ℕ, suc, ◌+◌, Bool, true, false, not, ◌&&◌, ◌||◌, ◌⊎◌, inl, inr, Option, none, some, List, [], ◌∷◌,
  Text, text, text_eq, is_blank, is_nil, length, any, find?, ltb, leb, ◌==◌, or_else, if◌then◌else◌,
}
use dev_nepal.Accounts.{Actor}
use dev_nepal.Projects.Enums.{
  ProjectStatus, ReviewDecision, is_government, is_personal, status_eq, status_in,
}
use dev_nepal.Projects.Data.{
  Project, Closure, Content, Deliverable, entry, other, CommunityTermsAcceptance,
}
use dev_nepal.Projects.Monad.{
  Store, Env, Action, Operation, AuditAction, Payload, AuditEvent, closure, terms, status,
  status_version, success, normalize_nfc, Error, authorization, lifecycle, completion_summary,
  SummaryError, missing_fields, no_deliverables, too_many_deliverables, bad_deliverable, bad_label,
  bad_url, government_only, not_open_or_paused, reopen_only_by_approval, restore_not_archived,
  restore_target, not_allowed, Result, ok, err, pure, raise, gets, asks, raise_if, modify,
  update_project, atomic, ◌>>=◌, ◌>>◌, pk_of, record_audit,
}
use dev_nepal.Projects.Access.{require_super_admin, require_publisher, require_owner_or_super_admin}
use dev_nepal.Projects.Lifecycle.{review_row, perform_transition, restore_targets}
use dev_nepal.Projects.Readiness.{check_publish_readiness}
use dev_nepal.Projects.Publication.{require_ready}

unfoldable pub pause : Actor → Action (Unit {0})
pause actor = do
  require_owner_or_super_admin actor Operation.pause
  perform_transition ProjectStatus.paused actor AuditAction.paused false none

unfoldable pub resume : Actor → Action (Unit {0})
resume actor = do
  require_owner_or_super_admin actor Operation.resume
  current ← gets (λ s. s.project.status)
  raise_if (status_in current (ProjectStatus.completed ∷ ProjectStatus.cancelled ∷ []))
      (lifecycle reopen_only_by_approval)
  perform_transition ProjectStatus.open_for_contribution actor AuditAction.resumed false none

-- `item.get(key, "")`
abbrev or_empty : Option Text → Text
or_empty none = []
or_empty (some t) = t

abbrev pub is_web_url : Env → Text → Bool
is_web_url env url =
    (text_eq (env.urlparse url).scheme (text "http")
      || text_eq (env.urlparse url).scheme (text "https"))
    && not (is_nil (env.urlparse url).netloc)

-- One round of the loop of `_normalize_deliverables`.
unfoldable pub normalize_deliverable : Env → (index : ℕ) → Deliverable → Error ⊎ Deliverable
unfolding normalize_nfc
normalize_deliverable env index other = inl (completion_summary (bad_deliverable index))
normalize_deliverable env index (entry label url) =
    let label' = normalize_nfc env (or_empty label) in
    let url' = normalize_nfc env (or_empty url) in
    if is_nil label' || ltb 200 (length label')
    then inl (completion_summary (bad_label index))
    else if not (is_nil url') && not (is_web_url env url')
    then inl (completion_summary (bad_url index))
    else inr (entry (some label') (some url'))

-- The first error, or the whole list.
abbrev pub combine : Error ⊎ Deliverable → Error ⊎ List Deliverable → Error ⊎ List Deliverable
combine (inl e) rest = inl e
combine (inr d) (inl e) = inl e
combine (inr d) (inr ds) = inr (d ∷ ds)

unfoldable pub normalize_each : Env → (index : ℕ) → List Deliverable → Error ⊎ List Deliverable
unfolding normalize_deliverable
normalize_each env index [] = inr []
normalize_each env index (d ∷ ds) =
    combine (normalize_deliverable env index d) (normalize_each env (suc index) ds)

unfoldable pub normalize_deliverables : Env → List Deliverable → Error ⊎ List Deliverable
unfolding normalize_each
normalize_deliverables env deliverables =
    if is_nil deliverables
    then inl (completion_summary no_deliverables)
    else if ltb 50 (length deliverables)
    then inl (completion_summary too_many_deliverables)
    else normalize_each env 1 deliverables

abbrev lacks_a_field : Closure → Bool
lacks_a_field c =
    is_nil c.outcome_summary
    || is_nil c.deliverables
    || is_nil c.impact_summary
    || is_nil c.lessons_learned

abbrev with_deliverables : Closure → Error ⊎ List Deliverable → Error ⊎ Closure
with_deliverables c (inl e) = inl e
with_deliverables c (inr ds) = inr (record c { deliverables = ds })

-- `_validated_completion_summary`
unfoldable pub validated_completion_summary : Env → Closure → Error ⊎ Closure
unfolding normalize_nfc normalize_deliverables
validated_completion_summary env c =
    let values : Closure = record {
      outcome_summary = normalize_nfc env c.outcome_summary;
      deliverables = c.deliverables;
      impact_summary = normalize_nfc env c.impact_summary;
      lessons_learned = normalize_nfc env c.lessons_learned;
    } in
    if lacks_a_field values
    then inl (completion_summary (missing_fields values))
    else with_deliverables values (normalize_deliverables env c.deliverables)

abbrev lift : {A : Type 0} → Error ⊎ A → Action A
lift (inl e) = raise e
lift (inr a) = pure a

unfoldable pub validate_completion_summary : Action (Unit {0})
validate_completion_summary = do
  c ← gets (λ s. s.project.closure)
  raise_if (lacks_a_field c) (completion_summary (missing_fields c))
  checked ← asks (λ env. validated_completion_summary env c)
  lift checked >>= λ _. pure tt

-- The columns are NFC fields; the values are normalised already.
abbrev set_closure : Closure → Project → Project
set_closure c p = record p { closure = c }

unfoldable pub save_completion_summary : Actor → Closure → Action (Unit {0})
save_completion_summary actor proposed = do
  require_owner_or_super_admin actor Operation.completion_summary_update
  p ← gets (λ s. s.project)
  raise_if (not (is_government p.project_type)) (completion_summary government_only)
  raise_if
      (not (status_in p.status (ProjectStatus.open_for_contribution ∷ ProjectStatus.paused ∷ [])))
      (completion_summary not_open_or_paused)
  checked ← asks (λ env. validated_completion_summary env proposed)
  values ← lift checked
  atomic do
    update_project (set_closure values)
    record_audit actor AuditAction.completion_summary_updated (closure p.closure) (closure values)
        success

unfoldable pub complete : Actor → Action (Unit {0})
complete actor = do
  require_owner_or_super_admin actor Operation.complete
  p ← gets (λ s. s.project)
  if is_government p.project_type then validate_completion_summary else pure tt
  perform_transition ProjectStatus.completed actor AuditAction.completed false none

abbrev set_outcome : Env → Text → Project → Project
set_outcome env reason p = record p {
  closure = record p.closure { outcome_summary = normalize_nfc env reason };
}

unfoldable pub cancel : Actor → (reason : Text) → Action (Unit {0})
cancel actor reason = do
  require_owner_or_super_admin actor Operation.cancel
  env ← asks (λ env. env)
  if is_nil reason then pure tt else update_project (set_outcome env reason)
  perform_transition ProjectStatus.cancelled actor AuditAction.cancelled false none

abbrev set_archive_reason : Env → Text → Project → Project
set_archive_reason env reason p = record p { archive_reason = normalize_nfc env reason }

unfoldable pub archive : Actor → (reason : Text) → Action (Unit {0})
archive actor reason = do
  require_owner_or_super_admin actor Operation.archive
  env ← asks (λ env. env)
  if is_nil reason then pure tt else update_project (set_archive_reason env reason)
  perform_transition ProjectStatus.archived actor AuditAction.archived false none

abbrev is_archival : AuditEvent → Bool
is_archival e = elim (e.action) [ AuditAction.archived ↦ true | _ ↦ false ]

-- `payload.get("status")`
abbrev pub status_in_payload : Payload → Option ProjectStatus
status_in_payload (status s) = some s
status_in_payload (status_version s version) = some s
status_in_payload (Payload.status_changed s fields) = some s
status_in_payload (Payload.status_flag s flag) = some s
status_in_payload _ = none

-- `_prior_status_from_audit`: the trail is kept newest first.
unfoldable pub prior_status_from_audit : List AuditEvent → Option ProjectStatus
prior_status_from_audit trail = elim (find? is_archival trail) [
  | none ↦ none
  | some e ↦ status_in_payload e.before
]

abbrev is_restore_target : Option ProjectStatus → Bool
is_restore_target none = false
is_restore_target (some target) = status_in target restore_targets

-- What follows the check of the target.
unfoldable pub restore_to : Actor → Option ProjectStatus → Action (Unit {0})
restore_to super_admin none = raise (lifecycle restore_target)
restore_to super_admin (some target) = do
  review_row super_admin ReviewDecision.restored [] ProjectStatus.archived target >>= λ _. pure tt
  update_project (λ p. record p { archived_at = none })
  perform_transition target super_admin AuditAction.restored true none

unfoldable pub restore : Actor → (to_status : Option ProjectStatus) → Action (Unit {0})
unfolding prior_status_from_audit restore_to
restore super_admin to_status = do
  require_super_admin super_admin Operation.restore
  current ← gets (λ s. s.project.status)
  raise_if (not (status_eq current ProjectStatus.archived)) (lifecycle restore_not_archived)
  prior ← gets (λ s. prior_status_from_audit s.audit)
  raise_if (not (is_restore_target (or_else to_status prior))) (lifecycle restore_target)
  restore_to super_admin (or_else to_status prior)

unfoldable pub reopen : Actor → Action (Unit {0})
reopen super_admin = do
  require_super_admin super_admin Operation.reopen
  current ← gets (λ s. s.project.status)
  raise_if (not (status_in current (ProjectStatus.completed ∷ ProjectStatus.cancelled ∷ [])))
      (lifecycle (not_allowed current ProjectStatus.open_for_contribution))
  require_ready check_publish_readiness
  perform_transition ProjectStatus.open_for_contribution super_admin AuditAction.reopened false none
