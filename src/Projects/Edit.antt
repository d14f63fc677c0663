-- ===== src/Projects/Edit.antt =====
-- apps/projects/services.py: `apply_edit`, the edits of a publisher.
pub mod Laws
pub mod Stranding
mod Tests
use dev_nepal.Prelude.{
  ℕ, Bool, true, false, not, ◌&&◌, Option, none, some, List, [], ◌∷◌, any, is_nil, Text, text_eq,
  ◌==◌, if◌then◌else◌,
}
use dev_nepal.Accounts.{Actor}
use dev_nepal.Projects.Enums.{
  ProjectStatus, DifficultyLevel, EffortBand, ContributionMode, ResponseSla, SignoffModel,
  DataClassification, status_in,
}
use dev_nepal.Projects.Data.{Project, Content, Closure, License, Deliverable}
use dev_nepal.Projects.Monad.{
  Store, Env, Action, Operation, AuditAction, FieldName, Payload, Error, success, normalize_nfc, ok,
  err, pure, raise, gets, asks, raise_if, modify, update_project, ◌>>=◌, ◌>>◌, record_audit,
}
use dev_nepal.Projects.Access.{require_publisher}
use dev_nepal.Projects.Lifecycle.{create_version, schedule_review_queue_notifications}

-- One keyword argument of `apply_edit`: a column that may be edited and its new value. A column
-- that the model leaves out is `other_column`: none of those is material. The slug is not edited
-- here. A name that is no column, or one of NON_EDITABLE_FIELDS, is `unknown_field`.
pub data Change : Type 0 where
  title_en title_ne summary_en summary_ne problem_statement description_md prerequisites
        communication_channel code_of_conduct_url repository_url default_branch issue_tracker_url
        documentation_url security_contact vulnerability_disclosure_url outcome_summary
        impact_summary lessons_learned archive_reason :
      Text → Change
  difficulty : Option DifficultyLevel → Change
  estimated_effort : Option EffortBand → Change
  contribution_mode : Option ContributionMode → Change
  response_sla : Option ResponseSla → Change
  signoff_model : Option SignoffModel → Change
  data_classification : DataClassification → Change
  -- `license=` takes a license, `license_id=` the key of one.
  license license_id : Option License → Change
  deliverables : List Deliverable → Change
  scheduled_publication_at deadline last_maintainer_activity_at : Option ℕ → Change
  other_column unknown_field : Change

abbrev edit_content : (Content → Content) → Project → Project
edit_content f p = record p { content = f p.content }

abbrev edit_closure : (Closure → Closure) → Project → Project
edit_closure f p = record p { closure = f p.closure }

-- `setattr(project, field_name, new_value)`, as the column is saved.
unfoldable pub write : Env → Change → Project → Project
write env (Change.title_en value) =
    edit_content (λ c. record c { title_en = normalize_nfc env value })
write env (Change.title_ne value) =
    edit_content (λ c. record c { title_ne = normalize_nfc env value })
write env (Change.summary_en value) =
    edit_content (λ c. record c { summary_en = normalize_nfc env value })
write env (Change.summary_ne value) =
    edit_content (λ c. record c { summary_ne = normalize_nfc env value })
write env (Change.problem_statement value) =
    edit_content (λ c. record c { problem_statement = normalize_nfc env value })
write env (Change.description_md value) =
    edit_content (λ c. record c { description_md = normalize_nfc env value })
write env (Change.prerequisites value) =
    edit_content (λ c. record c { prerequisites = normalize_nfc env value })
write env (Change.communication_channel value) =
    edit_content (λ c. record c { communication_channel = value })
write env (Change.code_of_conduct_url value) =
    edit_content (λ c. record c { code_of_conduct_url = value })
write env (Change.repository_url value) = edit_content (λ c. record c { repository_url = value })
write env (Change.default_branch value) =
    edit_content (λ c. record c { default_branch = normalize_nfc env value })
write env (Change.issue_tracker_url value) =
    edit_content (λ c. record c { issue_tracker_url = value })
write env (Change.documentation_url value) =
    edit_content (λ c. record c { documentation_url = value })
write env (Change.security_contact value) =
    edit_content (λ c. record c { security_contact = value })
write env (Change.vulnerability_disclosure_url value) =
    edit_content (λ c. record c { vulnerability_disclosure_url = value })
write env (Change.difficulty value) = edit_content (λ c. record c { difficulty = value })
write env (Change.estimated_effort value) =
    edit_content (λ c. record c { estimated_effort = value })
write env (Change.contribution_mode value) =
    edit_content (λ c. record c { contribution_mode = value })
write env (Change.response_sla value) = edit_content (λ c. record c { response_sla = value })
write env (Change.signoff_model value) = edit_content (λ c. record c { signoff_model = value })
write env (Change.data_classification value) =
    edit_content (λ c. record c { data_classification = value })
write env (Change.license value) = edit_content (λ c. record c { license = value })
write env (Change.license_id value) = edit_content (λ c. record c { license = value })
write env (Change.outcome_summary value) =
    edit_closure (λ c. record c { outcome_summary = normalize_nfc env value })
write env (Change.impact_summary value) =
    edit_closure (λ c. record c { impact_summary = normalize_nfc env value })
write env (Change.lessons_learned value) =
    edit_closure (λ c. record c { lessons_learned = normalize_nfc env value })
write env (Change.deliverables value) = edit_closure (λ c. record c { deliverables = value })
write env (Change.archive_reason value) = λ p. record p { archive_reason = normalize_nfc env value }
write env (Change.scheduled_publication_at value) =
    λ p. record p { scheduled_publication_at = value }
write env (Change.deadline value) = λ p. record p { deadline = value }
write env (Change.last_maintainer_activity_at value) =
    λ p. record p { last_maintainer_activity_at = value }
write env Change.other_column = λ p. p
write env Change.unknown_field = λ p. p

abbrev classification_eq : DataClassification → DataClassification → Bool
classification_eq DataClassification.public DataClassification.public = true
classification_eq DataClassification.internal DataClassification.internal = true
classification_eq DataClassification.confidential DataClassification.confidential = true
classification_eq _ _ = false

abbrev signoff_eq : Option SignoffModel → Option SignoffModel → Bool
signoff_eq none none = true
signoff_eq (some SignoffModel.dco) (some SignoffModel.dco) = true
signoff_eq (some SignoffModel.cla) (some SignoffModel.cla) = true
signoff_eq (some SignoffModel.none_required) (some SignoffModel.none_required) = true
signoff_eq _ _ = false

-- The key in the column against a license, which is never equal to it, or against `None`.
abbrev license_eq : Option License → Option License → Bool
license_eq none none = true
license_eq _ _ = false

abbrev license_id_eq : Option License → Option License → Bool
license_id_eq none none = true
license_id_eq (some a) (some b) = a.pk == b.pk
license_id_eq _ _ = false

abbrev named : (same : Bool) → FieldName → List FieldName → List FieldName
named same field rest = if same then rest else field ∷ rest

-- The body of the loop that finds changed fields of MATERIAL_EDIT_FIELDS; `rest` is what the later
-- turns find.
unfoldable pub name_material : Change → Project → List FieldName → List FieldName
name_material (Change.repository_url value) p =
    named (text_eq p.content.repository_url value) FieldName.repository_url
name_material (Change.description_md value) p =
    named (text_eq p.content.description_md value) FieldName.description_md
name_material (Change.problem_statement value) p =
    named (text_eq p.content.problem_statement value) FieldName.problem_statement
name_material (Change.security_contact value) p =
    named (text_eq p.content.security_contact value) FieldName.security_contact
name_material (Change.communication_channel value) p =
    named (text_eq p.content.communication_channel value) FieldName.communication_channel
name_material (Change.data_classification value) p =
    named (classification_eq p.content.data_classification value) FieldName.data_classification
name_material (Change.signoff_model value) p =
    named (signoff_eq p.content.signoff_model value) FieldName.signoff_model
name_material (Change.license value) p =
    named (license_eq p.content.license value) FieldName.license
name_material (Change.license_id value) p =
    named (license_id_eq p.content.license value) FieldName.license_id
name_material _ p = λ rest. rest

-- The loop over the changes: the material fields that it changes, and the project that it leaves.
unfoldable pub changed_material : Env → List Change → Project → List FieldName
unfolding write name_material
changed_material env [] p = []
changed_material env (change ∷ changes) p =
    name_material change p (changed_material env changes (write env change p))

unfoldable pub write_all : Env → List Change → Project → Project
unfolding write
write_all env [] p = p
write_all env (change ∷ changes) p = write_all env changes (write env change p)

abbrev pub is_unknown : Change → Bool
is_unknown Change.unknown_field = true
is_unknown _ = false

-- EDITABLE_STATES and MATERIAL_EDIT_REVIEW_STATES
abbrev pub editable_states : List ProjectStatus
editable_states =
    ProjectStatus.draft ∷ ProjectStatus.changes_requested ∷ ProjectStatus.open_for_contribution
    ∷ ProjectStatus.paused ∷ []

abbrev pub material_edit_review_states : List ProjectStatus
material_edit_review_states = ProjectStatus.open_for_contribution ∷ ProjectStatus.paused ∷ []

abbrev to_review : ℕ → Project → Project
to_review now p = record p { status = ProjectStatus.in_review; status_changed_at = some now }

-- The last block of `apply_edit`.
unfoldable pub review_again : Actor → List FieldName → Action (Unit {0})
unfolding create_version schedule_review_queue_notifications record_audit
review_again publisher changed = do
  version ← create_version publisher
  p ← gets (λ s. s.project)
  record_audit publisher AuditAction.material_edit (Payload.status_changed p.status changed)
      (Payload.status_changed ProjectStatus.in_review changed) success
  now ← asks (λ env. env.now)
  update_project (to_review now)
  schedule_review_queue_notifications version

abbrev pub when : Bool → Action (Unit {0}) → Action (Unit {0})
when test m env s = if test then m env s else (ok tt, s)

unfoldable pub apply_edit : Actor → List Change → Action (Unit {0})
unfolding changed_material write_all review_again
apply_edit publisher changes = do
  require_publisher publisher Operation.edit
  p ← gets (λ s. s.project)
  raise_if (not (status_in p.status editable_states)) (Error.material_edit_closed p.status)
  raise_if (any is_unknown changes) Error.unknown_fields
  changed ← asks (λ env. changed_material env changes p)
  after ← asks (λ env. write_all env changes p)
  update_project (λ _. after)
  when (not (is_nil changed) && status_in p.status material_edit_review_states)
      (review_again publisher changed)
