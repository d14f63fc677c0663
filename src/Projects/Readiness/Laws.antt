-- ===== src/Projects/Readiness/Laws.antt =====
-- What an empty list of violations means, field by field.
use dev_nepal.Prelude.{◌≡◌, ◌⊎◌, ◌↔◌, ◌≢◌, true, false, some, none, List, [], text, any, arith}
use dev_nepal.Projects.Enums.{government}
use dev_nepal.Projects.Data.{License, ProjectSuitability}
use dev_nepal.Projects.Monad.{Store, Env, Violation}
use dev_nepal.Projects.Readiness.{
  check_publish_readiness, instruction_violations, repository_readiness, has_active_connection,
  ticked, task_is_live, scan_is_bad,
}

-- BR-002: an owner, a maintainer, a contact, a mode and a response window; the suitability is
-- confirmed, repository readiness included.
pub record HasOwnership (s : Store) : Type 0 where
  pub is_government : s.project.project_type ≡ government
  pub ministry : s.project.ministry ≢ none
  pub maintainer : s.maintainers ≢ []
  pub contact : s.project.content.communication_channel ≢ []
  pub mode : s.project.content.contribution_mode ≢ none
  pub response : s.project.content.response_sla ≢ none

-- GOV-007: instructions, difficulty, effort, and a task that is not cancelled.
pub record HasInstructions (s : Store) : Type 0 where
  pub suitability :
      (row : ProjectSuitability) × (s.suitability ≡ some row)
      × (row.confirmed_at ≢ none)
      × (ticked (text "repository_readiness") row.checklist ≡ true)
  pub prerequisites : s.project.content.prerequisites ≢ []
  pub difficulty : s.project.content.difficulty ≢ none
  pub effort : s.project.content.estimated_effort ≢ none
  pub task : any task_is_live s.tasks ≡ true

-- BR-003 and GOV-003: an approved license, a connected repository with its documents, and no
-- attachment that was quarantined.
pub record HasRepository (env : Env) (s : Store) : Type 0 where
  pub license : (row : License) × (s.project.content.license ≡ some row) × (row.is_approved ≡ true)
  pub repository : s.project.content.repository_url ≢ []
  pub connection : has_active_connection env s.project.content.repository_url s.connections ≡ true
  pub readme : s.project.content.documentation_url ≢ []
  pub code_of_conduct : s.project.content.code_of_conduct_url ≢ []
  pub security :
      (s.project.content.security_contact ≢ [])
      ⊎ (s.project.content.vulnerability_disclosure_url ≢ [])
  pub issues : s.project.content.issue_tracker_url ≢ []
  pub branch : s.project.content.default_branch ≢ []
  pub attachments : any scan_is_bad s.attachments ≡ false

repository_readiness-nil :
    (env : Env) (s : Store) → repository_readiness env s ≡ [] → HasRepository env s
unfolding repository_readiness
repository_readiness-nil env s h = ground arith

HasRepository-readiness :
    (env : Env) (s : Store) → HasRepository env s → repository_readiness env s ≡ []
unfolding repository_readiness
HasRepository-readiness env s h = ground arith

instruction_violations-nil :
    (s : Store) (rest : List Violation)
    → instruction_violations s rest ≡ []
    → HasInstructions s × (rest ≡ [])
unfolding instruction_violations
instruction_violations-nil s rest h = ground arith

HasInstructions-violations :
    (s : Store) (rest : List Violation) → HasInstructions s → instruction_violations s rest ≡ rest
unfolding instruction_violations
HasInstructions-violations s rest h = ground arith

-- A government project has no publication violation exactly when it has its owner, maintainer,
-- contact, mode and response window, its confirmed suitability and instructions, and its license,
-- repository and documents; a personal project always has one.
pub check_publish_readiness_iff :
    (env : Env) (s : Store)
    → (check_publish_readiness env s ≡ [])
      ↔ (HasOwnership s × HasInstructions s × HasRepository env s)
unfolding check_publish_readiness
check_publish_readiness_iff env s = (
  λ h. ground (
    arith,
    instruction_violations-nil s (repository_readiness env s),
    repository_readiness-nil env s,
  ),
  λ (o, i, r). ground (
    arith,
    HasInstructions-violations s (repository_readiness env s) i,
    HasRepository-readiness env s r,
  ),
)

-- Only a government project is ever ready.
pub ready-is_government :
    (env : Env) (s : Store)
    → check_publish_readiness env s ≡ []
    → s.project.project_type ≡ government
ready-is_government env s h = ((check_publish_readiness_iff env s).0 h).0.is_government
