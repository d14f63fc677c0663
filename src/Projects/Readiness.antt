-- ===== src/Projects/Readiness.antt =====
-- apps/projects/services.py: what a project must have before it is published, and the suitability
-- checklist that this rests on.
pub mod Laws
use mathlib.Core.Option
use mathlib.Core.List.{reverse}
use dev_nepal.Prelude.{
  ℕ, ◌+◌, Bool, true, false, not, ◌&&◌, ◌||◌, Option, none, some, List, [], ◌∷◌, ◌++◌, Text, text,
  text_eq, strip, is_blank, is_nil, any, all, filter, find?, leb, ◌==◌, is_some, is_none,
  if◌then◌else◌,
}
use dev_nepal.Accounts.{Actor}
use dev_nepal.Projects.Enums.{
  ProjectType, ProjectStatus, ScanStatus, TaskStatus, is_government, status_eq,
}
use dev_nepal.Projects.Data.{
  Project, Content, License, ProjectSuitability, RepositoryConnection, ProjectAttachment,
}
use dev_nepal.Projects.Monad.{
  Store, Env, ParsedUrl, Violation, FieldName, Action, Operation, AuditAction, nothing, areas,
  confirmed_by, success, lifecycle, archived_read_only, suitability_incomplete, areas_unconfirmed,
  ok, err, pure, raise, gets, asks, raise_if, modify, ◌>>=◌, ◌>>◌, pk_of, record_audit,
}
use dev_nepal.Projects.Access.{require_super_admin, require_publisher}
use dev_nepal.Projects.Review.{suitability_areas}

abbrev lower_char : ℕ → ℕ
lower_char c = if leb 65 c && leb c 90 then c + 32 else c

-- `str.lower`, on ASCII. No other letter lowers to one of `github.com` or `www.github.com`.
unfoldable pub lower : Text → Text
lower [] = []
lower (c ∷ t) = lower_char c ∷ lower t

-- `[segment for segment in path.split("/") if segment]`; `word` is the segment so far, reversed.
unfoldable pub segments_from : (word : Text) → Text → List Text
segments_from [] [] = []
segments_from (c ∷ word) [] = reverse (c ∷ word) ∷ []
segments_from word (c ∷ t) =
    let next = segments_from [] t in
    let more = segments_from (c ∷ word) t in
    if c == b'/' then (if is_nil word then next else reverse word ∷ next) else more

abbrev strip_prefix : Text → Text → Option Text
strip_prefix [] t = some t
strip_prefix (_ ∷ _) [] = none
strip_prefix (c ∷ p) (d ∷ t) = if c == d then strip_prefix p t else none

-- `name.removesuffix(".git")`
unfoldable pub remove_git_suffix : Text → Text
remove_git_suffix name = elim (strip_prefix (text "tig.") (reverse name)) [
  | none ↦ name
  | some rest ↦ reverse rest
]

abbrev slug_of : List Text → Option Text
slug_of [] = none
slug_of (_ ∷ []) = none
slug_of (owner ∷ repo ∷ _) = some (owner ++ (b'/' ∷ remove_git_suffix repo))

unfoldable pub parse_github_repo_slug : Env → Text → Option Text
unfolding lower segments_from remove_git_suffix strip
parse_github_repo_slug env url =
    let parsed = env.urlparse (strip url) in
    if not (text_eq parsed.scheme (text "http") || text_eq parsed.scheme (text "https"))
    then none
    else if not (
        text_eq (lower parsed.netloc) (text "github.com")
        || text_eq (lower parsed.netloc) (text "www.github.com"))
    then none
    else slug_of (segments_from [] parsed.path)

-- `if test: violations.append(v)`, before the violations that follow.
abbrev pub violation_if : Bool → Violation → List Violation → List Violation
violation_if test v rest = if test then v ∷ rest else rest

abbrev pub ticked : Text → List (Text × Bool) → Bool
ticked area [] = false
ticked area ((key, checked) ∷ rest) = if text_eq area key then checked else ticked area rest

abbrev is_confirmed : ProjectSuitability → Bool
is_confirmed suitability = is_some suitability.confirmed_at

unfoldable pub suitability_violations : Option ProjectSuitability → List Violation → List Violation
suitability_violations none rest = Violation.suitability_not_confirmed ∷ rest
suitability_violations (some suitability) rest =
    if not (is_confirmed suitability)
    then Violation.suitability_not_confirmed ∷ rest
    else violation_if (not (ticked (text "repository_readiness") suitability.checklist))
        Violation.repository_readiness_unconfirmed rest

abbrev license_violations : Option License → List Violation → List Violation
license_violations none rest = Violation.license_missing ∷ rest
license_violations (some license) rest =
    violation_if (not license.is_approved) Violation.license_not_approved rest

abbrev connects : Env → Text → RepositoryConnection → Bool
connects env name connection =
    env.iexact connection.full_name name
    && not connection.is_deactivated
    && not connection.is_stopped

-- `parse_github_repo_slug` returns no empty text, so `bool(repository_name and …)` is this.
unfoldable pub has_active_connection : Env → Text → List RepositoryConnection → Bool
unfolding parse_github_repo_slug
has_active_connection env url connections = elim (parse_github_repo_slug env url) [
  | none ↦ false
  | some name ↦ any (connects env name) connections
]

abbrev repository_violations :
    Env → Text → List RepositoryConnection → List Violation → List Violation
repository_violations env url connections rest =
    if is_nil url
    then Violation.repository_url_missing ∷ rest
    else violation_if (not (has_active_connection env url connections))
        Violation.repository_connection_missing rest

abbrev pub task_is_live : TaskStatus → Bool
task_is_live TaskStatus.cancelled = false
task_is_live _ = true

abbrev pub scan_is_bad : ProjectAttachment → Bool
scan_is_bad attachment = elim (attachment.scan) [
  | ScanStatus.quarantined ↦ true
  | ScanStatus.failed ↦ true
  | _ ↦ false
]

-- From the suitability checklist down to the tasks.
unfoldable pub instruction_violations : Store → List Violation → List Violation
unfolding suitability_violations
instruction_violations s rest = suitability_violations s.suitability (
    violation_if (is_nil s.project.content.prerequisites) Violation.instructions_missing (
      violation_if (is_none s.project.content.difficulty) Violation.difficulty_missing (
        violation_if (is_none s.project.content.estimated_effort) Violation.effort_missing
          (violation_if (not (any task_is_live s.tasks)) Violation.task_missing rest))))

-- From the license down to the attachments.
unfoldable pub repository_readiness : Env → Store → List Violation
unfolding has_active_connection
repository_readiness env s = license_violations s.project.content.license (
    repository_violations env s.project.content.repository_url s.connections (
      violation_if (is_nil s.project.content.documentation_url) Violation.readme_missing (
        violation_if (is_nil s.project.content.code_of_conduct_url)
          Violation.code_of_conduct_missing
          (violation_if
            (is_nil s.project.content.security_contact
              && is_nil s.project.content.vulnerability_disclosure_url)
            Violation.security_path_missing
            (violation_if (is_nil s.project.content.issue_tracker_url) Violation.issue_entry_missing
              (violation_if (is_nil s.project.content.default_branch)
                Violation.branch_controls_missing
                (violation_if (any scan_is_bad s.attachments) Violation.attachment_quarantined
                  [])))))))

unfoldable pub check_publish_readiness : Env → Store → List Violation
unfolding instruction_violations repository_readiness
check_publish_readiness env s =
    if not (is_government s.project.project_type)
    then Violation.government_project_required ∷ []
    else violation_if (is_none s.project.ministry) Violation.ministry_owner_missing (
        violation_if (is_nil s.maintainers) Violation.maintainer_missing (
          violation_if (is_nil s.project.content.communication_channel)
            Violation.contact_channel_missing
            (violation_if (is_none s.project.content.contribution_mode)
              Violation.contribution_mode_missing
              (violation_if (is_none s.project.content.response_sla)
                Violation.response_expectation_missing
                (instruction_violations s (repository_readiness env s))))))

abbrev not_approved : Option License → Bool
not_approved none = true
not_approved (some license) = not license.is_approved

-- The filter with `is_public=True`; a URL that names no repository looks for the empty name.
abbrev connects_publicly : Env → Option Text → RepositoryConnection → Bool
connects_publicly env none connection = connects env [] connection && connection.is_public
connects_publicly env (some name) connection = connects env name connection && connection.is_public

abbrev blank_violation : Text → FieldName → List Violation → List Violation
blank_violation value field = violation_if (is_blank value) (Violation.field_missing field)

unfoldable pub publisher_publish_readiness : Env → Store → List Violation
unfolding parse_github_repo_slug is_blank
publisher_publish_readiness env s = blank_violation title_en FieldName.title_en (
    blank_violation title_ne FieldName.title_ne (
      blank_violation summary_en FieldName.summary_en (
        blank_violation summary_ne FieldName.summary_ne (
          violation_if (not_approved license) Violation.approved_license_missing (
            violation_if
              (not (
                any (connects_publicly env (parse_github_repo_slug env repository_url))
                  s.connections))
              Violation.public_repository_connection_missing
              (blank_violation default_branch FieldName.default_branch (
                blank_violation issue_tracker_url FieldName.issue_tracker_url
                  (blank_violation documentation_url FieldName.documentation_url []))))))))
  where
    open s.project.content use {
      title_en, title_ne, summary_en, summary_ne, license, repository_url, default_branch,
      issue_tracker_url, documentation_url,
    }
