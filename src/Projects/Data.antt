-- ===== src/Projects/Data.antt =====
-- apps/projects/models.py: the rows of one project, as far as the services read or write them.
use dev_nepal.Prelude.{ℕ, Bool, Option, List, Text}
use dev_nepal.Accounts.{User, Ministry}
use dev_nepal.Projects.Enums.{
  ProjectType, ProjectStatus, DifficultyLevel, EffortBand, ContributionMode, ResponseSla,
  SignoffModel, MaintainerRole, ScanStatus, ReviewDecision, DataClassification, ParticipationKind,
  ApplicationStatus, ApplicationEventType,
}

pub record License : Type 0 where
  pub pk : ℕ
  pub is_approved : Bool

-- One entry of the JSON list `deliverables`: a dict with its keys, or another value.
pub data Deliverable : Type 0 where
  entry : (label url : Option Text) → Deliverable
  other : Deliverable

-- The descriptive columns of a project. A blank choice is `none`.
pub record Content : Type 0 where
  pub title_en : Text
  pub title_ne : Text
  pub summary_en : Text
  pub summary_ne : Text
  pub problem_statement : Text
  pub description_md : Text
  pub difficulty : Option DifficultyLevel
  pub estimated_effort : Option EffortBand
  pub contribution_mode : Option ContributionMode
  pub prerequisites : Text
  pub communication_channel : Text
  pub response_sla : Option ResponseSla
  pub code_of_conduct_url : Text
  pub repository_url : Text
  pub default_branch : Text
  pub issue_tracker_url : Text
  pub documentation_url : Text
  pub license : Option License
  pub signoff_model : Option SignoffModel
  pub data_classification : DataClassification
  pub security_contact : Text
  pub vulnerability_disclosure_url : Text

-- The structured closure evidence.
pub record Closure : Type 0 where
  pub outcome_summary : Text
  pub deliverables : List Deliverable
  pub impact_summary : Text
  pub lessons_learned : Text

pub record Project : Type 0 where
  pub pk : ℕ
  pub project_type : ProjectType
  pub owner : User
  pub ministry : Option Ministry
  pub slug : Text
  pub content : Content
  pub closure : Closure
  pub status : ProjectStatus
  pub status_changed_at : Option ℕ
  pub scheduled_publication_at : Option ℕ
  pub published_at : Option ℕ
  -- The number of the version that `current_version` names.
  pub current_version : Option ℕ
  pub last_maintainer_activity_at : Option ℕ
  pub deadline : Option ℕ
  pub archive_reason : Text
  pub archived_at : Option ℕ

-- The state of a project that a submission freezes, less `status_changed_at`.
pub record Snapshot : Type 0 where
  pub project_type : ProjectType
  pub owner : ℕ
  pub ministry : Option ℕ
  pub slug : Text
  pub content : Content
  pub closure : Closure
  pub status : ProjectStatus
  pub scheduled_publication_at : Option ℕ
  pub published_at : Option ℕ
  pub current_version : Option ℕ
  pub last_maintainer_activity_at : Option ℕ
  pub deadline : Option ℕ
  pub archive_reason : Text
  pub archived_at : Option ℕ

pub record ProjectVersion : Type 0 where
  pub version_number : ℕ
  pub snapshot : Snapshot
  pub submitted_by : Option ℕ
  pub submitted_at : ℕ
  pub published_at : Option ℕ
  pub published_by : Option ℕ

pub record ProjectReview : Type 0 where
  pub pk : ℕ
  pub version : ℕ
  pub reviewer : Option ℕ
  pub decision : ReviewDecision
  pub comment : Text
  pub from_status : ProjectStatus
  pub to_status : ProjectStatus

-- A checklist maps areas to whether they are ticked; `none` is a value that is no Boolean.
pub record ProjectReviewAssignment : Type 0 where
  pub version : ℕ
  pub reviewer : ℕ
  pub assigned_by : Option ℕ
  pub due_at : ℕ
  pub reviewer_note : Text
  pub checklist : List (Text × Option Bool)

pub record ProjectMaintainer : Type 0 where
  pub user : ℕ
  pub role : MaintainerRole
  pub can_review_merge : Bool

pub record ProjectSuitability : Type 0 where
  pub checklist : List (Text × Bool)
  pub notes : Text
  pub completed_by : Option ℕ
  pub completed_at : Option ℕ
  pub confirmed_by : Option ℕ
  pub confirmed_at : Option ℕ

-- A row of apps/github_sync's RepositoryConnection, as readiness reads it.
pub record RepositoryConnection : Type 0 where
  pub full_name : Text
  pub is_public : Bool
  pub is_deactivated : Bool
  pub is_stopped : Bool

pub record ProjectAttachment : Type 0 where
  pub scan : ScanStatus

pub record ProjectBookmark : Type 0 where
  pub user : User
  pub notify_on_change : Bool

pub record CommunityTermsAcceptance : Type 0 where
  pub user : ℕ
  pub version : Text

-- The rows of a project are kept in the order of `Meta.ordering`, by `sort_order` and then `pk`.
pub record ProjectScreeningQuestion : Type 0 where
  pub pk : ℕ
  pub question : Text
  pub is_required : Bool
  pub is_active : Bool

pub record ScreeningAnswer : Type 0 where
  pub question_id : ℕ
  pub question : Text
  pub answer : Text

-- A blank status is `none`.
pub record ApplicationEvent : Type 0 where
  pub pk : ℕ
  pub actor : Option ℕ
  pub event : ApplicationEventType
  pub comment : Text
  pub from_status : Option ApplicationStatus
  pub to_status : Option ApplicationStatus

-- An application with its timeline, the newest event first.
pub record Application : Type 0 where
  pub pk : ℕ
  pub applicant : User
  pub kind : ParticipationKind
  pub status : ApplicationStatus
  pub motivation : Text
  pub screening_answers : List ScreeningAnswer
  pub decided_by : Option ℕ
  pub decided_at : Option ℕ
  pub decision_note : Text
  pub events : List ApplicationEvent
