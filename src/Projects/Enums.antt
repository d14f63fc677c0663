-- ===== src/Projects/Enums.antt =====
-- apps/projects/enums.py: the choices of the project models, with Boolean equality for statuses.
use dev_nepal.Prelude.{ℕ, Bool, true, false, ◌≡◌, List, any, ◌==◌, arith}

pub data ProjectType : Type 0 where
  government personal : ProjectType

pub data ProjectStatus : Type 0 where
  draft in_review changes_requested approved open_for_contribution paused completed cancelled
        archived :
      ProjectStatus

pub data DifficultyLevel : Type 0 where
  beginner intermediate advanced : DifficultyLevel

pub data EffortBand : Type 0 where
  small medium large : EffortBand

pub data ContributionMode : Type 0 where
  open_direct application hybrid : ContributionMode

pub data ResponseSla : Type 0 where
  within_24_hours within_3_days within_1_week : ResponseSla

pub data SignoffModel : Type 0 where
  dco cla none_required : SignoffModel

pub data MaintainerRole : Type 0 where
  lead maintainer reviewer : MaintainerRole

pub data ScanStatus : Type 0 where
  pending clean quarantined failed : ScanStatus

pub data ReviewDecision : Type 0 where
  approved changes_requested rejected published revoked restored : ReviewDecision

pub data ParticipationKind : Type 0 where
  interest application assignment : ParticipationKind

pub data ApplicationStatus : Type 0 where
  submitted info_requested waitlisted accepted declined withdrawn : ApplicationStatus

pub data ApplicationEventType : Type 0 where
  submitted status_changed info_requested info_provided commented assigned withdrawn :
      ApplicationEventType

pub data TaskStatus : Type 0 where
  open_ assigned in_progress done cancelled : TaskStatus

pub data DataClassification : Type 0 where
  public internal confidential : DataClassification

abbrev pub is_government : ProjectType → Bool
is_government ProjectType.government = true
is_government ProjectType.personal = false

abbrev pub is_personal : ProjectType → Bool
is_personal ProjectType.personal = true
is_personal ProjectType.government = false

-- Each status has a number, by which two are compared.
abbrev pub status_index : ProjectStatus → ℕ
status_index ProjectStatus.draft = 0
status_index ProjectStatus.in_review = 1
status_index ProjectStatus.changes_requested = 2
status_index ProjectStatus.approved = 3
status_index ProjectStatus.open_for_contribution = 4
status_index ProjectStatus.paused = 5
status_index ProjectStatus.completed = 6
status_index ProjectStatus.cancelled = 7
status_index ProjectStatus.archived = 8

abbrev pub status_eq : ProjectStatus → ProjectStatus → Bool
status_eq a b = status_index a == status_index b

pub status_eq-eq : (a b : ProjectStatus) → status_eq a b ≡ true → a ≡ b
status_eq-eq a b h = ground arith

-- `status in set`
abbrev pub status_in : ProjectStatus → List ProjectStatus → Bool
status_in s set = any (status_eq s) set

abbrev application_status_index : ApplicationStatus → ℕ
application_status_index ApplicationStatus.submitted = 0
application_status_index ApplicationStatus.info_requested = 1
application_status_index ApplicationStatus.waitlisted = 2
application_status_index ApplicationStatus.accepted = 3
application_status_index ApplicationStatus.declined = 4
application_status_index ApplicationStatus.withdrawn = 5

abbrev pub application_status_eq : ApplicationStatus → ApplicationStatus → Bool
application_status_eq a b = application_status_index a == application_status_index b

abbrev pub application_status_in : ApplicationStatus → List ApplicationStatus → Bool
application_status_in a statuses = any (application_status_eq a) statuses

abbrev kind_index : ParticipationKind → ℕ
kind_index ParticipationKind.interest = 0
kind_index ParticipationKind.application = 1
kind_index ParticipationKind.assignment = 2

abbrev pub kind_eq : ParticipationKind → ParticipationKind → Bool
kind_eq a b = kind_index a == kind_index b
