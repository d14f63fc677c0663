-- ===== src/Projects/Sample.antt =====
-- Concrete rows for the tests: a ministry's project that is ready to publish, and a member's listing.
use dev_nepal.Prelude.{true, false, none, some, [], ◌∷◌, text, text_eq}
use dev_nepal.Accounts.{User, Ministry, OrgStatus, PublisherStatus, ContactVerificationStatus}
use dev_nepal.Projects.Enums
use dev_nepal.Projects.Enums.{ProjectStatus}
use dev_nepal.Projects.Data.{
  Content, Closure, entry, Project, Snapshot, ProjectVersion, ProjectReviewAssignment,
}
use dev_nepal.Projects.Monad.{Store, Env, ParsedUrl}

abbrev pub admin : User
admin = record { pk = 1; is_active = true; is_superuser = true; otp_verified = true }

abbrev pub second_admin : User
second_admin = record { pk = 4; is_active = true; is_superuser = true; otp_verified = true }

abbrev pub publisher : User
publisher = record { pk = 2; is_active = true; is_superuser = false; otp_verified = true }

abbrev pub member : User
member = record { pk = 3; is_active = true; is_superuser = false; otp_verified = false }

abbrev pub ministry : Ministry
ministry = record { pk = 10; status = OrgStatus.active }

abbrev pub repository : ParsedUrl
repository = record {
  scheme = text "https";
  netloc = text "GitHub.com";
  path = text "/gov/portal.git";
}

abbrev pub env : Env
env = record {
  now = 100;
  today = 7;
  mfa_bypass = false;
  default_response_sla_days = 5;
  nfc = λ t. t;
  urlparse = λ t. repository;
  iexact = text_eq;
}

abbrev pub content : Content
content = record {
  title_en = text "Portal";
  title_ne = text "Portal";
  summary_en = text "A portal";
  summary_ne = text "A portal";
  problem_statement = [];
  description_md = [];
  difficulty = some Enums.DifficultyLevel.beginner;
  estimated_effort = some Enums.EffortBand.small;
  contribution_mode = some Enums.ContributionMode.hybrid;
  prerequisites = text "Python";
  communication_channel = text "https://chat";
  response_sla = some Enums.ResponseSla.within_3_days;
  code_of_conduct_url = text "https://coc";
  repository_url = text "https://github.com/gov/portal";
  default_branch = text "main";
  issue_tracker_url = text "https://issues";
  documentation_url = text "https://readme";
  license = some (record { pk = 1; is_approved = true });
  signoff_model = none;
  data_classification = Enums.DataClassification.public;
  security_contact = text "a@b";
  vulnerability_disclosure_url = [];
}

abbrev pub evidence : Closure
evidence = record {
  outcome_summary = text "Done";
  deliverables = entry (some (text "Site")) (some []) ∷ [];
  impact_summary = text "Good";
  lessons_learned = text "Some";
}

abbrev pub project : ProjectStatus → Project
project status = record {
  pk = 5;
  project_type = Enums.ProjectType.government;
  owner = publisher;
  ministry = some ministry;
  slug = text "portal";
  content = content;
  closure = evidence;
  status = status;
  status_changed_at = none;
  scheduled_publication_at = some 90;
  published_at = none;
  current_version = none;
  last_maintainer_activity_at = none;
  deadline = none;
  archive_reason = [];
  archived_at = none;
}

abbrev pub snapshot : Snapshot
snapshot = record {
  project_type = Enums.ProjectType.government;
  owner = 2;
  ministry = some 10;
  slug = text "portal";
  content = content;
  closure = evidence;
  status = ProjectStatus.draft;
  scheduled_publication_at = none;
  published_at = none;
  current_version = none;
  last_maintainer_activity_at = none;
  deadline = none;
  archive_reason = [];
  archived_at = none;
}

abbrev pub version : ProjectVersion
version = record {
  version_number = 1;
  snapshot = snapshot;
  submitted_by = some 2;
  submitted_at = 50;
  published_at = none;
  published_by = none;
}

abbrev pub assignment : ProjectReviewAssignment
assignment = record {
  version = 1;
  reviewer = 1;
  assigned_by = some 1;
  due_at = 120;
  reviewer_note = [];
  checklist = [];
}

-- A project with one submission, in the given status.
abbrev pub store : ProjectStatus → Store
store status = record {
  project = project status;
  versions = version ∷ [];
  reviews = [];
  assignment = some assignment;
  maintainers = record { user = 2; role = Enums.MaintainerRole.lead; can_review_merge = true } ∷ [];
  suitability = some (record {
    checklist = (text "repository_readiness", true) ∷ [];
    notes = [];
    completed_by = some 2;
    completed_at = some 60;
    confirmed_by = some 1;
    confirmed_at = some 70;
  });
  tasks = Enums.TaskStatus.open_ ∷ [];
  connections =
      record {
        full_name = text "gov/portal";
        is_public = true;
        is_deactivated = false;
        is_stopped = false;
      }
      ∷ [];
  attachments = [];
  bookmarks = [];
  publishers =
      record {
        user = 2;
        ministry = 10;
        status = PublisherStatus.active;
        contact_verification_status = ContactVerificationStatus.verified;
      }
      ∷ [];
  accounts = admin ∷ publisher ∷ member ∷ [];
  acceptances = [];
  audit = [];
  outbox = [];
}

-- A member's listing in draft.
abbrev pub listing : Store
listing = record (store ProjectStatus.draft) {
  project = record (project ProjectStatus.draft) {
    project_type = Enums.ProjectType.personal;
    owner = member;
    ministry = none;
  };
}
