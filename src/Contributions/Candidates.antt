-- ===== src/Contributions/Candidates.antt =====
-- apps/contributions/services.py: candidates from the events of GitHub.
use dev_nepal.Prelude.{
  ℕ, any, ◌==◌, Bool, false, not, ◌&&◌, ◌||◌, Option, none, some, List, [], ◌∷◌, ◌++◌, find?, Text,
  text, text_eq, is_nil, is_none, if◌then◌else◌,
}
use dev_nepal.Service.{Reply, returns, raises}
use dev_nepal.Contributions.Data.{
  ContributionSource, VerificationStatus, EvidenceScanStatus, ContributionRecord, ContributionError,
}

-- An event that apps/github_sync has parsed; whether its kind is one that is verified.
pub record ParsedEvent : Type 0 where
  pub event_id : Text
  pub is_bot : Bool
  pub is_verified_kind : Bool
  pub actor_login : Text

-- A row of GithubConnection.
pub record Connection : Type 0 where
  pub login : Text
  pub user : ℕ
  pub revoked_at : Option ℕ

pub record Candidate : Type 0 where
  pub project : ℕ
  pub provider_event_ref : Text
  pub pending_mapping : Bool
  pub row : ContributionRecord

abbrev is_connection : Text → Connection → Bool
is_connection login connection = text_eq connection.login login && is_none connection.revoked_at

abbrev user_of : Option Connection → Option ℕ
user_of none = none
user_of (some connection) = some connection.user

-- `_resolve_github_member`
unfoldable pub resolve_github_member : List Connection → Text → Option ℕ
resolve_github_member connections login =
    if is_nil login then none else user_of (find? (is_connection login) connections)

abbrev provider_ref : ParsedEvent → Text
provider_ref event = text "github:" ++ event.event_id

abbrev has_ref : Text → Candidate → Bool
has_ref ref candidate = text_eq candidate.provider_event_ref ref

abbrev has_ref_in : ℕ → Text → Candidate → Bool
has_ref_in project ref candidate = candidate.project == project && has_ref ref candidate

abbrev new_candidate : ℕ → ParsedEvent → Option ℕ → Candidate
new_candidate project event contributor = record {
  project = project;
  provider_event_ref = provider_ref event;
  pending_mapping = is_none contributor;
  row = record {
    contributor = contributor;
    source = ContributionSource.provider_event;
    evidence_file = false;
    evidence_size_bytes = 0;
    evidence_scan = EvidenceScanStatus.not_applicable;
    status = VerificationStatus.candidate;
    verified_by = none;
    verified_at = none;
    verification_note = [];
    secondary_approval_by = none;
    hold_active = false;
    held_from_status = none;
    hold_reason = [];
    held_by = none;
    held_at = none;
    hold_released_by = none;
    hold_released_at = none;
    hold_release_reason = [];
    hold_response = [];
    hold_responded_at = none;
    revocation_reason = [];
    revoked_by = none;
    revoked_at = none;
  };
}

abbrev Answer : Type 0
Answer = Reply ContributionError (Option Candidate) × List Candidate

-- `uniq_contrib_provider_event_ref` holds over all projects.
abbrev create_candidate : (has_type : Bool) → Candidate → List Candidate → Answer
create_candidate has_type candidate rows =
    if not has_type
    then (raises ContributionError.missing_contribution_type, rows)
    else if any (has_ref candidate.provider_event_ref) rows
    then (raises ContributionError.integrity_error, rows)
    else (returns (some candidate), candidate ∷ rows)

abbrev file_candidate :
    ℕ
    → List Connection
    → (has_type : Bool) → ParsedEvent
    → List Candidate
    → Option Candidate
    → Answer
file_candidate project connections has_type event rows (some existing) =
    (returns (some existing), rows)
file_candidate project connections has_type event rows none =
    create_candidate has_type
      (new_candidate project event (resolve_github_member connections event.actor_login)) rows

-- `record_candidate_from_github`, over the rows of all projects that come from GitHub. `has_type`
-- tells that a type is given or that the seeded one is there.
unfoldable pub record_candidate_from_github :
    (project : ℕ)
    → List Connection
    → (has_type : Bool) → Option ParsedEvent
    → List Candidate
    → Answer
unfolding resolve_github_member
record_candidate_from_github project connections has_type none rows = (returns none, rows)
record_candidate_from_github project connections has_type (some event) rows =
    if event.is_bot || not event.is_verified_kind
    then (returns none, rows)
    else file_candidate project connections has_type event rows
        (find? (has_ref_in project (provider_ref event)) rows)
