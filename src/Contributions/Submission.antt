-- ===== src/Contributions/Submission.antt =====
-- apps/contributions/services.py: evidence that a member submits, and the check of its file.
pub mod Laws
mod Tests
use dev_nepal.Prelude.{
  ℕ, zero, suc, ◌*◌, Bool, true, false, not, ◌&&◌, ◌||◌, Option, none, some, List, [], ◌∷◌, ◌++◌,
  any, length, take, Text, text, text_eq, is_nil, is_blank, ltb, ◌==◌, if◌then◌else◌,
}
use dev_nepal.Accounts.{User, Actor}
use dev_nepal.Service.{Reply, returns, raises}
use dev_nepal.Projects.Enums.{ProjectStatus, ContributionMode, ParticipationKind, ApplicationStatus}
use dev_nepal.Projects.Data.{Application}
use dev_nepal.Contributions.Data.{
  ContributionSource, VerificationStatus, EvidenceScanStatus, ContributionRecord, is_user,
}

pub data SubmissionError : Type 0 where
  invalid_evidence submission_not_eligible invalid_evidence_file suspicious_file_operation :
      SubmissionError

pub data ContentType : Type 0 where
  application_pdf image_png image_jpeg : ContentType

-- An uploaded file: its name and its bytes, if they can be read.
pub record Upload : Type 0 where
  pub name : Text
  pub bytes : Option (List ℕ)

pub record ValidatedEvidenceFile : Type 0 where
  pub content_type : ContentType
  pub size_bytes : ℕ

pub record Term : Type 0 where
  pub is_contribution_type : Bool
  pub is_active : Bool

pub record Evidence : Type 0 where
  pub title : Text
  pub contribution_type : Option Term
  pub evidence_file : Option Upload

-- The rows of the project that are read.
pub record Site : Type 0 where
  pub status : ProjectStatus
  pub contribution_mode : ContributionMode
  pub applications : List Application

-- The limit that is configured, if it is a number; Django's `get_valid_filename`, which may raise;
-- and the suffix of a path in lower case.
pub record Env : Type 0 where
  pub limit : Option ℕ
  pub get_valid_filename : Text → Option Text
  pub suffix : Text → Text

abbrev last_part : (part : Text) → Text → Text
last_part part [] = part
last_part part (c ∷ t) =
    let rest = last_part (part ++ (c ∷ [])) t in
    let fresh = last_part [] t in if c == 47 || c == 92 then fresh else rest

abbrev single_dots : Text → Text
single_dots [] = []
single_dots (c ∷ []) = c ∷ []
single_dots (c ∷ d ∷ t) =
    let pair = single_dots t in
    let rest = single_dots (d ∷ t) in if c == 46 && d == 46 then 46 ∷ pair else c ∷ rest

abbrev strip_dots : Text → Text
strip_dots [] = []
strip_dots (c ∷ t) = let rest = strip_dots t in if c == 46 then rest else c ∷ t

abbrev or_evidence : Text → Text
or_evidence name = if is_nil name then text "evidence" else name

abbrev tidy : Option Text → Option Text
tidy none = none
tidy (some name) = some (or_evidence (strip_dots (single_dots name)))

-- A backslash separates like a slash.
unfoldable pub safe_evidence_filename : Env → Text → Option Text
safe_evidence_filename env name = tidy (env.get_valid_filename (last_part [] name))

abbrev pub starts_with : (signature sample : List ℕ) → Bool
starts_with [] _ = true
starts_with (_ ∷ _) [] = false
starts_with (b ∷ bs) (c ∷ cs) = b == c && starts_with bs cs

-- EXECUTABLE_SIGNATURES: MZ, ELF, and a script.
unfoldable pub is_executable : List ℕ → Bool
is_executable sample =
    starts_with (77 ∷ 90 ∷ []) sample
    || starts_with (127 ∷ 69 ∷ 76 ∷ 70 ∷ []) sample
    || starts_with (35 ∷ 33 ∷ []) sample

-- EVIDENCE_CONTENT_TYPES: each suffix has one signature.
unfoldable pub expected_content : Text → Option (ContentType × List ℕ)
expected_content suffix =
    if text_eq suffix (text ".pdf")
    then some (ContentType.application_pdf, 37 ∷ 80 ∷ 68 ∷ 70 ∷ 45 ∷ [])
    else if text_eq suffix (text ".png")
    then some (ContentType.image_png, 137 ∷ 80 ∷ 78 ∷ 71 ∷ 13 ∷ 10 ∷ 26 ∷ 10 ∷ [])
    else if text_eq suffix (text ".jpg") || text_eq suffix (text ".jpeg")
    then some (ContentType.image_jpeg, 255 ∷ 216 ∷ 255 ∷ [])
    else none

abbrev bad_file : {A : Type 0} → Reply SubmissionError A
bad_file = raises SubmissionError.invalid_evidence_file

-- `max_evidence_file_bytes`, of a limit that is configured.
abbrev pub exceeds : Option ℕ → ℕ → Bool
exceeds none size = true
exceeds (some zero) size = true
exceeds (some (suc n)) size = ltb (suc n) size

-- The checks on the bytes of a file with a known suffix.
abbrev inspect :
    Env → ContentType × List ℕ → Option (List ℕ) → Reply SubmissionError ValidatedEvidenceFile
inspect env expected none = bad_file
inspect env (content_type, signature) (some bytes) =
    if length bytes == 0
    then bad_file
    else if exceeds env.limit (length bytes)
    then bad_file
    else if is_executable (take 32 bytes)
    then bad_file
    else if not (starts_with signature (take 32 bytes))
    then bad_file
    else returns (record { content_type = content_type; size_bytes = length bytes })

abbrev inspect_as :
    Env
    → Option (ContentType × List ℕ)
    → Option (List ℕ)
    → Reply SubmissionError ValidatedEvidenceFile
inspect_as env none bytes = bad_file
inspect_as env (some expected) bytes = inspect env expected bytes

abbrev validate_named :
    Env → Option Text → Option (List ℕ) → Reply SubmissionError ValidatedEvidenceFile
validate_named env none bytes = raises SubmissionError.suspicious_file_operation
validate_named env (some name) bytes = inspect_as env (expected_content (env.suffix name)) bytes

unfoldable pub validate_evidence_file : Env → Upload → Reply SubmissionError ValidatedEvidenceFile
validate_evidence_file env file =
    if is_nil file.name
    then bad_file
    else validate_named env (safe_evidence_filename env file.name) file.bytes

abbrev is_open : ProjectStatus → Bool
is_open ProjectStatus.open_for_contribution = true
is_open _ = false

abbrev pub takes_direct_work : ContributionMode → Bool
takes_direct_work ContributionMode.open_direct = true
takes_direct_work ContributionMode.hybrid = true
takes_direct_work ContributionMode.application = false

abbrev is_application : ParticipationKind → Bool
is_application ParticipationKind.application = true
is_application _ = false

abbrev is_accepted : ApplicationStatus → Bool
is_accepted ApplicationStatus.accepted = true
is_accepted _ = false

abbrev pub is_accepted_application : ℕ → Application → Bool
is_accepted_application user row =
    is_user user row.applicant.pk && is_application row.kind && is_accepted row.status

unfoldable pub can_submit_evidence : Actor → Site → Bool
can_submit_evidence none site = false
can_submit_evidence (some user) site =
    user.is_active
    && is_open site.status
    && (takes_direct_work site.contribution_mode
        || any (is_accepted_application user.pk) site.applications)

-- The row that `submit_evidence` creates.
abbrev pub candidate_row : User → Bool → ℕ → EvidenceScanStatus → ContributionRecord
candidate_row member evidence_file size scan = record {
  contributor = some member.pk;
  source = ContributionSource.member_submission;
  evidence_file = evidence_file;
  evidence_size_bytes = size;
  evidence_scan = scan;
  status = VerificationStatus.candidate;
  verified_by = none;
  verified_at = none;
  verification_note = [];
  secondary_approval_by = none;
  hold_active = false;
  held_from_status = none;
  hold_reason = [];
  held_by = none;
  held_at = none;
  hold_released_by = none;
  hold_released_at = none;
  hold_release_reason = [];
  hold_response = [];
  hold_responded_at = none;
  revocation_reason = [];
  revoked_by = none;
  revoked_at = none;
}

abbrev with_file :
    User → Reply SubmissionError ValidatedEvidenceFile → Reply SubmissionError ContributionRecord
with_file member (returns file) =
    returns (candidate_row member true file.size_bytes EvidenceScanStatus.pending)
with_file member (raises e) = raises e

abbrev file_evidence : Env → User → Option Upload → Reply SubmissionError ContributionRecord
file_evidence env member none =
    returns (candidate_row member false 0 EvidenceScanStatus.not_applicable)
file_evidence env member (some file) = with_file member (validate_evidence_file env file)

abbrev is_approved_term : Option Term → Bool
is_approved_term none = false
is_approved_term (some term) = term.is_contribution_type && term.is_active

unfoldable pub submit_evidence :
    Env → Actor → Site → Evidence → Reply SubmissionError ContributionRecord
submit_evidence env none site evidence = raises SubmissionError.invalid_evidence
submit_evidence env (some member) site evidence =
    if not member.is_active
    then raises SubmissionError.invalid_evidence
    else if is_blank evidence.title
    then raises SubmissionError.invalid_evidence
    else if not (is_approved_term evidence.contribution_type)
    then raises SubmissionError.invalid_evidence
    else if not (can_submit_evidence (some member) site)
    then raises SubmissionError.submission_not_eligible
    else file_evidence env member evidence.evidence_file
