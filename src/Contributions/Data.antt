-- ===== src/Contributions/Data.antt =====
-- apps/contributions/models.py and enums.py: one contribution record with its audit trail, and the
-- helpers that its services share.
use dev_nepal.Prelude.{
  ℕ, Bool, true, false, Option, List, ◌∷◌, length, Text, strip, is_nil, ltb, ◌==◌, if◌then◌else◌,
}
use dev_nepal.Accounts.{Actor, Ministry, MinistryPublisher, has_privileged_session}
use dev_nepal.Service.{Service, returns, raises, Event, EventResult, key_of}

pub data ContributionSource : Type 0 where
  provider_event maintainer_attestation member_submission : ContributionSource

pub data VerificationStatus : Type 0 where
  candidate pending_info accepted rejected revoked : VerificationStatus

pub data EvidenceScanStatus : Type 0 where
  not_applicable pending clean quarantined failed : EvidenceScanStatus

pub record ContributionRecord : Type 0 where
  pub contributor : Option ℕ
  pub source : ContributionSource
  pub evidence_file : Bool
  pub evidence_size_bytes : ℕ
  pub evidence_scan : EvidenceScanStatus
  pub status : VerificationStatus
  pub verified_by : Option ℕ
  pub verified_at : Option ℕ
  pub verification_note : Text
  pub secondary_approval_by : Option ℕ
  pub hold_active : Bool
  pub held_from_status : Option VerificationStatus
  pub hold_reason : Text
  pub held_by : Option ℕ
  pub held_at : Option ℕ
  pub hold_released_by : Option ℕ
  pub hold_released_at : Option ℕ
  pub hold_release_reason : Text
  pub hold_response : Text
  pub hold_responded_at : Option ℕ
  pub revocation_reason : Text
  pub revoked_by : Option ℕ
  pub revoked_at : Option ℕ

pub data Op : Type 0 where
  verify_denied revoke_denied hold_denied release_hold_denied hold_response_denied : Op
  decided : VerificationStatus → Op
  revoked held hold_released hold_responded evidence_scanned : Op

pub data Payload : Type 0 where
  nothing : Payload
  status_payload : VerificationStatus → Payload
  decision_payload : VerificationStatus → Payload
  status_scan : VerificationStatus → EvidenceScanStatus → Payload
  decided_payload : VerificationStatus → Text → (second : Option ℕ) → Payload
  status_reason : VerificationStatus → Text → Payload
  hold_payload : VerificationStatus → Bool → Text → Payload
  response_payload : VerificationStatus → Text → Payload
  scan_payload : EvidenceScanStatus → Payload

pub data ContributionError : Type 0 where
  unauthorized_verifier unauthorized_revoker unauthorized_hold_manager unauthorized_hold_responder
        hold_response_already_recorded input_too_long self_approval invalid_second_approver
        invalid_decision missing_reason invalid_status_transition invalid_evidence_file
        evidence_file_pending_scan missing_contribution_type integrity_error recognition_evaluation
        contribution_analytics :
      ContributionError

-- What a call reads beside the record: the clock, the setting, Unicode normalisation, the rows of
-- its project, and whether the calls into apps/recognition, apps/analytics and the file storage
-- return: the first two roll a transaction back when they raise.
pub record Env : Type 0 where
  pub now : ℕ
  pub mfa_bypass : Bool
  pub nfc : Text → Text
  pub ministry : Option Ministry
  pub maintainers : List ℕ
  pub publishers : List MinistryPublisher
  pub evaluates : Bool
  pub reverses : Bool
  pub records_event : Bool
  pub deletes_file : Bool

pub record Desk : Type 0 where
  pub row : ContributionRecord
  pub audit : List (Event Op Payload)

abbrev pub Call : Type 0 → Type 0
Call A = Service Env Desk ContributionError A

abbrev pub note : Actor → Op → Payload → Payload → EventResult → Env → Desk → Desk
note actor op before after result env s = record s {
  audit =
      record {
        actor = key_of actor;
        action = op;
        before = before;
        after = after;
        result = result;
        created_at = env.now;
      }
      ∷ s.audit;
}

-- `_audit_decision`, of a denial and of another action.
unfoldable pub audit_denial : Actor → Op → Payload → Payload → Call (Unit {0})
audit_denial actor op before after env s =
    (returns tt, note actor op before after EventResult.failure env s)

unfoldable pub audit_decision : Actor → Op → Payload → Payload → Call (Unit {0})
audit_decision actor op before after env s =
    (returns tt, note actor op before after EventResult.success env s)

-- `_audit_decision` of a denial, then `raise`.
abbrev pub refuse : {A : Type 0} → Actor → Op → Payload → Payload → ContributionError → Call A
refuse actor op before after e env s =
    (raises e, note actor op before after EventResult.failure env s)

-- `require_privileged_mfa`, with the action and the error of the caller.
unfoldable pub require_privileged_mfa : Actor → Op → ContributionError → Call (Unit {0})
require_privileged_mfa actor op e env s =
    if has_privileged_session env.mfa_bypass actor
    then (returns tt, s)
    else refuse actor op Payload.nothing Payload.nothing e env s

abbrev pub update_row : (ContributionRecord → ContributionRecord) → Call (Unit {0})
update_row f env s = (returns tt, record s { row = f s.row })

-- MAX_CONTRIBUTION_REASON_LENGTH and MAX_HOLD_RESPONSE_LENGTH
abbrev pub max_contribution_reason_length : ℕ
max_contribution_reason_length = 2000

abbrev pub max_hold_response_length : ℕ
max_hold_response_length = 4000

-- The text that both checks return. The column normalises it once more, which changes nothing.
abbrev pub cleaned_text : Env → Text → Text
cleaned_text env text = strip (env.nfc text)

abbrev pub require_text : ℕ → Text → Call Text
require_text maximum text env s =
    if is_nil (cleaned_text env text)
    then (raises ContributionError.missing_reason, s)
    else if ltb maximum (length (cleaned_text env text))
    then (raises ContributionError.input_too_long, s)
    else (returns (cleaned_text env text), s)

-- `_require_reason` and `_require_hold_response`
unfoldable pub require_reason : Text → Call Text
require_reason reason = require_text max_contribution_reason_length reason

unfoldable pub require_hold_response : Text → Call Text
require_hold_response response = require_text max_hold_response_length response

abbrev pub is_accepted : VerificationStatus → Bool
is_accepted VerificationStatus.accepted = true
is_accepted _ = false

abbrev pub is_revoked : VerificationStatus → Bool
is_revoked VerificationStatus.revoked = true
is_revoked _ = false

-- A candidate, or one about which information was asked.
abbrev pub is_unscored : VerificationStatus → Bool
is_unscored VerificationStatus.candidate = true
is_unscored VerificationStatus.pending_info = true
is_unscored _ = false

abbrev pub is_clean : EvidenceScanStatus → Bool
is_clean EvidenceScanStatus.clean = true
is_clean _ = false

abbrev pub is_provider_event : ContributionSource → Bool
is_provider_event ContributionSource.provider_event = true
is_provider_event _ = false

abbrev pub is_user : ℕ → ℕ → Bool
is_user user other = other == user
