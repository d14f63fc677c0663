-- ===== src/Recognition/Data.antt =====
-- apps/recognition/enums.py and models.py: contributions with their scores, badge awards, corrections
-- and the audit trail.
use dev_nepal.Prelude.{ℕ, Bool, Option, List, [], ◌∷◌, Text, text, strip, if◌then◌else◌}
use dev_nepal.Accounts.{Actor, is_super_admin, has_privileged_session}
use dev_nepal.Service.{Service, returns, raises, Event, EventResult, key_of}
use dev_nepal.Contributions.Data as Contributions

pub data AwardStatus : Type 0 where
  active revoked : AwardStatus

pub data CorrectionKind : Type 0 where
  consolidate release_held invalidate adjust_score : CorrectionKind

pub data CorrectionStatus : Type 0 where
  applied appealed upheld overturned : CorrectionStatus

-- CorrectionReason
abbrev pub correction_reasons : List Text
correction_reasons =
    text "duplicate_trivial_batch"
    ∷ text "evidence_reassessment"
    ∷ text "maintainer_correction"
    ∷ text "invalid_source"
    ∷ text "score_calculation_error"
    ∷ text "hold_resolved"
    ∷ []

pub record ContributionScore : Type 0 where
  pub pk : ℕ
  pub policy : ℕ
  pub points : ℕ
  pub scored_at : ℕ
  pub reversed_at : Option ℕ
  pub reversal_reason : Text

-- A row of contributions with the row of its score, of which it has at most one.
pub record Contribution : Type 0 where
  pub pk : ℕ
  pub project : ℕ
  pub impact_tier : Text
  pub desk : Contributions.Desk
  pub score : Option ContributionScore

pub record BadgeAward : Type 0 where
  pub pk : ℕ
  pub badge : ℕ
  pub recipient : ℕ
  pub contribution : Option ℕ
  pub issuer : Option ℕ
  pub issued_at : ℕ
  pub status : AwardStatus
  pub revocation_reason : Text
  pub revoked_by : Option ℕ
  pub revoked_at : Option ℕ

-- The rows of `_recognition_snapshot`.
pub record RecordRow : Type 0 where
  pub id : ℕ
  pub hold_active : Bool
  pub held_from_status : Option Contributions.VerificationStatus

pub record ScoreRow : Type 0 where
  pub id : ℕ
  pub contribution_id : ℕ
  pub points : ℕ
  pub reversed_at : Option ℕ
  pub reversal_reason : Text

pub record AwardRow : Type 0 where
  pub id : ℕ
  pub contribution_id : Option ℕ
  pub status : AwardStatus
  pub revocation_reason : Text
  pub revoked_by_id : Option ℕ
  pub revoked_at : Option ℕ

pub record Snapshot : Type 0 where
  pub records : List RecordRow
  pub scores : List ScoreRow
  pub awards : List AwardRow

-- The kind of a correction with its corrected score, where the kind has one.
pub data Change : Type 0 where
  consolidate adjust_score : (points : ℕ) → Change
  release_held invalidate : Change

pub record RecognitionCorrection : Type 0 where
  pub recipient : ℕ
  pub contributions : List ℕ
  pub change : Change
  pub reason : Text
  pub basis : Text
  pub member_note : Text
  pub before_snapshot : Snapshot
  pub after_snapshot : Snapshot
  pub applied_by : Option ℕ
  pub applied_at : ℕ
  pub appeal_due_at : ℕ
  pub appeal_text : Text
  pub appealed_at : Option ℕ
  pub status : CorrectionStatus
  pub appeal_decided_by : Option ℕ
  pub appeal_decided_at : Option ℕ
  pub appeal_decision_reason : Text

pub data Op : Type 0 where
  apply_denied applied appeal_denied appealed resolve_denied restore_denied : Op
  resolved : CorrectionStatus → Op
  contribution_scored score_reversed badge_awarded badge_revoked award_denied revoke_denied : Op

pub data Payload : Type 0 where
  nothing : Payload
  snapshot : Snapshot → Payload
  applied_payload : Change → (reason basis member_note : Text) → Snapshot → Payload
  status_due : CorrectionStatus → ℕ → Payload
  status_payload : CorrectionStatus → Payload
  status_text : CorrectionStatus → Text → Payload
  scored_payload : (contribution version points : ℕ) → Payload
  reversal_payload : (contribution : ℕ) → Text → Payload
  award_payload : (badge contribution : Option ℕ) → Text → Payload
  award_status : AwardStatus → Text → Payload

pub data RecognitionError : Type 0 where
  recognition recognition_authorization correction correction_authorization
        correction_state_conflict :
      RecognitionError

-- The clock, the setting PRIVILEGED_MFA_BYPASS, Unicode normalisation, and what apps/contributions
-- reads beside a record.
pub record Env : Type 0 where
  pub now : ℕ
  pub mfa_bypass : Bool
  pub nfc : Text → Text
  pub contributions : ℕ → Contributions.Env

-- The contributions in the order of their keys, the awards in the order of theirs, and the trail.
pub record Ledger : Type 0 where
  pub entries : List Contribution
  pub awards : List BadgeAward
  pub audit : List (Event Op Payload)

abbrev pub Call : Type 0 → Type 0
Call A = Service Env Ledger RecognitionError A

abbrev pub note : Actor → Op → Payload → Payload → EventResult → Env → Ledger → Ledger
note actor op before after result env s = record s {
  audit =
      record {
        actor = key_of actor;
        action = op;
        before = before;
        after = after;
        result = result;
        created_at = env.now;
      }
      ∷ s.audit;
}

-- `record_audit`
unfoldable pub record_audit : Actor → Op → Payload → Payload → Call (Unit {0})
record_audit actor op before after env s =
    (returns tt, note actor op before after EventResult.success env s)

-- `record_audit` of a failure, then `raise`.
abbrev pub refuse : {A : Type 0} → Actor → Op → Payload → RecognitionError → Call A
refuse actor op before e env s =
    (raises e, note actor op before Payload.nothing EventResult.failure env s)

-- `_require_super_admin`, and `require_privileged_mfa` in it.
unfoldable pub require_super_admin : Actor → Op → Call (Unit {0})
require_super_admin actor op env s =
    if is_super_admin actor
    then (if has_privileged_session env.mfa_bypass actor
        then (returns tt, s)
        else refuse actor op Payload.nothing RecognitionError.recognition_authorization env s)
    else refuse actor op Payload.nothing RecognitionError.recognition_authorization env s

-- `normalize_nfc(str(value or "")).strip()`
abbrev pub cleaned : Env → Text → Text
cleaned env value = strip (strip (env.nfc value))
