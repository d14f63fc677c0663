-- ===== src/Contributions/History.antt =====
-- The calls on a record as one type, and the diagram of its statuses.
use dev_nepal.Prelude.{List, [], ◌∷◌, Text}
use dev_nepal.Accounts.{Actor}
use dev_nepal.Contributions.Data.{VerificationStatus, EvidenceScanStatus, Env, Desk, Call}
use dev_nepal.Contributions.Verification.{verify, revoke, record_evidence_scan_result}
use dev_nepal.Contributions.Holds.{place_on_hold, release_hold, respond_to_hold}

pub data Act : Type 0 where
  verify_ : Actor → VerificationStatus → Text → Actor → Act
  revoke_ : Actor → Text → Act
  place_on_hold_ : Actor → Text → Act
  release_hold_ : Actor → Text → Act
  respond_to_hold_ : Actor → Text → Act
  scan_ : EvidenceScanStatus → Act

unfoldable pub act : Act → Call (Unit {0})
act (verify_ verifier decision reason second) = verify verifier decision reason second
act (revoke_ super_admin reason) = revoke super_admin reason
act (place_on_hold_ pmo reason) = place_on_hold pmo reason
act (release_hold_ pmo reason) = release_hold pmo reason
act (respond_to_hold_ contributor text) = respond_to_hold contributor text
act (scan_ scan_status) = record_evidence_scan_result scan_status

-- The row after a history of calls, whatever each returned or raised.
unfoldable pub run : List (Env × Act) → Desk → Desk
run [] s = s
run ((env, c) ∷ cs) s = run cs (act c env s).1

-- A record on which a decision may be taken.
pub data IsOpen : VerificationStatus → Type 0 where
  candidate_is_open : IsOpen VerificationStatus.candidate
  pending_is_open : IsOpen VerificationStatus.pending_info
  rejected_is_open : IsOpen VerificationStatus.rejected

infix 40 ◌⟶◌
pub data ◌⟶◌ : VerificationStatus → VerificationStatus → Type 0 where
  accepts : {a : VerificationStatus} → IsOpen a → a ⟶ VerificationStatus.accepted
  rejects : {a : VerificationStatus} → IsOpen a → a ⟶ VerificationStatus.rejected
  asks : {a : VerificationStatus} → IsOpen a → a ⟶ VerificationStatus.pending_info
  revokes : VerificationStatus.accepted ⟶ VerificationStatus.revoked
