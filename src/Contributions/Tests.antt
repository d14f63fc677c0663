-- ===== src/Contributions/Tests.antt =====
-- The theorems about apps/contributions at concrete inputs.
use dev_nepal.Prelude.{
  ◌≡◌, refl, ◌⊎◌, true, false, ◌&&◌, none, some, List, [], ◌∷◌, text, strip, arith,
}
use dev_nepal.Accounts.{User, is_super_admin, has_privileged_session}
use dev_nepal.Service.{returns}
use dev_nepal.Contributions.Data.{
  ContributionSource, VerificationStatus, EvidenceScanStatus, ContributionRecord, Env, Desk,
  require_reason, require_hold_response, require_privileged_mfa, audit_decision,
}
use dev_nepal.Contributions.Verification.{
  verify, settle, save_decision, require_second_approval, is_authorized_verifier, lacks_scan,
}
use dev_nepal.Contributions.Holds.{
  place_on_hold, release_hold, respond_to_hold, require_hold_manager,
}
use dev_nepal.Contributions.History.{Act, verify_, place_on_hold_, respond_to_hold_, act, run, ◌⟶◌}
use dev_nepal.Contributions.Consistency.{IsConsistent, run-IsConsistent}
use dev_nepal.Contributions.Laws.{act-⟶}
use dev_nepal.Contributions.Permits.{may_verify, has_approval, raised, verify_requires}
use dev_nepal.Contributions.Release
use dev_nepal.Contributions.Release.{release_hold_returns, refusals_are_lost}

abbrev admin : User
admin = record { pk = 1; is_active = true; is_superuser = true; otp_verified = true }

abbrev maintainer : User
maintainer = record { pk = 2; is_active = true; is_superuser = false; otp_verified = false }

abbrev contributor : User
contributor = record { pk = 3; is_active = true; is_superuser = false; otp_verified = false }

abbrev env : Env
env = record {
  now = 100;
  mfa_bypass = false;
  nfc = λ t. t;
  ministry = none;
  maintainers = 2 ∷ [];
  publishers = [];
  evaluates = true;
  reverses = true;
  records_event = true;
  deletes_file = true;
}

abbrev candidate : ContributionRecord
candidate = record {
  contributor = some 3;
  source = ContributionSource.member_submission;
  evidence_file = false;
  evidence_size_bytes = 0;
  evidence_scan = EvidenceScanStatus.not_applicable;
  status = VerificationStatus.candidate;
  verified_by = none;
  verified_at = none;
  verification_note = [];
  secondary_approval_by = none;
  hold_active = false;
  held_from_status = none;
  hold_reason = [];
  held_by = none;
  held_at = none;
  hold_released_by = none;
  hold_released_at = none;
  hold_release_reason = [];
  hold_response = [];
  hold_responded_at = none;
  revocation_reason = [];
  revoked_by = none;
  revoked_at = none;
}

abbrev desk : Desk
desk = record { row = candidate; audit = [] }

candidate-IsConsistent : IsConsistent candidate
candidate-IsConsistent = record { held = λ h. absurd (ground (arith, h)); responds = refl }

-- A hold, the contributor's answer, and a decision that the hold forbids.
abbrev calls : List (Env × Act)
calls =
    (env, place_on_hold_ (some admin) (text "odd"))
    ∷ (env, respond_to_hold_ (some contributor) (text "mine"))
    ∷ (env, verify_ (some maintainer) VerificationStatus.accepted (text "good") none)
    ∷ []

run-IsConsistent_example : IsConsistent (run calls desk).row
run-IsConsistent_example = run-IsConsistent calls desk candidate-IsConsistent

abbrev accept : Act
accept = verify_ (some maintainer) VerificationStatus.accepted (text "good") none

act-⟶_example :
    ((act accept env desk).1.row.status ≡ VerificationStatus.candidate)
    ⊎ (false ≡ false) × (VerificationStatus.candidate ⟶ (act accept env desk).1.row.status)
act-⟶_example = act-⟶ accept env desk candidate-IsConsistent

accepted_is_taken :
    raised (verify (some maintainer) VerificationStatus.accepted (text "good") none env desk).0
    ≡ false
unfolding verify settle save_decision require_second_approval is_authorized_verifier require_reason
    require_privileged_mfa audit_decision strip
accepted_is_taken = refl

verify_requires_example :
    (may_verify env (some maintainer) ≡ true)
    × (lacks_scan VerificationStatus.accepted candidate ≡ false)
    × (has_approval env (some maintainer) none candidate ≡ true)
    × (false ≡ false)
    × ((verify
          (some maintainer)
          VerificationStatus.accepted
          (text "good")
          none
          env
          desk).1.row.status
        ≡ VerificationStatus.accepted)
verify_requires_example =
    verify_requires (some maintainer) VerificationStatus.accepted (text "good") none env desk
      accepted_is_taken

is_held : (run calls desk).row.hold_active ≡ true
unfolding run act verify settle save_decision require_second_approval is_authorized_verifier
    require_reason require_privileged_mfa audit_decision strip place_on_hold respond_to_hold
    require_hold_manager require_hold_response is_super_admin has_privileged_session
is_held = refl

admin_manages : is_super_admin (some admin) && has_privileged_session false (some admin) ≡ true
unfolding is_super_admin has_privileged_session
admin_manages = refl

fine_is_given : Release.is_reason env (text "fine") ≡ true
unfolding strip
fine_is_given = refl

release_hold_returns_example :
    ((release_hold (some admin) (text "fine") env (run calls desk)).0 ≡ returns tt)
    × ((release_hold (some admin) (text "fine") env (run calls desk)).1.row.hold_active ≡ false)
    × (some (release_hold (some admin) (text "fine") env (run calls desk)).1.row.status
        ≡ (run calls desk).row.held_from_status)
release_hold_returns_example =
    release_hold_returns calls desk (some admin) (text "fine") env candidate-IsConsistent is_held
      admin_manages fine_is_given

abbrev accepted : Desk
accepted = record desk { row = record candidate { status = VerificationStatus.accepted } }

abbrev late_hold : Act
late_hold = place_on_hold_ (some admin) (text "odd")

late_hold_is_refused : Release.is_transition_reply (act late_hold env accepted).0 ≡ true
unfolding act place_on_hold require_reason require_hold_manager require_privileged_mfa
    is_super_admin has_privileged_session strip
late_hold_is_refused = refl

refusals_are_lost_example : (act late_hold env accepted).1 ≡ accepted
refusals_are_lost_example = refusals_are_lost late_hold env accepted refl late_hold_is_refused
