-- ===== src/Recognition/Tests.antt =====
-- The theorems about apps/recognition at concrete inputs.
use dev_nepal.Prelude.{
  ℕ, ◌≡◌, refl, inl, inr, Bool-cases, true, false, none, some, is_nil, map, List, [], ◌∷◌, text,
  strip, ◌+◌, arith,
}
use dev_nepal.Accounts.{User, is_super_admin, has_privileged_session}
use dev_nepal.Service.{returns, raises}
use dev_nepal.Contributions.Data as Contributions
use dev_nepal.Recognition.Data.{
  AwardStatus, CorrectionKind, CorrectionStatus, Contribution, BadgeAward, Change,
  RecognitionCorrection, RecognitionError, Env, Ledger, cleaned,
}
use dev_nepal.Recognition.Snapshots.{chosen}
use dev_nepal.Recognition.Corrections.{validate_correction_input, new_correction, apply_correction}
use dev_nepal.Recognition.Hearings.{
  Docket, with_decision, appeal_correction, resolve_correction_appeal,
}
use dev_nepal.Recognition.Changes.{change_scores}
use dev_nepal.Recognition.Scoring.{ScoringPolicy, Scheme, total_points, new_score}
use dev_nepal.Recognition.Recomputation.{recompute_scores}
use dev_nepal.Recognition.Limits.{invalidated_points_count, IsRescored, recompute_scores-limit}
use dev_nepal.Recognition.Badges.{is_held}
use dev_nepal.Recognition.Counting.{IsSingle}
use dev_nepal.Recognition.Uniqueness.{Act, award_, revoke_, evaluate_, run, run-IsSingle}
use dev_nepal.Recognition.Lookups.{IsKeyed}
use dev_nepal.Recognition.Calls.{may_correct}
use dev_nepal.Recognition.Laws.{resolution_without_appeal_stays, overturned_correction_restores}

abbrev admin : User
admin = record { pk = 1; is_active = true; is_superuser = true; otp_verified = true }

abbrev judge : User
judge = record { pk = 4; is_active = true; is_superuser = true; otp_verified = true }

abbrev member : User
member = record { pk = 3; is_active = true; is_superuser = false; otp_verified = false }

abbrev surroundings : Contributions.Env
surroundings = record {
  now = 100;
  mfa_bypass = false;
  nfc = λ t. t;
  ministry = none;
  maintainers = [];
  publishers = [];
  evaluates = true;
  reverses = true;
  records_event = true;
  deletes_file = true;
}

abbrev env : Env
env = record { now = 100; mfa_bypass = false; nfc = λ t. t; contributions = λ key. surroundings }

abbrev accepted : Contributions.ContributionRecord
accepted = record {
  contributor = some 3;
  source = Contributions.ContributionSource.member_submission;
  evidence_file = false;
  evidence_size_bytes = 0;
  evidence_scan = Contributions.EvidenceScanStatus.not_applicable;
  status = Contributions.VerificationStatus.accepted;
  verified_by = some 2;
  verified_at = some 50;
  verification_note = [];
  secondary_approval_by = none;
  hold_active = false;
  held_from_status = none;
  hold_reason = [];
  held_by = none;
  held_at = none;
  hold_released_by = none;
  hold_released_at = none;
  hold_release_reason = [];
  hold_response = [];
  hold_responded_at = none;
  revocation_reason = [];
  revoked_by = none;
  revoked_at = none;
}

abbrev scored : ℕ → Contribution
scored pk = record {
  pk = pk;
  project = 9;
  impact_tier = text "minor";
  desk = record { row = accepted; audit = [] };
  score = some (record {
    pk = pk + 20;
    policy = 1;
    points = 3;
    scored_at = 60;
    reversed_at = none;
    reversal_reason = [];
  });
}

abbrev award : BadgeAward
award = record {
  pk = 11;
  badge = 2;
  recipient = 3;
  contribution = some 6;
  issuer = some 1;
  issued_at = 60;
  status = AwardStatus.active;
  revocation_reason = [];
  revoked_by = none;
  revoked_at = none;
}

abbrev ledger : Ledger
ledger = record { entries = scored 5 ∷ scored 6 ∷ []; awards = award ∷ []; audit = [] }

-- A correction that has been applied, and that nobody has appealed against.
abbrev correction : RecognitionCorrection
correction =
    new_correction (some admin) 3 (5 ∷ []) Change.invalidate (text "invalid_source") (text "log")
      (text "note") (record { records = []; scores = []; awards = [] })
      (record { records = []; scores = []; awards = [] }) 90

abbrev docket : Docket
docket = record { ledger = ledger; correction = correction }

judge-may_correct : may_correct env (some judge) ≡ true
unfolding is_super_admin has_privileged_session
judge-may_correct = refl

admin-may_correct : may_correct env (some admin) ≡ true
unfolding is_super_admin has_privileged_session
admin-may_correct = refl

reason_is_given : is_nil (cleaned env (text "log")) ≡ false
unfolding strip
reason_is_given = refl

resolution_without_appeal_stays_example :
    (s' : Docket) × ((resolve_correction_appeal
          (some judge)
          CorrectionStatus.upheld
          (text "log")
          env
          docket
        ≡ (raises RecognitionError.correction, s'))
      × (s'.correction
          ≡ with_decision
              (some judge)
              CorrectionStatus.upheld
              (cleaned env (text "log"))
              100
              correction)
      × (s'.ledger.entries ≡ ledger.entries)
      × (s'.ledger.awards ≡ ledger.awards)
      × ((appeal_correction (some member) (text "log") env s').0
          ≡ raises RecognitionError.correction))
resolution_without_appeal_stays_example =
    resolution_without_appeal_stays (some judge) (some member) CorrectionStatus.upheld (text "log")
      (text "log") env env docket judge-may_correct refl reason_is_given refl refl refl
      reason_is_given

consolidation_is_valid :
    validate_correction_input CorrectionKind.consolidate
      (5 ∷ 6 ∷ [])
      (chosen (5 ∷ 6 ∷ []) ledger.entries)
      (cleaned env (text "invalid_source"))
      (cleaned env (text "log"))
      (cleaned env (text "log"))
      (some 4)
    ≡ some (Change.consolidate 4)
unfolding validate_correction_input strip
consolidation_is_valid = refl

ledger-IsKeyed : IsKeyed ledger
ledger-IsKeyed = record { scores = (refl, (refl, tt)); awards = (refl, tt) }

overturned_correction_restores_example :
    (c : RecognitionCorrection) × ((s1 : Ledger) × ((d2 : Docket) × ((d3 : Docket)
          × ((apply_correction
                  (some admin)
                  CorrectionKind.consolidate
                  (5 ∷ 6 ∷ [])
                  (text "invalid_source")
                  (text "log")
                  (text "log")
                  (some 4)
                  env
                  ledger
                ≡ (returns c, s1))
              × (appeal_correction
                    (some member)
                    (text "log")
                    env
                    (record { ledger = s1; correction = c })
                  ≡ (returns tt, d2))
              × (resolve_correction_appeal
                    (some judge)
                    CorrectionStatus.overturned
                    (text "log")
                    env
                    d2
                  ≡ (returns tt, d3))
              × (d3.correction.status ≡ CorrectionStatus.overturned)
              × (d3.ledger.entries ≡ ledger.entries)
              × (d3.ledger.awards ≡ ledger.awards)))))
overturned_correction_restores_example =
    overturned_correction_restores (some admin) (some judge) member CorrectionKind.consolidate
      (5 ∷ 6 ∷ []) (text "invalid_source") (text "log") (text "log") (text "log") (text "log")
      (some 4) (Change.consolidate 4) env env env ledger ledger-IsKeyed admin-may_correct
      judge-may_correct refl consolidation_is_valid refl refl refl refl refl (omega arith)
      reason_is_given reason_is_given

-- Corrected contributions, under the policy that scored them.
invalidated_points_count_example :
    total_points 1
      (some 3)
      (change_scores
        (some admin)
        Change.invalidate
        (text "invalid_source")
        100
        (5 ∷ 6 ∷ [])
        ledger).entries
    ≡ total_points 1 (some 3) ledger.entries
invalidated_points_count_example =
    invalidated_points_count 1 (some 3) (some admin) (text "invalid_source") 100 (5 ∷ 6 ∷ []) ledger

abbrev policy : ScoringPolicy
policy = record {
  version = 2;
  rules = record { tiers = (text "minor", 4) ∷ []; badges = [] };
  approved_by = some admin;
}

abbrev scheme : Scheme
scheme = record {
  enabled = true;
  policy = some policy;
  badges = [];
  score_key = λ key. key + 20;
  award_key = λ badge. 30;
}

abbrev unscored : Ledger
unscored = record {
  entries = record (scored 5) { score = none } ∷ record (scored 6) { score = none } ∷ [];
  awards = award ∷ [];
  audit = [];
}

recompute_scores-limit_example :
    (done : List Contribution) × (s' : Ledger) × (recompute_scores scheme 90 1 env unscored
      ≡ (returns (map (λ e. new_score (e.pk + 20) policy e 100) done), s'))
    × IsRescored scheme policy 90 1 100 unscored s' done
recompute_scores-limit_example =
    recompute_scores-limit scheme policy 90 1 env unscored refl (refl, (refl, tt))

ledger-IsSingle : IsSingle ledger
ledger-IsSingle badge recipient = elim (Bool-cases (is_held badge recipient award)) [
  | inl q ↦ rw q (omega arith)
  | inr q ↦ rw q (omega arith)
]

-- The badge is given again, revoked, and evaluated for a contribution.
abbrev badge_calls : List (Env × Act)
badge_calls =
    (
      env,
      award_ 12 (some admin) 3 (record { pk = 2; slug = text "helper"; is_active = true }) none [],
    )
    ∷ (env, revoke_ (some admin) award (text "left"))
    ∷ (env, evaluate_ scheme (scored 5))
    ∷ []

run-IsSingle_example : IsSingle (run badge_calls ledger)
run-IsSingle_example = run-IsSingle badge_calls ledger ledger-IsSingle
