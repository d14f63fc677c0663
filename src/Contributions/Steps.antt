-- ===== src/Contributions/Steps.antt =====
-- The effect of each call on the row of a record.
use dev_nepal.Prelude.{
  ℕ, ◌≡◌, refl, ◌⊎◌, inl, inr, ◌≢◌, true, false, not, ◌||◌, Option, [], Text, nil-cases, Bool-cases,
  ltb, length, arith,
}
use dev_nepal.Accounts.{Actor, is_super_admin}
use dev_nepal.Service.{returns, raises}
use dev_nepal.Contributions.Data.{
  VerificationStatus, EvidenceScanStatus, Op, Env, Desk, require_hold_response, ContributionError,
  cleaned_text, max_hold_response_length, is_accepted, is_revoked, is_unscored,
}
use dev_nepal.Contributions.Verification.{
  verify, revoke, record_evidence_scan_result, save_decision, save_revocation, is_decision, settle,
}
use dev_nepal.Contributions.Holds.{
  place_on_hold, release_hold, respond_to_hold, require_hold_manager, hold, release, respond,
  was_unscored, is_contributor, responded,
}
use dev_nepal.Contributions.Guards.{
  Checks, SameHold, is_authorized_verifier-Checks, require_privileged_mfa-Checks,
  require_reason-cases, require_second_approval-Checks,
}

-- A decision as it is saved.
abbrev pub Decides : VerificationStatus → Desk → Desk → Type 0
Decides decision s s' = (s'.row.status ≡ decision) × SameHold s.row s'.row

save_decision-row :
    (verifier : Actor) (decision : VerificationStatus) (reason : Text) (second : Option ℕ)
    (env : Env) (s : Desk)
    → ((save_decision verifier decision reason second env s).1.row ≡ s.row)
      ⊎ Decides decision s (save_decision verifier decision reason second env s).1
unfolding save_decision
save_decision-row verifier decision reason second env s = ground arith

settle-row :
    (verifier : Actor) (decision : VerificationStatus) (reason : Text) (second : Actor) (env : Env)
    (s : Desk)
    → ((settle verifier decision reason second env s).1.row ≡ s.row)
      ⊎ Decides decision s (settle verifier decision reason second env s).1
        × (s.row.hold_active ≡ false)
        × (is_accepted s.row.status ≡ false)
        × (is_revoked s.row.status ≡ false)
unfolding settle
settle-row verifier decision reason second env s =
    elim (require_second_approval-Checks verifier decision second env s) [
      | inl (o, q) ↦ ground (arith, q, save_decision-row verifier decision reason o env s)
      | inr (e, s', q, same) ↦ ground (arith, q, same)
    ]

-- What a decision requires of the record.
abbrev pub IsDecision : VerificationStatus → Desk → Desk → Type 0
IsDecision decision s s' =
    Decides decision s s'
    × (is_decision decision ≡ true)
    × (s.row.hold_active ≡ false)
    × (is_accepted s.row.status ≡ false)
    × (is_revoked s.row.status ≡ false)

pub verify-row :
    (verifier : Actor) (decision : VerificationStatus) (reason : Text) (second : Actor) (env : Env)
    (s : Desk)
    → ((verify verifier decision reason second env s).1.row ≡ s.row)
      ⊎ IsDecision decision s (verify verifier decision reason second env s).1
unfolding verify
verify-row verifier decision reason second env s = elim (require_reason-cases reason env s) [
  | inl (e, q) ↦ rw q (inl refl)
  | inr (cleaned, _, q) ↦ elim (Bool-cases (is_decision decision)) [
    | inr other ↦ rw (q, other) (inl refl)
    | inl decides ↦ elim (is_authorized_verifier-Checks verifier env s) [
      | inr (e, s', a, same) ↦ rw (q, decides, a) (inl same)
      | inl (false, a) ↦ rw (q, decides, a) (inl refl)
      | inl (true, a) ↦
          rw (q, decides, a)
            (elim (settle-row verifier decision cleaned second env s) [
              | inl same ↦ inl same
              | inr (d, h, acc, rev) ↦ inr (d, refl, h, acc, rev)
            ])
    ]
  ]
]

require_hold_manager-Checks :
    (actor : Actor) (op : Op) (env : Env) (s : Desk)
    → Checks s (require_hold_manager actor op env s)
unfolding require_hold_manager
require_hold_manager-Checks actor op env s = elim (Bool-cases (is_super_admin actor)) [
  | inr outsider ↦ rw outsider (inr (_, _, refl, refl))
  | inl admin ↦
      rw admin
        (require_privileged_mfa-Checks actor op ContributionError.unauthorized_hold_manager env s)
]

require_hold_manager-admin :
    (actor : Actor) (op : Op) (env : Env) (s : Desk)
    → require_hold_manager actor op env s ≡ (returns tt, s)
    → is_super_admin actor ≡ true
unfolding require_hold_manager
require_hold_manager-admin actor op env s h = elim (Bool-cases (is_super_admin actor)) [
  | inl admin ↦ admin
  | inr outsider ↦ absurd (ground (arith, rw outsider at h))
]

-- A hold is placed on a record that is not scored and not held.
abbrev pub Places : Actor → Text → Env → Desk → Desk → Type 0
Places pmo reason env s s' =
    (s'.row ≡ hold pmo reason env.now s.row)
    × (reason ≢ [])
    × (is_super_admin pmo ≡ true)
    × (s.row.hold_active ≡ false)
    × (is_unscored s.row.status ≡ true)

pub place_on_hold-row :
    (pmo : Actor) (reason : Text) (env : Env) (s : Desk)
    → ((place_on_hold pmo reason env s).1.row ≡ s.row)
      ⊎ ((cleaned : Text) × Places pmo cleaned env s (place_on_hold pmo reason env s).1)
unfolding place_on_hold
place_on_hold-row pmo reason env s = elim (require_reason-cases reason env s) [
  | inl (e, q) ↦ rw q (inl refl)
  | inr (cleaned, given, q) ↦ elim (require_hold_manager-Checks pmo Op.hold_denied env s) [
    | inr (e, s', g, same) ↦ rw (q, g) (inl same)
    | inl (_, g) ↦ elim (Bool-cases (s.row.hold_active || not (is_unscored s.row.status))) [
      | inl out ↦ rw (q, g, out) (inl refl)
      | inr may ↦
          rw (q, g, may)
            (inr (
              cleaned,
              (
                refl,
                given,
                require_hold_manager-admin pmo Op.hold_denied env s g,
                ground arith,
                ground arith,
              ),
            ))
    ]
  ]
]

pub release_hold-row :
    (pmo : Actor) (reason : Text) (env : Env) (s : Desk)
    → ((release_hold pmo reason env s).1.row ≡ s.row)
      ⊎ ((cleaned : Text) × ((release_hold pmo reason env s).1.row
            ≡ release pmo cleaned env.now s.row)
          × (s.row.hold_active ≡ true))
unfolding release_hold
release_hold-row pmo reason env s = elim (require_reason-cases reason env s) [
  | inl (e, q) ↦ rw q (inl refl)
  | inr (cleaned, given, q) ↦ elim (require_hold_manager-Checks pmo Op.release_hold_denied env s) [
    | inr (e, s', g, same) ↦ rw (q, g) (inl same)
    | inl (_, g) ↦
        elim (Bool-cases (not s.row.hold_active || not (was_unscored s.row.held_from_status))) [
          | inl out ↦ rw (q, g, out) (inl refl)
          | inr may ↦ rw (q, g, may) (inr (cleaned, refl, ground arith))
        ]
  ]
]

pub revoke-row :
    (super_admin : Actor) (reason : Text) (env : Env) (s : Desk)
    → ((revoke super_admin reason env s).1.row ≡ s.row)
      ⊎ ((revoke super_admin reason env s).1.row.status ≡ VerificationStatus.revoked)
        × (s.row.status ≡ VerificationStatus.accepted)
        × SameHold s.row (revoke super_admin reason env s).1.row
unfolding revoke save_revocation
revoke-row super_admin reason env s = elim (require_reason-cases reason env s) [
  | inl (e, q) ↦ rw q (inl refl)
  | inr (cleaned, given, q) ↦ rw q (ground arith)
]

pub scan-row :
    (scan_status : EvidenceScanStatus) (env : Env) (s : Desk)
    → ((record_evidence_scan_result scan_status env s).1.row.status ≡ s.row.status)
      × SameHold s.row (record_evidence_scan_result scan_status env s).1.row
unfolding record_evidence_scan_result
scan-row scan_status env s = ground arith

pub require_hold_response-cases :
    (text : Text) (env : Env) (s : Desk)
    → ((e : ContributionError) × (require_hold_response text env s ≡ (raises e, s)))
      ⊎ ((cleaned : Text) × (cleaned ≢ [])
          × (require_hold_response text env s ≡ (returns cleaned, s)))
unfolding require_hold_response
require_hold_response-cases text env s = elim (nil-cases (cleaned_text env text)) [
  | inl blank ↦ inl (ContributionError.missing_reason, ground arith)
  | inr given ↦ elim (Bool-cases (ltb max_hold_response_length (length (cleaned_text env text)))) [
    | inl long ↦ inl (ContributionError.input_too_long, ground arith)
    | inr short ↦ inr (cleaned_text env text, given, ground arith)
  ]
]

-- A response is written once, by the contributor, while the hold lasts.
abbrev pub Responds : Actor → Text → Env → Desk → Desk → Type 0
Responds contributor text env s s' =
    (s'.row ≡ respond text env.now s.row)
    × (text ≢ [])
    × (is_contributor contributor s.row ≡ true)
    × (s.row.hold_active ≡ true)
    × (s.row.hold_response ≡ [])

pub respond_to_hold-row :
    (contributor : Actor) (text : Text) (env : Env) (s : Desk)
    → ((respond_to_hold contributor text env s).1.row ≡ s.row)
      ⊎ ((cleaned : Text) × Responds contributor cleaned env s
            (respond_to_hold contributor text env s).1)
unfolding respond_to_hold
respond_to_hold-row contributor text env s = elim (require_hold_response-cases text env s) [
  | inl (e, q) ↦ rw q (inl refl)
  | inr (cleaned, given, q) ↦ elim (Bool-cases (is_contributor contributor s.row)) [
    | inr other ↦ rw (q, other) (inl refl)
    | inl own ↦ elim (Bool-cases (responded s.row)) [
      | inl again ↦ elim (Bool-cases s.row.hold_active) [
        | inl held ↦ rw q (inl (ground arith))
        | inr free ↦ rw q (inl (ground arith))
      ]
      | inr first ↦ elim (Bool-cases s.row.hold_active) [
        | inr free ↦ rw q (inl (ground arith))
        | inl held ↦ inr (cleaned, (rw q (ground arith), given, own, held, ground arith))
      ]
    ]
  ]
]
