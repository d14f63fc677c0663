-- ===== src/Contributions/Guards.antt =====
-- What the guards of the calls on a record let through.
use dev_nepal.Prelude.{
  ◌≡◌, refl, ◌⊎◌, inl, inr, ◌≢◌, true, false, not, ◌||◌, is_none, same_id, some, none, [], Text,
  nil-cases, Bool-cases, ltb, length, any, arith,
}
use dev_nepal.Accounts.{Actor, has_privileged_session, is_publisher_active}
use dev_nepal.Service.{Reply, returns, raises, key_of}
use dev_nepal.Contributions.Data.{
  VerificationStatus, ContributionRecord, Op, is_user, Env, Desk, require_reason,
  require_privileged_mfa, ContributionError, cleaned_text, max_contribution_reason_length,
}
use dev_nepal.Contributions.Verification.{
  is_authorized_verifier, require_second_approval, is_valid_second_approver, is_own_work,
}

-- The fields of a hold.
pub record SameHold (r r' : ContributionRecord) : Type 0 where
  pub active : r'.hold_active ≡ r.hold_active
  pub from : r'.held_from_status ≡ r.held_from_status
  pub reason : r'.hold_reason ≡ r.hold_reason
  pub by : r'.held_by ≡ r.held_by
  pub at : r'.held_at ≡ r.held_at
  pub response : r'.hold_response ≡ r.hold_response
  pub responded : r'.hold_responded_at ≡ r.hold_responded_at

-- What the guards of a call let through.
pub require_reason-cases :
    (reason : Text) (env : Env) (s : Desk)
    → ((e : ContributionError) × (require_reason reason env s ≡ (raises e, s)))
      ⊎ ((cleaned : Text) × (cleaned ≢ []) × (require_reason reason env s ≡ (returns cleaned, s)))
unfolding require_reason
require_reason-cases reason env s = elim (nil-cases (cleaned_text env reason)) [
  | inl blank ↦ inl (ContributionError.missing_reason, ground arith)
  | inr given ↦
      elim (Bool-cases (ltb max_contribution_reason_length (length (cleaned_text env reason)))) [
        | inl long ↦ inl (ContributionError.input_too_long, ground arith)
        | inr short ↦ inr (cleaned_text env reason, given, ground arith)
      ]
]

-- A check returns a value and writes nothing, or raises and writes no row.
abbrev pub Checks : {A : Type 0} → Desk → Reply ContributionError A × Desk → Type 0
Checks {A} s r =
    ((a : A) × (r ≡ (returns a, s)))
    ⊎ ((e : ContributionError) × (s' : Desk) × (r ≡ (raises e, s')) × (s'.row ≡ s.row))

pub require_privileged_mfa-Checks :
    (actor : Actor) (op : Op) (e : ContributionError) (env : Env) (s : Desk)
    → Checks s (require_privileged_mfa actor op e env s)
unfolding require_privileged_mfa
require_privileged_mfa-Checks actor op e env s =
    elim (Bool-cases (has_privileged_session env.mfa_bypass actor)) [
      | inl verified ↦ inl (tt, ground arith)
      | inr unverified ↦ rw unverified (inr (_, _, refl, refl))
    ]

pub is_authorized_verifier-Checks :
    (verifier : Actor) (env : Env) (s : Desk) → Checks s (is_authorized_verifier verifier env s)
unfolding is_authorized_verifier
is_authorized_verifier-Checks none env s = inl (false, refl)
is_authorized_verifier-Checks (some user) env s = elim (Bool-cases user.is_active) [
  | inr inactive ↦ inl (false, ground arith)
  | inl active ↦ elim (Bool-cases user.is_superuser) [
    | inr ordinary ↦ inl (any (is_user user.pk) env.maintainers, ground arith)
    | inl super ↦
        elim (require_privileged_mfa-Checks (some user) Op.verify_denied
          ContributionError.unauthorized_verifier env s) [
            | inl (_, q) ↦ inl (true, ground (arith, q))
            | inr (e, s', q, same) ↦ inr (e, s', ground (arith, q), same)
          ]
  ]
]

pub is_valid_second_approver-Checks :
    (second verifier : Actor) (env : Env) (s : Desk)
    → Checks s (is_valid_second_approver second verifier env s)
unfolding is_valid_second_approver
is_valid_second_approver-Checks none verifier env s = inl (false, refl)
is_valid_second_approver-Checks (some user) verifier env s =
    elim (Bool-cases (not user.is_active || same_id (some user.pk) (key_of verifier))) [
      | inl out ↦ rw out (inl (false, refl))
      | inr other ↦
          elim (Bool-cases
            (user.is_superuser || is_publisher_active env.publishers (some user) env.ministry)) [
              | inr outsider ↦ rw (other, outsider) (inl (false, refl))
              | inl may ↦
                  elim (require_privileged_mfa-Checks (some user) Op.verify_denied
                    ContributionError.invalid_second_approver env s) [
                      | inl (_, q) ↦ rw (other, may, q) (inl (true, refl))
                      | inr (e, s', q, same) ↦ rw (other, may, q) (inr (e, s', refl, same))
                    ]
            ]
    ]

pub require_second_approval-Checks :
    (verifier : Actor) (decision : VerificationStatus) (second : Actor) (env : Env) (s : Desk)
    → Checks s (require_second_approval verifier decision second env s)
unfolding require_second_approval
require_second_approval-Checks verifier decision second env s =
    elim (Bool-cases (is_own_work verifier s.row)) [
      | inr foreign ↦ rw foreign (inl (_, refl))
      | inl own ↦ elim (Bool-cases (is_none second)) [
        | inl alone ↦ rw (own, alone) (inr (_, _, refl, refl))
        | inr given ↦ elim (is_valid_second_approver-Checks second verifier env s) [
          | inl (true, q) ↦ rw (own, given, q) (inl (_, refl))
          | inl (false, q) ↦ rw (own, given, q) (inr (_, _, refl, refl))
          | inr (e, s', q, same) ↦ rw (own, given, q) (inr (e, s', refl, same))
        ]
      ]
    ]
