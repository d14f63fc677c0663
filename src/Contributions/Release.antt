-- ===== src/Contributions/Release.antt =====
-- The release of a hold, and the refusals inside a transaction.
use dev_nepal.Prelude.{
  ◌≡◌, refl, ◌⊎◌, inl, inr, Bool, true, false, not, ◌&&◌, is_nil, some, List, Text, Bool-cases, ltb,
  length, arith,
}
use dev_nepal.Accounts.{Actor, has_privileged_session, is_super_admin}
use dev_nepal.Service.{Reply, returns, raises}
use dev_nepal.Contributions.Data.{
  Op, Env, Desk, require_reason, require_privileged_mfa, ContributionError, cleaned_text,
  max_contribution_reason_length,
}
use dev_nepal.Contributions.Holds.{
  place_on_hold, release_hold, respond_to_hold, require_hold_manager,
}
use dev_nepal.Contributions.Guards.{require_reason-cases}
use dev_nepal.Contributions.Steps.{require_hold_response-cases}
use dev_nepal.Contributions.History.{
  Act, verify_, revoke_, place_on_hold_, release_hold_, respond_to_hold_, scan_, act, run,
}
use dev_nepal.Contributions.Consistency.{IsConsistent, run-IsConsistent}

-- A Super Admin with a verified session
abbrev pub manages : Env → Actor → Bool
manages env actor = is_super_admin actor && has_privileged_session env.mfa_bypass actor

-- A reason that is neither blank nor too long
abbrev pub is_reason : Env → Text → Bool
is_reason env reason =
    not (is_nil (cleaned_text env reason))
    && not (ltb max_contribution_reason_length (length (cleaned_text env reason)))

require_reason_returns :
    (reason : Text) (env : Env) (s : Desk)
    → is_reason env reason ≡ true
    → require_reason reason env s ≡ (returns (cleaned_text env reason), s)
unfolding require_reason
require_reason_returns reason env s h = ground arith

require_hold_manager_returns :
    (actor : Actor) (op : Op) (env : Env) (s : Desk)
    → manages env actor ≡ true
    → require_hold_manager actor op env s ≡ (returns tt, s)
unfolding require_hold_manager require_privileged_mfa
require_hold_manager_returns actor op env s h = ground arith

released :
    (pmo : Actor) (reason : Text) (env : Env) (s : Desk)
    → IsConsistent s.row
    → s.row.hold_active ≡ true
    → manages env pmo ≡ true
    → is_reason env reason ≡ true
    → ((release_hold pmo reason env s).0 ≡ returns tt)
      × ((release_hold pmo reason env s).1.row.hold_active ≡ false)
      × (some (release_hold pmo reason env s).1.row.status ≡ s.row.held_from_status)
unfolding release_hold
released pmo reason env s c held may given =
    let old = c.held held in
    rw
      (
        require_reason_returns reason env s given,
        require_hold_manager_returns pmo Op.release_hold_denied env s may,
        held,
        old.from,
        old.unscored,
      )
      (refl, refl, refl)

-- After any history of calls on a consistent record, a Super Admin with a verified session and a
-- reason can release a hold that is active: `release_hold` returns, the record is no longer held,
-- and its status is the one at which the hold was placed.
pub release_hold_returns :
    (cs : List (Env × Act)) (s : Desk) (pmo : Actor) (reason : Text) (env : Env)
    → IsConsistent s.row
    → (run cs s).row.hold_active ≡ true
    → manages env pmo ≡ true
    → is_reason env reason ≡ true
    → ((release_hold pmo reason env (run cs s)).0 ≡ returns tt)
      × ((release_hold pmo reason env (run cs s)).1.row.hold_active ≡ false)
      × (some (release_hold pmo reason env (run cs s)).1.row.status
          ≡ (run cs s).row.held_from_status)
release_hold_returns cs s pmo reason env c held may given =
    released pmo reason env (run cs s) (run-IsConsistent cs s c) held may given

-- A refusal for the state of the record
abbrev pub is_transition_reply : Reply ContributionError (Unit {0}) → Bool
is_transition_reply (raises ContributionError.invalid_status_transition) = true
is_transition_reply (raises ContributionError.hold_response_already_recorded) = true
is_transition_reply _ = false

abbrev is_hold_call : Act → Bool
is_hold_call (place_on_hold_ _ _) = true
is_hold_call (release_hold_ _ _) = true
is_hold_call (respond_to_hold_ _ _) = true
is_hold_call _ = false

require_hold_manager-cases :
    (actor : Actor) (op : Op) (env : Env) (s : Desk)
    → (require_hold_manager actor op env s ≡ (returns tt, s))
      ⊎ ((s' : Desk) × (require_hold_manager actor op env s
            ≡ (raises ContributionError.unauthorized_hold_manager, s')))
unfolding require_hold_manager require_privileged_mfa
require_hold_manager-cases actor op env s =
    elim (Bool-cases (has_privileged_session env.mfa_bypass actor)) [
      | inr unverified ↦ elim (Bool-cases (is_super_admin actor)) [
        | inl admin ↦ inr ((require_hold_manager actor op env s).1, rw (admin, unverified) refl)
        | inr outsider ↦ inr ((require_hold_manager actor op env s).1, rw outsider refl)
      ]
      | inl verified ↦ elim (Bool-cases (is_super_admin actor)) [
        | inl admin ↦ inl (rw (admin, verified) refl)
        | inr outsider ↦ inr ((require_hold_manager actor op env s).1, rw outsider refl)
      ]
    ]

-- What a refusal of each kind leaves behind.
abbrev Lost : Reply ContributionError (Unit {0}) × Desk → Desk → Type 0
Lost r s = (is_transition_reply r.0 ≡ false) ⊎ (r.1 ≡ s)

place_on_hold-Lost :
    (pmo : Actor) (reason : Text) (env : Env) (s : Desk) → Lost (place_on_hold pmo reason env s) s
unfolding place_on_hold
place_on_hold-Lost pmo reason env s = elim (require_reason-cases reason env s) [
  | inl (e, q) ↦ rw q (inr refl)
  | inr (cleaned, given, q) ↦ elim (require_hold_manager-cases pmo Op.hold_denied env s) [
    | inr (s', g) ↦ rw (q, g) (inl refl)
    | inl g ↦ rw (q, g) (ground arith)
  ]
]

release_hold-Lost :
    (pmo : Actor) (reason : Text) (env : Env) (s : Desk) → Lost (release_hold pmo reason env s) s
unfolding release_hold
release_hold-Lost pmo reason env s = elim (require_reason-cases reason env s) [
  | inl (e, q) ↦ rw q (inr refl)
  | inr (cleaned, given, q) ↦ elim (require_hold_manager-cases pmo Op.release_hold_denied env s) [
    | inr (s', g) ↦ rw (q, g) (inl refl)
    | inl g ↦ rw (q, g) (ground arith)
  ]
]

respond_to_hold-Lost :
    (contributor : Actor) (text : Text) (env : Env) (s : Desk)
    → Lost (respond_to_hold contributor text env s) s
unfolding respond_to_hold
respond_to_hold-Lost contributor text env s = elim (require_hold_response-cases text env s) [
  | inl (e, q) ↦ rw q (inr refl)
  | inr (cleaned, given, q) ↦ rw q (ground arith)
]

hold_call-Lost : (c : Act) (env : Env) (s : Desk) → is_hold_call c ≡ true → Lost (act c env s) s
unfolding act
hold_call-Lost (place_on_hold_ pmo reason) env s _ = place_on_hold-Lost pmo reason env s
hold_call-Lost (release_hold_ pmo reason) env s _ = release_hold-Lost pmo reason env s
hold_call-Lost (respond_to_hold_ contributor text) env s _ =
    respond_to_hold-Lost contributor text env s
hold_call-Lost (verify_ _ _ _ _) env s h = absurd (ground (arith, h))
hold_call-Lost (revoke_ _ _) env s h = absurd (ground (arith, h))
hold_call-Lost (scan_ _) env s h = absurd (ground (arith, h))

-- When `place_on_hold`, `release_hold` or `respond_to_hold` raises because of the state of the record
-- (its status or hold does not allow the call, or the response is there already), the record and
-- the audit trail are as they were: the denial that the code writes just before it raises is rolled
-- back with the transaction it is written in.
pub refusals_are_lost :
    (c : Act) (env : Env) (s : Desk)
    → is_hold_call c ≡ true
    → is_transition_reply (act c env s).0 ≡ true
    → (act c env s).1 ≡ s
refusals_are_lost c env s h refused = elim (hold_call-Lost c env s h) [
  | inl other ↦ absurd (ground (arith, other, refused))
  | inr same ↦ same
]
