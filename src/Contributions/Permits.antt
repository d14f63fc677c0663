-- ===== src/Contributions/Permits.antt =====
-- What a decision requires of its verifier, its evidence and its second approval.
use dev_nepal.Prelude.{
  ℕ, ◌≡◌, refl, sym, ◌∙◌, ◌∙◌, ◌⊎◌, inl, inr, Bool, true, false, not, ◌&&◌, ◌||◌, is_none, same_id,
  if◌then◌else◌, Option, some, none, Text, Bool-cases, any, arith,
}
use dev_nepal.Accounts.{Actor, has_privileged_session, is_publisher_active}
use dev_nepal.Service.{Reply, returns, raises, key_of}
use dev_nepal.Contributions.Data.{
  VerificationStatus, ContributionRecord, is_user, Env, Desk, require_privileged_mfa,
  ContributionError, is_accepted, is_revoked,
}
use dev_nepal.Contributions.Verification.{
  verify, save_decision, is_authorized_verifier, require_second_approval, is_valid_second_approver,
  is_decision, settle, is_own_work, lacks_scan,
}
use dev_nepal.Contributions.Guards.{
  require_reason-cases, is_authorized_verifier-Checks, is_valid_second_approver-Checks,
  require_second_approval-Checks,
}

-- Who may take a decision: an active maintainer of the project, or a Super Admin with a verified
-- session, who needs one even as a maintainer.
abbrev pub may_verify : Env → Actor → Bool
may_verify env none = false
may_verify env (some user) =
    user.is_active
    && (if user.is_superuser
        then has_privileged_session env.mfa_bypass (some user)
        else any (is_user user.pk) env.maintainers)

-- Who may approve the work that a verifier accepts as their own.
abbrev pub may_approve : Env → (verifier : Actor) → Actor → Bool
may_approve env verifier none = false
may_approve env verifier (some user) =
    user.is_active
    && not (same_id (some user.pk) (key_of verifier))
    && (user.is_superuser || is_publisher_active env.publishers (some user) env.ministry)
    && has_privileged_session env.mfa_bypass (some user)

abbrev pub raised : {A : Type 0} → Reply ContributionError A → Bool
raised (returns a) = false
raised (raises e) = true

abbrev answers : Reply ContributionError Bool → Bool
answers (returns b) = b
answers (raises e) = false

is_authorized_verifier-may_verify :
    (verifier : Actor) (env : Env) (s : Desk)
    → answers (is_authorized_verifier verifier env s).0 ≡ may_verify env verifier
unfolding is_authorized_verifier require_privileged_mfa
is_authorized_verifier-may_verify none env s = refl
is_authorized_verifier-may_verify (some user) env s = ground arith

is_valid_second_approver-may_approve :
    (second verifier : Actor) (env : Env) (s : Desk)
    → answers (is_valid_second_approver second verifier env s).0 ≡ may_approve env verifier second
unfolding is_valid_second_approver require_privileged_mfa
is_valid_second_approver-may_approve none verifier env s = refl
is_valid_second_approver-may_approve (some user) verifier env s = ground arith

-- The second approval that a decision on one's own work needs.
abbrev pub has_approval : Env → (verifier second : Actor) → ContributionRecord → Bool
has_approval env verifier second row =
    not (is_own_work verifier row) || may_approve env verifier second

require_second_approval-raised :
    (verifier : Actor) (decision : VerificationStatus) (second : Actor) (env : Env) (s : Desk)
    → (raised (require_second_approval verifier decision second env s).0 ≡ true)
      ⊎ (has_approval env verifier second s.row ≡ true)
unfolding require_second_approval
require_second_approval-raised verifier decision second env s =
    elim (Bool-cases (is_own_work verifier s.row)) [
      | inr foreign ↦ inr (rw foreign refl)
      | inl own ↦ elim (Bool-cases (is_none second)) [
        | inl alone ↦ rw (own, alone) (inl refl)
        | inr given ↦
            let valid = is_valid_second_approver-may_approve second verifier env s in
            elim (is_valid_second_approver-Checks second verifier env s) [
              | inl (true, q) ↦ inr (rw (own, sym valid, q) refl)
              | inl (false, q) ↦ rw (own, given, q) (inl refl)
              | inr (e, s', q, same) ↦ rw (own, given, q) (inl refl)
            ]
      ]
    ]

save_decision-raised :
    (verifier : Actor) (decision : VerificationStatus) (reason : Text) (second : Option ℕ)
    (env : Env) (s : Desk)
    → (raised (save_decision verifier decision reason second env s).0 ≡ true)
      ⊎ ((save_decision verifier decision reason second env s).1.row.status ≡ decision)
unfolding save_decision
save_decision-raised verifier decision reason second env s = ground arith

settle-raised :
    (verifier : Actor) (decision : VerificationStatus) (reason : Text) (second : Actor) (env : Env)
    (s : Desk)
    → (raised (settle verifier decision reason second env s).0 ≡ true)
      ⊎ (lacks_scan decision s.row ≡ false)
        × (has_approval env verifier second s.row ≡ true)
        × (s.row.hold_active ≡ false)
        × ((settle verifier decision reason second env s).1.row.status ≡ decision)
unfolding settle
settle-raised verifier decision reason second env s =
    elim (Bool-cases (
      is_revoked s.row.status
      || s.row.hold_active
      || lacks_scan decision s.row
      || is_accepted s.row.status)) [
        | inl out ↦ inl (ground arith)
        | inr may ↦ elim (require_second_approval-raised verifier decision second env s) [
          | inl r ↦ elim (require_second_approval-Checks verifier decision second env s) [
            | inl (o, q) ↦ absurd (ground (arith, rw q at r))
            | inr (e, s', q, same) ↦ inl (ground (arith, q))
          ]
          | inr approved ↦ elim (require_second_approval-Checks verifier decision second env s) [
            | inl (o, q) ↦
                ground (arith, q, approved, save_decision-raised verifier decision reason o env s)
            | inr (e, s', q, same) ↦ inl (ground (arith, q))
          ]
        ]
      ]

verify-raised :
    (verifier : Actor) (decision : VerificationStatus) (reason : Text) (second : Actor) (env : Env)
    (s : Desk)
    → (raised (verify verifier decision reason second env s).0 ≡ true)
      ⊎ (may_verify env verifier ≡ true)
        × (lacks_scan decision s.row ≡ false)
        × (has_approval env verifier second s.row ≡ true)
        × (s.row.hold_active ≡ false)
        × ((verify verifier decision reason second env s).1.row.status ≡ decision)
unfolding verify
verify-raised verifier decision reason second env s = elim (require_reason-cases reason env s) [
  | inl (e, q) ↦ rw q (inl refl)
  | inr (cleaned, _, q) ↦ elim (Bool-cases (is_decision decision)) [
    | inr other ↦ rw (q, other) (inl refl)
    | inl decides ↦
        let may = is_authorized_verifier-may_verify verifier env s in
        elim (is_authorized_verifier-Checks verifier env s) [
          | inr (e, s', a, same) ↦ rw (q, decides, a) (inl refl)
          | inl (false, a) ↦ rw (q, decides, a) (inl refl)
          | inl (true, a) ↦ elim (settle-raised verifier decision cleaned second env s) [
            | inl r ↦ inl (rw (q, decides, a) r)
            | inr (scanned, approved, free, to) ↦
                inr (sym may ∙ (rw a refl), scanned, approved, free, rw (q, decides, a) to)
          ]
        ]
  ]
]

-- When `verify` returns: the verifier is an active maintainer of the project, or an active Super
-- Admin with a verified session; a record whose file awaits its scan, or failed it, is not accepted;
-- and a decision on the verifier's own work, unless it comes from the provider, has the approval of
-- another active Super Admin or publisher of the ministry with a verified session. The record was
-- not on hold, and has the status that was decided.
pub verify_requires :
    (verifier : Actor) (decision : VerificationStatus) (reason : Text) (second : Actor) (env : Env)
    (s : Desk)
    → raised (verify verifier decision reason second env s).0 ≡ false
    → (may_verify env verifier ≡ true)
      × (lacks_scan decision s.row ≡ false)
      × (has_approval env verifier second s.row ≡ true)
      × (s.row.hold_active ≡ false)
      × ((verify verifier decision reason second env s).1.row.status ≡ decision)
verify_requires verifier decision reason second env s done =
    elim (verify-raised verifier decision reason second env s) [
      | inl r ↦ absurd (ground (arith, r, done))
      | inr permitted ↦ permitted
    ]
