-- ===== src/Contributions/Laws.antt =====
-- The diagram of statuses over the calls on a record.
use dev_nepal.Prelude.{◌≡◌, refl, ◌⊎◌, inl, inr, true, false, Bool-cases, arith}
use dev_nepal.Contributions.Data.{
  VerificationStatus, ContributionRecord, Env, Desk, is_accepted, is_revoked,
}
use dev_nepal.Contributions.Verification.{is_decision}
use dev_nepal.Contributions.Steps.{
  verify-row, revoke-row, scan-row, place_on_hold-row, release_hold-row, respond_to_hold-row,
}
use dev_nepal.Contributions.History.{
  Act, verify_, revoke_, place_on_hold_, release_hold_, respond_to_hold_, scan_, act, IsOpen,
  candidate_is_open, pending_is_open, rejected_is_open, ◌⟶◌, accepts, rejects, asks, revokes,
}
use dev_nepal.Contributions.Consistency.{IsConsistent}

standing-IsOpen : (a : VerificationStatus) → is_accepted a ≡ false → is_revoked a ≡ false → IsOpen a
standing-IsOpen VerificationStatus.candidate _ _ = candidate_is_open
standing-IsOpen VerificationStatus.pending_info _ _ = pending_is_open
standing-IsOpen VerificationStatus.rejected _ _ = rejected_is_open
standing-IsOpen VerificationStatus.accepted h _ = absurd (ground (arith, h))
standing-IsOpen VerificationStatus.revoked _ h = absurd (ground (arith, h))

decides-⟶ : (a b : VerificationStatus) → is_decision b ≡ true → IsOpen a → a ⟶ b
decides-⟶ a VerificationStatus.accepted _ o = accepts o
decides-⟶ a VerificationStatus.rejected _ o = rejects o
decides-⟶ a VerificationStatus.pending_info _ o = asks o
decides-⟶ a VerificationStatus.candidate h _ = absurd (ground (arith, h))
decides-⟶ a VerificationStatus.revoked h _ = absurd (ground (arith, h))

accepted_is_free :
    (r : ContributionRecord)
    → IsConsistent r
    → r.status ≡ VerificationStatus.accepted
    → r.hold_active ≡ false
accepted_is_free r c before = elim (Bool-cases r.hold_active) [
  | inr free ↦ free
  | inl held ↦ let old = c.held held in absurd (ground (arith, before, old.unscored))
]

-- Whatever call is made on a consistent record, and whether it returns or raises, the status stays
-- what it is, or the record is not held and its status moves along the diagram: a candidate, a
-- record about which information was asked and a rejected one are accepted, rejected or asked
-- about, and an accepted one is revoked, and nothing else.
pub act-⟶ :
    (c : Act) (env : Env) (s : Desk)
    → IsConsistent s.row
    → ((act c env s).1.row.status ≡ s.row.status)
      ⊎ (s.row.hold_active ≡ false) × (s.row.status ⟶ (act c env s).1.row.status)
unfolding act
act-⟶ (verify_ verifier decision reason second) env s c =
    elim (verify-row verifier decision reason second env s) [
      | inl same ↦ rw same (inl refl)
      | inr ((to, _), decides, free, standing, kept) ↦ inr (
        free,
        rw to
            (decides-⟶ s.row.status decision decides (standing-IsOpen s.row.status standing kept)),
      )
    ]
act-⟶ (revoke_ super_admin reason) env s c = elim (revoke-row super_admin reason env s) [
  | inl same ↦ rw same (inl refl)
  | inr (to, before, _) ↦ inr (accepted_is_free s.row c before, rw (to, before) revokes)
]
act-⟶ (place_on_hold_ pmo reason) env s c = elim (place_on_hold-row pmo reason env s) [
  | inl same ↦ rw same (inl refl)
  | inr (cleaned, (placed, _, _, _, _)) ↦ rw placed (inl refl)
]
act-⟶ (release_hold_ pmo reason) env s c = elim (release_hold-row pmo reason env s) [
  | inl same ↦ rw same (inl refl)
  | inr (cleaned, released, _) ↦ rw released (inl refl)
]
act-⟶ (respond_to_hold_ contributor text) env s c =
    elim (respond_to_hold-row contributor text env s) [
      | inl same ↦ rw same (inl refl)
      | inr (cleaned, (written, _, _, _, _)) ↦ rw written (inl refl)
    ]
act-⟶ (scan_ scan_status) env s c = let (stays, _) = scan-row scan_status env s in inl stays
