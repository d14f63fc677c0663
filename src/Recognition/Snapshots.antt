-- ===== src/Recognition/Snapshots.antt =====
-- apps/recognition/services.py: the snapshot of a correction, and its comparison.
use dev_nepal.Prelude.{
  ℕ, Bool, true, false, not, ◌&&◌, Option, none, some, List, [], ◌∷◌, text_eq, text_eq_refl, any,
  map, filter, same_id, ◌==◌, ◌≡◌, refl, arith,
}
use dev_nepal.Contributions.Data as Contributions
use dev_nepal.Recognition.Data.{
  AwardStatus, ContributionScore, Contribution, BadgeAward, RecordRow, ScoreRow, AwardRow, Snapshot,
  Ledger,
}

abbrev pub is_in : ℕ → List ℕ → Bool
is_in key keys = any (λ k. key == k) keys

abbrev same_flag : Bool → Bool → Bool
same_flag true b = b
same_flag false b = not b

abbrev status_code : Contributions.VerificationStatus → ℕ
status_code Contributions.VerificationStatus.candidate = 0
status_code Contributions.VerificationStatus.pending_info = 1
status_code Contributions.VerificationStatus.accepted = 2
status_code Contributions.VerificationStatus.rejected = 3
status_code Contributions.VerificationStatus.revoked = 4

abbrev same_list : {A : Type 0} → (A → A → Bool) → List A → List A → Bool
same_list eq [] [] = true
same_list eq (x ∷ xs) (y ∷ ys) = eq x y && same_list eq xs ys
same_list eq _ _ = false

same_list_refl :
    {A : Type 0}
    → (eq : A → A → Bool) → ((x : A) → eq x x ≡ true)
    → (xs : List A) → same_list eq xs xs ≡ true
same_list_refl eq h [] = refl
same_list_refl eq h (x ∷ xs) = ground (arith, h x, same_list_refl eq h xs)

-- The rows whose keys are in a list.
abbrev pub chosen : List ℕ → List Contribution → List Contribution
chosen keys entries = filter (λ e. is_in e.pk keys) entries

abbrev pub is_for : List ℕ → Option ℕ → Bool
is_for keys none = false
is_for keys (some key) = is_in key keys

abbrev pub record_row : Contribution → RecordRow
record_row e = record {
  id = e.pk;
  hold_active = e.desk.row.hold_active;
  held_from_status = e.desk.row.held_from_status;
}

abbrev pub score_row : ℕ → ContributionScore → ScoreRow
score_row key score = record {
  id = score.pk;
  contribution_id = key;
  points = score.points;
  reversed_at = score.reversed_at;
  reversal_reason = score.reversal_reason;
}

abbrev pub award_row : BadgeAward → AwardRow
award_row award = record {
  id = award.pk;
  contribution_id = award.contribution;
  status = award.status;
  revocation_reason = award.revocation_reason;
  revoked_by_id = award.revoked_by;
  revoked_at = award.revoked_at;
}

abbrev pub score_rows : List Contribution → List ScoreRow
score_rows [] = []
score_rows (e ∷ es) =
    let rest = score_rows es in
    elim e.score [ none ↦ rest | some score ↦ score_row e.pk score ∷ rest ]

-- `_recognition_snapshot` of the contributions with these keys.
unfoldable pub recognition_snapshot : List ℕ → Ledger → Snapshot
recognition_snapshot keys s = record {
  records = map record_row (chosen keys s.entries);
  scores = score_rows (chosen keys s.entries);
  awards = map award_row (filter (λ award. is_for keys award.contribution) s.awards);
}

abbrev same_status :
    Option Contributions.VerificationStatus → Option Contributions.VerificationStatus → Bool
same_status none none = true
same_status (some a) (some b) = status_code a == status_code b
same_status _ _ = false

abbrev same_record : RecordRow → RecordRow → Bool
same_record a b =
    a.id == b.id
    && same_flag a.hold_active b.hold_active
    && same_status a.held_from_status b.held_from_status

abbrev same_score : ScoreRow → ScoreRow → Bool
same_score a b =
    a.id == b.id
    && a.contribution_id == b.contribution_id
    && a.points == b.points
    && same_id a.reversed_at b.reversed_at
    && text_eq a.reversal_reason b.reversal_reason

abbrev same_award_status : AwardStatus → AwardStatus → Bool
same_award_status AwardStatus.active AwardStatus.active = true
same_award_status AwardStatus.revoked AwardStatus.revoked = true
same_award_status _ _ = false

abbrev same_award : AwardRow → AwardRow → Bool
same_award a b =
    a.id == b.id
    && same_id a.contribution_id b.contribution_id
    && same_award_status a.status b.status
    && text_eq a.revocation_reason b.revocation_reason
    && same_id a.revoked_by_id b.revoked_by_id
    && same_id a.revoked_at b.revoked_at

-- `==` of two snapshots
unfoldable pub same_snapshot : Snapshot → Snapshot → Bool
same_snapshot a b =
    same_list same_record a.records b.records
    && same_list same_score a.scores b.scores
    && same_list same_award a.awards b.awards

same_id_refl : (a : Option ℕ) → same_id a a ≡ true
same_id_refl none = refl
same_id_refl (some a) = ground arith

same_record_refl : (a : RecordRow) → same_record a a ≡ true
same_record_refl a = ground arith

same_score_refl : (a : ScoreRow) → same_score a a ≡ true
same_score_refl a = ground (arith, text_eq_refl a.reversal_reason, same_id_refl a.reversed_at)

same_award_status_refl : (a : AwardStatus) → same_award_status a a ≡ true
same_award_status_refl AwardStatus.active = refl
same_award_status_refl AwardStatus.revoked = refl

same_award_refl : (a : AwardRow) → same_award a a ≡ true
same_award_refl a =
    rw
      (
        same_award_status_refl a.status,
        text_eq_refl a.revocation_reason,
        same_id_refl a.contribution_id,
        same_id_refl a.revoked_by_id,
        same_id_refl a.revoked_at,
      )
      (ground arith)

pub same_snapshot_refl : (a : Snapshot) → same_snapshot a a ≡ true
unfolding same_snapshot
same_snapshot_refl a =
    rw
      (
        same_list_refl same_record same_record_refl a.records,
        same_list_refl same_score same_score_refl a.scores,
        same_list_refl same_award same_award_refl a.awards,
      )
      refl
