-- ===== src/Recognition/Restoration.antt =====
-- Restoration from the snapshot before a correction.
use dev_nepal.Prelude.{
  ℕ, ◌≡◌, refl, sym, ap, ◌∙◌, inl, inr, true, Option, none, some, List, find?, filter, map, ◌==◌,
  Bool-cases,
}
use dev_nepal.Recognition.Data.{
  ContributionScore, Contribution, BadgeAward, ScoreRow, AwardRow, Ledger,
}
use dev_nepal.Recognition.Snapshots.{
  is_in, is_for, chosen, score_rows, award_row, recognition_snapshot,
}
use dev_nepal.Recognition.Changes.{
  score_from, put_score, entry_from, award_from, restore_entry, restore_award, write_each,
  with_rows, restore_rows,
}
use dev_nepal.Recognition.Agreement.{blank, blank_score, blank_award, erase, erase_award, SameBut}
use dev_nepal.Recognition.Lookups.{
  write_each-map, write_each-keeps, All-implies, IsFoundBy, IsKeyed, erase-other, erase-pk,
  erase_award-contribution, erase_award-other, find-award_rows, find-score_rows,
}

put_score-blank :
    (e : Contribution) (score : ContributionScore) (before : Option ContributionScore)
    (row : Option ScoreRow)
    → put_score (record e { score = before }) (score_from (blank score) row)
      ≡ put_score (record e { score = some score }) (score_from score row)
put_score-blank e score before none = refl
put_score-blank e score before (some row) = refl

entry_from-blank :
    (rows : List ScoreRow) (e : Contribution) (score : Option ContributionScore)
    → entry_from rows (record e { score = blank_score score }) (blank_score score)
      ≡ entry_from rows (record e { score = score }) score
entry_from-blank rows e none = refl
entry_from-blank rows e (some score) =
    put_score-blank e score (some (blank score)) (find? (λ row. row.id == score.pk) rows)

restore_entry-erase :
    (rows : List ScoreRow) (keys : List ℕ) (e : Contribution)
    → restore_entry rows (erase keys e) ≡ restore_entry rows e
restore_entry-erase rows keys e = elim (Bool-cases (is_in e.pk keys)) [
  | inr q ↦ rw q refl
  | inl q ↦ rw q (entry_from-blank rows e e.score)
]

award_from-blank :
    (award : BadgeAward) (row : Option AwardRow)
    → award_from (blank_award award) row ≡ award_from award row
award_from-blank award none = refl
award_from-blank award (some row) = refl

restore_award-erase :
    (rows : List AwardRow) (keys : List ℕ) (award : BadgeAward)
    → restore_award rows (erase_award keys award) ≡ restore_award rows award
restore_award-erase rows keys award = elim (Bool-cases (is_for keys award.contribution)) [
  | inr q ↦ rw q refl
  | inl q ↦ rw q (award_from-blank award (find? (λ row. row.id == award.pk) rows))
]

entry_from-keeps :
    (keys : List ℕ) (entries : List Contribution) (e : Contribution)
    (score : Option ContributionScore)
    → IsFoundBy entries (record e { score = score }) score
    → is_in e.pk keys ≡ true
    → entry_from (score_rows (chosen keys entries)) (record e { score = score }) score
      ≡ some (record e { score = score })
entry_from-keeps keys entries e none found kept = refl
entry_from-keeps keys entries e (some score) found kept =
    ap (λ row. put_score (record e { score = some score }) (score_from score row))
      (find-score_rows score.pk keys entries (record e { score = some score }) score found refl
        kept)

restored_entries :
    (keys : List ℕ) (s s' : Ledger)
    → IsKeyed s
    → SameBut keys s s'
    → write_each
        (λ e. is_in e.pk keys)
        (restore_entry (score_rows (chosen keys s.entries)))
        s'.entries
      ≡ some s.entries
restored_entries keys s s' keyed (same, _) =
    let test = λ (e : Contribution). is_in e.pk keys in
    let f = restore_entry (score_rows (chosen keys s.entries)) in
    let erased : (es : List Contribution)
        → write_each test f (map (erase keys) es) ≡ write_each test f es =
      write_each-map test f (erase keys) (erase-pk keys)
        (restore_entry-erase (score_rows (chosen keys s.entries)) keys) (erase-other keys) in
    sym (erased s'.entries)
    ∙ ap (write_each test f) same
    ∙ erased s.entries
    ∙ write_each-keeps test f s.entries (
        All-implies (λ e found kept. entry_from-keeps keys s.entries e e.score found kept) s.entries
          keyed.scores)

restored_awards :
    (keys : List ℕ) (s s' : Ledger)
    → IsKeyed s
    → SameBut keys s s'
    → write_each
        (λ award. is_for keys award.contribution)
        (restore_award (map award_row (filter (λ a. is_for keys a.contribution) s.awards)))
        s'.awards
      ≡ some s.awards
restored_awards keys s s' keyed (_, same) =
    let rows = map award_row (filter (λ a. is_for keys a.contribution) s.awards) in
    let test = λ (award : BadgeAward). is_for keys award.contribution in
    let erased : (xs : List BadgeAward)
        → write_each test (restore_award rows) (map (erase_award keys) xs)
          ≡ write_each test (restore_award rows) xs =
      write_each-map test (restore_award rows) (erase_award keys) (erase_award-contribution keys)
        (restore_award-erase rows keys) (erase_award-other keys) in
    sym (erased s'.awards)
    ∙ ap (write_each test (restore_award rows)) same
    ∙ erased s.awards
    ∙ write_each-keeps test (restore_award rows) s.awards (
        All-implies
          (λ award found kept.
            ap (award_from award) (find-award_rows award.pk keys s.awards award found kept))
          s.awards keyed.awards)

-- On a ledger that agrees with the one of the snapshot, but for the scores and awards of the
-- contributions of the correction, restoration succeeds and gives back all scores and awards.
pub restore_rows-recognition_snapshot :
    (keys : List ℕ) (s s' : Ledger)
    → IsKeyed s
    → SameBut keys s s'
    → restore_rows keys (recognition_snapshot keys s) s'
      ≡ some (record s' { entries = s.entries; awards = s.awards })
unfolding recognition_snapshot
restore_rows-recognition_snapshot keys s s' keyed same =
    let awards =
      write_each (λ award. is_for keys award.contribution)
        (restore_award (map award_row (filter (λ a. is_for keys a.contribution) s.awards)))
        s'.awards in
    ap (λ entries. with_rows s' entries awards) (restored_entries keys s s' keyed same)
    ∙ ap (with_rows s' (some s.entries)) (restored_awards keys s s' keyed same)
