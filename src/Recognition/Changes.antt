-- ===== src/Recognition/Changes.antt =====
-- apps/recognition/services.py: what a correction does to scores, awards and holds, and how it is
-- undone.
use dev_nepal.Prelude.{
  ℕ, Bool, true, false, not, ◌&&◌, Option, none, some, is_none, is_nil, List, [], ◌∷◌, Text, all,
  find?, map, ◌==◌, if◌then◌else◌,
}
use dev_nepal.Accounts.{Actor}
use dev_nepal.Service.{Reply, returns, raises, fail, fail_if, choose, ◌>>◌, key_of}
use dev_nepal.Contributions.Data as Contributions
use dev_nepal.Contributions.Holds.{release_hold, place_on_hold}
use dev_nepal.Recognition.Data.{
  AwardStatus, Change, ContributionScore, Contribution, BadgeAward, ScoreRow, AwardRow, Snapshot,
  RecognitionError, Env, Ledger, Call,
}
use dev_nepal.Recognition.Snapshots.{is_in, is_for}

abbrev pub is_active : AwardStatus → Bool
is_active AwardStatus.active = true
is_active AwardStatus.revoked = false

-- A score that has been changed by `f`, if the contribution has this key.
abbrev pub with_score : (ContributionScore → ContributionScore) → ℕ → Contribution → Contribution
with_score f key e =
    if e.pk == key
    then record e { score = elim e.score [ none ↦ none | some score ↦ some (f score) ] }
    else e

abbrev pub reversed : Text → ℕ → ContributionScore → ContributionScore
reversed reason now score =
    if is_none score.reversed_at
    then record score { reversed_at = some now; reversal_reason = reason }
    else score

abbrev pub revoked_award : Actor → Text → ℕ → BadgeAward → BadgeAward
revoked_award actor reason now award = record award {
  status = AwardStatus.revoked;
  revocation_reason = reason;
  revoked_by = key_of actor;
  revoked_at = some now;
}

abbrev pub revoked_for : Actor → Text → ℕ → ℕ → BadgeAward → BadgeAward
revoked_for actor reason now key award =
    if is_for (key ∷ []) award.contribution && is_active award.status
    then revoked_award actor reason now award
    else award

-- `_reverse_score` of the score of a contribution.
unfoldable pub reverse_score : Actor → Text → ℕ → ℕ → Ledger → Ledger
reverse_score actor reason now key s = record s {
  entries = map (with_score (reversed reason now) key) s.entries;
  awards = map (revoked_for actor reason now key) s.awards;
}

abbrev pub reverse_scores : Actor → Text → ℕ → List ℕ → Ledger → Ledger
reverse_scores actor reason now [] s = s
reverse_scores actor reason now (key ∷ keys) s =
    reverse_scores actor reason now keys (reverse_score actor reason now key s)

abbrev pub set_points : ℕ → ℕ → Ledger → Ledger
set_points points key s = record s {
  entries = map (with_score (λ score. record score { points = points }) key) s.entries;
}

-- The changes of scores, of contributions with these keys.
unfoldable pub change_scores : Actor → Change → Text → ℕ → List ℕ → Ledger → Ledger
unfolding reverse_score
change_scores actor Change.release_held reason now keys s = s
change_scores actor Change.invalidate reason now keys s = reverse_scores actor reason now keys s
change_scores actor change reason now [] s = s
change_scores actor (Change.adjust_score points) reason now (key ∷ keys) s = set_points points key s
change_scores actor (Change.consolidate points) reason now (key ∷ keys) s =
    reverse_scores actor reason now keys (set_points points key s)

abbrev after_call :
    Contribution
    → List Contribution
    → Reply Contributions.ContributionError (Unit {0}) × Contributions.Desk
    → Option (List Contribution)
after_call e rest (returns _, desk) = some (record e { desk = desk } ∷ rest)
after_call e rest (raises _, _) = none

-- A call of apps/contributions on each of the contributions with these keys; one that raises ends all.
unfoldable pub call_each :
    Contributions.Call (Unit {0}) → Env → List ℕ → List Contribution → Option (List Contribution)
call_each call env keys [] = some []
call_each call env keys (e ∷ es) = elim (call_each call env keys es) [
  | none ↦ none
  | some rest ↦
      if is_in e.pk keys
      then after_call e rest (call (env.contributions e.pk) e.desk)
      else some (e ∷ rest)
]

-- The rows after a loop that writes each of them, or the error of the loop.
abbrev store_entries : RecognitionError → Option (List Contribution) → Call (Unit {0})
store_entries e none = fail e
store_entries e (some entries) = λ env s. (returns tt, record s { entries = entries })

abbrev hold_each : Contributions.Call (Unit {0}) → RecognitionError → List ℕ → Call (Unit {0})
hold_each call e keys env s = store_entries e (call_each call env keys s.entries) env s

abbrev is_unanswered_hold : Contribution → Bool
is_unanswered_hold e = e.desk.row.hold_active && is_nil e.desk.row.hold_response

abbrev pub has_active_score : Contribution → Bool
has_active_score e = elim e.score [ none ↦ false | some score ↦ is_none score.reversed_at ]

abbrev pub keys_of : List Contribution → List ℕ
keys_of entries = map (λ e. e.pk) entries

abbrev pub is_release : Change → Bool
is_release Change.release_held = true
is_release _ = false

abbrev change_ledger : (ℕ → Ledger → Ledger) → Call (Unit {0})
change_ledger f env s = (returns tt, f env.now s)

-- `_apply_correction_state`
unfoldable pub apply_correction_state : Actor → Change → Text → List Contribution → Call (Unit {0})
unfolding change_scores call_each
apply_correction_state actor change reason locked =
    choose (is_release change)
      (fail_if (not (all is_unanswered_hold locked)) RecognitionError.correction
        >> hold_each (release_hold actor reason) RecognitionError.correction (keys_of locked))
      (fail_if (not (all has_active_score locked)) RecognitionError.correction
        >> change_ledger (λ now. change_scores actor change reason now (keys_of locked)))

abbrev pub score_from : ContributionScore → Option ScoreRow → Option ContributionScore
score_from score none = none
score_from score (some row) = some (record score {
  points = row.points;
  reversed_at = row.reversed_at;
  reversal_reason = row.reversal_reason;
})

abbrev pub put_score : Contribution → Option ContributionScore → Option Contribution
put_score e none = none
put_score e (some score) = some (record e { score = some score })

abbrev pub entry_from :
    List ScoreRow → Contribution → Option ContributionScore → Option Contribution
entry_from rows e none = some e
entry_from rows e (some score) =
    put_score e (score_from score (find? (λ row. row.id == score.pk) rows))

abbrev pub restore_entry : List ScoreRow → Contribution → Option Contribution
restore_entry rows e = entry_from rows e e.score

abbrev pub award_from : BadgeAward → Option AwardRow → Option BadgeAward
award_from award none = none
award_from award (some row) = some (record award {
  status = row.status;
  revocation_reason = row.revocation_reason;
  revoked_by = row.revoked_by_id;
  revoked_at = row.revoked_at;
})

abbrev pub restore_award : List AwardRow → BadgeAward → Option BadgeAward
restore_award rows award = award_from award (find? (λ row. row.id == award.pk) rows)

abbrev pub push : {A : Type 0} → Option A → Option (List A) → Option (List A)
push none rows = none
push (some x) none = none
push (some x) (some rows) = some (x ∷ rows)

-- A loop that writes the rows that pass a test; a row that it refuses ends it.
abbrev pub write_each : {A : Type 0} → (A → Bool) → (A → Option A) → List A → Option (List A)
write_each test f [] = some []
write_each test f (x ∷ xs) = push (if test x then f x else some x) (write_each test f xs)

abbrev pub with_rows :
    Ledger → Option (List Contribution) → Option (List BadgeAward) → Option Ledger
with_rows s none awards = none
with_rows s (some entries) none = none
with_rows s (some entries) (some awards) = some (record s { entries = entries; awards = awards })

abbrev pub restore_rows : List ℕ → Snapshot → Ledger → Option Ledger
restore_rows keys before s =
    with_rows s (write_each (λ e. is_in e.pk keys) (restore_entry before.scores) s.entries)
      (write_each (λ award. is_for keys award.contribution) (restore_award before.awards) s.awards)

abbrev restore_scores : List ℕ → Snapshot → Call (Unit {0})
restore_scores keys before env s = elim (restore_rows keys before s) [
  | none ↦ (raises RecognitionError.correction_state_conflict, s)
  | some s' ↦ (returns tt, s')
]

-- `_restore_correction_state`
unfoldable pub restore_correction_state :
    Actor → Change → Text → Snapshot → List ℕ → Call (Unit {0})
unfolding call_each
restore_correction_state actor change reason before keys =
    choose (is_release change)
      (hold_each (place_on_hold actor reason) RecognitionError.correction_state_conflict keys)
      (restore_scores keys before)
