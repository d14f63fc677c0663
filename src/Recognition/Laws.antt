-- ===== src/Recognition/Laws.antt =====
-- Corrections of scores, their appeals, and what the appeals restore.
use dev_nepal.Prelude.{
  ℕ, ◌≡◌, refl, ap, ◌∙◌, true, false, Option, some, is_nil, List, Text, all, length, same_id, ◌==◌,
  ◌+◌, ◌≤◌, arith,
}
use dev_nepal.Accounts.{User, Actor}
use dev_nepal.Service.{returns, raises, key_of}
use dev_nepal.Recognition.Data.{
  CorrectionKind, CorrectionStatus, Change, RecognitionCorrection, Op, RecognitionError, Env,
  Ledger, record_audit, cleaned,
}
use dev_nepal.Recognition.Snapshots.{
  chosen, recognition_snapshot, same_snapshot, same_snapshot_refl,
}
use dev_nepal.Recognition.Changes.{keys_of, is_release, has_active_score, change_scores}
use dev_nepal.Recognition.Corrections.{
  correction_recipient, validate_correction_input, appeal_window, new_correction, apply_correction,
}
use dev_nepal.Recognition.Hearings.{
  Docket, is_appealed, is_outcome, is_recipient, with_appeal, with_decision, appeal_correction,
  settle_correction_appeal, resolve_correction_appeal,
}
use dev_nepal.Recognition.Agreement.{SameBut, change_scores-SameBut}
use dev_nepal.Recognition.Restoration.{restore_rows-recognition_snapshot}
use dev_nepal.Recognition.Lookups.{IsKeyed}
use dev_nepal.Recognition.Calls.{
  closed_appeal, is_recipient-decision, may_correct, outcome_is_not_applied,
  require_super_admin-returns, All-within, enact_correction-returns, appeal_correction-returns,
  resolve_correction_appeal-overturned, apply_correction-enacts, recognition_snapshot-rows,
  SameBut-rows,
}

-- A resolution of a correction that is not under appeal, by a Super Admin with a verified session who
-- did not apply it, with an outcome and a reason: the call raises, and the correction has the outcome
-- as its status, with the decision; no score and no award has changed. An appeal that its recipient
-- then files, with grounds, raises too.
pub resolution_without_appeal_stays :
    (actor member : Actor) (outcome : CorrectionStatus) (reason grounds : Text) (env env' : Env)
    (s : Docket)
    → may_correct env actor ≡ true
    → is_outcome outcome ≡ true
    → is_nil (cleaned env reason) ≡ false
    → same_id s.correction.applied_by (key_of actor) ≡ false
    → is_appealed s.correction.status ≡ false
    → is_recipient member s.correction ≡ true
    → is_nil (cleaned env' grounds) ≡ false
    → (s' : Docket) × ((resolve_correction_appeal actor outcome reason env s
          ≡ (raises RecognitionError.correction, s'))
        × (s'.correction ≡ with_decision actor outcome (cleaned env reason) env.now s.correction)
        × (s'.ledger.entries ≡ s.ledger.entries)
        × (s'.ledger.awards ≡ s.ledger.awards)
        × ((appeal_correction member grounds env' s').0 ≡ raises RecognitionError.correction))
unfolding resolve_correction_appeal settle_correction_appeal appeal_correction record_audit
resolution_without_appeal_stays actor member outcome reason grounds env env' s may out given other
      idle own why =
    rw (require_super_admin-returns actor Op.resolve_denied env s.ledger may) (
      simp (out, given, other, idle)
        (
          _,
          (
            refl,
            refl,
            refl,
            refl,
            closed_appeal member grounds env' _ why
                (is_recipient-decision member actor outcome (cleaned env reason) env.now
                    s.correction
                  ∙ own)
                (rw (outcome_is_not_applied outcome out) refl),
          ),
        ))

-- A correction of scores that fits its input, then an appeal by its recipient within fourteen days
-- and its resolution as overturned by another Super Admin, with nothing between them: each of the
-- three calls returns, the correction is overturned, and every contribution with its score and every
-- award is as it was before. The correction is no release of holds, its records are there and belong
-- to one active member, their scores are active, the primary keys of scores and awards are unique,
-- both Super Admins have verified sessions, and the grounds and the reason are given.
pub overturned_correction_restores :
    (actor judge : Actor) (member : User) (kind : CorrectionKind) (keys : List ℕ)
    (reason basis member_note grounds why : Text) (points : Option ℕ) (change : Change)
    (env env' env'' : Env) (s : Ledger)
    → IsKeyed s
    → may_correct env actor ≡ true
    → may_correct env'' judge ≡ true
    → same_id (key_of actor) (key_of judge) ≡ false
    → validate_correction_input kind keys
        (chosen keys s.entries)
        (cleaned env reason)
        (cleaned env basis)
        (cleaned env member_note)
        points
      ≡ some change
    → is_release change ≡ false
    → (length (chosen keys s.entries) == length keys) ≡ true
    → correction_recipient (chosen keys s.entries) ≡ some member.pk
    → member.is_active ≡ true
    → all has_active_score (chosen keys s.entries) ≡ true
    → env'.now ≤ env.now + appeal_window
    → is_nil (cleaned env' grounds) ≡ false
    → is_nil (cleaned env'' why) ≡ false
    → (c : RecognitionCorrection) × ((s1 : Ledger) × ((d2 : Docket) × ((d3 : Docket)
            × ((apply_correction actor kind keys reason basis member_note points env s
                  ≡ (returns c, s1))
                × (appeal_correction
                      (some member)
                      grounds
                      env'
                      (record { ledger = s1; correction = c })
                    ≡ (returns tt, d2))
                × (resolve_correction_appeal judge CorrectionStatus.overturned why env'' d2
                    ≡ (returns tt, d3))
                × (d3.correction.status ≡ CorrectionStatus.overturned)
                × (d3.ledger.entries ≡ s.entries)
                × (d3.ledger.awards ≡ s.awards)))))
overturned_correction_restores actor judge member kind keys reason basis member_note grounds why
      points change env env' env'' s keyed may judges other valid scores whole one alive active due
      given reasoned =
    let held = keys_of (chosen keys s.entries) in
    let (s1, (q1, entries1, awards1)) =
      enact_correction-returns actor keys change (cleaned env reason) (cleaned env basis)
        (cleaned env member_note) member.pk env s whole one scores active in
    let c =
      new_correction actor member.pk held change (cleaned env reason) (cleaned env basis)
        (cleaned env member_note) (recognition_snapshot held s) (recognition_snapshot held s1)
        env.now in
    let docket : Docket = record { ledger = s1; correction = c } in
    let (l2, (q2, entries2, awards2)) =
      appeal_correction-returns (some member) grounds env' docket given (rw alive (ground arith))
        (ground (arith, due)) in
    let same : SameBut held s s1 =
      SameBut-rows held s (change_scores actor change (cleaned env reason) env.now held s) s1
        (change_scores-SameBut actor change (cleaned env reason) env.now held held
          (All-within held held (λ key i. i)) s)
        entries1 awards1 in
    let restored =
      restore_rows-recognition_snapshot held s l2 keyed
        (SameBut-rows held s s1 l2 same entries2 awards2) in
    let unchanged =
      ap (λ now. same_snapshot now (recognition_snapshot held s1))
        (recognition_snapshot-rows held s1 l2 entries2 awards2)
      ∙ same_snapshot_refl (recognition_snapshot held s1) in
    let (d3, (q3, status, entries3, awards3)) =
      resolve_correction_appeal-overturned judge why env''
        (record { ledger = l2; correction = with_appeal (cleaned env' grounds) env'.now c })
        (record l2 { entries = s.entries; awards = s.awards }) judges reasoned other refl scores
        unchanged restored in
    (
      c,
      (
        s1,
        (
          _,
          (
            d3,
            (
              apply_correction-enacts actor kind keys reason basis member_note points change env s
                    may valid
                  ∙ q1,
              q2,
              q3,
              status,
              entries3,
              awards3,
            ),
          ),
        ),
      ),
    )
