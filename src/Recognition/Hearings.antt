-- ===== src/Recognition/Hearings.antt =====
-- apps/recognition/services.py: appeals against a correction, and their resolution.
use dev_nepal.Prelude.{
  ℕ, Bool, true, false, not, ◌&&◌, none, some, is_nil, Text, same_id, ◌==◌, ltb,
}
use dev_nepal.Accounts.{Actor}
use dev_nepal.Service.{
  Service, Reply, returns, reply, fail, fail_if, read, look, choose, transaction, ◌>>=◌, ◌>>◌,
  key_of,
}
use dev_nepal.Recognition.Data.{
  CorrectionStatus, RecognitionCorrection, Op, Payload, RecognitionError, Env, Ledger, Call,
  record_audit, refuse, require_super_admin, cleaned,
}
use dev_nepal.Recognition.Snapshots.{recognition_snapshot, same_snapshot}
use dev_nepal.Recognition.Changes.{restore_correction_state}

-- A correction with the rows that it is about.
pub record Docket : Type 0 where
  pub ledger : Ledger
  pub correction : RecognitionCorrection

abbrev pub Hearing : Type 0 → Type 0
Hearing A = Service Env Docket RecognitionError A

abbrev pub with_ledger :
    {A : Type 0}
    → RecognitionCorrection
    → Reply RecognitionError A × Ledger
    → Reply RecognitionError A × Docket
with_ledger correction (r, ledger) = (r, record { ledger = ledger; correction = correction })

abbrev pub on_ledger : {A : Type 0} → Call A → Hearing A
on_ledger call env s = with_ledger s.correction (call env s.ledger)

abbrev pub update_correction : (RecognitionCorrection → RecognitionCorrection) → Hearing (Unit {0})
update_correction f env s = (returns tt, record s { correction = f s.correction })

abbrev pub is_applied : CorrectionStatus → Bool
is_applied CorrectionStatus.applied = true
is_applied _ = false

abbrev pub is_appealed : CorrectionStatus → Bool
is_appealed CorrectionStatus.appealed = true
is_appealed _ = false

abbrev pub is_overturned : CorrectionStatus → Bool
is_overturned CorrectionStatus.overturned = true
is_overturned _ = false

abbrev pub is_outcome : CorrectionStatus → Bool
is_outcome CorrectionStatus.upheld = true
is_outcome CorrectionStatus.overturned = true
is_outcome _ = false

-- The active account of the recipient
abbrev pub is_recipient : Actor → RecognitionCorrection → Bool
is_recipient none correction = false
is_recipient (some user) correction = user.is_active && correction.recipient == user.pk

abbrev pub is_open : ℕ → RecognitionCorrection → Bool
is_open now correction = is_applied correction.status && not (ltb correction.appeal_due_at now)

abbrev pub with_appeal : Text → ℕ → RecognitionCorrection → RecognitionCorrection
with_appeal grounds now correction = record correction {
  appeal_text = grounds;
  appealed_at = some now;
  status = CorrectionStatus.appealed;
}

unfoldable pub appeal_correction : (member : Actor) → (grounds : Text) → Hearing (Unit {0})
unfolding record_audit
appeal_correction member grounds = do
  clean ← look cleaned
  fail_if (is_nil (clean grounds)) RecognitionError.correction
  correction ← read (λ s. s.correction)
  choose (is_recipient member correction) (reply tt) (
      on_ledger
        (refuse member Op.appeal_denied Payload.nothing RecognitionError.correction_authorization))
  now ← look (λ env. env.now)
  choose (is_open now correction) (reply tt) (
      on_ledger (
        refuse member Op.appeal_denied
          (Payload.status_due correction.status correction.appeal_due_at)
          RecognitionError.correction))
  transaction do
    update_correction (with_appeal (clean grounds) now)
    on_ledger (
        record_audit member Op.appealed (Payload.status_payload CorrectionStatus.applied)
          (Payload.status_text CorrectionStatus.appealed (clean grounds)))

-- How the transaction of `resolve_correction_appeal` ends: the flags `no_pending_appeal`, `conflict`.
pub data Ending : Type 0 where
  settled no_pending_appeal conflict : Ending

abbrev pub with_decision :
    Actor → CorrectionStatus → Text → ℕ → RecognitionCorrection → RecognitionCorrection
with_decision actor outcome reason now correction = record correction {
  status = outcome;
  appeal_decided_by = key_of actor;
  appeal_decided_at = some now;
  appeal_decision_reason = reason;
}

-- The save and the audit event under `if not conflict`.
abbrev pub save_decision : Actor → CorrectionStatus → Text → Hearing (Unit {0})
save_decision actor outcome reason = do
  now ← look (λ env. env.now)
  update_correction (with_decision actor outcome reason now)
  on_ledger (
      record_audit actor (Op.resolved outcome) (Payload.status_payload CorrectionStatus.appealed)
        (Payload.status_text outcome reason))

abbrev pub restore_unless_changed : Actor → RecognitionCorrection → Hearing Ending
restore_unless_changed actor correction = do
  current ← read (λ s. recognition_snapshot correction.contributions s.ledger)
  choose (same_snapshot current correction.after_snapshot)
      (on_ledger (
          restore_correction_state actor correction.change correction.reason
            correction.before_snapshot correction.contributions)
        >> reply Ending.settled)
      (reply Ending.conflict)

abbrev pub save_unless_conflict : Actor → CorrectionStatus → Text → Ending → Hearing Ending
save_unless_conflict actor outcome reason Ending.conflict = reply Ending.conflict
save_unless_conflict actor outcome reason ending =
    save_decision actor outcome reason >> reply ending

-- The transaction of `resolve_correction_appeal`.
unfoldable pub settle_correction_appeal : Actor → CorrectionStatus → Text → Hearing Ending
unfolding record_audit
settle_correction_appeal actor outcome reason = transaction do
  locked ← read (λ s. s.correction)
  ending ←
      choose (not (is_appealed locked.status)) (reply Ending.no_pending_appeal) (
        choose (is_overturned outcome) (restore_unless_changed actor locked) (reply Ending.settled))
  save_unless_conflict actor outcome reason ending

abbrev pub close : Actor → Ending → Hearing (Unit {0})
close actor Ending.settled = reply tt
close actor Ending.no_pending_appeal = fail RecognitionError.correction
close actor Ending.conflict =
    on_ledger
      (refuse actor Op.restore_denied Payload.nothing RecognitionError.correction_state_conflict)

unfoldable pub resolve_correction_appeal :
    (actor : Actor) → (outcome : CorrectionStatus) → (reason : Text) → Hearing (Unit {0})
resolve_correction_appeal actor outcome reason = do
  on_ledger (require_super_admin actor Op.resolve_denied)
  clean ← look cleaned
  fail_if (not (is_outcome outcome)) RecognitionError.correction
  fail_if (is_nil (clean reason)) RecognitionError.correction
  correction ← read (λ s. s.correction)
  choose (same_id correction.applied_by (key_of actor))
      (on_ledger
        (refuse actor Op.resolve_denied Payload.nothing RecognitionError.correction_authorization))
      (reply tt)
  ending ← settle_correction_appeal actor outcome (clean reason)
  close actor ending
