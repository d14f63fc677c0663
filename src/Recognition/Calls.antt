-- ===== src/Recognition/Calls.antt =====
-- Calls on corrections that take effect.
use dev_nepal.Prelude.{
  ℕ, ◌≡◌, refl, Bool, true, false, ◌&&◌, Option, none, some, is_nil, List, [], ◌∷◌, Text, all, All,
  length, same_id, ◌==◌, arith,
}
use dev_nepal.Accounts.{Actor, is_super_admin, has_privileged_session}
use dev_nepal.Service.{returns, raises, key_of}
use dev_nepal.Recognition.Data.{
  CorrectionKind, CorrectionStatus, Change, RecognitionCorrection, Op, RecognitionError, Env,
  Ledger, record_audit, require_super_admin, cleaned,
}
use dev_nepal.Recognition.Snapshots.{is_in, chosen, recognition_snapshot, same_snapshot}
use dev_nepal.Recognition.Changes.{
  keys_of, is_release, has_active_score, change_scores, apply_correction_state, restore_rows,
  restore_correction_state,
}
use dev_nepal.Recognition.Corrections.{
  correction_recipient, validate_correction_input, new_correction, enact_correction,
  apply_correction,
}
use dev_nepal.Recognition.Hearings.{
  Docket, is_applied, is_appealed, is_outcome, is_recipient, is_open, with_appeal, with_decision,
  appeal_correction, settle_correction_appeal, resolve_correction_appeal,
}
use dev_nepal.Recognition.Agreement.{SameBut}

-- A Super Admin with a verified session
abbrev pub may_correct : Env → Actor → Bool
may_correct env actor = is_super_admin actor && has_privileged_session env.mfa_bypass actor

pub require_super_admin-returns :
    (actor : Actor) (op : Op) (env : Env) (s : Ledger)
    → may_correct env actor ≡ true
    → require_super_admin actor op env s ≡ (returns tt, s)
unfolding require_super_admin
require_super_admin-returns actor op env s h = ground arith

pub is_recipient-decision :
    (member actor : Actor) (outcome : CorrectionStatus) (reason : Text) (now : ℕ)
    (c : RecognitionCorrection)
    → is_recipient member (with_decision actor outcome reason now c) ≡ is_recipient member c
is_recipient-decision none actor outcome reason now c = refl
is_recipient-decision (some user) actor outcome reason now c = refl

pub outcome_is_not_applied :
    (outcome : CorrectionStatus) → is_outcome outcome ≡ true → is_applied outcome ≡ false
outcome_is_not_applied outcome h = ground (arith, h)

pub closed_appeal :
    (member : Actor) (grounds : Text) (env : Env) (s : Docket)
    → is_nil (cleaned env grounds) ≡ false
    → is_recipient member s.correction ≡ true
    → is_open env.now s.correction ≡ false
    → (appeal_correction member grounds env s).0 ≡ raises RecognitionError.correction
unfolding appeal_correction
closed_appeal member grounds env s given own closed = simp (given, own, closed) refl

pub All-within :
    (keys others : List ℕ)
    → ((key : ℕ) → is_in key keys ≡ true → is_in key others ≡ true)
    → All (λ key. is_in key others ≡ true) keys
All-within [] others h = tt
All-within (key ∷ keys) others h =
    (h key (ground arith), All-within keys others (λ other i. h other (ground (arith, i))))

pub enact_correction-returns :
    (actor : Actor) (keys : List ℕ) (change : Change) (reason basis member_note : Text)
    (recipient : ℕ) (env : Env) (s : Ledger)
    → (length (chosen keys s.entries) == length keys) ≡ true
    → correction_recipient (chosen keys s.entries) ≡ some recipient
    → is_release change ≡ false
    → all has_active_score (chosen keys s.entries) ≡ true
    → (s' : Ledger) × ((enact_correction actor keys change reason basis member_note env s ≡ (
      returns (
          new_correction actor recipient
            (keys_of (chosen keys s.entries))
            change
            reason
            basis
            member_note
            (recognition_snapshot (keys_of (chosen keys s.entries)) s)
            (recognition_snapshot (keys_of (chosen keys s.entries)) s')
            env.now),
      s',
    ))
        × (s'.entries
            ≡ (change_scores actor change reason env.now
                (keys_of (chosen keys s.entries))
                s).entries)
        × (s'.awards
            ≡ (change_scores actor change reason env.now
                (keys_of (chosen keys s.entries))
                s).awards))
unfolding enact_correction apply_correction_state record_audit recognition_snapshot
enact_correction-returns actor keys change reason basis member_note recipient env s whole one scores
      active =
    simp (whole, one, scores, active) (_, (refl, refl, refl))

pub appeal_correction-returns :
    (member : Actor) (grounds : Text) (env : Env) (s : Docket)
    → is_nil (cleaned env grounds) ≡ false
    → is_recipient member s.correction ≡ true
    → is_open env.now s.correction ≡ true
    → (ledger : Ledger) × ((appeal_correction member grounds env s ≡ (
      returns tt,
      record {
        ledger = ledger;
        correction = with_appeal (cleaned env grounds) env.now s.correction;
      },
    ))
        × (ledger.entries ≡ s.ledger.entries)
        × (ledger.awards ≡ s.ledger.awards))
unfolding appeal_correction record_audit
appeal_correction-returns member grounds env s given own open_ =
    simp (given, own, open_) (_, (refl, refl, refl))

pub resolve_correction_appeal-overturned :
    (judge : Actor) (reason : Text) (env : Env) (s : Docket) (ledger : Ledger)
    → may_correct env judge ≡ true
    → is_nil (cleaned env reason) ≡ false
    → same_id s.correction.applied_by (key_of judge) ≡ false
    → is_appealed s.correction.status ≡ true
    → is_release s.correction.change ≡ false
    → same_snapshot
        (recognition_snapshot s.correction.contributions s.ledger)
        s.correction.after_snapshot
      ≡ true
    → restore_rows s.correction.contributions s.correction.before_snapshot s.ledger ≡ some ledger
    → (s' : Docket) × ((resolve_correction_appeal judge CorrectionStatus.overturned reason env s
          ≡ (returns tt, s'))
        × (s'.correction.status ≡ CorrectionStatus.overturned)
        × (s'.ledger.entries ≡ ledger.entries)
        × (s'.ledger.awards ≡ ledger.awards))
unfolding resolve_correction_appeal settle_correction_appeal restore_correction_state record_audit
resolve_correction_appeal-overturned judge reason env s ledger may given other waiting scores
      unchanged restored =
    rw (require_super_admin-returns judge Op.resolve_denied env s.ledger may)
      (simp (given, other, waiting, scores, unchanged, restored) (_, (refl, refl, refl, refl)))

pub apply_correction-enacts :
    (actor : Actor) (kind : CorrectionKind) (keys : List ℕ) (reason basis member_note : Text)
    (points : Option ℕ) (change : Change) (env : Env) (s : Ledger)
    → may_correct env actor ≡ true
    → validate_correction_input kind keys
        (chosen keys s.entries)
        (cleaned env reason)
        (cleaned env basis)
        (cleaned env member_note)
        points
      ≡ some change
    → apply_correction actor kind keys reason basis member_note points env s
      ≡ enact_correction actor keys change
          (cleaned env reason)
          (cleaned env basis)
          (cleaned env member_note)
          env
          s
unfolding apply_correction
apply_correction-enacts actor kind keys reason basis member_note points change env s may valid =
    rw (require_super_admin-returns actor Op.apply_denied env s may) (simp valid refl)

pub recognition_snapshot-rows :
    (keys : List ℕ) (s s' : Ledger)
    → s'.entries ≡ s.entries
    → s'.awards ≡ s.awards
    → recognition_snapshot keys s' ≡ recognition_snapshot keys s
unfolding recognition_snapshot
recognition_snapshot-rows keys s s' a b = rw (a, b) refl

pub SameBut-rows :
    (keys : List ℕ) (s t u : Ledger)
    → SameBut keys s t
    → u.entries ≡ t.entries
    → u.awards ≡ t.awards
    → SameBut keys s u
SameBut-rows keys s t u (a, b) e f = (rw e a, rw f b)
