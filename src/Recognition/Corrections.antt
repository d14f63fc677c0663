-- ===== src/Recognition/Corrections.antt =====
-- apps/recognition/services.py: corrections.
use dev_nepal.Prelude.{
  ℕ, Bool, true, not, ◌&&◌, ◌||◌, Option, none, some, is_none, is_nil, List, [], ◌∷◌, Text, text_eq,
  any, all, length, same_id, ◌==◌, ◌+◌, ◌*◌, ltb, if◌then◌else◌,
}
use dev_nepal.Accounts.{Actor}
use dev_nepal.Service.{Service, reply, fail, fail_if, read, look, transaction, ◌>>=◌, ◌>>◌, key_of}
use dev_nepal.Recognition.Data.{
  CorrectionKind, CorrectionStatus, correction_reasons, Contribution, Snapshot, Change,
  RecognitionCorrection, Op, Payload, RecognitionError, Env, Call, record_audit,
  require_super_admin, cleaned,
}
use dev_nepal.Recognition.Snapshots.{is_in, chosen, recognition_snapshot}
use dev_nepal.Recognition.Changes.{keys_of, apply_correction_state}

abbrev pub all_distinct : List ℕ → Bool
all_distinct [] = true
all_distinct (key ∷ keys) = not (is_in key keys) && all_distinct keys

-- `_correction_recipient`, and the same checks of `_validate_correction_input`.
abbrev pub correction_recipient : List Contribution → Option ℕ
correction_recipient [] = none
correction_recipient (e ∷ es) =
    if all (λ other. same_id other.desk.row.contributor e.desk.row.contributor) es
    then e.desk.row.contributor
    else none

-- The kind with its score, or none where the number of records or the score does not fit; a score
-- that is no number, or negative, is `none`.
abbrev pub change_of : CorrectionKind → ℕ → Option ℕ → Option Change
change_of CorrectionKind.release_held count points = some Change.release_held
change_of CorrectionKind.invalidate count points = some Change.invalidate
change_of _ count none = none
change_of CorrectionKind.consolidate count (some points) =
    if ltb count 2 then none else some (Change.consolidate points)
change_of CorrectionKind.adjust_score count (some points) =
    if count == 1 then some (Change.adjust_score points) else none

-- `_validate_correction_input`, on cleaned texts.
unfoldable pub validate_correction_input :
    CorrectionKind
    → List ℕ
    → List Contribution
    → (reason basis member_note : Text) → Option ℕ
    → Option Change
validate_correction_input kind keys contributions reason basis member_note points =
    if is_nil keys
      || not (all_distinct keys)
      || is_none (correction_recipient contributions)
      || is_nil reason
      || is_nil basis
      || is_nil member_note
      || not (any (text_eq reason) correction_reasons)
    then none
    else change_of kind (length keys) points

abbrev pub require : {S A : Type 0} → RecognitionError → Option A → Service Env S RecognitionError A
require e none = fail e
require e (some a) = reply a

-- timedelta(days=14), in seconds
abbrev pub appeal_window : ℕ
appeal_window = 14 * 86400

abbrev pub new_correction :
    Actor
    → ℕ
    → List ℕ
    → Change
    → (reason basis member_note : Text) → (before after : Snapshot) → ℕ
    → RecognitionCorrection
new_correction actor recipient keys change reason basis member_note before after now = record {
  recipient = recipient;
  contributions = keys;
  change = change;
  reason = reason;
  basis = basis;
  member_note = member_note;
  before_snapshot = before;
  after_snapshot = after;
  applied_by = key_of actor;
  applied_at = now;
  appeal_due_at = now + appeal_window;
  appeal_text = [];
  appealed_at = none;
  status = CorrectionStatus.applied;
  appeal_decided_by = none;
  appeal_decided_at = none;
  appeal_decision_reason = [];
}

-- The transaction of `apply_correction`.
unfoldable pub enact_correction :
    Actor → List ℕ → Change → (reason basis member_note : Text) → Call RecognitionCorrection
unfolding record_audit
enact_correction actor keys change reason basis member_note = transaction do
  locked ← read (λ s. chosen keys s.entries)
  fail_if (not (length locked == length keys)) RecognitionError.correction
  recipient ← require RecognitionError.correction (correction_recipient locked)
  before ← read (recognition_snapshot (keys_of locked))
  apply_correction_state actor change reason locked
  after ← read (recognition_snapshot (keys_of locked))
  now ← look (λ env. env.now)
  record_audit actor Op.applied (Payload.snapshot before)
      (Payload.applied_payload change reason basis member_note after)
  reply (
      new_correction actor recipient (keys_of locked) change reason basis member_note before after
        now)

unfoldable pub apply_correction :
    (actor : Actor)
    → CorrectionKind
    → List ℕ
    → (reason basis member_note : Text) → (adjusted_points : Option ℕ) → Call RecognitionCorrection
apply_correction actor kind keys reason basis member_note adjusted_points = do
  require_super_admin actor Op.apply_denied
  clean ← look cleaned
  contributions ← read (λ s. chosen keys s.entries)
  change ← require RecognitionError.correction (
      validate_correction_input kind keys contributions (clean reason) (clean basis)
        (clean member_note) adjusted_points)
  enact_correction actor keys change (clean reason) (clean basis) (clean member_note)
