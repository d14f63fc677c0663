-- ===== src/Administration/Flags.antt =====
-- apps/administration: one feature flag with the log of its changes.
pub mod Log
pub mod Laws
use dev_nepal.Prelude.{
  ℕ, suc, Bool, true, false, not, ◌&&◌, ◌||◌, Option, none, some, List, [], ◌∷◌, any, find?, Text,
  text, is_nil, same_id, ◌==◌, if◌then◌else◌,
}
use dev_nepal.Accounts.{User, Actor}
use dev_nepal.Service.{
  Service, Reply, returns, raises, reply, fail, fail_if, read, look, update, choose, transaction,
  ◌>>=◌, ◌>>◌, Event, EventResult, key_of,
}
use dev_nepal.Administration.Access.{
  AdminError, ChangeStatus, is_pending, Env, require_super_admin, require_reason,
}

pub record FeatureFlag : Type 0 where
  pub key : Text
  pub affects_members : Bool
  pub is_enabled : Bool
  pub version : ℕ
  pub reason : Text
  pub updated_by : Option ℕ

pub record FeatureFlagChange : Type 0 where
  pub version : ℕ
  pub from_enabled : Bool
  pub to_enabled : Bool
  pub reason : Text
  pub status : ChangeStatus
  pub proposed_by : ℕ
  pub proposed_at : ℕ
  pub approved_by : Option ℕ
  pub applied_at : Option ℕ

pub data Op : Type 0 where
  change change_mfa_denied approve approve_mfa_denied proposed applied : Op

pub data Payload : Type 0 where
  nothing : Payload
  state : (enabled : Bool) → (version : Option ℕ) → Payload
  change_payload : FeatureFlagChange → Payload

-- The rows of one flag, the newest first. A change is named by its version: `uniq_flagchange_version`.
pub record Flags : Type 0 where
  pub flag : FeatureFlag
  pub changes : List FeatureFlagChange
  pub audit : List (Event Op Payload)

abbrev pub Call : Type 0 → Type 0
Call A = Service Env Flags AdminError A

abbrev note : Actor → Op → Payload → Payload → EventResult → Env → Flags → Flags
note actor op before after result env s = record s {
  audit =
      record {
        actor = key_of actor;
        action = op;
        before = before;
        after = after;
        result = result;
        created_at = env.now;
      }
      ∷ s.audit;
}

unfoldable pub record_audit : Actor → Op → Payload → Payload → EventResult → Call (Unit {0})
record_audit actor op before after result env s =
    (returns tt, note actor op before after result env s)

unfoldable pub requires_four_eyes : FeatureFlag → Bool
requires_four_eyes flag = flag.affects_members

-- What `_apply_change` saves of the change.
abbrev pub applied_change : Actor → ℕ → FeatureFlagChange → FeatureFlagChange
applied_change actor now row = record row {
  status = ChangeStatus.applied;
  approved_by = key_of actor;
  applied_at = some now;
}

-- `change.save(…)`, on the row of that version.
unfoldable pub save_change : FeatureFlagChange → List FeatureFlagChange → List FeatureFlagChange
save_change row [] = []
save_change row (c ∷ cs) =
    let rest = save_change row cs in if c.version == row.version then row ∷ cs else c ∷ rest

abbrev has_version : ℕ → FeatureFlagChange → Bool
has_version version row = row.version == version

unfoldable pub find_change : ℕ → Call FeatureFlagChange
find_change version env s = elim (find? (has_version version) s.changes) [
  | none ↦ (raises AdminError.does_not_exist, s)
  | some row ↦ (returns row, s)
]

abbrev set_flag : Actor → FeatureFlagChange → FeatureFlag → FeatureFlag
set_flag actor row flag = record flag {
  is_enabled = row.to_enabled;
  version = row.version;
  reason = row.reason;
  updated_by = key_of actor;
}

-- `_apply_change`, a transaction; the change is read again.
unfoldable pub apply_change : Actor → ℕ → Call FeatureFlagChange
unfolding find_change save_change record_audit
apply_change actor version = transaction do
  row ← find_change version
  fail_if (not (is_pending row.status)) AdminError.not_pending
  flag ← read (λ s. s.flag)
  now ← look (λ env. env.now)
  update λ s. record s {
    flag = set_flag actor row s.flag;
    changes = save_change (applied_change actor now row) s.changes;
  }
  record_audit actor Op.applied (Payload.state flag.is_enabled (some flag.version))
      (Payload.change_payload (applied_change actor now row)) EventResult.success
  reply (applied_change actor now row)

abbrev new_change : User → Bool → Text → ℕ → FeatureFlag → FeatureFlagChange
new_change actor is_enabled reason now flag = record {
  version = suc flag.version;
  from_enabled = flag.is_enabled;
  to_enabled = is_enabled;
  reason = reason;
  status = ChangeStatus.pending;
  proposed_by = actor.pk;
  proposed_at = now;
  approved_by = none;
  applied_at = none;
}

-- `FeatureFlagChange.objects.create`, under the unique constraint on the version.
unfoldable pub create_change : FeatureFlagChange → Call (Unit {0})
create_change row env s =
    if any (has_version row.version) s.changes
    then (raises AdminError.integrity_error, s)
    else (returns tt, record s { changes = row ∷ s.changes })

abbrev propose : User → FeatureFlag → FeatureFlagChange → Call FeatureFlagChange
propose actor flag row = do
  record_audit (some actor) Op.proposed (Payload.state flag.is_enabled none)
      (Payload.change_payload row) EventResult.success
  reply row

-- `_record_change`, a transaction.
unfoldable pub record_change : User → Bool → Text → Call FeatureFlagChange
unfolding create_change requires_four_eyes record_audit apply_change
record_change actor is_enabled reason = transaction do
  flag ← read (λ s. s.flag)
  now ← look (λ env. env.now)
  row ← reply (new_change actor is_enabled reason now flag)
  create_change row
  choose (requires_four_eyes flag) (propose actor flag row) (apply_change (some actor) row.version)

abbrev deny : Actor → Op → Env → Flags → Flags
deny actor op = note actor op Payload.nothing Payload.nothing EventResult.denied

abbrev deny_mfa : Actor → Op → Env → Flags → Flags
deny_mfa actor op = note actor op Payload.nothing Payload.nothing EventResult.failure

-- The account of an actor that has passed `_require_super_admin`.
abbrev account : Actor → Call User
account none = fail AdminError.not_super_admin
account (some user) = reply user

unfoldable pub request_feature_flag_change : Actor → Bool → Text → Call FeatureFlagChange
unfolding require_super_admin require_reason record_change
request_feature_flag_change actor is_enabled reason = do
  require_super_admin actor (deny actor Op.change) (deny_mfa actor Op.change_mfa_denied)
  cleaned ← require_reason reason
  user ← account actor
  record_change user is_enabled cleaned

abbrev refuse_self : Actor → FeatureFlagChange → Call FeatureFlagChange
refuse_self actor row = do
  record_audit actor Op.approve Payload.nothing (Payload.change_payload row) EventResult.denied
  fail AdminError.self_approval

unfoldable pub approve_feature_flag_change : Actor → (version : ℕ) → Call FeatureFlagChange
unfolding require_super_admin find_change record_audit apply_change
approve_feature_flag_change actor version = do
  row ← find_change version
  require_super_admin actor (deny actor Op.approve) (deny_mfa actor Op.approve_mfa_denied)
  fail_if (not (is_pending row.status)) AdminError.not_pending
  choose (same_id (some row.proposed_by) (key_of actor)) (refuse_self actor row)
      (apply_change actor version)

abbrev default_reason : Text → Text
default_reason reason =
    if is_nil reason then text "Direct change to an operator-facing switch." else reason

unfoldable pub set_feature_flag : Actor → Bool → Text → Call (Unit {0})
unfolding requires_four_eyes request_feature_flag_change
set_feature_flag actor is_enabled reason = do
  flag ← read (λ s. s.flag)
  fail_if (requires_four_eyes flag) AdminError.four_eyes_required
  request_feature_flag_change actor is_enabled (default_reason reason) >>= λ _. reply tt
