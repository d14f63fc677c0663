-- ===== src/Administration/Access.antt =====
-- apps/administration/services.py: what both parts share.
use dev_nepal.Prelude.{ℕ, Bool, true, false, Text, strip, is_nil, if◌then◌else◌}
use dev_nepal.Accounts.{Actor, is_super_admin, has_privileged_session}
use dev_nepal.Service.{Service, returns, raises}

pub data AdminError : Type 0 where
  not_super_admin mfa_required four_eyes_required self_approval not_pending reason_missing
        integrity_error does_not_exist grant_expired redundant_grant last_super_admin :
      AdminError

pub data ChangeStatus : Type 0 where
  pending applied withdrawn : ChangeStatus

abbrev pub is_pending : ChangeStatus → Bool
is_pending ChangeStatus.pending = true
is_pending _ = false

-- The clock, and the setting PRIVILEGED_MFA_BYPASS.
pub record Env : Type 0 where
  pub now : ℕ
  pub mfa_bypass : Bool

-- `_require_super_admin`, and `require_privileged_mfa` in it; `deny` and `deny_mfa` are the rows
-- with the audit event of each refusal.
unfoldable pub require_super_admin :
    {S : Type 0} → Actor → (deny deny_mfa : Env → S → S) → Service Env S AdminError (Unit {0})
require_super_admin actor deny deny_mfa env s =
    if is_super_admin actor
    then (if has_privileged_session env.mfa_bypass actor
        then (returns tt, s)
        else (raises AdminError.mfa_required, deny_mfa env s))
    else (raises AdminError.not_super_admin, deny env s)

-- `_require_reason`
unfoldable pub require_reason : {S : Type 0} → Text → Service Env S AdminError Text
require_reason reason env s =
    if is_nil (strip reason)
    then (raises AdminError.reason_missing, s)
    else (returns (strip reason), s)
