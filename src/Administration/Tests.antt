-- ===== src/Administration/Tests.antt =====
-- The theorems about apps/administration at concrete inputs.
use dev_nepal.Prelude.{
  ℕ, ◌<◌, ◌≡◌, refl, ◌≢◌, inl, Bool, true, false, none, some, List, [], ◌∷◌, find?, text, is_nil,
  strip,
}
use dev_nepal.Accounts.{User, is_super_admin, has_privileged_session}
use dev_nepal.Service.{returns, raises}
use dev_nepal.Administration.Access.{AdminError, ChangeStatus, Env, require_super_admin}
use dev_nepal.Administration.Flags.{FeatureFlag, Flags, request_feature_flag_change, record_audit}
use dev_nepal.Administration.Flags.Log.{IsValid}
use dev_nepal.Administration.Flags.Laws
use dev_nepal.Administration.Grants
use dev_nepal.Administration.Grants.{
  SuperAdminGrant, GrantAction, Roster, confirm_super_admin_grant, confirm_locked, get_grant,
  get_account, save_first, save_grant, set_superuser, grant_has_pk, has_pk, has_expired,
}
use dev_nepal.Administration.Grants.Laws.{confirm_super_admin_grant_requires}
use dev_nepal.Administration.Flags.Laws.{waiting_change_blocks}

abbrev admin : User
admin = record { pk = 1; is_active = true; is_superuser = true; otp_verified = true }

abbrev second_admin : User
second_admin = record { pk = 4; is_active = true; is_superuser = true; otp_verified = true }

abbrev env : Env
env = record { now = 100; mfa_bypass = false }

abbrev flag : FeatureFlag
flag = record {
  key = text "badges";
  affects_members = true;
  is_enabled = false;
  version = 0;
  reason = [];
  updated_by = none;
}

abbrev flags : Flags
flags = record { flag = flag; changes = []; audit = [] }

-- Two Super Admins change the flag, and one of them proposes again.
abbrev calls : List (Env × Laws.Act)
calls =
    (env, Laws.request (some admin) true (text "pilot"))
    ∷ (env, Laws.approve (some second_admin) 1)
    ∷ (env, Laws.request (some second_admin) false (text "stop"))
    ∷ []

run-IsValid_example : IsValid (Laws.run calls flags)
run-IsValid_example = Laws.run-IsValid calls flags (inl (refl, refl))

abbrev waiting : Flags
waiting = record {
  flag = flag;
  changes =
      record {
        version = 1;
        from_enabled = false;
        to_enabled = true;
        reason = text "pilot";
        status = ChangeStatus.pending;
        proposed_by = 1;
        proposed_at = 90;
        approved_by = none;
        applied_at = none;
      }
      ∷ [];
  audit = [];
}

again_is_given : is_nil (strip (text "again")) ≡ false
unfolding strip
again_is_given = refl

admin-is_super_admin : is_super_admin (some admin) ≡ true
unfolding is_super_admin
admin-is_super_admin = refl

admin_is_verified : has_privileged_session false (some admin) ≡ true
unfolding has_privileged_session
admin_is_verified = refl

waiting_change_blocks_example :
    request_feature_flag_change (some admin) true (text "again") env waiting
    ≡ (raises AdminError.integrity_error, waiting)
waiting_change_blocks_example =
    waiting_change_blocks (some admin) true (text "again") env waiting
      (refl, refl, refl, refl, (refl, refl)) admin-is_super_admin admin_is_verified again_is_given

abbrev account : ℕ → Bool → Grants.Account
account pk is_superuser = record {
  pk = pk;
  is_active = true;
  is_superuser = is_superuser;
  is_staff = is_superuser;
}

abbrev grants : List SuperAdminGrant
grants =
    record {
      pk = 1;
      subject = 3;
      action = GrantAction.grants;
      reason = text "on call";
      status = ChangeStatus.pending;
      proposed_by = 1;
      proposed_at = 50;
      expires_at = 500;
      approved_by = none;
      applied_at = none;
    }
    ∷ []

abbrev roster : Roster
roster = record {
  accounts = account 1 true ∷ account 4 true ∷ account 3 false ∷ [];
  grants = grants;
  sessions = [];
  live = [];
  audit = [];
}

-- A grant is confirmed, and everyone is revoked in turn.
abbrev role_calls : List (Env × Grants.Roles.Act)
role_calls =
    (env, Grants.Roles.confirm (some second_admin) 1)
    ∷ (env, Grants.Roles.revoke (some admin) 4 (text "left"))
    ∷ (env, Grants.Roles.revoke (some admin) 3 (text "left"))
    ∷ (env, Grants.Roles.revoke (some admin) 1 (text "left"))
    ∷ []

run-HasAdmin_example : Grants.Roles.HasAdmin (Grants.Roles.run role_calls roster)
run-HasAdmin_example = Grants.Roles.run-HasAdmin role_calls roster refl

grant_is_confirmed : (confirm_super_admin_grant (some second_admin) 1 env roster).0 ≡ returns tt
unfolding confirm_super_admin_grant confirm_locked get_grant get_account save_first save_grant
    require_super_admin is_super_admin has_privileged_session record_audit
grant_is_confirmed = refl

confirm_super_admin_grant_requires_example :
    (is_super_admin (some second_admin) ≡ true)
    × (has_privileged_session false (some second_admin) ≡ true)
    × ((row : SuperAdminGrant) × (find? (grant_has_pk 1) grants ≡ some row)
        × (row.status ≡ ChangeStatus.pending)
        × (100 < row.expires_at)
        × (some 4 ≢ some row.proposed_by)
        × ((confirm_super_admin_grant (some second_admin) 1 env roster).1.accounts
            ≡ save_first (has_pk row.subject) (set_superuser true) roster.accounts)
        × ((confirm_super_admin_grant (some second_admin) 1 env roster).1.grants
            ≡ save_grant (Grants.confirmed (some second_admin) 100 row) grants))
confirm_super_admin_grant_requires_example =
    confirm_super_admin_grant_requires (some second_admin) 1 env roster grant_is_confirmed
