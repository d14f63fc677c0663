-- ===== src/Administration/Grants.antt =====
-- apps/administration: who holds Super Admin.
pub mod Roles
pub mod Laws
use dev_nepal.Prelude.{
  ℕ, suc, ◌+◌, Bool, true, false, not, ◌&&◌, Option, none, some, List, [], ◌∷◌, any, filter, map,
  find?, length, Text, same_id, is_none, ◌==◌, leb, if◌then◌else◌,
}
use dev_nepal.Accounts.{User, Actor}
use dev_nepal.Service.{
  Service, Reply, returns, raises, reply, fail, fail_if, read, look, update, choose, transaction,
  ◌>>=◌, ◌>>◌, Event, EventResult, key_of,
}
use dev_nepal.Administration.Access.{
  AdminError, ChangeStatus, is_pending, Env, require_super_admin, require_reason,
}

-- A row of accounts, as this component reads and writes it.
pub record Account : Type 0 where
  pub pk : ℕ
  pub is_active : Bool
  pub is_superuser : Bool
  pub is_staff : Bool

pub record UserSession : Type 0 where
  pub user : ℕ
  pub session_key : ℕ
  pub revoked_at : Option ℕ

pub data GrantAction : Type 0 where
  grants revokes : GrantAction

pub record SuperAdminGrant : Type 0 where
  pub pk : ℕ
  pub subject : ℕ
  pub action : GrantAction
  pub reason : Text
  pub status : ChangeStatus
  pub proposed_by : ℕ
  pub proposed_at : ℕ
  pub expires_at : ℕ
  pub approved_by : Option ℕ
  pub applied_at : Option ℕ

pub data Op : Type 0 where
  grant_proposed grant_proposed_mfa_denied grant_confirmed grant_confirmed_mfa_denied grant_expired
        granted revoked revoked_mfa_denied :
      Op

pub data Payload : Type 0 where
  nothing : Payload
  superuser : Bool → Payload
  grant_payload : SuperAdminGrant → Payload
  revoked_payload : SuperAdminGrant → (sessions_ended : ℕ) → Payload

-- `sessions` are the rows of UserSession, `live` the keys of Django's own sessions.
pub record Roster : Type 0 where
  pub accounts : List Account
  pub grants : List SuperAdminGrant
  pub sessions : List UserSession
  pub live : List ℕ
  pub audit : List (Event Op Payload)

abbrev pub Call : Type 0 → Type 0
Call A = Service Env Roster AdminError A

abbrev note : Actor → Op → Payload → Payload → EventResult → Env → Roster → Roster
note actor op before after result env s = record s {
  audit =
      record {
        actor = key_of actor;
        action = op;
        before = before;
        after = after;
        result = result;
        created_at = env.now;
      }
      ∷ s.audit;
}

unfoldable pub record_audit : Actor → Op → Payload → Payload → EventResult → Call (Unit {0})
record_audit actor op before after result env s =
    (returns tt, note actor op before after result env s)

abbrev deny : Actor → Op → Env → Roster → Roster
deny actor op = note actor op Payload.nothing Payload.nothing EventResult.denied

abbrev deny_mfa : Actor → Op → Env → Roster → Roster
deny_mfa actor op = note actor op Payload.nothing Payload.nothing EventResult.failure

-- GRANT_CONFIRMATION_WINDOW, in seconds
abbrev pub grant_confirmation_window : ℕ
grant_confirmation_window = 86400

-- `User.objects.filter(is_superuser=True, is_active=True)`
abbrev pub is_active_admin : Account → Bool
is_active_admin account = account.is_superuser && account.is_active

abbrev pub has_pk : ℕ → Account → Bool
has_pk pk account = account.pk == pk

abbrev pub grant_has_pk : ℕ → SuperAdminGrant → Bool
grant_has_pk pk grant = grant.pk == pk

-- The account of an actor that has passed `_require_super_admin`.
abbrev account : Actor → Call User
account none = fail AdminError.not_super_admin
account (some user) = reply user

unfoldable pub get_account : ℕ → Call Account
get_account pk env s = elim (find? (has_pk pk) s.accounts) [
  | none ↦ (raises AdminError.does_not_exist, s)
  | some row ↦ (returns row, s)
]

unfoldable pub get_grant : ℕ → Call SuperAdminGrant
get_grant pk env s = elim (find? (grant_has_pk pk) s.grants) [
  | none ↦ (raises AdminError.does_not_exist, s)
  | some row ↦ (returns row, s)
]

abbrev new_grant : User → ℕ → Text → ℕ → ℕ → SuperAdminGrant
new_grant actor subject reason now pk = record {
  pk = pk;
  subject = subject;
  action = GrantAction.grants;
  reason = reason;
  status = ChangeStatus.pending;
  proposed_by = actor.pk;
  proposed_at = now;
  expires_at = now + grant_confirmation_window;
  approved_by = none;
  applied_at = none;
}

abbrev add_grant : SuperAdminGrant → Roster → Roster
add_grant row s = record s { grants = row ∷ s.grants }

-- The subject is an account that the caller has read.
unfoldable pub propose_super_admin_grant : Actor → (subject : ℕ) → Text → Call SuperAdminGrant
unfolding require_super_admin require_reason record_audit
propose_super_admin_grant actor subject reason = do
  row ← get_account subject
  require_super_admin actor (deny actor Op.grant_proposed)
      (deny_mfa actor Op.grant_proposed_mfa_denied)
  cleaned ← require_reason reason
  fail_if (is_active_admin row) AdminError.redundant_grant
  user ← account actor
  now ← look (λ env. env.now)
  pk ← read (λ s. suc (length s.grants))
  update (add_grant (new_grant user subject cleaned now pk))
  record_audit actor Op.grant_proposed Payload.nothing
      (Payload.grant_payload (new_grant user subject cleaned now pk)) EventResult.success
  reply (new_grant user subject cleaned now pk)

-- `save` on the row of that key.
unfoldable pub save_grant : SuperAdminGrant → List SuperAdminGrant → List SuperAdminGrant
save_grant row [] = []
save_grant row (g ∷ gs) =
    let rest = save_grant row gs in if g.pk == row.pk then row ∷ gs else g ∷ rest

abbrev pub set_superuser : Bool → Account → Account
set_superuser value account = record account { is_superuser = value; is_staff = value }

-- The first row that passes the test is rewritten.
unfoldable pub save_first : (Account → Bool) → (Account → Account) → List Account → List Account
save_first test write [] = []
save_first test write (a ∷ rows) =
    let rest = save_first test write rows in if test a then write a ∷ rows else a ∷ rest

-- `has_expired`
abbrev pub has_expired : ℕ → SuperAdminGrant → Bool
has_expired now grant = leb grant.expires_at now

abbrev pub confirmed : Actor → ℕ → SuperAdminGrant → SuperAdminGrant
confirmed actor now grant = record grant {
  status = ChangeStatus.applied;
  approved_by = key_of actor;
  applied_at = some now;
}

abbrev withdrawn : SuperAdminGrant → SuperAdminGrant
withdrawn grant = record grant { status = ChangeStatus.withdrawn }

abbrev expire : Actor → SuperAdminGrant → Call Bool
expire actor row = do
  update (λ s. record s { grants = save_grant (withdrawn row) s.grants })
  record_audit actor Op.grant_expired Payload.nothing (Payload.grant_payload (withdrawn row))
      EventResult.failure
  reply true

abbrev promote : Actor → SuperAdminGrant → Call Bool
promote actor row = do
  _ ← get_account row.subject
  now ← look (λ env. env.now)
  update (λ s. record s {
    accounts = save_first (has_pk row.subject) (set_superuser true) s.accounts;
    grants = save_grant (confirmed actor now row) s.grants;
  })
  record_audit actor Op.granted (Payload.superuser false)
      (Payload.grant_payload (confirmed actor now row)) EventResult.success
  reply false

-- The transaction of `confirm_super_admin_grant`; it tells whether the grant has expired.
unfoldable pub confirm_locked : Actor → ℕ → Call Bool
unfolding save_grant save_first record_audit
confirm_locked actor pk = transaction do
  row ← get_grant pk
  fail_if (not (is_pending row.status)) AdminError.not_pending
  now ← look (λ env. env.now)
  choose (has_expired now row) (expire actor row) (promote actor row)

abbrev refuse_self : Actor → SuperAdminGrant → Call (Unit {0})
refuse_self actor row = do
  record_audit actor Op.grant_confirmed Payload.nothing (Payload.grant_payload row)
      EventResult.denied
  fail AdminError.self_approval

unfoldable pub confirm_super_admin_grant : Actor → (grant : ℕ) → Call (Unit {0})
unfolding require_super_admin record_audit
confirm_super_admin_grant actor pk = do
  row ← get_grant pk
  require_super_admin actor (deny actor Op.grant_confirmed)
      (deny_mfa actor Op.grant_confirmed_mfa_denied)
  choose (same_id (some row.proposed_by) (key_of actor)) (refuse_self actor row) (reply tt)
  expired ← confirm_locked actor pk
  fail_if expired AdminError.grant_expired

abbrev is_open : ℕ → UserSession → Bool
is_open subject session = session.user == subject && is_none session.revoked_at

abbrev key_is : ℕ → UserSession → Bool
key_is key session = session.session_key == key

abbrev end_session : ℕ → ℕ → UserSession → UserSession
end_session subject now session =
    if is_open subject session then record session { revoked_at = some now } else session

abbrev stays_live : ℕ → List UserSession → ℕ → Bool
stays_live subject sessions key = not (any (key_is key) (filter (is_open subject) sessions))

-- `_end_sessions`
unfoldable pub end_sessions : ℕ → Call ℕ
end_sessions subject env s = (
  returns (length (filter (is_open subject) s.sessions)),
  record s {
    live = filter (stays_live subject s.sessions) s.live;
    sessions = map (end_session subject env.now) s.sessions;
  },
)

abbrev pub is_subject : ℕ → Account → Bool
is_subject subject account = is_active_admin account && account.pk == subject

abbrev revocation : User → ℕ → Text → ℕ → ℕ → SuperAdminGrant
revocation actor subject reason now pk = record {
  pk = pk;
  subject = subject;
  action = GrantAction.revokes;
  reason = reason;
  status = ChangeStatus.applied;
  proposed_by = actor.pk;
  proposed_at = now;
  expires_at = now;
  approved_by = some actor.pk;
  applied_at = some now;
}

-- The transaction of `revoke_super_admin`.
unfoldable pub revoke_locked : User → (subject : ℕ) → Text → Call SuperAdminGrant
unfolding save_first end_sessions record_audit
revoke_locked actor subject reason = transaction do
  active_admins ← read (λ s. filter is_active_admin s.accounts)
  fail_if (not (any (has_pk subject) active_admins)) AdminError.redundant_grant
  fail_if (length active_admins == 1) AdminError.last_super_admin
  update (λ s. record s {
    accounts = save_first (is_subject subject) (set_superuser false) s.accounts;
  })
  ended ← end_sessions subject
  now ← look (λ env. env.now)
  pk ← read (λ s. suc (length s.grants))
  update (add_grant (revocation actor subject reason now pk))
  record_audit (some actor) Op.revoked (Payload.superuser true)
      (Payload.revoked_payload (revocation actor subject reason now pk) ended) EventResult.success
  reply (revocation actor subject reason now pk)

unfoldable pub revoke_super_admin : Actor → (subject : ℕ) → Text → Call SuperAdminGrant
unfolding require_super_admin require_reason revoke_locked
revoke_super_admin actor subject reason = do
  require_super_admin actor (deny actor Op.revoked) (deny_mfa actor Op.revoked_mfa_denied)
  cleaned ← require_reason reason
  user ← account actor
  revoke_locked user subject cleaned
