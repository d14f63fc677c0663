-- ===== src/Accounts.antt =====
-- apps/accounts and apps/ministries: accounts, privileged sessions, ministry publishers.
-- An actor is `None` or a saved account, so `is_authenticated` holds of every account.
use dev_nepal.Prelude.{ℕ, Bool, true, false, ◌&&◌, ◌||◌, Option, none, some, List, any, ◌==◌}

pub record User : Type 0 where
  pub pk : ℕ
  pub is_active : Bool
  pub is_superuser : Bool
  -- `is_verified()` of the session's OTP device.
  pub otp_verified : Bool

abbrev pub Actor : Type 0
Actor = Option User

pub data OrgStatus : Type 0 where
  pending active suspended revoked : OrgStatus

pub data PublisherStatus : Type 0 where
  active revoked : PublisherStatus

pub data ContactVerificationStatus : Type 0 where
  pending verified : ContactVerificationStatus

pub record Ministry : Type 0 where
  pub pk : ℕ
  pub status : OrgStatus

pub record MinistryPublisher : Type 0 where
  pub user : ℕ
  pub ministry : ℕ
  pub status : PublisherStatus
  pub contact_verification_status : ContactVerificationStatus

abbrev pub org_is_active : OrgStatus → Bool
org_is_active OrgStatus.active = true
org_is_active _ = false

abbrev pub publisher_status_is_active : PublisherStatus → Bool
publisher_status_is_active PublisherStatus.active = true
publisher_status_is_active PublisherStatus.revoked = false

abbrev contact_is_verified : ContactVerificationStatus → Bool
contact_is_verified ContactVerificationStatus.verified = true
contact_is_verified ContactVerificationStatus.pending = false

-- `bypass` is the setting PRIVILEGED_MFA_BYPASS.
unfoldable pub mfa_verified : (bypass : Bool) → User → Bool
mfa_verified bypass user = bypass || user.otp_verified

-- The test of `require_privileged_mfa`; its refusal is written where a component calls it.
unfoldable pub has_privileged_session : (bypass : Bool) → Actor → Bool
unfolding mfa_verified
has_privileged_session bypass none = false
has_privileged_session bypass (some user) = user.is_active && mfa_verified bypass user

unfoldable pub is_super_admin : Actor → Bool
is_super_admin none = false
is_super_admin (some user) = user.is_active && user.is_superuser

assigns : ℕ → ℕ → MinistryPublisher → Bool
assigns user ministry row =
    row.user == user
    && row.ministry == ministry
    && publisher_status_is_active row.status
    && contact_is_verified row.contact_verification_status

unfoldable pub is_publisher_active : List MinistryPublisher → Actor → Option Ministry → Bool
unfolding assigns
is_publisher_active publishers none ministry = false
is_publisher_active publishers (some user) none = false
is_publisher_active publishers (some user) (some ministry) =
    user.is_active && org_is_active ministry.status && any (assigns user.pk ministry.pk) publishers
