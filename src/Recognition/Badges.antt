-- ===== src/Recognition/Badges.antt =====
-- apps/recognition/services.py: the award and the revocation of badges.
use dev_nepal.Prelude.{
  ℕ, Bool, not, ◌&&◌, Option, none, some, is_nil, [], ◌∷◌, ◌++◌, Text, strip, map, find?, ◌==◌,
  if◌then◌else◌,
}
use dev_nepal.Accounts.{Actor}
use dev_nepal.Service.{
  returns, reply, fail_if, read, look, choose, transaction, ◌>>=◌, ◌>>◌, key_of,
}
use dev_nepal.Recognition.Data.{
  AwardStatus, BadgeAward, Op, Payload, RecognitionError, Call, record_audit, require_super_admin,
}
use dev_nepal.Recognition.Changes.{is_active, revoked_award}

pub record Badge : Type 0 where
  pub pk : ℕ
  pub slug : Text
  pub is_active : Bool

abbrev pub is_held : ℕ → ℕ → BadgeAward → Bool
is_held badge recipient award =
    award.badge == badge && award.recipient == recipient && is_active award.status

abbrev pub new_award : ℕ → Actor → ℕ → ℕ → Option ℕ → ℕ → BadgeAward
new_award pk issuer recipient badge contribution now = record {
  pk = pk;
  badge = badge;
  recipient = recipient;
  contribution = contribution;
  issuer = key_of issuer;
  issued_at = now;
  status = AwardStatus.active;
  revocation_reason = [];
  revoked_by = none;
  revoked_at = none;
}

abbrev pub add_award : BadgeAward → Call (Unit {0})
add_award award env s = (returns tt, record s { awards = s.awards ++ award ∷ [] })

abbrev pub create_award :
    (pk : ℕ) → Actor → (recipient : ℕ) → Badge → Option ℕ → Text → Call BadgeAward
create_award pk actor recipient badge contribution reason = do
  now ← look (λ env. env.now)
  add_award (new_award pk actor recipient badge.pk contribution now)
  record_audit actor Op.badge_awarded Payload.nothing
      (Payload.award_payload (some badge.pk) contribution reason)
  reply (new_award pk actor recipient badge.pk contribution now)

abbrev pub get_or_create : Option BadgeAward → Call BadgeAward → Call BadgeAward
get_or_create none create = create
get_or_create (some award) create = reply award

-- `_award_badge`, with the key of a new award.
unfoldable pub award_active_badge :
    (pk : ℕ)
    → Actor
    → (recipient : ℕ) → Badge
    → (contribution : Option ℕ) → (reason : Text) → Call BadgeAward
unfolding record_audit
award_active_badge pk actor recipient badge contribution reason = transaction do
  fail_if (not badge.is_active) RecognitionError.recognition
  held ← read (λ s. find? (is_held badge.pk recipient) s.awards)
  get_or_create held (create_award pk actor recipient badge contribution reason)

unfoldable pub award_badge :
    (pk : ℕ)
    → (actor : Actor) → (recipient : ℕ) → Badge
    → (contribution : Option ℕ) → (reason : Text) → Call BadgeAward
award_badge pk actor recipient badge contribution reason = do
  require_super_admin actor Op.award_denied
  award_active_badge pk actor recipient badge contribution reason

abbrev pub save_award : BadgeAward → Call (Unit {0})
save_award award env s =
    (returns tt, record s { awards = map (λ a. if a.pk == award.pk then award else a) s.awards })

-- `_revoke_badge`
unfoldable pub revoke_active_award : Actor → BadgeAward → (reason : Text) → Call (Unit {0})
unfolding record_audit
revoke_active_award actor award reason = transaction do
  fail_if (is_nil (strip reason)) RecognitionError.recognition
  now ← look (λ env. env.now)
  choose (is_active award.status)
      (save_award (revoked_award actor reason now award)
        >> record_audit actor Op.badge_revoked (Payload.award_status AwardStatus.active [])
            (Payload.award_status AwardStatus.revoked reason))
      (reply tt)

unfoldable pub revoke_badge :
    (actor : Actor) → (award : BadgeAward) → (reason : Text) → Call (Unit {0})
revoke_badge actor award reason = do
  require_super_admin actor Op.revoke_denied
  revoke_active_award actor award reason
