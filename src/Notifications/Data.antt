-- ===== src/Notifications/Data.antt =====
-- apps/notifications/enums.py and models.py: types, preferences, and the rows of one recipient.
use dev_nepal.Prelude.{ℕ, Bool, true, false, Option, none, some, List, Text, text, if◌then◌else◌}
use dev_nepal.Service.{Service, Event}

pub data NotificationType : Type 0 where
  application_status review_decision review_comment assignment contribution_verified
        contribution_revoked badge_awarded project_update project_status bookmark_change moderation
        security account :
      NotificationType

pub data Channel : Type 0 where
  in_app email : Channel

pub data DeliveryStatus : Type 0 where
  pending sent delivered failed suppressed : DeliveryStatus

pub data DigestFrequency : Type 0 where
  no_digest daily weekly : DigestFrequency

-- A row of one recipient.
pub record Notification : Type 0 where
  pub pk : ℕ
  pub type_ : NotificationType
  pub channel : Channel
  pub title : Text
  pub body : Text
  pub context_url : Text
  pub read_at : Option ℕ
  pub delivery_status : DeliveryStatus
  pub template_version : Text
  pub delivery_attempts : ℕ
  pub last_attempt_at : Option ℕ
  pub last_error_class : Text
  pub dedup_key : Text
  pub created_at : ℕ

pub record NotificationPreference : Type 0 where
  pub email_applications : Bool
  pub email_reviews : Bool
  pub email_contributions : Bool
  pub email_community : Bool
  pub digest_frequency : DigestFrequency

-- MANDATORY_NOTIFICATION_TYPES
unfoldable pub is_mandatory : NotificationType → Bool
is_mandatory NotificationType.security = true
is_mandatory NotificationType.account = true
is_mandatory NotificationType.moderation = true
is_mandatory _ = false

-- EMAIL_CATEGORY_FIELD_BY_TYPE
unfoldable pub email_category_field : NotificationType → Option (NotificationPreference → Bool)
email_category_field NotificationType.application_status = some (λ p. p.email_applications)
email_category_field NotificationType.assignment = some (λ p. p.email_applications)
email_category_field NotificationType.review_decision = some (λ p. p.email_reviews)
email_category_field NotificationType.review_comment = some (λ p. p.email_reviews)
email_category_field NotificationType.contribution_verified = some (λ p. p.email_contributions)
email_category_field NotificationType.contribution_revoked = some (λ p. p.email_contributions)
email_category_field NotificationType.badge_awarded = some (λ p. p.email_community)
email_category_field NotificationType.project_update = some (λ p. p.email_community)
email_category_field NotificationType.project_status = some (λ p. p.email_community)
email_category_field NotificationType.bookmark_change = some (λ p. p.email_community)
email_category_field _ = none

pub data Op : Type 0 where
  mark_read_op preferences_update : Op

pub data Payload : Type 0 where
  read_payload : Option ℕ → Payload
  preference_payload : NotificationPreference → Payload

-- The rows of one recipient in the order of their keys, and the recipient's preferences, which are
-- created when they are first asked for.
pub record Mailbox : Type 0 where
  pub recipient : ℕ
  pub email : Text
  pub preference : Option NotificationPreference
  pub rows : List Notification
  pub audit : List (Event Op Payload)

pub record Mail : Type 0 where
  pub subject : Text
  pub message : Text
  pub to : Text

-- The clock, the next key of the table, the translation of a message, and the mail server: the
-- class of the error that the mail about the rows with these keys meets, if any.
pub record Env : Type 0 where
  pub now : ℕ
  pub next_pk : ℕ
  pub gettext : Text → Text
  pub send_mail : List ℕ → Mail → Option Text

pub data NotificationError : Type 0 where
  unknown_field does_not_exist multiple_objects : NotificationError

abbrev pub Call : Type 0 → Type 0
Call A = Service Env Mailbox NotificationError A

abbrev pub is_pending : DeliveryStatus → Bool
is_pending DeliveryStatus.pending = true
is_pending _ = false

abbrev pub is_failed : DeliveryStatus → Bool
is_failed DeliveryStatus.failed = true
is_failed _ = false

abbrev pub is_email : Channel → Bool
is_email Channel.email = true
is_email Channel.in_app = false

abbrev pub is_no_digest : DigestFrequency → Bool
is_no_digest DigestFrequency.no_digest = true
is_no_digest _ = false

-- The defaults of the columns.
abbrev pub default_preference : NotificationPreference
default_preference = record {
  email_applications = true;
  email_reviews = true;
  email_contributions = true;
  email_community = false;
  digest_frequency = DigestFrequency.no_digest;
}

-- `preferences_for`: what it returns, and the row that it creates.
abbrev pub preference_of : Option NotificationPreference → NotificationPreference
preference_of none = default_preference
preference_of (some p) = p

unfoldable pub preferences_for : Mailbox → NotificationPreference
preferences_for box = preference_of box.preference

unfoldable pub with_preference : Mailbox → Mailbox
unfolding preferences_for
with_preference box = record box { preference = some (preferences_for box) }

abbrev pub important_subject : NotificationType → Bool
important_subject NotificationType.moderation = true
important_subject NotificationType.security = true
important_subject NotificationType.account = true
important_subject _ = false

-- DEFAULT_GENERIC_SUBJECT and the other subject of GENERIC_SUBJECTS
abbrev pub default_generic_subject : Text
default_generic_subject = text "You have a new notification on DevNepal"

abbrev pub account_subject : Text
account_subject = text "Important notice about your DevNepal account"

unfoldable pub safe_subject : Env → NotificationType → Text
safe_subject env type_ =
    env.gettext (if important_subject type_ then account_subject else default_generic_subject)
