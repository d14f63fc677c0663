-- ===== src/Notifications/Feed.antt =====
-- apps/notifications/services.py: the recording of an event, the reading of the feed, and the
-- member's preferences.
use dev_nepal.Prelude.{
  ℕ, suc, take, Bool, true, not, ◌&&◌, ◌||◌, Option, none, some, List, [], ◌∷◌, ◌++◌, map, filter,
  any, length, Text, text, text_eq, is_nil, is_none, ◌==◌, if◌then◌else◌,
}
use dev_nepal.Service.{Reply, returns, raises, look, ◌>>=◌, EventResult}
use dev_nepal.Notifications.Data.{
  NotificationType, Channel, DeliveryStatus, DigestFrequency, Notification, NotificationPreference,
  is_mandatory, email_category_field, Op, Payload, Mailbox, Env, NotificationError, Call, is_email,
  preferences_for, preference_of, with_preference, default_generic_subject, account_subject,
  safe_subject,
}
use dev_nepal.Notifications.Delivery.{allows_category}

-- "/" and a text, but not "//" and a text
abbrev pub is_internal : Text → Bool
is_internal [] = true
is_internal (c ∷ []) = c == 47
is_internal (c ∷ d ∷ _) = c == 47 && not (d == 47)

-- `_sanitize_context_url`, of the text in the context.
unfoldable pub sanitize_context_url : Text → Text
sanitize_context_url raw = if is_internal raw then take 500 raw else []

-- `_resolve_email_status`, and the preferences that it creates.
unfoldable pub ignores_preferences : Bool → NotificationType → Bool
unfolding is_mandatory
ignores_preferences mandatory type_ = mandatory || is_mandatory type_

unfoldable pub resolve_email_status : NotificationType → (mandatory : Bool) → Call DeliveryStatus
unfolding ignores_preferences email_category_field preferences_for with_preference
resolve_email_status type_ mandatory env box =
    if ignores_preferences mandatory type_
    then (returns DeliveryStatus.pending, box)
    else if allows_category (preferences_for box) (email_category_field type_)
    then (returns DeliveryStatus.pending, with_preference box)
    else (returns DeliveryStatus.suppressed, with_preference box)

-- `_scoped_dedup_key`
unfoldable pub scoped_dedup_key : Option Text → Channel → Text
scoped_dedup_key none _ = []
scoped_dedup_key (some key) Channel.in_app = key
scoped_dedup_key (some key) Channel.email = text "email:" ++ key

-- `_email_subject`
unfoldable pub email_subject : Env → NotificationType → Option Text → Text
unfolding safe_subject
email_subject env type_ none = safe_subject env type_
email_subject env type_ (some subject) =
    if text_eq subject (env.gettext default_generic_subject)
      || text_eq subject (env.gettext account_subject)
    then subject
    else safe_subject env type_

abbrev pub has_key : Text → Notification → Bool
has_key key row = text_eq row.dedup_key key

-- `uniq_notif_recipient_dedup`
abbrev pub is_taken : Text → List Notification → Bool
is_taken key rows = not (is_nil key) && any (has_key key) rows

abbrev pub new_row :
    ℕ
    → Channel
    → DeliveryStatus
    → (key : Text) → NotificationType
    → (title url : Text) → Env
    → Notification
new_row pk channel status key type_ title url env = record {
  pk = pk;
  type_ = type_;
  channel = channel;
  title = title;
  body = env.gettext (text "Sign in to DevNepal to view the details.");
  context_url = url;
  read_at = none;
  delivery_status = status;
  template_version = text "generic-v1";
  delivery_attempts = 0;
  last_attempt_at = none;
  last_error_class = [];
  dedup_key = key;
  created_at = env.now;
}

abbrev add_row : Notification → Mailbox → Mailbox
add_row row box = record box { rows = box.rows ++ (row ∷ []) }

-- `Notification.objects.get`
abbrev pub only : List Notification → Reply NotificationError Notification
only [] = raises NotificationError.does_not_exist
only (row ∷ []) = returns row
only (_ ∷ _ ∷ _) = raises NotificationError.multiple_objects

-- `notify` after it has resolved the status of the email: the transaction of the two rows, or the
-- row that is there already when the unique constraint refuses one of them.
unfoldable pub create_rows :
    (in_app_key email_key : Text)
    → DeliveryStatus
    → NotificationType
    → (title url : Text) → Call Notification
create_rows in_app_key email_key status type_ title url env box =
    let in_app_row =
      new_row env.next_pk Channel.in_app DeliveryStatus.delivered in_app_key type_ title url env in
    let email_row = new_row (suc env.next_pk) Channel.email status email_key type_ title url env in
    if is_taken in_app_key box.rows || is_taken email_key (box.rows ++ (in_app_row ∷ []))
    then (only (filter (has_key in_app_key) box.rows), box)
    else (returns in_app_row, add_row email_row (add_row in_app_row box))

unfoldable pub notify :
    NotificationType
    → (context_url : Text) → (subject : Option Text) → (mandatory : Bool)
    → (dedup_key : Option Text) → Call Notification
notify type_ context_url subject mandatory dedup_key = do
  title ← look (λ env. email_subject env type_ subject)
  status ← resolve_email_status type_ mandatory
  create_rows (scoped_dedup_key dedup_key Channel.in_app) (scoped_dedup_key dedup_key Channel.email)
      status type_ title (sanitize_context_url context_url)

-- One of the recipient's unread rows of the feed.
abbrev pub is_unread : List ℕ → Notification → Bool
is_unread ids row =
    not (is_email row.channel) && any (λ id. row.pk == id) ids && is_none row.read_at

abbrev read_at_ : ℕ → List ℕ → Notification → Notification
read_at_ now ids row = if is_unread ids row then record row { read_at = some now } else row

abbrev note : Op → Payload → Payload → Env → Mailbox → Mailbox
note action before after env box = record box {
  audit =
      record {
        actor = some box.recipient;
        action = action;
        before = before;
        after = after;
        result = EventResult.success;
        created_at = env.now;
      }
      ∷ box.audit;
}

abbrev note_each : List Notification → Env → Mailbox → Mailbox
note_each [] env box = box
note_each (row ∷ rows) env box =
    note_each rows env (
      note Op.mark_read_op (Payload.read_payload none) (Payload.read_payload (some env.now)) env
        box)

unfoldable pub mark_read : List ℕ → Call ℕ
mark_read ids env box =
    let unread = filter (is_unread ids) box.rows in
    (
      returns (length unread),
      note_each unread env (record box { rows = map (read_at_ env.now ids) box.rows }),
    )

unfoldable pub unread_count : Mailbox → ℕ
unread_count box =
    length (filter (λ row. not (is_email row.channel) && is_none row.read_at) box.rows)

-- A keyword argument of `update_email_preferences`; any name that is not a field is refused.
pub data Field : Type 0 where
  applications reviews contributions community : Bool → Field
  digest : DigestFrequency → Field
  other : Field

abbrev set_field : Field → NotificationPreference → Option NotificationPreference
set_field (applications value) p = some (record p { email_applications = value })
set_field (reviews value) p = some (record p { email_reviews = value })
set_field (contributions value) p = some (record p { email_contributions = value })
set_field (community value) p = some (record p { email_community = value })
set_field (digest value) p = some (record p { digest_frequency = value })
set_field other p = none

abbrev set_fields : List Field → Option NotificationPreference → Option NotificationPreference
set_fields _ none = none
set_fields [] (some p) = some p
set_fields (field ∷ fields) (some p) = set_fields fields (set_field field p)

abbrev save_preference :
    Option NotificationPreference → Env → Mailbox → Reply NotificationError (Unit {0}) × Mailbox
save_preference none env box = (raises NotificationError.unknown_field, box)
save_preference (some p) env box = (
  returns tt,
  note Op.preferences_update (Payload.preference_payload (preference_of box.preference))
      (Payload.preference_payload p) env (record box { preference = some p }),
)

unfoldable pub update_email_preferences : List Field → Call (Unit {0})
unfolding preferences_for with_preference
update_email_preferences fields env box =
    save_preference (set_fields fields (some (preferences_for box))) env (with_preference box)
