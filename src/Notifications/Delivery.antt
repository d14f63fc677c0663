-- ===== src/Notifications/Delivery.antt =====
-- apps/notifications/services.py: the dispatch of the queued emails.
use dev_nepal.Prelude.{
  ℕ, suc, take, all, ◌+◌, Bool, true, not, ◌&&◌, ◌||◌, Option, none, some, List, [], ◌∷◌, ◌++◌, map,
  filter, any, length, Text, text_eq, is_none, strip, ltb, leb, if◌then◌else◌,
}
use dev_nepal.Notifications.Data.{
  NotificationType, DeliveryStatus, Notification, NotificationPreference, is_mandatory,
  email_category_field, Mailbox, Env, is_pending, is_failed, is_email, is_no_digest,
  preferences_for, with_preference, default_generic_subject, safe_subject,
}

-- MAX_DELIVERY_ATTEMPTS
abbrev pub max_delivery_attempts : ℕ
max_delivery_attempts = 2

abbrev pub min : ℕ → ℕ → ℕ
min a b = if leb a b then a else b

-- `record_delivery_failure`
unfoldable pub record_delivery_failure : Text → ℕ → Notification → Notification
record_delivery_failure error_class now row = record row {
  delivery_status = DeliveryStatus.failed;
  last_error_class = take 100 error_class;
  delivery_attempts = min (suc row.delivery_attempts) max_delivery_attempts;
  last_attempt_at = some now;
}

-- One row of `_mark_sent`
unfoldable pub mark_sent : ℕ → Notification → Notification
mark_sent now row = record row {
  delivery_status = DeliveryStatus.sent;
  last_attempt_at = some now;
  last_error_class = [];
}

-- `_dispatch_candidates`
unfoldable pub is_candidate : Notification → Bool
is_candidate row =
    is_email row.channel
    && (is_pending row.delivery_status
        || is_failed row.delivery_status && ltb row.delivery_attempts max_delivery_attempts)

abbrev pub allows_category : NotificationPreference → Option (NotificationPreference → Bool) → Bool
allows_category preference none = true
allows_category preference (some category) = category preference

-- `_allows_email`
unfoldable pub allows_email : NotificationPreference → NotificationType → Bool
unfolding is_mandatory email_category_field
allows_email preference type_ =
    is_mandatory type_ || allows_category preference (email_category_field type_)

abbrev pub same_subject : Env → Text → Notification → Bool
same_subject env subject row = text_eq (safe_subject env row.type_) subject

-- `_compose_subject`, of rows that are not empty.
unfoldable pub compose_subject : Env → List Notification → Text
unfolding safe_subject
compose_subject env [] = env.gettext default_generic_subject
compose_subject env (row ∷ rows) =
    if all (same_subject env (safe_subject env row.type_)) rows
    then safe_subject env row.type_
    else env.gettext default_generic_subject

abbrev pub line_feed : Text
line_feed = 10 ∷ []

abbrev pub paragraph : Notification → Text
paragraph row = strip (row.title ++ line_feed ++ row.context_url)

abbrev pub join : Text → List Text → Text
join separator [] = []
join separator (t ∷ []) = t
join separator (t ∷ u ∷ ts) = t ++ separator ++ join separator (u ∷ ts)

unfoldable pub compose_body : List Notification → Text
unfolding strip
compose_body rows = join (line_feed ++ line_feed) (map paragraph rows)

-- What `send_mail` answers to one generic email that covers rows.
unfoldable pub send : Env → Mailbox → List Notification → Option Text
unfolding compose_subject compose_body
send env box rows =
    env.send_mail (map (λ row. row.pk) rows)
      (record { subject = compose_subject env rows; message = compose_body rows; to = box.email })

-- One row of `_deliver`, whose email covers `rows`.
abbrev pub settle_delivery : Env → Option Text → Notification → Notification
settle_delivery env none row = mark_sent env.now row
settle_delivery env (some error_class) row = record_delivery_failure error_class env.now row

unfoldable pub deliver : Env → Mailbox → List Notification → Notification → Notification
unfolding mark_sent record_delivery_failure send
deliver env box rows row = settle_delivery env (send env box rows) row

abbrev pub is_allowed : Mailbox → Notification → Bool
is_allowed box row = is_candidate row && allows_email (preferences_for box) row.type_

abbrev pub is_opted_out : Mailbox → Notification → Bool
is_opted_out box row = is_candidate row && not (allows_email (preferences_for box) row.type_)

-- The rows that the email about a row covers: the row alone, or the digest.
unfoldable pub email_of : Mailbox → Notification → List Notification
unfolding is_candidate allows_email preferences_for
email_of box row =
    if is_no_digest (preferences_for box).digest_frequency
    then row ∷ []
    else filter (is_allowed box) box.rows

abbrev pub suppress : Notification → Notification
suppress row = record row { delivery_status = DeliveryStatus.suppressed }

unfoldable pub first_email : Mailbox → List Notification → List (List Notification)
unfolding email_of
first_email box [] = []
first_email box (row ∷ rows) = email_of box row ∷ []

-- The lists of rows that one dispatch calls `_deliver` on, in order.
unfoldable pub emails : Mailbox → List (List Notification)
unfolding email_of first_email is_candidate allows_email preferences_for
emails box =
    let allowed = filter (is_allowed box) box.rows in
    if is_no_digest (preferences_for box).digest_frequency
    then map (email_of box) allowed
    else first_email box allowed

-- What one dispatch does to a row of a recipient.
unfoldable pub dispatch_row : Env → Mailbox → Notification → Notification
unfolding is_candidate allows_email preferences_for email_of deliver
dispatch_row env box row =
    if not (is_candidate row)
    then row
    else if allows_email (preferences_for box) row.type_
    then deliver env box (email_of box row) row
    else suppress row

-- The recipients with candidates have preferences from then on.
unfoldable pub dispatch : Env → Mailbox → Mailbox
unfolding is_candidate dispatch_row with_preference
dispatch env box =
    if any is_candidate box.rows
    then record (with_preference box) { rows = map (dispatch_row env box) box.rows }
    else box

pub record DispatchResult : Type 0 where
  pub sent : ℕ
  pub failed : ℕ
  pub suppressed : ℕ

abbrev pub arrives : Env → Mailbox → Notification → Bool
arrives env box row = is_allowed box row && is_none (send env box (email_of box row))

abbrev pub bounces : Env → Mailbox → Notification → Bool
bounces env box row = is_allowed box row && not (is_none (send env box (email_of box row)))

-- The counts of one recipient, added to those of the others.
abbrev pub tally : Env → Mailbox → DispatchResult → DispatchResult
tally env box counts = record {
  sent = length (filter (arrives env box) box.rows) + counts.sent;
  failed = length (filter (bounces env box) box.rows) + counts.failed;
  suppressed = length (filter (is_opted_out box) box.rows) + counts.suppressed;
}

-- `send_pending_notifications`, over the recipients in order.
unfoldable pub send_pending_notifications : Env → List Mailbox → DispatchResult × List Mailbox
unfolding dispatch is_candidate allows_email preferences_for send email_of
send_pending_notifications env [] = (record { sent = 0; failed = 0; suppressed = 0 }, [])
send_pending_notifications env (box ∷ boxes) =
    let (counts, rest) = send_pending_notifications env boxes in
    (tally env box counts, dispatch env box ∷ rest)
