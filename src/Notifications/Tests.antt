-- ===== src/Notifications/Tests.antt =====
-- The theorems about apps/notifications at concrete inputs.
use dev_nepal.Prelude.{◌≤◌, ◌≡◌, refl, true, false, none, some, List, [], ◌∷◌, any, length, text}
use dev_nepal.Service.{returns}
use dev_nepal.Notifications.Data.{
  NotificationType, Channel, DeliveryStatus, DigestFrequency, Notification, Mailbox, Env,
  default_preference,
}
use dev_nepal.Notifications.Delivery.{send_pending_notifications}
use dev_nepal.Notifications.Drain.{waits, two_runs_drain}
use dev_nepal.Notifications.Attempts.{Act, sends, count, is_attempted, is_sent}
use dev_nepal.Notifications.Budget.{attempts_are_bounded}
use dev_nepal.Notifications.Feed.{notify}
use dev_nepal.Notifications.Dedup.{notify_twice}

-- A mail server that is down, and one that answers.
abbrev down : Env
down = record {
  now = 100;
  next_pk = 7;
  gettext = λ t. t;
  send_mail = λ keys mail. some (text "TimeoutError");
}

abbrev up : Env
up = record down { now = 200; send_mail = λ keys mail. none }

abbrev queued : Notification
queued = record {
  pk = 5;
  type_ = NotificationType.security;
  channel = Channel.email;
  title = text "Important notice";
  body = [];
  context_url = text "/account/";
  read_at = none;
  delivery_status = DeliveryStatus.pending;
  template_version = text "generic-v1";
  delivery_attempts = 0;
  last_attempt_at = none;
  last_error_class = [];
  dedup_key = [];
  created_at = 90;
}

abbrev box : Mailbox
box = record {
  recipient = 3;
  email = text "member@example.np";
  preference = none;
  rows = queued ∷ [];
  audit = [];
}

two_runs_drain_example :
    any waits (send_pending_notifications up (send_pending_notifications down (box ∷ [])).1).1
    ≡ false
two_runs_drain_example = two_runs_drain down up (box ∷ [])

-- Digests, with a row that waits, one that was sent, and one more that waits.
abbrev digest_box : Mailbox
digest_box = record box {
  preference = some (record default_preference { digest_frequency = DigestFrequency.daily });
  rows =
      queued
      ∷ record queued { pk = 6; delivery_status = DeliveryStatus.sent }
      ∷ record queued { pk = 7 }
      ∷ [];
}

-- The first attempt fails, the second arrives, and the third finds nothing.
abbrev runs : List Act
runs = sends down ∷ sends up ∷ sends up ∷ []

attempts_are_bounded_example :
    (count is_attempted 5 runs digest_box ≤ 2) × (count is_sent 5 runs digest_box ≤ 1)
attempts_are_bounded_example = attempts_are_bounded 5 runs digest_box

notify_twice_example :
    (row : Notification) × ((notify NotificationType.security
        (text "/a/")
        none
        true
        (some (text "k"))
        up
        box).0
      ≡ returns row)
    × ((notify NotificationType.moderation
          (text "/b/")
          none
          false
          (some (text "k"))
          down
          (notify NotificationType.security (text "/a/") none true (some (text "k")) up box).1).0
        ≡ returns row)
    × ((notify NotificationType.moderation
          (text "/b/")
          none
          false
          (some (text "k"))
          down
          (notify NotificationType.security
            (text "/a/")
            none
            true
            (some (text "k"))
            up
            box).1).1.rows
        ≡ (notify NotificationType.security (text "/a/") none true (some (text "k")) up box).1.rows)
    × (length
          (notify NotificationType.security (text "/a/") none true (some (text "k")) up box).1.rows
        ≡ 3)
notify_twice_example =
    notify_twice NotificationType.security NotificationType.moderation (text "/a/") (text "/b/")
      none none true false (text "k") up down box refl refl refl
