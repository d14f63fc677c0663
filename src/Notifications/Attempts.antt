-- ===== src/Notifications/Attempts.antt =====
-- Histories of a recipient, and what is left of the attempts of a row.
use dev_nepal.Prelude.{
  ℕ, ◌+◌, ◌-◌, ◌≤◌, ◌≡◌, refl, sym, ap, ◌∙◌, ◌⊎◌, inl, inr, Bool, true, false, concat, ◌&&◌, Option,
  none, some, List, [], ◌∷◌, map, any, filter, length, ◌==◌, if◌then◌else◌, is_none, Bool-cases,
  Text, arith,
}
use dev_nepal.Notifications.Data.{
  Notification, NotificationPreference, Mailbox, Env, is_failed, preferences_for,
}
use dev_nepal.Notifications.Delivery.{
  is_candidate, is_allowed, emails, allows_email, dispatch_row, dispatch, deliver, send, email_of,
  mark_sent, record_delivery_failure, settle_delivery, suppress,
}
use dev_nepal.Notifications.Drain.{waits, idle_dispatch, busy_dispatch}

-- What happens to a recipient: a dispatch, or new preferences.
pub data Act : Type 0 where
  sends : Env → Act
  prefers : NotificationPreference → Act

unfoldable pub act : Act → Mailbox → Mailbox
act (sends env) box = dispatch env box
act (prefers preference) box = record box { preference = some preference }

unfoldable pub run : List Act → Mailbox → Mailbox
unfolding act
run [] box = box
run (c ∷ cs) box = run cs (act c box)

-- A test of the emails of a dispatch, each of them the rows that it covers.
abbrev pub Test : Type 0
Test = Env → Mailbox → List Notification → Bool

abbrev pub is_attempted : Test
is_attempted env box rows = true

abbrev pub is_sent : Test
is_sent env box rows = is_none (send env box rows)

abbrev pub is_row : ℕ → Notification → Bool
is_row pk row = row.pk == pk

-- How often the row with a key is in the emails of a dispatch that pass a test.
unfoldable pub covered : Test → ℕ → Env → Mailbox → ℕ
unfolding emails send
covered test pk env box = length (filter (is_row pk) (concat (filter (test env box) (emails box))))

-- How often the row is in such emails over a history.
unfoldable pub count : Test → ℕ → List Act → Mailbox → ℕ
unfolding act covered
count test pk [] box = 0
count test pk (sends env ∷ cs) box =
    covered test pk env box + count test pk cs (act (sends env) box)
count test pk (prefers preference ∷ cs) box = count test pk cs (act (prefers preference) box)

-- The row is to be mailed, in an email that passes the test.
abbrev pub is_covered : Test → Env → Mailbox → Notification → Bool
is_covered test env box row = is_allowed box row && test env box (email_of box row)

abbrev pub one_if : Bool → ℕ
one_if b = if b then 1 else 0

-- What is left of the attempts of a row, and of its deliveries.
unfoldable pub attempts_left : Notification → ℕ
unfolding is_candidate
attempts_left row =
    if is_candidate row
    then (if is_failed row.delivery_status then 2 - row.delivery_attempts else 2)
    else 0

unfoldable pub deliveries_left : Notification → ℕ
unfolding is_candidate
deliveries_left row = one_if (is_candidate row)

settle-attempts_left :
    (env : Env) (answer : Option Text) (row : Notification)
    → is_candidate row ≡ true
    → 1 + attempts_left (settle_delivery env answer row) ≤ attempts_left row
unfolding mark_sent record_delivery_failure is_candidate attempts_left
settle-attempts_left env none row waiting = ground arith
settle-attempts_left env (some error_class) row waiting = ground arith

settle-deliveries_left :
    (env : Env) (answer : Option Text) (row : Notification)
    → is_candidate row ≡ true
    → one_if (is_none answer) + deliveries_left (settle_delivery env answer row)
      ≤ deliveries_left row
unfolding mark_sent record_delivery_failure is_candidate deliveries_left
settle-deliveries_left env none row waiting = ground arith
settle-deliveries_left env (some error_class) row waiting = ground arith

suppressed-spent :
    (row : Notification) → (attempts_left (suppress row) ≡ 0) × (deliveries_left (suppress row) ≡ 0)
unfolding is_candidate attempts_left deliveries_left
suppressed-spent row = (ground arith, ground arith)

pub left-bounds : (row : Notification) → (attempts_left row ≤ 2) × (deliveries_left row ≤ 1)
unfolding attempts_left deliveries_left
left-bounds row = (ground arith, ground arith)

-- What a dispatch does to a row.
dispatch_row-cases :
    (env : Env) (box : Mailbox) (row : Notification)
    → (is_allowed box row ≡ false) × (dispatch_row env box row ≡ row)
      ⊎ (is_allowed box row ≡ false) × (dispatch_row env box row ≡ suppress row)
      ⊎ (is_candidate row ≡ true)
        × (is_allowed box row ≡ true)
        × (dispatch_row env box row ≡ settle_delivery env (send env box (email_of box row)) row)
unfolding dispatch_row deliver
dispatch_row-cases env box row = elim (Bool-cases (is_candidate row)) [
  | inr idle ↦ rw idle (inl (refl, refl))
  | inl waiting ↦ elim (Bool-cases (allows_email (preferences_for box) row.type_)) [
    | inr out ↦ rw (waiting, out) (inr (inl (refl, refl)))
    | inl allowed ↦ rw (waiting, allowed) (inr (inr (refl, refl, refl)))
  ]
]

pub attempts_pay :
    (env : Env) (box : Mailbox) (row : Notification)
    → one_if (is_covered is_attempted env box row) + attempts_left (dispatch_row env box row)
      ≤ attempts_left row
attempts_pay env box row = elim (dispatch_row-cases env box row) [
  | inl (out, e) ↦ rw (out, e) (omega arith)
  | inr (inl (out, e)) ↦ rw (out, e) (omega (arith, suppressed-spent row))
  | inr (inr (waiting, allowed, e)) ↦
      rw (allowed, e) (settle-attempts_left env (send env box (email_of box row)) row waiting)
]

pub sent_pays :
    (env : Env) (box : Mailbox) (row : Notification)
    → one_if (is_covered is_sent env box row) + deliveries_left (dispatch_row env box row)
      ≤ deliveries_left row
sent_pays env box row = elim (dispatch_row-cases env box row) [
  | inl (out, e) ↦ rw (out, e) (omega arith)
  | inr (inl (out, e)) ↦ rw (out, e) (omega (arith, suppressed-spent row))
  | inr (inr (waiting, allowed, e)) ↦
      rw (allowed, e) (settle-deliveries_left env (send env box (email_of box row)) row waiting)
]

settled-pk :
    (env : Env) (answer : Option Text) (row : Notification)
    → (settle_delivery env answer row).pk ≡ row.pk
unfolding mark_sent record_delivery_failure
settled-pk env none row = refl
settled-pk env (some error_class) row = refl

pub dispatch_row-pk :
    (env : Env) (box : Mailbox) (row : Notification) → (dispatch_row env box row).pk ≡ row.pk
unfolding dispatch_row deliver mark_sent record_delivery_failure
dispatch_row-pk env box row = elim (dispatch_row-cases env box row) [
  | inl (_, e) ↦ ap (λ r. r.pk) e
  | inr (inl (_, e)) ↦ ap (λ r. r.pk) e
  | inr (inr (_, _, e)) ↦ ap (λ r. r.pk) e ∙ settled-pk env (send env box (email_of box row)) row
]

untouched :
    (env : Env) (box : Mailbox) (row : Notification)
    → is_candidate row ≡ false
    → dispatch_row env box row ≡ row
unfolding dispatch_row
untouched env box row idle = rw idle refl

idle_rows :
    (env : Env) (box : Mailbox) (rows : List Notification)
    → any is_candidate rows ≡ false
    → map (dispatch_row env box) rows ≡ rows
idle_rows env box [] idle = refl
idle_rows env box (row ∷ rows) idle = elim (Bool-cases (is_candidate row)) [
  | inl waiting ↦ absurd (ground (arith, rw waiting at idle))
  | inr still ↦ rw (untouched env box row still, idle_rows env box rows (rw still at idle)) refl
]

pub dispatch-rows :
    (env : Env) (box : Mailbox) → (dispatch env box).rows ≡ map (dispatch_row env box) box.rows
dispatch-rows env box = elim (Bool-cases (waits box)) [
  | inl busy ↦ busy_dispatch env box busy
  | inr idle ↦ ap (λ b. b.rows) (idle_dispatch env box idle) ∙ sym (idle_rows env box box.rows idle)
]
