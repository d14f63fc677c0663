-- ===== src/Notifications/Drain.antt =====
-- The queue of emails over two dispatches.
use dev_nepal.Prelude.{
  ◌≤◌, ◌≡◌, refl, ap, ◌∙◌, ◌⊎◌, inl, inr, Bool, true, false, Option, none, some, List, [], ◌∷◌, map,
  any, Bool-cases, Text, arith,
}
use dev_nepal.Notifications.Data.{Notification, Mailbox, Env, is_failed, preferences_for}
use dev_nepal.Notifications.Delivery.{
  is_candidate, allows_email, dispatch_row, dispatch, deliver, send, email_of, mark_sent,
  record_delivery_failure, send_pending_notifications, settle_delivery, suppress,
}

-- Out of the queue, or back in it after an attempt.
abbrev IsTried : Notification → Type 0
IsTried row =
    (is_candidate row ≡ false)
    ⊎ (is_failed row.delivery_status ≡ true) × (1 ≤ row.delivery_attempts)

settle_delivery-IsTried :
    (env : Env) (answer : Option Text) (row : Notification)
    → IsTried (settle_delivery env answer row)
unfolding mark_sent record_delivery_failure is_candidate
settle_delivery-IsTried env none row = ground arith
settle_delivery-IsTried env (some error_class) row = ground arith

suppressed-idle : (row : Notification) → is_candidate (suppress row) ≡ false
unfolding is_candidate
suppressed-idle row = ground arith

settle_delivery-idle :
    (env : Env) (answer : Option Text) (row : Notification)
    → is_failed row.delivery_status ≡ true
    → 1 ≤ row.delivery_attempts
    → is_candidate (settle_delivery env answer row) ≡ false
unfolding mark_sent record_delivery_failure is_candidate
settle_delivery-idle env none row h le = ground arith
settle_delivery-idle env (some error_class) row h le = ground arith

dispatch_row-IsTried :
    (env : Env) (box : Mailbox) (row : Notification) → IsTried (dispatch_row env box row)
unfolding dispatch_row deliver
dispatch_row-IsTried env box row = elim (Bool-cases (is_candidate row)) [
  | inr idle ↦ inl (rw idle idle)
  | inl waits ↦ elim (Bool-cases (allows_email (preferences_for box) row.type_)) [
    | inl allowed ↦
        rw (waits, allowed) (settle_delivery-IsTried env (send env box (email_of box row)) row)
    | inr out ↦ rw (waits, out) (inl (suppressed-idle row))
  ]
]

dispatch_row-idle :
    (env : Env) (box : Mailbox) (row : Notification)
    → IsTried row
    → is_candidate (dispatch_row env box row) ≡ false
unfolding dispatch_row deliver
dispatch_row-idle env box row tried = elim tried [
  | inl idle ↦ rw idle idle
  | inr (failed, le) ↦ elim (Bool-cases (is_candidate row)) [
    | inr idle ↦ rw idle idle
    | inl waits ↦ elim (Bool-cases (allows_email (preferences_for box) row.type_)) [
      | inl allowed ↦
          rw (waits, allowed)
            (settle_delivery-idle env (send env box (email_of box row)) row failed le)
      | inr out ↦ rw (waits, out) (suppressed-idle row)
    ]
  ]
]

rows_drain :
    (env env' : Env) (box box' : Mailbox) (rows : List Notification)
    → any is_candidate (map (dispatch_row env' box') (map (dispatch_row env box) rows)) ≡ false
rows_drain env env' box box' [] = refl
rows_drain env env' box box' (row ∷ rows) =
    rw (dispatch_row-idle env' box' (dispatch_row env box row) (dispatch_row-IsTried env box row))
      (rows_drain env env' box box' rows)

-- A recipient with an email to send
abbrev pub waits : Mailbox → Bool
waits box = any is_candidate box.rows

pub idle_dispatch : (env : Env) (box : Mailbox) → waits box ≡ false → dispatch env box ≡ box
unfolding dispatch
idle_dispatch env box idle = rw idle refl

pub busy_dispatch :
    (env : Env) (box : Mailbox)
    → waits box ≡ true
    → (dispatch env box).rows ≡ map (dispatch_row env box) box.rows
unfolding dispatch
busy_dispatch env box busy = rw busy refl

drained :
    (env env' : Env) (box box' : Mailbox) (rows' : List Notification)
    → rows' ≡ map (dispatch_row env box) box.rows
    → any is_candidate (map (dispatch_row env' box') rows') ≡ false
drained env env' box box' rows' e = rw e (rows_drain env env' box box' box.rows)

dispatch-drains :
    (env env' : Env) (box : Mailbox) → waits (dispatch env' (dispatch env box)) ≡ false
dispatch-drains env env' box = elim (Bool-cases (waits box)) [
  | inr idle ↦ rw (idle_dispatch env box idle, idle_dispatch env' box idle) idle
  | inl busy ↦ elim (Bool-cases (waits (dispatch env box))) [
    | inr idle ↦ rw (idle_dispatch env' (dispatch env box) idle) idle
    | inl again ↦
        ap (any is_candidate) (busy_dispatch env' (dispatch env box) again)
        ∙ drained env env' box (dispatch env box) (dispatch env box).rows
            (busy_dispatch env box busy)
  ]
]

-- Two runs of the dispatch empty the queue of every recipient, whatever the mail server answers in
-- each: after them no email waits to be sent or to be tried again.
pub two_runs_drain :
    (env env' : Env) (boxes : List Mailbox)
    → any waits (send_pending_notifications env' (send_pending_notifications env boxes).1).1 ≡ false
unfolding send_pending_notifications
two_runs_drain env env' [] = refl
two_runs_drain env env' (box ∷ boxes) =
    rw (dispatch-drains env env' box) (two_runs_drain env env' boxes)
