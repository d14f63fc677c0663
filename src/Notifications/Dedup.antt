-- ===== src/Notifications/Dedup.antt =====
-- Repeated delivery of one event.
use dev_nepal.Prelude.{
  suc, ◌+◌, ◌≡◌, refl, ap, ◌∙◌, inl, inr, Bool, true, false, Option, some, List, [], ◌∷◌, ◌++◌,
  filter, any, length, length-append, filter_append, any_append, filter-fresh, Text, text, text_eq,
  text_eq_refl, text_eq-eq, is_nil, Bool-cases, arith,
}
use dev_nepal.Service.{returns}
use dev_nepal.Notifications.Data.{
  NotificationType, with_preference, preferences_for, email_category_field, Channel, DeliveryStatus,
  Notification, Mailbox, Env,
}
use dev_nepal.Notifications.Delivery.{allows_category}
use dev_nepal.Notifications.Feed.{
  notify, create_rows, ignores_preferences, has_key, is_taken, new_row, scoped_dedup_key,
  resolve_email_status, email_subject, sanitize_context_url,
}

-- The key of the email of an event.
abbrev email_key : Text → Text
email_key key = text "email:" ++ key

append-longer : (t : Text) → length (email_key t) ≡ 6 + length t
append-longer t = omega arith

email_key-other : (key : Text) → text_eq key (email_key key) ≡ false
email_key-other key = elim (Bool-cases (text_eq key (email_key key))) [
  | inr other ↦ other
  | inl same ↦
      absurd (omega (arith, ap length (text_eq-eq key (email_key key) same), append-longer key))
]

key-other : (key : Text) → text_eq (email_key key) key ≡ false
key-other key = elim (Bool-cases (text_eq (email_key key) key)) [
  | inr other ↦ other
  | inl same ↦
      absurd (omega (arith, ap length (text_eq-eq (email_key key) key same), append-longer key))
]

-- Neither row of the event is there yet.
abbrev IsNew : Text → List Notification → Type 0
IsNew key rows =
    (is_nil key ≡ false)
    × (any (has_key key) rows ≡ false)
    × (any (has_key (email_key key)) rows ≡ false)

-- The two rows of the event are there.
abbrev IsRecorded : Text → Notification → List Notification → Type 0
IsRecorded key row rows =
    (old : List Notification) × ((mail : Notification) × (rows ≡ (old ++ (row ∷ [])) ++ (mail ∷ []))
      × IsNew key old
      × (row.dedup_key ≡ key)
      × (mail.dedup_key ≡ email_key key))

two_more :
    (rows : List Notification) (row mail : Notification)
    → length ((rows ++ (row ∷ [])) ++ (mail ∷ [])) ≡ 2 + length rows
two_more rows row mail =
    omega (arith, length-append (rows ++ (row ∷ [])) (mail ∷ []), length-append rows (row ∷ []))

-- What the first call returns and leaves.
create_rows-records :
    (key : Text) (status : DeliveryStatus) (type_ : NotificationType) (title url : Text) (env : Env)
    (box : Mailbox)
    → IsNew key box.rows
    → (row : Notification) × ((create_rows key (email_key key) status type_ title url env box).0
        ≡ returns row)
      × IsRecorded key row (create_rows key (email_key key) status type_ title url env box).1.rows
      × (length (create_rows key (email_key key) status type_ title url env box).1.rows
          ≡ 2 + length box.rows)
unfolding create_rows
create_rows-records key status type_ title url env box (given, free, email_free) =
    let row = new_row env.next_pk Channel.in_app DeliveryStatus.delivered key type_ title url env in
    rw
      (
        given,
        free,
        any_append (has_key (email_key key)) box.rows (row ∷ []),
        email_free,
        email_key-other key,
      )
      (
        row,
        refl,
        (
          box.rows,
          (
            new_row (suc env.next_pk) Channel.email status (email_key key) type_ title url env,
            refl,
            (refl, free, email_free),
            refl,
            refl,
          ),
        ),
        two_more box.rows row
            (new_row (suc env.next_pk) Channel.email status (email_key key) type_ title url env),
      )

recorded_is_taken :
    (key : Text) (row : Notification) (rows : List Notification)
    → IsRecorded key row rows
    → is_taken key rows ≡ true
recorded_is_taken key row rows (old, (mail, e, (given, free, _), k, _)) =
    rw
      (
        e,
        given,
        any_append (has_key key) (old ++ (row ∷ [])) (mail ∷ []),
        any_append (has_key key) old (row ∷ []),
        free,
        k,
        text_eq_refl key,
      )
      refl

recorded_is_found :
    (key : Text) (row : Notification) (rows : List Notification)
    → IsRecorded key row rows
    → filter (has_key key) rows ≡ row ∷ []
recorded_is_found key row rows (old, (mail, e, (given, free, _), k, k')) =
    rw
      (
        e,
        filter_append (has_key key) (old ++ (row ∷ [])) (mail ∷ []),
        filter_append (has_key key) old (row ∷ []),
        filter-fresh (has_key key) old free,
        k,
        k',
        text_eq_refl key,
        key-other key,
      )
      refl

create_rows-repeats :
    (key : Text) (row : Notification) (status : DeliveryStatus) (type_ : NotificationType)
    (title url : Text) (env : Env) (box : Mailbox)
    → IsRecorded key row box.rows
    → create_rows key (email_key key) status type_ title url env box ≡ (returns row, box)
unfolding create_rows
create_rows-repeats key row status type_ title url env box recorded =
    rw (recorded_is_taken key row box.rows recorded, recorded_is_found key row box.rows recorded)
      refl

resolve-cases :
    (type_ : NotificationType) (mandatory : Bool) (env : Env) (box : Mailbox)
    → (status : DeliveryStatus) × ((box' : Mailbox) × (resolve_email_status type_ mandatory env box
          ≡ (returns status, box'))
        × (box'.rows ≡ box.rows))
unfolding resolve_email_status with_preference
resolve-cases type_ mandatory env box = elim (Bool-cases (ignores_preferences mandatory type_)) [
  | inl ignored ↦ rw ignored (DeliveryStatus.pending, (box, refl, refl))
  | inr heeded ↦
      elim (Bool-cases (allows_category (preferences_for box) (email_category_field type_))) [
        | inl allowed ↦
            rw (heeded, allowed) (DeliveryStatus.pending, (with_preference box, refl, refl))
        | inr out ↦ rw (heeded, out) (DeliveryStatus.suppressed, (with_preference box, refl, refl))
      ]
]

-- `notify` with a key.
notify-records :
    (type_ : NotificationType) (url : Text) (subject : Option Text) (mandatory : Bool) (key : Text)
    (env : Env) (box : Mailbox)
    → IsNew key box.rows
    → (row : Notification) × ((notify type_ url subject mandatory (some key) env box).0
        ≡ returns row)
      × IsRecorded key row (notify type_ url subject mandatory (some key) env box).1.rows
      × (length (notify type_ url subject mandatory (some key) env box).1.rows
          ≡ 2 + length box.rows)
unfolding notify scoped_dedup_key
notify-records type_ url subject mandatory key env box new =
    let (status, (box', e, same)) = resolve-cases type_ mandatory env box in
    let (row, first, recorded, longer) =
      create_rows-records key status type_ (email_subject env type_ subject)
        (sanitize_context_url url) env box' (rw same new) in
    rw e (row, first, recorded, longer ∙ ap (λ rows. 2 + length rows) same)

notify-repeats :
    (type_ : NotificationType) (url : Text) (subject : Option Text) (mandatory : Bool) (key : Text)
    (row : Notification) (env : Env) (box : Mailbox)
    → IsRecorded key row box.rows
    → ((notify type_ url subject mandatory (some key) env box).0 ≡ returns row)
      × ((notify type_ url subject mandatory (some key) env box).1.rows ≡ box.rows)
unfolding notify scoped_dedup_key
notify-repeats type_ url subject mandatory key row env box recorded =
    let (status, (box', e, same)) = resolve-cases type_ mandatory env box in
    rw
      (
        e,
        create_rows-repeats key row status type_ (email_subject env type_ subject)
            (sanitize_context_url url) env box' (rw same recorded),
      )
      (refl, same)

-- An event with a key that the recipient's rows do not use yet: `notify` returns a row and leaves
-- two more, and a second `notify` with the same key, whatever its type, subject, address and time,
-- returns the same row and leaves the rows as they are.
pub notify_twice :
    (type_ type' : NotificationType) (url url' : Text) (subject subject' : Option Text)
    (mandatory mandatory' : Bool) (key : Text) (env env' : Env) (box : Mailbox)
    → is_nil key ≡ false
    → any (has_key key) box.rows ≡ false
    → any (has_key (text "email:" ++ key)) box.rows ≡ false
    → let after = (notify type_ url subject mandatory (some key) env box).1 in
      (row : Notification) × ((notify type_ url subject mandatory (some key) env box).0
        ≡ returns row)
      × ((notify type' url' subject' mandatory' (some key) env' after).0 ≡ returns row)
      × ((notify type' url' subject' mandatory' (some key) env' after).1.rows ≡ after.rows)
      × (length after.rows ≡ 2 + length box.rows)
notify_twice type_ type' url url' subject subject' mandatory mandatory' key env env' box given free
      email_free =
    let (row, first, recorded, longer) =
      notify-records type_ url subject mandatory key env box (given, free, email_free) in
    let (again, same) =
      notify-repeats type' url' subject' mandatory' key row env'
        (notify type_ url subject mandatory (some key) env box).1 recorded in
    (row, first, again, same, longer)
