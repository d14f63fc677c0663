-- ===== src/Notifications/Emails.antt =====
-- The rows in the emails of one dispatch, counted row by row.
use dev_nepal.Prelude.{
  ℕ, ◌≡◌, refl, sym, ◌∙◌, ap, inl, inr, Bool, true, false, ◌&&◌, List, [], ◌∷◌, map, filter, length,
  concat, length-append, filter_append, if◌then◌else◌, ◌==◌, Bool-cases, arith,
}
use dev_nepal.Notifications.Data.{Notification, Mailbox, Env, preferences_for, is_no_digest}
use dev_nepal.Notifications.Delivery.{email_of, emails, first_email, is_allowed}
use dev_nepal.Notifications.Attempts.{Test, covered, is_covered, is_row}

-- Emails that pass `ok`, and rows that are allowed and counted.
module _ (counts allowed : Notification → Bool) (ok : List Notification → Bool) where
  abbrev counted_in : List (List Notification) → ℕ
  counted_in lists = length (filter counts (concat (filter ok lists)))

  single_emails :
      (g : Notification → List Notification)
      → ((row : Notification) → g row ≡ row ∷ [])
      → (rows : List Notification)
      → counted_in (map g (filter allowed rows))
        ≡ length (filter (λ row. counts row && (allowed row && ok (g row))) rows)
  single_emails g h [] = refl
  single_emails g h (row ∷ rows) =
      let rest = single_emails g h rows in
      elim (Bool-cases (allowed row)) [
        | inr out ↦ elim (Bool-cases (counts row)) [
          | inl mine ↦ rw (out, mine) rest
          | inr other ↦ rw (out, other) rest
        ]
        | inl due ↦ elim (Bool-cases (ok (g row))) [
          | inr fails ↦ elim (Bool-cases (counts row)) [
            | inl mine ↦ rw (due, fails, mine) rest
            | inr other ↦ rw (due, fails, other) rest
          ]
          | inl passes ↦ elim (Bool-cases (counts row)) [
            | inl mine ↦ rw (due, passes, h row, mine, rest) refl
            | inr other ↦ rw (due, passes, h row, other, rest) refl
          ]
        ]
      ]

  -- The rows of one email, if it passes.
  digest_rows :
      (g : Notification → Bool) (b : Bool)
      → ((row : Notification) → g row ≡ b)
      → (rows : List Notification)
      → length (filter (λ row. counts row && (allowed row && g row)) rows)
        ≡ (if b then length (filter counts (filter allowed rows)) else 0)
  digest_rows g true h [] = refl
  digest_rows g false h [] = refl
  digest_rows g b h (row ∷ rows) =
      let rest = digest_rows g b h rows in let same = h row in ground (arith, rest, same)

  one_email :
      (digest : List Notification)
      → counted_in (digest ∷ []) ≡ (if ok digest then length (filter counts digest) else 0)
  one_email digest = elim (Bool-cases (ok digest)) [
    | inr fails ↦ rw fails refl
    | inl passes ↦
        rw (passes, filter_append counts digest [])
          (omega (arith, length-append (filter counts digest) []))
  ]

email_single :
    (box : Mailbox) (row : Notification)
    → is_no_digest (preferences_for box).digest_frequency ≡ true
    → email_of box row ≡ row ∷ []
unfolding email_of
email_single box row h = rw h refl

email_digest :
    (box : Mailbox) (row : Notification)
    → is_no_digest (preferences_for box).digest_frequency ≡ false
    → email_of box row ≡ filter (is_allowed box) box.rows
unfolding email_of
email_digest box row h = rw h refl

emails_single :
    (box : Mailbox)
    → is_no_digest (preferences_for box).digest_frequency ≡ true
    → emails box ≡ map (email_of box) (filter (is_allowed box) box.rows)
unfolding emails
emails_single box h = simp h refl

emails_digest :
    (box : Mailbox)
    → is_no_digest (preferences_for box).digest_frequency ≡ false
    → emails box ≡ first_email box (filter (is_allowed box) box.rows)
unfolding emails
emails_digest box h = simp h refl

-- The digest, if a row is allowed at all.
first_email_rows :
    (test : Test) (pk : ℕ) (env : Env) (box : Mailbox) (rows : List Notification)
    → is_no_digest (preferences_for box).digest_frequency ≡ false
    → filter (is_allowed box) box.rows ≡ rows
    → length (filter (is_row pk) (concat (filter (test env box) (first_email box rows))))
      ≡ (if test env box rows then length (filter (is_row pk) rows) else 0)
unfolding first_email
first_email_rows test pk env box [] h e = elim (Bool-cases (test env box [])) [
  | inl passes ↦ rw passes refl
  | inr fails ↦ rw fails refl
]
first_email_rows test pk env box (row ∷ rows) h e =
    rw (email_digest box row h, e)
      (one_email (is_row pk) (is_allowed box) (test env box) (row ∷ rows))

-- The row is in as many passing emails as there are rows with its key that a passing email covers.
pub covered_passing :
    (test : Test) (pk : ℕ) (env : Env) (box : Mailbox)
    → covered test pk env box
      ≡ length (filter (λ row. row.pk == pk && is_covered test env box row) box.rows)
unfolding covered
covered_passing test pk env box =
    elim (Bool-cases (is_no_digest (preferences_for box).digest_frequency)) [
      | inr digest ↦
          let rows = filter (is_allowed box) box.rows in
          rw (emails_digest box digest) (
            first_email_rows test pk env box rows digest refl
            ∙ sym (
                digest_rows (is_row pk) (is_allowed box) (test env box)
                  (λ row. test env box (email_of box row)) (test env box rows)
                  (λ row. ap (test env box) (email_digest box row digest)) box.rows))
      | inl single ↦ rw (emails_single box single) (
          single_emails (is_row pk) (is_allowed box) (test env box) (email_of box)
            (λ row. email_single box row single) box.rows)
    ]
