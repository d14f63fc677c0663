-- ===== src/Notifications/Budget.antt =====
-- How often a row is handed to the mail server over a history of dispatches.
use dev_nepal.Prelude.{
  ℕ, suc, ◌+◌, ◌*◌, ◌≤◌, ◌≡◌, inl, inr, Bool, ◌&&◌, List, [], ◌∷◌, map, filter, length, ◌==◌,
  if◌then◌else◌, Bool-cases, arith,
}
use dev_nepal.Notifications.Data.{Notification, Mailbox, Env}
use dev_nepal.Notifications.Delivery.{dispatch_row, dispatch}
use dev_nepal.Notifications.Emails.{covered_passing}
use dev_nepal.Notifications.Attempts.{
  Act, sends, prefers, Test, act, sent_pays, attempts_left, count, deliveries_left, dispatch-rows,
  dispatch_row-pk, is_attempted, is_sent, is_covered, covered, is_row, left-bounds, attempts_pay,
  one_if, run,
}

-- The sum of a budget over the rows with one key.
abbrev total : (Notification → ℕ) → ℕ → List Notification → ℕ
total left pk [] = 0
total left pk (row ∷ rows) = (if row.pk == pk then left row else 0) + total left pk rows

abbrev passing : Test → ℕ → Env → Mailbox → List Notification → ℕ
passing test pk env box rows =
    length (filter (λ row. row.pk == pk && is_covered test env box row) rows)

-- A test that each row pays for from a budget.
module _ (test : Test) (left : Notification → ℕ)
    (pays : (env : Env) (box : Mailbox) (row : Notification)
      → one_if (is_covered test env box row) + left (dispatch_row env box row) ≤ left row) where
  row_pays :
      (pk : ℕ) (d row : Notification) (t : Bool) (m n k : ℕ)
      → d.pk ≡ row.pk
      → one_if t + left d ≤ left row
      → m + n ≤ k
      → (if row.pk == pk && t then suc m else m) + ((if d.pk == pk then left d else 0) + n)
        ≤ (if row.pk == pk then left row else 0) + k
  row_pays pk d row t m n k e h rest = ground (arith, e, h, rest)

  rows_pay :
      (pk : ℕ) (env : Env) (box : Mailbox) (rows : List Notification)
      → passing test pk env box rows + total left pk (map (dispatch_row env box) rows)
        ≤ total left pk rows
  rows_pay pk env box [] = omega arith
  rows_pay pk env box (row ∷ rows) =
      let step =
        row_pays pk (dispatch_row env box row) row (is_covered test env box row)
          (passing test pk env box rows) (total left pk (map (dispatch_row env box) rows))
          (total left pk rows) (dispatch_row-pk env box row) (pays env box row)
          (rows_pay pk env box rows) in
      elim (Bool-cases (row.pk == pk && is_covered test env box row)) [
        | inl passes ↦ rw passes (rw passes at step)
        | inr fails ↦ rw fails (rw fails at step)
      ]

  box_pays :
      (pk : ℕ) (env : Env) (box : Mailbox)
      → covered test pk env box + total left pk (dispatch env box).rows ≤ total left pk box.rows
  box_pays pk env box =
      rw (covered_passing test pk env box, dispatch-rows env box) (rows_pay pk env box box.rows)

  count_pays :
      (pk : ℕ) (cs : List Act) (box : Mailbox)
      → count test pk cs box + total left pk (run cs box).rows ≤ total left pk box.rows
  unfolding count run act
  count_pays pk [] box = omega arith
  count_pays pk (prefers preference ∷ cs) box = count_pays pk cs (act (prefers preference) box)
  count_pays pk (sends env ∷ cs) box =
      omega (arith, box_pays pk env box, count_pays pk cs (dispatch env box))

-- The rows with a key: the key of a table names at most one.
abbrev pub copies : ℕ → List Notification → ℕ
copies pk rows = length (filter (is_row pk) rows)

total-copies :
    (pk : ℕ) (rows : List Notification)
    → (total attempts_left pk rows ≤ 2 * copies pk rows)
      × (total deliveries_left pk rows ≤ copies pk rows)
total-copies pk [] = (omega arith, omega arith)
total-copies pk (row ∷ rows) =
    let (attempts, deliveries) = total-copies pk rows in
    let (two, one) = left-bounds row in
    (ground (arith, attempts, two), ground (arith, deliveries, one))

-- Over any history of dispatches and changes of the preferences, whatever the mail server answers,
-- with digests or without: the rows with a key, of which a table has at most one, are in the lists
-- that the dispatches give to `_deliver` at most two times their number, and in lists whose email is
-- sent at most once their number.
pub attempts_are_bounded :
    (pk : ℕ) (cs : List Act) (box : Mailbox)
    → (count is_attempted pk cs box ≤ 2 * copies pk box.rows)
      × (count is_sent pk cs box ≤ copies pk box.rows)
attempts_are_bounded pk cs box =
    let (attempts, deliveries) = total-copies pk box.rows in
    (
      omega (arith, count_pays is_attempted attempts_left attempts_pay pk cs box, attempts),
      omega (arith, count_pays is_sent deliveries_left sent_pays pk cs box, deliveries),
    )
