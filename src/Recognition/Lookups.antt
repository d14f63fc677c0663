-- ===== src/Recognition/Lookups.antt =====
-- Rows found by their keys, in a table and in its snapshot.
use dev_nepal.Prelude.{
  ℕ, ◌≡◌, refl, ap, ◌∙◌, inl, inr, Bool, true, false, Option, none, some, List, [], ◌∷◌, All, find?,
  filter, map, ◌==◌, if◌then◌else◌, Bool-cases, Option-cases, arith,
}
use dev_nepal.Recognition.Data.{ContributionScore, Contribution, BadgeAward, Ledger}
use dev_nepal.Recognition.Snapshots.{is_in, is_for, chosen, score_row, score_rows, award_row}
use dev_nepal.Recognition.Changes.{push, write_each}
use dev_nepal.Recognition.Agreement.{blank_entry, blank_award, erase, erase_award}

module _ {A : Type 0} (test : A → Bool) (f : A → Option A) where
  pub write_each-map :
      (g : A → A)
      → ((x : A) → test (g x) ≡ test x)
      → ((x : A) → f (g x) ≡ f x)
      → ((x : A) → test x ≡ false → g x ≡ x)
      → (xs : List A) → write_each test f (map g xs) ≡ write_each test f xs
  write_each-map g t h k [] = refl
  write_each-map g t h k (x ∷ xs) =
      let same : (if test (g x) then f (g x) else some (g x)) ≡ (if test x then f x else some x) =
        elim (Bool-cases (test x)) [
          | inl q ↦ rw (t x ∙ q, q) (h x)
          | inr q ↦ rw (t x ∙ q, q) (ap some (k x q))
        ] in
      ap (λ y. push y (write_each test f (map g xs))) same
      ∙ ap (push (if test x then f x else some x)) (write_each-map g t h k xs)

  pub write_each-keeps :
      (xs : List A) → All (λ x. test x ≡ true → f x ≡ some x) xs → write_each test f xs ≡ some xs
  write_each-keeps [] h = refl
  write_each-keeps (x ∷ xs) (here, h) = elim (Bool-cases (test x)) [
    | inl q ↦ rw (write_each-keeps xs h, q, here q) refl
    | inr q ↦ rw (write_each-keeps xs h, q) refl
  ]

pub All-implies :
    {A : Type 0} {P Q : A → Type 0} → ((x : A) → P x → Q x) → (xs : List A) → All P xs → All Q xs
All-implies h [] u = tt
All-implies h (x ∷ xs) (p, ps) = (h x p, All-implies h xs ps)

-- The contribution whose score has this key
abbrev pub has_score : ℕ → Contribution → Bool
has_score key e = elim e.score [ none ↦ false | some score ↦ score.pk == key ]

abbrev pub has_pk : ℕ → BadgeAward → Bool
has_pk key award = award.pk == key

abbrev pub IsFoundBy : List Contribution → Contribution → Option ContributionScore → Type 0
IsFoundBy entries e none = Unit
IsFoundBy entries e (some score) = find? (has_score score.pk) entries ≡ some e

-- Every row is the one that its primary key finds.
pub record IsKeyed (s : Ledger) : Type 0 where
  pub scores : All (λ e. IsFoundBy s.entries e e.score) s.entries
  pub awards : All (λ award. find? (has_pk award.pk) s.awards ≡ some award) s.awards

either-pk : (e : Contribution) (b : Bool) → (if b then blank_entry e else e).pk ≡ e.pk
either-pk e true = refl
either-pk e false = refl

either-contribution :
    (award : BadgeAward) (b : Bool)
    → (if b then blank_award award else award).contribution ≡ award.contribution
either-contribution award true = refl
either-contribution award false = refl

pub erase-pk : (keys : List ℕ) (e : Contribution) → is_in (erase keys e).pk keys ≡ is_in e.pk keys
erase-pk keys e = ap (λ key. is_in key keys) (either-pk e (is_in e.pk keys))

pub erase-other : (keys : List ℕ) (e : Contribution) → is_in e.pk keys ≡ false → erase keys e ≡ e
erase-other keys e q = rw q refl

pub erase_award-contribution :
    (keys : List ℕ) (award : BadgeAward)
    → is_for keys (erase_award keys award).contribution ≡ is_for keys award.contribution
erase_award-contribution keys award =
    ap (is_for keys) (either-contribution award (is_for keys award.contribution))

pub erase_award-other :
    (keys : List ℕ) (award : BadgeAward)
    → is_for keys award.contribution ≡ false
    → erase_award keys award ≡ award
erase_award-other keys award q = rw q refl

pub find-score_rows :
    (key : ℕ) (keys : List ℕ) (entries : List Contribution) (e : Contribution)
    (score : ContributionScore)
    → find? (has_score key) entries ≡ some e
    → e.score ≡ some score
    → is_in e.pk keys ≡ true
    → find? (λ row. row.id == key) (score_rows (chosen keys entries)) ≡ some (score_row e.pk score)
find-score_rows key keys [] e score found scored kept = absurd (ground (arith, found))
find-score_rows key keys (x ∷ xs) e score found scored kept = elim (Bool-cases (has_score key x)) [
  | inl q ↦
      let same : x ≡ e = let e = rw q at found in cc in
      let owns : x.score ≡ some score = ap (λ a. a.score) same ∙ scored in
      rw (ap (λ a. is_in a.pk keys) same ∙ kept, owns, rw owns at q)
        (ap (λ a. some (score_row a.pk score)) same)
  | inr q ↦
      let rest = find-score_rows key keys xs e score (rw q at found) scored kept in
      elim (Bool-cases (is_in x.pk keys)) [
        | inr p ↦ rw p rest
        | inl p ↦ elim (Option-cases x.score) [
          | inl none_ ↦ rw (p, none_) rest
          | inr (other, some_) ↦ rw (p, some_, rw some_ at q) rest
        ]
      ]
]

pub find-award_rows :
    (key : ℕ) (keys : List ℕ) (awards : List BadgeAward) (award : BadgeAward)
    → find? (has_pk key) awards ≡ some award
    → is_for keys award.contribution ≡ true
    → find? (λ row. row.id == key) (map award_row (filter (λ a. is_for keys a.contribution) awards))
      ≡ some (award_row award)
find-award_rows key keys [] award found kept = absurd (ground (arith, found))
find-award_rows key keys (x ∷ xs) award found kept = elim (Bool-cases (x.pk == key)) [
  | inl q ↦
      let same : x ≡ award = let e = rw q at found in cc in
      rw (ap (λ a. is_for keys a.contribution) same ∙ kept, q) (ap (λ a. some (award_row a)) same)
  | inr q ↦
      let rest = find-award_rows key keys xs award (rw q at found) kept in
      elim (Bool-cases (is_for keys x.contribution)) [ inl p ↦ rw (p, q) rest | inr p ↦ rw p rest ]
]
