-- ===== src/Recognition/Agreement.antt =====
-- What a correction of scores leaves as it was.
use dev_nepal.Prelude.{
  ℕ, ◌≡◌, refl, ap, ◌∙◌, inl, inr, true, ◌&&◌, Option, none, some, is_none, List, [], ◌∷◌, Text,
  All, map, ◌==◌, if◌then◌else◌, Bool-cases, Option-cases, arith,
}
use dev_nepal.Accounts.{Actor}
use dev_nepal.Recognition.Data.{
  AwardStatus, Change, ContributionScore, Contribution, BadgeAward, Ledger,
}
use dev_nepal.Recognition.Snapshots.{is_in, is_for}
use dev_nepal.Recognition.Changes.{
  with_score, reversed, revoked_for, reverse_score, reverse_scores, set_points, change_scores,
  is_active,
}

-- A score without the columns that a correction writes.
abbrev pub blank : ContributionScore → ContributionScore
blank score = record score { points = 0; reversed_at = none; reversal_reason = [] }

abbrev pub blank_score : Option ContributionScore → Option ContributionScore
blank_score none = none
blank_score (some score) = some (blank score)

abbrev pub blank_entry : Contribution → Contribution
blank_entry e = record e { score = blank_score e.score }

abbrev pub blank_award : BadgeAward → BadgeAward
blank_award award = record award {
  status = AwardStatus.active;
  revocation_reason = [];
  revoked_by = none;
  revoked_at = none;
}

abbrev pub erase : List ℕ → Contribution → Contribution
erase keys e = if is_in e.pk keys then blank_entry e else e

abbrev pub erase_award : List ℕ → BadgeAward → BadgeAward
erase_award keys award = if is_for keys award.contribution then blank_award award else award

-- The ledgers agree, but for the scores and the awards of these contributions.
abbrev pub SameBut : List ℕ → Ledger → Ledger → Type 0
SameBut keys s s' =
    (map (erase keys) s'.entries ≡ map (erase keys) s.entries)
    × (map (erase_award keys) s'.awards ≡ map (erase_award keys) s.awards)

map-erased :
    {A B : Type 0}
    → (f : A → A) (g : A → B) → ((x : A) → g (f x) ≡ g x)
    → (xs : List A) → map g (map f xs) ≡ map g xs
map-erased f g h [] = refl
map-erased f g h (x ∷ xs) = rw (h x, map-erased f g h xs) refl

is_in-same : (a b : ℕ) (keys : List ℕ) → a == b ≡ true → is_in b keys ≡ true → is_in a keys ≡ true
is_in-same a b keys same i = let e : a ≡ b = ground (arith, same) in ap (λ k. is_in k keys) e ∙ i

is_for-in :
    (key : ℕ) (keys : List ℕ) (contribution : Option ℕ)
    → is_for (key ∷ []) contribution ≡ true
    → is_in key keys ≡ true
    → is_for keys contribution ≡ true
is_for-in key keys none h i = absurd (ground (arith, h))
is_for-in key keys (some other) h i = is_in-same other key keys (ground (arith, h)) i

blank_entry-changed :
    (f : ContributionScore → ContributionScore)
    → ((score : ContributionScore) → blank (f score) ≡ blank score)
    → (e : Contribution)
    → blank_entry (record e { score = elim e.score [ none ↦ none | some score ↦ some (f score) ] })
      ≡ blank_entry e
blank_entry-changed f h e = elim (Option-cases e.score) [
  | inl q ↦ rw q refl
  | inr (score, q) ↦ rw (q, h score) refl
]

erase-with_score :
    (f : ContributionScore → ContributionScore)
    → ((score : ContributionScore) → blank (f score) ≡ blank score)
    → (keys : List ℕ) (key : ℕ) → is_in key keys ≡ true
    → (e : Contribution) → erase keys (with_score f key e) ≡ erase keys e
erase-with_score f h keys key i e = elim (Bool-cases (e.pk == key)) [
  | inr q ↦ rw q refl
  | inl q ↦ rw (q, is_in-same e.pk key keys q i) (blank_entry-changed f h e)
]

erase-revoked_for :
    (actor : Actor) (reason : Text) (now : ℕ) (keys : List ℕ) (key : ℕ)
    → is_in key keys ≡ true
    → (award : BadgeAward)
    → erase_award keys (revoked_for actor reason now key award) ≡ erase_award keys award
erase-revoked_for actor reason now keys key i award =
    elim (Bool-cases (is_for (key ∷ []) award.contribution && is_active award.status)) [
      | inr q ↦ rw q refl
      | inl q ↦ rw (q, is_for-in key keys award.contribution (ground (arith, q)) i) refl
    ]

blank-reversed :
    (reason : Text) (now : ℕ) (score : ContributionScore)
    → blank (reversed reason now score) ≡ blank score
blank-reversed reason now score = elim (Bool-cases (is_none score.reversed_at)) [
  | inl q ↦ rw q refl
  | inr q ↦ rw q refl
]

reverse_score-SameBut :
    (actor : Actor) (reason : Text) (now : ℕ) (keys : List ℕ) (key : ℕ)
    → is_in key keys ≡ true
    → (s : Ledger) → SameBut keys s (reverse_score actor reason now key s)
unfolding reverse_score
reverse_score-SameBut actor reason now keys key i s = (
  map-erased (with_score (reversed reason now) key) (erase keys)
      (erase-with_score (reversed reason now) (blank-reversed reason now) keys key i) s.entries,
  map-erased (revoked_for actor reason now key) (erase_award keys)
      (erase-revoked_for actor reason now keys key i) s.awards,
)

reverse_scores-SameBut :
    (actor : Actor) (reason : Text) (now : ℕ) (keys some_keys : List ℕ)
    → All (λ key. is_in key keys ≡ true) some_keys
    → (s : Ledger) → SameBut keys s (reverse_scores actor reason now some_keys s)
reverse_scores-SameBut actor reason now keys [] h s = (refl, refl)
reverse_scores-SameBut actor reason now keys (key ∷ rest) (i, h) s =
    let (a, b) = reverse_score-SameBut actor reason now keys key i s in
    let (a', b') =
      reverse_scores-SameBut actor reason now keys rest h (reverse_score actor reason now key s) in
    (a' ∙ a, b' ∙ b)

set_points-SameBut :
    (points : ℕ) (keys : List ℕ) (key : ℕ)
    → is_in key keys ≡ true
    → (s : Ledger) → SameBut keys s (set_points points key s)
set_points-SameBut points keys key i s = (
  map-erased (with_score (λ score. record score { points = points }) key) (erase keys)
      (erase-with_score (λ score. record score { points = points }) (λ score. refl) keys key i)
      s.entries,
  refl,
)

pub change_scores-SameBut :
    (actor : Actor) (change : Change) (reason : Text) (now : ℕ) (keys some_keys : List ℕ)
    → All (λ key. is_in key keys ≡ true) some_keys
    → (s : Ledger) → SameBut keys s (change_scores actor change reason now some_keys s)
unfolding change_scores
change_scores-SameBut actor Change.release_held reason now keys some_keys h s = (refl, refl)
change_scores-SameBut actor Change.invalidate reason now keys some_keys h s =
    reverse_scores-SameBut actor reason now keys some_keys h s
change_scores-SameBut actor (Change.adjust_score points) reason now keys [] h s = (refl, refl)
change_scores-SameBut actor (Change.consolidate points) reason now keys [] h s = (refl, refl)
change_scores-SameBut actor (Change.adjust_score points) reason now keys (key ∷ rest) (i, h) s =
    set_points-SameBut points keys key i s
change_scores-SameBut actor (Change.consolidate points) reason now keys (key ∷ rest) (i, h) s =
    let (a, b) = set_points-SameBut points keys key i s in
    let (a', b') = reverse_scores-SameBut actor reason now keys rest h (set_points points key s) in
    (a' ∙ a, b' ∙ b)
