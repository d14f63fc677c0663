-- ===== src/Recognition/Counting.antt =====
-- How many times a member holds a badge, and how calls in a row keep it.
use dev_nepal.Prelude.{
  ℕ, ◌≤◌, ◌+◌, ◌≡◌, refl, sym, ap, ◌∙◌, inl, inr, Bool, true, false, none, List, [], ◌∷◌, ◌++◌,
  length, map, filter, find?, Bool-cases, filter_append, length-append, arith,
}
use dev_nepal.Service.{Reply, returns, raises, resume_with, kept, choose, transaction, ◌>>=◌, ◌>>◌}
use dev_nepal.Recognition.Data.{BadgeAward, RecognitionError, Env, Ledger, Call}
use dev_nepal.Recognition.Badges.{is_held}

-- Every member holds every badge at most once.
abbrev pub IsSingle : Ledger → Type 0
IsSingle s = (badge recipient : ℕ) → length (filter (is_held badge recipient) s.awards) ≤ 1

abbrev pub Keeps : {A : Type 0} → Call A → Type 0
Keeps m = (env : Env) (s : Ledger) → IsSingle s → IsSingle (m env s).1

resume-Keeps :
    {A B : Type 0}
    → (f : A → Call B) → ((a : A) → Keeps (f a))
    → (env : Env) → (r : Reply RecognitionError A × Ledger) → IsSingle r.1
    → IsSingle (resume_with f env r).1
resume-Keeps f h env (returns a, s) single = h a env s single
resume-Keeps f h env (raises e, s) single = single

pub bind-Keeps :
    {A B : Type 0}
    → (m : Call A) (f : A → Call B) → Keeps m
    → ((a : A) → Keeps (f a))
    → Keeps (m >>= f)
bind-Keeps m f hm hf env s single = resume-Keeps f hf env (m env s) (hm env s single)

pub then-Keeps :
    {B : Type 0} → (m : Call (Unit {0})) (k : Call B) → Keeps m → Keeps k → Keeps (m >> k)
then-Keeps m k hm hk = bind-Keeps m (λ _. k) hm (λ _. hk)

pub kept-IsSingle :
    {A : Type 0}
    → (s : Ledger) (r : Reply RecognitionError A × Ledger) → IsSingle s
    → IsSingle r.1
    → IsSingle (kept s r).1
kept-IsSingle s (returns a, s') before after = after
kept-IsSingle s (raises e, s') before after = before

pub transaction-Keeps : {A : Type 0} → (m : Call A) → Keeps m → Keeps (transaction m)
transaction-Keeps m h env s single = kept-IsSingle s (m env s) single (h env s single)

pub choose-Keeps :
    {A : Type 0} → (b : Bool) (m k : Call A) → Keeps m → Keeps k → Keeps (choose b m k)
choose-Keeps true m k hm hk env s single = hm env s single
choose-Keeps false m k hm hk env s single = hk env s single

none_found :
    (badge recipient : ℕ) (awards : List BadgeAward)
    → find? (is_held badge recipient) awards ≡ none
    → length (filter (is_held badge recipient) awards) ≡ 0
none_found badge recipient [] h = refl
none_found badge recipient (a ∷ as_) h = elim (Bool-cases (is_held badge recipient a)) [
  | inl q ↦ absurd (let e = rw q at h in cc)
  | inr q ↦ rw q (none_found badge recipient as_ (rw q at h))
]

count_append :
    (p : BadgeAward → Bool) (xs ys : List BadgeAward)
    → length (filter p (xs ++ ys)) ≡ length (filter p xs) + length (filter p ys)
count_append p xs ys = rw (filter_append p xs ys) (length-append (filter p xs) (filter p ys))

pub add-IsSingle :
    (awards : List BadgeAward) (award : BadgeAward)
    → find? (is_held award.badge award.recipient) awards ≡ none
    → ((b r : ℕ) → length (filter (is_held b r) awards) ≤ 1)
    → (b r : ℕ) → length (filter (is_held b r) (awards ++ award ∷ [])) ≤ 1
add-IsSingle awards award free single b r = elim (Bool-cases (is_held b r award)) [
  | inr q ↦
      let last : length (filter (is_held b r) (award ∷ [])) ≡ 0 = rw q refl in
      omega (arith, count_append (is_held b r) awards (award ∷ []), single b r, last)
  | inl q ↦
      let last : length (filter (is_held b r) (award ∷ [])) ≡ 1 = rw q refl in
      let eb : award.badge ≡ b = ground (arith, q) in
      let er : award.recipient ≡ r = ground (arith, q) in
      let same = ap (λ x. length (filter (is_held x award.recipient) awards)) (sym eb) in
      let same' = ap (λ x. length (filter (is_held b x) awards)) (sym er) in
      let before = same' ∙ same ∙ none_found award.badge award.recipient awards free in
      omega (arith, count_append (is_held b r) awards (award ∷ []), before, last)
]

pub map-count :
    (f : BadgeAward → BadgeAward) (b r : ℕ)
    → ((a : BadgeAward) → is_held b r (f a) ≡ true → is_held b r a ≡ true)
    → (awards : List BadgeAward)
    → length (filter (is_held b r) (map f awards)) ≤ length (filter (is_held b r) awards)
map-count f b r h [] = omega arith
map-count f b r h (a ∷ as_) =
    let rest = map-count f b r h as_ in
    elim (Bool-cases (is_held b r (f a))) [
      | inl q ↦ rw (q, h a q) (omega (arith, rest))
      | inr q ↦ elim (Bool-cases (is_held b r a)) [
        | inl q' ↦ rw (q, q') (omega (arith, rest))
        | inr q' ↦ rw (q, q') rest
      ]
    ]
