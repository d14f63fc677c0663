-- ===== src/Recognition/Rescored.antt =====
-- apps/recognition/services.py: what a recomputation writes into the contributions.
use dev_nepal.Prelude.{
  ℕ, ◌≡◌, refl, sym, ap, ◌∙◌, inl, inr, Bool, true, false, Option, some, List, [], ◌∷◌, All, any,
  map, find?, ◌==◌, if◌then◌else◌, Bool-cases, arith,
}
use mathlib.Core.List.{map-id}
use dev_nepal.Service.{returns}
use dev_nepal.Recognition.Data.{ContributionScore, Contribution, Env, Ledger}
use dev_nepal.Recognition.Scoring.{ScoringPolicy, Scheme, new_score, put_new_score, add_score}
use dev_nepal.Recognition.Recomputation.{score_each}

-- The contribution is the row that its key finds.
abbrev pub IsRow : List Contribution → Contribution → Type 0
IsRow entries d = find? (λ e. e.pk == d.pk) entries ≡ some d

abbrev pub is_among : List Contribution → Contribution → Bool
is_among done e = any (λ d. d.pk == e.pk) done

-- A contribution with its new score, if it is among those that are scored.
abbrev pub rescored : Scheme → ScoringPolicy → ℕ → List Contribution → Contribution → Contribution
rescored scheme policy now done e = record e {
  score =
      if is_among done e then some (new_score (scheme.score_key e.pk) policy e now) else e.score;
}

IsRow-unique :
    (entries : List Contribution) (d e : Contribution)
    → IsRow entries d
    → IsRow entries e
    → d.pk == e.pk ≡ true
    → d ≡ e
IsRow-unique entries d e row row' same =
    let key : d.pk ≡ e.pk = ground (arith, same) in
    let found : some d ≡ some e = sym row ∙ ap (λ k. find? (λ x. x.pk == k) entries) key ∙ row' in
    cc

pub All-with :
    {P Q : Contribution → Type 0}
    → ((x : Contribution) → P x → Q x)
    → (xs : List Contribution) → All P xs
    → All Q xs
All-with h [] u = tt
All-with h (x ∷ xs) (p, ps) = (h x p, All-with h xs ps)

map_agrees :
    (f g : Contribution → Contribution) (es : List Contribution)
    → All (λ e. f e ≡ g e) es
    → map f es ≡ map g es
map_agrees f g [] u = refl
map_agrees f g (e ∷ es) (here, rest) = rw (here, map_agrees f g es rest) refl

map_after :
    (f g : Contribution → Contribution) (es : List Contribution)
    → map f (map g es) ≡ map (λ e. f (g e)) es
map_after f g [] = refl
map_after f g (e ∷ es) = rw (map_after f g es) refl

either_way : {A : Type 0} (b : Bool) (x : A) → (if b then x else x) ≡ x
either_way true x = refl
either_way false x = refl

module _ (scheme : Scheme) (policy : ScoringPolicy) (env : Env) where
  abbrev write : Contribution → Contribution → Contribution
  write d e = put_new_score d.pk (new_score (scheme.score_key d.pk) policy d env.now) e

  -- The writes of a loop over contributions, to one row.
  abbrev write_all : List Contribution → Contribution → Contribution
  write_all [] e = e
  write_all (d ∷ ds) e = write_all ds (write d e)

  pub score_each-returns :
      (es : List Contribution) (s : Ledger)
      → (s' : Ledger) × ((score_each scheme policy es env s
            ≡ (returns (map (λ e. new_score (scheme.score_key e.pk) policy e env.now) es), s'))
          × (s'.awards ≡ s.awards)
          × (s'.entries ≡ map (write_all es) s.entries))
  score_each-returns [] s = (s, (refl, refl, sym (map-id s.entries)))
  score_each-returns (e ∷ es) s =
      let (s', (q, a, r)) =
        score_each-returns es
          (add_score e.pk (new_score (scheme.score_key e.pk) policy e env.now) env s).1 in
      (s', (rw q refl, a, r ∙ map_after (write_all es) (write e) s.entries))

  written :
      (e : Contribution) (k : Option ContributionScore) (ds : List Contribution)
      → All (λ d. d.pk == e.pk ≡ true → d ≡ e) ds
      → write_all ds (record e { score = k }) ≡ record e {
        score =
            if is_among ds e then some (new_score (scheme.score_key e.pk) policy e env.now) else k;
      }
  written e k [] u = refl
  written e k (d ∷ ds) (here, rest) = elim (Bool-cases (d.pk == e.pk)) [
    | inl same ↦
        let itself : e.pk == e.pk ≡ true = ground arith in
        let new = some (new_score (scheme.score_key e.pk) policy e env.now) in
        let next = written e new ds rest in
        ap (λ x. write_all ds (write x (record e { score = k }))) (here same)
        ∙ simp (itself, same)
            (next ∙ ap (λ x. record e { score = x }) (either_way (is_among ds e) new))
    | inr other ↦
        let apart : e.pk == d.pk ≡ false = ground (arith, other) in
        simp (other, apart) (written e k ds rest)
  ]

  write_all-rescored :
      (done : List Contribution) (e : Contribution)
      → All (λ d. d.pk == e.pk ≡ true → d ≡ e) done
      → write_all done e ≡ rescored scheme policy env.now done e
  write_all-rescored done e h = written e e.score done h

  -- Rows of a table with one row for each key.
  pub written_entries :
      (entries done : List Contribution)
      → All (IsRow entries) entries
      → All (IsRow entries) done
      → map (write_all done) entries ≡ map (rescored scheme policy env.now done) entries
  written_entries entries done keyed rows =
      map_agrees (write_all done) (rescored scheme policy env.now done) entries (
        All-with
          (λ e row.
            write_all-rescored done e
              (All-with (λ d row'. IsRow-unique entries d e row' row) done rows))
          entries keyed)
