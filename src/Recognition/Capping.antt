-- ===== src/Recognition/Capping.antt =====
-- apps/recognition/services.py: the order and the limit of the contributions that are scored.
use dev_nepal.Prelude.{
  ℕ, suc, ◌≤◌, ◌+◌, ◌≡◌, refl, ap, ◌∙◌, ◌⊎◌, inl, inr, Bool, true, false, Option, none, some, List,
  [], ◌∷◌, All, length, filter, same_id, leb, Bool-cases, arith,
}
use dev_nepal.Recognition.Data.{Contribution}
use dev_nepal.Recognition.Recomputation.{
  precedes, order_key, insert, sorted, Counts, is_pair, counted, capped,
}
use dev_nepal.Recognition.Rescored.{is_among, All-with}

module _ (P : Contribution → Type 0) where
  pub All-insert :
      (e : Contribution) (es : List Contribution) → P e → All P es → All P (insert e es)
  All-insert e [] p ps = (p, tt)
  All-insert e (x ∷ xs) p (q, qs) = elim (Bool-cases (precedes (order_key e) (order_key x))) [
    | inl first ↦ rw first (p, (q, qs))
    | inr later ↦ rw later (q, All-insert e xs p qs)
  ]

  pub All-sorted : (es : List Contribution) → All P es → All P (sorted es)
  All-sorted [] ps = tt
  All-sorted (e ∷ es) (p, ps) = All-insert e (sorted es) p (All-sorted es ps)

  pub All-capped :
      (maximum : ℕ) (counts : Counts) (es : List Contribution)
      → All P es
      → All P (capped maximum counts es)
  All-capped maximum counts [] ps = tt
  All-capped maximum counts (e ∷ es) (p, ps) =
      elim (Bool-cases (leb maximum (counts e.project e.desk.row.contributor))) [
        | inl q ↦ rw q (All-capped maximum counts es ps)
        | inr q ↦ rw q (p, All-capped maximum (counted e counts) es ps)
      ]

pub All-filter :
    (p : Contribution → Bool) (es : List Contribution) → All (λ e. p e ≡ true) (filter p es)
All-filter p [] = tt
All-filter p (e ∷ es) = elim (Bool-cases (p e)) [
  | inl q ↦ rw q (q, All-filter p es)
  | inr q ↦ rw q (All-filter p es)
]

same_id-eq : (a b : Option ℕ) → same_id a b ≡ true → a ≡ b
same_id-eq none none h = refl
same_id-eq none (some b) h = absurd (ground (arith, h))
same_id-eq (some a) none h = absurd (ground (arith, h))
same_id-eq (some a) (some b) h = ap some (ground (arith, h))

below-limit :
    (maximum : ℕ) (counts : Counts) (e : Contribution) (project : ℕ) (member : Option ℕ)
    → is_pair project member e ≡ true
    → leb maximum (counts e.project e.desk.row.contributor) ≡ false
    → suc (counts project member) ≤ maximum
below-limit maximum counts e project member same q =
    let here : e.project ≡ project = ground (arith, same) in
    let own = same_id-eq e.desk.row.contributor member (ground (arith, same)) in
    let pair : counts e.project e.desk.row.contributor ≡ counts project member =
      ap (λ p. counts p e.desk.row.contributor) here ∙ ap (counts project) own in
    ground (arith, q, pair)

pub capped-limit :
    (maximum : ℕ) (counts : Counts) (es : List Contribution) (project : ℕ) (member : Option ℕ)
    → counts project member ≤ maximum
    → length (filter (is_pair project member) (capped maximum counts es)) + counts project member
      ≤ maximum
capped-limit maximum counts [] project member h = omega (arith, h)
capped-limit maximum counts (e ∷ es) project member h =
    elim (Bool-cases (leb maximum (counts e.project e.desk.row.contributor))) [
      | inl q ↦ rw q (capped-limit maximum counts es project member h)
      | inr q ↦
          let more = capped-limit maximum (counted e counts) es project member in
          rw q (elim (Bool-cases (is_pair project member e)) [
            | inr other ↦ rw other (let fewer = rw other at more in fewer h)
            | inl same ↦
                let fewer = rw same at more in
                rw same (omega (arith, fewer (below-limit maximum counts e project member same q)))
          ])
    ]

-- A contribution is scored, or its project and member have reached the limit.
abbrev pub HasPlace : (maximum : ℕ) → Counts → List Contribution → Contribution → Type 0
HasPlace maximum counts done e =
    (is_among done e ≡ true)
    ⊎ (maximum
        ≤ length (filter (is_pair e.project e.desk.row.contributor) done)
          + counts e.project e.desk.row.contributor)

place-same :
    (maximum : ℕ) (counts : Counts) (done others : List Contribution) (e : Contribution)
    → done ≡ others
    → HasPlace maximum counts others e
    → HasPlace maximum counts done e
place-same maximum counts done others e same h = rw same h

place-later :
    (maximum : ℕ) (counts : Counts) (x : Contribution) (done : List Contribution) (e : Contribution)
    → HasPlace maximum (counted x counts) done e
    → HasPlace maximum counts (x ∷ done) e
place-later maximum counts x done e (inl there) = inl (ground (arith, there))
place-later maximum counts x done e (inr full) =
    elim (Bool-cases (is_pair e.project e.desk.row.contributor x)) [
      | inl same ↦ rw same (inr (omega (arith, rw same at full)))
      | inr other ↦ rw other (inr (rw other at full))
    ]

capped_full :
    (maximum : ℕ) (counts : Counts) (e : Contribution) (es : List Contribution)
    → leb maximum (counts e.project e.desk.row.contributor) ≡ true
    → capped maximum counts (e ∷ es) ≡ capped maximum counts es
capped_full maximum counts e es q = rw q refl

capped_kept :
    (maximum : ℕ) (counts : Counts) (e : Contribution) (es : List Contribution)
    → leb maximum (counts e.project e.desk.row.contributor) ≡ false
    → capped maximum counts (e ∷ es) ≡ e ∷ capped maximum (counted e counts) es
capped_kept maximum counts e es q = rw q refl

pub capped_complete :
    (maximum : ℕ) (counts : Counts) (es : List Contribution)
    → All (HasPlace maximum counts (capped maximum counts es)) es
capped_complete maximum counts [] = tt
capped_complete maximum counts (e ∷ es) =
    elim (Bool-cases (leb maximum (counts e.project e.desk.row.contributor))) [
      | inl q ↦
          let same = capped_full maximum counts e es q in
          let rest = capped maximum counts es in
          (
            inr (ground (arith, q)),
            All-with (λ x. place-same maximum counts (capped maximum counts (e ∷ es)) rest x same)
                es (capped_complete maximum counts es),
          )
      | inr q ↦
          let same = capped_kept maximum counts e es q in
          let rest = capped maximum (counted e counts) es in
          let all = capped maximum counts (e ∷ es) in
          let itself : is_among (e ∷ rest) e ≡ true = ground arith in
          (
            place-same maximum counts all (e ∷ rest) e same (inl itself),
            All-with
                (λ x h.
                  place-same maximum counts all (e ∷ rest) x same
                    (place-later maximum counts e rest x h))
                es (capped_complete maximum (counted e counts) es),
          )
    ]

module _ (P : Contribution → Type 0) where
  All-inserted : (e : Contribution) (es : List Contribution) → All P (insert e es) → P e × All P es
  All-inserted e [] (p, ps) = (p, tt)
  All-inserted e (x ∷ xs) u = elim (Bool-cases (precedes (order_key e) (order_key x))) [
    | inl first ↦ rw first at u
    | inr later ↦
        let (q, rest) = rw later at u in let (p, qs) = All-inserted e xs rest in (p, (q, qs))
  ]

  pub All-unsorted : (es : List Contribution) → All P (sorted es) → All P es
  All-unsorted [] u = tt
  All-unsorted (e ∷ es) u = let (p, ps) = All-inserted e (sorted es) u in (p, All-unsorted es ps)

  pub All-kept : (p : Contribution → Bool) (es : List Contribution) → All P es → All P (filter p es)
  All-kept p [] u = tt
  All-kept p (e ∷ es) (here, rest) = elim (Bool-cases (p e)) [
    | inl q ↦ rw q (here, All-kept p es rest)
    | inr q ↦ rw q (All-kept p es rest)
  ]

pub is_full :
    (maximum : ℕ) (done : List Contribution) (e : Contribution)
    → HasPlace maximum (λ _ _. 0) done e
    → length (filter (is_pair e.project e.desk.row.contributor) done) ≤ maximum
    → (is_among done e ≡ true)
      ⊎ (length (filter (is_pair e.project e.desk.row.contributor) done) ≡ maximum)
is_full maximum done e (inl there) h = inl there
is_full maximum done e (inr full) h = inr (omega (arith, full, h))
