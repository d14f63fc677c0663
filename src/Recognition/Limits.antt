-- ===== src/Recognition/Limits.antt =====
-- What scoring counts, and how much it scores.
use dev_nepal.Prelude.{
  ℕ, ◌≤◌, ◌≡◌, refl, ◌∙◌, ◌⊎◌, inl, inr, true, Option, some, is_none, List, [], ◌∷◌, Text, All,
  length, map, filter, ◌==◌, Bool-cases, Option-cases, arith,
}
use dev_nepal.Accounts.{Actor}
use dev_nepal.Service.{returns}
use dev_nepal.Recognition.Data.{Change, ContributionScore, Contribution, Env, Ledger}
use dev_nepal.Recognition.Changes.{
  with_score, reversed, reverse_score, reverse_scores, change_scores,
}
use dev_nepal.Recognition.Scoring.{
  ScoringPolicy, Scheme, policy_points, counted_points, total_points, new_score,
}
use dev_nepal.Recognition.Recomputation.{is_unscored, sorted, is_pair, capped, recompute_scores}
use dev_nepal.Recognition.Rescored.{
  IsRow, is_among, rescored, All-with, score_each-returns, written_entries,
}
use dev_nepal.Recognition.Capping.{
  HasPlace, All-sorted, All-capped, All-filter, capped-limit, capped_complete, All-unsorted,
  All-kept, is_full,
}

policy_points-reversed :
    (version : ℕ) (reason : Text) (now : ℕ) (score : ContributionScore)
    → policy_points version (some (reversed reason now score)) ≡ policy_points version (some score)
policy_points-reversed version reason now score = elim (Bool-cases (is_none score.reversed_at)) [
  | inl q ↦ rw q refl
  | inr q ↦ rw q refl
]

counted_points-with_score :
    (version : ℕ) (member : Option ℕ) (reason : Text) (now key : ℕ) (e : Contribution)
    → counted_points version member (with_score (reversed reason now) key e)
      ≡ counted_points version member e
counted_points-with_score version member reason now key e = elim (Bool-cases (e.pk == key)) [
  | inr q ↦ rw q refl
  | inl q ↦ elim (Option-cases e.score) [
    | inl none_ ↦ rw (q, none_) refl
    | inr (score, some_) ↦ rw (q, some_, policy_points-reversed version reason now score) refl
  ]
]

total_points-with_score :
    (version : ℕ) (member : Option ℕ) (reason : Text) (now key : ℕ) (es : List Contribution)
    → total_points version member (map (with_score (reversed reason now) key) es)
      ≡ total_points version member es
unfolding total_points
total_points-with_score version member reason now key [] = refl
total_points-with_score version member reason now key (e ∷ es) =
    rw
      (
        counted_points-with_score version member reason now key e,
        total_points-with_score version member reason now key es,
      )
      refl

total_points-reverse_scores :
    (version : ℕ) (member : Option ℕ) (actor : Actor) (reason : Text) (now : ℕ) (keys : List ℕ)
    (s : Ledger)
    → total_points version member (reverse_scores actor reason now keys s).entries
      ≡ total_points version member s.entries
unfolding reverse_score
total_points-reverse_scores version member actor reason now [] s = refl
total_points-reverse_scores version member actor reason now (key ∷ keys) s =
    total_points-reverse_scores version member actor reason now keys
      (reverse_score actor reason now key s)
    ∙ total_points-with_score version member reason now key s.entries

-- A correction that invalidates scores leaves the total points of every member under every policy as
-- they were: the points on which the evaluation of the next contribution awards badges.
pub invalidated_points_count :
    (version : ℕ) (member : Option ℕ) (actor : Actor) (reason : Text) (now : ℕ) (keys : List ℕ)
    (s : Ledger)
    → total_points version member (change_scores actor Change.invalidate reason now keys s).entries
      ≡ total_points version member s.entries
unfolding change_scores
invalidated_points_count version member actor reason now keys s =
    total_points-reverse_scores version member actor reason now keys s

-- What a recomputation with a policy leaves, with the contributions that it scores.
pub record IsRescored (scheme : Scheme) (policy : ScoringPolicy) (window_days maximum now : ℕ)
    (s s' : Ledger) (done : List Contribution) : Type 0 where
  pub rows : All (IsRow s.entries) done
  pub unscored : All (λ e. is_unscored window_days now e ≡ true) done
  pub limit :
      (project : ℕ) (member : Option ℕ) → length (filter (is_pair project member) done) ≤ maximum
  pub complete :
      All
        (λ e.
          (is_among done e ≡ true)
          ⊎ (length (filter (is_pair e.project e.desk.row.contributor) done) ≡ maximum))
        (filter (is_unscored window_days now) s.entries)
  pub entries : s'.entries ≡ map (rescored scheme policy now done) s.entries
  pub awards : s'.awards ≡ s.awards

-- In a ledger where each contribution is the row that its key finds, a recomputation with an active
-- policy returns the new scores of some of its rows. They are accepted, attributed, unscored and
-- verified in the window, and for every project and member there are at most `max_per_project`. A
-- row of that kind that is not among them has as many as the limit allows beside it. The ledger
-- afterwards has the new scores, with the policy's points, in exactly these rows: the other rows are
-- as they were, and so are the awards.
pub recompute_scores-limit :
    (scheme : Scheme) (policy : ScoringPolicy) (window_days max_per_project : ℕ) (env : Env)
    (s : Ledger)
    → scheme.policy ≡ some policy
    → All (IsRow s.entries) s.entries
    → (done : List Contribution) × (s' : Ledger) × (recompute_scores scheme window_days
          max_per_project env s
        ≡ (returns (map (λ e. new_score (scheme.score_key e.pk) policy e env.now) done), s'))
      × IsRescored scheme policy window_days max_per_project env.now s s' done
unfolding recompute_scores
recompute_scores-limit scheme policy window_days max_per_project env s active keyed =
    let test = is_unscored window_days env.now in
    let found = filter test s.entries in
    let due = sorted found in
    let done = capped max_per_project (λ _ _. 0) due in
    let (s', (q, a, r)) = score_each-returns scheme policy env done s in
    let rows =
      All-capped (IsRow s.entries) max_per_project (λ _ _. 0) due
        (All-sorted (IsRow s.entries) found (All-kept (IsRow s.entries) test s.entries keyed)) in
    let fits =
      All-capped (λ e. test e ≡ true) max_per_project (λ _ _. 0) due
        (All-sorted (λ e. test e ≡ true) found (All-filter test s.entries)) in
    let most : (project : ℕ) (member : Option ℕ)
        → length (filter (is_pair project member) done) ≤ max_per_project =
      λ project member.
        omega (arith, capped-limit max_per_project (λ _ _. 0) due project member (omega arith)) in
    let places =
      All-unsorted (HasPlace max_per_project (λ _ _. 0) done) found
        (capped_complete max_per_project (λ _ _. 0) due) in
    (
      done,
      s',
      simp (active, q) refl,
      record {
        rows = rows;
        unscored = fits;
        limit = most;
        complete =
            All-with
              (λ e h. is_full max_per_project done e h (most e.project e.desk.row.contributor))
              found places;
        entries = r ∙ written_entries scheme policy env s.entries done keyed rows;
        awards = a;
      },
    )
