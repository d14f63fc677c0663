-- ===== src/Recognition/Recomputation.antt =====
-- apps/recognition/services.py: the recomputation of scores, with its limit for each project.
use dev_nepal.Prelude.{
  ℕ, suc, Bool, true, false, ◌&&◌, ◌||◌, Option, none, some, is_none, is_some, List, [], ◌∷◌,
  filter, same_id, leb, ltb, ◌==◌, ◌+◌, ◌*◌, if◌then◌else◌,
}
use dev_nepal.Service.{reply, fail, read, look, transaction, ◌>>=◌, ◌>>◌}
use dev_nepal.Contributions.Data.{is_accepted}
use dev_nepal.Recognition.Data.{ContributionScore, Contribution, RecognitionError, Call}
use dev_nepal.Recognition.Scoring.{ScoringPolicy, Scheme, new_score, add_score}

-- Accepted, attributed and unscored work that was verified in the window.
abbrev in_window : ℕ → ℕ → Option ℕ → Bool
in_window window_days now none = false
in_window window_days now (some verified_at) = leb now (verified_at + window_days * 86400)

abbrev pub is_unscored : ℕ → ℕ → Contribution → Bool
is_unscored window_days now e =
    is_accepted e.desk.row.status
    && is_some e.desk.row.contributor
    && in_window window_days now e.desk.row.verified_at
    && is_none e.score

abbrev number_of : Option ℕ → ℕ
number_of none = 0
number_of (some n) = n

-- order_by("project_id", "contributor_id", "verified_at", "pk")
abbrev pub precedes : List ℕ → List ℕ → Bool
precedes [] _ = true
precedes (_ ∷ _) [] = false
precedes (a ∷ as_) (b ∷ bs) = ltb a b || a == b && precedes as_ bs

abbrev pub order_key : Contribution → List ℕ
order_key e =
    e.project ∷ number_of e.desk.row.contributor ∷ number_of e.desk.row.verified_at ∷ e.pk ∷ []

abbrev pub insert : Contribution → List Contribution → List Contribution
insert e [] = e ∷ []
insert e (x ∷ xs) =
    let rest = insert e xs in if precedes (order_key e) (order_key x) then e ∷ x ∷ xs else x ∷ rest

abbrev pub sorted : List Contribution → List Contribution
sorted [] = []
sorted (e ∷ es) = insert e (sorted es)

-- `per_project`
abbrev pub Counts : Type 0
Counts = ℕ → Option ℕ → ℕ

abbrev pub is_pair : ℕ → Option ℕ → Contribution → Bool
is_pair project member e = e.project == project && same_id e.desk.row.contributor member

abbrev pub counted : Contribution → Counts → Counts
counted e counts project member =
    if is_pair project member e then suc (counts project member) else counts project member

-- The contributions that the loop scores.
abbrev pub capped : (max_per_project : ℕ) → Counts → List Contribution → List Contribution
capped maximum counts [] = []
capped maximum counts (e ∷ es) =
    let full = leb maximum (counts e.project e.desk.row.contributor) in
    let rest = capped maximum (if full then counts else counted e counts) es in
    if full then rest else e ∷ rest

abbrev pub score_each : Scheme → ScoringPolicy → List Contribution → Call (List ContributionScore)
score_each scheme policy [] = reply []
score_each scheme policy (e ∷ es) = do
  now ← look (λ env. env.now)
  add_score e.pk (new_score (scheme.score_key e.pk) policy e now)
  rest ← score_each scheme policy es
  reply (new_score (scheme.score_key e.pk) policy e now ∷ rest)

abbrev pub score_due :
    Scheme
    → (window_days max_per_project : ℕ) → Option ScoringPolicy
    → Call (List ContributionScore)
score_due scheme window_days max_per_project none = fail RecognitionError.recognition
score_due scheme window_days max_per_project (some policy) = do
  now ← look (λ env. env.now)
  due ← read (λ s. sorted (filter (is_unscored window_days now) s.entries))
  score_each scheme policy (capped max_per_project (λ _ _. 0) due)

unfoldable pub recompute_scores :
    Scheme → (window_days max_per_project : ℕ) → Call (List ContributionScore)
recompute_scores scheme window_days max_per_project =
    transaction (score_due scheme window_days max_per_project scheme.policy)
