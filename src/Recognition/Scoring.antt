-- ===== src/Recognition/Scoring.antt =====
-- apps/recognition/services.py: the scores of accepted contributions.
use dev_nepal.Prelude.{
  ℕ, Bool, false, not, ◌&&◌, ◌||◌, Option, none, some, is_none, List, [], ◌∷◌, Text, text, text_eq,
  map, filter, same_id, leb, ◌==◌, ◌+◌, if◌then◌else◌,
}
use dev_nepal.Accounts.{Actor}
use dev_nepal.Service.{reply, fail_if, read, look, choose, transaction, ◌>>=◌, ◌>>◌, returns}
use dev_nepal.Contributions.Data.{is_accepted}
use dev_nepal.Recognition.Data.{
  ContributionScore, Contribution, BadgeAward, Op, Payload, RecognitionError, Call, record_audit,
}
use dev_nepal.Recognition.Snapshots.{is_for}
use dev_nepal.Recognition.Changes.{is_active, reversed, with_score}
use dev_nepal.Recognition.Badges.{Badge, award_active_badge, revoke_active_award}

-- Rules that `_validate_policy_rules` accepts: points for each tier, and the points of each badge.
pub record Rules : Type 0 where
  pub tiers : List (Text × ℕ)
  pub badges : List (Text × ℕ)

pub record ScoringPolicy : Type 0 where
  pub version : ℕ
  pub rules : Rules
  pub approved_by : Actor

abbrev pub value_of : Text → List (Text × ℕ) → Option ℕ
value_of key [] = none
value_of key ((name, value) ∷ rest) = if text_eq name key then some value else value_of key rest

abbrev or_zero : Option ℕ → Option ℕ → ℕ
or_zero (some points) other = points
or_zero none (some points) = points
or_zero none none = 0

-- `rules.get(impact_tier, rules.get("default", 0))`
abbrev pub points_for : Rules → Text → ℕ
points_for rules tier = or_zero (value_of tier rules.tiers) (value_of (text "default") rules.tiers)

abbrev pub policy_points : ℕ → Option ContributionScore → ℕ
policy_points version none = 0
policy_points version (some score) = if score.policy == version then score.points else 0

abbrev pub counted_points : ℕ → Option ℕ → Contribution → ℕ
counted_points version member e =
    if same_id e.desk.row.contributor member && is_accepted e.desk.row.status
    then policy_points version e.score
    else 0

-- `total_points`
unfoldable pub total_points : ℕ → Option ℕ → List Contribution → ℕ
total_points version member [] = 0
total_points version member (e ∷ es) =
    counted_points version member e + total_points version member es

abbrev pub new_score : (pk : ℕ) → ScoringPolicy → Contribution → ℕ → ContributionScore
new_score pk policy e now = record {
  pk = pk;
  policy = policy.version;
  points = points_for policy.rules e.impact_tier;
  scored_at = now;
  reversed_at = none;
  reversal_reason = [];
}

abbrev pub put_new_score : ℕ → ContributionScore → Contribution → Contribution
put_new_score key score e = if e.pk == key then record e { score = some score } else e

abbrev pub add_score : ℕ → ContributionScore → Call (Unit {0})
add_score key score env s =
    (returns tt, record s { entries = map (put_new_score key score) s.entries })

abbrev reaches : Option ℕ → ℕ → Bool
reaches none total = false
reaches (some minimum) total = leb minimum total

-- The badges that the rules name and that are active, with their points.
abbrev pub due_badges : Rules → ℕ → List Badge → List Badge
due_badges rules total badges =
    filter (λ badge. badge.is_active && reaches (value_of badge.slug rules.badges) total) badges

-- The setting RECOGNITION_ENABLED, the active policy, the badges, and the keys of new rows.
pub record Scheme : Type 0 where
  pub enabled : Bool
  pub policy : Option ScoringPolicy
  pub badges : List Badge
  pub score_key : ℕ → ℕ
  pub award_key : ℕ → ℕ

abbrev pub Evaluation : Type 0
Evaluation = Option ContributionScore × List BadgeAward

abbrev pub award_all :
    Scheme → Actor → (recipient contribution : ℕ) → List Badge → Call (List BadgeAward)
award_all scheme actor recipient contribution [] = reply []
award_all scheme actor recipient contribution (badge ∷ badges) = do
  award ←
      award_active_badge (scheme.award_key badge.pk) actor recipient badge (some contribution) []
  rest ← award_all scheme actor recipient contribution badges
  reply (award ∷ rest)

-- A contribution without a score
abbrev pub score_first : Scheme → ScoringPolicy → ℕ → Contribution → Call Evaluation
score_first scheme policy member e = do
  now ← look (λ env. env.now)
  add_score e.pk (new_score (scheme.score_key e.pk) policy e now)
  record_audit policy.approved_by Op.contribution_scored Payload.nothing
      (Payload.scored_payload e.pk policy.version (points_for policy.rules e.impact_tier))
  total ← read (λ s. total_points policy.version (some member) s.entries)
  awards ←
      award_all scheme policy.approved_by member e.pk (due_badges policy.rules total scheme.badges)
  reply (some (new_score (scheme.score_key e.pk) policy e now), awards)

abbrev pub score_once :
    Scheme → ScoringPolicy → ℕ → Contribution → Option ContributionScore → Call Evaluation
score_once scheme policy member e none = score_first scheme policy member e
score_once scheme policy member e (some score) = reply (some score, [])

abbrev pub evaluate_for : Scheme → Contribution → Option ℕ → Option ScoringPolicy → Call Evaluation
evaluate_for scheme e none policy = reply (none, [])
evaluate_for scheme e (some member) none = reply (none, [])
evaluate_for scheme e (some member) (some policy) =
    fail_if (is_none policy.approved_by) RecognitionError.recognition
    >> score_once scheme policy member e e.score

unfoldable pub evaluate_accepted_contribution :
    Scheme → (contribution : Contribution) → Call Evaluation
unfolding total_points record_audit award_active_badge
evaluate_accepted_contribution scheme e = transaction (
    choose (not scheme.enabled || not (is_accepted e.desk.row.status)) (reply (none, []))
      (evaluate_for scheme e e.desk.row.contributor scheme.policy))

abbrev pub reverse_active : Actor → Text → Contribution → Option ContributionScore → Call (Unit {0})
reverse_active actor reason e none = reply tt
reverse_active actor reason e (some score) =
    choose (is_none score.reversed_at)
      (reverse_now
        >> record_audit actor Op.score_reversed Payload.nothing
            (Payload.reversal_payload e.pk reason))
      (reply tt)
  where
    reverse_now : Call (Unit {0})
    reverse_now env s = (
      returns tt,
      record s { entries = map (with_score (reversed reason env.now) e.pk) s.entries },
    )

abbrev pub revoke_all : Actor → Text → List BadgeAward → Call (Unit {0})
revoke_all actor reason [] = reply tt
revoke_all actor reason (award ∷ awards) =
    revoke_active_award actor award reason >> revoke_all actor reason awards

abbrev pub held_for : Contribution → List BadgeAward → List BadgeAward
held_for e awards =
    filter (λ award. is_for (e.pk ∷ []) award.contribution && is_active award.status) awards

abbrev pub revoke_held : Actor → Text → Contribution → Call (Unit {0})
revoke_held actor reason e = do
  awards ← read (λ s. held_for e s.awards)
  revoke_all actor reason awards

unfoldable pub reverse_accepted_contribution :
    (actor : Actor) → (contribution : Contribution) → (reason : Text) → Call (Unit {0})
unfolding record_audit revoke_active_award
reverse_accepted_contribution actor e reason =
    transaction do reverse_active actor reason e e.score; revoke_held actor reason e
