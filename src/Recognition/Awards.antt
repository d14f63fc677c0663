-- ===== src/Recognition/Awards.antt =====
-- What each call on scores and badges does to the badges that a member holds.
use dev_nepal.Prelude.{
  ℕ, ◌≡◌, refl, inl, inr, false, Option, none, some, is_none, List, [], ◌∷◌, Text, strip, is_nil,
  filter, find?, ◌==◌, if◌then◌else◌, Bool-cases, arith,
}
use dev_nepal.Accounts.{Actor, is_super_admin, has_privileged_session}
use dev_nepal.Service.{reply, ◌>>=◌}
use dev_nepal.Recognition.Data.{
  ContributionScore, Contribution, BadgeAward, Env, Ledger, require_super_admin, record_audit, Op,
  Payload,
}
use dev_nepal.Recognition.Changes.{is_active, revoked_award}
use dev_nepal.Recognition.Badges.{
  Badge, is_held, new_award, create_award, get_or_create, award_active_badge, save_award,
  revoke_active_award,
}
use dev_nepal.Recognition.Scoring.{
  Scheme, ScoringPolicy, points_for, due_badges, total_points, award_all, new_score, add_score,
  score_once, evaluate_for, revoke_all, reverse_active,
}
use dev_nepal.Recognition.Recomputation.{is_unscored, sorted, capped, score_each, score_due}
use dev_nepal.Recognition.Counting.{
  IsSingle, Keeps, add-IsSingle, bind-Keeps, kept-IsSingle, map-count, then-Keeps,
}

get_or_create-Keeps :
    (held : Option BadgeAward) (pk : ℕ) (actor : Actor) (recipient : ℕ) (badge : Badge)
    (contribution : Option ℕ) (reason : Text) (env : Env) (s : Ledger)
    → find? (is_held badge.pk recipient) s.awards ≡ held
    → IsSingle s
    → IsSingle
        (get_or_create held (create_award pk actor recipient badge contribution reason) env s).1
unfolding record_audit
get_or_create-Keeps (some award) pk actor recipient badge contribution reason env s found single =
    single
get_or_create-Keeps none pk actor recipient badge contribution reason env s free single =
    add-IsSingle s.awards (new_award pk actor recipient badge.pk contribution env.now) free single

pub award_active_badge-Keeps :
    (pk : ℕ) (actor : Actor) (recipient : ℕ) (badge : Badge) (contribution : Option ℕ)
    (reason : Text)
    → Keeps (award_active_badge pk actor recipient badge contribution reason)
unfolding award_active_badge
award_active_badge-Keeps pk actor recipient badge contribution reason env s single =
    elim (Bool-cases badge.is_active) [
      | inr q ↦ rw q single
      | inl q ↦ rw q (
          kept-IsSingle s
            (get_or_create (find? (is_held badge.pk recipient) s.awards)
              (create_award pk actor recipient badge contribution reason) env s)
            single
            (get_or_create-Keeps (find? (is_held badge.pk recipient) s.awards) pk actor recipient
              badge contribution reason env s refl single))
    ]

pub require_super_admin-Keeps : (actor : Actor) (op : Op) → Keeps (require_super_admin actor op)
unfolding require_super_admin
require_super_admin-Keeps actor op env s single = elim (Bool-cases (is_super_admin actor)) [
  | inr q ↦ rw q single
  | inl q ↦ elim (Bool-cases (has_privileged_session env.mfa_bypass actor)) [
    | inl q' ↦ rw (q, q') single
    | inr q' ↦ rw (q, q') single
  ]
]

save_award-Keeps : (award : BadgeAward) → is_active award.status ≡ false → Keeps (save_award award)
save_award-Keeps award gone env s single b r =
    let fewer =
      map-count (λ a. if a.pk == award.pk then award else a) b r
        (λ a h. elim (Bool-cases (a.pk == award.pk)) [
          | inl q ↦ absurd (ground (arith, gone, rw q at h))
          | inr q ↦ rw q at h
        ])
        s.awards in
    omega (arith, fewer, single b r)

pub revoke_active_award-Keeps :
    (actor : Actor) (award : BadgeAward) (reason : Text)
    → Keeps (revoke_active_award actor award reason)
unfolding revoke_active_award record_audit
revoke_active_award-Keeps actor award reason env s single =
    elim (Bool-cases (is_nil (strip reason))) [
      | inl q ↦ rw q single
      | inr q ↦ elim (Bool-cases (is_active award.status)) [
        | inr p ↦ rw (q, p) single
        | inl p ↦
            rw (q, p)
              (save_award-Keeps (revoked_award actor reason env.now award) refl env s single)
      ]
    ]

pub revoke_all-Keeps :
    (actor : Actor) (reason : Text) (awards : List BadgeAward)
    → Keeps (revoke_all actor reason awards)
revoke_all-Keeps actor reason [] = λ env s single. single
revoke_all-Keeps actor reason (award ∷ awards) =
    then-Keeps (revoke_active_award actor award reason) (revoke_all actor reason awards)
      (revoke_active_award-Keeps actor award reason) (revoke_all-Keeps actor reason awards)

award_all-Keeps :
    (scheme : Scheme) (actor : Actor) (recipient contribution : ℕ) (badges : List Badge)
    → Keeps (award_all scheme actor recipient contribution badges)
award_all-Keeps scheme actor recipient contribution [] = λ env s single. single
award_all-Keeps scheme actor recipient contribution (badge ∷ badges) =
    bind-Keeps
      (award_active_badge (scheme.award_key badge.pk) actor recipient badge (some contribution) [])
      (λ award.
        award_all scheme actor recipient contribution badges >>= λ rest. reply (award ∷ rest))
      (award_active_badge-Keeps (scheme.award_key badge.pk) actor recipient badge
        (some contribution) [])
      (λ award.
        bind-Keeps (award_all scheme actor recipient contribution badges)
          (λ rest. reply (award ∷ rest))
          (award_all-Keeps scheme actor recipient contribution badges)
          (λ rest env s single. single))

score_once-Keeps :
    (scheme : Scheme) (policy : ScoringPolicy) (member : ℕ) (e : Contribution)
    (score : Option ContributionScore)
    → Keeps (score_once scheme policy member e score)
unfolding record_audit
score_once-Keeps scheme policy member e (some score) env s single = single
score_once-Keeps scheme policy member e none env s single =
    let score = new_score (scheme.score_key e.pk) policy e env.now in
    let after = (add_score e.pk score env s).1 in
    let s' =
      (record_audit policy.approved_by Op.contribution_scored Payload.nothing
        (Payload.scored_payload e.pk policy.version (points_for policy.rules e.impact_tier)) env
        after).1 in
    let due =
      due_badges policy.rules (total_points policy.version (some member) s'.entries)
        scheme.badges in
    bind-Keeps (award_all scheme policy.approved_by member e.pk due)
      (λ awards. reply (some score, awards))
      (award_all-Keeps scheme policy.approved_by member e.pk due) (λ awards env s single. single)
      env s' single

pub evaluate_for-Keeps :
    (scheme : Scheme) (e : Contribution) (member : Option ℕ) (policy : Option ScoringPolicy)
    → Keeps (evaluate_for scheme e member policy)
unfolding record_audit
evaluate_for-Keeps scheme e none policy env s single = single
evaluate_for-Keeps scheme e (some member) none env s single = single
evaluate_for-Keeps scheme e (some member) (some policy) env s single =
    elim (Bool-cases (is_none policy.approved_by)) [
      | inl q ↦ rw q single
      | inr q ↦ rw q (score_once-Keeps scheme policy member e e.score env s single)
    ]

score_each-Keeps :
    (scheme : Scheme) (policy : ScoringPolicy) (es : List Contribution)
    → Keeps (score_each scheme policy es)
score_each-Keeps scheme policy [] env s single = single
score_each-Keeps scheme policy (e ∷ es) env s single =
    let score = new_score (scheme.score_key e.pk) policy e env.now in
    bind-Keeps (score_each scheme policy es) (λ rest. reply (score ∷ rest))
      (score_each-Keeps scheme policy es) (λ rest env s single. single) env
      (add_score e.pk score env s).1 single

pub reverse_active-Keeps :
    (actor : Actor) (reason : Text) (e : Contribution) (score : Option ContributionScore)
    → Keeps (reverse_active actor reason e score)
unfolding record_audit
reverse_active-Keeps actor reason e none env s single = single
reverse_active-Keeps actor reason e (some score) env s single =
    elim (Bool-cases (is_none score.reversed_at)) [ inl q ↦ rw q single | inr q ↦ rw q single ]

pub score_due-Keeps :
    (scheme : Scheme) (window_days maximum : ℕ) (policy : Option ScoringPolicy)
    → Keeps (score_due scheme window_days maximum policy)
score_due-Keeps scheme window_days maximum none env s single = single
score_due-Keeps scheme window_days maximum (some policy) env s single =
    score_each-Keeps scheme policy
      (capped maximum (λ _ _. 0) (sorted (filter (is_unscored window_days env.now) s.entries))) env
      s single
