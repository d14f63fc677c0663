-- ===== src/Recognition/Uniqueness.antt =====
-- A member holds a badge at most once: what keeps the constraint uniq_active_award_badge_recipient.
use dev_nepal.Prelude.{ℕ, not, ◌||◌, Option, none, List, [], ◌∷◌, Text}
use dev_nepal.Accounts.{Actor}
use dev_nepal.Service.{choose, reply, ◌>>=◌, ◌>>◌}
use dev_nepal.Contributions.Data.{is_accepted}
use dev_nepal.Recognition.Data.{
  Contribution, BadgeAward, Env, Ledger, Call, require_super_admin, Op,
}
use dev_nepal.Recognition.Badges.{
  Badge, award_active_badge, award_badge, revoke_active_award, revoke_badge,
}
use dev_nepal.Recognition.Scoring.{
  Scheme, evaluate_for, evaluate_accepted_contribution, held_for, revoke_held, reverse_active,
  reverse_accepted_contribution,
}
use dev_nepal.Recognition.Recomputation.{score_due, recompute_scores}
use dev_nepal.Recognition.Awards.{
  award_active_badge-Keeps, evaluate_for-Keeps, require_super_admin-Keeps, reverse_active-Keeps,
  revoke_active_award-Keeps, revoke_all-Keeps, score_due-Keeps,
}
use dev_nepal.Recognition.Counting.{
  IsSingle, Keeps, bind-Keeps, choose-Keeps, then-Keeps, transaction-Keeps,
}

-- The calls on scores and badges.
pub data Act : Type 0 where
  award_ : (pk : ℕ) → Actor → (recipient : ℕ) → Badge → (contribution : Option ℕ) → Text → Act
  revoke_ : Actor → BadgeAward → Text → Act
  evaluate_ : Scheme → Contribution → Act
  reverse_ : Actor → Contribution → Text → Act
  recompute_ : Scheme → (window_days max_per_project : ℕ) → Act

abbrev pub ignore : {A : Type 0} → Call A → Call (Unit {0})
ignore m = m >>= λ _. reply tt

unfoldable pub act : Act → Call (Unit {0})
act (award_ pk actor recipient badge contribution reason) =
    ignore (award_badge pk actor recipient badge contribution reason)
act (revoke_ actor award reason) = revoke_badge actor award reason
act (evaluate_ scheme e) = ignore (evaluate_accepted_contribution scheme e)
act (reverse_ actor e reason) = reverse_accepted_contribution actor e reason
act (recompute_ scheme window_days maximum) = ignore (recompute_scores scheme window_days maximum)

-- The ledger after a history of calls, whatever each returned or raised.
unfoldable pub run : List (Env × Act) → Ledger → Ledger
run [] s = s
run ((env, c) ∷ cs) s = run cs (act c env s).1

ignore-Keeps : {A : Type 0} → (m : Call A) → Keeps m → Keeps (ignore m)
ignore-Keeps m h = bind-Keeps m (λ _. reply tt) h (λ a env s single. single)

act-Keeps : (c : Act) → Keeps (act c)
unfolding act award_badge revoke_badge evaluate_accepted_contribution reverse_accepted_contribution
    recompute_scores
act-Keeps (award_ pk actor recipient badge contribution reason) =
    ignore-Keeps (award_badge pk actor recipient badge contribution reason) (
      bind-Keeps (require_super_admin actor Op.award_denied)
        (λ _. award_active_badge pk actor recipient badge contribution reason)
        (require_super_admin-Keeps actor Op.award_denied)
        (λ _. award_active_badge-Keeps pk actor recipient badge contribution reason))
act-Keeps (revoke_ actor award reason) =
    bind-Keeps (require_super_admin actor Op.revoke_denied)
      (λ _. revoke_active_award actor award reason)
      (require_super_admin-Keeps actor Op.revoke_denied)
      (λ _. revoke_active_award-Keeps actor award reason)
act-Keeps (evaluate_ scheme e) = ignore-Keeps (evaluate_accepted_contribution scheme e) (
    let skips = not scheme.enabled || not (is_accepted e.desk.row.status) in
    let scores = evaluate_for scheme e e.desk.row.contributor scheme.policy in
    transaction-Keeps (choose skips (reply (none, [])) scores) (
      choose-Keeps skips (reply (none, [])) scores (λ env s single. single)
        (evaluate_for-Keeps scheme e e.desk.row.contributor scheme.policy)))
act-Keeps (reverse_ actor e reason) =
    transaction-Keeps (reverse_active actor reason e e.score >> revoke_held actor reason e) (
      then-Keeps (reverse_active actor reason e e.score) (revoke_held actor reason e)
        (reverse_active-Keeps actor reason e e.score)
        (λ env s single. revoke_all-Keeps actor reason (held_for e s.awards) env s single))
act-Keeps (recompute_ scheme window_days maximum) =
    ignore-Keeps (recompute_scores scheme window_days maximum) (
      transaction-Keeps (score_due scheme window_days maximum scheme.policy)
        (score_due-Keeps scheme window_days maximum scheme.policy))

-- After any history of awards, revocations, evaluations, reversals and recomputations, by whomever and
-- whether they return or raise, every member holds every badge at most once, if that holds at the
-- start: what the constraint uniq_active_award_badge_recipient asks.
pub run-IsSingle : (cs : List (Env × Act)) (s : Ledger) → IsSingle s → IsSingle (run cs s)
unfolding run
run-IsSingle [] s single = single
run-IsSingle ((env, c) ∷ cs) s single = run-IsSingle cs (act c env s).1 (act-Keeps c env s single)
