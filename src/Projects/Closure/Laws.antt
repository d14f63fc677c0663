-- ===== src/Projects/Closure/Laws.antt =====
-- Closure: evidence before completion, archival and restoration, and what a refused call leaves.
use dev_nepal.Prelude.{
  ℕ, suc, ◌≤◌, ◌≡◌, refl, ◌⊎◌, inl, inr, ◌≢◌, true, false, some, none, List, [], ◌∷◌, All, Text,
  length, ap, Sum-cases, arith,
}
use dev_nepal.Accounts.{Actor, is_super_admin, has_privileged_session}
use dev_nepal.Projects.Enums.{government, ProjectStatus, ReviewDecision, status_in}
use dev_nepal.Projects.Data.{Closure, Deliverable, entry, other, ProjectVersion}
use dev_nepal.Projects.Monad.{
  Store, Env, Error, Operation, lifecycle, not_allowed, ok, err, normalize_nfc,
}
use dev_nepal.Projects.Access.{require_owner_or_super_admin}
use dev_nepal.Projects.Access.Laws.{
  require_super_admin-pass, require_owner_or_super_admin-pass, require_owner_or_super_admin-Guards,
}
use dev_nepal.Projects.Lifecycle.{
  latest_version, restore_targets, transitions_for, perform_transition,
}
use dev_nepal.Projects.Lifecycle.Laws.{review_row-some}
use dev_nepal.Projects.Closure.{
  normalize_deliverable, normalize_each, normalize_deliverables, validated_completion_summary,
  validate_completion_summary, complete, cancel, archive, restore, is_web_url, combine,
}

-- A deliverable with a label of 1 to 200 characters, and no URL or one of http or https.
abbrev pub IsDeliverable : Env → Deliverable → Type 0
IsDeliverable env other = ⊥
IsDeliverable env (entry none url) = ⊥
IsDeliverable env (entry (some label) none) = ⊥
IsDeliverable env (entry (some label) (some url)) =
    (label ≢ []) × (length label ≤ 200) × ((url ≡ []) ⊎ (is_web_url env url ≡ true))

-- Closure evidence that may be published.
pub record IsEvidence (env : Env) (c : Closure) : Type 0 where
  pub outcome : c.outcome_summary ≢ []
  pub impact : c.impact_summary ≢ []
  pub lessons : c.lessons_learned ≢ []
  pub some_deliverable : c.deliverables ≢ []
  pub at_most_50 : length c.deliverables ≤ 50
  pub each : All (IsDeliverable env) c.deliverables

normalize_deliverable-IsDeliverable :
    (env : Env) (index : ℕ) (d : Deliverable) {d' : Deliverable}
    → normalize_deliverable env index d ≡ inr d'
    → IsDeliverable env d'
unfolding normalize_deliverable
normalize_deliverable-IsDeliverable env index other h = cc
normalize_deliverable-IsDeliverable env index (entry label url) h = ground arith

combine-inr :
    (r : Error ⊎ Deliverable) (rest : Error ⊎ List Deliverable) {ds : List Deliverable}
    → combine r rest ≡ inr ds
    → (d : Deliverable) × (ds' : List Deliverable) × (r ≡ inr d) × (rest ≡ inr ds') × (ds ≡ d ∷ ds')
combine-inr (inl e) rest h = cc
combine-inr (inr d) (inl e) h = cc
combine-inr (inr d) (inr ds') h = (d, ds', refl, refl, cc)

normalize_each-All :
    (env : Env) (index : ℕ) (ds : List Deliverable) {ds' : List Deliverable}
    → normalize_each env index ds ≡ inr ds'
    → All (IsDeliverable env) ds' × (length ds' ≡ length ds)
unfolding normalize_each
normalize_each-All env index [] {ds' = []} h = (tt, refl)
normalize_each-All env index [] {ds' = d ∷ ds} h = cc
normalize_each-All env index (d ∷ ds) {ds'} h =
    let (d', rest, e, f, g) =
      combine-inr (normalize_deliverable env index d) (normalize_each env (suc index) ds) h in
    let (all, len) = normalize_each-All env (suc index) ds f in
    rw g ((normalize_deliverable-IsDeliverable env index d e, all), ap suc len)

normalize_deliverables-All :
    (env : Env) (ds : List Deliverable) {ds' : List Deliverable}
    → normalize_deliverables env ds ≡ inr ds'
    → (ds' ≢ []) × (length ds' ≤ 50) × All (IsDeliverable env) ds'
unfolding normalize_deliverables
normalize_deliverables-All env [] h = cc
normalize_deliverables-All env (d ∷ ds) h = grind (arith, normalize_each-All env 1 (d ∷ ds))

-- Whatever is proposed, what `_validated_completion_summary` lets through is publishable evidence:
-- four parts that are not empty, 1 to 50 deliverables, each with a label of 1 to 200 characters and
-- no URL or one of http or https.
pub validated_completion_summary-IsEvidence :
    (env : Env) (c : Closure) {c' : Closure}
    → validated_completion_summary env c ≡ inr c'
    → IsEvidence env c'
unfolding validated_completion_summary
validated_completion_summary-IsEvidence env c h =
    elim (Sum-cases (normalize_deliverables env c.deliverables)) [
      | inl (e, q) ↦ ground arith
      | inr (ds, q) ↦ ground (arith, normalize_deliverables-All env c.deliverables q)
    ]

-- A government project is completed only if it was open or paused and its closure evidence
-- validates, to evidence that is publishable.
pub complete_requires :
    (actor : Actor) (env : Env) (s : Store)
    → s.project.project_type ≡ government
    → (complete actor env s).0 ≡ ok tt
    → ((c : Closure) × (validated_completion_summary env s.project.closure ≡ inr c)
        × IsEvidence env c)
      × ((s.project.status ≡ ProjectStatus.open_for_contribution)
          ⊎ (s.project.status ≡ ProjectStatus.paused))
unfolding complete validate_completion_summary perform_transition
complete_requires actor env s gov h =
    elim (Sum-cases (validated_completion_summary env s.project.closure)) [
      | inl (e, q) ↦
          ground (arith, require_owner_or_super_admin-Guards actor Operation.complete env s)
      | inr (c, q) ↦ (
        (c, q, validated_completion_summary-IsEvidence env s.project.closure q),
        ground (arith, require_owner_or_super_admin-Guards actor Operation.complete env s),
      )
    ]

-- A call of `cancel` with a reason, by an actor who may act, on a project whose status does not
-- allow to cancel it, is refused and has overwritten its outcome summary all the same.
pub cancel_refused_overwrites :
    (actor : Actor) (reason : Text) (env : Env) (s : Store)
    → require_owner_or_super_admin actor Operation.cancel env s ≡ (ok tt, s)
    → reason ≢ []
    → status_in ProjectStatus.cancelled (transitions_for s.project.project_type s.project.status)
      ≡ false
    → let (r, s') = cancel actor reason env s in
      (r ≡ err (lifecycle (not_allowed s.project.status ProjectStatus.cancelled)))
      × (s'.project.status ≡ s.project.status)
      × (s'.project.closure.outcome_summary ≡ normalize_nfc env reason)
unfolding cancel perform_transition
cancel_refused_overwrites actor reason env s may some_reason refused = rw may (ground arith)

-- A Super Admin in a verified session who archives a public project that has a version, and then
-- restores it with no target named, brings it back to the status that it had, with the archival
-- date cleared.
pub restore-archive :
    (actor : Actor) (reason : Text) (env env' : Env) (s : Store) (v : ProjectVersion)
    → is_super_admin actor ≡ true
    → has_privileged_session env.mfa_bypass actor ≡ true
    → has_privileged_session env'.mfa_bypass actor ≡ true
    → status_in s.project.status restore_targets ≡ true
    → latest_version s.versions ≡ some v
    → let (r, s') = archive actor reason env s in
      let (r', s'') = restore actor none env' s' in
      (r ≡ ok tt)
      × (s'.project.status ≡ ProjectStatus.archived)
      × (r' ≡ ok tt)
      × (s''.project.status ≡ s.project.status)
      × (s''.project.archived_at ≡ none)
unfolding archive restore perform_transition
restore-archive actor reason env env' s v h k k' target latest =
    let s' = (archive actor reason env s).1 in
    ground (
      arith,
      require_owner_or_super_admin-pass actor Operation.archive env s h k,
      require_super_admin-pass actor Operation.restore env' s' h k',
      review_row-some actor ReviewDecision.restored [] ProjectStatus.archived s.project.status env'
          s' v,
    )
