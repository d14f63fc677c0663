-- ===== src/Projects/Review/Laws.antt =====
-- Review: who decides, and what a refused submission leaves behind.
use dev_nepal.Prelude.{
  ◌≡◌, ◌≢◌, ap, sym, ◌∙◌, ◌⊎◌, inl, inr, Bool-cases, Option-cases, ◌==◌, ◌&&◌, not, true, false,
  Option, some, [], ◌∷◌, Text, arith,
}
use dev_nepal.Accounts.{User, Actor, is_super_admin, has_privileged_session}
use dev_nepal.Projects.Enums.{government, ProjectStatus}
use dev_nepal.Projects.Data.{ProjectReviewAssignment, ProjectVersion}
use dev_nepal.Projects.Monad.{
  record_audit, Store, Env, Action, Result, Operation, authorization, lifecycle, not_allowed, err,
  denial,
}
use dev_nepal.Projects.Access.Laws.{MayPublish, require_super_admin-pass, require_publisher_iff}
use dev_nepal.Projects.Lifecycle.Laws.{
  latest_version-new_version, new_version-number, next-number_of,
}
use dev_nepal.Projects.Lifecycle.{
  review_row, schedule_review_notifications, latest_version, new_version, create_version,
  perform_transition,
}
use dev_nepal.Projects.Review.{
  Moment, require_status, assigned_to_other, require_assigned_reviewer, request_changes,
  reject_submission, approve, revoke_approval, submit_for_review, missing_bilingual,
}

-- The latest submission is assigned to a reviewer other than this account.
abbrev pub HoldsBack : Store → User → Type 0
HoldsBack s user =
    (a : ProjectReviewAssignment) × (v : ProjectVersion) × (s.assignment ≡ some a)
    × (latest_version s.versions ≡ some v)
    × (a.version ≡ v.version_number)
    × (a.reviewer ≢ user.pk)

assigned_to_other-cases :
    (user : User) (s : Store)
    → (assigned_to_other (some user) s ≡ true) × HoldsBack s user
      ⊎ (assigned_to_other (some user) s ≡ false) × ¬ (HoldsBack s user)
unfolding assigned_to_other
assigned_to_other-cases user s = elim (Option-cases s.assignment) [
  | inl gone ↦
      inr (ground (arith, gone), λ held. let (a, v, e, _, _, _) = held in ground (arith, gone, e))
  | inr (a, here) ↦ elim (Option-cases (latest_version s.versions)) [
    | inl gone ↦ inr (
      ground (arith, here, gone),
      λ held. let (a', v', e, l, _, _) = held in ground (arith, gone, l),
    )
    | inr (v, latest) ↦
        elim (Bool-cases (a.version == v.version_number && not (a.reviewer == user.pk))) [
          | inl other ↦ inl (
            ground (arith, here, latest, other),
            (a, v, here, latest, ground (arith, other), λ e. ground (arith, other, e)),
          )
          | inr own ↦ inr (
            ground (arith, here, latest, own),
            λ held.
                let (a', v', e, l, same, others) = held in
                let found : some a ≡ some a' = sym here ∙ e in
                let newest : some v ≡ some v' = sym latest ∙ l in
                let ea : a ≡ a' = cc in
                let ev : v ≡ v' = cc in
                let version : a.version ≡ v.version_number =
                  ap (λ x. x.version) ea ∙ same ∙ sym (ap (λ x. x.version_number) ev) in
                let reviewer : a.reviewer ≡ user.pk = ground (arith, own, version) in
                others (sym (ap (λ x. x.reviewer) ea) ∙ reviewer),
          )
        ]
  ]
]

-- A call of this account that is not refused as another reviewer's.
abbrev pub IsHeard : User → Action (Unit {0}) → Env → Store → Type 0
IsHeard user call env s = (call env s).0 ≢ err (authorization Operation.review_decision)

-- A Super Admin in a verified session who approves the latest submission, returns it, rejects it or
-- revokes its approval: while it is assigned to another reviewer, each call raises, and adds one
-- denial to the trail and nothing else; otherwise, also where the assignment is to an older version,
-- no call is refused for its reviewer.
pub assigned_reviewer_decides :
    (user : User) (env : Env) (s : Store) (reason comment : Text) (publish_at : Option Moment)
    → is_super_admin (some user) ≡ true
    → has_privileged_session env.mfa_bypass (some user) ≡ true
    → let denied : Result (Unit {0}) × Store = (
      err (authorization Operation.review_decision),
      denial (some user) Operation.review_decision env s,
    ) in
      HoldsBack s user
        × (approve (some user) publish_at comment env s ≡ denied)
        × (request_changes (some user) reason env s ≡ denied)
        × (reject_submission (some user) reason env s ≡ denied)
        × (revoke_approval (some user) reason env s ≡ denied)
      ⊎ ¬ (HoldsBack s user)
        × IsHeard user (approve (some user) publish_at comment) env s
        × IsHeard user (request_changes (some user) reason) env s
        × IsHeard user (reject_submission (some user) reason) env s
        × IsHeard user (revoke_approval (some user) reason) env s
unfolding approve request_changes reject_submission revoke_approval require_assigned_reviewer
    require_status review_row perform_transition record_audit schedule_review_notifications
assigned_reviewer_decides user env s reason comment publish_at h k =
    elim (assigned_to_other-cases user s) [
      | inl (other, held) ↦ inl (
        held,
        rw (require_super_admin-pass (some user) Operation.approve env s h k) (rw other),
        rw (require_super_admin-pass (some user) Operation.request_changes env s h k) (rw other),
        rw (require_super_admin-pass (some user) Operation.reject env s h k) (rw other),
        rw (require_super_admin-pass (some user) Operation.revoke_approval env s h k) (rw other),
      )
      | inr (own, free) ↦ inr (
        free,
        rw (require_super_admin-pass (some user) Operation.approve env s h k, own) (ground arith),
        rw (require_super_admin-pass (some user) Operation.request_changes env s h k, own)
            (ground arith),
        rw (require_super_admin-pass (some user) Operation.reject env s h k, own) (ground arith),
        rw (require_super_admin-pass (some user) Operation.revoke_approval env s h k, own)
            (ground arith),
      )
    ]

-- The assignment is to the latest submission, and the project is in review.
pub record IsAssigned (s : Store) (a : ProjectReviewAssignment) (v : ProjectVersion) : Type 0 where
  pub government : s.project.project_type ≡ government
  pub in_review : s.project.status ≡ ProjectStatus.in_review
  pub latest : latest_version s.versions ≡ some v
  pub assignment : s.assignment ≡ some a
  pub version : a.version ≡ v.version_number

-- An actor who may act for a government project that is already in review, with a reviewer assigned
-- to its latest version and its bilingual fields filled, and who submits it, is refused; but the
-- version that `submit_for_review` has created stays, and afterwards the assignment holds back no
-- other reviewer.
pub submit_in_review_frees_review :
    (publisher reviewer : Actor) (env : Env) (s : Store) (a : ProjectReviewAssignment)
    (v : ProjectVersion)
    → MayPublish publisher env s
    → IsAssigned s a v
    → missing_bilingual s.project.content ≡ []
    → let (r, s') = submit_for_review publisher env s in
      (r ≡ err (lifecycle (not_allowed ProjectStatus.in_review ProjectStatus.in_review)))
      × (s'.versions ≡ new_version publisher env s ∷ s.versions)
      × (s'.project.status ≡ ProjectStatus.in_review)
      × (assigned_to_other reviewer s' ≡ false)
unfolding submit_for_review create_version perform_transition assigned_to_other
submit_in_review_frees_review publisher reviewer env s a v may h complete =
    rw ((require_publisher_iff publisher Operation.submit env s).1 may) (
      ground (
        arith,
        latest_version-new_version publisher env s,
        new_version-number publisher env s,
        next-number_of s.versions,
      ))
