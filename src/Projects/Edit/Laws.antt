-- ===== src/Projects/Edit/Laws.antt =====
-- What an edit does: it writes columns only, or it also sends a public project back to review.
use dev_nepal.Prelude.{
  ◌≡◌, refl, ◌∙◌, ap, ◌⊎◌, inl, inr, ◌≢◌, true, false, List, [], ◌∷◌, any, is_nil, not, ◌&&◌,
  Bool-cases, arith,
}
use dev_nepal.Accounts.{Actor}
use dev_nepal.Projects.Enums.{ProjectStatus, status_in}
use dev_nepal.Projects.Data.{Project}
use dev_nepal.Projects.Monad.{Store, Env, Operation, FieldName, ok, set_project}
use dev_nepal.Projects.Access.{require_publisher}
use dev_nepal.Projects.Access.Laws.{require_publisher-Guards}
use dev_nepal.Projects.Lifecycle.{
  create_version, next_version_number, schedule_review_queue_notifications,
}
use dev_nepal.Projects.Lifecycle.Laws.{new_version-number}
use dev_nepal.Projects.Edit.{
  Change, write, write_all, changed_material, review_again, apply_edit, editable_states,
  material_edit_review_states, when, is_unknown,
}
use dev_nepal.Projects.Command.Effect.{numbers, tail}

-- The columns that an edit cannot name.
pub record Kept (p q : Project) : Type 0 where
  pub pk : q.pk ≡ p.pk
  pub project_type : q.project_type ≡ p.project_type
  pub owner : q.owner ≡ p.owner
  pub ministry : q.ministry ≡ p.ministry
  pub status : q.status ≡ p.status
  pub status_changed_at : q.status_changed_at ≡ p.status_changed_at
  pub published_at : q.published_at ≡ p.published_at
  pub current_version : q.current_version ≡ p.current_version
  pub archived_at : q.archived_at ≡ p.archived_at

write-Kept : (env : Env) (c : Change) (p : Project) → Kept p (write env c p)
unfolding write
write-Kept env c p = ground arith

Kept-trans : (p q r : Project) → Kept p q → Kept q r → Kept p r
Kept-trans p q r h k = ground arith

pub write_all-Kept : (env : Env) (cs : List Change) (p : Project) → Kept p (write_all env cs p)
unfolding write_all
write_all-Kept env [] p = ground arith
write_all-Kept env (c ∷ cs) p =
    Kept-trans p (write env c p) (write_all env cs (write env c p)) (write-Kept env c p)
      (write_all-Kept env cs (write env c p))

-- What an edit leaves, beside the columns that it writes: no more, or a new submission in review.
abbrev pub InPlace : List FieldName → Store → Store → Type 0
InPlace changed s s' =
    Kept s.project s'.project
    × (s'.versions ≡ s.versions)
    × (s'.audit ≡ s.audit)
    × ((changed ≡ []) ⊎ (status_in s.project.status material_edit_review_states ≡ false))

abbrev pub SentToReview : List FieldName → Store → Store → Type 0
SentToReview changed s s' =
    (s'.project.status ≡ ProjectStatus.in_review)
    × (s'.project.published_at ≡ s.project.published_at)
    × (s'.project.project_type ≡ s.project.project_type)
    × (numbers s'.versions ≡ next_version_number s.versions ∷ numbers s.versions)
    × (tail s'.audit ≡ s.audit)
    × (changed ≢ [])
    × (status_in s.project.status material_edit_review_states ≡ true)

review_again-SentToReview :
    (publisher : Actor) (f : FieldName) (fs : List FieldName) (env : Env) (s : Store)
    → status_in s.project.status material_edit_review_states ≡ true
    → ((review_again publisher (f ∷ fs) env s).0 ≡ ok tt)
      × SentToReview (f ∷ fs) s (review_again publisher (f ∷ fs) env s).1
unfolding review_again create_version schedule_review_queue_notifications
review_again-SentToReview publisher f fs env s h =
    ground (arith, new_version-number publisher env s)

-- The last block, on the rows that the edit has written.
finish_lem :
    (changed : List FieldName) (publisher : Actor) (env : Env) (s : Store) (p : Project)
    → Kept s.project p
    → ((when
          (not (is_nil changed) && status_in s.project.status material_edit_review_states)
          (review_again publisher changed)
          env
          (set_project p s)).0
        ≡ ok tt)
      × (InPlace changed s
            (when
              (not (is_nil changed) && status_in s.project.status material_edit_review_states)
              (review_again publisher changed)
              env
              (set_project p s)).1
          ⊎ SentToReview changed s
              (when
                (not (is_nil changed) && status_in s.project.status material_edit_review_states)
                (review_again publisher changed)
                env
                (set_project p s)).1)
finish_lem [] publisher env s p k = (refl, inl (k, refl, refl, inl refl))
finish_lem (f ∷ fs) publisher env s p k =
    elim (Bool-cases (status_in s.project.status material_edit_review_states)) [
      | inr closed ↦ rw closed (refl, inl (k, refl, refl, inr refl))
      | inl live ↦
          let still : status_in p.status material_edit_review_states ≡ true =
            ap (λ st. status_in st material_edit_review_states) k.status ∙ live in
          let (r, (to, at, type_, more, trail, some_change, _)) =
            review_again-SentToReview publisher f fs env (set_project p s) still in
          rw live (
            r,
            inr (to, at ∙ k.published_at, type_ ∙ k.project_type, more, trail, some_change, refl),
          )
    ]

-- An edit that passes its guards.
pub apply_edit_passes :
    (publisher : Actor) (cs : List Change) (env : Env) (s : Store)
    → require_publisher publisher Operation.edit env s ≡ (ok tt, s)
    → status_in s.project.status editable_states ≡ true
    → any is_unknown cs ≡ false
    → ((apply_edit publisher cs env s).0 ≡ ok tt)
      × (InPlace (changed_material env cs s.project) s (apply_edit publisher cs env s).1
          ⊎ SentToReview (changed_material env cs s.project) s (apply_edit publisher cs env s).1)
unfolding apply_edit
apply_edit_passes publisher cs env s may editable known = rw may (
    rw editable (
      rw known (
        finish_lem (changed_material env cs s.project) publisher env s (write_all env cs s.project)
          (write_all-Kept env cs s.project))))

-- An edit returns only on a draft, a returned, an open or a paused project. It then keeps the
-- read-only columns, the versions and the trail, unless a material field of an open or paused
-- project changes: then the project goes to review with one new version and one audit event. An
-- edit that raises writes no column and no version.
pub apply_edit_lem :
    (publisher : Actor) (cs : List Change) (env : Env) (s : Store)
    → let (r, s') = apply_edit publisher cs env s in
      let changed = changed_material env cs s.project in
      (r ≡ ok tt)
        × (status_in s.project.status editable_states ≡ true)
        × (InPlace changed s s' ⊎ SentToReview changed s s')
      ⊎ ((r ≢ ok tt) × (s'.project ≡ s.project) × (s'.versions ≡ s.versions))
unfolding apply_edit
apply_edit_lem publisher cs env s = elim (require_publisher-Guards publisher Operation.edit env s) [
  | inr refused ↦ rw refused (inr (λ e. cc, refl, refl))
  | inl may ↦ elim (Bool-cases (status_in s.project.status editable_states)) [
    | inr closed ↦ rw may (rw closed (inr (λ e. cc, refl, refl)))
    | inl editable ↦ elim (Bool-cases (any is_unknown cs)) [
      | inl unknown ↦ rw may (rw editable (rw unknown (inr (λ e. cc, refl, refl))))
      | inr known ↦
          let (r, edited) = apply_edit_passes publisher cs env s may editable known in
          inl (r, editable, edited)
    ]
  ]
]
