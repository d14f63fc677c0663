-- ===== src/Projects/Edit/Stranding.antt =====
-- A personal listing that an edit sends to review never returns.
use dev_nepal.Prelude.{
  ◌≡◌, refl, sym, ◌∙◌, ◌⊎◌, inl, inr, ◌≢◌, true, false, List, [], ◌∷◌, any, arith,
}
use dev_nepal.Accounts.{Actor}
use dev_nepal.Projects.Enums.{ProjectType, government, personal, ProjectStatus, status_in}
use dev_nepal.Projects.Monad.{Store, Env, Operation, ok}
use dev_nepal.Projects.Access.{require_publisher}
use dev_nepal.Projects.Edit.{
  Change, changed_material, apply_edit, editable_states, material_edit_review_states, is_unknown,
}
use dev_nepal.Projects.Command.{Command, execute}
use dev_nepal.Projects.Command.Refinement.{
  ◌⊢◌⟶◌, execute-⟶, execute-Effect, IsLive, open_is_live, paused_is_live, IsPublic, open_is_public,
  paused_is_public, completed_is_public, cancelled_is_public, submits, publishes_draft, returns,
  approves, rejects, resubmits, publishes, revokes, unpublishes, pauses, resumes, completes,
  cancels, archives, reopens_completed, reopens_cancelled, restores,
}
use dev_nepal.Projects.Command.Numbering.{run}
use dev_nepal.Projects.Edit.Laws.{apply_edit_passes}

live_is_not_in_review : {a : ProjectStatus} → IsLive a → a ≢ ProjectStatus.in_review
live_is_not_in_review open_is_live e = cc
live_is_not_in_review paused_is_live e = cc

public_is_not_in_review : {a : ProjectStatus} → IsPublic a → a ≢ ProjectStatus.in_review
public_is_not_in_review open_is_public e = cc
public_is_not_in_review paused_is_public e = cc
public_is_not_in_review completed_is_public e = cc
public_is_not_in_review cancelled_is_public e = cc

-- The diagram has no way out of review for a personal listing.
no_exit :
    {t : ProjectType} {a b : ProjectStatus}
    → t ⊢ a ⟶ b
    → (t ≡ government) ⊎ (a ≢ ProjectStatus.in_review)
no_exit submits = inl refl
no_exit (publishes_draft t) = inr (λ e. cc)
no_exit returns = inl refl
no_exit approves = inl refl
no_exit rejects = inl refl
no_exit resubmits = inl refl
no_exit publishes = inl refl
no_exit revokes = inl refl
no_exit unpublishes = inr (λ e. cc)
no_exit (pauses t) = inr (λ e. cc)
no_exit (resumes t) = inr (λ e. cc)
no_exit (completes t p) = inr (live_is_not_in_review p)
no_exit (cancels t p) = inr (live_is_not_in_review p)
no_exit (archives t p) = inr (public_is_not_in_review p)
no_exit reopens_completed = inl refl
no_exit reopens_cancelled = inl refl
no_exit (restores t p) = inr (λ e. cc)

-- A personal listing in review stays there, whatever calls follow.
run-stranded :
    (cs : List (Env × Command)) (s : Store)
    → s.project.project_type ≡ personal
    → s.project.status ≡ ProjectStatus.in_review
    → (run cs s).project.status ≡ ProjectStatus.in_review
unfolding run
run-stranded [] s h k = k
run-stranded ((env, c) ∷ cs) s h k =
    run-stranded cs (execute c env s).1 ((execute-Effect c env s).identity.project_type ∙ h)
      (elim (execute-⟶ c env s) [
        | inl same ↦ same ∙ k
        | inr (edge, _) ↦ elim (no_exit edge) [
          | inl gov ↦ (let absurd : personal ≡ government = sym h ∙ gov in cc)
          | inr out ↦ elim (out k) [ ]
        ]
      ])

-- An edit by the owner that names no unknown field and changes a material field of an open or
-- paused personal listing is accepted, and sends it to review, from where no history of the calls
-- of `Command` by anyone brings it back.
pub apply_edit_strands :
    (owner : Actor) (changes : List Change) (env : Env) (s : Store) (cs : List (Env × Command))
    → require_publisher owner Operation.edit env s ≡ (ok tt, s)
    → s.project.project_type ≡ personal
    → status_in s.project.status material_edit_review_states ≡ true
    → changed_material env changes s.project ≢ []
    → any is_unknown changes ≡ false
    → let (r, s') = apply_edit owner changes env s in
      (r ≡ ok tt) × ((run cs s').project.status ≡ ProjectStatus.in_review)
apply_edit_strands owner changes env s cs may own live change known =
    let editable : status_in s.project.status editable_states ≡ true = ground arith in
    let (r, edited) = apply_edit_passes owner changes env s may editable known in
    (
      r,
      elim edited [
        | inl (_, _, _, none_or_closed) ↦ ground arith
        | inr (to, _, type_, _, _, _, _) ↦
            run-stranded cs (apply_edit owner changes env s).1 (type_ ∙ own) to
      ],
    )
