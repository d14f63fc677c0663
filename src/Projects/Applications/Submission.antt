-- ===== src/Projects/Applications/Submission.antt =====
-- What a submitted application carries, and what a second one meets.
use dev_nepal.Prelude.{
  ℕ, suc, length, ◌≡◌, refl, ◌⊎◌, inl, inr, ◌≢◌, Bool, true, false, some, none, List, [], ◌∷◌, Text,
  map, any, sym, Sum-cases, arith,
}
use dev_nepal.Accounts.{User, Actor}
use dev_nepal.Projects.Enums.{ApplicationStatus, ProjectStatus, ParticipationKind}
use dev_nepal.Projects.Data.{Application, ProjectScreeningQuestion, ScreeningAnswer}
use dev_nepal.Projects.Monad.{Store, Env, ok, err, application_error, ApplicationReason}
use dev_nepal.Projects.Applications.{
  Answer, apply_to_project, validated_screening_answers, answer_rows, active_questions,
  same_application, submitted_application, is_unanswered, answer_row,
}
use dev_nepal.Projects.Applications.Laws.{Timeline}

-- One row for each question, in the order of the questions, not empty where it is required.
abbrev pub Answered : List ProjectScreeningQuestion → List ScreeningAnswer → Type 0
Answered [] [] = Unit
Answered [] (_ ∷ _) = ⊥
Answered (_ ∷ _) [] = ⊥
Answered (question ∷ questions) (row ∷ rows) =
    (row.question_id ≡ question.pk)
    × (row.question ≡ question.question)
    × ((question.is_required ≡ false) ⊎ (row.answer ≢ []))
    × Answered questions rows

answer_row-Answered :
    (provided : List (ℕ × Text)) (questions : List ProjectScreeningQuestion)
    → any (is_unanswered provided) questions ≡ false
    → Answered questions (map (answer_row provided) questions)
answer_row-Answered provided [] h = tt
answer_row-Answered provided (question ∷ questions) h =
    ground (arith, answer_row-Answered provided questions)

answer_rows-Answered :
    (questions : List ProjectScreeningQuestion) (r : ApplicationReason ⊎ List (ℕ × Text))
    {rows : List ScreeningAnswer}
    → answer_rows questions r ≡ inr rows
    → Answered questions rows
unfolding answer_rows
answer_rows-Answered questions (inl reason) h = cc
answer_rows-Answered questions (inr provided) h =
    ground (arith, answer_row-Answered provided questions)

pub validated-Answered :
    (questions : List ProjectScreeningQuestion) (answers : List Answer)
    {rows : List ScreeningAnswer}
    → validated_screening_answers questions answers ≡ inr rows
    → Answered (active_questions questions) rows
unfolding validated_screening_answers
validated-Answered questions answers h = answer_rows-Answered (active_questions questions) _ h

-- An application that a member has submitted to an open project.
pub record IsSubmitted (member : Actor) (questions : List ProjectScreeningQuestion)
    (applications : List Application) (kind : ParticipationKind) (s : Store) (a : Application)
    : Type 0 where
  pub is_open : s.project.status ≡ ProjectStatus.open_for_contribution
  pub by_member : member ≡ some a.applicant
  pub active : a.applicant.is_active ≡ true
  pub first_of_kind : any (same_application member kind) applications ≡ false
  pub of_kind : a.kind ≡ kind
  pub is_submitted : a.status ≡ ApplicationStatus.submitted
  pub answered : Answered (active_questions questions) a.screening_answers
  pub timeline : Timeline a.events a.status

-- What a call that returns has checked and saved.
apply_to_project-saved :
    (user : User) (questions : List ProjectScreeningQuestion) (applications : List Application)
    (answers : List Answer) (kind : ParticipationKind) (motivation : Text) (recorded : Bool)
    (env : Env) (s : Store) (rows : List ScreeningAnswer) {a : Application}
    → validated_screening_answers questions answers ≡ inr rows
    → (apply_to_project (some user) questions applications answers kind motivation recorded env s).0
      ≡ ok a
    → (s.project.status ≡ ProjectStatus.open_for_contribution)
      × (user.is_active ≡ true)
      × (any (same_application (some user) kind) applications ≡ false)
      × (submitted_application env user kind motivation rows (suc (length applications)) ≡ a)
unfolding apply_to_project
apply_to_project-saved user questions applications answers kind motivation recorded env s rows q h =
    ground arith

-- `apply_to_project` returns an application only for an active member's first of its kind on an
-- open project: it is submitted, has a row for each active screening question, not empty where one
-- is required, and a timeline that begins with the submission.
pub apply_to_project-IsSubmitted :
    (member : Actor) (questions : List ProjectScreeningQuestion) (applications : List Application)
    (answers : List Answer) (kind : ParticipationKind) (motivation : Text) (recorded : Bool)
    (env : Env) (s : Store) {a : Application}
    → (apply_to_project member questions applications answers kind motivation recorded env s).0
      ≡ ok a
    → IsSubmitted member questions applications kind s a
unfolding apply_to_project submitted_application
apply_to_project-IsSubmitted none questions applications answers kind motivation recorded env s h =
    ground arith
apply_to_project-IsSubmitted (some user) questions applications answers kind motivation recorded env
      s h =
    elim (Sum-cases (validated_screening_answers questions answers)) [
      | inl (reason, q) ↦ ground arith
      | inr (rows, q) ↦
          let (is_open, active, first, saved) =
            apply_to_project-saved user questions applications answers kind motivation recorded env
              s rows q h in
          rw (sym saved) (record {
            is_open = is_open;
            by_member = refl;
            active = active;
            first_of_kind = first;
            of_kind = refl;
            is_submitted = refl;
            answered = validated-Answered questions answers q;
            timeline = inl (record { first = refl; from = refl; to = refl; submitted = refl });
          })
    ]

-- A member who has applied and applies again, with the same kind, to the project as it was, is
-- refused whatever the answers, and nothing is written.
pub apply_to_project_twice :
    (member : Actor) (questions : List ProjectScreeningQuestion) (applications : List Application)
    (answers answers' : List Answer) (kind : ParticipationKind) (motivation motivation' : Text)
    (recorded recorded' : Bool) (env env' : Env) (s : Store) {a : Application}
    → (apply_to_project member questions applications answers kind motivation recorded env s).0
      ≡ ok a
    → apply_to_project member questions
        (a ∷ applications)
        answers'
        kind
        motivation'
        recorded'
        env'
        s
      ≡ (err (application_error ApplicationReason.already_exists), s)
unfolding apply_to_project submitted_application
apply_to_project_twice member questions applications answers answers' kind motivation motivation'
      recorded recorded' env env' s h =
    ground arith
