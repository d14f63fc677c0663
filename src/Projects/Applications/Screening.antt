-- ===== src/Projects/Applications/Screening.antt =====
-- apps/projects/services.py: the answers to screening questions.
use dev_nepal.Prelude.{
  ℕ, Bool, ◌&&◌, Option, none, some, List, [], ◌∷◌, ◌⊎◌, inl, inr, any, filter, is_nil, map, Text,
  strip, ◌==◌, if◌then◌else◌,
}
use dev_nepal.Projects.Data.{ProjectScreeningQuestion, ScreeningAnswer}
use dev_nepal.Projects.Monad.{ApplicationReason}

-- One entry of the list `answers`: the number that `question_id` reads as, if it does, and the
-- text of `answer`, which is empty when the key is missing. No question has a negative number.
pub record Answer : Type 0 where
  pub question_id : Option ℕ
  pub answer : Text

-- The dict `provided`: a later entry stands before an earlier one and hides it.
abbrev pub lookup : ℕ → List (ℕ × Text) → Text
lookup key [] = []
lookup key ((k, value) ∷ entries) = if k == key then value else lookup key entries

abbrev has_pk : ℕ → ProjectScreeningQuestion → Bool
has_pk pk question = question.pk == pk

-- The loop over `answers`.
unfoldable pub provide :
    List ProjectScreeningQuestion
    → List Answer
    → List (ℕ × Text)
    → ApplicationReason ⊎ List (ℕ × Text)
unfolding strip
provide questions [] provided = inr provided
provide questions (entry ∷ answers) provided = elim (entry.question_id) [
  | none ↦ inl ApplicationReason.bad_answer
  | some pk ↦
      let rest = provide questions answers ((pk, strip entry.answer) ∷ provided) in
      if any (has_pk pk) questions then rest else inl ApplicationReason.not_configured
]

abbrev pub is_unanswered : List (ℕ × Text) → ProjectScreeningQuestion → Bool
is_unanswered provided question = question.is_required && is_nil (lookup question.pk provided)

abbrev pub answer_row : List (ℕ × Text) → ProjectScreeningQuestion → ScreeningAnswer
answer_row provided question = record {
  question_id = question.pk;
  question = question.question;
  answer = lookup question.pk provided;
}

abbrev pub question_is_active : ProjectScreeningQuestion → Bool
question_is_active question = question.is_active

abbrev pub active_questions : List ProjectScreeningQuestion → List ProjectScreeningQuestion
active_questions questions = filter question_is_active questions

-- What follows the loop.
unfoldable pub answer_rows :
    List ProjectScreeningQuestion
    → ApplicationReason ⊎ List (ℕ × Text)
    → ApplicationReason ⊎ List ScreeningAnswer
answer_rows questions (inl reason) = inl reason
answer_rows questions (inr provided) =
    if any (is_unanswered provided) questions
    then inl ApplicationReason.unanswered
    else inr (map (answer_row provided) questions)

unfoldable pub validated_screening_answers :
    List ProjectScreeningQuestion → List Answer → ApplicationReason ⊎ List ScreeningAnswer
unfolding provide answer_rows
validated_screening_answers questions answers =
    answer_rows (active_questions questions) (provide (active_questions questions) answers [])
