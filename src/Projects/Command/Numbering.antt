-- ===== src/Projects/Command/Numbering.antt =====
-- Histories of calls: version numbers, identity, and what only some calls can do.
use dev_nepal.Prelude.{
  ℕ, ◌≤◌, zero, suc, ◌≡◌, refl, ◌⊎◌, inl, inr, Option, some, none, List, [], ◌∷◌, ◌∙◌, ap, arith,
}
use dev_nepal.Projects.Data.{Project, ProjectVersion}
use dev_nepal.Projects.Monad.{Store, Env}
use dev_nepal.Projects.Lifecycle.{newer, latest_version, next_version_number}
use dev_nepal.Projects.Lifecycle.Laws.{number_of, next-number_of}
use dev_nepal.Projects.Command.{Command, execute}
use dev_nepal.Projects.Command.Effect.{SameIdentity, numbers}
use dev_nepal.Projects.Command.Refinement.{execute-Effect}

-- The rows after a history of calls, whatever each returned or raised.
unfoldable pub run : List (Env × Command) → Store → Store
run [] s = s
run ((env, c) ∷ cs) s = run cs (execute c env s).1

-- n, n - 1, …, 1
abbrev pub countdown : ℕ → List ℕ
countdown zero = []
countdown (suc n) = suc n ∷ countdown n

-- The head and the tail of an equation of lists.
cons_eq : (a b : ℕ) (xs ys : List ℕ) → ◌≡◌ {A = List ℕ} (a ∷ xs) (b ∷ ys) → (a ≡ b) × (xs ≡ ys)
cons_eq a b xs ys h = (cc, cc)

newer-number :
    (v : ProjectVersion) (o : Option ProjectVersion) (n : ℕ)
    → v.version_number ≡ suc n
    → number_of o ≡ n
    → number_of (newer v o) ≡ suc n
newer-number v none n h k = h
newer-number v (some w) n h k = ground arith

latest_version-countdown :
    (n : ℕ) (vs : List ProjectVersion)
    → numbers vs ≡ countdown n
    → number_of (latest_version vs) ≡ n
unfolding latest_version
latest_version-countdown zero [] h = refl
latest_version-countdown zero (v ∷ vs) h = cc
latest_version-countdown (suc n) [] h = cc
latest_version-countdown (suc n) (v ∷ vs) h =
    let e = cons_eq v.version_number (suc n) (numbers vs) (countdown n) h in
    newer-number v (latest_version vs) n e.0 (latest_version-countdown n vs e.1)

next_version_number-countdown :
    (n : ℕ) (vs : List ProjectVersion) → numbers vs ≡ countdown n → next_version_number vs ≡ suc n
next_version_number-countdown n vs h = next-number_of vs ∙ ap suc (latest_version-countdown n vs h)

step-countdown :
    (c : Command) (env : Env) (s : Store) (n : ℕ)
    → numbers s.versions ≡ countdown n
    → (numbers (execute c env s).1.versions ≡ countdown n)
      ⊎ (numbers (execute c env s).1.versions ≡ countdown (suc n))
step-countdown c env s n h = elim ((execute-Effect c env s).version) [
  | inl same ↦ inl (same ∙ h)
  | inr more ↦ inr (ground (arith, more, next_version_number-countdown n s.versions h))
]

-- From versions numbered 1 to n without a gap, the newest first, any history of calls leads to
-- versions numbered 1 to some m without a gap, the newest first, where m is at least n.
pub run-countdown :
    (cs : List (Env × Command)) (s : Store) (n : ℕ)
    → numbers s.versions ≡ countdown n
    → (m : ℕ) × (n ≤ m) × (numbers (run cs s).versions ≡ countdown m)
unfolding run
run-countdown [] s n h = (n, omega arith, h)
run-countdown ((env, c) ∷ cs) s n h = elim (step-countdown c env s n h) [
  | inl same ↦ run-countdown cs (execute c env s).1 n same
  | inr more ↦
      let (m, le, h') = run-countdown cs (execute c env s).1 (suc n) more in (m, omega arith, h')
]

same_trans : (p q r : Project) → SameIdentity p q → SameIdentity q r → SameIdentity p r
same_trans p q r h k = ground arith

-- No history of calls changes a project's id, type, owner, ministry, slug or descriptive content.
pub run-SameIdentity :
    (cs : List (Env × Command)) (s : Store) → SameIdentity s.project (run cs s).project
unfolding run
run-SameIdentity [] s = ground arith
run-SameIdentity ((env, c) ∷ cs) s =
    same_trans s.project (execute c env s).1.project (run cs (execute c env s).1).project
      (execute-Effect c env s).identity (run-SameIdentity cs (execute c env s).1)
