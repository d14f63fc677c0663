-- ===== src/Administration/Flags/Log.antt =====
-- The log of a flag, and what writing to it keeps.
use dev_nepal.Prelude.{
  ℕ, suc, ◌≤◌, ◌≡◌, refl, sym, ◌∙◌, ◌⊎◌, inl, inr, ◌≢◌, Bool, true, false, some, none, List, [],
  ◌∷◌, any, find?, Text, ◌==◌, Bool-cases, List-cases, arith,
}
use dev_nepal.Accounts.{User, Actor}
use dev_nepal.Service.{Reply, returns, raises, key_of, kept}
use dev_nepal.Administration.Access.{AdminError, ChangeStatus, is_pending, Env}
use dev_nepal.Administration.Flags.{
  FeatureFlag, FeatureFlagChange, Flags, applied_change, save_change, has_version, find_change,
  apply_change, new_change, create_change, record_change, requires_four_eyes,
}

-- A change that was applied; under four eyes, by another Super Admin than its proposer.
abbrev pub IsApplied : (four : Bool) → FeatureFlagChange → Type 0
IsApplied four c =
    (c.status ≡ ChangeStatus.applied)
    × (c.approved_by ≢ none)
    × ((four ≡ false) ⊎ (c.approved_by ≢ some c.proposed_by))

-- Applied changes numbered n to 1, the newest first, each from the value that the one before it
-- set, the oldest from off.
abbrev pub Log : (four enabled : Bool) → ℕ → List FeatureFlagChange → Type 0
Log four enabled n [] = (n ≡ 0) × (enabled ≡ false)
Log four enabled n (c ∷ cs) =
    IsApplied four c
    × (c.version ≡ n)
    × (c.to_enabled ≡ enabled)
    × ((m : ℕ) × (n ≡ suc m) × Log four c.from_enabled m cs)

-- A proposal before the log of a flag that members see.
abbrev pub Waits : FeatureFlag → List FeatureFlagChange → Type 0
Waits flag [] = ⊥
Waits flag (c ∷ cs) =
    (flag.affects_members ≡ true)
    × (c.status ≡ ChangeStatus.pending)
    × (c.version ≡ suc flag.version)
    × (c.from_enabled ≡ flag.is_enabled)
    × Log flag.affects_members flag.is_enabled flag.version cs

abbrev pub IsValid : Flags → Type 0
IsValid s =
    Log s.flag.affects_members s.flag.is_enabled s.flag.version s.changes ⊎ Waits s.flag s.changes

Log-fresh :
    (four enabled : Bool) (n k : ℕ) (cs : List FeatureFlagChange)
    → n ≤ k
    → Log four enabled n cs
    → any (has_version (suc k)) cs ≡ false
Log-fresh four enabled n k [] le h = refl
Log-fresh four enabled n k (c ∷ cs) le (_, v, _, (m, e, rest)) =
    ground (arith, Log-fresh four c.from_enabled m k cs (omega arith) rest)

Log-find :
    (four enabled : Bool) (n version : ℕ) (cs : List FeatureFlagChange) {row : FeatureFlagChange}
    → Log four enabled n cs
    → find? (has_version version) cs ≡ some row
    → is_pending row.status ≡ false
Log-find four enabled n version [] h e = cc
Log-find four enabled n version (c ∷ cs) ((applied, _, _), v, _, (m, _, rest)) e =
    elim (Bool-cases (c.version == version)) [
      | inl same ↦ ground arith
      | inr other ↦ Log-find four c.from_enabled m version cs rest (rw other at e)
    ]

-- `_apply_change` on the newest change.
apply-newest :
    (actor : Actor) (env : Env) (s : Flags) (c : FeatureFlagChange) (cs : List FeatureFlagChange)
    → s.changes ≡ c ∷ cs
    → c.status ≡ ChangeStatus.pending
    → ((apply_change actor c.version env s).0 ≡ returns (applied_change actor env.now c))
      × ((apply_change actor c.version env s).1.flag.affects_members ≡ s.flag.affects_members)
      × ((apply_change actor c.version env s).1.flag.is_enabled ≡ c.to_enabled)
      × ((apply_change actor c.version env s).1.flag.version ≡ c.version)
      × ((apply_change actor c.version env s).1.changes ≡ applied_change actor env.now c ∷ cs)
unfolding apply_change find_change save_change
apply-newest actor env s c cs h p = ground arith

-- Neither the flag nor its changes are written.
abbrev pub SameRows : Flags → Flags → Type 0
SameRows s s' = (s'.flag ≡ s.flag) × (s'.changes ≡ s.changes)

pub SameRows-IsValid : (s s' : Flags) → SameRows s s' → IsValid s → IsValid s'
SameRows-IsValid s s' (f, c) h = rw (f, c) h

-- The log with its newest proposal applied.
Log-applied :
    (actor : Actor) (now : ℕ) (flag : FeatureFlag) (c : FeatureFlagChange)
    (cs : List FeatureFlagChange)
    → c.version ≡ suc flag.version
    → c.from_enabled ≡ flag.is_enabled
    → Log flag.affects_members flag.is_enabled flag.version cs
    → key_of actor ≢ none
    → (flag.affects_members ≡ false) ⊎ (key_of actor ≢ some c.proposed_by)
    → Log flag.affects_members c.to_enabled c.version (applied_change actor now c ∷ cs)
Log-applied actor now flag c cs v from log some_actor other =
    ((refl, some_actor, other), refl, refl, (flag.version, v, rw from log))

apply_newest-IsValid :
    (actor : Actor) (env : Env) (s : Flags) (c : FeatureFlagChange) (cs : List FeatureFlagChange)
    → s.changes ≡ c ∷ cs
    → c.status ≡ ChangeStatus.pending
    → c.version ≡ suc s.flag.version
    → c.from_enabled ≡ s.flag.is_enabled
    → Log s.flag.affects_members s.flag.is_enabled s.flag.version cs
    → key_of actor ≢ none
    → (s.flag.affects_members ≡ false) ⊎ (key_of actor ≢ some c.proposed_by)
    → IsValid (apply_change actor c.version env s).1
apply_newest-IsValid actor env s c cs shape p v from log some_actor other =
    let (_, four, en, ver, ch) = apply-newest actor env s c cs shape p in
    rw (four, en, ver, ch) (inl (Log-applied actor env.now s.flag c cs v from log some_actor other))

pub apply_change-IsValid :
    (actor : Actor) (version : ℕ) (env : Env) (s : Flags) (row : FeatureFlagChange)
    → find? (has_version version) s.changes ≡ some row
    → is_pending row.status ≡ true
    → key_of actor ≢ none
    → key_of actor ≢ some row.proposed_by
    → IsValid s
    → IsValid (apply_change actor version env s).1
apply_change-IsValid actor version env s row e p some_actor other (inl log) =
    let impossible : true ≡ false =
      sym p
      ∙ Log-find s.flag.affects_members s.flag.is_enabled s.flag.version version s.changes log e in
    cc
apply_change-IsValid actor version env s row e p some_actor other (inr waits) =
    elim (List-cases s.changes) [
      | inl none_ ↦ absurd (rw none_ at waits)
      | inr (c, cs, shape) ↦ elim (Bool-cases (c.version == version)) [
        | inl same ↦
            let (_, p', v, from, log) : Waits s.flag (c ∷ cs) = rw shape at waits in
            let is_c : row ≡ c = ground arith in
            let at_c : version ≡ c.version = ground arith in
            rw at_c (
              apply_newest-IsValid actor env s c cs shape p' v from log some_actor
                (inr (rw is_c at other)))
        | inr older ↦
            let (_, _, _, _, log) : Waits s.flag (c ∷ cs) = rw shape at waits in
            let below : find? (has_version version) cs ≡ some row = rw older at (rw shape at e) in
            let impossible : true ≡ false =
              sym p
              ∙ Log-find s.flag.affects_members s.flag.is_enabled s.flag.version version cs log
                  below in
            cc
      ]
    ]

four_eyes-affects : (flag : FeatureFlag) → requires_four_eyes flag ≡ flag.affects_members
unfolding requires_four_eyes
four_eyes-affects flag = refl

kept-IsValid :
    (s : Flags) (r : Reply AdminError FeatureFlagChange × Flags)
    → IsValid s
    → IsValid r.1
    → IsValid (kept s r).1
kept-IsValid s (returns row, s') h k = k
kept-IsValid s (raises e, s') h k = h

abbrev pub proposed : User → Bool → Text → Env → Flags → Flags
proposed user is_enabled reason env s = record s {
  changes = new_change user is_enabled reason env.now s.flag ∷ s.changes;
}

record_change-direct :
    (user : User) (is_enabled : Bool) (reason : Text) (env : Env) (s : Flags)
    → any (has_version (suc s.flag.version)) s.changes ≡ false
    → requires_four_eyes s.flag ≡ false
    → record_change user is_enabled reason env s
      ≡ kept s (
          apply_change (some user) (suc s.flag.version) env (proposed user is_enabled reason env s))
unfolding record_change create_change
record_change-direct user is_enabled reason env s fresh direct = simp (fresh, direct)

record_change-four_eyes :
    (user : User) (is_enabled : Bool) (reason : Text) (env : Env) (s : Flags)
    → any (has_version (suc s.flag.version)) s.changes ≡ false
    → requires_four_eyes s.flag ≡ true
    → SameRows
        (proposed user is_enabled reason env s)
        (record_change user is_enabled reason env s).1
unfolding record_change create_change
record_change-four_eyes user is_enabled reason env s fresh four = rw (fresh, four) (refl, refl)

pub record_change-blocked :
    (user : User) (is_enabled : Bool) (reason : Text) (env : Env) (s : Flags)
    → Waits s.flag s.changes
    → record_change user is_enabled reason env s ≡ (raises AdminError.integrity_error, s)
unfolding record_change create_change
record_change-blocked user is_enabled reason env s waits = elim (List-cases s.changes) [
  | inl none_ ↦ absurd (rw none_ at waits)
  | inr (c, cs, shape) ↦
      let w : Waits s.flag (c ∷ cs) = rw shape at waits in
      let taken : any (has_version (suc s.flag.version)) s.changes ≡ true = ground arith in rw taken
]

pub record_change-IsValid :
    (user : User) (is_enabled : Bool) (reason : Text) (env : Env) (s : Flags)
    → IsValid s
    → IsValid (record_change user is_enabled reason env s).1
record_change-IsValid user is_enabled reason env s (inl log) =
    let fresh =
      Log-fresh s.flag.affects_members s.flag.is_enabled s.flag.version s.flag.version s.changes
        (omega arith) log in
    let s' = proposed user is_enabled reason env s in
    elim (Bool-cases (requires_four_eyes s.flag)) [
      | inl four ↦
          SameRows-IsValid s' (record_change user is_enabled reason env s).1
            (record_change-four_eyes user is_enabled reason env s fresh four)
            (inr (sym (four_eyes-affects s.flag) ∙ four, refl, refl, refl, log))
      | inr direct ↦ rw (record_change-direct user is_enabled reason env s fresh direct) (
          kept-IsValid s _ (inl log) (
            apply_newest-IsValid (some user) env s'
              (new_change user is_enabled reason env.now s.flag) s.changes refl refl refl refl log
              (λ e. cc) (inl (sym (four_eyes-affects s.flag) ∙ direct))))
    ]
record_change-IsValid user is_enabled reason env s (inr waits) =
    rw (record_change-blocked user is_enabled reason env s waits) (inr waits)
