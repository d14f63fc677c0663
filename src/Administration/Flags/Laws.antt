-- ===== src/Administration/Flags/Laws.antt =====
-- Histories of calls on a flag.
use dev_nepal.Prelude.{
  ℕ, ◌≡◌, refl, sym, ◌∙◌, ◌⊎◌, inl, inr, ◌≢◌, Bool, true, false, some, none, List, [], ◌∷◌, find?,
  Text, same_id, is_nil, strip, Bool-cases, Option-cases, arith,
}
use dev_nepal.Accounts.{User, Actor, is_super_admin, has_privileged_session}
use dev_nepal.Service.{raises, key_of}
use dev_nepal.Administration.Access.{
  AdminError, is_pending, Env, require_super_admin, require_reason,
}
use dev_nepal.Administration.Flags.{
  FeatureFlagChange, Flags, has_version, find_change, apply_change, record_change,
  request_feature_flag_change, approve_feature_flag_change, set_feature_flag, default_reason,
}
use dev_nepal.Administration.Flags.Log.{
  IsValid, SameRows, SameRows-IsValid, Waits, apply_change-IsValid, record_change-IsValid,
  record_change-blocked,
}

nobody_is_no_super_admin : is_super_admin none ≡ false
unfolding is_super_admin
nobody_is_no_super_admin = refl

approve-cases :
    (actor : Actor) (version : ℕ) (env : Env) (s : Flags)
    → SameRows s (approve_feature_flag_change actor version env s).1
      ⊎ ((row : FeatureFlagChange) × (find? (has_version version) s.changes ≡ some row)
          × (is_pending row.status ≡ true)
          × (key_of actor ≢ none)
          × (key_of actor ≢ some row.proposed_by)
          × (approve_feature_flag_change actor version env s ≡ apply_change actor version env s))
unfolding approve_feature_flag_change require_super_admin find_change
approve-cases none version env s = elim (Option-cases (find? (has_version version) s.changes)) [
  | inl e ↦ rw e (inl (ground arith))
  | inr (row, e) ↦ rw e (inl (ground (arith, nobody_is_no_super_admin)))
]
approve-cases (some user) version env s =
    elim (Option-cases (find? (has_version version) s.changes)) [
      | inl e ↦ rw e (inl (ground arith))
      | inr (row, e) ↦ elim (Bool-cases (is_pending row.status)) [
        | inr settled ↦ rw e (inl (ground arith))
        | inl pending ↦ elim (Bool-cases (same_id (some row.proposed_by) (some user.pk))) [
          | inl self ↦ rw e (inl (ground arith))
          | inr other ↦ elim (Bool-cases (is_super_admin (some user))) [
            | inr outsider ↦ rw e (inl (ground arith))
            | inl admin ↦ elim (Bool-cases (has_privileged_session env.mfa_bypass (some user))) [
              | inr unverified ↦ rw e (inl (ground arith))
              | inl verified ↦ inr (row, e, pending, λ h. cc, ground arith, ground arith)
            ]
          ]
        ]
      ]
    ]

request-cases :
    (actor : Actor) (is_enabled : Bool) (reason : Text) (env : Env) (s : Flags)
    → SameRows s (request_feature_flag_change actor is_enabled reason env s).1
      ⊎ ((user : User) × (cleaned : Text) × (request_feature_flag_change actor is_enabled reason env
              s
            ≡ record_change user is_enabled cleaned env s))
unfolding request_feature_flag_change require_super_admin require_reason
request-cases none is_enabled reason env s = inl (ground (arith, nobody_is_no_super_admin))
request-cases (some user) is_enabled reason env s = elim (Bool-cases (is_super_admin (some user))) [
  | inr outsider ↦ inl (ground arith)
  | inl admin ↦ elim (Bool-cases (has_privileged_session env.mfa_bypass (some user))) [
    | inr unverified ↦ inl (ground arith)
    | inl verified ↦ elim (Bool-cases (is_nil (strip reason))) [
      | inl blank ↦ inl (ground arith)
      | inr given ↦ inr (user, strip reason, ground arith)
    ]
  ]
]

pub data Act : Type 0 where
  request : Actor → Bool → Text → Act
  approve : Actor → (version : ℕ) → Act
  set : Actor → Bool → Text → Act

-- The rows after a call, whatever it returned or raised.
unfoldable pub act : Act → Env → Flags → Flags
act (request actor is_enabled reason) env s =
    (request_feature_flag_change actor is_enabled reason env s).1
act (approve actor version) env s = (approve_feature_flag_change actor version env s).1
act (set actor is_enabled reason) env s = (set_feature_flag actor is_enabled reason env s).1

unfoldable pub run : List (Env × Act) → Flags → Flags
run [] s = s
run ((env, c) ∷ cs) s = run cs (act c env s)

request-IsValid :
    (actor : Actor) (is_enabled : Bool) (reason : Text) (env : Env) (s : Flags)
    → IsValid s
    → IsValid (request_feature_flag_change actor is_enabled reason env s).1
request-IsValid actor is_enabled reason env s h =
    elim (request-cases actor is_enabled reason env s) [
      | inl same ↦
          SameRows-IsValid s (request_feature_flag_change actor is_enabled reason env s).1 same h
      | inr (user, cleaned, e) ↦ rw e (record_change-IsValid user is_enabled cleaned env s h)
    ]

approve-IsValid :
    (actor : Actor) (version : ℕ) (env : Env) (s : Flags)
    → IsValid s
    → IsValid (approve_feature_flag_change actor version env s).1
approve-IsValid actor version env s h = elim (approve-cases actor version env s) [
  | inl same ↦ SameRows-IsValid s (approve_feature_flag_change actor version env s).1 same h
  | inr (row, found, pending, some_actor, other, e) ↦
      rw e (apply_change-IsValid actor version env s row found pending some_actor other h)
]

set-cases :
    (actor : Actor) (is_enabled : Bool) (reason : Text) (env : Env) (s : Flags)
    → ((set_feature_flag actor is_enabled reason env s).1 ≡ s)
      ⊎ ((set_feature_flag actor is_enabled reason env s).1
          ≡ (request_feature_flag_change actor is_enabled (default_reason reason) env s).1)
unfolding set_feature_flag
set-cases actor is_enabled reason env s = ground arith

set-IsValid :
    (actor : Actor) (is_enabled : Bool) (reason : Text) (env : Env) (s : Flags)
    → IsValid s
    → IsValid (set_feature_flag actor is_enabled reason env s).1
set-IsValid actor is_enabled reason env s h = elim (set-cases actor is_enabled reason env s) [
  | inl same ↦ rw same h
  | inr e ↦ rw e (request-IsValid actor is_enabled (default_reason reason) env s h)
]

act-IsValid : (c : Act) (env : Env) (s : Flags) → IsValid s → IsValid (act c env s)
unfolding act
act-IsValid (request actor is_enabled reason) env s h =
    request-IsValid actor is_enabled reason env s h
act-IsValid (approve actor version) env s h = approve-IsValid actor version env s h
act-IsValid (set actor is_enabled reason) env s h = set-IsValid actor is_enabled reason env s h

-- Whatever is proposed, approved and set, by whomever, the log of a flag that starts consistent
-- stays so: the applied changes are numbered without a gap up to the flag's version, each from the
-- value that the one before it set, the last to the flag's value; on a flag that members see, each
-- was applied by another than its proposer, and at most one more change waits, for the next number.
pub run-IsValid : (cs : List (Env × Act)) (s : Flags) → IsValid s → IsValid (run cs s)
unfolding run
run-IsValid [] s h = h
run-IsValid ((env, c) ∷ cs) s h = run-IsValid cs (act c env s) (act-IsValid c env s h)

request-passes :
    (actor : Actor) (is_enabled : Bool) (reason : Text) (env : Env) (s : Flags)
    → is_super_admin actor ≡ true
    → has_privileged_session env.mfa_bypass actor ≡ true
    → is_nil (strip reason) ≡ false
    → (user : User) × (request_feature_flag_change actor is_enabled reason env s
        ≡ record_change user is_enabled (strip reason) env s)
unfolding request_feature_flag_change require_super_admin require_reason
request-passes none is_enabled reason env s admin verified given =
    let impossible : true ≡ false = sym admin ∙ nobody_is_no_super_admin in cc
request-passes (some user) is_enabled reason env s admin verified given = (user, ground arith)

-- While a change waits, a Super Admin in a verified session who proposes another one with a reason
-- meets the unique constraint on the version, whatever is proposed, and nothing is written.
pub waiting_change_blocks :
    (actor : Actor) (is_enabled : Bool) (reason : Text) (env : Env) (s : Flags)
    → Waits s.flag s.changes
    → is_super_admin actor ≡ true
    → has_privileged_session env.mfa_bypass actor ≡ true
    → is_nil (strip reason) ≡ false
    → request_feature_flag_change actor is_enabled reason env s
      ≡ (raises AdminError.integrity_error, s)
waiting_change_blocks actor is_enabled reason env s waits admin verified given =
    let (user, e) = request-passes actor is_enabled reason env s admin verified given in
    e ∙ record_change-blocked user is_enabled (strip reason) env s waits
