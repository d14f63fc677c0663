-- ===== src/Administration/Grants/Roles.antt =====
-- Who holds Super Admin over histories of calls.
use dev_nepal.Prelude.{
  ℕ, suc, ◌≤◌, ◌≡◌, refl, ◌⊎◌, inl, inr, true, false, some, none, List, [], ◌∷◌, any, filter,
  length, find?, Text, ◌==◌, is_nil, strip, Bool-cases, Option-cases, arith,
}
use dev_nepal.Accounts.{User, Actor, is_super_admin, has_privileged_session}
use dev_nepal.Service.{returns, raises}
use dev_nepal.Administration.Access.{AdminError, Env, require_super_admin, require_reason}
use dev_nepal.Administration.Grants.{
  Account, SuperAdminGrant, Roster, is_active_admin, has_pk, get_account, get_grant,
  propose_super_admin_grant, set_superuser, save_first, confirm_locked, confirm_super_admin_grant,
  end_sessions, is_subject, revoke_locked, revoke_super_admin, grant_has_pk,
}

abbrev pub HasAdmin : Roster → Type 0
HasAdmin s = any is_active_admin s.accounts ≡ true

save_first-promotes :
    (pk : ℕ) (rows : List Account)
    → any is_active_admin rows ≡ true
    → any is_active_admin (save_first (has_pk pk) (set_superuser true) rows) ≡ true
unfolding save_first
save_first-promotes pk [] h = h
save_first-promotes pk (a ∷ rows) h = ground (arith, save_first-promotes pk rows)

save_first-demotes :
    (pk : ℕ) (rows : List Account)
    → length (filter is_active_admin rows)
      ≤ suc
          (length (filter is_active_admin (save_first (is_subject pk) (set_superuser false) rows)))
unfolding save_first
save_first-demotes pk [] = omega arith
save_first-demotes pk (a ∷ rows) = ground (arith, save_first-demotes pk rows)

any-filter :
    (rows : List Account)
    → 1 ≤ length (filter is_active_admin rows)
    → any is_active_admin rows ≡ true
any-filter [] h = absurd (omega arith)
any-filter (a ∷ rows) h = ground (arith, any-filter rows)

some_subject : (pk : ℕ) (rows : List Account) → any (has_pk pk) rows ≡ true → 1 ≤ length rows
some_subject pk [] h = cc
some_subject pk (a ∷ rows) h = omega arith

revoke-HasAdmin :
    (actor : User) (subject : ℕ) (reason : Text) (env : Env) (s : Roster)
    → HasAdmin s
    → HasAdmin (revoke_locked actor subject reason env s).1
unfolding revoke_locked end_sessions
revoke-HasAdmin actor subject reason env s h =
    elim (Bool-cases (any (has_pk subject) (filter is_active_admin s.accounts))) [
      | inr other ↦ rw other h
      | inl found ↦ elim (Bool-cases (length (filter is_active_admin s.accounts) == 1)) [
        | inl last ↦ rw (found, last) h
        | inr more ↦
            rw (found, more)
              (any-filter (save_first (is_subject subject) (set_superuser false) s.accounts) (
                ground (
                  arith,
                  some_subject subject (filter is_active_admin s.accounts) found,
                  save_first-demotes subject s.accounts,
                )))
      ]
    ]

pub get_grant-some :
    (pk : ℕ) (env : Env) (s : Roster) {row : SuperAdminGrant}
    → find? (grant_has_pk pk) s.grants ≡ some row
    → get_grant pk env s ≡ (returns row, s)
unfolding get_grant
get_grant-some pk env s e = rw (e, get_grant)

pub get_grant-none :
    (pk : ℕ) (env : Env) (s : Roster)
    → find? (grant_has_pk pk) s.grants ≡ none
    → get_grant pk env s ≡ (raises AdminError.does_not_exist, s)
unfolding get_grant
get_grant-none pk env s e = rw (e, get_grant)

pub get_account-some :
    (pk : ℕ) (env : Env) (s : Roster) {row : Account}
    → find? (has_pk pk) s.accounts ≡ some row
    → get_account pk env s ≡ (returns row, s)
unfolding get_account
get_account-some pk env s e = rw (e, get_account)

pub get_account-none :
    (pk : ℕ) (env : Env) (s : Roster)
    → find? (has_pk pk) s.accounts ≡ none
    → get_account pk env s ≡ (raises AdminError.does_not_exist, s)
unfolding get_account
get_account-none pk env s e = rw (e, get_account)

confirm-HasAdmin :
    (actor : Actor) (pk : ℕ) (env : Env) (s : Roster)
    → HasAdmin s
    → HasAdmin (confirm_locked actor pk env s).1
unfolding confirm_locked
confirm-HasAdmin actor pk env s h = elim (Option-cases (find? (grant_has_pk pk) s.grants)) [
  | inl e ↦ rw (get_grant-none pk env s e) h
  | inr (row, e) ↦
      rw (get_grant-some pk env s e) (elim (Option-cases (find? (has_pk row.subject) s.accounts)) [
        | inl e' ↦ ground (arith, get_account-none row.subject env s e')
        | inr (a, e') ↦ ground (
          arith,
          get_account-some row.subject env s e',
          save_first-promotes row.subject s.accounts h,
        )
      ])
]

nobody_is_no_super_admin : is_super_admin none ≡ false
unfolding is_super_admin
nobody_is_no_super_admin = refl

-- A call writes no account, or it is the transaction that follows its checks.
propose-accounts :
    (actor : Actor) (subject : ℕ) (reason : Text) (env : Env) (s : Roster)
    → (propose_super_admin_grant actor subject reason env s).1.accounts ≡ s.accounts
unfolding propose_super_admin_grant require_super_admin require_reason
propose-accounts actor subject reason env s =
    elim (Option-cases (find? (has_pk subject) s.accounts)) [
      | inl e ↦ ground (arith, get_account-none subject env s e)
      | inr (row, e) ↦ ground (arith, get_account-some subject env s e)
    ]

confirm-cases :
    (actor : Actor) (pk : ℕ) (env : Env) (s : Roster)
    → ((confirm_super_admin_grant actor pk env s).1.accounts ≡ s.accounts)
      ⊎ ((confirm_super_admin_grant actor pk env s).1 ≡ (confirm_locked actor pk env s).1)
unfolding confirm_super_admin_grant require_super_admin
confirm-cases actor pk env s = elim (Option-cases (find? (grant_has_pk pk) s.grants)) [
  | inl e ↦ inl (rw (get_grant-none pk env s e))
  | inr (row, e) ↦ rw (get_grant-some pk env s e) (ground arith)
]

revoke-cases :
    (actor : Actor) (subject : ℕ) (reason : Text) (env : Env) (s : Roster)
    → ((revoke_super_admin actor subject reason env s).1.accounts ≡ s.accounts)
      ⊎ ((user : User) × ((revoke_super_admin actor subject reason env s).1
            ≡ (revoke_locked user subject (strip reason) env s).1))
unfolding revoke_super_admin require_super_admin require_reason
revoke-cases none subject reason env s = inl (ground (arith, nobody_is_no_super_admin))
revoke-cases (some user) subject reason env s = elim (Bool-cases (is_nil (strip reason))) [
  | inl blank ↦ inl (ground arith)
  | inr given ↦ elim (Bool-cases (is_super_admin (some user))) [
    | inr outsider ↦ inl (ground arith)
    | inl admin ↦ elim (Bool-cases (has_privileged_session env.mfa_bypass (some user))) [
      | inr unverified ↦ inl (ground arith)
      | inl verified ↦ inr (user, ground arith)
    ]
  ]
]

pub data Act : Type 0 where
  propose : Actor → (subject : ℕ) → Text → Act
  confirm : Actor → (grant : ℕ) → Act
  revoke : Actor → (subject : ℕ) → Text → Act

-- The rows after a call, whatever it returned or raised.
unfoldable pub act : Act → Env → Roster → Roster
act (propose actor subject reason) env s = (propose_super_admin_grant actor subject reason env s).1
act (confirm actor pk) env s = (confirm_super_admin_grant actor pk env s).1
act (revoke actor subject reason) env s = (revoke_super_admin actor subject reason env s).1

unfoldable pub run : List (Env × Act) → Roster → Roster
run [] s = s
run ((env, c) ∷ cs) s = run cs (act c env s)

propose-HasAdmin :
    (actor : Actor) (subject : ℕ) (reason : Text) (env : Env) (s : Roster)
    → HasAdmin s
    → HasAdmin (propose_super_admin_grant actor subject reason env s).1
propose-HasAdmin actor subject reason env s h = rw (propose-accounts actor subject reason env s) h

confirm_call-HasAdmin :
    (actor : Actor) (pk : ℕ) (env : Env) (s : Roster)
    → HasAdmin s
    → HasAdmin (confirm_super_admin_grant actor pk env s).1
confirm_call-HasAdmin actor pk env s h = elim (confirm-cases actor pk env s) [
  | inl same ↦ rw same h
  | inr e ↦ rw e (confirm-HasAdmin actor pk env s h)
]

revoke_call-HasAdmin :
    (actor : Actor) (subject : ℕ) (reason : Text) (env : Env) (s : Roster)
    → HasAdmin s
    → HasAdmin (revoke_super_admin actor subject reason env s).1
revoke_call-HasAdmin actor subject reason env s h = elim (revoke-cases actor subject reason env s) [
  | inl same ↦ rw same h
  | inr (user, e) ↦ rw e (revoke-HasAdmin user subject (strip reason) env s h)
]

act-HasAdmin : (c : Act) (env : Env) (s : Roster) → HasAdmin s → HasAdmin (act c env s)
unfolding act
act-HasAdmin (propose actor subject reason) env s h = propose-HasAdmin actor subject reason env s h
act-HasAdmin (confirm actor pk) env s h = confirm_call-HasAdmin actor pk env s h
act-HasAdmin (revoke actor subject reason) env s h =
    revoke_call-HasAdmin actor subject reason env s h

-- As long as the role changes by proposals, confirmations and revocations only, in whatever order
-- and by whomever, a platform with an active Super Admin keeps at least one.
pub run-HasAdmin : (cs : List (Env × Act)) (s : Roster) → HasAdmin s → HasAdmin (run cs s)
unfolding run
run-HasAdmin [] s h = h
run-HasAdmin ((env, c) ∷ cs) s h = run-HasAdmin cs (act c env s) (act-HasAdmin c env s h)
