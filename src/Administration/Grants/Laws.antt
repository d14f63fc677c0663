-- ===== src/Administration/Grants/Laws.antt =====
-- Confirmations of a grant of Super Admin.
use dev_nepal.Prelude.{
  ℕ, ◌<◌, ◌≡◌, ap, ◌∙◌, inl, inr, ◌≢◌, true, false, some, find?, Option-cases, arith,
}
use dev_nepal.Accounts.{Actor, is_super_admin, has_privileged_session}
use dev_nepal.Service.{returns, key_of}
use dev_nepal.Administration.Access.{ChangeStatus, Env, require_super_admin}
use dev_nepal.Administration.Grants.{
  SuperAdminGrant, Roster, has_pk, save_grant, set_superuser, save_first, confirmed, confirm_locked,
  confirm_super_admin_grant, grant_has_pk,
}
use dev_nepal.Administration.Grants.Roles.{
  get_account-none, get_account-some, get_grant-none, get_grant-some,
}

-- What the transaction has done when it tells that the grant has not expired.
confirm_locked-promotes :
    (actor : Actor) (pk : ℕ) (env : Env) (s : Roster) (row : SuperAdminGrant)
    → find? (grant_has_pk pk) s.grants ≡ some row
    → (confirm_locked actor pk env s).0 ≡ returns false
    → (row.status ≡ ChangeStatus.pending)
      × (env.now < row.expires_at)
      × ((confirm_locked actor pk env s).1.accounts
          ≡ save_first (has_pk row.subject) (set_superuser true) s.accounts)
      × ((confirm_locked actor pk env s).1.grants
          ≡ save_grant (confirmed actor env.now row) s.grants)
unfolding confirm_locked
confirm_locked-promotes actor pk env s row e =
    rw (get_grant-some pk env s e) (elim (Option-cases (find? (has_pk row.subject) s.accounts)) [
      | inl e' ↦ ground (arith, get_account-none row.subject env s e')
      | inr (a, e') ↦ ground (arith, get_account-some row.subject env s e')
    ])

confirm-passes :
    (actor : Actor) (pk : ℕ) (env : Env) (s : Roster) (row : SuperAdminGrant)
    → find? (grant_has_pk pk) s.grants ≡ some row
    → (confirm_super_admin_grant actor pk env s).0 ≡ returns tt
    → (is_super_admin actor ≡ true)
      × (has_privileged_session env.mfa_bypass actor ≡ true)
      × (key_of actor ≢ some row.proposed_by)
      × ((confirm_locked actor pk env s).0 ≡ returns false)
      × ((confirm_super_admin_grant actor pk env s).1 ≡ (confirm_locked actor pk env s).1)
unfolding confirm_super_admin_grant require_super_admin
confirm-passes actor pk env s row e = rw (get_grant-some pk env s e) (ground arith)

-- A confirmation that returns was made by a Super Admin in a verified session, other than the
-- proposer, of a grant that was pending and inside its window; it writes the role of the grant's
-- subject and the grant as confirmed, and no other account or grant.
pub confirm_super_admin_grant_requires :
    (actor : Actor) (pk : ℕ) (env : Env) (s : Roster)
    → (confirm_super_admin_grant actor pk env s).0 ≡ returns tt
    → let s' = (confirm_super_admin_grant actor pk env s).1 in
      (is_super_admin actor ≡ true)
      × (has_privileged_session env.mfa_bypass actor ≡ true)
      × ((row : SuperAdminGrant) × (find? (grant_has_pk pk) s.grants ≡ some row)
          × (row.status ≡ ChangeStatus.pending)
          × (env.now < row.expires_at)
          × (key_of actor ≢ some row.proposed_by)
          × (s'.accounts ≡ save_first (has_pk row.subject) (set_superuser true) s.accounts)
          × (s'.grants ≡ save_grant (confirmed actor env.now row) s.grants))
unfolding confirm_super_admin_grant
confirm_super_admin_grant_requires actor pk env s h =
    elim (Option-cases (find? (grant_has_pk pk) s.grants)) [
      | inl e ↦ absurd (ground (arith, rw (get_grant-none pk env s e) at h))
      | inr (row, e) ↦
          let (admin, verified, other, done, same) = confirm-passes actor pk env s row e h in
          let (pending, inside, accounts, grants) =
            confirm_locked-promotes actor pk env s row e done in
          (
            admin,
            verified,
            (
              row,
              e,
              pending,
              inside,
              other,
              ap (λ r. r.accounts) same ∙ accounts,
              ap (λ r. r.grants) same ∙ grants,
            ),
          )
    ]
