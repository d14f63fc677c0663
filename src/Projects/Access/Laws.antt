-- ===== src/Projects/Access/Laws.antt =====
-- What the guards of apps/projects/services.py do: they pass and change nothing, or they leave one
-- denial in the audit trail and raise.
use dev_nepal.Prelude.{◌≡◌, ◌⊎◌, ◌↔◌, true, false, arith}
use dev_nepal.Accounts.{Actor, is_super_admin, is_publisher_active, has_privileged_session}
use dev_nepal.Projects.Enums.{government, personal}
use dev_nepal.Projects.Monad.{
  Store, Env, Action, Operation, authorization, ok, err, denial, require_privileged_mfa,
}
use dev_nepal.Projects.Access.{
  is_owner, require_super_admin, require_publisher, require_owner_or_super_admin,
}

-- A guard's outcome.
abbrev pub Guards : Actor → Operation → Env → Store → Action (Unit {0}) → Type 0
Guards actor op env s m =
    (m env s ≡ (ok tt, s)) ⊎ (m env s ≡ (err (authorization op), denial actor op env s))

require_privileged_mfa-Guards :
    (actor : Actor) (op : Operation) (env : Env) (s : Store)
    → Guards actor op env s (require_privileged_mfa actor op)
unfolding require_privileged_mfa
require_privileged_mfa-Guards actor op env s = ground arith

pub require_super_admin-Guards :
    (actor : Actor) (op : Operation) (env : Env) (s : Store)
    → Guards actor op env s (require_super_admin actor op)
unfolding require_super_admin
require_super_admin-Guards actor op env s = ground arith

pub require_publisher-Guards :
    (actor : Actor) (op : Operation) (env : Env) (s : Store)
    → Guards actor op env s (require_publisher actor op)
unfolding require_publisher
require_publisher-Guards actor op env s = ground arith

pub require_owner_or_super_admin-Guards :
    (actor : Actor) (op : Operation) (env : Env) (s : Store)
    → Guards actor op env s (require_owner_or_super_admin actor op)
unfolding require_owner_or_super_admin
require_owner_or_super_admin-Guards actor op env s = ground arith

-- A Super Admin in a verified session passes.
pub require_super_admin-pass :
    (actor : Actor) (op : Operation) (env : Env) (s : Store)
    → is_super_admin actor ≡ true
    → has_privileged_session env.mfa_bypass actor ≡ true
    → require_super_admin actor op env s ≡ (ok tt, s)
unfolding require_super_admin require_privileged_mfa
require_super_admin-pass actor op env s h k = rw (h, k)

pub require_owner_or_super_admin-pass :
    (actor : Actor) (op : Operation) (env : Env) (s : Store)
    → is_super_admin actor ≡ true
    → has_privileged_session env.mfa_bypass actor ≡ true
    → require_owner_or_super_admin actor op env s ≡ (ok tt, s)
unfolding require_owner_or_super_admin require_privileged_mfa
require_owner_or_super_admin-pass actor op env s h k = rw (h, k)

-- Who may act for a project: the owner of a personal one, and for a government one a Super Admin or
-- an active publisher of its ministry, in a verified session.
abbrev pub MayPublish : Actor → Env → Store → Type 0
MayPublish actor env s =
    (s.project.project_type ≡ personal) × (is_owner actor s.project ≡ true)
    ⊎ ((s.project.project_type ≡ government)
        × ((is_super_admin actor ≡ true)
            ⊎ (is_publisher_active s.publishers actor s.project.ministry ≡ true))
        × (has_privileged_session env.mfa_bypass actor ≡ true))

-- `_require_publisher` passes exactly those who may act for the project.
pub require_publisher_iff :
    (actor : Actor) (op : Operation) (env : Env) (s : Store)
    → (require_publisher actor op env s ≡ (ok tt, s)) ↔ MayPublish actor env s
unfolding require_publisher
require_publisher_iff actor op env s = (λ h. ground arith, λ h. ground arith)

-- `_require_owner_or_super_admin` passes exactly a Super Admin in a verified session, on a personal
-- project too, and of the others those who may act for the project.
pub require_owner_or_super_admin_iff :
    (actor : Actor) (op : Operation) (env : Env) (s : Store)
    → (require_owner_or_super_admin actor op env s ≡ (ok tt, s)) ↔ (
        (is_super_admin actor ≡ true) × (has_privileged_session env.mfa_bypass actor ≡ true)
        ⊎ ((is_super_admin actor ≡ false) × MayPublish actor env s))
unfolding require_owner_or_super_admin
require_owner_or_super_admin_iff actor op env s = (λ h. ground arith, λ h. ground arith)
