-- ===== src/Projects/Access.antt =====
-- Who may act on a project: the guards of apps/projects/services.py.
pub mod Laws
use dev_nepal.Prelude.{
  ℕ, Bool, true, false, ◌&&◌, Option, none, some, List, [], ◌∷◌, ◌==◌, if◌then◌else◌,
}
use dev_nepal.Accounts.{User, Actor, is_super_admin, is_publisher_active, has_privileged_session}
use dev_nepal.Projects.Enums.{is_personal}
use dev_nepal.Projects.Data.{Project}
use dev_nepal.Projects.Monad.{
  Store, Env, Action, Operation, Result, ok, deny, require_privileged_mfa, ◌>>=◌, ◌>>◌,
}

unfoldable pub is_owner : Actor → Project → Bool
is_owner none project = false
is_owner (some user) project = user.is_active && project.owner.pk == user.pk

unfoldable pub require_super_admin : Actor → Operation → Action (Unit {0})
unfolding is_super_admin require_privileged_mfa
require_super_admin actor op env s =
    if is_super_admin actor then require_privileged_mfa actor op env s else deny actor op env s

unfoldable pub require_publisher : Actor → Operation → Action (Unit {0})
unfolding is_owner is_super_admin is_publisher_active require_privileged_mfa
require_publisher actor op env s =
    if is_personal s.project.project_type
    then (if is_owner actor s.project then (ok tt, s) else deny actor op env s)
    else if is_super_admin actor
    then require_privileged_mfa actor op env s
    else if is_publisher_active s.publishers actor s.project.ministry
    then require_privileged_mfa actor op env s
    else deny actor op env s

unfoldable pub require_owner_or_super_admin : Actor → Operation → Action (Unit {0})
unfolding is_super_admin require_publisher
require_owner_or_super_admin actor op env s =
    if is_super_admin actor
    then require_privileged_mfa actor op env s
    else require_publisher actor op env s
