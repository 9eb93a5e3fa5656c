-- ===== src/Admin/SqlStore/WellFormed.antt =====
-- The numbers of every table are distinct, and new ones are new.
pub mod Accounts
pub mod Routes
pub mod Calls
use pro_identity_mail.Prelude.{
  ℕ, ◌≡◌, refl, List, [], ◌∷◌, Bool, true, false, ◌&&◌, ◌||◌, not, ◌==◌, if◌then◌else◌, subst, sym,
  Bool-cases, inl, inr,
}
use pro_identity_mail.Text.{Text, codes, is_empty, trim_space}
use pro_identity_mail.Admin.Models.{
  Tenant, Domain, User, TenantAdmin, Alias, CatchAllRoute, SharedMailboxPermission, TenantPolicy,
}
use pro_identity_mail.Admin.Access.{normalize_tenant_admin_role}
use pro_identity_mail.Admin.Calls.{Call}
use pro_identity_mail.Admin.Rows.{
  Table, IsCounted, insert_row-IsCounted, update_where-IsCounted, delete_where,
  delete_where-IsCounted, upsert-IsCounted,
}
use pro_identity_mail.Admin.SqlStore.{
  Database, Statement, change, read_back, insert_policy, LimitRow, Result, done, missing, failed,
  other_error, Stored, lower_trim, exec_one, scan, new_user, changed_user, limit_of_email,
  email_for_user, normalize_tenant_admin_status,
}
use pro_identity_mail.Admin.SqlStore.Keeps.{exec_one-keeps, scan-keeps, either}
use pro_identity_mail.Admin.SqlStore.Changes.{
  create_tenant, update_tenant, delete_tenant, create_domain, update_domain, delete_domain,
  create_user, update_user, delete_user, unlock_user, reset_user_mfa, create_tenant_admin,
  delete_tenant_admin, clear_login_rate_limit, create_alias, update_alias, delete_alias,
  create_catch_all_route, update_catch_all_route, delete_catch_all_route,
  create_shared_mailbox_permission, update_shared_mailbox_permission,
  delete_shared_mailbox_permission, update_tenant_policy, exec,
}

abbrev pub TenantsCounted : Database → Type 0
TenantsCounted db = IsCounted {A = Tenant} (λ r. r.id) db.tenants

abbrev pub DomainsCounted : Database → Type 0
DomainsCounted db = IsCounted {A = Domain} (λ r. r.id) db.domains

abbrev pub UsersCounted : Database → Type 0
UsersCounted db = IsCounted {A = User} (λ r. r.id) db.users

abbrev pub TenantAdminsCounted : Database → Type 0
TenantAdminsCounted db = IsCounted {A = TenantAdmin} (λ r. r.id) db.tenant_admins

abbrev pub AliasesCounted : Database → Type 0
AliasesCounted db = IsCounted {A = Alias} (λ r. r.id) db.aliases

abbrev pub CatchAllRoutesCounted : Database → Type 0
CatchAllRoutesCounted db = IsCounted {A = CatchAllRoute} (λ r. r.id) db.catch_all_routes

abbrev pub SharedMailboxPermissionsCounted : Database → Type 0
SharedMailboxPermissionsCounted db =
    IsCounted {A = SharedMailboxPermission} (λ r. r.id) db.shared_mailbox_permissions

abbrev pub LoginRateLimitsCounted : Database → Type 0
LoginRateLimitsCounted db = IsCounted {A = LimitRow} (λ r. r.id) db.login_rate_limits

unfoldable pub IsWellFormed : Database → Type 0
IsWellFormed db =
    TenantsCounted db
    × DomainsCounted db
    × UsersCounted db
    × TenantAdminsCounted db
    × AliasesCounted db
    × CatchAllRoutesCounted db
    × SharedMailboxPermissionsCounted db
    × LoginRateLimitsCounted db
