-- ===== src/Admin/Handlers/Lists.antt =====
-- The lists that an administrator reads, from what the store answers: `none` is an error.
pub mod Readable
use pro_identity_mail.Prelude.{ℕ, List, Bool, true, false, Option, none, some, if◌then◌else◌, keep}
use pro_identity_mail.Admin.Models.{
  Tenant, Domain, User, TenantAdmin, Alias, CatchAllRoute, SharedMailboxPermission, TenantPolicy,
}
use pro_identity_mail.Admin.Access.{
  AdminPrincipal, can_read_tenant, filter_tenants_for_principal, filter_domains_for_principal,
  filter_users_for_principal, require_super_admin,
}
use pro_identity_mail.Admin.Handlers.{
  Handler, Context, ◌>>=◌, ◌>>◌, pure, some_or, permit, have_store,
}

unfoldable pub readable : {A : Type 0} → (A → ℕ) → AdminPrincipal → List A → List A
readable tenant_of p items =
    if p.is_super then items else keep (λ a. can_read_tenant p (tenant_of a)) items

unfoldable pub list_tenants : Context → Option (List Tenant) → Handler (List Tenant)
list_tenants c stored = do
  have_store c
  items ← some_or 500 stored
  pure (filter_tenants_for_principal items c.principal)

unfoldable pub list_domains : Context → Handler (List Domain)
list_domains c = do
  have_store c
  items ← some_or 500 c.domains
  pure (filter_domains_for_principal items c.principal)

unfoldable pub list_users : Context → Handler (List User)
list_users c = do
  have_store c
  items ← some_or 500 c.users
  pure (filter_users_for_principal items c.principal)

unfoldable pub list_tenant_admins : Context → Option (List TenantAdmin) → Handler (List TenantAdmin)
list_tenant_admins c stored = do
  have_store c
  permit (require_super_admin c.principal)
  some_or 500 stored

unfoldable pub list_aliases : Context → Option (List Alias) → Handler (List Alias)
list_aliases c stored = do
  have_store c
  items ← some_or 500 stored
  pure (readable (λ a. a.tenant_id) c.principal items)

unfoldable pub list_catch_all_routes :
    Context → Option (List CatchAllRoute) → Handler (List CatchAllRoute)
list_catch_all_routes c stored = do
  have_store c
  items ← some_or 500 stored
  pure (readable (λ a. a.tenant_id) c.principal items)

unfoldable pub list_shared_mailbox_permissions :
    Context → Option (List SharedMailboxPermission) → Handler (List SharedMailboxPermission)
list_shared_mailbox_permissions c stored = do
  have_store c
  items ← some_or 500 stored
  pure (readable (λ a. a.tenant_id) c.principal items)

unfoldable pub list_tenant_policies :
    Context → Option (List TenantPolicy) → Handler (List TenantPolicy)
list_tenant_policies c stored = do
  have_store c
  items ← some_or 500 stored
  pure (readable (λ a. a.tenant_id) c.principal items)
