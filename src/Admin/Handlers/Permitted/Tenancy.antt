-- ===== src/Admin/Handlers/Permitted/Tenancy.antt =====
-- The endpoints of tenants and their administrators.
use pro_identity_mail.Prelude.{ℕ, Option}
use pro_identity_mail.Text.{Text}
use pro_identity_mail.Session.Manager.{Manager}
use pro_identity_mail.Admin.Models.{TenantAdmin}
use pro_identity_mail.Admin.Handlers.{Context}
use pro_identity_mail.Admin.Handlers.Tenancy.{
  PolicyBody, TenantBody, create_tenant, delete_tenant, create_tenant_admin, delete_tenant_admin,
  update_tenant_policy, update_tenant, clear_login_rate_limit,
}
use pro_identity_mail.Admin.Handlers.Ensures.{Ensures}
use pro_identity_mail.Admin.Handlers.Permitted.{Permitted, steps}

module _ (hash : Text → Text) (s : Option Manager) (c : Context) where
  pub create_tenant-Permitted :
      (body : Option TenantBody) → Ensures s (Permitted hash s c) (create_tenant c body)
  unfolding create_tenant Permitted
  create_tenant-Permitted body = search steps depth 16

  pub delete_tenant-Permitted :
      (path : Option ℕ) → Ensures s (Permitted hash s c) (delete_tenant c path)
  unfolding delete_tenant Permitted
  delete_tenant-Permitted path = search steps depth 16

  pub create_tenant_admin-Permitted :
      (body : Option TenantAdmin) → Ensures s (Permitted hash s c) (create_tenant_admin c body)
  unfolding create_tenant_admin Permitted
  create_tenant_admin-Permitted body = search steps depth 16

  pub delete_tenant_admin-Permitted :
      (path : Option ℕ) → Ensures s (Permitted hash s c) (delete_tenant_admin c path)
  unfolding delete_tenant_admin Permitted
  delete_tenant_admin-Permitted path = search steps depth 16

  pub update_tenant_policy-Permitted :
      (path : Option ℕ) (body : Option PolicyBody)
      → Ensures s (Permitted hash s c) (update_tenant_policy c path body)
  unfolding update_tenant_policy Permitted
  update_tenant_policy-Permitted path body = search steps depth 16

  pub update_tenant-Permitted :
      (path : Option ℕ) (body : Option TenantBody)
      → Ensures s (Permitted hash s c) (update_tenant hash c path body)
  unfolding update_tenant Permitted
  update_tenant-Permitted path body = search steps depth 16

  pub clear_login_rate_limit-Permitted :
      (path : Option ℕ) → Ensures s (Permitted hash s c) (clear_login_rate_limit hash c path)
  unfolding clear_login_rate_limit Permitted
  clear_login_rate_limit-Permitted path = search steps depth 16
