-- ===== src/Admin/Calls.antt =====
-- The changes that a handler asks of the store: the methods of `Store` (internal/admin/handlers.go)
-- that change something, with their arguments.
use pro_identity_mail.Prelude.{ℕ, Bool}
use pro_identity_mail.Text.{Text}
use pro_identity_mail.Admin.Models.{
  Tenant, Domain, User, TenantAdmin, Alias, CatchAllRoute, SharedMailboxPermission, TenantPolicy,
  DomainTlsSettings, TlsCertificateJob, MailServerSettings,
}

pub data Call : Type 0 where
  create_tenant update_tenant : Tenant → Call
  create_domain update_domain : Domain → Call
  create_user update_user : User → Call
  create_tenant_admin : TenantAdmin → Call
  create_alias update_alias : Alias → Call
  create_catch_all_route update_catch_all_route : CatchAllRoute → Call
  create_shared_mailbox_permission update_shared_mailbox_permission : SharedMailboxPermission → Call
  update_tenant_policy : TenantPolicy → Call
  update_domain_tls_settings : DomainTlsSettings → Call
  create_tls_certificate_job : TlsCertificateJob → Call
  update_mail_server_settings : MailServerSettings → Call
  save_cloudflare_config : ℕ → Text → Text → Call
  apply_cloudflare_dns : ℕ → Bool → Call
  resolve_quarantine_event : ℕ → Text → Text → Call
  delete_tenant delete_domain delete_user unlock_user reset_user_mfa : ℕ → Call
  delete_tenant_admin clear_login_rate_limit : ℕ → Call
  delete_alias delete_catch_all_route delete_shared_mailbox_permission : ℕ → Call
