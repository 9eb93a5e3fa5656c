-- ===== src/Admin/Handlers/Endpoints.antt =====
-- The requests that change the directory, certificates, Cloudflare, the quarantine or the settings of the
-- mail server, each with the number in its path and its body, and the handler
-- that the router (`NewRouter` of internal/admin/handlers.go) gives each to.
pub mod Safety
use pro_identity_mail.Prelude.{ℕ, Bool, Option}
use pro_identity_mail.Text.{Text, codes}
use pro_identity_mail.Admin.Models.{TenantAdmin, DomainTlsSettings, MailServerSettings}
use pro_identity_mail.Admin.Calls.{Call}
use pro_identity_mail.Admin.Handlers.{Handler, Context}
use pro_identity_mail.Admin.Handlers.Tenancy.{TenantBody, PolicyBody}
use pro_identity_mail.Admin.Handlers.Tenancy
use pro_identity_mail.Admin.Handlers.Mailboxes.{DomainBody, UserBody}
use pro_identity_mail.Admin.Handlers.Mailboxes
use pro_identity_mail.Admin.Handlers.Routing.{AliasBody, RouteBody, PermissionBody}
use pro_identity_mail.Admin.Handlers.Routing
use pro_identity_mail.Admin.Handlers.Services.{JobBody, ConfigBody}
use pro_identity_mail.Admin.Handlers.Services

-- what the handlers use of other packages: the hash of a password (internal/security), the address
-- that `mail.ParseAddress` finds, and what `net.ParseIP` and `To4` say of a text
pub record Outside : Type 0 where
  pub hash_password : Text → Option Text
  pub parse_address : Text → Option Text
  pub is_ipv4 : Text → Bool
  pub is_ipv6 : Text → Bool

pub data Endpoint : Type 0 where
  create_tenant : Option TenantBody → Endpoint
  update_tenant : Option ℕ → Option TenantBody → Endpoint
  delete_tenant : Option ℕ → Endpoint
  create_tenant_admin : Option TenantAdmin → Endpoint
  delete_tenant_admin : Option ℕ → Endpoint
  update_tenant_policy : Option ℕ → Option PolicyBody → Endpoint
  clear_login_rate_limit : Option ℕ → Endpoint
  create_domain : Option DomainBody → Endpoint
  update_domain : Option ℕ → Option DomainBody → Endpoint
  delete_domain : Option ℕ → Endpoint
  create_user : Option UserBody → Endpoint
  update_user : Option ℕ → Option UserBody → Endpoint
  delete_user : Option ℕ → Endpoint
  unlock_user : Option ℕ → Endpoint
  reset_user_mfa : Option ℕ → Endpoint
  create_alias : Option AliasBody → Endpoint
  update_alias : Option ℕ → Option AliasBody → Endpoint
  delete_alias : Option ℕ → Endpoint
  create_catch_all_route : Option RouteBody → Endpoint
  update_catch_all_route : Option ℕ → Option RouteBody → Endpoint
  delete_catch_all_route : Option ℕ → Endpoint
  create_shared_mailbox_permission : Option PermissionBody → Endpoint
  update_shared_mailbox_permission : Option ℕ → Option PermissionBody → Endpoint
  delete_shared_mailbox_permission : Option ℕ → Endpoint
  update_domain_tls_settings : Option ℕ → Option DomainTlsSettings → Endpoint
  create_tls_certificate_job : Option ℕ → Option (Option JobBody) → Endpoint
  save_cloudflare_config : Option ℕ → Option ConfigBody → Endpoint
  apply_cloudflare_dns : Option ℕ → Option (Option Bool) → Endpoint
  release_quarantine_event : Option ℕ → Option (Option Text) → Endpoint
  delete_quarantine_event : Option ℕ → Option (Option Text) → Endpoint
  update_mail_server_settings : Option MailServerSettings → Endpoint

-- `hash` is the session manager's
unfoldable pub plan : (Text → Text) → Outside → Context → Endpoint → Handler Call
plan hash outside c (Endpoint.create_tenant body) = Tenancy.create_tenant c body
plan hash outside c (Endpoint.update_tenant path body) = Tenancy.update_tenant hash c path body
plan hash outside c (Endpoint.delete_tenant path) = Tenancy.delete_tenant c path
plan hash outside c (Endpoint.create_tenant_admin body) = Tenancy.create_tenant_admin c body
plan hash outside c (Endpoint.delete_tenant_admin path) = Tenancy.delete_tenant_admin c path
plan hash outside c (Endpoint.update_tenant_policy path body) =
    Tenancy.update_tenant_policy c path body
plan hash outside c (Endpoint.clear_login_rate_limit path) =
    Tenancy.clear_login_rate_limit hash c path
plan hash outside c (Endpoint.create_domain body) = Mailboxes.create_domain c body
plan hash outside c (Endpoint.update_domain path body) = Mailboxes.update_domain c path body
plan hash outside c (Endpoint.delete_domain path) = Mailboxes.delete_domain hash c path
plan hash outside c (Endpoint.create_user body) = Mailboxes.create_user outside.hash_password c body
plan hash outside c (Endpoint.update_user path body) =
    Mailboxes.update_user outside.hash_password c path body
plan hash outside c (Endpoint.delete_user path) = Mailboxes.delete_user hash c path
plan hash outside c (Endpoint.unlock_user path) = Mailboxes.unlock_user hash c path
plan hash outside c (Endpoint.reset_user_mfa path) = Mailboxes.reset_user_mfa hash c path
plan hash outside c (Endpoint.create_alias body) = Routing.create_alias outside.parse_address c body
plan hash outside c (Endpoint.update_alias path body) =
    Routing.update_alias outside.parse_address c path body
plan hash outside c (Endpoint.delete_alias path) = Routing.delete_alias c path
plan hash outside c (Endpoint.create_catch_all_route body) =
    Routing.create_catch_all_route outside.parse_address c body
plan hash outside c (Endpoint.update_catch_all_route path body) =
    Routing.update_catch_all_route outside.parse_address c path body
plan hash outside c (Endpoint.delete_catch_all_route path) = Routing.delete_catch_all_route c path
plan hash outside c (Endpoint.create_shared_mailbox_permission body) =
    Routing.create_shared_mailbox_permission c body
plan hash outside c (Endpoint.update_shared_mailbox_permission path body) =
    Routing.update_shared_mailbox_permission c path body
plan hash outside c (Endpoint.delete_shared_mailbox_permission path) =
    Routing.delete_shared_mailbox_permission c path
plan hash outside c (Endpoint.update_domain_tls_settings path body) =
    Services.update_domain_tls_settings hash c path body
plan hash outside c (Endpoint.create_tls_certificate_job path body) =
    Services.create_tls_certificate_job hash c path body
plan hash outside c (Endpoint.save_cloudflare_config path body) =
    Services.save_cloudflare_config hash c path body
plan hash outside c (Endpoint.apply_cloudflare_dns path body) =
    Services.apply_cloudflare_dns hash c path body
plan hash outside c (Endpoint.release_quarantine_event path body) =
    Services.resolve_quarantine_event (codes "released") c path body
plan hash outside c (Endpoint.delete_quarantine_event path body) =
    Services.resolve_quarantine_event (codes "deleted") c path body
plan hash outside c (Endpoint.update_mail_server_settings body) =
    Services.update_mail_server_settings hash outside.is_ipv4 outside.is_ipv6 c body
