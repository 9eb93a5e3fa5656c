-- ===== src/Admin/Handlers/Endpoints/Safety.antt =====
-- What the handlers have checked before a change that an endpoint asks of the store.
use pro_identity_mail.Prelude.{◌≡◌, Option}
use pro_identity_mail.Text.{Text, codes}
use pro_identity_mail.Session.Manager.{Manager}
use pro_identity_mail.Admin.Calls.{Call}
use pro_identity_mail.Admin.Handlers.{Outcome, go, Context}
use pro_identity_mail.Admin.Handlers.Ensures.{Ensures, Yields}
use pro_identity_mail.Admin.Handlers.Permitted.{Permitted}
use pro_identity_mail.Admin.Handlers.Permitted.Tenancy
use pro_identity_mail.Admin.Handlers.Permitted.Mailboxes
use pro_identity_mail.Admin.Handlers.Permitted.Routing
use pro_identity_mail.Admin.Handlers.Permitted.Services
use pro_identity_mail.Admin.Handlers.Endpoints.{Outside, Endpoint, plan}

module _ (hash : Text → Text) (outside : Outside) (s : Option Manager) (c : Context) where
  every_endpoint : (e : Endpoint) → Ensures s (Permitted hash s c) (plan hash outside c e)
  unfolding plan
  every_endpoint (Endpoint.create_tenant body) = Tenancy.create_tenant-Permitted hash s c body
  every_endpoint (Endpoint.update_tenant path body) =
      Tenancy.update_tenant-Permitted hash s c path body
  every_endpoint (Endpoint.delete_tenant path) = Tenancy.delete_tenant-Permitted hash s c path
  every_endpoint (Endpoint.create_tenant_admin body) =
      Tenancy.create_tenant_admin-Permitted hash s c body
  every_endpoint (Endpoint.delete_tenant_admin path) =
      Tenancy.delete_tenant_admin-Permitted hash s c path
  every_endpoint (Endpoint.update_tenant_policy path body) =
      Tenancy.update_tenant_policy-Permitted hash s c path body
  every_endpoint (Endpoint.clear_login_rate_limit path) =
      Tenancy.clear_login_rate_limit-Permitted hash s c path
  every_endpoint (Endpoint.create_domain body) = Mailboxes.create_domain-Permitted hash s c body
  every_endpoint (Endpoint.update_domain path body) =
      Mailboxes.update_domain-Permitted hash s c path body
  every_endpoint (Endpoint.delete_domain path) = Mailboxes.delete_domain-Permitted hash s c path
  every_endpoint (Endpoint.create_user body) =
      Mailboxes.create_user-Permitted hash s c outside.hash_password body
  every_endpoint (Endpoint.update_user path body) =
      Mailboxes.update_user-Permitted hash s c outside.hash_password path body
  every_endpoint (Endpoint.delete_user path) = Mailboxes.delete_user-Permitted hash s c path
  every_endpoint (Endpoint.unlock_user path) = Mailboxes.unlock_user-Permitted hash s c path
  every_endpoint (Endpoint.reset_user_mfa path) = Mailboxes.reset_user_mfa-Permitted hash s c path
  every_endpoint (Endpoint.create_alias body) =
      Routing.create_alias-Permitted hash s c outside.parse_address body
  every_endpoint (Endpoint.update_alias path body) =
      Routing.update_alias-Permitted hash s c outside.parse_address path body
  every_endpoint (Endpoint.delete_alias path) = Routing.delete_alias-Permitted hash s c path
  every_endpoint (Endpoint.create_catch_all_route body) =
      Routing.create_catch_all_route-Permitted hash s c outside.parse_address body
  every_endpoint (Endpoint.update_catch_all_route path body) =
      Routing.update_catch_all_route-Permitted hash s c outside.parse_address path body
  every_endpoint (Endpoint.delete_catch_all_route path) =
      Routing.delete_catch_all_route-Permitted hash s c path
  every_endpoint (Endpoint.create_shared_mailbox_permission body) =
      Routing.create_shared_mailbox_permission-Permitted hash s c body
  every_endpoint (Endpoint.update_shared_mailbox_permission path body) =
      Routing.update_shared_mailbox_permission-Permitted hash s c path body
  every_endpoint (Endpoint.delete_shared_mailbox_permission path) =
      Routing.delete_shared_mailbox_permission-Permitted hash s c path
  every_endpoint (Endpoint.update_domain_tls_settings path body) =
      Services.update_domain_tls_settings-Permitted hash s c path body
  every_endpoint (Endpoint.create_tls_certificate_job path body) =
      Services.create_tls_certificate_job-Permitted hash s c path body
  every_endpoint (Endpoint.save_cloudflare_config path body) =
      Services.save_cloudflare_config-Permitted hash s c path body
  every_endpoint (Endpoint.apply_cloudflare_dns path body) =
      Services.apply_cloudflare_dns-Permitted hash s c path body
  every_endpoint (Endpoint.release_quarantine_event path body) =
      Services.resolve_quarantine_event-Permitted hash s c (codes "released") path body
  every_endpoint (Endpoint.delete_quarantine_event path body) =
      Services.resolve_quarantine_event-Permitted hash s c (codes "deleted") path body
  every_endpoint (Endpoint.update_mail_server_settings body) =
      Services.update_mail_server_settings-Permitted hash s c outside.is_ipv4 outside.is_ipv6 body

  yielded :
      (r : Outcome Call) (call : Call)
      → r ≡ go call
      → Yields (Permitted hash s c) r
      → Permitted hash s c call
  unfolding Yields
  yielded r call e y = rw e at y

  -- Before each change that an endpoint asks of the store, its handler has made its checks. For an
  -- alias, a route or a permission these look at the body alone.
  pub plan-Permitted :
      (e : Endpoint) (call : Call) → (plan hash outside c e s).0 ≡ go call → Permitted hash s c call
  unfolding Ensures
  plan-Permitted e call asked = yielded (plan hash outside c e s).0 call asked (every_endpoint e)
