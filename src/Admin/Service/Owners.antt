-- ===== src/Admin/Service/Owners.antt =====
-- Whose rows an endpoint may change (internal/admin/handlers.go), read off the tables and not off the
-- handlers, and what docs/security/MAIL_SECURITY_AUDIT.md asks a fresh step-up for.
use pro_identity_mail.Prelude.{
  ℕ, ◌≡◌, inl, inr, List, [], ◌∷◌, Bool, true, false, some, All, arith, ◌∙◌, sym, ap, take,
}
use pro_identity_mail.Text.{Text}
use pro_identity_mail.Session.Manager.{Manager, Request}
use pro_identity_mail.Admin.Models.{Domain, User, Alias, CatchAllRoute, SharedMailboxPermission}
use pro_identity_mail.Admin.Calls.{Call}
use pro_identity_mail.Admin.Access.{
  AdminPrincipal, can_write_tenant, tenant_of_domain, tenant_of_user,
}
use pro_identity_mail.Admin.Rows.{value_of, value_of-every}
use pro_identity_mail.Admin.SqlStore.{Database, Statement, select_domains, select_users}
use pro_identity_mail.Admin.SqlStore.Grants.{list_domains, list_users}
use pro_identity_mail.Admin.SqlStore.WellFormed.{IsWellFormed}
use pro_identity_mail.Admin.Handlers.Permitted.{Permitted, CanWriteDomain, CanWriteUser}
use pro_identity_mail.Admin.Service.{context}
use pro_identity_mail.Admin.Service.Isolation.{
  All-map, tenant_of_domain-value_of, tenant_of_user-value_of, list_of,
}

-- every row with the number belongs to a tenant that the principal can write
abbrev pub OwnsDomain : AdminPrincipal → Database → ℕ → Type 0
OwnsDomain p db id =
    All {A = Domain} (λ r. r.id ≡ id → can_write_tenant p r.tenant_id ≡ true) db.domains.rows

abbrev pub OwnsUser : AdminPrincipal → Database → ℕ → Type 0
OwnsUser p db id =
    All {A = User} (λ r. r.id ≡ id → can_write_tenant p r.tenant_id ≡ true) db.users.rows

-- A change of the rows with a number, or of the row with a key, needs the tenants of these rows in
-- the tables, and where it names a tenant, that one; what is no tenant's needs the super administrator.
unfoldable pub Owned : AdminPrincipal → Database → Call → Type 0
Owned p db (Call.create_tenant t) = p.is_super ≡ true
Owned p db (Call.update_tenant t) = p.is_super ≡ true
Owned p db (Call.delete_tenant id) = p.is_super ≡ true
Owned p db (Call.create_domain d) = can_write_tenant p d.tenant_id ≡ true
Owned p db (Call.update_domain d) = OwnsDomain p db d.id × (can_write_tenant p d.tenant_id ≡ true)
Owned p db (Call.delete_domain id) = OwnsDomain p db id
Owned p db (Call.create_user u) = can_write_tenant p u.tenant_id ≡ true
Owned p db (Call.update_user u) = OwnsUser p db u.id × (can_write_tenant p u.tenant_id ≡ true)
Owned p db (Call.delete_user id) = OwnsUser p db id
Owned p db (Call.unlock_user id) = OwnsUser p db id
Owned p db (Call.reset_user_mfa id) = OwnsUser p db id
Owned p db (Call.create_tenant_admin a) = p.is_super ≡ true
Owned p db (Call.delete_tenant_admin id) = p.is_super ≡ true
Owned p db (Call.clear_login_rate_limit id) = p.is_super ≡ true
Owned p db (Call.create_alias a) = can_write_tenant p a.tenant_id ≡ true
Owned p db (Call.update_alias a) =
    (can_write_tenant p a.tenant_id ≡ true)
    × All {A = Alias} (λ r. r.id ≡ a.id → can_write_tenant p r.tenant_id ≡ true) db.aliases.rows
Owned p db (Call.delete_alias id) = p.is_super ≡ true
Owned p db (Call.create_catch_all_route a) =
    (can_write_tenant p a.tenant_id ≡ true)
    × All {A = CatchAllRoute}
        (λ r. r.domain_id ≡ a.domain_id → can_write_tenant p r.tenant_id ≡ true)
        db.catch_all_routes.rows
Owned p db (Call.update_catch_all_route a) =
    (can_write_tenant p a.tenant_id ≡ true)
    × All {A = CatchAllRoute} (λ r. r.id ≡ a.id → can_write_tenant p r.tenant_id ≡ true)
        db.catch_all_routes.rows
Owned p db (Call.delete_catch_all_route id) = p.is_super ≡ true
Owned p db (Call.create_shared_mailbox_permission q) =
    (can_write_tenant p q.tenant_id ≡ true)
    × All {A = SharedMailboxPermission}
        (λ r.
          (r.shared_mailbox_id ≡ q.shared_mailbox_id) × (r.user_id ≡ q.user_id)
          → can_write_tenant p r.tenant_id ≡ true)
        db.shared_mailbox_permissions.rows
Owned p db (Call.update_shared_mailbox_permission q) =
    (can_write_tenant p q.tenant_id ≡ true)
    × All {A = SharedMailboxPermission} (λ r. r.id ≡ q.id → can_write_tenant p r.tenant_id ≡ true)
        db.shared_mailbox_permissions.rows
Owned p db (Call.delete_shared_mailbox_permission id) = p.is_super ≡ true
Owned p db (Call.update_tenant_policy q) = can_write_tenant p q.tenant_id ≡ true
Owned p db (Call.update_domain_tls_settings a) = OwnsDomain p db a.domain_id
Owned p db (Call.create_tls_certificate_job a) = OwnsDomain p db a.domain_id
Owned p db (Call.update_mail_server_settings m) = p.is_super ≡ true
Owned p db (Call.save_cloudflare_config id zone token) = OwnsDomain p db id
Owned p db (Call.apply_cloudflare_dns id replace) = OwnsDomain p db id
Owned p db (Call.resolve_quarantine_event id status note) = p.is_super ≡ true

-- the calls before which the handler compares no stored tenant
unfoldable pub trusts_body : Call → Bool
trusts_body (Call.update_alias a) = true
trusts_body (Call.create_catch_all_route a) = true
trusts_body (Call.update_catch_all_route a) = true
trusts_body (Call.create_shared_mailbox_permission q) = true
trusts_body (Call.update_shared_mailbox_permission q) = true
trusts_body call = false

-- the changes for which the audit document says that a fresh step-up is asked (O-002)
unfoldable pub needs_step_up : Call → Bool
needs_step_up (Call.delete_tenant id) = true
needs_step_up (Call.delete_domain id) = true
needs_step_up (Call.delete_user id) = true
needs_step_up (Call.unlock_user id) = true
needs_step_up (Call.reset_user_mfa id) = true
needs_step_up (Call.clear_login_rate_limit id) = true
needs_step_up (Call.update_domain_tls_settings a) = true
needs_step_up (Call.create_tls_certificate_job a) = true
needs_step_up (Call.update_mail_server_settings m) = true
needs_step_up (Call.save_cloudflare_config id zone token) = true
needs_step_up (Call.apply_cloudflare_dns id replace) = true
needs_step_up call = false

everywhere : {A : Type 0} (rs : List A) → All {A = A} (λ r. Unit {0}) rs
everywhere [] = tt
everywhere (r ∷ rs) = (tt, everywhere rs)

module _ (rejects : Database → Statement → Bool) (hash : Text → Text) (p : AdminPrincipal) (now : ℕ)
    (request : Request) (db : Database) (w : IsWellFormed db) where
  domains : (id : ℕ) → CanWriteDomain (context rejects p now request db) id → OwnsDomain p db id
  unfolding context IsWellFormed list_domains can_write_tenant
  domains id (inl super) =
      All-map {P = λ r. Unit {0}} db.domains.rows (λ r _ e. ground (arith, super))
        (everywhere db.domains.rows)
  domains id (inr (ds, own, has, first, writes)) =
      let same = list_of (rejects db select_domains) (list_domains db) ds has in
      let found : value_of (λ d. d.id) (λ d. d.tenant_id) (take 500 db.domains.rows) id ≡ some own =
        sym (tenant_of_domain-value_of (take 500 db.domains.rows) id)
        ∙ ap (λ x. tenant_of_domain x id) (sym same)
        ∙ first in
      All-map db.domains.rows (λ r h e. ap (can_write_tenant p) (h (ground (arith, e))) ∙ writes)
        (value_of-every (λ d. d.id) (λ d. d.tenant_id) 500 db.domains.next id own db.domains.rows
          w.1 found)

  users : (id : ℕ) → CanWriteUser (context rejects p now request db) id → OwnsUser p db id
  unfolding context IsWellFormed list_users can_write_tenant
  users id (inl super) =
      All-map {P = λ r. Unit {0}} db.users.rows (λ r _ e. ground (arith, super))
        (everywhere db.users.rows)
  users id (inr (us, own, has, first, writes)) =
      let same = list_of (rejects db select_users) (list_users db) us has in
      let found : value_of (λ d. d.id) (λ d. d.tenant_id) (take 500 db.users.rows) id ≡ some own =
        sym (tenant_of_user-value_of 500 db.users.rows id)
        ∙ ap (λ x. tenant_of_user x id) (sym same)
        ∙ first in
      All-map db.users.rows (λ r h e. ap (can_write_tenant p) (h (ground (arith, e))) ∙ writes)
        (value_of-every (λ d. d.id) (λ d. d.tenant_id) 500 db.users.next id own db.users.rows w.2
          found)
