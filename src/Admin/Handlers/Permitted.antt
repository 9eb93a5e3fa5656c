-- ===== src/Admin/Handlers/Permitted.antt =====
-- What the handlers check before each change, in terms of what the store lists. Whether a principal
-- may make a change is another question: Service/Owners reads that off the tables.
pub mod Tenancy
pub mod Mailboxes
pub mod Routing
pub mod Services
use pro_identity_mail.Prelude.{
  ℕ, ◌≡◌, refl, ◌⊎◌, inl, inr, List, Bool, true, false, Option, none, some, if◌then◌else◌,
  Bool-cases, arith,
}
use pro_identity_mail.Text.{Text}
use pro_identity_mail.Session.Manager.{Manager}
use pro_identity_mail.Admin.Models.{Domain, User}
use pro_identity_mail.Admin.Calls.{Call}
use pro_identity_mail.Admin.Access.{
  AdminPrincipal, Decision, allowed, can_write_tenant, require_admin_step_up, require_super_admin,
  require_tenant_write, require_domain_write, require_user_write, decide_by, tenant_of_domain,
  tenant_of_user, tenant_id_for_domain_id, tenant_id_for_user_id,
}
use pro_identity_mail.Admin.Handlers.{Context}
use pro_identity_mail.Admin.Handlers.Ensures.{
  after_fresh, after_have_store, after_path, after_permit, after_some_or, after_stop_if, ends,
}

abbrev pub IsSuper : Context → Type 0
IsSuper c = c.principal.is_super ≡ true

abbrev pub CanWrite : Context → ℕ → Type 0
CanWrite c tenant = can_write_tenant c.principal tenant ≡ true

-- the super administrator, or an administrator of the tenant of the first domain of the list with
-- that number
abbrev pub CanWriteDomain : Context → ℕ → Type 0
CanWriteDomain c id =
    IsSuper c
    ⊎ ((domains : List Domain) × (tenant : ℕ) × (c.domains ≡ some domains)
        × (tenant_of_domain domains id ≡ some tenant)
        × CanWrite c tenant)

abbrev pub CanWriteUser : Context → ℕ → Type 0
CanWriteUser c id =
    IsSuper c
    ⊎ ((users : List User) × (tenant : ℕ) × (c.users ≡ some users)
        × (tenant_of_user users id ≡ some tenant)
        × CanWrite c tenant)

module _ (hash : Text → Text) (s : Option Manager) (c : Context) where
  -- with the sessions before the request
  abbrev pub HasStepUp : Type 0
  HasStepUp = (require_admin_step_up hash s c.now c.request).1 ≡ true

  unfoldable pub Permitted : Call → Type 0
  Permitted (Call.create_tenant t) = IsSuper c
  Permitted (Call.update_tenant t) = IsSuper c × HasStepUp
  Permitted (Call.create_domain d) = CanWrite c d.tenant_id
  Permitted (Call.update_domain d) = CanWriteDomain c d.id × CanWrite c d.tenant_id
  Permitted (Call.create_user u) = CanWrite c u.tenant_id
  Permitted (Call.update_user u) = CanWriteUser c u.id × CanWrite c u.tenant_id
  Permitted (Call.create_tenant_admin a) = IsSuper c
  Permitted (Call.create_alias a) = CanWrite c a.tenant_id
  Permitted (Call.update_alias a) = CanWrite c a.tenant_id
  Permitted (Call.create_catch_all_route r) = CanWrite c r.tenant_id
  Permitted (Call.update_catch_all_route r) = CanWrite c r.tenant_id
  Permitted (Call.create_shared_mailbox_permission p) = CanWrite c p.tenant_id
  Permitted (Call.update_shared_mailbox_permission p) = CanWrite c p.tenant_id
  Permitted (Call.update_tenant_policy p) = CanWrite c p.tenant_id
  Permitted (Call.update_domain_tls_settings t) = CanWriteDomain c t.domain_id × HasStepUp
  Permitted (Call.create_tls_certificate_job j) = CanWriteDomain c j.domain_id × HasStepUp
  Permitted (Call.update_mail_server_settings m) = IsSuper c × HasStepUp
  Permitted (Call.save_cloudflare_config id zone token) = CanWriteDomain c id × HasStepUp
  Permitted (Call.apply_cloudflare_dns id replace) = CanWriteDomain c id × HasStepUp
  Permitted (Call.resolve_quarantine_event id status note) = IsSuper c
  Permitted (Call.delete_tenant id) = IsSuper c
  Permitted (Call.delete_domain id) = CanWriteDomain c id × HasStepUp
  Permitted (Call.delete_user id) = CanWriteUser c id × HasStepUp
  Permitted (Call.unlock_user id) = CanWriteUser c id × HasStepUp
  Permitted (Call.reset_user_mfa id) = CanWriteUser c id × HasStepUp
  Permitted (Call.delete_tenant_admin id) = IsSuper c
  Permitted (Call.clear_login_rate_limit id) = IsSuper c × HasStepUp
  Permitted (Call.delete_alias id) = IsSuper c
  Permitted (Call.delete_catch_all_route id) = IsSuper c
  Permitted (Call.delete_shared_mailbox_permission id) = IsSuper c

pub super_allowed : (p : AdminPrincipal) → require_super_admin p ≡ allowed → p.is_super ≡ true
unfolding require_super_admin
super_allowed p e = ground (arith, e)

pub tenant_allowed :
    (p : AdminPrincipal) (tenant : ℕ)
    → require_tenant_write p tenant ≡ allowed
    → can_write_tenant p tenant ≡ true
unfolding require_tenant_write
tenant_allowed p tenant e = ground (arith, e)

super_or :
    (is_super : Bool) (d : Decision)
    → (if is_super then allowed else d) ≡ allowed
    → (is_super ≡ true) ⊎ (d ≡ allowed)
super_or true d e = inl refl
super_or false d e = inr e

decided :
    (on_tenant : ℕ → Decision) (found : Option (Option ℕ))
    → decide_by on_tenant found ≡ allowed
    → (tenant : ℕ) × (found ≡ some (some tenant)) × (on_tenant tenant ≡ allowed)
unfolding decide_by
decided on_tenant none e = cc
decided on_tenant (some none) e = cc
decided on_tenant (some (some tenant)) e = (tenant, refl, e)

listed_domain :
    (domains : Option (List Domain)) (id tenant : ℕ)
    → tenant_id_for_domain_id domains id ≡ some (some tenant)
    → (ds : List Domain) × (domains ≡ some ds) × (tenant_of_domain ds id ≡ some tenant)
unfolding tenant_id_for_domain_id
listed_domain none id tenant e = cc
listed_domain (some ds) id tenant e = (ds, refl, cc e)

listed_user :
    (users : Option (List User)) (id tenant : ℕ)
    → tenant_id_for_user_id users id ≡ some (some tenant)
    → (us : List User) × (users ≡ some us) × (tenant_of_user us id ≡ some tenant)
unfolding tenant_id_for_user_id
listed_user none id tenant e = cc
listed_user (some us) id tenant e = (us, refl, cc e)

pub domain_allowed :
    (c : Context) (id : ℕ)
    → require_domain_write c.domains c.principal id ≡ allowed
    → CanWriteDomain c id
unfolding require_domain_write
domain_allowed c id e = elim (super_or c.principal.is_super _ e) [
  | inl t ↦ inl t
  | inr ok ↦
      let (tenant, found, writes) =
        decided (require_tenant_write c.principal) (tenant_id_for_domain_id c.domains id) ok in
      let (ds, has, first) = listed_domain c.domains id tenant found in
      inr (ds, tenant, has, first, tenant_allowed c.principal tenant writes)
]

pub user_allowed :
    (c : Context) (id : ℕ) → require_user_write c.users c.principal id ≡ allowed → CanWriteUser c id
unfolding require_user_write
user_allowed c id e = elim (super_or c.principal.is_super _ e) [
  | inl t ↦ inl t
  | inr ok ↦
      let (tenant, found, writes) =
        decided (require_tenant_write c.principal) (tenant_id_for_user_id c.users id) ok in
      let (us, has, first) = listed_user c.users id tenant found in
      inr (us, tenant, has, first, tenant_allowed c.principal tenant writes)
]

pub ruleset steps = (
  after_have_store, after_path, after_permit, after_some_or, after_stop_if, after_fresh, ends,
  super_allowed, tenant_allowed, domain_allowed, user_allowed,
)
