-- ===== src/Admin/Service/Isolation.antt =====
-- What an administrator of tenants cannot touch: the rows of any tenant that no grant lets him write.
pub mod Calls
pub mod Requests
use pro_identity_mail.Prelude.{
  ℕ, zero, suc, ◌≡◌, refl, ◌⊎◌, inl, inr, List, [], ◌∷◌, Bool, true, false, Option, none, some,
  ◌==◌, if◌then◌else◌, keep, take, map, All, Bool-cases, arith, ◌∙◌, ap, sym, beq_refl,
}
use pro_identity_mail.Text.{Text, codes}
use pro_identity_mail.Session.Manager.{Manager, Request}
use pro_identity_mail.Admin.Models.{
  Tenant, Domain, User, TenantAdmin, Alias, CatchAllRoute, SharedMailboxPermission, TenantPolicy,
  AuditEvent,
}
use pro_identity_mail.Admin.Calls.{Call}
use pro_identity_mail.Admin.Access.{
  AdminPrincipal, can_write_tenant, tenant_of_domain, tenant_of_user,
}
use pro_identity_mail.Admin.Rows.{
  Table, update_rows, any_row, value_of, value_of-every, keep-update_rows, keep-insert_row,
}
use pro_identity_mail.Admin.SqlStore.{
  Database, Statement, select_domains, select_users, Result, done, missing, failed, other_error,
  Stored, exec_one, scan, set_policy, new_user, changed_user,
}
use pro_identity_mail.Admin.SqlStore.Grants.{list_domains, list_users}
use pro_identity_mail.Admin.SqlStore.WellFormed.{IsWellFormed}
use pro_identity_mail.Admin.SqlStore.Keeps.{exec_one-keeps, scan-keeps, either}
use pro_identity_mail.Admin.SqlStore.Changes.{
  create_tenant, update_tenant, delete_tenant, create_domain, update_domain, delete_domain,
  create_user, update_user, delete_user, unlock_user, reset_user_mfa, create_tenant_admin,
  delete_tenant_admin, clear_login_rate_limit, create_alias, update_alias, delete_alias,
  create_catch_all_route, update_catch_all_route, delete_catch_all_route,
  create_shared_mailbox_permission, update_shared_mailbox_permission,
  delete_shared_mailbox_permission, update_tenant_policy, exec,
}
use pro_identity_mail.Admin.Handlers.{Outcome, stop, go, Context}
use pro_identity_mail.Admin.Handlers.Endpoints.{Outside, Endpoint, plan}
use pro_identity_mail.Admin.Handlers.Endpoints.Safety.{plan-Permitted}
use pro_identity_mail.Admin.Handlers.Permitted.{Permitted, CanWriteDomain, CanWriteUser, HasStepUp}
use pro_identity_mail.Admin.Service.{
  State, and_then, create_shared_mailboxes, perform, context, answer, act, serve,
}

-- Two databases have the same rows of a tenant: the tenant itself, its policy, its domains, its users
-- and its administrators.
abbrev pub SameTenant : ℕ → Database → Database → Type 0
SameTenant t db db' =
    (keep {A = Tenant} (λ r. r.id == t) db'.tenants.rows ≡ keep (λ r. r.id == t) db.tenants.rows)
    × (keep {A = TenantPolicy} (λ r. r.tenant_id == t) db'.tenant_policies
        ≡ keep (λ r. r.tenant_id == t) db.tenant_policies)
    × (keep {A = Domain} (λ r. r.tenant_id == t) db'.domains.rows
        ≡ keep (λ r. r.tenant_id == t) db.domains.rows)
    × (keep {A = User} (λ r. r.tenant_id == t) db'.users.rows
        ≡ keep (λ r. r.tenant_id == t) db.users.rows)
    × (keep {A = TenantAdmin} (λ r. r.tenant_id == t) db'.tenant_admins.rows
        ≡ keep (λ r. r.tenant_id == t) db.tenant_admins.rows)

-- a tenant that can be written is not one that cannot
pub writable_apart :
    (p : AdminPrincipal) (own t : ℕ)
    → can_write_tenant p own ≡ true
    → can_write_tenant p t ≡ false
    → (own == t) ≡ false
writable_apart p own t w r = elim (Bool-cases (own == t)) [
  | inl e ↦ let same : own ≡ t = ground (arith, e) in absurd (cc (w, r, same))
  | inr e ↦ e
]

pub All-map :
    {A : Type 0} {P Q : A → Type 0} (rs : List A) → ((r : A) → P r → Q r) → All P rs → All Q rs
All-map [] h all = tt
All-map (r ∷ rs) h (here, later) = (h r here, All-map rs h later)

pub tenant_of_domain-value_of :
    (ds : List Domain) (id : ℕ)
    → tenant_of_domain ds id ≡ value_of (λ d. d.id) (λ d. d.tenant_id) ds id
unfolding tenant_of_domain value_of
tenant_of_domain-value_of [] id = refl
tenant_of_domain-value_of (d ∷ ds) id = simp (tenant_of_domain-value_of ds id)

pub tenant_of_user-value_of :
    (n : ℕ) (us : List User) (id : ℕ)
    → tenant_of_user (map {A = User} (λ u. record u { password_hash = [] }) (take n us)) id
      ≡ value_of (λ u. u.id) (λ u. u.tenant_id) (take n us) id
unfolding tenant_of_user value_of
tenant_of_user-value_of zero us id = refl
tenant_of_user-value_of (suc n) [] id = refl
tenant_of_user-value_of (suc n) (u ∷ us) id = simp (tenant_of_user-value_of n us id)

All-every : {A : Type 0} {P : A → Type 0} → ((r : A) → P r) → (rs : List A) → All P rs
All-every h [] = tt
All-every h (r ∷ rs) = (h r, All-every h rs)

other_policy : (own other t : ℕ) → (own == other) ≡ true → (other == t) ≡ false → (own == t) ≡ false
other_policy own other t e apart = ground (arith, e, apart)

pub list_of :
    {A : Type 0} (broken : Bool) (x y : A) → (if broken then none else some x) ≡ some y → y ≡ x
list_of true x y e = cc
list_of false x y e = cc

pub set_policy-others :
    (t : ℕ) (p : TenantPolicy) (ps : List TenantPolicy)
    → (p.tenant_id == t) ≡ false
    → keep (λ r. r.tenant_id == t) (set_policy p ps) ≡ keep (λ r. r.tenant_id == t) ps
unfolding set_policy keep
set_policy-others t p ps e =
    let replaced =
      keep-update_rows (λ r. r.tenant_id == t) (λ r. r.tenant_id == p.tenant_id) (λ r. p) ps
        (All-every (λ r q. (other_policy r.tenant_id p.tenant_id t q e, e)) ps) in
    elim (Bool-cases (any_row (λ q. q.tenant_id == p.tenant_id) ps)) [
      | inl h ↦ rw (set_policy, h) replaced
      | inr h ↦ rw (set_policy, h) (simp e)
    ]

module _ (rejects : Database → Statement → Bool) (p : AdminPrincipal) (t : ℕ) where
  pub domain_rows :
      (now : ℕ) (request : Request) (db : Database) (id : ℕ)
      → IsWellFormed db
      → p.is_super ≡ false
      → can_write_tenant p t ≡ false
      → CanWriteDomain (context rejects p now request db) id
      → All (λ r. (r.id == id) ≡ true → (r.tenant_id == t) ≡ false) db.domains.rows
  unfolding context IsWellFormed list_domains
  domain_rows now request db id w plain closed (inl super) = cc (plain, super)
  domain_rows now request db id w plain closed (inr (ds, own, has, first, writes)) =
      let same = list_of (rejects db select_domains) (list_domains db) ds has in
      let found : value_of (λ d. d.id) (λ d. d.tenant_id) (take 500 db.domains.rows) id ≡ some own =
        sym (tenant_of_domain-value_of (take 500 db.domains.rows) id)
        ∙ ap (λ x. tenant_of_domain x id) (sym same)
        ∙ first in
      All-map db.domains.rows
        (λ r h e. ap (λ x. x == t) (h e) ∙ writable_apart p own t writes closed)
        (value_of-every (λ d. d.id) (λ d. d.tenant_id) 500 db.domains.next id own db.domains.rows
          w.1 found)

  pub user_rows :
      (now : ℕ) (request : Request) (db : Database) (id : ℕ)
      → IsWellFormed db
      → p.is_super ≡ false
      → can_write_tenant p t ≡ false
      → CanWriteUser (context rejects p now request db) id
      → All (λ r. (r.id == id) ≡ true → (r.tenant_id == t) ≡ false) db.users.rows
  unfolding context IsWellFormed list_users
  user_rows now request db id w plain closed (inl super) = cc (plain, super)
  user_rows now request db id w plain closed (inr (us, own, has, first, writes)) =
      let same = list_of (rejects db select_users) (list_users db) us has in
      let found : value_of (λ d. d.id) (λ d. d.tenant_id) (take 500 db.users.rows) id ≡ some own =
        sym (tenant_of_user-value_of 500 db.users.rows id)
        ∙ ap (λ x. tenant_of_user x id) (sym same)
        ∙ first in
      All-map db.users.rows (λ r h e. ap (λ x. x == t) (h e) ∙ writable_apart p own t writes closed)
        (value_of-every (λ d. d.id) (λ d. d.tenant_id) 500 db.users.next id own db.users.rows w.2
          found)
