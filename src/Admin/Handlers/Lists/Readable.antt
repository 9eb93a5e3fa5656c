-- ===== src/Admin/Handlers/Lists/Readable.antt =====
-- The lists show what their reader can read.
use pro_identity_mail.Prelude.{ℕ, ◌≡◌, ◌↔◌, List, true, Option, some, In, In-keep, arith}
use pro_identity_mail.Session.Manager.{Manager}
use pro_identity_mail.Admin.Models.{Alias, CatchAllRoute, SharedMailboxPermission, TenantPolicy}
use pro_identity_mail.Admin.Access.{AdminPrincipal, can_read_tenant}
use pro_identity_mail.Admin.Handlers.{Outcome, go, Context}
use pro_identity_mail.Admin.Handlers.Ensures.{
  Yields, Ensures, after_have_store, after_some_or, ends,
}
use pro_identity_mail.Admin.Handlers.Lists.{
  readable, list_aliases, list_catch_all_routes, list_shared_mailbox_permissions,
  list_tenant_policies,
}

-- what is shown of the rows that the store has
abbrev pub Shows : {A : Type 0} → (A → ℕ) → AdminPrincipal → Option (List A) → List A → Type 0
Shows {A = A} tenant_of p stored shown =
    (items : List A) × (stored ≡ some items)
    × ((a : A) → In a shown ↔ (In a items × (can_read_tenant p (tenant_of a) ≡ true)))

readable-In :
    {A : Type 0} (tenant_of : A → ℕ) (p : AdminPrincipal) (items : List A) (a : A)
    → In a (readable tenant_of p items) ↔ (In a items × (can_read_tenant p (tenant_of a) ≡ true))
unfolding readable can_read_tenant
readable-In tenant_of p items a =
    ground (arith, In-keep (λ b. can_read_tenant p (tenant_of b)) a items)

shown :
    {A : Type 0} (tenant_of : A → ℕ) (p : AdminPrincipal) (stored : Option (List A))
    (items : List A)
    → stored ≡ some items
    → Shows tenant_of p stored (readable tenant_of p items)
shown tenant_of p stored items e = (items, e, readable-In tenant_of p items)

yielded : {A : Type 0} (P : A → Type 0) (r : Outcome A) (a : A) → r ≡ go a → Yields P r → P a
unfolding Yields
yielded P r a e y = rw e at y

module _ (c : Context) (s : Option Manager) where
  aliases_shown :
      (stored : Option (List Alias))
      → Ensures s (Shows (λ a. a.tenant_id) c.principal stored) (list_aliases c stored)
  unfolding list_aliases
  aliases_shown stored = search (after_have_store, after_some_or, ends, shown) depth 8

  routes_shown :
      (stored : Option (List CatchAllRoute))
      → Ensures s (Shows (λ a. a.tenant_id) c.principal stored) (list_catch_all_routes c stored)
  unfolding list_catch_all_routes
  routes_shown stored = search (after_have_store, after_some_or, ends, shown) depth 8

  permissions_shown :
      (stored : Option (List SharedMailboxPermission))
      → Ensures s
          (Shows (λ a. a.tenant_id) c.principal stored)
          (list_shared_mailbox_permissions c stored)
  unfolding list_shared_mailbox_permissions
  permissions_shown stored = search (after_have_store, after_some_or, ends, shown) depth 8

  policies_shown :
      (stored : Option (List TenantPolicy))
      → Ensures s (Shows (λ a. a.tenant_id) c.principal stored) (list_tenant_policies c stored)
  unfolding list_tenant_policies
  policies_shown stored = search (after_have_store, after_some_or, ends, shown) depth 8

  -- Where the lists of aliases, routes, permissions and policies are shown, each shows exactly those
  -- rows of the store whose tenant the principal can read.
  pub lists-Shows :
      (stored_as : Option (List Alias)) (stored_rs : Option (List CatchAllRoute))
      (stored_ps : Option (List SharedMailboxPermission)) (stored_qs : Option (List TenantPolicy))
      (aliases : List Alias) (routes : List CatchAllRoute)
      (permissions : List SharedMailboxPermission) (policies : List TenantPolicy)
      → (list_aliases c stored_as s).0 ≡ go aliases
      → (list_catch_all_routes c stored_rs s).0 ≡ go routes
      → (list_shared_mailbox_permissions c stored_ps s).0 ≡ go permissions
      → (list_tenant_policies c stored_qs s).0 ≡ go policies
      → Shows (λ a. a.tenant_id) c.principal stored_as aliases
        × Shows (λ a. a.tenant_id) c.principal stored_rs routes
        × Shows (λ a. a.tenant_id) c.principal stored_ps permissions
        × Shows (λ a. a.tenant_id) c.principal stored_qs policies
  unfolding Ensures
  lists-Shows sa sr sp sq aliases routes permissions policies ea er ep e4 = (
    yielded _ _ aliases ea (aliases_shown sa),
    yielded _ _ routes er (routes_shown sr),
    yielded _ _ permissions ep (permissions_shown sp),
    yielded _ _ policies e4 (policies_shown sq),
  )
