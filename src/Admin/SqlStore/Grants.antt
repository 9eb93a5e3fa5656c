-- ===== src/Admin/SqlStore/Grants.antt =====
-- The lists of the store, and the grants that its tables make (`GetTenantAdminGrants`).
pub mod Revoked
use pro_identity_mail.Prelude.{
  ℕ, ◌≡◌, ◌≢◌, refl, ◌↔◌, ◌⊎◌, inl, inr, List, [], ◌∷◌, ◌++◌, Bool, true, false, ◌&&◌, not, Option,
  none, some, ◌==◌, if◌then◌else◌, leb, keep, take, map, In, In-keep, Bool-cases, arith, beq_refl,
  ap, ◌∙◌,
}
use pro_identity_mail.Text.{Text, codes, text_eq, is_empty}
use pro_identity_mail.Admin.Models.{Tenant, Domain, User, TenantAdmin}
use pro_identity_mail.Admin.Rows.{any_row, update_rows, update_where}
use pro_identity_mail.Admin.SqlStore.{
  Database, Statement, Stored, Result, done, failed, lower_trim, exec_one, change,
}
use pro_identity_mail.Admin.SqlStore.Changes.{delete_tenant, delete_user}

unfoldable pub list_tenants : Database → List Tenant
list_tenants db = take 200 db.tenants.rows

unfoldable pub list_domains : Database → List Domain
list_domains db = take 500 db.domains.rows

-- The hashes are not selected.
unfoldable pub list_users : Database → List User
list_users db = map {A = User} (λ u. record u { password_hash = [] }) (take 500 db.users.rows)

abbrev pub is_active : Text → Bool
is_active status = text_eq status (codes "active")

-- the joins and conditions of the query, for one row of `tenant_admins`
unfoldable pub has_address : Database → Text → User → Bool
has_address db email u =
    any_row
      (λ d. d.id == u.primary_domain_id && text_eq (u.local_part ++ (codes "@" ++ d.name)) email)
      db.domains.rows

unfoldable pub grant_holds : Database → Text → TenantAdmin → Bool
grant_holds db email a =
    is_active a.status
    && any_row (λ u. u.id == a.user_id && (is_active u.status && has_address db email u))
        db.users.rows
    && any_row (λ t. t.id == a.tenant_id && is_active t.status) db.tenants.rows

-- `ORDER BY ta.tenant_id`
unfoldable pub insert_by_tenant : TenantAdmin → List TenantAdmin → List TenantAdmin
insert_by_tenant a [] = a ∷ []
insert_by_tenant a (b ∷ bs) =
    if leb a.tenant_id b.tenant_id then a ∷ b ∷ bs else b ∷ insert_by_tenant a bs

unfoldable pub order_by_tenant : List TenantAdmin → List TenantAdmin
order_by_tenant [] = []
order_by_tenant (a ∷ rest) = insert_by_tenant a (order_by_tenant rest)

unfoldable pub get_tenant_admin_grants : Database → Text → List TenantAdmin
get_tenant_admin_grants db value =
    let email = lower_trim value in
    if is_empty email
    then []
    else order_by_tenant (keep (grant_holds db email) db.tenant_admins.rows)
