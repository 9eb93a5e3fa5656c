-- ===== src/Admin/Access/Filter.antt =====
-- Which tenants, domains and users an administrator sees.
use pro_identity_mail.Prelude.{
  ℕ, ◌≡◌, refl, ◌↔◌, List, Bool, true, false, if◌then◌else◌, keep, In, In-keep,
}
use pro_identity_mail.Admin.Access.{
  AdminPrincipal, can_read_tenant, filter_tenants_for_principal, filter_domains_for_principal,
  filter_users_for_principal,
}
use pro_identity_mail.Admin.Models.{Tenant, Domain, User}

can_read_tenant-is_super :
    (p : AdminPrincipal) (tenant : ℕ) → p.is_super ≡ true → can_read_tenant p tenant ≡ true
unfolding can_read_tenant
can_read_tenant-is_super p tenant e = rw e refl

-- A filter that is skipped only where its test says yes to all.
In-filtered :
    {A : Type 0} (skip : Bool) (test : A → Bool) (items : List A) (a : A)
    → (skip ≡ true → test a ≡ true)
    → In a (if skip then items else keep test items) ↔ (In a items × (test a ≡ true))
In-filtered true test items a skips = ((λ h. (h, skips refl)), (λ h. h.0))
In-filtered false test items a skips = In-keep test a items

-- The tenants, the domains and the users that an administrator is shown are exactly those of the
-- store's that are, or belong to, a tenant the administrator can read.
pub filters-can_read :
    (p : AdminPrincipal) (ts : List Tenant) (ds : List Domain) (us : List User) (t : Tenant)
    (d : Domain) (u : User)
    → (In t (filter_tenants_for_principal ts p) ↔ (In t ts × (can_read_tenant p t.id ≡ true)))
      × (In d (filter_domains_for_principal ds p)
          ↔ (In d ds × (can_read_tenant p d.tenant_id ≡ true)))
      × (In u (filter_users_for_principal us p)
          ↔ (In u us × (can_read_tenant p u.tenant_id ≡ true)))
unfolding filter_tenants_for_principal filter_domains_for_principal filter_users_for_principal
filters-can_read p ts ds us t d u = (
  In-filtered p.is_super (λ (b : Tenant). can_read_tenant p b.id) ts t
      (can_read_tenant-is_super p t.id),
  In-filtered p.is_super (λ (b : Domain). can_read_tenant p b.tenant_id) ds d
      (can_read_tenant-is_super p d.tenant_id),
  In-filtered p.is_super (λ (b : User). can_read_tenant p b.tenant_id) us u
      (can_read_tenant-is_super p u.tenant_id),
)
