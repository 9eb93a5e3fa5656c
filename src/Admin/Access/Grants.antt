-- ===== src/Admin/Access/Grants.antt =====
-- What the grants of the store let an administrator do.
use pro_identity_mail.Prelude.{
  ℕ, ◌≡◌, ◌≢◌, refl, ◌↔◌, ◌⊎◌, inl, inr, List, [], ◌∷◌, true, false, not, Option, none, some,
  if◌then◌else◌, Any, Bool-cases, arith,
}
use pro_identity_mail.Text.{Text, codes, text_eq, equal_fold, to_lower, trim_space, is_empty}
use pro_identity_mail.Admin.Access.{
  AdminPrincipal, AuthConfig, normalize_tenant_admin_role, active_grants, principal_of, granted,
  from_store, admin_principal_for_subject, is_active_in, reads_one, writes_one, can_read_tenant,
  can_write_tenant,
}
use pro_identity_mail.Admin.Models.{TenantAdmin}

-- A grant of the store that lets its holder read, or write, a tenant.
abbrev pub Reads : ℕ → TenantAdmin → Type 0
Reads tenant g =
    (g.tenant_id ≡ tenant) × (tenant ≢ 0) × (equal_fold g.status (codes "active") ≡ true)

abbrev pub Writes : ℕ → TenantAdmin → Type 0
Writes tenant g =
    Reads tenant g × (text_eq (to_lower (trim_space g.role)) (codes "read_only") ≡ false)

normalize_twice :
    (role : Text)
    → text_eq
        (normalize_tenant_admin_role (normalize_tenant_admin_role role))
        (codes "tenant_admin")
      ≡ not (text_eq (to_lower (trim_space role)) (codes "read_only"))
unfolding normalize_tenant_admin_role to_lower trim_space text_eq
normalize_twice role =
    elim (Bool-cases (text_eq (to_lower (trim_space role)) (codes "read_only"))) [
      | inl e ↦ rw e refl
      | inr e ↦ rw e refl
    ]

reads_one-active_grants :
    (tenant : ℕ) (gs : List TenantAdmin)
    → (reads_one tenant (active_grants gs) ≡ true) ↔ Any (Reads tenant) gs
unfolding reads_one active_grants is_active_in
reads_one-active_grants tenant [] = ((λ h. cc), (λ h. absurd h))
reads_one-active_grants tenant (g ∷ gs) = ground (arith, reads_one-active_grants tenant gs)

writes_one-active_grants :
    (tenant : ℕ) (gs : List TenantAdmin)
    → (writes_one tenant (active_grants gs) ≡ true) ↔ Any (Writes tenant) gs
unfolding writes_one active_grants is_active_in
writes_one-active_grants tenant [] = ((λ h. cc), (λ h. absurd h))
writes_one-active_grants tenant (g ∷ gs) =
    ground (arith, normalize_twice g.role, writes_one-active_grants tenant gs)

principal_of-tenants :
    (subject : Text) (gs : List TenantAdmin) (p : AdminPrincipal)
    → principal_of subject gs ≡ some p
    → p ≡ record { subject = subject; is_super = false; grants = gs }
unfolding principal_of
principal_of-tenants subject [] p e = cc
principal_of-tenants subject (g ∷ gs) p e = cc

granted-tenants :
    (subject : Text) (o : Option (List TenantAdmin)) (p : AdminPrincipal)
    → granted subject o ≡ some p
    → (gs : List TenantAdmin) × (o ≡ some gs)
      × (p ≡ record { subject = subject; is_super = false; grants = active_grants gs })
unfolding granted
granted-tenants subject none p e = cc
granted-tenants subject (some gs) p e =
    (gs, refl, principal_of-tenants subject (active_grants gs) p e)

from_store-tenants :
    (subject : Text) (store : Option (Text → Option (List TenantAdmin))) (p : AdminPrincipal)
    → from_store subject store ≡ some p
    → (lookup : Text → Option (List TenantAdmin)) × (gs : List TenantAdmin) × (store ≡ some lookup)
      × (lookup subject ≡ some gs)
      × (p ≡ record { subject = subject; is_super = false; grants = active_grants gs })
unfolding from_store
from_store-tenants subject none p e = cc
from_store-tenants subject (some lookup) p e =
    let (gs, found, shape) = granted-tenants subject (lookup subject) p e in
    (lookup, gs, refl, found, shape)

-- of a principal that the store grants
can_write_tenant-granted :
    (subject : Text) (gs : List TenantAdmin) (p : AdminPrincipal) (tenant : ℕ)
    → p ≡ record { subject = subject; is_super = false; grants = active_grants gs }
    → (p.is_super ≡ false)
      × ((can_read_tenant p tenant ≡ true) ↔ Any (Reads tenant) gs)
      × ((can_write_tenant p tenant ≡ true) ↔ Any (Writes tenant) gs)
unfolding can_read_tenant can_write_tenant
can_write_tenant-granted subject gs p tenant e =
    rw e (refl, reads_one-active_grants tenant gs, writes_one-active_grants tenant gs)

of_subject :
    (auth : AuthConfig) (store : Option (Text → Option (List TenantAdmin))) (subject : Text)
    (p : AdminPrincipal) (tenant : ℕ)
    → (if is_empty subject
        then none
        else if equal_fold subject (trim_space auth.username)
        then some (record { subject = subject; is_super = true; grants = [] })
        else from_store subject store)
      ≡ some p
    → (subject ≢ [])
      × (((equal_fold subject (trim_space auth.username) ≡ true) × (p.is_super ≡ true))
          ⊎ ((equal_fold subject (trim_space auth.username) ≡ false)
              × (p.is_super ≡ false)
              × ((lookup : Text → Option (List TenantAdmin)) × (gs : List TenantAdmin) × (store
                    ≡ some lookup)
                  × (lookup subject ≡ some gs)
                  × ((can_read_tenant p tenant ≡ true) ↔ Any (Reads tenant) gs)
                  × ((can_write_tenant p tenant ≡ true) ↔ Any (Writes tenant) gs))))
of_subject auth store [] p tenant e = cc
of_subject auth store (c ∷ s) p tenant e = (
  (λ q. cc),
  elim (Bool-cases (equal_fold (c ∷ s) (trim_space auth.username))) [
    | inl t ↦ inl (t, ground (arith, e, t))
    | inr f ↦
        let (lookup, gs, has, found, shape) = from_store-tenants (c ∷ s) store p (rw f at e) in
        let (plain, reads, writes) = can_write_tenant-granted (c ∷ s) gs p tenant shape in
        inr (f, plain, (lookup, gs, has, found, reads, writes))
  ],
)

-- A subject has a principal only if it is not blank. The principal is the super administrator if the
-- subject is, without regard to case, the configured name. Else the store has grants for the subject,
-- in lower case and trimmed, and for every tenant the principal may read it exactly if one of them is
-- an active grant of that tenant, and write it exactly if that grant's role is not `read_only`;
-- no grant holds for the tenant 0.
pub admin_principal_for_subject_lem :
    (auth : AuthConfig) (store : Option (Text → Option (List TenantAdmin))) (value : Text)
    (p : AdminPrincipal) (tenant : ℕ)
    → admin_principal_for_subject auth store value ≡ some p
    → (to_lower (trim_space value) ≢ [])
      × (((equal_fold (to_lower (trim_space value)) (trim_space auth.username) ≡ true)
            × (p.is_super ≡ true))
          ⊎ ((equal_fold (to_lower (trim_space value)) (trim_space auth.username) ≡ false)
              × (p.is_super ≡ false)
              × ((lookup : Text → Option (List TenantAdmin)) × (gs : List TenantAdmin) × (store
                    ≡ some lookup)
                  × (lookup (to_lower (trim_space value)) ≡ some gs)
                  × ((can_read_tenant p tenant ≡ true) ↔ Any (Reads tenant) gs)
                  × ((can_write_tenant p tenant ≡ true) ↔ Any (Writes tenant) gs))))
unfolding admin_principal_for_subject
admin_principal_for_subject_lem auth store value p tenant e =
    of_subject auth store (to_lower (trim_space value)) p tenant e
