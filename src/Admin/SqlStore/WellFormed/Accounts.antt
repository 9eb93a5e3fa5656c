-- ===== src/Admin/SqlStore/WellFormed/Accounts.antt =====
-- Tenants, domains, users and administrators.
use pro_identity_mail.Prelude.{ℕ, refl, Bool}
use pro_identity_mail.Admin.Models.{Tenant, Domain, User, TenantAdmin}
use pro_identity_mail.Admin.Rows.{
  insert_row-IsCounted, update_where-IsCounted, delete_where-IsCounted, upsert-IsCounted,
}
use pro_identity_mail.Admin.SqlStore.{Database, Statement, new_user, changed_user}
use pro_identity_mail.Admin.SqlStore.Keeps.{exec_one-keeps, scan-keeps, either}
use pro_identity_mail.Admin.SqlStore.Changes.{
  create_tenant, update_tenant, delete_tenant, create_domain, update_domain, delete_domain,
  create_user, update_user, delete_user, create_tenant_admin, delete_tenant_admin,
}
use pro_identity_mail.Admin.SqlStore.WellFormed.{IsWellFormed}

module _ (rejects : Database → Statement → Bool) where
  pub create_tenant-IsWellFormed :
      (db : Database) (t : Tenant) → IsWellFormed db → IsWellFormed (create_tenant rejects db t).0
  unfolding create_tenant IsWellFormed
  create_tenant-IsWellFormed db t (wt, wd, wu, wa, wl, wc, wp, wr) =
      let added = insert_row-IsCounted (λ r. r.id) _ db.tenants refl wt in
      either IsWellFormed _ _ _ (wt, wd, wu, wa, wl, wc, wp, wr)
        (exec_one-keeps IsWellFormed _ _ _ (added, wd, wu, wa, wl, wc, wp, wr)
          (added, wd, wu, wa, wl, wc, wp, wr))

  pub update_tenant-IsWellFormed :
      (db : Database) (t : Tenant) → IsWellFormed db → IsWellFormed (update_tenant rejects db t).0
  unfolding update_tenant IsWellFormed
  update_tenant-IsWellFormed db t (wt, wd, wu, wa, wl, wc, wp, wr) = scan-keeps IsWellFormed _ _ _ (
      exec_one-keeps IsWellFormed _ db _ (wt, wd, wu, wa, wl, wc, wp, wr)
        (
          update_where-IsCounted (λ r. r.id) _ _ db.tenants (λ r. refl) wt,
          wd,
          wu,
          wa,
          wl,
          wc,
          wp,
          wr,
        ))

  pub delete_tenant-IsWellFormed :
      (db : Database) (id : ℕ) → IsWellFormed db → IsWellFormed (delete_tenant rejects db id).0
  unfolding delete_tenant IsWellFormed
  delete_tenant-IsWellFormed db id (wt, wd, wu, wa, wl, wc, wp, wr) =
      exec_one-keeps IsWellFormed _ db _ (wt, wd, wu, wa, wl, wc, wp, wr)
        (
          update_where-IsCounted (λ r. r.id) _ _ db.tenants (λ r. refl) wt,
          wd,
          wu,
          wa,
          wl,
          wc,
          wp,
          wr,
        )

  pub create_domain-IsWellFormed :
      (db : Database) (d : Domain) → IsWellFormed db → IsWellFormed (create_domain rejects db d).0
  unfolding create_domain IsWellFormed
  create_domain-IsWellFormed db d (wt, wd, wu, wa, wl, wc, wp, wr) =
      exec_one-keeps IsWellFormed _ db _ (wt, wd, wu, wa, wl, wc, wp, wr)
        (wt, insert_row-IsCounted (λ r. r.id) _ db.domains refl wd, wu, wa, wl, wc, wp, wr)

  pub update_domain-IsWellFormed :
      (db : Database) (d : Domain) → IsWellFormed db → IsWellFormed (update_domain rejects db d).0
  unfolding update_domain IsWellFormed
  update_domain-IsWellFormed db d (wt, wd, wu, wa, wl, wc, wp, wr) = scan-keeps IsWellFormed _ _ _ (
      exec_one-keeps IsWellFormed _ db _ (wt, wd, wu, wa, wl, wc, wp, wr)
        (
          wt,
          update_where-IsCounted (λ r. r.id) _ _ db.domains (λ r. refl) wd,
          wu,
          wa,
          wl,
          wc,
          wp,
          wr,
        ))

  pub delete_domain-IsWellFormed :
      (db : Database) (id : ℕ) → IsWellFormed db → IsWellFormed (delete_domain rejects db id).0
  unfolding delete_domain IsWellFormed
  delete_domain-IsWellFormed db id (wt, wd, wu, wa, wl, wc, wp, wr) =
      exec_one-keeps IsWellFormed _ db _ (wt, wd, wu, wa, wl, wc, wp, wr)
        (
          wt,
          update_where-IsCounted (λ r. r.id) _ _ db.domains (λ r. refl) wd,
          wu,
          wa,
          wl,
          wc,
          wp,
          wr,
        )

  pub create_user-IsWellFormed :
      (db : Database) (u : User) → IsWellFormed db → IsWellFormed (create_user rejects db u).0
  unfolding create_user new_user IsWellFormed
  create_user-IsWellFormed db u (wt, wd, wu, wa, wl, wc, wp, wr) =
      exec_one-keeps IsWellFormed _ db _ (wt, wd, wu, wa, wl, wc, wp, wr)
        (wt, wd, insert_row-IsCounted (λ r. r.id) _ db.users refl wu, wa, wl, wc, wp, wr)

  pub update_user-IsWellFormed :
      (db : Database) (u : User) → IsWellFormed db → IsWellFormed (update_user rejects db u).0
  unfolding update_user changed_user IsWellFormed
  update_user-IsWellFormed db u (wt, wd, wu, wa, wl, wc, wp, wr) = scan-keeps IsWellFormed _ _ _ (
      exec_one-keeps IsWellFormed _ db _ (wt, wd, wu, wa, wl, wc, wp, wr)
        (
          wt,
          wd,
          update_where-IsCounted (λ r. r.id) _ (changed_user u) db.users (λ r. refl) wu,
          wa,
          wl,
          wc,
          wp,
          wr,
        ))

  pub delete_user-IsWellFormed :
      (db : Database) (id : ℕ) → IsWellFormed db → IsWellFormed (delete_user rejects db id).0
  unfolding delete_user IsWellFormed
  delete_user-IsWellFormed db id (wt, wd, wu, wa, wl, wc, wp, wr) =
      exec_one-keeps IsWellFormed _ db _ (wt, wd, wu, wa, wl, wc, wp, wr)
        (wt, wd, update_where-IsCounted (λ r. r.id) _ _ db.users (λ r. refl) wu, wa, wl, wc, wp, wr)

  pub create_tenant_admin-IsWellFormed :
      (db : Database) (a : TenantAdmin)
      → IsWellFormed db
      → IsWellFormed (create_tenant_admin rejects db a).0
  unfolding create_tenant_admin IsWellFormed
  create_tenant_admin-IsWellFormed db a (wt, wd, wu, wa, wl, wc, wp, wr) =
      scan-keeps IsWellFormed _ _ _ (
        exec_one-keeps IsWellFormed _ db _ (wt, wd, wu, wa, wl, wc, wp, wr)
          (
            wt,
            wd,
            wu,
            upsert-IsCounted (λ r. r.id) _ _ _ db.tenant_admins (λ r. refl) refl wa,
            wl,
            wc,
            wp,
            wr,
          ))

  pub delete_tenant_admin-IsWellFormed :
      (db : Database) (id : ℕ)
      → IsWellFormed db
      → IsWellFormed (delete_tenant_admin rejects db id).0
  unfolding delete_tenant_admin IsWellFormed
  delete_tenant_admin-IsWellFormed db id (wt, wd, wu, wa, wl, wc, wp, wr) =
      exec_one-keeps IsWellFormed _ db _ (wt, wd, wu, wa, wl, wc, wp, wr)
        (wt, wd, wu, delete_where-IsCounted (λ r. r.id) _ db.tenant_admins wa, wl, wc, wp, wr)
