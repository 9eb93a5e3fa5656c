-- ===== src/Admin/SqlStore/Grants/Revoked.antt =====
-- What deleting a user or a tenant does to the grants.
use pro_identity_mail.Prelude.{
  ℕ, ◌≡◌, ◌≢◌, refl, ◌↔◌, inl, inr, List, [], ◌∷◌, Bool, true, false, ◌&&◌, not, ◌==◌,
  if◌then◌else◌, keep, In, In-keep, Bool-cases, arith, ap, ◌∙◌,
}
use pro_identity_mail.Text.{Text, codes, text_eq, is_empty}
use pro_identity_mail.Admin.Models.{Tenant, User, TenantAdmin}
use pro_identity_mail.Admin.Rows.{any_row, update_rows, update_where}
use pro_identity_mail.Admin.SqlStore.{Database, Statement, done, lower_trim, exec_one}
use pro_identity_mail.Admin.SqlStore.Changes.{delete_tenant, delete_user}
use pro_identity_mail.Admin.SqlStore.Grants.{
  is_active, has_address, grant_holds, insert_by_tenant, order_by_tenant, get_tenant_admin_grants,
}

In-insert_by_tenant :
    (g a : TenantAdmin) (bs : List TenantAdmin) → In g (insert_by_tenant a bs) ↔ In g (a ∷ bs)
unfolding insert_by_tenant
In-insert_by_tenant g a [] = ((λ h. h), (λ h. h))
In-insert_by_tenant g a (b ∷ bs) = ground (arith, In-insert_by_tenant g a bs)

In-order_by_tenant :
    (g : TenantAdmin) (rest : List TenantAdmin) → In g (order_by_tenant rest) ↔ In g rest
unfolding order_by_tenant
In-order_by_tenant g [] = ((λ h. h), (λ h. h))
In-order_by_tenant g (a ∷ rest) =
    ground (arith, In-insert_by_tenant g a (order_by_tenant rest), In-order_by_tenant g rest)

answered :
    (email : Text) (p : TenantAdmin → Bool) (rows : List TenantAdmin) (g : TenantAdmin)
    → In g (if is_empty email then [] else order_by_tenant (keep p rows))
      ↔ ((email ≢ []) × In g rows × (p g ≡ true))
answered [] p rows g = ((λ h. absurd h), (λ h. absurd (h.0 refl)))
answered (b ∷ email) p rows g =
    let kept = In-keep p g rows in
    let sorted = In-order_by_tenant g (keep p rows) in
    (
      (λ h. let (row, held) = kept.0 (sorted.0 h) in ((λ q. cc), row, held)),
      (λ (ne, row, held). sorted.1 (kept.1 (row, held))),
    )

any_row-update_rows :
    {A : Type 0} (p q test : A → Bool) (change_row : A → A) (rs : List A)
    → ((r : A) → (if test r then p (change_row r) else p r) ≡ q r)
    → any_row p (update_rows test change_row rs) ≡ any_row q rs
unfolding any_row update_rows
any_row-update_rows p q test change_row [] h = refl
any_row-update_rows p q test change_row (r ∷ rs) h =
    let same = any_row-update_rows p q test change_row rs h in
    let here = h r in
    elim (Bool-cases (test r)) [
      | inl e ↦ simp (e, rw e at here, same)
      | inr e ↦ simp (e, rw e at here, same)
    ]

any_row-and :
    {A : Type 0} (b : Bool) (p : A → Bool) (rs : List A)
    → any_row (λ r. b && p r) rs ≡ (b && any_row p rs)
unfolding any_row
any_row-and b p [] = ground arith
any_row-and b p (r ∷ rs) = ground (arith, any_row-and b p rs)

-- a row that an update has switched off fails the test of an active row
switched_off :
    (id wanted own : ℕ) (b rest : Bool)
    → (if own == id then own == wanted && (false && rest) else own == wanted && (b && rest))
      ≡ (not (wanted == id) && (own == wanted && (b && rest)))
switched_off id wanted own b rest = ground arith

exec_one-done :
    (rejected : Bool) (before after : Database)
    → (exec_one rejected before after).1 ≡ done
    → (exec_one rejected before after).0 ≡ after
unfolding exec_one
exec_one-done true before after e = cc
exec_one-done false before after e = refl

without_user : Database → ℕ → Database
without_user db id = record db {
  users = update_where (λ r. r.id == id) (λ r. record r { status = codes "disabled" }) db.users;
}

guard_first : (a n x t : Bool) → (a && (n && x) && t) ≡ (n && (a && x && t))
guard_first a n x t = ground arith

grant_holds-without_user :
    (db : Database) (id : ℕ) (email : Text) (a : TenantAdmin)
    → grant_holds (without_user db id) email a ≡ (not (a.user_id == id) && grant_holds db email a)
unfolding grant_holds without_user update_where has_address text_eq
grant_holds-without_user db id email a =
    let one : User → Bool =
      λ u. u.id == a.user_id && (is_active u.status && has_address db email u) in
    let off =
      any_row-update_rows one (λ u. not (a.user_id == id) && one u) (λ u. u.id == id)
        (λ u. record u { status = codes "disabled" }) db.users.rows
        (λ u. switched_off id a.user_id u.id (is_active u.status) (has_address db email u)) in
    let all = any_row-and (not (a.user_id == id)) one db.users.rows in
    let tenant_active = any_row (λ t. t.id == a.tenant_id && is_active t.status) db.tenants.rows in
    ap (λ x. is_active a.status && x && tenant_active) (off ∙ all)
    ∙ guard_first (is_active a.status) (not (a.user_id == id)) (any_row one db.users.rows)
        tenant_active

without_tenant : Database → ℕ → Database
without_tenant db id = record db {
  tenants =
      update_where (λ r. r.id == id) (λ r. record r { status = codes "suspended" }) db.tenants;
}

tenant_off :
    (id wanted own : ℕ) (b : Bool)
    → (if own == id then own == wanted && false else own == wanted && b)
      ≡ (not (wanted == id) && (own == wanted && b))
tenant_off id wanted own b = ground arith

tenant_first : (a n x t : Bool) → (a && x && (n && t)) ≡ (n && (a && x && t))
tenant_first a n x t = ground arith

grant_holds-without_tenant :
    (db : Database) (id : ℕ) (email : Text) (a : TenantAdmin)
    → grant_holds (without_tenant db id) email a
      ≡ (not (a.tenant_id == id) && grant_holds db email a)
unfolding grant_holds without_tenant update_where has_address text_eq
grant_holds-without_tenant db id email a =
    let one : Tenant → Bool = λ u. u.id == a.tenant_id && is_active u.status in
    let off =
      any_row-update_rows one (λ u. not (a.tenant_id == id) && one u) (λ u. u.id == id)
        (λ u. record u { status = codes "suspended" }) db.tenants.rows
        (λ u. tenant_off id a.tenant_id u.id (is_active u.status)) in
    let all = any_row-and (not (a.tenant_id == id)) one db.tenants.rows in
    let user_active =
      any_row (λ u. u.id == a.user_id && (is_active u.status && has_address db email u))
        db.users.rows in
    ap (λ x. is_active a.status && user_active && x) (off ∙ all)
    ∙ tenant_first (is_active a.status) (not (a.tenant_id == id)) user_active
        (any_row one db.tenants.rows)

module _ (rejects : Database → Statement → Bool) where
  -- When a user is deleted, its address and every other one keep exactly the grants of other users.
  pub delete_user-grants :
      (db : Database) (id : ℕ) (value : Text) (g : TenantAdmin)
      → (delete_user rejects db id).1 ≡ done
      → In g (get_tenant_admin_grants (delete_user rejects db id).0 value)
        ↔ (In g (get_tenant_admin_grants db value) × (g.user_id ≢ id))
  unfolding delete_user get_tenant_admin_grants without_user
  delete_user-grants db id value g e =
      let same : (delete_user rejects db id).0 ≡ without_user db id = exec_one-done _ db _ e in
      let before =
        answered (lower_trim value) (grant_holds db (lower_trim value)) db.tenant_admins.rows g in
      let after =
        answered (lower_trim value) (grant_holds (without_user db id) (lower_trim value))
          db.tenant_admins.rows g in
      let held = grant_holds-without_user db id (lower_trim value) g in
      rw same (ground (arith, before, after, held))

  -- When a tenant is deleted, every address keeps exactly the grants of other tenants.
  pub delete_tenant-grants :
      (db : Database) (id : ℕ) (value : Text) (g : TenantAdmin)
      → (delete_tenant rejects db id).1 ≡ done
      → In g (get_tenant_admin_grants (delete_tenant rejects db id).0 value)
        ↔ (In g (get_tenant_admin_grants db value) × (g.tenant_id ≢ id))
  unfolding delete_tenant get_tenant_admin_grants without_tenant
  delete_tenant-grants db id value g e =
      let same : (delete_tenant rejects db id).0 ≡ without_tenant db id = exec_one-done _ db _ e in
      let before =
        answered (lower_trim value) (grant_holds db (lower_trim value)) db.tenant_admins.rows g in
      let after =
        answered (lower_trim value) (grant_holds (without_tenant db id) (lower_trim value))
          db.tenant_admins.rows g in
      let held = grant_holds-without_tenant db id (lower_trim value) g in
      rw same (ground (arith, before, after, held))
