-- ===== src/Admin/Service/Isolation/Calls.antt =====
-- The methods of the store and the mailboxes of a new domain, one by one.
use pro_identity_mail.Prelude.{ℕ, ◌≡◌, refl, List, [], ◌∷◌, Bool, true, false, ◌==◌, keep, All, ◌∙◌}
use pro_identity_mail.Text.{Text}
use pro_identity_mail.Admin.Models.{
  Domain, User, Alias, CatchAllRoute, SharedMailboxPermission, TenantPolicy,
}
use pro_identity_mail.Admin.Rows.{update_rows, update_where, keep-update_rows, keep-insert_row}
use pro_identity_mail.Admin.SqlStore.{
  Database, Statement, done, missing, failed, other_error, Stored, new_user, changed_user,
}
use pro_identity_mail.Admin.SqlStore.Keeps.{exec_one-keeps, scan-keeps, either}
use pro_identity_mail.Admin.SqlStore.Changes.{
  create_domain, update_domain, delete_domain, create_user, update_user, delete_user, unlock_user,
  reset_user_mfa, create_alias, update_alias, create_catch_all_route, update_catch_all_route,
  create_shared_mailbox_permission, update_shared_mailbox_permission, update_tenant_policy,
}
use pro_identity_mail.Admin.Service.{and_then, create_shared_mailboxes}
use pro_identity_mail.Admin.Service.Isolation.{SameTenant, All-map, set_policy-others}

module _ (rejects : Database → Statement → Bool) (t : ℕ) where
  abbrev pub kept : (db : Database) → SameTenant t db db
  kept db = (refl, refl, refl, refl, refl)

  pub create_user-SameTenant :
      (db x : Database) (u : User)
      → (u.tenant_id == t) ≡ false
      → SameTenant t db x
      → SameTenant t db (create_user rejects x u).0
  unfolding create_user new_user
  create_user-SameTenant db x u apart (ts, ps, ds, us, as_) =
      exec_one-keeps (SameTenant t db) _ x _ (ts, ps, ds, us, as_)
        (ts, ps, ds, keep-insert_row (λ r. r.tenant_id == t) (new_user u) x.users apart ∙ us, as_)

  pub and_then-SameTenant :
      (db : Database) (st : Stored) (k : Database → Stored)
      → SameTenant t db st.0
      → ((x : Database) → SameTenant t db x → SameTenant t db (k x).0)
      → SameTenant t db (and_then st k).0
  unfolding and_then
  and_then-SameTenant db (x, done) k h next = next x h
  and_then-SameTenant db (x, missing) k h next = h
  and_then-SameTenant db (x, failed) k h next = h
  and_then-SameTenant db (x, other_error status) k h next = h

  pub mailboxes-SameTenant :
      (db : Database) (own domain : ℕ) (boxes : List (Text × Text)) (x : Database)
      → (own == t) ≡ false
      → SameTenant t db x
      → SameTenant t db (create_shared_mailboxes rejects own domain boxes x).0
  unfolding create_shared_mailboxes
  mailboxes-SameTenant db own domain [] x apart h = h
  mailboxes-SameTenant db own domain ((local_part, display_name) ∷ rest) x apart h =
      and_then-SameTenant db _ _ (create_user-SameTenant db x _ apart h)
        (λ y same. mailboxes-SameTenant db own domain rest y apart same)

  pub create_domain-SameTenant :
      (db : Database) (d : Domain)
      → (d.tenant_id == t) ≡ false
      → SameTenant t db (create_domain rejects db d).0
  unfolding create_domain
  create_domain-SameTenant db d apart =
      exec_one-keeps (SameTenant t db) _ db _ (kept db)
        (refl, refl, keep-insert_row (λ r. r.tenant_id == t) _ db.domains apart, refl, refl)

  changed_domains :
      (db : Database) (id : ℕ) (row_of : Domain → Domain)
      → All (λ r. (r.id == id) ≡ true → (r.tenant_id == t) ≡ false) db.domains.rows
      → ((r : Domain) → (r.tenant_id == t) ≡ false → ((row_of r).tenant_id == t) ≡ false)
      → keep {A = Domain}
          (λ r. r.tenant_id == t)
          (update_rows (λ r. r.id == id) row_of db.domains.rows)
        ≡ keep (λ r. r.tenant_id == t) db.domains.rows
  changed_domains db id row_of rows stays =
      keep-update_rows (λ r. r.tenant_id == t) (λ r. r.id == id) row_of db.domains.rows
        (All-map db.domains.rows (λ r h e. (h e, stays r (h e))) rows)

  changed_users :
      (db : Database) (id : ℕ) (row_of : User → User)
      → All (λ r. (r.id == id) ≡ true → (r.tenant_id == t) ≡ false) db.users.rows
      → ((r : User) → (r.tenant_id == t) ≡ false → ((row_of r).tenant_id == t) ≡ false)
      → keep {A = User} (λ r. r.tenant_id == t) (update_rows (λ r. r.id == id) row_of db.users.rows)
        ≡ keep (λ r. r.tenant_id == t) db.users.rows
  changed_users db id row_of rows stays =
      keep-update_rows (λ r. r.tenant_id == t) (λ r. r.id == id) row_of db.users.rows
        (All-map db.users.rows (λ r h e. (h e, stays r (h e))) rows)

  pub update_domain-SameTenant :
      (db : Database) (d : Domain)
      → All (λ r. (r.id == d.id) ≡ true → (r.tenant_id == t) ≡ false) db.domains.rows
      → (d.tenant_id == t) ≡ false
      → SameTenant t db (update_domain rejects db d).0
  unfolding update_domain update_where
  update_domain-SameTenant db d rows apart = scan-keeps (SameTenant t db) _ _ _ (
      exec_one-keeps (SameTenant t db) _ db _ (kept db)
        (refl, refl, changed_domains db d.id _ rows (λ r h. apart), refl, refl))

  pub delete_domain-SameTenant :
      (db : Database) (id : ℕ)
      → All (λ r. (r.id == id) ≡ true → (r.tenant_id == t) ≡ false) db.domains.rows
      → SameTenant t db (delete_domain rejects db id).0
  unfolding delete_domain update_where
  delete_domain-SameTenant db id rows =
      exec_one-keeps (SameTenant t db) _ db _ (kept db)
        (refl, refl, changed_domains db id _ rows (λ r h. h), refl, refl)

  pub update_user-SameTenant :
      (db : Database) (u : User)
      → All (λ r. (r.id == u.id) ≡ true → (r.tenant_id == t) ≡ false) db.users.rows
      → (u.tenant_id == t) ≡ false
      → SameTenant t db (update_user rejects db u).0
  unfolding update_user update_where changed_user
  update_user-SameTenant db u rows apart = scan-keeps (SameTenant t db) _ _ _ (
      exec_one-keeps (SameTenant t db) _ db _ (kept db)
        (refl, refl, refl, changed_users db u.id (changed_user u) rows (λ r h. apart), refl))

  pub delete_user-SameTenant :
      (db : Database) (id : ℕ)
      → All (λ r. (r.id == id) ≡ true → (r.tenant_id == t) ≡ false) db.users.rows
      → SameTenant t db (delete_user rejects db id).0
  unfolding delete_user update_where
  delete_user-SameTenant db id rows =
      exec_one-keeps (SameTenant t db) _ db _ (kept db)
        (refl, refl, refl, changed_users db id _ rows (λ r h. h), refl)

  pub unlock_user-SameTenant :
      (db : Database) (id : ℕ)
      → All (λ r. (r.id == id) ≡ true → (r.tenant_id == t) ≡ false) db.users.rows
      → SameTenant t db (unlock_user rejects db id).0
  unfolding unlock_user update_where
  unlock_user-SameTenant db id rows = either (SameTenant t db) _ _ _ (kept db) (
      either (SameTenant t db) _ _ _
        (exec_one-keeps (SameTenant t db) _ db _ (kept db)
          (refl, refl, refl, changed_users db id _ rows (λ r h. h), refl))
        (kept db))

  pub reset_user_mfa-SameTenant :
      (db : Database) (id : ℕ) → SameTenant t db (reset_user_mfa rejects db id).0
  unfolding reset_user_mfa
  reset_user_mfa-SameTenant db id = either (SameTenant t db) _ _ _ (kept db) (
      either (SameTenant t db) _ _ _ (exec_one-keeps (SameTenant t db) _ db _ (kept db) (kept db))
        (kept db))

  pub update_tenant_policy-SameTenant :
      (db : Database) (q : TenantPolicy)
      → (q.tenant_id == t) ≡ false
      → SameTenant t db (update_tenant_policy rejects db q).0
  unfolding update_tenant_policy
  update_tenant_policy-SameTenant db q apart =
      exec_one-keeps (SameTenant t db) _ db _ (kept db)
        (refl, set_policy-others t q db.tenant_policies apart, refl, refl, refl)

  pub create_alias-SameTenant :
      (db : Database) (a : Alias) → SameTenant t db (create_alias rejects db a).0
  unfolding create_alias
  create_alias-SameTenant db a = exec_one-keeps (SameTenant t db) _ db _ (kept db) (kept db)

  pub create_catch_all_route-SameTenant :
      (db : Database) (a : CatchAllRoute) → SameTenant t db (create_catch_all_route rejects db a).0
  unfolding create_catch_all_route
  create_catch_all_route-SameTenant db a =
      exec_one-keeps (SameTenant t db) _ db _ (kept db) (kept db)

  pub create_shared_mailbox_permission-SameTenant :
      (db : Database) (a : SharedMailboxPermission)
      → SameTenant t db (create_shared_mailbox_permission rejects db a).0
  unfolding create_shared_mailbox_permission
  create_shared_mailbox_permission-SameTenant db a =
      exec_one-keeps (SameTenant t db) _ db _ (kept db) (kept db)

  pub update_alias-SameTenant :
      (db : Database) (a : Alias) → SameTenant t db (update_alias rejects db a).0
  unfolding update_alias
  update_alias-SameTenant db a =
      scan-keeps (SameTenant t db) _ _ _
        (exec_one-keeps (SameTenant t db) _ db _ (kept db) (kept db))

  pub update_catch_all_route-SameTenant :
      (db : Database) (a : CatchAllRoute) → SameTenant t db (update_catch_all_route rejects db a).0
  unfolding update_catch_all_route
  update_catch_all_route-SameTenant db a =
      scan-keeps (SameTenant t db) _ _ _
        (exec_one-keeps (SameTenant t db) _ db _ (kept db) (kept db))

  pub update_shared_mailbox_permission-SameTenant :
      (db : Database) (a : SharedMailboxPermission)
      → SameTenant t db (update_shared_mailbox_permission rejects db a).0
  unfolding update_shared_mailbox_permission
  update_shared_mailbox_permission-SameTenant db a =
      scan-keeps (SameTenant t db) _ _ _
        (exec_one-keeps (SameTenant t db) _ db _ (kept db) (kept db))
