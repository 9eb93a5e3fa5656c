-- ===== src/Admin/SqlStore/Changes.antt =====
-- The methods of `SQLStore` that change the directory, one by one, and all of them together.
use pro_identity_mail.Prelude.{ℕ, ◌∷◌, Bool, ◌&&◌, ◌==◌, if◌then◌else◌}
use pro_identity_mail.Text.{codes, is_empty}
use pro_identity_mail.Admin.Models.{
  Tenant, Domain, User, TenantAdmin, Alias, CatchAllRoute, SharedMailboxPermission, TenantPolicy,
}
use pro_identity_mail.Admin.Access.{normalize_tenant_admin_role}
use pro_identity_mail.Admin.Calls.{Call}
use pro_identity_mail.Admin.Rows.{insert_row, update_where, delete_where, any_row, upsert}
use pro_identity_mail.Admin.SqlStore.{
  Database, Statement, change, read_back, insert_policy, Result, missing, failed, Stored,
  lower_trim, normalize_tenant_admin_status, exec_one, scan, new_user, changed_user, limit_of_email,
  email_for_user, set_policy, new_tenant_policy,
}

module _ (rejects : Database → Statement → Bool) where
  -- The row of the tenant stays where its policy is refused.
  unfoldable pub create_tenant : Database → Tenant → Stored
  create_tenant db t =
      let added = record db {
        tenants = insert_row (λ id. record t { id = id; status = codes "active" }) db.tenants;
      } in
      if rejects db (change (Call.create_tenant t))
      then (db, failed)
      else exec_one (rejects added (insert_policy db.tenants.next)) added (record added {
        tenant_policies = new_tenant_policy db.tenants.next ∷ db.tenant_policies;
      })

  unfoldable pub update_tenant : Database → Tenant → Stored
  update_tenant db t =
      let after = record db {
        tenants = update_where (λ r. r.id == t.id) (λ r. record t { id = r.id }) db.tenants;
      } in
      let (db', result) = exec_one (rejects db (change (Call.update_tenant t))) db after in
      scan (rejects db' (read_back (Call.update_tenant t)))
        (any_row (λ r. r.id == t.id) db'.tenants.rows) (db', result)

  unfoldable pub delete_tenant : Database → ℕ → Stored
  delete_tenant db id = exec_one (rejects db (change (Call.delete_tenant id))) db (record db {
    tenants =
        update_where (λ r. r.id == id) (λ r. record r { status = codes "suspended" }) db.tenants;
  })

  unfoldable pub create_domain : Database → Domain → Stored
  create_domain db d = exec_one (rejects db (change (Call.create_domain d))) db (record db {
    domains =
        insert_row
          (λ id. record d { id = id; status = codes "active"; dkim_selector = codes "mail" })
          db.domains;
  })

  unfoldable pub update_domain : Database → Domain → Stored
  update_domain db d =
      let after = record db {
        domains =
            update_where (λ r. r.id == d.id) (λ r. record d { id = r.id; name = lower_trim d.name })
              db.domains;
      } in
      let (db', result) = exec_one (rejects db (change (Call.update_domain d))) db after in
      scan (rejects db' (read_back (Call.update_domain d)))
        (any_row (λ r. r.id == d.id) db'.domains.rows) (db', result)

  unfoldable pub delete_domain : Database → ℕ → Stored
  delete_domain db id = exec_one (rejects db (change (Call.delete_domain id))) db (record db {
    domains =
        update_where (λ r. r.id == id) (λ r. record r { status = codes "disabled" }) db.domains;
  })

  unfoldable pub create_user : Database → User → Stored
  create_user db u =
      exec_one (rejects db (change (Call.create_user u))) db
        (record db { users = insert_row (new_user u) db.users })

  unfoldable pub update_user : Database → User → Stored
  update_user db u =
      let after = record db {
        users = update_where (λ r. r.id == u.id) (λ r. changed_user u r) db.users;
      } in
      let (db', result) = exec_one (rejects db (change (Call.update_user u))) db after in
      scan (rejects db' (read_back (Call.update_user u)))
        (any_row (λ r. r.id == u.id) db'.users.rows) (db', result)

  unfoldable pub delete_user : Database → ℕ → Stored
  delete_user db id = exec_one (rejects db (change (Call.delete_user id))) db (record db {
    users = update_where (λ r. r.id == id) (λ r. record r { status = codes "disabled" }) db.users;
  })

  -- the SELECT of the user and the one transaction that unlocks it
  unfoldable pub unlock_user : Database → ℕ → Stored
  unlock_user db id =
      let email = email_for_user db id in
      let limits =
        if is_empty email
        then db.login_rate_limits
        else delete_where (limit_of_email email) db.login_rate_limits in
      let after = record db {
        users = update_where (λ r. r.id == id) (λ r. record r { status = codes "active" }) db.users;
        login_rate_limits = limits;
      } in
      if rejects db (read_back (Call.unlock_user id))
      then (db, failed)
      else if any_row (λ r. r.id == id) db.users.rows
      then exec_one (rejects db (change (Call.unlock_user id))) db after
      else (db, missing)

  -- The tables of the second factors are not the directory's.
  unfoldable pub reset_user_mfa : Database → ℕ → Stored
  reset_user_mfa db id =
      if rejects db (read_back (Call.reset_user_mfa id))
      then (db, failed)
      else if any_row (λ r. r.id == id) db.users.rows
      then exec_one (rejects db (change (Call.reset_user_mfa id))) db db
      else (db, missing)

  unfoldable pub create_tenant_admin : Database → TenantAdmin → Stored
  create_tenant_admin db a =
      let role = normalize_tenant_admin_role a.role in
      let status = normalize_tenant_admin_status a.status in
      let after = record db {
        tenant_admins =
            upsert (λ r. r.tenant_id == a.tenant_id && r.user_id == a.user_id)
              (λ r. record r { role = role; status = status })
              (λ id. record a { id = id; role = role; status = status }) db.tenant_admins;
      } in
      let (db', result) = exec_one (rejects db (change (Call.create_tenant_admin a))) db after in
      scan (rejects db' (read_back (Call.create_tenant_admin a)))
        (any_row (λ r. r.tenant_id == a.tenant_id && r.user_id == a.user_id) db'.tenant_admins.rows)
        (db', result)

  unfoldable pub delete_tenant_admin : Database → ℕ → Stored
  delete_tenant_admin db id =
      exec_one (rejects db (change (Call.delete_tenant_admin id))) db
        (record db { tenant_admins = delete_where (λ r. r.id == id) db.tenant_admins })

  unfoldable pub clear_login_rate_limit : Database → ℕ → Stored
  clear_login_rate_limit db id =
      exec_one (rejects db (change (Call.clear_login_rate_limit id))) db
        (record db { login_rate_limits = delete_where (λ r. r.id == id) db.login_rate_limits })

  unfoldable pub create_alias : Database → Alias → Stored
  create_alias db a = exec_one (rejects db (change (Call.create_alias a))) db (record db {
    aliases =
        insert_row
          (λ id. record a {
            id = id;
            source_local_part = lower_trim a.source_local_part;
            destination = lower_trim a.destination;
          })
          db.aliases;
  })

  unfoldable pub update_alias : Database → Alias → Stored
  update_alias db a =
      let after = record db {
        aliases =
            update_where (λ r. r.id == a.id)
              (λ r. record a {
                id = r.id;
                source_local_part = lower_trim a.source_local_part;
                destination = lower_trim a.destination;
              })
              db.aliases;
      } in
      let (db', result) = exec_one (rejects db (change (Call.update_alias a))) db after in
      scan (rejects db' (read_back (Call.update_alias a)))
        (any_row (λ r. r.id == a.id) db'.aliases.rows) (db', result)

  unfoldable pub delete_alias : Database → ℕ → Stored
  delete_alias db id =
      exec_one (rejects db (change (Call.delete_alias id))) db
        (record db { aliases = delete_where (λ r. r.id == id) db.aliases })

  -- A domain has one route: a second one takes the place of the first.
  unfoldable pub create_catch_all_route : Database → CatchAllRoute → Stored
  create_catch_all_route db a =
      exec_one (rejects db (change (Call.create_catch_all_route a))) db (record db {
        catch_all_routes =
            upsert (λ r. r.domain_id == a.domain_id)
              (λ r. record r {
                tenant_id = a.tenant_id;
                destination = lower_trim a.destination;
                status = codes "active";
              })
              (λ id. record a {
                id = id;
                destination = lower_trim a.destination;
                status = codes "active";
              })
              db.catch_all_routes;
      })

  unfoldable pub update_catch_all_route : Database → CatchAllRoute → Stored
  update_catch_all_route db a =
      let after = record db {
        catch_all_routes =
            update_where (λ r. r.id == a.id)
              (λ r. record a { id = r.id; destination = lower_trim a.destination })
              db.catch_all_routes;
      } in
      let (db', result) = exec_one (rejects db (change (Call.update_catch_all_route a))) db after in
      scan (rejects db' (read_back (Call.update_catch_all_route a)))
        (any_row (λ r. r.id == a.id) db'.catch_all_routes.rows) (db', result)

  unfoldable pub delete_catch_all_route : Database → ℕ → Stored
  delete_catch_all_route db id =
      exec_one (rejects db (change (Call.delete_catch_all_route id))) db
        (record db { catch_all_routes = delete_where (λ r. r.id == id) db.catch_all_routes })

  unfoldable pub create_shared_mailbox_permission : Database → SharedMailboxPermission → Stored
  create_shared_mailbox_permission db p =
      exec_one (rejects db (change (Call.create_shared_mailbox_permission p))) db (record db {
        shared_mailbox_permissions =
            upsert (λ r. r.shared_mailbox_id == p.shared_mailbox_id && r.user_id == p.user_id)
              (λ r. record r {
                can_read = p.can_read;
                can_send_as = p.can_send_as;
                can_send_on_behalf = p.can_send_on_behalf;
                can_manage = p.can_manage;
              })
              (λ id. record p { id = id }) db.shared_mailbox_permissions;
      })

  unfoldable pub update_shared_mailbox_permission : Database → SharedMailboxPermission → Stored
  update_shared_mailbox_permission db p =
      let after = record db {
        shared_mailbox_permissions =
            update_where (λ r. r.id == p.id) (λ r. record p { id = r.id })
              db.shared_mailbox_permissions;
      } in
      let (db', result) =
        exec_one (rejects db (change (Call.update_shared_mailbox_permission p))) db after in
      scan (rejects db' (read_back (Call.update_shared_mailbox_permission p)))
        (any_row (λ r. r.id == p.id) db'.shared_mailbox_permissions.rows) (db', result)

  unfoldable pub delete_shared_mailbox_permission : Database → ℕ → Stored
  delete_shared_mailbox_permission db id =
      exec_one (rejects db (change (Call.delete_shared_mailbox_permission id))) db (record db {
        shared_mailbox_permissions = delete_where (λ r. r.id == id) db.shared_mailbox_permissions;
      })

  unfoldable pub update_tenant_policy : Database → TenantPolicy → Stored
  update_tenant_policy db p =
      exec_one (rejects db (change (Call.update_tenant_policy p))) db
        (record db { tenant_policies = set_policy p db.tenant_policies })

  -- `elsewhere` is a parameter: what the calls about other tables and Cloudflare answer
  unfoldable pub exec : (Database → Call → Result) → Database → Call → Stored
  exec elsewhere db (Call.create_tenant t) = create_tenant db t
  exec elsewhere db (Call.update_tenant t) = update_tenant db t
  exec elsewhere db (Call.delete_tenant id) = delete_tenant db id
  exec elsewhere db (Call.create_domain d) = create_domain db d
  exec elsewhere db (Call.update_domain d) = update_domain db d
  exec elsewhere db (Call.delete_domain id) = delete_domain db id
  exec elsewhere db (Call.create_user u) = create_user db u
  exec elsewhere db (Call.update_user u) = update_user db u
  exec elsewhere db (Call.delete_user id) = delete_user db id
  exec elsewhere db (Call.unlock_user id) = unlock_user db id
  exec elsewhere db (Call.reset_user_mfa id) = reset_user_mfa db id
  exec elsewhere db (Call.create_tenant_admin a) = create_tenant_admin db a
  exec elsewhere db (Call.delete_tenant_admin id) = delete_tenant_admin db id
  exec elsewhere db (Call.clear_login_rate_limit id) = clear_login_rate_limit db id
  exec elsewhere db (Call.create_alias a) = create_alias db a
  exec elsewhere db (Call.update_alias a) = update_alias db a
  exec elsewhere db (Call.delete_alias id) = delete_alias db id
  exec elsewhere db (Call.create_catch_all_route a) = create_catch_all_route db a
  exec elsewhere db (Call.update_catch_all_route a) = update_catch_all_route db a
  exec elsewhere db (Call.delete_catch_all_route id) = delete_catch_all_route db id
  exec elsewhere db (Call.create_shared_mailbox_permission p) =
      create_shared_mailbox_permission db p
  exec elsewhere db (Call.update_shared_mailbox_permission p) =
      update_shared_mailbox_permission db p
  exec elsewhere db (Call.delete_shared_mailbox_permission id) =
      delete_shared_mailbox_permission db id
  exec elsewhere db (Call.update_tenant_policy p) = update_tenant_policy db p
  exec elsewhere db (Call.update_domain_tls_settings a) =
      (db, elsewhere db (Call.update_domain_tls_settings a))
  exec elsewhere db (Call.create_tls_certificate_job a) =
      (db, elsewhere db (Call.create_tls_certificate_job a))
  exec elsewhere db (Call.update_mail_server_settings a) =
      (db, elsewhere db (Call.update_mail_server_settings a))
  exec elsewhere db (Call.save_cloudflare_config id zone token) =
      (db, elsewhere db (Call.save_cloudflare_config id zone token))
  exec elsewhere db (Call.apply_cloudflare_dns id replace) =
      (db, elsewhere db (Call.apply_cloudflare_dns id replace))
  exec elsewhere db (Call.resolve_quarantine_event id status note) =
      (db, elsewhere db (Call.resolve_quarantine_event id status note))
