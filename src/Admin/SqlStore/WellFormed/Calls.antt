-- ===== src/Admin/SqlStore/WellFormed/Calls.antt =====
-- All calls together.
use pro_identity_mail.Prelude.{Bool}
use pro_identity_mail.Admin.Calls.{Call}
use pro_identity_mail.Admin.SqlStore.{Database, Statement, Result}
use pro_identity_mail.Admin.SqlStore.Changes.{exec}
use pro_identity_mail.Admin.SqlStore.WellFormed.{IsWellFormed}
use pro_identity_mail.Admin.SqlStore.WellFormed.Accounts.{
  create_tenant-IsWellFormed, update_tenant-IsWellFormed, delete_tenant-IsWellFormed,
  create_domain-IsWellFormed, update_domain-IsWellFormed, delete_domain-IsWellFormed,
  create_user-IsWellFormed, update_user-IsWellFormed, delete_user-IsWellFormed,
  create_tenant_admin-IsWellFormed, delete_tenant_admin-IsWellFormed,
}
use pro_identity_mail.Admin.SqlStore.WellFormed.Routes.{
  unlock_user-IsWellFormed, reset_user_mfa-IsWellFormed, clear_login_rate_limit-IsWellFormed,
  create_alias-IsWellFormed, update_alias-IsWellFormed, delete_alias-IsWellFormed,
  create_catch_all_route-IsWellFormed, update_catch_all_route-IsWellFormed,
  delete_catch_all_route-IsWellFormed, create_shared_mailbox_permission-IsWellFormed,
  update_shared_mailbox_permission-IsWellFormed, delete_shared_mailbox_permission-IsWellFormed,
  update_tenant_policy-IsWellFormed,
}

module _ (rejects : Database → Statement → Bool) where
  -- In every table of the directory the numbers fall from row to row and stay below the number of the
  -- next row; every call keeps this, whatever the database refuses and the other tables answer.
  pub exec-IsWellFormed :
      (elsewhere : Database → Call → Result) (db : Database) (call : Call)
      → IsWellFormed db
      → IsWellFormed (exec rejects elsewhere db call).0
  unfolding exec
  exec-IsWellFormed elsewhere db (Call.create_tenant t) w =
      create_tenant-IsWellFormed rejects db t w
  exec-IsWellFormed elsewhere db (Call.update_tenant t) w =
      update_tenant-IsWellFormed rejects db t w
  exec-IsWellFormed elsewhere db (Call.delete_tenant id) w =
      delete_tenant-IsWellFormed rejects db id w
  exec-IsWellFormed elsewhere db (Call.create_domain d) w =
      create_domain-IsWellFormed rejects db d w
  exec-IsWellFormed elsewhere db (Call.update_domain d) w =
      update_domain-IsWellFormed rejects db d w
  exec-IsWellFormed elsewhere db (Call.delete_domain id) w =
      delete_domain-IsWellFormed rejects db id w
  exec-IsWellFormed elsewhere db (Call.create_user u) w = create_user-IsWellFormed rejects db u w
  exec-IsWellFormed elsewhere db (Call.update_user u) w = update_user-IsWellFormed rejects db u w
  exec-IsWellFormed elsewhere db (Call.delete_user id) w = delete_user-IsWellFormed rejects db id w
  exec-IsWellFormed elsewhere db (Call.unlock_user id) w = unlock_user-IsWellFormed rejects db id w
  exec-IsWellFormed elsewhere db (Call.reset_user_mfa id) w =
      reset_user_mfa-IsWellFormed rejects db id w
  exec-IsWellFormed elsewhere db (Call.create_tenant_admin a) w =
      create_tenant_admin-IsWellFormed rejects db a w
  exec-IsWellFormed elsewhere db (Call.delete_tenant_admin id) w =
      delete_tenant_admin-IsWellFormed rejects db id w
  exec-IsWellFormed elsewhere db (Call.clear_login_rate_limit id) w =
      clear_login_rate_limit-IsWellFormed rejects db id w
  exec-IsWellFormed elsewhere db (Call.create_alias a) w = create_alias-IsWellFormed rejects db a w
  exec-IsWellFormed elsewhere db (Call.update_alias a) w = update_alias-IsWellFormed rejects db a w
  exec-IsWellFormed elsewhere db (Call.delete_alias id) w =
      delete_alias-IsWellFormed rejects db id w
  exec-IsWellFormed elsewhere db (Call.create_catch_all_route a) w =
      create_catch_all_route-IsWellFormed rejects db a w
  exec-IsWellFormed elsewhere db (Call.update_catch_all_route a) w =
      update_catch_all_route-IsWellFormed rejects db a w
  exec-IsWellFormed elsewhere db (Call.delete_catch_all_route id) w =
      delete_catch_all_route-IsWellFormed rejects db id w
  exec-IsWellFormed elsewhere db (Call.create_shared_mailbox_permission p) w =
      create_shared_mailbox_permission-IsWellFormed rejects db p w
  exec-IsWellFormed elsewhere db (Call.update_shared_mailbox_permission p) w =
      update_shared_mailbox_permission-IsWellFormed rejects db p w
  exec-IsWellFormed elsewhere db (Call.delete_shared_mailbox_permission id) w =
      delete_shared_mailbox_permission-IsWellFormed rejects db id w
  exec-IsWellFormed elsewhere db (Call.update_tenant_policy p) w =
      update_tenant_policy-IsWellFormed rejects db p w
  exec-IsWellFormed elsewhere db (Call.update_domain_tls_settings a) w = w
  exec-IsWellFormed elsewhere db (Call.create_tls_certificate_job a) w = w
  exec-IsWellFormed elsewhere db (Call.update_mail_server_settings a) w = w
  exec-IsWellFormed elsewhere db (Call.save_cloudflare_config id zone token) w = w
  exec-IsWellFormed elsewhere db (Call.apply_cloudflare_dns id replace) w = w
  exec-IsWellFormed elsewhere db (Call.resolve_quarantine_event id status note) w = w
