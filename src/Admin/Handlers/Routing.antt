-- ===== src/Admin/Handlers/Routing.antt =====
-- The handlers of aliases, catch-all routes and the permissions of shared mailboxes.
use pro_identity_mail.Prelude.{ℕ, [], ◌∷◌, Bool, ◌&&◌, ◌||◌, not, Option, ◌==◌}
use pro_identity_mail.Text.{Text, codes, is_empty, trim_space}
use pro_identity_mail.Admin.Models.{SharedMailboxPermission}
use pro_identity_mail.Admin.Calls.{Call}
use pro_identity_mail.Admin.Access.{require_super_admin, require_tenant_write}
use pro_identity_mail.Admin.Names.{normalize_local_part, normalize_address_list}
use pro_identity_mail.Admin.Handlers.{
  Handler, Context, ◌>>=◌, ◌>>◌, pure, stop_if, some_or, permit, have_store, parse_path_uint,
  valid_choice, choice, or_text,
}

pub record AliasBody : Type 0 where
  pub tenant_id : ℕ
  pub domain_id : ℕ
  pub source_local_part : Text
  pub destination : Text

pub record RouteBody : Type 0 where
  pub tenant_id : ℕ
  pub domain_id : ℕ
  pub destination : Text
  pub status : Text

pub record PermissionBody : Type 0 where
  pub tenant_id : ℕ
  pub shared_mailbox_id : ℕ
  pub user_id : ℕ
  pub can_read : Bool
  pub can_send_as : Bool
  pub can_send_on_behalf : Bool
  pub can_manage : Bool

unfoldable pub delete_alias : Context → Option ℕ → Handler Call
delete_alias c path = do
  have_store c
  id ← parse_path_uint path
  permit (require_super_admin c.principal)
  pure (Call.delete_alias id)

unfoldable pub delete_catch_all_route : Context → Option ℕ → Handler Call
delete_catch_all_route c path = do
  have_store c
  id ← parse_path_uint path
  permit (require_super_admin c.principal)
  pure (Call.delete_catch_all_route id)

unfoldable pub delete_shared_mailbox_permission : Context → Option ℕ → Handler Call
delete_shared_mailbox_permission c path = do
  have_store c
  id ← parse_path_uint path
  permit (require_super_admin c.principal)
  pure (Call.delete_shared_mailbox_permission id)

-- a permission with no right at all gets the right to read
permission_of : ℕ → PermissionBody → SharedMailboxPermission
permission_of id req = record {
  id = id;
  tenant_id = req.tenant_id;
  shared_mailbox_id = req.shared_mailbox_id;
  user_id = req.user_id;
  can_read =
      req.can_read || (not req.can_send_as && not req.can_send_on_behalf && not req.can_manage);
  can_send_as = req.can_send_as;
  can_send_on_behalf = req.can_send_on_behalf;
  can_manage = req.can_manage;
}

unfoldable pub create_shared_mailbox_permission : Context → Option PermissionBody → Handler Call
unfolding permission_of
create_shared_mailbox_permission c body = do
  have_store c
  req ← some_or 400 body
  stop_if (req.tenant_id == 0 || req.shared_mailbox_id == 0 || req.user_id == 0) 400
  permit (require_tenant_write c.principal req.tenant_id)
  pure (Call.create_shared_mailbox_permission (permission_of 0 req))

unfoldable pub update_shared_mailbox_permission :
    Context → Option ℕ → Option PermissionBody → Handler Call
unfolding permission_of
update_shared_mailbox_permission c path body = do
  have_store c
  id ← parse_path_uint path
  req ← some_or 400 body
  stop_if (req.tenant_id == 0 || req.shared_mailbox_id == 0 || req.user_id == 0) 400
  permit (require_tenant_write c.principal req.tenant_id)
  pure (Call.update_shared_mailbox_permission (permission_of id req))

module _ (parse_address : Text → Option Text) where
  unfoldable pub create_alias : Context → Option AliasBody → Handler Call
  create_alias c body = do
    have_store c
    req ← some_or 400 body
    source ← some_or 400 (normalize_local_part req.source_local_part)
    destination ← some_or 400 (normalize_address_list parse_address req.destination)
    stop_if
        (req.tenant_id == 0
          || req.domain_id == 0
          || is_empty (trim_space source)
          || is_empty (trim_space destination))
        400
    permit (require_tenant_write c.principal req.tenant_id)
    pure (
        Call.create_alias (record {
          id = 0;
          tenant_id = req.tenant_id;
          domain_id = req.domain_id;
          source_local_part = source;
          destination = destination;
        }))

  unfoldable pub update_alias : Context → Option ℕ → Option AliasBody → Handler Call
  update_alias c path body = do
    have_store c
    id ← parse_path_uint path
    req ← some_or 400 body
    source ← some_or 400 (normalize_local_part req.source_local_part)
    destination ← some_or 400 (normalize_address_list parse_address req.destination)
    stop_if
        (req.tenant_id == 0
          || req.domain_id == 0
          || is_empty (trim_space source)
          || is_empty (trim_space destination))
        400
    permit (require_tenant_write c.principal req.tenant_id)
    pure (
        Call.update_alias (record {
          id = id;
          tenant_id = req.tenant_id;
          domain_id = req.domain_id;
          source_local_part = source;
          destination = destination;
        }))

  unfoldable pub create_catch_all_route : Context → Option RouteBody → Handler Call
  create_catch_all_route c body = do
    have_store c
    req ← some_or 400 body
    destination ← some_or 400 (normalize_address_list parse_address req.destination)
    stop_if (req.tenant_id == 0 || req.domain_id == 0 || is_empty (trim_space destination)) 400
    permit (require_tenant_write c.principal req.tenant_id)
    pure (
        Call.create_catch_all_route (record {
          id = 0;
          tenant_id = req.tenant_id;
          domain_id = req.domain_id;
          destination = destination;
          status = [];
        }))

  unfoldable pub update_catch_all_route : Context → Option ℕ → Option RouteBody → Handler Call
  update_catch_all_route c path body = do
    have_store c
    id ← parse_path_uint path
    req ← some_or 400 body
    destination ← some_or 400 (normalize_address_list parse_address req.destination)
    let status = or_text (choice req.status) (codes "active")
    stop_if (req.tenant_id == 0 || req.domain_id == 0 || is_empty (trim_space destination)) 400
    permit (require_tenant_write c.principal req.tenant_id)
    stop_if (not (valid_choice status (codes "active" ∷ codes "disabled" ∷ []))) 400
    pure (
        Call.update_catch_all_route (record {
          id = id;
          tenant_id = req.tenant_id;
          domain_id = req.domain_id;
          destination = destination;
          status = status;
        }))
