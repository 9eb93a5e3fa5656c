-- ===== src/Admin/Handlers/Permitted/Routing.antt =====
-- The endpoints of aliases, routes and permissions.
use pro_identity_mail.Prelude.{ℕ, Option}
use pro_identity_mail.Text.{Text}
use pro_identity_mail.Session.Manager.{Manager}
use pro_identity_mail.Admin.Handlers.{Context}
use pro_identity_mail.Admin.Handlers.Routing.{
  AliasBody, PermissionBody, RouteBody, delete_alias, delete_catch_all_route,
  delete_shared_mailbox_permission, create_shared_mailbox_permission,
  update_shared_mailbox_permission, create_alias, update_alias, create_catch_all_route,
  update_catch_all_route,
}
use pro_identity_mail.Admin.Handlers.Ensures.{Ensures}
use pro_identity_mail.Admin.Handlers.Permitted.{Permitted, steps}

module _ (hash : Text → Text) (s : Option Manager) (c : Context) where
  pub delete_alias-Permitted :
      (path : Option ℕ) → Ensures s (Permitted hash s c) (delete_alias c path)
  unfolding delete_alias Permitted
  delete_alias-Permitted path = search steps depth 16

  pub delete_catch_all_route-Permitted :
      (path : Option ℕ) → Ensures s (Permitted hash s c) (delete_catch_all_route c path)
  unfolding delete_catch_all_route Permitted
  delete_catch_all_route-Permitted path = search steps depth 16

  pub delete_shared_mailbox_permission-Permitted :
      (path : Option ℕ) → Ensures s (Permitted hash s c) (delete_shared_mailbox_permission c path)
  unfolding delete_shared_mailbox_permission Permitted
  delete_shared_mailbox_permission-Permitted path = search steps depth 16

  pub create_shared_mailbox_permission-Permitted :
      (body : Option PermissionBody)
      → Ensures s (Permitted hash s c) (create_shared_mailbox_permission c body)
  unfolding create_shared_mailbox_permission Permitted
  create_shared_mailbox_permission-Permitted body = search steps depth 16

  pub update_shared_mailbox_permission-Permitted :
      (path : Option ℕ) (body : Option PermissionBody)
      → Ensures s (Permitted hash s c) (update_shared_mailbox_permission c path body)
  unfolding update_shared_mailbox_permission Permitted
  update_shared_mailbox_permission-Permitted path body = search steps depth 16

  pub create_alias-Permitted :
      (parse_address : Text → Option Text) (body : Option AliasBody)
      → Ensures s (Permitted hash s c) (create_alias parse_address c body)
  unfolding create_alias Permitted
  create_alias-Permitted parse_address body = search steps depth 16

  pub update_alias-Permitted :
      (parse_address : Text → Option Text) (path : Option ℕ) (body : Option AliasBody)
      → Ensures s (Permitted hash s c) (update_alias parse_address c path body)
  unfolding update_alias Permitted
  update_alias-Permitted parse_address path body = search steps depth 16

  pub create_catch_all_route-Permitted :
      (parse_address : Text → Option Text) (body : Option RouteBody)
      → Ensures s (Permitted hash s c) (create_catch_all_route parse_address c body)
  unfolding create_catch_all_route Permitted
  create_catch_all_route-Permitted parse_address body = search steps depth 16

  pub update_catch_all_route-Permitted :
      (parse_address : Text → Option Text) (path : Option ℕ) (body : Option RouteBody)
      → Ensures s (Permitted hash s c) (update_catch_all_route parse_address c path body)
  unfolding update_catch_all_route Permitted
  update_catch_all_route-Permitted parse_address path body = search steps depth 16
