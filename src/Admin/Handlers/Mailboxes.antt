-- ===== src/Admin/Handlers/Mailboxes.antt =====
-- The handlers of domains and users. The hash of a password is a parameter: `none` is its error.
use pro_identity_mail.Prelude.{
  ℕ, [], ◌∷◌, Bool, true, false, ◌&&◌, ◌||◌, not, Option, ◌==◌, if◌then◌else◌,
}
use pro_identity_mail.Text.{Text, codes, text_eq, is_empty, trim_space}
use pro_identity_mail.Admin.Calls.{Call}
use pro_identity_mail.Admin.Access.{require_tenant_write, require_domain_write, require_user_write}
use pro_identity_mail.Admin.Names.{
  normalize_domain_name, normalize_dkim_selector, normalize_local_part,
}
use pro_identity_mail.Admin.Handlers.{
  Handler, Context, ◌>>=◌, ◌>>◌, pure, stop_if, some_or, permit, have_store, parse_path_uint,
  valid_choice, choice, or_text, fresh_step_up,
}

pub record DomainBody : Type 0 where
  pub tenant_id : ℕ
  pub name : Text
  pub status : Text
  pub dkim_selector : Text

pub record UserBody : Type 0 where
  pub tenant_id : ℕ
  pub primary_domain_id : ℕ
  pub local_part : Text
  pub display_name : Text
  pub password : Text
  pub mailbox_type : Text
  pub status : Text
  pub quota_bytes : ℕ

unfoldable pub create_domain : Context → Option DomainBody → Handler Call
create_domain c body = do
  have_store c
  req ← some_or 400 body
  name ← some_or 400 (normalize_domain_name req.name)
  stop_if (req.tenant_id == 0 || is_empty name) 400
  permit (require_tenant_write c.principal req.tenant_id)
  pure (
      Call.create_domain (record {
        id = 0;
        tenant_id = req.tenant_id;
        name = name;
        status = [];
        dkim_selector = [];
      }))

unfoldable pub update_domain : Context → Option ℕ → Option DomainBody → Handler Call
update_domain c path body = do
  have_store c
  id ← parse_path_uint path
  permit (require_domain_write c.domains c.principal id)
  req ← some_or 400 body
  name ← some_or 400 (normalize_domain_name req.name)
  let status = or_text (choice req.status) (codes "pending")
  selector ←
      some_or 400 (normalize_dkim_selector (or_text (trim_space req.dkim_selector) (codes "mail")))
  stop_if (req.tenant_id == 0 || is_empty name) 400
  permit (require_tenant_write c.principal req.tenant_id)
  stop_if (not (valid_choice status (codes "pending" ∷ codes "active" ∷ codes "disabled" ∷ []))) 400
  pure (
      Call.update_domain (record {
        id = id;
        tenant_id = req.tenant_id;
        name = name;
        status = status;
        dkim_selector = selector;
      }))

-- the hash that a handler stores, empty where it stores none
unfoldable pub stored_hash : Bool → Option Text → Handler Text
stored_hash false hashed = pure []
stored_hash true hashed = some_or 400 hashed

module _ (hash_password : Text → Option Text) where
  unfoldable pub create_user : Context → Option UserBody → Handler Call
  unfolding stored_hash
  create_user c body = do
    have_store c
    req ← some_or 400 body
    local_part ← some_or 400 (normalize_local_part req.local_part)
    let display_name = trim_space req.display_name
    let mailbox_type = or_text (choice req.mailbox_type) (codes "user")
    stop_if (not (valid_choice mailbox_type (codes "user" ∷ codes "shared" ∷ []))) 400
    stop_if
        (req.tenant_id == 0
          || req.primary_domain_id == 0
          || is_empty local_part
          || (text_eq mailbox_type (codes "user") && is_empty req.password))
        400
    permit (require_tenant_write c.principal req.tenant_id)
    password_hash ← stored_hash (not (is_empty req.password)) (hash_password req.password)
    pure (
        Call.create_user (record {
          id = 0;
          tenant_id = req.tenant_id;
          primary_domain_id = req.primary_domain_id;
          local_part = local_part;
          display_name = display_name;
          mailbox_type = mailbox_type;
          password_hash = password_hash;
          status = [];
          quota_bytes = req.quota_bytes;
        }))

  unfoldable pub update_user : Context → Option ℕ → Option UserBody → Handler Call
  unfolding stored_hash
  update_user c path body = do
    have_store c
    id ← parse_path_uint path
    permit (require_user_write c.users c.principal id)
    req ← some_or 400 body
    local_part ← some_or 400 (normalize_local_part req.local_part)
    let display_name = trim_space req.display_name
    let mailbox_type = or_text (choice req.mailbox_type) (codes "user")
    let status = or_text (choice req.status) (codes "active")
    let quota_bytes = if req.quota_bytes == 0 then 10737418240 else req.quota_bytes
    stop_if (req.tenant_id == 0 || req.primary_domain_id == 0 || is_empty local_part) 400
    permit (require_tenant_write c.principal req.tenant_id)
    stop_if (not (valid_choice mailbox_type (codes "user" ∷ codes "shared" ∷ []))) 400
    stop_if (not (valid_choice status (codes "active" ∷ codes "locked" ∷ codes "disabled" ∷ [])))
        400
    password_hash ←
        stored_hash (not (is_empty req.password) && text_eq mailbox_type (codes "user"))
          (hash_password req.password)
    pure (
        Call.update_user (record {
          id = id;
          tenant_id = req.tenant_id;
          primary_domain_id = req.primary_domain_id;
          local_part = local_part;
          display_name = display_name;
          mailbox_type = mailbox_type;
          password_hash = password_hash;
          status = status;
          quota_bytes = quota_bytes;
        }))

module _ (hash : Text → Text) where
  unfoldable pub delete_domain : Context → Option ℕ → Handler Call
  delete_domain c path = do
    have_store c
    id ← parse_path_uint path
    permit (require_domain_write c.domains c.principal id)
    fresh_step_up hash c
    pure (Call.delete_domain id)

  unfoldable pub delete_user : Context → Option ℕ → Handler Call
  delete_user c path = do
    have_store c
    id ← parse_path_uint path
    permit (require_user_write c.users c.principal id)
    fresh_step_up hash c
    pure (Call.delete_user id)

  unfoldable pub unlock_user : Context → Option ℕ → Handler Call
  unlock_user c path = do
    have_store c
    id ← parse_path_uint path
    permit (require_user_write c.users c.principal id)
    fresh_step_up hash c
    pure (Call.unlock_user id)

  unfoldable pub reset_user_mfa : Context → Option ℕ → Handler Call
  reset_user_mfa c path = do
    have_store c
    id ← parse_path_uint path
    permit (require_user_write c.users c.principal id)
    fresh_step_up hash c
    pure (Call.reset_user_mfa id)
