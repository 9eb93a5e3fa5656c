-- ===== src/Admin/Handlers/Tenancy.antt =====
-- The handlers of tenants, their administrators, their policies and the login limits.
use pro_identity_mail.Prelude.{ℕ, [], ◌∷◌, Bool, ◌||◌, not, Option, ◌==◌}
use pro_identity_mail.Text.{Text, codes, is_empty, trim_space}
use pro_identity_mail.Admin.Models.{TenantAdmin}
use pro_identity_mail.Admin.Calls.{Call}
use pro_identity_mail.Admin.Access.{require_super_admin, require_tenant_write}
use pro_identity_mail.Admin.Names.{normalize_tenant_slug}
use pro_identity_mail.Admin.Handlers.{
  Handler, Context, ◌>>=◌, ◌>>◌, pure, stop_if, some_or, permit, have_store, parse_path_uint,
  valid_choice, choice, or_text, fresh_step_up,
}

pub record TenantBody : Type 0 where
  pub name : Text
  pub slug : Text
  pub status : Text

pub record PolicyBody : Type 0 where
  pub spam_action : Text
  pub malware_action : Text
  pub require_tls_for_auth : Bool

unfoldable pub create_tenant : Context → Option TenantBody → Handler Call
create_tenant c body = do
  have_store c
  permit (require_super_admin c.principal)
  req ← some_or 400 body
  let name = trim_space req.name
  slug ← some_or 400 (normalize_tenant_slug req.slug)
  stop_if (is_empty name || is_empty slug) 400
  pure (Call.create_tenant (record { id = 0; name = name; slug = slug; status = [] }))

unfoldable pub delete_tenant : Context → Option ℕ → Handler Call
delete_tenant c path = do
  have_store c
  permit (require_super_admin c.principal)
  id ← parse_path_uint path
  pure (Call.delete_tenant id)

unfoldable pub create_tenant_admin : Context → Option TenantAdmin → Handler Call
create_tenant_admin c body = do
  have_store c
  permit (require_super_admin c.principal)
  req ← some_or 400 body
  let role = or_text (choice req.role) (codes "tenant_admin")
  let status = or_text (choice req.status) (codes "active")
  stop_if (req.tenant_id == 0 || req.user_id == 0) 400
  stop_if (not (valid_choice role (codes "tenant_admin" ∷ codes "read_only" ∷ []))) 400
  stop_if (not (valid_choice status (codes "active" ∷ codes "disabled" ∷ []))) 400
  pure (Call.create_tenant_admin (record req { role = role; status = status }))

unfoldable pub delete_tenant_admin : Context → Option ℕ → Handler Call
delete_tenant_admin c path = do
  have_store c
  permit (require_super_admin c.principal)
  id ← parse_path_uint path
  pure (Call.delete_tenant_admin id)

unfoldable pub update_tenant_policy : Context → Option ℕ → Option PolicyBody → Handler Call
update_tenant_policy c path body = do
  have_store c
  tenant ← parse_path_uint path
  permit (require_tenant_write c.principal tenant)
  req ← some_or 400 body
  let spam_action = choice req.spam_action
  let malware_action = choice req.malware_action
  stop_if (not (valid_choice spam_action (codes "mark" ∷ codes "quarantine" ∷ codes "reject" ∷ [])))
      400
  stop_if (not (valid_choice malware_action (codes "quarantine" ∷ codes "reject" ∷ []))) 400
  pure (
      Call.update_tenant_policy (record {
        tenant_id = tenant;
        spam_action = spam_action;
        malware_action = malware_action;
        require_tls_for_auth = req.require_tls_for_auth;
      }))

module _ (hash : Text → Text) where
  unfoldable pub update_tenant : Context → Option ℕ → Option TenantBody → Handler Call
  update_tenant c path body = do
    have_store c
    permit (require_super_admin c.principal)
    fresh_step_up hash c
    id ← parse_path_uint path
    req ← some_or 400 body
    let name = trim_space req.name
    slug ← some_or 400 (normalize_tenant_slug req.slug)
    let status = or_text (choice req.status) (codes "active")
    stop_if (is_empty name || is_empty slug) 400
    stop_if (not (valid_choice status (codes "active" ∷ codes "suspended" ∷ []))) 400
    pure (Call.update_tenant (record { id = id; name = name; slug = slug; status = status }))

  unfoldable pub clear_login_rate_limit : Context → Option ℕ → Handler Call
  clear_login_rate_limit c path = do
    have_store c
    permit (require_super_admin c.principal)
    fresh_step_up hash c
    id ← parse_path_uint path
    pure (Call.clear_login_rate_limit id)
