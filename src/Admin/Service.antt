-- ===== src/Admin/Service.antt =====
-- The endpoints with the store behind them: what a request does to the sessions, the database and the
-- audit, and the status of its reply. Bodies of replies are left out.
pub mod Effects
pub mod Isolation
pub mod Takeover
pub mod NewDomain
pub mod Owners
use pro_identity_mail.Prelude.{
  ℕ, List, [], ◌∷◌, ◌++◌, Bool, true, false, not, Option, none, some, ◌==◌, if◌then◌else◌,
}
use pro_identity_mail.Text.{Text, codes}
use pro_identity_mail.Session.Manager.{Manager, Request}
use pro_identity_mail.Admin.Models.{Domain, User, AuditEvent}
use pro_identity_mail.Admin.Calls.{Call}
use pro_identity_mail.Admin.Access.{AdminPrincipal}
use pro_identity_mail.Admin.Rows.{first_row}
use pro_identity_mail.Admin.SqlStore.{
  Database, Statement, select_domains, select_users, Result, done, missing, failed, other_error,
  Stored,
}
use pro_identity_mail.Admin.SqlStore.Changes.{create_user, create_domain, exec}
use pro_identity_mail.Admin.SqlStore.Grants.{list_domains, list_users}
use pro_identity_mail.Admin.Handlers.{Outcome, stop, go, Context}
use pro_identity_mail.Admin.Handlers.Endpoints.{Outside, Endpoint, plan}

-- `audits` is newest first
pub record State : Type 0 where
  pub sessions : Option Manager
  pub database : Database
  pub audits : List AuditEvent

-- the numbers of the handlers' `http.Status` names
unfoldable pub success_status : Call → ℕ
success_status (Call.create_tenant t) = 201
success_status (Call.create_domain d) = 201
success_status (Call.create_user u) = 201
success_status (Call.create_tenant_admin a) = 201
success_status (Call.create_alias a) = 201
success_status (Call.create_catch_all_route a) = 201
success_status (Call.create_shared_mailbox_permission p) = 201
success_status (Call.create_tls_certificate_job j) = 202
success_status (Call.delete_tenant id) = 204
success_status (Call.delete_domain id) = 204
success_status (Call.delete_user id) = 204
success_status (Call.reset_user_mfa id) = 204
success_status (Call.delete_tenant_admin id) = 204
success_status (Call.clear_login_rate_limit id) = 204
success_status (Call.delete_alias id) = 204
success_status (Call.delete_catch_all_route id) = 204
success_status (Call.delete_shared_mailbox_permission id) = 204
success_status call = 200

-- the handlers that do not ask `writeStoreError` which error it is
unfoldable pub has_one_error : Call → Bool
has_one_error (Call.create_tenant t) = true
has_one_error (Call.create_domain d) = true
has_one_error (Call.create_user u) = true
has_one_error (Call.create_alias a) = true
has_one_error (Call.create_catch_all_route a) = true
has_one_error (Call.create_shared_mailbox_permission p) = true
has_one_error (Call.resolve_quarantine_event id status note) = true
has_one_error (Call.update_tenant_policy p) = true
has_one_error call = false

unfoldable pub write_store_error : Result → ℕ
write_store_error done = 200
write_store_error missing = 404
write_store_error failed = 500
write_store_error (other_error status) = status

unfoldable pub event : Option ℕ → Text → Text → AuditEvent
event tenant action target = record { tenant_id = tenant; action = action; target_type = target }

unfoldable pub tenant_of_row : Database → ℕ → Option ℕ
tenant_of_row db id = elim (first_row (λ u. u.id == id) db.users.rows) [
  | none ↦ none
  | some u ↦ some u.tenant_id
]

-- What a handler records after its change; `queued` is whether the request to apply the configuration
-- was written.
unfoldable pub audits_of : Bool → Database → Call → List AuditEvent
audits_of queued db (Call.create_tenant t) =
    event (some db.tenants.next) (codes "tenant.create") (codes "tenant") ∷ []
audits_of queued db (Call.update_tenant t) =
    event (some t.id) (codes "tenant.update") (codes "tenant") ∷ []
audits_of queued db (Call.delete_tenant id) =
    event (some id) (codes "tenant.delete") (codes "tenant") ∷ []
audits_of queued db (Call.create_domain d) =
    event (some d.tenant_id) (codes "domain.create") (codes "domain") ∷ []
audits_of queued db (Call.update_domain d) =
    event (some d.tenant_id) (codes "domain.update") (codes "domain") ∷ []
audits_of queued db (Call.delete_domain id) =
    event none (codes "domain.delete") (codes "domain") ∷ []
audits_of queued db (Call.create_user u) =
    event (some u.tenant_id) (codes "user.create") (codes "user") ∷ []
audits_of queued db (Call.update_user u) =
    event (some u.tenant_id) (codes "user.update") (codes "user") ∷ []
audits_of queued db (Call.delete_user id) = event none (codes "user.delete") (codes "user") ∷ []
audits_of queued db (Call.unlock_user id) =
    event (tenant_of_row db id) (codes "user.unlock") (codes "user") ∷ []
audits_of queued db (Call.reset_user_mfa id) =
    event none (codes "user_mfa.reset") (codes "user") ∷ []
audits_of queued db (Call.create_tenant_admin a) =
    event (some a.tenant_id) (codes "tenant_admin.create") (codes "tenant_admin") ∷ []
audits_of queued db (Call.delete_tenant_admin id) =
    event none (codes "tenant_admin.delete") (codes "tenant_admin") ∷ []
audits_of queued db (Call.clear_login_rate_limit id) =
    event none (codes "security.rate_limit.clear") (codes "login_rate_limit") ∷ []
audits_of queued db (Call.create_alias a) =
    event (some a.tenant_id) (codes "alias.create") (codes "alias") ∷ []
audits_of queued db (Call.update_alias a) =
    event (some a.tenant_id) (codes "alias.update") (codes "alias") ∷ []
audits_of queued db (Call.delete_alias id) = event none (codes "alias.delete") (codes "alias") ∷ []
audits_of queued db (Call.create_catch_all_route a) =
    event (some a.tenant_id) (codes "catch_all.create") (codes "catch_all") ∷ []
audits_of queued db (Call.update_catch_all_route a) =
    event (some a.tenant_id) (codes "catch_all.update") (codes "catch_all") ∷ []
audits_of queued db (Call.delete_catch_all_route id) =
    event none (codes "catch_all.delete") (codes "catch_all") ∷ []
audits_of queued db (Call.create_shared_mailbox_permission p) =
    event (some p.tenant_id) (codes "shared_permission.create") (codes "shared_permission") ∷ []
audits_of queued db (Call.update_shared_mailbox_permission p) =
    event (some p.tenant_id) (codes "shared_permission.update") (codes "shared_permission") ∷ []
audits_of queued db (Call.delete_shared_mailbox_permission id) =
    event none (codes "shared_permission.delete") (codes "shared_permission") ∷ []
audits_of queued db (Call.update_domain_tls_settings s) =
    event none (codes "domain_tls_settings.update") (codes "domain") ∷ []
audits_of queued db (Call.create_tls_certificate_job j) =
    event none (codes "tls_certificate_job.create") (codes "domain") ∷ []
audits_of queued db (Call.save_cloudflare_config id zone token) =
    event none (codes "cloudflare_config.update") (codes "domain") ∷ []
audits_of queued db (Call.apply_cloudflare_dns id replace) =
    event none (codes "cloudflare_dns.apply") (codes "domain") ∷ []
audits_of queued db (Call.update_tenant_policy p) =
    event (some p.tenant_id) (codes "tenant_policy.update") (codes "tenant_policy") ∷ []
audits_of queued db (Call.update_mail_server_settings m) =
    event none (codes "mail_server_settings.update") (codes "system")
    ∷ (if queued
        then event none (codes "system.config_apply_requested") (codes "system_config") ∷ []
        else [])
audits_of queued db (Call.resolve_quarantine_event id status note) = []

-- the steps of a handler that stops at the first error
unfoldable pub and_then : Stored → (Database → Stored) → Stored
and_then (db, done) k = k db
and_then (db, missing) k = (db, missing)
and_then (db, failed) k = (db, failed)
and_then (db, other_error status) k = (db, other_error status)

unfoldable pub default_system_shared_mailboxes : List (Text × Text)
default_system_shared_mailboxes =
    (codes "postmaster", codes "Postmaster")
    ∷ (codes "abuse", codes "Abuse Desk")
    ∷ (codes "dmarc", codes "DMARC Reports")
    ∷ (codes "tlsrpt", codes "TLS Reports")
    ∷ []

unfoldable pub answer : Bool → Option Manager → State → Call → Stored → State × ℕ
answer queued s state call (db, done) = (
  record {
    sessions = s;
    database = db;
    audits = audits_of queued state.database call ++ state.audits;
  },
  success_status call,
)
answer queued s state call (db, error) = (
  record state { sessions = s; database = db },
  if has_one_error call then 500 else write_store_error error,
)

module _ (rejects : Database → Statement → Bool) where
  unfoldable pub create_shared_mailboxes : ℕ → ℕ → List (Text × Text) → Database → Stored
  create_shared_mailboxes tenant domain [] db = (db, done)
  create_shared_mailboxes tenant domain ((local_part, display_name) ∷ rest) db =
      and_then
        (create_user rejects db (record {
          id = 0;
          tenant_id = tenant;
          primary_domain_id = domain;
          local_part = local_part;
          display_name = display_name;
          mailbox_type = codes "shared";
          password_hash = [];
          status = [];
          quota_bytes = 1073741824;
        }))
        (create_shared_mailboxes tenant domain rest)

  -- `createDomain` goes on with the mailboxes of every domain; every other handler makes one call.
  unfoldable pub perform : (Database → Call → Result) → Database → Call → Stored
  perform elsewhere db (Call.create_domain d) =
      and_then (create_domain rejects db d)
        (create_shared_mailboxes d.tenant_id db.domains.next default_system_shared_mailboxes)
  perform elsewhere db call = exec rejects elsewhere db call

  unfoldable pub context : AdminPrincipal → ℕ → Request → Database → Context
  context p now request db = record {
    principal = p;
    now = now;
    request = request;
    has_store = true;
    domains = if rejects db select_domains then none else some (list_domains db);
    users = if rejects db select_users then none else some (list_users db);
  }

  -- `planned` is what the handler makes of the request and the sessions after it.
  unfoldable pub act :
      (Database → Call → Result) → Bool → State → Outcome Call × Option Manager → State × ℕ
  act elsewhere queued state (stop status, s) = (record state { sessions = s }, status)
  act elsewhere queued state (go call, s) =
      answer queued s state call (perform elsewhere state.database call)

  unfoldable pub serve :
      (Text → Text)
      → Outside
      → (Database → Call → Result)
      → Bool
      → AdminPrincipal
      → ℕ
      → Request
      → Endpoint
      → State
      → State × ℕ
  serve hash outside elsewhere queued p now request e state =
      act elsewhere queued state
        (plan hash outside (context p now request state.database) e state.sessions)
