-- ===== src/Admin/Service/Isolation/Requests.antt =====
-- Every request.
use pro_identity_mail.Prelude.{ℕ, ◌≡◌, refl, Bool, false, Option, sym, subst}
use pro_identity_mail.Text.{Text}
use pro_identity_mail.Session.Manager.{Manager, Request}
use pro_identity_mail.Admin.Calls.{Call}
use pro_identity_mail.Admin.Access.{AdminPrincipal, can_write_tenant}
use pro_identity_mail.Admin.SqlStore.{Database, Statement, Result}
use pro_identity_mail.Admin.SqlStore.WellFormed.{IsWellFormed}
use pro_identity_mail.Admin.SqlStore.Changes.{exec}
use pro_identity_mail.Admin.Handlers.{Outcome, stop, go}
use pro_identity_mail.Admin.Handlers.Endpoints.{Outside, Endpoint}
use pro_identity_mail.Admin.Handlers.Endpoints.Safety.{plan-Permitted}
use pro_identity_mail.Admin.Handlers.Permitted.{Permitted}
use pro_identity_mail.Admin.Service.{State, perform, context, act, serve}
use pro_identity_mail.Admin.Service.Effects.{answer-database}
use pro_identity_mail.Admin.Service.Isolation.{SameTenant, writable_apart, domain_rows, user_rows}
use pro_identity_mail.Admin.Service.Isolation.Calls.{
  kept, create_user-SameTenant, and_then-SameTenant, mailboxes-SameTenant, create_domain-SameTenant,
  update_domain-SameTenant, delete_domain-SameTenant, update_user-SameTenant,
  delete_user-SameTenant, unlock_user-SameTenant, reset_user_mfa-SameTenant,
  update_tenant_policy-SameTenant, create_alias-SameTenant, create_catch_all_route-SameTenant,
  create_shared_mailbox_permission-SameTenant, update_alias-SameTenant,
  update_catch_all_route-SameTenant, update_shared_mailbox_permission-SameTenant,
}

module _ (rejects : Database → Statement → Bool) (elsewhere : Database → Call → Result)
    (hash : Text → Text) (p : AdminPrincipal) (t : ℕ) where
  perform-SameTenant :
      (now : ℕ) (request : Request) (s : Option Manager) (db : Database) (call : Call)
      → IsWellFormed db
      → p.is_super ≡ false
      → can_write_tenant p t ≡ false
      → Permitted hash s (context rejects p now request db) call
      → SameTenant t db (perform rejects elsewhere db call).0
  unfolding perform exec Permitted context
  perform-SameTenant now request s db (Call.create_tenant tenant) w plain closed h =
      absurd (cc (plain, h))
  perform-SameTenant now request s db (Call.update_tenant tenant) w plain closed h =
      absurd (cc (plain, h.0))
  perform-SameTenant now request s db (Call.delete_tenant id) w plain closed h =
      absurd (cc (plain, h))
  perform-SameTenant now request s db (Call.create_domain d) w plain closed h =
      let apart = writable_apart p d.tenant_id t h closed in
      and_then-SameTenant rejects t db _ _ (create_domain-SameTenant rejects t db d apart)
        (λ x same. mailboxes-SameTenant rejects t db d.tenant_id db.domains.next _ x apart same)
  perform-SameTenant now request s db (Call.update_domain d) w plain closed h =
      update_domain-SameTenant rejects t db d
        (domain_rows rejects p t now request db d.id w plain closed h.0)
        (writable_apart p d.tenant_id t h.1 closed)
  perform-SameTenant now request s db (Call.delete_domain id) w plain closed h =
      delete_domain-SameTenant rejects t db id
        (domain_rows rejects p t now request db id w plain closed h.0)
  perform-SameTenant now request s db (Call.create_user u) w plain closed h =
      create_user-SameTenant rejects t db db u (writable_apart p u.tenant_id t h closed)
        (kept rejects t db)
  perform-SameTenant now request s db (Call.update_user u) w plain closed h =
      update_user-SameTenant rejects t db u
        (user_rows rejects p t now request db u.id w plain closed h.0)
        (writable_apart p u.tenant_id t h.1 closed)
  perform-SameTenant now request s db (Call.delete_user id) w plain closed h =
      delete_user-SameTenant rejects t db id
        (user_rows rejects p t now request db id w plain closed h.0)
  perform-SameTenant now request s db (Call.unlock_user id) w plain closed h =
      unlock_user-SameTenant rejects t db id
        (user_rows rejects p t now request db id w plain closed h.0)
  perform-SameTenant now request s db (Call.reset_user_mfa id) w plain closed h =
      reset_user_mfa-SameTenant rejects t db id
  perform-SameTenant now request s db (Call.create_tenant_admin a) w plain closed h =
      absurd (cc (plain, h))
  perform-SameTenant now request s db (Call.delete_tenant_admin id) w plain closed h =
      absurd (cc (plain, h))
  perform-SameTenant now request s db (Call.clear_login_rate_limit id) w plain closed h =
      absurd (cc (plain, h.0))
  perform-SameTenant now request s db (Call.create_alias a) w plain closed h =
      create_alias-SameTenant rejects t db a
  perform-SameTenant now request s db (Call.update_alias a) w plain closed h =
      update_alias-SameTenant rejects t db a
  perform-SameTenant now request s db (Call.delete_alias id) w plain closed h =
      absurd (cc (plain, h))
  perform-SameTenant now request s db (Call.create_catch_all_route a) w plain closed h =
      create_catch_all_route-SameTenant rejects t db a
  perform-SameTenant now request s db (Call.update_catch_all_route a) w plain closed h =
      update_catch_all_route-SameTenant rejects t db a
  perform-SameTenant now request s db (Call.delete_catch_all_route id) w plain closed h =
      absurd (cc (plain, h))
  perform-SameTenant now request s db (Call.create_shared_mailbox_permission p') w plain closed h =
      create_shared_mailbox_permission-SameTenant rejects t db p'
  perform-SameTenant now request s db (Call.update_shared_mailbox_permission p') w plain closed h =
      update_shared_mailbox_permission-SameTenant rejects t db p'
  perform-SameTenant now request s db (Call.delete_shared_mailbox_permission id) w plain closed h =
      absurd (cc (plain, h))
  perform-SameTenant now request s db (Call.update_tenant_policy p') w plain closed h =
      update_tenant_policy-SameTenant rejects t db p' (writable_apart p p'.tenant_id t h closed)
  perform-SameTenant now request s db (Call.update_domain_tls_settings a) w plain closed h =
      kept rejects t db
  perform-SameTenant now request s db (Call.create_tls_certificate_job a) w plain closed h =
      kept rejects t db
  perform-SameTenant now request s db (Call.update_mail_server_settings a) w plain closed h =
      kept rejects t db
  perform-SameTenant now request s db (Call.save_cloudflare_config id zone token) w plain closed h =
      kept rejects t db
  perform-SameTenant now request s db (Call.apply_cloudflare_dns id replace) w plain closed h =
      kept rejects t db
  perform-SameTenant now request s db (Call.resolve_quarantine_event id status note) w plain closed
        h =
      kept rejects t db

  act-SameTenant :
      (queued : Bool) (now : ℕ) (request : Request) (state : State)
      (planned : Outcome Call × Option Manager)
      → IsWellFormed state.database
      → p.is_super ≡ false
      → can_write_tenant p t ≡ false
      → ((call : Call)
          → planned.0 ≡ go call
          → Permitted hash state.sessions (context rejects p now request state.database) call)
      → SameTenant t state.database (act rejects elsewhere queued state planned).0.database
  unfolding act
  act-SameTenant queued now request state (stop status, s) w plain closed permitted =
      kept rejects t state.database
  act-SameTenant queued now request state (go call, s) w plain closed permitted =
      let same =
        perform-SameTenant now request state.sessions state.database call w plain closed
          (permitted call refl) in
      subst (SameTenant t state.database)
        (sym (answer-database queued s state call (perform rejects elsewhere state.database call)))
        same

  -- Whatever a principal that is not the super administrator asks of the service, in a well-formed
  -- database, and whatever the database refuses: of every tenant that the principal cannot write, the
  -- rows of the tenant, of its policy, its domains, its users and its administrators stay as they are.
  pub serve-SameTenant :
      (outside : Outside) (queued : Bool) (now : ℕ) (request : Request) (e : Endpoint)
      (state : State)
      → IsWellFormed state.database
      → p.is_super ≡ false
      → can_write_tenant p t ≡ false
      → SameTenant t state.database
          (serve rejects hash outside elsewhere queued p now request e state).0.database
  unfolding serve
  serve-SameTenant outside queued now request e state w plain closed =
      act-SameTenant queued now request state _ w plain closed (
        plan-Permitted hash outside state.sessions (context rejects p now request state.database) e)
