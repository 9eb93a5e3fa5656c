-- ===== src/Admin/Service/Effects.antt =====
-- What the service keeps of its database.
use pro_identity_mail.Prelude.{ℕ, ◌≡◌, refl, List, [], ◌∷◌, Bool, Option, subst, sym}
use pro_identity_mail.Text.{Text}
use pro_identity_mail.Session.Manager.{Manager, Request}
use pro_identity_mail.Admin.Calls.{Call}
use pro_identity_mail.Admin.Access.{AdminPrincipal}
use pro_identity_mail.Admin.SqlStore.{
  Database, Statement, Result, done, missing, failed, other_error, Stored,
}
use pro_identity_mail.Admin.SqlStore.WellFormed.{IsWellFormed}
use pro_identity_mail.Admin.SqlStore.WellFormed.Accounts.{
  create_domain-IsWellFormed, create_user-IsWellFormed,
}
use pro_identity_mail.Admin.SqlStore.WellFormed.Calls.{exec-IsWellFormed}
use pro_identity_mail.Admin.Handlers.{Outcome, stop, go}
use pro_identity_mail.Admin.Handlers.Endpoints.{Outside, Endpoint}
use pro_identity_mail.Admin.Service.{
  State, and_then, create_shared_mailboxes, perform, answer, act, serve,
}

pub answer-database :
    (queued : Bool) (s : Option Manager) (state : State) (call : Call) (st : Stored)
    → (answer queued s state call st).0.database ≡ st.0
unfolding answer
answer-database queued s state call (db, done) = refl
answer-database queued s state call (db, missing) = refl
answer-database queued s state call (db, failed) = refl
answer-database queued s state call (db, other_error status) = refl

module _ (rejects : Database → Statement → Bool) where
  mailboxes-IsWellFormed :
      (tenant domain : ℕ) (boxes : List (Text × Text)) (st : Stored)
      → IsWellFormed st.0
      → IsWellFormed (and_then st (create_shared_mailboxes rejects tenant domain boxes)).0
  unfolding and_then create_shared_mailboxes
  mailboxes-IsWellFormed tenant domain [] (db, done) w = w
  mailboxes-IsWellFormed tenant domain ((local_part, display_name) ∷ rest) (db, done) w =
      mailboxes-IsWellFormed tenant domain rest _ (create_user-IsWellFormed rejects db _ w)
  mailboxes-IsWellFormed tenant domain boxes (db, missing) w = w
  mailboxes-IsWellFormed tenant domain boxes (db, failed) w = w
  mailboxes-IsWellFormed tenant domain boxes (db, other_error status) w = w

  perform-IsWellFormed :
      (elsewhere : Database → Call → Result) (db : Database) (call : Call)
      → IsWellFormed db
      → IsWellFormed (perform rejects elsewhere db call).0
  unfolding perform
  perform-IsWellFormed elsewhere db (Call.create_tenant t) w =
      exec-IsWellFormed rejects elsewhere db (Call.create_tenant t) w
  perform-IsWellFormed elsewhere db (Call.update_tenant t) w =
      exec-IsWellFormed rejects elsewhere db (Call.update_tenant t) w
  perform-IsWellFormed elsewhere db (Call.delete_tenant id) w =
      exec-IsWellFormed rejects elsewhere db (Call.delete_tenant id) w
  perform-IsWellFormed elsewhere db (Call.create_domain d) w =
      mailboxes-IsWellFormed d.tenant_id db.domains.next _ _
        (create_domain-IsWellFormed rejects db d w)
  perform-IsWellFormed elsewhere db (Call.update_domain d) w =
      exec-IsWellFormed rejects elsewhere db (Call.update_domain d) w
  perform-IsWellFormed elsewhere db (Call.delete_domain id) w =
      exec-IsWellFormed rejects elsewhere db (Call.delete_domain id) w
  perform-IsWellFormed elsewhere db (Call.create_user u) w =
      exec-IsWellFormed rejects elsewhere db (Call.create_user u) w
  perform-IsWellFormed elsewhere db (Call.update_user u) w =
      exec-IsWellFormed rejects elsewhere db (Call.update_user u) w
  perform-IsWellFormed elsewhere db (Call.delete_user id) w =
      exec-IsWellFormed rejects elsewhere db (Call.delete_user id) w
  perform-IsWellFormed elsewhere db (Call.unlock_user id) w =
      exec-IsWellFormed rejects elsewhere db (Call.unlock_user id) w
  perform-IsWellFormed elsewhere db (Call.reset_user_mfa id) w =
      exec-IsWellFormed rejects elsewhere db (Call.reset_user_mfa id) w
  perform-IsWellFormed elsewhere db (Call.create_tenant_admin a) w =
      exec-IsWellFormed rejects elsewhere db (Call.create_tenant_admin a) w
  perform-IsWellFormed elsewhere db (Call.delete_tenant_admin id) w =
      exec-IsWellFormed rejects elsewhere db (Call.delete_tenant_admin id) w
  perform-IsWellFormed elsewhere db (Call.clear_login_rate_limit id) w =
      exec-IsWellFormed rejects elsewhere db (Call.clear_login_rate_limit id) w
  perform-IsWellFormed elsewhere db (Call.create_alias a) w =
      exec-IsWellFormed rejects elsewhere db (Call.create_alias a) w
  perform-IsWellFormed elsewhere db (Call.update_alias a) w =
      exec-IsWellFormed rejects elsewhere db (Call.update_alias a) w
  perform-IsWellFormed elsewhere db (Call.delete_alias id) w =
      exec-IsWellFormed rejects elsewhere db (Call.delete_alias id) w
  perform-IsWellFormed elsewhere db (Call.create_catch_all_route a) w =
      exec-IsWellFormed rejects elsewhere db (Call.create_catch_all_route a) w
  perform-IsWellFormed elsewhere db (Call.update_catch_all_route a) w =
      exec-IsWellFormed rejects elsewhere db (Call.update_catch_all_route a) w
  perform-IsWellFormed elsewhere db (Call.delete_catch_all_route id) w =
      exec-IsWellFormed rejects elsewhere db (Call.delete_catch_all_route id) w
  perform-IsWellFormed elsewhere db (Call.create_shared_mailbox_permission p) w =
      exec-IsWellFormed rejects elsewhere db (Call.create_shared_mailbox_permission p) w
  perform-IsWellFormed elsewhere db (Call.update_shared_mailbox_permission p) w =
      exec-IsWellFormed rejects elsewhere db (Call.update_shared_mailbox_permission p) w
  perform-IsWellFormed elsewhere db (Call.delete_shared_mailbox_permission id) w =
      exec-IsWellFormed rejects elsewhere db (Call.delete_shared_mailbox_permission id) w
  perform-IsWellFormed elsewhere db (Call.update_tenant_policy p) w =
      exec-IsWellFormed rejects elsewhere db (Call.update_tenant_policy p) w
  perform-IsWellFormed elsewhere db (Call.update_domain_tls_settings a) w =
      exec-IsWellFormed rejects elsewhere db (Call.update_domain_tls_settings a) w
  perform-IsWellFormed elsewhere db (Call.create_tls_certificate_job a) w =
      exec-IsWellFormed rejects elsewhere db (Call.create_tls_certificate_job a) w
  perform-IsWellFormed elsewhere db (Call.update_mail_server_settings a) w =
      exec-IsWellFormed rejects elsewhere db (Call.update_mail_server_settings a) w
  perform-IsWellFormed elsewhere db (Call.save_cloudflare_config id zone token) w =
      exec-IsWellFormed rejects elsewhere db (Call.save_cloudflare_config id zone token) w
  perform-IsWellFormed elsewhere db (Call.apply_cloudflare_dns id replace) w =
      exec-IsWellFormed rejects elsewhere db (Call.apply_cloudflare_dns id replace) w
  perform-IsWellFormed elsewhere db (Call.resolve_quarantine_event id status note) w =
      exec-IsWellFormed rejects elsewhere db (Call.resolve_quarantine_event id status note) w

  act-IsWellFormed :
      (elsewhere : Database → Call → Result) (queued : Bool) (state : State)
      (planned : Outcome Call × Option Manager)
      → IsWellFormed state.database
      → IsWellFormed (act rejects elsewhere queued state planned).0.database
  unfolding act
  act-IsWellFormed elsewhere queued state (stop status, s) w = w
  act-IsWellFormed elsewhere queued state (go call, s) w =
      subst IsWellFormed
        (sym (answer-database queued s state call (perform rejects elsewhere state.database call)))
        (perform-IsWellFormed elsewhere state.database call w)

  -- The tables stay ones whose numbers are distinct and below the next.
  serve-IsWellFormed :
      (hash : Text → Text) (outside : Outside) (elsewhere : Database → Call → Result)
      (queued : Bool) (p : AdminPrincipal) (now : ℕ) (request : Request) (e : Endpoint)
      (state : State)
      → IsWellFormed state.database
      → IsWellFormed (serve rejects hash outside elsewhere queued p now request e state).0.database
  unfolding serve
  serve-IsWellFormed hash outside elsewhere queued p now request e state w =
      act-IsWellFormed elsewhere queued state _ w
