-- ===== src/Admin/Service/NewDomain.antt =====
-- `createDomain` (internal/admin/handlers.go) with the mailboxes that it adds to every new domain.
use pro_identity_mail.Prelude.{
  ℕ, suc, ◌≡◌, refl, ◌∙◌, List, [], ◌∷◌, Bool, true, false, ◌||◌, Option, some, ◌==◌,
}
use pro_identity_mail.Text.{Text, codes, is_empty}
use pro_identity_mail.Session.Manager.{Manager, Request}
use pro_identity_mail.Admin.Models.{Domain, User}
use pro_identity_mail.Admin.Calls.{Call}
use pro_identity_mail.Admin.Access.{AdminPrincipal, can_write_tenant, require_tenant_write}
use pro_identity_mail.Admin.Names.{normalize_domain_name}
use pro_identity_mail.Admin.Rows.{insert_row}
use pro_identity_mail.Admin.SqlStore.{Database, Statement, Result, done, exec_one, new_user}
use pro_identity_mail.Admin.SqlStore.Changes.{create_user, create_domain}
use pro_identity_mail.Admin.Handlers.{
  Context, go, continue, ◌>>=◌, pure, stop_if, some_or, permit, have_store,
}
use pro_identity_mail.Admin.Handlers.Mailboxes.{DomainBody}
use pro_identity_mail.Admin.Handlers.Mailboxes
use pro_identity_mail.Admin.Handlers.Endpoints.{Outside, Endpoint, plan}
use pro_identity_mail.Admin.Service.{
  State, and_then, create_shared_mailboxes, default_system_shared_mailboxes, perform, context,
  event, audits_of, success_status, answer, act, serve,
}

abbrev new_domain_row : ℕ → ℕ → Text → Domain
new_domain_row id tenant name = record {
  id = id;
  tenant_id = tenant;
  name = name;
  status = codes "active";
  dkim_selector = codes "mail";
}

-- a shared mailbox of 1 GiB that nobody can log in to
abbrev pub shared_box : ℕ → ℕ → ℕ → Text → Text → User
shared_box id tenant domain local_part display_name = record {
  id = id;
  tenant_id = tenant;
  primary_domain_id = domain;
  local_part = local_part;
  display_name = display_name;
  mailbox_type = codes "shared";
  password_hash = [];
  status = codes "active";
  quota_bytes = 1073741824;
}

-- The database with the new domain of a tenant and its mailboxes, newest first.
abbrev pub with_domain : ℕ → Text → Database → Database
with_domain tenant name db =
    let d = db.domains.next in
    let u = db.users.next in
    record db {
      domains = record { rows = new_domain_row d tenant name ∷ db.domains.rows; next = suc d };
      users = record {
        rows =
            shared_box (suc (suc (suc u))) tenant d (codes "tlsrpt") (codes "TLS Reports")
            ∷ shared_box (suc (suc u)) tenant d (codes "dmarc") (codes "DMARC Reports")
            ∷ shared_box (suc u) tenant d (codes "abuse") (codes "Abuse Desk")
            ∷ shared_box u tenant d (codes "postmaster") (codes "Postmaster")
            ∷ db.users.rows;
        next = suc (suc (suc (suc u)));
      };
    }

-- the change that a good body asks for
abbrev asked_domain : ℕ → Text → Domain
asked_domain tenant name = record {
  id = 0;
  tenant_id = tenant;
  name = name;
  status = [];
  dkim_selector = [];
}

create_domain-goes :
    (c : Context) (req : DomainBody) (name : Text) (s : Option Manager)
    → c.has_store ≡ true
    → normalize_domain_name req.name ≡ some name
    → (req.tenant_id == 0 || is_empty name) ≡ false
    → can_write_tenant c.principal req.tenant_id ≡ true
    → Mailboxes.create_domain c (some req) s
      ≡ (go (Call.create_domain (asked_domain req.tenant_id name)), s)
unfolding Mailboxes.create_domain ◌>>=◌ continue pure stop_if some_or permit have_store
    require_tenant_write
create_domain-goes c req name s stored good full writes =
    simp (Mailboxes.create_domain, stored, good, full, writes)

module _ (rejects : Database → Statement → Bool)
    (accepts : (db : Database) (q : Statement) → rejects db q ≡ false) where
  abbrev with_box : ℕ → ℕ → Text → Text → Database → Database
  with_box tenant domain local_part display_name db = record db {
    users = insert_row (λ id. shared_box id tenant domain local_part display_name) db.users;
  }

  shared_mailbox-accepted :
      (tenant domain : ℕ) (local_part display_name : Text) (rest : List (Text × Text))
      (db : Database)
      → create_shared_mailboxes rejects tenant domain ((local_part, display_name) ∷ rest) db
        ≡ create_shared_mailboxes rejects tenant domain rest
            (with_box tenant domain local_part display_name db)
  unfolding create_shared_mailboxes create_user exec_one and_then insert_row new_user
  shared_mailbox-accepted tenant domain local_part display_name rest db = rw accepts refl

  mailboxes-accepted :
      (tenant domain : ℕ) (db : Database)
      → let u = db.users.next in
        create_shared_mailboxes rejects tenant domain default_system_shared_mailboxes db ≡ (
          record db {
            users = record {
              rows =
                  shared_box
                    (suc (suc (suc u)))
                    tenant
                    domain
                    (codes "tlsrpt")
                    (codes "TLS Reports")
                  ∷ shared_box (suc (suc u)) tenant domain (codes "dmarc") (codes "DMARC Reports")
                  ∷ shared_box (suc u) tenant domain (codes "abuse") (codes "Abuse Desk")
                  ∷ shared_box u tenant domain (codes "postmaster") (codes "Postmaster")
                  ∷ db.users.rows;
              next = suc (suc (suc (suc u)));
            };
          },
          done,
        )
  unfolding default_system_shared_mailboxes create_shared_mailboxes insert_row
  mailboxes-accepted tenant domain db =
      let tls : List (Text × Text) = (codes "tlsrpt", codes "TLS Reports") ∷ [] in
      let reports : List (Text × Text) = (codes "dmarc", codes "DMARC Reports") ∷ tls in
      let others : List (Text × Text) = (codes "abuse", codes "Abuse Desk") ∷ reports in
      let step = shared_mailbox-accepted tenant domain in
      let one = with_box tenant domain (codes "postmaster") (codes "Postmaster") db in
      let two = with_box tenant domain (codes "abuse") (codes "Abuse Desk") one in
      let three = with_box tenant domain (codes "dmarc") (codes "DMARC Reports") two in
      step (codes "postmaster") (codes "Postmaster") others db
      ∙ step (codes "abuse") (codes "Abuse Desk") reports one
      ∙ step (codes "dmarc") (codes "DMARC Reports") tls two
      ∙ step (codes "tlsrpt") (codes "TLS Reports") [] three

  create_domain-accepted :
      (elsewhere : Database → Call → Result) (db : Database) (tenant : ℕ) (name : Text)
      → perform rejects elsewhere db (Call.create_domain (asked_domain tenant name))
        ≡ (with_domain tenant name db, done)
  unfolding perform create_domain exec_one and_then insert_row
  create_domain-accepted elsewhere db tenant name =
      rw accepts (mailboxes-accepted tenant db.domains.next _)

-- A request for a new domain, whose name is one, with a tenant that its principal can write, is
-- answered with 201 if the database takes every statement. Then the domain is added, active, with
-- the name in its normal form, and four active shared mailboxes of it without a password and with
-- 1 GiB each, `postmaster`, `abuse`, `dmarc` and `tlsrpt`; nothing else of the database changes, and
-- the audit gets one event, of that tenant.
pub serve-create_domain :
    (rejects : Database → Statement → Bool) (hash : Text → Text) (outside : Outside)
    (elsewhere : Database → Call → Result) (queued : Bool) (p : AdminPrincipal) (now : ℕ)
    (request : Request) (state : State) (req : DomainBody) (name : Text)
    → ((db : Database) (q : Statement) → rejects db q ≡ false)
    → normalize_domain_name req.name ≡ some name
    → (req.tenant_id == 0 || is_empty name) ≡ false
    → can_write_tenant p req.tenant_id ≡ true
    → serve rejects hash outside elsewhere queued p now request
        (Endpoint.create_domain (some req))
        state
      ≡ (
        record {
          sessions = state.sessions;
          database = with_domain req.tenant_id name state.database;
          audits =
              event (some req.tenant_id) (codes "domain.create") (codes "domain") ∷ state.audits;
        },
        201,
      )
unfolding serve plan act context answer audits_of success_status
serve-create_domain rejects hash outside elsewhere queued p now request state req name accepts good
      full writes =
    let c = context rejects p now request state.database in
    let goes = create_domain-goes c req name state.sessions refl good full writes in
    let took = create_domain-accepted rejects accepts elsewhere state.database req.tenant_id name in
    rw goes (rw took refl)
