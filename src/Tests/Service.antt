-- ===== src/Tests/Service.antt =====
-- Runs of the administration's endpoints on a small directory.
use pro_identity_mail.Prelude.{
  ℕ, ◌≡◌, ◌≢◌, refl, ◌↔◌, [], ◌∷◌, Bool, true, false, ◌||◌, ◌==◌, arith, none, some, In,
}
use pro_identity_mail.Text.{Text, codes, is_empty, trim_space}
use pro_identity_mail.Tests.Sessions.{digest, request}
use pro_identity_mail.Admin.Models.{
  CatchAllRoute, SharedMailboxPermission, Tenant, Domain, User, TenantAdmin, Alias,
}
use pro_identity_mail.Admin.Calls.{Call}
use pro_identity_mail.Admin.Access.{AdminPrincipal, can_write_tenant}
use pro_identity_mail.Admin.Names.{
  normalize_domain_name, normalize_local_part, normalize_address_list,
}
use pro_identity_mail.Admin.Rows.{Table}
use pro_identity_mail.Admin.SqlStore.{
  Database, Statement, LimitRow, Result, done, like, new_tenant_policy,
}
use pro_identity_mail.Admin.SqlStore.Changes.{delete_user, delete_tenant}
use pro_identity_mail.Admin.SqlStore.Grants.{get_tenant_admin_grants}
use pro_identity_mail.Admin.SqlStore.Grants.Revoked.{delete_user-grants, delete_tenant-grants}
use pro_identity_mail.Admin.SqlStore.WellFormed.{IsWellFormed}
use pro_identity_mail.Admin.Handlers.{Outcome, go, Context}
use pro_identity_mail.Admin.Handlers.Routing.{AliasBody}
use pro_identity_mail.Admin.Handlers.Mailboxes.{DomainBody}
use pro_identity_mail.Admin.Handlers.Lists.{
  list_aliases, list_catch_all_routes, list_shared_mailbox_permissions, list_tenant_policies,
}
use pro_identity_mail.Admin.Handlers.Lists.Readable.{Shows, lists-Shows}
use pro_identity_mail.Admin.Handlers.Endpoints.{Outside, Endpoint, plan}
use pro_identity_mail.Admin.Service.{State, context, event, serve}
use pro_identity_mail.Admin.Service.Isolation.{SameTenant}
use pro_identity_mail.Admin.Service.Isolation.Requests.{serve-SameTenant}
use pro_identity_mail.Admin.Service.NewDomain.{with_domain, serve-create_domain}
use pro_identity_mail.Admin.Service.Takeover.{AliasOf, serve-takes_over}

abbrev tenant_row : ℕ → Tenant
tenant_row id = record { id = id; name = codes "T"; slug = codes "t"; status = codes "active" }

abbrev domain_row : ℕ → Text → Domain
domain_row id name = record {
  id = id;
  tenant_id = id;
  name = name;
  status = codes "active";
  dkim_selector = codes "mail";
}

abbrev user_row : ℕ → Text → User
user_row id local_part = record {
  id = id;
  tenant_id = id;
  primary_domain_id = id;
  local_part = local_part;
  display_name = [];
  mailbox_type = codes "user";
  password_hash = codes "h";
  status = codes "active";
  quota_bytes = 1;
}

abbrev admin_row : TenantAdmin
admin_row = record {
  id = 1;
  tenant_id = 1;
  user_id = 1;
  role = codes "tenant_admin";
  status = codes "active";
}

abbrev alias_row : Alias
alias_row = record {
  id = 7;
  tenant_id = 2;
  domain_id = 2;
  source_local_part = codes "sales";
  destination = codes "carol@b.example";
}

abbrev limit_row : LimitRow
limit_row = record { id = 1; limiter_key = codes "webmail|account|bob@a.example" }

-- the tenants 1 and 2, of which bob administers the first
abbrev directory : Database
directory = record {
  tenants = record { rows = tenant_row 2 ∷ tenant_row 1 ∷ []; next = 3 };
  tenant_policies = new_tenant_policy 2 ∷ new_tenant_policy 1 ∷ [];
  domains = record {
    rows = domain_row 2 (codes "b.example") ∷ domain_row 1 (codes "a.example") ∷ [];
    next = 3;
  };
  users = record { rows = user_row 2 (codes "carol") ∷ user_row 1 (codes "bob") ∷ []; next = 3 };
  tenant_admins = record { rows = admin_row ∷ []; next = 2 };
  aliases = record { rows = alias_row ∷ []; next = 8 };
  catch_all_routes = record { rows = []; next = 1 };
  shared_mailbox_permissions = record { rows = []; next = 1 };
  login_rate_limits = record { rows = limit_row ∷ []; next = 2 };
}

abbrev accepts : Database → Statement → Bool
accepts db statement = false

abbrev quiet : Database → Call → Result
quiet db call = done

abbrev outside : Outside
outside = record {
  hash_password = λ t. some t;
  parse_address = λ t. some t;
  is_ipv4 = λ t. true;
  is_ipv6 = λ t. false;
}

abbrev bob : AdminPrincipal
bob = record { subject = codes "bob@a.example"; is_super = false; grants = admin_row ∷ [] }

abbrev before : State
before = record { sessions = none; database = directory; audits = [] }

directory-IsWellFormed : IsWellFormed directory
unfolding IsWellFormed pro_identity_mail.Admin.Rows.Descending
directory-IsWellFormed = (
  (omega arith, (omega arith, tt)),
  (omega arith, (omega arith, tt)),
  (omega arith, (omega arith, tt)),
  (omega arith, tt),
  (omega arith, tt),
  tt,
  tt,
  (omega arith, tt),
)

bob_writes : can_write_tenant bob 1 ≡ true
unfolding can_write_tenant pro_identity_mail.Text.equal_fold pro_identity_mail.Text.text_eq
    pro_identity_mail.Admin.Access.normalize_tenant_admin_role pro_identity_mail.Text.trim_space
bob_writes = refl

bob_cannot : can_write_tenant bob 2 ≡ false
unfolding can_write_tenant
bob_cannot = refl

-- a request of bob
abbrev after : Endpoint → State × ℕ
after e = serve accepts digest outside quiet true bob 50 request e before

abbrev bobs : Context
bobs = context accepts bob 50 request directory

-- a domain of another tenant is refused, with status 403
refused : (after (Endpoint.delete_domain (some 2))).1 ≡ 403
unfolding plan context can_write_tenant pro_identity_mail.Admin.Handlers.◌>>=◌
    pro_identity_mail.Admin.Handlers.continue pro_identity_mail.Admin.Handlers.pure
    pro_identity_mail.Admin.Handlers.have_store pro_identity_mail.Admin.Handlers.stop_if
    pro_identity_mail.Admin.Handlers.some_or pro_identity_mail.Admin.Handlers.parse_path_uint
    pro_identity_mail.Admin.Handlers.permit pro_identity_mail.Admin.Handlers.fresh_step_up
    pro_identity_mail.Admin.Access.require_domain_write pro_identity_mail.Admin.Access.decide_by
    pro_identity_mail.Admin.Access.tenant_id_for_domain_id
    pro_identity_mail.Admin.Access.tenant_of_domain
    pro_identity_mail.Admin.Access.require_tenant_write
    pro_identity_mail.Admin.Access.require_admin_step_up
    pro_identity_mail.Admin.Access.normalize_tenant_admin_role
    pro_identity_mail.Admin.SqlStore.Grants.list_domains pro_identity_mail.Text.equal_fold
    pro_identity_mail.Text.text_eq pro_identity_mail.Text.trim_space pro_identity_mail.Text.to_lower
    pro_identity_mail.Admin.Handlers.Mailboxes.create_domain
    pro_identity_mail.Admin.Names.normalize_domain_name serve pro_identity_mail.Admin.Service.act
    pro_identity_mail.Admin.Service.perform pro_identity_mail.Admin.Service.and_then
    pro_identity_mail.Admin.Service.create_shared_mailboxes pro_identity_mail.Admin.Service.answer
    pro_identity_mail.Admin.Service.default_system_shared_mailboxes
    pro_identity_mail.Admin.SqlStore.Changes.create_domain
    pro_identity_mail.Admin.SqlStore.Changes.create_user pro_identity_mail.Admin.SqlStore.exec_one
    pro_identity_mail.Admin.SqlStore.new_user pro_identity_mail.Admin.Rows.insert_row
    pro_identity_mail.Admin.SqlStore.Changes.exec
    pro_identity_mail.Admin.Handlers.Mailboxes.delete_domain
    pro_identity_mail.Admin.Names.valid_dns_label pro_identity_mail.Admin.Names.valid_labels
    pro_identity_mail.Admin.Names.only pro_identity_mail.Admin.Names.starts_with
    pro_identity_mail.Admin.Names.ends_with pro_identity_mail.Text.split
    pro_identity_mail.Text.trim_suffix pro_identity_mail.Text.contains
    pro_identity_mail.Text.has_suffix pro_identity_mail.Text.has_prefix
    pro_identity_mail.Text.trim_left pro_identity_mail.Text.trim_right
    pro_identity_mail.Text.is_space pro_identity_mail.Text.lower_byte
refused = refl

-- a new domain has its four mailboxes
new_domain :
    (after (
      Endpoint.create_domain (
        some (record {
          tenant_id = 1;
          name = codes "New.Example";
          status = [];
          dkim_selector = [];
        })))).0.database.users.next
    ≡ 7
unfolding plan context can_write_tenant pro_identity_mail.Admin.Handlers.◌>>=◌
    pro_identity_mail.Admin.Handlers.continue pro_identity_mail.Admin.Handlers.pure
    pro_identity_mail.Admin.Handlers.have_store pro_identity_mail.Admin.Handlers.stop_if
    pro_identity_mail.Admin.Handlers.some_or pro_identity_mail.Admin.Handlers.parse_path_uint
    pro_identity_mail.Admin.Handlers.permit pro_identity_mail.Admin.Handlers.fresh_step_up
    pro_identity_mail.Admin.Access.require_domain_write pro_identity_mail.Admin.Access.decide_by
    pro_identity_mail.Admin.Access.tenant_id_for_domain_id
    pro_identity_mail.Admin.Access.tenant_of_domain
    pro_identity_mail.Admin.Access.require_tenant_write
    pro_identity_mail.Admin.Access.require_admin_step_up
    pro_identity_mail.Admin.Access.normalize_tenant_admin_role
    pro_identity_mail.Admin.SqlStore.Grants.list_domains pro_identity_mail.Text.equal_fold
    pro_identity_mail.Text.text_eq pro_identity_mail.Text.trim_space pro_identity_mail.Text.to_lower
    pro_identity_mail.Admin.Handlers.Mailboxes.create_domain
    pro_identity_mail.Admin.Names.normalize_domain_name serve pro_identity_mail.Admin.Service.act
    pro_identity_mail.Admin.Service.perform pro_identity_mail.Admin.Service.and_then
    pro_identity_mail.Admin.Service.create_shared_mailboxes pro_identity_mail.Admin.Service.answer
    pro_identity_mail.Admin.Service.default_system_shared_mailboxes
    pro_identity_mail.Admin.SqlStore.Changes.create_domain
    pro_identity_mail.Admin.SqlStore.Changes.create_user pro_identity_mail.Admin.SqlStore.exec_one
    pro_identity_mail.Admin.SqlStore.new_user pro_identity_mail.Admin.Rows.insert_row
    pro_identity_mail.Admin.SqlStore.Changes.exec pro_identity_mail.Admin.Names.valid_dns_label
    pro_identity_mail.Admin.Names.valid_labels pro_identity_mail.Admin.Names.only
    pro_identity_mail.Admin.Names.starts_with pro_identity_mail.Admin.Names.ends_with
    pro_identity_mail.Text.split pro_identity_mail.Text.trim_suffix pro_identity_mail.Text.contains
    pro_identity_mail.Text.has_suffix pro_identity_mail.Text.has_prefix
    pro_identity_mail.Text.trim_left pro_identity_mail.Text.trim_right
    pro_identity_mail.Text.is_space pro_identity_mail.Text.lower_byte
new_domain = refl

like_any : like (codes "%|account|b_b") (codes "x|account|bob") ≡ true
unfolding like pro_identity_mail.Admin.SqlStore.like_suffix
    pro_identity_mail.Admin.SqlStore.like_one
like_any = refl

abbrev asked : DomainBody
asked = record { tenant_id = 1; name = codes "New.example."; status = []; dkim_selector = [] }

name_kept : normalize_domain_name asked.name ≡ some (codes "new.example")
unfolding normalize_domain_name pro_identity_mail.Text.to_lower trim_space
    pro_identity_mail.Text.trim_suffix pro_identity_mail.Admin.Names.valid_labels
    pro_identity_mail.Admin.Names.valid_dns_label pro_identity_mail.Text.split
    pro_identity_mail.Text.contains pro_identity_mail.Admin.Names.starts_with
    pro_identity_mail.Admin.Names.ends_with pro_identity_mail.Admin.Names.only
name_kept = refl

serve-create_domain_example : after (Endpoint.create_domain (some asked)) ≡ (
  record {
    sessions = none;
    database = with_domain 1 (codes "new.example") directory;
    audits = event (some 1) (codes "domain.create") (codes "domain") ∷ [];
  },
  201,
)
serve-create_domain_example =
    serve-create_domain accepts digest outside quiet true bob 50 request before asked
      (codes "new.example") (λ db q. refl) name_kept refl bob_writes

serve-SameTenant_example : SameTenant 2 directory (after (Endpoint.delete_user (some 1))).0.database
serve-SameTenant_example =
    serve-SameTenant accepts quiet digest bob 2 outside true 50 request
      (Endpoint.delete_user (some 1)) before directory-IsWellFormed refl bob_cannot

abbrev stolen : AliasBody
stolen = record {
  tenant_id = 1;
  domain_id = 1;
  source_local_part = codes "Sales";
  destination = codes "bob@a.example";
}

source_kept : normalize_local_part stolen.source_local_part ≡ some (codes "sales")
unfolding normalize_local_part pro_identity_mail.Text.to_lower trim_space
    pro_identity_mail.Text.contains pro_identity_mail.Admin.Names.starts_with
    pro_identity_mail.Admin.Names.ends_with pro_identity_mail.Admin.Names.only
source_kept = refl

destination_kept :
    normalize_address_list outside.parse_address stolen.destination ≡ some (codes "bob@a.example")
unfolding normalize_address_list pro_identity_mail.Text.split pro_identity_mail.Text.replace_byte
    pro_identity_mail.Admin.Names.normalize_email_address trim_space normalize_local_part
    pro_identity_mail.Text.to_lower pro_identity_mail.Text.contains
    pro_identity_mail.Admin.Names.starts_with pro_identity_mail.Admin.Names.ends_with
    pro_identity_mail.Admin.Names.only pro_identity_mail.Admin.Names.normalize_domain_name
    pro_identity_mail.Text.trim_suffix pro_identity_mail.Admin.Names.valid_labels
    pro_identity_mail.Admin.Names.valid_dns_label pro_identity_mail.Text.join
destination_kept = refl

complete :
    (stolen.tenant_id == 0
      || stolen.domain_id == 0
      || is_empty (trim_space (codes "sales"))
      || is_empty (trim_space (codes "bob@a.example")))
    ≡ false
unfolding trim_space
complete = refl

deleted : (delete_user accepts directory 1).1 ≡ done
unfolding delete_user pro_identity_mail.Admin.SqlStore.exec_one
deleted = refl

suspended : (delete_tenant accepts directory 2).1 ≡ done
unfolding delete_tenant pro_identity_mail.Admin.SqlStore.exec_one
suspended = refl

serve-takes_over_example :
    AliasOf 7 1 (after (Endpoint.update_alias (some 7) (some stolen))).0.database
serve-takes_over_example =
    serve-takes_over accepts digest outside quiet true bob 50 request before 7 stolen
      (codes "sales") (codes "bob@a.example") (λ e. cc e) source_kept destination_kept complete
      bob_writes refl

delete_user-grants_example :
    In admin_row
      (get_tenant_admin_grants (delete_user accepts directory 1).0 (codes "bob@a.example"))
    ↔ (In admin_row (get_tenant_admin_grants directory (codes "bob@a.example")) × ◌≢◌ {A = ℕ} 1 1)
delete_user-grants_example =
    delete_user-grants accepts directory 1 (codes "bob@a.example") admin_row deleted

delete_tenant-grants_example :
    In admin_row
      (get_tenant_admin_grants (delete_tenant accepts directory 2).0 (codes "bob@a.example"))
    ↔ (In admin_row (get_tenant_admin_grants directory (codes "bob@a.example")) × ◌≢◌ {A = ℕ} 1 2)
delete_tenant-grants_example =
    delete_tenant-grants accepts directory 2 (codes "bob@a.example") admin_row suspended

shown_aliases : (list_aliases bobs (some (alias_row ∷ [])) none).0 ≡ go []
unfolding list_aliases pro_identity_mail.Admin.Handlers.◌>>=◌
    pro_identity_mail.Admin.Handlers.continue pro_identity_mail.Admin.Handlers.pure
    pro_identity_mail.Admin.Handlers.have_store pro_identity_mail.Admin.Handlers.stop_if
    pro_identity_mail.Admin.Handlers.some_or pro_identity_mail.Admin.Handlers.Lists.readable
    pro_identity_mail.Admin.Access.can_read_tenant context pro_identity_mail.Text.equal_fold
    pro_identity_mail.Text.to_lower pro_identity_mail.Text.text_eq pro_identity_mail.Prelude.keep
shown_aliases = refl

shown_routes : (list_catch_all_routes bobs (some []) none).0 ≡ go []
unfolding list_catch_all_routes pro_identity_mail.Admin.Handlers.◌>>=◌
    pro_identity_mail.Admin.Handlers.continue pro_identity_mail.Admin.Handlers.pure
    pro_identity_mail.Admin.Handlers.have_store pro_identity_mail.Admin.Handlers.stop_if
    pro_identity_mail.Admin.Handlers.some_or pro_identity_mail.Admin.Handlers.Lists.readable
    pro_identity_mail.Admin.Access.can_read_tenant context pro_identity_mail.Text.equal_fold
    pro_identity_mail.Text.to_lower pro_identity_mail.Text.text_eq pro_identity_mail.Prelude.keep
shown_routes = refl

shown_permissions : (list_shared_mailbox_permissions bobs (some []) none).0 ≡ go []
unfolding list_shared_mailbox_permissions pro_identity_mail.Admin.Handlers.◌>>=◌
    pro_identity_mail.Admin.Handlers.continue pro_identity_mail.Admin.Handlers.pure
    pro_identity_mail.Admin.Handlers.have_store pro_identity_mail.Admin.Handlers.stop_if
    pro_identity_mail.Admin.Handlers.some_or pro_identity_mail.Admin.Handlers.Lists.readable
    pro_identity_mail.Admin.Access.can_read_tenant context pro_identity_mail.Text.equal_fold
    pro_identity_mail.Text.to_lower pro_identity_mail.Text.text_eq pro_identity_mail.Prelude.keep
shown_permissions = refl

shown_policies :
    (list_tenant_policies bobs (some (new_tenant_policy 2 ∷ new_tenant_policy 1 ∷ [])) none).0
    ≡ go (new_tenant_policy 1 ∷ [])
unfolding list_tenant_policies pro_identity_mail.Admin.Handlers.◌>>=◌
    pro_identity_mail.Admin.Handlers.continue pro_identity_mail.Admin.Handlers.pure
    pro_identity_mail.Admin.Handlers.have_store pro_identity_mail.Admin.Handlers.stop_if
    pro_identity_mail.Admin.Handlers.some_or pro_identity_mail.Admin.Handlers.Lists.readable
    pro_identity_mail.Admin.Access.can_read_tenant context pro_identity_mail.Text.equal_fold
    pro_identity_mail.Text.to_lower pro_identity_mail.Text.text_eq pro_identity_mail.Prelude.keep
    new_tenant_policy
shown_policies = refl

lists-Shows_example :
    Shows (λ a. a.tenant_id) bob (some (alias_row ∷ [])) []
    × Shows {A = CatchAllRoute} (λ a. a.tenant_id) bob (some []) []
    × Shows {A = SharedMailboxPermission} (λ a. a.tenant_id) bob (some []) []
    × Shows
        (λ a. a.tenant_id)
        bob
        (some (new_tenant_policy 2 ∷ new_tenant_policy 1 ∷ []))
        (new_tenant_policy 1 ∷ [])
unfolding context
lists-Shows_example =
    lists-Shows bobs none (some (alias_row ∷ [])) (some []) (some [])
      (some (new_tenant_policy 2 ∷ new_tenant_policy 1 ∷ [])) [] [] [] (new_tenant_policy 1 ∷ [])
      shown_aliases shown_routes shown_permissions shown_policies
