-- ===== src/Admin/SqlStore.antt =====
-- The directory part of the administration's store (internal/admin/sql_store.go): tenants, domains,
-- users, their administrators, aliases, routes, permissions and policies. `rejects` is a parameter:
-- which statements the database refuses, by a constraint or a fault. The tables hold their rows newest
-- first, as the lists of the store do; numbers that a refused INSERT skips are not modelled.
pub mod Changes
pub mod Grants
pub mod Keeps
pub mod WellFormed
use pro_identity_mail.Prelude.{
  ℕ, List, [], ◌∷◌, ◌++◌, Bool, true, false, ◌&&◌, ◌||◌, not, Option, none, some, ◌==◌,
  if◌then◌else◌, keep, take, map, ltb,
}
use pro_identity_mail.Text.{Text, codes, text_eq, is_empty, to_lower, trim_space}
use pro_identity_mail.Admin.Models.{
  Tenant, Domain, User, TenantAdmin, Alias, CatchAllRoute, SharedMailboxPermission, TenantPolicy,
}
use pro_identity_mail.Admin.Access.{normalize_tenant_admin_role}
use pro_identity_mail.Admin.Calls.{Call}
use pro_identity_mail.Admin.Rows.{
  Table, insert_row, update_rows, update_where, delete_where, any_row, first_row, upsert,
}

pub record LimitRow : Type 0 where
  pub id : ℕ
  pub limiter_key : Text

pub record Database : Type 0 where
  pub tenants : Table Tenant
  pub tenant_policies : List TenantPolicy
  pub domains : Table Domain
  pub users : Table User
  pub tenant_admins : Table TenantAdmin
  pub aliases : Table Alias
  pub catch_all_routes : Table CatchAllRoute
  pub shared_mailbox_permissions : Table SharedMailboxPermission
  pub login_rate_limits : Table LimitRow

-- what the database may refuse: the change itself, the policy that follows a new tenant, the SELECT
-- that follows or precedes a change, and the lists
pub data Statement : Type 0 where
  change read_back : Call → Statement
  insert_policy : ℕ → Statement
  select_domains select_users : Statement

-- `missing` is `sql.ErrNoRows`; `other_error` has the status of the errors that are not the directory's
pub data Result : Type 0 where
  done missing failed : Result
  other_error : ℕ → Result

abbrev pub Stored : Type 0
Stored = Database × Result

abbrev pub lower_trim : Text → Text
lower_trim value = to_lower (trim_space value)

unfoldable pub normalize_tenant_admin_status : Text → Text
normalize_tenant_admin_status value =
    if text_eq (lower_trim value) (codes "disabled") then codes "disabled" else codes "active"

-- `execOne` of one statement: a row that is not there is no error
unfoldable pub exec_one : Bool → Database → Database → Stored
exec_one rejected before after = if rejected then (before, failed) else (after, done)

-- the `scan` functions after a change
unfoldable pub scan : Bool → Bool → Stored → Stored
scan broken found (db, done) = (db, (if broken then failed else if found then done else missing))
scan broken found (db, missing) = (db, missing)
scan broken found (db, failed) = (db, failed)
scan broken found (db, other_error status) = (db, other_error status)

unfoldable pub new_user : User → ℕ → User
new_user u id = record u {
  id = id;
  mailbox_type = if is_empty u.mailbox_type then codes "user" else u.mailbox_type;
  status = codes "active";
  quota_bytes = if u.quota_bytes == 0 then 10737418240 else u.quota_bytes;
}

-- The three UPDATE statements of `UpdateUser` differ in the hash.
unfoldable pub changed_user : User → User → User
changed_user u old = record u {
  id = old.id;
  local_part = lower_trim u.local_part;
  display_name = trim_space u.display_name;
  password_hash =
      if text_eq u.mailbox_type (codes "shared")
      then []
      else if is_empty u.password_hash
      then old.password_hash
      else u.password_hash;
}

-- `LIKE` with a pattern that has no backslash
unfoldable pub like_suffix : (Text → Bool) → Text → Bool
like_suffix rest [] = rest []
like_suffix rest (b ∷ s) = if rest (b ∷ s) then true else like_suffix rest s

unfoldable pub like_one : ℕ → (Text → Bool) → Text → Bool
like_one c rest [] = false
like_one c rest (b ∷ s) = if c == b'_' || c == b then rest s else false

unfoldable pub like : Text → Text → Bool
like [] s = is_empty s
like (c ∷ p) s = if c == b'%' then like_suffix (like p) s else like_one c (like p) s

-- the limits that `UnlockUser` deletes
unfoldable pub limit_of_email : Text → LimitRow → Bool
limit_of_email email r =
    like (codes "%|account|" ++ email) r.limiter_key
    || like (codes "%|pair|" ++ (email ++ codes "|%")) r.limiter_key
    || text_eq r.limiter_key (codes "webmail|account|" ++ email)
    || text_eq r.limiter_key (codes "dovecot|account|" ++ email)

unfoldable pub address_in : List Domain → User → Option Text
address_in domains u = elim (first_row (λ d. d.id == u.primary_domain_id) domains) [
  | none ↦ none
  | some d ↦ some (u.local_part ++ (codes "@" ++ d.name))
]

-- empty where the user or its domain is not there
unfoldable pub email_for_user : Database → ℕ → Text
email_for_user db id = elim (first_row (λ u. u.id == id) db.users.rows) [
  | none ↦ []
  | some u ↦ elim (address_in db.domains.rows u) [ none ↦ [] | some email ↦ lower_trim email ]
]

unfoldable pub set_policy : TenantPolicy → List TenantPolicy → List TenantPolicy
set_policy p ps =
    if any_row (λ q. q.tenant_id == p.tenant_id) ps
    then update_rows (λ q. q.tenant_id == p.tenant_id) (λ q. p) ps
    else p ∷ ps

-- the defaults of the table
unfoldable pub new_tenant_policy : ℕ → TenantPolicy
new_tenant_policy tenant = record {
  tenant_id = tenant;
  spam_action = codes "mark";
  malware_action = codes "quarantine";
  require_tls_for_auth = true;
}
