-- ===== src/Admin/Access.antt =====
-- The access checks of the administration service (internal/admin/handlers.go). A check of a request
-- returns what it answers; `passes` and `allowed` stand for the handler behind it. The store is a
-- parameter: what its calls return, `none` for an error.
pub mod Filter
pub mod Gate
pub mod Grants
use pro_identity_mail.Prelude.{
  ℕ, List, [], ◌∷◌, Bool, true, false, ◌&&◌, ◌||◌, not, Option, none, some, ◌==◌, if◌then◌else◌,
  keep,
}
use pro_identity_mail.Text.{Text, codes, text_eq, equal_fold, to_lower, trim_space, is_empty}
use pro_identity_mail.Admin.Models.{TenantAdmin, Tenant, Domain, User}
use pro_identity_mail.Session.Manager.{
  Session, Manager, Request, validate, validate_unsafe, has_recent_step_up,
}

pub record AdminPrincipal : Type 0 where
  pub subject : Text
  pub is_super : Bool
  pub grants : List TenantAdmin

-- `sessions` is `none` where the configuration has no manager.
pub record AuthConfig : Type 0 where
  pub username : Text
  pub password : Text
  pub sessions : Option Manager

-- `csrf_required` is status 403; `unauthorized` and, with a header, `challenge` are status 401.
pub data Answer : Type 0 where
  passes : AdminPrincipal → Answer
  csrf_required unauthorized challenge : Answer

-- `forbidden` is status 403, `not_found` 404, and `store_failed` what the error of the store makes.
pub data Decision : Type 0 where
  allowed forbidden not_found store_failed : Decision

unfoldable pub normalize_tenant_admin_role : Text → Text
normalize_tenant_admin_role value =
    if text_eq (to_lower (trim_space value)) (codes "read_only")
    then codes "read_only"
    else codes "tenant_admin"

-- the loop of `adminPrincipalForSubject`
unfoldable pub active_grants : List TenantAdmin → List TenantAdmin
active_grants [] = []
active_grants (g ∷ gs) =
    let active = active_grants gs in
    if g.tenant_id == 0 || not (equal_fold g.status (codes "active"))
    then active
    else record g { role = normalize_tenant_admin_role g.role } ∷ active

principal_of : Text → List TenantAdmin → Option AdminPrincipal
principal_of subject [] = none
principal_of subject (g ∷ gs) =
    some (record { subject = subject; is_super = false; grants = g ∷ gs })

granted : Text → Option (List TenantAdmin) → Option AdminPrincipal
unfolding principal_of
granted subject none = none
granted subject (some grants) = principal_of subject (active_grants grants)

-- `none` in the place of the store: it does not implement `TenantAdminGrantStore`.
from_store : Text → Option (Text → Option (List TenantAdmin)) → Option AdminPrincipal
unfolding granted
from_store subject none = none
from_store subject (some get_tenant_admin_grants) =
    granted subject (get_tenant_admin_grants subject)

unfoldable pub admin_principal_for_subject :
    AuthConfig → Option (Text → Option (List TenantAdmin)) → Text → Option AdminPrincipal
unfolding from_store
admin_principal_for_subject auth store value =
    let subject = to_lower (trim_space value) in
    if is_empty subject
    then none
    else if equal_fold subject (trim_space auth.username)
    then some (record { subject = subject; is_super = true; grants = [] })
    else from_store subject store

is_active_in : ℕ → TenantAdmin → Bool
is_active_in tenant g = g.tenant_id == tenant && equal_fold g.status (codes "active")

reads_one : ℕ → List TenantAdmin → Bool
unfolding is_active_in
reads_one tenant [] = false
reads_one tenant (g ∷ gs) = is_active_in tenant g || reads_one tenant gs

unfoldable pub can_read_tenant : AdminPrincipal → ℕ → Bool
unfolding reads_one
can_read_tenant p tenant = p.is_super || reads_one tenant p.grants

writes_one : ℕ → List TenantAdmin → Bool
unfolding is_active_in
writes_one tenant [] = false
writes_one tenant (g ∷ gs) =
    (is_active_in tenant g && text_eq (normalize_tenant_admin_role g.role) (codes "tenant_admin"))
    || writes_one tenant gs

unfoldable pub can_write_tenant : AdminPrincipal → ℕ → Bool
unfolding writes_one
can_write_tenant p tenant = p.is_super || writes_one tenant p.grants

-- the methods that need no token
unfoldable pub safe_method : Text → Bool
safe_method method =
    text_eq method (codes "GET")
    || text_eq method (codes "HEAD")
    || text_eq method (codes "OPTIONS")

answer_of : Option AdminPrincipal → Answer
answer_of none = unauthorized
answer_of (some p) = passes p

with_basic : AuthConfig → Option (Text × Text) → Answer
with_basic auth none = challenge
with_basic auth (some (username, password)) =
    if text_eq username auth.username && text_eq password auth.password
    then passes (record { subject = username; is_super = true; grants = [] })
    else challenge

module _ (hash : Text → Text) (store : Option (Text → Option (List TenantAdmin))) where
  -- behind a session
  admit : AuthConfig → Session → Answer
  unfolding answer_of
  admit auth s =
      if text_eq s.kind (codes "admin")
      then answer_of (admin_principal_for_subject auth store s.subject)
      else unauthorized

  admit_or : Answer → AuthConfig → Option Session → Answer
  unfolding admit
  admit_or refused auth none = refused
  admit_or refused auth (some s) = admit auth s

  with_sessions :
      AuthConfig
      → ℕ
      → Text
      → Request
      → Option (Text × Text)
      → Option Manager
      → Option Manager × Answer
  unfolding with_basic
  with_sessions auth now method r basic none = (none, with_basic auth basic)
  with_sessions auth now method r basic (some m) =
      let (m1, safe) = validate hash m now r in
      let (m2, unsafe) = validate_unsafe hash m now r in
      if safe_method method
      then (some m1, admit_or unauthorized auth safe)
      else (some m2, admit_or csrf_required auth unsafe)

  -- The sessions after the check, and the answer; `basic` is what `BasicAuth` returns.
  unfoldable pub require_admin :
      AuthConfig → ℕ → Text → Request → Option (Text × Text) → Option Manager × Answer
  unfolding admit_or with_sessions
  require_admin auth now method r basic =
      if is_empty auth.username && is_empty auth.password
      then (
        auth.sessions,
        passes (record { subject = codes "development"; is_super = true; grants = [] }),
      )
      else with_sessions auth now method r basic auth.sessions

-- `requireAdminStepUp`: whether the handler goes on, else status 428
unfoldable pub require_admin_step_up :
    (Text → Text) → Option Manager → ℕ → Request → Option Manager × Bool
require_admin_step_up hash none now r = (none, true)
require_admin_step_up hash (some m) now r =
    let (m', recent) = has_recent_step_up hash m now r in (some m', recent)

unfoldable pub require_super_admin : AdminPrincipal → Decision
require_super_admin p = if p.is_super then allowed else forbidden

unfoldable pub require_tenant_read : AdminPrincipal → ℕ → Decision
require_tenant_read p tenant = if can_read_tenant p tenant then allowed else forbidden

unfoldable pub require_tenant_write : AdminPrincipal → ℕ → Decision
require_tenant_write p tenant = if can_write_tenant p tenant then allowed else forbidden

unfoldable pub filter_tenants_for_principal : List Tenant → AdminPrincipal → List Tenant
filter_tenants_for_principal items p =
    if p.is_super then items else keep (λ t. can_read_tenant p t.id) items

unfoldable pub filter_domains_for_principal : List Domain → AdminPrincipal → List Domain
filter_domains_for_principal items p =
    if p.is_super then items else keep (λ d. can_read_tenant p d.tenant_id) items

unfoldable pub filter_users_for_principal : List User → AdminPrincipal → List User
filter_users_for_principal items p =
    if p.is_super then items else keep (λ u. can_read_tenant p u.tenant_id) items

unfoldable pub tenant_of_domain : List Domain → ℕ → Option ℕ
tenant_of_domain [] id = none
tenant_of_domain (d ∷ ds) id = if d.id == id then some d.tenant_id else tenant_of_domain ds id

-- `none` is an error of the store, `some none` a domain that is not there.
unfoldable pub tenant_id_for_domain_id : Option (List Domain) → ℕ → Option (Option ℕ)
tenant_id_for_domain_id none id = none
tenant_id_for_domain_id (some domains) id = some (tenant_of_domain domains id)

unfoldable pub tenant_of_user : List User → ℕ → Option ℕ
tenant_of_user [] id = none
tenant_of_user (u ∷ us) id = if u.id == id then some u.tenant_id else tenant_of_user us id

unfoldable pub tenant_id_for_user_id : Option (List User) → ℕ → Option (Option ℕ)
tenant_id_for_user_id none id = none
tenant_id_for_user_id (some users) id = some (tenant_of_user users id)

unfoldable pub decide_by : (ℕ → Decision) → Option (Option ℕ) → Decision
decide_by on_tenant none = store_failed
decide_by on_tenant (some none) = not_found
decide_by on_tenant (some (some tenant)) = on_tenant tenant

unfoldable pub require_domain_read : Option (List Domain) → AdminPrincipal → ℕ → Decision
unfolding decide_by
require_domain_read domains p id =
    if p.is_super
    then allowed
    else decide_by (require_tenant_read p) (tenant_id_for_domain_id domains id)

unfoldable pub require_domain_write : Option (List Domain) → AdminPrincipal → ℕ → Decision
unfolding decide_by
require_domain_write domains p id =
    if p.is_super
    then allowed
    else decide_by (require_tenant_write p) (tenant_id_for_domain_id domains id)

unfoldable pub require_user_write : Option (List User) → AdminPrincipal → ℕ → Decision
unfolding decide_by
require_user_write users p id =
    if p.is_super
    then allowed
    else decide_by (require_tenant_write p) (tenant_id_for_user_id users id)
