-- ===== src/Admin/Handlers.antt =====
-- The handlers of the administration service (internal/admin/handlers.go) up to their call of the
-- store. A handler stops with the status of its reply, or goes on with a value; the session manager
-- is its state, since the step-up check drops a session that has expired. A body is `none` where it
-- is not JSON of the shape; a number in the path is `none` where it is no number of 64 bits.
pub mod Ensures
pub mod Tenancy
pub mod Mailboxes
pub mod Routing
pub mod Services
pub mod Lists
pub mod Permitted
pub mod Endpoints
use pro_identity_mail.Prelude.{
  ℕ, List, [], ◌∷◌, Bool, true, false, ◌||◌, not, Option, none, some, ◌==◌, if◌then◌else◌,
}
use pro_identity_mail.Text.{Text, text_eq, is_empty, to_lower, trim_space}
use pro_identity_mail.Session.Manager.{Manager, Request}
use pro_identity_mail.Admin.Models.{Domain, User}
use pro_identity_mail.Admin.Access.{
  AdminPrincipal, Decision, allowed, forbidden, not_found, store_failed, require_admin_step_up,
}

pub data Outcome (A : Type 0) : Type 0 where
  stop : ℕ → Outcome A
  go : A → Outcome A

abbrev pub Handler : Type 0 → Type 0
Handler A = Option Manager → Outcome A × Option Manager

unfoldable pub continue :
    {A B : Type 0} → (A → Handler B) → Outcome A × Option Manager → Outcome B × Option Manager
continue f (stop status, s) = (stop status, s)
continue f (go a, s) = f a s

infixl 5 ◌>>=◌ ◌>>◌
unfoldable pub ◌>>=◌ : {A B : Type 0} → Handler A → (A → Handler B) → Handler B
unfolding continue
◌>>=◌ m f s = continue f (m s)

abbrev pub ◌>>◌ : {A B : Type 0} → Handler A → Handler B → Handler B
m >> k = m >>= λ _. k

unfoldable pub pure : {A : Type 0} → A → Handler A
pure a s = (go a, s)

unfoldable pub stop_if : Bool → ℕ → Handler (Unit {0})
stop_if test status s = ((if test then stop status else go tt), s)

unfoldable pub some_or : {A : Type 0} → ℕ → Option A → Handler A
some_or status none s = (stop status, s)
some_or status (some a) s = (go a, s)

-- what a handler reads: who calls, at which time, by which request, and what the store lists, where
-- `none` is an error of the store. `has_store` is `h.store != nil`.
pub record Context : Type 0 where
  pub principal : AdminPrincipal
  pub now : ℕ
  pub request : Request
  pub has_store : Bool
  pub domains : Option (List Domain)
  pub users : Option (List User)

-- The status of a refusal. A list query has none of the errors that `writeStoreError` tells apart.
unfoldable pub permit : Decision → Handler (Unit {0})
permit allowed s = (go tt, s)
permit forbidden s = (stop 403, s)
permit not_found s = (stop 404, s)
permit store_failed s = (stop 500, s)

unfoldable pub have_store : Context → Handler (Unit {0})
unfolding stop_if
have_store c = stop_if (not c.has_store) 503

-- `parsePathUint`
unfoldable pub parse_path_uint : Option ℕ → Handler ℕ
parse_path_uint none s = (stop 400, s)
parse_path_uint (some id) s = ((if id == 0 then stop 400 else go id), s)

unfoldable pub valid_choice : Text → List Text → Bool
valid_choice value [] = false
valid_choice value (c ∷ cs) = text_eq value c || valid_choice value cs

abbrev pub choice : Text → Text
choice value = to_lower (trim_space value)

-- `if value == "" { value = fallback }`
abbrev pub or_text : Text → Text → Text
or_text value fallback = if is_empty value then fallback else value

-- The requests' steps that need the session manager.
unfoldable pub fresh_step_up : (Text → Text) → Context → Handler (Unit {0})
fresh_step_up hash c s =
    let (s', fresh) = require_admin_step_up hash s c.now c.request in
    ((if fresh then go tt else stop 428), s')
