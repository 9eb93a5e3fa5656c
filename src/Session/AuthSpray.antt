-- ===== src/Session/AuthSpray.antt =====
-- The alert on one client that fails against many accounts: `recordAuthSprayAlert`
-- (internal/session/sql_limiter.go). The sample of accounts is in the order of the rows; in the
-- program it is in that of a Go map, which is any.
pub mod Counted
pub mod Threshold
pub mod Cooldown
use pro_identity_mail.Prelude.{
  ℕ, suc, ◌+◌, ◌*◌, List, [], ◌∷◌, ◌++◌, Bool, true, false, ◌&&◌, ◌||◌, Option, none, some, leb,
  ltb, if◌then◌else◌, length, take,
}
use pro_identity_mail.Text.{Text, codes, text_eq, contains}
use pro_identity_mail.Session.Keys.{PairLimiterKey, parse_pair_limiter_key}
use pro_identity_mail.Session.Penalty.{minute}
use pro_identity_mail.Session.Tables.{SqlLoginLimiter, RateRow, AuditRow, Db, Faults}

abbrev auth_spray_alert_action : Text
auth_spray_alert_action = codes "security.alert.auth_spray"

abbrev pub auth_spray_distinct_account_threshold : ℕ
auth_spray_distinct_account_threshold = 5

abbrev pub auth_spray_window : ℕ
auth_spray_window = minute

abbrev pub auth_spray_alert_cooldown : ℕ
auth_spray_alert_cooldown = 5 * minute

abbrev auth_spray_max_sample_accounts : ℕ
auth_spray_max_sample_accounts = 5

-- `last_failed_at >= since`, false on NULL; `since` is `now` less the window, so that the window is
-- added here
unfoldable pub failed_since : Option ℕ → ℕ → ℕ → Bool
failed_since none now window = false
failed_since (some at) now window = leb now (at + window)

-- the WHERE clause of the scan
unfoldable pub is_scanned : SqlLoginLimiter → ℕ → Text → Text → RateRow → Bool
unfolding failed_since
is_scanned l now service key row =
    text_eq service l.service
    && failed_since row.last_failed_at now auth_spray_window
    && contains key (codes "|pair|")

unfoldable pub account_of : Text → Option PairLimiterKey → Option Text
account_of client none = none
account_of client (some candidate) =
    if text_eq candidate.client client then some candidate.account else none

unfoldable pub has_account : List Text → Text → Bool
has_account [] account = false
has_account (a ∷ accounts) account = text_eq a account || has_account accounts account

add_account : List Text → Option Text → List Text
unfolding has_account
add_account accounts none = accounts
add_account accounts (some a) = if has_account accounts a then accounts else accounts ++ (a ∷ [])

-- the loop over the rows
accounts_from : SqlLoginLimiter → ℕ → Text → List Text → List ((Text × Text) × RateRow) → List Text
unfolding is_scanned account_of add_account
accounts_from l now client accounts [] = accounts
accounts_from l now client accounts (((service, key), row) ∷ rows) =
    accounts_from l now client
      (if is_scanned l now service key row
        then add_account accounts (account_of client (parse_pair_limiter_key key))
        else accounts)
      rows

unfoldable pub distinct_accounts : SqlLoginLimiter → Db → ℕ → Text → List Text
unfolding accounts_from
distinct_accounts l db now client = accounts_from l now client [] db.rates

-- An alert for the client and the service that is no older than the cooldown.
unfoldable pub has_recent_alert : List AuditRow → Text → Text → ℕ → Bool
has_recent_alert [] service client now = false
has_recent_alert (a ∷ audits) service client now =
    (text_eq a.action auth_spray_alert_action
      && text_eq a.target_type (codes "client_ip")
      && text_eq a.target_id client
      && leb now (a.created_at + auth_spray_alert_cooldown)
      && text_eq a.service service)
    || has_recent_alert audits service client now

unfoldable pub alert_row : SqlLoginLimiter → Text → ℕ → List Text → AuditRow
alert_row l client now accounts = record {
  action = auth_spray_alert_action;
  target_type = codes "client_ip";
  target_id = client;
  created_at = now;
  service = l.service;
  distinct_accounts = length accounts;
  sample_accounts = take auth_spray_max_sample_accounts accounts;
}

-- the body for a client that is known
spray_alert : SqlLoginLimiter → Db → Text → ℕ → Faults → Db
unfolding distinct_accounts has_recent_alert alert_row
spray_alert l db client now f =
    let accounts = distinct_accounts l db now client in
    if f.scan || ltb (length accounts) auth_spray_distinct_account_threshold
    then db
    else if f.cooldown || has_recent_alert db.audit_events l.service client now || f.alert
    then db
    else record db { audit_events = db.audit_events ++ (alert_row l client now accounts ∷ []) }

alert_pair : SqlLoginLimiter → Db → ℕ → Faults → Option PairLimiterKey → Db
unfolding spray_alert
alert_pair l db now f none = db
alert_pair l db now f (some pair) =
    if text_eq pair.client (codes "unknown") then db else spray_alert l db pair.client now f

unfoldable pub record_auth_spray_alert : SqlLoginLimiter → Db → Text → ℕ → Faults → Db
unfolding alert_pair
record_auth_spray_alert l db key now f = alert_pair l db now f (parse_pair_limiter_key key)
