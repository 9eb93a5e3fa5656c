-- ===== src/Tests/SharedLimits.antt =====
-- Runs of the limiter on the database, of its keys and of the alert.
use pro_identity_mail.Prelude.{
  ℕ, ◌*◌, ◌/◌, none, length, ◌+◌, ◌≤◌, ◌≡◌, ◌≢◌, refl, ◌⊎◌, ◌↔◌, List, [], ◌∷◌, ◌++◌, true, false,
  some, pos, ◌≤ℤ◌, All, Any, if◌then◌else◌,
}
use pro_identity_mail.Text.{Text, codes, text_eq}
use pro_identity_mail.Session.AuthSpray.{
  alert_row, distinct_accounts, has_account, auth_spray_alert_cooldown, record_auth_spray_alert,
}
use pro_identity_mail.Session.AuthSpray.Counted.{IsCounted}
use pro_identity_mail.Session.AuthSpray.Cooldown.{Silent, Loud, spray_alert_lem}
use pro_identity_mail.Session.AuthSpray.Threshold.{AllDistinct, distinct_accounts_lem}
use pro_identity_mail.Session.Interface.{Call, ask, fails, succeeds}
use pro_identity_mail.Session.Keys.{
  PairLimiterKey, account_email_from_limiter_key, parse_pair_limiter_key,
}
use pro_identity_mail.Session.Penalty.{Options}
use pro_identity_mail.Session.SqlLimiter.{no_faults, locked, next_row, fail}
use pro_identity_mail.Session.SqlLimiter.Atomic.{
  row_of, IsKey, Commits, HoldsLock, IsLockable, row_of-fail, locked_fails_closed, fail-users,
}
use pro_identity_mail.Session.SqlLimiter.Refines.{empty_db}
use pro_identity_mail.Session.Tables.{
  SqlLoginLimiter, RateRow, AuditRow, new_sql_login_limiter, Db, Faults,
}

abbrev policy : Options
policy = record {
  cookie_name = [];
  ttl = pos 0;
  same_site = pos 0;
  secure = true;
  max_failures = pos 0;
  lockout = pos 0;
  window = pos 0;
  penalties = [];
  account_lockout_failures = pos 1;
}

abbrev shared : SqlLoginLimiter
shared = new_sql_login_limiter (codes "dovecot") policy

abbrev account_key : Text
account_key = codes "dovecot|account|Ann@Example.com"

abbrev pair_key : Text
pair_key = codes "dovecot|pair|ann@example.com|10.0.0.9"

abbrev users_before : Db
users_before =
    empty_db
      (record {
        email = codes "ann@example.com";
        mailbox_type = codes "user";
        status = codes "active";
      }
        ∷ [])
      []

account_email : account_email_from_limiter_key account_key ≡ codes "ann@example.com"
unfolding account_email_from_limiter_key
account_email = refl

not_an_account : account_email_from_limiter_key (codes "a|account|b@c") ≡ []
unfolding account_email_from_limiter_key
not_an_account = refl

abbrev ann_pair : PairLimiterKey
ann_pair = record {
  scope = codes "dovecot";
  account = codes "ann@example.com";
  client = codes "10.0.0.9";
}

pair_parsed : parse_pair_limiter_key pair_key ≡ some ann_pair
unfolding parse_pair_limiter_key
pair_parsed = refl

account_key-IsKey : IsKey account_key
unfolding pro_identity_mail.Text.trim_space
account_key-IsKey = refl

abbrev works : Commits no_faults
works = (refl, refl, refl, refl, refl)

row_of-fail_example :
    row_of shared (fail shared users_before 5 account_key no_faults) account_key ≡ (
      if text_eq account_key account_key
      then some (next_row shared (row_of shared users_before account_key) 5)
      else row_of shared users_before account_key)
row_of-fail_example =
    row_of-fail shared users_before 5 account_key account_key no_faults account_key-IsKey works

abbrev commit_fails : Faults
commit_fails = record no_faults { commit = true }

locked_fails_closed_example :
    (((locked shared users_before 5 account_key commit_fails).1 ≡ true)
      ↔ ((commit_fails.lookup ≡ true) ⊎ HoldsLock (row_of shared users_before account_key) 5))
    × ((j : Text)
        → text_eq account_key j ≡ false
        → row_of shared (locked shared users_before 5 account_key commit_fails).0 j
          ≡ row_of shared users_before j)
locked_fails_closed_example =
    locked_fails_closed shared users_before 5 account_key commit_fails account_key-IsKey

fail-users_example :
    let n = (next_row shared (row_of shared users_before account_key) 5).failure_count in
    (shared.account_lockout_failures ≤ℤ pos n
      → account_email_from_limiter_key account_key ≢ []
      → All
          (λ u. ¬ IsLockable (account_email_from_limiter_key account_key) u)
          (fail shared users_before 5 account_key no_faults).users)
    × (¬ (shared.account_lockout_failures ≤ℤ pos n)
        → (fail shared users_before 5 account_key no_faults).users ≡ users_before.users)
fail-users_example = fail-users shared users_before 5 account_key no_faults account_key-IsKey works

distinct_accounts_lem_example :
    AllDistinct (distinct_accounts shared users_before 5 (codes "10.0.0.9"))
    × ((a : Text)
        → (has_account (distinct_accounts shared users_before 5 (codes "10.0.0.9")) a ≡ true)
          ↔ Any (IsCounted shared 5 (codes "10.0.0.9") a) users_before.rates)
distinct_accounts_lem_example = distinct_accounts_lem shared users_before 5 (codes "10.0.0.9")

-- a column that rounds to the next second, as MySQL does
abbrev rounded : ℕ → ℕ
rounded t = (t + 500000000) / 1000000000 * 1000000000

abbrev minute_policy : Options
minute_policy = record policy {
  penalties = record { failures = pos 1; lockout = pos 60000000000 } ∷ [];
}

abbrev plain_key : Text
plain_key = codes "dovecot|account|ann@example.com"

abbrev calls : List (ℕ × Call)
calls =
    (1000000000, fails plain_key)
    ∷ (2000000000, ask plain_key)
    ∷ (3000000000, succeeds plain_key)
    ∷ []

-- five accounts that failed from one client
abbrev sprayed : Db
sprayed =
    let row : RateRow = record {
      failure_count = 1;
      first_failed_at = some 5;
      last_failed_at = some 5;
      locked_until = none;
    } in
    record users_before {
      rates =
          ((codes "dovecot", codes "dovecot|pair|a@example.com|10.0.0.9"), row)
          ∷ ((codes "dovecot", codes "dovecot|pair|b@example.com|10.0.0.9"), row)
          ∷ ((codes "dovecot", codes "dovecot|pair|c@example.com|10.0.0.9"), row)
          ∷ ((codes "dovecot", codes "dovecot|pair|d@example.com|10.0.0.9"), row)
          ∷ ((codes "dovecot", codes "dovecot|pair|e@example.com|10.0.0.9"), row)
          ∷ [];
    }

-- raises one alert
raised : length (record_auth_spray_alert shared sprayed pair_key 5 no_faults).audit_events ≡ 1
unfolding record_auth_spray_alert parse_pair_limiter_key new_sql_login_limiter
    pro_identity_mail.Text.contains
raised = refl

spray_alert_lem_example :
    let db' = record_auth_spray_alert shared sprayed pair_key 5 no_faults in
    (Silent shared sprayed ann_pair.client 5 no_faults × (db' ≡ sprayed))
    ⊎ (Loud shared sprayed ann_pair.client 5 no_faults
        × (db'.audit_events
            ≡ sprayed.audit_events
              ++ (alert_row shared ann_pair.client 5
                    (distinct_accounts shared sprayed 5 ann_pair.client)
                  ∷ []))
        × ((later : ℕ) (next : Db) (more : List AuditRow) (k : Text) (q : PairLimiterKey)
              (g : Faults)
            → later ≤ 5 + auth_spray_alert_cooldown
            → next.audit_events ≡ db'.audit_events ++ more
            → parse_pair_limiter_key k ≡ some q
            → q.client ≡ ann_pair.client
            → record_auth_spray_alert shared next k later g ≡ next))
spray_alert_lem_example = spray_alert_lem shared sprayed pair_key 5 no_faults ann_pair pair_parsed
