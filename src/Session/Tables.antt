-- ===== src/Session/Tables.antt =====
-- `SQLLoginLimiter` and the tables that it works on (internal/session/sql_limiter.go).
-- Times are stored exactly and texts are compared by bytes.
use pro_identity_mail.Prelude.{ℕ, List, Bool, Option, ℤ, pos}
use pro_identity_mail.Text.{Text, trim_space}
use pro_identity_mail.Session.Penalty.{
  Penalty, Options, hour, or_default, normalize_penalty_schedule,
}

pub record SqlLoginLimiter : Type 0 where
  pub service : Text
  pub penalties : List Penalty
  pub window : ℤ
  pub account_lockout_failures : ℤ

unfoldable pub new_sql_login_limiter : Text → Options → SqlLoginLimiter
new_sql_login_limiter service options = record {
  service = trim_space service;
  penalties = normalize_penalty_schedule options;
  window = or_default options.window (pos hour);
  account_lockout_failures = or_default options.account_lockout_failures (pos 10);
}

-- a row of `login_rate_limits`; `none` is NULL
pub record RateRow : Type 0 where
  pub failure_count : ℕ
  pub first_failed_at : Option ℕ
  pub last_failed_at : Option ℕ
  pub locked_until : Option ℕ

pub record UserRow : Type 0 where
  pub email : Text
  pub mailbox_type : Text
  pub status : Text

pub record AuditRow : Type 0 where
  pub action : Text
  pub target_type : Text
  pub target_id : Text
  pub created_at : ℕ
  pub service : Text
  pub distinct_accounts : ℕ
  pub sample_accounts : List Text

pub record Db : Type 0 where
  pub rates : List ((Text × Text) × RateRow)
  pub users : List UserRow
  pub audit_events : List AuditRow

-- Which statements fail: `true` for an error of the database.
pub record Faults : Type 0 where
  pub begin_tx : Bool
  pub lookup : Bool
  pub write : Bool
  pub lock_account : Bool
  pub scan : Bool
  pub cooldown : Bool
  pub alert : Bool
  pub commit : Bool
