-- ===== src/Session/SqlLimiter/Columns.antt =====
-- The SQL limiter over the columns of `login_rate_limits`
-- (internal/db/migrations/0015_login_rate_limits.sql): a timestamp column keeps a time in its own
-- way, and keys that the collation takes for the same name one row.
pub mod Kept
pub mod Answers
use pro_identity_mail.Prelude.{ℕ, List, [], ◌∷◌, Option, none, some}
use pro_identity_mail.Text.{Text}
use pro_identity_mail.Session.Interface.{Limiter}
use pro_identity_mail.Session.Tables.{SqlLoginLimiter, RateRow, Db}
use pro_identity_mail.Session.SqlLimiter.{locked, fail, success, no_faults}

abbrev pub Rows : Type 0
Rows = List ((Text × Text) × RateRow)

abbrev pub kept_time : (ℕ → ℕ) → Option ℕ → Option ℕ
kept_time column none = none
kept_time column (some t) = some (column t)

unfoldable pub kept_rows : (ℕ → ℕ) → Rows → Rows
kept_rows column [] = []
kept_rows column ((key, row) ∷ rows) =
    (
      key,
      record {
        failure_count = row.failure_count;
        first_failed_at = kept_time column row.first_failed_at;
        last_failed_at = kept_time column row.last_failed_at;
        locked_until = kept_time column row.locked_until;
      },
    )
    ∷ kept_rows column rows

-- `column` is what a timestamp column keeps of a time, and `folded` the same for all keys that the
-- collation takes for the same. A time that a column keeps it keeps again, so that all rows can go
-- through the columns after a write of one.
unfoldable pub column_limiter : (ℕ → ℕ) → (Text → Text) → SqlLoginLimiter → Limiter Db
unfolding kept_rows
column_limiter column folded l = record {
  locked = λ db now key. locked l db now (folded key) no_faults;
  fail = λ db now key.
      let after = fail l db now (folded key) no_faults in
      record after { rates = kept_rows column after.rates };
  success = λ db now key. success l db (folded key) no_faults;
}
