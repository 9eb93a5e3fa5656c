-- ===== src/Session/SqlLimiter/Whole.antt =====
-- `Fail` of `SQLLoginLimiter` (internal/session/sql_limiter.go) as one transaction.
use pro_identity_mail.Prelude.{
  ℕ, ◌≡◌, inl, inr, Bool, true, ◌&&◌, ◌||◌, not, some, pos, leb_ℤ, map, if◌then◌else◌, get, put,
  Pair-Eq, arith, Bool-cases,
}
use pro_identity_mail.Text.{Text, Text-Eq, text_eq, is_empty}
use pro_identity_mail.Session.AuthSpray.{record_auth_spray_alert}
use pro_identity_mail.Session.AuthSpray.Threshold.{record_auth_spray_alert-rates}
use pro_identity_mail.Session.Keys.{account_email_from_limiter_key}
use pro_identity_mail.Session.Tables.{SqlLoginLimiter, Db, Faults}
use pro_identity_mail.Session.SqlLimiter.{
  lock_user, next_row, lock_account, write_row, commit, rollback, begin_tx, fail_in_tx, fail,
  no_faults,
}
use pro_identity_mail.Session.SqlLimiter.Atomic.{row_of, IsKey}

-- The threshold for the lock of an account is reached, and the key names one.
abbrev pub locks_account : SqlLoginLimiter → Db → ℕ → Text → Bool
locks_account l db now key =
    leb_ℤ l.account_lockout_failures
      (pos (next_row l (get db.rates (l.service, key)) now).failure_count)
    && not (is_empty (account_email_from_limiter_key key))

-- A statement of the transaction that is run fails; the lock of an account is run at its threshold.
abbrev pub Breaks : SqlLoginLimiter → Db → ℕ → Text → Faults → Type 0
Breaks l db now key f =
    (f.begin_tx
      || f.lookup
      || f.write
      || (locks_account l db now key && f.lock_account)
      || f.commit)
    ≡ true

-- The row of the key and its account's lock are written, and nothing else of the two tables is.
abbrev pub Takes : SqlLoginLimiter → Db → ℕ → Text → Db → Type 0
Takes l db now key db' =
    ((j : Text)
      → row_of l db' j
        ≡ (if text_eq key j then some (next_row l (row_of l db key) now) else row_of l db j))
    × (db'.users ≡ (
        if locks_account l db now key
        then map (lock_user (account_email_from_limiter_key key)) db.users
        else db.users))

-- The tables before the alert.
abbrev before_alert : SqlLoginLimiter → Db → ℕ → Text → Db
before_alert l db now key = record db {
  rates = put db.rates (l.service, key) (next_row l (get db.rates (l.service, key)) now);
  users =
      if locks_account l db now key
      then map (lock_user (account_email_from_limiter_key key)) db.users
      else db.users;
}

fail-works :
    (l : SqlLoginLimiter) (db : Db) (now : ℕ) (key : Text) (f : Faults)
    → IsKey key
    → ¬ Breaks l db now key f
    → fail l db now key f ≡ record_auth_spray_alert l (before_alert l db now key) key now f
unfolding fail fail_in_tx begin_tx rollback write_row lock_account commit
fail-works l db now key f named h = elim (Bool-cases (locks_account l db now key)) [
  | inl e ↦ ground (arith, e)
  | inr e ↦ ground (arith, e)
]

-- The rows that a failure leaves where nothing fails.
pub fail-rates :
    (l : SqlLoginLimiter) (db : Db) (now : ℕ) (key : Text)
    → IsKey key
    → (fail l db now key no_faults).rates
      ≡ put db.rates (l.service, key) (next_row l (row_of l db key) now)
fail-rates l db now key named =
    let works : ¬ Breaks l db now key no_faults = λ b. ground (arith, b) in
    rw (fail-works l db now key no_faults named works)
      (record_auth_spray_alert-rates l (before_alert l db now key) key now no_faults).0
