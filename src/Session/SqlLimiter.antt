-- ===== src/Session/SqlLimiter.antt =====
-- The methods of `SQLLoginLimiter` (internal/session/sql_limiter.go).
-- The database is a parameter of each call: its tables as lists, and which of the statements fail.
-- A transaction keeps what its statements wrote apart from the tables until it commits.
pub mod Refines
pub mod Atomic
pub mod Whole
pub mod Columns
use pro_identity_mail.Prelude.{
  ℕ, ◌+◌, List, [], ◌∷◌, Bool, true, false, ◌&&◌, ◌||◌, not, Option, none, some, ℤ, pos, ltb, ltb_ℤ,
  leb_ℤ, pos_part, if◌then◌else◌, get, put, delete, Pair-Eq, map,
}
use pro_identity_mail.Text.{Text, Text-Eq, codes, text_eq, trim_space, is_empty}
use pro_identity_mail.Session.AuthSpray.{record_auth_spray_alert}
use pro_identity_mail.Session.Interface.{Limiter}
use pro_identity_mail.Session.Keys.{account_email_from_limiter_key}
use pro_identity_mail.Session.Limiter.{sub_gt}
use pro_identity_mail.Session.Penalty.{lockout_for_failure_count}
use pro_identity_mail.Session.Tables.{SqlLoginLimiter, RateRow, UserRow, Db, Faults}

clear_lock : SqlLoginLimiter → Db → Text → RateRow → Db
clear_lock l db key row = record db {
  rates = put db.rates (l.service, key) (record row { locked_until = none });
}

locked_row : SqlLoginLimiter → Db → ℕ → Text → Faults → Option RateRow → Option ℕ → Db × Bool
unfolding clear_lock
locked_row l db now key f none u = (db, false)
locked_row l db now key f (some row) none = (db, false)
locked_row l db now key f (some row) (some until) =
    if ltb now until then (db, true) else (if f.write then db else clear_lock l db key row, false)

lock_of : Option RateRow → Option ℕ
lock_of none = none
lock_of (some row) = row.locked_until

-- A lookup that fails counts as locked.
unfoldable pub locked : SqlLoginLimiter → Db → ℕ → Text → Faults → Db × Bool
unfolding locked_row lock_of
locked l db now key f =
    let row = get db.rates (l.service, key) in
    if is_empty (trim_space key)
    then (db, false)
    else if f.lookup
    then (db, true)
    else locked_row l db now key f row (lock_of row)

-- `currentCount` and `first` for this failure
restart : Option RateRow → ℕ → ℤ → ℕ × ℕ
restart none now window = (0, now)
restart (some row) now window = elim row.first_failed_at [
  | none ↦ (0, now)
  | some first ↦ if sub_gt now first window then (0, now) else (row.failure_count, first)
]

lock_at : ℕ → ℤ → Option ℕ
lock_at now lockout = if ltb_ℤ (pos 0) lockout then some (now + pos_part lockout) else none

-- the row that the INSERT or the UPDATE leaves
unfoldable pub next_row : SqlLoginLimiter → Option RateRow → ℕ → RateRow
unfolding restart lock_at
next_row l row now =
    let (count, first) = restart row now l.window in
    record {
      failure_count = count + 1;
      first_failed_at = some first;
      last_failed_at = some now;
      locked_until = lock_at now (lockout_for_failure_count (pos (count + 1)) l.penalties);
    }

unfoldable pub lock_user : Text → UserRow → UserRow
lock_user email u =
    if text_eq u.email email
      && text_eq u.mailbox_type (codes "user")
      && text_eq u.status (codes "active")
    then record u { status = codes "locked" }
    else u

-- `none` where the statement fails
lock_account : SqlLoginLimiter → Db → ℕ → Text → Faults → Option Db
unfolding lock_user
lock_account l db count key f =
    let email = account_email_from_limiter_key key in
    if leb_ℤ l.account_lockout_failures (pos count) && not (is_empty email)
    then (if f.lock_account
        then none
        else some (record db { users = map (lock_user email) db.users }))
    else some db

-- A transaction: the tables that everybody sees, and those that its own statements have written.
pub record Tx : Type 0 where
  stored : Db
  pending : Db

begin_tx : Db → Tx
begin_tx db = record { stored = db; pending = db }

commit : Tx → Tx
commit tx = record { stored = tx.pending; pending = tx.pending }

-- after a commit there is nothing left to take back
rollback : Tx → Tx
rollback tx = record { stored = tx.stored; pending = tx.stored }

write_row : SqlLoginLimiter → Tx → Text → RateRow → Tx
write_row l tx key row =
    let db = tx.pending in
    record { stored = tx.stored; pending = record db { rates = put db.rates (l.service, key) row } }

-- The body of `Fail` in its transaction. An early return leaves what was written pending.
fail_in_tx : SqlLoginLimiter → Tx → ℕ → Text → Faults → Tx
unfolding next_row lock_account commit write_row
fail_in_tx l tx now key f =
    let row = next_row l (get tx.pending.rates (l.service, key)) now in
    let written = write_row l tx key row in
    if f.lookup || f.write
    then tx
    else elim (lock_account l written.pending row.failure_count key f) [
      | none ↦ written
      | some db ↦
          let alerted : Tx = record {
            stored = written.stored;
            pending = record_auth_spray_alert l db key now f;
          } in
          if f.commit then alerted else commit alerted
    ]

-- `defer tx.Rollback()` runs whichever way the body returns.
unfoldable pub fail : SqlLoginLimiter → Db → ℕ → Text → Faults → Db
unfolding fail_in_tx begin_tx rollback
fail l db now key f =
    if is_empty (trim_space key) || f.begin_tx
    then db
    else (rollback (fail_in_tx l (begin_tx db) now key f)).stored

unfoldable pub success : SqlLoginLimiter → Db → Text → Faults → Db
success l db key f =
    if is_empty (trim_space key) || f.write
    then db
    else record db { rates = delete db.rates (l.service, key) }

abbrev pub no_faults : Faults
no_faults = record {
  begin_tx = false;
  lookup = false;
  write = false;
  lock_account = false;
  scan = false;
  cooldown = false;
  alert = false;
  commit = false;
}

-- the limiter over a database that does not fail
abbrev pub sql_limiter : SqlLoginLimiter → Limiter Db
sql_limiter l = record {
  locked = λ db now key. locked l db now key no_faults;
  fail = λ db now key. fail l db now key no_faults;
  success = λ db now key. success l db key no_faults;
}
