-- ===== src/Session/SqlLimiter/Refines.antt =====
-- With a database that does not fail and keeps times exactly, the SQL limiter answers every history like the ledger, and so
-- like the limiter in memory.
use pro_identity_mail.Prelude.{
  ℕ, ◌≤◌, ◌<◌, ◌≡◌, refl, ◌⊎◌, ◌∙◌, sym, List, [], ◌∷◌, Bool, Option, none, some, ap, ltb,
  if◌then◌else◌, get, Pair-Eq, get-put, get-delete, arith,
}
use pro_identity_mail.Text.{Text, Text-Eq, text_eq, text_eq_iff}
use pro_identity_mail.Session.Interface.{Call, ask, fails, succeeds, Ordered, answers}
use pro_identity_mail.Session.Ledger.{Streak, Ledger, next_streak, is_locked, ledger, blank}
use pro_identity_mail.Session.Limiter.{login_limiter, new_login_limiter}
use pro_identity_mail.Session.Limiter.Refines.{answers-ledger}
use pro_identity_mail.Session.Penalty.{Options}
use pro_identity_mail.Session.Tables.{
  SqlLoginLimiter, new_sql_login_limiter, RateRow, UserRow, AuditRow, Db,
}
use pro_identity_mail.Session.SqlLimiter.{
  locked_row, lock_of, locked, next_row, fail, success, no_faults, sql_limiter,
}
use pro_identity_mail.Session.SqlLimiter.Atomic.{row_of, same_service, IsKey, row_of-fail}

abbrev until_of : Option ℕ → ℕ
until_of none = 0
until_of (some u) = u

-- The row of a key at a time, against the streak: the same failures, and a lock that may have been
-- cleared after its end.
abbrev Agrees : ℕ → Option RateRow → Option Streak → Type 0
Agrees now none none = Unit {0}
Agrees now none (some e) = ⊥
Agrees now (some r) none = ⊥
Agrees now (some r) (some e) =
    (r.failure_count ≡ e.count)
    × (r.first_failed_at ≡ some e.since)
    × ((until_of r.locked_until ≡ e.until) ⊎ ((r.locked_until ≡ none) × (e.until ≤ now)))

Agrees-later :
    (t u : ℕ) (r : Option RateRow) (e : Option Streak) → t ≤ u → Agrees t r e → Agrees u r e
Agrees-later t u none none h a = tt
Agrees-later t u none (some e) h a = a
Agrees-later t u (some r) none h a = a
Agrees-later t u (some r) (some e) h a = ground arith

fail-Agrees :
    (l : SqlLoginLimiter) (now : ℕ) (r : Option RateRow) (e : Option Streak)
    → Agrees now r e
    → Agrees now (some (next_row l r now)) (some (next_streak l.penalties l.window e now))
unfolding next_row next_streak
fail-Agrees l now none none a = ground arith
fail-Agrees l now none (some e) a = absurd a
fail-Agrees l now (some r) none a = absurd a
fail-Agrees l now (some r) (some e) a = ground arith

-- What `Locked` leaves of a row.
row_after : ℕ → Option RateRow → Option RateRow
row_after now none = none
row_after now (some r) = elim r.locked_until [
  | none ↦ some r
  | some until ↦ if ltb now until then some r else some (record r { locked_until = none })
]

ask-Agrees :
    (l : SqlLoginLimiter) (db : Db) (now : ℕ) (k : Text) (r : Option RateRow) (e : Option Streak)
    → Agrees now r e
    → ((locked_row l db now k no_faults r (lock_of r)).1 ≡ is_locked l.penalties l.window e now)
      × Agrees now (row_after now r) e
unfolding locked_row row_after lock_of
ask-Agrees l db now k none none a = ground arith
ask-Agrees l db now k none (some e) a = absurd a
ask-Agrees l db now k (some r) none a = absurd a
ask-Agrees l db now k (some r) (some e) a = ground arith

row_of-locked :
    (l : SqlLoginLimiter) (db : Db) (now : ℕ) (k j : Text) (r : Option RateRow)
    → row_of l db k ≡ r
    → row_of l (locked_row l db now k no_faults r (lock_of r)).0 j
      ≡ (if text_eq k j then row_after now r else row_of l db j)
unfolding locked_row row_after lock_of
row_of-locked l db now k j none h = ground (arith, text_eq_iff k j)
row_of-locked l db now k j (some r) h = ground (
  arith,
  text_eq_iff k j,
  same_service l.service k j,
  get-put db.rates (l.service, k) (l.service, j) (record r { locked_until = none }),
)

-- Every call of the history names a key that is not blank.
abbrev pub Named : List (ℕ × Call) → Type 0
Named [] = Unit {0}
Named ((t, ask k) ∷ h) = IsKey k × Named h
Named ((t, fails k) ∷ h) = IsKey k × Named h
Named ((t, succeeds k) ∷ h) = IsKey k × Named h

module _ (l : SqlLoginLimiter) where
  abbrev Rel : ℕ → Db → Ledger → Type 0
  Rel now db s = (k : Text) → Agrees now (row_of l db k) (s k)

  later : (db : Db) (s : Ledger) (t u : ℕ) → t ≤ u → Rel t db s → Rel u db s
  later db s t u h r k = Agrees-later t u (row_of l db k) (s k) h (r k)

  ask-Rel :
      (db : Db) (s : Ledger) (t : ℕ) (k : Text)
      → IsKey k
      → Rel t db s
      → ((locked l db t k no_faults).1 ≡ is_locked l.penalties l.window (s k) t)
        × Rel t (locked l db t k no_faults).0 s
  unfolding locked
  ask-Rel db s t k named r =
      let kept = ask-Agrees l db t k (row_of l db k) (s k) (r k) in
      rw named (
        kept.0,
        λ j.
            rw (row_of-locked l db t k j (row_of l db k) refl)
              (ground (arith, text_eq_iff k j, kept.1, r j)),
      )

  fail-Rel :
      (db : Db) (s : Ledger) (t : ℕ) (k : Text)
      → IsKey k
      → Rel t db s
      → Rel t (fail l db t k no_faults) ((ledger l.penalties l.window).fail s t k)
  fail-Rel db s t k named r j =
      rw (row_of-fail l db t k j no_faults named (refl, refl, refl, refl, refl))
        (ground (arith, text_eq_iff k j, fail-Agrees l t (row_of l db k) (s k) (r k), r j))

  success-Rel :
      (db : Db) (s : Ledger) (t : ℕ) (k : Text)
      → IsKey k
      → Rel t db s
      → Rel t (success l db k no_faults) ((ledger l.penalties l.window).success s t k)
  unfolding success
  success-Rel db s t k named r j = ground (
    arith,
    named,
    get-delete db.rates (l.service, k) (l.service, j),
    same_service l.service k j,
    text_eq_iff k j,
    r j,
  )

  Rel-answers :
      (t : ℕ) (db : Db) (s : Ledger) (h : List (ℕ × Call))
      → Ordered t h
      → Named h
      → Rel t db s
      → answers (sql_limiter l) db h ≡ answers (ledger l.penalties l.window) s h
  unfolding answers
  Rel-answers t db s [] o n r = refl
  Rel-answers t db s ((u, ask k) ∷ h) (le, o) (named, n) r =
      let (same, r') = ask-Rel db s u k named (later db s t u le r) in
      rw same (
        ap (λ (bs : List Bool). is_locked l.penalties l.window (s k) u ∷ bs)
          (Rel-answers u (locked l db u k no_faults).0 s h o n r'))
  Rel-answers t db s ((u, fails k) ∷ h) (le, o) (named, n) r =
      Rel-answers u (fail l db u k no_faults) ((ledger l.penalties l.window).fail s u k) h o n
        (fail-Rel db s u k named (later db s t u le r))
  Rel-answers t db s ((u, succeeds k) ∷ h) (le, o) (named, n) r =
      Rel-answers u (success l db k no_faults) ((ledger l.penalties l.window).success s u k) h o n
        (success-Rel db s u k named (later db s t u le r))

abbrev pub empty_db : List UserRow → List AuditRow → Db
empty_db users audits = record { rates = []; users = users; audit_events = audits }

-- In tables that keep times exactly and keys by their bytes: from a table with no rows, whatever the
-- users and the audit log, a limiter on a database that does not fail gives any history of calls on
-- keys that are not blank, at positive times that do not fall, the answers that the limiter in memory
-- with the same options gives.
pub sql-answers-memory :
    (service : Text) (options : Options) (users : List UserRow) (audits : List AuditRow) (t : ℕ)
    (h : List (ℕ × Call))
    → 0 < t
    → Ordered t h
    → Named h
    → answers (sql_limiter (new_sql_login_limiter service options)) (empty_db users audits) h
      ≡ answers login_limiter (new_login_limiter options) h
unfolding new_sql_login_limiter new_login_limiter get
sql-answers-memory service options users audits t h p o n =
    Rel-answers (new_sql_login_limiter service options) t (empty_db users audits) blank h o n
      (λ k. tt)
    ∙ sym (answers-ledger options t h p o)
