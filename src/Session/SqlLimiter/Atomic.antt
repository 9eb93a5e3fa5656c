-- ===== src/Session/SqlLimiter/Atomic.antt =====
-- What each method of `SQLLoginLimiter` does to the tables, whichever statements fail.
use pro_identity_mail.Prelude.{
  ℕ, ◌<◌, ◌≡◌, refl, ◌⊎◌, inl, inr, ◌↔◌, List, [], ◌∷◌, true, false, ◌&&◌, not, Option, none, some,
  pos, ◌≤ℤ◌, leb_ℤ, All, map, ◌≢◌, if◌then◌else◌, get, put, Pair-Eq, pair_eq, get-put, arith, ◌∙◌,
  Option-cases, Bool-cases,
}
use pro_identity_mail.Text.{Text, Text-Eq, codes, text_eq, text_eq_iff, trim_space, is_empty}
use pro_identity_mail.Session.AuthSpray.Threshold.{record_auth_spray_alert-rates}
use pro_identity_mail.Session.AuthSpray.{record_auth_spray_alert}
use pro_identity_mail.Session.Keys.{account_email_from_limiter_key}
use pro_identity_mail.Session.Tables.{SqlLoginLimiter, RateRow, UserRow, Db, Faults}
use pro_identity_mail.Session.SqlLimiter.{
  clear_lock, lock_user, locked_row, lock_of, locked, next_row, lock_account, write_row, commit,
  rollback, begin_tx, fail_in_tx, fail,
}

abbrev pub row_of : SqlLoginLimiter → Db → Text → Option RateRow
row_of l db key = get db.rates (l.service, key)

pub same_service : (s k j : Text) → pair_eq (s, k) (s, j) ≡ text_eq k j
unfolding pair_eq
same_service s k j = ground (arith, text_eq_iff s s)

lock_account-rates :
    (l : SqlLoginLimiter) (db : Db) (n : ℕ) (key : Text) (f : Faults)
    → f.lock_account ≡ false
    → (db' : Db) × (lock_account l db n key f ≡ some db') × (db'.rates ≡ db.rates)
unfolding lock_account
lock_account-rates l db n key f h = elim (Option-cases (lock_account l db n key f)) [
  | inl e ↦ absurd (ground arith)
  | inr (db', e) ↦ (db', e, ground arith)
]

abbrev pub IsKey : Text → Type 0
IsKey key = is_empty (trim_space key) ≡ false

-- No statement of the transaction fails.
abbrev pub Commits : Faults → Type 0
Commits f =
    (f.begin_tx ≡ false)
    × (f.lookup ≡ false)
    × (f.write ≡ false)
    × (f.lock_account ≡ false)
    × (f.commit ≡ false)

-- the tables after the first write
abbrev after_write : SqlLoginLimiter → Db → ℕ → Text → Db
after_write l db now key = record db {
  rates = put db.rates (l.service, key) (next_row l (get db.rates (l.service, key)) now);
}

-- The failure that commits leaves what the alert leaves.
fail-commits :
    (l : SqlLoginLimiter) (db db' : Db) (now : ℕ) (key : Text) (f : Faults)
    → IsKey key
    → Commits f
    → lock_account l
        (after_write l db now key)
        (next_row l (row_of l db key) now).failure_count
        key
        f
      ≡ some db'
    → fail l db now key f ≡ record_auth_spray_alert l db' key now f
unfolding fail fail_in_tx begin_tx rollback write_row commit
fail-commits l db db' now key f named c e = ground (arith, e)

-- A failure that commits writes the next row of its key, and no other row.
pub row_of-fail :
    (l : SqlLoginLimiter) (db : Db) (now : ℕ) (key j : Text) (f : Faults)
    → IsKey key
    → Commits f
    → row_of l (fail l db now key f) j
      ≡ (if text_eq key j then some (next_row l (row_of l db key) now) else row_of l db j)
row_of-fail l db now key j f named c =
    let row = next_row l (row_of l db key) now in
    let written = after_write l db now key in
    let (db', e, same) = lock_account-rates l written row.failure_count key f c.3 in
    rw (fail-commits l db db' now key f named c e) (
      ground (
        arith,
        same,
        same_service l.service key j,
        get-put db.rates (l.service, key) (l.service, j) row,
        record_auth_spray_alert-rates l db' key now f,
      ))

row_of-locked_row :
    (l : SqlLoginLimiter) (db : Db) (now : ℕ) (key j : Text) (f : Faults) (r : Option RateRow)
    → text_eq key j ≡ false
    → row_of l (locked_row l db now key f r (lock_of r)).0 j ≡ row_of l db j
unfolding locked_row lock_of clear_lock
row_of-locked_row l db now key j f none h = refl
row_of-locked_row l db now key j f (some row) h = elim (Option-cases row.locked_until) [
  | inl e ↦ rw (e, locked_row)
  | inr (u, e) ↦
      rw (e, locked_row)
        (ground (
          arith,
          same_service l.service key j,
          get-put db.rates (l.service, key) (l.service, j) (record row { locked_until = none }),
        ))
]

locked_row-answer :
    (l : SqlLoginLimiter) (db : Db) (now : ℕ) (key : Text) (f : Faults) (r : Option RateRow)
    (u : Option ℕ)
    → (r ≡ none → u ≡ none)
    → ((locked_row l db now key f r u).1 ≡ true) ↔ ((until : ℕ) × (u ≡ some until) × (now < until))
unfolding locked_row
locked_row-answer l db now key f none none h = ((λ e. cc), (λ (until, e, lt). cc))
locked_row-answer l db now key f none (some u) h = cc (h refl)
locked_row-answer l db now key f (some row) none h = ((λ e. cc), (λ (until, e, lt). cc))
locked_row-answer l db now key f (some row) (some u) h =
    ((λ e. (u, refl, ground arith)), (λ (until, e, lt). ground arith))

lock_of-none : (r : Option RateRow) → r ≡ none → lock_of r ≡ none
unfolding lock_of
lock_of-none none h = refl
lock_of-none (some row) h = cc

-- The row holds a lock that ends after `now`.
abbrev pub HoldsLock : Option RateRow → ℕ → Type 0
HoldsLock r now =
    (row : RateRow) × (until : ℕ) × (r ≡ some row) × (row.locked_until ≡ some until) × (now < until)

HoldsLock-lock_of :
    (r : Option RateRow) (now : ℕ)
    → ((until : ℕ) × (lock_of r ≡ some until) × (now < until)) ↔ HoldsLock r now
unfolding lock_of
HoldsLock-lock_of none now = ((λ (u, e, lt). cc), (λ (row, u, e, h, lt). cc))
HoldsLock-lock_of (some row) now =
    ((λ (u, e, lt). (row, u, refl, e, lt)), (λ (row', u, e, h, lt). (u, ground arith, lt)))

-- For a key that is not blank, `Locked` says yes exactly if its lookup fails or the key's row holds
-- a lock that ends after now, so an error of the database counts as locked; and it changes no row
-- of another key.
pub locked_fails_closed :
    (l : SqlLoginLimiter) (db : Db) (now : ℕ) (key : Text) (f : Faults)
    → IsKey key
    → (((locked l db now key f).1 ≡ true) ↔ ((f.lookup ≡ true) ⊎ HoldsLock (row_of l db key) now))
      × ((j : Text) → text_eq key j ≡ false → row_of l (locked l db now key f).0 j ≡ row_of l db j)
unfolding locked
locked_fails_closed l db now key f named =
    let r = row_of l db key in
    elim (Bool-cases f.lookup) [
      | inl e ↦ rw (named, e) (((λ _. inl refl), (λ _. refl)), (λ j h. refl))
      | inr e ↦
          rw (named, e)
            (let answer = locked_row-answer l db now key f r (lock_of r) (lock_of-none r) in
              let holds = HoldsLock-lock_of r now in
              (
                (
                  (λ y. inr (holds.0 (answer.0 y))),
                  (λ o. elim o [ inl no_fault ↦ cc | inr h ↦ answer.1 (holds.1 h) ]),
                ),
                (λ j h. row_of-locked_row l db now key j f r h),
              ))
    ]

abbrev pub IsLockable : Text → UserRow → Type 0
IsLockable email u =
    (u.email ≡ email) × (u.mailbox_type ≡ codes "user") × (u.status ≡ codes "active")

lock_user-IsLockable : (email : Text) (u : UserRow) → ¬ IsLockable email (lock_user email u)
unfolding lock_user
lock_user-IsLockable email u h = ground (
  arith,
  text_eq_iff u.email email,
  text_eq_iff u.mailbox_type (codes "user"),
  text_eq_iff u.status (codes "active"),
)

map-lock_user :
    (email : Text) (us : List UserRow) → All (λ u. ¬ IsLockable email u) (map (lock_user email) us)
map-lock_user email [] = tt
map-lock_user email (u ∷ us) = (lock_user-IsLockable email u, map-lock_user email us)

lock_account-users :
    (l : SqlLoginLimiter) (db : Db) (n : ℕ) (key : Text) (f : Faults)
    → f.lock_account ≡ false
    → (db' : Db) × (lock_account l db n key f ≡ some db')
      × (db'.users ≡ (
          if leb_ℤ l.account_lockout_failures (pos n)
            && not (is_empty (account_email_from_limiter_key key))
          then map (lock_user (account_email_from_limiter_key key)) db.users
          else db.users))
unfolding lock_account
lock_account-users l db n key f h =
    elim (Bool-cases (
      leb_ℤ l.account_lockout_failures (pos n)
      && not (is_empty (account_email_from_limiter_key key)))) [
        | inl e ↦ (
          record db { users = map (lock_user (account_email_from_limiter_key key)) db.users },
          ground arith,
          ground arith,
        )
        | inr e ↦ (db, ground arith, ground arith)
      ]

fail-users_cases :
    (l : SqlLoginLimiter) (db : Db) (now : ℕ) (key : Text) (f : Faults)
    → IsKey key
    → Commits f
    → (fail l db now key f).users ≡ (
        if leb_ℤ l.account_lockout_failures (pos (next_row l (row_of l db key) now).failure_count)
          && not (is_empty (account_email_from_limiter_key key))
        then map (lock_user (account_email_from_limiter_key key)) db.users
        else db.users)
fail-users_cases l db now key f named c =
    let row = next_row l (row_of l db key) now in
    let written = after_write l db now key in
    let (db', e, users) = lock_account-users l written row.failure_count key f c.3 in
    rw (fail-commits l db db' now key f named c e)
      ((record_auth_spray_alert-rates l db' key now f).1 ∙ users)

is_empty-ne : (t : Text) → t ≢ [] → is_empty t ≡ false
is_empty-ne [] h = absurd (h refl)
is_empty-ne (c ∷ t) h = refl

-- A failure that commits and brings an account's key to the lockout threshold leaves no active user
-- mailbox with the account's address; below the threshold it changes no user.
pub fail-users :
    (l : SqlLoginLimiter) (db : Db) (now : ℕ) (key : Text) (f : Faults)
    → IsKey key
    → Commits f
    → let n = (next_row l (row_of l db key) now).failure_count in
      (l.account_lockout_failures ≤ℤ pos n
        → account_email_from_limiter_key key ≢ []
        → All
            (λ u. ¬ IsLockable (account_email_from_limiter_key key) u)
            (fail l db now key f).users)
      × (¬ (l.account_lockout_failures ≤ℤ pos n) → (fail l db now key f).users ≡ db.users)
fail-users l db now key f named c =
    let cases = fail-users_cases l db now key f named c in
    let email = account_email_from_limiter_key key in
    (
      (λ reached some_email.
          let swept : (fail l db now key f).users ≡ map (lock_user email) db.users =
            cases ∙ ground (arith, is_empty-ne email some_email) in
          rw swept (map-lock_user email db.users)),
      (λ below. cases ∙ ground arith),
    )
