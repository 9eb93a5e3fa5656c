-- ===== src/Session/AuthSpray/Threshold.antt =====
-- The accounts that the alert counts (`recordAuthSprayAlert` in internal/session/sql_limiter.go).
use pro_identity_mail.Prelude.{
  ℕ, ◌≡◌, refl, ◌⊎◌, inl, inr, ◌↔◌, List, [], ◌∷◌, ◌++◌, true, false, ◌||◌, Option, none, some, Any,
  arith, Bool-cases,
}
use pro_identity_mail.Text.{Text, text_eq, text_eq_iff}
use pro_identity_mail.Session.AuthSpray.Counted.{IsCounted, is_scanned-IsCounted}
use pro_identity_mail.Session.Keys.{PairLimiterKey, parse_pair_limiter_key}
use pro_identity_mail.Session.Tables.{SqlLoginLimiter, RateRow, Db, Faults}
use pro_identity_mail.Session.AuthSpray.{
  is_scanned, account_of, add_account, has_account, accounts_from, distinct_accounts, alert_pair,
  record_auth_spray_alert,
}

alert_pair-rates :
    (l : SqlLoginLimiter) (db : Db) (now : ℕ) (f : Faults) (p : Option PairLimiterKey)
    → ((alert_pair l db now f p).rates ≡ db.rates) × ((alert_pair l db now f p).users ≡ db.users)
unfolding alert_pair
alert_pair-rates l db now f none = (refl, refl)
alert_pair-rates l db now f (some pair) = ground arith

-- The alert touches neither the limiter's rows nor the users.
pub record_auth_spray_alert-rates :
    (l : SqlLoginLimiter) (db : Db) (key : Text) (now : ℕ) (f : Faults)
    → ((record_auth_spray_alert l db key now f).rates ≡ db.rates)
      × ((record_auth_spray_alert l db key now f).users ≡ db.users)
unfolding record_auth_spray_alert
record_auth_spray_alert-rates l db key now f =
    alert_pair-rates l db now f (parse_pair_limiter_key key)

-- No account twice.
abbrev pub AllDistinct : List Text → Type 0
AllDistinct [] = Unit {0}
AllDistinct (a ∷ rest) = (has_account rest a ≡ false) × AllDistinct rest

has_account-append :
    (xs : List Text) (b a : Text)
    → has_account (xs ++ (b ∷ [])) a ≡ (has_account xs a || text_eq b a)
unfolding has_account
has_account-append [] b a = ground arith
has_account-append (x ∷ xs) b a = ground (arith, has_account-append xs b a)

AllDistinct-append :
    (xs : List Text) (b : Text)
    → AllDistinct xs
    → has_account xs b ≡ false
    → AllDistinct (xs ++ (b ∷ []))
unfolding has_account
AllDistinct-append [] b d h = (refl, tt)
AllDistinct-append (x ∷ xs) b (n, d) h = (
  ground (arith, has_account-append xs b x, text_eq_iff b x, text_eq_iff x b),
  AllDistinct-append xs b d (ground arith),
)

add_account-AllDistinct :
    (xs : List Text) (o : Option Text) → AllDistinct xs → AllDistinct (add_account xs o)
unfolding add_account
add_account-AllDistinct xs none d = d
add_account-AllDistinct xs (some b) d = elim (Bool-cases (has_account xs b)) [
  | inl e ↦ rw e d
  | inr e ↦ rw e (AllDistinct-append xs b d e)
]

-- A row of the table counts for an account of the client.
abbrev Counts : SqlLoginLimiter → ℕ → Text → Text → (Text × Text) × RateRow → Type 0
Counts l now client a ((service, key), row) =
    (is_scanned l now service key row ≡ true)
    × (account_of client (parse_pair_limiter_key key) ≡ some a)

add_account-has :
    (xs : List Text) (o : Option Text) (a : Text)
    → (has_account (add_account xs o) a ≡ true) ↔ ((has_account xs a ≡ true) ⊎ (o ≡ some a))
unfolding add_account
add_account-has xs none a = ((λ h. inl h), (λ h. ground arith))
add_account-has xs (some b) a = ground (arith, has_account-append xs b a, text_eq_iff b a)

accounts_from_lem :
    (l : SqlLoginLimiter) (now : ℕ) (client : Text) (xs : List Text)
    (rows : List ((Text × Text) × RateRow))
    → AllDistinct xs
    → AllDistinct (accounts_from l now client xs rows)
      × ((a : Text)
          → (has_account (accounts_from l now client xs rows) a ≡ true)
            ↔ ((has_account xs a ≡ true) ⊎ Any (Counts l now client a) rows))
unfolding accounts_from
accounts_from_lem l now client xs [] d = (d, λ a. ((λ h. inl h), (λ h. ground arith)))
accounts_from_lem l now client xs (((service, key), row) ∷ rows) d =
    let o = account_of client (parse_pair_limiter_key key) in
    elim (Bool-cases (is_scanned l now service key row)) [
      | inl e ↦
          let ih =
            accounts_from_lem l now client (add_account xs o) rows
              (add_account-AllDistinct xs o d) in
          rw e (ih.0, λ a. ground (arith, ih.1 a, add_account-has xs o a))
      | inr e ↦
          let ih = accounts_from_lem l now client xs rows d in
          rw e (ih.0, λ a. ground (arith, ih.1 a))
    ]

Any-IsCounted :
    (l : SqlLoginLimiter) (now : ℕ) (client a : Text) (rows : List ((Text × Text) × RateRow))
    → Any (Counts l now client a) rows ↔ Any (IsCounted l now client a) rows
Any-IsCounted l now client a [] = ((λ h. h), (λ h. h))
Any-IsCounted l now client a (((service, key), row) ∷ rows) =
    let here = is_scanned-IsCounted l now client a service key row in
    let rest = Any-IsCounted l now client a rows in
    (
      (λ h. elim h [ inl x ↦ inl (here.0 x) | inr y ↦ inr (rest.0 y) ]),
      (λ h. elim h [ inl x ↦ inl (here.1 x) | inr y ↦ inr (rest.1 y) ]),
    )

-- The accounts that are counted for a client are pairwise distinct, and they are exactly those for
-- which a row of the service that failed no more than a minute before now has a key of four parts
-- with `|` between them, the second of which is `pair`, and the others, trimmed, are texts of 1 to
-- 320 bytes with no control character, the third the account and the fourth the client.
pub distinct_accounts_lem :
    (l : SqlLoginLimiter) (db : Db) (now : ℕ) (client : Text)
    → AllDistinct (distinct_accounts l db now client)
      × ((a : Text)
          → (has_account (distinct_accounts l db now client) a ≡ true)
            ↔ Any (IsCounted l now client a) db.rates)
unfolding distinct_accounts has_account
distinct_accounts_lem l db now client =
    let all = accounts_from_lem l now client [] db.rates tt in
    (
      all.0,
      λ a.
          let rows = Any-IsCounted l now client a db.rates in
          (
            (λ h. elim ((all.1 a).0 h) [ inl e ↦ cc | inr y ↦ rows.0 y ]),
            (λ h. (all.1 a).1 (inr (rows.1 h))),
          ),
    )
