-- ===== src/Session/AuthSpray/Cooldown.antt =====
-- When the alert is raised (`recordAuthSprayAlert` in internal/session/sql_limiter.go), and for how
-- long the next one waits.
use pro_identity_mail.Prelude.{
  ℕ, ◌+◌, ◌≤◌, ◌<◌, ◌≡◌, ◌≢◌, refl, ltb, ◌⊎◌, inl, inr, ◌↔◌, List, [], ◌∷◌, ◌++◌, true, false, ◌||◌,
  some, length, Any, arith, Bool-cases,
}
use pro_identity_mail.Text.{Text, text_eq, text_eq_iff, codes}
use pro_identity_mail.Session.Keys.{PairLimiterKey, parse_pair_limiter_key}
use pro_identity_mail.Session.Tables.{SqlLoginLimiter, AuditRow, Db, Faults}
use pro_identity_mail.Session.AuthSpray.{
  distinct_accounts, has_recent_alert, alert_row, spray_alert, alert_pair, record_auth_spray_alert,
  auth_spray_alert_cooldown,
}

-- An alert of the service for the client that is not older than the cooldown.
abbrev pub IsRecentAlert : SqlLoginLimiter → Text → ℕ → AuditRow → Type 0
IsRecentAlert l client now a =
    (a.action ≡ codes "security.alert.auth_spray")
    × (a.target_type ≡ codes "client_ip")
    × (a.target_id ≡ client)
    × (now ≤ a.created_at + auth_spray_alert_cooldown)
    × (a.service ≡ l.service)

has_recent_alert-Any :
    (audits : List AuditRow) (l : SqlLoginLimiter) (client : Text) (now : ℕ)
    → (has_recent_alert audits l.service client now ≡ true)
      ↔ Any (IsRecentAlert l client now) audits
unfolding has_recent_alert
has_recent_alert-Any [] l client now = ((λ h. cc), (λ h. absurd h))
has_recent_alert-Any (a ∷ audits) l client now = ground (
  arith,
  text_eq_iff a.action (codes "security.alert.auth_spray"),
  text_eq_iff a.target_type (codes "client_ip"),
  text_eq_iff a.target_id client,
  text_eq_iff a.service l.service,
  has_recent_alert-Any audits l client now,
)

Any-append_left : {A : Type 0} (P : A → Type 0) (xs ys : List A) → Any P xs → Any P (xs ++ ys)
Any-append_left P [] ys h = absurd h
Any-append_left P (x ∷ xs) ys (inl h) = inl h
Any-append_left P (x ∷ xs) ys (inr h) = inr (Any-append_left P xs ys h)

Any-append_right : {A : Type 0} (P : A → Type 0) (xs ys : List A) → Any P ys → Any P (xs ++ ys)
Any-append_right P [] ys h = h
Any-append_right P (x ∷ xs) ys h = inr (Any-append_right P xs ys h)

abbrev Raised : SqlLoginLimiter → Db → Text → ℕ → Db
Raised l db client now = record db {
  audit_events =
      db.audit_events ++ (alert_row l client now (distinct_accounts l db now client) ∷ []);
}

-- Why no alert is raised.
abbrev pub Silent : SqlLoginLimiter → Db → Text → ℕ → Faults → Type 0
Silent l db client now f =
    (client ≡ codes "unknown")
    ⊎ ((length (distinct_accounts l db now client) < 5)
        ⊎ (Any (IsRecentAlert l client now) db.audit_events
            ⊎ ((f.scan || f.cooldown || f.alert) ≡ true)))

-- Why one is.
abbrev pub Loud : SqlLoginLimiter → Db → Text → ℕ → Faults → Type 0
Loud l db client now f =
    (client ≢ codes "unknown")
    × (5 ≤ length (distinct_accounts l db now client))
    × (¬ Any (IsRecentAlert l client now) db.audit_events)
    × ((f.scan || f.cooldown || f.alert) ≡ false)

spray_alert-cases :
    (l : SqlLoginLimiter) (db : Db) (client : Text) (now : ℕ) (f : Faults)
    → client ≢ codes "unknown"
    → (Silent l db client now f × (spray_alert l db client now f ≡ db))
      ⊎ (Loud l db client now f × (spray_alert l db client now f ≡ Raised l db client now))
unfolding spray_alert
spray_alert-cases l db client now f ne =
    let found = has_recent_alert-Any db.audit_events l client now in
    elim (Bool-cases (ltb (length (distinct_accounts l db now client)) 5)) [
      | inl few ↦ inl (inr (inl (ground arith)), ground arith)
      | inr many ↦ elim (Bool-cases (has_recent_alert db.audit_events l.service client now)) [
        | inl recent ↦ inl (inr (inr (inl (found.0 recent))), ground arith)
        | inr none_found ↦ elim (Bool-cases (f.scan || f.cooldown || f.alert)) [
          | inl broken ↦ inl (inr (inr (inr broken)), ground arith)
          | inr works ↦
              inr ((ne, ground arith, (λ h. ground (arith, found.1 h)), works), ground arith)
        ]
      ]
    ]

-- An alert that is stored and not too old keeps the body from adding another.
spray_alert-waits :
    (l : SqlLoginLimiter) (db : Db) (client : Text) (now : ℕ) (f : Faults)
    → Any (IsRecentAlert l client now) db.audit_events
    → spray_alert l db client now f ≡ db
unfolding spray_alert
spray_alert-waits l db client now f h =
    let found = (has_recent_alert-Any db.audit_events l client now).1 h in ground arith

alert_row-IsRecentAlert :
    (l : SqlLoginLimiter) (client : Text) (t now : ℕ) (accounts : List Text)
    → now ≤ t + auth_spray_alert_cooldown
    → IsRecentAlert l client now (alert_row l client t accounts)
unfolding alert_row
alert_row-IsRecentAlert l client t now accounts h = (refl, refl, refl, h, refl)

-- Tables with a recent alert for the client of a key stay as they are.
record_auth_spray_alert-waits :
    (l : SqlLoginLimiter) (db : Db) (key : Text) (now : ℕ) (f : Faults) (pair : PairLimiterKey)
    → parse_pair_limiter_key key ≡ some pair
    → Any (IsRecentAlert l pair.client now) db.audit_events
    → record_auth_spray_alert l db key now f ≡ db
unfolding record_auth_spray_alert alert_pair
record_auth_spray_alert-waits l db key now f pair parsed h =
    rw parsed (elim (Bool-cases (text_eq pair.client (codes "unknown"))) [
      | inl e ↦ rw e refl
      | inr e ↦ rw e (spray_alert-waits l db pair.client now f h)
    ])

record_auth_spray_alert-cases :
    (l : SqlLoginLimiter) (db : Db) (key : Text) (now : ℕ) (f : Faults) (pair : PairLimiterKey)
    → parse_pair_limiter_key key ≡ some pair
    → (Silent l db pair.client now f × (record_auth_spray_alert l db key now f ≡ db))
      ⊎ (Loud l db pair.client now f
          × (record_auth_spray_alert l db key now f ≡ Raised l db pair.client now))
unfolding record_auth_spray_alert alert_pair
record_auth_spray_alert-cases l db key now f pair parsed =
    rw parsed (elim (Bool-cases (text_eq pair.client (codes "unknown"))) [
      | inl e ↦ rw e (inl (inl ((text_eq_iff pair.client (codes "unknown")).0 e), refl))
      | inr e ↦ rw e (
          spray_alert-cases l db pair.client now f
            (λ same. ground (arith, text_eq_iff pair.client (codes "unknown"))))
    ])

-- The alert for a pair key, with its reasons: either the client is `unknown`, or has fewer than five
-- distinct accounts, or has an alert of the service that is not older than the cooldown, or a
-- statement fails, and then the tables stay as they are; or none of these holds, and then exactly
-- the row of the alert is added to the audit log. Once it is, no later call of the service for that
-- client, with whatever pair key, faults and rows that were added since, changes the tables until
-- the cooldown is over.
pub spray_alert_lem :
    (l : SqlLoginLimiter) (db : Db) (key : Text) (now : ℕ) (f : Faults) (pair : PairLimiterKey)
    → parse_pair_limiter_key key ≡ some pair
    → let db' = record_auth_spray_alert l db key now f in
      (Silent l db pair.client now f × (db' ≡ db))
      ⊎ (Loud l db pair.client now f
          × (db'.audit_events
              ≡ db.audit_events
                ++ (alert_row l pair.client now (distinct_accounts l db now pair.client) ∷ []))
          × ((later : ℕ) (next : Db) (more : List AuditRow) (k : Text) (q : PairLimiterKey)
                (g : Faults)
              → later ≤ now + auth_spray_alert_cooldown
              → next.audit_events ≡ db'.audit_events ++ more
              → parse_pair_limiter_key k ≡ some q
              → q.client ≡ pair.client
              → record_auth_spray_alert l next k later g ≡ next))
spray_alert_lem l db key now f pair parsed =
    let accounts = distinct_accounts l db now pair.client in
    let added = alert_row l pair.client now accounts in
    elim (record_auth_spray_alert-cases l db key now f pair parsed) [
      | inl silent ↦ inl silent
      | inr (loud, raised) ↦ rw raised (
          inr (
            loud,
            refl,
            λ later next more k q g h grown parsed_k same.
                record_auth_spray_alert-waits l next k later g q parsed_k (
                  rw grown (
                    rw same (
                      Any-append_left (IsRecentAlert l pair.client later)
                        (db.audit_events ++ (added ∷ [])) more
                        (Any-append_right (IsRecentAlert l pair.client later) db.audit_events
                          (added ∷ [])
                          (inl (alert_row-IsRecentAlert l pair.client now later accounts h)))))),
          ))
    ]
