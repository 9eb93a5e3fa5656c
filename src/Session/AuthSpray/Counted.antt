-- ===== src/Session/AuthSpray/Counted.antt =====
-- Which rows count for an account of a client, without the code that parses their keys.
use pro_identity_mail.Prelude.{
  ℕ, ◌+◌, ◌≤◌, ◌≡◌, ◌≢◌, refl, ◌↔◌, List, [], ◌∷◌, true, false, ◌||◌, Option, none, some, ltb, ◌==◌,
  length, All, arith, ap, sym, subst, ◌∙◌,
}
use pro_identity_mail.Text.{
  Text, codes, text_eq_iff, contains, contains_any, split, to_lower, trim_space,
}
use pro_identity_mail.Session.Keys.{
  safe_limiter_part, parts_of, pair_of_parts, parse_pair_limiter_key,
}
use pro_identity_mail.Session.Tables.{SqlLoginLimiter, RateRow}
use pro_identity_mail.Session.AuthSpray.{account_of, is_scanned, failed_since, auth_spray_window}

-- One to 320 bytes, none of them a control character.
abbrev pub IsSafe : Text → Type 0
IsSafe v = (v ≢ []) × (length v ≤ 320) × All (λ c. (32 ≤ c) × (c ≢ 127)) v

-- The key, trimmed and in lower case, has four parts with `|` between them: any, `pair`, the account
-- and the client, of which each but the second is safe once it is trimmed.
abbrev pub IsPairKey : Text → Text → Text → Type 0
IsPairKey client account key =
    (scope : Text) × (kind : Text) × (x : Text) × (y : Text) × (split b'|'
        (to_lower (trim_space key))
      ≡ scope ∷ kind ∷ x ∷ y ∷ [])
    × (kind ≡ codes "pair")
    × (trim_space x ≡ account)
    × (trim_space y ≡ client)
    × IsSafe (trim_space scope)
    × IsSafe account
    × IsSafe client

no_controls :
    (v : Text)
    → ((contains_any (λ c. c == 0 || c == 13 || c == 10 || c == 9) v ≡ false)
        × (contains_any (λ c. ltb c 32 || c == 127) v ≡ false))
      ↔ All (λ c. (32 ≤ c) × (c ≢ 127)) v
unfolding contains_any
no_controls [] = ((λ h. tt), (λ h. (refl, refl)))
no_controls (c ∷ v) = ground (arith, no_controls v)

safe_limiter_part-IsSafe : (v : Text) → (safe_limiter_part v ≡ true) ↔ IsSafe v
unfolding safe_limiter_part
safe_limiter_part-IsSafe [] = ((λ h. cc), (λ h. absurd (h.0 refl)))
safe_limiter_part-IsSafe (c ∷ v) =
    let clean = no_controls (c ∷ v) in
    (
      (λ h. ((λ e. cc), ground (arith, h), clean.0 (ground (arith, h), ground (arith, h)))),
      (λ (ne, short, bytes). let quiet = clean.1 bytes in ground (arith, short, quiet)),
    )

-- the same of the parts
abbrev IsPairParts : Text → Text → List Text → Type 0
IsPairParts client account ps =
    (scope : Text) × (kind : Text) × (x : Text) × (y : Text) × (ps ≡ scope ∷ kind ∷ x ∷ y ∷ [])
    × (kind ≡ codes "pair")
    × (trim_space x ≡ account)
    × (trim_space y ≡ client)
    × IsSafe (trim_space scope)
    × IsSafe account
    × IsSafe client

module _ (client account : Text) where
  four :
      (scope kind x y : Text)
      → (account_of client (pair_of_parts (scope ∷ kind ∷ x ∷ y ∷ [])) ≡ some account) ↔ (
          (kind ≡ codes "pair")
          × (trim_space x ≡ account)
          × (trim_space y ≡ client)
          × (safe_limiter_part (trim_space scope) ≡ true)
          × (safe_limiter_part (trim_space x) ≡ true)
          × (safe_limiter_part (trim_space y) ≡ true))
  unfolding account_of pair_of_parts
  four scope kind x y =
      ground (arith, text_eq_iff kind (codes "pair"), text_eq_iff (trim_space y) client)

  account_of-IsPairParts :
      (ps : List Text)
      → (account_of client (pair_of_parts ps) ≡ some account) ↔ IsPairParts client account ps
  unfolding account_of pair_of_parts
  account_of-IsPairParts [] = ((λ h. cc), (λ h. cc h.4))
  account_of-IsPairParts (a ∷ []) = ((λ h. cc), (λ h. cc h.4))
  account_of-IsPairParts (a ∷ b ∷ []) = ((λ h. cc), (λ h. cc h.4))
  account_of-IsPairParts (a ∷ b ∷ c ∷ []) = ((λ h. cc), (λ h. cc h.4))
  account_of-IsPairParts (a ∷ b ∷ c ∷ d ∷ []) =
      let parsed = four a b c d in
      (
        (λ h.
            let (pair, ac, cl, s1, s2, s3) = parsed.0 h in
            (
              a,
              b,
              c,
              d,
              refl,
              pair,
              ac,
              cl,
              (safe_limiter_part-IsSafe (trim_space a)).0 s1,
              subst IsSafe ac ((safe_limiter_part-IsSafe (trim_space c)).0 s2),
              subst IsSafe cl ((safe_limiter_part-IsSafe (trim_space d)).0 s3),
            )),
        (λ (s, k, x, y, e, pair, ac, cl, s1, s2, s3).
            let es : a ≡ s = cc e in
            let ek : b ≡ k = cc e in
            let ex : c ≡ x = cc e in
            let ey : d ≡ y = cc e in
            let ac' : trim_space c ≡ account = ap trim_space ex ∙ ac in
            let cl' : trim_space d ≡ client = ap trim_space ey ∙ cl in
            parsed.1 (
              ek ∙ pair,
              ac',
              cl',
              (safe_limiter_part-IsSafe (trim_space a)).1
                  (subst IsSafe (ap trim_space (sym es)) s1),
              (safe_limiter_part-IsSafe (trim_space c)).1 (subst IsSafe (sym ac') s2),
              (safe_limiter_part-IsSafe (trim_space d)).1 (subst IsSafe (sym cl') s3),
            )),
      )
  account_of-IsPairParts (a ∷ b ∷ c ∷ d ∷ e' ∷ ps) = ((λ h. cc), (λ h. cc h.4))

  pub account_of-IsPairKey :
      (key : Text)
      → (account_of client (parse_pair_limiter_key key) ≡ some account)
        ↔ IsPairKey client account key
  unfolding parse_pair_limiter_key parts_of
  account_of-IsPairKey key = account_of-IsPairParts (split b'|' (to_lower (trim_space key)))

-- A row of the service that failed within the minute before `now`, with a pair key.
abbrev pub IsCounted : SqlLoginLimiter → ℕ → Text → Text → (Text × Text) × RateRow → Type 0
IsCounted l now client account ((service, key), row) =
    (service ≡ l.service)
    × ((at : ℕ) × (row.last_failed_at ≡ some at) × (now ≤ at + auth_spray_window))
    × (contains key (codes "|pair|") ≡ true)
    × IsPairKey client account key

failed_since-some :
    (o : Option ℕ) (now window : ℕ)
    → (failed_since o now window ≡ true) ↔ ((at : ℕ) × (o ≡ some at) × (now ≤ at + window))
unfolding failed_since
failed_since-some none now window = ((λ h. cc), (λ (at, e, h). cc))
failed_since-some (some t) now window = (
  (λ h. (t, refl, ground (arith, h))),
  (λ (at, e, h). let same : t ≡ at = cc e in ground (arith, h, same)),
)

pub is_scanned-IsCounted :
    (l : SqlLoginLimiter) (now : ℕ) (client account service key : Text) (row : RateRow)
    → ((is_scanned l now service key row ≡ true)
        × (account_of client (parse_pair_limiter_key key) ≡ some account))
      ↔ IsCounted l now client account ((service, key), row)
unfolding is_scanned
is_scanned-IsCounted l now client account service key row =
    let named = text_eq_iff service l.service in
    let recent = failed_since-some row.last_failed_at now auth_spray_window in
    let pair = account_of-IsPairKey client account key in
    (
      (λ (h, a).
          (named.0 (ground (arith, h)), recent.0 (ground (arith, h)), ground (arith, h), pair.0 a)),
      (λ (s, r, has, k).
          let s' = named.1 s in let r' = recent.1 r in (simp (s', r', has), pair.1 k)),
    )
