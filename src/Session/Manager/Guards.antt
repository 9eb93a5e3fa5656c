-- ===== src/Session/Manager/Guards.antt =====
-- What a request must show to pass.
use pro_identity_mail.Prelude.{ℕ, ◌≤◌, ◌≡◌, ◌≢◌, refl, ◌↔◌, [], ◌∷◌, Option, none, some, get, arith}
use pro_identity_mail.Text.{Text, Text-Eq, text_eq_iff}
use pro_identity_mail.Session.Manager.{
  Session, Manager, Request, browser_fingerprint, check_session, check_cookie, validate, sent_token,
  check_csrf, validate_unsafe,
}

module _ (hash : Text → Text) where
  -- The request carries the key of a session that has not expired, from the browser that it was
  -- made for.
  abbrev pub Admits : Manager → ℕ → Request → Session → Type 0
  Admits m now r s =
      (value : Text) × (r.cookie m.cookie_name ≡ some value)
      × (value ≢ [])
      × (get m.sessions (hash value) ≡ some s)
      × (now ≤ s.expires_at)
      × (s.fingerprint_hash ≡ browser_fingerprint hash r)

  check_session-some :
      (m : Manager) (now : ℕ) (r : Request) (value : Text) (o : Option Session) (s : Session)
      → ((check_session hash m now r value o).1 ≡ some s)
        ↔ ((o ≡ some s) × (now ≤ s.expires_at) × (s.fingerprint_hash ≡ browser_fingerprint hash r))
  unfolding check_session
  check_session-some m now r value none s = ((λ h. cc), (λ h. cc h.0))
  check_session-some m now r value (some t) s =
      let same = text_eq_iff t.fingerprint_hash (browser_fingerprint hash r) in
      ((λ h. ground (arith, same)), (λ h. ground (arith, same)))

  some_eq : (v w : Text) → ◌≡◌ {A = Option Text} (some v) (some w) → hash v ≡ hash w
  some_eq v w e = cc

  check_cookie-some :
      (m : Manager) (now : ℕ) (r : Request) (o : Option Text) (s : Session)
      → ((check_cookie hash m now r o).1 ≡ some s) ↔ (
          (value : Text) × (o ≡ some value)
          × (value ≢ [])
          × (get m.sessions (hash value) ≡ some s)
          × (now ≤ s.expires_at)
          × (s.fingerprint_hash ≡ browser_fingerprint hash r))
  unfolding check_cookie
  check_cookie-some m now r none s = ((λ h. cc), (λ h. cc h.1))
  check_cookie-some m now r (some []) s =
      ((λ h. cc), (λ (v, e, ne, g, le, f). absurd (ne (ground arith))))
  check_cookie-some m now r (some (c ∷ value)) s =
      let found = check_session-some m now r (c ∷ value) (get m.sessions (hash (c ∷ value))) s in
      (
        (λ h. let (g, le, f) = found.0 h in (c ∷ value, refl, (λ e. cc), g, le, f)),
        (λ (v, e, ne, g, le, f). found.1 (ground (arith, some_eq (c ∷ value) v e), le, f)),
      )

  -- `Validate` returns a session exactly if the request carries a cookie that is not empty, whose
  -- hash is the key of that session, which has not expired and was made for the same browser.
  pub validate-Admits :
      (m : Manager) (now : ℕ) (r : Request) (s : Session)
      → ((validate hash m now r).1 ≡ some s) ↔ Admits m now r s
  unfolding validate
  validate-Admits m now r s = check_cookie-some m now r (r.cookie m.cookie_name) s

  check_csrf-some :
      (token : Text) (o : Option Session) (s : Session)
      → (check_csrf hash token o ≡ some s)
        ↔ ((o ≡ some s) × (token ≢ []) × (s.csrf_hash ≡ hash token))
  unfolding check_csrf
  check_csrf-some token none s = ((λ h. cc), (λ h. cc h.0))
  check_csrf-some [] (some t) s = ((λ h. cc), (λ h. absurd (h.1 refl)))
  check_csrf-some (c ∷ token) (some t) s =
      let same = text_eq_iff t.csrf_hash (hash (c ∷ token)) in
      ((λ h. (ground (arith, same), (λ e. cc), ground (arith, same))), (λ h. ground (arith, same)))

  -- `ValidateUnsafe` returns a session exactly if the request carries a cookie that is not empty,
  -- whose hash is the key of that session, which has not expired and was made for the same browser,
  -- and sends in a header a token, not empty, whose hash is the session's.
  pub validate_unsafe-Admits :
      (m : Manager) (now : ℕ) (r : Request) (s : Session)
      → ((validate_unsafe hash m now r).1 ≡ some s)
        ↔ (Admits m now r s × (sent_token r ≢ []) × (s.csrf_hash ≡ hash (sent_token r)))
  unfolding validate_unsafe
  validate_unsafe-Admits m now r s =
      let inner = validate-Admits m now r s in
      let outer = check_csrf-some (sent_token r) (validate hash m now r).1 s in
      (
        (λ h. let (o, ne, e) = outer.0 h in (inner.0 o, ne, e)),
        (λ (a, ne, e). outer.1 (inner.1 a, ne, e)),
      )
