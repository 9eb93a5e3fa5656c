-- ===== src/Session/Manager/Life.antt =====
-- A session from its creation to its end.
use pro_identity_mail.Prelude.{
  ℕ, suc, ◌+◌, ◌≤◌, ◌≡◌, ◌≢◌, refl, ◌∙◌, sym, [], ◌∷◌, false, Option, none, some, pos, ltb, leb_ℤ,
  if◌then◌else◌, get, put, get-put, get-delete, arith,
}
use pro_identity_mail.Text.{Text, Text-Eq, text_eq_iff, text_eq_refl}
use pro_identity_mail.Session.Manager.{
  Session, Manager, Request, browser_fingerprint, add_duration, new_session, create, check_session,
  check_cookie, validate, validate_unsafe, clear, clear_cookie, mark_session, mark_valid,
  mark_step_up, is_stepped_up, has_recent_step_up,
}
use pro_identity_mail.Session.Manager.Guards.{validate-Admits, validate_unsafe-Admits}

ttl_positive : (ttl : ℕ) → leb_ℤ (pos (suc ttl)) (pos 0) ≡ false
ttl_positive ttl = ground arith

module _ (hash : Text → Text) where
  -- A request that carries a value in the manager's cookie.
  abbrev pub Carries : Manager → Request → Text → Type 0
  Carries m r value = r.cookie m.cookie_name ≡ some value

  check_session-own :
      (m : Manager) (now : ℕ) (r : Request) (value : Text) (s : Session)
      → s.fingerprint_hash ≡ browser_fingerprint hash r
      → (check_session hash m now r value (some s)).1
        ≡ (if ltb s.expires_at now then none else some s)
  unfolding check_session
  check_session-own m now r value s e =
      ground (arith, text_eq_iff s.fingerprint_hash (browser_fingerprint hash r))

  -- Whatever was stored before, a new session is found by every request that carries its cookie and
  -- comes from the same browser, until it expires and no longer.
  pub validate-create :
      (m : Manager) (now later : ℕ) (r r' : Request) (subject kind token csrf : Text)
      → token ≢ []
      → let m' = (create hash m now r subject kind (some token) (some csrf)).0 in
        Carries m' r' token
        → browser_fingerprint hash r' ≡ browser_fingerprint hash r
        → (validate hash m' later r').1 ≡ (
            if ltb (add_duration now m.ttl) later
            then none
            else some (new_session hash m now r subject kind csrf))
  unfolding create validate check_cookie new_session
  validate-create m now later r r' subject kind [] csrf ne c f = absurd (ne refl)
  validate-create m now later r r' subject kind (t ∷ token) csrf ne c f =
      let session = new_session hash m now r subject kind csrf in
      let value = t ∷ token in
      let m' = (create hash m now r subject kind (some value) (some csrf)).0 in
      rw (c, get-put m.sessions (hash value) (hash value) session, text_eq_refl (hash value))
        (check_session-own m' later r' value session (sym f))

  cleared :
      (m : Manager) (now : ℕ) (r : Request) (o : Option Text)
      → (check_cookie hash (clear_cookie hash m o) now r o).1 ≡ none
  unfolding clear_cookie check_cookie check_session
  cleared m now r none = refl
  cleared m now r (some []) = refl
  cleared m now r (some (c ∷ value)) =
      let gone = get-delete m.sessions (hash (c ∷ value)) (hash (c ∷ value)) in
      rw (gone, text_eq_refl (hash (c ∷ value))) refl

  clear_cookie-cookie_name :
      (m : Manager) (o : Option Text) → (clear_cookie hash m o).cookie_name ≡ m.cookie_name
  unfolding clear_cookie
  clear_cookie-cookie_name m none = refl
  clear_cookie-cookie_name m (some value) = refl

  -- After `Clear`, the same request finds no session at any time.
  pub validate-clear :
      (m : Manager) (later : ℕ) (r : Request) → (validate hash (clear hash m r).0 later r).1 ≡ none
  unfolding validate clear
  validate-clear m later r =
      rw (clear_cookie-cookie_name m (r.cookie m.cookie_name))
        (cleared m later r (r.cookie m.cookie_name))

  -- What marking a stored session does.
  mark_session-sessions :
      (m : Manager) (now ttl : ℕ) (value : Text) (s : Session)
      → get m.sessions (hash value) ≡ some s
      → (mark_session hash m now ttl (some value)).0 ≡ record m {
        sessions = put m.sessions (hash value) (record s { step_up_until = now + ttl });
      }
  unfolding mark_session
  mark_session-sessions m now ttl value s g = rw (g, mark_session) refl

  check_session-kept :
      (m : Manager) (now : ℕ) (r : Request) (value : Text) (o : Option Session) (s : Session)
      → (check_session hash m now r value o).1 ≡ some s
      → (check_session hash m now r value o).0 ≡ m
  unfolding check_session
  check_session-kept m now r value none s h = refl
  check_session-kept m now r value (some t) s h = ground (arith, h)

  check_cookie-kept :
      (m : Manager) (now : ℕ) (r : Request) (o : Option Text) (s : Session)
      → (check_cookie hash m now r o).1 ≡ some s
      → (check_cookie hash m now r o).0 ≡ m
  unfolding check_cookie
  check_cookie-kept m now r none s h = refl
  check_cookie-kept m now r (some []) s h = refl
  check_cookie-kept m now r (some (c ∷ value)) s h =
      check_session-kept m now r (c ∷ value) (get m.sessions (hash (c ∷ value))) s h

  validate-kept :
      (m : Manager) (now : ℕ) (r : Request) (s : Session)
      → (validate hash m now r).1 ≡ some s
      → (validate hash m now r).0 ≡ m
  unfolding validate
  validate-kept m now r s h = check_cookie-kept m now r (r.cookie m.cookie_name) s h

  unsafe-kept :
      (m : Manager) (now : ℕ) (r : Request) (s : Session)
      → (validate hash m now r).1 ≡ some s
      → (validate_unsafe hash m now r).0 ≡ m
  unfolding validate_unsafe
  unsafe-kept m now r s h = validate-kept m now r s h

  mark_step_up-sessions :
      (m : Manager) (now ttl : ℕ) (r : Request) (s : Session) (value : Text)
      → (validate_unsafe hash m now r).1 ≡ some s
      → r.cookie m.cookie_name ≡ some value
      → get m.sessions (hash value) ≡ some s
      → (mark_step_up hash m now r (pos (suc ttl))).0 ≡ record m {
        sessions = put m.sessions (hash value) (record s { step_up_until = now + suc ttl });
      }
  unfolding mark_step_up mark_valid
  mark_step_up-sessions m now ttl r s value passed c g =
      let (valid, ne, e) = (validate_unsafe-Admits hash m now r s).0 passed in
      let kept : (validate_unsafe hash m now r).0 ≡ m =
        unsafe-kept m now r s ((validate-Admits hash m now r s).1 valid) in
      rw (passed, kept, c, ttl_positive ttl) (mark_session-sessions m now (suc ttl) value s g)

  -- A request that passes `ValidateUnsafe` and marks a step-up for a positive time has, at any later
  -- time up to the session's end, a recent step-up exactly while that time is not over.
  pub has_recent_step_up-mark_step_up :
      (m : Manager) (now later ttl : ℕ) (r : Request) (s : Session)
      → (validate_unsafe hash m now r).1 ≡ some s
      → later ≤ s.expires_at
      → (has_recent_step_up hash (mark_step_up hash m now r (pos (suc ttl))).0 later r).1
        ≡ ltb later (now + suc ttl)
  unfolding has_recent_step_up is_stepped_up
  has_recent_step_up-mark_step_up m now later ttl r s passed late =
      let (admits, ne, e) = (validate_unsafe-Admits hash m now r s).0 passed in
      let (value, c, nv, g, le, f) = admits in
      let s' : Session = record s { step_up_until = now + suc ttl } in
      let m' : Manager = record m { sessions = put m.sessions (hash value) s' } in
      let found : get m'.sessions (hash value) ≡ some s' =
        get-put m.sessions (hash value) (hash value) s' ∙ rw (text_eq_refl (hash value)) refl in
      let valid : (validate hash m' later r).1 ≡ some s' =
        (validate-Admits hash m' later r s').1 (value, c, nv, found, late, f) in
      rw (mark_step_up-sessions m now ttl r s value passed c g, has_recent_step_up, valid) refl
