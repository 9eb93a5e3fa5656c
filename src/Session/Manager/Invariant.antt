-- ===== src/Session/Manager/Invariant.antt =====
-- What holds of a manager after any calls of its methods.
use pro_identity_mail.Prelude.{
  ℕ, ◌+◌, ◌≡◌, ◌≢◌, refl, ◌∙◌, sym, List, [], ◌∷◌, Option, none, some, ℤ, get, put, delete, IsMap,
  put-IsMap, delete-IsMap, get-put, get-delete, arith, ap, Option-cases, Bool-cases, inl, inr,
  leb_ℤ, pos, pos_part,
}
use pro_identity_mail.Text.{Text, Text-Eq, trim_space}
use pro_identity_mail.Session.Penalty.{Options}
use pro_identity_mail.Session.Manager.{
  Session, Manager, Request, new_manager, new_session, create, check_session, check_cookie,
  validate, sent_token, validate_unsafe, clear, clear_cookie, mark_session, mark_valid,
  mark_step_up, has_recent_step_up, remove_revoked, invalidate_subject,
}
use pro_identity_mail.Session.Manager.Guards.{validate-Admits, validate_unsafe-Admits}
use pro_identity_mail.Session.Manager.Revoke.{get-remove_revoked, keep_unrevoked}

module _ (hash : Text → Text) where
  -- One call of a method.
  pub data Step : Manager → Manager → Type 0 where
    creates :
        (m : Manager) (now : ℕ) (r : Request) (subject kind : Text) (token csrf : Option Text)
        → Step m (create hash m now r subject kind token csrf).0
    validates : (m : Manager) (now : ℕ) (r : Request) → Step m (validate hash m now r).0
    validates_unsafe :
        (m : Manager) (now : ℕ) (r : Request) → Step m (validate_unsafe hash m now r).0
    clears : (m : Manager) (r : Request) → Step m (clear hash m r).0
    marks :
        (m : Manager) (now : ℕ) (r : Request) (ttl : ℤ) → Step m (mark_step_up hash m now r ttl).0
    asks : (m : Manager) (now : ℕ) (r : Request) → Step m (has_recent_step_up hash m now r).0
    invalidates : (m : Manager) (subject kind : Text) → Step m (invalidate_subject m subject kind).0

  -- The managers that calls can lead to.
  pub data IsReachable : Manager → Type 0 where
    made : (options : Options) → IsReachable (new_manager options)
    steps : {m m' : Manager} → IsReachable m → Step m m' → IsReachable m'

  -- Every stored session holds the hash of its token, and no key stands twice.
  pub record WellFormed (m : Manager) : Type 0 where
    pub is_map : IsMap m.sessions
    pub csrf :
        (k : Text) (s : Session) → get m.sessions k ≡ some s → s.csrf_hash ≡ hash s.csrf_token

  put-WellFormed :
      (m : Manager) (k : Text) (s : Session)
      → s.csrf_hash ≡ hash s.csrf_token
      → WellFormed m
      → WellFormed (record m { sessions = put m.sessions k s })
  put-WellFormed m k s e w = record {
    is_map = put-IsMap m.sessions k s w.is_map;
    csrf = λ j t g. ground (arith, get-put m.sessions k j s, w.csrf j t);
  }

  delete-WellFormed :
      (m : Manager) (k : Text)
      → WellFormed m
      → WellFormed (record m { sessions = delete m.sessions k })
  delete-WellFormed m k w = record {
    is_map = delete-IsMap m.sessions k w.is_map;
    csrf = λ j t g. ground (arith, get-delete m.sessions k j, w.csrf j t);
  }

  create-WellFormed :
      (m : Manager) (now : ℕ) (r : Request) (subject kind : Text) (token csrf : Option Text)
      → WellFormed m
      → WellFormed (create hash m now r subject kind token csrf).0
  unfolding create new_session
  create-WellFormed m now r subject kind none csrf w = w
  create-WellFormed m now r subject kind (some token) none w = w
  create-WellFormed m now r subject kind (some token) (some csrf) w =
      put-WellFormed m (hash token) (new_session hash m now r subject kind csrf) refl w

  check_session-WellFormed :
      (m : Manager) (now : ℕ) (r : Request) (value : Text) (o : Option Session)
      → WellFormed m
      → WellFormed (check_session hash m now r value o).0
  unfolding check_session
  check_session-WellFormed m now r value none w = w
  check_session-WellFormed m now r value (some s) w =
      ground (arith, w, delete-WellFormed m (hash value) w)

  check_cookie-WellFormed :
      (m : Manager) (now : ℕ) (r : Request) (o : Option Text)
      → WellFormed m
      → WellFormed (check_cookie hash m now r o).0
  unfolding check_cookie
  check_cookie-WellFormed m now r none w = w
  check_cookie-WellFormed m now r (some []) w = w
  check_cookie-WellFormed m now r (some (c ∷ value)) w =
      check_session-WellFormed m now r (c ∷ value) (get m.sessions (hash (c ∷ value))) w

  clear_cookie-WellFormed :
      (m : Manager) (o : Option Text) → WellFormed m → WellFormed (clear_cookie hash m o)
  unfolding clear_cookie
  clear_cookie-WellFormed m none w = w
  clear_cookie-WellFormed m (some value) w = delete-WellFormed m (hash value) w

  mark_session-WellFormed :
      (m : Manager) (now ttl : ℕ) (o : Option Text)
      → WellFormed m
      → WellFormed (mark_session hash m now ttl o).0
  unfolding mark_session
  mark_session-WellFormed m now ttl none w = w
  mark_session-WellFormed m now ttl (some value) w =
      elim (Option-cases (get m.sessions (hash value))) [
        | inl e ↦ rw (e, mark_session) w
        | inr (s, e) ↦
            rw (e, mark_session)
              (put-WellFormed m (hash value) (record s { step_up_until = now + ttl })
                (w.csrf (hash value) s e) w)
      ]

  validate-WellFormed :
      (m : Manager) (now : ℕ) (r : Request) → WellFormed m → WellFormed (validate hash m now r).0
  unfolding validate
  validate-WellFormed m now r w = check_cookie-WellFormed m now r (r.cookie m.cookie_name) w

  mark_valid-WellFormed :
      (m : Manager) (now : ℕ) (r : Request) (ttl : ℕ) (o : Option Session)
      → WellFormed m
      → WellFormed (mark_valid hash m now r ttl o).0
  unfolding mark_valid
  mark_valid-WellFormed m now r ttl none w = w
  mark_valid-WellFormed m now r ttl (some s) w =
      mark_session-WellFormed m now ttl (r.cookie m.cookie_name) w

  mark_step_up-WellFormed :
      (m : Manager) (now : ℕ) (r : Request) (ttl : ℤ)
      → WellFormed m
      → WellFormed (mark_step_up hash m now r ttl).0
  unfolding mark_step_up validate_unsafe
  mark_step_up-WellFormed m now r ttl w = elim (Bool-cases (leb_ℤ ttl (pos 0))) [
    | inl e ↦ rw (e, mark_step_up) w
    | inr e ↦
        rw (e, mark_step_up)
          (mark_valid-WellFormed (validate hash m now r).0 now r (pos_part ttl)
            (validate_unsafe hash m now r).1 (validate-WellFormed m now r w))
  ]

  remove_revoked-IsMap :
      (subject kind : Text) (m : List (Text × Session))
      → IsMap m
      → IsMap (remove_revoked subject kind m).0
  unfolding remove_revoked keep_unrevoked
  remove_revoked-IsMap subject kind [] h = tt
  remove_revoked-IsMap subject kind ((k, s) ∷ m) h =
      let kept : get (remove_revoked subject kind m).0 k ≡ none =
        get-remove_revoked subject kind m k h.1 ∙ ap (keep_unrevoked subject kind) h.0 in
      ground (arith, kept, remove_revoked-IsMap subject kind m h.1)

  stored :
      (subject kind : Text) (o : Option Session) (s : Session)
      → ((t : Session) → o ≡ some t → t.csrf_hash ≡ hash t.csrf_token)
      → keep_unrevoked subject kind o ≡ some s
      → s.csrf_hash ≡ hash s.csrf_token
  unfolding keep_unrevoked
  stored subject kind none s h e = cc
  stored subject kind (some t) s h e = h s (ground (arith, e))

  invalidate_subject-WellFormed :
      (m : Manager) (subject kind : Text)
      → WellFormed m
      → WellFormed (invalidate_subject m subject kind).0
  unfolding invalidate_subject
  invalidate_subject-WellFormed m subject kind w = record {
    is_map = remove_revoked-IsMap (trim_space subject) (trim_space kind) m.sessions w.is_map;
    csrf = λ k s g.
        stored (trim_space subject) (trim_space kind) (get m.sessions k) s (w.csrf k) (
          sym (get-remove_revoked (trim_space subject) (trim_space kind) m.sessions k w.is_map)
          ∙ g);
  }

  Step-WellFormed : (m m' : Manager) → Step m m' → WellFormed m → WellFormed m'
  unfolding validate_unsafe clear has_recent_step_up
  Step-WellFormed m _ (creates _ now r subject kind token csrf) w =
      create-WellFormed m now r subject kind token csrf w
  Step-WellFormed m _ (validates _ now r) w = validate-WellFormed m now r w
  Step-WellFormed m _ (validates_unsafe _ now r) w = validate-WellFormed m now r w
  Step-WellFormed m _ (clears _ r) w = clear_cookie-WellFormed m (r.cookie m.cookie_name) w
  Step-WellFormed m _ (marks _ now r ttl) w = mark_step_up-WellFormed m now r ttl w
  Step-WellFormed m _ (asks _ now r) w = validate-WellFormed m now r w
  Step-WellFormed m _ (invalidates _ subject kind) w =
      invalidate_subject-WellFormed m subject kind w

  -- In every manager that calls of the methods can lead to, no key of the map stands twice and each
  -- session holds the hash of the token that it gives out.
  pub IsReachable-WellFormed : (m : Manager) → IsReachable m → WellFormed m
  unfolding new_manager get
  IsReachable-WellFormed m (made options) = record { is_map = tt; csrf = λ k s g. cc }
  IsReachable-WellFormed m (steps {m = m0} reached step) =
      Step-WellFormed m0 m step (IsReachable-WellFormed m0 reached)

  -- In such a manager, a request that finds a session and sends in a header the token of that
  -- session, which is not empty, passes the check of `ValidateUnsafe` too.
  pub validate_unsafe-csrf_token :
      (m : Manager) (now : ℕ) (r : Request) (s : Session)
      → IsReachable m
      → (validate hash m now r).1 ≡ some s
      → sent_token r ≡ s.csrf_token
      → s.csrf_token ≢ []
      → (validate_unsafe hash m now r).1 ≡ some s
  validate_unsafe-csrf_token m now r s reached found sent ne =
      let admits = (validate-Admits hash m now r s).0 found in
      let (value, c, nv, g, late, f) = admits in
      let csrf = (IsReachable-WellFormed m reached).csrf (hash value) s g in
      (validate_unsafe-Admits hash m now r s).1
        (admits, (λ e. ne (sym sent ∙ e)), csrf ∙ ap hash (sym sent))
