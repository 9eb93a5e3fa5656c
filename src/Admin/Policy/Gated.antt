-- ===== src/Admin/Policy/Gated.antt =====
-- Whom the policy answers, and when it refuses a login.
use pro_identity_mail.Prelude.{
  ℕ, ◌≡◌, ◌≢◌, refl, sym, ◌↔◌, inl, inr, List, [], ◌∷◌, Bool, true, false, ◌||◌, Option, none, some,
  Any, Bool-cases, arith, get, subst,
}
use pro_identity_mail.Text.{
  Text, Text-Eq, codes, text_eq, text_eq_iff, to_lower, trim_space, is_empty,
}
use pro_identity_mail.Session.Interface.{Limiter, any_locked}
use pro_identity_mail.Session.Limiter.{LoginLimiter, login_limiter}
use pro_identity_mail.Session.Limiter.AnyLocked.{HoldsLock, any_locked_lem}
use pro_identity_mail.Admin.Policy.{
  DovecotAuthPolicyRequest, PolicyCall, locked_out, is_loopback_request, dovecot_auth_policy_keys,
  answer_allow, run_command, on_body, dovecot_auth_policy,
}

inner : {A : Type 0} {a b : A} → ◌≡◌ {A = Option A} (some a) (some b) → a ≡ b
inner e = cc

module _ (split_host_port : Text → Option Text) (parse_ip : Text → Option Text)
    (is_loopback : Text → Bool) where
  -- The call comes from the machine itself and has the token, which is not empty.
  abbrev pub IsTrusted : Text → PolicyCall → Type 0
  IsTrusted expected r =
      (is_loopback_request split_host_port parse_ip is_loopback r ≡ true)
      × (expected ≢ [])
      × (r.token ≡ expected)

  -- A call that is not trusted leaves every limiter as it was.
  pub dovecot_auth_policy-trusted :
      {S : Type 0} (limiter : Option (Limiter S)) (expected : Text) (s : S) (now : ℕ)
      (r : PolicyCall)
      → ¬ IsTrusted expected r
      → (dovecot_auth_policy split_host_port parse_ip is_loopback limiter expected s now r).0 ≡ s
  unfolding dovecot_auth_policy
  dovecot_auth_policy-trusted limiter [] s now r h = ground arith
  dovecot_auth_policy-trusted limiter (c ∷ expected) s now r h =
      elim (Bool-cases (is_loopback_request split_host_port parse_ip is_loopback r)) [
        | inr e ↦ rw (dovecot_auth_policy, e) refl
        | inl e ↦ elim (Bool-cases (text_eq r.token (c ∷ expected))) [
          | inr f ↦ rw (dovecot_auth_policy, e, f) refl
          | inl f ↦ absurd (h (e, (λ q. cc), (text_eq_iff r.token (c ∷ expected)).0 f))
        ]
      ]

  answer_allow-locked_out :
      {S : Type 0} (limiter : Option (Limiter S)) (p : S × Bool)
      → ((answer_allow split_host_port parse_ip is_loopback limiter p).1 ≡ locked_out)
        ↔ (p.1 ≡ true)
  unfolding answer_allow
  answer_allow-locked_out limiter (s, true) = ((λ h. refl), (λ h. refl))
  answer_allow-locked_out limiter (s, false) = ((λ h. cc), (λ h. cc))

  -- The command asks, and a key holds a lock.
  abbrev pub Refuses : LoginLimiter → ℕ → List Text → Text → Type 0
  Refuses l now keys command =
      ((is_empty command || text_eq command (codes "allow")) ≡ true)
      × Any (λ k. HoldsLock (get l.failures k) now) keys

  run_command-Refuses :
      (l : LoginLimiter) (now : ℕ) (req : DovecotAuthPolicyRequest) (keys : List Text)
      (command : Text)
      → ((run_command split_host_port parse_ip is_loopback
            (some login_limiter)
            l
            now
            req
            keys
            command).1
          ≡ locked_out)
        ↔ Refuses l now keys command
  unfolding run_command
  run_command-Refuses l now req keys command =
      let asked =
        answer_allow-locked_out (some login_limiter) (any_locked (some login_limiter) l now keys) in
      let held = (any_locked_lem l now keys).0 in
      elim (Bool-cases (is_empty command || text_eq command (codes "allow"))) [
        | inl e ↦
            rw (run_command, e) ((λ h. (refl, held.0 (asked.0 h))), (λ h. asked.1 (held.1 h.1)))
        | inr e ↦ elim (Bool-cases (text_eq command (codes "report"))) [
          | inl f ↦ rw (run_command, e, f) ((λ h. cc), (λ h. cc h.0))
          | inr f ↦ rw (run_command, e, f) ((λ h. cc), (λ h. cc h.0))
        ]
      ]

  -- The keys of a login, as the policy is asked for it.
  abbrev pub keys_of : PolicyCall → DovecotAuthPolicyRequest → List Text
  keys_of r req =
      dovecot_auth_policy_keys split_host_port parse_ip is_loopback req.protocol req.login
        req.remote r.remote_addr

  on_body-Refuses :
      (l : LoginLimiter) (now : ℕ) (r : PolicyCall) (o : Option DovecotAuthPolicyRequest)
      → ((on_body split_host_port parse_ip is_loopback (some login_limiter) l now r o).1
          ≡ locked_out)
        ↔ ((req : DovecotAuthPolicyRequest) × (o ≡ some req)
            × Refuses l now (keys_of r req) (to_lower (trim_space r.command)))
  unfolding on_body
  on_body-Refuses l now r none = ((λ h. cc), (λ h. cc h.1))
  on_body-Refuses l now r (some req) =
      let run = run_command-Refuses l now req (keys_of r req) (to_lower (trim_space r.command)) in
      (
        (λ h. (req, refl, run.0 h)),
        (λ (q, e, h). run.1 (
            subst (λ x. Refuses l now (keys_of r x) (to_lower (trim_space r.command)))
              (sym (inner e)) h)),
      )

  -- The policy refuses a login as locked exactly if the call is trusted, has a readable body, asks by
  -- the command `allow` or by none, and one of the keys of the login holds a lock that ends after now.
  pub dovecot_auth_policy-Refuses :
      (expected : Text) (l : LoginLimiter) (now : ℕ) (r : PolicyCall)
      → ((dovecot_auth_policy split_host_port parse_ip is_loopback
            (some login_limiter)
            expected
            l
            now
            r).1
          ≡ locked_out)
        ↔ (IsTrusted expected r
            × ((req : DovecotAuthPolicyRequest) × (r.body ≡ some req)
                × Refuses l now (keys_of r req) (to_lower (trim_space r.command))))
  unfolding dovecot_auth_policy
  dovecot_auth_policy-Refuses [] l now r = ((λ h. ground (arith, h)), (λ h. absurd (h.0.1 refl)))
  dovecot_auth_policy-Refuses (c ∷ expected) l now r =
      let body = on_body-Refuses l now r r.body in
      let token = text_eq_iff r.token (c ∷ expected) in
      elim (Bool-cases (is_loopback_request split_host_port parse_ip is_loopback r)) [
        | inr e ↦ rw (dovecot_auth_policy, e) ((λ h. cc), (λ h. cc h.0.0))
        | inl e ↦ elim (Bool-cases (text_eq r.token (c ∷ expected))) [
          | inr f ↦ rw (dovecot_auth_policy, e, f) ((λ h. cc), (λ h. cc (f, token.1 h.0.2)))
          | inl f ↦
              rw (dovecot_auth_policy, e, f)
                ((λ h. ((refl, (λ q. cc), token.0 f), body.0 h)), (λ h. body.1 h.1))
        ]
      ]
