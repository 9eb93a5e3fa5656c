-- ===== src/Admin/Access/Gate.antt =====
-- Who passes the check before every handler, and the checks of a domain or a user.
use pro_identity_mail.Prelude.{
  ℕ, ◌≡◌, ◌≢◌, refl, ◌↔◌, ◌⊎◌, inl, inr, List, [], true, false, ◌&&◌, Option, none, some,
  Bool-cases,
}
use pro_identity_mail.Text.{Text, codes, text_eq, text_eq_iff, is_empty}
use pro_identity_mail.Session.Manager.{
  Session, Manager, Request, sent_token, validate, validate_unsafe,
}
use pro_identity_mail.Session.Manager.Guards.{validate-Admits, validate_unsafe-Admits}
use pro_identity_mail.Admin.Access.{
  AdminPrincipal, AuthConfig, Answer, passes, csrf_required, unauthorized, answer_of,
  admin_principal_for_subject, safe_method, admit, admit_or, with_sessions, require_admin,
}
use pro_identity_mail.Admin.Models.{TenantAdmin}

answer_of-passes :
    (o : Option AdminPrincipal) (p : AdminPrincipal) → (answer_of o ≡ passes p) ↔ (o ≡ some p)
unfolding answer_of
answer_of-passes none p = ((λ h. cc), (λ h. cc))
answer_of-passes (some q) p = ((λ h. cc), (λ h. cc))

module _ (hash : Text → Text) (store : Option (Text → Option (List TenantAdmin))) where
  -- A session of an administrator.
  abbrev pub IsAdminSession : AuthConfig → Session → AdminPrincipal → Type 0
  IsAdminSession auth s p =
      (s.kind ≡ codes "admin") × (admin_principal_for_subject auth store s.subject ≡ some p)

  admit-passes :
      (auth : AuthConfig) (s : Session) (p : AdminPrincipal)
      → (admit hash store auth s ≡ passes p) ↔ IsAdminSession auth s p
  unfolding admit
  admit-passes auth s p =
      let kind = text_eq_iff s.kind (codes "admin") in
      let principal = answer_of-passes (admin_principal_for_subject auth store s.subject) p in
      elim (Bool-cases (text_eq s.kind (codes "admin"))) [
        | inl e ↦ rw (admit, e) ((λ h. (kind.0 e, principal.0 h)), (λ h. principal.1 h.1))
        | inr e ↦ rw (admit, e) ((λ h. cc), (λ h. cc (kind.1 h.0, e)))
      ]

  admit_or-passes :
      (refused : Answer) (auth : AuthConfig) (o : Option Session) (p : AdminPrincipal)
      → refused ≢ passes p
      → (admit_or hash store refused auth o ≡ passes p)
        ↔ ((s : Session) × (o ≡ some s) × IsAdminSession auth s p)
  unfolding admit_or
  admit_or-passes refused auth none p ne = ((λ h. absurd (ne h)), (λ h. cc h.1))
  admit_or-passes refused auth (some s) p ne =
      let one = admit-passes auth s p in
      ((λ h. (s, refl, one.0 h)), (λ (t, e, k). one.1 (cc (e, k.0), cc (e, k.1))))

  validate_unsafe-some :
      (m : Manager) (now : ℕ) (r : Request) (s : Session)
      → ((validate_unsafe hash m now r).1 ≡ some s) ↔ (
          ((validate hash m now r).1 ≡ some s)
          × (sent_token r ≢ [])
          × (s.csrf_hash ≡ hash (sent_token r)))
  validate_unsafe-some m now r s =
      let whole = validate_unsafe-Admits hash m now r s in
      let session = validate-Admits hash m now r s in
      (
        (λ h. let (a, ne, e) = whole.0 h in (session.1 a, ne, e)),
        (λ (h, ne, e). whole.1 (session.0 h, ne, e)),
      )

  with_sessions-passes :
      (auth : AuthConfig) (now : ℕ) (method : Text) (r : Request) (basic : Option (Text × Text))
      (m : Manager) (p : AdminPrincipal)
      → ((with_sessions hash store auth now method r basic (some m)).1 ≡ passes p) ↔ (
          (s : Session) × ((validate hash m now r).1 ≡ some s)
          × IsAdminSession auth s p
          × ((safe_method method ≡ true)
              ⊎ ((sent_token r ≢ []) × (s.csrf_hash ≡ hash (sent_token r)))))
  unfolding with_sessions
  with_sessions-passes auth now method r basic m p =
      let safe = admit_or-passes unauthorized auth (validate hash m now r).1 p (λ e. cc) in
      let unsafe =
        admit_or-passes csrf_required auth (validate_unsafe hash m now r).1 p (λ e. cc) in
      elim (Bool-cases (safe_method method)) [
        | inl e ↦
            rw (with_sessions, e)
              (
                (λ h. let (s, v, a) = safe.0 h in (s, v, a, inl refl)),
                (λ (s, v, a, t). safe.1 (s, v, a)),
              )
        | inr e ↦
            rw (with_sessions, e)
              (
                (λ h.
                    let (s, v, a) = unsafe.0 h in
                    let (found, ne, same) = (validate_unsafe-some m now r s).0 v in
                    (s, found, a, inr (ne, same))),
                (λ (s, v, a, t). elim t [
                  | inl q ↦ cc q
                  | inr q ↦ unsafe.1 (s, (validate_unsafe-some m now r s).1 (v, q.0, q.1), a)
                ]),
              )
      ]

  -- With a user name or a password configured and a session manager, a request passes as a principal
  -- exactly if `Validate` finds its session, the session is of the kind `admin`, its subject has that
  -- principal, and the method is a safe one or the request sends a token, not empty, whose hash is
  -- that of the session.
  pub require_admin-passes :
      (auth : AuthConfig) (now : ℕ) (method : Text) (r : Request) (basic : Option (Text × Text))
      (m : Manager) (p : AdminPrincipal)
      → (is_empty auth.username && is_empty auth.password) ≡ false
      → auth.sessions ≡ some m
      → ((require_admin hash store auth now method r basic).1 ≡ passes p) ↔ (
          (s : Session) × ((validate hash m now r).1 ≡ some s)
          × IsAdminSession auth s p
          × ((safe_method method ≡ true)
              ⊎ ((sent_token r ≢ []) × (s.csrf_hash ≡ hash (sent_token r)))))
  unfolding require_admin
  require_admin-passes auth now method r basic m p configured has =
      let same : require_admin hash store auth now method r basic
          ≡ with_sessions hash store auth now method r basic (some m) =
        simp (require_admin, configured, has) in
      simp same (with_sessions-passes auth now method r basic m p)
