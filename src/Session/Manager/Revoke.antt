-- ===== src/Session/Manager/Revoke.antt =====
-- `InvalidateSubject` ends the sessions of a subject, and no others.
use pro_identity_mail.Prelude.{
  ℕ, ◌+◌, ◌≡◌, refl, ◌∙◌, ◌↔◌, List, [], ◌∷◌, false, Option, none, some, if◌then◌else◌, get, IsMap,
  arith, ap, length,
}
use pro_identity_mail.Text.{Text, Text-Eq, text_eq_iff, trim_space}
use pro_identity_mail.Session.Manager.{
  Session, Manager, Request, check_session, check_cookie, validate, is_revoked, remove_revoked,
  invalidate_subject,
}

unfoldable pub keep_unrevoked : Text → Text → Option Session → Option Session
keep_unrevoked subject kind none = none
keep_unrevoked subject kind (some s) = if is_revoked subject kind s then none else some s

pub get-remove_revoked :
    (subject kind : Text) (m : List (Text × Session)) (k : Text)
    → IsMap m
    → get (remove_revoked subject kind m).0 k ≡ keep_unrevoked subject kind (get m k)
unfolding get remove_revoked keep_unrevoked
get-remove_revoked subject kind [] k h = refl
get-remove_revoked subject kind ((j, s) ∷ m) k h =
    ground (arith, text_eq_iff j k, get-remove_revoked subject kind m k h.1)

remove_revoked-length :
    (subject kind : Text) (m : List (Text × Session))
    → let (kept, removed) = remove_revoked subject kind m in removed + length kept ≡ length m
unfolding remove_revoked
remove_revoked-length subject kind [] = refl
remove_revoked-length subject kind ((j, s) ∷ m) =
    ground (arith, remove_revoked-length subject kind m)

module _ (hash : Text → Text) where
  check_session-keep_unrevoked :
      (m m' : Manager) (now : ℕ) (r : Request) (value subject kind : Text) (o : Option Session)
      (s : Session)
      → ((check_session hash m' now r value (keep_unrevoked subject kind o)).1 ≡ some s)
        ↔ (((check_session hash m now r value o).1 ≡ some s) × (is_revoked subject kind s ≡ false))
  unfolding check_session keep_unrevoked
  check_session-keep_unrevoked m m' now r value subject kind none s = ((λ h. cc), (λ h. cc h.0))
  check_session-keep_unrevoked m m' now r value subject kind (some t) s =
      ((λ h. ground arith), (λ h. ground arith))

  check_cookie-revoked :
      (m m' : Manager) (now : ℕ) (r : Request) (subject kind : Text) (o : Option Text) (s : Session)
      → IsMap m.sessions
      → m'.sessions ≡ (remove_revoked subject kind m.sessions).0
      → ((check_cookie hash m' now r o).1 ≡ some s)
        ↔ (((check_cookie hash m now r o).1 ≡ some s) × (is_revoked subject kind s ≡ false))
  unfolding check_cookie
  check_cookie-revoked m m' now r subject kind none s h e = ((λ h. cc), (λ h. cc h.0))
  check_cookie-revoked m m' now r subject kind (some []) s h e = ((λ h. cc), (λ h. cc h.0))
  check_cookie-revoked m m' now r subject kind (some (c ∷ value)) s h e =
      let k = hash (c ∷ value) in
      let kept : get m'.sessions k ≡ keep_unrevoked subject kind (get m.sessions k) =
        ap (λ (l : List (Text × Session)). get l k) e
        ∙ get-remove_revoked subject kind m.sessions k h in
      rw kept
        (check_session-keep_unrevoked m m' now r (c ∷ value) subject kind (get m.sessions k) s)

  -- If no key stands twice in the manager's map, `InvalidateSubject` returns the number of sessions
  -- that it removes, and afterwards every request is answered as before, except that it finds no
  -- session whose subject is, without regard to case, the trimmed subject and whose kind is the
  -- trimmed kind, when that is not empty.
  pub validate-invalidate_subject :
      (m : Manager) (subject kind : Text) (now : ℕ) (r : Request) (s : Session)
      → IsMap m.sessions
      → let (m', removed) = invalidate_subject m subject kind in
        (removed + length m'.sessions ≡ length m.sessions)
        × (((validate hash m' now r).1 ≡ some s) ↔ (
            ((validate hash m now r).1 ≡ some s)
            × (is_revoked (trim_space subject) (trim_space kind) s ≡ false)))
  unfolding invalidate_subject validate
  validate-invalidate_subject m subject kind now r s h =
      let m' = (invalidate_subject m subject kind).0 in
      (
        remove_revoked-length (trim_space subject) (trim_space kind) m.sessions,
        check_cookie-revoked m m' now r (trim_space subject) (trim_space kind)
            (r.cookie m.cookie_name) s h refl,
      )
