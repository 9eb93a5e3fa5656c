-- ===== src/Tests/Sessions.antt =====
-- Runs of the session manager.
use pro_identity_mail.Prelude.{
  ℕ, suc, ◌+◌, ◌≤◌, ◌≡◌, ◌≢◌, refl, ◌↔◌, List, [], ◌∷◌, Bool, true, false, Option, none, some, ℤ,
  pos, ltb, if◌then◌else◌, get, length, arith, IsMap,
}
use pro_identity_mail.Text.{Text, codes, text_eq, trim_space}
use pro_identity_mail.Session.Penalty.{Options}
use pro_identity_mail.Session.Manager.{
  Session, Manager, Request, new_manager, browser_fingerprint, add_duration, new_session, create,
  validate, validate_unsafe, sent_token, clear, mark_step_up, has_recent_step_up, is_revoked,
  invalidate_subject,
}
use pro_identity_mail.Session.Manager.Guards.{Admits, validate-Admits, validate_unsafe-Admits}
use pro_identity_mail.Session.Manager.Invariant.{
  IsReachable, made, steps, creates, WellFormed, IsReachable-WellFormed, validate_unsafe-csrf_token,
}
use pro_identity_mail.Session.Manager.Life.{
  validate-create, validate-clear, has_recent_step_up-mark_step_up,
}
use pro_identity_mail.Session.Manager.Revoke.{validate-invalidate_subject}

abbrev options : Options
options = record {
  cookie_name = codes "sid";
  ttl = pos 100;
  same_site = pos 0;
  secure = true;
  max_failures = pos 0;
  lockout = pos 0;
  window = pos 0;
  penalties = [];
  account_lockout_failures = pos 0;
}

-- a digest that adds a byte
abbrev pub digest : Text → Text
digest s = b'#' ∷ s

abbrev pub request : Request
request = record {
  cookie = λ name. if text_eq name (codes "sid") then some (codes "token") else none;
  user_agent = codes "agent";
  accept_language = codes "en";
  remote_addr = codes "10.0.0.1:5000";
  x_csrf_token = codes "csrf";
  x_proidentity_csrf = [];
}

abbrev pub manager : Manager
manager =
    (create digest (new_manager options) 10 request (codes "ann") (codes "webmail")
      (some (codes "token")) (some (codes "csrf"))).0

abbrev pub session : Session
session =
    new_session digest (new_manager options) 10 request (codes "ann") (codes "webmail")
      (codes "csrf")

found : (validate_unsafe digest manager 50 request).1 ≡ some session
unfolding validate_unsafe validate create new_session new_manager browser_fingerprint get text_eq
    pro_identity_mail.Prelude.put pro_identity_mail.Text.join
    pro_identity_mail.Session.Manager.ip_prefix
found = refl

found_plain : (validate digest manager 50 request).1 ≡ some session
unfolding validate create new_session new_manager browser_fingerprint get text_eq
    pro_identity_mail.Prelude.put pro_identity_mail.Text.join
    pro_identity_mail.Session.Manager.ip_prefix
found_plain = refl

expired : (validate digest manager 111 request).1 ≡ none
unfolding validate create new_session new_manager browser_fingerprint get text_eq
    pro_identity_mail.Prelude.put
expired = refl

reached : IsReachable digest manager
reached = steps (made options) (
    creates (new_manager options) 10 request (codes "ann") (codes "webmail") (some (codes "token"))
      (some (codes "csrf")))

validate-Admits_example :
    ((validate digest manager 50 request).1 ≡ some session)
    ↔ Admits digest manager 50 request session
validate-Admits_example = validate-Admits digest manager 50 request session

validate_unsafe-Admits_example : ((validate_unsafe digest manager 50 request).1 ≡ some session) ↔ (
    Admits digest manager 50 request session
    × (sent_token request ≢ [])
    × (session.csrf_hash ≡ digest (sent_token request)))
validate_unsafe-Admits_example = validate_unsafe-Admits digest manager 50 request session

validate-create_example :
    (validate digest manager 50 request).1
    ≡ (if ltb (add_duration 10 (new_manager options).ttl) 50 then none else some session)
unfolding create new_manager text_eq
validate-create_example =
    validate-create digest (new_manager options) 10 50 request request (codes "ann")
      (codes "webmail") (codes "token") (codes "csrf") (λ e. cc) refl refl

validate-clear_example : (validate digest (clear digest manager request).0 50 request).1 ≡ none
validate-clear_example = validate-clear digest manager 50 request

has_recent_step_up-mark_step_up_example :
    (has_recent_step_up digest (mark_step_up digest manager 50 request (pos 20)).0 60 request).1
    ≡ ltb 60 70
unfolding new_session new_manager
has_recent_step_up-mark_step_up_example =
    has_recent_step_up-mark_step_up digest manager 50 60 19 request session found (omega arith)

IsReachable-WellFormed_example : WellFormed digest manager
IsReachable-WellFormed_example = IsReachable-WellFormed digest manager reached

validate_unsafe-csrf_token_example : (validate_unsafe digest manager 50 request).1 ≡ some session
unfolding sent_token new_session
validate_unsafe-csrf_token_example =
    validate_unsafe-csrf_token digest manager 50 request session reached found_plain refl (λ e. cc)

validate-invalidate_subject_example :
    let (m', removed) = invalidate_subject manager (codes " ann ") (codes "") in
    (removed + length m'.sessions ≡ length manager.sessions)
    × (((validate digest m' 50 request).1 ≡ some session) ↔ (
        ((validate digest manager 50 request).1 ≡ some session)
        × (is_revoked (trim_space (codes " ann ")) (trim_space (codes "")) session ≡ false)))
validate-invalidate_subject_example =
    validate-invalidate_subject digest manager (codes " ann ") (codes "") 50 request session
      (IsReachable-WellFormed digest manager reached).is_map
