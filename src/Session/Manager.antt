-- ===== src/Session/Manager.antt =====
-- `Manager` (internal/session/manager.go), the browser sessions of a service.
-- The mutex makes each access to the map one step; a method runs to its end before the next. The
-- hash, SHA-256 in hexadecimal, is a parameter, and so are the random tokens and the clock, whose
-- reading is an argument. A request is what the methods read of it.
pub mod Guards
pub mod Invariant
pub mod Life
pub mod Revoke
use pro_identity_mail.Prelude.{
  ℕ, suc, ◌+◌, ◌-◌, ◌/◌, ◌*◌, List, [], ◌∷◌, ◌++◌, Bool, true, false, ◌&&◌, ◌||◌, not, Option, none,
  some, ℤ, pos, negsuc, pos_part, ltb, leb_ℤ, ltb_ℤ, eqb_ℤ, ◌==◌, if◌then◌else◌, get, put, delete,
  take, length,
}
use pro_identity_mail.Text.{
  Text, Text-Eq, codes, text_eq, equal_fold, trim_space, is_empty, split, join,
}
use pro_identity_mail.Session.Penalty.{Options, second, hour, or_default}

pub record Session : Type 0 where
  pub subject : Text
  pub kind : Text
  pub csrf_token : Text
  pub csrf_hash : Text
  pub fingerprint_hash : Text
  pub expires_at : ℕ
  pub step_up_until : ℕ

pub record Manager : Type 0 where
  pub cookie_name : Text
  pub ttl : ℤ
  pub same_site : ℤ
  pub secure : Bool
  pub sessions : List (Text × Session)

pub record Request : Type 0 where
  pub cookie : Text → Option Text
  pub user_agent : Text
  pub accept_language : Text
  pub remote_addr : Text
  pub x_csrf_token : Text
  pub x_proidentity_csrf : Text

pub record Cookie : Type 0 where
  pub name : Text
  pub value : Text
  pub path : Text
  pub expires : ℕ
  pub max_age : ℤ
  pub http_only : Bool
  pub same_site : ℤ
  pub secure : Bool

pub record Created : Type 0 where
  pub cookie : Cookie
  pub csrf_token : Text

-- `http.SameSiteStrictMode`
abbrev same_site_strict_mode : ℤ
same_site_strict_mode = pos 3

unfoldable pub new_manager : Options → Manager
new_manager options = record {
  cookie_name =
      if is_empty options.cookie_name then codes "proidentity_session" else options.cookie_name;
  ttl = or_default options.ttl (pos (8 * hour));
  same_site = or_default options.same_site same_site_strict_mode;
  secure = options.secure;
  sessions = [];
}

-- `strings.LastIndex(host, ":")`, with the text in front of it
before_last : ℕ → Text → Option Text
before_last sep [] = none
before_last sep (c ∷ s) = elim (before_last sep s) [
  | some front ↦ some (c ∷ front)
  | none ↦ if c == sep then some [] else none
]

host_of : Text → Option Text → Text
host_of addr none = addr
host_of addr (some []) = addr
host_of addr (some (c ∷ front)) = c ∷ front

unfoldable pub ip_prefix : Text → Text
unfolding before_last host_of split join
ip_prefix remote_addr =
    let host = host_of remote_addr (before_last b':' remote_addr) in
    let parts = split b'.' host in
    if length parts == 4 then join (take 3 parts) (codes ".") else host

-- `now.Add(ttl)`
unfoldable pub add_duration : ℕ → ℤ → ℕ
add_duration now (pos n) = now + n
add_duration now (negsuc n) = now - suc n

-- `int(ttl.Seconds())`, rounded towards zero
whole_seconds : ℤ → ℤ
whole_seconds (pos n) = pos (n / second)
whole_seconds (negsuc n) = let k = suc n / second in if k == 0 then pos 0 else negsuc (k - 1)

new_cookie : Manager → Text → ℕ → ℤ → Cookie
new_cookie m value expires max_age = record {
  name = m.cookie_name;
  value = value;
  path = codes "/";
  expires = expires;
  max_age = max_age;
  http_only = true;
  same_site = m.same_site;
  secure = m.secure;
}

unfoldable pub sent_token : Request → Text
sent_token r = if is_empty r.x_csrf_token then r.x_proidentity_csrf else r.x_csrf_token

is_stepped_up : ℕ → Option Session → Bool
is_stepped_up now none = false
is_stepped_up now (some session) = ltb now session.step_up_until

module _ (hash : Text → Text) where
  unfoldable pub browser_fingerprint : Request → Text
  browser_fingerprint r =
      hash (join (r.user_agent ∷ r.accept_language ∷ ip_prefix r.remote_addr ∷ []) (codes "\n"))

  unfoldable pub new_session : Manager → ℕ → Request → Text → Text → Text → Session
  unfolding add_duration
  new_session m now r subject kind csrf = record {
    subject = subject;
    kind = kind;
    csrf_token = csrf;
    csrf_hash = hash csrf;
    fingerprint_hash = browser_fingerprint r;
    expires_at = add_duration now m.ttl;
    step_up_until = 0;
  }

  -- The two random tokens; `none` is an error of the source.
  unfoldable pub create :
      Manager → ℕ → Request → Text → Text → Option Text → Option Text → Manager × Option Created
  unfolding new_session whole_seconds new_cookie
  create m now r subject kind none csrf = (m, none)
  create m now r subject kind (some token) none = (m, none)
  create m now r subject kind (some token) (some csrf) =
      let session = new_session m now r subject kind csrf in
      (
        record m { sessions = put m.sessions (hash token) session },
        some (record {
          cookie = new_cookie m token session.expires_at (whole_seconds m.ttl);
          csrf_token = csrf;
        }),
      )

  check_session : Manager → ℕ → Request → Text → Option Session → Manager × Option Session
  check_session m now r value none = (m, none)
  check_session m now r value (some session) =
      if ltb session.expires_at now
      then (record m { sessions = delete m.sessions (hash value) }, none)
      else (
        m,
        (if text_eq session.fingerprint_hash (browser_fingerprint r) then some session else none),
      )

  check_cookie : Manager → ℕ → Request → Option Text → Manager × Option Session
  unfolding check_session
  check_cookie m now r none = (m, none)
  check_cookie m now r (some []) = (m, none)
  check_cookie m now r (some (c ∷ value)) =
      check_session m now r (c ∷ value) (get m.sessions (hash (c ∷ value)))

  unfoldable pub validate : Manager → ℕ → Request → Manager × Option Session
  unfolding check_cookie
  validate m now r = check_cookie m now r (r.cookie m.cookie_name)

  check_csrf : Text → Option Session → Option Session
  check_csrf token none = none
  check_csrf token (some session) =
      if is_empty token || not (text_eq session.csrf_hash (hash token)) then none else some session

  unfoldable pub validate_unsafe : Manager → ℕ → Request → Manager × Option Session
  unfolding check_csrf sent_token
  validate_unsafe m now r =
      let (m', session) = validate m now r in (m', check_csrf (sent_token r) session)

  clear_cookie : Manager → Option Text → Manager
  clear_cookie m none = m
  clear_cookie m (some value) = record m { sessions = delete m.sessions (hash value) }

  -- the cookie is the one that the response sets
  unfoldable pub clear : Manager → Request → Manager × Cookie
  unfolding clear_cookie new_cookie
  clear m r = (clear_cookie m (r.cookie m.cookie_name), new_cookie m [] 0 (negsuc 0))

  mark_session : Manager → ℕ → ℕ → Option Text → Manager × Bool
  mark_session m now ttl none = (m, false)
  mark_session m now ttl (some value) = elim (get m.sessions (hash value)) [
    | none ↦ (m, false)
    | some current ↦ (
      record m {
        sessions = put m.sessions (hash value) (record current { step_up_until = now + ttl });
      },
      true,
    )
  ]

  mark_valid : Manager → ℕ → Request → ℕ → Option Session → Manager × Bool
  unfolding mark_session
  mark_valid m now r ttl none = (m, false)
  mark_valid m now r ttl (some session) = mark_session m now ttl (r.cookie m.cookie_name)

  unfoldable pub mark_step_up : Manager → ℕ → Request → ℤ → Manager × Bool
  unfolding mark_valid
  mark_step_up m now r ttl =
      let (m', session) = validate_unsafe m now r in
      if leb_ℤ ttl (pos 0) then (m, false) else mark_valid m' now r (pos_part ttl) session

  unfoldable pub has_recent_step_up : Manager → ℕ → Request → Manager × Bool
  unfolding is_stepped_up
  has_recent_step_up m now r =
      let (m', session) = validate m now r in (m', is_stepped_up now session)

-- the test of the loop in `InvalidateSubject`
unfoldable pub is_revoked : Text → Text → Session → Bool
is_revoked subject kind session =
    equal_fold session.subject subject && (is_empty kind || text_eq session.kind kind)

unfoldable pub remove_revoked : Text → Text → List (Text × Session) → List (Text × Session) × ℕ
unfolding is_revoked
remove_revoked subject kind [] = ([], 0)
remove_revoked subject kind ((key, session) ∷ sessions) =
    let (kept, removed) = remove_revoked subject kind sessions in
    if is_revoked subject kind session
    then (kept, removed + 1)
    else ((key, session) ∷ kept, removed)

unfoldable pub invalidate_subject : Manager → Text → Text → Manager × ℕ
unfolding remove_revoked
invalidate_subject m subject kind =
    let (kept, removed) = remove_revoked (trim_space subject) (trim_space kind) m.sessions in
    (record m { sessions = kept }, removed)
