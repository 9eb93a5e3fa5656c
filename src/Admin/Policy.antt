-- ===== src/Admin/Policy.antt =====
-- The policy that Dovecot asks about a login (`dovecotAuthPolicy` of internal/admin/handlers.go), with
-- the keys of both login paths. The functions of `net` are parameters: the host of an address with a
-- port, the normal text of an IP address, and whether such a text is a loopback address.
pub mod Gated
use pro_identity_mail.Prelude.{
  ℕ, List, [], ◌∷◌, ◌++◌, Bool, true, false, ◌&&◌, ◌||◌, not, Option, none, some, ◌==◌,
  if◌then◌else◌,
}
use pro_identity_mail.Text.{Text, codes, text_eq, to_lower, trim_space, is_empty, split}
use pro_identity_mail.Session.Interface.{Limiter, any_locked, fail_all, success_all}
use pro_identity_mail.Admin.Names.{only, is_label_byte}

-- what a JSON value can be to `dovecotPolicySuccess`; of a number, whether it is not 0
pub data PolicyValue : Type 0 where
  bool_value : Bool → PolicyValue
  string_value : Text → PolicyValue
  number_value : Bool → PolicyValue
  other_value : PolicyValue

pub record DovecotAuthPolicyRequest : Type 0 where
  pub login : Text
  pub remote : Text
  pub protocol : Text
  pub success : PolicyValue
  pub fail_type : Text

-- `body` is `none` where it is no JSON of that shape.
pub record PolicyCall : Type 0 where
  pub x_forwarded_for : Text
  pub x_real_ip : Text
  pub remote_addr : Text
  pub token : Text
  pub command : Text
  pub body : Option DovecotAuthPolicyRequest

-- `forbidden` is status 403, `unavailable` 503, `invalid` 400; `locked_out` and `proceed` are the
-- statuses -1 and 0 of the policy.
pub data PolicyAnswer : Type 0 where
  forbidden unavailable invalid locked_out proceed : PolicyAnswer

unfoldable pub login_keys : Text → Text → Text → List Text
login_keys service subject client_ip =
    let account = to_lower (trim_space subject) in
    let host = to_lower (trim_space client_ip) in
    (service ++ (codes "|ip|" ++ host))
    ∷ (service ++ (codes "|account|" ++ account))
    ∷ (service ++ (codes "|pair|" ++ (account ++ (codes "|" ++ host))))
    ∷ []

abbrev is_key_byte : ℕ → Bool
is_key_byte c = is_label_byte c || c == b'_'

unfoldable pub normalize_dovecot_policy_key_part : Text → Text → Text
normalize_dovecot_policy_key_part value fallback =
    let part = to_lower (trim_space value) in
    if is_empty part then fallback else if only is_key_byte part then part else fallback

one_of : Text → List Text → Bool
one_of value [] = false
one_of value (c ∷ cs) = text_eq value c || one_of value cs

unfoldable pub dovecot_policy_success : PolicyValue → Bool
unfolding one_of
dovecot_policy_success (bool_value typed) = typed
dovecot_policy_success (string_value typed) =
    one_of (to_lower (trim_space typed))
      (codes "1" ∷ codes "true" ∷ codes "yes" ∷ codes "y" ∷ codes "ok" ∷ codes "success" ∷ [])
dovecot_policy_success (number_value typed) = typed
dovecot_policy_success other_value = false

unfoldable pub should_record_dovecot_policy_failure : Text → Bool
unfolding one_of
should_record_dovecot_policy_failure fail_type =
    not (one_of (to_lower (trim_space fail_type)) (codes "policy" ∷ codes "internal" ∷ []))

first_part : List Text → Text
first_part [] = []
first_part (p ∷ ps) = p

-- the keys of one scope: by address, by account and by the pair
scope_keys : Text → Text → Text → List Text
scope_keys scope login remote =
    let ip = if is_empty remote then [] else (scope ++ (codes "|ip|" ++ remote)) ∷ [] in
    let pair =
      if is_empty remote
      then []
      else (scope ++ (codes "|pair|" ++ (login ++ (codes "|" ++ remote)))) ∷ [] in
    ip ++ (if is_empty login then [] else (scope ++ (codes "|account|" ++ login)) ∷ pair)

module _ (split_host_port : Text → Option Text) (parse_ip : Text → Option Text)
    (is_loopback : Text → Bool) where
  is_local_ip : Text → Bool
  is_local_ip value = elim (parse_ip value) [ none ↦ false | some ip ↦ is_loopback ip ]

  local_header : Text → Text → Bool
  unfolding is_local_ip
  local_header value address = if is_empty value then true else is_local_ip address

  host_of_addr : Text → Text
  host_of_addr addr = elim (split_host_port addr) [ none ↦ addr | some host ↦ host ]

  unfoldable pub is_loopback_request : PolicyCall → Bool
  unfolding local_header host_of_addr first_part is_local_ip
  is_loopback_request r =
      let forwarded = trim_space r.x_forwarded_for in
      local_header forwarded (trim_space (first_part (split b',' forwarded)))
      && local_header (trim_space r.x_real_ip) (trim_space r.x_real_ip)
      && is_local_ip (trim_space (host_of_addr r.remote_addr))

  -- one round of the loop: `none` goes on to the next candidate
  candidate_ip : Bool → Text → Option Text
  unfolding host_of_addr
  candidate_ip is_fallback candidate =
      let value = trim_space candidate in
      if is_empty value then none else elim (parse_ip (host_of_addr value)) [
        | none ↦ none
        | some ip ↦ if is_fallback && is_loopback ip then none else some ip
      ]

  or_unknown : Option Text → Text
  or_unknown none = codes "unknown"
  or_unknown (some ip) = ip

  unfoldable pub normalize_dovecot_remote : Text → Text → Text
  unfolding candidate_ip or_unknown
  normalize_dovecot_remote remote fallback_remote = elim (candidate_ip false remote) [
    | some ip ↦ ip
    | none ↦ or_unknown (candidate_ip true fallback_remote)
  ]

  unfoldable pub dovecot_auth_policy_keys : Text → Text → Text → Text → List Text
  unfolding scope_keys
  dovecot_auth_policy_keys protocol login remote fallback_remote =
      let scope = normalize_dovecot_policy_key_part protocol (codes "unknown") in
      let account = to_lower (trim_space login) in
      let ip = normalize_dovecot_remote remote fallback_remote in
      scope_keys scope account ip ++ scope_keys (codes "dovecot") account ip

  module _ {S : Type 0} (limiter : Option (Limiter S)) where
    answer_allow : S × Bool → S × PolicyAnswer
    answer_allow (s, any) = (s, (if any then locked_out else proceed))

    reported : S → ℕ → DovecotAuthPolicyRequest → List Text → S
    reported s now req keys =
        if dovecot_policy_success req.success
        then success_all limiter s now keys
        else if should_record_dovecot_policy_failure req.fail_type
        then fail_all limiter s now keys
        else s

    run_command : S → ℕ → DovecotAuthPolicyRequest → List Text → Text → S × PolicyAnswer
    unfolding answer_allow reported
    run_command s now req keys command =
        if is_empty command || text_eq command (codes "allow")
        then answer_allow (any_locked limiter s now keys)
        else if text_eq command (codes "report")
        then (reported s now req keys, proceed)
        else (s, invalid)

    on_body : S → ℕ → PolicyCall → Option DovecotAuthPolicyRequest → S × PolicyAnswer
    unfolding run_command
    on_body s now r none = (s, invalid)
    on_body s now r (some req) =
        run_command s now req
          (dovecot_auth_policy_keys req.protocol req.login req.remote r.remote_addr)
          (to_lower (trim_space r.command))

    -- `limiter` is the policy's own, or that of the logins where it has none; `expected` is the
    -- configured token.
    unfoldable pub dovecot_auth_policy : Text → S → ℕ → PolicyCall → S × PolicyAnswer
    unfolding on_body
    dovecot_auth_policy expected s now r =
        if not (is_loopback_request r)
        then (s, forbidden)
        else if is_empty expected
        then (s, unavailable)
        else if text_eq r.token expected
        then on_body s now r r.body
        else (s, forbidden)
