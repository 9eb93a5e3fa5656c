-- ===== src/Tests/Policy.antt =====
-- Runs of the policy that Dovecot asks.
use pro_identity_mail.Prelude.{◌≡◌, refl, ◌↔◌, [], ◌∷◌, Bool, false, Option, none, some}
use pro_identity_mail.Text.{Text, codes, text_eq, to_lower, trim_space, split}
use pro_identity_mail.Session.Limiter.{LoginLimiter, login_limiter, new_login_limiter}
use pro_identity_mail.Tests.Limits.{options}
use pro_identity_mail.Admin.Policy.{
  DovecotAuthPolicyRequest, bool_value, PolicyCall, locked_out, is_loopback_request,
  dovecot_auth_policy_keys, normalize_dovecot_remote, normalize_dovecot_policy_key_part,
  dovecot_auth_policy,
}
use pro_identity_mail.Admin.Policy.Gated.{
  IsTrusted, Refuses, keys_of, dovecot_auth_policy-trusted, dovecot_auth_policy-Refuses,
}

-- `none`: no text here has a port
abbrev no_port : Text → Option Text
no_port addr = none

abbrev any_ip : Text → Option Text
any_ip value = some value

abbrev is_local : Text → Bool
is_local ip = text_eq ip (codes "127.0.0.1")

abbrev limiter : LoginLimiter
limiter = new_login_limiter options

abbrev body : DovecotAuthPolicyRequest
body = record {
  login = codes "Ann@example.com";
  remote = codes "10.0.0.1";
  protocol = codes "imap";
  success = bool_value false;
  fail_type = [];
}

abbrev call : Text → PolicyCall
call addr = record {
  x_forwarded_for = [];
  x_real_ip = [];
  remote_addr = addr;
  token = codes "t";
  command = codes "allow";
  body = some body;
}

keys :
    dovecot_auth_policy_keys no_port any_ip is_local
      (codes "imap")
      (codes "Ann")
      (codes "10.0.0.1")
      []
    ≡ codes "imap|ip|10.0.0.1"
      ∷ codes "imap|account|ann"
      ∷ codes "imap|pair|ann|10.0.0.1"
      ∷ codes "dovecot|ip|10.0.0.1"
      ∷ codes "dovecot|account|ann"
      ∷ codes "dovecot|pair|ann|10.0.0.1"
      ∷ []
unfolding dovecot_auth_policy_keys normalize_dovecot_remote trim_space
    normalize_dovecot_policy_key_part to_lower pro_identity_mail.Admin.Names.only
keys = refl

untrusted : ¬ IsTrusted no_port any_ip is_local (codes "t") (call (codes "10.0.0.9"))
unfolding is_loopback_request trim_space split text_eq
untrusted h = cc h.0

dovecot_auth_policy-trusted_example :
    (dovecot_auth_policy no_port any_ip is_local
      (some login_limiter)
      (codes "t")
      limiter
      5
      (call (codes "10.0.0.9"))).0
    ≡ limiter
dovecot_auth_policy-trusted_example =
    dovecot_auth_policy-trusted no_port any_ip is_local (some login_limiter) (codes "t") limiter 5
      (call (codes "10.0.0.9")) untrusted

dovecot_auth_policy-Refuses_example :
    ((dovecot_auth_policy no_port any_ip is_local
        (some login_limiter)
        (codes "t")
        limiter
        5
        (call (codes "127.0.0.1"))).1
      ≡ locked_out)
    ↔ (IsTrusted no_port any_ip is_local (codes "t") (call (codes "127.0.0.1"))
        × ((req : DovecotAuthPolicyRequest) × ((call (codes "127.0.0.1")).body ≡ some req)
            × Refuses no_port any_ip is_local limiter 5
                (keys_of no_port any_ip is_local (call (codes "127.0.0.1")) req)
                (to_lower (trim_space (codes "allow")))))
dovecot_auth_policy-Refuses_example =
    dovecot_auth_policy-Refuses no_port any_ip is_local (codes "t") limiter 5
      (call (codes "127.0.0.1"))
