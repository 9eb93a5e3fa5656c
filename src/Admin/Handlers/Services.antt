-- ===== src/Admin/Handlers/Services.antt =====
-- The handlers of certificates, Cloudflare, quarantine and the settings of the mail server.
use pro_identity_mail.Prelude.{
  ℕ, List, [], ◌∷◌, Bool, false, ◌&&◌, ◌||◌, not, Option, none, some, ◌==◌, if◌then◌else◌,
}
use pro_identity_mail.Text.{Text, codes, is_empty, trim_space, cut, replace_byte}
use pro_identity_mail.Admin.Models.{DomainTlsSettings, MailServerSettings}
use pro_identity_mail.Admin.Calls.{Call}
use pro_identity_mail.Admin.Access.{require_super_admin, require_domain_write}
use pro_identity_mail.Admin.Names.{
  normalize_domain_name, normalize_hostnames, allowed_certificate_path,
}
use pro_identity_mail.Admin.Handlers.{
  Handler, Context, ◌>>=◌, ◌>>◌, pure, stop_if, some_or, permit, have_store, parse_path_uint,
  valid_choice, choice, or_text, fresh_step_up,
}

-- `SupportedLanguages` of internal/i18n/languages.go
unfoldable pub supported_languages : List Text
supported_languages =
    codes "bg"
    ∷ codes "hr"
    ∷ codes "cs"
    ∷ codes "da"
    ∷ codes "nl"
    ∷ codes "en"
    ∷ codes "fi"
    ∷ codes "fr"
    ∷ codes "de"
    ∷ codes "el"
    ∷ codes "hu"
    ∷ codes "ga"
    ∷ codes "it"
    ∷ codes "lv"
    ∷ codes "lt"
    ∷ codes "pl"
    ∷ codes "pt"
    ∷ codes "ro"
    ∷ codes "sk"
    ∷ codes "sl"
    ∷ codes "es"
    ∷ codes "sv"
    ∷ []

-- the text before the first hyphen, or all of it where the hyphen is the first byte
before_hyphen : Text → Option (Text × Text) → Text
before_hyphen value none = value
before_hyphen value (some (head, rest)) = if is_empty head then value else head

-- `NormalizeLanguage`
unfoldable pub normalize_language : Text → Text
unfolding before_hyphen
normalize_language text =
    let value = replace_byte b'_' (codes "-") (choice text) in
    let code = before_hyphen value (cut b'-' value) in
    if is_empty value
    then codes "en"
    else if valid_choice code supported_languages
    then code
    else []

-- `cleanUintPtr`
unfoldable pub clean_uint_ptr : Option ℕ → Option ℕ
clean_uint_ptr none = none
clean_uint_ptr (some n) = if n == 0 then none else some n

pub record JobBody : Type 0 where
  pub job_type : Text
  pub challenge_type : Text
  pub hostnames : List Text

pub record ConfigBody : Type 0 where
  pub zone_id : Text
  pub api_token : Text

-- A body that a request may leave out: `none` where it has no body, `some none` where it is not JSON
-- of the shape.
unfoldable pub body_or : {A : Type 0} → A → Option (Option A) → Handler A
unfolding some_or
body_or zero none = pure zero
body_or zero (some body) = some_or 400 body

-- an empty name stays, any other is checked
unfoldable pub optional_name : Text → Handler Text
optional_name [] = pure []
optional_name (b ∷ name) = some_or 400 (normalize_domain_name (b ∷ name))

abbrev pub challenge_types : List Text
challenge_types =
    codes "dns-cloudflare"
    ∷ codes "http-01"
    ∷ codes "manual-dns"
    ∷ codes "custom-import"
    ∷ codes "none"
    ∷ []

-- `released` or `deleted`
unfoldable pub resolve_quarantine_event :
    Text → Context → Option ℕ → Option (Option Text) → Handler Call
resolve_quarantine_event status c path body = do
  have_store c
  permit (require_super_admin c.principal)
  id ← parse_path_uint path
  resolution_note ← body_or [] body
  pure (Call.resolve_quarantine_event id status (trim_space resolution_note))

module _ (hash : Text → Text) where
  unfoldable pub update_domain_tls_settings :
      Context → Option ℕ → Option DomainTlsSettings → Handler Call
  unfolding optional_name
  update_domain_tls_settings c path body = do
    have_store c
    id ← parse_path_uint path
    permit (require_domain_write c.domains c.principal id)
    fresh_step_up hash c
    req ← some_or 400 body
    let tls_mode = or_text (choice req.tls_mode) (codes "inherit")
    stop_if
        (not (
          valid_choice tls_mode (
            codes "inherit"
            ∷ codes "letsencrypt-dns-cloudflare"
            ∷ codes "letsencrypt-http"
            ∷ codes "custom"
            ∷ codes "disabled"
            ∷ [])))
        400
    let challenge_type = or_text (choice req.challenge_type) (codes "dns-cloudflare")
    stop_if (not (valid_choice challenge_type challenge_types)) 400
    certificate_name ← optional_name (choice req.certificate_name)
    let cert = trim_space req.custom_cert_path
    let key = trim_space req.custom_key_path
    let chain = trim_space req.custom_chain_path
    stop_if
        (not (allowed_certificate_path cert)
          || not (allowed_certificate_path key)
          || not (allowed_certificate_path chain))
        400
    pure (
        Call.update_domain_tls_settings (record req {
          domain_id = id;
          tls_mode = tls_mode;
          challenge_type = challenge_type;
          certificate_name = certificate_name;
          custom_cert_path = cert;
          custom_key_path = key;
          custom_chain_path = chain;
        }))

  unfoldable pub create_tls_certificate_job :
      Context → Option ℕ → Option (Option JobBody) → Handler Call
  create_tls_certificate_job c path body = do
    have_store c
    id ← parse_path_uint path
    permit (require_domain_write c.domains c.principal id)
    fresh_step_up hash c
    req ← body_or (record { job_type = []; challenge_type = []; hostnames = [] }) body
    let job_type = or_text (choice req.job_type) (codes "issue")
    let challenge_type = choice req.challenge_type
    stop_if
        (not (
          valid_choice job_type
            (codes "issue" ∷ codes "renew" ∷ codes "import" ∷ codes "deploy" ∷ codes "check" ∷ [])))
        400
    stop_if (not (is_empty challenge_type) && not (valid_choice challenge_type challenge_types)) 400
    hostnames ← some_or 400 (normalize_hostnames req.hostnames)
    pure (
        Call.create_tls_certificate_job (record {
          domain_id = id;
          job_type = job_type;
          challenge_type = challenge_type;
          hostnames = hostnames;
          requested_by = codes "admin";
        }))

  unfoldable pub save_cloudflare_config : Context → Option ℕ → Option ConfigBody → Handler Call
  save_cloudflare_config c path body = do
    have_store c
    id ← parse_path_uint path
    permit (require_domain_write c.domains c.principal id)
    fresh_step_up hash c
    req ← some_or 400 body
    pure (Call.save_cloudflare_config id (trim_space req.zone_id) (trim_space req.api_token))

  unfoldable pub apply_cloudflare_dns : Context → Option ℕ → Option (Option Bool) → Handler Call
  apply_cloudflare_dns c path body = do
    have_store c
    id ← parse_path_uint path
    permit (require_domain_write c.domains c.principal id)
    fresh_step_up hash c
    replace ← body_or false body
    pure (Call.apply_cloudflare_dns id replace)

  -- `is_ipv4` and `is_ipv6` stand for what `net.ParseIP` and `To4` say of a text.
  unfoldable pub update_mail_server_settings :
      (Text → Bool) → (Text → Bool) → Context → Option MailServerSettings → Handler Call
  unfolding optional_name
  update_mail_server_settings is_ipv4 is_ipv6 c body = do
    have_store c
    permit (require_super_admin c.principal)
    fresh_step_up hash c
    req ← some_or 400 body
    let hostname_mode = or_text (choice req.hostname_mode) (codes "shared")
    stop_if
        (not (
          valid_choice hostname_mode
            (codes "shared" ∷ codes "head-domain" ∷ codes "per-domain" ∷ [])))
        400
    mail_hostname ← optional_name (choice req.mail_hostname)
    let public_ipv4 = trim_space req.public_ipv4
    let public_ipv6 = trim_space req.public_ipv6
    stop_if (not (is_empty public_ipv4) && not (is_ipv4 public_ipv4)) 400
    stop_if (not (is_empty public_ipv6) && not (is_ipv6 public_ipv6)) 400
    let tls_mode = or_text (choice req.tls_mode) (codes "system")
    stop_if
        (not (
          valid_choice tls_mode (
            codes "system"
            ∷ codes "none"
            ∷ codes "behind-proxy"
            ∷ codes "letsencrypt-http"
            ∷ codes "letsencrypt-dns-cloudflare"
            ∷ codes "custom-cert"
            ∷ [])))
        400
    let default_language = normalize_language req.default_language
    stop_if (is_empty default_language) 400
    pure (
        Call.update_mail_server_settings (record req {
          hostname_mode = hostname_mode;
          mail_hostname = mail_hostname;
          public_ipv4 = public_ipv4;
          public_ipv6 = public_ipv6;
          tls_mode = tls_mode;
          https_certificate_id = clean_uint_ptr req.https_certificate_id;
          default_language = default_language;
        }))
