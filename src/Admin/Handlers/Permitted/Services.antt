-- ===== src/Admin/Handlers/Permitted/Services.antt =====
-- The endpoints of certificates, Cloudflare, quarantine and settings.
use pro_identity_mail.Prelude.{ℕ, Option, Bool, [], ◌∷◌, none, some}
use pro_identity_mail.Text.{Text}
use pro_identity_mail.Session.Manager.{Manager}
use pro_identity_mail.Admin.Models.{DomainTlsSettings, MailServerSettings}
use pro_identity_mail.Admin.Names.{normalize_domain_name}
use pro_identity_mail.Admin.Handlers.{Handler, Context, ◌>>=◌}
use pro_identity_mail.Admin.Handlers.Services.{
  body_or, optional_name, ConfigBody, JobBody, resolve_quarantine_event, update_domain_tls_settings,
  create_tls_certificate_job, save_cloudflare_config, apply_cloudflare_dns,
  update_mail_server_settings,
}
use pro_identity_mail.Admin.Handlers.Ensures.{Ensures, after_pure, after_some_or}
use pro_identity_mail.Admin.Handlers.Permitted.{Permitted, steps}

module _ {B : Type 0} (Q : B → Type 0) (s : Option Manager) where
  after_body :
      {A : Type 0} (zero_body : A) (body : Option (Option A)) (f : A → Handler B)
      → ((a : A) → Ensures s Q (f a))
      → Ensures s Q (body_or zero_body body >>= f)
  unfolding body_or
  after_body zero_body none f next = after_pure Q s zero_body f (next zero_body)
  after_body zero_body (some body) f next = after_some_or Q s 400 body f (λ a e. next a)

  after_optional :
      (name : Text) (f : Text → Handler B)
      → ((a : Text) → Ensures s Q (f a))
      → Ensures s Q (optional_name name >>= f)
  unfolding optional_name
  after_optional [] f next = after_pure Q s [] f (next [])
  after_optional (b ∷ name) f next =
      after_some_or Q s 400 (normalize_domain_name (b ∷ name)) f (λ a e. next a)

module _ (hash : Text → Text) (s : Option Manager) (c : Context) where
  pub resolve_quarantine_event-Permitted :
      (status : Text) (path : Option ℕ) (body : Option (Option Text))
      → Ensures s (Permitted hash s c) (resolve_quarantine_event status c path body)
  unfolding resolve_quarantine_event Permitted
  resolve_quarantine_event-Permitted status path body = search (steps, after_body) depth 16

  pub update_domain_tls_settings-Permitted :
      (path : Option ℕ) (body : Option DomainTlsSettings)
      → Ensures s (Permitted hash s c) (update_domain_tls_settings hash c path body)
  unfolding update_domain_tls_settings Permitted
  update_domain_tls_settings-Permitted path body = search (steps, after_optional) depth 16

  pub create_tls_certificate_job-Permitted :
      (path : Option ℕ) (body : Option (Option JobBody))
      → Ensures s (Permitted hash s c) (create_tls_certificate_job hash c path body)
  unfolding create_tls_certificate_job Permitted
  create_tls_certificate_job-Permitted path body = search (steps, after_body) depth 16

  pub save_cloudflare_config-Permitted :
      (path : Option ℕ) (body : Option ConfigBody)
      → Ensures s (Permitted hash s c) (save_cloudflare_config hash c path body)
  unfolding save_cloudflare_config Permitted
  save_cloudflare_config-Permitted path body = search steps depth 16

  pub apply_cloudflare_dns-Permitted :
      (path : Option ℕ) (body : Option (Option Bool))
      → Ensures s (Permitted hash s c) (apply_cloudflare_dns hash c path body)
  unfolding apply_cloudflare_dns Permitted
  apply_cloudflare_dns-Permitted path body = search (steps, after_body) depth 16

  pub update_mail_server_settings-Permitted :
      (is_ipv4 : Text → Bool) (is_ipv6 : Text → Bool) (body : Option MailServerSettings)
      → Ensures s (Permitted hash s c) (update_mail_server_settings hash is_ipv4 is_ipv6 c body)
  unfolding update_mail_server_settings Permitted
  update_mail_server_settings-Permitted is_ipv4 is_ipv6 body =
      search (steps, after_optional) depth 16
