-- ===== src/Admin/Models.antt =====
-- The records of internal/domain/models.go that the administration service changes. The times that
-- the database sets are left out.
use pro_identity_mail.Prelude.{ℕ, List, Bool, Option}
use pro_identity_mail.Text.{Text}

pub record Tenant : Type 0 where
  pub id : ℕ
  pub name : Text
  pub slug : Text
  pub status : Text

pub record Domain : Type 0 where
  pub id : ℕ
  pub tenant_id : ℕ
  pub name : Text
  pub status : Text
  pub dkim_selector : Text

pub record User : Type 0 where
  pub id : ℕ
  pub tenant_id : ℕ
  pub primary_domain_id : ℕ
  pub local_part : Text
  pub display_name : Text
  pub mailbox_type : Text
  pub password_hash : Text
  pub status : Text
  pub quota_bytes : ℕ

pub record TenantAdmin : Type 0 where
  pub id : ℕ
  pub tenant_id : ℕ
  pub user_id : ℕ
  pub role : Text
  pub status : Text

pub record Alias : Type 0 where
  pub id : ℕ
  pub tenant_id : ℕ
  pub domain_id : ℕ
  pub source_local_part : Text
  pub destination : Text

pub record CatchAllRoute : Type 0 where
  pub id : ℕ
  pub tenant_id : ℕ
  pub domain_id : ℕ
  pub destination : Text
  pub status : Text

pub record SharedMailboxPermission : Type 0 where
  pub id : ℕ
  pub tenant_id : ℕ
  pub shared_mailbox_id : ℕ
  pub user_id : ℕ
  pub can_read : Bool
  pub can_send_as : Bool
  pub can_send_on_behalf : Bool
  pub can_manage : Bool

pub record TenantPolicy : Type 0 where
  pub tenant_id : ℕ
  pub spam_action : Text
  pub malware_action : Text
  pub require_tls_for_auth : Bool

-- `desired_hostnames` is computed for replies, and no handler reads it.
pub record DomainTlsSettings : Type 0 where
  pub domain_id : ℕ
  pub dns_webmail_alias_enabled : Bool
  pub dns_admin_alias_enabled : Bool
  pub tls_mode : Text
  pub challenge_type : Text
  pub use_for_https : Bool
  pub use_for_mail_sni : Bool
  pub include_mail_hostname : Bool
  pub include_webmail_hostname : Bool
  pub include_admin_hostname : Bool
  pub certificate_name : Text
  pub custom_cert_path : Text
  pub custom_key_path : Text
  pub custom_chain_path : Text

-- what a request for a job sets
pub record TlsCertificateJob : Type 0 where
  pub domain_id : ℕ
  pub job_type : Text
  pub challenge_type : Text
  pub hostnames : List Text
  pub requested_by : Text

-- what a request can set
pub record MailServerSettings : Type 0 where
  pub hostname_mode : Text
  pub mail_hostname : Text
  pub head_tenant_id : Option ℕ
  pub head_domain_id : Option ℕ
  pub public_ipv4 : Text
  pub public_ipv6 : Text
  pub sni_enabled : Bool
  pub tls_mode : Text
  pub force_https : Bool
  pub https_certificate_id : Option ℕ
  pub default_language : Text
  pub mailbox_mfa_enabled : Bool
  pub force_mailbox_mfa : Bool
  pub cloudflare_real_ip_enabled : Bool

-- what the audit of a handler holds, but for the number of its target and its metadata, a text for people
pub record AuditEvent : Type 0 where
  pub tenant_id : Option ℕ
  pub action : Text
  pub target_type : Text
