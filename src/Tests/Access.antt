-- ===== src/Tests/Access.antt =====
-- Runs of the access checks and of the name checks of the administration service.
use pro_identity_mail.Prelude.{
  ℕ, ◌≡◌, ◌≢◌, refl, ◌↔◌, ◌⊎◌, List, [], ◌∷◌, true, false, Option, none, some, Any, In,
}
use pro_identity_mail.Text.{
  Text, codes, text_eq, equal_fold, to_lower, trim_space, trim_suffix, contains, split,
}
use pro_identity_mail.Session.Manager.{Session, validate, sent_token}
use pro_identity_mail.Tests.Sessions.{digest, manager, request}
use pro_identity_mail.Admin.Access.{
  AdminPrincipal, AuthConfig, passes, active_grants, admin_principal_for_subject, can_read_tenant,
  can_write_tenant, safe_method, require_admin, filter_tenants_for_principal,
  filter_domains_for_principal, filter_users_for_principal,
}
use pro_identity_mail.Admin.Models.{TenantAdmin, Tenant, Domain, User}
use pro_identity_mail.Admin.Access.Filter.{filters-can_read}
use pro_identity_mail.Admin.Access.Gate.{IsAdminSession, require_admin-passes}
use pro_identity_mail.Admin.Access.Grants.{Reads, Writes, admin_principal_for_subject_lem}
use pro_identity_mail.Admin.Names.{
  normalize_domain_name, normalize_email_address, normalize_local_part,
}
use pro_identity_mail.Admin.Names.Valid.{
  IsDomainName, IsAddress, normalize_domain_name-IsDomainName, normalize_email_address_lem,
}

abbrev grant : TenantAdmin
grant = record {
  id = 1;
  tenant_id = 7;
  user_id = 3;
  role = codes "read_only";
  status = codes "active";
}

abbrev grants_of : Text → Option (List TenantAdmin)
grants_of subject = some (grant ∷ [])

abbrev auth : AuthConfig
auth = record { username = codes "root"; password = codes "pw"; sessions = some manager }

abbrev reader : AdminPrincipal
reader = record { subject = codes "bob"; is_super = false; grants = grant ∷ [] }

reader_found : admin_principal_for_subject auth (some grants_of) (codes "Bob") ≡ some reader
unfolding admin_principal_for_subject to_lower trim_space equal_fold active_grants text_eq
    pro_identity_mail.Admin.Access.normalize_tenant_admin_role
reader_found = refl

admin_principal_for_subject_lem_example :
    (to_lower (trim_space (codes "Bob")) ≢ [])
    × (((equal_fold (to_lower (trim_space (codes "Bob"))) (trim_space auth.username) ≡ true)
          × (reader.is_super ≡ true))
        ⊎ ((equal_fold (to_lower (trim_space (codes "Bob"))) (trim_space auth.username) ≡ false)
            × (reader.is_super ≡ false)
            × ((lookup : Text → Option (List TenantAdmin)) × (gs : List TenantAdmin) × (◌≡◌
                  {A = Option (Text → Option (List TenantAdmin))}
                  (some grants_of)
                  (some lookup))
                × (lookup (to_lower (trim_space (codes "Bob"))) ≡ some gs)
                × ((can_read_tenant reader 7 ≡ true) ↔ Any (Reads 7) gs)
                × ((can_write_tenant reader 7 ≡ true) ↔ Any (Writes 7) gs))))
admin_principal_for_subject_lem_example =
    admin_principal_for_subject_lem auth (some grants_of) (codes "Bob") reader 7 reader_found

require_admin-passes_example :
    ((require_admin digest (some grants_of) auth 50 (codes "POST") request none).1 ≡ passes reader)
    ↔ ((s : Session) × ((validate digest manager 50 request).1 ≡ some s)
        × IsAdminSession digest (some grants_of) auth s reader
        × ((safe_method (codes "POST") ≡ true)
            ⊎ ((sent_token request ≢ []) × (s.csrf_hash ≡ digest (sent_token request)))))
require_admin-passes_example =
    require_admin-passes digest (some grants_of) auth 50 (codes "POST") request none manager reader
      refl refl

abbrev tenant : ℕ → Tenant
tenant id = record { id = id; name = []; slug = []; status = codes "active" }

abbrev tenants : List Tenant
tenants = tenant 7 ∷ tenant 8 ∷ []

abbrev domain : Domain
domain = record {
  id = 1;
  tenant_id = 8;
  name = codes "example.com";
  status = codes "active";
  dkim_selector = codes "mail";
}

abbrev user : User
user = record {
  id = 2;
  tenant_id = 7;
  primary_domain_id = 1;
  local_part = codes "bob";
  display_name = [];
  mailbox_type = codes "user";
  password_hash = [];
  status = codes "active";
  quota_bytes = 0;
}

filters-can_read_example :
    (In (tenant 7) (filter_tenants_for_principal tenants reader)
      ↔ (In (tenant 7) tenants × (can_read_tenant reader 7 ≡ true)))
    × (In domain (filter_domains_for_principal (domain ∷ []) reader)
        ↔ (In domain (domain ∷ []) × (can_read_tenant reader 8 ≡ true)))
    × (In user (filter_users_for_principal (user ∷ []) reader)
        ↔ (In user (user ∷ []) × (can_read_tenant reader 7 ≡ true)))
filters-can_read_example =
    filters-can_read reader tenants (domain ∷ []) (user ∷ []) (tenant 7) domain user

domain_taken : normalize_domain_name (codes " Mail.Example.com. ") ≡ some (codes "mail.example.com")
unfolding normalize_domain_name to_lower trim_space trim_suffix contains split
    pro_identity_mail.Admin.Names.valid_labels pro_identity_mail.Admin.Names.valid_dns_label
domain_taken = refl

normalize_domain_name-IsDomainName_example : IsDomainName (codes "mail.example.com")
normalize_domain_name-IsDomainName_example =
    normalize_domain_name-IsDomainName (codes " Mail.Example.com. ") (codes "mail.example.com")
      domain_taken

abbrev as_it_is : Text → Option Text
as_it_is s = some s

address_taken :
    normalize_email_address as_it_is (codes "Ann@Example.com") ≡ some (codes "ann@example.com")
unfolding normalize_email_address normalize_domain_name normalize_local_part to_lower trim_space
    trim_suffix contains split pro_identity_mail.Admin.Names.valid_labels
    pro_identity_mail.Admin.Names.starts_with pro_identity_mail.Admin.Names.ends_with
    pro_identity_mail.Admin.Names.only pro_identity_mail.Admin.Names.valid_dns_label
address_taken = refl

normalize_email_address_lem_example : IsAddress (codes "ann@example.com")
normalize_email_address_lem_example =
    normalize_email_address_lem as_it_is (codes "Ann@Example.com") (codes "ann@example.com")
      address_taken
