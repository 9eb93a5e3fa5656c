-- ===== src/Admin/Handlers/Permitted/Mailboxes.antt =====
-- The endpoints of domains and users.
use pro_identity_mail.Prelude.{ℕ, Option, Bool, [], true, false}
use pro_identity_mail.Text.{Text}
use pro_identity_mail.Session.Manager.{Manager}
use pro_identity_mail.Admin.Handlers.{Handler, Context, ◌>>=◌}
use pro_identity_mail.Admin.Handlers.Mailboxes.{
  stored_hash, DomainBody, UserBody, create_domain, update_domain, create_user, update_user,
  delete_domain, delete_user, unlock_user, reset_user_mfa,
}
use pro_identity_mail.Admin.Handlers.Ensures.{Ensures, after_pure, after_some_or}
use pro_identity_mail.Admin.Handlers.Permitted.{Permitted, steps}

module _ {B : Type 0} (Q : B → Type 0) (s : Option Manager) where
  after_hash :
      (test : Bool) (hashed : Option Text) (f : Text → Handler B)
      → ((a : Text) → Ensures s Q (f a))
      → Ensures s Q (stored_hash test hashed >>= f)
  unfolding stored_hash
  after_hash false hashed f next = after_pure Q s [] f (next [])
  after_hash true hashed f next = after_some_or Q s 400 hashed f (λ a e. next a)

module _ (hash : Text → Text) (s : Option Manager) (c : Context) where
  pub create_domain-Permitted :
      (body : Option DomainBody) → Ensures s (Permitted hash s c) (create_domain c body)
  unfolding create_domain Permitted
  create_domain-Permitted body = search steps depth 16

  pub update_domain-Permitted :
      (path : Option ℕ) (body : Option DomainBody)
      → Ensures s (Permitted hash s c) (update_domain c path body)
  unfolding update_domain Permitted
  update_domain-Permitted path body = search steps depth 16

  pub create_user-Permitted :
      (hash_password : Text → Option Text) (body : Option UserBody)
      → Ensures s (Permitted hash s c) (create_user hash_password c body)
  unfolding create_user Permitted
  create_user-Permitted hash_password body = search (steps, after_hash) depth 16

  pub update_user-Permitted :
      (hash_password : Text → Option Text) (path : Option ℕ) (body : Option UserBody)
      → Ensures s (Permitted hash s c) (update_user hash_password c path body)
  unfolding update_user Permitted
  update_user-Permitted hash_password path body = search (steps, after_hash) depth 16

  pub delete_domain-Permitted :
      (path : Option ℕ) → Ensures s (Permitted hash s c) (delete_domain hash c path)
  unfolding delete_domain Permitted
  delete_domain-Permitted path = search steps depth 16

  pub delete_user-Permitted :
      (path : Option ℕ) → Ensures s (Permitted hash s c) (delete_user hash c path)
  unfolding delete_user Permitted
  delete_user-Permitted path = search steps depth 16

  pub unlock_user-Permitted :
      (path : Option ℕ) → Ensures s (Permitted hash s c) (unlock_user hash c path)
  unfolding unlock_user Permitted
  unlock_user-Permitted path = search steps depth 16

  pub reset_user_mfa-Permitted :
      (path : Option ℕ) → Ensures s (Permitted hash s c) (reset_user_mfa hash c path)
  unfolding reset_user_mfa Permitted
  reset_user_mfa-Permitted path = search steps depth 16
