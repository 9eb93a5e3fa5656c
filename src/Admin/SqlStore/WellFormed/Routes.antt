-- ===== src/Admin/SqlStore/WellFormed/Routes.antt =====
-- Aliases, routes, permissions, policies, limits and second factors.
use pro_identity_mail.Prelude.{ℕ, refl, [], ◌∷◌, Bool, if◌then◌else◌}
use pro_identity_mail.Text.{Text, is_empty}
use pro_identity_mail.Admin.Models.{Alias, CatchAllRoute, SharedMailboxPermission, TenantPolicy}
use pro_identity_mail.Admin.Rows.{
  IsCounted, insert_row-IsCounted, update_where-IsCounted, delete_where, delete_where-IsCounted,
  upsert-IsCounted,
}
use pro_identity_mail.Admin.SqlStore.{Database, Statement, limit_of_email, email_for_user}
use pro_identity_mail.Admin.SqlStore.Keeps.{exec_one-keeps, scan-keeps, either}
use pro_identity_mail.Admin.SqlStore.Changes.{
  unlock_user, reset_user_mfa, clear_login_rate_limit, create_alias, update_alias, delete_alias,
  create_catch_all_route, update_catch_all_route, delete_catch_all_route,
  create_shared_mailbox_permission, update_shared_mailbox_permission,
  delete_shared_mailbox_permission, update_tenant_policy,
}
use pro_identity_mail.Admin.SqlStore.WellFormed.{IsWellFormed, LoginRateLimitsCounted}

module _ (rejects : Database → Statement → Bool) where
  limits_left :
      (email : Text) (db : Database)
      → LoginRateLimitsCounted db
      → IsCounted
          (λ r. r.id)
          (if is_empty email
            then db.login_rate_limits
            else delete_where (limit_of_email email) db.login_rate_limits)
  limits_left [] db w = w
  limits_left (b ∷ email) db w =
      delete_where-IsCounted (λ r. r.id) (limit_of_email (b ∷ email)) db.login_rate_limits w

  pub unlock_user-IsWellFormed :
      (db : Database) (id : ℕ) → IsWellFormed db → IsWellFormed (unlock_user rejects db id).0
  unfolding unlock_user IsWellFormed
  unlock_user-IsWellFormed db id (wt, wd, wu, wa, wl, wc, wp, wr) =
      either IsWellFormed _ _ _ (wt, wd, wu, wa, wl, wc, wp, wr)
        (either IsWellFormed _ _ _
          (exec_one-keeps IsWellFormed _ db _ (wt, wd, wu, wa, wl, wc, wp, wr)
            (
              wt,
              wd,
              update_where-IsCounted (λ r. r.id) _ _ db.users (λ r. refl) wu,
              wa,
              wl,
              wc,
              wp,
              limits_left (email_for_user db id) db wr,
            ))
          (wt, wd, wu, wa, wl, wc, wp, wr))

  pub reset_user_mfa-IsWellFormed :
      (db : Database) (id : ℕ) → IsWellFormed db → IsWellFormed (reset_user_mfa rejects db id).0
  unfolding reset_user_mfa
  reset_user_mfa-IsWellFormed db id w =
      either IsWellFormed _ _ _ w
        (either IsWellFormed _ _ _ (exec_one-keeps IsWellFormed _ db _ w w) w)

  pub clear_login_rate_limit-IsWellFormed :
      (db : Database) (id : ℕ)
      → IsWellFormed db
      → IsWellFormed (clear_login_rate_limit rejects db id).0
  unfolding clear_login_rate_limit IsWellFormed
  clear_login_rate_limit-IsWellFormed db id (wt, wd, wu, wa, wl, wc, wp, wr) =
      exec_one-keeps IsWellFormed _ db _ (wt, wd, wu, wa, wl, wc, wp, wr)
        (wt, wd, wu, wa, wl, wc, wp, delete_where-IsCounted (λ r. r.id) _ db.login_rate_limits wr)

  pub create_alias-IsWellFormed :
      (db : Database) (a : Alias) → IsWellFormed db → IsWellFormed (create_alias rejects db a).0
  unfolding create_alias IsWellFormed
  create_alias-IsWellFormed db a (wt, wd, wu, wa, wl, wc, wp, wr) =
      exec_one-keeps IsWellFormed _ db _ (wt, wd, wu, wa, wl, wc, wp, wr)
        (wt, wd, wu, wa, insert_row-IsCounted (λ r. r.id) _ db.aliases refl wl, wc, wp, wr)

  pub update_alias-IsWellFormed :
      (db : Database) (a : Alias) → IsWellFormed db → IsWellFormed (update_alias rejects db a).0
  unfolding update_alias IsWellFormed
  update_alias-IsWellFormed db a (wt, wd, wu, wa, wl, wc, wp, wr) = scan-keeps IsWellFormed _ _ _ (
      exec_one-keeps IsWellFormed _ db _ (wt, wd, wu, wa, wl, wc, wp, wr)
        (
          wt,
          wd,
          wu,
          wa,
          update_where-IsCounted (λ r. r.id) _ _ db.aliases (λ r. refl) wl,
          wc,
          wp,
          wr,
        ))

  pub delete_alias-IsWellFormed :
      (db : Database) (id : ℕ) → IsWellFormed db → IsWellFormed (delete_alias rejects db id).0
  unfolding delete_alias IsWellFormed
  delete_alias-IsWellFormed db id (wt, wd, wu, wa, wl, wc, wp, wr) =
      exec_one-keeps IsWellFormed _ db _ (wt, wd, wu, wa, wl, wc, wp, wr)
        (wt, wd, wu, wa, delete_where-IsCounted (λ r. r.id) _ db.aliases wl, wc, wp, wr)

  pub create_catch_all_route-IsWellFormed :
      (db : Database) (a : CatchAllRoute)
      → IsWellFormed db
      → IsWellFormed (create_catch_all_route rejects db a).0
  unfolding create_catch_all_route IsWellFormed
  create_catch_all_route-IsWellFormed db a (wt, wd, wu, wa, wl, wc, wp, wr) =
      exec_one-keeps IsWellFormed _ db _ (wt, wd, wu, wa, wl, wc, wp, wr)
        (
          wt,
          wd,
          wu,
          wa,
          wl,
          upsert-IsCounted (λ r. r.id) _ _ _ db.catch_all_routes (λ r. refl) refl wc,
          wp,
          wr,
        )

  pub update_catch_all_route-IsWellFormed :
      (db : Database) (a : CatchAllRoute)
      → IsWellFormed db
      → IsWellFormed (update_catch_all_route rejects db a).0
  unfolding update_catch_all_route IsWellFormed
  update_catch_all_route-IsWellFormed db a (wt, wd, wu, wa, wl, wc, wp, wr) =
      scan-keeps IsWellFormed _ _ _ (
        exec_one-keeps IsWellFormed _ db _ (wt, wd, wu, wa, wl, wc, wp, wr)
          (
            wt,
            wd,
            wu,
            wa,
            wl,
            update_where-IsCounted (λ r. r.id) _ _ db.catch_all_routes (λ r. refl) wc,
            wp,
            wr,
          ))

  pub delete_catch_all_route-IsWellFormed :
      (db : Database) (id : ℕ)
      → IsWellFormed db
      → IsWellFormed (delete_catch_all_route rejects db id).0
  unfolding delete_catch_all_route IsWellFormed
  delete_catch_all_route-IsWellFormed db id (wt, wd, wu, wa, wl, wc, wp, wr) =
      exec_one-keeps IsWellFormed _ db _ (wt, wd, wu, wa, wl, wc, wp, wr)
        (wt, wd, wu, wa, wl, delete_where-IsCounted (λ r. r.id) _ db.catch_all_routes wc, wp, wr)

  pub create_shared_mailbox_permission-IsWellFormed :
      (db : Database) (p : SharedMailboxPermission)
      → IsWellFormed db
      → IsWellFormed (create_shared_mailbox_permission rejects db p).0
  unfolding create_shared_mailbox_permission IsWellFormed
  create_shared_mailbox_permission-IsWellFormed db p (wt, wd, wu, wa, wl, wc, wp, wr) =
      exec_one-keeps IsWellFormed _ db _ (wt, wd, wu, wa, wl, wc, wp, wr)
        (
          wt,
          wd,
          wu,
          wa,
          wl,
          wc,
          upsert-IsCounted (λ r. r.id) _ _ _ db.shared_mailbox_permissions (λ r. refl) refl wp,
          wr,
        )

  pub update_shared_mailbox_permission-IsWellFormed :
      (db : Database) (p : SharedMailboxPermission)
      → IsWellFormed db
      → IsWellFormed (update_shared_mailbox_permission rejects db p).0
  unfolding update_shared_mailbox_permission IsWellFormed
  update_shared_mailbox_permission-IsWellFormed db p (wt, wd, wu, wa, wl, wc, wp, wr) =
      scan-keeps IsWellFormed _ _ _ (
        exec_one-keeps IsWellFormed _ db _ (wt, wd, wu, wa, wl, wc, wp, wr)
          (
            wt,
            wd,
            wu,
            wa,
            wl,
            wc,
            update_where-IsCounted (λ r. r.id) _ _ db.shared_mailbox_permissions (λ r. refl) wp,
            wr,
          ))

  pub delete_shared_mailbox_permission-IsWellFormed :
      (db : Database) (id : ℕ)
      → IsWellFormed db
      → IsWellFormed (delete_shared_mailbox_permission rejects db id).0
  unfolding delete_shared_mailbox_permission IsWellFormed
  delete_shared_mailbox_permission-IsWellFormed db id (wt, wd, wu, wa, wl, wc, wp, wr) =
      exec_one-keeps IsWellFormed _ db _ (wt, wd, wu, wa, wl, wc, wp, wr)
        (
          wt,
          wd,
          wu,
          wa,
          wl,
          wc,
          delete_where-IsCounted (λ r. r.id) _ db.shared_mailbox_permissions wp,
          wr,
        )

  pub update_tenant_policy-IsWellFormed :
      (db : Database) (p : TenantPolicy)
      → IsWellFormed db
      → IsWellFormed (update_tenant_policy rejects db p).0
  unfolding update_tenant_policy IsWellFormed
  update_tenant_policy-IsWellFormed db p (wt, wd, wu, wa, wl, wc, wp, wr) =
      exec_one-keeps IsWellFormed _ db _ (wt, wd, wu, wa, wl, wc, wp, wr)
        (wt, wd, wu, wa, wl, wc, wp, wr)
