-- ===== src/Admin/Handlers/Ensures.antt =====
-- What a handler ensures of the value it goes on with: one rule for each kind of step.
use pro_identity_mail.Prelude.{
  ℕ, ◌≡◌, ◌≢◌, refl, inl, inr, zero, suc, Bool, true, false, not, Option, none, some, ◌==◌,
  Bool-cases, arith, subst,
}
use pro_identity_mail.Text.{Text}
use pro_identity_mail.Session.Manager.{Manager}
use pro_identity_mail.Admin.Access.{
  Decision, allowed, forbidden, not_found, store_failed, require_admin_step_up,
}
use pro_identity_mail.Admin.Handlers.{
  Outcome, stop, go, Handler, Context, continue, ◌>>=◌, ◌>>◌, pure, stop_if, some_or, permit,
  have_store, parse_path_uint, fresh_step_up,
}

unfoldable pub Yields : {A : Type 0} → (A → Type 0) → Outcome A → Type 0
Yields P (stop status) = Unit
Yields P (go a) = P a

-- with the sessions `s` before the handler
unfoldable pub Ensures : {A : Type 0} → Option Manager → (A → Type 0) → Handler A → Type 0
Ensures s P m = Yields P (m s).0

module _ {B : Type 0} (Q : B → Type 0) (s : Option Manager) where
  -- after a step that goes on or stops
  after_step :
      {A : Type 0} (t : Option Manager) (m : Handler A) (f : A → Handler B) (r : Outcome A)
      → m s ≡ (r, t)
      → ((a : A) → r ≡ go a → Ensures t Q (f a))
      → Ensures s Q (m >>= f)
  unfolding Ensures Yields ◌>>=◌ continue
  after_step t m f (stop status) e k = rw (◌>>=◌, e, continue) tt
  after_step t m f (go a) e k = rw (◌>>=◌, e, continue) (k a refl)

  pub after_stop_if :
      (test : Bool) (status : ℕ) (k : Handler B)
      → (test ≡ false → Ensures s Q k)
      → Ensures s Q (stop_if test status >> k)
  unfolding stop_if
  after_stop_if true status k next =
      after_step s (stop_if true status) (λ _. k) (stop status) refl (λ a e. cc)
  after_stop_if false status k next =
      after_step s (stop_if false status) (λ _. k) (go tt) refl (λ a e. next refl)

  pub after_some_or :
      {A : Type 0} (status : ℕ) (o : Option A) (f : A → Handler B)
      → ((a : A) → o ≡ some a → Ensures s Q (f a))
      → Ensures s Q (some_or status o >>= f)
  unfolding some_or
  after_some_or status none f next =
      after_step s (some_or status none) f (stop status) refl (λ a e. cc)
  after_some_or status (some a) f next =
      after_step s (some_or status (some a)) f (go a) refl (λ b e. next b (cc e))

  pub after_permit :
      (d : Decision) (k : Handler B) → (d ≡ allowed → Ensures s Q k) → Ensures s Q (permit d >> k)
  unfolding permit
  after_permit allowed k next =
      after_step s (permit allowed) (λ _. k) (go tt) refl (λ a e. next refl)
  after_permit forbidden k next =
      after_step s (permit forbidden) (λ _. k) (stop 403) refl (λ a e. cc)
  after_permit not_found k next =
      after_step s (permit not_found) (λ _. k) (stop 404) refl (λ a e. cc)
  after_permit store_failed k next =
      after_step s (permit store_failed) (λ _. k) (stop 500) refl (λ a e. cc)

  pub after_have_store :
      (c : Context) (k : Handler B)
      → (c.has_store ≡ true → Ensures s Q k)
      → Ensures s Q (have_store c >> k)
  unfolding have_store
  after_have_store c k next = after_stop_if (not c.has_store) 503 k (λ e. next (ground (arith, e)))

  pub after_path :
      (path : Option ℕ) (f : ℕ → Handler B)
      → ((id : ℕ) → path ≡ some id → id ≢ 0 → Ensures s Q (f id))
      → Ensures s Q (parse_path_uint path >>= f)
  unfolding parse_path_uint
  after_path none f next = after_step s (parse_path_uint none) f (stop 400) refl (λ a e. cc)
  after_path (some zero) f next =
      after_step s (parse_path_uint (some zero)) f (stop 400) refl (λ a e. cc)
  after_path (some (suc n)) f next =
      let positive : (suc n == 0) ≡ false = ground arith in
      after_step s (parse_path_uint (some (suc n))) f (go (suc n))
        (simp (parse_path_uint, positive)) (λ b e. next b (cc e) (λ q. cc (e, q)))

  pub after_pure :
      {A : Type 0} (a : A) (f : A → Handler B) → Ensures s Q (f a) → Ensures s Q (pure a >>= f)
  unfolding pure
  after_pure a f next =
      after_step s (pure a) f (go a) refl (λ b e. subst (λ x. Ensures s Q (f x)) (cc e) next)

  pub ends : (b : B) → Q b → Ensures s Q (pure b)
  unfolding Ensures Yields pure
  ends b q = q

-- After the step-up check the sessions may be others, which no later step reads.
pub after_fresh :
    {B : Type 0} (Q : B → Type 0) (s : Option Manager) (hash : Text → Text) (c : Context)
    (k : Handler B)
    → ((t : Option Manager)
        → (require_admin_step_up hash s c.now c.request).1 ≡ true
        → Ensures t Q k)
    → Ensures s Q (fresh_step_up hash c >> k)
unfolding fresh_step_up
after_fresh Q s hash c k next =
    let t = (require_admin_step_up hash s c.now c.request).0 in
    elim (Bool-cases (require_admin_step_up hash s c.now c.request).1) [
      | inl e ↦
          after_step Q s t (fresh_step_up hash c) (λ _. k) (go tt) (simp (fresh_step_up, e))
            (λ a q. next t e)
      | inr e ↦
          after_step Q s t (fresh_step_up hash c) (λ _. k) (stop 428) (simp (fresh_step_up, e))
            (λ a q. cc)
    ]
