-- ===== src/Session/Interface.antt =====
-- The interface `Limiter` and the loops over its keys (internal/session/manager.go).
-- Each operation takes the clock's reading; the loops take one reading for all their keys.
use pro_identity_mail.Prelude.{
  ℕ, ◌≤◌, List, [], ◌∷◌, Bool, true, false, Option, none, some, if◌then◌else◌,
}
use pro_identity_mail.Text.{Text}

pub record Limiter (S : Type 0) : Type 0 where
  pub locked : S → ℕ → Text → S × Bool
  pub fail : S → ℕ → Text → S
  pub success : S → ℕ → Text → S

module _ {S : Type 0} where
  unfoldable pub any_locked_from : Limiter S → S → ℕ → List Text → S × Bool
  any_locked_from l s now [] = (s, false)
  any_locked_from l s now (k ∷ ks) =
      let (s', b) = l.locked s now k in
      let rest = any_locked_from l s' now ks in if b then (s', true) else rest

  -- `none` is the nil limiter
  unfoldable pub any_locked : Option (Limiter S) → S → ℕ → List Text → S × Bool
  unfolding any_locked_from
  any_locked none s now keys = (s, false)
  any_locked (some l) s now keys = any_locked_from l s now keys

  unfoldable pub fail_all : Option (Limiter S) → S → ℕ → List Text → S
  fail_all none s now keys = s
  fail_all (some l) s now [] = s
  fail_all (some l) s now (k ∷ ks) = fail_all (some l) (l.fail s now k) now ks

  unfoldable pub success_all : Option (Limiter S) → S → ℕ → List Text → S
  success_all none s now keys = s
  success_all (some l) s now [] = s
  success_all (some l) s now (k ∷ ks) = success_all (some l) (l.success s now k) now ks

-- What a client does with a limiter, at a time.
pub data Call : Type 0 where
  ask fails succeeds : Text → Call

-- The times of a history do not fall, and are not before `now`.
abbrev pub Ordered : ℕ → List (ℕ × Call) → Type 0
Ordered now [] = Unit {0}
Ordered now ((t, c) ∷ h) = (now ≤ t) × Ordered t h

module _ {S : Type 0} (l : Limiter S) where
  -- The answers that a history of calls gets.
  unfoldable pub answers : S → List (ℕ × Call) → List Bool
  answers s [] = []
  answers s ((t, ask k) ∷ h) = let (s', b) = l.locked s t k in b ∷ answers s' h
  answers s ((t, fails k) ∷ h) = answers (l.fail s t k) h
  answers s ((t, succeeds k) ∷ h) = answers (l.success s t k) h
