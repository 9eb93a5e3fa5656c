-- ===== src/Session/SqlLimiter/Columns/Answers.antt =====
-- What the SQL limiter over its columns (internal/session/sql_limiter.go) answers.
use pro_identity_mail.Prelude.{ℕ, ◌≡◌, List, [], ◌∷◌, Pair-Eq}
use pro_identity_mail.Text.{Text, Text-Eq}
use pro_identity_mail.Session.Interface.{Call, ask, fails, succeeds}
use pro_identity_mail.Session.Penalty.{Penalty}
use pro_identity_mail.Session.SqlLimiter.Atomic.{IsKey}
use pro_identity_mail.Session.SqlLimiter.Columns.Kept.{IsWhole}

-- Each call is at a whole second, on a key that is not blank and that stands for itself.
abbrev pub Exact : (Text → Text) → List (ℕ × Call) → Type 0
Exact folded [] = Unit {0}
Exact folded ((t, ask k) ∷ h) = IsWhole t × IsKey k × (folded k ≡ k) × Exact folded h
Exact folded ((t, fails k) ∷ h) = IsWhole t × IsKey k × (folded k ≡ k) × Exact folded h
Exact folded ((t, succeeds k) ∷ h) = IsWhole t × IsKey k × (folded k ≡ k) × Exact folded h
