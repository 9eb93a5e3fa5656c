-- ===== src/Session/SqlLimiter/Columns/Kept.antt =====
-- Rows of whole seconds, which the columns keep as they are.
use pro_identity_mail.Prelude.{
  ℕ, ◌*◌, ◌≡◌, refl, ap, [], ◌∷◌, Option, none, some, All, get, put, delete, Pair-Eq, pair_eq,
  Bool-cases, inl, inr,
}
use pro_identity_mail.Text.{Text, Text-Eq}
use pro_identity_mail.Session.Penalty.{second}
use pro_identity_mail.Session.Tables.{RateRow}
use pro_identity_mail.Session.SqlLimiter.Columns.{Rows, kept_time, kept_rows}

abbrev pub IsWhole : ℕ → Type 0
IsWhole t = (n : ℕ) × (t ≡ n * second)

abbrev pub IsWholeTime : Option ℕ → Type 0
IsWholeTime none = Unit {0}
IsWholeTime (some t) = IsWhole t

abbrev pub IsWholeRow : RateRow → Type 0
IsWholeRow row =
    IsWholeTime row.first_failed_at × IsWholeTime row.last_failed_at × IsWholeTime row.locked_until

abbrev pub AllWhole : Rows → Type 0
AllWhole rows = All (λ r. IsWholeRow r.1) rows

kept_time-IsWhole :
    (column : ℕ → ℕ)
    → ((t : ℕ) → IsWhole t → column t ≡ t)
    → (t : Option ℕ) → IsWholeTime t
    → kept_time column t ≡ t
kept_time-IsWhole column keeps none w = refl
kept_time-IsWhole column keeps (some t) w = ap some (keeps t w)

pub kept_rows-AllWhole :
    (column : ℕ → ℕ)
    → ((t : ℕ) → IsWhole t → column t ≡ t)
    → (rows : Rows) → AllWhole rows
    → kept_rows column rows ≡ rows
unfolding kept_rows
kept_rows-AllWhole column keeps [] w = refl
kept_rows-AllWhole column keeps ((key, row) ∷ rows) ((first, last, until), w) =
    rw
      (
        kept_time-IsWhole column keeps row.first_failed_at first,
        kept_time-IsWhole column keeps row.last_failed_at last,
        kept_time-IsWhole column keeps row.locked_until until,
        kept_rows-AllWhole column keeps rows w,
      )
      refl

pub put-AllWhole :
    (rows : Rows) (k : Text × Text) (row : RateRow)
    → AllWhole rows
    → IsWholeRow row
    → AllWhole (put rows k row)
unfolding put
put-AllWhole [] k row w h = (h, tt)
put-AllWhole ((j, r) ∷ rows) k row (here, w) h = elim (Bool-cases (pair_eq j k)) [
  | inl e ↦ rw e (h, w)
  | inr e ↦ rw e (here, put-AllWhole rows k row w h)
]

pub delete-AllWhole : (rows : Rows) (k : Text × Text) → AllWhole rows → AllWhole (delete rows k)
unfolding delete
delete-AllWhole [] k w = tt
delete-AllWhole ((j, r) ∷ rows) k (here, w) = elim (Bool-cases (pair_eq j k)) [
  | inl e ↦ rw e (delete-AllWhole rows k w)
  | inr e ↦ rw e (here, delete-AllWhole rows k w)
]

abbrev pub IsWholeFound : Option RateRow → Type 0
IsWholeFound none = Unit {0}
IsWholeFound (some row) = IsWholeRow row

pub get-AllWhole : (rows : Rows) (k : Text × Text) → AllWhole rows → IsWholeFound (get rows k)
unfolding get
get-AllWhole [] k w = tt
get-AllWhole ((j, r) ∷ rows) k (here, w) = elim (Bool-cases (pair_eq j k)) [
  | inl e ↦ rw e here
  | inr e ↦ rw e (get-AllWhole rows k w)
]
