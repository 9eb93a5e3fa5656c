-- ===== src/Drift/Lines.antt =====
-- `lineDiff` (internal/configdrift/drift.go): the table of longest common subsequences, filled from
-- its last row and its last column, and the walk through it.
pub mod Lcs
pub mod Patch
use pro_identity_mail.Prelude.{
  ℕ, zero, suc, ◌+◌, List, [], ◌∷◌, ◌++◌, Bool, true, false, leb, if◌then◌else◌, get_or, map,
}
use pro_identity_mail.Text.{Text, text_eq, codes}

-- the first cell of a row, and the first row of a table
abbrev first : List ℕ → ℕ
first [] = 0
first (n ∷ ns) = n

abbrev first_row : List (List ℕ) → List ℕ
first_row [] = []
first_row (r ∷ rs) = r

abbrev later_rows : List (List ℕ) → List (List ℕ)
later_rows [] = []
later_rows (r ∷ rs) = rs

-- `dp[i][j]` from `dp[i+1][j+1]`, `dp[i+1][j]` and `dp[i][j+1]`
cell : Bool → ℕ → ℕ → ℕ → ℕ
cell same diagonal below right =
    if same then diagonal + 1 else if leb right below then below else right

-- row `i`, for `a[i] = x`, over the row below it
fill_row : Text → List Text → List ℕ → List ℕ
unfolding cell
fill_row x [] below = 0 ∷ []
fill_row x (y ∷ b) [] = []
fill_row x (y ∷ b) (d ∷ below) =
    let row = fill_row x b below in cell (text_eq x y) (first below) d (first row) ∷ row

zero_row : List Text → List ℕ
zero_row [] = 0 ∷ []
zero_row (y ∷ b) = 0 ∷ zero_row b

-- the rows `dp[i]`, `dp[i+1]`, … for what is left of `a`
pub dp_rows : List Text → List Text → List (List ℕ)
unfolding fill_row zero_row
dp_rows [] b = zero_row b ∷ []
dp_rows (x ∷ a) b = let rows = dp_rows a b in fill_row x b (first_row rows) ∷ rows

-- the loop, over what is left of `a` and of `b`, the rows from `i` on, and `j`
pub walk : List Text → List Text → List (List ℕ) → ℕ → List Text
walk [] b rows j = map (λ y. b'+' ∷ y) b
walk (x ∷ a) [] rows j = map (λ z. b'-' ∷ z) (x ∷ a)
walk (x ∷ a) (y ∷ b) rows j = elim (text_eq x y) [
  | true ↦ (b' ' ∷ x) ∷ walk a b (later_rows rows) (suc j)
  | false ↦
      elim (leb (get_or (first_row rows) (suc j) 0) (get_or (first_row (later_rows rows)) j 0)) [
        | true ↦ (b'-' ∷ x) ∷ walk a (y ∷ b) (later_rows rows) j
        | false ↦ (b'+' ∷ y) ∷ walk (x ∷ a) b rows (suc j)
      ]
]

unfoldable pub line_diff : List Text → List Text → List Text
unfolding walk dp_rows
line_diff a b = codes "@@" ∷ walk a b (dp_rows a b) 0
