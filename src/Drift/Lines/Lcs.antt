-- ===== src/Drift/Lines/Lcs.antt =====
-- The table holds the lengths of the longest common subsequences.
use pro_identity_mail.Prelude.{
  ℕ, zero, suc, ◌+◌, ◌≤◌, ◌≡◌, refl, ◌⊎◌, inl, inr, List, [], ◌∷◌, false, leb, if◌then◌else◌,
  get_or, drop, length, arith, Bool-cases, ap, sym,
}
use pro_identity_mail.Text.{Text, text_eq, text_eq_iff}
use pro_identity_mail.Drift.Lines.{first, first_row, fill_row, zero_row, dp_rows}

-- The length of a longest common subsequence, by its recursion.
unfoldable pub lcs : List Text → List Text → ℕ
lcs [] b = 0
lcs (x ∷ a) [] = 0
lcs (x ∷ a) (y ∷ b) =
    let diagonal = lcs a b in
    let below = lcs a (y ∷ b) in
    let right = lcs (x ∷ a) b in
    if text_eq x y then diagonal + 1 else if leb right below then below else right

-- A row and a table of such lengths, for every end of `b` and every end of `a`.
pub lcs_row : List Text → List Text → List ℕ
lcs_row a [] = lcs a [] ∷ []
lcs_row a (y ∷ b) = lcs a (y ∷ b) ∷ lcs_row a b

unfoldable pub lcs_rows : List Text → List Text → List (List ℕ)
lcs_rows [] b = lcs_row [] b ∷ []
lcs_rows (x ∷ a) b = lcs_row (x ∷ a) b ∷ lcs_rows a b

first-lcs_row : (a b : List Text) → first (lcs_row a b) ≡ lcs a b
unfolding lcs_row
first-lcs_row a [] = refl
first-lcs_row a (y ∷ b) = refl

fill_row-lcs_row : (x : Text) (a b : List Text) → fill_row x b (lcs_row a b) ≡ lcs_row (x ∷ a) b
unfolding fill_row lcs_row lcs
fill_row-lcs_row x a [] = refl
fill_row-lcs_row x a (y ∷ b) =
    rw (fill_row-lcs_row x a b, first-lcs_row a b, first-lcs_row (x ∷ a) b)

zero_row-lcs_row : (b : List Text) → zero_row b ≡ lcs_row [] b
unfolding zero_row lcs_row lcs
zero_row-lcs_row [] = refl
zero_row-lcs_row (y ∷ b) = ap (λ (r : List ℕ). 0 ∷ r) (zero_row-lcs_row b)

pub first_row-lcs_rows : (a b : List Text) → first_row (lcs_rows a b) ≡ lcs_row a b
unfolding lcs_rows
first_row-lcs_rows [] b = refl
first_row-lcs_rows (x ∷ a) b = refl

pub dp_rows-lcs_rows : (a b : List Text) → dp_rows a b ≡ lcs_rows a b
unfolding dp_rows lcs_rows
dp_rows-lcs_rows [] b = ap (λ (r : List ℕ). r ∷ []) (zero_row-lcs_row b)
dp_rows-lcs_rows (x ∷ a) b =
    rw (dp_rows-lcs_rows a b, first_row-lcs_rows a b, fill_row-lcs_row x a b)

pub lcs-nil : (a : List Text) → lcs a [] ≡ 0
unfolding lcs
lcs-nil [] = refl
lcs-nil (x ∷ a) = refl

pub get_or-lcs_row : (a b : List Text) (j : ℕ) → get_or (lcs_row a b) j 0 ≡ lcs a (drop j b)
unfolding lcs_row
get_or-lcs_row a [] zero = refl
get_or-lcs_row a [] (suc j) = sym (lcs-nil a)
get_or-lcs_row a (y ∷ b) zero = refl
get_or-lcs_row a (y ∷ b) (suc j) = get_or-lcs_row a b j

-- `c` is what is left of `a` when some of its lines are taken away.
abbrev pub IsSubsequence : List Text → List Text → Type 0
IsSubsequence [] a = Unit {0}
IsSubsequence (z ∷ c) [] = ⊥
IsSubsequence (z ∷ c) (x ∷ a) = ((z ≡ x) × IsSubsequence c a) ⊎ IsSubsequence (z ∷ c) a

tail-IsSubsequence : (z : Text) (c a : List Text) → IsSubsequence (z ∷ c) a → IsSubsequence c a
tail-IsSubsequence z [] a h = tt
tail-IsSubsequence z (w ∷ c) [] h = absurd h
tail-IsSubsequence z (w ∷ c) (x ∷ a) (inl (e, h)) = inr h
tail-IsSubsequence z (w ∷ c) (x ∷ a) (inr h) = inr (tail-IsSubsequence z (w ∷ c) a h)

rest-IsSubsequence :
    (z x : Text) (c a : List Text) → IsSubsequence (z ∷ c) (x ∷ a) → IsSubsequence c a
rest-IsSubsequence z x c a (inl (e, h)) = h
rest-IsSubsequence z x c a (inr h) = tail-IsSubsequence z c a h

-- Two heads that differ are not both taken.
one-skips :
    (x y z : Text) (a b c : List Text)
    → text_eq x y ≡ false
    → IsSubsequence (z ∷ c) (x ∷ a)
    → IsSubsequence (z ∷ c) (y ∷ b)
    → IsSubsequence (z ∷ c) a ⊎ IsSubsequence (z ∷ c) b
one-skips x y z a b c e (inr h) k = inl h
one-skips x y z a b c e (inl h) (inr k) = inr k
one-skips x y z a b c e (inl (p, h)) (inl (q, k)) = absurd (ground (arith, text_eq_iff x y))

-- No common subsequence is longer.
pub length-le-lcs : (a b c : List Text) → IsSubsequence c a → IsSubsequence c b → length c ≤ lcs a b
unfolding lcs
length-le-lcs a b [] h k = omega arith
length-le-lcs [] b (z ∷ c) h k = absurd h
length-le-lcs (x ∷ a) [] (z ∷ c) h k = absurd k
length-le-lcs (x ∷ a) (y ∷ b) (z ∷ c) h k = elim (Bool-cases (text_eq x y)) [
  | inl e ↦ rw e (
      omega
        (arith, length-le-lcs a b c (rest-IsSubsequence z x c a h) (rest-IsSubsequence z y c b k)))
  | inr e ↦ rw e (elim (one-skips x y z a b c e h k) [
    | inl left ↦ ground (arith, length-le-lcs a (y ∷ b) (z ∷ c) left k)
    | inr right ↦ ground (arith, length-le-lcs (x ∷ a) b (z ∷ c) h right)
  ])
]
