-- ===== src/Drift/Lines/Patch.antt =====
-- What the lines of a difference say: they spell both texts, and keep as much as can be kept.
use pro_identity_mail.Prelude.{
  ℕ, zero, suc, ◌≤◌, ◌≡◌, refl, ◌∙◌, inl, inr, List, [], ◌∷◌, Bool, ◌==◌, ◌||◌, if◌then◌else◌,
  get_or, drop, length, arith, Bool-cases, ap, map,
}
use pro_identity_mail.Text.{Text, text_eq_iff, codes}
use pro_identity_mail.Drift.Lines.{first_row, later_rows, walk, dp_rows, line_diff}
use pro_identity_mail.Drift.Lines.Lcs.{
  lcs, lcs_row, lcs_rows, first_row-lcs_rows, dp_rows-lcs_rows, get_or-lcs_row, IsSubsequence,
  length-le-lcs,
}

-- The lines whose mark passes a test, without their marks.
unfoldable pub unmark : (ℕ → Bool) → List Text → List Text
unmark p [] = []
unmark p ([] ∷ ls) = unmark p ls
unmark p ((c ∷ l) ∷ ls) = let rest = unmark p ls in if p c then l ∷ rest else rest

abbrev pub is_kept : ℕ → Bool
is_kept c = c == b' '

abbrev pub is_old : ℕ → Bool
is_old c = is_kept c || c == b'-'

abbrev pub is_new : ℕ → Bool
is_new c = is_kept c || c == b'+'

unmark_old-new :
    (b : List Text)
    → (unmark is_old (map (λ y. b'+' ∷ y) b) ≡ [])
      × (unmark is_new (map (λ y. b'+' ∷ y) b) ≡ b)
      × (unmark is_kept (map (λ y. b'+' ∷ y) b) ≡ [])
unfolding unmark
unmark_old-new [] = (refl, refl, refl)
unmark_old-new (y ∷ b) =
    let ih = unmark_old-new b in (ih.0, ap (λ (r : List Text). y ∷ r) ih.1, ih.2)

unmark_old-old :
    (a : List Text)
    → (unmark is_old (map (λ y. b'-' ∷ y) a) ≡ a)
      × (unmark is_new (map (λ y. b'-' ∷ y) a) ≡ [])
      × (unmark is_kept (map (λ y. b'-' ∷ y) a) ≡ [])
unfolding unmark
unmark_old-old [] = (refl, refl, refl)
unmark_old-old (y ∷ a) =
    let ih = unmark_old-old a in (ap (λ (r : List Text). y ∷ r) ih.0, ih.1, ih.2)

-- Whatever the table holds, the walk spells what is left of both texts.
walk-spells :
    (a b : List Text) (rows : List (List ℕ)) (j : ℕ)
    → (unmark is_old (walk a b rows j) ≡ a) × (unmark is_new (walk a b rows j) ≡ b)
unfolding walk unmark
walk-spells [] b rows j = ((unmark_old-new b).0, (unmark_old-new b).1)
walk-spells (x ∷ a) [] rows j = ((unmark_old-old (x ∷ a)).0, (unmark_old-old (x ∷ a)).1)
walk-spells (x ∷ a) (y ∷ b) rows j = ground (
  arith,
  text_eq_iff x y,
  walk-spells a b (later_rows rows) (suc j),
  walk-spells a (y ∷ b) (later_rows rows) j,
  walk-spells (x ∷ a) b rows (suc j),
)

drop-suc : (j : ℕ) (b0 b : List Text) (y : Text) → drop j b0 ≡ y ∷ b → drop (suc j) b0 ≡ b
drop-suc zero [] b y e = cc
drop-suc zero (z ∷ b0) b y e = cc
drop-suc (suc j) [] b y e = cc
drop-suc (suc j) (z ∷ b0) b y e = drop-suc j b0 b y e

-- Over the right table, the walk keeps as many lines as a longest common subsequence has.
walk-keeps :
    (b0 a b : List Text) (j : ℕ)
    → drop j b0 ≡ b
    → length (unmark is_kept (walk a b (lcs_rows a b0) j)) ≡ lcs a b
unfolding walk unmark lcs lcs_rows
walk-keeps b0 [] b j e = ap length (unmark_old-new b).2
walk-keeps b0 (x ∷ a) [] j e = ap length (unmark_old-old (x ∷ a)).2
walk-keeps b0 (x ∷ a) (y ∷ b) j e =
    let next = drop-suc j b0 b y e in
    let below : get_or (first_row (lcs_rows a b0)) j 0 ≡ lcs a (y ∷ b) =
      ap (λ (r : List ℕ). get_or r j 0) (first_row-lcs_rows a b0)
      ∙ get_or-lcs_row a b0 j
      ∙ ap (lcs a) e in
    let right : get_or (lcs_row (x ∷ a) b0) (suc j) 0 ≡ lcs (x ∷ a) b =
      get_or-lcs_row (x ∷ a) b0 (suc j) ∙ ap (lcs (x ∷ a)) next in
    ground (
      arith,
      below,
      right,
      walk-keeps b0 a b (suc j) next,
      walk-keeps b0 a (y ∷ b) j e,
      walk-keeps b0 (x ∷ a) b (suc j) next,
    )

skip-IsSubsequence : (c a : List Text) (x : Text) → IsSubsequence c a → IsSubsequence c (x ∷ a)
skip-IsSubsequence [] a x h = tt
skip-IsSubsequence (z ∷ c) a x h = inr h

kept-IsSubsequence :
    (ls : List Text)
    → IsSubsequence (unmark is_kept ls) (unmark is_old ls)
      × IsSubsequence (unmark is_kept ls) (unmark is_new ls)
unfolding unmark
kept-IsSubsequence [] = (tt, tt)
kept-IsSubsequence ([] ∷ ls) = kept-IsSubsequence ls
kept-IsSubsequence ((c ∷ l) ∷ ls) =
    let (old, new) = kept-IsSubsequence ls in
    let kept = unmark is_kept ls in
    elim (Bool-cases (is_kept c)) [
      | inl e ↦ rw e (inl (refl, old), inl (refl, new))
      | inr e ↦ rw e (
        ground (arith, old, skip-IsSubsequence kept (unmark is_old ls) l old),
        ground (arith, new, skip-IsSubsequence kept (unmark is_new ls) l new),
      )
    ]

-- Behind its first line, the lines of the difference of `a` and `b` that are marked as kept or
-- removed are `a`, those marked as kept or added are `b`, and those marked as kept are a common
-- subsequence of the two, as long as any other, `c`.
pub line_diff_lem :
    (a b c : List Text)
    → IsSubsequence c a
    → IsSubsequence c b
    → (ls : List Text) × (line_diff a b ≡ codes "@@" ∷ ls)
      × (unmark is_old ls ≡ a)
      × (unmark is_new ls ≡ b)
      × IsSubsequence (unmark is_kept ls) a
      × IsSubsequence (unmark is_kept ls) b
      × (length c ≤ length (unmark is_kept ls))
unfolding line_diff
line_diff_lem a b c h k =
    let ls = walk a b (dp_rows a b) 0 in
    let kept : length (unmark is_kept ls) ≡ lcs a b =
      ap (λ (rows : List (List ℕ)). length (unmark is_kept (walk a b rows 0)))
        (dp_rows-lcs_rows a b)
      ∙ walk-keeps b a b 0 refl in
    let (old, new) = walk-spells a b (dp_rows a b) 0 in
    (
      ls,
      refl,
      old,
      new,
      rw old at (kept-IsSubsequence ls).0,
      rw new at (kept-IsSubsequence ls).1,
      omega (arith, kept, length-le-lcs a b c h k),
    )
