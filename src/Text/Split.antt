-- ===== src/Text/Split.antt =====
-- `strings.Split` and `strings.Join` at a separator of one byte.
use pro_identity_mail.Prelude.{ℕ, ◌≡◌, ◌≢◌, refl, List, [], ◌∷◌, arith}
use pro_identity_mail.Text.{Text, split, add_byte, join}

join-add_byte :
    (c sep : ℕ) (ps : List Text) → join (add_byte c ps) (sep ∷ []) ≡ c ∷ join ps (sep ∷ [])
unfolding join add_byte
join-add_byte c sep [] = refl
join-add_byte c sep (p ∷ []) = refl
join-add_byte c sep (p ∷ q ∷ ps) = refl

join-nil :
    (sep : ℕ) (ps : List Text) → ps ≢ [] → join ([] ∷ ps) (sep ∷ []) ≡ sep ∷ join ps (sep ∷ [])
unfolding join
join-nil sep [] h = absurd (h refl)
join-nil sep (p ∷ ps) h = refl

add_byte-cons : (c : ℕ) (ps : List Text) → add_byte c ps ≢ []
unfolding add_byte
add_byte-cons c [] e = cc
add_byte-cons c (p ∷ ps) e = cc

split-cons : (sep : ℕ) (s : Text) → split sep s ≢ []
unfolding split
split-cons sep [] e = cc
split-cons sep (c ∷ s) e = ground (arith, add_byte-cons c (split sep s))

-- The parts of a text, joined again, are the text.
pub join-split : (sep : ℕ) (s : Text) → join (split sep s) (sep ∷ []) ≡ s
unfolding split join
join-split sep [] = refl
join-split sep (c ∷ s) = ground (
  arith,
  join-nil sep (split sep s) (split-cons sep s),
  join-add_byte c sep (split sep s),
  join-split sep s,
)
