-- ===== src/Drift/Redact/Hidden.antt =====
-- A difference tells nothing of a secret's value.
use pro_identity_mail.Prelude.{
  ℕ, ◌≡◌, ◌≢◌, refl, ◌∙◌, ◌⊎◌, inl, inr, List, [], ◌∷◌, ◌++◌, true, none, some, All, arith, ap, map,
}
use pro_identity_mail.Text.{Text, split, cut}
use pro_identity_mail.Drift.Redact.{
  unix_lines, secret_like_line, redacted, redact_line, redact_config, unified_diff,
}

cut-append :
    (sep : ℕ) (name value : Text)
    → All (λ c. c ≢ sep) name
    → cut sep (name ++ (sep ∷ value)) ≡ some (name, value)
unfolding cut
cut-append sep [] value h = ground arith
cut-append sep (c ∷ name) value (n, h) = ground (arith, cut-append sep name value h)

cut-missing : (sep : ℕ) (line : Text) → All (λ c. c ≢ sep) line → cut sep line ≡ none
unfolding cut
cut-missing sep [] h = refl
cut-missing sep (c ∷ line) (n, h) = ground (arith, cut-missing sep line h)

-- Two lines that differ at most in a secret: they look secret, and have one name before `=`, or no
-- `=` at all.
abbrev pub SameButSecret : Text → Text → Type 0
SameButSecret l m =
    (l ≡ m)
    ⊎ ((All (λ c. c ≢ b'=') l
          × All (λ c. c ≢ b'=') m
          × (secret_like_line l ≡ true)
          × (secret_like_line m ≡ true))
        ⊎ ((name : Text) × (v : Text) × (w : Text) × All (λ c. c ≢ b'=') name
            × (l ≡ name ++ (b'=' ∷ v))
            × (m ≡ name ++ (b'=' ∷ w))
            × (secret_like_line l ≡ true)
            × (secret_like_line m ≡ true)))

abbrev pub SameButSecrets : List Text → List Text → Type 0
SameButSecrets [] [] = Unit {0}
SameButSecrets [] (m ∷ ms) = ⊥
SameButSecrets (l ∷ ls) [] = ⊥
SameButSecrets (l ∷ ls) (m ∷ ms) = SameButSecret l m × SameButSecrets ls ms

redact_line-SameButSecret : (l m : Text) → SameButSecret l m → redact_line l ≡ redact_line m
unfolding redact_line redacted
redact_line-SameButSecret l m (inl e) = ap redact_line e
redact_line-SameButSecret l m (inr (inl (nl, nm, sl, sm))) =
    rw (sl, sm, cut-missing b'=' l nl, cut-missing b'=' m nm)
redact_line-SameButSecret l m (inr (inr (name, v, w, n, el, em, sl, sm))) =
    let of_l = ap (cut b'=') el ∙ cut-append b'=' name v n in
    let of_m = ap (cut b'=') em ∙ cut-append b'=' name w n in rw (sl, sm, of_l, of_m)

map-SameButSecrets :
    (ls ms : List Text) → SameButSecrets ls ms → map redact_line ls ≡ map redact_line ms
map-SameButSecrets [] [] h = refl
map-SameButSecrets [] (m ∷ ms) h = absurd h
map-SameButSecrets (l ∷ ls) [] h = absurd h
map-SameButSecrets (l ∷ ls) (m ∷ ms) (h, hs) =
    cc (redact_line-SameButSecret l m h, map-SameButSecrets ls ms hs)

-- If the desired files, and likewise the live ones, have line by line the same text or are two lines
-- that look secret and have one name before `=` or no `=` at all, then their differences are the same:
-- no value of a secret, of either file, shows in the difference, and nothing of a secret line with no
-- `=`.
pub unified_diff_hides :
    (desired_path live_path d d' l l' : Text)
    → SameButSecrets (split 10 (unix_lines d)) (split 10 (unix_lines d'))
    → SameButSecrets (split 10 (unix_lines l)) (split 10 (unix_lines l'))
    → unified_diff desired_path live_path d l ≡ unified_diff desired_path live_path d' l'
unfolding unified_diff redact_config
unified_diff_hides dp lp d d' l l' hd hl = rw (map-SameButSecrets _ _ hd, map-SameButSecrets _ _ hl)
