-- ===== src/Webmail/Sieve/Quoted.antt =====
-- A quoted string ends where it should, and a comment stays on its line.
use pro_identity_mail.Prelude.{
  ℕ, ◌≡◌, ◌≢◌, refl, [], ◌∷◌, ◌++◌, Bool, true, false, ◌||◌, Option, none, some, ltb, ◌==◌,
  if◌then◌else◌, All, arith,
}
use pro_identity_mail.Text.{Text, codes, replace_byte, trim_space, is_empty}
use pro_identity_mail.Webmail.Sieve.{sieve_char, sieve_string, sieve_comment}

abbrev pub read_on : ℕ → Option (Text × Text) → Option (Text × Text)
read_on c none = none
read_on c (some (s, rest)) = some (c ∷ s, rest)

-- How a Sieve reader takes a quoted string, behind its first quote: up to the next quote, a
-- character behind a backslash as it stands. With what is left of the script.
unfoldable pub read_quoted : Bool → Text → Option (Text × Text)
read_quoted escaped [] = none
read_quoted true (c ∷ s) = read_on c (read_quoted false s)
read_quoted false (c ∷ s) =
    let plain = read_quoted false s in
    let next = read_quoted true s in
    if c == 34 then some ([], s) else if c == 92 then next else read_on c plain

-- What a value says in a script: a line break is a space, and other control characters are gone.
unfoldable pub flattened : Text → Text
flattened [] = []
flattened (c ∷ v) =
    let rest = flattened v in
    if c == 13 || c == 10 then 32 ∷ rest else if ltb c 32 then rest else c ∷ rest

-- Whatever a value holds, a reader finds the end of its quoted text where it was put, and reads the
-- value without its line breaks and control characters.
pub read_quoted-sieve_string :
    (value rest : Text)
    → read_quoted false (sieve_string value ++ (34 ∷ rest)) ≡ some (flattened value, rest)
unfolding read_quoted sieve_string sieve_char flattened
read_quoted-sieve_string [] rest = refl
read_quoted-sieve_string (c ∷ value) rest = ground (arith, read_quoted-sieve_string value rest)

-- The character is no line break.
abbrev pub InLine : ℕ → Type 0
InLine c = (c ≢ 10) × (c ≢ 13)

no_break_13 : (s : Text) → All (λ c. c ≢ 13) (replace_byte 13 (32 ∷ []) s)
unfolding replace_byte
no_break_13 [] = tt
no_break_13 (c ∷ s) = ground (arith, no_break_13 s)

no_break_10 : (s : Text) → All (λ c. c ≢ 13) s → All InLine (replace_byte 10 (32 ∷ []) s)
unfolding replace_byte
no_break_10 [] h = tt
no_break_10 (c ∷ s) h = ground (arith, h.0, no_break_10 s h.1)

in_line :
    (s : Text)
    → All InLine s
    → All InLine (if is_empty s then codes "Filter" else s)
      × ((if is_empty s then codes "Filter" else s) ≢ [])
in_line [] h = (ground arith, λ e. cc)
in_line (c ∷ s) h = (h, λ e. cc)

-- The comment of a filter stays on its line and is not empty.
pub sieve_comment-InLine :
    (name : Text) → All InLine (sieve_comment name) × (sieve_comment name ≢ [])
unfolding sieve_comment
sieve_comment-InLine name =
    in_line (replace_byte 10 (32 ∷ []) (replace_byte 13 (32 ∷ []) (trim_space name)))
      (no_break_10 (replace_byte 13 (32 ∷ []) (trim_space name)) (no_break_13 (trim_space name)))
