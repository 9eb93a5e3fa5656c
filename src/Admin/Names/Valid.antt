-- ===== src/Admin/Names/Valid.antt =====
-- What a name that is taken looks like.
use pro_identity_mail.Prelude.{
  ℕ, ◌≤◌, ◌≡◌, ◌≢◌, refl, ◌∙◌, sym, ap, subst, ◌⊎◌, List, [], ◌∷◌, ◌++◌, Bool, true, false, ◌||◌,
  Option, none, some, ltb, if◌then◌else◌, length, All, arith,
}
use pro_identity_mail.Text.{
  Text, codes, to_lower, trim_space, trim_suffix, contains, has_prefix, is_empty, split, join,
}
use pro_identity_mail.Text.Split.{join-split}
use pro_identity_mail.Admin.Names.{
  is_label_byte, is_local_byte, only, starts_with, ends_with, valid_dns_label, valid_labels,
  normalize_domain_name, normalize_local_part, join_address, address_of_parts, address_of,
  normalize_email_address,
}

-- a letter in lower case, a digit or a hyphen
abbrev pub LabelByte : ℕ → Type 0
LabelByte c = ((97 ≤ c) × (c ≤ 122)) ⊎ (((48 ≤ c) × (c ≤ 57)) ⊎ (c ≡ 45))

abbrev pub LocalByte : ℕ → Type 0
LocalByte c = LabelByte c ⊎ ((c ≡ 46) ⊎ ((c ≡ 95) ⊎ (c ≡ 43)))

-- One to 63 such bytes, with no hyphen at either end.
pub record IsLabel (l : Text) : Type 0 where
  pub some_bytes : l ≢ []
  pub short : length l ≤ 63
  pub bytes : All LabelByte l
  pub inner_start : (s : Text) → l ≢ 45 ∷ s
  pub inner_end : (s : Text) → l ≢ s ++ (45 ∷ [])

-- At least two labels with a dot between each two, of at most 253 bytes.
pub record IsDomainName (name : Text) : Type 0 where
  pub labels : List Text
  pub dotted : name ≡ join labels (codes ".")
  pub two : 2 ≤ length labels
  pub each : All IsLabel labels
  pub short : length name ≤ 253

-- One to 64 bytes, with no dot at either end and no two dots in a row.
pub record IsLocalPart (l : Text) : Type 0 where
  pub some_bytes : l ≢ []
  pub short : length l ≤ 64
  pub bytes : All LocalByte l
  pub inner_start : (s : Text) → l ≢ 46 ∷ s
  pub inner_end : (s : Text) → l ≢ s ++ (46 ∷ [])
  pub single_dots : (s t : Text) → l ≢ s ++ (46 ∷ 46 ∷ t)

only-All :
    (p : ℕ → Bool) (P : ℕ → Type 0)
    → ((c : ℕ) → p c ≡ true → P c)
    → (s : Text) → only p s ≡ true
    → All P s
unfolding only
only-All p P h [] e = tt
only-All p P h (c ∷ s) e = (h c (ground arith), only-All p P h s (ground arith))

label_byte : (c : ℕ) → is_label_byte c ≡ true → LabelByte c
label_byte c h = ground arith

local_byte : (c : ℕ) → is_local_byte c ≡ true → LocalByte c
local_byte c h = ground arith

starts_with-cons : (d : ℕ) (l s : Text) → starts_with d l ≡ false → l ≢ d ∷ s
unfolding starts_with
starts_with-cons d [] s h e = cc
starts_with-cons d (c ∷ l) s h e = ground (arith, e)

ends_with-append : (d : ℕ) (l s : Text) → ends_with d l ≡ false → l ≢ s ++ (d ∷ [])
unfolding ends_with
ends_with-append d [] [] h e = cc
ends_with-append d [] (x ∷ s) h e = cc
ends_with-append d (c ∷ []) [] h e = ground (arith, e)
ends_with-append d (c ∷ []) (x ∷ []) h e = cc
ends_with-append d (c ∷ []) (x ∷ y ∷ s) h e = cc
ends_with-append d (c ∷ b ∷ l) [] h e = cc
ends_with-append d (c ∷ b ∷ l) (x ∷ s) h e = ends_with-append d (b ∷ l) s h (cc e)

-- two dots in a row are found
contains-dots : (l s t : Text) → contains l (codes "..") ≡ false → l ≢ s ++ (46 ∷ 46 ∷ t)
unfolding contains has_prefix
contains-dots [] [] t h e = cc
contains-dots [] (x ∷ s) t h e = cc
contains-dots (c ∷ l) [] t h e =
    let found : contains (46 ∷ 46 ∷ t) (codes "..") ≡ true = ground arith in
    cc (sym h ∙ ap (λ x. contains x (codes "..")) e ∙ found)
contains-dots (c ∷ l) (x ∷ s) t h e = contains-dots l s t (ground (arith, h)) (cc e)

valid_dns_label-IsLabel : (l : Text) → valid_dns_label l ≡ true → IsLabel l
unfolding valid_dns_label
valid_dns_label-IsLabel [] h = cc
valid_dns_label-IsLabel (c ∷ s) h =
    let starts : starts_with 45 (c ∷ s) ≡ false = ground (arith, h) in
    let ends : ends_with 45 (c ∷ s) ≡ false = ground (arith, h) in
    record {
      some_bytes = λ e. cc;
      short = ground (arith, h);
      bytes = only-All is_label_byte LabelByte label_byte (c ∷ s) (ground (arith, h));
      inner_start = λ t. starts_with-cons 45 (c ∷ s) t starts;
      inner_end = λ t. ends_with-append 45 (c ∷ s) t ends;
    }

valid_labels-All : (ls : List Text) → valid_labels ls ≡ true → All IsLabel ls
unfolding valid_labels
valid_labels-All [] h = tt
valid_labels-All (l ∷ ls) h =
    (valid_dns_label-IsLabel l (ground (arith, h)), valid_labels-All ls (ground (arith, h)))

-- A domain name that is taken is one of at least two labels of letters in lower case, digits and
-- inner hyphens, each of at most 63 bytes, with dots between them and of at most 253 bytes.
pub normalize_domain_name-IsDomainName :
    (value name : Text) → normalize_domain_name value ≡ some name → IsDomainName name
unfolding normalize_domain_name
normalize_domain_name-IsDomainName value name h =
    let shaped = to_lower (trim_suffix (trim_space value) (codes ".")) in
    let same : shaped ≡ name = ground (arith, h) in
    let labels : valid_labels (split 46 shaped) ≡ true = ground (arith, h) in
    let two : 2 ≤ length (split 46 shaped) = ground (arith, h) in
    let short : length shaped ≤ 253 = ground (arith, h) in
    record {
      labels = split 46 shaped;
      dotted = sym same ∙ sym (join-split 46 shaped);
      two = two;
      each = valid_labels-All (split 46 shaped) labels;
      short = rw⁻¹ same short;
    }

of_shaped :
    (s l : Text)
    → (if is_empty s || ltb 64 (length s) || contains s (codes "..")
        then none
        else if starts_with 46 s || ends_with 46 s
        then none
        else if only is_local_byte s
        then some s
        else none)
      ≡ some l
    → IsLocalPart l
of_shaped [] l h = cc
of_shaped (c ∷ s) l h =
    let same : c ∷ s ≡ l = ground (arith, h) in
    let starts : starts_with 46 (c ∷ s) ≡ false = ground (arith, h) in
    let ends : ends_with 46 (c ∷ s) ≡ false = ground (arith, h) in
    let short : length (c ∷ s) ≤ 64 = ground (arith, h) in
    let dots : contains (c ∷ s) (codes "..") ≡ false = ground (arith, h) in
    let bytes : only is_local_byte (c ∷ s) ≡ true = ground (arith, h) in
    subst IsLocalPart same (record {
      some_bytes = λ e. cc;
      short = short;
      bytes = only-All is_local_byte LocalByte local_byte (c ∷ s) bytes;
      inner_start = λ t. starts_with-cons 46 (c ∷ s) t starts;
      inner_end = λ t. ends_with-append 46 (c ∷ s) t ends;
      single_dots = λ u v. contains-dots (c ∷ s) u v dots;
    })

-- A local part that is taken has 1 to 64 bytes, which are letters in lower case, digits, dots,
-- hyphens, `_` and `+`, with no dot at either end and no two dots in a row.
pub normalize_local_part-IsLocalPart :
    (value l : Text) → normalize_local_part value ≡ some l → IsLocalPart l
unfolding normalize_local_part
normalize_local_part-IsLocalPart value l h = of_shaped (to_lower (trim_space value)) l h

-- What `address_of` takes.
abbrev pub IsAddress : Text → Type 0
IsAddress address =
    (l : Text) × (d : Text) × (address ≡ l ++ (64 ∷ d)) × IsLocalPart l × IsDomainName d

join_address-some :
    (name host : Option Text) (address : Text)
    → join_address name host ≡ some address
    → (l : Text) × (d : Text) × (name ≡ some l) × (host ≡ some d) × (address ≡ l ++ (64 ∷ d))
unfolding join_address
join_address-some none d a h = cc
join_address-some (some l) none a h = cc
join_address-some (some l) (some d) a h = (l, d, refl, refl, cc h)

address_of_parts-IsAddress :
    (ps : List Text) (address : Text) → address_of_parts ps ≡ some address → IsAddress address
unfolding address_of_parts
address_of_parts-IsAddress [] a h = cc
address_of_parts-IsAddress (l ∷ []) a h = cc
address_of_parts-IsAddress (l ∷ d ∷ []) a h =
    let (l', d', el, ed, e) =
      join_address-some (normalize_local_part l) (normalize_domain_name d) a h in
    (
      l',
      d',
      e,
      normalize_local_part-IsLocalPart l l' el,
      normalize_domain_name-IsDomainName d d' ed,
    )
address_of_parts-IsAddress (l ∷ d ∷ e ∷ ps) a h = cc

address_of-IsAddress :
    (o : Option Text) (address : Text) → address_of o ≡ some address → IsAddress address
unfolding address_of
address_of-IsAddress none a h = cc
address_of-IsAddress (some s) a h = address_of_parts-IsAddress (split 64 s) a (ground (arith, h))

-- An address that is taken is, whatever `mail.ParseAddress` does, a local part, `@` and a domain name:
-- 1 to 64 letters in lower case, digits, dots, hyphens, `_` and `+`, with no dot at either end and no
-- two in a row; and at least two labels of at most 63 letters in lower case, digits and inner hyphens,
-- with dots between them and of at most 253 bytes together.
pub normalize_email_address_lem :
    (parse_address : Text → Option Text) (value address : Text)
    → normalize_email_address parse_address value ≡ some address
    → IsAddress address
unfolding normalize_email_address
normalize_email_address_lem parse_address value address h =
    address_of-IsAddress (parse_address (trim_space value)) address h
