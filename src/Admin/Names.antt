-- ===== src/Admin/Names.antt =====
-- The names that the administration service takes (the `normalize` functions of
-- internal/admin/handlers.go): `none` is a name refused. `mail.ParseAddress` is a parameter, whose
-- result is the address it finds.
pub mod Valid
use pro_identity_mail.Prelude.{
  ℕ, List, [], ◌∷◌, ◌++◌, Bool, true, false, ◌&&◌, ◌||◌, not, Option, none, some, ltb, leb, ◌==◌,
  if◌then◌else◌, length,
}
use pro_identity_mail.Text.{
  Text, codes, text_eq, to_lower, trim_space, trim_suffix, has_prefix, has_suffix, contains,
  is_empty, split, join, replace_byte,
}

-- a letter, a digit or a hyphen
abbrev pub is_label_byte : ℕ → Bool
is_label_byte c = (leb b'a' c && leb c b'z') || (leb b'0' c && leb c b'9') || c == b'-'

abbrev pub is_local_byte : ℕ → Bool
is_local_byte c = is_label_byte c || c == b'.' || c == b'_' || c == b'+'

-- the loop over the bytes
unfoldable pub only : (ℕ → Bool) → Text → Bool
only p [] = true
only p (c ∷ s) = p c && only p s

-- `s[0] == c` and `s[len(s)-1] == c`, on a text that is not empty
unfoldable pub starts_with : ℕ → Text → Bool
starts_with d [] = false
starts_with d (c ∷ s) = c == d

unfoldable pub ends_with : ℕ → Text → Bool
ends_with d [] = false
ends_with d (c ∷ []) = c == d
ends_with d (c ∷ e ∷ s) = ends_with d (e ∷ s)

unfoldable pub valid_dns_label : Text → Bool
unfolding only starts_with ends_with
valid_dns_label label =
    if is_empty label || ltb 63 (length label)
    then false
    else if starts_with b'-' label || ends_with b'-' label
    then false
    else only is_label_byte label

unfoldable pub normalize_tenant_slug : Text → Option Text
normalize_tenant_slug value =
    let slug = to_lower (trim_space value) in
    if is_empty slug || ltb 63 (length slug)
    then none
    else if starts_with b'-' slug || ends_with b'-' slug
    then none
    else if only is_label_byte slug
    then some slug
    else none

unfoldable pub valid_labels : List Text → Bool
valid_labels [] = true
valid_labels (l ∷ ls) = valid_dns_label l && valid_labels ls

unfoldable pub normalize_domain_name : Text → Option Text
normalize_domain_name value =
    let name = to_lower (trim_suffix (trim_space value) (codes ".")) in
    if is_empty name || ltb 253 (length name) || contains name (codes "..")
    then none
    else if ltb (length (split b'.' name)) 2
    then none
    else if valid_labels (split b'.' name)
    then some name
    else none

unfoldable pub normalize_dkim_selector : Text → Option Text
normalize_dkim_selector value =
    let selector = to_lower (trim_suffix (trim_space value) (codes ".")) in
    if is_empty selector || ltb 253 (length selector) || contains selector (codes "..")
    then none
    else if valid_labels (split b'.' selector)
    then some selector
    else none

unfoldable pub normalize_local_part : Text → Option Text
normalize_local_part value =
    let name = to_lower (trim_space value) in
    if is_empty name || ltb 64 (length name) || contains name (codes "..")
    then none
    else if starts_with b'.' name || ends_with b'.' name
    then none
    else if only is_local_byte name
    then some name
    else none

unfoldable pub join_address : Option Text → Option Text → Option Text
join_address none domain_name = none
join_address (some name) none = none
join_address (some name) (some domain_name) = some (name ++ (b'@' ∷ domain_name))

unfoldable pub address_of_parts : List Text → Option Text
unfolding join_address
address_of_parts (name ∷ domain_name ∷ []) =
    join_address (normalize_local_part name) (normalize_domain_name domain_name)
address_of_parts [] = none
address_of_parts (_ ∷ []) = none
address_of_parts (_ ∷ _ ∷ _ ∷ _) = none

unfoldable pub address_of : Option Text → Option Text
unfolding address_of_parts
address_of none = none
address_of (some address) = if is_empty address then none else address_of_parts (split b'@' address)

put_first : Option Text → Option (List Text) → Option (List Text)
put_first none rest = none
put_first (some address) none = none
put_first (some address) (some rest) = some (address ∷ rest)

module _ (parse_address : Text → Option Text) where
  unfoldable pub normalize_email_address : Text → Option Text
  unfolding address_of
  normalize_email_address value = address_of (parse_address (trim_space value))

  normalize_parts : List Text → Option (List Text)
  unfolding put_first
  normalize_parts [] = some []
  normalize_parts (p ∷ ps) = put_first (normalize_email_address p) (normalize_parts ps)

  listed : Option (List Text) → Option Text
  listed none = none
  listed (some []) = none
  listed (some (a ∷ rest)) = some (join (a ∷ rest) (codes ","))

  unfoldable pub normalize_address_list : Text → Option Text
  unfolding normalize_parts listed
  normalize_address_list value =
      listed (normalize_parts (split b',' (replace_byte b';' (codes ",") value)))

-- `seen[hostname]`
is_seen : Text → List Text → Bool
is_seen h [] = false
is_seen h (s ∷ ss) = text_eq s h || is_seen h ss

-- the loop, with what it has collected
collect_hostnames : List Text → List Text → Option (List Text)
unfolding is_seen
collect_hostnames out [] = some out
collect_hostnames out (v ∷ vs) = elim (normalize_domain_name v) [
  | none ↦ none
  | some hostname ↦
      collect_hostnames (if is_seen hostname out then out else out ++ (hostname ∷ [])) vs
]

unfoldable pub normalize_hostnames : List Text → Option (List Text)
unfolding collect_hostnames
normalize_hostnames values = collect_hostnames [] values

abbrev certificate_roots : List Text
certificate_roots =
    codes "/etc/proidentity-mail/certs/"
    ∷ codes "/var/lib/proidentity-mail/certs/"
    ∷ codes "/etc/letsencrypt/live/"
    ∷ codes "/etc/ssl/certs/"
    ∷ codes "/etc/ssl/private/"
    ∷ []

has_one_prefix : Text → List Text → Bool
has_one_prefix path [] = false
has_one_prefix path (p ∷ ps) = has_prefix path p || has_one_prefix path ps

unfoldable pub allowed_certificate_path : Text → Bool
unfolding has_one_prefix
allowed_certificate_path value =
    let path = trim_space (replace_byte 92 (codes "/") value) in
    if is_empty path
    then true
    else if not (has_prefix path (codes "/"))
        || contains path (0 ∷ [])
        || contains path (codes "/../")
        || has_suffix path (codes "/..")
    then false
    else has_one_prefix path certificate_roots
