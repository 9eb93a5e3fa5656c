-- ===== src/Session/Keys.antt =====
-- Limiter keys (internal/session/sql_limiter.go): `service|account|email` names an account, and
-- `service|pair|account|client` an account seen from a client.
use pro_identity_mail.Prelude.{
  ℕ, List, [], ◌∷◌, Bool, false, ◌&&◌, ◌||◌, not, Option, none, some, ltb, ◌==◌, if◌then◌else◌,
  length,
}
use pro_identity_mail.Text.{
  Text, codes, text_eq, to_lower, trim_space, split, contains, contains_any, cut, is_empty,
}

pub record PairLimiterKey : Type 0 where
  pub scope : Text
  pub account : Text
  pub client : Text

unfoldable pub parts_of : Text → List Text
unfolding split to_lower trim_space
parts_of key = split b'|' (to_lower (trim_space key))

-- `" \t\r\n\x00"`
abbrev is_email_blank : ℕ → Bool
is_email_blank c = c == 32 || c == 9 || c == 13 || c == 10 || c == 0

has_account_domain : Option (Text × Text) → Bool
unfolding contains
has_account_domain none = false
has_account_domain (some (local, domain_name)) =
    not (is_empty local)
    && not (is_empty domain_name)
    && not (contains domain_name (codes "@"))
    && contains domain_name (codes ".")

account_email : Text → Text
unfolding has_account_domain contains contains_any cut
account_email email =
    if not (contains email (codes "@")) || contains_any is_email_blank email
    then []
    else if has_account_domain (cut b'@' email)
    then email
    else []

email_of_parts : List Text → Text
unfolding account_email text_eq trim_space
email_of_parts (_ ∷ kind ∷ email ∷ []) =
    if text_eq kind (codes "account") then account_email (trim_space email) else []
email_of_parts _ = []

unfoldable pub account_email_from_limiter_key : Text → Text
unfolding parts_of email_of_parts
account_email_from_limiter_key key = email_of_parts (parts_of key)

-- `"\x00\r\n\t"`
abbrev is_control_break : ℕ → Bool
is_control_break c = c == 0 || c == 13 || c == 10 || c == 9

unfoldable pub safe_limiter_part : Text → Bool
unfolding contains_any
safe_limiter_part value =
    if is_empty value || ltb 320 (length value) || contains_any is_control_break value
    then false
    else not (contains_any (λ c. ltb c 32 || c == 127) value)

unfoldable pub pair_of_parts : List Text → Option PairLimiterKey
unfolding safe_limiter_part text_eq trim_space
pair_of_parts (scope ∷ kind ∷ account ∷ client ∷ []) =
    if text_eq kind (codes "pair")
    then (let pair : PairLimiterKey = record {
      scope = trim_space scope;
      account = trim_space account;
      client = trim_space client;
    } in
        if safe_limiter_part pair.scope
          && safe_limiter_part pair.account
          && safe_limiter_part pair.client
        then some pair
        else none)
    else none
pair_of_parts _ = none

unfoldable pub parse_pair_limiter_key : Text → Option PairLimiterKey
unfolding parts_of pair_of_parts
parse_pair_limiter_key key = pair_of_parts (parts_of key)
