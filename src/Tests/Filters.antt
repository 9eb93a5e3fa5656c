-- ===== src/Tests/Filters.antt =====
-- Runs of the Sieve script of a mailbox.
use pro_identity_mail.Prelude.{
  ◌≡◌, ◌≢◌, refl, ◌↔◌, [], ◌∷◌, ◌++◌, true, false, All, Any, none, some,
}
use pro_identity_mail.Text.{Text, codes, text_eq, to_lower, trim_space}
use pro_identity_mail.Webmail.Sieve.{
  MailFilter, sieve_string, sieve_comment, sieve_condition, sieve_match, field_test,
  render_sieve_filters,
}
use pro_identity_mail.Webmail.Sieve.Quoted.{
  read_quoted, flattened, read_quoted-sieve_string, InLine, sieve_comment-InLine,
}
use pro_identity_mail.Webmail.Sieve.Rendered.{IsRefused, render_sieve_filters-IsRefused}

abbrev filter : MailFilter
filter = record {
  name = codes "Bills\nkeep;";
  field = codes "subject";
  operator = codes "starts_with";
  value = codes "a\"b";
  action = codes "delete";
  folder = [];
  enabled = true;
}

condition : sieve_condition filter ≡ some (codes "header :matches \"Subject\" \"a\\\"b*\"")
unfolding sieve_condition sieve_string sieve_match field_test text_eq to_lower trim_space
condition = refl

comment : sieve_comment filter.name ≡ codes "Bills keep;"
unfolding sieve_comment trim_space pro_identity_mail.Text.replace_byte
comment = refl

read_quoted-sieve_string_example :
    read_quoted false (sieve_string (codes "a\"b\nc") ++ (34 ∷ codes ";"))
    ≡ some (flattened (codes "a\"b\nc"), codes ";")
read_quoted-sieve_string_example = read_quoted-sieve_string (codes "a\"b\nc") (codes ";")

sieve_comment-InLine_example :
    All InLine (sieve_comment filter.name) × (sieve_comment filter.name ≢ [])
sieve_comment-InLine_example = sieve_comment-InLine filter.name

render_sieve_filters-IsRefused_example :
    (render_sieve_filters (filter ∷ []) ≡ none) ↔ Any IsRefused (filter ∷ [])
render_sieve_filters-IsRefused_example = render_sieve_filters-IsRefused (filter ∷ [])
