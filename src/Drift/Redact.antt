-- ===== src/Drift/Redact.antt =====
-- What a difference shows of a file: `redactConfig`, `splitLines` and `unifiedDiff`
-- (internal/configdrift/drift.go).
pub mod Hidden
use pro_identity_mail.Prelude.{
  ℕ, ◌+◌, ◌*◌, List, [], ◌∷◌, ◌++◌, Bool, true, false, ◌&&◌, ◌||◌, Option, none, some, ltb, ◌==◌,
  if◌then◌else◌, length, map,
}
use pro_identity_mail.Text.{
  Text, codes, to_lower, trim_space, trim_right, trim_suffix, has_prefix, contains, is_empty, split,
  join, cut,
}
use pro_identity_mail.Drift.Lines.{line_diff}

-- `strings.ReplaceAll(value, "\r\n", "\n")`
unfoldable pub unix_lines : Text → Text
unix_lines [] = []
unix_lines (c ∷ []) = c ∷ []
unix_lines (c ∷ d ∷ s) = elim (c == 13 && d == 10) [
  | true ↦ 10 ∷ unix_lines s
  | false ↦ c ∷ unix_lines (d ∷ s)
]

unfoldable pub split_lines : Text → List Text
split_lines value =
    let text = trim_suffix (unix_lines value) (codes "\n") in
    if is_empty text then [] else split 10 text

abbrev needles : List Text
needles =
    codes "password"
    ∷ codes "api_key"
    ∷ codes "api-token"
    ∷ codes "secret"
    ∷ codes "private_key"
    ∷ codes "privkey"
    ∷ codes "server_api_header"
    ∷ codes "hash_nonce"
    ∷ codes "dns_cloudflare_api_token"
    ∷ []

contains_one : List Text → Text → Bool
contains_one [] text = false
contains_one (n ∷ ns) text = contains text n || contains_one ns text

unfoldable pub secret_like_line : Text → Bool
unfolding contains_one
secret_like_line line =
    let lower = to_lower (trim_space line) in
    if is_empty lower || has_prefix lower (codes "#") then false else contains_one needles lower

-- space or tab
abbrev is_blank : ℕ → Bool
is_blank c = c == 32 || c == 9

-- a secret line, cut at its first `=`
redacted : Option (Text × Text) → Text
redacted none = codes "<redacted>"
redacted (some (name, value)) = trim_right is_blank (name ++ (b'=' ∷ [])) ++ codes " <redacted>"

unfoldable pub redact_line : Text → Text
unfolding redacted
redact_line line = if secret_like_line line then redacted (cut b'=' line) else line

unfoldable pub redact_config : Text → Text
redact_config value = join (map redact_line (split 10 (unix_lines value))) (codes "\n")

-- each line, and a line feed
written : List Text → Text
written [] = []
written (l ∷ ls) = l ++ (10 ∷ written ls)

unfoldable pub unified_diff : Text → Text → Text → Text → Text
unfolding written
unified_diff desired_path live_path desired live =
    let desired_lines = split_lines (redact_config desired) in
    let live_lines = split_lines (redact_config live) in
    let head =
      written ((codes "--- live: " ++ live_path) ∷ (codes "+++ desired: " ++ desired_path) ∷ []) in
    if ltb 1000000 (length live_lines * length desired_lines)
    then head
      ++ written (
          codes "@@ full diff omitted because files are large @@"
          ∷ codes "- live sha/content differs"
          ∷ codes "+ desired sha/content differs"
          ∷ [])
    else trim_right (λ c. c == 10) (head ++ written (line_diff live_lines desired_lines))
