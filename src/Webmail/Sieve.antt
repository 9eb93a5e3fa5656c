-- ===== src/Webmail/Sieve.antt =====
-- The Sieve script of a mailbox's filters (internal/webmail/sieve.go, with `customMailboxName` and
-- `systemFolderID` of internal/webmail/maildir.go): `none` is an error of the source.
pub mod Quoted
pub mod Rendered
use pro_identity_mail.Prelude.{
  ℕ, List, [], ◌∷◌, ◌++◌, Bool, true, false, ◌||◌, ◌&&◌, not, Option, none, some, ltb, ◌==◌,
  if◌then◌else◌,
}
use pro_identity_mail.Text.{
  Text, codes, text_eq, to_lower, trim_space, trim_prefix, contains, contains_any, is_empty,
  replace_byte,
}

pub record MailFilter : Type 0 where
  pub name : Text
  pub field : Text
  pub operator : Text
  pub value : Text
  pub action : Text
  pub folder : Text
  pub enabled : Bool

-- one character, on texts that are valid UTF-8
unfoldable pub sieve_char : ℕ → Text
sieve_char c =
    if c == 92
    then 92 ∷ 92 ∷ []
    else if c == 34
    then 92 ∷ 34 ∷ []
    else if c == 13 || c == 10
    then 32 ∷ []
    else if ltb c 32
    then []
    else c ∷ []

unfoldable pub sieve_string : Text → Text
unfolding sieve_char
sieve_string [] = []
sieve_string (c ∷ value) = sieve_char c ++ sieve_string value

unfoldable pub sieve_comment : Text → Text
sieve_comment value =
    let flat = replace_byte 10 (codes " ") (replace_byte 13 (codes " ") (trim_space value)) in
    if is_empty flat then codes "Filter" else flat

-- the match type and the value to match
unfoldable pub sieve_match : Text → Text → Option (Text × Text)
sieve_match operator value =
    if text_eq operator (codes "contains") || is_empty operator
    then some (codes ":contains", value)
    else if text_eq operator (codes "equals")
    then some (codes ":is", value)
    else if text_eq operator (codes "starts_with")
    then some (codes ":matches", value ++ codes "*")
    else if text_eq operator (codes "ends_with")
    then some (codes ":matches", codes "*" ++ value)
    else none

-- a text in quotes
abbrev pub quoted : Text → Text
quoted value = codes "\"" ++ (sieve_string value ++ codes "\"")

-- the test in front of a quoted value
unfoldable pub field_test : Text → Text → Option Text
field_test field match =
    if text_eq field (codes "from")
    then some (codes "header " ++ (match ++ codes " \"From\" "))
    else if text_eq field (codes "to")
    then some (
        codes "header " ++ (match ++ codes " [\"To\", \"Cc\", \"Delivered-To\", \"Envelope-To\"] "))
    else if text_eq field (codes "subject")
    then some (codes "header " ++ (match ++ codes " \"Subject\" "))
    else if text_eq field (codes "body")
    then some (codes "body :text " ++ (match ++ codes " "))
    else none

quoted_after : Option Text → Text → Option Text
quoted_after none value = none
quoted_after (some test) value = some (test ++ quoted value)

matched : Text → Option (Text × Text) → Option Text
unfolding quoted_after
matched field none = none
matched field (some (match, value)) = quoted_after (field_test field match) value

unfoldable pub sieve_condition : MailFilter → Option Text
unfolding matched
sieve_condition filter =
    let field = to_lower (trim_space filter.field) in
    let operator = to_lower (trim_space filter.operator) in
    let value = trim_space filter.value in
    if is_empty value then none else matched field (sieve_match operator value)

unfoldable pub system_folder_id : Text → Option Text
system_folder_id name =
    let id = to_lower (trim_prefix (trim_space name) (codes ".")) in
    if text_eq id (codes "inbox")
    then some (codes "inbox")
    else if text_eq id (codes "drafts") || text_eq id (codes "draft")
    then some (codes "drafts")
    else if text_eq id (codes "spam")
    then some (codes "spam")
    else if text_eq id (codes "sent")
    then some (codes "sent")
    else if text_eq id (codes "trash")
    then some (codes "trash")
    else if text_eq id (codes "archive")
    then some (codes "archive")
    else none

is_some : Option Text → Bool
is_some none = false
is_some (some id) = true

-- one of `/`, `\` and `:`
abbrev is_path_byte : ℕ → Bool
is_path_byte c = c == 47 || c == 92 || c == 58

unfoldable pub custom_mailbox_name : Text → Option Text
unfolding is_some
custom_mailbox_name name =
    let cleaned = trim_space name in
    if is_empty cleaned
    then none
    else if is_some (system_folder_id cleaned)
    then none
    else if contains_any is_path_byte cleaned || contains cleaned (codes "..")
    then none
    else let bare = trim_prefix cleaned (codes ".") in
      if is_empty bare then none else some (codes "." ++ bare)

custom : Text → Option Text → Option Text
custom cleaned none = none
custom cleaned (some name) = some cleaned

unfoldable pub sieve_mailbox : Text → Option Text
unfolding custom
sieve_mailbox folder =
    let cleaned = trim_prefix (trim_space folder) (codes ".") in
    let id = to_lower cleaned in
    if text_eq id (codes "inbox")
    then some (codes "INBOX")
    else if text_eq id (codes "drafts") || text_eq id (codes "draft")
    then some (codes "Drafts")
    else if text_eq id (codes "sent")
    then some (codes "Sent")
    else if text_eq id (codes "spam") || text_eq id (codes "junk")
    then some (codes "Spam")
    else if text_eq id (codes "trash")
    then some (codes "Trash")
    else if text_eq id (codes "archive")
    then some (codes "Archive")
    else custom cleaned (custom_mailbox_name cleaned)

move_to : Option Text → Option Text
move_to none = none
move_to (some folder) = some (codes "fileinto " ++ (quoted folder ++ codes ";"))

unfoldable pub sieve_action : MailFilter → Option Text
unfolding move_to
sieve_action filter =
    let action = to_lower (trim_space filter.action) in
    if text_eq action (codes "move") || is_empty action
    then move_to (sieve_mailbox filter.folder)
    else if text_eq action (codes "mark_spam")
    then some (codes "fileinto \"Spam\";")
    else if text_eq action (codes "delete")
    then some (codes "discard;")
    else if text_eq action (codes "keep")
    then some (codes "keep;")
    else none

-- `a < b` on strings
unfoldable pub text_lt : Text → Text → Bool
text_lt [] [] = false
text_lt [] (d ∷ t) = true
text_lt (c ∷ s) [] = false
text_lt (c ∷ s) (d ∷ t) = let rest = text_lt s t in if c == d then rest else ltb c d

-- `sort.SliceStable` by name: a filter stays in front of those that do not come before it.
insert_filter : MailFilter → List MailFilter → List MailFilter
unfolding text_lt
insert_filter f [] = f ∷ []
insert_filter f (g ∷ gs) =
    let rest = insert_filter f gs in
    if text_lt (to_lower g.name) (to_lower f.name) then g ∷ rest else f ∷ g ∷ gs

unfoldable pub sort_filters : List MailFilter → List MailFilter
unfolding insert_filter
sort_filters [] = []
sort_filters (f ∷ fs) = insert_filter f (sort_filters fs)

block_of : MailFilter → Option Text → Option Text → Option Text
block_of filter none action = none
block_of filter (some condition) none = none
block_of filter (some condition) (some action) = some (
    codes "\n# "
    ++ (sieve_comment filter.name
        ++ (codes "\nif "
            ++ (condition ++ (codes " {\n  " ++ (action ++ codes "\n  stop;\n}\n"))))))

-- the lines of one filter
unfoldable pub sieve_block : MailFilter → Option Text
unfolding block_of
sieve_block filter = block_of filter (sieve_condition filter) (sieve_action filter)

append_block : Option Text → Option Text → Option Text
append_block none rest = none
append_block (some block) none = none
append_block (some block) (some rest) = some (block ++ rest)

unfoldable pub sieve_blocks : List MailFilter → Option Text
unfolding append_block
sieve_blocks [] = some []
sieve_blocks (f ∷ fs) =
    let rest = sieve_blocks fs in if f.enabled then append_block (sieve_block f) rest else rest

abbrev sieve_header : Text
sieve_header =
    codes "require [\"fileinto\", \"body\"];"
    ++ codes "\n\n# Generated by ProIdentity Mail. Changes made here may be overwritten.\n"

-- no filter has been rendered
has_none : List MailFilter → Bool
has_none [] = true
has_none (f ∷ fs) = not f.enabled && has_none fs

with_header : List MailFilter → Option Text → Option Text
unfolding has_none
with_header fs none = none
with_header fs (some blocks) = some (
    sieve_header
    ++ (blocks ++ (if has_none fs then codes "\n# No enabled ProIdentity filters.\n" else [])))

unfoldable pub render_sieve_filters : List MailFilter → Option Text
unfolding with_header
render_sieve_filters filters =
    let ordered = sort_filters filters in with_header ordered (sieve_blocks ordered)
