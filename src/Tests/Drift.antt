-- ===== src/Tests/Drift.antt =====
-- Runs of the comparison of configuration files.
use pro_identity_mail.Prelude.{
  ◌+◌, ◌≤◌, ◌≡◌, refl, ◌↔◌, inl, inr, List, [], ◌∷◌, Bool, true, false, All, map, length, arith,
  if◌then◌else◌,
}
use pro_identity_mail.Text.{Text, codes, text_eq, split}
use pro_identity_mail.Drift.Lines.{line_diff}
use pro_identity_mail.Drift.Lines.Lcs.{IsSubsequence}
use pro_identity_mail.Drift.Lines.Patch.{unmark, is_kept, is_old, is_new, line_diff_lem}
use pro_identity_mail.Drift.Redact.{unix_lines, secret_like_line, unified_diff}
use pro_identity_mail.Drift.Redact.Hidden.{SameButSecrets, unified_diff_hides}
use pro_identity_mail.Drift.Report.{
  Mapping, Read, content, not_exist, compare, all_ok, match, drift, missing_live, error,
}
use pro_identity_mail.Drift.Report.Counts.{InSync, having, compare_counts, compare-all_ok}

abbrev old_lines : List Text
old_lines = codes "a" ∷ codes "b" ∷ codes "c" ∷ []

abbrev new_lines : List Text
new_lines = codes "b" ∷ codes "d" ∷ codes "c" ∷ []

abbrev kept_lines : List Text
kept_lines = codes "b" ∷ codes "c" ∷ []

line_diff_run :
    line_diff old_lines new_lines
    ≡ codes "@@" ∷ codes "-a" ∷ codes " b" ∷ codes "+d" ∷ codes " c" ∷ []
unfolding line_diff text_eq
line_diff_run = refl

line_diff_lem_example :
    (ls : List Text) × (line_diff old_lines new_lines ≡ codes "@@" ∷ ls)
    × (unmark is_old ls ≡ old_lines)
    × (unmark is_new ls ≡ new_lines)
    × IsSubsequence (unmark is_kept ls) old_lines
    × IsSubsequence (unmark is_kept ls) new_lines
    × (length kept_lines ≤ length (unmark is_kept ls))
line_diff_lem_example =
    line_diff_lem old_lines new_lines kept_lines (inr (inl (refl, inl (refl, tt))))
      (inl (refl, inr (inl (refl, tt))))

abbrev with_password : Text
with_password = codes "user=mail\npassword=one"

abbrev with_other : Text
with_other = codes "user=mail\npassword=two"

same_but_secrets :
    SameButSecrets (split 10 (unix_lines with_password)) (split 10 (unix_lines with_other))
unfolding split unix_lines secret_like_line pro_identity_mail.Text.to_lower
    pro_identity_mail.Text.trim_space pro_identity_mail.Text.has_prefix
    pro_identity_mail.Text.contains
same_but_secrets = (
  inl refl,
  (
    inr (inr (codes "password", codes "one", codes "two", ground arith, refl, refl, refl, refl)),
    tt,
  ),
)

unified_diff_hides_example :
    unified_diff (codes "d") (codes "l") with_password with_password
    ≡ unified_diff (codes "d") (codes "l") with_other with_other
unified_diff_hides_example =
    unified_diff_hides (codes "d") (codes "l") with_password with_other with_password with_other
      same_but_secrets same_but_secrets

abbrev digest : Text → Text
digest s = s

abbrev files : Text → Read
files path = if text_eq path (codes "missing") then not_exist [] else content (codes "x")

abbrev mapping : Text → Mapping
mapping live = record {
  id = codes "id";
  service = codes "postfix";
  label = codes "label";
  desired_path = codes "desired";
  live_path = live;
}

abbrev mappings : List (Mapping × Bool)
mappings =
    (mapping (codes "live"), false)
    ∷ (mapping (codes "missing"), false)
    ∷ (mapping (codes "live"), true)
    ∷ []

compare_counts_example :
    let r = compare digest files 5 (codes "cancelled") mappings in
    (map (λ i. i.mapping) r.items ≡ map (λ p. p.0) mappings)
    × (r.summary.total ≡ length mappings)
    × (r.summary.matching + r.summary.drifted + r.summary.missing_live + r.summary.errors
        ≡ length mappings)
    × (r.summary.matching ≡ having match r.items)
    × (r.summary.drifted ≡ having drift r.items)
    × (r.summary.missing_live ≡ having missing_live r.items)
    × (r.summary.errors ≡ having error r.items)
compare_counts_example = compare_counts digest files 5 (codes "cancelled") mappings

compare-all_ok_example :
    ((compare digest files 5 (codes "cancelled") mappings).verdict ≡ all_ok)
    ↔ All (λ p. (p.1 ≡ false) × InSync files p.0) mappings
compare-all_ok_example = compare-all_ok digest files 5 (codes "cancelled") mappings
