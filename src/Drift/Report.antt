-- ===== src/Drift/Report.antt =====
-- `Compare` (internal/configdrift/drift.go). The file system is a parameter: what a read of a path
-- yields. So are the hash and, for each mapping, whether the context is done when the loop reaches it.
pub mod Counts
use pro_identity_mail.Prelude.{
  ℕ, suc, ◌+◌, List, [], ◌∷◌, ◌++◌, Bool, true, false, ◌||◌, ltb, if◌then◌else◌, length,
}
use pro_identity_mail.Text.{Text, codes, text_eq}
use pro_identity_mail.Drift.Redact.{unified_diff}

pub record Mapping : Type 0 where
  pub id : Text
  pub service : Text
  pub label : Text
  pub desired_path : Text
  pub live_path : Text

-- the status strings
pub data Status : Type 0 where
  match drift missing_live error : Status

pub record Item : Type 0 where
  pub mapping : Mapping
  pub status : Status
  pub desired_sha256 : Text
  pub live_sha256 : Text
  pub desired_size : ℕ
  pub live_size : ℕ
  pub diff : Text
  pub problem : Text

pub record Summary : Type 0 where
  pub total : ℕ
  pub matching : ℕ
  pub drifted : ℕ
  pub missing_live : ℕ
  pub errors : ℕ

-- the report's own status strings
pub data Verdict : Type 0 where
  all_ok has_drift has_error : Verdict

pub record Report : Type 0 where
  pub verdict : Verdict
  pub checked_at : ℕ
  pub summary : Summary
  pub items : List Item

-- what `os.ReadFile` yields
pub data Read : Type 0 where
  content : Text → Read
  not_exist : Text → Read
  failed : Text → Read

abbrev new_item : Mapping → Status → Item
new_item mapping status = record {
  mapping = mapping;
  status = status;
  desired_sha256 = [];
  live_sha256 = [];
  desired_size = 0;
  live_size = 0;
  diff = [];
  problem = [];
}

-- the `switch` on the status
unfoldable pub count : Status → Summary → Summary
count match s = record s { matching = s.matching + 1 }
count drift s = record s { drifted = s.drifted + 1 }
count missing_live s = record s { missing_live = s.missing_live + 1 }
count error s = record s { errors = s.errors + 1 }

unfoldable pub cancelled_item : Text → Mapping → Item
cancelled_item problem mapping = record (new_item mapping error) { problem = problem }

unfoldable pub verdict_of : Summary → Verdict
verdict_of s =
    if ltb 0 s.errors
    then has_error
    else if ltb 0 s.drifted || ltb 0 s.missing_live
    then has_drift
    else all_ok

abbrev pub zero_summary : Summary
zero_summary = record { total = 0; matching = 0; drifted = 0; missing_live = 0; errors = 0 }

module _ (sha256_hex : Text → Text) (read_file : Text → Read) where
  unfoldable pub live_item : Mapping → Text → Read → Item
  live_item mapping desired (content live) =
      let item = record (new_item mapping match) {
        desired_sha256 = sha256_hex desired;
        live_sha256 = sha256_hex live;
        desired_size = length desired;
        live_size = length live;
      } in
      if text_eq desired live then item else record item {
        status = drift;
        diff = unified_diff mapping.desired_path mapping.live_path desired live;
      }
  live_item mapping desired (not_exist problem) = record (new_item mapping missing_live) {
    problem = codes "live file missing";
    desired_sha256 = sha256_hex desired;
    desired_size = length desired;
    diff = unified_diff mapping.desired_path mapping.live_path desired [];
  }
  live_item mapping desired (failed problem) = record (new_item mapping error) {
    problem = codes "read live: " ++ problem;
  }

  unfoldable pub desired_item : Mapping → Read → Item
  unfolding live_item
  desired_item mapping (content desired) = live_item mapping desired (read_file mapping.live_path)
  desired_item mapping (not_exist problem) = record (new_item mapping error) {
    problem = codes "read desired: " ++ problem;
  }
  desired_item mapping (failed problem) = record (new_item mapping error) {
    problem = codes "read desired: " ++ problem;
  }

  unfoldable pub compare_one : Mapping → Item
  unfolding desired_item
  compare_one mapping = desired_item mapping (read_file mapping.desired_path)

  -- the loop: the items so far and their counts
  unfoldable pub compare_from :
      Text → List (Mapping × Bool) → List Item → Summary → List Item × Summary
  unfolding count cancelled_item
  compare_from problem [] items s = (items, s)
  compare_from problem ((mapping, done) ∷ mappings) items s =
      let item = if done then cancelled_item problem mapping else compare_one mapping in
      compare_from problem mappings (items ++ (item ∷ [])) (count item.status s)

  -- `problem` is the context's error
  unfoldable pub compare : ℕ → Text → List (Mapping × Bool) → Report
  unfolding compare_from verdict_of
  compare now problem mappings =
      let (items, counted) = compare_from problem mappings [] zero_summary in
      let summary : Summary = record counted { total = length items } in
      record { verdict = verdict_of summary; checked_at = now; summary = summary; items = items }
