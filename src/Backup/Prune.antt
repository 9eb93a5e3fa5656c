-- ===== src/Backup/Prune.antt =====
-- Which backups stay (internal/backup/prune.go). The calendar is a parameter; times are numbers. A
-- limit that is not positive is 0. A file goes by its name, which `filepath.Join` puts after the
-- directory; `sort.Slice` is an insertion sort, which leaves equal times in order.
pub mod Kept
pub mod Removed
use pro_identity_mail.Prelude.{
  ℕ, suc, List, [], ◌∷◌, ◌++◌, Bool, true, false, ◌&&◌, ◌||◌, not, Option, none, some, ltb, leb,
  if◌then◌else◌, length, keep,
}
use pro_identity_mail.Text.{
  Text, codes, text_eq, is_empty, trim_space, has_prefix, has_suffix, trim_prefix, trim_suffix,
}

pub record RetentionPolicy : Type 0 where
  pub daily : ℕ
  pub weekly : ℕ
  pub monthly : ℕ

pub record BackupCandidate : Type 0 where
  pub path : Text
  pub time : ℕ

pub record PruneResult : Type 0 where
  pub scanned : ℕ
  pub kept : ℕ
  pub would_delete : ℕ
  pub deleted : ℕ

-- what the package `time` says: when the window of a limit starts, and the name of the day, the week
-- and the month of a time
pub record Calendar : Type 0 where
  pub parse : Text → Option ℕ
  pub daily_start : ℕ → ℕ → ℕ
  pub weekly_start : ℕ → ℕ → ℕ
  pub monthly_start : ℕ → ℕ → ℕ
  pub day : ℕ → Text
  pub week : ℕ → Text
  pub month : ℕ → Text

unfoldable pub stamp_of : Text → Option Text
stamp_of stamp =
    if has_suffix stamp (codes ".tar.gz.enc")
    then some (trim_suffix stamp (codes ".tar.gz.enc"))
    else if has_suffix stamp (codes ".tar.gz")
    then some (trim_suffix stamp (codes ".tar.gz"))
    else none

unfoldable pub parse_backup_name : Calendar → Text → Option ℕ
parse_backup_name calendar name =
    if has_prefix name (codes "proidentity-mail-")
    then elim (stamp_of (trim_prefix name (codes "proidentity-mail-"))) [
      | none ↦ none
      | some stamp ↦ calendar.parse stamp
    ]
    else none

-- a name, and whether it is a directory
unfoldable pub list_backup_candidates : Calendar → List (Text × Bool) → List BackupCandidate
list_backup_candidates calendar [] = []
list_backup_candidates calendar ((name, is_dir) ∷ rest) =
    let later = list_backup_candidates calendar rest in
    if is_dir then later else elim (parse_backup_name calendar name) [
      | none ↦ later
      | some when ↦ record { path = name; time = when } ∷ later
    ]

unfoldable pub insert_newest : BackupCandidate → List BackupCandidate → List BackupCandidate
insert_newest c [] = c ∷ []
insert_newest c (d ∷ ds) = if ltb c.time d.time then d ∷ insert_newest c ds else c ∷ d ∷ ds

unfoldable pub newest_first : List BackupCandidate → List BackupCandidate
newest_first [] = []
newest_first (c ∷ cs) = insert_newest c (newest_first cs)

unfoldable pub has_name : Text → List Text → Bool
has_name name [] = false
has_name name (n ∷ ns) = text_eq name n || has_name name ns

-- one of the three rules in the loop: its limit, 0 once it is used up, and the periods it has kept
pub record Rule : Type 0 where
  pub limit : ℕ
  pub periods : List Text

-- whether the rule keeps a candidate of a period
unfoldable pub takes : ℕ → Text → ℕ → Rule → Bool
takes start period time r =
    ltb 0 r.limit && (not (ltb time start) && not (has_name period r.periods))

unfoldable pub after_taking : Text → Rule → Rule
after_taking period r = record {
  limit = if leb r.limit (suc (length r.periods)) then 0 else r.limit;
  periods = period ∷ r.periods;
}

unfoldable pub advance : ℕ → Text → ℕ → Rule → Rule
advance start period time r = if takes start period time r then after_taking period r else r

-- The windows start at `d`, `w` and `m`; the result is the paths that stay.
unfoldable pub select_loop :
    Calendar → ℕ → ℕ → ℕ → Rule → Rule → Rule → List BackupCandidate → List Text
select_loop k d w m daily weekly monthly [] = []
select_loop k d w m daily weekly monthly (c ∷ cs) =
    let later =
      select_loop k d w m (advance d (k.day c.time) c.time daily)
        (advance w (k.week c.time) c.time weekly) (advance m (k.month c.time) c.time monthly) cs in
    if takes d (k.day c.time) c.time daily
      || (takes w (k.week c.time) c.time weekly || takes m (k.month c.time) c.time monthly)
    then c.path ∷ later
    else later

abbrev pub new_rule : ℕ → Rule
new_rule limit = record { limit = limit; periods = [] }

unfoldable pub select_backups_to_keep :
    Calendar → List BackupCandidate → RetentionPolicy → ℕ → List Text
select_backups_to_keep k candidates policy now =
    select_loop k (k.daily_start policy.daily now) (k.weekly_start policy.weekly now)
      (k.monthly_start policy.monthly now) (new_rule policy.daily) (new_rule policy.weekly)
      (new_rule policy.monthly) candidates

-- The files of the directory, what is counted, and whether `os.Remove` failed, which ends the loop.
pub record Pruned : Type 0 where
  pub files : List Text
  pub result : PruneResult
  pub broken : Bool

unfoldable pub remove_file : Text → List Text → List Text
remove_file name files = keep (λ f. not (text_eq f name)) files

-- `fails` is a parameter: which files cannot be removed
unfoldable pub prune_loop :
    (Text → Bool) → Bool → List Text → List BackupCandidate → List Text → PruneResult → Pruned
prune_loop fails apply kept [] files r = record { files = files; result = r; broken = false }
prune_loop fails apply kept (c ∷ cs) files r =
    let counted = record r { would_delete = suc r.would_delete } in
    let stays = prune_loop fails apply kept cs files (record r { kept = suc r.kept }) in
    let dry = prune_loop fails apply kept cs files counted in
    let gone =
      prune_loop fails apply kept cs (remove_file c.path files)
        (record counted { deleted = suc r.deleted }) in
    if has_name c.path kept
    then stays
    else if not apply
    then dry
    else if fails c.path
    then record { files = files; result = counted; broken = true }
    else gone

abbrev pub names_of : List (Text × Bool) → List Text
names_of [] = []
names_of ((name, is_dir) ∷ rest) = name ∷ names_of rest

-- `none` is the error of a blank directory name or of `os.ReadDir`. The time is not the zero time.
unfoldable pub prune :
    (Text → Bool)
    → Calendar
    → Text
    → Option (List (Text × Bool))
    → RetentionPolicy
    → ℕ
    → Bool
    → Option Pruned
prune fails k dir none policy now apply = none
prune fails k dir (some entries) policy now apply =
    let candidates = newest_first (list_backup_candidates k entries) in
    if is_empty (trim_space dir)
    then none
    else some (
        prune_loop fails apply (select_backups_to_keep k candidates policy now) candidates
          (names_of entries)
          (record { scanned = length candidates; kept = 0; would_delete = 0; deleted = 0 }))
