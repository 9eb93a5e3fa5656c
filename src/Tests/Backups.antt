-- ===== src/Tests/Backups.antt =====
-- Runs of the backup retention: three backups of two days, of which one a day stays.
use pro_identity_mail.Prelude.{
  ℕ, ◌+◌, ◌≤◌, ◌≡◌, refl, ◌↔◌, ◌++◌, List, [], ◌∷◌, Bool, true, false, Option, none, some, length,
  In, if◌then◌else◌, ltb, ◌-◌,
}
use pro_identity_mail.Text.{Text, codes}
use pro_identity_mail.Backup.Prune.{
  RetentionPolicy, BackupCandidate, PruneResult, Calendar, Pruned, list_backup_candidates,
  newest_first, select_backups_to_keep, prune, names_of,
}
use pro_identity_mail.Backup.Prune.Kept.{select_backups_to_keep-length}
use pro_identity_mail.Backup.Prune.Removed.{is_expired, prune-HasRun}

-- a calendar of one byte, with days of ten
abbrev first_byte : Text → Option ℕ
first_byte [] = none
first_byte (b ∷ s) = some b

abbrev calendar : Calendar
calendar = record {
  parse = first_byte;
  daily_start = λ n now. 0;
  weekly_start = λ n now. 0;
  monthly_start = λ n now. 0;
  day = λ t. if ltb t 100 then codes "first" else codes "second";
  week = λ t. codes "w";
  month = λ t. codes "m";
}

abbrev policy : RetentionPolicy
policy = record { daily = 2; weekly = 0; monthly = 0 }

abbrev backup : Text → Text
backup stamp = codes "proidentity-mail-" ++ (stamp ++ codes ".tar.gz")

abbrev entries : List (Text × Bool)
entries =
    (backup (codes "a"), false)
    ∷ (backup (codes "b"), false)
    ∷ (backup (codes "z"), false)
    ∷ (codes "notes", false)
    ∷ []

abbrev candidates : List BackupCandidate
candidates = newest_first (list_backup_candidates calendar entries)

abbrev pruned : Pruned
pruned = record {
  files = backup (codes "b") ∷ backup (codes "z") ∷ codes "notes" ∷ [];
  result = record { scanned = 3; kept = 2; would_delete = 1; deleted = 1 };
  broken = false;
}

run : prune (λ f. false) calendar (codes "/var") (some entries) policy 200 true ≡ some pruned
unfolding prune newest_first list_backup_candidates select_backups_to_keep
    pro_identity_mail.Backup.Prune.stamp_of pro_identity_mail.Backup.Prune.parse_backup_name
    pro_identity_mail.Backup.Prune.insert_newest pro_identity_mail.Backup.Prune.has_name
    pro_identity_mail.Backup.Prune.takes pro_identity_mail.Backup.Prune.after_taking
    pro_identity_mail.Backup.Prune.advance pro_identity_mail.Backup.Prune.select_loop
    pro_identity_mail.Backup.Prune.remove_file pro_identity_mail.Backup.Prune.prune_loop
    pro_identity_mail.Text.text_eq pro_identity_mail.Text.trim_space
    pro_identity_mail.Text.has_prefix pro_identity_mail.Text.has_suffix
    pro_identity_mail.Text.trim_prefix pro_identity_mail.Text.trim_suffix
    pro_identity_mail.Text.trim_left pro_identity_mail.Text.trim_right
    pro_identity_mail.Text.is_space pro_identity_mail.Prelude.keep
run = refl

select_backups_to_keep-length_example :
    length (select_backups_to_keep calendar candidates policy 200) ≤ 2 + (0 + 0)
select_backups_to_keep-length_example = select_backups_to_keep-length calendar candidates policy 200

prune-HasRun_example :
    (In (codes "notes") pruned.files ↔ (
      In (codes "notes") (names_of entries)
      × (is_expired
            (select_backups_to_keep calendar candidates policy 200)
            candidates
            (codes "notes")
          ≡ false)))
    × (pruned.result.kept + pruned.result.would_delete ≡ pruned.result.scanned)
    × (pruned.result.deleted ≡ pruned.result.would_delete)
prune-HasRun_example =
    prune-HasRun (λ f. false) calendar (codes "/var") entries policy 200 pruned (codes "notes") run
      refl
