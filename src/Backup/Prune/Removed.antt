-- ===== src/Backup/Prune/Removed.antt =====
-- Which files a run removes.
use pro_identity_mail.Prelude.{
  ℕ, suc, ◌+◌, ◌≡◌, refl, ◌↔◌, inl, inr, List, [], ◌∷◌, Bool, true, false, ◌&&◌, ◌||◌, not, some,
  length, In, In-keep, Bool-cases, arith, ap, ◌∙◌, subst,
}
use pro_identity_mail.Text.{Text, text_eq, is_empty, trim_space}
use pro_identity_mail.Backup.Prune.{
  RetentionPolicy, BackupCandidate, PruneResult, Calendar, list_backup_candidates, newest_first,
  select_backups_to_keep, has_name, Pruned, remove_file, prune_loop, prune, names_of,
}

-- a backup that no rule keeps
unfoldable pub is_expired : List Text → List BackupCandidate → Text → Bool
is_expired kept [] f = false
is_expired kept (c ∷ cs) f =
    (not (has_name c.path kept) && text_eq f c.path) || is_expired kept cs f

remove_file-In :
    (name f : Text) (files : List Text)
    → In f (remove_file name files) ↔ (In f files × (text_eq f name ≡ false))
unfolding remove_file
remove_file-In name f files = ground (arith, In-keep (λ g. not (text_eq g name)) f files)

after_removal :
    (f name : Text) (files left : List Text) (expired : Bool)
    → In f left ↔ (In f (remove_file name files) × (expired ≡ false))
    → In f left ↔ (In f files × ((text_eq f name || expired) ≡ false))
after_removal f name files left expired h = ground (arith, h, remove_file-In name f files)

-- what a run that did not break has done
abbrev pub HasRun :
    List Text → List BackupCandidate → List Text → PruneResult → Pruned → Text → Type 0
HasRun kept cs files r p f =
    (In f p.files ↔ (In f files × (is_expired kept cs f ≡ false)))
    × (p.result.kept + p.result.would_delete ≡ r.kept + (r.would_delete + length cs))
    × (p.result.deleted + r.would_delete ≡ r.deleted + p.result.would_delete)
    × (p.result.scanned ≡ r.scanned)

module _ (fails : Text → Bool) (kept : List Text) (f : Text) where
  prune_loop-HasRun :
      (cs : List BackupCandidate) (files : List Text) (r : PruneResult)
      → (prune_loop fails true kept cs files r).broken ≡ false
      → HasRun kept cs files r (prune_loop fails true kept cs files r) f
  unfolding prune_loop is_expired
  prune_loop-HasRun [] files r e = (((λ h. (h, refl)), (λ h. h.0)), omega arith, omega arith, refl)
  prune_loop-HasRun (c ∷ cs) files r e = elim (Bool-cases (has_name c.path kept)) [
    | inl stays ↦
        let rest = prune_loop-HasRun cs files (record r { kept = suc r.kept }) (rw stays at e) in
        rw stays (rest.0, omega (arith, rest.1), omega (arith, rest.2), rest.3)
    | inr out ↦ elim (Bool-cases (fails c.path)) [
      | inl bad ↦ absurd (cc (rw (out, bad) at e))
      | inr good ↦
          let rest =
            prune_loop-HasRun cs (remove_file c.path files)
              (record r { would_delete = suc r.would_delete; deleted = suc r.deleted })
              (rw (out, good) at e) in
          rw (out, good)
            (
              after_removal f c.path files _ _ rest.0,
              omega (arith, rest.1),
              omega (arith, rest.2),
              rest.3,
            )
    ]
  ]

some-injective : (x y : Pruned) → some x ≡ some y → x ≡ y
some-injective x y e = cc e

-- A run that removes, and meets no error, leaves exactly the files that are not backups or that a rule
-- keeps; each backup is counted as kept or as to delete, and as many are deleted as were to be.
pub prune-HasRun :
    (fails : Text → Bool) (k : Calendar) (dir : Text) (entries : List (Text × Bool))
    (policy : RetentionPolicy) (now : ℕ) (p : Pruned) (f : Text)
    → prune fails k dir (some entries) policy now true ≡ some p
    → p.broken ≡ false
    → (In f p.files ↔ (
        In f (names_of entries)
        × (is_expired
              (select_backups_to_keep k
                (newest_first (list_backup_candidates k entries))
                policy
                now)
              (newest_first (list_backup_candidates k entries))
              f
            ≡ false)))
      × (p.result.kept + p.result.would_delete ≡ p.result.scanned)
      × (p.result.deleted ≡ p.result.would_delete)
unfolding prune
prune-HasRun fails k dir entries policy now p f e fine =
    elim (Bool-cases (is_empty (trim_space dir))) [
      | inl blank ↦ absurd (cc (rw blank at e))
      | inr named ↦
          let same = some-injective _ _ (rw named at e) in
          let candidates = newest_first (list_backup_candidates k entries) in
          let run =
            prune_loop-HasRun fails (select_backups_to_keep k candidates policy now) f candidates
              (names_of entries)
              (record { scanned = length candidates; kept = 0; would_delete = 0; deleted = 0 })
              (ap (λ x. x.broken) same ∙ fine) in
          let (left, counted, gone, all) =
            subst
              (λ x.
                HasRun (select_backups_to_keep k candidates policy now) candidates
                  (names_of entries)
                  (record { scanned = length candidates; kept = 0; would_delete = 0; deleted = 0 })
                  x f)
              same run in
          (left, omega (arith, counted, all), omega (arith, gone))
    ]
