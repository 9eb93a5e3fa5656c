-- ===== src/Drift/Report/Counts.antt =====
-- The counts of a report, and what its verdict says of the files.
use pro_identity_mail.Prelude.{
  ℕ, suc, ◌+◌, ◌≡◌, refl, ◌∙◌, sym, ◌↔◌, List, [], ◌∷◌, ◌++◌, Bool, true, false, if◌then◌else◌, All,
  arith, ap, map, length,
}
use mathlib.Core.List.{append-nil, append_assoc}
use pro_identity_mail.Text.{Text, text_eq_iff}
use pro_identity_mail.Drift.Report.{
  Mapping, Status, match, drift, missing_live, error, Item, Summary, all_ok, Read, content,
  not_exist, failed, live_item, desired_item, compare_one, count, cancelled_item, compare_from,
  verdict_of, zero_summary, compare,
}

abbrev one_if : Status → Status → ℕ
one_if match match = 1
one_if drift drift = 1
one_if missing_live missing_live = 1
one_if error error = 1
one_if _ _ = 0

-- How many items have a status.
unfoldable pub having : Status → List Item → ℕ
having st [] = 0
having st (i ∷ is) = one_if st i.status + having st is

-- The four counts together are the number of items.
having-length :
    (is : List Item)
    → having match is + having drift is + having missing_live is + having error is ≡ length is
unfolding having
having-length [] = omega arith
having-length (i ∷ is) = ground (arith, having-length is)

-- A report is clean if the two files of a mapping can both be read and have the same bytes.
abbrev pub InSync : (Text → Read) → Mapping → Type 0
InSync read_file m =
    (c : Text) × (read_file m.desired_path ≡ content c) × (read_file m.live_path ≡ content c)

count-one_if :
    (st : Status) (s : Summary)
    → ((count st s).matching ≡ s.matching + one_if match st)
      × ((count st s).drifted ≡ s.drifted + one_if drift st)
      × ((count st s).missing_live ≡ s.missing_live + one_if missing_live st)
      × ((count st s).errors ≡ s.errors + one_if error st)
unfolding count
count-one_if match s = omega arith
count-one_if drift s = omega arith
count-one_if missing_live s = omega arith
count-one_if error s = omega arith

module _ (sha256_hex : Text → Text) (read_file : Text → Read) where
  live_item-match :
      (m : Mapping) (d : Text) (r : Read)
      → ((live_item sha256_hex read_file m d r).status ≡ match) ↔ (r ≡ content d)
  unfolding live_item
  live_item-match m d (content l) = ground (arith, text_eq_iff d l)
  live_item-match m d (not_exist p) = ground arith
  live_item-match m d (failed p) = ground arith

  desired_item-match :
      (m : Mapping) (r : Read)
      → ((desired_item sha256_hex read_file m r).status ≡ match)
        ↔ ((c : Text) × (r ≡ content c) × (read_file m.live_path ≡ content c))
  unfolding desired_item
  desired_item-match m (content d) =
      let live = live_item-match m d (read_file m.live_path) in
      ((λ h. (d, refl, live.0 h)), (λ (c, e, h). live.1 (ground arith)))
  desired_item-match m (not_exist p) = ((λ h. cc), (λ (c, e, h). cc))
  desired_item-match m (failed p) = ((λ h. cc), (λ (c, e, h). cc))

  compare_one-match :
      (m : Mapping) → ((compare_one sha256_hex read_file m).status ≡ match) ↔ InSync read_file m
  unfolding compare_one
  compare_one-match m = desired_item-match m (read_file m.desired_path)

  -- the item of one round
  item_of : Text → Mapping × Bool → Item
  item_of problem (m, done) =
      if done then cancelled_item problem m else compare_one sha256_hex read_file m

  compare_from-items :
      (problem : Text) (ms : List (Mapping × Bool)) (is : List Item) (s : Summary)
      → (compare_from sha256_hex read_file problem ms is s).0 ≡ is ++ map (item_of problem) ms
  unfolding compare_from item_of
  compare_from-items problem [] is s = sym (append-nil is)
  compare_from-items problem ((m, done) ∷ ms) is s =
      let i = item_of problem (m, done) in
      compare_from-items problem ms (is ++ (i ∷ [])) (count i.status s)
      ∙ append_assoc is (i ∷ []) (map (item_of problem) ms)

  compare_from-counts :
      (problem : Text) (ms : List (Mapping × Bool)) (is : List Item) (s : Summary)
      → let s' = (compare_from sha256_hex read_file problem ms is s).1 in
        let new = map (item_of problem) ms in
        (s'.matching ≡ s.matching + having match new)
        × (s'.drifted ≡ s.drifted + having drift new)
        × (s'.missing_live ≡ s.missing_live + having missing_live new)
        × (s'.errors ≡ s.errors + having error new)
  unfolding compare_from item_of having
  compare_from-counts problem [] is s = omega arith
  compare_from-counts problem ((m, done) ∷ ms) is s =
      let i = item_of problem (m, done) in
      ground (
        arith,
        count-one_if i.status s,
        compare_from-counts problem ms (is ++ (i ∷ [])) (count i.status s),
      )

  live_item-mapping :
      (m : Mapping) (d : Text) (r : Read) → (live_item sha256_hex read_file m d r).mapping ≡ m
  unfolding live_item
  live_item-mapping m d (content l) = ground arith
  live_item-mapping m d (not_exist p) = refl
  live_item-mapping m d (failed p) = refl

  desired_item-mapping :
      (m : Mapping) (r : Read) → (desired_item sha256_hex read_file m r).mapping ≡ m
  unfolding desired_item
  desired_item-mapping m (content d) = live_item-mapping m d (read_file m.live_path)
  desired_item-mapping m (not_exist p) = refl
  desired_item-mapping m (failed p) = refl

  items-mapping :
      (problem : Text) (ms : List (Mapping × Bool))
      → (map (λ i. i.mapping) (map (item_of problem) ms) ≡ map (λ p. p.0) ms)
        × (length (map (item_of problem) ms) ≡ length ms)
  unfolding item_of compare_one cancelled_item
  items-mapping problem [] = (refl, refl)
  items-mapping problem ((m, true) ∷ ms) =
      let ih = items-mapping problem ms in (ap (λ (l : List Mapping). m ∷ l) ih.0, ap suc ih.1)
  items-mapping problem ((m, false) ∷ ms) =
      let ih = items-mapping problem ms in
      let own = desired_item-mapping m (read_file m.desired_path) in (cc (own, ih.0), ap suc ih.1)

  item_of-match :
      (problem : Text) (m : Mapping) (done : Bool)
      → ((item_of problem (m, done)).status ≡ match) ↔ ((done ≡ false) × InSync read_file m)
  unfolding item_of cancelled_item
  item_of-match problem m true = ((λ h. cc), (λ h. cc))
  item_of-match problem m false =
      let one = compare_one-match m in ((λ h. (refl, one.0 h)), (λ h. one.1 h.1))

  having-InSync :
      (problem : Text) (ms : List (Mapping × Bool))
      → let new = map (item_of problem) ms in
        ((having drift new ≡ 0) × (having missing_live new ≡ 0) × (having error new ≡ 0))
        ↔ All (λ p. (p.1 ≡ false) × InSync read_file p.0) ms
  unfolding having
  having-InSync problem [] = ((λ h. tt), (λ h. (refl, refl, refl)))
  having-InSync problem ((m, done) ∷ ms) =
      let ih = having-InSync problem ms in
      let one = item_of-match problem m done in
      (
        (λ h. (one.0 (ground arith), ih.0 (omega arith))),
        (λ (h, hs). ground (arith, one.1 h, ih.1 hs)),
      )

  -- Every mapping has its item, in order; the counts are those of the items, and they add up to the
  -- total, which is the number of mappings.
  pub compare_counts :
      (now : ℕ) (problem : Text) (ms : List (Mapping × Bool))
      → let r = compare sha256_hex read_file now problem ms in
        (map (λ i. i.mapping) r.items ≡ map (λ p. p.0) ms)
        × (r.summary.total ≡ length ms)
        × (r.summary.matching + r.summary.drifted + r.summary.missing_live + r.summary.errors
            ≡ length ms)
        × (r.summary.matching ≡ having match r.items)
        × (r.summary.drifted ≡ having drift r.items)
        × (r.summary.missing_live ≡ having missing_live r.items)
        × (r.summary.errors ≡ having error r.items)
  unfolding compare
  compare_counts now problem ms =
      let items = compare_from-items problem ms [] zero_summary in
      let counted = compare_from-counts problem ms [] zero_summary in
      let new = items-mapping problem ms in
      let all = having-length (map (item_of problem) ms) in
      rw items (
        new.0,
        new.1,
        omega (arith, counted, new.1, all),
        omega (arith, counted),
        omega (arith, counted),
        omega (arith, counted),
        omega (arith, counted),
      )

  -- The report says that all is well exactly if the context was never done and the two files of
  -- every mapping can be read and have the same bytes.
  pub compare-all_ok :
      (now : ℕ) (problem : Text) (ms : List (Mapping × Bool))
      → ((compare sha256_hex read_file now problem ms).verdict ≡ all_ok)
        ↔ All (λ p. (p.1 ≡ false) × InSync read_file p.0) ms
  unfolding compare verdict_of
  compare-all_ok now problem ms =
      let counted = compare_from-counts problem ms [] zero_summary in
      let synced = having-InSync problem ms in
      ((λ h. synced.0 (ground (arith, counted))), (λ h. ground (arith, counted, synced.1 h)))
