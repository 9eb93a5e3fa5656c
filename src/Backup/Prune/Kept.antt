-- ===== src/Backup/Prune/Kept.antt =====
-- How many backups the rules keep.
use pro_identity_mail.Prelude.{
  ℕ, zero, suc, ◌+◌, ◌-◌, ◌≤◌, ◌<◌, ◌≡◌, refl, ◌⊎◌, inl, inr, List, [], ◌∷◌, Bool, true, false,
  ◌||◌, if◌then◌else◌, length, arith,
}
use pro_identity_mail.Text.{Text}
use pro_identity_mail.Backup.Prune.{
  RetentionPolicy, BackupCandidate, Calendar, Rule, takes, after_taking, advance, select_loop,
  new_rule, select_backups_to_keep,
}

-- a rule that is used up, or one with room for more
IsOpen : Rule → Type 0
IsOpen r = (r.limit ≡ 0) ⊎ (length r.periods < r.limit)

abbrev room : Rule → ℕ
room r = r.limit - length r.periods

abbrev one_if : Bool → ℕ
one_if taken = if taken then 1 else 0

new_rule-IsOpen : (limit : ℕ) → IsOpen (new_rule limit)
unfolding IsOpen
new_rule-IsOpen zero = inl refl
new_rule-IsOpen (suc n) = inr (omega arith)

advance-room :
    (start : ℕ) (period : Text) (time : ℕ) (r : Rule)
    → IsOpen r
    → IsOpen (advance start period time r)
      × (room (advance start period time r) + one_if (takes start period time r) ≤ room r)
unfolding IsOpen advance after_taking takes
advance-room start period time r open_rule = ground (arith, open_rule)

-- the arithmetic of one step
one_step :
    (a b c : Bool) (l da db' dc ra rb rc : ℕ)
    → l ≤ da + (db' + dc)
    → da + one_if a ≤ ra
    → db' + one_if b ≤ rb
    → dc + one_if c ≤ rc
    → (if a || (b || c) then suc l else l) ≤ ra + (rb + rc)
one_step a b c l da db' dc ra rb rc h p q r = ground (arith, h, p, q, r)

kept_or_not :
    (test : Bool) (path : Text) (later : List Text) (bound : ℕ)
    → (if test then suc (length later) else length later) ≤ bound
    → length (if test then path ∷ later else later) ≤ bound
kept_or_not true path later bound h = h
kept_or_not false path later bound h = h

select_loop-length :
    (k : Calendar) (d w m : ℕ) (daily weekly monthly : Rule) (cs : List BackupCandidate)
    → IsOpen daily
    → IsOpen weekly
    → IsOpen monthly
    → length (select_loop k d w m daily weekly monthly cs)
      ≤ room daily + (room weekly + room monthly)
unfolding select_loop
select_loop-length k d w m daily weekly monthly [] od ow om = omega arith
select_loop-length k d w m daily weekly monthly (c ∷ cs) od ow om =
    let (od', rd) = advance-room d (k.day c.time) c.time daily od in
    let (ow', rw') = advance-room w (k.week c.time) c.time weekly ow in
    let (om', rm) = advance-room m (k.month c.time) c.time monthly om in
    let rest =
      select_loop-length k d w m (advance d (k.day c.time) c.time daily)
        (advance w (k.week c.time) c.time weekly) (advance m (k.month c.time) c.time monthly) cs od'
        ow' om' in
    kept_or_not _ c.path _ _ (one_step _ _ _ _ _ _ _ _ _ _ rest rd rw' rm)

-- At most as many backups stay as the three limits allow together, whatever the calendar says.
pub select_backups_to_keep-length :
    (k : Calendar) (cs : List BackupCandidate) (policy : RetentionPolicy) (now : ℕ)
    → length (select_backups_to_keep k cs policy now)
      ≤ policy.daily + (policy.weekly + policy.monthly)
unfolding select_backups_to_keep
select_backups_to_keep-length k cs policy now =
    let bound =
      select_loop-length k (k.daily_start policy.daily now) (k.weekly_start policy.weekly now)
        (k.monthly_start policy.monthly now) (new_rule policy.daily) (new_rule policy.weekly)
        (new_rule policy.monthly) cs (new_rule-IsOpen policy.daily) (new_rule-IsOpen policy.weekly)
        (new_rule-IsOpen policy.monthly) in
    omega (arith, bound)
