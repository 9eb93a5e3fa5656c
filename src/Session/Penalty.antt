-- ===== src/Session/Penalty.antt =====
-- Penalty schedules (internal/session/manager.go): which lockout a number of failures earns.
-- A duration is an integer of nanoseconds. `sort.Slice` is an insertion sort at up to twelve
-- elements, which is modelled; schedules are shorter than that.
pub mod Best
use pro_identity_mail.Prelude.{
  ℕ, ◌*◌, List, [], ◌∷◌, ◌++◌, Bool, true, ◌||◌, ℤ, pos, leb_ℤ, ltb_ℤ, eqb_ℤ, if◌then◌else◌,
}
use pro_identity_mail.Text.{Text}

pub record Penalty : Type 0 where
  pub failures : ℤ
  pub lockout : ℤ

pub record Options : Type 0 where
  pub cookie_name : Text
  pub ttl : ℤ
  pub same_site : ℤ
  pub secure : Bool
  pub max_failures : ℤ
  pub lockout : ℤ
  pub window : ℤ
  pub penalties : List Penalty
  pub account_lockout_failures : ℤ

abbrev pub second : ℕ
second = 1000000000

abbrev pub minute : ℕ
minute = 60 * second

abbrev pub hour : ℕ
hour = 60 * minute

abbrev penalty : ℕ → ℕ → Penalty
penalty n d = record { failures = pos n; lockout = pos d }

unfoldable pub default_penalty_schedule : List Penalty
default_penalty_schedule =
    penalty 4 (30 * second) ∷ penalty 6 (5 * minute) ∷ penalty 11 hour ∷ penalty 21 (24 * hour) ∷ []

unfoldable pub admin_penalty_schedule : List Penalty
admin_penalty_schedule =
    penalty 2 (30 * second) ∷ penalty 3 (5 * minute) ∷ penalty 6 hour ∷ penalty 11 (24 * hour) ∷ []

-- the loop with `continue`
keep_valid : List Penalty → List Penalty
keep_valid [] = []
keep_valid (p ∷ ps) =
    if leb_ℤ p.failures (pos 0) || leb_ℤ p.lockout (pos 0) then keep_valid ps else p ∷ keep_valid ps

-- moves `p` left past the penalties with more failures
insert : List Penalty → Penalty → List Penalty
insert [] p = p ∷ []
insert (q ∷ qs) p = if ltb_ℤ p.failures q.failures then p ∷ q ∷ qs else q ∷ insert qs p

sort_from : List Penalty → List Penalty → List Penalty
sort_from done [] = done
sort_from done (p ∷ ps) = sort_from (insert done p) ps

unfoldable pub normalize_penalty_list : List Penalty → List Penalty
unfolding keep_valid insert sort_from
normalize_penalty_list penalties = sort_from [] (keep_valid penalties)

abbrev pub or_default : ℤ → ℤ → ℤ
or_default value fallback = if eqb_ℤ value (pos 0) then fallback else value

custom_penalties : List Penalty → Options → List Penalty
custom_penalties (p ∷ ps) options = normalize_penalty_list (p ∷ ps)
custom_penalties [] options =
    if ltb_ℤ (pos 0) options.max_failures || ltb_ℤ (pos 0) options.lockout
    then record {
      failures = or_default options.max_failures (pos 5);
      lockout = or_default options.lockout (pos (15 * minute));
    }
      ∷ []
    else default_penalty_schedule

unfoldable pub normalize_penalty_schedule : Options → List Penalty
unfolding custom_penalties normalize_penalty_list default_penalty_schedule
normalize_penalty_schedule options = custom_penalties options.penalties options

-- the loop: the last penalty that the failures reach
last_reached : ℤ → ℤ → List Penalty → ℤ
last_reached failures lockout [] = lockout
last_reached failures lockout (p ∷ ps) =
    last_reached failures (if leb_ℤ p.failures failures then p.lockout else lockout) ps

unfoldable pub lockout_for_failure_count : ℤ → List Penalty → ℤ
unfolding last_reached normalize_penalty_list
lockout_for_failure_count failures penalties =
    if leb_ℤ failures (pos 0)
    then pos 0
    else last_reached failures (pos 0) (normalize_penalty_list penalties)
