-- ===== src/Tests/Limits.antt =====
-- Runs of the penalty schedules and of the limiter in memory.
use pro_identity_mail.Prelude.{
  ◌≤ℤ◌, pos_part, ◌<◌, ◌+◌, ℕ, ◌+◌, ◌*◌, ◌<◌, ◌≡◌, refl, List, [], ◌∷◌, Bool, true, false, none,
  some, ℤ, pos, negsuc, ltb, arith, get, ◌↔◌, Any,
}
use pro_identity_mail.Text.{Text, Text-Eq, codes, text_eq}
use pro_identity_mail.Session.Interface.{Call, ask, fails, answers, any_locked}
use pro_identity_mail.Session.Penalty.{
  Options, second, minute, hour, default_penalty_schedule, admin_penalty_schedule,
  normalize_penalty_schedule, lockout_for_failure_count,
}
use pro_identity_mail.Session.Penalty.Best.{BestLockout, lockout_for_failure_count-Best}
use pro_identity_mail.Session.Ledger.{ledger, blank}
use pro_identity_mail.Session.Limiter.{new_login_limiter, locked, fail, login_limiter}
use pro_identity_mail.Session.Limiter.AnyLocked.{HoldsLock, any_locked_lem}
use pro_identity_mail.Session.Limiter.Refines.{answers-ledger}
use pro_identity_mail.Session.Limiter.Streaks.{fails_at, locked-fails_at}

abbrev pub options : Options
options = record {
  cookie_name = [];
  ttl = pos 0;
  same_site = pos 0;
  secure = true;
  max_failures = pos 0;
  lockout = pos 0;
  window = pos 0;
  penalties = [];
  account_lockout_failures = pos 0;
}

abbrev key : Text
key = codes "webmail|ip|10.0.0.1"

default_policy :
    (lockout_for_failure_count (pos 3) default_penalty_schedule ≡ pos 0)
    × (lockout_for_failure_count (pos 4) default_penalty_schedule ≡ pos (30 * second))
    × (lockout_for_failure_count (pos 10) default_penalty_schedule ≡ pos (5 * minute))
    × (lockout_for_failure_count (pos 21) default_penalty_schedule ≡ pos (24 * hour))
unfolding lockout_for_failure_count default_penalty_schedule
default_policy = (refl, refl, refl, refl)

admin_policy :
    (lockout_for_failure_count (pos 1) admin_penalty_schedule ≡ pos 0)
    × (lockout_for_failure_count (pos 2) admin_penalty_schedule ≡ pos (30 * second))
    × (lockout_for_failure_count (pos 11) admin_penalty_schedule ≡ pos (24 * hour))
unfolding lockout_for_failure_count admin_penalty_schedule
admin_policy = (refl, refl, refl)

lockout_for_failure_count-Best_example :
    BestLockout
      (pos 7)
      admin_penalty_schedule
      (lockout_for_failure_count (pos 7) admin_penalty_schedule)
lockout_for_failure_count-Best_example =
    lockout_for_failure_count-Best (pos 7) admin_penalty_schedule

abbrev history : List (ℕ × Call)
history =
    (1, fails key)
    ∷ (2, fails key)
    ∷ (3, fails key)
    ∷ (4, fails key)
    ∷ (5, ask key)
    ∷ (40000000000, ask key)
    ∷ []

history-answers : answers login_limiter (new_login_limiter options) history ≡ true ∷ false ∷ []
unfolding answers locked fail new_login_limiter normalize_penalty_schedule lockout_for_failure_count
    get pro_identity_mail.Prelude.Keys.put text_eq
history-answers = refl

answers-ledger_example :
    answers login_limiter (new_login_limiter options) history
    ≡ answers
        (ledger (new_login_limiter options).penalties (new_login_limiter options).window)
        blank
        history
answers-ledger_example = answers-ledger options 1 history (omega arith) (omega arith)

locked-fails_at_example :
    let lockout = lockout_for_failure_count (pos 4) (new_login_limiter options).penalties in
    ((locked (fail (fails_at (new_login_limiter options) key (1 ∷ 2 ∷ 3 ∷ [])) 4 key) 9 key).1
      ≡ true)
    ↔ ((pos 1 ≤ℤ lockout) × (9 < 4 + pos_part lockout))
unfolding new_login_limiter get
locked-fails_at_example =
    locked-fails_at (new_login_limiter options) key 1 (2 ∷ 3 ∷ []) 4 9 refl (omega arith)
      (refl, (refl, tt)) refl

any_locked_lem_example :
    (((any_locked (some login_limiter) (new_login_limiter options) 7 (key ∷ [])).1 ≡ true)
      ↔ Any (λ k. HoldsLock (get (new_login_limiter options).failures k) 7) (key ∷ []))
    × ((j : Text)
        → (locked
            (any_locked (some login_limiter) (new_login_limiter options) 7 (key ∷ [])).0
            7
            j).1
          ≡ (locked (new_login_limiter options) 7 j).1)
any_locked_lem_example = any_locked_lem (new_login_limiter options) 7 (key ∷ [])
