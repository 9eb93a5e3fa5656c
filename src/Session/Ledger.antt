-- ===== src/Session/Ledger.antt =====
-- What a login rate limit promises, without the clean-up of the two implementations: for each key
-- the failures since the last success or the last gap longer than the window.
use pro_identity_mail.Prelude.{
  ℕ, ◌+◌, List, Bool, false, Option, none, some, ℤ, pos, ltb, if◌then◌else◌,
}
use pro_identity_mail.Text.{Text, text_eq}
use pro_identity_mail.Session.Interface.{Limiter}
use pro_identity_mail.Session.Penalty.{Penalty, lockout_for_failure_count}
use pro_identity_mail.Session.Limiter.{sub_gt, lock_until}

-- The failures in a row, when they began, and when the lock that they earned ends.
pub record Streak : Type 0 where
  pub count : ℕ
  pub since : ℕ
  pub until : ℕ

abbrev pub Ledger : Type 0
Ledger = Text → Option Streak

streak : ℕ → ℕ → ℕ → List Penalty → Streak
unfolding lock_until
streak n since now penalties = record {
  count = n;
  since = since;
  until = lock_until now (lockout_for_failure_count (pos n) penalties);
}

module _ (penalties : List Penalty) (window : ℤ) where
  -- A failure goes on with the streak, unless that began more than the window ago.
  unfoldable pub next_streak : Option Streak → ℕ → Streak
  unfolding streak
  next_streak none now = streak 1 now now penalties
  next_streak (some e) now =
      if sub_gt now e.since window
      then streak 1 now now penalties
      else streak (e.count + 1) e.since now penalties

  -- Asking changes nothing: a key is locked until its lock ends.
  abbrev pub is_locked : Option Streak → ℕ → Bool
  is_locked none now = false
  is_locked (some e) now = ltb now e.until

  abbrev pub ledger : Limiter Ledger
  ledger = record {
    locked = λ s now k. (s, is_locked (s k) now);
    fail = λ s now k j. if text_eq k j then some (next_streak (s k) now) else s j;
    success = λ s now k j. if text_eq k j then none else s j;
  }

abbrev pub blank : Ledger
blank k = none
