-- ===== src/Session/Limiter.antt =====
-- `LoginLimiter` (internal/session/manager.go), the login rate limit that is kept in memory.
-- The mutex makes each method one step on the state. A time is a number of nanoseconds, 0 is the
-- zero `time.Time`, and the clock's reading is an argument.
pub mod Refines
pub mod Streaks
pub mod AnyLocked
use pro_identity_mail.Prelude.{
  ℕ, ◌+◌, List, [], ◌∷◌, Bool, true, false, ◌||◌, Option, none, some, ℤ, pos, negsuc, pos_part,
  eqb_ℤ, ltb_ℤ, ltb, ◌==◌, if◌then◌else◌, get, put, delete,
}
use pro_identity_mail.Text.{Text, Text-Eq}
use pro_identity_mail.Session.Interface.{Limiter}
use pro_identity_mail.Session.Penalty.{
  Penalty, Options, hour, or_default, normalize_penalty_schedule, lockout_for_failure_count,
}

pub record FailureState : Type 0 where
  pub count : ℕ
  pub first_failed_at : ℕ
  pub locked_until : ℕ

pub record LoginLimiter : Type 0 where
  pub penalties : List Penalty
  pub window : ℤ
  pub failures : List (Text × FailureState)

unfoldable pub new_login_limiter : Options → LoginLimiter
new_login_limiter options = record {
  penalties = normalize_penalty_schedule options;
  window = or_default options.window (pos hour);
  failures = [];
}

-- `now.Sub(first) > window`
abbrev pub sub_gt : ℕ → ℕ → ℤ → Bool
sub_gt now first (pos w) = ltb (first + w) now
sub_gt now first (negsuc w) = ltb first (now + w + 1)

-- The entry is forgotten: it has no first failure, or that lies further back than the window.
abbrev pub is_stale : FailureState → ℕ → ℤ → Bool
is_stale state now window = state.first_failed_at == 0 || sub_gt now state.first_failed_at window

pub locked_entry : LoginLimiter → ℕ → Text → Option FailureState → LoginLimiter × Bool
locked_entry l now key none = (l, false)
locked_entry l now key (some state) =
    if state.locked_until == 0
    then (l, false)
    else if ltb now state.locked_until
    then (l, true)
    else if is_stale state now l.window
    then (record l { failures = delete l.failures key }, false)
    else (record l { failures = put l.failures key (record state { locked_until = 0 }) }, false)

unfoldable pub locked : LoginLimiter → ℕ → Text → LoginLimiter × Bool
unfolding locked_entry
locked l now key = locked_entry l now key (get l.failures key)

abbrev zero_state : FailureState
zero_state = record { count = 0; first_failed_at = 0; locked_until = 0 }

-- a read of a Go map gives the zero value for a missing key
abbrev or_zero : Option FailureState → FailureState
or_zero none = zero_state
or_zero (some state) = state

restarted : FailureState → ℕ → ℤ → FailureState
restarted state now window =
    if is_stale state now window then record zero_state { first_failed_at = now } else state

-- `now.Add(lockout)` if the lockout is positive, and no lock otherwise
unfoldable pub lock_until : ℕ → ℤ → ℕ
lock_until now lockout = if ltb_ℤ (pos 0) lockout then now + pos_part lockout else 0

counted : FailureState → ℕ → List Penalty → FailureState
unfolding lock_until
counted state now penalties =
    let n = state.count + 1 in
    record state {
      count = n;
      locked_until = lock_until now (lockout_for_failure_count (pos n) penalties);
    }

unfoldable pub fail : LoginLimiter → ℕ → Text → LoginLimiter
unfolding restarted counted
fail l now key = record l {
  failures =
      put l.failures key
        (counted (restarted (or_zero (get l.failures key)) now l.window) now l.penalties);
}

unfoldable pub success : LoginLimiter → Text → LoginLimiter
success l key = record l { failures = delete l.failures key }

abbrev pub login_limiter : Limiter LoginLimiter
login_limiter = record { locked = locked; fail = fail; success = λ l now key. success l key }
