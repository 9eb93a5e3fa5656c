-- ===== src/Session/Limiter/Streaks.antt =====
-- A row of failures within the window, and the lock that it earns.
use pro_identity_mail.Prelude.{
  ℕ, ◌+◌, ◌<◌, ◌≡◌, refl, ◌∙◌, sym, ◌↔◌, true, List, [], ◌∷◌, false, Option, none, some, ℤ, pos,
  pos_part, ◌≤ℤ◌, ltb, get, get-put, arith, length, All, ap,
}
use pro_identity_mail.Text.{Text, Text-Eq, text_eq_refl}
use pro_identity_mail.Session.Penalty.{Penalty, lockout_for_failure_count}
use pro_identity_mail.Session.Limiter.{
  FailureState, LoginLimiter, sub_gt, locked_entry, locked, fail, lock_until, or_zero, restarted,
  counted,
}

-- Failures of one key, at the times of a list.
abbrev pub fails_at : LoginLimiter → Text → List ℕ → LoginLimiter
fails_at l key [] = l
fails_at l key (t ∷ ts) = fails_at (fail l t key) key ts

abbrev entry : LoginLimiter → Text → Option FailureState
entry l key = get l.failures key

entry-fail :
    (l : LoginLimiter) (t : ℕ) (key : Text)
    → entry (fail l t key) key
      ≡ some (counted (restarted (or_zero (entry l key)) t l.window) t l.penalties)
unfolding fail
entry-fail l t key = ground (
  arith,
  text_eq_refl key,
  get-put l.failures key key (counted (restarted (or_zero (entry l key)) t l.window) t l.penalties),
)

fail-settings :
    (l : LoginLimiter) (t : ℕ) (key : Text)
    → ((fail l t key).window ≡ l.window) × ((fail l t key).penalties ≡ l.penalties)
unfolding fail
fail-settings l t key = (refl, refl)

-- One more failure inside the window.
counts_on :
    (l : LoginLimiter) (w : ℤ) (ps : List Penalty) (t first n lock : ℕ) (key : Text)
    → l.window ≡ w
    → l.penalties ≡ ps
    → entry l key ≡ some (record { count = n; first_failed_at = first; locked_until = lock })
    → 0 < first
    → sub_gt t first w ≡ false
    → entry (fail l t key) key
      ≡ some (record {
        count = n + 1;
        first_failed_at = first;
        locked_until = lock_until t (lockout_for_failure_count (pos (n + 1)) ps);
      })
unfolding counted restarted
counts_on l w ps t first n lock key ew eps e p inside = entry-fail l t key ∙ ground (arith, e)

counts_on_each :
    (ts : List ℕ) (l : LoginLimiter) (first n lock : ℕ) (key : Text)
    → entry l key ≡ some (record { count = n; first_failed_at = first; locked_until = lock })
    → 0 < first
    → All (λ t. sub_gt t first l.window ≡ false) ts
    → (lock' : ℕ) × (entry (fails_at l key ts) key
        ≡ some (record { count = n + length ts; first_failed_at = first; locked_until = lock' }))
      × ((fails_at l key ts).window ≡ l.window)
      × ((fails_at l key ts).penalties ≡ l.penalties)
unfolding fail
counts_on_each [] l first n lock key e p all = (lock, e ∙ ground arith, refl, refl)
counts_on_each (t ∷ ts) l first n lock key e p (inside, all) =
    let next = lock_until t (lockout_for_failure_count (pos (n + 1)) l.penalties) in
    let step = counts_on l l.window l.penalties t first n lock key refl refl e p inside in
    let (lock', e', w, ps) = counts_on_each ts (fail l t key) first (n + 1) next key step p all in
    (lock', e' ∙ ground arith, w, ps)

locked-entry :
    (l : LoginLimiter) (v n first until : ℕ) (key : Text)
    → entry l key ≡ some (record { count = n; first_failed_at = first; locked_until = until })
    → (locked l v key).1 ≡ ltb v until
unfolding locked locked_entry
locked-entry l v n first until key e = ground (arith, e)

start :
    (l : LoginLimiter) (t : ℕ) (key : Text)
    → entry l key ≡ none
    → ◌≡◌ {A = Option FailureState}
        (some (counted (restarted (or_zero (entry l key)) t l.window) t l.penalties))
        (some (record {
          count = 1;
          first_failed_at = t;
          locked_until = lock_until t (lockout_for_failure_count (pos 1) l.penalties);
        }))
unfolding counted restarted
start l t key fresh = ground (arith, fresh)

-- a lock that a lockout makes, with the lockout spelled out
lock_until-ends :
    (u v : ℕ) (lockout : ℤ)
    → (ltb v (lock_until u lockout) ≡ true) ↔ ((pos 1 ≤ℤ lockout) × (v < u + pos_part lockout))
unfolding lock_until
lock_until-ends u v lockout = ground arith

-- A key with no entry fails at a positive time `t`, then at the times of a list and last at `u`, all
-- no more than the window after `t`. Then `Locked` says yes at `v` exactly if the lockout for that
-- number of failures is positive and `v` is before `u` plus the lockout.
pub locked-fails_at :
    (l : LoginLimiter) (key : Text) (t : ℕ) (ts : List ℕ) (u v : ℕ)
    → entry l key ≡ none
    → 0 < t
    → All (λ s. sub_gt s t l.window ≡ false) ts
    → sub_gt u t l.window ≡ false
    → let lockout = lockout_for_failure_count (pos (length ts + 2)) l.penalties in
      ((locked (fail (fails_at l key (t ∷ ts)) u key) v key).1 ≡ true)
      ↔ ((pos 1 ≤ℤ lockout) × (v < u + pos_part lockout))
unfolding fail
locked-fails_at l key t ts u v fresh p inside last =
    let first_lock = lock_until t (lockout_for_failure_count (pos 1) l.penalties) in
    let first_entry : entry (fail l t key) key
        ≡ some (record { count = 1; first_failed_at = t; locked_until = first_lock }) =
      entry-fail l t key ∙ start l t key fresh in
    let (lock, e, w, ps) =
      counts_on_each ts (fail l t key) t 1 first_lock key first_entry p inside in
    let l' = fails_at (fail l t key) key ts in
    let answer =
      locked-entry (fail l' u key) v _ t _ key
        (counts_on l' l.window l.penalties u t (1 + length ts) lock key w ps e p last)
      ∙ ap (λ (n : ℕ). ltb v (lock_until u (lockout_for_failure_count (pos n) l.penalties)))
          (omega arith) in
    let ends = lock_until-ends u v (lockout_for_failure_count (pos (length ts + 2)) l.penalties) in
    ((λ h. ends.0 (sym answer ∙ h)), (λ h. answer ∙ ends.1 h))
