-- ===== src/Session/Limiter/Refines.antt =====
-- The limiter in memory answers every history of calls like the ledger.
use pro_identity_mail.Prelude.{
  ℕ, ◌≤◌, ◌<◌, ◌≡◌, refl, ◌⊎◌, List, [], ◌∷◌, Bool, true, Option, none, some, ℤ, pos, negsuc, ltb,
  ◌==◌, if◌then◌else◌, get, get-put, get-delete, arith, ap,
}
use pro_identity_mail.Text.{Text, Text-Eq, text_eq, text_eq_iff}
use pro_identity_mail.Session.Interface.{Call, ask, fails, succeeds, Ordered, answers}
use pro_identity_mail.Session.Penalty.{Penalty, Options}
use pro_identity_mail.Session.Ledger.{Streak, Ledger, next_streak, is_locked, ledger, blank}
use pro_identity_mail.Session.Limiter.{
  FailureState, LoginLimiter, new_login_limiter, sub_gt, is_stale, locked_entry, locked, fail,
  success, login_limiter, or_zero, restarted, counted,
}

-- What memory holds of a key at a time, against the streak: an entry with the same failures, whose
-- lock may have been cleared after its end, or none for a streak that no failure can continue.
abbrev Agrees : ℤ → ℕ → Option FailureState → Option Streak → Type 0
Agrees w now none none = Unit {0}
Agrees w now none (some e) = (sub_gt now e.since w ≡ true) × (e.until ≤ now)
Agrees w now (some m) none = ⊥
Agrees w now (some m) (some e) =
    (m.count ≡ e.count)
    × (m.first_failed_at ≡ e.since)
    × (0 < e.since)
    × ((m.locked_until ≡ e.until) ⊎ ((m.locked_until ≡ 0) × (e.until ≤ now)))

sub_gt_mono : (w : ℤ) (t u f : ℕ) → t ≤ u → sub_gt t f w ≡ true → sub_gt u f w ≡ true
sub_gt_mono (pos n) t u f h s = ground arith
sub_gt_mono (negsuc n) t u f h s = ground arith

Agrees-later :
    (w : ℤ) (t u : ℕ) (m : Option FailureState) (e : Option Streak)
    → t ≤ u
    → Agrees w t m e
    → Agrees w u m e
Agrees-later w t u none none h a = tt
Agrees-later w t u none (some e) h (s, l) = (sub_gt_mono w t u e.since h s, omega arith)
Agrees-later w t u (some m) none h a = a
Agrees-later w t u (some m) (some e) h a = ground arith

-- What `Locked` leaves of an entry.
unfoldable pub entry_after : ℤ → ℕ → Option FailureState → Option FailureState
entry_after w now none = none
entry_after w now (some m) =
    if m.locked_until == 0
    then some m
    else if ltb now m.locked_until
    then some m
    else if is_stale m now w
    then none
    else some (record m { locked_until = 0 })

pub get-locked :
    (l : LoginLimiter) (now : ℕ) (k j : Text) (o : Option FailureState)
    → get l.failures k ≡ o
    → get (locked_entry l now k o).0.failures j
      ≡ (if text_eq k j then entry_after l.window now o else get l.failures j)
unfolding locked_entry entry_after
get-locked l now k j none e = ground (arith, text_eq_iff k j)
get-locked l now k j (some m) e = ground (
  arith,
  text_eq_iff k j,
  get-delete l.failures k j,
  get-put l.failures k j m,
  get-put l.failures k j (record m { locked_until = 0 }),
)

-- Asking: the answer is the ledger's, and the entry that is left still agrees.
ask-Agrees :
    (l : LoginLimiter) (now : ℕ) (k : Text) (o : Option FailureState) (e : Option Streak)
    → Agrees l.window now o e
    → ((locked_entry l now k o).1 ≡ is_locked l.penalties l.window e now)
      × Agrees l.window now (entry_after l.window now o) e
unfolding locked_entry entry_after
ask-Agrees l now k none none a = ground arith
ask-Agrees l now k none (some e) a = ground arith
ask-Agrees l now k (some m) none a = absurd a
ask-Agrees l now k (some m) (some e) a = ground arith

-- A failure: both count on from the same streak.
fail-Agrees :
    (ps : List Penalty) (w : ℤ) (now : ℕ) (o : Option FailureState) (e : Option Streak)
    → 0 < now
    → Agrees w now o e
    → Agrees w now
        (some (counted (restarted (or_zero o) now w) now ps))
        (some (next_streak ps w e now))
unfolding counted restarted next_streak
fail-Agrees ps w now none none h a = ground arith
fail-Agrees ps w now none (some e) h a = ground arith
fail-Agrees ps w now (some m) none h a = absurd a
fail-Agrees ps w now (some m) (some e) h a = ground arith

abbrev Table : Type 0
Table = List (Text × FailureState)

abbrev Rel : ℤ → ℕ → Table → Ledger → Type 0
Rel w now m s = (k : Text) → Agrees w now (get m k) (s k)

module _ (ps : List Penalty) (w : ℤ) where
  abbrev over : Table → LoginLimiter
  over m = record { penalties = ps; window = w; failures = m }

  locked_table : ℕ → Text → Table → Table
  unfolding locked_entry
  locked_table now k m = (locked_entry (over m) now k (get m k)).0.failures

  locked-over :
      (now : ℕ) (k : Text) (m : Table) (o : Option FailureState)
      → (locked_entry (over m) now k o).0 ≡ over (locked_entry (over m) now k o).0.failures
  unfolding locked_entry
  locked-over now k m none = refl
  locked-over now k m (some e) = ground arith

  ask-Rel :
      (m : Table) (s : Ledger) (t : ℕ) (k : Text)
      → Rel w t m s
      → (locked (over m) t k ≡ (over (locked_table t k m), is_locked ps w (s k) t))
        × Rel w t (locked_table t k m) s
  unfolding locked locked_table
  ask-Rel m s t k r =
      let kept = ask-Agrees (over m) t k (get m k) (s k) (r k) in
      (
        ground (arith, kept.0, locked-over t k m (get m k)),
        λ j.
            rw (get-locked (over m) t k j (get m k) refl)
              (ground (arith, text_eq_iff k j, kept.1, r j)),
      )

  fail-Rel :
      (m : Table) (s : Ledger) (t : ℕ) (k : Text)
      → 0 < t
      → Rel w t m s
      → Rel w t (fail (over m) t k).failures ((ledger ps w).fail s t k)
  unfolding fail
  fail-Rel m s t k h r j =
      let next = counted (restarted (or_zero (get m k)) t w) t ps in
      rw (get-put m k j next)
        (ground (arith, text_eq_iff k j, fail-Agrees ps w t (get m k) (s k) h (r k), r j))

  success-Rel :
      (m : Table) (s : Ledger) (t : ℕ) (k : Text)
      → Rel w t m s
      → Rel w t (success (over m) k).failures ((ledger ps w).success s t k)
  unfolding success
  success-Rel m s t k r j = rw (get-delete m k j) (ground (arith, text_eq_iff k j, r j))

  later : (m : Table) (s : Ledger) (t u : ℕ) → t ≤ u → Rel w t m s → Rel w u m s
  later m s t u h r k = Agrees-later w t u (get m k) (s k) h (r k)

  Rel-answers :
      (t : ℕ) (m : Table) (s : Ledger) (h : List (ℕ × Call))
      → 0 < t
      → Ordered t h
      → Rel w t m s
      → answers login_limiter (over m) h ≡ answers (ledger ps w) s h
  unfolding answers fail success
  Rel-answers t m s [] p o r = refl
  Rel-answers t m s ((u, ask k) ∷ h) p (le, o) r =
      let (step, r') = ask-Rel m s u k (later m s t u le r) in
      rw step (
        ap (λ (bs : List Bool). is_locked ps w (s k) u ∷ bs)
          (Rel-answers u (locked_table u k m) s h (omega arith) o r'))
  Rel-answers t m s ((u, fails k) ∷ h) p (le, o) r =
      Rel-answers u (fail (over m) u k).failures ((ledger ps w).fail s u k) h (omega arith) o
        (fail-Rel m s u k (omega arith) (later m s t u le r))
  Rel-answers t m s ((u, succeeds k) ∷ h) p (le, o) r =
      Rel-answers u (success (over m) k).failures ((ledger ps w).success s u k) h (omega arith) o
        (success-Rel m s u k (later m s t u le r))

-- The limiter in memory, made from any options, gives any history of `Locked`, `Fail` and
-- `Success` calls, whose times are positive and do not fall, exactly the answers of the ledger for
-- its penalties and its window: forgetting expired entries in `Locked` is never seen.
pub answers-ledger :
    (options : Options) (t : ℕ) (h : List (ℕ × Call))
    → 0 < t
    → Ordered t h
    → let l = new_login_limiter options in
      answers login_limiter l h ≡ answers (ledger l.penalties l.window) blank h
unfolding new_login_limiter get
answers-ledger options t h p o =
    Rel-answers (new_login_limiter options).penalties (new_login_limiter options).window t [] blank
      h p o (λ k. tt)
