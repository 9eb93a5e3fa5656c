-- ===== src/Session/Penalty/Best.antt =====
-- The lockout of a number of failures is that of the highest threshold reached.
use pro_identity_mail.Prelude.{
  ◌≡◌, refl, ◌⊎◌, inl, inr, ◌↔◌, List, [], ◌∷◌, ℤ, pos, ◌≤ℤ◌, leb_ℤ, ltb_ℤ, In, arith, Bool-cases,
}
use pro_identity_mail.Session.Penalty.{
  Penalty, keep_valid, insert, sort_from, normalize_penalty_list, last_reached,
  lockout_for_failure_count,
}

-- A penalty that the normalisation keeps: both numbers are positive.
abbrev pub IsActive : Penalty → Type 0
IsActive p = (pos 1 ≤ℤ p.failures) × (pos 1 ≤ℤ p.lockout)

-- Thresholds rise along the list.
abbrev pub IsSorted : List Penalty → Type 0
IsSorted [] = Unit {0}
IsSorted (p ∷ ps) = ((q : Penalty) → In q ps → p.failures ≤ℤ q.failures) × IsSorted ps

keep_valid-In : (q : Penalty) (ps : List Penalty) → In q (keep_valid ps) ↔ (In q ps × IsActive q)
unfolding keep_valid
keep_valid-In q [] = ground arith
keep_valid-In q (p ∷ ps) = ground (arith, keep_valid-In q ps)

insert-In : (q p : Penalty) (ps : List Penalty) → In q (insert ps p) ↔ ((q ≡ p) ⊎ In q ps)
unfolding insert
insert-In q p [] = ground arith
insert-In q p (r ∷ ps) = ground (arith, insert-In q p ps)

insert-IsSorted : (p : Penalty) (ps : List Penalty) → IsSorted ps → IsSorted (insert ps p)
unfolding insert
insert-IsSorted p [] h = ((λ q m. absurd m), tt)
insert-IsSorted p (r ∷ ps) (low, s) = elim (Bool-cases (ltb_ℤ p.failures r.failures)) [
  | inl lt ↦ rw lt ((λ q m. ground (arith, low q)), (low, s))
  | inr ge ↦ rw ge ((λ q m. ground (arith, (insert-In q p ps).0 m, low q)), insert-IsSorted p ps s)
]

sort_from-In :
    (q : Penalty) (done ps : List Penalty) → In q (sort_from done ps) ↔ (In q done ⊎ In q ps)
unfolding sort_from
sort_from-In q done [] = ground arith
sort_from-In q done (p ∷ ps) = ground (arith, sort_from-In q (insert done p) ps, insert-In q p done)

sort_from-IsSorted : (done ps : List Penalty) → IsSorted done → IsSorted (sort_from done ps)
unfolding sort_from
sort_from-IsSorted done [] h = h
sort_from-IsSorted done (p ∷ ps) h =
    sort_from-IsSorted (insert done p) ps (insert-IsSorted p done h)

-- Normalisation keeps exactly the active penalties, and puts their thresholds in order.
pub normalize_penalty_list-In :
    (penalties : List Penalty)
    → ((q : Penalty) → In q (normalize_penalty_list penalties) ↔ (In q penalties × IsActive q))
      × IsSorted (normalize_penalty_list penalties)
unfolding normalize_penalty_list
normalize_penalty_list-In ps = (
  (λ q. ground (arith, sort_from-In q [] (keep_valid ps), keep_valid-In q ps)),
  sort_from-IsSorted [] (keep_valid ps) tt,
)

-- What a scan of a list yields: the initial lockout if no threshold is reached, and else the
-- lockout of a reached threshold that none of the others exceeds.
abbrev Scanned : ℤ → ℤ → List Penalty → ℤ → Type 0
Scanned n lockout ps r =
    ((r ≡ lockout) × ((q : Penalty) → In q ps → ¬ (q.failures ≤ℤ n)))
    ⊎ ((p : Penalty) × In p ps
        × (p.failures ≤ℤ n)
        × (r ≡ p.lockout)
        × ((q : Penalty) → In q ps → q.failures ≤ℤ n → q.failures ≤ℤ p.failures))

last_reached-Scanned :
    (n lockout : ℤ) (ps : List Penalty)
    → IsSorted ps
    → Scanned n lockout ps (last_reached n lockout ps)
unfolding last_reached
last_reached-Scanned n lockout [] s = inl (refl, λ q m. absurd m)
last_reached-Scanned n lockout (p ∷ ps) (low, s) = elim (Bool-cases (leb_ℤ p.failures n)) [
  | inl reached ↦ rw reached (elim (last_reached-Scanned n p.lockout ps s) [
    | inl (e, none_of) ↦ inr (p, inl refl, ground arith, e, λ q m h. ground (arith, none_of q))
    | inr (b, m, h, e, top) ↦ inr (b, inr m, h, e, λ q mq hq. ground (arith, top q, low b m))
  ])
  | inr missed ↦ rw missed (elim (last_reached-Scanned n lockout ps s) [
    | inl (e, none_of) ↦ inl (e, λ q m. ground (arith, none_of q))
    | inr (b, m, h, e, top) ↦ inr (b, inr m, h, e, λ q mq hq. ground (arith, top q))
  ])
]

-- No lockout, and no active penalty is reached; or the lockout of a reached active penalty.
abbrev pub BestLockout : ℤ → List Penalty → ℤ → Type 0
BestLockout n ps r =
    ((r ≡ pos 0) × ((q : Penalty) → In q ps → IsActive q → ¬ (q.failures ≤ℤ n)))
    ⊎ ((p : Penalty) × In p ps
        × IsActive p
        × (p.failures ≤ℤ n)
        × (r ≡ p.lockout)
        × ((q : Penalty) → In q ps → IsActive q → q.failures ≤ℤ n → q.failures ≤ℤ p.failures))

-- For every schedule, in any order and with inactive entries, and every count of failures: the
-- lockout is 0 exactly if no active penalty has a threshold at or below the count, and otherwise it
-- is the lockout of such a penalty, whose threshold is the highest of those reached.
pub lockout_for_failure_count-Best :
    (n : ℤ) (penalties : List Penalty)
    → BestLockout n penalties (lockout_for_failure_count n penalties)
unfolding lockout_for_failure_count
lockout_for_failure_count-Best n ps = elim (Bool-cases (leb_ℤ n (pos 0))) [
  | inl low ↦ rw low (inl (refl, λ q m a h. ground arith))
  | inr high ↦ rw high (
      let (kept, sorted) = normalize_penalty_list-In ps in
      elim (last_reached-Scanned n (pos 0) (normalize_penalty_list ps) sorted) [
        | inl (e, none_of) ↦ inl (e, λ q m a. none_of q ((kept q).1 (m, a)))
        | inr (b, m, h, e, top) ↦
            let (mb, ab) = (kept b).0 m in
            inr (b, mb, ab, h, e, λ q mq aq. top q ((kept q).1 (mq, aq)))
      ])
]
