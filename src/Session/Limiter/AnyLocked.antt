-- ===== src/Session/Limiter/AnyLocked.antt =====
-- The loops over several keys of one login, on the limiter in memory.
use pro_identity_mail.Prelude.{
  ℕ, ◌<◌, ◌≡◌, ◌≢◌, refl, ◌∙◌, inl, inr, ◌↔◌, List, [], ◌∷◌, Bool, true, Option, none, some, ltb,
  ◌==◌, get, arith, Any, Bool-cases,
}
use pro_identity_mail.Text.{Text, Text-Eq, text_eq, text_eq_iff}
use pro_identity_mail.Session.Interface.{any_locked_from, any_locked}
use pro_identity_mail.Session.Limiter.Refines.{entry_after, get-locked}
use pro_identity_mail.Session.Limiter.{
  FailureState, LoginLimiter, is_stale, locked_entry, locked, login_limiter,
}

-- The entry holds a lock that ends after `now`.
abbrev pub HoldsLock : Option FailureState → ℕ → Type 0
HoldsLock none now = ⊥
HoldsLock (some m) now = (m.locked_until ≢ 0) × (now < m.locked_until)

locked_entry-answer :
    (l : LoginLimiter) (now : ℕ) (k : Text) (o : Option FailureState)
    → ((locked_entry l now k o).1 ≡ true) ↔ HoldsLock o now
unfolding locked_entry
locked_entry-answer l now k none = ((λ h. cc), (λ h. absurd h))
locked_entry-answer l now k (some m) = ground arith

entry_after-HoldsLock :
    (l : LoginLimiter) (now : ℕ) (o : Option FailureState)
    → HoldsLock (entry_after l.window now o) now ↔ HoldsLock o now
unfolding entry_after
entry_after-HoldsLock l now none = ((λ h. h), (λ h. h))
entry_after-HoldsLock l now (some m) = elim (Bool-cases (m.locked_until == 0)) [
  | inl e ↦ rw e ((λ h. h), (λ h. h))
  | inr e ↦ elim (Bool-cases (ltb now m.locked_until)) [
    | inl lt ↦ rw (e, lt) ((λ h. h), (λ h. h))
    | inr ge ↦ elim (Bool-cases (is_stale m now l.window)) [
      | inl s ↦ rw (e, ge, s) ((λ h. absurd h), (λ h. ground arith))
      | inr s ↦ rw (e, ge, s) ((λ h. absurd (h.0 refl)), (λ h. ground arith))
    ]
  ]
]

-- A question about one key changes no answer about any.
locked-keeps :
    (l : LoginLimiter) (now : ℕ) (k j : Text)
    → HoldsLock (get (locked l now k).0.failures j) now ↔ HoldsLock (get l.failures j) now
unfolding locked
locked-keeps l now k j =
    rw (get-locked l now k j (get l.failures k) refl) (elim (Bool-cases (text_eq k j)) [
      | inl e ↦ rw (e, (text_eq_iff k j).0 e) (entry_after-HoldsLock l now (get l.failures j))
      | inr e ↦ rw e ((λ h. h), (λ h. h))
    ])

Any-iff :
    (now : ℕ) (l l' : LoginLimiter) (keys : List Text)
    → ((j : Text) → HoldsLock (get l'.failures j) now ↔ HoldsLock (get l.failures j) now)
    → Any (λ k. HoldsLock (get l'.failures k) now) keys
      ↔ Any (λ k. HoldsLock (get l.failures k) now) keys
Any-iff now l l' [] h = ((λ a. a), (λ a. a))
Any-iff now l l' (k ∷ ks) h =
    let ih = Any-iff now l l' ks h in
    (
      (λ a. elim a [ inl x ↦ inl ((h k).0 x) | inr y ↦ inr (ih.0 y) ]),
      (λ a. elim a [ inl x ↦ inl ((h k).1 x) | inr y ↦ inr (ih.1 y) ]),
    )

locked-answer :
    (l : LoginLimiter) (now : ℕ) (k : Text)
    → ((locked l now k).1 ≡ true) ↔ HoldsLock (get l.failures k) now
unfolding locked
locked-answer l now k = locked_entry-answer l now k (get l.failures k)

any_locked_from_lem :
    (l : LoginLimiter) (now : ℕ) (keys : List Text)
    → ((any_locked_from login_limiter l now keys).1 ≡ true)
      ↔ Any (λ k. HoldsLock (get l.failures k) now) keys
unfolding any_locked_from
any_locked_from_lem l now [] = ((λ h. cc), (λ h. absurd h))
any_locked_from_lem l now (k ∷ ks) =
    let here = locked-answer l now k in
    let l' = (locked l now k).0 in
    let rest = any_locked_from_lem l' now ks in
    let same = Any-iff now l l' ks (λ j. locked-keeps l now k j) in
    elim (Bool-cases (locked l now k).1) [
      | inl e ↦ rw e ((λ _. inl (here.0 e)), (λ _. refl))
      | inr e ↦ rw e (
        (λ h. inr (same.0 (rest.0 h))),
        (λ a. elim a [ inl x ↦ cc (here.1 x) | inr y ↦ rest.1 (same.1 y) ]),
      )
    ]

true_iff : (a b : Bool) → ((a ≡ true) ↔ (b ≡ true)) → a ≡ b
true_iff a b h = ground arith

locked-locked :
    (l : LoginLimiter) (now : ℕ) (k j : Text)
    → (locked (locked l now k).0 now j).1 ≡ (locked l now j).1
locked-locked l now k j =
    let after = locked-answer (locked l now k).0 now j in
    let before = locked-answer l now j in
    let keep = locked-keeps l now k j in
    true_iff _ _ ((λ h. before.1 (keep.0 (after.0 h))), (λ h. after.1 (keep.1 (before.0 h))))

locked-any_locked_from :
    (l : LoginLimiter) (now : ℕ) (keys : List Text) (j : Text)
    → (locked (any_locked_from login_limiter l now keys).0 now j).1 ≡ (locked l now j).1
unfolding any_locked_from
locked-any_locked_from l now [] j = refl
locked-any_locked_from l now (k ∷ ks) j = elim (Bool-cases (locked l now k).1) [
  | inl e ↦ rw e (locked-locked l now k j)
  | inr e ↦ rw e (locked-any_locked_from (locked l now k).0 now ks j ∙ locked-locked l now k j)
]

-- `AnyLocked` over the keys of one login says yes exactly if one of them holds a lock that ends
-- after now, in the state before the call; and the questions change no later answer at that time,
-- of any key, whatever keys were asked before.
pub any_locked_lem :
    (l : LoginLimiter) (now : ℕ) (keys : List Text)
    → (((any_locked (some login_limiter) l now keys).1 ≡ true)
        ↔ Any (λ k. HoldsLock (get l.failures k) now) keys)
      × ((j : Text)
          → (locked (any_locked (some login_limiter) l now keys).0 now j).1 ≡ (locked l now j).1)
unfolding any_locked
any_locked_lem l now keys = (any_locked_from_lem l now keys, locked-any_locked_from l now keys)
