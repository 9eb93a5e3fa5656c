-- ===== src/Admin/Rows.antt =====
-- The rows of a table of the database, newest first, and the effect of the statements that the stores
-- use: INSERT with a number that the table counts, UPDATE, DELETE and SELECT with a condition.
use pro_identity_mail.Prelude.{
  ℕ, ◌≤◌, ◌<◌, zero, suc, ◌≡◌, refl, List, [], ◌∷◌, Bool, true, false, not, Option, none, some,
  ◌==◌, if◌then◌else◌, Bool-cases, inl, inr, arith, sym, subst, keep, take, All,
}

pub record Table (A : Type 0) : Type 0 where
  pub rows : List A
  pub next : ℕ

module _ {A : Type 0} where
  -- the row is made from its number
  unfoldable pub insert_row : (ℕ → A) → Table A → Table A
  insert_row make t = record { rows = make t.next ∷ t.rows; next = suc t.next }

  unfoldable pub update_rows : (A → Bool) → (A → A) → List A → List A
  update_rows test change [] = []
  update_rows test change (r ∷ rs) = (if test r then change r else r) ∷ update_rows test change rs

  unfoldable pub update_where : (A → Bool) → (A → A) → Table A → Table A
  update_where test change t = record t { rows = update_rows test change t.rows }

  unfoldable pub delete_where : (A → Bool) → Table A → Table A
  delete_where test t = record t { rows = keep (λ r. not (test r)) t.rows }

  unfoldable pub any_row : (A → Bool) → List A → Bool
  any_row test [] = false
  any_row test (r ∷ rs) = if test r then true else any_row test rs

  unfoldable pub first_row : (A → Bool) → List A → Option A
  first_row test [] = none
  first_row test (r ∷ rs) = if test r then some r else first_row test rs

  -- `INSERT ... ON DUPLICATE KEY UPDATE`, where `same` finds the row of the key
  unfoldable pub upsert : (A → Bool) → (A → A) → (ℕ → A) → Table A → Table A
  upsert same change make t =
      if any_row same t.rows then update_where same change t else insert_row make t

  pub keep-update_rows :
      (p test : A → Bool) (change : A → A) (rs : List A)
      → All (λ r. test r ≡ true → (p r ≡ false) × (p (change r) ≡ false)) rs
      → keep p (update_rows test change rs) ≡ keep p rs
  unfolding keep update_rows
  keep-update_rows p test change [] h = refl
  keep-update_rows p test change (r ∷ rs) (here, later) =
      let same = keep-update_rows p test change rs later in
      elim (Bool-cases (test r)) [
        | inl e ↦ let (before, after) = here e in simp (e, before, after, same)
        | inr e ↦ simp (e, same)
      ]

  All-true : {P : A → Type 0} → ((r : A) → P r) → (rs : List A) → All P rs
  All-true h [] = tt
  All-true h (r ∷ rs) = (h r, All-true h rs)

  pub keep-insert_row :
      (p : A → Bool) (make : ℕ → A) (t : Table A)
      → p (make t.next) ≡ false
      → keep p (insert_row make t).rows ≡ keep p t.rows
  unfolding insert_row keep
  keep-insert_row p make t e = simp e

module _ {A : Type 0} (id_of : A → ℕ) where
  -- Numbers fall from row to row and stay below a bound.
  unfoldable pub Descending : ℕ → List A → Type 0
  Descending bound [] = Unit
  Descending bound (r ∷ rs) = (id_of r < bound) × Descending (id_of r) rs

  abbrev pub IsCounted : Table A → Type 0
  IsCounted t = Descending t.next t.rows

  Descending-le : (low high : ℕ) (rs : List A) → low ≤ high → Descending low rs → Descending high rs
  unfolding Descending
  Descending-le low high [] le d = tt
  Descending-le low high (r ∷ rs) le (lt, d) = (omega arith, d)

  pub insert_row-IsCounted :
      (make : ℕ → A) (t : Table A)
      → id_of (make t.next) ≡ t.next
      → IsCounted t
      → IsCounted (insert_row make t)
  unfolding insert_row Descending
  insert_row-IsCounted make t e d = (omega (arith, e), subst (λ n. Descending n t.rows) (sym e) d)

  update_rows-Descending :
      (test : A → Bool) (change : A → A) (bound : ℕ) (rs : List A)
      → ((r : A) → id_of (change r) ≡ id_of r)
      → Descending bound rs
      → Descending bound (update_rows test change rs)
  unfolding Descending update_rows
  update_rows-Descending test change bound [] keeps d = tt
  update_rows-Descending test change bound (r ∷ rs) keeps (lt, d) =
      let rest = update_rows-Descending test change (id_of r) rs keeps d in
      elim (Bool-cases (test r)) [ inl e ↦ rw (e, keeps r) (lt, rest) | inr e ↦ rw e (lt, rest) ]

  pub update_where-IsCounted :
      (test : A → Bool) (change : A → A) (t : Table A)
      → ((r : A) → id_of (change r) ≡ id_of r)
      → IsCounted t
      → IsCounted (update_where test change t)
  unfolding update_where
  update_where-IsCounted test change t keeps d =
      update_rows-Descending test change t.next t.rows keeps d

  keep-Descending :
      (p : A → Bool) (bound : ℕ) (rs : List A) → Descending bound rs → Descending bound (keep p rs)
  unfolding Descending keep
  keep-Descending p bound [] d = tt
  keep-Descending p bound (r ∷ rs) (lt, d) =
      let rest = keep-Descending p (id_of r) rs d in
      elim (Bool-cases (p r)) [
        | inl e ↦ rw e (lt, rest)
        | inr e ↦ rw e (Descending-le (id_of r) bound (keep p rs) (omega (arith, lt)) rest)
      ]

  pub delete_where-IsCounted :
      (test : A → Bool) (t : Table A) → IsCounted t → IsCounted (delete_where test t)
  unfolding delete_where
  delete_where-IsCounted test t d = keep-Descending (λ r. not (test r)) t.next t.rows d

  pub upsert-IsCounted :
      (same : A → Bool) (change : A → A) (make : ℕ → A) (t : Table A)
      → ((r : A) → id_of (change r) ≡ id_of r)
      → id_of (make t.next) ≡ t.next
      → IsCounted t
      → IsCounted (upsert same change make t)
  unfolding upsert
  upsert-IsCounted same change make t keeps e d = elim (Bool-cases (any_row same t.rows)) [
    | inl q ↦ rw (upsert, q) (update_where-IsCounted same change t keeps d)
    | inr q ↦ rw (upsert, q) (insert_row-IsCounted make t e d)
  ]

  -- what the first row with a number has
  unfoldable pub value_of : (A → ℕ) → List A → ℕ → Option ℕ
  value_of value [] id = none
  value_of value (r ∷ rs) id = if id_of r == id then some (value r) else value_of value rs id

  not_below :
      (bound id : ℕ) (rs : List A) (value : A → ℕ) (v : ℕ)
      → bound ≤ id
      → Descending bound rs
      → All (λ r. (id_of r == id) ≡ true → value r ≡ v) rs
  unfolding Descending
  not_below bound id [] value v le d = tt
  not_below bound id (r ∷ rs) value v le (lt, d) =
      ((λ e. absurd (grind (arith, e))), not_below (id_of r) id rs value v (omega (arith, le)) d)

  -- Numbers are distinct: what the first of some rows with a number has, every row with it has.
  pub value_of-every :
      (value : A → ℕ) (n bound id v : ℕ) (rs : List A)
      → Descending bound rs
      → value_of value (take n rs) id ≡ some v
      → All (λ r. (id_of r == id) ≡ true → value r ≡ v) rs
  unfolding Descending value_of
  value_of-every value zero bound id v rs d e = cc
  value_of-every value (suc n) bound id v [] d e = cc
  value_of-every value (suc n) bound id v (r ∷ rs) (lt, d) e = elim (Bool-cases (id_of r == id)) [
    | inl q ↦ ((λ _. ground (arith, e, q)), not_below (id_of r) id rs value v (ground (arith, q)) d)
    | inr q ↦ ((λ t. cc (t, q)), value_of-every value n (id_of r) id v rs d (ground (arith, e, q)))
  ]
