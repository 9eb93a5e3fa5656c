-- ===== src/Webmail/Sieve/Rendered.antt =====
-- When the filters of a mailbox have a script.
use pro_identity_mail.Prelude.{
  ◌≡◌, refl, ◌↔◌, ◌⊎◌, inl, inr, List, [], ◌∷◌, true, Option, none, some, Any, Bool-cases, arith,
}
use pro_identity_mail.Text.{Text, to_lower}
use pro_identity_mail.Webmail.Sieve.{
  MailFilter, sieve_condition, sieve_action, text_lt, insert_filter, sort_filters, block_of,
  sieve_block, append_block, sieve_blocks, with_header, render_sieve_filters,
}

-- A filter that is on and has no condition or no action.
abbrev pub IsRefused : MailFilter → Type 0
IsRefused f = (f.enabled ≡ true) × ((sieve_condition f ≡ none) ⊎ (sieve_action f ≡ none))

insert_filter-Any :
    (f : MailFilter) (gs : List MailFilter)
    → Any IsRefused (insert_filter f gs) ↔ (IsRefused f ⊎ Any IsRefused gs)
unfolding insert_filter
insert_filter-Any f [] = ((λ h. h), (λ h. h))
insert_filter-Any f (g ∷ gs) =
    let ih = insert_filter-Any f gs in
    elim (Bool-cases (text_lt (to_lower g.name) (to_lower f.name))) [
      | inl e ↦ rw e (
        (λ h. elim h [
          | inl q ↦ inr (inl q)
          | inr q ↦ elim (ih.0 q) [ inl a ↦ inl a | inr a ↦ inr (inr a) ]
        ]),
        (λ h. elim h [
          | inl q ↦ inr (ih.1 (inl q))
          | inr q ↦ elim q [ inl a ↦ inl a | inr a ↦ inr (ih.1 (inr a)) ]
        ]),
      )
      | inr e ↦ rw e ((λ h. h), (λ h. h))
    ]

sort_filters-Any : (fs : List MailFilter) → Any IsRefused (sort_filters fs) ↔ Any IsRefused fs
unfolding sort_filters
sort_filters-Any [] = ((λ h. h), (λ h. h))
sort_filters-Any (f ∷ fs) =
    let one = insert_filter-Any f (sort_filters fs) in
    let ih = sort_filters-Any fs in
    (
      (λ h. elim (one.0 h) [ inl q ↦ inl q | inr q ↦ inr (ih.0 q) ]),
      (λ h. elim h [ inl q ↦ one.1 (inl q) | inr q ↦ one.1 (inr (ih.1 q)) ]),
    )

block_of-none :
    (f : MailFilter) (condition action : Option Text)
    → (block_of f condition action ≡ none) ↔ ((condition ≡ none) ⊎ (action ≡ none))
unfolding block_of
block_of-none f none action = ((λ h. inl refl), (λ h. refl))
block_of-none f (some c) none = ((λ h. inr refl), (λ h. refl))
block_of-none f (some c) (some a) = ((λ h. cc), (λ h. elim h [ inl q ↦ cc | inr q ↦ cc ]))

append_block-none :
    (block rest : Option Text) → (append_block block rest ≡ none) ↔ ((block ≡ none) ⊎ (rest ≡ none))
unfolding append_block
append_block-none none rest = ((λ h. inl refl), (λ h. refl))
append_block-none (some b) none = ((λ h. inr refl), (λ h. refl))
append_block-none (some b) (some r) = ((λ h. cc), (λ h. elim h [ inl q ↦ cc | inr q ↦ cc ]))

sieve_blocks-none : (fs : List MailFilter) → (sieve_blocks fs ≡ none) ↔ Any IsRefused fs
unfolding sieve_blocks sieve_block
sieve_blocks-none [] = ((λ h. cc), (λ h. absurd h))
sieve_blocks-none (f ∷ fs) = ground (
  arith,
  append_block-none (sieve_block f) (sieve_blocks fs),
  block_of-none f (sieve_condition f) (sieve_action f),
  sieve_blocks-none fs,
)

with_header-none : (fs : List MailFilter) (o : Option Text) → (with_header fs o ≡ none) ↔ (o ≡ none)
unfolding with_header
with_header-none fs none = ((λ h. refl), (λ h. refl))
with_header-none fs (some b) = ((λ h. cc), (λ h. cc))

-- The filters have no script exactly if one that is on has no condition or no action.
pub render_sieve_filters-IsRefused :
    (fs : List MailFilter) → (render_sieve_filters fs ≡ none) ↔ Any IsRefused fs
unfolding render_sieve_filters
render_sieve_filters-IsRefused fs =
    let sorted = sort_filters fs in
    let head = with_header-none sorted (sieve_blocks sorted) in
    let blocks = sieve_blocks-none sorted in
    let same = sort_filters-Any fs in
    ((λ h. same.0 (blocks.0 (head.0 h))), (λ h. head.1 (blocks.1 (same.1 h))))
