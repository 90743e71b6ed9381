-- ===== src/Generator/Ids.antt =====
-- generators/common/TaskIdGenerator.hpp: the ids that it gives out.
use task_messenger.Common.{
  ℕ, zero, suc, ◌+◌, ◌-◌, ◌%◌, ◌≤◌, ◌<◌, ◌≡◌, sym, subst, ◌≢◌, List, [], ◌∷◌, arith, All,
  if◌then◌else◌, ◌==◌,
}
use task_messenger.Generator.{get_next_id}

-- The ids of successive calls.
unfoldable pub ids : ℕ → ℕ → List ℕ
ids zero counter = []
ids (suc n) counter = let (counter', id) = get_next_id counter in id ∷ ids n counter'

abbrev pub Distinct : List ℕ → Type 0
Distinct [] = Unit {0}
Distinct (x ∷ xs) = All (λ y. y ≢ x) xs × Distinct xs

abbrev period : ℕ
period = 4_294_967_295

-- Where a counter stands in the cycle of the ids.
abbrev place : ℕ → ℕ
place counter = if counter == 0 then 0 else counter - 1

next_place :
    (c : ℕ)
    → c < 4_294_967_296
    → ((get_next_id c).1 ≡ place c + 1)
      × (place (get_next_id c).0 ≡ (place c + 1) % 4_294_967_295)
      × ((get_next_id c).0 < 4_294_967_296)
unfolding get_next_id
next_place c h = (ground arith, ground arith, ground arith)

-- What lies ahead of an id, by less than a whole turn, is not that id.
ids-Apart :
    (n c x d : ℕ)
    → c < 4_294_967_296
    → x < 4_294_967_295
    → 1 ≤ d
    → d + n ≤ 4_294_967_295
    → place c ≡ (x + d) % 4_294_967_295
    → All (λ y. y ≢ x + 1) (ids n c)
unfolding ids
ids-Apart zero c x d h b l u e = tt
ids-Apart (suc n) c x d h b l u e =
    let (here, there, small) = next_place c h in
    (
      λ same. absurd (omega (arith, here, same, e, l, u, b)),
      ids-Apart n (get_next_id c).0 x (d + 1) small b (omega arith) (omega (arith, u))
          (omega (arith, there, e)),
    )

place_small : (c : ℕ) → c < 4_294_967_296 → place c < 4_294_967_295
place_small c h = ground arith

-- Up to 2^32 - 1 successive ids differ, wherever the counter starts, and none of them is the 0 that
-- marks an invalid task.
pub ids-Distinct :
    (n c : ℕ)
    → c < 4_294_967_296
    → n ≤ 4_294_967_295
    → All (λ y. y ≢ 0) (ids n c) × Distinct (ids n c)
unfolding ids
ids-Distinct zero c h u = (tt, tt)
ids-Distinct (suc n) c h u =
    let (here, there, small) = next_place c h in
    let (nonzero, differ) = ids-Distinct n (get_next_id c).0 small (omega (arith, u)) in
    let apart : All (λ y. y ≢ place c + 1) (ids n (get_next_id c).0) =
      ids-Apart n (get_next_id c).0 (place c) 1 small (place_small c h) (omega arith)
        (omega (arith, u)) there in
    (
      ((λ e. absurd (omega (arith, here, e))), nonzero),
      (subst (λ i. All (λ y. y ≢ i) (ids n (get_next_id c).0)) (sym here) apart, differ),
    )
