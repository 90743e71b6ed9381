-- ===== src/Network/Leases.antt =====
-- transport/socket/zerotier/ZeroTierNodeService.hpp: leases that are taken, released and moved keep the
-- counts right, and a network is left with its last lease.
use task_messenger.Common.{
  ℕ, zero, suc, ◌+◌, ◌<◌, ◌≡◌, refl, ap, sym, subst, ◌∙◌, inl, inr, false, Option, none, some, List,
  [], ◌∷◌, ◌++◌, arith, length, lookup, Bool-cases, Option-cases, if◌then◌else◌, ◌==◌, ==_refl,
}
use task_messenger.Network.{
  pos, increment, NodeService, Sockets, Answers, Outcome, succeeds, throws, hangs, or_zero,
  count_of, acquire, release_network, release_found, lease_at, set_lease, let_go, release, move,
  ensure_lease, leased, acquire_unless, shutdown,
}
use task_messenger.Network.Counting.{
  one_if, holds, holders, IsCounted, bump, holders-set, acquire-count, release-count, same_count,
  pos_apart,
}

-- What the sockets do with their leases. `stop`, which no code calls, is left out: it forgets the
-- leases that are held.
pub data Op : Type 0 where
  ensures : Answers → ℕ → ℕ → Op
  releases : ℕ → Op
  moves : ℕ → ℕ → Op
  interrupts : Op

abbrev pub step : Op → Sockets → Sockets
step (ensures a i net) w = (ensure_lease a i net w).0
step (releases i) w = release i w
step (moves i j) w = move i j w
step interrupts w = record w { service = shutdown w.service }

-- The sockets exist.
abbrev pub IsInside : Op → Sockets → Type 0
IsInside (ensures a i net) w = i < length w.leases
IsInside (releases i) w = i < length w.leases
IsInside (moves i j) w = (i < length w.leases) × (j < length w.leases)
IsInside interrupts w = Unit {0}

length-set : (i : ℕ) (l : Option ℕ) (ls : List (Option ℕ)) → length (set_lease i l ls) ≡ length ls
length-set i l [] = refl
length-set zero l (m ∷ ls) = refl
length-set (suc i) l (m ∷ ls) = ap suc (length-set i l ls)

lease_at-set :
    (i j : ℕ) (l : Option ℕ) (ls : List (Option ℕ))
    → i < length ls
    → lease_at j (set_lease i l ls) ≡ (if i == j then l else lease_at j ls)
lease_at-set i j l [] h = absurd (omega arith)
lease_at-set zero zero l (m ∷ ls) h = ground arith
lease_at-set zero (suc j) l (m ∷ ls) h = ground arith
lease_at-set (suc i) zero l (m ∷ ls) h = ground arith
lease_at-set (suc i) (suc j) l (m ∷ ls) h = lease_at-set i j l ls (omega arith) ∙ ground arith

-- A lease that is held is one of the holders.
held_once :
    (i net : ℕ) (ls : List (Option ℕ))
    → i < length ls
    → lease_at i ls ≡ some net
    → (n : ℕ) × (holders net ls ≡ suc n)
held_once i net [] h e = absurd (omega arith)
held_once zero net (m ∷ ls) h e =
    (holders net ls, omega (arith, ap (holds net) e, ap one_if (==_refl net)))
held_once (suc i) net (m ∷ ls) h e =
    let (n, p) = held_once i net ls (omega arith) e in (holds net m + n, omega (arith, p))

-- The new count of a network that one lease is let go of.
let_go-count :
    (i k : ℕ) (w : Sockets)
    → i < length w.leases
    → IsCounted w
    → count_of k (let_go (lease_at i w.leases) w.service)
      ≡ pos (holders k (set_lease i none w.leases))
let_go-count i k w h v = elim (Option-cases (lease_at i w.leases)) [
  | inl e ↦
      ap (λ l. count_of k (let_go l w.service)) e
      ∙ v.count k
      ∙ ap pos (omega (arith, holders-set k i none w.leases h, ap (holds k) e))
  | inr (net, e) ↦
      let (n, p) = held_once i net w.leases h e in
      let left = holders-set k i none w.leases h in
      ap (λ l. count_of k (let_go l w.service)) e
      ∙ release-count net k n w.service (v.count net ∙ ap pos p)
      ∙ elim (Bool-cases (net == k)) [
        | inl q ↦
            let same : net ≡ k = ground arith in
            rw q (
              ap pos (
                omega
                  (arith, left, ap (holds k) e, ap one_if q, p, ap (λ m. holders m w.leases) same)))
        | inr q ↦ rw q (v.count k ∙ ap pos (omega (arith, left, ap (holds k) e, ap one_if q)))
      ]
]

release-IsCounted :
    (i : ℕ) (w : Sockets) → i < length w.leases → IsCounted w → IsCounted (release i w)
unfolding release
release-IsCounted i w h v = record { count = λ k. let_go-count i k w h v }

moved-holders :
    (i j k : ℕ) (ls : List (Option ℕ))
    → i < length ls
    → j < length ls
    → (i == j) ≡ false
    → holders k (set_lease j none (set_lease i (lease_at j ls) (set_lease i none ls)))
      ≡ holders k (set_lease i none ls)
moved-holders i j k ls h g n =
    let l = lease_at j ls in
    let one = set_lease i none ls in
    let two = set_lease i l one in
    let size = length-set i none ls in
    let in_one : i < length one = omega (arith, size, h) in
    let in_two : j < length two = omega (arith, size, length-set i l one, g) in
    let from_j : lease_at j two ≡ l =
      lease_at-set i j l one in_one ∙ rw n (lease_at-set i j none ls h ∙ rw n refl) in
    let from_i : lease_at i one ≡ none = lease_at-set i i none ls h ∙ rw (==_refl i) refl in
    omega (
      arith,
      holders-set k j none two in_two,
      holders-set k i l one in_one,
      ap (holds k) from_j,
      ap (holds k) from_i,
    )

move-IsCounted :
    (i j : ℕ) (w : Sockets)
    → i < length w.leases
    → j < length w.leases
    → IsCounted w
    → IsCounted (move i j w)
unfolding move release
move-IsCounted i j w h g v = elim (Bool-cases (i == j)) [
  | inl e ↦ rw e v
  | inr e ↦ rw e (record {
    count = λ k. let_go-count i k w h v ∙ ap pos (sym (moved-holders i j k w.leases h g e));
  })
]

leased-IsCounted :
    (i net : ℕ) (w : Sockets) (r : NodeService × Outcome)
    → i < length w.leases
    → lease_at i w.leases ≡ none
    → IsCounted w
    → ((k : ℕ)
        → count_of k r.0
          ≡ (if net == k then bump r.1 (count_of net w.service) else count_of k w.service))
    → IsCounted (leased i net r w).0
leased-IsCounted i net w (s, succeeds) h e v c = record {
  count = λ k.
      let taken = holders-set k i (some net) w.leases h in
      let nothing = ap (holds k) e in
      elim (Bool-cases (net == k)) [
        | inl q ↦
            let same : net ≡ k = ground arith in
            subst
              (λ b.
                count_of k s
                ≡ (if b then increment (count_of net w.service) else count_of k w.service))
              q (c k)
            ∙ ap increment (v.count net)
            ∙ ap pos (omega (arith, taken, nothing, ap one_if q, ap (λ m. holders m w.leases) same))
        | inr q ↦
            subst
              (λ b.
                count_of k s
                ≡ (if b then increment (count_of net w.service) else count_of k w.service))
              q (c k)
            ∙ v.count k
            ∙ ap pos (omega (arith, taken, nothing, ap one_if q))
      ];
}
leased-IsCounted i net w (s, throws) h e v c = record {
  count = λ k. c k ∙ sym (same_count net k w.service) ∙ v.count k;
}
leased-IsCounted i net w (s, hangs) h e v c = record {
  count = λ k. c k ∙ sym (same_count net k w.service) ∙ v.count k;
}

ensure-IsCounted :
    (a : Answers) (i net : ℕ) (w : Sockets)
    → i < length w.leases
    → IsCounted w
    → IsCounted (ensure_lease a i net w).0
unfolding ensure_lease
ensure-IsCounted a i net w h v = elim (Option-cases (lease_at i w.leases)) [
  | inl e ↦
      subst (λ o. IsCounted (acquire_unless a i net o w).0) (sym e)
        (leased-IsCounted i net w (acquire a net w.service) h e v
          (λ k. acquire-count a net k w.service))
  | inr (held, e) ↦ subst (λ o. IsCounted (acquire_unless a i net o w).0) (sym e) v
]

-- Whatever the sockets do, and whether libzt succeeds, fails or keeps them waiting, the count of
-- each network is the number of the leases on it.
pub step-IsCounted : (op : Op) (w : Sockets) → IsInside op w → IsCounted w → IsCounted (step op w)
unfolding shutdown
step-IsCounted (ensures a i net) w h v = ensure-IsCounted a i net w h v
step-IsCounted (releases i) w h v = release-IsCounted i w h v
step-IsCounted (moves i j) w h v = move-IsCounted i j w h.0 h.1 v
step-IsCounted interrupts w h v = record { count = λ k. v.count k }

found_left :
    (net n : ℕ) (s : NodeService)
    → (release_found net (some (pos (suc n))) s).left
      ≡ (if n == 0 then s.left ++ net ∷ [] else s.left)
found_left net zero s = refl
found_left net (suc n) s = ground arith

left_by :
    (net n : ℕ) (s : NodeService)
    → count_of net s ≡ pos (suc n)
    → (release_network net s).left ≡ (if n == 0 then s.left ++ net ∷ [] else s.left)
unfolding release_network
left_by net n s e = elim (Option-cases (lookup net s.join_counts)) [
  | inl o ↦ absurd (pos_apart n (sym (ap or_zero o) ∙ e))
  | inr (c, o) ↦
      ap (λ x. (release_found net x s).left) (o ∙ ap some (sym (ap or_zero o) ∙ e))
      ∙ found_left net n s
]

-- A network is left when the last lease on it is released, and then its entry is gone; while
-- others hold it, it is not left.
pub release_leaves_last :
    (i net : ℕ) (w : Sockets)
    → i < length w.leases
    → lease_at i w.leases ≡ some net
    → IsCounted w
    → (release i w).service.left ≡ (
        if holders net (release i w).leases == 0
        then w.service.left ++ net ∷ []
        else w.service.left)
unfolding release release_network
release_leaves_last i net w h e v =
    let (n, p) = held_once i net w.leases h e in
    let rest : holders net (set_lease i none w.leases) ≡ n =
      omega
        (arith, holders-set net i none w.leases h, ap (holds net) e, ap one_if (==_refl net), p) in
    ap (λ (l : Option ℕ). (let_go l w.service).left) e
    ∙ left_by net n w.service (v.count net ∙ ap pos p)
    ∙ ap (λ m. if m == 0 then w.service.left ++ net ∷ [] else w.service.left) (sym rest)
