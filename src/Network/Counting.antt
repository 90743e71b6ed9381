-- ===== src/Network/Counting.antt =====
-- transport/socket/zerotier/ZeroTierNodeService.cpp: the counts are the leases that are held.
use task_messenger.Common.{
  ℕ, zero, suc, ◌+◌, ◌<◌, ◌≡◌, ◌≢◌, refl, ap, sym, ◌∙◌, inl, inr, Bool, true, false, Option, none,
  some, List, [], ◌∷◌, arith, length, lookup, lookup-put, lookup-erase, Bool-cases, Option-cases,
  if◌then◌else◌, ◌==◌, push_if,
}
use task_messenger.Network.{
  ℤ, pos, increment, is_zero, NodeService, Sockets, Answers, Outcome, succeeds, throws, hangs,
  or_zero, count_of, with_count, counted, started, join_network, acquire, release_found,
  release_network, lease_at, set_lease, join, ensure_node_started,
}

abbrev pub one_if : Bool → ℕ
one_if true = 1
one_if false = 0

abbrev pub holds : ℕ → Option ℕ → ℕ
holds net none = 0
holds net (some held) = one_if (held == net)

-- How many sockets hold a lease of the network.
abbrev pub holders : ℕ → List (Option ℕ) → ℕ
holders net [] = 0
holders net (l ∷ ls) = holds net l + holders net ls

-- The count of each network is the number of its leases.
pub record IsCounted (w : Sockets) : Type 0 where
  pub count : (net : ℕ) → count_of net w.service ≡ pos (holders net w.leases)

pub holders-set :
    (net i : ℕ) (l : Option ℕ) (ls : List (Option ℕ))
    → i < length ls
    → holders net (set_lease i l ls) + holds net (lease_at i ls) ≡ holders net ls + holds net l
holders-set net i l [] h = absurd (omega arith)
holders-set net zero l (m ∷ ls) h = omega arith
holders-set net (suc i) l (m ∷ ls) h = omega (arith, holders-set net i l ls (omega arith))

pub pos_apart : (m : ℕ) → pos 0 ≢ pos (suc m)
pos_apart m e = cc

count-with_count :
    (net k : ℕ) (n : ℤ) (s : NodeService)
    → count_of k (with_count net n s) ≡ (if net == k then n else count_of k s)
count-with_count net k n s =
    ap or_zero (lookup-put net k n s.join_counts)
    ∙ sym (push_if or_zero (net == k) (some n) (lookup k s.join_counts))

-- What a call to join does to the count of its network.
abbrev pub bump : Outcome → ℤ → ℤ
bump succeeds n = increment n
bump throws n = n
bump hangs n = n

counted-count :
    (net k : ℕ) (o : Outcome) (s : NodeService)
    → (count_of k (counted net o s).0
        ≡ (if net == k then bump o (count_of net s) else count_of k s))
      × ((counted net o s).1 ≡ o)
counted-count net k succeeds s = (count-with_count net k _ s, refl)
counted-count net k throws s = (count-with_count net k _ s, refl)
counted-count net k hangs s = (count-with_count net k _ s, refl)

pub same_count :
    (net k : ℕ) (s : NodeService)
    → count_of k s ≡ (if net == k then count_of net s else count_of k s)
same_count net k s = elim (Bool-cases (net == k)) [
  | inl e ↦ let same : net ≡ k = ground arith in sym (rw e (ap (λ n. count_of n s) same))
  | inr e ↦ rw e refl
]

started-count :
    (a : Answers) (net k : ℕ) (o : Outcome) (s : NodeService)
    → count_of k (started a net o s).0
      ≡ (if net == k then bump (started a net o s).1 (count_of net s) else count_of k s)
unfolding join_network
started-count a net k succeeds s =
    let joined =
      if is_zero (count_of net s) then join a (record s { node_started = true }) else succeeds in
    let (count, same) = counted-count net k joined (record s { node_started = true }) in
    rw same count
started-count a net k throws s = same_count net k s
started-count a net k hangs s = same_count net k s

pub acquire-count :
    (a : Answers) (net k : ℕ) (s : NodeService)
    → count_of k (acquire a net s).0
      ≡ (if net == k then bump (acquire a net s).1 (count_of net s) else count_of k s)
unfolding acquire
acquire-count a net k s = started-count a net k (ensure_node_started a s) s

found-count :
    (net k m : ℕ) (s : NodeService)
    → count_of k (release_found net (some (pos (suc m))) s)
      ≡ (if net == k then pos m else count_of k s)
found-count net k zero s =
    ap or_zero (lookup-erase net k s.join_counts)
    ∙ sym (push_if or_zero (net == k) none (lookup k s.join_counts))
found-count net k (suc m) s = count-with_count net k (pos (suc m)) s

-- Letting a network go that somebody holds.
pub release-count :
    (net k m : ℕ) (s : NodeService)
    → count_of net s ≡ pos (suc m)
    → count_of k (release_network net s) ≡ (if net == k then pos m else count_of k s)
unfolding release_network
release-count net k m s e = elim (Option-cases (lookup net s.join_counts)) [
  | inl n ↦ absurd (pos_apart m (sym (ap or_zero n) ∙ e))
  | inr (n, p) ↦
      let same : n ≡ pos (suc m) = sym (ap or_zero p) ∙ e in
      ap (λ o. count_of k (release_found net o s)) (p ∙ ap some same) ∙ found-count net k m s
]
