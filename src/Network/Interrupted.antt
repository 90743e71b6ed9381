-- ===== src/Network/Interrupted.antt =====
-- transport/socket/zerotier/ZeroTierNodeService.cpp: what a shutdown does to later calls.
use task_messenger.Common.{
  ℕ, ◌≡◌, ◌≢◌, refl, true, false, List, [], ◌∷◌, if◌then◌else◌, sym, subst, choose, if_both,
}
use task_messenger.Network.{
  pos, is_zero, NodeService, Answers, Poll, Outcome, succeeds, throws, hangs, after_join,
  wait_joined, count_of, join, join_network, acquire, started, counted, ensure_node_started,
  shutdown,
}

after_join_fails :
    (a : Answers) (s : NodeService) (ps : List Poll)
    → after_join a s (wait_joined true ps) ≢ succeeds
after_join_fails a s [] e = cc
after_join_fails a s (p ∷ ps) e = cc

join_fails :
    (a : Answers) (s : NodeService)
    → s.shutdown_requested ≡ true
    → a.status_ok ≡ false
    → join a s ≢ succeeds
join_fails a s asked down =
    subst (λ o. o ≢ succeeds) (sym (choose a.status_ok _ _ down))
      (if_both (λ o. o ≢ succeeds) a.joins _ _
        (subst (λ b. after_join a s (wait_joined b a.joined) ≢ succeeds) (sym asked)
          (after_join_fails a s a.joined))
        (λ e. cc))

counted_answer : (net : ℕ) (o : Outcome) (s : NodeService) → (counted net o s).1 ≡ o
counted_answer net succeeds s = refl
counted_answer net throws s = refl
counted_answer net hangs s = refl

join_network_fails :
    (a : Answers) (net : ℕ) (s : NodeService)
    → s.shutdown_requested ≡ true
    → count_of net s ≡ pos 0
    → a.status_ok ≡ false
    → (join_network a net s).1 ≢ succeeds
unfolding join_network
join_network_fails a net s asked none_held down =
    rw (counted_answer net (if is_zero (count_of net s) then join a s else succeeds) s) (
      subst (λ n. (if is_zero n then join a s else succeeds) ≢ succeeds) (sym none_held)
        (join_fails a s asked down))

started_fails :
    (a : Answers) (net : ℕ) (o : Outcome) (s : NodeService)
    → s.shutdown_requested ≡ true
    → count_of net s ≡ pos 0
    → a.status_ok ≡ false
    → (started a net o s).1 ≢ succeeds
started_fails a net succeeds s asked none_held down =
    join_network_fails a net (record s { node_started = true }) asked none_held down
started_fails a net throws s asked none_held down = λ e. cc
started_fails a net hangs s asked none_held down = λ e. cc

-- Once any socket has asked for a shutdown, a network that nobody holds and that is not up at the
-- moment cannot be joined again in this process, whatever libzt would answer.
pub acquire_after_shutdown :
    (a : Answers) (net : ℕ) (s : NodeService)
    → count_of net s ≡ pos 0
    → a.status_ok ≡ false
    → (acquire a net (shutdown s)).1 ≢ succeeds
unfolding acquire shutdown
acquire_after_shutdown a net s none_held down =
    started_fails a net (ensure_node_started a (shutdown s)) (shutdown s) refl none_held down
