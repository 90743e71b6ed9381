-- ===== src/Transport/Socket/Waiting.antt =====
-- transport/socket/zerotier/ZeroTierSocket.cpp: the wait of a blocking `connect`, and how it ends.
use task_messenger.Common.{
  ℕ, ◌≡◌, refl, ap, ◌⊎◌, Bool, true, false, Option, none, some, List, [], ◌∷◌, ◌++◌, if◌then◌else◌,
  if_both, inl, inr,
}
use task_messenger.Session.{Errc}
use task_messenger.Transport.Stream.{Errno, is_would_block_error}
use task_messenger.Transport.Socket.{
  ZeroTierSocket, Answers, is_open, is_some, shutdown, set_non_blocking, open_fd_if_needed,
  close_fd, close, Poll, meanwhile, polled, settled, connect_loop, connecting, connect_on, connect,
  connected, after_join, Join, join_loop, disturbed,
}

-- What has come back.
abbrev pub Returned {ℓ} : {A : Type ℓ} → Option A → Type 0
Returned none = ⊥
Returned (some a) = Unit

-- A turn before which another thread shuts the socket down or closes it.
abbrev pub IsStopping : Poll → Type 0
IsStopping p = (p.shuts_down ≡ true) ⊎ (p.closes ≡ true)

taken {ℓ} :
    {A : Type ℓ} (b : Bool) (x y : Option A) → b ≡ true → Returned x → Returned (if b then x else y)
taken b x y e r = rw e r

passed {ℓ} :
    {A : Type ℓ} (b : Bool) (x y : Option A)
    → b ≡ false
    → Returned y
    → Returned (if b then x else y)
passed b x y e r = rw e r

close_fd_shut :
    (o : Option ℕ) (s : ZeroTierSocket) → s.socket_fd ≡ o → is_open (close_fd o s) ≡ false
close_fd_shut none s e = ap (λ o. is_some o) e
close_fd_shut (some fd) s e = refl

-- After what a stopping turn brings, the socket is to be shut down or is closed.
stopped :
    (closing shutting : Bool) (s : ZeroTierSocket)
    → (shutting ≡ true) ⊎ (closing ≡ true)
    → let s' = if closing then close s else s in
      let s'' = if shutting then shutdown s' else s' in
      (s''.shutdown_requested ≡ true) ⊎ (is_open s'' ≡ false)
stopped closing true s h = inl refl
stopped true false s h = inr (close_fd_shut s.socket_fd s refl)
stopped false false s (inl e) = absurd (cc e)
stopped false false s (inr e) = absurd (cc e)

-- A turn in which the wait for the network is over.
abbrev pub EndsJoin : Join → Type 0
EndsJoin j = (j.shuts_down ≡ true) ⊎ Returned j.joined

after_turn-Returned :
    (o : Option Bool) (rest : Option (ZeroTierSocket × Bool)) (s : ZeroTierSocket)
    → Returned o ⊎ Returned rest
    → Returned
        (elim o as (λ _. Option (ZeroTierSocket × Bool)) [ none ↦ rest | some b ↦ some (s, b) ])
after_turn-Returned none rest s (inl r) = absurd r
after_turn-Returned none rest s (inr r) = r
after_turn-Returned (some b) rest s r = tt

join_loop-Returned :
    (waits : List Join) (j : Join) (s : ZeroTierSocket)
    → EndsJoin j
    → Returned (join_loop (waits ++ j ∷ []) s)
unfolding join_loop
join_loop-Returned [] j s (inl e) = taken j.shuts_down _ _ e tt
join_loop-Returned [] j s (inr r) =
    if_both (λ (x : Option (ZeroTierSocket × Bool)). Returned x) j.shuts_down _ _ tt
      (after_turn-Returned j.joined _ (disturbed j.closes j.shuts_down s) (inl r))
join_loop-Returned (i ∷ waits) j s k =
    let s' = disturbed i.closes i.shuts_down s in
    if_both (λ (x : Option (ZeroTierSocket × Bool)). Returned x) i.shuts_down _ _ tt
      (after_turn-Returned i.joined _ s' (inr (join_loop-Returned waits j s' k)))

module _ (z : Answers) where
  stops :
      (before : Bool) (p : Poll) (polls : List Poll) (s : ZeroTierSocket)
      → IsStopping p
      → Returned (connect_loop z before (p ∷ polls) s)
  unfolding connect_loop
  stops before p polls s h =
      let s' = meanwhile p s in
      let IsBack : Option (ZeroTierSocket × Option Errc) → Type 0 = λ x. Returned x in
      elim (stopped p.closes p.shuts_down s h) [
        | inl e ↦ taken s'.shutdown_requested _ _ e tt
        | inr e ↦ if_both IsBack s'.shutdown_requested _ _ tt (passed (is_open s') _ _ e tt)
      ]

  -- Turns before the one that stops.
  connect_loop-Returned :
      (before : Bool) (early : List Poll) (p : Poll) (s : ZeroTierSocket)
      → IsStopping p
      → Returned (connect_loop z before (early ++ p ∷ []) s)
  unfolding connect_loop
  connect_loop-Returned before [] p s h = stops before p [] s h
  connect_loop-Returned before (q ∷ early) p s h =
      let s' = meanwhile q s in
      let IsBack : Option (ZeroTierSocket × Option Errc) → Type 0 = λ x. Returned x in
      if_both IsBack s'.shutdown_requested _ _ tt (
        if_both IsBack (is_open s') _ _
          (after_poll _ _ (polled q.answer) (connect_loop-Returned before early p s' h)) tt)
    where
      after_poll :
          (rest : Option (ZeroTierSocket × Option Errc)) (s' : ZeroTierSocket)
          (o : Option (Option Errc))
          → Returned rest
          → Returned (elim o [ none ↦ rest | some error ↦ some (settled error s') ])
      after_poll rest s' none r = r
      after_poll rest s' (some error) r = tt

  connecting-Returned :
      (before : Bool) (early : List Poll) (p : Poll) (o : Option Errno) (s : ZeroTierSocket)
      → IsStopping p
      → Returned (connecting z before (early ++ p ∷ []) o s)
  connecting-Returned before early p none s h = tt
  connecting-Returned before early p (some e) s h =
      if_both (λ (x : Option (ZeroTierSocket × Option Errc)). Returned x) (is_would_block_error e) _
        _ (connect_loop-Returned before early p s h) tt

  connect_on-Returned :
      (early : List Poll) (p : Poll) (x : ZeroTierSocket × Option Errc)
      → IsStopping p
      → Returned (connect_on z (early ++ p ∷ []) x)
  connect_on-Returned early p (s, some e) h = tt
  connect_on-Returned early p (s, none) h =
      let IsBack : Option (ZeroTierSocket × Option Errc) → Type 0 = λ x. Returned x in
      if_both IsBack z.parses _ _
        (if_both IsBack (is_open s) _ _
          (connecting-Returned s.is_non_blocking early p z.connect_error (set_non_blocking z true s)
            h)
          tt)
        tt

  connected-Returned :
      (o : Option (ZeroTierSocket × Option Errc)) → Returned o → Returned (connected z o)
  connected-Returned none r = r
  connected-Returned (some (s, error)) r = tt

  after_join-Returned :
      (early : List Poll) (p : Poll) (o : Option (ZeroTierSocket × Bool))
      → IsStopping p
      → Returned o
      → Returned (after_join z (early ++ p ∷ []) o)
  after_join-Returned early p none h r = r
  after_join-Returned early p (some (s, false)) h r = tt
  after_join-Returned early p (some (s, true)) h r =
      connected-Returned _ (connect_on-Returned early p (open_fd_if_needed z s) h)

  -- A blocking connect comes back: the join of the network where it ends or the socket is shut
  -- down, which gives it up, but not where the socket is only closed; and the connection behind it
  -- in the turn before which another thread shuts the socket down or closes it, at the latest,
  -- whatever libzt answers to it and also where the peer never does.
  pub connect-Returned :
      (waits : List Join) (j : Join) (early : List Poll) (p : Poll) (s : ZeroTierSocket)
      → EndsJoin j
      → IsStopping p
      → Returned (connect z (waits ++ j ∷ []) (early ++ p ∷ []) s)
  unfolding connect
  connect-Returned waits j early p s k h =
      after_join-Returned early p (join_loop (waits ++ j ∷ []) s) h (join_loop-Returned waits j s k)
