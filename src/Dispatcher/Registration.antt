-- ===== src/Dispatcher/Registration.antt =====
-- dispatcher/DispatcherApp.cpp: how the registration loop goes on, and how it ends.
use task_messenger.Common.{ℕ, ◌≤◌, Bool, List, [], ◌∷◌, arith, All, if_both}
use task_messenger.Rendezvous.Server.{Text}
use task_messenger.Rendezvous.Client.{Client}
use task_messenger.Dispatcher.{Attempt, Ending, next_delay, attempt, registration_loop}

-- The waits of a loop: each between one and ten seconds.
abbrev pub Paced : List ℕ → Type 0
Paced delays = All (λ d. (1 ≤ d) × (d ≤ 10)) delays

module _ (accepts : Text → Bool) (request : Text) (c : Client) where
  -- However often the registration fails, the waits stay between one and ten seconds.
  pub registration_loop-Paced :
      (attempts : List Attempt) (delay : ℕ)
      → 1 ≤ delay
      → delay ≤ 10
      → Paced (registration_loop accepts request delay attempts c).1
  unfolding registration_loop
  registration_loop-Paced [] delay l h = tt
  registration_loop-Paced (a ∷ attempts) delay l h =
      let rest =
        registration_loop-Paced attempts (next_delay delay) (ground arith) (ground arith) in
      let IsPaced : Ending × List ℕ → Type 0 = λ p. Paced p.1 in
      if_both IsPaced a.asked_before _ _ tt (
        if_both IsPaced (attempt accepts request a c) _ _ tt
          (if_both IsPaced a.asked_meanwhile _ _ ((l, h), tt) ((l, h), rest)))
