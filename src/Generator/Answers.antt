-- ===== src/Generator/Answers.antt =====
-- message/ResponseContext.hpp: a worker resumes what was posted, in its order, and a context that is
-- stopped resumes all of it first.
use mathlib.Core.List.{foldl}
use task_messenger.Common.{
  push_if, ℕ, zero, suc, ◌<◌, ◌≡◌, refl, ap, sym, ◌∙◌, inl, inr, true, false, not, Option, none,
  some, List, [], ◌∷◌, arith, lookup, length, Bool-cases, if_both,
}
use task_messenger.Generator.{
  World, Context, Coroutine, finish_coroutine, process_handle, worker_loop, stop,
}

-- Resuming one handle after another.
abbrev pub process_all : List ℕ → World → World
process_all handles w = foldl (λ v handle. process_handle handle v) w handles

abbrev pub with_pending : List ℕ → World → World
with_pending handles w = record w { context = record (w.context) { pending = handles } }

finish-with_pending :
    (h : ℕ) (o : Option Coroutine) (ps : List ℕ) (w : World)
    → finish_coroutine h o (with_pending ps w) ≡ with_pending ps (finish_coroutine h o w)
finish-with_pending h none ps w = refl
finish-with_pending h (some c) ps w = push_if (with_pending ps) c.is_done w _

-- A resumed coroutine does not see who waits.
process_handle-with_pending :
    (h : ℕ) (ps : List ℕ) (w : World)
    → process_handle h (with_pending ps w) ≡ with_pending ps (process_handle h w)
unfolding process_handle
process_handle-with_pending h ps w = finish-with_pending h (lookup h w.coroutines) ps w

finish-context :
    (h : ℕ) (o : Option Coroutine) (w : World) → (finish_coroutine h o w).context ≡ w.context
finish-context h none w = refl
finish-context h (some c) w = if_both (λ v. v.context ≡ w.context) c.is_done w _ refl refl

process_handle-context : (h : ℕ) (w : World) → (process_handle h w).context ≡ w.context
unfolding process_handle
process_handle-context h w = finish-context h (lookup h w.coroutines) w

pub worker_loop_drains :
    (fuel : ℕ) (ps : List ℕ) (w : World)
    → length ps < fuel
    → worker_loop fuel (with_pending ps w)
      ≡ some (process_all ps (with_pending [] w), not w.context.running)
unfolding worker_loop
worker_loop_drains zero ps w h = absurd (omega arith)
worker_loop_drains (suc fuel) [] w h = elim (Bool-cases w.context.running) [
  | inl e ↦ rw e refl
  | inr e ↦ rw e refl
]
worker_loop_drains (suc fuel) (p ∷ ps) w h =
    ap (worker_loop fuel) (process_handle-with_pending p ps w)
    ∙ worker_loop_drains fuel ps (process_handle p w) (omega (arith, h))
    ∙ ap (λ v. some (process_all ps v, not (process_handle p w).context.running))
        (sym (process_handle-with_pending p [] w))
    ∙ ap
        (λ (c : Context).
          some (process_all ps (process_handle p (with_pending [] w)), not c.running))
        (process_handle-context p w)

-- Stopping a context returns: the handles that were posted before are resumed, each one, in the
-- order in which they were posted, and none is left.
pub stop_resumes :
    (fuel : ℕ) (w : World)
    → w.context.running ≡ true
    → length w.context.pending < fuel
    → stop fuel w
      ≡ some (
          process_all w.context.pending
            (record w { context = record (w.context) { running = false; pending = [] } }))
unfolding stop
stop_resumes fuel w on h =
    let drained =
      worker_loop_drains fuel w.context.pending
        (record w { context = record (w.context) { running = false } }) h in
    rw (on, stop) (rw drained refl)
