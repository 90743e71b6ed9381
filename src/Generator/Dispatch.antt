-- ===== src/Generator/Dispatch.antt =====
-- generators/common/TaskGenerator.cpp: the coroutines that a batch of tasks makes.
use task_messenger.Common.{
  ℕ, suc, ◌≤◌, ◌<◌, ◌≡◌, ◌≢◌, refl, ap, ◌∙◌, Bool, true, false, Option, none, some, List, [], ◌∷◌,
  arith, lookup, lookup-put, length, ◌==◌, choose, ==_refl, All,
}
use task_messenger.Message.{TaskMessage, Result, ok, throw}
use task_messenger.Queue.{TaskQueue}
use task_messenger.Generator.{
  World, Coroutine, TestTask, get_next_id, send, process_single_task, launch, dispatch_tasks,
}
use task_messenger.Generator.Ids.{ids, Distinct, ids-Distinct}

abbrev task_id_of : Option Coroutine → ℕ
task_id_of none = 0
task_id_of (some c) = c.task_id

-- The task ids of coroutines.
abbrev pub ids_at : World → List ℕ → List ℕ
ids_at w [] = []
ids_at w (h ∷ hs) = task_id_of (lookup h w.coroutines) ∷ ids_at w hs

module _ (resume : ℕ → TaskQueue → TaskQueue) where
  send_keeps :
      (h : ℕ) (c : Coroutine) (m : Result TaskMessage) (w : World)
      → ((send resume h c m w).next_handle ≡ w.next_handle)
        × ((send resume h c m w).counter ≡ w.counter)
        × ((send resume h c m w).stopped ≡ w.stopped)
  send_keeps h c (ok task) w = (refl, refl, refl)
  send_keeps h c (throw e) w = (refl, refl, refl)

  send_other :
      (h k : ℕ) (c : Coroutine) (m : Result TaskMessage) (w : World)
      → (h == k) ≡ false
      → lookup k (send resume h c m w).coroutines ≡ lookup k w.coroutines
  send_other h k c (ok task) w n = lookup-put h k c w.coroutines ∙ rw n refl
  send_other h k c (throw e) w n =
      lookup-put h k (record c { is_done = true }) w.coroutines ∙ rw n refl

  send_own :
      (h : ℕ) (c : Coroutine) (m : Result TaskMessage) (w : World)
      → task_id_of (lookup h (send resume h c m w).coroutines) ≡ c.task_id
  send_own h c (ok task) w = rw (==_refl h) refl
  send_own h c (throw e) w = rw (==_refl h) refl

  launch_keeps :
      (verifying : Bool) (t : TestTask) (w : World)
      → ((launch resume verifying t w).next_handle ≡ suc w.next_handle)
        × ((launch resume verifying t w).counter ≡ (get_next_id w.counter).0)
        × ((launch resume verifying t w).stopped ≡ w.stopped)
  unfolding process_single_task
  launch_keeps verifying t w = send_keeps w.next_handle _ _ _

  launch_own :
      (verifying : Bool) (t : TestTask) (w : World)
      → task_id_of (lookup w.next_handle (launch resume verifying t w).coroutines)
        ≡ (get_next_id w.counter).1
  unfolding process_single_task
  launch_own verifying t w = send_own w.next_handle _ _ _

  launch_other :
      (verifying : Bool) (t : TestTask) (w : World) (k : ℕ)
      → k < w.next_handle
      → lookup k (launch resume verifying t w).coroutines ≡ lookup k w.coroutines
  unfolding process_single_task
  launch_other verifying t w k below = send_other w.next_handle k _ _ _ (ground arith)

  dispatch_cons :
      (verifying : Bool) (t : TestTask) (ts : List TestTask) (w : World)
      → w.stopped ≡ false
      → dispatch_tasks resume verifying (t ∷ ts) w ≡ (
        (dispatch_tasks resume verifying ts (launch resume verifying t w)).0,
        w.next_handle ∷ (dispatch_tasks resume verifying ts (launch resume verifying t w)).1,
      )
  unfolding dispatch_tasks
  dispatch_cons verifying t ts w on = choose w.stopped _ _ on

  dispatch_other :
      (verifying : Bool) (ts : List TestTask) (w : World) (k : ℕ)
      → w.stopped ≡ false
      → k < w.next_handle
      → lookup k (dispatch_tasks resume verifying ts w).0.coroutines ≡ lookup k w.coroutines
  unfolding dispatch_tasks
  dispatch_other verifying [] w k on below = refl
  dispatch_other verifying (t ∷ ts) w k on below =
      let (next, _, same) = launch_keeps verifying t w in
      ap (λ (p : World × List ℕ). lookup k p.0.coroutines) (dispatch_cons verifying t ts w on)
      ∙ dispatch_other verifying ts (launch resume verifying t w) k (same ∙ on)
          (omega (arith, next, below))
      ∙ launch_other verifying t w k below

  -- A generator that is not stopped makes one coroutine for each task, with successive ids, whether
  -- or not a task's message can be made.
  pub dispatch_tasks-ids :
      (verifying : Bool) (ts : List TestTask) (w : World)
      → w.stopped ≡ false
      → ids_at (dispatch_tasks resume verifying ts w).0 (dispatch_tasks resume verifying ts w).1
        ≡ ids (length ts) w.counter
  unfolding dispatch_tasks ids
  dispatch_tasks-ids verifying [] w on = refl
  dispatch_tasks-ids verifying (t ∷ ts) w on =
      let (next, counted, same) = launch_keeps verifying t w in
      let w' = launch resume verifying t w in
      let own =
        ap task_id_of
          (dispatch_other verifying ts w' w.next_handle (same ∙ on) (omega (arith, next)))
        ∙ launch_own verifying t w in
      let rest = dispatch_tasks-ids verifying ts w' (same ∙ on) ∙ ap (ids (length ts)) counted in
      ap (λ (p : World × List ℕ). ids_at p.0 p.1) (dispatch_cons verifying t ts w on)
      ∙ ap
          (λ i.
            i
            ∷ ids_at (dispatch_tasks resume verifying ts w').0
                (dispatch_tasks resume verifying ts w').1)
          own
      ∙ ap (λ l. (get_next_id w.counter).1 ∷ l) rest

  -- In a batch of less than 2^32 tasks that a running generator sends, no two have one id, and none
  -- has the id 0 of an invalid task, wherever the counter stood.
  pub dispatch_tasks-Distinct :
      (verifying : Bool) (ts : List TestTask) (w : World)
      → w.stopped ≡ false
      → w.counter < 4_294_967_296
      → length ts ≤ 4_294_967_295
      → All
          (λ i. i ≢ 0)
          (ids_at (dispatch_tasks resume verifying ts w).0 (dispatch_tasks resume verifying ts w).1)
        × Distinct (
            ids_at
              (dispatch_tasks resume verifying ts w).0
              (dispatch_tasks resume verifying ts w).1)
  dispatch_tasks-Distinct verifying ts w on small few =
      rw (dispatch_tasks-ids verifying ts w on) (ids-Distinct (length ts) w.counter small few)
