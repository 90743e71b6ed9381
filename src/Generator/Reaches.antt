-- ===== src/Generator/Reaches.antt =====
-- message/ResponseContext.hpp and generators/common/TaskGenerator.cpp: an answer and the coroutine
-- that waits for it.
use task_messenger.Common.{
  ℕ, suc, ◌+◌, ◌<◌, ◌≡◌, refl, ap, ◌∙◌, Bool, true, false, not, Option, none, some, List, [], ◌∷◌,
  ◌++◌, arith, All, lookup, put, lookup-put, choose, length, length-append, if_both, ◌==◌, ==_refl,
}
use task_messenger.Message.{PayloadBuffer}
use task_messenger.Generator.{
  World, Source, Coroutine, Verification, check_answer, finish_coroutine, process_handle,
  worker_loop, post, complete, worker_turn, is_finished, all_done,
}
use task_messenger.Generator.Answers.{process_all, with_pending, worker_loop_drains}

finish_other :
    (h k : ℕ) (o : Option Coroutine) (w : World)
    → (h == k) ≡ false
    → (lookup k (finish_coroutine h o w).coroutines ≡ lookup k w.coroutines)
      × ((finish_coroutine h o w).sources ≡ w.sources)
finish_other h k none w n = (refl, refl)
finish_other h k (some c) w n =
    if_both (λ v. (lookup k v.coroutines ≡ lookup k w.coroutines) × (v.sources ≡ w.sources))
      c.is_done w _ (refl, refl)
      (lookup-put h k (record c { is_done = true }) w.coroutines ∙ rw n refl, refl)

-- The other handles leave a coroutine and its source alone.
process_all_other :
    (k : ℕ) (ps : List ℕ) (w : World)
    → All (λ p. (p == k) ≡ false) ps
    → (lookup k (process_all ps w).coroutines ≡ lookup k w.coroutines)
      × ((process_all ps w).sources ≡ w.sources)
unfolding process_handle
process_all_other k [] w n = (refl, refl)
process_all_other k (p ∷ ps) w n =
    let (c, s) = finish_other p k (lookup p w.coroutines) w n.0 in
    let (c', s') = process_all_other k ps (process_handle p w) n.1 in (c' ∙ c, s' ∙ s)

process_all-snoc :
    (ps : List ℕ) (h : ℕ) (w : World)
    → process_all (ps ++ h ∷ []) w ≡ process_handle h (process_all ps w)
process_all-snoc [] h w = refl
process_all-snoc (p ∷ ps) h w = process_all-snoc ps h (process_handle p w)

-- The source of an answered task.
abbrev pub answered : ℕ → ℕ → List ℕ → Bool → Source → Source
answered task_id skill_id body success source = record source {
  response_task_id = task_id;
  response_skill_id = skill_id;
  response_body = body;
  success = success;
  completed = true;
}

complete_posts :
    (h task_id skill_id : ℕ) (body : List ℕ) (success : Bool) (source : Source) (w : World)
    → w.context.running ≡ true
    → lookup h w.sources ≡ some source
    → source.awaiting_handle ≡ some h
    → source.response_context ≡ true
    → complete h task_id skill_id body success w
      ≡ with_pending
          (w.context.pending ++ h ∷ [])
          (record w { sources = put h (answered task_id skill_id body success source) w.sources })
unfolding complete post
complete_posts h task_id skill_id body success source w on at mine here =
    simp (at, mine, here, on) refl

complete_drops :
    (h task_id skill_id : ℕ) (body : List ℕ) (success : Bool) (source : Source) (w : World)
    → w.context.running ≡ false
    → lookup h w.sources ≡ some source
    → source.awaiting_handle ≡ some h
    → source.response_context ≡ true
    → complete h task_id skill_id body success w
      ≡ record w { sources = put h (answered task_id skill_id body success source) w.sources }
unfolding complete post
complete_drops h task_id skill_id body success source w off at mine here =
    simp (at, mine, here, off) refl

idle_ends :
    (fuel : ℕ) (w : World)
    → w.context.running ≡ false
    → w.context.pending ≡ []
    → worker_loop (suc fuel) w ≡ some (w, true)
unfolding worker_loop
idle_ends fuel w off empty =
    let turn = ap (λ b. worker_turn b w.context.pending) off ∙ ap (worker_turn false) empty in
    rw (turn, worker_loop) refl

-- A coroutine that runs to its end.
abbrev ended : ℕ → Coroutine → World → World
ended h c w = record w {
  coroutines = put h (record c { is_done = true }) w.coroutines;
  verified = w.verified ++ check_answer (lookup h w.sources) c;
}

process_handle-ended :
    (h : ℕ) (c : Coroutine) (w : World)
    → lookup h w.coroutines ≡ some c
    → c.is_done ≡ false
    → process_handle h w ≡ ended h c w
unfolding process_handle
process_handle-ended h c w at live = ap (λ o. finish_coroutine h o w) at ∙ choose c.is_done w _ live

is_finished-ended : (h : ℕ) (c : Coroutine) (w : World) → is_finished (ended h c w) h ≡ true
is_finished-ended h c w = rw (==_refl h, is_finished) refl

-- What the coroutine asks the verification of an answer.
abbrev pub verification : Coroutine → PayloadBuffer → List ℕ → Verification
verification c request body = record {
  task_id = c.task_id;
  skill_id = c.skill_id;
  request = request.bytes;
  response = body;
}

check_answer_copied :
    (o : Option Source) (c : Coroutine) (request : PayloadBuffer) (source : Source)
    → o ≡ some source
    → c.request_copy ≡ some request
    → source.success ≡ true
    → check_answer o c ≡ verification c request source.response_body ∷ []
check_answer_copied o c request source from copy good = rw from (rw copy (rw good refl))

-- An answer that is posted behind others, none of them for the same coroutine, reaches its
-- coroutine: once the worker has run, the coroutine has ended and has checked this response
-- against its own request.
pub answer_reaches :
    (fuel h skill_id : ℕ) (body : List ℕ) (source : Source) (c : Coroutine)
    (request : PayloadBuffer) (w : World)
    → w.context.running ≡ true
    → All (λ p. (p == h) ≡ false) w.context.pending
    → lookup h w.sources ≡ some source
    → source.awaiting_handle ≡ some h
    → source.response_context ≡ true
    → lookup h w.coroutines ≡ some c
    → c.is_done ≡ false
    → c.request_copy ≡ some request
    → length w.context.pending + 1 < fuel
    → (w' : World) × (earlier : List Verification) × (worker_loop fuel
          (complete h c.task_id skill_id body true w)
        ≡ some (w', false))
      × (is_finished w' h ≡ true)
      × (w'.verified ≡ earlier ++ verification c request body ∷ [])
answer_reaches fuel h skill_id body source c request w on others at mine here waits live copy
      enough =
    let put_in = record w {
      sources = put h (answered c.task_id skill_id body true source) w.sources;
    } in
    let rest = process_all w.context.pending (with_pending [] put_in) in
    let (same, sources) = process_all_other h w.context.pending (with_pending [] put_in) others in
    let run =
      ap (worker_loop fuel) (complete_posts h c.task_id skill_id body true source w on at mine here)
      ∙ worker_loop_drains fuel (w.context.pending ++ h ∷ []) put_in
          (omega (arith, length-append w.context.pending (h ∷ []), enough))
      ∙ ap (λ b. some (process_all (w.context.pending ++ h ∷ []) (with_pending [] put_in), not b))
          on
      ∙ ap (λ v. some (v, false))
          (process_all-snoc w.context.pending h (with_pending [] put_in)
            ∙ process_handle-ended h c rest (same ∙ waits) live) in
    (
      ended h c rest,
      rest.verified,
      run,
      is_finished-ended h c rest,
      ap (λ vs. rest.verified ++ vs)
          (check_answer_copied (lookup h rest.sources) c request
            (answered c.task_id skill_id body true source)
            (ap (lookup h) sources ∙ lookup-put h h _ w.sources ∙ rw (==_refl h) refl) copy refl),
    )

-- An answer that comes after the context has stopped is kept in its source, but its coroutine is
-- not resumed then, nor by any later run of a worker: it never ends.
pub complete_after_stop_strands :
    (fuel h skill_id : ℕ) (body : List ℕ) (success : Bool) (source : Source) (c : Coroutine)
    (w : World)
    → w.context.running ≡ false
    → w.context.pending ≡ []
    → lookup h w.sources ≡ some source
    → source.awaiting_handle ≡ some h
    → source.response_context ≡ true
    → lookup h w.coroutines ≡ some c
    → c.is_done ≡ false
    → (w' : World) × (worker_loop (suc fuel) (complete h c.task_id skill_id body success w)
        ≡ some (w', true))
      × (lookup h w'.sources ≡ some (answered c.task_id skill_id body success source))
      × (all_done w' (h ∷ []) ≡ false)
unfolding all_done
complete_after_stop_strands fuel h skill_id body success source c w off none_left at mine here waits
      live =
    let put_in = record w {
      sources = put h (answered c.task_id skill_id body success source) w.sources;
    } in
    (
      put_in,
      ap (worker_loop (suc fuel))
            (complete_drops h c.task_id skill_id body success source w off at mine here)
          ∙ idle_ends fuel put_in off none_left,
      lookup-put h h _ w.sources ∙ rw (==_refl h) refl,
      rw waits (rw live refl),
    )
