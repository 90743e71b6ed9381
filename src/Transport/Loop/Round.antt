-- ===== src/Transport/Loop/Round.antt =====
-- transport/coro/coroIoContext.cpp: what one round of `process_pending_ops` does.
use task_messenger.Common.{
  ℕ, ◌≡◌, refl, sym, inl, inr, Option, none, some, List, [], ◌∷◌, ◌++◌, arith, append_assoc,
  append-nil, if◌then◌else◌, Bool-cases, false, true, not,
}
use task_messenger.Transport.Loop.{
  PendingOp, IoContext, is_complete, retried, Surroundings, resume, process_each,
  process_pending_ops, is_empty, poll_wait_done, run_wait_done,
}

-- The operations whose predicate is not true yet, each with one more attempt.
abbrev pub left_over : Surroundings → List PendingOp → List PendingOp
left_over env [] = []
left_over env (op ∷ ops) =
    if is_complete (env.poll op.try_complete)
    then left_over env ops
    else retried op ∷ left_over env ops

abbrev live_handle : Surroundings → Option ℕ → List ℕ
live_handle env none = []
live_handle env (some h) = if env.has_ended h then [] else h ∷ []

-- The coroutines to resume: those of the complete operations that have not ended.
abbrev pub woken : Surroundings → List PendingOp → List ℕ
woken env [] = []
woken env (op ∷ ops) =
    if is_complete (env.poll op.try_complete)
    then live_handle env op.handle ++ woken env ops
    else woken env ops

abbrev pub registered : Surroundings → List ℕ → List PendingOp
registered env [] = []
registered env (h ∷ hs) = env.registers h ++ registered env hs

each_requeues :
    (env : Surroundings) (size : ℕ) (ops : List PendingOp) (c : IoContext)
    → (process_each env size ops c).1 ≡ left_over env ops
unfolding process_each
each_requeues env size [] c = refl
each_requeues env size (op ∷ ops) c = ground (
  arith,
  each_requeues env size ops c,
  each_requeues env size ops (resume env size op op.handle c),
)

registered-append :
    (env : Surroundings) (hs ks : List ℕ)
    → registered env (hs ++ ks) ≡ registered env hs ++ registered env ks
registered-append env [] ks = refl
registered-append env (h ∷ hs) ks =
    rw (registered-append env hs ks)
      (sym (append_assoc (env.registers h) (registered env hs) (registered env ks)))

-- What a resumption adds: to the pending operations and to the resumed coroutines.
resume_adds :
    (env : Surroundings) (size : ℕ) (op : PendingOp) (o : Option ℕ) (c : IoContext)
    → let c' = resume env size op o c in
      (c'.pending_ops ≡ c.pending_ops ++ registered env (live_handle env o))
      × (c'.resumed ≡ c.resumed ++ live_handle env o)
resume_adds env size op none c = (sym (append-nil c.pending_ops), sym (append-nil c.resumed))
resume_adds env size op (some h) c =
    ground (arith, append-nil c.pending_ops, append-nil c.resumed, append-nil (env.registers h))

each_adds :
    (env : Surroundings) (size : ℕ) (ops : List PendingOp) (c : IoContext)
    → let c' = (process_each env size ops c).0 in
      (c'.pending_ops ≡ c.pending_ops ++ registered env (woken env ops))
      × (c'.resumed ≡ c.resumed ++ woken env ops)
unfolding process_each
each_adds env size [] c = (sym (append-nil c.pending_ops), sym (append-nil c.resumed))
each_adds env size (op ∷ ops) c = elim (Bool-cases (is_complete (env.poll op.try_complete))) [
  | inr waits ↦ ground (arith, each_adds env size ops c)
  | inl hit ↦
      let one = live_handle env op.handle in
      let (adds, wakes) = resume_adds env size op op.handle c in
      let (adds', wakes') = each_adds env size ops (resume env size op op.handle c) in
      simp hit (
        rw (adds', adds, registered-append env one (woken env ops))
            (append_assoc c.pending_ops (registered env one) (registered env (woken env ops))),
        rw (wakes', wakes) (append_assoc c.resumed one (woken env ops)),
      )
]

-- One round tries each pending operation once: it resumes the coroutines of those that are complete
-- and have not ended, in order, and loses no other: afterwards there are pending what those
-- coroutines registered and, behind it, the operations that are not complete, in order, each with
-- one more attempt.
pub process_round :
    (env : Surroundings) (size : ℕ) (c : IoContext)
    → let c' = process_pending_ops env size c in
      (c'.resumed ≡ c.resumed ++ woken env c.pending_ops)
      × (c'.pending_ops ≡ registered env (woken env c.pending_ops) ++ left_over env c.pending_ops)
unfolding process_pending_ops
process_round env size c =
    let (adds, wakes) = each_adds env size c.pending_ops (record c { pending_ops = [] }) in
    (wakes, rw (adds, each_requeues env size c.pending_ops (record c { pending_ops = [] })) refl)

append_nonempty : (xs ys : List PendingOp) → is_empty ys ≡ false → not (is_empty (xs ++ ys)) ≡ true
append_nonempty [] [] h = absurd (cc)
append_nonempty [] (y ∷ ys) h = refl
append_nonempty (x ∷ xs) ys h = refl

-- While an operation that was tried is not complete, the next timed wait of `poll_once_for` comes
-- back at once, and so does that of `run`.
pub process_round_spins :
    (env : Surroundings) (size : ℕ) (c : IoContext)
    → is_empty (left_over env c.pending_ops) ≡ false
    → (poll_wait_done (process_pending_ops env size c) ≡ true)
      × (run_wait_done (process_pending_ops env size c) ≡ true)
process_round_spins env size c h =
    let (_, left) = process_round env size c in
    let full =
      append_nonempty (registered env (woken env c.pending_ops)) (left_over env c.pending_ops) h in
    let waits : not (is_empty (process_pending_ops env size c).pending_ops) ≡ true = rw left full in
    (waits, ground arith)
