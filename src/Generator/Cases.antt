-- ===== src/Generator/Cases.antt =====
-- generators/common/SkillTestIterator.cpp and the generators' own turns: the test cases of all the
-- skills, one after another and from the start again, and when they are sent.
use native.Mathlib.Nat.{mod_self, mod-eq_of_lt}
use task_messenger.Common.{
  ℕ, zero, suc, ◌+◌, ◌%◌, ◌≤◌, ◌≡◌, refl, ap, sym, ◌∙◌, Bool, not, Option, none, some, List, [],
  ◌∷◌, ◌++◌, arith, length, length-append, keep, ltb, if◌then◌else◌, append_assoc,
}
use task_messenger.Message.{PayloadBuffer}
use task_messenger.Queue.{TaskQueue}
use task_messenger.Skills.{
  SkillRegistry, skill_ids, get_test_case_count, create_test_request_buffer, create_response_buffer,
}
use task_messenger.Generator.{World, TestTask, dispatch_tasks, is_finished}

pub record SkillTestIterator : Type 0 where
  pub entries : List (ℕ × ℕ)
  pub cursor : ℕ

abbrev cases_from : ℕ → ℕ → ℕ → List (ℕ × ℕ)
cases_from skill zero case_index = []
cases_from skill (suc n) case_index = (skill, case_index) ∷ cases_from skill n (suc case_index)

abbrev all_cases : SkillRegistry → List ℕ → List (ℕ × ℕ)
all_cases r [] = []
all_cases r (skill ∷ skills) =
    cases_from skill (get_test_case_count r skill) 0 ++ all_cases r skills

abbrev pub new_iterator : SkillRegistry → SkillTestIterator
new_iterator r = record { entries = all_cases r (skill_ids r); cursor = 0 }

abbrev pub entry_at : ℕ → List (ℕ × ℕ) → Option (ℕ × ℕ)
entry_at i [] = none
entry_at zero (e ∷ es) = some e
entry_at (suc i) (e ∷ es) = entry_at i es

-- A case whose buffers cannot be made gives no task.
abbrev with_response : ℕ → PayloadBuffer → Option PayloadBuffer → List TestTask
with_response skill request none = []
with_response skill request (some response) =
    record { skill = skill; request = some request; response = some response } ∷ []

abbrev with_request : SkillRegistry → ℕ → Option PayloadBuffer → List TestTask
with_request r skill none = []
with_request r skill (some request) =
    with_response skill request (create_response_buffer r skill request.bytes)

abbrev pub made : SkillRegistry → Option (ℕ × ℕ) → List TestTask
made r none = []
made r (some (skill, case_index)) =
    with_request r skill (create_test_request_buffer r skill case_index)

-- `next`: its loop, and what it gives.
pub next_loop : SkillRegistry → ℕ → SkillTestIterator → SkillTestIterator × List TestTask
next_loop r zero it = (it, [])
next_loop r (suc count) it =
    let (it', tasks) =
      next_loop r count (record it { cursor = (it.cursor + 1) % length it.entries }) in
    (it', made r (entry_at it.cursor it.entries) ++ tasks)

abbrev pub next : SkillRegistry → ℕ → SkillTestIterator → SkillTestIterator × List TestTask
next r count it = elim it.entries [ [] ↦ (it, []) | ◌∷◌ _ _ ↦ next_loop r count it ]

abbrev pub reset : SkillTestIterator → SkillTestIterator
reset it = record it { cursor = 0 }

-- The tasks of a list of cases, each made once.
abbrev pub made_all : SkillRegistry → List (ℕ × ℕ) → List TestTask
made_all r [] = []
made_all r (e ∷ es) = made r (some e) ++ made_all r es

entry_after :
    (before after : List (ℕ × ℕ)) (e : ℕ × ℕ)
    → entry_at (length before) (before ++ e ∷ after) ≡ some e
entry_after [] after e = refl
entry_after (b ∷ before) after e = entry_after before after e

entry_here :
    (before after es : List (ℕ × ℕ)) (e : ℕ × ℕ)
    → before ++ e ∷ after ≡ es
    → (entry_at (length before) es ≡ some e) × (length before + suc (length after) ≡ length es)
entry_here before after es e same = (
  ap (entry_at (length before)) (sym same) ∙ entry_after before after e,
  sym (length-append before (e ∷ after)) ∙ ap length same,
)

next_step :
    (r : SkillRegistry) (n c c' : ℕ) (es : List (ℕ × ℕ)) (e : ℕ × ℕ)
    → entry_at c es ≡ some e
    → (c + 1) % length es ≡ c'
    → next_loop r (suc n) (record { entries = es; cursor = c }) ≡ (
      (next_loop r n (record { entries = es; cursor = c' })).0,
      made r (some e) ++ (next_loop r n (record { entries = es; cursor = c' })).1,
    )
unfolding next_loop
next_step r n c c' es e here there = rw (here, there) refl

next_none :
    (r : SkillRegistry) (it : SkillTestIterator) (tasks : List TestTask)
    → ◌≡◌ {A = SkillTestIterator × List TestTask}
        ((next_loop r zero it).0, tasks ++ (next_loop r zero it).1)
        (it, tasks ++ [])
unfolding next_loop
next_none r it tasks = refl

next_rest :
    (r : SkillRegistry) (before after : List (ℕ × ℕ)) (es : List (ℕ × ℕ))
    → before ++ after ≡ es
    → 1 ≤ length after
    → next_loop r (length after) (record { entries = es; cursor = length before })
      ≡ (record { entries = es; cursor = 0 }, made_all r after)
next_rest r before [] es e h = absurd (omega arith)
next_rest r before (x ∷ []) es e h =
    let (here, whole) = entry_here before [] es x e in
    let last : length before + 1 ≡ length es = omega (arith, whole) in
    next_step r 0 (length before) 0 es x here (ap (λ n. n % length es) last ∙ mod_self (length es))
    ∙ next_none r (record { entries = es; cursor = 0 }) (made r (some x))
next_rest r before (x ∷ y ∷ after) es e h =
    let (here, whole) = entry_here before (y ∷ after) es x e in
    let later = length-append before (x ∷ []) in
    let rest =
      next_rest r (before ++ x ∷ []) (y ∷ after) es (append_assoc before (x ∷ []) (y ∷ after) ∙ e)
        (omega arith) in
    next_step r (length (y ∷ after)) (length before) (length (before ++ x ∷ [])) es x here
      (mod-eq_of_lt (omega (arith, whole)) ∙ omega (arith, later))
    ∙ ap (λ (p : SkillTestIterator × List TestTask). (p.0, made r (some x) ++ p.1)) rest

-- From its start, a turn over as many cases as there are takes each case of each skill once, in
-- order, and comes back to the start.
pub next_covers :
    (r : SkillRegistry) (e : ℕ × ℕ) (es : List (ℕ × ℕ))
    → next r (length (e ∷ es)) (record { entries = e ∷ es; cursor = 0 })
      ≡ (record { entries = e ∷ es; cursor = 0 }, made_all r (e ∷ es))
next_covers r e es = next_rest r [] (e ∷ es) (e ∷ es) refl (omega arith)

module _ (resume : ℕ → TaskQueue → TaskQueue) (r : SkillRegistry) (verifying : Bool) where
  abbrev pub pending_of : World → List ℕ → List ℕ
  pending_of w handles = keep (λ h. not (is_finished w h)) handles

  -- One turn of `AutoRefillGenerator::run`: the coroutines that have ended go, and 100 tasks come
  -- when fewer than 10 are queued.
  pub refill_turn : SkillTestIterator → World → List ℕ → SkillTestIterator × World × List ℕ
  refill_turn it w pending =
      let kept = pending_of w pending in
      let (it', tasks) = next r 100 it in
      let (w', handles) = dispatch_tasks resume verifying tasks w in
      if ltb (length w.queue.tasks) 10 then (it', w', kept ++ handles) else (it, w, kept)

  -- One entry of `InteractiveGenerator::run`: none where the user quits.
  pub interactive_turn : ℕ → SkillTestIterator → World → Option (SkillTestIterator × World × List ℕ)
  interactive_turn zero it w = none
  interactive_turn (suc n) it w =
      let (it', tasks) = next r (suc n) it in
      let (w', handles) = dispatch_tasks resume verifying tasks w in some (it', w', handles)
