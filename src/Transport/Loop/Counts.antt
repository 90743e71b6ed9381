-- ===== src/Transport/Loop/Counts.antt =====
-- transport/coro/coroIoContext.cpp: the statistics agree with each other.
use task_messenger.Common.{
  ℕ, zero, suc, ◌+◌, ◌≤◌, ◌<◌, ◌≡◌, refl, Option, none, some, List, [], ◌∷◌, arith, ltb, length,
  weigh, if_both, if◌then◌else◌,
}
use task_messenger.Transport.Loop.{
  Category, generic_category, read_category, read_header_category, write_category, timer_category,
  PendingOp, Statistics, IoContext, increment, bucket, record_completion, is_complete, Surroundings,
  resume, process_each, process_pending_ops, lower,
}

-- All that a histogram has counted.
abbrev total : List ℕ → ℕ
total ns = weigh (λ n. n) ns

abbrev all_counted : (Category → List ℕ) → ℕ
all_counted h =
    total (h generic_category)
    + total (h read_category)
    + total (h read_header_category)
    + total (h write_category)
    + total (h timer_category)

abbrev HasRange : Option ℕ → ℕ → Type 0
HasRange none max = Unit {0}
HasRange (some min) max = min ≤ max

-- The histograms have `size` buckets and together hold the completed operations, and the least
-- count of failures is not above the greatest.
abbrev pub Agrees : ℕ → Statistics → Type 0
Agrees size s =
    ((c : Category) → length (s.histogram c) ≡ size)
    × (all_counted s.histogram ≡ s.completed_ops_for_avg)
    × HasRange s.min_failures_before_success s.max_failures_before_success

length-increment : (i : ℕ) (ns : List ℕ) → length (increment i ns) ≡ length ns
length-increment zero [] = refl
length-increment (suc i) [] = refl
length-increment zero (n ∷ ns) = refl
length-increment (suc i) (n ∷ ns) = omega (arith, length-increment i ns)

total-increment : (i : ℕ) (ns : List ℕ) → i < length ns → total (increment i ns) ≡ suc (total ns)
total-increment zero [] h = absurd (omega arith)
total-increment (suc i) [] h = absurd (omega arith)
total-increment zero (n ∷ ns) h = omega arith
total-increment (suc i) (n ∷ ns) h = omega (arith, total-increment i ns (omega arith))

bucket_lem : (size failures : ℕ) → 0 < size → bucket size failures < size
bucket_lem size failures h = ground arith

range_lem :
    (n max : ℕ) (o : Option ℕ)
    → HasRange o max
    → HasRange (lower n o) (if ltb max n then n else max)
range_lem n max none h = ground arith
range_lem n max (some m) h = ground arith

-- Counting one more operation of the category.
all_counted-record :
    (size : ℕ) (k : Category) (n : ℕ) (s : Statistics)
    → 0 < size
    → ((c : Category) → length (s.histogram c) ≡ size)
    → all_counted (record_completion size k n s).histogram ≡ suc (all_counted s.histogram)
all_counted-record size generic_category n s p sizes = omega (
  arith,
  total-increment (bucket size n) (s.histogram generic_category)
      (rw (sizes generic_category) (bucket_lem size n p)),
)
all_counted-record size read_category n s p sizes = omega (
  arith,
  total-increment (bucket size n) (s.histogram read_category)
      (rw (sizes read_category) (bucket_lem size n p)),
)
all_counted-record size read_header_category n s p sizes = omega (
  arith,
  total-increment (bucket size n) (s.histogram read_header_category)
      (rw (sizes read_header_category) (bucket_lem size n p)),
)
all_counted-record size write_category n s p sizes = omega (
  arith,
  total-increment (bucket size n) (s.histogram write_category)
      (rw (sizes write_category) (bucket_lem size n p)),
)
all_counted-record size timer_category n s p sizes = omega (
  arith,
  total-increment (bucket size n) (s.histogram timer_category)
      (rw (sizes timer_category) (bucket_lem size n p)),
)

record_completion-Agrees :
    (size : ℕ) (k : Category) (n : ℕ) (s : Statistics)
    → 0 < size
    → Agrees size s
    → Agrees size (record_completion size k n s)
record_completion-Agrees size k n s p (sizes, counts, range) = (
  (λ c. ground (arith, length-increment (bucket size n) (s.histogram c), sizes c)),
  omega (arith, all_counted-record size k n s p sizes),
  range_lem n s.max_failures_before_success s.min_failures_before_success range,
)

resume-Agrees :
    (env : Surroundings) (size : ℕ) (op : PendingOp) (o : Option ℕ) (c : IoContext)
    → 0 < size
    → Agrees size c.statistics
    → Agrees size (resume env size op o c).statistics
resume-Agrees env size op none c p a = a
resume-Agrees env size op (some h) c p a =
    if_both (λ (c' : IoContext). Agrees size c'.statistics) (env.has_ended h) _ _ a
      (record_completion-Agrees size op.category op.attempts c.statistics p a)

each-Agrees :
    (env : Surroundings) (size : ℕ) (ops : List PendingOp) (c : IoContext)
    → 0 < size
    → Agrees size c.statistics
    → Agrees size (process_each env size ops c).0.statistics
unfolding process_each
each-Agrees env size [] c p a = a
each-Agrees env size (op ∷ ops) c p a = each-Agrees env size ops _ p (
    if_both (λ (c' : IoContext). Agrees size c'.statistics) (is_complete (env.poll op.try_complete))
      _ _ (resume-Agrees env size op op.handle c p a) a)

-- A round keeps the statistics in agreement: the histograms keep their sizes and together hold as
-- many entries as operations were completed, and the least count of failures is not above the
-- greatest.
pub process_pending_ops-Agrees :
    (env : Surroundings) (size : ℕ) (c : IoContext)
    → 0 < size
    → Agrees size c.statistics
    → Agrees size (process_pending_ops env size c).statistics
unfolding process_pending_ops
process_pending_ops-Agrees env size c p a =
    each-Agrees env size c.pending_ops (record c { pending_ops = [] }) p a
