-- ===== src/Server/Maintenance.antt =====
-- dispatcher/transport/AsyncTransportServer.cpp: how often maintenance runs, and what it leaves.
use task_messenger.Common.{
  ℕ, ◌+◌, ◌-◌, ◌*◌, ◌≤◌, ◌≡◌, refl, ap, inl, inr, true, false, List, [], ◌∷◌, arith, All,
  Bool-cases, leb→le, if◌then◌else◌,
}
use task_messenger.Server.{TransportServer, Outside, interval, is_due, maybe_run_maintenance}

-- Maintenance is asked for again and again: the server, and how often it ran.
abbrev pub maintain : List Outside → TransportServer → TransportServer × ℕ
maintain [] s = (s, 0)
maintain (o ∷ os) s =
    let (s', runs) = maintain os (maybe_run_maintenance o s) in
    (s', runs + (if is_due o.around.now.steady s then 1 else 0))

due_later :
    (now : ℕ) (s : TransportServer) → is_due now s ≡ true → s.last_maintenance_run + interval ≤ now
unfolding is_due
due_later now s e = omega (arith, leb→le interval (now - s.last_maintenance_run) e)

maybe_due :
    (o : Outside) (s : TransportServer)
    → is_due o.around.now.steady s ≡ true
    → (maybe_run_maintenance o s).last_maintenance_run ≡ o.around.now.steady
unfolding maybe_run_maintenance
maybe_due o s e = rw (e, maybe_run_maintenance) refl

maybe_early :
    (o : Outside) (s : TransportServer)
    → is_due o.around.now.steady s ≡ false
    → maybe_run_maintenance o s ≡ s
unfolding maybe_run_maintenance
maybe_early o s e = rw (e, maybe_run_maintenance) refl

-- However often and from wherever it is asked for, maintenance runs at most once a second: by the
-- time `t`, no more often than a second fits since the start.
pub maintain_throttled :
    (os : List Outside) (s : TransportServer) (t : ℕ)
    → s.last_maintenance_run ≤ t
    → All (λ (o : Outside). o.around.now.steady ≤ t) os
    → s.last_maintenance_run + (maintain os s).1 * 1_000_000_000 ≤ t
maintain_throttled [] s t h a = omega arith
maintain_throttled (o ∷ os) s t h a = elim (Bool-cases (is_due o.around.now.steady s)) [
  | inl e ↦
      let at = maybe_due o s e in
      let rest = maintain_throttled os (maybe_run_maintenance o s) t (omega (arith, at, a.0)) a.1 in
      rw e (omega (arith, rest, at, due_later o.around.now.steady s e))
  | inr e ↦
      let same = maybe_early o s e in
      let rest = maintain_throttled os (maybe_run_maintenance o s) t (rw same h) a.1 in
      rw e (omega (arith, rest, ap (λ (r : TransportServer). r.last_maintenance_run) same))
]
