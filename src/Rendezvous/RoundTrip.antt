-- ===== src/Rendezvous/RoundTrip.antt =====
-- rendezvous/RendezvousProtocol.hpp: what is written is what is read, however it is cut up.
use task_messenger.Common.{
  ℕ, zero, suc, ◌-◌, ◌≤◌, ◌<◌, ◌≡◌, refl, ap, ◌∙◌, ◌⊎◌, inl, inr, none, false, List, [], ◌∷◌, ◌++◌,
  append_assoc, append-nil, arith, length, take, drop, All, length-take, length-drop, length-append,
  take_twice, drop_twice, take-append, drop-append,
}
use task_messenger.Transport.Blocking.{Stream, is_waiting, read_some, limit, rest_of}
use task_messenger.Rendezvous.Frame.{
  Outcome, ok, read_exact_from, read_exact, write_exact_from, write_exact,
}

-- Every read moves a byte at least, and every write.
abbrev pub Moves : Stream → Type 0
Moves s = All (λ c. 0 < c) s.chunks × All (λ c. 0 < c) s.takes

-- The stream when `size` bytes have been read, and `cs` is what is left of the sizes of reads.
abbrev advanced : ℕ → List ℕ → Stream → Stream
advanced size cs s = record s { incoming = drop size s.incoming; chunks = cs }

limit_lem :
    (cs : List ℕ) (n : ℕ) → All (λ c. 0 < c) cs → 0 < n → (0 < limit cs n) × (limit cs n ≤ n)
limit_lem [] n p h = ground arith
limit_lem (c ∷ cs) n p h = ground arith

rest_lem : (cs : List ℕ) → All (λ c. 0 < c) cs → All (λ c. 0 < c) (rest_of cs)
rest_lem [] p = tt
rest_lem (c ∷ cs) p = p.1

List-cases : (xs : List ℕ) → (xs ≡ []) ⊎ ((b : ℕ) × (bs : List ℕ) × (xs ≡ b ∷ bs))
List-cases [] = inl refl
List-cases (b ∷ bs) = inr (b, bs, refl)

read_some_lem :
    (size : ℕ) (s : Stream)
    → All (λ c. 0 < c) s.chunks
    → 0 < size
    → size ≤ length s.incoming
    → let k = limit s.chunks size in
      read_some size s ≡ ((take k s.incoming, none), advanced k (rest_of s.chunks) s)
read_some_lem size s p h l = elim (List-cases s.incoming) [
  | inl e ↦ absurd (ground arith)
  | inr (b, bs, e) ↦ ground (arith, e)
]

-- A stream with bytes left does not wait.
busy_lem : (s : Stream) → 0 < length s.incoming → is_waiting s ≡ false
busy_lem s h = elim (List-cases s.incoming) [
  | inl e ↦ absurd (ground arith)
  | inr (b, bs, e) ↦ rw e refl
]

read_exact_from_step :
    (fuel remaining : ℕ) (got : List ℕ) (s : Stream) (bs : List ℕ) (k : ℕ) (s' : Stream)
    → 0 < remaining
    → is_waiting s ≡ false
    → read_some remaining s ≡ ((bs, none), s')
    → length bs ≡ k
    → 0 < k
    → read_exact_from (suc fuel) remaining got s
      ≡ read_exact_from fuel (remaining - k) (got ++ bs) s'
unfolding read_exact_from
read_exact_from_step fuel remaining got s bs k s' h a e m l = ground (arith, a, e)

finish :
    (k n : ℕ) (got cs : List ℕ) (s : Stream)
    → k ≤ n
    → ◌≡◌ {A = Outcome (List ℕ) × Stream}
        (
          ok ((got ++ take k s.incoming) ++ take (n - k) (drop k s.incoming)),
          advanced (n - k) cs (advanced k [] s),
        )
        (ok (got ++ take n s.incoming), advanced n cs s)
finish k n got cs s h =
    rw
      (
        append_assoc got (take k s.incoming) (take (n - k) (drop k s.incoming)),
        take_twice k n s.incoming h,
        drop_twice k n s.incoming h,
      )
      refl

read_exact_from_lem :
    (fuel remaining : ℕ) (got : List ℕ) (s : Stream)
    → All (λ c. 0 < c) s.chunks
    → remaining ≤ length s.incoming
    → remaining ≤ fuel
    → (cs : List ℕ) × All (λ c. 0 < c) cs
      × (read_exact_from fuel remaining got s
          ≡ (ok (got ++ take remaining s.incoming), advanced remaining cs s))
unfolding read_exact_from
read_exact_from_lem zero zero got s p l f = (s.chunks, p, rw (append-nil got) refl)
read_exact_from_lem (suc fuel) zero got s p l f = (s.chunks, p, rw (append-nil got) refl)
read_exact_from_lem zero (suc n) got s p l f = absurd (omega arith)
read_exact_from_lem (suc fuel) (suc n) got s p l f =
    let k = limit s.chunks (suc n) in
    let (pos, fits) = limit_lem s.chunks (suc n) p (omega arith) in
    let got_k : length (take k s.incoming) ≡ k = length-take k s.incoming (omega arith) in
    let (cs, q, e) =
      read_exact_from_lem fuel (suc n - k) (got ++ take k s.incoming)
        (advanced k (rest_of s.chunks) s) (rest_lem s.chunks p)
        (omega (arith, length-drop k s.incoming)) (omega arith) in
    let first =
      read_exact_from_step fuel (suc n) got s (take k s.incoming) k
        (advanced k (rest_of s.chunks) s) (omega arith) (busy_lem s (omega arith))
        (read_some_lem (suc n) s p (omega arith) l) got_k pos in
    (cs, q, first ∙ (e ∙ finish k (suc n) got cs s fits))

-- What is read when the stream starts with `bs`, and what is left.
pub read_exact_lem :
    (bs rest : List ℕ) (s : Stream)
    → All (λ c. 0 < c) s.chunks
    → s.incoming ≡ bs ++ rest
    → (cs : List ℕ) × All (λ c. 0 < c) cs
      × (read_exact (length bs) s ≡ (ok bs, record s { incoming = rest; chunks = cs }))
unfolding read_exact
read_exact_lem bs rest s p e =
    let (cs, q, done) =
      read_exact_from_lem (length bs) (length bs) [] s p
        (rw e (omega (arith, length-append bs rest))) (omega arith) in
    (cs, q, done ∙ simp e (rw (take-append bs rest, drop-append bs rest) refl))

write_exact_from_step :
    (fuel : ℕ) (bs : List ℕ) (s : Stream)
    → s.write_fault ≡ none
    → 0 < length bs
    → 0 < limit s.takes (length bs)
    → let n = limit s.takes (length bs) in
      write_exact_from (suc fuel) bs s
      ≡ write_exact_from fuel
          (drop n bs)
          (record s { outgoing = s.outgoing ++ take n bs; takes = rest_of s.takes })
unfolding write_exact_from
write_exact_from_step fuel bs s h l k = ground (arith, h)

take_all : (k : ℕ) (bs : List ℕ) → k ≤ length bs → take k bs ++ drop k bs ≡ bs
take_all zero bs h = refl
take_all (suc k) [] h = refl
take_all (suc k) (b ∷ bs) h = ap (λ zs. b ∷ zs) (take_all k bs (omega arith))

write_exact_from_lem :
    (fuel : ℕ) (bs : List ℕ) (s : Stream)
    → s.write_fault ≡ none
    → All (λ c. 0 < c) s.takes
    → length bs ≤ fuel
    → (ts : List ℕ) × All (λ c. 0 < c) ts
      × (write_exact_from fuel bs s ≡ (ok tt, record s { outgoing = s.outgoing ++ bs; takes = ts }))
unfolding write_exact_from
write_exact_from_lem zero [] s h p f = (s.takes, p, rw (append-nil s.outgoing) refl)
write_exact_from_lem (suc fuel) [] s h p f = (s.takes, p, rw (append-nil s.outgoing) refl)
write_exact_from_lem zero (b ∷ bs) s h p f = absurd (omega arith)
write_exact_from_lem (suc fuel) (b ∷ bs) s h p f =
    let n = limit s.takes (suc (length bs)) in
    let (pos, fits) = limit_lem s.takes (suc (length bs)) p (omega arith) in
    let (ts, q, done) =
      write_exact_from_lem fuel (drop n (b ∷ bs))
        (record s { outgoing = s.outgoing ++ take n (b ∷ bs); takes = rest_of s.takes }) h
        (rest_lem s.takes p) (omega (arith, length-drop n (b ∷ bs))) in
    (
      ts,
      q,
      write_exact_from_step fuel (b ∷ bs) s h (omega arith) pos
          ∙ (done
              ∙ rw
                  (
                    append_assoc s.outgoing (take n (b ∷ bs)) (drop n (b ∷ bs)),
                    take_all n (b ∷ bs) fits,
                  )
                  refl),
    )

pub write_exact_lem :
    (bs : List ℕ) (s : Stream)
    → s.write_fault ≡ none
    → All (λ c. 0 < c) s.takes
    → (ts : List ℕ) × All (λ c. 0 < c) ts
      × (write_exact bs s ≡ (ok tt, record s { outgoing = s.outgoing ++ bs; takes = ts }))
unfolding write_exact
write_exact_lem bs s h p = write_exact_from_lem (length bs) bs s h p (omega arith)
