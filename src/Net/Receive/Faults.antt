-- ===== src/Net/Receive/Faults.antt =====
-- What RecvFromConnection does where the stream is not a sequence of small frames: it ends, recv
-- fails, or a header announces more payload than the buffer holds.
use mathlib.Core.Path.{ap₂}
use multipath_proxy.Exception.{Exception}
use multipath_proxy.Prelude.{
  ◌⊎◌, Bool-cases, leb, inl, inr, ℕ, zero, suc, ◌+◌, ◌-◌, ◌≤◌, ◌<◌, ◌≡◌, refl, sym, ap, ◌∙◌, List,
  [], ◌∷◌, ◌++◌, arith, length, drop, length-append, length-drop,
}
use multipath_proxy.Outcome.{done, fault, out_of_bounds}
use multipath_proxy.Memory.{
  store_succeeds, store_fails, split_prefix, overwrite-nil, overwrite, length-overwrite,
}
use multipath_proxy.Net.Transport.{Transport, Receives, received, recv_failed}
use multipath_proxy.Net.Receive.{closed, spinning, read_loop}
use multipath_proxy.Net.Receive.Loop.{read_loop_round}

-- At the end of the stream recv gives no bytes, now and later.
abbrev pub Ends : Transport → Type 0
Ends t = (c : t.Conn) (n : ℕ) → t.incoming c ≡ [] → t.recv c n ≡ (received [], c)

List-cases : (bs : List ℕ) → (bs ≡ []) ⊎ (0 < length bs)
List-cases [] = inl refl
List-cases (b ∷ bs) = inr (omega arith)

module _ (t : Transport) where
  open t use {Conn, recv, incoming, recv_bounded, recv_in_order}

  -- A loop that has read nothing when the stream ends leaves the connection closed.
  pub read_loop_closes :
      (fuel : ℕ) (c c' : Conn) (mem : List ℕ) (at need : ℕ)
      → 0 < fuel
      → 0 < need
      → at ≤ length mem
      → recv c need ≡ (received [], c')
      → read_loop t fuel c mem at need 0 ≡ done (closed c')
  unfolding read_loop
  read_loop_closes zero c c' mem at need round pos fits e = absurd (omega arith)
  read_loop_closes (suc fuel) c c' mem at need round pos fits e =
      ground (arith, e, store_succeeds (at + 0) [] mem (omega arith))

  -- The end of the stream behind the first byte is not noticed: no number of rounds ends the loop.
  pub read_loop_spins :
      (fuel : ℕ) (c : Conn) (mem : List ℕ) (at need got : ℕ)
      → 0 < got
      → got < need
      → at + got ≤ length mem
      → ((n : ℕ) → recv c n ≡ (received [], c))
      → read_loop t fuel c mem at need got ≡ done (spinning c)
  read_loop_spins zero c mem at need got pos lt fits ended = unfold read_loop in refl
  read_loop_spins (suc fuel) c mem at need got pos lt fits ended =
      read_loop_round t fuel c c mem [] at need got lt (ended (need - got)) (omega arith)
        (omega arith)
      ∙ ap₂ (λ m k. read_loop t fuel c m at need k) (overwrite-nil (at + got) mem) (omega arith)
      ∙ read_loop_spins fuel c mem at need got pos lt fits ended

  -- Nor is the failure of every recv.
  pub read_loop_retries :
      (broken : Exception) (fuel : ℕ) (c : Conn) (mem : List ℕ) (at need got : ℕ)
      → 0 < got
      → got < need
      → ((n : ℕ) → recv c n ≡ (recv_failed broken, c))
      → read_loop t fuel c mem at need got ≡ done (spinning c)
  unfolding read_loop
  read_loop_retries broken zero c mem at need got pos lt failing = refl
  read_loop_retries broken (suc fuel) c mem at need got pos lt failing =
      ground (
        arith,
        failing (need - got),
        read_loop_retries broken fuel c mem at need got pos lt failing,
      )

  -- A round whose bytes run past the end of the buffer.
  read_loop_breaks :
      (fuel : ℕ) (c c' : Conn) (mem bs : List ℕ) (at need got : ℕ)
      → got < need
      → recv c (need - got) ≡ (received bs, c')
      → length mem < at + got + length bs
      → read_loop t (suc fuel) c mem at need got ≡ fault out_of_bounds
  unfolding read_loop
  read_loop_breaks fuel c c' mem bs at need got lt e over =
      ground (arith, e, store_fails (at + got) bs mem over)

  -- A round breaks, or the loop breaks behind it.
  read_loop_oversteps :
      (fuel : ℕ) (c c' : Conn) (mem bs : List ℕ) (at need got : ℕ)
      → got < need
      → recv c (need - got) ≡ (received bs, c')
      → 0 < length bs
      → (at + got + length bs ≤ length mem
          → read_loop t fuel c' (overwrite (at + got) bs mem) at need (got + length bs)
            ≡ fault out_of_bounds)
      → read_loop t (suc fuel) c mem at need got ≡ fault out_of_bounds
  read_loop_oversteps fuel c c' mem bs at need got lt e pos later =
      elim (Bool-cases (leb (at + got + length bs) (length mem))) [
        | inl fits ↦
            let room : at + got + length bs ≤ length mem = ground arith in
            read_loop_round t fuel c c' mem bs at need got lt e (omega arith) room ∙ later room
        | inr not ↦ read_loop_breaks fuel c c' mem bs at need got lt e (ground arith)
      ]

  -- A loop whose stream would run past the end of the buffer does.
  pub read_loop_overruns :
      Receives t
      → (fuel : ℕ) (c : Conn) (mem : List ℕ) (at need got : ℕ) (bs rest : List ℕ)
      → incoming c ≡ bs ++ rest
      → got + length bs ≡ need
      → length mem < at + need
      → at + got ≤ length mem
      → length bs < fuel
      → read_loop t fuel c mem at need got ≡ fault out_of_bounds
  read_loop_overruns up zero c mem at need got bs rest i n over fits f = absurd (omega arith)
  read_loop_overruns up (suc fuel) c mem at need got [] rest i n over fits f = absurd (omega arith)
  read_loop_overruns up (suc fuel) c mem at need got (b ∷ bs) rest i n over fits f =
      let (chunk, c', e, pos) =
        up c (need - got) (omega arith) (rw i (rw length-append (omega arith))) in
      let few = recv_bounded c (need - got) e in
      let (front, back) =
        split_prefix (b ∷ bs) rest chunk (incoming c') (sym i ∙ recv_in_order c (need - got) e)
          (omega arith) in
      read_loop_oversteps fuel c c' mem chunk at need got (omega arith) e pos (λ room.
        read_loop_overruns up fuel c' (overwrite (at + got) chunk mem) at need (got + length chunk)
          (drop (length chunk) (b ∷ bs)) rest back
          (omega (arith, length-drop (length chunk) (b ∷ bs)))
          (rw (length-overwrite (at + got) chunk mem room) over)
          (rw (length-overwrite (at + got) chunk mem room) (omega arith))
          (omega (arith, length-drop (length chunk) (b ∷ bs))))

  -- A stream that ends inside what the loop has to read leaves it spinning.
  pub read_loop_cut :
      Receives t
      → Ends t
      → (fuel : ℕ) (c : Conn) (mem : List ℕ) (at need got : ℕ) → 0 < got + length (incoming c)
      → got + length (incoming c) < need
      → at + need ≤ length mem
      → (c' : Conn) × (read_loop t fuel c mem at need got ≡ done (spinning c'))
  read_loop_cut up ends zero c mem at need got pos lt fits = (c, unfold read_loop in refl)
  read_loop_cut up ends (suc fuel) c mem at need got pos lt fits = elim (List-cases (incoming c)) [
    | inl over ↦ (
      c,
      read_loop_spins (suc fuel) c mem at need got (ground (arith, over)) (omega arith)
          (omega arith) (λ n. ends c n over),
    )
    | inr more ↦
        let (chunk, c', e, some_) = up c (need - got) (omega arith) more in
        let split : length (incoming c) ≡ length chunk + length (incoming c') =
          ap length (recv_in_order c (need - got) e) ∙ length-append chunk (incoming c') in
        let (c'', spins) =
          read_loop_cut up ends fuel c' (overwrite (at + got) chunk mem) at need
            (got + length chunk) (omega arith) (omega arith)
            (rw (length-overwrite (at + got) chunk mem (omega arith)) fits) in
        (
          c'',
          read_loop_round t fuel c c' mem chunk at need got (omega arith) e (omega arith)
                (omega arith)
              ∙ spins,
        )
  ]
