-- ===== src/Net/Receive/Loop.antt =====
-- One reading loop of RecvFromConnection, for every way in which the stream may be cut into pieces.
use multipath_proxy.Prelude.{
  ℕ, zero, suc, ◌+◌, ◌-◌, ◌≤◌, ◌<◌, ◌≡◌, sym, ap, ◌∙◌, List, [], ◌∷◌, ◌++◌, arith, length, drop,
  length-append, length-drop,
}
use multipath_proxy.Outcome.{Outcome, done}
use multipath_proxy.Memory.{
  store_succeeds, overwrite, overwrite-nil, length-overwrite, overwrite-overwrite, split_prefix,
}
use multipath_proxy.Net.Transport.{Transport, received, Receives}
use multipath_proxy.Net.Receive.{ReadEnd, full, read_loop}

overwrite_pieces :
    (at got : ℕ) (chunk left bs mem : List ℕ)
    → bs ≡ chunk ++ left
    → at + got + length bs ≤ length mem
    → overwrite (at + (got + length chunk)) left (overwrite (at + got) chunk mem)
      ≡ overwrite (at + got) bs mem
overwrite_pieces at got chunk left bs mem e fits =
    let shift : at + (got + length chunk) ≡ at + got + length chunk = omega arith in
    let sum : length bs ≡ length chunk + length left = ap length e ∙ length-append chunk left in
    ap (λ k. overwrite k left (overwrite (at + got) chunk mem)) shift
    ∙ overwrite-overwrite (at + got) chunk left mem (omega arith)
    ∙ ap (λ bytes. overwrite (at + got) bytes mem) (sym e)

module _ (t : Transport) where
  open t use {Conn, recv, incoming, recv_bounded, recv_in_order}

  -- With all bytes read the loop is over.
  read_loop_over :
      (fuel : ℕ) (c : Conn) (mem : List ℕ) (at need got : ℕ)
      → need ≤ got
      → read_loop t (suc fuel) c mem at need got ≡ done (full mem c)
  unfolding read_loop
  read_loop_over fuel c mem at need got h = ground arith

  -- A round that gets some bytes which fit stores them, and goes on.
  pub read_loop_round :
      (fuel : ℕ) (c c' : Conn) (mem bs : List ℕ) (at need got : ℕ)
      → got < need
      → recv c (need - got) ≡ (received bs, c')
      → 0 < got + length bs
      → at + got + length bs ≤ length mem
      → read_loop t (suc fuel) c mem at need got
        ≡ read_loop t fuel c' (overwrite (at + got) bs mem) at need (got + length bs)
  unfolding read_loop
  read_loop_round fuel c c' mem bs at need got lt e pos fits =
      ground (arith, e, store_succeeds (at + got) bs mem fits)

  -- What a finished loop has done: the bytes are in place, and the stream goes on behind them.
  pub record Filled (result : Outcome (ReadEnd t)) (at : ℕ) (bs mem rest : List ℕ) : Type 0 where
    pub conn : Conn
    pub ends : result ≡ done (full (overwrite at bs mem) conn)
    pub remains : incoming conn ≡ rest

  Filled-eq :
      {r r' : Outcome (ReadEnd t)} {at at' : ℕ} {bs bs' mem mem' rest : List ℕ}
      → r' ≡ r
      → overwrite at bs mem ≡ overwrite at' bs' mem'
      → Filled r at bs mem rest
      → Filled r' at' bs' mem' rest
  Filled-eq e o f = record {
    conn = f.conn;
    ends = e ∙ f.ends ∙ ap (λ m. done (full m f.conn)) o;
    remains = f.remains;
  }

  -- On a connection that is up, a reading loop ends with the next `need - got` bytes of the stream
  -- in the buffer from `at + got` on, the rest of the buffer as it was and the rest of the stream
  -- unread, however recv cuts the bytes, where they fit the buffer, with one round of fuel for
  -- each byte and one more.
  pub read_loop-Filled :
      Receives t
      → (fuel : ℕ) (c : Conn) (mem : List ℕ) (at need got : ℕ) (bs rest : List ℕ)
      → incoming c ≡ bs ++ rest
      → got + length bs ≡ need
      → at + need ≤ length mem
      → length bs < fuel
      → Filled (read_loop t fuel c mem at need got) (at + got) bs mem rest
  read_loop-Filled up zero c mem at need got bs rest i n fits f = absurd (omega arith)
  read_loop-Filled up (suc fuel) c mem at need got [] rest i n fits f = record {
    conn = c;
    ends =
        read_loop_over fuel c mem at need got (omega arith)
        ∙ ap (λ m. done (full m c)) (sym (overwrite-nil (at + got) mem));
    remains = i;
  }
  read_loop-Filled up (suc fuel) c mem at need got (b ∷ bs) rest i n fits f =
      let (chunk, c', e, pos) =
        up c (need - got) (omega arith) (rw i (rw length-append (omega arith))) in
      let few = recv_bounded c (need - got) e in
      let (front, back) =
        split_prefix (b ∷ bs) rest chunk (incoming c') (sym i ∙ recv_in_order c (need - got) e)
          (omega arith) in
      let left = length-drop (length chunk) (b ∷ bs) in
      Filled-eq
        (read_loop_round fuel c c' mem chunk at need got (omega arith) e (omega arith)
          (omega arith))
        (overwrite_pieces at got chunk (drop (length chunk) (b ∷ bs)) (b ∷ bs) mem front
          (omega arith))
        (read_loop-Filled up fuel c' (overwrite (at + got) chunk mem) at need (got + length chunk)
          (drop (length chunk) (b ∷ bs)) rest back (omega arith)
          (rw (length-overwrite (at + got) chunk mem (omega arith)) fits) (omega arith))
