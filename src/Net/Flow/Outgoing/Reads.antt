-- ===== src/Net/Flow/Outgoing/Reads.antt =====
-- A read from the endpoint, RecvFromConnection of src/net/Flow.cpp, in a flow that has read before.
use mathlib.Core.List.{append_assoc}
use mathlib.Core.Path.{subst}
use multipath_proxy.Prelude.{
  ℕ, ◌+◌, ◌^◌, ◌≤◌, ◌<◌, ◌≡◌, refl, sym, ap, ◌∙◌, List, [], ◌∷◌, ◌++◌, arith, leb, length,
  length-append, true, false, ◌==◌,
}
use multipath_proxy.Packet.Buffer.{Allocator}
use multipath_proxy.Packet.FlowHeader
use multipath_proxy.Packet.FlowPacket.{FlowPacket, id}
use multipath_proxy.Packet.FlowPacket.Filled.{framed, make-filled, write-filled, resize-filled}
use multipath_proxy.Net.SockAddr.{SockAddrIn}
use multipath_proxy.Net.Transport.{received}
use multipath_proxy.Net.Receive.Phases.{Grants}
use multipath_proxy.Collections.LockFree.Linked.{if-true}
use multipath_proxy.Collections.BlockingQueue.{add64, insert}
use multipath_proxy.Collections.BlockingQueue.Invariant.{insert-IsValid}
use multipath_proxy.Net.Flow.{
  Flow, returned, after, read_data, preload_limit, queue_packet, close_or_queue,
  recv_from_connection, receives, step, byte_size,
}
use multipath_proxy.Net.Flow.Numbered.{
  FitsWords, AreChunks, IdsBelow, IdsBelow-suffix, IdsBelow-Absent, insert_sorted_end, numbered_end,
  length-numbered, id-numbered, numbered-IdsBelow,
}
use multipath_proxy.Net.Flow.Outgoing.{Outgoing}

module _ (heap : Allocator) (grants : Grants heap) where
  -- The flow with a packet for what was read.
  abbrev pub packet_for : Flow → List ℕ → FlowPacket
  packet_for s c = framed (FlowHeader.new s.source s.destination s.to_bond_id) c

  abbrev pub after_read : Flow → List ℕ → Flow
  after_read s c = record s {
    to_bond_id = add64 s.to_bond_id 1;
    to_bond = insert (packet_for s c) s.to_bond;
    total_backlog = add64 s.total_backlog (length c);
  }

  handled_read :
      (c : List ℕ) (s : Flow)
      → 0 < length c
      → length c ≤ 1024
      → leb preload_limit (byte_size s) ≡ false
      → recv_from_connection heap (received c) s ≡ returned (after_read s c)
  unfolding recv_from_connection after read_data close_or_queue queue_packet
  handled_read c s some_ small room =
      let h = FlowHeader.new s.source s.destination s.to_bond_id in
      let more : (length c == 0) ≡ false = ground arith in
      rw
        (
          room,
          make-filled heap h 1024 c grants small (omega arith),
          write-filled heap h 1024 c grants small (omega arith),
          more,
          resize-filled heap h 1024 c grants small (omega arith),
        )
        refl

  pub read_step :
      (c : List ℕ) (s : Flow)
      → 0 < length c
      → length c ≤ 1024
      → s.recv_running ≡ true
      → leb preload_limit (byte_size s) ≡ false
      → step heap (receives (received c)) s ≡ returned (after_read s c)
  unfolding step
  read_step c s some_ small on room = if-true _ _ on ∙ handled_read c s some_ small room

  pub full_step :
      (c : List ℕ) (s : Flow)
      → s.recv_running ≡ true
      → leb preload_limit (byte_size s) ≡ true
      → step heap (receives (received c)) s ≡ returned s
  unfolding step recv_from_connection
  full_step c s on full = if-true _ _ on ∙ if-true _ _ full

  module _ (src dst : SockAddrIn) (fits_src : FitsWords src) (fits_dst : FitsWords dst) where
    -- A read adds a packet to the end of the queue.
    pub read-Outgoing :
        (chunks : List (List ℕ)) (c : List ℕ) (s : Flow)
        → Outgoing src dst chunks s
        → AreChunks chunks
        → length c ≤ 1024
        → length chunks + 1 < 2 ^ 64
        → Outgoing src dst (chunks ++ c ∷ []) (after_read s c)
    read-Outgoing chunks c s o all small few =
        let n = length chunks in
        let p = framed (FlowHeader.new src dst n) c in
        let same : packet_for s c ≡ p =
          λ i. framed (FlowHeader.new (o.from i) (o.to i) (o.next_number i)) c in
        let is : id p ≡ n = id-numbered src dst fits_src fits_dst n c (omega arith) small in
        let below = IdsBelow-suffix n o.gone s.to_bond.deque (
          subst (IdsBelow n) o.split (
            numbered-IdsBelow src dst fits_src fits_dst 0 n chunks all (omega arith)
              (omega arith))) in
        let below' = subst (λ m. IdsBelow m s.to_bond.deque) (sym is) below in
        let whole =
          sym (length-numbered src dst 0 chunks)
          ∙ ap length o.split
          ∙ length-append o.gone s.to_bond.deque in
        let (v, d, c') =
          insert-IsValid p s.to_bond o.valid
            (omega (arith, o.next_id), IdsBelow-Absent (id p) s.to_bond.deque below') in
        subst
          (λ (u : FlowPacket). Outgoing src dst (chunks ++ c ∷ []) (record s {
            to_bond_id = add64 s.to_bond_id 1;
            to_bond = insert u s.to_bond;
            total_backlog = add64 s.total_backlog (length c);
          }))
          (sym same)
          (record {
            from = o.from;
            to = o.to;
            reading = o.reading;
            forwarding = o.forwarding;
            next_number = omega (arith, o.next_number, length-append chunks (c ∷ []));
            gone = o.gone;
            split =
                numbered_end src dst chunks c
                ∙ ap (λ l. l ++ p ∷ []) o.split
                ∙ append_assoc o.gone s.to_bond.deque (p ∷ [])
                ∙ ap (λ l. o.gone ++ l) (sym (insert_sorted_end p s.to_bond.deque below') ∙ sym d);
            given = o.given;
            next_id = c' ∙ o.next_id;
            valid = v;
            made_ter = o.made_ter;
            made_sat = o.made_sat;
          })
