-- ===== src/Net/Flow/Senders.antt =====
-- SendToConnection and SendToBond of src/net/Flow.cpp keep the invariant of the loopers.
use mathlib.Core.Bool.{Bool, true, false}
use multipath_proxy.Prelude.{
  ℕ, ◌≡◌, refl, sym, ap, ◌∙◌, ◌⊎◌, inl, inr, arith, ◌==◌, ==_iff, Option, none, some,
}
use multipath_proxy.Exception.{Exception}
use multipath_proxy.Outcome.{done}
use multipath_proxy.Packet.FlowPacket.{FlowPacket, size}
use multipath_proxy.Net.Transport.{SendResult}
use multipath_proxy.Collections.BlockingQueue.{BlockingQueue, sub64, pop}
use multipath_proxy.Net.Flow.Quiet.{Quiet-pop}
use multipath_proxy.Net.Flow.{
  CloseAt, quiet, testing, tested, ended, Flow, close_send, close_bond, send_to_connection,
  unless_fails, settle, choose_path, lose_packet, Round, send_to_bond,
}
use multipath_proxy.Net.Flow.ClosePackets.{NoClose, NoClose-pop}
use multipath_proxy.Net.Flow.Orderly.{is_quiet, Orderly, Fine, Fine-after, Fine-if}

module _ (s : Flow) (v : Orderly s) where
  -- SendToConnection behind a close packet.
  pub Fine-close_send :
      (fails : Option Exception) (c : CloseAt) → s.send_close ≡ c → Fine (close_send fails c s)
  unfolding close_send
  Fine-close_send fails quiet e = v
  Fine-close_send fails (testing p) e = ground arith
  Fine-close_send fails (tested p true) e = ground arith
  Fine-close_send none (tested p false) e = ground arith
  Fine-close_send (some x) (tested p false) e = ground arith
  Fine-close_send fails (ended b) e = v

  -- SendToBond behind a close packet.
  pub Fine-close_bond :
      (fails : Option Exception) (c : CloseAt) → s.bond_close ≡ c → Fine (close_bond fails c s)
  unfolding close_bond
  Fine-close_bond fails quiet e = v
  Fine-close_bond fails (testing p) e = ground arith
  Fine-close_bond none (tested p true) e = ground arith
  Fine-close_bond (some x) (tested p true) e = ground arith
  Fine-close_bond none (tested p false) e = ground arith
  Fine-close_bond (some x) (tested p false) e = ground arith
  Fine-close_bond fails (ended b) e = v

-- A sender that runs finds a close packet.
found_send :
    (p : FlowPacket) (q : BlockingQueue) (s : Flow) (c : CloseAt)
    → s.send_close ≡ c
    → s.send_running ≡ true
    → Orderly s
    → Orderly (record s { to_connection = q; send_running = false; send_close = testing p })
found_send p q s quiet e on v = ground arith
found_send p q s (testing p') e on v = absurd (ground (arith, v.sends))
found_send p q s (tested p' b) e on v = absurd (ground (arith, v.sends))
found_send p q s (ended b) e on v = absurd (ground (arith, v.sends))

found_bond :
    (p : FlowPacket) (q : BlockingQueue) (s : Flow) (c : CloseAt)
    → s.bond_close ≡ c
    → s.bond_running ≡ true
    → s.recv_running ≡ false
    → Orderly s
    → Orderly (record s { to_bond = q; bond_running = false; bond_close = testing p })
found_bond p q s quiet e on off v = ground arith
found_bond p q s (testing p') e on off v = absurd (ground (arith, v.bonds))
found_bond p q s (tested p' b) e on off v = absurd (ground (arith, v.bonds))
found_bond p q s (ended b) e on off v = absurd (ground (arith, v.bonds))

pub Fine-send_to_connection :
    (r : SendResult) (s : Flow) → s.send_running ≡ true → Orderly s → Fine (send_to_connection r s)
unfolding send_to_connection
Fine-send_to_connection r s on v =
    Fine-after (pop s.to_connection) s _ (Quiet-pop s.to_connection) v (λ popped _.
      Fine-if (size popped.0 == 0) _ _ (λ _. found_send popped.0 popped.1 s s.send_close refl on v)
        (λ _. ground arith))

-- What does not matter to the loopers.
record Changes (s t : Flow) : Type 0 where
  recv_running : t.recv_running ≡ s.recv_running
  send_running : t.send_running ≡ s.send_running
  bond_running : t.bond_running ≡ s.bond_running
  closed : t.closed ≡ s.closed
  deletions : t.deletions ≡ s.deletions
  send_close : t.send_close ≡ s.send_close
  bond_close : t.bond_close ≡ s.bond_close
  queue : t.to_bond ≡ s.to_bond

Changes-Orderly : (s t : Flow) → Changes s t → Orderly s → Orderly t
Changes-Orderly s t c v = record {
  sends = c.send_running ∙ v.sends ∙ ap is_quiet (sym c.send_close);
  bonds = c.bond_running ∙ v.bonds ∙ ap is_quiet (sym c.bond_close);
  marked = rw (c.send_close, c.bond_close, c.closed) v.marked;
  send_sees = rw (c.send_close, c.bond_close) v.send_sees;
  bond_sees = rw (c.send_close, c.bond_close) v.bond_sees;
  counted = rw (c.send_close, c.bond_close, c.deletions) v.counted;
  feeding = rw (c.recv_running, c.queue) v.feeding;
  fed = rw (c.recv_running, c.bond_running) v.fed;
}

Changes-choose_path :
    (p : FlowPacket) (r : Round) (s : Flow)
    → Changes s (record (choose_path p (settle r.now s)) { last_send = r.later })
unfolding choose_path settle
Changes-choose_path p r s = ground arith

Changes-lose_packet :
    (p : FlowPacket) (r : Round) (s : Flow) → Changes s (lose_packet p (settle r.now s))
unfolding lose_packet settle
Changes-lose_packet p r s = ground arith

Fine-unless_fails :
    (o : Option Exception) (s t : Flow) → Orderly s → Orderly t → Fine (unless_fails o s t)
Fine-unless_fails none s t v w = v
Fine-unless_fails (some e) s t v w = w

feeding-pop :
    {off : Bool} (q : BlockingQueue) (r : FlowPacket × BlockingQueue)
    → pop q ≡ done r
    → (off ≡ false) ⊎ NoClose q.deque
    → (off ≡ false) ⊎ NoClose r.1.deque
feeding-pop q r e (inl stopped) = inl stopped
feeding-pop q r e (inr none_) = inr (NoClose-pop q r none_ e).1

close-stopped :
    {off : Bool} (q : BlockingQueue) (r : FlowPacket × BlockingQueue)
    → pop q ≡ done r
    → size r.0 ≡ 0
    → (off ≡ false) ⊎ NoClose q.deque
    → off ≡ false
close-stopped q r e z (inl stopped) = stopped
close-stopped q r e z (inr none_) = absurd ((NoClose-pop q r none_ e).0 z)

popped-Orderly :
    (s : Flow) (q : BlockingQueue) (backlog : ℕ)
    → Orderly s
    → (s.recv_running ≡ false) ⊎ NoClose q.deque
    → Orderly (record s { to_bond = q; total_backlog = backlog })
popped-Orderly s q backlog v f = ground arith

pub Fine-send_to_bond :
    (r : Round) (s : Flow) → s.bond_running ≡ true → Orderly s → Fine (send_to_bond r s)
unfolding send_to_bond
Fine-send_to_bond r s on v = Fine-after (pop s.to_bond) s _ (Quiet-pop s.to_bond) v (λ popped e.
    Fine-if (size popped.0 == 0) _ _
      (λ z.
        found_bond popped.0 popped.1 s s.bond_close refl on
          (close-stopped s.to_bond popped e ((==_iff (size popped.0) 0).0 z) v.feeding) v)
      (λ _.
        let s2 : Flow = record s {
          to_bond = popped.1;
          total_backlog = sub64 s.total_backlog (size popped.0);
        } in
        let v2 = popped-Orderly s popped.1 _ v (feeding-pop s.to_bond popped e v.feeding) in
        Fine-unless_fails r.fails _ _ (Changes-Orderly s2 _ (Changes-choose_path popped.0 r s2) v2)
          (Changes-Orderly s2 _ (Changes-lose_packet popped.0 r s2) v2)))
