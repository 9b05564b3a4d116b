-- ===== src/Net/Flow/Orderly.antt =====
-- The invariant of a flow's three loopers, and that RecvFromConnection keeps it.
use mathlib.Core.Bool.{Bool, true, false}
use multipath_proxy.Prelude.{
  ℕ, ◌+◌, ◌^◌, ◌<◌, ◌≡◌, ◌≢◌, refl, sym, ◌∙◌, ◌⊎◌, inl, inr, ◌||◌, arith, leb, ◌==◌, if◌then◌else◌,
}
use multipath_proxy.Outcome.{Outcome, done, throws, fault, still_running}
use multipath_proxy.Packet.Buffer.{Allocator}
use multipath_proxy.Packet.FlowHeader.{FlowHeader}
use multipath_proxy.Packet.FlowHeader
use multipath_proxy.Packet.FlowPacket
use multipath_proxy.Packet.FlowPacket.{
  FlowPacket, id, size, header, payload, write_at, store_size, store_id,
}
use multipath_proxy.Net.Transport.{RecvResult}
use multipath_proxy.Collections.BlockingQueue.{place, insert, clear, add64}
use multipath_proxy.Net.Flow.Quiet.{
  Quiet, Quiet-make, Quiet-resize, Quiet-read_data, Quiet-store_id,
}
use multipath_proxy.Net.Flow.{
  CloseAt, quiet, tested, ended, preload_limit, read_size, Flow, Handled, returned, raised, crashed,
  after, queue_packet, close_or_queue, recv_from_connection, bytes_read, read_data,
}
use multipath_proxy.Net.Flow.ClosePackets.{NoClose, NoClose-place, size-resize}

-- What a sender has done: it has found no close packet, it has set `closed_`, it has seen it set, it
-- has deleted the flow.
abbrev pub is_quiet : CloseAt → Bool
is_quiet quiet = true
is_quiet _ = false

abbrev pub has_marked : CloseAt → Bool
has_marked (ended false) = true
has_marked _ = false

abbrev pub has_seen : CloseAt → Bool
has_seen (tested p true) = true
has_seen (ended true) = true
has_seen _ = false

abbrev pub deletions_by : CloseAt → ℕ
deletions_by (ended true) = 1
deletions_by _ = 0

-- The loopers of a flow between two steps. A sender runs until it finds a close packet; `closed_`
-- says that one has set it; who has seen it set has seen what the other has set; each that has seen
-- it deletes the flow, and nobody else. A close packet is on its way to the bond only when nothing is
-- read from the endpoint any more.
pub record Orderly (s : Flow) : Type 0 where
  pub sends : s.send_running ≡ is_quiet s.send_close
  pub bonds : s.bond_running ≡ is_quiet s.bond_close
  pub marked : s.closed ≡ (has_marked s.send_close || has_marked s.bond_close)
  pub send_sees : (has_seen s.send_close ≡ false) ⊎ (has_marked s.bond_close ≡ true)
  pub bond_sees : (has_seen s.bond_close ≡ false) ⊎ (has_marked s.send_close ≡ true)
  pub counted : s.deletions ≡ deletions_by s.send_close + deletions_by s.bond_close
  pub feeding : (s.recv_running ≡ false) ⊎ NoClose s.to_bond.deque
  pub fed : (s.bond_running ≡ true) ⊎ (s.recv_running ≡ false)

-- A handler leaves the flow orderly, and no looper behind.
abbrev pub Fine : Handled → Type 0
Fine (returned s) = Orderly s
Fine (raised s e) = Orderly s
Fine (crashed x) = x ≢ still_running

pub Fine-after {ℓ} :
    {A : Type ℓ} (o : Outcome A) (s : Flow) (k : A → Handled)
    → Quiet o
    → Orderly s
    → ((a : A) → o ≡ done a → Fine (k a))
    → Fine (after o s k)
unfolding after
Fine-after (done a) s k q v f = f a refl
Fine-after (throws e) s k q v f = v
Fine-after (fault x) s k q v f = q

pub Fine-if :
    (b : Bool) (h h' : Handled)
    → (b ≡ true → Fine h)
    → (b ≡ false → Fine h')
    → Fine (if b then h else h')
Fine-if true h h' f g = f refl
Fine-if false h h' f g = g refl

module _ (heap : Allocator) where
  -- A packet of `n` bytes is queued: `n` is not 0, or nothing is read any more.
  pub Fine-queue_packet :
      (n : ℕ) (p : FlowPacket) (s : Flow)
      → n < 2 ^ 16
      → Orderly s
      → (s.recv_running ≡ false) ⊎ (n ≢ 0)
      → Fine (queue_packet heap n p s)
  unfolding queue_packet insert
  Fine-queue_packet n p s lt v kind =
      Fine-after (FlowPacket.resize heap p n) s _ (Quiet-resize heap p n) v (λ q e. record {
        sends = v.sends;
        bonds = v.bonds;
        marked = v.marked;
        send_sees = v.send_sees;
        bond_sees = v.bond_sees;
        counted = v.counted;
        feeding = feeds q (size-resize heap p q n lt e) kind v.feeding;
        fed = v.fed;
      })
    where
      feeds :
          (q : FlowPacket)
          → size q ≡ n
          → (s.recv_running ≡ false) ⊎ (n ≢ 0)
          → (s.recv_running ≡ false) ⊎ NoClose s.to_bond.deque
          → (s.recv_running ≡ false) ⊎ NoClose (place q s.to_bond.deque)
      feeds q e (inl stopped) b = inl stopped
      feeds q e (inr some_) (inl stopped) = inl stopped
      feeds q e (inr some_) (inr none_) =
          inr (NoClose-place q s.to_bond.deque (λ z. some_ (sym e ∙ z)) none_)

  pub Fine-close_or_queue :
      (n : ℕ) (p : FlowPacket) (s : Flow)
      → n < 2 ^ 16
      → Orderly s
      → Fine (close_or_queue heap n p s)
  unfolding close_or_queue clear
  Fine-close_or_queue n p s lt v =
      let v1 : Orderly (record s { recv_running = false }) = record {
        sends = v.sends;
        bonds = v.bonds;
        marked = v.marked;
        send_sees = v.send_sees;
        bond_sees = v.bond_sees;
        counted = v.counted;
        feeding = inl refl;
        fed = inr refl;
      } in
      let s2 : Flow = record s { recv_running = false; to_bond = clear s.to_bond } in
      let v2 : Orderly s2 = record {
        sends = v.sends;
        bonds = v.bonds;
        marked = v.marked;
        send_sees = v.send_sees;
        bond_sees = v.bond_sees;
        counted = v.counted;
        feeding = inl refl;
        fed = inr refl;
      } in
      Fine-if (n == 0) _ _
        (λ _.
          Fine-if s.closed _ _
            (λ _.
              Fine-after (store_id s.to_bond.current_id p) s2 _
                (Quiet-store_id s.to_bond.current_id p) v2
                (λ q _. Fine-queue_packet n q s2 lt v2 (inl refl)))
            (λ _. Fine-queue_packet n p (record s { recv_running = false }) lt v1 (inl refl)))
        (λ some_. Fine-queue_packet n p s lt v (inr (ground arith)))

  pub Fine-recv_from_connection :
      (r : RecvResult) (s : Flow)
      → bytes_read r < 2 ^ 16
      → Orderly s
      → Fine (recv_from_connection heap r s)
  unfolding recv_from_connection
  Fine-recv_from_connection r s lt v =
      let s1 : Flow = record s { to_bond_id = add64 s.to_bond_id 1 } in
      let v1 : Orderly s1 = record {
        sends = v.sends;
        bonds = v.bonds;
        marked = v.marked;
        send_sees = v.send_sees;
        bond_sees = v.bond_sees;
        counted = v.counted;
        feeding = v.feeding;
        fed = v.fed;
      } in
      Fine-if (leb preload_limit s.to_bond.byte_size) _ _ (λ _. v)
        (λ _.
          Fine-after
            (FlowPacket.make heap (FlowHeader.new s.source s.destination s.to_bond_id) read_size) s1
            _ (Quiet-make heap (FlowHeader.new s.source s.destination s.to_bond_id) read_size) v1
            (λ p _.
              Fine-after (read_data r p) s1 _ (Quiet-read_data r p) v1
                (λ q _. Fine-close_or_queue (bytes_read r) q s1 lt v1)))
