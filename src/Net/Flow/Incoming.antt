-- ===== src/Net/Flow/Incoming.antt =====
-- From the bond to the endpoint: WriteToFlow and SendToConnection of src/net/Flow.cpp, in any order.
use mathlib.Core.Path.{subst}
use multipath_proxy.Prelude.{
  ℕ, ◌≡◌, ◌≢◌, refl, sym, ap, ◌∙◌, List, [], ◌∷◌, ◌++◌, map, arith, take, true, false, ◌==◌,
}
use mathlib.Core.List.{append_assoc, append-nil}
use multipath_proxy.Outcome.{done, fault, blocked, done-injective}
use multipath_proxy.Packet.Buffer.{Allocator}
use multipath_proxy.Packet.FlowPacket.{FlowPacket, size, payload}
use multipath_proxy.Net.Transport.{sent}
use multipath_proxy.Collections.LockFree.Linked.{if-true}
use multipath_proxy.Collections.BlockingQueue.{BlockingQueue, insert, pop}
use multipath_proxy.Collections.BlockingQueue.Delivery
use multipath_proxy.Collections.BlockingQueue.Delivery.{
  Call, inserts, pops, arrivals, AreNew, AreNew-insert_sorted, AreNew-tail,
}
use multipath_proxy.Collections.BlockingQueue.Runs.{after_pop, popped_run, waiting_run}
use multipath_proxy.Collections.BlockingQueue.Invariant.{
  IsValid, insert-IsValid, waits, returns, pop-PopResult,
}
use multipath_proxy.Collections.Sorted.{Small, Small-insert_sorted}
use multipath_proxy.Net.Flow.{
  Flow, returned, crashed, after, send_to_connection, write_to_flow, Event, writes, drains, step,
  go_on, run,
}
use multipath_proxy.Net.Flow.ClosePackets.{NoClose, NoClose-pop, NoClose-place}

-- A packet for the flow, or a round of SendToConnection in which the socket has room for `n` bytes.
abbrev pub event_of : ℕ → Call → Event
event_of n (inserts p) = writes p
event_of n pops = drains (sent n)

-- What the endpoint gets of the packets.
abbrev pub bytes_out : ℕ → List FlowPacket → List ℕ
bytes_out n [] = []
bytes_out n (p ∷ ps) = take n (payload p) ++ bytes_out n ps

drain_step :
    (heap : Allocator) (n : ℕ) (s : Flow) (p : FlowPacket) (q : BlockingQueue)
    → s.send_running ≡ true
    → pop s.to_connection ≡ done (p, q)
    → size p ≢ 0
    → step heap (drains (sent n)) s
      ≡ returned (record s { to_connection = q; delivered = s.delivered ++ take n (payload p) })
unfolding step send_to_connection after
drain_step heap n s p q on popped some_ =
    let more : (size p == 0) ≡ false = ground arith in if-true _ _ on ∙ rw (popped, more) refl

drain_waits :
    (heap : Allocator) (n : ℕ) (s : Flow)
    → s.send_running ≡ true
    → pop s.to_connection ≡ fault blocked
    → step heap (drains (sent n)) s ≡ crashed blocked
unfolding step send_to_connection after
drain_waits heap n s on w = if-true _ _ on ∙ rw w refl

-- The flow with what the calls have left and given out.
abbrev pub fed : ℕ → Flow → BlockingQueue → List FlowPacket → Flow
fed n s q out = record s { to_connection = q; delivered = s.delivered ++ bytes_out n out }

-- The flow does with its queue what the calls do.
module _ (heap : Allocator) (n : ℕ) where
  abbrev pub Fed : Flow → List Call → Type 0
  Fed s calls =
      (out : List FlowPacket) (last : BlockingQueue)
      → Delivery.run s.to_connection calls ≡ done (out, last)
      → run heap s (map (event_of n) calls) ≡ returned (fed n s last out)

  Fed-waits :
      (s : Flow) (calls : List Call)
      → s.send_running ≡ true
      → pop s.to_connection ≡ fault blocked
      → Fed s calls
      → Fed s (pops ∷ calls)
  unfolding run go_on
  Fed-waits s calls on e rest out last h =
      rw (drain_waits heap n s on e) (rest out last (sym (waiting_run s.to_connection calls e) ∙ h))

  -- The flow behind a Pop.
  abbrev passed : Flow → FlowPacket → BlockingQueue → Flow
  passed s p q = record s { to_connection = q; delivered = s.delivered ++ take n (payload p) }

  Fed-returns :
      (s : Flow) (calls : List Call) (p : FlowPacket) (q : BlockingQueue)
      → s.send_running ≡ true
      → pop s.to_connection ≡ done (p, q)
      → size p ≢ 0
      → Fed (passed s p q) calls
      → Fed s (pops ∷ calls)
  unfolding run go_on
  Fed-returns s calls p q on e some_ rest out last h =
      let (more, runs, same) =
        after_pop (Delivery.run q calls) p out last
          (sym (popped_run s.to_connection q p calls e) ∙ h) in
      rw (drain_step heap n s p q on e some_) (
        rest more last runs
        ∙ ap (λ (l : List ℕ). returned (record s { to_connection = last; delivered = l }))
            (append_assoc s.delivered (take n (payload p)) (bytes_out n more)
              ∙ ap (λ (ps : List FlowPacket). s.delivered ++ bytes_out n ps) same))

  Fed-inserts :
      (s : Flow) (calls : List Call) (p : FlowPacket)
      → Fed (record s { to_connection = insert p s.to_connection }) calls
      → Fed s (inserts p ∷ calls)
  unfolding run go_on step write_to_flow Delivery.run
  Fed-inserts s calls p rest out last h = rest out last h

  Fed-nil : (s : Flow) → Fed s []
  unfolding run Delivery.run
  Fed-nil s out last h =
      let same : ◌≡◌ {A = List FlowPacket × BlockingQueue} ([], s.to_connection) (out, last) =
        done-injective h in
      ap (λ (l : List ℕ). returned (record s { delivered = l })) (sym (append-nil s.delivered))
      ∙ ap (λ (r : List FlowPacket × BlockingQueue). returned (fed n s r.1 r.0)) same

  pub Fed-run :
      (calls : List Call) (s : Flow)
      → s.send_running ≡ true
      → IsValid s.to_connection
      → Small s.to_connection.deque
      → AreNew s.to_connection.current_id s.to_connection.deque (arrivals calls)
      → NoClose s.to_connection.deque
      → NoClose (arrivals calls)
      → Fed s calls
  Fed-run [] s on v small new open_ come = Fed-nil s
  Fed-run (inserts p ∷ calls) s on v small new open_ come =
      let (v', d, c) = insert-IsValid p s.to_connection v (new.0, new.2) in
      Fed-inserts s calls p (
        Fed-run calls (record s { to_connection = insert p s.to_connection }) on v'
          (rw d (Small-insert_sorted p s.to_connection.deque new.1 small))
          (rw (d, c)
            (AreNew-insert_sorted s.to_connection.current_id p s.to_connection.deque
              (arrivals calls) new.3 new.4))
          (unfold insert in NoClose-place p s.to_connection.deque come.0 open_) come.1)
  Fed-run (pops ∷ calls) s on v small new open_ come =
      elim (pop-PopResult s.to_connection v small) [
        | waits e _ ↦ Fed-waits s calls on e (Fed-run calls s on v small new open_ come)
        | returns p q e i d c v' ↦
            let (some_, open') = NoClose-pop s.to_connection (p, q) open_ e in
            let small' : Small (p ∷ q.deque) = subst Small d small in
            Fed-returns s calls p q on e some_ (
              Fed-run calls (passed s p q) on v' small'.1
                (rw c (
                  AreNew-tail s.to_connection.current_id p q.deque (arrivals calls) i
                    (subst (λ xs. AreNew s.to_connection.current_id xs (arrivals calls)) d new)))
                open' come)
      ]
