-- ===== src/Collections/LockFree/Alone/TakeOut.antt =====
-- The steps of Pop behind the compare-exchange that takes a node out of the list
-- (LockFreeFlowPacketQueue.cpp in src/collections), by a thread that is alone.
use multipath_proxy.Prelude.{ℕ, ◌+◌, ◌%◌, ◌^◌, ◌≡◌, refl, List, Option, none, some, ap}
use multipath_proxy.Packet.FlowPacket.{FlowPacket, size}
use multipath_proxy.Collections.BlockingQueue.{sub64}
use multipath_proxy.Collections.LockFree.{Node, Queue, put}
use multipath_proxy.Collections.LockFree.Pop.{
  uncounting, advancing, unweighing, unhinting, deleting, popped, set_hint, pop_move,
}
use multipath_proxy.Collections.LockFree.Threads.{popping, move}
use multipath_proxy.Collections.LockFree.Alone.{Ends, step, stop}
use multipath_proxy.Collections.LockFree.Alone.Chain.{Cell, Chain, Apart}

-- What Pop leaves behind the compare-exchange that takes the node out.
abbrev pub emptied : Queue → Node → ℕ → Option (Option ℕ) → Queue
emptied q n a h =
    let r : Queue = record q {
      size_ = sub64 q.size_ 1;
      current_id = (q.current_id + 1) % 2 ^ 32;
      byte_size = sub64 q.byte_size (size n.flow_packet);
    } in
    record (set_hint r h) { nodes = put (set_hint r h).nodes a none }

pub uncounting_ends :
    (q : Queue) (n : Node) (a : ℕ) (h : Option (Option ℕ))
    → Ends 5 q
        (popping (uncounting n a h))
        (emptied q n a h)
        (popping (popped (some n.flow_packet)))
unfolding move pop_move
uncounting_ends q n a h =
    let q₁ : Queue = record q { size_ = sub64 q.size_ 1 } in
    let q₂ : Queue = record q₁ { current_id = (q.current_id + 1) % 2 ^ 32 } in
    let q₃ : Queue = record q₂ { byte_size = sub64 q.byte_size (size n.flow_packet) } in
    step q (popping (uncounting n a h)) q₁ (popping (advancing n a h)) refl (
      step q₁ (popping (advancing n a h)) q₂ (popping (unweighing n a h)) refl (
        step q₂ (popping (unweighing n a h)) q₃ (popping (unhinting n a h)) refl (
          step q₃ (popping (unhinting n a h)) (set_hint q₃ h) (popping (deleting n a)) refl (
            step (set_hint q₃ h) (popping (deleting n a)) (emptied q n a h)
              (popping (popped (some n.flow_packet))) refl
              (stop (emptied q n a h) (popping (popped (some n.flow_packet))) refl)))))

pub emptied-head :
    (q : Queue) (n : Node) (a : ℕ) (h : Option (Option ℕ)) → (emptied q n a h).head ≡ q.head
emptied-head q n a none = refl
emptied-head q n a (some h) = refl

-- The queue `q'` has, where `q` has the nodes `cs`, the nodes `cs'`, without the one of `p`.
pub record TakenOut (q : Queue) (p : FlowPacket) (cs cs' : List Cell) (q' : Queue) : Type 0 where
  pub chain : Chain q'.nodes cs'
  pub others : (b : ℕ) → Apart b cs → q'.nodes b ≡ q.nodes b
  pub same_fresh : q'.fresh ≡ q.fresh
  pub sized : q'.size_ ≡ sub64 q.size_ 1
  pub weighed : q'.byte_size ≡ sub64 q.byte_size (size p)
  pub advanced : q'.current_id ≡ (q.current_id + 1) % 2 ^ 32

pub emptied-TakenOut :
    (q r : Queue) (n : Node) (a : ℕ) (h : Option (Option ℕ)) (cs cs' : List Cell)
    → r.fresh ≡ q.fresh
    → r.size_ ≡ q.size_
    → r.byte_size ≡ q.byte_size
    → r.current_id ≡ q.current_id
    → Chain (put r.nodes a none) cs'
    → ((b : ℕ) → Apart b cs → put r.nodes a none b ≡ q.nodes b)
    → TakenOut q n.flow_packet cs cs' (emptied r n a h)
emptied-TakenOut q r n a none cs cs' f s w i chain others = record {
  chain = chain;
  others = others;
  same_fresh = f;
  sized = ap (λ k. sub64 k 1) s;
  weighed = ap (λ k. sub64 k (size n.flow_packet)) w;
  advanced = ap (λ k. (k + 1) % 2 ^ 32) i;
}
emptied-TakenOut q r n a (some h) cs cs' f s w i chain others = record {
  chain = chain;
  others = others;
  same_fresh = f;
  sized = ap (λ k. sub64 k 1) s;
  weighed = ap (λ k. sub64 k (size n.flow_packet)) w;
  advanced = ap (λ k. (k + 1) % 2 ^ 32) i;
}
