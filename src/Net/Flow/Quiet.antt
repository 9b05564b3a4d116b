-- ===== src/Net/Flow/Quiet.antt =====
-- The calls of the flow's handlers that never end in the assertion on the loopers.
use mathlib.Core.Bool.{Bool, true, false}
use multipath_proxy.Prelude.{
  ℕ, ◌+◌, ◌%◌, ◌^◌, ◌≢◌, inl, inr, List, [], ◌∷◌, Option, none, some, leb, ◌==◌, if◌then◌else◌,
  Option-cases,
}
use multipath_proxy.Outcome.{
  Outcome, done, throws, fault, blocked, still_running, out_of_bounds, ◌>>=◌, or_fault, assert,
}
use multipath_proxy.Memory.{store, le_bytes}
use multipath_proxy.Packet.Buffer
use multipath_proxy.Packet.Buffer.{Allocator, Buffer, make_packet}
use multipath_proxy.Packet.FlowHeader.{FlowHeader, set_size}
use multipath_proxy.Packet.Layout.{flow_header_bytes}
use multipath_proxy.Packet.FlowPacket
use multipath_proxy.Packet.FlowPacket.{FlowPacket, id, size, write_at, store_size, store_id}
use multipath_proxy.Net.Transport.{RecvResult, received, recv_failed}
use multipath_proxy.Collections.BlockingQueue.{BlockingQueue, pop, take_front}
use multipath_proxy.Net.Flow.{read_data}

abbrev pub Quiet {ℓ} : {A : Type ℓ} → Outcome A → Type 0
Quiet (done a) = Unit {0}
Quiet (throws e) = Unit {0}
Quiet (fault x) = x ≢ still_running

Quiet->>= {ℓ κ} :
    {A : Type ℓ} {B : Type κ} (m : Outcome A) (f : A → Outcome B)
    → Quiet m
    → ((a : A) → Quiet (f a))
    → Quiet (m >>= f)
Quiet->>= (done a) f q r = r a
Quiet->>= (throws e) f q r = tt
Quiet->>= (fault x) f q r = q

Quiet-or_fault {ℓ} : {A : Type ℓ} (o : Option A) → Quiet (or_fault o out_of_bounds)
Quiet-or_fault none = λ e. absurd cc
Quiet-or_fault (some a) = tt

Quiet-assert : (b : Bool) → Quiet (assert b)
Quiet-assert true = tt
Quiet-assert false = λ e. absurd cc

pub Quiet-write_at : (i : ℕ) (bytes : List ℕ) (p : FlowPacket) → Quiet (write_at i bytes p)
unfolding write_at
Quiet-write_at i bytes p =
    Quiet->>= (or_fault (store i bytes p.data_) out_of_bounds)
      (λ filled. done (record p { data_ = filled })) (Quiet-or_fault (store i bytes p.data_))
      (λ filled. tt)

pub Quiet-store_id : (i : ℕ) (p : FlowPacket) → Quiet (store_id i p)
unfolding store_id
Quiet-store_id i p = Quiet-write_at 18 (le_bytes 8 i) p

Quiet-resize_buffer : (heap : Allocator) (b : Buffer) (n : ℕ) → Quiet (Buffer.resize heap b n)
unfolding Buffer.resize
Quiet-resize_buffer heap b n = elim (Option-cases (heap.realloc b.data_ (n % 2 ^ 16))) [
  | inl e ↦ rw (e, Buffer.resize) tt
  | inr (bytes, e) ↦ rw (e, Buffer.resize) tt
]

pub Quiet-resize : (heap : Allocator) (p : FlowPacket) (n : ℕ) → Quiet (FlowPacket.resize heap p n)
unfolding FlowPacket.resize store_size
Quiet-resize heap p n =
    Quiet->>= (Buffer.resize heap p (28 + n)) (store_size n) (Quiet-resize_buffer heap p (28 + n))
      (λ b. Quiet-write_at 26 (le_bytes 2 n) b)

pub Quiet-make : (heap : Allocator) (h : FlowHeader) (n : ℕ) → Quiet (FlowPacket.make heap h n)
unfolding FlowPacket.make make_packet
Quiet-make heap h n =
    Quiet->>= (make_packet heap (28 + n)) (λ b. write_at 0 (flow_header_bytes (set_size h n)) b)
      (Quiet->>= (assert (leb 4 ((28 + n) % 2 ^ 16))) (λ _. done (Buffer.make heap (28 + n)))
        (Quiet-assert (leb 4 ((28 + n) % 2 ^ 16))) (λ _. tt))
      (λ b. Quiet-write_at 0 (flow_header_bytes (set_size h n)) b)

pub Quiet-read_data : (r : RecvResult) (p : FlowPacket) → Quiet (read_data r p)
unfolding read_data
Quiet-read_data (received bytes) p = Quiet-write_at 28 bytes p
Quiet-read_data (recv_failed e) p = tt

Quiet-take_front : (q : BlockingQueue) (xs : List FlowPacket) → Quiet (take_front q xs)
unfolding take_front
Quiet-take_front q [] = λ e. absurd cc
Quiet-take_front q (p ∷ rest) =
    Quiet->>= (assert (id p == q.current_id)) _ (Quiet-assert (id p == q.current_id)) (λ _. tt)

Quiet-if {ℓ} :
    {A : Type ℓ} (b : Bool) (m n : Outcome A) → Quiet m → Quiet n → Quiet (if b then m else n)
Quiet-if true m n q r = q
Quiet-if false m n q r = r

pub Quiet-pop : (q : BlockingQueue) → Quiet (pop q)
unfolding pop
Quiet-pop q =
    Quiet-if q.next_available (take_front q q.deque) (fault blocked) (Quiet-take_front q q.deque)
      (λ e. absurd cc)
