-- ===== src/Collections/BlockingQueue.antt =====
-- src/collections/BlockingFlowPacketQueue.h: the queue that puts the packets of a flow, which come
-- over two paths, back in order. Each method runs under the queue's mutex, so it is one step.
pub mod Insert
pub mod Invariant
pub mod Delivery
pub mod Reorder
pub mod Runs
pub mod Progress
pub mod Duplicate
pub mod Bags
use multipath_proxy.Prelude.{
  ℕ, ◌+◌, ◌-◌, ◌%◌, ◌^◌, Bool, true, false, not, ◌&&◌, ◌||◌, List, [], ◌∷◌, ◌++◌, Option, none,
  some, ltb, ◌==◌, if◌then◌else◌, rev_append,
}
use multipath_proxy.Outcome.{
  Outcome, done, throws, fault, blocked, out_of_bounds, ◌>>=◌, ◌>>◌, assert,
}
use multipath_proxy.Text.{Text, codes, decimal}
use multipath_proxy.Packet.FlowPacket.{FlowPacket, id, size}

-- `deque_` from front to back. `next_available` is what `Pop` waits for.
pub record BlockingQueue : Type 0 where
  pub next_available : Bool
  pub deque : List FlowPacket
  pub size_ : ℕ
  pub current_id : ℕ
  pub byte_size : ℕ

-- BlockingFlowPacketQueue()
abbrev pub empty_queue : BlockingQueue
empty_queue = record {
  next_available = false;
  deque = [];
  size_ = 0;
  current_id = 0;
  byte_size = 0;
}

-- Arithmetic of uint64_t.
abbrev pub add64 : ℕ → ℕ → ℕ
add64 a b = (a + b) % 2 ^ 64

abbrev pub sub64 : ℕ → ℕ → ℕ
sub64 a b = (a + 2 ^ 64 - b) % 2 ^ 64

-- The loop from `crbegin` on: `rs` is what it has not reached, back to front, and `behind` what
-- it has passed. The packet goes behind the first element with a smaller id. Without such an
-- element the loop ends and inserts nothing.
unfoldable pub scan_back : FlowPacket → List FlowPacket → List FlowPacket → Option (List FlowPacket)
scan_back p [] behind = none
scan_back p (x ∷ rs) behind =
    let rest = scan_back p rs (x ∷ behind) in
    if ltb (id x) (id p) then some (rev_append (x ∷ rs) (p ∷ behind)) else rest

-- The three ways to place a packet.
unfoldable pub place : FlowPacket → List FlowPacket → List FlowPacket
place p [] = p ∷ []
place p (x ∷ xs) =
    if ltb (id p) (id x)
    then p ∷ (x ∷ xs)
    else elim (scan_back p (rev_append (x ∷ xs) []) []) [ none ↦ x ∷ xs | some ys ↦ ys ]

-- deque_.front()->header()->id() == id, for a deque with a front.
abbrev pub front_is : ℕ → List FlowPacket → Bool
front_is i [] = false
front_is i (x ∷ xs) = id x == i

-- Insert.
unfoldable pub insert : FlowPacket → BlockingQueue → BlockingQueue
unfolding place scan_back
insert p q = record q {
  deque = place p q.deque;
  size_ = add64 q.size_ 1;
  byte_size = add64 q.byte_size (size p);
  next_available = if front_is q.current_id (place p q.deque) then true else q.next_available;
}

-- The part of Pop behind the wait.
unfoldable pub take_front : BlockingQueue → List FlowPacket → Outcome (FlowPacket × BlockingQueue)
take_front q [] = fault out_of_bounds
take_front q (p ∷ rest) = do
  assert (id p == q.current_id)
  let next = add64 q.current_id 1
  done (
    p,
    record {
      deque = rest;
      current_id = next;
      size_ = sub64 q.size_ 1;
      byte_size = sub64 q.byte_size (size p);
      next_available = if front_is next rest then q.next_available else false;
    },
  )

-- Pop. `blocked` is the wait on the condition variable: the thread stays there, and the queue as it
-- was, until an Insert sets `next_available`.
unfoldable pub pop : BlockingQueue → Outcome (FlowPacket × BlockingQueue)
unfolding take_front
pop q = if q.next_available then take_front q q.deque else fault blocked

-- Empty.
abbrev pub is_empty : BlockingQueue → Bool
is_empty q = elim q.deque [ [] ↦ true | ◌∷◌ _ _ ↦ false ]

-- Clear leaves `current_id` and `byte_size` as they are.
unfoldable pub clear : BlockingQueue → BlockingQueue
clear q = record q { size_ = 0; deque = []; next_available = false }

unfoldable pub to_string : BlockingQueue → Text
to_string q =
    codes "BlockingFlowPacketQueue[size="
    ++ (decimal q.size_
        ++ (codes ", currentId="
            ++ (decimal q.current_id
                ++ (codes ", byteSize=" ++ (decimal q.byte_size ++ codes "]")))))
