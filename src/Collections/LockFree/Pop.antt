-- ===== src/Collections/LockFree/Pop.antt =====
-- LockFreeFlowPacketQueue::Pop (src/collections/LockFreeFlowPacketQueue.cpp), an access at a time.
use multipath_proxy.Prelude.{ℕ, ◌+◌, ◌%◌, ◌^◌, Option, none, some, ◌==◌, if◌then◌else◌}
use multipath_proxy.Packet.FlowPacket.{FlowPacket, id, size}
use multipath_proxy.Collections.BlockingQueue.{sub64}
use multipath_proxy.Collections.LockFree.{Node, Queue, same, put, store_next, count_call}

-- Where a thread stands in Pop. What follows the compare-exchange carries the node that is taken
-- out, and what `tailHint_` is set to, where it is set.
pub data PopAt : Type 0 where
  pop_entering pop_loading pop_crashed : PopAt
  testing : Option ℕ → PopAt
  looking matching heading : ℕ → PopAt
  pacing : Option ℕ → ℕ → PopAt
  peeking checking unlinking : Option ℕ → ℕ → ℕ → PopAt
  uncounting advancing unweighing unhinting : Node → ℕ → Option (Option ℕ) → PopAt
  deleting : Node → ℕ → PopAt
  popped : Option FlowPacket → PopAt

-- The second load of the head, and the pointer that the first one gave.
abbrev pub test_head : Option ℕ → Option ℕ → PopAt
test_head ptr none = popped none
test_head none (some h) = pop_crashed
test_head (some a) (some h) = looking a

-- Whether the head is also the tail.
abbrev pub look : ℕ → Option Node → PopAt
look a none = pop_crashed
look a (some n) = elim n.next [ none ↦ matching a | some _ ↦ pacing none a ]

-- The head alone: its id against currentId_.
abbrev pub match_only : ℕ → ℕ → Option Node → PopAt
match_only c a none = pop_crashed
match_only c a (some n) = if id n.flow_packet == c then heading a else popped none

-- node = ptr->next
abbrev pub pace : Option ℕ → ℕ → Option Node → PopAt
pace last a none = pop_crashed
pace last a (some n) = elim n.next [ none ↦ popped none | some b ↦ peeking last a b ]

-- !node->next
abbrev pub peek : Option ℕ → ℕ → ℕ → Option Node → PopAt
peek last a b none = pop_crashed
peek last a b (some m) = elim m.next [ none ↦ checking last a b | some _ ↦ pacing (some a) b ]

-- The id of the tail against currentId_.
abbrev pub match_tail : ℕ → Option ℕ → ℕ → ℕ → Option Node → PopAt
match_tail c last a b none = pop_crashed
match_tail c last a b (some m) =
    if id m.flow_packet == c then unlinking last a b else pacing (some a) b

-- `tailHint_ = ptr` where there is a node in front of `ptr`.
abbrev pub new_hint : Option ℕ → ℕ → Option (Option ℕ)
new_hint none a = none
new_hint (some _) a = some (some a)

-- Behind the compare-exchange, which does not look into the node: its header is read for its size.
abbrev pub taken : ℕ → Option (Option ℕ) → Option Node → PopAt
taken a h none = pop_crashed
taken a h (some n) = uncounting n a h

-- head_.compare_exchange_strong(ptr, nullptr)
abbrev pub behead : Queue → ℕ → Option Node → Queue × PopAt
behead q a n =
    if same q.head (some a)
    then (record q { head = none }, taken a (some none) n)
    else (q, popped none)

-- ptr->next.compare_exchange_strong(node, nullptr)
abbrev pub unlink : Queue → Option ℕ → ℕ → ℕ → Option Node → Option Node → Queue × PopAt
unlink q last a b none m = (q, pop_crashed)
unlink q last a b (some n) m =
    if same n.next (some b)
    then (store_next q a n none, taken b (new_hint last a) m)
    else (q, popped none)

abbrev pub set_hint : Queue → Option (Option ℕ) → Queue
set_hint q none = q
set_hint q (some h) = record q { tail_hint = h }

-- The next access of Pop.
unfoldable pub pop_move : Queue → PopAt → Queue × PopAt
pop_move q pop_entering = (count_call q, pop_loading)
pop_move q pop_loading = (q, testing q.head)
pop_move q (testing ptr) = (q, test_head ptr q.head)
pop_move q (looking a) = (q, look a (q.nodes a))
pop_move q (matching a) = (q, match_only q.current_id a (q.nodes a))
pop_move q (heading a) = behead q a (q.nodes a)
pop_move q (pacing last a) = (q, pace last a (q.nodes a))
pop_move q (peeking last a b) = (q, peek last a b (q.nodes b))
pop_move q (checking last a b) = (q, match_tail q.current_id last a b (q.nodes b))
pop_move q (unlinking last a b) = unlink q last a b (q.nodes a) (q.nodes b)
pop_move q (uncounting n a h) = (record q { size_ = sub64 q.size_ 1 }, advancing n a h)
pop_move q (advancing n a h) =
    (record q { current_id = (q.current_id + 1) % 2 ^ 32 }, unweighing n a h)
pop_move q (unweighing n a h) =
    (record q { byte_size = sub64 q.byte_size (size n.flow_packet) }, unhinting n a h)
pop_move q (unhinting n a h) = (set_hint q h, deleting n a)
pop_move q (deleting n a) = (record q { nodes = put q.nodes a none }, popped (some n.flow_packet))
pop_move q (popped r) = (q, popped r)
pop_move q pop_crashed = (q, pop_crashed)
