-- ===== src/Collections/LockFree.antt =====
-- src/collections/LockFreeFlowPacketQueue.h and LockFreeFlowPacketQueue.cpp: a list of nodes by
-- descending id, which threads change with compare-and-swap. Each step is one access to what the
-- threads share; the steps of the threads come in any order.
pub mod Pop
pub mod Clear
pub mod Threads
pub mod Linked
pub mod Between
pub mod Inserts
pub mod Schedules
pub mod Solo
pub mod Progress
pub mod Races
pub mod Alone
use multipath_proxy.Prelude.{
  ℕ, suc, ◌+◌, ◌%◌, ◌^◌, Bool, true, false, List, [], ◌∷◌, ◌++◌, Option, none, some, ltb, ◌==◌,
  if◌then◌else◌,
}
use multipath_proxy.Text.{Text, codes, decimal}
use multipath_proxy.Packet.FlowPacket.{FlowPacket, id, size}
use multipath_proxy.Collections.BlockingQueue.{add64}

-- LockFreeFlowPacketQueueNode. A pointer is the number of a node, or none.
pub record Node : Type 0 where
  pub flow_packet : FlowPacket
  pub next : Option ℕ

-- The fields of the queue, and the nodes: `nodes` has none where nothing is allocated any more, or
-- not yet, and nothing is allocated from `fresh` on.
pub record Queue : Type 0 where
  pub head : Option ℕ
  pub tail_hint : Option ℕ
  pub size_ : ℕ
  pub trans_count : ℕ
  pub current_id : ℕ
  pub byte_size : ℕ
  pub nodes : ℕ → Option Node
  pub fresh : ℕ

-- LockFreeFlowPacketQueue(), which leaves transCount_ as it finds it.
unfoldable pub new : ℕ → Queue
new t = record {
  head = none;
  tail_hint = none;
  size_ = 0;
  trans_count = t;
  current_id = 0;
  byte_size = 0;
  nodes = λ _. none;
  fresh = 0;
}

-- Pointers are equal.
abbrev pub same : Option ℕ → Option ℕ → Bool
same none none = true
same (some a) (some b) = a == b
same _ _ = false

abbrev pub put : (ℕ → Option Node) → ℕ → Option Node → ℕ → Option Node
put nodes a n b = if a == b then n else nodes b

-- `newNode`, with its next.
abbrev pub allocate : Queue → FlowPacket → Option ℕ → Queue
allocate q p next = record q {
  nodes = put q.nodes q.fresh (some (record { flow_packet = p; next = next }));
  fresh = suc q.fresh;
}

abbrev pub store_next : Queue → ℕ → Node → Option ℕ → Queue
store_next q a n next = record q { nodes = put q.nodes a (some (record n { next = next })) }

-- fetch_add(1) on transCount_.
abbrev pub count_call : Queue → Queue
count_call q = record q { trans_count = add64 q.trans_count 1 }

-- Where a thread stands in Insert, by the access that comes next. The name `crashed` is for a
-- pointer that is null or to a node that is deleted.
pub data InsertAt : Type 0 where
  entering loading storing reloading : FlowPacket → InsertAt
  comparing prepending walking : FlowPacket → ℕ → InsertAt
  following : FlowPacket → ℕ → ℕ → InsertAt
  linking : FlowPacket → ℕ → Option ℕ → InsertAt
  hinting : FlowPacket → ℕ → InsertAt
  counting weighing inserted refused : FlowPacket → InsertAt
  crashed : InsertAt

-- ptr->flowPacket->header()->id() < flowPacket->header()->id(), on the head.
unfoldable pub compare_head : FlowPacket → ℕ → Option Node → InsertAt
compare_head p a none = crashed
compare_head p a (some n) = if ltb (id n.flow_packet) (id p) then prepending p a else walking p a

-- The node behind the one that is looked at.
abbrev pub step_on : FlowPacket → ℕ → Option ℕ → InsertAt
step_on p a none = linking p a none
step_on p a (some b) = following p a b

-- The round of the loop up to the load of `next`. A packet with the id is IdAlreadyExistsException.
unfoldable pub walk : FlowPacket → ℕ → Option Node → InsertAt
walk p a none = crashed
walk p a (some n) = if id n.flow_packet == id p then refused p else step_on p a n.next

-- The rest of the round.
unfoldable pub follow : FlowPacket → ℕ → ℕ → Option Node → InsertAt
follow p a b none = crashed
follow p a b (some m) = if ltb (id m.flow_packet) (id p) then linking p a (some b) else walking p b

-- Behind the compare-exchange that links a node.
abbrev pub linked : FlowPacket → ℕ → Option ℕ → InsertAt
linked p new none = hinting p new
linked p new (some b) = counting p

-- ptr->next.compare_exchange_strong(node, newNode)
unfoldable pub link : Queue → FlowPacket → ℕ → Option ℕ → Option Node → Queue × InsertAt
link q p a b none = (q, crashed)
link q p a b (some n) =
    if same n.next b
    then (allocate (store_next q a n (some q.fresh)) p b, linked p q.fresh b)
    else (q, reloading p)

-- The head, where a thread starts again.
abbrev pub reload : FlowPacket → Option ℕ → InsertAt
reload p none = crashed
reload p (some a) = walking p a

abbrev pub load_head : FlowPacket → Option ℕ → InsertAt
load_head p none = storing p
load_head p (some a) = comparing p a

-- The next access of Insert.
unfoldable pub insert_move : Queue → InsertAt → Queue × InsertAt
insert_move q (entering p) = (count_call q, loading p)
insert_move q (loading p) = (q, load_head p q.head)
insert_move q (storing p) = (record (allocate q p none) { head = some q.fresh }, hinting p q.fresh)
insert_move q (comparing p a) = (q, compare_head p a (q.nodes a))
insert_move q (prepending p a) =
    if same q.head (some a)
    then (record (allocate q p (some a)) { head = some q.fresh }, counting p)
    else (q, entering p)
insert_move q (walking p a) = (q, walk p a (q.nodes a))
insert_move q (following p a b) = (q, follow p a b (q.nodes b))
insert_move q (linking p a b) = link q p a b (q.nodes a)
insert_move q (reloading p) = (q, reload p q.head)
insert_move q (hinting p a) = (record q { tail_hint = some a }, counting p)
insert_move q (counting p) = (record q { size_ = add64 q.size_ 1 }, weighing p)
insert_move q (weighing p) = (record q { byte_size = add64 q.byte_size (size p) }, inserted p)
insert_move q (inserted p) = (q, inserted p)
insert_move q (refused p) = (q, refused p)
insert_move q crashed = (q, crashed)

-- Empty.
abbrev pub is_empty : Queue → Bool
is_empty q = q.size_ == 0

unfoldable pub to_string : Queue → Text
to_string q =
    codes "FlowPacketQueue[size="
    ++ (decimal q.size_
        ++ (codes ", currentId="
            ++ (decimal q.current_id
                ++ (codes ", byteSize=" ++ (decimal q.byte_size ++ codes "]")))))
