-- ===== src/Collections/LockFree/Clear.antt =====
-- LockFreeFlowPacketQueue::Clear (src/collections/LockFreeFlowPacketQueue.cpp), an access at a time.
use multipath_proxy.Prelude.{ℕ, Option, none, some}
use multipath_proxy.Collections.LockFree.{Node, Queue, put, store_next}

-- Where a thread stands in Clear, by the access that comes next.
pub data ClearAt : Type 0 where
  clear_loading clear_reloading uncounting_all uncounting_calls cleared clear_crashed : ClearAt
  unheading reheading rehinting : Option ℕ → ClearAt
  stepping : ℕ → ClearAt
  cutting dropping : ℕ → Option ℕ → ClearAt

-- while(ptr)
abbrev pub on : Option ℕ → ClearAt
on none = uncounting_all
on (some a) = stepping a

-- Behind the step to the next node: at the end of the list the head is looked at again.
abbrev pub past : Option ℕ → ClearAt
past none = clear_reloading
past (some b) = stepping b

abbrev pub read_next : ℕ → Option Node → ClearAt
read_next a none = clear_crashed
read_next a (some n) = cutting a n.next

abbrev pub cut : Queue → ℕ → Option ℕ → Option Node → Queue × ClearAt
cut q a b none = (q, clear_crashed)
cut q a b (some n) = (store_next q a n none, dropping a b)

-- The next access of Clear, which leaves `current_id` and `byte_size` as they are.
unfoldable pub clear_move : Queue → ClearAt → Queue × ClearAt
clear_move q clear_loading = (q, unheading q.head)
clear_move q (unheading ptr) = (record q { head = none }, on ptr)
clear_move q (stepping a) = (q, read_next a (q.nodes a))
clear_move q (cutting a b) = cut q a b (q.nodes a)
clear_move q (dropping a b) = (record q { nodes = put q.nodes a none }, past b)
clear_move q clear_reloading = (q, reheading q.head)
clear_move q (reheading ptr) = (record q { head = none }, rehinting ptr)
clear_move q (rehinting ptr) = (record q { tail_hint = none }, on ptr)
clear_move q uncounting_all = (record q { size_ = 0 }, uncounting_calls)
clear_move q uncounting_calls = (record q { trans_count = 0 }, cleared)
clear_move q cleared = (q, cleared)
clear_move q clear_crashed = (q, clear_crashed)
