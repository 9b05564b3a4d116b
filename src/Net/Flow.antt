-- ===== src/Net/Flow.antt =====
-- src/net/Flow.cpp: a flow between an endpoint and the bond. Its three loopers and the bond call the
-- handlers; one call of a handler is one step, up to the test of `closed_`, which the two senders
-- share without a lock: behind a close packet each access to it is a step of its own. What the
-- sockets do is an argument.
pub mod Quiet
pub mod ClosePackets
pub mod Orderly
pub mod Senders
pub mod Closing
pub mod Missed
pub mod Life
pub mod Satellite
pub mod Numbered
pub mod Outgoing
pub mod Incoming
use multipath_proxy.Prelude.{
  ℕ, zero, suc, ◌+◌, ◌-◌, ◌≡◌, Bool, true, false, not, ◌&&◌, ◌||◌, List, [], ◌∷◌, ◌++◌, Option,
  none, some, ltb, leb, ◌==◌, if◌then◌else◌, length, take,
}
use multipath_proxy.Exception.{Exception}
use multipath_proxy.Outcome.{Outcome, done, throws, fault, Fault, blocked, still_running}
use multipath_proxy.Packet.Buffer.{Allocator}
use multipath_proxy.Packet.FlowHeader
use multipath_proxy.Packet.FlowPacket
use multipath_proxy.Packet.FlowPacket.{FlowPacket, id, size, payload, write_at, store_id}
use multipath_proxy.Text.{Text, codes}
use multipath_proxy.Net.SockAddr
use multipath_proxy.Net.SockAddr.{SockAddrIn}
use multipath_proxy.Net.Transport.{RecvResult, received, recv_failed, SendResult, sent, send_failed}
use multipath_proxy.Collections.BlockingQueue.{
  BlockingQueue, empty_queue, add64, sub64, insert, pop, clear,
}

-- Where a sender stands that has found a close packet and stopped its looper: it tests `closed_`
-- next, it has tested it, or it has done what follows, by what it has seen.
pub data CloseAt : Type 0 where
  quiet : CloseAt
  testing : FlowPacket → CloseAt
  tested : FlowPacket → Bool → CloseAt
  ended : Bool → CloseAt

-- The fields of the flow, the backlog that all flows share, what was handed to the endpoint and to
-- the two paths of the bond (latest first), and how often `delete this` was started.
pub record Flow : Type 0 where
  pub source : SockAddrIn
  pub destination : SockAddrIn
  pub to_connection : BlockingQueue
  pub to_bond : BlockingQueue
  pub to_bond_id : ℕ
  pub satellite : Bool
  pub last_send : ℕ
  pub closed : Bool
  pub recv_running : Bool
  pub send_running : Bool
  pub bond_running : Bool
  pub total_backlog : ℕ
  pub delivered : List ℕ
  pub shut_down : Bool
  pub ter : List FlowPacket
  pub sat : List FlowPacket
  pub deletions : ℕ
  pub send_close : CloseAt
  pub bond_close : CloseAt

-- Flow(…), which starts the three loopers.
abbrev pub make : SockAddrIn → SockAddrIn → ℕ → Flow
make source destination backlog = record {
  source = source;
  destination = destination;
  to_connection = empty_queue;
  to_bond = empty_queue;
  to_bond_id = 0;
  satellite = false;
  last_send = 0;
  closed = false;
  recv_running = true;
  send_running = true;
  bond_running = true;
  total_backlog = backlog;
  delivered = [];
  shut_down = false;
  ter = [];
  sat = [];
  deletions = 0;
  send_close = quiet;
  bond_close = quiet;
}

-- byteSize() and ToString()
abbrev pub byte_size : Flow → ℕ
byte_size s = s.to_bond.byte_size

unfoldable pub to_string : Flow → Text
to_string s =
    codes "Flow[source="
    ++ (SockAddr.to_string s.source
        ++ (codes ", destination=" ++ (SockAddr.to_string s.destination ++ codes "]")))

-- How a handler ends: it returns, an exception leaves it, or it does not end well.
pub data Handled : Type 0 where
  returned : Flow → Handled
  raised : Flow → Exception → Handled
  crashed : Fault → Handled

-- The rest of a handler behind a call, in the state of that moment.
unfoldable pub after {ℓ} : {A : Type ℓ} → Outcome A → Flow → (A → Handled) → Handled
after (done a) s k = k a
after (throws e) s k = raised s e
after (fault x) s k = crashed x

-- WriteToFlow
unfoldable pub write_to_flow : FlowPacket → Flow → Flow
write_to_flow p s = record s { to_connection = insert p s.to_connection }

-- The preload limit, and the size of the buffer that is read into.
abbrev pub preload_limit : ℕ
preload_limit = 4500000

abbrev pub read_size : ℕ
read_size = 1024

-- connection_->Recv(flowPacket->data(), …); a failure is logged, with no bytes read.
unfoldable pub read_data : RecvResult → FlowPacket → Outcome FlowPacket
read_data (received bytes) p = write_at 28 bytes p
read_data (recv_failed e) p = done p

abbrev pub bytes_read : RecvResult → ℕ
bytes_read (received bytes) = length bytes
bytes_read (recv_failed e) = 0

-- Resize, and on to the queue and the backlog.
unfoldable pub queue_packet : Allocator → ℕ → FlowPacket → Flow → Handled
queue_packet heap n p s = after (FlowPacket.resize heap p n) s (λ q.
    returned (record s { to_bond = insert q s.to_bond; total_backlog = add64 s.total_backlog n }))

-- Behind Recv: the close packet, or the data.
unfoldable pub close_or_queue : Allocator → ℕ → FlowPacket → Flow → Handled
close_or_queue heap n p s =
    if n == 0
    then (let s1 : Flow = record s { recv_running = false } in
        if s.closed
        then (let s2 : Flow = record s1 { to_bond = clear s1.to_bond } in
            after (store_id s2.to_bond.current_id p) s2 (λ q. queue_packet heap n q s2))
        else queue_packet heap n p s1)
    else queue_packet heap n p s

-- RecvFromConnection, behind Poll.
unfoldable pub recv_from_connection : Allocator → RecvResult → Flow → Handled
recv_from_connection heap r s =
    let s1 : Flow = record s { to_bond_id = add64 s.to_bond_id 1 } in
    if leb preload_limit (byte_size s)
    then returned s
    else after (FlowPacket.make heap (FlowHeader.new s.source s.destination s.to_bond_id) read_size)
        s1 (λ p. after (read_data r p) s1 (λ q. close_or_queue heap (bytes_read r) q s1))

-- The one call of Send: what it does not take over is lost.
abbrev pub bytes_sent : SendResult → ℕ
bytes_sent (sent n) = n
bytes_sent (send_failed e) = 0

-- SendToConnection
unfoldable pub send_to_connection : SendResult → Flow → Handled
send_to_connection r s = after (pop s.to_connection) s (λ popped.
    let s1 : Flow = record s { to_connection = popped.1 } in
    if size popped.0 == 0
    then returned (record s1 { send_running = false; send_close = testing popped.0 })
    else returned
        (record s1 { delivered = s1.delivered ++ take (bytes_sent r) (payload popped.0) }))

-- bond_->SendToTer and bond_->SendToSat
abbrev pub to_ter : FlowPacket → Flow → Flow
to_ter p s = record s { ter = p ∷ s.ter }

abbrev pub to_sat : FlowPacket → Flow → Flow
to_sat p s = record s { sat = p ∷ s.sat }

-- The state behind a call that may throw, and the one in which its exception leaves the handler.
abbrev pub unless_fails : Option Exception → Flow → Flow → Handled
unless_fails none s t = returned s
unless_fails (some e) s t = raised t e

-- The assertion, and `delete this`.
abbrev pub delete_this : Flow → (Flow → Handled) → Handled
delete_this s k =
    if s.recv_running || (s.send_running || s.bond_running)
    then crashed still_running
    else k (record s { deletions = s.deletions + 1 })

-- SendToConnection behind a close packet: it tests closed_, and then deletes the flow, or sets
-- closed_ and calls Shutdown, which may throw.
unfoldable pub close_send : Option Exception → CloseAt → Flow → Handled
close_send fails quiet s = returned s
close_send fails (testing p) s = returned (record s { send_close = tested p s.closed })
close_send fails (tested p true) s =
    delete_this s (λ t. returned (record t { send_close = ended true }))
close_send fails (tested p false) s =
    let t : Flow = record s { closed = true; send_close = ended false } in
    unless_fails fails (record t { shut_down = true }) t
close_send fails (ended b) s = returned s

-- SendToBond behind a close packet: it tests closed_, and then deletes the flow, or sets closed_, and
-- gives the packet to SendToTer, which may throw.
unfoldable pub close_bond : Option Exception → CloseAt → Flow → Handled
close_bond fails quiet s = returned s
close_bond fails (testing p) s = returned (record s { bond_close = tested p s.closed })
close_bond fails (tested p true) s =
    delete_this s (λ t.
      let u : Flow = record t { bond_close = ended true } in unless_fails fails (to_ter p u) u)
close_bond fails (tested p false) s =
    let t : Flow = record s { closed = true; bond_close = ended false } in
    unless_fails fails (to_ter p t) t
close_bond fails (ended b) s = returned s

-- satellite_.clear() more than 600 ms after the last packet.
unfoldable pub settle : ℕ → Flow → Flow
settle now s = if ltb (s.last_send + 600) now then record s { satellite = false } else s

-- The terrestrial path is for little backlog and for the first packet, unless the flow has moved.
abbrev pub by_ter : FlowPacket → Flow → Bool
by_ter p s = (ltb (byte_size s) 2000 || (ltb s.total_backlog 74219 || id p == 0)) && not s.satellite

unfoldable pub choose_path : FlowPacket → Flow → Flow
choose_path p s = if by_ter p s then to_ter p s else to_sat p (record s { satellite = true })

-- Where the path throws, the packet is lost.
unfoldable pub lose_packet : FlowPacket → Flow → Flow
lose_packet p s = if by_ter p s then s else record s { satellite = true }

-- A round of SendToBond: the times in milliseconds of the test and of the time stamp, and what
-- SendToTer or SendToSat throws.
pub record Round : Type 0 where
  pub now : ℕ
  pub later : ℕ
  pub fails : Option Exception

-- SendToBond
unfoldable pub send_to_bond : Round → Flow → Handled
send_to_bond r s = after (pop s.to_bond) s (λ popped.
    let s1 : Flow = record s { to_bond = popped.1 } in
    let s2 : Flow = record s1 { total_backlog = sub64 s1.total_backlog (size popped.0) } in
    if size popped.0 == 0
    then returned (record s1 { bond_running = false; bond_close = testing popped.0 })
    else unless_fails r.fails
        (record (choose_path popped.0 (settle r.now s2)) { last_send = r.later })
        (lose_packet popped.0 (settle r.now s2)))

-- What happens to a flow: a packet from the bond, one round of a looper, or what comes next in a
-- sender that has found a close packet, with what Shutdown or SendToTer throws.
pub data Event : Type 0 where
  writes : FlowPacket → Event
  receives : RecvResult → Event
  drains : SendResult → Event
  forwards : Round → Event
  closes_send closes_bond : Option Exception → Event

-- A looper that was stopped does nothing.
unfoldable pub step : Allocator → Event → Flow → Handled
step heap (writes p) s = returned (write_to_flow p s)
step heap (receives r) s = if s.recv_running then recv_from_connection heap r s else returned s
step heap (drains r) s = if s.send_running then send_to_connection r s else returned s
step heap (forwards r) s = if s.bond_running then send_to_bond r s else returned s
step heap (closes_send fails) s = close_send fails s.send_close s
step heap (closes_bond fails) s = close_bond fails s.bond_close s

-- Looper.Run logs an exception and goes on; a wait leaves the flow to the other threads.
unfoldable pub go_on : Handled → Flow → (Flow → Handled) → Handled
go_on (returned s') s k = k s'
go_on (raised s' x) s k = k s'
go_on (crashed Fault.blocked) s k = k s
go_on (crashed x) s k = crashed x

unfoldable pub run : Allocator → Flow → List Event → Handled
run heap s [] = returned s
run heap s (e ∷ es) = go_on (step heap e s) s (λ t. run heap t es)
