-- ===== src/Tests/Bonds.antt =====
-- The theorems on the bond at concrete inputs.
use multipath_proxy.Prelude.{ℕ, ◌≡◌, refl, true, false, [], ◌∷◌, none, arith}
use multipath_proxy.Exception.{Exception, ExceptionClass}
use multipath_proxy.Outcome.{done, throws}
use multipath_proxy.Packet.FlowHeader.{set_size}
use multipath_proxy.Packet.FlowHeader
use multipath_proxy.Packet.Layout.{header_bytes, flow_fields_bytes, read_flow_header}
use multipath_proxy.Packet.FlowPacket.{FlowPacket, header, payload, size}
use multipath_proxy.Packet.Buffer.{IsValid}
use multipath_proxy.Net.SockAddr.{SockAddrIn}
use multipath_proxy.Net.Bond.{
  level, wait_below, by_ter, by_sat, Bond, send_by, is_quiet, to_flow, refused, dispatch,
}
use multipath_proxy.Net.Bond.Ways.{SentBy, Drains, send_by-SentBy}
use multipath_proxy.Net.Proxy.{accept}
use multipath_proxy.Net.Proxy.Accepted.{accept-dispatch}
use multipath_proxy.Net.Bond.Dispatch.{dispatch_same_flow, dispatch_refused}
use multipath_proxy.Collections.FlowMap.{FlowMap, find, lookup}
use multipath_proxy.Tests.Heap.{slow, slow-Sends}
use multipath_proxy.Tests.Packets.{packet_of, packet_long}

abbrev data_packet : FlowPacket
data_packet = packet_of 4 (7 ∷ 8 ∷ [])

data_packet-IsValid : IsValid data_packet
data_packet-IsValid = record { sized = packet_long 4 (7 ∷ 8 ∷ []); small = omega arith }

-- The terrestrial queue is found full once.
abbrev bond : Bond slow
bond = record {
  ter_connection = ([], []);
  sat_connection = ([], 1 ∷ []);
  ter_levels = level 9000 ∷ level 100 ∷ [];
  sat_levels = level 0 ∷ [];
}

bond-Drains : Drains slow bond
unfolding wait_below
bond-Drains = record { ter_left = []; ter_drains = refl; sat_left = []; sat_drains = refl }

send_by-SentBy_example :
    SentBy slow bond data_packet
      (send_by slow
        (record { ter_enabled = false; sat_enabled = true })
        2
        100
        by_ter
        bond
        data_packet)
      by_sat
send_by-SentBy_example =
    send_by-SentBy slow 100 bond data_packet slow-Sends bond-Drains data_packet-IsValid
      (omega arith) (record { ter_enabled = false; sat_enabled = true }) 0 by_ter by_sat refl

quiet : is_quiet slow (level 0) (level 12) ≡ done true
unfolding is_quiet
quiet = refl

abbrev no_flows : FlowMap ℕ
no_flows = record { entries = []; byte_size = 0 }

none_there : (s d : SockAddrIn) → find s d no_flows ≡ none
unfolding find lookup
none_there s d = refl

data_size : size data_packet ≡ 2
unfolding header read_flow_header header_bytes flow_fields_bytes
data_size = refl

dispatch_same_flow_example :
    (m' : FlowMap ℕ) × (dispatch (λ d. done 7) data_packet no_flows
      ≡ done (to_flow 7 data_packet m'))
    × (dispatch (λ d. done 7) data_packet m' ≡ done (to_flow 7 data_packet m'))
dispatch_same_flow_example =
    dispatch_same_flow (λ d. done 7) data_packet data_packet no_flows 7 (none_there _ _)
      (omega (arith, data_size)) refl refl refl

abbrev no_route : Exception
no_route = record { class = ExceptionClass.socket_error_exception; message = [] }

dispatch_refused_example :
    (q : FlowPacket) × (dispatch {F = ℕ} (λ d. throws no_route) data_packet no_flows
      ≡ done (refused q no_flows))
    × (header q ≡ set_size (header data_packet) 0)
    × (payload q ≡ payload data_packet)
    × (q.size ≡ data_packet.size)
dispatch_refused_example =
    dispatch_refused (λ d. throws no_route) data_packet no_flows no_route (none_there _ _)
      (omega (arith, data_size)) (omega (arith, packet_long 4 (7 ∷ 8 ∷ []))) refl

-- A connection is a number, which is also its flow's.
accept-dispatch_example :
    (m' : FlowMap ℕ) × (accept
        (λ c. done (FlowHeader.destination (header data_packet)))
        (λ s d c. c)
        (done (FlowHeader.source (header data_packet), 7))
        no_flows
      ≡ done m')
    × (dispatch (λ d. throws no_route) data_packet m' ≡ done (to_flow 7 data_packet m'))
accept-dispatch_example =
    accept-dispatch (λ c. done (FlowHeader.destination (header data_packet))) (λ s d c. c)
      (λ d. throws no_route) (FlowHeader.source (header data_packet))
      (FlowHeader.destination (header data_packet)) 7 no_flows data_packet refl (none_there _ _)
      refl refl
