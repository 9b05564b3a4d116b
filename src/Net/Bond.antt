-- ===== src/Net/Bond.antt =====
-- src/net/Bond.cpp: SendToTer, SendToSat, WriteHeartBeatPacket, and what RecvFromConnection does
-- with a packet that it has read. Each holds its lock while it sends, so it is one step.
pub mod Ways
pub mod Life
pub mod Dispatch
pub mod HeartBeats
use multipath_proxy.Prelude.{
  ℕ, zero, suc, Bool, true, false, List, [], ◌∷◌, Option, none, some, ltb, ◌==◌, if◌then◌else◌,
}
use multipath_proxy.Exception.{Exception}
use multipath_proxy.Outcome.{Outcome, done, throws, fault, blocked, ◌>>=◌}
use multipath_proxy.Packet.Buffer.{Allocator, Buffer}
use multipath_proxy.Packet.FlowHeader
use multipath_proxy.Packet.FlowPacket.{FlowPacket, header, size, store_size}
use multipath_proxy.Packet.HeartBeat
use multipath_proxy.Net.SockAddr.{SockAddrIn}
use multipath_proxy.Net.Transport.{Transport}
use multipath_proxy.Net.Send.{SendEnd, written, retrying, send_to_connection}
use multipath_proxy.Collections.FlowMap.{FlowMap, find, insert}

-- What IoCtl gives for TIOCOUTQ or FIONREAD.
pub data QueueLevel : Type 0 where
  level : ℕ → QueueLevel
  level_failed : Exception → QueueLevel

abbrev pub read_level : QueueLevel → Outcome ℕ
read_level (level n) = done n
read_level (level_failed e) = throws e

-- while (IoCtl(TIOCOUTQ) > limit) usleep: the readings that are left when it ends; `blocked` when
-- the readings run out.
unfoldable pub wait_below : ℕ → List QueueLevel → Outcome (List QueueLevel)
wait_below limit [] = fault blocked
wait_below limit (level_failed e ∷ ls) = throws e
wait_below limit (level n ∷ ls) =
    let rest = wait_below limit ls in if ltb limit n then rest else done ls

-- The two limits, in bytes.
abbrev pub ter_limit : ℕ
ter_limit = 7500

abbrev pub sat_limit : ℕ
sat_limit = 3750000

-- The ways of a bond.
pub data Way : Type 0 where
  by_ter by_sat : Way

-- args::TER_ENABLED and args::SAT_ENABLED
pub record Args : Type 0 where
  pub ter_enabled : Bool
  pub sat_enabled : Bool

module _ (t : Transport) where
  open t use {Conn}

  -- The connections, and what their send queues will be found to hold.
  pub record Bond : Type 0 where
    pub ter_connection : Conn
    pub sat_connection : Conn
    pub ter_levels : List QueueLevel
    pub sat_levels : List QueueLevel

  -- Sent; not sent with the fuel given; or handed from one method to the other to the last.
  pub data Sending : Type 0 where
    delivered : Bond → Sending
    unfinished : Sending
    redirecting : Sending

  abbrev pub sending : SendEnd t → (Conn → Bond) → Sending
  sending (written c) k = delivered (k c)
  sending (retrying c) k = unfinished

  -- The part of SendToTer and of SendToSat behind the redirection.
  unfoldable pub send_by_ter : ℕ → Bond → FlowPacket → Outcome Sending
  send_by_ter fuel b p = do
    ls ← wait_below ter_limit b.ter_levels
    end ← send_to_connection t fuel b.ter_connection p
    done (sending end (λ c. record b { ter_connection = c; ter_levels = ls }))

  unfoldable pub send_by_sat : ℕ → Bond → FlowPacket → Outcome Sending
  send_by_sat fuel b p = do
    ls ← wait_below sat_limit b.sat_levels
    end ← send_to_connection t fuel b.sat_connection p
    done (sending end (λ c. record b { sat_connection = c; sat_levels = ls }))

  -- SendToTer and SendToSat, which call each other; `hops` counts the calls.
  unfoldable pub send_by : Args → ℕ → ℕ → Way → Bond → FlowPacket → Outcome Sending
  send_by args zero fuel w b p = done redirecting
  send_by args (suc hops) fuel by_ter b p =
      let other = send_by args hops fuel by_sat b p in
      if args.ter_enabled then send_by_ter fuel b p else other
  send_by args (suc hops) fuel by_sat b p =
      let other = send_by args hops fuel by_ter b p in
      if args.sat_enabled then send_by_sat fuel b p else other

  -- The test of WriteHeartBeatPacket, of the send queue first.
  unfoldable pub is_quiet : QueueLevel → QueueLevel → Outcome Bool
  is_quiet out in_ = do
    o ← read_level out
    (if o == 0 then done true else (read_level in_ >>= λ i. done (i == 0)))

  -- WriteHeartBeatPacket, where `free` is what try_lock gives; the bond, and whether it has sent.
  unfoldable pub write_heart_beat :
      Allocator → ℕ → QueueLevel → QueueLevel → Bool → Conn → Outcome (SendEnd t)
  write_heart_beat heap fuel out in_ free c = do
    quiet ← is_quiet out in_
    (let sends = (do p ← HeartBeat.make heap; send_to_connection t fuel c p) in
        if quiet then (if free then sends else done (written c)) else done (written c))

-- Where a packet goes: nowhere, to a flow, or back over the terrestrial way.
pub data Dispatched (F : Type 0) : Type 0 where
  dropped : FlowMap F → Dispatched F
  to_flow : F → FlowPacket → FlowMap F → Dispatched F
  refused : FlowPacket → FlowMap F → Dispatched F

-- RecvFromConnection behind Resize. `connect` makes the connection to the endpoint and the flow.
unfoldable pub connect_flow :
    {F : Type 0} → Outcome F → FlowPacket → FlowMap F → Outcome (Dispatched F)
connect_flow (done f) p m =
    done
      (to_flow f p (insert (FlowHeader.source (header p)) (FlowHeader.destination (header p)) f m))
connect_flow (throws e) p m = store_size 0 p >>= λ q. done (refused q m)
connect_flow (fault x) p m = fault x

unfoldable pub dispatch :
    {F : Type 0} → (SockAddrIn → Outcome F) → FlowPacket → FlowMap F → Outcome (Dispatched F)
dispatch connect p m =
    elim (find (FlowHeader.source (header p)) (FlowHeader.destination (header p)) m) [
      | some f ↦ done (to_flow f p m)
      | none ↦
          if size p == 0
          then done (dropped m)
          else connect_flow (connect (FlowHeader.destination (header p))) p m
    ]
