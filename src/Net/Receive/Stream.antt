-- ===== src/Net/Receive/Stream.antt =====
-- The looper of a connection: RecvFromConnection call after call, on a stream of packets and
-- heartbeats.
use mathlib.Core.List.{append_assoc}
use mathlib.Core.Path.{ap₂}
use multipath_proxy.Prelude.{
  ℕ, zero, suc, ◌<◌, ◌≡◌, refl, ◌∙◌, List, [], ◌∷◌, ◌++◌, map, arith, length,
}
use multipath_proxy.Outcome.{Outcome, done, ◌>>=◌}
use multipath_proxy.Packet.Buffer.{Allocator}
use multipath_proxy.Packet.FlowHeader.{FlowHeader}
use multipath_proxy.Packet.HeartBeat.{heart_beat_header}
use multipath_proxy.Packet.Layout.{header_bytes}
use multipath_proxy.Packet.FlowPacket.{FlowPacket, header, payload}
use multipath_proxy.Net.Transport.{Transport, Receives}
use multipath_proxy.Net.Receive.{Reading, packet, heartbeat, hang_up, stuck, receive}
use multipath_proxy.Net.Receive.Phases.{IsFrame, frame, Grants}
use multipath_proxy.Net.Receive.Frames.{Framed, receive-frame}
use multipath_proxy.Net.Receive.Ends.{receive_heartbeat}

-- What a peer sends: heartbeats, and packets with a header and a payload.
pub data Item : Type 0 where
  beat : Item
  flow : FlowHeader → List ℕ → Item

abbrev pub item_bytes : Item → List ℕ
item_bytes beat = header_bytes heart_beat_header
item_bytes (flow h body) = frame h body

abbrev pub IsItem : Item → Type 0
IsItem beat = Unit {0}
IsItem (flow h body) = IsFrame h body

abbrev pub stream : List Item → List ℕ
stream [] = []
stream (x ∷ xs) = item_bytes x ++ stream xs

abbrev pub AreItems : List Item → Type 0
AreItems [] = Unit {0}
AreItems (x ∷ xs) = IsItem x × AreItems xs

-- The packets among the items, and the content of a packet received.
abbrev pub flows : List Item → List (FlowHeader × List ℕ)
flows [] = []
flows (beat ∷ xs) = flows xs
flows (flow h body ∷ xs) = (h, body) ∷ flows xs

abbrev pub content : FlowPacket → FlowHeader × List ℕ
content p = (header p, payload p)

module _ (t : Transport) where
  open t use {Conn, incoming}

  -- Behind a call: the packet is handed on, and the looper calls again.
  unfoldable pub hand_on :
      Reading t → (Conn → Outcome (List FlowPacket × Conn)) → Outcome (List FlowPacket × Conn)
  hand_on (packet p c) next = next c >>= λ r. done (p ∷ r.0, r.1)
  hand_on (heartbeat c) next = next c
  hand_on (hang_up c) next = done ([], c)
  hand_on (stuck c) next = done ([], c)

  -- The packets of the first `n` calls.
  unfoldable pub receive_calls : Allocator → ℕ → ℕ → Conn → Outcome (List FlowPacket × Conn)
  unfolding hand_on
  receive_calls heap fuel zero c = done ([], c)
  receive_calls heap fuel (suc n) c = do
    r ← receive t heap fuel c
    hand_on r (receive_calls heap fuel n)

  -- `n` calls have read these packets, and leave `rest`.
  pub record Streamed (result : Outcome (List FlowPacket × Conn)) (xs : List Item) (rest : List ℕ)
      : Type 0 where
    pub packets : List FlowPacket
    pub conn : Conn
    pub ends : result ≡ done (packets, conn)
    pub contents : map content packets ≡ flows xs
    pub remains : incoming conn ≡ rest

  module _ (heap : Allocator) (fuel n : ℕ) where
    Streamed-flow :
        (c : Conn) (h : FlowHeader) (body : List ℕ) (xs : List Item) (middle rest : List ℕ)
        → (f : Framed t (receive t heap fuel c) h body middle)
        → Streamed (receive_calls heap fuel n f.conn) xs rest
        → Streamed (receive_calls heap fuel (suc n) c) (flow h body ∷ xs) rest
    unfolding receive_calls
    Streamed-flow c h body xs middle rest f s = record {
      packets = f.read ∷ s.packets;
      conn = s.conn;
      ends = rw (f.ends, s.ends) refl;
      contents = ap₂ ◌∷◌ (λ i. (f.head i, f.content i)) s.contents;
      remains = s.remains;
    }

    Streamed-beat :
        (c c' : Conn) (xs : List Item) (rest : List ℕ)
        → receive t heap fuel c ≡ done (heartbeat c')
        → Streamed (receive_calls heap fuel n c') xs rest
        → Streamed (receive_calls heap fuel (suc n) c) (beat ∷ xs) rest
    unfolding receive_calls
    Streamed-beat c c' xs rest e s = record {
      packets = s.packets;
      conn = s.conn;
      ends = rw (e, s.ends) refl;
      contents = s.contents;
      remains = s.remains;
    }

  -- On a connection that is up, one call of RecvFromConnection for each packet or heartbeat of the
  -- stream reads the packets in order, with their headers and payloads, skips the heartbeats, and
  -- leaves what follows; payloads have at most 1024 bytes, realloc succeeds and the fuel is above
  -- 1024.
  pub receive_calls-Streamed :
      (heap : Allocator) (fuel : ℕ)
      → Receives t
      → Grants heap
      → 1024 < fuel
      → (xs : List Item) (c : Conn) (rest : List ℕ) → AreItems xs
      → incoming c ≡ stream xs ++ rest
      → Streamed (receive_calls heap fuel (length xs) c) xs rest
  receive_calls-Streamed heap fuel up grants enough [] c rest all i = record {
    packets = [];
    conn = c;
    ends = unfold receive_calls in refl;
    contents = refl;
    remains = i;
  }
  receive_calls-Streamed heap fuel up grants enough (beat ∷ xs) c rest all i =
      let (c', e, i') =
        receive_heartbeat t heap fuel up (omega arith) c (stream xs ++ rest)
          (i ∙ append_assoc (item_bytes beat) (stream xs) rest) in
      Streamed-beat heap fuel (length xs) c c' xs rest e
        (receive_calls-Streamed heap fuel up grants enough xs c' rest all.1 i')
  receive_calls-Streamed heap fuel up grants enough (flow h body ∷ xs) c rest all i =
      let f =
        receive-frame t heap fuel h body (stream xs ++ rest) up grants enough all.0 c
          (i ∙ append_assoc (frame h body) (stream xs) rest) in
      Streamed-flow heap fuel (length xs) c h body xs (stream xs ++ rest) rest f
        (receive_calls-Streamed heap fuel up grants enough xs f.conn rest all.1 f.remains)
