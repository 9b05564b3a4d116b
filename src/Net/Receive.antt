-- ===== src/Net/Receive.antt =====
-- src/net/Bond.cpp, RecvFromConnection up to the packet in hand: three loops that read a Header,
-- the rest of a FlowHeader and the payload from a connection into one buffer.
pub mod Loop
pub mod Phases
pub mod Frames
pub mod Faults
pub mod Ends
pub mod Stream
use multipath_proxy.Prelude.{
  ℕ, zero, suc, ◌+◌, ◌-◌, Bool, List, [], ◌∷◌, ◌++◌, Option, none, some, ltb, ◌==◌, if◌then◌else◌,
  length,
}
use multipath_proxy.Outcome.{
  Outcome, done, throws, fault, out_of_bounds, ◌>>=◌, ◌>>◌, assert, or_fault,
}
use multipath_proxy.Memory.{store}
use multipath_proxy.Packet.Buffer
use multipath_proxy.Packet.Buffer.{Allocator, Buffer}
use multipath_proxy.Packet.Header.{header_size, flow_type, heartbeat_type}
use multipath_proxy.Packet.Layout.{flow_header_size, read_header}
use multipath_proxy.Packet.FlowPacket.{FlowPacket, header, resize}
use multipath_proxy.Net.Transport.{Transport, RecvResult, received, recv_failed}

-- The size of the buffer that is read into.
abbrev pub buffer_size : ℕ
buffer_size = 1024 + flow_header_size

module _ (t : Transport) where
  open t use {Conn, recv}

  -- How a loop ends: with all the bytes, at a closed connection, or not with the fuel given.
  pub data ReadEnd : Type 0 where
    full : List ℕ → Conn → ReadEnd
    closed : Conn → ReadEnd
    spinning : Conn → ReadEnd

  -- One round, with `got` bytes read before it. A failed recv is logged, and nothing else; the test
  -- on `bytes_read == 0` comes after it in either case.
  unfoldable pub read_round :
      RecvResult × Conn → List ℕ → ℕ → ℕ → (Conn → List ℕ → ℕ → Outcome ReadEnd) → Outcome ReadEnd
  read_round (received bs, c) mem at got next = do
    mem' ← or_fault (store (at + got) bs mem) out_of_bounds
    let rest = next c mem' (got + length bs)
    if got + length bs == 0 then done (closed c) else rest
  read_round (recv_failed e, c) mem at got next =
      let rest = next c mem got in if got == 0 then done (closed c) else rest

  -- while (bytes_read < need) …, into the memory from `at` on.
  unfoldable pub read_loop : ℕ → Conn → List ℕ → ℕ → ℕ → ℕ → Outcome ReadEnd
  unfolding read_round
  read_loop zero c mem at need got = done (spinning c)
  read_loop (suc fuel) c mem at need got =
      let round =
        read_round (recv c (need - got)) mem at got
          (λ c' mem' got'. read_loop fuel c' mem' at need got') in
      if ltb got need then round else done (full mem c)

  -- What a call of RecvFromConnection has read.
  pub data Reading : Type 0 where
    heartbeat : Conn → Reading
    packet : FlowPacket → Conn → Reading
    hang_up : Conn → Reading
    stuck : Conn → Reading

  -- Each phase goes on where its loop has all its bytes.
  unfoldable pub when_full : ReadEnd → (List ℕ → Conn → Outcome Reading) → Outcome Reading
  when_full (full mem c) k = k mem c
  when_full (closed c) k = done (hang_up c)
  when_full (spinning c) k = done (stuck c)

  -- The payload, of the size that the header says, and Resize.
  unfoldable pub read_payload : Allocator → ℕ → List ℕ → Conn → Outcome Reading
  read_payload heap fuel mem c = do
    let p : FlowPacket = record { size = buffer_size; data_ = mem }
    end ← read_loop fuel c mem flow_header_size (header p).size 0
    when_full end (λ mem' c'. do
      let p' : FlowPacket = record { size = buffer_size; data_ = mem' }
      q ← resize heap p' (header p').size
      done (packet q c'))

  -- The rest of the header, if it is not a heartbeat.
  unfoldable pub read_body : Allocator → ℕ → List ℕ → Conn → Outcome Reading
  read_body heap fuel mem c =
      if (read_header mem).type == heartbeat_type then done (heartbeat c) else (do
        assert ((read_header mem).type == flow_type)
        end ← read_loop fuel c mem header_size (flow_header_size - header_size) 0
        when_full end (read_payload heap fuel))

  -- RecvFromConnection, down to `resize FlowPacket to fit data`.
  unfoldable pub receive : Allocator → ℕ → Conn → Outcome Reading
  receive heap fuel c = do
    let b = Buffer.make heap buffer_size
    end ← read_loop fuel c b.data_ 0 header_size 0
    when_full end (read_body heap fuel)
