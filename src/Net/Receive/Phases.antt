-- ===== src/Net/Receive/Phases.antt =====
-- The three phases of a call of RecvFromConnection: what goes on behind a loop that is full, and
-- what the buffer holds then.
use mathlib.Core.List.{append_assoc}
use multipath_proxy.Prelude.{
  ℕ, ◌+◌, ◌-◌, ◌≤◌, ◌≡◌, refl, sym, ap, ◌∙◌, List, ◌++◌, some, arith, length, drop, take,
  take-append, drop-append,
}
use multipath_proxy.Outcome.{done}
use multipath_proxy.Memory.{overwrite, overwrite-overwrite, length-overwrite}
use multipath_proxy.Packet.Buffer
use multipath_proxy.Packet.Buffer.{Allocator, Buffer, IsValid, u16}
use multipath_proxy.Packet.Header.{Header, header_size, flow_type, heartbeat_type}
use multipath_proxy.Packet.FlowHeader.{FlowHeader, Fits}
use multipath_proxy.Packet.Layout.{
  flow_header_size, header_bytes, flow_fields_bytes, flow_header_bytes, read_header,
  read_flow_header, read_header-header_bytes, read_flow_header-flow_header_bytes,
  length-header_bytes, length-flow_fields_bytes, length-flow_header_bytes,
}
use multipath_proxy.Packet.FlowPacket.{FlowPacket, header, resize}
use multipath_proxy.Net.Transport.{Transport}
use multipath_proxy.Net.Receive.{
  full, packet, heartbeat, buffer_size, read_loop, when_full, read_payload, read_body, receive,
}

-- The read buffer as a packet.
abbrev pub in_buffer : List ℕ → FlowPacket
in_buffer mem = record { size = buffer_size; data_ = mem }

module _ (t : Transport) (heap : Allocator) (fuel : ℕ) where
  open t use {Conn, incoming}

  pub receive-full :
      (c c' : Conn) (mem : List ℕ)
      → read_loop t fuel c (Buffer.make heap buffer_size).data_ 0 header_size 0 ≡ done (full mem c')
      → receive t heap fuel c ≡ read_body t heap fuel mem c'
  unfolding receive when_full
  receive-full c c' mem e = rw e

  pub read_body-full :
      (c c' : Conn) (mem mem' : List ℕ)
      → (read_header mem).type ≡ flow_type
      → read_loop t fuel c mem header_size (flow_header_size - header_size) 0 ≡ done (full mem' c')
      → read_body t heap fuel mem c ≡ read_payload t heap fuel mem' c'
  unfolding read_body when_full
  read_body-full c c' mem mem' y e = rw (y, e)

  pub read_body-heartbeat :
      (c : Conn) (mem : List ℕ)
      → (read_header mem).type ≡ heartbeat_type
      → read_body t heap fuel mem c ≡ done (heartbeat c)
  unfolding read_body
  read_body-heartbeat c mem y = rw y

  pub read_payload-full :
      (c c' : Conn) (mem mem' : List ℕ) (q : FlowPacket)
      → read_loop t fuel c mem flow_header_size (header (in_buffer mem)).size 0
        ≡ done (full mem' c')
      → resize heap (in_buffer mem') (header (in_buffer mem')).size ≡ done q
      → read_payload t heap fuel mem c ≡ done (packet q c')
  unfolding read_payload when_full
  read_payload-full c c' mem mem' q e r = rw (e, r)

-- The header of a flow packet.
pub record IsHead (h : FlowHeader) : Type 0 where
  pub fits : Fits h
  pub is_flow : h.header.type ≡ flow_type

-- A payload of at most 1024 bytes under a header that announces it.
pub record IsFrame (h : FlowHeader) (body : List ℕ) : Type 0 where
  pub is_head : IsHead h
  pub announced : h.size ≡ length body
  pub small : length body ≤ 1024

-- What a sender puts on the stream for it.
abbrev pub frame : FlowHeader → List ℕ → List ℕ
frame h body = header_bytes h.header ++ (flow_fields_bytes h ++ body)

pub frame-split :
    (h : FlowHeader) (body rest : List ℕ)
    → frame h body ++ rest ≡ header_bytes h.header ++ (flow_fields_bytes h ++ (body ++ rest))
frame-split h body rest =
    append_assoc (header_bytes h.header) (flow_fields_bytes h ++ body) rest
    ∙ ap (λ bs. header_bytes h.header ++ bs) (append_assoc (flow_fields_bytes h) body rest)

-- The buffer that RecvFromConnection makes.
module _ (heap : Allocator) where
  abbrev pub fresh : List ℕ
  fresh = (Buffer.make heap buffer_size).data_

  pub length-fresh : length fresh ≡ buffer_size
  unfolding Buffer.make
  length-fresh = heap.length-malloc (u16 buffer_size)

-- The allocator has room.
abbrev pub Grants : Allocator → Type 0
Grants heap = (bs : List ℕ) (n : ℕ) → (bs' : List ℕ) × (heap.realloc bs n ≡ some bs')

-- The memory behind the first two phases.
module _ (h : FlowHeader) (mem : List ℕ) (f : IsHead h) (long : length mem ≡ buffer_size) where
  abbrev pub phase1 : List ℕ
  phase1 = overwrite 0 (header_bytes h.header) mem

  abbrev pub phase2 : List ℕ
  phase2 = overwrite 4 (flow_fields_bytes h) phase1

  pub type_phase1 : (read_header phase1).type ≡ flow_type
  type_phase1 =
      ap (λ (x : Header). x.type)
        (read_header-header_bytes h.header _ f.fits.magic_fits f.fits.type_fits)
      ∙ f.is_flow

  pub length-phase1 : length phase1 ≡ buffer_size
  length-phase1 =
      length-overwrite 0 (header_bytes h.header) mem (omega (arith, length-header_bytes h.header))
      ∙ long

  phase2-eq : phase2 ≡ overwrite 0 (flow_header_bytes h) mem
  unfolding flow_header_bytes header_bytes
  phase2-eq =
      ap (λ k. overwrite k (flow_fields_bytes h) phase1) (sym (length-header_bytes h.header))
      ∙ overwrite-overwrite 0 (header_bytes h.header) (flow_fields_bytes h) mem
          (omega (arith, length-header_bytes h.header, length-flow_fields_bytes h))

  pub header_phase2 : read_flow_header phase2 ≡ h
  header_phase2 = rw phase2-eq (read_flow_header-flow_header_bytes h _ f.fits)

  pub length-phase2 : length phase2 ≡ buffer_size
  length-phase2 = rw phase2-eq (
      length-overwrite 0 (flow_header_bytes h) mem (omega (arith, length-flow_header_bytes h))
      ∙ long)

-- And behind the last.
module _ (h : FlowHeader) (body mem : List ℕ) (f : IsFrame h body)
    (long : length mem ≡ buffer_size) where
  abbrev pub phase3 : List ℕ
  phase3 = overwrite 28 body (phase2 h mem f.is_head long)

  phase3-eq :
      phase3 ≡ flow_header_bytes h ++ (body ++ drop (0 + length (flow_header_bytes h ++ body)) mem)
  phase3-eq =
      let front : 28 ≡ 0 + length (flow_header_bytes h) =
        omega (arith, length-flow_header_bytes h) in
      ap (λ m. overwrite 28 body m) (phase2-eq h mem f.is_head long)
      ∙ ap (λ k. overwrite k body (overwrite 0 (flow_header_bytes h) mem)) front
      ∙ overwrite-overwrite 0 (flow_header_bytes h) body mem
          (omega (arith, length-flow_header_bytes h, f.small))
      ∙ append_assoc (flow_header_bytes h) body _

  pub header_phase3 : read_flow_header phase3 ≡ h
  header_phase3 = rw phase3-eq (read_flow_header-flow_header_bytes h _ f.is_head.fits)

  pub length-phase3 : length phase3 ≡ buffer_size
  length-phase3 =
      length-overwrite 28 body (phase2 h mem f.is_head long)
        (omega (arith, (length-phase2 h mem f.is_head long), f.small))
      ∙ (length-phase2 h mem f.is_head long)

  pub body_phase3 : take (length body) (drop 28 phase3) ≡ body
  body_phase3 =
      rw (phase3-eq, drop-append 28 (flow_header_bytes h) _ (length-flow_header_bytes h))
        (take-append (length body) body _ refl)
