-- ===== src/Net/Receive/Frames.antt =====
-- What RecvFromConnection makes of a well-formed stream: the packets that were sent, one at a call.
use Prim.Native.Nat.{min}
use multipath_proxy.Prelude.{
  ℕ, ◌+◌, ◌≤◌, ◌<◌, ◌≡◌, sym, ap, ◌∙◌, List, ◌++◌, arith, length, drop, take, length-drop, take_all,
}
use multipath_proxy.Outcome.{Outcome, done}
use multipath_proxy.Packet.Buffer.{Allocator, IsValid, u16}
use multipath_proxy.Packet.Header.{header_size}
use multipath_proxy.Packet.FlowHeader.{FlowHeader, set_size}
use multipath_proxy.Packet.Layout.{
  flow_header_size, header_bytes, flow_fields_bytes, read_flow_header, length-header_bytes,
  length-flow_fields_bytes,
}
use multipath_proxy.Packet.FlowPacket.{FlowPacket, header, payload}
use multipath_proxy.Packet.FlowPacket.Resize.{Resized, resize-Resized}
use multipath_proxy.Net.Transport.{Transport, Receives}
use multipath_proxy.Net.Receive.{
  full, Reading, packet, buffer_size, read_loop, read_payload, read_body, receive,
}
use multipath_proxy.Net.Receive.Loop.{read_loop-Filled}
use multipath_proxy.Net.Receive.Phases.{
  receive-full, read_body-full, in_buffer, read_payload-full, IsFrame, frame, frame-split, fresh,
  length-fresh, Grants, phase1, phase2, phase3, type_phase1, length-phase1, header_phase2,
  length-phase2, header_phase3, length-phase3, body_phase3,
}

-- A frame read from a connection that is up.
pub record Framed (t : Transport) (result : Outcome (Reading t)) (h : FlowHeader)
    (body rest : List ℕ) : Type 0 where
  pub read : FlowPacket
  pub conn : t.Conn
  pub ends : result ≡ done (packet read conn)
  pub head : header read ≡ h
  pub content : payload read ≡ body
  pub valid : IsValid read
  pub remains : t.incoming conn ≡ rest

-- What Resize makes of a read buffer that holds the frame.
framed_content :
    (h : FlowHeader) (body mem : List ℕ) (q : FlowPacket)
    → h.size ≡ length body
    → flow_header_size + length body ≤ length mem
    → take (length body) (drop flow_header_size mem) ≡ body
    → Resized (in_buffer mem) h.size q
    → payload q ≡ body
unfolding payload
framed_content h body mem q n long b shape =
    let common : length body ≡ min h.size (length (drop flow_header_size mem)) =
      omega (arith, length-drop flow_header_size mem) in
    sym (
      take_all (length body) (payload q)
        (omega (arith, length-drop flow_header_size q.data_, shape.valid.sized, shape.sized)))
    ∙ ap (λ k. take k (payload q)) common
    ∙ shape.kept
    ∙ ap (λ k. take k (drop flow_header_size mem)) (sym common)
    ∙ b

framed_head :
    (h : FlowHeader) (mem : List ℕ) (q : FlowPacket)
    → read_flow_header mem ≡ h
    → Resized (in_buffer mem) h.size q
    → header q ≡ h
unfolding header
framed_head h mem q e shape = shape.head ∙ ap (λ x. set_size x h.size) e

module _ (t : Transport) (heap : Allocator) (fuel : ℕ) (h : FlowHeader) (body rest : List ℕ) where
  -- The last phase, and Resize.
  Framed-payload :
      (c c' : t.Conn) (mem2 mem3 : List ℕ)
      → Grants heap
      → h.size ≡ length body
      → length body ≤ 1024
      → read_flow_header mem2 ≡ h
      → read_flow_header mem3 ≡ h
      → length mem3 ≡ buffer_size
      → take (length body) (drop flow_header_size mem3) ≡ body
      → read_loop t fuel c mem2 flow_header_size h.size 0 ≡ done (full mem3 c')
      → t.incoming c' ≡ rest
      → Framed t (read_payload t heap fuel mem2 c) h body rest
  unfolding header
  Framed-payload c c' mem2 mem3 grants n small e2 e3 long b read r =
      let (bytes, granted) = grants mem3 (u16 (flow_header_size + h.size)) in
      let (q, resized, shape) =
        resize-Resized heap (in_buffer mem3) h.size granted (omega arith) (omega arith) in
      let size2 : (read_flow_header mem2).size ≡ h.size = ap (λ (x : FlowHeader). x.size) e2 in
      let size3 : (read_flow_header mem3).size ≡ h.size = ap (λ (x : FlowHeader). x.size) e3 in
      record {
        read = q;
        conn = c';
        ends = read_payload-full t heap fuel c c' mem2 mem3 q (rw size2 read) (rw size3 resized);
        head = framed_head h mem3 q e3 shape;
        content = framed_content h body mem3 q n (omega arith) b shape;
        valid = shape.valid;
        remains = r;
      }

Framed-eq :
    {t : Transport} {r r' : Outcome (Reading t)} {h : FlowHeader} {body rest : List ℕ}
    → r' ≡ r
    → Framed t r h body rest
    → Framed t r' h body rest
Framed-eq e f = record {
  read = f.read;
  conn = f.conn;
  ends = e ∙ f.ends;
  head = f.head;
  content = f.content;
  valid = f.valid;
  remains = f.remains;
}

module _ (t : Transport) (heap : Allocator) (fuel : ℕ) (h : FlowHeader) (body rest : List ℕ)
    (up : Receives t) (grants : Grants heap) (enough : 1024 < fuel) (f : IsFrame h body) where
  module _ (mem : List ℕ) (long : length mem ≡ buffer_size) where
    -- The payload, from a buffer that holds the header.
    Framed-phase2 :
        (c : t.Conn)
        → t.incoming c ≡ body ++ rest
        → Framed t (read_payload t heap fuel (phase2 h mem f.is_head long) c) h body rest
    Framed-phase2 c i =
        let r =
          read_loop-Filled t up fuel c (phase2 h mem f.is_head long) flow_header_size h.size 0 body
            rest i (omega (arith, f.announced))
            (omega (arith, f.announced, f.small, length-phase2 h mem f.is_head long))
            (omega (arith, f.small)) in
        Framed-payload t heap fuel h body rest c r.conn (phase2 h mem f.is_head long)
          (phase3 h body mem f long) grants f.announced f.small (header_phase2 h mem f.is_head long)
          (header_phase3 h body mem f long) (length-phase3 h body mem f long)
          (body_phase3 h body mem f long) r.ends r.remains

    -- The rest of the header, from a buffer that holds the Header.
    Framed-phase1 :
        (c : t.Conn)
        → t.incoming c ≡ flow_fields_bytes h ++ (body ++ rest)
        → Framed t (read_body t heap fuel (phase1 h mem f.is_head long) c) h body rest
    Framed-phase1 c i =
        let r =
          read_loop-Filled t up fuel c (phase1 h mem f.is_head long) header_size 24 0
            (flow_fields_bytes h) (body ++ rest) i (omega (arith, length-flow_fields_bytes h))
            (omega (arith, length-phase1 h mem f.is_head long))
            (omega (arith, length-flow_fields_bytes h)) in
        Framed-eq
          (read_body-full t heap fuel c r.conn (phase1 h mem f.is_head long)
            (phase2 h mem f.is_head long) (type_phase1 h mem f.is_head long) r.ends)
          (Framed-phase2 r.conn r.remains)

  -- Where the stream of a connection that is up starts with the frame of `h` and `body`, a call of
  -- RecvFromConnection ends with a valid packet of that header and that payload and leaves the
  -- rest of the stream, however recv cuts it, if the payload has at most 1024 bytes, realloc
  -- succeeds and the fuel is above 1024.
  pub receive-frame :
      (c : t.Conn)
      → t.incoming c ≡ frame h body ++ rest
      → Framed t (receive t heap fuel c) h body rest
  receive-frame c i =
      let long = length-fresh heap in
      let r =
        read_loop-Filled t up fuel c (fresh heap) 0 header_size 0 (header_bytes h.header)
          (flow_fields_bytes h ++ (body ++ rest)) (i ∙ frame-split h body rest)
          (omega (arith, length-header_bytes h.header)) (omega (arith, long))
          (omega (arith, length-header_bytes h.header)) in
      Framed-eq (receive-full t heap fuel c r.conn (phase1 h (fresh heap) f.is_head long) r.ends)
        (Framed-phase1 (fresh heap) long r.conn r.remains)
