-- ===== src/Net/Receive/Ends.antt =====
-- The calls of RecvFromConnection that end without a packet.
use multipath_proxy.Prelude.{ℕ, ◌^◌, ◌≤◌, ◌<◌, ◌≡◌, refl, ap, ◌∙◌, List, [], ◌++◌, arith, length}
use multipath_proxy.Outcome.{Outcome, done, fault, out_of_bounds, ◌>>=◌}
use multipath_proxy.Memory.{overwrite}
use multipath_proxy.Packet.Buffer.{Allocator}
use multipath_proxy.Packet.Header.{Header, header_size}
use multipath_proxy.Packet.FlowHeader.{FlowHeader}
use multipath_proxy.Packet.HeartBeat.{heart_beat_header}
use multipath_proxy.Packet.Layout.{
  flow_header_size, header_bytes, flow_fields_bytes, read_flow_header, read_header-header_bytes,
  length-header_bytes, length-flow_fields_bytes,
}
use multipath_proxy.Packet.FlowPacket.{header}
use multipath_proxy.Net.Transport.{Transport, Receives}
use multipath_proxy.Net.Receive.{
  ReadEnd, closed, spinning, hang_up, stuck, Reading, heartbeat, read_loop, when_full, read_payload,
  read_body, receive,
}
use multipath_proxy.Net.Receive.Loop.{read_loop-Filled}
use multipath_proxy.Net.Receive.Phases.{
  receive-full, read_body-full, read_body-heartbeat, in_buffer, IsHead, frame, frame-split, fresh,
  length-fresh, phase1, phase2, type_phase1, length-phase1, header_phase2, length-phase2,
}
use multipath_proxy.Net.Receive.Faults.{Ends, read_loop_closes, read_loop_overruns, read_loop_cut}

module _ (t : Transport) (heap : Allocator) (fuel : ℕ) where
  open t use {Conn, incoming}

  receive-not_full :
      (c : Conn) (result : Outcome (ReadEnd t)) (r : Outcome (Reading t))
      → read_loop t fuel c (fresh heap) 0 header_size 0 ≡ result
      → (result >>= λ end. when_full t end (read_body t heap fuel)) ≡ r
      → receive t heap fuel c ≡ r
  unfolding receive
  receive-not_full c result r e k =
      ap (λ x. x >>= λ end. when_full t end (read_body t heap fuel)) e ∙ k

  read_payload-fault :
      (c : Conn) (mem : List ℕ)
      → read_loop t fuel c mem flow_header_size (header (in_buffer mem)).size 0
        ≡ fault out_of_bounds
      → read_payload t heap fuel mem c ≡ fault out_of_bounds
  unfolding read_payload
  read_payload-fault c mem e = rw e refl

  -- Where the stream has ended between two packets, RecvFromConnection takes the connection for
  -- closed, with any fuel above 0.
  pub receive_hangs_up :
      Ends t → 0 < fuel → (c : Conn) → incoming c ≡ [] → receive t heap fuel c ≡ done (hang_up c)
  unfolding when_full
  receive_hangs_up ends pos c over =
      receive-not_full c (done (closed c)) (done (hang_up c))
        (read_loop_closes t fuel c c (fresh heap) 0 header_size pos (omega arith) (omega arith)
          (ends c header_size over))
        refl

  -- On a connection that is up until its stream ends, with one to three bytes left in the stream,
  -- RecvFromConnection does not end with any fuel: it goes on to call recv.
  pub receive_stuck :
      Receives t
      → Ends t
      → (c : Conn) → 0 < length (incoming c)
      → length (incoming c) < header_size
      → (c' : Conn) × (receive t heap fuel c ≡ done (stuck c'))
  unfolding when_full
  receive_stuck up ends c pos lt =
      let (c', spins) =
        read_loop_cut t up ends fuel c (fresh heap) 0 header_size 0 (omega arith) (omega arith)
          (omega (arith, length-fresh heap)) in
      (c', receive-not_full c (done (spinning c')) (done (stuck c')) spins refl)

  module _ (up : Receives t) (h : FlowHeader) (body rest : List ℕ) (f : IsHead h)
      (announced : h.size ≡ length body) (large : 1024 < length body) (enough : 2 ^ 16 ≤ fuel) where
    overrun-phase2 :
        (c : Conn)
        → incoming c ≡ body ++ rest
        → read_payload t heap fuel (phase2 h (fresh heap) f (length-fresh heap)) c
          ≡ fault out_of_bounds
    unfolding header
    overrun-phase2 c i =
        let long = length-fresh heap in
        let size2 : (read_flow_header (phase2 h (fresh heap) f long)).size ≡ length body =
          ap (λ (x : FlowHeader). x.size) (header_phase2 h (fresh heap) f long) ∙ announced in
        read_payload-fault c (phase2 h (fresh heap) f long) (
          rw size2 (
            read_loop_overruns t up fuel c (phase2 h (fresh heap) f long) flow_header_size
              (length body) 0 body rest i (omega arith)
              (omega (arith, length-phase2 h (fresh heap) f long))
              (omega (arith, length-phase2 h (fresh heap) f long))
              (omega (arith, f.fits.size_fits))))

    overrun-phase1 :
        (c : Conn)
        → incoming c ≡ flow_fields_bytes h ++ (body ++ rest)
        → read_body t heap fuel (phase1 h (fresh heap) f (length-fresh heap)) c
          ≡ fault out_of_bounds
    overrun-phase1 c i =
        let long = length-fresh heap in
        let r =
          read_loop-Filled t up fuel c (phase1 h (fresh heap) f long) header_size 24 0
            (flow_fields_bytes h) (body ++ rest) i (omega (arith, length-flow_fields_bytes h))
            (omega (arith, length-phase1 h (fresh heap) f long))
            (omega (arith, length-flow_fields_bytes h)) in
        read_body-full t heap fuel c r.conn (phase1 h (fresh heap) f long)
          (phase2 h (fresh heap) f long) (type_phase1 h (fresh heap) f long) r.ends
        ∙ overrun-phase2 r.conn r.remains

    -- A frame whose header announces more than 1024 bytes and which brings them makes
    -- RecvFromConnection write past the end of its buffer, on a connection that is up and with
    -- fuel of at least 2 ^ 16.
    pub receive_overruns :
        (c : Conn) → incoming c ≡ frame h body ++ rest → receive t heap fuel c ≡ fault out_of_bounds
    receive_overruns c i =
        let long = length-fresh heap in
        let r =
          read_loop-Filled t up fuel c (fresh heap) 0 header_size 0 (header_bytes h.header)
            (flow_fields_bytes h ++ (body ++ rest)) (i ∙ frame-split h body rest)
            (omega (arith, length-header_bytes h.header)) (omega (arith, long))
            (omega (arith, length-header_bytes h.header)) in
        receive-full t heap fuel c r.conn (phase1 h (fresh heap) f long) r.ends
        ∙ overrun-phase1 r.conn r.remains

  -- Where the stream of a connection that is up starts with a heartbeat, a call of
  -- RecvFromConnection skips it and leaves the rest of the stream, with fuel above 4.
  pub receive_heartbeat :
      Receives t
      → header_size < fuel
      → (c : Conn) (rest : List ℕ) → incoming c ≡ header_bytes heart_beat_header ++ rest
      → (c' : Conn) × (receive t heap fuel c ≡ done (heartbeat c')) × (incoming c' ≡ rest)
  receive_heartbeat up enough c rest i =
      let long = length-fresh heap in
      let r =
        read_loop-Filled t up fuel c (fresh heap) 0 header_size 0 (header_bytes heart_beat_header)
          rest i (omega (arith, length-header_bytes heart_beat_header)) (omega (arith, long))
          (omega (arith, length-header_bytes heart_beat_header)) in
      (
        r.conn,
        receive-full t heap fuel c r.conn
              (overwrite 0 (header_bytes heart_beat_header) (fresh heap)) r.ends
            ∙ read_body-heartbeat t heap fuel r.conn
                (overwrite 0 (header_bytes heart_beat_header) (fresh heap))
                (ap (λ (x : Header). x.type)
                  (read_header-header_bytes heart_beat_header _ (omega arith) (omega arith))),
        r.remains,
      )
