-- ===== src/Packet/FlowPacket/Filled.antt =====
-- A packet that is made for a payload, filled from its start, and cut to what was filled
-- (src/packet/FlowPacket.cpp, as Flow::RecvFromConnection uses it).
use mathlib.Core.List.{append_assoc}
use multipath_proxy.Prelude.{
  ℕ, ◌+◌, ◌≤◌, ◌≡◌, refl, sym, ap, ◌∙◌, List, ◌++◌, some, arith, length, take, drop, length-append,
  length-drop, take-append, drop-append, take_all,
}
use multipath_proxy.Outcome.{done}
use multipath_proxy.Memory.{le_bytes, store_succeeds, drop-drop}
use multipath_proxy.Packet.Buffer.{Allocator, Buffer, IsValid, u16}
use multipath_proxy.Packet.FlowHeader.{FlowHeader, Fits, set_size}
use multipath_proxy.Packet.Layout.{
  header_bytes, flow_fields_bytes, flow_header_bytes, length-flow_header_bytes,
  read_flow_header-flow_header_bytes,
}
use multipath_proxy.Packet.FlowPacket.{
  FlowPacket, header, payload, write_at, store_size, make, resize,
}
use multipath_proxy.Packet.FlowPacket.Make.{max_payload, make-built}
use multipath_proxy.Packet.FlowPacket.Resize.{grown-eq}

-- The size is the last field of the header.
set_size-bytes :
    (h : FlowHeader) (m n : ℕ) (body : List ℕ)
    → take 26 (flow_header_bytes (set_size h m) ++ body)
        ++ (le_bytes 2 n ++ drop 28 (flow_header_bytes (set_size h m) ++ body))
      ≡ flow_header_bytes (set_size h n) ++ body
unfolding flow_header_bytes flow_fields_bytes header_bytes
set_size-bytes h m n body = refl

module _ (h : FlowHeader) (m : ℕ) (body : List ℕ) where
  abbrev front : List ℕ
  front = flow_header_bytes (set_size h m)

  length-front : length front ≡ 28
  length-front = length-flow_header_bytes (set_size h m)

  -- memcpy of the payload behind the header.
  write_at-filled :
      (n : ℕ) (rest : List ℕ)
      → length body ≤ length rest
      → write_at 28 body (record { size = n; data_ = front ++ rest })
        ≡ done (record { size = n; data_ = (front ++ body) ++ drop (length body) rest })
  unfolding write_at
  write_at-filled n rest room =
      rw
        (store_succeeds 28 body (front ++ rest)
          (omega (arith, length-append front rest, length-front)))
        (ap (λ (d : List ℕ). done (record { size = n; data_ = d })) joined)
    where
      behind : drop (28 + length body) (front ++ rest) ≡ drop (length body) rest
      behind =
          sym (drop-drop (length body) 28 (front ++ rest))
          ∙ ap (drop (length body)) (drop-append 28 front rest length-front)

      joined :
          take 28 (front ++ rest) ++ (body ++ drop (28 + length body) (front ++ rest))
          ≡ (front ++ body) ++ drop (length body) rest
      joined =
          ap (λ l. l ++ (body ++ drop (28 + length body) (front ++ rest)))
            (take-append 28 front rest length-front)
          ∙ ap (λ l. front ++ (body ++ l)) behind
          ∙ sym (append_assoc front body (drop (length body) rest))

  -- header()->size(n).
  store_size-filled :
      (k n : ℕ)
      → store_size n (record { size = k; data_ = front ++ body })
        ≡ done (record { size = k; data_ = flow_header_bytes (set_size h n) ++ body })
  unfolding store_size write_at
  store_size-filled k n =
      rw
        (store_succeeds 26 (le_bytes 2 n) (front ++ body)
          (omega (arith, length-append front body, length-front)))
        (ap (λ (d : List ℕ). done (record { size = k; data_ = d })) (set_size-bytes h m n body))

-- The packet with the header `h` and the payload `body`, as it goes over a path.
abbrev pub framed : FlowHeader → List ℕ → FlowPacket
framed h body = record {
  size = 28 + length body;
  data_ = flow_header_bytes (set_size h (length body)) ++ body;
}

pub framed-IsValid :
    (h : FlowHeader) (body : List ℕ) → length body ≤ max_payload → IsValid (framed h body)
framed-IsValid h body small = record {
  sized =
      length-append (flow_header_bytes (set_size h (length body))) body
      ∙ ap (λ k. k + length body) (length-flow_header_bytes (set_size h (length body)));
  small = omega arith;
}

module _ (heap : Allocator) (h : FlowHeader) (m : ℕ) (body : List ℕ)
    (grants : (bs : List ℕ) (n : ℕ) → (bs' : List ℕ) × (heap.realloc bs n ≡ some bs'))
    (room : length body ≤ m) (small : m ≤ max_payload) where
  abbrev data_room : List ℕ
  data_room = drop (length (front h m body)) (heap.malloc (u16 (28 + m)))

  -- The packet with the payload in it, before it is cut.
  abbrev pub filled : FlowPacket
  filled = record {
    size = u16 (28 + m);
    data_ = (front h m body ++ body) ++ drop (length body) data_room;
  }

  pub make-filled :
      make heap h m ≡ done (record { size = u16 (28 + m); data_ = front h m body ++ data_room })
  make-filled =
      make-built heap h m small
      ∙ ap
          (λ (k : ℕ). done (record {
            size = u16 (28 + m);
            data_ = front h m body ++ drop k (heap.malloc (u16 (28 + m)));
          }))
          (omega arith)

  pub write-filled :
      write_at 28 body (record { size = u16 (28 + m); data_ = front h m body ++ data_room })
      ≡ done filled
  write-filled = write_at-filled h m body (u16 (28 + m)) data_room (
      omega (
        arith,
        length-drop (length (front h m body)) (heap.malloc (u16 (28 + m))),
        heap.length-malloc (u16 (28 + m)),
        length-front h m body,
      ))

  -- Resize to what was filled.
  pub resize-filled : resize heap filled (length body) ≡ done (framed h body)
  unfolding resize
  resize-filled =
      let (bytes, granted) = grants filled.data_ (u16 (28 + length body)) in
      let wide : u16 (28 + length body) ≡ 28 + length body = omega arith in
      let long : length bytes ≡ 28 + length body =
        heap.length-realloc filled.data_ (u16 (28 + length body)) granted ∙ wide in
      let both : length (front h m body ++ body) ≡ 28 + length body =
        length-append (front h m body) body ∙ ap (λ k. k + length body) (length-front h m body) in
      let kept : bytes ≡ front h m body ++ body =
        sym (take_all (28 + length body) bytes (omega arith))
        ∙ heap.realloc_keeps filled.data_ (u16 (28 + length body)) (28 + length body) granted
            (omega arith)
            (omega
              (arith, length-append (front h m body ++ body) (drop (length body) data_room), both))
        ∙ take-append (28 + length body) (front h m body ++ body) (drop (length body) data_room)
            both in
      rw (grown-eq heap filled (length body) granted) (
        ap (λ (b : Buffer). store_size (length body) b)
          (λ i. record { size = wide i; data_ = kept i })
        ∙ store_size-filled h m body (28 + length body) (length body))

pub header-framed :
    (h : FlowHeader) (body : List ℕ)
    → Fits (set_size h (length body))
    → header (framed h body) ≡ set_size h (length body)
unfolding header
header-framed h body fits = read_flow_header-flow_header_bytes (set_size h (length body)) body fits

pub payload-framed : (h : FlowHeader) (body : List ℕ) → payload (framed h body) ≡ body
unfolding payload
payload-framed h body =
    drop-append 28 (flow_header_bytes (set_size h (length body))) body
      (length-flow_header_bytes (set_size h (length body)))
