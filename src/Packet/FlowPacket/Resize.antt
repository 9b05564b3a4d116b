-- ===== src/Packet/FlowPacket/Resize.antt =====
-- What FlowPacket::Resize keeps of a packet.
use Prim.Native.Nat.{min}
use multipath_proxy.Prelude.{
  ℕ, ◌+◌, ◌^◌, ◌≤◌, ◌<◌, ◌≡◌, refl, sym, ap, ◌∙◌, List, ◌++◌, none, some, arith, length, take, drop,
  length-drop,
}
use multipath_proxy.Outcome.{done, throws, or_fault}
use multipath_proxy.Exception.{ExceptionClass}
use multipath_proxy.Text.{codes, decimal}
use multipath_proxy.Memory.{
  le_bytes, le_value, load, store, store_succeeds, load_agree, take-store, load-store, drop-store,
  length-store, le_value-le_bytes,
}
use multipath_proxy.Packet.Buffer
use multipath_proxy.Packet.Buffer.{Allocator, Buffer, IsValid, u16}
use multipath_proxy.Packet.FlowHeader.{set_size}
use multipath_proxy.Packet.Layout.{flow_header_size, read_flow_header}
use multipath_proxy.Packet.FlowPacket.{FlowPacket, header, payload, write_at, store_size, resize}
use multipath_proxy.Packet.FlowPacket.Make.{max_payload}

-- Two memories that agree up to the size field have headers that differ in it at most.
read_flow_header-agree :
    (mem mem' : List ℕ)
    → take 26 mem ≡ take 26 mem'
    → read_flow_header mem' ≡ set_size (read_flow_header mem) (le_value (load 26 2 mem'))
unfolding read_flow_header
read_flow_header-agree mem mem' e = λ i. record {
  header = record { magic = same 0 2 (omega arith) i; type = same 2 2 (omega arith) i };
  ctrl = same 4 2 (omega arith) i;
  source_ip = same 6 4 (omega arith) i;
  destination_ip = same 10 4 (omega arith) i;
  source_port = same 14 2 (omega arith) i;
  destination_port = same 16 2 (omega arith) i;
  id = same 18 8 (omega arith) i;
  size = le_value (load 26 2 mem');
}
  where
    same : (i n : ℕ) → i + n ≤ 26 → le_value (load i n mem') ≡ le_value (load i n mem)
    same i n h = ap le_value (load_agree i n 26 mem' mem h (sym e))

-- header()->size(n) changes that field alone, and no byte of the payload.
pub store_size_lem :
    (n : ℕ) (p : FlowPacket)
    → n < 2 ^ 16
    → flow_header_size ≤ length p.data_
    → (q : FlowPacket) × (store_size n p ≡ done q)
      × (header q ≡ set_size (header p) n)
      × (payload q ≡ payload p)
      × (q.size ≡ p.size)
      × (length q.data_ ≡ length p.data_)
unfolding store_size write_at header payload
store_size_lem n p lt long = (
  record p { data_ = mem' },
  rw (stored, or_fault),
  read_flow_header-agree p.data_ mem' (sym (take-store 26 (le_bytes 2 n) p.data_ stored))
      ∙ ap (set_size (read_flow_header p.data_)) (
          ap le_value (load-store 26 (le_bytes 2 n) p.data_ stored)
          ∙ le_value-le_bytes 2 n (omega arith)),
  drop-store 26 (le_bytes 2 n) p.data_ stored,
  refl,
  length-store 26 (le_bytes 2 n) p.data_ stored,
)
  where
    mem' : List ℕ
    mem' = take 26 p.data_ ++ (le_bytes 2 n ++ drop 28 p.data_)

    stored : store 26 (le_bytes 2 n) p.data_ ≡ some mem'
    stored = store_succeeds 26 (le_bytes 2 n) p.data_ (omega arith)

-- Two memories that agree on the first 28 bytes have one header.
read_flow_header-take :
    (mem mem' : List ℕ) → take 28 mem ≡ take 28 mem' → read_flow_header mem' ≡ read_flow_header mem
unfolding read_flow_header
read_flow_header-take mem mem' e =
    read_flow_header-agree mem mem' (load_agree 0 26 28 mem mem' (omega arith) e)
    ∙ ap (λ bs. set_size (read_flow_header mem) (le_value bs))
        (load_agree 26 2 28 mem' mem (omega arith) (sym e))

-- The packet `q` is `p` with its payload cut or grown to `n` bytes.
pub record Resized (p : FlowPacket) (n : ℕ) (q : FlowPacket) : Type 0 where
  pub valid : IsValid q
  pub sized : q.size ≡ flow_header_size + n
  pub head : header q ≡ set_size (header p) n
  pub kept :
      take (min n (length (payload p))) (payload q) ≡ take (min n (length (payload p))) (payload p)

-- The block that realloc gave, with the size field stored.
grown-Resized :
    (p b q : FlowPacket) (n : ℕ)
    → length b.data_ ≡ flow_header_size + n
    → b.size ≡ flow_header_size + n
    → n ≤ max_payload
    → flow_header_size ≤ length p.data_
    → ((k : ℕ) → k ≤ flow_header_size + n → k ≤ length p.data_ → take k b.data_ ≡ take k p.data_)
    → header q ≡ set_size (header b) n
    → payload q ≡ payload b
    → q.size ≡ b.size
    → length q.data_ ≡ length b.data_
    → Resized p n q
unfolding header payload
grown-Resized p b q n lb sb le long keeps hq pq sq lq = record {
  valid = record { sized = omega arith; small = omega arith };
  sized = omega arith;
  head =
      hq
      ∙ ap (λ h. set_size h n)
          (read_flow_header-take p.data_ b.data_ (sym (keeps 28 (omega arith) long)));
  kept = rw pq (
      load_agree 28 (min n (length (drop 28 p.data_))) (28 + min n (length (drop 28 p.data_)))
        b.data_ p.data_ (omega arith)
        (keeps (28 + min n (length (drop 28 p.data_))) (omega arith)
          (omega (arith, length-drop 28 p.data_))));
}

module _ (heap : Allocator) (p : FlowPacket) (n : ℕ) where
  pub grown-eq :
      {bytes : List ℕ}
      → heap.realloc p.data_ (u16 (flow_header_size + n)) ≡ some bytes
      → Buffer.resize heap p (flow_header_size + n)
        ≡ done (record { size = u16 (flow_header_size + n); data_ = bytes })
  unfolding Buffer.resize
  grown-eq granted = rw (granted, Buffer.resize)

  -- Where realloc succeeds, Resize of a packet that holds a header to at most 65507 bytes gives a
  -- valid packet of that size, with the same header but for the size field, and with the bytes of
  -- the payload that both have room for.
  pub resize-Resized :
      {bytes : List ℕ}
      → heap.realloc p.data_ (u16 (flow_header_size + n)) ≡ some bytes
      → flow_header_size ≤ length p.data_
      → n ≤ max_payload
      → (q : FlowPacket) × (resize heap p n ≡ done q) × Resized p n q
  unfolding resize
  resize-Resized {bytes} granted long le =
      let b : FlowPacket = record { size = u16 (flow_header_size + n); data_ = bytes } in
      let wide : u16 (flow_header_size + n) ≡ flow_header_size + n = omega arith in
      let lb : length bytes ≡ flow_header_size + n =
        heap.length-realloc p.data_ (u16 (flow_header_size + n)) granted ∙ wide in
      let (q, stored, hq, pq, sq, lq) = store_size_lem n b (omega arith) (omega arith) in
      (
        q,
        rw (grown-eq granted) stored,
        grown-Resized p b q n lb wide le long
            (λ k kn kp.
              heap.realloc_keeps p.data_ (u16 (flow_header_size + n)) k granted (omega arith) kp)
            hq pq sq lq,
      )

  -- Where it has not, Resize throws BufferReallocError.
  pub resize_throws :
      heap.realloc p.data_ (u16 (flow_header_size + n)) ≡ none
      → resize heap p n
        ≡ throws (record {
          class = ExceptionClass.buffer_realloc_error;
          message =
              codes "Can't realloc(data_, " ++ (decimal (u16 (flow_header_size + n)) ++ codes ".");
        })
  unfolding resize Buffer.resize
  resize_throws refused = ground arith
