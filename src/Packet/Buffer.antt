-- ===== src/Packet/Buffer.antt =====
-- src/packet/Buffer.cpp and Packet.cpp: an owned block of bytes with a 16-bit size.
use multipath_proxy.Prelude.{
  ℕ, ◌%◌, ◌^◌, ◌≤◌, ◌<◌, ◌≡◌, List, ◌++◌, Option, none, some, arith, leb, length, take,
  Option-cases, inl, inr,
}
use multipath_proxy.Exception.{ExceptionClass}
use multipath_proxy.Outcome.{Outcome, done, throws, out_of_bounds, ◌>>=◌, ◌>>◌, assert, or_fault}
use multipath_proxy.Text.{Text, codes, decimal}
use multipath_proxy.Memory.{store}

-- The C allocator. What fresh memory holds is its own affair; `realloc` may fail, and otherwise
-- keeps the bytes that both blocks have room for. (The source does not test what `malloc` returns.)
pub record Allocator : Type 0 where
  pub malloc : ℕ → List ℕ
  pub realloc : List ℕ → ℕ → Option (List ℕ)
  pub length-malloc : (n : ℕ) → length (malloc n) ≡ n
  pub length-realloc :
      (bs : List ℕ) (n : ℕ) {bs' : List ℕ} → realloc bs n ≡ some bs' → length bs' ≡ n
  pub realloc_keeps :
      (bs : List ℕ) (n k : ℕ) {bs' : List ℕ}
      → realloc bs n ≡ some bs'
      → k ≤ n
      → k ≤ length bs
      → take k bs' ≡ take k bs

-- `size_` and the block that `data_` points to.
pub record Buffer : Type 0 where
  pub size : ℕ
  pub data_ : List ℕ

-- The size field says how long the block is.
pub record IsValid (b : Buffer) : Type 0 where
  pub sized : length b.data_ ≡ b.size
  pub small : b.size < 2 ^ 16

-- ToString, also of Packet.
unfoldable pub to_string : Buffer → Text
to_string b = codes "Buffer[Size=" ++ (decimal b.size ++ codes "]")

-- A conversion to uint16_t.
abbrev pub u16 : ℕ → ℕ
u16 n = n % 2 ^ 16

module _ (heap : Allocator) where
  -- Buffer(uint16_t), after the conversion of its argument.
  unfoldable pub make : ℕ → Buffer
  make n = record { size = u16 n; data_ = heap.malloc (u16 n) }

  -- Buffer(unsigned char *, uint16_t), and with it Buffer(std::vector). The source has at least
  -- `u16 n` bytes.
  unfoldable pub make_from : List ℕ → ℕ → Outcome Buffer
  unfolding make
  make_from bytes n = do
    let b = make n
    filled ← or_fault (store 0 (take (u16 n) bytes) b.data_) out_of_bounds
    done (record b { data_ = filled })

  -- Resize.
  unfoldable pub resize : Buffer → ℕ → Outcome Buffer
  resize b n = elim (heap.realloc b.data_ (u16 n)) [
    | none ↦ throws (record {
      class = ExceptionClass.buffer_realloc_error;
      message = codes "Can't realloc(data_, " ++ (decimal (u16 n) ++ codes ".");
    })
    | some bytes ↦ done (record { size = u16 n; data_ = bytes })
  ]

  -- Packet(uint16_t): a buffer with room for a Header of 4 bytes.
  unfoldable pub make_packet : ℕ → Outcome Buffer
  unfolding make
  make_packet n = do assert (leb 4 (u16 n)); done (make n)

  pub make-IsValid : (n : ℕ) → IsValid (make n)
  unfolding make
  make-IsValid n = record { sized = heap.length-malloc (u16 n); small = omega arith }

  pub resize-IsValid : (b : Buffer) (n : ℕ) {b' : Buffer} → resize b n ≡ done b' → IsValid b'
  unfolding resize
  resize-IsValid b n h = elim (Option-cases (heap.realloc b.data_ (u16 n))) [
    | inl e ↦ cc (rw (e, resize) at h)
    | inr (bs, e) ↦ ground (arith, heap.length-realloc b.data_ (u16 n) e)
  ]
