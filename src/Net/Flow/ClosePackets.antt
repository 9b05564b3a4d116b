-- ===== src/Net/Flow/ClosePackets.antt =====
-- Packets without payload, which close a flow: which calls add one to a queue.
use mathlib.Core.Bool.{Bool, true, false}
use mathlib.Core.Path.{subst}
use multipath_proxy.Prelude.{
  ℕ, ◌+◌, ◌^◌, ◌<◌, ◌≡◌, ◌≢◌, refl, ap, ◌∙◌, inl, inr, List, [], ◌∷◌, Option, none, some, arith,
  ltb, ◌==◌, if◌then◌else◌, Bool-cases, rev_append,
}
use multipath_proxy.Outcome.{
  Outcome, done, throws, fault, blocked, out_of_bounds, ◌>>=◌, ◌>>◌, or_fault, done-injective,
  assert,
}
use multipath_proxy.Memory.{le_bytes, le_value, store, load-store, le_value-le_bytes}
use multipath_proxy.Packet.Buffer
use multipath_proxy.Packet.Buffer.{Allocator, Buffer}
use multipath_proxy.Packet.Layout.{read_flow_header}
use multipath_proxy.Packet.FlowPacket
use multipath_proxy.Packet.FlowPacket.{
  FlowPacket, id, size, header, payload, write_at, store_size, store_id,
}
use multipath_proxy.Collections.BlockingQueue.{BlockingQueue, place, scan_back, pop, take_front}

-- No packet of the list closes.
abbrev pub NoClose : List FlowPacket → Type 0
NoClose [] = Unit {0}
NoClose (x ∷ xs) = (size x ≢ 0) × NoClose xs

NoClose-rev_append :
    (xs acc : List FlowPacket) → NoClose xs → NoClose acc → NoClose (rev_append xs acc)
NoClose-rev_append [] acc a b = b
NoClose-rev_append (x ∷ xs) acc a b = NoClose-rev_append xs (x ∷ acc) a.1 (a.0, b)

abbrev NoCloseOption : Option (List FlowPacket) → Type 0
NoCloseOption none = Unit {0}
NoCloseOption (some xs) = NoClose xs

NoClose-scan_back :
    (p : FlowPacket) (rs behind : List FlowPacket)
    → size p ≢ 0
    → NoClose rs
    → NoClose behind
    → NoCloseOption (scan_back p rs behind)
unfolding scan_back
NoClose-scan_back p [] behind s a b = tt
NoClose-scan_back p (x ∷ rs) behind s a b = elim (Bool-cases (ltb (id x) (id p))) [
  | inl lt ↦ rw lt (NoClose-rev_append (x ∷ rs) (p ∷ behind) a (s, b))
  | inr ge ↦ rw ge (NoClose-scan_back p rs (x ∷ behind) s a.1 (a.0, b))
]

NoClose-elim :
    (o : Option (List FlowPacket)) (xs : List FlowPacket)
    → NoCloseOption o
    → NoClose xs
    → NoClose (elim o [ none ↦ xs | some ys ↦ ys ])
NoClose-elim none xs a b = b
NoClose-elim (some ys) xs a b = a

-- Insert adds no close packet but the one that it is given.
pub NoClose-place :
    (p : FlowPacket) (xs : List FlowPacket) → size p ≢ 0 → NoClose xs → NoClose (place p xs)
unfolding place
NoClose-place p [] s a = (s, tt)
NoClose-place p (x ∷ xs) s a = elim (Bool-cases (ltb (id p) (id x))) [
  | inl lt ↦ rw lt (s, a)
  | inr ge ↦ rw ge (
      NoClose-elim (scan_back p (rev_append (x ∷ xs) []) []) (x ∷ xs)
        (NoClose-scan_back p (rev_append (x ∷ xs) []) [] s (NoClose-rev_append (x ∷ xs) [] a tt) tt)
        a)
]

-- A successful header()->size(n) sets the size.
size-write_at :
    (n : ℕ) (p q : FlowPacket)
    → n < 2 ^ 16
    → (o : Option (List ℕ)) → store 26 (le_bytes 2 n) p.data_ ≡ o
    → (or_fault o out_of_bounds >>= λ filled. done (record p { data_ = filled })) ≡ done q
    → size q ≡ n
unfolding header read_flow_header
size-write_at n p q lt none e h = absurd cc
size-write_at n p q lt (some mem) e h =
    rw (← done-injective h)
      (ap le_value (load-store 26 (le_bytes 2 n) p.data_ e) ∙ le_value-le_bytes 2 n (omega arith))

size-store_size : (n : ℕ) (p q : FlowPacket) → n < 2 ^ 16 → store_size n p ≡ done q → size q ≡ n
unfolding store_size write_at
size-store_size n p q lt h = size-write_at n p q lt (store 26 (le_bytes 2 n) p.data_) refl h

-- And so does Resize.
resize_then :
    (n : ℕ) (q : FlowPacket) (o : Outcome Buffer)
    → n < 2 ^ 16
    → (o >>= λ b. store_size n b) ≡ done q
    → size q ≡ n
resize_then n q (done b) lt h = size-store_size n b q lt h
resize_then n q (throws e) lt h = absurd cc
resize_then n q (fault x) lt h = absurd cc

pub size-resize :
    (heap : Allocator) (p q : FlowPacket) (n : ℕ)
    → n < 2 ^ 16
    → FlowPacket.resize heap p n ≡ done q
    → size q ≡ n
unfolding FlowPacket.resize
size-resize heap p q n lt h = resize_then n q (Buffer.resize heap p (28 + n)) lt h

-- What Pop takes and leaves.
assert_then {ℓ} : {A : Type ℓ} (b : Bool) (r r' : A) → (assert b >> done r) ≡ done r' → r ≡ r'
assert_then true r r' h = done-injective h
assert_then false r r' h = absurd cc

if_done {ℓ} :
    {A : Type ℓ} (b : Bool) (m : Outcome A) (r : A)
    → (if b then m else fault blocked) ≡ done r
    → m ≡ done r
if_done true m r h = h
if_done false m r h = absurd cc

NoClose-take_front :
    (q : BlockingQueue) (r : FlowPacket × BlockingQueue) (xs : List FlowPacket)
    → NoClose xs
    → take_front q xs ≡ done r
    → (size r.0 ≢ 0) × NoClose r.1.deque
unfolding take_front
NoClose-take_front q r [] a h = absurd cc
NoClose-take_front q r (x ∷ xs) a h =
    subst (λ (y : FlowPacket × BlockingQueue). (size y.0 ≢ 0) × NoClose y.1.deque)
      (assert_then (id x == q.current_id) _ r h) a

pub NoClose-pop :
    (q : BlockingQueue) (r : FlowPacket × BlockingQueue)
    → NoClose q.deque
    → pop q ≡ done r
    → (size r.0 ≢ 0) × NoClose r.1.deque
unfolding pop
NoClose-pop q r a h =
    NoClose-take_front q r q.deque a (if_done q.next_available (take_front q q.deque) r h)
