-- ===== src/Collections/BlockingQueue/Duplicate.antt =====
-- Insert of a packet whose id is the one at the front of the queue already.
use mathlib.Core.Path.{subst}
use mathlib.Core.Bool.{false}
use native.Mathlib.Nat.{le_refl}
use multipath_proxy.Prelude.{
  ℕ, suc, ◌≤◌, ◌≡◌, refl, sym, ap, ◌∙◌, List, [], ◌∷◌, none, arith, ltb, length, rev_append,
}
use multipath_proxy.Packet.FlowPacket.{FlowPacket, id, size}
use multipath_proxy.Collections.Sorted.{Above, Above-mono}
use multipath_proxy.Collections.BlockingQueue.{BlockingQueue, place, scan_back, insert, add64}
use multipath_proxy.Collections.BlockingQueue.Invariant.{IsValid}

-- No id of the list is smaller than `i`.
abbrev AtLeast : ℕ → List FlowPacket → Type 0
AtLeast i [] = Unit {0}
AtLeast i (x ∷ xs) = (i ≤ id x) × AtLeast i xs

Above-AtLeast : (i : ℕ) (xs : List FlowPacket) → Above i xs → AtLeast i xs
Above-AtLeast i [] a = tt
Above-AtLeast i (x ∷ xs) a =
    (a.0, Above-AtLeast i xs (Above-mono i (suc (id x)) xs (omega arith) a.1))

AtLeast-rev_append :
    (i : ℕ) (xs acc : List FlowPacket)
    → AtLeast i xs
    → AtLeast i acc
    → AtLeast i (rev_append xs acc)
AtLeast-rev_append i [] acc a b = b
AtLeast-rev_append i (x ∷ xs) acc a b = AtLeast-rev_append i xs (x ∷ acc) a.1 (a.0, b)

scan_back-none :
    (p : FlowPacket) (rs behind : List FlowPacket)
    → AtLeast (id p) rs
    → scan_back p rs behind ≡ none
unfolding scan_back
scan_back-none p [] behind a = refl
scan_back-none p (x ∷ rs) behind a = ground (arith, scan_back-none p rs (x ∷ behind) a.1)

place_duplicate :
    (p x : FlowPacket) (xs : List FlowPacket)
    → id p ≡ id x
    → Above (id x) (x ∷ xs)
    → place p (x ∷ xs) ≡ x ∷ xs
unfolding place
place_duplicate p x xs e a =
    let ge : ltb (id p) (id x) ≡ false = ground (arith, e) in
    let none_ = scan_back-none p (rev_append (x ∷ xs) []) [] (
      AtLeast-rev_append (id p) (x ∷ xs) []
        (subst (λ k. AtLeast k (x ∷ xs)) (sym e) (Above-AtLeast (id x) (x ∷ xs) a)) tt) in
    rw (ge, none_) refl

-- Insert of a packet with the id of the front into a valid queue leaves the deque as it is, so the
-- packet is lost, but adds its size to the backlog, and counts it, which leaves a queue that is
-- not valid.
pub insert_duplicate-not-IsValid :
    (p x : FlowPacket) (xs : List FlowPacket) (q : BlockingQueue)
    → IsValid q
    → q.deque ≡ x ∷ xs
    → id p ≡ id x
    → ((insert p q).deque ≡ q.deque)
      × ((insert p q).byte_size ≡ add64 q.byte_size (size p))
      × (¬ IsValid (insert p q))
unfolding insert
insert_duplicate-not-IsValid p x xs q v e i =
    let up : Above q.current_id (x ∷ xs) = rw e at v.ascending in
    let same : place p q.deque ≡ q.deque =
      ap (place p) e ∙ place_duplicate p x xs i (le_refl (id x), up.1) ∙ sym e in
    (same, refl, λ w. omega (arith, w.counted, ap length same, v.counted))
