-- ===== src/Collections/BlockingQueue/Insert.antt =====
-- The three ways of Insert to place a packet come to one: its place by id.
use multipath_proxy.Prelude.{
  ℕ, suc, ◌<◌, ◌≡◌, refl, ap, ◌∙◌, ◌⊎◌, inl, inr, List, [], ◌∷◌, some, arith, ltb, Bool-cases,
  ltb→lt, rev_append, rev_append-rev_append, false,
}
use mathlib.Core.List.{append-nil}
use native.Mathlib.Nat.{le_refl}
use multipath_proxy.Packet.FlowPacket.{FlowPacket, id}
use multipath_proxy.Collections.Sorted.{
  Above, Below, Absent, insert_sorted, insert_sorted_front, insert_sorted-rev_append, Above-mono,
  Below-rev_append, Absent-rev_append,
}
use multipath_proxy.Collections.BlockingQueue.{scan_back, place}

-- Some packet of the list has a smaller id.
abbrev HasSmaller : ℕ → List FlowPacket → Type 0
HasSmaller i [] = ⊥
HasSmaller i (x ∷ xs) = (id x < i) ⊎ HasSmaller i xs

HasSmaller-rev_append :
    (i : ℕ) (xs acc : List FlowPacket) → HasSmaller i acc → HasSmaller i (rev_append xs acc)
HasSmaller-rev_append i [] acc h = h
HasSmaller-rev_append i (x ∷ xs) acc h = HasSmaller-rev_append i xs (x ∷ acc) (inr h)

-- The loop finds the place by id, if the list descends and something in it is smaller.
scan_back_lem :
    (m : ℕ) (p : FlowPacket) (rs behind : List FlowPacket)
    → Below m rs
    → Absent (id p) rs
    → HasSmaller (id p) rs
    → Above (suc (id p)) behind
    → Above m behind
    → scan_back p rs behind ≡ some (insert_sorted p (rev_append rs behind))
unfolding scan_back
scan_back_lem m p [] behind b f s a c = absurd s
scan_back_lem m p (x ∷ rs) behind b f s a c =
    let above : Above (suc (id x)) behind = Above-mono (suc (id x)) m behind b.0 c in
    elim (Bool-cases (ltb (id x) (id p))) [
      | inl lt ↦ rw (
        lt,
        insert_sorted-rev_append (suc (id x)) p (x ∷ rs) behind (omega arith, b.1) (ground arith),
        insert_sorted_front p behind a,
      )
      | inr ge ↦ rw ge (
          scan_back_lem (id x) p rs (x ∷ behind) b.1 f.1 (ground arith) (ground arith, above)
            (le_refl (id x), above))
    ]

-- Behind a front with a smaller id the loop never runs off the deque.
scan_back_all :
    (n : ℕ) (p x : FlowPacket) (xs : List FlowPacket)
    → Above n (x ∷ xs)
    → Absent (id p) (x ∷ xs)
    → id x < id p
    → scan_back p (rev_append (x ∷ xs) []) [] ≡ some (insert_sorted p (x ∷ xs))
scan_back_all n p x xs a f lt =
    let (m, b) = Below-rev_append n (x ∷ xs) [] a tt in
    scan_back_lem m p (rev_append (x ∷ xs) []) [] b (Absent-rev_append (id p) (x ∷ xs) [] f tt)
      (HasSmaller-rev_append (id p) xs (x ∷ []) (inl lt)) tt tt
    ∙ ap (λ ys. some (insert_sorted p ys))
        (rev_append-rev_append (x ∷ xs) [] [] ∙ append-nil (x ∷ xs))

place_front :
    (p x : FlowPacket) (xs : List FlowPacket)
    → id p < id x
    → place p (x ∷ xs) ≡ insert_sorted p (x ∷ xs)
unfolding place insert_sorted
place_front p x xs lt = ground arith

place_behind :
    (p x : FlowPacket) (xs ys : List FlowPacket)
    → ltb (id p) (id x) ≡ false
    → scan_back p (rev_append (x ∷ xs) []) [] ≡ some ys
    → place p (x ∷ xs) ≡ ys
unfolding place
place_behind p x xs ys ge e = rw (ge, e)

-- In a deque whose ids ascend, the three ways of Insert to place a packet with an id that is not
-- there, with its loop from the back, come to one: its place in the order of ids.
pub place-eq-insert_sorted :
    (n : ℕ) (p : FlowPacket) (xs : List FlowPacket)
    → Above n xs
    → Absent (id p) xs
    → place p xs ≡ insert_sorted p xs
place-eq-insert_sorted n p [] a f = unfold place insert_sorted in refl
place-eq-insert_sorted n p (x ∷ xs) a f = elim (Bool-cases (ltb (id p) (id x))) [
  | inl lt ↦ place_front p x xs (ltb→lt (id p) (id x) lt)
  | inr ge ↦ place_behind p x xs _ ge (scan_back_all n p x xs a f (ground arith))
]
