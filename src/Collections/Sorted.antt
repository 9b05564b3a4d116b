-- ===== src/Collections/Sorted.antt =====
-- Lists of packets by ascending id, which the queues of src/collections keep.
use mathlib.Core.Logic.Or
use mathlib.Core.HLevel.{⊥_prop}
use mathlib.Core.List.{Perm, Mem, mem-cons, not-mem-nil}
use mathlib.Core.List.Perm
use multipath_proxy.Prelude.{
  ℕ, suc, ◌+◌, ◌^◌, ◌≤◌, ◌<◌, ◌≡◌, refl, ◌≢◌, List, [], ◌∷◌, arith, ltb, if◌then◌else◌, length,
  Bool-cases, inl, inr, ap, sym, rev_append,
}
use multipath_proxy.Collections.Ascending.{Ascending, Ascending-perm-eq}
use multipath_proxy.Packet.FlowPacket.{FlowPacket, id, size}

-- Ids ascend strictly, from `n` on.
abbrev pub Above : ℕ → List FlowPacket → Type 0
Above = Ascending (λ p. id p)

-- Ids descend strictly, and stay below `n`.
abbrev pub Below : ℕ → List FlowPacket → Type 0
Below n [] = Unit {0}
Below n (x ∷ xs) = (id x < n) × Below (id x) xs

-- No packet has the id `i`.
abbrev pub Absent : ℕ → List FlowPacket → Type 0
Absent i [] = Unit {0}
Absent i (x ∷ xs) = (id x ≢ i) × Absent i xs

-- The id and its successor fit a uint64_t.
abbrev pub Small : List FlowPacket → Type 0
Small [] = Unit {0}
Small (x ∷ xs) = (id x + 1 < 2 ^ 64) × Small xs

-- The payload bytes that the headers announce.
abbrev pub total_size : List FlowPacket → ℕ
total_size [] = 0
total_size (x ∷ xs) = size x + total_size xs

-- The place of a packet by its id.
unfoldable pub insert_sorted : FlowPacket → List FlowPacket → List FlowPacket
insert_sorted p [] = p ∷ []
insert_sorted p (x ∷ xs) = if ltb (id p) (id x) then p ∷ (x ∷ xs) else x ∷ insert_sorted p xs

pub Above-mono : (m n : ℕ) (xs : List FlowPacket) → m ≤ n → Above n xs → Above m xs
Above-mono m n [] h a = tt
Above-mono m n (x ∷ xs) h a = (omega arith, a.1)

pub Below-mono : (m n : ℕ) (xs : List FlowPacket) → m ≤ n → Below m xs → Below n xs
Below-mono m n [] h b = tt
Below-mono m n (x ∷ xs) h b = (omega arith, b.1)

-- What lies below every id of the list is not in it.
pub Above-Absent : (i n : ℕ) (xs : List FlowPacket) → i < n → Above n xs → Absent i xs
Above-Absent i n [] h a = tt
Above-Absent i n (x ∷ xs) h a = (omega arith, Above-Absent i (suc (id x)) xs (omega arith) a.1)

pub insert_sorted-Above :
    (n : ℕ) (p : FlowPacket) (xs : List FlowPacket)
    → n ≤ id p
    → Absent (id p) xs
    → Above n xs
    → Above n (insert_sorted p xs)
unfolding insert_sorted
insert_sorted-Above n p [] h f a = (h, tt)
insert_sorted-Above n p (x ∷ xs) h f a = elim (Bool-cases (ltb (id p) (id x))) [
  | inl lt ↦ rw lt (h, (ground arith, a.1))
  | inr ge ↦ rw ge (a.0, insert_sorted-Above (suc (id x)) p xs (ground arith) f.1 a.1)
]

pub insert_sorted-perm :
    (p : FlowPacket) (xs : List FlowPacket) → Perm (insert_sorted p xs) (p ∷ xs)
unfolding insert_sorted
insert_sorted-perm p [] = Perm.refl (p ∷ [])
insert_sorted-perm p (x ∷ xs) = elim (Bool-cases (ltb (id p) (id x))) [
  | inl lt ↦ rw lt (Perm.refl (p ∷ (x ∷ xs)))
  | inr ge ↦ rw ge (Perm.trans (Perm.cons x (insert_sorted-perm p xs)) (Perm.swap p x xs))
]

pub length-insert_sorted :
    (p : FlowPacket) (xs : List FlowPacket) → length (insert_sorted p xs) ≡ suc (length xs)
unfolding insert_sorted
length-insert_sorted p [] = refl
length-insert_sorted p (x ∷ xs) = ground (arith, length-insert_sorted p xs)

pub total_size-insert_sorted :
    (p : FlowPacket) (xs : List FlowPacket)
    → total_size (insert_sorted p xs) ≡ size p + total_size xs
unfolding insert_sorted
total_size-insert_sorted p [] = refl
total_size-insert_sorted p (x ∷ xs) = ground (arith, total_size-insert_sorted p xs)

pub Absent-insert_sorted :
    (i : ℕ) (p : FlowPacket) (xs : List FlowPacket)
    → id p ≢ i
    → Absent i xs
    → Absent i (insert_sorted p xs)
unfolding insert_sorted
Absent-insert_sorted i p [] h a = (h, tt)
Absent-insert_sorted i p (x ∷ xs) h a = elim (Bool-cases (ltb (id p) (id x))) [
  | inl lt ↦ rw lt (h, a)
  | inr ge ↦ rw ge (a.0, Absent-insert_sorted i p xs h a.1)
]

pub Small-insert_sorted :
    (p : FlowPacket) (xs : List FlowPacket)
    → id p + 1 < 2 ^ 64
    → Small xs
    → Small (insert_sorted p xs)
unfolding insert_sorted
Small-insert_sorted p [] h s = (h, tt)
Small-insert_sorted p (x ∷ xs) h s = elim (Bool-cases (ltb (id p) (id x))) [
  | inl lt ↦ rw lt (h, s)
  | inr ge ↦ rw ge (s.0, Small-insert_sorted p xs h s.1)
]

-- A packet below all others goes to the front.
pub insert_sorted_front :
    (p : FlowPacket) (xs : List FlowPacket) → Above (suc (id p)) xs → insert_sorted p xs ≡ p ∷ xs
unfolding insert_sorted
insert_sorted_front p [] a = refl
insert_sorted_front p (x ∷ xs) a = ground arith

-- A packet above all of a reversed list goes behind it.
pub insert_sorted-rev_append :
    (m : ℕ) (p : FlowPacket) (rs xs : List FlowPacket)
    → Below m rs
    → m ≤ id p
    → insert_sorted p (rev_append rs xs) ≡ rev_append rs (insert_sorted p xs)
unfolding insert_sorted
insert_sorted-rev_append m p [] xs b h = refl
insert_sorted-rev_append m p (r ∷ rs) xs b h =
    rw (insert_sorted-rev_append (id r) p rs (r ∷ xs) b.1 (omega arith)) (ground arith)

pub Below-rev_append :
    (n : ℕ) (xs acc : List FlowPacket)
    → Above n xs
    → Below n acc
    → (m : ℕ) × Below m (rev_append xs acc)
Below-rev_append n [] acc a b = (n, b)
Below-rev_append n (x ∷ xs) acc a b =
    Below-rev_append (suc (id x)) xs (x ∷ acc) a.1 (omega arith, Below-mono n (id x) acc a.0 b)

pub Absent-rev_append :
    (i : ℕ) (xs acc : List FlowPacket) → Absent i xs → Absent i acc → Absent i (rev_append xs acc)
Absent-rev_append i [] acc a b = b
Absent-rev_append i (x ∷ xs) acc a b = Absent-rev_append i xs (x ∷ acc) a.1 (a.0, b)

-- A packet that is not absent by its id is not in the list.
pub Absent-not-mem : {a : FlowPacket} (xs : List FlowPacket) → Absent (id a) xs → ¬ Mem a xs
Absent-not-mem [] f m = not-mem-nil m
Absent-not-mem {a} (x ∷ xs) f m =
    Or.elim ⊥_prop (mem-cons.0 m) (λ e. f.0 (ap (λ p. id p) (sym e))) (Absent-not-mem xs f.1)

FlowPacket-set : IsSet FlowPacket
FlowPacket-set = hlevel

-- The same packets in ascending order are the same list.
pub Above-perm-eq :
    (n : ℕ) (xs ys : List FlowPacket) → Above n xs → Above n ys → Perm xs ys → xs ≡ ys
Above-perm-eq = Ascending-perm-eq (λ p. id p) FlowPacket-set

-- Ids follow one another from `c` on.
abbrev pub Consecutive : ℕ → List FlowPacket → Type 0
Consecutive c [] = Unit {0}
Consecutive c (x ∷ xs) = (id x ≡ c) × Consecutive (c + 1) xs

pub Consecutive-Above : (c : ℕ) (xs : List FlowPacket) → Consecutive c xs → Above c xs
Consecutive-Above c [] s = tt
Consecutive-Above c (x ∷ xs) s = (
  omega arith,
  Above-mono (suc (id x)) (c + 1) xs (omega arith) (Consecutive-Above (c + 1) xs s.1),
)
