-- ===== src/Collections/LockFree/Alone/Chain.antt =====
-- The nodes of a queue of src/collections/LockFreeFlowPacketQueue.h as a list, from the head on.
use multipath_proxy.Prelude.{
  ℕ, suc, ◌≤◌, ◌<◌, ◌≡◌, ◌≢◌, List, [], ◌∷◌, Option, none, some, ltb, if◌then◌else◌, arith, sym,
  ◌∙◌, Bool-cases, inl, inr, false,
}
use multipath_proxy.Packet.FlowPacket.{FlowPacket, id}
use multipath_proxy.Collections.LockFree.{Node, Queue, put}
use multipath_proxy.Collections.LockFree.Linked.{put-other}

-- A node by its address and its packet.
abbrev pub Cell : Type 0
Cell = ℕ × FlowPacket

abbrev pub first : List Cell → Option ℕ
first [] = none
first (c ∷ cs) = some c.0

abbrev pub packets : List Cell → List FlowPacket
packets [] = []
packets (c ∷ cs) = c.1 ∷ packets cs

-- The nodes of the list are there, and linked in its order.
abbrev pub Chain : (ℕ → Option Node) → List Cell → Type 0
Chain nodes [] = Unit {0}
Chain nodes (c ∷ cs) =
    (nodes c.0 ≡ some (record { flow_packet = c.1; next = first cs })) × Chain nodes cs

-- No node of the list is at the address.
abbrev pub Apart : ℕ → List Cell → Type 0
Apart a [] = Unit {0}
Apart a (c ∷ cs) = (c.0 ≢ a) × Apart a cs

abbrev pub Distinct : List Cell → Type 0
Distinct [] = Unit {0}
Distinct (c ∷ cs) = Apart c.0 cs × Distinct cs

abbrev pub Inside : ℕ → List Cell → Type 0
Inside f [] = Unit {0}
Inside f (c ∷ cs) = (c.0 < f) × Inside f cs

-- What the fields of the queue say of the list.
pub record IsList (q : Queue) (cs : List Cell) : Type 0 where
  pub at_head : q.head ≡ first cs
  pub chain : Chain q.nodes cs
  pub distinct : Distinct cs
  pub inside : Inside q.fresh cs

pub Inside-Apart : (f g : ℕ) (cs : List Cell) → f ≤ g → Inside f cs → Apart g cs
Inside-Apart f g [] h i = tt
Inside-Apart f g (c ∷ cs) h i = (omega arith, Inside-Apart f g cs h i.1)

pub Inside-suc : (f : ℕ) (cs : List Cell) → Inside f cs → Inside (suc f) cs
Inside-suc f [] i = tt
Inside-suc f (c ∷ cs) i = (omega arith, Inside-suc f cs i.1)

pub Chain-put :
    (nodes : ℕ → Option Node) (a : ℕ) (n : Option Node) (cs : List Cell)
    → Apart a cs
    → Chain nodes cs
    → Chain (put nodes a n) cs
Chain-put nodes a n [] h c = tt
Chain-put nodes a n (x ∷ cs) h c =
    (put-other nodes a x.0 n (λ e. h.0 (sym e)) ∙ c.0, Chain-put nodes a n cs h.1 c.1)

-- The place of a new node by its id.
unfoldable pub place_cell : Cell → List Cell → List Cell
place_cell n [] = n ∷ []
place_cell n (c ∷ cs) = if ltb (id c.1) (id n.1) then n ∷ c ∷ cs else c ∷ place_cell n cs

pub place_cell_behind :
    (n c : Cell) (cs : List Cell)
    → ltb (id c.1) (id n.1) ≡ false
    → place_cell n (c ∷ cs) ≡ c ∷ place_cell n cs
unfolding place_cell
place_cell_behind n c cs o = rw o

pub place_cell-Apart :
    (a : ℕ) (n : Cell) (cs : List Cell) → n.0 ≢ a → Apart a cs → Apart a (place_cell n cs)
unfolding place_cell
place_cell-Apart a n [] h d = (h, tt)
place_cell-Apart a n (c ∷ cs) h d = elim (Bool-cases (ltb (id c.1) (id n.1))) [
  | inl y ↦ rw y (h, d)
  | inr o ↦ rw o (d.0, place_cell-Apart a n cs h d.1)
]

pub place_cell-Distinct :
    (n : Cell) (cs : List Cell) → Apart n.0 cs → Distinct cs → Distinct (place_cell n cs)
unfolding place_cell
place_cell-Distinct n [] h d = (tt, tt)
place_cell-Distinct n (c ∷ cs) h d = elim (Bool-cases (ltb (id c.1) (id n.1))) [
  | inl y ↦ rw y (h, d)
  | inr o ↦
      rw o (place_cell-Apart c.0 n cs (λ e. h.0 (sym e)) d.0, place_cell-Distinct n cs h.1 d.1)
]

pub place_cell-Inside :
    (f : ℕ) (n : Cell) (cs : List Cell) → n.0 < f → Inside f cs → Inside f (place_cell n cs)
unfolding place_cell
place_cell-Inside f n [] h i = (h, tt)
place_cell-Inside f n (c ∷ cs) h i = elim (Bool-cases (ltb (id c.1) (id n.1))) [
  | inl y ↦ rw y (h, i)
  | inr o ↦ rw o (i.0, place_cell-Inside f n cs h i.1)
]

-- All nodes but the last, and the last one.
unfoldable pub but_last : Cell → List Cell → List Cell
but_last c [] = []
but_last c (d ∷ cs) = c ∷ but_last d cs

unfoldable pub last : Cell → List Cell → Cell
last c [] = c
last c (d ∷ cs) = last d cs
