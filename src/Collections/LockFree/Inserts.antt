-- ===== src/Collections/LockFree/Inserts.antt =====
-- Threads that insert into a list that is not empty (src/collections/LockFreeFlowPacketQueue.cpp).
use multipath_proxy.Prelude.{
  ℕ, ◌<◌, ◌≡◌, refl, Option, none, some, arith, ltb, ◌==◌, Bool-cases, inl, inr, ap, sym, ◌∙◌, true,
}
use multipath_proxy.Packet.FlowPacket.{FlowPacket, id}
use multipath_proxy.Collections.LockFree.{
  Node, Queue, same, InsertAt, entering, loading, storing, reloading, comparing, prepending,
  walking, following, linking, hinting, counting, weighing, inserted, refused, crashed,
  compare_head, step_on, walk, follow, linked, link, reload, load_head, insert_move,
}
use multipath_proxy.Collections.LockFree.Linked.{
  Cells, cells, Lower, Upper, AtLeast, HeadAbove, Holds, HoldsId, IsLinked, Grows, Grows-refl,
  some-injective, none-not-some, pushed-IsLinked, pushed-Grows, pushed-Holds,
}
use multipath_proxy.Collections.LockFree.Between.{
  spliced, spliced-IsLinked, spliced-Grows, spliced-Holds,
}

-- What a thread in Insert knows of the list, whatever the others do.
abbrev pub Knows : Cells → InsertAt → Type 0
Knows c (entering p) = Unit {0}
Knows c (loading p) = Unit {0}
Knows c (storing p) = ⊥
Knows c (reloading p) = HeadAbove c (id p)
Knows c (comparing p a) = (n : Node) × (c.nodes a ≡ some n) × HeadAbove c (id n.flow_packet)
Knows c (prepending p a) = Lower c a (id p)
Knows c (walking p a) = AtLeast c a (id p) × HeadAbove c (id p)
Knows c (following p a b) = Upper c a (id p) × AtLeast c b 0 × HeadAbove c (id p)
Knows c (linking p a b) =
    Upper c a (id p) × ((k : ℕ) → b ≡ some k → Lower c k (id p)) × HeadAbove c (id p)
Knows c (hinting p a) = Holds c p
Knows c (counting p) = Holds c p
Knows c (weighing p) = Holds c p
Knows c (inserted p) = Holds c p
Knows c (refused p) = HoldsId c (id p)
Knows c crashed = ⊥

module _ (c d : Cells) (grows : Grows c d) where
  Lower-Grows : (a i : ℕ) → Lower c a i → Lower d a i
  Lower-Grows a i (n, e, h) =
      let (m, at, same) = grows.keeps a n e in (m, at, rw (ap (λ p. id p) same) h)

  Upper-Grows : (a i : ℕ) → Upper c a i → Upper d a i
  Upper-Grows a i (n, e, h) =
      let (m, at, same) = grows.keeps a n e in (m, at, rw (ap (λ p. id p) same) h)

  AtLeast-Grows : (a i : ℕ) → AtLeast c a i → AtLeast d a i
  AtLeast-Grows a i (n, e, h) =
      let (m, at, same) = grows.keeps a n e in (m, at, rw (ap (λ p. id p) same) h)

  pub Holds-Grows : (p : FlowPacket) → Holds c p → Holds d p
  Holds-Grows p (a, n, e, h) = let (m, at, same) = grows.keeps a n e in (a, m, at, same ∙ h)

  pub Knows-Grows : (t : InsertAt) → Knows c t → Knows d t
  Knows-Grows (entering p) k = tt
  Knows-Grows (loading p) k = tt
  Knows-Grows (storing p) k = k
  Knows-Grows (reloading p) k = grows.rises (id p) k
  Knows-Grows (comparing p a) (n, e, h) =
      let (m, at, same) = grows.keeps a n e in
      (m, at, rw (ap (λ p. id p) same) (grows.rises (id n.flow_packet) h))
  Knows-Grows (prepending p a) k = Lower-Grows a (id p) k
  Knows-Grows (walking p a) (l, h) = (AtLeast-Grows a (id p) l, grows.rises (id p) h)
  Knows-Grows (following p a b) (u, l, h) =
      (Upper-Grows a (id p) u, AtLeast-Grows b 0 l, grows.rises (id p) h)
  Knows-Grows (linking p a b) (u, l, h) =
      (Upper-Grows a (id p) u, λ k e. Lower-Grows k (id p) (l k e), grows.rises (id p) h)
  Knows-Grows (hinting p a) k = Holds-Grows p k
  Knows-Grows (counting p) k = Holds-Grows p k
  Knows-Grows (weighing p) k = Holds-Grows p k
  Knows-Grows (inserted p) k = Holds-Grows p k
  Knows-Grows (refused p) (a, n, e, h) =
      let (m, at, same) = grows.keeps a n e in (a, m, at, ap (λ p. id p) same ∙ h)
  Knows-Grows crashed k = k

-- What a step of Insert leaves: a list that has grown, and a thread that knows its place.
pub record Stepped (c : Cells) (r : Queue × InsertAt) : Type 0 where
  pub linked_list : IsLinked (cells r.0)
  pub grown : Grows c (cells r.0)
  pub knows : Knows (cells r.0) r.1

same-true : (x y : Option ℕ) → same x y ≡ true → x ≡ y
same-true none none e = refl
same-true none (some b) e = absurd (ground arith)
same-true (some a) none e = absurd (ground arith)
same-true (some a) (some b) e = ap some (ground arith)

-- A step that leaves the links as they are.
stays :
    (q r : Queue) (t : InsertAt)
    → IsLinked (cells q)
    → cells r ≡ cells q
    → Knows (cells q) t
    → Stepped (cells q) (r, t)
stays q r t ok same k = record {
  linked_list = rw same ok;
  grown = rw same (Grows-refl (cells q));
  knows = rw same k;
}

module _ (q : Queue) (ok : IsLinked (cells q)) where
  compare_head-Knows :
      (p : FlowPacket) (a : ℕ)
      → Knows (cells q) (comparing p a)
      → Knows (cells q) (compare_head p a (q.nodes a))
  unfolding compare_head
  compare_head-Knows p a (n, e, (h, at, (m, at_m, le))) =
      rw e (elim (Bool-cases (ltb (id n.flow_packet) (id p))) [
        | inl lt ↦ rw lt (n, e, ground arith)
        | inr ge ↦ rw ge ((n, e, ground arith), (h, at, (m, at_m, ground arith)))
      ])

  step_on-Knows :
      (p : FlowPacket) (a : ℕ) (b : Option ℕ) (n : Node)
      → q.nodes a ≡ some n
      → n.next ≡ b
      → id p < id n.flow_packet
      → HeadAbove (cells q) (id p)
      → Knows (cells q) (step_on p a b)
  step_on-Knows p a none n e l lt h = ((n, e, lt), λ k s. absurd (none-not-some s), h)
  step_on-Knows p a (some b) n e l lt h =
      let (m, at_m, _) = ok.descends a b n e l in ((n, e, lt), (m, at_m, omega arith), h)

  walk-Knows :
      (p : FlowPacket) (a : ℕ)
      → Knows (cells q) (walking p a)
      → Knows (cells q) (walk p a (q.nodes a))
  unfolding walk
  walk-Knows p a ((n, e, le), h) = rw e (elim (Bool-cases (id n.flow_packet == id p)) [
    | inl y ↦ rw y (a, n, e, ground arith)
    | inr o ↦ rw o (step_on-Knows p a n.next n e refl (ground arith) h)
  ])

  follow-Knows :
      (p : FlowPacket) (a b : ℕ)
      → Knows (cells q) (following p a b)
      → Knows (cells q) (follow p a b (q.nodes b))
  unfolding follow
  follow-Knows p a b (u, (m, at_m, _), h) =
      rw at_m (elim (Bool-cases (ltb (id m.flow_packet) (id p))) [
        | inl lt ↦
            rw lt (u, λ k s. (m, ap q.nodes (sym (some-injective s)) ∙ at_m, ground arith), h)
        | inr ge ↦ rw ge ((m, at_m, ground arith), h)
      ])

  load_head-Knows : (p : FlowPacket) (h : Option ℕ) → q.head ≡ h → Knows (cells q) (load_head p h)
  load_head-Knows p none e = none-not-some (sym e ∙ ok.at_head)
  load_head-Knows p (some a) e =
      let at = ap q.nodes (some-injective (sym e ∙ ok.at_head)) ∙ ok.at_top in
      (ok.top, at, (a, e, (ok.top, at, omega arith)))

  reload-Knows :
      (p : FlowPacket) (h : Option ℕ)
      → q.head ≡ h
      → HeadAbove (cells q) (id p)
      → Knows (cells q) (reload p h)
  reload-Knows p none e (a, at, l) = none-not-some (sym e ∙ at)
  reload-Knows p (some a) e (b, at, (m, at_m, le)) =
      let moved = ap q.nodes (some-injective (sym e ∙ at)) ∙ at_m in
      ((m, moved, le), (a, e, (m, moved, le)))

  prepending-Stepped :
      (p : FlowPacket) (a : ℕ)
      → Knows (cells q) (prepending p a)
      → Stepped (cells q) (insert_move q (prepending p a))
  unfolding insert_move
  prepending-Stepped p a (n, e, lt) = elim (Bool-cases (same q.head (some a))) [
    | inl y ↦
        let at = some-injective (sym ok.at_head ∙ same-true q.head (some a) y) in
        let n_top = some-injective (sym ok.at_top ∙ (ap q.nodes at ∙ e)) in
        let below : id ok.top.flow_packet < id p = rw (ap (λ k. id k.flow_packet) n_top) lt in
        rw y (record {
          linked_list = rw (← at) (pushed-IsLinked (cells q) ok p below);
          grown = rw (← at) (pushed-Grows (cells q) ok p below);
          knows = rw (← at) (pushed-Holds (cells q) ok p below);
        })
    | inr o ↦ rw o (stays q q (entering p) ok refl tt)
  ]

  linked-Knows :
      (c : Cells) (p : FlowPacket) (b : Option ℕ) → Holds c p → Knows c (linked p q.fresh b)
  linked-Knows c p none h = h
  linked-Knows c p (some b) h = h

  linking-Stepped :
      (p : FlowPacket) (a : ℕ) (b : Option ℕ)
      → Knows (cells q) (linking p a b)
      → Stepped (cells q) (insert_move q (linking p a b))
  unfolding insert_move link
  linking-Stepped p a b ((n, e, lt), lower, h) = rw e (elim (Bool-cases (same n.next b)) [
    | inl y ↦
        let at = same-true n.next b y in
        let below : (k : ℕ) → n.next ≡ some k → Lower (cells q) k (id p) =
          λ k s. lower k (sym at ∙ s) in
        rw (y, ← at)
          (record {
            linked_list = spliced-IsLinked (cells q) ok p a n e lt below;
            grown = spliced-Grows (cells q) ok p a n e lt below;
            knows =
                linked-Knows (spliced (cells q) ok p a n e lt below) p n.next
                  (spliced-Holds (cells q) ok p a n e lt below);
          })
    | inr o ↦ rw o (stays q q (reloading p) ok refl h)
  ])

  pub insert_move-Stepped : (t : InsertAt) → Knows (cells q) t → Stepped (cells q) (insert_move q t)
  unfolding insert_move
  insert_move-Stepped (entering p) k = stays q _ (loading p) ok refl tt
  insert_move-Stepped (loading p) k =
      stays q q (load_head p q.head) ok refl (load_head-Knows p q.head refl)
  insert_move-Stepped (storing p) k = absurd k
  insert_move-Stepped (reloading p) k =
      stays q q (reload p q.head) ok refl (reload-Knows p q.head refl k)
  insert_move-Stepped (comparing p a) k = stays q q _ ok refl (compare_head-Knows p a k)
  insert_move-Stepped (prepending p a) k = prepending-Stepped p a k
  insert_move-Stepped (walking p a) k = stays q q _ ok refl (walk-Knows p a k)
  insert_move-Stepped (following p a b) k = stays q q _ ok refl (follow-Knows p a b k)
  insert_move-Stepped (linking p a b) k = linking-Stepped p a b k
  insert_move-Stepped (hinting p a) k = stays q _ (counting p) ok refl k
  insert_move-Stepped (counting p) k = stays q _ (weighing p) ok refl k
  insert_move-Stepped (weighing p) k = stays q _ (inserted p) ok refl k
  insert_move-Stepped (inserted p) k = stays q q (inserted p) ok refl k
  insert_move-Stepped (refused p) k = stays q q (refused p) ok refl k
  insert_move-Stepped crashed k = absurd k
