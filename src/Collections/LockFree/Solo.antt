-- ===== src/Collections/LockFree/Solo.antt =====
-- A thread that inserts and is not disturbed any more (src/collections/LockFreeFlowPacketQueue.cpp).
use multipath_proxy.Prelude.{
  ℕ, zero, suc, ◌≤◌, ◌<◌, ◌≡◌, refl, Option, none, some, arith, ltb, ◌==◌, Bool-cases, inl, inr, ap,
  sym, ◌∙◌, true,
}
use multipath_proxy.Packet.FlowPacket.{FlowPacket, id}
use multipath_proxy.Collections.LockFree.{
  Node, Queue, same, InsertAt, entering, loading, storing, reloading, comparing, prepending,
  walking, following, linking, hinting, counting, weighing, inserted, refused, crashed,
  compare_head, step_on, walk, follow, linked, link, reload, load_head, insert_move, count_call,
}
use multipath_proxy.Collections.LockFree.Linked.{cells, HeadAbove, IsLinked, some-injective}
use multipath_proxy.Collections.LockFree.Inserts.{Knows}

-- So many steps of one thread.
unfoldable pub solo : ℕ → Queue → InsertAt → Queue × InsertAt
solo zero q t = (q, t)
solo (suc k) q t = solo k (insert_move q t).0 (insert_move q t).1

-- Insert has returned or thrown.
abbrev pub IsOver : InsertAt → Type 0
IsOver (inserted p) = Unit {0}
IsOver (refused p) = Unit {0}
IsOver _ = ⊥

abbrev pub Finishes : Queue × InsertAt → Type 0
Finishes m = (k : ℕ) × IsOver (solo k m.0 m.1).1

after : (q : Queue) (t : InsertAt) → Finishes (insert_move q t) → Finishes (q, t)
unfolding solo
after q t (k, over) = (suc k, over)

over_now : (q : Queue) (t : InsertAt) → IsOver t → Finishes (q, t)
unfolding solo
over_now q t over = (0, over)

weighing-Finishes : (q : Queue) (p : FlowPacket) → Finishes (q, weighing p)
unfolding insert_move
weighing-Finishes q p = after q (weighing p) (over_now _ (inserted p) tt)

counting-Finishes : (q : Queue) (p : FlowPacket) → Finishes (q, counting p)
unfolding insert_move
counting-Finishes q p = after q (counting p) (weighing-Finishes _ p)

hinting-Finishes : (q : Queue) (p : FlowPacket) (a : ℕ) → Finishes (q, hinting p a)
unfolding insert_move
hinting-Finishes q p a = after q (hinting p a) (counting-Finishes _ p)

linked-Finishes : (q : Queue) (p : FlowPacket) (a : ℕ) (b : Option ℕ) → Finishes (q, linked p a b)
linked-Finishes q p a none = hinting-Finishes q p a
linked-Finishes q p a (some b) = counting-Finishes q p

same_refl : (x : Option ℕ) → same x x ≡ true
same_refl none = refl
same_refl (some a) = ground arith

-- A compare-exchange that finds what the thread has read.
linking-Finishes :
    (q : Queue) (p : FlowPacket) (a : ℕ) (n : Node)
    → q.nodes a ≡ some n
    → Finishes (q, linking p a n.next)
unfolding insert_move link
linking-Finishes q p a n e =
    after q (linking p a n.next) (rw (e, same_refl n.next) (linked-Finishes _ p q.fresh n.next))

prepending-Finishes :
    (q : Queue) (p : FlowPacket) (a : ℕ) → q.head ≡ some a → Finishes (q, prepending p a)
unfolding insert_move
prepending-Finishes q p a e =
    after q (prepending p a)
      (rw (ap (λ h. same h (some a)) e, same_refl (some a)) (counting-Finishes _ p))

module _ (q : Queue) (ok : IsLinked (cells q)) (p : FlowPacket) where
  -- From a node with an id below the bound the walk comes to an end.
  abbrev Below : ℕ → Type 0
  Below bound =
      (a : ℕ) (n : Node) → q.nodes a ≡ some n → id n.flow_packet < bound → Finishes (q, walking p a)

  following-Finishes :
      (bound a b : ℕ) (n m : Node)
      → Below bound
      → q.nodes a ≡ some n
      → n.next ≡ some b
      → q.nodes b ≡ some m
      → id m.flow_packet < bound
      → Finishes (q, following p a b)
  unfolding insert_move follow
  following-Finishes bound a b n m again at_n l at_m lt = after q (following p a b) (
      rw at_m (elim (Bool-cases (ltb (id m.flow_packet) (id p))) [
        | inl y ↦ rw (y, ← l) (linking-Finishes q p a n at_n)
        | inr o ↦ rw o (again b m at_m lt)
      ]))

  step_on-Finishes :
      (bound a : ℕ) (n : Node)
      → Below bound
      → q.nodes a ≡ some n
      → id n.flow_packet ≤ bound
      → (b : Option ℕ) → n.next ≡ b
      → Finishes (q, step_on p a b)
  step_on-Finishes bound a n again at_n le none l = rw (← l) (linking-Finishes q p a n at_n)
  step_on-Finishes bound a n again at_n le (some b) l =
      let (m, at_m, lt) = ok.descends a b n at_n l in
      following-Finishes bound a b n m again at_n l at_m (omega arith)

  -- The ids on the way descend, so there are at most as many rounds as the first of them says.
  walking-Finishes : (bound : ℕ) → Below bound
  unfolding insert_move walk
  walking-Finishes zero a n e lt = absurd (omega arith)
  walking-Finishes (suc bound) a n e lt = after q (walking p a) (
      rw e (elim (Bool-cases (id n.flow_packet == id p)) [
        | inl y ↦ rw y (over_now q (refused p) tt)
        | inr o ↦
            rw o (step_on-Finishes bound a n (walking-Finishes bound) e (omega arith) n.next refl)
      ]))

  walk_from : (a : ℕ) (n : Node) → q.nodes a ≡ some n → Finishes (q, walking p a)
  walk_from a n e = walking-Finishes (suc (id n.flow_packet)) a n e (omega arith)

  reloading-Finishes : HeadAbove (cells q) (id p) → Finishes (q, reloading p)
  unfolding insert_move
  reloading-Finishes (h, at, (n, at_n, _)) =
      after q (reloading p) (rw (ap (reload p) at) (walk_from h n at_n))

  comparing-Finishes :
      (a : ℕ) (n : Node)
      → q.nodes a ≡ some n
      → Finishes (q, prepending p a)
      → Finishes (q, comparing p a)
  unfolding insert_move compare_head
  comparing-Finishes a n e ends = after q (comparing p a) (
      rw e (elim (Bool-cases (ltb (id n.flow_packet) (id p))) [
        | inl y ↦ rw y ends
        | inr o ↦ rw o (walk_from a n e)
      ]))

loading-Finishes : (q : Queue) → IsLinked (cells q) → (p : FlowPacket) → Finishes (q, loading p)
unfolding insert_move
loading-Finishes q ok p = after q (loading p) (
    rw (ap (load_head p) ok.at_head) (
      comparing-Finishes q ok p ok.first ok.top ok.at_top
        (prepending-Finishes q p ok.first ok.at_head)))

entering-Finishes : (q : Queue) → IsLinked (cells q) → (p : FlowPacket) → Finishes (q, entering p)
unfolding insert_move
entering-Finishes q ok p = after q (entering p) (loading-Finishes (count_call q) ok p)

module _ (q : Queue) (ok : IsLinked (cells q)) (p : FlowPacket) where
  any_prepending : (a : ℕ) → Finishes (q, prepending p a)
  unfolding insert_move
  any_prepending a = after q (prepending p a) (elim (Bool-cases (same q.head (some a))) [
    | inl y ↦ rw y (counting-Finishes _ p)
    | inr o ↦ rw o (entering-Finishes q ok p)
  ])

  any_linking :
      (a : ℕ) (b : Option ℕ) → Knows (cells q) (linking p a b) → Finishes (q, linking p a b)
  unfolding insert_move link
  any_linking a b ((n, e, _), _, h) = after q (linking p a b) (
      rw e (elim (Bool-cases (same n.next b)) [
        | inl y ↦ rw y (linked-Finishes _ p q.fresh b)
        | inr o ↦ rw o (reloading-Finishes q ok p h)
      ]))

  any_following : (a b : ℕ) → Knows (cells q) (following p a b) → Finishes (q, following p a b)
  unfolding insert_move follow
  any_following a b ((n, e, lt), (m, at_m, le), h) = after q (following p a b) (
      rw at_m (elim (Bool-cases (ltb (id m.flow_packet) (id p))) [
        | inl y ↦ rw y (
            any_linking a (some b)
              ((n, e, lt), λ k s. (m, ap q.nodes (sym (some-injective s)) ∙ at_m, ground arith), h))
        | inr o ↦ rw o (walk_from q ok p b m at_m)
      ]))

-- Wherever the others have left it, a thread that is alone comes to the end of Insert.
pub insert-Finishes :
    (q : Queue) → IsLinked (cells q) → (t : InsertAt) → Knows (cells q) t → Finishes (q, t)
insert-Finishes q ok (entering p) k = entering-Finishes q ok p
insert-Finishes q ok (loading p) k = loading-Finishes q ok p
insert-Finishes q ok (storing p) k = absurd k
insert-Finishes q ok (reloading p) k = reloading-Finishes q ok p k
insert-Finishes q ok (comparing p a) (n, e, _) =
    comparing-Finishes q ok p a n e (any_prepending q ok p a)
insert-Finishes q ok (prepending p a) k = any_prepending q ok p a
insert-Finishes q ok (walking p a) ((n, e, _), _) = walk_from q ok p a n e
insert-Finishes q ok (following p a b) k = any_following q ok p a b k
insert-Finishes q ok (linking p a b) k = any_linking q ok p a b k
insert-Finishes q ok (hinting p a) k = hinting-Finishes q p a
insert-Finishes q ok (counting p) k = counting-Finishes q p
insert-Finishes q ok (weighing p) k = weighing-Finishes q p
insert-Finishes q ok (inserted p) k = over_now q (inserted p) tt
insert-Finishes q ok (refused p) k = over_now q (refused p) tt
insert-Finishes q ok crashed k = absurd k
