-- ===== src/Collections/LockFree/Alone/Alike.antt =====
-- The two queues of src/collections side by side: the lock-free one, used by one thread, and the
-- blocking one.
use mathlib.Core.List.{append-nil}
use mathlib.Core.Path.{ap₂, subst}
use multipath_proxy.Prelude.{
  ℕ, suc, true, ◌==◌, ==_iff, ◌≢◌, ◌+◌, ◌%◌, ◌^◌, ◌<◌, ◌≡◌, refl, List, [], ◌∷◌, some, none, ltb,
  arith, ap, sym, ◌∙◌, Bool-cases, inl, inr, rev_append, rev_append-rev_append,
}
use multipath_proxy.Packet.FlowPacket.{FlowPacket, id, size}
use multipath_proxy.Collections.Sorted.{
  Above, Below, Absent, Above-mono, Below-rev_append, Absent-rev_append, insert_sorted,
  insert_sorted_front, insert_sorted-rev_append,
}
use multipath_proxy.Collections.BlockingQueue.{BlockingQueue, sub64, add64, insert, pop, take_front}
use multipath_proxy.Outcome.{done}
use multipath_proxy.Collections.BlockingQueue.Invariant.{IsValid, IsNew, insert-IsValid}
use multipath_proxy.Collections.LockFree.{Queue}
use multipath_proxy.Collections.LockFree.Linked.{if-true}
use multipath_proxy.Collections.LockFree.Alone.Chain.{
  Cell, packets, IsList, place_cell, but_last, last,
}
use multipath_proxy.Collections.LockFree.Alone.PopAlone.{take_last}
use multipath_proxy.Collections.LockFree.Alone.InsertAlone.{Inserted}

-- A packet that takes its place among descending ids, seen from the other end.
rev_append-place_cell :
    (m : ℕ) (n : Cell) (cs : List Cell) (acc : List FlowPacket)
    → Below m (packets cs)
    → Absent (id n.1) (packets cs)
    → Above (suc (id n.1)) acc
    → Above m acc
    → rev_append (packets (place_cell n cs)) acc ≡ insert_sorted n.1 (rev_append (packets cs) acc)
unfolding place_cell
rev_append-place_cell m n [] acc b f a up = sym (insert_sorted_front n.1 acc a)
rev_append-place_cell m n (c ∷ cs) acc b f a up =
    let above : Above (suc (id c.1)) acc = Above-mono (suc (id c.1)) m acc b.0 up in
    elim (Bool-cases (ltb (id c.1) (id n.1))) [
      | inl lt ↦ rw (
        lt,
        insert_sorted-rev_append (suc (id c.1)) n.1 (packets (c ∷ cs)) acc (omega arith, b.1)
            (ground arith),
        insert_sorted_front n.1 acc a,
      )
      | inr ge ↦ rw ge (
          rev_append-place_cell (id c.1) n cs (c.1 ∷ acc) b.1 f.1 (ground arith, above)
            (omega arith, above))
    ]

rev_append-last :
    (c : Cell) (cs : List Cell) (acc : List FlowPacket)
    → rev_append (packets (c ∷ cs)) acc ≡ (last c cs).1 ∷ rev_append (packets (but_last c cs)) acc
unfolding but_last last
rev_append-last c [] acc = refl
rev_append-last c (d ∷ cs) acc = rev_append-last d cs (c.1 ∷ acc)

-- The lock-free queue has the nodes `cs`, which are what the deque holds, back to front.
pub record Alike (b : BlockingQueue) (q : Queue) (cs : List Cell) : Type 0 where
  pub is_list : IsList q cs
  pub mirrored : rev_append (packets cs) [] ≡ b.deque
  pub same_size : q.size_ ≡ b.size_
  pub same_bytes : q.byte_size ≡ b.byte_size
  pub same_id : q.current_id ≡ b.current_id

pub back :
    (cs : List Cell) (deque : List FlowPacket)
    → rev_append (packets cs) [] ≡ deque
    → rev_append deque [] ≡ packets cs
back cs deque e = rw (← e) (rev_append-rev_append (packets cs) [] [] ∙ append-nil (packets cs))

take_front-fields :
    (b b' : BlockingQueue) (p : FlowPacket) (xs : List FlowPacket)
    → take_front b xs ≡ done (p, b')
    → (b'.size_ ≡ sub64 b.size_ 1) × (b'.byte_size ≡ sub64 b.byte_size (size p))
unfolding take_front
take_front-fields b b' p [] e = absurd (ground arith)
take_front-fields b b' p (x ∷ xs) e = ground arith

pop-fields :
    (b b' : BlockingQueue) (p : FlowPacket)
    → pop b ≡ done (p, b')
    → (b'.size_ ≡ sub64 b.size_ 1) × (b'.byte_size ≡ sub64 b.byte_size (size p))
unfolding pop
pop-fields b b' p e = elim (Bool-cases b.next_available) [
  | inl y ↦ take_front-fields b b' p b.deque (sym (if-true _ _ y) ∙ e)
  | inr o ↦ absurd (ground arith)
]

-- A list without its last node, seen from the other end.
pub take_last-front :
    (cs cs' : List Cell) (p : FlowPacket) (i : ℕ)
    → take_last i cs ≡ some (cs', p)
    → (id p ≡ i) × (rev_append (packets cs) [] ≡ p ∷ rev_append (packets cs') [])
unfolding take_last
take_last-front [] cs' p i e = absurd (ground arith)
take_last-front (c ∷ cs) cs' p i e = elim (Bool-cases (id (last c cs).1 == i)) [
  | inl y ↦
      let same : some (but_last c cs, (last c cs).1) ≡ some (cs', p) = rw y at e in
      let at_p : (last c cs).1 ≡ p = cc same in
      let at_cs : but_last c cs ≡ cs' = cc same in
      (
        ap (λ u. id u) (sym at_p) ∙ (==_iff (id (last c cs).1) i).0 y,
        rev_append-last c cs [] ∙ ap₂ (λ u v. u ∷ rev_append (packets v) []) at_p at_cs,
      )
  | inr o ↦ absurd (let gone : none ≡ some (cs', p) = rw o at e in cc gone)
]

pub take_last-none :
    (cs : List Cell) (p : FlowPacket) (rest : List FlowPacket) (i : ℕ)
    → take_last i cs ≡ none
    → rev_append (packets cs) [] ≡ p ∷ rest
    → id p ≢ i
unfolding take_last
take_last-none [] p rest i e m h = cc
take_last-none (c ∷ cs) p rest i e m h =
    let at_p : (last c cs).1 ≡ p = cc (rev_append-last c cs [], m) in
    let y : (id (last c cs).1 == i) ≡ true =
      (==_iff (id (last c cs).1) i).1 (ap (λ u. id u) at_p ∙ h) in
    let gone : some (but_last c cs, (last c cs).1) ≡ none = rw y at e in cc gone

-- No packet of the list has the id, if none in the deque has.
pub Alike-Absent :
    (b : BlockingQueue) (q : Queue) (cs : List Cell) (i : ℕ)
    → Alike b q cs
    → Absent i b.deque
    → Absent i (packets cs)
Alike-Absent b q cs i like f =
    subst (Absent i) (back cs b.deque like.mirrored) (Absent-rev_append i b.deque [] f tt)

-- Insert into both.
pub Alike-insert :
    (b : BlockingQueue) (q : Queue) (cs : List Cell) (p : FlowPacket)
    → Alike b q cs
    → IsValid b
    → IsNew (id p) b
    → (put : Inserted q p cs) → Alike (insert p b) put.after (place_cell (q.fresh, p) cs)
unfolding insert
Alike-insert b q cs p like valid new put =
    let (m, down) = Below-rev_append b.current_id b.deque [] valid.ascending tt in
    let (_, d, _) = insert-IsValid p b valid new in
    record {
      is_list = put.is_list;
      mirrored =
          rev_append-place_cell m (q.fresh, p) cs []
            (subst (Below m) (back cs b.deque like.mirrored) down)
            (Alike-Absent b q cs (id p) like new.1) tt tt
          ∙ ap (insert_sorted p) like.mirrored
          ∙ sym d;
      same_size = put.sized ∙ ap (λ k. add64 k 1) like.same_size;
      same_bytes = put.weighed ∙ ap (λ k. add64 k (size p)) like.same_bytes;
      same_id = put.stays ∙ like.same_id;
    }

-- Pop from both, where both return.
pub Alike-pop :
    (b b' : BlockingQueue) (q q' : Queue) (cs cs' : List Cell) (p r : FlowPacket)
    → Alike b q cs
    → pop b ≡ done (p, b')
    → b.deque ≡ p ∷ b'.deque
    → b'.current_id ≡ b.current_id + 1
    → b.current_id + 1 < 2 ^ 32
    → take_last q.current_id cs ≡ some (cs', r)
    → IsList q' cs'
    → q'.size_ ≡ sub64 q.size_ 1
    → q'.byte_size ≡ sub64 q.byte_size (size r)
    → q'.current_id ≡ (q.current_id + 1) % 2 ^ 32
    → (r ≡ p) × Alike b' q' cs'
Alike-pop b b' q q' cs cs' p r like e d i small last ok s w c =
    let (_, front) = take_last-front cs cs' r q.current_id last in
    let both : r ∷ rev_append (packets cs') [] ≡ p ∷ b'.deque = sym front ∙ like.mirrored ∙ d in
    let same : r ≡ p = cc both in
    let (s', w') = pop-fields b b' p e in
    (
      same,
      record {
        is_list = ok;
        mirrored = cc both;
        same_size = s ∙ ap (λ k. sub64 k 1) like.same_size ∙ sym s';
        same_bytes = w ∙ ap₂ (λ k u. sub64 k (size u)) like.same_bytes same ∙ sym w';
        same_id = omega (arith, like.same_id);
      },
    )
