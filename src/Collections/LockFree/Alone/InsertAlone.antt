-- ===== src/Collections/LockFree/Alone/InsertAlone.antt =====
-- Insert by a thread that is alone (src/collections/LockFreeFlowPacketQueue.cpp) puts a node into the
-- list at the place of its id.
use multipath_proxy.Prelude.{
  ℕ, suc, ◌+◌, ◌*◌, ◌≡◌, refl, List, [], ◌∷◌, none, some, ltb, if◌then◌else◌, arith, length, ap,
  sym, ◌∙◌, Bool-cases, inl, inr, true, false,
}
use mathlib.Core.Path.{subst}
use multipath_proxy.Packet.FlowPacket.{FlowPacket, id, size}
use multipath_proxy.Collections.BlockingQueue.{add64}
use multipath_proxy.Collections.Sorted.{Absent}
use multipath_proxy.Collections.LockFree.{
  Queue, InsertAt, same, put, allocate, count_call, entering, loading, storing, comparing,
  prepending, walking, hinting, counting, inserted, compare_head, load_head, insert_move,
}
use multipath_proxy.Collections.LockFree.Linked.{put-same}
use multipath_proxy.Collections.LockFree.Threads.{Thread, inserting, move}
use multipath_proxy.Collections.LockFree.Alone.{Ends, step, Ends-mono}
use multipath_proxy.Collections.LockFree.Alone.Chain.{
  Cell, packets, Apart, Inside, IsList, Inside-Apart, Inside-suc, Chain-put, place_cell,
  place_cell_behind, place_cell-Apart, place_cell-Distinct, place_cell-Inside,
}
use multipath_proxy.Collections.LockFree.Alone.InsertWalk.{
  counted, counting_ends, hinting_ends, PutIn, same_refl, walking_ends,
}

-- What a call of Insert by itself comes to.
pub record Inserted (q : Queue) (p : FlowPacket) (cs : List Cell) : Type 0 where
  pub after : Queue
  pub ends : Ends (2 * length cs + 9) q (inserting (entering p)) after (inserting (inserted p))
  pub is_list : IsList after (place_cell (q.fresh, p) cs)
  pub sized : after.size_ ≡ add64 q.size_ 1
  pub weighed : after.byte_size ≡ add64 q.byte_size (size p)
  pub stays : after.current_id ≡ q.current_id

module _ (q : Queue) (p : FlowPacket) where
  entered :
      {n : ℕ} {q' : Queue} {t' : Thread} (t : InsertAt)
      → load_head p q.head ≡ t
      → Ends n (count_call q) (inserting t) q' t'
      → Ends (suc (suc n)) q (inserting (entering p)) q' t'
  unfolding move insert_move
  entered t e ends = step q (inserting (entering p)) (count_call q) (inserting (loading p)) refl (
      step (count_call q) (inserting (loading p)) (count_call q) (inserting t)
        (ap (λ u. (count_call q, inserting u)) e) ends)

  -- The empty list.
  insert_first : q.head ≡ none → Inserted q p []
  unfolding move insert_move place_cell
  insert_first h = record {
    after = counted p (record first_node { tail_hint = some q.fresh });
    ends = Ends-mono (omega arith) (
        entered {n = 4} (storing p) (ap (load_head p) h) (
          step (count_call q) (inserting (storing p)) first_node (inserting (hinting p q.fresh))
            refl (hinting_ends first_node p q.fresh)));
    is_list = record {
      at_head = refl;
      chain = (put-same q.nodes q.fresh _, tt);
      distinct = (tt, tt);
      inside = (omega arith, tt);
    };
    sized = refl;
    weighed = refl;
    stays = refl;
  }
    where
      first_node : Queue
      first_node = record (allocate (count_call q) p none) { head = some q.fresh }

  module _ (c : Cell) (cs : List Cell) (ok : IsList q (c ∷ cs)) where
    comparing_move : move (count_call q) (inserting (comparing p c.0)) ≡ (
      count_call q,
      inserting (if ltb (id c.1) (id p) then prepending p c.0 else walking p c.0),
    )
    unfolding move insert_move compare_head
    comparing_move = rw ok.chain.0 (ground arith)

    pub compared :
        {n : ℕ} {q' : Queue} {t' : Thread} (t : InsertAt)
        → (if ltb (id c.1) (id p) then prepending p c.0 else walking p c.0) ≡ t
        → Ends n (count_call q) (inserting t) q' t'
        → Ends (n + 3) q (inserting (entering p)) q' t'
    compared {n} t e ends = Ends-mono (omega arith) (
        entered {n = suc n} (comparing p c.0) (ap (load_head p) ok.at_head) (
          step (count_call q) (inserting (comparing p c.0)) (count_call q) (inserting t)
            (comparing_move ∙ ap (λ u. (count_call q, inserting u)) e) ends))

    abbrev pushed : Queue
    pushed = record (allocate (count_call q) p (some c.0)) { head = some q.fresh }

    prepending_move :
        move (count_call q) (inserting (prepending p c.0)) ≡ (pushed, inserting (counting p))
    unfolding move insert_move
    prepending_move = rw (ap (λ h. same h (some c.0)) ok.at_head, same_refl q p (some c.0))

    -- In front of the head.
    insert_front : ltb (id c.1) (id p) ≡ true → Inserted q p (c ∷ cs)
    unfolding place_cell
    insert_front y = record {
      after = counted p pushed;
      ends = Ends-mono (omega arith) (
          compared (prepending p c.0) (rw y) (
            step (count_call q) (inserting (prepending p c.0)) pushed (inserting (counting p))
              prepending_move (counting_ends pushed p)));
      is_list = rw y (record {
        at_head = refl;
        chain = (put-same q.nodes q.fresh _, Chain-put q.nodes q.fresh _ (c ∷ cs) away ok.chain);
        distinct = (away, ok.distinct);
        inside = (omega arith, Inside-suc q.fresh (c ∷ cs) ok.inside);
      });
      sized = refl;
      weighed = refl;
      stays = refl;
    }
      where
        away : Apart q.fresh (c ∷ cs)
        away = Inside-Apart q.fresh q.fresh (c ∷ cs) (omega arith) ok.inside

    behind-IsList :
        (q' : Queue)
        → q'.head ≡ q.head
        → PutIn (count_call q) p (c ∷ cs) (c ∷ place_cell (q.fresh, p) cs) q'
        → IsList q' (c ∷ place_cell (q.fresh, p) cs)
    behind-IsList q' h put =
        let away = Inside-Apart q.fresh q.fresh (c ∷ cs) (omega arith) ok.inside in
        record {
          at_head = h ∙ ok.at_head;
          chain = put.chain;
          distinct = (
            place_cell-Apart c.0 (q.fresh, p) cs (λ e. away.0 (sym e)) ok.distinct.0,
            place_cell-Distinct (q.fresh, p) cs away.1 ok.distinct.1,
          );
          inside =
              subst (λ f. Inside f (c ∷ place_cell (q.fresh, p) cs)) (sym put.one_more)
                (
                  (Inside-suc q.fresh (c ∷ cs) ok.inside).0,
                  place_cell-Inside (suc q.fresh) (q.fresh, p) cs (omega arith)
                      (Inside-suc q.fresh cs ok.inside.1),
                );
        }

    -- Behind the head.
    insert_behind :
        ltb (id c.1) (id p) ≡ false → Absent (id p) (packets (c ∷ cs)) → Inserted q p (c ∷ cs)
    insert_behind o absent =
        let away = Inside-Apart q.fresh q.fresh (c ∷ cs) (omega arith) ok.inside in
        let (q', ends, h, put) =
          walking_ends (count_call q) p c cs ok.chain ok.distinct away (ground arith) absent.1 in
        record {
          after = q';
          ends = Ends-mono (omega arith) (compared (walking p c.0) (rw o) ends);
          is_list = rw (place_cell_behind (q.fresh, p) c cs o) (behind-IsList q' h put);
          sized = put.sized;
          weighed = put.weighed;
          stays = put.stays;
        }

-- Insert of a packet with an id that is not in the list ends, and puts a node for the packet in front
-- of the first one with a smaller id.
pub insert_alone :
    (q : Queue) (p : FlowPacket) (cs : List Cell)
    → IsList q cs
    → Absent (id p) (packets cs)
    → Inserted q p cs
insert_alone q p [] ok absent = insert_first q p ok.at_head
insert_alone q p (c ∷ cs) ok absent = elim (Bool-cases (ltb (id c.1) (id p))) [
  | inl y ↦ insert_front q p c cs ok y
  | inr o ↦ insert_behind q p c cs ok o absent
]
