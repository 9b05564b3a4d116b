-- ===== src/Collections/LockFree/Alone/PopAlone.antt =====
-- Pop by a thread that is alone (src/collections/LockFreeFlowPacketQueue.cpp) takes out the last node,
-- if its packet is the next one.
use mathlib.Core.Path.{subst}
use multipath_proxy.Prelude.{
  ℕ, suc, ◌+◌, ◌*◌, ◌%◌, ◌^◌, ◌≡◌, refl, Bool, List, [], ◌∷◌, Option, none, some, ◌==◌,
  if◌then◌else◌, arith, length, ap, sym, ◌∙◌, true, false,
}
use multipath_proxy.Packet.FlowPacket.{FlowPacket, id, size}
use multipath_proxy.Collections.BlockingQueue.{sub64}
use multipath_proxy.Collections.LockFree.{Node, Queue, same, count_call}
use multipath_proxy.Collections.LockFree.Pop.{
  PopAt, pop_entering, pop_loading, testing, looking, matching, heading, pacing, uncounting, popped,
  test_head, pop_move,
}
use multipath_proxy.Collections.LockFree.Threads.{Thread, popping, move}
use multipath_proxy.Collections.LockFree.Alone.{Ends, step, stop, Ends-mono}
use multipath_proxy.Collections.LockFree.Alone.Chain.{
  Cell, first, Apart, Distinct, Inside, IsList, but_last, last,
}
use multipath_proxy.Collections.LockFree.Alone.TakeOut.{emptied, uncounting_ends, TakenOut}
use multipath_proxy.Collections.LockFree.Alone.PopWalk.{
  PopEnds, move-popped, same_refl, pacing_ends,
}

-- All nodes but the last, and the last one if its packet is the next one.
unfoldable pub take_last : ℕ → List Cell → Option (List Cell × FlowPacket)
take_last i [] = none
take_last i (c ∷ cs) = if id (last c cs).1 == i then some (but_last c cs, (last c cs).1) else none

-- What a call of Pop by itself comes to.
pub data Popped (q : Queue) (cs : List Cell) : Type 0 where
  gives :
      (q' : Queue) (p : FlowPacket) (cs' : List Cell)
      → take_last q.current_id cs ≡ some (cs', p)
      → Ends (2 * length cs + 12) q (popping pop_entering) q' (popping (popped (some p)))
      → IsList q' cs'
      → q'.size_ ≡ sub64 q.size_ 1
      → q'.byte_size ≡ sub64 q.byte_size (size p)
      → q'.current_id ≡ (q.current_id + 1) % 2 ^ 32
      → Popped q cs
  gives_none :
      (q' : Queue)
      → take_last q.current_id cs ≡ none
      → Ends (2 * length cs + 12) q (popping pop_entering) q' (popping (popped none))
      → IsList q' cs
      → q'.size_ ≡ q.size_
      → q'.byte_size ≡ q.byte_size
      → q'.current_id ≡ q.current_id
      → Popped q cs

but_last-Apart : (a : ℕ) (c : Cell) (cs : List Cell) → Apart a (c ∷ cs) → Apart a (but_last c cs)
unfolding but_last
but_last-Apart a c [] h = tt
but_last-Apart a c (d ∷ cs) h = (h.0, but_last-Apart a d cs h.1)

but_last-Distinct : (c : Cell) (cs : List Cell) → Distinct (c ∷ cs) → Distinct (but_last c cs)
unfolding but_last
but_last-Distinct c [] h = tt
but_last-Distinct c (d ∷ cs) h = (but_last-Apart c.0 d cs h.0, but_last-Distinct d cs h.1)

but_last-Inside : (f : ℕ) (c : Cell) (cs : List Cell) → Inside f (c ∷ cs) → Inside f (but_last c cs)
unfolding but_last
but_last-Inside f c [] h = tt
but_last-Inside f c (d ∷ cs) h = (h.0, but_last-Inside f d cs h.1)

but_last-first : (c d : Cell) (cs : List Cell) → first (but_last c (d ∷ cs)) ≡ some c.0
unfolding but_last
but_last-first c d cs = refl

counted_IsList : (q : Queue) (cs : List Cell) → IsList q cs → IsList (count_call q) cs
counted_IsList q cs ok = record {
  at_head = ok.at_head;
  chain = ok.chain;
  distinct = ok.distinct;
  inside = ok.inside;
}

module _ (q : Queue) (cs : List Cell) (ok : IsList q cs) where
  -- As far as the test of the head.
  entered :
      {n : ℕ} {q' : Queue} {t' : Thread} (t : PopAt)
      → move (count_call q) (popping (testing (first cs))) ≡ (count_call q, popping t)
      → Ends n (count_call q) (popping t) q' t'
      → Ends (n + 3) q (popping pop_entering) q' t'
  unfolding move pop_move
  entered t e ends = Ends-mono (omega arith) (
      step q (popping pop_entering) (count_call q) (popping pop_loading) refl (
        step (count_call q) (popping pop_loading) (count_call q) (popping (testing (first cs)))
          (ap (λ h. (count_call q, popping (testing h))) ok.at_head)
          (step (count_call q) (popping (testing (first cs))) (count_call q) (popping t) e ends)))

  without_last :
      (c d : Cell) (ds : List Cell) (p : FlowPacket) (q' : Queue)
      → cs ≡ c ∷ d ∷ ds
      → q'.head ≡ q.head
      → TakenOut (count_call q) p cs (but_last c (d ∷ ds)) q'
      → IsList q' (but_last c (d ∷ ds))
  without_last c d ds p q' e h out = record {
    at_head = h ∙ ok.at_head ∙ ap first e ∙ sym (but_last-first c d ds);
    chain = out.chain;
    distinct = but_last-Distinct c (d ∷ ds) (subst Distinct e ok.distinct);
    inside = but_last-Inside q'.fresh c (d ∷ ds) (
        subst (λ f. Inside f (c ∷ d ∷ ds)) (sym out.same_fresh)
          (subst (Inside q.fresh) e ok.inside));
  }

pop_empty : (q : Queue) → IsList q [] → Popped q []
unfolding move pop_move take_last
pop_empty q ok =
    gives_none (count_call q) refl
      (Ends-mono (omega arith) (
        entered q [] ok {n = 0} (popped none)
          (ap (λ h. (count_call q, popping (test_head none h))) ok.at_head)
          (stop (count_call q) (popping (popped none)) (move-popped (count_call q) none))))
      (counted_IsList q [] ok) refl refl refl

module _ (q : Queue) (c : Cell) (cs : List Cell) (ok : IsList q (c ∷ cs)) where
  testing_move :
      move (count_call q) (popping (testing (some c.0))) ≡ (count_call q, popping (looking c.0))
  unfolding move pop_move
  testing_move = ap (λ h. (count_call q, popping (test_head (some c.0) h))) ok.at_head

-- A list of one node.
module _ (q : Queue) (c : Cell) (ok : IsList q (c ∷ [])) where
  abbrev only : Node
  only = record { flow_packet = c.1; next = none }

  looking_move :
      move (count_call q) (popping (looking c.0)) ≡ (count_call q, popping (matching c.0))
  unfolding move pop_move
  looking_move = rw ok.chain.0

  matching_move :
      (t : PopAt)
      → (if id c.1 == q.current_id then heading c.0 else popped none) ≡ t
      → move (count_call q) (popping (matching c.0)) ≡ (count_call q, popping t)
  unfolding move pop_move
  matching_move t h = rw ok.chain.0 (ap (λ u. (count_call q, popping u)) h)

  abbrev beheaded : Queue
  beheaded = record (count_call q) { head = none }

  move-heading :
      move (count_call q) (popping (heading c.0))
      ≡ (beheaded, popping (uncounting only c.0 (some none)))
  unfolding move pop_move
  move-heading = rw (ap (λ h. same h (some c.0)) ok.at_head, same_refl q (some c.0), ok.chain.0)

  pop_single : (b : Bool) → (id c.1 == q.current_id) ≡ b → Popped q (c ∷ [])
  unfolding take_last but_last last
  pop_single true y =
      gives (emptied beheaded only c.0 (some none)) c.1 [] (rw y)
        (Ends-mono (omega arith) (
          entered q (c ∷ []) ok {n = 8} (looking c.0) (testing_move q c [] ok) (
            step (count_call q) (popping (looking c.0)) (count_call q) (popping (matching c.0))
              looking_move
              (step (count_call q) (popping (matching c.0)) (count_call q) (popping (heading c.0))
                (matching_move (heading c.0) (rw y))
                (step (count_call q) (popping (heading c.0)) beheaded
                  (popping (uncounting only c.0 (some none))) move-heading
                  (uncounting_ends beheaded only c.0 (some none)))))))
        (record { at_head = refl; chain = tt; distinct = tt; inside = tt }) refl refl refl
  pop_single false o =
      gives_none (count_call q) (rw o)
        (Ends-mono (omega arith) (
          entered q (c ∷ []) ok {n = 2} (looking c.0) (testing_move q c [] ok) (
            step (count_call q) (popping (looking c.0)) (count_call q) (popping (matching c.0))
              looking_move
              (step (count_call q) (popping (matching c.0)) (count_call q) (popping (popped none))
                (matching_move (popped none) (rw o))
                (stop (count_call q) (popping (popped none)) (move-popped (count_call q) none))))))
        (counted_IsList q (c ∷ []) ok) refl refl refl

-- A longer list.
module _ (q : Queue) (c d : Cell) (cs : List Cell) (ok : IsList q (c ∷ d ∷ cs)) where
  looking_on_move :
      move (count_call q) (popping (looking c.0)) ≡ (count_call q, popping (pacing none c.0))
  unfolding move pop_move
  looking_on_move = rw ok.chain.0

  pop_long :
      (b : Bool)
      → (id (last d cs).1 == q.current_id) ≡ b
      → PopEnds
          (2 * length cs + 9)
          (count_call q)
          (popping (pacing none c.0))
          (c ∷ d ∷ cs)
          (but_last c (d ∷ cs))
          (last d cs)
          b
      → Popped q (c ∷ d ∷ cs)
  unfolding take_last last
  pop_long true y (q', ends, h, out) =
      gives q' (last d cs).1 (but_last c (d ∷ cs)) (rw y)
        (Ends-mono (omega arith) (
          entered q (c ∷ d ∷ cs) ok {n = suc (2 * length cs + 9)} (looking c.0)
            (testing_move q c (d ∷ cs) ok)
            (step (count_call q) (popping (looking c.0)) (count_call q) (popping (pacing none c.0))
              looking_on_move ends)))
        (without_last q (c ∷ d ∷ cs) ok c d cs (last d cs).1 q' refl h out) out.sized out.weighed
        out.advanced
  pop_long false o ends =
      gives_none (count_call q) (rw o)
        (Ends-mono (omega arith) (
          entered q (c ∷ d ∷ cs) ok {n = suc (2 * length cs + 9)} (looking c.0)
            (testing_move q c (d ∷ cs) ok)
            (step (count_call q) (popping (looking c.0)) (count_call q) (popping (pacing none c.0))
              looking_on_move ends)))
        (counted_IsList q (c ∷ d ∷ cs) ok) refl refl refl

-- Pop ends, and takes the last node out, if its packet is the next one; else it changes nothing.
pub pop_alone : (q : Queue) (cs : List Cell) → IsList q cs → Popped q cs
pop_alone q [] ok = pop_empty q ok
pop_alone q (c ∷ []) ok = pop_single q c ok (id c.1 == q.current_id) refl
pop_alone q (c ∷ d ∷ cs) ok =
    pop_long q c d cs ok (id (last d cs).1 == q.current_id) refl
      (pacing_ends (count_call q) none c d cs ok.chain ok.distinct)
