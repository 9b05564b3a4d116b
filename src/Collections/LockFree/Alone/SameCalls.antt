-- ===== src/Collections/LockFree/Alone/SameCalls.antt =====
-- One call of Insert or Pop on the lock-free queue with one thread and on the blocking queue, and the
-- calls behind it (src/collections/IFlowPacketQueue.h).
use mathlib.Core.Path.{subst}
use multipath_proxy.Prelude.{
  ℕ, suc, ◌+◌, ◌*◌, ◌^◌, ◌≤◌, ◌<◌, ◌≡◌, refl, sym, ap, ◌∙◌, List, [], ◌∷◌, some, none, arith,
  length, rev_append, Bool-cases, inl, inr, ltb,
}
use multipath_proxy.Outcome.{done, fault, blocked}
use multipath_proxy.Packet.FlowPacket.{FlowPacket, id}
use multipath_proxy.Collections.Sorted.{Absent, Small, insert_sorted}
use multipath_proxy.Collections.BlockingQueue.{BlockingQueue, insert, pop}
use multipath_proxy.Collections.BlockingQueue.Invariant.{IsValid, PopResult, waits, returns}
use multipath_proxy.Collections.BlockingQueue.Delivery.{
  Call, inserts, pops, run, arrivals, AreNew, AreNew-tail,
}
use multipath_proxy.Collections.LockFree.{Queue, inserted}
use multipath_proxy.Collections.LockFree.Pop.{popped}
use multipath_proxy.Collections.LockFree.Threads.{Thread, inserting, popping}
use multipath_proxy.Collections.LockFree.Alone.{alone, start, answer, and_then, calls_alone}
use multipath_proxy.Collections.LockFree.Alone.Chain.{Cell, packets, place_cell, but_last}
use multipath_proxy.Collections.LockFree.Alone.PopAlone.{take_last, Popped, gives, gives_none}
use multipath_proxy.Collections.LockFree.Alone.Alike.{
  Alike, Alike-pop, take_last-front, take_last-none,
}

-- The ids and their successors fit the 32 bits of the lock-free queue's currentId_.
abbrev pub Narrow : List FlowPacket → Type 0
Narrow [] = Unit {0}
Narrow (p ∷ ps) = (id p + 1 < 2 ^ 32) × Narrow ps

-- What the calls come to on both queues.
pub record SameRun (k : ℕ) (b : BlockingQueue) (q : Queue) (calls : List Call) : Type 0 where
  pub out : List FlowPacket
  pub last_b : BlockingQueue
  pub last_q : Queue
  pub cells : List Cell
  pub runs_b : run b calls ≡ done (out, last_b)
  pub runs_q : calls_alone k q calls ≡ some (out, last_q)
  pub alike : Alike last_b last_q cells

calls_alone-cons :
    (k : ℕ) (q q' : Queue) (t : Thread) (c : Call) (calls : List Call)
    → alone k q (start c) ≡ (q', t)
    → calls_alone k q (c ∷ calls) ≡ and_then (answer t) (calls_alone k q' calls)
unfolding calls_alone
calls_alone-cons k q q' t c calls e =
    ap (λ (m : Queue × Thread). and_then (answer m.1) (calls_alone k m.0 calls)) e

run-returned :
    (b b' last : BlockingQueue) (p : FlowPacket) (calls : List Call) (out : List FlowPacket)
    → pop b ≡ done (p, b')
    → run b' calls ≡ done (out, last)
    → run b (pops ∷ calls) ≡ done (p ∷ out, last)
unfolding run
run-returned b b' last p calls out e r = ground (arith, e, r)

run-waited :
    (b last : BlockingQueue) (calls : List Call) (out : List FlowPacket)
    → pop b ≡ fault blocked
    → run b calls ≡ done (out, last)
    → run b (pops ∷ calls) ≡ done (out, last)
unfolding run
run-waited b last calls out e r = ground (arith, e, r)

module _ (k : ℕ) (b : BlockingQueue) (q : Queue) (calls : List Call) where
  pub SameRun-inserts :
      (p : FlowPacket) (q' : Queue)
      → alone k q (start (inserts p)) ≡ (q', inserting (inserted p))
      → SameRun k (insert p b) q' calls
      → SameRun k b q (inserts p ∷ calls)
  unfolding run
  SameRun-inserts p q' e s = record {
    out = s.out;
    last_b = s.last_b;
    last_q = s.last_q;
    cells = s.cells;
    runs_b = s.runs_b;
    runs_q =
        calls_alone-cons k q q' (inserting (inserted p)) (inserts p) calls e
        ∙ ap (and_then (some [])) s.runs_q;
    alike = s.alike;
  }

  SameRun-pops :
      (p : FlowPacket) (b' : BlockingQueue) (q' : Queue)
      → pop b ≡ done (p, b')
      → alone k q (start pops) ≡ (q', popping (popped (some p)))
      → SameRun k b' q' calls
      → SameRun k b q (pops ∷ calls)
  SameRun-pops p b' q' e e' s = record {
    out = p ∷ s.out;
    last_b = s.last_b;
    last_q = s.last_q;
    cells = s.cells;
    runs_b = run-returned b b' s.last_b p calls s.out e s.runs_b;
    runs_q =
        calls_alone-cons k q q' (popping (popped (some p))) pops calls e'
        ∙ ap (and_then (some (p ∷ []))) s.runs_q;
    alike = s.alike;
  }

  SameRun-waits :
      (q' : Queue)
      → pop b ≡ fault blocked
      → alone k q (start pops) ≡ (q', popping (popped none))
      → SameRun k b q' calls
      → SameRun k b q (pops ∷ calls)
  SameRun-waits q' e e' s = record {
    out = s.out;
    last_b = s.last_b;
    last_q = s.last_q;
    cells = s.cells;
    runs_b = run-waited b s.last_b calls s.out e s.runs_b;
    runs_q =
        calls_alone-cons k q q' (popping (popped none)) pops calls e'
        ∙ ap (and_then (some [])) s.runs_q;
    alike = s.alike;
  }

pub Narrow-insert_sorted :
    (p : FlowPacket) (xs : List FlowPacket)
    → id p + 1 < 2 ^ 32
    → Narrow xs
    → Narrow (insert_sorted p xs)
unfolding insert_sorted
Narrow-insert_sorted p [] h s = (h, tt)
Narrow-insert_sorted p (x ∷ xs) h s = elim (Bool-cases (ltb (id p) (id x))) [
  | inl lt ↦ rw lt (h, s)
  | inr ge ↦ rw ge (s.0, Narrow-insert_sorted p xs h s.1)
]

length-but_last : (c : Cell) (cs : List Cell) → length (but_last c cs) ≡ length cs
unfolding but_last
length-but_last c [] = refl
length-but_last c (d ∷ cs) = ap suc (length-but_last d cs)

length-take_last :
    (i : ℕ) (cs cs' : List Cell) (p : FlowPacket)
    → take_last i cs ≡ some (cs', p)
    → length cs' ≤ length cs
unfolding take_last
length-take_last i [] cs' p e = absurd (ground arith)
length-take_last i (c ∷ cs) cs' p e = ground (arith, length-but_last c cs)

pub length-place_cell : (n : Cell) (cs : List Cell) → length (place_cell n cs) ≡ suc (length cs)
unfolding place_cell
length-place_cell n [] = refl
length-place_cell n (c ∷ cs) = ground (arith, length-place_cell n cs)

-- A Pop on both, and what follows.
pub same_pop :
    (k : ℕ) (calls : List Call) (b : BlockingQueue) (q : Queue) (cs : List Cell)
    → Alike b q cs
    → IsValid b
    → Small b.deque
    → Narrow b.deque
    → AreNew b.current_id b.deque (arrivals calls)
    → 2 * (length cs + length (arrivals calls)) + 12 ≤ k
    → ((b' : BlockingQueue) (q' : Queue) (cs' : List Cell)
        → Alike b' q' cs'
        → IsValid b'
        → Small b'.deque
        → Narrow b'.deque
        → AreNew b'.current_id b'.deque (arrivals calls)
        → length cs' ≤ length cs
        → SameRun k b' q' calls)
    → Popped q cs
    → PopResult b
    → SameRun k b q (pops ∷ calls)
same_pop k calls b q cs like v s narrow n fuel rest (gives q' r cs' last ends ok sz w c)
      (waits e missing) =
    let (turn, front) = take_last-front cs cs' r q.current_id last in
    let f : Absent b.current_id (r ∷ rev_append (packets cs') []) =
      subst (Absent b.current_id) (sym like.mirrored ∙ front) missing in
    absurd (f.0 (turn ∙ like.same_id))
same_pop k calls b q cs like v s narrow n fuel rest (gives_none q' last ends ok sz w c)
      (waits e missing) =
    SameRun-waits k b q calls q' e (ends.at_end k (omega arith)) (
      rest b q' cs
        (record {
          is_list = ok;
          mirrored = like.mirrored;
          same_size = sz ∙ like.same_size;
          same_bytes = w ∙ like.same_bytes;
          same_id = c ∙ like.same_id;
        })
        v s narrow n (omega arith))
same_pop k calls b q cs like v s narrow n fuel rest (gives_none q' last ends ok sz w c)
      (returns p b' e turn d i v') =
    absurd
      (take_last-none cs p b'.deque q.current_id last (like.mirrored ∙ d) (turn ∙ sym like.same_id))
same_pop k calls b q cs like v s narrow n fuel rest (gives q' r cs' last ends ok sz w c)
      (returns p b' e turn d i v') =
    let s' : Small (p ∷ b'.deque) = subst Small d s in
    let narrow' : Narrow (p ∷ b'.deque) = subst Narrow d narrow in
    let (same, like') = Alike-pop b b' q q' cs cs' p r like e d i (omega arith) last ok sz w c in
    SameRun-pops k b q calls p b' q' e
      (ends.at_end k (omega arith) ∙ ap (λ u. (q', popping (popped (some u)))) same)
      (rest b' q' cs' like' v' s'.1 narrow'.1
        (rw i (
          AreNew-tail b.current_id p b'.deque (arrivals calls) turn
            (subst (λ xs. AreNew b.current_id xs (arrivals calls)) d n)))
        (length-take_last q.current_id cs cs' r last))
