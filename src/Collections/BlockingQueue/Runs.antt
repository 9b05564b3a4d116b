-- ===== src/Collections/BlockingQueue/Runs.antt =====
-- Runs of the queue of src/collections/BlockingFlowPacketQueue.h one behind the other.
use mathlib.Core.Path.{subst}
use multipath_proxy.Prelude.{
  ℕ, zero, suc, ◌+◌, ◌≤◌, ◌≡◌, refl, sym, ap, ◌∙◌, List, [], ◌∷◌, ◌++◌, arith, length, replicate,
}
use multipath_proxy.Outcome.{Outcome, done, throws, fault, blocked, done-injective, ◌>>=◌}
use multipath_proxy.Packet.FlowPacket.{FlowPacket, id}
use multipath_proxy.Collections.Sorted.{
  Absent, Small, Small-insert_sorted, Above, Above-mono, Consecutive,
}
use multipath_proxy.Collections.BlockingQueue.{BlockingQueue, insert, pop}
use multipath_proxy.Collections.BlockingQueue.Delivery.{
  Call, inserts, pops, run, arrivals, AreNew, AreNew-insert_sorted, AreNew-tail,
}
use multipath_proxy.Collections.BlockingQueue.Invariant.{
  IsValid, insert-IsValid, waits, returns, pop-PopResult,
}

abbrev pub Result : Type 0
Result = Outcome (List FlowPacket × BlockingQueue)

abbrev pub add_out : FlowPacket → List FlowPacket × BlockingQueue → Result
add_out p (rest, last) = done (p ∷ rest, last)

-- Inversion of a result.
pub after_pop :
    (m : Result) (p : FlowPacket) (out : List FlowPacket) (last : BlockingQueue)
    → ◌≡◌ {A = Result} (m >>= add_out p) (done (out, last))
    → (rest : List FlowPacket) × (◌≡◌ {A = Result} m (done (rest, last))) × (p ∷ rest ≡ out)
after_pop (done (rest, l)) p out last h = (rest, cc h, cc h)
after_pop (throws e) p out last h = absurd (cc h)
after_pop (fault x) p out last h = absurd (cc h)

pub popped_run :
    (q q' : BlockingQueue) (p : FlowPacket) (calls : List Call)
    → pop q ≡ done (p, q')
    → run q (pops ∷ calls) ≡ (run q' calls >>= add_out p)
unfolding run
popped_run q q' p calls e = rw (e, run) refl

pub waiting_run :
    (q : BlockingQueue) (calls : List Call)
    → pop q ≡ fault blocked
    → run q (pops ∷ calls) ≡ run q calls
unfolding run
waiting_run q calls e = rw (e, run) refl

inserting_run :
    (q : BlockingQueue) (p : FlowPacket) (calls : List Call)
    → run q (inserts p ∷ calls) ≡ run (insert p q) calls
unfolding run
inserting_run q p calls = refl

-- Two runs of calls are one.
pub run-append :
    (calls more : List Call) (q q₁ q₂ : BlockingQueue) (out₁ out₂ : List FlowPacket)
    → IsValid q
    → Small q.deque
    → AreNew q.current_id q.deque (arrivals calls)
    → run q calls ≡ done (out₁, q₁)
    → run q₁ more ≡ done (out₂, q₂)
    → run q (calls ++ more) ≡ done (out₁ ++ out₂, q₂)
run-append [] more q q₁ q₂ out₁ out₂ v s n h k =
    let same : ◌≡◌ {A = List FlowPacket × BlockingQueue} ([], q) (out₁, q₁) =
      unfold run in done-injective h in
    ap (λ (r : List FlowPacket × BlockingQueue). run r.1 more) same
    ∙ k
    ∙ ap (λ (r : List FlowPacket × BlockingQueue). done (r.0 ++ out₂, q₂)) same
run-append (inserts p ∷ calls) more q q₁ q₂ out₁ out₂ v s n h k =
    let (v', d, c) = insert-IsValid p q v (n.0, n.2) in
    inserting_run q p (calls ++ more)
    ∙ run-append calls more (insert p q) q₁ q₂ out₁ out₂ v'
        (rw d (Small-insert_sorted p q.deque n.1 s))
        (rw (d, c) (AreNew-insert_sorted q.current_id p q.deque (arrivals calls) n.3 n.4))
        (sym (inserting_run q p calls) ∙ h) k
run-append (pops ∷ calls) more q q₁ q₂ out₁ out₂ v s n h k = elim (pop-PopResult q v s) [
  | waits e _ ↦
      waiting_run q (calls ++ more) e
      ∙ run-append calls more q q₁ q₂ out₁ out₂ v s n (sym (waiting_run q calls e) ∙ h) k
  | returns p q' e i d c v' ↦
      let (rest, runs, same) =
        after_pop (run q' calls) p out₁ q₁ (sym (popped_run q q' p calls e) ∙ h) in
      let s' : Small (p ∷ q'.deque) = subst Small d s in
      popped_run q q' p (calls ++ more) e
      ∙ ap (λ (m : Result). m >>= add_out p)
          (run-append calls more q' q₁ q₂ rest out₂ v' s'.1
            (rw c (
              AreNew-tail q.current_id p q'.deque (arrivals calls) i
                (subst (λ xs. AreNew q.current_id xs (arrivals calls)) d n)))
            runs k)
      ∙ ap (λ (ps : List FlowPacket). done (ps ++ out₂, q₂)) same
]

-- Pops empty a queue in which nothing is missing.
pub drain_all :
    (n : ℕ) (xs : List FlowPacket) (q : BlockingQueue)
    → IsValid q
    → Small q.deque
    → q.deque ≡ xs
    → Consecutive q.current_id xs
    → length xs ≤ n
    → (last : BlockingQueue) × (run q (replicate n pops) ≡ done (xs, last))
drain_all zero [] q v s e c le = (q, unfold run in refl)
drain_all zero (x ∷ xs) q v s e c le = absurd (omega arith)
drain_all (suc n) [] q v s e c le = elim (pop-PopResult q v s) [
  | waits w _ ↦
      let (last, runs) = drain_all n [] q v s e tt (omega arith) in
      (last, waiting_run q (replicate n pops) w ∙ runs)
  | returns p q' w i d next v' ↦ absurd (let m = ap length (sym d ∙ e) in omega arith)
]
drain_all (suc n) (x ∷ xs) q v s e c le = elim (pop-PopResult q v s) [
  | waits w missing ↦ absurd ((let f : Absent q.current_id (x ∷ xs) = rw e at missing in f.0) c.0)
  | returns p q' w i d next v' ↦
      let split : p ∷ q'.deque ≡ x ∷ xs = sym d ∙ e in
      let s' : Small (p ∷ q'.deque) = subst Small d s in
      let (last, runs) = drain_all n xs q' v' s'.1 (cc split) (rw next c.1) (omega arith) in
      let same : p ≡ x = cc split in
      (
        last,
        popped_run q q' p (replicate n pops) w
            ∙ ap (λ (m : Result). m >>= add_out p) runs
            ∙ ap (λ (u : FlowPacket). done (u ∷ xs, last)) same,
      )
]

-- A list that ascends behind one without gaps.
pub Consecutive-append-Above :
    (c : ℕ) (xs ys : List FlowPacket)
    → Consecutive c xs
    → Above (c + length xs) ys
    → Above c (xs ++ ys)
Consecutive-append-Above c [] ys s a = Above-mono c (c + 0) ys (omega arith) a
Consecutive-append-Above c (x ∷ xs) ys s a = (
  omega arith,
  Above-mono (suc (id x)) (c + 1) (xs ++ ys) (omega arith) (
      Consecutive-append-Above (c + 1) xs ys s.1
        (Above-mono (c + 1 + length xs) (c + length (x ∷ xs)) ys (omega arith) a)),
)

pub Consecutive-suffix :
    (c : ℕ) (xs ys : List FlowPacket) → Consecutive c (xs ++ ys) → Consecutive (c + length xs) ys
Consecutive-suffix c [] ys s = subst (λ k. Consecutive k ys) (omega arith) s
Consecutive-suffix c (x ∷ xs) ys s =
    subst (λ k. Consecutive k ys) (omega arith) (Consecutive-suffix (c + 1) xs ys s.1)
