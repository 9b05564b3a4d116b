-- ===== src/Collections/LockFree/Alone/PopWalk.antt =====
-- The walk of Pop along the list to the last node (LockFreeFlowPacketQueue.cpp in src/collections),
-- by a thread that is alone.
use multipath_proxy.Prelude.{
  ℕ, suc, ◌+◌, ◌*◌, ◌≤◌, ◌≡◌, refl, ◌≢◌, Bool, List, [], ◌∷◌, Option, none, some, ◌==◌,
  if◌then◌else◌, arith, length, ap, ◌∙◌, true, false,
}
use multipath_proxy.Packet.FlowPacket.{FlowPacket, id}
use multipath_proxy.Collections.LockFree.{Node, Queue, same, put, store_next}
use multipath_proxy.Collections.LockFree.Linked.{put-same, put-other}
use multipath_proxy.Collections.LockFree.Pop.{
  PopAt, pacing, peeking, checking, unlinking, uncounting, popped, new_hint, pop_move,
}
use multipath_proxy.Collections.LockFree.Threads.{Thread, popping, move}
use multipath_proxy.Collections.LockFree.Alone.{Ends, step, stop, Ends-mono}
use multipath_proxy.Collections.LockFree.Alone.Chain.{Cell, Chain, Apart, Distinct, but_last, last}
use multipath_proxy.Collections.LockFree.Alone.TakeOut.{
  emptied, uncounting_ends, emptied-head, TakenOut, emptied-TakenOut,
}

-- Where the last node is the next one, the call returns its packet; else it returns nothing and
-- leaves the queue.
abbrev pub PopEnds : ℕ → Queue → Thread → List Cell → List Cell → Cell → Bool → Type 0
PopEnds n q t cs cs' z false = Ends n q t q (popping (popped none))
PopEnds n q t cs cs' z true =
    (q' : Queue) × Ends n q t q' (popping (popped (some z.1)))
    × (q'.head ≡ q.head)
    × TakenOut q z.1 cs cs' q'

pub move-popped :
    (q : Queue) (r : Option FlowPacket) → move q (popping (popped r)) ≡ (q, popping (popped r))
unfolding move pop_move
move-popped q r = refl

module _ (q : Queue) where
  pub same_refl : (b : Option ℕ) → same b b ≡ true
  same_refl none = refl
  same_refl (some b) = ground arith

  abbrev At : Cell → Option ℕ → Type 0
  At c b = q.nodes c.0 ≡ some (record { flow_packet = c.1; next = b })

  pacing_move :
      (l : Option ℕ) (c : Cell) (b : ℕ)
      → At c (some b)
      → move q (popping (pacing l c.0)) ≡ (q, popping (peeking l c.0 b))
  unfolding move pop_move
  pacing_move l c b e = rw e

  pacing_end_move :
      (l : Option ℕ) (c : Cell)
      → At c none
      → move q (popping (pacing l c.0)) ≡ (q, popping (popped none))
  unfolding move pop_move
  pacing_end_move l c e = rw e

  peeking_tail_move :
      (l : Option ℕ) (a : ℕ) (c : Cell)
      → At c none
      → move q (popping (peeking l a c.0)) ≡ (q, popping (checking l a c.0))
  unfolding move pop_move
  peeking_tail_move l a c e = rw e

  peeking_move :
      (l : Option ℕ) (a : ℕ) (c : Cell) (b : ℕ)
      → At c (some b)
      → move q (popping (peeking l a c.0)) ≡ (q, popping (pacing (some a) c.0))
  unfolding move pop_move
  peeking_move l a c b e = rw e

  checking_move :
      (l : Option ℕ) (a : ℕ) (c : Cell) (b : Option ℕ) (t : PopAt)
      → At c b
      → (if id c.1 == q.current_id then unlinking l a c.0 else pacing (some a) c.0) ≡ t
      → move q (popping (checking l a c.0)) ≡ (q, popping t)
  unfolding move pop_move
  checking_move l a c b t e h = rw e (ap (λ u. (q, popping u)) h)

  -- The last two nodes.
  module _ (l : Option ℕ) (c d : Cell) (chain : Chain q.nodes (c ∷ d ∷ []))
      (apart : d.0 ≢ c.0) where
    abbrev cut : Queue
    cut = store_next q c.0 (record { flow_packet = c.1; next = some d.0 }) none

    abbrev tail_node : Node
    tail_node = record { flow_packet = d.1; next = none }

    unlinking_move :
        move q (popping (unlinking l c.0 d.0))
        ≡ (cut, popping (uncounting tail_node d.0 (new_hint l c.0)))
    unfolding move pop_move
    unlinking_move = rw (chain.0, chain.1.0, same_refl (some d.0))

    taken_chain : Chain (put cut.nodes d.0 none) (c ∷ [])
    taken_chain = (put-other cut.nodes d.0 c.0 none apart ∙ put-same q.nodes c.0 _, tt)

    taken_others : (b : ℕ) → Apart b (c ∷ d ∷ []) → put cut.nodes d.0 none b ≡ q.nodes b
    taken_others b away = put-other cut.nodes d.0 b none away.1.0 ∙ put-other q.nodes c.0 b _ away.0

    -- From the look at the last node on.
    checking_ends :
        PopEnds 7 q (popping (checking l c.0 d.0)) (c ∷ d ∷ []) (c ∷ []) d (id d.1 == q.current_id)
    checking_ends = ends (id d.1 == q.current_id) refl
      where
        ends :
            (b : Bool)
            → (id d.1 == q.current_id) ≡ b
            → PopEnds 7 q (popping (checking l c.0 d.0)) (c ∷ d ∷ []) (c ∷ []) d b
        ends true y = (
          emptied cut tail_node d.0 (new_hint l c.0),
          step q (popping (checking l c.0 d.0)) q (popping (unlinking l c.0 d.0))
              (checking_move l c.0 d none (unlinking l c.0 d.0) chain.1.0 (rw y))
              (step q (popping (unlinking l c.0 d.0)) cut
                (popping (uncounting tail_node d.0 (new_hint l c.0))) unlinking_move
                (uncounting_ends cut tail_node d.0 (new_hint l c.0))),
          emptied-head cut tail_node d.0 (new_hint l c.0),
          emptied-TakenOut q cut tail_node d.0 (new_hint l c.0) (c ∷ d ∷ []) (c ∷ []) refl refl refl
              refl taken_chain taken_others,
        )
        ends false o = Ends-mono (omega arith) (
            step q (popping (checking l c.0 d.0)) q (popping (pacing (some c.0) d.0))
              (checking_move l c.0 d none (pacing (some c.0) d.0) chain.1.0 (rw o))
              (step q (popping (pacing (some c.0) d.0)) q (popping (popped none))
                (pacing_end_move (some c.0) d chain.1.0)
                (stop q (popping (popped none)) (move-popped q none))))

  PopEnds-cons :
      (n : ℕ) (t t₁ : Thread) (c d : Cell) (cs ds : List Cell) (z : Cell) (b : Bool)
      → Apart c.0 (d ∷ cs)
      → At c (some d.0)
      → move q t ≡ (q, t₁)
      → PopEnds n q t₁ (d ∷ cs) (d ∷ ds) z b
      → PopEnds (suc n) q t (c ∷ d ∷ cs) (c ∷ d ∷ ds) z b
  PopEnds-cons n t t₁ c d cs ds z false away at e ends = step q t q t₁ e ends
  PopEnds-cons n t t₁ c d cs ds z true away at e (q', ends, h, out) = (
    q',
    step q t q t₁ e ends,
    h,
    record {
      chain = (out.others c.0 away ∙ at, out.chain);
      others = λ b far. out.others b far.1;
      same_fresh = out.same_fresh;
      sized = out.sized;
      weighed = out.weighed;
      advanced = out.advanced;
    },
  )

  PopEnds-step :
      (m n : ℕ) (t t₁ : Thread) (cs ds : List Cell) (z : Cell) (b : Bool)
      → suc n ≤ m
      → move q t ≡ (q, t₁)
      → PopEnds n q t₁ cs ds z b
      → PopEnds m q t cs ds z b
  PopEnds-step m n t t₁ cs ds z false le e ends = Ends-mono le (step q t q t₁ e ends)
  PopEnds-step m n t t₁ cs ds z true le e (q', ends, h, out) =
      (q', Ends-mono le (step q t q t₁ e ends), h, out)

  -- The walk to the last node.
  pub pacing_ends :
      (l : Option ℕ) (c d : Cell) (cs : List Cell)
      → Chain q.nodes (c ∷ d ∷ cs)
      → Distinct (c ∷ d ∷ cs)
      → PopEnds
          (2 * length cs + 9)
          q
          (popping (pacing l c.0))
          (c ∷ d ∷ cs)
          (but_last c (d ∷ cs))
          (last d cs)
          (id (last d cs).1 == q.current_id)
  unfolding but_last last
  pacing_ends l c d [] chain distinct =
      PopEnds-step 9 8 (popping (pacing l c.0)) (popping (peeking l c.0 d.0)) (c ∷ d ∷ []) (c ∷ [])
        d (id d.1 == q.current_id) (omega arith) (pacing_move l c d.0 chain.0)
        (PopEnds-step 8 7 (popping (peeking l c.0 d.0)) (popping (checking l c.0 d.0)) (c ∷ d ∷ [])
          (c ∷ []) d (id d.1 == q.current_id) (omega arith) (peeking_tail_move l c.0 d chain.1.0)
          (checking_ends l c d chain distinct.0.0))
  pacing_ends l c d (e ∷ cs) chain distinct =
      PopEnds-step (2 * length (e ∷ cs) + 9) (suc (2 * length cs + 9)) (popping (pacing l c.0))
        (popping (peeking l c.0 d.0)) (c ∷ d ∷ e ∷ cs) (c ∷ but_last d (e ∷ cs)) (last e cs)
        (id (last e cs).1 == q.current_id) (omega arith) (pacing_move l c d.0 chain.0)
        (PopEnds-cons (2 * length cs + 9) (popping (peeking l c.0 d.0))
          (popping (pacing (some c.0) d.0)) c d (e ∷ cs) (but_last e cs) (last e cs)
          (id (last e cs).1 == q.current_id) distinct.0 chain.0 (peeking_move l c.0 d e.0 chain.1.0)
          (pacing_ends (some c.0) d e cs chain.1 distinct.1))
