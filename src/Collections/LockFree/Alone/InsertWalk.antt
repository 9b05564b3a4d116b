-- ===== src/Collections/LockFree/Alone/InsertWalk.antt =====
-- The walk of Insert along the list to the place of a node (LockFreeFlowPacketQueue.cpp in
-- src/collections), by a thread that is alone.
use multipath_proxy.Prelude.{
  ℕ, suc, ◌+◌, ◌*◌, ◌<◌, ◌≡◌, refl, ◌≢◌, Bool, List, [], ◌∷◌, Option, none, some, ltb,
  if◌then◌else◌, arith, length, ap, sym, ◌∙◌, Bool-cases, inl, inr, true,
}
use multipath_proxy.Packet.FlowPacket.{FlowPacket, id, size}
use multipath_proxy.Collections.BlockingQueue.{add64}
use multipath_proxy.Collections.Sorted.{Absent}
use multipath_proxy.Collections.LockFree.{
  Node, Queue, InsertAt, same, put, allocate, store_next, walking, following, linking, hinting,
  counting, weighing, inserted, step_on, walk, follow, linked, link, insert_move,
}
use multipath_proxy.Collections.LockFree.Linked.{put-same, put-other}
use multipath_proxy.Collections.LockFree.Threads.{Thread, inserting, move}
use multipath_proxy.Collections.LockFree.Alone.{Ends, step, stop, Ends-mono}
use multipath_proxy.Collections.LockFree.Alone.Chain.{
  Cell, first, packets, Chain, Apart, Distinct, Chain-put, place_cell,
}

-- What Insert changes besides the links.
abbrev pub counted : FlowPacket → Queue → Queue
counted p q = record q { size_ = add64 q.size_ 1; byte_size = add64 q.byte_size (size p) }

pub counting_ends :
    (q : Queue) (p : FlowPacket)
    → Ends 2 q (inserting (counting p)) (counted p q) (inserting (inserted p))
unfolding move insert_move
counting_ends q p =
    step q (inserting (counting p)) (record q { size_ = add64 q.size_ 1 }) (inserting (weighing p))
      refl
      (step (record q { size_ = add64 q.size_ 1 }) (inserting (weighing p)) (counted p q)
        (inserting (inserted p)) refl (stop (counted p q) (inserting (inserted p)) refl))

pub hinting_ends :
    (q : Queue) (p : FlowPacket) (a : ℕ)
    → Ends 3 q
        (inserting (hinting p a))
        (counted p (record q { tail_hint = some a }))
        (inserting (inserted p))
unfolding move insert_move
hinting_ends q p a =
    step q (inserting (hinting p a)) (record q { tail_hint = some a }) (inserting (counting p)) refl
      (counting_ends (record q { tail_hint = some a }) p)

-- The queue `q'` has, where `q` has the nodes `cs`, the nodes `cs'`, one more.
pub record PutIn (q : Queue) (p : FlowPacket) (cs cs' : List Cell) (q' : Queue) : Type 0 where
  pub chain : Chain q'.nodes cs'
  pub others : (b : ℕ) → Apart b cs → q.fresh ≢ b → q'.nodes b ≡ q.nodes b
  pub one_more : q'.fresh ≡ suc q.fresh
  pub sized : q'.size_ ≡ add64 q.size_ 1
  pub weighed : q'.byte_size ≡ add64 q.byte_size (size p)
  pub stays : q'.current_id ≡ q.current_id

module _ (q : Queue) (p : FlowPacket) where
  -- The compare-exchange in `linking`, where nothing has changed since the load.
  abbrev spliced : Cell → Option ℕ → Queue
  spliced c b =
      allocate (store_next q c.0 (record { flow_packet = c.1; next = b }) (some q.fresh)) p b

  pub same_refl : (b : Option ℕ) → same b b ≡ true
  same_refl none = refl
  same_refl (some b) = ground arith

  linking_move :
      (c : Cell) (b : Option ℕ)
      → q.nodes c.0 ≡ some (record { flow_packet = c.1; next = b })
      → move q (inserting (linking p c.0 b)) ≡ (spliced c b, inserting (linked p q.fresh b))
  unfolding move insert_move link
  linking_move c b e = rw (e, same_refl b)

  module _ (c : Cell) (cs : List Cell) (alone : Apart c.0 cs) (apart : Apart q.fresh (c ∷ cs))
      (at_c : q.nodes c.0 ≡ some (record { flow_packet = c.1; next = first cs }))
      (chain : Chain q.nodes cs) where
    abbrev front : Option Node
    front = some (record { flow_packet = c.1; next = some q.fresh })

    abbrev behind : Option Node
    behind = some (record { flow_packet = p; next = first cs })

    -- A new node that is linked in behind `c`.
    spliced-Chain : Chain (spliced c (first cs)).nodes (c ∷ (q.fresh, p) ∷ cs)
    spliced-Chain = (
      put-other (put q.nodes c.0 front) q.fresh c.0 behind (λ e. apart.0 (sym e))
          ∙ put-same q.nodes c.0 front,
      (
        put-same (put q.nodes c.0 front) q.fresh behind,
        Chain-put (put q.nodes c.0 front) q.fresh behind cs apart.1
            (Chain-put q.nodes c.0 front cs alone chain),
      ),
    )

    spliced-PutIn :
        (h : Option ℕ)
        → PutIn q p
            (c ∷ cs)
            (c ∷ (q.fresh, p) ∷ cs)
            (counted p (record (spliced c (first cs)) { tail_hint = h }))
    spliced-PutIn h = record {
      chain = spliced-Chain;
      others = λ b away other.
          put-other (put q.nodes c.0 front) q.fresh b behind other
          ∙ put-other q.nodes c.0 b front away.0;
      one_more = refl;
      sized = refl;
      weighed = refl;
      stays = refl;
    }

    -- From the compare-exchange on.
    linking_ends :
        (q' : Queue) × Ends 4 q (inserting (linking p c.0 (first cs))) q' (inserting (inserted p))
        × (q'.head ≡ q.head)
        × PutIn q p (c ∷ cs) (c ∷ (q.fresh, p) ∷ cs) q'
    linking_ends = ends (first cs) refl
      where
        ends :
            (b : Option ℕ)
            → first cs ≡ b
            → (q' : Queue) × Ends 4 q
                (inserting (linking p c.0 (first cs)))
                q'
                (inserting (inserted p))
              × (q'.head ≡ q.head)
              × PutIn q p (c ∷ cs) (c ∷ (q.fresh, p) ∷ cs) q'
        ends none e = (
          counted p (record (spliced c (first cs)) { tail_hint = some q.fresh }),
          step q (inserting (linking p c.0 (first cs))) (spliced c (first cs))
              (inserting (hinting p q.fresh))
              (linking_move c (first cs) at_c
                ∙ ap (λ b. (spliced c (first cs), inserting (linked p q.fresh b))) e)
              (hinting_ends (spliced c (first cs)) p q.fresh),
          refl,
          spliced-PutIn (some q.fresh),
        )
        ends (some b) e = (
          counted p (spliced c (first cs)),
          step q (inserting (linking p c.0 (first cs))) (spliced c (first cs))
              (inserting (counting p))
              (linking_move c (first cs) at_c
                ∙ ap (λ b. (spliced c (first cs), inserting (linked p q.fresh b))) e)
              (Ends-mono (omega arith) (counting_ends (spliced c (first cs)) p)),
          refl,
          spliced-PutIn q.tail_hint,
        )

  pub walking_move :
      (c : Cell) (b : Option ℕ)
      → q.nodes c.0 ≡ some (record { flow_packet = c.1; next = b })
      → id c.1 ≢ id p
      → move q (inserting (walking p c.0)) ≡ (q, inserting (step_on p c.0 b))
  unfolding move insert_move walk
  walking_move c b e h = rw e (ground arith)

  pub following_move :
      (a : ℕ) (c : Cell) (b : Option ℕ)
      → q.nodes c.0 ≡ some (record { flow_packet = c.1; next = b })
      → move q (inserting (following p a c.0))
        ≡ (q, inserting (if ltb (id c.1) (id p) then linking p a (some c.0) else walking p c.0))
  unfolding move insert_move follow
  following_move a c b e = rw e (ground arith)

  -- A node in front of those that have changed.
  PutIn-cons :
      (c d : Cell) (cs ds : List Cell) (q' : Queue)
      → Apart c.0 (d ∷ cs)
      → q.fresh ≢ c.0
      → q.nodes c.0 ≡ some (record { flow_packet = c.1; next = some d.0 })
      → PutIn q p (d ∷ cs) (d ∷ ds) q'
      → PutIn q p (c ∷ d ∷ cs) (c ∷ d ∷ ds) q'
  PutIn-cons c d cs ds q' away new at put = record {
    chain = (put.others c.0 away new ∙ at, put.chain);
    others = λ b far other. put.others b far.1 other;
    one_more = put.one_more;
    sized = put.sized;
    weighed = put.weighed;
    stays = put.stays;
  }

  -- From a node with an id above that of the packet, which is not in the list.
  pub walking_ends :
      (c : Cell) (cs : List Cell)
      → Chain q.nodes (c ∷ cs)
      → Distinct (c ∷ cs)
      → Apart q.fresh (c ∷ cs)
      → id p < id c.1
      → Absent (id p) (packets cs)
      → (q' : Queue) × Ends
          (2 * length cs + 6)
          q
          (inserting (walking p c.0))
          q'
          (inserting (inserted p))
        × (q'.head ≡ q.head)
        × PutIn q p (c ∷ cs) (c ∷ place_cell (q.fresh, p) cs) q'
  unfolding place_cell
  walking_ends c [] chain distinct apart above absent =
      let (q', ends, h, put) = linking_ends c [] tt apart chain.0 tt in
      (
        q',
        Ends-mono (omega arith) (
            step q (inserting (walking p c.0)) q (inserting (linking p c.0 none))
              (walking_move c none chain.0 (omega arith)) ends),
        h,
        put,
      )
  walking_ends c (d ∷ cs) chain distinct apart above absent =
      elim (Bool-cases (ltb (id d.1) (id p))) [
        | inl y ↦
            let (q', ends, h, put) = linking_ends c (d ∷ cs) distinct.0 apart chain.0 chain.1 in
            rw y (
              q',
              Ends-mono (omega arith) (onwards (ap (λ b. inserting (choose b)) y) ends),
              h,
              put,
            )
        | inr o ↦
            let (q', ends, h, put) =
              walking_ends d cs chain.1 distinct.1 apart.1 (ground arith) absent.1 in
            rw o (
              q',
              Ends-mono (omega arith) (onwards (ap (λ b. inserting (choose b)) o) ends),
              h,
              PutIn-cons c d cs (place_cell (q.fresh, p) cs) q' distinct.0 (λ e. apart.0 (sym e))
                  chain.0 put,
            )
      ]
    where
      choose : Bool → InsertAt
      choose b = if b then linking p c.0 (some d.0) else walking p d.0

      onwards :
          {n : ℕ} {q' : Queue} {t t' : Thread}
          → inserting (choose (ltb (id d.1) (id p))) ≡ t
          → Ends n q t q' t'
          → Ends (suc (suc n)) q (inserting (walking p c.0)) q' t'
      onwards {t} e ends =
          step q (inserting (walking p c.0)) q (inserting (following p c.0 d.0))
            (walking_move c (some d.0) chain.0 (omega arith))
            (step q (inserting (following p c.0 d.0)) q t
              (following_move c.0 d (first cs) chain.1.0 ∙ ap (λ u. (q, u)) e) ends)
