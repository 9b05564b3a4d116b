-- ===== src/Collections/LockFree/Alone/Refused.antt =====
-- Insert by a thread that is alone of a packet whose id is in the list
-- (src/collections/LockFreeFlowPacketQueue.cpp).
use multipath_proxy.Prelude.{
  ℕ, suc, ◌+◌, ◌*◌, ◌<◌, ◌≡◌, refl, ◌⊎◌, List, [], ◌∷◌, arith, length, ◌∙◌, inl, inr, some,
}
use multipath_proxy.Packet.FlowPacket.{FlowPacket, id}
use multipath_proxy.Collections.Sorted.{Below}
use multipath_proxy.Collections.LockFree.{
  Queue, count_call, entering, walking, following, refused, walk, insert_move,
}
use multipath_proxy.Collections.LockFree.Threads.{inserting, move}
use multipath_proxy.Collections.LockFree.Alone.{Ends, step, stop, Ends-mono}
use multipath_proxy.Collections.LockFree.Alone.Chain.{Cell, first, packets, Chain, IsList}
use multipath_proxy.Collections.LockFree.Alone.InsertAlone.{compared}
use multipath_proxy.Collections.LockFree.Alone.InsertWalk.{walking_move, following_move}

-- A packet of the list has the id.
abbrev pub HasId : ℕ → List FlowPacket → Type 0
HasId i [] = ⊥
HasId i (x ∷ xs) = (id x ≡ i) ⊎ HasId i xs

HasId-Below : (i m : ℕ) (xs : List FlowPacket) → Below m xs → HasId i xs → i < m
HasId-Below i m [] b h = absurd h
HasId-Below i m (x ∷ xs) b (inl e) = omega arith
HasId-Below i m (x ∷ xs) b (inr h) = let lt = HasId-Below i (id x) xs b.1 h in omega arith

module _ (q : Queue) (p : FlowPacket) where
  refused_here :
      (c : Cell) (cs : List Cell)
      → Chain q.nodes (c ∷ cs)
      → id c.1 ≡ id p
      → Ends 1 q (inserting (walking p c.0)) q (inserting (refused p))
  unfolding move insert_move walk
  refused_here c cs chain e =
      step q (inserting (walking p c.0)) q (inserting (refused p)) (rw chain.0 (ground arith))
        (stop q (inserting (refused p)) refl)

  -- The walk meets the id.
  walking_refused :
      (c : Cell) (cs : List Cell)
      → Chain q.nodes (c ∷ cs)
      → Below (suc (id c.1)) (packets (c ∷ cs))
      → HasId (id p) (packets (c ∷ cs))
      → Ends (2 * length cs + 1) q (inserting (walking p c.0)) q (inserting (refused p))
  walking_refused c cs chain down (inl e) = Ends-mono (omega arith) (refused_here c cs chain e)
  walking_refused c [] chain down (inr h) = absurd h
  walking_refused c (d ∷ cs) chain down (inr h) =
      let lt = HasId-Below (id p) (id c.1) (packets (d ∷ cs)) down.1 h in
      let le = HasId-Below (id p) (suc (id d.1)) (packets (d ∷ cs)) (omega arith, down.1.1) h in
      Ends-mono (omega arith) (
        step q (inserting (walking p c.0)) q (inserting (following p c.0 d.0))
          (walking_move q p c (some d.0) chain.0 (omega arith))
          (step q (inserting (following p c.0 d.0)) q (inserting (walking p d.0))
            (following_move q p c.0 d (first cs) chain.1.0 ∙ ground arith)
            (walking_refused d cs chain.1 (omega arith, down.1.1) h)))

-- Insert by a thread that is alone, of a packet whose id is in the list, into a lock-free queue
-- whose ids descend, throws IdAlreadyExistsException, and leaves the list, its size and its count
-- of bytes: only the count of calls is one higher.
pub insert_refused :
    (q : Queue) (p : FlowPacket) (c : Cell) (cs : List Cell)
    → IsList q (c ∷ cs)
    → Below (suc (id c.1)) (packets (c ∷ cs))
    → HasId (id p) (packets (c ∷ cs))
    → Ends (2 * length cs + 4) q (inserting (entering p)) (count_call q) (inserting (refused p))
insert_refused q p c cs ok down h =
    let le = HasId-Below (id p) (suc (id c.1)) (packets (c ∷ cs)) down h in
    Ends-mono (omega arith) (
      compared q p c cs ok (walking p c.0) (ground arith)
        (walking_refused (count_call q) p c cs ok.chain down h))
