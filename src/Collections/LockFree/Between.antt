-- ===== src/Collections/LockFree/Between.antt =====
-- A node is linked in behind another one (src/collections/LockFreeFlowPacketQueue.cpp).
use multipath_proxy.Prelude.{
  ℕ, suc, ◌≤◌, ◌<◌, ◌≡◌, refl, ◌≢◌, some, arith, ◌==◌, Bool-cases, inl, inr, ap, sym, ◌∙◌, ◌⊎◌,
}
use multipath_proxy.Packet.FlowPacket.{FlowPacket, id}
use multipath_proxy.Collections.LockFree.{Node, put}
use multipath_proxy.Collections.LockFree.Linked.{
  Cells, Reaches, here, next, Lower, Holds, IsLinked, Grows, some-injective, none-not-some, if-true,
  if-false, put-same, put-other, Reaches-append, not_fresh,
}

module _ (c : Cells) (ok : IsLinked c) (p : FlowPacket) (a : ℕ) (n : Node)
    (at_n : c.nodes a ≡ some n) (above : id p < id n.flow_packet)
    (below : (b : ℕ) → n.next ≡ some b → Lower c b (id p)) where
  abbrev front : Node
  front = record n { next = some c.fresh }

  abbrev new_node : Node
  new_node = record { flow_packet = p; next = n.next }

  abbrev pub spliced : Cells
  spliced = record {
    head = c.head;
    nodes = put (put c.nodes a (some front)) c.fresh (some new_node);
    fresh = suc c.fresh;
  }

  at_fresh : spliced.nodes c.fresh ≡ some new_node
  at_fresh = put-same (put c.nodes a (some front)) c.fresh (some new_node)

  at_front : spliced.nodes a ≡ some front
  at_front =
      put-other (put c.nodes a (some front)) c.fresh a (some new_node) (not_fresh c ok a n at_n)
      ∙ put-same c.nodes a (some front)

  -- A node of the list is the one in front of the new one, or is as it was.
  old_cases :
      (x : ℕ) (y : Node) → c.nodes x ≡ some y → ((a ≡ x) × (n ≡ y)) ⊎ (spliced.nodes x ≡ some y)
  old_cases x y e = elim (Bool-cases (a == x)) [
    | inl t ↦
        let at : a ≡ x = ground arith in inl (at, some-injective (sym at_n ∙ (ap c.nodes at ∙ e)))
    | inr o ↦ inr (
        put-other (put c.nodes a (some front)) c.fresh x (some new_node) (not_fresh c ok x y e)
        ∙ (if-false (some front) (c.nodes x) o ∙ e))
  ]

  new_cases :
      (x : ℕ) (z : Node)
      → spliced.nodes x ≡ some z
      → ((c.fresh ≡ x) × (new_node ≡ z)) ⊎ (((a ≡ x) × (front ≡ z)) ⊎ (c.nodes x ≡ some z))
  new_cases x z e = elim (Bool-cases (c.fresh == x)) [
    | inl y ↦ inl (ground arith, some-injective (sym (if-true (some new_node) _ y) ∙ e))
    | inr o ↦
        let rest = sym (if-false (some new_node) (put c.nodes a (some front) x) o) ∙ e in
        elim (Bool-cases (a == x)) [
          | inl y ↦
              inr (
                inl
                  (ground arith, some-injective (sym (if-true (some front) (c.nodes x) y) ∙ rest)))
          | inr k ↦ inr (inr (sym (if-false (some front) (c.nodes x) k) ∙ rest))
        ]
  ]

  keeps_old :
      (x : ℕ) (y : Node)
      → c.nodes x ≡ some y
      → (z : Node) × (spliced.nodes x ≡ some z) × (z.flow_packet ≡ y.flow_packet)
  keeps_old x y e = elim (old_cases x y e) [
    | inl (at, same) ↦ (front, ap spliced.nodes (sym at) ∙ at_front, ap (λ m. m.flow_packet) same)
    | inr stays ↦ (y, stays, refl)
  ]

  pub spliced-Grows : Grows c spliced
  spliced-Grows = record {
    keeps = keeps_old;
    rises = λ i (h, at, (m, at_m, le)).
        let (z, at_z, same) = keeps_old h m at_m in (h, at, (z, at_z, rw (ap (λ k. id k) same) le));
  }

  pub spliced-Holds : Holds spliced p
  spliced-Holds = (c.fresh, new_node, at_fresh, refl)

  lift-Lower : (i b : ℕ) → Lower c b i → Lower spliced b i
  lift-Lower i b (m, at_m, lt) =
      let (z, at_z, same) = keeps_old b m at_m in (z, at_z, rw (ap (λ k. id k) same) lt)

  Reaches-spliced : {x y : ℕ} → Reaches c.nodes x y → Reaches spliced.nodes x y
  Reaches-spliced here = here
  Reaches-spliced {x} (next m e l r) = elim (old_cases x m e) [
    | inl (at, same) ↦
        next front (ap spliced.nodes (sym at) ∙ at_front) refl
          (next new_node at_fresh (ap (λ k. k.next) same ∙ l) (Reaches-spliced r))
    | inr stays ↦ next m stays l (Reaches-spliced r)
  ]

  descends_spliced :
      (x y : ℕ) (z : Node)
      → spliced.nodes x ≡ some z
      → z.next ≡ some y
      → Lower spliced y (id z.flow_packet)
  descends_spliced x y z e l = elim (new_cases x z e) [
    | inl (at, same) ↦ rw (← same) (lift-Lower (id p) y (below y (ap (λ k. k.next) same ∙ l)))
    | inr (inl (at, same)) ↦
        let to = some-injective (ap (λ k. k.next) same ∙ l) in
        (new_node, ap spliced.nodes (sym to) ∙ at_fresh, rw (← same) above)
    | inr (inr old) ↦ lift-Lower (id z.flow_packet) y (ok.descends x y z old l)
  ]

  reached_spliced : (x : ℕ) (z : Node) → spliced.nodes x ≡ some z → Reaches spliced.nodes ok.first x
  reached_spliced x z e = elim (new_cases x z e) [
    | inl (at, _) ↦
        rw (← at)
          (Reaches-append (Reaches-spliced (ok.reached a n at_n)) (next front at_front refl here))
    | inr (inl (at, _)) ↦ rw (← at) (Reaches-spliced (ok.reached a n at_n))
    | inr (inr old) ↦ Reaches-spliced (ok.reached x z old)
  ]

  pub spliced-IsLinked : IsLinked spliced
  spliced-IsLinked =
      let (top, at_top, same) = keeps_old ok.first ok.top ok.at_top in
      record {
        first = ok.first;
        top = top;
        at_head = ok.at_head;
        at_top = at_top;
        beyond = λ x h.
            put-other (put c.nodes a (some front)) c.fresh x (some new_node) (omega arith)
            ∙ (put-other c.nodes a x (some front) (differs x h) ∙ ok.beyond x (omega arith));
        descends = descends_spliced;
        reached = reached_spliced;
      }
    where
      differs : (x : ℕ) → suc c.fresh ≤ x → a ≢ x
      differs x h e = none-not-some (sym (ok.beyond a (omega arith)) ∙ at_n)
