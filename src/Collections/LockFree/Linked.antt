-- ===== src/Collections/LockFree/Linked.antt =====
-- The list of src/collections/LockFreeFlowPacketQueue.cpp as long as nothing is taken out: its ids
-- descend along every link, and no allocated node is lost.
use multipath_proxy.Prelude.{
  ℕ, suc, ◌≤◌, ◌<◌, ◌≡◌, refl, ◌≢◌, Option, none, some, arith, true, false, ◌==◌, Bool-cases, inl,
  inr, ap, sym, ◌∙◌, Bool, ◌⊎◌, if◌then◌else◌,
}
use multipath_proxy.Packet.FlowPacket.{FlowPacket, id}
use multipath_proxy.Collections.LockFree.{Node, Queue, put}

-- The part of the queue that the links are in.
pub record Cells : Type 0 where
  pub head : Option ℕ
  pub nodes : ℕ → Option Node
  pub fresh : ℕ

abbrev pub cells : Queue → Cells
cells q = record { head = q.head; nodes = q.nodes; fresh = q.fresh }

-- A way along the links.
pub data Reaches (nodes : ℕ → Option Node) : ℕ → ℕ → Type 0 where
  here : {a : ℕ} → Reaches nodes a a
  next :
      {a b c : ℕ} (n : Node)
      → nodes a ≡ some n
      → n.next ≡ some b
      → Reaches nodes b c
      → Reaches nodes a c

-- Node `a` is there, with an id below, above, or not below `i`.
abbrev pub Lower : Cells → ℕ → ℕ → Type 0
Lower c a i = (n : Node) × (c.nodes a ≡ some n) × (id n.flow_packet < i)

abbrev pub Upper : Cells → ℕ → ℕ → Type 0
Upper c a i = (n : Node) × (c.nodes a ≡ some n) × (i < id n.flow_packet)

abbrev pub AtLeast : Cells → ℕ → ℕ → Type 0
AtLeast c a i = (n : Node) × (c.nodes a ≡ some n) × (i ≤ id n.flow_packet)

abbrev pub HeadAbove : Cells → ℕ → Type 0
HeadAbove c i = (h : ℕ) × (c.head ≡ some h) × AtLeast c h i

abbrev pub Holds : Cells → FlowPacket → Type 0
Holds c p = (a : ℕ) × (n : Node) × (c.nodes a ≡ some n) × (n.flow_packet ≡ p)

abbrev pub HoldsId : Cells → ℕ → Type 0
HoldsId c i = (a : ℕ) × (n : Node) × (c.nodes a ≡ some n) × (id n.flow_packet ≡ i)

-- A list with a head.
pub record IsLinked (c : Cells) : Type 0 where
  pub first : ℕ
  pub top : Node
  pub at_head : c.head ≡ some first
  pub at_top : c.nodes first ≡ some top
  pub beyond : (a : ℕ) → c.fresh ≤ a → c.nodes a ≡ none
  pub descends :
      (a b : ℕ) (n : Node) → c.nodes a ≡ some n → n.next ≡ some b → Lower c b (id n.flow_packet)
  pub reached : (a : ℕ) (n : Node) → c.nodes a ≡ some n → Reaches c.nodes first a

-- No packet is lost, and the head rises.
pub record Grows (c d : Cells) : Type 0 where
  pub keeps :
      (a : ℕ) (n : Node)
      → c.nodes a ≡ some n
      → (m : Node) × (d.nodes a ≡ some m) × (m.flow_packet ≡ n.flow_packet)
  pub rises : (i : ℕ) → HeadAbove c i → HeadAbove d i

pub Grows-refl : (c : Cells) → Grows c c
Grows-refl c = record { keeps = λ a n e. (n, e, refl); rises = λ i h. h }

pub Grows-trans : (c d e : Cells) → Grows c d → Grows d e → Grows c e
Grows-trans c d e f g = record {
  keeps = λ a n h.
      let (m, at_m, same_m) = f.keeps a n h in
      let (k, at_k, same_k) = g.keeps a m at_m in (k, at_k, cc);
  rises = λ i h. g.rises i (f.rises i h);
}

pub none-not-some {ℓ} : {A : Type ℓ} {a : A} → ◌≢◌ {A = Option A} none (some a)
none-not-some e = cc

pub some-injective {ℓ} : {A : Type ℓ} {a b : A} → some a ≡ some b → a ≡ b
some-injective e = cc

pub if-true {ℓ} : {A : Type ℓ} {b : Bool} (x y : A) → b ≡ true → (if b then x else y) ≡ x
if-true x y e = rw e refl

pub if-false {ℓ} : {A : Type ℓ} {b : Bool} (x y : A) → b ≡ false → (if b then x else y) ≡ y
if-false x y e = rw e refl

pub put-same : (nodes : ℕ → Option Node) (a : ℕ) (n : Option Node) → put nodes a n a ≡ n
put-same nodes a n = ground arith

pub put-other :
    (nodes : ℕ → Option Node) (a b : ℕ) (n : Option Node) → a ≢ b → put nodes a n b ≡ nodes b
put-other nodes a b n h = ground arith

pub Reaches-append :
    {nodes : ℕ → Option Node} {a b c : ℕ}
    → Reaches nodes a b
    → Reaches nodes b c
    → Reaches nodes a c
Reaches-append here s = s
Reaches-append (next n e l r) s = next n e l (Reaches-append r s)

module _ (c : Cells) (ok : IsLinked c) where
  -- A node that is there is not the one that is allocated next.
  pub not_fresh : (a : ℕ) (n : Node) → c.nodes a ≡ some n → c.fresh ≢ a
  not_fresh a n e h = let gone = ok.beyond a (omega arith) in absurd (none-not-some (sym gone ∙ e))

  -- Insert in front of the head.
  module _ (p : FlowPacket) (below : id ok.top.flow_packet < id p) where
    abbrev new_top : Node
    new_top = record { flow_packet = p; next = some ok.first }

    abbrev pub pushed : Cells
    pushed = record {
      head = some c.fresh;
      nodes = put c.nodes c.fresh (some new_top);
      fresh = suc c.fresh;
    }

    pushed_old : (a : ℕ) (n : Node) → c.nodes a ≡ some n → pushed.nodes a ≡ some n
    pushed_old a n e = put-other c.nodes c.fresh a (some new_top) (not_fresh a n e) ∙ e

    pushed_cases :
        (a : ℕ) (n : Node)
        → pushed.nodes a ≡ some n
        → ((c.fresh ≡ a) × (new_top ≡ n)) ⊎ (c.nodes a ≡ some n)
    pushed_cases a n e = elim (Bool-cases (c.fresh == a)) [
      | inl y ↦ inl (ground arith, some-injective (sym (if-true _ _ y) ∙ e))
      | inr o ↦ inr (sym (if-false _ _ o) ∙ e)
    ]

    Reaches-pushed : {a b : ℕ} → Reaches c.nodes a b → Reaches pushed.nodes a b
    Reaches-pushed here = here
    Reaches-pushed (next {a} n e l r) = next n (pushed_old a n e) l (Reaches-pushed r)

    pub pushed-IsLinked : IsLinked pushed
    pushed-IsLinked = record {
      first = c.fresh;
      top = new_top;
      at_head = refl;
      at_top = put-same c.nodes c.fresh (some new_top);
      beyond = λ a h.
          put-other c.nodes c.fresh a (some new_top) (omega arith) ∙ ok.beyond a (omega arith);
      descends = λ a b n e l. elim (pushed_cases a n e) [
        | inl (_, same) ↦
            let at = some-injective (l_of same ∙ l) in
            (ok.top, ap pushed.nodes (sym at) ∙ pushed_old ok.first ok.top ok.at_top, lower same)
        | inr old ↦ let (m, at_m, lt) = ok.descends a b n old l in (m, pushed_old b m at_m, lt)
      ];
      reached = λ a n e. elim (pushed_cases a n e) [
        | inl (at, _) ↦ rw at here
        | inr old ↦
            next new_top (put-same c.nodes c.fresh (some new_top)) refl
              (Reaches-pushed (ok.reached a n old))
      ];
    }
      where
        l_of : {n : Node} → new_top ≡ n → some ok.first ≡ n.next
        l_of same = ap (λ m. m.next) same

        lower : {n : Node} → new_top ≡ n → id ok.top.flow_packet < id n.flow_packet
        lower same = rw (← same) below

    pub pushed-Grows : Grows c pushed
    pushed-Grows = record {
      keeps = λ a n e. (n, pushed_old a n e, refl);
      rises = λ i (h, at, (m, at_m, le)). (
        c.fresh,
        refl,
        (new_top, put-same c.nodes c.fresh (some new_top), rise i h at m at_m le),
      );
    }
      where
        rise :
            (i h : ℕ)
            → c.head ≡ some h
            → (m : Node) → c.nodes h ≡ some m
            → i ≤ id m.flow_packet
            → i ≤ id p
        rise i h at m at_m le =
            let same_h = some-injective (sym ok.at_head ∙ at) in
            let same_m = some-injective (sym ok.at_top ∙ (ap c.nodes same_h ∙ at_m)) in
            let e = ap (λ n. id n.flow_packet) same_m in omega arith

    pub pushed-Holds : Holds pushed p
    pushed-Holds = (c.fresh, new_top, put-same c.nodes c.fresh (some new_top), refl)

-- The list of one node.
abbrev pub single : FlowPacket → Cells
single p = record {
  head = some 0;
  nodes = put (λ _. none) 0 (some (record { flow_packet = p; next = none }));
  fresh = 1;
}

pub single-IsLinked : (p : FlowPacket) → IsLinked (single p)
single-IsLinked p = record {
  first = 0;
  top = record { flow_packet = p; next = none };
  at_head = refl;
  at_top = refl;
  beyond = λ a h. ground arith;
  descends =
      λ a b n e l. let (_, same) = only a n e in absurd (none-not-some (ap (λ m. m.next) same ∙ l));
  reached = λ a n e. let (at, _) = only a n e in rw (← at) here;
}
  where
    only :
        (a : ℕ) (n : Node)
        → (single p).nodes a ≡ some n
        → (0 ≡ a) × (◌≡◌ {A = Node} (record { flow_packet = p; next = none }) n)
    only a n e = elim (Bool-cases (0 == a)) [
      | inl y ↦ (ground arith, some-injective (sym (if-true _ none y) ∙ e))
      | inr o ↦ absurd (none-not-some (sym (if-false _ none o) ∙ e))
    ]
