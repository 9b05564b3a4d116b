-- ===== src/Net/Flow/Numbered.antt =====
-- The packets that a flow makes of what it reads from its endpoint (src/net/Flow.cpp): one for each
-- read, with its number.
use multipath_proxy.Prelude.{
  ℕ, suc, ◌+◌, ◌^◌, ◌≤◌, ◌<◌, ◌≡◌, refl, ap, ◌∙◌, List, [], ◌∷◌, ◌++◌, arith, length,
}
use multipath_proxy.Packet.FlowHeader
use multipath_proxy.Packet.FlowHeader.{FlowHeader, Fits, set_size}
use multipath_proxy.Packet.FlowPacket.{FlowPacket, id, size, header}
use multipath_proxy.Packet.FlowPacket.Filled.{framed, header-framed}
use multipath_proxy.Net.SockAddr.{SockAddrIn}
use multipath_proxy.Net.Receive.Phases.{IsFrame}
use multipath_proxy.Collections.Sorted.{Absent, Small, insert_sorted}
use multipath_proxy.Net.Flow.ClosePackets.{NoClose}

-- The fields of the address fit a sockaddr_in.
pub record FitsWords (a : SockAddrIn) : Type 0 where
  pub addr_fits : a.sin_addr < 2 ^ 32
  pub port_fits : a.sin_port < 2 ^ 16

-- What one Recv can give.
abbrev pub AreChunks : List (List ℕ) → Type 0
AreChunks [] = Unit {0}
AreChunks (c ∷ cs) = (0 < length c) × (length c ≤ 1024) × AreChunks cs

pub AreChunks-append : (cs ds : List (List ℕ)) → AreChunks cs → AreChunks ds → AreChunks (cs ++ ds)
AreChunks-append [] ds a b = b
AreChunks-append (c ∷ cs) ds a b = (a.0, a.1, AreChunks-append cs ds a.2 b)

-- Ids below `m`.
abbrev pub IdsBelow : ℕ → List FlowPacket → Type 0
IdsBelow m [] = Unit {0}
IdsBelow m (p ∷ ps) = (id p < m) × IdsBelow m ps

pub IdsBelow-suffix : (m : ℕ) (xs ys : List FlowPacket) → IdsBelow m (xs ++ ys) → IdsBelow m ys
IdsBelow-suffix m [] ys h = h
IdsBelow-suffix m (x ∷ xs) ys h = IdsBelow-suffix m xs ys h.1

pub IdsBelow-Absent : (m : ℕ) (xs : List FlowPacket) → IdsBelow m xs → Absent m xs
IdsBelow-Absent m [] h = tt
IdsBelow-Absent m (x ∷ xs) h = (omega arith, IdsBelow-Absent m xs h.1)

pub IdsBelow-Small : (m : ℕ) (xs : List FlowPacket) → m < 2 ^ 64 → IdsBelow m xs → Small xs
IdsBelow-Small m [] lt h = tt
IdsBelow-Small m (x ∷ xs) lt h = (omega arith, IdsBelow-Small m xs lt h.1)

-- A packet with an id above all others goes to the end.
pub insert_sorted_end :
    (p : FlowPacket) (xs : List FlowPacket) → IdsBelow (id p) xs → insert_sorted p xs ≡ xs ++ p ∷ []
unfolding insert_sorted
insert_sorted_end p [] h = refl
insert_sorted_end p (x ∷ xs) h = ground (arith, insert_sorted_end p xs h.1)

pub NoClose-suffix : (xs ys : List FlowPacket) → NoClose (xs ++ ys) → NoClose ys
NoClose-suffix [] ys h = h
NoClose-suffix (x ∷ xs) ys h = NoClose-suffix xs ys h.1

-- A packet that holds a frame and nothing else.
abbrev pub IsMade : FlowPacket → Type 0
IsMade p =
    (h : FlowHeader) × (body : List ℕ) × (p ≡ framed h body)
    × IsFrame (set_size h (length body)) body

abbrev pub AreMade : List FlowPacket → Type 0
AreMade [] = Unit {0}
AreMade (p ∷ ps) = IsMade p × AreMade ps

pub AreMade-suffix : (xs ys : List FlowPacket) → AreMade (xs ++ ys) → AreMade ys
AreMade-suffix [] ys h = h
AreMade-suffix (x ∷ xs) ys h = AreMade-suffix xs ys h.1

module _ (src dst : SockAddrIn) where
  -- The chunks as packets, with their numbers from `k` on.
  abbrev pub numbered : ℕ → List (List ℕ) → List FlowPacket
  numbered k [] = []
  numbered k (c ∷ cs) = framed (FlowHeader.new src dst k) c ∷ numbered (suc k) cs

  pub numbered-append :
      (k : ℕ) (cs ds : List (List ℕ))
      → numbered k (cs ++ ds) ≡ numbered k cs ++ numbered (k + length cs) ds
  numbered-append k [] ds = ap (λ j. numbered j ds) (omega arith)
  numbered-append k (c ∷ cs) ds =
      ap (λ l. framed (FlowHeader.new src dst k) c ∷ l)
        (numbered-append (suc k) cs ds
          ∙ ap (λ j. numbered (suc k) cs ++ numbered j ds) (omega arith))

  pub numbered_end :
      (cs : List (List ℕ)) (c : List ℕ)
      → numbered 0 (cs ++ c ∷ [])
        ≡ numbered 0 cs ++ framed (FlowHeader.new src dst (length cs)) c ∷ []
  numbered_end cs c =
      numbered-append 0 cs (c ∷ []) ∙ ap (λ j. numbered 0 cs ++ numbered j (c ∷ [])) (omega arith)

  pub length-numbered : (k : ℕ) (cs : List (List ℕ)) → length (numbered k cs) ≡ length cs
  length-numbered k [] = refl
  length-numbered k (c ∷ cs) = ap suc (length-numbered (suc k) cs)

  module _ (fits_src : FitsWords src) (fits_dst : FitsWords dst) where
    pub new-Fits :
        (k n : ℕ) → k < 2 ^ 64 → n < 2 ^ 16 → Fits (set_size (FlowHeader.new src dst k) n)
    unfolding FlowHeader.new
    new-Fits k n lt small = record {
      magic_fits = omega arith;
      type_fits = omega arith;
      ctrl_fits = omega arith;
      source_ip_fits = fits_src.addr_fits;
      destination_ip_fits = fits_dst.addr_fits;
      source_port_fits = fits_src.port_fits;
      destination_port_fits = fits_dst.port_fits;
      id_fits = lt;
      size_fits = small;
    }

    pub header-numbered :
        (k : ℕ) (c : List ℕ)
        → k < 2 ^ 64
        → length c ≤ 1024
        → header (framed (FlowHeader.new src dst k) c)
          ≡ set_size (FlowHeader.new src dst k) (length c)
    header-numbered k c lt small =
        header-framed (FlowHeader.new src dst k) c (new-Fits k (length c) lt (omega arith))

    pub id-numbered :
        (k : ℕ) (c : List ℕ)
        → k < 2 ^ 64
        → length c ≤ 1024
        → id (framed (FlowHeader.new src dst k) c) ≡ k
    unfolding FlowHeader.new
    id-numbered k c lt small = ap (λ h. h.id) (header-numbered k c lt small)

    pub size-numbered :
        (k : ℕ) (c : List ℕ)
        → k < 2 ^ 64
        → length c ≤ 1024
        → size (framed (FlowHeader.new src dst k) c) ≡ length c
    size-numbered k c lt small = ap (λ h. h.size) (header-numbered k c lt small)

    pub numbered-IdsBelow :
        (k m : ℕ) (cs : List (List ℕ))
        → AreChunks cs
        → k + length cs ≤ m
        → m < 2 ^ 64
        → IdsBelow m (numbered k cs)
    numbered-IdsBelow k m [] a le lt = tt
    numbered-IdsBelow k m (c ∷ cs) a le lt = (
      omega (arith, id-numbered k c (omega arith) a.1),
      numbered-IdsBelow (suc k) m cs a.2 (omega arith) lt,
    )

    pub numbered-NoClose :
        (k : ℕ) (cs : List (List ℕ))
        → AreChunks cs
        → k + length cs < 2 ^ 64
        → NoClose (numbered k cs)
    numbered-NoClose k [] a lt = tt
    numbered-NoClose k (c ∷ cs) a lt = (
      (λ e. omega (arith, size-numbered k c (omega arith) a.1)),
      numbered-NoClose (suc k) cs a.2 (omega arith),
    )

    -- The packet behind the first `length gone` ones.
    pub id-numbered_at :
        (k : ℕ) (cs : List (List ℕ)) (gone : List FlowPacket) (p : FlowPacket)
        (ps : List FlowPacket)
        → AreChunks cs
        → k + length cs < 2 ^ 64
        → numbered k cs ≡ gone ++ p ∷ ps
        → id p ≡ k + length gone
    id-numbered_at k [] [] p ps a lt e = absurd (let n = ap length e in omega arith)
    id-numbered_at k [] (g ∷ gone) p ps a lt e = absurd (let n = ap length e in omega arith)
    id-numbered_at k (c ∷ cs) [] p ps a lt e =
        let same : framed (FlowHeader.new src dst k) c ≡ p = cc e in
        omega (arith, ap (λ u. id u) same, id-numbered k c (omega arith) a.1)
    id-numbered_at k (c ∷ cs) (g ∷ gone) p ps a lt e =
        let rest : numbered (suc k) cs ≡ gone ++ p ∷ ps = cc e in
        omega (arith, id-numbered_at (suc k) cs gone p ps a.2 (omega arith) rest)

    pub numbered-AreMade :
        (k : ℕ) (cs : List (List ℕ))
        → AreChunks cs
        → k + length cs < 2 ^ 64
        → AreMade (numbered k cs)
    unfolding FlowHeader.new
    numbered-AreMade k [] a lt = tt
    numbered-AreMade k (c ∷ cs) a lt = (
      (
        FlowHeader.new src dst k,
        c,
        refl,
        record {
          is_head = record {
            fits = new-Fits k (length c) (omega arith) (omega arith);
            is_flow = refl;
          };
          announced = refl;
          small = a.1;
        },
      ),
      numbered-AreMade (suc k) cs a.2 (omega arith),
    )
