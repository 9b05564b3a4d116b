-- ===== src/Net/EndToEnd/OnPath.antt =====
-- What a flow gives to one path, with the heartbeats of the bond between (src/net/Flow.cpp,
-- src/net/Bond.cpp).
use mathlib.Core.List.{append_assoc}
use mathlib.Core.Path.{subst}
use multipath_proxy.Prelude.{ℕ, ◌≡◌, refl, sym, ap, List, [], ◌∷◌, map, arith, length}
use multipath_proxy.Packet.Buffer.{Buffer}
use multipath_proxy.Packet.FlowHeader.{FlowHeader, set_size}
use multipath_proxy.Packet.Layout.{header_bytes, flow_fields_bytes, flow_header_bytes}
use multipath_proxy.Packet.FlowPacket.{FlowPacket, header, payload}
use multipath_proxy.Packet.FlowPacket.Filled.{framed, framed-IsValid, header-framed, payload-framed}
use multipath_proxy.Net.Receive.Phases.{IsFrame}
use multipath_proxy.Net.Receive.Stream.{Item, beat, flow, flows, content, AreItems}
use multipath_proxy.Net.Send.Transfer.{Carries, AllCarry}
use multipath_proxy.Net.Flow.Numbered.{IsMade, AreMade}

-- The buffers are the packets, in order, and heartbeats.
pub data OnPath : List FlowPacket → List Buffer → Type 0 where
  nothing : OnPath [] []
  heart_beat :
      {ps : List FlowPacket} {bs : List Buffer} (b : Buffer)
      → Carries b beat
      → OnPath ps bs
      → OnPath ps (b ∷ bs)
  packet :
      {ps : List FlowPacket} {bs : List Buffer} (p : FlowPacket) (b : Buffer)
      → b ≡ p
      → OnPath ps bs
      → OnPath (p ∷ ps) (b ∷ bs)

abbrev pub items_of : {ps : List FlowPacket} {bs : List Buffer} → OnPath ps bs → List Item
items_of nothing = []
items_of (heart_beat b c o) = beat ∷ items_of o
items_of (packet p b e o) = flow (header p) (payload p) ∷ items_of o

framed-Carries :
    (h : FlowHeader) (body : List ℕ)
    → IsFrame (set_size h (length body)) body
    → Carries (framed h body) (flow (set_size h (length body)) body)
unfolding flow_header_bytes
framed-Carries h body f = record {
  valid = framed-IsValid h body (let s = f.small in omega arith);
  bytes = append_assoc (header_bytes h.header) (flow_fields_bytes (set_size h (length body))) body;
}

-- A packet that holds a frame is that frame.
made :
    (p : FlowPacket)
    → IsMade p
    → IsFrame (header p) (payload p) × Carries p (flow (header p) (payload p))
made p (h, body, same, f) =
    subst
      (λ (q : FlowPacket). IsFrame (header q) (payload q) × Carries q (flow (header q) (payload q)))
      (sym same)
      (let head = header-framed h body f.is_head.fits in
        let inside = payload-framed h body in
        (
          subst (λ (b : List ℕ). IsFrame (header (framed h body)) b) (sym inside)
              (subst (λ (g : FlowHeader). IsFrame g body) (sym head) f),
          subst (λ (b : List ℕ). Carries (framed h body) (flow (header (framed h body)) b))
              (sym inside)
              (subst (λ (g : FlowHeader). Carries (framed h body) (flow g body)) (sym head)
                (framed-Carries h body f)),
        ))

pub on_path :
    {ps : List FlowPacket} {bs : List Buffer} (o : OnPath ps bs)
    → AreMade ps
    → AreItems (items_of o) × AllCarry bs (items_of o) × (flows (items_of o) ≡ map content ps)
on_path nothing m = (tt, tt, refl)
on_path (heart_beat b c o) m = let (i, a, f) = on_path o m in ((tt, i), (c, a), f)
on_path (packet p b e o) m =
    let (i, a, f) = on_path o m.1 in
    let (frame, carries) = made p m.0 in
    (
      (frame, i),
      (subst (λ (q : Buffer). Carries q (flow (header p) (payload p))) (sym e) carries, a),
      ap (λ l. content p ∷ l) f,
    )
