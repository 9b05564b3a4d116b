-- ===== src/Net/Flow/Outgoing/Rounds.antt =====
-- A round of SendToBond of src/net/Flow.cpp, in a flow that reads from its endpoint.
use mathlib.Core.List.{Perm, append_assoc, append-nil, perm_middle}
use mathlib.Core.List.Perm
use mathlib.Core.Path.{subst}
use multipath_proxy.Prelude.{
  none, ℕ, ◌+◌, ◌^◌, ◌<◌, ◌≡◌, ◌≢◌, refl, sym, ap, ◌∙◌, List, [], ◌∷◌, ◌++◌, arith, length,
  length-append, if◌then◌else◌, true, false, ◌==◌, ◌||◌, ◌&&◌, not, Bool, ◌-◌, ltb,
}
use multipath_proxy.Outcome.{done, fault, blocked}
use multipath_proxy.Packet.Buffer.{Allocator}
use multipath_proxy.Packet.FlowPacket.{FlowPacket, id, size}
use multipath_proxy.Net.SockAddr.{SockAddrIn}
use multipath_proxy.Collections.Sorted.{Absent}
use multipath_proxy.Collections.LockFree.Linked.{if-true}
use multipath_proxy.Collections.BlockingQueue.{BlockingQueue, sub64, pop}
use multipath_proxy.Collections.BlockingQueue.Invariant.{
  IsValid, PopResult, waits, returns, pop-PopResult,
}
use multipath_proxy.Net.Flow.{
  Round, Flow, returned, crashed, after, settle, choose_path, to_ter, to_sat, send_to_bond,
  forwards, step, byte_size,
}
use multipath_proxy.Net.Flow.ClosePackets.{NoClose}
use multipath_proxy.Net.Flow.Numbered.{
  FitsWords, AreChunks, IdsBelow, IdsBelow-suffix, IdsBelow-Small, NoClose-suffix, id-numbered_at,
  numbered-IdsBelow, numbered-NoClose, IsMade, AreMade, AreMade-suffix, numbered-AreMade,
}
use multipath_proxy.Net.Flow.Outgoing.{Outgoing, Leads, returned-Leads, blocked-Leads}

if_cases {ℓ κ} :
    {A : Type ℓ} (P : A → Type κ) (b : Bool) (x y : A) → P x → P y → P (if b then x else y)
if_cases P true x y h k = h
if_cases P false x y h k = k

-- SendToBond behind Pop, for a packet with data.
abbrev sent_on : FlowPacket → BlockingQueue → Round → Flow → Flow
sent_on p b r s =
    record (choose_path p
      (settle r.now (record s { to_bond = b; total_backlog = sub64 s.total_backlog (size p) }))) {
        last_send = r.later;
      }

forward_step :
    (heap : Allocator) (p : FlowPacket) (b : BlockingQueue) (r : Round) (s : Flow)
    → s.bond_running ≡ true
    → pop s.to_bond ≡ done (p, b)
    → size p ≢ 0
    → r.fails ≡ none
    → step heap (forwards r) s ≡ returned (sent_on p b r s)
unfolding step send_to_bond after
forward_step heap p b r s on popped some_ works =
    let more : (size p == 0) ≡ false = ground arith in
    if-true _ _ on ∙ rw (popped, more, works) refl

wait_step :
    (heap : Allocator) (r : Round) (s : Flow)
    → s.bond_running ≡ true
    → pop s.to_bond ≡ fault blocked
    → step heap (forwards r) s ≡ crashed blocked
unfolding step send_to_bond after
wait_step heap r s on waits_ = if-true _ _ on ∙ rw waits_ refl

sent_on-queue :
    (p : FlowPacket) (b : BlockingQueue) (r : Round) (s : Flow) → (sent_on p b r s).to_bond ≡ b
unfolding choose_path settle
sent_on-queue p b r s = ground arith

-- The first packet of the queue moves to one of the paths.
module _ (src dst : SockAddrIn) (chunks : List (List ℕ)) (s : Flow) (o : Outgoing src dst chunks s)
    (p : FlowPacket) (b : BlockingQueue) (r : Round) (front : s.to_bond.deque ≡ p ∷ b.deque)
    (next_one : b.current_id ≡ s.to_bond.current_id + 1) (ok : IsValid b) (made : IsMade p) where
  abbrev Moved : List FlowPacket → List FlowPacket → Bool → Flow
  Moved ter sat on_sat = record s {
    to_bond = b;
    total_backlog = sub64 s.total_backlog (size p);
    ter = ter;
    sat = sat;
    satellite = on_sat;
    last_send = r.later;
  }

  Moved-Outgoing :
      (ter sat : List FlowPacket) (on_sat : Bool)
      → Perm (ter ++ sat) (p ∷ (s.ter ++ s.sat))
      → AreMade ter
      → AreMade sat
      → Outgoing src dst chunks (Moved ter sat on_sat)
  Moved-Outgoing ter sat on_sat perm in_ter in_sat = record {
    from = o.from;
    to = o.to;
    reading = o.reading;
    forwarding = o.forwarding;
    next_number = o.next_number;
    gone = o.gone ++ p ∷ [];
    split = o.split ∙ ap (λ l. o.gone ++ l) front ∙ sym (append_assoc o.gone (p ∷ []) b.deque);
    given = Perm.trans perm (
        Perm.trans (Perm.cons p o.given)
          (Perm.symm (rw append-nil at (perm_middle {a = p} o.gone []))));
    next_id = omega (arith, o.next_id, next_one, length-append o.gone (p ∷ []));
    valid = ok;
    made_ter = in_ter;
    made_sat = in_sat;
  }

  abbrev taken_off : Bool → Flow
  taken_off on_sat = record s {
    to_bond = b;
    total_backlog = sub64 s.total_backlog (size p);
    satellite = on_sat;
  }

  either_path :
      (on_sat : Bool)
      → Outgoing src dst chunks (record (choose_path p (taken_off on_sat)) { last_send = r.later })
  unfolding choose_path
  either_path on_sat =
      if_cases (λ (t : Flow). Outgoing src dst chunks (record t { last_send = r.later }))
        ((ltb (byte_size (taken_off on_sat)) 2000
            || (ltb (taken_off on_sat).total_backlog 74219 || id p == 0))
          && not on_sat)
        (to_ter p (taken_off on_sat)) (to_sat p (record (taken_off on_sat) { satellite = true }))
        (Moved-Outgoing (p ∷ s.ter) s.sat on_sat (Perm.refl (p ∷ (s.ter ++ s.sat)))
          (made, o.made_ter) o.made_sat)
        (Moved-Outgoing s.ter (p ∷ s.sat) true (perm_middle s.ter s.sat) o.made_ter
          (made, o.made_sat))

  sent_on-Outgoing : Outgoing src dst chunks (sent_on p b r s)
  unfolding settle
  sent_on-Outgoing =
      if_cases
        (λ (u : Flow). Outgoing src dst chunks (record (choose_path p u) { last_send = r.later }))
        (ltb (s.last_send + 600) r.now) (taken_off false) (taken_off s.satellite)
        (either_path false) (either_path s.satellite)

module _ (heap : Allocator) (src dst : SockAddrIn) (fits_src : FitsWords src)
    (fits_dst : FitsWords dst) where
  module _ (chunks : List (List ℕ)) (all : AreChunks chunks) (few : length chunks < 2 ^ 64)
      (s : Flow) (o : Outgoing src dst chunks s) where
    -- What a round of SendToBond comes to.
    abbrev pub Forwarded : Round → Type 0
    Forwarded r =
        (t : Flow) × Leads heap s (forwards r) t
        × Outgoing src dst chunks t
        × (length t.to_bond.deque ≡ length s.to_bond.deque - 1)

    forwarded :
        (r : Round) (xs : List FlowPacket)
        → r.fails ≡ none
        → s.to_bond.deque ≡ xs
        → PopResult s.to_bond
        → Forwarded r
    forwarded r [] works e (waits w missing) = (
      s,
      blocked-Leads heap s (forwards r) (wait_step heap r s o.forwarding w),
      o,
      omega (arith, ap length e),
    )
    forwarded r (x ∷ xs) works e (waits w missing) =
        let turn =
          id-numbered_at src dst fits_src fits_dst 0 chunks o.gone x xs all (omega arith)
            (o.split ∙ ap (λ l. o.gone ++ l) e) in
        let f : Absent s.to_bond.current_id (x ∷ xs) = rw e at missing in
        absurd (f.0 (omega (arith, o.next_id)))
    forwarded r xs works e (returns p b popped turn d next ok) =
        let none_close : NoClose (p ∷ b.deque) = subst NoClose d (
          NoClose-suffix o.gone s.to_bond.deque (
            subst NoClose o.split
              (numbered-NoClose src dst fits_src fits_dst 0 chunks all (omega arith)))) in
        let made : AreMade (p ∷ b.deque) = subst AreMade d (
          AreMade-suffix o.gone s.to_bond.deque (
            subst AreMade o.split
              (numbered-AreMade src dst fits_src fits_dst 0 chunks all (omega arith)))) in
        (
          sent_on p b r s,
          returned-Leads heap s (forwards r) (sent_on p b r s)
              (forward_step heap p b r s o.forwarding popped none_close.0 works),
          sent_on-Outgoing src dst chunks s o p b r d next ok made.0,
          omega (
            arith,
            ap length d,
            ap (λ (q : BlockingQueue). length q.deque) (sent_on-queue p b r s),
          ),
        )

    pub forward : (r : Round) → r.fails ≡ none → Forwarded r
    forward r works = forwarded r s.to_bond.deque works refl (
        pop-PopResult s.to_bond o.valid (
          IdsBelow-Small (length chunks) s.to_bond.deque few (
            IdsBelow-suffix (length chunks) o.gone s.to_bond.deque (
              subst (IdsBelow (length chunks)) o.split (
                numbered-IdsBelow src dst fits_src fits_dst 0 (length chunks) chunks all
                  (omega arith) few)))))
