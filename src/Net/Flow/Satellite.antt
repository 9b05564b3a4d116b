-- ===== src/Net/Flow/Satellite.antt =====
-- SendToBond keeps a busy flow on the satellite path.
use mathlib.Core.Bool.{true, false}
use mathlib.Core.Path.{subst}
use multipath_proxy.Prelude.{
  ℕ, ◌+◌, ◌≤◌, ◌≡◌, ◌≢◌, refl, ◌∙◌, ap, sym, Bool, ◌&&◌, ◌||◌, not, List, [], ◌∷◌, map, arith, ltb,
  ◌==◌, Option, none, some, if◌then◌else◌,
}
use multipath_proxy.Exception.{Exception}
use multipath_proxy.Outcome.{
  Outcome, done, throws, fault, blocked, still_running, assertion, out_of_bounds, null_pointer,
  terminated,
}
use multipath_proxy.Packet.Buffer.{Allocator}
use multipath_proxy.Packet.FlowPacket.{FlowPacket, id, size}
use multipath_proxy.Collections.BlockingQueue.{sub64, pop}
use multipath_proxy.Net.Flow.{
  Flow, byte_size, Handled, returned, raised, crashed, after, settle, choose_path, to_sat,
  lose_packet, unless_fails, Round, send_to_bond, forwards, step, go_on, run,
}
use multipath_proxy.Net.Flow.ClosePackets.{NoClose, NoClose-pop}

-- On the satellite path since `a` or later, with data only in the queue, and nothing new by ter.
pub record OnSatellite (a : ℕ) (ter : List FlowPacket) (s : Flow) : Type 0 where
  pub flagged : s.satellite ≡ true
  pub recent : a ≤ s.last_send
  pub data_only : NoClose s.to_bond.deque
  pub no_more : s.ter ≡ ter

abbrev pub Stays : ℕ → List FlowPacket → Handled → Type 0
Stays a ter (returned s) = OnSatellite a ter s
Stays a ter (raised s e) = OnSatellite a ter s
Stays a ter (crashed x) = Unit {0}

-- Times from `a` on, those of the test at most 600 ms later.
abbrev pub Within : ℕ → List Round → Type 0
Within a [] = Unit {0}
Within a (r ∷ rs) = ((a ≤ r.now) × (r.now ≤ a + 600) × (a ≤ r.later)) × Within a rs

module _ (a : ℕ) (ter : List FlowPacket) where
  Stays-after {ℓ} :
      {A : Type ℓ} (o : Outcome A) (s : Flow) (k : A → Handled)
      → OnSatellite a ter s
      → ((x : A) → o ≡ done x → Stays a ter (k x))
      → Stays a ter (after o s k)
  unfolding after
  Stays-after (done x) s k v f = f x refl
  Stays-after (throws e) s k v f = v
  Stays-after (fault x) s k v f = tt

  settle_keeps : (now : ℕ) (s : Flow) → now ≤ s.last_send + 600 → settle now s ≡ s
  unfolding settle
  settle_keeps now s h = ground arith

  no_ter : (x y : Flow) (b c : Bool) → c ≡ true → (if b && not c then x else y) ≡ y
  no_ter x y true true e = refl
  no_ter x y false true e = refl
  no_ter x y b false e = absurd cc

  choose_path_sat :
      (p : FlowPacket) (s : Flow)
      → s.satellite ≡ true
      → choose_path p s ≡ to_sat p (record s { satellite = true })
  unfolding choose_path
  choose_path_sat p s e =
      no_ter _ _ (ltb (byte_size s) 2000 || (ltb s.total_backlog 74219 || id p == 0)) s.satellite e

  lose_packet_sat :
      (p : FlowPacket) (s : Flow)
      → s.satellite ≡ true
      → lose_packet p s ≡ record s { satellite = true }
  unfolding lose_packet
  lose_packet_sat p s e =
      no_ter _ _ (ltb (byte_size s) 2000 || (ltb s.total_backlog 74219 || id p == 0)) s.satellite e

  Stays-data :
      (p : FlowPacket) (s : Flow) (r : Round)
      → OnSatellite a ter s
      → a ≤ r.later
      → r.now ≤ a + 600
      → OnSatellite a ter (record (choose_path p (settle r.now s)) { last_send = r.later })
  Stays-data p s r v lo hi =
      let e : choose_path p (settle r.now s) ≡ to_sat p (record s { satellite = true }) =
        ap (choose_path p) (settle_keeps r.now s (omega (arith, v.recent)))
        ∙ choose_path_sat p s v.flagged in
      subst (λ (t : Flow). OnSatellite a ter (record t { last_send = r.later })) (sym e)
        (record { flagged = refl; recent = lo; data_only = v.data_only; no_more = v.no_more })

  Stays-lost :
      (p : FlowPacket) (s : Flow) (r : Round)
      → OnSatellite a ter s
      → r.now ≤ a + 600
      → OnSatellite a ter (lose_packet p (settle r.now s))
  Stays-lost p s r v hi =
      let e : lose_packet p (settle r.now s) ≡ record s { satellite = true } =
        ap (lose_packet p) (settle_keeps r.now s (omega (arith, v.recent)))
        ∙ lose_packet_sat p s v.flagged in
      subst (λ (t : Flow). OnSatellite a ter t) (sym e)
        (record { flagged = refl; recent = v.recent; data_only = v.data_only; no_more = v.no_more })

  Stays-unless_fails :
      (o : Option Exception) (s t : Flow)
      → OnSatellite a ter s
      → OnSatellite a ter t
      → Stays a ter (unless_fails o s t)
  Stays-unless_fails none s t v w = v
  Stays-unless_fails (some e) s t v w = w

  Stays-if :
      (n : ℕ) (h h' : Handled) → n ≢ 0 → Stays a ter h' → Stays a ter (if n == 0 then h else h')
  Stays-if n h h' d v = ground arith

  Stays-send_to_bond :
      (r : Round) (s : Flow)
      → OnSatellite a ter s
      → a ≤ r.later
      → r.now ≤ a + 600
      → Stays a ter (send_to_bond r s)
  unfolding send_to_bond
  Stays-send_to_bond r s v lo hi = Stays-after (pop s.to_bond) s _ v (λ popped e.
      let (data_, left) = NoClose-pop s.to_bond popped v.data_only e in
      let s2 : Flow = record s {
        to_bond = popped.1;
        total_backlog = sub64 s.total_backlog (size popped.0);
      } in
      let w : OnSatellite a ter s2 = record {
        flagged = v.flagged;
        recent = v.recent;
        data_only = left;
        no_more = v.no_more;
      } in
      Stays-if (size popped.0) _ _ data_ (
        Stays-unless_fails r.fails _ _ (Stays-data popped.0 s2 r w lo hi)
          (Stays-lost popped.0 s2 r w hi)))

  Stays-go_on :
      (h : Handled) (s : Flow) (k : Flow → Handled)
      → Stays a ter h
      → OnSatellite a ter s
      → ((t : Flow) → OnSatellite a ter t → Stays a ter (k t))
      → Stays a ter (go_on h s k)
  unfolding go_on
  Stays-go_on (returned t) s k v w f = f t v
  Stays-go_on (raised t e) s k v w f = f t v
  Stays-go_on (crashed assertion) s k v w f = tt
  Stays-go_on (crashed out_of_bounds) s k v w f = tt
  Stays-go_on (crashed null_pointer) s k v w f = tt
  Stays-go_on (crashed blocked) s k v w f = f s w
  Stays-go_on (crashed terminated) s k v w f = tt
  Stays-go_on (crashed still_running) s k v w f = tt

  Stays-step :
      (heap : Allocator) (r : Round) (s : Flow)
      → OnSatellite a ter s
      → a ≤ r.later
      → r.now ≤ a + 600
      → Stays a ter (step heap (forwards r) s)
  unfolding step
  Stays-step heap r s v lo hi = whichever _ _ s.bond_running (Stays-send_to_bond r s v lo hi) v
    where
      whichever :
          (h h' : Handled) (b : Bool)
          → Stays a ter h
          → Stays a ter h'
          → Stays a ter (if b then h else h')
      whichever h h' true x y = x
      whichever h h' false x y = y

  -- A flow that is on the satellite path, has sent at `a` or later and has no close packet in its
  -- queue: calls of SendToBond whose tests of the time are from `a` to 600 ms later, and whose
  -- time stamps are not before `a`, give nothing to the terrestrial path and leave such a flow,
  -- unless one crashes, also where SendToSat throws.
  pub run-Stays :
      (heap : Allocator) (rounds : List Round) (s : Flow)
      → OnSatellite a ter s
      → Within a rounds
      → Stays a ter (run heap s (map forwards rounds))
  unfolding run
  run-Stays heap [] s v w = v
  run-Stays heap (r ∷ rs) s v w =
      Stays-go_on (step heap (forwards r) s) s _ (Stays-step heap r s v w.0.2 w.0.1) v
        (λ t u. run-Stays heap rs t u w.1)
