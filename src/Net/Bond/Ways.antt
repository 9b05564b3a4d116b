-- ===== src/Net/Bond/Ways.antt =====
-- Which way a packet takes: SendToTer and SendToSat with a way that is disabled, and the heartbeat.
use mathlib.Core.Path.{subst, ap₂}
use multipath_proxy.Prelude.{
  ℕ, zero, suc, ◌<◌, ◌≡◌, refl, ◌∙◌, Bool, true, false, List, ◌++◌, Option, none, some,
  if◌then◌else◌,
}
use multipath_proxy.Outcome.{Outcome, done}
use multipath_proxy.Packet.Buffer.{IsValid}
use multipath_proxy.Packet.FlowPacket.{FlowPacket}
use multipath_proxy.Net.Transport.{Transport, Sends}
use multipath_proxy.Net.Send.Loop.{send_to_connection-Sent}
use multipath_proxy.Net.Bond.{
  QueueLevel, wait_below, ter_limit, sat_limit, Way, by_ter, by_sat, Args, Bond, Sending, delivered,
  redirecting, send_by_ter, send_by_sat, send_by,
}

-- The way that a packet takes in the end, if there is one.
abbrev pub used : Args → Way → Option Way
used args by_ter =
    if args.ter_enabled then some by_ter else (if args.sat_enabled then some by_sat else none)
used args by_sat =
    if args.sat_enabled then some by_sat else (if args.ter_enabled then some by_ter else none)

same_way : {w w' : Way} → some w ≡ some w' → w ≡ w'
same_way e = cc

module _ (t : Transport) where
  -- A packet was sent by one way, and not by the other.
  pub data SentBy (b : Bond t) (p : FlowPacket) (result : Outcome (Sending t)) : Way → Type 0 where
    sent_ter :
        (b' : Bond t)
        → result ≡ done (delivered b')
        → t.outgoing b'.ter_connection ≡ t.outgoing b.ter_connection ++ p.data_
        → b'.sat_connection ≡ b.sat_connection
        → SentBy b p result by_ter
    sent_sat :
        (b' : Bond t)
        → result ≡ done (delivered b')
        → t.outgoing b'.sat_connection ≡ t.outgoing b.sat_connection ++ p.data_
        → b'.ter_connection ≡ b.ter_connection
        → SentBy b p result by_sat

  -- Some reading of each queue lets the waiting end.
  pub record Drains (b : Bond t) : Type 0 where
    pub ter_left : List QueueLevel
    pub ter_drains : wait_below ter_limit b.ter_levels ≡ done ter_left
    pub sat_left : List QueueLevel
    pub sat_drains : wait_below sat_limit b.sat_levels ≡ done sat_left

  module _ (fuel : ℕ) (b : Bond t) (p : FlowPacket) (up : Sends t) (d : Drains b) (v : IsValid p)
      (enough : p.size < fuel) where
    SentBy-ter : SentBy b p (send_by_ter t fuel b p) by_ter
    unfolding send_by_ter
    SentBy-ter =
        let s = send_to_connection-Sent t up fuel b.ter_connection p v enough in
        sent_ter (record b { ter_connection = s.conn; ter_levels = d.ter_left })
          (rw (d.ter_drains, s.ends) refl) s.appended refl

    SentBy-sat : SentBy b p (send_by_sat t fuel b p) by_sat
    unfolding send_by_sat
    SentBy-sat =
        let s = send_to_connection-Sent t up fuel b.sat_connection p v enough in
        sent_sat (record b { sat_connection = s.conn; sat_levels = d.sat_left })
          (rw (d.sat_drains, s.ends) refl) s.appended refl

    by_cases :
        (a c : Bool) (hops : ℕ) (w w' : Way)
        → used (record { ter_enabled = a; sat_enabled = c }) w ≡ some w'
        → SentBy b p
            (send_by t (record { ter_enabled = a; sat_enabled = c }) (suc (suc hops)) fuel w b p)
            w'
    unfolding send_by
    by_cases true c hops by_ter w' e =
        subst (SentBy b p (send_by_ter t fuel b p)) (same_way e) SentBy-ter
    by_cases false true hops by_ter w' e =
        subst (SentBy b p (send_by_sat t fuel b p)) (same_way e) SentBy-sat
    by_cases false false hops by_ter w' e = absurd cc
    by_cases a true hops by_sat w' e =
        subst (SentBy b p (send_by_sat t fuel b p)) (same_way e) SentBy-sat
    by_cases true false hops by_sat w' e =
        subst (SentBy b p (send_by_ter t fuel b p)) (same_way e) SentBy-ter
    by_cases false false hops by_sat w' e = absurd cc

    -- SendToTer and SendToSat put the bytes of a valid packet on one connection and leave the
    -- other as it is: the connection of their own way if that is enabled, or else the other, if
    -- one of the two is enabled, both queues fall to their limits, and send takes over at least
    -- one byte, with fuel above the size of the packet. Two calls are enough.
    pub send_by-SentBy :
        (args : Args) (hops : ℕ) (w w' : Way)
        → used args w ≡ some w'
        → SentBy b p (send_by t args (suc (suc hops)) fuel w b p) w'
    send_by-SentBy args hops w w' e = by_cases args.ter_enabled args.sat_enabled hops w w' e

  redirects_on :
      (fuel : ℕ) (b : Bond t) (p : FlowPacket) (hops : ℕ) (w : Way)
      → send_by t (record { ter_enabled = false; sat_enabled = false }) hops fuel w b p
        ≡ done redirecting
  unfolding send_by
  redirects_on fuel b p zero w = refl
  redirects_on fuel b p (suc hops) by_ter = redirects_on fuel b p hops by_sat
  redirects_on fuel b p (suc hops) by_sat = redirects_on fuel b p hops by_ter

  -- With both ways disabled SendToTer and SendToSat call each other, and no number of calls ends
  -- that.
  pub send_by_redirects :
      (fuel : ℕ) (b : Bond t) (p : FlowPacket) (args : Args) (hops : ℕ) (w : Way)
      → args.ter_enabled ≡ false
      → args.sat_enabled ≡ false
      → send_by t args hops fuel w b p ≡ done redirecting
  send_by_redirects fuel b p args hops w e f =
      ap₂ (λ x y. send_by t (record { ter_enabled = x; sat_enabled = y }) hops fuel w b p) e f
      ∙ redirects_on fuel b p hops w
