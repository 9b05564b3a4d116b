-- ===== src/Net/Flow/Outgoing/Runs.antt =====
-- Runs of a flow from its endpoint to the paths (src/net/Flow.cpp).
use mathlib.Core.List.{Perm, append_assoc, append-nil}
use mathlib.Core.List.Perm
use mathlib.Core.Path.{subst}
use multipath_proxy.Prelude.{
  none, ℕ, zero, suc, ◌+◌, ◌^◌, ◌≤◌, ◌<◌, ◌≡◌, refl, sym, ap, ◌∙◌, List, [], ◌∷◌, ◌++◌, arith, leb,
  length, length-append, Bool-cases, inl, inr, replicate,
}
use multipath_proxy.Packet.Buffer.{Allocator}
use multipath_proxy.Net.SockAddr.{SockAddrIn}
use multipath_proxy.Net.Transport.{received, recv_failed}
use multipath_proxy.Net.Receive.Phases.{Grants}
use multipath_proxy.Collections.LockFree.Linked.{if-true, if-false}
use multipath_proxy.Net.Flow.{
  Round, Flow, make, returned, preload_limit, Event, receives, forwards, writes, drains,
  closes_send, closes_bond, run, byte_size,
}
use multipath_proxy.Net.Flow.Numbered.{
  FitsWords, AreChunks, AreChunks-append, numbered, length-numbered, AreMade,
}
use multipath_proxy.Net.Flow.Outgoing.{
  taken, reads, GoOut, Outgoing, make-Outgoing, Leads, returned-Leads, no_more,
}
use multipath_proxy.Net.Flow.Outgoing.Reads.{after_read, read_step, full_step, read-Outgoing}
use multipath_proxy.Net.Flow.Outgoing.Rounds.{forward}

module _ (heap : Allocator) (grants : Grants heap) (src dst : SockAddrIn) (fits_src : FitsWords src)
    (fits_dst : FitsWords dst) where
  -- Where any reads and rounds of SendToBond lead, and what was read.
  pub record Led (s : Flow) (chunks : List (List ℕ)) (es : List Event) : Type 0 where
    pub end : Flow
    pub onwards : (fs : List Event) → run heap s (es ++ fs) ≡ run heap end fs
    pub was_read : AreChunks (reads heap s es)
    pub few : length (reads heap s es) ≤ length es
    pub outgoing : Outgoing src dst (chunks ++ reads heap s es) end

  Led-cons :
      (s t : Flow) (chunks : List (List ℕ)) (e : Event) (es : List Event)
      → Leads heap s e t
      → AreChunks (taken s e)
      → length (taken s e) ≤ 1
      → Led t (chunks ++ taken s e) es
      → Led s chunks (e ∷ es)
  Led-cons s t chunks e es leads all one led = record {
    end = led.end;
    onwards = λ fs. leads.onwards (es ++ fs) ∙ led.onwards fs;
    was_read =
        subst AreChunks (sym (leads.reading es))
          (AreChunks-append (taken s e) (reads heap t es) all led.was_read);
    few =
        let n = length-append (taken s e) (reads heap t es) in
        let m = led.few in omega (arith, ap length (leads.reading es));
    outgoing =
        subst (λ cs. Outgoing src dst cs led.end)
          (append_assoc chunks (taken s e) (reads heap t es)
            ∙ ap (λ l. chunks ++ l) (sym (leads.reading es)))
          led.outgoing;
  }

  pub led :
      (es : List Event) (s : Flow) (chunks : List (List ℕ))
      → GoOut es
      → AreChunks chunks
      → length chunks + length es < 2 ^ 64
      → Outgoing src dst chunks s
      → Led s chunks es
  led [] s chunks out all few o = record {
    end = s;
    onwards = λ fs. refl;
    was_read = unfold reads in tt;
    few = unfold reads in omega arith;
    outgoing = unfold reads in rw append-nil o;
  }
  led (writes p ∷ es) s chunks out all few o = absurd out.0
  led (drains r ∷ es) s chunks out all few o = absurd out.0
  led (closes_send x ∷ es) s chunks out all few o = absurd out.0
  led (closes_bond x ∷ es) s chunks out all few o = absurd out.0
  led (forwards r ∷ es) s chunks out all few o =
      let (t, leads, o', _) =
        forward heap src dst fits_src fits_dst chunks all (omega arith) s o r out.0 in
      Led-cons s t chunks (forwards r) es leads tt (omega arith)
        (rw append-nil (led es t chunks out.1 all (omega arith) o'))
  led (receives (recv_failed x) ∷ es) s chunks out all few o = absurd out.0
  led (receives (received c) ∷ es) s chunks out all few o =
      elim (Bool-cases (leb preload_limit (byte_size s))) [
        | inl full ↦
            Led-cons s s chunks (receives (received c)) es
              (returned-Leads heap s (receives (received c)) s
                (full_step heap grants c s o.reading full))
              (subst AreChunks (sym (if-true [] (c ∷ []) full)) tt)
              (subst (λ l. length l ≤ 1) (sym (if-true [] (c ∷ []) full)) (omega arith))
              (subst (λ l. Led s (chunks ++ l) es) (sym (if-true [] (c ∷ []) full))
                (rw append-nil (led es s chunks out.1 all (omega arith) o)))
        | inr room ↦
            Led-cons s (after_read heap grants s c) chunks (receives (received c)) es
              (returned-Leads heap s (receives (received c)) (after_read heap grants s c)
                (read_step heap grants c s out.0.0 out.0.1 o.reading room))
              (subst AreChunks (sym (if-false [] (c ∷ []) room)) (out.0.0, out.0.1, tt))
              (subst (λ l. length l ≤ 1) (sym (if-false [] (c ∷ []) room)) (omega arith))
              (subst (λ l. Led (after_read heap grants s c) (chunks ++ l) es)
                (sym (if-false [] (c ∷ []) room))
                (led es (after_read heap grants s c) (chunks ++ c ∷ []) out.1
                  (AreChunks-append chunks (c ∷ []) all (out.0.0, out.0.1, tt))
                  (omega (arith, length-append chunks (c ∷ [])))
                  (read-Outgoing heap grants src dst fits_src fits_dst chunks c s o all out.0.1
                    (omega arith))))
      ]

  -- Rounds of SendToBond empty the queue.
  emptied :
      (n : ℕ) (r : Round) (works : r.fails ≡ none) (s : Flow) (chunks : List (List ℕ))
      → AreChunks chunks
      → length chunks < 2 ^ 64
      → Outgoing src dst chunks s
      → length s.to_bond.deque ≤ n
      → (t : Flow) × (run heap s (replicate n (forwards r)) ≡ returned t)
        × Outgoing src dst chunks t
        × (t.to_bond.deque ≡ [])
  emptied zero r works s chunks all few o le =
      (s, unfold run in refl, o, no_more s.to_bond.deque le)
  emptied (suc n) r works s chunks all few o le =
      let (t, leads, o', shorter) =
        forward heap src dst fits_src fits_dst chunks all few s o r works in
      let (u, runs, o'', none_) = emptied n r works t chunks all few o' (omega arith) in
      (u, leads.onwards (replicate n (forwards r)) ∙ runs, o'', none_)

  -- A new flow that reads from its endpoint, one to 1024 bytes at a time, and gives packets to the
  -- paths, which do not throw, in any order, and then goes on with SendToBond at least as often as it has done anything
  -- before, has given out, over both paths together, one packet for each read, with the numbers 0,
  -- 1, 2, … in the order of the reads, and none else; each is as RecvFromConnection makes them. The
  -- addresses of the flow fit their fields, realloc succeeds, and there are fewer than 2 ^ 64 steps.
  -- Reads beyond the preload limit of the queue do not happen.
  pub sent_out :
      (backlog n : ℕ) (r : Round) (es : List Event)
      → r.fails ≡ none
      → GoOut es
      → length es < 2 ^ 64
      → length es ≤ n
      → (t : Flow) × (run heap (make src dst backlog) (es ++ replicate n (forwards r)) ≡ returned t)
        × Perm (t.ter ++ t.sat) (numbered src dst 0 (reads heap (make src dst backlog) es))
        × AreMade t.ter
        × AreMade t.sat
  sent_out backlog n r es works out few enough =
      let l =
        led es (make src dst backlog) [] out tt (omega arith) (make-Outgoing src dst backlog) in
      let chunks = reads heap (make src dst backlog) es in
      let bound = l.few in
      let whole =
        sym (length-numbered src dst 0 chunks)
        ∙ ap length l.outgoing.split
        ∙ length-append l.outgoing.gone l.end.to_bond.deque in
      let (t, runs, o, none_) =
        emptied n r works l.end chunks l.was_read (omega arith) l.outgoing (omega arith) in
      (
        t,
        l.onwards (replicate n (forwards r)) ∙ runs,
        Perm.trans o.given (
            subst (Perm o.gone)
              (sym (append-nil o.gone) ∙ ap (λ l. o.gone ++ l) (sym none_) ∙ sym o.split)
              (Perm.refl o.gone)),
        o.made_ter,
        o.made_sat,
      )
