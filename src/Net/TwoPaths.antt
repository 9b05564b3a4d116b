-- ===== src/Net/TwoPaths.antt =====
-- A flow over both paths: from SendToConnection on one host to the queue of the flow on the other
-- (src/net/Bond.cpp, src/collections/BlockingFlowPacketQueue.h).
use mathlib.Core.Logic.Or
use mathlib.Core.List.{
  Perm, Mem, Nodup, Nodup-cons, map-append, mem-cons, mem-cons_self, mem-cons_of_mem,
}
use mathlib.Core.List.Perm
use multipath_proxy.Prelude.{
  ℕ, suc, ◌+◌, ◌^◌, ◌-◌, ◌≤◌, ◌<◌, ◌≡◌, refl, sym, ap, ◌∙◌, List, [], ◌∷◌, ◌++◌, map, arith, length,
  replicate,
}
use multipath_proxy.Outcome.{Outcome, done}
use multipath_proxy.Packet.Buffer.{Allocator, Buffer}
use multipath_proxy.Packet.FlowHeader.{FlowHeader}
use multipath_proxy.Packet.FlowPacket.{FlowPacket, id}
use multipath_proxy.Collections.Sorted.{Above, Absent, Consecutive}
use multipath_proxy.Collections.Ascending.{
  Ascending, Follows, Follows-Ascending, Ascending-perm-eq, Follows-Nodup, Follows-below,
}
use multipath_proxy.Collections.BlockingQueue.{BlockingQueue, empty_queue}
use multipath_proxy.Collections.BlockingQueue.Delivery.{inserts, pops, run, AreNew}
use multipath_proxy.Collections.BlockingQueue.Reorder.{
  insert_all, insert_all-Filled, empty-IsValid, run_reorders,
}
use multipath_proxy.Net.Transport.{Transport, Sends, Receives}
use multipath_proxy.Net.Receive.Phases.{Grants}
use multipath_proxy.Net.Receive.Stream.{Item, flows, content, AreItems, receive_calls}
use multipath_proxy.Net.Send.{SendEnd, written}
use multipath_proxy.Net.Send.Transfer.{AllCarry, send_calls, transfer}

-- A header with the payload.
abbrev pub Content : Type 0
Content = FlowHeader × List ℕ

abbrev pub content_id : Content → ℕ
content_id c = (c.0).id

pub Content-set : IsSet Content
Content-set = hlevel

pub Above-contents :
    (n : ℕ) (ps : List FlowPacket) → Above n ps → Ascending content_id n (map content ps)
Above-contents n [] a = tt
Above-contents n (p ∷ ps) a = (a.0, Above-contents (suc (id p)) ps a.1)

pub contents-Consecutive :
    (n : ℕ) (ps : List FlowPacket) → Follows content_id n (map content ps) → Consecutive n ps
contents-Consecutive n [] f = tt
contents-Consecutive n (p ∷ ps) f = (f.0, contents-Consecutive (n + 1) ps f.1)

pub length-contents : (ps : List FlowPacket) → length (map content ps) ≡ length ps
length-contents [] = refl
length-contents (p ∷ ps) = omega (arith, length-contents ps)

not_mem-Absent : (i : ℕ) (ps : List FlowPacket) → ¬ Mem i (map (λ p. id p) ps) → Absent i ps
not_mem-Absent i [] h = tt
not_mem-Absent i (p ∷ ps) h =
    (λ e. h (mem-cons.1 (Or.inl (sym e))), not_mem-Absent i ps (λ m. h (mem-cons_of_mem (id p) m)))

-- Distinct ids with successors that fit 64 bits.
Nodup-AreNew :
    (ps : List FlowPacket)
    → Nodup (map (λ p. id p) ps)
    → ((k : ℕ) → Mem k (map (λ p. id p) ps) → suc k ≤ 2 ^ 64 - 1)
    → AreNew 0 [] ps
Nodup-AreNew [] d small = tt
Nodup-AreNew (p ∷ ps) d small =
    let (fresh, rest) = Nodup-cons.0 d in
    let fits = small (id p) mem-cons_self in
    (
      omega arith,
      omega arith,
      tt,
      not_mem-Absent (id p) ps fresh,
      Nodup-AreNew ps rest (λ k m. small k (mem-cons_of_mem (id p) m)),
    )

ids_of : (ps : List FlowPacket) → map content_id (map content ps) ≡ map (λ p. id p) ps
ids_of [] = refl
ids_of (p ∷ ps) = ap (λ l. id p ∷ l) (ids_of ps)

pub contents-AreNew :
    (cs : List Content) (ps : List FlowPacket)
    → Follows content_id 0 cs
    → Perm (map content ps) cs
    → length cs < 2 ^ 64
    → AreNew 0 [] ps
contents-AreNew cs ps follows perm few =
    let ids : Perm (map content_id cs) (map (λ p. id p) ps) =
      rw (ids_of ps) at (Perm.map content_id (Perm.symm perm)) in
    Nodup-AreNew ps (Perm.nodup ids (Follows-Nodup content_id 0 cs follows)) (λ k m.
      let far = Follows-below content_id 0 cs follows ((Perm.mem_iff ids).1 m) in omega arith)

-- What the queue of the flow gives out, for packets that arrive in any order.
pub contents_in_order :
    (cs : List Content) (ps : List FlowPacket)
    → Follows content_id 0 cs
    → Perm (map content ps) cs
    → length cs < 2 ^ 64
    → (out : List FlowPacket) × (last : BlockingQueue) × (run empty_queue
          (map inserts ps ++ replicate (length cs) pops)
        ≡ done (out, last))
      × (map content out ≡ cs)
contents_in_order cs ps follows perm few =
    let new = contents-AreNew cs ps follows perm few in
    let filled = insert_all-Filled ps empty_queue empty-IsValid tt new in
    let out = (insert_all empty_queue ps).deque in
    let same : map content out ≡ cs =
      Ascending-perm-eq content_id Content-set 0 (map content out) cs
        (Above-contents 0 out (rw filled.same at filled.valid.ascending))
        (Follows-Ascending content_id 0 cs follows)
        (Perm.trans (Perm.map content (Perm.symm filled.holds)) perm) in
    let (last, runs, _, _) =
      run_reorders out ps (contents-Consecutive 0 out (rw same follows)) filled.holds new in
    (out, last, rw (sym (length-contents out) ∙ ap length same) at runs, same)

module _ (t u : Transport) (heap : Allocator) (fuel : ℕ) (sends : Sends t) (receives : Receives u)
    (grants : Grants heap) (enough : 2 ^ 16 ≤ fuel) (deliver : List ℕ → u.Conn)
    (delivers : (bytes : List ℕ) → u.incoming (deliver bytes) ≡ bytes) where
  -- The packets that the other host reads from a path on which `bs` were sent.
  pub record Carried (bs : List Buffer) (xs : List Item) (r : List FlowPacket) : Type 0 where
    pub start : t.Conn
    pub end : t.Conn
    pub last : u.Conn
    pub empty : t.outgoing start ≡ []
    pub sent : send_calls t fuel start bs ≡ done (written end)
    pub read : receive_calls u heap fuel (length xs) (deliver (t.outgoing end)) ≡ done (r, last)

  written-injective :
      {a b : t.Conn} → ◌≡◌ {A = Outcome (SendEnd t)} (done (written a)) (done (written b)) → a ≡ b
  written-injective e = cc

  done-first :
      {a b : List FlowPacket} {c d : u.Conn}
      → ◌≡◌ {A = Outcome (List FlowPacket × u.Conn)} (done (a, c)) (done (b, d))
      → a ≡ b
  done-first e = cc

  pub Carried-contents :
      (bs : List Buffer) (xs : List Item) (r : List FlowPacket)
      → AreItems xs
      → AllCarry bs xs
      → Carried bs xs r
      → map content r ≡ flows xs
  Carried-contents bs xs r items carry c =
      let (s, streamed) =
        transfer t u heap fuel bs xs sends receives grants items carry enough deliver delivers
          c.start c.empty in
      let same = written-injective (sym c.sent ∙ s.ends) in
      let reads = done-first (
        sym c.read
        ∙ (ap (λ e. receive_calls u heap fuel (length xs) (deliver (t.outgoing e))) same
            ∙ streamed.ends)) in
      ap (map content) reads ∙ streamed.contents

  -- Two fresh connections of one host carry packets and heartbeats with SendToConnection, and the
  -- other host reads them with RecvFromConnection, one call for each: if the headers and payloads
  -- on both together are those of the list `cs` in some order, with the ids 0, 1, 2, …, then a new
  -- queue that gets all packets that were read, in any order, returns by as many Pops packets with
  -- the headers and payloads of `cs`, in the order of `cs`. The connections are up and cut the
  -- streams as they like, `deliver` makes a connection of the second host from the bytes that the
  -- first took over, realloc succeeds, the fuel is at least 2 ^ 16, payloads have at most 1024
  -- bytes, and `cs` has fewer than 2 ^ 64 elements.
  pub two_paths :
      (bs_ter bs_sat : List Buffer) (xs_ter xs_sat : List Item) (r_ter r_sat ps : List FlowPacket)
      (cs : List Content)
      → AreItems xs_ter
      → AreItems xs_sat
      → AllCarry bs_ter xs_ter
      → AllCarry bs_sat xs_sat
      → Carried bs_ter xs_ter r_ter
      → Carried bs_sat xs_sat r_sat
      → Follows content_id 0 cs
      → Perm (flows xs_ter ++ flows xs_sat) cs
      → Perm ps (r_ter ++ r_sat)
      → length cs < 2 ^ 64
      → (out : List FlowPacket) × (last : BlockingQueue) × (run empty_queue
            (map inserts ps ++ replicate (length cs) pops)
          ≡ done (out, last))
        × (map content out ≡ cs)
  two_paths bs_ter bs_sat xs_ter xs_sat r_ter r_sat ps cs it is ct cst ter sat follows split arrive
        few =
      let e1 = Carried-contents bs_ter xs_ter r_ter it ct ter in
      let e2 = Carried-contents bs_sat xs_sat r_sat is cst sat in
      let both : map content (r_ter ++ r_sat) ≡ flows xs_ter ++ flows xs_sat =
        map-append content r_ter r_sat
        ∙ ap (λ l. l ++ map content r_sat) e1
        ∙ ap (λ l. flows xs_ter ++ l) e2 in
      contents_in_order cs ps follows (Perm.trans (Perm.map content arrive) (rw both split)) few
