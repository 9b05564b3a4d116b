-- ===== src/Net/EndToEnd/Order.antt =====
-- Packets that arrive in any order, and are taken out while others arrive, come out in order.
use mathlib.Core.Logic.Or
use mathlib.Core.HLevel.{⊥_prop}
use mathlib.Core.List.{Perm, Mem, mem-cons, mem-cons_self, mem-cons_of_mem, not-mem-nil}
use mathlib.Core.List.Perm
use multipath_proxy.Prelude.{
  ℕ, ◌^◌, ◌≤◌, ◌<◌, ◌≡◌, ◌≢◌, refl, sym, ap, ◌∙◌, List, [], ◌∷◌, ◌++◌, map, arith, length,
  length-append, replicate,
}
use multipath_proxy.Outcome.{done}
use multipath_proxy.Packet.FlowPacket.{FlowPacket}
use multipath_proxy.Collections.Ascending.{Follows, Follows-Ascending, Ascending-perm-eq}
use multipath_proxy.Collections.BlockingQueue.{BlockingQueue, empty_queue}
use multipath_proxy.Collections.BlockingQueue.Delivery.{Call, pops, run, arrivals, run-Delivered}
use multipath_proxy.Collections.BlockingQueue.Reorder.{empty-IsValid}
use multipath_proxy.Collections.BlockingQueue.Runs.{
  run-append, drain_all, Consecutive-append-Above, Consecutive-suffix,
}
use multipath_proxy.Net.Receive.Stream.{content}
use multipath_proxy.Net.Flow.ClosePackets.{NoClose}
use multipath_proxy.Net.TwoPaths.{
  Content, content_id, Content-set, Above-contents, contents-Consecutive, contents-AreNew,
  length-contents,
}

-- What the queue of a flow gives out, for any calls in which the packets arrive, and enough Pops.
pub contents_any_order :
    (cs : List Content) (calls : List Call) (n : ℕ)
    → Follows content_id 0 cs
    → Perm (map content (arrivals calls)) cs
    → length cs < 2 ^ 64
    → length cs ≤ n
    → (out : List FlowPacket) × (last : BlockingQueue) × (run empty_queue
          (calls ++ replicate n pops)
        ≡ done (out, last))
      × (map content out ≡ cs)
contents_any_order cs calls n follows perm few enough =
    let new = contents-AreNew cs (arrivals calls) follows perm few in
    let d = run-Delivered calls empty_queue empty-IsValid tt new in
    let whole = d.out ++ d.last.deque in
    let up =
      Consecutive-append-Above 0 d.out d.last.deque d.in_order
        (rw d.advanced at d.valid.ascending) in
    let same : map content whole ≡ cs =
      Ascending-perm-eq content_id Content-set 0 (map content whole) cs (Above-contents 0 whole up)
        (Follows-Ascending content_id 0 cs follows)
        (Perm.trans (Perm.map content (Perm.symm d.conserved)) perm) in
    let rest =
      Consecutive-suffix 0 d.out d.last.deque (contents-Consecutive 0 whole (rw same follows)) in
    let (last, drained) =
      drain_all n d.last.deque d.last d.valid d.small refl (rw d.advanced rest)
        (omega (arith, ap length same, length-contents whole, length-append d.out d.last.deque)) in
    (
      whole,
      last,
      run-append calls (replicate n pops) empty_queue d.last last d.out d.last.deque empty-IsValid
          tt new d.runs drained,
      same,
    )

-- Contents with data.
abbrev pub AllData : List Content → Type 0
AllData [] = Unit {0}
AllData (c ∷ cs) = ((c.0).size ≢ 0) × AllData cs

AllData-mem : {c : Content} (cs : List Content) → AllData cs → Mem c cs → (c.0).size ≢ 0
AllData-mem [] a m e = not-mem-nil m
AllData-mem {c} (d ∷ cs) a m e =
    Or.elim ⊥_prop (mem-cons.0 m) (λ s. a.0 (ap (λ (k : Content). (k.0).size) (sym s) ∙ e))
      (λ later. AllData-mem cs a.1 later e)

mem-AllData : (cs : List Content) → ((c : Content) → Mem c cs → (c.0).size ≢ 0) → AllData cs
mem-AllData [] h = tt
mem-AllData (c ∷ cs) h = (h c mem-cons_self, mem-AllData cs (λ d m. h d (mem-cons_of_mem c m)))

pub AllData-perm : (cs ds : List Content) → Perm cs ds → AllData ds → AllData cs
AllData-perm cs ds perm a = mem-AllData cs (λ c m. AllData-mem ds a ((Perm.mem_iff perm).0 m))

pub AllData-NoClose : (ps : List FlowPacket) → AllData (map content ps) → NoClose ps
AllData-NoClose [] a = tt
AllData-NoClose (p ∷ ps) a = (a.0, AllData-NoClose ps a.1)

pub NoClose-AllData : (ps : List FlowPacket) → NoClose ps → AllData (map content ps)
NoClose-AllData [] a = tt
NoClose-AllData (p ∷ ps) a = (a.0, NoClose-AllData ps a.1)
