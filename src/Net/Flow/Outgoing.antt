-- ===== src/Net/Flow/Outgoing.antt =====
-- From the endpoint to the paths: RecvFromConnection and SendToBond of src/net/Flow.cpp, in any order.
pub mod Reads
pub mod Rounds
pub mod Runs
use mathlib.Core.List.{Perm, append_assoc, append-nil, perm_middle}
use mathlib.Core.List.Perm
use mathlib.Core.Path.{subst}
use multipath_proxy.Prelude.{
  none, ℕ, zero, suc, ◌+◌, ◌^◌, ◌≤◌, ◌<◌, ◌≡◌, ◌≢◌, refl, sym, ap, ◌∙◌, List, [], ◌∷◌, ◌++◌, arith,
  leb, length, length-append, if◌then◌else◌, true, false, Bool-cases, inl, inr, replicate, ◌==◌,
  ◌||◌, ◌&&◌, not, Bool, ◌-◌, ltb, ◌⊎◌,
}
use multipath_proxy.Outcome.{Outcome, done, fault, blocked}
use multipath_proxy.Packet.Buffer.{Allocator, u16}
use multipath_proxy.Packet.FlowHeader
use multipath_proxy.Packet.FlowPacket
use multipath_proxy.Packet.FlowPacket.{FlowPacket, id, size, write_at}
use multipath_proxy.Packet.FlowPacket.Filled.{
  framed, filled, make-filled, write-filled, resize-filled,
}
use multipath_proxy.Net.SockAddr.{SockAddrIn}
use multipath_proxy.Net.Transport.{RecvResult, received, recv_failed}
use multipath_proxy.Net.Receive.Phases.{Grants}
use multipath_proxy.Collections.Sorted.{Absent, Small}
use multipath_proxy.Collections.LockFree.Linked.{if-true, if-false}
use multipath_proxy.Collections.BlockingQueue.{BlockingQueue, add64, sub64, insert, pop}
use multipath_proxy.Collections.BlockingQueue.Invariant.{
  IsValid, insert-IsValid, PopResult, waits, returns, pop-PopResult,
}
use multipath_proxy.Collections.BlockingQueue.Reorder.{empty-IsValid}
use multipath_proxy.Net.Flow.{
  Flow, make, Handled, returned, raised, crashed, after, read_data, preload_limit, queue_packet,
  close_or_queue, recv_from_connection, settle, choose_path, to_ter, to_sat, send_to_bond, Event,
  receives, forwards, writes, drains, step, go_on, run, byte_size,
}
use multipath_proxy.Net.Flow.ClosePackets.{NoClose}
use multipath_proxy.Net.Flow.Numbered.{
  FitsWords, AreChunks, IdsBelow, AreChunks-append, IdsBelow-suffix, IdsBelow-Absent,
  IdsBelow-Small, insert_sorted_end, NoClose-suffix, numbered, numbered_end, length-numbered,
  id-numbered, id-numbered_at, numbered-IdsBelow, numbered-NoClose, IsMade, AreMade, AreMade-suffix,
  numbered-AreMade,
}

-- What a step reads from the endpoint: nothing beyond the preload limit.
abbrev pub taken : Flow → Event → List (List ℕ)
taken s (receives (received c)) = if leb preload_limit (byte_size s) then [] else c ∷ []
taken s _ = []

-- What the steps of a run read from the endpoint.
unfoldable pub reads : Allocator → Flow → List Event → List (List ℕ)
reads heap s [] = []
reads heap s (e ∷ es) = taken s e ++ elim (step heap e s) [
  | returned t ↦ reads heap t es
  | raised t x ↦ reads heap t es
  | crashed x ↦ reads heap s es
]

-- A read of one to 1024 bytes, or a round of SendToBond in which the path does not throw.
abbrev pub GoesOut : Event → Type 0
GoesOut (receives (received c)) = (0 < length c) × (length c ≤ 1024)
GoesOut (forwards r) = r.fails ≡ none
GoesOut _ = ⊥

abbrev pub GoOut : List Event → Type 0
GoOut [] = Unit {0}
GoOut (e ∷ es) = GoesOut e × GoOut es

-- A flow that has read `chunks`: the packets made of them are in the queue, or were given to the
-- paths, and none else.
pub record Outgoing (src dst : SockAddrIn) (chunks : List (List ℕ)) (s : Flow) : Type 0 where
  pub from : s.source ≡ src
  pub to : s.destination ≡ dst
  pub reading : s.recv_running ≡ true
  pub forwarding : s.bond_running ≡ true
  pub next_number : s.to_bond_id ≡ length chunks
  pub gone : List FlowPacket
  pub split : numbered src dst 0 chunks ≡ gone ++ s.to_bond.deque
  pub given : Perm (s.ter ++ s.sat) gone
  pub next_id : s.to_bond.current_id ≡ length gone
  pub valid : IsValid s.to_bond
  pub made_ter : AreMade s.ter
  pub made_sat : AreMade s.sat

pub make-Outgoing :
    (src dst : SockAddrIn) (backlog : ℕ) → Outgoing src dst [] (make src dst backlog)
make-Outgoing src dst backlog = record {
  from = refl;
  to = refl;
  reading = refl;
  forwarding = refl;
  next_number = refl;
  gone = [];
  split = refl;
  given = Perm.refl [];
  next_id = refl;
  valid = empty-IsValid;
  made_ter = tt;
  made_sat = tt;
}

-- A step that leads from `s` to `t`, and what it reads.
pub record Leads (heap : Allocator) (s : Flow) (e : Event) (t : Flow) : Type 0 where
  pub onwards : (es : List Event) → run heap s (e ∷ es) ≡ run heap t es
  pub reading : (es : List Event) → reads heap s (e ∷ es) ≡ taken s e ++ reads heap t es

pub returned-Leads :
    (heap : Allocator) (s : Flow) (e : Event) (t : Flow)
    → step heap e s ≡ returned t
    → Leads heap s e t
unfolding run reads go_on
returned-Leads heap s e t h = record { onwards = λ es. rw h refl; reading = λ es. rw h refl }

pub blocked-Leads :
    (heap : Allocator) (s : Flow) (e : Event) → step heap e s ≡ crashed blocked → Leads heap s e s
unfolding run reads go_on
blocked-Leads heap s e h = record { onwards = λ es. rw h refl; reading = λ es. rw h refl }

pub no_more : (xs : List FlowPacket) → length xs ≤ 0 → xs ≡ []
no_more [] le = refl
no_more (x ∷ xs) le = absurd (omega arith)
