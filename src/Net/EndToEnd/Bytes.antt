-- ===== src/Net/EndToEnd/Bytes.antt =====
-- The bytes that one endpoint sends are those that the other one gets (src/net/Flow.cpp on both
-- hosts, over src/net/Bond.cpp).
use mathlib.Core.List.{Perm, map-append, append-nil, perm_middle}
use mathlib.Core.List.Perm
use mathlib.Core.Path.{subst, ap₂}
use multipath_proxy.Prelude.{
  none, ℕ, zero, suc, ◌+◌, ◌^◌, ◌≤◌, ◌<◌, ◌≡◌, refl, sym, ap, ◌∙◌, List, [], ◌∷◌, ◌++◌, map, arith,
  length, take, take_all, replicate, rev_append,
}
use multipath_proxy.Packet.Buffer.{Allocator, Buffer}
use multipath_proxy.Packet.FlowHeader
use multipath_proxy.Packet.FlowPacket.{FlowPacket, payload}
use multipath_proxy.Packet.FlowPacket.Filled.{payload-framed}
use multipath_proxy.Collections.Ascending.{Follows}
use multipath_proxy.Collections.BlockingQueue.Delivery.{Call, inserts, pops, arrivals}
use multipath_proxy.Collections.BlockingQueue.Reorder.{empty-IsValid}
use multipath_proxy.Net.SockAddr.{SockAddrIn}
use multipath_proxy.Net.Transport.{Transport, Sends, Receives}
use multipath_proxy.Net.Receive.Phases.{Grants}
use multipath_proxy.Net.Receive.Stream.{content}
use multipath_proxy.Net.TwoPaths.{
  Content, content_id, Carried, Carried-contents, contents-AreNew, length-contents,
}
use multipath_proxy.Net.Flow.{Round, Flow, returned, make, Event, forwards, run}
use multipath_proxy.Net.Flow.Numbered.{
  FitsWords, AreChunks, AreMade, numbered, id-numbered, length-numbered, numbered-NoClose,
}
use multipath_proxy.Net.Flow.Outgoing.{GoOut, reads, make-Outgoing}
use multipath_proxy.Net.Flow.Outgoing.Runs.{led, sent_out}
use multipath_proxy.Net.Flow.Incoming.{event_of, bytes_out, fed, Fed-run}
use multipath_proxy.Net.EndToEnd.OnPath.{OnPath, items_of, on_path}
use multipath_proxy.Net.EndToEnd.Order.{
  contents_any_order, AllData, AllData-perm, AllData-NoClose, NoClose-AllData,
}

abbrev pub joined : List (List ℕ) → List ℕ
joined [] = []
joined (c ∷ cs) = c ++ joined cs

-- The payloads of contents, each cut to `n` bytes.
abbrev payloads : ℕ → List Content → List ℕ
payloads n [] = []
payloads n (c ∷ cs) = take n c.1 ++ payloads n cs

bytes_out-payloads : (n : ℕ) (ps : List FlowPacket) → bytes_out n ps ≡ payloads n (map content ps)
bytes_out-payloads n [] = refl
bytes_out-payloads n (p ∷ ps) = ap (λ l. take n (payload p) ++ l) (bytes_out-payloads n ps)

rev_append-perm : (xs ys : List FlowPacket) → Perm (rev_append xs ys) (xs ++ ys)
rev_append-perm [] ys = Perm.refl ys
rev_append-perm (x ∷ xs) ys = Perm.trans (rev_append-perm xs (x ∷ ys)) (perm_middle xs ys)

pub AreMade-rev_append :
    (xs ys : List FlowPacket) → AreMade xs → AreMade ys → AreMade (rev_append xs ys)
AreMade-rev_append [] ys a b = b
AreMade-rev_append (x ∷ xs) ys a b = AreMade-rev_append xs (x ∷ ys) a.1 (a.0, b)

-- The packets in the order in which the flow gave them to a path.
abbrev pub in_order : List FlowPacket → List FlowPacket
in_order ps = rev_append ps []

in_order-perm : (ps : List FlowPacket) → Perm (in_order ps) ps
in_order-perm ps = rw append-nil at (rev_append-perm ps [])

module _ (src dst : SockAddrIn) where
  payloads-numbered :
      (n k : ℕ) (chunks : List (List ℕ))
      → AreChunks chunks
      → 1024 ≤ n
      → payloads n (map content (numbered src dst k chunks)) ≡ joined chunks
  payloads-numbered n k [] a le = refl
  payloads-numbered n k (c ∷ cs) a le =
      ap₂ ◌++◌
        (ap (take n) (payload-framed (FlowHeader.new src dst k) c)
          ∙ take_all n c (let small = a.1 in omega arith))
        (payloads-numbered n (suc k) cs a.2 le)

  Follows-numbered :
      FitsWords src
      → FitsWords dst
      → (k : ℕ) (chunks : List (List ℕ)) → AreChunks chunks
      → k + length chunks < 2 ^ 64
      → Follows content_id k (map content (numbered src dst k chunks))
  Follows-numbered fs fd k [] a lt = tt
  Follows-numbered fs fd k (c ∷ cs) a lt = (
    id-numbered src dst fs fd k c (omega arith) a.1,
    subst (λ j. Follows content_id j (map content (numbered src dst (suc k) cs))) (omega arith)
        (Follows-numbered fs fd (suc k) cs a.2 (omega arith)),
  )

returned-injective : {a b : Flow} → returned a ≡ returned b → a ≡ b
returned-injective e = cc

arrivals-pops : (calls : List Call) (m : ℕ) → arrivals (calls ++ replicate m pops) ≡ arrivals calls
arrivals-pops [] zero = refl
arrivals-pops [] (suc m) = arrivals-pops [] m
arrivals-pops (inserts p ∷ calls) m = ap (λ l. p ∷ l) (arrivals-pops calls m)
arrivals-pops (pops ∷ calls) m = arrivals-pops calls m

-- What a flow that holds the contents `cs` among the arrivals gives to its endpoint.
delivered_bytes :
    (heap : Allocator) (src dst : SockAddrIn) (backlog k m : ℕ) (calls : List Call)
    (cs : List Content)
    → Follows content_id 0 cs
    → Perm (map content (arrivals calls)) cs
    → AllData cs
    → length cs < 2 ^ 64
    → length cs ≤ m
    → (d : Flow) × (run heap (make src dst backlog) (map (event_of k) (calls ++ replicate m pops))
        ≡ returned d)
      × (d.delivered ≡ payloads k cs)
delivered_bytes heap src dst backlog k m calls cs follows perm full few enough =
    let new = contents-AreNew cs (arrivals calls) follows perm few in
    let (out, last, runs, same) = contents_any_order cs calls m follows perm few enough in
    let same_arrivals = arrivals-pops calls m in
    (
      fed k (make src dst backlog) last out,
      Fed-run heap k (calls ++ replicate m pops) (make src dst backlog) refl empty-IsValid tt
          (rw same_arrivals new) tt
          (rw same_arrivals (
            AllData-NoClose (arrivals calls)
              (AllData-perm (map content (arrivals calls)) cs perm full)))
          out last runs,
      bytes_out-payloads k out ∙ ap (payloads k) same,
    )

module _ (t u : Transport) (heap : Allocator) (fuel : ℕ) (sends : Sends t) (receives : Receives u)
    (grants : Grants heap) (enough : 2 ^ 16 ≤ fuel) (deliver : List ℕ → u.Conn)
    (delivers : (bytes : List ℕ) → u.incoming (deliver bytes) ≡ bytes) where
  -- Buffers that carry, on one path, the packets `given` and heartbeats, and what the other host reads.
  abbrev pub Crossed :
      (given : List FlowPacket) (bs : List Buffer)
      → OnPath (in_order given) bs
      → List FlowPacket
      → Type 0
  Crossed given bs on r =
      Carried t u heap fuel sends receives grants enough deliver delivers bs (items_of on) r

  crossed :
      (given : List FlowPacket) (bs : List Buffer) (on : OnPath (in_order given) bs)
      (r : List FlowPacket)
      → AreMade given
      → Crossed given bs on r
      → map content r ≡ map content (in_order given)
  crossed given bs on r made c =
      let (items, carry, same) = on_path on (AreMade-rev_append given [] made tt) in
      Carried-contents t u heap fuel sends receives grants enough deliver delivers bs (items_of on)
        r items carry c
      ∙ same

  arrived :
      (ter sat r_ter r_sat ps chunks : List FlowPacket)
      → map content r_ter ≡ map content (in_order ter)
      → map content r_sat ≡ map content (in_order sat)
      → Perm ps (r_ter ++ r_sat)
      → Perm (ter ++ sat) chunks
      → Perm (map content ps) (map content chunks)
  arrived ter sat r_ter r_sat ps chunks e f arrive given =
      let both : map content (r_ter ++ r_sat) ≡ map content (in_order ter ++ in_order sat) =
        map-append content r_ter r_sat
        ∙ ap₂ ◌++◌ e f
        ∙ sym (map-append content (in_order ter) (in_order sat)) in
      Perm.trans (Perm.map content arrive) (
        rw both (
          Perm.map content (
            Perm.trans
              (Perm.trans (Perm.append_right (in_order sat) (in_order-perm ter))
                (Perm.append_left ter (in_order-perm sat)))
              given)))

  -- A new flow on one host reads from its endpoint, one to 1024 bytes at a time, and gives packets
  -- to its two paths, which do not throw, in any order, and then does at least as many rounds of
  -- SendToBond as it had events before. On each path SendToConnection carries these packets, with
  -- any heartbeats between them, over a fresh connection, and the other host reads it with
  -- RecvFromConnection. There a new flow gets all these packets in any order, with rounds of
  -- SendToConnection between, and at least one such round for each of these events behind them.
  -- Then the endpoint there has got the bytes that were read here, in their order, and nothing
  -- else. The connections of the bond are up and cut the streams as they like, `deliver` makes a
  -- connection of the second host from the bytes that the first took over, the socket of the
  -- endpoint takes over at least 1024 bytes at a time, realloc succeeds, the addresses fit their
  -- fields, the fuel is at least 2 ^ 16, and these events are fewer than 2 ^ 64.
  pub end_to_end :
      (src dst : SockAddrIn) (backlog n : ℕ) (r : Round) (es : List Event) (s : Flow)
      → r.fails ≡ none
      → FitsWords src
      → FitsWords dst
      → GoOut es
      → length es < 2 ^ 64
      → length es ≤ n
      → run heap (make src dst backlog) (es ++ replicate n (forwards r)) ≡ returned s
      → (bs_ter bs_sat : List Buffer) (on_ter : OnPath (in_order s.ter) bs_ter)
        (on_sat : OnPath (in_order s.sat) bs_sat) (r_ter r_sat : List FlowPacket)
      → Crossed s.ter bs_ter on_ter r_ter
      → Crossed s.sat bs_sat on_sat r_sat
      → (src' dst' : SockAddrIn) (backlog' k m : ℕ) (calls : List Call)
      → Perm (arrivals calls) (r_ter ++ r_sat)
      → length es ≤ m
      → 1024 ≤ k
      → (d : Flow) × (run heap
            (make src' dst' backlog')
            (map (event_of k) (calls ++ replicate m pops))
          ≡ returned d)
        × (d.delivered ≡ joined (reads heap (make src dst backlog) es))
  end_to_end src dst backlog n r es s works fs fd out few more runs bs_ter bs_sat on_ter on_sat
        r_ter r_sat ter sat src' dst' backlog' k m calls arrive rounds room =
      let l =
        led heap grants src dst fs fd es (make src dst backlog) [] out tt (omega arith)
          (make-Outgoing src dst backlog) in
      let chunks = reads heap (make src dst backlog) es in
      let bound = l.few in
      let (s', runs', given, made_ter, made_sat) =
        sent_out heap grants src dst fs fd backlog n r es works out few more in
      let same : s' ≡ s = returned-injective (sym runs' ∙ runs) in
      let cs = map content (numbered src dst 0 chunks) in
      let size_of : length cs ≡ length chunks =
        length-contents (numbered src dst 0 chunks) ∙ length-numbered src dst 0 chunks in
      let (d, went, got) =
        delivered_bytes heap src' dst' backlog' k m calls cs
          (Follows-numbered src dst fs fd 0 chunks l.was_read (omega arith))
          (arrived s.ter s.sat r_ter r_sat (arrivals calls) (numbered src dst 0 chunks)
            (crossed s.ter bs_ter on_ter r_ter (subst (λ (f : Flow). AreMade f.ter) same made_ter)
              ter)
            (crossed s.sat bs_sat on_sat r_sat (subst (λ (f : Flow). AreMade f.sat) same made_sat)
              sat)
            arrive
            (subst (λ (f : Flow). Perm (f.ter ++ f.sat) (numbered src dst 0 chunks)) same given))
          (NoClose-AllData (numbered src dst 0 chunks)
            (numbered-NoClose src dst fs fd 0 chunks l.was_read (omega arith)))
          (omega arith) (omega arith) in
      (d, went, got ∙ payloads-numbered src dst k 0 chunks l.was_read room)
