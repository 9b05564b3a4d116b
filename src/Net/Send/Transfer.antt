-- ===== src/Net/Send/Transfer.antt =====
-- From SendToConnection on one host to RecvFromConnection on the other.
use mathlib.Core.List.{append_assoc, append-nil}
use multipath_proxy.Prelude.{
  ℕ, ◌^◌, ◌≤◌, ◌≡◌, refl, sym, ap, ◌∙◌, List, [], ◌∷◌, ◌++◌, arith, length,
}
use multipath_proxy.Outcome.{Outcome, done, ◌>>=◌}
use multipath_proxy.Packet.Buffer.{Allocator, Buffer, IsValid}
use multipath_proxy.Net.Transport.{Transport, Sends, Receives}
use multipath_proxy.Net.Receive.Phases.{Grants}
use multipath_proxy.Net.Receive.Stream.{
  Item, item_bytes, stream, AreItems, Streamed, receive_calls, receive_calls-Streamed,
}
use multipath_proxy.Net.Send.{SendEnd, written, retrying, send_to_connection}
use multipath_proxy.Net.Send.Loop.{Sent, send_to_connection-Sent}

-- A buffer that holds one item's bytes.
pub record Carries (b : Buffer) (x : Item) : Type 0 where
  pub valid : IsValid b
  pub bytes : b.data_ ≡ item_bytes x

abbrev pub AllCarry : List Buffer → List Item → Type 0
AllCarry [] [] = Unit {0}
AllCarry (b ∷ bs) (x ∷ xs) = Carries b x × AllCarry bs xs
AllCarry _ _ = ⊥

module _ (t : Transport) where
  open t use {Conn, outgoing}

  then_send : SendEnd t → (Conn → Outcome (SendEnd t)) → Outcome (SendEnd t)
  then_send (written c) next = next c
  then_send (retrying c) next = done (retrying c)

  -- SendToConnection for one packet after the other.
  unfoldable pub send_calls : ℕ → Conn → List Buffer → Outcome (SendEnd t)
  unfolding then_send
  send_calls fuel c [] = done (written c)
  send_calls fuel c (b ∷ bs) = do
    end ← send_to_connection t fuel c b
    then_send end (λ c'. send_calls fuel c' bs)

  Sent-cons :
      (fuel : ℕ) (c : Conn) (b : Buffer) (bs : List Buffer) (x : Item) (xs : List Item)
      → b.data_ ≡ item_bytes x
      → (s : Sent t (send_to_connection t fuel c b) b.data_ (outgoing c))
      → Sent t (send_calls fuel s.conn bs) (stream xs) (outgoing s.conn)
      → Sent t (send_calls fuel c (b ∷ bs)) (stream (x ∷ xs)) (outgoing c)
  unfolding send_calls then_send
  Sent-cons fuel c b bs x xs e s r = record {
    conn = r.conn;
    ends = rw s.ends r.ends;
    appended =
        r.appended
        ∙ ap (λ o. o ++ stream xs) (s.appended ∙ ap (λ y. outgoing c ++ y) e)
        ∙ append_assoc (outgoing c) (item_bytes x) (stream xs);
  }

  pub send_calls-Sent :
      Sends t
      → (fuel : ℕ) (c : Conn) (bs : List Buffer) (xs : List Item) → AllCarry bs xs
      → 2 ^ 16 ≤ fuel
      → Sent t (send_calls fuel c bs) (stream xs) (outgoing c)
  send_calls-Sent up fuel c [] [] all enough = record {
    conn = c;
    ends = unfold send_calls in refl;
    appended = sym (append-nil (outgoing c));
  }
  send_calls-Sent up fuel c [] (x ∷ xs) all enough = absurd all
  send_calls-Sent up fuel c (b ∷ bs) [] all enough = absurd all
  send_calls-Sent up fuel c (b ∷ bs) (x ∷ xs) all enough =
      let s =
        send_to_connection-Sent t up fuel c b all.0.valid (omega (arith, all.0.valid.small)) in
      Sent-cons fuel c b bs x xs all.0.bytes s (send_calls-Sent up fuel s.conn bs xs all.1 enough)

-- Packets and heartbeats that SendToConnection hands to a fresh connection of one host, one after
-- the other, come out of RecvFromConnection on the other host: the packets, in order, each with
-- its header and payload, and nothing else. Both connections are up and cut the stream as they
-- like, `deliver` makes a connection of the second host from the bytes that the first took over,
-- realloc succeeds, the fuel is at least 2 ^ 16, and payloads have at most 1024 bytes.
pub transfer :
    (t u : Transport) (heap : Allocator) (fuel : ℕ) (bs : List Buffer) (xs : List Item)
    → Sends t
    → Receives u
    → Grants heap
    → AreItems xs
    → AllCarry bs xs
    → 2 ^ 16 ≤ fuel
    → (deliver : List ℕ → u.Conn) → ((bytes : List ℕ) → u.incoming (deliver bytes) ≡ bytes)
    → (c : t.Conn) → t.outgoing c ≡ []
    → (s : Sent t (send_calls t fuel c bs) (stream xs) (t.outgoing c)) × Streamed u
        (receive_calls u heap fuel (length xs) (deliver (t.outgoing s.conn)))
        xs
        []
transfer t u heap fuel bs xs sends receives grants items carry enough deliver delivers c empty =
    let s = send_calls-Sent t sends fuel c bs xs carry enough in
    (
      s,
      receive_calls-Streamed u heap fuel receives grants (omega arith) xs
          (deliver (t.outgoing s.conn)) [] items
          (delivers (t.outgoing s.conn)
            ∙ s.appended
            ∙ ap (λ o. o ++ stream xs) empty
            ∙ sym (append-nil (stream xs))),
    )
