-- ===== src/Net/Send/Loop.antt =====
-- What SendToConnection puts on the stream.
use mathlib.Core.List.{append_assoc, append-nil}
use multipath_proxy.Prelude.{
  ℕ, zero, suc, ◌+◌, ◌-◌, ◌≤◌, ◌<◌, ◌≡◌, refl, sym, ap, ◌∙◌, List, ◌++◌, arith, ltb, length, take,
  drop, length-drop, take_all, drop_all, inl, inr, Bool-cases, take-append-drop,
}
use multipath_proxy.Outcome.{Outcome, done}
use multipath_proxy.Memory.{load, drop-drop}
use multipath_proxy.Exception.{Exception}
use multipath_proxy.Packet.Buffer.{Buffer, IsValid}
use multipath_proxy.Net.Transport.{Transport, Sends, sent, send_failed}
use multipath_proxy.Net.Send.{SendEnd, written, retrying, send_loop, send_to_connection}

-- The bytes that are left after one more piece.
drop_pieces : (n k : ℕ) (bs : List ℕ) → take k (drop n bs) ++ drop (n + k) bs ≡ drop n bs
drop_pieces n k bs = rw (← drop-drop k n bs) (take-append-drop k (drop n bs))

module _ (t : Transport) where
  open t use {Conn, send, outgoing, send_bounded, send_in_order}

  -- What a finished loop has done.
  pub record Sent (result : Outcome (SendEnd t)) (bytes before : List ℕ) : Type 0 where
    pub conn : Conn
    pub ends : result ≡ done (written conn)
    pub appended : outgoing conn ≡ before ++ bytes

  send_loop_over :
      (fuel : ℕ) (c : Conn) (b : Buffer) (n : ℕ)
      → b.size ≤ n
      → send_loop t (suc fuel) c b n ≡ done (written c)
  unfolding send_loop
  send_loop_over fuel c b n h = ground arith

  send_loop_round :
      (fuel : ℕ) (c c' : Conn) (b : Buffer) (n k : ℕ)
      → length b.data_ ≡ b.size
      → n < b.size
      → send c (drop n b.data_) ≡ (sent k, c')
      → send_loop t (suc fuel) c b n ≡ send_loop t fuel c' b (n + k)
  unfolding send_loop
  send_loop_round fuel c c' b n k long lt e =
      let all = take_all (b.size - n) (drop n b.data_) (omega (arith, length-drop n b.data_)) in
      ground (arith, all, e)

  Sent-eq :
      {r r' : Outcome (SendEnd t)} {bytes bytes' before before' : List ℕ}
      → r' ≡ r
      → before ++ bytes ≡ before' ++ bytes'
      → Sent r bytes before
      → Sent r' bytes' before'
  Sent-eq e o s = record { conn = s.conn; ends = e ∙ s.ends; appended = s.appended ∙ o }

  -- From the byte `n` on, with one round of fuel for each byte left and one more.
  send_loop-Sent :
      Sends t
      → (fuel : ℕ) (c : Conn) (b : Buffer) (n : ℕ) → length b.data_ ≡ b.size
      → n ≤ b.size
      → b.size < n + fuel
      → Sent (send_loop t fuel c b n) (drop n b.data_) (outgoing c)
  send_loop-Sent up zero c b n long le f = absurd (omega arith)
  send_loop-Sent up (suc fuel) c b n long le f =
      elim (Bool-cases (ltb n b.size))
        as (λ _. Sent (send_loop t (suc fuel) c b n) (drop n b.data_) (outgoing c)) [
          | inl more ↦
              let lt : n < b.size = ground arith in
              let (k, c', e, pos) = up c (drop n b.data_) (omega (arith, length-drop n b.data_)) in
              let few = send_bounded c (drop n b.data_) e in
              Sent-eq (send_loop_round fuel c c' b n k long lt e)
                (ap (λ o. o ++ drop (n + k) b.data_) (send_in_order c (drop n b.data_) e)
                  ∙ append_assoc (outgoing c) (take k (drop n b.data_)) (drop (n + k) b.data_)
                  ∙ ap (λ bs. outgoing c ++ bs) (drop_pieces n k b.data_))
                (send_loop-Sent up fuel c' b (n + k) long (omega (arith, length-drop n b.data_))
                  (omega arith))
          | inr less ↦
              let ge : b.size ≤ n = ground arith in
              record {
                conn = c;
                ends = send_loop_over fuel c b n ge;
                appended =
                    sym (append-nil (outgoing c))
                    ∙ ap (λ bs. outgoing c ++ bs) (sym (drop_all n b.data_ (omega arith)));
              }
        ]

  -- On a connection whose send takes over at least one byte, SendToConnection ends, with fuel
  -- above the size of the buffer, and has put the bytes of a valid buffer on the stream, all of
  -- them and once, however send cuts them.
  pub send_to_connection-Sent :
      Sends t
      → (fuel : ℕ) (c : Conn) (b : Buffer) → IsValid b
      → b.size < fuel
      → Sent (send_to_connection t fuel c b) b.data_ (outgoing c)
  unfolding send_to_connection
  send_to_connection-Sent up fuel c b v f =
      send_loop-Sent up fuel c b 0 v.sized (omega arith) (omega arith)

  -- On a connection whose every send fails and changes nothing, SendToConnection of a valid buffer
  -- that is not empty does not end with any fuel: it retries.
  pub send_to_connection_retries :
      (broken : Exception) (fuel : ℕ) (c : Conn) (b : Buffer)
      → IsValid b
      → 0 < b.size
      → ((bs : List ℕ) → send c bs ≡ (send_failed broken, c))
      → send_to_connection t fuel c b ≡ done (retrying c)
  unfolding send_to_connection send_loop
  send_to_connection_retries broken zero c b v pos failing = refl
  send_to_connection_retries broken (suc fuel) c b v pos failing = ground (
    arith,
    v.sized,
    failing (load 0 (b.size - 0) b.data_),
    send_to_connection_retries broken fuel c b v pos failing,
  )
