-- ===== src/Net/Send.antt =====
-- src/net/Bond.cpp, SendToConnection: the loop that hands a buffer to send until all of it is
-- taken over. Its outer handler can never run, since the loop catches what Send throws.
pub mod Loop
pub mod Transfer
use multipath_proxy.Prelude.{
  ℕ, zero, suc, ◌+◌, ◌-◌, ◌<◌, Bool, List, [], ◌∷◌, Option, none, some, ltb, leb, if◌then◌else◌,
  length,
}
use multipath_proxy.Outcome.{Outcome, done, fault, out_of_bounds, ◌>>=◌, or_fault}
use multipath_proxy.Memory.{load}
use multipath_proxy.Packet.Buffer.{Buffer}
use multipath_proxy.Net.Transport.{Transport, SendResult, sent, send_failed}

-- `n` bytes from offset `i` on; `none` where they run past the end.
abbrev pub fetch : ℕ → ℕ → List ℕ → Option (List ℕ)
fetch i n mem = if leb (i + n) (length mem) then some (load i n mem) else none

module _ (t : Transport) where
  open t use {Conn, send}

  -- All written, or not with the fuel given.
  pub data SendEnd : Type 0 where
    written : Conn → SendEnd
    retrying : Conn → SendEnd

  -- What a send comes to: some bytes more, or `continue`.
  unfoldable pub send_round : SendResult × Conn → ℕ → (Conn → ℕ → Outcome SendEnd) → Outcome SendEnd
  send_round (sent k, c) n next = next c (n + k)
  send_round (send_failed e, c) n next = next c n

  -- while (bytes_written < buffer->size()) …
  unfoldable pub send_loop : ℕ → Conn → Buffer → ℕ → Outcome SendEnd
  unfolding send_round
  send_loop zero c b n = done (retrying c)
  send_loop (suc fuel) c b n =
      let round = (do
        bytes ← or_fault (fetch n (b.size - n) b.data_) out_of_bounds
        send_round (send c bytes) n (λ c' n'. send_loop fuel c' b n')) in
      if ltb n b.size then round else done (written c)

  -- SendToConnection.
  unfoldable pub send_to_connection : ℕ → Conn → Buffer → Outcome SendEnd
  send_to_connection fuel c b = send_loop fuel c b 0
