-- ===== src/Net/Transport.antt =====
-- The operating system's side of a connected stream socket, as src/net/Connection.h hands it on:
-- what recv and send may do. It is a parameter of the model.
use multipath_proxy.Prelude.{ℕ, ◌≤◌, ◌<◌, ◌≡◌, List, ◌++◌, length, take}
use multipath_proxy.Exception.{Exception}

-- recv gives bytes, none at the end of the stream, or fails; Socket::Recv then throws.
pub data RecvResult : Type 0 where
  received : List ℕ → RecvResult
  recv_failed : Exception → RecvResult

-- send takes some of the bytes over, or fails; Socket::Send then throws.
pub data SendResult : Type 0 where
  sent : ℕ → SendResult
  send_failed : Exception → SendResult

-- `incoming` is what the peer has sent and was not read yet; `outgoing` what was taken over.
pub record Transport : Type 1 where
  pub Conn : Type 0
  pub recv : Conn → ℕ → RecvResult × Conn
  pub send : Conn → List ℕ → SendResult × Conn
  pub incoming : Conn → List ℕ
  pub outgoing : Conn → List ℕ
  pub recv_bounded :
      (c : Conn) (n : ℕ) {bs : List ℕ} {c' : Conn} → recv c n ≡ (received bs, c') → length bs ≤ n
  pub recv_in_order :
      (c : Conn) (n : ℕ) {bs : List ℕ} {c' : Conn}
      → recv c n ≡ (received bs, c')
      → incoming c ≡ bs ++ incoming c'
  pub send_bounded :
      (c : Conn) (bs : List ℕ) {n : ℕ} {c' : Conn} → send c bs ≡ (sent n, c') → n ≤ length bs
  pub send_in_order :
      (c : Conn) (bs : List ℕ) {n : ℕ} {c' : Conn}
      → send c bs ≡ (sent n, c')
      → outgoing c' ≡ outgoing c ++ take n bs

-- The connection is up: where bytes are on their way recv gives at least one of them.
abbrev pub Receives : Transport → Type 0
Receives t =
    (c : t.Conn) (n : ℕ)
    → 0 < n
    → 0 < length (t.incoming c)
    → (bs : List ℕ) × (c' : t.Conn) × (t.recv c n ≡ (received bs, c')) × (0 < length bs)

-- And send takes over at least one.
abbrev pub Sends : Transport → Type 0
Sends t =
    (c : t.Conn) (bs : List ℕ)
    → 0 < length bs
    → (n : ℕ) × (c' : t.Conn) × (t.send c bs ≡ (sent n, c')) × (0 < n)
