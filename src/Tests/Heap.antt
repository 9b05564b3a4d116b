-- ===== src/Tests/Heap.antt =====
-- An allocator and a transport to run the model with: memory comes zeroed, and never runs out; a
-- connection hands over at most three bytes at a time.
use mathlib.Core.Path.{ap₂}
use multipath_proxy.Prelude.{
  ℕ, zero, suc, ◌-◌, ◌≤◌, ◌≡◌, refl, sym, ap, ◌∙◌, List, [], ◌∷◌, ◌++◌, some, arith, leb,
  if◌then◌else◌, length, take, drop, replicate, length-append, length-take, length-replicate,
  take-append-drop, take_all, drop_all,
}
use multipath_proxy.Memory.{load-take}
use multipath_proxy.Packet.Buffer.{Allocator}
use multipath_proxy.Net.Transport.{
  Transport, RecvResult, received, recv_failed, SendResult, sent, send_failed, Receives, Sends,
}
use multipath_proxy.Net.Receive.Faults.{Ends}
use multipath_proxy.Net.Receive.Phases.{Grants}

-- Cut or filled up with zeros.
abbrev pub fit : ℕ → List ℕ → List ℕ
fit n bs = take n bs ++ replicate (n - length (take n bs)) 0

pub length-fit : (n : ℕ) (bs : List ℕ) → length (fit n bs) ≡ n
length-fit n bs = rw (length-append, length-replicate) (omega (arith, length-take n bs))

take_within : (k : ℕ) (xs ys : List ℕ) → k ≤ length xs → take k (xs ++ ys) ≡ take k xs
take_within zero xs ys h = refl
take_within (suc k) [] ys h = absurd (omega arith)
take_within (suc k) (x ∷ xs) ys h = rw (take_within k xs ys (omega arith))

pub fit_keeps : (n k : ℕ) (bs : List ℕ) → k ≤ n → k ≤ length bs → take k (fit n bs) ≡ take k bs
fit_keeps n k bs kn kb =
    take_within k (take n bs) (replicate (n - length (take n bs)) 0)
      (omega (arith, length-take n bs))
    ∙ load-take 0 k n bs (omega arith)

pub granted : {x y : List ℕ} → some x ≡ some y → y ≡ x
granted e = cc

abbrev pub heap : Allocator
heap = record {
  malloc = λ n. replicate n 0;
  realloc = λ bs n. some (fit n bs);
  length-malloc = λ n. length-replicate n 0;
  length-realloc = λ bs n e. ap length (granted e) ∙ length-fit n bs;
  realloc_keeps = λ bs n k e kn kb. ap (take k) (granted e) ∙ fit_keeps n k bs kn kb;
}

pub heap-Grants : Grants heap
heap-Grants bs n = (fit n bs, refl)

-- At most three.
abbrev pub three : ℕ → ℕ
three n = if leb n 3 then n else 3

abbrev pub Ends2 : Type 0
Ends2 = List ℕ × List ℕ

abbrev pub recv3 : Ends2 → ℕ → RecvResult × Ends2
recv3 c n = (received (take (three n) c.0), (drop (three n) c.0, c.1))

abbrev pub send3 : Ends2 → List ℕ → SendResult × Ends2
send3 c bs = (sent (three (length bs)), (c.0, c.1 ++ take (three (length bs)) bs))

bytes_of : RecvResult → List ℕ
bytes_of (received bs) = bs
bytes_of (recv_failed e) = []

count_of : SendResult → ℕ
count_of (sent n) = n
count_of (send_failed e) = 0

module _ (c : Ends2) (n : ℕ) {bs : List ℕ} {c' : Ends2} (e : recv3 c n ≡ (received bs, c')) where
  got : take (three n) c.0 ≡ bs
  unfolding bytes_of
  got = ap (λ (r : RecvResult × Ends2). bytes_of r.0) e

  pub slow_bounded : length bs ≤ n
  slow_bounded = rw (← got) (ground (arith, length-take (three n) c.0))

  pub slow_in_order : c.0 ≡ bs ++ c'.0
  slow_in_order =
      sym (take-append-drop (three n) c.0) ∙ ap₂ ◌++◌ got (ap (λ (r : RecvResult × Ends2). r.1.0) e)

module _ (c : Ends2) (bs : List ℕ) {n : ℕ} {c' : Ends2} (e : send3 c bs ≡ (sent n, c')) where
  taken : three (length bs) ≡ n
  unfolding count_of
  taken = ap (λ (r : SendResult × Ends2). count_of r.0) e

  pub slow_few : n ≤ length bs
  slow_few = rw (← taken) (ground arith)

  pub slow_appends : c'.1 ≡ c.1 ++ take n bs
  slow_appends = ap (λ (r : SendResult × Ends2). r.1.1) (sym e) ∙ ap (λ k. c.1 ++ take k bs) taken

abbrev pub slow : Transport
slow = record {
  Conn = Ends2;
  recv = recv3;
  send = send3;
  incoming = λ c. c.0;
  outgoing = λ c. c.1;
  recv_bounded = slow_bounded;
  recv_in_order = slow_in_order;
  send_bounded = slow_few;
  send_in_order = slow_appends;
}

pub slow-Receives : Receives slow
slow-Receives c n pos more =
    (take (three n) c.0, (drop (three n) c.0, c.1), refl, ground (arith, length-take (three n) c.0))

pub slow-Sends : Sends slow
slow-Sends c bs pos =
    (three (length bs), (c.0, c.1 ++ take (three (length bs)) bs), refl, ground arith)

pub slow-Ends : Ends slow
slow-Ends c n over =
    let none_left : length c.0 ≡ 0 = ap length over in
    ap₂ (λ a b. (received a, (b, c.1))) (take_all (three n) c.0 (omega arith) ∙ over)
      (drop_all (three n) c.0 (omega arith) ∙ sym over)
