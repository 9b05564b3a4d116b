-- ===== src/Tests/Connections.antt =====
-- The theorems on connections at concrete inputs.
use multipath_proxy.Prelude.{
  ℕ, suc, ◌+◌, ◌≤◌, ◌≡◌, ◌≢◌, refl, sym, ap, ◌∙◌, Bool, true, false, ◌||◌, List, [], ◌∷◌, none,
  some, ◌==◌, if◌then◌else◌, arith, length,
}
use multipath_proxy.Text.{codes}
use multipath_proxy.Collections.ConnectionManager
use multipath_proxy.Net.SockAddr.{SockAddrIn, zero_addr}
use multipath_proxy.Net.Socket.{Kernel, Answer, ok, failed}
use multipath_proxy.Net.Socket
use multipath_proxy.Net.Connection.{Connection, Host, fresh_connection, make, destroy, close, of_fd}
use multipath_proxy.Net.Connection.Lifetime.{Descriptors, Made, is_open, known, make-Made}
use multipath_proxy.Net.Connection.Reuse.{destroy_reused}
use multipath_proxy.Net.Listener.{accept}

-- A system that is the list of the open descriptors.
abbrev member : List ℕ → ℕ → Bool
member [] g = false
member (x ∷ xs) g = let rest = member xs g in x == g || rest

abbrev without : ℕ → List ℕ → List ℕ
without fd [] = []
without fd (x ∷ xs) = let rest = without fd xs in if x == fd then rest else x ∷ rest

-- Above all of them.
abbrev unused : List ℕ → ℕ
unused [] = 3
unused (x ∷ xs) = suc (x + unused xs)

unused-not_member : (w : List ℕ) (g : ℕ) → unused w ≤ g → member w g ≡ false
unused-not_member [] g h = refl
unused-not_member (x ∷ xs) g h = ground (arith, unused-not_member xs g (omega arith))

member-without :
    (fd : ℕ) (w : List ℕ) (g : ℕ)
    → member (without fd w) g ≡ (if fd == g then false else member w g)
member-without fd [] g = ground arith
member-without fd (x ∷ xs) g = ground (arith, member-without fd xs g)

or-if : (a b : Bool) → (a || b) ≡ (if a then true else b)
or-if a b = ground arith

-- connect and accept succeed; accept gives the descriptor 3.
abbrev pub simple : Kernel SockAddrIn
simple = record {
  World = List ℕ;
  strerror = λ e. codes "error";
  socket = λ d t p w. (ok (unused w), unused w ∷ w);
  bind = λ fd a w. (ok tt, w);
  accept = λ fd w. (ok (3, zero_addr), 3 ∷ w);
  listen = λ fd n w. (ok tt, w);
  connect = λ fd a w. (ok tt, w);
  send = λ fd bytes flags w. (ok (length bytes), w);
  recv = λ fd n flags w. (ok [], w);
  sendto = λ fd bytes flags a w. (ok (length bytes), w);
  recvfrom = λ fd n flags w. (ok ([], zero_addr), w);
  poll = λ fd e t w. (ok e, w);
  getsockname = λ fd w. (ok zero_addr, w);
  getpeername = λ fd w. (ok zero_addr, w);
  setsockopt = λ fd l n v w. (ok tt, w);
  getsockopt = λ fd l n w. (ok 0, w);
  ioctl = λ fd r w. (ok 0, w);
  close = λ fd w. (ok tt, without fd w);
  shutdown = λ fd how w. (ok tt, w);
}

ok-injective : {a b : ℕ} → ◌≡◌ {A = Answer ℕ} (ok a) (ok b) → a ≡ b
ok-injective e = cc

ok-not_failed : {a b : ℕ} → ◌≢◌ {A = Answer ℕ} (ok a) (failed b)
ok-not_failed e = cc

opened :
    (fd : ℕ) (w w' : List ℕ)
    → unused w ≡ fd
    → unused w ∷ w ≡ w'
    → (member w fd ≡ false) × ((g : ℕ) → member w' g ≡ (if fd == g then true else member w g))
opened fd w w' e f = (
  unused-not_member w fd (omega arith),
  λ g.
      ap (λ v. member v g) (sym f)
      ∙ (ap (λ n. n == g || member w g) e ∙ or-if (fd == g) (member w g)),
)

pub table : Descriptors simple
table = record {
  open_at = member;
  socket_ok = λ d t p fd w w' e. opened fd w w' (ok-injective (ap (λ r. r.0) e)) (ap (λ r. r.1) e);
  socket_failed = λ d t p e w w' h g. absurd (ok-not_failed (ap (λ r. r.0) h));
  setsockopt_keeps = λ fd l n v w g. refl;
  connect_keeps = λ fd a w g. refl;
  close_closes = λ fd w g. member-without fd w g;
}

-- Nothing is open or registered.
abbrev pub idle : Host simple
idle = record { world = []; connections = [] }

make-Made_example : Made simple table idle 7 (make simple 2 7 0 zero_addr idle)
make-Made_example = make-Made simple table idle (λ fd e. refl) 7 2 0 zero_addr

-- The connection 7 with the descriptor 3.
abbrev first : Connection
first = fresh_connection 7 3 0

abbrev connected : Host simple
connected = record { world = 3 ∷ []; connections = (3, 7) ∷ [] }

-- It is closed, and accept gives the descriptor 3 to the connection 8.
abbrev reused : Host simple
reused = record { world = 3 ∷ []; connections = (3, 7) ∷ [] }

destroy_reused_example :
    (known simple table reused 3 ≡ some 7)
    × (is_open simple table (destroy simple first reused) 3 ≡ false)
    × (known simple table (destroy simple first reused) 3 ≡ none)
unfolding accept Socket.accept Socket.accept_from of_fd close Socket.close ConnectionManager.insert
destroy_reused_example =
    destroy_reused simple table first (fresh_connection 8 3 5) connected reused 8 5 4 refl refl refl
