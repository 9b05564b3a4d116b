-- ===== src/Net/Socket.antt =====
-- src/net/Socket.h: the system calls of a socket, with a failure as an exception. The system is a
-- parameter.
use multipath_proxy.Prelude.{ℕ, List, ◌++◌}
use multipath_proxy.Exception.{Exception, ExceptionClass}
use multipath_proxy.Outcome.{Outcome, done, throws}
use multipath_proxy.Text.{Text, codes, decimal}
use multipath_proxy.Action.{Action, pure, ◌>>=◌}

-- What a system call gives: a result, or the number that errno has.
pub data Answer (A : Type 0) : Type 0 where
  ok : A → Answer A
  failed : ℕ → Answer A

-- The system calls on sockets whose addresses are of type SA. A descriptor is a number; options and
-- the results of ioctl are numbers too.
pub record Kernel (SA : Type 0) : Type 1 where
  pub World : Type 0
  pub strerror : ℕ → Text
  pub socket : ℕ → ℕ → ℕ → World → Answer ℕ × World
  pub bind : ℕ → SA → World → Answer (Unit {0}) × World
  pub accept : ℕ → World → Answer (ℕ × SA) × World
  pub listen : ℕ → ℕ → World → Answer (Unit {0}) × World
  pub connect : ℕ → SA → World → Answer (Unit {0}) × World
  pub send : ℕ → List ℕ → ℕ → World → Answer ℕ × World
  pub recv : ℕ → ℕ → ℕ → World → Answer (List ℕ) × World
  pub sendto : ℕ → List ℕ → ℕ → SA → World → Answer ℕ × World
  pub recvfrom : ℕ → ℕ → ℕ → World → Answer (List ℕ × SA) × World
  pub poll : ℕ → ℕ → ℕ → World → Answer ℕ × World
  pub getsockname : ℕ → World → Answer SA × World
  pub getpeername : ℕ → World → Answer SA × World
  pub setsockopt : ℕ → ℕ → ℕ → ℕ → World → Answer (Unit {0}) × World
  pub getsockopt : ℕ → ℕ → ℕ → World → Answer ℕ × World
  pub ioctl : ℕ → ℕ → World → Answer ℕ × World
  pub close : ℕ → World → Answer (Unit {0}) × World
  pub shutdown : ℕ → ℕ → World → Answer (Unit {0}) × World

-- SocketErrorException(text)
abbrev pub socket_error : Text → Exception
socket_error text = record { class = ExceptionClass.socket_error_exception; message = text }

-- The result, or the exception.
abbrev pub or_throw : {A W : Type 0} → (ℕ → Text) → Answer A × W → Outcome A × W
or_throw text (ok a, w) = (done a, w)
or_throw text (failed e, w) = (throws (socket_error (text e)), w)

-- "… failed." + " errno=" + the number and its text.
unfoldable pub errno_text : (ℕ → Text) → Text → ℕ → Text
errno_text strerror what e =
    what ++ (codes " errno=" ++ (decimal e ++ (codes " (" ++ (strerror e ++ codes ")"))))

module _ {SA : Type 0} (k : Kernel SA) where
  -- Socket(int, int, int). Its message names the wrong call.
  unfoldable pub new_socket : ℕ → ℕ → ℕ → Action k.World ℕ
  new_socket domain type_ protocol w =
      or_throw (errno_text k.strerror (codes "Connect failed.")) (k.socket domain type_ protocol w)

  unfoldable pub bind : ℕ → SA → Action k.World (Unit {0})
  bind fd addr w = or_throw k.strerror (k.bind fd addr w)

  -- Accept(SA &), which gives the descriptor that the new object gets, and the address.
  unfoldable pub accept_from : ℕ → Action k.World (ℕ × SA)
  accept_from fd w = or_throw k.strerror (k.accept fd w)

  -- Accept()
  unfoldable pub accept : ℕ → Action k.World ℕ
  unfolding accept_from
  accept fd = do (new, addr) ← accept_from fd; pure new

  unfoldable pub listen : ℕ → ℕ → Action k.World (Unit {0})
  listen fd backlog w = or_throw k.strerror (k.listen fd backlog w)

  unfoldable pub connect : ℕ → SA → Action k.World (Unit {0})
  connect fd addr w = or_throw k.strerror (k.connect fd addr w)

  unfoldable pub send : ℕ → List ℕ → ℕ → Action k.World ℕ
  send fd bytes flags w = or_throw k.strerror (k.send fd bytes flags w)

  unfoldable pub recv : ℕ → ℕ → ℕ → Action k.World (List ℕ)
  recv fd size flags w = or_throw k.strerror (k.recv fd size flags w)

  unfoldable pub send_to : ℕ → List ℕ → ℕ → SA → Action k.World ℕ
  send_to fd bytes flags addr w = or_throw k.strerror (k.sendto fd bytes flags addr w)

  -- RecvFrom takes the address by value: where the bytes came from is dropped.
  unfoldable pub recv_from : ℕ → ℕ → ℕ → SA → Action k.World (List ℕ)
  recv_from fd size flags addr = do
    (bytes, source) ← λ w. or_throw k.strerror (k.recvfrom fd size flags w)
    pure bytes

  -- Poll(pollfd *, int, int), of one descriptor: the events that it stores.
  unfoldable pub poll_all : ℕ → ℕ → ℕ → Action k.World ℕ
  poll_all fd events timeout w = or_throw k.strerror (k.poll fd events timeout w)

  -- catch (Exception e) { } around a call whose result stays what it was.
  abbrev pub ignore : {A W : Type 0} → A → Outcome A × W → Outcome A × W
  ignore a (throws e, w) = (done a, w)
  ignore a r = r

  -- Poll(short, int). `revents` is what the uninitialised field has.
  unfoldable pub poll : ℕ → ℕ → ℕ → ℕ → Action k.World ℕ
  unfolding poll_all
  poll revents fd events timeout w = ignore revents (poll_all fd events timeout w)

  unfoldable pub get_sock_name : ℕ → Action k.World SA
  get_sock_name fd w = or_throw k.strerror (k.getsockname fd w)

  -- GetPeerName. Its message names the wrong call.
  unfoldable pub get_peer_name : ℕ → Action k.World SA
  get_peer_name fd w =
      or_throw (errno_text k.strerror (codes "GetSockName failed.")) (k.getpeername fd w)

  unfoldable pub set_sock_opt : ℕ → ℕ → ℕ → ℕ → Action k.World (Unit {0})
  set_sock_opt fd level name value w = or_throw k.strerror (k.setsockopt fd level name value w)

  unfoldable pub get_sock_opt : ℕ → ℕ → ℕ → Action k.World ℕ
  get_sock_opt fd level name w = or_throw k.strerror (k.getsockopt fd level name w)

  unfoldable pub io_ctl : ℕ → ℕ → Action k.World ℕ
  io_ctl fd request w = or_throw k.strerror (k.ioctl fd request w)

  -- Close, and ~Socket, which calls it. A failure is only logged.
  unfoldable pub close : ℕ → k.World → k.World
  close fd w = (k.close fd w).1

  unfoldable pub shutdown : ℕ → ℕ → Action k.World (Unit {0})
  shutdown fd how w = or_throw k.strerror (k.shutdown fd how w)

-- ToString and ToRepresentation
unfoldable pub to_string : ℕ → Text
to_string fd = codes "Socket[fd=" ++ (decimal fd ++ codes "]")

unfoldable pub to_representation : ℕ → Text
to_representation fd = codes "S[fd=" ++ (decimal fd ++ codes "]")
