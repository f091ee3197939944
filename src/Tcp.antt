-- ===== src/Tcp.antt =====
-- src/io/net/tcp.c and src/io/net/socket-collection.c: the sockets of the server and of a client. The
-- calls that change descriptors are a list, the last first. `none` is undefined behaviour, a failed
-- assertion, or a loop that has not ended when the results of its system call end.
pub mod Server
pub mod Client
mod Tests
use Prim.Native.String.{String}
use agilefs.Prelude.{
  ℕ, zero, suc, ◌+◌, ◌==◌, leb, bit_and, if◌then◌else◌, Bool, true, false, ◌&&◌, not, Option, none,
  some, ◌>>=◌, assert, List, [], ◌∷◌,
}
use agilefs.Prelude.Int.{ℤ, pos, negsuc, minus_one, ltb_ℤ, eqb_ℤ, ◌-ℤ◌}
use agilefs.Sockio.{
  Returned, returns, is_interrupted, is_blocked, is_failed, sockio_bind_sock, sockio_connect_sock,
  sockio_sockaddr_init, sockio_sockopt,
}

-- `struct tcp_addr`, without its list entry.
pub record TcpAddr : Type 0 where
  pub socket : ℤ
  pub port : ℤ
  pub hostname : Option String
  pub server_port : ℤ
  pub is_connected : Bool

pub record SocketCollection : Type 0 where
  pub server_socket : ℤ
  pub epfd : ℤ

pub data Call : Type 0 where
  opens closes nonblocks listens : ℤ → Call
  binds connects : ℤ → ℤ → Call
  polls : ℤ → ℤ → Call

-- What the calls of one operation return.
pub record Net : Type 0 where
  pub errno : ℤ
  pub socket : ℤ
  pub nonblock : Bool
  pub bind : List Returned
  pub listen : ℤ
  pub nodelay : ℤ
  pub aton : ℕ
  pub connect : List Returned
  pub accept : ℤ
  pub epoll_create : ℤ
  pub epoll_ctl : ℤ
  pub eexist : Bool
  pub gives_addr : Bool
  pub gives_collection : Bool

module _ (net : Net) where
  -- Returns null, or the collection. A client has no socket to poll yet.
  pub socket_collection_init : ℤ → List Call → Option SocketCollection × List Call
  socket_collection_init server_socket calls =
      let epfd = net.epoll_create in
      let scp : SocketCollection = record { server_socket = server_socket; epfd = epfd } in
      if net.gives_collection
      then (if ltb_ℤ epfd (pos 0)
          then (none, calls)
          else (if ltb_ℤ minus_one server_socket
              then (if ltb_ℤ net.epoll_ctl (pos 0) && not net.eexist
                  then (none, opens epfd ∷ calls)
                  else (some scp, polls epfd server_socket ∷ opens epfd ∷ calls))
              else (some scp, opens epfd ∷ calls)))
      else (none, calls)

  abbrev pub set_nonblock : ℤ → List Call → List Call
  set_nonblock fd calls = if net.nonblock then calls else nonblocks fd ∷ calls

  abbrev pub zero_addr : TcpAddr
  zero_addr = record {
    socket = pos 0;
    port = pos 0;
    hostname = none;
    server_port = pos 0;
    is_connected = false;
  }

  -- From `bind` on, which returned `ret`.
  pub start_listening : ℤ → TcpAddr → List Call → ℤ × TcpAddr × List Call
  start_listening ret addr calls =
      if ltb_ℤ ret (pos 0)
      then (pos 0 -ℤ net.errno, addr, calls)
      else (if eqb_ℤ net.listen (pos 0)
          then (pos 0, addr, listens addr.socket ∷ binds addr.socket addr.port ∷ calls)
          else (pos 0 -ℤ net.errno, addr, binds addr.socket addr.port ∷ calls))

  -- `memset` clears what the caller has put in the address, the port too.
  pub tcp_server_init : List Call → Option (ℤ × TcpAddr × List Call)
  unfolding start_listening
  tcp_server_init calls =
      let addr = record zero_addr { socket = net.socket } in
      elim (ltb_ℤ addr.socket (pos 0)) [
        | true ↦ some (pos 0 -ℤ net.errno, addr, calls)
        | false ↦ do
          ret ← sockio_bind_sock net.bind
          some (start_listening ret addr (set_nonblock addr.socket (opens addr.socket ∷ calls)))
      ]

  -- The collection that is kept decides.
  abbrev pub collected :
      Option SocketCollection × List Call → ℤ × Option SocketCollection × List Call
  collected (none, calls) = (minus_one, none, calls)
  collected (some scp, calls) = (pos 0, some scp, calls)

  -- With the address that was listened at.
  pub tcp_initialize :
      Option TcpAddr → ℕ → List Call → Option (ℤ × Option SocketCollection × List Call)
  unfolding tcp_server_init socket_collection_init
  tcp_initialize listen_addr init_flags calls = elim (bit_and init_flags 1 == 0) [
    | true ↦ some (collected (socket_collection_init minus_one calls))
    | false ↦ elim listen_addr [ none ↦ if net.gives_addr then serve else none | some addr ↦ serve ]
  ]
    where
      serve : Option (ℤ × Option SocketCollection × List Call)
      serve = do
        (ret, addr, calls') ← tcp_server_init calls
        some (
            if ltb_ℤ ret (pos 0)
            then (ret, none, calls')
            else collected (socket_collection_init addr.socket calls'))

  -- A new socket without its options. On a negative descriptor the flags read as all ones.
  abbrev pub new_socket : List Call → List Call
  new_socket calls =
      if ltb_ℤ net.socket (pos 0) then calls else set_nonblock net.socket (opens net.socket ∷ calls)

  -- The result of `sockio_connect_sock` is not looked at.
  pub connect_to : TcpAddr → List Call → Option String → Option (ℤ × TcpAddr × List Call)
  connect_to addr calls none = some (pos 0, addr, calls)
  connect_to addr calls (some name) = do
    ret ← sockio_connect_sock (sockio_sockaddr_init net.aton) net.connect
    some (
      pos 0,
      record addr { is_connected = true },
      if eqb_ℤ ret (pos 0) then connects addr.socket addr.port ∷ calls else calls,
    )

  pub tcp_sock_init : TcpAddr → List Call → Option (ℤ × TcpAddr × List Call)
  unfolding connect_to
  tcp_sock_init addr calls = assert (eqb_ℤ addr.server_port (pos 0)) (
      if eqb_ℤ addr.socket minus_one
      then (let addr' = record addr { socket = net.socket } in
          if ltb_ℤ (sockio_sockopt net.nodelay (pos 1)) (pos 0)
          then some (minus_one, addr', closes net.socket ∷ new_socket calls)
          else connect_to addr' (new_socket calls) addr.hostname)
      else some (pos 0, addr, calls))

  -- The buffer is not sent.
  pub tcp_send_generic : TcpAddr → List ℕ → List Call → Option (ℤ × TcpAddr × List Call)
  unfolding tcp_sock_init
  tcp_send_generic addr buffer calls = elim addr.is_connected [
    | true ↦ some (pos 0, addr, calls)
    | false ↦ do
      (ret, addr', calls') ← tcp_sock_init addr calls
      some (
          if eqb_ℤ ret (pos 0)
          then (pos 0, record addr' { is_connected = true }, calls')
          else (minus_one, addr', calls'))
  ]

  -- The code, and `*socket` where it is set.
  pub tcp_accept_init : Option TcpAddr → List Call → Option (ℤ × Option ℤ × List Call)
  tcp_accept_init none calls = none
  tcp_accept_init (some listen_addr) calls =
      let fd = net.accept in
      some (
        if ltb_ℤ fd (pos 0)
        then (minus_one, none, calls)
        else (if ltb_ℤ (sockio_sockopt net.nodelay (pos 1)) (pos 0)
            then (minus_one, some fd, closes fd ∷ opens fd ∷ calls)
            else (pos 0, some fd, set_nonblock fd (opens fd ∷ calls))))

-- `free` alone.
abbrev pub socket_collection_finalize : Option SocketCollection → List Call → List Call
socket_collection_finalize scp calls = calls

-- The loop around `epoll_wait`. What it returns is not looked at but for an interruption.
pub wait_from : List Returned → Option ℤ
wait_from [] = none
wait_from (returns n ∷ results) = some (pos 0)
wait_from (is_interrupted ∷ results) = wait_from results
wait_from (is_blocked ∷ results) = some (pos 0)
wait_from (is_failed ∷ results) = some (pos 0)

-- The code, and `*outcount`, which stays as it was.
pub socket_collection_testglobal : ℕ → ℤ → List Returned → Option (ℤ × ℤ)
unfolding wait_from
socket_collection_testglobal incount outcount results = elim (incount == 0) [
  | true ↦ some (pos 0, outcount)
  | false ↦ do ret ← wait_from results; some (ret, outcount)
]
