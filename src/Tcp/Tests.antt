-- ===== src/Tcp/Tests.antt =====
-- A server and a client whose calls succeed or fail (src/io/net/tcp.c, src/io/net/socket-collection.c).
use agilefs.Prelude.{◌≡◌, refl, true, false, none, some, [], ◌∷◌}
use agilefs.Prelude.Int.{pos, negsuc, minus_one, ◌-ℤ◌}
use agilefs.Sockio.{
  returns, is_interrupted, is_failed, sockio_bind_sock, sockio_connect_sock, sockio_sockaddr_init,
  sockio_sockopt,
}
use agilefs.Tcp.{
  TcpAddr, opens, closes, nonblocks, listens, binds, polls, Net, tcp_initialize, tcp_server_init,
  start_listening, tcp_send_generic, tcp_accept_init, socket_collection_testglobal, wait_from,
}
use agilefs.Tcp.Server.{Works, IsOpen, tcp_initialize_ignores_port, tcp_initialize_keeps_socket}
use agilefs.Tcp.Client.{IsTried, IsSettled, tcp_send_generic_hides_failure}

abbrev net : Net
net = record {
  errno = pos 98;
  socket = pos 4;
  nonblock = false;
  bind = is_interrupted ∷ returns 0 ∷ [];
  listen = pos 0;
  nodelay = pos 0;
  aton = 1;
  connect = is_failed ∷ [];
  accept = pos 6;
  epoll_create = pos 5;
  epoll_ctl = pos 0;
  eexist = false;
  gives_addr = true;
  gives_collection = true;
}

-- The port is in use.
abbrev busy : Net
busy = record net { bind = is_failed ∷ [] }

abbrev addr : TcpAddr
addr = record {
  socket = minus_one;
  port = pos 8000;
  hostname = some "192.168.5.74";
  server_port = pos 0;
  is_connected = false;
}

net-Works : Works net
unfolding sockio_bind_sock
net-Works = record {
  socket = refl;
  bind = refl;
  listen = refl;
  epoll_create = refl;
  epoll_ctl = refl;
  gives_collection = refl;
}

ignored_port :
    tcp_initialize net (some addr) 1 []
    ≡ some (
      pos 0,
      some (record { server_socket = pos 4; epfd = pos 5 }),
      polls (pos 5) (pos 4)
          ∷ opens (pos 5)
          ∷ listens (pos 4)
          ∷ binds (pos 4) (pos 0)
          ∷ nonblocks (pos 4)
          ∷ opens (pos 4)
          ∷ [],
    )
ignored_port = tcp_initialize_ignores_port net addr 1 [] refl net-Works

bind_fails : sockio_bind_sock busy.bind ≡ some minus_one
unfolding sockio_bind_sock
bind_fails = refl

tcp_initialize_keeps_socket_example : IsOpen (pos 4) (tcp_initialize busy (some addr) 1 [])
tcp_initialize_keeps_socket_example =
    tcp_initialize_keeps_socket busy addr 1 minus_one [] refl refl bind_fails

-- The error is returned with the socket open.
bind_error :
    tcp_initialize busy (some addr) 1 []
    ≡ some (negsuc 97, none, nonblocks (pos 4) ∷ opens (pos 4) ∷ [])
unfolding tcp_initialize tcp_server_init start_listening sockio_bind_sock ◌-ℤ◌
bind_error = refl

net-IsTried : IsTried net addr "192.168.5.74" minus_one
unfolding sockio_connect_sock sockio_bind_sock sockio_sockaddr_init sockio_sockopt
net-IsTried = record {
  address = refl;
  unbound = refl;
  no_socket = refl;
  nodelay = refl;
  connected = refl;
}

tcp_send_generic_hides_failure_example :
    IsSettled net addr [] (tcp_send_generic net addr (1 ∷ 2 ∷ []) [])
tcp_send_generic_hides_failure_example =
    tcp_send_generic_hides_failure net addr "192.168.5.74" minus_one (1 ∷ 2 ∷ []) [] refl
      net-IsTried

accepted :
    tcp_accept_init net (some addr) []
    ≡ some (pos 0, some (pos 6), nonblocks (pos 6) ∷ opens (pos 6) ∷ [])
unfolding tcp_accept_init sockio_sockopt
accepted = refl

not_accepted :
    tcp_accept_init (record net { nodelay = minus_one }) (some addr) []
    ≡ some (minus_one, some (pos 6), closes (pos 6) ∷ opens (pos 6) ∷ [])
unfolding tcp_accept_init sockio_sockopt
not_accepted = refl

failed_poll :
    socket_collection_testglobal 3 (pos 9) (is_interrupted ∷ is_failed ∷ []) ≡ some (pos 0, pos 9)
unfolding socket_collection_testglobal wait_from
failed_poll = refl
