-- ===== src/Tcp/Server.antt =====
-- The set-up of the server's socket (src/io/net/tcp.c).
use agilefs.Prelude.{
  ◌≡◌, ap, ◌∙◌, arith, Bool-cases, inl, inr, ℕ, ◌==◌, bit_and, if◌then◌else◌, Bool, true, false,
  Option, none, some, List, [], ◌∷◌,
}
use agilefs.Prelude.Int.{ℤ, pos, minus_one, ltb_ℤ, eqb_ℤ, eqb_ℤ_refl}
use agilefs.Sockio.{sockio_bind_sock}
use agilefs.Tcp.{
  TcpAddr, SocketCollection, Call, opens, closes, nonblocks, listens, binds, connects, polls, Net,
  socket_collection_init, set_nonblock, zero_addr, start_listening, tcp_server_init, collected,
  tcp_initialize,
}

-- The descriptor is open after the calls.
abbrev pub still_open : ℤ → List Call → Bool
still_open fd [] = false
still_open fd (opens x ∷ calls) = if eqb_ℤ x fd then true else still_open fd calls
still_open fd (closes x ∷ calls) = if eqb_ℤ x fd then false else still_open fd calls
still_open fd (nonblocks x ∷ calls) = still_open fd calls
still_open fd (listens x ∷ calls) = still_open fd calls
still_open fd (binds x p ∷ calls) = still_open fd calls
still_open fd (connects x p ∷ calls) = still_open fd calls
still_open fd (polls x y ∷ calls) = still_open fd calls

-- Every call of `tcp_initialize` on a server succeeds.
pub record Works (net : Net) : Type 0 where
  pub socket : ltb_ℤ net.socket (pos 0) ≡ false
  pub bind : sockio_bind_sock net.bind ≡ some (pos 0)
  pub listen : eqb_ℤ net.listen (pos 0) ≡ true
  pub epoll_create : ltb_ℤ net.epoll_create (pos 0) ≡ false
  pub epoll_ctl : ltb_ℤ net.epoll_ctl (pos 0) ≡ false
  pub gives_collection : net.gives_collection ≡ true

init-eq :
    (net : Net) (ret : ℤ) (calls : List Call)
    → ltb_ℤ net.socket (pos 0) ≡ false
    → sockio_bind_sock net.bind ≡ some ret
    → tcp_server_init net calls
      ≡ some (
          start_listening net ret
            (record (zero_addr net) { socket = net.socket })
            (set_nonblock net net.socket (opens net.socket ∷ calls)))
unfolding tcp_server_init
init-eq net ret calls e f = rw (tcp_server_init, e, f)

listening-eq :
    (net : Net) (addr : TcpAddr) (calls : List Call)
    → eqb_ℤ net.listen (pos 0) ≡ true
    → start_listening net (pos 0) addr calls
      ≡ (pos 0, addr, listens addr.socket ∷ binds addr.socket addr.port ∷ calls)
unfolding start_listening
listening-eq net addr calls e = rw (start_listening, e)

collection-eq :
    (net : Net) (fd : ℤ) (calls : List Call)
    → Works net
    → ltb_ℤ fd (pos 0) ≡ false
    → socket_collection_init net fd calls ≡ (
      some (record { server_socket = fd; epfd = net.epoll_create }),
      polls net.epoll_create fd ∷ opens net.epoll_create ∷ calls,
    )
unfolding socket_collection_init
collection-eq net fd calls w e =
    let server : ltb_ℤ minus_one fd ≡ true = ground arith in
    rw (socket_collection_init, w.gives_collection, w.epoll_create, w.epoll_ctl, server)

-- The branch of a server that has an address.
initialize-eq :
    (net : Net) (addr addr' : TcpAddr) (flags : ℕ) (ret : ℤ) (calls calls' : List Call)
    → (bit_and flags 1 == 0) ≡ false
    → tcp_server_init net calls ≡ some (ret, addr', calls')
    → tcp_initialize net (some addr) flags calls
      ≡ some (
          if ltb_ℤ ret (pos 0)
          then (ret, none, calls')
          else collected net (socket_collection_init net addr'.socket calls'))
unfolding tcp_initialize
initialize-eq net addr addr' flags ret calls calls' f e = rw (tcp_initialize, f, e)

-- Where every call succeeds, `tcp_initialize` of a server returns 0, and the server listens at port 0,
-- which is any port, whatever port the address asks for.
pub tcp_initialize_ignores_port :
    (net : Net) (addr : TcpAddr) (flags : ℕ) (calls : List Call)
    → (bit_and flags 1 == 0) ≡ false
    → Works net
    → tcp_initialize net (some addr) flags calls
      ≡ some (
        pos 0,
        some (record { server_socket = net.socket; epfd = net.epoll_create }),
        polls net.epoll_create net.socket
            ∷ opens net.epoll_create
            ∷ listens net.socket
            ∷ binds net.socket (pos 0)
            ∷ set_nonblock net net.socket (opens net.socket ∷ calls),
      )
tcp_initialize_ignores_port net addr flags calls f w =
    let addr' = record (zero_addr net) { socket = net.socket } in
    let before = set_nonblock net net.socket (opens net.socket ∷ calls) in
    let after = listens net.socket ∷ binds net.socket (pos 0) ∷ before in
    initialize-eq net addr addr' flags (pos 0) calls after f
      (init-eq net (pos 0) calls w.socket w.bind ∙ ap some (listening-eq net addr' before w.listen))
    ∙ ap (λ c. some (collected net c)) (collection-eq net net.socket after w w.socket)

collected_open :
    (net : Net) (fd server_socket : ℤ) (calls : List Call)
    → still_open fd calls ≡ true
    → still_open fd (collected net (socket_collection_init net server_socket calls)).2 ≡ true
unfolding socket_collection_init
collected_open net fd server_socket calls h = ground arith

start_listening_open :
    (net : Net) (fd ret : ℤ) (addr : TcpAddr) (calls : List Call)
    → still_open fd calls ≡ true
    → still_open fd (start_listening net ret addr calls).2 ≡ true
unfolding start_listening
start_listening_open net fd ret addr calls h = ground arith

opened_open :
    (net : Net) (fd : ℤ) (calls : List Call)
    → still_open fd (set_nonblock net fd (opens fd ∷ calls)) ≡ true
opened_open net fd calls = elim (Bool-cases net.nonblock) [
  | inl e ↦ rw (e, eqb_ℤ_refl fd)
  | inr e ↦ rw (e, eqb_ℤ_refl fd)
]

-- A code, and the descriptor still open.
pub record IsOpen (fd : ℤ) (m : Option (ℤ × Option SocketCollection × List Call)) : Type 0 where
  pub code : ℤ
  pub scp : Option SocketCollection
  pub calls : List Call
  pub returned : m ≡ some (code, scp, calls)
  pub still : still_open fd calls ≡ true

-- Once `tcp_initialize` of a server has made a socket, it returns with that socket open, also where a
-- later call fails and it returns an error.
pub tcp_initialize_keeps_socket :
    (net : Net) (addr : TcpAddr) (flags : ℕ) (ret : ℤ) (calls : List Call)
    → (bit_and flags 1 == 0) ≡ false
    → ltb_ℤ net.socket (pos 0) ≡ false
    → sockio_bind_sock net.bind ≡ some ret
    → IsOpen net.socket (tcp_initialize net (some addr) flags calls)
tcp_initialize_keeps_socket net addr flags ret calls f e b =
    let addr' = record (zero_addr net) { socket = net.socket } in
    let before = set_nonblock net net.socket (opens net.socket ∷ calls) in
    let (code, addr'', after) = start_listening net ret addr' before in
    let open_after : still_open net.socket after ≡ true =
      start_listening_open net net.socket ret addr' before (opened_open net net.socket calls) in
    let step = initialize-eq net addr addr'' flags code calls after f (init-eq net ret calls e b) in
    elim (Bool-cases (ltb_ℤ code (pos 0))) [
      | inl failed ↦ record {
        code = code;
        scp = none;
        calls = after;
        returned = step ∙ rw failed;
        still = open_after;
      }
      | inr bound ↦
          let (code', scp, calls') =
            collected net (socket_collection_init net addr''.socket after) in
          record {
            code = code';
            scp = scp;
            calls = calls';
            returned = step ∙ rw bound;
            still = collected_open net net.socket addr''.socket after open_after;
          }
    ]
