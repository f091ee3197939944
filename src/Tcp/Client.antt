-- ===== src/Tcp/Client.antt =====
-- The socket of a client (src/io/net/tcp.c).
use Prim.Native.String.{String}
use agilefs.Prelude.{◌≡◌, refl, ap, ◌∙◌, ℕ, if◌then◌else◌, true, false, Option, some, List, ◌∷◌}
use agilefs.Prelude.Int.{ℤ, pos, minus_one, ltb_ℤ, eqb_ℤ}
use agilefs.Sockio.{sockio_connect_sock, sockio_sockaddr_init, sockio_sockopt}
use agilefs.Tcp.{
  TcpAddr, Call, connects, Net, new_socket, connect_to, tcp_sock_init, tcp_send_generic,
}

-- `connect` is over, and its result is `ret`.
pub record IsTried (net : Net) (addr : TcpAddr) (name : String) (ret : ℤ) : Type 0 where
  pub address : addr.hostname ≡ some name
  pub unbound : eqb_ℤ addr.server_port (pos 0) ≡ true
  pub no_socket : eqb_ℤ addr.socket minus_one ≡ true
  pub nodelay : ltb_ℤ (sockio_sockopt net.nodelay (pos 1)) (pos 0) ≡ false
  pub connected : sockio_connect_sock (sockio_sockaddr_init net.aton) net.connect ≡ some ret

connect-eq :
    (net : Net) (addr : TcpAddr) (calls : List Call) (name : String) (ret : ℤ)
    → sockio_connect_sock (sockio_sockaddr_init net.aton) net.connect ≡ some ret
    → connect_to net addr calls (some name)
      ≡ some (
        pos 0,
        record addr { is_connected = true },
        if eqb_ℤ ret (pos 0) then connects addr.socket addr.port ∷ calls else calls,
      )
unfolding connect_to
connect-eq net addr calls name ret e = rw (connect_to, e)

sock-eq :
    (net : Net) (addr : TcpAddr) (calls : List Call)
    → eqb_ℤ addr.server_port (pos 0) ≡ true
    → eqb_ℤ addr.socket minus_one ≡ true
    → ltb_ℤ (sockio_sockopt net.nodelay (pos 1)) (pos 0) ≡ false
    → tcp_sock_init net addr calls
      ≡ connect_to net (record addr { socket = net.socket }) (new_socket net calls) addr.hostname
unfolding tcp_sock_init
sock-eq net addr calls a b c = rw (tcp_sock_init, a, b, c)

send-eq :
    (net : Net) (addr addr' : TcpAddr) (buffer : List ℕ) (calls calls' : List Call)
    → addr.is_connected ≡ false
    → tcp_sock_init net addr calls ≡ some (pos 0, addr', calls')
    → tcp_send_generic net addr buffer calls
      ≡ some (pos 0, record addr' { is_connected = true }, calls')
unfolding tcp_send_generic
send-eq net addr addr' buffer calls calls' a e = rw (tcp_send_generic, a, e)

later-eq :
    (net : Net) (addr : TcpAddr) (buffer : List ℕ) (calls : List Call)
    → tcp_send_generic net (record addr { is_connected = true }) buffer calls
      ≡ some (pos 0, record addr { is_connected = true }, calls)
unfolding tcp_send_generic
later-eq net addr buffer calls = refl

-- The address counts as connected, and no later call does anything about it.
pub record IsSettled (net : Net) (addr : TcpAddr) (calls : List Call)
    (m : Option (ℤ × TcpAddr × List Call)) : Type 0 where
  pub settled : TcpAddr
  pub made : List Call
  pub returned : m ≡ some (pos 0, settled, made)
  pub later :
      (net' : Net) (buffer : List ℕ) (calls' : List Call)
      → tcp_send_generic net' settled buffer calls' ≡ some (pos 0, settled, calls')

-- For an address without a socket, `tcp_send_generic` returns 0 whether or not `connect` has
-- succeeded, and each later call for that address returns 0 and makes no call on a socket.
pub tcp_send_generic_hides_failure :
    (net : Net) (addr : TcpAddr) (name : String) (ret : ℤ) (buffer : List ℕ) (calls : List Call)
    → addr.is_connected ≡ false
    → IsTried net addr name ret
    → IsSettled net addr calls (tcp_send_generic net addr buffer calls)
tcp_send_generic_hides_failure net addr name ret buffer calls a t =
    let addr' = record addr { socket = net.socket; is_connected = true } in
    let start = new_socket net calls in
    let made = if eqb_ℤ ret (pos 0) then connects net.socket addr.port ∷ start else start in
    record {
      settled = addr';
      made = made;
      returned = send-eq net addr addr' buffer calls made a (
          sock-eq net addr calls t.unbound t.no_socket t.nodelay
          ∙ ap (connect_to net (record addr { socket = net.socket }) start) t.address
          ∙ connect-eq net (record addr { socket = net.socket }) start name ret t.connected);
      later = λ net' buffer' calls'. later-eq net' addr' buffer' calls';
    }
