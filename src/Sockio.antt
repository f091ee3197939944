-- ===== src/Sockio.antt =====
-- src/io/net/sockio.c: the calls on sockets that start again when they are interrupted. The results
-- of the successive system calls are a list; `none` is that the function has not returned when the
-- list ends. `EAGAIN` and `EWOULDBLOCK` are one code, and the socket is non-blocking (the `assert`).
pub mod Laws
mod Tests
use agilefs.Prelude.{
  ℕ, zero, suc, ◌+◌, ◌-◌, ◌==◌, if◌then◌else◌, Bool, true, false, Option, none, some, List, [], ◌∷◌,
  ◌++◌, length, take,
}
use agilefs.Prelude.Int.{ℤ, pos, minus_one, ltb_ℤ, eqb_ℤ}

-- What `recv` does: the bytes that wait, of which it takes at most as many as it is asked for.
pub data Received : Type 0 where
  waiting : List ℕ → Received
  interrupted would_block failed : Received

-- The loop of `sockio_nbrecv`, with `comp` bytes left to receive: the code, and the bytes in `buf`.
pub nbrecv_from : ℕ → ℕ → List ℕ → List Received → Option (ℤ × List ℕ)
nbrecv_from len zero buf results = some (pos (len - 0), buf)
nbrecv_from len (suc comp) buf [] = none
nbrecv_from len (suc comp) buf (waiting bytes ∷ results) =
    let got = take (suc comp) bytes in
    let later = nbrecv_from len (suc comp - length got) (buf ++ got) results in
    if length got == 0 then some (minus_one, buf) else later
nbrecv_from len (suc comp) buf (interrupted ∷ results) = nbrecv_from len (suc comp) buf results
nbrecv_from len (suc comp) buf (would_block ∷ results) = some (pos (len - suc comp), buf)
nbrecv_from len (suc comp) buf (failed ∷ results) = some (minus_one, buf)

pub sockio_nbrecv : ℕ → List Received → Option (ℤ × List ℕ)
unfolding nbrecv_from
sockio_nbrecv len results = nbrecv_from len len [] results

-- What `send` does: how many bytes it takes.
pub data Sent : Type 0 where
  takes : ℕ → Sent
  no_send send_interrupted send_failed : Sent

-- The loop of `sockio_nbsend`, with the bytes that went out. `ret = 0 || …` assigns: `ret` is 1 where
-- the call would block, and 0 otherwise, so `comp` and `buf` stay.
pub nbsend_from : ℕ → ℕ → List ℕ → List ℕ → List Sent → Option (ℤ × List ℕ)
nbsend_from len zero buf wire results = some (pos (len - 0), wire)
nbsend_from len (suc comp) buf wire [] = none
nbsend_from len (suc comp) buf wire (takes n ∷ results) =
    nbsend_from len (suc comp) buf (wire ++ take n (take (suc comp) buf)) results
nbsend_from len (suc comp) buf wire (no_send ∷ results) = some (pos (len - suc comp), wire)
nbsend_from len (suc comp) buf wire (send_interrupted ∷ results) =
    nbsend_from len (suc comp) buf wire results
nbsend_from len (suc comp) buf wire (send_failed ∷ results) =
    nbsend_from len (suc comp) buf wire results

pub sockio_nbsend : List ℕ → List Sent → Option (ℤ × List ℕ)
unfolding nbsend_from
sockio_nbsend buf results = nbsend_from (length buf) (length buf) buf [] results

-- What `bind`, `connect`, `readv` or `writev` returns, with `errno` where that is negative.
pub data Returned : Type 0 where
  returns : ℕ → Returned
  is_interrupted is_blocked is_failed : Returned

-- `sockio_bind_sock` and the loop of `sockio_connect_sock`.
unfoldable pub sockio_bind_sock : List Returned → Option ℤ
sockio_bind_sock [] = none
sockio_bind_sock (returns n ∷ results) = some (pos 0)
sockio_bind_sock (is_interrupted ∷ results) = sockio_bind_sock results
sockio_bind_sock (is_blocked ∷ results) = some minus_one
sockio_bind_sock (is_failed ∷ results) = some minus_one

-- `address` is what `sockio_sockaddr_init` returns.
unfoldable pub sockio_connect_sock : ℤ → List Returned → Option ℤ
unfolding sockio_bind_sock
sockio_connect_sock address results =
    if ltb_ℤ address (pos 0) then some address else sockio_bind_sock results

-- What `inet_aton` returns for the name, or for `127.0.0.1` without one.
unfoldable pub sockio_sockaddr_init : ℕ → ℤ
sockio_sockaddr_init ret = if ret == 0 then minus_one else pos 0

pub sockio_nbvector : List Returned → Option ℤ
sockio_nbvector [] = none
sockio_nbvector (returns n ∷ results) = some (pos n)
sockio_nbvector (is_interrupted ∷ results) = sockio_nbvector results
sockio_nbvector (is_blocked ∷ results) = some (pos 0)
sockio_nbvector (is_failed ∷ results) = some minus_one

-- `sockio_get_sockopt` reads `val`; `sockio_set_tcpopt` and `sockio_set_sockopt` set it.
unfoldable pub sockio_sockopt : ℤ → ℤ → ℤ
sockio_sockopt ret val = if eqb_ℤ ret minus_one then minus_one else val
