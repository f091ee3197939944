-- ===== src/Sockio/Tests.antt =====
-- Transfers of src/io/net/sockio.c.
use agilefs.Prelude.{ℕ, ◌≡◌, ◌≤◌, refl, some, List, [], ◌∷◌, ◌++◌, length, replicate}
use agilefs.Prelude.Int.{pos}
use agilefs.Sockio.{
  Received, waiting, interrupted, nbrecv_from, sockio_nbrecv, Sent, takes, no_send, send_failed,
  nbsend_from, sockio_nbsend,
}
use agilefs.Prelude.Int.{minus_one}
use agilefs.Sockio.{
  returns, is_interrupted, is_blocked, sockio_bind_sock, sockio_connect_sock, sockio_sockaddr_init,
  sockio_nbvector, sockio_sockopt,
}
use agilefs.Sockio.Laws.{
  stream, copies, all_taken, sockio_nbrecv-prefix, sockio_nbsend_returns_zero,
  sockio_nbsend_repeats,
}

abbrev arriving : List Received
arriving = waiting (1 ∷ 2 ∷ []) ∷ interrupted ∷ waiting (3 ∷ 4 ∷ 5 ∷ []) ∷ []

abbrev one_two_three : List ℕ
one_two_three = 1 ∷ 2 ∷ 3 ∷ []

three_received : sockio_nbrecv 3 arriving ≡ some (pos 3, 1 ∷ 2 ∷ 3 ∷ [])
unfolding sockio_nbrecv nbrecv_from
three_received = refl

sockio_nbrecv-prefix_example :
    (rest : List ℕ) × (stream arriving ≡ one_two_three ++ rest)
    × (length one_two_three ≡ 3)
    × (3 ≤ 3)
sockio_nbrecv-prefix_example = sockio_nbrecv-prefix 3 3 one_two_three arriving three_received

abbrev sending : List Sent
sending = takes 2 ∷ send_failed ∷ takes 1 ∷ no_send ∷ []

sent_again : sockio_nbsend (7 ∷ 8 ∷ []) sending ≡ some (pos 0, 7 ∷ 8 ∷ 7 ∷ [])
unfolding sockio_nbsend nbsend_from
sent_again = refl

sockio_nbsend_returns_zero_example : pos 0 ≡ pos 0
sockio_nbsend_returns_zero_example =
    sockio_nbsend_returns_zero (7 ∷ 8 ∷ []) (7 ∷ 8 ∷ 7 ∷ []) sending (pos 0) (λ e. cc) sent_again

sent_until_blocked :
    sockio_nbsend (7 ∷ 8 ∷ []) (replicate 3 (all_taken (7 ∷ 8 ∷ [])) ++ no_send ∷ [])
    ≡ some (pos 0, copies 3 (7 ∷ 8 ∷ []))
sent_until_blocked = sockio_nbsend_repeats 7 (8 ∷ []) 3

connected : sockio_connect_sock (pos 0) (is_interrupted ∷ returns 0 ∷ []) ≡ some (pos 0)
unfolding sockio_connect_sock sockio_bind_sock
connected = refl

no_address : sockio_connect_sock (sockio_sockaddr_init 0) [] ≡ some minus_one
unfolding sockio_connect_sock sockio_sockaddr_init
no_address = refl

vector_blocked : sockio_nbvector (is_interrupted ∷ is_blocked ∷ []) ≡ some (pos 0)
unfolding sockio_nbvector
vector_blocked = refl

option_value : sockio_sockopt (pos 0) (pos 9) ≡ pos 9
unfolding sockio_sockopt
option_value = refl
