-- ===== src/Udp/Tests.antt =====
-- The server and the client at small inputs.
use ibverb_prototype.Prelude.{ℕ, ◌≡◌, refl, arith, true, false, List, [], ◌∷◌}
use ibverb_prototype.Udp.{server_loop, served, main, usage, not_started}
use ibverb_prototype.Udp.Server.{Datagram, all_received, lines_of, server_loop-lines_of}

-- An address is shown by its bytes.
shown : List ℕ → List ℕ
shown addr = addr

-- A long datagram, then a shorter one with a zero in it.
two_datagrams : List Datagram
two_datagrams =
    record { addr = 10 ∷ 0 ∷ 0 ∷ 1 ∷ []; bytes = 97 ∷ 98 ∷ 99 ∷ 100 ∷ []; short = omega arith }
    ∷ record { addr = 10 ∷ 0 ∷ 0 ∷ 2 ∷ []; bytes = 120 ∷ 0 ∷ 121 ∷ []; short = omega arith }
    ∷ []

server_loop-lines_of_example :
    server_loop shown (all_received two_datagrams) ≡ served (lines_of shown two_datagrams)
server_loop-lines_of_example = server_loop-lines_of shown two_datagrams

-- Without arguments the program only tells how it is used; without a socket it does not start.
no_arguments :
    main shown 1
      (record {
        handled = true;
        local_found = true;
        socket_made = true;
        is_bound = true;
        destination_found = true;
      })
      []
      []
      []
    ≡ usage
unfolding main
no_arguments = refl

no_socket :
    main shown 2
      (record {
        handled = true;
        local_found = true;
        socket_made = false;
        is_bound = true;
        destination_found = true;
      })
      []
      []
      []
    ≡ not_started
unfolding main
no_socket = refl
