-- ===== src/EchoServer/Tests.antt =====
-- A client on descriptor 5 that has sent three bytes, and a datagram of two bytes.
use notes_coding.Base.{◌≡◌, refl, arith, true, some, none, [], ◌∷◌, ◌++◌, replicate}
use notes_coding.EchoServer.{Server, echo_tcp, echo_udp}
use notes_coding.EchoServer.Tcp.{Echoed, echo_tcp-Echoed}
use notes_coding.EchoServer.Udp.{Replied, echo_udp-Replied}

abbrev server : Server
server = record {
  conn = λ fd. record {
    incoming = 10 ∷ 20 ∷ 30 ∷ [];
    ended = true;
    alive = true;
    room = 4096;
    sent = [];
  };
  datagrams = (9, 104 ∷ 105 ∷ []) ∷ (8, 106 ∷ []) ∷ [];
  replies = [];
  watched = [];
  closes = [];
}

abbrev echoed : Server
echoed = elim (echo_tcp 5 5 server) [ none ↦ server | some g ↦ g ]

sent_back : ((echoed.conn 5).sent ≡ 10 ∷ 20 ∷ 30 ∷ []) × (echoed.closes ≡ 5 ∷ 5 ∷ [])
unfolding echo_tcp
sent_back = (refl, refl)

echo_tcp-Echoed_example :
    (g : Server) × (echo_tcp 5 5 server ≡ some g) × Echoed server g 5 (5 ∷ 5 ∷ [])
echo_tcp-Echoed_example = echo_tcp-Echoed 5 5 (10 ∷ 20 ∷ 30 ∷ []) server refl refl (omega arith)

echo_udp-Replied_example :
    Replied server (echo_udp server) 9 (104 ∷ 105 ∷ [] ++ replicate 1021 0) ((8, 106 ∷ []) ∷ [])
echo_udp-Replied_example =
    echo_udp-Replied 9 104 (105 ∷ []) ((8, 106 ∷ []) ∷ []) server refl (omega arith)
