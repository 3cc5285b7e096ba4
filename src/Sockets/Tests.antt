-- ===== src/Sockets/Tests.antt =====
-- A round trip on a system whose descriptor 7 cannot be connected, with descriptor 3 open.
use network_file_system.Base.{◌≡◌, refl, true, false, some, [], ◌∷◌}
use network_file_system.Common.{zero_message, ss_unavailable}
use network_file_system.Sockets.{
  System, recv_failed, failed, create_socket, connect_to_server, exchange_open, exchange_closes,
  close_one,
}

abbrev unconnected : System
unconnected = record {
  socket = some 7;
  inet_pton = λ ip. true;
  connect = λ d ip port. false;
  bind = λ d port. true;
  listen = λ d. true;
  send = λ d m. true;
  recv = λ ip port m. recv_failed;
}

refused_trip :
    exchange_open unconnected [] 9000 zero_message (3 ∷ []) ≡ (failed ss_unavailable, 3 ∷ [])
unfolding exchange_open create_socket connect_to_server close_one
refused_trip = refl

exchange_closes_example : (exchange_open unconnected [] 9000 zero_message (3 ∷ [])).1 ≡ 3 ∷ []
exchange_closes_example = exchange_closes unconnected [] 9000 zero_message (3 ∷ [])
