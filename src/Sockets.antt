-- ===== src/Sockets.antt =====
-- utils.c: the wrappers of the socket calls. The calls themselves are a parameter.
mod Tests
use network_file_system.Base.{
  ℕ, Bool, true, false, Option, none, some, List, [], ◌∷◌, ◌==◌, ◌≡◌, refl, arith, if◌then◌else◌,
}
use network_file_system.Common.{Message, network_error, ss_unavailable}

-- What `recv` comes to: an error, a closed connection, or bytes, which are taken for a message.
pub data Received : Type 0 where
  recv_failed recv_closed : Received
  recv_got : Message → Received

-- `socket` with the descriptor that it gives; `inet_pton` on an address; `connect` of a descriptor
-- to an address and port; `bind` of a descriptor to a port, and `listen` on it; `send` of a message on a descriptor; and what `recv` gives on a connection
-- to an address and port on which that message was sent.
pub record System : Type 0 where
  pub socket : Option ℕ
  pub inet_pton : List ℕ → Bool
  pub connect : ℕ → List ℕ → ℕ → Bool
  pub bind : ℕ → ℕ → Bool
  pub listen : ℕ → Bool
  pub send : ℕ → Message → Bool
  pub recv : List ℕ → ℕ → Message → Received

-- The return codes 0, -1 and 1.
pub data Status : Type 0 where
  zero_status minus_one one_status : Status

abbrev is_zero : Status → Bool
is_zero zero_status = true
is_zero _ = false

-- A descriptor, or none for the negative result.
unfoldable pub create_socket : System → Option ℕ
create_socket sys = sys.socket

unfoldable pub bind_socket : System → ℕ → ℕ → Status
bind_socket sys sockfd port = if sys.bind sockfd port then zero_status else minus_one

unfoldable pub listen_socket : System → ℕ → Status
listen_socket sys sockfd = if sys.listen sockfd then zero_status else minus_one

-- What `accept` gives: a descriptor, or none for the negative result, which is reported.
unfoldable pub accept_connection : Option ℕ → Option ℕ
accept_connection none = none
accept_connection (some client_sockfd) = some client_sockfd

unfoldable pub connect_to_server : System → ℕ → List ℕ → ℕ → Status
connect_to_server sys sockfd ip port =
    if sys.inet_pton ip
    then (if sys.connect sockfd ip port then zero_status else minus_one)
    else minus_one

unfoldable pub send_message : System → ℕ → Message → Status
send_message sys sockfd msg = if sys.send sockfd msg then zero_status else minus_one

-- The code, and the message if it is 0.
unfoldable pub receive_message : Received → Status × Option Message
receive_message recv_failed = (minus_one, none)
receive_message recv_closed = (one_status, none)
receive_message (recv_got msg) = (zero_status, some msg)

-- A round trip: a code, or the reply.
pub data Contact : Type 0 where
  failed : ℕ → Contact
  answered : Message → Contact

received : Status × Option Message → Contact
received (zero_status, some r) = answered r
received (_, _) = failed network_error

-- `close` of a descriptor.
unfoldable pub close_one : ℕ → List ℕ → List ℕ
close_one d [] = []
close_one d (e ∷ es) = if e == d then es else e ∷ close_one d es

-- Every branch closes the socket.
sent : System → List ℕ → ℕ → Message → ℕ → List ℕ → Status → Contact × List ℕ
unfolding received close_one
sent sys ip port request sockfd fds zero_status =
    (received (receive_message (sys.recv ip port request)), close_one sockfd fds)
sent sys ip port request sockfd fds _ = (failed network_error, close_one sockfd fds)

connected : System → List ℕ → ℕ → Message → ℕ → List ℕ → Status → Contact × List ℕ
unfolding sent close_one
connected sys ip port request sockfd fds zero_status =
    sent sys ip port request sockfd fds (send_message sys sockfd request)
connected sys ip port request sockfd fds _ = (failed ss_unavailable, close_one sockfd fds)

on_socket : System → List ℕ → ℕ → Message → List ℕ → Option ℕ → Contact × List ℕ
unfolding connected
on_socket sys ip port request fds none = (failed network_error, fds)
on_socket sys ip port request fds (some sockfd) =
    connected sys ip port request sockfd (sockfd ∷ fds) (connect_to_server sys sockfd ip port)

-- `create_socket`, `connect_to_server`, `send_message`, `receive_message` and `close` in this order,
-- with the codes that the naming server's CREATE_FILE, DELETE_FILE and COPY_FILE and the storage
-- server's COPY_FILE give for the failure of each; and the descriptors that are open, before and
-- afterwards.
unfoldable pub exchange_open : System → List ℕ → ℕ → Message → List ℕ → Contact × List ℕ
unfolding on_socket
exchange_open sys ip port request fds = on_socket sys ip port request fds (create_socket sys)

-- The same without the descriptors.
unfoldable pub exchange : System → List ℕ → ℕ → Message → Contact
unfolding exchange_open
exchange sys ip port request = (exchange_open sys ip port request []).0

opened_port : System → ℕ → ℕ → Status → Bool
opened_port sys port sockfd zero_status = is_zero (listen_socket sys sockfd)
opened_port sys port sockfd _ = false

port_on : System → ℕ → Option ℕ → Bool
unfolding opened_port
port_on sys port none = false
port_on sys port (some sockfd) = opened_port sys port sockfd (bind_socket sys sockfd port)

-- `create_socket`, `bind_socket` and `listen_socket` in this order, as the naming server's `main`
-- does it once and the storage server's twice; each failure ends the program.
unfoldable pub open_port : System → ℕ → Bool
unfolding port_on
open_port sys port = port_on sys port (create_socket sys)

reached_on : System → List ℕ → ℕ → Option ℕ → Bool
reached_on sys ip port none = false
reached_on sys ip port (some sockfd) = is_zero (connect_to_server sys sockfd ip port)

-- `create_socket` and `connect_to_server`: the connection is there.
unfoldable pub reaches : System → List ℕ → ℕ → Bool
unfolding reached_on
reaches sys ip port = reached_on sys ip port (create_socket sys)

close_one_self : (d : ℕ) (fds : List ℕ) → close_one d (d ∷ fds) ≡ fds
unfolding close_one
close_one_self d fds = ground arith

sent-closes :
    (sys : System) (ip : List ℕ) (port : ℕ) (request : Message) (d : ℕ) (fds : List ℕ) (st : Status)
    → (sent sys ip port request d (d ∷ fds) st).1 ≡ fds
unfolding sent
sent-closes sys ip port request d fds zero_status = close_one_self d fds
sent-closes sys ip port request d fds minus_one = close_one_self d fds
sent-closes sys ip port request d fds one_status = close_one_self d fds

connected-closes :
    (sys : System) (ip : List ℕ) (port : ℕ) (request : Message) (d : ℕ) (fds : List ℕ) (st : Status)
    → (connected sys ip port request d (d ∷ fds) st).1 ≡ fds
unfolding connected
connected-closes sys ip port request d fds zero_status =
    sent-closes sys ip port request d fds (send_message sys d request)
connected-closes sys ip port request d fds minus_one = close_one_self d fds
connected-closes sys ip port request d fds one_status = close_one_self d fds

on_socket-closes :
    (sys : System) (ip : List ℕ) (port : ℕ) (request : Message) (fds : List ℕ) (o : Option ℕ)
    → (on_socket sys ip port request fds o).1 ≡ fds
unfolding on_socket
on_socket-closes sys ip port request fds none = refl
on_socket-closes sys ip port request fds (some d) =
    connected-closes sys ip port request d fds (connect_to_server sys d ip port)

-- A round trip to another server leaves open the descriptors that were open before it, and no
-- other, whichever of its calls fails.
pub exchange_closes :
    (sys : System) (ip : List ℕ) (port : ℕ) (request : Message) (fds : List ℕ)
    → (exchange_open sys ip port request fds).1 ≡ fds
unfolding exchange_open
exchange_closes sys ip port request fds =
    on_socket-closes sys ip port request fds (create_socket sys)
