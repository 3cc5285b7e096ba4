-- ===== src/StorageServer/Startup.antt =====
-- storage_server.c: `get_local_ip`, and `main` up to its loop: the arguments, the registration with
-- the naming server, and the two listening sockets.
pub mod Registration
mod Tests
use network_file_system.Base.{
  ℕ, zero, suc, ◌+◌, Bool, true, false, Option, none, some, List, [], ◌∷◌, ◌++◌, ltb, if◌then◌else◌,
  length, get_or,
}
use network_file_system.Common.{
  FilePath, Message, register_ss, zero_message, is_success, max_accessible_paths, max_path_len,
}
use network_file_system.Sockets.{System, Contact, failed, answered, exchange, open_port}

-- What `get_local_ip` asks: a socket for datagrams, its connection to 8.8.8.8, and the name of its
-- own end, as `inet_ntop` prints it.
pub record Lookup : Type 0 where
  pub socket : Option ℕ
  pub connect : ℕ → Bool
  pub getsockname : ℕ → Option (List ℕ)

-- "127.0.0.1"
abbrev pub localhost : List ℕ
localhost = 49 ∷ 50 ∷ 55 ∷ 46 ∷ 48 ∷ 46 ∷ 48 ∷ 46 ∷ 49 ∷ []

own_name : Option (List ℕ) → List ℕ
own_name none = localhost
own_name (some ip) = ip

local_ip_on : Lookup → Option ℕ → List ℕ
unfolding own_name
local_ip_on lookup none = localhost
local_ip_on lookup (some sock) =
    if lookup.connect sock then own_name (lookup.getsockname sock) else localhost

pub get_local_ip : Lookup → List ℕ
unfolding local_ip_on
get_local_ip lookup = local_ip_on lookup lookup.socket

-- The loop over the arguments from the fifth on, given the paths so far. There is no result where
-- `strcpy` writes past a path's array.
pub collect_paths : List FilePath → List FilePath → Option (List FilePath)
collect_paths [] paths = some paths
collect_paths (a ∷ arguments) paths =
    let rest = collect_paths arguments (paths ++ (a ∷ [])) in
    if ltb (length paths) max_accessible_paths
    then (if ltb (length a) max_path_len then rest else none)
    else some paths

-- The arguments, from the address of the naming server on.
pub record Arguments : Type 0 where
  pub nm_ip : List ℕ
  pub nm_port : List ℕ
  pub client_port : List ℕ
  pub nm_service_port : List ℕ
  pub paths : List FilePath

-- `argv` from its second entry on, where `argc` is 6 or more.
pub arguments_of : List (List ℕ) → Option Arguments
arguments_of (a ∷ b ∷ c ∷ d ∷ p ∷ ps) =
    some (record { nm_ip = a; nm_port = b; client_port = c; nm_service_port = d; paths = p ∷ ps })
arguments_of _ = none

-- The message to the naming server; `atoi` reads a port.
abbrev pub register_msg : (List ℕ → ℕ) → List ℕ → Arguments → List FilePath → Message
register_msg atoi ss_ip arguments paths = record zero_message {
  operation = register_ss;
  ss_ip = ss_ip;
  ss_nm_port = atoi arguments.nm_service_port;
  ss_client_port = atoi arguments.client_port;
  num_accessible_paths = length paths;
  accessible_paths = paths;
}

-- `main` prints the usage, writes past an array, returns a failure, or enters its loop.
pub data Start : Type 0 where
  usage_printed overflowed stopped serving : Start

-- The sockets for the registration, for the naming server and for clients.
pub record Sockets : Type 0 where
  pub registering : System
  pub for_nm : System
  pub for_clients : System

pub after_registering : (List ℕ → ℕ) → Sockets → Arguments → Contact → Start
after_registering atoi sockets arguments (failed _) = stopped
after_registering atoi sockets arguments (answered r) =
    if is_success r
    then (if open_port sockets.for_nm (atoi arguments.nm_service_port)
        then (if open_port sockets.for_clients (atoi arguments.client_port)
            then serving
            else stopped)
        else stopped)
    else stopped

pub register_with : (List ℕ → ℕ) → List ℕ → Sockets → Arguments → Option (List FilePath) → Start
unfolding after_registering
register_with atoi ss_ip sockets arguments none = overflowed
register_with atoi ss_ip sockets arguments (some paths) = after_registering atoi sockets arguments (
    exchange sockets.registering arguments.nm_ip (atoi arguments.nm_port)
      (register_msg atoi ss_ip arguments paths))

pub start_with : (List ℕ → ℕ) → Lookup → Sockets → Option Arguments → Start
unfolding register_with
start_with atoi lookup sockets none = usage_printed
start_with atoi lookup sockets (some arguments) =
    register_with atoi (get_local_ip lookup) sockets arguments (collect_paths arguments.paths [])

-- `main`, given `argv` from its second entry on.
pub start_up : (List ℕ → ℕ) → Lookup → Sockets → List (List ℕ) → Start
unfolding start_with
start_up atoi lookup sockets argv = start_with atoi lookup sockets (arguments_of argv)
