-- ===== src/NamingServer/State.antt =====
-- naming_server.c: the global state, what a connection gets from outside, and how it may end.
use network_file_system.Base.{
  ℕ, ◌+◌, ◌%◌, Bool, Option, none, some, List, ltb, if◌then◌else◌, get_or, set, replicate,
}
pub use network_file_system.Common.{acked, nacked, is_ack, is_success}
use network_file_system.Common.{Message, max_ss}
use network_file_system.Sockets.{System, Contact, exchange}
use network_file_system.Trie.{TrieNode, create_trie_node}
use network_file_system.ServerInfo.{StorageServerInfo, zero_info}
use network_file_system.LruCache.{lru_init}
use network_file_system.LruCache.State.{Ptr, LruCache, Run, ok, fault, out_of_fuel}

-- The globals. A `StorageServerInfo *` is an index of `registered_ss`.
pub record NamingServer : Type 0 where
  pub registered_ss : List StorageServerInfo
  pub num_registered_ss : ℕ
  pub current_ss_index : ℕ
  pub path_trie_root : TrieNode
  pub path_lru_cache : LruCache

-- The state in which `main` enters its accept loop.
unfoldable pub start : NamingServer
start = record {
  registered_ss = replicate max_ss zero_info;
  num_registered_ss = 0;
  current_ss_index = 0;
  path_trie_root = create_trie_node;
  path_lru_cache = lru_init;
}

-- What one connection gets from outside: the system calls for sockets, whether the buffer of
-- LIST_PATHS is allocated, and the node of `lru_put`.
pub record Outside : Type 0 where
  pub sys : System
  pub has_buffer : Bool
  pub fresh : Ptr

-- A connection ends with a response, with an access to memory that is not the program's, or not.
pub data Outcome : Type 0 where
  served : Message → NamingServer → Outcome
  dropped : NamingServer → Outcome
  crashed : Outcome
  hangs : Outcome

-- The rest of a handler after a command on the cache.
abbrev pub after_cache : {A : Type 0} → Run A → (A → LruCache → Outcome) → Outcome
after_cache (ok a c) rest = rest a c
after_cache fault rest = crashed
after_cache out_of_fuel rest = hangs

-- `registered_ss[i]`
abbrev pub server : NamingServer → ℕ → StorageServerInfo
server s i = get_or s.registered_ss i zero_info

abbrev pub set_server : NamingServer → ℕ → StorageServerInfo → NamingServer
set_server s i info = record s { registered_ss = set s.registered_ss i info }

-- The round trip to a storage server's port for the naming server.
unfoldable pub contact : Outside → StorageServerInfo → Message → Contact
contact out ss request = exchange out.sys ss.ip ss.nm_port request

-- `get_available_ss_for_creation`: the next server in turn.
unfoldable pub get_available_ss_for_creation : NamingServer → Option ℕ × NamingServer
get_available_ss_for_creation s =
    if ltb 0 s.num_registered_ss
    then (
      some s.current_ss_index,
      record s { current_ss_index = (s.current_ss_index + 1) % s.num_registered_ss },
    )
    else (none, s)
