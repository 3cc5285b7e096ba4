-- ===== src/ServerInfo.antt =====
-- trie.h's `StorageServerInfo`, and `remove_path_from_ss_info` of naming_server.c.
-- `accessible_paths` is the whole array of ten slots; the first `num_accessible_paths` are in use.
use network_file_system.Base.{
  ℕ, zero, suc, ◌+◌, ◌-◌, List, [], ltb, if◌then◌else◌, same, get_or, set, replicate,
}
use network_file_system.Common.{FilePath, max_accessible_paths}
pub mod Erase

pub record StorageServerInfo : Type 0 where
  pub ip : List ℕ
  pub nm_port : ℕ
  pub client_port : ℕ
  pub accessible_paths : List FilePath
  pub num_accessible_paths : ℕ

-- A slot of the static array before it is used.
abbrev pub zero_info : StorageServerInfo
zero_info = record {
  ip = [];
  nm_port = 0;
  client_port = 0;
  accessible_paths = replicate max_accessible_paths [];
  num_accessible_paths = 0;
}

-- `for (j = i; j < num - 1; j++) paths[j] = paths[j + 1]`, by the rounds left.
pub shift_left : ℕ → ℕ → List FilePath → List FilePath
shift_left zero j paths = paths
shift_left (suc rounds) j paths = shift_left rounds (j + 1) (set paths j (get_or paths (j + 1) []))

-- The search for the path from slot `i` on, by the rounds left.
pub remove_loop : ℕ → ℕ → FilePath → StorageServerInfo → StorageServerInfo
unfolding shift_left
remove_loop zero i path s = s
remove_loop (suc rounds) i path s =
    let rest = remove_loop rounds (i + 1) path s in
    if same (get_or s.accessible_paths i []) path
    then record s {
      accessible_paths = shift_left (s.num_accessible_paths - 1 - i) i s.accessible_paths;
      num_accessible_paths = s.num_accessible_paths - 1;
    }
    else rest

unfoldable pub remove_path_from_ss_info : StorageServerInfo → FilePath → StorageServerInfo
unfolding remove_loop
remove_path_from_ss_info s path = remove_loop s.num_accessible_paths 0 path s

-- The append that CREATE_FILE and COPY_FILE make, with its guard.
unfoldable pub add_path_to_ss_info : StorageServerInfo → FilePath → StorageServerInfo
add_path_to_ss_info s path =
    if ltb s.num_accessible_paths max_accessible_paths
    then record s {
      accessible_paths = set s.accessible_paths s.num_accessible_paths path;
      num_accessible_paths = s.num_accessible_paths + 1;
    }
    else s
