-- ===== src/NamingServer.antt =====
-- naming_server.c: `handle_connection`, one function for each case of its `switch`. A connection is
-- handled from its request to its response without another in between.
pub mod State
pub mod Shape
pub mod Requests
pub mod Reregistered
pub mod Creation
pub mod Deletion
pub mod Copying
pub mod Location
pub mod Endings
pub mod Reachable
pub mod Turns
pub mod EndToEnd
pub mod UseAfterFree
pub mod Threads
pub mod Loop
pub mod Tests
use network_file_system.Base.{
  ℕ, zero, suc, ◌+◌, ◌-◌, Bool, true, false, Option, none, some, List, [], ◌∷◌, ◌++◌, ltb, ◌==◌,
  if◌then◌else◌, length, get_or, set,
}
use network_file_system.Common.{
  FilePath, Message, OperationType, register_ss, list_paths, read_file, write_file, create_file,
  delete_file, get_file_info, copy_file, ack, nack, stop, zero_message, success, file_not_found,
  ss_unavailable, network_error, file_exists, invalid_operation, max_ss, max_accessible_paths,
  max_data_size,
}
use network_file_system.Trie.{trie_insert, trie_search, trie_delete, trie_collect_paths}
use network_file_system.ServerInfo.{
  StorageServerInfo, remove_path_from_ss_info, add_path_to_ss_info,
}
use network_file_system.LruCache.{lru_get, lru_put, lru_remove}
use network_file_system.LruCache.State.{LruCache}
use network_file_system.Sockets.{Contact, failed, answered}
use State.{
  NamingServer, Outside, Outcome, served, dropped, crashed, hangs, after_cache, acked, nacked,
  is_success, server, set_server, contact, get_available_ss_for_creation,
}

-- The loop of REGISTER_SS from path `i` on, by the rounds left: it copies a path into the server's
-- slot and into the tree.
unfoldable pub register_paths : ℕ → ℕ → ℕ → Message → NamingServer → NamingServer
register_paths zero i n msg s = s
register_paths (suc rounds) i n msg s =
    let path = get_or msg.accessible_paths i [] in
    let info = server s n in
    register_paths rounds (i + 1) n msg
      (record (set_server s n
        (record info { accessible_paths = set info.accessible_paths i path })) {
          path_trie_root = trie_insert s.path_trie_root path n;
        })

-- The fields of the new server, but for its paths.
unfoldable pub new_server : Message → StorageServerInfo → StorageServerInfo
new_server msg old = record old {
  ip = msg.ss_ip;
  nm_port = msg.ss_nm_port;
  client_port = msg.ss_client_port;
  num_accessible_paths = msg.num_accessible_paths;
}

-- `case REGISTER_SS`. The loop is not bounded by the ten slots of the two arrays.
unfoldable pub handle_register : Message → NamingServer → Outcome
handle_register msg s =
    if ltb s.num_registered_ss max_ss
    then (if ltb max_accessible_paths msg.num_accessible_paths
        then crashed
        else (let n = s.num_registered_ss in
            let s' =
              register_paths msg.num_accessible_paths 0 n msg
                (set_server s n (new_server msg (server s n))) in
            served acked (record s' { num_registered_ss = n + 1 })))
    else served (nacked ss_unavailable) s

-- The paths, each but the last followed by a line feed.
pub join_lines : List FilePath → List ℕ
join_lines [] = []
join_lines (p ∷ []) = p
join_lines (p ∷ q ∷ ps) = p ++ (10 ∷ join_lines (q ∷ ps))

-- `case LIST_PATHS`. The joined paths are copied into `data` with no test of their length.
unfoldable pub handle_list : Outside → NamingServer → Outcome
handle_list out s =
    if out.has_buffer
    then (let text = join_lines (trie_collect_paths s.path_trie_root) in
        if ltb (length text) max_data_size
        then served (record acked { content = text; data_size = length text }) s
        else crashed)
    else served (nacked network_error) s

-- A path is new on server `i`: it goes into the tree and, if there is room, into the server's list.
unfoldable pub commit_path : ℕ → FilePath → NamingServer → NamingServer
commit_path i path s = record (set_server s i (add_path_to_ss_info (server s i) path)) {
  path_trie_root = trie_insert s.path_trie_root path i;
}

-- `case CREATE_FILE` after the round trip to the chosen server.
unfoldable pub create_finish : ℕ → Message → Contact → NamingServer → Outcome
create_finish i msg (failed code) s = served (nacked code) s
create_finish i msg (answered r) s =
    if is_success r then served acked (commit_path i msg.path s) else served (nacked r.error_code) s

unfoldable pub create_on : Outside → Message → Option ℕ × NamingServer → Outcome
create_on out msg (none, s) = served (nacked ss_unavailable) s
create_on out msg (some i, s) = create_finish i msg (contact out (server s i) msg) s

create_unless : Outside → Message → NamingServer → Option ℕ → Outcome
create_unless out msg s (some _) = served (nacked file_exists) s
create_unless out msg s none = create_on out msg (get_available_ss_for_creation s)

-- `case CREATE_FILE`
unfoldable pub handle_create : Outside → Message → NamingServer → Outcome
unfolding create_unless
handle_create out msg s = create_unless out msg s (trie_search s.path_trie_root msg.path)

-- A path is gone from server `i`: it leaves the tree, the cache and the server's list.
unfoldable pub forget_path : ℕ → FilePath → NamingServer → Outcome
forget_path i path s = after_cache (lru_remove path s.path_lru_cache) λ _ c.
    served acked (record (set_server s i (remove_path_from_ss_info (server s i) path)) {
      path_trie_root = trie_delete s.path_trie_root path;
      path_lru_cache = c;
    })

-- `case DELETE_FILE` after the round trip.
unfoldable pub delete_finish : ℕ → Message → Contact → NamingServer → Outcome
delete_finish i msg (failed code) s = served (nacked code) s
delete_finish i msg (answered r) s =
    if is_success r then forget_path i msg.path s else served (nacked r.error_code) s

unfoldable pub delete_at : Outside → Message → NamingServer → Option ℕ → Outcome
delete_at out msg s none = served (nacked file_not_found) s
delete_at out msg s (some i) = delete_finish i msg (contact out (server s i) msg) s

-- `case DELETE_FILE`
unfoldable pub handle_delete : Outside → Message → NamingServer → Outcome
unfolding delete_at
handle_delete out msg s = delete_at out msg s (trie_search s.path_trie_root msg.path)

-- The request that COPY_FILE sends to the source server.
abbrev pub copy_request : Message → StorageServerInfo → Message
copy_request msg dest = record zero_message {
  operation = copy_file;
  path = msg.path;
  path2 = msg.path2;
  dest_ss_ip = dest.ip;
  dest_ss_client_port = dest.client_port;
}

-- `case COPY_FILE` after the round trip; the flag says that the destination is in the tree already.
unfoldable pub copy_finish : Bool → ℕ → Message → Contact → NamingServer → Outcome
copy_finish exists dest msg (failed code) s = served (nacked code) s
copy_finish exists dest msg (answered r) s =
    if is_success r
    then served acked (if exists then s else commit_path dest msg.path2 s)
    else served (nacked r.error_code) s

unfoldable pub copy_to : Outside → Message → ℕ → Bool → Option ℕ × NamingServer → Outcome
copy_to out msg source exists (none, s) = served (nacked ss_unavailable) s
copy_to out msg source exists (some dest, s) =
    copy_finish exists dest msg (contact out (server s source) (copy_request msg (server s dest))) s

copy_dest : Outside → Message → NamingServer → ℕ → Option ℕ → Outcome
copy_dest out msg s source (some dest) = copy_to out msg source true (some dest, s)
copy_dest out msg s source none = copy_to out msg source false (get_available_ss_for_creation s)

copy_from : Outside → Message → NamingServer → Option ℕ → Outcome
unfolding copy_dest
copy_from out msg s none = served (nacked file_not_found) s
copy_from out msg s (some source) =
    copy_dest out msg s source (trie_search s.path_trie_root msg.path2)

-- `case COPY_FILE`
unfoldable pub handle_copy : Outside → Message → NamingServer → Outcome
unfolding copy_from
handle_copy out msg s = copy_from out msg s (trie_search s.path_trie_root msg.path)

-- The answer that directs a client to a server.
abbrev pub directed : StorageServerInfo → Message
directed info = record acked { ss_ip = info.ip; ss_client_port = info.client_port }

-- The search in the tree, with the entry that it leaves in the cache.
unfoldable pub locate_in_trie : Outside → Message → NamingServer → Option ℕ → Outcome
locate_in_trie out msg s none = served (nacked file_not_found) s
locate_in_trie out msg s (some i) =
    after_cache (lru_put out.fresh msg.path (server s i) s.path_lru_cache)
      λ _ c. served (directed (server s i)) (record s { path_lru_cache = c })

unfoldable pub locate_next : Outside → Message → NamingServer → Option StorageServerInfo → Outcome
unfolding locate_in_trie
locate_next out msg s (some info) = served (directed info) s
locate_next out msg s none = locate_in_trie out msg s (trie_search s.path_trie_root msg.path)

-- `case READ_FILE`, `case WRITE_FILE` and `case GET_FILE_INFO`
unfoldable pub handle_locate : Outside → Message → NamingServer → Outcome
unfolding locate_next
handle_locate out msg s =
    after_cache (lru_get msg.path s.path_lru_cache)
      λ o c. locate_next out msg (record s { path_lru_cache = c }) o

-- The `switch`.
unfoldable pub dispatch : OperationType → Outside → Message → NamingServer → Outcome
dispatch register_ss out msg s = handle_register msg s
dispatch list_paths out msg s = handle_list out s
dispatch create_file out msg s = handle_create out msg s
dispatch delete_file out msg s = handle_delete out msg s
dispatch copy_file out msg s = handle_copy out msg s
dispatch read_file out msg s = handle_locate out msg s
dispatch write_file out msg s = handle_locate out msg s
dispatch get_file_info out msg s = handle_locate out msg s
dispatch _ out msg s = served (nacked invalid_operation) s

-- `handle_connection`, given the message that `receive_message` gets, if it gets one.
unfoldable pub handle_connection : Outside → Option Message → NamingServer → Outcome
handle_connection out none s = dropped s
handle_connection out (some msg) s = dispatch msg.operation out msg s
