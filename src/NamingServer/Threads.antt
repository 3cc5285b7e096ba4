-- ===== src/NamingServer/Threads.antt =====
-- naming_server.c: `handle_connection` in several threads. A step of a thread is one critical section
-- or one call between two: a search in the tree, the choice of a server, the round trip to it, the
-- changes under `ss_list_mutex`, a call of the cache, which locks itself.
pub mod Alone
pub mod Grows
pub mod Advance
pub mod Registry
pub mod Race
pub mod Stale
mod Tests
use network_file_system.Base.{
  ℕ, ◌≡◌, ◌≢◌, Bool, true, false, Option, none, some, List, [], ◌∷◌, if◌then◌else◌, Becomes, Ends,
}
use network_file_system.Common.{
  FilePath, Message, OperationType, register_ss, read_file, write_file, create_file, delete_file,
  get_file_info, copy_file, acked, nacked, file_exists, file_not_found, ss_unavailable,
}
use network_file_system.Sockets.{System, Contact, open_port}
use network_file_system.Trie.{trie_search}
use network_file_system.ServerInfo.{StorageServerInfo}
use network_file_system.LruCache.{lru_get}
use network_file_system.LruCache.State.{LruCache, Run, ok, fault, out_of_fuel}
use network_file_system.NamingServer.{
  create_finish, delete_finish, copy_request, copy_finish, directed, locate_in_trie, dispatch,
}
use network_file_system.NamingServer.State.{
  NamingServer, start, Outside, Outcome, served, crashed, hangs, server, contact,
  get_available_ss_for_creation,
}

-- Where a thread is in `handle_connection`: it has its request; CREATE_FILE has not found the path,
-- has its server, and has its answer; DELETE_FILE has found the path, and has its answer; COPY_FILE
-- has found the source, has not found the destination, has both servers and whether the destination
-- was found, and has its answer; a request to locate is not in the cache, and has found the path.
pub data Thread : Type 0 where
  asked choosing missed : Outside → Message → Thread
  creating deleting copying choosing_dest caching : Outside → Message → ℕ → Thread
  created deleted : Message → ℕ → Contact → Thread
  copying_to : Outside → Message → ℕ → Bool → ℕ → Thread
  copied : Message → Bool → ℕ → Contact → Thread

pub data Progress : Type 0 where
  goes_on : Thread → NamingServer → Progress
  ends : Outcome → Progress

pub begin_create : Outside → Message → NamingServer → Option ℕ → Progress
begin_create out msg s (some _) = ends (served (nacked file_exists) s)
begin_create out msg s none = goes_on (choosing out msg) s

pub begin_delete : Outside → Message → NamingServer → Option ℕ → Progress
begin_delete out msg s none = ends (served (nacked file_not_found) s)
begin_delete out msg s (some i) = goes_on (deleting out msg i) s

pub begin_copy : Outside → Message → NamingServer → Option ℕ → Progress
begin_copy out msg s none = ends (served (nacked file_not_found) s)
begin_copy out msg s (some i) = goes_on (copying out msg i) s

pub begin_locate : Outside → Message → NamingServer → Run (Option StorageServerInfo) → Progress
begin_locate out msg s (ok (some info) c) =
    ends (served (directed info) (record s { path_lru_cache = c }))
begin_locate out msg s (ok none c) = goes_on (missed out msg) (record s { path_lru_cache = c })
begin_locate out msg s fault = ends crashed
begin_locate out msg s out_of_fuel = ends hangs

-- The first step; a request without a step in between ends with it.
-- REGISTER_SS is not begun, as `Step` says.
pub begin : OperationType → Outside → Message → NamingServer → Progress
unfolding begin_create begin_delete begin_copy begin_locate
begin create_file out msg s = begin_create out msg s (trie_search s.path_trie_root msg.path)
begin delete_file out msg s = begin_delete out msg s (trie_search s.path_trie_root msg.path)
begin copy_file out msg s = begin_copy out msg s (trie_search s.path_trie_root msg.path)
begin read_file out msg s = begin_locate out msg s (lru_get msg.path s.path_lru_cache)
begin write_file out msg s = begin_locate out msg s (lru_get msg.path s.path_lru_cache)
begin get_file_info out msg s = begin_locate out msg s (lru_get msg.path s.path_lru_cache)
begin operation out msg s = ends (dispatch operation out msg s)

pub choose : (ℕ → Thread) → Option ℕ × NamingServer → Progress
choose next (none, s) = ends (served (nacked ss_unavailable) s)
choose next (some i, s) = goes_on (next i) s

pub find_dest : Outside → Message → ℕ → NamingServer → Option ℕ → Progress
find_dest out msg source s (some dest) = goes_on (copying_to out msg source true dest) s
find_dest out msg source s none = goes_on (choosing_dest out msg source) s

pub find_located : Outside → Message → NamingServer → Option ℕ → Progress
find_located out msg s none = ends (served (nacked file_not_found) s)
find_located out msg s (some i) = goes_on (caching out msg i) s

-- The next step of a thread.
pub advance : Thread → NamingServer → Progress
unfolding begin choose find_dest find_located
advance (asked out msg) s = begin msg.operation out msg s
advance (choosing out msg) s = choose (creating out msg) (get_available_ss_for_creation s)
advance (creating out msg i) s = goes_on (created msg i (contact out (server s i) msg)) s
advance (created msg i answer) s = ends (create_finish i msg answer s)
advance (deleting out msg i) s = goes_on (deleted msg i (contact out (server s i) msg)) s
advance (deleted msg i answer) s = ends (delete_finish i msg answer s)
advance (copying out msg source) s =
    find_dest out msg source s (trie_search s.path_trie_root msg.path2)
advance (choosing_dest out msg source) s =
    choose (copying_to out msg source false) (get_available_ss_for_creation s)
advance (copying_to out msg source exists dest) s =
    goes_on
      (copied msg exists dest (contact out (server s source) (copy_request msg (server s dest)))) s
advance (copied msg exists dest answer) s = ends (copy_finish exists dest msg answer s)
advance (missed out msg) s = find_located out msg s (trie_search s.path_trie_root msg.path)
advance (caching out msg i) s = ends (locate_in_trie out msg s (some i))

-- The naming server, its threads, and the responses it has sent, the last one first.
pub record Running : Type 0 where
  pub state : NamingServer
  pub threads : List Thread
  pub responses : List Message

-- A request arrives in a new thread, a thread goes on, or it responds. REGISTER_SS has no thread here:
-- the paths that it puts into the tree one after the other are found by searches that take no mutex,
-- before its server is counted.
pub data Step (r : Running) : Running → Type 0 where
  arrives :
      (out : Outside) (msg : Message)
      → msg.operation ≢ register_ss
      → Step r (record r { threads = asked out msg ∷ r.threads })
  moves :
      {t t' : Thread} {s : NamingServer} {ts : List Thread}
      → Becomes t t' r.threads ts
      → advance t r.state ≡ goes_on t' s
      → Step r (record { state = s; threads = ts; responses = r.responses })
  responds :
      {t : Thread} {m : Message} {s : NamingServer} {ts : List Thread}
      → Ends t r.threads ts
      → advance t r.state ≡ ends (served m s)
      → Step r (record { state = s; threads = ts; responses = m ∷ r.responses })

pub data Steps : Running → Running → Type 0 where
  no_step : {r : Running} → Steps r r
  after : {r r' r'' : Running} → Steps r r' → Step r' r'' → Steps r r''

-- The naming server without threads.
abbrev pub alone_at : NamingServer → Running
alone_at s = record { state = s; threads = []; responses = [] }

-- `main` at its loop.
abbrev pub ready : Running
ready = alone_at start

-- `main` prints the usage, returns a failure, or enters its loop.
pub data Main : Type 0 where
  usage_printed stopped : Main
  accepting : Running → Main

-- Given `argv` from its second entry on; `atoi` reads the port.
pub main : (List ℕ → ℕ) → System → List (List ℕ) → Main
main atoi sys (port ∷ []) = if open_port sys (atoi port) then accepting ready else stopped
main atoi sys _ = usage_printed
