-- ===== src/NamingServer/Threads/Advance.antt =====
-- naming_server.c: what one step of a thread leaves of the registry.
use network_file_system.Base.{ℕ, ◌≤◌, ◌<◌, ◌≡◌, refl, false, Option, none, some, arith}
use network_file_system.Common.{
  Message, OperationType, register_ss, list_paths, read_file, write_file, create_file, delete_file,
  get_file_info, copy_file, ack, nack, stop,
}
use network_file_system.ServerInfo.{StorageServerInfo}
use network_file_system.LruCache.State.{Run, ok, fault, out_of_fuel}
use network_file_system.NamingServer.{dispatch}
use network_file_system.NamingServer.State.{NamingServer, Outside}
use network_file_system.NamingServer.Shape.{
  IsRegistry, get_available_lem, available_in_use, available_number,
}
use network_file_system.NamingServer.Endings.{
  Ends, with_cache, delete_finish-Ends, copy_finish-Ends, locate_in_trie-Ends, dispatch-Ends,
}
use network_file_system.NamingServer.Threads.{
  Thread, asked, choosing, missed, creating, deleting, copying, choosing_dest, caching, created,
  deleted, copying_to, copied, Progress, goes_on, ends, begin_create, begin_delete, begin_copy,
  begin_locate, begin, choose, find_dest, find_located, advance,
}
use network_file_system.NamingServer.Threads.Grows.{
  Grows, handle_register-Grows, handle_list-Grows, create_finish-Grows, create_finish-Ends,
  delete_finish-Grows, copy_finish-Grows, locate_in_trie-Grows,
}

-- The servers that a thread has found or chosen are in use.
abbrev pub InUse : ℕ → Thread → Type 0
InUse n (asked out msg) = Unit {0}
InUse n (choosing out msg) = Unit {0}
InUse n (missed out msg) = Unit {0}
InUse n (creating out msg i) = i < n
InUse n (deleting out msg i) = i < n
InUse n (copying out msg i) = i < n
InUse n (choosing_dest out msg i) = i < n
InUse n (caching out msg i) = i < n
InUse n (created msg i answer) = i < n
InUse n (deleted msg i answer) = i < n
InUse n (copying_to out msg source exists dest) = dest < n
InUse n (copied msg exists dest answer) = dest < n

pub InUse-grown : (n n' : ℕ) (t : Thread) → n ≤ n' → InUse n t → InUse n' t
InUse-grown n n' (asked out msg) h u = u
InUse-grown n n' (choosing out msg) h u = u
InUse-grown n n' (missed out msg) h u = u
InUse-grown n n' (creating out msg i) h u = omega (arith, h, u)
InUse-grown n n' (deleting out msg i) h u = omega (arith, h, u)
InUse-grown n n' (copying out msg i) h u = omega (arith, h, u)
InUse-grown n n' (choosing_dest out msg i) h u = omega (arith, h, u)
InUse-grown n n' (caching out msg i) h u = omega (arith, h, u)
InUse-grown n n' (created msg i answer) h u = omega (arith, h, u)
InUse-grown n n' (deleted msg i answer) h u = omega (arith, h, u)
InUse-grown n n' (copying_to out msg source exists dest) h u = omega (arith, h, u)
InUse-grown n n' (copied msg exists dest answer) h u = omega (arith, h, u)

-- A step leaves a well-formed registry with no fewer servers, and the thread as it should be.
abbrev pub Keeps : ℕ → Progress → Type 0
Keeps n (goes_on t s) = IsRegistry s × (n ≤ s.num_registered_ss) × InUse s.num_registered_ss t
Keeps n (ends o) = Ends o × Grows n o

begin_create-Keeps :
    (out : Outside) (msg : Message) (s : NamingServer) (o : Option ℕ)
    → IsRegistry s
    → Keeps s.num_registered_ss (begin_create out msg s o)
unfolding begin_create
begin_create-Keeps out msg s none v = (v, omega arith, tt)
begin_create-Keeps out msg s (some i) v = (v, omega arith)

begin_delete-Keeps :
    (out : Outside) (msg : Message) (s : NamingServer) (o : Option ℕ)
    → IsRegistry s
    → ((i : ℕ) → o ≡ some i → i < s.num_registered_ss)
    → Keeps s.num_registered_ss (begin_delete out msg s o)
unfolding begin_delete
begin_delete-Keeps out msg s none v h = (v, omega arith)
begin_delete-Keeps out msg s (some i) v h = (v, omega arith, h i refl)

begin_copy-Keeps :
    (out : Outside) (msg : Message) (s : NamingServer) (o : Option ℕ)
    → IsRegistry s
    → ((i : ℕ) → o ≡ some i → i < s.num_registered_ss)
    → Keeps s.num_registered_ss (begin_copy out msg s o)
unfolding begin_copy
begin_copy-Keeps out msg s none v h = (v, omega arith)
begin_copy-Keeps out msg s (some i) v h = (v, omega arith, h i refl)

begin_locate-Keeps :
    (out : Outside) (msg : Message) (s : NamingServer) (r : Run (Option StorageServerInfo))
    → IsRegistry s
    → Keeps s.num_registered_ss (begin_locate out msg s r)
unfolding begin_locate
begin_locate-Keeps out msg s (ok (some info) c) v = (with_cache s c v, omega arith)
begin_locate-Keeps out msg s (ok none c) v = (with_cache s c v, omega arith, tt)
begin_locate-Keeps out msg s fault v = (tt, tt)
begin_locate-Keeps out msg s out_of_fuel v = (tt, tt)

begin-Keeps :
    (operation : OperationType) (out : Outside) (msg : Message) (s : NamingServer)
    → IsRegistry s
    → Keeps s.num_registered_ss (begin operation out msg s)
unfolding begin dispatch
begin-Keeps create_file out msg s v = begin_create-Keeps out msg s _ v
begin-Keeps delete_file out msg s v = begin_delete-Keeps out msg s _ v (v.routes msg.path)
begin-Keeps copy_file out msg s v = begin_copy-Keeps out msg s _ v (v.routes msg.path)
begin-Keeps read_file out msg s v = begin_locate-Keeps out msg s _ v
begin-Keeps write_file out msg s v = begin_locate-Keeps out msg s _ v
begin-Keeps get_file_info out msg s v = begin_locate-Keeps out msg s _ v
begin-Keeps register_ss out msg s v =
    (dispatch-Ends register_ss out msg s v, handle_register-Grows msg s v)
begin-Keeps list_paths out msg s v = (dispatch-Ends list_paths out msg s v, handle_list-Grows out s)
begin-Keeps ack out msg s v = (v, omega arith)
begin-Keeps nack out msg s v = (v, omega arith)
begin-Keeps stop out msg s v = (v, omega arith)

choose-Keeps :
    (next : ℕ → Thread) (s : NamingServer) (o : Option ℕ) (s' : NamingServer)
    → IsRegistry s'
    → s'.num_registered_ss ≡ s.num_registered_ss
    → ((i : ℕ) → o ≡ some i → InUse s'.num_registered_ss (next i))
    → Keeps s.num_registered_ss (choose next (o, s'))
unfolding choose
choose-Keeps next s none s' v e h = (v, omega (arith, e))
choose-Keeps next s (some i) s' v e h = (v, omega (arith, e), h i refl)

find_dest-Keeps :
    (out : Outside) (msg : Message) (source : ℕ) (s : NamingServer) (o : Option ℕ)
    → IsRegistry s
    → source < s.num_registered_ss
    → ((i : ℕ) → o ≡ some i → i < s.num_registered_ss)
    → Keeps s.num_registered_ss (find_dest out msg source s o)
unfolding find_dest
find_dest-Keeps out msg source s none v u h = (v, omega arith, u)
find_dest-Keeps out msg source s (some i) v u h = (v, omega arith, h i refl)

find_located-Keeps :
    (out : Outside) (msg : Message) (s : NamingServer) (o : Option ℕ)
    → IsRegistry s
    → ((i : ℕ) → o ≡ some i → i < s.num_registered_ss)
    → Keeps s.num_registered_ss (find_located out msg s o)
unfolding find_located
find_located-Keeps out msg s none v h = (v, omega arith)
find_located-Keeps out msg s (some i) v h = (v, omega arith, h i refl)

pub advance-Keeps :
    (t : Thread) (s : NamingServer)
    → IsRegistry s
    → InUse s.num_registered_ss t
    → Keeps s.num_registered_ss (advance t s)
unfolding advance
advance-Keeps (asked out msg) s v u = begin-Keeps msg.operation out msg s v
advance-Keeps (choosing out msg) s v u =
    choose-Keeps (creating out msg) s _ _ (get_available_lem s v) (available_number s)
      (λ i e. rw (available_number s) (available_in_use s i v e))
advance-Keeps (missed out msg) s v u = find_located-Keeps out msg s _ v (v.routes msg.path)
advance-Keeps (creating out msg i) s v u = (v, omega arith, u)
advance-Keeps (deleting out msg i) s v u = (v, omega arith, u)
advance-Keeps (copying out msg i) s v u = find_dest-Keeps out msg i s _ v u (v.routes msg.path2)
advance-Keeps (choosing_dest out msg source) s v u =
    choose-Keeps (copying_to out msg source false) s _ _ (get_available_lem s v)
      (available_number s) (λ i e. rw (available_number s) (available_in_use s i v e))
advance-Keeps (caching out msg i) s v u =
    (locate_in_trie-Ends out msg s (some i) v, locate_in_trie-Grows out msg s i)
advance-Keeps (created msg i answer) s v u =
    (create_finish-Ends i msg answer s v u, create_finish-Grows i msg answer s)
advance-Keeps (deleted msg i answer) s v u =
    (delete_finish-Ends i msg answer s v u, delete_finish-Grows i msg answer s)
advance-Keeps (copying_to out msg source exists dest) s v u = (v, omega arith, u)
advance-Keeps (copied msg exists dest answer) s v u =
    (copy_finish-Ends exists dest msg answer s v u, copy_finish-Grows exists dest msg answer s)
