-- ===== src/NamingServer/Location.antt =====
-- naming_server.c: READ_FILE, WRITE_FILE and GET_FILE_INFO against the routes of the tree.
use network_file_system.Base.{
  ℕ, ◌≡◌, refl, sym, subst, false, inl, inr, Option, none, some, [], ◌∷◌, arith, Bool-cases, ◌==◌,
  same, length,
}
use network_file_system.Common.{FilePath, Message, file_not_found}
use network_file_system.Trie.{trie_search}
use network_file_system.ServerInfo.{StorageServerInfo}
use network_file_system.LruCache.{hash_path}
use network_file_system.LruCache.State.{LruCache, Ptr, null}
use network_file_system.LruCache.Shape.{Cell, Cells, has}
use network_file_system.LruCache.Spec.{
  Slots, repr, IsValid, live_of_fits, find, without, suffix_from,
}
use network_file_system.LruCache.Get.{cached, find-path, get_result, get_refines}
use network_file_system.LruCache.Evict.{evict_spec, evicted, last_cell}
use network_file_system.LruCache.Put.{put_spec, put_refines, add_spec, new_cell}
use network_file_system.LruCache.Invariant.{get_spec-IsValid, put_spec-IsValid}
use network_file_system.NamingServer.{handle_locate, locate_next, locate_in_trie, directed}
use network_file_system.NamingServer.State.{NamingServer, Outside, Outcome, served, nacked, server}

-- What a client is told: the address of the server that the tree leads to.
abbrev pub route_answer : NamingServer → Option ℕ → Message
route_answer s none = nacked file_not_found
route_answer s (some i) = directed (server s i)

-- A cached entry tells what the tree would tell.
abbrev pub Routed : NamingServer → Cell → Type 0
Routed s c =
    (i : ℕ) × (trie_search s.path_trie_root c.path ≡ some i)
    × (directed c.ss_info ≡ directed (server s i))

-- All of them do.
abbrev pub IsCoherent : NamingServer → Cells → Type 0
IsCoherent s [] = Unit {0}
IsCoherent s (c ∷ cs) = Routed s c × IsCoherent s cs

find-Routed :
    (s : NamingServer) (path : FilePath) (cs : Cells) (x : Cell)
    → IsCoherent s cs
    → find path cs ≡ some x
    → Routed s x
find-Routed s path [] x h f = cc
find-Routed s path (c ∷ cs) x h f = elim (Bool-cases (same c.path path)) [
  | inl hit ↦ let e : c ≡ x = ground arith in subst (Routed s) e h.0
  | inr miss ↦ find-Routed s path cs x h.1 (ground arith)
]

suffix-IsCoherent :
    (s : NamingServer) (p : Ptr) (cs : Cells) → IsCoherent s cs → IsCoherent s (suffix_from p cs)
suffix-IsCoherent s p [] h = h
suffix-IsCoherent s p (c ∷ cs) h = elim (Bool-cases (c.ptr == p)) [
  | inl hit ↦ rw hit h
  | inr miss ↦ rw miss (suffix-IsCoherent s p cs h.1)
]

without-IsCoherent :
    (s : NamingServer) (p : Ptr) (cs : Cells) → IsCoherent s cs → IsCoherent s (without p cs)
without-IsCoherent s p [] h = h
without-IsCoherent s p (c ∷ cs) h = elim (Bool-cases (c.ptr == p)) [
  | inl hit ↦ rw hit h.1
  | inr miss ↦ rw miss (h.0, without-IsCoherent s p cs h.1)
]

evicted-IsCoherent :
    (s : NamingServer) (o : Option Cell) (cs : Cells) (m : Slots)
    → IsCoherent s cs
    → IsCoherent s (evicted o cs m).0
evicted-IsCoherent s none cs m h = h
evicted-IsCoherent s (some x) cs m h = without-IsCoherent s x.ptr cs h

evict-IsCoherent :
    (s : NamingServer) (cs : Cells) (m : Slots) → IsCoherent s cs → IsCoherent s (evict_spec cs m).0
evict-IsCoherent s cs m h = elim (Bool-cases (length cs == 100)) [
  | inl full ↦ rw full (evicted-IsCoherent s (last_cell cs) cs m h)
  | inr room ↦ rw room h
]

add-IsCoherent :
    (s : NamingServer) (fresh : Ptr) (path : FilePath) (info : StorageServerInfo) (cs : Cells)
    (m : Slots)
    → Routed s (new_cell fresh path info)
    → IsCoherent s cs
    → IsCoherent s (add_spec fresh path info (cs, m)).0
add-IsCoherent s fresh path info cs m r h = elim (Bool-cases (fresh == null)) [
  | inl failed ↦ rw failed h
  | inr given ↦ rw given (r, h)
]

-- The cache is the cells' and well formed, its entries tell what the tree would, and the node that
-- `malloc` gives is NULL or holds no entry.
pub record IsReady (out : Outside) (cs : Cells) (m : Slots) (s : NamingServer) : Type 0 where
  pub held : s.path_lru_cache ≡ repr cs m
  pub valid : IsValid hash_path cs m
  pub coherent : IsCoherent s cs
  pub unused : has out.fresh (evict_spec cs m).0 ≡ false

-- The request is served with that answer, and only the cache is another, which still is well formed
-- and still tells what the tree would.
abbrev pub LocateEnds : NamingServer → Message → Outcome → Type 0
LocateEnds s answer o =
    (cs' : Cells) × (m' : Slots) × (o ≡ served answer (record s { path_lru_cache = repr cs' m' }))
    × IsValid hash_path cs' m'
    × IsCoherent (record s { path_lru_cache = repr cs' m' }) cs'

same_routes :
    (s : NamingServer) (c : LruCache) (cs : Cells)
    → IsCoherent s cs
    → IsCoherent (record s { path_lru_cache = c }) cs
same_routes s c [] h = h
same_routes s c (x ∷ cs) h = (h.0, same_routes s c cs h.1)

-- The route of a path in the tree, looked up and put into a cache without it.
trie_locate :
    (out : Outside) (msg : Message) (cs : Cells) (m : Slots) (s : NamingServer) (o : Option ℕ)
    → IsReady out cs m s
    → cached msg.path cs m ≡ none
    → trie_search s.path_trie_root msg.path ≡ o
    → LocateEnds s
        (route_answer s o)
        (locate_in_trie out msg (record s { path_lru_cache = repr cs m }) o)
unfolding locate_in_trie
trie_locate out msg cs m s none v f e =
    (cs, m, refl, v.valid, same_routes s (repr cs m) cs v.coherent)
trie_locate out msg cs m s (some i) v f e =
    let info = server s i in
    let live =
      live_of_fits hash_path cs m (hash_path msg.path) (v.valid.fits (hash_path msg.path)) in
    let next = put_spec out.fresh msg.path info cs m in
    let known =
      add-IsCoherent s out.fresh msg.path info (evict_spec cs m).0 (evict_spec cs m).1 (i, e, refl)
        (evict-IsCoherent s cs m v.coherent) in
    let coherent : IsCoherent s next.0 = rw f known in
    rw (put_refines out.fresh msg.path info cs m v.valid.distinct live v.unused) (
      next.0,
      next.1,
      refl,
      put_spec-IsValid out.fresh msg.path info cs m v.valid v.unused,
      same_routes s (repr next.0 next.1) next.0 coherent,
    )

locate_result :
    (out : Outside) (msg : Message) (cs : Cells) (m : Slots) (s : NamingServer) (o : Option Cell)
    → IsReady out cs m s
    → cached msg.path cs m ≡ o
    → LocateEnds s (route_answer s (trie_search s.path_trie_root msg.path)) (
        locate_next out msg
          (record s { path_lru_cache = repr (get_result o cs).1 m })
          (get_result o cs).0)
unfolding locate_next
locate_result out msg cs m s none v f =
    trie_locate out msg cs m s (trie_search s.path_trie_root msg.path) v f refl
locate_result out msg cs m s (some x) v f =
    let entry =
      find-Routed s msg.path (suffix_from (m (hash_path msg.path)) cs) x
        (suffix-IsCoherent s (m (hash_path msg.path)) cs v.coherent) f in
    let (i, e, told) = entry in
    let same_path : x.path ≡ msg.path =
      find-path msg.path (suffix_from (m (hash_path msg.path)) cs) x f in
    let there : trie_search s.path_trie_root msg.path ≡ some i = rw (sym same_path) e in
    let c' = x ∷ without x.ptr cs in
    rw (there, told)
      (
        c',
        m,
        refl,
        rw f at (get_spec-IsValid msg.path cs m v.valid),
        same_routes s (repr c' m) c' (entry, without-IsCoherent s x.ptr cs v.coherent),
      )

-- READ_FILE, WRITE_FILE and GET_FILE_INFO are answered as the tree says, with the address of the
-- server that the path leads to or with FILE_NOT_FOUND, whether or not the cache has the path, where
-- the cache is well formed and its entries tell what the tree would. Only the cache changes, which
-- stays as it was in that respect.
pub located :
    (out : Outside) (msg : Message) (cs : Cells) (m : Slots) (s : NamingServer)
    → IsReady out cs m s
    → LocateEnds s
        (route_answer s (trie_search s.path_trie_root msg.path))
        (handle_locate out msg s)
unfolding handle_locate
located out msg cs m s v =
    let live =
      live_of_fits hash_path cs m (hash_path msg.path) (v.valid.fits (hash_path msg.path)) in
    rw (v.held, get_refines msg.path cs m v.valid.distinct live)
      (locate_result out msg cs m s (cached msg.path cs m) v refl)
