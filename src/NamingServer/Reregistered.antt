-- ===== src/NamingServer/Reregistered.antt =====
-- naming_server.c: a path in the cache that another storage server registers.
use network_file_system.Base.{
  ℕ, zero, suc, ◌+◌, ◌≤◌, ◌<◌, ◌≡◌, refl, subst, ap, ◌∙◌, true, some, Bool-cases, inl, inr, ltb,
}
use network_file_system.Common.{Message, max_ss, max_accessible_paths, acked}
use network_file_system.Trie.{trie_search}
use network_file_system.LruCache.{hash_path, lru_get}
use network_file_system.LruCache.State.{ok}
use network_file_system.LruCache.Shape.{Cell, Cells}
use network_file_system.LruCache.Spec.{Slots, repr, IsValid, live_of_fits}
use network_file_system.LruCache.Get.{cached, get_result, get_refines}
use network_file_system.NamingServer.{
  register_paths, handle_register, handle_locate, locate_next, directed,
}
use network_file_system.NamingServer.State.{
  NamingServer, Outside, Outcome, served, dropped, crashed, hangs,
}
use network_file_system.NamingServer.Shape.{IsRegistry}
use network_file_system.NamingServer.Requests.{listed, registered}

register_paths-cache :
    (r i n : ℕ) (msg : Message) (s : NamingServer)
    → (register_paths r i n msg s).path_lru_cache ≡ s.path_lru_cache
unfolding register_paths
register_paths-cache zero i n msg s = refl
register_paths-cache (suc r) i n msg s = register_paths-cache r (i + 1) n msg _

abbrev KeepsCache : NamingServer → Outcome → Type 0
KeepsCache s (served m s') = s'.path_lru_cache ≡ s.path_lru_cache
KeepsCache s (dropped s') = Unit {0}
KeepsCache s crashed = Unit {0}
KeepsCache s hangs = Unit {0}

handle_register-KeepsCache :
    (msg : Message) (s : NamingServer) → KeepsCache s (handle_register msg s)
unfolding handle_register
handle_register-KeepsCache msg s = elim (Bool-cases (ltb s.num_registered_ss max_ss)) [
  | inr full ↦ rw full refl
  | inl free ↦ elim (Bool-cases (ltb max_accessible_paths msg.num_accessible_paths)) [
    | inl many ↦ rw (free, many) tt
    | inr fits ↦ rw (free, fits) (register_paths-cache msg.num_accessible_paths 0 _ msg _)
  ]
]

hit_served :
    (cs : Cells) (m : Slots) (s : NamingServer) (out : Outside) (msg : Message) (x : Cell)
    → s.path_lru_cache ≡ repr cs m
    → IsValid hash_path cs m
    → cached msg.path cs m ≡ some x
    → (s' : NamingServer) × (handle_locate out msg s ≡ served (directed x.ss_info) s')
unfolding handle_locate locate_next
hit_served cs m s out msg x held valid hit =
    let live = live_of_fits hash_path cs m (hash_path msg.path) (valid.fits (hash_path msg.path)) in
    let got =
      ap (lru_get msg.path) held
      ∙ get_refines msg.path cs m valid.distinct live
      ∙ ap (λ o. ok (get_result o cs).0 (repr (get_result o cs).1 m)) hit in
    (record s { path_lru_cache = repr (get_result (some x) cs).1 m }, rw got refl)

-- Where a storage server registers a path that is in the cache, the tree leads to this server from
-- then on, and a request to locate the path is still directed to the server of the cache's entry: the
-- cache is not told.
pub registered_path_stale :
    (cs : Cells) (m : Slots) (s : NamingServer) (out : Outside) (msg msg' : Message) (x : Cell)
    → IsRegistry s
    → s.num_registered_ss < max_ss
    → msg.num_accessible_paths ≤ max_accessible_paths
    → listed msg.num_accessible_paths 0 msg msg'.path ≡ true
    → s.path_lru_cache ≡ repr cs m
    → IsValid hash_path cs m
    → cached msg'.path cs m ≡ some x
    → (s' s'' : NamingServer) × (handle_register msg s ≡ served acked s')
      × (trie_search s'.path_trie_root msg'.path ≡ some s.num_registered_ss)
      × (handle_locate out msg' s' ≡ served (directed x.ss_info) s'')
registered_path_stale cs m s out msg msg' x v free few registers held valid hit =
    let (s', e, v', n, routes) = registered msg s v free few in
    let kept = subst (KeepsCache s) e (handle_register-KeepsCache msg s) in
    let (s'', answer) = hit_served cs m s' out msg' x (kept ∙ held) valid hit in
    (s', s'', e, routes msg'.path ∙ rw registers refl, answer)
