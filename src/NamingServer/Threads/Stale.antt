-- ===== src/NamingServer/Threads/Stale.antt =====
-- naming_server.c: a READ_FILE that has found its path while a DELETE_FILE takes it away.
use network_file_system.Base.{
  ℕ, ◌≡◌, ◌≢◌, refl, sym, ap, ◌∙◌, false, none, some, [], ◌∷◌, same_refl, here, there, first,
}
use network_file_system.Common.{Message, read_file, delete_file, acked}
use network_file_system.Sockets.{answered}
use network_file_system.Trie.{trie_search, trie_delete}
use network_file_system.Trie.Lookup.{search-delete}
use network_file_system.ServerInfo.{remove_path_from_ss_info}
use network_file_system.LruCache.{hash_path, lru_get, lru_put, lru_remove}
use network_file_system.LruCache.State.{Ptr, null, ok}
use network_file_system.LruCache.Shape.{Cells, has}
use network_file_system.LruCache.Spec.{Slots, repr, IsValid, live_of_fits}
use network_file_system.LruCache.Get.{cached, get_result, get_refines}
use network_file_system.LruCache.Evict.{evict_spec}
use network_file_system.LruCache.Put.{put_spec, put_refines}
use network_file_system.LruCache.Remove.{remove_result, remove_refines}
use network_file_system.LruCache.Answers.{put-get}
use network_file_system.NamingServer.{
  delete_finish, forget_path, locate_in_trie, handle_locate, locate_next, directed,
}
use network_file_system.NamingServer.State.{
  NamingServer, Outside, served, server, set_server, contact,
}
use network_file_system.NamingServer.Threads.{
  asked, missed, caching, deleting, deleted, goes_on, ends, begin, begin_locate, begin_delete,
  find_located, advance, Running, arrives, alone_at, moves, responds, Steps, no_step, after,
}

-- The server without the path, and the tree without it.
abbrev pub forgotten : ℕ → Message → NamingServer → NamingServer
forgotten i msg s = record (set_server s i (remove_path_from_ss_info (server s i) msg.path)) {
  path_trie_root = trie_delete s.path_trie_root msg.path;
}

abbrev pub cached_again : Ptr → ℕ → Message → Cells → Slots → NamingServer → NamingServer
cached_again fresh i msg cs m s = record s {
  path_lru_cache =
      repr (put_spec fresh msg.path (server s i) cs m).0
        (put_spec fresh msg.path (server s i) cs m).1;
}

module _ (cs : Cells) (m : Slots) (s : NamingServer) (held : s.path_lru_cache ≡ repr cs m)
    (valid : IsValid hash_path cs m) where
  misses :
      (out : Outside) (msg : Message)
      → msg.operation ≡ read_file
      → cached msg.path cs m ≡ none
      → advance (asked out msg) s ≡ goes_on (missed out msg) s
  unfolding advance begin begin_locate
  misses out msg is_read miss =
      let live =
        live_of_fits hash_path cs m (hash_path msg.path) (valid.fits (hash_path msg.path)) in
      let got : lru_get msg.path s.path_lru_cache ≡ ok none s.path_lru_cache =
        ap (lru_get msg.path) held
        ∙ get_refines msg.path cs m valid.distinct live
        ∙ ap (λ o. ok (get_result o cs).0 (repr (get_result o cs).1 m)) miss
        ∙ ap (ok none) (sym held) in
      ap (λ o. begin o out msg s) is_read ∙ ap (begin_locate out msg s) got

  finds :
      (out : Outside) (msg : Message) (i : ℕ)
      → trie_search s.path_trie_root msg.path ≡ some i
      → advance (missed out msg) s ≡ goes_on (caching out msg i) s
  unfolding advance find_located
  finds out msg i e = ap (find_located out msg s) e

  finds_to_delete :
      (out : Outside) (msg : Message) (i : ℕ)
      → msg.operation ≡ delete_file
      → trie_search s.path_trie_root msg.path ≡ some i
      → advance (asked out msg) s ≡ goes_on (deleting out msg i) s
  unfolding advance begin begin_delete
  finds_to_delete out msg i is_delete e =
      ap (λ o. begin o out msg s) is_delete ∙ ap (begin_delete out msg s) e

  contacts :
      (out : Outside) (msg : Message) (i : ℕ)
      → contact out (server s i) msg ≡ answered acked
      → advance (deleting out msg i) s ≡ goes_on (deleted msg i (answered acked)) s
  unfolding advance
  contacts out msg i e = ap (λ c. goes_on (deleted msg i c) s) e

  deletes :
      (msg : Message) (i : ℕ)
      → cached msg.path cs m ≡ none
      → advance (deleted msg i (answered acked)) s ≡ ends (served acked (forgotten i msg s))
  unfolding advance delete_finish forget_path
  deletes msg i miss =
      let live =
        live_of_fits hash_path cs m (hash_path msg.path) (valid.fits (hash_path msg.path)) in
      let gone : lru_remove msg.path s.path_lru_cache ≡ ok tt s.path_lru_cache =
        ap (lru_remove msg.path) held
        ∙ remove_refines msg.path cs m valid.distinct live
        ∙ ap
            (λ o. ok tt (
              repr (remove_result (hash_path msg.path) o cs m).0
                (remove_result (hash_path msg.path) o cs m).1))
            miss
        ∙ ap (ok tt) (sym held) in
      rw gone refl

  caches :
      (out : Outside) (msg : Message) (i : ℕ)
      → has out.fresh (evict_spec cs m).0 ≡ false
      → advance (caching out msg i) s
        ≡ ends (served (directed (server s i)) (cached_again out.fresh i msg cs m s))
  unfolding advance locate_in_trie
  caches out msg i unused =
      let live =
        live_of_fits hash_path cs m (hash_path msg.path) (valid.fits (hash_path msg.path)) in
      let stored =
        ap (lru_put out.fresh msg.path (server s i)) held
        ∙ put_refines out.fresh msg.path (server s i) cs m valid.distinct live unused in
      rw stored refl

-- A get after the put finds what was put.
get_again :
    (cs : Cells) (m : Slots) (s : NamingServer) (out out' : Outside) (msg msg' : Message) (i : ℕ)
    → IsValid hash_path cs m
    → cached msg.path cs m ≡ none
    → out.fresh ≢ null
    → has out.fresh (evict_spec cs m).0 ≡ false
    → msg'.path ≡ msg.path
    → handle_locate out' msg' (cached_again out.fresh i msg cs m s)
      ≡ served (directed (server s i)) (cached_again out.fresh i msg cs m s)
unfolding handle_locate locate_next
get_again cs m s out out' msg msg' i valid miss given unused one =
    let live = live_of_fits hash_path cs m (hash_path msg.path) (valid.fits (hash_path msg.path)) in
    let stored = put_refines out.fresh msg.path (server s i) cs m valid.distinct live unused in
    let got = put-get out.fresh msg.path (server s i) cs m valid miss given unused in
    rw (one, rw stored at got) refl

-- A READ_FILE that has looked into the cache and the tree, and puts the path into the cache only
-- after a DELETE_FILE of it was acknowledged, leaves the path in the cache: the tree no longer has
-- it, and the next READ_FILE is directed to the server on which it was, where the cache was well
-- formed and did not have the path, and memory is given for the entry.
pub deleted_path_cached :
    (cs : Cells) (m : Slots) (s : NamingServer) (out out' out'' : Outside)
    (msg msg' msg'' : Message) (i : ℕ)
    → s.path_lru_cache ≡ repr cs m
    → IsValid hash_path cs m
    → cached msg.path cs m ≡ none
    → out.fresh ≢ null
    → has out.fresh (evict_spec cs m).0 ≡ false
    → trie_search s.path_trie_root msg.path ≡ some i
    → msg.operation ≡ read_file
    → msg'.operation ≡ delete_file
    → msg'.path ≡ msg.path
    → msg''.path ≡ msg.path
    → contact out' (server s i) msg' ≡ answered acked
    → (r : Running) × Steps (alone_at s) r
      × (r.responses ≡ directed (server r.state i) ∷ acked ∷ [])
      × (trie_search r.state.path_trie_root msg.path ≡ none)
      × (handle_locate out'' msg'' r.state ≡ served (directed (server r.state i)) r.state)
deleted_path_cached cs m s out out' out'' msg msg' msg'' i held valid miss given unused found
      is_read is_delete one one' done =
    let s' = forgotten i msg' s in
    let s'' = cached_again out.fresh i msg cs m s' in
    let asked_both =
      after (after no_step (arrives out msg (λ e. absurd (cc))))
        (arrives out' msg' (λ e. absurd (cc))) in
    let looked =
      after
        (after asked_both
          (moves (there (asked out' msg') here) (misses cs m s held valid out msg is_read miss)))
        (moves (there (asked out' msg') here) (finds cs m s held valid out msg i found)) in
    let sent =
      after
        (after looked
          (moves here (finds_to_delete cs m s held valid out' msg' i is_delete (rw one found))))
        (moves here (contacts cs m s held valid out' msg' i done)) in
    let gone = after sent (responds first (deletes cs m s held valid msg' i (rw one miss))) in
    (
      record { state = s''; threads = []; responses = directed (server s' i) ∷ acked ∷ [] },
      after gone (responds first (caches cs m s' held valid out msg i unused)),
      refl,
      search-delete s.path_trie_root msg'.path msg.path ∙ rw (one, same_refl msg.path) refl,
      get_again cs m s' out out'' msg msg'' i valid miss given unused one',
    )
