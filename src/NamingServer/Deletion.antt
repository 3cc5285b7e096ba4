-- ===== src/NamingServer/Deletion.antt =====
-- naming_server.c: DELETE_FILE, on every branch.
use network_file_system.Base.{
  ℕ, ◌<◌, ◌≡◌, refl, ap, ◌∙◌, true, false, ◌⊎◌, inl, inr, none, some, arith, Bool-cases,
  Option-cases, if◌then◌else◌, same, length, length-set, set, get_or-set_self,
}
use network_file_system.Common.{FilePath, Message, file_not_found}
use network_file_system.Trie.{trie_search, trie_delete}
use network_file_system.Trie.Lookup.{search-delete, trie_delete-IsNode}
use network_file_system.ServerInfo.{zero_info, remove_path_from_ss_info}
use network_file_system.ServerInfo.Erase.{paths_of, erase_first, remove-erase_first}
use network_file_system.LruCache.{hash_path}
use network_file_system.LruCache.Shape.{Cells, Distinct}
use network_file_system.LruCache.Spec.{Slots, repr, is_live}
use network_file_system.LruCache.Remove.{remove_spec, remove_refines}
use network_file_system.NamingServer.{forget_path, delete_finish, handle_delete}
use network_file_system.Sockets.{Contact, failed, answered}
use network_file_system.NamingServer.State.{
  NamingServer, Outside, Outcome, served, acked, nacked, is_ack, is_success, server, contact,
}
use network_file_system.NamingServer.Shape.{IsRegistry, servers-set}

-- The path led to a server, and now leads to none; its first entry in that server's list is gone,
-- and the cell that a search for the path found in the cache.
pub record Deleted (msg : Message) (cs : Cells) (m : Slots) (s s' : NamingServer) : Type 0 where
  pub holder : ℕ
  pub old : trie_search s.path_trie_root msg.path ≡ some holder
  pub routes :
      (q : FilePath)
      → trie_search s'.path_trie_root q
        ≡ (if same msg.path q then none else trie_search s.path_trie_root q)
  pub paths : paths_of (server s' holder) ≡ erase_first msg.path (paths_of (server s holder))
  pub cache : s'.path_lru_cache ≡ repr (remove_spec msg.path cs m).0 (remove_spec msg.path cs m).1

abbrev pub DeleteEnds : Message → Cells → Slots → NamingServer → Outcome → Type 0
DeleteEnds msg cs m s o =
    (r : Message) × (s' : NamingServer) × (o ≡ served r s')
    × IsRegistry s'
    × (((r ≡ acked) × Deleted msg cs m s s') ⊎ ((is_ack r.operation ≡ false) × (s' ≡ s)))

-- What the cache must be for a deletion to keep to its memory.
pub record Removable (path : FilePath) (cs : Cells) (m : Slots) (s : NamingServer) : Type 0 where
  pub held : s.path_lru_cache ≡ repr cs m
  pub distinct : Distinct cs
  pub live : is_live cs m (hash_path path) ≡ true

forget_path-DeleteEnds :
    (i : ℕ) (msg : Message) (cs : Cells) (m : Slots) (s : NamingServer)
    → IsRegistry s
    → Removable msg.path cs m s
    → trie_search s.path_trie_root msg.path ≡ some i
    → DeleteEnds msg cs m s (forget_path i msg.path s)
unfolding forget_path
forget_path-DeleteEnds i msg cs m s v c e =
    let info = remove_path_from_ss_info (server s i) msg.path in
    let cut = remove-erase_first (server s i) msg.path (v.servers i) in
    let within : i < length s.registered_ss =
      rw v.array (omega (arith, v.routes msg.path i e, v.few)) in
    rw (c.held, remove_refines msg.path cs m c.distinct c.live)
      (
        acked,
        record s {
          registered_ss = set s.registered_ss i info;
          path_trie_root = trie_delete s.path_trie_root msg.path;
          path_lru_cache = repr (remove_spec msg.path cs m).0 (remove_spec msg.path cs m).1;
        },
        refl,
        record {
          array = length-set s.registered_ss i info ∙ v.array;
          few = v.few;
          turn = v.turn;
          servers = servers-set s i info within v.servers cut.1;
          rooted = trie_delete-IsNode s.path_trie_root msg.path v.rooted;
          routes = λ q j f. ground (arith, search-delete s.path_trie_root msg.path q, v.routes q j);
        },
        inl (
          refl,
          record {
            holder = i;
            old = e;
            routes = search-delete s.path_trie_root msg.path;
            paths = ap paths_of (get_or-set_self s.registered_ss i info zero_info within) ∙ cut.0;
            cache = refl;
          },
        ),
      )

delete_finish-DeleteEnds :
    (i : ℕ) (msg : Message) (answer : Contact) (cs : Cells) (m : Slots) (s : NamingServer)
    → IsRegistry s
    → Removable msg.path cs m s
    → trie_search s.path_trie_root msg.path ≡ some i
    → DeleteEnds msg cs m s (delete_finish i msg answer s)
unfolding delete_finish
delete_finish-DeleteEnds i msg (failed code) cs m s v c e =
    (nacked code, s, refl, v, inr (refl, refl))
delete_finish-DeleteEnds i msg (answered r) cs m s v c e = elim (Bool-cases (is_success r)) [
  | inl done ↦ rw done (forget_path-DeleteEnds i msg cs m s v c e)
  | inr refusal ↦ rw refusal (nacked r.error_code, s, refl, v, inr (refl, refl))
]

-- DELETE_FILE is answered, whatever the storage server does, where the cache's slot for the path
-- does not dangle, and the registry stays well formed. The answer is an acknowledgement, and then
-- the path led to a server and now leads to none, its first entry in that server's list is gone, so
-- is the cell that the cache found for it, and other paths lead where they led; or it is none, and
-- then nothing has changed.
pub deleted :
    (out : Outside) (msg : Message) (cs : Cells) (m : Slots) (s : NamingServer)
    → IsRegistry s
    → Removable msg.path cs m s
    → DeleteEnds msg cs m s (handle_delete out msg s)
unfolding handle_delete
deleted out msg cs m s v c = elim (Option-cases (trie_search s.path_trie_root msg.path)) [
  | inl e ↦ rw e (nacked file_not_found, s, refl, v, inr (refl, refl))
  | inr (i, e) ↦ rw e (delete_finish-DeleteEnds i msg (contact out (server s i) msg) cs m s v c e)
]
