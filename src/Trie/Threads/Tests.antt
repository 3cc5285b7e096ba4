-- ===== src/Trie/Threads/Tests.antt =====
-- Two threads in a tree, one of which inserts a path that the other searches.
use network_file_system.Base.{refl, some, none, [], ◌∷◌, here, first, there, All, Ends}
use network_file_system.Trie.Threads.{
  inserting, searching, Place, locking, following, Store, create_node, link, write_info, Running,
  calls, locks, returns, follows, new_tree, Reachable, started, later, locked, replay, Explained,
  moved,
}
use network_file_system.Trie.Threads.Locked.{Placed, Agrees}
use network_file_system.Trie.Threads.Sound.{linearized}
use network_file_system.Common.{FilePath}

abbrev path_a : FilePath
path_a = 97 ∷ []

abbrev place : Place
place = record { operation = inserting 3; before = []; current = 1 }

abbrev searcher : Place
searcher = record { operation = searching; before = []; current = 1 }

abbrev with_child : Store
with_child = link 1 97 2 (create_node 2 (new_tree 1).store)

-- The searcher has found the new child when the other thread writes the server there.
abbrev ended : Running
ended = record {
  store = write_info 2 (some 3) with_child;
  walkers = [];
  events =
      record { operation = searching; path = path_a; result = some 3 }
      ∷ record { operation = inserting 3; path = path_a; result = none }
      ∷ [];
}

ended-Reachable : Reachable 1 ended
unfolding locked
ended-Reachable =
    later
      (later
        (later
          (later
            (later
              (later (later (later started (calls (inserting 3) path_a)) (calls searching path_a))
                (locks 2 place path_a refl (there (locking searcher path_a) here) refl))
              (locks 3 searcher path_a refl here refl))
            (follows place 97 [] 2 (there (following searcher 97 []) here) refl))
          (follows searcher 97 [] 2 here refl))
        (returns 3 (moved place 97 2) [] refl (Ends.later (locking (moved searcher 97 2) []) first)
          refl))
      (returns 3 (moved searcher 97 2) [] refl first refl)

linearized_example :
    Explained ended.events
    × Agrees 1 ended.store (replay ended.events)
    × All (Placed 1 ended.store) ended.walkers
linearized_example = linearized 1 ended ended-Reachable
