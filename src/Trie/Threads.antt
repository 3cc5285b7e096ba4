-- ===== src/Trie/Threads.antt =====
-- trie.c: `trie_insert`, `trie_search` and `trie_delete` in several threads, on nodes in memory. A step
-- of a thread is what it does under the lock of one node, or what it does between two locks, the read
-- of `current->children[index]`.
pub mod Walks
pub mod Growth
pub mod Locked
pub mod Sound
mod Tests
use network_file_system.Base.{
  ℕ, ◌≡◌, Bool, true, false, Option, none, some, List, [], ◌∷◌, ◌++◌, ◌==◌, ◌&&◌, if◌then◌else◌,
  Becomes, Ends,
}
use network_file_system.Common.{FilePath}
use network_file_system.Trie.{TrieNode, create_trie_node, trie_insert, trie_search, trie_delete}

-- The nodes in memory: which addresses have one, `children[index]` and `ss_info` of each.
pub record Store : Type 0 where
  pub live : ℕ → Bool
  pub children : ℕ → ℕ → Option ℕ
  pub ss_info : ℕ → Option ℕ

-- `create_trie_node` at the address that `malloc` gives.
abbrev pub create_node : ℕ → Store → Store
create_node fresh st = record {
  live = λ x. if x == fresh then true else st.live x;
  children = λ x d. if x == fresh then none else st.children x d;
  ss_info = λ x. if x == fresh then none else st.ss_info x;
}

-- `current->children[index] = child`
abbrev pub link : ℕ → ℕ → ℕ → Store → Store
link current index child st = record st {
  children = λ x d. if (x == current) && (d == index) then some child else st.children x d;
}

-- `current->ss_info = info`
abbrev pub write_info : ℕ → Option ℕ → Store → Store
write_info current info st = record st {
  ss_info = λ x. if x == current then info else st.ss_info x;
}

pub data Operation : Type 0 where
  inserting : ℕ → Operation
  searching deleting : Operation

-- A thread is about to lock `current`, or has unlocked it and is about to read its child at `index`.
-- Before is what it has of its path, and rest what it has not.
pub record Place : Type 0 where
  pub operation : Operation
  pub before : FilePath
  pub current : ℕ

pub data Walker : Type 0 where
  locking : Place → FilePath → Walker
  following : Place → ℕ → FilePath → Walker

-- What a thread comes to under a lock: it walks on, or it returns with a result.
pub data Progress : Type 0 where
  walks_on : Walker → Store → Progress
  returns_with : Option ℕ → Store → Progress

-- The end of the path.
pub at_end : Operation → ℕ → Store → Progress
at_end (inserting info) current st = returns_with none (write_info current (some info) st)
at_end searching current st = returns_with (st.ss_info current) st
at_end deleting current st = returns_with none (write_info current none st)

-- A child that is not there.
pub at_null : Operation → ℕ → Place → ℕ → FilePath → Store → Progress
at_null (inserting info) fresh p index rest st =
    walks_on (following p index rest) (link p.current index fresh (create_node fresh st))
at_null searching fresh p index rest st = returns_with none st
at_null deleting fresh p index rest st = returns_with none st

pub at_child : ℕ → Place → ℕ → FilePath → Store → Option ℕ → Progress
unfolding at_null
at_child fresh p index rest st none = at_null p.operation fresh p index rest st
at_child fresh p index rest st (some _) = walks_on (following p index rest) st

-- Under the lock of `current`, with the address that `malloc` gives if it is called.
pub locked : ℕ → Place → FilePath → Store → Progress
unfolding at_end at_child
locked fresh p [] st = at_end p.operation p.current st
locked fresh p (index ∷ rest) st = at_child fresh p index rest st (st.children p.current index)

-- `current = current->children[index]`
abbrev pub moved : Place → ℕ → ℕ → Place
moved p index child = record p { before = p.before ++ (index ∷ []); current = child }

-- A call that has returned.
pub record Event : Type 0 where
  pub operation : Operation
  pub path : FilePath
  pub result : Option ℕ

-- The nodes, the threads in a call, and the calls that have returned, the last one first.
pub record Running : Type 0 where
  pub store : Store
  pub walkers : List Walker
  pub events : List Event

module _ (root : ℕ) where
  pub data Step (s : Running) : Running → Type 0 where
    calls :
        (operation : Operation) (path : FilePath)
        → Step s (record s {
          walkers =
              locking (record { operation = operation; before = []; current = root }) path
              ∷ s.walkers;
        })
    locks :
        (fresh : ℕ) (p : Place) (rest : FilePath) {w : Walker} {ws : List Walker} {st : Store}
        → s.store.live fresh ≡ false
        → Becomes (locking p rest) w s.walkers ws
        → locked fresh p rest s.store ≡ walks_on w st
        → Step s (record s { store = st; walkers = ws })
    returns :
        (fresh : ℕ) (p : Place) (rest : FilePath) {o : Option ℕ} {ws : List Walker} {st : Store}
        → s.store.live fresh ≡ false
        → Ends (locking p rest) s.walkers ws
        → locked fresh p rest s.store ≡ returns_with o st
        → Step s (record {
          store = st;
          walkers = ws;
          events =
              record { operation = p.operation; path = p.before ++ rest; result = o } ∷ s.events;
        })
    follows :
        (p : Place) (index : ℕ) (rest : FilePath) (child : ℕ) {ws : List Walker}
        → Becomes (following p index rest) (locking (moved p index child) rest) s.walkers ws
        → s.store.children p.current index ≡ some child
        → Step s (record s { walkers = ws })

  -- The tree of `main` before its first request.
  abbrev pub new_tree : Running
  new_tree = record {
    store = record { live = λ x. x == root; children = λ x d. none; ss_info = λ x. none };
    walkers = [];
    events = [];
  }

  pub data Reachable : Running → Type 0 where
    started : Reachable new_tree
    later : {s t : Running} → Reachable s → Step s t → Reachable t

-- The same calls one after another.
abbrev pub applied : Operation → FilePath → TrieNode → TrieNode
applied (inserting info) path t = trie_insert t path info
applied searching path t = t
applied deleting path t = trie_delete t path

abbrev pub result_of : Operation → FilePath → TrieNode → Option ℕ
result_of (inserting info) path t = none
result_of searching path t = trie_search t path
result_of deleting path t = none

abbrev pub replay : List Event → TrieNode
replay [] = create_trie_node
replay (e ∷ es) = applied e.operation e.path (replay es)

-- Each call has the result that it has after the calls that returned before it.
abbrev pub Explained : List Event → Type 0
Explained [] = Unit {0}
Explained (e ∷ es) = (e.result ≡ result_of e.operation e.path (replay es)) × Explained es
