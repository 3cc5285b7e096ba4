-- ===== src/Trie/Threads/Sound.antt =====
-- trie.c: calls in several threads do what the same calls do one after another.
use network_file_system.Base.{
  ℕ, refl, sym, ◌∙◌, subst, [], ◌++◌, arith, All, Becomes-All, Ends-All, All-map,
}
use network_file_system.Trie.Lookup.{IsNode, create_trie_node-IsNode, search-create_trie_node}
use network_file_system.Trie.Threads.{
  Running, Step, calls, locks, returns, follows, new_tree, Reachable, started, later, replay,
  Explained,
}
use network_file_system.Trie.Threads.Walks.{node_at-nil, find-new_tree, IsTree, node_at-child}
use network_file_system.Trie.Threads.Locked.{
  Placed, Placed-Grows, Agrees, applied-IsNode, Does, locked-Does,
}

module _ (root : ℕ) where
  -- The nodes are a tree that holds what the calls that have returned leave, one after another; they
  -- have had the results that they have so; and every thread is in its place.
  pub record IsSound (s : Running) : Type 0 where
    pub tree : IsTree root s.store
    pub is_node : IsNode (replay s.events)
    pub agrees : Agrees root s.store (replay s.events)
    pub explained : Explained s.events
    pub placed : All (Placed root s.store) s.walkers

  new_tree-IsSound : IsSound (new_tree root)
  new_tree-IsSound = record {
    tree = record {
      label = λ x. [];
      root_live = ground arith;
      root_label = refl;
      closed = λ a c b e. cc;
      labelled = λ a c b e. cc;
      dead = λ a c e. refl;
    };
    is_node = create_trie_node-IsNode;
    agrees = λ q. find-new_tree root q ∙ sym (search-create_trie_node q);
    explained = tt;
    placed = tt;
  }

  Step-IsSound : {s s' : Running} → Step root s s' → IsSound s → IsSound s'
  Step-IsSound {s = s} (calls op path) v = record {
    tree = v.tree;
    is_node = v.is_node;
    agrees = v.agrees;
    explained = v.explained;
    placed = (node_at-nil s.store root, v.placed);
  }
  Step-IsSound {s = s} (locks fresh p rest {w = w} {st = st} new r e) v =
      let (at_node, others) = Becomes-All (Placed root s.store) r v.placed in
      let (tree, grows, agrees, here_now) =
        subst (Does root s.store (replay s.events) p.operation (p.before ++ rest)) e (
          locked-Does root s.store (replay s.events) v.tree v.agrees v.is_node fresh p rest new
            at_node) in
      record {
        tree = tree;
        is_node = v.is_node;
        agrees = agrees;
        explained = v.explained;
        placed =
            (Becomes-All (Placed root st) r
                (All-map (λ u. Placed-Grows root s.store st u grows) s.walkers v.placed)).1
              here_now;
      }
  Step-IsSound {s = s} (returns fresh p rest {o = o} {st = st} new r e) v =
      let (at_node, others) = Ends-All (Placed root s.store) r v.placed in
      let (tree, grows, agrees, result) =
        subst (Does root s.store (replay s.events) p.operation (p.before ++ rest)) e (
          locked-Does root s.store (replay s.events) v.tree v.agrees v.is_node fresh p rest new
            at_node) in
      record {
        tree = tree;
        is_node = applied-IsNode root p.operation (p.before ++ rest) (replay s.events) v.is_node;
        agrees = agrees;
        explained = (result, v.explained);
        placed = All-map (λ w. Placed-Grows root s.store st w grows) _ others;
      }
  Step-IsSound {s = s} (follows p index rest child r e) v =
      let ((at_node, there), others) = Becomes-All (Placed root s.store) r v.placed in
      record {
        tree = v.tree;
        is_node = v.is_node;
        agrees = v.agrees;
        explained = v.explained;
        placed = others (node_at-child s.store root p.current index child p.before at_node e);
      }

  Reachable-IsSound : (s : Running) → Reachable root s → IsSound s
  Reachable-IsSound s started = new_tree-IsSound
  Reachable-IsSound s' (later {s = s} r step) = Step-IsSound step (Reachable-IsSound s r)

-- However inserts, searches and deletes in several threads are interleaved, node by node and with
-- reads of children between the locks, they are as if each call had been made at once when it
-- returned: each has had the result that it has after the calls that returned before it, one after
-- another, and the nodes hold at every path what these calls leave in the tree; no thread follows a
-- child that is not there. Memory is given for every new node.
pub linearized :
    (root : ℕ) (s : Running)
    → Reachable root s
    → Explained s.events
      × Agrees root s.store (replay s.events)
      × All (Placed root s.store) s.walkers
linearized root s r = let v = Reachable-IsSound root s r in (v.explained, v.agrees, v.placed)
