-- ===== src/NamingServer/Reachable.antt =====
-- naming_server.c: the states that the accept loop of `main` gets to, one connection after another.
use network_file_system.Base.{
  ℕ, zero, suc, ◌≡◌, refl, sym, subst, inl, Option, arith, get_or, replicate,
}
use network_file_system.Common.{Message, max_ss}
use network_file_system.Trie.Lookup.{create_trie_node-IsNode, search-create_trie_node}
use network_file_system.ServerInfo.{zero_info}
use network_file_system.ServerInfo.Erase.{IsValid}
use network_file_system.NamingServer.{handle_connection}
use network_file_system.NamingServer.State.{NamingServer, start, Outside, served, dropped}
use network_file_system.NamingServer.Shape.{IsRegistry}
use network_file_system.NamingServer.Endings.{Ends, handle_connection-Ends}

-- The states after any number of connections, each of which ends.
pub data Reachable : NamingServer → Type 0 where
  started : Reachable start
  answered_to :
      {s s' : NamingServer} (out : Outside) (request : Option Message) (response : Message)
      → Reachable s
      → handle_connection out request s ≡ served response s'
      → Reachable s'
  unread :
      {s s' : NamingServer} (out : Outside) (request : Option Message)
      → Reachable s
      → handle_connection out request s ≡ dropped s'
      → Reachable s'

get_or-replicate : (n i : ℕ) → get_or (replicate n zero_info) i zero_info ≡ zero_info
get_or-replicate zero i = refl
get_or-replicate (suc n) zero = refl
get_or-replicate (suc n) (suc i) = get_or-replicate n i

zero_info-IsValid : IsValid zero_info
zero_info-IsValid = record { slots = refl; within = omega arith }

pub start-IsRegistry : IsRegistry start
unfolding start
start-IsRegistry = record {
  array = refl;
  few = omega arith;
  turn = inl refl;
  servers = λ i. subst IsValid (sym (get_or-replicate max_ss i)) zero_info-IsValid;
  rooted = create_trie_node-IsNode;
  routes = λ q i e. absurd (ground (arith, search-create_trie_node q));
}

-- In every state that the naming server gets to from its start, one connection after another, the
-- array of servers has its 100 slots and at most 100 in use, the turn is at a server in use or at 0,
-- each server has its ten slots for paths and at most ten in use, the tree has a root, and every
-- path in the tree leads to a server in use.
pub reachable-IsRegistry : (s : NamingServer) → Reachable s → IsRegistry s
reachable-IsRegistry s started = start-IsRegistry
reachable-IsRegistry s' (answered_to {s = s} out request response r e) =
    subst Ends e (handle_connection-Ends out request s (reachable-IsRegistry s r))
reachable-IsRegistry s' (unread {s = s} out request r e) =
    subst Ends e (handle_connection-Ends out request s (reachable-IsRegistry s r))
