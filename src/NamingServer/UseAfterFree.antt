-- ===== src/NamingServer/UseAfterFree.antt =====
-- naming_server.c: what two requests to delete do to the cache, and to the next request to locate.
use network_file_system.Base.{
  ℕ, ◌≡◌, ◌≢◌, ap, refl, sym, ◌∙◌, true, false, inl, inr, ◌∷◌, Bool-cases, Option-cases,
}
use network_file_system.Common.{FilePath, Message, file_not_found}
use network_file_system.Trie.{trie_search}
use network_file_system.LruCache.{hash_path, lru_remove, lru_get}
use network_file_system.LruCache.State.{LruCache, Run, ok, fault, out_of_fuel}
use network_file_system.LruCache.Shape.{Cell, Cells, Distinct}
use network_file_system.LruCache.Spec.{Slots, repr}
use network_file_system.LruCache.Dangling.{get_after_removes}
use network_file_system.NamingServer.{handle_delete, handle_locate, forget_path, delete_finish}
use network_file_system.Sockets.{Contact, failed, answered}
use network_file_system.NamingServer.State.{
  NamingServer, Outside, Outcome, served, crashed, acked, nacked, is_ack, is_success, server,
  after_cache, contact,
}
use network_file_system.NamingServer.EndToEnd.{response, state_after}

-- A NACK is no ACK.
nack_not_ack {ℓ} :
    {A : Type ℓ} (code : ℕ) (s s' : NamingServer) → served (nacked code) s ≡ served acked s' → A
nack_not_ack code s s' e =
    let clash : false ≡ true = ap (λ o. is_ack (response o acked).operation) e in absurd (cc)

-- What ends after a command on the cache has run the command.
ran :
    (r : Run Unit) (k : Unit → LruCache → Outcome) (s : NamingServer)
    → after_cache r k ≡ served acked s
    → (c : LruCache) × (r ≡ ok tt c) × (k tt c ≡ served acked s)
ran (ok tt c) k s e = (c, refl, e)
ran fault k s e = absurd (cc)
ran out_of_fuel k s e = absurd (cc)

forget_path-removes :
    (i : ℕ) (path : FilePath) (s s' : NamingServer)
    → forget_path i path s ≡ served acked s'
    → lru_remove path s.path_lru_cache ≡ ok tt s'.path_lru_cache
unfolding forget_path
forget_path-removes i path s s' e =
    let (c, r, f) = ran (lru_remove path s.path_lru_cache) _ s' e in
    r ∙ ap (λ o. ok tt (state_after o s).path_lru_cache) f

delete_finish-removes :
    (i : ℕ) (msg : Message) (answer : Contact) (s s' : NamingServer)
    → delete_finish i msg answer s ≡ served acked s'
    → lru_remove msg.path s.path_lru_cache ≡ ok tt s'.path_lru_cache
unfolding delete_finish
delete_finish-removes i msg (failed code) s s' e = nack_not_ack code s s' e
delete_finish-removes i msg (answered r) s s' e = elim (Bool-cases (is_success r)) [
  | inl done ↦ forget_path-removes i msg.path s s' (rw done at e)
  | inr refusal ↦ nack_not_ack r.error_code s s' (rw refusal at e)
]

-- An acknowledged DELETE_FILE has removed the path from the cache.
delete-removes :
    (out : Outside) (msg : Message) (s s' : NamingServer)
    → handle_delete out msg s ≡ served acked s'
    → lru_remove msg.path s.path_lru_cache ≡ ok tt s'.path_lru_cache
unfolding handle_delete
delete-removes out msg s s' e = elim (Option-cases (trie_search s.path_trie_root msg.path)) [
  | inl f ↦ nack_not_ack file_not_found s s' (rw f at e)
  | inr (i, f) ↦ delete_finish-removes i msg (contact out (server s i) msg) s s' (rw f at e)
]

-- Let the first two entries of a well-linked cache have different hashes and be pointed to by their
-- slots. After two acknowledged DELETE_FILE requests, for the first entry's path and then for the
-- second's, a request to locate any path with the first one's hash reads freed memory.
pub locate_after_deletes :
    (out1 out2 out3 : Outside) (msg1 msg2 msg3 : Message) (s s1 s2 : NamingServer) (a b : Cell)
    (cs : Cells) (m : Slots)
    → s.path_lru_cache ≡ repr (a ∷ b ∷ cs) m
    → Distinct (a ∷ b ∷ cs)
    → m (hash_path a.path) ≡ a.ptr
    → m (hash_path b.path) ≡ b.ptr
    → hash_path a.path ≢ hash_path b.path
    → msg1.path ≡ a.path
    → msg2.path ≡ b.path
    → hash_path msg3.path ≡ hash_path a.path
    → handle_delete out1 msg1 s ≡ served acked s1
    → handle_delete out2 msg2 s1 ≡ served acked s2
    → handle_locate out3 msg3 s2 ≡ crashed
unfolding handle_locate
locate_after_deletes out1 out2 out3 msg1 msg2 msg3 s s1 s2 a b cs m held d at_a at_b apart p q
      hashed del1 del2 =
    let r1 : lru_remove a.path (repr (a ∷ b ∷ cs) m) ≡ ok tt s1.path_lru_cache =
      rw (sym held, sym p) (delete-removes out1 msg1 s s1 del1) in
    let r2 : lru_remove b.path s1.path_lru_cache ≡ ok tt s2.path_lru_cache =
      rw (sym q) (delete-removes out2 msg2 s1 s2 del2) in
    let faulty : lru_get msg3.path s2.path_lru_cache ≡ fault =
      rw (r1, r2) at (get_after_removes a b cs m msg3.path d at_a at_b apart hashed) in
    rw faulty refl
