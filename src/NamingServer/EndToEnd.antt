-- ===== src/NamingServer/EndToEnd.antt =====
-- naming_server.c: a file that is created can be located, and what two deletions do to the cache.
use network_file_system.Base.{
  ◌≡◌, ap, refl, sym, subst, ◌∙◌, true, false, inl, inr, some, [], ◌∷◌, arith, Bool-cases, same,
  eq_of_same, same_refl,
}
use network_file_system.Common.{Message}
use network_file_system.Trie.{trie_search}
use network_file_system.LruCache.Shape.{Cell, Cells}
use network_file_system.LruCache.Spec.{Slots}
use network_file_system.NamingServer.{handle_create, handle_locate, directed}
use network_file_system.NamingServer.State.{
  NamingServer, Outside, Outcome, served, crashed, dropped, hangs, acked, is_ack, server,
}
use network_file_system.NamingServer.Shape.{IsRegistry}
use network_file_system.NamingServer.Creation.{Created, created}
use network_file_system.NamingServer.Location.{
  Routed, IsCoherent, IsReady, LocateEnds, route_answer, located,
}

abbrev pub response : Outcome → Message → Message
response (served m s) d = m
response (dropped s) d = d
response crashed d = d
response hangs d = d

abbrev pub state_after : Outcome → NamingServer → NamingServer
state_after (served m s) d = s
state_after (dropped s) d = s
state_after crashed d = d
state_after hangs d = d

Created-Routed :
    (msg : Message) (s s' : NamingServer) (c : Cell) → Created msg s s' → Routed s c → Routed s' c
Created-Routed msg s s' c h (i, e, told) = elim (Bool-cases (same msg.path c.path)) [
  | inl hit ↦ absurd (ground (arith, eq_of_same msg.path c.path, h.new))
  | inr miss ↦ (i, h.routes c.path ∙ rw miss e, told ∙ sym (h.addresses i))
]

Created-IsCoherent :
    (msg : Message) (s s' : NamingServer) (cs : Cells)
    → Created msg s s'
    → IsCoherent s cs
    → IsCoherent s' cs
Created-IsCoherent msg s s' [] h v = v
Created-IsCoherent msg s s' (c ∷ cs) h (r, v) =
    (Created-Routed msg s s' c h r, Created-IsCoherent msg s s' cs h v)

-- An acknowledged CREATE_FILE was a creation.
acked-Created :
    (out : Outside) (msg : Message) (s s' : NamingServer)
    → IsRegistry s
    → handle_create out msg s ≡ served acked s'
    → Created msg s s'
acked-Created out msg s s' v e =
    let (m, t, f, _, which) = created out msg s v in
    let same_state : t ≡ s' = ap (λ o. state_after o s) (sym f ∙ e) in
    let same_answer : m ≡ acked = ap (λ o. response o acked) (sym f ∙ e) in
    elim which [
      | inl (_, h) ↦ subst (Created msg s) same_state h
      | inr (refusal, _) ↦
          (let success_code = ap (λ (r : Message). is_ack r.operation) same_answer in
            let clash : true ≡ false = sym success_code ∙ refusal in absurd (cc))
    ]

-- After an acknowledged CREATE_FILE, a request to locate the same path is answered with the address
-- of the server whose turn it was, where the cache was well formed and told what the tree did; and
-- so it does afterwards.
created-located :
    (out out' : Outside) (msg msg' : Message) (cs : Cells) (m : Slots) (s s' : NamingServer)
    → IsRegistry s
    → IsReady out' cs m s
    → msg'.path ≡ msg.path
    → handle_create out msg s ≡ served acked s'
    → LocateEnds s' (directed (server s s.current_ss_index)) (handle_locate out' msg' s')
created-located out out' msg msg' cs m s s' v ready e created_it =
    let h = acked-Created out msg s s' v created_it in
    let i = s.current_ss_index in
    let there : trie_search s'.path_trie_root msg'.path ≡ some i =
      rw (e, h.routes msg.path, same_refl msg.path) refl in
    let told = ap (route_answer s') there ∙ h.addresses i in
    subst (λ a. LocateEnds s' a (handle_locate out' msg' s')) told
      (located out' msg' cs m s' (record {
        held = h.cache ∙ ready.held;
        valid = ready.valid;
        coherent = Created-IsCoherent msg s s' cs h ready.coherent;
        unused = ready.unused;
      }))
