-- ===== src/StorageServer/Startup/Registration.antt =====
-- storage_server.c and naming_server.c: a storage server that starts registers its paths.
use network_file_system.Base.{
  ℕ, zero, suc, ◌+◌, ◌≤◌, ◌<◌, ◌≡◌, refl, sym, ap, ◌∙◌, Bool, true, false, ◌||◌, some, List, [],
  ◌∷◌, ◌++◌, arith, ltb, if◌then◌else◌, same, length, length-append, length-take, take, get_or,
}
use network_file_system.Common.{
  FilePath, Message, max_ss, max_accessible_paths, max_path_len, acked,
}
use network_file_system.Sockets.{answered, exchange, open_port}
use network_file_system.Trie.{trie_search}
use network_file_system.NamingServer.{handle_register}
use network_file_system.NamingServer.State.{NamingServer, served}
use network_file_system.NamingServer.Shape.{IsRegistry}
use network_file_system.NamingServer.Requests.{listed, registered}
use network_file_system.StorageServer.Startup.{
  Lookup, get_local_ip, collect_paths, Arguments, arguments_of, register_msg, serving, Sockets,
  after_registering, register_with, start_with, start_up,
}

-- Every path has room for its terminator in its array.
abbrev pub AllShort : List FilePath → Type 0
AllShort [] = Unit {0}
AllShort (p ∷ ps) = (length p < max_path_len) × AllShort ps

-- The path is one of them.
abbrev pub mentioned : FilePath → List FilePath → Bool
mentioned q [] = false
mentioned q (p ∷ ps) = mentioned q ps || same p q

append-nil : (xs : List FilePath) → xs ++ [] ≡ xs
append-nil [] = refl
append-nil (x ∷ xs) = ap (◌∷◌ x) (append-nil xs)

append_assoc : (xs ys zs : List FilePath) → (xs ++ ys) ++ zs ≡ xs ++ (ys ++ zs)
append_assoc [] ys zs = refl
append_assoc (x ∷ xs) ys zs = ap (◌∷◌ x) (append_assoc xs ys zs)

-- With room for `room` more paths, these are taken.
collect-take :
    (room : ℕ) (arguments paths : List FilePath)
    → length paths + room ≡ max_accessible_paths
    → AllShort arguments
    → collect_paths arguments paths ≡ some (paths ++ take room arguments)
unfolding collect_paths
collect-take zero [] paths e short = ap some (sym (append-nil paths))
collect-take (suc room) [] paths e short = ap some (sym (append-nil paths))
collect-take zero (a ∷ arguments) paths e short =
    let full : ltb (length paths) max_accessible_paths ≡ false = ground (arith, e) in
    rw (full, append-nil paths) refl
collect-take (suc room) (a ∷ arguments) paths e (fits, short) =
    let free : ltb (length paths) max_accessible_paths ≡ true = ground (arith, e) in
    let room_for : ltb (length a) max_path_len ≡ true = ground (arith, fits) in
    let rest =
      collect-take room arguments (paths ++ (a ∷ []))
        (omega (arith, length-append paths (a ∷ []), e)) short in
    rw (free, room_for, rest, append_assoc paths (a ∷ []) (take room arguments)) refl

-- The loop of REGISTER_SS reads the paths of the message from `i` on.
get_or-append :
    (xs ys : List FilePath) (d : FilePath) (y : FilePath)
    → get_or (xs ++ (y ∷ ys)) (length xs) d ≡ y
get_or-append [] ys d y = refl
get_or-append (x ∷ xs) ys d y = get_or-append xs ys d y

listed-mentioned :
    (before after : List FilePath) (msg : Message) (q : FilePath)
    → msg.accessible_paths ≡ before ++ after
    → listed (length after) (length before) msg q ≡ mentioned q after
listed-mentioned before [] msg q e = refl
listed-mentioned before (p ∷ after) msg q e =
    let rest =
      listed-mentioned (before ++ (p ∷ [])) after msg q
        (e ∙ sym (append_assoc before (p ∷ []) after)) in
    let here : get_or msg.accessible_paths (length before) [] ≡ p =
      ap (λ l. get_or l (length before) []) e ∙ get_or-append before after [] p in
    rw (here, sym (length-append before (p ∷ [])), rest) refl

-- The message that registers the first ten of the paths.
abbrev pub first_ten : (List ℕ → ℕ) → Lookup → Arguments → Message
first_ten atoi lookup arguments =
    register_msg atoi (get_local_ip lookup) arguments (take max_accessible_paths arguments.paths)

-- A storage server that is started with at least one path, each shorter than 1024 bytes, reaches its
-- loop where its ports can be opened and the naming server has a free slot and its answer arrives;
-- the naming server's registry stays well formed with one more server in use, the first ten of the
-- paths lead to that server, and all others lead where they led.
pub started_registered :
    (atoi : List ℕ → ℕ) (lookup : Lookup) (sockets : Sockets) (argv : List (List ℕ))
    (arguments : Arguments) (s : NamingServer)
    → arguments_of argv ≡ some arguments
    → AllShort arguments.paths
    → IsRegistry s
    → s.num_registered_ss < max_ss
    → ((r : Message) (s' : NamingServer)
        → handle_register (first_ten atoi lookup arguments) s ≡ served r s'
        → exchange sockets.registering arguments.nm_ip
            (atoi arguments.nm_port)
            (first_ten atoi lookup arguments)
          ≡ answered r)
    → open_port sockets.for_nm (atoi arguments.nm_service_port) ≡ true
    → open_port sockets.for_clients (atoi arguments.client_port) ≡ true
    → (start_up atoi lookup sockets argv ≡ serving)
      × ((s' : NamingServer) × (handle_register (first_ten atoi lookup arguments) s
            ≡ served acked s')
          × IsRegistry s'
          × (s'.num_registered_ss ≡ s.num_registered_ss + 1)
          × ((q : FilePath)
              → trie_search s'.path_trie_root q ≡ (
                  if mentioned q (take max_accessible_paths arguments.paths)
                  then some s.num_registered_ss
                  else trie_search s.path_trie_root q)))
unfolding start_up start_with register_with after_registering
started_registered atoi lookup sockets argv arguments s parsed short v free link nm clients =
    let ten = take max_accessible_paths arguments.paths in
    let m = first_ten atoi lookup arguments in
    let few : length ten ≤ max_accessible_paths =
      ground (arith, length-take max_accessible_paths arguments.paths) in
    let (s', e, v', n, routes) = registered m s v free few in
    (
      rw
          (
            parsed,
            collect-take max_accessible_paths arguments.paths [] refl short,
            link acked s' e,
            nm,
            clients,
          )
          refl,
      (s', e, v', n, λ q. rw (sym (listed-mentioned [] ten m q refl)) (routes q)),
    )
