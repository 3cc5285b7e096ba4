-- ===== src/LruCache/Tests.antt =====
-- The cache with two entries, and the theorems about it there.
use network_file_system.Base.{
  ◌≡◌, ◌≤◌, refl, true, false, Option, none, some, [], ◌∷◌, length, same, inl, arith, ◌==◌,
  if◌then◌else◌,
}
use network_file_system.Common.{FilePath}
use network_file_system.Hash.{hash_loop}
use network_file_system.ServerInfo.{StorageServerInfo, zero_info}
use network_file_system.LruCache.{
  hash_path, lru_init, lru_get, lru_get_pointer, lru_put, lru_remove, lru_destroy, lru_cache_size,
}
use network_file_system.LruCache.State.{null, LruCache, ok, pure, fault, load, ◌>>=◌, ◌>>◌}
use network_file_system.LruCache.Shape.{Cell, Cells, Distinct}
use network_file_system.LruCache.Spec.{Slots, repr, without, IsValid, is_live}
use network_file_system.LruCache.Get.{cached, get_spec, get_refines}
use network_file_system.LruCache.Remove.{remove_spec, remove_refines}
use network_file_system.LruCache.Put.{put_spec, put_refines}
use network_file_system.LruCache.Session.{Session, opened, put, Session_safe}
use network_file_system.LruCache.Answers.{get-get, put-get}
use network_file_system.LruCache.Pointer.{read_after_remove}
use network_file_system.LruCache.Destroy.{destroy_refines}

-- The paths "a", "b" and "c", and one more whose hash is that of "a": 31 * 6 + 11 = 197.
abbrev pub path_a : FilePath
path_a = 97 ∷ []

abbrev pub path_b : FilePath
path_b = 98 ∷ []

abbrev pub path_c : FilePath
path_c = 99 ∷ []

abbrev pub path_a' : FilePath
path_a' = 6 ∷ 11 ∷ []

pub hash_a : hash_path path_a ≡ 97
unfolding hash_path hash_loop
hash_a = refl

pub hash_b : hash_path path_b ≡ 98
unfolding hash_path hash_loop
hash_b = refl

pub hash_c : hash_path path_c ≡ 99
unfolding hash_path hash_loop
hash_c = refl

pub hash_a' : hash_path path_a' ≡ 97
unfolding hash_path hash_loop
hash_a' = refl

abbrev pub info_one : StorageServerInfo
info_one = record zero_info { ip = 49 ∷ []; client_port = 9001 }

abbrev pub cell_a : Cell
cell_a = record { ptr = 1; path = path_a; ss_info = info_one }

abbrev pub cell_b : Cell
cell_b = record { ptr = 2; path = path_b; ss_info = info_one }

abbrev pub two_cells : Cells
two_cells = cell_a ∷ cell_b ∷ []

abbrev pub two_slots : Slots
two_slots i = if i == 97 then 1 else if i == 98 then 2 else null

pub two_cells-Distinct : Distinct two_cells
two_cells-Distinct = (omega arith, refl, (omega arith, refl, tt))

pub two_cells-IsValid : IsValid hash_path two_cells two_slots
two_cells-IsValid = record {
  distinct = two_cells-Distinct;
  bounded = omega arith;
  fits = λ k. ground (arith, hash_a, hash_b);
}

-- A cell in front of another with the same hash, the slot at the first.
abbrev cell_a' : Cell
cell_a' = record { ptr = 2; path = path_a'; ss_info = zero_info }

abbrev chained_slots : Slots
chained_slots i = if i == 97 then 1 else null

chained-IsValid : IsValid hash_path (cell_a ∷ cell_a' ∷ []) chained_slots
chained-IsValid = record {
  distinct = (omega arith, refl, (omega arith, refl, tt));
  bounded = omega arith;
  fits = λ k. ground (arith, hash_a, hash_a');
}

live_b : is_live two_cells two_slots (hash_path path_b) ≡ true
live_b = rw hash_b refl

get_refines_example :
    lru_get path_b (repr two_cells two_slots)
    ≡ ok
        (get_spec path_b two_cells two_slots).0
        (repr (get_spec path_b two_cells two_slots).1 two_slots)
get_refines_example = get_refines path_b two_cells two_slots two_cells-Distinct live_b

remove_refines_example :
    lru_remove path_b (repr two_cells two_slots)
    ≡ ok tt
        (repr (remove_spec path_b two_cells two_slots).0 (remove_spec path_b two_cells two_slots).1)
remove_refines_example = remove_refines path_b two_cells two_slots two_cells-Distinct live_b

put_refines_example :
    lru_put 3 path_b info_one (repr two_cells two_slots)
    ≡ ok tt (
        repr
          (put_spec 3 path_b info_one two_cells two_slots).0
          (put_spec 3 path_b info_one two_cells two_slots).1)
put_refines_example =
    put_refines 3 path_b info_one two_cells two_slots two_cells-Distinct live_b refl

paths_apart : same path_a path_a' ≡ false
unfolding same
paths_apart = refl

get-get_example :
    (lru_get path_a' (repr (cell_a ∷ cell_a' ∷ []) chained_slots)
      ≡ ok (some zero_info) (repr (cell_a' ∷ cell_a ∷ []) chained_slots))
    × (lru_get path_a' (repr (cell_a' ∷ cell_a ∷ []) chained_slots)
        ≡ ok none (repr (cell_a' ∷ cell_a ∷ []) chained_slots))
get-get_example =
    get-get cell_a cell_a' [] chained_slots chained-IsValid (rw hash_a' refl) paths_apart refl

destroy_refines_example : lru_destroy (repr two_cells two_slots) ≡ ok tt (repr [] (λ _. null))
destroy_refines_example = destroy_refines two_cells two_slots two_cells-Distinct

init_unused : lru_init.heap 1 ≡ none
unfolding lru_init
init_unused = refl

-- The cache after a first put.
abbrev first_put : Cells × Slots
first_put = put_spec 1 path_a info_one [] (λ _. null)

first_put_lem : lru_put 1 path_a info_one lru_init ≡ ok tt (repr first_put.0 first_put.1)
unfolding lru_init
first_put_lem = put_refines 1 path_a info_one [] (λ _. null) tt refl refl

first_put-Session : Session (repr first_put.0 first_put.1)
first_put-Session = put 1 path_a info_one opened (inl init_unused) first_put_lem

Session_safe_example :
    (length first_put.0 ≤ lru_cache_size)
    × ((o : Option StorageServerInfo) × (d : LruCache) × (lru_get path_a
            (repr first_put.0 first_put.1)
          ≡ ok o d))
    × ((d : LruCache) × (lru_put 2 path_a info_one (repr first_put.0 first_put.1) ≡ ok tt d))
    × ((d : LruCache) × (lru_remove path_a (repr first_put.0 first_put.1) ≡ ok tt d))
Session_safe_example = Session_safe path_a 2 info_one first_put-Session (inl refl)

cached_b : cached path_b two_cells two_slots ≡ some cell_b
unfolding same
cached_b = rw hash_b refl

read_after_remove_example :
    ((do p ← lru_get_pointer path_b; n ← load p; pure n.ss_info) (repr two_cells two_slots)
      ≡ ok info_one (repr (cell_b ∷ without 2 two_cells) two_slots))
    × ((do p ← lru_get_pointer path_b; lru_remove path_b; load p) (repr two_cells two_slots)
        ≡ fault)
read_after_remove_example =
    read_after_remove path_b two_cells two_slots cell_b two_cells-Distinct cached_b (rw hash_b refl)

cached_c : cached path_c two_cells two_slots ≡ none
unfolding same
cached_c = rw hash_c refl

put-get_example :
    (do lru_put 3 path_c info_one; lru_get path_c) (repr two_cells two_slots)
    ≡ ok (some info_one) (
        repr
          (put_spec 3 path_c info_one two_cells two_slots).0
          (put_spec 3 path_c info_one two_cells two_slots).1)
put-get_example =
    put-get 3 path_c info_one two_cells two_slots two_cells-IsValid cached_c (omega arith) refl
