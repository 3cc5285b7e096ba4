-- ===== src/Hash.antt =====
-- The string hash that lru_cache.c (`hash_path`) and ss_file_operations.c (`hash_path_for_lock`)
-- both compute in an `unsigned int` of 32 bits. A `char` is signed, so a byte from 128 on is
-- sign-extended before it is added.
use network_file_system.Base.{ℕ, ◌+◌, ◌-◌, ◌*◌, ◌%◌, ◌^◌, [], ◌∷◌, ltb, if◌then◌else◌}
use network_file_system.Common.{FilePath}

pub char_value : ℕ → ℕ
char_value c = if ltb c 128 then c else c + 2 ^ 32 - 256

unfoldable pub hash_loop : ℕ → FilePath → ℕ
unfolding char_value
hash_loop hash [] = hash
hash_loop hash (c ∷ path) = hash_loop ((hash * 31 + char_value c) % 2 ^ 32) path
