-- ===== src/NamingServer/Turns.antt =====
-- naming_server.c: the servers that `get_available_ss_for_creation` gives, one call after another.
use native.Mathlib.Nat.{mod-lt, mod-add-mod, mod-eq_of_lt}
use network_file_system.Base.{
  ℕ, zero, suc, ◌+◌, ◌%◌, ◌<◌, ◌≡◌, refl, ap, ◌∙◌, true, some, arith, ltb,
}
use network_file_system.NamingServer.State.{NamingServer, get_available_ss_for_creation}

-- The state after so many calls.
abbrev pub after_calls : ℕ → NamingServer → NamingServer
after_calls zero s = s
after_calls (suc k) s = after_calls k (get_available_ss_for_creation s).1

-- A call gives the server whose turn it is, and passes the turn.
one_call :
    (s : NamingServer)
    → s.current_ss_index < s.num_registered_ss
    → get_available_ss_for_creation s ≡ (
      some s.current_ss_index,
      record s { current_ss_index = (s.current_ss_index + 1) % s.num_registered_ss },
    )
unfolding get_available_ss_for_creation
one_call s h =
    let some_server : ltb 0 s.num_registered_ss ≡ true = ground arith in rw some_server refl

-- With servers in use and the turn at one of them, call `k`, counted from 0, gives the server `k`
-- places behind the turn, around the servers in use.
pub call-after_calls :
    (k : ℕ) (s : NamingServer)
    → s.current_ss_index < s.num_registered_ss
    → (get_available_ss_for_creation (after_calls k s)).0
      ≡ some ((s.current_ss_index + k) % s.num_registered_ss)
call-after_calls zero s h =
    let sum : s.current_ss_index + 0 ≡ s.current_ss_index = omega arith in
    rw (one_call s h, sum, mod-eq_of_lt h) refl
call-after_calls (suc k) s h =
    let n = s.num_registered_ss in
    let next = record s { current_ss_index = (s.current_ss_index + 1) % n } in
    let sum : s.current_ss_index + 1 + k ≡ s.current_ss_index + suc k = omega arith in
    rw (one_call s h) (
      call-after_calls k next (mod-lt (s.current_ss_index + 1) (ground arith))
      ∙ ap some (mod-add-mod (s.current_ss_index + 1) n k ∙ ap (λ a. a % n) sum))
