-- ===== src/StorageServer/Interleaved/Counts.antt =====
-- storage_server.c: the holders of locks and the half-written files, counted at a step.
use network_file_system.Base.{
  ◌+◌, ◌≤◌, ◌≡◌, refl, ap, List, [], ◌∷◌, arith, Becomes, Ends, here, there, first, later,
}
use network_file_system.Common.{FilePath}
use network_file_system.FileLocks.Threads.{
  readers_of, writers_of, reading_of, writing_of, Removes, here as found_here, there as found_there,
}
use network_file_system.StorageServer.Interleaved.{
  Work, to_read, to_open, to_write, to_release, to_create, to_remove, holder_of, holders_of,
  half_of, halves_of,
}

-- The holders after a step of one of them.
pub Becomes-holders :
    {w w' : Work} {ws ws' : List Work}
    → holder_of w ≡ holder_of w'
    → Becomes w w' ws ws'
    → holders_of ws ≡ holders_of ws'
Becomes-holders {ws = w ∷ ws} e here = ap (λ h. h ∷ holders_of ws) e
Becomes-holders e (there k r) = ap (◌∷◌ (holder_of k)) (Becomes-holders e r)

pub Ends-holders :
    {w : Work} {ws ws' : List Work}
    → Ends w ws ws'
    → Removes (holder_of w) (holders_of ws) (holders_of ws')
Ends-holders first = found_here
Ends-holders (later k r) = found_there (holder_of k) (Ends-holders r)

pub Becomes-halves :
    {w w' : Work} {ws ws' : List Work} (q : FilePath)
    → Becomes w w' ws ws'
    → halves_of q ws + half_of q w' ≡ halves_of q ws' + half_of q w
Becomes-halves q here = omega arith
Becomes-halves q (there k r) = omega (arith, Becomes-halves q r)

pub Ends-halves :
    {w : Work} {ws ws' : List Work} (q : FilePath)
    → Ends w ws ws'
    → halves_of q ws ≡ halves_of q ws' + half_of q w
Ends-halves q first = refl
Ends-halves q (later k r) = omega (arith, Ends-halves q r)

-- A thread that has opened a file holds its lock for writing.
half-writing : (q : FilePath) (w : Work) → half_of q w ≤ writing_of q (holder_of w)
half-writing q (to_read path) = omega arith
half-writing q (to_create path) = omega arith
half-writing q (to_remove path) = omega arith
half-writing q (to_open path bytes) = omega arith
half-writing q (to_write path bytes) = omega arith
half-writing q (to_release path for_writing) = omega arith

pub halves-writers : (q : FilePath) (ws : List Work) → halves_of q ws ≤ writers_of q (holders_of ws)
halves-writers q [] = omega arith
halves-writers q (w ∷ ws) = omega (arith, halves-writers q ws, half-writing q w)

-- A thread at its step is counted.
pub Becomes-reading :
    {w w' : Work} {ws ws' : List Work} (q : FilePath)
    → Becomes w w' ws ws'
    → reading_of q (holder_of w) ≤ readers_of q (holders_of ws)
Becomes-reading q here = omega arith
Becomes-reading q (there k r) = omega (arith, Becomes-reading q r)

-- The threads that have opened a file are other than one that holds the lock for writing and has not.
pub halves-others :
    {w w' : Work} {ws ws' : List Work} (q : FilePath)
    → Becomes w w' ws ws'
    → halves_of q ws + writing_of q (holder_of w) ≤ writers_of q (holders_of ws) + half_of q w
halves-others {ws = w ∷ ws} q here = omega (arith, halves-writers q ws)
halves-others q (there k r) = omega (arith, halves-others q r, half-writing q k)
