-- ===== src/NamingServer/Threads/Registry.antt =====
-- naming_server.c: threads in any order keep the registry well formed.
use network_file_system.Base.{subst, All, All-map, Becomes-All, Ends-All}
use network_file_system.NamingServer.State.{NamingServer, served}
use network_file_system.NamingServer.Shape.{IsRegistry}
use network_file_system.NamingServer.Threads.{
  goes_on, ends, Running, Step, arrives, moves, responds, Steps, no_step, after, alone_at,
}
use network_file_system.NamingServer.Threads.Advance.{InUse, InUse-grown, Keeps, advance-Keeps}

abbrev IsSound : Running → Type 0
IsSound r = IsRegistry r.state × All (InUse r.state.num_registered_ss) r.threads

Step-IsSound : {r r' : Running} → Step r r' → IsSound r → IsSound r'
Step-IsSound (arrives out msg other) (v, us) = (v, (tt, us))
Step-IsSound {r = r} (moves {t = t} {t' = t'} {s = s} {ts = ts} replaces e) (v, us) =
    let n = r.state.num_registered_ss in
    let (u, _) = Becomes-All (InUse n) replaces us in
    let (v', grows, u') : Keeps n (goes_on t' s) =
      subst (Keeps n) e (advance-Keeps t r.state v u) in
    let us' = All-map (λ u. InUse-grown n s.num_registered_ss u grows) r.threads us in
    (v', (Becomes-All (InUse s.num_registered_ss) replaces us').1 u')
Step-IsSound {r = r} (responds {t = t} {m = m} {s = s} {ts = ts} leaves e) (v, us) =
    let n = r.state.num_registered_ss in
    let (u, us') = Ends-All (InUse n) leaves us in
    let (v', grows) : Keeps n (ends (served m s)) =
      subst (Keeps n) e (advance-Keeps t r.state v u) in
    (v', All-map (λ u. InUse-grown n s.num_registered_ss u grows) ts us')

Steps-IsSound : {r r' : Running} → Steps r r' → IsSound r → IsSound r'
Steps-IsSound no_step v = v
Steps-IsSound (after steps step) v = Step-IsSound step (Steps-IsSound steps v)

-- However threads are interleaved that handle requests other than REGISTER_SS, a registry that is well
-- formed at first stays well formed: the array of servers has its 100 slots and at most 100 in use,
-- the turn is at a server in use or at 0, each server has its ten slots for paths and at most ten in
-- use, the tree has a root, and every path in the tree leads to a server in use.
pub interleaved-IsRegistry :
    (s : NamingServer) (r : Running) → IsRegistry s → Steps (alone_at s) r → IsRegistry r.state
interleaved-IsRegistry s r v steps = (Steps-IsSound steps (v, tt)).0
