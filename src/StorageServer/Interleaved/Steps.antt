-- ===== src/StorageServer/Interleaved/Steps.antt =====
-- storage_server.c: every step keeps the files whole.
use network_file_system.Base.{
  ℕ, ◌+◌, ◌≤◌, ◌≡◌, refl, ap, ◌∙◌, sym, subst, Bool, true, false, some, List, [], ◌∷◌, inl, inr,
  arith, Bool-cases, same, same_refl, eq_of_same, Becomes, Ends, Becomes-All, Ends-All,
}
use network_file_system.Common.{FilePath}
use network_file_system.FileLocks.{RwLocks, Table, release_lock}
use network_file_system.FileLocks.Threads.{
  Excludes, reading_of, writing_of, writers_of, give, Reachable as Attained, later as onward,
  miss_read as missed_read, miss_write as missed_write,
}
use network_file_system.FileLocks.Threads.Exclusion.{exclusive}
use network_file_system.FileOperations.{FileSystem}
use network_file_system.StorageServer.Interleaved.{
  Work, to_read, to_open, to_write, to_create, to_remove, to_release, Change, wrote, made, removed,
  ChangeRequest, a_create, a_delete, Running, Step, lock_read, lock_write, miss_read, miss_write,
  reads, opens, writes, creates, removes, gives_up, releases, Reachable, started, after, holder_of,
  holders_of, half_of, halves_of,
}
use network_file_system.StorageServer.Interleaved.Counts.{
  Becomes-holders, Ends-holders, Becomes-halves, Ends-halves, halves-writers, halves-others,
  Becomes-reading,
}
use network_file_system.StorageServer.Interleaved.Whole.{
  IsOrdinary, path_of, left_by, Whole, Whole-more, AllWhole, AllWhole-more, IsSound, Becomes-named,
  idle-IsSound, same_holders, lock_read-IsSound, lock_write-IsSound, quiet-IsSound, not_half,
  writer_of,
}

module _ (P : RwLocks) (F : FileSystem) (fs0 : F.Files) (Names : FilePath → Type 0) (X : Excludes P)
    (O : IsOrdinary F Names) where
  -- A path that is read is not half written.
  read-Whole :
      (s : Running P F) (path : FilePath) (ws : List Work)
      → Becomes (to_read path) (to_release path false) s.works ws
      → IsSound P F fs0 Names s
      → Whole P F fs0 s.changes path (F.bytes_of path s.files)
  read-Whole s path ws r v =
      let one : reading_of path (holder_of (to_read path)) ≡ 1 = rw (same_refl path) refl in
      let reader = Becomes-reading path r in
      let half = halves-writers path s.works in
      let k = (Becomes-All (λ u. Names (holder_of u).path) r v.named).0 in
      v.whole path k (elim (exclusive P _ X v.locked path) [
        | inl none_writes ↦ omega (arith, none_writes, half)
        | inr (one_writes, none_reads) ↦ absurd (omega (arith, none_reads, reader, one))
      ])

  reads-IsSound :
      (s : Running P F) (path : FilePath) (ws : List Work)
      → Becomes (to_read path) (to_release path false) s.works ws
      → IsSound P F fs0 Names s
      → IsSound P F fs0 Names (record s {
        works = ws;
        found = record { path = path; bytes = F.bytes_of path s.files } ∷ s.found;
      })
  reads-IsSound s path ws r v =
      let q = quiet-IsSound P F fs0 Names s r refl (λ q. refl) (λ q. refl) v in
      record {
        locked = q.locked;
        named = q.named;
        whole = q.whole;
        half = q.half;
        seen = (read-Whole s path ws r v, v.seen);
      }

  opens-IsSound :
      (s : Running P F) (path : FilePath) (bytes : List ℕ) (ws : List Work) (fs : F.Files)
      → Becomes (to_open path bytes) (to_write path bytes) s.works ws
      → F.truncate path s.files ≡ some fs
      → IsSound P F fs0 Names s
      → IsSound P F fs0 Names (record s { files = fs; works = ws })
  opens-IsSound s path bytes ws fs r e v =
      let m = (Becomes-All (λ u. Names (holder_of u).path) r v.named).0 in
      record {
        named = Becomes-named P F fs0 Names r refl v.named;
        locked = same_holders P F fs0 Names s.locks _ _ (Becomes-holders refl r) v.locked;
        whole = λ q k n. elim (Bool-cases (same path q)) [
          | inl one ↦
              let more : halves_of q s.works + 1 ≡ halves_of q ws + 0 =
                rw one at (Becomes-halves q r) in
              absurd (omega (arith, n, more))
          | inr other ↦
              let alike : halves_of q s.works + 0 ≡ halves_of q ws + 0 =
                rw other at (Becomes-halves q r) in
              subst (Whole P F fs0 s.changes q)
                (sym (O.emptied_apart path q s.files fs e m k other))
                (v.whole q k (omega (arith, n, alike)))
        ];
        half = λ q k n. elim (Bool-cases (same path q)) [
          | inl one ↦
              ap (λ p. F.bytes_of p fs) (sym (eq_of_same path q one)) ∙ O.emptied path s.files fs e
          | inr other ↦
              let alike : halves_of q s.works + 0 ≡ halves_of q ws + 0 =
                rw other at (Becomes-halves q r) in
              O.emptied_apart path q s.files fs e m k other ∙ v.half q k (omega (arith, n, alike))
        ];
        seen = v.seen;
      }

  one_writer :
      (s : Running P F) (path : FilePath)
      → IsSound P F fs0 Names s
      → writers_of path (holders_of s.works) ≤ 1
  one_writer s path v = elim (exclusive P _ X v.locked path) [
    | inl none_writes ↦ omega (arith, none_writes)
    | inr (one_writes, none_reads) ↦ omega (arith, one_writes)
  ]

  -- A thread makes a change to a path that no other has half written.
  module _ (s : Running P F) (c : Change) {w : Work} {ws : List Work} (fs : F.Files)
      (r : Becomes w (to_release (path_of c) true) s.works ws)
      (holds : holder_of w ≡ record { path = path_of c; for_writing = true })
      (others : halves_of (path_of c) ws ≡ 0)
      (half_apart : (q : FilePath) → same (path_of c) q ≡ false → half_of q w ≡ 0)
      (left : F.bytes_of (path_of c) fs ≡ left_by c)
      (apart : (q : FilePath)
        → Names q
        → same (path_of c) q ≡ false
        → F.bytes_of q fs ≡ F.bytes_of q s.files) where
    changed-Whole :
        (q : FilePath)
        → Names q
        → IsSound P F fs0 Names s
        → halves_of q ws ≡ 0
        → Whole P F fs0 (c ∷ s.changes) q (F.bytes_of q fs)
    changed-Whole q k v n = elim (Bool-cases (same (path_of c) q)) [
      | inl one ↦
          let here_is = eq_of_same (path_of c) q one in
          inr (inl (here_is, sym left ∙ ap (λ p. F.bytes_of p fs) here_is))
      | inr other ↦ subst (Whole P F fs0 (c ∷ s.changes) q) (sym (apart q k other)) (
          Whole-more P F fs0 c s.changes q _
            (v.whole q k (omega (arith, n, half_apart q other, Becomes-halves q r))))
    ]

    changed-half :
        (q : FilePath)
        → Names q
        → IsSound P F fs0 Names s
        → 1 ≤ halves_of q ws
        → F.bytes_of q fs ≡ some []
    changed-half q k v n = elim (Bool-cases (same (path_of c) q)) [
      | inl one ↦
          let none_else = ap (λ p. halves_of p ws) (sym (eq_of_same (path_of c) q one)) ∙ others in
          absurd (omega (arith, n, none_else))
      | inr other ↦
          apart q k other ∙ v.half q k (omega (arith, n, half_apart q other, Becomes-halves q r))
    ]

    changed-IsSound :
        IsSound P F fs0 Names s
        → IsSound P F fs0 Names (record s { files = fs; works = ws; changes = c ∷ s.changes })
    changed-IsSound v = record {
      locked = same_holders P F fs0 Names s.locks _ _ (Becomes-holders holds r) v.locked;
      named = Becomes-named P F fs0 Names r holds v.named;
      whole = λ q k n. changed-Whole q k v n;
      half = λ q k n. changed-half q k v n;
      seen = AllWhole-more P F fs0 c s.changes s.found v.seen;
    }

  -- A thread that has the lock for writing and has not opened the file finds it half written by none.
  unopened :
      (s : Running P F) (w : Work) (path : FilePath) (ws : List Work)
      → ChangeRequest w path
      → Becomes w (to_release path true) s.works ws
      → IsSound P F fs0 Names s
      → halves_of path ws ≡ 0
  unopened s w path ws c r v =
      let writes_it : writing_of path (holder_of w) ≡ 1 =
        subst (λ h. writing_of path h ≡ 1) (writer_of P F fs0 Names w path c)
          (rw (same_refl path) refl) in
      omega (
        arith,
        writes_it,
        one_writer s path v,
        halves-others path r,
        Becomes-halves path r,
        not_half P F fs0 Names w path path c,
      )

  writes-IsSound :
      (s : Running P F) (path : FilePath) (bytes : List ℕ) (n : ℕ) (ws : List Work) (fs : F.Files)
      → Becomes (to_write path bytes) (to_release path true) s.works ws
      → F.fwrite path bytes s.files ≡ (n, fs)
      → IsSound P F fs0 Names s
      → IsSound P F fs0 Names
          (record s { files = fs; works = ws; changes = wrote path bytes n ∷ s.changes })
  writes-IsSound s path bytes n ws fs r e v =
      let less : halves_of path s.works + 0 ≡ halves_of path ws + 1 =
        rw (same_refl path) at (Becomes-halves path r) in
      let m = (Becomes-All (λ u. Names (holder_of u).path) r v.named).0 in
      let was_empty = v.half path m (omega (arith, less)) in
      changed-IsSound s (wrote path bytes n) fs r refl
        (omega (arith, less, one_writer s path v, halves-writers path s.works))
        (λ q other. rw other refl) (O.written path bytes n s.files fs was_empty e)
        (λ q k other. O.written_apart path q bytes n s.files fs e m k other) v

  moved_locks :
      (s : Running P F) (t : Table P)
      → Attained P (record { locks = t; holders = holders_of s.works })
      → IsSound P F fs0 Names s
      → IsSound P F fs0 Names (record s { locks = t })
  moved_locks s t a v = record {
    locked = a;
    named = v.named;
    whole = v.whole;
    half = v.half;
    seen = v.seen;
  }

  releases-IsSound :
      (s : Running P F) (path : FilePath) (for_writing : Bool) (ws : List Work)
      → Ends (to_release path for_writing) s.works ws
      → IsSound P F fs0 Names s
      → IsSound P F fs0 Names (record s { locks = release_lock P path s.locks; works = ws })
  releases-IsSound s path for_writing ws r v = record {
    locked = onward v.locked (give (holder_of (to_release path for_writing)) (Ends-holders r));
    named = (Ends-All (λ u. Names (holder_of u).path) r v.named).1;
    whole = λ q k n. v.whole q k (omega (arith, n, Ends-halves q r));
    half = λ q k n. v.half q k (omega (arith, n, Ends-halves q r));
    seen = v.seen;
  }

  Step-IsSound :
      {s t : Running P F} → Step P F Names s t → IsSound P F fs0 Names s → IsSound P F fs0 Names t
  Step-IsSound {s = s} (lock_read path m k e) v = lock_read-IsSound P F fs0 Names s path m k e v
  Step-IsSound {s = s} (lock_write w path m c k e) v =
      lock_write-IsSound P F fs0 Names s w path m c k e v
  Step-IsSound {s = s} (miss_read path m e) v =
      moved_locks s _ (onward v.locked (missed_read path m e)) v
  Step-IsSound {s = s} (miss_write path m e) v =
      moved_locks s _ (onward v.locked (missed_write path m e)) v
  Step-IsSound {s = s} (reads path {ws = ws} r) v = reads-IsSound s path ws r v
  Step-IsSound {s = s} (opens path b {ws = ws} {fs = fs} r e) v = opens-IsSound s path b ws fs r e v
  Step-IsSound {s = s} (writes path b n {ws = ws} {fs = fs} r e) v =
      writes-IsSound s path b n ws fs r e v
  Step-IsSound {s = s} (creates path {ws = ws} {fs = fs} r e) v =
      let m = (Becomes-All (λ u. Names (holder_of u).path) r v.named).0 in
      changed-IsSound s (made path) fs r refl
        (unopened s (to_create path) path ws (a_create path) r v) (λ q other. refl)
        (O.emptied path s.files fs e) (λ q k other. O.emptied_apart path q s.files fs e m k other) v
  Step-IsSound {s = s} (removes path {ws = ws} {fs = fs} r e) v =
      let m = (Becomes-All (λ u. Names (holder_of u).path) r v.named).0 in
      changed-IsSound s (removed path) fs r refl
        (unopened s (to_remove path) path ws (a_delete path) r v) (λ q other. refl)
        (O.gone path s.files fs e) (λ q k other. O.gone_apart path q s.files fs e m k other) v
  Step-IsSound {s = s} (gives_up w path c r) v =
      quiet-IsSound P F fs0 Names s r (sym (writer_of P F fs0 Names w path c))
        (λ q. not_half P F fs0 Names w path q c) (λ q. refl) v
  Step-IsSound {s = s} (releases path w {ws = ws} r) v = releases-IsSound s path w ws r v

  Reachable-IsSound : (s : Running P F) → Reachable P F Names fs0 s → IsSound P F fs0 Names s
  Reachable-IsSound s started = idle-IsSound P F fs0 Names
  Reachable-IsSound t (after {s = s} r step) = Step-IsSound step (Reachable-IsSound s r)

-- However the threads of a storage server that read, write, create and delete files are interleaved,
-- where of the paths in their requests no two name one file,
-- whatever a reader finds in a path is what the path held when the server started, or what a change
-- of it left that had come to its end: the bytes of a write, as many as `fwrite` has taken, the empty
-- file of a creation, or no file after a removal; never the empty file of a write that is under way.
-- The locks exclude as POSIX says, and files are as the C library says.
pub no_torn_read :
    (P : RwLocks) (F : FileSystem) (Names : FilePath → Type 0) (fs0 : F.Files) (s : Running P F)
    → Excludes P
    → IsOrdinary F Names
    → Reachable P F Names fs0 s
    → AllWhole P F fs0 s.changes s.found
no_torn_read P F Names fs0 s X O r = (Reachable-IsSound P F fs0 Names X O s r).seen
