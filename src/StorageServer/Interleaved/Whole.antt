-- ===== src/StorageServer/Interleaved/Whole.antt =====
-- storage_server.c: no reader finds a file that is opened and not yet written.
use network_file_system.Base.{
  ℕ, ◌≤◌, ◌≡◌, refl, subst, ◌⊎◌, Bool, true, false, Option, none, some, List, [], ◌∷◌, inl, inr,
  arith, take, same, Becomes, Becomes-All, All, All-map,
}
use network_file_system.Common.{FilePath}
use network_file_system.FileLocks.{granted, RwLocks, Table, acquire_read_lock, acquire_write_lock}
use network_file_system.FileLocks.Threads.{
  Holder, take_read, take_write, Reachable as Attained, started as untouched, later as onward,
}
use network_file_system.FileOperations.{FileSystem}
use network_file_system.StorageServer.Interleaved.{
  Work, to_read, Change, wrote, made, removed, ChangeRequest, a_write, a_create, a_delete, Found,
  Running, idle, holder_of, holders_of, half_of, halves_of,
}
use network_file_system.StorageServer.Interleaved.Counts.{Becomes-holders, Becomes-halves}

-- What the C library says of files: opening for writing makes a file or empties it, writing to an empty
-- file makes its bytes the first ones of those to be written, as many as the result says, a removed
-- file is not there, and none of them changes another file. Two paths may name one file, as "f" and
-- "./f" do, or links: of the paths of `Names` no two do.
pub record IsOrdinary (F : FileSystem) (Names : FilePath → Type 0) : Type 0 where
  pub emptied :
      (path : FilePath) (fs fs' : F.Files)
      → F.truncate path fs ≡ some fs'
      → F.bytes_of path fs' ≡ some []
  pub written :
      (path : FilePath) (b : List ℕ) (n : ℕ) (fs fs' : F.Files)
      → F.bytes_of path fs ≡ some []
      → F.fwrite path b fs ≡ (n, fs')
      → F.bytes_of path fs' ≡ some (take n b)
  pub gone :
      (path : FilePath) (fs fs' : F.Files)
      → F.remove path fs ≡ some fs'
      → F.bytes_of path fs' ≡ none
  pub emptied_apart :
      (path q : FilePath) (fs fs' : F.Files)
      → F.truncate path fs ≡ some fs'
      → Names path
      → Names q
      → same path q ≡ false
      → F.bytes_of q fs' ≡ F.bytes_of q fs
  pub written_apart :
      (path q : FilePath) (b : List ℕ) (n : ℕ) (fs fs' : F.Files)
      → F.fwrite path b fs ≡ (n, fs')
      → Names path
      → Names q
      → same path q ≡ false
      → F.bytes_of q fs' ≡ F.bytes_of q fs
  pub gone_apart :
      (path q : FilePath) (fs fs' : F.Files)
      → F.remove path fs ≡ some fs'
      → Names path
      → Names q
      → same path q ≡ false
      → F.bytes_of q fs' ≡ F.bytes_of q fs

-- The file that a change is of, and what it leaves there.
abbrev pub path_of : Change → FilePath
path_of (wrote path b n) = path
path_of (made path) = path
path_of (removed path) = path

abbrev pub left_by : Change → Option (List ℕ)
left_by (wrote path b n) = some (take n b)
left_by (made path) = some []
left_by (removed path) = none

-- One of the changes has left this at the path.
abbrev pub Left : FilePath → Option (List ℕ) → List Change → Type 0
Left q o [] = ⊥
Left q o (c ∷ cs) = ((path_of c ≡ q) × (left_by c ≡ o)) ⊎ Left q o cs

module _ (P : RwLocks) (F : FileSystem) (fs0 : F.Files) where
  -- What a path had at the start, or what a change of it has left.
  abbrev pub Whole : List Change → FilePath → Option (List ℕ) → Type 0
  Whole cs q o = (o ≡ F.bytes_of q fs0) ⊎ Left q o cs

  pub Whole-more :
      (c : Change) (cs : List Change) (q : FilePath) (o : Option (List ℕ))
      → Whole cs q o
      → Whole (c ∷ cs) q o
  Whole-more c cs q o (inl e) = inl e
  Whole-more c cs q o (inr l) = inr (inr l)

  -- What readers found is whole.
  abbrev pub AllWhole : List Change → List Found → Type 0
  AllWhole cs fs = All (λ f. Whole cs f.path f.bytes) fs

  pub AllWhole-more :
      (c : Change) (cs : List Change) (fs : List Found) → AllWhole cs fs → AllWhole (c ∷ cs) fs
  AllWhole-more c cs fs h = All-map (λ f. Whole-more c cs f.path f.bytes) fs h

module _ (P : RwLocks) (F : FileSystem) (fs0 : F.Files) (Names : FilePath → Type 0) where
  -- A file that no thread has half written is whole, and one that a thread has half written is
  -- empty.
  pub record IsSound (s : Running P F) : Type 0 where
    pub locked : Attained P (record { locks = s.locks; holders = holders_of s.works })
    pub named : All (λ w. Names (holder_of w).path) s.works
    pub whole :
        (q : FilePath)
        → Names q
        → halves_of q s.works ≡ 0
        → Whole P F fs0 s.changes q (F.bytes_of q s.files)
    pub half : (q : FilePath) → Names q → 1 ≤ halves_of q s.works → F.bytes_of q s.files ≡ some []
    pub seen : AllWhole P F fs0 s.changes s.found

  pub idle-IsSound : IsSound (idle P F fs0)
  idle-IsSound = record {
    locked = untouched;
    named = tt;
    whole = λ q k e. inl refl;
    half = λ q k h. absurd (omega (arith, h));
    seen = tt;
  }

  -- The holders are alike.
  pub same_holders :
      (locks : Table P) (hs hs' : List Holder)
      → hs ≡ hs'
      → Attained P (record { locks = locks; holders = hs })
      → Attained P (record { locks = locks; holders = hs' })
  same_holders locks hs hs' e a =
      subst (λ h. Attained P (record { locks = locks; holders = h })) e a

  pub lock_read-IsSound :
      (s : Running P F) (path : FilePath) (has_memory : Bool) (n : Names path)
      (e : (acquire_read_lock P has_memory path s.locks).0 ≡ granted tt)
      → IsSound s
      → IsSound (record s {
        locks = (acquire_read_lock P has_memory path s.locks).1;
        works = to_read path ∷ s.works;
      })
  lock_read-IsSound s path has_memory n e v = record {
    named = (n, v.named);
    locked = onward v.locked (take_read path has_memory e);
    whole = λ q k h. v.whole q k (omega (arith, h));
    half = λ q k h. v.half q k (omega (arith, h));
    seen = v.seen;
  }

  -- A thread that is to change a file has not opened it.
  pub not_half : (w : Work) (path q : FilePath) → ChangeRequest w path → half_of q w ≡ 0
  not_half w path q (a_write _ bytes) = refl
  not_half w path q (a_create _) = refl
  not_half w path q (a_delete _) = refl

  pub writer_of :
      (w : Work) (path : FilePath)
      → ChangeRequest w path
      → record { path = path; for_writing = true } ≡ holder_of w
  writer_of w path (a_write _ bytes) = refl
  writer_of w path (a_create _) = refl
  writer_of w path (a_delete _) = refl

  pub lock_write-IsSound :
      (s : Running P F) (w : Work) (path : FilePath) (has_memory : Bool) (c : ChangeRequest w path)
      (n : Names path) (e : (acquire_write_lock P has_memory path s.locks).0 ≡ granted tt)
      → IsSound s
      → IsSound (record s {
        locks = (acquire_write_lock P has_memory path s.locks).1;
        works = w ∷ s.works;
      })
  lock_write-IsSound s w path has_memory c n e v = record {
    named = (subst (λ h. Names h.path) (writer_of w path c) n, v.named);
    locked =
        subst
          (λ h. Attained P (record {
            locks = (acquire_write_lock P has_memory path s.locks).1;
            holders = h ∷ holders_of s.works;
          }))
          (writer_of w path c) (onward v.locked (take_write path has_memory e));
    whole = λ q k h. v.whole q k (omega (arith, h));
    half = λ q k h. v.half q k (omega (arith, h, not_half w path q c));
    seen = v.seen;
  }

  pub Becomes-named :
      {w w' : Work} {ws ws' : List Work}
      → Becomes w w' ws ws'
      → holder_of w ≡ holder_of w'
      → All (λ u. Names (holder_of u).path) ws
      → All (λ u. Names (holder_of u).path) ws'
  Becomes-named r e h =
      let (k, f) = Becomes-All (λ u. Names (holder_of u).path) r h in
      f (subst (λ h. Names h.path) e k)

  -- A step of one thread that leaves the locks and the files.
  pub quiet-IsSound :
      {w w' : Work} {ws : List Work} (s : Running P F)
      → Becomes w w' s.works ws
      → holder_of w ≡ holder_of w'
      → ((q : FilePath) → half_of q w ≡ 0)
      → ((q : FilePath) → half_of q w' ≡ 0)
      → IsSound s
      → IsSound (record s { works = ws })
  quiet-IsSound s r e h h' v = record {
    named = Becomes-named r e v.named;
    locked = same_holders s.locks _ _ (Becomes-holders e r) v.locked;
    whole = λ q k n. v.whole q k (omega (arith, n, h q, h' q, Becomes-halves q r));
    half = λ q k n. v.half q k (omega (arith, n, h q, h' q, Becomes-halves q r));
    seen = v.seen;
  }
