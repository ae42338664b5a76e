-- ===== src/Pipe/Ends.antt =====
-- kernel/fs/pipefs/pipefs.c: opening, closing and listing pipes.
use Prim.Native.Nat.{bit_and}
use Prim.Native.String.{String}
use bincows.Base.{
  ℕ, ◌+◌, ◌%◌, ◌^◌, ◌/◌, Bool, true, false, not, ◌||◌, Option, none, some, List, [], ◌∷◌, ◌++◌, ltb,
  ◌==◌, if◌then◌else◌, Outcome, ok, panic, ◌>>=◌, ◌>>◌, assert, Bytes, set, get_elem?,
}
use bincows.Pipe.Files.{
  PipeFile, Pipefs, file_at, put_file, get_file, acquire, create_file, remove_file,
  broadcast_waiters,
}

-- The addresses of the ends that `create_pipe` opens: out, then in. Opening them is the VFS's.
unfoldable pub create_pipe : Bytes → Pipefs → Outcome (ℕ × ℕ × Pipefs)
unfolding create_file
create_pipe garbage p = do (id, p') ← create_file garbage p; ok (id, id + 2 ^ 63, p')

-- `spinlock_release(&file->lock)`, by the index of `file`
abbrev pub unlock : ℕ → List PipeFile → List PipeFile
unlock i fs = elim (get_elem? fs i) [ none ↦ fs | some f ↦ set fs i (record f { locked = false }) ]

-- The end that is closed last takes the pipe away. The release of the lock is at the index of
-- the file, where another file may stand by then.
unfoldable pub close_file : ℕ → Pipefs → Outcome Pipefs
unfolding get_file file_at remove_file broadcast_waiters
close_file addr p = do
  let in_end = addr / 2 ^ 63
  (found, p1) ← get_file (addr % 2 ^ 63 % 2 ^ 32) p
  elim found [
    | none ↦ panic
    | some i ↦ (do
      f ← file_at i p1.files
      if f.broken == 0
          then (do
            let closed : PipeFile = record f { broken = if in_end == 0 then 2 else 1 }
            let (woke, f') = broadcast_waiters closed
            ok (
                put_file i (record f' { locked = false })
                  (record p1 { unblocked = woke ++ p1.unblocked; interrupts = p.interrupts })))
          else (do
            assert (not (in_end == 0) || (f.broken == 1))
            assert (not (in_end == 1) || (f.broken == 2))
            let rest = remove_file i p1.files
            ok (record p1 { files = unlock i rest; interrupts = p.interrupts })))
  ]

pub data PipeName : Type 0 where
  named : String → PipeName
  number : ℕ → PipeName

-- `dirent_t`, as `read_dir` fills it. `file_size` is none for `(size_t) -1`.
pub record Dirent : Type 0 where
  pub name : PipeName
  pub ino : ℕ
  pub is_dir : Bool
  pub file_size : Option ℕ
  pub rights : ℕ

-- The entries of the directory of one kind of ends.
unfoldable pub list_ends : Bool → List PipeFile → List Dirent
list_ends inner [] = []
list_ends inner (f ∷ r) =
    let rest = list_ends inner r in
    if (bit_and f.broken (if inner then 1 else 2)) == 0
    then (record {
      name = number f.id;
      ino = f.id;
      is_dir = false;
      file_size = none;
      rights = if inner then 2 else 1;
    }
        ∷ rest)
    else rest

-- `none` is NULL. The lock is taken and given back.
unfoldable pub read_dir : ℕ → Pipefs → Outcome (Option (List Dirent))
unfolding list_ends
read_dir dir_addr p =
    if dir_addr == 0
    then ok (
        some (
          record { name = named "in"; ino = 1; is_dir = true; file_size = some 0; rights = 1 }
          ∷ record { name = named "out"; ino = 2; is_dir = true; file_size = some 0; rights = 1 }
          ∷ []))
    else if ltb 2 dir_addr
    then ok none
    else (acquire p.lock >> ok (some (list_ends (dir_addr == 1) p.files)))
