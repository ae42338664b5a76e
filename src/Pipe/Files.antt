-- ===== src/Pipe/Files.antt =====
-- kernel/fs/pipefs/pipefs.c: the table of pipes, and the search for one. `true` in `locked` and
-- `lock` is a lock that is held.
use bincows.Base.{
  ℕ, suc, ◌+◌, ◌%◌, ◌^◌, Bool, true, false, Option, none, some, List, [], ◌∷◌, ◌++◌, ◌==◌,
  if◌then◌else◌, Outcome, ok, wild, hang, ◌>>=◌, ◌>>◌, Bytes, set, get_elem?,
}

-- PIPE_SIZE
abbrev pub pipe_size : ℕ
pipe_size = 1024

-- `thread_id_t`: pid and tid
abbrev pub ThreadId : Type 0
ThreadId = ℕ × ℕ

-- `pipefs_file_t`. `n_waiters` is the length of `waiters`.
pub record PipeFile : Type 0 where
  pub id : ℕ
  pub buffer : Bytes
  pub tail : ℕ
  pub head : ℕ
  pub broken : ℕ
  pub waiters : List ThreadId
  pub locked : Bool

-- `struct pipefs_priv`, the counter of `create_file`, the interrupt flag, and the calls of
-- `sched_unblock`, latest first.
pub record Pipefs : Type 0 where
  pub files : List PipeFile
  pub cur_id : ℕ
  pub lock : Bool
  pub interrupts : Bool
  pub unblocked : List ThreadId

-- `spinlock_acquire(&priv->lock)` with interrupts off
abbrev pub acquire : Bool → Outcome (Unit {0})
acquire true = hang
acquire false = ok tt

-- Uninitialised memory of `malloc` is `garbage`.
unfoldable pub create_file : Bytes → Pipefs → Outcome (ℕ × Pipefs)
create_file garbage p = do
  acquire p.lock
  let id = (p.cur_id + 1) % 2 ^ 32
  let file : PipeFile = record {
    id = id;
    buffer = garbage;
    tail = 0;
    head = 0;
    broken = 0;
    waiters = [];
    locked = false;
  }
  ok (id, record p { files = p.files ++ (file ∷ []); cur_id = id })

-- The elements without the last one, which `remove_file` moves.
abbrev pub shrink : List PipeFile → List PipeFile
shrink [] = []
shrink (f ∷ []) = []
shrink (f ∷ g ∷ r) = f ∷ shrink (g ∷ r)

abbrev pub last_of : PipeFile → List PipeFile → PipeFile
last_of f [] = f
last_of f (g ∷ r) = last_of g r

-- `i` is the index of `file` in `priv->files`.
unfoldable pub remove_file : ℕ → List PipeFile → List PipeFile
remove_file i [] = []
remove_file i (f ∷ r) = shrink (set (f ∷ r) i (last_of f r))

-- The index of the file with that id.
unfoldable pub find_id : ℕ → List PipeFile → Option ℕ
find_id id [] = none
find_id id (f ∷ r) =
    let later = find_id id r in
    if f.id == id then some 0 else elim later [ none ↦ none | some i ↦ some (suc i) ]

-- a file that is surely there
unfoldable pub file_at : ℕ → List PipeFile → Outcome PipeFile
file_at i fs = elim (get_elem? fs i) [ none ↦ wild | some f ↦ ok f ]

abbrev pub put_file : ℕ → PipeFile → Pipefs → Pipefs
put_file i f p = record p { files = set p.files i f }

-- Acquires the file and disables interrupts if it is found.
unfoldable pub get_file : ℕ → Pipefs → Outcome (Option ℕ × Pipefs)
unfolding find_id file_at
get_file id p = do
  acquire p.lock
  elim (find_id id p.files) [
    | none ↦ ok (none, p)
    | some i ↦ (do
      f ← file_at i p.files
      acquire f.locked
      ok (some i, put_file i (record f { locked = true }) (record p { interrupts = false })))
  ]

-- What ends a wait: a signal, or a call of `sched_unblock`. The function is what all other
-- threads do to the pipes until then.
pub data Wake : Type 0 where
  signal : (Pipefs → Pipefs) → Wake
  woken : (Pipefs → Pipefs) → Wake

-- What `wait_for_buffer` does before the thread sleeps.
unfoldable pub before_wait : ThreadId → ℕ → PipeFile → Pipefs → Pipefs
before_wait me i f p =
    put_file i (record f { waiters = f.waiters ++ (me ∷ []); locked = false })
      (record p { interrupts = true })

unfoldable pub wait_for_buffer :
    ThreadId → Wake → ℕ → PipeFile → Pipefs → Outcome (Option ℕ × Pipefs)
unfolding get_file before_wait
wait_for_buffer me (signal others) i f p =
    ok (none, record (others (before_wait me i f p)) { interrupts = false })
wait_for_buffer me (woken others) i f p = get_file f.id (others (before_wait me i f p))

unfoldable pub broadcast_waiters : PipeFile → List ThreadId × PipeFile
broadcast_waiters f = (f.waiters, record f { waiters = [] })
