-- ===== src/Pipe/Tests.antt =====
-- Runs of pipes, and the theorems at small pipes.
use bincows.Base.{
  ℕ, ◌+◌, ◌%◌, ◌≡◌, refl, inl, List, [], ◌∷◌, true, false, none, some, Outcome, ok, ◌>>=◌, arith,
  Option, Bytes, slice, copy,
}
use bincows.Pipe.Files.{PipeFile, Pipefs, ThreadId, find_id, get_file}
use bincows.Pipe.Copying.{Turn, read_turn, write_turn}
use bincows.Pipe.Ops.{pipefs_read, write, read_loop, write_loop, finish, release_file}
use bincows.Pipe.Ends.{create_pipe}
use bincows.Pipe.Contents.{IsPipe}
use bincows.Pipe.Turns.{Took, read_turn-Took}
use bincows.Pipe.Adding.{Gave, write_turn-Gave}
use bincows.Pipe.Reading.{IsOpen, read_broken}

abbrev me : ThreadId
me = (2, 1)

abbrev bytes : Bytes
bytes a = a % 251

abbrev zeros : Bytes
zeros a = 0

-- 34 bytes that go round the end of the buffer
abbrev wrapped : PipeFile
wrapped = record {
  id = 5;
  buffer = bytes;
  tail = 10;
  head = 1000;
  broken = 0;
  waiters = (3, 1) ∷ [];
  locked = false;
}

abbrev broken : PipeFile
broken = record wrapped { broken = 1 }

-- 1000 bytes from the start of the buffer on
abbrev from_start : PipeFile
from_start = record wrapped { head = 0; tail = 1000 }

abbrev pipes : Pipefs
pipes = record {
  files = record wrapped { id = 4 } ∷ broken ∷ [];
  cur_id = 5;
  lock = false;
  interrupts = true;
  unblocked = [];
}

wrapped-IsPipe : IsPipe wrapped
wrapped-IsPipe = omega arith

-- Write three bytes to a new pipe and read them back.
run : Outcome (Option ℕ × List ℕ)
unfolding create_pipe pipefs_read write read_loop write_loop read_turn write_turn finish
    release_file get_file copy slice
run = do
  (out, inner, p) ← create_pipe zeros pipes
  (_, _, p) ← write me [] inner (λ a. a + 7) 3 p
  (n, buf, p) ← pipefs_read me [] out zeros 8 p
  ok (n, slice buf 0 4)

run_gives : run ≡ ok (some 3, 7 ∷ 8 ∷ 9 ∷ 0 ∷ [])
unfolding run
run_gives = refl

read_turn-Took_example :
    (t : Turn) × (k : ℕ) × (read_turn wrapped zeros 30 ≡ ok t) × Took wrapped zeros 30 t k
read_turn-Took_example = read_turn-Took wrapped zeros 30 wrapped-IsPipe (omega arith)

write_turn-Gave_example :
    (t : Turn) × (k : ℕ) × (write_turn wrapped bytes 2000 ≡ ok t) × Gave wrapped bytes 2000 t k
write_turn-Gave_example =
    write_turn-Gave wrapped bytes 2000 wrapped-IsPipe (omega arith) (inl (omega arith))

broken-IsOpen : IsOpen pipes 5 1 broken
unfolding find_id
broken-IsOpen = record {
  found = refl;
  here = refl;
  table_free = refl;
  free = refl;
  id_in = omega arith;
}

read_broken_example : pipefs_read me [] 5 zeros 9 pipes ≡ ok (none, zeros, pipes)
read_broken_example =
    read_broken me pipes 5 1 broken broken-IsOpen [] zeros 9 (omega arith) (omega arith)
      (omega arith)
