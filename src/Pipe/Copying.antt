-- ===== src/Pipe/Copying.antt =====
-- kernel/fs/pipefs/pipefs.c: one round of the copy loops of `pipefs_read` and `write`.
use bincows.Base.{
  ℕ, ◌+◌, ◌-◌, ◌%◌, ◌^◌, Bool, true, false, not, ◌&&◌, List, [], ltb, leb, ◌==◌, if◌then◌else◌,
  Outcome, ok, ◌>>◌, assert, Bytes, copy,
}
use bincows.Pipe.Files.{PipeFile, ThreadId, pipe_size, broadcast_waiters}

-- `if(batch) broadcast_waiters(file)`
abbrev pub wake_if_any : ℕ → PipeFile → List ThreadId × PipeFile
wake_if_any batch f = if batch == 0 then ([], f) else broadcast_waiters f

-- One round of a copy loop: the file, the caller's buffer, the threads that were woken, the bytes
-- that remain, and whether the round found too little to go on.
pub record Turn : Type 0 where
  pub file : PipeFile
  pub buf : Bytes
  pub woke : List ThreadId
  pub remaining : ℕ
  pub block : Bool

-- The bytes of one round of `pipefs_read`, and the flag `block`.
abbrev pub read_limit : PipeFile → ℕ → ℕ × Bool
read_limit f remaining =
    if leb f.head f.tail && ltb f.tail ((f.head + remaining) % 2 ^ 32)
    then (f.tail - f.head, true)
    else (remaining, false)

-- One round of the loop of `pipefs_read`, where the pipe is not broken.
unfoldable pub read_turn : PipeFile → Bytes → ℕ → Outcome Turn
unfolding broadcast_waiters
read_turn f buf remaining =
    let (limit, block) = read_limit f remaining in
    let wrap = ltb (pipe_size - f.head) limit in
    let batch_rd = if wrap then pipe_size - f.head else limit in
    let moved : PipeFile = record f { head = if wrap then 0 else f.head + batch_rd } in
    let (woke, file) = wake_if_any batch_rd moved in
    assert (not (wrap && block))
    >> ok (record {
      file = file;
      buf = copy buf 0 f.buffer f.head batch_rd;
      woke = woke;
      remaining = remaining - batch_rd;
      block = block;
    })

abbrev pub write_limit : PipeFile → ℕ → ℕ × Bool
write_limit f remaining =
    if ltb f.tail f.head && leb f.head ((f.tail + remaining) % 2 ^ 32)
    then (f.head - f.tail - 1, true)
    else (remaining, false)

-- One round of the loop of `write`, where the pipe is not broken.
unfoldable pub write_turn : PipeFile → Bytes → ℕ → Outcome Turn
unfolding broadcast_waiters
write_turn f buf remaining =
    let (limit, block) = write_limit f remaining in
    let wrap = ltb (pipe_size - f.tail) limit in
    let batch_wr = if wrap then pipe_size - f.tail else limit in
    let moved : PipeFile = record f {
      buffer = copy f.buffer f.tail buf 0 batch_wr;
      tail = if wrap then 0 else f.tail + batch_wr;
    } in
    let (woke, file) = wake_if_any batch_wr moved in
    assert (not (wrap && block))
    >> ok (record {
      file = file;
      buf = buf;
      woke = woke;
      remaining = remaining - batch_wr;
      block = block;
    })
