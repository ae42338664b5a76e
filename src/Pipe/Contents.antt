-- ===== src/Pipe/Contents.antt =====
-- The bytes that a pipe holds, oldest first.
use bincows.Base.{
  ℕ, ◌+◌, ◌-◌, ◌≤◌, ◌<◌, ◌≡◌, List, ◌++◌, leb, if◌then◌else◌, Bytes, slice, length, length-append,
  length-slice, slice-append, arith, append_assoc,
}
use bincows.Pipe.Files.{PipeFile, pipe_size, broadcast_waiters}
use bincows.Pipe.Copying.{wake_if_any}

-- The bytes from `head` up to `tail`, going round at the end of the buffer.
abbrev pub window : Bytes → ℕ → ℕ → List ℕ
window m head tail =
    if leb head tail
    then slice m head (tail - head)
    else (slice m head (pipe_size - head) ++ slice m 0 tail)

abbrev pub contents : PipeFile → List ℕ
contents f = window f.buffer f.head f.tail

pub record IsPipe (f : PipeFile) : Type 0 where
  pub head_in : f.head ≤ pipe_size
  pub tail_in : f.tail ≤ pipe_size

-- how many bytes a pipe holds
abbrev pub held : PipeFile → ℕ
held f = if leb f.head f.tail then f.tail - f.head else pipe_size - f.head + f.tail

pub length-contents : (f : PipeFile) → length (contents f) ≡ held f
length-contents f = ground (
  arith,
  length-slice f.buffer f.head (f.tail - f.head),
  length-slice f.buffer f.head (pipe_size - f.head),
  length-slice f.buffer 0 f.tail,
  length-append (slice f.buffer f.head (pipe_size - f.head)) (slice f.buffer 0 f.tail),
)

pub contents-wake_if_any : (k : ℕ) (f : PipeFile) → contents (wake_if_any k f).1 ≡ contents f
unfolding broadcast_waiters
contents-wake_if_any k f = ground arith

pub wake_if_any-IsPipe : (k : ℕ) (f : PipeFile) → IsPipe f → IsPipe (wake_if_any k f).1
unfolding broadcast_waiters
wake_if_any-IsPipe k f v = ground arith

-- A slice splits after its first `a` bytes.
slice_split :
    (m : Bytes) (i a n j b : ℕ) → n ≡ a + b → j ≡ i + a → slice m i n ≡ slice m i a ++ slice m j b
slice_split m i a n j b p q = rw (p, q) (slice-append m i a b)

module _ (m : Bytes) (head tail k : ℕ) where
  -- Taking `k` bytes off the front of a window, without reaching the end of the buffer.
  pub window_front_low :
      head + k ≤ tail → window m head tail ≡ slice m head k ++ window m (head + k) tail
  window_front_low h =
      ground (arith, slice_split m head k (tail - head) (head + k) (tail - (head + k)))

  pub window_front_high :
      tail < head
      → head + k ≤ pipe_size
      → window m head tail ≡ slice m head k ++ window m (head + k) tail
  window_front_high l h = ground (
    arith,
    slice_split m head k (pipe_size - head) (head + k) (pipe_size - (head + k)),
    append_assoc (slice m head k) (slice m (head + k) (pipe_size - (head + k))) (slice m 0 tail),
  )

-- Taking all bytes up to the end of the buffer.
pub window_front_wrap :
    (m : Bytes) (head tail : ℕ)
    → tail < head
    → window m head tail ≡ slice m head (pipe_size - head) ++ window m 0 tail
window_front_wrap m head tail l = ground arith
