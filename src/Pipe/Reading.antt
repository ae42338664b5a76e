-- ===== src/Pipe/Reading.antt =====
-- `pipefs_read` as a whole, where it need not wait.
use bincows.Base.{
  ℕ, suc, ◌+◌, ◌*◌, ◌/◌, ◌%◌, ◌^◌, ◌<◌, ◌≡◌, ◌≢◌, true, false, List, ◌==◌, Bytes, length, arith, ok,
  none, some, get_elem?, set, get_elem?-set_self, set-set, set_same,
}
use bincows.Pipe.Files.{PipeFile, Pipefs, ThreadId, Wake, file_at, find_id, put_file, get_file}
use bincows.Pipe.Ops.{read_loop, release_file, finish, pipefs_read}

file_at-here :
    (i : ℕ) (fs : List PipeFile) {f : PipeFile} → get_elem? fs i ≡ some f → file_at i fs ≡ ok f
unfolding file_at
file_at-here i fs h = rw (h, file_at)

-- The pipe `f` stands at `i` under the id, and nobody holds a lock.
pub record IsOpen (p : Pipefs) (id i : ℕ) (f : PipeFile) : Type 0 where
  pub found : find_id id p.files ≡ some i
  pub here : get_elem? p.files i ≡ some f
  pub table_free : p.lock ≡ false
  pub free : f.locked ≡ false
  pub id_in : id < 2 ^ 32

abbrev held_file : PipeFile → PipeFile
held_file f = record f { locked = true }

abbrev pub taken : ℕ → PipeFile → Pipefs → Pipefs
taken i f p = put_file i (held_file f) (record p { interrupts = false })

module _ (me : ThreadId) (p : Pipefs) (id i : ℕ) (f : PipeFile) (o : IsOpen p id i f) where
  get_file_lem : get_file id p ≡ ok (some i, taken i f p)
  unfolding get_file
  get_file_lem = ground (arith, file_at-here i p.files o.here)

  here-taken : get_elem? (taken i f p).files i ≡ some (held_file f)
  here-taken = get_elem?-set_self p.files i (held_file f) o.here

  -- Giving the file back undoes taking it.
  release-taken : release_file p.interrupts i (taken i f p) ≡ ok p
  unfolding release_file
  release-taken =
      rw (file_at-here i (set p.files i (held_file f)) here-taken)
        (cc (set-set p.files i (held_file f) f, set_same p.files i o.here, o.free))

  addr_low : ((id / 2 ^ 63) == 0) ≡ true
  addr_low = ground (arith, o.id_in)

  id_low : id % 2 ^ 32 ≡ id
  id_low = omega (arith, o.id_in)

  read_loop-broken :
      (k n : ℕ) (events : List Wake) (buf : Bytes)
      → f.broken ≢ 0
      → 0 < n
      → read_loop me (suc k) n events i (taken i f p) buf n
        ≡ ok (record { held = some i; pipes = taken i f p; buf = buf; remaining = n })
  unfolding read_loop
  read_loop-broken k n events buf br pos =
      ground (arith, file_at-here i (set p.files i (held_file f)) here-taken)

  -- A read from a broken pipe is an error: it delivers nothing and changes nothing, also where
  -- the pipe still holds bytes.
  pub read_broken :
      (events : List Wake) (buf : Bytes) (n : ℕ)
      → f.broken ≢ 0
      → 0 < n
      → n < 2 ^ 32
      → pipefs_read me events id buf n p ≡ ok (none, buf, p)
  unfolding pipefs_read finish
  read_broken events buf n br pos small =
      let more : (n == 0) ≡ false = ground arith in
      let same : (n == n) ≡ true = ground arith in
      let w : n % 2 ^ 32 ≡ n = omega arith in
      let fuel : 2 + 3 * length events + 2 ≡ suc (3 * length events + 3) = omega arith in
      rw (
        addr_low,
        id_low,
        get_file_lem,
        more,
        w,
        fuel,
        read_loop-broken (3 * length events + 3) n events buf br pos,
        release-taken,
        same,
      )

  -- A read of no bytes returns with the lock of the pipe held and interrupts off.
  read_zero :
      (events : List Wake) (buf : Bytes)
      → pipefs_read me events id buf 0 p ≡ ok (some 0, buf, taken i f p)
  unfolding pipefs_read
  read_zero events buf = rw (addr_low, id_low, get_file_lem)
