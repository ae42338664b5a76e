-- ===== src/Pipe/Adding.antt =====
-- One round of `write`, and what it does to the bytes that the pipe holds.
use bincows.Base.{
  ℕ, ◌+◌, ◌-◌, ◌≤◌, ◌<◌, ◌≡◌, ◌≢◌, ◌∙◌, ◌⊎◌, inl, inr, refl, ap, ap₂, Bool, true, false, [], ◌++◌,
  leb, ltb, Bytes, copy, slice, length, slice-append, slice-copy_self, slice-copy_apart, arith,
  append-nil, append_assoc, ok, Bool-cases,
}
use bincows.Pipe.Files.{PipeFile, pipe_size}
use bincows.Pipe.Copying.{Turn, write_turn, wake_if_any}
use bincows.Pipe.Contents.{
  window, contents, IsPipe, length-contents, contents-wake_if_any, wake_if_any-IsPipe,
}
use bincows.Pipe.Turns.{max_request, window_self}

abbrev write_result : PipeFile → Bytes → ℕ → ℕ → Bool → ℕ → Turn
write_result f buf k tail block remaining =
    let g : PipeFile = record f { buffer = copy f.buffer f.tail buf 0 k; tail = tail } in
    record {
      file = (wake_if_any k g).1;
      buf = buf;
      woke = (wake_if_any k g).0;
      remaining = remaining - k;
      block = block;
    }

-- A round that adds `k` bytes to `f`, and blocks only when the pipe is left full.
pub record Gave (f : PipeFile) (buf : Bytes) (remaining : ℕ) (t : Turn) (k : ℕ) : Type 0 where
  pub valid : IsPipe t.file
  pub fits : k ≤ remaining
  pub counted : t.remaining ≡ remaining - k
  pub back : contents t.file ≡ contents f ++ slice buf 0 k
  pub same_buf : t.buf ≡ buf
  pub full : t.block ≡ true → (length (contents t.file) ≡ pipe_size - 1) × (k < remaining)

-- What a copy to the end of a window adds to it.
module _ (m : Bytes) (head tail : ℕ) (buf : Bytes) (k : ℕ) where
  grown :
      (i b : ℕ)
      → i + b ≡ tail
      → slice (copy m tail buf 0 k) i (b + k) ≡ slice m i b ++ slice buf 0 k
  grown i b e =
      slice-append (copy m tail buf 0 k) i b k
      ∙ ap₂ ◌++◌ (slice-copy_apart m tail buf 0 k i b (inl (omega arith)))
          (rw e (slice-copy_self m tail buf 0 k))

  window_back_low :
      head ≤ tail
      → tail + k ≤ pipe_size
      → window (copy m tail buf 0 k) head (tail + k) ≡ window m head tail ++ slice buf 0 k
  window_back_low l h =
      let e : tail + k - head ≡ (tail - head) + k = omega arith in
      ground (arith, e, grown head (tail - head))

  window_back_high :
      tail + k < head
      → window (copy m tail buf 0 k) head (tail + k) ≡ window m head tail ++ slice buf 0 k
  window_back_high h = ground (
    arith,
    grown 0 tail,
    slice-copy_apart m tail buf 0 k head (pipe_size - head) (inr (omega arith)),
    append_assoc (slice m head (pipe_size - head)) (slice m 0 tail) (slice buf 0 k),
  )

  window_back_wrap :
      head ≤ tail
      → 0 < head
      → tail + k ≡ pipe_size
      → window (copy m tail buf 0 k) head 0 ≡ window m head tail ++ slice buf 0 k
  unfolding slice
  window_back_wrap l p h =
      let e : pipe_size - head ≡ (tail - head) + k = omega arith in
      ground (
        arith,
        e,
        grown head (tail - head),
        append-nil (slice (copy m tail buf 0 k) head (pipe_size - head)),
      )

module _ (f : PipeFile) (buf : Bytes) (remaining : ℕ) (v : IsPipe f)
    (small : remaining ≤ max_request) where
  write_result-Gave :
      (k tail : ℕ) (block : Bool)
      → tail ≤ pipe_size
      → k ≤ remaining
      → window (copy f.buffer f.tail buf 0 k) f.head tail ≡ contents f ++ slice buf 0 k
      → (block ≡ true → (tail + 1 ≡ f.head) × (k < remaining))
      → Gave f buf remaining (write_result f buf k tail block remaining) k
  write_result-Gave k tail block tb fits e full =
      let g : PipeFile = record f { buffer = copy f.buffer f.tail buf 0 k; tail = tail } in
      let same = contents-wake_if_any k g in
      record {
        valid = wake_if_any-IsPipe k g (record { head_in = v.head_in; tail_in = tb });
        fits = fits;
        counted = refl;
        back = same ∙ e;
        same_buf = refl;
        full = λ b.
            let p = full b in
            (ap length same ∙ length-contents g ∙ ground (arith, p, v.head_in), p.1);
      }

  write_full :
      f.tail < f.head
      → f.head ≤ f.tail + remaining
      → write_turn f buf remaining
        ≡ ok (
            write_result f buf
              (f.head - f.tail - 1)
              (f.tail + (f.head - f.tail - 1))
              true
              remaining)
  unfolding write_turn
  write_full l h = ground arith

  write_plain :
      ((f.head ≤ f.tail) × (f.tail + remaining ≤ pipe_size)) ⊎ (f.tail + remaining < f.head)
      → write_turn f buf remaining
        ≡ ok (write_result f buf remaining (f.tail + remaining) false remaining)
  unfolding write_turn
  write_plain h = ground arith

  write_wrap :
      f.head ≤ f.tail
      → pipe_size < f.tail + remaining
      → write_turn f buf remaining ≡ ok (write_result f buf (pipe_size - f.tail) 0 false remaining)
  unfolding write_turn
  write_wrap l h = ground arith

  -- Unless it fills a buffer whose `head` is 0, a write round appends the first bytes of the
  -- caller's buffer to the pipe, and asks to wait only when 1023 bytes are in the pipe.
  pub write_turn-Gave :
      (f.head ≢ 0) ⊎ (f.tail + remaining ≤ pipe_size)
      → (t : Turn) × (k : ℕ) × (write_turn f buf remaining ≡ ok t) × Gave f buf remaining t k
  write_turn-Gave safe = elim (Bool-cases (ltb f.tail f.head)) [
    | inl high ↦ elim (Bool-cases (leb f.head (f.tail + remaining))) [
      | inl much ↦ (
        _,
        f.head - f.tail - 1,
        write_full (ground arith) (ground arith),
        write_result-Gave (f.head - f.tail - 1) (f.tail + (f.head - f.tail - 1)) true (ground arith)
            (ground arith)
            (window_back_high f.buffer f.head f.tail buf (f.head - f.tail - 1) (ground arith))
            (λ _. (ground arith, ground arith)),
      )
      | inr little ↦ (
        _,
        remaining,
        write_plain (inr (ground arith)),
        write_result-Gave remaining (f.tail + remaining) false (ground arith) (omega arith)
            (window_back_high f.buffer f.head f.tail buf remaining (ground arith)) (λ e. cc),
      )
    ]
    | inr low ↦ elim (Bool-cases (ltb pipe_size (f.tail + remaining))) [
      | inl past ↦ (
        _,
        pipe_size - f.tail,
        write_wrap (ground arith) (ground arith),
        write_result-Gave (pipe_size - f.tail) 0 false (omega arith) (ground arith)
            (window_back_wrap f.buffer f.head f.tail buf (pipe_size - f.tail) (ground arith)
              (ground arith) (omega (arith, v.tail_in)))
            (λ e. cc),
      )
      | inr inside ↦ (
        _,
        remaining,
        write_plain (inl (ground arith, ground arith)),
        write_result-Gave remaining (f.tail + remaining) false (ground arith) (omega arith)
            (window_back_low f.buffer f.head f.tail buf remaining (ground arith) (ground arith))
            (λ e. cc),
      )
    ]
  ]

-- A write round that reaches past the end of a buffer whose `head` is 0 leaves the pipe empty:
-- the 1024 bytes that it held or was given are lost, though the round counts the given ones as
-- written.
write_turn_loses :
    (f : PipeFile) (buf : Bytes) (remaining : ℕ)
    → IsPipe f
    → remaining ≤ max_request
    → f.head ≡ 0
    → pipe_size < f.tail + remaining
    → (t : Turn) × (write_turn f buf remaining ≡ ok t)
      × (contents t.file ≡ [])
      × (length (contents f) + (remaining - t.remaining) ≡ pipe_size)
write_turn_loses f buf remaining v small e past = (
  write_result f buf (pipe_size - f.tail) 0 false remaining,
  write_wrap f buf remaining v small (omega arith) past,
  contents-wake_if_any (pipe_size - f.tail)
        (record f { buffer = copy f.buffer f.tail buf 0 (pipe_size - f.tail); tail = 0 })
      ∙ lost,
  ground (arith, length-contents f, v.tail_in),
)
  where
    lost : window (copy f.buffer f.tail buf 0 (pipe_size - f.tail)) f.head 0 ≡ []
    lost = rw e (window_self _ 0)
