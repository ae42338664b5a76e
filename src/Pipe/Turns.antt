-- ===== src/Pipe/Turns.antt =====
-- One round of `pipefs_read`, and what it does to the bytes that the pipe holds.
use bincows.Base.{
  ℕ, ◌+◌, ◌-◌, ◌^◌, ◌≤◌, ◌<◌, ◌≡◌, ◌∙◌, ◌⊎◌, inl, inr, refl, ap, ap₂, sym, Bool, true, false, [],
  ◌++◌, leb, ltb, Bytes, copy, slice, slice-copy_self, copy_outside, arith, ok, Bool-cases,
}
use bincows.Pipe.Files.{PipeFile, pipe_size}
use bincows.Pipe.Copying.{Turn, read_turn, wake_if_any}
use bincows.Pipe.Contents.{
  window, contents, IsPipe, contents-wake_if_any, wake_if_any-IsPipe, window_front_low,
  window_front_high, window_front_wrap,
}

-- No sum of the rounds wraps in 32 bits.
abbrev pub max_request : ℕ
max_request = 2 ^ 32 - pipe_size - 1

abbrev read_result : PipeFile → Bytes → ℕ → ℕ → Bool → ℕ → Turn
read_result f buf k head block remaining = record {
  file = (wake_if_any k (record f { head = head })).1;
  buf = copy buf 0 f.buffer f.head k;
  woke = (wake_if_any k (record f { head = head })).0;
  remaining = remaining - k;
  block = block;
}

-- A round that moves `k` bytes out of `f`, and blocks only when the pipe is left empty.
pub record Took (f : PipeFile) (buf : Bytes) (remaining : ℕ) (t : Turn) (k : ℕ) : Type 0 where
  pub valid : IsPipe t.file
  pub fits : k ≤ remaining
  pub counted : t.remaining ≡ remaining - k
  pub front : contents f ≡ slice t.buf 0 k ++ contents t.file
  pub beyond : (a : ℕ) → k ≤ a → t.buf a ≡ buf a
  pub starved : t.block ≡ true → (contents t.file ≡ []) × (k < remaining)

pub window_self : (m : Bytes) (i : ℕ) → window m i i ≡ []
unfolding slice
window_self m i = ground arith

module _ (f : PipeFile) (buf : Bytes) (remaining : ℕ) (v : IsPipe f)
    (small : remaining ≤ max_request) where
  read_result-Took :
      (k head : ℕ) (block : Bool)
      → head ≤ pipe_size
      → k ≤ remaining
      → contents f ≡ slice f.buffer f.head k ++ window f.buffer head f.tail
      → (block ≡ true → (window f.buffer head f.tail ≡ []) × (k < remaining))
      → Took f buf remaining (read_result f buf k head block remaining) k
  read_result-Took k head block hb fits e starved =
      let g : PipeFile = record f { head = head } in
      let same = contents-wake_if_any k g in
      record {
        valid = wake_if_any-IsPipe k g (record { head_in = hb; tail_in = v.tail_in });
        fits = fits;
        counted = refl;
        front = e ∙ ap₂ ◌++◌ (sym (slice-copy_self buf 0 f.buffer f.head k)) (sym same);
        beyond = λ a h. copy_outside buf 0 f.buffer f.head k a (inr (omega arith));
        starved = λ b. (same ∙ (starved b).0, (starved b).1);
      }

  read_starved :
      f.head ≤ f.tail
      → f.tail < f.head + remaining
      → read_turn f buf remaining ≡ ok (read_result f buf (f.tail - f.head) f.tail true remaining)
  unfolding read_turn
  read_starved l h = ground arith

  read_plain :
      (f.head + remaining ≤ f.tail) ⊎ ((f.tail < f.head) × (f.head + remaining ≤ pipe_size))
      → read_turn f buf remaining
        ≡ ok (read_result f buf remaining (f.head + remaining) false remaining)
  unfolding read_turn
  read_plain h = ground arith

  read_wrap :
      f.tail < f.head
      → pipe_size < f.head + remaining
      → read_turn f buf remaining ≡ ok (read_result f buf (pipe_size - f.head) 0 false remaining)
  unfolding read_turn
  read_wrap l h = ground arith

  -- A read round moves some bytes from the front of the pipe to the caller, changes nothing else
  -- of the caller's buffer, and asks to wait only when it leaves the pipe empty.
  pub read_turn-Took :
      (t : Turn) × (k : ℕ) × (read_turn f buf remaining ≡ ok t) × Took f buf remaining t k
  read_turn-Took = elim (Bool-cases (leb f.head f.tail)) [
    | inl low ↦ elim (Bool-cases (ltb f.tail (f.head + remaining))) [
      | inl few ↦ (
        _,
        f.tail - f.head,
        read_starved (ground arith) (ground arith),
        read_result-Took (f.tail - f.head) f.tail true v.tail_in (ground arith)
            (window_front_low f.buffer f.head f.tail (f.tail - f.head) (ground arith)
              ∙ ap (λ j. slice f.buffer f.head (f.tail - f.head) ++ window f.buffer j f.tail)
                  (ground arith))
            (λ _. (window_self f.buffer f.tail, ground arith)),
      )
      | inr many ↦ (
        _,
        remaining,
        read_plain (inl (ground arith)),
        read_result-Took remaining (f.head + remaining) false (ground arith) (omega arith)
            (window_front_low f.buffer f.head f.tail remaining (ground arith)) (λ e. cc),
      )
    ]
    | inr high ↦ elim (Bool-cases (ltb pipe_size (f.head + remaining))) [
      | inl past ↦ (
        _,
        pipe_size - f.head,
        read_wrap (ground arith) (ground arith),
        read_result-Took (pipe_size - f.head) 0 false (omega arith) (ground arith)
            (window_front_wrap f.buffer f.head f.tail (ground arith)) (λ e. cc),
      )
      | inr inside ↦ (
        _,
        remaining,
        read_plain (inr (ground arith, ground arith)),
        read_result-Took remaining (f.head + remaining) false (ground arith) (omega arith)
            (window_front_high f.buffer f.head f.tail remaining (ground arith) (ground arith))
            (λ e. cc),
      )
    ]
  ]
