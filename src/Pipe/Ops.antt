-- ===== src/Pipe/Ops.antt =====
-- kernel/fs/pipefs/pipefs.c: reading and writing. What runs while a thread waits is an explicit
-- list of events.
use bincows.Base.{
  ℕ, zero, suc, ◌+◌, ◌-◌, ◌*◌, ◌%◌, ◌^◌, ◌/◌, Bool, true, false, Option, none, some, List, [], ◌∷◌,
  ◌++◌, ◌==◌, if◌then◌else◌, Outcome, ok, wild, no_fuel, ◌>>=◌, ◌>>◌, assert, Bytes, length,
}
use bincows.Pipe.Files.{Pipefs, ThreadId, Wake, file_at, put_file, get_file, wait_for_buffer}
use bincows.Pipe.Copying.{Turn, read_turn, write_turn}

-- What a copy loop ends with: the index of the file if it is still acquired, the pipes, the
-- caller's buffer and the bytes that remain.
pub record Copied : Type 0 where
  pub held : Option ℕ
  pub pipes : Pipefs
  pub buf : Bytes
  pub remaining : ℕ

abbrev pub after_turn : ℕ → Turn → Pipefs → Pipefs
after_turn i t p = put_file i t.file (record p { unblocked = t.woke ++ p.unblocked })

-- The loop of `pipefs_read`. The fuel bounds the rounds, and the events end the waits.
unfoldable pub read_loop : ThreadId → ℕ → ℕ → List Wake → ℕ → Pipefs → Bytes → ℕ → Outcome Copied
read_loop me zero n events i p buf remaining = no_fuel
read_loop me (suc k) n events i p buf remaining = elim (remaining == 0) [
  | true ↦ ok (record { held = some i; pipes = p; buf = buf; remaining = remaining })
  | false ↦ (do
    f ← file_at i p.files
    elim (f.broken == 0) [
      | false ↦ ok (record { held = some i; pipes = p; buf = buf; remaining = remaining })
      | true ↦ (do
        t ← read_turn f buf remaining
        let p' = after_turn i t p
        elim t.block [
          | false ↦ read_loop me k n events i p' t.buf t.remaining
          | true ↦ elim (n == t.remaining) [
            | false ↦
                ok (record { held = some i; pipes = p'; buf = t.buf; remaining = t.remaining })
            | true ↦ elim events [
              | [] ↦ no_fuel
              | e ∷ later ↦ (do
                (held, p'') ← wait_for_buffer me e i t.file p'
                elim held [
                  | none ↦
                      ok (record { held = none; pipes = p''; buf = t.buf; remaining = t.remaining })
                  | some j ↦ read_loop me k n later j p'' t.buf t.remaining
                ])
            ]
          ]
        ])
    ])
]

-- `spinlock_release(&file->lock)` and `set_rflags(rf)`
unfoldable pub release_file : Bool → ℕ → Pipefs → Outcome Pipefs
unfolding file_at
release_file rf i p = do
  f ← file_at i p.files
  ok (put_file i (record f { locked = false }) (record p { interrupts = rf }))

-- The end of `pipefs_read` and of `write`.
unfoldable pub finish : Bool → Copied → Outcome Pipefs
unfolding release_file
finish rf c = elim c.held [
  | none ↦ ok (record c.pipes { interrupts = rf })
  | some i ↦ release_file rf i c.pipes
]

-- `none` is the error -1. `n == remaining` compares the 64-bit `n` with a 32-bit count.
abbrev pub Reply : Type 0
Reply = Option ℕ × Bytes × Pipefs

-- `addr` is `fd->addr`, below 2^63 for the reading end. The fuel serves two rounds between waits.
unfoldable pub pipefs_read : ThreadId → List Wake → ℕ → Bytes → ℕ → Pipefs → Outcome Reply
pipefs_read me events addr buf n p = do
  assert ((addr / 2 ^ 63) == 0)
  (found, p1) ← get_file (addr % 2 ^ 32) p
  elim found [
    | none ↦ ok (none, buf, p1)
    | some i ↦ if n == 0 then ok (some 0, buf, p1) else (do
      c ← read_loop me (2 + 3 * length events + 2) n events i p1 buf (n % 2 ^ 32)
      p2 ← finish p.interrupts c
      ok (if n == c.remaining then none else some (n - c.remaining), c.buf, p2))
  ]

-- The loop of `write`. `none` is the return of -1 from a broken pipe.
unfoldable pub write_loop :
    ThreadId → ℕ → Bool → List Wake → ℕ → Pipefs → Bytes → ℕ → Outcome (Option Copied × Pipefs)
write_loop me zero rf events i p buf remaining = no_fuel
write_loop me (suc k) rf events i p buf remaining = elim (remaining == 0) [
  | true ↦ ok (some (record { held = some i; pipes = p; buf = buf; remaining = 0 }), p)
  | false ↦ (do
    f ← file_at i p.files
    elim (f.broken == 0) [
      | false ↦ (do p' ← release_file rf i p; ok (none, p'))
      | true ↦ (do
        t ← write_turn f buf remaining
        let p' = after_turn i t p
        elim t.block [
          | false ↦ write_loop me k rf events i p' t.buf t.remaining
          | true ↦ elim events [
            | [] ↦ no_fuel
            | e ∷ later ↦ (do
              (held, p'') ← wait_for_buffer me e i t.file p'
              -- after a signal `file` is NULL, and the loop reads through it
              elim held [ none ↦ wild | some j ↦ write_loop me k rf later j p'' t.buf t.remaining ])
          ]
        ])
    ])
]

unfoldable pub write : ThreadId → List Wake → ℕ → Bytes → ℕ → Pipefs → Outcome Reply
write me events addr buf n p = do
  assert ((addr / 2 ^ 63) == 1)
  (found, p1) ← get_file (addr % 2 ^ 32) p
  elim found [
    | none ↦ ok (none, buf, p1)
    | some i ↦ if n == 0 then ok (some 0, buf, p1) else (do
      (done, p2) ←
          write_loop me (2 + 3 * length events + 2) p.interrupts events i p1 buf (n % 2 ^ 32)
      elim done [
        | none ↦ ok (none, buf, p2)
        | some c ↦ (do
          p3 ← finish p.interrupts c
          ok (if (n - c.remaining) == 0 then none else some (n - c.remaining), buf, p3))
      ])
  ]
