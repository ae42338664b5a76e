-- ===== src/Sched/Threads.antt =====
-- kernel/sched/sched.c: the threads of the processes and what moves them between the states. A process in
-- the table has a thread at least, so a process with no threads stands for one that is not there.
-- Registers and address spaces are left out, and the locks, since one processor runs with its
-- interrupts off here.
use Prim.Native.Nat.{bit_and, bit_or}
use bincows.Base.{
  ℕ, zero, suc, ◌+◌, ◌-◌, ◌%◌, ◌^◌, Bool, true, false, not, ◌&&◌, ltb, leb, ◌==◌, if◌then◌else◌,
  Option, none, some, List, [], ◌∷◌, ◌++◌, length, Outcome, ok, panic, no_fuel, ◌>>=◌, ◌>>◌, assert,
}
use bincows.Sched.Queue.{Td, PriorityQueue, pqueue_push, pqueue_pop}

-- MAX_PID and MAX_TID
abbrev pub max_id : ℕ
max_id = 0xffff

pub data ThreadState : Type 0 where
  ready running blocked : ThreadState

abbrev pub is_ready : ThreadState → Bool
is_ready ready = true
is_ready running = false
is_ready blocked = false

abbrev pub is_blocked : ThreadState → Bool
is_blocked ready = false
is_blocked running = false
is_blocked blocked = true

-- `struct thread`
pub record Thread : Type 0 where
  pub tid : ℕ
  pub state : ThreadState
  pub should_exit : Bool
  pub uninterruptible : Bool
  pub should_block : Bool
  pub sig_wait : Bool

-- The variables of the scheduler, the fields of a process by its pid, and the sleeping threads of
-- kernel/lib/time.c; `killed_processes` holds pids.
pub record Sched : Type 0 where
  pub processes : ℕ → List Thread
  pub ppid : ℕ → ℕ
  pub ign_mask : ℕ → ℕ
  pub sig_pending : ℕ → ℕ
  pub sleeping_threads : List Td
  pub pqueue : PriorityQueue
  pub n_ready_threads : ℕ
  pub current : Td
  pub killed_processes : List ℕ
  pub currently_in_irq : ℕ
  pub currently_in_nested_irq : ℕ
  pub sched_running : Bool

abbrev pub sched_get_thread_by_tid : ℕ → List Thread → Option Thread
sched_get_thread_by_tid tid [] = none
sched_get_thread_by_tid tid (t ∷ r) = if t.tid == tid then some t else sched_get_thread_by_tid tid r

-- `sched_get_process` and then `sched_get_thread_by_tid`
abbrev pub get_thread : Td → Sched → Option Thread
get_thread td s = sched_get_thread_by_tid td.tid (s.processes td.pid)

-- `assert(thread)`
abbrev pub asserted : Option Thread → Outcome Thread
asserted none = panic
asserted (some t) = ok t

-- A write through the pointer that the search returns
abbrev pub put_thread : Thread → List Thread → List Thread
put_thread t [] = []
put_thread t (u ∷ r) = if u.tid == t.tid then t ∷ r else u ∷ put_thread t r

abbrev pub put_process : ℕ → List Thread → Sched → Sched
put_process pid l s = record s { processes = λ p. if p == pid then l else s.processes p }

abbrev pub write_thread : ℕ → Thread → Sched → Sched
write_thread pid t s = put_process pid (put_thread t (s.processes pid)) s

unfoldable pub sched_push_ready_thread : Td → Sched → Outcome Sched
unfolding pqueue_push
sched_push_ready_thread td s = do
  assert (leb td.pid max_id)
  assert (leb td.tid max_id)
  q ← pqueue_push td s.pqueue
  ok (record s { pqueue = q; n_ready_threads = (s.n_ready_threads + 1) % 2 ^ 32 })

unfoldable pub pop_ready_thread : Sched → Outcome (Td × Sched)
unfolding pqueue_pop
pop_ready_thread s = do
  (td, q) ← pqueue_pop s.pqueue
  assert (leb td.pid max_id)
  assert (leb td.tid max_id)
  ok (td, record s { pqueue = q; n_ready_threads = (s.n_ready_threads + 2 ^ 32 - 1) % 2 ^ 32 })

unfoldable pub sched_launch_thread : ℕ → Thread → Sched → Outcome Sched
unfolding sched_push_ready_thread
sched_launch_thread pid t s =
    sched_push_ready_thread (record { pid = pid; tid = t.tid })
      (write_thread pid (record t { state = ready }) s)

-- `sched_unblock`; the last branch is `sched_unblock_thread`.
unfoldable pub sched_unblock : Td → Sched → Outcome Sched
unfolding sched_push_ready_thread
sched_unblock td s = elim (get_thread td s) [
  | none ↦ ok s
  | some t ↦
      if not (is_blocked t.state)
      then ok s
      else sched_push_ready_thread (record { pid = td.pid; tid = t.tid })
          (write_thread td.pid (record t { state = ready }) s)
]

-- An interrupt takes the processor from the current thread.
unfoldable pub sched_save : Sched → Outcome Sched
unfolding sched_push_ready_thread
sched_save s =
    let s0 = record s {
      currently_in_nested_irq = s.currently_in_nested_irq + s.currently_in_irq;
      currently_in_irq = 1;
    } in
    if not s.sched_running then ok s0 else (do
      t ← asserted (get_thread s.current s)
      (if t.should_block
          then ok
              (write_thread s.current.pid (record t { should_block = false; state = blocked }) s0)
          else sched_push_ready_thread s.current
              (write_thread s.current.pid (record t { state = ready }) s0)))

-- `choose_next`
unfoldable pub choose_next : Sched → Outcome (Td × Thread × Sched)
unfolding pop_ready_thread
choose_next s = do
  (td, s1) ← pop_ready_thread s
  t ← asserted (get_thread td s1)
  assert (is_ready t.state)
  ok (td, t, s1)

abbrev pub last_thread : Thread → List Thread → Thread
last_thread t [] = t
last_thread t (u ∷ r) = last_thread u r

abbrev pub but_last : Thread → List Thread → List Thread
but_last t [] = []
but_last t (u ∷ r) = t ∷ but_last u r

-- `*t = p->threads[p->n_threads - 1]; p->n_threads--`
abbrev pub drop_thread : ℕ → List Thread → List Thread
drop_thread tid [] = []
drop_thread tid (t ∷ []) = if t.tid == tid then [] else t ∷ []
drop_thread tid (t ∷ u ∷ r) =
    if t.tid == tid then last_thread u r ∷ but_last u r else t ∷ drop_thread tid (u ∷ r)

abbrev pub sigchld : ℕ
sigchld = 17

-- The threads that wait for a signal
abbrev pub sig_waiters : List Thread → List ℕ
sig_waiters [] = []
sig_waiters (t ∷ r) = if t.sig_wait then t.tid ∷ sig_waiters r else sig_waiters r

abbrev pub clear_sig_wait : List Thread → List Thread
clear_sig_wait [] = []
clear_sig_wait (t ∷ r) = record t { sig_wait = false } ∷ clear_sig_wait r

unfoldable pub unblock_tids : ℕ → List ℕ → Sched → Outcome Sched
unfolding sched_unblock
unblock_tids pid [] s = ok s
unblock_tids pid (tid ∷ r) s = do
  s1 ← sched_unblock (record { pid = pid; tid = tid }) s
  unblock_tids pid r s1

unfoldable pub unblock_sigwait_threads_and_release : ℕ → Sched → Outcome Sched
unfolding unblock_tids
unblock_sigwait_threads_and_release pid s =
    unblock_tids pid (sig_waiters (s.processes pid))
      (put_process pid (clear_sig_wait (s.processes pid)) s)

-- The list without the last entry of the thread, if it has one
unfoldable pub without_last : Td → List Td → Option (List Td)
without_last td [] = none
without_last td (x ∷ r) = elim (without_last td r) [
  | some r' ↦ some (x ∷ r')
  | none ↦ if x.pid == td.pid && x.tid == td.tid then some r else none
]

unfoldable pub sleep_cancel : Td → Sched → Outcome Sched
unfolding without_last sched_unblock
sleep_cancel td s = elim (without_last td s.sleeping_threads) [
  | none ↦ ok s
  | some l ↦ sched_unblock td (record s { sleeping_threads = l })
]

-- The result, which `remove_process` does not read, is left out.
unfoldable pub process_trigger_signal : ℕ → ℕ → Sched → Outcome Sched
unfolding unblock_sigwait_threads_and_release sleep_cancel sched_unblock
process_trigger_signal pid signal s = elim (length (s.processes pid) == 0) [
  | true ↦ ok s
  | false ↦ elim (bit_and (s.ign_mask pid) (2 ^ signal) == 0) [
    | false ↦ ok s
    | true ↦ (do
      let pending = bit_or (s.sig_pending pid) (2 ^ signal)
      let main : Td = record { pid = pid; tid = 1 }
      s1 ←
          unblock_sigwait_threads_and_release pid
            (record s { sig_pending = λ p. if p == pid then pending else s.sig_pending p })
      s2 ← sleep_cancel main s1
      sched_unblock main s2)
  ]
]

-- The process goes to the killed ones, and its parent is told.
unfoldable pub remove_process : ℕ → Sched → Outcome Sched
unfolding process_trigger_signal
remove_process pid s =
    process_trigger_signal (s.ppid pid) sigchld
      (record (put_process pid [] s) { killed_processes = s.killed_processes ++ (pid ∷ []) })

-- The lazy kill of a thread, and of its process with its last thread
unfoldable pub kill_thread : Td → Sched → Outcome Sched
unfolding remove_process
kill_thread td s =
    let left = drop_thread td.tid (s.processes td.pid) in
    let kept = put_process td.pid left s in
    elim (length left == 0) [ true ↦ remove_process td.pid kept | false ↦ ok kept ]

-- The loop of `schedule`, which takes a thread off the queue in each round
unfoldable pub select : ℕ → Sched → Outcome (Td × Thread × Sched)
unfolding choose_next kill_thread
select zero s = no_fuel
select (suc k) s = do
  (td, t, s1) ← choose_next s
  assert (ltb 0 t.tid)
  elim (t.should_exit && not t.uninterruptible) [
    | true ↦ (do s2 ← kill_thread td s1; select k s2)
    | false ↦ ok (td, t, s1)
  ]

-- `irq_end`, where no interrupt is nested
abbrev pub irq_end : Sched → Sched
irq_end s =
    if s.currently_in_nested_irq == 0
    then record s { currently_in_irq = 0 }
    else record s { currently_in_nested_irq = s.currently_in_nested_irq - 1 }

-- The end of `schedule`
abbrev pub run_thread : Td → Thread → Sched → Sched
run_thread td t s =
    let s2 = record (write_thread td.pid (record t { state = running }) s) { current = td } in
    if s2.currently_in_irq == 0 then s2 else irq_end s2

-- `schedule` up to the restored context. The signals that the chosen process has pending are not
-- handled here.
unfoldable pub schedule : Sched → Outcome Sched
unfolding select
schedule s = do
  assert s.sched_running
  assert (s.currently_in_nested_irq == 0)
  (td, t, s1) ← select (s.pqueue.cap + 1) s
  ok (run_thread td t s1)

-- An interrupt that ends in the scheduler, as that of the timer or of `sched_yield`
unfoldable pub yield_irq : Sched → Outcome Sched
unfolding sched_save schedule
yield_irq s = do s1 ← sched_save s; schedule s1
