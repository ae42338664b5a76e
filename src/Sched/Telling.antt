-- ===== src/Sched/Telling.antt =====
-- The parent of a process that exits: SIGCHLD wakes its main thread. process_trigger_signal of
-- kernel/sched/process.c and sleep_cancel of kernel/lib/time.c.
use Prim.Native.Nat.{bit_and, bit_or}
use bincows.Base.{
  ℕ, ◌+◌, ◌%◌, ◌^◌, ◌≡◌, ◌∙◌, refl, sym, ap, ap₂, Option-cases, inl, inr, Bool-cases, Option, none,
  some, List, [], ◌∷◌, ◌++◌, length, Bool, true, false, not, ◌==◌, if◌then◌else◌, arith, ok, ◌>>=◌,
  >>=-run,
}
use bincows.Sched.Queue.{Td}
use bincows.Sched.Fifo.{Holds}
use bincows.Sched.Growing.{pqueue_push-Holds}
use bincows.Sched.Threads.{
  ready, blocked, is_blocked, Thread, Sched, sched_get_thread_by_tid, get_thread, put_process,
  write_thread, sched_push_ready_thread, sched_unblock, sigchld, sig_waiters, clear_sig_wait,
  unblock_tids, unblock_sigwait_threads_and_release, without_last, sleep_cancel,
  process_trigger_signal, kill_thread,
}
use bincows.Sched.Lookup.{same_td, found_tid, write_thread_other, Runs, Runs-there, Runs-moved}
use bincows.Sched.Turns.{push_run, if_false}
use bincows.Sched.Waking.{sched_unblock-idle}
use bincows.Sched.Killing.{
  UniqueTids, others_of, emptied, kill_thread-told, emptied-WithoutThread, WithoutThread-others,
}

-- The thread `td` was blocked in `s`, and waits behind the others in `s'`; nothing else of the threads
-- changes.
pub record Woken (td : Td) (l : List Td) (s s' : Sched) : Type 0 where
  pub queue : Holds s'.pqueue (l ++ (td ∷ []))
  pub runs : Runs ready td s'
  pub others : (a : Td) → same_td a td ≡ false → get_thread a s' ≡ get_thread a s
  pub killed : s'.killed_processes ≡ s.killed_processes
  pub on : s'.sched_running ≡ s.sched_running
  pub irq : s'.currently_in_irq ≡ s.currently_in_irq
  pub nested : s'.currently_in_nested_irq ≡ s.currently_in_nested_irq

-- A state with the same threads can stand for the first one.
Woken-from :
    (td : Td) (l : List Td) (s s1 s' : Sched)
    → ((a : Td) → get_thread a s1 ≡ get_thread a s)
    → s1.killed_processes ≡ s.killed_processes
    → s1.sched_running ≡ s.sched_running
    → s1.currently_in_irq ≡ s.currently_in_irq
    → s1.currently_in_nested_irq ≡ s.currently_in_nested_irq
    → Woken td l s1 s'
    → Woken td l s s'
Woken-from td l s s1 s' same k o i n w = record {
  queue = w.queue;
  runs = w.runs;
  others = λ a other. w.others a other ∙ same a;
  killed = w.killed ∙ k;
  on = w.on ∙ o;
  irq = w.irq ∙ i;
  nested = w.nested ∙ n;
}

sched_unblock-Woken :
    (s : Sched) (l : List Td) (td : Td)
    → Holds s.pqueue l
    → Runs blocked td s
    → (s' : Sched) × (sched_unblock td s ≡ ok s') × Woken td l s s'
unfolding sched_unblock
sched_unblock-Woken s l td queue b =
    let t = b.thread in
    let number : t.tid ≡ td.tid = found_tid td.tid (s.processes td.pid) t b.there in
    let this : record { pid = td.pid; tid = t.tid } ≡ td =
      ap (λ n. record { pid = td.pid; tid = n }) number in
    let (q, run, holds) = pqueue_push-Holds s.pqueue l td queue in
    let w = write_thread td.pid (record t { state = ready }) s in
    let s' = record w { pqueue = q; n_ready_threads = (s.n_ready_threads + 1) % 2 ^ 32 } in
    let put : sched_push_ready_thread (record { pid = td.pid; tid = t.tid }) w ≡ ok s' =
      ap (λ d. sched_push_ready_thread d w) this ∙ push_run td w q b.pid_in b.tid_in run in
    let woken : not (is_blocked t.state) ≡ false = ap (λ st. not (is_blocked st)) b.state_is in
    (
      s',
      rw (b.there, sched_unblock) (if_false _ _ woken ∙ put),
      record {
        queue = holds;
        runs = Runs-there ready td w s' refl (Runs-moved blocked ready td s b);
        others = λ a other. write_thread_other a td s (record t { state = ready }) other number;
        killed = refl;
        on = refl;
        irq = refl;
        nested = refl;
      },
    )

abbrev waits : Option Thread → Bool
waits none = false
waits (some t) = is_blocked t.state

-- Whether the thread sleeps or is blocked for another reason, it is put into the queue once.
wake-Woken :
    (s : Sched) (l : List Td) (td : Td)
    → Holds s.pqueue l
    → Runs blocked td s
    → (s' : Sched) × ((do s2 ← sleep_cancel td s; sched_unblock td s2) ≡ ok s') × Woken td l s s'
unfolding sleep_cancel
wake-Woken s l td queue b = elim (Option-cases (without_last td s.sleeping_threads)) [
  | inl none_ ↦
      (let (s', run, w) = sched_unblock-Woken s l td queue b in
        let awake : sleep_cancel td s ≡ ok s = rw (none_, sleep_cancel) refl in
        (s', >>=-run _ awake run, w))
  | inr (rest, e) ↦
      (let s1 = record s { sleeping_threads = rest } in
        let (s', run, w) = sched_unblock-Woken s1 l td queue (Runs-there blocked td s s1 refl b) in
        let slept : sleep_cancel td s ≡ ok s' = rw (e, sleep_cancel) run in
        let idle : (t : Thread) → get_thread td s' ≡ some t → is_blocked t.state ≡ false =
          λ t found. ap waits (sym found ∙ w.runs.there) ∙ ap is_blocked w.runs.state_is in
        (
          s',
          >>=-run _ slept (sched_unblock-idle s' td idle),
          Woken-from td l s s1 s' (λ a. refl) refl refl refl refl w,
        ))
]

-- Where no thread waits for a signal, there is nothing to clear.
clear_sig_wait-idle : (l : List Thread) → sig_waiters l ≡ [] → clear_sig_wait l ≡ l
clear_sig_wait-idle [] e = refl
clear_sig_wait-idle (t ∷ l) e = elim (Bool-cases t.sig_wait) [
  | inl waiting ↦ absurd (ground (arith, e, waiting))
  | inr none_ ↦
      (let same : record t { sig_wait = false } ≡ t =
          ap (λ b. record t { sig_wait = b }) (sym none_) in
        let rest : sig_waiters l ≡ [] =
          ap (λ b. if b then t.tid ∷ sig_waiters l else sig_waiters l) (sym none_) ∙ e in
        ap₂ (λ u r. u ∷ r) same (clear_sig_wait-idle l rest))
]

abbrev pub main_thread : ℕ → Td
main_thread pid = record { pid = pid; tid = 1 }

-- A process that a signal wakes: it is there, does not ignore the signal, none of its threads waits
-- for signals, and its main thread is blocked.
pub record Listens (pid signal : ℕ) (s : Sched) : Type 0 where
  pub there : (length (s.processes pid) == 0) ≡ false
  pub heard : (bit_and (s.ign_mask pid) (2 ^ signal) == 0) ≡ true
  pub no_waiters : sig_waiters (s.processes pid) ≡ []
  pub main_blocked : Runs blocked (main_thread pid) s

process_trigger_signal-Woken :
    (pid signal : ℕ) (s : Sched) (l : List Td)
    → Holds s.pqueue l
    → Listens pid signal s
    → (s' : Sched) × (process_trigger_signal pid signal s ≡ ok s') × Woken (main_thread pid) l s s'
unfolding process_trigger_signal unblock_sigwait_threads_and_release unblock_tids
process_trigger_signal-Woken pid signal s l queue h =
    let pending = bit_or (s.sig_pending pid) (2 ^ signal) in
    let s1 = record s { sig_pending = λ p. if p == pid then pending else s.sig_pending p } in
    let cleared = put_process pid (clear_sig_wait (s.processes pid)) s1 in
    let idle = clear_sig_wait-idle (s.processes pid) h.no_waiters in
    let same : (a : Td) → get_thread a cleared ≡ get_thread a s = λ a.
      elim (Bool-cases (a.pid == pid)) [
        | inl here ↦
            (let there : a.pid ≡ pid = ground arith in
              rw here (
                ap (sched_get_thread_by_tid a.tid) idle
                ∙ ap (λ p. sched_get_thread_by_tid a.tid (s.processes p)) (sym there)))
        | inr other ↦ rw other refl
      ] in
    let first : unblock_sigwait_threads_and_release pid s1 ≡ ok cleared =
      ap (λ w. unblock_tids pid w cleared) h.no_waiters in
    let main = main_thread pid in
    let (s', run, w) =
      wake-Woken cleared l main queue
        (Runs-there blocked main s cleared (same main) h.main_blocked) in
    (
      s',
      rw (h.there, h.heard, process_trigger_signal) (>>=-run _ first run),
      Woken-from main l s cleared s' same refl refl refl refl w,
    )

-- The last thread of a process exits, and its parent is woken.
pub record Told (x : Td) (s : Sched) : Type 0 where
  pub last : (length (others_of x s) == 0) ≡ true
  pub other : (s.ppid x.pid == x.pid) ≡ false
  pub listens : Listens (s.ppid x.pid) sigchld s

Listens-emptied :
    (x : Td) (s : Sched)
    → UniqueTids (s.processes x.pid)
    → Told x s
    → Listens (s.ppid x.pid) sigchld (emptied x s)
Listens-emptied x s v t =
    let h = t.listens in
    record {
      there = rw t.other h.there;
      heard = h.heard;
      no_waiters = rw t.other h.no_waiters;
      main_blocked =
          Runs-there blocked (main_thread (s.ppid x.pid)) s (emptied x s)
            (WithoutThread-others x (main_thread (s.ppid x.pid)) s (emptied x s) v
              (emptied-WithoutThread x s t.last) (ground (arith, t.other)))
            h.main_blocked;
    }

pub kill_thread-Woken :
    (x : Td) (s : Sched) (l : List Td)
    → UniqueTids (s.processes x.pid)
    → Holds s.pqueue l
    → Told x s
    → (s' : Sched) × (kill_thread x s ≡ ok s')
      × Woken (main_thread (s.ppid x.pid)) l (emptied x s) s'
kill_thread-Woken x s l v queue t =
    let (s', run, w) =
      process_trigger_signal-Woken (s.ppid x.pid) sigchld (emptied x s) l queue
        (Listens-emptied x s v t) in
    (s', kill_thread-told x s s' t.last run, w)
