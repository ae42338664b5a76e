-- ===== src/Sched/Tests.antt =====
-- The theorems at three processes: one thread runs, two are ready and one is blocked.
use bincows.Base.{
  ◌^◌, inr, ℕ, zero, suc, ◌+◌, ◌<◌, ◌≤◌, ◌≡◌, refl, true, false, none, some, List, [], ◌∷◌, ◌++◌,
  length, get_elem?, ok, Outcome, ◌>>=◌, ◌==◌, if◌then◌else◌, arith,
}
use bincows.Sched.Queue.{Td, PriorityQueue, no_td, pqueue_push, pqueue_pop}
use bincows.Sched.Fifo.{wrap, Holds}
use bincows.Sched.Growing.{pqueue_push-Holds}
use bincows.Sched.Threads.{
  ThreadState, ready, running, blocked, Thread, Sched, get_thread, sched_unblock, schedule,
}
use bincows.Sched.Lookup.{same_td, Fresh, Runs}
use bincows.Sched.Turns.{Rotation, yields, yields-Rotation}
use bincows.Sched.Blocking.{Blocking}
use bincows.Sched.Telling.{Told}
use bincows.Sched.Exiting.{Exits, schedule-killed}
use bincows.Sched.Waking.{sched_unblock-Rotation}

abbrev kernel_td : Td
kernel_td = record { pid = 0; tid = 1 }

abbrev shell : Td
shell = record { pid = 1; tid = 1 }

abbrev editor : Td
editor = record { pid = 2; tid = 1 }

abbrev sleeper : Td
sleeper = record { pid = 2; tid = 2 }

-- A queue around the end of its buffer: the oldest thread is in the last slot.
abbrev queue : PriorityQueue
queue = record {
  buffer = λ i. if i == 2 then shell else if i == 0 then editor else no_td;
  head = 2;
  tail = 1;
  cap = 3;
}

abbrev thread : ℕ → ThreadState → Thread
thread tid st = record {
  tid = tid;
  state = st;
  should_exit = false;
  uninterruptible = false;
  should_block = false;
  sig_wait = false;
}

abbrev sched : Sched
sched = record {
  processes = λ p.
      if p == 0
      then thread 1 running ∷ []
      else if p == 1
      then thread 1 ready ∷ []
      else if p == 2
      then thread 1 ready ∷ (thread 2 blocked ∷ [])
      else [];
  ppid = λ p. 0;
  ign_mask = λ p. 0xffffffff;
  sig_pending = λ p. 0;
  sleeping_threads = [];
  pqueue = queue;
  n_ready_threads = 2;
  current = kernel_td;
  killed_processes = [];
  currently_in_irq = 0;
  currently_in_nested_irq = 0;
  sched_running = true;
}

slots_hold :
    (i : ℕ) (t : Td)
    → get_elem? (shell ∷ editor ∷ []) i ≡ some t
    → queue.buffer (wrap 3 (2 + i)) ≡ t
slots_hold zero t e = ground (arith, e)
slots_hold (suc zero) t e = ground (arith, e)
slots_hold (suc (suc i)) t e = cc

queue-Holds : Holds queue (shell ∷ editor ∷ [])
queue-Holds = record {
  head_in = omega arith;
  room = omega arith;
  tail_is = refl;
  slots = slots_hold;
}

runs :
    (st : ThreadState) (td : Td)
    → td.pid ≤ 2
    → td.tid ≤ 2
    → 0 < td.tid
    → get_thread td sched ≡ some (thread td.tid st)
    → Runs st td sched
runs st td pid_in tid_in pos e = record {
  thread = thread td.tid st;
  there = e;
  state_is = refl;
  stays = refl;
  goes_on = refl;
  pid_in = omega arith;
  tid_in = omega arith;
  tid_pos = pos;
}

sched-Rotation : Rotation sched (shell ∷ editor ∷ [])
sched-Rotation = record {
  queue = queue-Holds;
  waiting = (
    runs ready shell (omega arith) (omega arith) (omega arith) refl,
    (runs ready editor (omega arith) (omega arith) (omega arith) refl, tt),
  );
  now = runs running kernel_td (omega arith) (omega arith) (omega arith) refl;
  distinct = ((refl, (refl, tt)), ((refl, tt), (tt, tt)));
  on = refl;
  no_irq = refl;
  no_nested = refl;
}

-- A push into the full buffer of the queue, which moves the oldest thread
grown : Outcome (Td × ℕ × ℕ)
unfolding pqueue_push pqueue_pop
grown = do q ← pqueue_push sleeper queue; (td, q1) ← pqueue_pop q; ok (td, q.head, q.cap)

grown_lem : grown ≡ ok (shell, 5, 6)
unfolding grown
grown_lem = refl

pqueue_push-Holds_example :
    (q' : PriorityQueue) × (pqueue_push sleeper queue ≡ ok q')
    × Holds q' ((shell ∷ editor ∷ []) ++ (sleeper ∷ []))
pqueue_push-Holds_example = pqueue_push-Holds queue (shell ∷ editor ∷ []) sleeper queue-Holds

yields-Rotation_example :
    (s' : Sched) × (yields (suc (length (shell ∷ []))) sched ≡ ok s')
    × (s'.current ≡ editor)
    × Rotation s' ([] ++ (kernel_td ∷ (shell ∷ [])))
yields-Rotation_example = yields-Rotation (shell ∷ []) sched editor [] sched-Rotation

sched_unblock-Rotation_example :
    (s' : Sched) × (sched_unblock sleeper sched ≡ ok s')
    × Rotation s' ((shell ∷ editor ∷ []) ++ (sleeper ∷ []))
    × (s'.current ≡ kernel_td)
sched_unblock-Rotation_example =
    sched_unblock-Rotation sched (shell ∷ editor ∷ []) sleeper sched-Rotation
      (runs blocked sleeper (omega arith) (omega arith) (omega arith) refl)

-- The thread that was blocked above runs and asks to block again.
abbrev asking : Thread
asking = record (thread 2 running) { should_block = true }

abbrev stopping : Sched
stopping = record sched {
  processes = λ p.
      if p == 1 then thread 1 ready ∷ [] else if p == 2 then thread 1 ready ∷ (asking ∷ []) else [];
  current = sleeper;
}

waits_too :
    (td : Td)
    → td.pid ≤ 2
    → td.tid ≤ 2
    → 0 < td.tid
    → get_thread td stopping ≡ some (thread td.tid ready)
    → Runs ready td stopping
waits_too td pid_in tid_in pos e = record {
  thread = thread td.tid ready;
  there = e;
  state_is = refl;
  stays = refl;
  goes_on = refl;
  pid_in = omega arith;
  tid_in = omega arith;
  tid_pos = pos;
}

stopping-Blocking : Blocking stopping (shell ∷ editor ∷ [])
stopping-Blocking = record {
  queue = queue-Holds;
  waiting = (
    waits_too shell (omega arith) (omega arith) (omega arith) refl,
    (waits_too editor (omega arith) (omega arith) (omega arith) refl, tt),
  );
  distinct = ((refl, (refl, tt)), ((refl, tt), (tt, tt)));
  thread = asking;
  there = refl;
  asked = refl;
  stays = refl;
  pid_in = omega arith;
  tid_in = omega arith;
  tid_pos = omega arith;
  on = refl;
  no_irq = refl;
  no_nested = refl;
}

-- The shell is to exit, and its turn comes: its only thread goes, and the editor runs.
abbrev exiting : Thread
exiting = record (thread 1 ready) { should_exit = true }

abbrev ending : Sched
ending = record sched {
  processes = λ p.
      if p == 0
      then thread 1 ready ∷ []
      else if p == 1
      then exiting ∷ []
      else if p == 2
      then thread 1 ready ∷ (thread 2 blocked ∷ [])
      else [];
  currently_in_irq = 1;
}

-- With SIGCHLD not ignored, the parent is told: the kernel thread sleeps, and is woken.
abbrev told : Sched
told = record ending {
  processes = λ p. if p == 0 then thread 1 blocked ∷ [] else ending.processes p;
  ign_mask = λ p. 0;
  sleeping_threads = kernel_td ∷ [];
}

shell-Exits : Exits shell told
shell-Exits = record {
  thread = exiting;
  there = refl;
  is_next = refl;
  asked = refl;
  may = refl;
  pid_in = omega arith;
  tid_in = omega arith;
  tid_pos = omega arith;
}

editor-Runs : Runs ready editor told
editor-Runs = record {
  thread = thread 1 ready;
  there = refl;
  state_is = refl;
  stays = refl;
  goes_on = refl;
  pid_in = omega arith;
  tid_in = omega arith;
  tid_pos = omega arith;
}

kernel-Runs : Runs blocked kernel_td told
kernel-Runs = record {
  thread = thread 1 blocked;
  there = refl;
  state_is = refl;
  stays = refl;
  goes_on = refl;
  pid_in = omega arith;
  tid_in = omega arith;
  tid_pos = omega arith;
}

shell-Told : Told shell told
shell-Told = record {
  last = refl;
  other = refl;
  listens = record { there = refl; heard = refl; no_waiters = refl; main_blocked = kernel-Runs };
}

schedule-killed_example :
    (s' : Sched) × (schedule told ≡ ok s')
    × Rotation s' (kernel_td ∷ [])
    × (s'.current ≡ editor)
    × (get_thread shell s' ≡ none)
    × (s'.killed_processes ≡ 1 ∷ [])
    × ((td : Td)
        → same_td td shell ≡ false
        → Fresh td (editor ∷ (kernel_td ∷ []))
        → get_thread td s' ≡ get_thread td told)
schedule-killed_example =
    schedule-killed told shell editor [] queue-Holds shell-Exits (tt, tt) (inr (shell-Told, refl))
      (editor-Runs, tt) ((refl, tt), (tt, tt)) refl refl refl

woken_after : Outcome (ℕ × List Td)
unfolding schedule
woken_after = do s ← schedule told; ok (s.sig_pending 0, s.sleeping_threads)

woken_after_lem : woken_after ≡ ok (2 ^ 17, [])
unfolding woken_after
woken_after_lem = refl

-- The process of the shell is on the list of the killed ones then.
killed_after : Outcome (List ℕ)
unfolding schedule
killed_after = do s ← schedule ending; ok s.killed_processes

killed_after_lem : killed_after ≡ ok (1 ∷ [])
unfolding killed_after
killed_after_lem = refl
