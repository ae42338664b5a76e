-- ===== src/Sched/Blocking.antt =====
-- A thread that asks to block, and the interrupt that takes the processor from it.
use bincows.Base.{
  ◌+◌, ◌≤◌, ◌<◌, ◌≡◌, ◌∙◌, refl, ap, some, List, [], ◌∷◌, ◌++◌, true, false, not, arith, ok, ◌>>=◌,
  >>=-run,
}
use bincows.Sched.Queue.{Td}
use bincows.Sched.Fifo.{Holds}
use bincows.Sched.Threads.{
  max_id, blocked, Thread, Sched, get_thread, asserted, write_thread, sched_save, yield_irq,
  sched_unblock,
}
use bincows.Sched.Lookup.{
  Distinct, found_tid, write_thread_same, Runs, AllReady, AllReady-other, AllReady-there,
}
use bincows.Sched.Turns.{Rotation, if_false, if_true, schedule-Rotation}
use bincows.Sched.Waking.{sched_unblock-Rotation}

-- As `Rotation`, where the current thread has asked to block.
pub record Blocking (s : Sched) (l : List Td) : Type 0 where
  pub queue : Holds s.pqueue l
  pub waiting : AllReady l s
  pub distinct : Distinct (s.current ∷ l)
  pub thread : Thread
  pub there : get_thread s.current s ≡ some thread
  pub asked : thread.should_block ≡ true
  pub stays : thread.should_exit ≡ false
  pub pid_in : s.current.pid ≤ max_id
  pub tid_in : s.current.tid ≤ max_id
  pub tid_pos : 0 < s.current.tid
  pub on : s.sched_running ≡ true
  pub no_irq : s.currently_in_irq ≡ 0
  pub no_nested : s.currently_in_nested_irq ≡ 0

abbrev halted : Thread → Thread
halted t = record t { should_block = false; state = blocked }

-- What `sched_save` leaves of a thread that has asked to block
abbrev parked : Thread → Sched → Sched
parked t s = record (write_thread s.current.pid (halted t) s) {
  currently_in_irq = 1;
  currently_in_nested_irq = s.currently_in_nested_irq + s.currently_in_irq;
}

-- A thread that has asked to block stops at the next interrupt: the first thread that waits runs, and the
-- thread is blocked and in no queue.
yield_irq-blocked :
    (s : Sched) (x : Td) (r : List Td)
    → Blocking s (x ∷ r)
    → (s' : Sched) × (yield_irq s ≡ ok s')
      × Rotation s' r
      × (s'.current ≡ x)
      × Runs blocked s.current s'
unfolding yield_irq sched_save
yield_irq-blocked s x r v =
    let c = s.current in
    let t = v.thread in
    let number = found_tid c.tid (s.processes c.pid) t v.there in
    let s1 = parked t s in
    let w = write_thread c.pid (halted t) s in
    let save : sched_save s ≡ ok s1 =
      if_false _ _ (ap not v.on) ∙ >>=-run _ (ap asserted v.there) (if_true _ _ v.asked) in
    let ((c_x, c_r), rest) = v.distinct in
    let all : AllReady (x ∷ r) s1 =
      AllReady-there (x ∷ r) w s1 (λ td. refl)
        (AllReady-other (x ∷ r) blocked c s (record t { should_block = false }) (c_x, c_r) number
          v.waiting) in
    let (s', run, rotation, now, kept) =
      schedule-Rotation s1 x r v.queue all rest v.on refl (omega (arith, v.no_irq, v.no_nested)) in
    (
      s',
      >>=-run _ save run,
      rotation,
      now,
      record {
        thread = halted t;
        there = kept c c_x ∙ write_thread_same c s (halted t) t v.there number;
        state_is = refl;
        stays = v.stays;
        goes_on = refl;
        pid_in = v.pid_in;
        tid_in = v.tid_in;
        tid_pos = v.tid_pos;
      },
    )

-- A thread that blocks and is woken waits behind all others again.
pub yield_irq-woken :
    (s : Sched) (x : Td) (r : List Td)
    → Blocking s (x ∷ r)
    → (s' : Sched) × ((yield_irq s >>= sched_unblock s.current) ≡ ok s')
      × Rotation s' (r ++ (s.current ∷ []))
      × (s'.current ≡ x)
yield_irq-woken s x r v =
    let (s1, run, rotation, now, stopped) = yield_irq-blocked s x r v in
    let (s', woken, rotation', same) = sched_unblock-Rotation s1 r s.current rotation stopped in
    (s', >>=-run _ run woken, rotation', same ∙ now)
