-- ===== src/Sched/Turns.antt =====
-- Round robin: what the interrupts of the timer do to the threads that are ready.
use mathlib.Core.Path.{subst}
use bincows.Base.{
  ℕ, zero, suc, ◌+◌, ◌%◌, ◌^◌, ◌-◌, ◌≤◌, ◌≡◌, ◌∙◌, refl, ap, List, [], ◌∷◌, ◌++◌, length,
  append_assoc, Bool, true, false, not, ◌&&◌, ltb, leb, ◌==◌, if◌then◌else◌, arith, Outcome, ok,
  ◌>>=◌, assert, >>=-run,
}
use bincows.Sched.Queue.{Td, PriorityQueue, pqueue_push, pqueue_pop}
use bincows.Sched.Fifo.{Holds, pqueue_pop-Holds}
use bincows.Sched.Growing.{pqueue_push-Holds}
use bincows.Sched.Threads.{
  max_id, ready, running, is_ready, Thread, Sched, write_thread, sched_push_ready_thread,
  pop_ready_thread, sched_save, get_thread, choose_next, select, kill_thread, asserted, irq_end,
  run_thread, schedule, run_thread, yield_irq,
}
use bincows.Sched.Lookup.{
  Distinct, same_td_comm, Fresh-append, Distinct-append, found_tid, same_td, write_thread_other,
  Runs, Runs-there, Runs-moved, AllReady, AllReady-other, AllReady-append, AllReady-there,
}

-- The current thread runs, the threads of `l` wait in the queue in this order, and no interrupt is
-- being handled.
pub record Rotation (s : Sched) (l : List Td) : Type 0 where
  pub queue : Holds s.pqueue l
  pub waiting : AllReady l s
  pub now : Runs running s.current s
  pub distinct : Distinct (s.current ∷ l)
  pub on : s.sched_running ≡ true
  pub no_irq : s.currently_in_irq ≡ 0
  pub no_nested : s.currently_in_nested_irq ≡ 0

pub if_false : {A : Type 0} {b : Bool} (x y : A) → b ≡ false → (if b then x else y) ≡ y
if_false x y e = ap (λ c. if c then x else y) e

pub if_true : {A : Type 0} {b : Bool} (x y : A) → b ≡ true → (if b then x else y) ≡ x
if_true x y e = ap (λ c. if c then x else y) e

pub push_run :
    (td : Td) (s : Sched) (q : PriorityQueue)
    → td.pid ≤ max_id
    → td.tid ≤ max_id
    → pqueue_push td s.pqueue ≡ ok q
    → sched_push_ready_thread td s
      ≡ ok (record s { pqueue = q; n_ready_threads = (s.n_ready_threads + 1) % 2 ^ 32 })
unfolding sched_push_ready_thread
push_run td s q pid_in tid_in run =
    let test_1 : leb td.pid max_id ≡ true = ground arith in
    let test_2 : leb td.tid max_id ≡ true = ground arith in rw (test_1, test_2) (>>=-run _ run refl)

abbrev pub without : PriorityQueue → Sched → Sched
without q s = record s { pqueue = q; n_ready_threads = (s.n_ready_threads + 2 ^ 32 - 1) % 2 ^ 32 }

select_run :
    (k : ℕ) (td : Td) (s : Sched) (q : PriorityQueue) (v : Runs ready td (without q s))
    → pqueue_pop s.pqueue ≡ ok (td, q)
    → select (suc k) s ≡ ok (td, v.thread, without q s)
unfolding select choose_next pop_ready_thread
select_run k td s q v run =
    let test_1 : leb td.pid max_id ≡ true = ground (arith, v.pid_in) in
    let test_2 : leb td.tid max_id ≡ true = ground (arith, v.tid_in) in
    let number : v.thread.tid ≡ td.tid = found_tid td.tid (s.processes td.pid) v.thread v.there in
    let test_3 : ltb 0 v.thread.tid ≡ true = ground (arith, number, v.tid_pos) in
    let stay : (v.thread.should_exit && not v.thread.uninterruptible) ≡ false =
      ground (arith, v.stays) in
    let pick : choose_next s ≡ ok (td, v.thread, without q s) =
      >>=-run _ (>>=-run _ run (>>=-run _ (ap assert test_1) (>>=-run _ (ap assert test_2) refl))) (
        >>=-run _ (ap asserted v.there)
          (>>=-run _ (ap (λ st. assert (is_ready st)) v.state_is) refl)) in
    >>=-run _ pick (
      >>=-run _ (ap assert test_3) (
        ap
          (λ b. elim b as (λ _. Outcome (Td × Thread × Sched)) [
            | true ↦ (do s2 ← kill_thread td (without q s); select k s2)
            | false ↦ ok (td, v.thread, without q s)
          ])
          stay))

-- What `sched_save` leaves
abbrev saved : Thread → PriorityQueue → Sched → Sched
saved t q s = record (write_thread s.current.pid (record t { state = ready }) s) {
  pqueue = q;
  n_ready_threads = (s.n_ready_threads + 1) % 2 ^ 32;
  currently_in_irq = 1;
  currently_in_nested_irq = s.currently_in_nested_irq + s.currently_in_irq;
}

sched_save_run :
    (s : Sched) (l : List Td) (v : Rotation s l)
    → (q : PriorityQueue) × (sched_save s ≡ ok (saved v.now.thread q s))
      × Holds q (l ++ (s.current ∷ []))
unfolding sched_save
sched_save_run s l v =
    let (q, run, holds) = pqueue_push-Holds s.pqueue l s.current v.queue in
    let t = v.now.thread in
    let irq = record s {
      currently_in_nested_irq = s.currently_in_nested_irq + s.currently_in_irq;
      currently_in_irq = 1;
    } in
    let put : sched_push_ready_thread s.current
          (write_thread s.current.pid (record t { state = ready }) irq)
        ≡ ok (saved t q s) =
      push_run s.current (write_thread s.current.pid (record t { state = ready }) irq) q
        v.now.pid_in v.now.tid_in run in
    (
      q,
      if_false _ _ (ap not v.on)
          ∙ >>=-run _ (ap asserted v.now.there) (if_false _ _ v.now.goes_on ∙ put),
      holds,
    )

-- What `schedule` leaves
abbrev scheduled : Td → Thread → PriorityQueue → Sched → Sched
scheduled td t q s = record (write_thread td.pid (record t { state = running }) (without q s)) {
  current = td;
  currently_in_irq = 0;
}

-- The choice of `schedule` and what it does to the thread, on any fuel
abbrev pub run_selected : ℕ → Sched → Outcome Sched
run_selected k s = do (td, t, s1) ← select k s; ok (run_thread td t s1)

run_selected_lem :
    (k : ℕ) (td : Td) (s : Sched) (q : PriorityQueue) (v : Runs ready td (without q s))
    → pqueue_pop s.pqueue ≡ ok (td, q)
    → s.currently_in_nested_irq ≡ 0
    → s.currently_in_irq ≡ 1
    → run_selected (suc k) s ≡ ok (scheduled td v.thread q s)
run_selected_lem k td s q v run flat irq =
    let in_irq : (s.currently_in_irq == 0) ≡ false = ground arith in
    let not_nested : (s.currently_in_nested_irq == 0) ≡ true = ground arith in
    let after = record (write_thread td.pid (record v.thread { state = running }) (without q s)) {
      current = td;
    } in
    >>=-run _ (select_run k td s q v run)
      (ap ok (if_false after (irq_end after) in_irq ∙ if_true _ _ not_nested))

-- The first thread that waits is taken, and no other is changed.
pub run_selected-Rotation :
    (k : ℕ) (s : Sched) (x : Td) (l : List Td)
    → Holds s.pqueue (x ∷ l)
    → AllReady (x ∷ l) s
    → Distinct (x ∷ l)
    → s.sched_running ≡ true
    → s.currently_in_irq ≡ 1
    → s.currently_in_nested_irq ≡ 0
    → (s' : Sched) × (run_selected (suc k) s ≡ ok s')
      × Rotation s' l
      × (s'.current ≡ x)
      × (s'.killed_processes ≡ s.killed_processes)
      × ((td : Td) → same_td td x ≡ false → get_thread td s' ≡ get_thread td s)
run_selected-Rotation k s x l holds (vx, vl) (fresh, dist) on irq nested =
    let (q, pop, holds') = pqueue_pop-Holds s.pqueue x l holds in
    let s1 = without q s in
    let x1 : Runs ready x s1 = Runs-there ready x s s1 refl vx in
    let number = found_tid x.tid (s1.processes x.pid) x1.thread x1.there in
    let w = write_thread x.pid (record x1.thread { state = running }) s1 in
    let s' = scheduled x x1.thread q s in
    let all1 : AllReady l s1 = AllReady-there l s s1 (λ td. refl) vl in
    (
      s',
      run_selected_lem k x s q x1 pop nested irq,
      record {
        queue = holds';
        waiting =
            AllReady-there l w s' (λ td. refl)
              (AllReady-other l running x s1 x1.thread fresh number all1);
        now = Runs-there running x w s' refl (Runs-moved ready running x s1 x1);
        distinct = (fresh, dist);
        on = on;
        no_irq = refl;
        no_nested = nested;
      },
      refl,
      refl,
      λ td other. write_thread_other td x s1 (record x1.thread { state = running }) other number,
    )

pub schedule_lem :
    (s : Sched)
    → s.sched_running ≡ true
    → s.currently_in_nested_irq ≡ 0
    → schedule s ≡ run_selected (s.pqueue.cap + 1) s
unfolding schedule
schedule_lem s on nested =
    let not_nested : (s.currently_in_nested_irq == 0) ≡ true = ground arith in
    >>=-run _ (ap assert on) (>>=-run _ (ap assert not_nested) refl)

pub schedule-Rotation :
    (s : Sched) (x : Td) (l : List Td)
    → Holds s.pqueue (x ∷ l)
    → AllReady (x ∷ l) s
    → Distinct (x ∷ l)
    → s.sched_running ≡ true
    → s.currently_in_irq ≡ 1
    → s.currently_in_nested_irq ≡ 0
    → (s' : Sched) × (schedule s ≡ ok s')
      × Rotation s' l
      × (s'.current ≡ x)
      × ((td : Td) → same_td td x ≡ false → get_thread td s' ≡ get_thread td s)
schedule-Rotation s x l holds all dist on irq nested =
    let (s', run, rotation, now, _, kept) =
      run_selected-Rotation s.pqueue.cap s x l holds all dist on irq nested in
    let fuel : s.pqueue.cap + 1 ≡ suc s.pqueue.cap = omega arith in
    (s', schedule_lem s on nested ∙ ap (λ k. run_selected k s) fuel ∙ run, rotation, now, kept)

-- A timer interrupt, or a yield, puts the current thread behind all others and runs the first one.
pub yield_irq-Rotation :
    (s : Sched) (x : Td) (r : List Td)
    → Rotation s (x ∷ r)
    → (s' : Sched) × (yield_irq s ≡ ok s') × Rotation s' (r ++ (s.current ∷ [])) × (s'.current ≡ x)
unfolding yield_irq
yield_irq-Rotation s x r v =
    let c = s.current in
    let t = v.now.thread in
    let number = found_tid c.tid (s.processes c.pid) t v.now.there in
    let (q, save, holds) = sched_save_run s (x ∷ r) v in
    let s1 = saved t q s in
    let w = write_thread c.pid (record t { state = ready }) s in
    let ((c_x, c_r), (x_r, dist)) = v.distinct in
    let all : AllReady ((x ∷ r) ++ (c ∷ [])) w =
      AllReady-append (x ∷ r) c w (AllReady-other (x ∷ r) ready c s t (c_x, c_r) number v.waiting)
        (Runs-moved running ready c s v.now) in
    let all1 : AllReady ((x ∷ r) ++ (c ∷ [])) s1 =
      AllReady-there ((x ∷ r) ++ (c ∷ [])) w s1 (λ td. refl) all in
    let (s', run, rotation, now, _) =
      schedule-Rotation s1 x (r ++ (c ∷ [])) holds all1
        (Fresh-append x c r x_r (same_td_comm c x c_x), Distinct-append c r c_r dist) v.on refl
        (omega (arith, v.no_irq, v.no_nested)) in
    (s', >>=-run _ save run, rotation, now)

abbrev pub yields : ℕ → Sched → Outcome Sched
yields zero s = ok s
yields (suc n) s = do s1 ← yield_irq s; yields n s1

-- A thread that waits behind `pre` in the queue runs after as many turns, and one more, where no thread exits,
-- blocks or wakes in between. The threads that it waited for are behind it then.
pub yields-Rotation :
    (pre : List Td) (s : Sched) (x : Td) (post : List Td)
    → Rotation s (pre ++ (x ∷ post))
    → (s' : Sched) × (yields (suc (length pre)) s ≡ ok s')
      × (s'.current ≡ x)
      × Rotation s' (post ++ (s.current ∷ pre))
yields-Rotation [] s x post v =
    let (s', run, rotation, now) = yield_irq-Rotation s x post v in
    (s', >>=-run _ run refl, now, rotation)
yields-Rotation (y ∷ pre) s x post v =
    let (s1, run, rotation, now) = yield_irq-Rotation s y (pre ++ (x ∷ post)) v in
    let rotated = subst (Rotation s1) (append_assoc pre (x ∷ post) (s.current ∷ [])) rotation in
    let (s', runs, there, last) = yields-Rotation pre s1 x (post ++ (s.current ∷ [])) rotated in
    (
      s',
      >>=-run _ run runs,
      there,
      subst (Rotation s')
          (append_assoc post (s.current ∷ []) (s1.current ∷ pre)
            ∙ ap (λ td. post ++ (s.current ∷ (td ∷ pre))) now)
          last,
    )
