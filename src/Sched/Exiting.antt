-- ===== src/Sched/Exiting.antt =====
-- The lazy kill of `schedule`: a thread that is to exit goes when its turn comes.
use mathlib.Core.Path.{subst}
use bincows.Base.{
  append-nil, ◌==◌, ℕ, suc, ◌+◌, ◌-◌, ◌⊎◌, ◌++◌, ◌≤◌, ◌<◌, ◌≡◌, ◌∙◌, refl, sym, ap, inl, inr, none,
  some, List, [], ◌∷◌, true, false, not, ◌&&◌, ltb, leb, arith, Outcome, ok, ◌>>=◌, assert, >>=-run,
}
use bincows.Sched.Queue.{Td, PriorityQueue, pqueue_pop}
use bincows.Sched.Fifo.{Holds, pqueue_pop-Holds}
use bincows.Sched.Threads.{
  max_id, blocked, ready, is_ready, asserted, Thread, Sched, get_thread, kill_thread,
  pop_ready_thread, choose_next, select, schedule, run_thread,
}
use bincows.Sched.Lookup.{
  Distinct-append, AllReady-append, same_td, same_td_comm, found_tid, Fresh, Distinct, Runs-there,
  AllReady,
}
use bincows.Sched.Turns.{Rotation, without, run_selected, run_selected-Rotation, schedule_lem}
use bincows.Sched.Waking.{blocked-Fresh}
use bincows.Sched.Killing.{
  UniqueTids, Untold, killed_with, emptied, emptied-WithoutThread, WithoutThread-gone,
  WithoutThread-others, kill_thread-Gone,
}
use bincows.Sched.Telling.{main_thread, Told, kill_thread-Woken}

-- A thread that is ready, has to exit and may do so
pub record Exits (td : Td) (s : Sched) : Type 0 where
  pub thread : Thread
  pub there : get_thread td s ≡ some thread
  pub is_next : thread.state ≡ ready
  pub asked : thread.should_exit ≡ true
  pub may : thread.uninterruptible ≡ false
  pub pid_in : td.pid ≤ max_id
  pub tid_in : td.tid ≤ max_id
  pub tid_pos : 0 < td.tid

-- A round of the choice that kills
select_kill :
    (k : ℕ) (td : Td) (s : Sched) (q : PriorityQueue)
    → Exits td s
    → pqueue_pop s.pqueue ≡ ok (td, q)
    → select (suc k) s ≡ (do s2 ← kill_thread td (without q s); select k s2)
unfolding select choose_next pop_ready_thread
select_kill k td s q v run =
    let s1 = without q s in
    let test_1 : leb td.pid max_id ≡ true = ground (arith, v.pid_in) in
    let test_2 : leb td.tid max_id ≡ true = ground (arith, v.tid_in) in
    let number : v.thread.tid ≡ td.tid = found_tid td.tid (s.processes td.pid) v.thread v.there in
    let test_3 : ltb 0 v.thread.tid ≡ true = ground (arith, number, v.tid_pos) in
    let die : (v.thread.should_exit && not v.thread.uninterruptible) ≡ true =
      ground (arith, v.asked, v.may) in
    let pick : choose_next s ≡ ok (td, v.thread, s1) =
      >>=-run _ (>>=-run _ run (>>=-run _ (ap assert test_1) (>>=-run _ (ap assert test_2) refl))) (
        >>=-run _ (ap asserted v.there)
          (>>=-run _ (ap (λ st. assert (is_ready st)) v.is_next) refl)) in
    >>=-run _ pick (
      >>=-run _ (ap assert test_3) (
        ap
          (λ b. elim b as (λ _. Outcome (Td × Thread × Sched)) [
            | true ↦ (do s2 ← kill_thread td s1; select k s2)
            | false ↦ ok (td, v.thread, s1)
          ])
          die))

AllReady-kept :
    (l : List Td) (s s' : Sched)
    → (x : Td) → Fresh x l
    → ((td : Td) → same_td td x ≡ false → get_thread td s' ≡ get_thread td s)
    → AllReady l s
    → AllReady l s'
AllReady-kept [] s s' x f kept v = tt
AllReady-kept (a ∷ l) s s' x (other, f) kept (v, vs) =
    (Runs-there ready a s s' (kept a (same_td_comm x a other)) v, AllReady-kept l s s' x f kept vs)

-- The round that kills, and the next one
run_next :
    (s s2 : Sched) (x y : Td) (m : List Td) (q : PriorityQueue)
    → Exits x s
    → pqueue_pop s.pqueue ≡ ok (x, q)
    → kill_thread x (without q s) ≡ ok s2
    → 0 < s.pqueue.cap
    → s.sched_running ≡ true
    → s.currently_in_nested_irq ≡ 0
    → Holds s2.pqueue (y ∷ m)
    → AllReady (y ∷ m) s2
    → Distinct (y ∷ m)
    → s2.sched_running ≡ true
    → s2.currently_in_irq ≡ 1
    → s2.currently_in_nested_irq ≡ 0
    → (s' : Sched) × (schedule s ≡ ok s')
      × Rotation s' m
      × (s'.current ≡ y)
      × (s'.killed_processes ≡ s2.killed_processes)
      × ((td : Td) → same_td td y ≡ false → get_thread td s' ≡ get_thread td s2)
run_next s s2 x y m q exits pop kill room on nested holds all dist on2 irq2 nested2 =
    let fuel : s.pqueue.cap + 1 ≡ suc (suc (s.pqueue.cap - 1)) = omega arith in
    let (s', run, rotation, now, killed, others) =
      run_selected-Rotation (s.pqueue.cap - 1) s2 y m holds all dist on2 irq2 nested2 in
    let next : select (suc (suc (s.pqueue.cap - 1))) s ≡ select (suc (s.pqueue.cap - 1)) s2 =
      select_kill (suc (s.pqueue.cap - 1)) x s q exits pop ∙ >>=-run _ kill refl in
    (
      s',
      schedule_lem s on nested
          ∙ ap (λ k. run_selected k s) fuel
          ∙ ap (λ o. o >>= λ (td, t, s3). ok (run_thread td t s3)) next
          ∙ run,
      rotation,
      now,
      killed,
      others,
    )

-- The parent is not told, or it is told, and it is not the process that runs next.
abbrev pub Parent : Td → Td → Sched → Type 0
Parent x y s = Untold x s ⊎ (Told x s × ((y.pid == s.ppid x.pid) ≡ false))

-- the main thread of the parent, where it is told
abbrev pub woken_by : (x y : Td) (s : Sched) → Parent x y s → List Td
woken_by x y s (inl untold) = []
woken_by x y s (inr (told, elsewhere)) = main_thread (s.ppid x.pid) ∷ []

Told-without : (x : Td) (s : Sched) (q : PriorityQueue) → Told x s → Told x (without q s)
Told-without x s q t =
    let h = t.listens in
    record {
      last = t.last;
      other = t.other;
      listens = record {
        there = h.there;
        heard = h.heard;
        no_waiters = h.no_waiters;
        main_blocked =
            Runs-there blocked (main_thread (s.ppid x.pid)) s (without q s) refl h.main_blocked;
      };
    }

-- Where the first thread that waits is to exit, `schedule` removes it, with its process, which goes to
-- the killed ones, if it has no other thread, and runs the next one. If the parent of the process is
-- told and its main thread blocked, then this thread waits behind all others. All other threads go on
-- as they were. Left out is a parent that is told while its main thread is not blocked, while one of
-- its threads waits for signals, or while a thread of it runs next.
pub schedule-killed :
    (s : Sched) (x y : Td) (l : List Td)
    → Holds s.pqueue (x ∷ y ∷ l)
    → Exits x s
    → UniqueTids (s.processes x.pid)
    → (parent : Parent x y s) → AllReady (y ∷ l) s
    → Distinct (x ∷ y ∷ l)
    → s.sched_running ≡ true
    → s.currently_in_irq ≡ 1
    → s.currently_in_nested_irq ≡ 0
    → (s' : Sched) × (schedule s ≡ ok s')
      × Rotation s' (l ++ woken_by x y s parent)
      × (s'.current ≡ y)
      × (get_thread x s' ≡ none)
      × (s'.killed_processes ≡ killed_with x s)
      × ((td : Td)
          → same_td td x ≡ false
          → Fresh td (y ∷ woken_by x y s parent)
          → get_thread td s' ≡ get_thread td s)
schedule-killed s x y l holds exits unique (inl untold) all (fresh, dist) on irq nested =
    let (q, pop, holds1) = pqueue_pop-Holds s.pqueue x (y ∷ l) holds in
    let (s2, kill, g) = kill_thread-Gone x (without q s) unique untold in
    let (s', run, rotation, now, killed, others) =
      run_next s s2 x y l q exits pop kill (omega (arith, holds.room)) on nested
        (subst (λ p. Holds p (y ∷ l)) (sym g.pqueue) holds1)
        (AllReady-kept (y ∷ l) s s2 x fresh g.others all) dist (g.on ∙ on) (g.irq ∙ irq)
        (g.nested ∙ nested) in
    (
      s',
      run,
      subst (Rotation s') (sym (append-nil l)) rotation,
      now,
      others x (fresh.0) ∙ g.gone,
      killed ∙ g.killed,
      λ td nx apart. others td (apart.0) ∙ g.others td nx,
    )
schedule-killed s x y l holds exits unique (inr (told, elsewhere)) all (fresh, dist) on irq nested =
    let (q, pop, holds1) = pqueue_pop-Holds s.pqueue x (y ∷ l) holds in
    let s1 = without q s in
    let p = main_thread (s.ppid x.pid) in
    let (s2, kill, w) = kill_thread-Woken x s1 (y ∷ l) unique holds1 (Told-without x s q told) in
    let table = emptied-WithoutThread x s1 told.last in
    let kept : (td : Td) → same_td td x ≡ false → get_thread td (emptied x s1) ≡ get_thread td s =
      λ td other. WithoutThread-others x td s1 (emptied x s1) unique table other in
    let p_l = blocked-Fresh p (y ∷ l) s told.listens.main_blocked all in
    let all2 =
      AllReady-append (y ∷ l) p s2
        (AllReady-kept (y ∷ l) (emptied x s1) s2 p p_l w.others
          (AllReady-kept (y ∷ l) s (emptied x s1) x fresh kept all))
        w.runs in
    let (s', run, rotation, now, killed, others) =
      run_next s s2 x y (l ++ (p ∷ [])) q exits pop kill (omega (arith, holds.room)) on nested
        w.queue all2 (Distinct-append p (y ∷ l) p_l dist) (w.on ∙ on) (w.irq ∙ irq)
        (w.nested ∙ nested) in
    let apart : same_td x p ≡ false = ground (arith, told.other) in
    (
      s',
      run,
      rotation,
      now,
      others x (fresh.0) ∙ w.others x apart ∙ WithoutThread-gone x s1 (emptied x s1) unique table,
      killed ∙ w.killed ∙ rw told.last refl,
      λ td nx f. others td (f.0) ∙ w.others td (f.1.0) ∙ kept td nx,
    )
