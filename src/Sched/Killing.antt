-- ===== src/Sched/Killing.antt =====
-- The lazy kill of a thread and its process in `schedule`, and what it tells the parent.
use Prim.Native.Nat.{bit_and}
use mathlib.Core.Path.{subst}
use bincows.Base.{
  ℕ, ◌^◌, ◌⊎◌, ◌++◌, ◌≡◌, ◌∙◌, refl, sym, ap, inl, inr, Bool-cases, none, some, List, [], ◌∷◌,
  length, true, false, ◌==◌, if◌then◌else◌, arith, ok,
}
use bincows.Sched.Queue.{Td}
use bincows.Sched.Threads.{
  Thread, Sched, sched_get_thread_by_tid, get_thread, put_process, process_trigger_signal,
  remove_process, sigchld, last_thread, but_last, drop_thread, kill_thread,
}
use bincows.Sched.Lookup.{same_td}

-- No thread of `l` has the number.
abbrev pub Absent : ℕ → List Thread → Type 0
Absent tid [] = Unit
Absent tid (t ∷ l) = ((t.tid == tid) ≡ false) × Absent tid l

abbrev pub UniqueTids : List Thread → Type 0
UniqueTids [] = Unit
UniqueTids (t ∷ l) = Absent t.tid l × UniqueTids l

Absent-none : (tid : ℕ) (l : List Thread) → Absent tid l → sched_get_thread_by_tid tid l ≡ none
Absent-none tid [] v = refl
Absent-none tid (t ∷ l) (other, v) = rw other (Absent-none tid l v)

Absent-last :
    (tid : ℕ) (t : Thread) (l : List Thread)
    → Absent tid (t ∷ l)
    → ((last_thread t l).tid == tid) ≡ false
Absent-last tid t [] (other, v) = other
Absent-last tid t (u ∷ l) (other, v) = Absent-last tid u l v

-- The last thread in front: with unique numbers the search finds the same.
last-front :
    (tid : ℕ) (t : Thread) (l : List Thread)
    → UniqueTids (t ∷ l)
    → sched_get_thread_by_tid tid (last_thread t l ∷ but_last t l)
      ≡ sched_get_thread_by_tid tid (t ∷ l)
last-front tid t [] v = refl
last-front tid t (u ∷ l) (absent, v) =
    let rest = last-front tid u l v in
    let last = last_thread u l in
    elim (Bool-cases (last.tid == tid)) [
      | inl here ↦
          (let differs : (t.tid == tid) ≡ false =
              ground (arith, here, Absent-last t.tid u l absent) in
            let found : sched_get_thread_by_tid tid (u ∷ l) ≡ some last = sym rest ∙ rw here refl in
            rw (here, differs) (sym found))
      | inr on ↦
          (let past : sched_get_thread_by_tid tid (but_last u l)
                ≡ sched_get_thread_by_tid tid (u ∷ l) =
              ap (λ b. if b then some last else sched_get_thread_by_tid tid (but_last u l)) (sym on)
              ∙ rest in
            rw on (ap (λ o. if t.tid == tid then some t else o) past))
    ]

drop_thread-other :
    (tid dead : ℕ) (l : List Thread)
    → UniqueTids l
    → (dead == tid) ≡ false
    → sched_get_thread_by_tid tid (drop_thread dead l) ≡ sched_get_thread_by_tid tid l
drop_thread-other tid dead [] v other = refl
drop_thread-other tid dead (t ∷ []) v other = elim (Bool-cases (t.tid == dead)) [
  | inl here ↦ (let skip : (t.tid == tid) ≡ false = ground (arith, here, other) in rw (here, skip))
  | inr on ↦ rw on refl
]
drop_thread-other tid dead (t ∷ u ∷ r) (absent, v) other = elim (Bool-cases (t.tid == dead)) [
  | inl here ↦
      (let skip : (t.tid == tid) ≡ false = ground (arith, here, other) in
        rw (here, skip) (last-front tid u r v))
  | inr on ↦
      rw on
        (ap (λ o. if t.tid == tid then some t else o) (drop_thread-other tid dead (u ∷ r) v other))
]

drop_thread-none :
    (dead : ℕ) (l : List Thread)
    → UniqueTids l
    → sched_get_thread_by_tid dead (drop_thread dead l) ≡ none
drop_thread-none dead [] v = refl
drop_thread-none dead (t ∷ []) v = elim (Bool-cases (t.tid == dead)) [
  | inl here ↦ rw here refl
  | inr on ↦ rw on (rw on refl)
]
drop_thread-none dead (t ∷ u ∷ r) (absent, v) = elim (Bool-cases (t.tid == dead)) [
  | inl here ↦
      (let same : t.tid ≡ dead = ground arith in
        rw here (
          last-front dead u r v
          ∙ Absent-none dead (u ∷ r) (subst (λ k. Absent k (u ∷ r)) same absent)))
  | inr on ↦ rw on (rw on (drop_thread-none dead (u ∷ r) v))
]

-- The threads of the process of `x` without `x`
abbrev pub others_of : Td → Sched → List Thread
others_of x s = drop_thread x.tid (s.processes x.pid)

-- Nobody is told when the thread exits: it is not the last one of its process, or the parent is not
-- there, or the parent ignores SIGCHLD.
abbrev pub Untold : Td → Sched → Type 0
Untold x s =
    ((length (others_of x s) == 0) ≡ false)
    ⊎ ((length (s.processes (s.ppid x.pid)) == 0) ≡ true)
    ⊎ ((bit_and (s.ign_mask (s.ppid x.pid)) (2 ^ sigchld) == 0) ≡ false)

-- the list of the killed processes when the thread has exited
abbrev pub killed_with : Td → Sched → List ℕ
killed_with x s =
    if length (others_of x s) == 0 then s.killed_processes ++ (x.pid ∷ []) else s.killed_processes

-- The thread `x` is gone in `s'`, its process with it if it was the last one, and nothing else changes.
pub record Gone (x : Td) (s s' : Sched) : Type 0 where
  pub gone : get_thread x s' ≡ none
  pub others : (td : Td) → same_td td x ≡ false → get_thread td s' ≡ get_thread td s
  pub killed : s'.killed_processes ≡ killed_with x s
  pub pqueue : s'.pqueue ≡ s.pqueue
  pub on : s'.sched_running ≡ s.sched_running
  pub irq : s'.currently_in_irq ≡ s.currently_in_irq
  pub nested : s'.currently_in_nested_irq ≡ s.currently_in_nested_irq

-- The table of the threads of `s` without `x`
abbrev pub WithoutThread : Td → Sched → (ℕ → List Thread) → Type 0
WithoutThread x s table = (p : ℕ) → table p ≡ (if p == x.pid then others_of x s else s.processes p)

pub WithoutThread-gone :
    (x : Td) (s s' : Sched)
    → UniqueTids (s.processes x.pid)
    → WithoutThread x s s'.processes
    → get_thread x s' ≡ none
WithoutThread-gone x s s' v table =
    let here : (x.pid == x.pid) ≡ true = ground arith in
    ap (sched_get_thread_by_tid x.tid) (table x.pid)
    ∙ rw here (drop_thread-none x.tid (s.processes x.pid) v)

pub WithoutThread-others :
    (x td : Td) (s s' : Sched)
    → UniqueTids (s.processes x.pid)
    → WithoutThread x s s'.processes
    → same_td td x ≡ false
    → get_thread td s' ≡ get_thread td s
WithoutThread-others x td s s' v table other =
    ap (sched_get_thread_by_tid td.tid) (table td.pid) ∙ (elim (Bool-cases (td.pid == x.pid)) [
      | inl one_process ↦
          (let there : td.pid ≡ x.pid = ground arith in
            let differs : (x.tid == td.tid) ≡ false = ground (arith, other, one_process) in
            rw one_process (
              drop_thread-other td.tid x.tid (s.processes x.pid) v differs
              ∙ ap (λ q. sched_get_thread_by_tid td.tid (s.processes q)) (sym there)))
      | inr two ↦ rw two refl
    ])

-- What is left when the last thread of a process has exited, before the parent is told
abbrev pub emptied : Td → Sched → Sched
emptied x s = record (put_process x.pid [] (put_process x.pid (others_of x s) s)) {
  killed_processes = s.killed_processes ++ (x.pid ∷ []);
}

process_trigger_signal-absent :
    (pid signal : ℕ) (s : Sched)
    → (length (s.processes pid) == 0) ≡ true
    → process_trigger_signal pid signal s ≡ ok s
unfolding process_trigger_signal
process_trigger_signal-absent pid signal s e = rw (e, process_trigger_signal) refl

process_trigger_signal-ignored :
    (pid signal : ℕ) (s : Sched)
    → (bit_and (s.ign_mask pid) (2 ^ signal) == 0) ≡ false
    → process_trigger_signal pid signal s ≡ ok s
unfolding process_trigger_signal
process_trigger_signal-ignored pid signal s e = elim (Bool-cases (length (s.processes pid) == 0)) [
  | inl a ↦ rw (a, process_trigger_signal) refl
  | inr b ↦ rw (b, e, process_trigger_signal) refl
]

absent-emptied :
    (p : ℕ) (x : Td) (s : Sched)
    → (length (s.processes p) == 0) ≡ true
    → (length ((emptied x s).processes p) == 0) ≡ true
absent-emptied p x s e = elim (Bool-cases (p == x.pid)) [
  | inl here ↦ rw here refl
  | inr other ↦ rw other e
]

nil_of_length : (l : List Thread) → (length l == 0) ≡ true → l ≡ []
nil_of_length [] e = refl
nil_of_length (t ∷ l) e = absurd (ground (arith, e))

pub emptied-WithoutThread :
    (x : Td) (s : Sched)
    → (length (others_of x s) == 0) ≡ true
    → WithoutThread x s (emptied x s).processes
emptied-WithoutThread x s last p = elim (Bool-cases (p == x.pid)) [
  | inl here ↦ rw here (sym (nil_of_length (others_of x s) last))
  | inr other ↦ rw other refl
]

pub kill_thread-told :
    (x : Td) (s s' : Sched)
    → (length (others_of x s) == 0) ≡ true
    → process_trigger_signal (s.ppid x.pid) sigchld (emptied x s) ≡ ok s'
    → kill_thread x s ≡ ok s'
unfolding kill_thread remove_process
kill_thread-told x s s' last told = rw (last, kill_thread) told

emptied-Gone :
    (x : Td) (s : Sched)
    → UniqueTids (s.processes x.pid)
    → (length (others_of x s) == 0) ≡ true
    → Gone x s (emptied x s)
emptied-Gone x s v last =
    let table = emptied-WithoutThread x s last in
    record {
      gone = WithoutThread-gone x s (emptied x s) v table;
      others = λ td other. WithoutThread-others x td s (emptied x s) v table other;
      killed = rw last refl;
      pqueue = refl;
      on = refl;
      irq = refl;
      nested = refl;
    }

kept-Gone :
    (x : Td) (s : Sched)
    → UniqueTids (s.processes x.pid)
    → (length (others_of x s) == 0) ≡ false
    → Gone x s (put_process x.pid (others_of x s) s)
kept-Gone x s v more =
    let kept = put_process x.pid (others_of x s) s in
    record {
      gone = WithoutThread-gone x s kept v (λ p. refl);
      others = λ td other. WithoutThread-others x td s kept v (λ p. refl) other;
      killed = rw more refl;
      pqueue = refl;
      on = refl;
      irq = refl;
      nested = refl;
    }

pub kill_thread-Gone :
    (x : Td) (s : Sched)
    → UniqueTids (s.processes x.pid)
    → Untold x s
    → (s' : Sched) × (kill_thread x s ≡ ok s') × Gone x s s'
unfolding kill_thread
kill_thread-Gone x s v untold = elim (Bool-cases (length (others_of x s) == 0)) [
  | inr more ↦
      (put_process x.pid (others_of x s) s, rw (more, kill_thread) refl, kept-Gone x s v more)
  | inl last ↦
      (let told : process_trigger_signal (s.ppid x.pid) sigchld (emptied x s) ≡ ok (emptied x s) =
          elim untold [
            | inl more ↦ absurd (ground (arith, more, last))
            | inr (inl none_) ↦
                process_trigger_signal-absent (s.ppid x.pid) sigchld (emptied x s)
                  (absent-emptied (s.ppid x.pid) x s none_)
            | inr (inr ignored) ↦
                process_trigger_signal-ignored (s.ppid x.pid) sigchld (emptied x s) ignored
          ] in
        (emptied x s, kill_thread-told x s (emptied x s) last told, emptied-Gone x s v last))
]
