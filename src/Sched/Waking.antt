-- ===== src/Sched/Waking.antt =====
-- `sched_unblock` and the threads that wait.
use bincows.Base.{
  ◌+◌, ◌%◌, ◌^◌, ◌≡◌, ◌∙◌, refl, sym, ap, ap₂, Option-cases, inl, inr, Bool-cases, Option, none,
  some, List, [], ◌∷◌, ◌++◌, Bool, true, false, not, arith, ok,
}
use bincows.Sched.Queue.{Td}
use bincows.Sched.Growing.{pqueue_push-Holds}
use bincows.Sched.Threads.{
  ThreadState, ready, running, blocked, is_blocked, Thread, Sched, sched_get_thread_by_tid,
  get_thread, write_thread, sched_push_ready_thread, sched_unblock,
}
use bincows.Sched.Lookup.{
  same_td, Fresh, same_td_comm, Fresh-append, Distinct-append, found_tid, Runs, Runs-there,
  Runs-moved, Runs-other, AllReady, AllReady-other, AllReady-append, AllReady-there,
}
use bincows.Sched.Turns.{Rotation, push_run, if_false, if_true}

abbrev waits : Option Thread → Bool
waits none = false
waits (some t) = is_blocked t.state

-- Threads in two states are two threads.
two_states :
    (st st' : ThreadState) (a b : Td) (s : Sched)
    → is_blocked st ≡ true
    → is_blocked st' ≡ false
    → Runs st a s
    → Runs st' b s
    → same_td a b ≡ false
two_states st st' a b s yes_ no_ v w = elim (Bool-cases (same_td a b)) [
  | inr differs ↦ differs
  | inl same ↦
      (let pids : a.pid ≡ b.pid = ground arith in
        let tids : a.tid ≡ b.tid = ground arith in
        let one : get_thread a s ≡ get_thread b s =
          ap₂ (λ p q. sched_get_thread_by_tid q (s.processes p)) pids tids in
        same
        ∙ sym yes_
        ∙ sym (ap is_blocked v.state_is)
        ∙ ap waits (sym v.there ∙ one ∙ w.there)
        ∙ ap is_blocked w.state_is
        ∙ no_)
]

pub blocked-Fresh :
    (td : Td) (l : List Td) (s : Sched) → Runs blocked td s → AllReady l s → Fresh td l
blocked-Fresh td [] s v all = tt
blocked-Fresh td (a ∷ l) s v (w, all) =
    (two_states blocked ready td a s refl refl v w, blocked-Fresh td l s v all)

-- Waking a blocked thread makes it ready and puts it behind all that wait; the current thread goes on.
pub sched_unblock-Rotation :
    (s : Sched) (l : List Td) (td : Td)
    → Rotation s l
    → Runs blocked td s
    → (s' : Sched) × (sched_unblock td s ≡ ok s')
      × Rotation s' (l ++ (td ∷ []))
      × (s'.current ≡ s.current)
unfolding sched_unblock
sched_unblock-Rotation s l td v b =
    let t = b.thread in
    let number : t.tid ≡ td.tid = found_tid td.tid (s.processes td.pid) t b.there in
    let this : record { pid = td.pid; tid = t.tid } ≡ td =
      ap (λ n. record { pid = td.pid; tid = n }) number in
    let (q, run, holds) = pqueue_push-Holds s.pqueue l td v.queue in
    let w = write_thread td.pid (record t { state = ready }) s in
    let s' = record w { pqueue = q; n_ready_threads = (s.n_ready_threads + 1) % 2 ^ 32 } in
    let put : sched_push_ready_thread (record { pid = td.pid; tid = t.tid }) w ≡ ok s' =
      ap (λ d. sched_push_ready_thread d w) this ∙ push_run td w q b.pid_in b.tid_in run in
    let woken : not (is_blocked t.state) ≡ false = ap (λ st. not (is_blocked st)) b.state_is in
    let f_now : same_td td s.current ≡ false =
      two_states blocked running td s.current s refl refl b v.now in
    let f_l = blocked-Fresh td l s b v.waiting in
    let (f_c, dist) = v.distinct in
    (
      s',
      rw (b.there, sched_unblock) (if_false _ _ woken ∙ put),
      record {
        queue = holds;
        waiting =
            AllReady-there (l ++ (td ∷ [])) w s' (λ d. refl)
              (AllReady-append l td w (AllReady-other l ready td s t f_l number v.waiting)
                (Runs-moved blocked ready td s b));
        now = Runs-there running s.current w s' refl (
            Runs-other running ready s.current td s t (same_td_comm td s.current f_now) number
              v.now);
        distinct = (
          Fresh-append s.current td l f_c (same_td_comm td s.current f_now),
          Distinct-append td l f_l dist,
        );
        on = v.on;
        no_irq = v.no_irq;
        no_nested = v.no_nested;
      },
      refl,
    )

-- Waking a thread that is not blocked, or is not there, changes nothing.
pub sched_unblock-idle :
    (s : Sched) (td : Td)
    → ((t : Thread) → get_thread td s ≡ some t → is_blocked t.state ≡ false)
    → sched_unblock td s ≡ ok s
unfolding sched_unblock
sched_unblock-idle s td idle = elim (Option-cases (get_thread td s)) [
  | inl none_ ↦ rw (none_, sched_unblock)
  | inr (t, e) ↦ rw (e, sched_unblock) (if_true _ _ (ap not (idle t e)))
]
