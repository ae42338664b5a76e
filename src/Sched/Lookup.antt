-- ===== src/Sched/Lookup.antt =====
-- The table of threads: what a write to one thread does to the lookups of the others.
use bincows.Base.{
  ℕ, ◌≤◌, ◌<◌, ◌≡◌, ◌∙◌, refl, sym, ap, inl, inr, Bool-cases, some, List, [], ◌∷◌, ◌++◌, Bool, true,
  false, ◌&&◌, ◌==◌, if◌then◌else◌, arith,
}
use bincows.Sched.Queue.{Td}
use bincows.Sched.Threads.{
  max_id, ThreadState, ready, Thread, Sched, sched_get_thread_by_tid, get_thread, put_thread,
  write_thread,
}

abbrev pub same_td : Td → Td → Bool
same_td a b = a.pid == b.pid && a.tid == b.tid

abbrev pub Fresh : Td → List Td → Type 0
Fresh a [] = Unit
Fresh a (b ∷ r) = (same_td a b ≡ false) × Fresh a r

abbrev pub Distinct : List Td → Type 0
Distinct [] = Unit
Distinct (a ∷ r) = Fresh a r × Distinct r

pub same_td_comm : (a b : Td) → same_td a b ≡ false → same_td b a ≡ false
same_td_comm a b e = ground (arith, e)

pub Fresh-append :
    (a b : Td) (l : List Td) → Fresh a l → same_td a b ≡ false → Fresh a (l ++ (b ∷ []))
Fresh-append a b [] v e = (e, tt)
Fresh-append a b (c ∷ l) (other, v) e = (other, Fresh-append a b l v e)

pub Distinct-append : (b : Td) (l : List Td) → Fresh b l → Distinct l → Distinct (l ++ (b ∷ []))
Distinct-append b [] f v = (tt, tt)
Distinct-append b (a ∷ l) (other, f) (g, v) =
    (Fresh-append a b l g (same_td_comm b a other), Distinct-append b l f v)

-- A thread that the search finds has the number that is searched for.
pub found_tid :
    (tid : ℕ) (l : List Thread) (t : Thread) → sched_get_thread_by_tid tid l ≡ some t → t.tid ≡ tid
found_tid tid [] t e = cc
found_tid tid (u ∷ l) t e = elim (Bool-cases (u.tid == tid)) [
  | inl here ↦ ground (arith, e, here)
  | inr on ↦ found_tid tid l t (ground (arith, e, on))
]

pub put_thread_same :
    (t u : Thread) (l : List Thread)
    → sched_get_thread_by_tid t.tid l ≡ some u
    → sched_get_thread_by_tid t.tid (put_thread t l) ≡ some t
put_thread_same t u [] e = cc
put_thread_same t u (w ∷ l) e = elim (Bool-cases (w.tid == t.tid)) [
  | inl here ↦ rw here (ground arith)
  | inr on ↦ rw on (rw on (put_thread_same t u l (ground (arith, e, on))))
]

put_thread_other :
    (tid : ℕ) (t : Thread) (l : List Thread)
    → (t.tid == tid) ≡ false
    → sched_get_thread_by_tid tid (put_thread t l) ≡ sched_get_thread_by_tid tid l
put_thread_other tid t [] e = refl
put_thread_other tid t (w ∷ l) e = elim (Bool-cases (w.tid == t.tid)) [
  | inl here ↦ rw here (ground (arith, e))
  | inr on ↦ rw on (ap (λ o. if w.tid == tid then some w else o) (put_thread_other tid t l e))
]

pub write_thread_same :
    (td : Td) (s : Sched) (t u : Thread)
    → get_thread td s ≡ some u
    → t.tid ≡ td.tid
    → get_thread td (write_thread td.pid t s) ≡ some t
write_thread_same td s t u e same =
    let here : (td.pid == td.pid) ≡ true = ground arith in
    rw (here, sym same)
      (put_thread_same t u (s.processes td.pid)
        (ap (λ k. sched_get_thread_by_tid k (s.processes td.pid)) same ∙ e))

pub write_thread_other :
    (a b : Td) (s : Sched) (t : Thread)
    → same_td a b ≡ false
    → t.tid ≡ b.tid
    → get_thread a (write_thread b.pid t s) ≡ get_thread a s
write_thread_other a b s t other same = elim (Bool-cases (a.pid == b.pid)) [
  | inl one_process ↦
      (let there : a.pid ≡ b.pid = ground arith in
        let differs : (t.tid == a.tid) ≡ false = ground (arith, other, one_process, same) in
        rw one_process (
          put_thread_other a.tid t (s.processes b.pid) differs
          ∙ ap (λ q. sched_get_thread_by_tid a.tid (s.processes q)) (sym there)))
  | inr two ↦ rw two refl
]

-- A thread of the table in the state `st`, which is neither to exit nor to block
pub record Runs (st : ThreadState) (td : Td) (s : Sched) : Type 0 where
  pub thread : Thread
  pub there : get_thread td s ≡ some thread
  pub state_is : thread.state ≡ st
  pub stays : thread.should_exit ≡ false
  pub goes_on : thread.should_block ≡ false
  pub pid_in : td.pid ≤ max_id
  pub tid_in : td.tid ≤ max_id
  pub tid_pos : 0 < td.tid

-- The lookup alone matters.
pub Runs-there :
    (st : ThreadState) (td : Td) (s s' : Sched)
    → get_thread td s' ≡ get_thread td s
    → Runs st td s
    → Runs st td s'
Runs-there st td s s' e v = record {
  thread = v.thread;
  there = e ∙ v.there;
  state_is = v.state_is;
  stays = v.stays;
  goes_on = v.goes_on;
  pid_in = v.pid_in;
  tid_in = v.tid_in;
  tid_pos = v.tid_pos;
}

-- The thread is moved to another state.
pub Runs-moved :
    (st st' : ThreadState) (td : Td) (s : Sched) (v : Runs st td s)
    → Runs st' td (write_thread td.pid (record v.thread { state = st' }) s)
Runs-moved st st' td s v = record {
  thread = record v.thread { state = st' };
  there =
      write_thread_same td s (record v.thread { state = st' }) v.thread v.there
        (found_tid td.tid (s.processes td.pid) v.thread v.there);
  state_is = refl;
  stays = v.stays;
  goes_on = v.goes_on;
  pid_in = v.pid_in;
  tid_in = v.tid_in;
  tid_pos = v.tid_pos;
}

-- Other threads stay as they are.
pub Runs-other :
    (st st' : ThreadState) (a b : Td) (s : Sched) (t : Thread)
    → same_td a b ≡ false
    → t.tid ≡ b.tid
    → Runs st a s
    → Runs st a (write_thread b.pid (record t { state = st' }) s)
Runs-other st st' a b s t other same v =
    Runs-there st a s _ (write_thread_other a b s (record t { state = st' }) other same) v

abbrev pub AllReady : List Td → Sched → Type 0
AllReady [] s = Unit
AllReady (td ∷ l) s = Runs ready td s × AllReady l s

pub AllReady-other :
    (l : List Td) (st' : ThreadState) (b : Td) (s : Sched) (t : Thread)
    → Fresh b l
    → t.tid ≡ b.tid
    → AllReady l s
    → AllReady l (write_thread b.pid (record t { state = st' }) s)
AllReady-other [] st' b s t f same v = tt
AllReady-other (a ∷ l) st' b s t (other, f) same (v, vs) = (
  Runs-other ready st' a b s t (same_td_comm b a other) same v,
  AllReady-other l st' b s t f same vs,
)

pub AllReady-append :
    (l : List Td) (td : Td) (s : Sched)
    → AllReady l s
    → Runs ready td s
    → AllReady (l ++ (td ∷ [])) s
AllReady-append [] td s v w = (w, tt)
AllReady-append (a ∷ l) td s (v, vs) w = (v, AllReady-append l td s vs w)

pub AllReady-there :
    (l : List Td) (s s' : Sched)
    → ((td : Td) → get_thread td s' ≡ get_thread td s)
    → AllReady l s
    → AllReady l s'
AllReady-there [] s s' e v = tt
AllReady-there (a ∷ l) s s' e (v, vs) =
    (Runs-there ready a s s' (e a) v, AllReady-there l s s' e vs)
