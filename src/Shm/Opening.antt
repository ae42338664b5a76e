-- ===== src/Shm/Opening.antt =====
-- Creating, opening and closing an instance in a process.
use mathlib.Core.Path.{fun_ext}
use bincows.Base.{
  ℕ, ◌+◌, ◌-◌, ◌/◌, ◌<◌, ◌≡◌, ◌≢◌, ◌∙◌, refl, ap, true, false, ◌||◌, Option, none, some, [], ◌∷◌,
  ◌++◌, ◌==◌, if◌then◌else◌, arith, inl, inr, ok, panic, get_elem?, set, get_elem?-set_self,
  set-set, set_same,
}
use bincows.Shm.{
  Shm, ShmInstance, SharedPd, World, first_free, put_slot, put_proc, slot_addr, user_shared_begin,
  page_r1_size, bad_size, insert_shm, get_shm, map_shm, unmap_shm, shm_create, shm_open, shm_close,
  bump, pd_at,
}
use bincows.Shm.Slots.{slot_addr_lem, first_free_lem}
use bincows.Shm.Counting.{counted, get_shm-set, close_count_lem, close_count_total}

-- An instance whose address is NULL cannot be closed by a process.
close_null :
    (pid : ℕ) (ins : ShmInstance) (w : World)
    → ins.vaddr ≡ none
    → shm_close (some pid) ins w ≡ panic
unfolding shm_close unmap_shm
close_null pid ins w null = elim (close_count_total ins.target w) [
  | inl (w', runs) ↦ rw (runs, null)
  | inr stops ↦ rw stops
]

map_shm_lem :
    (pd pid : ℕ) (w : World) (t : SharedPd) (k : ℕ)
    → w.procs pid ≡ some t
    → first_free t 512 0 ≡ some k
    → map_shm pd pid w ≡ (some (slot_addr k), put_proc pid (put_slot t k (some pd)) w)
unfolding map_shm
map_shm_lem pd pid w t k proc free = rw (map_shm, proc) (rw (map_shm, free))

-- `shm_create` maps the new object into the first slot of the process that is free and puts it in
-- the list with one instance. The instance that it returns cannot be closed by the process: the
-- kernel stops.
create_close_panics :
    (pd n pid : ℕ) (w : World) (t : SharedPd) (k : ℕ)
    → bad_size n ≡ false
    → pd ≢ 0
    → w.procs pid ≡ some t
    → first_free t 512 0 ≡ some k
    → (ins : ShmInstance) × (w' : World) × (shm_create pd n pid w ≡ (some ins, w'))
      × (w'.shms
          ≡ w.shms
            ++ (record { id = ins.target; n_insts = 1; pd_paddr = pd; size = n; pfree = true }
                ∷ []))
      × (w'.procs pid ≡ some (put_slot t k (some pd)))
      × (shm_close (some pid) ins w' ≡ panic)
unfolding shm_create insert_shm
create_close_panics pd n pid w t k fits got proc free =
    let id = w.cur + 1 in
    let s : Shm = record { id = id; n_insts = 1; pd_paddr = pd; size = n; pfree = true } in
    let ins : ShmInstance = record { target = id; vaddr = none; pid = pid } in
    let w' : World =
      put_proc pid (put_slot t k (some pd)) (record w { shms = w.shms ++ (s ∷ []); cur = id }) in
    (
      ins,
      w',
      (let ok_ : (bad_size n || (pd == 0)) ≡ false = ground arith in
          let mapped = map_shm_lem pd pid (insert_shm s (record w { cur = id })) t k proc free in
          rw (shm_create, ok_) (rw mapped (ap (λ r. (some ins, r.1)) mapped))),
      refl,
      ground arith,
      close_null pid ins w' refl,
    )

put_slot_back :
    (t : SharedPd) (k : ℕ) (v : Option ℕ) → t k ≡ none → put_slot (put_slot t k v) k none ≡ t
put_slot_back t k v free = fun_ext (λ j. ground arith)

put_proc_back :
    (pid : ℕ) (t u : SharedPd) (procs : ℕ → Option SharedPd)
    → procs pid ≡ some t
    → (λ q. if q == pid then some t else (if q == pid then some u else procs q)) ≡ procs
put_proc_back pid t u procs here = fun_ext (λ q. ground arith)

-- `unmap_shm` at the address of a slot that holds a directory empties the slot.
unmap_shm_lem :
    (pid k pd : ℕ) (w : World) (t : SharedPd)
    → w.procs pid ≡ some t
    → k < 512
    → t k ≡ some pd
    → unmap_shm pid (some (slot_addr k)) w ≡ ok (put_proc pid (put_slot t k none) w)
unfolding unmap_shm
unmap_shm_lem pid k pd w t proc lt full =
    let addr = slot_addr_lem k lt in
    let slot : (slot_addr k - user_shared_begin) / page_r1_size ≡ k = rw addr (omega arith) in
    rw (unmap_shm, proc) (rw slot (ground (arith, addr, full)))

-- Counting one instance more and then one less changes nothing.
uncounted :
    (w : World) (i : ℕ) (s : Shm)
    → get_elem? w.shms i ≡ some s
    → 0 < s.n_insts
    → let more : Shm = record s { n_insts = s.n_insts + 1 } in
      counted (record w { shms = set w.shms i more }) i more ≡ w
uncounted w i s at_ pos =
    let more : Shm = record s { n_insts = s.n_insts + 1 } in
    ground (arith, set-set w.shms i more s, set_same w.shms i at_)

-- Unmapping what was mapped into a free slot restores the process.
unmapped :
    (pid k pd : ℕ) (w : World) (t : SharedPd)
    → w.procs pid ≡ some t
    → first_free t 512 0 ≡ some k
    → unmap_shm pid (some (slot_addr k)) (put_proc pid (put_slot t k (some pd)) w) ≡ ok w
unmapped pid k pd w t proc free =
    let t' : SharedPd = put_slot t k (some pd) in
    let (lt, was_free) = first_free_lem t 512 0 k free in
    unmap_shm_lem pid k pd (put_proc pid t' w) t' (ground arith) lt (ground arith)
    ∙ rw (put_slot_back t k (some pd) was_free)
        (ap (λ p. ok (record w { procs = p })) (put_proc_back pid t t' w.procs proc))

-- Opening an object that has an instance, in a process with a free slot, maps the object there and
-- counts one instance more. Closing what it returned undoes this.
pub close-open :
    (id pid : ℕ) (w : World) (i : ℕ) (s : Shm) (t : SharedPd) (k : ℕ)
    → get_shm id w.shms ≡ some i
    → get_elem? w.shms i ≡ some s
    → 0 < s.n_insts
    → w.procs pid ≡ some t
    → first_free t 512 0 ≡ some k
    → (ins : ShmInstance) × (w' : World) × (shm_open id pid w ≡ (some ins, w'))
      × (w'.procs pid ≡ some (put_slot t k (some s.pd_paddr)))
      × (get_elem? w'.shms i ≡ some (record s { n_insts = s.n_insts + 1 }))
      × (shm_close (some pid) ins w' ≡ ok w)
unfolding shm_open shm_close
close-open id pid w i s t k found at_ pos proc free =
    let ins : ShmInstance = record { target = id; vaddr = some (slot_addr k); pid = pid } in
    let more : Shm = record s { n_insts = s.n_insts + 1 } in
    let t' : SharedPd = put_slot t k (some s.pd_paddr) in
    let w' : World = record (put_proc pid t' w) { shms = set w.shms i more } in
    let mapped = map_shm_lem s.pd_paddr pid w t k proc free in
    let here' = get_elem?-set_self w.shms i more at_ in
    (
      ins,
      w',
      (let at_pd : pd_at i w.shms ≡ s.pd_paddr = rw (pd_at, at_) in
          let mapped' : map_shm (pd_at i w.shms) pid w ≡ (some (slot_addr k), put_proc pid t' w) =
            rw at_pd mapped in
          rw (shm_open, found)
            (rw mapped' (
              ap (λ r. (some ins, record (r.1) { shms = bump i r.1.shms })) mapped'
              ∙ rw (bump, at_)))),
      ground arith,
      here',
      rw
          ((close_count_lem id w' i more (get_shm-set id w.shms i s more at_ refl ∙ found) here').0
            (omega arith))
          (ap (unmap_shm pid (some (slot_addr k))) (uncounted (put_proc pid t' w) i s at_ pos)
            ∙ unmapped pid k s.pd_paddr w t proc free),
    )
