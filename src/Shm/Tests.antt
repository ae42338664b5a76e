-- ===== src/Shm/Tests.antt =====
-- The theorems at two objects and two processes.
use bincows.Base.{
  zero, suc, ℕ, ◌≡◌, refl, true, false, Option, [], ◌∷◌, none, some, ok, wild, arith, get_elem?,
  Outcome, ◌>>=◌, ◌==◌, if◌then◌else◌,
}
use bincows.Shm.{
  Shm, ShmInstance, SharedPd, World, put_slot, get_shm, first_free, insert_shm, remove_shm, map_shm,
  unmap_shm, shm_create_from_kernel, shm_open, close_count, shm_close, pd_at,
}
use bincows.Shm.Counting.{close_last_stays}
use bincows.Shm.Opening.{close-open}

abbrev first : Shm
first = record { id = 3; n_insts = 2; pd_paddr = 0x5000; size = 100; pfree = true }

abbrev second : Shm
second = record { id = 8; n_insts = 1; pd_paddr = 0x9000; size = 200; pfree = false }

-- Slot 0 of process 1 is taken; there is no other process.
abbrev slots : SharedPd
slots i = if i == 0 then some 0x7000 else none

abbrev world : World
world = record {
  shms = first ∷ second ∷ [];
  cur = 8;
  procs = λ pid. if pid == 1 then some slots else none;
  freed = [];
}

abbrev kernel_instance : ShmInstance
kernel_instance = record { target = 8; vaddr = none; pid = 0 }

first_found : get_shm 3 world.shms ≡ some 0
unfolding get_shm
first_found = refl

second_found : get_shm 8 world.shms ≡ some 1
unfolding get_shm
second_found = refl

slot_1 : first_free slots 512 0 ≡ some 1
unfolding first_free
slot_1 = refl

-- The object that the kernel creates is the last of the list: closing it frees its directory, and
-- a process that opens it then gets the directory.
stale : Outcome (Option ℕ)
unfolding shm_create_from_kernel insert_shm shm_close close_count get_shm remove_shm unmap_shm
    shm_open map_shm first_free
stale =
    let (made, w) = shm_create_from_kernel 0xb000 50 true world in
    elim made [
      | none ↦ wild
      | some ins ↦ (do
        w ← shm_close none ins w
        let (opened, w) = shm_open ins.target 1 w
        elim opened [ none ↦ wild | some _ ↦ elim (w.procs 1) [ none ↦ wild | some t ↦ ok (t 1) ] ])
    ]

stale_gives : stale ≡ ok (some 0xb000)
unfolding stale
stale_gives = refl

close_last_stays_example :
    (w' : World) × (shm_close none kernel_instance world ≡ ok w')
    × (w'.freed ≡ (0x9000, false) ∷ [])
    × (get_shm 8 w'.shms ≡ some 1)
    × (pd_at 1 w'.shms ≡ 0x9000)
close_last_stays_example =
    close_last_stays kernel_instance world 1 second second_found refl refl refl

close-open_example :
    (ins : ShmInstance) × (w' : World) × (shm_open 3 1 world ≡ (some ins, w'))
    × (w'.procs 1 ≡ some (put_slot slots 1 (some 0x5000)))
    × (get_elem? w'.shms 0 ≡ some (record first { n_insts = 3 }))
    × (shm_close (some 1) ins w' ≡ ok world)
close-open_example = close-open 3 1 world 0 first slots 1 first_found refl (omega arith) refl slot_1

-- The first object with one instance left.
abbrev lone : Shm
lone = record first { n_insts = 1 }

abbrev two : World
two = record world { shms = lone ∷ second ∷ [] }

two-distinct :
    (i j : ℕ) (s t : Shm)
    → get_elem? two.shms i ≡ some s
    → get_elem? two.shms j ≡ some t
    → s.id ≡ t.id
    → i ≡ j
two-distinct zero zero s t es et e = refl
two-distinct zero (suc zero) s t es et e = cc
two-distinct (suc zero) zero s t es et e = cc
two-distinct (suc zero) (suc zero) s t es et e = refl
two-distinct zero (suc (suc j)) s t es et e = cc
two-distinct (suc zero) (suc (suc j)) s t es et e = cc
two-distinct (suc (suc i)) j s t es et e = cc

lone_found : get_shm 3 two.shms ≡ some 0
unfolding get_shm
lone_found = refl

abbrev lone_instance : ShmInstance
lone_instance = record { target = 3; vaddr = none; pid = 0 }
