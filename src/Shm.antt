-- ===== src/Shm.antt =====
-- kernel/sched/shm.c: shared memory objects, counted by their instances. Each operation runs with
-- interrupts off from its first change to its last, so the locks are not modelled. What the paging
-- code does is a log of calls and, for each process, the table of its 512 shared regions.
pub mod Slots
pub mod Counting
pub mod Opening
pub mod Removing
mod Tests
use Prim.Native.Nat.{bit_or}
use bincows.Base.{
  ℕ, zero, suc, ◌+◌, ◌-◌, ◌*◌, ◌/◌, ◌^◌, Bool, true, false, not, ◌&&◌, ◌||◌, Option, none, some,
  List, [], ◌∷◌, ◌++◌, ltb, leb, ◌==◌, if◌then◌else◌, Outcome, ok, panic, wild, ◌>>=◌, ◌>>◌, assert,
  length, get_elem?, set,
}

-- `struct shm`
pub record Shm : Type 0 where
  pub id : ℕ
  pub n_insts : ℕ
  pub pd_paddr : ℕ
  pub size : ℕ
  pub pfree : Bool

-- `struct shm_instance`; `none` for a NULL address
pub record ShmInstance : Type 0 where
  pub target : ℕ
  pub vaddr : Option ℕ
  pub pid : ℕ

-- The page directory of each present slot of `proc->mem_map.shared_pd`.
abbrev pub SharedPd : Type 0
SharedPd = ℕ → Option ℕ

-- The static variables of shm.c, where the list is the first `n_shms` elements of `shms`, the
-- processes by pid, and the calls of `free_r1_region`, latest first.
pub record World : Type 0 where
  pub shms : List Shm
  pub cur : ℕ
  pub procs : ℕ → Option SharedPd
  pub freed : List (ℕ × Bool)

abbrev pub shm_size_max : ℕ
shm_size_max = 1024 * 1024 * 1024

abbrev pub user_shared_begin : ℕ
user_shared_begin = 0x100_0000_0000

abbrev pub user_shared_end : ℕ
user_shared_end = 0x180_0000_0000

abbrev pub page_r1_size : ℕ
page_r1_size = 1024 * 1024 * 1024

-- `insert_shm` and the write of the new element
unfoldable pub insert_shm : Shm → World → World
insert_shm s w = record w { shms = w.shms ++ (s ∷ []) }

abbrev pub drop_last : List Shm → List Shm
drop_last [] = []
drop_last (s ∷ []) = []
drop_last (s ∷ t ∷ r) = s ∷ drop_last (t ∷ r)

abbrev pub last_or : Shm → List Shm → Shm
last_or s [] = s
last_or s (t ∷ r) = last_or t r

-- `n_shms` falls only where the element is not the last.
unfoldable pub remove_shm : ℕ → List Shm → List Shm
remove_shm i [] = []
remove_shm i (s ∷ r) =
    if (i + 1) == length (s ∷ r) then s ∷ r else drop_last (set (s ∷ r) i (last_or s r))

-- the index of the object with that id
unfoldable pub get_shm : ℕ → List Shm → Option ℕ
get_shm id [] = none
get_shm id (s ∷ r) =
    let later = get_shm id r in
    if s.id == id then some 0 else elim later [ none ↦ none | some i ↦ some (suc i) ]

abbrev pub is_present : Option ℕ → Bool
is_present none = false
is_present (some pd) = true

-- The loop of `map_shm`: the first slot from `i` on that is not present, of `k` slots.
unfoldable pub first_free : SharedPd → ℕ → ℕ → Option ℕ
first_free t zero i = none
first_free t (suc k) i =
    let later = first_free t k (i + 1) in if is_present (t i) then later else some i

abbrev pub put_slot : SharedPd → ℕ → Option ℕ → SharedPd
put_slot t i v j = if j == i then v else t j

abbrev pub put_proc : ℕ → SharedPd → World → World
put_proc pid t w = record w { procs = λ q. if q == pid then some t else w.procs q }

abbrev pub slot_addr : ℕ → ℕ
slot_addr i = bit_or user_shared_begin (i * page_r1_size)

-- The address is `none` where the process is gone or has no slot left.
unfoldable pub map_shm : ℕ → ℕ → World → Option ℕ × World
unfolding first_free
map_shm pd pid w = elim (w.procs pid) [
  | none ↦ (none, w)
  | some t ↦ elim (first_free t 512 0) [
    | none ↦ (none, w)
    | some i ↦ (some (slot_addr i), put_proc pid (put_slot t i (some pd)) w)
  ]
]

-- An assertion fails at an address that is NULL, out of range or not mapped.
unfoldable pub unmap_shm : ℕ → Option ℕ → World → Outcome World
unmap_shm pid none w = panic
unmap_shm pid (some vaddr) w = do
  assert (leb user_shared_begin vaddr)
  assert (leb vaddr (user_shared_end - page_r1_size))
  elim (w.procs pid) [
    | none ↦ panic
    | some t ↦ (do
      let i = (vaddr - user_shared_begin) / page_r1_size
      assert (ltb i 512)
      assert (is_present (t i))
      ok (put_proc pid (put_slot t i none) w))
  ]

abbrev pub bad_size : ℕ → Bool
bad_size n = n == 0 || ltb shm_size_max n

-- `pd` is what `shm_alloc` returns, 0 where it fails. The instance's `vaddr` is the outer variable,
-- which the inner one of that name hides, so it is NULL.
unfoldable pub shm_create : ℕ → ℕ → ℕ → World → Option ShmInstance × World
unfolding insert_shm map_shm remove_shm
shm_create pd initial_size pid w =
    let id = w.cur + 1 in
    let s : Shm = record {
      id = id;
      n_insts = 1;
      pd_paddr = pd;
      size = initial_size;
      pfree = true;
    } in
    let (vaddr, w') = map_shm pd pid (insert_shm s (record w { cur = id })) in
    if bad_size initial_size || (pd == 0) then (none, w) else elim vaddr [
      | none ↦ (none, record w' { shms = remove_shm (length w.shms) w'.shms })
      | some _ ↦ (some (record { target = id; vaddr = none; pid = pid }), w')
    ]

-- `pd` is what `get_pd` returns for the base, 0 where there is none.
unfoldable pub shm_create_from_kernel : ℕ → ℕ → Bool → World → Option ShmInstance × World
unfolding insert_shm
shm_create_from_kernel pd initial_size pfree w =
    let id = w.cur + 1 in
    let s : Shm = record {
      id = id;
      n_insts = 1;
      pd_paddr = pd;
      size = initial_size;
      pfree = pfree;
    } in
    if bad_size initial_size || (pd == 0) then (none, w) else (
      some (record { target = id; vaddr = none; pid = 0 }),
      insert_shm s (record w { cur = id }),
    )

abbrev pub bump : ℕ → List Shm → List Shm
bump i l = elim (get_elem? l i) [
  | none ↦ l
  | some s ↦ set l i (record s { n_insts = s.n_insts + 1 })
]

abbrev pub pd_at : ℕ → List Shm → ℕ
pd_at i l = elim (get_elem? l i) [ none ↦ 0 | some s ↦ s.pd_paddr ]

unfoldable pub shm_open : ℕ → ℕ → World → Option ShmInstance × World
unfolding get_shm map_shm
shm_open id pid w = elim (get_shm id w.shms) [
  | none ↦ (none, w)
  | some i ↦
      (let (vaddr, w') = map_shm (pd_at i w.shms) pid w in
        elim vaddr [
          | none ↦ (none, w')
          | some a ↦ (
            some (record { target = id; vaddr = some a; pid = pid }),
            record w' { shms = bump i w'.shms },
          )
        ])
]

-- The part of `shm_close` that counts.
unfoldable pub close_count : ℕ → World → Outcome World
unfolding get_shm remove_shm
close_count id w = elim (get_shm id w.shms) [
  | none ↦ panic
  | some i ↦ elim (get_elem? w.shms i) [
    | none ↦ wild
    | some s ↦ (do
      assert (ltb 0 s.n_insts)
      let fewer = set w.shms i (record s { n_insts = s.n_insts - 1 })
      if (s.n_insts - 1) == 0
          then ok (record w { shms = remove_shm i fewer; freed = (s.pd_paddr, s.pfree) ∷ w.freed })
          else ok (record w { shms = fewer }))
  ]
]

-- `proc` is `none` for NULL. The code returns 0 wherever it returns.
unfoldable pub shm_close : Option ℕ → ShmInstance → World → Outcome World
unfolding close_count unmap_shm
shm_close proc ins w = do
  w' ← close_count ins.target w
  elim proc [ none ↦ ok w' | some pid ↦ unmap_shm pid ins.vaddr w' ]
