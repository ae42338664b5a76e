-- ===== src/Shm/Counting.antt =====
-- How `shm_close` counts the instances of an object.
use bincows.Base.{
  ℕ, zero, suc, ◌+◌, ◌-◌, ◌<◌, ◌≡◌, ◌∙◌, refl, sym, none, some, List, [], ◌∷◌, ◌==◌, if◌then◌else◌,
  ◌⊎◌, arith, Bool-cases, Option-cases, inl, inr, ok, panic, length, get_elem?, set, length-set,
  get_elem?-set_self,
}
use bincows.Shm.{Shm, ShmInstance, World, remove_shm, get_shm, close_count, shm_close, pd_at}

-- `get_shm` gives a place of the list where an object with that id stands.
pub get_shm_lem :
    (id : ℕ) (l : List Shm) (i : ℕ)
    → get_shm id l ≡ some i
    → (s : Shm) × (get_elem? l i ≡ some s) × (s.id ≡ id)
unfolding get_shm
get_shm_lem id [] i h = cc
get_shm_lem id (s ∷ r) i h = elim (Bool-cases (s.id == id)) [
  | inl here ↦ (let at_0 : i ≡ 0 = ground arith in (s, rw at_0, ground arith))
  | inr other ↦ elim (Option-cases (get_shm id r)) [
    | inl none_ ↦ ground (arith, none_)
    | inr (j, at_j) ↦
        (let (t, at_, same) = get_shm_lem id r j at_j in
          let next : i ≡ suc j = ground arith in (t, rw next at_, same))
  ]
]

-- A write that keeps the id of an object does not change where the objects are found.
pub get_shm-set :
    (id : ℕ) (l : List Shm) (i : ℕ) (s t : Shm)
    → get_elem? l i ≡ some s
    → t.id ≡ s.id
    → get_shm id (set l i t) ≡ get_shm id l
unfolding get_shm
get_shm-set id [] i s t at_ e = refl
get_shm-set id (u ∷ r) zero s t at_ e = let same : t.id ≡ u.id = cc in rw same
get_shm-set id (u ∷ r) (suc i) s t at_ e = rw (get_shm-set id r i s t at_ e)

remove_shm_last : (i : ℕ) (l : List Shm) → i + 1 ≡ length l → remove_shm i l ≡ l
unfolding remove_shm
remove_shm_last i [] h = refl
remove_shm_last i (s ∷ r) h = ground (arith, h)

-- The object without one of its instances.
abbrev pub fewer : World → ℕ → Shm → List Shm
fewer w i s = set w.shms i (record s { n_insts = s.n_insts - 1 })

abbrev pub counted : World → ℕ → Shm → World
counted w i s =
    if (s.n_insts - 1) == 0
    then record w { shms = remove_shm i (fewer w i s); freed = (s.pd_paddr, s.pfree) ∷ w.freed }
    else record w { shms = fewer w i s }

pub close_count_lem :
    (id : ℕ) (w : World) (i : ℕ) (s : Shm)
    → get_shm id w.shms ≡ some i
    → get_elem? w.shms i ≡ some s
    → (0 < s.n_insts → close_count id w ≡ ok (counted w i s))
      × (s.n_insts ≡ 0 → close_count id w ≡ panic)
unfolding close_count
close_count_lem id w i s found at_ = (
  λ pos. rw (close_count, found) (rw at_ (ground arith)),
  λ zero_. rw (close_count, found) (rw at_ (ground arith)),
)

-- Closing the only instance of the last object of the list frees its page directory, but leaves
-- the object in the list: it is still found, with the directory that was freed.
pub close_last_stays :
    (ins : ShmInstance) (w : World) (i : ℕ) (s : Shm)
    → get_shm ins.target w.shms ≡ some i
    → get_elem? w.shms i ≡ some s
    → s.n_insts ≡ 1
    → i + 1 ≡ length w.shms
    → (w' : World) × (shm_close none ins w ≡ ok w')
      × (w'.freed ≡ (s.pd_paddr, s.pfree) ∷ w.freed)
      × (get_shm ins.target w'.shms ≡ some i)
      × (pd_at i w'.shms ≡ s.pd_paddr)
unfolding shm_close
close_last_stays ins w i s found at_ one last =
    let unused : Shm = record s { n_insts = s.n_insts - 1 } in
    let stays : remove_shm i (fewer w i s) ≡ fewer w i s =
      remove_shm_last i (fewer w i s) (last ∙ sym (length-set w.shms i unused)) in
    let here : get_elem? (fewer w i s) i ≡ some unused = get_elem?-set_self w.shms i unused at_ in
    (
      record w { shms = set w.shms i unused; freed = (s.pd_paddr, s.pfree) ∷ w.freed },
      rw ((close_count_lem ins.target w i s found at_).0 (omega arith)) (ground (arith, stays)),
      refl,
      get_shm-set ins.target w.shms i s unused at_ refl ∙ found,
      rw (here, pd_at),
    )

-- Whatever it finds, the counting part of `shm_close` ends well or in a failed assertion.
pub close_count_total :
    (id : ℕ) (w : World) → ((w' : World) × (close_count id w ≡ ok w')) ⊎ (close_count id w ≡ panic)
unfolding close_count
close_count_total id w = elim (Option-cases (get_shm id w.shms)) [
  | inl none_ ↦ inr (ground (arith, none_))
  | inr (i, at_i) ↦
      (let (s, at_, same) = get_shm_lem id w.shms i at_i in
        let (some_, none_) = close_count_lem id w i s at_i at_ in
        elim (Bool-cases (s.n_insts == 0)) [
          | inl zero_ ↦ inr (none_ (ground arith))
          | inr pos ↦ inl (counted w i s, some_ (ground arith))
        ])
]
