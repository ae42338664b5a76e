-- ===== src/Shm/Removing.antt =====
-- Closing the only instance of an object that is not the last of the list.
use bincows.Base.{
  ℕ, zero, suc, ◌+◌, ◌-◌, ◌<◌, ◌≡◌, ◌≢◌, ◌∙◌, refl, sym, ap, false, none, some, List, [], ◌∷◌, ◌==◌,
  arith, Bool-cases, inl, inr, ok, length, length-set, get_elem?, get_elem?-set_self, set,
}
use bincows.Shm.{Shm, ShmInstance, World, drop_last, last_or, remove_shm, get_shm, shm_close}
use bincows.Shm.Counting.{fewer, close_count_lem}

-- No two objects have the same id.
pub record HasIds (l : List Shm) : Type 0 where
  pub distinct :
      (i j : ℕ) (s t : Shm) → get_elem? l i ≡ some s → get_elem? l j ≡ some t → s.id ≡ t.id → i ≡ j

get_shm-none :
    (id : ℕ) (l : List Shm)
    → ((j : ℕ) (t : Shm) → get_elem? l j ≡ some t → t.id ≢ id)
    → get_shm id l ≡ none
unfolding get_shm
get_shm-none id [] h = refl
get_shm-none id (s ∷ r) h =
    let other : (s.id == id) ≡ false = ground (arith, h 0 s refl) in
    rw (other, get_shm-none id r (λ j t e. h (suc j) t e))

get_elem?-last_or : (s : Shm) (r : List Shm) → get_elem? (s ∷ r) (length r) ≡ some (last_or s r)
get_elem?-last_or s [] = refl
get_elem?-last_or s (t ∷ r) = get_elem?-last_or t r

get_elem?-drop_last :
    (l : List Shm) (j : ℕ) (t : Shm) → get_elem? (drop_last l) j ≡ some t → get_elem? l j ≡ some t
get_elem?-drop_last [] j t e = e
get_elem?-drop_last (s ∷ []) j t e = cc
get_elem?-drop_last (s ∷ u ∷ r) zero t e = e
get_elem?-drop_last (s ∷ u ∷ r) (suc j) t e = get_elem?-drop_last (u ∷ r) j t e

get_elem?-set_at : (l : List Shm) (i : ℕ) (v t : Shm) → get_elem? (set l i v) i ≡ some t → t ≡ v
get_elem?-set_at [] i v t e = cc
get_elem?-set_at (s ∷ r) zero v t e = cc
get_elem?-set_at (s ∷ r) (suc i) v t e = get_elem?-set_at r i v t e

get_elem?-set_other :
    (l : List Shm) (i j : ℕ) (v : Shm) → i ≢ j → get_elem? (set l i v) j ≡ get_elem? l j
get_elem?-set_other [] i j v h = refl
get_elem?-set_other (s ∷ r) zero zero v h = absurd (h refl)
get_elem?-set_other (s ∷ r) zero (suc j) v h = refl
get_elem?-set_other (s ∷ r) (suc i) zero v h = refl
get_elem?-set_other (s ∷ r) (suc i) (suc j) v h = get_elem?-set_other r i j v (λ e. h (ap suc e))

remove_shm-gone :
    (i : ℕ) (l : List Shm) (s : Shm)
    → HasIds l
    → get_elem? l i ≡ some s
    → i + 1 ≢ length l
    → get_shm s.id (remove_shm i l) ≡ none
unfolding remove_shm
remove_shm-gone i [] s ids at_ inner = cc
remove_shm-gone i (u ∷ r) s ids at_ inner =
    let inner_ : ((i + 1) == length (u ∷ r)) ≡ false = ground (arith, inner) in
    let moved = set (u ∷ r) i (last_or u r) in
    rw inner_ (
      get_shm-none s.id (drop_last moved) (λ j t e same.
        let at_j = get_elem?-drop_last moved j t e in
        elim (Bool-cases (i == j)) [
          | inl here ↦
              (let to : i ≡ j = ground arith in
                let last : t ≡ last_or u r =
                  get_elem?-set_at (u ∷ r) i (last_or u r) t (ap (get_elem? moved) to ∙ at_j) in
                let met =
                  ids.distinct (length r) i (last_or u r) s (get_elem?-last_or u r) at_
                    (ap (λ x. x.id) (sym last) ∙ same) in
                inner (omega (arith, met)))
          | inr other ↦
              (let apart : i ≢ j = ground arith in
                let met =
                  ids.distinct j i t s
                    (sym (get_elem?-set_other (u ∷ r) i j (last_or u r) apart) ∙ at_j) at_ same in
                apart (sym met))
        ]))

-- Writing an object with the same id changes no id.
HasIds-set :
    (l : List Shm) (i : ℕ) (s v : Shm)
    → get_elem? l i ≡ some s
    → v.id ≡ s.id
    → HasIds l
    → HasIds (set l i v)
HasIds-set l i s v at_ e ids =
    let old : (j : ℕ) (t : Shm)
        → get_elem? (set l i v) j ≡ some t
        → (o : Shm) × (get_elem? l j ≡ some o) × (t.id ≡ o.id) =
      λ j t at_j. elim (Bool-cases (i == j)) [
        | inl here ↦
            (let to : i ≡ j = ground arith in
              let new : t ≡ v = get_elem?-set_at l i v t (ap (get_elem? (set l i v)) to ∙ at_j) in
              (s, ap (get_elem? l) (sym to) ∙ at_, ap (λ x. x.id) new ∙ e))
        | inr other ↦ (t, sym (get_elem?-set_other l i j v (ground arith)) ∙ at_j, refl)
      ] in
    record {
      distinct = λ j k t u at_j at_k same.
          let (t', in_t, id_t) = old j t at_j in
          let (u', in_u, id_u) = old k u at_k in
          ids.distinct j k t' u' in_t in_u (sym id_t ∙ same ∙ id_u);
    }

get_elem?-drop_last_inner :
    (l : List Shm) (j : ℕ) → j + 1 < length l → get_elem? (drop_last l) j ≡ get_elem? l j
get_elem?-drop_last_inner [] j lt = refl
get_elem?-drop_last_inner (s ∷ []) j lt = absurd (omega arith)
get_elem?-drop_last_inner (s ∷ u ∷ r) zero lt = refl
get_elem?-drop_last_inner (s ∷ u ∷ r) (suc j) lt = get_elem?-drop_last_inner (u ∷ r) j (omega arith)

get_elem?-lt : (l : List Shm) (j : ℕ) (t : Shm) → get_elem? l j ≡ some t → j < length l
get_elem?-lt [] j t e = cc
get_elem?-lt (s ∷ r) zero t e = omega arith
get_elem?-lt (s ∷ r) (suc j) t e = omega (arith, get_elem?-lt r j t e)

-- Every other object stays, perhaps at another place.
remove_shm-kept :
    (i : ℕ) (l : List Shm) (s : Shm)
    → get_elem? l i ≡ some s
    → i + 1 ≢ length l
    → (j : ℕ) (t : Shm) → get_elem? l j ≡ some t
    → i ≢ j
    → (k : ℕ) × (get_elem? (remove_shm i l) k ≡ some t)
unfolding remove_shm
remove_shm-kept i [] s at_ inner j t at_j apart = cc
remove_shm-kept i (u ∷ r) s at_ inner j t at_j apart =
    let inner_ : ((i + 1) == length (u ∷ r)) ≡ false = ground (arith, inner) in
    let moved = set (u ∷ r) i (last_or u r) in
    let size = length-set (u ∷ r) i (last_or u r) in
    let i_lt = get_elem?-lt (u ∷ r) i s at_ in
    let j_lt = get_elem?-lt (u ∷ r) j t at_j in
    elim (Bool-cases (j == length r)) [
      | inl last ↦
          (let to : j ≡ length r = ground arith in
            let same : some (last_or u r) ≡ some t =
              sym (get_elem?-last_or u r) ∙ ap (get_elem? (u ∷ r)) (sym to) ∙ at_j in
            (
              i,
              rw inner_ (
                  get_elem?-drop_last_inner moved i (omega (arith, size, i_lt, inner))
                  ∙ get_elem?-set_self (u ∷ r) i (last_or u r) at_
                  ∙ same),
            ))
      | inr before ↦
          (let not_last : j ≢ length r = ground arith in
            (
              j,
              rw inner_ (
                  get_elem?-drop_last_inner moved j (omega (arith, size, j_lt, not_last))
                  ∙ get_elem?-set_other (u ∷ r) i j (last_or u r) apart
                  ∙ at_j),
            ))
    ]

-- Closing the only instance of an object that is not the last of the list frees its page directory
-- and removes it: its id is no longer found, and every other object stays in the list.
close_removes :
    (ins : ShmInstance) (w : World) (i : ℕ) (s : Shm)
    → HasIds w.shms
    → get_shm ins.target w.shms ≡ some i
    → get_elem? w.shms i ≡ some s
    → s.id ≡ ins.target
    → s.n_insts ≡ 1
    → i + 1 ≢ length w.shms
    → (w' : World) × (shm_close none ins w ≡ ok w')
      × (w'.freed ≡ (s.pd_paddr, s.pfree) ∷ w.freed)
      × (get_shm ins.target w'.shms ≡ none)
      × ((j : ℕ) (t : Shm)
          → get_elem? w.shms j ≡ some t
          → i ≢ j
          → (k : ℕ) × (get_elem? w'.shms k ≡ some t))
unfolding shm_close
close_removes ins w i s ids found at_ same one inner =
    let unused : Shm = record s { n_insts = s.n_insts - 1 } in
    let here : get_elem? (fewer w i s) i ≡ some unused = get_elem?-set_self w.shms i unused at_ in
    let ids' : HasIds (fewer w i s) = HasIds-set w.shms i s unused at_ refl ids in
    let inner' : i + 1 ≢ length (fewer w i s) = λ e. inner (e ∙ length-set w.shms i unused) in
    (
      record w { shms = remove_shm i (fewer w i s); freed = (s.pd_paddr, s.pfree) ∷ w.freed },
      rw ((close_count_lem ins.target w i s found at_).0 (omega arith)) (ground arith),
      refl,
      ap (λ d. get_shm d (remove_shm i (fewer w i s))) (sym same)
          ∙ remove_shm-gone i (fewer w i s) unused ids' here inner',
      λ j t at_j apart.
          remove_shm-kept i (fewer w i s) unused here inner' j t
            (get_elem?-set_other w.shms i j unused apart ∙ at_j) apart,
    )
