-- ===== src/Pmm/Regions.antt =====
-- Which list a memory range stands on: that of the largest blocks of which it has one free.
use mathlib.Core.Path.{fun_ext}
use bincows.Base.{
  sym, ap, ℕ, zero, suc, ◌<◌, ◌≡◌, ◌∙◌, List, [], ◌∷◌, Option, none, some, ◌==◌, if◌then◌else◌,
  arith, Bool-cases, inl, inr, ok,
}
use bincows.Pmm.{Header, Lists, available, put_list, move_region_if_full, list_range, get_mr_from}

-- The largest blocks, of list `i` at most, of which the range has one free.
unfoldable pub top_level : Header → ℕ → Option ℕ
top_level h zero = if h.available0 == 0 then none else some 0
top_level h (suc i) = if available h (suc i) == 0 then top_level h i else some (suc i)

-- `range` is put on top of the list of that level, if there is one.
unfoldable pub listed : ℕ → Option ℕ → Lists → Lists
listed range none ls = ls
listed range (some k) ls = put_list ls k (range ∷ ls k)

put_list_back : (ls : Lists) (i : ℕ) (l : List ℕ) → put_list (put_list ls i l) i (ls i) ≡ ls
put_list_back ls i l = fun_ext (λ j. ground arith)

-- Putting the range back on top of the list that it was taken off.
put-top :
    (range : ℕ) (ls : Lists) (i : ℕ) (rest : List ℕ)
    → ls i ≡ range ∷ rest
    → put_list (put_list ls i rest) i (range ∷ put_list ls i rest i) ≡ ls
put-top range ls i rest e = fun_ext (λ j. ground arith)

-- `move_region_if_full` takes the range off its list and puts it on the list of the largest blocks
-- that it still has; it says whether the range has left its list, and other lists do not change.
move_region_if_full-listed :
    (range : ℕ) (h : Header) (id : ℕ) (ls : Lists) (rest : List ℕ)
    → ls id ≡ range ∷ rest
    → let (moved, ls') = move_region_if_full range h id ls in
      (moved ≡ (available h id == 0)) × (ls' ≡ listed range (top_level h id) (put_list ls id rest))
unfolding move_region_if_full top_level listed
move_region_if_full-listed range h zero ls rest e = elim (Bool-cases (h.available0 == 0)) [
  | inl full ↦ (rw full, rw (full, e))
  | inr room ↦ (rw room, rw room (sym (put-top range ls 0 rest e)))
]
move_region_if_full-listed range h (suc id) ls rest e =
    let popped = put_list ls (suc id) rest in
    let ih =
      move_region_if_full-listed range h id (put_list popped id (range ∷ popped id)) (popped id)
        (ground arith) in
    elim (Bool-cases (available h (suc id) == 0)) [
      | inl full ↦ (
        rw full,
        rw (full, e)
            (ih.1
              ∙ ap (listed range (top_level h id)) (put_list_back popped id (range ∷ popped id))),
      )
      | inr room ↦ (rw room, rw room (sym (put-top range ls (suc id) rest e)))
    ]

-- `init_memory_range` puts a new range on the list of its largest blocks.
pub list_range-listed :
    (range : ℕ) (h : Header) (i : ℕ) (ls : Lists)
    → list_range (suc i) range h ls ≡ listed range (top_level h i) ls
unfolding list_range top_level listed
list_range-listed range h zero ls = ground arith
list_range-listed range h (suc i) ls = ground (arith, list_range-listed range h i ls)

-- `getMR` returns the range on top of the list of the largest blocks that is not empty.
pub get_mr_from-top :
    (i k range : ℕ) (l : List ℕ) (ls : Lists)
    → i < k
    → ls i ≡ range ∷ l
    → ((j : ℕ) → i < j → j < k → ls j ≡ [])
    → get_mr_from k ls ≡ ok (range, i)
unfolding get_mr_from
get_mr_from-top i zero range l ls h e above = absurd (omega arith)
get_mr_from-top i (suc k) range l ls h e above = elim (Bool-cases (i == k)) [
  | inl here ↦
      (let e' : ls k ≡ range ∷ l = ap ls (ground arith) ∙ e in
        let same : i ≡ k = ground arith in rw (e', get_mr_from) (rw same))
  | inr lower ↦
      (let e' : ls k ≡ [] = above k (ground arith) (omega arith) in
        rw (e', get_mr_from)
          (get_mr_from-top i k range l ls (ground arith) e (λ j p q. above j p (omega arith))))
]
