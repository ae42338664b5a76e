-- ===== src/Heap/Merge.antt =====
-- `defragment`: what it does to free neighbours and to the blocks in use.
use bincows.Base.{
  ℕ, ◌+◌, ◌%◌, ◌^◌, ◌≤◌, ◌≡◌, ◌≢◌, ◌∙◌, inl, inr, refl, ap, Bool, true, false, ◌&&◌, List, [], ◌∷◌,
  ok, arith, if◌then◌else◌, Bool-cases,
}
use bincows.Heap.{Seg, Heap, heap_begin, header_size, defragment_from, defragment_segs, defragment}
use bincows.Heap.Tiling.{Tiles, live, IsValid, heap_assert_seg-Tiles, Tiles-begin}

-- `s` and the segment below it are not both free.
abbrev pub Apart : Seg → List Seg → Type 0
Apart s [] = Unit
Apart s (t ∷ r) = (s.free && t.free) ≡ false

-- No two neighbours are both free.
abbrev pub Settled : List Seg → Type 0
Settled [] = Unit
Settled (s ∷ r) = Apart s r × Settled r

abbrev HeadIs : Bool → List Seg → Type 0
HeadIs b [] = ⊥
HeadIs b (s ∷ r) = s.free ≡ b

record Merged (top : ℕ) (pred : Seg) (r : List Seg) (new : List Seg) : Type 0 where
  tiles : Tiles top new
  same : live new ≡ live (pred ∷ r)
  settled : Settled new
  first : HeadIs pred.free new

abbrev join : Seg → Seg → Seg
join pred seg = record seg { size = (seg.size + (header_size + pred.size)) % 2 ^ 32 }

join-Tiles :
    (top : ℕ) (pred seg : Seg) (r : List Seg)
    → top ≤ 2 ^ 64
    → Tiles top (pred ∷ seg ∷ r)
    → Tiles top (join pred seg ∷ r)
join-Tiles top pred seg r m t =
    let base = Tiles-begin seg.addr r t.2.2 in (omega arith, omega arith, t.2.2)

Merged-join :
    (top : ℕ) (pred seg : Seg) (r new : List Seg)
    → pred.free ≡ true
    → seg.free ≡ true
    → Merged top (join pred seg) r new
    → Merged top pred (seg ∷ r) new
Merged-join top pred seg r new p q m = record {
  tiles = m.tiles;
  same = m.same ∙ (rw (p, q));
  settled = m.settled;
  first = rw (p, ← q) m.first;
}

Apart-HeadIs :
    (pred seg : Seg) (new : List Seg)
    → (seg.free && pred.free) ≡ false
    → HeadIs seg.free new
    → Apart pred new
Apart-HeadIs pred seg [] a h = tt
Apart-HeadIs pred seg (s ∷ r) a h = ground arith

Merged-keep :
    (top : ℕ) (pred seg : Seg) (r new : List Seg)
    → (seg.free && pred.free) ≡ false
    → Tiles top (pred ∷ seg ∷ r)
    → Merged pred.addr seg r new
    → Merged top pred (seg ∷ r) (pred ∷ new)
Merged-keep top pred seg r new a t m = record {
  tiles = (t.0, t.1, m.tiles);
  same = ap (λ l. if pred.free then l else ((pred.addr + header_size, pred.size) ∷ l)) m.same;
  settled = (Apart-HeadIs pred seg new a m.first, m.settled);
  first = refl;
}

defragment_from-Merged :
    (hs top : ℕ) (pred : Seg) (r : List Seg)
    → top ≤ heap_begin + hs
    → heap_begin + hs ≤ 2 ^ 64
    → Tiles top (pred ∷ r)
    → (new : List Seg) × (defragment_from hs pred r ≡ ok new) × Merged top pred r new
unfolding defragment_from
defragment_from-Merged hs top pred [] b m t =
    (pred ∷ [], refl, record { tiles = t; same = refl; settled = (tt, tt); first = refl })
defragment_from-Merged hs top pred (seg ∷ r) b m t =
    let checked = heap_assert_seg-Tiles hs pred.addr seg r (omega arith) t.2 in
    elim (Bool-cases (seg.free && pred.free)) [
      | inl both ↦
          (let (new, e, q) =
              defragment_from-Merged hs top (join pred seg) r b m
                (join-Tiles top pred seg r (omega arith) t) in
            (
              new,
              rw (checked, both) e,
              Merged-join top pred seg r new (ground arith) (ground arith) q,
            ))
      | inr not_both ↦
          (let (new, e, q) = defragment_from-Merged hs pred.addr seg r (omega arith) m t.2 in
            (pred ∷ new, rw (checked, not_both, e), Merged-keep top pred seg r new not_both t q))
    ]

pub defragment_segs-Merged :
    (hs top : ℕ) (segs : List Seg)
    → segs ≢ []
    → top ≤ heap_begin + hs
    → heap_begin + hs ≤ 2 ^ 64
    → Tiles top segs
    → (new : List Seg) × (defragment_segs hs segs ≡ ok new)
      × Tiles top new
      × (live new ≡ live segs)
      × Settled new
unfolding defragment_segs
defragment_segs-Merged hs top [] ne b m t = absurd (ne refl)
defragment_segs-Merged hs top (pred ∷ r) ne b m t =
    let (new, e, q) = defragment_from-Merged hs top pred r b m t in
    (new, e, q.tiles, q.same, q.settled)

-- What `defragment` does: it changes the segments alone, keeps the heap valid and every block in
-- use, and leaves no two neighbouring free segments.
pub record Defragmented (h h' : Heap) : Type 0 where
  pub valid : IsValid h'
  pub same_live : live h'.segs ≡ live h.segs
  pub settled : Settled h'.segs
  pub only_segs : h' ≡ record h { segs = h'.segs }

-- On a valid heap with a segment, `defragment` returns: the heap stays valid, the blocks in use
-- are the same, no two neighbours are free, and only the segments change.
pub defragment-Defragmented :
    {h : Heap} → IsValid h → h.segs ≢ [] → (h' : Heap) × (defragment h ≡ ok h') × Defragmented h h'
unfolding defragment
defragment-Defragmented {h} v ne =
    let (new, e, t, same, settled) =
      defragment_segs-Merged h.heap_size (heap_begin + h.heap_size) h.segs ne (omega arith)
        (omega (arith, v.bound)) v.tiles in
    (
      record h { segs = new },
      rw e,
      record {
        valid = record {
          tiles = t;
          bound = v.bound;
          mapped = v.mapped;
          counted = rw same v.counted;
        };
        same_live = same;
        settled = settled;
        only_segs = refl;
      },
    )
