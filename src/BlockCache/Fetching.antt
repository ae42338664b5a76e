-- ===== src/BlockCache/Fetching.antt =====
-- `target_sync`: requests are completed and mapped.
use mathlib.Core.Path.{subst}
use bincows.Base.{
  ℕ, ◌+◌, ◌*◌, ◌/◌, ◌≤◌, ◌<◌, ◌≡◌, ◌∙◌, refl, sym, ap, none, some, List, [], ◌∷◌, map, true,
  Bool-cases, inl, inr, ◌⊎◌, leb, ◌==◌, arith, ok,
}
use bincows.BlockCache.{
  PageFetch, Cache, sectors_per_page, complete_all, put_page, map_fetched, is_present, has_fetch,
  lock_cache, unlock_cache, sync, last_fetch, target_sync,
}
use bincows.BlockCache.Coherent.{
  Same, Same-self, request_of, Waiting, InFlight, Coherent, Landed, complete_all_below,
  complete_all-Landed,
}

-- The fetches of `l` are mapped: only the table, its count and the fetches differ.
record Mapped (c : Cache) (l : List PageFetch) (c' : Cache) : Type 0 where
  pub table_in : (p f : ℕ) → c'.table p ≡ some f → f < c.allocated
  pub table_inj : (p q f : ℕ) → c'.table p ≡ some f → c'.table q ≡ some f → p ≡ q
  pub table_is :
      (p f i : ℕ)
      → c'.table p ≡ some f
      → i < sectors_per_page c.lbashift
      → c.phys f i ≡ c.disk (p * sectors_per_page c.lbashift + i)
  pub kept : (p : ℕ) → is_present (c.table p) ≡ true → is_present (c'.table p) ≡ true
  pub got :
      (lba : ℕ)
      → has_fetch lba l ≡ true
      → is_present (c'.table (lba / sectors_per_page c.lbashift)) ≡ true
  pub same : c' ≡ record c { table = c'.table; n_used_page = c'.n_used_page; page_fetches = [] }

map_fetched-Mapped :
    (l : List PageFetch) (c : Cache) (lo : ℕ)
    → ((p f : ℕ) → c.table p ≡ some f → f < lo)
    → ((p q f : ℕ) → c.table p ≡ some f → c.table q ≡ some f → p ≡ q)
    → ((p f i : ℕ)
        → c.table p ≡ some f
        → i < sectors_per_page c.lbashift
        → c.phys f i ≡ c.disk (p * sectors_per_page c.lbashift + i))
    → Waiting (sectors_per_page c.lbashift) lo l c.allocated
    → Landed c.disk (sectors_per_page c.lbashift) c.phys l
    → Mapped c l (map_fetched 0 l c)
unfolding map_fetched has_fetch
map_fetched-Mapped [] c lo t_in t_inj t_is w landed = record {
  table_in = λ p f e. omega (arith, t_in p f e, w);
  table_inj = t_inj;
  table_is = t_is;
  kept = λ p e. e;
  got = λ lba e. cc;
  same = refl;
}
map_fetched-Mapped (f ∷ r) c lo t_in t_inj t_is (aligned, ge, id, w) (here, landed) =
    let spp = sectors_per_page c.lbashift in
    let c1 : Cache = record c {
      table = put_page (f.lba / spp) f.paddr c.table;
      n_used_page = c.n_used_page + 1;
    } in
    let t1_in : (p g : ℕ) → c1.table p ≡ some g → g < f.paddr + 1 = λ p g e.
      elim (Bool-cases (p == (f.lba / spp))) [
        | inl self ↦ ground arith
        | inr other ↦ (let old : c.table p ≡ some g = ground arith in omega (arith, t_in p g old))
      ] in
    let t1_inj : (p q g : ℕ) → c1.table p ≡ some g → c1.table q ≡ some g → p ≡ q =
      λ p q g e1 e2. ground (arith, t_inj p q g, t_in p f.paddr, t_in q f.paddr) in
    let t1_is : (p g i : ℕ) → c1.table p ≡ some g → i < spp → c.phys g i ≡ c.disk (p * spp + i) =
      λ p g i e lt. elim (Bool-cases (p == (f.lba / spp))) [
        | inl self ↦
            (let page : g ≡ f.paddr = ground arith in
              let place : p ≡ f.lba / spp = ground arith in rw (page, place, aligned) (here i lt))
        | inr other ↦ t_is p g i (ground arith) lt
      ] in
    let rest = map_fetched-Mapped r c1 (f.paddr + 1) t1_in t1_inj t1_is w landed in
    let ready : leb f.pf_id 0 ≡ true = ground (arith, id) in
    rw ready (record {
      table_in = rest.table_in;
      table_inj = rest.table_inj;
      table_is = rest.table_is;
      kept = λ p e. rest.kept p (ground arith);
      got = λ lba e. elim (Bool-cases (f.lba == lba)) [
        | inl self ↦
            (let to : lba ≡ f.lba = ground arith in rw to (rest.kept (f.lba / spp) (ground arith)))
        | inr other ↦ rest.got lba (ground arith)
      ];
      same = rest.same;
    })

last_fetch-id :
    (spp lo hi : ℕ) (f : PageFetch) (r : List PageFetch)
    → Waiting spp lo (f ∷ r) hi
    → (last_fetch f r).pf_id ≡ 0
last_fetch-id spp lo hi f [] (a, ge, id, w) = id
last_fetch-id spp lo hi f (g ∷ r) (a, ge, id, w) = last_fetch-id spp (f.paddr + 1) hi g r w

-- What `target_sync` leaves when no other thread has the cache: nothing is in flight, and the pages
-- that were mapped or waited for are mapped.
pub record Done (c c' : Cache) : Type 0 where
  pub coherent : Coherent c'
  pub kept : (p : ℕ) → is_present (c.table p) ≡ true → is_present (c'.table p) ≡ true
  pub got :
      (lba : ℕ)
      → has_fetch lba c.page_fetches ≡ true
      → is_present (c'.table (lba / sectors_per_page c.lbashift)) ≡ true
  pub unlocked : c'.locked ≡ none
  pub same : Same c c'

target_sync_empty :
    (me : ℕ) (c : Cache) → c.locked ≡ none → c.page_fetches ≡ [] → target_sync me c ≡ ok c
unfolding target_sync lock_cache unlock_cache
target_sync_empty me c free idle = ground arith

target_sync_lem :
    (me : ℕ) (c : Cache) (f : PageFetch) (r : List PageFetch)
    → c.locked ≡ none
    → c.page_fetches ≡ f ∷ r
    → target_sync me c
      ≡ ok (
          unlock_cache
            (map_fetched (last_fetch f r).pf_id (f ∷ r) (record (sync c) { locked = some me })))
unfolding target_sync lock_cache unlock_cache sync
target_sync_lem me c f r free some_ = ground arith

Fetches-cases :
    (l : List PageFetch) → (l ≡ []) ⊎ ((f : PageFetch) × (r : List PageFetch) × (l ≡ f ∷ r))
Fetches-cases [] = inl refl
Fetches-cases (f ∷ r) = inr (f, r, refl)

target_sync_idle :
    (c : Cache) (lo : ℕ) → InFlight c lo → c.locked ≡ none → c.page_fetches ≡ [] → Done c c
unfolding has_fetch
target_sync_idle c lo v free idle =
    let spp = sectors_per_page c.lbashift in
    let none_ : Waiting spp lo [] c.allocated =
      subst (λ l. Waiting spp lo l c.allocated) idle v.waiting in
    let bound : lo ≤ c.allocated = none_ in
    record {
      coherent = record {
        flight = record {
          small = v.small;
          table_in = λ p f e. omega (arith, v.table_in p f e);
          table_inj = v.table_inj;
          table_is = v.table_is;
          waiting = rw idle (omega arith);
          pending_is = v.pending_is;
        };
        idle = idle;
      };
      kept = λ p e. e;
      got = λ lba e. cc (ap (has_fetch lba) idle);
      unlocked = free;
      same = Same-self c;
    }

-- The cache when the requests are completed, under the lock.
abbrev landed : ℕ → Cache → Cache
landed me c = record (sync c) { locked = some me }

target_sync_busy :
    (me : ℕ) (c : Cache) (lo : ℕ) (f : PageFetch) (r : List PageFetch)
    → InFlight c lo
    → c.page_fetches ≡ f ∷ r
    → Done c (unlock_cache (map_fetched 0 (f ∷ r) (landed me c)))
unfolding sync unlock_cache
target_sync_busy me c lo f r v some_ =
    let spp = sectors_per_page c.lbashift in
    let l : List PageFetch = f ∷ r in
    let w : Waiting spp lo l c.allocated =
      subst (λ l. Waiting spp lo l c.allocated) some_ v.waiting in
    let asks : c.pending ≡ map (request_of spp) l =
      v.pending_is ∙ ap (map (request_of spp)) some_ in
    let phys = complete_all c.disk c.pending c.phys in
    let old : (p g i : ℕ) → c.table p ≡ some g → i < spp → phys g i ≡ c.disk (p * spp + i) =
      λ p g i e lt.
        rw asks (complete_all_below c.disk spp l lo c.allocated c.phys g i w (v.table_in p g e))
        ∙ v.table_is p g i e lt in
    let new : Landed c.disk spp phys l =
      subst (λ q. Landed c.disk spp (complete_all c.disk q c.phys) l) (sym asks)
        (complete_all-Landed c.disk spp l lo c.allocated c.phys w) in
    let m = map_fetched-Mapped l (landed me c) lo v.table_in v.table_inj old w new in
    let c' = map_fetched 0 l (landed me c) in
    let shift : c'.lbashift ≡ c.lbashift = ap (λ x. x.lbashift) m.same in
    let page : sectors_per_page c'.lbashift ≡ spp = ap sectors_per_page shift in
    let disk : c'.disk ≡ c.disk = ap (λ x. x.disk) m.same in
    let memory : c'.phys ≡ phys = ap (λ x. x.phys) m.same in
    let high : c'.allocated ≡ c.allocated = ap (λ x. x.allocated) m.same in
    let idle : c'.page_fetches ≡ [] = ap (λ x. x.page_fetches) m.same in
    record {
      coherent = record {
        flight = record {
          small = rw shift v.small;
          table_in = λ p g e. rw high (m.table_in p g e);
          table_inj = m.table_inj;
          table_is = λ p g i e lt.
              rw (memory, disk, page) (m.table_is p g i e (subst (λ k. i < k) page lt));
          waiting = rw idle (omega arith);
          pending_is =
              ap (λ x. x.pending) m.same
              ∙ sym (ap (map (request_of (sectors_per_page c'.lbashift))) idle);
        };
        idle = idle;
      };
      kept = m.kept;
      got = λ lba e. m.got lba (ap (has_fetch lba) (sym some_) ∙ e);
      unlocked = refl;
      same = record {
        shift = shift;
        capacity = ap (λ x. x.capacity) m.same;
        size = ap (λ x. x.virt_size) m.same;
        disk = disk;
      };
    }

-- When the cache is free, `target_sync` returns, and what is mapped is what the device holds.
pub target_sync-Done :
    (me : ℕ) (c : Cache) (lo : ℕ)
    → InFlight c lo
    → c.locked ≡ none
    → (c' : Cache) × (target_sync me c ≡ ok c') × Done c c'
target_sync-Done me c lo v free = elim (Fetches-cases c.page_fetches) [
  | inl idle ↦ (c, target_sync_empty me c free idle, target_sync_idle c lo v free idle)
  | inr (f, r, some_) ↦
      (let w : Waiting (sectors_per_page c.lbashift) lo (f ∷ r) c.allocated =
          subst (λ l. Waiting (sectors_per_page c.lbashift) lo l c.allocated) some_ v.waiting in
        let last = last_fetch-id (sectors_per_page c.lbashift) lo c.allocated f r w in
        (
          unlock_cache (map_fetched 0 (f ∷ r) (landed me c)),
          target_sync_lem me c f r free some_
              ∙ ap (λ id. ok (unlock_cache (map_fetched id (f ∷ r) (landed me c)))) last,
          target_sync_busy me c lo f r v some_,
        ))
]
