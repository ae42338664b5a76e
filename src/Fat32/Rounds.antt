-- ===== src/Fat32/Rounds.antt =====
-- One round of the loop of `fat32_write_file_sectors` of kernel/fs/fat32/fat32.c.
use bincows.Base.{
  ℕ, suc, ◌+◌, ◌-◌, ◌≤◌, ◌<◌, ◌≡◌, refl, true, false, ltb, ◌==◌, Outcome, ok, >>=-run, arith, List,
  [], ◌∷◌,
}
use bincows.Fat32.{Sector, Volume, State, cluster_begin, write, read_or_allocate_fat}
use bincows.Fat32.Files.{write_loop}
use bincows.Fat32.View.{Small, Cached, Same}
use bincows.Fat32.Entries.{entry_apart}
use bincows.Fat32.Chains.{Links, last_of, read_fat-link}
use bincows.Fat32.Growing.{last-Links, Grown}

pub read_or_allocate_fat-link :
    (v : Volume) (s : State) (c d : ℕ) (l : List ℕ)
    → Small v
    → Cached v s
    → Links v s c (d ∷ l)
    → (s' : State) × (read_or_allocate_fat v c s ≡ ok (d, s')) × Same v s s' × Links v s' d l
unfolding read_or_allocate_fat
read_or_allocate_fat-link v s c d l g h r =
    let (s', run, same, links) = read_fat-link v s c d l g h r in
    let (a, (b, f, e), q) = r in
    let some_ : (d == 0) ≡ false = ground arith in (s', >>=-run _ run (rw some_ refl), same, links)

-- A cluster that leads on is not the last of the chain.
pub first_apart :
    (v : Volume) (s : State) (c d : ℕ) (l : List ℕ)
    → Links v s c (d ∷ l)
    → (c == last_of d l) ≡ false
first_apart v s c d l (a, (b, f, e), r) =
    let (x, y) = last-Links v s d l r in entry_apart v s c (last_of d l) (ground (arith, y, e, f))

-- The old end of the chain is not the new one.
pub Grown-apart :
    (v : Volume) (s s' : State) (c d : ℕ) → Links v s c [] → Grown v s c d s' → (c == d) ≡ false
Grown-apart v s s' c d (a, e) w = entry_apart v s c d (ground (arith, w.was_free, e))

pub write_round :
    (v : Volume) (k c o n w d : ℕ) (buf : ℕ → Sector) (at_ : ℕ) (s s1 s2 : State)
    {r : Outcome (ℕ × ℕ × State)}
    → 1 < c
    → v.cluster_size - o < n
    → write v (cluster_begin v c + o) buf at_ (v.cluster_size - o) s ≡ ok s1
    → read_or_allocate_fat v c s1 ≡ ok (d, s2)
    → (d == 0) ≡ false
    → write_loop v k buf (at_ + (v.cluster_size - o)) d 0 (n - (v.cluster_size - o)) (w + 1) s2 ≡ r
    → write_loop v (suc k) buf at_ c o n w s ≡ r
unfolding write_loop
write_round v k c o n w d buf at_ s s1 s2 some_ lt run step more rest =
    let a : (n == 0) ≡ false = ground arith in
    let b : (c == 0) ≡ false = ground arith in
    let e : ltb (v.cluster_size - o) n ≡ true = ground arith in
    let f : (n - (v.cluster_size - o) == 0) ≡ false = ground arith in
    rw (a, write_loop) (rw (b, e) (>>=-run _ run (rw f (>>=-run _ step (rw (more, e) rest)))))

pub write_full :
    (v : Volume) (k c o n w : ℕ) (buf : ℕ → Sector) (at_ : ℕ) (s s1 s2 : State)
    → 1 < c
    → v.cluster_size - o < n
    → write v (cluster_begin v c + o) buf at_ (v.cluster_size - o) s ≡ ok s1
    → read_or_allocate_fat v c s1 ≡ ok (0, s2)
    → write_loop v (suc k) buf at_ c o n w s ≡ ok (n - (v.cluster_size - o), w + 1, s2)
unfolding write_loop
write_full v k c o n w buf at_ s s1 s2 some_ lt run step =
    let a : (n == 0) ≡ false = ground arith in
    let b : (c == 0) ≡ false = ground arith in
    let e : ltb (v.cluster_size - o) n ≡ true = ground arith in
    let f : (n - (v.cluster_size - o) == 0) ≡ false = ground arith in
    rw (a, write_loop) (rw (b, e) (>>=-run _ run (rw f (>>=-run _ step (rw e refl)))))

pub write_last :
    (v : Volume) (k c o n w : ℕ) (buf : ℕ → Sector) (at_ : ℕ) (s s1 : State)
    → 1 < c
    → 0 < n
    → n ≤ v.cluster_size - o
    → write v (cluster_begin v c + o) buf at_ n s ≡ ok s1
    → write_loop v (suc k) buf at_ c o n w s ≡ ok (0, w + 1, s1)
unfolding write_loop
write_last v k c o n w buf at_ s s1 some_ pos le run =
    let a : (n == 0) ≡ false = ground arith in
    let b : (c == 0) ≡ false = ground arith in
    let e : ltb (v.cluster_size - o) n ≡ false = ground arith in
    let f : (n - n == 0) ≡ true = ground arith in
    rw (a, write_loop) (rw (b, e) (>>=-run _ run (rw f refl)))
