-- ===== src/Strings/Moving.antt =====
-- `memmove` on ranges that may overlap.
use bincows.Base.{
  ℕ, zero, suc, ◌+◌, ◌-◌, ◌%◌, ◌^◌, ◌≤◌, ◌<◌, ◌≡◌, ◌∙◌, refl, ◌&&◌, ◌⊎◌, inl, inr, Bool-cases, ltb,
  ◌==◌, if◌then◌else◌, arith, Bytes, put,
}
use bincows.Heap.Api.{memcpy}
use bincows.Strings.{move_back, memmove}

add_zero : (n : ℕ) → n + 0 ≡ n
add_zero n = omega arith

-- The `n` bytes from `src` on in `m` stand at `dest` in `m'`, and all others are those of `m`.
pub record Moved (m : Bytes) (dest src n : ℕ) (m' : Bytes) : Type 0 where
  pub moved : (i : ℕ) → i < n → m' (dest + i) ≡ m (src + i)
  pub outside : (a : ℕ) → (a < dest) ⊎ (dest + n ≤ a) → m' a ≡ m a

move_back-Moved :
    (m : Bytes) (dest src n : ℕ)
    → src < dest
    → Moved m dest src n (move_back m (dest + n) (src + n) n)
unfolding move_back
move_back-Moved m dest src zero lt = record {
  moved = λ i h. absurd (omega arith);
  outside = λ a h. refl;
}
move_back-Moved m dest src (suc n) lt =
    let m1 = put m (dest + n) (m (src + n)) in
    let to : dest + suc n - 1 ≡ dest + n = omega arith in
    let from : src + suc n - 1 ≡ src + n = omega arith in
    let ih = move_back-Moved m1 dest src n lt in
    rw (to, from)
      (record {
        moved = λ i h. elim (Bool-cases (i == n)) [
          | inl last ↦
              (let same : i ≡ n = ground arith in
                rw same (ih.outside (dest + n) (inr (omega arith)) ∙ ground arith))
          | inr inner ↦ ih.moved i (ground arith) ∙ ground arith
        ];
        outside = λ a h. ih.outside a (omega (arith, h)) ∙ ground (arith, h);
      })

memcpy-Moved :
    (m : Bytes) (dest src n : ℕ)
    → (dest ≤ src) ⊎ (src + n ≤ dest)
    → Moved m dest src n (memcpy m dest src n)
unfolding memcpy
memcpy-Moved m dest src zero apart = record {
  moved = λ i h. absurd (omega arith);
  outside = λ a h. refl;
}
memcpy-Moved m dest src (suc n) apart =
    let m1 : Bytes = λ a. if a == dest then m src else m a in
    let ih = memcpy-Moved m1 (dest + 1) (src + 1) n (omega (arith, apart)) in
    record {
      moved = λ i h. elim (Bool-cases (i == 0)) [
        | inl first ↦
            (let same : i ≡ 0 = ground arith in
              rw (same, add_zero dest, add_zero src)
                (ih.outside dest (inl (omega arith)) ∙ ground arith))
        | inr later ↦
            (let to : dest + i ≡ dest + 1 + (i - 1) = ground arith in
              let from : src + i ≡ src + 1 + (i - 1) = ground arith in
              rw (to, from) (ih.moved (i - 1) (ground arith) ∙ ground (arith, apart)))
      ];
      outside = λ a h. ih.outside a (omega (arith, h)) ∙ ground (arith, h);
    }

-- For two ranges within the address space `memmove` copies each byte as it was before, also where
-- they overlap, and changes no byte outside the destination.
pub memmove-Moved :
    (m : Bytes) (dest src n : ℕ)
    → dest + n < 2 ^ 64
    → src + n < 2 ^ 64
    → Moved m dest src n (memmove m dest src n)
unfolding memmove
memmove-Moved m dest src n in_dest in_src =
    elim (Bool-cases (ltb src dest && ltb dest ((src + n) % 2 ^ 64))) [
      | inl over ↦ rw over (move_back-Moved m dest src n (ground arith))
      | inr apart ↦ rw apart (memcpy-Moved m dest src n (ground arith))
    ]
