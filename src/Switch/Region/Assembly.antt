-- ===== src/Switch/Region/Assembly.antt =====
-- src/mvls/devlink.c: a chunk is copied within the bounds of the region.
use mathlib.Core.List.{map, map-append}
use mdio_tools.Prelude.{
  ℕ, zero, suc, ◌+◌, ◌<◌, ◌≤◌, ltb, ltb→lt, Bool-cases, inl, inr, true, false, ◌≡◌, refl, ap, arith,
  some, List, [], ◌∷◌, ◌++◌, append-nil, length,
}
use mdio_tools.Switch.Region.{Bytes, copied, u64, grow, copy_in, copy_chunk}

-- Bytes that were all written.
abbrev pub written : List ℕ → Bytes
written bs = map (λ b. some b) bs

pub length-written : (bs : List ℕ) → length (written bs) ≡ length bs
length-written [] = refl
length-written (b ∷ bs) = ap suc (length-written bs)

pub written-append : (bs cs : List ℕ) → written (bs ++ cs) ≡ written bs ++ written cs
written-append bs cs = map-append _ bs cs

length-grow : (n : ℕ) (d : Bytes) → length d ≤ n → length (grow n d) ≡ n
unfolding grow
length-grow zero [] h = refl
length-grow zero (b ∷ d) h = elim h [ ]
length-grow (suc n) [] h = ap suc (length-grow n [] (omega arith))
length-grow (suc n) (b ∷ d) h = ap suc (length-grow n d (omega arith))

copy_in-within :
    (offs : ℕ) (chunk : List ℕ) (d : Bytes)
    → offs + length chunk ≤ length d
    → (d' : Bytes) × (copy_in offs chunk d ≡ some d') × (length d' ≡ length d)
unfolding copy_in
copy_in-within offs [] d h = (d, refl, refl)
copy_in-within offs (c ∷ cs) [] h = absurd (omega (arith, h))
copy_in-within zero (c ∷ cs) (b ∷ d) h =
    let (d', e, l) = copy_in-within zero cs d (omega arith) in (some c ∷ d', rw e, ap suc l)
copy_in-within (suc offs) (c ∷ cs) (b ∷ d) h =
    let (d', e, l) = copy_in-within offs (c ∷ cs) d (omega arith) in (b ∷ d', rw e, ap suc l)

module _ (offs : ℕ) (chunk : List ℕ) (d : Bytes) (h : offs + length chunk < 18446744073709551616)
    {d' : Bytes} where
  copy_chunk_grows :
      ltb (length d) (offs + length chunk) ≡ true
      → copy_in offs chunk (grow (offs + length chunk) d) ≡ some d'
      → copy_chunk true offs chunk d ≡ copied d'
  unfolding copy_chunk
  copy_chunk_grows grows e =
      let end : u64 (offs + length chunk) ≡ offs + length chunk = omega arith in rw (end, grows, e)

  copy_chunk_fits :
      ltb (length d) (offs + length chunk) ≡ false
      → copy_in offs chunk d ≡ some d'
      → copy_chunk true offs chunk d ≡ copied d'
  unfolding copy_chunk
  copy_chunk_fits fits e =
      let end : u64 (offs + length chunk) ≡ offs + length chunk = omega arith in rw (end, fits, e)

-- With memory, a chunk that ends below 2^64 is copied without a write outside of the region, which
-- never shrinks and then holds at least the chunk.
pub copy_chunk_bounds :
    (offs : ℕ) (chunk : List ℕ) (d : Bytes)
    → offs + length chunk < 18446744073709551616
    → (d' : Bytes) × (copy_chunk true offs chunk d ≡ copied d')
      × (length d ≤ length d')
      × (offs + length chunk ≤ length d')
copy_chunk_bounds offs chunk d h = elim (Bool-cases (ltb (length d) (offs + length chunk))) [
  | inl grows ↦
      let lt = ltb→lt _ _ grows in
      let same = length-grow (offs + length chunk) d (omega arith) in
      let (d', e, l) = copy_in-within offs chunk (grow (offs + length chunk) d) (omega arith) in
      (d', copy_chunk_grows offs chunk d h grows e, omega arith, omega arith)
  | inr fits ↦
      let (d', e, l) = copy_in-within offs chunk d (ground arith) in
      (d', copy_chunk_fits offs chunk d h fits e, omega arith, ground arith)
]

copy_in_empty : (bs : List ℕ) → copy_in 0 bs (grow (length bs) []) ≡ some (written bs)
unfolding copy_in grow
copy_in_empty [] = refl
copy_in_empty (b ∷ bs) = rw (copy_in_empty bs)

grow_lem : (d : Bytes) → grow (length d) d ≡ d
unfolding grow
grow_lem [] = refl
grow_lem (b ∷ d) = ap (λ (e : Bytes). b ∷ e) (grow_lem d)

copy_behind :
    (n : ℕ) (bs : List ℕ) (d : Bytes)
    → n ≡ length d + length bs
    → copy_in (length d) bs (grow n d) ≡ some (d ++ written bs)
unfolding copy_in grow
copy_behind n [] d e = let same : n ≡ length d = omega arith in rw (same, grow_lem d, append-nil d)
copy_behind n (b ∷ bs) [] e =
    let same : n ≡ suc (length bs) = omega arith in rw same (copy_in_empty (b ∷ bs))
copy_behind zero (b ∷ bs) (c ∷ d) e = absurd (omega arith)
copy_behind (suc n) (b ∷ bs) (c ∷ d) e = rw (copy_behind n (b ∷ bs) d (omega arith))

-- With memory, a chunk at the end of the region is appended to it.
pub copy_chunk-append :
    (chunk : List ℕ) (d : Bytes)
    → length d + length chunk < 18446744073709551616
    → copy_chunk true (length d) chunk d ≡ copied (d ++ written chunk)
copy_chunk-append chunk d h = elim (Bool-cases (ltb (length d) (length d + length chunk))) [
  | inl grows ↦
      copy_chunk_grows (length d) chunk d h grows
        (copy_behind (length d + length chunk) chunk d refl)
  | inr fits ↦
      let none_new : length d ≡ length d + length chunk = ground arith in
      copy_chunk_fits (length d) chunk d h fits
        (rw (grow_lem d) at (copy_behind (length d) chunk d none_new))
]
