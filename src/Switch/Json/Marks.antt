-- ===== src/Switch/Json/Marks.antt =====
-- src/mvls/mvls-json.c: a port that is once in one of the masks stays in it.
use Prim.Native.Nat.{max, digits, bit_or-bitwise}
use native.Mathlib.Nat.{div-div-eq-div-mul, le_refl, pow-succ'}
use mdio_tools.Prelude.{
  ℕ, zero, suc, ◌+◌, ◌*◌, ◌/◌, ◌%◌, ◌^◌, ◌≤◌, ◌==◌, not, bit_or, Bool-cases, true, false, some,
  Option, append-nil, List, [], ◌∷◌, ◌++◌, ◌≡◌, inl, inr, refl, sym, ap, subst, ◌∙◌, arith,
}
use mdio_tools.Switch.Tables.{bit}
use mdio_tools.Tool.Args.{Text, codes}
use mdio_tools.Switch.Region.{Bytes}
use mdio_tools.Switch.Env.{Dev}
use mdio_tools.Switch.Tables.{VtuEntry}
use mdio_tools.Switch.Entries.{Load, loaded, words_of, chip_of, vtu_entries, family_vtu_parse}
use mdio_tools.Switch.Json.{VtuMasks, vtu_mark, vtu_members, json_rows, json_devs, env_json_vtu}
use mdio_tools.Switch.Json.Rows.{Taken, ended, takes}

-- Bit `j` of a number, from the lowest on.
bit_at : ℕ → ℕ → ℕ
bit_at zero a = a % 2
bit_at (suc j) a = bit_at j (a / 2)

bit_at-zero : (j : ℕ) → bit_at j 0 ≡ 0
unfolding bit_at
bit_at-zero zero = refl
bit_at-zero (suc j) = bit_at-zero j

bit_at-div : (j a : ℕ) → a / 2 ^ j % 2 ≡ bit_at j a
unfolding bit_at
bit_at-div zero a = omega arith
bit_at-div (suc j) a =
    ap (λ k. a / k % 2) (pow-succ' 2 j)
    ∙ (ap (λ k. k % 2) (sym (div-div-eq-div-mul a 2 (2 ^ j))) ∙ bit_at-div j (a / 2))

digit_top : (d x y : ℕ) → x % 2 ≡ 1 → (d * 2 + max (x % 2) (y % 2)) % 2 ≡ 1
digit_top d x y h = omega (arith, h)

digit_rest : (d x y : ℕ) → d ≡ (d * 2 + max (x % 2) (y % 2)) / 2
digit_rest d x y = omega arith

bit_at-digits : (n a b j : ℕ) → a ≤ n → bit_at j a ≡ 1 → bit_at j (digits (λ b. b) max n a b) ≡ 1
unfolding bit_at
bit_at-digits zero zero b j le h = absurd (omega (arith, bit_at-zero j, h))
bit_at-digits zero (suc a) b j le h = absurd (omega arith)
bit_at-digits (suc n) zero b j le h = absurd (omega (arith, bit_at-zero j, h))
bit_at-digits (suc n) (suc a) b zero le h =
    digit_top (digits (λ b. b) max n (suc a / 2) (b / 2)) (suc a) b h
bit_at-digits (suc n) (suc a) b (suc j) le h =
    subst (λ x. bit_at j x ≡ 1) (digit_rest (digits (λ b. b) max n (suc a / 2) (b / 2)) (suc a) b)
      (bit_at-digits n (suc a / 2) (b / 2) j (omega arith) h)

odd_of : (x : ℕ) → not (x % 2 == 0) ≡ true → x % 2 ≡ 1
odd_of x h = ground arith

of_odd : (x : ℕ) → x % 2 ≡ 1 → not (x % 2 == 0) ≡ true
of_odd x h = ground arith

bit_iff : (a i : ℕ) → bit a i ≡ true → bit_at i a ≡ 1
bit_iff a i h = sym (bit_at-div i a) ∙ odd_of (a / 2 ^ i) h

bit_back : (a i : ℕ) → bit_at i a ≡ 1 → bit a i ≡ true
bit_back a i h = of_odd (a / 2 ^ i) (bit_at-div i a ∙ h)

bit_or-keeps : (a b i : ℕ) → bit a i ≡ true → bit (bit_or a b) i ≡ true
bit_or-keeps a b i h = bit_back (bit_or a b) i (
    subst (λ x. bit_at i x ≡ 1) (sym (bit_or-bitwise a b))
      (bit_at-digits a a b i (le_refl a) (bit_iff a i h)))

abbrev Within : ℕ → ℕ → Type 0
Within a b = (i : ℕ) → bit a i ≡ true → bit b i ≡ true

-- Each mask has the ports that it had.
pub record VtuWithin (m m' : VtuMasks) : Type 0 where
  pub unmod_stays : Within m.unmod m'.unmod
  pub untag_stays : Within m.untag m'.untag
  pub tag_stays : Within m.tag m'.tag

VtuWithin-trans : {m m' m'' : VtuMasks} → VtuWithin m m' → VtuWithin m' m'' → VtuWithin m m''
VtuWithin-trans p q = record {
  unmod_stays = λ i h. q.unmod_stays i (p.unmod_stays i h);
  untag_stays = λ i h. q.untag_stays i (p.untag_stays i h);
  tag_stays = λ i h. q.tag_stays i (p.tag_stays i h);
}

-- A port that is in a mask stays in it.
vtu_mark-VtuWithin : (j : ℕ) (members : List ℕ) (m : VtuMasks) → VtuWithin m (vtu_mark j members m)
unfolding vtu_mark
vtu_mark-VtuWithin j [] m = record {
  unmod_stays = λ i h. h;
  untag_stays = λ i h. h;
  tag_stays = λ i h. h;
}
vtu_mark-VtuWithin j (s ∷ ss) m = elim (Bool-cases (s == 0)) [
  | inl e ↦
      rw (vtu_mark, e)
        (VtuWithin-trans
          (record {
            unmod_stays = bit_or-keeps m.unmod (2 ^ j);
            untag_stays = λ i h. h;
            tag_stays = λ i h. h;
          })
          (vtu_mark-VtuWithin (suc j) ss (record m { unmod = bit_or m.unmod (2 ^ j) })))
  | inr e ↦ elim (Bool-cases (s == 1)) [
    | inl e1 ↦
        rw (vtu_mark, e, e1)
          (VtuWithin-trans
            (record {
              unmod_stays = λ i h. h;
              untag_stays = bit_or-keeps m.untag (2 ^ j);
              tag_stays = λ i h. h;
            })
            (vtu_mark-VtuWithin (suc j) ss (record m { untag = bit_or m.untag (2 ^ j) })))
    | inr e1 ↦ elim (Bool-cases (s == 2)) [
      | inl e2 ↦
          rw (vtu_mark, e, e1, e2)
            (VtuWithin-trans
              (record {
                unmod_stays = λ i h. h;
                untag_stays = λ i h. h;
                tag_stays = bit_or-keeps m.tag (2 ^ j);
              })
              (vtu_mark-VtuWithin (suc j) ss (record m { tag = bit_or m.tag (2 ^ j) })))
      | inr e2 ↦ rw (vtu_mark, e, e1, e2) (vtu_mark-VtuWithin (suc j) ss m)
    ]
  ]
]

-- What env_json_vtu prints for a device with two entries, whose masks are `m` and `m'`.
abbrev pub two_entries : ℕ → VtuEntry → VtuMasks → VtuEntry → VtuMasks → Text
two_entries i e m e' m' =
    codes "\"vtu\":["
    ++ ((codes "{" ++ (vtu_members i e m ++ (codes "},{" ++ (vtu_members i e' m' ++ codes "}"))))
        ++ codes "]")

abbrev pub no_masks : VtuMasks
no_masks = record { unmod = 0; untag = 0; tag = 0 }

two_rows :
    {K : Type 0} (parse : Dev → K → Option VtuEntry) {d : Dev} {ks : List K} {e e' : VtuEntry}
    (m : VtuMasks)
    → Taken parse d ks (e ∷ e' ∷ [])
    → let m₁ = vtu_mark 0 e.member m in
      let m₂ = vtu_mark 0 e'.member m₁ in
      json_rows parse (λ e m. vtu_mark 0 e.member m) vtu_members d ks true m
      ≡ some (
        codes "{"
            ++ (vtu_members d.index e m₁
                ++ (codes "},{" ++ (vtu_members d.index e' m₂ ++ codes "}"))),
        false,
        m₂,
      )
unfolding json_rows
two_rows parse m (takes p (takes q (ended r))) = rw (json_rows, p, json_rows, q, json_rows, r)

-- For a single device whose VTU has two entries, env_json_vtu prints an object for each: the first one with
-- the lists of its own ports, and the second one with lists that have every port that is in the same list
-- of the first.
pub env_json_vtu-VtuWithin :
    {W : Type 0} (load : Text → Dev → W → Load × W) (d : Dev) (w w' : W) (b : Bytes)
    (e e' : VtuEntry)
    → load (codes "vtu") d w ≡ (loaded b, w')
    → Taken
        (λ d k. family_vtu_parse (chip_of d).family k)
        d
        (vtu_entries (words_of b))
        (e ∷ e' ∷ [])
    → (m : VtuMasks) × (m ≡ vtu_mark 0 e.member no_masks)
      × (m' : VtuMasks) × VtuWithin m m'
      × (env_json_vtu load (d ∷ []) w ≡ some (two_entries d.index e m e' m', w'))
unfolding env_json_vtu json_devs
env_json_vtu-VtuWithin load d w w' b e e' h t =
    let m = vtu_mark 0 e.member no_masks in
    let got = ap (λ (r : Load × _). r.0) h in
    let left = ap (λ (r : Load × _). r.1) h in
    let rows = two_rows (λ d k. family_vtu_parse (chip_of d).family k) no_masks t in
    (
      m,
      refl,
      vtu_mark 0 e'.member m,
      vtu_mark-VtuWithin 0 e'.member m,
      rw (json_devs, got, rows, left)
          (ap (λ (t : Text). some (codes "\"vtu\":[" ++ (t ++ codes "]"), w'))
            (append-nil (
              codes "{"
              ++ (vtu_members d.index e m
                  ++ (codes "},{"
                      ++ (vtu_members d.index e' (vtu_mark 0 e'.member m) ++ codes "}")))))),
    )
