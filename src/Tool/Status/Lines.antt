-- ===== src/Tool/Status/Lines.antt =====
-- src/mdio/print-phy.c: no conversion of the printers gives a line break.
use mdio_tools.Prelude.{
  ℕ, zero, suc, ◌-◌, ◌/◌, ◌%◌, ◌<◌, ◌==◌, if◌then◌else◌, Bool, true, false, ◌&&◌, ◌≡◌, refl, arith,
  none, some, List, [], ◌∷◌, ◌++◌, Bool-cases, inl, inr, lt→ltb, length, ◌⊎◌,
}
use mdio_tools.Tool.Args.{Text, codes}
use mdio_tools.Switch.Json.{digit}
use mdio_tools.Switch.Show.{hex, hex_from}
use mdio_tools.Tool.Status.{
  Linux, shown, hex_pad, alt_hex, get_speed, name_at, type_name, repeat_zero,
}
use mdio_tools.Tool.Status.Reading.{one_line}

abbrev pub IsLine : Text → Type 0
IsLine t = one_line t ≡ true

IsLine-append : (t u : Text) → IsLine t → IsLine u → IsLine (t ++ u)
IsLine-append [] u p q = q
IsLine-append (c ∷ t) u p q = elim (Bool-cases (c == 10)) [
  | inl e ↦ let no : false ≡ true = rw e at p in cc
  | inr e ↦ let p' : one_line t ≡ true = rw e at p in rw e (IsLine-append t u p' q)
]

digit_ne : (d : ℕ) → (digit d == 10) ≡ false
digit_ne d = ground arith

hex_from-IsLine : (fuel n : ℕ) (t : Text) → IsLine t → IsLine (hex_from fuel n t)
unfolding hex_from
hex_from-IsLine zero n t p = p
hex_from-IsLine (suc fuel) n t p =
    let q : one_line (digit (n % 16) ∷ t) ≡ true = rw (digit_ne (n % 16)) p in
    elim (Bool-cases (n / 16 == 0)) [
      | inl e ↦ rw e q
      | inr e ↦ rw e (hex_from-IsLine fuel (n / 16) (digit (n % 16) ∷ t) q)
    ]

zeros-IsLine : (n : ℕ) → IsLine (repeat_zero n)
unfolding repeat_zero
zeros-IsLine zero = refl
zeros-IsLine (suc n) = zeros-IsLine n

prefix-IsLine : (b : Bool) → IsLine (if b then [] else codes "0x")
prefix-IsLine true = refl
prefix-IsLine false = refl

pub alt_hex-IsLine : (digits n : ℕ) → IsLine (alt_hex digits n)
unfolding alt_hex hex_pad
alt_hex-IsLine digits n =
    IsLine-append (if n == 0 then [] else codes "0x") _ (prefix-IsLine (n == 0)) (
      IsLine-append (repeat_zero (digits - length (hex n))) (hex n)
        (zeros-IsLine (digits - length (hex n))) (hex_from-IsLine (suc n) n [] refl))

if-IsLine : (b : Bool) (t u : Text) → IsLine t → IsLine u → IsLine (if b then t else u)
if-IsLine true t u p q = p
if-IsLine false t u p q = q

pub duplex-IsLine : (b : Bool) → IsLine (if b then codes "full" else codes "half")
duplex-IsLine b = if-IsLine b (codes "full") (codes "half") refl refl

pub get_speed-IsLine : (c : Linux) (val : ℕ) → IsLine (get_speed c val)
unfolding get_speed
get_speed-IsLine c val = ground arith

-- The names of a table have no line breaks.
abbrev pub names_lines : List (ℕ × Text) → Bool
names_lines [] = true
names_lines ((k, name) ∷ names) = one_line name && names_lines names

and-true : (a b : Bool) → (a && b) ≡ true → (a ≡ true) × (b ≡ true)
and-true true b e = (refl, e)
and-true false b e = cc

name_at-IsLine :
    (names : List (ℕ × Text)) (i : ℕ)
    → names_lines names ≡ true
    → (name_at names i ≡ none) ⊎ ((t : Text) × (name_at names i ≡ some t) × IsLine t)
unfolding name_at
name_at-IsLine [] i p = inl refl
name_at-IsLine ((k, name) ∷ names) i p =
    let (line, p') = and-true (one_line name) _ p in
    elim (name_at-IsLine names i p') [
      | inr (t, e, q) ↦ inr (t, rw e, q)
      | inl e ↦ elim (Bool-cases (k == i)) [
        | inl same ↦ inr (name, rw (e, same), line)
        | inr other ↦ inl (rw (e, other))
      ]
    ]

-- An index within a table is printed as a name, without a line break.
pub type_name-shown :
    (size : ℕ) (names : List (ℕ × Text)) (i : ℕ)
    → i < size
    → names_lines names ≡ true
    → (t : Text) × (type_name size names i ≡ shown t) × IsLine t
unfolding type_name
type_name-shown size names i lt p = elim (name_at-IsLine names i p) [
  | inl e ↦ (codes "unknown", rw (lt→ltb i size lt, e), refl)
  | inr (t, e, q) ↦ (t, rw (lt→ltb i size lt, e), q)
]
