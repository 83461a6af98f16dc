-- ===== src/Switch/Show/Mirror.antt =====
-- src/mvls/mvls-show.c: the matrix of the port VLAN tables is its own mirror image.
use mathlib.Core.Option.{map}
use mdio_tools.Prelude.{
  ℕ, ◌==◌, Bool-cases, Option-cases, some, [], ◌∷◌, ◌≡◌, inl, inr, refl, ap, arith,
}
use mdio_tools.Tool.Args.{Text, text_eq}
use mdio_tools.Switch.Tables.{bit}
use mdio_tools.Switch.Show.Matrix.{
  Cell, both, forth, back, neither, pvt_cell, LoadedPort, LoadedDev, same_dev, cell_words, cell_of,
}

-- The cell as the other port sees it.
unfoldable pub mirror : Cell → Cell
mirror both = both
mirror forth = back
mirror back = forth
mirror neither = neither

pvt_cell-mirror : (s d a b : ℕ) → pvt_cell s d a b ≡ mirror (pvt_cell d s b a)
unfolding pvt_cell mirror
pvt_cell-mirror s d a b = elim (Bool-cases (bit s b)) [
  | inl e ↦ elim (Bool-cases (bit d a)) [
    | inl f ↦ rw (pvt_cell, e, f)
    | inr f ↦ rw (pvt_cell, e, f)
  ]
  | inr e ↦ elim (Bool-cases (bit d a)) [
    | inl f ↦ rw (pvt_cell, e, f)
    | inr f ↦ rw (pvt_cell, e, f)
  ]
]

eq_comm : (a b : ℕ) → (a == b) ≡ (b == a)
eq_comm a b = ground arith

text_eq_comm : (s t : Text) → text_eq s t ≡ text_eq t s
text_eq_comm [] [] = refl
text_eq_comm [] (b ∷ t) = refl
text_eq_comm (a ∷ s) [] = refl
text_eq_comm (a ∷ s) (b ∷ t) = rw (eq_comm a b, text_eq_comm s t)

same_dev_comm : (a b : LoadedDev) → same_dev a b ≡ same_dev b a
same_dev_comm a b = rw (text_eq_comm a.bus b.bus, text_eq_comm a.dev b.dev)

cell_words_comm :
    (sd : LoadedDev) (src : LoadedPort) (d : LoadedDev) (p : LoadedPort)
    → cell_words sd src d p ≡ ((cell_words d p sd src).1, (cell_words d p sd src).0)
unfolding cell_words
cell_words_comm sd src d p = elim (Bool-cases (same_dev d sd)) [
  | inl e ↦ rw (cell_words, e, same_dev_comm sd d, e)
  | inr e ↦ rw (cell_words, e, same_dev_comm sd d, e)
]

-- For any two ports, of one device or of two, the cell in the row of the first and the column of the second
-- is the mirror image of the cell in the row of the second and the column of the first: both
-- directions stay, and one direction is seen from the other side; and the one is missing where the
-- other is.
pub cell_of-mirror :
    (sd : LoadedDev) (src : LoadedPort) (d : LoadedDev) (p : LoadedPort)
    → cell_of sd src d p ≡ map mirror (cell_of d p sd src)
unfolding cell_of
cell_of-mirror sd src d p = elim (Option-cases (cell_words d p sd src).0) [
  | inl e ↦ elim (Option-cases (cell_words d p sd src).1) [
    | inl f ↦ rw (cell_of, cell_words_comm sd src d p, e, f)
    | inr (v, f) ↦ rw (cell_of, cell_words_comm sd src d p, e, f, cell_words_comm sd src d p, e)
  ]
  | inr (u, e) ↦ elim (Option-cases (cell_words d p sd src).1) [
    | inl f ↦ rw (cell_of, cell_words_comm sd src d p, e, f)
    | inr (v, f) ↦
        rw (cell_of, cell_words_comm sd src d p, e, f, cell_words_comm sd src d p, e)
          (ap some (pvt_cell-mirror v u src.index p.index))
  ]
]
