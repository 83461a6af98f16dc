-- ===== src/Switch/Show/Matrix.antt =====
-- src/mvls/mvls-show.c: the port VLAN tables, of one device and as a matrix of all ports.
use mdio_tools.Prelude.{
  ℕ, zero, suc, ◌+◌, ◌*◌, ◌/◌, ◌%◌, ◌^◌, ◌==◌, bit_or, if◌then◌else◌, Bool, true, false, not, ◌&&◌,
  Option, none, some, List, [], ◌∷◌, ◌++◌, get_elem?,
}
use mdio_tools.Tool.Args.{Text, codes, text_eq}
use mdio_tools.Switch.Tables.{bits, bit, opal_port_lag}
use mdio_tools.Switch.Env.{Port, Dev}
use mdio_tools.Switch.Entries.{Load, loaded, load_failed, load_stuck, words_of}
use mdio_tools.Switch.Json.{out}
use mdio_tools.Switch.Show.{hex, pad_left, newline, inverse, normal, dev_print_portvec}

-- What two ports may send to each other: both ways, from the row to the column, back, or nothing.
pub data Cell : Type 0 where
  both forth back neither : Cell

-- pvt_print_cell, the choice and what is printed for it
unfoldable pub pvt_cell : ℕ → ℕ → ℕ → ℕ → Cell
pvt_cell spvt dpvt src dst =
    if bit spvt dst && bit dpvt src
    then both
    else if bit spvt dst
    then forth
    else if bit dpvt src
    then back
    else neither

unfoldable pub cell_text : Cell → Text
cell_text both = codes " x"
cell_text forth = codes " ^"
cell_text back = codes " <"
cell_text neither = codes " ."

-- A port and a device with the registers and the PVT that were loaded for them.
pub record LoadedPort : Type 0 where
  pub index : ℕ
  pub regs : List ℕ

pub record LoadedDev : Type 0 where
  pub bus : Text
  pub dev : Text
  pub index : ℕ
  pub pvt : List ℕ
  pub ports : List LoadedPort

-- The comparison of two devices' addresses in memory: no two have the same bus and name.
abbrev pub same_dev : LoadedDev → LoadedDev → Bool
same_dev a b = text_eq a.bus b.bus && text_eq a.dev b.dev

-- The two words that a cell is made of: `none` if one lies outside of its region.
unfoldable pub cell_words : LoadedDev → LoadedPort → LoadedDev → LoadedPort → Option ℕ × Option ℕ
cell_words sd src d p =
    if same_dev d sd
    then (get_elem? src.regs 6, get_elem? p.regs 6)
    else (get_elem? d.pvt (sd.index * 16 + src.index), get_elem? sd.pvt (d.index * 16 + p.index))

unfoldable pub cell_of : LoadedDev → LoadedPort → LoadedDev → LoadedPort → Option Cell
unfolding cell_words pvt_cell
cell_of sd src d p = elim (cell_words sd src d p).0 [
  | none ↦ none
  | some spvt ↦ elim (cell_words sd src d p).1 [
    | none ↦ none
    | some dpvt ↦ some (pvt_cell spvt dpvt src.index p.index)
  ]
]

-- A piece of output in front of what may not come.
abbrev pub before : Text → Option Text → Option Text
before t none = none
before t (some u) = some (t ++ u)

unfoldable pub row_ports : LoadedDev → LoadedPort → LoadedDev → List LoadedPort → Option Text
unfolding cell_of cell_text
row_ports sd src d [] = some []
row_ports sd src d (p ∷ ps) =
    let rest = row_ports sd src d ps in
    elim (cell_of sd src d p) [ none ↦ none | some c ↦ before (cell_text c) rest ]

abbrev pub gap : Bool → Text
gap true = codes " "
gap false = []

abbrev pub more_devs : List LoadedDev → Bool
more_devs [] = false
more_devs (_ ∷ _) = true

abbrev pub or_else : Bool → Bool → Bool
or_else true b = true
or_else false b = b

-- The part of a row for the devices.
unfoldable pub row_devs : LoadedDev → LoadedPort → Bool → List LoadedDev → Option Text
unfolding row_ports
row_devs sd src lags [] = some []
row_devs sd src lags (d ∷ ds) =
    let rest = row_devs sd src lags ds in
    elim (row_ports sd src d d.ports) [
      | none ↦ none
      | some t ↦ before (t ++ gap (or_else (more_devs ds) lags)) rest
    ]

-- The part for the LAGs, `n` of them from `lag` on.
unfoldable pub row_lags : ℕ → ℕ → ℕ → LoadedDev → LoadedPort → Option Text
unfolding pvt_cell cell_text
row_lags zero lag lags sd src = some []
row_lags (suc n) lag lags sd src =
    let rest = row_lags n (suc lag) lags sd src in
    if not (bit lags lag) then rest else elim (get_elem? sd.pvt (0x1f * 16 + lag)) [
      | none ↦ none
      | some dpvt ↦ before (cell_text (pvt_cell 0 dpvt src.index 0)) rest
    ]

-- env_show_pvt_port
unfoldable pub env_show_pvt_port : List LoadedDev → ℕ → LoadedDev → LoadedPort → Option Text
unfolding row_devs row_lags
env_show_pvt_port devs lags sd src = elim (row_devs sd src (not (lags == 0)) devs) [
  | none ↦ none
  | some t ↦ elim (row_lags 16 0 lags sd src) [
    | none ↦ none
    | some t' ↦
        some (
          out (inverse ∷ hex sd.index ∷ codes " " ∷ hex src.index ∷ normal ∷ t ∷ t' ∷ newline ∷ []))
  ]
]

-- The last loops of env_show_pvt.
unfoldable pub port_rows : List LoadedDev → ℕ → LoadedDev → List LoadedPort → Option Text
unfolding env_show_pvt_port
port_rows devs lags sd [] = some []
port_rows devs lags sd (p ∷ ps) =
    let rest = port_rows devs lags sd ps in
    elim (env_show_pvt_port devs lags sd p) [ none ↦ none | some t ↦ before t rest ]

unfoldable pub dev_rows : List LoadedDev → ℕ → List LoadedDev → Option Text
unfolding port_rows
dev_rows devs lags [] = some []
dev_rows devs lags (d ∷ ds) =
    let rest = dev_rows devs lags ds in
    let line = if more_devs ds then out (inverse ∷ codes "   " ∷ normal ∷ newline ∷ []) else [] in
    elim (port_rows devs lags d d.ports) [ none ↦ none | some t ↦ before (t ++ line) rest ]

-- The line of the ports' indices, without the LAGs.
unfoldable pub index_cells : List LoadedPort → Text
index_cells [] = []
index_cells (p ∷ ps) = out (codes " " ∷ hex p.index ∷ index_cells ps ∷ [])

unfoldable pub index_row : Bool → List LoadedDev → Text
unfolding index_cells
index_row lags [] = []
index_row lags (d ∷ ds) =
    out (index_cells d.ports ∷ gap (or_else (more_devs ds) lags) ∷ index_row lags ds ∷ [])

-- The loops over the LAGs in the two lines of the heading, `n` of them from `lag` on.
unfoldable pub lag_row : ℕ → ℕ → (ℕ → Text) → ℕ → Text
lag_row zero lag f lags = []
lag_row (suc n) lag f lags =
    (if bit lags lag then codes " " ++ f lag else []) ++ lag_row n (suc lag) f lags

-- What the first loops of env_show_pvt come to: what they print, whether they got to their end, the
-- LAGs, and what was loaded.
pub record LoadedAll (A W : Type 0) : Type 0 where
  pub text : Text
  pub complete : Bool
  pub lags : ℕ
  pub found : List A
  pub world : W

abbrev pub add_lag : Option ℕ → ℕ → ℕ
add_lag none lags = lags
add_lag (some lag) lags = bit_or lags (2 ^ lag)

module _ {W : Type 0} (load_pvt : Dev → W → Load × W) (load_regs : Dev → Port → W → Load × W) where
  unfoldable pub load_ports : Dev → List Port → ℕ → W → Option (LoadedAll LoadedPort W)
  load_ports d [] lags w =
      some (record { text = []; complete = true; lags = lags; found = []; world = w })
  load_ports d (p ∷ ps) lags w =
      let (got, w') = load_regs d p w in
      elim got [
        | load_stuck ↦ none
        | load_failed _ ↦
            some (record { text = []; complete = false; lags = lags; found = []; world = w' })
        | loaded b ↦ elim (get_elem? (words_of b) 5) [
          | none ↦ none
          | some _ ↦ elim (load_ports d ps (add_lag (opal_port_lag (words_of b)) lags) w') [
            | none ↦ none
            | some r ↦ some (record r {
              text = out (codes " " ∷ hex d.index ∷ r.text ∷ []);
              found = record { index = p.index; regs = words_of b } ∷ r.found;
            })
          ]
        ]
      ]

  unfoldable pub load_devs : List Dev → ℕ → W → Option (LoadedAll LoadedDev W)
  unfolding load_ports
  load_devs [] lags w =
      some (record { text = []; complete = true; lags = lags; found = []; world = w })
  load_devs (d ∷ ds) lags w =
      let (got, w') = load_pvt d w in
      elim got [
        | load_stuck ↦ none
        | load_failed _ ↦
            some (record { text = []; complete = false; lags = lags; found = []; world = w' })
        | loaded b ↦ elim (load_ports d d.ports lags w') [
          | none ↦ none
          | some ports ↦
              if not ports.complete
              then some (record {
                text = ports.text;
                complete = false;
                lags = ports.lags;
                found = [];
                world = ports.world;
              })
              else elim (load_devs ds ports.lags ports.world) [
                | none ↦ none
                | some r ↦ some (record r {
                  text = out (ports.text ∷ (elim ds [ [] ↦ [] | _ ∷ _ ↦ codes " " ]) ∷ r.text ∷ []);
                  found =
                      record {
                        bus = d.bus;
                        dev = d.dev;
                        index = d.index;
                        pvt = words_of b;
                        ports = ports.found;
                      }
                      ∷ r.found;
                })
              ]
        ]
      ]

  -- env_show_pvt
  unfoldable pub env_show_pvt : List Dev → W → Option (Text × W)
  unfolding load_devs index_row lag_row dev_rows
  env_show_pvt ds w = elim (load_devs ds 0 w) [
    | none ↦ none
    | some r ↦
        let head = out (inverse ∷ codes "D  " ∷ r.text ∷ []) in
        let any = not (r.lags == 0) in
        if not r.complete then some (head, r.world) else elim (dev_rows r.found r.lags r.found) [
          | none ↦ none
          | some rows ↦ some (
            out (
                head
                ∷ gap any
                ∷ lag_row 16 0 (λ lag. codes "L") r.lags
                ∷ newline
                ∷ codes "  P"
                ∷ index_row any r.found
                ∷ lag_row 16 0 hex r.lags
                ∷ normal
                ∷ newline
                ∷ rows
                ∷ []),
            r.world,
          )
        ]
  ]

  -- The loops of dev_show_pvt over the ports of the device, with whether they got to their end, and
  -- over its PVT, `n` entries from entry `i` on.
  unfoldable pub show_own : Dev → List Port → W → Option (Text × Bool × W)
  show_own d [] w = some ([], true, w)
  show_own d (p ∷ ps) w =
      let (got, w') = load_regs d p w in
      elim got [
        | load_stuck ↦ none
        | load_failed _ ↦ some ([], false, w')
        | loaded b ↦ elim (get_elem? (words_of b) 6) [
          | none ↦ none
          | some v ↦ elim (show_own d ps w') [
            | none ↦ none
            | some (t, good, w'') ↦ some (
              out (
                  pad_left 2 (hex d.index)
                  ∷ codes " "
                  ∷ hex p.index
                  ∷ dev_print_portvec d (bits v 0 11)
                  ∷ newline
                  ∷ t
                  ∷ []),
              good,
              w'',
            )
          ]
        ]
      ]

  unfoldable pub show_entries : ℕ → ℕ → Dev → List ℕ → Option Text
  show_entries zero i d pvt = some []
  show_entries (suc n) i d pvt =
      let rest = show_entries n (suc i) d pvt in
      elim (get_elem? pvt i) [
        | none ↦ none
        | some v ↦
            if v == 0
            then rest
            else before
                (out (
                  pad_left 2 (hex (i / 16))
                  ∷ codes " "
                  ∷ hex (i % 16)
                  ∷ dev_print_portvec d (bits v 0 11)
                  ∷ newline
                  ∷ []))
                rest
      ]

  -- dev_show_pvt
  unfoldable pub dev_show_pvt : Dev → W → Option (Text × W)
  unfolding show_own show_entries
  dev_show_pvt d w =
      let heading =
        out (inverse ∷ codes " D P  0  1  2  3  4  5  6  7  8  9  a" ∷ normal ∷ newline ∷ []) in
      elim (show_own d d.ports w) [
        | none ↦ none
        | some (t, good, w') ↦
            if not good
            then some (heading ++ t, w')
            else let (got, w'') = load_pvt d w' in
              elim got [
                | load_stuck ↦ none
                | load_failed _ ↦ some (heading ++ t, w'')
                | loaded b ↦ elim (show_entries 512 0 d (words_of b)) [
                  | none ↦ none
                  | some t' ↦ some (out (heading ∷ t ∷ t' ∷ []), w'')
                ]
              ]
      ]
