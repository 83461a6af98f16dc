-- ===== src/Switch/Show.antt =====
-- src/mvls/mvls-show.c: what the printer for terminals puts on its standard output, as text. A printer
-- gives `none` where it reads what is not there or gets no result.
pub mod Matrix
pub mod Mirror
pub mod Printing
use mdio_tools.Prelude.{
  ℕ, zero, suc, ◌+◌, ◌*◌, ◌-◌, ◌/◌, ◌%◌, ◌==◌, ltb, leb, if◌then◌else◌, Bool, true, false, not,
  Option, none, some, List, [], ◌∷◌, ◌++◌, get_or, length,
}
use mdio_tools.Tool.Args.{Text, codes}
use mdio_tools.Switch.Tables.{
  bits, bit, PrioOverride, VtuEntry, StuEntry, AtuEntry, opal_port_lag, opal_port_fid,
}
use mdio_tools.Switch.Env.{Port, Dev}
use mdio_tools.Switch.Entries.{
  Load, loaded, load_failed, load_stuck, chip_of, words_of, atu_entries, vtu_entries, stu_entries,
  family_atu_parse, family_vtu_parse, family_stu_parse,
}
use mdio_tools.Switch.Json.{out, digit, dec, mac, name_of}
use mdio_tools.Switch.Json.Ports.{regs_seen}

-- `%x`
unfoldable pub hex_from : ℕ → ℕ → Text → Text
hex_from zero n t = t
hex_from (suc fuel) n t =
    if n / 16 == 0 then digit (n % 16) ∷ t else hex_from fuel (n / 16) (digit (n % 16) ∷ t)

abbrev pub hex : ℕ → Text
hex n = hex_from (suc n) n []

unfoldable pub spaces : ℕ → Text
spaces zero = []
spaces (suc n) = 32 ∷ spaces n

-- `%4u` and `%4s`, and `%-8s`
abbrev pub pad_left : ℕ → Text → Text
pad_left width t = spaces (width - length t) ++ t

abbrev pub pad_right : ℕ → Text → Text
pad_right width t = t ++ spaces (width - length t)

abbrev pub newline : Text
newline = 10 ∷ []

-- "\e[7m", "\e[2m" and "\e[0m"
abbrev pub inverse : Text
inverse = 27 ∷ codes "[7m"

abbrev pub faint : Text
faint = 27 ∷ codes "[2m"

abbrev pub normal : Text
normal = 27 ∷ codes "[0m"

unfoldable pub prio_c : Bool → ℕ → Text
prio_c set pri = if not set then codes "-" else (48 + pri) ∷ []

abbrev pub atu_uc_str : List Text
atu_uc_str =
    codes "UNUSED"
    ∷ codes "age 1"
    ∷ codes "age 2"
    ∷ codes "age 3"
    ∷ codes "age 4"
    ∷ codes "age 5"
    ∷ codes "age 6"
    ∷ codes "age 7"
    ∷ codes "policy"
    ∷ codes "policy-po"
    ∷ codes "nrl"
    ∷ codes "nrl-po"
    ∷ codes "mgmt"
    ∷ codes "mgmt-po"
    ∷ codes "static"
    ∷ codes "static-po"
    ∷ []

abbrev pub atu_mc_str : List Text
atu_mc_str =
    codes "UNUSED"
    ∷ codes "resvd1"
    ∷ codes "resvd2"
    ∷ codes "resvd3"
    ∷ codes "policy"
    ∷ codes "nrl"
    ∷ codes "mgmt"
    ∷ codes "static"
    ∷ codes "resvd8"
    ∷ codes "resvd9"
    ∷ codes "resvda"
    ∷ codes "resvdb"
    ∷ codes "policy-po"
    ∷ codes "nrl-po"
    ∷ codes "mgmt-po"
    ∷ codes "static-po"
    ∷ []

-- A character out of port_fmode_c, port_emode_c, port_state_c or port_qmode_c.
abbrev pub char_of : Text → ℕ → Text
char_of cs i = get_or cs i 63 ∷ []

abbrev pub port_fmode_c : Text
port_fmode_c = codes "nDPE"

abbrev pub port_emode_c : Text
port_emode_c = codes "=utD"

abbrev pub port_state_c : Text
port_state_c = codes "-BLf"

abbrev pub port_qmode_c : Text
port_qmode_c = codes "-FCs"

unfoldable pub port_link_str : List ℕ → Text
port_link_str regs =
    let stat = get_or regs 0 0 in
    let speed = bits stat 8 2 in
    let half = if bit stat 10 then [] else codes "h" in
    if not (bit stat 11)
    then codes "-"
    else if speed == 0
    then codes "10" ++ half
    else if speed == 1
    then codes "100" ++ half
    else if speed == 2
    then codes "1G" ++ half
    else codes "XG" ++ half

-- A LAG has four bits, so `& 0x1f` and the size of the buffer change nothing.
unfoldable pub port_lag_str : List ℕ → Text
port_lag_str regs = elim (opal_port_lag regs) [ none ↦ codes "-" | some lag ↦ dec (lag % 32) ]

-- dev_print_portvec, `n` ports from port `i` on
unfoldable pub show_portvec : ℕ → ℕ → ℕ → ℕ → Text
show_portvec zero i n_ports v = []
show_portvec (suc n) i n_ports v =
    (if bit v i then codes "  " ++ hex i else if leb n_ports i then codes "   " else codes "  .")
    ++ show_portvec n (suc i) n_ports v

abbrev pub dev_print_portvec : Dev → ℕ → Text
dev_print_portvec d v = show_portvec 11 0 (chip_of d).n_ports v

-- The line in front of a device's entries.
abbrev pub dev_line : ℕ → Dev → Text
dev_line width d = out (
    faint
    ∷ inverse
    ∷ codes "DEV:"
    ∷ hex d.index
    ∷ codes " "
    ∷ pad_right width (chip_of d).id
    ∷ normal
    ∷ newline
    ∷ [])

unfoldable pub show_port : Port → List ℕ → Text
unfolding port_link_str port_lag_str
show_port p regs =
    let ctrl = get_or regs 4 0 in
    let ctrl2 = get_or regs 8 0 in
    out (
      pad_right 8 p.netdev
      ∷ codes "  "
      ∷ hex p.index
      ∷ codes "  "
      ∷ pad_left 4 (port_link_str regs)
      ∷ codes "  "
      ∷ char_of port_fmode_c (bits ctrl 8 2)
      ∷ char_of port_emode_c (bits ctrl 12 2)
      ∷ codes "  "
      ∷ (if bit ctrl 2 then codes "u" else codes "-")
      ∷ (if bit ctrl 3 then codes "m" else codes "-")
      ∷ codes "  "
      ∷ char_of port_state_c (bits ctrl 0 2)
      ∷ codes " "
      ∷ pad_left 2 (port_lag_str regs)
      ∷ codes "  "
      ∷ char_of port_qmode_c (bits ctrl2 10 2)
      ∷ (if bit ctrl2 8 then codes "-" else codes "u")
      ∷ (if bit ctrl2 9 then codes "-" else codes "t")
      ∷ codes "  "
      ∷ pad_left 4 (dec (bits (get_or regs 7 0) 0 12))
      ∷ codes "  "
      ∷ pad_left 4 (dec (opal_port_fid regs))
      ∷ (if bit ctrl2 7 then [] else codes "!map")
      ∷ newline
      ∷ [])

abbrev pub atu_state_str : AtuEntry → Text
atu_state_str e =
    if get_or e.addr 0 0 % 2 == 1 then name_of atu_mc_str e.state else name_of atu_uc_str e.state

unfoldable pub show_atu_entry : Dev → AtuEntry → Text
show_atu_entry d e = out (
    mac e.addr
    ∷ codes "  "
    ∷ pad_left 4 (dec e.fid)
    ∷ codes "  "
    ∷ pad_right 9 (atu_state_str e)
    ∷ codes "  "
    ∷ prio_c e.qpri.set e.qpri.pri
    ∷ codes "  "
    ∷ prio_c e.fpri.set e.fpri.pri
    ∷ (if e.lag then codes "  lag " ++ hex e.portvec else dev_print_portvec d e.portvec)
    ∷ newline
    ∷ [])

-- The loop over the members of an entry of the VTU.
unfoldable pub show_members : ℕ → ℕ → List ℕ → Text
show_members i n_ports [] = []
show_members i n_ports (s ∷ ss) =
    (if s == 0
      then (if leb n_ports i then codes "   " else codes "  =")
      else if s == 1
      then codes "  u"
      else if s == 2
      then codes "  t"
      else codes "  .")
    ++ show_members (suc i) n_ports ss

-- No priority is overridden in an entry of the VTU.
unfoldable pub show_vtu_entry : Dev → VtuEntry → Text
show_vtu_entry d e = out (
    pad_left 4 (dec e.vid)
    ∷ codes "  "
    ∷ pad_left 4 (dec e.fid)
    ∷ codes "  "
    ∷ pad_left 3 (dec e.sid)
    ∷ codes "  "
    ∷ (if e.policy then codes "y" else codes "-")
    ∷ codes "  "
    ∷ prio_c e.qpri_set 0
    ∷ codes "  "
    ∷ prio_c e.fpri_set 0
    ∷ show_members 0 (chip_of d).n_ports e.member
    ∷ newline
    ∷ [])

unfoldable pub show_states : ℕ → ℕ → List ℕ → Text
show_states i n_ports [] = []
show_states i n_ports (s ∷ ss) =
    (if s == 0
      then (if leb n_ports i then codes "   " else codes "  -")
      else codes "  " ++ char_of port_state_c s)
    ++ show_states (suc i) n_ports ss

unfoldable pub show_stu_entry : Dev → StuEntry → Text
show_stu_entry d e =
    out (pad_left 3 (dec e.sid) ∷ show_states 0 (chip_of d).n_ports e.state ∷ newline ∷ [])

module _ {K E : Type 0} (parse : Dev → K → Option E) (row : Dev → E → Text) where
  -- The `while` over the entries of a device, which only ends at one that is not valid.
  unfoldable pub show_rows : Dev → List K → Option Text
  show_rows d [] = none
  show_rows d (k ∷ ks) = elim (parse d k) [
    | none ↦ some []
    | some e ↦ elim (show_rows d ks) [ none ↦ none | some t ↦ some (row d e ++ t) ]
  ]

  -- The loop over the devices, which a region that cannot be queried ends.
  unfoldable pub show_devs :
      {W : Type 0} → (Dev → W → Load × W) → (List ℕ → List K) → ℕ → List Dev → W → Option (Text × W)
  unfolding show_rows
  show_devs load entries width [] w = some ([], w)
  show_devs load entries width (d ∷ ds) w =
      let (got, w') = load d w in
      elim got [
        | load_failed _ ↦ some (dev_line width d, w')
        | load_stuck ↦ none
        | loaded b ↦ elim (show_rows d (entries (words_of b))) [
          | none ↦ none
          | some t ↦ elim (show_devs load entries width ds w') [
            | none ↦ none
            | some (t', w'') ↦ some (out (dev_line width d ∷ t ∷ t' ∷ []), w'')
          ]
        ]
      ]

-- `puts` of an inverse heading in front of what follows
abbrev pub headed : {W : Type 0} → Text → Option (Text × W) → Option (Text × W)
headed heading none = none
headed heading (some (t, w)) = some (out (inverse ∷ heading ∷ normal ∷ newline ∷ t ∷ []), w)

module _ {W : Type 0} (load : Text → Dev → W → Load × W) where
  unfoldable pub env_show_atu : List Dev → W → Option (Text × W)
  unfolding show_devs show_atu_entry
  env_show_atu ds w =
      headed (codes "ADDRESS             FID  STATE      Q  F  0  1  2  3  4  5  6  7  8  9  a") (
        show_devs (λ d k. family_atu_parse (chip_of d).family k) show_atu_entry (load (codes "atu"))
          atu_entries 67 ds w)

  unfoldable pub env_show_vtu : List Dev → W → Option (Text × W)
  unfolding show_devs show_vtu_entry
  env_show_vtu ds w = headed (codes " VID   FID  SID  P  Q  F  0  1  2  3  4  5  6  7  8  9  a") (
      show_devs (λ d k. family_vtu_parse (chip_of d).family k) show_vtu_entry (load (codes "vtu"))
        vtu_entries 51 ds w)

  unfoldable pub env_show_stu : List Dev → W → Option (Text × W)
  unfolding show_devs show_stu_entry
  env_show_stu ds w = headed (codes "SID  0  1  2  3  4  5  6  7  8  9  a") (
      show_devs (λ d k. family_stu_parse (chip_of d).family k) show_stu_entry (load (codes "stu"))
        stu_entries 30 ds w)

module _ {W : Type 0} (load : Dev → Port → W → Load × W) where
  unfoldable pub show_ports : List Port → Dev → W → Option (Text × W)
  unfolding show_port regs_seen
  show_ports [] d w = some ([], w)
  show_ports (p ∷ ps) d w =
      let (got, w') = load d p w in
      elim (regs_seen got) [
        | none ↦ none
        | some regs ↦ elim (show_ports ps d w') [
          | none ↦ none
          | some (t, w'') ↦ some (show_port p regs ++ t, w'')
        ]
      ]

  unfoldable pub show_dev_ports : List Dev → W → Option (Text × W)
  unfolding show_ports
  show_dev_ports [] w = some ([], w)
  show_dev_ports (d ∷ ds) w = elim (show_ports d.ports d w) [
    | none ↦ none
    | some (t, w') ↦ elim (show_dev_ports ds w') [
      | none ↦ none
      | some (t', w'') ↦ some (out (dev_line 42 d ∷ t ∷ t' ∷ []), w'')
    ]
  ]

  unfoldable pub env_show_ports : List Dev → W → Option (Text × W)
  unfolding show_dev_ports
  env_show_ports ds w =
      headed (codes "NETDEV    P  LINK  MO  FL  S  L  .1Q  PVID   FID") (show_dev_ports ds w)
