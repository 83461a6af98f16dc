-- ===== src/Tool/Parse.antt =====
-- src/mdio/mdio.c: device addresses, registers, ranges and values from the command line.
pub mod Bounds
use mdio_tools.Prelude.{
  ℕ, ◌+◌, ◌-◌, ◌^◌, ◌%◌, ltb, ◌==◌, if◌then◌else◌, Bool, true, false, not, none, some, [], ◌∷◌, u16,
  u32,
}
use mdio_tools.Tool.Args.{Text, Argv, argv_pop, Result, ok, err, ◌>>=◌, einval, erange, Libc}
use mdio_tools.Tool.Device.{RegRange, Device}

abbrev u64 : ℕ → ℕ
u64 n = n % 18446744073709551616

module _ (c : Libc) where
  -- The code behind the label `c22`.
  parse_dev_c22 : ℕ → ℕ → Bool → Result ℕ
  parse_dev_c22 p d c45 =
      if ltb 31 p then err erange else ok (u16 (if c45 then c.phy_id_c45 p d else p))

  parse_dev_devad : ℕ → Text → Bool → Result ℕ
  parse_dev_devad p rest allow_c45 =
      if not allow_c45
      then err einval
      else let (d, end) = c.strtoul rest in
        elim end [
          | [] ↦ if ltb 31 d then err erange else parse_dev_c22 p d true
          | _ ∷ _ ↦ err einval
        ]

  -- mdio_parse_dev
  unfoldable pub parse_dev : Text → Bool → Result ℕ
  unfolding parse_dev_c22 parse_dev_devad
  parse_dev str allow_c45 =
      let (p, end) = c.strtoul str in
      elim end [
        | [] ↦ parse_dev_c22 p 0 false
        | a ∷ rest ↦ if a == b':' then parse_dev_devad p rest allow_c45 else err einval
      ]

  -- The bounds at the end of mdio_parse_range.
  range_within : ℕ → ℕ → ℕ → Result RegRange
  range_within max rs re =
      if ltb max rs
      then err erange
      else if ltb max re
      then err erange
      else ok (record { start = u32 rs; end = u32 re })

  range_tail : ℕ → Bool → ℕ → ℕ → Text → Result RegRange
  unfolding range_within
  range_tail max ranged rs base rest =
      if not ranged
      then err einval
      else let (re, _, errno) = c.strtoull rest in
        if errno then err einval else range_within max rs (u64 (re + base))

  -- mdio_parse_range
  unfoldable pub parse_range : ℕ → Bool → Text → Result RegRange
  unfolding range_within range_tail
  parse_range max ranged str =
      let (rs, end, errno) = c.strtoull str in
      if errno then err einval else elim end [
        | [] ↦ range_within max rs rs
        | a ∷ rest ↦
            if a == b'+'
            then range_tail max ranged rs rs rest
            else if a == b'-'
            then range_tail max ranged rs 0 rest
            else err einval
      ]

  -- mdio_device_dflt_parse_reg
  dflt_parse_reg : Device → Bool → Argv → Result (RegRange × Argv)
  dflt_parse_reg dev ranged args =
      let (arg, rest) = argv_pop args in
      elim arg [ none ↦ err einval | some a ↦ parse_range dev.max ranged a >>= λ r. ok (r, rest) ]

  -- mdio_device_parse_reg
  unfoldable pub device_parse_reg : Device → Bool → Argv → Result (RegRange × Argv)
  unfolding dflt_parse_reg argv_pop
  device_parse_reg dev ranged args = elim dev.driver.parse_reg [
    | some f ↦ f ranged args
    | none ↦ dflt_parse_reg dev ranged args
  ]

  val_within : ℕ → ℕ → ℕ → Argv → Result ((ℕ × ℕ) × Argv)
  val_within max v m args =
      if ltb max v then err erange else if ltb max m then err erange else ok ((u32 v, u32 m), args)

  -- What follows the value: nothing, or "/MASK".
  val_tail : ℕ → Bool → ℕ → Text → Argv → Result ((ℕ × ℕ) × Argv)
  unfolding val_within
  val_tail max masked v end args = elim end [
    | [] ↦ val_within max v 0 args
    | a ∷ rest ↦
        if not (a == b'/')
        then err einval
        else if not masked
        then err einval
        else let (m, end', _) = c.strtoull rest in
          elim end' [ [] ↦ val_within max v m args | _ ∷ _ ↦ err einval ]
  ]

  -- mdio_device_dflt_parse_val. The width of every device of the tool is 16, for which `(1 << width) - 1` in
  -- int is this power of two less 1.
  dflt_parse_val : Device → Bool → Argv → Result ((ℕ × ℕ) × Argv)
  unfolding val_tail argv_pop
  dflt_parse_val dev masked args = elim dev.driver.parse_val [
    | some f ↦ f masked args
    | none ↦
        let (arg, rest) = argv_pop args in
        elim arg [
          | none ↦ err einval
          | some str ↦
              let (v, end, _) = c.strtoull str in val_tail (2 ^ dev.width - 1) masked v end rest
        ]
  ]

  -- mdio_device_parse_val
  unfoldable pub device_parse_val : Device → Bool → Argv → Result ((ℕ × ℕ) × Argv)
  unfolding dflt_parse_val
  device_parse_val dev masked args = elim dev.driver.parse_val [
    | some f ↦ f masked args
    | none ↦ dflt_parse_val dev masked args
  ]
