-- ===== src/Tool/Phy.antt =====
-- src/mdio/phy.c: PHYs and MMDs, addressed by Clause 22, by Clause 45, or by Clause 45 over the
-- registers 13 and 14 of Clause 22.
use mdio_tools.Prelude.{
  ℕ, ◌-◌, ◌==◌, if◌then◌else◌, true, false, not, ◌&&◌, ◌||◌, none, some, List, [], ◌∷◌, bit_or, u8,
  get_or, length,
}
use mdio_tools.Isa.{Prog, insn, imm, reg, push, op_read, op_write, op_add, op_jne, op_emit}
use mdio_tools.Tool.Args.{codes, text_eq, Argv, argv_peek, argv_pop, Result, ok, err, Libc}
use mdio_tools.Tool.Device.{Driver, Device}
use mdio_tools.Tool.Parse.{parse_dev}
use mdio_tools.Tool.Common.{Request, Script, finish, send, common_exec, phy_status, mmd_status}

-- phy_read and phy_write
unfoldable pub phy_read : ℕ → Prog → ℕ → Result Prog
phy_read id prog r = ok (push prog (insn op_read (imm id) (imm r) (reg 0)))

unfoldable pub phy_write : ℕ → Prog → ℕ → ℕ → Result Prog
phy_write id prog r val = ok (push prog (insn op_write (imm id) (imm r) val))

-- phy_driver
abbrev pub phy_driver : ℕ → Driver
phy_driver id = record {
  read = phy_read id;
  write = phy_write id;
  dump = none;
  parse_reg = none;
  parse_val = none;
}

-- phy_exec_status
unfoldable pub phy_exec_status : ℕ → Request
phy_exec_status id = record {
  prog =
      insn op_read (imm id) (imm 0) (reg 0)
      ∷ insn op_emit (reg 0) 0 0
      ∷ insn op_read (imm id) (imm 1) (reg 0)
      ∷ insn op_emit (reg 0) 0 0
      ∷ insn op_read (imm id) (imm 2) (reg 0)
      ∷ insn op_emit (reg 0) 0 0
      ∷ insn op_read (imm id) (imm 3) (reg 0)
      ∷ insn op_emit (reg 0) 0 0
      ∷ insn op_read (imm id) (imm 15) (reg 0)
      ∷ insn op_emit (reg 0) 0 0
      ∷ [];
  timeout = 1000;
  callback = phy_status;
}

-- phy_status_cb without what it prints: 1 for a reply of the wrong length or with no device.
unfoldable pub phy_status_cb : List ℕ → ℕ → ℕ
phy_status_cb data' e =
    if not (length data' == 5)
    then 1
    else if (get_or data' 2 0 == 0xffff) && (get_or data' 3 0 == 0xffff)
    then 1
    else e

-- mmd_status_cb, likewise
unfoldable pub mmd_status_cb : List ℕ → ℕ → ℕ
mmd_status_cb data' e =
    if not (length data' == 16)
    then 1
    else if ((get_or data' 2 0 == 0xffff) && (get_or data' 3 0 == 0xffff))
        || ((get_or data' 2 0 == 0) && (get_or data' 3 0 == 0))
    then 1
    else e

module _ (c : Libc) where
  -- The choice that ends `phy_exec` and `mmd_exec_with`: the status without further arguments.
  status_or : (Argv → Script) → Request → Argv → Script
  status_or other status args = elim (argv_peek args) [
    | none ↦ send status (finish 0)
    | some a ↦ if text_eq a (codes "status") then send status (finish 0) else other args
  ]

  -- phy_exec: the requests that it sends and its exit status
  unfoldable pub phy_exec : Argv → Script
  unfolding status_or
  phy_exec args =
      let (arg, rest) = argv_pop args in
      elim arg [
        | none ↦ finish 1
        | some a ↦ elim (parse_dev c a false) [
          | err _ ↦ finish 1
          | ok id ↦
              let dev : Device = record {
                driver = phy_driver id;
                max = 31;
                stride = 1;
                width = 16;
              } in
              status_or (common_exec c dev) (phy_exec_status id) rest
        ]
      ]

  -- mmd_exec_status: a loop over the registers 0 to 15, whose jump is IMM(-4)
  unfoldable pub mmd_exec_status : ℕ → Request
  mmd_exec_status id = record {
    prog =
        insn op_add (imm 0) (imm 0) (reg 1)
        ∷ insn op_read (imm id) (reg 1) (reg 0)
        ∷ insn op_emit (reg 0) 0 0
        ∷ insn op_add (reg 1) (imm 1) (reg 1)
        ∷ insn op_jne (reg 1) (imm 16) (imm (65536 - 4))
        ∷ [];
    timeout = 1000;
    callback = mmd_status;
  }

  -- mmd_exec_with
  unfoldable pub mmd_exec_with : (ℕ → Driver) → Argv → Script
  unfolding status_or mmd_exec_status
  mmd_exec_with drv args =
      let (arg, rest) = argv_pop args in
      elim arg [
        | none ↦ finish 1
        | some a ↦ elim (parse_dev c a true) [
          | err _ ↦ finish 1
          | ok id ↦
              if not (c.phy_id_is_c45 id)
              then finish 1
              else let dev : Device = record {
                driver = drv id;
                max = 65535;
                stride = 1;
                width = 16;
              } in
                status_or (common_exec c dev) (mmd_exec_status id) rest
        ]
      ]

  unfoldable pub mmd_exec : Argv → Script
  mmd_exec args = mmd_exec_with phy_driver args

  -- The port of a Clause 45 PHY id and its device, each kept in a `uint8_t`.
  unfoldable pub mmd_prtad : ℕ → ℕ
  mmd_prtad id = u8 (c.phy_id_prtad id)

  unfoldable pub mmd_devad : ℕ → ℕ
  mmd_devad id = u8 (c.phy_id_devad id)

  -- mmd_c22_read: the address, then the data, through the registers 13 and 14
  unfoldable pub mmd_c22_read : ℕ → Prog → ℕ → Result Prog
  mmd_c22_read id prog r =
      let port = mmd_prtad id in
      let ctrl = mmd_devad id in
      let prog₁ = push prog (insn op_write (imm port) (imm 13) (imm ctrl)) in
      let prog₂ = push prog₁ (insn op_write (imm port) (imm 14) (imm r)) in
      let prog₃ = push prog₂ (insn op_write (imm port) (imm 13) (imm (bit_or ctrl 0x4000))) in
      ok (push prog₃ (insn op_read (imm port) (imm 14) (reg 0)))

  -- mmd_c22_write
  unfoldable pub mmd_c22_write : ℕ → Prog → ℕ → ℕ → Result Prog
  mmd_c22_write id prog r val =
      let port = mmd_prtad id in
      let ctrl = mmd_devad id in
      let prog₁ = push prog (insn op_write (imm port) (imm 13) (imm ctrl)) in
      let prog₂ = push prog₁ (insn op_write (imm port) (imm 14) (imm r)) in
      let prog₃ = push prog₂ (insn op_write (imm port) (imm 13) (imm (bit_or ctrl 0x4000))) in
      ok (push prog₃ (insn op_write (imm port) (imm 14) val))

  -- mmd_c22_driver
  abbrev pub mmd_c22_driver : ℕ → Driver
  mmd_c22_driver id = record {
    read = mmd_c22_read id;
    write = mmd_c22_write id;
    dump = none;
    parse_reg = none;
    parse_val = none;
  }

  unfoldable pub mmd_c22_exec : Argv → Script
  mmd_c22_exec args = mmd_exec_with mmd_c22_driver args
