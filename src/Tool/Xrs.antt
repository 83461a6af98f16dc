-- ===== src/Tool/Xrs.antt =====
-- src/mdio/xrs.c: Arrow/Flexibilis XRS700x devices, reached by an indirect address.
use mdio_tools.Prelude.{ℕ, ◌+◌, ◌*◌, ◌/◌, u16, true, none, some}
use mdio_tools.Isa.{Prog, insn, imm, reg, push, op_read, op_write}
use mdio_tools.Tool.Args.{Argv, argv_peek, argv_pop, Result, ok, err, Libc}
use mdio_tools.Tool.Device.{Driver}
use mdio_tools.Tool.Parse.{parse_dev}
use mdio_tools.Tool.Common.{Script, finish, common_exec}

abbrev pub xrs_iba0 : ℕ
xrs_iba0 = 0x10

abbrev pub xrs_iba1 : ℕ
xrs_iba1 = 0x11

abbrev pub xrs_ibd : ℕ
xrs_ibd = 0x14

-- `reg & 0xfffe` and `reg >> 16`, each in a `uint16_t`
abbrev pub iba_low : ℕ → ℕ
iba_low r = u16 r / 2 * 2

abbrev pub iba_high : ℕ → ℕ
iba_high r = u16 (r / 65536)

-- xrs_read
unfoldable pub xrs_read : ℕ → Prog → ℕ → Result Prog
xrs_read id prog r =
    let prog₁ = push prog (insn op_write (imm id) (imm xrs_iba1) (imm (iba_high r))) in
    let prog₂ = push prog₁ (insn op_write (imm id) (imm xrs_iba0) (imm (iba_low r))) in
    ok (push prog₂ (insn op_read (imm id) (imm xrs_ibd) (reg 0)))

-- xrs_write: `val` is an argument already, and the source wraps it in IMM once more.
unfoldable pub xrs_write : ℕ → Prog → ℕ → ℕ → Result Prog
xrs_write id prog r val =
    let prog₁ = push prog (insn op_write (imm id) (imm xrs_ibd) (imm val)) in
    let prog₂ = push prog₁ (insn op_write (imm id) (imm xrs_iba1) (imm (iba_high r))) in
    ok (push prog₂ (insn op_write (imm id) (imm xrs_iba0) (imm (iba_low r + 1))))

-- xrs_driver
abbrev pub xrs_driver : ℕ → Driver
xrs_driver id = record {
  read = xrs_read id;
  write = xrs_write id;
  dump = none;
  parse_reg = none;
  parse_val = none;
}

-- xrs_exec
unfoldable pub xrs_exec : Libc → Argv → Script
xrs_exec c args =
    let (arg, rest) = argv_pop args in
    elim arg [
      | none ↦ finish 1
      | some a ↦ elim (parse_dev c a true) [
        | err _ ↦ finish 1
        | ok id ↦ elim (argv_peek rest) [
          | none ↦ finish 1
          | some _ ↦
              common_exec c
                (record { driver = xrs_driver id; max = 4294967295; stride = 2; width = 16 }) rest
        ]
      ]
    ]
