-- ===== src/Tool/Bus.antt =====
-- src/mdio/bus.c and src/mdio/main.c: the status of a bus, and the choice of the command.
use mdio_tools.Prelude.{
  ℕ, ◌-◌, ◌*◌, ◌==◌, if◌then◌else◌, not, ◌||◌, Bool, false, Option, none, some, List, [], ◌∷◌,
  length,
}
use mdio_tools.Isa.{insn, imm, reg, op_read, op_add, op_jne, op_emit}
use mdio_tools.Tool.Args.{Text, codes, text_eq, Argv, argv_peek, argv_pop, Libc}
use mdio_tools.Tool.Common.{Request, Script, finish, send, bus_status}
use mdio_tools.Tool.Phy.{phy_exec, mmd_exec, mmd_c22_exec}
use mdio_tools.Tool.Paged.{mva_exec, mscc_exec}
use mdio_tools.Tool.Xrs.{xrs_exec}
use mdio_tools.Tool.LinkStreet.Commands.{mvls_exec}

abbrev pub mdio_dev_max : ℕ
mdio_dev_max = 32

-- bus_status: the registers 1, 2 and 3 of every device; the jump is IMM(-8).
unfoldable pub bus_request : Request
bus_request = record {
  prog =
      insn op_add (imm 0) (imm 0) (reg 1)
      ∷ insn op_read (reg 1) (imm 1) (reg 0)
      ∷ insn op_emit (reg 0) 0 0
      ∷ insn op_read (reg 1) (imm 2) (reg 0)
      ∷ insn op_emit (reg 0) 0 0
      ∷ insn op_read (reg 1) (imm 3) (reg 0)
      ∷ insn op_emit (reg 0) 0 0
      ∷ insn op_add (reg 1) (imm 1) (reg 1)
      ∷ insn op_jne (reg 1) (imm mdio_dev_max) (imm (65536 - 8))
      ∷ [];
  timeout = 1000;
  callback = bus_status;
}

-- bus_status_cb, without what it prints
unfoldable pub bus_status_cb : List ℕ → ℕ → ℕ
bus_status_cb words e = if not (length words == mdio_dev_max * 3) then 1 else e

-- `strchr(arg, ':')`
has_colon : Text → Bool
has_colon [] = false
has_colon (a ∷ t) = a == b':' || has_colon t

-- The commands that are registered by DEFINE_CMD, in the order of the sources of
-- src/mdio/Makefile.am. Their names differ, so the order does not matter.
find_cmd : Libc → Text → Option (Argv → Script)
find_cmd c a =
    if text_eq a (codes "mva")
    then some (mva_exec c)
    else if text_eq a (codes "mscc")
    then some (mscc_exec c)
    else if text_eq a (codes "mvls")
    then some (mvls_exec c)
    else if text_eq a (codes "phy")
    then some (phy_exec c)
    else if text_eq a (codes "mmd")
    then some (mmd_exec c)
    else if text_eq a (codes "mmd-c22")
    then some (mmd_c22_exec c)
    else if text_eq a (codes "xrs")
    then some (xrs_exec c)
    else none

-- The end of `main`, from the argument behind the bus on: its exit status is 1 for every error.
unfoldable pub main_object : Libc → Argv → Script
unfolding has_colon find_cmd
main_object c args = elim (argv_peek args) [
  | none ↦ send bus_request (finish 0)
  | some a ↦ elim (find_cmd c a) [
    | some exec ↦ exec (argv_pop args).1
    | none ↦ if has_colon a then mmd_exec c args else phy_exec c args
  ]
]
