-- ===== src/Kernel/Validate.antt =====
-- kernel/mdio-netlink.c: `mdio_nl_validate_insn` and `mdio_nl_validate_prog`, the check that a
-- program passes before it is run.
pub mod Accepted
use mdio_tools.Prelude.{
  ℕ, ◌+◌, ◌/◌, ◌%◌, ◌^◌, bit_and, ◌==◌, ltb, if◌then◌else◌, Bool, not, [], ◌∷◌,
}
use mdio_tools.Isa.{
  Insn, Prog, op_read, op_write, op_and, op_or, op_add, op_jeq, op_jne, op_emit, op_max, mode_none,
  mode_reg, mode_imm,
}
use mdio_tools.Kernel.Machine.{einval}

-- struct mdio_nl_op_proto: for each argument the set of modes that it may have, as a bit mask
pub record Proto : Type 0 where
  pub arg0 : ℕ
  pub arg1 : ℕ
  pub arg2 : ℕ

abbrev pub bit : ℕ → ℕ
bit n = 2 ^ n

abbrev pub r_or_i : ℕ
r_or_i = bit mode_reg + bit mode_imm

-- mdio_nl_op_protos: the entry of MDIO_NL_OP_UNSPEC is left out there, so it is all zero.
unfoldable pub op_proto : ℕ → Proto
op_proto op =
    if op == op_read
    then record { arg0 = r_or_i; arg1 = r_or_i; arg2 = bit mode_reg }
    else if op == op_write
    then record { arg0 = r_or_i; arg1 = r_or_i; arg2 = r_or_i }
    else if op == op_and
    then record { arg0 = r_or_i; arg1 = r_or_i; arg2 = bit mode_reg }
    else if op == op_or
    then record { arg0 = r_or_i; arg1 = r_or_i; arg2 = bit mode_reg }
    else if op == op_add
    then record { arg0 = r_or_i; arg1 = r_or_i; arg2 = bit mode_reg }
    else if op == op_jeq
    then record { arg0 = r_or_i; arg1 = r_or_i; arg2 = bit mode_imm }
    else if op == op_jne
    then record { arg0 = r_or_i; arg1 = r_or_i; arg2 = bit mode_imm }
    else if op == op_emit
    then record { arg0 = r_or_i; arg1 = bit mode_none; arg2 = bit mode_none }
    else record { arg0 = 0; arg1 = 0; arg2 = 0 }

-- The tests `!(BIT(arg >> 16) & proto)`.
unfoldable pub allowed : ℕ → ℕ → Bool
allowed arg mask = not (bit_and (bit (arg / 65536)) mask == 0)

-- The messages to the user are left out; they go with the error -EINVAL alike.
unfoldable pub validate_insn : Insn → ℕ
validate_insn i =
    if ltb op_max i.op
    then einval
    else if not (allowed i.arg0 (op_proto i.op).arg0)
    then einval
    else if not (allowed i.arg1 (op_proto i.op).arg1)
    then einval
    else if not (allowed i.arg2 (op_proto i.op).arg2)
    then einval
    else 0

unfoldable pub validate_insns : Prog → ℕ
validate_insns [] = 0
validate_insns (i ∷ prog) =
    let rest = validate_insns prog in let err = validate_insn i in if err == 0 then rest else err

-- `len` is the attribute's length in bytes, `prog` the whole instructions in it.
unfoldable pub validate_prog : ℕ → Prog → ℕ
unfolding validate_insns
validate_prog len prog = if len % 8 == 0 then validate_insns prog else einval
