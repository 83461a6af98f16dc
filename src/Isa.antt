-- ===== src/Isa.antt =====
-- The instruction set of the MDIO netlink interface: include/linux/mdio-netlink.h, and the
-- macros of src/mdio/mdio.h by which the tool assembles instructions.
-- An argument is 18 bits wide: a mode in bits 16 and 17, and a payload below.
use mdio_tools.Prelude.{ℕ, ◌+◌, ◌-◌, ◌*◌, ◌%◌, u16, List, [], ◌∷◌, ◌++◌}

-- enum mdio_nl_op
abbrev pub op_unspec : ℕ
op_unspec = 0

abbrev pub op_read : ℕ
op_read = 1

abbrev pub op_write : ℕ
op_write = 2

abbrev pub op_and : ℕ
op_and = 3

abbrev pub op_or : ℕ
op_or = 4

abbrev pub op_add : ℕ
op_add = 5

abbrev pub op_jeq : ℕ
op_jeq = 6

abbrev pub op_jne : ℕ
op_jne = 7

abbrev pub op_emit : ℕ
op_emit = 8

abbrev pub op_max : ℕ
op_max = 8

-- enum mdio_nl_argmode
abbrev pub mode_none : ℕ
mode_none = 0

abbrev pub mode_reg : ℕ
mode_reg = 1

abbrev pub mode_imm : ℕ
mode_imm = 2

-- struct mdio_nl_insn
pub record Insn : Type 0 where
  pub op : ℕ
  pub reserved : ℕ
  pub arg0 : ℕ
  pub arg1 : ℕ
  pub arg2 : ℕ

abbrev pub Prog : Type 0
Prog = List Insn

-- REG(_r), IMM(_n) and INVALID
unfoldable pub reg : ℕ → ℕ
reg r = mode_reg * 65536 + u16 r

unfoldable pub imm : ℕ → ℕ
imm n = mode_imm * 65536 + u16 n

-- GOTO(_from, _to): the difference is an `int`, cut to 16 bits. Both are positions in a program, below 2^31.
unfoldable pub goto : ℕ → ℕ → ℕ
goto from to = mode_imm * 65536 + u16 (to + 4294967296 - from - 1)

-- INSN(_op, _a0, _a1, _a2): a bit field of 18 bits keeps the low bits of what it is given.
unfoldable pub insn : ℕ → ℕ → ℕ → ℕ → Insn
insn op a0 a1 a2 = record {
  op = op % 256;
  reserved = 0;
  arg0 = a0 % 262144;
  arg1 = a1 % 262144;
  arg2 = a2 % 262144;
}

-- mdio_prog_push
unfoldable pub push : Prog → Insn → Prog
push prog i = prog ++ i ∷ []
