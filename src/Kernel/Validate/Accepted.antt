-- ===== src/Kernel/Validate/Accepted.antt =====
-- kernel/mdio-netlink.c against src/mdio/mdio.h: the validation accepts the instructions that the
-- tool's macros make.
use mdio_tools.Prelude.{ℕ, ◌*◌, ◌/◌, ◌%◌, ◌≡◌, refl, arith, [], ◌∷◌, All, length}
use mdio_tools.Isa.{Prog, Insn, insn, reg, imm, op_read, op_write, op_jeq, op_emit}
use mdio_tools.Kernel.Validate.{allowed, op_proto, validate_insn, validate_insns, validate_prog}

abbrev pub IsAccepted : Insn → Type 0
IsAccepted i = validate_insn i ≡ 0

mode-imm : (n : ℕ) → imm n % 262144 / 65536 ≡ 2
unfolding imm
mode-imm n = omega arith

mode-reg : (r : ℕ) → reg r % 262144 / 65536 ≡ 1
unfolding reg
mode-reg r = omega arith

module _ (a b r : ℕ) where
  pub read-IsAccepted : IsAccepted (insn op_read (imm a) (imm b) (reg r))
  unfolding insn validate_insn op_proto allowed
  read-IsAccepted = rw (mode-imm a, mode-imm b, mode-reg r)

  pub write_imm-IsAccepted : IsAccepted (insn op_write (imm a) (imm b) (imm r))
  unfolding insn validate_insn op_proto allowed
  write_imm-IsAccepted = rw (mode-imm a, mode-imm b, mode-imm r)

  pub write_reg-IsAccepted : IsAccepted (insn op_write (imm a) (imm b) (reg r))
  unfolding insn validate_insn op_proto allowed
  write_reg-IsAccepted = rw (mode-imm a, mode-imm b, mode-reg r)

  pub jeq-IsAccepted : IsAccepted (insn op_jeq (reg a) (imm b) (imm r))
  unfolding insn validate_insn op_proto allowed
  jeq-IsAccepted = rw (mode-reg a, mode-imm b, mode-imm r)

pub emit-IsAccepted : (r : ℕ) → IsAccepted (insn op_emit (reg r) 0 0)
unfolding insn validate_insn op_proto allowed
emit-IsAccepted r = rw (mode-reg r)

insns-IsAccepted : (prog : Prog) → All IsAccepted prog → validate_insns prog ≡ 0
unfolding validate_insns
insns-IsAccepted [] h = refl
insns-IsAccepted (i ∷ prog) (e, h) = rw (e, insns-IsAccepted prog h)

-- A program of accepted instructions is accepted.
pub validate_prog-accepts :
    (prog : Prog) → All IsAccepted prog → validate_prog (length prog * 8) prog ≡ 0
unfolding validate_prog
validate_prog-accepts prog h =
    let whole : length prog * 8 % 8 ≡ 0 = omega arith in rw (whole, insns-IsAccepted prog h)
