-- ===== src/Tool/Typed.antt =====
-- src/mdio: the programs that the drivers and the commands build, against the kernel's validation.
pub mod Drivers
pub mod Commands
use mdio_tools.Prelude.{ℕ, ◌+◌, ◌-◌, ◌*◌, ◌/◌, ◌%◌, ◌≡◌, refl, arith, true, All, [], ◌∷◌, ◌++◌}
use mdio_tools.Isa.{
  Prog, Insn, insn, reg, imm, goto, push, op_read, op_write, op_and, op_or, op_add, op_jeq, op_jne,
  op_emit,
}
use mdio_tools.Kernel.Validate.{allowed, op_proto, validate_insn}
use mdio_tools.Kernel.Validate.Accepted.{IsAccepted}
use mdio_tools.Tool.Args.{ok}
use mdio_tools.Tool.Device.{Driver}

-- An argument that REG or IMM makes.
pub data IsSource : ℕ → Type 0 where
  a_reg : (r : ℕ) → IsSource (reg r)
  an_imm : (n : ℕ) → IsSource (imm n)

IsSource-allowed : {a : ℕ} → IsSource a → allowed (a % 262144) 6 ≡ true
unfolding allowed reg imm
IsSource-allowed (a_reg r) =
    let e : (1 * 65536 + r % 65536) % 262144 / 65536 ≡ 1 = omega arith in rw e
IsSource-allowed (an_imm n) =
    let e : (2 * 65536 + n % 65536) % 262144 / 65536 ≡ 2 = omega arith in rw e

reg-allowed : (r : ℕ) → allowed (reg r % 262144) 2 ≡ true
unfolding allowed reg
reg-allowed r = let e : (1 * 65536 + r % 65536) % 262144 / 65536 ≡ 1 = omega arith in rw e

imm-allowed : (n : ℕ) → allowed (imm n % 262144) 4 ≡ true
unfolding allowed imm
imm-allowed n = let e : (2 * 65536 + n % 65536) % 262144 / 65536 ≡ 2 = omega arith in rw e

goto-allowed : (from to : ℕ) → allowed (goto from to % 262144) 4 ≡ true
unfolding allowed goto
goto-allowed from to =
    let k = to + 4294967296 - from - 1 in
    let e : (2 * 65536 + k % 65536) % 262144 / 65536 ≡ 2 = omega arith in rw e

module _ {a b : ℕ} (sa : IsSource a) (sb : IsSource b) where
  pub read_typed : (r : ℕ) → IsAccepted (insn op_read a b (reg r))
  unfolding insn validate_insn op_proto
  read_typed r = rw (IsSource-allowed sa, IsSource-allowed sb, reg-allowed r)

  pub and_typed : (r : ℕ) → IsAccepted (insn op_and a b (reg r))
  unfolding insn validate_insn op_proto
  and_typed r = rw (IsSource-allowed sa, IsSource-allowed sb, reg-allowed r)

  pub or_typed : (r : ℕ) → IsAccepted (insn op_or a b (reg r))
  unfolding insn validate_insn op_proto
  or_typed r = rw (IsSource-allowed sa, IsSource-allowed sb, reg-allowed r)

  pub add_typed : (r : ℕ) → IsAccepted (insn op_add a b (reg r))
  unfolding insn validate_insn op_proto
  add_typed r = rw (IsSource-allowed sa, IsSource-allowed sb, reg-allowed r)

  pub write_typed : {v : ℕ} → IsSource v → IsAccepted (insn op_write a b v)
  unfolding insn validate_insn op_proto
  write_typed sv = rw (IsSource-allowed sa, IsSource-allowed sb, IsSource-allowed sv)

  pub jeq_typed : (n : ℕ) → IsAccepted (insn op_jeq a b (imm n))
  unfolding insn validate_insn op_proto
  jeq_typed n = rw (IsSource-allowed sa, IsSource-allowed sb, imm-allowed n)

  pub jeq_goto_typed : (from to : ℕ) → IsAccepted (insn op_jeq a b (goto from to))
  unfolding insn validate_insn op_proto
  jeq_goto_typed from to = rw (IsSource-allowed sa, IsSource-allowed sb, goto-allowed from to)

  pub jne_goto_typed : (from to : ℕ) → IsAccepted (insn op_jne a b (goto from to))
  unfolding insn validate_insn op_proto
  jne_goto_typed from to = rw (IsSource-allowed sa, IsSource-allowed sb, goto-allowed from to)

pub emit_typed : {a : ℕ} → IsSource a → IsAccepted (insn op_emit a 0 0)
unfolding insn validate_insn op_proto allowed
emit_typed sa = rw (IsSource-allowed sa)

-- A program of accepted instructions.
abbrev pub Typed : Prog → Type 0
Typed prog = All IsAccepted prog

pub push-Typed : (prog : Prog) (i : Insn) → Typed prog → IsAccepted i → Typed (push prog i)
unfolding push
push-Typed [] i h e = (e, tt)
push-Typed (j ∷ prog) i (k, h) e = (k, push-Typed prog i h e)

-- Drivers that do not fail, and that append accepted code only.
pub record TypedDriver (drv : Driver) : Type 0 where
  pub reads :
      (prog : Prog) (r : ℕ)
      → Typed prog
      → (prog' : Prog) × (drv.read prog r ≡ ok prog') × Typed prog'
  pub writes :
      (prog : Prog) (r : ℕ) {arg : ℕ}
      → IsSource arg
      → Typed prog
      → (prog' : Prog) × (drv.write prog r arg ≡ ok prog') × Typed prog'
