-- ===== src/Tool/Access/Truncation.antt =====
-- src/mdio/xrs.c and src/mdio/mdio.c: what becomes of an argument that is wrapped twice, and of a
-- loop over a `uint32_t` up to its last value.
use mdio_tools.Prelude.{
  ℕ, zero, suc, ◌+◌, ◌<◌, leb, true, false, ◌≡◌, refl, ap, arith, ◌++◌, Option, none, some, length,
  u32,
}
use mdio_tools.Isa.{Prog, insn, imm, reg, push, op_emit}
use mdio_tools.Kernel.Machine.{Host}
use mdio_tools.Tool.Args.{ok}
use mdio_tools.Tool.Device.{Driver}
use mdio_tools.Tool.Common.{dump_regs}
use mdio_tools.Tool.Xrs.{xrs_write}
use mdio_tools.Tool.Access.{Reads}

imm-reg : (k : ℕ) → imm (reg k) ≡ imm k
unfolding imm reg
imm-reg k = ap (λ (n : ℕ). 131072 + n) (omega arith)

imm-imm : (k : ℕ) → imm (imm k) ≡ imm k
unfolding imm
imm-imm k = ap (λ (n : ℕ). 131072 + n) (omega arith)

-- The code of an XRS write of the register `k` is that of a write of the number `k`: the register's
-- value is lost.
pub xrs_write_literal :
    (id : ℕ) (prog : Prog) (r k : ℕ) → xrs_write id prog r (reg k) ≡ xrs_write id prog r (imm k)
unfolding xrs_write
xrs_write_literal id prog r k = rw (imm-reg k, imm-imm k)

-- The loop of `dump` for any driver that keeps the contract of a read.
module _ {B X : Type 0} {h : Host B X} {drv : Driver} {access : ℕ → B → Option (ℕ × B)}
    (reads : Reads h drv access) where
  -- The unrolled code of `n` registers from `r` on.
  unfoldable pub dump_code : ℕ → Prog → ℕ → Prog
  dump_code zero prog r = prog
  dump_code (suc n) prog r =
      dump_code n (push (prog ++ reads.code (length prog) r) (insn op_emit (reg 0) 0 0)) (r + 1)

  -- For a range of `n` registers that ends below the last value of a `uint32_t`, and with more fuel than
  -- that, the loop of `dump` ends and has unrolled, for a driver that keeps the contract of a read,
  -- one read and one EMIT for each register of the range, in order.
  pub dump_regs-code :
      (n fuel : ℕ) (prog : Prog) (r end : ℕ)
      → end + 1 ≡ r + n
      → end < 4294967295
      → n < fuel
      → dump_regs fuel drv prog r end ≡ some (ok (dump_code n prog r))
  unfolding dump_regs dump_code
  dump_regs-code n zero prog r end e lt enough = absurd (omega (arith, enough))
  dump_regs-code zero (suc fuel) prog r end e lt enough =
      let over : leb r end ≡ false = ground arith in rw (dump_regs, over)
  dump_regs-code (suc n) (suc fuel) prog r end e lt enough =
      let within : leb r end ≡ true = ground arith in
      let next : u32 (r + 1) ≡ r + 1 = omega arith in
      rw (dump_regs, within, reads.read_code prog r, next)
        (dump_regs-code n fuel
          (push (prog ++ reads.code (length prog) r) (insn op_emit (reg 0) 0 0)) (r + 1) end
          (omega arith) lt (omega arith))

  -- For a driver that keeps the contract of a read, a range that ends at the last value of a `uint32_t`
  -- makes the loop of `dump` run for ever: no fuel is enough.
  pub dump_regs_unbounded :
      (fuel : ℕ) (prog : Prog) (r : ℕ)
      → r < 4294967296
      → dump_regs fuel drv prog r 4294967295 ≡ none
  unfolding dump_regs
  dump_regs_unbounded zero prog r lt = refl
  dump_regs_unbounded (suc fuel) prog r lt =
      let within : leb r 4294967295 ≡ true = ground arith in
      rw (dump_regs, within, reads.read_code prog r)
        (dump_regs_unbounded fuel
          (push (prog ++ reads.code (length prog) r) (insn op_emit (reg 0) 0 0)) (u32 (r + 1))
          (omega arith))
