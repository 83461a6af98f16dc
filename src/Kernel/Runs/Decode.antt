-- ===== src/Kernel/Runs/Decode.antt =====
-- kernel/mdio-netlink.c against src/mdio/mdio.h: the interpreter's accessors take apart what the
-- tool's macros put together.
use mdio_tools.Prelude.{ℕ, ◌+◌, ◌-◌, ◌*◌, ◌%◌, ◌<◌, ◌≤◌, ◌≡◌, ap, arith, some, u16, u32}
use mdio_tools.Isa.{reg, imm, goto}
use mdio_tools.Kernel.Machine.{arg_r, arg_i, arg_ri, jump}

pub arg_ri-imm : (n : ℕ) (regs : ℕ → ℕ) → arg_ri (imm n % 262144) regs ≡ some (u16 n)
unfolding arg_ri imm
arg_ri-imm n regs = ground arith

reg_index : (r : ℕ) → (1 * 65536 + u16 r) % 262144 % 8 ≡ r % 8
reg_index r = omega arith

pub arg_ri-reg : (r : ℕ) (regs : ℕ → ℕ) → arg_ri (reg r % 262144) regs ≡ some (regs (r % 8))
unfolding arg_ri reg
arg_ri-reg r regs = ground (arith, ap regs (reg_index r))

pub arg_r-reg : (r : ℕ) → arg_r (reg r % 262144) ≡ some (r % 8)
unfolding arg_r reg
arg_r-reg r = ground arith

pub arg_i-imm : (n : ℕ) → arg_i (imm n % 262144) ≡ some (u16 n)
unfolding arg_i imm
arg_i-imm n = ground arith

pub arg_i-goto :
    (from to : ℕ) → arg_i (goto from to % 262144) ≡ some (u16 (to + 4294967296 - from - 1))
unfolding arg_i goto
arg_i-goto from to = ground arith

-- A backward jump by GOTO from `from` comes to `to`, after the loop's own increment.
pub jump-goto :
    (from to : ℕ)
    → to ≤ from
    → from < to + 32768
    → from < 4294967296
    → u32 (jump from (u16 (to + 4294967296 - from - 1)) + 1) ≡ to
unfolding jump
jump-goto from to le near lt = ground arith

-- A forward jump by a small immediate skips as many instructions.
pub jump-forward :
    (pc n : ℕ) → n < 32768 → pc + n + 1 < 4294967296 → u32 (jump pc (u16 n) + 1) ≡ pc + n + 1
unfolding jump
jump-forward pc n lt fits = ground arith
