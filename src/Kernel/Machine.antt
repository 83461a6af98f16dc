-- ===== src/Kernel/Machine.antt =====
-- kernel/mdio-netlink.c: `mdio_nl_eval`, the interpreter of a validated program.
-- A return value of 0 is success, and n stands for the error -n. Registers are `u16`, and the
-- program counter is an `unsigned int`. A failed BUG_ON is `crashed`.
use mdio_tools.Prelude.{
  ℕ, zero, suc, ◌+◌, ◌-◌, ◌/◌, ◌%◌, bit_and, bit_or, ◌==◌, ltb, if◌then◌else◌, Bool, not, Option,
  none, some, length, get_elem?, u16, u32,
}
use mdio_tools.Isa.{
  Insn, Prog, op_read, op_write, op_and, op_or, op_add, op_jeq, op_jne, op_emit, mode_reg, mode_imm,
}

-- What a call of the bus or of the message writer returns, with the state that it leaves.
pub data Reply (S : Type 0) : Type 0 where
  got : ℕ → S → Reply S
  fail : ℕ → S → Reply S

-- What the kernel provides: the MDIO bus with state `B`, the accessors of a PHY id, the message
-- writer with state `X`, and at which looks at the clock the time is up.
pub record Host (B X : Type 0) : Type 0 where
  pub is_c45 : ℕ → Bool
  pub prtad : ℕ → ℕ
  pub devad : ℕ → ℕ
  pub read : ℕ → ℕ → B → Reply B
  pub write : ℕ → ℕ → ℕ → B → Reply B
  pub c45_read : ℕ → ℕ → ℕ → B → Reply B
  pub c45_write : ℕ → ℕ → ℕ → ℕ → B → Reply B
  pub emit : ℕ → X → Reply X
  pub time_after : ℕ → Bool

pub record Machine (B X : Type 0) : Type 0 where
  pub regs : ℕ → ℕ
  pub pc : ℕ
  pub ticks : ℕ
  pub bus : B
  pub xfer : X

-- After one pass of the loop: it goes on, has returned, or has hit a BUG_ON.
pub data Status (B X : Type 0) : Type 0 where
  running : Machine B X → Status B X
  exited : ℕ → Machine B X → Status B X
  crashed : Status B X

abbrev pub etimedout : ℕ
etimedout = 110

abbrev pub einval : ℕ
einval = 22

unfoldable pub update : (ℕ → ℕ) → ℕ → ℕ → ℕ → ℕ
update regs r v k = if k == r then v else regs k

-- __arg_r, __arg_i and __arg_ri: the register's number, the immediate, the value
unfoldable pub arg_r : ℕ → Option ℕ
arg_r arg = if arg / 65536 == mode_reg then some (arg % 8) else none

unfoldable pub arg_i : ℕ → Option ℕ
arg_i arg = if arg / 65536 == mode_imm then some (arg % 65536) else none

unfoldable pub arg_ri : ℕ → (ℕ → ℕ) → Option ℕ
arg_ri arg regs =
    if arg / 65536 == mode_imm
    then some (arg % 65536)
    else if arg / 65536 == mode_reg
    then some (regs (arg % 8))
    else none

-- `pc += (s16)arg` on an unsigned int
unfoldable pub jump : ℕ → ℕ → ℕ
jump pc arg = u32 (pc + (if ltb arg 32768 then arg else arg + 4294967296 - 65536))

module _ {B X : Type 0} where
  abbrev pub advance_pc : Machine B X → Machine B X
  advance_pc m = record m { pc = u32 (m.pc + 1) }

  abbrev pub set_reg : ℕ → ℕ → Machine B X → Machine B X
  set_reg r v m = record m { regs = update m.regs r (u16 v) }

  infixl 5 ◌>>=◌
  abbrev pub ◌>>=◌ : Option ℕ → (ℕ → Status B X) → Status B X
  none >>= k = crashed
  some a >>= k = k a

module _ {B X : Type 0} (h : Host B X) where
  unfoldable pub bus_read : ℕ → ℕ → B → Reply B
  bus_read dev reg b =
      if h.is_c45 dev then h.c45_read (h.prtad dev) (h.devad dev) reg b else h.read dev reg b

  unfoldable pub bus_write : ℕ → ℕ → ℕ → B → Reply B
  bus_write dev reg val b =
      if h.is_c45 dev
      then h.c45_write (h.prtad dev) (h.devad dev) reg val b
      else h.write dev reg val b

  -- `ret < 0` leaves the loop with the error; the value is kept by the case at hand.
  abbrev pub on_bus : Machine B X → Reply B → (ℕ → Machine B X → Status B X) → Status B X
  on_bus m (got v b) k = k v (record m { bus = b })
  on_bus m (fail e b) k = exited e (record m { bus = b })

  abbrev pub on_xfer : Machine B X → Reply X → Status B X
  on_xfer m (got v x) = running (advance_pc (record m { xfer = x }))
  on_xfer m (fail e x) = exited e (record m { xfer = x })

  unfoldable pub step_read : Insn → Machine B X → Status B X
  step_read i m = do
    dev ← arg_ri i.arg0 m.regs
    reg ← arg_ri i.arg1 m.regs
    on_bus m (bus_read dev reg m.bus)
        λ v m'. do dst ← arg_r i.arg2; running (advance_pc (set_reg dst v m'))

  unfoldable pub step_write : Insn → Machine B X → Status B X
  step_write i m = do
    dev ← arg_ri i.arg0 m.regs
    reg ← arg_ri i.arg1 m.regs
    val ← arg_ri i.arg2 m.regs
    on_bus m (bus_write dev reg val m.bus) λ _ m'. running (advance_pc m')

  unfoldable pub step_alu : (ℕ → ℕ → ℕ) → Insn → Machine B X → Status B X
  step_alu f i m = do
    a ← arg_ri i.arg0 m.regs
    b ← arg_ri i.arg1 m.regs
    dst ← arg_r i.arg2
    running (advance_pc (set_reg dst (f a b) m))

  -- The offset is read only if the jump is taken.
  unfoldable pub step_jump : (ℕ → ℕ → Bool) → Insn → Machine B X → Status B X
  step_jump taken i m = do
    a ← arg_ri i.arg0 m.regs
    b ← arg_ri i.arg1 m.regs
    (if taken a b
        then (arg_i i.arg2 >>= λ off. running (advance_pc (record m { pc = jump m.pc off })))
        else running (advance_pc m))

  unfoldable pub step_emit : Insn → Machine B X → Status B X
  step_emit i m = arg_ri i.arg0 m.regs >>= λ v. on_xfer m (h.emit v m.xfer)

  -- The `switch` on the operation.
  unfoldable pub dispatch : ℕ → Insn → Machine B X → Status B X
  dispatch op i m =
      if op == op_read
      then step_read i m
      else if op == op_write
      then step_write i m
      else if op == op_and
      then step_alu bit_and i m
      else if op == op_or
      then step_alu bit_or i m
      else if op == op_add
      then step_alu (λ a b. a + b) i m
      else if op == op_jeq
      then step_jump (λ a b. a == b) i m
      else if op == op_jne
      then step_jump (λ a b. not (a == b)) i m
      else if op == op_emit
      then step_emit i m
      else exited einval m

  unfoldable pub step : Insn → Machine B X → Status B X
  unfolding dispatch
  step i m = dispatch i.op i m

  -- One pass of the `for` loop: its test, the look at the clock, and the body. A fetch outside
  -- the program counts as a crash.
  unfoldable pub advance : Prog → Machine B X → Status B X
  advance prog m =
      if ltb m.pc (length prog)
      then (if h.time_after m.ticks then exited etimedout m else elim (get_elem? prog m.pc) [
        | none ↦ crashed
        | some i ↦ step i (record m { ticks = suc m.ticks })
      ])
      else exited 0 m

  -- The loop, on fuel: `none` means that the fuel ran out.
  unfoldable pub eval : ℕ → Prog → Machine B X → Option (Status B X)
  eval zero prog m = none
  eval (suc fuel) prog m = elim (advance prog m) [
    | running m' ↦ eval fuel prog m'
    | exited ret m' ↦ some (exited ret m')
    | crashed ↦ some crashed
  ]
