-- ===== src/Kernel/Runs.antt =====
-- kernel/mdio-netlink.c: what single instructions of a program do, as passes of the loop of
-- `mdio_nl_eval` that can be put together.
pub mod Decode
use mdio_tools.Prelude.{
  ℕ, zero, suc, ◌+◌, ◌%◌, ◌<◌, ◌≤◌, Bool, not, true, false, ◌≡◌, refl, sym, arith, List, [], ◌∷◌,
  ◌++◌, Option, none, some, length, get_elem?, lt→ltb, not_lt→ltb, bit_and, bit_or, ◌==◌, u16, u32,
  ltb,
}
use mdio_tools.Isa.{
  Insn, Prog, insn, op_read, op_write, op_and, op_or, op_add, op_jeq, op_jne, op_emit, reg, imm,
}
use mdio_tools.Kernel.Machine.{
  Host, Machine, Status, running, exited, crashed, got, fail, arg_r, arg_i, arg_ri, update, jump,
  bus_read, bus_write, step_read, step_write, step_alu, step_jump, step_emit, dispatch, step,
  advance, eval,
}
use mdio_tools.Kernel.Runs.Decode.{arg_r-reg}

-- A machine by its components.
abbrev pub mach : {B X : Type 0} → (ℕ → ℕ) → ℕ → ℕ → B → X → Machine B X
mach regs pc ticks bus xfer = record { regs = regs; pc = pc; ticks = ticks; bus = bus; xfer = xfer }

-- `code` stands in `prog` from `pc` on.
abbrev pub At : Prog → ℕ → Prog → Type 0
At prog pc [] = Unit
At prog pc (i ∷ code) = (get_elem? prog pc ≡ some i) × At prog (pc + 1) code

pub At-bound : (prog : Prog) (pc : ℕ) (i : Insn) → get_elem? prog pc ≡ some i → pc < length prog
At-bound [] pc i e = cc
At-bound (j ∷ prog) zero i e = omega arith
At-bound (j ∷ prog) (suc pc) i e = omega (arith, At-bound prog pc i e)

-- No look at the clock finds the time up, and positions fit the program counter.
pub record Calm {B X : Type 0} (h : Host B X) (prog : Prog) : Type 0 where
  pub in_time : (n : ℕ) → h.time_after n ≡ false
  pub short : length prog < 4294967296

-- Passes of the loop, from one machine to another.
pub data Runs {B X : Type 0} (h : Host B X) (prog : Prog) : Machine B X → Machine B X → Type 0 where
  here : {m : Machine B X} → Runs h prog m m
  pass :
      {m m' m'' : Machine B X}
      → advance h prog m ≡ running m'
      → Runs h prog m' m''
      → Runs h prog m m''

module _ {B X : Type 0} {h : Host B X} {prog : Prog} where
  pub Runs-trans :
      {m m' m'' : Machine B X} → Runs h prog m m' → Runs h prog m' m'' → Runs h prog m m''
  Runs-trans here r = r
  Runs-trans (pass e q) r = pass e (Runs-trans q r)

  pub Runs-move :
      {m : Machine B X} {regs : ℕ → ℕ} {pc t : ℕ} {b : B} {x : X} (to : ℕ)
      → pc ≡ to
      → Runs h prog m (mach regs pc t b x)
      → Runs h prog m (mach regs to t b x)
  Runs-move to e r = rw e at r

module _ {B X : Type 0} {h : Host B X} {prog : Prog} (calm : Calm h prog) where
  -- A pass is a step by the instruction at the program counter.
  advance-at :
      (regs : ℕ → ℕ) (pc t : ℕ) (b : B) (x : X) {i : Insn}
      → get_elem? prog pc ≡ some i
      → advance h prog (mach regs pc t b x) ≡ step h i (mach regs pc (suc t) b x)
  unfolding advance
  advance-at regs pc t b x e = rw (lt→ltb _ _ (At-bound prog pc _ e), calm.in_time t, e)

  pub next_pc : (pc : ℕ) {i : Insn} → get_elem? prog pc ≡ some i → u32 (pc + 1) ≡ pc + 1
  next_pc pc e = omega (arith, At-bound prog pc _ e, calm.short)

  module _ (regs : ℕ → ℕ) (pc t : ℕ) (b : B) (x : X) where
    pub run-read :
        (a0 a1 r : ℕ) {dev rg v : ℕ} {b' : B}
        → get_elem? prog pc ≡ some (insn op_read a0 a1 (reg r))
        → arg_ri (a0 % 262144) regs ≡ some dev
        → arg_ri (a1 % 262144) regs ≡ some rg
        → bus_read h dev rg b ≡ got v b'
        → advance h prog (mach regs pc t b x)
          ≡ running (mach (update regs (r % 8) (u16 v)) (pc + 1) (suc t) b' x)
    unfolding step dispatch insn step_read
    run-read a0 a1 r e p q d = rw (advance-at regs pc t b x e, p, q, d, arg_r-reg, next_pc pc e)

    pub run-write :
        (a0 a1 a2 : ℕ) {dev rg val v : ℕ} {b' : B}
        → get_elem? prog pc ≡ some (insn op_write a0 a1 a2)
        → arg_ri (a0 % 262144) regs ≡ some dev
        → arg_ri (a1 % 262144) regs ≡ some rg
        → arg_ri (a2 % 262144) regs ≡ some val
        → bus_write h dev rg val b ≡ got v b'
        → advance h prog (mach regs pc t b x) ≡ running (mach regs (pc + 1) (suc t) b' x)
    unfolding step dispatch insn step_write
    run-write a0 a1 a2 e p q r d = rw (advance-at regs pc t b x e, p, q, r, d, next_pc pc e)

    pub run-add :
        (a0 a1 r : ℕ) {v w : ℕ}
        → get_elem? prog pc ≡ some (insn op_add a0 a1 (reg r))
        → arg_ri (a0 % 262144) regs ≡ some v
        → arg_ri (a1 % 262144) regs ≡ some w
        → advance h prog (mach regs pc t b x)
          ≡ running (mach (update regs (r % 8) (u16 (v + w))) (pc + 1) (suc t) b x)
    unfolding step dispatch insn step_alu
    run-add a0 a1 r e p q = rw (advance-at regs pc t b x e, p, q, arg_r-reg, next_pc pc e)

    pub run-and :
        (a0 a1 r : ℕ) {v w : ℕ}
        → get_elem? prog pc ≡ some (insn op_and a0 a1 (reg r))
        → arg_ri (a0 % 262144) regs ≡ some v
        → arg_ri (a1 % 262144) regs ≡ some w
        → advance h prog (mach regs pc t b x)
          ≡ running (mach (update regs (r % 8) (u16 (bit_and v w))) (pc + 1) (suc t) b x)
    unfolding step dispatch insn step_alu
    run-and a0 a1 r e p q = rw (advance-at regs pc t b x e, p, q, arg_r-reg, next_pc pc e)

    pub run-or :
        (a0 a1 r : ℕ) {v w : ℕ}
        → get_elem? prog pc ≡ some (insn op_or a0 a1 (reg r))
        → arg_ri (a0 % 262144) regs ≡ some v
        → arg_ri (a1 % 262144) regs ≡ some w
        → advance h prog (mach regs pc t b x)
          ≡ running (mach (update regs (r % 8) (u16 (bit_or v w))) (pc + 1) (suc t) b x)
    unfolding step dispatch insn step_alu
    run-or a0 a1 r e p q = rw (advance-at regs pc t b x e, p, q, arg_r-reg, next_pc pc e)

    pub run-emit :
        (a0 a1 a2 : ℕ) {v n : ℕ} {x' : X}
        → get_elem? prog pc ≡ some (insn op_emit a0 a1 a2)
        → arg_ri (a0 % 262144) regs ≡ some v
        → h.emit v x ≡ got n x'
        → advance h prog (mach regs pc t b x) ≡ running (mach regs (pc + 1) (suc t) b x')
    unfolding step dispatch insn step_emit
    run-emit a0 a1 a2 e p d = rw (advance-at regs pc t b x e, p, d, next_pc pc e)

    -- Jumps, taken and not taken: to `to` in the first case.
    pub run-jeq_taken :
        (a0 a1 a2 to : ℕ) {v w off : ℕ}
        → get_elem? prog pc ≡ some (insn op_jeq a0 a1 a2)
        → arg_ri (a0 % 262144) regs ≡ some v
        → arg_ri (a1 % 262144) regs ≡ some w
        → arg_i (a2 % 262144) ≡ some off
        → (v == w) ≡ true
        → u32 (jump pc off + 1) ≡ to
        → advance h prog (mach regs pc t b x) ≡ running (mach regs to (suc t) b x)
    unfolding step dispatch insn step_jump
    run-jeq_taken a0 a1 a2 to e p q o c j = rw (advance-at regs pc t b x e, p, q, c, o, j)

    pub run-jeq_passed :
        (a0 a1 a2 : ℕ) {v w : ℕ}
        → get_elem? prog pc ≡ some (insn op_jeq a0 a1 a2)
        → arg_ri (a0 % 262144) regs ≡ some v
        → arg_ri (a1 % 262144) regs ≡ some w
        → (v == w) ≡ false
        → advance h prog (mach regs pc t b x) ≡ running (mach regs (pc + 1) (suc t) b x)
    unfolding step dispatch insn step_jump
    run-jeq_passed a0 a1 a2 e p q c = rw (advance-at regs pc t b x e, p, q, c, next_pc pc e)

    pub run-jne_taken :
        (a0 a1 a2 to : ℕ) {v w off : ℕ}
        → get_elem? prog pc ≡ some (insn op_jne a0 a1 a2)
        → arg_ri (a0 % 262144) regs ≡ some v
        → arg_ri (a1 % 262144) regs ≡ some w
        → arg_i (a2 % 262144) ≡ some off
        → (v == w) ≡ false
        → u32 (jump pc off + 1) ≡ to
        → advance h prog (mach regs pc t b x) ≡ running (mach regs to (suc t) b x)
    unfolding step dispatch insn step_jump
    run-jne_taken a0 a1 a2 to e p q o c j = rw (advance-at regs pc t b x e, p, q, c, o, j)

    pub run-jne_passed :
        (a0 a1 a2 : ℕ) {v w : ℕ}
        → get_elem? prog pc ≡ some (insn op_jne a0 a1 a2)
        → arg_ri (a0 % 262144) regs ≡ some v
        → arg_ri (a1 % 262144) regs ≡ some w
        → (v == w) ≡ true
        → advance h prog (mach regs pc t b x) ≡ running (mach regs (pc + 1) (suc t) b x)
    unfolding step dispatch insn step_jump
    run-jne_passed a0 a1 a2 e p q c = rw (advance-at regs pc t b x e, p, q, c, next_pc pc e)

  -- Behind the last instruction the loop ends with success.
  pub run-end :
      (regs : ℕ → ℕ) (pc t : ℕ) (b : B) (x : X)
      → pc ≡ length prog
      → advance h prog (mach regs pc t b x) ≡ exited 0 (mach regs pc t b x)
  unfolding advance
  run-end regs pc t b x e = rw (not_lt→ltb pc (length prog) (omega arith))

module _ {B X : Type 0} {h : Host B X} {prog : Prog} where
  -- Passes that lead to an exit are a run of the whole loop, with some amount of fuel.
  pub Runs-eval :
      {m m' m'' : Machine B X} {ret : ℕ}
      → Runs h prog m m'
      → advance h prog m' ≡ exited ret m''
      → (fuel : ℕ) × (eval h fuel prog m ≡ some (exited ret m''))
  unfolding eval
  Runs-eval here e = (1, rw (e, eval))
  Runs-eval (pass p r) e = let (fuel, q) = Runs-eval r e in (suc fuel, rw (p, eval) q)
