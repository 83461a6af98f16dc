-- ===== src/Kernel/Safety.antt =====
-- kernel/mdio-netlink.c: a program that passes the validation runs without a failed BUG_ON and
-- within its bounds.
use mdio_tools.Prelude.{
  ℕ, zero, suc, ◌+◌, ◌/◌, ◌%◌, ◌^◌, ◌<◌, bit_and, bit_or, ◌==◌, ltb, Bool, not, true, ◌≡◌, ◌≢◌, ◌⊎◌,
  inl, inr, refl, arith, All, All-get_elem?, Option, none, some, length, get_elem?, get_elem?-lt,
  Bool-cases, ltb→lt, [], ◌∷◌,
}
use mdio_tools.Isa.{Insn, Prog, op_read, op_write, op_add, op_jeq, op_emit, mode_reg, mode_imm}
use mdio_tools.Kernel.Machine.{
  Host, Machine, crashed, arg_r, arg_i, arg_ri, step_read, step_write, step_alu, step_jump,
  step_emit, dispatch, step, advance,
}
use mdio_tools.Kernel.Validate.{op_proto, allowed, validate_insn, validate_insns, validate_prog}

-- The widths of the bit fields of `struct mdio_nl_insn`.
pub record Fits (i : Insn) : Type 0 where
  pub fit0 : i.arg0 < 262144
  pub fit1 : i.arg1 < 262144
  pub fit2 : i.arg2 < 262144

abbrev IsReg : ℕ → Type 0
IsReg arg = arg / 65536 ≡ mode_reg

abbrev IsImm : ℕ → Type 0
IsImm arg = arg / 65536 ≡ mode_imm

abbrev IsRegOrImm : ℕ → Type 0
IsRegOrImm arg = IsReg arg ⊎ IsImm arg

mode_ri : (m : ℕ) → m < 4 → not (bit_and (2 ^ m) 6 == 0) ≡ true → (m ≡ 1) ⊎ (m ≡ 2)
mode_ri zero h e = cc
mode_ri (suc zero) h e = inl refl
mode_ri (suc (suc zero)) h e = inr refl
mode_ri (suc (suc (suc zero))) h e = cc
mode_ri (suc (suc (suc (suc m)))) h e = absurd (omega arith)

mode_r : (m : ℕ) → m < 4 → not (bit_and (2 ^ m) 2 == 0) ≡ true → m ≡ 1
mode_r zero h e = cc
mode_r (suc zero) h e = refl
mode_r (suc (suc zero)) h e = cc
mode_r (suc (suc (suc zero))) h e = cc
mode_r (suc (suc (suc (suc m)))) h e = absurd (omega arith)

mode_i : (m : ℕ) → m < 4 → not (bit_and (2 ^ m) 4 == 0) ≡ true → m ≡ 2
mode_i zero h e = cc
mode_i (suc zero) h e = cc
mode_i (suc (suc zero)) h e = refl
mode_i (suc (suc (suc zero))) h e = cc
mode_i (suc (suc (suc (suc m)))) h e = absurd (omega arith)

allowed-ri : (a : ℕ) → a < 262144 → allowed a 6 ≡ true → IsRegOrImm a
unfolding allowed
allowed-ri a h e = mode_ri (a / 65536) (omega arith) e

allowed-r : (a : ℕ) → a < 262144 → allowed a 2 ≡ true → IsReg a
unfolding allowed
allowed-r a h e = mode_r (a / 65536) (omega arith) e

allowed-i : (a : ℕ) → a < 262144 → allowed a 4 ≡ true → IsImm a
unfolding allowed
allowed-i a h e = mode_i (a / 65536) (omega arith) e

arg_ri-some : (a : ℕ) (regs : ℕ → ℕ) → IsRegOrImm a → (v : ℕ) × (arg_ri a regs ≡ some v)
unfolding arg_ri
arg_ri-some a regs (inl p) = (regs (a % 8), ground arith)
arg_ri-some a regs (inr p) = (a % 65536, ground arith)

arg_r-some : (a : ℕ) → IsReg a → arg_r a ≡ some (a % 8)
unfolding arg_r
arg_r-some a p = ground arith

arg_i-some : (a : ℕ) → IsImm a → arg_i a ≡ some (a % 65536)
unfolding arg_i
arg_i-some a p = ground arith

module _ {B X : Type 0} (h : Host B X) (i : Insn) (m : Machine B X) where
  step_read-ne-crashed :
      IsRegOrImm i.arg0 → IsRegOrImm i.arg1 → IsReg i.arg2 → step_read h i m ≢ crashed
  unfolding step_read
  step_read-ne-crashed p q r =
      ground (arith, arg_ri-some i.arg0 m.regs p, arg_ri-some i.arg1 m.regs q, arg_r-some i.arg2 r)

  step_write-ne-crashed :
      IsRegOrImm i.arg0 → IsRegOrImm i.arg1 → IsRegOrImm i.arg2 → step_write h i m ≢ crashed
  unfolding step_write
  step_write-ne-crashed p q r =
      ground (
        arith,
        arg_ri-some i.arg0 m.regs p,
        arg_ri-some i.arg1 m.regs q,
        arg_ri-some i.arg2 m.regs r,
      )

  step_alu-ne-crashed :
      (f : ℕ → ℕ → ℕ)
      → IsRegOrImm i.arg0
      → IsRegOrImm i.arg1
      → IsReg i.arg2
      → step_alu h f i m ≢ crashed
  unfolding step_alu
  step_alu-ne-crashed f p q r =
      ground (arith, arg_ri-some i.arg0 m.regs p, arg_ri-some i.arg1 m.regs q, arg_r-some i.arg2 r)

  step_jump-ne-crashed :
      (f : ℕ → ℕ → Bool)
      → IsRegOrImm i.arg0
      → IsRegOrImm i.arg1
      → IsImm i.arg2
      → step_jump h f i m ≢ crashed
  unfolding step_jump
  step_jump-ne-crashed f p q r =
      ground (arith, arg_ri-some i.arg0 m.regs p, arg_ri-some i.arg1 m.regs q, arg_i-some i.arg2 r)

  step_emit-ne-crashed : IsRegOrImm i.arg0 → step_emit h i m ≢ crashed
  unfolding step_emit
  step_emit-ne-crashed p = ground (arith, arg_ri-some i.arg0 m.regs p)

abbrev Passes : ℕ → Insn → Type 0
Passes op i =
    (allowed i.arg0 (op_proto op).arg0 ≡ true)
    × (allowed i.arg1 (op_proto op).arg1 ≡ true)
    × (allowed i.arg2 (op_proto op).arg2 ≡ true)

validate_insn-Passes : (i : Insn) → validate_insn i ≡ 0 → (i.op < 9) × Passes i.op i
unfolding validate_insn
validate_insn-Passes i e = ground arith

module _ {B X : Type 0} (h : Host B X) (i : Insn) (m : Machine B X) (f : Fits i) where
  checked_read : Passes op_read i → step_read h i m ≢ crashed
  unfolding op_proto
  checked_read (p, q, r) =
      step_read-ne-crashed h i m (allowed-ri _ f.fit0 p) (allowed-ri _ f.fit1 q)
        (allowed-r _ f.fit2 r)

  checked_write : Passes op_write i → step_write h i m ≢ crashed
  unfolding op_proto
  checked_write (p, q, r) =
      step_write-ne-crashed h i m (allowed-ri _ f.fit0 p) (allowed-ri _ f.fit1 q)
        (allowed-ri _ f.fit2 r)

  checked_alu : (g : ℕ → ℕ → ℕ) → Passes op_add i → step_alu h g i m ≢ crashed
  unfolding op_proto
  checked_alu g (p, q, r) =
      step_alu-ne-crashed h i m g (allowed-ri _ f.fit0 p) (allowed-ri _ f.fit1 q)
        (allowed-r _ f.fit2 r)

  checked_jump : (g : ℕ → ℕ → Bool) → Passes op_jeq i → step_jump h g i m ≢ crashed
  unfolding op_proto
  checked_jump g (p, q, r) =
      step_jump-ne-crashed h i m g (allowed-ri _ f.fit0 p) (allowed-ri _ f.fit1 q)
        (allowed-i _ f.fit2 r)

  checked_emit : Passes op_emit i → step_emit h i m ≢ crashed
  unfolding op_proto
  checked_emit (p, q, r) = step_emit-ne-crashed h i m (allowed-ri _ f.fit0 p)

  dispatch-ne-crashed : (op : ℕ) → op < 9 → Passes op i → dispatch h op i m ≢ crashed
  unfolding dispatch op_proto
  dispatch-ne-crashed zero lt p = cc
  dispatch-ne-crashed (suc zero) lt p = checked_read p
  dispatch-ne-crashed (suc (suc zero)) lt p = checked_write p
  dispatch-ne-crashed (suc (suc (suc zero))) lt p = checked_alu bit_and p
  dispatch-ne-crashed (suc (suc (suc (suc zero)))) lt p = checked_alu bit_or p
  dispatch-ne-crashed (suc (suc (suc (suc (suc zero))))) lt p = checked_alu (λ a b. a + b) p
  dispatch-ne-crashed (suc (suc (suc (suc (suc (suc zero)))))) lt p = checked_jump (λ a b. a == b) p
  dispatch-ne-crashed (suc (suc (suc (suc (suc (suc (suc zero))))))) lt p =
      checked_jump (λ a b. not (a == b)) p
  dispatch-ne-crashed (suc (suc (suc (suc (suc (suc (suc (suc zero)))))))) lt p = checked_emit p
  dispatch-ne-crashed (suc (suc (suc (suc (suc (suc (suc (suc (suc op))))))))) lt p =
      absurd (omega arith)

  step-ne-crashed : validate_insn i ≡ 0 → step h i m ≢ crashed
  unfolding step
  step-ne-crashed e = let (lt, p) = validate_insn-Passes i e in dispatch-ne-crashed i.op lt p

-- Every instruction has passed the validation.
abbrev pub IsValidated : Prog → Type 0
IsValidated prog = All (λ i. Fits i × (validate_insn i ≡ 0)) prog

validate_insns-All : (prog : Prog) → validate_insns prog ≡ 0 → All Fits prog → IsValidated prog
unfolding validate_insns
validate_insns-All [] e f = tt
validate_insns-All (i ∷ prog) e (f, fs) = ground (arith, validate_insns-All prog)

-- What the validation callback accepts is validated.
pub validate_prog-IsValidated :
    (len : ℕ) (prog : Prog) → All Fits prog → validate_prog len prog ≡ 0 → IsValidated prog
unfolding validate_prog
validate_prog-IsValidated len prog f e = ground (arith, validate_insns-All prog)

module _ {B X : Type 0} (h : Host B X) (prog : Prog) (v : IsValidated prog) where
  fetch-ne-crashed :
      (m : Machine B X) (o : Option Insn)
      → get_elem? prog m.pc ≡ o
      → m.pc < length prog
      → elim o [ none ↦ crashed | some i ↦ step h i (record m { ticks = suc m.ticks }) ] ≢ crashed
  fetch-ne-crashed m none e lt = λ _. let (i, q) = get_elem?-lt prog m.pc lt in cc
  fetch-ne-crashed m (some i) e lt =
      let (f, ok) = All-get_elem? (λ j. Fits j × (validate_insn j ≡ 0)) prog m.pc v e in
      step-ne-crashed h i (record m { ticks = suc m.ticks }) f ok

  -- For a validated program, whose arguments fit their bit fields, no pass of the loop, from any state,
  -- fails a BUG_ON or fetches from outside the program.
  pub advance-ne-crashed : (m : Machine B X) → advance h prog m ≢ crashed
  unfolding advance
  advance-ne-crashed m = elim (Bool-cases (ltb m.pc (length prog))) [
    | inl lt ↦ rw lt (elim (Bool-cases (h.time_after m.ticks)) [
      | inl late ↦ rw late (λ e. cc)
      | inr early ↦ rw early (fetch-ne-crashed m (get_elem? prog m.pc) refl (ltb→lt _ _ lt))
    ])
    | inr ge ↦ rw ge (λ e. cc)
  ]
