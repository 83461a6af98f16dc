-- ===== src/Tool/Access/Raw.antt =====
-- src/mdio/mdio.c: what the program of `raw` does to the device, for every driver that keeps the
-- contract.
use mdio_tools.Prelude.{
  ℕ, suc, ◌+◌, ◌<◌, ◌≡◌, refl, subst, arith, [], ◌∷◌, ◌++◌, some, none, Option, u16, length, false,
  length-append, ap,
}
use mdio_tools.Isa.{Prog, Insn, insn, imm, reg, push, op_emit}
use mdio_tools.Kernel.Machine.{Host, Machine, got, exited, eval}
use mdio_tools.Kernel.Runs.{
  mach, At, Calm, Runs, here, pass, Runs-trans, Runs-eval, run-emit, run-end,
}
use mdio_tools.Kernel.Runs.Decode.{arg_ri-imm, arg_ri-reg}
use mdio_tools.Tool.Args.{ok}
use mdio_tools.Tool.Device.{Driver}
use mdio_tools.Tool.Common.{Callback, Request, raw_prog}
use mdio_tools.Tool.Access.{Fetched, Stored, Reads, Writes, At-whole, At-left, At-right}

-- The program, started at its beginning, comes to its end with success, in this state.
pub record Completes {B X : Type 0} (h : Host B X) (prog : Prog) (b : B) (x : X) (b' : B) (x' : X)
    : Type 0 where
  pub fuel : ℕ
  pub final : Machine B X
  pub returns : eval h fuel prog (mach (λ _. 0) 0 0 b x) ≡ some (exited 0 final)
  pub bus_is : final.bus ≡ b'
  pub xfer_is : final.xfer ≡ x'

abbrev pub emit_0 : Insn
emit_0 = insn op_emit (reg 0) 0 0

pub completes :
    {B X : Type 0} {h : Host B X} {prog : Prog} (calm : Calm h prog) (regs : ℕ → ℕ) (pc t : ℕ)
    (b b' : B) (x x' : X)
    → Runs h prog (mach (λ _. 0) 0 0 b x) (mach regs pc t b' x')
    → pc ≡ length prog
    → Completes h prog b x b' x'
completes calm regs pc t b b' x x' r end =
    let (fuel, e) = Runs-eval r (run-end calm regs pc t b' x' end) in
    record { fuel = fuel; final = mach regs pc t b' x'; returns = e; bus_is = refl; xfer_is = refl }

module _ {B X : Type 0} {h : Host B X} {drv : Driver} {access : ℕ → B → Option (ℕ × B)}
    (reads : Reads h drv access) where
  -- A read whose value is emitted.
  pub read_emits :
      (r v n : ℕ) (b b' : B) (x x' : X) (prog : Prog)
      → prog ≡ reads.code 0 r ++ (emit_0 ∷ [])
      → Calm h prog
      → access r b ≡ some (v, b')
      → h.emit (u16 v) x ≡ got n x'
      → Completes h prog b x b' x'
  read_emits r v n b b' x x' prog e calm acc em =
      let code = reads.code 0 r in
      let at : At prog 0 (code ++ (emit_0 ∷ [])) = subst (At prog 0) e (At-whole prog) in
      let f : Fetched h prog (λ _. 0) 0 0 b x (length code) v b' =
        reads.read_runs calm (λ _. 0) 0 0 b x r (At-left prog 0 code _ at) acc in
      let em' : h.emit (f.regs' 0) x ≡ got n x' = rw f.value em in
      completes calm f.regs' (0 + length code + 1) (suc f.ticks') b b' x x'
        (Runs-trans f.runs (
          pass
            (run-emit calm f.regs' (0 + length code) f.ticks' b' x (reg 0) 0 0
              (At-right prog 0 code _ at).0 (arg_ri-reg 0 f.regs') em')
            here))
        (omega (arith, ap (λ (p : Prog). length p) e, length-append code (emit_0 ∷ [])))

  -- `raw REG`, for a driver whose reads do `access`, while the time is not up and the access code is
  -- shorter than 2^32 instructions: if the access gives `v` and the writer takes it (cut to 16
  -- bits), then the tool builds a request, which, run by the interpreter, ends with success after
  -- that one access and that one emission.
  pub raw_read-Completes :
      (r v n : ℕ) (b b' : B) (x x' : X)
      → ((k : ℕ) → h.time_after k ≡ false)
      → length (reads.code 0 r) + 1 < 4294967296
      → access r b ≡ some (v, b')
      → h.emit (u16 v) x ≡ got n x'
      → (req : Request) × (raw_prog drv r none ≡ ok req)
        × (req.callback ≡ Callback.raw_read)
        × Completes h req.prog b x b' x'
  unfolding raw_prog push
  raw_read-Completes r v n b b' x x' live short acc em =
      let prog : Prog = reads.code 0 r ++ (emit_0 ∷ []) in
      let len : length prog ≡ length (reads.code 0 r) + 1 = length-append (reads.code 0 r) _ in
      (
        record { prog = prog; timeout = 1000; callback = Callback.raw_read },
        rw (reads.read_code [] r),
        refl,
        read_emits r v n b b' x x' prog refl (record { in_time = live; short = omega (arith, len) })
            acc em,
      )

module _ {B X : Type 0} {h : Host B X} {drv : Driver} {deposit : ℕ → ℕ → B → Option B}
    (writes : Writes h drv deposit) where
  -- `raw REG VAL`, and also `raw REG VAL/0`, for a driver whose writes do `deposit`, while the time is
  -- not up and the code is shorter than 2^32 instructions: if the deposit of the value, cut to 16
  -- bits, succeeds, then the tool builds a request, which, run by the interpreter, ends with success
  -- after that one deposit and emits nothing.
  pub raw_write-Completes :
      (r val : ℕ) (b b' : B) (x : X)
      → ((k : ℕ) → h.time_after k ≡ false)
      → length (writes.code 0 r (imm val)) < 4294967296
      → deposit r (u16 val) b ≡ some b'
      → (req : Request) × (raw_prog drv r (some (val, 0)) ≡ ok req)
        × (req.callback ≡ Callback.raw_write)
        × Completes h req.prog b x b' x
  unfolding raw_prog
  raw_write-Completes r val b b' x live short dep =
      let prog : Prog = writes.code 0 r (imm val) in
      let calm : Calm h prog = record { in_time = live; short = short } in
      let s : Stored h prog (λ _. 0) 0 0 b x (length prog) b' =
        writes.write_runs calm (λ _. 0) 0 0 b x r (imm val) (At-whole prog)
          (λ regs' _ _. arg_ri-imm val regs') dep in
      (
        record { prog = prog; timeout = 1000; callback = Callback.raw_write },
        rw (writes.write_code [] r (imm val)),
        refl,
        completes calm s.regs' (0 + length prog) s.ticks' b b' x x s.runs (omega arith),
      )
