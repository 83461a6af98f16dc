-- ===== src/Tool/Access/Masked.antt =====
-- src/mdio/mdio.c: `raw REG VAL/MASK`, which reads, combines and writes in one program.
use mdio_tools.Prelude.{
  ℕ, suc, ◌+◌, ◌<◌, ◌≡◌, ◌≢◌, refl, sym, ◌∙◌, arith, [], ◌∷◌, ◌++◌, some, Option, u16, bit_and,
  bit_or, append_assoc, length, false, length-append, ne→==, ap,
}
use mdio_tools.Isa.{Prog, insn, imm, reg, push, op_and, op_or}
use mdio_tools.Kernel.Machine.{Host, update}
use mdio_tools.Kernel.Runs.{
  mach, At, Calm, Runs, here, pass, Runs-trans, Runs-move, run-and, run-or,
}
use mdio_tools.Kernel.Runs.Decode.{arg_ri-imm, arg_ri-reg}
use mdio_tools.Tool.Args.{ok}
use mdio_tools.Tool.Device.{Driver}
use mdio_tools.Tool.Common.{Callback, Request, raw_prog}
use mdio_tools.Tool.Access.Raw.{Completes, completes}
use mdio_tools.Tool.Access.{Fetched, Stored, Reads, Writes, At-whole, At-left, At-right, At-next}

-- `raw REG VAL/MASK` is one program, whose parts are these.
unfoldable pub masked_code :
    {B X : Type 0} {h : Host B X} {drv : Driver} {access : ℕ → B → Option (ℕ × B)}
    {deposit : ℕ → ℕ → B → Option B}
    → Reads h drv access
    → Writes h drv deposit
    → ℕ
    → ℕ
    → ℕ
    → Prog × Prog
masked_code reads writes r val mask =
    let first =
      reads.code 0 r
      ++ (insn op_and (reg 0) (imm mask) (reg 0) ∷ insn op_or (reg 0) (imm val) (reg 0) ∷ []) in
    (first, writes.code (length first) r (reg 0))

abbrev mask_ops : ℕ → ℕ → Prog
mask_ops val mask =
    insn op_and (reg 0) (imm mask) (reg 0) ∷ insn op_or (reg 0) (imm val) (reg 0) ∷ []

-- The two operations in between leave the combined value in register 0.
mask_ops-Fetched :
    {B X : Type 0} (h : Host B X) {prog : Prog} (calm : Calm h prog) (regs : ℕ → ℕ) (pc t : ℕ)
    (b : B) (x : X) (val mask : ℕ)
    → At prog pc (mask_ops val mask)
    → Fetched h prog regs pc t b x 2 (bit_or (u16 (bit_and (regs 0) (u16 mask))) (u16 val)) b
unfolding update
mask_ops-Fetched h {prog} calm regs pc t b x val mask at =
    let r₁ = update regs 0 (u16 (bit_and (regs 0) (u16 mask))) in
    let r₂ = update r₁ 0 (u16 (bit_or (r₁ 0) (u16 val))) in
    let e : pc + 2 ≡ pc + 1 + 1 = omega arith in
    let runs : Runs h prog (mach regs pc t b x) (mach r₂ (pc + 1 + 1) (suc (suc t)) b x) =
      pass
        (run-and calm regs pc t b x (reg 0) (imm mask) 0 at.0 (arg_ri-reg 0 regs)
          (arg_ri-imm mask regs))
        (pass
          (run-or calm r₁ (pc + 1) (suc t) b x (reg 0) (imm val) 0 at.1.0 (arg_ri-reg 0 r₁)
            (arg_ri-imm val r₁))
          here) in
    record {
      regs' = r₂;
      ticks' = suc (suc t);
      runs = rw e runs;
      value = refl;
      keeps_6 = refl;
      keeps_7 = refl;
    }

module _ {B X : Type 0} {h : Host B X} {drv : Driver} {access : ℕ → B → Option (ℕ × B)}
    {deposit : ℕ → ℕ → B → Option B} (reads : Reads h drv access)
    (writes : Writes h drv deposit) where
  -- `raw REG VAL/MASK` with a mask that is not 0, for a driver whose reads do `access` and whose writes
  -- do `deposit`, while the time is not up and the code is shorter than 2^32 instructions: if the
  -- access gives `v`, and the deposit of `(v & mask) | val`, all cut to 16 bits, succeeds after it,
  -- then the tool builds one request, which, run by the interpreter, ends with success after these
  -- two and emits nothing.
  pub raw_masked-Completes :
      (r val mask v : ℕ) (b b' b'' : B) (x : X)
      → mask ≢ 0
      → ((k : ℕ) → h.time_after k ≡ false)
      → length (masked_code reads writes r val mask).0
          + length (masked_code reads writes r val mask).1
        < 4294967296
      → access r b ≡ some (v, b')
      → deposit r (u16 (bit_or (u16 (bit_and (u16 v) (u16 mask))) (u16 val))) b' ≡ some b''
      → (req : Request) × (raw_prog drv r (some (val, mask)) ≡ ok req)
        × (req.callback ≡ Callback.raw_write)
        × Completes h req.prog b x b'' x
  unfolding raw_prog masked_code push
  raw_masked-Completes r val mask v b b' b'' x nz live short acc dep =
      let c = reads.code 0 r in
      let first : Prog = c ++ mask_ops val mask in
      let p = length first in
      let last = writes.code p r (reg 0) in
      let prog : Prog = first ++ last in
      let len₁ : p ≡ 0 + length c + 2 = omega (arith, length-append c (mask_ops val mask)) in
      let len₂ : length prog ≡ p + length last = length-append first last in
      let calm : Calm h prog = record { in_time = live; short = omega (arith, len₂) } in
      let at = At-left prog 0 first last (At-whole prog) in
      let f : Fetched h prog (λ _. 0) 0 0 b x (length c) v b' =
        reads.read_runs calm (λ _. 0) 0 0 b x r (At-left prog 0 c (mask_ops val mask) at) acc in
      let g =
        mask_ops-Fetched h calm f.regs' (0 + length c) f.ticks' b' x val mask
          (At-right prog 0 c (mask_ops val mask) at) in
      let value : g.regs' 0 ≡ u16 (bit_or (u16 (bit_and (u16 v) (u16 mask))) (u16 val)) =
        rw f.value at g.value in
      let s : Stored h prog g.regs' p g.ticks' b' x (length last) b'' =
        writes.write_runs calm g.regs' p g.ticks' b' x r (reg 0) (At-next first last)
          (λ regs' e _. arg_ri-reg 0 regs' ∙ ap (λ (k : ℕ). some k) (e ∙ value)) dep in
      (
        record { prog = prog; timeout = 1000; callback = Callback.raw_write },
        rw (ne→== mask 0 nz, reads.read_code [] r, append_assoc, writes.write_code),
        refl,
        completes calm s.regs' (p + length last) s.ticks' b b'' x x
            (Runs-trans (Runs-move p (sym len₁) (Runs-trans f.runs g.runs)) s.runs) (sym len₂),
      )
