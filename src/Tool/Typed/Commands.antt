-- ===== src/Tool/Typed/Commands.antt =====
-- src/mdio/mdio.c: the programs of raw and bench pass the kernel's validation, for every driver of the
-- tool and all arguments.
use mdio_tools.Prelude.{
  ℕ, ◌*◌, ◌==◌, not, ◌≡◌, inl, inr, Bool-cases, Option, none, some, length, [],
}
use mdio_tools.Isa.{
  Prog, insn, imm, reg, goto, push, op_and, op_or, op_add, op_jeq, op_jne, op_emit,
}
use mdio_tools.Kernel.Validate.{validate_prog}
use mdio_tools.Kernel.Validate.Accepted.{validate_prog-accepts}
use mdio_tools.Tool.Args.{Libc, ok}
use mdio_tools.Tool.Device.{Driver}
use mdio_tools.Tool.Common.{Callback, Request, raw_prog, bench_expect, bench_loop}
use mdio_tools.Tool.Typed.{
  a_reg, an_imm, Typed, TypedDriver, push-Typed, and_typed, or_typed, add_typed, jeq_typed,
  jne_goto_typed, emit_typed,
}
use mdio_tools.Tool.Typed.Drivers.{ToolDriver, ToolDriver-Typed}

-- A request whose program the kernel accepts.
abbrev pub Accepted : Prog → Type 0
Accepted prog = validate_prog (length prog * 8) prog ≡ 0

module _ {drv : Driver} (typed : TypedDriver drv) where
  raw-Typed :
      (r : ℕ) (vm : Option (ℕ × ℕ))
      → (req : Request) × (raw_prog drv r vm ≡ ok req) × Typed req.prog
  unfolding raw_prog
  raw-Typed r none =
      let (prog, e, h) = typed.reads [] r tt in
      (
        record {
          prog = push prog (insn op_emit (reg 0) 0 0);
          timeout = 1000;
          callback = Callback.raw_read;
        },
        rw e,
        push-Typed prog _ h (emit_typed (a_reg 0)),
      )
  raw-Typed r (some (val, mask)) = elim (Bool-cases (not (mask == 0))) [
    | inl masked ↦
        let (prog, e, h) = typed.reads [] r tt in
        let (prog', e', h') =
          typed.writes
            (push (push prog (insn op_and (reg 0) (imm mask) (reg 0)))
              (insn op_or (reg 0) (imm val) (reg 0)))
            r (a_reg 0)
            (push-Typed _ _ (push-Typed prog _ h (and_typed (a_reg 0) (an_imm mask) 0))
              (or_typed (a_reg 0) (an_imm val) 0)) in
        (
          record { prog = prog'; timeout = 1000; callback = Callback.raw_write },
          rw (masked, e, e'),
          h',
        )
    | inr plain ↦
        let (prog, e, h) = typed.writes [] r (an_imm val) tt in
        (record { prog = prog; timeout = 1000; callback = Callback.raw_write }, rw (plain, e), h)
  ]

  expect-Typed :
      (r : ℕ) (val : Option ℕ) → (prog : Prog) × (bench_expect drv r val ≡ ok prog) × Typed prog
  unfolding bench_expect
  expect-Typed r none =
      let (prog, e, h) = typed.reads [] r tt in
      (
        push prog (insn op_add (reg 0) (imm 0) (reg 7)),
        rw e,
        push-Typed prog _ h (add_typed (a_reg 0) (an_imm 0) 7),
      )
  expect-Typed r (some val) =
      typed.writes (push [] (insn op_add (imm val) (imm 0) (reg 7))) r (a_reg 7)
        (push-Typed [] _ tt (add_typed (an_imm val) (an_imm 0) 7))

  loop-Typed :
      (r : ℕ) (prog : Prog)
      → Typed prog
      → (prog' : Prog) × (bench_loop drv r prog ≡ ok prog') × Typed prog'
  unfolding bench_loop
  loop-Typed r prog h =
      let start = length (push prog (insn op_add (imm 0) (imm 0) (reg 6))) in
      let (body, e, k) =
        typed.reads (push prog (insn op_add (imm 0) (imm 0) (reg 6))) r
          (push-Typed prog _ h (add_typed (an_imm 0) (an_imm 0) 6)) in
      let counted =
        push (push (push body (insn op_jeq (reg 0) (reg 7) (imm 1))) (insn op_emit (reg 0) 0 0))
          (insn op_add (reg 6) (imm 1) (reg 6)) in
      (
        push counted (insn op_jne (reg 6) (imm 1000) (goto (length counted) start)),
        rw e,
        push-Typed _ _
            (push-Typed _ _
              (push-Typed _ _ (push-Typed body _ k (jeq_typed (a_reg 0) (a_reg 7) 1))
                (emit_typed (a_reg 0)))
              (add_typed (a_reg 6) (an_imm 1) 6))
            (jne_goto_typed (a_reg 6) (an_imm 1000) _ _),
      )

-- For every driver of the tool, every register and all arguments, with and without a value and with any
-- mask, `raw` builds a request whose program the kernel's validation accepts, and so does `bench`:
-- no driver fails, and each instruction has a known operation and arguments of the modes that its
-- prototype wants.
pub tool_programs-Accepted :
    {c : Libc} {drv : Driver}
    → ToolDriver c drv
    → (r : ℕ) (vm : Option (ℕ × ℕ)) (expect : Option ℕ)
    → ((req : Request) × (raw_prog drv r vm ≡ ok req) × Accepted req.prog)
      × ((first : Prog) × (prog : Prog) × (bench_expect drv r expect ≡ ok first)
          × (bench_loop drv r first ≡ ok prog)
          × Accepted prog)
tool_programs-Accepted d r vm expect =
    let typed = ToolDriver-Typed d in
    let (req, e, h) = raw-Typed typed r vm in
    let (first, e₁, h₁) = expect-Typed typed r expect in
    let (prog, e₂, h₂) = loop-Typed typed r first h₁ in
    (
      (req, e, validate_prog-accepts req.prog h),
      (first, prog, e₁, e₂, validate_prog-accepts prog h₂),
    )
