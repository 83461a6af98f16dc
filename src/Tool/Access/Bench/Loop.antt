-- ===== src/Tool/Access/Bench/Loop.antt =====
-- src/mdio/mdio.c: the loop of `bench`, all rounds, and the code that `mdio_common_bench_exec` builds for it.
use mdio_tools.Prelude.{
  ℕ, zero, suc, ◌+◌, ◌<◌, ◌≡◌, refl, sym, subst, ◌∙◌, arith, [], ◌∷◌, ◌++◌, append_assoc, some,
  Option, u16, get_elem?, length, length-append, ◌==◌, ne→==, ==_iff, true, false,
}
use mathlib.Core.Option.{some-injective}
use mdio_tools.Isa.{Prog, Insn, insn, imm, reg, goto, push, op_jne, op_add}
use mdio_tools.Kernel.Machine.{Host, update}
use mdio_tools.Kernel.Runs.{
  mach, At, At-bound, Calm, Runs, here, pass, Runs-trans, Runs-move, run-add, run-jne_taken,
  run-jne_passed,
}
use mdio_tools.Kernel.Runs.Decode.{arg_ri-imm, arg_ri-reg, arg_i-goto, jump-goto}
use mdio_tools.Tool.Args.{ok}
use mdio_tools.Tool.Device.{Driver}
use mdio_tools.Tool.Common.{bench_loop}
use mdio_tools.Tool.Access.{Reads, At-right, At-append, At-middle, At-next, >>=-eq-some}
use mdio_tools.Tool.Access.Bench.{
  show_wrong, compare_once, compare_times, tail_code, Rounded, round-Runs,
}

module _ {B X : Type 0} {h : Host B X} {prog : Prog} (calm : Calm h prog) where
  module _ {drv : Driver} {access : ℕ → B → Option (ℕ × B)} (reads : Reads h drv access)
      (loop r e : ℕ) (at_body : At prog loop (reads.code loop r))
      (at_tail : At prog
        (loop + length (reads.code loop r))
        (tail_code (loop + length (reads.code loop r) + 3) loop))
      (short : length (reads.code loop r) < 30000) where
    at_jne :
        get_elem? prog (loop + length (reads.code loop r) + 3)
        ≡ some (insn op_jne (reg 6) (imm 1000) (goto (loop + length (reads.code loop r) + 3) loop))
    at_jne =
        let same : loop + length (reads.code loop r) + 1 + 1 + 1
            ≡ loop + length (reads.code loop r) + 3 =
          omega arith in
        rw same at at_tail.1.1.1.0

    once-Rounded :
        (regs : ℕ → ℕ) (t : ℕ) (b b' : B) (x x' : X)
        → regs 7 ≡ e
        → compare_once h access r e (b, x) ≡ some (b', x')
        → Rounded h prog loop (length (reads.code loop r)) regs t b x b' x'
    unfolding compare_once
    once-Rounded regs t b b' x x' e7 ref =
        let ((v, b₁), acc, ref₁) = >>=-eq-some (access r b) _ ref in
        let (x₁, sh, ref₂) = >>=-eq-some (show_wrong h access r e v x) _ ref₁ in
        subst (λ (q : B × X). Rounded h prog loop (length (reads.code loop r)) regs t b x q.0 q.1)
          (some-injective (b₁, x₁) (b', x') ref₂)
          (round-Runs calm loop (length (reads.code loop r)) regs t b b₁ x x₁ r v e _ access
            (reads.read_runs calm regs loop t b x r at_body acc) at_tail e7 sh)

    -- All the rounds that are left, to behind the loop.
    rounds-Runs :
        (n : ℕ) (regs : ℕ → ℕ) (t : ℕ) (b b' : B) (x x' : X)
        → regs 6 + suc n ≡ 1000
        → regs 7 ≡ e
        → compare_times h access r e (suc n) (b, x) ≡ some (b', x')
        → (regs' : ℕ → ℕ) × (t' : ℕ) × Runs h prog
            (mach regs loop t b x)
            (mach regs' (loop + length (reads.code loop r) + 3 + 1) t' b' x')
    unfolding compare_times
    rounds-Runs zero regs t b b' x x' e6 e7 ref =
        let ((b₁, x₁), one, last) = >>=-eq-some (compare_once h access r e (b, x)) _ ref in
        let same = some-injective (b₁, x₁) (b', x') last in
        let f = once-Rounded regs t b b₁ x x₁ e7 one in
        let done : (f.regs' 6 == 1000) ≡ true = (==_iff _ _).1 (omega (arith, f.counted)) in
        (
          f.regs',
          suc f.ticks',
          subst
              (λ (q : B × X).
                Runs h prog (mach regs loop t b x)
                  (mach f.regs' (loop + length (reads.code loop r) + 3 + 1) (suc f.ticks') q.0 q.1))
              same
              (Runs-trans f.runs (
                pass
                  (run-jne_passed calm f.regs' (loop + length (reads.code loop r) + 3) f.ticks' b₁
                    x₁ (reg 6) (imm 1000) (goto (loop + length (reads.code loop r) + 3) loop) at_jne
                    (arg_ri-reg 6 f.regs') (arg_ri-imm 1000 f.regs') done)
                  here)),
        )
    rounds-Runs (suc n) regs t b b' x x' e6 e7 ref =
        let ((b₁, x₁), one, more) = >>=-eq-some (compare_once h access r e (b, x)) _ ref in
        let f = once-Rounded regs t b b₁ x x₁ e7 one in
        let again : (f.regs' 6 == 1000) ≡ false = ne→== _ _ (omega (arith, f.counted)) in
        let (regs', t', rest) =
          rounds-Runs n f.regs' (suc f.ticks') b₁ b' x₁ x' (omega (arith, f.counted))
            (f.expects ∙ e7) more in
        (
          regs',
          t',
          Runs-trans f.runs (
              pass
                (run-jne_taken calm f.regs' (loop + length (reads.code loop r) + 3) f.ticks' b₁ x₁
                  (reg 6) (imm 1000) (goto (loop + length (reads.code loop r) + 3) loop) loop at_jne
                  (arg_ri-reg 6 f.regs') (arg_ri-imm 1000 f.regs') (arg_i-goto _ loop) again
                  (jump-goto (loop + length (reads.code loop r) + 3) loop (omega arith)
                    (omega arith) (omega (arith, At-bound prog _ _ at_jne, calm.short))))
                rest),
        )

-- The program of the benchmark behind its set-up `first`: the counter is cleared, then the loop.
abbrev bench_start : Prog → Prog
bench_start first = first ++ insn op_add (imm 0) (imm 0) (reg 6) ∷ []

three_behind :
    (s b : Prog) (i j k : Insn)
    → length ((((s ++ b) ++ i ∷ []) ++ j ∷ []) ++ k ∷ []) ≡ length s + length b + 3
three_behind s b i j k = omega (
  arith,
  length-append (((s ++ b) ++ i ∷ []) ++ j ∷ []) (k ∷ []),
  length-append ((s ++ b) ++ i ∷ []) (j ∷ []),
  length-append (s ++ b) (i ∷ []),
  length-append s b,
)

module _ {B X : Type 0} {h : Host B X} {drv : Driver} {access : ℕ → B → Option (ℕ × B)}
    (reads : Reads h drv access) where
  unfoldable pub bench_code : ℕ → Prog → Prog
  bench_code r first =
      let start = bench_start first in
      let body = reads.code (length start) r in
      start ++ (body ++ tail_code (length start + length body + 3) (length start))

  bench_loop-code : (r : ℕ) (first : Prog) → bench_loop drv r first ≡ ok (bench_code r first)
  unfolding bench_loop push bench_code
  bench_loop-code r first =
      rw
        (
          reads.read_code (bench_start first) r,
          three_behind (bench_start first) (reads.code (length (bench_start first)) r),
        )
        (simp append_assoc)

  -- The loop of `bench`, for a driver whose reads do `access`, while the time is not up and the program
  -- is shorter than 30000 instructions: from a state with the expected value in register 7, if a
  -- thousand accesses, each with the emission of its value if that is not the expected one, succeed,
  -- then the tool builds the program, and the interpreter does exactly these and comes to the end of
  -- the program.
  pub bench_loop-Runs :
      (r e : ℕ) (first : Prog) (regs : ℕ → ℕ) (t : ℕ) (b b' : B) (x x' : X)
      → ((k : ℕ) → h.time_after k ≡ false)
      → length (bench_code r first) < 30000
      → regs 7 ≡ e
      → compare_times h access r e 1000 (b, x) ≡ some (b', x')
      → (prog : Prog) × (regs' : ℕ → ℕ) × (t' : ℕ) × (bench_loop drv r first ≡ ok prog)
        × Runs h prog (mach regs (length first) t b x) (mach regs' (length prog) t' b' x')
  unfolding bench_code update
  bench_loop-Runs r e first regs t b b' x x' live short e7 ref =
      let start = bench_start first in
      let loop = length start in
      let body = reads.code loop r in
      let tail = tail_code (loop + length body + 3) loop in
      let prog : Prog = start ++ (body ++ tail) in
      let at_tail : At prog (loop + length body) tail =
        At-right prog loop body tail (At-next start (body ++ tail)) in
      let len₁ : loop ≡ length first + 1 = length-append first _ in
      let len₂ : length prog ≡ loop + length body + 4 =
        omega (arith, length-append start (body ++ tail), length-append body tail) in
      let calm : Calm h prog = record { in_time = live; short = omega arith } in
      let regs₁ = update regs 6 (u16 (u16 0 + u16 0)) in
      let (regs', t', rounds) =
        rounds-Runs calm reads loop r e (At-append start body tail) at_tail (omega arith) 999 regs₁
          (suc t) b b' x x' refl e7 ref in
      (
        prog,
        regs',
        t',
        bench_loop-code r first,
        pass
            (run-add calm regs (length first) t b x (imm 0) (imm 0) 6
              (At-middle first (insn op_add (imm 0) (imm 0) (reg 6) ∷ []) (body ++ tail)).0
              (arg_ri-imm 0 regs) (arg_ri-imm 0 regs))
            (Runs-trans (Runs-move loop (sym len₁) here)
              (Runs-move (length prog) (omega arith) rounds)),
      )
