-- ===== src/Tool/Access/Dump.antt =====
-- src/mdio/mdio.c: what the unrolled program of `dump` does to the device.
use mathlib.Core.Option.{some-injective}
use mdio_tools.Prelude.{
  ℕ, zero, suc, ◌+◌, ◌<◌, false, ◌≡◌, sym, subst, ◌∙◌, ap, arith, [], ◌∷◌, ◌++◌, append_assoc,
  append-nil, Option, none, some, length, length-append, u16,
}
use mdio_tools.Isa.{Prog, push, reg}
use mdio_tools.Kernel.Machine.{Host, got}
use mdio_tools.Kernel.Runs.{mach, At, Calm, Runs, here, pass, Runs-trans, Runs-move, run-emit}
use mdio_tools.Kernel.Runs.Decode.{arg_ri-reg}
use mdio_tools.Tool.Args.{ok}
use mdio_tools.Tool.Device.{RegRange, Driver}
use mdio_tools.Tool.Common.{dump_regs, dump_prog, dump_fuel}
use mdio_tools.Tool.Access.{
  reply_value, Fetched, Reads, At-whole, At-left, At-right, ◌>>=◌, >>=-eq-some,
}
use mdio_tools.Tool.Access.Raw.{Completes, completes, emit_0}
use mdio_tools.Tool.Access.Bench.{emit-some}
use mdio_tools.Tool.Access.Truncation.{dump_code, dump_regs-code}

-- What `dump` is to do: an access of each of `n` registers from `r` on, and the emission of its value.
module _ {B X : Type 0} (h : Host B X) (access : ℕ → B → Option (ℕ × B)) where
  unfoldable pub sweep : ℕ → ℕ → B × X → Option (B × X)
  sweep zero r s = some s
  sweep (suc n) r (b, x) = access r b >>= λ q.
      (reply_value (h.emit (u16 q.0) x) >>= λ e. some e.1) >>= λ x'. sweep n (r + 1) (q.1, x')

dump_prog-regs :
    (drv : Driver) (range : RegRange) (prog : Prog)
    → drv.dump ≡ none
    → dump_regs dump_fuel drv [] range.start range.end ≡ some (ok prog)
    → dump_prog drv range ≡ some (ok (prog, range))
unfolding dump_prog
dump_prog-regs drv range prog own built = ground arith

module _ {B X : Type 0} {h : Host B X} {drv : Driver} {access : ℕ → B → Option (ℕ × B)}
    (reads : Reads h drv access) where
  -- The code of `n` registers from `r` on, at the position `pc`.
  unfoldable pub dump_tail : ℕ → ℕ → ℕ → Prog
  dump_tail zero pc r = []
  dump_tail (suc n) pc r =
      reads.code pc r ++ (emit_0 ∷ dump_tail n (pc + length (reads.code pc r) + 1) (r + 1))

  dump_code-tail :
      (n : ℕ) (prog : Prog) (r : ℕ) → dump_code reads n prog r ≡ prog ++ dump_tail n (length prog) r
  unfolding dump_code dump_tail push
  dump_code-tail zero prog r = sym (append-nil prog)
  dump_code-tail (suc n) prog r =
      let c = reads.code (length prog) r in
      let len : length ((prog ++ c) ++ emit_0 ∷ []) ≡ length prog + length c + 1 =
        omega (arith, length-append (prog ++ c) (emit_0 ∷ []), length-append prog c) in
      rw (dump_code-tail n ((prog ++ c) ++ emit_0 ∷ []) (r + 1), len) (simp append_assoc)

  tail-Runs :
      {prog : Prog} (calm : Calm h prog) (n : ℕ) (regs : ℕ → ℕ) (pc t r : ℕ) (b b' : B) (x x' : X)
      → At prog pc (dump_tail n pc r)
      → sweep h access n r (b, x) ≡ some (b', x')
      → (regs' : ℕ → ℕ) × (t' : ℕ) × Runs h prog
          (mach regs pc t b x)
          (mach regs' (pc + length (dump_tail n pc r)) t' b' x')
  unfolding sweep dump_tail
  tail-Runs {prog} calm zero regs pc t r b b' x x' at e = (
    regs,
    t,
    subst (λ (q : B × X). Runs h prog (mach regs pc t b x) (mach regs (pc + 0) t q.0 q.1))
        (some-injective (b, x) (b', x') e) (Runs-move (pc + 0) (omega arith) here),
  )
  tail-Runs {prog} calm (suc n) regs pc t r b b' x x' at e =
      let c = reads.code pc r in
      let ((v, b₁), acc, e₁) = >>=-eq-some (access r b) _ e in
      let (x₁, em, e₂) = >>=-eq-some (reply_value (h.emit (u16 v) x) >>= λ q. some q.1) _ e₁ in
      let f : Fetched h prog regs pc t b x (length c) v b₁ =
        reads.read_runs calm regs pc t b x r (At-left prog pc c _ at) acc in
      let (k, em₁) = emit-some h (u16 v) x em in
      let em₂ : h.emit (f.regs' 0) x ≡ got k x₁ = rw f.value em₁ in
      let at₂ = At-right prog pc c _ at in
      let (regs₃, t₃, rest) =
        tail-Runs calm n f.regs' (pc + length c + 1) (suc f.ticks') (r + 1) b₁ b' x₁ x' at₂.1 e₂ in
      (
        regs₃,
        t₃,
        Runs-trans f.runs (
            pass
              (run-emit calm f.regs' (pc + length c) f.ticks' b₁ x (reg 0) 0 0 at₂.0
                (arg_ri-reg 0 f.regs') em₂)
              (Runs-move _
                (omega (arith, length-append c (emit_0 ∷ dump_tail n (pc + length c + 1) (r + 1))))
                rest)),
      )

  -- `dump START-END` of `n` registers, for a driver whose reads do `access` and that has no dump of its
  -- own, while the time is not up, the range ends below the last value of a `uint32_t`, and the code
  -- is shorter than 2^32 instructions: if the accesses of the registers in order, each with the
  -- emission of its value, succeed, then the tool builds a program, which, run by the interpreter,
  -- ends with success after exactly these.
  pub dump_prog-Completes :
      (n : ℕ) (range : RegRange) (b b' : B) (x x' : X)
      → drv.dump ≡ none
      → range.end + 1 ≡ range.start + n
      → range.end < 4294967295
      → ((k : ℕ) → h.time_after k ≡ false)
      → length (dump_tail n 0 range.start) < 4294967296
      → sweep h access n range.start (b, x) ≡ some (b', x')
      → (prog : Prog) × (dump_prog drv range ≡ some (ok (prog, range))) × Completes h prog b x b' x'
  dump_prog-Completes n range b b' x x' own e lt live short sw =
      let prog = dump_tail n 0 range.start in
      let calm : Calm h prog = record { in_time = live; short = short } in
      let built : dump_regs dump_fuel drv [] range.start range.end ≡ some (ok prog) =
        dump_regs-code reads n dump_fuel [] range.start range.end e lt (omega arith)
        ∙ ap (λ (p : Prog). some (ok p)) (dump_code-tail n [] range.start) in
      let (regs', t', runs) =
        tail-Runs calm n (λ _. 0) 0 0 range.start b b' x x' (At-whole prog) sw in
      (
        prog,
        dump_prog-regs drv range prog own built,
        completes calm regs' (0 + length prog) t' b b' x x' runs (omega arith),
      )
