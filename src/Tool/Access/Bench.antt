-- ===== src/Tool/Access/Bench.antt =====
-- src/mdio/mdio.c: the loop of `bench` does a thousand accesses and emits what differs.
pub mod Loop
use mdio_tools.Prelude.{
  ℕ, zero, suc, ◌+◌, ◌-◌, ◌*◌, ◌%◌, ◌<◌, ◌≤◌, ◌≡◌, refl, sym, subst, ◌∙◌, arith, List, [], ◌∷◌,
  ◌++◌, append_assoc, some, none, Option, u16, u32, get_elem?, length, length-append, ◌==◌,
  if◌then◌else◌, Bool-cases, ne→==, ==_iff, inl, inr, ap, true, false,
}
use mathlib.Core.Option.{some-injective}
use mdio_tools.Isa.{Prog, Insn, insn, imm, reg, goto, push, op_jeq, op_jne, op_emit, op_add}
use mdio_tools.Kernel.Machine.{Host, Machine, got, arg_ri, update, jump}
use mdio_tools.Kernel.Runs.{
  mach, At, At-bound, Calm, Runs, here, pass, Runs-trans, Runs-move, run-add, run-emit,
  run-jeq_taken, run-jeq_passed, run-jne_taken, run-jne_passed,
}
use mdio_tools.Kernel.Runs.Decode.{
  arg_ri-imm, arg_ri-reg, arg_i-imm, arg_i-goto, jump-forward, jump-goto,
}
use mdio_tools.Tool.Args.{ok}
use mdio_tools.Tool.Device.{Driver}
use mdio_tools.Tool.Common.{bench_loop}
use mdio_tools.Tool.Access.{
  reply_value, reply_value-some, Fetched, Reads, At-left, At-right, At-append, At-middle, At-next,
  ◌>>=◌, >>=-eq-some,
}

-- What the loop is to do: one access, whose value is emitted if it is not the expected one; and
-- `n` of these.
module _ {B X : Type 0} (h : Host B X) (access : ℕ → B → Option (ℕ × B)) (r expected : ℕ) where
  abbrev pub show_wrong : ℕ → X → Option X
  show_wrong v x =
      if u16 v == expected then some x else (reply_value (h.emit (u16 v) x) >>= λ q. some q.1)

  unfoldable pub compare_once : B × X → Option (B × X)
  compare_once (b, x) = access r b >>= λ q. show_wrong q.0 x >>= λ x'. some (q.1, x')

  unfoldable pub compare_times : ℕ → B × X → Option (B × X)
  compare_times zero s = some s
  compare_times (suc n) s = compare_once s >>= compare_times n

pub emit-some :
    {B X : Type 0} (h : Host B X) (v : ℕ) (x : X) {x' : X}
    → (reply_value (h.emit v x) >>= λ q. some q.1) ≡ some x'
    → (n : ℕ) × (h.emit v x ≡ got n x')
emit-some h v x e = ground arith

-- The instructions behind the access code, with the jump back to `loop`.
abbrev pub tail_code : ℕ → ℕ → Prog
tail_code end loop =
    insn op_jeq (reg 0) (reg 7) (imm 1)
    ∷ insn op_emit (reg 0) 0 0
    ∷ insn op_add (reg 6) (imm 1) (reg 6)
    ∷ insn op_jne (reg 6) (imm 1000) (goto end loop)
    ∷ []

-- Where a round of the loop stands before its last instruction.
pub record Rounded {B X : Type 0} (h : Host B X) (prog : Prog) (loop len : ℕ) (regs : ℕ → ℕ) (t : ℕ)
    (b : B) (x : X) (b' : B) (x' : X) : Type 0 where
  pub regs' : ℕ → ℕ
  pub ticks' : ℕ
  pub runs : Runs h prog (mach regs loop t b x) (mach regs' (loop + len + 3) ticks' b' x')
  pub counted : regs' 6 ≡ u16 (regs 6 + 1)
  pub expects : regs' 7 ≡ regs 7

module _ {B X : Type 0} {h : Host B X} {prog : Prog} (calm : Calm h prog) where
  -- The comparison, which skips the EMIT if the value is the expected one.
  compare-Runs :
      (pc end loop : ℕ) (regs : ℕ → ℕ) (t : ℕ) (b : B) (x x' : X) (r v e : ℕ)
      (access : ℕ → B → Option (ℕ × B))
      → At prog pc (tail_code end loop)
      → regs 0 ≡ u16 v
      → regs 7 ≡ e
      → show_wrong h access r e v x ≡ some x'
      → (t' : ℕ) × Runs h prog (mach regs pc t b x) (mach regs (pc + 2) t' b x')
  compare-Runs pc end loop regs t b x x' r v e access at e0 e7 sh = elim (Bool-cases (u16 v == e)) [
    | inl same ↦
        let sx : some x ≡ some x' = rw same at sh in
        let test : (regs 0 == regs 7) ≡ true = rw (e0, e7) same in
        let target : u32 (jump pc 1 + 1) ≡ pc + 2 =
          jump-forward pc 1 (omega arith)
            (omega (arith, At-bound prog (pc + 1) _ at.1.0, calm.short))
          ∙ (omega arith) in
        (
          suc t,
          subst (λ (x₀ : X). Runs h prog (mach regs pc t b x) (mach regs (pc + 2) (suc t) b x₀))
              (some-injective _ _ sx)
              (pass
                (run-jeq_taken calm regs pc t b x (reg 0) (reg 7) (imm 1) (pc + 2) at.0
                  (arg_ri-reg 0 regs) (arg_ri-reg 7 regs) (arg_i-imm 1) test target)
                here),
        )
    | inr differs ↦
        let test : (regs 0 == regs 7) ≡ false = rw (e0, e7) differs in
        let sx : (reply_value (h.emit (u16 v) x) >>= λ q. some q.1) ≡ some x' = rw differs at sh in
        let (n, em) = emit-some h (u16 v) x sx in
        let em' : h.emit (regs 0) x ≡ got n x' = rw e0 em in
        (
          suc (suc t),
          Runs-move (pc + 2) (omega arith) (
              pass
                (run-jeq_passed calm regs pc t b x (reg 0) (reg 7) (imm 1) at.0 (arg_ri-reg 0 regs)
                  (arg_ri-reg 7 regs) test)
                (pass
                  (run-emit calm regs (pc + 1) (suc t) b x (reg 0) 0 0 at.1.0 (arg_ri-reg 0 regs)
                    em')
                  here)),
        )
  ]

  -- One round of the loop up to its last instruction.
  pub round-Runs :
      (loop len : ℕ) (regs : ℕ → ℕ) (t : ℕ) (b b₁ : B) (x x' : X) (r v e end : ℕ)
      (access : ℕ → B → Option (ℕ × B))
      → Fetched h prog regs loop t b x len v b₁
      → At prog (loop + len) (tail_code end loop)
      → regs 7 ≡ e
      → show_wrong h access r e v x ≡ some x'
      → Rounded h prog loop len regs t b x b₁ x'
  unfolding update
  round-Runs loop len regs t b b₁ x x' r v e end access f at e7 sh =
      let pc = loop + len in
      let (t₂, cmp) =
        compare-Runs pc end loop f.regs' f.ticks' b₁ x x' r v e access at f.value (f.keeps_7 ∙ e7)
          sh in
      record {
        regs' = update f.regs' 6 (u16 (f.regs' 6 + 1));
        ticks' = suc t₂;
        runs = Runs-trans f.runs (
            Runs-trans cmp (
              pass
                (run-add calm f.regs' (pc + 2) t₂ b₁ x' (reg 6) (imm 1) 6 at_add
                  (arg_ri-reg 6 f.regs') (arg_ri-imm 1 f.regs'))
                (Runs-move (pc + 3) (omega arith) here)));
        counted = ap (λ (k : ℕ). u16 (k + 1)) f.keeps_6;
        expects = f.keeps_7;
      }
    where
      at_add : get_elem? prog (loop + len + 2) ≡ some (insn op_add (reg 6) (imm 1) (reg 6))
      at_add = let same : loop + len + 1 + 1 ≡ loop + len + 2 = omega arith in rw same at at.1.1.0
