-- ===== src/Tool/Access/Polling.antt =====
-- src/mdio/mvls.c: the wait for a LinkStreet switch, whose programs look at the busy bit of the command
-- register until it is clear, and accesses by multi-chip addressing.
use mdio_tools.Prelude.{
  ℕ, zero, suc, ◌+◌, ◌-◌, ◌==◌, if◌then◌else◌, Bool, true, false, ◌≡◌, ◌≢◌, ◌∙◌, arith, [], ◌∷◌,
  ◌++◌, append_assoc, some, none, Option, u8, u16, u32, bit_and, length, length-append, inl, inr,
  Bool-cases, some-injective, subst, ne→==,
}
use mdio_tools.Isa.{Prog, insn, imm, reg, goto, push, op_read, op_and, op_jeq}
use mdio_tools.Kernel.Machine.{Host, update, jump}
use mdio_tools.Kernel.Runs.{
  mach, At, At-bound, Calm, Runs, here, pass, Runs-trans, Runs-move, run-read, run-and,
  run-jeq_taken, run-jeq_passed,
}
use mdio_tools.Kernel.Runs.Decode.{arg_ri-imm, arg_ri-reg, arg_i-goto, jump-goto}
use mdio_tools.Tool.LinkStreet.{mvls_cmd, cmd_busy, retry_busy, wait_cmd}
use mdio_tools.Tool.Access.{fetch, fetch-some, ◌>>=◌, >>=-eq-some}

-- What the code of both wait loops takes as a set busy bit.
unfoldable pub busy : ℕ → Bool
busy v = u16 (bit_and (u16 v) (u16 cmd_busy)) == u16 cmd_busy

-- The loop of mvls_wait_cmd, as it stands at `pc`.
abbrev pub wait_code : ℕ → ℕ → Prog
wait_code id pc =
    insn op_read (imm (u8 id)) (imm mvls_cmd) (reg 0)
    ∷ insn op_and (reg 0) (imm cmd_busy) (reg 0)
    ∷ insn op_jeq (reg 0) (imm cmd_busy) (goto (pc + 2) pc)
    ∷ []

module _ {B X : Type 0} (h : Host B X) (id : ℕ) where
  -- Read the command register up to `n + 1` times, until the busy bit is clear.
  unfoldable pub await : ℕ → B → Option B
  await zero b =
      fetch h (u16 (u8 id)) (u16 mvls_cmd) b >>= λ (v, b'). if busy v then none else some b'
  await (suc n) b = fetch h (u16 (u8 id)) (u16 mvls_cmd) b >>= λ (v, b').
      (let more = await n b' in if busy v then more else some b')

  -- Behind the wait loop only register 0 differs.
  pub record Waited (prog : Prog) (regs : ℕ → ℕ) (pc t : ℕ) (b : B) (x : X) (b' : B) : Type 0 where
    pub regs' : ℕ → ℕ
    pub ticks' : ℕ
    pub runs : Runs h prog (mach regs pc t b x) (mach regs' (pc + 3) ticks' b' x)
    pub keeps : (k : ℕ) → k ≢ 0 → regs' k ≡ regs k

  -- One pass through the loop, up to its jump.
  module _ {prog : Prog} (calm : Calm h prog) (regs : ℕ → ℕ) (pc t : ℕ) (b : B) (x : X)
      (at : At prog pc (wait_code id pc)) {v : ℕ} {b' : B}
      (f : fetch h (u16 (u8 id)) (u16 mvls_cmd) b ≡ some (v, b')) where
    abbrev seen : ℕ → ℕ
    seen = update (update regs 0 (u16 v)) 0 (u16 (bit_and (u16 v) (u16 cmd_busy)))

    looked : Runs h prog (mach regs pc t b x) (mach seen (pc + 1 + 1) (suc (suc t)) b' x)
    unfolding update
    looked =
        pass
          (run-read calm regs pc t b x (imm (u8 id)) (imm mvls_cmd) 0 at.0 (arg_ri-imm (u8 id) regs)
            (arg_ri-imm mvls_cmd regs) (fetch-some h _ _ b f))
          (pass
            (run-and calm (update regs 0 (u16 v)) (pc + 1) (suc t) b' x (reg 0) (imm cmd_busy) 0
              at.1.0 (arg_ri-reg 0 (update regs 0 (u16 v)))
              (arg_ri-imm cmd_busy (update regs 0 (u16 v))))
            here)

    jumped :
        busy v ≡ true → Runs h prog (mach regs pc t b x) (mach seen pc (suc (suc (suc t))) b' x)
    unfolding busy update
    jumped e =
        let two : pc + 1 + 1 ≡ pc + 2 = omega arith in
        let far = At-bound prog (pc + 1 + 1) _ at.1.1.0 in
        let target : u32 (jump (pc + 1 + 1) (u16 (pc + 4294967296 - (pc + 2) - 1)) + 1) ≡ pc =
          rw two
            (jump-goto (pc + 2) pc (omega arith) (omega arith) (omega (arith, far, calm.short))) in
        Runs-trans looked (
          pass
            (run-jeq_taken calm seen (pc + 1 + 1) (suc (suc t)) b' x (reg 0) (imm cmd_busy)
              (goto (pc + 2) pc) pc at.1.1.0 (arg_ri-reg 0 seen) (arg_ri-imm cmd_busy seen)
              (arg_i-goto (pc + 2) pc) e target)
            here)

    passed : busy v ≡ false → Waited prog regs pc t b x b'
    unfolding busy update
    passed e = record {
      regs' = seen;
      ticks' = suc (suc (suc t));
      runs = Runs-move (pc + 3) (omega arith) (
          Runs-trans looked (
            pass
              (run-jeq_passed calm seen (pc + 1 + 1) (suc (suc t)) b' x (reg 0) (imm cmd_busy)
                (goto (pc + 2) pc) at.1.1.0 (arg_ri-reg 0 seen) (arg_ri-imm cmd_busy seen) e)
              here));
      keeps = λ k ne. rw (ne→== k 0 ne);
    }

    seen_keeps : (k : ℕ) → k ≢ 0 → seen k ≡ regs k
    unfolding update
    seen_keeps k ne = rw (ne→== k 0 ne)

  -- If the busy bit is seen clear within `n + 1` looks, then the loop comes to its end.
  pub wait_runs :
      {prog : Prog} (calm : Calm h prog) (n : ℕ) (regs : ℕ → ℕ) (pc t : ℕ) (b : B) (x : X) (b' : B)
      → At prog pc (wait_code id pc)
      → await n b ≡ some b'
      → Waited prog regs pc t b x b'
  unfolding await
  wait_runs {prog} calm zero regs pc t b x b' at e =
      let ((v, b₁), f, e₁) = >>=-eq-some (fetch h (u16 (u8 id)) (u16 mvls_cmd) b) _ e in
      elim (Bool-cases (busy v)) [
        | inl set ↦ let no : none ≡ some b' = rw set at e₁ in cc
        | inr clear ↦
            let same : some b₁ ≡ some b' = rw clear at e₁ in
            subst (λ (b₂ : B). Waited prog regs pc t b x b₂) (some-injective b₁ b' same)
              (passed calm regs pc t b x at f clear)
      ]
  wait_runs {prog} calm (suc n) regs pc t b x b' at e =
      let ((v, b₁), f, e₁) = >>=-eq-some (fetch h (u16 (u8 id)) (u16 mvls_cmd) b) _ e in
      elim (Bool-cases (busy v)) [
        | inl set ↦
            let more : await n b₁ ≡ some b' = rw set at e₁ in
            let q =
              wait_runs calm n (seen calm regs pc t b x at f) pc (suc (suc (suc t))) b₁ x b' at
                more in
            record {
              regs' = q.regs';
              ticks' = q.ticks';
              runs = Runs-trans (jumped calm regs pc t b x at f set) q.runs;
              keeps = λ k ne. q.keeps k ne ∙ seen_keeps calm regs pc t b x at f k ne;
            }
        | inr clear ↦
            let same : some b₁ ≡ some b' = rw clear at e₁ in
            subst (λ (b₂ : B). Waited prog regs pc t b x b₂) (some-injective b₁ b' same)
              (passed calm regs pc t b x at f clear)
      ]

-- wait_cmd appends the loop.
pub wait_cmd-code :
    (id : ℕ) (prog : Prog) → wait_cmd (u8 id) prog ≡ prog ++ wait_code id (length prog)
unfolding wait_cmd retry_busy push
wait_cmd-code id prog =
    let read = insn op_read (imm (u8 id)) (imm mvls_cmd) (reg 0) in
    let mask = insn op_and (reg 0) (imm cmd_busy) (reg 0) in
    let len : length ((prog ++ read ∷ []) ++ mask ∷ []) ≡ length prog + 2 =
      omega
        (arith, length-append (prog ++ read ∷ []) (mask ∷ []), length-append prog (read ∷ [])) in
    rw len (simp append_assoc)
