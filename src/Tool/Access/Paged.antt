-- ===== src/Tool/Access/Paged.antt =====
-- src/mdio/paged-phy.c: a paged read selects the page, reads, and puts the old page back.
use mdio_tools.Prelude.{
  ℕ, suc, ◌+◌, ◌%◌, ◌<◌, ◌≡◌, ◌≢◌, refl, sym, subst, ◌∙◌, arith, [], ◌∷◌, ◌++◌, append_assoc, some,
  Option, u16, u32, ◌==◌, if◌then◌else◌, Bool-cases, ==_iff, inl, inr, ap,
}
use mathlib.Core.Option.{some-injective}
use mdio_tools.Isa.{Prog, insn, imm, reg, push, op_read, op_write, op_jeq}
use mdio_tools.Kernel.Machine.{Host, arg_ri, update, jump}
use mdio_tools.Kernel.Runs.{
  mach, At, Calm, Runs, here, pass, Runs-trans, Runs-move, run-read, run-write, run-jeq_taken,
  run-jeq_passed, At-bound,
}
use mdio_tools.Kernel.Runs.Decode.{arg_ri-imm, arg_ri-reg, arg_i-imm, jump-forward}
use mdio_tools.Tool.Args.{Libc}
use mdio_tools.Tool.Paged.{PagedPhy, page_of, reg_of, pphy_read, pphy_driver}
use mdio_tools.Tool.Access.{
  fetch, store, fetch-some, store-some, Fetched, Reads, ◌>>=◌, >>=-eq-some,
}

module _ {B X : Type 0} (h : Host B X) (d : PagedPhy) where
  -- Write the page register unless `old` is the page already.
  unfoldable pub turn : ℕ → ℕ → ℕ → B → Option B
  turn old page to b =
      if u16 old == u16 page then some b else store h (u16 d.id) (u16 d.page_reg) to b

  -- What a paged read is, by the accesses of the bus that it makes.
  unfoldable pub paged_access : ℕ → B → Option (ℕ × B)
  unfolding turn
  paged_access r b = do
    (old, b₁) ← fetch h (u16 d.id) (u16 d.page_reg) b
    b₂ ← turn old (page_of r) (u16 (page_of r)) b₁
    (v, b₃) ← fetch h (u16 d.id) (u16 (reg_of r)) b₂
    b₄ ← turn old (page_of r) (u16 old) b₃
    some (v, b₄)

  -- Skip the next instruction, a write of the page register, if register 1 holds the page.
  abbrev pub turn_code : ℕ → ℕ → Prog
  turn_code page arg =
      insn op_jeq (reg 1) (imm page) (imm 1) ∷ insn op_write (imm d.id) (imm d.page_reg) arg ∷ []

  pub turn-Runs :
      {prog : Prog} (calm : Calm h prog) (regs : ℕ → ℕ) (pc t : ℕ) (b b' : B) (x : X)
      (old page arg to : ℕ)
      → At prog pc (turn_code page arg)
      → regs 1 ≡ u16 old
      → arg_ri (arg % 262144) regs ≡ some to
      → turn old page to b ≡ some b'
      → (t' : ℕ) × Runs h prog (mach regs pc t b x) (mach regs (pc + 2) t' b' x)
  unfolding turn
  turn-Runs {prog} calm regs pc t b b' x old page arg to at e a tn =
      elim (Bool-cases (u16 old == u16 page)) [
        | inl same ↦
            let eb : some b ≡ some b' = rw same at tn in
            let target : u32 (jump pc 1 + 1) ≡ pc + 2 =
              jump-forward pc 1 (omega arith)
                (omega (arith, At-bound prog (pc + 1) _ at.1.0, calm.short))
              ∙ (omega arith) in
            (
              suc t,
              subst (λ (b₀ : B). Runs h prog (mach regs pc t b x) (mach regs (pc + 2) (suc t) b₀ x))
                  (some-injective _ _ eb)
                  (pass
                    (run-jeq_taken calm regs pc t b x (reg 1) (imm page) (imm 1) (pc + 2) at.0
                      (arg_ri-reg 1 regs) (arg_ri-imm page regs) (arg_i-imm 1) (rw e same) target)
                    here),
            )
        | inr differs ↦
            let st : store h (u16 d.id) (u16 d.page_reg) to b ≡ some b' = rw differs at tn in
            (
              suc (suc t),
              Runs-move (pc + 2) (omega arith) (
                  pass
                    (run-jeq_passed calm regs pc t b x (reg 1) (imm page) (imm 1) at.0
                      (arg_ri-reg 1 regs) (arg_ri-imm page regs) (rw e differs))
                    (pass
                      (run-write calm regs (pc + 1) (suc t) b x (imm d.id) (imm d.page_reg) arg
                        at.1.0 (arg_ri-imm d.id regs) (arg_ri-imm d.page_reg regs) a
                        (store-some h _ _ to b st).1)
                      here)),
            )
      ]

  -- The parts of the access code: select, read, restore.
  abbrev pub paged_code : ℕ → Prog
  paged_code r =
      (insn op_read (imm d.id) (imm d.page_reg) (reg 1) ∷ turn_code (page_of r) (imm (page_of r)))
      ++ (insn op_read (imm d.id) (imm (reg_of r)) (reg 0) ∷ turn_code (page_of r) (reg 1))

  paged_steps :
      {prog : Prog} (calm : Calm h prog) (regs : ℕ → ℕ) (pc t : ℕ) (b b₁ b₂ b₃ b₄ : B) (x : X)
      (r old v : ℕ)
      → At prog pc (paged_code r)
      → fetch h (u16 d.id) (u16 d.page_reg) b ≡ some (old, b₁)
      → turn old (page_of r) (u16 (page_of r)) b₁ ≡ some b₂
      → fetch h (u16 d.id) (u16 (reg_of r)) b₂ ≡ some (v, b₃)
      → turn old (page_of r) (u16 old) b₃ ≡ some b₄
      → Fetched h prog regs pc t b x 6 v b₄
  unfolding update
  paged_steps {prog} calm regs pc t b b₁ b₂ b₃ b₄ x r old v at f₁ f₂ f₃ f₄ =
      let r₁ = update regs 1 (u16 old) in
      let r₂ = update r₁ 0 (u16 v) in
      let p₃ = pc + 1 + 1 + 1 in
      let (t₂, sel) =
        turn-Runs calm r₁ (pc + 1) (suc t) b₁ b₂ x old (page_of r) (imm (page_of r))
          (u16 (page_of r)) (at.1.0, (at.1.1.0, tt)) refl (arg_ri-imm (page_of r) r₁) f₂ in
      let (t₄, res) =
        turn-Runs calm r₂ (p₃ + 1) (suc t₂) b₃ b₄ x old (page_of r) (reg 1) (u16 old)
          (at.1.1.1.1.0, (at.1.1.1.1.1.0, tt)) refl (arg_ri-reg 1 r₂) f₄ in
      record {
        regs' = r₂;
        ticks' = t₄;
        runs =
            pass
              (run-read calm regs pc t b x (imm d.id) (imm d.page_reg) 1 at.0 (arg_ri-imm d.id regs)
                (arg_ri-imm d.page_reg regs) (fetch-some h _ _ b f₁))
              (Runs-trans (Runs-move p₃ (omega arith) sel) (
                pass
                  (run-read calm r₁ p₃ t₂ b₂ x (imm d.id) (imm (reg_of r)) 0 at.1.1.1.0
                    (arg_ri-imm d.id r₁) (arg_ri-imm (reg_of r) r₁) (fetch-some h _ _ b₂ f₃))
                  (Runs-move (pc + 6) (omega arith) res)));
        value = refl;
        keeps_6 = refl;
        keeps_7 = refl;
      }

  pub paged_runs :
      {prog : Prog} (calm : Calm h prog) (regs : ℕ → ℕ) (pc t : ℕ) (b b' : B) (x : X) (r v : ℕ)
      → At prog pc (paged_code r)
      → paged_access r b ≡ some (v, b')
      → Fetched h prog regs pc t b x 6 v b'
  unfolding paged_access
  paged_runs {prog} calm regs pc t b b' x r v at e =
      let ((old, b₁), f₁, e₁) = >>=-eq-some (fetch h (u16 d.id) (u16 d.page_reg) b) _ e in
      let (b₂, f₂, e₂) = >>=-eq-some (turn old (page_of r) (u16 (page_of r)) b₁) _ e₁ in
      let ((w, b₃), f₃, e₃) = >>=-eq-some (fetch h (u16 d.id) (u16 (reg_of r)) b₂) _ e₂ in
      let (b₄, f₄, e₄) = >>=-eq-some (turn old (page_of r) (u16 old) b₃) _ e₃ in
      subst (λ (q : ℕ × B). Fetched h prog regs pc t b x 6 q.0 q.1)
        (some-injective (w, b₄) (v, b') e₄)
        (paged_steps calm regs pc t b b₁ b₂ b₃ b₄ x r old w at f₁ f₂ f₃ f₄)

  -- The code of a paged driver's read, run anywhere in a program, does `paged_access` (the page is
  -- read, written if it differs, the register read, and the old page written back if it differed),
  -- leaves the value in register 0, and keeps the registers 6 and 7.
  unfoldable pub pphy_reads : (c : Libc) (max : ℕ) → Reads h (pphy_driver c max d) paged_access
  unfolding pphy_driver pphy_read push
  pphy_reads c max = record {
    code = λ _ r. paged_code r;
    read_code = λ prog r. simp append_assoc;
    read_runs = λ calm regs pc t b x r at e. paged_runs calm regs pc t b _ x r _ at e;
  }

-- A bus that behaves as a paged PHY: the page register selects which cells the others reach, and
-- reads have no side effects.
pub record PagedBus {B X : Type 0} (h : Host B X) (d : PagedPhy) : Type 0 where
  pub page : B → ℕ
  pub cell : B → ℕ → ℕ → ℕ
  pub select : ℕ → B → B
  pub page_fits : (b : B) → page b < 65536
  pub fetch-page : (b : B) → fetch h (u16 d.id) (u16 d.page_reg) b ≡ some (page b, b)
  pub fetch-cell :
      (b : B) (r : ℕ)
      → r ≢ d.page_reg
      → r < 32
      → fetch h (u16 d.id) r b ≡ some (cell b (page b) r, b)
  pub store-page :
      (b : B) (p : ℕ) → p < 65536 → store h (u16 d.id) (u16 d.page_reg) p b ≡ some (select p b)
  pub page-select : (b : B) (p : ℕ) → p < 65536 → page (select p b) ≡ p
  pub cell-select : (b : B) (p : ℕ) → p < 65536 → cell (select p b) ≡ cell b
  pub select-select : (b : B) (p q : ℕ) → q < 65536 → select p (select q b) ≡ select p b
  pub select-page : (b : B) → select (page b) b ≡ b

module _ {B X : Type 0} {h : Host B X} {d : PagedPhy} (pb : PagedBus h d) where
  open pb use {
    page, cell, select, page_fits, fetch-page, fetch-cell, store-page, page-select, cell-select,
    select-select, select-page,
  }

  -- On a bus that behaves as a paged PHY, the accesses of a paged read of a register other than the
  -- page register give the register's cell on the page that is named in it, whichever page was
  -- selected, and leave the device as it was, the selected page included.
  pub paged_access-transparent :
      (r : ℕ) (b : B)
      → reg_of r ≢ d.page_reg
      → paged_access h d r b ≡ some (cell b (page_of r) (reg_of r), b)
  unfolding paged_access turn
  paged_access-transparent r b ne =
      let p = page_of r in
      let e_page : u16 (page b) ≡ page b = omega (arith, page_fits b) in
      let e_to : u16 p ≡ p = omega arith in
      let e_reg : u16 (reg_of r) ≡ reg_of r = omega arith in
      elim (Bool-cases (u16 (page b) == u16 p)) [
        | inl same ↦
            let e : page b ≡ p = sym e_page ∙ (==_iff _ _).0 same ∙ e_to in
            rw (fetch-page b, same, e_reg, fetch-cell b (reg_of r) ne (omega arith))
              (ap (λ (q : ℕ). some (cell b q (reg_of r), b)) e)
        | inr differs ↦
            rw
              (
                fetch-page b,
                differs,
                store-page b (u16 p) (omega arith),
                e_reg,
                fetch-cell (select (u16 p) b) (reg_of r) ne (omega arith),
                store-page (select (u16 p) b) (u16 (page b)) (omega arith),
                cell-select b (u16 p) (omega arith),
                page-select b (u16 p) (omega arith),
                select-select b (u16 (page b)) (u16 p) (omega arith),
              )
              (rw (e_to, e_page, select-page b))
      ]
