-- ===== src/Tool/Access/PagedWrite.antt =====
-- src/mdio/paged-phy.c: a paged write selects the page, writes, and puts the old page back.
use mdio_tools.Prelude.{
  ℕ, suc, ◌+◌, ◌<◌, ◌≡◌, ◌≢◌, refl, sym, ◌∙◌, arith, ◌∷◌, ◌++◌, append_assoc, some, Option, u16,
  ◌==◌, Bool-cases, ==_iff, inl, inr, ap,
}
use mdio_tools.Isa.{Prog, insn, imm, reg, push, op_read, op_write}
use mdio_tools.Kernel.Machine.{Host, update}
use mdio_tools.Kernel.Runs.{At, Calm, pass, Runs-trans, Runs-move, run-read, run-write}
use mdio_tools.Kernel.Runs.Decode.{arg_ri-imm, arg_ri-reg}
use mdio_tools.Tool.Args.{Libc}
use mdio_tools.Tool.Paged.{
  PagedPhy, select_page, restore_page, page_of, reg_of, pphy_write, pphy_driver,
}
use mdio_tools.Tool.Access.{
  fetch, store, fetch-some, store-some, Stored, Writes, Steady, ◌>>=◌, >>=-eq-some,
}
use mdio_tools.Tool.Access.Paged.{turn, turn_code, turn-Runs, PagedBus}

module _ {B X : Type 0} (h : Host B X) (d : PagedPhy) where
  -- What a paged write is, by the accesses of the bus that it makes.
  unfoldable pub paged_deposit : ℕ → ℕ → B → Option B
  paged_deposit r val b = do
    (old, b₁) ← fetch h (u16 d.id) (u16 d.page_reg) b
    b₂ ← turn h d old (page_of r) (u16 (page_of r)) b₁
    b₃ ← store h (u16 d.id) (u16 (reg_of r)) val b₂
    turn h d old (page_of r) (u16 old) b₃

  abbrev pub paged_write_code : ℕ → ℕ → Prog
  paged_write_code r arg =
      (insn op_read (imm d.id) (imm d.page_reg) (reg 1)
        ∷ turn_code h d (page_of r) (imm (page_of r)))
      ++ (insn op_write (imm d.id) (imm (reg_of r)) arg ∷ turn_code h d (page_of r) (reg 1))

  paged_write_steps :
      {prog : Prog} (calm : Calm h prog) (regs : ℕ → ℕ) (pc t : ℕ) (b b₁ b₂ b₃ b₄ : B) (x : X)
      (r arg val old : ℕ)
      → At prog pc (paged_write_code r arg)
      → Steady h arg regs val
      → fetch h (u16 d.id) (u16 d.page_reg) b ≡ some (old, b₁)
      → turn h d old (page_of r) (u16 (page_of r)) b₁ ≡ some b₂
      → store h (u16 d.id) (u16 (reg_of r)) val b₂ ≡ some b₃
      → turn h d old (page_of r) (u16 old) b₃ ≡ some b₄
      → Stored h prog regs pc t b x 6 b₄
  unfolding update
  paged_write_steps {prog} calm regs pc t b b₁ b₂ b₃ b₄ x r arg val old at steady f₁ f₂ f₃ f₄ =
      let r₁ = update regs 1 (u16 old) in
      let p₃ = pc + 1 + 1 + 1 in
      let (t₂, sel) =
        turn-Runs h d calm r₁ (pc + 1) (suc t) b₁ b₂ x old (page_of r) (imm (page_of r))
          (u16 (page_of r)) (at.1.0, (at.1.1.0, tt)) refl (arg_ri-imm (page_of r) r₁) f₂ in
      let (t₄, res) =
        turn-Runs h d calm r₁ (p₃ + 1) (suc t₂) b₃ b₄ x old (page_of r) (reg 1) (u16 old)
          (at.1.1.1.1.0, (at.1.1.1.1.1.0, tt)) refl (arg_ri-reg 1 r₁) f₄ in
      record {
        regs' = r₁;
        ticks' = t₄;
        runs =
            pass
              (run-read calm regs pc t b x (imm d.id) (imm d.page_reg) 1 at.0 (arg_ri-imm d.id regs)
                (arg_ri-imm d.page_reg regs) (fetch-some h _ _ b f₁))
              (Runs-trans (Runs-move p₃ (omega arith) sel) (
                pass
                  (run-write calm r₁ p₃ t₂ b₂ x (imm d.id) (imm (reg_of r)) arg at.1.1.1.0
                    (arg_ri-imm d.id r₁) (arg_ri-imm (reg_of r) r₁) (steady r₁ refl refl)
                    (store-some h _ _ val b₂ f₃).1)
                  (Runs-move (pc + 6) (omega arith) res)));
        keeps_7 = refl;
      }

  pub paged_write_runs :
      {prog : Prog} (calm : Calm h prog) (regs : ℕ → ℕ) (pc t : ℕ) (b b' : B) (x : X)
      (r arg val : ℕ)
      → At prog pc (paged_write_code r arg)
      → Steady h arg regs val
      → paged_deposit r val b ≡ some b'
      → Stored h prog regs pc t b x 6 b'
  unfolding paged_deposit
  paged_write_runs {prog} calm regs pc t b b' x r arg val at steady e =
      let ((old, b₁), f₁, e₁) = >>=-eq-some (fetch h (u16 d.id) (u16 d.page_reg) b) _ e in
      let (b₂, f₂, e₂) = >>=-eq-some (turn h d old (page_of r) (u16 (page_of r)) b₁) _ e₁ in
      let (b₃, f₃, f₄) = >>=-eq-some (store h (u16 d.id) (u16 (reg_of r)) val b₂) _ e₂ in
      paged_write_steps calm regs pc t b b₁ b₂ b₃ b' x r arg val old at steady f₁ f₂ f₃ f₄

  -- The contract of the paged driver's writes.
  unfoldable pub pphy_writes : (c : Libc) (max : ℕ) → Writes h (pphy_driver c max d) paged_deposit
  unfolding pphy_driver pphy_write select_page restore_page push
  pphy_writes c max = record {
    code = λ _ r arg. paged_write_code r arg;
    write_code = λ prog r arg. simp append_assoc;
    write_runs = λ calm regs pc t b x r arg at steady e.
        paged_write_runs calm regs pc t b _ x r arg _ at steady e;
  }

-- A paged PHY whose registers, other than the page register, keep what is written to them on the page
-- that is selected.
pub record PagedStore {B X : Type 0} {h : Host B X} {d : PagedPhy} (pb : PagedBus h d)
    : Type 0 where
  pub put : ℕ → ℕ → ℕ → B → B
  pub store-cell :
      (b : B) (r val : ℕ)
      → r ≢ d.page_reg
      → r < 32
      → val < 65536
      → store h (u16 d.id) r val b ≡ some (put (pb.page b) r val b)
  pub page-put : (p r val : ℕ) (b : B) → pb.page (put p r val b) ≡ pb.page b
  pub select-put :
      (q p r val : ℕ) (b : B)
      → q < 65536
      → pb.select q (put p r val b) ≡ put p r val (pb.select q b)

module _ {B X : Type 0} {h : Host B X} {d : PagedPhy} (pb : PagedBus h d) (ps : PagedStore pb) where
  open pb use {
    page, select, page_fits, fetch-page, store-page, page-select, select-select, select-page,
  }
  open ps use {put, store-cell, page-put, select-put}

  -- On a bus that behaves as a paged PHY, the accesses of a paged write of 16 bits to a register other
  -- than the page register change its cell on the page that is named in it, whichever page was
  -- selected, and nothing else, the selected page included.
  pub paged_deposit-transparent :
      (r val : ℕ) (b : B)
      → reg_of r ≢ d.page_reg
      → val < 65536
      → paged_deposit h d r val b ≡ some (put (page_of r) (reg_of r) val b)
  unfolding paged_deposit turn
  paged_deposit-transparent r val b ne fits =
      let p = page_of r in
      let e_page : u16 (page b) ≡ page b = omega (arith, page_fits b) in
      let e_to : u16 p ≡ p = omega arith in
      let e_reg : u16 (reg_of r) ≡ reg_of r = omega arith in
      elim (Bool-cases (u16 (page b) == u16 p)) [
        | inl same ↦
            let e : page b ≡ p = sym e_page ∙ (==_iff _ _).0 same ∙ e_to in
            rw (fetch-page b, same, e_reg, store-cell b (reg_of r) val ne (omega arith) fits)
              (ap (λ (q : ℕ). some (put q (reg_of r) val b)) e)
        | inr differs ↦
            rw
              (
                fetch-page b,
                differs,
                store-page b (u16 p) (omega arith),
                e_reg,
                store-cell (select (u16 p) b) (reg_of r) val ne (omega arith) fits,
                store-page (put (page (select (u16 p) b)) (reg_of r) val (select (u16 p) b))
                    (u16 (page b)) (omega arith),
              )
              (rw
                (
                  page-select b (u16 p) (omega arith),
                  select-put (u16 (page b)) (u16 p) (reg_of r) val (select (u16 p) b) (omega arith),
                  select-select b (u16 (page b)) (u16 p) (omega arith),
                )
                (rw (e_to, e_page, select-page b)))
      ]
