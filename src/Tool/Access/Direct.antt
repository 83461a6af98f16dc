-- ===== src/Tool/Access/Direct.antt =====
-- src/mdio/phy.c: a PHY's read is one bus read, and its write one bus write.
use mdio_tools.Prelude.{ℕ, refl, [], ◌∷◌, Option, u16, suc}
use mdio_tools.Isa.{insn, imm, reg, push, op_read, op_write}
use mdio_tools.Kernel.Machine.{Host, update}
use mdio_tools.Kernel.Runs.{here, pass, run-read, run-write}
use mdio_tools.Kernel.Runs.Decode.{arg_ri-imm}
use mdio_tools.Tool.Phy.{phy_read, phy_write, phy_driver}
use mdio_tools.Tool.Access.{fetch, store, fetch-some, store-some, Reads, Writes}

module _ {B X : Type 0} (h : Host B X) (id : ℕ) where
  -- What a read of a PHY's register is: one read of the bus.
  unfoldable pub phy_access : ℕ → B → Option (ℕ × B)
  phy_access r b = fetch h (u16 id) (u16 r) b

  unfoldable pub phy_reads : Reads h (phy_driver id) phy_access
  unfolding phy_access phy_read update push
  phy_reads = record {
    code = λ _ r. insn op_read (imm id) (imm r) (reg 0) ∷ [];
    read_code = λ prog r. refl;
    read_runs = λ calm regs pc t b x r at e. record {
      regs' = update regs 0 (u16 _);
      ticks' = suc t;
      runs =
          pass
            (run-read calm regs pc t b x (imm id) (imm r) 0 at.0 (arg_ri-imm id regs)
              (arg_ri-imm r regs) (fetch-some h _ _ b e))
            here;
      value = refl;
      keeps_6 = refl;
      keeps_7 = refl;
    };
  }

  -- What a write of a PHY's register is: one write of the bus.
  unfoldable pub phy_deposit : ℕ → ℕ → B → Option B
  phy_deposit r val b = store h (u16 id) (u16 r) val b

  unfoldable pub phy_writes : Writes h (phy_driver id) phy_deposit
  unfolding phy_deposit phy_write push
  phy_writes = record {
    code = λ _ r arg. insn op_write (imm id) (imm r) arg ∷ [];
    write_code = λ prog r arg. refl;
    write_runs = λ calm regs pc t b x r arg at steady e. record {
      regs' = regs;
      ticks' = suc t;
      runs =
          pass
            (run-write calm regs pc t b x (imm id) (imm r) arg at.0 (arg_ri-imm id regs)
              (arg_ri-imm r regs) (steady regs refl refl) (store-some h _ _ _ b e).1)
            here;
      keeps_7 = refl;
    };
  }
