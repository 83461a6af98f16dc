-- ===== src/Tool/Access/Indirect.antt =====
-- src/mdio/phy.c and src/mdio/xrs.c: registers that are reached by writing their address first.
use mdio_tools.Prelude.{
  ℕ, suc, ◌+◌, ◌≡◌, refl, sym, ◌∙◌, arith, List, [], ◌∷◌, append_assoc, some, Option, u16, bit_or,
  length,
}
use mdio_tools.Isa.{Prog, insn, imm, reg, push, op_read, op_write}
use mdio_tools.Kernel.Machine.{Host, update}
use mdio_tools.Kernel.Runs.{At, Calm, here, pass, Runs-move, run-read, run-write}
use mdio_tools.Kernel.Runs.Decode.{arg_ri-imm}
use mdio_tools.Tool.Args.{Libc}
use mdio_tools.Tool.Phy.{mmd_prtad, mmd_devad, mmd_c22_read, mmd_c22_driver}
use mdio_tools.Tool.Xrs.{xrs_read, xrs_driver, xrs_iba0, xrs_iba1, xrs_ibd, iba_low, iba_high}
use mdio_tools.Tool.Access.{
  fetch, store, fetch-some, store-some, Fetched, Reads, ◌>>=◌, >>=-eq-some, bind_assoc,
}

module _ {B X : Type 0} (h : Host B X) (dev : ℕ) where
  -- Writes of one device's registers, each a register and a value.
  abbrev pub stores : List (ℕ × ℕ) → B → Option B
  stores [] b = some b
  stores ((r, v) ∷ ws) b = store h (u16 dev) (u16 r) (u16 v) b >>= stores ws

  abbrev pub stores_code : List (ℕ × ℕ) → Prog → Prog
  stores_code [] rest = rest
  stores_code ((r, v) ∷ ws) rest = insn op_write (imm dev) (imm r) (imm v) ∷ stores_code ws rest

  -- Straight-line code: the writes, then a read into register 0.
  pub straight :
      {prog : Prog} (calm : Calm h prog) (ws : List (ℕ × ℕ)) (r : ℕ) (regs : ℕ → ℕ) (pc t : ℕ)
      (b : B) (x : X) (v : ℕ) (b' : B)
      → At prog pc (stores_code ws (insn op_read (imm dev) (imm r) (reg 0) ∷ []))
      → (stores ws b >>= fetch h (u16 dev) (u16 r)) ≡ some (v, b')
      → Fetched h prog regs pc t b x
          (length (stores_code ws (insn op_read (imm dev) (imm r) (reg 0) ∷ [])))
          v
          b'
  unfolding update
  straight {prog} calm [] r regs pc t b x v b' at e = record {
    regs' = update regs 0 (u16 v);
    ticks' = suc t;
    runs =
        pass
          (run-read calm regs pc t b x (imm dev) (imm r) 0 at.0 (arg_ri-imm dev regs)
            (arg_ri-imm r regs) (fetch-some h _ _ b e))
          here;
    value = refl;
    keeps_6 = refl;
    keeps_7 = refl;
  }
  straight {prog} calm ((wr, wv) ∷ ws) r regs pc t b x v b' at e =
      let (b₁, w, rest) = >>=-eq-some (store h (u16 dev) (u16 wr) (u16 wv) b) _ (
        sym (
          bind_assoc (store h (u16 dev) (u16 wr) (u16 wv) b) (stores ws)
            (fetch h (u16 dev) (u16 r)))
        ∙ e) in
      let f = straight calm ws r regs (pc + 1) (suc t) b₁ x v b' at.1 rest in
      record {
        regs' = f.regs';
        ticks' = f.ticks';
        runs =
            pass
              (run-write calm regs pc t b x (imm dev) (imm wr) (imm wv) at.0 (arg_ri-imm dev regs)
                (arg_ri-imm wr regs) (arg_ri-imm wv regs) (store-some h _ _ _ b w).1)
              (Runs-move _ (omega arith) f.runs);
        value = f.value;
        keeps_6 = f.keeps_6;
        keeps_7 = f.keeps_7;
      }

module _ {B X : Type 0} (h : Host B X) (id : ℕ) where
  -- What a read through the MMD registers of Clause 22 is: the address function of the device, the
  -- register, the data function, and the data.
  unfoldable pub mmd_c22_access : Libc → ℕ → B → Option (ℕ × B)
  mmd_c22_access c r b =
      let port = mmd_prtad c id in
      let ctrl = mmd_devad c id in
      stores h port ((13, ctrl) ∷ (14, r) ∷ (13, bit_or ctrl 0x4000) ∷ []) b
      >>= fetch h (u16 port) (u16 14)

  unfoldable pub mmd_c22_reads : (c : Libc) → Reads h (mmd_c22_driver c id) (mmd_c22_access c)
  unfolding mmd_c22_access mmd_c22_read push
  mmd_c22_reads c = record {
    code = λ _ r.
        stores_code h (mmd_prtad c id)
          ((13, mmd_devad c id) ∷ (14, r) ∷ (13, bit_or (mmd_devad c id) 0x4000) ∷ [])
          (insn op_read (imm (mmd_prtad c id)) (imm 14) (reg 0) ∷ []);
    read_code = λ prog r. simp append_assoc;
    read_runs = λ calm regs pc t b x r at e.
        straight h (mmd_prtad c id) calm
          ((13, mmd_devad c id) ∷ (14, r) ∷ (13, bit_or (mmd_devad c id) 0x4000) ∷ []) 14 regs pc t
          b x _ _ at e;
  }

  -- What a read of an XRS device is: the high half of the address, the low half, and the data.
  unfoldable pub xrs_access : ℕ → B → Option (ℕ × B)
  xrs_access r b =
      stores h id ((xrs_iba1, iba_high r) ∷ (xrs_iba0, iba_low r) ∷ []) b
      >>= fetch h (u16 id) (u16 xrs_ibd)

  unfoldable pub xrs_reads : Reads h (xrs_driver id) xrs_access
  unfolding xrs_access xrs_read push
  xrs_reads = record {
    code = λ _ r.
        stores_code h id ((xrs_iba1, iba_high r) ∷ (xrs_iba0, iba_low r) ∷ [])
          (insn op_read (imm id) (imm xrs_ibd) (reg 0) ∷ []);
    read_code = λ prog r. simp append_assoc;
    read_runs = λ calm regs pc t b x r at e.
        straight h id calm ((xrs_iba1, iba_high r) ∷ (xrs_iba0, iba_low r) ∷ []) xrs_ibd regs pc t b
          x _ _ at e;
  }
