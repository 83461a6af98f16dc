-- ===== src/Tool/Typed/Drivers.antt =====
-- src/mdio: every driver of the tool appends accepted code.
use mdio_tools.Prelude.{ℕ, ◌+◌, Bool, if◌then◌else◌, ◌/◌, ◌==◌, true, false, refl, u8, u16, bit_or}
use mdio_tools.Isa.{Prog, insn, imm, push, op_write}
use mdio_tools.Tool.Args.{Libc}
use mdio_tools.Tool.Device.{Driver}
use mdio_tools.Tool.Phy.{
  phy_driver, phy_read, phy_write, mmd_c22_driver, mmd_c22_read, mmd_c22_write, mmd_prtad,
  mmd_devad,
}
use mdio_tools.Tool.Paged.{
  PagedPhy, pphy_driver, pphy_read, pphy_write, select_page, restore_page, page_of, reg_of,
}
use mdio_tools.Tool.Xrs.{
  xrs_driver, xrs_read, xrs_write, xrs_iba0, xrs_iba1, xrs_ibd, iba_low, iba_high,
}
use mdio_tools.Tool.LinkStreet.{
  mvls_driver, mvls_read, mvls_write, mvls_read_to, mvls_write_prog, wait_cmd, retry_busy,
  multi_cmd, mvls_cmd, mvls_data, cmd_busy,
}
use mdio_tools.Tool.Typed.{
  a_reg, an_imm, Typed, TypedDriver, push-Typed, read_typed, write_typed, and_typed, jeq_typed,
  jeq_goto_typed,
}

pub phy_driver-Typed : (id : ℕ) → TypedDriver (phy_driver id)
unfolding phy_read phy_write
phy_driver-Typed id = record {
  reads = λ prog r h. (_, refl, push-Typed prog _ h (read_typed (an_imm id) (an_imm r) 0));
  writes = λ prog r s h. (_, refl, push-Typed prog _ h (write_typed (an_imm id) (an_imm r) s));
}

-- Two writes of immediates.
two_writes :
    (id a va b vb : ℕ) (prog : Prog)
    → Typed prog
    → Typed (
        push
          (push prog (insn op_write (imm id) (imm a) (imm va)))
          (insn op_write (imm id) (imm b) (imm vb)))
two_writes id a va b vb prog h =
    push-Typed _ _ (push-Typed prog _ h (write_typed (an_imm id) (an_imm a) (an_imm va)))
      (write_typed (an_imm id) (an_imm b) (an_imm vb))

pub mmd_c22_driver-Typed : (c : Libc) (id : ℕ) → TypedDriver (mmd_c22_driver c id)
unfolding mmd_c22_read mmd_c22_write
mmd_c22_driver-Typed c id =
    let port = mmd_prtad c id in
    let ctrl = mmd_devad c id in
    record {
      reads = λ prog r h. (
        _,
        refl,
        push-Typed _ _
            (push-Typed _ _ (two_writes port 13 ctrl 14 r prog h)
              (write_typed (an_imm port) (an_imm 13) (an_imm (bit_or ctrl 0x4000))))
            (read_typed (an_imm port) (an_imm 14) 0),
      );
      writes = λ prog r s h. (
        _,
        refl,
        push-Typed _ _
            (push-Typed _ _ (two_writes port 13 ctrl 14 r prog h)
              (write_typed (an_imm port) (an_imm 13) (an_imm (bit_or ctrl 0x4000))))
            (write_typed (an_imm port) (an_imm 14) s),
      );
    }

pub xrs_driver-Typed : (id : ℕ) → TypedDriver (xrs_driver id)
unfolding xrs_read xrs_write
xrs_driver-Typed id = record {
  reads = λ prog r h. (
    _,
    refl,
    push-Typed _ _ (two_writes id xrs_iba1 (iba_high r) xrs_iba0 (iba_low r) prog h)
        (read_typed (an_imm id) (an_imm xrs_ibd) 0),
  );
  writes = λ prog r {arg} s h. (
    _,
    refl,
    push-Typed _ _ (two_writes id xrs_ibd arg xrs_iba1 (iba_high r) prog h)
        (write_typed (an_imm id) (an_imm xrs_iba0) (an_imm (iba_low r + 1))),
  );
}

module _ (d : PagedPhy) (page : ℕ) (prog : Prog) (h : Typed prog) where
  select-Typed : Typed (select_page d page prog)
  unfolding select_page
  select-Typed =
      push-Typed _ _
        (push-Typed _ _ (push-Typed prog _ h (read_typed (an_imm d.id) (an_imm d.page_reg) 1))
          (jeq_typed (a_reg 1) (an_imm page) 1))
        (write_typed (an_imm d.id) (an_imm d.page_reg) (an_imm page))

  restore-Typed : Typed (restore_page d page prog)
  unfolding restore_page
  restore-Typed =
      push-Typed _ _ (push-Typed prog _ h (jeq_typed (a_reg 1) (an_imm page) 1))
        (write_typed (an_imm d.id) (an_imm d.page_reg) (a_reg 1))

pub pphy_driver-Typed : (c : Libc) (max : ℕ) (d : PagedPhy) → TypedDriver (pphy_driver c max d)
unfolding pphy_driver pphy_read pphy_write
pphy_driver-Typed c max d = record {
  reads = λ prog r h. (
    _,
    refl,
    restore-Typed d (page_of r) _ (
        push-Typed _ _ (select-Typed d (page_of r) prog h)
          (read_typed (an_imm d.id) (an_imm (reg_of r)) 0)),
  );
  writes = λ prog r s h. (
    _,
    refl,
    restore-Typed d (page_of r) _ (
        push-Typed _ _ (select-Typed d (page_of r) prog h)
          (write_typed (an_imm d.id) (an_imm (reg_of r)) s)),
  );
}

wait-Typed : (id : ℕ) (prog : Prog) → Typed prog → Typed (wait_cmd id prog)
unfolding wait_cmd retry_busy
wait-Typed id prog h =
    push-Typed _ _
      (push-Typed _ _ (push-Typed prog _ h (read_typed (an_imm id) (an_imm mvls_cmd) 0))
        (and_typed (a_reg 0) (an_imm cmd_busy) 0))
      (jeq_goto_typed (a_reg 0) (an_imm cmd_busy) _ _)

either-Typed : (b : Bool) (p q : Prog) → Typed p → Typed q → Typed (if b then p else q)
either-Typed true p q h k = h
either-Typed false p q h k = k

pub mvls_driver-Typed : (c : Libc) (id : ℕ) → TypedDriver (mvls_driver c id)
unfolding mvls_driver mvls_read mvls_write mvls_read_to mvls_write_prog
mvls_driver-Typed c id = record {
  reads = λ prog r h. (
    _,
    refl,
    either-Typed (id == 0) _ _
        (push-Typed prog _ h (read_typed (an_imm (u16 (r / 65536))) (an_imm (u16 r)) 0))
        (push-Typed _ _
          (wait-Typed (u8 id) _ (
            push-Typed prog _ h (
              write_typed (an_imm id) (an_imm mvls_cmd)
                (an_imm (multi_cmd (u16 (r / 65536)) (u16 r) false)))))
          (read_typed (an_imm id) (an_imm mvls_data) 0)),
  );
  writes = λ prog r s h. (
    _,
    refl,
    either-Typed (id == 0) _ _
        (push-Typed prog _ h (write_typed (an_imm (u16 (r / 65536))) (an_imm (u16 r)) s))
        (wait-Typed (u8 id) _ (
          push-Typed _ _ (push-Typed prog _ h (write_typed (an_imm id) (an_imm mvls_data) s)) (
            write_typed (an_imm id) (an_imm mvls_cmd)
              (an_imm (multi_cmd (u16 (r / 65536)) (u16 r) true))))),
  );
}

-- The drivers of the tool.
pub data ToolDriver (c : Libc) : Driver → Type 0 where
  a_phy : (id : ℕ) → ToolDriver c (phy_driver id)
  an_mmd_c22 : (id : ℕ) → ToolDriver c (mmd_c22_driver c id)
  a_paged_phy : (max : ℕ) (d : PagedPhy) → ToolDriver c (pphy_driver c max d)
  an_xrs : (id : ℕ) → ToolDriver c (xrs_driver id)
  a_switch : (id : ℕ) → ToolDriver c (mvls_driver c id)

pub ToolDriver-Typed : {c : Libc} {drv : Driver} → ToolDriver c drv → TypedDriver drv
ToolDriver-Typed (a_phy id) = phy_driver-Typed id
ToolDriver-Typed {c} (an_mmd_c22 id) = mmd_c22_driver-Typed c id
ToolDriver-Typed {c} (a_paged_phy max d) = pphy_driver-Typed c max d
ToolDriver-Typed (an_xrs id) = xrs_driver-Typed id
ToolDriver-Typed {c} (a_switch id) = mvls_driver-Typed c id
