-- ===== src/Tool/Access/Devices.antt =====
-- src/mdio/mdio.c with phy.c, paged-phy.c and xrs.c: `raw` on each kind of device, from the program
-- that the tool builds to what the kernel's interpreter does with it.
use mdio_tools.Prelude.{false, ℕ, ◌≡◌, ◌≢◌, arith, none, some, u16, bit_and, bit_or}
use mdio_tools.Kernel.Machine.{Host, got}
use mdio_tools.Tool.Args.{Libc, ok}
use mdio_tools.Tool.Phy.{phy_driver, mmd_c22_driver}
use mdio_tools.Tool.Paged.{PagedPhy, pphy_driver, page_of, reg_of}
use mdio_tools.Tool.Xrs.{xrs_driver}
use mdio_tools.Tool.Common.{Callback, Request, raw_prog}
use mdio_tools.Tool.Access.{fetch, store}
use mdio_tools.Tool.Access.Direct.{phy_access, phy_deposit, phy_reads, phy_writes}
use mdio_tools.Tool.Access.Indirect.{mmd_c22_access, mmd_c22_reads, xrs_access, xrs_reads}
use mdio_tools.Tool.Access.Paged.{pphy_reads, PagedBus, paged_access-transparent}
use mdio_tools.Tool.Access.PagedWrite.{pphy_writes, PagedStore, paged_deposit-transparent}
use mdio_tools.Tool.Access.Raw.{Completes, raw_read-Completes}
use mdio_tools.Tool.Access.Masked.{masked_code, raw_masked-Completes}

module _ {B X : Type 0} {h : Host B X} (live : (k : ℕ) → h.time_after k ≡ false) where
  -- `raw PAGE:REG` on a paged PHY, while the time is not up: the request that the tool sends, run by
  -- the interpreter, ends with success, emits the register's cell on that page (cut to 16 bits), and
  -- leaves the device as it was, whichever page was selected. The register is not the page register.
  pub pphy_raw_read :
      {d : PagedPhy} (pb : PagedBus h d) (c : Libc) (max r n : ℕ) (b : B) (x x' : X)
      → reg_of r ≢ d.page_reg
      → h.emit (u16 (pb.cell b (page_of r) (reg_of r))) x ≡ got n x'
      → (req : Request) × (raw_prog (pphy_driver c max d) r none ≡ ok req)
        × (req.callback ≡ Callback.raw_read)
        × Completes h req.prog b x b x'
  unfolding pphy_reads
  pphy_raw_read {d} pb c max r n b x x' ne em =
      raw_read-Completes (pphy_reads h d c max) r (pb.cell b (page_of r) (reg_of r)) n b b x x' live
        (omega arith) (paged_access-transparent pb r b ne) em

  -- `raw REG` on an MMD behind Clause 22, while the time is not up: the request, run by the
  -- interpreter, ends with success after the four accesses of `mmd_c22_access` and emits what the
  -- last one reads.
  pub mmd_c22_raw_read :
      (id : ℕ) (c : Libc) (r v n : ℕ) (b b' : B) (x x' : X)
      → mmd_c22_access h id c r b ≡ some (v, b')
      → h.emit (u16 v) x ≡ got n x'
      → (req : Request) × (raw_prog (mmd_c22_driver c id) r none ≡ ok req)
        × (req.callback ≡ Callback.raw_read)
        × Completes h req.prog b x b' x'
  unfolding mmd_c22_reads
  mmd_c22_raw_read id c r v n b b' x x' acc em =
      raw_read-Completes (mmd_c22_reads h id c) r v n b b' x x' live (omega arith) acc em

  -- `raw REG` on an XRS device, while the time is not up: the request, run by the interpreter, ends
  -- with success after the three accesses of `xrs_access` and emits what the last one reads.
  pub xrs_raw_read :
      (id r v n : ℕ) (b b' : B) (x x' : X)
      → xrs_access h id r b ≡ some (v, b')
      → h.emit (u16 v) x ≡ got n x'
      → (req : Request) × (raw_prog (xrs_driver id) r none ≡ ok req)
        × (req.callback ≡ Callback.raw_read)
        × Completes h req.prog b x b' x'
  unfolding xrs_reads
  xrs_raw_read id r v n b b' x x' acc em =
      raw_read-Completes (xrs_reads h id) r v n b b' x x' live (omega arith) acc em

  -- `raw REG VAL/MASK` with a mask that is not 0 on a PHY, while the time is not up: the request, run
  -- by the interpreter, ends with success, reads the register once, writes it once with the bits of
  -- the mask kept and those of the value set, and emits nothing.
  pub phy_raw_masked :
      (id r val mask v : ℕ) (b b' b'' : B) (x : X)
      → mask ≢ 0
      → fetch h (u16 id) (u16 r) b ≡ some (v, b')
      → store h (u16 id) (u16 r) (u16 (bit_or (u16 (bit_and (u16 v) (u16 mask))) (u16 val))) b'
        ≡ some b''
      → (req : Request) × (raw_prog (phy_driver id) r (some (val, mask)) ≡ ok req)
        × (req.callback ≡ Callback.raw_write)
        × Completes h req.prog b x b'' x
  unfolding phy_access phy_deposit phy_reads phy_writes masked_code
  phy_raw_masked id r val mask v b b' b'' x nz acc dep =
      raw_masked-Completes (phy_reads h id) (phy_writes h id) r val mask v b b' b'' x nz live
        (omega arith) acc dep

  -- `raw PAGE:REG VAL/MASK` with a mask that is not 0 on a paged PHY, while the time is not up: the
  -- request that the tool sends, run by the interpreter, ends with success and emits nothing; the
  -- register's cell on that page, which is not the page register, has the bits of the mask kept and
  -- those of the value set, and nothing else is changed, the selected page included.
  pub pphy_raw_masked :
      {d : PagedPhy} (pb : PagedBus h d) (ps : PagedStore pb) (c : Libc) (max r val mask : ℕ)
      (b : B) (x : X)
      → reg_of r ≢ d.page_reg
      → mask ≢ 0
      → (req : Request) × (raw_prog (pphy_driver c max d) r (some (val, mask)) ≡ ok req)
        × (req.callback ≡ Callback.raw_write)
        × Completes h req.prog b x
            (ps.put
              (page_of r)
              (reg_of r)
              (u16 (
                bit_or
                  (u16 (bit_and (u16 (pb.cell b (page_of r) (reg_of r))) (u16 mask)))
                  (u16 val)))
              b)
            x
  unfolding pphy_reads pphy_writes masked_code
  pphy_raw_masked {d} pb ps c max r val mask b x ne nz =
      raw_masked-Completes (pphy_reads h d c max) (pphy_writes h d c max) r val mask
        (pb.cell b (page_of r) (reg_of r)) b b _ x nz live (omega arith)
        (paged_access-transparent pb r b ne)
        (paged_deposit-transparent pb ps r _ b ne (omega arith))
