-- ===== src/Tests/Paged.antt =====
-- src/mdio/paged-phy.c: the theorems on paged writes, on a PHY that keeps what is written.
use mdio_tools.Prelude.{ℕ, ◌+◌, ◌*◌, ◌%◌, ne→==, ◌≡◌, refl, ap, arith, [], some}
use mdio_tools.Kernel.Machine.{bus_read, bus_write}
use mdio_tools.Tool.Args.{ok}
use mdio_tools.Tool.Paged.{pphy_driver}
use mdio_tools.Tool.Common.{Callback, Request, raw_prog}
use mdio_tools.Tool.Access.{fetch, store}
use mdio_tools.Tool.Access.Paged.{PagedBus}
use mdio_tools.Tool.Access.PagedWrite.{PagedStore}
use mdio_tools.Tool.Access.Devices.{pphy_raw_masked}
use mdio_tools.Tool.Access.Raw.{Completes}
use mdio_tools.Tests.Bus.{cell_host, put_cell, page_select, test_libc, test_phy}

cells_PagedBus : PagedBus cell_host test_phy
unfolding fetch store bus_read bus_write
cells_PagedBus = record {
  page = λ b. b.0 % 65536;
  cell = λ b. b.1;
  select = λ p b. (page_select p b.0, b.1);
  page_fits = λ b. omega arith;
  fetch-page = λ b. refl;
  fetch-cell = λ b r ne lt. rw (ne→== r 22 ne);
  store-page = λ b p lt. refl;
  page-select = λ b p lt. omega arith;
  cell-select = λ b p lt. refl;
  select-select = λ b p q lt.
      let e : page_select p (page_select q b.0) ≡ page_select p b.0 = omega arith in
      ap (λ (k : ℕ). (k, b.1)) e;
  select-page =
      λ b. let e : page_select (b.0 % 65536) b.0 ≡ b.0 = omega arith in ap (λ (k : ℕ). (k, b.1)) e;
}

cells_PagedStore : PagedStore cells_PagedBus
unfolding cells_PagedBus store bus_write
cells_PagedStore = record {
  put = put_cell;
  store-cell = λ b r val ne lt fits. rw (ne→== r 22 ne);
  page-put = λ p r val b. refl;
  select-put = λ q p r val b lt. refl;
}

-- All cells hold 0xff, and page 7 is selected.
abbrev all_ones : ℕ × (ℕ → ℕ → ℕ)
all_ones = (7, λ p r. 255)

-- 0xff & 0xf0 | 0x05
pphy_raw_masked_example :
    (req : Request) × (raw_prog
        (pphy_driver test_libc 31 test_phy)
        (2 * 65536 + 4)
        (some (0x05, 0xf0))
      ≡ ok req)
    × (req.callback ≡ Callback.raw_write)
    × Completes cell_host req.prog all_ones [] (put_cell 2 4 0xf5 all_ones) []
unfolding cells_PagedStore cells_PagedBus
pphy_raw_masked_example =
    pphy_raw_masked (λ k. refl) cells_PagedBus cells_PagedStore test_libc 31 (2 * 65536 + 4) 0x05
      0xf0 all_ones [] (λ e. omega (arith, e)) (λ e. cc)
