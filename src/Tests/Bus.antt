-- ===== src/Tests/Bus.antt =====
-- A small MDIO bus for the tests: a PHY with the page register 22, whose cells are numbers made of
-- the page and the register. The state is one number, whose low 16 bits are the selected page.
use mdio_tools.Tool.Args.{Libc}
use mdio_tools.Tool.Paged.{PagedPhy}
use mdio_tools.Prelude.{
  none, ℕ, ◌+◌, ◌*◌, ◌/◌, ◌%◌, ◌==◌, ◌&&◌, leb, if◌then◌else◌, false, List, [], ◌∷◌, ◌++◌,
}
use mdio_tools.Kernel.Machine.{Host, got, fail}

abbrev pub cell_value : ℕ → ℕ → ℕ → ℕ
cell_value b page r = b / 65536 * 1000 + page * 100 + r

abbrev pub page_select : ℕ → ℕ → ℕ
page_select page b = b / 65536 * 65536 + page

abbrev pub test_host : Host ℕ (List ℕ)
test_host = record {
  is_c45 = λ _. false;
  prtad = λ dev. dev / 32 % 32;
  devad = λ dev. dev % 32;
  read = λ dev r b. if r == 22 then got (b % 65536) b else got (cell_value b (b % 65536) r) b;
  write = λ dev r val b. if r == 22 then got 0 (page_select val b) else got 0 b;
  c45_read = λ prtad devad r b. fail 95 b;
  c45_write = λ prtad devad r val b. fail 95 b;
  emit = λ v x. got 0 (x ++ v ∷ []);
  time_after = λ _. false;
}

-- The same bus, with the time up at the fifth look at the clock.
abbrev pub timed_host : Host ℕ (List ℕ)
timed_host = record test_host { time_after = λ n. leb 5 n }

-- A bus whose paged PHY keeps what is written: the page register and the cells.
abbrev pub put_cell : ℕ → ℕ → ℕ → ℕ × (ℕ → ℕ → ℕ) → ℕ × (ℕ → ℕ → ℕ)
put_cell p r v b = (b.0, λ p' r'. if p' == p && r' == r then v else b.1 p' r')

abbrev pub cell_host : Host (ℕ × (ℕ → ℕ → ℕ)) (List ℕ)
cell_host = record {
  is_c45 = λ _. false;
  prtad = λ dev. dev / 32 % 32;
  devad = λ dev. dev % 32;
  read = λ dev r b. if r == 22 then got (b.0 % 65536) b else got (b.1 (b.0 % 65536) r) b;
  write = λ dev r val b.
      if r == 22 then got 0 (page_select val b.0, b.1) else got 0 (put_cell (b.0 % 65536) r val b);
  c45_read = λ prtad devad r b. fail 95 b;
  c45_write = λ prtad devad r val b. fail 95 b;
  emit = λ v x. got 0 (x ++ v ∷ []);
  time_after = λ _. false;
}

abbrev pub test_libc : Libc
test_libc = record {
  strtoul = λ s. (0, s);
  strtol = λ s. (false, 0);
  strtoull = λ s. (0, s, false);
  strtok = λ s. none;
  phy_id_c45 = λ prtad devad. 32768 + prtad * 32 + devad;
  phy_id_is_c45 = λ id. leb 32768 id;
  phy_id_prtad = λ id. id / 32 % 32;
  phy_id_devad = λ id. id % 32;
}

-- The paged PHY at address 1 of the bus.
abbrev pub test_phy : PagedPhy
test_phy = record { id = 1; page_reg = 22; page_names = [] }
