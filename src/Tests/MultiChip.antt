-- ===== src/Tests/MultiChip.antt =====
-- src/mdio/mvls.c: the theorems on multi-chip addressing, on a switch that is busy for two looks
-- behind each command.
use mdio_tools.Prelude.{
  ℕ, zero, suc, ◌/◌, ◌%◌, ◌==◌, if◌then◌else◌, false, ◌≡◌, refl, arith, List, [], ◌∷◌, ◌++◌, none,
}
use mdio_tools.Kernel.Machine.{Host, Reply, got, fail, bus_read, bus_write}
use mdio_tools.Tool.Args.{ok}
use mdio_tools.Tool.Common.{Callback, Request, raw_prog}
use mdio_tools.Tool.LinkStreet.{mvls_driver, mvls_reg, multi_cmd}
use mdio_tools.Tool.Access.{fetch, store}
use mdio_tools.Tool.Access.Polling.{busy, await}
use mdio_tools.Tool.Access.MultiChip.{multi_access, mvls_raw_read}
use mdio_tools.Tool.Access.Raw.{Completes}
use mdio_tools.Tests.Bus.{test_libc}

-- The looks for which the switch is still busy, the data register, and one register of the switch.
abbrev TestChip : Type 0
TestChip = ℕ × ℕ × ℕ

abbrev look : ℕ → ℕ → ℕ → Reply TestChip
look zero data' cell = got 0x1000 (0, data', cell)
look (suc k) data' cell = got 0x9000 (k, data', cell)

abbrev command : ℕ → ℕ → ℕ → TestChip
command cmd data' cell = if cmd / 1024 % 4 == 2 then (2, cell, cell) else (2, data', data')

abbrev chip_host : Host TestChip (List ℕ)
chip_host = record {
  is_c45 = λ _. false;
  prtad = λ dev. dev / 32 % 32;
  devad = λ dev. dev % 32;
  read = λ dev r (k, d, cell). if r == 0 then look k d cell else got d (k, d, cell);
  write =
      λ dev r val (k, d, cell). if r == 0 then got 0 (command val d cell) else got 0 (k, val, cell);
  c45_read = λ prtad devad r b. fail 95 b;
  c45_write = λ prtad devad r val b. fail 95 b;
  emit = λ v x. got 0 (x ++ v ∷ []);
  time_after = λ _. false;
}

-- Register 28 of global1 of the switch 4.
mvls_raw_read_example :
    (req : Request) × (raw_prog (mvls_driver test_libc 4) (mvls_reg 27 28) none ≡ ok req)
    × (req.callback ≡ Callback.raw_read)
    × Completes chip_host req.prog (0, 0, 0x1234) [] (0, 0x1234, 0x1234) (0x1234 ∷ [])
unfolding multi_access await busy fetch store bus_read bus_write multi_cmd
mvls_raw_read_example =
    mvls_raw_read {h = chip_host} (λ k. refl) 4 2 test_libc (λ e. omega (arith, e)) (mvls_reg 27 28)
      0x1234 0 (0, 0, 0x1234) (0, 0x1234, 0x1234) [] (0x1234 ∷ []) refl refl
