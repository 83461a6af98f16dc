-- ===== src/Tests/Access.antt =====
-- src/mdio: the theorems on register accesses, on the bus of the tests.
use mdio_tools.Prelude.{ℕ, suc, zero, ◌≡◌, refl, arith, [], ◌∷◌, some, none, length}
use mdio_tools.Isa.{Prog, imm, reg}
use mdio_tools.Kernel.Machine.{bus_read, bus_write}
use mdio_tools.Kernel.Runs.{mach, Runs}
use mdio_tools.Tool.Args.{ok}
use mdio_tools.Tool.Phy.{phy_driver}
use mdio_tools.Tool.Xrs.{xrs_driver, xrs_write}
use mdio_tools.Tool.Common.{Callback, Request, dump_prog, raw_prog, bench_loop, dump_regs}
use mdio_tools.Tool.Access.{fetch, store}
use mdio_tools.Tool.Access.Direct.{phy_access, phy_deposit, phy_reads, phy_writes}
use mdio_tools.Tool.Access.Indirect.{xrs_reads}
use mdio_tools.Tool.Access.Raw.{Completes}
use mdio_tools.Tool.Access.Masked.{masked_code, raw_masked-Completes}
use mdio_tools.Tool.Access.Bench.Loop.{bench_loop-Runs, bench_code}
use mdio_tools.Tool.Access.Bench.{compare_once, compare_times}
use mdio_tools.Tool.Access.Dump.{sweep, dump_tail, dump_prog-Completes}
use mdio_tools.Tool.Access.Truncation.{
  xrs_write_literal, dump_code, dump_regs-code, dump_regs_unbounded,
}
use mdio_tools.Tests.Bus.{test_host}

-- The page register holds 7; 7 & 5 | 8 is 13.
raw_masked-Completes_example :
    (req : Request) × (raw_prog (phy_driver 3) 22 (some (8, 5)) ≡ ok req)
    × (req.callback ≡ Callback.raw_write)
    × Completes test_host req.prog 65543 [] 65549 []
unfolding phy_reads phy_writes phy_access fetch bus_read phy_deposit store bus_write masked_code
raw_masked-Completes_example =
    raw_masked-Completes (phy_reads test_host 3) (phy_writes test_host 3) 22 8 5 7 65543 65543 65549
      [] (λ e. cc) (λ k. refl) (omega arith) refl refl

-- The reference loop on the page register, which holds the expected 7.
page_reads :
    (n : ℕ) → compare_times test_host (phy_access test_host 3) 22 7 n (65543, []) ≡ some (65543, [])
unfolding compare_times compare_once phy_access fetch bus_read
page_reads zero = refl
page_reads (suc n) = page_reads n

-- A thousand reads of the page register, which holds the expected 7.
bench_loop-Runs_example :
    (prog : Prog) × (regs' : ℕ → ℕ) × (t' : ℕ) × (bench_loop (phy_driver 3) 22 [] ≡ ok prog)
    × Runs test_host prog (mach (λ _. 7) 0 0 65543 []) (mach regs' (length prog) t' 65543 [])
unfolding phy_reads bench_code
bench_loop-Runs_example =
    bench_loop-Runs (phy_reads test_host 3) 22 7 [] (λ _. 7) 0 65543 65543 [] [] (λ k. refl)
      (omega arith) refl (page_reads 1000)

xrs_write_literal_example : xrs_write 8 [] 0x100 (reg 0) ≡ xrs_write 8 [] 0x100 (imm 0)
xrs_write_literal_example = xrs_write_literal 8 [] 0x100 0

dump_regs-code_example :
    dump_regs 9 (phy_driver 3) [] 2 5 ≡ some (ok (dump_code (phy_reads test_host 3) 4 [] 2))
dump_regs-code_example =
    dump_regs-code (phy_reads test_host 3) 4 9 [] 2 5 refl (omega arith) (omega arith)

dump_regs_unbounded_example : dump_regs 100 (xrs_driver 8) [] 0xfffffff0 4294967295 ≡ none
dump_regs_unbounded_example =
    dump_regs_unbounded (xrs_reads test_host 8) 100 [] 0xfffffff0 (omega arith)

-- The registers 2 to 4 of page 7.
dump_prog-Completes_example :
    (prog : Prog) × (dump_prog (phy_driver 3) (record { start = 2; end = 4 })
      ≡ some (ok (prog, record { start = 2; end = 4 })))
    × Completes test_host prog 65543 [] 65543 (1702 ∷ 1703 ∷ 1704 ∷ [])
unfolding phy_reads dump_tail sweep phy_access fetch bus_read
dump_prog-Completes_example =
    dump_prog-Completes (phy_reads test_host 3) 3 (record { start = 2; end = 4 }) 65543 65543 []
      (1702 ∷ 1703 ∷ 1704 ∷ []) refl refl (omega arith) (λ k. refl) (omega arith) refl
