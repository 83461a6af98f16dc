-- ===== src/Tests/Printing.antt =====
-- src/mdio/mvls.c and src/mdio/mdio.c: the theorem on the repeated counters, at two concrete replies, and
-- what the callbacks print in examples.
use mdio_tools.Prelude.{ℕ, zero, suc, ◌≡◌, refl, List, [], ◌∷◌, ◌++◌}
use mdio_tools.Tool.Args.{codes}
use mdio_tools.Tool.Printing.{
  counter_row, time_out, elapsed, portvec_out, dump_rows, dump_out, raw_read_out, bench_out,
  bench_words, lag_out, lag_rows, mask_rows,
}
use mdio_tools.Switch.Json.{dec_from}
use mdio_tools.Switch.Show.{hex_from, spaces}

abbrev zeros : ℕ → List ℕ
zeros zero = []
zeros (suc n) = 0 ∷ zeros n

abbrev no_counts : ℕ → List (List ℕ)
no_counts zero = []
no_counts (suc n) = zeros 6 ∷ no_counts n

-- Port 0 has received two packets, port 10 has sent three.
abbrev later_counts : List ℕ
later_counts = 0 ∷ 2 ∷ zeros 124 ++ 0 ∷ 3 ∷ zeros 4

row_text :
    counter_row 10 (0 ∷ 2 ∷ 0 ∷ 3 ∷ 0 ∷ 0 ∷ []) (zeros 6) ≡ codes "a     2   0    0   3    0   0\n"
unfolding counter_row hex_from spaces dec_from
row_text = refl

-- A second and a hundredth, over a change of the second.
time_text :
    time_out (elapsed (record { sec = 3; nsec = 999000000 }) (record { sec = 5; nsec = 9000000 }))
    ≡ codes "1.01s\n"
unfolding time_out elapsed dec_from
time_text = refl

portvec_text : portvec_out 4 0 5 ≡ codes "  0  .  2  ."
unfolding portvec_out hex_from
portvec_text = refl

raw_text : raw_read_out (300 ∷ []) ≡ codes "0x012c\n"
unfolding raw_read_out hex_from
raw_text = refl

dump_text :
    dump_out (record { start = 9; end = 10 }) (300 ∷ 7 ∷ [])
    ≡ codes "0x0009: 0x012c\n0x000a: 0x0007\n"
unfolding dump_out dump_rows hex_from
dump_text = refl

-- One value was not the expected one.
bench_text :
    bench_out (record { sec = 3; nsec = 0 }) (record { sec = 3; nsec = 1000000 }) (7 ∷ []) 0
    ≡ codes "Read back 1 incorrect values:\n\t0x0007\nBenchmark failed after 1000us\n"
unfolding bench_out bench_words time_out elapsed hex_from dec_from
bench_text = refl

lag_text :
    lag_out (5 ∷ zeros 23)
    ≡ codes
        "\u{1b}[7m LAG  0  1  2  3  4  5  6  7  8  9  a\u{1b}[0m\n   0  0  .  2  .  .  .  .  .  .  .  .\n\n"
      ++ (codes "\u{1b}[7mMASK  0  1  2  3  4  5  6  7  8  9  a\u{1b}[0m\n"
          ++ mask_rows 8 0 (5 ∷ zeros 23))
unfolding lag_out lag_rows portvec_out hex_from dec_from spaces
lag_text = refl
