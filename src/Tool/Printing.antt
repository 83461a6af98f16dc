-- ===== src/Tool/Printing.antt =====
-- src/mdio/mdio.c and src/mdio/mvls.c: what the callbacks of the commands `raw`, `bench`, `dump`, `lag` and
-- `counter` print.
pub mod Differences
use mdio_tools.Prelude.{
  ℕ, zero, suc, ◌+◌, ◌-◌, ◌*◌, ◌/◌, ◌==◌, ltb, if◌then◌else◌, Bool, true, false, not, ◌&&◌, List,
  [], ◌∷◌, ◌++◌, length, get_or, bit_and, bit_or, u16, u32,
}
use mdio_tools.Tool.Args.{Text, codes}
use mdio_tools.Tool.Device.{RegRange}
use mdio_tools.Tool.Status.{hex_pad}
use mdio_tools.Switch.Tables.{bit}
use mdio_tools.Switch.Json.{dec}
use mdio_tools.Switch.Show.{hex, pad_left}

-- mdio_common_raw_read_cb
unfoldable pub raw_read_out : List ℕ → Text
unfolding hex_pad
raw_read_out data' =
    if not (length data' == 1)
    then []
    else codes "0x" ++ (hex_pad 4 (get_or data' 0 0) ++ codes "\n")

-- The loop of mdio_common_dump_cb, which the test of the length lets pass as many words as registers.
unfoldable pub dump_rows : ℕ → List ℕ → Text
unfolding hex_pad
dump_rows r [] = []
dump_rows r (word ∷ data') =
    codes "0x"
    ++ (hex_pad 4 r
        ++ (codes ": 0x" ++ (hex_pad 4 word ++ (codes "\n" ++ dump_rows (r + 1) data'))))

-- mdio_common_dump_cb
unfoldable pub dump_out : RegRange → List ℕ → Text
unfolding dump_rows
dump_out range data' =
    if not (length data' + range.start == range.end + 1) then [] else dump_rows range.start data'

-- The words that mdio_common_bench_cb shows as incorrect
unfoldable pub bench_words : List ℕ → Text
unfolding hex_pad
bench_words [] = []
bench_words (word ∷ data') = codes "\t0x" ++ (hex_pad 4 word ++ (codes "\n" ++ bench_words data'))

-- struct timespec
pub record Timespec : Type 0 where
  pub sec : ℕ
  pub nsec : ℕ

-- The time from `start` to an `end` that is not before it
unfoldable pub elapsed : Timespec → Timespec → Timespec
elapsed start end =
    if ltb end.nsec start.nsec
    then record { sec = end.sec - start.sec - 1; nsec = end.nsec + 1000000000 - start.nsec }
    else record { sec = end.sec - start.sec; nsec = end.nsec - start.nsec }

-- The last printf of mdio_common_bench_cb; `%2.2` pads with zeros.
unfoldable pub time_out : Timespec → Text
time_out t =
    if not (t.sec == 0)
    then dec t.sec
      ++ (codes "."
          ++ ((if ltb (t.nsec / 10000000) 10 then codes "0" else [])
              ++ (dec (t.nsec / 10000000) ++ codes "s\n")))
    else if ltb 1000000 t.nsec
    then dec (t.nsec / 1000000) ++ codes "ms\n"
    else if ltb 1000 t.nsec
    then dec (t.nsec / 1000) ++ codes "us\n"
    else dec t.nsec ++ codes "ns\n"

-- mdio_common_bench_cb, with the error so far
unfoldable pub bench_out : Timespec → Timespec → List ℕ → ℕ → Text
unfolding bench_words elapsed time_out
bench_out start end data' e =
    let bad = not (length data' == 0) in
    (if bad
      then codes "Read back "
        ++ (dec (length data') ++ (codes " incorrect values:\n" ++ bench_words data'))
      else [])
    ++ ((if not bad && e == 0
          then codes "Performed 1000 reads in "
          else codes "Benchmark failed after ")
        ++ time_out (elapsed start end))

-- mvls_print_portvec, over so many ports from `i` on
unfoldable pub portvec_out : ℕ → ℕ → ℕ → Text
portvec_out zero i portvec = []
portvec_out (suc n) i portvec =
    (if bit portvec i then codes "  " ++ hex i else codes "  .") ++ portvec_out n (i + 1) portvec

-- The first loop of mvls_lag_cb, over the words of so many groups
unfoldable pub lag_rows : ℕ → ℕ → List ℕ → Text
unfolding portvec_out
lag_rows zero lag data' = []
lag_rows (suc n) lag data' =
    let rest = lag_rows n (lag + 1) data' in
    let word = get_or data' lag 0 in
    if bit_and word 0x7ff == 0
    then rest
    else pad_left 4 (dec lag) ++ (portvec_out 11 0 (u16 word) ++ (codes "\n" ++ rest))

-- The second one, over so many masks, behind the groups' words
unfoldable pub mask_rows : ℕ → ℕ → List ℕ → Text
unfolding portvec_out
mask_rows zero mask data' = []
mask_rows (suc n) mask data' =
    pad_left 4 (dec mask)
    ++ (portvec_out 11 0 (u16 (get_or data' (16 + mask) 0))
        ++ (codes "\n" ++ mask_rows n (mask + 1) data'))

-- mvls_lag_cb
unfoldable pub lag_out : List ℕ → Text
unfolding lag_rows mask_rows
lag_out data' =
    if not (length data' == 16 + 8)
    then []
    else codes "\u{1b}[7m LAG  0  1  2  3  4  5  6  7  8  9  a\u{1b}[0m\n"
      ++ (lag_rows 16 0 data'
          ++ (codes "\n"
              ++ (codes "\u{1b}[7mMASK  0  1  2  3  4  5  6  7  8  9  a\u{1b}[0m\n"
                  ++ mask_rows 8 0 data')))

-- `now[n]` for so many n from `n` on
unfoldable pub counts : ℕ → ℕ → List ℕ → List ℕ
counts zero n data' = []
counts (suc k) n data' =
    u32 (bit_or (get_or data' (2 * n) 0 * 65536) (get_or data' (2 * n + 1) 0))
    ∷ counts k (n + 1) data'

-- `data += 6 * 2`
unfoldable pub skip : ℕ → List ℕ → List ℕ
skip zero data' = data'
skip (suc n) [] = []
skip (suc n) (word ∷ data') = skip n data'

-- `!memcmp(...)` on words
unfoldable pub same_words : List ℕ → List ℕ → Bool
same_words [] [] = true
same_words [] (b ∷ y) = false
same_words (a ∷ x) [] = false
same_words (a ∷ x) (b ∷ y) = a == b && same_words x y

-- `now[n] - prev[n]`, a uint32_t
unfoldable pub grown : List ℕ → List ℕ → ℕ → ℕ
grown now prev n = u32 (get_or now n 0 + 4294967296 - get_or prev n 0)

-- The line of a port, whose conversions are `%x` and `%3u`
unfoldable pub counter_row : ℕ → List ℕ → List ℕ → Text
unfolding grown
counter_row i now prev =
    let column = λ (n : ℕ). pad_left 3 (dec (grown now prev n)) in
    hex i
    ++ (codes "   "
        ++ (column 1
            ++ (codes " "
                ++ (column 4
                    ++ (codes "  "
                        ++ (column 0
                            ++ (codes " "
                                ++ (column 3
                                    ++ (codes "  "
                                        ++ (column 2
                                            ++ (codes " " ++ (column 5 ++ codes "\n"))))))))))))

-- What the loop of mvls_counter_cb prints, and `prev` behind it
pub record Counted : Type 0 where
  pub text : Text
  pub prev : List (List ℕ)

unfoldable pub counter_rows : ℕ → List ℕ → List (List ℕ) → Counted
counter_rows i data' [] = record { text = []; prev = [] }
counter_rows i data' (prev ∷ prevs) =
    let now = counts 6 0 data' in
    let rest = counter_rows (i + 1) (skip 12 data') prevs in
    if same_words prev now
    then record { text = rest.text; prev = prev ∷ rest.prev }
    else record { text = counter_row i now prev ++ rest.text; prev = now ∷ rest.prev }

abbrev pub counter_heading : Text
counter_heading =
    codes
      "    \u{1b}[7m Bcasts   Ucasts   Mcasts\u{1b}[0m\n\u{1b}[7mP    Rx  Tx   Rx  Tx   Rx  Tx\u{1b}[0m\n"

-- mvls_counter_cb, with `prev` of its context
unfoldable pub counter_out : List ℕ → List (List ℕ) → Counted
counter_out data' prev =
    if not (length data' == 11 * 6 * 2)
    then record { text = []; prev = prev }
    else let rest = counter_rows 0 data' prev in
      record { text = counter_heading ++ rest.text; prev = rest.prev }
