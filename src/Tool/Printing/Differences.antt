-- ===== src/Tool/Printing/Differences.antt =====
-- src/mdio/mvls.c: what the command `counter` shows when it is repeated.
use mdio_tools.Prelude.{ℕ, zero, suc, ◌+◌, if◌then◌else◌, List, [], ◌∷◌, ◌++◌}
use mdio_tools.Tool.Args.{Text}
use mdio_tools.Tool.Printing.{counts, skip, same_words, counter_row, Counted, counter_heading}

-- The counters of so many ports.
unfoldable pub ports_of : ℕ → List ℕ → List (List ℕ)
ports_of zero data' = []
ports_of (suc n) data' = counts 6 0 data' ∷ ports_of n (skip 12 data')

-- The lines of the ports whose counters are not the same in two lists, from port `i` on.
unfoldable pub changes : ℕ → List (List ℕ) → List (List ℕ) → Text
changes i [] news = []
changes i (old ∷ olds) [] = []
changes i (old ∷ olds) (new ∷ news) =
    (if same_words old new then [] else counter_row i new old) ++ changes (i + 1) olds news

abbrev reported : List (List ℕ) → List (List ℕ) → Counted
reported olds news = record { text = counter_heading ++ changes 0 olds news; prev = news }
