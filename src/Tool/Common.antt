-- ===== src/Tool/Common.antt =====
-- src/mdio/mdio.c: the operations `raw`, `bench` and `dump`, which any driver offers.
-- A callback gives the status that the C function returns; Tool/Printing has what it prints.
use mdio_tools.Prelude.{
  ℕ, zero, suc, ◌+◌, ◌==◌, leb, if◌then◌else◌, true, false, not, Option, none, some, List, [],
  length, u32,
}
use mdio_tools.Isa.{
  Prog, insn, imm, reg, goto, push, op_and, op_or, op_add, op_jeq, op_jne, op_emit,
}
use mdio_tools.Tool.Args.{
  codes, text_eq, Argv, argv_peek, argv_pop, Result, ok, err, ◌>>=◌, einval, Libc,
}
use mdio_tools.Tool.Device.{RegRange, Driver, Device}
use mdio_tools.Tool.Parse.{device_parse_reg, device_parse_val}

-- The callbacks that the tool passes to `mdio_xfer`, with what their last argument points to.
pub data Callback : Type 0 where
  raw_read raw_write bench : Callback
  dump : RegRange → Callback
  phy_status mmd_status mva_status bus_status : Callback
  mvls_id mvls_lag mvls_counter mvls_atu : Callback

-- One call of `mdio_xfer_timeout`.
pub record Request : Type 0 where
  pub prog : Prog
  pub timeout : ℕ
  pub callback : Callback

-- What a command does: it returns a status, sends a request and goes on if that succeeds (and
-- returns 1 if not), asks for a value, sends a request until it fails, or never comes to an end.
pub data Script : Type 0 where
  finish : ℕ → Script
  send : Request → Script → Script
  query : Request → (ℕ → Script) → Script
  forever : Request → Script
  hang : Script

abbrev pub or_fail {ℓ} : {A : Type ℓ} → Result A → (A → Script) → Script
or_fail (ok a) k = k a
or_fail (err e) k = finish e

-- mdio_common_raw_read_cb, mdio_common_raw_write_cb, mdio_common_bench_cb, mdio_common_dump_cb:
-- the replied data and the error so far
unfoldable pub raw_read_cb : List ℕ → ℕ → ℕ
raw_read_cb words e = if not (length words == 1) then 1 else e

unfoldable pub raw_write_cb : List ℕ → ℕ → ℕ
raw_write_cb words e = if not (length words == 0) then 1 else e

unfoldable pub bench_cb : List ℕ → ℕ → ℕ
bench_cb words e = if not (length words == 0) then 1 else e

unfoldable pub dump_cb : RegRange → List ℕ → ℕ → ℕ
dump_cb range words e = if not (length words + range.start == range.end + 1) then 1 else e

-- What `raw` does to the register once its arguments are read: an AND and an OR with a mask, a
-- plain write, or a read.
unfoldable pub raw_prog : Driver → ℕ → Option (ℕ × ℕ) → Result Request
raw_prog drv r none = do
  prog ← drv.read [] r
  ok (record { prog = push prog (insn op_emit (reg 0) 0 0); timeout = 1000; callback = raw_read })
raw_prog drv r (some (val, mask)) =
    if not (mask == 0)
    then (do
      prog ← drv.read [] r
      prog' ←
          drv.write
            (push (push prog (insn op_and (reg 0) (imm mask) (reg 0)))
              (insn op_or (reg 0) (imm val) (reg 0)))
            r (reg 0)
      ok (record { prog = prog'; timeout = 1000; callback = raw_write }))
    else (do
      prog ← drv.write [] r (imm val)
      ok (record { prog = prog; timeout = 1000; callback = raw_write }))

-- The loop of `bench`: a thousand reads, each emitted if it differs from register 7.
unfoldable pub bench_loop : Driver → ℕ → Prog → Result Prog
bench_loop drv r prog = do
  let start = push prog (insn op_add (imm 0) (imm 0) (reg 6))
  let loop = length start
  body ← drv.read start r
  let cmp = push body (insn op_jeq (reg 0) (reg 7) (imm 1))
  let shown = push cmp (insn op_emit (reg 0) 0 0)
  let counted = push shown (insn op_add (reg 6) (imm 1) (reg 6))
  ok (push counted (insn op_jne (reg 6) (imm 1000) (goto (length counted) loop)))

-- Register 7 gets the value to be expected: the one that is written first, or the one that is
-- read first.
unfoldable pub bench_expect : Driver → ℕ → Option ℕ → Result Prog
bench_expect drv r (some val) =
    drv.write (push [] (insn op_add (imm val) (imm 0) (reg 7))) r (reg 7)
bench_expect drv r none = do
  prog ← drv.read [] r
  ok (push prog (insn op_add (reg 0) (imm 0) (reg 7)))

-- The unrolled loop `for (reg = start; reg <= end; reg++)` over a `uint32_t`, on fuel.
unfoldable pub dump_regs : ℕ → Driver → Prog → ℕ → ℕ → Option (Result Prog)
dump_regs zero drv prog r end = none
dump_regs (suc fuel) drv prog r end = elim (leb r end) [
  | false ↦ some (ok prog)
  | true ↦ elim (drv.read prog r) [
    | err e ↦ some (err e)
    | ok prog' ↦ dump_regs fuel drv (push prog' (insn op_emit (reg 0) 0 0)) (u32 (r + 1)) end
  ]
]

-- More passes than a `uint32_t` has values.
abbrev pub dump_fuel : ℕ
dump_fuel = 4294967298

unfoldable pub dump_prog : Driver → RegRange → Option (Result (Prog × RegRange))
unfolding dump_regs
dump_prog drv range = elim drv.dump [
  | some f ↦ f [] range
  | none ↦ elim (dump_regs dump_fuel drv [] range.start range.end) [
    | none ↦ none
    | some r ↦ some (r >>= λ prog. ok (prog, range))
  ]
]

dump_send : Option (Result (Prog × RegRange)) → Script → Script
dump_send none k = hang
dump_send (some (err e)) k = finish e
dump_send (some (ok (prog, range))) k =
    send (record { prog = prog; timeout = 10000; callback = dump range }) k

module _ (c : Libc) (dev : Device) where
  no_more : Argv → Script → Script
  no_more args k = elim (argv_peek args) [ none ↦ k | some _ ↦ finish einval ]

  -- mdio_common_raw_exec
  unfoldable pub raw_exec : Argv → Script
  unfolding no_more
  raw_exec args = or_fail (device_parse_reg c dev false args) λ (range, rest).
      elim (argv_peek rest) [
        | none ↦ or_fail (raw_prog dev.driver range.start none) λ r. send r (finish 0)
        | some _ ↦ or_fail (device_parse_val c dev true rest) λ (vm, rest').
            no_more rest'
              (or_fail (raw_prog dev.driver range.start (some vm)) λ r. send r (finish 0))
      ]

  bench_send : Result Prog → Argv → ℕ → Script
  unfolding no_more
  bench_send first args r = or_fail first λ prog. no_more args (
      or_fail (bench_loop dev.driver r prog)
        λ prog'. send (record { prog = prog'; timeout = 10000; callback = bench }) (finish 0))

  -- mdio_common_bench_exec
  unfoldable pub bench_exec : Argv → Script
  unfolding bench_send
  bench_exec args = or_fail (device_parse_reg c dev false args) λ (range, rest).
      elim (argv_peek rest) [
        | none ↦ bench_send (bench_expect dev.driver range.start none) rest range.start
        | some _ ↦ or_fail (device_parse_val c dev false rest) λ ((val, _), rest').
            bench_send (bench_expect dev.driver range.start (some val)) rest' range.start
      ]

  -- mdio_common_dump_exec_one, then `k`
  unfoldable pub dump_exec_one : Argv → (Argv → Script) → Script
  unfolding dump_prog dump_send
  dump_exec_one args k =
      or_fail (device_parse_reg c dev true args)
        λ (range, rest). dump_send (dump_prog dev.driver range) (k rest)

  -- mdio_common_dump_exec. Each pass consumes an argument, so their number is fuel enough.
  dump_exec_from : ℕ → Argv → Script
  dump_exec_from zero args = elim (argv_peek args) [ none ↦ finish 0 | some _ ↦ hang ]
  dump_exec_from (suc fuel) args = elim (argv_peek args) [
    | none ↦ finish 0
    | some _ ↦ dump_exec_one args (λ rest. dump_exec_from fuel rest)
  ]

  unfoldable pub dump_exec : Argv → Script
  unfolding dump_exec_from
  dump_exec args = dump_exec_from (length args) args

  -- mdio_common_exec
  unfoldable pub common_exec : Argv → Script
  common_exec args = elim (argv_peek args) [
    | none ↦ finish 1
    | some a ↦
        if text_eq a (codes "raw")
        then raw_exec (argv_pop args).1
        else if text_eq a (codes "bench")
        then bench_exec (argv_pop args).1
        else if text_eq a (codes "dump")
        then dump_exec (argv_pop args).1
        else raw_exec args
  ]
