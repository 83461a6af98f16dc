-- ===== src/Tool/LinkStreet.antt =====
-- src/mdio/mvls.c: Marvell LinkStreet switches, addressed directly (id 0) or through the command
-- and data registers of multi-chip addressing.
pub mod Commands
use mdio_tools.Prelude.{
  ℕ, ◌+◌, ◌*◌, ◌/◌, ◌%◌, ◌==◌, ltb, if◌then◌else◌, ◌||◌, Bool, true, false, none, some, [], ◌∷◌,
  length, bit_or, u8, u16, u32,
}
use mdio_tools.Isa.{Prog, insn, imm, reg, goto, push, op_read, op_write, op_and, op_jeq}
use mdio_tools.Tool.Args.{
  Text, codes, text_eq, Argv, argv_pop, Result, ok, err, ◌>>=◌, einval, enosys, Libc,
}
use mdio_tools.Tool.Device.{RegRange, Driver}

abbrev pub mvls_cmd : ℕ
mvls_cmd = 0

abbrev pub mvls_data : ℕ
mvls_data = 1

abbrev pub cmd_busy : ℕ
cmd_busy = 0x8000

abbrev pub cmd_c22 : ℕ
cmd_c22 = 0x1000

abbrev pub mvls_g1 : ℕ
mvls_g1 = 0x1b

abbrev pub mvls_g2 : ℕ
mvls_g2 = 0x1c

-- MVLS_REG(_port, _reg), used with registers below 2 ^ 16
abbrev pub mvls_reg : ℕ → ℕ → ℕ
mvls_reg port r = port * 65536 + r

-- mvls_multi_cmd
unfoldable pub multi_cmd : ℕ → ℕ → Bool → ℕ
multi_cmd port r write = u16 (
    bit_or
      (bit_or (bit_or (bit_or cmd_busy cmd_c22) ((if write then 1 else 2) * 1024)) (u8 port * 32))
      (u8 r))

-- The end of both wait loops: jump back to `retry` while the busy bit of register 0 is set.
unfoldable pub retry_busy : ℕ → Prog → Prog
retry_busy retry prog =
    let masked = push prog (insn op_and (reg 0) (imm cmd_busy) (reg 0)) in
    push masked (insn op_jeq (reg 0) (imm cmd_busy) (goto (length masked) retry))

-- mvls_wait_cmd
unfoldable pub wait_cmd : ℕ → Prog → Prog
unfolding retry_busy
wait_cmd id prog =
    retry_busy (length prog) (push prog (insn op_read (imm id) (imm mvls_cmd) (reg 0)))

-- mvls_read_to: `reg >> 16` is a `uint16_t` here, and a `uint8_t` in the command.
unfoldable pub mvls_read_to : ℕ → Prog → ℕ → ℕ → Prog
unfolding wait_cmd multi_cmd
mvls_read_to id prog r to =
    let port = u16 (r / 65536) in
    let r' = u16 r in
    if id == 0
    then push prog (insn op_read (imm port) (imm r') (reg to))
    else push
        (wait_cmd (u8 id)
          (push prog (insn op_write (imm id) (imm mvls_cmd) (imm (multi_cmd port r' false)))))
        (insn op_read (imm id) (imm mvls_data) (reg to))

-- mvls_read
unfoldable pub mvls_read : ℕ → Prog → ℕ → Result Prog
unfolding mvls_read_to
mvls_read id prog r = ok (mvls_read_to id prog r 0)

-- The program that mvls_write leaves; it always returns 0.
unfoldable pub mvls_write_prog : ℕ → Prog → ℕ → ℕ → Prog
unfolding wait_cmd multi_cmd
mvls_write_prog id prog r val =
    let port = u16 (r / 65536) in
    let r' = u16 r in
    if id == 0
    then push prog (insn op_write (imm port) (imm r') val)
    else wait_cmd (u8 id) (
        push (push prog (insn op_write (imm id) (imm mvls_data) val))
          (insn op_write (imm id) (imm mvls_cmd) (imm (multi_cmd port r' true))))

-- mvls_write
unfoldable pub mvls_write : ℕ → Prog → ℕ → ℕ → Result Prog
unfolding mvls_write_prog
mvls_write id prog r val = ok (mvls_write_prog id prog r val)

-- mvls_wait
unfoldable pub mvls_wait : ℕ → Prog → ℕ → Prog
unfolding mvls_read_to retry_busy
mvls_wait id prog r = retry_busy (length prog) (mvls_read_to id prog r 0)

module _ (c : Libc) where
  -- The token before the colon.
  parse_port : ℕ → Result ℕ
  parse_port r = if ltb 31 r then err einval else ok r

  named_port : Text → Result ℕ
  named_port tok =
      if text_eq tok (codes "global1") || text_eq tok (codes "g1")
      then ok mvls_g1
      else if text_eq tok (codes "global2") || text_eq tok (codes "g2")
      then ok mvls_g2
      else let (r, end) = c.strtoul tok in elim end [ [] ↦ parse_port r | _ ∷ _ ↦ err einval ]

  -- mvls_parse_reg: "PORT:REG", no ranges
  unfoldable pub mvls_parse_reg : Bool → Argv → Result (RegRange × Argv)
  unfolding parse_port named_port argv_pop
  mvls_parse_reg ranged args =
      if ranged
      then err enosys
      else let (arg, rest) = argv_pop args in
        elim arg [
          | none ↦ err einval
          | some str ↦ elim (c.strtok str) [
            | none ↦ err einval
            | some (tok, more) ↦ do
              port ← named_port tok
              elim (c.strtok more) [
                | none ↦ err einval
                | some (tok', _) ↦
                    let (r, end) = c.strtoul tok' in
                    elim end [
                      | [] ↦
                          if ltb 31 r
                          then err einval
                          else ok (record { start = mvls_reg port r; end = 0 }, rest)
                      | _ ∷ _ ↦ err einval
                    ]
              ]
          ]
        ]

  -- mvls_driver
  unfoldable pub mvls_driver : ℕ → Driver
  unfolding mvls_parse_reg
  mvls_driver id = record {
    read = mvls_read id;
    write = mvls_write id;
    dump = none;
    parse_reg = some mvls_parse_reg;
    parse_val = none;
  }
