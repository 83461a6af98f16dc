-- ===== src/Tool/LinkStreet/Commands.antt =====
-- src/mdio/mvls.c: the commands `atu`, `counter` and `lag`, and the choice among them.
use mdio_tools.Prelude.{
  ℕ, zero, suc, ◌+◌, ◌*◌, ◌/◌, ◌%◌, ◌==◌, if◌then◌else◌, not, Bool, true, false, none, some, List,
  [], length, bit_or, u8,
}
use mdio_tools.Isa.{Prog, insn, imm, reg, goto, push, op_and, op_or, op_add, op_jne, op_emit}
use mdio_tools.Tool.Args.{codes, text_eq, Argv, argv_peek, argv_pop, ok, err, Libc}
use mdio_tools.Tool.Parse.{parse_dev}
use mdio_tools.Tool.Common.{
  Request, Script, finish, send, query, forever, common_exec, mvls_id, mvls_lag, mvls_counter,
  mvls_atu,
}
use mdio_tools.Tool.LinkStreet.{
  mvls_g1, mvls_g2, mvls_reg, mvls_read_to, mvls_write_prog, mvls_wait, mvls_driver,
}

pub data Family : Type 0 where
  unknown spinnaker opal agate peridot amethyst : Family

-- mvls_id_exec: the request for the id; a failed one counts as the id 0.
unfoldable pub id_request : ℕ → Request
id_request id = record {
  prog = push (mvls_read_to id [] (mvls_reg 0x10 0x03) 0) (insn op_emit (reg 0) 0 0);
  timeout = 1000;
  callback = mvls_id;
}

-- mvls_get_family, from the id that was read
unfoldable pub get_family : ℕ → Family
get_family id =
    if id / 16 == 0x099
    then opal
    else if id / 16 == 0x352
    then agate
    else if id / 16 == 0x0a1
    then peridot
    else unknown

-- The status of mvls_id_cb, mvls_lag_cb, mvls_counter_cb and mvls_atu_cb
unfoldable pub reply_cb : ℕ → List ℕ → ℕ → ℕ
reply_cb expected words e = if not (length words == expected) then 1 else e

-- The first loop of mvls_lag_exec, from entry `i` on, for the `n` entries that are left.
unfoldable pub lag_entries : ℕ → ℕ → ℕ → Prog → Prog
lag_entries id zero i prog = prog
lag_entries id (suc n) i prog = lag_entries id n (i + 1) (
    push
      (mvls_read_to id (mvls_write_prog id prog (mvls_reg mvls_g2 0x08) (imm (i * 2048)))
        (mvls_reg mvls_g2 0x08) 0)
      (insn op_emit (reg 0) 0 0))

-- The second loop, over the masks.
unfoldable pub lag_masks : ℕ → ℕ → ℕ → Prog → Prog
lag_masks id zero i prog = prog
lag_masks id (suc n) i prog =
    let current = mvls_read_to id prog (mvls_reg mvls_g2 0x07) 0 in
    let kept = push current (insn op_and (reg 0) (imm 2048) (reg 0)) in
    let chosen = push kept (insn op_or (reg 0) (imm (i * 4096)) (reg 0)) in
    let written = mvls_write_prog id chosen (mvls_reg mvls_g2 0x07) (reg 0) in
    let shown = mvls_read_to id written (mvls_reg mvls_g2 0x07) 0 in
    lag_masks id n (i + 1) (push shown (insn op_emit (reg 0) 0 0))

-- mvls_lag_exec
unfoldable pub lag_exec : ℕ → Argv → Script
unfolding lag_entries lag_masks
lag_exec id args = elim (argv_peek (argv_pop args).1) [
  | some _ ↦ finish 1
  | none ↦
      send
        (record {
          prog = lag_masks id 8 0 (lag_entries id 16 0 []);
          timeout = 1000;
          callback = mvls_lag;
        })
        (finish 0)
]

-- mvls_counter_read_one
unfoldable pub counter_read_one : ℕ → ℕ → Prog → Prog
counter_read_one id counter prog =
    let captured =
      mvls_write_prog id prog (mvls_reg mvls_g1 0x1d) (imm (bit_or 0xc000 (u8 counter))) in
    let done = mvls_wait id captured (mvls_reg mvls_g1 0x1d) in
    let high = push (mvls_read_to id done (mvls_reg mvls_g1 0x1e) 0) (insn op_emit (reg 0) 0 0) in
    push (mvls_read_to id high (mvls_reg mvls_g1 0x1f) 0) (insn op_emit (reg 0) 0 0)

-- The first port and the step from port to port, in the bits of the capture command.
unfoldable pub counter_ports : Family → ℕ × ℕ
counter_ports agate = (32, 32)
counter_ports peridot = (32, 32)
counter_ports amethyst = (32, 32)
counter_ports _ = (0, 1)

-- The program of mvls_counter_exec: register 1 walks over the eleven ports.
unfoldable pub counter_prog : ℕ → ℕ × ℕ → Prog
unfolding counter_read_one
counter_prog id (base, shift) =
    let idle = mvls_wait id [] (mvls_reg mvls_g1 0x1d) in
    let start = push idle (insn op_add (imm (bit_or 0xd000 base)) (imm 0) (reg 1)) in
    let loop = length start in
    let wrote = mvls_write_prog id start (mvls_reg mvls_g1 0x1d) (reg 1) in
    let ready = mvls_wait id wrote (mvls_reg mvls_g1 0x1d) in
    let rx = counter_read_one id 0x07 (counter_read_one id 0x06 (counter_read_one id 0x04 ready)) in
    let tx = counter_read_one id 0x12 (counter_read_one id 0x13 (counter_read_one id 0x10 rx)) in
    let next = push tx (insn op_add (reg 1) (imm shift) (reg 1)) in
    push next
      (insn op_jne (reg 1) (imm (bit_or 0xd000 (base + shift * 11))) (goto (length next) loop))

-- mvls_counter_exec
counter_send : ℕ → Bool → Script
unfolding counter_prog counter_ports get_family
counter_send id repeat = query (id_request id) λ chip.
    let request : Request = record {
      prog = counter_prog id (counter_ports (get_family chip));
      timeout = 1000;
      callback = mvls_counter;
    } in
    if repeat then forever request else send request (finish 0)

unfoldable pub counter_exec : ℕ → Argv → Script
unfolding counter_send
counter_exec id args = elim (argv_peek (argv_pop args).1) [
  | none ↦ counter_send id false
  | some a ↦ if text_eq a (codes "repeat") then counter_send id true else finish 1
]

-- The part of mvls_atu_exec behind the label `exec`.
unfoldable pub atu_prog : ℕ → Prog → ℕ → Prog
atu_prog id prog op =
    let idle = mvls_wait id prog (mvls_reg mvls_g1 0x0b) in
    let old = mvls_read_to id idle (mvls_reg mvls_g1 0x0b) 0 in
    let kept = push old (insn op_and (reg 0) (imm 0xfff) (reg 0)) in
    let command = push kept (insn op_or (reg 0) (imm (bit_or 0x8000 (op * 4096))) (reg 0)) in
    let written = mvls_write_prog id command (mvls_reg mvls_g1 0x0b) (reg 0) in
    mvls_wait id written (mvls_reg mvls_g1 0x0b)

atu_send : ℕ → Prog → ℕ → Script
unfolding atu_prog
atu_send id prog op =
    send (record { prog = atu_prog id prog op; timeout = 1000; callback = mvls_atu }) (finish 0)

-- Limit the operation to a FID; the mask 0xf0000 is the source's.
unfoldable pub atu_fid_prog : ℕ → ℕ → Prog
atu_fid_prog id fid =
    let old = mvls_read_to id [] (mvls_reg mvls_g1 0x01) 0 in
    let kept = push old (insn op_and (reg 0) (imm 0xf0000) (reg 0)) in
    let chosen = push kept (insn op_or (reg 0) (imm (fid % 4096)) (reg 0)) in
    mvls_write_prog id chosen (mvls_reg mvls_g1 0x01) (reg 0)

-- The part behind the label `read_stat`: an option other than "static" is reported and ignored.
atu_stat : ℕ → Prog → ℕ → Argv → Script
unfolding atu_send
atu_stat id prog op args = elim (argv_peek args) [
  | none ↦ atu_send id prog (op + 2)
  | some a ↦ if text_eq a (codes "static") then atu_send id prog (op + 1) else atu_send id prog op
]

-- What follows `flush`.
atu_flush : Libc → ℕ → Argv → Script
unfolding atu_send atu_stat
atu_flush c id args =
    let (arg, rest) = argv_pop args in
    elim arg [
      | none ↦ atu_send id [] 2
      | some a ↦
          if text_eq a (codes "all")
          then atu_stat id [] 0 rest
          else let (negative, fid) = c.strtol a in
            if negative then finish 1 else atu_stat id (atu_fid_prog id fid) 4 rest
    ]

-- mvls_atu_exec
unfoldable pub atu_exec : Libc → ℕ → Argv → Script
unfolding atu_flush
atu_exec c id args =
    let (arg, rest) = argv_pop (argv_pop args).1 in
    elim arg [
      | none ↦ finish 1
      | some a ↦ if text_eq a (codes "flush") then atu_flush c id rest else finish 1
    ]

-- mvls_exec
unfoldable pub mvls_exec : Libc → Argv → Script
mvls_exec c args =
    let (arg, rest) = argv_pop args in
    elim arg [
      | none ↦ finish 1
      | some a ↦ elim (parse_dev c a true) [
        | err _ ↦ finish 1
        | ok id ↦ elim (argv_peek rest) [
          | none ↦ finish 1
          | some op ↦
              if text_eq op (codes "atu")
              then atu_exec c id rest
              else if text_eq op (codes "counter")
              then counter_exec id rest
              else if text_eq op (codes "lag")
              then lag_exec id rest
              else common_exec c
                  (record { driver = mvls_driver c id; max = 0; stride = 1; width = 16 }) rest
        ]
      ]
    ]
