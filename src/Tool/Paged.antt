-- ===== src/Tool/Paged.antt =====
-- src/mdio/paged-phy.c: PHYs whose registers are reached through a page register.
use mdio_tools.Prelude.{
  ℕ, zero, suc, ◌+◌, ◌*◌, ◌/◌, ◌%◌, ◌==◌, ltb, leb, if◌then◌else◌, not, ◌&&◌, Bool, true, false,
  Option, none, some, List, [], ◌∷◌, length, get_or, u8, u32,
}
use mdio_tools.Isa.{Prog, insn, imm, reg, push, op_read, op_write, op_jeq, op_emit}
use mdio_tools.Tool.Args.{
  Text, codes, text_eq, Argv, argv_peek, argv_pop, Result, ok, err, ◌>>=◌, einval, Libc,
}
use mdio_tools.Tool.Device.{RegRange, Driver, Device}
use mdio_tools.Tool.Parse.{parse_dev, parse_range}
use mdio_tools.Tool.Common.{Request, Script, finish, send, common_exec, mva_status, dump_fuel}

abbrev pub PageNames : Type 0
PageNames = List (Text × ℕ)

-- struct pphy_device, without the generic part
pub record PagedPhy : Type 0 where
  pub id : ℕ
  pub page_reg : ℕ
  pub page_names : PageNames

-- Save the current page in register 1 and select `page` if it differs.
unfoldable pub select_page : PagedPhy → ℕ → Prog → Prog
select_page d page prog =
    push
      (push (push prog (insn op_read (imm d.id) (imm d.page_reg) (reg 1)))
        (insn op_jeq (reg 1) (imm page) (imm 1)))
      (insn op_write (imm d.id) (imm d.page_reg) (imm page))

-- Restore the old page if it was changed.
unfoldable pub restore_page : PagedPhy → ℕ → Prog → Prog
restore_page d page prog =
    push (push prog (insn op_jeq (reg 1) (imm page) (imm 1)))
      (insn op_write (imm d.id) (imm d.page_reg) (reg 1))

-- `reg >> 16` in a `uint8_t`, and `reg & 0x1f`
abbrev pub page_of : ℕ → ℕ
page_of r = u8 (r / 65536)

abbrev pub reg_of : ℕ → ℕ
reg_of r = r % 32

-- pphy_read and pphy_write
unfoldable pub pphy_read : PagedPhy → Prog → ℕ → Result Prog
unfolding select_page restore_page
pphy_read d prog r = ok (
    restore_page d (page_of r)
      (push (select_page d (page_of r) prog) (insn op_read (imm d.id) (imm (reg_of r)) (reg 0))))

unfoldable pub pphy_write : PagedPhy → Prog → ℕ → ℕ → Result Prog
unfolding select_page restore_page
pphy_write d prog r val = ok (
    restore_page d (page_of r)
      (push (select_page d (page_of r) prog) (insn op_write (imm d.id) (imm (reg_of r)) val)))

find_page : PageNames → Text → Option ℕ
find_page [] tok = none
find_page ((name, page) ∷ names) tok = if text_eq tok name then some page else find_page names tok

-- The loop of pphy_dump, on fuel.
unfoldable pub pphy_dump_regs : ℕ → PagedPhy → Prog → ℕ → ℕ → Option Prog
pphy_dump_regs zero d prog r end = none
pphy_dump_regs (suc fuel) d prog r end = elim (leb r end) [
  | false ↦ some prog
  | true ↦
      pphy_dump_regs fuel d
        (push (push prog (insn op_read (imm d.id) (imm r) (reg 0))) (insn op_emit (reg 0) 0 0))
        (u32 (r + 1)) end
]

-- pphy_dump: the range loses its page. `none` stands for a loop without an end.
unfoldable pub pphy_dump : PagedPhy → Prog → RegRange → Option (Result (Prog × RegRange))
unfolding pphy_dump_regs select_page restore_page
pphy_dump d prog range =
    let page = page_of range.start in
    let start = reg_of range.start in
    elim (pphy_dump_regs dump_fuel d (select_page d page prog) start range.end) [
      | none ↦ none
      | some prog' ↦ some (ok (restore_page d page prog', record range { start = start }))
    ]

module _ (c : Libc) where
  -- pphy_parse_page
  unfoldable pub parse_page : PageNames → Text → Result ℕ
  unfolding find_page
  parse_page names tok = elim (find_page names tok) [
    | some page ↦ ok page
    | none ↦
        let (r, end) = c.strtoul tok in
        elim end [ [] ↦ if ltb 255 r then err einval else ok (u8 r) | _ ∷ _ ↦ err einval ]
  ]

  -- pphy_parse_reg: "PAGE:REG", where REG may be a range. The start of the range is at most
  -- `max`, below 2 ^ 16 in every device here, so the `|=` of the page is an addition.
  unfoldable pub pphy_parse_reg : ℕ → PageNames → Bool → Argv → Result (RegRange × Argv)
  unfolding parse_page
  pphy_parse_reg max names ranged args =
      let (arg, rest) = argv_pop args in
      elim arg [
        | none ↦ err einval
        | some str ↦ elim (c.strtok str) [
          | none ↦ err einval
          | some (tok, more) ↦ do
            page ← parse_page names tok
            elim (c.strtok more) [
              | none ↦ err einval
              | some (tok', _) ↦ elim (parse_range c max ranged tok') [
                | err _ ↦ err einval
                | ok r ↦ ok (record r { start = r.start + page * 65536 }, rest)
              ]
            ]
        ]
      ]

  -- pphy_driver, for a device whose highest register is `max`
  unfoldable pub pphy_driver : ℕ → PagedPhy → Driver
  unfolding pphy_parse_reg pphy_dump
  pphy_driver max d = record {
    read = pphy_read d;
    write = pphy_write d;
    dump = some (pphy_dump d);
    parse_reg = some (pphy_parse_reg max d.page_names);
    parse_val = none;
  }

abbrev pub page_names : PageNames
page_names = (codes "copper", 0) ∷ (codes "cu", 0) ∷ (codes "fiber", 1) ∷ (codes "fibre", 1) ∷ []

-- mva_exec_status
unfoldable pub mva_exec_status : PagedPhy → Request
mva_exec_status d = record {
  prog =
      insn op_read (imm d.id) (imm 0) (reg 0)
      ∷ insn op_emit (reg 0) 0 0
      ∷ insn op_read (imm d.id) (imm 1) (reg 0)
      ∷ insn op_emit (reg 0) 0 0
      ∷ insn op_read (imm d.id) (imm 2) (reg 0)
      ∷ insn op_emit (reg 0) 0 0
      ∷ insn op_read (imm d.id) (imm 3) (reg 0)
      ∷ insn op_emit (reg 0) 0 0
      ∷ insn op_read (imm d.id) (imm d.page_reg) (reg 0)
      ∷ insn op_emit (reg 0) 0 0
      ∷ [];
  timeout = 1000;
  callback = mva_status;
}

-- mva_status_cb, without what it prints
unfoldable pub mva_status_cb : List ℕ → ℕ → ℕ
mva_status_cb words e =
    if not (length words == 5)
    then 1
    else if (get_or words 2 0 == 0xffff) && (get_or words 3 0 == 0xffff)
    then 1
    else e

module _ (c : Libc) where
  paged_device : PagedPhy → Device
  paged_device d = record { driver = pphy_driver c 31 d; max = 31; stride = 1; width = 16 }

  -- mva_exec
  unfoldable pub mva_exec : Argv → Script
  unfolding paged_device
  mva_exec args =
      let (arg, rest) = argv_pop args in
      elim arg [
        | none ↦ finish 1
        | some a ↦ elim (parse_dev c a true) [
          | err _ ↦ finish 1
          | ok id ↦
              let d : PagedPhy = record { id = id; page_reg = 0x16; page_names = page_names } in
              elim (argv_peek rest) [
                | none ↦ send (mva_exec_status d) (finish 0)
                | some op ↦
                    if text_eq op (codes "status")
                    then send (mva_exec_status d) (finish 0)
                    else common_exec c (paged_device d) rest
              ]
        ]
      ]

  -- mscc_exec
  unfoldable pub mscc_exec : Argv → Script
  unfolding paged_device
  mscc_exec args =
      let (arg, rest) = argv_pop args in
      elim arg [
        | none ↦ finish 1
        | some a ↦ elim (parse_dev c a true) [
          | err _ ↦ finish 1
          | ok id ↦
              let d : PagedPhy = record { id = id; page_reg = 0x1f; page_names = [] } in
              common_exec c (paged_device d) rest
        ]
      ]
