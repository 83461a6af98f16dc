-- ===== src/Switch/Tables.antt =====
-- src/mvls/mvls.c and src/mvls/mvls.h: the entries of the VTU, STU and ATU as they are taken out
-- of the registers' bit fields, and the two port registers of a family's operations.
-- A call that returns -1 with `errno` gives `none`.
use mdio_tools.Prelude.{
  ℕ, ◌+◌, ◌*◌, ◌/◌, ◌%◌, ◌^◌, ◌==◌, if◌then◌else◌, Bool, true, false, ◌&&◌, ◌||◌, not, Option, none,
  some, List, [], ◌∷◌, get_or,
}

-- bits(_reg, _bit, _n) and bit(_reg, _bit)
abbrev pub bits : ℕ → ℕ → ℕ → ℕ
bits r b n = r / 2 ^ b % 2 ^ n

abbrev pub bit : ℕ → ℕ → Bool
bit r b = not (bits r b 1 == 0)

pub record PrioOverride : Type 0 where
  pub set : Bool
  pub pri : ℕ

-- struct mv88e6xxx_devlink_vtu_entry, by the fields that are read; `data` is an array of three.
pub record VtuWords : Type 0 where
  pub fid : ℕ
  pub sid : ℕ
  pub vid : ℕ
  pub words : List ℕ

pub record StuWords : Type 0 where
  pub sid : ℕ
  pub vid : ℕ
  pub words : List ℕ

pub record AtuWords : Type 0 where
  pub fid : ℕ
  pub atu_op : ℕ
  pub atu_data : ℕ
  pub atu_01 : ℕ
  pub atu_23 : ℕ
  pub atu_45 : ℕ

-- struct vtu_entry, stu_entry and atu_entry. The tool never reads the priority of an override
-- that is not set.
pub record VtuEntry : Type 0 where
  pub vid : ℕ
  pub fid : ℕ
  pub sid : ℕ
  pub member : List ℕ
  pub policy : Bool
  pub qpri_set : Bool
  pub fpri_set : Bool

pub record StuEntry : Type 0 where
  pub sid : ℕ
  pub state : List ℕ

pub record AtuEntry : Type 0 where
  pub fid : ℕ
  pub addr : List ℕ
  pub qpri : PrioOverride
  pub fpri : PrioOverride
  pub lag : Bool
  pub portvec : ℕ
  pub state : ℕ

-- The body of both `for` loops: the two bits of port `i`, `offs` bits into its field.
abbrev pub port_field : List ℕ → ℕ → ℕ → ℕ → ℕ
port_field words mbits offs i = bits (get_or words (i / (16 / mbits)) 0) ((i * mbits + offs) % 16) 2

-- The loop over the eleven ports.
abbrev pub each_port : (ℕ → ℕ) → List ℕ
each_port f = f 0 ∷ f 1 ∷ f 2 ∷ f 3 ∷ f 4 ∷ f 5 ∷ f 6 ∷ f 7 ∷ f 8 ∷ f 9 ∷ f 10 ∷ []

-- __dev_vtu_parse
unfoldable pub dev_vtu_parse : VtuWords → ℕ → Option VtuEntry
dev_vtu_parse k mbits =
    if not (bit k.vid 12)
    then none
    else some (record {
      vid = bits k.vid 0 12;
      fid = bits k.fid 0 12;
      sid = bits k.sid 0 6;
      member = each_port (port_field k.words mbits 0);
      policy = bit k.fid 12;
      qpri_set = false;
      fpri_set = false;
    })

-- __dev_stu_parse
unfoldable pub dev_stu_parse : StuWords → ℕ → Option StuEntry
dev_stu_parse k mbits =
    if not (bit k.vid 12)
    then none
    else some (record {
      sid = bits k.sid 0 6;
      state = each_port (port_field k.words mbits (if mbits == 4 then 2 else 0));
    })

-- prio_override_state
unfoldable pub prio_override_state : Bool → ℕ → Bool
prio_override_state mc s =
    if mc && (s == 0xc || s == 0xd || s == 0xe || s == 0xf)
    then true
    else s == 0x9 || s == 0xb || s == 0xd || s == 0xf

-- __dev_atu_parse. The source's union of states is one number; `addr[0] & 1` is the group bit.
unfoldable pub dev_atu_parse : AtuWords → Bool → Option AtuEntry
unfolding prio_override_state
dev_atu_parse k have_fpri =
    if bits k.atu_data 0 4 == 0
    then none
    else let prio = prio_override_state (bits k.atu_01 8 8 % 2 == 1) (bits k.atu_data 0 4) in
      some (record {
        fid = k.fid;
        addr =
            bits k.atu_01 8 8
            ∷ bits k.atu_01 0 8
            ∷ bits k.atu_23 8 8
            ∷ bits k.atu_23 0 8
            ∷ bits k.atu_45 8 8
            ∷ bits k.atu_45 0 8
            ∷ [];
        qpri = record { set = prio; pri = if prio then bits k.atu_op 8 3 else 0 };
        fpri = record {
          set = have_fpri && prio;
          pri = if have_fpri && prio then bits k.atu_op 0 3 else 0;
        };
        lag = bit k.atu_data 15;
        portvec = bits k.atu_data 4 11;
        state = bits k.atu_data 0 4;
      })

-- The functions of `struct family` for the Opal and the Peridot generation; Amethyst has the
-- latter's.
abbrev pub opal_dev_vtu_parse : VtuWords → Option VtuEntry
opal_dev_vtu_parse k = dev_vtu_parse k 4

abbrev pub peridot_dev_vtu_parse : VtuWords → Option VtuEntry
peridot_dev_vtu_parse k = dev_vtu_parse k 2

abbrev pub opal_dev_stu_parse : StuWords → Option StuEntry
opal_dev_stu_parse k = dev_stu_parse k 4

abbrev pub peridot_dev_stu_parse : StuWords → Option StuEntry
peridot_dev_stu_parse k = dev_stu_parse k 2

abbrev pub opal_dev_atu_parse : AtuWords → Option AtuEntry
opal_dev_atu_parse k = dev_atu_parse k false

abbrev pub peridot_dev_atu_parse : AtuWords → Option AtuEntry
peridot_dev_atu_parse k = dev_atu_parse k true

-- opal_port_lag: `none` for -1. A port's registers are a list of words.
unfoldable pub opal_port_lag : List ℕ → Option ℕ
opal_port_lag regs =
    let ctrl1 = get_or regs 5 0 in if not (bit ctrl1 14) then none else some (bits ctrl1 8 4)

-- opal_port_fid: the two fields do not overlap, so the `|` is an addition.
unfoldable pub opal_port_fid : List ℕ → ℕ
opal_port_fid regs = bits (get_or regs 6 0) 12 4 + bits (get_or regs 5 0) 0 8 * 16
