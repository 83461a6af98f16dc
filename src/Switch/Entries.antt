-- ===== src/Switch/Entries.antt =====
-- src/mvls/mvls.c and src/mvls/devlink.h: the table of chips with their families, and the entries of a
-- region as the printers walk over them.
use mdio_tools.Prelude.{ℕ, ◌+◌, ◌*◌, if◌then◌else◌, Option, none, some, List, [], ◌∷◌}
use mdio_tools.Tool.Args.{Text, codes, text_eq}
use mdio_tools.Switch.Region.{AttrTypes, Mnl, Bytes, Copied, copied}
use mdio_tools.Switch.Tables.{
  VtuWords, StuWords, AtuWords, VtuEntry, StuEntry, AtuEntry, opal_dev_vtu_parse,
  peridot_dev_vtu_parse, opal_dev_stu_parse, peridot_dev_stu_parse, opal_dev_atu_parse,
  peridot_dev_atu_parse,
}
use mdio_tools.Switch.Devlink.{Link, region_get, port_region_get}
use mdio_tools.Switch.Discovery.{dup_cb, succeeded}
use mdio_tools.Switch.Env.{Port, Dev}

-- opal_family, peridot_family and amethyst_family
pub data Family : Type 0 where
  opal peridot amethyst : Family

-- struct chip
pub record Chip : Type 0 where
  pub id : Text
  pub family : Family
  pub n_ports : ℕ

-- The table `chips`.
abbrev pub chip_table : List Chip
chip_table =
    record { id = codes "Marvell 88E6097/88E6097F"; family = opal; n_ports = 11 }
    ∷ record { id = codes "Marvell 88E6352"; family = opal; n_ports = 7 }
    ∷ record { id = codes "Marvell 88E6320"; family = opal; n_ports = 7 }
    ∷ record { id = codes "Marvell 88E6321"; family = opal; n_ports = 7 }
    ∷ record { id = codes "Marvell 88E6190"; family = peridot; n_ports = 11 }
    ∷ record { id = codes "Marvell 88E6190X"; family = peridot; n_ports = 11 }
    ∷ record { id = codes "Marvell 88E6191"; family = peridot; n_ports = 11 }
    ∷ record { id = codes "Marvell 88E6191X"; family = amethyst; n_ports = 11 }
    ∷ record { id = codes "Marvell 88E6193X"; family = amethyst; n_ports = 11 }
    ∷ record { id = codes "Marvell 88E6290"; family = peridot; n_ports = 11 }
    ∷ record { id = codes "Marvell 88E6390"; family = peridot; n_ports = 11 }
    ∷ record { id = codes "Marvell 88E6390X"; family = peridot; n_ports = 11 }
    ∷ record { id = codes "Marvell 88E6393X"; family = amethyst; n_ports = 11 }
    ∷ []

-- The chip that a device points to. A device keeps its chip's id here, which the table always has.
unfoldable pub find_chip : List Chip → Text → Chip
find_chip [] id = record { id = id; family = opal; n_ports = 0 }
find_chip (c ∷ cs) id = if text_eq c.id id then c else find_chip cs id

abbrev pub chip_of : Dev → Chip
chip_of d = find_chip chip_table d.chip

-- dev_op for the three parsers
unfoldable pub family_vtu_parse : Family → VtuWords → Option VtuEntry
family_vtu_parse opal k = opal_dev_vtu_parse k
family_vtu_parse peridot k = peridot_dev_vtu_parse k
family_vtu_parse amethyst k = peridot_dev_vtu_parse k

unfoldable pub family_stu_parse : Family → StuWords → Option StuEntry
family_stu_parse opal k = opal_dev_stu_parse k
family_stu_parse peridot k = peridot_dev_stu_parse k
family_stu_parse amethyst k = peridot_dev_stu_parse k

unfoldable pub family_atu_parse : Family → AtuWords → Option AtuEntry
family_atu_parse opal k = opal_dev_atu_parse k
family_atu_parse peridot k = peridot_dev_atu_parse k
family_atu_parse amethyst k = peridot_dev_atu_parse k

-- `data.u16` on a machine with the low byte first, as far as the region has been written
unfoldable pub words_of : Bytes → List ℕ
words_of (some low ∷ some high ∷ d) = (low + high * 256) ∷ words_of d
words_of _ = []

-- The region as an array of struct mv88e6xxx_devlink_atu_entry, vtu_entry and stu_entry.
unfoldable pub atu_entries : List ℕ → List AtuWords
atu_entries (fid ∷ op ∷ data_ ∷ a01 ∷ a23 ∷ a45 ∷ ws) =
    record { fid = fid; atu_op = op; atu_data = data_; atu_01 = a01; atu_23 = a23; atu_45 = a45 }
    ∷ atu_entries ws
atu_entries _ = []

unfoldable pub vtu_entries : List ℕ → List VtuWords
vtu_entries (fid ∷ sid ∷ op ∷ vid ∷ d0 ∷ d1 ∷ d2 ∷ resvd ∷ ws) =
    record { fid = fid; sid = sid; vid = vid; words = d0 ∷ d1 ∷ d2 ∷ [] } ∷ vtu_entries ws
vtu_entries _ = []

unfoldable pub stu_entries : List ℕ → List StuWords
stu_entries (sid ∷ vid ∷ d0 ∷ d1 ∷ d2 ∷ resvd ∷ ws) =
    record { sid = sid; vid = vid; words = d0 ∷ d1 ∷ d2 ∷ [] } ∷ stu_entries ws
stu_entries _ = []

-- What a query of a region comes to: its bytes, an error with the bytes that came before it, or no
-- result at all, where the tool crashes or goes on for ever.
pub data Load : Type 0 where
  loaded load_failed : Bytes → Load
  load_stuck : Load

abbrev loaded_from : Copied → Load
loaded_from (copied b) = loaded b
loaded_from _ = load_stuck

abbrev failed_from : Copied → Load
failed_from (copied b) = load_failed b
failed_from _ = load_stuck

module _ {W D A : Type 0} (link : Link W D (List A) Copied) (ty : AttrTypes) (mnl : Mnl A)
    (fuel : ℕ) where
  -- devlink_region_get with devlink_region_dup_cb for a region that is empty before
  unfoldable pub load_region : Text → Dev → W → Load × W
  unfolding dup_cb
  load_region name d w =
      elim (region_get link fuel d.bus d.dev name (dup_cb ty mnl fuel)
        (record { world = w; log = []; state = copied [] })) [
          | none ↦ (load_stuck, w)
          | some (err, s) ↦
              if succeeded err
              then (loaded_from s.state, s.world)
              else (failed_from s.state, s.world)
        ]

  -- dev_load_pvt, of a region that has its size and bytes in `pvt`
  unfoldable pub dev_load_pvt : Dev → Bytes → W → Load × W
  unfolding load_region
  dev_load_pvt d [] w = load_region (codes "pvt") d w
  dev_load_pvt d (b ∷ pvt) w = (loaded (b ∷ pvt), w)

  -- port_load_regs, of a port that has its registers in `regs`
  unfoldable pub port_load_regs : Dev → Port → Bytes → W → Load × W
  unfolding dup_cb
  port_load_regs d p [] w =
      elim (port_region_get link fuel d.bus d.dev (some p.index) (codes "port") (dup_cb ty mnl fuel)
        (record { world = w; log = []; state = copied [] })) [
          | none ↦ (load_stuck, w)
          | some (err, s) ↦
              if succeeded err
              then (loaded_from s.state, s.world)
              else (failed_from s.state, s.world)
        ]
  port_load_regs d p (b ∷ regs) w = (loaded (b ∷ regs), w)
