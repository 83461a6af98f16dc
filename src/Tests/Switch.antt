-- ===== src/Tests/Switch.antt =====
-- src/mvls/mvls.c: the theorems on table entries and on the order of devices, at concrete inputs.
use mathlib.Core.List.{mem-cons}
use mathlib.Core.Option.{map}
use mathlib.Core.Logic.Or
use mdio_tools.Prelude.{ℕ, ◌≡◌, refl, arith, List, [], ◌∷◌, true, false, some}
use mdio_tools.Switch.Tables.{VtuWords, VtuEntry, AtuWords, AtuEntry, dev_vtu_parse, dev_atu_parse}
use mdio_tools.Switch.Fields.{
  flat, flat_fields, VtuHolds, peridot_vtu-VtuHolds, AtuHolds, atu-AtuHolds,
}
use mdio_tools.Tool.Args.{codes}
use mdio_tools.Switch.Show.Matrix.{LoadedPort, LoadedDev, forth, pvt_cell, cell_words, cell_of}
use mdio_tools.Switch.Show.Mirror.{mirror, cell_of-mirror}
use mdio_tools.Switch.Env.{Dev, dev_sort}
use mdio_tools.Switch.Order.{IsSorted, dev_sort-unsorted}

abbrev device : ℕ → Dev
device index = record { bus = []; dev = []; chip = []; index = index; ports = [] }

abbrev three : List Dev
three = device 2 ∷ device 3 ∷ device 1 ∷ []

dev_sort-unsorted_example : ¬ IsSorted (dev_sort three)
dev_sort-unsorted_example =
    dev_sort-unsorted (device 2) (device 3) (device 1) (device 1 ∷ []) (omega arith)
      (mem-cons.1 (Or.inl refl)) (omega arith)

-- VLAN 100 with the policy bit, FID 5, SID 1; the ports 8 and up have their members in the second word.
abbrev vlan : VtuWords
vlan = record { fid = 0x1005; sid = 1; vid = 0x1064; words = 0x1234 ∷ 0x5678 ∷ 0x9abc ∷ [] }

abbrev vlan_entry : ℕ → VtuEntry
vlan_entry mbits = record {
  vid = 100;
  fid = 5;
  sid = 1;
  member = flat_fields (flat 0x1234 0x5678 0x9abc) mbits 0;
  policy = true;
  qpri_set = false;
  fpri_set = false;
}

peridot_vtu-VtuHolds_example : VtuHolds vlan 2 (flat 0x1234 0x5678 0x9abc) (vlan_entry 2)
unfolding dev_vtu_parse
peridot_vtu-VtuHolds_example =
    peridot_vtu-VtuHolds vlan 0x1234 0x5678 0x9abc (omega arith) (omega arith) (omega arith) refl
      (vlan_entry 2) refl

-- A static entry of a LAG with an overridden priority.
abbrev station : AtuWords
station = record {
  fid = 3;
  atu_op = 0x0302;
  atu_data = 0x802d;
  atu_01 = 0x0011;
  atu_23 = 0x2233;
  atu_45 = 0x4455;
}

abbrev station_entry : AtuEntry
station_entry = record {
  fid = 3;
  addr = 0x00 ∷ 0x11 ∷ 0x22 ∷ 0x33 ∷ 0x44 ∷ 0x55 ∷ [];
  qpri = record { set = true; pri = 3 };
  fpri = record { set = true; pri = 2 };
  lag = true;
  portvec = 2;
  state = 0xd;
}

atu-AtuHolds_example : AtuHolds station true station_entry
unfolding dev_atu_parse
atu-AtuHolds_example =
    atu-AtuHolds station true station_entry (omega arith) (omega arith) (omega arith) (omega arith)
      refl

abbrev left_port : LoadedPort
left_port = record { index = 1; regs = 0 ∷ 0 ∷ 0 ∷ 0 ∷ 0 ∷ 0 ∷ 4 ∷ [] }

abbrev right_port : LoadedPort
right_port = record { index = 2; regs = 0 ∷ 0 ∷ 0 ∷ 0 ∷ 0 ∷ 0 ∷ 0 ∷ [] }

abbrev switch_of : List LoadedPort → LoadedDev
switch_of ports = record { bus = codes "b"; dev = codes "d0"; index = 0; pvt = []; ports = ports }

-- The left port may send to the right one, and not the other way.
left_cell : cell_of (switch_of []) left_port (switch_of []) right_port ≡ some forth
unfolding cell_of cell_words pvt_cell
left_cell = refl

cell_of-mirror_example :
    cell_of (switch_of []) left_port (switch_of []) right_port
    ≡ map mirror (cell_of (switch_of []) right_port (switch_of []) left_port)
cell_of-mirror_example = cell_of-mirror (switch_of []) left_port (switch_of []) right_port
