-- ===== src/Tests/Json.antt =====
-- src/mvls/mvls-json.c: the theorems on the JSON printer, at concrete inputs.
use mdio_tools.Prelude.{
  ℕ, zero, suc, if◌then◌else◌, ◌≡◌, refl, Bool, true, false, List, [], ◌∷◌, ◌++◌, Option, some,
  none,
}
use mdio_tools.Tool.Args.{Text, codes, text_eq}
use mdio_tools.Switch.Region.{Bytes}
use mdio_tools.Switch.Tables.{
  AtuEntry, VtuEntry, dev_vtu_parse, dev_stu_parse, dev_atu_parse, prio_override_state,
}
use mdio_tools.Switch.Env.{Port, Dev, Env}
use mdio_tools.Switch.Entries.{
  Load, loaded, find_chip, words_of, atu_entries, vtu_entries, stu_entries, family_atu_parse,
  family_vtu_parse, family_stu_parse,
}
use mdio_tools.Switch.Main.{main_print}
use mdio_tools.Switch.Json.{VtuMasks, vtu_mark, env_json_vtu}
use mdio_tools.Switch.Json.Grammar.{Denotes, obj, arr, member, no_members, plain, plain_char}
use mdio_tools.Switch.Json.Rows.{no_devs, has_entries, ended, takes}
use mdio_tools.Switch.Json.PortList.{no_ports, port_seen, devs_end, dev_seen, all_port_values}
use mdio_tools.Switch.Json.Ports.{regs_seen}
use mdio_tools.Switch.Json.Output.{
  printer_json, atu_table, vtu_table, stu_table, main_print-Denotes,
}
use mdio_tools.Switch.Json.Marks.{VtuWithin, two_entries, no_masks, env_json_vtu-VtuWithin}

abbrev zeros : ℕ → Bytes
zeros zero = []
zeros (suc n) = some 0 ∷ zeros n

-- One station in the ATU, and regions of zeros for the other tables and for the registers of every port.
abbrev station_bytes : Bytes
station_bytes =
    some 3
    ∷ some 0
    ∷ some 0
    ∷ some 0
    ∷ some 0x2e
    ∷ some 0
    ∷ some 0x11
    ∷ some 0
    ∷ some 0x33
    ∷ some 0x22
    ∷ some 0x55
    ∷ some 0x44
    ∷ zeros 12

abbrev tables : Text → Dev → Bool → Load × Bool
tables name d w = (loaded (if text_eq name (codes "atu") then station_bytes else zeros 16), w)

abbrev zero_regs : Dev → Port → Bool → Load × Bool
zero_regs d p w = (loaded (zeros 20), w)

abbrev one_dev : Env
one_dev = record {
  multichip = false;
  devs =
      record {
        bus = codes "b";
        dev = codes "d0";
        chip = codes "Marvell 88E6190";
        index = 1;
        ports = record { index = 2; netdev = codes "lan2"; flavor = 0 } ∷ [];
      }
      ∷ [];
}

abbrev station : AtuEntry
station = record {
  fid = 3;
  addr = 0 ∷ 0x11 ∷ 0x22 ∷ 0x33 ∷ 0x44 ∷ 0x55 ∷ [];
  qpri = record { set = false; pri = 0 };
  fpri = record { set = false; pri = 0 };
  lag = false;
  portvec = 2;
  state = 0xe;
}

main_print-Denotes_example :
    (t : Text) × (main_print (printer_json tables zero_regs) (λ _. none) [] one_dev true
      ≡ some (true, t, true))
    × Denotes t (
        obj (
          member (codes "vtu") (vtu_table ((1, []) ∷ [])) (
            member (codes "stu") (stu_table ((1, []) ∷ [])) (
              member (codes "atu") (atu_table ((1, station ∷ []) ∷ [])) (
                member
                  (codes "ports")
                  (arr (
                    all_port_values (
                      (
                        1,
                        (
                          record { index = 2; netdev = codes "lan2"; flavor = 0 },
                          words_of (zeros 20),
                        )
                            ∷ [],
                      )
                      ∷ [])))
                  no_members)))))
unfolding find_chip words_of atu_entries vtu_entries stu_entries family_atu_parse family_vtu_parse
    family_stu_parse regs_seen plain plain_char dev_vtu_parse dev_stu_parse dev_atu_parse
    prio_override_state
main_print-Denotes_example =
    main_print-Denotes tables zero_regs (λ _. none) one_dev
      (has_entries (zeros 16) refl (ended refl) no_devs)
      (has_entries (zeros 16) refl (ended refl) no_devs)
      (has_entries station_bytes refl (takes refl (ended refl)) no_devs)
      (dev_seen (port_seen (loaded (zeros 20)) refl refl no_ports) devs_end) ((refl, tt), tt)

-- Two VLANs: port 0 is untagged in the first, and tagged in the second one.
abbrev vlan : ℕ → List (Option ℕ) → Bytes
vlan vid rest = some 0 ∷ some 0 ∷ some 0 ∷ some 0 ∷ some 0 ∷ some 0 ∷ some vid ∷ some 0x10 ∷ rest

abbrev vlan_bytes : Bytes
vlan_bytes =
    vlan 1 (some 0xfd ∷ some 0xff ∷ some 0xff ∷ some 0xff ∷ some 0xff ∷ some 0xff ∷ zeros 2)
    ++ (vlan 2 (some 0xfe ∷ some 0xff ∷ some 0xff ∷ some 0xff ∷ some 0xff ∷ some 0xff ∷ zeros 2)
        ++ zeros 16)

abbrev vlans : Text → Dev → Bool → Load × Bool
vlans name d w = (loaded vlan_bytes, w)

abbrev switch : Dev
switch = record {
  bus = codes "b";
  dev = codes "d0";
  chip = codes "Marvell 88E6190";
  index = 1;
  ports = [];
}

abbrev vlan_entry : ℕ → ℕ → VtuEntry
vlan_entry vid first = record {
  vid = vid;
  fid = 0;
  sid = 0;
  policy = false;
  member = first ∷ 3 ∷ 3 ∷ 3 ∷ 3 ∷ 3 ∷ 3 ∷ 3 ∷ 3 ∷ 3 ∷ 3 ∷ [];
  qpri_set = false;
  fpri_set = false;
}

env_json_vtu-VtuWithin_example :
    (m : VtuMasks) × (m ≡ vtu_mark 0 (vlan_entry 1 1).member no_masks)
    × (m' : VtuMasks) × VtuWithin m m'
    × (env_json_vtu vlans (switch ∷ []) true
        ≡ some (two_entries 1 (vlan_entry 1 1) m (vlan_entry 2 2) m', true))
unfolding find_chip words_of vtu_entries family_vtu_parse dev_vtu_parse
env_json_vtu-VtuWithin_example =
    env_json_vtu-VtuWithin vlans switch true true vlan_bytes (vlan_entry 1 1) (vlan_entry 2 2) refl
      (takes refl (takes refl (ended refl)))
