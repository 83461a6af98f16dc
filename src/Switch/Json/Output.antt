-- ===== src/Switch/Json/Output.antt =====
-- src/mvls/mvls-json.c: printer_json, and the JSON text that the tool prints with it.
use mdio_tools.Prelude.{
  ℕ, true, Option, none, some, List, [], ◌∷◌, ◌++◌, ◌≡◌, refl, ap, subst, append_assoc, append-nil,
  All,
}
use mdio_tools.Tool.Args.{Text, codes}
use mdio_tools.Switch.Tables.{VtuEntry, StuEntry, AtuEntry}
use mdio_tools.Switch.Env.{Port, Dev, Env}
use mdio_tools.Switch.Entries.{
  Load, chip_of, atu_entries, vtu_entries, stu_entries, family_atu_parse, family_vtu_parse,
  family_stu_parse,
}
use mdio_tools.Switch.Main.{Out, Printer, ending, in_turn-four, main_print}
use mdio_tools.Switch.Json.{
  vtu_mark, stu_mark, out, atu_members, vtu_members, stu_members, env_json_atu, env_json_vtu,
  env_json_stu,
}
use mdio_tools.Switch.Json.Ports.{env_json_ports}
use mdio_tools.Switch.Json.PortList.{PlainNames, DevsSeen, all_port_values, json_dev_ports-Listed}
use mdio_tools.Switch.Json.Grammar.{
  Value, arr, obj, member, no_members, plain, plain_char, Denotes, is_arr, is_obj, first_field,
  MoreFields, fields_end, next_field,
}
use mdio_tools.Switch.Json.Rows.{Listed, all_values, Seen, json_devs-Listed}
use mdio_tools.Switch.Json.Entries.{
  atu_values, vtu_values, stu_values, atu_members-Fields, vtu_members-Fields, stu_members-Fields,
}

-- The values of the three tables. The masks of the VTU and the STU begin at 0 and go from one entry to
-- the next.
abbrev pub atu_table : List (ℕ × List AtuEntry) → Value
atu_table rows = arr (all_values (λ e m. m) (λ i e m. atu_values i e) rows tt)

abbrev pub vtu_table : List (ℕ × List VtuEntry) → Value
vtu_table rows = arr (
    all_values (λ e m. vtu_mark 0 e.member m) vtu_values rows
      (record { unmod = 0; untag = 0; tag = 0 }))

abbrev pub stu_table : List (ℕ × List StuEntry) → Value
stu_table rows = arr (
    all_values (λ e m. stu_mark 0 e.state m) stu_values rows
      (record { dis = 0; blk = 0; lrn = 0; fwd = 0 }))

-- A member as it is printed.
abbrev named : Text → Text → Text
named name t = out (codes "\"" ∷ name ∷ codes "\":" ∷ t ∷ [])

object_text :
    (a b c d e : Text)
    → a ++ (44 ∷ (b ++ (44 ∷ (c ++ (44 ∷ (d ++ e))))))
      ≡ (a ++ (44 ∷ (b ++ (44 ∷ (c ++ (44 ∷ d)))))) ++ e
object_text a b c d e = simp (append_assoc)

-- Four members in braces are an object.
object-Denotes :
    {tv ts ta tp : Text} {vv vs va vp : Value}
    → Denotes tv vv
    → Denotes ts vs
    → Denotes ta va
    → Denotes tp vp
    → Denotes
        (123
          ∷ (named (codes "vtu") tv
              ++ (44
                  ∷ (named (codes "stu") ts
                      ++ (44
                          ∷ (named (codes "atu") ta
                              ++ (44 ∷ (named (codes "ports") tp ++ 125 ∷ []))))))))
        (obj (
          member (codes "vtu") vv (
            member
              (codes "stu")
              vs
              (member (codes "atu") va (member (codes "ports") vp no_members)))))
unfolding plain plain_char
object-Denotes {tv} {ts} {ta} {tp} {vp = vp} v s a p =
    let last =
      subst (λ x. MoreFields x (member (codes "ports") vp no_members))
        (append-nil (44 ∷ named (codes "ports") tp))
        (next_field {k = codes "ports"} refl p fields_end) in
    rw
      (object_text (named (codes "vtu") tv) (named (codes "stu") ts) (named (codes "atu") ta)
        (named (codes "ports") tp) (125 ∷ []))
      (is_obj (
        first_field {k = codes "vtu"} refl v
          (next_field {k = codes "stu"} refl s (next_field {k = codes "atu"} refl a last))))

module _ {W : Type 0} (load : Text → Dev → W → Load × W)
    (load_port : Dev → Port → W → Load × W) where
  -- printer_json, which has no functions for the PVT
  abbrev pub printer_json : Printer W
  printer_json = record {
    env_print_ports = some (λ env w. env_json_ports load_port env.devs w);
    env_print_atu = some (λ env w. env_json_atu load env.devs w);
    env_print_vtu = some (λ env w. env_json_vtu load env.devs w);
    env_print_stu = some (λ env w. env_json_stu load env.devs w);
    env_print_pvt = none;
    dev_print_pvt = none;
    prologue = some (codes "{");
    join = some (codes ",");
    epilogue = some (codes "}");
  }

  -- What the devices have in the ATU, the VTU and the STU.
  abbrev pub AtuSeen : List Dev → W → List (ℕ × List AtuEntry) → W → Type 0
  AtuSeen = Seen (λ d k. family_atu_parse (chip_of d).family k) (load (codes "atu")) atu_entries

  abbrev pub VtuSeen : List Dev → W → List (ℕ × List VtuEntry) → W → Type 0
  VtuSeen = Seen (λ d k. family_vtu_parse (chip_of d).family k) (load (codes "vtu")) vtu_entries

  abbrev pub StuSeen : List Dev → W → List (ℕ × List StuEntry) → W → Type 0
  StuSeen = Seen (λ d k. family_stu_parse (chip_of d).family k) (load (codes "stu")) stu_entries

  -- A printed table of a name.
  record Table (o : Out W) (name : Text) (v : Value) (w : W) : Type 0 where
    text : Text
    gives : o ≡ some (out (codes "\"" ∷ name ∷ codes "\":" ∷ text ∷ []), w)
    good : Denotes text v

  env_json_atu-Table :
      {ds : List Dev} {w w' : W} {rows : List (ℕ × List AtuEntry)}
      → AtuSeen ds w rows w'
      → Table (env_json_atu load ds w) (codes "atu") (atu_table rows) w'
  unfolding env_json_atu Listed
  env_json_atu-Table seen =
      let (t, gives, good) =
        json_devs-Listed (λ d k. family_atu_parse (chip_of d).family k) (λ e m. m)
          (λ i e m. atu_members i e) (λ i e m. atu_values i e) (λ i e m. atu_members-Fields i e)
          true tt seen in
      record { text = 91 ∷ t ++ 93 ∷ []; gives = rw gives; good = is_arr good }

  env_json_vtu-Table :
      {ds : List Dev} {w w' : W} {rows : List (ℕ × List VtuEntry)}
      → VtuSeen ds w rows w'
      → Table (env_json_vtu load ds w) (codes "vtu") (vtu_table rows) w'
  unfolding env_json_vtu Listed
  env_json_vtu-Table seen =
      let (t, gives, good) =
        json_devs-Listed (λ d k. family_vtu_parse (chip_of d).family k)
          (λ e m. vtu_mark 0 e.member m) vtu_members vtu_values vtu_members-Fields true
          (record { unmod = 0; untag = 0; tag = 0 }) seen in
      record { text = 91 ∷ t ++ 93 ∷ []; gives = rw gives; good = is_arr good }

  env_json_stu-Table :
      {ds : List Dev} {w w' : W} {rows : List (ℕ × List StuEntry)}
      → StuSeen ds w rows w'
      → Table (env_json_stu load ds w) (codes "stu") (stu_table rows) w'
  unfolding env_json_stu Listed
  env_json_stu-Table seen =
      let (t, gives, good) =
        json_devs-Listed (λ d k. family_stu_parse (chip_of d).family k)
          (λ e m. stu_mark 0 e.state m) stu_members stu_values stu_members-Fields true
          (record { dis = 0; blk = 0; lrn = 0; fwd = 0 }) seen in
      record { text = 91 ∷ t ++ 93 ∷ []; gives = rw gives; good = is_arr good }

  env_json_ports-Table :
      {ds : List Dev} {w w' : W} {rows : List (ℕ × List (Port × List ℕ))}
      → DevsSeen load_port ds w rows w'
      → All (λ d. PlainNames d.ports) ds
      → Table (env_json_ports load_port ds w) (codes "ports") (arr (all_port_values rows)) w'
  unfolding env_json_ports Listed
  env_json_ports-Table seen names =
      let (t, gives, good) = json_dev_ports-Listed load_port true seen names in
      record { text = 91 ∷ t ++ 93 ∷ []; gives = rw gives; good = is_arr good }

  -- Without a command, if every region has an entry that is not valid behind its valid ones, every port
  -- has its registers, and no name of a network device has a control character, a quote or a
  -- backslash, then the tool prints an object in JSON with exactly the members "vtu", "stu", "atu" and
  -- "ports", which hold the valid entries of each device in the order of the devices, up to the first
  -- device that cannot be queried, each by its values, and each port by those of its registers; the
  -- ports that an entry of the VTU or STU is listed with are those of it and of all entries before it.
  pub main_print-Denotes :
      (index_of : Text → Option ℕ) (env : Env) {w w1 w2 w3 w4 : W}
      {vlans : List (ℕ × List VtuEntry)} {states : List (ℕ × List StuEntry)}
      {stations : List (ℕ × List AtuEntry)} {ports : List (ℕ × List (Port × List ℕ))}
      → VtuSeen env.devs w vlans w1
      → StuSeen env.devs w1 states w2
      → AtuSeen env.devs w2 stations w3
      → DevsSeen load_port env.devs w3 ports w4
      → All (λ d. PlainNames d.ports) env.devs
      → (t : Text) × (main_print printer_json index_of [] env w ≡ some (true, t, w4))
        × Denotes t (
            obj (
              member (codes "vtu") (vtu_table vlans) (
                member (codes "stu") (stu_table states) (
                  member
                    (codes "atu")
                    (atu_table stations)
                    (member (codes "ports") (arr (all_port_values ports)) no_members)))))
  unfolding main_print
  main_print-Denotes index_of env vseen sseen aseen pseen names =
      let vtu = env_json_vtu-Table vseen in
      let stu = env_json_stu-Table sseen in
      let atu = env_json_atu-Table aseen in
      let ports = env_json_ports-Table pseen names in
      (
        _,
        ap (ending true) (
            in_turn-four (codes "{") (codes ",") (codes "}") (λ w. env_json_vtu load env.devs w)
              (λ w. env_json_stu load env.devs w) (λ w. env_json_atu load env.devs w)
              (λ w. env_json_ports load_port env.devs w) vtu.gives stu.gives atu.gives ports.gives),
        object-Denotes vtu.good stu.good atu.good ports.good,
      )
