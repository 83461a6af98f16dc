-- ===== src/Switch/Json/PortList.antt =====
-- src/mvls/mvls-json.c: the list of the ports of all devices, with the values that it stands for.
use mdio_tools.Prelude.{
  ℕ, Bool, true, false, Option, some, List, [], ◌∷◌, ◌++◌, ◌≡◌, refl, sym, subst, All,
}
use mdio_tools.Tool.Args.{Text, codes}
use mdio_tools.Switch.Env.{Port, Dev}
use mdio_tools.Switch.Entries.{Load}
use mdio_tools.Switch.Json.{out, comma}
use mdio_tools.Switch.Json.Grammar.{obj, Values, no_values, value, plain, no_items, items_end}
use mdio_tools.Switch.Json.Rows.{Listed, row-Listed, still, still-false}
use mdio_tools.Switch.Json.Ports.{port_members, regs_seen, json_ports, json_dev_ports}
use mdio_tools.Switch.Json.PortValues.{port_values, port_members-Fields}

-- The values for the ports of a device, in front of others, and those for all devices.
unfoldable pub port_row_values : ℕ → List (Port × List ℕ) → Values → Values
port_row_values i [] vs = vs
port_row_values i ((p, regs) ∷ rows) vs =
    value (obj (port_values i p regs)) (port_row_values i rows vs)

unfoldable pub all_port_values : List (ℕ × List (Port × List ℕ)) → Values
unfolding port_row_values
all_port_values [] = no_values
all_port_values ((i, rows) ∷ more) = port_row_values i rows (all_port_values more)

abbrev pub PlainNames : List Port → Type 0
PlainNames = All (λ p. plain p.netdev ≡ true)

module _ {W : Type 0} (load : Dev → Port → W → Load × W) where
  -- Each of the ports has registers up to the eighth when it is looked at.
  pub data PortsSeen : Dev → List Port → W → List (Port × List ℕ) → W → Type 0 where
    no_ports : {d : Dev} {w : W} → PortsSeen d [] w [] w
    port_seen :
        {d : Dev} {p : Port} {ps : List Port} {w w' w'' : W} {regs : List ℕ}
        {rows : List (Port × List ℕ)} (got : Load)
        → load d p w ≡ (got, w')
        → regs_seen got ≡ some regs
        → PortsSeen d ps w' rows w''
        → PortsSeen d (p ∷ ps) w ((p, regs) ∷ rows) w''

  pub data DevsSeen : List Dev → W → List (ℕ × List (Port × List ℕ)) → W → Type 0 where
    devs_end : {w : W} → DevsSeen [] w [] w
    dev_seen :
        {d : Dev} {ds : List Dev} {w w' w'' : W} {rows : List (Port × List ℕ)}
        {more : List (ℕ × List (Port × List ℕ))}
        → PortsSeen d d.ports w rows w'
        → DevsSeen ds w' more w''
        → DevsSeen (d ∷ ds) w ((d.index, rows) ∷ more) w''

  record Printed (o : Option (Text × Bool × W)) (first : Bool) (i : ℕ) (rows : List (Port × List ℕ))
      (w : W) : Type 0 where
    text : Text
    gives : o ≡ some (text, still first rows, w)
    before :
        (t : Text) (vs : Values)
        → Listed (still first rows) t vs
        → Listed first (text ++ t) (port_row_values i rows vs)

  json_ports-Printed :
      {d : Dev} {ps : List Port} {w w' : W} {rows : List (Port × List ℕ)} (first : Bool)
      → PortsSeen d ps w rows w'
      → PlainNames ps
      → Printed (json_ports load d ps first w) first d.index rows w'
  unfolding json_ports still port_row_values Listed
  json_ports-Printed first no_ports names = record { text = []; gives = refl; before = λ t vs h. h }
  json_ports-Printed {d} first (port_seen {p = p} {regs = regs} {rows = rows} got e r more)
        (name, names) =
      let rest = json_ports-Printed false more names in
      record {
        text =
            out
              (comma first ∷ codes "{" ∷ port_members d.index p regs ∷ codes "}" ∷ rest.text ∷ []);
        gives = rw (json_ports, e, r, e, rest.gives, still-false rows);
        before = λ t vs h.
            row-Listed first (port_members d.index p regs) rest.text t (port_values d.index p regs)
              (port_row_values d.index rows vs) (port_members-Fields d.index p regs name)
              (rest.before t vs (subst (λ f. Listed f t vs) (sym (still-false rows)) h));
      }

  pub json_dev_ports-Listed :
      {ds : List Dev} {w w' : W} {rows : List (ℕ × List (Port × List ℕ))} (first : Bool)
      → DevsSeen ds w rows w'
      → All (λ d. PlainNames d.ports) ds
      → (t : Text) × (json_dev_ports load ds first w ≡ some (t, w'))
        × Listed first t (all_port_values rows)
  unfolding json_dev_ports Listed all_port_values
  json_dev_ports-Listed true devs_end names = ([], refl, no_items)
  json_dev_ports-Listed false devs_end names = ([], refl, items_end)
  json_dev_ports-Listed first (dev_seen {rows = rows} {more = more} ports later) (name, names) =
      let here = json_ports-Printed first ports name in
      let (t, gives, good) = json_dev_ports-Listed (still first rows) later names in
      (
        here.text ++ t,
        rw (json_dev_ports, here.gives, gives),
        here.before t (all_port_values more) good,
      )
