-- ===== src/Switch/Json/Ports.antt =====
-- src/mvls/mvls-json.c: the ports, as env_json_ports prints them.
use mdio_tools.Prelude.{
  ℕ, ltb, if◌then◌else◌, Bool, true, false, Option, none, some, List, [], ◌∷◌, ◌++◌, get_or, length,
}
use mdio_tools.Tool.Args.{Text, codes}
use mdio_tools.Switch.Tables.{bits, bit, opal_port_lag, opal_port_fid}
use mdio_tools.Switch.Env.{Port, Dev}
use mdio_tools.Switch.Entries.{Load, loaded, load_failed, load_stuck, words_of}
use mdio_tools.Switch.Json.{out, dec, when, comma, name_of}

abbrev pub port_state : List Text
port_state = codes "disabled" ∷ codes "blocking" ∷ codes "learning" ∷ codes "forwarding" ∷ []

abbrev pub port_fmode : List Text
port_fmode = codes "normal" ∷ codes "dsa" ∷ codes "provider" ∷ codes "edsa" ∷ []

abbrev pub port_emode : List Text
port_emode = codes "unmodified" ∷ codes "untagged" ∷ codes "tagged" ∷ codes "edsa" ∷ []

abbrev pub port_8021q : List Text
port_8021q = codes "disabled" ∷ codes "fallback" ∷ codes "check" ∷ codes "secure" ∷ []

-- `if (lag >= 0) printf(",\"lag\":%d", lag);`
unfoldable pub lag_text : Option ℕ → Text
lag_text none = []
lag_text (some lag) = codes ",\"lag\":" ++ dec lag

-- The members of the object that env_json_ports prints for a port with these registers. All families
-- have the same operations on ports.
unfoldable pub port_members : ℕ → Port → List ℕ → Text
port_members index p regs =
    let ctrl = get_or regs 4 0 in
    let ctrl2 = get_or regs 8 0 in
    out (
      codes "\"netdev\":\""
      ∷ p.netdev
      ∷ codes "\",\"dev\":"
      ∷ dec index
      ∷ codes ",\"port\":"
      ∷ dec p.index
      ∷ codes ",\"state\":\""
      ∷ name_of port_state (bits ctrl 0 2)
      ∷ codes "\",\"frame-mode\":\""
      ∷ name_of port_fmode (bits ctrl 8 2)
      ∷ codes "\",\"egress-mode\":\""
      ∷ name_of port_emode (bits ctrl 12 2)
      ∷ codes "\",\"802.1q\":\""
      ∷ name_of port_8021q (bits ctrl2 10 2)
      ∷ codes "\",\"pvid\":"
      ∷ dec (bits (get_or regs 7 0) 0 12)
      ∷ codes ",\"fid\":"
      ∷ dec (opal_port_fid regs)
      ∷ lag_text (opal_port_lag regs)
      ∷ when (bit ctrl 2) (codes ",\"flood-unicast\":true")
      ∷ when (bit ctrl 3) (codes ",\"flood-multicast\":true")
      ∷ when (bit ctrl2 8) (codes ",\"allow-untagged\":true")
      ∷ when (bit ctrl2 9) (codes ",\"allow-tagged\":true")
      ∷ [])

-- What the printer sees of a port: the result of port_load_regs is not looked at. `none` where the
-- registers up to the eighth are not all there.
unfoldable pub regs_seen : Load → Option (List ℕ)
regs_seen (loaded b) = if ltb 8 (length (words_of b)) then some (words_of b) else none
regs_seen (load_failed b) = if ltb 8 (length (words_of b)) then some (words_of b) else none
regs_seen load_stuck = none

module _ {W : Type 0} (load : Dev → Port → W → Load × W) where
  unfoldable pub json_ports : Dev → List Port → Bool → W → Option (Text × Bool × W)
  json_ports d [] first w = some ([], first, w)
  json_ports d (p ∷ ps) first w =
      let (got, w') = load d p w in
      elim (regs_seen got) [
        | none ↦ none
        | some regs ↦ elim (json_ports d ps false w') [
          | none ↦ none
          | some (t, f, w'') ↦ some (
            out (comma first ∷ codes "{" ∷ port_members d.index p regs ∷ codes "}" ∷ t ∷ []),
            f,
            w'',
          )
        ]
      ]

  unfoldable pub json_dev_ports : List Dev → Bool → W → Option (Text × W)
  unfolding json_ports
  json_dev_ports [] first w = some ([], w)
  json_dev_ports (d ∷ ds) first w = elim (json_ports d d.ports first w) [
    | none ↦ none
    | some (t, f, w') ↦ elim (json_dev_ports ds f w') [
      | none ↦ none
      | some (t', w'') ↦ some (t ++ t', w'')
    ]
  ]

abbrev pub named_ports : {W : Type 0} → Option (Text × W) → Option (Text × W)
named_ports none = none
named_ports (some (t, w)) = some (out (codes "\"ports\":[" ∷ t ∷ codes "]" ∷ []), w)

unfoldable pub env_json_ports :
    {W : Type 0} → (Dev → Port → W → Load × W) → List Dev → W → Option (Text × W)
unfolding json_dev_ports
env_json_ports load ds w = named_ports (json_dev_ports load ds true w)
