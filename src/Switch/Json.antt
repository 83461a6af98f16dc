-- ===== src/Switch/Json.antt =====
-- src/mvls/mvls-json.c: what the JSON printer puts on its standard output, as text. A printer gives
-- `none` where it reads what is not there or gets no result.
pub mod Grammar
pub mod Lexemes
pub mod Rows
pub mod Entries
pub mod Ports
pub mod PortValues
pub mod PortList
pub mod Output
pub mod Marks
use mdio_tools.Prelude.{
  ℕ, zero, suc, ◌+◌, ◌*◌, ◌/◌, ◌%◌, ◌^◌, ◌==◌, ltb, bit_or, if◌then◌else◌, Bool, true, false,
  Option, none, some, List, [], ◌∷◌, ◌++◌, get_or,
}
use mdio_tools.Tool.Args.{Text, codes}
use mdio_tools.Switch.Tables.{
  bits, bit, VtuWords, StuWords, AtuWords, VtuEntry, StuEntry, AtuEntry, opal_port_lag,
  opal_port_fid,
}
use mdio_tools.Switch.Env.{Port, Dev}
use mdio_tools.Switch.Entries.{
  Load, loaded, load_failed, load_stuck, chip_of, words_of, atu_entries, vtu_entries, stu_entries,
  family_atu_parse, family_vtu_parse, family_stu_parse,
}

-- The pieces of an output, one behind the other.
abbrev pub out : List Text → Text
out [] = []
out (t ∷ []) = t
out (t ∷ u ∷ ts) = t ++ out (u ∷ ts)

abbrev pub digit : ℕ → ℕ
digit d = if ltb d 10 then 48 + d else 87 + d

-- `%u`, and `%d` of what is not negative
unfoldable pub dec_from : ℕ → ℕ → Text → Text
dec_from zero n t = t
dec_from (suc fuel) n t =
    if n / 10 == 0 then (48 + n % 10) ∷ t else dec_from fuel (n / 10) ((48 + n % 10) ∷ t)

abbrev pub dec : ℕ → Text
dec n = dec_from (suc n) n []

-- `%02x` of a byte
abbrev pub hex2 : ℕ → Text
hex2 b = digit (b / 16 % 16) ∷ digit (b % 16) ∷ []

-- `if (first) first = false; else putchar(',');`
abbrev pub comma : Bool → Text
comma true = []
comma false = codes ","

abbrev pub name_of : List Text → ℕ → Text
name_of names i = get_or names i []

abbrev pub when : Bool → Text → Text
when true t = t
when false t = []

-- json_print_portvec
unfoldable pub portvec_from : ℕ → ℕ → Bool → ℕ → Text
portvec_from zero i first v = []
portvec_from (suc n) i first v =
    if bit v i
    then out (comma first ∷ dec i ∷ portvec_from n (suc i) false v ∷ [])
    else portvec_from n (suc i) first v

unfoldable pub json_print_portvec : Text → ℕ → Text
json_print_portvec name v =
    out (codes ",\"" ∷ name ∷ codes "\":[" ∷ portvec_from 11 0 true v ∷ codes "]" ∷ [])

abbrev pub atu_uc_str : List Text
atu_uc_str =
    codes "unused"
    ∷ codes "age-1"
    ∷ codes "age-2"
    ∷ codes "age-3"
    ∷ codes "age-4"
    ∷ codes "age-5"
    ∷ codes "age-6"
    ∷ codes "age-7"
    ∷ codes "policy"
    ∷ codes "policy-po"
    ∷ codes "nrl"
    ∷ codes "nrl-po"
    ∷ codes "mgmt"
    ∷ codes "mgmt-po"
    ∷ codes "static"
    ∷ codes "static-po"
    ∷ []

abbrev pub atu_mc_str : List Text
atu_mc_str =
    codes "unused"
    ∷ codes "resvd1"
    ∷ codes "resvd2"
    ∷ codes "resvd3"
    ∷ codes "policy"
    ∷ codes "nrl"
    ∷ codes "mgmt"
    ∷ codes "static"
    ∷ codes "resvd8"
    ∷ codes "resvd9"
    ∷ codes "resvda"
    ∷ codes "resvdb"
    ∷ codes "policy-po"
    ∷ codes "nrl-po"
    ∷ codes "mgmt-po"
    ∷ codes "static-po"
    ∷ []

abbrev pub atu_state_str : AtuEntry → Text
atu_state_str e =
    if get_or e.addr 0 0 % 2 == 1 then name_of atu_mc_str e.state else name_of atu_uc_str e.state

abbrev pub mac : List ℕ → Text
mac a = out (
    hex2 (get_or a 0 0)
    ∷ codes ":"
    ∷ hex2 (get_or a 1 0)
    ∷ codes ":"
    ∷ hex2 (get_or a 2 0)
    ∷ codes ":"
    ∷ hex2 (get_or a 3 0)
    ∷ codes ":"
    ∷ hex2 (get_or a 4 0)
    ∷ codes ":"
    ∷ hex2 (get_or a 5 0)
    ∷ [])

-- The members of an object that env_json_atu prints for an entry.
unfoldable pub atu_members : ℕ → AtuEntry → Text
atu_members index e = out (
    codes "\"dev\":"
    ∷ dec index
    ∷ codes ",\"fid\":"
    ∷ dec e.fid
    ∷ codes ",\"address\":\""
    ∷ mac e.addr
    ∷ codes "\",\"state\":\""
    ∷ atu_state_str e
    ∷ codes "\""
    ∷ when e.qpri.set (codes ",\"queue-prio-override\": " ++ dec e.qpri.pri)
    ∷ when e.fpri.set (codes ",\"frame-prio-override\": " ++ dec e.fpri.pri)
    ∷ (if e.lag
        then codes ",\"lag\": " ++ dec e.portvec
        else json_print_portvec (codes "ports") e.portvec)
    ∷ [])

-- `unmod`, `untag` and `tag` of env_json_vtu, which are set once, in front of all its loops
pub record VtuMasks : Type 0 where
  pub unmod : ℕ
  pub untag : ℕ
  pub tag : ℕ

unfoldable pub vtu_mark : ℕ → List ℕ → VtuMasks → VtuMasks
vtu_mark i [] m = m
vtu_mark i (s ∷ ss) m = vtu_mark (suc i) ss (
    if s == 0
    then record m { unmod = bit_or m.unmod (2 ^ i) }
    else if s == 1
    then record m { untag = bit_or m.untag (2 ^ i) }
    else if s == 2
    then record m { tag = bit_or m.tag (2 ^ i) }
    else m)

-- The members that env_json_vtu prints for an entry, with the masks after it. What it prints for an
-- override is left out, since none is ever set in an entry of the VTU.
unfoldable pub vtu_members : ℕ → VtuEntry → VtuMasks → Text
vtu_members index e m = out (
    codes "\"dev\":"
    ∷ dec index
    ∷ codes ",\"vid\":"
    ∷ dec e.vid
    ∷ codes ",\"fid\":"
    ∷ dec e.fid
    ∷ codes ",\"sid\":"
    ∷ dec e.sid
    ∷ when e.policy (codes ",\"policy\": true")
    ∷ json_print_portvec (codes "unmodified") m.unmod
    ∷ json_print_portvec (codes "untagged") m.untag
    ∷ json_print_portvec (codes "tagged") m.tag
    ∷ [])

-- `dis`, `blk`, `lrn` and `fwd` of env_json_stu, which are set once, in front of all its loops
pub record StuMasks : Type 0 where
  pub dis : ℕ
  pub blk : ℕ
  pub lrn : ℕ
  pub fwd : ℕ

unfoldable pub stu_mark : ℕ → List ℕ → StuMasks → StuMasks
stu_mark i [] m = m
stu_mark i (s ∷ ss) m = stu_mark (suc i) ss (
    if s == 0
    then record m { dis = bit_or m.dis (2 ^ i) }
    else if s == 1
    then record m { blk = bit_or m.blk (2 ^ i) }
    else if s == 2
    then record m { lrn = bit_or m.lrn (2 ^ i) }
    else if s == 3
    then record m { fwd = bit_or m.fwd (2 ^ i) }
    else m)

unfoldable pub stu_members : ℕ → StuEntry → StuMasks → Text
stu_members index e m = out (
    codes "\"dev\":"
    ∷ dec index
    ∷ codes ",\"sid\":"
    ∷ dec e.sid
    ∷ json_print_portvec (codes "disabled") m.dis
    ∷ json_print_portvec (codes "blocking") m.blk
    ∷ json_print_portvec (codes "learning") m.lrn
    ∷ json_print_portvec (codes "forwarding") m.fwd
    ∷ [])

-- The loops that the three tables share: `parse` takes an entry out, `mark` is what it does to the
-- masks, and `members` what is printed for it.
module _ {K E S : Type 0} (parse : Dev → K → Option E) (mark : E → S → S)
    (members : ℕ → E → S → Text) where
  -- The `while` over the entries of a device, which only ends at one that is not valid.
  unfoldable pub json_rows : Dev → List K → Bool → S → Option (Text × Bool × S)
  json_rows d [] first m = none
  json_rows d (k ∷ ks) first m = elim (parse d k) [
    | none ↦ some ([], first, m)
    | some e ↦ elim (json_rows d ks false (mark e m)) [
      | none ↦ none
      | some (t, f, m') ↦
          some (
            out (comma first ∷ codes "{" ∷ members d.index e (mark e m) ∷ codes "}" ∷ t ∷ []),
            f,
            m',
          )
    ]
  ]

  -- The loop over the devices, which a region that cannot be queried ends.
  unfoldable pub json_devs :
      {W : Type 0}
      → (Dev → W → Load × W)
      → (List ℕ → List K)
      → List Dev
      → Bool
      → S
      → W
      → Option (Text × W)
  unfolding json_rows
  json_devs load entries [] first m w = some ([], w)
  json_devs load entries (d ∷ ds) first m w =
      let (got, w') = load d w in
      elim got [
        | load_failed _ ↦ some ([], w')
        | load_stuck ↦ none
        | loaded b ↦ elim (json_rows d (entries (words_of b)) first m) [
          | none ↦ none
          | some (t, f, m') ↦ elim (json_devs load entries ds f m' w') [
            | none ↦ none
            | some (t', w'') ↦ some (t ++ t', w'')
          ]
        ]
      ]

abbrev surround : {W : Type 0} → Text → Option (Text × W) → Option (Text × W)
surround name none = none
surround name (some (t, w)) = some (out (codes "\"" ∷ name ∷ codes "\":[" ∷ t ∷ codes "]" ∷ []), w)

module _ {W : Type 0} (load : Text → Dev → W → Load × W) where
  unfoldable pub env_json_atu : List Dev → W → Option (Text × W)
  unfolding json_devs
  env_json_atu ds w = surround (codes "atu") (
      json_devs (λ d k. family_atu_parse (chip_of d).family k) (λ e m. m) (λ i e m. atu_members i e)
        (load (codes "atu")) atu_entries ds true tt w)

  unfoldable pub env_json_vtu : List Dev → W → Option (Text × W)
  unfolding json_devs
  env_json_vtu ds w = surround (codes "vtu") (
      json_devs (λ d k. family_vtu_parse (chip_of d).family k) (λ e m. vtu_mark 0 e.member m)
        vtu_members (load (codes "vtu")) vtu_entries ds true
        (record { unmod = 0; untag = 0; tag = 0 }) w)

  unfoldable pub env_json_stu : List Dev → W → Option (Text × W)
  unfolding json_devs
  env_json_stu ds w = surround (codes "stu") (
      json_devs (λ d k. family_stu_parse (chip_of d).family k) (λ e m. stu_mark 0 e.state m)
        stu_members (load (codes "stu")) stu_entries ds true
        (record { dis = 0; blk = 0; lrn = 0; fwd = 0 }) w)
