-- ===== src/Switch/Fields.antt =====
-- src/mvls/mvls.c: what the parsers take out of the words of an entry.
use mdio_tools.Prelude.{
  ℕ, ◌+◌, ◌*◌, ◌/◌, ◌%◌, ◌^◌, ◌<◌, if◌then◌else◌, leb, ◌==◌, ◌&&◌, ◌||◌, ◌≡◌, ◌≢◌, arith, Bool,
  false, some, List, [], ◌∷◌, get_or,
}
use mdio_tools.Switch.Tables.{
  VtuWords, VtuEntry, AtuWords, AtuEntry, port_field, each_port, dev_vtu_parse, dev_atu_parse,
}

-- Three words as one number of 48 bits, the first word lowest.
abbrev pub flat : ℕ → ℕ → ℕ → ℕ
flat a b c = a + b * 2 ^ 16 + c * 2 ^ 32

-- The two bits at a position of that number, for each port.
abbrev pub flat_fields : ℕ → ℕ → ℕ → List ℕ
flat_fields n mbits offs = each_port (λ i. n / 2 ^ (i * mbits + offs) % 4)

module _ (a b c : ℕ) (ha : a < 65536) (hb : b < 65536) (hc : c < 65536) where
  fields_4_high : each_port (port_field (a ∷ b ∷ c ∷ []) 4 2) ≡ flat_fields (flat a b c) 4 2
  fields_4_high = ground arith

  fields_2 : each_port (port_field (a ∷ b ∷ c ∷ []) 2 0) ≡ flat_fields (flat a b c) 2 0
  fields_2 = ground arith

  fields_4 : each_port (port_field (a ∷ b ∷ c ∷ []) 4 0) ≡ flat_fields (flat a b c) 4 0
  fields_4 = ground arith

-- What a parsed VTU entry holds, by an independent reading: the fields of the first words as sums,
-- and the members as consecutive fields of the 48-bit number.
pub record VtuHolds (k : VtuWords) (mbits : ℕ) (n : ℕ) (e : VtuEntry) : Type 0 where
  pub vid_word : k.vid ≡ e.vid + 4096 + k.vid / 8192 * 8192
  pub vid_fits : e.vid < 4096
  pub fid_word : k.fid ≡ e.fid + (if e.policy then 4096 else 0) + k.fid / 8192 * 8192
  pub fid_fits : e.fid < 4096
  pub sid_is : e.sid ≡ k.sid % 64
  pub members : e.member ≡ flat_fields n mbits 0
  pub no_qpri : e.qpri_set ≡ false
  pub no_fpri : e.fpri_set ≡ false

-- A VTU entry whose three words of member data have 16 bits each.
module _ (k : VtuWords) (a b c : ℕ) (ha : a < 65536) (hb : b < 65536) (hc : c < 65536)
    (hw : k.words ≡ a ∷ b ∷ c ∷ []) where
  vtu_head :
      (mbits : ℕ) (e : VtuEntry)
      → each_port (port_field (a ∷ b ∷ c ∷ []) mbits 0) ≡ flat_fields (flat a b c) mbits 0
      → dev_vtu_parse k mbits ≡ some e
      → VtuHolds k mbits (flat a b c) e
  unfolding dev_vtu_parse
  vtu_head mbits e fields p = ground (arith, fields)

  -- A valid entry of the Peridot generation, which has two bits for each port's membership: the VID,
  -- the FID and the policy bit make up their words, the SID is the low six bits of its word, and
  -- the membership of port i is field i of the 48-bit number that the three words are, the first
  -- lowest; no priority is overridden.
  pub peridot_vtu-VtuHolds :
      (e : VtuEntry) → dev_vtu_parse k 2 ≡ some e → VtuHolds k 2 (flat a b c) e
  peridot_vtu-VtuHolds e p = vtu_head 2 e (fields_2 a b c ha hb hc) p

  -- A valid entry of the Opal generation, which has four bits for each port with the membership in the
  -- low two of them: the fields of the first words and the membership are as the 48-bit number and
  -- the words say, and no priority is overridden.
  pub opal_vtu-VtuHolds : (e : VtuEntry) → dev_vtu_parse k 4 ≡ some e → VtuHolds k 4 (flat a b c) e
  opal_vtu-VtuHolds e p = vtu_head 4 e (fields_4 a b c ha hb hc) p

-- The states that override a priority: the odd ones from 9 on, and for a group address all from 12 on.
abbrev pub overrides : Bool → ℕ → Bool
overrides group state = (leb 9 state && (state % 2 == 1)) || (group && leb 12 state)

-- What a parsed ATU entry holds, by an independent reading: the address bytes in network order make
-- up the three address words, the fields of the data word sum up to it, and the priorities are those
-- of the operation word where the state overrides them.
pub record AtuHolds (k : AtuWords) (have_fpri : Bool) (e : AtuEntry) : Type 0 where
  pub addr_01 : get_or e.addr 0 0 * 256 + get_or e.addr 1 0 ≡ k.atu_01
  pub addr_23 : get_or e.addr 2 0 * 256 + get_or e.addr 3 0 ≡ k.atu_23
  pub addr_45 : get_or e.addr 4 0 * 256 + get_or e.addr 5 0 ≡ k.atu_45
  pub data_word : k.atu_data ≡ e.state + e.portvec * 16 + (if e.lag then 32768 else 0)
  pub state_fits : e.state < 16
  pub portvec_fits : e.portvec < 2048
  pub in_use : e.state ≢ 0
  pub fid_is : e.fid ≡ k.fid
  pub qpri_set : e.qpri.set ≡ overrides (k.atu_01 / 256 % 2 == 1) e.state
  pub qpri_is : e.qpri.pri ≡ (if e.qpri.set then k.atu_op / 256 % 8 else 0)
  pub fpri_set : e.fpri.set ≡ (have_fpri && e.qpri.set)
  pub fpri_is : e.fpri.pri ≡ (if e.fpri.set then k.atu_op % 8 else 0)

-- A valid ATU entry of words of 16 bits: the address bytes, most significant first, make up the
-- address words; the state, the port vector and the LAG bit make up the data word, each in its
-- width; the state is not 0; the FID is taken over; the queue priority is overridden if the state is odd
-- and at least 9, or at least 12 for a group address, the frame priority if the family has it as well,
-- and they are then three bits of the operation word each, from bits 8 and 0 on, and 0 else.
pub atu-AtuHolds :
    (k : AtuWords) (have_fpri : Bool) (e : AtuEntry)
    → k.atu_01 < 65536
    → k.atu_23 < 65536
    → k.atu_45 < 65536
    → k.atu_data < 65536
    → dev_atu_parse k have_fpri ≡ some e
    → AtuHolds k have_fpri e
unfolding dev_atu_parse
atu-AtuHolds k have_fpri e h1 h2 h3 h4 p = ground arith
