-- ===== src/Tool/Status.antt =====
-- src/mdio/print-phy.c: how the contents of status registers are printed. A printer gives its calls
-- of the C library's output functions in order.
pub mod Phy
pub mod Types
pub mod Pma
pub mod Pcs
pub mod Devices
pub mod Reading
pub mod Lines
pub mod Readable
pub mod Outputs
pub mod Registers
use Prim.Native.String.{String}
use mdio_tools.Prelude.{
  ℕ, zero, suc, ◌-◌, ◌^◌, ◌==◌, ltb, if◌then◌else◌, Bool, true, false, not, Option, none, some,
  List, [], ◌∷◌, ◌++◌, bit_and, bit_or, length,
}
use mdio_tools.Tool.Args.{Text, codes}
use mdio_tools.Switch.Show.{hex}

-- The bits and fields of registers that <linux/mdio.h> and <linux/mii.h> name.
pub data Bits : Type 0 where
  mdio_ctrl1_speedselext mdio_pma_ctrl1_speed1000 mdio_pma_ctrl1_speed100 : Bits
  mdio_ctrl1_speedsel mdio_ctrl1_speed10g mdio_ctrl1_speed2_5g mdio_ctrl1_speed5g : Bits
  mdio_ctrl1_speed10p2b bmcr_reset bmcr_loopback bmcr_anenable bmcr_pdown bmcr_isolate : Bits
  bmcr_anrestart bmcr_ctst bmcr_fulldplx bmsr_100base4 bmsr_100full bmsr_100half bmsr_10full : Bits
  bmsr_10half bmsr_100full2 bmsr_100half2 bmsr_estaten bmsr_anegcomplete bmsr_rfault : Bits
  bmsr_anegcapable bmsr_lstatus bmsr_jcd bmsr_ercap estatus_1000_xfull estatus_1000_xhalf : Bits
  estatus_1000_tfull estatus_1000_thalf mdio_devs_vend2 mdio_devs_vend1 mdio_devs_c22ext : Bits
  mdio_devs_an mdio_devs_tc mdio_devs_dtexs mdio_devs_phyxs mdio_devs_pcs mdio_devs_wis : Bits
  mdio_devs_pmapmd mdio_devs_c22present mdio_ctrl1_reset mdio_ctrl1_lpower : Bits
  mdio_pma_ctrl1_loopback mdio_stat1_lpowerable mdio_stat1_fault mdio_stat1_lstatus : Bits
  mdio_pma_speed_10 mdio_pma_speed_100 mdio_pma_speed_1000 mdio_pma_speed_10p : Bits
  mdio_pma_speed_2b mdio_speed_10g mdio_pma_ctrl2_5gbt mdio_pma_ctrl2_2_5gbt : Bits
  mdio_pma_ctrl2_10bt mdio_pma_ctrl2_100btx mdio_pma_ctrl2_1000bkx mdio_pma_ctrl2_1000bt : Bits
  mdio_pma_ctrl2_10gbkr mdio_pma_ctrl2_10gbkx4 mdio_pma_ctrl2_10gbt mdio_pma_ctrl2_10gblrm : Bits
  mdio_pma_ctrl2_10gbsr mdio_pma_ctrl2_10gblr mdio_pma_ctrl2_10gber mdio_pma_ctrl2_10gblx4 : Bits
  mdio_pma_ctrl2_10gbsw mdio_pma_ctrl2_10gblw mdio_pma_ctrl2_10gbew mdio_pma_ctrl2_10gbcx4 : Bits
  mdio_pma_ctrl2_type mdio_stat2_devprst mdio_stat2_devprst_val mdio_stat2_txfault : Bits
  mdio_stat2_rxfault mdio_pma_stat2_txfltable mdio_pma_stat2_rxfltable : Bits
  mdio_pma_stat2_extable mdio_pmd_stat2_txdisab mdio_pma_stat2_lbable mdio_pma_stat2_10gbsr : Bits
  mdio_pma_stat2_10gblr mdio_pma_stat2_10gber mdio_pma_stat2_10gblx4 mdio_pma_stat2_10gbsw : Bits
  mdio_pma_stat2_10gblw mdio_pma_stat2_10gbew mdio_pma_extable_10gcx4 : Bits
  mdio_pma_extable_10gblrm mdio_pma_extable_10gbt mdio_pma_extable_10gbkx4 : Bits
  mdio_pma_extable_10gbkr mdio_pma_extable_1000bt mdio_pma_extable_1000bkx : Bits
  mdio_pma_extable_100btx mdio_pma_extable_10bt mdio_pma_extable_nbt mdio_pcs_ctrl1_loopback : Bits
  mdio_pcs_ctrl1_clkstop_en mdio_pcs_speed_10p2b mdio_pcs_ctrl2_10gbt mdio_pcs_ctrl2_10gbw : Bits
  mdio_pcs_ctrl2_10gbx mdio_pcs_ctrl2_10gbr mdio_pcs_ctrl2_type mdio_pcs_stat2_10gbw : Bits
  mdio_pcs_stat2_10gbx mdio_pcs_stat2_10gbr mdio_an_ctrl1_xnp mdio_an_ctrl1_enable : Bits
  mdio_an_ctrl1_restart mdio_an_stat1_able mdio_an_stat1_lpable mdio_an_stat1_xnp : Bits
  mdio_an_stat1_page mdio_an_stat1_complete mdio_an_stat1_rfault mdio_phy_id_devad : Bits
  mdio_mmd_pmapmd mdio_mmd_pcs mdio_mmd_an : Bits

-- What the printers use of these headers: the constants, the macro MDIO_DEVS_PRESENT, and FIELD_GET of
-- linux/bitfield.h.
pub record Linux : Type 0 where
  pub value : Bits → ℕ
  pub devs_present : ℕ → ℕ
  pub field_get : ℕ → ℕ → ℕ

-- A call that prints: of fputs or putchar with a text that the source spells out; of print_bool, with
-- the character that is put behind it; the text that a conversion of printf gives; and a read
-- outside of a table of names.
pub data Piece : Type 0 where
  puts : Text → Piece
  flag : Text → Bool → ℕ → Piece
  shown : Text → Piece
  wild : Piece

abbrev pub say : String → Piece
say s = puts (codes s)

-- print_bool, and `putchar(' ')` or a new line behind it
abbrev pub bool_sp : String → Bool → Piece
bool_sp name on = flag (codes name) on 32

abbrev pub bool_nl : String → Bool → Piece
bool_nl name on = flag (codes name) on 10

-- print_bool
unfoldable pub print_bool : Text → Bool → Text
print_bool name on =
    (if on then 27 ∷ codes "[1m+" else codes "-") ++ (name ++ (if on then 27 ∷ codes "[0m" else []))

-- What reaches the standard output.
unfoldable pub render : List Piece → Text
unfolding print_bool
render [] = []
render (puts t ∷ ps) = t ++ render ps
render (flag name on sep ∷ ps) = print_bool name on ++ (sep ∷ render ps)
render (shown t ∷ ps) = t ++ render ps
render (wild ∷ ps) = render ps

unfoldable pub repeat_zero : ℕ → Text
repeat_zero zero = []
repeat_zero (suc n) = 48 ∷ repeat_zero n

-- `%2.2x` and `%8.8x`
unfoldable pub hex_pad : ℕ → ℕ → Text
unfolding repeat_zero
hex_pad digits n = repeat_zero (digits - length (hex n)) ++ hex n

-- `%#.4x` and `%#.8x`: the prefix is left out for 0.
unfoldable pub alt_hex : ℕ → ℕ → Text
unfolding hex_pad
alt_hex digits n = (if n == 0 then [] else codes "0x") ++ hex_pad digits n

-- BIT(_n)
abbrev pub bit : ℕ → ℕ
bit n = 2 ^ n

-- `val & mask`, as a truth value
unfoldable pub has : ℕ → ℕ → Bool
has val mask = not (bit_and val mask == 0)

-- The last initializer of an index is the one that counts; an index without one has no name.
unfoldable pub name_at : List (ℕ × Text) → ℕ → Option Text
name_at [] i = none
name_at ((k, name) ∷ names) i = elim (name_at names i) [
  | some later ↦ some later
  | none ↦ if k == i then some name else none
]

-- `type ?: "unknown"` for the entry of a table of so many pointers
unfoldable pub type_name : ℕ → List (ℕ × Text) → ℕ → Piece
type_name size names i =
    if ltb i size
    then shown (elim (name_at names i) [ none ↦ codes "unknown" | some name ↦ name ])
    else wild

module _ (c : Linux) where
  -- get_speed
  unfoldable pub get_speed : ℕ → Text
  get_speed val =
      let ext = bit_and val (c.value mdio_ctrl1_speedselext) in
      let sel = bit_and val (c.value mdio_ctrl1_speedsel) in
      let ext_or = λ (n : ℕ). bit_or (c.value mdio_ctrl1_speedselext) n in
      if ext == c.value mdio_pma_ctrl1_speed1000
      then codes "1000"
      else if ext == c.value mdio_pma_ctrl1_speed100
      then codes "100"
      else if ext == 0
      then codes "10"
      else if sel == ext_or 0x24
      then codes "400g"
      else if sel == ext_or 0x20
      then codes "200g"
      else if sel == ext_or 0x0c
      then codes "100g"
      else if sel == ext_or 0x08
      then codes "40g"
      else if sel == ext_or 0x10
      then codes "25g"
      else if sel == c.value mdio_ctrl1_speed10g
      then codes "10g"
      else if sel == c.value mdio_ctrl1_speed2_5g
      then codes "2.5g"
      else if sel == c.value mdio_ctrl1_speed5g
      then codes "5g"
      else if sel == c.value mdio_ctrl1_speed10p2b
      then codes "10-ts/2-tl"
      else codes "unknown"
