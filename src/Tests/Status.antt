-- ===== src/Tests/Status.antt =====
-- src/mdio/print-phy.c: the theorems on what the status commands print, at concrete inputs.
use mdio_tools.Prelude.{
  ℕ, ◌%◌, ◌^◌, ◌==◌, ◌≤◌, if◌then◌else◌, true, false, ◌≡◌, refl, arith, List, [], ◌∷◌,
}
use mdio_tools.Tool.Args.{codes}
use mdio_tools.Tool.Status
use mdio_tools.Tool.Status.{Linux, Bits, has, render}
use mdio_tools.Tool.Status.Devices.{print_device_of, phy_status_out, mmd_status_out}
use mdio_tools.Tool.Status.Reading.{read_flags}
use mdio_tools.Tool.Status.Outputs.{Tables, phy_status_out-flags}
use mdio_tools.Tool.Status.Registers.Printed.{mmd_flags, mmd_status_out-flags}

-- Some of the constants of the headers; the rest has no bits.
abbrev test_bits : Bits → ℕ
test_bits Status.bmcr_reset = 0x8000
test_bits Status.bmcr_anenable = 0x1000
test_bits Status.bmsr_estaten = 0x0100
test_bits Status.bmsr_anegcomplete = 0x0020
test_bits Status.bmsr_lstatus = 0x0004
test_bits Status.estatus_1000_tfull = 0x2000
test_bits Status.mdio_pma_ctrl2_type = 0x000f
test_bits Status.mdio_pcs_ctrl2_type = 0x0003
test_bits Status.mdio_phy_id_devad = 0x001f
test_bits Status.mdio_mmd_pmapmd = 1
test_bits Status.mdio_mmd_pcs = 3
test_bits Status.mdio_mmd_an = 7
test_bits _ = 0

-- FIELD_GET for masks that begin at bit 0
abbrev test_field : ℕ → ℕ → ℕ
test_field mask val =
    if mask == 15
    then val % 16
    else if mask == 3
    then val % 4
    else if mask == 31
    then val % 32
    else 0

abbrev test_linux : Linux
test_linux = record { value = test_bits; devs_present = λ n. 2 ^ n; field_get = test_field }

test_field_fits : (mask val : ℕ) → test_field mask val ≤ mask
test_field_fits mask val = ground arith

test_linux-Tables : Tables test_linux
test_linux-Tables = record {
  field_fits = test_field_fits;
  pma_fits = omega arith;
  pcs_fits = omega arith;
}

-- A PHY with a link, whose register 1 announces register 15.
phy_status_out-flags_example :
    read_flags
      (render (phy_status_out test_linux (0x1140 ∷ 0x796d ∷ 0x0141 ∷ 0x0dd0 ∷ 0x3000 ∷ [])))
    ≡ (codes "reset", false)
      ∷ (codes "loopback", false)
      ∷ (codes "aneg-enable", true)
      ∷ (codes "power-down", false)
      ∷ (codes "isolate", false)
      ∷ (codes "aneg-restart", false)
      ∷ (codes "collision-test", false)
      ∷ (codes "100-t4", false)
      ∷ (codes "100-tx-f", false)
      ∷ (codes "100-tx-h", false)
      ∷ (codes "10-t-f", false)
      ∷ (codes "10-t-h", false)
      ∷ (codes "100-t2-f", false)
      ∷ (codes "100-t2-h", false)
      ∷ (codes "ext-status", true)
      ∷ (codes "aneg-complete", true)
      ∷ (codes "remote-fault", false)
      ∷ (codes "aneg-capable", false)
      ∷ (codes "link", true)
      ∷ (codes "jabber", false)
      ∷ (codes "ext-register", false)
      ∷ (codes "1000-x-f", false)
      ∷ (codes "1000-x-h", false)
      ∷ (codes "1000-t-f", true)
      ∷ (codes "1000-t-h", false)
      ∷ []
unfolding has
phy_status_out-flags_example =
    phy_status_out-flags test_linux 0x1140 0x796d 0x0141 0x0dd0 0x3000 refl

-- The PMA of an MMD.
abbrev pma_reply : List ℕ
pma_reply =
    0x2040 ∷ 6 ∷ 0x2b ∷ 0x9b6 ∷ 0x71 ∷ 0x8b ∷ 0xc000 ∷ 9 ∷ 0x9701 ∷ 0 ∷ 0 ∷ 0x1a4 ∷ 0 ∷ 0 ∷ 0x2b
    ∷ 0x9b6 ∷ []

mmd_status_out-flags_example :
    read_flags (render (mmd_status_out test_linux (print_device_of test_linux 0x8121) pma_reply))
    ≡ mmd_flags test_linux 0x8121 pma_reply
mmd_status_out-flags_example =
    mmd_status_out-flags test_linux pma_reply refl refl test_linux-Tables 0x8121
