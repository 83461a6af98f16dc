-- ===== src/Tool/Status/Registers.antt =====
-- src/mdio/print-phy.c: the flags of an MMD's registers, by name.
pub mod Printed
use Prim.Native.String.{String}
use mdio_tools.Prelude.{
  ℕ, ◌==◌, ◌*◌, ltb, if◌then◌else◌, Bool, true, false, ◌&&◌, ◌||◌, not, ◌≡◌, refl, ap, ◌∙◌, List,
  [], ◌∷◌, ◌++◌, inl, inr, Bool-cases, bit_and, bit_or, u32, get_or, length, append-nil,
}
use mdio_tools.Tool.Args.{codes}
use mdio_tools.Tool.Status.{
  Linux, Bits, Piece, puts, flag, shown, wild, has, bit, render, type_name, mdio_phy_id_devad,
  mdio_mmd_pmapmd, mdio_mmd_pcs, mdio_mmd_an, mdio_pma_stat2_extable, mdio_stat2_devprst,
  mdio_stat2_devprst_val, mdio_pma_ctrl2_type, mdio_pcs_ctrl2_type, mdio_an_ctrl1_enable,
  mdio_an_ctrl1_restart, mdio_an_ctrl1_xnp, mdio_an_stat1_able, mdio_an_stat1_complete,
  mdio_an_stat1_lpable, mdio_an_stat1_page, mdio_an_stat1_rfault, mdio_an_stat1_xnp,
  mdio_ctrl1_lpower, mdio_ctrl1_reset, mdio_devs_an, mdio_devs_c22ext, mdio_devs_c22present,
  mdio_devs_dtexs, mdio_devs_pcs, mdio_devs_phyxs, mdio_devs_pmapmd, mdio_devs_tc, mdio_devs_vend1,
  mdio_devs_vend2, mdio_devs_wis, mdio_pcs_ctrl1_clkstop_en, mdio_pcs_ctrl1_loopback,
  mdio_pcs_speed_10p2b, mdio_pcs_stat2_10gbr, mdio_pcs_stat2_10gbw, mdio_pcs_stat2_10gbx,
  mdio_pma_ctrl1_loopback, mdio_pma_extable_1000bkx, mdio_pma_extable_1000bt,
  mdio_pma_extable_100btx, mdio_pma_extable_10bt, mdio_pma_extable_10gbkr, mdio_pma_extable_10gbkx4,
  mdio_pma_extable_10gblrm, mdio_pma_extable_10gbt, mdio_pma_extable_10gcx4, mdio_pma_extable_nbt,
  mdio_pma_speed_10, mdio_pma_speed_100, mdio_pma_speed_1000, mdio_pma_speed_10p, mdio_pma_speed_2b,
  mdio_pma_stat2_10gber, mdio_pma_stat2_10gbew, mdio_pma_stat2_10gblr, mdio_pma_stat2_10gblw,
  mdio_pma_stat2_10gblx4, mdio_pma_stat2_10gbsr, mdio_pma_stat2_10gbsw, mdio_pma_stat2_extable,
  mdio_pma_stat2_lbable, mdio_pma_stat2_rxfltable, mdio_pma_stat2_txfltable, mdio_pmd_stat2_txdisab,
  mdio_speed_10g, mdio_stat1_fault, mdio_stat1_lpowerable, mdio_stat1_lstatus, mdio_stat2_rxfault,
  mdio_stat2_txfault,
}
use mdio_tools.Tool.Status.Types.{pma_type, pcs_type, pma_size, pcs_size}
use mdio_tools.Tool.Status.Phy.{
  print_mmd_devid, print_mmd_pkgid, print_mmd_devs, print_mmd_stat2_flags,
}
use mdio_tools.Tool.Status.Pma.{
  print_pma_ctrl1, print_pma_stat1, print_pma_speed, print_pma_ctrl2, print_pma_stat2,
  print_pma_extable,
}
use mdio_tools.Tool.Status.Pcs.{
  print_pcs_ctrl1, print_pcs_stat1, print_pcs_speed, print_pcs_ctrl2, print_pcs_stat2,
  print_an_ctrl1, print_an_stat1,
}
use mdio_tools.Tool.Status.Devices.{
  MmdPrintDevice, pma_print_device, pcs_print_device, an_print_device, null_print_device, word, nl,
  print_optional, print_device_of, print_pma_extra, print_pcs_extra, mmd_status_out,
}
use mdio_tools.Tool.Status.Reading.{Flag, read_flags, flags_of, IsReadable-flags, wilds}
use mdio_tools.Tool.Status.Outputs.{Tables, mmd_status_out-IsReadable}

-- The bits of a flag: those that a header names, one by its number, or those of a device.
pub data Mask : Type 0 where
  named : Bits → Mask
  numbered device : ℕ → Mask

abbrev pub Table : Type 0
Table = List (String × Mask)

abbrev pub pma_ctrl1_table : Table
pma_ctrl1_table =
    ("reset", named mdio_ctrl1_reset)
    ∷ ("low-power", named mdio_ctrl1_lpower)
    ∷ ("remote-loopback", numbered 1)
    ∷ ("local-loopback", named mdio_pma_ctrl1_loopback)
    ∷ []

abbrev pub pma_stat1_table : Table
pma_stat1_table =
    ("pias", numbered 9)
    ∷ ("peas", numbered 8)
    ∷ ("low-power", named mdio_stat1_lpowerable)
    ∷ ("fault", named mdio_stat1_fault)
    ∷ ("link", named mdio_stat1_lstatus)
    ∷ []

abbrev pub pma_speed_table : Table
pma_speed_table =
    ("400g", numbered 15)
    ∷ ("5g", numbered 14)
    ∷ ("2.5g", numbered 13)
    ∷ ("200g", numbered 12)
    ∷ ("25g", numbered 11)
    ∷ ("10g-xr", numbered 10)
    ∷ ("100g", numbered 9)
    ∷ ("40g", numbered 8)
    ∷ ("10g/1g", numbered 7)
    ∷ ("10", named mdio_pma_speed_10)
    ∷ ("100", named mdio_pma_speed_100)
    ∷ ("1000", named mdio_pma_speed_1000)
    ∷ ("10-ts", named mdio_pma_speed_10p)
    ∷ ("2-tl", named mdio_pma_speed_2b)
    ∷ ("10g", named mdio_speed_10g)
    ∷ []

abbrev pub pma_ctrl2_table : Table
pma_ctrl2_table = ("pias", numbered 9) ∷ ("peas", numbered 8) ∷ []

abbrev pub pma_stat2_table : Table
pma_stat2_table =
    ("tx-fault", named mdio_pma_stat2_txfltable)
    ∷ ("rx-fault", named mdio_pma_stat2_rxfltable)
    ∷ ("ext-register", named mdio_pma_stat2_extable)
    ∷ ("tx-disable", named mdio_pmd_stat2_txdisab)
    ∷ ("local-loopback", named mdio_pma_stat2_lbable)
    ∷ ("10g-sr", named mdio_pma_stat2_10gbsr)
    ∷ ("10g-lr", named mdio_pma_stat2_10gblr)
    ∷ ("10g-er", named mdio_pma_stat2_10gber)
    ∷ ("10g-lx4", named mdio_pma_stat2_10gblx4)
    ∷ ("10g-sw", named mdio_pma_stat2_10gbsw)
    ∷ ("10g-lw", named mdio_pma_stat2_10gblw)
    ∷ ("10g-ew", named mdio_pma_stat2_10gbew)
    ∷ []

abbrev pub pma_extable_table : Table
pma_extable_table =
    ("10g-cx4", named mdio_pma_extable_10gcx4)
    ∷ ("10g-lrm", named mdio_pma_extable_10gblrm)
    ∷ ("10g-t", named mdio_pma_extable_10gbt)
    ∷ ("10g-kx4", named mdio_pma_extable_10gbkx4)
    ∷ ("10g-kr", named mdio_pma_extable_10gbkr)
    ∷ ("1000-t", named mdio_pma_extable_1000bt)
    ∷ ("1000-kx", named mdio_pma_extable_1000bkx)
    ∷ ("100-tx", named mdio_pma_extable_100btx)
    ∷ ("10-t", named mdio_pma_extable_10bt)
    ∷ ("p2mp", numbered 9)
    ∷ ("40g/100g", numbered 10)
    ∷ ("1000/100-t1", numbered 11)
    ∷ ("25g", numbered 12)
    ∷ ("200g/400g", numbered 13)
    ∷ ("2.5g/5g", named mdio_pma_extable_nbt)
    ∷ ("1000-h", numbered 15)
    ∷ []

abbrev pub pcs_ctrl1_table : Table
pcs_ctrl1_table =
    ("reset", named mdio_ctrl1_reset)
    ∷ ("loopback", named mdio_pcs_ctrl1_loopback)
    ∷ ("low-power", named mdio_ctrl1_lpower)
    ∷ ("lpi-clock-stop", named mdio_pcs_ctrl1_clkstop_en)
    ∷ []

abbrev pub pcs_stat1_table : Table
pcs_stat1_table =
    ("lpi-clock-stop", numbered 6)
    ∷ ("low-power", named mdio_stat1_lpowerable)
    ∷ ("rx-lpi-recv", numbered 11)
    ∷ ("tx-lpi-recv", numbered 10)
    ∷ ("rx-lpi-ind", numbered 9)
    ∷ ("tx-lpi-ind", numbered 8)
    ∷ ("fault", named mdio_stat1_fault)
    ∷ ("link", named mdio_stat1_lstatus)
    ∷ []

abbrev pub pcs_speed_table : Table
pcs_speed_table =
    ("400g", numbered 9)
    ∷ ("200g", numbered 8)
    ∷ ("5g", numbered 7)
    ∷ ("2.5g", numbered 5)
    ∷ ("25g", numbered 4)
    ∷ ("100g", numbered 3)
    ∷ ("40g", numbered 2)
    ∷ ("10-ts/2-tl", named mdio_pcs_speed_10p2b)
    ∷ ("10g", named mdio_speed_10g)
    ∷ []

abbrev pub pcs_stat2_table : Table
pcs_stat2_table =
    ("5g-t", numbered 13)
    ∷ ("2.5g-t", numbered 12)
    ∷ ("25g-t", numbered 9)
    ∷ ("25g-r", numbered 7)
    ∷ ("40g-t", numbered 6)
    ∷ ("100g-r", numbered 5)
    ∷ ("40g-r", numbered 4)
    ∷ ("10g-t", numbered 3)
    ∷ ("10g-w", named mdio_pcs_stat2_10gbw)
    ∷ ("10g-x", named mdio_pcs_stat2_10gbx)
    ∷ ("10g-r", named mdio_pcs_stat2_10gbr)
    ∷ []

abbrev pub an_ctrl1_table : Table
an_ctrl1_table =
    ("reset", named mdio_ctrl1_reset)
    ∷ ("ext-page", named mdio_an_ctrl1_xnp)
    ∷ ("aneg-enable", named mdio_an_ctrl1_enable)
    ∷ ("aneg-restart", named mdio_an_ctrl1_restart)
    ∷ []

abbrev pub an_stat1_table : Table
an_stat1_table =
    ("aneg-capable", named mdio_an_stat1_able)
    ∷ ("partner-capable", named mdio_an_stat1_lpable)
    ∷ ("ext-page", named mdio_an_stat1_xnp)
    ∷ ("parallel-fault", named mdio_stat1_fault)
    ∷ ("page", named mdio_an_stat1_page)
    ∷ ("aneg-complete", named mdio_an_stat1_complete)
    ∷ ("remote-fault", named mdio_an_stat1_rfault)
    ∷ ("link", named mdio_stat1_lstatus)
    ∷ []

abbrev pub mmd_devs_table : Table
mmd_devs_table =
    ("vendor2", named mdio_devs_vend2)
    ∷ ("vendor1", named mdio_devs_vend1)
    ∷ ("c22-ext", named mdio_devs_c22ext)
    ∷ ("power-unit", device 13)
    ∷ ("ofdm", device 12)
    ∷ ("pma4", device 11)
    ∷ ("pma3", device 10)
    ∷ ("pma2", device 9)
    ∷ ("pma1", device 8)
    ∷ ("aneg", named mdio_devs_an)
    ∷ ("tc", named mdio_devs_tc)
    ∷ ("dte-xs", named mdio_devs_dtexs)
    ∷ ("phy-xs", named mdio_devs_phyxs)
    ∷ ("pcs", named mdio_devs_pcs)
    ∷ ("wis", named mdio_devs_wis)
    ∷ ("pma/pmd", named mdio_devs_pmapmd)
    ∷ ("c22", named mdio_devs_c22present)
    ∷ []

abbrev pub mmd_stat2_table : Table
mmd_stat2_table =
    ("tx-fault", named mdio_stat2_txfault) ∷ ("rx-fault", named mdio_stat2_rxfault) ∷ []
