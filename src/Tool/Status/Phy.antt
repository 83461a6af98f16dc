-- ===== src/Tool/Status/Phy.antt =====
-- src/mdio/print-phy.c: the registers of a PHY, and those that every MMD has.
use mdio_tools.Prelude.{ℕ, ◌*◌, ◌==◌, if◌then◌else◌, List, [], ◌∷◌, bit_and, bit_or, u32}
use mdio_tools.Tool.Args.{codes}
use mdio_tools.Tool.Status.{
  Linux, Piece, say, bool_sp, bool_nl, shown, has, alt_hex, get_speed, bmcr_anenable,
  bmcr_anrestart, bmcr_ctst, bmcr_fulldplx, bmcr_isolate, bmcr_loopback, bmcr_pdown, bmcr_reset,
  bmsr_100base4, bmsr_100full, bmsr_100full2, bmsr_100half, bmsr_100half2, bmsr_10full, bmsr_10half,
  bmsr_anegcapable, bmsr_anegcomplete, bmsr_ercap, bmsr_estaten, bmsr_jcd, bmsr_lstatus,
  bmsr_rfault, estatus_1000_tfull, estatus_1000_thalf, estatus_1000_xfull, estatus_1000_xhalf,
  mdio_devs_an, mdio_devs_c22ext, mdio_devs_c22present, mdio_devs_dtexs, mdio_devs_pcs,
  mdio_devs_phyxs, mdio_devs_pmapmd, mdio_devs_tc, mdio_devs_vend1, mdio_devs_vend2, mdio_devs_wis,
  mdio_stat2_devprst, mdio_stat2_devprst_val, mdio_stat2_rxfault, mdio_stat2_txfault,
}

module _ (c : Linux) where
  -- print_phy_bmcr
  unfoldable pub print_phy_bmcr : ℕ → List Piece
  print_phy_bmcr val =
      say "BMCR(0x00): "
      ∷ shown (alt_hex 4 val)
      ∷ say "\n"
      ∷ say "  flags: "
      ∷ bool_sp "reset" (has val (c.value bmcr_reset))
      ∷ bool_sp "loopback" (has val (c.value bmcr_loopback))
      ∷ bool_sp "aneg-enable" (has val (c.value bmcr_anenable))
      ∷ bool_sp "power-down" (has val (c.value bmcr_pdown))
      ∷ bool_sp "isolate" (has val (c.value bmcr_isolate))
      ∷ bool_nl "aneg-restart" (has val (c.value bmcr_anrestart))
      ∷ say "         "
      ∷ bool_nl "collision-test" (has val (c.value bmcr_ctst))
      ∷ say "  speed: "
      ∷ shown (get_speed c val)
      ∷ say "-"
      ∷ shown (if has val (c.value bmcr_fulldplx) then codes "full" else codes "half")
      ∷ say "\n"
      ∷ []

  -- print_phy_bmsr
  unfoldable pub print_phy_bmsr : ℕ → List Piece
  print_phy_bmsr val =
      say "BMSR(0x01): "
      ∷ shown (alt_hex 4 val)
      ∷ say "\n"
      ∷ say "  capabilities: "
      ∷ bool_sp "100-t4" (has val (c.value bmsr_100base4))
      ∷ bool_sp "100-tx-f" (has val (c.value bmsr_100full))
      ∷ bool_sp "100-tx-h" (has val (c.value bmsr_100half))
      ∷ bool_sp "10-t-f" (has val (c.value bmsr_10full))
      ∷ bool_sp "10-t-h" (has val (c.value bmsr_10half))
      ∷ bool_sp "100-t2-f" (has val (c.value bmsr_100full2))
      ∷ bool_nl "100-t2-h" (has val (c.value bmsr_100half2))
      ∷ say "  flags:        "
      ∷ bool_sp "ext-status" (has val (c.value bmsr_estaten))
      ∷ bool_sp "aneg-complete" (has val (c.value bmsr_anegcomplete))
      ∷ bool_sp "remote-fault" (has val (c.value bmsr_rfault))
      ∷ bool_sp "aneg-capable" (has val (c.value bmsr_anegcapable))
      ∷ bool_nl "link" (has val (c.value bmsr_lstatus))
      ∷ say "                "
      ∷ bool_sp "jabber" (has val (c.value bmsr_jcd))
      ∷ bool_nl "ext-register" (has val (c.value bmsr_ercap))
      ∷ []

  -- print_phy_id
  unfoldable pub print_phy_id : ℕ → ℕ → List Piece
  print_phy_id id_hi id_lo =
      let id = u32 (bit_or (id_hi * 65536) id_lo) in
      say "ID(0x02/0x03): " ∷ shown (alt_hex 8 id) ∷ say "\n" ∷ []

  -- print_phy_estatus
  unfoldable pub print_phy_estatus : ℕ → List Piece
  print_phy_estatus val =
      say "ESTATUS(0x0F): "
      ∷ shown (alt_hex 4 val)
      ∷ say "\n"
      ∷ say "  capabilities: "
      ∷ bool_sp "1000-x-f" (has val (c.value estatus_1000_xfull))
      ∷ bool_sp "1000-x-h" (has val (c.value estatus_1000_xhalf))
      ∷ bool_sp "1000-t-f" (has val (c.value estatus_1000_tfull))
      ∷ bool_nl "1000-t-h" (has val (c.value estatus_1000_thalf))
      ∷ []

  -- print_mmd_devid
  unfoldable pub print_mmd_devid : ℕ → ℕ → List Piece
  print_mmd_devid id_hi id_lo =
      let id = u32 (bit_or (id_hi * 65536) id_lo) in
      say "DEVID(0x02/0x03): " ∷ shown (alt_hex 8 id) ∷ say "\n" ∷ []

  -- print_mmd_pkgid
  unfoldable pub print_mmd_pkgid : ℕ → ℕ → List Piece
  print_mmd_pkgid id_hi id_lo =
      let id = u32 (bit_or (id_hi * 65536) id_lo) in
      say "PKGID(0x0E/0x0F): " ∷ shown (alt_hex 8 id) ∷ say "\n" ∷ []

  -- print_mmd_devs
  unfoldable pub print_mmd_devs : ℕ → ℕ → List Piece
  print_mmd_devs devs_hi devs_lo =
      let devs = u32 (bit_or (devs_hi * 65536) devs_lo) in
      say "DEVS(0x06/0x05): "
      ∷ shown (alt_hex 8 devs)
      ∷ say "\n"
      ∷ say "  devices: "
      ∷ bool_sp "vendor2" (has devs (c.value mdio_devs_vend2))
      ∷ bool_sp "vendor1" (has devs (c.value mdio_devs_vend1))
      ∷ bool_sp "c22-ext" (has devs (c.value mdio_devs_c22ext))
      ∷ bool_sp "power-unit" (has devs (c.devs_present 13))
      ∷ bool_sp "ofdm" (has devs (c.devs_present 12))
      ∷ bool_sp "pma4" (has devs (c.devs_present 11))
      ∷ bool_sp "pma3" (has devs (c.devs_present 10))
      ∷ bool_sp "pma2" (has devs (c.devs_present 9))
      ∷ bool_nl "pma1" (has devs (c.devs_present 8))
      ∷ say "           "
      ∷ bool_sp "aneg" (has devs (c.value mdio_devs_an))
      ∷ bool_sp "tc" (has devs (c.value mdio_devs_tc))
      ∷ bool_sp "dte-xs" (has devs (c.value mdio_devs_dtexs))
      ∷ bool_sp "phy-xs" (has devs (c.value mdio_devs_phyxs))
      ∷ bool_sp "pcs" (has devs (c.value mdio_devs_pcs))
      ∷ bool_sp "wis" (has devs (c.value mdio_devs_wis))
      ∷ bool_sp "pma/pmd" (has devs (c.value mdio_devs_pmapmd))
      ∷ bool_nl "c22" (has devs (c.value mdio_devs_c22present))
      ∷ []

  -- print_mmd_stat2_flags
  unfoldable pub print_mmd_stat2_flags : ℕ → List Piece
  print_mmd_stat2_flags val =
      say "  flags:        "
      ∷ bool_sp "present"
          (bit_and val (c.value mdio_stat2_devprst) == c.value mdio_stat2_devprst_val)
      ∷ bool_sp "tx-fault" (has val (c.value mdio_stat2_txfault))
      ∷ bool_nl "rx-fault" (has val (c.value mdio_stat2_rxfault))
      ∷ []
