-- ===== src/Tool/Status/Readable.antt =====
-- src/mdio/print-phy.c: what each printer prints can be read back.
use mdio_tools.Prelude.{ℕ, ◌<◌, refl}
use mdio_tools.Tool.Status.{Linux, has, bmcr_fulldplx, mdio_pma_ctrl2_type, mdio_pcs_ctrl2_type}
use mdio_tools.Tool.Status.Types.{pma_size, pcs_size, pma_type, pcs_type}
use mdio_tools.Tool.Status.Phy.{
  print_phy_bmcr, print_phy_bmsr, print_phy_id, print_phy_estatus, print_mmd_devid, print_mmd_pkgid,
  print_mmd_devs, print_mmd_stat2_flags,
}
use mdio_tools.Tool.Status.Pma.{
  print_pma_ctrl1, print_pma_stat1, print_pma_speed, print_pma_ctrl2, print_pma_stat2,
  print_pma_extable,
}
use mdio_tools.Tool.Status.Pcs.{
  print_pcs_ctrl1, print_pcs_stat1, print_pcs_speed, print_pcs_ctrl2, print_pcs_stat2,
  print_an_ctrl1, print_an_stat1,
}
use mdio_tools.Tool.Status.Reading.{IsReadable, tidy-IsReadable, shown_of, tidy, after, read_from}
use mdio_tools.Tool.Status.Lines.{alt_hex-IsLine, duplex-IsLine, get_speed-IsLine, type_name-shown}

module _ (c : Linux) where
  pub phy_bmcr-IsReadable : (val : ℕ) → IsReadable (print_phy_bmcr c val)
  unfolding print_phy_bmcr tidy after read_from shown_of
  phy_bmcr-IsReadable val = tidy-IsReadable _ refl refl (
    alt_hex-IsLine 4 val,
    (get_speed-IsLine c val, (duplex-IsLine (has val (c.value bmcr_fulldplx)), tt)),
  )

  pub phy_bmsr-IsReadable : (val : ℕ) → IsReadable (print_phy_bmsr c val)
  unfolding print_phy_bmsr tidy after read_from shown_of
  phy_bmsr-IsReadable val = tidy-IsReadable _ refl refl (alt_hex-IsLine 4 val, tt)

  pub phy_id-IsReadable : (hi lo : ℕ) → IsReadable (print_phy_id c hi lo)
  unfolding print_phy_id tidy after read_from shown_of
  phy_id-IsReadable hi lo = tidy-IsReadable _ refl refl (alt_hex-IsLine 8 _, tt)

  pub phy_estatus-IsReadable : (val : ℕ) → IsReadable (print_phy_estatus c val)
  unfolding print_phy_estatus tidy after read_from shown_of
  phy_estatus-IsReadable val = tidy-IsReadable _ refl refl (alt_hex-IsLine 4 val, tt)

  pub mmd_devid-IsReadable : (hi lo : ℕ) → IsReadable (print_mmd_devid c hi lo)
  unfolding print_mmd_devid tidy after read_from shown_of
  mmd_devid-IsReadable hi lo = tidy-IsReadable _ refl refl (alt_hex-IsLine 8 _, tt)

  pub mmd_pkgid-IsReadable : (hi lo : ℕ) → IsReadable (print_mmd_pkgid c hi lo)
  unfolding print_mmd_pkgid tidy after read_from shown_of
  mmd_pkgid-IsReadable hi lo = tidy-IsReadable _ refl refl (alt_hex-IsLine 8 _, tt)

  pub mmd_devs-IsReadable : (hi lo : ℕ) → IsReadable (print_mmd_devs c hi lo)
  unfolding print_mmd_devs tidy after read_from shown_of
  mmd_devs-IsReadable hi lo = tidy-IsReadable _ refl refl (alt_hex-IsLine 8 _, tt)

  pub pma_ctrl1-IsReadable : (val : ℕ) → IsReadable (print_pma_ctrl1 c val)
  unfolding print_pma_ctrl1 tidy after read_from shown_of
  pma_ctrl1-IsReadable val =
      tidy-IsReadable _ refl refl (alt_hex-IsLine 4 val, (get_speed-IsLine c val, tt))

  pub pma_stat1-IsReadable : (val : ℕ) → IsReadable (print_pma_stat1 c val)
  unfolding print_pma_stat1 tidy after read_from shown_of
  pma_stat1-IsReadable val = tidy-IsReadable _ refl refl (alt_hex-IsLine 4 val, tt)

  pub pma_speed-IsReadable : (val : ℕ) → IsReadable (print_pma_speed c val)
  unfolding print_pma_speed tidy after read_from shown_of
  pma_speed-IsReadable val = tidy-IsReadable _ refl refl (alt_hex-IsLine 4 val, tt)

  pub pma_stat2-IsReadable : (val : ℕ) → IsReadable (print_pma_stat2 c val)
  unfolding print_pma_stat2 print_mmd_stat2_flags tidy after read_from shown_of
  pma_stat2-IsReadable val = tidy-IsReadable _ refl refl (alt_hex-IsLine 4 val, tt)

  pub pma_extable-IsReadable : (val : ℕ) → IsReadable (print_pma_extable c val)
  unfolding print_pma_extable tidy after read_from shown_of
  pma_extable-IsReadable val = tidy-IsReadable _ refl refl (alt_hex-IsLine 4 val, tt)

  pub pcs_ctrl1-IsReadable : (val : ℕ) → IsReadable (print_pcs_ctrl1 c val)
  unfolding print_pcs_ctrl1 tidy after read_from shown_of
  pcs_ctrl1-IsReadable val =
      tidy-IsReadable _ refl refl (alt_hex-IsLine 4 val, (get_speed-IsLine c val, tt))

  pub pcs_stat1-IsReadable : (val : ℕ) → IsReadable (print_pcs_stat1 c val)
  unfolding print_pcs_stat1 tidy after read_from shown_of
  pcs_stat1-IsReadable val = tidy-IsReadable _ refl refl (alt_hex-IsLine 4 val, tt)

  pub pcs_speed-IsReadable : (val : ℕ) → IsReadable (print_pcs_speed c val)
  unfolding print_pcs_speed tidy after read_from shown_of
  pcs_speed-IsReadable val = tidy-IsReadable _ refl refl (alt_hex-IsLine 4 val, tt)

  pub pcs_stat2-IsReadable : (val : ℕ) → IsReadable (print_pcs_stat2 c val)
  unfolding print_pcs_stat2 print_mmd_stat2_flags tidy after read_from shown_of
  pcs_stat2-IsReadable val = tidy-IsReadable _ refl refl (alt_hex-IsLine 4 val, tt)

  pub an_ctrl1-IsReadable : (val : ℕ) → IsReadable (print_an_ctrl1 c val)
  unfolding print_an_ctrl1 tidy after read_from shown_of
  an_ctrl1-IsReadable val = tidy-IsReadable _ refl refl (alt_hex-IsLine 4 val, tt)

  pub an_stat1-IsReadable : (val : ℕ) → IsReadable (print_an_stat1 c val)
  unfolding print_an_stat1 tidy after read_from shown_of
  an_stat1-IsReadable val = tidy-IsReadable _ refl refl (alt_hex-IsLine 4 val, tt)

  pub pma_ctrl2-IsReadable :
      (val : ℕ)
      → c.field_get (c.value mdio_pma_ctrl2_type) val < pma_size
      → IsReadable (print_pma_ctrl2 c val)
  unfolding print_pma_ctrl2 pma_type tidy after read_from shown_of
  pma_ctrl2-IsReadable val lt =
      let (t, e, line) = type_name-shown pma_size (pma_type c) _ lt refl in
      rw e (tidy-IsReadable _ refl refl (alt_hex-IsLine 4 val, (line, tt)))

  pub pcs_ctrl2-IsReadable :
      (val : ℕ)
      → c.field_get (c.value mdio_pcs_ctrl2_type) val < pcs_size
      → IsReadable (print_pcs_ctrl2 c val)
  unfolding print_pcs_ctrl2 pcs_type tidy after read_from shown_of
  pcs_ctrl2-IsReadable val lt =
      let (t, e, line) = type_name-shown pcs_size (pcs_type c) _ lt refl in
      rw e (tidy-IsReadable _ refl refl (alt_hex-IsLine 4 val, (line, tt)))
