-- ===== src/Tool/Status/Types.antt =====
-- src/mdio/print-phy.c: the tables of the names of types.
use mdio_tools.Prelude.{ℕ, List, [], ◌∷◌}
use mdio_tools.Tool.Args.{Text, codes}
use mdio_tools.Tool.Status.{
  Linux, mdio_pcs_ctrl2_10gbr, mdio_pcs_ctrl2_10gbt, mdio_pcs_ctrl2_10gbw, mdio_pcs_ctrl2_10gbx,
  mdio_pma_ctrl2_1000bkx, mdio_pma_ctrl2_1000bt, mdio_pma_ctrl2_100btx, mdio_pma_ctrl2_10bt,
  mdio_pma_ctrl2_10gbcx4, mdio_pma_ctrl2_10gber, mdio_pma_ctrl2_10gbew, mdio_pma_ctrl2_10gbkr,
  mdio_pma_ctrl2_10gbkx4, mdio_pma_ctrl2_10gblr, mdio_pma_ctrl2_10gblrm, mdio_pma_ctrl2_10gblw,
  mdio_pma_ctrl2_10gblx4, mdio_pma_ctrl2_10gbsr, mdio_pma_ctrl2_10gbsw, mdio_pma_ctrl2_10gbt,
  mdio_pma_ctrl2_2_5gbt, mdio_pma_ctrl2_5gbt,
}

-- The lengths of pma_type and pcs_type
abbrev pub pma_size : ℕ
pma_size = 0x80

abbrev pub pcs_size : ℕ
pcs_size = 0x10

module _ (c : Linux) where
  -- pma_type, by the indices that have a name
  unfoldable pub pma_type : List (ℕ × Text)
  pma_type =
      (0x5c, codes "400g-lr8")
      ∷ (0x5b, codes "400g-fr8")
      ∷ (0x5a, codes "400g-dr4")
      ∷ (0x59, codes "400g-sr16")
      ∷ (0x55, codes "200g-lr4")
      ∷ (0x54, codes "200g-fr4")
      ∷ (0x53, codes "200g-dr4")
      ∷ (0x3d, codes "-t1")
      ∷ (0x3a, codes "25g-sr")
      ∷ (0x39, codes "25g-kr")
      ∷ (0x38, codes "25g-cr")
      ∷ (0x37, codes "25g-t")
      ∷ (0x36, codes "25g-er")
      ∷ (0x35, codes "25g-lr")
      ∷ (0x34, codes "-h")
      ∷ (0x33, codes "10g-xr-u")
      ∷ (0x32, codes "10g-xr-d")
      ∷ (c.value mdio_pma_ctrl2_5gbt, codes "5g-t")
      ∷ (c.value mdio_pma_ctrl2_2_5gbt, codes "2.5g-t")
      ∷ (0x2f, codes "100g-sr4")
      ∷ (0x2e, codes "100g-cr4")
      ∷ (0x2d, codes "100g-kr4")
      ∷ (0x2c, codes "100g-kp4")
      ∷ (0x2b, codes "100g-er4")
      ∷ (0x2a, codes "100g-lr4")
      ∷ (0x29, codes "100g-sr10")
      ∷ (0x28, codes "100g-cr10")
      ∷ (0x26, codes "40g-t")
      ∷ (0x25, codes "40g-er4")
      ∷ (0x24, codes "40g-fr")
      ∷ (0x23, codes "40g-lr4")
      ∷ (0x22, codes "40g-sr4")
      ∷ (0x21, codes "40g-cr4")
      ∷ (0x20, codes "40g-kr4")
      ∷ (0x1f, codes "10/1g-prx-u4")
      ∷ (0x1e, codes "10g-pr-u4")
      ∷ (0x1d, codes "10/1g-prx-d4")
      ∷ (0x1c, codes "10g-pr-d4")
      ∷ (0x1a, codes "10g-pr-u3")
      ∷ (0x19, codes "10g-pr-u1")
      ∷ (0x18, codes "10/1g-prx-u3")
      ∷ (0x17, codes "10/1g-prx-u2")
      ∷ (0x16, codes "10/1g-prx-u1")
      ∷ (0x15, codes "10g-pr-d3")
      ∷ (0x14, codes "10g-pr-d2")
      ∷ (0x13, codes "10g-pr-d1")
      ∷ (0x12, codes "10/1g-prx-d3")
      ∷ (0x11, codes "10/1g-prx-d2")
      ∷ (0x10, codes "10/1g-prx-d1")
      ∷ (c.value mdio_pma_ctrl2_10bt, codes "10-t")
      ∷ (c.value mdio_pma_ctrl2_100btx, codes "100-tx")
      ∷ (c.value mdio_pma_ctrl2_1000bkx, codes "1000-kx")
      ∷ (c.value mdio_pma_ctrl2_1000bt, codes "1000-t")
      ∷ (c.value mdio_pma_ctrl2_10gbkr, codes "10g-kr")
      ∷ (c.value mdio_pma_ctrl2_10gbkx4, codes "10g-kx4")
      ∷ (c.value mdio_pma_ctrl2_10gbt, codes "10g-t")
      ∷ (c.value mdio_pma_ctrl2_10gblrm, codes "10g-lrm")
      ∷ (c.value mdio_pma_ctrl2_10gbsr, codes "10g-sr")
      ∷ (c.value mdio_pma_ctrl2_10gblr, codes "10g-lr")
      ∷ (c.value mdio_pma_ctrl2_10gber, codes "10g-er")
      ∷ (c.value mdio_pma_ctrl2_10gblx4, codes "10g-lx4")
      ∷ (c.value mdio_pma_ctrl2_10gbsw, codes "10g-sw")
      ∷ (c.value mdio_pma_ctrl2_10gblw, codes "10g-lw")
      ∷ (c.value mdio_pma_ctrl2_10gbew, codes "10g-ew")
      ∷ (c.value mdio_pma_ctrl2_10gbcx4, codes "10g-cx4")
      ∷ []

  -- pcs_type, likewise
  unfoldable pub pcs_type : List (ℕ × Text)
  pcs_type =
      (0xd, codes "400g-r")
      ∷ (0xc, codes "200g-r")
      ∷ (0xb, codes "5g-t")
      ∷ (0xa, codes "2.5g-t")
      ∷ (0x9, codes "25g-t")
      ∷ (0x7, codes "25g-r")
      ∷ (0x6, codes "40g-t")
      ∷ (0x5, codes "100g-r")
      ∷ (0x4, codes "40g-r")
      ∷ (c.value mdio_pcs_ctrl2_10gbt, codes "10g-t")
      ∷ (c.value mdio_pcs_ctrl2_10gbw, codes "10g-w")
      ∷ (c.value mdio_pcs_ctrl2_10gbx, codes "10g-x")
      ∷ (c.value mdio_pcs_ctrl2_10gbr, codes "10g-r")
      ∷ []
