-- ===== src/Tool/Status/Pma.antt =====
-- src/mdio/print-phy.c: the registers of a PMA/PMD.
use mdio_tools.Prelude.{ℕ, List, [], ◌∷◌}
use mdio_tools.Tool.Status.Phy.{print_mmd_stat2_flags}
use mdio_tools.Tool.Status.Types.{pma_size, pma_type}
use mdio_tools.Tool.Status.{
  Linux, Piece, say, bool_sp, bool_nl, shown, has, alt_hex, bit, get_speed, type_name,
  mdio_ctrl1_lpower, mdio_ctrl1_reset, mdio_pma_ctrl1_loopback, mdio_pma_ctrl2_type,
  mdio_pma_extable_1000bkx, mdio_pma_extable_1000bt, mdio_pma_extable_100btx, mdio_pma_extable_10bt,
  mdio_pma_extable_10gbkr, mdio_pma_extable_10gbkx4, mdio_pma_extable_10gblrm,
  mdio_pma_extable_10gbt, mdio_pma_extable_10gcx4, mdio_pma_extable_nbt, mdio_pma_speed_10,
  mdio_pma_speed_100, mdio_pma_speed_1000, mdio_pma_speed_10p, mdio_pma_speed_2b,
  mdio_pma_stat2_10gber, mdio_pma_stat2_10gbew, mdio_pma_stat2_10gblr, mdio_pma_stat2_10gblw,
  mdio_pma_stat2_10gblx4, mdio_pma_stat2_10gbsr, mdio_pma_stat2_10gbsw, mdio_pma_stat2_extable,
  mdio_pma_stat2_lbable, mdio_pma_stat2_rxfltable, mdio_pma_stat2_txfltable, mdio_pmd_stat2_txdisab,
  mdio_speed_10g, mdio_stat1_fault, mdio_stat1_lpowerable, mdio_stat1_lstatus,
}

module _ (c : Linux) where
  -- print_pma_ctrl1
  unfoldable pub print_pma_ctrl1 : ℕ → List Piece
  print_pma_ctrl1 val =
      say "CTRL1(0x00): "
      ∷ shown (alt_hex 4 val)
      ∷ say "\n"
      ∷ say "  flags: "
      ∷ bool_sp "reset" (has val (c.value mdio_ctrl1_reset))
      ∷ bool_sp "low-power" (has val (c.value mdio_ctrl1_lpower))
      ∷ bool_sp "remote-loopback" (has val (bit 1))
      ∷ bool_nl "local-loopback" (has val (c.value mdio_pma_ctrl1_loopback))
      ∷ say "  speed: "
      ∷ shown (get_speed c val)
      ∷ say "\n"
      ∷ []

  -- print_pma_stat1
  unfoldable pub print_pma_stat1 : ℕ → List Piece
  print_pma_stat1 val =
      say "STAT1(0x01): "
      ∷ shown (alt_hex 4 val)
      ∷ say "\n"
      ∷ say "  capabilities: "
      ∷ bool_sp "pias" (has val (bit 9))
      ∷ bool_sp "peas" (has val (bit 8))
      ∷ bool_nl "low-power" (has val (c.value mdio_stat1_lpowerable))
      ∷ say "  flags:        "
      ∷ bool_sp "fault" (has val (c.value mdio_stat1_fault))
      ∷ bool_nl "link" (has val (c.value mdio_stat1_lstatus))
      ∷ []

  -- print_pma_speed
  unfoldable pub print_pma_speed : ℕ → List Piece
  print_pma_speed val =
      say "SPEED(0x04): "
      ∷ shown (alt_hex 4 val)
      ∷ say "\n"
      ∷ say "  capabilities: "
      ∷ bool_sp "400g" (has val (bit 15))
      ∷ bool_sp "5g" (has val (bit 14))
      ∷ bool_sp "2.5g" (has val (bit 13))
      ∷ bool_sp "200g" (has val (bit 12))
      ∷ bool_sp "25g" (has val (bit 11))
      ∷ bool_sp "10g-xr" (has val (bit 10))
      ∷ bool_sp "100g" (has val (bit 9))
      ∷ bool_sp "40g" (has val (bit 8))
      ∷ bool_sp "10g/1g" (has val (bit 7))
      ∷ bool_sp "10" (has val (c.value mdio_pma_speed_10))
      ∷ bool_nl "100" (has val (c.value mdio_pma_speed_100))
      ∷ say "                "
      ∷ bool_sp "1000" (has val (c.value mdio_pma_speed_1000))
      ∷ bool_sp "10-ts" (has val (c.value mdio_pma_speed_10p))
      ∷ bool_sp "2-tl" (has val (c.value mdio_pma_speed_2b))
      ∷ bool_nl "10g" (has val (c.value mdio_speed_10g))
      ∷ []

  -- print_pma_ctrl2
  unfoldable pub print_pma_ctrl2 : ℕ → List Piece
  print_pma_ctrl2 val =
      say "CTRL2(0x07): "
      ∷ shown (alt_hex 4 val)
      ∷ say "\n"
      ∷ say "  flags: "
      ∷ bool_sp "pias" (has val (bit 9))
      ∷ bool_nl "peas" (has val (bit 8))
      ∷ say "  type:  "
      ∷ type_name pma_size (pma_type c) (c.field_get (c.value mdio_pma_ctrl2_type) val)
      ∷ say "\n"
      ∷ []

  -- print_pma_stat2
  unfoldable pub print_pma_stat2 : ℕ → List Piece
  print_pma_stat2 val =
      say "STAT2(0x08): "
      ∷ shown (alt_hex 4 val)
      ∷ say "\n"
      ∷ say "  capabilities: "
      ∷ bool_sp "tx-fault" (has val (c.value mdio_pma_stat2_txfltable))
      ∷ bool_sp "rx-fault" (has val (c.value mdio_pma_stat2_rxfltable))
      ∷ bool_sp "ext-register" (has val (c.value mdio_pma_stat2_extable))
      ∷ bool_sp "tx-disable" (has val (c.value mdio_pmd_stat2_txdisab))
      ∷ bool_nl "local-loopback" (has val (c.value mdio_pma_stat2_lbable))
      ∷ say "                "
      ∷ bool_sp "10g-sr" (has val (c.value mdio_pma_stat2_10gbsr))
      ∷ bool_sp "10g-lr" (has val (c.value mdio_pma_stat2_10gblr))
      ∷ bool_sp "10g-er" (has val (c.value mdio_pma_stat2_10gber))
      ∷ bool_sp "10g-lx4" (has val (c.value mdio_pma_stat2_10gblx4))
      ∷ bool_sp "10g-sw" (has val (c.value mdio_pma_stat2_10gbsw))
      ∷ bool_sp "10g-lw" (has val (c.value mdio_pma_stat2_10gblw))
      ∷ bool_nl "10g-ew" (has val (c.value mdio_pma_stat2_10gbew))
      ∷ print_mmd_stat2_flags c val

  -- print_pma_extable
  unfoldable pub print_pma_extable : ℕ → List Piece
  print_pma_extable val =
      say "EXTABLE(0x0B): "
      ∷ shown (alt_hex 4 val)
      ∷ say "\n"
      ∷ say "  capabilities: "
      ∷ bool_sp "10g-cx4" (has val (c.value mdio_pma_extable_10gcx4))
      ∷ bool_sp "10g-lrm" (has val (c.value mdio_pma_extable_10gblrm))
      ∷ bool_sp "10g-t" (has val (c.value mdio_pma_extable_10gbt))
      ∷ bool_sp "10g-kx4" (has val (c.value mdio_pma_extable_10gbkx4))
      ∷ bool_sp "10g-kr" (has val (c.value mdio_pma_extable_10gbkr))
      ∷ bool_sp "1000-t" (has val (c.value mdio_pma_extable_1000bt))
      ∷ bool_nl "1000-kx" (has val (c.value mdio_pma_extable_1000bkx))
      ∷ say "                "
      ∷ bool_sp "100-tx" (has val (c.value mdio_pma_extable_100btx))
      ∷ bool_sp "10-t" (has val (c.value mdio_pma_extable_10bt))
      ∷ bool_sp "p2mp" (has val (bit 9))
      ∷ bool_sp "40g/100g" (has val (bit 10))
      ∷ bool_sp "1000/100-t1" (has val (bit 11))
      ∷ bool_sp "25g" (has val (bit 12))
      ∷ bool_nl "200g/400g" (has val (bit 13))
      ∷ say "                "
      ∷ bool_sp "2.5g/5g" (has val (c.value mdio_pma_extable_nbt))
      ∷ bool_nl "1000-h" (has val (bit 15))
      ∷ []
