-- ===== src/Tool/Status/Pcs.antt =====
-- src/mdio/print-phy.c: the registers of a PCS and of an auto-negotiation MMD.
use mdio_tools.Prelude.{ℕ, List, [], ◌∷◌}
use mdio_tools.Tool.Status.Phy.{print_mmd_stat2_flags}
use mdio_tools.Tool.Status.Types.{pcs_size, pcs_type}
use mdio_tools.Tool.Status.{
  Linux, Piece, say, bool_sp, bool_nl, shown, has, alt_hex, bit, get_speed, type_name,
  mdio_an_ctrl1_enable, mdio_an_ctrl1_restart, mdio_an_ctrl1_xnp, mdio_an_stat1_able,
  mdio_an_stat1_complete, mdio_an_stat1_lpable, mdio_an_stat1_page, mdio_an_stat1_rfault,
  mdio_an_stat1_xnp, mdio_ctrl1_lpower, mdio_ctrl1_reset, mdio_pcs_ctrl1_clkstop_en,
  mdio_pcs_ctrl1_loopback, mdio_pcs_ctrl2_type, mdio_pcs_speed_10p2b, mdio_pcs_stat2_10gbr,
  mdio_pcs_stat2_10gbw, mdio_pcs_stat2_10gbx, mdio_speed_10g, mdio_stat1_fault,
  mdio_stat1_lpowerable, mdio_stat1_lstatus,
}

module _ (c : Linux) where
  -- print_pcs_ctrl1
  unfoldable pub print_pcs_ctrl1 : ℕ → List Piece
  print_pcs_ctrl1 val =
      say "CTRL1(0x00): "
      ∷ shown (alt_hex 4 val)
      ∷ say "\n"
      ∷ say "  flags: "
      ∷ bool_sp "reset" (has val (c.value mdio_ctrl1_reset))
      ∷ bool_sp "loopback" (has val (c.value mdio_pcs_ctrl1_loopback))
      ∷ bool_sp "low-power" (has val (c.value mdio_ctrl1_lpower))
      ∷ bool_sp "lpi-clock-stop" (has val (c.value mdio_pcs_ctrl1_clkstop_en))
      ∷ say "\n"
      ∷ say "  speed: "
      ∷ shown (get_speed c val)
      ∷ say "\n"
      ∷ []

  -- print_pcs_stat1
  unfoldable pub print_pcs_stat1 : ℕ → List Piece
  print_pcs_stat1 val =
      say "STAT1(0x01): "
      ∷ shown (alt_hex 4 val)
      ∷ say "\n"
      ∷ say "  capabilities: "
      ∷ bool_sp "lpi-clock-stop" (has val (bit 6))
      ∷ bool_nl "low-power" (has val (c.value mdio_stat1_lpowerable))
      ∷ say "  flags:        "
      ∷ bool_sp "rx-lpi-recv" (has val (bit 11))
      ∷ bool_sp "tx-lpi-recv" (has val (bit 10))
      ∷ bool_sp "rx-lpi-ind" (has val (bit 9))
      ∷ bool_sp "tx-lpi-ind" (has val (bit 8))
      ∷ bool_sp "fault" (has val (c.value mdio_stat1_fault))
      ∷ bool_nl "link" (has val (c.value mdio_stat1_lstatus))
      ∷ []

  -- print_pcs_speed
  unfoldable pub print_pcs_speed : ℕ → List Piece
  print_pcs_speed val =
      say "SPEED(0x04): "
      ∷ shown (alt_hex 4 val)
      ∷ say "\n"
      ∷ say "  capabilities: "
      ∷ bool_sp "400g" (has val (bit 9))
      ∷ bool_sp "200g" (has val (bit 8))
      ∷ bool_sp "5g" (has val (bit 7))
      ∷ bool_sp "2.5g" (has val (bit 5))
      ∷ bool_sp "25g" (has val (bit 4))
      ∷ bool_sp "100g" (has val (bit 3))
      ∷ bool_sp "40g" (has val (bit 2))
      ∷ bool_sp "10-ts/2-tl" (has val (c.value mdio_pcs_speed_10p2b))
      ∷ bool_nl "10g" (has val (c.value mdio_speed_10g))
      ∷ []

  -- print_pcs_ctrl2
  unfoldable pub print_pcs_ctrl2 : ℕ → List Piece
  print_pcs_ctrl2 val =
      say "CTRL2(0x07): "
      ∷ shown (alt_hex 4 val)
      ∷ say "\n"
      ∷ say "  type: "
      ∷ type_name pcs_size (pcs_type c) (c.field_get (c.value mdio_pcs_ctrl2_type) val)
      ∷ say "\n"
      ∷ []

  -- print_pcs_stat2
  unfoldable pub print_pcs_stat2 : ℕ → List Piece
  print_pcs_stat2 val =
      say "STAT2(0x08): "
      ∷ shown (alt_hex 4 val)
      ∷ say "\n"
      ∷ say "  capabilities: "
      ∷ bool_sp "5g-t" (has val (bit 13))
      ∷ bool_sp "2.5g-t" (has val (bit 12))
      ∷ bool_sp "25g-t" (has val (bit 9))
      ∷ bool_sp "25g-r" (has val (bit 7))
      ∷ bool_sp "40g-t" (has val (bit 6))
      ∷ bool_sp "100g-r" (has val (bit 5))
      ∷ bool_sp "40g-r" (has val (bit 4))
      ∷ bool_sp "10g-t" (has val (bit 3))
      ∷ bool_nl "10g-w" (has val (c.value mdio_pcs_stat2_10gbw))
      ∷ say "                "
      ∷ bool_sp "10g-x" (has val (c.value mdio_pcs_stat2_10gbx))
      ∷ bool_nl "10g-r" (has val (c.value mdio_pcs_stat2_10gbr))
      ∷ print_mmd_stat2_flags c val

  -- print_an_ctrl1
  unfoldable pub print_an_ctrl1 : ℕ → List Piece
  print_an_ctrl1 val =
      say "CTRL1(0x00): "
      ∷ shown (alt_hex 4 val)
      ∷ say "\n"
      ∷ say "  flags: "
      ∷ bool_sp "reset" (has val (c.value mdio_ctrl1_reset))
      ∷ bool_sp "ext-page" (has val (c.value mdio_an_ctrl1_xnp))
      ∷ bool_sp "aneg-enable" (has val (c.value mdio_an_ctrl1_enable))
      ∷ bool_nl "aneg-restart" (has val (c.value mdio_an_ctrl1_restart))
      ∷ []

  -- print_an_stat1
  unfoldable pub print_an_stat1 : ℕ → List Piece
  print_an_stat1 val =
      say "STAT1(0x01): "
      ∷ shown (alt_hex 4 val)
      ∷ say "\n"
      ∷ say "  capabilities: "
      ∷ bool_sp "aneg-capable" (has val (c.value mdio_an_stat1_able))
      ∷ bool_nl "partner-capable" (has val (c.value mdio_an_stat1_lpable))
      ∷ say "  flags:        "
      ∷ bool_sp "ext-page" (has val (c.value mdio_an_stat1_xnp))
      ∷ bool_sp "parallel-fault" (has val (c.value mdio_stat1_fault))
      ∷ bool_sp "page" (has val (c.value mdio_an_stat1_page))
      ∷ bool_sp "aneg-complete" (has val (c.value mdio_an_stat1_complete))
      ∷ bool_nl "remote-fault" (has val (c.value mdio_an_stat1_rfault))
      ∷ say "                "
      ∷ bool_nl "link" (has val (c.value mdio_stat1_lstatus))
      ∷ []
