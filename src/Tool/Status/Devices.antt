-- ===== src/Tool/Status/Devices.antt =====
-- src/mdio/print-phy.c, phy.c, paged-phy.c and bus.c: what the callbacks of the status commands print.
-- `data` has the registers' contents; the parameters of the printers are uint16_t.
use mdio_tools.Prelude.{
  ℕ, zero, suc, ◌+◌, ◌*◌, ◌==◌, if◌then◌else◌, not, ◌&&◌, ◌||◌, Option, none, some, List, [], ◌∷◌,
  ◌++◌, bit_and, bit_or, get_or, length, u16, u32,
}
use mdio_tools.Tool.Args.{codes}
use mdio_tools.Tool.Status.{
  Linux, Piece, say, shown, has, hex_pad, bmsr_estaten, bmsr_lstatus, mdio_pma_stat2_extable,
  mdio_phy_id_devad, mdio_mmd_pmapmd, mdio_mmd_pcs, mdio_mmd_an,
}
use mdio_tools.Tool.Status.Phy.{
  print_phy_bmcr, print_phy_bmsr, print_phy_id, print_phy_estatus, print_mmd_devid, print_mmd_pkgid,
  print_mmd_devs,
}
use mdio_tools.Tool.Status.Pma.{
  print_pma_ctrl1, print_pma_stat1, print_pma_speed, print_pma_ctrl2, print_pma_stat2,
  print_pma_extable,
}
use mdio_tools.Tool.Status.Pcs.{
  print_pcs_ctrl1, print_pcs_stat1, print_pcs_speed, print_pcs_ctrl2, print_pcs_stat2,
  print_an_ctrl1, print_an_stat1,
}
use mdio_tools.Tool.Bus.{mdio_dev_max}
use mdio_tools.Switch.Json.{dec}

-- struct mmd_print_device
pub record MmdPrintDevice : Type 0 where
  pub print_ctrl1 : Option (ℕ → List Piece)
  pub print_stat1 : Option (ℕ → List Piece)
  pub print_speed : Option (ℕ → List Piece)
  pub print_extra : Option (List ℕ → List Piece)

-- `data[i]` as a uint16_t
abbrev pub word : List ℕ → ℕ → ℕ
word data' i = u16 (get_or data' i 0)

abbrev pub nl : Piece
nl = say "\n"

-- A printer that may be missing, and the new line behind it
unfoldable pub print_optional : {A : Type 0} → Option (A → List Piece) → A → List Piece → List Piece
print_optional none a rest = rest
print_optional (some print) a rest = print a ++ (nl ∷ rest)

module _ (c : Linux) where
  -- print_pma_extra
  unfoldable pub print_pma_extra : List ℕ → List Piece
  print_pma_extra data' =
      print_pma_ctrl2 c (word data' 7)
      ++ (nl ∷ print_pma_stat2 c (word data' 8)
          ++ (if has (get_or data' 8 0) (c.value mdio_pma_stat2_extable)
              then nl ∷ print_pma_extable c (word data' 11)
              else []))

  -- print_pcs_extra
  unfoldable pub print_pcs_extra : List ℕ → List Piece
  print_pcs_extra data' =
      print_pcs_ctrl2 c (word data' 7) ++ (nl ∷ print_pcs_stat2 c (word data' 8))

  -- pma_print_device, pcs_print_device, an_print_device and null_print_device
  abbrev pub pma_print_device : MmdPrintDevice
  pma_print_device = record {
    print_ctrl1 = some (print_pma_ctrl1 c);
    print_stat1 = some (print_pma_stat1 c);
    print_speed = some (print_pma_speed c);
    print_extra = some print_pma_extra;
  }

  abbrev pub pcs_print_device : MmdPrintDevice
  pcs_print_device = record {
    print_ctrl1 = some (print_pcs_ctrl1 c);
    print_stat1 = some (print_pcs_stat1 c);
    print_speed = some (print_pcs_speed c);
    print_extra = some print_pcs_extra;
  }

  abbrev pub an_print_device : MmdPrintDevice
  an_print_device = record {
    print_ctrl1 = some (print_an_ctrl1 c);
    print_stat1 = some (print_an_stat1 c);
    print_speed = none;
    print_extra = none;
  }

  abbrev pub null_print_device : MmdPrintDevice
  null_print_device = record {
    print_ctrl1 = none;
    print_stat1 = none;
    print_speed = none;
    print_extra = none;
  }

  -- The choice of mmd_exec_status, by the device part of the PHY id
  unfoldable pub print_device_of : ℕ → MmdPrintDevice
  print_device_of id =
      let devad = c.field_get (c.value mdio_phy_id_devad) id in
      if devad == c.value mdio_mmd_pmapmd
      then pma_print_device
      else if devad == c.value mdio_mmd_pcs
      then pcs_print_device
      else if devad == c.value mdio_mmd_an
      then an_print_device
      else null_print_device

  -- What phy_status_cb prints; a refused reply prints nothing.
  unfoldable pub phy_status_out : List ℕ → List Piece
  phy_status_out data' =
      if not (length data' == 5)
      then []
      else if (get_or data' 2 0 == 0xffff) && (get_or data' 3 0 == 0xffff)
      then []
      else print_phy_bmcr c (word data' 0)
        ++ (nl ∷ print_phy_bmsr c (word data' 1)
            ++ (nl ∷ print_phy_id c (word data' 2) (word data' 3)
                ++ (if has (get_or data' 1 0) (c.value bmsr_estaten)
                    then nl ∷ print_phy_estatus c (word data' 4)
                    else [])))

  -- What mva_status_cb prints
  unfoldable pub mva_status_out : List ℕ → List Piece
  mva_status_out data' =
      if not (length data' == 5)
      then []
      else if (get_or data' 2 0 == 0xffff) && (get_or data' 3 0 == 0xffff)
      then []
      else print_phy_bmcr c (word data' 0)
        ++ (nl ∷ print_phy_bmsr c (word data' 1)
            ++ (nl ∷ print_phy_id c (word data' 2) (word data' 3)
                ++ (say "Current page: "
                    ∷ shown (dec (bit_and (get_or data' 4 0) 0xff))
                    ∷ nl
                    ∷ [])))

  -- What mmd_status_cb prints
  unfoldable pub mmd_status_out : MmdPrintDevice → List ℕ → List Piece
  mmd_status_out dev data' =
      if not (length data' == 16)
      then []
      else if ((get_or data' 2 0 == 0xffff) && (get_or data' 3 0 == 0xffff))
          || ((get_or data' 2 0 == 0) && (get_or data' 3 0 == 0))
      then []
      else print_optional dev.print_ctrl1 (word data' 0) (
          print_optional dev.print_stat1 (word data' 1) (
            print_mmd_devid c (word data' 2) (word data' 3)
            ++ (nl
                ∷ print_optional dev.print_speed (word data' 4) (
                    print_mmd_devs c (word data' 6) (word data' 5)
                    ++ (nl
                        ∷ print_optional dev.print_extra data'
                            (print_mmd_pkgid c (word data' 14) (word data' 15)))))))

  -- The loop of bus_status_cb, over so many devices from `dev` on.
  unfoldable pub bus_rows : ℕ → ℕ → List ℕ → List Piece
  bus_rows zero dev data' = []
  bus_rows (suc n) dev data' =
      let rest = bus_rows n (dev + 1) data' in
      let stat = get_or data' (dev * 3) 0 in
      let hi = get_or data' (dev * 3 + 1) 0 in
      let lo = get_or data' (dev * 3 + 2) 0 in
      if (hi == 0xffff) && (lo == 0xffff)
      then rest
      else say "0x"
        ∷ shown (hex_pad 2 dev)
        ∷ say "  0x"
        ∷ shown (hex_pad 8 (u32 (bit_or (hi * 65536) lo)))
        ∷ say "  "
        ∷ shown (if has stat (c.value bmsr_lstatus) then codes "up" else codes "down")
        ∷ nl
        ∷ rest

  -- What bus_status_cb prints
  unfoldable pub bus_status_out : List ℕ → List Piece
  bus_status_out data' =
      if not (length data' == mdio_dev_max * 3)
      then []
      else say "\u{1b}[7m DEV      PHY-ID  LINK\u{1b}[0m\n" ∷ bus_rows mdio_dev_max 0 data'
