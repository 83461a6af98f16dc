-- ===== src/Tool/Status/Outputs.antt =====
-- src/mdio/phy.c and print-phy.c: what the status commands print, read back.
use Prim.Native.String.{String}
use mdio_tools.Prelude.{
  ℕ, ◌<◌, ◌≤◌, ◌==◌, if◌then◌else◌, Bool, true, false, ◌&&◌, ◌≡◌, refl, ap, ◌∙◌, arith, Option,
  none, some, List, [], ◌∷◌, ◌++◌, inl, inr, Bool-cases, u16,
}
use mdio_tools.Tool.Args.{codes}
use mdio_tools.Tool.Status.{
  Linux, Bits, Piece, has, bmcr_reset, bmcr_loopback, bmcr_anenable, bmcr_pdown, bmcr_isolate,
  bmcr_anrestart, bmcr_ctst, bmsr_100base4, bmsr_100full, bmsr_100half, bmsr_10full, bmsr_10half,
  bmsr_100full2, bmsr_100half2, bmsr_estaten, bmsr_anegcomplete, bmsr_rfault, bmsr_anegcapable,
  bmsr_lstatus, bmsr_jcd, bmsr_ercap, estatus_1000_xfull, estatus_1000_xhalf, estatus_1000_tfull,
  estatus_1000_thalf, mdio_pma_ctrl2_type, mdio_pcs_ctrl2_type, render,
}
use mdio_tools.Tool.Status.Types.{pma_size, pcs_size}
use mdio_tools.Tool.Status.Phy.{print_phy_bmcr, print_phy_bmsr, print_phy_id, print_phy_estatus}
use mdio_tools.Tool.Status.Devices.{
  MmdPrintDevice, pma_print_device, pcs_print_device, an_print_device, null_print_device, word, nl,
  print_optional, print_device_of, print_pma_extra, print_pcs_extra, phy_status_out, mmd_status_out,
}
use mdio_tools.Tool.Status.Reading.{
  Flag, read_flags, flags_of, IsReadable, IsReadable-flags, tidy-IsReadable, nil-IsReadable,
  append-IsReadable, tidy, after, read_from, shown_of,
}
use mdio_tools.Tool.Status.Readable.{
  phy_bmcr-IsReadable, phy_bmsr-IsReadable, phy_id-IsReadable, phy_estatus-IsReadable,
  mmd_devid-IsReadable, mmd_pkgid-IsReadable, mmd_devs-IsReadable, pma_ctrl1-IsReadable,
  pma_stat1-IsReadable, pma_speed-IsReadable, pma_ctrl2-IsReadable, pma_stat2-IsReadable,
  pma_extable-IsReadable, pcs_ctrl1-IsReadable, pcs_stat1-IsReadable, pcs_speed-IsReadable,
  pcs_ctrl2-IsReadable, pcs_stat2-IsReadable, an_ctrl1-IsReadable, an_stat1-IsReadable,
}

nl-IsReadable : IsReadable (nl ∷ [])
unfolding tidy after read_from shown_of
nl-IsReadable = tidy-IsReadable (nl ∷ []) refl refl tt

-- A printer, a new line, and more.
then_line : (ps qs : List Piece) → IsReadable ps → IsReadable qs → IsReadable (ps ++ (nl ∷ qs))
then_line ps qs h k =
    append-IsReadable ps (nl ∷ qs) h (append-IsReadable (nl ∷ []) qs nl-IsReadable k)

if-IsReadable :
    (b : Bool) (ps qs : List Piece)
    → IsReadable ps
    → IsReadable qs
    → IsReadable (if b then ps else qs)
if-IsReadable true ps qs h k = h
if-IsReadable false ps qs h k = k

-- The flags of the registers 0, 1 and 15 of a PHY, by name.
abbrev Table : Type 0
Table = List (String × Bits)

abbrev bmcr_table : Table
bmcr_table =
    ("reset", bmcr_reset)
    ∷ ("loopback", bmcr_loopback)
    ∷ ("aneg-enable", bmcr_anenable)
    ∷ ("power-down", bmcr_pdown)
    ∷ ("isolate", bmcr_isolate)
    ∷ ("aneg-restart", bmcr_anrestart)
    ∷ ("collision-test", bmcr_ctst)
    ∷ []

abbrev bmsr_table : Table
bmsr_table =
    ("100-t4", bmsr_100base4)
    ∷ ("100-tx-f", bmsr_100full)
    ∷ ("100-tx-h", bmsr_100half)
    ∷ ("10-t-f", bmsr_10full)
    ∷ ("10-t-h", bmsr_10half)
    ∷ ("100-t2-f", bmsr_100full2)
    ∷ ("100-t2-h", bmsr_100half2)
    ∷ ("ext-status", bmsr_estaten)
    ∷ ("aneg-complete", bmsr_anegcomplete)
    ∷ ("remote-fault", bmsr_rfault)
    ∷ ("aneg-capable", bmsr_anegcapable)
    ∷ ("link", bmsr_lstatus)
    ∷ ("jabber", bmsr_jcd)
    ∷ ("ext-register", bmsr_ercap)
    ∷ []

abbrev estatus_table : Table
estatus_table =
    ("1000-x-f", estatus_1000_xfull)
    ∷ ("1000-x-h", estatus_1000_xhalf)
    ∷ ("1000-t-f", estatus_1000_tfull)
    ∷ ("1000-t-h", estatus_1000_thalf)
    ∷ []

module _ (c : Linux) where
  -- The flags of a register's value
  abbrev pub register_flags : Table → ℕ → List Flag
  register_flags [] val = []
  register_flags ((name, b) ∷ table) val =
      (codes name, has val (c.value b)) ∷ register_flags table val

  estatus_part : ℕ → ℕ → List Piece
  estatus_part d1 d4 =
      if has d1 (c.value bmsr_estaten) then nl ∷ print_phy_estatus c (u16 d4) else []

  estatus_part-flags :
      (d1 d4 : ℕ)
      → flags_of (estatus_part d1 d4)
        ≡ (if has d1 (c.value bmsr_estaten) then register_flags estatus_table (u16 d4) else [])
  unfolding estatus_part flags_of print_phy_estatus
  estatus_part-flags d1 d4 = elim (Bool-cases (has d1 (c.value bmsr_estaten))) [
    | inl e ↦ rw e
    | inr e ↦ rw e
  ]

  phy_flags :
      (b0 b1 hi lo : ℕ) (rest : List Piece)
      → flags_of
          (print_phy_bmcr c b0 ++ (nl ∷ print_phy_bmsr c b1 ++ (nl ∷ print_phy_id c hi lo ++ rest)))
        ≡ register_flags bmcr_table b0 ++ (register_flags bmsr_table b1 ++ flags_of rest)
  unfolding flags_of print_phy_bmcr print_phy_bmsr print_phy_id
  phy_flags b0 b1 hi lo rest = refl

  estatus_part-IsReadable : (d1 d4 : ℕ) → IsReadable (estatus_part d1 d4)
  unfolding estatus_part
  estatus_part-IsReadable d1 d4 =
      if-IsReadable (has d1 (c.value bmsr_estaten)) (nl ∷ print_phy_estatus c (u16 d4)) []
        (then_line [] (print_phy_estatus c (u16 d4)) nil-IsReadable
          (phy_estatus-IsReadable c (u16 d4)))
        nil-IsReadable

  -- If a PHY answers, that is, if the id registers do not both read as 0xffff, then what `status` prints,
  -- read back by the labels and the marks of the flags, gives each flag of the registers 0 and 1,
  -- and of register 15 if register 1 announces it, under its name and with its value.
  pub phy_status_out-flags :
      (d0 d1 d2 d3 d4 : ℕ)
      → ((d2 == 0xffff) && (d3 == 0xffff)) ≡ false
      → read_flags (render (phy_status_out c (d0 ∷ d1 ∷ d2 ∷ d3 ∷ d4 ∷ [])))
        ≡ register_flags bmcr_table (u16 d0)
          ++ (register_flags bmsr_table (u16 d1)
              ++ (if has d1 (c.value bmsr_estaten)
                  then register_flags estatus_table (u16 d4)
                  else []))
  unfolding phy_status_out estatus_part
  phy_status_out-flags d0 d1 d2 d3 d4 e =
      let b0 = u16 d0 in
      let b1 = u16 d1 in
      let rest = estatus_part d1 d4 in
      let id = print_phy_id c (u16 d2) (u16 d3) in
      let readable =
        then_line (print_phy_bmcr c b0) (print_phy_bmsr c b1 ++ (nl ∷ id ++ rest))
          (phy_bmcr-IsReadable c b0)
          (then_line (print_phy_bmsr c b1) (id ++ rest) (phy_bmsr-IsReadable c b1) (
            append-IsReadable id rest (phy_id-IsReadable c (u16 d2) (u16 d3))
              (estatus_part-IsReadable d1 d4))) in
      rw e (
        IsReadable-flags _ readable
        ∙ (phy_flags b0 b1 (u16 d2) (u16 d3) rest
            ∙ ap
                (λ (fs : List Flag).
                  register_flags bmcr_table b0 ++ (register_flags bmsr_table b1 ++ fs))
                (estatus_part-flags d1 d4)))

-- A printer that may be missing is readable, where it is there.
abbrev Reads : {A : Type 0} → Option (A → List Piece) → A → Type 0
Reads none a = Unit
Reads (some print) a = IsReadable (print a)

print_optional-IsReadable :
    {A : Type 0} (o : Option (A → List Piece)) (a : A) (rest : List Piece)
    → Reads o a
    → IsReadable rest
    → IsReadable (print_optional o a rest)
unfolding print_optional
print_optional-IsReadable none a rest h k = k
print_optional-IsReadable (some print) a rest h k = then_line (print a) rest h k

-- The printers of a device are readable on this reply.
record DeviceReads (dev : MmdPrintDevice) (data' : List ℕ) : Type 0 where
  ctrl1 : Reads dev.print_ctrl1 (word data' 0)
  stat1 : Reads dev.print_stat1 (word data' 1)
  speed : Reads dev.print_speed (word data' 4)
  extra : Reads dev.print_extra data'

-- Where FIELD_GET gives no more than the mask, and the masks of the two types lie within the tables.
pub record Tables (c : Linux) : Type 0 where
  pub field_fits : (mask val : ℕ) → c.field_get mask val ≤ mask
  pub pma_fits : c.value mdio_pma_ctrl2_type < pma_size
  pub pcs_fits : c.value mdio_pcs_ctrl2_type < pcs_size

module _ (c : Linux) (tables : Tables c) (data' : List ℕ) where
  pma_extra-IsReadable : IsReadable (print_pma_extra c data')
  unfolding print_pma_extra
  pma_extra-IsReadable =
      let fits = tables.field_fits (c.value mdio_pma_ctrl2_type) (word data' 7) in
      then_line _ _ (pma_ctrl2-IsReadable c (word data' 7) (omega (arith, fits, tables.pma_fits))) (
        append-IsReadable _ _ (pma_stat2-IsReadable c (word data' 8)) (
          if-IsReadable _ _ _
            (then_line [] _ nil-IsReadable (pma_extable-IsReadable c (word data' 11)))
            nil-IsReadable))

  pcs_extra-IsReadable : IsReadable (print_pcs_extra c data')
  unfolding print_pcs_extra
  pcs_extra-IsReadable =
      let fits = tables.field_fits (c.value mdio_pcs_ctrl2_type) (word data' 7) in
      then_line _ _ (pcs_ctrl2-IsReadable c (word data' 7) (omega (arith, fits, tables.pcs_fits)))
        (pcs_stat2-IsReadable c (word data' 8))

  either_reads :
      (b : Bool) (d e : MmdPrintDevice)
      → DeviceReads d data'
      → DeviceReads e data'
      → DeviceReads (if b then d else e) data'
  either_reads true d e h k = h
  either_reads false d e h k = k

  device_reads : (id : ℕ) → DeviceReads (print_device_of c id) data'
  unfolding print_device_of
  device_reads id =
      let a = word data' 0 in
      let b = word data' 1 in
      let s = word data' 4 in
      either_reads _ (pma_print_device c) _
        (record {
          ctrl1 = pma_ctrl1-IsReadable c a;
          stat1 = pma_stat1-IsReadable c b;
          speed = pma_speed-IsReadable c s;
          extra = pma_extra-IsReadable;
        })
        (either_reads _ (pcs_print_device c) _
          (record {
            ctrl1 = pcs_ctrl1-IsReadable c a;
            stat1 = pcs_stat1-IsReadable c b;
            speed = pcs_speed-IsReadable c s;
            extra = pcs_extra-IsReadable;
          })
          (either_reads _ (an_print_device c) (null_print_device c)
            (record {
              ctrl1 = an_ctrl1-IsReadable c a;
              stat1 = an_stat1-IsReadable c b;
              speed = tt;
              extra = tt;
            })
            (record { ctrl1 = tt; stat1 = tt; speed = tt; extra = tt })))

  mmd_body-IsReadable :
      (dev : MmdPrintDevice) → DeviceReads dev data' → IsReadable (mmd_status_out c dev data')
  unfolding mmd_status_out
  mmd_body-IsReadable dev r = if-IsReadable _ [] _ nil-IsReadable (
      if-IsReadable _ [] _ nil-IsReadable (
        print_optional-IsReadable dev.print_ctrl1 _ _ r.ctrl1 (
          print_optional-IsReadable dev.print_stat1 _ _ r.stat1 (
            then_line _ _ (mmd_devid-IsReadable c _ _) (
              print_optional-IsReadable dev.print_speed _ _ r.speed (
                then_line _ _ (mmd_devs-IsReadable c _ _) (
                  print_optional-IsReadable dev.print_extra _ _ r.extra
                    (mmd_pkgid-IsReadable c _ _))))))))

  -- Whatever the status command prints for an MMD can be read back.
  pub mmd_status_out-IsReadable :
      (id : ℕ) → IsReadable (mmd_status_out c (print_device_of c id) data')
  mmd_status_out-IsReadable id = mmd_body-IsReadable (print_device_of c id) (device_reads id)
