-- ===== src/Tool/Status/Registers/Printed.antt =====
-- src/mdio/print-phy.c: the status command prints the flags of an MMD's registers.
use mdio_tools.Prelude.{
  ℕ, ◌==◌, ◌*◌, ltb, if◌then◌else◌, false, ◌&&◌, ◌||◌, not, ◌≡◌, refl, ap, ◌∙◌, List, [], ◌∷◌, ◌++◌,
  inl, inr, Bool-cases, bit_and, bit_or, u32, get_or, length, append-nil,
}
use mdio_tools.Tool.Args.{codes}
use mdio_tools.Tool.Status.{
  Linux, Piece, puts, flag, shown, wild, has, bit, render, type_name, mdio_phy_id_devad,
  mdio_mmd_pmapmd, mdio_mmd_pcs, mdio_mmd_an, mdio_pma_stat2_extable, mdio_stat2_devprst,
  mdio_stat2_devprst_val, mdio_pma_ctrl2_type, mdio_pcs_ctrl2_type, mdio_pma_stat2_extable,
}
use mdio_tools.Tool.Status.Types.{pma_size, pcs_size}
use mdio_tools.Tool.Status.Phy.{
  print_mmd_devid, print_mmd_pkgid, print_mmd_devs, print_mmd_stat2_flags,
}
use mdio_tools.Tool.Status.Pma.{
  print_pma_ctrl1, print_pma_stat1, print_pma_speed, print_pma_ctrl2, print_pma_stat2,
  print_pma_extable,
}
use mdio_tools.Tool.Status.Pcs.{
  print_pcs_ctrl1, print_pcs_stat1, print_pcs_speed, print_pcs_ctrl2, print_pcs_stat2,
  print_an_ctrl1, print_an_stat1,
}
use mdio_tools.Tool.Status.Devices.{
  pma_print_device, pcs_print_device, an_print_device, null_print_device, word, nl, print_optional,
  print_device_of, print_pma_extra, print_pcs_extra, mmd_status_out,
}
use mdio_tools.Tool.Status.Reading.{Flag, read_flags, flags_of, IsReadable-flags}
use mdio_tools.Tool.Status.Outputs.{Tables, mmd_status_out-IsReadable}
use mdio_tools.Tool.Status.Registers.{
  Mask, named, numbered, device, Table, pma_ctrl1_table, pma_stat1_table, pma_speed_table,
  pma_ctrl2_table, pma_stat2_table, pma_extable_table, pcs_ctrl1_table, pcs_stat1_table,
  pcs_speed_table, pcs_stat2_table, an_ctrl1_table, an_stat1_table, mmd_devs_table, mmd_stat2_table,
}

flags_of-append : (ps qs : List Piece) → flags_of (ps ++ qs) ≡ flags_of ps ++ flags_of qs
unfolding flags_of
flags_of-append [] qs = refl
flags_of-append (puts t ∷ ps) qs = flags_of-append ps qs
flags_of-append (flag name on sep ∷ ps) qs =
    ap (λ (l : List Flag). (name, on) ∷ l) (flags_of-append ps qs)
flags_of-append (shown t ∷ ps) qs = flags_of-append ps qs
flags_of-append (wild ∷ ps) qs = flags_of-append ps qs

module _ (c : Linux) where
  abbrev mask_of : Mask → ℕ
  mask_of (named b) = c.value b
  mask_of (numbered n) = bit n
  mask_of (device n) = c.devs_present n

  -- The flags of a register's value
  abbrev pub table_flags : Table → ℕ → List Flag
  table_flags [] val = []
  table_flags ((name, mask) ∷ table) val =
      (codes name, has val (mask_of mask)) ∷ table_flags table val

  -- The device is there if the field has the value that says so.
  abbrev pub stat2_flags : ℕ → List Flag
  stat2_flags val =
      (codes "present", bit_and val (c.value mdio_stat2_devprst) == c.value mdio_stat2_devprst_val)
      ∷ table_flags mmd_stat2_table val

  abbrev pub devs_flags : List ℕ → List Flag
  devs_flags data' = table_flags mmd_devs_table (u32 (bit_or (word data' 6 * 65536) (word data' 5)))

  -- The flags of an MMD, by the contents of its registers 0, 1, 4, 5, 6, 7, 8 and 11.
  abbrev pub pma_flags : List ℕ → List Flag
  pma_flags data' =
      table_flags pma_ctrl1_table (word data' 0)
      ++ (table_flags pma_stat1_table (word data' 1)
          ++ (table_flags pma_speed_table (word data' 4)
              ++ (devs_flags data'
                  ++ (table_flags pma_ctrl2_table (word data' 7)
                      ++ ((table_flags pma_stat2_table (word data' 8) ++ stat2_flags (word data' 8))
                          ++ (if has (get_or data' 8 0) (c.value mdio_pma_stat2_extable)
                              then table_flags pma_extable_table (word data' 11)
                              else []))))))

  abbrev pub pcs_flags : List ℕ → List Flag
  pcs_flags data' =
      table_flags pcs_ctrl1_table (word data' 0)
      ++ (table_flags pcs_stat1_table (word data' 1)
          ++ (table_flags pcs_speed_table (word data' 4)
              ++ (devs_flags data'
                  ++ (table_flags pcs_stat2_table (word data' 8) ++ stat2_flags (word data' 8)))))

  abbrev pub an_flags : List ℕ → List Flag
  an_flags data' =
      table_flags an_ctrl1_table (word data' 0)
      ++ (table_flags an_stat1_table (word data' 1) ++ devs_flags data')

  abbrev pub mmd_flags : ℕ → List ℕ → List Flag
  mmd_flags id data' =
      let devad = c.field_get (c.value mdio_phy_id_devad) id in
      if devad == c.value mdio_mmd_pmapmd
      then pma_flags data'
      else if devad == c.value mdio_mmd_pcs
      then pcs_flags data'
      else if devad == c.value mdio_mmd_an
      then an_flags data'
      else devs_flags data'

  pma_ctrl1_is : (val : ℕ) → flags_of (print_pma_ctrl1 c val) ≡ table_flags pma_ctrl1_table val
  unfolding flags_of print_pma_ctrl1
  pma_ctrl1_is val = refl

  pma_stat1_is : (val : ℕ) → flags_of (print_pma_stat1 c val) ≡ table_flags pma_stat1_table val
  unfolding flags_of print_pma_stat1
  pma_stat1_is val = refl

  pma_speed_is : (val : ℕ) → flags_of (print_pma_speed c val) ≡ table_flags pma_speed_table val
  unfolding flags_of print_pma_speed
  pma_speed_is val = refl

  pma_extable_is :
      (val : ℕ) → flags_of (print_pma_extable c val) ≡ table_flags pma_extable_table val
  unfolding flags_of print_pma_extable
  pma_extable_is val = refl

  pcs_ctrl1_is : (val : ℕ) → flags_of (print_pcs_ctrl1 c val) ≡ table_flags pcs_ctrl1_table val
  unfolding flags_of print_pcs_ctrl1
  pcs_ctrl1_is val = refl

  pcs_stat1_is : (val : ℕ) → flags_of (print_pcs_stat1 c val) ≡ table_flags pcs_stat1_table val
  unfolding flags_of print_pcs_stat1
  pcs_stat1_is val = refl

  pcs_speed_is : (val : ℕ) → flags_of (print_pcs_speed c val) ≡ table_flags pcs_speed_table val
  unfolding flags_of print_pcs_speed
  pcs_speed_is val = refl

  an_ctrl1_is : (val : ℕ) → flags_of (print_an_ctrl1 c val) ≡ table_flags an_ctrl1_table val
  unfolding flags_of print_an_ctrl1
  an_ctrl1_is val = refl

  an_stat1_is : (val : ℕ) → flags_of (print_an_stat1 c val) ≡ table_flags an_stat1_table val
  unfolding flags_of print_an_stat1
  an_stat1_is val = refl

  pma_stat2_is :
      (val : ℕ)
      → flags_of (print_pma_stat2 c val) ≡ table_flags pma_stat2_table val ++ stat2_flags val
  unfolding flags_of print_pma_stat2 print_mmd_stat2_flags
  pma_stat2_is val = refl

  pcs_stat2_is :
      (val : ℕ)
      → flags_of (print_pcs_stat2 c val) ≡ table_flags pcs_stat2_table val ++ stat2_flags val
  unfolding flags_of print_pcs_stat2 print_mmd_stat2_flags
  pcs_stat2_is val = refl

  devs_is :
      (data' : List ℕ)
      → flags_of (print_mmd_devs c (word data' 6) (word data' 5)) ≡ devs_flags data'
  unfolding flags_of print_mmd_devs
  devs_is data' = refl

  devid_is : (hi lo : ℕ) → flags_of (print_mmd_devid c hi lo) ≡ []
  unfolding flags_of print_mmd_devid
  devid_is hi lo = refl

  pkgid_is : (hi lo : ℕ) → flags_of (print_mmd_pkgid c hi lo) ≡ []
  unfolding flags_of print_mmd_pkgid
  pkgid_is hi lo = refl

  pma_ctrl2_is : (val : ℕ) → flags_of (print_pma_ctrl2 c val) ≡ table_flags pma_ctrl2_table val
  unfolding flags_of print_pma_ctrl2 type_name
  pma_ctrl2_is val =
      elim (Bool-cases (ltb (c.field_get (c.value mdio_pma_ctrl2_type) val) pma_size)) [
        | inl e ↦ rw e
        | inr e ↦ rw e
      ]

  pcs_ctrl2_is : (val : ℕ) → flags_of (print_pcs_ctrl2 c val) ≡ []
  unfolding flags_of print_pcs_ctrl2 type_name
  pcs_ctrl2_is val =
      elim (Bool-cases (ltb (c.field_get (c.value mdio_pcs_ctrl2_type) val) pcs_size)) [
        | inl e ↦ rw e
        | inr e ↦ rw e
      ]

  -- A printer, a new line and more
  line_is :
      (ps qs : List Piece) {fs gs : List Flag}
      → flags_of ps ≡ fs
      → flags_of qs ≡ gs
      → flags_of (ps ++ (nl ∷ qs)) ≡ fs ++ gs
  unfolding flags_of
  line_is ps qs p q = flags_of-append ps (nl ∷ qs) ∙ (rw (p, q))

  end_is : (ps : List Piece) {fs : List Flag} → flags_of ps ≡ fs → flags_of (ps ++ []) ≡ fs ++ []
  unfolding flags_of
  end_is ps p = flags_of-append ps [] ∙ ap (λ (l : List Flag). l ++ []) p

  pma_extra_is :
      (data' : List ℕ)
      → flags_of (print_pma_extra c data')
        ≡ table_flags pma_ctrl2_table (word data' 7)
          ++ ((table_flags pma_stat2_table (word data' 8) ++ stat2_flags (word data' 8))
              ++ (if has (get_or data' 8 0) (c.value mdio_pma_stat2_extable)
                  then table_flags pma_extable_table (word data' 11)
                  else []))
  unfolding print_pma_extra
  pma_extra_is data' =
      let s2 = print_pma_stat2 c (word data' 8) in
      line_is _ _ (pma_ctrl2_is (word data' 7))
        (elim (Bool-cases (has (get_or data' 8 0) (c.value mdio_pma_stat2_extable))) [
          | inl e ↦
              rw e (line_is s2 _ (pma_stat2_is (word data' 8)) (pma_extable_is (word data' 11)))
          | inr e ↦ rw e (end_is s2 (pma_stat2_is (word data' 8)))
        ])

  pcs_extra_is :
      (data' : List ℕ)
      → flags_of (print_pcs_extra c data')
        ≡ table_flags pcs_stat2_table (word data' 8) ++ stat2_flags (word data' 8)
  unfolding print_pcs_extra
  pcs_extra_is data' = line_is _ _ (pcs_ctrl2_is (word data' 7)) (pcs_stat2_is (word data' 8))

  -- The parts that all MMDs have
  devs_part :
      (data' : List ℕ) (rest : List Piece) {gs : List Flag}
      → flags_of rest ≡ gs
      → flags_of (print_mmd_devs c (word data' 6) (word data' 5) ++ (nl ∷ rest))
        ≡ devs_flags data' ++ gs
  devs_part data' rest h = line_is _ rest (devs_is data') h

  devid_part :
      (data' : List ℕ) (rest : List Piece) {gs : List Flag}
      → flags_of rest ≡ gs
      → flags_of (print_mmd_devid c (word data' 2) (word data' 3) ++ (nl ∷ rest)) ≡ gs
  devid_part data' rest h = line_is _ rest (devid_is (word data' 2) (word data' 3)) h

  module _ (data' : List ℕ) (len : length data' ≡ 16)
      (there : (((get_or data' 2 0 == 0xffff) && (get_or data' 3 0 == 0xffff))
          || ((get_or data' 2 0 == 0) && (get_or data' 3 0 == 0)))
        ≡ false) where
    whole : not (length data' == 16) ≡ false
    whole = rw len

    pkgid : List Piece
    pkgid = print_mmd_pkgid c (word data' 14) (word data' 15)

    pma_is : flags_of (mmd_status_out c (pma_print_device c) data') ≡ pma_flags data'
    unfolding mmd_status_out print_optional pkgid
    pma_is =
        rw (whole, there)
          (line_is _ _ (pma_ctrl1_is (word data' 0)) (
            line_is _ _ (pma_stat1_is (word data' 1)) (
              devid_part data' _ (
                line_is _ _ (pma_speed_is (word data' 4)) (
                  devs_part data' _ (
                    line_is _ pkgid (pma_extra_is data') (pkgid_is (word data' 14) (word data' 15))
                    ∙ append-nil _))))))

    pcs_is : flags_of (mmd_status_out c (pcs_print_device c) data') ≡ pcs_flags data'
    unfolding mmd_status_out print_optional pkgid
    pcs_is =
        rw (whole, there)
          (line_is _ _ (pcs_ctrl1_is (word data' 0)) (
            line_is _ _ (pcs_stat1_is (word data' 1)) (
              devid_part data' _ (
                line_is _ _ (pcs_speed_is (word data' 4)) (
                  devs_part data' _ (
                    line_is _ pkgid (pcs_extra_is data') (pkgid_is (word data' 14) (word data' 15))
                    ∙ append-nil _))))))

    an_is : flags_of (mmd_status_out c (an_print_device c) data') ≡ an_flags data'
    unfolding mmd_status_out print_optional pkgid
    an_is =
        rw (whole, there)
          (line_is _ _ (an_ctrl1_is (word data' 0)) (
            line_is _ _ (an_stat1_is (word data' 1)) (
              devid_part data' _
                (devs_part data' _ (pkgid_is (word data' 14) (word data' 15)) ∙ append-nil _))))

    null_is : flags_of (mmd_status_out c (null_print_device c) data') ≡ devs_flags data'
    unfolding mmd_status_out print_optional pkgid
    null_is =
        rw (whole, there)
          (devid_part data' _
            (devs_part data' _ (pkgid_is (word data' 14) (word data' 15)) ∙ append-nil _))

    kind_is :
        (id : ℕ) → flags_of (mmd_status_out c (print_device_of c id) data') ≡ mmd_flags id data'
    unfolding print_device_of
    kind_is id =
        let devad = c.field_get (c.value mdio_phy_id_devad) id in
        elim (Bool-cases (devad == c.value mdio_mmd_pmapmd)) [
          | inl e ↦ rw e pma_is
          | inr e ↦ elim (Bool-cases (devad == c.value mdio_mmd_pcs)) [
            | inl e' ↦ rw (e, e') pcs_is
            | inr e' ↦ elim (Bool-cases (devad == c.value mdio_mmd_an)) [
              | inl e'' ↦ rw (e, e', e'') an_is
              | inr e'' ↦ rw (e, e', e'') null_is
            ]
          ]
        ]

    -- If FIELD_GET gives no more than its mask, and the masks of the PMA and PCS types are below the lengths
    -- of the tables of names, then for every reply of an MMD that answers, what `status` prints, read back
    -- by the labels and the marks of the flags, gives exactly the flags of the registers that are
    -- printed for its kind, which are PMA, PCS, AN or another, in order, each under its name and with its
    -- value.
    pub mmd_status_out-flags :
        Tables c
        → (id : ℕ)
        → read_flags (render (mmd_status_out c (print_device_of c id) data')) ≡ mmd_flags id data'
    mmd_status_out-flags tables id =
        IsReadable-flags _ (mmd_status_out-IsReadable c tables data' id) ∙ kind_is id
