-- ===== src/Tool/Parse/Bounds.antt =====
-- src/mdio/mdio.c: what the parsers of registers and values accept lies within the device's limits.
use mdio_tools.Prelude.{
  none, ◌^◌, ◌-◌, ℕ, ◌≤◌, ltb, ◌==◌, Bool, Bool-cases, true, false, [], ◌∷◌, ◌≡◌, ◌⊎◌, inl, inr,
  refl, ap, subst, arith, u32,
}
use mathlib.Core.Bool.{true≢false}
use mdio_tools.Tool.Args.{Text, Argv, argv_pop, Result, ok, err, Libc}
use mdio_tools.Tool.Device.{RegRange, Device}
use mdio_tools.Tool.Parse.{
  range_within, range_tail, parse_range, val_within, val_tail, dflt_parse_val, device_parse_val,
}

-- Both ends are registers of the device, and the same one where no range is allowed.
pub record InRange (max : ℕ) (ranged : Bool) (r : RegRange) : Type 0 where
  pub start_fits : r.start ≤ max
  pub end_fits : r.end ≤ max
  pub single : ranged ≡ false → r.start ≡ r.end

List-cases : (l : Text) → (l ≡ []) ⊎ ((a : ℕ) × (rest : Text) × (l ≡ a ∷ rest))
List-cases [] = inl refl
List-cases (a ∷ l) = inr (a, l, refl)

-- A predicate on what a call gives, if it gives anything.
unfoldable OnOk : {A : Type 0} → (A → Type 0) → Result A → Type 0
OnOk P (ok a) = P a
OnOk P (err e) = Unit {0}

u32-le : (max n : ℕ) → ltb max n ≡ false → u32 n ≤ max
u32-le max n h = ground arith

module _ (c : Libc) (max : ℕ) where
  range_within-OnOk :
      (ranged : Bool) (rs re : ℕ)
      → (ranged ≡ false → rs ≡ re)
      → OnOk (InRange max ranged) (range_within c max rs re)
  unfolding range_within OnOk
  range_within-OnOk ranged rs re same = elim (Bool-cases (ltb max rs)) [
    | inl e ↦ rw (range_within, e) tt
    | inr e ↦ elim (Bool-cases (ltb max re)) [
      | inl f ↦ rw (range_within, e, f) tt
      | inr f ↦
          rw (range_within, e, f)
            (record {
              start_fits = u32-le max rs e;
              end_fits = u32-le max re f;
              single = λ h. ap u32 (same h);
            })
    ]
  ]

  range_tail-OnOk :
      (ranged : Bool) (rs base : ℕ) (rest : Text)
      → OnOk (InRange max ranged) (range_tail c max ranged rs base rest)
  unfolding range_tail OnOk
  range_tail-OnOk false rs base rest = tt
  range_tail-OnOk true rs base rest = elim (Bool-cases (c.strtoull rest).2) [
    | inl e ↦ rw (range_tail, e) tt
    | inr e ↦ rw (range_tail, e) (range_within-OnOk true rs _ (λ h. absurd (true≢false h)))
  ]

  parse_range-OnOk :
      (ranged : Bool) (str : Text) → OnOk (InRange max ranged) (parse_range c max ranged str)
  unfolding parse_range OnOk
  parse_range-OnOk ranged str = elim (Bool-cases (c.strtoull str).2) [
    | inl e ↦ rw (parse_range, e) tt
    | inr e ↦ elim (List-cases (c.strtoull str).1) [
      | inl n ↦
          rw (parse_range, e, n)
            (range_within-OnOk ranged (c.strtoull str).0 (c.strtoull str).0 (λ h. refl))
      | inr (a, rest, n) ↦ elim (Bool-cases (a == b'+')) [
        | inl p ↦
            rw (parse_range, e, n, p)
              (range_tail-OnOk ranged (c.strtoull str).0 (c.strtoull str).0 rest)
        | inr p ↦ elim (Bool-cases (a == b'-')) [
          | inl q ↦ rw (parse_range, e, n, p, q) (range_tail-OnOk ranged (c.strtoull str).0 0 rest)
          | inr q ↦ rw (parse_range, e, n, p, q) tt
        ]
      ]
    ]
  ]

  -- Whatever text is given for a register or a range, in any of its forms, both ends of what is accepted are
  -- registers of the device, although the sum of a start and a length may wrap around, and where
  -- no range is allowed they are the same register.
  pub parse_range-InRange :
      (ranged : Bool) (str : Text) (r : RegRange)
      → parse_range c max ranged str ≡ ok r
      → InRange max ranged r
  unfolding OnOk
  parse_range-InRange ranged str r e =
      subst (OnOk (InRange max ranged)) e (parse_range-OnOk ranged str)

-- The value and the mask are below a limit, and there is no mask where none is allowed.
pub record Within (max : ℕ) (masked : Bool) (r : (ℕ × ℕ) × Argv) : Type 0 where
  pub value_fits : r.0.0 ≤ max
  pub mask_fits : r.0.1 ≤ max
  pub no_mask : masked ≡ false → r.0.1 ≡ 0

module _ (c : Libc) (max : ℕ) where
  val_within-OnOk :
      (masked : Bool) (v m : ℕ) (args : Argv)
      → (masked ≡ false → m ≡ 0)
      → OnOk (Within max masked) (val_within c max v m args)
  unfolding val_within OnOk
  val_within-OnOk masked v m args none_given = elim (Bool-cases (ltb max v)) [
    | inl e ↦ rw (val_within, e) tt
    | inr e ↦ elim (Bool-cases (ltb max m)) [
      | inl f ↦ rw (val_within, e, f) tt
      | inr f ↦
          rw (val_within, e, f)
            (record {
              value_fits = u32-le max v e;
              mask_fits = u32-le max m f;
              no_mask = λ h. ap u32 (none_given h);
            })
    ]
  ]

  val_tail-OnOk :
      (masked : Bool) (v : ℕ) (end : Text) (args : Argv)
      → OnOk (Within max masked) (val_tail c max masked v end args)
  unfolding val_tail OnOk
  val_tail-OnOk masked v [] args = val_within-OnOk masked v 0 args (λ h. refl)
  val_tail-OnOk masked v (a ∷ rest) args = elim (Bool-cases (a == b'/')) [
    | inr e ↦ rw (val_tail, e) tt
    | inl e ↦ elim (Bool-cases masked) [
      | inr f ↦ rw (val_tail, e, f) tt
      | inl f ↦ elim (List-cases (c.strtoull rest).1) [
        | inl n ↦
            rw (val_tail, e, f, n)
              (val_within-OnOk true v (c.strtoull rest).0 args (λ h. absurd (true≢false h)))
        | inr (b, more, n) ↦ rw (val_tail, e, f, n) tt
      ]
    ]
  ]

dflt_parse_val-OnOk :
    (c : Libc) (dev : Device) (masked : Bool) (args : Argv)
    → dev.driver.parse_val ≡ none
    → OnOk (Within (2 ^ dev.width - 1) masked) (dflt_parse_val c dev masked args)
unfolding dflt_parse_val OnOk argv_pop
dflt_parse_val-OnOk c dev masked [] own = rw (dflt_parse_val, own) tt
dflt_parse_val-OnOk c dev masked (a ∷ args) own =
    rw (dflt_parse_val, own)
      (val_tail-OnOk c (2 ^ dev.width - 1) masked (c.strtoull a).0 (c.strtoull a).1 args)

-- For a device without a parser of its own, a value and a mask that are accepted are numbers of the device's
-- width, and without leave for a mask there is none.
pub device_parse_val-Within :
    (c : Libc) (dev : Device) (masked : Bool) (args : Argv) (r : (ℕ × ℕ) × Argv)
    → dev.driver.parse_val ≡ none
    → device_parse_val c dev masked args ≡ ok r
    → Within (2 ^ dev.width - 1) masked r
unfolding device_parse_val OnOk
device_parse_val-Within c dev masked args r own e =
    subst (OnOk (Within (2 ^ dev.width - 1) masked)) e
      (rw (device_parse_val, own) (dflt_parse_val-OnOk c dev masked args own))
