-- ===== src/Tool/Main.antt =====
-- src/mdio/main.c and src/mdio/bus.c: the start of the command mdio, from its options to the command
-- that it runs on a bus.
use mdio_tools.Prelude.{
  ℕ, ◌==◌, if◌then◌else◌, not, ◌||◌, Option, none, some, List, [], ◌∷◌, ◌++◌, ◌≡◌, ◌≢◌, refl, ◌⊎◌,
  inl, inr, Option-cases, Bool-cases, true, arith, ap, ◌∙◌, sym, ==_iff, some-injective,
}
use mdio_tools.Tool.Args.{Text, codes, Argv, argv_pop, ok, err, Libc}
use mdio_tools.Tool.Common.{Script}
use mdio_tools.Tool.Bus.{main_object}
use mdio_tools.Tool.Transport.{
  Socket, FamilyRequest, mdio_init, Child, mdio_modprobe, for_each, parse_bus,
}

-- What main calls: getopt, which gives the option characters and the arguments behind them; the socket to
-- generic netlink's controller, and GENL_ID_CTRL; the child process that runs modprobe; and glob on
-- the names below /sys/class/mdio_bus. A query's socket is closed behind it, so the world is as
-- before.
pub record Start (W D : Type 0) : Type 0 where
  pub getopt : Argv → List ℕ × Argv
  pub ctrl : Socket W D FamilyRequest (Option ℕ) ℕ
  pub genl_id_ctrl : ℕ
  pub modprobe : W → Child × W
  pub glob : Text → List Text

-- What main does: it prints a text or an error and exits with a status, lists the buses, or runs a
-- command on a bus, whose every error is the status 1.
pub data Done : Type 0 where
  exits : ℕ → Done
  lists : List Text → Done
  runs : Text → Script → Done

-- The loop over the options, which the first one ends: usage and version.
unfoldable pub options : List ℕ → Option ℕ
options [] = none
options (opt ∷ opts) = if (opt == b'h') || (opt == b'v') then some 0 else some 1

-- bus_list_cb and bus_list
unfoldable pub bus_list_cb : Text → List Text → ℕ × List Text
bus_list_cb bus out = (0, out ++ bus ∷ [])

unfoldable pub bus_list : (Text → List Text) → List Text
unfolding for_each bus_list_cb
bus_list glob = (for_each bus_list_cb (glob (codes "*")) []).1

-- What the first option decides.
options_first :
    (l : List ℕ)
    → ((l ≡ []) × (options l ≡ none))
      ⊎ ((opt : ℕ) × (opts : List ℕ) × (l ≡ opt ∷ opts)
          × ((((opt ≡ b'h') ⊎ (opt ≡ b'v')) × (options l ≡ some 0))
              ⊎ ((opt ≢ b'h') × (opt ≢ b'v') × (options l ≡ some 1))))
unfolding options
options_first [] = inl (refl, refl)
options_first (opt ∷ opts) = inr (
  opt,
  opts,
  refl,
  elim (Bool-cases (opt == b'h')) [
    | inl x ↦ inl (inl ((==_iff opt b'h').0 x), rw x)
    | inr x ↦ elim (Bool-cases (opt == b'v')) [
      | inl y ↦ inl (inr ((==_iff opt b'v').0 y), rw (x, y))
      | inr y ↦ inr (ground arith, ground arith, rw (x, y))
    ]
  ],
)

module _ {W D : Type 0} (c : Libc) (s : Start W D) (fuel : ℕ) where
  -- Behind the start of netlink.
  unfoldable pub main_bus : Argv → Done
  unfolding bus_list
  main_bus args =
      let (arg, rest) = argv_pop args in
      elim arg [
        | none ↦ lists (bus_list s.glob)
        | some a ↦ elim (parse_bus s.glob a) [
          | err _ ↦ exits 1
          | ok bus ↦ runs bus (main_object c rest)
        ]
      ]

  -- Behind a first mdio_init that failed: mdio_modprobe and the second one.
  unfoldable pub main_again : ℕ → Argv → W → Option Done
  unfolding main_bus
  main_again family args w =
      let (child, w') = s.modprobe w in
      if not (mdio_modprobe child == 0)
      then some (exits 1)
      else elim (mdio_init s.ctrl s.genl_id_ctrl fuel family w') [
        | none ↦ none
        | some (e, _) ↦ if e == 0 then some (main_bus args) else some (exits 1)
      ]

  -- From the first mdio_init on.
  unfoldable pub main_netlink : Argv → W → Option Done
  unfolding main_bus main_again
  main_netlink args w = elim (mdio_init s.ctrl s.genl_id_ctrl fuel 0 w) [
    | none ↦ none
    | some (e, family) ↦ if e == 0 then some (main_bus args) else main_again family args w
  ]

  -- main; `none` means that more datagrams came than there was fuel.
  unfoldable pub main : Argv → W → Option Done
  unfolding options main_netlink
  main argv w =
      let (opts, args) = s.getopt argv in
      elim (options opts) [ some status ↦ some (exits status) | none ↦ main_netlink args w ]

  -- mdio_init has returned 0, at once or, after a first failure, behind a modprobe that succeeded.
  pub data Started (w : W) : Type 0 where
    at_once : (family : ℕ) → mdio_init s.ctrl s.genl_id_ctrl fuel 0 w ≡ some (0, family) → Started w
    loaded :
        (e before family : ℕ)
        → mdio_init s.ctrl s.genl_id_ctrl fuel 0 w ≡ some (e, before)
        → e ≢ 0
        → mdio_modprobe (s.modprobe w).0 ≡ 0
        → mdio_init s.ctrl s.genl_id_ctrl fuel before (s.modprobe w).1 ≡ some (0, family)
        → Started w

  -- mdio_init has returned an error, and then mdio_modprobe or, behind it, mdio_init once more.
  pub data Failed (w : W) : Type 0 where
    not_loaded :
        (e before : ℕ)
        → mdio_init s.ctrl s.genl_id_ctrl fuel 0 w ≡ some (e, before)
        → e ≢ 0
        → mdio_modprobe (s.modprobe w).0 ≢ 0
        → Failed w
    not_started :
        (e e' before family : ℕ)
        → mdio_init s.ctrl s.genl_id_ctrl fuel 0 w ≡ some (e, before)
        → e ≢ 0
        → mdio_modprobe (s.modprobe w).0 ≡ 0
        → mdio_init s.ctrl s.genl_id_ctrl fuel before (s.modprobe w).1 ≡ some (e', family)
        → e' ≢ 0
        → Failed w

  -- How main ends: by a first option, which is `h` or `v`, or is another one, or behind the options.
  pub data MainEnds (argv : Argv) (w : W) (d : Done) : Type 0 where
    told :
        (opt : ℕ) (opts : List ℕ)
        → (s.getopt argv).0 ≡ opt ∷ opts
        → (opt ≡ b'h') ⊎ (opt ≡ b'v')
        → d ≡ exits 0
        → MainEnds argv w d
    misused :
        (opt : ℕ) (opts : List ℕ)
        → (s.getopt argv).0 ≡ opt ∷ opts
        → opt ≢ b'h'
        → opt ≢ b'v'
        → d ≡ exits 1
        → MainEnds argv w d
    gives_up : (s.getopt argv).0 ≡ [] → Failed w → d ≡ exits 1 → MainEnds argv w d
    goes_on :
        (s.getopt argv).0 ≡ [] → Started w → d ≡ main_bus (s.getopt argv).1 → MainEnds argv w d

  -- Behind the options
  abbrev HasStarted : Argv → W → Done → Type 0
  HasStarted args w d = (Failed w × (d ≡ exits 1)) ⊎ (Started w × (d ≡ main_bus args))

  succeeded :
      (w : W) (f e family : ℕ)
      → mdio_init s.ctrl s.genl_id_ctrl fuel f w ≡ some (e, family)
      → (e == 0) ≡ true
      → mdio_init s.ctrl s.genl_id_ctrl fuel f w ≡ some (0, family)
  succeeded w f e family q z = q ∙ ap (λ (k : ℕ). some (k, family)) ((==_iff e 0).0 z)

  again_started :
      (e family : ℕ) (args : Argv) (w : W) (d : Done)
      → mdio_init s.ctrl s.genl_id_ctrl fuel 0 w ≡ some (e, family)
      → e ≢ 0
      → main_again family args w ≡ some d
      → HasStarted args w d
  unfolding main_again
  again_started e family args w d q ne h =
      let p = mdio_modprobe (s.modprobe w).0 in
      elim (Bool-cases (not (p == 0))) [
        | inl bad ↦
            let same : some (exits 1) ≡ some d = rw (main_again, bad) at h in
            inl (not_loaded e family q ne (ground arith), sym (some-injective _ _ same))
        | inr good ↦
            elim (Option-cases (mdio_init s.ctrl s.genl_id_ctrl fuel family (s.modprobe w).1)) [
              | inl none_is ↦ let no : none ≡ some d = rw (main_again, good, none_is) at h in cc
              | inr ((e', family'), q') ↦ elim (Bool-cases (e' == 0)) [
                | inl z ↦
                    let same : some (main_bus args) ≡ some d = rw (main_again, good, q', z) at h in
                    inr (
                      loaded e family family' q ne (ground arith)
                          (succeeded (s.modprobe w).1 family e' family' q' z),
                      sym (some-injective _ _ same),
                    )
                | inr z ↦
                    let same : some (exits 1) ≡ some d = rw (main_again, good, q', z) at h in
                    inl (
                      not_started e e' family family' q ne (ground arith) q' (ground arith),
                      sym (some-injective _ _ same),
                    )
              ]
            ]
      ]

  netlink_started :
      (args : Argv) (w : W) (d : Done) → main_netlink args w ≡ some d → HasStarted args w d
  unfolding main_netlink
  netlink_started args w d h = elim (Option-cases (mdio_init s.ctrl s.genl_id_ctrl fuel 0 w)) [
    | inl e ↦ let no : none ≡ some d = rw (main_netlink, e) at h in cc
    | inr ((k, family), e) ↦ elim (Bool-cases (k == 0)) [
      | inl z ↦
          let same : some (main_bus args) ≡ some d = rw (main_netlink, e, z) at h in
          inr (at_once family (succeeded w 0 k family e z), sym (some-injective _ _ same))
      | inr z ↦
          let more : main_again family args w ≡ some d = rw (main_netlink, e, z) at h in
          again_started k family args w d e (ground arith) more
    ]
  ]

  HasStarted-MainEnds :
      (argv : Argv) (w : W) (d : Done)
      → (s.getopt argv).0 ≡ []
      → HasStarted (s.getopt argv).1 w d
      → MainEnds argv w d
  HasStarted-MainEnds argv w d e (inl (f, x)) = gives_up e f x
  HasStarted-MainEnds argv w d e (inr (b, x)) = goes_on e b x

  -- If main ends, then by its first option, with the status 0 for `h` and `v` and 1 for any other; or, without
  -- an option, with the status 1 because mdio_init has failed and then modprobe or mdio_init once more;
  -- or mdio_init has returned 0, at once or behind a modprobe that succeeded, and main goes on with the
  -- arguments behind the options. So no bus is listed and no command runs where mdio_init has not
  -- returned 0.
  pub main-MainEnds : (argv : Argv) (w : W) (d : Done) → main argv w ≡ some d → MainEnds argv w d
  unfolding main
  main-MainEnds argv w d h = elim (options_first (s.getopt argv).0) [
    | inl (e, o) ↦
        HasStarted-MainEnds argv w d e (netlink_started (s.getopt argv).1 w d (rw (main, o) at h))
    | inr (opt, opts, e, inl (helps, o)) ↦
        let same : some (exits 0) ≡ some d = rw (main, o) at h in
        told opt opts e helps (sym (some-injective _ _ same))
    | inr (opt, opts, e, inr (not_h, not_v, o)) ↦
        let same : some (exits 1) ≡ some d = rw (main, o) at h in
        misused opt opts e not_h not_v (sym (some-injective _ _ same))
  ]
