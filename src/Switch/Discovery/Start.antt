-- ===== src/Switch/Discovery/Start.antt =====
-- src/mvls/mvls.c: an environment that env_init has made is valid and has a device.
use mdio_tools.Prelude.{
  Bool, ◌||◌, if◌then◌else◌, ℕ, zero, suc, ltb, ◌<◌, Bool-cases, true, false, not, Option,
  Option-cases, none, some, List, [], ◌∷◌, ◌++◌, ◌≡◌, ◌⊎◌, inl, inr, refl, sym, ap, subst, ◌∙◌,
  arith, All, length,
}
use mdio_tools.Tool.Args.{Text, codes}
use mdio_tools.Switch.Region.{AttrTypes, Mnl, Copied, copied, refused, crashed}
use mdio_tools.Switch.Env.{Dev, Env, chips, known_chip, insert_dev, sort_from, dev_sort}
use mdio_tools.Switch.Devlink.{
  Ret, Request, info_get, port_get, Link, Session, recv_run, query, region_get,
}
use mdio_tools.Switch.Devlink.Snapshot.{Received-cases, Ret-cases}
use mdio_tools.Switch.Discovery.{
  Init, ready, init_failed, faulted, Links, succeeded, reg16, dup_cb, indexed, init_dev, init_devs,
  init_found, env_init, init_dev_cb, init_port_cb,
}
use mdio_tools.Switch.Discovery.Valid.{IsValid, init_dev_cb-IsValid, init_port_cb-IsValid}

-- mnl_cb_run2 changes the callback's state only by running the callback.
abbrev pub RunsCallback : {W D M S : Type 0} → Link W D M S → Type 1
RunsCallback {W} {D} {M} {S} link =
    (P : S → Type 0) (f : M → S → Ret × S)
    → ((m : M) (s : S) → P s → P (f m s).1)
    → (d : D) (s : S) → P s
    → P (link.cb_run (some f) d s).1

-- A predicate on the state behind a query, if the query returns.
OnState : {W S : Type 0} → (S → Type 0) → Option (Ret × Session W S) → Type 0
OnState P none = Unit {0}
OnState P (some (r, s)) = P s.state

module _ {W D M S : Type 0} (link : Link W D M S) (P : S → Type 0) (f : M → S → Ret × S)
    (keeps : (d : D) (s : S) → P s → P (link.cb_run (some f) d s).1) where
  recv_run-OnState :
      (fuel : ℕ) (s : Session W S) → P s.state → OnState P (recv_run link fuel (some f) s)
  unfolding recv_run OnState
  recv_run-OnState zero s h = tt
  recv_run-OnState (suc fuel) s h = elim (Received-cases (link.recv_from s.world).0) [
    | inl e ↦ rw (recv_run, e) h
    | inr (inl e) ↦ rw (recv_run, e) h
    | inr (inr (d, e)) ↦
        let s' = record s {
          world = (link.recv_from s.world).1;
          state = (link.cb_run (some f) d s.state).1;
        } in
        elim (Ret-cases (link.cb_run (some f) d s.state).0) [
          | inl r ↦ rw (recv_run, e, r) (keeps d s.state h)
          | inr (inl r) ↦ rw (recv_run, e, r) (keeps d s.state h)
          | inr (inr r) ↦ rw (recv_run, e, r) (recv_run-OnState fuel s' (keeps d s.state h))
        ]
  ]

  query-OnState :
      (fuel : ℕ) (req : Request) (s : Session W S)
      → P s.state
      → OnState P (query link fuel req (some f) s)
  unfolding query OnState
  query-OnState fuel req s h = elim (Bool-cases (link.send_to req s.world).0) [
    | inl e ↦
        rw (query, e)
          (recv_run-OnState fuel
            (record s { world = (link.send_to req s.world).1; log = s.log ++ req ∷ [] }) h)
    | inr e ↦ rw (query, e) h
  ]

List-cases : (l : List Dev) → (l ≡ []) ⊎ ((d : Dev) × (ds : List Dev) × (l ≡ d ∷ ds))
List-cases [] = inl refl
List-cases (d ∷ l) = inr (d, l, refl)

flag_first : (b : Bool) → b ≡ (b || false)
flag_first true = refl
flag_first false = refl

-- The same chips are known, and there are as many devices.
record Alike (ds ds' : List Dev) : Type 0 where
  known :
      All (λ (d : Dev). known_chip chips d.chip ≡ true) ds
      → All (λ (d : Dev). known_chip chips d.chip ≡ true) ds'
  count : length ds' ≡ length ds

Alike-refl : (ds : List Dev) → Alike ds ds
Alike-refl ds = record { known = λ h. h; count = refl }

Alike-trans : {ds ds' ds'' : List Dev} → Alike ds ds' → Alike ds' ds'' → Alike ds ds''
Alike-trans p q = record { known = λ h. q.known (p.known h); count = q.count ∙ p.count }

Alike-cons : (d : Dev) {ds ds' : List Dev} → Alike ds ds' → Alike (d ∷ ds) (d ∷ ds')
Alike-cons d p = record { known = λ h. (h.0, p.known h.1); count = ap suc p.count }

Alike-put :
    {d d' : Dev} {ds ds' : List Dev} → d'.chip ≡ d.chip → Alike ds ds' → Alike (d ∷ ds) (d' ∷ ds')
Alike-put e p = record {
  known = λ h. (subst (λ (c : Text). known_chip chips c ≡ true) (sym e) h.0, p.known h.1);
  count = ap suc p.count;
}

Alike-swap : (d n : Dev) (ds : List Dev) → Alike (d ∷ n ∷ ds) (n ∷ d ∷ ds)
Alike-swap d n ds = record { known = λ h. (h.1.0, (h.0, h.1.1)); count = refl }

insert_dev-Alike : (d : Dev) (r : List Dev) → Alike (d ∷ r) (insert_dev d r)
unfolding insert_dev
insert_dev-Alike d [] = Alike-refl (d ∷ [])
insert_dev-Alike d (i ∷ r) = elim (Bool-cases (ltb i.index d.index)) [
  | inl e ↦
      rw (insert_dev, e) (Alike-trans (Alike-swap d i r) (Alike-cons i (insert_dev-Alike d r)))
  | inr e ↦ rw (insert_dev, e) (Alike-refl (d ∷ i ∷ r))
]

sort_from-Alike : (fuel : ℕ) (ds : List Dev) → Alike ds (sort_from fuel ds)
unfolding sort_from
sort_from-Alike fuel [] = Alike-refl []
sort_from-Alike fuel (d ∷ []) = Alike-refl (d ∷ [])
sort_from-Alike zero (d ∷ n ∷ r) = Alike-refl (d ∷ n ∷ r)
sort_from-Alike (suc fuel) (d ∷ n ∷ r) = elim (Bool-cases (ltb n.index d.index)) [
  | inl e ↦
      rw (sort_from, e)
        (Alike-trans (Alike-swap d n r) (
          Alike-trans (Alike-cons n (insert_dev-Alike d r))
            (sort_from-Alike fuel (n ∷ insert_dev d r))))
  | inr e ↦ rw (sort_from, e) (Alike-cons d (sort_from-Alike fuel (n ∷ r)))
]

-- A predicate on the value that a step of the discovery is ready with, if it is.
OnInit : {A : Type 0} → (A → Type 0) → Init A → Type 0
OnInit P (ready a) = P a
OnInit P init_failed = Unit {0}
OnInit P faulted = Unit {0}

OnReady : {A B C : Type 0} → (A → Type 0) → Option (Init A × B × C) → Type 0
unfolding OnInit
OnReady P none = Unit {0}
OnReady P (some (i, b, c)) = OnInit P i

Init-cases :
    {A : Type 0} (i : Init A) → ((a : A) × (i ≡ ready a)) ⊎ (i ≡ init_failed) ⊎ (i ≡ faulted)
Init-cases (ready a) = inl (a, refl)
Init-cases init_failed = inr (inl refl)
Init-cases faulted = inr (inr refl)

module _ {W D A : Type 0} (link : Links W D A) (ty : AttrTypes) (mnl : Mnl A) (fuel : ℕ)
    (at_first : Bool) where
  indexed-OnInit :
      (d : Dev) (g : Copied)
      → OnInit {A = Dev} (λ d'. d'.chip ≡ d.chip) (indexed link ty mnl fuel d g)
  unfolding indexed OnInit
  indexed-OnInit d (refused b) = tt
  indexed-OnInit d crashed = tt
  indexed-OnInit d (copied b) = elim (Option-cases (reg16 b 0x1c)) [
    | inl e ↦ rw (indexed, e) tt
    | inr (v, e) ↦ rw (indexed, e) refl
  ]

  init_dev-OnReady :
      (d : Dev) (w : W) (log : List Request)
      → OnReady (λ d'. d'.chip ≡ d.chip) (init_dev link ty mnl fuel d w log)
  unfolding init_dev OnReady OnInit
  init_dev-OnReady d w log =
      elim (Option-cases (
        region_get link.region_link fuel d.bus d.dev (codes "global1") (dup_cb ty mnl fuel)
          (record { world = w; log = log; state = copied [] }))) [
            | inl e ↦ rw (init_dev, e) tt
            | inr ((err, s), e) ↦ elim (Bool-cases (succeeded err)) [
              | inl g ↦ rw (init_dev, e, g) (indexed-OnInit d s.state)
              | inr g ↦ rw (init_dev, e, g) tt
            ]
          ]

  init_devs-OnReady :
      (ds : List Dev) (w : W) (log : List Request)
      → OnReady (Alike ds) (init_devs link ty mnl fuel ds w log)
  unfolding init_devs OnReady OnInit
  init_devs-OnReady [] w log = Alike-refl []
  init_devs-OnReady (d ∷ ds) w log = elim (Option-cases (init_dev link ty mnl fuel d w log)) [
    | inl e ↦ rw (init_devs, e) tt
    | inr ((i, w', log'), e) ↦ elim (Init-cases i) [
      | inr (inl f) ↦ rw (init_devs, e, f) tt
      | inr (inr f) ↦ rw (init_devs, e, f) tt
      | inl (d', f) ↦ elim (Option-cases (init_devs link ty mnl fuel ds w' log')) [
        | inl g ↦ rw (init_devs, e, f, g) tt
        | inr ((j, w'', log''), g) ↦ elim (Init-cases j) [
          | inr (inl k) ↦ rw (init_devs, e, f, g, k) tt
          | inr (inr k) ↦ rw (init_devs, e, f, g, k) tt
          | inl (ds', k) ↦
              rw (init_devs, e, f, g, k)
                (Alike-put
                  (subst (OnInit (λ x. x.chip ≡ d.chip)) f
                    (subst (OnReady (λ x. x.chip ≡ d.chip)) e (init_dev-OnReady d w log)))
                  (subst (OnInit (Alike ds)) k
                    (subst (OnReady (Alike ds)) g (init_devs-OnReady ds w' log'))))
        ]
      ]
    ]
  ]

  -- What holds of an environment that has been found.
  Found : Env → Type 0
  Found env = IsValid at_first env × (0 < length env.devs)

  OnFound : Option (Init Env) → Type 0
  unfolding Found OnInit
  OnFound none = Unit {0}
  OnFound (some i) = OnInit Found i

  sorted-Found :
      (env : Env) (ds : List Dev)
      → IsValid at_first env
      → 0 < length env.devs
      → Alike env.devs ds
      → Found (record env { devs = dev_sort ds })
  unfolding Found dev_sort
  sorted-Found env ds v some_dev a =
      let s = Alike-trans a (sort_from-Alike (length ds) ds) in
      (
        record {
          chips_known = s.known v.chips_known;
          flag_is = v.flag_is ∙ ap (λ (n : ℕ). at_first || ltb 1 n) (sym s.count);
        },
        subst (λ (n : ℕ). 0 < n) (sym s.count) some_dev,
      )

  init_found-OnFound :
      (env : Env) (w : W) (log : List Request)
      → IsValid at_first env
      → OnFound (init_found link ty mnl fuel env w log)
  unfolding init_found OnFound OnInit OnReady
  init_found-OnFound env w log v = elim (List-cases env.devs) [
    | inl e ↦ rw (init_found, e) tt
    | inr (d, ds, e) ↦ elim (Option-cases (init_devs link ty mnl fuel (d ∷ ds) w log)) [
      | inl g ↦ rw (init_found, e, g) tt
      | inr ((j, w'', log''), g) ↦ elim (Init-cases j) [
        | inr (inl k) ↦ rw (init_found, e, g, k) tt
        | inr (inr k) ↦ rw (init_found, e, g, k) tt
        | inl (ds', k) ↦
            rw (init_found, e, g, k)
              (sorted-Found env ds' v (subst (λ (l : List Dev). 0 < length l) (sym e) (omega arith))
                (subst (λ (l : List Dev). Alike l ds') (sym e)
                  (subst (OnInit (Alike (d ∷ ds))) k
                    (subst (OnReady (Alike (d ∷ ds))) g (init_devs-OnReady (d ∷ ds) w log)))))
      ]
    ]
  ]

  module _ (runs_info : RunsCallback link.info_link) (runs_port : RunsCallback link.port_link) where
    ports-OnFound :
        (s : Session W Env)
        → IsValid at_first s.state
        → OnFound
            (elim (query link.port_link fuel port_get (some init_port_cb) s)
              as (λ _. Option (Init Env)) [
                | none ↦ none
                | some (err', s') ↦
                    if not (succeeded err')
                    then some init_failed
                    else init_found link ty mnl fuel s'.state s'.world s'.log
              ])
    unfolding OnFound OnInit OnState
    ports-OnFound s v =
        elim (Option-cases (query link.port_link fuel port_get (some init_port_cb) s)) [
          | inl e ↦ rw e tt
          | inr ((err, s'), e) ↦ elim (Bool-cases (succeeded err)) [
            | inr g ↦ rw (e, g) tt
            | inl g ↦
                rw (e, g)
                  (init_found-OnFound s'.state s'.world s'.log (
                    subst (OnState (IsValid at_first)) e (
                      query-OnState link.port_link (IsValid at_first) init_port_cb
                        (λ d s h.
                          runs_port (IsValid at_first) init_port_cb (init_port_cb-IsValid at_first)
                            d s h)
                        fuel port_get s v)))
          ]
        ]

    env_init-OnFound : (w : W) → OnFound (env_init link ty mnl fuel at_first w)
    unfolding env_init OnFound OnInit OnState
    env_init-OnFound w =
        let start : Session W Env = record {
          world = w;
          log = [];
          state = record { multichip = at_first; devs = [] };
        } in
        elim (Option-cases (query link.info_link fuel info_get (some init_dev_cb) start)) [
          | inl e ↦ rw (env_init, e) tt
          | inr ((err, s), e) ↦ elim (Bool-cases (succeeded err)) [
            | inr g ↦ rw (env_init, e, g) tt
            | inl g ↦
                rw (env_init, e, g)
                  (ports-OnFound (record { world = s.world; log = s.log; state = s.state })
                    (subst (OnState (IsValid at_first)) e (
                      query-OnState link.info_link (IsValid at_first) init_dev_cb
                        (λ d s h.
                          runs_info (IsValid at_first) init_dev_cb (init_dev_cb-IsValid at_first) d
                            s h)
                        fuel info_get start
                        (record { chips_known = tt; flag_is = flag_first at_first }))))
          ]
        ]

  -- If libmnl changes a callback's state only by running the callback, then every environment that env_init
  -- has made has at least one device, each with a chip of the table. Its flag is set if there is more
  -- than one device; for a single device it is whatever the memory of the environment held at first.
  pub env_init-IsValid :
      RunsCallback link.info_link
      → RunsCallback link.port_link
      → (w : W) (env : Env) → env_init link ty mnl fuel at_first w ≡ some (ready env)
      → IsValid at_first env × (0 < length env.devs)
  unfolding OnFound OnInit Found
  env_init-IsValid runs_info runs_port w env e =
      subst OnFound e (env_init-OnFound runs_info runs_port w)
