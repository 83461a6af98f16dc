-- ===== src/Switch/Discovery/Valid.antt =====
-- src/mvls/mvls.c: what holds of the devices that are found, at every step of the discovery.
use mdio_tools.Prelude.{
  ℕ, ◌||◌, suc, ltb, Bool, Bool-cases, true, ◌&&◌, Option, Option-cases, some-injective,
  none-ne-some, none, some, List, [], ◌∷◌, ◌++◌, ◌≡◌, inl, inr, refl, sym, ap, ◌∙◌, subst, arith,
  All, length,
}
use mathlib.Core.Option.{map}
use mdio_tools.Tool.Args.{Text, text_eq}
use mdio_tools.Switch.Env.{dev_find, Port, Dev, Env, chips, known_chip, env_dev_add}
use mdio_tools.Switch.Discovery.{
  InfoMsg, PortMsg, asic_id, is_mv88e6, add_found, init_dev_cb, port_name, insert_port,
  init_port_cb,
}

-- Every device has a chip of the table, and the flag is set if it was at first or there is more than one
-- device.
pub record IsValid (at_first : Bool) (env : Env) : Type 0 where
  pub chips_known : All (λ (d : Dev). known_chip chips d.chip ≡ true) env.devs
  pub flag_is : env.multichip ≡ (at_first || ltb 1 (length env.devs))

All-append :
    (ds : List Dev) (d : Dev)
    → All (λ (d : Dev). known_chip chips d.chip ≡ true) ds
    → known_chip chips d.chip ≡ true
    → All (λ (d : Dev). known_chip chips d.chip ≡ true) (ds ++ d ∷ [])
All-append [] d h k = (k, tt)
All-append (e ∷ ds) d (h, hs) k = (h, All-append ds d hs k)

-- The flag after one more device.
flag_of : Bool → List Dev → Bool
flag_of b [] = b
flag_of b (_ ∷ _) = true

flag_of-append :
    (i b : Bool) (ds : List Dev) (x : Dev)
    → b ≡ (i || ltb 1 (length ds))
    → flag_of b ds ≡ (i || ltb 1 (length (ds ++ x ∷ [])))
unfolding flag_of
flag_of-append i b [] x h = h
flag_of-append i b (d ∷ []) x h = ground arith
flag_of-append i b (d ∷ e ∷ ds) x h = ground arith

env_dev_add-IsValid :
    (i : Bool) (env : Env) (id bus dev : Text) {env' : Env}
    → IsValid i env
    → env_dev_add env id bus dev ≡ some env'
    → IsValid i env'
unfolding env_dev_add flag_of
env_dev_add-IsValid i env id bus dev v e = elim (Bool-cases (known_chip chips id)) [
  | inl k ↦ subst (IsValid i) (some-injective _ _ (sym (rw (env_dev_add, k)) ∙ e)) (record {
    chips_known =
        All-append env.devs (record { bus = bus; dev = dev; chip = id; index = 0; ports = [] })
          v.chips_known k;
    flag_is =
        flag_of-append i env.multichip env.devs
          (record { bus = bus; dev = dev; chip = id; index = 0; ports = [] }) v.flag_is;
  })
  | inr k ↦ absurd (none-ne-some _ (sym (rw (env_dev_add, k)) ∙ e))
]

add_found-IsValid :
    (i : Bool) (env : Env) (id : Option Text) (bus dev : Text)
    → IsValid i env
    → IsValid i (add_found env id bus dev).1
unfolding add_found
add_found-IsValid i env none bus dev v = v
add_found-IsValid i env (some id) bus dev v = elim (Option-cases (env_dev_add env id bus dev)) [
  | inl e ↦ rw (add_found, e) v
  | inr (env', e) ↦ rw (add_found, e) (env_dev_add-IsValid i env id bus dev v e)
]

-- An information message keeps the environment valid, whether it is refused, passed over or adds a
-- device.
pub init_dev_cb-IsValid :
    (i : Bool) (m : InfoMsg) (env : Env) → IsValid i env → IsValid i (init_dev_cb m env).1
unfolding init_dev_cb
init_dev_cb-IsValid i m env v = elim (Option-cases m.bus_name) [
  | inl e ↦ rw (init_dev_cb, e) v
  | inr (bus, e) ↦ elim (Option-cases m.dev_name) [
    | inl e' ↦ rw (init_dev_cb, e, e') v
    | inr (dev, e') ↦ elim (Option-cases m.driver) [
      | inl e'' ↦ rw (init_dev_cb, e, e', e'') v
      | inr (driver, e'') ↦ elim (Bool-cases (is_mv88e6 driver)) [
        | inl t ↦
            rw (init_dev_cb, e, e', e'', t)
              (add_found-IsValid i env (asic_id m.versions none none) bus dev v)
        | inr t ↦ rw (init_dev_cb, e, e', e'', t) v
      ]
    ]
  ]
]

insert_port-All :
    (ds : List Dev) (bus dev : Text) (p : Port)
    → All (λ (d : Dev). known_chip chips d.chip ≡ true) ds
    → All (λ (d : Dev). known_chip chips d.chip ≡ true) (insert_port ds bus dev p)
unfolding insert_port
insert_port-All [] bus dev p h = tt
insert_port-All (d ∷ ds) bus dev p (k, hs) =
    elim (Bool-cases (text_eq d.bus bus && text_eq d.dev dev)) [
      | inl e ↦ rw (insert_port, e) (k, hs)
      | inr e ↦ rw (insert_port, e) (k, insert_port-All ds bus dev p hs)
    ]

length-insert_port :
    (ds : List Dev) (bus dev : Text) (p : Port) → length (insert_port ds bus dev p) ≡ length ds
unfolding insert_port
length-insert_port [] bus dev p = refl
length-insert_port (d ∷ ds) bus dev p = elim (Bool-cases (text_eq d.bus bus && text_eq d.dev dev)) [
  | inl e ↦ rw (insert_port, e)
  | inr e ↦ rw (insert_port, e) (ap suc (length-insert_port ds bus dev p))
]

-- A port message keeps the environment valid, whether it is refused, is about a device of others or
-- adds a port.
pub init_port_cb-IsValid :
    (i : Bool) (m : PortMsg) (env : Env) → IsValid i env → IsValid i (init_port_cb m env).1
unfolding init_port_cb
init_port_cb-IsValid i m env v = elim (Option-cases m.bus_name) [
  | inl e ↦ rw (init_port_cb, e) v
  | inr (bus, e) ↦ elim (Option-cases m.dev_name) [
    | inl e' ↦ rw (init_port_cb, e, e') v
    | inr (dev, e') ↦ elim (Option-cases m.index) [
      | inl e'' ↦ rw (init_port_cb, e, e', e'') v
      | inr (index, e'') ↦ elim (Option-cases m.flavour) [
        | inl f ↦ rw (init_port_cb, e, e', e'', f) v
        | inr (flavour, f) ↦
            let p : Port = record {
              index = index;
              netdev = port_name m.netdev flavour;
              flavor = flavour;
            } in
            rw (init_port_cb, e, e', e'', f)
              (record {
                chips_known = insert_port-All env.devs bus dev p v.chips_known;
                flag_is =
                    v.flag_is
                    ∙ ap (λ (n : ℕ). i || ltb 1 n) (sym (length-insert_port env.devs bus dev p));
              })
      ]
    ]
  ]
]

-- The device with more ports.
abbrev pub with_port : Port → Dev → Dev
with_port p d = record d { ports = d.ports ++ p ∷ [] }

-- Where a port is added, looking up its device gives the device as it was found before, with the
-- port behind its others; if the device is not there, it is still not there.
pub dev_find-insert_port :
    (ds : List Dev) (bus dev : Text) (p : Port)
    → dev_find (insert_port ds bus dev p) bus dev ≡ map (with_port p) (dev_find ds bus dev)
unfolding insert_port dev_find
dev_find-insert_port [] bus dev p = refl
dev_find-insert_port (d ∷ ds) bus dev p =
    elim (Bool-cases (text_eq d.bus bus && text_eq d.dev dev)) [
      | inl e ↦ rw (insert_port, dev_find, e, e)
      | inr e ↦ rw (insert_port, dev_find, e, e) (dev_find-insert_port ds bus dev p)
    ]
