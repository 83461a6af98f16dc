-- ===== src/Switch/Discovery.antt =====
-- src/mvls/mvls.c: how the devices and their ports are found, from the messages of devlink.
pub mod Valid
pub mod Start
use mdio_tools.Prelude.{
  ℕ, zero, suc, ◌+◌, ◌*◌, ◌%◌, ◌==◌, if◌then◌else◌, Bool, true, false, not, ◌&&◌, Option, none,
  some, List, [], ◌∷◌, ◌++◌, get_elem?,
}
use mdio_tools.Tool.Args.{Text, codes, text_eq}
use mdio_tools.Switch.Region.{
  AttrTypes, Mnl, Bytes, Copied, copied, refused, crashed, region_dup_cb,
}
use mdio_tools.Switch.Devlink.{
  Ret, failed, stop, more, Request, info_get, port_get, Link, Session, query, region_get,
}
use mdio_tools.Switch.Env.{Port, Dev, Env, env_dev_add, dev_sort}

-- The attributes that env_init_dev_cb reads, and the pairs of a name and a value that the attributes
-- DEVLINK_ATTR_INFO_VERSION_FIXED hold.
pub record InfoMsg : Type 0 where
  pub bus_name : Option Text
  pub dev_name : Option Text
  pub driver : Option Text
  pub versions : List (Option Text × Option Text)

-- The attributes that env_init_port_cb reads.
pub record PortMsg : Type 0 where
  pub bus_name : Option Text
  pub dev_name : Option Text
  pub index : Option ℕ
  pub flavour : Option ℕ
  pub netdev : Option Text

abbrev pub latest : Option Text → Option Text → Option Text
latest (some new) old = some new
latest none old = old

-- The loop over the versions. The table is not cleared between them, so that a name or a value that
-- one lacks is that of the one before.
unfoldable pub asic_id : List (Option Text × Option Text) → Option Text → Option Text → Option Text
asic_id [] name value = none
asic_id ((n, v) ∷ vs) name value =
    let rest = asic_id vs (latest n name) (latest v value) in
    elim (latest n name) [
      | none ↦ rest
      | some n' ↦ elim (latest v value) [
        | none ↦ rest
        | some v' ↦ if text_eq (codes "asic.id") n' then some v' else rest
      ]
    ]

-- `!strncmp("mv88e6", name, 6)`
unfoldable pub is_mv88e6 : Text → Bool
is_mv88e6 (a ∷ b ∷ c ∷ d ∷ e ∷ f ∷ _) = text_eq (a ∷ b ∷ c ∷ d ∷ e ∷ f ∷ []) (codes "mv88e6")
is_mv88e6 _ = false

add_found : Env → Option Text → Text → Text → Ret × Env
add_found env none bus dev = (more, env)
add_found env (some id) bus dev = elim (env_dev_add env id bus dev) [
  | none ↦ (failed, env)
  | some env' ↦ (more, env')
]

-- env_init_dev_cb
unfoldable pub init_dev_cb : InfoMsg → Env → Ret × Env
unfolding add_found asic_id is_mv88e6
init_dev_cb m env = elim m.bus_name [
  | none ↦ (failed, env)
  | some bus ↦ elim m.dev_name [
    | none ↦ (failed, env)
    | some dev ↦ elim m.driver [
      | none ↦ (failed, env)
      | some driver ↦
          if is_mv88e6 driver
          then add_found env (asic_id m.versions none none) bus dev
          else (more, env)
    ]
  ]
]

-- The name of a port without a network device: CPU is flavour 1, DSA is flavour 2.
unfoldable pub port_name : Option Text → ℕ → Text
port_name (some name) flavour = name
port_name none flavour =
    if flavour == 1 then codes "(cpu)" else if flavour == 2 then codes "(dsa)" else codes "-"

-- env_dev_find and the insertion of the port behind the others of the device that it finds
unfoldable pub insert_port : List Dev → Text → Text → Port → List Dev
insert_port [] bus dev p = []
insert_port (d ∷ ds) bus dev p =
    if text_eq d.bus bus && text_eq d.dev dev
    then record d { ports = d.ports ++ p ∷ [] } ∷ ds
    else d ∷ insert_port ds bus dev p

-- env_init_port_cb: a port of a device that is not ours is passed over.
unfoldable pub init_port_cb : PortMsg → Env → Ret × Env
unfolding insert_port port_name
init_port_cb m env = elim m.bus_name [
  | none ↦ (failed, env)
  | some bus ↦ elim m.dev_name [
    | none ↦ (failed, env)
    | some dev ↦ elim m.index [
      | none ↦ (failed, env)
      | some index ↦ elim m.flavour [
        | none ↦ (failed, env)
        | some flavour ↦
            let p : Port = record {
              index = index;
              netdev = port_name m.netdev flavour;
              flavor = flavour;
            } in
            (more, record env { devs = insert_port env.devs bus dev p })
      ]
    ]
  ]
]

-- reg16 on a machine with the low byte first: `none` for NULL, a byte outside, or one never written
unfoldable pub reg16 : Bytes → ℕ → Option ℕ
reg16 d r = elim (get_elem? d (2 * r)) [
  | some (some low) ↦ elim (get_elem? d (2 * r + 1)) [
    | some (some high) ↦ some (low + high * 256)
    | _ ↦ none
  ]
  | _ ↦ none
]

-- How a step of the discovery ends: with a value, with an error, or in a use of memory that is not there.
pub data Init (A : Type 0) : Type 0 where
  ready : A → Init A
  init_failed : Init A
  faulted : Init A

-- devlink_region_dup_cb as a callback of a query, with memory for its regions; a loop without an end
-- counts as a crash, after which the state stays crashed.
unfoldable pub dup_cb : {A : Type 0} → AttrTypes → Mnl A → ℕ → List A → Copied → Ret × Copied
dup_cb ty mnl fuel attrs (copied d) = elim (region_dup_cb ty mnl fuel (λ _. true) attrs d) [
  | some (copied d') ↦ (more, copied d')
  | some (refused d') ↦ (failed, copied d')
  | some crashed ↦ (failed, crashed)
  | none ↦ (failed, crashed)
]
dup_cb ty mnl fuel attrs s = (failed, s)

-- The tests for an error behind a query: `if (err) return err;`
abbrev pub succeeded : Ret → Bool
succeeded stop = true
succeeded _ = false

-- The socket, with libmnl's reading of its datagrams as the three kinds of messages.
pub record Links (W D A : Type 0) : Type 0 where
  pub info_link : Link W D InfoMsg Env
  pub port_link : Link W D PortMsg Env
  pub region_link : Link W D (List A) Copied

module _ {W D A : Type 0} (link : Links W D A) (ty : AttrTypes) (mnl : Mnl A) (fuel : ℕ) where
  -- dev_init: the index is in the low five bits of register 0x1c of the region.
  indexed : Dev → Copied → Init Dev
  unfolding reg16
  indexed d (copied g) = elim (reg16 g 0x1c) [
    | none ↦ faulted
    | some v ↦ ready (record d { index = v % 32 })
  ]
  indexed d _ = faulted

  unfoldable pub init_dev : Dev → W → List Request → Option (Init Dev × W × List Request)
  unfolding indexed dup_cb
  init_dev d w log =
      elim (region_get link.region_link fuel d.bus d.dev (codes "global1") (dup_cb ty mnl fuel)
        (record { world = w; log = log; state = copied [] })) [
          | none ↦ none
          | some (err, s) ↦
              if succeeded err
              then some (indexed d s.state, s.world, s.log)
              else some (init_failed, s.world, s.log)
        ]

  -- The loop over the devices in env_init, which stops at the first error.
  unfoldable pub init_devs :
      List Dev → W → List Request → Option (Init (List Dev) × W × List Request)
  unfolding init_dev
  init_devs [] w log = some (ready [], w, log)
  init_devs (d ∷ ds) w log = elim (init_dev d w log) [
    | none ↦ none
    | some (init_failed, w', log') ↦ some (init_failed, w', log')
    | some (faulted, w', log') ↦ some (faulted, w', log')
    | some (ready d', w', log') ↦ elim (init_devs ds w' log') [
      | none ↦ none
      | some (init_failed, w'', log'') ↦ some (init_failed, w'', log'')
      | some (faulted, w'', log'') ↦ some (faulted, w'', log'')
      | some (ready ds', w'', log'') ↦ some (ready (d' ∷ ds'), w'', log'')
    ]
  ]

  -- The end of env_init: ENODEV if there is no device, then the indices, then the order.
  unfoldable pub init_found : Env → W → List Request → Option (Init Env)
  unfolding init_devs
  init_found env w log = elim env.devs [
    | [] ↦ some init_failed
    | d ∷ ds ↦ elim (init_devs (d ∷ ds) w log) [
      | none ↦ none
      | some (init_failed, _, _) ↦ some init_failed
      | some (faulted, _, _) ↦ some faulted
      | some (ready ds', _, _) ↦ some (ready (record env { devs = dev_sort ds' }))
    ]
  ]

  -- env_init, from an environment that devlink_open has prepared. `struct env` is a local variable of main
  -- without an initializer, so that its flag, which only env_dev_add writes, is `multichip` at first.
  unfoldable pub env_init : Bool → W → Option (Init Env)
  unfolding init_found
  env_init multichip w =
      elim (query link.info_link fuel info_get (some init_dev_cb)
        (record { world = w; log = []; state = record { multichip = multichip; devs = [] } })) [
          | none ↦ none
          | some (err, s) ↦
              if not (succeeded err)
              then some init_failed
              else elim (query link.port_link fuel port_get (some init_port_cb)
                  (record { world = s.world; log = s.log; state = s.state })) [
                    | none ↦ none
                    | some (err', s') ↦
                        if not (succeeded err')
                        then some init_failed
                        else init_found s'.state s'.world s'.log
                  ]
        ]
