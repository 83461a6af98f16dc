-- ===== src/Switch/Env.antt =====
-- src/mvls/mvls.c: the devices that are found, their look-up, and their order.
use mdio_tools.Prelude.{
  ℕ, zero, suc, ◌==◌, ltb, if◌then◌else◌, Bool, true, false, ◌&&◌, Option, none, some, List, [],
  ◌∷◌, ◌++◌, length,
}
use mdio_tools.Tool.Args.{Text, codes, text_eq}

-- struct port and struct dev, as far as they are used here
pub record Port : Type 0 where
  pub index : ℕ
  pub netdev : Text
  pub flavor : ℕ

pub record Dev : Type 0 where
  pub bus : Text
  pub dev : Text
  pub chip : Text
  pub index : ℕ
  pub ports : List Port

-- struct env
pub record Env : Type 0 where
  pub multichip : Bool
  pub devs : List Dev

-- The ids of the table `chips`.
abbrev pub chips : List Text
chips =
    codes "Marvell 88E6097/88E6097F"
    ∷ codes "Marvell 88E6352"
    ∷ codes "Marvell 88E6320"
    ∷ codes "Marvell 88E6321"
    ∷ codes "Marvell 88E6190"
    ∷ codes "Marvell 88E6190X"
    ∷ codes "Marvell 88E6191"
    ∷ codes "Marvell 88E6191X"
    ∷ codes "Marvell 88E6193X"
    ∷ codes "Marvell 88E6290"
    ∷ codes "Marvell 88E6390"
    ∷ codes "Marvell 88E6390X"
    ∷ codes "Marvell 88E6393X"
    ∷ []

unfoldable pub known_chip : List Text → Text → Bool
known_chip [] id = false
known_chip (c ∷ cs) id = if text_eq c id then true else known_chip cs id

-- env_dev_add: `none` for ENOSYS, an unknown chip
unfoldable pub env_dev_add : Env → Text → Text → Text → Option Env
env_dev_add env asicid busid devid =
    if known_chip chips asicid
    then some (record {
      multichip = elim env.devs [ [] ↦ env.multichip | _ ∷ _ ↦ true ];
      devs =
          env.devs
          ++ record { bus = busid; dev = devid; chip = asicid; index = 0; ports = [] } ∷ [];
    })
    else none

-- env_dev_get and env_dev_find
unfoldable pub dev_get : List Dev → ℕ → Option Dev
dev_get [] index = none
dev_get (d ∷ ds) index = if d.index == index then some d else dev_get ds index

unfoldable pub dev_find : List Dev → Text → Text → Option Dev
dev_find [] busid devid = none
dev_find (d ∷ ds) busid devid =
    if text_eq d.bus busid && text_eq d.dev devid then some d else dev_find ds busid devid

-- The scan of env_init_dev_sort for the place of `d`, and its insertion there.
unfoldable pub insert_dev : Dev → List Dev → List Dev
insert_dev d [] = d ∷ []
insert_dev d (i ∷ r) = if ltb i.index d.index then i ∷ insert_dev d r else d ∷ i ∷ r

-- The loop of env_init_dev_sort, from the current device on, with the number of devices behind it
-- for fuel. What stands before the current device is not touched again. A device that moves goes
-- behind `next`, which is then the current one; of equal indices the move changes nothing.
unfoldable pub sort_from : ℕ → List Dev → List Dev
sort_from fuel [] = []
sort_from fuel (d ∷ []) = d ∷ []
sort_from zero (d ∷ n ∷ r) = d ∷ n ∷ r
sort_from (suc fuel) (d ∷ n ∷ r) = elim (ltb n.index d.index) [
  | true ↦ sort_from fuel (n ∷ insert_dev d r)
  | false ↦ d ∷ sort_from fuel (n ∷ r)
]

-- env_init_dev_sort
unfoldable pub dev_sort : List Dev → List Dev
unfolding sort_from insert_dev
dev_sort ds = sort_from (length ds) ds
