-- ===== src/Tests/Start.antt =====
-- src/mvls/mvls.c: the start of the environment with one switch that has one port.
use mdio_tools.Prelude.{
  ℕ, zero, suc, ◌<◌, refl, true, false, Option, some, none, List, [], ◌∷◌, length,
}
use mdio_tools.Tool.Args.{codes}
use mdio_tools.Switch.Region.{Copied, region_dup_cb}
use mdio_tools.Switch.Env.{Env, env_dev_add, known_chip, dev_sort}
use mdio_tools.Switch.Devlink.{
  Ret, failed, stop, Request, info_get, port_get, region, new, read, del, Received, recv_empty,
  datagram, query, port_region_get,
}
use mdio_tools.Switch.Discovery.{InfoMsg, PortMsg, Links, init_dev_cb, init_port_cb, env_init}
use mdio_tools.Switch.Discovery.Valid.{IsValid}
use mdio_tools.Switch.Discovery.Start.{RunsCallback, env_init-IsValid}
use mdio_tools.Tests.Region.{Attr, raw, nest, cons, nil, chunk, tree_mnl, test_types}

-- A datagram holds one message or an acknowledgement.
data Dgram : Type 0 where
  info : InfoMsg → Dgram
  port : PortMsg → Dgram
  chunks : List Attr → Dgram
  ack : Dgram

abbrev zeros : ℕ → List ℕ → List ℕ
zeros zero l = l
zeros (suc n) l = 0 ∷ zeros n l

abbrev switch_info : InfoMsg
switch_info = record {
  bus_name = some (codes "mdio_bus");
  dev_name = some (codes "d0");
  driver = some (codes "mv88e6085");
  versions = (some (codes "asic.id"), some (codes "Marvell 88E6190")) ∷ [];
}

abbrev switch_port : PortMsg
switch_port = record {
  bus_name = some (codes "mdio_bus");
  dev_name = some (codes "d0");
  index = some 9;
  flavour = some 1;
  netdev = none;
}

-- The registers of the switch, with the index 3 in the last one.
abbrev global1 : List Attr
global1 = raw 1 [] ∷ raw 2 [] ∷ nest 93 (cons (chunk 0 (zeros 56 (3 ∷ 0 ∷ []))) nil) ∷ []

abbrev answer : Request → List Dgram
answer info_get = info switch_info ∷ ack ∷ []
answer port_get = port switch_port ∷ ack ∷ []
answer (region new bus dev p name) = ack ∷ []
answer (region read bus dev p name) = chunks global1 ∷ ack ∷ []
answer (region del bus dev p name) = ack ∷ []

abbrev next : List Dgram → Received Dgram × List Dgram
next [] = (recv_empty, [])
next (d ∷ w) = (datagram d, w)

abbrev run_info : Option (InfoMsg → Env → Ret × Env) → Dgram → Env → Ret × Env
run_info (some f) (info m) s = f m s
run_info _ ack s = (stop, s)
run_info _ _ s = (failed, s)

abbrev run_port : Option (PortMsg → Env → Ret × Env) → Dgram → Env → Ret × Env
run_port (some f) (port m) s = f m s
run_port _ ack s = (stop, s)
run_port _ _ s = (failed, s)

abbrev run_region : Option (List Attr → Copied → Ret × Copied) → Dgram → Copied → Ret × Copied
run_region (some f) (chunks m) s = f m s
run_region _ ack s = (stop, s)
run_region _ _ s = (failed, s)

abbrev switch_links : Links (List Dgram) Dgram Attr
switch_links = record {
  info_link = record { send_to = λ req w. (true, answer req); recv_from = next; cb_run = run_info };
  port_link = record { send_to = λ req w. (true, answer req); recv_from = next; cb_run = run_port };
  region_link = record {
    send_to = λ req w. (true, answer req);
    recv_from = next;
    cb_run = run_region;
  };
}

info-RunsCallback : RunsCallback switch_links.info_link
info-RunsCallback P f keeps (info m) s h = keeps m s h
info-RunsCallback P f keeps (port m) s h = h
info-RunsCallback P f keeps (chunks m) s h = h
info-RunsCallback P f keeps ack s h = h

port-RunsCallback : RunsCallback switch_links.port_link
port-RunsCallback P f keeps (info m) s h = h
port-RunsCallback P f keeps (port m) s h = keeps m s h
port-RunsCallback P f keeps (chunks m) s h = h
port-RunsCallback P f keeps ack s h = h

abbrev started : Env
started = record {
  multichip = false;
  devs =
      record {
        bus = codes "mdio_bus";
        dev = codes "d0";
        chip = codes "Marvell 88E6190";
        index = 3;
        ports = record { index = 9; netdev = codes "(cpu)"; flavor = 1 } ∷ [];
      }
      ∷ [];
}

env_init-IsValid_example : IsValid false started × (0 < length started.devs)
unfolding env_init port_region_get query init_dev_cb env_dev_add known_chip init_port_cb
    region_dup_cb dev_sort
env_init-IsValid_example =
    env_init-IsValid switch_links test_types tree_mnl 3 false info-RunsCallback port-RunsCallback []
      started refl
