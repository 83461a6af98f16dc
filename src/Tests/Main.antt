-- ===== src/Tests/Main.antt =====
-- src/mdio/main.c: the theorem on the start of mdio, where the kernel's module is loaded first.
use mdio_tools.Prelude.{ℕ, zero, suc, true, some, Option, [], ◌∷◌, refl}
use mdio_tools.Tool.Args.{codes, argv_pop}
use mdio_tools.Tool.Transport.{
  Socket, FamilyRequest, in_error, in_nothing, incoming, Incoming, exited, mdio_init, mdio_modprobe,
  msg_recv, family_id_cb, for_each,
}
use mdio_tools.Tool.Main.{
  Start, lists, main, main_bus, main_again, main_netlink, options, bus_list, bus_list_cb, MainEnds,
  main-MainEnds,
}
use mdio_tools.Tests.Bus.{test_libc}

-- The world is 0 without the module and 1 with it; 2 is behind the reply.
abbrev received : ℕ → Incoming ℕ × ℕ
received zero = (in_error, 0)
received (suc zero) = (incoming 22, 2)
received (suc (suc n)) = (in_nothing, suc (suc n))

abbrev controller : Socket ℕ ℕ FamilyRequest (Option ℕ) ℕ
controller = record {
  send_to = λ x w. (true, w);
  recv_from = received;
  cb_run = λ f d s. f (some d) s;
  headers = 20;
  attr_size = λ n. n;
}

abbrev cold_start : Start ℕ ℕ
cold_start = record {
  getopt = λ argv. ([], argv);
  ctrl = controller;
  genl_id_ctrl = 16;
  modprobe = λ w. (exited 0, 1);
  glob = λ pattern. codes "fixed-0" ∷ [];
}

main-MainEnds_example : MainEnds test_libc cold_start 3 [] 0 (lists (codes "fixed-0" ∷ []))
unfolding main main_netlink main_again main_bus options bus_list bus_list_cb for_each mdio_init
    mdio_modprobe msg_recv family_id_cb argv_pop
main-MainEnds_example =
    main-MainEnds test_libc cold_start 3 [] 0 (lists (codes "fixed-0" ∷ [])) refl
