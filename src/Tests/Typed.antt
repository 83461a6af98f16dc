-- ===== src/Tests/Typed.antt =====
-- src/mdio: the theorem on the programs of the tool, at concrete inputs.
use mdio_tools.Prelude.{◌≡◌, some, none}
use mdio_tools.Isa.{Prog}
use mdio_tools.Tool.Args.{ok}
use mdio_tools.Tool.Common.{Request, raw_prog, bench_expect, bench_loop}
use mdio_tools.Tool.LinkStreet.{mvls_driver}
use mdio_tools.Tool.Typed.Drivers.{a_switch}
use mdio_tools.Tool.Typed.Commands.{Accepted, tool_programs-Accepted}
use mdio_tools.Tests.Bus.{test_libc}

-- A masked write of register 28 of global1 of the switch 4, and a benchmark of it.
tool_programs-Accepted_example :
    ((req : Request) × (raw_prog (mvls_driver test_libc 4) 0x1b001c (some (0xa, 0xfff0)) ≡ ok req)
      × Accepted req.prog)
    × ((first : Prog) × (prog : Prog) × (bench_expect (mvls_driver test_libc 4) 0x1b001c none
          ≡ ok first)
        × (bench_loop (mvls_driver test_libc 4) 0x1b001c first ≡ ok prog)
        × Accepted prog)
tool_programs-Accepted_example =
    tool_programs-Accepted {c = test_libc} (a_switch 4) 0x1b001c (some (0xa, 0xfff0)) none
