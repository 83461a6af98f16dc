-- ===== src/Switch/Show/Printing.antt =====
-- src/mvls/mvls-show.c: printer_show.
use mdio_tools.Prelude.{none, some}
use mdio_tools.Tool.Args.{Text, codes}
use mdio_tools.Switch.Env.{Port, Dev}
use mdio_tools.Switch.Entries.{Load}
use mdio_tools.Switch.Main.{Printer}
use mdio_tools.Switch.Show.{newline, env_show_ports, env_show_atu, env_show_vtu, env_show_stu}
use mdio_tools.Switch.Show.Matrix.{env_show_pvt, dev_show_pvt}

abbrev pub printer_show :
    {W : Type 0} → (Text → Dev → W → Load × W) → (Dev → Port → W → Load × W) → Printer W
printer_show load load_port = record {
  env_print_ports = some (λ env w. env_show_ports load_port env.devs w);
  env_print_atu = some (λ env w. env_show_atu load env.devs w);
  env_print_vtu = some (λ env w. env_show_vtu load env.devs w);
  env_print_stu = some (λ env w. env_show_stu load env.devs w);
  env_print_pvt = some (λ env w. env_show_pvt (load (codes "pvt")) load_port env.devs w);
  dev_print_pvt = some (λ d w. dev_show_pvt (load (codes "pvt")) load_port d w);
  prologue = none;
  join = some newline;
  epilogue = none;
}
