-- ===== src/Tool/Device.antt =====
-- src/mdio/mdio.h: `struct mdio_driver` and `struct mdio_device`.
use mdio_tools.Prelude.{ℕ, Bool, Option}
use mdio_tools.Isa.{Prog}
use mdio_tools.Tool.Args.{Argv, Result}

-- struct reg_range
pub record RegRange : Type 0 where
  pub start : ℕ
  pub end : ℕ

-- An operation takes the program built so far and gives it extended. `dump` also gives the range
-- as it leaves it, and `none` if its loop never ends. A parser takes whether a range (or a mask) is allowed, that is, whether its
-- second result pointer is not NULL, and the arguments; it gives both results and the arguments
-- left.
pub record Driver : Type 0 where
  pub read : Prog → ℕ → Result Prog
  pub write : Prog → ℕ → ℕ → Result Prog
  pub dump : Option (Prog → RegRange → Option (Result (Prog × RegRange)))
  pub parse_reg : Option (Bool → Argv → Result (RegRange × Argv))
  pub parse_val : Option (Bool → Argv → Result ((ℕ × ℕ) × Argv))

pub record Device : Type 0 where
  pub driver : Driver
  pub max : ℕ
  pub stride : ℕ
  pub width : ℕ
