-- ===== src/Tool/Args.antt =====
-- src/mdio/mdio.h: the walk over the command line, and the results of fallible calls.
-- A text is the list of its bytes, without the closing NUL.
use Prim.Native.Char.{code}
use Prim.Native.String.{String}
use mdio_tools.Prelude.{ℕ, List, [], ◌∷◌, ◌==◌, Bool, true, false, ◌&&◌, Option, none, some}

abbrev pub Text : Type 0
Text = List ℕ

abbrev pub codes : String → Text
codes String.[] = []
codes (String.◌∷◌ c s) = code c ∷ codes s

-- `!strcmp(a, b)`
abbrev pub text_eq : Text → Text → Bool
text_eq [] [] = true
text_eq [] (b ∷ y) = false
text_eq (a ∷ x) [] = false
text_eq (a ∷ x) (b ∷ y) = a == b && text_eq x y

abbrev pub Argv : Type 0
Argv = List Text

-- argv_peek
unfoldable pub argv_peek : Argv → Option Text
argv_peek [] = none
argv_peek (a ∷ args) = some a

-- argv_pop, which also moves on
unfoldable pub argv_pop : Argv → Option Text × Argv
argv_pop [] = (none, [])
argv_pop (a ∷ args) = (some a, args)

-- A call that returns 0 and leaves a value, or returns an error code.
pub data Result {ℓ} (A : Type ℓ) : Type ℓ where
  ok : A → Result A
  err : ℕ → Result A

infixl 5 ◌>>=◌
abbrev pub ◌>>=◌ {ℓ κ} : {A : Type ℓ} {B : Type κ} → Result A → (A → Result B) → Result B
ok a >>= f = f a
err e >>= f = err e

abbrev pub einval : ℕ
einval = 22

abbrev pub erange : ℕ
erange = 34

abbrev pub enosys : ℕ
enosys = 38

abbrev pub enodev : ℕ
enodev = 19

-- What the tool calls of the C library and of <linux/mdio.h>: `strtoul` and `strtoull` with base 0
-- give the number and the text behind it, the latter also whether `errno` was set; `strtok` with
-- ":" gives a token and the text that the next call goes on with; then the constructor of a
-- Clause 45 PHY id and its bit fields.
pub record Libc : Type 0 where
  pub strtoul : Text → ℕ × Text
  pub strtol : Text → Bool × ℕ
  pub strtoull : Text → ℕ × Text × Bool
  pub strtok : Text → Option (Text × Text)
  pub phy_id_c45 : ℕ → ℕ → ℕ
  pub phy_id_is_c45 : ℕ → Bool
  pub phy_id_prtad : ℕ → ℕ
  pub phy_id_devad : ℕ → ℕ
