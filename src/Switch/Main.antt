-- ===== src/Switch/Main.antt =====
-- src/mvls/mvls.h and src/mvls/mvls.c: a printer, and what `main` prints with it.
use mdio_tools.Prelude.{
  ℕ, if◌then◌else◌, Bool, true, false, Option, none, some, List, [], ◌∷◌, ◌++◌, ◌≡◌, ◌⊎◌, inl, inr,
  ◌==◌,
}
use mdio_tools.Tool.Args.{Text, codes, text_eq}
use mdio_tools.Switch.Env.{Dev, Env, dev_get}

-- What is printed from a world on, and the world behind it; `none` where the tool does not get there.
abbrev pub Out : Type 0 → Type 0
Out W = Option (Text × W)

-- struct printer
pub record Printer (W : Type 0) : Type 0 where
  pub env_print_ports : Option (Env → W → Out W)
  pub env_print_atu : Option (Env → W → Out W)
  pub env_print_vtu : Option (Env → W → Out W)
  pub env_print_stu : Option (Env → W → Out W)
  pub env_print_pvt : Option (Env → W → Out W)
  pub dev_print_pvt : Option (Dev → W → Out W)
  pub prologue : Option Text
  pub join : Option Text
  pub epilogue : Option Text

module _ {W : Type 0} where
  -- The inline functions of the header, which do nothing where the printer has no such function.
  abbrev pub call : {A : Type 0} → Option (A → W → Out W) → A → W → Out W
  call none a w = some ([], w)
  call (some f) a w = f a w

  abbrev pub put : Option Text → W → Out W
  put none w = some ([], w)
  put (some t) w = some (t, w)

  unfoldable pub in_turn : List (W → Out W) → W → Out W
  in_turn [] w = some ([], w)
  in_turn (f ∷ fs) w = elim (f w) [
    | none ↦ none
    | some (t, w') ↦ elim (in_turn fs w') [ none ↦ none | some (t', w'') ↦ some (t ++ t', w'') ]
  ]

  -- Four tables with what stands around and between them.
  pub in_turn-four :
      (before join after : Text) (f g h k : W → Out W) {w w1 w2 w3 w4 : W} {tf tg th tk : Text}
      → f w ≡ some (tf, w1)
      → g w1 ≡ some (tg, w2)
      → h w2 ≡ some (th, w3)
      → k w3 ≡ some (tk, w4)
      → in_turn
          (put (some before)
            ∷ f
            ∷ put (some join)
            ∷ g
            ∷ put (some join)
            ∷ h
            ∷ put (some join)
            ∷ k
            ∷ put (some after)
            ∷ [])
          w
        ≡ some (
          before ++ (tf ++ (join ++ (tg ++ (join ++ (th ++ (join ++ (tk ++ (after ++ [])))))))),
          w4,
        )
  unfolding in_turn
  in_turn-four before join after f g h k a b c d = rw (in_turn, a, b, c, d)

  abbrev pub on : Bool → (W → Out W) → W → Out W
  on b f w = if b then f w else some ([], w)

  abbrev pub ending : Bool → Out W → Option (Bool × Text × W)
  ending good none = none
  ending good (some (t, w)) = some (good, t, w)

  -- `main` from print_prologue on. `index_of` is strtol, with `none` for a negative index; the result
  -- tells whether an unknown device has ended the tool with an error, behind the text that is printed.
  unfoldable pub main_print :
      Printer W → (Text → Option ℕ) → List Text → Env → W → Option (Bool × Text × W)
  unfolding in_turn
  main_print p index_of [] env w = ending true (
      in_turn
        (put p.prologue
          ∷ call p.env_print_vtu env
          ∷ put p.join
          ∷ call p.env_print_stu env
          ∷ put p.join
          ∷ call p.env_print_atu env
          ∷ put p.join
          ∷ call p.env_print_ports env
          ∷ put p.epilogue
          ∷ [])
        w)
  main_print p index_of (cmd ∷ args) env w =
      let tables =
        put p.prologue
        ∷ on (text_eq cmd (codes "port")) (call p.env_print_ports env)
        ∷ on (text_eq cmd (codes "atu")) (call p.env_print_atu env)
        ∷ on (text_eq cmd (codes "vtu")) (call p.env_print_vtu env)
        ∷ on (text_eq cmd (codes "stu")) (call p.env_print_stu env)
        ∷ [] in
      let finish =
        λ (last : List (W → Out W)) (good : Bool). ending good (in_turn (tables ++ last) w) in
      if text_eq cmd (codes "pvt")
      then elim args [
        | [] ↦ finish (call p.env_print_pvt env ∷ put p.epilogue ∷ []) true
        | arg ∷ _ ↦ elim (index_of arg) [
          | none ↦ finish [] false
          | some i ↦ elim (dev_get env.devs i) [
            | none ↦ finish [] false
            | some d ↦ finish (call p.dev_print_pvt d ∷ put p.epilogue ∷ []) true
          ]
        ]
      ]
      else finish (put p.epilogue ∷ []) true

  -- The loop over the options of main: the printer that they choose, or the status of an exit.
  unfoldable pub options : Printer W → List ℕ → Printer W → ℕ ⊎ Printer W
  options json [] p = inr p
  options json (opt ∷ opts) p =
      let more = options json opts json in
      if opt == b'h'
      then inl 0
      else if opt == b'j'
      then more
      else if opt == b'v'
      then inl 0
      else inl 1

  -- main: `opts` and `args` are what getopt gives, and `env` what env_init does, `none` where it fails;
  -- the result is the status, and what is printed but for usage and version.
  unfoldable pub main :
      Printer W
      → Printer W
      → (Text → Option ℕ)
      → List ℕ
      → List Text
      → Option Env × W
      → Option (ℕ × Text × W)
  unfolding options main_print
  main show json index_of opts args (env, w) = elim (options json opts show) [
    | inl status ↦ some (status, [], w)
    | inr p ↦ elim env [
      | none ↦ some (1, [], w)
      | some e ↦ elim (main_print p index_of args e w) [
        | none ↦ none
        | some (good, t, w') ↦ some (if good then 0 else 1, t, w')
      ]
    ]
  ]
