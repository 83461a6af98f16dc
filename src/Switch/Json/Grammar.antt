-- ===== src/Switch/Json/Grammar.antt =====
-- The grammar of JSON, as far as src/mvls/mvls-json.c uses it: which value a text stands for.
use mdio_tools.Prelude.{
  ℕ, ◌+◌, ◌*◌, ◌<◌, ◌==◌, leb, not, ◌&&◌, Bool, true, false, if◌then◌else◌, [], ◌∷◌, ◌++◌, ◌≡◌,
}
use mdio_tools.Tool.Args.{Text, codes}

mutual
  pub data Value : Type 0 where
    num : ℕ → Value
    str : Text → Value
    truth : Value
    arr : Values → Value
    obj : Members → Value

  pub data Values : Type 0 where
    no_values : Values
    value : Value → Values → Values

  pub data Members : Type 0 where
    no_members : Members
    member : Text → Value → Members → Members

-- A text of decimal digits without a leading zero, and its number.
pub data IsDec : Text → ℕ → Type 0 where
  one_digit : (d : ℕ) → d < 10 → IsDec ((48 + d) ∷ []) d
  more_digits :
      {t : Text} {n : ℕ} (d : ℕ)
      → 0 < n
      → IsDec t n
      → d < 10
      → IsDec (t ++ (48 + d) ∷ []) (n * 10 + d)

-- No control character, quote or backslash.
unfoldable pub plain_char : ℕ → Bool
plain_char c = leb 32 c && (not (c == 34) && not (c == 92))

unfoldable pub plain : Text → Bool
unfolding plain_char
plain [] = true
plain (c ∷ t) = if plain_char c then plain t else false

mutual
  pub data Denotes : Text → Value → Type 0 where
    is_num : {t : Text} {n : ℕ} → IsDec t n → Denotes t (num n)
    is_str : {s : Text} → plain s ≡ true → Denotes (34 ∷ s ++ 34 ∷ []) (str s)
    is_true : Denotes (codes "true") truth
    is_arr : {t : Text} {vs : Values} → Items t vs → Denotes (91 ∷ t ++ 93 ∷ []) (arr vs)
    is_obj : {t : Text} {ms : Members} → Fields t ms → Denotes (123 ∷ t ++ 125 ∷ []) (obj ms)

  -- The values of an array, and those behind its first, with their commas.
  pub data Items : Text → Values → Type 0 where
    no_items : Items [] no_values
    first_item :
        {t t' : Text} {v : Value} {vs : Values}
        → Denotes t v
        → MoreItems t' vs
        → Items (t ++ t') (value v vs)

  pub data MoreItems : Text → Values → Type 0 where
    items_end : MoreItems [] no_values
    next_item :
        {t t' : Text} {v : Value} {vs : Values}
        → Denotes t v
        → MoreItems t' vs
        → MoreItems (44 ∷ t ++ t') (value v vs)

  -- The members of an object, and those behind its first; one space may stand in front of a value.
  pub data Fields : Text → Members → Type 0 where
    no_fields : Fields [] no_members
    first_field :
        {k t t' : Text} {v : Value} {ms : Members}
        → plain k ≡ true
        → Denotes t v
        → MoreFields t' ms
        → Fields (34 ∷ k ++ 34 ∷ 58 ∷ t ++ t') (member k v ms)

  pub data MoreFields : Text → Members → Type 0 where
    fields_end : MoreFields [] no_members
    next_field :
        {k t t' : Text} {v : Value} {ms : Members}
        → plain k ≡ true
        → Denotes t v
        → MoreFields t' ms
        → MoreFields (44 ∷ 34 ∷ k ++ 34 ∷ 58 ∷ t ++ t') (member k v ms)
    spaced_field :
        {k t t' : Text} {v : Value} {ms : Members}
        → plain k ≡ true
        → Denotes t v
        → MoreFields t' ms
        → MoreFields (44 ∷ 34 ∷ k ++ 34 ∷ 58 ∷ 32 ∷ t ++ t') (member k v ms)
