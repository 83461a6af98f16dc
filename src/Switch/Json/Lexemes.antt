-- ===== src/Switch/Json/Lexemes.antt =====
-- src/mvls/mvls-json.c: the numbers, addresses and lists of ports that it prints are JSON.
use mdio_tools.Prelude.{
  ℕ, zero, suc, ◌+◌, ◌/◌, ◌%◌, ◌<◌, ◌==◌, if◌then◌else◌, Bool-cases, true, false, List, [], ◌∷◌,
  ◌++◌, ◌≡◌, inl, inr, refl, sym, subst, ◌∙◌, arith, append_assoc, append-nil, get_or, All,
}
use mathlib.Core.Bool.{true≢false}
use mdio_tools.Tool.Args.{Text, codes}
use mdio_tools.Switch.Tables.{bit, AtuEntry}
use mdio_tools.Switch.Json.{
  dec_from, dec, digit, mac, out, name_of, atu_uc_str, atu_mc_str, atu_state_str, portvec_from,
  json_print_portvec,
}
use mdio_tools.Switch.Json.Grammar.{
  num, arr, Values, no_values, value, Members, member, IsDec, one_digit, more_digits, plain_char,
  plain, Denotes, is_num, is_arr, Items, no_items, first_item, MoreItems, items_end, next_item,
  MoreFields, next_field,
}

dec_from-IsDec :
    (fuel n : ℕ) (t : Text) → n < fuel → (u : Text) × (dec_from fuel n t ≡ u ++ t) × IsDec u n
unfolding dec_from
dec_from-IsDec zero n t lt = elim lt [ ]
dec_from-IsDec (suc fuel) n t lt = elim (Bool-cases (n / 10 == 0)) [
  | inl e ↦ (
    (48 + n % 10) ∷ [],
    rw (dec_from, e),
    subst (IsDec ((48 + n % 10) ∷ [])) (ground arith) (one_digit (n % 10) (omega arith)),
  )
  | inr e ↦
      let (u, is, good) = dec_from-IsDec fuel (n / 10) ((48 + n % 10) ∷ t) (ground arith) in
      (
        u ++ (48 + n % 10) ∷ [],
        rw (dec_from, e) (is ∙ sym (append_assoc u ((48 + n % 10) ∷ []) t)),
        subst (IsDec (u ++ (48 + n % 10) ∷ [])) (omega arith)
            (more_digits (n % 10) (ground arith) good (omega arith)),
      )
]

pub dec-Denotes : (n : ℕ) → Denotes (dec n) (num n)
dec-Denotes n =
    let (u, is, good) = dec_from-IsDec (suc n) n [] (omega arith) in
    is_num (subst (λ t. IsDec t n) (sym (is ∙ append-nil u)) good)

pub plain-append : (s t : Text) → plain s ≡ true → plain t ≡ true → plain (s ++ t) ≡ true
unfolding plain
plain-append [] t hs ht = ht
plain-append (c ∷ s) t hs ht = elim (Bool-cases (plain_char c)) [
  | inl e ↦ rw (plain, e) (plain-append s t (sym (rw (plain, e)) ∙ hs) ht)
  | inr e ↦ absurd (true≢false (sym hs ∙ rw (plain, e)))
]

plain-digit : (d : ℕ) → d < 16 → plain_char (digit d) ≡ true
unfolding plain_char
plain-digit d lt = ground arith

-- The ports of a vector, `n` of them from port `i` on.
unfoldable pub ports_of : ℕ → ℕ → ℕ → Values
ports_of zero i v = no_values
ports_of (suc n) i v =
    if bit v i then value (num i) (ports_of n (suc i) v) else ports_of n (suc i) v

portvec_from-MoreItems : (n i v : ℕ) → MoreItems (portvec_from n i false v) (ports_of n i v)
unfolding portvec_from ports_of
portvec_from-MoreItems zero i v = items_end
portvec_from-MoreItems (suc n) i v = elim (Bool-cases (bit v i)) [
  | inl e ↦
      rw (portvec_from, ports_of, e)
        (next_item (dec-Denotes i) (portvec_from-MoreItems n (suc i) v))
  | inr e ↦ rw (portvec_from, ports_of, e) (portvec_from-MoreItems n (suc i) v)
]

portvec_from-Items : (n i v : ℕ) → Items (portvec_from n i true v) (ports_of n i v)
unfolding portvec_from ports_of
portvec_from-Items zero i v = no_items
portvec_from-Items (suc n) i v = elim (Bool-cases (bit v i)) [
  | inl e ↦
      rw (portvec_from, ports_of, e)
        (first_item (dec-Denotes i) (portvec_from-MoreItems n (suc i) v))
  | inr e ↦ rw (portvec_from, ports_of, e) (portvec_from-Items n (suc i) v)
]

-- A member that is an array, behind others.
arr-MoreFields :
    (k p : Text) {t : Text} {vs : Values} {ms : Members}
    → plain k ≡ true
    → Items p vs
    → MoreFields t ms
    → MoreFields
        (out (codes ",\"" ∷ k ∷ codes "\":[" ∷ p ∷ codes "]" ∷ []) ++ t)
        (member k (arr vs) ms)
arr-MoreFields k p {t} h items more = next_field {k = k} h (is_arr items) more

-- A member with the ports of a vector, behind others.
pub json_print_portvec-MoreFields :
    (k : Text) (v : ℕ) {t : Text} {ms : Members}
    → plain k ≡ true
    → MoreFields t ms
    → MoreFields (json_print_portvec k v ++ t) (member k (arr (ports_of 11 0 v)) ms)
unfolding json_print_portvec
json_print_portvec-MoreFields k v h more =
    arr-MoreFields k (portvec_from 11 0 true v) h (portvec_from-Items 11 0 v) more

pub mac-plain : (a : List ℕ) → plain (mac a) ≡ true
unfolding plain plain_char
mac-plain a =
    let high = λ (i : ℕ). plain-digit (get_or a i 0 / 16 % 16) (omega arith) in
    let low = λ (i : ℕ). plain-digit (get_or a i 0 % 16) (omega arith) in
    rw (high 0, low 0, high 1, low 1, high 2, low 2, high 3, low 3, high 4, low 4, high 5, low 5)

-- A name out of a table of plain names, or the empty one behind its end, is plain.
pub name_of-plain :
    (names : List Text) (i : ℕ) → All (λ t. plain t ≡ true) names → plain (name_of names i) ≡ true
unfolding plain
name_of-plain [] zero h = refl
name_of-plain [] (suc i) h = refl
name_of-plain (t ∷ ts) zero (h, hs) = h
name_of-plain (t ∷ ts) (suc i) (h, hs) = name_of-plain ts i hs

pub atu_state_str-plain : (e : AtuEntry) → plain (atu_state_str e) ≡ true
unfolding plain plain_char
atu_state_str-plain e = elim (Bool-cases (get_or e.addr 0 0 % 2 == 1)) [
  | inl t ↦ rw t (
      name_of-plain atu_mc_str e.state (
        refl,
        (
          refl,
          (
            refl,
            (
              refl,
              (
                refl,
                (
                  refl,
                  (
                    refl,
                    (refl, (refl, (refl, (refl, (refl, (refl, (refl, (refl, (refl, tt))))))))),
                  ),
                ),
              ),
            ),
          ),
        ),
      ))
  | inr t ↦ rw t (
      name_of-plain atu_uc_str e.state (
        refl,
        (
          refl,
          (
            refl,
            (
              refl,
              (
                refl,
                (
                  refl,
                  (
                    refl,
                    (refl, (refl, (refl, (refl, (refl, (refl, (refl, (refl, (refl, tt))))))))),
                  ),
                ),
              ),
            ),
          ),
        ),
      ))
]
