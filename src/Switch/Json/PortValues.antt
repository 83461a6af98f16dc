-- ===== src/Switch/Json/PortValues.antt =====
-- src/mvls/mvls-json.c: the values that stand for the ports, and that the printed list is these values.
use mdio_tools.Prelude.{
  ℕ, Bool, true, false, Option, none, some, List, [], ◌∷◌, ◌++◌, ◌≡◌, refl, ap, ◌∙◌, subst,
  append_assoc, append-nil, get_or,
}
use mdio_tools.Tool.Args.{Text, codes}
use mdio_tools.Switch.Tables.{bits, bit, opal_port_lag, opal_port_fid}
use mdio_tools.Switch.Env.{Port}
use mdio_tools.Switch.Json.Ports.{
  port_state, port_fmode, port_emode, port_8021q, lag_text, port_members,
}
use mdio_tools.Switch.Json.{when, name_of}
use mdio_tools.Switch.Json.Grammar.{
  num, str, truth, Members, no_members, member, plain, plain_char, is_str, is_true, Fields,
  first_field, MoreFields, fields_end, next_field,
}
use mdio_tools.Switch.Json.Lexemes.{dec-Denotes, name_of-plain}
use mdio_tools.Switch.Json.Entries.{optional, str-MoreFields}

-- The members of the object for a port.
unfoldable pub port_values : ℕ → Port → List ℕ → Members
port_values index p regs =
    let ctrl = get_or regs 4 0 in
    let ctrl2 = get_or regs 8 0 in
    let flags = optional (bit ctrl 2) (codes "flood-unicast") truth (
      optional (bit ctrl 3) (codes "flood-multicast") truth (
        optional (bit ctrl2 8) (codes "allow-untagged") truth
          (optional (bit ctrl2 9) (codes "allow-tagged") truth no_members))) in
    member (codes "netdev") (str p.netdev) (
      member (codes "dev") (num index) (
        member (codes "port") (num p.index) (
          member (codes "state") (str (name_of port_state (bits ctrl 0 2))) (
            member (codes "frame-mode") (str (name_of port_fmode (bits ctrl 8 2))) (
              member (codes "egress-mode") (str (name_of port_emode (bits ctrl 12 2))) (
                member (codes "802.1q") (str (name_of port_8021q (bits ctrl2 10 2))) (
                  member (codes "pvid") (num (bits (get_or regs 7 0) 0 12)) (
                    member (codes "fid") (num (opal_port_fid regs)) (elim (opal_port_lag regs) [
                      | none ↦ flags
                      | some lag ↦ member (codes "lag") (num lag) flags
                    ])))))))))

lag_text-MoreFields :
    (lag : Option ℕ) (t : Text) (ms : Members)
    → MoreFields t ms
    → MoreFields
        (lag_text lag ++ t)
        (elim lag [ none ↦ ms | some l ↦ member (codes "lag") (num l) ms ])
unfolding lag_text plain plain_char
lag_text-MoreFields none t ms h = h
lag_text-MoreFields (some lag) t ms h = next_field {k = codes "lag"} refl (dec-Denotes lag) h

-- A flag behind others.
flag-MoreFields :
    (b : Bool) (k t : Text) (ms : Members)
    → plain k ≡ true
    → MoreFields t ms
    → MoreFields (when b ((44 ∷ 34 ∷ k) ++ (34 ∷ 58 ∷ codes "true")) ++ t) (optional b k truth ms)
flag-MoreFields true k t ms hk h = next_field {k = k} hk is_true h
flag-MoreFields false k t ms hk h = h

four_plain :
    (a b c d : Text)
    → plain a ≡ true
    → plain b ≡ true
    → plain c ≡ true
    → plain d ≡ true
    → (i : ℕ) → plain (name_of (a ∷ b ∷ c ∷ d ∷ []) i) ≡ true
four_plain a b c d ha hb hc hd i = name_of-plain (a ∷ b ∷ c ∷ d ∷ []) i (ha, (hb, (hc, (hd, tt))))

last_flag :
    (b : Bool) (k : Text)
    → plain k ≡ true
    → MoreFields
        (when b ((44 ∷ 34 ∷ k) ++ (34 ∷ 58 ∷ codes "true")))
        (optional b k truth no_members)
last_flag b k h =
    subst (λ x. MoreFields x (optional b k truth no_members))
      (append-nil (when b ((44 ∷ 34 ∷ k) ++ (34 ∷ 58 ∷ codes "true"))))
      (flag-MoreFields b k [] no_members h fields_end)

first_str :
    (k s t : Text) (ms : Members)
    → plain k ≡ true
    → plain s ≡ true
    → MoreFields t ms
    → Fields ((34 ∷ k) ++ (34 ∷ 58 ∷ 34 ∷ (s ++ 34 ∷ t))) (member k (str s) ms)
first_str k s t ms hk hs more =
    subst (λ x. Fields x (member k (str s) ms))
      (append_assoc (34 ∷ k) (34 ∷ 58 ∷ (34 ∷ s ++ 34 ∷ [])) t
        ∙ ap (λ x. (34 ∷ k) ++ (34 ∷ 58 ∷ 34 ∷ x)) (append_assoc s (34 ∷ []) t))
      (first_field {k = k} hk (is_str hs) more)

pub port_members-Fields :
    (index : ℕ) (p : Port) (regs : List ℕ)
    → plain p.netdev ≡ true
    → Fields (port_members index p regs) (port_values index p regs)
unfolding port_members port_values plain plain_char
port_members-Fields index p regs h =
    let ctrl = get_or regs 4 0 in
    let ctrl2 = get_or regs 8 0 in
    let untagged =
      flag-MoreFields (bit ctrl2 8) (codes "allow-untagged") _ _ refl
        (last_flag (bit ctrl2 9) (codes "allow-tagged") refl) in
    let multicast = flag-MoreFields (bit ctrl 3) (codes "flood-multicast") _ _ refl untagged in
    let unicast = flag-MoreFields (bit ctrl 2) (codes "flood-unicast") _ _ refl multicast in
    first_str (codes "netdev") p.netdev _ _ refl h (
      next_field {k = codes "dev"} refl (dec-Denotes index) (
        next_field {k = codes "port"} refl (dec-Denotes p.index) (
          str-MoreFields (codes "state") (name_of port_state (bits ctrl 0 2)) _ _ refl
            (four_plain _ _ _ _ refl refl refl refl (bits ctrl 0 2))
            (str-MoreFields (codes "frame-mode") (name_of port_fmode (bits ctrl 8 2)) _ _ refl
              (four_plain _ _ _ _ refl refl refl refl (bits ctrl 8 2))
              (str-MoreFields (codes "egress-mode") (name_of port_emode (bits ctrl 12 2)) _ _ refl
                (four_plain _ _ _ _ refl refl refl refl (bits ctrl 12 2))
                (str-MoreFields (codes "802.1q") (name_of port_8021q (bits ctrl2 10 2)) _ _ refl
                  (four_plain _ _ _ _ refl refl refl refl (bits ctrl2 10 2))
                  (next_field {k = codes "pvid"} refl (dec-Denotes (bits (get_or regs 7 0) 0 12)) (
                    next_field {k = codes "fid"} refl (dec-Denotes (opal_port_fid regs))
                      (lag_text-MoreFields (opal_port_lag regs) _ _ unicast)))))))))
