-- ===== src/Switch/Json/Entries.antt =====
-- src/mvls/mvls-json.c: the values that stand for the entries of the ATU, VTU and STU, and that the
-- printed tables are these values in JSON.
use mdio_tools.Prelude.{
  ℕ, if◌then◌else◌, Bool, true, false, [], ◌∷◌, ◌++◌, ◌≡◌, refl, ap, subst, ◌∙◌, append_assoc,
  append-nil,
}
use mdio_tools.Tool.Args.{Text, codes}
use mdio_tools.Switch.Tables.{VtuEntry, StuEntry, AtuEntry}
use mdio_tools.Switch.Json.{
  dec, mac, when, json_print_portvec, atu_state_str, atu_members, VtuMasks, vtu_members, StuMasks,
  stu_members,
}
use mdio_tools.Switch.Json.Grammar.{
  Value, num, str, truth, arr, Members, no_members, member, plain, plain_char, is_str, is_true,
  Fields, first_field, MoreFields, fields_end, next_field, spaced_field,
}
use mdio_tools.Switch.Json.Lexemes.{
  dec-Denotes, ports_of, mac-plain, atu_state_str-plain, json_print_portvec-MoreFields,
}

abbrev pub optional : Bool → Text → Value → Members → Members
optional true k v ms = member k v ms
optional false k v ms = ms

pub when-MoreFields :
    (b : Bool) (k p t : Text) (v : Value) (ms : Members)
    → MoreFields (p ++ t) (member k v ms)
    → MoreFields t ms
    → MoreFields (when b p ++ t) (optional b k v ms)
when-MoreFields true k p t v ms with_it without = with_it
when-MoreFields false k p t v ms with_it without = without

-- A string member behind others.
pub str-MoreFields :
    (k s t : Text) (ms : Members)
    → plain k ≡ true
    → plain s ≡ true
    → MoreFields t ms
    → MoreFields ((44 ∷ 34 ∷ k) ++ (34 ∷ 58 ∷ 34 ∷ (s ++ 34 ∷ t))) (member k (str s) ms)
str-MoreFields k s t ms hk hs more =
    subst (λ x. MoreFields x (member k (str s) ms))
      (append_assoc (44 ∷ 34 ∷ k) (34 ∷ 58 ∷ (34 ∷ s ++ 34 ∷ [])) t
        ∙ ap (λ x. (44 ∷ 34 ∷ k) ++ (34 ∷ 58 ∷ 34 ∷ x)) (append_assoc s (34 ∷ []) t))
      (next_field {k = k} hk (is_str hs) more)

-- The members of the object for an entry of the ATU.
unfoldable pub atu_values : ℕ → AtuEntry → Members
atu_values index e = member (codes "dev") (num index) (
    member (codes "fid") (num e.fid) (
      member (codes "address") (str (mac e.addr)) (
        member (codes "state") (str (atu_state_str e)) (
          optional e.qpri.set (codes "queue-prio-override") (num e.qpri.pri) (
            optional e.fpri.set (codes "frame-prio-override") (num e.fpri.pri) (
              if e.lag
              then member (codes "lag") (num e.portvec) no_members
              else member (codes "ports") (arr (ports_of 11 0 e.portvec)) no_members))))))

atu_last :
    (lag : Bool) (v : ℕ)
    → MoreFields
        (if lag then codes ",\"lag\": " ++ dec v else json_print_portvec (codes "ports") v)
        (if lag
          then member (codes "lag") (num v) no_members
          else member (codes "ports") (arr (ports_of 11 0 v)) no_members)
unfolding plain plain_char
atu_last true v =
    subst (λ x. MoreFields x (member (codes "lag") (num v) no_members))
      (append-nil (codes ",\"lag\": " ++ dec v))
      (spaced_field {k = codes "lag"} refl (dec-Denotes v) fields_end)
atu_last false v =
    subst (λ x. MoreFields x (member (codes "ports") (arr (ports_of 11 0 v)) no_members))
      (append-nil (json_print_portvec (codes "ports") v))
      (json_print_portvec-MoreFields (codes "ports") v refl fields_end)

pub atu_members-Fields :
    (index : ℕ) (e : AtuEntry) → Fields (atu_members index e) (atu_values index e)
unfolding atu_members atu_values plain plain_char
atu_members-Fields index e =
    let last = atu_last e.lag e.portvec in
    let fpri =
      when-MoreFields e.fpri.set (codes "frame-prio-override") _ _ (num e.fpri.pri) _
        (spaced_field {k = codes "frame-prio-override"} refl (dec-Denotes e.fpri.pri) last) last in
    let qpri =
      when-MoreFields e.qpri.set (codes "queue-prio-override") _ _ (num e.qpri.pri) _
        (spaced_field {k = codes "queue-prio-override"} refl (dec-Denotes e.qpri.pri) fpri) fpri in
    first_field {k = codes "dev"} refl (dec-Denotes index) (
      next_field {k = codes "fid"} refl (dec-Denotes e.fid) (
        str-MoreFields (codes "address") (mac e.addr) _ _ refl (mac-plain e.addr)
          (str-MoreFields (codes "state") (atu_state_str e) _ _ refl (atu_state_str-plain e) qpri)))

-- The members of the object for an entry of the VTU, with the masks as the entry leaves them.
unfoldable pub vtu_values : ℕ → VtuEntry → VtuMasks → Members
vtu_values index e m = member (codes "dev") (num index) (
    member (codes "vid") (num e.vid) (
      member (codes "fid") (num e.fid) (
        member (codes "sid") (num e.sid) (
          optional e.policy (codes "policy") truth (
            member (codes "unmodified") (arr (ports_of 11 0 m.unmod)) (
              member (codes "untagged") (arr (ports_of 11 0 m.untag))
                (member (codes "tagged") (arr (ports_of 11 0 m.tag)) no_members)))))))

last_portvec :
    (k : Text) (v : ℕ)
    → plain k ≡ true
    → MoreFields (json_print_portvec k v) (member k (arr (ports_of 11 0 v)) no_members)
last_portvec k v h =
    subst (λ x. MoreFields x (member k (arr (ports_of 11 0 v)) no_members))
      (append-nil (json_print_portvec k v)) (json_print_portvec-MoreFields k v h fields_end)

pub vtu_members-Fields :
    (index : ℕ) (e : VtuEntry) (m : VtuMasks)
    → Fields (vtu_members index e m) (vtu_values index e m)
unfolding vtu_members vtu_values plain plain_char
vtu_members-Fields index e m =
    let vectors = json_print_portvec-MoreFields (codes "unmodified") m.unmod refl (
      json_print_portvec-MoreFields (codes "untagged") m.untag refl
        (last_portvec (codes "tagged") m.tag refl)) in
    first_field {k = codes "dev"} refl (dec-Denotes index) (
      next_field {k = codes "vid"} refl (dec-Denotes e.vid) (
        next_field {k = codes "fid"} refl (dec-Denotes e.fid) (
          next_field {k = codes "sid"} refl (dec-Denotes e.sid) (
            when-MoreFields e.policy (codes "policy") (codes ",\"policy\": true") _ truth _
              (spaced_field {k = codes "policy"} refl is_true vectors) vectors))))

-- The members of the object for an entry of the STU.
unfoldable pub stu_values : ℕ → StuEntry → StuMasks → Members
stu_values index e m = member (codes "dev") (num index) (
    member (codes "sid") (num e.sid) (
      member (codes "disabled") (arr (ports_of 11 0 m.dis)) (
        member (codes "blocking") (arr (ports_of 11 0 m.blk)) (
          member (codes "learning") (arr (ports_of 11 0 m.lrn))
            (member (codes "forwarding") (arr (ports_of 11 0 m.fwd)) no_members)))))

pub stu_members-Fields :
    (index : ℕ) (e : StuEntry) (m : StuMasks)
    → Fields (stu_members index e m) (stu_values index e m)
unfolding stu_members stu_values plain plain_char
stu_members-Fields index e m = first_field {k = codes "dev"} refl (dec-Denotes index) (
    next_field {k = codes "sid"} refl (dec-Denotes e.sid) (
      json_print_portvec-MoreFields (codes "disabled") m.dis refl (
        json_print_portvec-MoreFields (codes "blocking") m.blk refl (
          json_print_portvec-MoreFields (codes "learning") m.lrn refl
            (last_portvec (codes "forwarding") m.fwd refl)))))
