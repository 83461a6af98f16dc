-- ===== src/Switch/Json/Rows.antt =====
-- src/mvls/mvls-json.c: the tables that it prints, with the values that they stand for.
use mdio_tools.Prelude.{
  ℕ, Bool, true, false, Option, none, some, List, [], ◌∷◌, ◌++◌, ◌≡◌, refl, sym, subst, ◌∙◌,
  append_assoc,
}
use mdio_tools.Tool.Args.{Text, codes}
use mdio_tools.Switch.Region.{Bytes}
use mdio_tools.Switch.Env.{Dev}
use mdio_tools.Switch.Entries.{Load, loaded, load_failed, words_of}
use mdio_tools.Switch.Json.{out, comma, json_rows, json_devs}
use mdio_tools.Switch.Json.Grammar.{
  obj, Values, no_values, value, Members, is_obj, Items, no_items, first_item, MoreItems, items_end,
  next_item, Fields,
}

-- The values of an array from its beginning, or those behind its first.
unfoldable pub Listed : Bool → Text → Values → Type 0
Listed true t vs = Items t vs
Listed false t vs = MoreItems t vs

row_text : (m r t : Text) → (m ++ 125 ∷ r) ++ t ≡ (m ++ 125 ∷ []) ++ (r ++ t)
row_text m r t = append_assoc m (125 ∷ r) t ∙ sym (append_assoc m (125 ∷ []) (r ++ t))

pub row-Listed :
    (first : Bool) (m r t : Text) (ms : Members) (vs : Values)
    → Fields m ms
    → MoreItems (r ++ t) vs
    → Listed first (out (comma first ∷ codes "{" ∷ m ∷ codes "}" ∷ r ∷ []) ++ t) (value (obj ms) vs)
unfolding Listed
row-Listed true m r t ms vs f more = rw (row_text m r t) (first_item (is_obj f) more)
row-Listed false m r t ms vs f more = rw (row_text m r t) (next_item (is_obj f) more)

-- The flag after a device with these entries.
unfoldable pub still {ℓ} : {E : Type ℓ} → Bool → List E → Bool
still first [] = first
still first (_ ∷ _) = false

pub still-false {ℓ} : {E : Type ℓ} (es : List E) → still false es ≡ false
unfolding still
still-false [] = refl
still-false (_ ∷ _) = refl

unfoldable pub marks : {E S : Type 0} → (E → S → S) → List E → S → S
marks mark [] m = m
marks mark (e ∷ es) m = marks mark es (mark e m)

module _ {E S : Type 0} (mark : E → S → S) (values : ℕ → E → S → Members) where
  -- The values for the entries of a device, in front of others. An entry's value is taken with the masks
  -- as the entry leaves them.
  unfoldable pub row_values : ℕ → List E → S → Values → Values
  row_values i [] m vs = vs
  row_values i (e ∷ es) m vs = value (obj (values i e (mark e m))) (row_values i es (mark e m) vs)

  -- The values for the entries of all devices, each with its index.
  unfoldable pub all_values : List (ℕ × List E) → S → Values
  unfolding row_values marks
  all_values [] m = no_values
  all_values ((i, es) ∷ rows) m = row_values i es m (all_values rows (marks mark es m))

module _ {K E : Type 0} (parse : Dev → K → Option E) where
  -- The entries in front of the first one that is not valid.
  pub data Taken : Dev → List K → List E → Type 0 where
    ended : {d : Dev} {k : K} {ks : List K} → parse d k ≡ none → Taken d (k ∷ ks) []
    takes :
        {d : Dev} {k : K} {ks : List K} {e : E} {es : List E}
        → parse d k ≡ some e
        → Taken d ks es
        → Taken d (k ∷ ks) (e ∷ es)

  -- The entries that the devices have, up to the first device that cannot be queried.
  pub data Seen {W : Type 0} (load : Dev → W → Load × W) (entries : List ℕ → List K)
      : List Dev → W → List (ℕ × List E) → W → Type 0 where
    no_devs : {w : W} → Seen load entries [] w [] w
    query_fails :
        {d : Dev} {ds : List Dev} {w w' : W} (b : Bytes)
        → load d w ≡ (load_failed b, w')
        → Seen load entries (d ∷ ds) w [] w'
    has_entries :
        {d : Dev} {ds : List Dev} {w w' w'' : W} {es : List E} {rows : List (ℕ × List E)}
        (b : Bytes)
        → load d w ≡ (loaded b, w')
        → Taken d (entries (words_of b)) es
        → Seen load entries ds w' rows w''
        → Seen load entries (d ∷ ds) w ((d.index, es) ∷ rows) w''

module _ {K E S : Type 0} (parse : Dev → K → Option E) (mark : E → S → S)
    (members : ℕ → E → S → Text) (values : ℕ → E → S → Members)
    (values_are : (i : ℕ) (e : E) (m : S) → Fields (members i e m) (values i e m)) where
  -- What a device with these entries prints, and that it may stand in front of others' entries.
  record Printed (o : Option (Text × Bool × S)) (first : Bool) (i : ℕ) (es : List E) (m : S)
      : Type 0 where
    text : Text
    gives : o ≡ some (text, still first es, marks mark es m)
    before :
        (t : Text) (vs : Values)
        → Listed (still first es) t vs
        → Listed first (text ++ t) (row_values mark values i es m vs)

  json_rows-Printed :
      {d : Dev} {ks : List K} {es : List E} (first : Bool) (m : S)
      → Taken parse d ks es
      → Printed (json_rows parse mark members d ks first m) first d.index es m
  unfolding json_rows still marks row_values Listed
  json_rows-Printed first m (ended e) = record {
    text = [];
    gives = rw (json_rows, e);
    before = λ t vs h. h;
  }
  json_rows-Printed {d} first m (takes {e = e} {es = es} p more) =
      let rest = json_rows-Printed false (mark e m) more in
      record {
        text =
            out
              (comma first ∷ codes "{" ∷ members d.index e (mark e m) ∷ codes "}" ∷ rest.text ∷ []);
        gives = rw (json_rows, p, rest.gives, still-false es);
        before = λ t vs h.
            row-Listed first (members d.index e (mark e m)) rest.text t
              (values d.index e (mark e m)) (row_values mark values d.index es (mark e m) vs)
              (values_are d.index e (mark e m))
              (rest.before t vs (subst (λ f. Listed f t vs) (sym (still-false es)) h));
      }

  pub json_devs-Listed :
      {W : Type 0} {load : Dev → W → Load × W} {entries : List ℕ → List K} {ds : List Dev}
      {w w' : W} {rows : List (ℕ × List E)} (first : Bool) (m : S)
      → Seen parse load entries ds w rows w'
      → (t : Text) × (json_devs parse mark members load entries ds first m w ≡ some (t, w'))
        × Listed first t (all_values mark values rows m)
  unfolding json_devs Listed all_values
  json_devs-Listed true m no_devs = ([], refl, no_items)
  json_devs-Listed false m no_devs = ([], refl, items_end)
  json_devs-Listed true m (query_fails b e) = ([], rw (json_devs, e, e), no_items)
  json_devs-Listed false m (query_fails b e) = ([], rw (json_devs, e, e), items_end)
  json_devs-Listed first m (has_entries {es = es} {rows = rows} b e taken more) =
      let here = json_rows-Printed first m taken in
      let (t, gives, good) = json_devs-Listed (still first es) (marks mark es m) more in
      (
        here.text ++ t,
        rw (json_devs, e, here.gives, e, gives),
        here.before t (all_values mark values rows (marks mark es m)) good,
      )
