-- ===== src/Switch/Region.antt =====
-- src/mvls/devlink.c: `devlink_region_dup_cb`, which puts the chunks of a reply into a region.
pub mod Assembly
pub mod Walk
use mdio_tools.Prelude.{
  ℕ, zero, suc, ◌+◌, ◌-◌, ◌%◌, ltb, leb, ◌==◌, if◌then◌else◌, not, ◌||◌, Bool, true, false, Option,
  none, some, List, [], ◌∷◌, ◌++◌, length,
}

-- The numbers of DEVLINK_ATTR_BUS_NAME and so on are those of <linux/devlink.h>.
pub record AttrTypes : Type 0 where
  pub bus_name : ℕ
  pub dev_name : ℕ
  pub region_chunks : ℕ
  pub chunk_data : ℕ
  pub chunk_addr : ℕ
  pub attr_max : ℕ

-- What libmnl tells of an attribute `A`: its type, the attributes nested in it, its payload, and the
-- payload as a 64-bit number.
pub record Mnl (A : Type 0) : Type 0 where
  pub attr_type : A → ℕ
  pub children : A → List A
  pub payload : A → List ℕ
  pub get_u64 : A → ℕ

-- A pointer to an attribute: it, and the attributes behind it in memory, which mnl_attr_next walks.
pub record Pointer (A : Type 0) : Type 0 where
  pub attr : A
  pub behind : List A

-- The two entries of `tbc` that are read.
pub record Slots (A : Type 0) : Type 0 where
  pub data_slot : Option (Pointer A)
  pub addr_slot : Option (Pointer A)

-- The bytes of `region->data`, `none` for one that was never written; their number is `region->size`.
abbrev pub Bytes : Type 0
Bytes = List (Option ℕ)

-- MNL_CB_OK or MNL_CB_ERROR with the region; a use of a NULL pointer or a write outside of an object.
pub data Copied : Type 0 where
  copied : Bytes → Copied
  refused : Bytes → Copied
  crashed : Copied

abbrev pub u64 : ℕ → ℕ
u64 n = n % 18446744073709551616

-- `realloc`, which keeps the old bytes
unfoldable pub grow : ℕ → Bytes → Bytes
grow zero d = d
grow (suc n) [] = none ∷ grow n []
grow (suc n) (b ∷ d) = b ∷ grow n d

-- `memcpy` into the bytes from an offset on: `none` for a write outside of them
unfoldable pub copy_in : ℕ → List ℕ → Bytes → Option Bytes
copy_in offs [] d = some d
copy_in offs (c ∷ cs) [] = none
copy_in zero (c ∷ cs) (b ∷ d) = elim (copy_in zero cs d) [
  | none ↦ none
  | some d' ↦ some (some c ∷ d')
]
copy_in (suc offs) (c ∷ cs) (b ∷ d) = elim (copy_in offs (c ∷ cs) d) [
  | none ↦ none
  | some d' ↦ some (b ∷ d')
]

-- One chunk: `offs + len` is a size_t. If memory runs out the region is empty afterwards.
unfoldable pub copy_chunk : Bool → ℕ → List ℕ → Bytes → Copied
unfolding grow copy_in
copy_chunk memory offs chunk d =
    let end = u64 (offs + length chunk) in
    if ltb (length d) end
    then if not memory
      then refused []
      else elim (copy_in offs chunk (grow end d)) [ none ↦ crashed | some d' ↦ copied d' ]
    else elim (copy_in offs chunk d) [ none ↦ crashed | some d' ↦ copied d' ]

module _ {A : Type 0} (ty : AttrTypes) (mnl : Mnl A) where
  -- devlink_attr_cb over the attributes of a chunk: the pointers that it leaves in `tbc`; `rest` is
  -- what follows the chunk. A type above the table's end is a write outside of it.
  unfoldable pub parse_chunk : List A → List A → Slots A → Option (Slots A)
  parse_chunk [] rest s = some s
  parse_chunk (a ∷ inner) rest s =
      let here : Pointer A = record { attr = a; behind = inner ++ rest } in
      let t = mnl.attr_type a in
      let s' =
        if t == ty.chunk_data
        then record s { data_slot = some here }
        else if t == ty.chunk_addr
        then record s { addr_slot = some here }
        else s in
      elim (ltb ty.attr_max t) [ true ↦ none | false ↦ parse_chunk inner rest s' ]

  -- The loop over the chunks, on fuel (`none` means that it ran out), from the attributes that are
  -- left; `tbc` is not cleared between them. devlink_attr_cb never fails, so neither does
  -- mnl_attr_parse_nested. `attr` is taken over for the data and the address: if one is missing,
  -- `continue` goes on from NULL, and otherwise from behind the address. `memory n` says whether
  -- realloc succeeds in the pass before which the fuel is `n + 1`.
  unfoldable pub walk_chunks : ℕ → (ℕ → Bool) → List A → Slots A → Bytes → Option Copied
  unfolding parse_chunk copy_chunk
  walk_chunks fuel memory [] s d = some (copied d)
  walk_chunks zero memory (a ∷ rest) s d = none
  walk_chunks (suc fuel) memory (a ∷ rest) s d = elim (parse_chunk (mnl.children a) rest s) [
    | none ↦ some crashed
    | some s' ↦ elim s'.data_slot [
      | none ↦ some crashed
      | some p ↦ elim s'.addr_slot [
        | none ↦ some crashed
        | some q ↦ elim (copy_chunk (memory fuel) (mnl.get_u64 q.attr) (mnl.payload p.attr) d) [
          | copied d' ↦ walk_chunks fuel memory q.behind s' d'
          | refused d' ↦ some (refused d')
          | crashed ↦ some crashed
        ]
      ]
    ]
  ]

  -- `tb[type]` after devlink_parse: the last attribute of the type
  unfoldable pub find_attr : ℕ → List A → Option A
  find_attr t [] = none
  find_attr t (a ∷ as') =
      let found = find_attr t as' in
      elim found [ some b ↦ some b | none ↦ if mnl.attr_type a == t then some a else none ]

  -- devlink_region_dup_cb on a message with these attributes, none of a type above the table's end
  unfoldable pub region_dup_cb : ℕ → (ℕ → Bool) → List A → Bytes → Option Copied
  unfolding find_attr walk_chunks
  region_dup_cb fuel memory attrs d = elim (find_attr ty.bus_name attrs) [
    | none ↦ some (refused d)
    | some _ ↦ elim (find_attr ty.dev_name attrs) [
      | none ↦ some (refused d)
      | some _ ↦ elim (find_attr ty.region_chunks attrs) [
        | none ↦ some (refused d)
        | some chunks ↦
            walk_chunks fuel memory (mnl.children chunks)
              (record { data_slot = none; addr_slot = none }) d
      ]
    ]
  ]
