-- ===== src/Tests/Region.antt =====
-- src/mvls/devlink.c: the theorems on regions, on attributes that are trees.
use mdio_tools.Prelude.{ℕ, ◌≤◌, ◌≡◌, refl, arith, List, [], ◌∷◌, some, none, true, length}
use mdio_tools.Switch.Region.{
  AttrTypes, Mnl, Bytes, copied, copy_chunk, walk_chunks, find_attr, region_dup_cb,
}
use mdio_tools.Switch.Region.Assembly.{written, copy_chunk_bounds}
use mdio_tools.Switch.Region.Walk.{IsChunk, done, more, region_dup_cb-Chunks, walk_chunks-stuck}

-- An attribute: its type and its bytes, an address, or other attributes.
mutual
  pub data Attr : Type 0 where
    raw : ℕ → List ℕ → Attr
    word : ℕ → ℕ → Attr
    nest : ℕ → Attrs → Attr

  pub data Attrs : Type 0 where
    nil : Attrs
    cons : Attr → Attrs → Attrs

abbrev pub as_list : Attrs → List Attr
as_list nil = []
as_list (cons a l) = a ∷ as_list l

abbrev pub type_of : Attr → ℕ
type_of (raw t b) = t
type_of (word t v) = t
type_of (nest t l) = t

abbrev pub children_of : Attr → List Attr
children_of (nest t l) = as_list l
children_of _ = []

abbrev pub payload_of : Attr → List ℕ
payload_of (raw t b) = b
payload_of _ = []

abbrev pub number_of : Attr → ℕ
number_of (word t v) = v
number_of _ = 0

abbrev pub tree_mnl : Mnl Attr
tree_mnl = record {
  attr_type = type_of;
  children = children_of;
  payload = payload_of;
  get_u64 = number_of;
}

abbrev pub test_types : AttrTypes
test_types = record {
  bus_name = 1;
  dev_name = 2;
  region_chunks = 93;
  chunk_data = 95;
  chunk_addr = 96;
  attr_max = 170;
}

abbrev pub chunk : ℕ → List ℕ → Attr
chunk offs bytes = nest 94 (cons (raw 95 bytes) (cons (word 96 offs) nil))

abbrev reply : List Attr
reply =
    raw 1 [] ∷ raw 2 [] ∷ nest 93 (cons (chunk 1 (7 ∷ 8 ∷ [])) (cons (chunk 3 (9 ∷ [])) nil)) ∷ []

chunk-IsChunk :
    (offs : ℕ) (bytes : List ℕ) → IsChunk test_types tree_mnl (chunk offs bytes) offs bytes
chunk-IsChunk offs bytes = record {
  data_attr = raw 95 bytes;
  pads = [];
  addr_attr = word 96 offs;
  children_are = refl;
  pads_are = tt;
  data_type = refl;
  addr_type = refl;
  payload_is = refl;
  offset_is = refl;
}

region_dup_cb-Chunks_example :
    region_dup_cb test_types tree_mnl 2 (λ _. true) reply (some 6 ∷ [])
    ≡ some (copied (written (6 ∷ 7 ∷ 8 ∷ 9 ∷ [])))
unfolding find_attr
region_dup_cb-Chunks_example =
    region_dup_cb-Chunks test_types tree_mnl (λ e. omega (arith, e)) refl refl 2 reply (raw 1 [])
      (raw 2 []) (nest 93 (cons (chunk 1 (7 ∷ 8 ∷ [])) (cons (chunk 3 (9 ∷ [])) nil))) (some 6 ∷ [])
      (7 ∷ 8 ∷ 9 ∷ []) refl refl refl
      (more (chunk-IsChunk 1 (7 ∷ 8 ∷ [])) (more (chunk-IsChunk 3 (9 ∷ [])) (done 4))) (omega arith)
      (omega arith)

copy_chunk_bounds_example :
    (d : Bytes) × (copy_chunk true 2 (5 ∷ []) (some 6 ∷ []) ≡ copied d)
    × (1 ≤ length d)
    × (3 ≤ length d)
copy_chunk_bounds_example = copy_chunk_bounds 2 (5 ∷ []) (some 6 ∷ []) (omega arith)

walk_chunks-stuck_example :
    walk_chunks test_types tree_mnl 100
      (λ _. true)
      (chunk 0 (7 ∷ []) ∷ nest 94 (cons (raw 95 (8 ∷ [])) nil) ∷ [])
      (record { data_slot = none; addr_slot = none })
      []
    ≡ none
walk_chunks-stuck_example =
    walk_chunks-stuck test_types tree_mnl (λ e. omega (arith, e)) refl refl 100
      (nest 94 (cons (raw 95 (8 ∷ [])) nil)) (raw 95 (8 ∷ [])) []
      (record { data_slot = none; addr_slot = none }) [] (chunk-IsChunk 0 (7 ∷ [])) refl refl
      (omega arith) (omega arith)
