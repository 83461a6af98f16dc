-- ===== src/Switch/Region/Walk.antt =====
-- src/mvls/devlink.c: the walk over the chunks of a reply puts a region together again.
use mdio_tools.Prelude.{
  ℕ, zero, suc, ◌+◌, ◌<◌, ◌≤◌, ltb, true, false, ◌≡◌, ◌≢◌, refl, sym, subst, ap, ◌∙◌, arith, none,
  some, List, [], ◌∷◌, ◌++◌, append-nil, append_assoc, length, length-append, All,
}
use mdio_tools.Switch.Region.{
  AttrTypes, Mnl, Pointer, Slots, Bytes, copied, copy_chunk, parse_chunk, walk_chunks, find_attr,
  region_dup_cb,
}
use mdio_tools.Switch.Region.Assembly.{
  written, length-written, written-append, copy_chunk_bounds, copy_chunk-append,
}

module _ {A : Type 0} (ty : AttrTypes) (mnl : Mnl A) where
  -- An attribute that is neither data nor address, of a known type.
  abbrev pub IsPad : A → Type 0
  IsPad a =
      (mnl.attr_type a ≢ ty.chunk_data)
      × (mnl.attr_type a ≢ ty.chunk_addr)
      × (ltb ty.attr_max (mnl.attr_type a) ≡ false)

  -- A chunk as the kernel writes it: the data, padding, and the address last.
  pub record IsChunk (a : A) (offs : ℕ) (bytes : List ℕ) : Type 0 where
    pub data_attr : A
    pub pads : List A
    pub addr_attr : A
    pub children_are : mnl.children a ≡ data_attr ∷ (pads ++ addr_attr ∷ [])
    pub pads_are : All IsPad pads
    pub data_type : mnl.attr_type data_attr ≡ ty.chunk_data
    pub addr_type : mnl.attr_type addr_attr ≡ ty.chunk_addr
    pub payload_is : mnl.payload data_attr ≡ bytes
    pub offset_is : mnl.get_u64 addr_attr ≡ offs

  -- Chunks that cut these bytes, from an offset on.
  pub data Chunks : ℕ → List A → List ℕ → Type 0 where
    done : (offs : ℕ) → Chunks offs [] []
    more :
        {a : A} {offs : ℕ} {bytes : List ℕ} {as' : List A} {rest : List ℕ}
        → IsChunk a offs bytes
        → Chunks (offs + length bytes) as' rest
        → Chunks offs (a ∷ as') (bytes ++ rest)

  parse_pads :
      (pads : List A) (q : A) (rest : List A) (s : Slots A)
      → All IsPad pads
      → mnl.attr_type q ≡ ty.chunk_addr
      → ty.chunk_data ≢ ty.chunk_addr
      → ltb ty.attr_max ty.chunk_addr ≡ false
      → parse_chunk ty mnl (pads ++ q ∷ []) rest s
        ≡ some (record s { addr_slot = some (record { attr = q; behind = rest }) })
  unfolding parse_chunk
  parse_pads [] q rest s h t ne small = ground arith
  parse_pads (p ∷ pads) q rest s (h, hs) t ne small =
      ground (arith, parse_pads pads q rest s hs t ne small)

  parse_data :
      (x : A) (inner rest : List A) (s : Slots A)
      → mnl.attr_type x ≡ ty.chunk_data
      → ltb ty.attr_max ty.chunk_data ≡ false
      → parse_chunk ty mnl (x ∷ inner) rest s
        ≡ parse_chunk ty mnl inner rest
            (record s { data_slot = some (record { attr = x; behind = inner ++ rest }) })
  unfolding parse_chunk
  parse_data x inner rest s t small = ground arith

  -- A pass of the loop that copies its chunk.
  walk_next :
      (fuel : ℕ) (a : A) (rest : List A) (s s' : Slots A) (p q : Pointer A) (d d' : Bytes)
      → parse_chunk ty mnl (mnl.children a) rest s ≡ some s'
      → s'.data_slot ≡ some p
      → s'.addr_slot ≡ some q
      → copy_chunk true (mnl.get_u64 q.attr) (mnl.payload p.attr) d ≡ copied d'
      → walk_chunks ty mnl (suc fuel) (λ _. true) (a ∷ rest) s d
        ≡ walk_chunks ty mnl fuel (λ _. true) q.behind s' d'
  unfolding walk_chunks
  walk_next fuel a rest s s' p q d d' e ep eq ec = ground arith

  module _ (ne : ty.chunk_data ≢ ty.chunk_addr) (small_data : ltb ty.attr_max ty.chunk_data ≡ false)
      (small_addr : ltb ty.attr_max ty.chunk_addr ≡ false) where
    parse_whole :
        {a : A} {offs : ℕ} {bytes : List ℕ} (rest : List A) (s : Slots A) (c : IsChunk a offs bytes)
        → parse_chunk ty mnl (mnl.children a) rest s
          ≡ some (record {
            data_slot =
                some (record { attr = c.data_attr; behind = (c.pads ++ c.addr_attr ∷ []) ++ rest });
            addr_slot = some (record { attr = c.addr_attr; behind = rest });
          })
    parse_whole rest s c =
        let s₁ : Slots A = record s {
          data_slot =
              some (record { attr = c.data_attr; behind = (c.pads ++ c.addr_attr ∷ []) ++ rest });
        } in
        rw c.children_are (
          parse_data c.data_attr (c.pads ++ c.addr_attr ∷ []) rest s c.data_type small_data
          ∙ parse_pads c.pads c.addr_attr rest s₁ c.pads_are c.addr_type ne small_addr)

    -- One pass of the loop on such a chunk.
    walk_one :
        {a : A} {offs : ℕ} {bytes : List ℕ} (fuel : ℕ) (rest : List A) (s : Slots A) (d d' : Bytes)
        (c : IsChunk a offs bytes)
        → copy_chunk true offs bytes d ≡ copied d'
        → (s' : Slots A) × (walk_chunks ty mnl (suc fuel) (λ _. true) (a ∷ rest) s d
            ≡ walk_chunks ty mnl fuel (λ _. true) rest s' d')
          × ((q : Pointer A) × (s'.addr_slot ≡ some q)
              × (q.behind ≡ rest)
              × (mnl.get_u64 q.attr ≡ offs))
    unfolding walk_chunks
    walk_one fuel rest s d d' c e = (
      record {
        data_slot =
            some (record { attr = c.data_attr; behind = (c.pads ++ c.addr_attr ∷ []) ++ rest });
        addr_slot = some (record { attr = c.addr_attr; behind = rest });
      },
      rw (walk_chunks, parse_whole rest s c, c.payload_is, c.offset_is, e),
      (record { attr = c.addr_attr; behind = rest }, refl, refl, c.offset_is),
    )

    walk_chunks-Chunks :
        {offs : ℕ} {attrs : List A} {bytes : List ℕ} (fuel : ℕ) (s : Slots A) (d : Bytes)
        → Chunks offs attrs bytes
        → length d ≡ offs
        → length attrs ≤ fuel
        → offs + length bytes < 18446744073709551616
        → walk_chunks ty mnl fuel (λ _. true) attrs s d ≡ some (copied (d ++ written bytes))
    unfolding walk_chunks
    walk_chunks-Chunks fuel s d (done offs) e enough lt =
        ap (λ (e : Bytes). some (copied e)) (sym (append-nil d))
    walk_chunks-Chunks zero s d (more c cs) e enough lt = absurd (omega arith)
    walk_chunks-Chunks (suc fuel) s d (more {a} {offs} {bytes} {as'} {rest} c cs) e enough lt =
        let fits : offs + length bytes < 18446744073709551616 =
          omega (arith, length-append bytes rest) in
        let copy : copy_chunk true offs bytes d ≡ copied (d ++ written bytes) =
          subst (λ (k : ℕ). copy_chunk true k bytes d ≡ copied (d ++ written bytes)) e
            (copy_chunk-append bytes d (omega arith)) in
        let (s', one, _) = walk_one fuel as' s d (d ++ written bytes) c copy in
        let grown : length (d ++ written bytes) ≡ offs + length bytes =
          omega (arith, length-append d (written bytes), length-written bytes) in
        one
        ∙ (walk_chunks-Chunks fuel s' (d ++ written bytes) cs grown (omega arith)
              (omega (arith, length-append bytes rest))
            ∙ ap (λ (e : Bytes). some (copied e))
                (append_assoc d (written bytes) (written rest)
                  ∙ ap (λ (w : Bytes). d ++ w) (sym (written-append bytes rest))))

    -- A reply message that names its device and whose chunks cut the bytes from the end of the region on
    -- is taken in: with memory, fewer than 2^64 bytes in all, and at most as many chunks as there is
    -- fuel, the callback succeeds and the region is the old bytes followed by those of the chunks.
    pub region_dup_cb-Chunks :
        (fuel : ℕ) (attrs : List A) (bus device chunks : A) (d : Bytes) (bytes : List ℕ)
        → find_attr ty mnl ty.bus_name attrs ≡ some bus
        → find_attr ty mnl ty.dev_name attrs ≡ some device
        → find_attr ty mnl ty.region_chunks attrs ≡ some chunks
        → Chunks (length d) (mnl.children chunks) bytes
        → length (mnl.children chunks) ≤ fuel
        → length d + length bytes < 18446744073709551616
        → region_dup_cb ty mnl fuel (λ _. true) attrs d ≡ some (copied (d ++ written bytes))
    unfolding region_dup_cb
    region_dup_cb-Chunks fuel attrs bus device chunks d bytes eb ed ec cs enough lt =
        rw (region_dup_cb, eb, ed, ec) (walk_chunks-Chunks fuel _ d cs refl enough lt)

    parse_one :
        (x : A) (rest : List A) (s : Slots A)
        → mnl.attr_type x ≡ ty.chunk_data
        → parse_chunk ty mnl (x ∷ []) rest s
          ≡ some (record s { data_slot = some (record { attr = x; behind = rest }) })
    unfolding parse_chunk
    parse_one x rest s t = parse_data x [] rest s t small_data

    stuck_zero :
        (a : A) (rest : List A) (s : Slots A) (d : Bytes)
        → walk_chunks ty mnl 0 (λ _. true) (a ∷ rest) s d ≡ none
    unfolding walk_chunks
    stuck_zero a rest s d = refl

    -- A pass on a chunk without an address, after one with an address, comes back to the same chunk.
    walk_stuck :
        (fuel : ℕ) (a x : A) (rest : List A) (s : Slots A) (q : Pointer A) (d : Bytes)
        → mnl.children a ≡ x ∷ []
        → mnl.attr_type x ≡ ty.chunk_data
        → s.addr_slot ≡ some q
        → q.behind ≡ a ∷ rest
        → mnl.get_u64 q.attr + length (mnl.payload x) < 18446744073709551616
        → walk_chunks ty mnl fuel (λ _. true) (a ∷ rest) s d ≡ none
    walk_stuck zero a x rest s q d ec t es eb lt = stuck_zero a rest s d
    walk_stuck (suc fuel) a x rest s q d ec t es eb lt =
        let p : Pointer A = record { attr = x; behind = rest } in
        let s' = record s { data_slot = some p } in
        let parsed : parse_chunk ty mnl (mnl.children a) rest s ≡ some s' =
          rw ec (parse_one x rest s t) in
        let (d', e, _, _) = copy_chunk_bounds (mnl.get_u64 q.attr) (mnl.payload x) d lt in
        walk_next fuel a rest s s' p q d d' parsed refl es e
        ∙ subst (λ (l : List A). walk_chunks ty mnl fuel (λ _. true) l s' d' ≡ none) (sym eb)
            (walk_stuck fuel a x rest s' q d' ec t es eb lt)

    -- A chunk without an address, behind a whole one, makes the callback run for ever (no fuel is
    -- enough): the address of the chunk before is still in the table, and the walk goes on behind it.
    -- The data of both chunks fit below 2^64 at that address, and there is memory.
    pub walk_chunks-stuck :
        {a : A} {offs : ℕ} {bytes : List ℕ} (fuel : ℕ) (a₂ x : A) (rest : List A) (s : Slots A)
        (d : Bytes)
        → IsChunk a offs bytes
        → mnl.children a₂ ≡ x ∷ []
        → mnl.attr_type x ≡ ty.chunk_data
        → offs + length bytes < 18446744073709551616
        → offs + length (mnl.payload x) < 18446744073709551616
        → walk_chunks ty mnl fuel (λ _. true) (a ∷ (a₂ ∷ rest)) s d ≡ none
    unfolding walk_chunks
    walk_chunks-stuck zero a₂ x rest s d c ec t lt lt' = refl
    walk_chunks-stuck {offs = offs} {bytes = bytes} (suc fuel) a₂ x rest s d c ec t lt lt' =
        let (d', e, _, _) = copy_chunk_bounds offs bytes d lt in
        let (s', one, (q, es, eb, eo)) = walk_one fuel (a₂ ∷ rest) s d d' c e in
        one ∙ walk_stuck fuel a₂ x rest s' q d' ec t es eb (rw eo lt')
