-- ===== src/Tool/Status/Reading.antt =====
-- src/mdio/print-phy.c: a reader of what the printers print, which finds the named flags and whether
-- they are shown as on, and what a sequence of calls must keep for the reader.
use mdio_tools.Prelude.{
  ℕ, suc, arith, ◌==◌, if◌then◌else◌, Bool, true, false, not, ◌&&◌, ◌||◌, ◌≡◌, refl, sym, ap,
  Option, none, some, List, [], ◌∷◌, ◌++◌, append_assoc, append-nil, All,
}
use mdio_tools.Tool.Args.{Text, codes, text_eq}
use mdio_tools.Tool.Status.{Piece, puts, flag, shown, wild, print_bool, render}

-- Where the reader is: in front of a word; in a word, so far; behind a label that no flags follow, up
-- to the end of the line; in the name of a flag that is off; in the escape in front of one that is on,
-- in its name, and in the escape behind it.
pub data Mode : Type 0 where
  start ignore lead : Mode
  label off_name on_name trail : Text → Mode

abbrev pub Flag : Type 0
Flag = Text × Bool

-- The labels that flags stand behind
abbrev is_list : Text → Bool
is_list t =
    text_eq t (codes "flags") || text_eq t (codes "capabilities") || text_eq t (codes "devices")

abbrev is_space : ℕ → Bool
is_space c = c == 32 || c == 10

-- One character: the flag that it completes, and where the reader is then.
unfoldable pub read_char : Mode → ℕ → Option Flag × Mode
read_char start c =
    if is_space c
    then (none, start)
    else if c == b'-'
    then (none, off_name [])
    else if c == 27
    then (none, lead)
    else (none, label (c ∷ []))
read_char ignore c = if c == 10 then (none, start) else (none, ignore)
read_char lead c = if c == b'+' then (none, on_name []) else (none, lead)
read_char (label t) c =
    if is_space c
    then (none, start)
    else if c == b':'
    then (if is_list t then (none, start) else (none, ignore))
    else (none, label (t ++ c ∷ []))
read_char (off_name t) c =
    if is_space c then (some (t, false), start) else (none, off_name (t ++ c ∷ []))
read_char (on_name t) c = if c == 27 then (none, trail t) else (none, on_name (t ++ c ∷ []))
read_char (trail t) c = if c == b'm' then (some (t, true), start) else (none, trail t)

abbrev add : Option Flag → List Flag → List Flag
add none fs = fs
add (some f) fs = f ∷ fs

unfoldable pub read_from : Mode → Text → List Flag × Mode
unfolding read_char
read_from m [] = ([], m)
read_from m (c ∷ t) =
    let (f, m') = read_char m c in let (fs, m'') = read_from m' t in (add f fs, m'')

-- The flags in a text
unfoldable pub read_flags : Text → List Flag
unfolding read_from
read_flags t = (read_from start t).0

-- The flags that print_bool is called for
unfoldable pub flags_of : List Piece → List Flag
flags_of [] = []
flags_of (puts t ∷ ps) = flags_of ps
flags_of (flag name on sep ∷ ps) = (name, on) ∷ flags_of ps
flags_of (shown t ∷ ps) = flags_of ps
flags_of (wild ∷ ps) = flags_of ps

-- What printf converts, and the reads outside of a table
unfoldable pub shown_of : List Piece → List (Option Text)
shown_of [] = []
shown_of (puts t ∷ ps) = shown_of ps
shown_of (flag name on sep ∷ ps) = shown_of ps
shown_of (shown t ∷ ps) = some t ∷ shown_of ps
shown_of (wild ∷ ps) = none ∷ shown_of ps

abbrev pub one_line : Text → Bool
one_line [] = true
one_line (c ∷ t) = not (c == 10) && one_line t

-- Every conversion gives a text without a line break.
abbrev pub IsOneLine : Option Text → Type 0
IsOneLine none = ⊥
IsOneLine (some t) = one_line t ≡ true

abbrev plain_name : Text → Bool
plain_name [] = true
plain_name (c ∷ t) = not (is_space c) && (not (c == 27) && plain_name t)

abbrev is_none : List Flag → Bool
is_none [] = true
is_none (f ∷ fs) = false

-- The flags have plain names and stand in front of a word, the texts in between have none, and
-- conversions stand behind labels that no flags follow.
unfoldable pub tidy : Mode → List Piece → Bool
unfolding read_from read_char
tidy m [] = true
tidy m (puts t ∷ ps) = let (fs, m') = read_from m t in is_none fs && tidy m' ps
tidy start (flag name o sep ∷ ps) = plain_name name && (is_space sep && tidy start ps)
tidy ignore (shown t ∷ ps) = tidy ignore ps
tidy _ (flag name o sep ∷ ps) = false
tidy _ (shown t ∷ ps) = false
tidy _ (wild ∷ ps) = false

add-append : (o : Option Flag) (fs gs : List Flag) → add o fs ++ gs ≡ add o (fs ++ gs)
add-append none fs gs = refl
add-append (some f) fs gs = refl

-- Where the reader is behind tidy calls.
unfoldable pub after : Mode → List Piece → Mode
unfolding read_from read_char
after m [] = m
after m (puts t ∷ ps) = after (read_from m t).1 ps
after m (flag name o sep ∷ ps) = after m ps
after m (shown t ∷ ps) = after m ps
after m (wild ∷ ps) = after m ps

read_from-append :
    (m : Mode) (t u : Text)
    → read_from m (t ++ u)
      ≡ (let (fs, m') = read_from m t in let (gs, m'') = read_from m' u in (fs ++ gs, m''))
unfolding read_from
read_from-append m [] u = refl
read_from-append m (c ∷ t) u =
    let m' = (read_char m c).1 in
    rw (read_from-append m' t u, add-append (read_char m c).0 (read_from m' t).0)

not-and : (a b : Bool) → (not a && b) ≡ true → (a ≡ false) × (b ≡ true)
not-and true b e = cc
not-and false b e = (refl, e)

-- A name is read as a whole, in either form.
read_off_name :
    (t name u : Text) (sep : ℕ)
    → plain_name name ≡ true
    → is_space sep ≡ true
    → read_from (off_name t) (name ++ (sep ∷ u))
      ≡ ((t ++ name, false) ∷ (read_from start u).0, (read_from start u).1)
unfolding read_from read_char
read_off_name t [] u sep p q = rw (q, append-nil)
read_off_name t (c ∷ name) u sep p q =
    let (ns, p') = not-and (is_space c) _ p in
    let (_, p'') = not-and (c == 27) _ p' in
    rw (ns, ← append_assoc t (c ∷ []) name) (read_off_name (t ++ c ∷ []) name u sep p'' q)

read_on_name :
    (t name u : Text) (sep : ℕ)
    → plain_name name ≡ true
    → is_space sep ≡ true
    → read_from (on_name t) (name ++ (27 ∷ codes "[0m" ++ (sep ∷ u)))
      ≡ ((t ++ name, true) ∷ (read_from start u).0, (read_from start u).1)
unfolding read_from read_char
read_on_name t [] u sep p q = rw (q, append-nil)
read_on_name t (c ∷ name) u sep p q =
    let (ns, p') = not-and (is_space c) _ p in
    let (ne, p'') = not-and (c == 27) _ p' in
    rw (ne, ← append_assoc t (c ∷ []) name) (read_on_name (t ++ c ∷ []) name u sep p'' q)

read_bool :
    (name : Text) (o : Bool) (u : Text) (sep : ℕ)
    → plain_name name ≡ true
    → is_space sep ≡ true
    → read_from start (print_bool name o ++ (sep ∷ u))
      ≡ ((name, o) ∷ (read_from start u).0, (read_from start u).1)
unfolding read_from read_char print_bool
read_bool name true u sep p q = rw append_assoc (read_on_name [] name u sep p q)
read_bool name false u sep p q = rw append_assoc (read_off_name [] name u sep p q)

read_ignored : (t u : Text) → one_line t ≡ true → read_from ignore (t ++ u) ≡ read_from ignore u
unfolding read_from read_char
read_ignored [] u p = refl
read_ignored (c ∷ t) u p = let (n, p') = not-and (c == 10) _ p in rw n (read_ignored t u p')

and-true : (a b : Bool) → (a && b) ≡ true → (a ≡ true) × (b ≡ true)
and-true true b e = (refl, e)
and-true false b e = cc

is_none-nil : (fs : List Flag) → is_none fs ≡ true → fs ≡ []
is_none-nil [] e = refl
is_none-nil (f ∷ fs) e = cc

-- From any mode in which the calls are tidy, the reader finds the flags.
render_reads :
    (m : Mode) (ps : List Piece)
    → tidy m ps ≡ true
    → All IsOneLine (shown_of ps)
    → read_from m (render ps) ≡ (flags_of ps, after m ps)
unfolding read_from render flags_of shown_of tidy after
render_reads m [] p h = refl
render_reads m (puts t ∷ ps) p h =
    let (quiet, p') = and-true (is_none (read_from m t).0) _ p in
    rw (read_from-append m t (render ps), is_none-nil (read_from m t).0 quiet)
      (render_reads (read_from m t).1 ps p' h)
render_reads start (flag name o sep ∷ ps) p h =
    let (plain, p') = and-true (plain_name name) _ p in
    let (space, p'') = and-true (is_space sep) _ p' in
    rw (read_bool name o (render ps) sep plain space)
      (ap (λ (r : List Flag × Mode). ((name, o) ∷ r.0, r.1)) (render_reads start ps p'' h))
render_reads ignore (shown t ∷ ps) p (line, h) =
    rw (read_ignored t (render ps) line) (render_reads ignore ps p h)
render_reads ignore (flag name o sep ∷ ps) p h = cc
render_reads lead (flag name o sep ∷ ps) p h = cc
render_reads (label t) (flag name o sep ∷ ps) p h = cc
render_reads (off_name t) (flag name o sep ∷ ps) p h = cc
render_reads (on_name t) (flag name o sep ∷ ps) p h = cc
render_reads (trail t) (flag name o sep ∷ ps) p h = cc
render_reads start (shown t ∷ ps) p h = cc
render_reads lead (shown t ∷ ps) p h = cc
render_reads (label u) (shown t ∷ ps) p h = cc
render_reads (off_name u) (shown t ∷ ps) p h = cc
render_reads (on_name u) (shown t ∷ ps) p h = cc
render_reads (trail u) (shown t ∷ ps) p h = cc
render_reads m (wild ∷ ps) p h = absurd h.0

-- The reads outside of a table
unfoldable pub wilds : List Piece → ℕ
wilds [] = 0
wilds (puts t ∷ ps) = wilds ps
wilds (flag name o sep ∷ ps) = wilds ps
wilds (shown t ∷ ps) = wilds ps
wilds (wild ∷ ps) = suc (wilds ps)

lines-wilds : (ps : List Piece) → All IsOneLine (shown_of ps) → wilds ps ≡ 0
unfolding wilds shown_of
lines-wilds [] h = refl
lines-wilds (puts t ∷ ps) h = lines-wilds ps h
lines-wilds (flag name o sep ∷ ps) h = lines-wilds ps h
lines-wilds (shown t ∷ ps) (line, h) = lines-wilds ps h
lines-wilds (wild ∷ ps) h = absurd h.0

wilds-append : (ps qs : List Piece) → wilds ps ≡ 0 → wilds qs ≡ 0 → wilds (ps ++ qs) ≡ 0
unfolding wilds
wilds-append [] qs h k = k
wilds-append (puts t ∷ ps) qs h k = wilds-append ps qs h k
wilds-append (flag name o sep ∷ ps) qs h k = wilds-append ps qs h k
wilds-append (shown t ∷ ps) qs h k = wilds-append ps qs h k
wilds-append (wild ∷ ps) qs h k = absurd (omega (arith, h))

-- The reader finds the flags in what is printed, and is then in front of a word; no table is read
-- outside of its bounds.
pub IsReadable : List Piece → Type 0
IsReadable ps = (read_from start (render ps) ≡ (flags_of ps, start)) × (wilds ps ≡ 0)

pub tidy-IsReadable :
    (ps : List Piece)
    → tidy start ps ≡ true
    → after start ps ≡ start
    → All IsOneLine (shown_of ps)
    → IsReadable ps
unfolding IsReadable
tidy-IsReadable ps p e h = (rw e at (render_reads start ps p h), lines-wilds ps h)

pub IsReadable-flags : (ps : List Piece) → IsReadable ps → read_flags (render ps) ≡ flags_of ps
unfolding read_flags IsReadable
IsReadable-flags ps h = ap (λ (r : List Flag × Mode). r.0) h.0

pub IsReadable-wilds : (ps : List Piece) → IsReadable ps → wilds ps ≡ 0
unfolding IsReadable
IsReadable-wilds ps h = h.1

pub nil-IsReadable : IsReadable []
unfolding IsReadable read_from render flags_of wilds
nil-IsReadable = (refl, refl)

render-append : (ps qs : List Piece) → render (ps ++ qs) ≡ render ps ++ render qs
unfolding render
render-append [] qs = refl
render-append (puts t ∷ ps) qs = rw (render-append ps qs, append_assoc)
render-append (flag name o sep ∷ ps) qs =
    rw (render-append ps qs) (sym (append_assoc (print_bool name o) (sep ∷ render ps) (render qs)))
render-append (shown t ∷ ps) qs = rw (render-append ps qs, append_assoc)
render-append (wild ∷ ps) qs = render-append ps qs

flags_of-append : (ps qs : List Piece) → flags_of (ps ++ qs) ≡ flags_of ps ++ flags_of qs
unfolding flags_of
flags_of-append [] qs = refl
flags_of-append (puts t ∷ ps) qs = flags_of-append ps qs
flags_of-append (flag name o sep ∷ ps) qs =
    ap (λ (fs : List Flag). (name, o) ∷ fs) (flags_of-append ps qs)
flags_of-append (shown t ∷ ps) qs = flags_of-append ps qs
flags_of-append (wild ∷ ps) qs = flags_of-append ps qs

-- One printer behind another one.
pub append-IsReadable : (ps qs : List Piece) → IsReadable ps → IsReadable qs → IsReadable (ps ++ qs)
unfolding IsReadable
append-IsReadable ps qs (h, u) (k, v) = (
  rw (
    render-append ps qs,
    flags_of-append ps qs,
    read_from-append start (render ps) (render qs),
    h,
    k,
  ),
  wilds-append ps qs u v,
)
