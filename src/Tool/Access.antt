-- ===== src/Tool/Access.antt =====
-- src/mdio/mdio.h: the contract between a driver, which builds the code of a register access, and
-- the operations, which put that code into larger programs.
pub mod Direct
pub mod Indirect
pub mod Paged
pub mod PagedWrite
pub mod Raw
pub mod Masked
pub mod Bench
pub mod Truncation
pub mod Polling
pub mod MultiChip
pub mod Dump
pub mod Devices
use mdio_tools.Prelude.{
  ℕ, zero, suc, ◌+◌, ◌*◌, ◌%◌, ◌<◌, ◌==◌, if◌then◌else◌, Bool, ◌≡◌, refl, arith, List, [], ◌∷◌,
  ◌++◌, Option, none, some, length, length-append, get_elem?, u16, append_assoc, append-nil,
  bit_and, sym, ap, subst,
}
use mdio_tools.Isa.{Prog, Insn}
use mdio_tools.Kernel.Machine.{Host, Reply, got, fail, bus_read, bus_write, arg_ri}
use mdio_tools.Kernel.Runs.{mach, At, Calm, Runs}
use mdio_tools.Tool.Args.{Result, ok}
use mdio_tools.Tool.Device.{Driver}

infixl 5 ◌>>=◌
abbrev pub ◌>>=◌ {ℓ κ} : {A : Type ℓ} {B : Type κ} → Option A → (A → Option B) → Option B
none >>= f = none
some a >>= f = f a

-- Inversion of a chain that gives a value.
pub >>=-eq-some {ℓ κ} :
    {A : Type ℓ} {B : Type κ} (o : Option A) (f : A → Option B) {b : B}
    → (o >>= f) ≡ some b
    → (a : A) × (o ≡ some a) × (f a ≡ some b)
>>=-eq-some none f e = cc
>>=-eq-some (some a) f e = (a, refl, e)

abbrev pub reply_value : {S : Type 0} → Reply S → Option (ℕ × S)
reply_value (got v s) = some (v, s)
reply_value (fail e s) = none

pub bind_assoc {ℓ κ μ} :
    {A : Type ℓ} {B : Type κ} {C : Type μ} (o : Option A) (f : A → Option B) (g : B → Option C)
    → (o >>= f >>= g) ≡ (o >>= λ a. f a >>= g)
bind_assoc none f g = refl
bind_assoc (some a) f g = refl

pub reply_value-some :
    {S : Type 0} (r : Reply S) {v : ℕ} {s : S} → reply_value r ≡ some (v, s) → r ≡ got v s
reply_value-some r e = ground arith

-- A read or write of the bus that succeeds. Ids, registers and values are cut to 16 bits, as by
-- IMM.
module _ {B X : Type 0} (h : Host B X) where
  unfoldable pub fetch : ℕ → ℕ → B → Option (ℕ × B)
  fetch dev r b = reply_value (bus_read h dev r b)

  unfoldable pub store : ℕ → ℕ → ℕ → B → Option B
  store dev r val b = reply_value (bus_write h dev r val b) >>= λ s. some s.1

  pub fetch-some :
      (dev r : ℕ) (b : B) {v : ℕ} {b' : B}
      → fetch dev r b ≡ some (v, b')
      → bus_read h dev r b ≡ got v b'
  unfolding fetch
  fetch-some dev r b e = reply_value-some (bus_read h dev r b) e

  pub store-some :
      (dev r val : ℕ) (b : B) {b' : B}
      → store dev r val b ≡ some b'
      → (v : ℕ) × (bus_write h dev r val b ≡ got v b')
  unfolding store
  store-some dev r val b e = ground arith

  -- After the access code: the value is in register 0, and the registers 6 and 7, which the
  -- benchmark uses, are as before.
  pub record Fetched (prog : Prog) (regs : ℕ → ℕ) (pc t : ℕ) (b : B) (x : X) (len v : ℕ) (b' : B)
      : Type 0 where
    pub regs' : ℕ → ℕ
    pub ticks' : ℕ
    pub runs : Runs h prog (mach regs pc t b x) (mach regs' (pc + len) ticks' b' x)
    pub value : regs' 0 ≡ u16 v
    pub keeps_6 : regs' 6 ≡ regs 6
    pub keeps_7 : regs' 7 ≡ regs 7

  -- A driver's `read`: it appends code that does `access`, wherever it stands.
  pub record Reads (drv : Driver) (access : ℕ → B → Option (ℕ × B)) : Type 0 where
    pub code : ℕ → ℕ → Prog
    pub read_code : (prog : Prog) (r : ℕ) → drv.read prog r ≡ ok (prog ++ code (length prog) r)
    pub read_runs :
        {prog : Prog} (calm : Calm h prog) (regs : ℕ → ℕ) (pc t : ℕ) (b : B) (x : X) (r : ℕ) {v : ℕ}
        {b' : B}
        → At prog pc (code pc r)
        → access r b ≡ some (v, b')
        → Fetched prog regs pc t b x (length (code pc r)) v b'

  -- After the code of a write.
  pub record Stored (prog : Prog) (regs : ℕ → ℕ) (pc t : ℕ) (b : B) (x : X) (len : ℕ) (b' : B)
      : Type 0 where
    pub regs' : ℕ → ℕ
    pub ticks' : ℕ
    pub runs : Runs h prog (mach regs pc t b x) (mach regs' (pc + len) ticks' b' x)
    pub keeps_7 : regs' 7 ≡ regs 7

  -- The argument reads as `val`, whatever the code in between does to the registers 1 to 6.
  abbrev pub Steady : ℕ → (ℕ → ℕ) → ℕ → Type 0
  Steady arg regs val =
      (regs' : ℕ → ℕ) → regs' 0 ≡ regs 0 → regs' 7 ≡ regs 7 → arg_ri (arg % 262144) regs' ≡ some val

  -- A driver's `write`: it appends code that does `deposit` with the value of the argument.
  pub record Writes (drv : Driver) (deposit : ℕ → ℕ → B → Option B) : Type 0 where
    pub code : ℕ → ℕ → ℕ → Prog
    pub write_code :
        (prog : Prog) (r arg : ℕ) → drv.write prog r arg ≡ ok (prog ++ code (length prog) r arg)
    pub write_runs :
        {prog : Prog} (calm : Calm h prog) (regs : ℕ → ℕ) (pc t : ℕ) (b : B) (x : X) (r arg : ℕ)
        {val : ℕ} {b' : B}
        → At prog pc (code pc r arg)
        → Steady arg regs val
        → deposit r val b ≡ some b'
        → Stored prog regs pc t b x (length (code pc r arg)) b'

-- Code behind a prefix stands where the prefix ends.
pub get_elem?-append :
    (pre : Prog) (i : Insn) (post : Prog) → get_elem? (pre ++ i ∷ post) (length pre) ≡ some i
get_elem?-append [] i post = refl
get_elem?-append (j ∷ pre) i post = get_elem?-append pre i post

pub At-append : (pre code post : Prog) → At (pre ++ (code ++ post)) (length pre) code
At-append pre [] post = tt
At-append pre (i ∷ code) post = (
  get_elem?-append pre i (code ++ post),
  rw (append_assoc, length-append) at (At-append (pre ++ i ∷ []) code post),
)

pub At-whole : (prog : Prog) → At prog 0 prog
At-whole prog = rw append-nil at (At-append [] prog [])

-- Code in sequence: the first part stands at the same place, the second one behind it.
pub At-left : (prog : Prog) (pc : ℕ) (c d : Prog) → At prog pc (c ++ d) → At prog pc c
At-left prog pc [] d h = tt
At-left prog pc (i ∷ c) d h = (h.0, At-left prog (pc + 1) c d h.1)

pub At-right : (prog : Prog) (pc : ℕ) (c d : Prog) → At prog pc (c ++ d) → At prog (pc + length c) d
At-right prog pc [] d h = let e : pc + 0 ≡ pc = omega arith in rw e h
At-right prog pc (i ∷ c) d h =
    let e : pc + suc (length c) ≡ pc + 1 + length c = omega arith in
    rw e (At-right prog (pc + 1) c d h.1)

pub At-next : (c d : Prog) → At (c ++ d) (length c) d
At-next c d = rw append-nil at (At-append c d [])

pub At-middle : (pre code post : Prog) → At ((pre ++ code) ++ post) (length pre) code
At-middle pre code post = rw (← append_assoc) at (At-append pre code post)
