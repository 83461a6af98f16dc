-- ===== src/Kernel/Termination.antt =====
-- kernel/mdio-netlink.c: the loop of `mdio_nl_eval` comes to an end, by the program's end, an error
-- or the timeout.
use native.Mathlib.Nat.{add-zero}
use mdio_tools.Prelude.{
  ℕ, zero, suc, All, ◌+◌, ◌<◌, true, false, ◌≡◌, ◌⊎◌, inl, inr, refl, arith, some, length,
  get_elem?,
}
use mdio_tools.Isa.{Insn, Prog}
use mdio_tools.Kernel.Machine.{
  Host, Machine, Status, running, exited, crashed, step_read, step_write, step_alu, step_jump,
  step_emit, dispatch, step, advance, eval,
}
use mdio_tools.Kernel.Validate.{validate_prog}
use mdio_tools.Kernel.Safety.{Fits, IsValidated, validate_prog-IsValidated, advance-ne-crashed}

module _ {B X : Type 0} (h : Host B X) where
  step-ticks :
      (i : Insn) (m : Machine B X) {m' : Machine B X} → step h i m ≡ running m' → m'.ticks ≡ m.ticks
  unfolding step dispatch step_read step_write step_alu step_jump step_emit
  step-ticks i m e = ground arith

  -- A pass that goes on has fetched an instruction of the program in time, and stepped by it.
  pub advance-running :
      (prog : Prog) (m : Machine B X) {m' : Machine B X}
      → advance h prog m ≡ running m'
      → (i : Insn) × (get_elem? prog m.pc ≡ some i)
        × (m.pc < length prog)
        × (h.time_after m.ticks ≡ false)
        × (step h i (record m { ticks = suc m.ticks }) ≡ running m')
  unfolding advance
  advance-running prog m e = ground arith

  advance-ticks :
      (prog : Prog) (m : Machine B X) {m' : Machine B X}
      → advance h prog m ≡ running m'
      → m'.ticks ≡ suc m.ticks
  advance-ticks prog m e =
      let (i, _, _, _, s) = advance-running prog m e in
      step-ticks i (record m { ticks = suc m.ticks }) s

  advance_late :
      (prog : Prog) (m : Machine B X) {m' : Machine B X}
      → advance h prog m ≡ running m'
      → (n : ℕ) → h.time_after (m.ticks + suc n) ≡ true
      → h.time_after (m'.ticks + n) ≡ true
  advance_late prog m {m'} e n late =
      let same : m'.ticks + n ≡ m.ticks + suc n = omega (arith, advance-ticks prog m e) in
      rw same late

  Status-cases :
      (s : Status B X)
      → ((m : Machine B X) × (s ≡ running m))
        ⊎ ((ret : ℕ) × (m : Machine B X) × (s ≡ exited ret m))
        ⊎ (s ≡ crashed)
  Status-cases (running m) = inl (m, refl)
  Status-cases (exited ret m) = inr (inl (ret, m, refl))
  Status-cases crashed = inr (inr refl)

  -- A validated program whose time is up at the latest `n` looks at the clock from now returns an
  -- exit status within `n + 1` passes: it neither runs on, nor crashes.
  pub eval-returns :
      (prog : Prog) (n : ℕ) (m : Machine B X)
      → IsValidated prog
      → h.time_after (m.ticks + n) ≡ true
      → (ret : ℕ) × (m' : Machine B X) × (eval h (suc n) prog m ≡ some (exited ret m'))
  unfolding eval
  eval-returns prog zero m v late = elim (Status-cases (advance h prog m)) [
    | inl (m', e) ↦
        let (i, _, _, early, _) = advance-running prog m e in cc (early, rw add-zero at late)
    | inr (inl (ret, m', e)) ↦ (ret, m', rw (e, eval))
    | inr (inr e) ↦ absurd (advance-ne-crashed h prog v m e)
  ]
  eval-returns prog (suc n) m v late = elim (Status-cases (advance h prog m)) [
    | inl (m', e) ↦
        let (ret, m'', q) = eval-returns prog n m' v (advance_late prog m e n late) in
        (ret, m'', rw (e, eval) q)
    | inr (inl (ret, m', e)) ↦ (ret, m', rw (e, eval))
    | inr (inr e) ↦ absurd (advance-ne-crashed h prog v m e)
  ]

  -- A program that the validation accepts, started with its time up at the latest `n` looks at the
  -- clock from now, returns within `n + 1` passes of the loop: no BUG_ON fails, no instruction is
  -- fetched from outside the program, and no jump keeps it running.
  pub validate_prog-eval :
      (len : ℕ) (prog : Prog) (n : ℕ) (m : Machine B X)
      → All Fits prog
      → validate_prog len prog ≡ 0
      → h.time_after (m.ticks + n) ≡ true
      → (ret : ℕ) × (m' : Machine B X) × (eval h (suc n) prog m ≡ some (exited ret m'))
  validate_prog-eval len prog n m fits e late =
      eval-returns prog n m (validate_prog-IsValidated len prog fits e) late
