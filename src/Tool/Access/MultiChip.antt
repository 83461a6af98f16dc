-- ===== src/Tool/Access/MultiChip.antt =====
-- src/mdio/mvls.c: accesses to a LinkStreet switch by multi-chip addressing, which write a command, wait
-- for the switch, and read or have written the data.
use mdio_tools.Prelude.{
  ℕ, suc, ◌+◌, ◌/◌, true, false, ◌≡◌, ◌≢◌, refl, arith, [], ◌∷◌, ◌++◌, append_assoc, some, none,
  Option, u16, length, length-append, subst, ne→==,
}
use mdio_tools.Isa.{Prog, insn, imm, reg, push, op_read, op_write}
use mdio_tools.Kernel.Machine.{Host, update}
use mdio_tools.Kernel.Runs.{At, Calm, here, pass, Runs-trans, Runs-move, run-read, run-write}
use mdio_tools.Kernel.Runs.Decode.{arg_ri-imm}
use mdio_tools.Tool.Args.{Libc, ok}
use mdio_tools.Tool.LinkStreet.{
  mvls_cmd, mvls_data, multi_cmd, mvls_read_to, mvls_read, mvls_write_prog, mvls_write, mvls_driver,
}
use mdio_tools.Tool.Access.{
  fetch, store, fetch-some, store-some, Fetched, Reads, Stored, Steady, Writes, At-left, At-right,
  ◌>>=◌, >>=-eq-some,
}
use mdio_tools.Tool.Access.Polling.{wait_code, await, wait_runs, wait_cmd-code}
use mdio_tools.Tool.Access.Raw.{Completes, raw_read-Completes}
use mdio_tools.Tool.Common.{Callback, Request, raw_prog}
use mdio_tools.Kernel.Machine.{got}

module _ {B X : Type 0} (h : Host B X) (id n : ℕ) where
  -- What a read by multi-chip addressing is: the command, the wait with up to `n + 1` looks, the data.
  unfoldable pub multi_access : ℕ → B → Option (ℕ × B)
  multi_access r b =
      store h (u16 id) (u16 mvls_cmd) (u16 (multi_cmd (u16 (r / 65536)) (u16 r) false)) b >>= λ b₁.
      (await h id n b₁ >>= fetch h (u16 id) (u16 mvls_data))

  abbrev pub multi_code : ℕ → ℕ → Prog
  multi_code p r =
      insn op_write (imm id) (imm mvls_cmd) (imm (multi_cmd (u16 (r / 65536)) (u16 r) false))
      ∷ (wait_code id (p + 1) ++ (insn op_read (imm id) (imm mvls_data) (reg 0) ∷ []))

  pub multi_read-code :
      (prog : Prog) (r : ℕ) → id ≢ 0 → mvls_read id prog r ≡ ok (prog ++ multi_code (length prog) r)
  unfolding mvls_read mvls_read_to push
  multi_read-code prog r ne =
      let start =
        insn op_write (imm id) (imm mvls_cmd) (imm (multi_cmd (u16 (r / 65536)) (u16 r) false)) in
      rw (
        ne→== id 0 ne,
        wait_cmd-code id (prog ++ start ∷ []),
        length-append prog (start ∷ []),
        append_assoc,
        append_assoc,
      )

  pub multi_runs :
      {prog : Prog} (calm : Calm h prog) (regs : ℕ → ℕ) (pc t : ℕ) (b : B) (x : X) (r v : ℕ)
      (b' : B)
      → At prog pc (multi_code pc r)
      → multi_access r b ≡ some (v, b')
      → Fetched h prog regs pc t b x 5 v b'
  unfolding multi_access update
  multi_runs {prog} calm regs pc t b x r v b' at e =
      let (b₁, s, e₁) = >>=-eq-some (store h (u16 id) (u16 mvls_cmd) _ b) _ e in
      let (b₂, a, f) = >>=-eq-some (await h id n b₁) _ e₁ in
      let tail : Prog = insn op_read (imm id) (imm mvls_data) (reg 0) ∷ [] in
      let w =
        wait_runs h id calm n regs (pc + 1) (suc t) b₁ x b₂
          (At-left prog (pc + 1) (wait_code id (pc + 1)) tail at.1) a in
      let last = At-right prog (pc + 1) (wait_code id (pc + 1)) tail at.1 in
      record {
        regs' = update w.regs' 0 (u16 v);
        ticks' = suc w.ticks';
        runs =
            pass
              (run-write calm regs pc t b x (imm id) (imm mvls_cmd)
                (imm (multi_cmd (u16 (r / 65536)) (u16 r) false)) at.0 (arg_ri-imm id regs)
                (arg_ri-imm mvls_cmd regs) (arg_ri-imm _ regs) (store-some h _ _ _ b s).1)
              (Runs-trans w.runs (
                Runs-move (pc + 5) (omega arith) (
                  pass
                    (run-read calm w.regs' (pc + 1 + 3) w.ticks' b₂ x (imm id) (imm mvls_data) 0
                      last.0 (arg_ri-imm id w.regs') (arg_ri-imm mvls_data w.regs')
                      (fetch-some h _ _ b₂ f))
                    here)));
        value = refl;
        keeps_6 = w.keeps 6 (λ z. omega (arith, z));
        keeps_7 = w.keeps 7 (λ z. omega (arith, z));
      }

  unfoldable pub multi_reads : (c : Libc) → id ≢ 0 → Reads h (mvls_driver c id) multi_access
  unfolding mvls_driver
  multi_reads c ne = record {
    code = λ p r. multi_code p r;
    read_code = λ prog r. multi_read-code prog r ne;
    read_runs = λ calm regs pc t b x r at e. multi_runs calm regs pc t b x r _ _ at e;
  }

  -- What a write by multi-chip addressing is: the data, the command, the wait.
  unfoldable pub multi_deposit : ℕ → ℕ → B → Option B
  multi_deposit r val b = store h (u16 id) (u16 mvls_data) val b >>= λ b₁.
      (store h (u16 id) (u16 mvls_cmd) (u16 (multi_cmd (u16 (r / 65536)) (u16 r) true)) b₁
        >>= await h id n)

  abbrev pub multi_write_code : ℕ → ℕ → ℕ → Prog
  multi_write_code p r arg =
      insn op_write (imm id) (imm mvls_data) arg
      ∷ insn op_write (imm id) (imm mvls_cmd) (imm (multi_cmd (u16 (r / 65536)) (u16 r) true))
      ∷ wait_code id (p + 2)

  pub multi_write-code :
      (prog : Prog) (r arg : ℕ)
      → id ≢ 0
      → mvls_write id prog r arg ≡ ok (prog ++ multi_write_code (length prog) r arg)
  unfolding mvls_write mvls_write_prog push
  multi_write-code prog r arg ne =
      let first = insn op_write (imm id) (imm mvls_data) arg in
      let start =
        insn op_write (imm id) (imm mvls_cmd) (imm (multi_cmd (u16 (r / 65536)) (u16 r) true)) in
      let len : length ((prog ++ first ∷ []) ++ start ∷ []) ≡ length prog + 2 =
        omega (
          arith,
          length-append (prog ++ first ∷ []) (start ∷ []),
          length-append prog (first ∷ []),
        ) in
      rw (
        ne→== id 0 ne,
        wait_cmd-code id ((prog ++ first ∷ []) ++ start ∷ []),
        len,
        append_assoc,
        append_assoc,
      )

  pub multi_write_runs :
      {prog : Prog} (calm : Calm h prog) (regs : ℕ → ℕ) (pc t : ℕ) (b : B) (x : X) (r arg val : ℕ)
      (b' : B)
      → At prog pc (multi_write_code pc r arg)
      → Steady h arg regs val
      → multi_deposit r val b ≡ some b'
      → Stored h prog regs pc t b x 5 b'
  unfolding multi_deposit
  multi_write_runs {prog} calm regs pc t b x r arg val b' at steady e =
      let (b₁, s, e₁) = >>=-eq-some (store h (u16 id) (u16 mvls_data) val b) _ e in
      let (b₂, s', a) = >>=-eq-some (store h (u16 id) (u16 mvls_cmd) _ b₁) _ e₁ in
      let two : pc + 1 + 1 ≡ pc + 2 = omega arith in
      let at' : At prog (pc + 2) (wait_code id (pc + 2)) =
        subst (λ (k : ℕ). At prog k (wait_code id (pc + 2))) two at.1.1 in
      let w = wait_runs h id calm n regs (pc + 2) (suc (suc t)) b₂ x b' at' a in
      record {
        regs' = w.regs';
        ticks' = w.ticks';
        runs =
            pass
              (run-write calm regs pc t b x (imm id) (imm mvls_data) arg at.0 (arg_ri-imm id regs)
                (arg_ri-imm mvls_data regs) (steady regs refl refl) (store-some h _ _ _ b s).1)
              (Runs-trans
                (Runs-move (pc + 2) two (
                  pass
                    (run-write calm regs (pc + 1) (suc t) b₁ x (imm id) (imm mvls_cmd)
                      (imm (multi_cmd (u16 (r / 65536)) (u16 r) true)) at.1.0 (arg_ri-imm id regs)
                      (arg_ri-imm mvls_cmd regs) (arg_ri-imm _ regs) (store-some h _ _ _ b₁ s').1)
                    here))
                (Runs-move (pc + 5) (omega arith) w.runs));
        keeps_7 = w.keeps 7 (λ z. omega (arith, z));
      }

  unfoldable pub multi_writes : (c : Libc) → id ≢ 0 → Writes h (mvls_driver c id) multi_deposit
  unfolding mvls_driver
  multi_writes c ne = record {
    code = λ p r arg. multi_write_code p r arg;
    write_code = λ prog r arg. multi_write-code prog r arg ne;
    write_runs = λ calm regs pc t b x r arg at steady e.
        multi_write_runs calm regs pc t b x r arg _ _ at steady e;
  }

module _ {B X : Type 0} {h : Host B X} (live : (k : ℕ) → h.time_after k ≡ false) (id n : ℕ)
    (c : Libc) (ne : id ≢ 0) where
  -- `raw PORT:REG` on a LinkStreet switch with multi-chip addressing, while the time is not up: if,
  -- behind the command, the switch's busy bit is seen clear within `n + 1` looks, for whatever `n`,
  -- then the request, run by the interpreter, comes to its end with success after the command,
  -- these looks and the read of the data, and emits the data.
  pub mvls_raw_read :
      (r v k : ℕ) (b b' : B) (x x' : X)
      → multi_access h id n r b ≡ some (v, b')
      → h.emit (u16 v) x ≡ got k x'
      → (req : Request) × (raw_prog (mvls_driver c id) r none ≡ ok req)
        × (req.callback ≡ Callback.raw_read)
        × Completes h req.prog b x b' x'
  unfolding multi_reads
  mvls_raw_read r v k b b' x x' acc em =
      raw_read-Completes (multi_reads h id n c ne) r v k b b' x x' live (omega arith) acc em
