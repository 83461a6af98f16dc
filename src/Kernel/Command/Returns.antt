-- ===== src/Kernel/Command/Returns.antt =====
-- kernel/mdio-netlink.c: mdio_nl_cmd_xfer comes to its end.
use mdio_tools.Prelude.{
  ℕ, zero, suc, subst, ◌⊎◌, ◌+◌, ◌==◌, ltb, if◌then◌else◌, Bool, true, false, not, ◌≡◌, refl, arith,
  Option, none, some, All, Bool-cases, inl, inr, length, get_elem?, Option-cases, bit_and, bit_or,
  ==_iff,
}
use mdio_tools.Isa.{Prog, Insn, op_read, op_write, op_and, op_or, op_add, op_jeq, op_jne, op_emit}
use mdio_tools.Kernel.Machine.{
  Host, Machine, Reply, got, fail, Status, running, exited, crashed, eval, advance, step, dispatch,
  step_read, step_write, step_alu, step_jump, step_emit, ◌>>=◌, on_bus, on_xfer, arg_ri, arg_r,
  arg_i, bus_read, bus_write,
}
use mdio_tools.Kernel.Runs.{mach}
use mdio_tools.Kernel.Validate.{validate_prog}
use mdio_tools.Kernel.Safety.{Fits}
use mdio_tools.Kernel.Termination.{validate_prog-eval}
use mdio_tools.Kernel.Message.{
  Message, live, dangling, is_faulted, Netlink, Xfer, open_msg, close_msg, emit_reply, enodev,
}
use mdio_tools.Kernel.Message.Stream.{Healthy, open_ok, emit_fits, emit_full}
use mdio_tools.Kernel.Message.Close.{close_msg-owned}
use mdio_tools.Kernel.Command.{
  Attributes, Kernel, System, Outcome, returned, fault, host_for, put_device, finish_xfer, run_xfer,
  cmd_xfer,
}

-- A predicate on the writer that a pass of the loop leaves.
OnXfer : {B X : Type 0} → (X → Type 0) → Status B X → Type 0
OnXfer P (running m) = P m.xfer
OnXfer P (exited ret m) = P m.xfer
OnXfer P crashed = Unit {0}

OnReply : {X : Type 0} → (X → Type 0) → Reply X → Type 0
OnReply P (got v x) = P x
OnReply P (fail e x) = P x

OnResult : {B X : Type 0} → (X → Type 0) → Option (Status B X) → Type 0
unfolding OnXfer
OnResult P none = Unit {0}
OnResult P (some s) = OnXfer P s

Status-cases :
    {B X : Type 0} (s : Status B X)
    → ((m : Machine B X) × (s ≡ running m))
      ⊎ ((ret : ℕ) × (m : Machine B X) × (s ≡ exited ret m))
      ⊎ (s ≡ crashed)
Status-cases (running m) = inl (m, refl)
Status-cases (exited ret m) = inr (inl (ret, m, refl))
Status-cases crashed = inr (inr refl)

module _ {B X : Type 0} (P : X → Type 0) where
  if-OnXfer :
      (b : Bool) (s t : Status B X) → OnXfer P s → OnXfer P t → OnXfer P (if b then s else t)
  if-OnXfer true s t h k = h
  if-OnXfer false s t h k = k

  bind-OnXfer :
      (o : Option ℕ) (k : ℕ → Status B X) → ((a : ℕ) → OnXfer P (k a)) → OnXfer P (o >>= k)
  unfolding OnXfer
  bind-OnXfer none k h = tt
  bind-OnXfer (some a) k h = h a

  module _ (h : Host B X) (emits : (v : ℕ) (x : X) → P x → OnReply P (h.emit v x)) where
    on_bus-OnXfer :
        (m : Machine B X) (r : Reply B) (k : ℕ → Machine B X → Status B X)
        → P m.xfer
        → ((v : ℕ) (m' : Machine B X) → P m'.xfer → OnXfer P (k v m'))
        → OnXfer P (on_bus h m r k)
    unfolding OnXfer
    on_bus-OnXfer m (got v b) k p go = go v (record m { bus = b }) p
    on_bus-OnXfer m (fail e b) k p go = p

    on_xfer-OnXfer : (m : Machine B X) (r : Reply X) → OnReply P r → OnXfer P (on_xfer h m r)
    unfolding OnXfer OnReply
    on_xfer-OnXfer m (got v x) p = p
    on_xfer-OnXfer m (fail e x) p = p

    read-OnXfer : (i : Insn) (m : Machine B X) → P m.xfer → OnXfer P (step_read h i m)
    unfolding step_read OnXfer
    read-OnXfer i m p = bind-OnXfer (arg_ri i.arg0 m.regs) _ λ dev.
        bind-OnXfer (arg_ri i.arg1 m.regs) _ λ r.
          on_bus-OnXfer m (bus_read h dev r m.bus) _ p
            λ v m' q. bind-OnXfer (arg_r i.arg2) _ λ dst. q

    write-OnXfer : (i : Insn) (m : Machine B X) → P m.xfer → OnXfer P (step_write h i m)
    unfolding step_write OnXfer
    write-OnXfer i m p = bind-OnXfer (arg_ri i.arg0 m.regs) _ λ dev.
        bind-OnXfer (arg_ri i.arg1 m.regs) _ λ r.
          bind-OnXfer (arg_ri i.arg2 m.regs) _
            λ val. on_bus-OnXfer m (bus_write h dev r val m.bus) _ p λ v m' q. q

    alu-OnXfer :
        (f : ℕ → ℕ → ℕ) (i : Insn) (m : Machine B X) → P m.xfer → OnXfer P (step_alu h f i m)
    unfolding step_alu OnXfer
    alu-OnXfer f i m p =
        bind-OnXfer (arg_ri i.arg0 m.regs) _
          λ a. bind-OnXfer (arg_ri i.arg1 m.regs) _ λ b. bind-OnXfer (arg_r i.arg2) _ λ dst. p

    jump-OnXfer :
        (f : ℕ → ℕ → Bool) (i : Insn) (m : Machine B X) → P m.xfer → OnXfer P (step_jump h f i m)
    unfolding step_jump OnXfer
    jump-OnXfer f i m p = bind-OnXfer (arg_ri i.arg0 m.regs) _ λ a.
        bind-OnXfer (arg_ri i.arg1 m.regs) _
          λ b. if-OnXfer (f a b) _ _ (bind-OnXfer (arg_i i.arg2) _ λ off. p) p

    emit-OnXfer : (i : Insn) (m : Machine B X) → P m.xfer → OnXfer P (step_emit h i m)
    unfolding step_emit
    emit-OnXfer i m p =
        bind-OnXfer (arg_ri i.arg0 m.regs) _
          λ v. on_xfer-OnXfer m (h.emit v m.xfer) (emits v m.xfer p)

    step-OnXfer : (i : Insn) (m : Machine B X) → P m.xfer → OnXfer P (step h i m)
    unfolding step dispatch OnXfer
    step-OnXfer i m p = if-OnXfer (i.op == op_read) _ _ (read-OnXfer i m p) (
        if-OnXfer (i.op == op_write) _ _ (write-OnXfer i m p) (
          if-OnXfer (i.op == op_and) _ _ (alu-OnXfer bit_and i m p) (
            if-OnXfer (i.op == op_or) _ _ (alu-OnXfer bit_or i m p) (
              if-OnXfer (i.op == op_add) _ _ (alu-OnXfer (λ a b. a + b) i m p) (
                if-OnXfer (i.op == op_jeq) _ _ (jump-OnXfer (λ a b. a == b) i m p) (
                  if-OnXfer (i.op == op_jne) _ _ (jump-OnXfer (λ a b. not (a == b)) i m p)
                    (if-OnXfer (i.op == op_emit) _ _ (emit-OnXfer i m p) p)))))))

    advance-OnXfer : (prog : Prog) (m : Machine B X) → P m.xfer → OnXfer P (advance h prog m)
    unfolding advance OnXfer
    advance-OnXfer prog m p =
        if-OnXfer (ltb m.pc (length prog)) _ _
          (if-OnXfer (h.time_after m.ticks) _ _ p (elim (Option-cases (get_elem? prog m.pc)) [
            | inl e ↦ rw e tt
            | inr (i, e) ↦ rw e (step-OnXfer i (record m { ticks = suc m.ticks }) p)
          ]))
          p

    -- What emissions keep, the whole loop keeps.
    eval-OnResult :
        (fuel : ℕ) (prog : Prog) (m : Machine B X) → P m.xfer → OnResult P (eval h fuel prog m)
    unfolding eval OnResult
    eval-OnResult zero prog m p = tt
    eval-OnResult (suc fuel) prog m p =
        let q = advance-OnXfer prog m p in
        elim (Status-cases (advance h prog m)) [
          | inl (m', e) ↦ rw (eval, e) (eval-OnResult fuel prog m' (subst (OnXfer P) e q))
          | inr (inl (ret, m', e)) ↦ rw (eval, e) (subst (OnXfer P) e q)
          | inr (inr e) ↦ rw (eval, e) tt
        ]

module _ {W : Type 0} (n : Netlink W) (ok : Healthy n) where
  abbrev IsLive : Xfer W → Type 0
  IsLive x = (m : Message) × (x.buffer ≡ live m)

  emit_reply-OnReply : (v : ℕ) (x : Xfer W) → IsLive x → OnReply IsLive (emit_reply n v x)
  unfolding emit_reply OnReply
  emit_reply-OnReply v x (m, e) = elim (Bool-cases (n.word_fits m)) [
    | inl fits ↦ rw (emit_fits n ok v x m e fits) (_, refl)
    | inr full ↦ let (z, b, _) = emit_full n ok v x m e full in rw z (_, b)
  ]

module _ {N B W : Type 0} (k : Kernel N B W) where
  -- The transfer of a request when it is opened.
  abbrev start_of : System B W → Xfer W
  start_of s = record { world = s.world; buffer = dangling; sent = s.sent }

  -- How the handler ends: it returns with as many references to the bus device as at first; or the reply
  -- was opened, the program came to its end, and mdio_nl_close has used a buffer that is not there, which
  -- no netlink with memory that takes every message lets happen.
  pub data Ends (s : System B W) : Outcome B W → Type 0 where
    answers : {err : ℕ} {s' : System B W} → s'.refs ≡ s.refs → Ends s (returned err s')
    faults :
        (fuel t ret : ℕ) (prog : Prog) (m : Machine B (Xfer W))
        → (open_msg k.netlink (start_of s)).0 ≡ 0
        → eval
            (host_for k t)
            fuel
            prog
            (mach (λ _. 0) 0 0 s.bus (open_msg k.netlink (start_of s)).1)
          ≡ some (exited ret m)
        → is_faulted (close_msg k.netlink true ret m.xfer).1.buffer ≡ true
        → ¬ Healthy k.netlink
        → Ends s fault

  -- With such a netlink the buffer is there when the program has come to its end.
  eval-owned :
      Healthy k.netlink
      → (fuel t ret : ℕ) (prog : Prog) (s : System B W) {m : Machine B (Xfer W)}
      → eval (host_for k t) fuel prog (mach (λ _. 0) 0 0 s.bus (open_msg k.netlink (start_of s)).1)
        ≡ some (exited ret m)
      → is_faulted (close_msg k.netlink true ret m.xfer).1.buffer ≡ false
  unfolding OnResult OnXfer
  eval-owned ok fuel t ret prog s {m} e =
      let x = (open_msg k.netlink (start_of s)).1 in
      let (_, live_is, _) = open_ok k.netlink ok (start_of s) in
      let on =
        eval-OnResult (IsLive k.netlink ok) (host_for k t) (emit_reply-OnReply k.netlink ok) fuel
          prog (mach (λ _. 0) 0 0 s.bus x) (_, live_is) in
      let (last, is_live) = subst (OnResult (IsLive k.netlink ok)) e on in
      close_msg-owned k.netlink ok ret m.xfer last is_live

  run_xfer-Ends :
      (n t len : ℕ) (prog : Prog) (s : System B W)
      → All Fits prog
      → validate_prog len prog ≡ 0
      → k.clock t n ≡ true
      → (o : Outcome B W) × (run_xfer k (suc n) t prog (record s { refs = suc s.refs }) ≡ some o)
        × Ends s o
  unfolding run_xfer finish_xfer
  run_xfer-Ends n t len prog s fits valid late =
      let s₁ : System B W = record s { refs = suc s.refs } in
      let q = open_msg k.netlink (start_of s) in
      let late' : k.clock t (0 + n) ≡ true = (let same : 0 + n ≡ n = omega arith in rw same late) in
      let (ret, m, e) =
        validate_prog-eval (host_for k t) len prog n (mach (λ _. 0) 0 0 s.bus q.1) fits valid
          late' in
      elim (Bool-cases (q.0 == 0)) [
        | inr failed ↦ (returned q.0 (put_device k s₁ s.bus q.1), rw failed, answers (omega arith))
        | inl opened ↦
            let c = close_msg k.netlink true ret m.xfer in
            elim (Bool-cases (is_faulted c.1.buffer)) [
              | inl dead ↦ (
                fault,
                rw (opened, e, finish_xfer, dead),
                faults (suc n) t ret prog m ((==_iff q.0 0).0 opened) e dead
                    (λ ok. let owned = eval-owned ok (suc n) t ret prog s e in cc),
              )
              | inr owned ↦ (
                returned c.0 (put_device k s₁ m.bus c.1),
                rw (opened, e, finish_xfer, owned),
                answers (omega arith),
              )
            ]
      ]

  request-Ends :
      (n : ℕ) (bus_id : Option N) (timeout : Option ℕ) (p : Option (ℕ × Prog))
      (has_data has_error : Bool) (s : System B W)
      → ((len : ℕ) (prog : Prog)
          → p ≡ some (len, prog)
          → All Fits prog × (validate_prog len prog ≡ 0))
      → ((t : ℕ) → k.clock t n ≡ true)
      → (o : Outcome B W) × (cmd_xfer k
            (suc n)
            (record {
              bus_id = bus_id;
              timeout = timeout;
              prog = p;
              has_data = has_data;
              has_error = has_error;
            })
            s
          ≡ some o)
        × Ends s o
  unfolding cmd_xfer
  request-Ends n none timeout p has_data has_error s valid late = (_, refl, answers refl)
  request-Ends n (some name) timeout none has_data has_error s valid late = (_, refl, answers refl)
  request-Ends n (some name) timeout (some (len, prog)) true has_error s valid late =
      (_, refl, answers refl)
  request-Ends n (some name) timeout (some (len, prog)) false true s valid late =
      (_, refl, answers refl)
  request-Ends n (some name) timeout (some (len, prog)) false false s valid late =
      elim (Bool-cases (not (k.find_bus name))) [
        | inl missing ↦ (returned enodev s, rw missing, answers refl)
        | inr found ↦
            let (fits, accepted) = valid len prog refl in
            let t : ℕ = elim timeout [ none ↦ 100 | some t ↦ t ] in
            let (o, e, h) = run_xfer-Ends n t len prog s fits accepted (late t) in
            (o, rw found e, h)
      ]

  -- If the program of a request, where it has one, is accepted by the validation, and the time is up at
  -- the latest at the look `n` at the clock whatever the timeout, then the handler comes to its end
  -- with `n + 1` passes of the interpreter at most, and no BUG_ON fails: it returns, and the references
  -- to the bus device are as before; or mdio_nl_close, behind a reply that was opened and a program
  -- that has come to its end, uses a buffer that is not there, which happens only where netlink lacks
  -- memory or room in an empty message, or refuses a message.
  pub cmd_xfer-Ends :
      (n : ℕ) (a : Attributes N) (s : System B W)
      → ((len : ℕ) (prog : Prog)
          → a.prog ≡ some (len, prog)
          → All Fits prog × (validate_prog len prog ≡ 0))
      → ((t : ℕ) → k.clock t n ≡ true)
      → (o : Outcome B W) × (cmd_xfer k (suc n) a s ≡ some o) × Ends s o
  cmd_xfer-Ends n a s valid late =
      request-Ends n a.bus_id a.timeout a.prog a.has_data a.has_error s valid late
