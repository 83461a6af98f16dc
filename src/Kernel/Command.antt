-- ===== src/Kernel/Command.antt =====
-- kernel/mdio-netlink.c: `mdio_nl_cmd_xfer`, from the attributes of a request to its reply.
pub mod Returns
use mdio_tools.Prelude.{
  ℕ, suc, ◌+◌, ◌-◌, ◌==◌, if◌then◌else◌, Bool, true, false, not, ◌≡◌, refl, arith, Option, none,
  some, List, All, Bool-cases, inl, inr,
}
use mdio_tools.Isa.{Prog}
use mdio_tools.Kernel.Machine.{Host, Status, running, exited, crashed, einval, eval}
use mdio_tools.Kernel.Runs.{mach}
use mdio_tools.Kernel.Validate.{validate_prog}
use mdio_tools.Kernel.Safety.{Fits}
use mdio_tools.Kernel.Termination.{validate_prog-eval}
use mdio_tools.Kernel.Message.{
  Message, dangling, is_faulted, Netlink, Xfer, open_msg, close_msg, emit_reply, enodev,
}

-- The attributes of a request: the name of the bus, the timeout, the program with its length in bytes,
-- and whether the two that only a reply may have are there.
pub record Attributes (N : Type 0) : Type 0 where
  pub bus_id : Option N
  pub timeout : Option ℕ
  pub prog : Option (ℕ × Prog)
  pub has_data : Bool
  pub has_error : Bool

-- What the kernel provides to the handler: the look-up of a bus by its name, the bus itself, netlink,
-- and at which looks at the clock the time is up, for a timeout in milliseconds.
pub record Kernel (N B W : Type 0) : Type 0 where
  pub find_bus : N → Bool
  pub accesses : Host B (Xfer W)
  pub netlink : Netlink W
  pub clock : ℕ → ℕ → Bool

-- What the handler changes: the references to the bus device, the bus, netlink and what was sent.
pub record System (B W : Type 0) : Type 0 where
  pub refs : ℕ
  pub bus : B
  pub world : W
  pub sent : List Message

-- The handler returns, a BUG_ON has failed, or a buffer was used that is not there.
pub data Outcome (B W : Type 0) : Type 0 where
  returned : ℕ → System B W → Outcome B W
  bug fault : Outcome B W

module _ {N B W : Type 0} (k : Kernel N B W) where
  -- The interpreter's surroundings for a request with this timeout.
  abbrev pub host_for : ℕ → Host B (Xfer W)
  host_for t = record k.accesses { emit = emit_reply k.netlink; time_after = k.clock t }

  -- put_device, with what the transfer leaves behind
  abbrev pub put_device : System B W → B → Xfer W → System B W
  put_device s b x = record { refs = s.refs - 1; bus = b; world = x.world; sent = x.sent }

  -- The end of the handler, behind mdio_nl_eval.
  unfoldable pub finish_xfer : System B W → Option (Status B (Xfer W)) → Option (Outcome B W)
  finish_xfer s none = none
  finish_xfer s (some (running m)) = none
  finish_xfer s (some (exited ret m)) =
      let (err, x) = close_msg k.netlink true ret m.xfer in
      if is_faulted x.buffer then some fault else some (returned err (put_device s m.bus x))
  finish_xfer s (some crashed) = some bug

  -- From mdio_nl_open on; `xfer.msg` is not set before.
  unfoldable pub run_xfer : ℕ → ℕ → Prog → System B W → Option (Outcome B W)
  unfolding finish_xfer
  run_xfer fuel t prog s =
      let (err, x) =
        open_msg k.netlink (record { world = s.world; buffer = dangling; sent = s.sent }) in
      if not (err == 0)
      then some (returned err (put_device s s.bus x))
      else finish_xfer s (eval (host_for t) fuel prog (mach (λ _. 0) 0 0 s.bus x))

  -- mdio_nl_cmd_xfer, with the interpreter's fuel
  unfoldable pub cmd_xfer : ℕ → Attributes N → System B W → Option (Outcome B W)
  unfolding run_xfer
  cmd_xfer fuel a s = elim a.bus_id [
    | none ↦ some (returned einval s)
    | some name ↦ elim a.prog [
      | none ↦ some (returned einval s)
      | some (len, prog) ↦
          if a.has_data
          then some (returned einval s)
          else if a.has_error
          then some (returned einval s)
          else if not (k.find_bus name)
          then some (returned enodev s)
          else run_xfer fuel (elim a.timeout [ none ↦ 100 | some t ↦ t ]) prog
              (record s { refs = suc s.refs })
    ]
  ]
