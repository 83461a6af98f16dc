-- ===== src/Transfer/Delivery.antt =====
-- src/mdio/mdio.c with kernel/mdio-netlink.c: the messages of a reply that is whole reach the tool's
-- callback.
use mdio_tools.Prelude.{
  ℕ, suc, ◌<◌, ◌*◌, ◌≤◌, true, false, ◌≡◌, refl, sym, ◌∙◌, ap, arith, some, subst, suc, List, [],
  ◌∷◌, ◌++◌, All, length, inl, inr,
}
use mdio_tools.Tool.Args.{Text}
use mdio_tools.Tool.Transport.{
  CbResult, Xfer, Reply, Socket, XferData, XferCb, xfer_cb, insn_size, buf_size, request_size,
  returned, Outcome, status_of, xfer_timeout,
}
use mdio_tools.Tool.Transport.Replies.{
  deliver, Waiting, message, finished, CbResult-cases, xfer_timeout-deliver,
}
use mdio_tools.Kernel.Message
use mdio_tools.Kernel.Message.{Message, Netlink, dangling, is_faulted, open_msg, close_msg}
use mdio_tools.Kernel.Message.Stream.{Healthy, open_ok}
use mdio_tools.Kernel.Message.Marks.{IsPlain, Ended}
use mdio_tools.Kernel.Command
use mdio_tools.Kernel.Command.{
  Kernel, System, host_for, put_device, run_xfer, finish_xfer, cmd_xfer,
}
use mdio_tools.Kernel.Validate.{validate_prog}
use mdio_tools.Tool.Access.Raw.{Completes}
use mdio_tools.Transfer.{Linked, attributes_of, reply_of, at_end}

abbrev pub replies_of : List Message → List Reply
replies_of [] = []
replies_of (m ∷ ms) = reply_of m ∷ replies_of ms

at_end-deliver :
    {S : Type 0} (f : Reply → S → CbResult × S) (m : Reply) (s : S)
    → at_end (f m s) ≡ deliver f (m ∷ []) s
unfolding deliver
at_end-deliver f m s = elim (CbResult-cases (f m s).0) [
  | inl r ↦ rw (r, deliver)
  | inr (inl r) ↦ rw (r, deliver)
  | inr (inr r) ↦ rw (r, deliver)
]

-- The transfer that mdio_nl_cmd_xfer opens for a request.
abbrev pub opened : {V B : Type 0} → Netlink V → System B V → Message.Xfer V
opened n s = (open_msg n (record { world = s.world; buffer = dangling; sent = [] })).1

module _ {V B : Type 0} (k : Kernel Text B V) (ok : Healthy k.netlink) where
  -- The handler on a program that comes to its end.
  pub cmd_xfer-Completes :
      (x : Xfer) (s : System B V) {b : B} {y : Message.Xfer V}
      → k.find_bus x.bus_id ≡ true
      → Completes (host_for k x.timeout) x.prog s.bus (opened k.netlink s) b y
      → (close_msg k.netlink true 0 y).0 ≡ 0
      → is_faulted (close_msg k.netlink true 0 y).1.buffer ≡ false
      → (fuel : ℕ) × (s' : System B V) × (cmd_xfer k fuel (attributes_of x) (record s { sent = [] })
          ≡ some (Command.returned 0 s'))
        × (s'.sent ≡ (close_msg k.netlink true 0 y).1.sent)
        × (s'.bus ≡ b)
  unfolding cmd_xfer run_xfer finish_xfer
  cmd_xfer-Completes x s found c closes whole =
      let close = close_msg k.netlink true 0 in
      let s₁ : System B V = record s { refs = suc s.refs; sent = [] } in
      (
        c.fuel,
        put_device k s₁ c.final.bus (close c.final.xfer).1,
        rw (
          found,
          (open_ok k.netlink ok (record { world = s.world; buffer = dangling; sent = [] })).0,
          c.returns,
          c.xfer_is,
          closes,
          whole,
        ),
        ap (λ y'. (close y').1.sent) c.xfer_is,
        c.bus_is,
      )

module _ {V B W D S : Type 0} {k : Kernel Text B V} {sock : ℕ → Socket W D Xfer Reply S}
    (linked : Linked k sock) where
  waits :
      (n : ℕ) (w : W) (ms : List Message) (m : Message)
      → linked.queue w ≡ ms ++ m ∷ []
      → All IsPlain ms
      → m.ended ≡ true
      → m.done ≡ true
      → Waiting (sock n) w (replies_of (ms ++ m ∷ []))
  waits n w [] m q plain ended done =
      let (d, w', r, _, run) = linked.receives n w q ended in
      finished d r (λ f s. rw done at (run f s) ∙ at_end-deliver f (reply_of m) s)
  waits n w (k' ∷ ms) m q ((e, nd), plain) ended done =
      let (d, w', r, q', run) = linked.receives n w q e in
      message d r (λ f s. rw nd at (run f s)) (waits n w' ms m q' plain ended done)

-- How mdio_xfer_timeout ends when the callback is given these messages.
abbrev pub ending : {A : Type 0} → XferCb A → A → List Message → Outcome A
ending cb arg ms =
    let (r, st) = deliver (xfer_cb cb) (replies_of ms) (record { err = 0; arg = arg }) in
    returned (status_of r st) st.arg

length-replies_of : (ms : List Message) → length (replies_of ms) ≡ length ms
length-replies_of [] = refl
length-replies_of (m ∷ ms) = ap suc (length-replies_of ms)

module _ {V B W D A : Type 0} {k : Kernel Text B V} {sock : ℕ → Socket W D Xfer Reply (XferData A)}
    (linked : Linked k sock) (ok : Healthy k.netlink) where
  -- A request that is accepted, whose program comes to its end, and whose reply is whole.
  pub Completes-delivered :
      (x : Xfer) (w : W) {b : B} {y : Message.Xfer V} (ms : List Message)
      → validate_prog (length x.prog * insn_size) x.prog ≡ 0
      → ((n : ℕ) → request_size (sock n) x ≤ buf_size)
      → length x.prog * insn_size ≤ buf_size
      → k.find_bus x.bus_id ≡ true
      → Completes
          (host_for k x.timeout)
          x.prog
          (linked.system w).bus
          (opened k.netlink (linked.system w))
          b
          y
      → (close_msg k.netlink true 0 y).0 ≡ 0
      → is_faulted (close_msg k.netlink true 0 y).1.buffer ≡ false
      → (close_msg k.netlink true 0 y).1.sent ≡ ms
      → Ended ms
      → length x.bus_id ≤ linked.bus_id_size
      → x.timeout ≤ 10000
      → (passes : ℕ) × (w' : W) × ((sock passes).send_to x w ≡ (true, w'))
        × ((linked.system w').bus ≡ b)
        × ((fuel : ℕ) (cb : XferCb A) (arg : A)
            → length ms < fuel
            → xfer_timeout (sock passes) fuel cb x arg w ≡ some (ending cb arg ms))
  Completes-delivered x w ms valid fits small found c closes owned sent whole named timely =
      let (passes, s', run, sent', bus) =
        cmd_xfer-Completes k ok x (linked.system w) found c closes owned in
      let (w', sends, queued, sys) = linked.sends x w passes named timely small valid run in
      let q : linked.queue w' ≡ whole.middle ++ whole.last ∷ [] =
        queued ∙ (sent' ∙ (sent ∙ whole.ends_with)) in
      let waiting : Waiting (sock passes) w' (replies_of ms) =
        subst (λ (l : List Message). Waiting (sock passes) w' (replies_of l)) (sym whole.ends_with)
          (waits linked passes w' whole.middle whole.last q whole.middle_plain whole.is_ended
            whole.is_done) in
      (
        passes,
        w',
        sends,
        ap (λ (t : System B V). t.bus) sys ∙ bus,
        λ fuel cb arg lt.
            xfer_timeout-deliver (sock passes) fuel cb x arg w (fits passes) small sends waiting
              (omega (arith, length-replies_of ms)),
      )
