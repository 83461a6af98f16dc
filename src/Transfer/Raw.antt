-- ===== src/Transfer/Raw.antt =====
-- src/mdio/mdio.c with kernel/mdio-netlink.c: a raw read, from the program that the tool builds to the
-- word that its callback is given.
use mdio_tools.Prelude.{
  ℕ, ◌+◌, ◌<◌, ◌≤◌, ◌≢◌, true, false, ◌≡◌, refl, ◌∙◌, arith, none, some, List, [], ◌∷◌, ◌++◌,
  length, u16, length-append, Option, ap, All,
}
use mdio_tools.Isa.{Prog, push}
use mdio_tools.Tool.Args.{Text, Libc, ok}
use mdio_tools.Tool.Common.{Callback, Request, raw_prog, raw_read_cb}
use mdio_tools.Tool.Paged.{PagedPhy, pphy_driver, page_of, reg_of}
use mdio_tools.Tool.Transport.{
  Reply, Xfer, Socket, XferData, buf_size, request_size, returned, xfer_timeout, xfer_cb,
}
use mdio_tools.Tool.Transport.Replies.{deliver}
use mdio_tools.Tool.Access.{Reads}
use mdio_tools.Tool.Access.Paged.{paged_code, pphy_reads, PagedBus, paged_access-transparent}
use mdio_tools.Tool.Access.Raw.{Completes, emit_0, read_emits}
use mdio_tools.Tool.Device.{Driver}
use mdio_tools.Kernel.Runs.{Calm}
use mdio_tools.Kernel.Machine.{Host, got}
use mdio_tools.Kernel.Message
use mdio_tools.Kernel.Message.{
  Message, Netlink, live, dangling, is_faulted, empty_message, emit_word, emit_reply, close_msg,
}
use mdio_tools.Kernel.Message.Stream.{Healthy, open_ok, emit_fits}
use mdio_tools.Kernel.Message.Close.{success_fits, close_msg-owned}
use mdio_tools.Kernel.Message.Marks.{Ended}
use mdio_tools.Kernel.Validate.Accepted.{
  IsAccepted, validate_prog-accepts, read-IsAccepted, jeq-IsAccepted, write_imm-IsAccepted,
  write_reg-IsAccepted, emit-IsAccepted,
}
use mdio_tools.Kernel.Command.{Kernel, System, host_for}
use mdio_tools.Transfer.{Linked, recorded}
use mdio_tools.Transfer.Delivery.{opened, ending, Completes-delivered}

-- The only message of a reply of one word.
abbrev one_word : ℕ → Message
one_word v = record { words = v ∷ []; error = none; done = true; ended = true }

one_word-Ended : (v : ℕ) → Ended (one_word v ∷ [])
one_word-Ended v = record {
  middle = [];
  last = one_word v;
  ends_with = refl;
  middle_plain = tt;
  is_ended = refl;
  is_done = refl;
}

ending-one_word :
    (v : ℕ) → ending (recorded raw_read_cb) [] (one_word v ∷ []) ≡ returned 0 ((v ∷ []) ∷ [])
unfolding xfer_cb deliver raw_read_cb
ending-one_word v = refl

module _ {V B : Type 0} (n : Netlink V) (ok : Healthy n)
    (room : (m : Message) → length m.words < 2 → n.done_fits m ≡ true) where
  -- What the first emission leaves of a transfer, and what closing it then sends.
  one_emitted :
      (s : System B V) (v : ℕ)
      → (y : Message.Xfer V) × (emit_reply n v (opened n s) ≡ got 0 y)
        × ((close_msg n true 0 y).0 ≡ 0)
        × (is_faulted (close_msg n true 0 y).1.buffer ≡ false)
        × ((close_msg n true 0 y).1.sent ≡ one_word v ∷ [])
  unfolding emit_reply
  one_emitted s v =
      let x = opened n s in
      let (_, live_is, sent_is) =
        open_ok n ok (record { world = s.world; buffer = dangling; sent = [] }) in
      let m = record empty_message { words = v ∷ [] } in
      let y : Message.Xfer V = record x { buffer = live m } in
      let (r, closed) =
        success_fits n ok y m refl (room (record m { ended = true }) (omega arith)) in
      (
        y,
        rw (emit_fits n ok v x empty_message live_is ok.word_room),
        r,
        close_msg-owned n ok 0 y m refl,
        closed ∙ ap (λ (l : List Message). l ++ one_word v ∷ []) sent_is,
      )

-- The call of mdio_xfer_timeout for a request.
abbrev pub xfer_of : Text → Request → Xfer
xfer_of bus req = record { bus_id = bus; prog = req.prog; timeout = req.timeout }

All-append : (p q : Prog) → All IsAccepted p → All IsAccepted q → All IsAccepted (p ++ q)
All-append [] q hp hq = hq
All-append (i ∷ p) q (h, hp) hq = (h, All-append p q hp hq)

paged_code-IsAccepted :
    {B X : Type 0} (h : Host B X) (d : PagedPhy) (r : ℕ) → All IsAccepted (paged_code h d r)
paged_code-IsAccepted h d r = (
  read-IsAccepted d.id d.page_reg 1,
  (
    jeq-IsAccepted 1 (page_of r) 1,
    (
      write_imm-IsAccepted d.id d.page_reg (page_of r),
      (
        read-IsAccepted d.id (reg_of r) 0,
        (jeq-IsAccepted 1 (page_of r) 1, (write_reg-IsAccepted d.id d.page_reg 1, tt)),
      ),
    ),
  ),
)

-- What a raw read wants of the kernel, of the netlink between the two, and of the request.
pub record Ready {V B W D S : Type 0} (k : Kernel Text B V) (sock : ℕ → Socket W D Xfer Reply S)
    (bus : Text) : Type 0 where
  pub linked : Linked k sock
  pub healthy : Healthy k.netlink
  pub room : (m : Message) → length m.words < 2 → k.netlink.done_fits m ≡ true
  pub found : k.find_bus bus ≡ true
  pub named : length bus ≤ linked.bus_id_size
  pub in_time : (j : ℕ) → k.clock 1000 j ≡ false
  pub fits :
      (n : ℕ) (prog : Prog)
      → length prog ≤ 16
      → request_size (sock n) (record { bus_id = bus; prog = prog; timeout = 1000 }) ≤ buf_size

module _ {V B W D : Type 0} {k : Kernel Text B V}
    {sock : ℕ → Socket W D Xfer Reply (XferData (List (List ℕ)))} {bus : Text}
    (ready : Ready k sock bus) where
  -- A request of one word that comes to its end is answered by that word.
  one_word-delivered :
      (prog : Prog) (w : W) {b : B} (v : ℕ)
      → length prog ≤ 16
      → All IsAccepted prog
      → ((y : Message.Xfer V)
          → emit_reply k.netlink v (opened k.netlink (ready.linked.system w)) ≡ got 0 y
          → Completes
              (host_for k 1000)
              prog
              (ready.linked.system w).bus
              (opened k.netlink (ready.linked.system w))
              b
              y)
      → (passes : ℕ) × (w' : W) × ((sock passes).send_to
            (record { bus_id = bus; prog = prog; timeout = 1000 })
            w
          ≡ (true, w'))
        × ((ready.linked.system w').bus ≡ b)
        × ((fuel : ℕ)
            → 1 < fuel
            → xfer_timeout
                (sock passes)
                fuel
                (recorded raw_read_cb)
                (record { bus_id = bus; prog = prog; timeout = 1000 })
                []
                w
              ≡ some (returned 0 ((v ∷ []) ∷ [])))
  one_word-delivered prog w v small valid run =
      let s = ready.linked.system w in
      let (y, emits, closes, owned, sent) = one_emitted k.netlink ready.healthy ready.room s v in
      let (passes, w', sends, bus_is, ends) =
        Completes-delivered ready.linked ready.healthy
          (record { bus_id = bus; prog = prog; timeout = 1000 }) w (one_word v ∷ [])
          (validate_prog-accepts prog valid) (λ n. ready.fits n prog small) (omega arith)
          ready.found (run y emits) closes owned sent (one_word-Ended v) ready.named
          (omega arith) in
      (
        passes,
        w',
        sends,
        bus_is,
        λ fuel lt. rw (ending-one_word v) at (ends fuel (recorded raw_read_cb) [] lt),
      )

  -- `raw REG` on any device whose driver keeps the contract with code of at most 15 instructions, which
  -- the kernel accepts, while the time is not up, the kernel knows the bus, its netlink works, a word and
  -- the end marker fit into one message, netlink hands over what both sides send, and the request fits
  -- into the tool's buffer and the name of its bus into the kernel's policy: if the driver's access
  -- gives `v`, then the tool builds a request; for some number of passes that the interpreter may make, sending it leaves the device as the access does; and
  -- mdio_xfer_timeout, which looks for at least two datagrams, returns 0 and has given its callback
  -- exactly the word `v`, cut to 16 bits, once.
  pub raw_read-delivered :
      {drv : Driver} {access : ℕ → B → Option (ℕ × B)} (reads : Reads (host_for k 1000) drv access)
      (r v : ℕ) (w : W) (b : B)
      → length (reads.code 0 r) ≤ 15
      → All IsAccepted (reads.code 0 r)
      → access r (ready.linked.system w).bus ≡ some (v, b)
      → (req : Request) × (raw_prog drv r none ≡ ok req)
        × (passes : ℕ) × (w' : W) × ((sock passes).send_to (xfer_of bus req) w ≡ (true, w'))
        × ((ready.linked.system w').bus ≡ b)
        × ((fuel : ℕ)
            → 1 < fuel
            → xfer_timeout (sock passes) fuel (recorded raw_read_cb) (xfer_of bus req) [] w
              ≡ some (returned 0 ((u16 v ∷ []) ∷ [])))
  unfolding raw_prog push
  raw_read-delivered reads r v w b small valid acc =
      let code = reads.code 0 r in
      let prog : Prog = code ++ (emit_0 ∷ []) in
      let len : length prog ≡ length code + 1 = length-append code _ in
      let calm : Calm (host_for k 1000) prog = record {
        in_time = ready.in_time;
        short = omega (arith, len);
      } in
      let (passes, w', sent, bus_is, ends) =
        one_word-delivered prog w (u16 v) (omega (arith, len))
          (All-append code (emit_0 ∷ []) valid (emit-IsAccepted 0, tt))
          (λ y emits.
            read_emits reads r v 0 (ready.linked.system w).bus b
              (opened k.netlink (ready.linked.system w)) y prog refl calm acc emits) in
      (
        record { prog = prog; timeout = 1000; callback = Callback.raw_read },
        rw (reads.read_code [] r),
        passes,
        w',
        sent,
        bus_is,
        ends,
      )

  -- `raw PAGE:REG` on a paged PHY, from the tool to the device and back, under the same conditions on
  -- the kernel and on netlink: mdio_xfer_timeout returns 0, its callback has been given exactly the
  -- register's cell on that page, cut to 16 bits, once, and the device is as before, the selected
  -- page included. The register is not the page register.
  pub pphy_raw_read-delivered :
      {d : PagedPhy} (pb : PagedBus (host_for k 1000) d) (c : Libc) (max r : ℕ) (w : W)
      → reg_of r ≢ d.page_reg
      → let b = (ready.linked.system w).bus in
        (req : Request) × (raw_prog (pphy_driver c max d) r none ≡ ok req)
        × (passes : ℕ) × (w' : W) × ((sock passes).send_to (xfer_of bus req) w ≡ (true, w'))
        × ((ready.linked.system w').bus ≡ b)
        × ((fuel : ℕ)
            → 1 < fuel
            → xfer_timeout (sock passes) fuel (recorded raw_read_cb) (xfer_of bus req) [] w
              ≡ some (returned 0 ((u16 (pb.cell b (page_of r) (reg_of r)) ∷ []) ∷ [])))
  unfolding pphy_reads
  pphy_raw_read-delivered {d} pb c max r w ne =
      let b = (ready.linked.system w).bus in
      raw_read-delivered (pphy_reads (host_for k 1000) d c max) r (pb.cell b (page_of r) (reg_of r))
        w b (omega arith) (paged_code-IsAccepted (host_for k 1000) d r)
        (paged_access-transparent pb r b ne)
