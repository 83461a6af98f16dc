-- ===== src/Transfer/Words.antt =====
-- src/mdio/mdio.c with kernel/mdio-netlink.c: all words that a program emits reach the tool's
-- callback, however the kernel has spread them over messages.
use mdio_tools.Prelude.{
  ℕ, ◌<◌, ◌*◌, ◌≤◌, true, ◌≡◌, refl, ◌∙◌, ap, some, List, [], ◌∷◌, ◌++◌, length, append_assoc,
  append-nil, inl, inr, Option-cases,
}
use mdio_tools.Tool.Args.{Text}
use mdio_tools.Tool.Transport.{
  Reply, cb_stop, Xfer, Socket, XferData, XferCb, xfer_cb, insn_size, buf_size, request_size,
  returned, xfer_timeout,
}
use mdio_tools.Tool.Transport.Replies.{deliver}
use mdio_tools.Tool.Access.Raw.{Completes}
use mdio_tools.Kernel.Message
use mdio_tools.Kernel.Message.{Message, close_msg}
use mdio_tools.Kernel.Message.Stream.{Healthy, words_of, errors_of, Holds}
use mdio_tools.Kernel.Message.Close.{close_msg-Closed, close_msg-owned}
use mdio_tools.Kernel.Message.Marks.{Open, close_msg-Ended}
use mdio_tools.Kernel.Validate.{validate_prog}
use mdio_tools.Kernel.Command.{Kernel, host_for}
use mdio_tools.Transfer.{Linked}
use mdio_tools.Transfer.Delivery.{opened, replies_of, ending, Completes-delivered}

-- A callback that takes whatever it is given, and keeps it.
abbrev pub gather : XferCb (List ℕ)
gather ws e seen = (e, seen ++ ws)

deliver-gather :
    (ms : List Message) (seen : List ℕ)
    → errors_of ms ≡ []
    → deliver (xfer_cb gather) (replies_of ms) (record { err = 0; arg = seen })
      ≡ (cb_stop, record { err = 0; arg = seen ++ words_of ms })
unfolding deliver xfer_cb
deliver-gather [] seen e = rw append-nil
deliver-gather (m ∷ ms) seen e = elim (Option-cases m.error) [
  | inl plain ↦
      let rest : errors_of ms ≡ [] = rw plain at e in
      rw (plain, deliver, plain)
        (deliver-gather ms (seen ++ m.words) rest
          ∙ ap (λ (l : List ℕ). (cb_stop, record { err = 0; arg = l }))
              (append_assoc seen m.words (words_of ms)))
  | inr (err, failed) ↦ let no : err ∷ errors_of ms ≡ [] = rw failed at e in cc
]

ending-gather :
    (ms : List Message) → errors_of ms ≡ [] → ending gather [] ms ≡ returned 0 (words_of ms)
ending-gather ms e = rw (deliver-gather ms [] e)

module _ {V B W D : Type 0} {k : Kernel Text B V}
    {sock : ℕ → Socket W D Xfer Reply (XferData (List ℕ))} (linked : Linked k sock)
    (ok : Healthy k.netlink) where
  -- If a request passes the kernel's policy, the validation of its program included, and the kernel knows
  -- the bus, its netlink works, the end marker fits behind what the last message of the reply holds,
  -- netlink hands over what both sides send, the request fits into the tool's buffer, and the program comes to its end with a transfer that has emitted the words `ws`, then
  -- for some number of passes that the interpreter may make and some number of messages, sending
  -- the request leaves the device as the program does, and
  -- mdio_xfer_timeout, when it looks for more datagrams than that, returns 0 and has given its
  -- callback, one message behind the other, exactly the words `ws`.
  pub words-delivered :
      (x : Xfer) (w : W) {b : B} {y : Message.Xfer V} (ws : List ℕ)
      → validate_prog (length x.prog * insn_size) x.prog ≡ 0
      → ((n : ℕ) → request_size (sock n) x ≤ buf_size)
      → length x.prog * insn_size ≤ buf_size
      → k.find_bus x.bus_id ≡ true
      → Completes
          (host_for k x.timeout)
          x.prog
          (linked.system w).bus
          (opened k.netlink (linked.system w))
          b
          y
      → (o : Open y) → k.netlink.done_fits (record o.message { ended = true }) ≡ true
      → Holds y ws
      → length x.bus_id ≤ linked.bus_id_size
      → x.timeout ≤ 10000
      → (passes : ℕ) × (messages : ℕ) × (w' : W) × ((sock passes).send_to x w ≡ (true, w'))
        × ((linked.system w').bus ≡ b)
        × ((fuel : ℕ)
            → messages < fuel
            → xfer_timeout (sock passes) fuel gather x [] w ≡ some (returned 0 ws))
  words-delivered x w {y = y} ws valid fits small found c o room holds named timely =
      let (closes, closed) = close_msg-Closed k.netlink ok 0 y ws holds in
      let ms = (close_msg k.netlink true 0 y).1.sent in
      let (passes, w', sends, bus_is, ends) =
        Completes-delivered linked ok x w ms valid fits small found c closes
          (close_msg-owned k.netlink ok 0 y o.message o.is_live) refl
          (close_msg-Ended k.netlink ok y o room) named timely in
      (
        passes,
        length ms,
        w',
        sends,
        bus_is,
        λ fuel lt.
            ends fuel gather [] lt
            ∙ ap some (ending-gather ms closed.errors_are ∙ ap (returned 0) closed.words_are),
      )
