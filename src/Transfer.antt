-- ===== src/Transfer.antt =====
-- src/mdio/mdio.c with kernel/mdio-netlink.c: a request on its way from the tool to the kernel's
-- handler, and the messages of the reply on their way back.
pub mod Delivery
pub mod Words
pub mod Raw
use mdio_tools.Prelude.{ℕ, ◌*◌, ◌≤◌, if◌then◌else◌, true, false, ◌≡◌, some, List, [], ◌∷◌, length}
use mdio_tools.Tool.Args.{Text}
use mdio_tools.Tool.Transport.{
  CbResult, cb_error, cb_stop, cb_ok, incoming, Xfer, Reply, Socket, insn_size, XferCb,
}
use mdio_tools.Kernel.Message.{Message}
use mdio_tools.Kernel.Validate.{validate_prog}
use mdio_tools.Kernel.Command.{Attributes, Kernel, System, returned, cmd_xfer}

-- The attributes that mdio_xfer_timeout puts, as mdio_nl_cmd_xfer gets them.
abbrev pub attributes_of : Xfer → Attributes Text
attributes_of x = record {
  bus_id = some x.bus_id;
  timeout = some x.timeout;
  prog = some (length x.prog * insn_size, x.prog);
  has_data = false;
  has_error = false;
}

-- The attributes of a message, as mdio_xfer_cb gets them. mdio_nl_open begins MDIO_NLA_DATA in each.
abbrev pub reply_of : Message → Reply
reply_of m = record { error = m.error; words = some m.words }

-- What an end marker makes of a callback's result: the messages of this datagram are read to the end.
abbrev pub at_end : {S : Type 0} → CbResult × S → CbResult × S
at_end (r, s) = (elim r [ cb_ok ↦ cb_stop | cb_error ↦ cb_error | cb_stop ↦ cb_stop ], s)

-- What generic netlink and libmnl do between the two: a request that passes mdio_nl_policy, that is, whose
-- bus is named by at most MII_BUS_ID_SIZE characters, whose timeout is at most 10 seconds and whose
-- program has at most 0x1000 bytes and is validated, is handed to the handler, whose interpreter may
-- make `n` passes with `sock n`; the messages that the handler sends wait in the socket, one in each
-- datagram; and mnl_cb_run gives a message whose length is set to the callback, and then
-- looks at an end marker.
pub record Linked {V B W D S : Type 0} (k : Kernel Text B V) (sock : ℕ → Socket W D Xfer Reply S)
    : Type 0 where
  pub bus_id_size : ℕ
  pub system : W → System B V
  pub queue : W → List Message
  pub sends :
      (x : Xfer) (w : W) (fuel : ℕ) {s : System B V}
      → length x.bus_id ≤ bus_id_size
      → x.timeout ≤ 10000
      → length x.prog * insn_size ≤ 0x1000
      → validate_prog (length x.prog * insn_size) x.prog ≡ 0
      → cmd_xfer k fuel (attributes_of x) (record (system w) { sent = [] }) ≡ some (returned 0 s)
      → (w' : W) × ((sock fuel).send_to x w ≡ (true, w')) × (queue w' ≡ s.sent) × (system w' ≡ s)
  pub receives :
      (n : ℕ) (w : W) {m : Message} {ms : List Message}
      → queue w ≡ m ∷ ms
      → m.ended ≡ true
      → (d : D) × (w' : W) × ((sock n).recv_from w ≡ (incoming d, w'))
        × (queue w' ≡ ms)
        × ((f : Reply → S → CbResult × S) (s : S)
            → (sock n).cb_run f d s
              ≡ (if m.done then at_end (f (reply_of m) s) else f (reply_of m) s))

-- A callback, with the words that it was given, as the tool prints them.
abbrev pub recorded : (List ℕ → ℕ → ℕ) → XferCb (List (List ℕ))
recorded cb ws e seen = (cb ws e, ws ∷ seen)
