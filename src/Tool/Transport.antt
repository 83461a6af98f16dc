-- ===== src/Tool/Transport.antt =====
-- src/mdio/mdio.c: requests to the kernel and the replies to them, and the search for a bus. The socket
-- and libmnl are parameters; an error -n or a status n is the number n.
pub mod Replies
use mdio_tools.Prelude.{
  ℕ, zero, suc, ◌+◌, ◌*◌, ◌==◌, ltb, if◌then◌else◌, Bool, true, false, not, Option, none, some,
  List, [], ◌∷◌, length,
}
use mdio_tools.Isa.{Prog}
use mdio_tools.Tool.Args.{Text, codes, Result, ok, err, enodev}

-- MNL_CB_ERROR, MNL_CB_STOP and MNL_CB_OK
pub data CbResult : Type 0 where
  cb_error cb_stop cb_ok : CbResult

-- What mnl_socket_recvfrom gives: an error, nothing, or a datagram.
pub data Incoming (D : Type 0) : Type 0 where
  in_error in_nothing : Incoming D
  incoming : D → Incoming D

-- The attributes of a request.
pub record Xfer : Type 0 where
  pub bus_id : Text
  pub prog : Prog
  pub timeout : ℕ

-- The attributes MDIO_NLA_ERROR, by its absolute value, and MDIO_NLA_DATA of a reply.
pub record Reply : Type 0 where
  pub error : Option ℕ
  pub words : Option (List ℕ)

-- libmnl over a world `W`: opening a socket, binding it and sending a request over it; receiving; and
-- mnl_cb_run, which runs a callback over the messages `R` of a datagram `D` and handles control messages.
-- Then the bytes that the headers take, and an attribute with a payload of so many bytes.
pub record Socket (W D M R S : Type 0) : Type 0 where
  pub send_to : M → W → Bool × W
  pub recv_from : W → Incoming D × W
  pub cb_run : (R → S → CbResult × S) → D → S → CbResult × S
  pub headers : ℕ
  pub attr_size : ℕ → ℕ

-- struct mdio_xfer_data, with what `arg` points to
pub record XferData (A : Type 0) : Type 0 where
  pub err : ℕ
  pub arg : A

-- A callback of the tool, on the words of a message and the error so far
abbrev pub XferCb : Type 0 → Type 0
XferCb A = List ℕ → ℕ → A → ℕ × A

abbrev error_of : Option ℕ → ℕ → ℕ
error_of none e = e
error_of (some n) e = n

-- mdio_xfer_cb
unfoldable pub xfer_cb : {A : Type 0} → XferCb A → Reply → XferData A → CbResult × XferData A
xfer_cb cb m x =
    let e = error_of m.error x.err in
    elim m.words [
      | none ↦ (cb_error, record { err = e; arg = x.arg })
      | some ws ↦
          let (r, a) = cb ws e x.arg in
          (if r == 0 then cb_ok else cb_error, record { err = e; arg = a })
    ]

abbrev pub enomem : ℕ
enomem = 12

abbrev pub enotsup : ℕ
enotsup = 95

-- `buf` and `len`
abbrev pub buf_size : ℕ
buf_size = 4096

-- `sizeof(*prog->insns)`
abbrev pub insn_size : ℕ
insn_size = 8

-- How a request ends: with a status and what the callback has left, or with a write outside of `buf`.
pub data Outcome (A : Type 0) : Type 0 where
  returned : ℕ → A → Outcome A
  overrun : Outcome A

-- `xfer.err ? : err`, with the result of msg_query as a status
abbrev pub status_of : {A : Type 0} → CbResult → XferData A → ℕ
status_of r x =
    if not (x.err == 0) then x.err else elim r [ cb_error ↦ 1 | cb_stop ↦ 0 | cb_ok ↦ 0 ]

module _ {W D M R S : Type 0} (sock : Socket W D M R S) where
  -- msg_recv, on fuel: `none` means that more datagrams came than there was fuel.
  unfoldable pub msg_recv : ℕ → (R → S → CbResult × S) → W → S → Option (CbResult × S)
  msg_recv zero cb w s = none
  msg_recv (suc fuel) cb w s =
      let (got, w') = sock.recv_from w in
      elim got [
        | in_error ↦ some (cb_error, s)
        | in_nothing ↦ some (cb_stop, s)
        | incoming d ↦
            let (r, s') = sock.cb_run cb d s in
            elim r [
              | cb_error ↦ some (cb_error, s')
              | cb_stop ↦ some (cb_stop, s')
              | cb_ok ↦ msg_recv fuel cb w' s'
            ]
      ]

module _ {W D S : Type 0} (sock : Socket W D Xfer Reply S) where
  -- The bytes that mdio_xfer_timeout puts into `buf`: the headers, and the attributes for the bus with
  -- its closing NUL, the program, and the timeout.
  unfoldable pub request_size : Xfer → ℕ
  request_size x =
      sock.headers
      + sock.attr_size (length x.bus_id + 1)
      + sock.attr_size (length x.prog * insn_size)
      + sock.attr_size 2

-- mdio_xfer_timeout, with msg_send and msg_query
unfoldable pub xfer_timeout :
    {W D A : Type 0}
    → Socket W D Xfer Reply (XferData A)
    → ℕ
    → XferCb A
    → Xfer
    → A
    → W
    → Option (Outcome A)
unfolding msg_recv request_size
xfer_timeout sock fuel cb x arg w =
    if ltb buf_size (length x.prog * insn_size)
    then some (returned enomem arg)
    else if ltb buf_size (request_size sock x)
    then some overrun
    else let (sent, w') = sock.send_to x w in
      if not sent
      then some (returned enotsup arg)
      else elim (msg_recv sock fuel (xfer_cb cb) w' (record { err = 0; arg = arg })) [
        | none ↦ none
        | some (r, s) ↦ some (returned (status_of r s) s.arg)
      ]

-- The loop of mdio_for_each over the names that the pattern matches, in the order of `glob`.
unfoldable pub for_each : {S : Type 0} → (Text → S → ℕ × S) → List Text → S → ℕ × S
for_each cb [] s = (0, s)
for_each cb (bus ∷ rest) s =
    let (e, s') = cb bus s in let more = for_each cb rest s' in if e == 0 then more else (e, s')

-- mdio_parse_bus_cb and mdio_parse_bus; `glob` gives the names below /sys/class/mdio_bus that match.
abbrev pub parse_bus_cb : Text → Option Text → ℕ × Option Text
parse_bus_cb bus id = (1, some bus)

unfoldable pub parse_bus : (Text → List Text) → Text → Result Text
unfolding for_each
parse_bus glob str = elim (for_each parse_bus_cb (glob str) none).1 [
  | none ↦ err enodev
  | some bus ↦ ok bus
]

-- family_id_cb, on the attribute CTRL_ATTR_FAMILY_ID, with `mdio_family`
unfoldable pub family_id_cb : Option ℕ → ℕ → CbResult × ℕ
family_id_cb none family = (cb_error, family)
family_id_cb (some id) family = (cb_ok, id)

-- The attributes of the request for the family.
pub record FamilyRequest : Type 0 where
  pub family_id : ℕ
  pub family_name : Text

-- mdio_init, with `mdio_family`; GENL_ID_CTRL is a parameter. The socket is closed behind the replies.
unfoldable pub mdio_init :
    {W D : Type 0} → Socket W D FamilyRequest (Option ℕ) ℕ → ℕ → ℕ → ℕ → W → Option (ℕ × ℕ)
unfolding msg_recv family_id_cb
mdio_init sock genl_id_ctrl fuel family w =
    let (sent, w') =
      sock.send_to (record { family_id = genl_id_ctrl; family_name = codes "mdio" }) w in
    if not sent then some (enotsup, family) else elim (msg_recv sock fuel family_id_cb w' family) [
      | none ↦ none
      | some (r, family') ↦ some (elim r [ cb_error ↦ 1 | cb_stop ↦ 0 | cb_ok ↦ 0 ], family')
    ]

-- How the child process of mdio_modprobe fares: fork fails with an error, waitpid gives nothing, or the
-- child exits or is ended by a signal.
pub data Child : Type 0 where
  fork_failed exited : ℕ → Child
  lost signalled : Child

-- mdio_modprobe
unfoldable pub mdio_modprobe : Child → ℕ
mdio_modprobe (fork_failed errno) = errno
mdio_modprobe (exited status) = if status == 0 then 0 else 1
mdio_modprobe lost = 10
mdio_modprobe signalled = 1
