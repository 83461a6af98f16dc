-- ===== src/Kernel/Message.antt =====
-- kernel/mdio-netlink.c: the reply messages, `mdio_nl_open`, `mdio_nl_close`, `mdio_nl_flush` and
-- `mdio_nl_emit`, and the command handler `mdio_nl_cmd_xfer` around the interpreter.
-- A return value of 0 is success, and n stands for the error -n.
pub mod Stream
pub mod Close
pub mod Marks
pub mod Ownership
use mdio_tools.Prelude.{
  ℕ, zero, suc, ◌+◌, ◌-◌, ◌/◌, ◌==◌, if◌then◌else◌, Bool, true, false, not, ◌&&◌, ◌||◌, Option,
  none, some, List, [], ◌∷◌, ◌++◌,
}
use mdio_tools.Kernel.Machine.{Reply, got, fail, einval}

abbrev pub enomem : ℕ
enomem = 12

abbrev pub emsgsize : ℕ
emsgsize = 90

abbrev pub enodev : ℕ
enodev = 19

-- What a message holds: the words of MDIO_NLA_DATA, MDIO_NLA_ERROR, and NLMSG_DONE behind it; and
-- whether genlmsg_end has set its length.
pub record Message : Type 0 where
  pub words : List ℕ
  pub error : Option ℕ
  pub done : Bool
  pub ended : Bool

-- `xfer->msg`: a buffer of ours, NULL, or a pointer to a buffer that was freed or handed over.
-- `faulted` is the state after a use of either as if it were live.
pub data Buffer : Type 0 where
  live : Message → Buffer
  null dangling faulted : Buffer

-- The use of a buffer that is not there, which the kernel does not survive
abbrev pub is_faulted : Buffer → Bool
is_faulted faulted = true
is_faulted _ = false

-- What netlink provides, over a world `W`: whether an allocation, a header and the start of a nest
-- succeed; whether a word, an error and an end marker fit behind what a message holds; and the
-- result of sending, which takes the buffer over in any case.
pub record Netlink (W : Type 0) : Type 0 where
  pub alloc : W → Bool × W
  pub put_header : W → Bool × W
  pub nest_start : W → Bool × W
  pub word_fits : Message → Bool
  pub error_fits : Message → Bool
  pub done_fits : Message → Bool
  pub unicast : W → ℕ × W

-- The part of `struct mdio_nl_xfer` that changes, with the messages sent so far.
pub record Xfer (W : Type 0) : Type 0 where
  pub world : W
  pub buffer : Buffer
  pub sent : List Message

abbrev pub empty_message : Message
empty_message = record { words = []; error = none; done = false; ended = false }

module _ {W : Type 0} (n : Netlink W) where
  -- mdio_nl_open, with its ladder of error labels
  unfoldable pub open_msg : Xfer W → ℕ × Xfer W
  open_msg x =
      let (allocated, w₁) = n.alloc x.world in
      if not allocated
      then (enomem, record x { world = w₁; buffer = null })
      else let (headed, w₂) = n.put_header w₁ in
        if not headed
        then (emsgsize, record x { world = w₂; buffer = dangling })
        else let (nested, w₃) = n.nest_start w₂ in
          if not nested
          then (emsgsize, record x { world = w₃; buffer = dangling })
          else (0, record x { world = w₃; buffer = live empty_message })

  -- The end of mdio_nl_close: the message is sent, and belongs to netlink from then on.
  unfoldable pub send : Message → Xfer W → ℕ × Xfer W
  send m x =
      let (err, w) = n.unicast x.world in
      (
        err,
        record x {
          world = w;
          buffer = dangling;
          sent = if err == 0 then x.sent ++ m ∷ [] else x.sent;
        },
      )

  -- mdio_nl_close with `last` false and no error, as mdio_nl_flush calls it
  unfoldable pub close_plain : Buffer → Xfer W → ℕ × Xfer W
  close_plain (live m) x = send (record m { ended = true }) x
  close_plain _ x = (0, record x { buffer = faulted })

  -- mdio_nl_flush
  unfoldable pub flush : Xfer W → ℕ × Xfer W
  unfolding close_plain
  flush x =
      let (err, x') = close_plain x.buffer x in
      if is_faulted x'.buffer then (err, x') else if err == 0 then open_msg x' else (err, x')

  -- nla_put_nohdr of one word
  unfoldable pub put_word : ℕ → Buffer → Option Buffer
  put_word v (live m) =
      if n.word_fits m then some (live (record m { words = m.words ++ v ∷ [] })) else none
  put_word v _ = some faulted

  -- mdio_nl_emit
  unfoldable pub emit_word : ℕ → Xfer W → ℕ × Xfer W
  unfolding put_word
  emit_word v x = elim (put_word v x.buffer) [
    | some b ↦ (0, record x { buffer = b })
    | none ↦
        let (err, x') = flush x in
        if not (err == 0) then (err, x') else elim (put_word v x'.buffer) [
          | some b ↦ (0, record x' { buffer = b })
          | none ↦ (emsgsize, x')
        ]
  ]

  -- `nlmsg_free(xfer->msg)` behind the label `err_free` of mdio_nl_close
  free_msg : Buffer → Buffer
  free_msg (live m) = dangling
  free_msg null = null
  free_msg _ = faulted

  -- A put that flushes once if there is no room, for MDIO_NLA_ERROR and NLMSG_DONE; the Boolean
  -- says whether the caller goes on.
  put_or_flush : (Message → Bool) → (Message → Message) → Message → Xfer W → Bool × ℕ × Xfer W
  put_or_flush fits put m x =
      if fits m
      then (true, 0, record x { buffer = live (put m) })
      else let (err, x') = flush x in
        if not (err == 0)
        then (false, err, record x' { buffer = free_msg x'.buffer })
        else elim x'.buffer [
          | live m' ↦
              if fits m'
              then (true, 0, record x' { buffer = live (put m') })
              else (false, emsgsize, record x' { buffer = free_msg (live m') })
          | _ ↦ (false, 0, record x' { buffer = faulted })
        ]

  close_send : Buffer → Xfer W → ℕ × Xfer W
  close_send (live m) x = send m x
  close_send _ x = (0, record x { buffer = faulted })

  close_done : Bool → Buffer → Xfer W → ℕ × Xfer W
  unfolding put_or_flush close_send
  close_done last (live m) x =
      let m' = record m { ended = true } in
      if not last
      then send m' x
      else let (go, err, x') = put_or_flush n.done_fits (λ q. record q { done = true }) m' x in
        if go then close_send x'.buffer x' else (err, x')
  close_done last _ x = (0, record x { buffer = faulted })

  -- mdio_nl_close
  unfoldable pub close_msg : Bool → ℕ → Xfer W → ℕ × Xfer W
  unfolding put_or_flush close_done free_msg
  close_msg last xerr x = elim x.buffer [
    | live m ↦
        if xerr == 0
        then close_done last (live m) x
        else (let (go, err, x') =
              put_or_flush n.error_fits (λ q. record q { error = some xerr }) m x in
            if go then close_done last x'.buffer x' else (err, x'))
    | _ ↦ (0, record x { buffer = faulted })
  ]

  -- The message writer that the interpreter is given.
  unfoldable pub emit_reply : ℕ → Xfer W → Reply (Xfer W)
  unfolding emit_word
  emit_reply v x = let (err, x') = emit_word v x in if err == 0 then got 0 x' else fail err x'
