-- ===== src/Tool/Transport/Replies.antt =====
-- src/mdio/mdio.c: how the replies to a request reach the tool's callback, and the size of a request.
use mdio_tools.Prelude.{
  ℕ, zero, suc, Option, Bool-cases, none, ◌==◌, not, if◌then◌else◌, ap, ◌∙◌, ◌*◌, ◌<◌, ◌≤◌,
  not_lt→ltb, lt→ltb, true, some, List, [], ◌∷◌, ◌≡◌, ◌⊎◌, inl, inr, refl, sym, arith, length,
}
use mdio_tools.Tool.Transport.{
  CbResult, cb_error, cb_stop, cb_ok, incoming, Xfer, Reply, Socket, XferData, XferCb, xfer_cb,
  buf_size, insn_size, returned, overrun, status_of, msg_recv, request_size, xfer_timeout,
}

pub CbResult-cases : (r : CbResult) → (r ≡ cb_ok) ⊎ (r ≡ cb_error) ⊎ (r ≡ cb_stop)
CbResult-cases cb_ok = inl refl
CbResult-cases cb_error = inr (inl refl)
CbResult-cases cb_stop = inr (inr refl)

-- The callback on one message after the other, up to one that it refuses.
unfoldable pub deliver : {S : Type 0} → (Reply → S → CbResult × S) → List Reply → S → CbResult × S
deliver cb [] s = (cb_stop, s)
deliver cb (m ∷ ms) s =
    let (r, s') = cb m s in
    let rest = deliver cb ms s' in
    elim r [ cb_ok ↦ rest | cb_error ↦ (cb_error, s') | cb_stop ↦ (cb_stop, s') ]

module _ {W D S : Type 0} (sock : Socket W D Xfer Reply S) where
  -- The datagrams that wait are these messages, one in each, and then an acknowledgement; or the last
  -- message has an end marker behind it.
  pub data Waiting : W → List Reply → Type 0 where
    acknowledged :
        {w w' : W} (d : D)
        → sock.recv_from w ≡ (incoming d, w')
        → ((f : Reply → S → CbResult × S) (s : S) → sock.cb_run f d s ≡ (cb_stop, s))
        → Waiting w []
    message :
        {w w' : W} {m : Reply} {ms : List Reply} (d : D)
        → sock.recv_from w ≡ (incoming d, w')
        → ((f : Reply → S → CbResult × S) (s : S) → sock.cb_run f d s ≡ f m s)
        → Waiting w' ms
        → Waiting w (m ∷ ms)
    finished :
        {w w' : W} {m : Reply} (d : D)
        → sock.recv_from w ≡ (incoming d, w')
        → ((f : Reply → S → CbResult × S) (s : S) → sock.cb_run f d s ≡ deliver f (m ∷ []) s)
        → Waiting w (m ∷ [])

  msg_recv-deliver :
      (fuel : ℕ) (cb : Reply → S → CbResult × S) (s : S) {w : W} {ms : List Reply}
      → Waiting w ms
      → length ms < fuel
      → msg_recv sock fuel cb w s ≡ some (deliver cb ms s)
  unfolding msg_recv deliver
  msg_recv-deliver zero cb s h lt = elim lt [ ]
  msg_recv-deliver (suc fuel) cb s (acknowledged d e run) lt = rw (msg_recv, e, run cb s, run cb s)
  msg_recv-deliver (suc fuel) cb s (message {m = m} d e run more) lt =
      elim (CbResult-cases (cb m s).0) [
        | inl r ↦
            rw (msg_recv, deliver, e, run cb s, r, e, run cb s)
              (msg_recv-deliver fuel cb (cb m s).1 more (omega (arith, lt)))
        | inr (inl r) ↦ rw (msg_recv, deliver, e, run cb s, r, run cb s)
        | inr (inr r) ↦ rw (msg_recv, deliver, e, run cb s, r, run cb s)
      ]
  msg_recv-deliver (suc fuel) cb s (finished {m = m} d e run) lt =
      elim (CbResult-cases (cb m s).0) [
        | inl r ↦ rw (msg_recv, e, run cb s, deliver, r, run cb s, deliver, r)
        | inr (inl r) ↦ rw (msg_recv, e, run cb s, deliver, r, run cb s, deliver, r)
        | inr (inr r) ↦ rw (msg_recv, e, run cb s, deliver, r, run cb s, deliver, r)
      ]

-- The error that is known behind a message, and the status if the transfer stops there.
abbrev pub newest : Option ℕ → ℕ → ℕ
newest none e = e
newest (some k) e = k

abbrev pub refusal : ℕ → ℕ
refusal e = if e == 0 then 1 else e

-- What a reply amounts to: the status, and what the callback has left. Each message's words and the newest
-- error go to the callback; a message without words, or that the callback refuses, is the last one.
unfoldable pub answer : {A : Type 0} → XferCb A → List Reply → ℕ → A → ℕ × A
answer cb [] e a = (e, a)
answer cb (m ∷ ms) e a = elim m.words [
  | none ↦ (refusal (newest m.error e), a)
  | some ws ↦
      let (r, a') = cb ws (newest m.error e) a in
      let rest = answer cb ms (newest m.error e) a' in
      if r == 0 then rest else (refusal (newest m.error e), a')
]

-- The status and the callback's state that a result of the loop stands for.
abbrev read_off : {A : Type 0} → CbResult × XferData A → ℕ × A
read_off (r, s) = (status_of r s, s.arg)

status_stop : (e : ℕ) → (if not (e == 0) then e else 0) ≡ e
status_stop e = ground arith

status_error : (e : ℕ) → (if not (e == 0) then e else 1) ≡ refusal e
status_error e = ground arith

module _ {A : Type 0} (cb : XferCb A) where
  abbrev Answers : List Reply → ℕ → A → Type 0
  Answers ms e a =
      read_off (deliver (xfer_cb cb) ms (record { err = e; arg = a })) ≡ answer cb ms e a

  deliver_ok :
      (m : Reply) (ms : List Reply) (s s' : XferData A)
      → xfer_cb cb m s ≡ (cb_ok, s')
      → deliver (xfer_cb cb) (m ∷ ms) s ≡ deliver (xfer_cb cb) ms s'
  unfolding deliver
  deliver_ok m ms s s' h =
      let r = ap (λ (d : CbResult × XferData A). d.0) h in
      let t = ap (λ (d : CbResult × XferData A). d.1) h in rw (deliver, r, t)

  deliver_error :
      (m : Reply) (ms : List Reply) (s s' : XferData A)
      → xfer_cb cb m s ≡ (cb_error, s')
      → deliver (xfer_cb cb) (m ∷ ms) s ≡ (cb_error, s')
  unfolding deliver
  deliver_error m ms s s' h =
      let r = ap (λ (d : CbResult × XferData A). d.0) h in
      let t = ap (λ (d : CbResult × XferData A). d.1) h in rw (deliver, r, t)

  -- A message with words, behind which the error is `k`.
  words_answer :
      (o : Option ℕ) (ws : List ℕ) (ms : List Reply) (e k : ℕ) (a : A)
      → newest o e ≡ k
      → xfer_cb cb (record { error = o; words = some ws }) (record { err = e; arg = a }) ≡ (
        (if (cb ws k a).0 == 0 then cb_ok else cb_error),
        record { err = k; arg = (cb ws k a).1 },
      )
      → ((e : ℕ) (a : A) → Answers ms e a)
      → Answers (record { error = o; words = some ws } ∷ ms) e a
  unfolding answer
  words_answer o ws ms e k a n x rest =
      let m : Reply = record { error = o; words = some ws } in
      let s : XferData A = record { err = e; arg = a } in
      let s' : XferData A = record { err = k; arg = (cb ws k a).1 } in
      elim (Bool-cases ((cb ws k a).0 == 0)) [
        | inl g ↦
            let ok : xfer_cb cb m s ≡ (cb_ok, s') = rw g at x in
            let is : answer cb (m ∷ ms) e a ≡ answer cb ms k (cb ws k a).1 = rw (answer, n, g) in
            ap (λ (d : CbResult × XferData A). read_off d) (deliver_ok m ms s s' ok)
            ∙ (rest k (cb ws k a).1 ∙ sym is)
        | inr g ↦
            let bad : xfer_cb cb m s ≡ (cb_error, s') = rw g at x in
            let is : answer cb (m ∷ ms) e a ≡ (refusal k, (cb ws k a).1) = rw (answer, n, g) in
            ap (λ (d : CbResult × XferData A). read_off d) (deliver_error m ms s s' bad)
            ∙ (ap (λ (n : ℕ). (n, (cb ws k a).1)) (status_error k) ∙ sym is)
      ]

  message_answer :
      (o : Option ℕ) (w : Option (List ℕ)) (ms : List Reply) (e : ℕ) (a : A)
      → ((e : ℕ) (a : A) → Answers ms e a)
      → Answers (record { error = o; words = w } ∷ ms) e a
  unfolding deliver xfer_cb answer
  message_answer none none ms e a rest = ap (λ (k : ℕ). (k, a)) (status_error e)
  message_answer (some k) none ms e a rest = ap (λ (n : ℕ). (n, a)) (status_error k)
  message_answer none (some ws) ms e a rest = words_answer none ws ms e e a refl refl rest
  message_answer (some k) (some ws) ms e a rest = words_answer (some k) ws ms e k a refl refl rest

  deliver-answer : (ms : List Reply) (e : ℕ) (a : A) → Answers ms e a
  unfolding deliver answer
  deliver-answer [] e a = ap (λ (k : ℕ). (k, a)) (status_stop e)
  deliver-answer (m ∷ ms) e a = message_answer m.error m.words ms e a (deliver-answer ms)

module _ {W D A : Type 0} (sock : Socket W D Xfer Reply (XferData A)) where
  -- The loop over the replies is `deliver`.
  pub xfer_timeout-deliver :
      (fuel : ℕ) (cb : XferCb A) (x : Xfer) (arg : A) (w : W) {w' : W} {ms : List Reply}
      → request_size sock x ≤ buf_size
      → length x.prog * insn_size ≤ buf_size
      → sock.send_to x w ≡ (true, w')
      → Waiting sock w' ms
      → length ms < fuel
      → (let (r, s) = deliver (xfer_cb cb) ms (record { err = 0; arg = arg }) in
          xfer_timeout sock fuel cb x arg w ≡ some (returned (status_of r s) s.arg))
  unfolding xfer_timeout
  xfer_timeout-deliver fuel cb x arg w fits small sent waits lt = rw (
    xfer_timeout,
    not_lt→ltb buf_size (length x.prog * insn_size) small,
    not_lt→ltb buf_size (request_size sock x) fits,
    sent,
    msg_recv-deliver sock fuel (xfer_cb cb) (record { err = 0; arg = arg }) waits lt,
  )

  -- If the request fits into the buffer and is sent, the messages that then wait end in an
  -- acknowledgement or with an end marker, and there is more fuel than messages, then mdio_xfer_timeout
  -- returns. The callback has been given the words of each message, in order, with the newest error that
  -- a message carried so far, up to the first message that it refuses or that has no words. The status is
  -- the newest error, or, if that is 0, 1 where a message was refused and 0 else.
  pub xfer_timeout-answer :
      (fuel : ℕ) (cb : XferCb A) (x : Xfer) (arg : A) (w : W) {w' : W} {ms : List Reply}
      → request_size sock x ≤ buf_size
      → length x.prog * insn_size ≤ buf_size
      → sock.send_to x w ≡ (true, w')
      → Waiting sock w' ms
      → length ms < fuel
      → (let (status, a) = answer cb ms 0 arg in
          xfer_timeout sock fuel cb x arg w ≡ some (returned status a))
  xfer_timeout-answer fuel cb x arg w {ms = ms} fits small sent waits lt =
      xfer_timeout-deliver fuel cb x arg w fits small sent waits lt
      ∙ ap (λ (r : ℕ × A). some (returned r.0 r.1)) (deliver-answer cb ms 0 arg)

  -- If headers take any bytes and an attribute takes at least its payload, then a program of 512
  -- instructions, which passes the test of its size, makes mdio_xfer_timeout write outside of its
  -- buffer.
  pub xfer_timeout-overrun :
      (fuel : ℕ) (cb : XferCb A) (x : Xfer) (arg : A) (w : W)
      → 0 < sock.headers
      → ((n : ℕ) → n ≤ sock.attr_size n)
      → length x.prog ≡ 512
      → xfer_timeout sock fuel cb x arg w ≡ some overrun
  unfolding xfer_timeout request_size
  xfer_timeout-overrun fuel cb x arg w headers attrs size =
      let small = not_lt→ltb buf_size (length x.prog * insn_size) (omega (arith, size)) in
      let big =
        lt→ltb buf_size (request_size sock x)
          (omega (arith, headers, attrs (length x.prog * insn_size), attrs 2, size)) in
      rw (xfer_timeout, small, big)
