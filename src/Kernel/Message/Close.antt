-- ===== src/Kernel/Message/Close.antt =====
-- kernel/mdio-netlink.c: what closing a transfer adds to the reply.
use mdio_tools.Prelude.{
  ℕ, zero, suc, ◌==◌, if◌then◌else◌, true, false, ◌≡◌, inl, inr, refl, ◌∙◌, ap, arith, none, some,
  List, [], ◌∷◌, ◌++◌, append-nil, Bool-cases, ne→==,
}
use mdio_tools.Kernel.Message.{
  Message, live, is_faulted, Netlink, Xfer, empty_message, flush, put_or_flush, close_send,
  close_done, close_msg,
}
use mdio_tools.Kernel.Message.Stream.{
  Healthy, words_of, words_of-append, error_of, errors_of, errors_of-append, Holds, send_ok,
  flush_ok,
}

-- A finished reply: all its words, all its errors, and the end marker in the last message.
pub record Closed (sent : List Message) (ws es : List ℕ) : Type 0 where
  pub words_are : words_of sent ≡ ws
  pub errors_are : errors_of sent ≡ es
  pub before : List Message
  pub last : Message
  pub ends_with : sent ≡ before ++ last ∷ []
  pub is_done : last.done ≡ true

module _ {W : Type 0} (n : Netlink W) (ok : Healthy n) where
  done_fits :
      (m : Message) (x : Xfer W)
      → x.buffer ≡ live m
      → n.done_fits (record m { ended = true }) ≡ true
      → ((close_done n true (live m) x).0 ≡ 0)
        × ((close_done n true (live m) x).1.sent
            ≡ x.sent ++ record m { done = true; ended = true } ∷ [])
  unfolding close_done put_or_flush close_send
  done_fits m x e fits = ground (
    arith,
    send_ok n ok (record m { done = true; ended = true })
        (record x { buffer = live (record m { done = true; ended = true }) }),
  )

  abbrev after_flush : Xfer W → Xfer W
  after_flush x = record ((flush n x).1) { buffer = live (record empty_message { done = true }) }

  done_full :
      (m : Message) (x : Xfer W)
      → x.buffer ≡ live m
      → n.done_fits (record m { ended = true }) ≡ false
      → ((close_done n true (live m) x).0 ≡ 0)
        × ((close_done n true (live m) x).1.sent
            ≡ (x.sent ++ record m { ended = true } ∷ [])
              ++ record empty_message { done = true } ∷ [])
  unfolding close_done put_or_flush close_send
  done_full m x e full = ground (
    arith,
    flush_ok n ok m x e,
    ok.done_room,
    send_ok n ok (record empty_message { done = true }) (after_flush x),
  )

  one-Closed :
      (s : List Message) (m : Message)
      → m.done ≡ true
      → Closed (s ++ m ∷ []) (words_of s ++ m.words) (errors_of s ++ error_of m.error)
  one-Closed s m d = record {
    words_are = words_of-append s m;
    errors_are = errors_of-append s m;
    before = s;
    last = m;
    ends_with = refl;
    is_done = d;
  }

  two-Closed :
      (s : List Message) (m : Message)
      → Closed
          ((s ++ record m { ended = true } ∷ []) ++ record empty_message { done = true } ∷ [])
          (words_of s ++ m.words)
          (errors_of s ++ error_of m.error)
  two-Closed s m =
      let s' = s ++ record m { ended = true } ∷ [] in
      let last = record empty_message { done = true } in
      record {
        words_are =
            words_of-append s' last
            ∙ (append-nil (words_of s') ∙ words_of-append s (record m { ended = true }));
        errors_are =
            errors_of-append s' last
            ∙ (append-nil (errors_of s') ∙ errors_of-append s (record m { ended = true }));
        before = s';
        last = last;
        ends_with = refl;
        is_done = refl;
      }

  close_done-Closed :
      (m : Message) (x : Xfer W)
      → x.buffer ≡ live m
      → ((close_done n true (live m) x).0 ≡ 0)
        × Closed
            (close_done n true (live m) x).1.sent
            (words_of x.sent ++ m.words)
            (errors_of x.sent ++ error_of m.error)
  close_done-Closed m x e = elim (Bool-cases (n.done_fits (record m { ended = true }))) [
    | inl fits ↦
        let (r, s) = done_fits m x e fits in
        (r, rw s (one-Closed x.sent (record m { done = true; ended = true }) refl))
    | inr full ↦ let (r, s) = done_full m x e full in (r, rw s (two-Closed x.sent m))
  ]

  -- A message that is ready for the error, or has it.
  error_put :
      (xerr : ℕ) (m : Message) (x : Xfer W)
      → x.buffer ≡ live m
      → n.error_fits m ≡ true
      → (xerr == 0) ≡ false
      → close_msg n true xerr x
        ≡ close_done n true
            (live (record m { error = some xerr }))
            (record x { buffer = live (record m { error = some xerr }) })
  unfolding close_msg put_or_flush
  error_put xerr m x e fits nz = ground arith

  error_full :
      (xerr : ℕ) (m : Message) (x : Xfer W)
      → x.buffer ≡ live m
      → n.error_fits m ≡ false
      → (xerr == 0) ≡ false
      → close_msg n true xerr x
        ≡ close_done n true
            (live (record empty_message { error = some xerr }))
            (record ((flush n x).1) { buffer = live (record empty_message { error = some xerr }) })
  unfolding close_msg put_or_flush
  error_full xerr m x e full nz = ground (arith, flush_ok n ok m x e, ok.error_room)

  no_error :
      (m : Message) (x : Xfer W)
      → x.buffer ≡ live m
      → close_msg n true 0 x ≡ close_done n true (live m) x
  unfolding close_msg
  no_error m x e = ground arith

  -- With room for the end marker, success is reported in the current message.
  pub success_fits :
      (x : Xfer W) (m : Message)
      → x.buffer ≡ live m
      → n.done_fits (record m { ended = true }) ≡ true
      → ((close_msg n true 0 x).0 ≡ 0)
        × ((close_msg n true 0 x).1.sent ≡ x.sent ++ record m { done = true; ended = true } ∷ [])
  success_fits x m e fits = rw (no_error m x e) (done_fits m x e fits)

  close_error :
      (xerr : ℕ) (x : Xfer W) (ws : List ℕ)
      → (xerr == 0) ≡ false
      → Holds x ws
      → ((close_msg n true xerr x).0 ≡ 0) × Closed (close_msg n true xerr x).1.sent ws (xerr ∷ [])
  close_error xerr x ws nz h =
      let m = h.message in
      elim (Bool-cases (n.error_fits m)) [
        | inl fits ↦
            let m₁ = record m { error = some xerr } in
            let (r, c) = close_done-Closed m₁ (record x { buffer = live m₁ }) refl in
            rw (error_put xerr m x h.is_live fits nz) (r, rw (h.words_are, h.no_errors) at c)
        | inr full ↦
            let m₁ = record empty_message { error = some xerr } in
            let (_, _, s) = flush_ok n ok m x h.is_live in
            let x₁ = record ((flush n x).1) { buffer = live m₁ } in
            let (r, c) = close_done-Closed m₁ x₁ refl in
            let ew : words_of x₁.sent ++ [] ≡ ws =
              append-nil (words_of x₁.sent)
              ∙ (ap words_of s
                  ∙ (words_of-append x.sent (record m { ended = true }) ∙ h.words_are)) in
            let ee : errors_of x₁.sent ++ xerr ∷ [] ≡ xerr ∷ [] =
              ap (λ (l : List ℕ). l ++ xerr ∷ [])
                (ap errors_of s
                  ∙ (errors_of-append x.sent (record m { ended = true })
                      ∙ (ap (λ (l : List ℕ). l ++ error_of m.error) h.no_errors
                          ∙ ap error_of h.no_error))) in
            rw (error_full xerr m x h.is_live full nz) (r, rw (ew, ee) at c)
      ]

  close_done-owned :
      (m : Message) (x : Xfer W)
      → x.buffer ≡ live m
      → is_faulted (close_done n true (live m) x).1.buffer ≡ false
  unfolding close_done put_or_flush close_send
  close_done-owned m x e = ground (
    arith,
    flush_ok n ok m x e,
    ok.done_room,
    send_ok n ok (record m { done = true; ended = true })
        (record x { buffer = live (record m { done = true; ended = true }) }),
    send_ok n ok (record empty_message { done = true }) (after_flush x),
  )

  -- Closing a live buffer uses it only while it is there.
  pub close_msg-owned :
      (xerr : ℕ) (x : Xfer W) (m : Message)
      → x.buffer ≡ live m
      → is_faulted (close_msg n true xerr x).1.buffer ≡ false
  close_msg-owned zero x m e = rw (no_error m x e) (close_done-owned m x e)
  close_msg-owned (suc k) x m e =
      let nz : (suc k == 0) ≡ false = ne→== (suc k) 0 (omega arith) in
      elim (Bool-cases (n.error_fits m)) [
        | inl fits ↦
            let m₁ = record m { error = some (suc k) } in
            rw (error_put (suc k) m x e fits nz)
              (close_done-owned m₁ (record x { buffer = live m₁ }) refl)
        | inr full ↦
            let m₁ = record empty_message { error = some (suc k) } in
            rw (error_full (suc k) m x e full nz)
              (close_done-owned m₁ (record ((flush n x).1) { buffer = live m₁ }) refl)
      ]

  pub close_msg-Closed :
      (xerr : ℕ) (x : Xfer W) (ws : List ℕ)
      → Holds x ws
      → ((close_msg n true xerr x).0 ≡ 0)
        × Closed (close_msg n true xerr x).1.sent ws (if xerr == 0 then [] else xerr ∷ [])
  close_msg-Closed zero x ws h =
      let (r, c) = close_done-Closed h.message x h.is_live in
      let ee : errors_of x.sent ++ error_of h.message.error ≡ [] =
        ap (λ (l : List ℕ). l ++ error_of h.message.error) h.no_errors ∙ ap error_of h.no_error in
      rw (no_error h.message x h.is_live) (r, rw (h.words_are, ee) at c)
  close_msg-Closed (suc e) x ws h =
      let nz : (suc e == 0) ≡ false = ne→== (suc e) 0 (omega arith) in
      rw nz (close_error (suc e) x ws nz h)

  -- With memory, a network that takes every message, and room in an empty message for the end marker:
  -- if a transfer is closed without an error, and the end marker does not fit behind what the last
  -- message holds, then the message that is opened for it is sent without genlmsg_end, so that its
  -- length is not brought up to date.
  pub close_msg-unended :
      (x : Xfer W) (m : Message)
      → x.buffer ≡ live m
      → n.done_fits (record m { ended = true }) ≡ false
      → (close_msg n true 0 x).1.sent
        ≡ (x.sent ++ record m { ended = true } ∷ [])
          ++ record { words = []; error = none; done = true; ended = false } ∷ []
  close_msg-unended x m e full = rw (no_error m x e) (done_full m x e full).1
