-- ===== src/Kernel/Message/Stream.antt =====
-- kernel/mdio-netlink.c: across all messages of a reply, the emitted words arrive once and in order.
use mdio_tools.Prelude.{
  ℕ, true, false, ◌≡◌, inl, inr, refl, sym, ◌∙◌, ap, arith, none, some, Option, List, [], ◌∷◌, ◌++◌,
  append_assoc, append-nil, Bool-cases,
}
use mdio_tools.Kernel.Message.{
  Message, live, dangling, Netlink, Xfer, empty_message, open_msg, close_plain, flush, emit_word,
  send,
}

-- Netlink that has memory, can send, and has room for one item in an empty message.
pub record Healthy {W : Type 0} (n : Netlink W) : Type 0 where
  pub allocs : (w : W) → (n.alloc w).0 ≡ true
  pub headers : (w : W) → (n.put_header w).0 ≡ true
  pub nests : (w : W) → (n.nest_start w).0 ≡ true
  pub sends : (w : W) → (n.unicast w).0 ≡ 0
  pub word_room : n.word_fits empty_message ≡ true
  pub error_room : n.error_fits empty_message ≡ true
  pub done_room : n.done_fits empty_message ≡ true

-- The words of a sequence of messages.
abbrev pub words_of : List Message → List ℕ
words_of [] = []
words_of (m ∷ ms) = m.words ++ words_of ms

pub words_of-append :
    (ms : List Message) (m : Message) → words_of (ms ++ m ∷ []) ≡ words_of ms ++ m.words
words_of-append [] m = append-nil m.words
words_of-append (k ∷ ms) m =
    rw (words_of-append ms m) (sym (append_assoc k.words (words_of ms) m.words))

-- The errors in a sequence of messages.
abbrev pub error_of : Option ℕ → List ℕ
error_of none = []
error_of (some e) = e ∷ []

abbrev pub errors_of : List Message → List ℕ
errors_of [] = []
errors_of (m ∷ ms) = error_of m.error ++ errors_of ms

pub errors_of-append :
    (ms : List Message) (m : Message) → errors_of (ms ++ m ∷ []) ≡ errors_of ms ++ error_of m.error
errors_of-append [] m = append-nil (error_of m.error)
errors_of-append (k ∷ ms) m =
    rw (errors_of-append ms m)
      (sym (append_assoc (error_of k.error) (errors_of ms) (error_of m.error)))

-- The transfer has a live buffer, and what was sent and what waits in it are the words `ws`; there is no
-- error yet.
pub record Holds {W : Type 0} (x : Xfer W) (ws : List ℕ) : Type 0 where
  pub message : Message
  pub is_live : x.buffer ≡ live message
  pub words_are : words_of x.sent ++ message.words ≡ ws
  pub no_error : message.error ≡ none
  pub no_errors : errors_of x.sent ≡ []

module _ {W : Type 0} (n : Netlink W) (ok : Healthy n) where
  pub open_ok :
      (x : Xfer W)
      → ((open_msg n x).0 ≡ 0)
        × ((open_msg n x).1.buffer ≡ live empty_message)
        × ((open_msg n x).1.sent ≡ x.sent)
  unfolding open_msg
  open_ok x = ground (
    arith,
    ok.allocs x.world,
    ok.headers (n.alloc x.world).1,
    ok.nests (n.put_header (n.alloc x.world).1).1,
  )

  pub send_ok :
      (m : Message) (x : Xfer W)
      → ((send n m x).0 ≡ 0)
        × ((send n m x).1.buffer ≡ dangling)
        × ((send n m x).1.sent ≡ x.sent ++ m ∷ [])
  unfolding send
  send_ok m x = ground (arith, ok.sends x.world)

  pub flush_ok :
      (m : Message) (x : Xfer W)
      → x.buffer ≡ live m
      → ((flush n x).0 ≡ 0)
        × ((flush n x).1.buffer ≡ live empty_message)
        × ((flush n x).1.sent ≡ x.sent ++ record m { ended = true } ∷ [])
  unfolding flush close_plain
  flush_ok m x e = ground (
    arith,
    send_ok (record m { ended = true }) x,
    open_ok (send n (record m { ended = true }) x).1,
  )

  pub emit_fits :
      (v : ℕ) (x : Xfer W) (m : Message)
      → x.buffer ≡ live m
      → n.word_fits m ≡ true
      → emit_word n v x ≡ (0, record x { buffer = live (record m { words = m.words ++ v ∷ [] }) })
  unfolding emit_word
  emit_fits v x m e fits = ground arith

  pub emit_full :
      (v : ℕ) (x : Xfer W) (m : Message)
      → x.buffer ≡ live m
      → n.word_fits m ≡ false
      → ((emit_word n v x).0 ≡ 0)
        × ((emit_word n v x).1.buffer ≡ live (record empty_message { words = v ∷ [] }))
        × ((emit_word n v x).1.sent ≡ x.sent ++ record m { ended = true } ∷ [])
  unfolding emit_word
  emit_full v x m e full = ground (arith, flush_ok m x e, ok.word_room)

  emit_fits-Holds :
      (v : ℕ) (x : Xfer W) (ws : List ℕ) (h : Holds x ws)
      → n.word_fits h.message ≡ true
      → ((emit_word n v x).0 ≡ 0) × Holds (emit_word n v x).1 (ws ++ v ∷ [])
  emit_fits-Holds v x ws h fits = rw (emit_fits v x h.message h.is_live fits) (
    refl,
    record {
      message = record h.message { words = h.message.words ++ v ∷ [] };
      is_live = refl;
      words_are =
          sym (append_assoc (words_of x.sent) h.message.words (v ∷ []))
          ∙ ap (λ us. us ++ v ∷ []) h.words_are;
      no_error = h.no_error;
      no_errors = h.no_errors;
    },
  )

  -- With memory, a network that takes every message and room for a word in an empty message, an
  -- emission succeeds, and the word is added behind all the words that were sent or wait so far,
  -- whether or not the current message was full and was sent for it.
  pub emit_word-Holds :
      (v : ℕ) (x : Xfer W) (ws : List ℕ)
      → Holds x ws
      → ((emit_word n v x).0 ≡ 0) × Holds (emit_word n v x).1 (ws ++ v ∷ [])
  emit_word-Holds v x ws h = elim (Bool-cases (n.word_fits h.message)) [
    | inl fits ↦ emit_fits-Holds v x ws h fits
    | inr full ↦
        let (r, b, s) = emit_full v x h.message h.is_live full in
        (
          r,
          record {
            message = record empty_message { words = v ∷ [] };
            is_live = b;
            words_are =
                ap (λ ms. words_of ms ++ v ∷ []) s
                ∙ ap (λ us. us ++ v ∷ [])
                    (words_of-append x.sent (record h.message { ended = true }) ∙ h.words_are);
            no_error = refl;
            no_errors =
                ap errors_of s
                ∙ (errors_of-append x.sent (record h.message { ended = true })
                    ∙ (ap (λ (l : List ℕ). l ++ error_of h.message.error) h.no_errors
                        ∙ ap error_of h.no_error));
          },
        )
  ]
