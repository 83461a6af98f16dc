-- ===== src/Kernel/Message/Marks.antt =====
-- kernel/mdio-netlink.c: which messages of a reply have their length set and an end marker.
use mdio_tools.Prelude.{ℕ, true, false, ◌≡◌, inl, inr, refl, List, [], ◌∷◌, ◌++◌, All, Bool-cases}
use mdio_tools.Kernel.Message.{Message, live, Netlink, Xfer, empty_message, emit_word, close_msg}
use mdio_tools.Kernel.Message.Stream.{Healthy, emit_fits, emit_full}
use mdio_tools.Kernel.Message.Close.{success_fits}

-- A message in the middle of a reply: its length is set, and it has no end marker.
abbrev pub IsPlain : Message → Type 0
IsPlain m = (m.ended ≡ true) × (m.done ≡ false)

-- The messages sent so far are in the middle of the reply, and the current one has no end marker.
pub record Open {W : Type 0} (x : Xfer W) : Type 0 where
  pub message : Message
  pub is_live : x.buffer ≡ live message
  pub not_done : message.done ≡ false
  pub sent_plain : All IsPlain x.sent

-- A whole reply: messages in the middle, and one with its length set and the end marker.
pub record Ended (sent : List Message) : Type 0 where
  pub middle : List Message
  pub last : Message
  pub ends_with : sent ≡ middle ++ last ∷ []
  pub middle_plain : All IsPlain middle
  pub is_ended : last.ended ≡ true
  pub is_done : last.done ≡ true

All-add :
    (ms : List Message) (m : Message) → All IsPlain ms → IsPlain m → All IsPlain (ms ++ m ∷ [])
All-add [] m h p = (p, tt)
All-add (k ∷ ms) m (q, h) p = (q, All-add ms m h p)

module _ {W : Type 0} (n : Netlink W) (ok : Healthy n) where
  pub emit_word-Open : (v : ℕ) (x : Xfer W) → Open x → Open (emit_word n v x).1
  emit_word-Open v x o =
      let m = o.message in
      elim (Bool-cases (n.word_fits m)) [
        | inl fits ↦ rw (emit_fits n ok v x m o.is_live fits) (record {
          message = record m { words = m.words ++ v ∷ [] };
          is_live = refl;
          not_done = o.not_done;
          sent_plain = o.sent_plain;
        })
        | inr full ↦
            let (_, b, s) = emit_full n ok v x m o.is_live full in
            record {
              message = record empty_message { words = v ∷ [] };
              is_live = b;
              not_done = refl;
              sent_plain = rw s (All-add x.sent _ o.sent_plain (refl, o.not_done));
            }
      ]

  -- With room for the end marker in the current message, closing after a success ends the reply.
  pub close_msg-Ended :
      (x : Xfer W) (o : Open x)
      → n.done_fits (record o.message { ended = true }) ≡ true
      → Ended (close_msg n true 0 x).1.sent
  close_msg-Ended x o fits = record {
    middle = x.sent;
    last = record o.message { done = true; ended = true };
    ends_with = (success_fits n ok x o.message o.is_live fits).1;
    middle_plain = o.sent_plain;
    is_ended = refl;
    is_done = refl;
  }
