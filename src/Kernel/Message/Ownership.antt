-- ===== src/Kernel/Message/Ownership.antt =====
-- kernel/mdio-netlink.c: who owns the reply buffer after an error.
use mdio_tools.Prelude.{ℕ, Bool, true, false, ◌≡◌, ◌≢◌, ◌⊎◌, arith}
use mdio_tools.Kernel.Message.{
  Message, live, null, dangling, faulted, Netlink, Xfer, open_msg, close_plain, flush, emit_word,
  close_msg, send,
}

module _ {W : Type 0} (n : Netlink W) where
  -- A failed flush never leaves a live buffer.
  flush_fails :
      (x : Xfer W) (m : Message)
      → x.buffer ≡ live m
      → (flush n x).0 ≢ 0
      → ((flush n x).1.buffer ≡ null) ⊎ ((flush n x).1.buffer ≡ dangling)
  unfolding flush close_plain open_msg send
  flush_fails x m e f = ground arith

  close_dead :
      (last : Bool) (xerr : ℕ) (x : Xfer W)
      → (x.buffer ≡ null) ⊎ (x.buffer ≡ dangling)
      → (close_msg n last xerr x).1.buffer ≡ faulted
  unfolding close_msg
  close_dead last xerr x e = ground arith

  emit_fails :
      (v : ℕ) (x : Xfer W) (m : Message)
      → x.buffer ≡ live m
      → n.word_fits m ≡ false
      → (flush n x).0 ≢ 0
      → emit_word n v x ≡ flush n x
  unfolding emit_word
  emit_fails v x m e full f = ground arith

  -- If the message is full and flushing it fails, then the close that follows the program's error
  -- exit uses a buffer that was freed, was handed over or was never allocated.
  pub emit_fails-close_faults :
      (v : ℕ) (x : Xfer W) (m : Message)
      → x.buffer ≡ live m
      → n.word_fits m ≡ false
      → (flush n x).0 ≢ 0
      → (close_msg n true (emit_word n v x).0 (emit_word n v x).1).1.buffer ≡ faulted
  emit_fails-close_faults v x m e full f =
      rw (emit_fails v x m e full f)
        (close_dead true (flush n x).0 (flush n x).1 (flush_fails x m e f))
