-- ===== src/Tests/Transport.antt =====
-- src/mdio/mdio.c: the theorems on arguments, requests and replies, at concrete inputs.
use mdio_tools.Prelude.{
  ℕ, zero, suc, ◌+◌, ◌≡◌, refl, arith, true, Option, List, [], ◌∷◌, some, none,
}
use mdio_tools.Isa.{Prog, insn, op_emit, reg}
use mdio_tools.Tool.Args.{Text, codes, ok, Libc}
use mdio_tools.Tool.Parse.{parse_range, device_parse_val}
use mdio_tools.Tool.Device.{Device}
use mdio_tools.Prelude.{false, if◌then◌else◌, ◌-◌, ◌*◌, ◌&&◌, leb}
use mdio_tools.Tool.Parse.Bounds.{InRange, parse_range-InRange, Within, device_parse_val-Within}
use mdio_tools.Tests.Bus.{test_libc}
use mdio_tools.Tool.Common.{raw_read_cb}
use mdio_tools.Tool.Transport.{
  cb_stop, incoming, Xfer, Reply, Socket, XferData, XferCb, returned, overrun, xfer_timeout,
  request_size,
}
use mdio_tools.Tool.Transport.Replies.{
  answer, Waiting, acknowledged, message, xfer_timeout-answer, xfer_timeout-overrun,
}

abbrev word : Reply
word = record { error = none; words = some (0x141 ∷ []) }

-- A socket that answers with one word and then acknowledges the request.
abbrev one_word : {S : Type 0} → Socket ℕ (Option Reply) Xfer Reply S
one_word = record {
  send_to = λ x w. (true, 0);
  recv_from = λ w. elim w [ zero ↦ (incoming (some word), 1) | suc n ↦ (incoming none, 2 + n) ];
  cb_run = λ f d s. elim d [ none ↦ (cb_stop, s) | some m ↦ f m s ];
  headers = 20;
  attr_size = λ n. n + 4;
}

abbrev read_cb : XferCb (List ℕ)
read_cb ws e got = (raw_read_cb ws e, ws)

abbrev small : Xfer
small = record { bus_id = codes "fixed-0"; prog = insn op_emit (reg 0) 0 0 ∷ []; timeout = 1000 }

one_word-Waiting : Waiting (one_word {S = XferData (List ℕ)}) 0 (word ∷ [])
one_word-Waiting = message (some word) refl (λ f s. refl) (acknowledged none refl (λ f s. refl))

xfer_timeout-answer_example :
    xfer_timeout one_word 2 read_cb small [] 7 ≡ some (returned 0 (0x141 ∷ []))
unfolding request_size answer raw_read_cb
xfer_timeout-answer_example =
    xfer_timeout-answer one_word 2 read_cb small [] 7 (omega arith) (omega arith) refl
      one_word-Waiting (omega arith)

-- An error that a message carries is the status, although its words are taken.
error_answer :
    answer read_cb (record { error = some 110; words = some (5 ∷ []) } ∷ []) 0 [] ≡ (110, 5 ∷ [])
unfolding answer raw_read_cb
error_answer = refl

abbrev repeat : ℕ → Prog
repeat zero = []
repeat (suc n) = insn op_emit (reg 0) 0 0 ∷ repeat n

abbrev large : Xfer
large = record { bus_id = codes "fixed-0"; prog = repeat 512; timeout = 1000 }

xfer_timeout-overrun_example : xfer_timeout one_word 2 read_cb large [] 7 ≡ some overrun
xfer_timeout-overrun_example =
    xfer_timeout-overrun one_word 2 read_cb large [] 7 (omega arith) (λ n. omega arith) refl

-- A C library that reads decimal digits.
abbrev decimal : ℕ → Text → ℕ × Text
decimal n [] = (n, [])
decimal n (a ∷ t) = if leb 48 a && leb a 57 then decimal (n * 10 + (a - 48)) t else (n, a ∷ t)

abbrev decimal_libc : Libc
decimal_libc = record test_libc { strtoull = λ s. ((decimal 0 s).0, (decimal 0 s).1, false) }

parse_range-InRange_example : InRange 31 true (record { start = 3; end = 5 })
unfolding parse_range
parse_range-InRange_example =
    parse_range-InRange decimal_libc 31 true (codes "3+2") (record { start = 3; end = 5 }) refl

abbrev plain_device : Device
plain_device = record {
  driver = record {
    read = λ p r. ok p;
    write = λ p r v. ok p;
    dump = none;
    parse_reg = none;
    parse_val = none;
  };
  max = 31;
  stride = 1;
  width = 16;
}

device_parse_val-Within_example : Within 65535 true ((4660, 255), [])
unfolding device_parse_val
device_parse_val-Within_example =
    device_parse_val-Within decimal_libc plain_device true (codes "4660/255" ∷ []) ((4660, 255), [])
      refl refl
