-- ===== src/Tests/Kernel.antt =====
-- kernel/mdio-netlink.c: the theorems on the interpreter and on the messages, at concrete inputs.
use mdio_tools.Prelude.{
  ℕ, leb, ◌==◌, subst, ◌+◌, ltb, ◌≡◌, ◌≢◌, refl, arith, List, [], ◌∷◌, true, false, some, none, All,
  length,
}
use mdio_tools.Isa.{Prog, insn, imm, goto, op_jne, op_emit}
use mdio_tools.Kernel.Machine.{got, Machine, exited, crashed, advance, eval}
use mdio_tools.Kernel.Runs.{mach}
use mdio_tools.Kernel.Validate.{validate_prog, validate_insn, allowed, op_proto}
use mdio_tools.Kernel.Safety.{Fits, validate_prog-IsValidated, advance-ne-crashed}
use mdio_tools.Kernel.Termination.{validate_prog-eval}
use mdio_tools.Kernel.Message.{
  live, faulted, Netlink, Xfer, emit_word, close_msg, flush, close_plain, send,
}
use mdio_tools.Kernel.Message.Stream.{Healthy, Holds, emit_word-Holds}
use mdio_tools.Kernel.Message.Close.{close_msg-unended}
use mdio_tools.Kernel.Command.{Attributes, Kernel, System, Outcome, cmd_xfer}
use mdio_tools.Kernel.Command.Returns.{Ends, cmd_xfer-Ends}
use mathlib.Core.Option.{some-injective}
use mdio_tools.Kernel.Message.Ownership.{emit_fails-close_faults}
use mdio_tools.Tests.Bus.{test_host, timed_host}

-- A program that never ends by itself: an emission and a jump back to it.
abbrev spin : Prog
spin = insn op_emit (imm 7) 0 0 ∷ insn op_jne (imm 1) (imm 0) (goto 1 0) ∷ []

spin-Fits : All Fits spin
unfolding insn imm goto
spin-Fits = ground arith

spin_accepted : validate_prog 16 spin ≡ 0
unfolding validate_prog validate_insn insn allowed imm op_proto goto
spin_accepted = refl

advance-ne-crashed_example : advance timed_host spin (mach (λ _. 0) 1 0 0 []) ≢ crashed
advance-ne-crashed_example =
    advance-ne-crashed timed_host spin (validate_prog-IsValidated 16 spin spin-Fits spin_accepted)
      (mach (λ _. 0) 1 0 0 [])

validate_prog-eval_example :
    (ret : ℕ) × (m : Machine ℕ (List ℕ)) × (eval timed_host 6 spin (mach (λ _. 0) 0 0 0 [])
      ≡ some (exited ret m))
validate_prog-eval_example =
    validate_prog-eval timed_host 16 spin 5 (mach (λ _. 0) 0 0 0 []) spin-Fits spin_accepted refl

-- Netlink with room for three words in a message; its world counts the messages that were sent.
abbrev roomy : Netlink ℕ
roomy = record {
  alloc = λ w. (true, w);
  put_header = λ w. (true, w);
  nest_start = λ w. (true, w);
  word_fits = λ m. ltb (length m.words) 3;
  error_fits = λ m. true;
  done_fits = λ m. true;
  unicast = λ w. (0, w + 1);
}

roomy-Healthy : Healthy roomy
roomy-Healthy = record {
  allocs = λ w. refl;
  headers = λ w. refl;
  nests = λ w. refl;
  sends = λ w. refl;
  word_room = refl;
  error_room = refl;
  done_room = refl;
}

-- A transfer whose message is full.
abbrev full_xfer : Xfer ℕ
full_xfer = record {
  world = 0;
  buffer = live (record { words = 1 ∷ 2 ∷ 3 ∷ []; error = none; done = false; ended = false });
  sent = [];
}

full_xfer-Holds : Holds full_xfer (1 ∷ 2 ∷ 3 ∷ [])
full_xfer-Holds = record {
  message = record { words = 1 ∷ 2 ∷ 3 ∷ []; error = none; done = false; ended = false };
  is_live = refl;
  words_are = refl;
  no_error = refl;
  no_errors = refl;
}

emit_word-Holds_example :
    ((emit_word roomy 4 full_xfer).0 ≡ 0)
    × Holds (emit_word roomy 4 full_xfer).1 (1 ∷ 2 ∷ 3 ∷ 4 ∷ [])
emit_word-Holds_example =
    emit_word-Holds roomy roomy-Healthy 4 full_xfer (1 ∷ 2 ∷ 3 ∷ []) full_xfer-Holds

-- The same, but sending fails with the error 105.
abbrev congested : Netlink ℕ
congested = record roomy { unicast = λ w. (105, w) }

emit_fails-close_faults_example :
    (close_msg congested true
      (emit_word congested 4 full_xfer).0
      (emit_word congested 4 full_xfer).1).1.buffer
    ≡ faulted
unfolding flush close_plain send
emit_fails-close_faults_example =
    emit_fails-close_faults congested 4 full_xfer
      (record { words = 1 ∷ 2 ∷ 3 ∷ []; error = none; done = false; ended = false }) refl refl
      (λ e. cc)

-- Netlink whose messages have room for three items of words, error and end marker.
abbrev tight : Netlink ℕ
tight = record roomy { done_fits = λ m. ltb (length m.words) 3 }

tight-Healthy : Healthy tight
tight-Healthy = record {
  allocs = λ w. refl;
  headers = λ w. refl;
  nests = λ w. refl;
  sends = λ w. refl;
  word_room = refl;
  error_room = refl;
  done_room = refl;
}

close_msg-unended_example :
    (close_msg tight true 0 full_xfer).1.sent
    ≡ record { words = 1 ∷ 2 ∷ 3 ∷ []; error = none; done = false; ended = true }
      ∷ record { words = []; error = none; done = true; ended = false }
      ∷ []
close_msg-unended_example =
    close_msg-unended tight tight-Healthy full_xfer
      (record { words = 1 ∷ 2 ∷ 3 ∷ []; error = none; done = false; ended = false }) refl refl

-- A kernel with one bus, named 1, and the time up at the fifth look at the clock.
abbrev small_kernel : Kernel ℕ ℕ ℕ
small_kernel = record {
  find_bus = λ name. name == 1;
  accesses = record {
    is_c45 = test_host.is_c45;
    prtad = test_host.prtad;
    devad = test_host.devad;
    read = test_host.read;
    write = test_host.write;
    c45_read = test_host.c45_read;
    c45_write = test_host.c45_write;
    emit = λ v x. got 0 x;
    time_after = λ n. leb 5 n;
  };
  netlink = roomy;
  clock = λ t n. leb 5 n;
}

abbrev spin_request : Attributes ℕ
spin_request = record {
  bus_id = some 1;
  timeout = none;
  prog = some (16, spin);
  has_data = false;
  has_error = false;
}

abbrev idle : System ℕ ℕ
idle = record { refs = 3; bus = 0; world = 0; sent = [] }

abbrev spin_attribute : ℕ × Prog
spin_attribute = (16, spin)

spin_request_valid :
    (len : ℕ) (prog : Prog)
    → some spin_attribute ≡ some (len, prog)
    → All Fits prog × (validate_prog len prog ≡ 0)
spin_request_valid len prog e =
    subst (λ (q : ℕ × Prog). All Fits q.1 × (validate_prog q.0 q.1 ≡ 0))
      (some-injective spin_attribute (len, prog) e) (spin-Fits, spin_accepted)

cmd_xfer-Ends_example :
    (o : Outcome ℕ ℕ) × (cmd_xfer small_kernel 6 spin_request idle ≡ some o)
    × Ends small_kernel idle o
cmd_xfer-Ends_example =
    cmd_xfer-Ends small_kernel 5 spin_request idle spin_request_valid (λ t. refl)
