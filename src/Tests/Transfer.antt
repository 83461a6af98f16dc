-- ===== src/Tests/Transfer.antt =====
-- src/mdio/mdio.c with kernel/mdio-netlink.c: the theorems on whole transfers, on the bus of the
-- tests, behind a socket that hands requests and messages over as they are.
use mdio_tools.Prelude.{
  ℕ, ◌+◌, ◌*◌, ◌/◌, ◌%◌, ◌<◌, true, if◌then◌else◌, ltb, lt→ltb, ne→==, ◌≡◌, refl, ap, arith, some,
  none, Option, List, [], ◌∷◌, length, false, Bool,
}
use mdio_tools.Isa.{Prog, insn, imm, op_emit}
use mdio_tools.Tool.Args.{Text, codes, ok}
use mdio_tools.Tool.Common.{Request, raw_prog, raw_read_cb}
use mdio_tools.Tool.Paged.{pphy_driver}
use mdio_tools.Tool.Transport.{
  Reply, Incoming, in_nothing, incoming, Xfer, Socket, XferData, request_size, returned,
  xfer_timeout,
}
use mdio_tools.Tool.Access.{fetch, store}
use mdio_tools.Tool.Access.Paged.{PagedBus}
use mdio_tools.Tool.Access.Raw.{Completes}
use mdio_tools.Kernel.Machine.{
  got, eval, advance, step, dispatch, step_emit, arg_ri, bus_read, bus_write,
}
use mdio_tools.Kernel.Message
use mdio_tools.Kernel.Message.{
  Message, Netlink, live, emit_reply, emit_word, put_word, flush, close_plain, send, open_msg,
}
use mdio_tools.Kernel.Message.Marks.{Open}
use mdio_tools.Kernel.Message.Stream.{Healthy, Holds}
use mdio_tools.Kernel.Command
use mdio_tools.Kernel.Command.{Kernel, System, host_for, cmd_xfer}
use mdio_tools.Transfer.{Linked, attributes_of, reply_of, at_end, recorded}
use mdio_tools.Transfer.Raw.{Ready, xfer_of, raw_read-delivered, pphy_raw_read-delivered}
use mdio_tools.Transfer.Words.{gather, words-delivered}
use mdio_tools.Transfer.Delivery.{opened}
use mdio_tools.Kernel.Validate.{validate_prog, validate_insn, allowed, op_proto}
use mdio_tools.Kernel.Validate.Accepted.{read-IsAccepted}
use mdio_tools.Kernel.Runs.{mach}
use mdio_tools.Tool.Phy.{phy_driver}
use mdio_tools.Tool.Access.Direct.{phy_reads, phy_access}
use mdio_tools.Tests.Bus.{test_libc, test_phy, test_host, cell_value, page_select}

-- Netlink with room for three items in a message; its world counts the messages that were sent.
abbrev wire_netlink : Netlink ℕ
wire_netlink = record {
  alloc = λ w. (true, w);
  put_header = λ w. (true, w);
  nest_start = λ w. (true, w);
  word_fits = λ m. ltb (length m.words) 2;
  error_fits = λ m. true;
  done_fits = λ m. ltb (length m.words) 2;
  unicast = λ w. (0, w + 1);
}

wire_netlink-Healthy : Healthy wire_netlink
wire_netlink-Healthy = record {
  allocs = λ w. refl;
  headers = λ w. refl;
  nests = λ w. refl;
  sends = λ w. refl;
  word_room = refl;
  error_room = refl;
  done_room = refl;
}

abbrev wire_kernel : Kernel Text ℕ ℕ
wire_kernel = record {
  find_bus = λ name. true;
  accesses = record {
    is_c45 = test_host.is_c45;
    prtad = test_host.prtad;
    devad = test_host.devad;
    read = test_host.read;
    write = test_host.write;
    c45_read = test_host.c45_read;
    c45_write = test_host.c45_write;
    emit = λ v x. got 0 x;
    time_after = λ _. false;
  };
  netlink = wire_netlink;
  clock = λ t n. false;
}

-- What the kernel leaves, and the messages that wait in the socket.
abbrev Wire : Type 0
Wire = System ℕ ℕ × List Message

abbrev handed : Wire → Option (Command.Outcome ℕ ℕ) → Bool × Wire
handed w none = (false, w)
handed w (some Command.bug) = (false, w)
handed w (some Command.fault) = (false, w)
handed w (some (Command.returned err s)) = (true, (s, s.sent))

abbrev taken : Wire → List Message → Incoming Message × Wire
taken w [] = (in_nothing, w)
taken w (m ∷ ms) = (incoming m, (w.0, ms))

abbrev wire : {S : Type 0} → ℕ → Socket Wire Message Xfer Reply S
wire n = record {
  send_to = λ x w. handed w (cmd_xfer wire_kernel n (attributes_of x) (record (w.0) { sent = [] }));
  recv_from = λ w. taken w w.1;
  cb_run = λ f m s. if m.done then at_end (f (reply_of m) s) else f (reply_of m) s;
  headers = 20;
  attr_size = λ n. n + 4;
}

wire-Linked : {S : Type 0} → Linked {S = S} wire_kernel wire
wire-Linked = record {
  bus_id_size = 61;
  system = λ w. w.0;
  queue = λ w. w.1;
  sends = λ x w fuel {s} named timely fits valid run. ((s, s.sent), rw run, refl, refl);
  receives = λ n w {m} {ms} q ended. (m, (w.0, ms), rw q, refl, λ f s. refl);
}

wire_kernel-PagedBus : PagedBus (host_for wire_kernel 1000) test_phy
unfolding fetch store bus_read bus_write
wire_kernel-PagedBus = record {
  page = λ b. b % 65536;
  cell = cell_value;
  select = page_select;
  page_fits = λ b. omega arith;
  fetch-page = λ b. refl;
  fetch-cell = λ b r ne lt. rw (ne→== r 22 ne);
  store-page = λ b p lt. refl;
  page-select = λ b p lt. omega arith;
  cell-select = λ b p lt.
      let e : page_select p b / 65536 ≡ b / 65536 = omega arith in
      ap {B = ℕ → ℕ → ℕ} (λ (k : ℕ) (page r : ℕ). k * 1000 + page * 100 + r) e;
  select-select = λ b p q lt. omega arith;
  select-page = λ b. omega arith;
}

abbrev bus_name : Text
bus_name = codes "fixed-0"

wire-Ready : {S : Type 0} → Ready {S = S} wire_kernel wire bus_name
unfolding request_size wire-Linked
wire-Ready = record {
  linked = wire-Linked;
  healthy = wire_netlink-Healthy;
  room = λ m lt. lt→ltb (length m.words) 2 lt;
  found = refl;
  named = omega arith;
  in_time = λ j. refl;
  fits = λ n prog lt. omega arith;
}

-- The device with page 7 selected.
abbrev start : Wire
start = (record { refs = 3; bus = 65543; world = 0; sent = [] }, [])

-- Register 4 of page 2, from the tool and back.
pphy_raw_read-delivered_example :
    (req : Request) × (raw_prog (pphy_driver test_libc 31 test_phy) (2 * 65536 + 4) none ≡ ok req)
    × (passes : ℕ) × (w' : Wire) × ((wire {S = XferData (List (List ℕ))} passes).send_to
          (xfer_of bus_name req)
          start
        ≡ (true, w'))
    × (w'.0.bus ≡ 65543)
    × ((fuel : ℕ)
        → 1 < fuel
        → xfer_timeout (wire passes) fuel (recorded raw_read_cb) (xfer_of bus_name req) [] start
          ≡ some (returned 0 ((1204 ∷ []) ∷ [])))
unfolding wire_kernel-PagedBus wire-Ready wire-Linked
pphy_raw_read-delivered_example =
    pphy_raw_read-delivered wire-Ready wire_kernel-PagedBus test_libc 31 (2 * 65536 + 4) start
      (λ e. omega (arith, e))

raw_read-delivered_example :
    (req : Request) × (raw_prog (phy_driver 1) 22 none ≡ ok req)
    × (passes : ℕ) × (w' : Wire) × ((wire {S = XferData (List (List ℕ))} passes).send_to
          (xfer_of bus_name req)
          start
        ≡ (true, w'))
    × (w'.0.bus ≡ 65543)
    × ((fuel : ℕ)
        → 1 < fuel
        → xfer_timeout (wire passes) fuel (recorded raw_read_cb) (xfer_of bus_name req) [] start
          ≡ some (returned 0 ((7 ∷ []) ∷ [])))
unfolding wire-Ready wire-Linked phy_reads phy_access fetch bus_read
raw_read-delivered_example =
    raw_read-delivered wire-Ready (phy_reads (host_for wire_kernel 1000) 1) 22 7 start 65543
      (omega arith) (read-IsAccepted 1 22 0, tt) refl

-- Three words, which take two messages.
abbrev three : Prog
three = insn op_emit (imm 7) 0 0 ∷ insn op_emit (imm 8) 0 0 ∷ insn op_emit (imm 9) 0 0 ∷ []

abbrev message_of : List ℕ → Bool → Message
message_of ws ended = record { words = ws; error = none; done = false; ended = ended }

abbrev three_emitted : Message.Xfer ℕ
three_emitted = record {
  world = 1;
  buffer = live (message_of (9 ∷ []) false);
  sent = message_of (7 ∷ 8 ∷ []) true ∷ [];
}

three-Completes :
    Completes
      (host_for wire_kernel 1000)
      three
      65543
      (opened wire_netlink start.0)
      65543
      three_emitted
unfolding eval advance step dispatch step_emit arg_ri insn imm emit_reply emit_word put_word flush
    close_plain send open_msg
three-Completes = record {
  fuel = 4;
  final = mach (λ _. 0) 3 3 65543 three_emitted;
  returns = refl;
  bus_is = refl;
  xfer_is = refl;
}

three-Open : Open three_emitted
three-Open = record {
  message = message_of (9 ∷ []) false;
  is_live = refl;
  not_done = refl;
  sent_plain = ((refl, refl), tt);
}

three-Holds : Holds three_emitted (7 ∷ 8 ∷ 9 ∷ [])
three-Holds = record {
  message = message_of (9 ∷ []) false;
  is_live = refl;
  words_are = refl;
  no_error = refl;
  no_errors = refl;
}

abbrev three_request : Xfer
three_request = record { bus_id = bus_name; prog = three; timeout = 1000 }

words-delivered_example :
    (passes : ℕ) × (messages : ℕ) × (w' : Wire) × ((wire {S = XferData (List ℕ)} passes).send_to
        three_request start
      ≡ (true, w'))
    × (w'.0.bus ≡ 65543)
    × ((fuel : ℕ)
        → messages < fuel
        → xfer_timeout (wire passes) fuel gather three_request [] start
          ≡ some (returned 0 (7 ∷ 8 ∷ 9 ∷ [])))
unfolding wire-Linked three-Open request_size validate_prog validate_insn insn imm allowed op_proto
words-delivered_example =
    words-delivered wire-Linked wire_netlink-Healthy three_request start (7 ∷ 8 ∷ 9 ∷ []) refl
      (λ n. omega arith) (omega arith) refl three-Completes three-Open refl three-Holds
      (omega arith) (omega arith)
