-- ===== src/Tests/Open.antt =====
-- src/mvls/devlink.c: the theorem on the opening of the socket, on a socket that answers.
use mdio_tools.Prelude.{ℕ, ◌<◌, Bool, true, false, some, none, ◌≡◌, refl, arith, Option}
use mdio_tools.Switch.Devlink.{stop, Link, recv_empty, datagram}
use mdio_tools.Switch.Devlink.Snapshot.{Answers}
use mdio_tools.Switch.Devlink.Open.{Opening, Held, devlink_open, Ends, devlink_open-Ends}

-- Whether the reply with the family's number still waits.
abbrev family_link : Link Bool ℕ (Option ℕ) ℕ
family_link = record {
  send_to = λ req w. (true, w);
  recv_from = λ w. (elim w [ true ↦ datagram 22 | false ↦ recv_empty ], false);
  cb_run = λ cb d s. elim cb [ none ↦ (stop, s) | some f ↦ f (some d) s ];
}

abbrev left_of : Bool → ℕ
left_of true = 1
left_of false = 0

left_bound : (w : Bool) → left_of w < 2
left_bound true = omega arith
left_bound false = omega arith

left_falls :
    (w : Bool) (d : ℕ) → (family_link.recv_from w).0 ≡ datagram d → left_of false < left_of w
left_falls true d e = omega arith
left_falls false d e = absurd (cc)

family_link-Answers : Answers family_link 2
family_link-Answers = record {
  left = left_of;
  bounded = left_bound;
  falls = left_falls;
  sends = λ req w. refl;
}

abbrev opening : Opening Bool ℕ
opening = record {
  malloc = λ w. (true, w);
  socket_open = λ w. (true, w);
  bind = λ w. (true, w);
  send_family = λ w. (true, true);
  link = family_link;
}

abbrev nothing_held : Held Bool
nothing_held = record { buffers = 0; sockets = 0; family = 0; world = false }

devlink_open-Ends_example :
    (err : ℕ) × (s' : Held Bool) × (devlink_open opening 2 nothing_held ≡ some (err, s'))
    × Ends opening nothing_held err s'
devlink_open-Ends_example = devlink_open-Ends opening 2 nothing_held family_link-Answers
