-- ===== src/Tests/Discovery.antt =====
-- src/mvls/devlink.c and src/mvls/mvls.c: the theorems on queries and on the discovery, at concrete inputs.
use mdio_tools.Prelude.{ℕ, ◌<◌, ◌≡◌, refl, arith, Bool, true, false, List, [], ◌∷◌, some, none}
use mdio_tools.Tool.Args.{codes}
use mdio_tools.Switch.Devlink.{
  Ret, stop, more, recv_empty, datagram, Link, Session, port_region_get,
}
use mdio_tools.Switch.Devlink.Snapshot.{Answers, RegionEnds, port_region_get-log}

-- A socket on which one datagram answers each request.
abbrev answering : Link Bool ℕ ℕ (List ℕ)
answering = record {
  send_to = λ req w. (true, true);
  recv_from = λ w. (elim w [ true ↦ datagram 7 | false ↦ recv_empty ], false);
  cb_run = λ cb d s. elim cb [ none ↦ (stop, s) | some f ↦ f d s ];
}

abbrev left_of : Bool → ℕ
left_of true = 1
left_of false = 0

left_of-bound : (w : Bool) → left_of w < 2
left_of-bound true = omega arith
left_of-bound false = omega arith

left_of-falls :
    (w : Bool) (d : ℕ) → (answering.recv_from w).0 ≡ datagram d → left_of false < left_of w
left_of-falls true d e = omega arith
left_of-falls false d e = absurd (cc)

answering-Answers : Answers answering 2
answering-Answers = record {
  left = left_of;
  bounded = left_of-bound;
  falls = left_of-falls;
  sends = λ req w. refl;
}

abbrev keep : ℕ → List ℕ → Ret × List ℕ
keep m s = (more, m ∷ s)

port_region_get-log_example :
    (r : Ret) × (s' : Session Bool (List ℕ)) × (port_region_get answering 2
        (codes "mdio_bus")
        (codes "d0")
        none
        (codes "atu")
        keep
        (record { world = false; log = []; state = [] })
      ≡ some (r, s'))
    × RegionEnds answering answering-Answers
        (codes "mdio_bus")
        (codes "d0")
        none
        (codes "atu")
        keep
        (record { world = false; log = []; state = [] })
        r
        s'
port_region_get-log_example =
    port_region_get-log answering answering-Answers (codes "mdio_bus") (codes "d0") none
      (codes "atu") keep (record { world = false; log = []; state = [] })
