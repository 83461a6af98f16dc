-- ===== src/Switch/Devlink.antt =====
-- src/mvls/devlink.c: requests, replies, and the reading of a region through a snapshot.
pub mod Snapshot
pub mod Open
use mdio_tools.Prelude.{
  ℕ, zero, suc, ◌+◌, ◌==◌, if◌then◌else◌, Bool, true, false, not, Option, none, some, List, [], ◌∷◌,
  ◌++◌, ◌≡◌, ◌⊎◌, inl, inr, refl, arith, append_assoc,
}
use mdio_tools.Tool.Args.{Text}

-- MNL_CB_ERROR or a negative error, MNL_CB_STOP or 0, and MNL_CB_OK
pub data Ret : Type 0 where
  failed stop more : Ret

-- The requests that the tool sends: for devices, for ports, and for a region of a device or of a port.
pub data RegionCmd : Type 0 where
  new read del : RegionCmd

pub data Request : Type 0 where
  info_get port_get : Request
  region : RegionCmd → Text → Text → Option ℕ → Text → Request

-- __cb_error and __cb_stop: what is kept in `errno`, and the result. An error is given by its absolute
-- value, the length in NLMSG_DONE by its sign and absolute value.
unfoldable pub cb_error : ℕ → ℕ × Ret
cb_error e = (e, if e == 0 then stop else failed)

unfoldable pub cb_stop : Bool → ℕ → ℕ → ℕ × Ret
cb_stop negative len errno = if negative then (len, failed) else (errno, stop)

-- What mnl_socket_recvfrom gives.
pub data Received (D : Type 0) : Type 0 where
  recv_failed recv_empty : Received D
  datagram : D → Received D

-- The socket, over a world `W`, and mnl_cb_run2, which runs a callback on messages `M` with a state `S`
-- over the messages of a datagram `D` and handles control messages by the callbacks above.
pub record Link (W D M S : Type 0) : Type 0 where
  pub send_to : Request → W → Bool × W
  pub recv_from : W → Received D × W
  pub cb_run : Option (M → S → Ret × S) → D → S → Ret × S

-- The socket with the requests that were sent over it, and the callback's state.
pub record Session (W S : Type 0) : Type 0 where
  pub world : W
  pub log : List Request
  pub state : S

module _ {W D M S : Type 0} (link : Link W D M S) where
  -- __recv_run, on fuel: `none` means that more datagrams came than there was fuel.
  unfoldable pub recv_run : ℕ → Option (M → S → Ret × S) → Session W S → Option (Ret × Session W S)
  recv_run zero cb s = none
  recv_run (suc fuel) cb s =
      let (got, w) = link.recv_from s.world in
      elim got [
        | recv_failed ↦ some (failed, record s { world = w })
        | recv_empty ↦ some (stop, record s { world = w })
        | datagram d ↦
            let (r, st) = link.cb_run cb d s.state in
            let s' = record s { world = w; state = st } in
            elim r [
              | more ↦ recv_run fuel cb s'
              | stop ↦ some (stop, s')
              | failed ↦ some (failed, s')
            ]
      ]

  -- devlink_query
  unfoldable pub query :
      ℕ → Request → Option (M → S → Ret × S) → Session W S → Option (Ret × Session W S)
  unfolding recv_run
  query fuel req cb s =
      let (sent, w) = link.send_to req s.world in
      if not sent
      then some (failed, record s { world = w })
      else recv_run fuel cb (record s { world = w; log = s.log ++ req ∷ [] })

  -- The end of devlink_port_region_get: the snapshot is deleted whatever the read has given.
  unfoldable pub delete_after :
      ℕ → Request → (M → S → Ret × S) → Option (Ret × Session W S) → Option (Ret × Session W S)
  delete_after fuel req cb none = none
  delete_after fuel req cb (some (err, s)) = elim (query fuel req (some cb) s) [
    | none ↦ none
    | some (_, s') ↦ some (err, s')
  ]

  unfoldable pub read_after :
      ℕ
      → (RegionCmd → Request)
      → (M → S → Ret × S)
      → Option (Ret × Session W S)
      → Option (Ret × Session W S)
  unfolding delete_after
  read_after fuel req cb none = none
  read_after fuel req cb (some (stop, s)) =
      delete_after fuel (req del) cb (query fuel (req read) (some cb) s)
  read_after fuel req cb (some (failed, s)) = some (failed, s)
  read_after fuel req cb (some (more, s)) = some (more, s)

  -- devlink_port_region_get; devlink_region_get gives no port.
  unfoldable pub port_region_get :
      ℕ
      → Text
      → Text
      → Option ℕ
      → Text
      → (M → S → Ret × S)
      → Session W S
      → Option (Ret × Session W S)
  unfolding read_after
  port_region_get fuel bus dev port name cb s =
      let req = λ (c : RegionCmd). region c bus dev port name in
      read_after fuel req cb (query fuel (req new) none s)

  abbrev pub region_get :
      ℕ → Text → Text → Text → (M → S → Ret × S) → Session W S → Option (Ret × Session W S)
  region_get fuel bus dev name cb s = port_region_get fuel bus dev none name cb s
