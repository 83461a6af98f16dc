-- ===== src/Switch/Devlink/Open.antt =====
-- src/mvls/devlink.c: the opening of the socket, devlink_open, with the number of the devlink family.
use mdio_tools.Prelude.{
  ℕ, ◌+◌, ◌-◌, if◌then◌else◌, Bool, not, Option, none, some, [], ◌≡◌, ◌≢◌, inl, inr, refl, arith,
  Bool-cases,
}
use mdio_tools.Switch.Devlink.{Ret, failed, stop, more, Link, Session, recv_run}
use mdio_tools.Switch.Devlink.Snapshot.{Answers, Ret-cases, recv_run-Ended}

-- get_family_id_cb, on the attribute CTRL_ATTR_FAMILY_ID as get_family_id_attr_cb lets it through, with
-- `*p_id`
unfoldable pub get_family_id_cb : Option ℕ → ℕ → Ret × ℕ
get_family_id_cb none family = (failed, family)
get_family_id_cb (some id) family = (more, id)

-- What devlink_open calls, over a world `W`: malloc, mnl_socket_open, mnl_socket_bind, and
-- mnl_socket_sendto with the request CTRL_CMD_GETFAMILY for devlink; then the replies to it.
pub record Opening (W D : Type 0) : Type 0 where
  pub malloc : W → Bool × W
  pub socket_open : W → Bool × W
  pub bind : W → Bool × W
  pub send_family : W → Bool × W
  pub link : Link W D (Option ℕ) ℕ

-- The buffers and sockets that are held, and the number of the family.
pub record Held (W : Type 0) : Type 0 where
  pub buffers : ℕ
  pub sockets : ℕ
  pub family : ℕ
  pub world : W

abbrev pub enomem : ℕ
enomem = 12

abbrev pub eio : ℕ
eio = 5

-- The negative result of libmnl's functions, by its absolute value
abbrev pub mnl_error : ℕ
mnl_error = 1

module _ {W D : Type 0} (o : Opening W D) where
  -- The labels err_free and err_close
  err_free : ℕ → Held W → ℕ × Held W
  err_free err s = (err, record s { buffers = s.buffers - 1 })

  err_close : ℕ → Held W → ℕ × Held W
  unfolding err_free
  err_close err s = err_free err (record s { sockets = s.sockets - 1 })

  -- `err = __recv_run(...)` and what follows
  after_run : Held W → Option (Ret × Session W ℕ) → Option (ℕ × Held W)
  unfolding err_close
  after_run s none = none
  after_run s (some (r, q)) =
      let s' = record s { world = q.world; family = q.state } in
      elim r [ failed ↦ some (err_close mnl_error s') | stop ↦ some (0, s') | more ↦ some (0, s') ]

  -- devlink_open, with fuel for the datagrams
  unfoldable pub devlink_open : ℕ → Held W → Option (ℕ × Held W)
  unfolding err_free err_close after_run
  devlink_open fuel s =
      let (allocated, w₁) = o.malloc s.world in
      if not allocated
      then some (enomem, record s { world = w₁ })
      else let s₁ : Held W = record s { world = w₁; buffers = s.buffers + 1 } in
        let (opened, w₂) = o.socket_open w₁ in
        if not opened
        then some (err_free eio (record s₁ { world = w₂ }))
        else let s₂ : Held W = record s₁ { world = w₂; sockets = s.sockets + 1 } in
          let (bound, w₃) = o.bind w₂ in
          if not bound
          then some (err_close mnl_error (record s₂ { world = w₃ }))
          else let (sent, w₄) = o.send_family w₃ in
            let s₄ : Held W = record s₂ { world = w₄ } in
            if not sent
            then some (err_close mnl_error s₄)
            else after_run s₄ (
                recv_run o.link fuel (some get_family_id_cb)
                  (record { world = w₄; log = []; state = s.family }))

  -- How the opening ends: with a socket and a buffer more, or with an error and all as before.
  pub data Ends (s : Held W) : ℕ → Held W → Type 0 where
    opens : {s' : Held W} → s'.buffers ≡ s.buffers + 1 → s'.sockets ≡ s.sockets + 1 → Ends s 0 s'
    fails :
        {err : ℕ} {s' : Held W}
        → err ≢ 0
        → s'.buffers ≡ s.buffers
        → s'.sockets ≡ s.sockets
        → Ends s err s'

  Returned : Held W → Option (ℕ × Held W) → Type 0
  Returned s r = (err : ℕ) × (s' : Held W) × (r ≡ some (err, s')) × Ends s err s'

  after_run-Returned :
      (s : Held W) (fuel : ℕ) (q : Session W ℕ)
      → Answers o.link fuel
      → Returned s (
          after_run
            (record s { buffers = s.buffers + 1; sockets = s.sockets + 1; world = q.world })
            (recv_run o.link fuel (some get_family_id_cb) q))
  unfolding Returned after_run err_close err_free
  after_run-Returned s fuel q ok =
      let done = recv_run-Ended o.link ok fuel (some get_family_id_cb) q (ok.bounded q.world) in
      elim (Ret-cases done.result) [
        | inl e ↦ (
          mnl_error,
          record s {
            buffers = s.buffers + 1 - 1;
            sockets = s.sockets + 1 - 1;
            world = done.after.world;
            family = done.after.state;
          },
          rw (done.returns, after_run, e),
          fails (λ z. omega (arith, z)) (omega arith) (omega arith),
        )
        | inr (inl e) ↦ (
          0,
          record s {
            buffers = s.buffers + 1;
            sockets = s.sockets + 1;
            world = done.after.world;
            family = done.after.state;
          },
          rw (done.returns, after_run, e),
          opens refl refl,
        )
        | inr (inr e) ↦ absurd (done.not_more e)
      ]

  -- If fewer datagrams wait than there is fuel, then devlink_open returns, whatever fails: with 0 and one
  -- more buffer and one more socket held, or with an error and as many of both as before.
  pub devlink_open-Ends :
      (fuel : ℕ) (s : Held W)
      → Answers o.link fuel
      → (err : ℕ) × (s' : Held W) × (devlink_open fuel s ≡ some (err, s')) × Ends s err s'
  unfolding devlink_open Returned
  devlink_open-Ends fuel s ok =
      let (allocated, w₁) = o.malloc s.world in
      let (opened, w₂) = o.socket_open w₁ in
      let (bound, w₃) = o.bind w₂ in
      let (sent, w₄) = o.send_family w₃ in
      elim (Bool-cases (not allocated)) [
        | inl e ↦ (enomem, record s { world = w₁ }, rw e, fails (λ z. omega (arith, z)) refl refl)
        | inr e₁ ↦ elim (Bool-cases (not opened)) [
          | inl e ↦ (
            eio,
            record s { buffers = s.buffers + 1 - 1; world = w₂ },
            rw (e₁, e),
            fails (λ z. omega (arith, z)) (omega arith) refl,
          )
          | inr e₂ ↦ elim (Bool-cases (not bound)) [
            | inl e ↦ (
              mnl_error,
              record s { buffers = s.buffers + 1 - 1; sockets = s.sockets + 1 - 1; world = w₃ },
              rw (e₁, e₂, e),
              fails (λ z. omega (arith, z)) (omega arith) (omega arith),
            )
            | inr e₃ ↦ elim (Bool-cases (not sent)) [
              | inl e ↦ (
                mnl_error,
                record s { buffers = s.buffers + 1 - 1; sockets = s.sockets + 1 - 1; world = w₄ },
                rw (e₁, e₂, e₃, e),
                fails (λ z. omega (arith, z)) (omega arith) (omega arith),
              )
              | inr e₄ ↦
                  let (err, s', r, h) =
                    after_run-Returned s fuel (record { world = w₄; log = []; state = s.family })
                      ok in
                  (err, s', rw (e₁, e₂, e₃, e₄) r, h)
            ]
          ]
        ]
      ]
