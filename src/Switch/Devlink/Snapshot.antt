-- ===== src/Switch/Devlink/Snapshot.antt =====
-- src/mvls/devlink.c: reading a region ends, and leaves no snapshot behind.
use mdio_tools.Prelude.{
  ℕ, zero, suc, ◌<◌, true, Option, none, some, List, [], ◌∷◌, ◌++◌, ◌≡◌, ◌≢◌, ◌⊎◌, inl, inr, refl,
  ap, ◌∙◌, arith,
}
use mdio_tools.Tool.Args.{Text}
use mdio_tools.Switch.Devlink.{
  Ret, failed, stop, more, new, read, del, Request, region, Received, recv_failed, recv_empty,
  datagram, Link, Session, recv_run, query, delete_after, read_after, port_region_get,
}

pub Received-cases :
    {D : Type 0} (r : Received D)
    → (r ≡ recv_failed) ⊎ (r ≡ recv_empty) ⊎ ((d : D) × (r ≡ datagram d))
Received-cases recv_failed = inl refl
Received-cases recv_empty = inr (inl refl)
Received-cases (datagram d) = inr (inr (d, refl))

pub Ret-cases : (r : Ret) → (r ≡ failed) ⊎ (r ≡ stop) ⊎ (r ≡ more)
Ret-cases failed = inl refl
Ret-cases stop = inr (inl refl)
Ret-cases more = inr (inr refl)

-- A socket over which every request is sent, and that has fewer datagrams waiting than there is fuel.
pub record Answers {W D M S : Type 0} (link : Link W D M S) (fuel : ℕ) : Type 0 where
  pub left : W → ℕ
  pub bounded : (w : W) → left w < fuel
  pub falls :
      (w : W) (d : D) → (link.recv_from w).0 ≡ datagram d → left (link.recv_from w).1 < left w
  pub sends : (req : Request) (w : W) → (link.send_to req w).0 ≡ true

module _ {W D M S : Type 0} (link : Link W D M S) where
  -- The loop over datagrams has come to an end with this result, and has sent nothing.
  pub record Ended (o : Option (Ret × Session W S)) (log : List Request) : Type 0 where
    pub result : Ret
    pub after : Session W S
    pub returns : o ≡ some (result, after)
    pub log_is : after.log ≡ log
    pub not_more : result ≢ more

  module _ {fuel₀ : ℕ} (ok : Answers link fuel₀) where
    pub recv_run-Ended :
        (fuel : ℕ) (cb : Option (M → S → Ret × S)) (s : Session W S)
        → ok.left s.world < fuel
        → Ended (recv_run link fuel cb s) s.log
    unfolding recv_run
    recv_run-Ended zero cb s lt = elim lt [ ]
    recv_run-Ended (suc fuel) cb s lt =
        let w = (link.recv_from s.world).1 in
        elim (Received-cases (link.recv_from s.world).0) [
          | inl e ↦ record {
            result = failed;
            after = record s { world = w };
            returns = rw (recv_run, e);
            log_is = refl;
            not_more = λ x. cc;
          }
          | inr (inl e) ↦ record {
            result = stop;
            after = record s { world = w };
            returns = rw (recv_run, e);
            log_is = refl;
            not_more = λ x. cc;
          }
          | inr (inr (d, e)) ↦
              let run = link.cb_run cb d s.state in
              let s' = record s { world = w; state = run.1 } in
              elim (Ret-cases run.0) [
                | inl r ↦ record {
                  result = failed;
                  after = s';
                  returns = rw (recv_run, e, r);
                  log_is = refl;
                  not_more = λ x. cc;
                }
                | inr (inl r) ↦ record {
                  result = stop;
                  after = s';
                  returns = rw (recv_run, e, r);
                  log_is = refl;
                  not_more = λ x. cc;
                }
                | inr (inr r) ↦
                    let rest = recv_run-Ended fuel cb s' (omega (arith, ok.falls s.world d e)) in
                    record {
                      result = rest.result;
                      after = rest.after;
                      returns = rw (recv_run, e, r) rest.returns;
                      log_is = rest.log_is;
                      not_more = rest.not_more;
                    }
              ]
        ]

    query-Ended :
        (req : Request) (cb : Option (M → S → Ret × S)) (s : Session W S)
        → Ended (query link fuel₀ req cb s) (s.log ++ req ∷ [])
    unfolding query
    query-Ended req cb s =
        let w = (link.send_to req s.world).1 in
        let done =
          recv_run-Ended fuel₀ cb (record s { world = w; log = s.log ++ req ∷ [] })
            (ok.bounded w) in
        record {
          result = done.result;
          after = done.after;
          returns = rw (query, ok.sends req s.world) done.returns;
          log_is = done.log_is;
          not_more = done.not_more;
        }

    -- How the reading of a region ends. The query for a snapshot has failed, and with it all, and nothing
    -- else was sent; or it has succeeded, the snapshot was read and deleted, and nothing else was sent,
    -- and the result is that of the query that reads.
    pub data RegionEnds (bus dev : Text) (port : Option ℕ) (name : Text) (cb : M → S → Ret × S)
        (s : Session W S) (r : Ret) (s' : Session W S) : Type 0 where
      not_made :
          {s₁ : Session W S}
          → query link fuel₀ (region new bus dev port name) none s ≡ some (failed, s₁)
          → r ≡ failed
          → s'.log ≡ s.log ++ region new bus dev port name ∷ []
          → RegionEnds bus dev port name cb s r s'
      made :
          {s₁ s₂ : Session W S}
          → query link fuel₀ (region new bus dev port name) none s ≡ some (stop, s₁)
          → query link fuel₀ (region read bus dev port name) (some cb) s₁ ≡ some (r, s₂)
          → s'.log
            ≡ ((s.log ++ region new bus dev port name ∷ []) ++ region read bus dev port name ∷ [])
              ++ region del bus dev port name ∷ []
          → RegionEnds bus dev port name cb s r s'

    -- If every request can be sent and fewer datagrams wait than there is fuel, then reading a region
    -- returns. If the query for a snapshot has failed, it has failed, and has sent nothing else. If that
    -- query has succeeded, it has sent the request that reads the snapshot and, whatever came of that,
    -- the one that deletes it, and nothing else, and its result is that of the query that reads.
    pub port_region_get-log :
        (bus dev : Text) (port : Option ℕ) (name : Text) (cb : M → S → Ret × S) (s : Session W S)
        → (r : Ret) × (s' : Session W S) × (port_region_get link fuel₀ bus dev port name cb s
            ≡ some (r, s'))
          × RegionEnds bus dev port name cb s r s'
    unfolding port_region_get read_after delete_after
    port_region_get-log bus dev port name cb s =
        let q = query-Ended (region new bus dev port name) none s in
        let r = query-Ended (region read bus dev port name) (some cb) q.after in
        let d = query-Ended (region del bus dev port name) (some cb) r.after in
        elim (Ret-cases q.result) [
          | inl e ↦ (failed, q.after, rw (q.returns, e), not_made (rw e at q.returns) refl q.log_is)
          | inr (inl e) ↦ (
            r.result,
            d.after,
            rw (q.returns, e, r.returns, delete_after, d.returns),
            made (rw e at q.returns) r.returns (
                d.log_is
                ∙ ap (λ (l : List Request). l ++ region del bus dev port name ∷ [])
                    (r.log_is
                      ∙ ap (λ (l : List Request). l ++ region read bus dev port name ∷ [])
                          q.log_is)),
          )
          | inr (inr e) ↦ absurd (q.not_more e)
        ]
