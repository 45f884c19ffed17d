-- ===== src/MsgDistributor/Refinement/Calls.antt =====
-- Each call of the clients is a step of the channels, or waits without one.
use painting_cps.Prelude.{
  ◌⊎◌, take, leb, ℕ, zero, suc, ◌+◌, ◌^◌, ◌≤◌, ◌<◌, ◌≡◌, refl, subst, inl, inr, ℤ, pos, minus_one,
  is_neg, int_eq, int_max, Bool, true, false, List, [], ◌∷◌, some, arith, length, get_elem?,
  Option-cases, Bool-cases, if◌then◌else◌,
}
use painting_cps.Prelude.Assoc.{find}
use painting_cps.Exec.{ok}
use painting_cps.CText.{Bytes}
use painting_cps.MsgDistributor.State.{Host, MsgDistributor}
use painting_cps.MsgDistributor.Frames.{accepted_text, close_text}
use painting_cps.MsgDistributor.Methods.{unopened}
use painting_cps.MsgDistributor.Handshake.{frame}
use painting_cps.MsgDistributor.Effects.{
  close-unknown, close-active, connect_response_lem, connect_response-waits, recv_response-waits,
  recv_response-message, recv_response-beyond,
}
use painting_cps.MsgDistributor.Invariant.{Inv}
use painting_cps.MsgDistributor.Invariant.Tables.{Maps-requeue, Maps-close, Maps-register}
use painting_cps.MsgDistributor.Channels.{connects, accepts, receives, closes, Step, Blocked}
use painting_cps.MsgDistributor.Refinement.{
  perform, view, Simulates, channels-insert, channels-erase,
}
use painting_cps.MsgDistributor.Connections.{next_id}
use painting_cps.MsgDistributor.Transfer.{recv, recv_request, recv_response}
use painting_cps.MsgDistributor.Frames.Laws.{command_frame_lem}
use painting_cps.MsgDistributor.Handshake.{numbered_fits}
use painting_cps.MsgDistributor.Ids.{
  IsNextId, next_id-found, accept_response_lem, accept_response-waits, accept_response-fails,
}
use painting_cps.CText.{codes, print_int, print_nat}

module _ (sender host : Host) {d : MsgDistributor} (v : Inv d) (opened : unopened d ≡ false) where
  pub connects-refines : Simulates (view d) connects (perform sender host connects d)
  connects-refines = connecting d.connect_sem d.connect_queue refl refl
    where
      connecting :
          (n : ℕ) (q : List ℤ)
          → d.connect_sem ≡ n
          → d.connect_queue ≡ q
          → Simulates (view d) connects (perform sender host connects d)
      connecting zero [] e f = rw (connect_response-waits host d e) (v, refl, Blocked.no_answer f)
      connecting zero (id ∷ rest) e f = absurd (ground (arith, v.answered))
      connecting (suc n) [] e f = absurd (ground (arith, v.answered))
      connecting (suc n) (id ∷ rest) e f =
          rw (connect_response_lem host d id rest n v.map_free v.running e f) (
            record {
              maps = Maps-register v.maps id;
              answered = ground (arith, v.answered);
              map_free = refl;
              send_free = v.send_free;
              running = v.running;
            },
            opened,
            subst (Step (view d) connects (id, []))
                (channels-insert id [] d.queue_map rest d.accept_sem) (Step.takes_answer id rest f),
          )

  pub receives-refines :
      (id : ℤ) (size : ℕ)
      → Simulates (view d) (receives id size) (perform sender host (receives id size) d)
  unfolding recv recv_request
  receives-refines id size = elim (Option-cases (find id d.sem_map)) [
    | inl e ↦ rw (opened, e) (v, opened, Step.refuses_receive id size (v.maps.closed id e))
    | inr (p, e) ↦
        let (q, fq, fs, ft) = v.maps.opened id p e in rw (opened, e) (receiving p e q fq fs ft)
  ]
    where
      receiving :
          (p : ℕ)
          → find id d.sem_map ≡ some p
          → (q : List Bytes) → find id d.queue_map ≡ some q
          → get_elem? d.sems p ≡ some (length q)
          → find id d.status_map ≡ some 1
          → Simulates (view d) (receives id size) (recv_response host id size p d)
      receiving p e [] fq fs ft =
          rw (recv_response-waits host d id size p fs) (v, refl, Blocked.no_content id size fq)
      receiving p e (content ∷ rest) fq fs ft = elim (Bool-cases (leb size (length content))) [
        | inl room ↦
            rw
              (recv_response-message host d id size p (length rest) content rest fs ft v.running fq
                room)
              (
                record {
                  maps = Maps-requeue v.maps id p rest e;
                  answered = v.answered;
                  map_free = v.map_free;
                  send_free = v.send_free;
                  running = v.running;
                },
                opened,
                subst (λ c. Step (view d) (receives id size) (pos 1, take size content) c)
                    (channels-insert id rest d.queue_map d.connect_queue d.accept_sem)
                    (Step.takes_content id size content rest fq (ground (arith, room))),
              )
        | inr beyond ↦
            rw
              (recv_response-beyond host d id size p (length rest) content rest fs ft v.running fq
                beyond)
              (refl, (content, rest, fq, ground (arith, beyond)))
      ]

  pub closes-refines :
      (id : ℕ) → id < 2 ^ 31 → Simulates (view d) (closes id) (perform sender host (closes id) d)
  unfolding print_int print_nat
  closes-refines id small = elim (Option-cases (find (pos id) d.sem_map)) [
    | inl e ↦
        rw (close-unknown host d (pos id) false opened e)
          (v, opened, Step.refuses_close id (v.maps.closed (pos id) e))
    | inr (p, e) ↦
        let (q, fq, fs, ft) = v.maps.opened (pos id) p e in
        let text = close_text (pos id) in
        let content = frame host text in
        let r = if is_neg (host.mfsend d.sent d.dst_guid content) then minus_one else pos 0 in
        rw
          (close-active host d (pos id) p (length q) content opened v.map_free e fs
            (command_frame_lem host text (numbered_fits (codes "close") id (omega arith) small)).0)
          (
            record {
              maps = Maps-close v.maps (pos id) p (suc (length q)) e;
              answered = v.answered;
              map_free = refl;
              send_free = v.send_free;
              running = v.running;
            },
            opened,
            subst (λ c. Step (view d) (closes id) (r, []) c)
                (channels-erase (pos id) d.queue_map d.connect_queue d.accept_sem)
                (Step.closes_open id r q fq
                  (either (is_neg (host.mfsend d.sent d.dst_guid content)))),
          )
  ]
    where
      either :
          (b : Bool)
          → ((if b then minus_one else pos 0) ≡ pos 0)
            ⊎ ((if b then minus_one else pos 0) ≡ minus_one)
      either true = inr refl
      either false = inl refl

  pub accepts-refines :
      d.id_lock ≡ false
      → (last : ℕ) → d.mfsockid ≡ pos last
      → last + length d.sem_map + 2 ≤ int_max
      → Simulates (view d) accepts (perform sender host accepts d)
  unfolding print_int print_nat
  accepts-refines free last e room =
      accepting d.accept_sem refl
        (next_id-found (suc (length d.sem_map)) d.sem_map last (omega arith) (omega arith))
    where
      accepting :
          (n : ℕ)
          → d.accept_sem ≡ n
          → (j : ℕ) × (next_id (suc (length d.sem_map)) d.sem_map (pos last) ≡ ok (pos j))
            × IsNextId d.sem_map last j
            × (j ≤ last + length d.sem_map + 1)
          → Simulates (view d) accepts (perform sender host accepts d)
      accepting zero s found =
          rw (accept_response-waits host d s) (v, refl, Blocked.no_invitation s)
      accepting (suc n) s (id, found, (above, unused, between), near) =
          let text = accepted_text (pos id) in
          let header = frame host text in
          let printed =
            (command_frame_lem host text
              (numbered_fits (codes "accepted") id (omega arith) (omega arith))).0 in
          elim (Bool-cases (is_neg (host.mfsend d.sent d.dst_guid header))) [
            | inl failed ↦
                rw
                  (accept_response-fails host d (pos id) header n s v.running free v.send_free
                    (rw e found) printed failed)
                  (refl, refl)
            | inr sent ↦
                rw
                  (accept_response_lem host d (pos id) header n s v.running free v.send_free
                    v.map_free (rw e found) printed sent)
                  (
                    record {
                      maps = Maps-register v.maps (pos id);
                      answered = v.answered;
                      map_free = refl;
                      send_free = refl;
                      running = v.running;
                    },
                    refl,
                    subst (Step (view d) accepts (pos id, []))
                        (channels-insert (pos id) [] d.queue_map d.connect_queue n)
                        (Step.takes_invitation id n s (v.maps.closed (pos id) unused)),
                  )
          ]
