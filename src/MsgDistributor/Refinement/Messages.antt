-- ===== src/MsgDistributor/Refinement/Messages.antt =====
-- Each message of the peer that `listen` handles is a step of the channels.
use painting_cps.Prelude.{
  ℕ, suc, ◌^◌, ◌≤◌, ◌<◌, ◌≡◌, ◌≢◌, refl, subst, inl, inr, ℤ, pos, minus_one, beq_ℤ_iff, int_eq,
  true, false, List, [], ◌∷◌, ◌++◌, arith, length, length-append, Option-cases,
}
use painting_cps.Prelude.Assoc.{find}
use painting_cps.CText.{Bytes}
use painting_cps.MsgDistributor.State.{Host, MsgDistributor, max_chunk}
use painting_cps.MsgDistributor.Frames.{sock_message}
use painting_cps.MsgDistributor.Methods.{unopened}
use painting_cps.MsgDistributor.Protocol.{listen-sock_message}
use painting_cps.MsgDistributor.Handshake.{listen-create, listen-accepted, listen-close}
use painting_cps.MsgDistributor.Effects.{
  deliver-unknown, deliver-known, close-unknown, close-passive,
}
use painting_cps.MsgDistributor.Invariant.{Inv}
use painting_cps.MsgDistributor.Invariant.Tables.{Maps-requeue, Maps-close}
use painting_cps.MsgDistributor.Channels.{creates, answers, brings, hangs_up, hears, Step}
use painting_cps.MsgDistributor.Refinement.{
  perform, view, Simulates, channels-insert, channels-erase,
}

length-snoc : (q : List Bytes) (c : Bytes) → length (q ++ c ∷ []) ≡ suc (length q)
length-snoc q c = omega (arith, length-append q (c ∷ []))

length-snoc_id : (q : List ℤ) (i : ℤ) → length (q ++ i ∷ []) ≡ suc (length q)
length-snoc_id q i = omega (arith, length-append q (i ∷ []))

pub opened_ne : (d : MsgDistributor) → unopened d ≡ false → d.mfsockid ≢ minus_one
opened_ne d h e = ground (arith, (beq_ℤ_iff d.mfsockid minus_one).1 e)

module _ (sender host : Host) {d : MsgDistributor} (v : Inv d) (opened : unopened d ≡ false) where
  pub creates-refines : Simulates (view d) (hears creates) (perform sender host (hears creates) d)
  creates-refines = rw (listen-create sender host d (opened_ne d opened)) (
    record {
      maps = v.maps;
      answered = v.answered;
      map_free = v.map_free;
      send_free = v.send_free;
      running = v.running;
    },
    opened,
    Step.hears_create,
  )

  pub answers-refines :
      (id : ℕ)
      → id < 2 ^ 31
      → Simulates (view d) (hears (answers id)) (perform sender host (hears (answers id)) d)
  answers-refines id small = rw (listen-accepted sender host d id (opened_ne d opened) small) (
    record {
      maps = v.maps;
      answered = omega (arith, v.answered, length-snoc_id d.connect_queue (pos id));
      map_free = v.map_free;
      send_free = v.send_free;
      running = v.running;
    },
    opened,
    Step.hears_answer id,
  )

  pub brings-refines :
      (id : ℕ) (content : Bytes)
      → id < 10 ^ 9
      → length (sock_message (pos id) content) ≤ max_chunk
      → Simulates
          (view d)
          (hears (brings id content))
          (perform sender host (hears (brings id content)) d)
  brings-refines id content small fits =
      rw (listen-sock_message host d id content (opened_ne d opened) small fits)
        (elim (Option-cases (find (pos id) d.sem_map)) [
          | inl e ↦
              rw (deliver-unknown host d (pos id) content e)
                (v, opened, Step.drops_content id content (v.maps.closed (pos id) e))
          | inr (p, e) ↦
              let (q, fq, fs, ft) = v.maps.opened (pos id) p e in
              rw (deliver-known host d (pos id) content p (length q) q e fq fs) (
                record {
                  maps =
                      rw (length-snoc q content) at
                        (Maps-requeue v.maps (pos id) p (q ++ content ∷ []) e);
                  answered = v.answered;
                  map_free = v.map_free;
                  send_free = v.send_free;
                  running = v.running;
                },
                opened,
                subst (Step (view d) (hears (brings id content)) (pos 0, []))
                    (channels-insert (pos id) (q ++ content ∷ []) d.queue_map d.connect_queue
                      d.accept_sem)
                    (Step.hears_content id content q fq),
              )
        ])

  pub hangs_up-refines :
      (id : ℕ)
      → id < 2 ^ 31
      → Simulates (view d) (hears (hangs_up id)) (perform sender host (hears (hangs_up id)) d)
  hangs_up-refines id small =
      rw (listen-close sender host d id (opened_ne d opened) small)
        (elim (Option-cases (find (pos id) d.sem_map)) [
          | inl e ↦
              rw (close-unknown host d (pos id) true opened e)
                (v, opened, Step.ignores_close id (v.maps.closed (pos id) e))
          | inr (p, e) ↦
              let (q, fq, fs, ft) = v.maps.opened (pos id) p e in
              rw (close-passive host d (pos id) p (length q) opened v.map_free e fs) (
                record {
                  maps = Maps-close v.maps (pos id) p (suc (length q)) e;
                  answered = v.answered;
                  map_free = refl;
                  send_free = v.send_free;
                  running = v.running;
                },
                opened,
                subst (Step (view d) (hears (hangs_up id)) (pos 0, []))
                    (channels-erase (pos id) d.queue_map d.connect_queue d.accept_sem)
                    (Step.hears_close id q fq),
              )
        ])
