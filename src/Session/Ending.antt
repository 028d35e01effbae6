-- ===== src/Session/Ending.antt =====
-- src/Session.cpp: the steps of Run where the adapter has ended.
use nqbook.Prelude.{
  ℕ, zero, suc, ◌+◌, ◌*◌, ◌<◌, ◌≡◌, refl, subst, true, List, [], ◌∷◌, Option, none, some, length,
  ltb, ◌==◌, if◌then◌else◌, arith, Bool-cases, Option-cases, inl, inr, ◌⊎◌, ◌>>=◌,
}
use nqbook.Abi.{Mbo}
use nqbook.Nlib.{Nlib}
use nqbook.Nlib.SingleQueue.{SingleQueue}
use nqbook.Feature.Double.{Double}
use nqbook.Feature.Instances.{Instances}
use nqbook.Feature.NewEngine.{Checked}
use nqbook.Feature.PipelineTable.{Setup, table_apply, table_close}
use nqbook.Feature.Resolving.{columns}
use nqbook.Adapter.{Adapters, finished}
use nqbook.Adapter.Order.{Reach-InOrder}
use nqbook.Session.{
  RunPhase, consuming, consumed, checking_end, checking_empty, checking_stop, stopping, joining,
  draining, closing, done, has_returned, Session, new_session, interrupt, consume_round, setup_of,
  session_round,
}
use nqbook.Session.Steps.{SessionReach}
use nqbook.Session.InStep.{Small, InStep}
use nqbook.Session.Rounds.{session_round-InStep}
use nqbook.Session.Complete.{SessionReach-InStep}

-- A bound on the steps that are left, with `k` events in the queue of an adapter that has ended.
-- Three phases lead out of the loop where the queue is empty, and around it otherwise.
abbrev rank : ℕ → RunPhase → ℕ
rank k (consuming zero) = 20 * k + 8
rank k (consuming (suc n)) = 20 * k + 10
rank k (consumed zero) = if k == 0 then 7 else 20 * k + 12
rank k (consumed (suc n)) = 20 * k + 9
rank k checking_end = if k == 0 then 6 else 20 * k + 11
rank k checking_empty = if k == 0 then 5 else 20 * k + 10
rank k checking_stop = 20 * k + 9
rank k stopping = 20 * k + 4
rank k joining = 20 * k + 3
rank k (draining n) = 20 * k + 2
rank k closing = 20 * k + 1
rank k done = 0

List-cases : (l : List Mbo) → (l ≡ []) ⊎ ((m : Mbo) × (ms : List Mbo) × (l ≡ m ∷ ms))
List-cases [] = inl refl
List-cases (m ∷ ms) = inr (m, ms, refl)

is_done : (p : RunPhase) → (p ≡ done) ⊎ (p ≡ done → ⊥)
is_done (consuming n) = inr (λ h. cc)
is_done (consumed n) = inr (λ h. cc)
is_done checking_end = inr (λ h. cc)
is_done checking_empty = inr (λ h. cc)
is_done checking_stop = inr (λ h. cc)
is_done stopping = inr (λ h. cc)
is_done joining = inr (λ h. cc)
is_done (draining n) = inr (λ h. cc)
is_done closing = inr (λ h. cc)
is_done done = inl refl

some_injective {ℓ} : {A : Type ℓ} {a b : A} → some a ≡ some b → a ≡ b
some_injective h = cc

module _ {nlib : Nlib} {D : Double} (P : Instances nlib D) (A : Adapters)
    (Q : SingleQueue Mbo) where
  abbrev rank_of : Session P A Q → ℕ
  rank_of s = rank (length (Q.items s.world.engine.queue)) s.phase

  module _ (c : Setup P) (batch : ℕ) where
    -- steps of Run, with no other thread in between
    unfoldable pub rounds : ℕ → Session P A Q → Option (Session P A Q)
    rounds zero s = some s
    rounds (suc k) s = do s' ← session_round P A Q c batch s s.phase; rounds k s'

    -- the next session is nearer to the end
    abbrev Nearer : Session P A Q → RunPhase → Session P A Q → Type 0
    Nearer s p s' =
        (s'.world.engine.ended ≡ true)
        × (s'.world.engine.phase ≡ finished)
        × (rank_of s' < rank (length (Q.items s.world.engine.queue)) p)

    consume_round-Nearer :
        (s : Session P A Q) (n : ℕ) (p more after : RunPhase) (o : Option (Mbo × Q.Queue))
        (s' : Session P A Q)
        → Q.try_pop s.world.engine.queue ≡ o
        → ((k : ℕ) → rank k more < rank (suc k) p)
        → rank 0 after < rank 0 p
        → s.world.engine.ended ≡ true
        → s.world.engine.phase ≡ finished
        → consume_round P A Q c s n more after o ≡ some s'
        → Nearer s p s'
    unfolding consume_round
    consume_round-Nearer s n p more after none s' empty down out ended at h =
        let none_left = Q.try_pop_empty s.world.engine.queue empty in
        subst (Nearer s p) (some_injective h) (ended, at, rw none_left out)
    consume_round-Nearer s n p more after (some (m, q)) s' found down out ended at h =
        let first = Q.items-try_pop s.world.engine.queue q m found in
        elim (Option-cases (table_apply P (setup_of P A Q c s.world.engine) s.table m)) [
          | inl fails ↦ absurd (cc (rw fails at h))
          | inr ((filled, t), applied) ↦
              subst (Nearer s p) (some_injective (rw applied at h))
                (ended, at, rw first (down (length (Q.items q))))
        ]

    stop-Nearer :
        (s : Session P A Q) (p : RunPhase)
        → s.world.engine.ended ≡ true
        → s.world.engine.phase ≡ finished
        → ((k : ℕ) → rank k (consuming 0) < rank k p)
        → Nearer s p (if s.stop then interrupt P A Q s else record s { phase = consuming 0 })
    unfolding interrupt
    stop-Nearer s p ended at down =
        let lower = down (length (Q.items s.world.engine.queue)) in
        elim (Bool-cases s.stop) [
          | inl asked ↦ rw asked (ended, at, omega (arith, lower))
          | inr on ↦ rw on (ended, at, lower)
        ]

    session_round-Nearer :
        (s : Session P A Q) (p : RunPhase) (s' : Session P A Q)
        → 0 < batch
        → s.world.engine.ended ≡ true
        → s.world.engine.phase ≡ finished
        → (p ≡ done → ⊥)
        → session_round P A Q c batch s p ≡ some s'
        → Nearer s p s'
    unfolding session_round
    session_round-Nearer s (consuming zero) s' room ended at on h =
        let here : ltb 0 batch ≡ true = ground arith in
        consume_round-Nearer s 0 (consuming 0) (consuming 1) (consumed 0)
          (Q.try_pop s.world.engine.queue) s' refl (λ k. omega arith) (omega arith) ended at
          (rw here at h)
    session_round-Nearer s (consuming (suc n)) s' room ended at on h =
        elim (Bool-cases (ltb (suc n) batch)) [
          | inl more ↦
              consume_round-Nearer s (suc n) (consuming (suc n)) (consuming (suc (suc n)))
                (consumed (suc n)) (Q.try_pop s.world.engine.queue) s' refl (λ k. omega arith)
                (omega arith) ended at (rw more at h)
          | inr full ↦
              subst (Nearer s (consuming (suc n))) (some_injective (rw full at h))
                (ended, at, omega arith)
        ]
    session_round-Nearer s (consumed zero) s' room ended at on h =
        subst (Nearer s (consumed 0)) (some_injective h) (ended, at, ground arith)
    session_round-Nearer s (consumed (suc n)) s' room ended at on h =
        subst (Nearer s (consumed (suc n))) (some_injective h)
          (stop-Nearer s (consumed (suc n)) ended at (λ k. omega arith))
    session_round-Nearer s checking_end s' room ended at on h =
        subst (Nearer s checking_end) (some_injective (rw ended at h)) (refl, at, ground arith)
    session_round-Nearer s checking_empty s' room ended at on h =
        let empty = Q.is_empty-items s.world.engine.queue in
        elim (List-cases (Q.items s.world.engine.queue)) [
          | inl none_left ↦
              subst (Nearer s checking_empty) (some_injective (rw (empty, none_left) at h))
                (ended, at, rw none_left (omega arith))
          | inr (m, ms, some_left) ↦
              subst (Nearer s checking_empty) (some_injective (rw (empty, some_left) at h))
                (ended, at, rw some_left (ground arith))
        ]
    session_round-Nearer s checking_stop s' room ended at on h =
        subst (Nearer s checking_stop) (some_injective h)
          (stop-Nearer s checking_stop ended at (λ k. omega arith))
    session_round-Nearer s stopping s' room ended at on h =
        subst (Nearer s stopping) (some_injective h) (ended, at, omega arith)
    session_round-Nearer s joining s' room ended at on h =
        let back : has_returned s.world.engine.phase ≡ true = unfold has_returned in rw at refl in
        elim (Bool-cases s.interrupted) [
          | inl cut ↦
              subst (Nearer s joining) (some_injective (rw (back, cut) at h))
                (ended, at, omega arith)
          | inr whole ↦
              subst (Nearer s joining) (some_injective (rw (back, whole) at h))
                (ended, at, omega arith)
        ]
    session_round-Nearer s (draining n) s' room ended at on h =
        consume_round-Nearer s n (draining n) (draining (suc n)) closing
          (Q.try_pop s.world.engine.queue) s' refl (λ k. omega arith) (omega arith) ended at h
    session_round-Nearer s closing s' room ended at on h =
        elim (Option-cases (table_close P s.table)) [
          | inl fails ↦ absurd (cc (rw fails at h))
          | inr (t, closes) ↦
              subst (Nearer s closing) (some_injective (rw closes at h)) (ended, at, omega arith)
        ]
    session_round-Nearer s done s' room ended at on h = absurd (on refl)

    module _ (a : A.Instance) (capacity : ℕ) where
      rounds-end :
          (k : ℕ) (s : Session P A Q)
          → 0 < batch
          → Checked c.templates (columns P c)
          → rank_of s < k
          → s.world.engine.ended ≡ true
          → InStep A Q P c a capacity s
          → (n : ℕ) × (s' : Session P A Q) × (rounds n s ≡ some s') × (s'.phase ≡ done)
      unfolding rounds
      rounds-end zero s room ok low ended k = absurd (omega (arith, low))
      rounds-end (suc k) s room ok low ended in_step = elim (is_done s.phase) [
        | inl over ↦ (0, s, refl, over)
        | inr on ↦
            let (s1, goes, kept) =
              session_round-InStep P A Q c batch a capacity s s.phase ok refl in_step in
            let at = (Reach-InOrder A Q a capacity in_step.reached).ended_finished ended in
            let (ended1, at1, lower) = session_round-Nearer s s.phase s1 room ended at on goes in
            let (n, s', runs, over) =
              rounds-end k s1 room ok (omega (arith, low, lower)) ended1 kept in
            (suc n, s', rw (goes, runs) refl, over)
      ]

      -- On a catalog as AddSampler checks it, an adapter whose instruments are below 2 ^ 32 - 1 and a
      -- batch that is not 0: from every session that the threads reach where the adapter has ended,
      -- steps of Run alone lead to its end, whether it is interrupted or not.
      pub rounds-done :
          (slots : ℕ) {s : Session P A Q}
          → 0 < batch
          → Checked c.templates (columns P c)
          → Small A Q
          → SessionReach P A Q c batch (new_session P A Q a capacity slots) s
          → s.world.engine.ended ≡ true
          → (n : ℕ) × (s' : Session P A Q) × (rounds n s ≡ some s') × (s'.phase ≡ done)
      rounds-done slots {s} room ok small r ended =
          rounds-end (suc (rank_of s)) s room ok (omega arith) ended
            (SessionReach-InStep P A Q c batch a capacity slots ok small r)
