-- ===== src/Session/Rounds.antt =====
-- src/Session.cpp: each step of Run on the invariant of the session.

use nqbook.Prelude.{
  ℕ, zero, suc, ◌+◌, ◌%◌, ◌^◌, ◌≡◌, refl, sym, ap, subst, ◌∙◌, true, false, List, [], ◌∷◌, some,
  ltb, if◌then◌else◌, arith, Bool-cases, inl, inr,
}
use nqbook.Prelude.Int.{pos}
use nqbook.Prelude.Text.{is_nil}
use nqbook.Abi.{Mbo}
use nqbook.Nlib.{Nlib}
use nqbook.Nlib.SingleQueue.{SingleQueue}
use nqbook.Feature.Double.{Double}
use nqbook.Feature.Instances.{Instances}
use nqbook.Feature.NewEngine.{Checked}
use nqbook.Feature.PipelineTable.{Setup}
use nqbook.Feature.Resolving.{columns}
use nqbook.Feature.TableFeed.{table_close-TableOk}
use nqbook.Adapter.{Adapters}
use nqbook.Adapter.Steps.{request_stop, next}
use nqbook.Session.{
  RunPhase, consuming, consumed, checking_end, checking_empty, checking_stop, stopping, joining,
  draining, closing, done, has_returned, Session, interrupt, session_round,
}
use nqbook.Session.InStep.{
  books_of, batched, Left, Ended, InStep, moved-InStep, consume_round-InStep,
}

nil : (l : List Mbo) → is_nil l ≡ true → l ≡ []
nil [] h = refl
nil (m ∷ ms) h = cc

module _ {nlib : Nlib} {D : Double} (P : Instances nlib D) (A : Adapters) (Q : SingleQueue Mbo)
    (c : Setup P) (batch : ℕ) (a : A.Instance) (capacity : ℕ) where
  items_none : (q : Q.Queue) → Q.is_empty q ≡ true → Q.items q ≡ []
  items_none q empty = nil (Q.items q) (sym (Q.is_empty-items q) ∙ empty)

  -- a step of Run out of a phase: it returns, and leaves the session in step
  abbrev pub Goes : Session P A Q → RunPhase → Type 0
  Goes s p =
      (s' : Session P A Q) × (session_round P A Q c batch s p ≡ some s')
      × InStep A Q P c a capacity s'

  -- a change of the phase alone
  goes-InStep :
      (s : Session P A Q) (p : RunPhase)
      → (p ≡ checking_empty → s.world.engine.ended ≡ true)
      → (Left p → s.interrupted ≡ false → Ended A Q s.world.engine)
      → batched p ≡ batched s.phase
      → InStep A Q P c a capacity s
      → InStep A Q P c a capacity (record s { phase = p })
  goes-InStep s p checked left flat k =
      moved-InStep A Q P c a capacity s s.stop s.interrupted p s.total s.status checked left
        (omega (arith, flat)) k

  -- the test of the stop
  stop-InStep :
      (s : Session P A Q)
      → batched s.phase ≡ 0
      → InStep A Q P c a capacity s
      → InStep A Q P c a capacity
          (if s.stop then interrupt P A Q s else record s { phase = consuming 0 })
  unfolding interrupt
  stop-InStep s flat k = elim (Bool-cases s.stop) [
    | inl asked ↦ rw asked (
        moved-InStep A Q P c a capacity s true true stopping s.total s.status (λ h. cc) (λ l h. cc)
          (omega (arith, flat)) k)
    | inr on ↦ rw on (
        moved-InStep A Q P c a capacity s false s.interrupted (consuming 0) s.total s.status
          (λ h. cc) (λ l. absurd l) (omega (arith, flat)) k)
  ]

  pub session_round-InStep :
      (s : Session P A Q) (p : RunPhase)
      → Checked c.templates (columns P c)
      → s.phase ≡ p
      → InStep A Q P c a capacity s
      → Goes s p
  unfolding session_round
  session_round-InStep s (consuming n) ok at k = elim (Bool-cases (ltb n batch)) [
    | inl room ↦ rw room (
        consume_round-InStep A Q P c a capacity s n (consuming (suc n)) (consumed n)
          (Q.try_pop s.world.engine.queue) ok refl (ap batched at) refl refl (λ l. absurd l)
          (λ l. absurd l) (λ h. cc) (λ h. cc) k)
    | inr full ↦ rw full (
      record s { total = (s.total + n) % 2 ^ 64; phase = consumed n },
      refl,
      moved-InStep A Q P c a capacity s s.stop s.interrupted (consumed n) ((s.total + n) % 2 ^ 64)
          s.status (λ h. cc) (λ l. absurd l) (omega (arith, ap batched at)) k,
    )
  ]
  session_round-InStep s (consumed zero) ok at k =
      (_, refl, goes-InStep s checking_end (λ h. cc) (λ l. absurd l) (sym (ap batched at)) k)
  session_round-InStep s (consumed (suc n)) ok at k = (_, refl, stop-InStep s (ap batched at) k)
  session_round-InStep s checking_end ok at k = elim (Bool-cases s.world.engine.ended) [
    | inl ended ↦ (
      record s { phase = checking_empty },
      rw ended refl,
      goes-InStep s checking_empty (λ h. ended) (λ l. absurd l) (sym (ap batched at)) k,
    )
    | inr on ↦ (
      record s { phase = checking_stop },
      rw on refl,
      goes-InStep s checking_stop (λ h. cc) (λ l. absurd l) (sym (ap batched at)) k,
    )
  ]
  session_round-InStep s checking_empty ok at k =
      elim (Bool-cases (Q.is_empty s.world.engine.queue)) [
        | inl empty ↦ (
          record s { phase = stopping },
          rw empty refl,
          goes-InStep s stopping (λ h. cc)
              (λ l clean. (k.checked at, items_none s.world.engine.queue empty))
              (sym (ap batched at)) k,
        )
        | inr more ↦ (
          record s { phase = checking_stop },
          rw more refl,
          goes-InStep s checking_stop (λ h. cc) (λ l. absurd l) (sym (ap batched at)) k,
        )
      ]
  session_round-InStep s checking_stop ok at k = (_, refl, stop-InStep s (ap batched at) k)
  session_round-InStep s stopping ok at k = (
    record s { world = record s.world { stop = true }; phase = joining },
    refl,
    record {
      reached = next k.reached (request_stop s.world);
      numbered = k.numbered;
      shown = k.shown;
      checked = λ h. cc;
      left = λ l. k.left (subst Left (sym at) tt);
      counted = omega (arith, k.counted, ap batched at);
    },
  )
  session_round-InStep s joining ok at k =
      let out = k.left (subst Left (sym at) tt) in
      elim (Bool-cases (has_returned s.world.engine.phase)) [
        | inl back ↦ elim (Bool-cases s.interrupted) [
          | inl cut ↦ (
            record s { phase = closing },
            rw (back, cut) refl,
            goes-InStep s closing (λ h. cc) (λ l. out) (sym (ap batched at)) k,
          )
          | inr whole ↦ (
            record s { phase = draining 0 },
            rw (back, whole) refl,
            goes-InStep s (draining 0) (λ h. cc) (λ l. out) (sym (ap batched at)) k,
          )
        ]
        | inr busy ↦ (s, rw busy refl, k)
      ]
  session_round-InStep s (draining n) ok at k =
      consume_round-InStep A Q P c a capacity s n (draining (suc n)) closing
        (Q.try_pop s.world.engine.queue) ok refl (ap batched at) refl refl
        (λ l. subst Left (sym at) tt) (λ l. subst Left (sym at) tt) (λ h. cc) (λ h. cc) k
  session_round-InStep s closing ok at k =
      let (t, closed, shown) = table_close-TableOk P c s.table (books_of s.world.taken) k.shown in
      (
        record s {
          table = t;
          status = if s.world.engine.ended then s.world.engine.status else pos 0;
          phase = done;
        },
        rw closed refl,
        record {
          reached = k.reached;
          numbered = k.numbered;
          shown = shown;
          checked = λ h. cc;
          left = λ l. k.left (subst Left (sym at) tt);
          counted = omega (arith, k.counted, ap batched at);
        },
      )
  session_round-InStep s done ok at k = (s, refl, k)
