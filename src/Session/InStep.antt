-- ===== src/Session/InStep.antt =====
-- src/Session.cpp: what every step of Run, of the adapter's thread and of the caller keeps.
use nqbook.Prelude.{
  ℕ, suc, ◌+◌, ◌%◌, ◌^◌, ◌<◌, ◌≡◌, refl, sym, ap, subst, ◌∙◌, Bool, true, false, List, [], ◌∷◌,
  ◌++◌, Option, none, some, length, length-append, ◌==◌, arith, Bool-cases, inl, inr,
}
use nqbook.Prelude.Int.{ℤ, eqb_ℤ}
use nqbook.Abi.{Mbo}
use nqbook.Nlib.{Nlib}
use nqbook.Nlib.SingleQueue.{SingleQueue}
use nqbook.Orderbook.Entries.{Entry}
use nqbook.Orderbook.Priority.{react}
use nqbook.Orderbook.Application.{replay}
use nqbook.Feature.Double.{Double}
use nqbook.Feature.Instances.{Instances}
use nqbook.Feature.NewEngine.{Checked}
use nqbook.Feature.PipelineTable.{Setup}
use nqbook.Feature.Resolving.{columns}
use nqbook.Feature.TableApply.{route, table_apply-TableOk}
use nqbook.Feature.TableRun.{TableOk}
use nqbook.Feature.TableFeed.{of_instrument, Numbered, replay-route, TableOk-agree}
use nqbook.Adapter.{
  Phase, running, polling, pushing, blocked, gave_up, finished, Adapters, AdapterEngine, next_event,
  thread_step,
}
use nqbook.Adapter.Steps.{new_events, advance_thread, thread, pop, Reach, next}
use nqbook.Adapter.Rounds.{pending}
use nqbook.Adapter.Order.{start, Reach-InOrder}
use nqbook.Session.{
  RunPhase, consuming, consumed, checking_end, checking_empty, checking_stop, stopping, joining,
  draining, closing, done, Session, popped_world, setup_of, consume_round,
}

-- the orders of each instrument behind the events
abbrev pub books_of : List Mbo → ℕ → List Entry
books_of ms i = replay [] (of_instrument i ms)

replay-of_instrument :
    (i : ℕ) (orders : List Entry) (ms : List Mbo) (m : Mbo)
    → replay (replay orders (of_instrument i ms)) (of_instrument i (m ∷ []))
      ≡ replay orders (of_instrument i (ms ++ m ∷ []))
unfolding replay of_instrument
replay-of_instrument i orders [] m = refl
replay-of_instrument i orders (k ∷ ms) m = elim (Bool-cases (k.instrument == i)) [
  | inl same ↦ simp (same, replay-of_instrument i (react orders k).1 ms m)
  | inr ne ↦ simp (ne, replay-of_instrument i orders ms m)
]

route-books_of :
    (ms : List Mbo) (m : Mbo) (i : ℕ) → route (books_of ms) m i ≡ books_of (ms ++ m ∷ []) i
route-books_of ms m i =
    unfold replay of_instrument in
    replay-route (books_of ms) m [] i ∙ replay-of_instrument i [] ms m

Numbered-append : (ms ns : List Mbo) → Numbered ms → Numbered ns → Numbered (ms ++ ns)
Numbered-append [] ns k j = j
Numbered-append (m ∷ ms) ns (h, k) j = (h, Numbered-append ms ns k j)

Numbered-middle : (ms ns : List Mbo) (m : Mbo) → Numbered (ms ++ m ∷ ns) → m.instrument + 1 < 2 ^ 32
Numbered-middle [] ns m (h, k) = h
Numbered-middle (k ∷ ms) ns m (h, j) = Numbered-middle ms ns m j

-- the events of the Consume that runs, which `total` does not count yet
abbrev pub batched : RunPhase → ℕ
batched (consuming n) = n
batched (consumed n) = 0
batched checking_end = 0
batched checking_empty = 0
batched checking_stop = 0
batched stopping = 0
batched joining = 0
batched (draining n) = n
batched closing = 0
batched done = 0

-- Run has left its loop.
abbrev pub Left : RunPhase → Type 0
Left (consuming n) = ⊥
Left (consumed n) = ⊥
Left checking_end = ⊥
Left checking_empty = ⊥
Left checking_stop = ⊥
Left stopping = Unit {0}
Left joining = Unit {0}
Left (draining n) = Unit {0}
Left closing = Unit {0}
Left done = Unit {0}

module _ (A : Adapters) (Q : SingleQueue Mbo) where
  -- the instruments of the adapter's events are below 2 ^ 32 - 1
  abbrev pub Small : Type 0
  Small =
      (x : A.Instance) → eqb_ℤ (A.next x).0 next_event ≡ true → (A.next x).1.instrument + 1 < 2 ^ 32

  new_events-Numbered : (e : AdapterEngine A Q) (p : Phase) → Small → Numbered (new_events A Q e p)
  unfolding new_events
  new_events-Numbered e running small = tt
  new_events-Numbered e polling small = elim (Bool-cases (eqb_ℤ (A.next e.adapter).0 next_event)) [
    | inl event ↦ rw event (small e.adapter event, tt)
    | inr other ↦ rw other tt
  ]
  new_events-Numbered e (pushing m stalled) small = tt
  new_events-Numbered e (blocked m stalled) small = tt
  new_events-Numbered e (gave_up m) small = tt
  new_events-Numbered e finished small = tt

  thread_step_finished :
      (stop : Bool) (e : AdapterEngine A Q)
      → e.phase ≡ finished
      → thread_step A Q stop e e.phase ≡ e
  unfolding thread_step
  thread_step_finished stop e at = subst (λ (p : Phase). thread_step A Q stop e p ≡ e) (sym at) refl

  -- the adapter has ended, and its queue is empty
  abbrev pub Ended : AdapterEngine A Q → Type 0
  Ended e = (e.ended ≡ true) × (Q.items e.queue ≡ [])

  module _ {nlib : Nlib} {D : Double} (P : Instances nlib D) (c : Setup P) (a : A.Instance)
      (capacity : ℕ) where
    -- The adapter's world is one that its own steps reach, the table is in step over the orders that
    -- the events popped leave at each instrument, and Run has counted these. Behind a loop that was
    -- not interrupted, the adapter has ended and its queue is empty.
    pub record InStep (s : Session P A Q) : Type 0 where
      pub reached : Reach A Q (start A Q a capacity) s.world
      pub numbered : Numbered s.world.returned
      pub shown : TableOk P (columns P c) s.table (books_of s.world.taken)
      pub checked : s.phase ≡ checking_empty → s.world.engine.ended ≡ true
      pub left : Left s.phase → s.interrupted ≡ false → Ended s.world.engine
      pub counted : (s.total + batched s.phase) % 2 ^ 64 ≡ length s.world.taken % 2 ^ 64

    pub moved-InStep :
        (s : Session P A Q) (stop interrupted : Bool) (phase : RunPhase) (total : ℕ) (status : ℤ)
        → (phase ≡ checking_empty → s.world.engine.ended ≡ true)
        → (Left phase → interrupted ≡ false → Ended s.world.engine)
        → (total + batched phase) % 2 ^ 64 ≡ (s.total + batched s.phase) % 2 ^ 64
        → InStep s
        → InStep (record s {
          stop = stop;
          phase = phase;
          total = total;
          interrupted = interrupted;
          status = status;
        })
    moved-InStep s stop interrupted phase total status checked left same k = record {
      reached = k.reached;
      numbered = k.numbered;
      shown = k.shown;
      checked = checked;
      left = left;
      counted = same ∙ k.counted;
    }

    pub adapter-InStep :
        (s : Session P A Q)
        → Small
        → InStep s
        → InStep (record s { world = advance_thread A Q s.world })
    adapter-InStep s small k =
        let e = s.world.engine in
        let stays : e.ended ≡ true → thread_step A Q s.world.stop e e.phase ≡ e = λ h.
          thread_step_finished s.world.stop e
            ((Reach-InOrder A Q a capacity k.reached).ended_finished h) in
        record {
          reached = next k.reached (thread s.world);
          numbered =
              Numbered-append s.world.returned (new_events A Q e e.phase) k.numbered
                (new_events-Numbered e e.phase small);
          shown = k.shown;
          checked = λ at.
              subst (λ (v : AdapterEngine A Q). v.ended ≡ true) (sym (stays (k.checked at)))
                (k.checked at);
          left = λ out clean. subst Ended (sym (stays (k.left out clean).0)) (k.left out clean);
          counted = k.counted;
        }

    -- a round of Consume
    pub consume_round-InStep :
        (s : Session P A Q) (n : ℕ) (more after : RunPhase) (o : Option (Mbo × Q.Queue))
        → Checked c.templates (columns P c)
        → Q.try_pop s.world.engine.queue ≡ o
        → batched s.phase ≡ n
        → batched more ≡ suc n
        → batched after ≡ 0
        → (Left more → Left s.phase)
        → (Left after → Left s.phase)
        → (more ≡ checking_empty → ⊥)
        → (after ≡ checking_empty → ⊥)
        → InStep s
        → (s' : Session P A Q) × (consume_round P A Q c s n more after o ≡ some s') × InStep s'
    unfolding consume_round setup_of
    consume_round-InStep s n more after none ok empty at grown flat out gone not_more not_after k =
        (
          record s { total = (s.total + n) % 2 ^ 64; phase = after },
          refl,
          moved-InStep s s.stop s.interrupted after ((s.total + n) % 2 ^ 64) s.status
              (λ h. absurd (not_after h)) (λ l. k.left (gone l)) (omega (arith, at, flat)) k,
        )
    consume_round-InStep s n more after (some (m, q)) ok found at grown flat out gone not_more
          not_after k =
        let w = s.world in
        let first = Q.items-try_pop w.engine.queue q m found in
        let order = Reach-InOrder A Q a capacity k.reached in
        let small : m.instrument + 1 < 2 ^ 32 =
          Numbered-middle w.taken (Q.items q ++ pending w.engine.phase) m (
            subst Numbered
              (sym order.conserved
                ∙ ap (λ (l : List Mbo). w.taken ++ (l ++ pending w.engine.phase)) first)
              k.numbered) in
        let (t, applied, shown, events, ts) =
          table_apply-TableOk P (setup_of P A Q c w.engine) s.table (books_of w.taken) m ok small
            k.shown in
        (
          record s { world = popped_world P A Q w m q; table = t; phase = more },
          rw applied refl,
          record {
            reached = next k.reached (pop w m q found);
            numbered = k.numbered;
            shown = TableOk-agree P c t _ _ (route-books_of w.taken m) shown;
            checked = λ h. absurd (not_more h);
            left = λ l clean. absurd (cc (first, (k.left (out l) clean).1));
            counted = omega (arith, k.counted, at, grown, length-append w.taken (m ∷ []));
          },
        )
