-- ===== src/Adapter/Rounds.antt =====
-- src/Adapter/AdapterEngine.cpp: what each step of the adapter's thread keeps.
use mathlib.Core.List.{append-nil, append_assoc}
use nqbook.Prelude.{
  ℕ, suc, ◌+◌, ◌%◌, ◌^◌, ◌≡◌, refl, sym, ap, ◌∙◌, Bool, true, false, List, [], ◌∷◌, ◌++◌, length,
  length-append, if◌then◌else◌, arith, Bool-cases, Option-cases, inl, inr,
}
use nqbook.Prelude.Int.{eqb_ℤ}
use nqbook.Abi.{Mbo}
use nqbook.Nlib.SingleQueue.{SingleQueue}
use nqbook.Orderbook.Book.{inc64}
use nqbook.Adapter.{
  Phase, running, polling, pushing, blocked, gave_up, finished, Adapters, AdapterEngine, next_event,
  next_again, thread_step, push_round, blocked_round, run_round,
}
use nqbook.Adapter.Steps.{World, new_events}
use nqbook.Adapter.Discovery.{Known, Known-append, Asked, discover-Known, discover-same}

-- the event that Push has not pushed
abbrev pub pending : Phase → List Mbo
pending running = []
pending polling = []
pending (pushing m stalled) = m ∷ []
pending (blocked m stalled) = m ∷ []
pending (gave_up m) = m ∷ []
pending finished = []

module _ (A : Adapters) (Q : SingleQueue Mbo) where
  -- The events popped and queued are in order those that the adapter returned, but for the last one
  -- while Push has it. They are counted, each has an entry of its instrument, and the thread has
  -- returned where the adapter has ended.
  pub record InOrder (w : World A Q) : Type 0 where
    pub conserved : w.taken ++ (Q.items w.engine.queue ++ pending w.engine.phase) ≡ w.returned
    pub counted : w.engine.pushed ≡ (length w.taken + length (Q.items w.engine.queue)) % 2 ^ 64
    pub known : Known w.engine.instruments w.returned
    pub asked : Asked A Q w.engine.seen w.engine.instruments
    pub ended_finished : w.engine.ended ≡ true → w.engine.phase ≡ finished

  regroup :
      (taken items returned : List Mbo) (m : Mbo)
      → taken ++ (items ++ []) ≡ returned
      → taken ++ (items ++ m ∷ []) ≡ returned ++ m ∷ []
  regroup taken items returned m k =
      sym (append_assoc taken items (m ∷ []))
      ∙ ap (λ (l : List Mbo). l ++ m ∷ []) (ap (◌++◌ taken) (sym (append-nil items)) ∙ k)

  -- the world behind a step of the thread in phase `p`
  abbrev in_phase : World A Q → Phase → World A Q
  in_phase w p = record w {
    engine = thread_step A Q w.stop w.engine p;
    returned = w.returned ++ new_events A Q w.engine p;
  }

  same_length :
      (taken items : List Mbo) (m : Mbo)
      → length taken + length (items ++ m ∷ []) ≡ suc (length taken + length items)
  same_length taken items m = omega (arith, length-append items (m ∷ []))

  push_round-InOrder :
      (w : World A Q) (m : Mbo) (stalled : Bool)
      → w.engine.phase ≡ pushing m stalled
      → InOrder w
      → InOrder (in_phase w (pushing m stalled))
  unfolding thread_step push_round new_events inc64
  push_round-InOrder w m stalled at k =
      let flow : w.taken ++ (Q.items w.engine.queue ++ m ∷ []) ≡ w.returned =
        ap (λ (p : Phase). w.taken ++ (Q.items w.engine.queue ++ pending p)) (sym at)
        ∙ k.conserved in
      let not_ended : w.engine.ended ≡ true → ⊥ = λ h. cc (at, k.ended_finished h) in
      elim (Option-cases (Q.try_push w.engine.queue m)) [
        | inr (q, pushed) ↦
            let grown = Q.items-try_push w.engine.queue q m pushed in
            rw pushed (record {
              conserved = rw (append-nil w.returned, append-nil (Q.items q), grown) flow;
              counted = omega (
                arith,
                k.counted,
                ap length grown,
                same_length w.taken (Q.items w.engine.queue) m,
              );
              known = rw (append-nil w.returned) k.known;
              asked = k.asked;
              ended_finished = λ h. absurd (not_ended h);
            })
        | inl full ↦ rw full (record {
          conserved = rw (append-nil w.returned) flow;
          counted = k.counted;
          known = rw (append-nil w.returned) k.known;
          asked = k.asked;
          ended_finished = λ h. absurd (not_ended h);
        })
      ]

  -- A step that moves an event, or none, within Push or out of it.
  moved-InOrder :
      (w : World A Q) (stop : Bool) (p : Phase) (stalls : ℕ)
      → pending p ≡ pending w.engine.phase
      → (w.engine.ended ≡ true → p ≡ finished)
      → InOrder w
      → InOrder (record w {
        engine = record w.engine { stalls = stalls; phase = p };
        stop = stop;
        returned = w.returned ++ [];
      })
  moved-InOrder w stop p stalls same over k = record {
    conserved =
        rw (append-nil w.returned)
          (ap (λ (l : List Mbo). w.taken ++ (Q.items w.engine.queue ++ l)) same ∙ k.conserved);
    counted = k.counted;
    known = rw (append-nil w.returned) k.known;
    asked = k.asked;
    ended_finished = over;
  }

  blocked_round-InOrder :
      (w : World A Q) (m : Mbo) (stalled : Bool)
      → w.engine.phase ≡ blocked m stalled
      → InOrder w
      → InOrder (in_phase w (blocked m stalled))
  unfolding thread_step blocked_round new_events
  blocked_round-InOrder w m stalled at k =
      let not_ended : w.engine.ended ≡ true → ⊥ = λ h. cc (at, k.ended_finished h) in
      elim (Bool-cases w.stop) [
        | inl stop ↦ rw stop (
            moved-InOrder w true (gave_up m) w.engine.stalls (ap pending (sym at))
              (λ h. absurd (not_ended h)) k)
        | inr go ↦ rw go (
            moved-InOrder w false (pushing m true)
              (if stalled then w.engine.stalls else inc64 w.engine.stalls) (ap pending (sym at))
              (λ h. absurd (not_ended h)) k)
      ]

  run_round-InOrder :
      (w : World A Q) → w.engine.phase ≡ polling → InOrder w → InOrder (in_phase w polling)
  unfolding thread_step run_round new_events
  run_round-InOrder w at k =
      let rc = (A.next w.engine.adapter).0 in
      let m = (A.next w.engine.adapter).1 in
      let a = (A.next w.engine.adapter).2 in
      let e : AdapterEngine A Q = record w.engine { adapter = a } in
      let flow : w.taken ++ (Q.items w.engine.queue ++ []) ≡ w.returned =
        ap (λ (p : Phase). w.taken ++ (Q.items w.engine.queue ++ pending p)) (sym at)
        ∙ k.conserved in
      let not_ended : w.engine.ended ≡ true → ⊥ = λ h. cc (at, k.ended_finished h) in
      elim (Bool-cases (eqb_ℤ rc next_event)) [
        | inl event ↦
            let (asked, entry, known) =
              discover-Known A Q e m.instrument w.returned k.asked k.known in
            let (queue, pushed, ended) = discover-same A Q e m.instrument in
            rw event (record {
              conserved = rw queue (regroup w.taken (Q.items w.engine.queue) w.returned m flow);
              counted = rw (queue, pushed) k.counted;
              known = Known-append _ w.returned m known entry;
              asked = asked;
              ended_finished = λ h. absurd (not_ended (sym ended ∙ h));
            })
        | inr other ↦ elim (Bool-cases (eqb_ℤ rc next_again)) [
          | inl again ↦
              rw (other, again)
                (record {
                  conserved = rw (append-nil w.returned) flow;
                  counted = k.counted;
                  known = rw (append-nil w.returned) k.known;
                  asked = k.asked;
                  ended_finished = λ h. absurd (not_ended h);
                })
          | inr last ↦
              rw (other, last)
                (record {
                  conserved = rw (append-nil w.returned) flow;
                  counted = k.counted;
                  known = rw (append-nil w.returned) k.known;
                  asked = k.asked;
                  ended_finished = λ h. refl;
                })
        ]
      ]

  start_round-InOrder :
      (w : World A Q) → w.engine.phase ≡ running → InOrder w → InOrder (in_phase w running)
  unfolding thread_step new_events
  start_round-InOrder w at k =
      let not_ended : w.engine.ended ≡ true → ⊥ = λ h. cc (at, k.ended_finished h) in
      elim (Bool-cases w.stop) [
        | inl stop ↦
            rw stop
              (moved-InOrder w true finished w.engine.stalls (ap pending (sym at)) (λ h. refl) k)
        | inr go ↦ rw go (
            moved-InOrder w false polling w.engine.stalls (ap pending (sym at))
              (λ h. absurd (not_ended h)) k)
      ]

  idle-InOrder :
      (w : World A Q) (p : Phase) → InOrder w → InOrder (record w { returned = w.returned ++ [] })
  idle-InOrder w p k = rw (append-nil w.returned) k

  pub thread-InOrder :
      (w : World A Q) (p : Phase) → w.engine.phase ≡ p → InOrder w → InOrder (in_phase w p)
  unfolding thread_step new_events
  thread-InOrder w running at k = start_round-InOrder w at k
  thread-InOrder w polling at k = run_round-InOrder w at k
  thread-InOrder w (pushing m stalled) at k = push_round-InOrder w m stalled at k
  thread-InOrder w (blocked m stalled) at k = blocked_round-InOrder w m stalled at k
  thread-InOrder w (gave_up m) at k = idle-InOrder w (gave_up m) k
  thread-InOrder w finished at k = idle-InOrder w finished k
