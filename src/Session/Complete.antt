-- ===== src/Session/Complete.antt =====
-- src/Session.cpp: what Run has done where it ends, in every run.
use mathlib.Core.List.{append-nil}
use nqbook.Prelude.{
  ℕ, ◌%◌, ◌^◌, ◌≡◌, refl, sym, ap, subst, ◌∙◌, true, false, List, [], ◌++◌, some, length, arith,
}
use nqbook.Abi.{Mbo}
use nqbook.Nlib.{Nlib}
use nqbook.Nlib.SingleQueue.{SingleQueue}
use nqbook.Feature.Double.{Double}
use nqbook.Feature.Instances.{Instances}
use nqbook.Feature.NewEngine.{Checked}
use nqbook.Feature.PipelineTable.{Setup}
use nqbook.Feature.Resolving.{columns}
use nqbook.Feature.TableRun.{TableOk}
use nqbook.Feature.TableFeed.{new_table-TableOk, of_instrument}
use nqbook.Orderbook.Application.{replay}
use nqbook.Adapter.{Phase, Adapters}
use nqbook.Adapter.Steps.{here}
use nqbook.Adapter.Rounds.{pending}
use nqbook.Adapter.Order.{Reach-InOrder}
use nqbook.Session.{done, Session, new_session, session_round}
use nqbook.Session.Steps.{
  SessionStep, adapter_acts, run_acts, ask_stop, SessionReach, at_start, later,
}
use nqbook.Session.InStep.{books_of, batched, Left, Small, InStep, moved-InStep, adapter-InStep}
use nqbook.Session.Rounds.{session_round-InStep}

module _ {nlib : Nlib} {D : Double} (P : Instances nlib D) (A : Adapters) (Q : SingleQueue Mbo)
    (c : Setup P) (batch : ℕ) (a : A.Instance) (capacity : ℕ) where
  SessionStep-InStep :
      {s s' : Session P A Q}
      → Checked c.templates (columns P c)
      → Small A Q
      → SessionStep P A Q c batch s s'
      → InStep A Q P c a capacity s
      → InStep A Q P c a capacity s'
  SessionStep-InStep ok small (adapter_acts s) k = adapter-InStep A Q P c a capacity s small k
  SessionStep-InStep ok small (run_acts s s' acts) k =
      let (t, goes, kept) = session_round-InStep P A Q c batch a capacity s s.phase ok refl k in
      let same : t ≡ s' = cc (goes, acts) in subst (InStep A Q P c a capacity) same kept
  SessionStep-InStep ok small (ask_stop s) k =
      moved-InStep A Q P c a capacity s true s.interrupted s.phase s.total s.status k.checked k.left
        refl k

  new_session-InStep : (slots : ℕ) → InStep A Q P c a capacity (new_session P A Q a capacity slots)
  unfolding new_session of_instrument replay
  new_session-InStep slots = record {
    reached = here;
    numbered = tt;
    shown = new_table-TableOk P c slots;
    checked = λ h. cc;
    left = λ l. absurd l;
    counted = refl;
  }

  pub SessionReach-InStep :
      (slots : ℕ) {s : Session P A Q}
      → Checked c.templates (columns P c)
      → Small A Q
      → SessionReach P A Q c batch (new_session P A Q a capacity slots) s
      → InStep A Q P c a capacity s
  SessionReach-InStep slots ok small at_start = new_session-InStep slots
  SessionReach-InStep slots ok small (later r step) =
      SessionStep-InStep ok small step (SessionReach-InStep slots ok small r)

  -- Whatever the scheduler, on a catalog as AddSampler checks it and an adapter whose instruments are
  -- below 2 ^ 32 - 1, the next step of Run returns: no run reads past the end of the table.
  pub session_round-returns :
      (slots : ℕ) {s : Session P A Q}
      → Checked c.templates (columns P c)
      → Small A Q
      → SessionReach P A Q c batch (new_session P A Q a capacity slots) s
      → (s' : Session P A Q) × (session_round P A Q c batch s s.phase ≡ some s')
  session_round-returns slots {s} ok small r =
      let (s', goes, k) =
        session_round-InStep P A Q c batch a capacity s s.phase ok refl
          (SessionReach-InStep slots ok small r) in
      (s', goes)

  -- Whatever the scheduler, on a catalog as AddSampler checks it and an adapter whose instruments are
  -- below 2 ^ 32 - 1: behind a Run that was not interrupted, the adapter has ended, every event that
  -- it returned has been applied, in order, the table is in step over the orders that these events
  -- leave at each instrument, and Run has counted them.
  pub done_complete :
      (slots : ℕ) {s : Session P A Q}
      → Checked c.templates (columns P c)
      → Small A Q
      → SessionReach P A Q c batch (new_session P A Q a capacity slots) s
      → s.phase ≡ done
      → s.interrupted ≡ false
      → (s.world.engine.ended ≡ true)
        × (s.world.taken ≡ s.world.returned)
        × TableOk P (columns P c) s.table (books_of s.world.returned)
        × (s.total % 2 ^ 64 ≡ length s.world.returned % 2 ^ 64)
  done_complete slots {s} ok small r over clean =
      let k = SessionReach-InStep slots ok small r in
      let (ended, empty) = k.left (subst Left (sym over) tt) clean in
      let order = Reach-InOrder A Q a capacity k.reached in
      let all : s.world.taken ≡ s.world.returned =
        sym (append-nil s.world.taken)
        ∙ ap (λ (l : List Mbo). s.world.taken ++ (l ++ [])) (sym empty)
        ∙ ap (λ (p : Phase). s.world.taken ++ (Q.items s.world.engine.queue ++ pending p))
            (sym (order.ended_finished ended))
        ∙ order.conserved in
      (
        ended,
        all,
        subst (λ (ms : List Mbo). TableOk P (columns P c) s.table (books_of ms)) all k.shown,
        omega (arith, k.counted, ap batched over, ap length all),
      )
