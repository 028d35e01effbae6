-- ===== src/Feature/Instances.antt =====
-- nq::host::PluginInstance: the code of a loaded plugin, a parameter. It reads the book through a
-- view, and always fills its own columns.
use nqbook.Prelude.{ℕ, ◌≡◌, List, length}
use nqbook.Prelude.Int.{ℤ}
use nqbook.Nlib.{Nlib}
use nqbook.Orderbook.Book.{Book}
use nqbook.Feature.Double.{Double}

-- nq_event
pub record Event : Type 0 where
  pub ts : ℤ
  pub id : ℕ
  pub price : ℤ
  pub qty : ℤ
  pub filled : ℤ
  pub side : ℕ
  pub action : ℕ

-- nq_control, with its kind NQ_CONTROL_RESET
pub record Control : Type 0 where
  pub kind : ℕ
  pub ts : ℤ

abbrev pub control_reset : ℕ
control_reset = 0

-- nq::Instrument; the symbol is its characters
pub record Instrument : Type 0 where
  pub id : ℕ
  pub symbol : List ℕ
  pub tick_size : ℤ
  pub lot_size : ℤ

-- A plugin has its parameters with it; `create` is its Create on them and on those of an instrument.
pub record Instances (nlib : Nlib) (D : Double) : Type 1 where
  pub Plugin : Type 0
  pub Instance : Type 0
  pub schema_ncol : Plugin → ℕ
  pub create : Plugin → Instrument → Instance
  pub ncol : Instance → ℕ
  pub read : Instance → Book nlib → List (Double.Value D) × Instance
  pub on_event : Instance → Event → Book nlib → Instance
  pub on_control : Instance → Control → Instance
  pub ncol-create : (p : Plugin) (s : Instrument) → ncol (create p s) ≡ schema_ncol p
  pub length-read : (i : Instance) (b : Book nlib) → length (read i b).0 ≡ ncol i
  pub ncol-read : (i : Instance) (b : Book nlib) → ncol (read i b).1 ≡ ncol i
  pub ncol-on_event : (i : Instance) (e : Event) (b : Book nlib) → ncol (on_event i e b) ≡ ncol i
  pub ncol-on_control : (i : Instance) (c : Control) → ncol (on_control i c) ≡ ncol i
