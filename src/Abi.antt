-- ===== src/Abi.antt =====
-- shared/nqcppsdk/nq/abi.h: the market-by-order record and its codes.
use nqbook.Prelude.{ℕ, Bool, ◌==◌}
use nqbook.Prelude.Int.{ℤ}

-- enum nq_side
abbrev pub bid : ℕ
bid = 0

abbrev pub ask : ℕ
ask = 1

-- enum nq_action
abbrev pub add : ℕ
add = 0

abbrev pub cancel : ℕ
cancel = 1

abbrev pub modify : ℕ
modify = 2

abbrev pub trade : ℕ
trade = 3

abbrev pub clear : ℕ
clear = 4

-- struct nq_mbo; `id`, `instrument`, `side` and `action` are unsigned, the rest is int64_t
pub record Mbo : Type 0 where
  pub ts : ℤ
  pub id : ℕ
  pub price : ℤ
  pub qty : ℤ
  pub instrument : ℕ
  pub side : ℕ
  pub action : ℕ

-- the test `s == NQ_BID`
abbrev pub is_bid : ℕ → Bool
is_bid s = s == bid
