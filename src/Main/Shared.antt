-- ===== src/Main/Shared.antt =====
-- The state that the tasks of src/main.rs share for one network, with the nodes behind it. Other tasks run while
-- a task waits for a node, so a call of a node may change all of it.
use reorg_playground.Prelude.{ℕ, Option, none, some, List, Map}
use reorg_playground.State.{Cache}
use reorg_playground.Types.{TreeInfo}

-- `backends` are the bitcoin nodes, `sent_changes` is what was sent into `cache_changed_tx`, `miner_queue` what
-- waits in the channel of `miner_id_tx`, and `now` is the clock.
pub record Server (B D G F : Type 0) : Type 0 where
  pub backends : B
  pub db : D
  pub tree : TreeInfo G
  pub caches : Map (Cache F)
  pub sent_changes : List ℕ
  pub miner_queue : List ℕ
  pub now : ℕ

-- `none` is a panic, after which a task does no more.
infixl 5 ◌>>=◌
abbrev pub ◌>>=◌ : {A B : Type 0} → Option A → (A → Option B) → Option B
none >>= f = none
some a >>= f = f a
