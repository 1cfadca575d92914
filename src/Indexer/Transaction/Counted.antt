-- ===== src/Indexer/Transaction/Counted.antt =====
-- The counters that crates/zalkanes-indexer/src/lib.rs keeps while a block is processed, and what a
-- counted message leaves of them.
use zalkanes.Base.{ℕ, ◌+◌, ◌*◌, ◌≤◌, ◌<◌, ◌≡◌, List, [], ◌∷◌, ◌++◌, false, length, All, arith}
use zalkanes.Core.{Execution}
use zalkanes.Indexer.Transaction.{Progress, count_deploy, count_carrier, count_message, is_over_cap}
use zalkanes.Indexer.Transaction.Writes.{UpsertFits, DeleteFits}

abbrev pub total_fuel : List Execution → ℕ
total_fuel [] = 0
total_fuel (e ∷ es) = e.fuel_used + total_fuel es

-- The fuel of the executions is what the block has used, within the block's and the transaction's
-- budgets; every execution and every deployment had a message, at most 4096 of them; a commit has at
-- most 256 writes for each execution, and their keys and values fit.
pub record IsWithin (p : Progress) : Type 0 where
  pub fuel_counted : total_fuel p.executions ≡ p.limits.fuel_used
  pub block_fuel : p.limits.fuel_used ≤ 1000000000
  pub tx_fuel : p.tx_fuel_used ≤ 100000000
  pub effects_counted : length p.executions + length p.deployed ≤ p.limits.messages
  pub effects : length p.executions + length p.deployed ≤ 4096
  pub writes : length p.commit.upserts + length p.commit.deletes ≤ 256 * length p.executions
  pub upserts_fit : All UpsertFits p.commit.upserts
  pub deletes_fit : All DeleteFits p.commit.deletes

-- A message was counted that has had no effect yet.
pub record HasRoom (p : Progress) : Type 0 where
  pub within : IsWithin p
  pub room : length p.executions + length p.deployed < p.limits.messages
  pub under : p.limits.messages ≤ 4096

pub total_fuel-append :
    (xs ys : List Execution) → total_fuel (xs ++ ys) ≡ total_fuel xs + total_fuel ys
total_fuel-append [] ys = omega arith
total_fuel-append (x ∷ xs) ys = omega (arith, total_fuel-append xs ys)

pub count_deploy-HasRoom : (p : Progress) (n : ℕ) → HasRoom p → HasRoom (count_deploy p n)
unfolding count_deploy
count_deploy-HasRoom p n h =
    let w = h.within in
    record {
      within = record {
        fuel_counted = w.fuel_counted;
        block_fuel = w.block_fuel;
        tx_fuel = w.tx_fuel;
        effects_counted = w.effects_counted;
        effects = w.effects;
        writes = w.writes;
        upserts_fit = w.upserts_fit;
        deletes_fit = w.deletes_fit;
      };
      room = h.room;
      under = h.under;
    }

pub count_carrier-HasRoom : (p : Progress) (n : ℕ) → HasRoom p → HasRoom (count_carrier p n)
unfolding count_carrier
count_carrier-HasRoom p n h =
    let w = h.within in
    record {
      within = record {
        fuel_counted = w.fuel_counted;
        block_fuel = w.block_fuel;
        tx_fuel = w.tx_fuel;
        effects_counted = w.effects_counted;
        effects = w.effects;
        writes = w.writes;
        upserts_fit = w.upserts_fit;
        deletes_fit = w.deletes_fit;
      };
      room = h.room;
      under = h.under;
    }

-- A counted message leaves room for its effect, unless it is over the cap.
pub count_message-IsWithin : (p : Progress) → IsWithin p → IsWithin (count_message p)
unfolding count_message
count_message-IsWithin p w = record {
  fuel_counted = w.fuel_counted;
  block_fuel = w.block_fuel;
  tx_fuel = w.tx_fuel;
  effects_counted = omega (arith, w.effects_counted);
  effects = w.effects;
  writes = w.writes;
  upserts_fit = w.upserts_fit;
  deletes_fit = w.deletes_fit;
}

pub count_message-HasRoom :
    (p : Progress) → is_over_cap (count_message p) ≡ false → IsWithin p → HasRoom (count_message p)
unfolding count_message is_over_cap
count_message-HasRoom p under w = record {
  within = count_message-IsWithin p w;
  room = omega (arith, w.effects_counted);
  under = ground arith;
}
