-- ===== src/Queue/Interface.antt =====
-- queue/queue.go: the interface through which the entries and the admin server use a queue, and
-- UnitedQueue behind it.
use uq.Prelude.{ℕ, Bytes, List, ℤ, pos_part, false}
use uq.Utils.Errors.{Result, Error}
use uq.Queue.Deps.{Deps, World}
use uq.Queue.Topic.{Outcome, returns, blocks}
use uq.Queue.UnitedQueue.{
  UnitedQueue, queue_push, multi_push, queue_pop, multi_pop, queue_confirm, multi_confirm,
}
use uq.Queue.UnitedQueue.Admin.{Stat, create, queue_stat, queue_empty}
use uq.Queue.UnitedQueue.Remove.{queue_remove, queue_close}

-- A value of `Q` is all that a queue works on. `now` is the clock that a pop reads.
pub record MessageQueue (Q : Type 0) : Type 0 where
  pub push : Bytes → Bytes → Q → Result Error (Unit {0}) × Q
  pub multi_push : Bytes → List Bytes → Q → Result Error (Unit {0}) × Q
  pub pop : Bytes → ℕ → Q → Result Error (Bytes × Bytes) × Q
  pub multi_pop : Bytes → ℤ → ℕ → Q → Result Error (List (Bytes × Bytes)) × Q
  pub confirm : Bytes → Q → Result Error (Unit {0}) × Q
  pub multi_confirm : List Bytes → Q → List (Result Error (Unit {0})) × Q
  pub create : Bytes → Bytes → Q → Outcome (Result Error (Unit {0}) × Q)
  pub empty : Bytes → Q → Result Error (Unit {0}) × Q
  pub remove : Bytes → Q → Outcome (Result Error (Unit {0}) × Q)
  pub stat : Bytes → Q → Result Error Stat
  pub close : Q → Q

-- A queue with its world.
pub record Live (S : Type 0) : Type 0 where
  pub queue : UnitedQueue
  pub world : World S

abbrev live_outcome :
    {S : Type 0}
    → Outcome (Result Error (Unit {0}) × UnitedQueue × World S)
    → Outcome (Result Error (Unit {0}) × Live S)
live_outcome (returns (r, u, w)) = returns (r, record { queue = u; world = w })
live_outcome blocks = blocks

module _ {S : Type 0} (deps : Deps S) where
  abbrev in_queue : {A : Type 0} → World S → A × UnitedQueue → A × Live S
  in_queue w (a, u) = (a, record { queue = u; world = w })

  abbrev in_world :
      Result Error (Unit {0}) × UnitedQueue × World S → Result Error (Unit {0}) × Live S
  in_world (r, u, w) = (r, record { queue = u; world = w })

  abbrev closed : UnitedQueue × World S → Live S
  closed (u, w) = record { queue = u; world = w }

  -- UnitedQueue as a MessageQueue.
  abbrev pub united : MessageQueue (Live S)
  united = record {
    push = λ key d q. in_world (queue_push deps key d q.queue q.world);
    multi_push = λ key ds q. in_world (multi_push deps key ds q.queue q.world);
    pop = λ key now q. in_queue q.world (queue_pop deps key now q.queue q.world);
    multi_pop =
        λ key n now q. in_queue q.world (multi_pop deps key (pos_part n) now q.queue q.world);
    confirm = λ key q. in_queue q.world (queue_confirm deps key q.queue);
    multi_confirm = λ keys q. in_queue q.world (multi_confirm deps keys q.queue);
    create = λ key arg q. live_outcome (create deps key arg false q.queue q.world);
    empty = λ key q. in_world (queue_empty deps key q.queue q.world);
    remove = λ key q. live_outcome (queue_remove deps key false q.queue q.world);
    stat = λ key q. queue_stat deps key q.queue;
    close = λ q. closed (queue_close deps q.queue q.world);
  }
