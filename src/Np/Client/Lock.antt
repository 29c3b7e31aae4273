-- ===== src/Np/Client/Lock.antt =====
-- np/src/client.rs and client/port.rs: the lock on the port writers between the handler that puts
-- a message into the channel of a connection and the task that takes it out.
use nport.Prelude.{
  ℕ, zero, suc, ◌<◌, ◌≤◌, ◌≡◌, ◌≢◌, refl, Bool, true, false, Option, none, some, List, [], ◌∷◌,
  ◌++◌, length, length-append, arith,
}
use mathlib.Core.Bool.{false≢true}
use nport.Server.State.{PortMessage, close}

pub record Channel : Type 0 where
  pub capacity : ℕ
  pub queue : List PortMessage
  -- The message with which a handler is in `port_message`. It holds the lock for reading until the
  -- message is in the channel.
  pub sending : Option PortMessage
  -- The task is in its loop.
  pub running : Bool
  -- The task has ended, and the receiving end is gone.
  pub ended : Bool

abbrev pub fresh : ℕ → Channel
fresh capacity = record {
  capacity = capacity;
  queue = [];
  sending = none;
  running = true;
  ended = false;
}

-- What can happen next.
pub data Step (c : Channel) : Channel → Type 0 where
  handles : (m : PortMessage) → c.sending ≡ none → Step c (record c { sending = some m })
  sends :
      (m : PortMessage)
      → c.sending ≡ some m
      → c.ended ≡ false
      → length c.queue < c.capacity
      → Step c (record c { queue = c.queue ++ m ∷ []; sending = none })
  is_refused : c.ended ≡ true → Step c (record c { sending = none })
  takes :
      (m : PortMessage) (queue : List PortMessage)
      → c.running ≡ true
      → c.queue ≡ m ∷ queue
      → Step c (record c { queue = queue })
  -- The loop ends, as after an error of the local service.
  breaks : c.running ≡ true → Step c (record c { running = false })
  -- `port_writer_remove` takes the lock for writing, which no reader may hold.
  removes :
      c.running ≡ false
      → c.ended ≡ false
      → c.sending ≡ none
      → Step c (record c { ended = true; queue = [] })

pub data Steps (c : Channel) : Channel → Type 0 where
  here : Steps c c
  then_step : {d e : Channel} → Steps c d → Step d e → Steps c e

abbrev pub full : ℕ → List PortMessage
full zero = []
full (suc n) = full n ++ close ∷ []

length-full : (n : ℕ) → length (full n) ≡ n
length-full zero = refl
length-full (suc n) = omega (arith, length-append (full n) (close ∷ []), length-full n)

filled :
    (capacity n : ℕ)
    → n ≤ capacity
    → Steps (fresh capacity) (record (fresh capacity) { queue = full n })
filled capacity zero h = here
filled capacity (suc n) h =
    then_step (then_step (filled capacity n (omega (arith, h))) (handles close refl))
      (sends close refl refl (omega (arith, h, length-full n)))

-- The handler waits for room and the task for the lock.
abbrev pub stuck : ℕ → Channel
stuck capacity = record {
  capacity = capacity;
  queue = full capacity;
  sending = some close;
  running = false;
  ended = false;
}

no_step : (capacity : ℕ) (d : Channel) → Step (stuck capacity) d → ⊥
no_step capacity d (handles m e) = ground (arith, e)
no_step capacity d (sends m e f h) = omega (arith, h, length-full capacity)
no_step capacity d (is_refused e) = false≢true e
no_step capacity d (takes m queue r e) = false≢true r
no_step capacity d (breaks r) = false≢true r
no_step capacity d (removes r e n) = ground (arith, n)

-- Whatever the capacity of the channel is, the handler of messages and the task of a connection can
-- come to wait for each other: a state is reached in which the handler holds the lock and waits for
-- room in the channel, the task has left its loop and waits for the lock, and nothing can happen.
pub port_message_deadlock :
    (capacity : ℕ)
    → (c : Channel) × Steps (fresh capacity) c
      × (c.sending ≢ none)
      × (c.running ≡ false)
      × (c.ended ≡ false)
      × ((d : Channel) → Step c d → ⊥)
port_message_deadlock capacity = (
  stuck capacity,
  then_step (then_step (filled capacity capacity (omega arith)) (handles close refl)) (breaks refl),
  λ e. ground (arith, e),
  refl,
  refl,
  no_step capacity,
)
