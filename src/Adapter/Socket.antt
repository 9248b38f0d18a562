-- ===== src/Adapter/Socket.antt =====
-- The constructor and the destructor of `ZMQAdapter`, src/adapter.cpp lines 146 to 155 and 188 to
-- 217. The library of the socket is a parameter.
pub mod Closing
use time_agent.Base.{Bool, true, false, List, [], ◌∷◌, ◌++◌, Option, none, some, Bytes, ◌>>=◌}
use time_agent.Base.Int.{ℤ}
use time_agent.Config.{ZmqConfig}

-- The socket with its context; `none` where a call throws.
pub record Zmq : Type 1 where
  pub Socket : Type 0
  pub create : Option Socket
  pub set_sndhwm : Socket → ℤ → Option Socket
  pub set_linger : Socket → ℤ → Option Socket
  pub connect : Socket → Bytes → Option Socket

-- An `int` of the configuration; `unset` is what one with no initialiser happens to hold.
abbrev int_or : ℤ → Option ℤ → ℤ
int_or unset none = unset
int_or unset (some n) = n

module _ (z : Zmq) (unset : ℤ) where
  open z use {Socket, create, set_sndhwm, set_linger, connect}

  unfoldable pub construct : ZmqConfig → Option Socket
  construct config = do
    s ← create
    s ← set_sndhwm s (int_or unset config.queue_size)
    s ← set_linger s (int_or unset config.timeout_after_close_ms)
    connect s config.endpoint

-- How a call ends in the destructor.
pub data Outcome : Type 0 where
  returns zmq_error other_exception : Outcome

-- What becomes of the two members: closing and shutting down, and the destruction of the objects.
pub data Call : Type 0 where
  close release_sender shutdown release_context : Call

-- The pointers `sender_` and `context_`, whether they are set.
pub record Members : Type 0 where
  pub sender : Bool
  pub context : Bool

-- A block of the destructor: what is left of the members, the calls, and whether it was left by an
-- exception that only the outer handlers catch.
abbrev pub Block : Type 0
Block = Members × (List Call × Bool)

abbrev sender_closed : Outcome → Members → Block
sender_closed returns m = (record m { sender = false }, (close ∷ release_sender ∷ [], false))
sender_closed zmq_error m = (record m { sender = false }, (close ∷ release_sender ∷ [], false))
sender_closed other_exception m = (m, (close ∷ [], true))

abbrev context_shut : Outcome → Members → Block
context_shut returns m = (record m { context = false }, (shutdown ∷ release_context ∷ [], false))
context_shut zmq_error m = (record m { context = false }, (shutdown ∷ release_context ∷ [], false))
context_shut other_exception m = (m, (shutdown ∷ [], true))

abbrev if_set : Bool → (Members → Block) → Members → Block
if_set true f m = f m
if_set false f m = (m, ([], false))

abbrev then_block : Block → (Members → Block) → Block
then_block (m, (cs, true)) next = (m, (cs, true))
then_block (m, (cs, false)) next = let (m', (ds, thrown)) = next m in (m', (cs ++ ds, thrown))

-- The body: both blocks; an exception that leaves a block is caught behind them.
unfoldable pub destroy_body : Outcome → Outcome → Members → Block
destroy_body closing shutting m =
    then_block (if_set m.sender (sender_closed closing) m)
      (λ m'. if_set m'.context (context_shut shutting) m')

-- The destruction of the members that are still set, the last one first.
abbrev release_sender_of : Bool → List Call
release_sender_of true = release_sender ∷ []
release_sender_of false = []

abbrev release_context_of : Bool → List Call
release_context_of true = release_context ∷ []
release_context_of false = []

-- The whole destructor.
unfoldable pub destroy : Outcome → Outcome → Members → List Call
unfolding destroy_body
destroy closing shutting m =
    let (m', (cs, thrown)) = destroy_body closing shutting m in
    cs ++ (release_sender_of m'.sender ++ release_context_of m'.context)
