-- ===== src/Adapter/Socket/Closing.antt =====
-- What the destructor of `ZMQAdapter` releases.
use time_agent.Base.{Bool, true, false, List, [], ◌∷◌, ◌≡◌, arith, if◌then◌else◌}
use time_agent.Adapter.Socket.{
  Outcome, returns, zmq_error, other_exception, Call, close, release_sender, shutdown,
  release_context, Members, destroy,
}

abbrev pub is_release : Call → Bool
is_release release_sender = true
is_release release_context = true
is_release close = false
is_release shutdown = false

abbrev pub releases : List Call → List Call
releases [] = []
releases (c ∷ cs) = if is_release c then c ∷ releases cs else releases cs

-- What the members that are set own, the socket before its context.
abbrev pub owned : Members → List Call
owned m =
    let context = if m.context then release_context ∷ [] else [] in
    if m.sender then release_sender ∷ context else context

-- However the calls of the library end, an exception of a kind that the inner handlers do not catch
-- included, the destructor releases each object that the adapter has exactly once, the socket before
-- the context that it belongs to, and nothing else.
pub destroy-releases :
    (closing shutting : Outcome) (m : Members) → releases (destroy closing shutting m) ≡ owned m
unfolding destroy
destroy-releases returns returns m = ground arith
destroy-releases returns zmq_error m = ground arith
destroy-releases returns other_exception m = ground arith
destroy-releases zmq_error returns m = ground arith
destroy-releases zmq_error zmq_error m = ground arith
destroy-releases zmq_error other_exception m = ground arith
destroy-releases other_exception shutting m = ground arith
