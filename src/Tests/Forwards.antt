-- ===== src/Tests/Forwards.antt =====
-- Two listeners that share one permit.
use locho.Base.{ℕ, ◌+◌, List, [], ◌∷◌, All, ◌≡◌, refl}
use locho.Forward.{
  Listener, connection_accepted, bound, take_permits, serve, happens, IsReachable, at_start, after,
}
use locho.Forward.Permits.{IsBalanced, all_running, reachable-IsBalanced}

abbrev two : List Listener
two = bound ∷ bound ∷ []

-- The first listener takes the permit, and the second drops its stream.
abbrev first_accepted : List Listener
first_accepted = (happens 0 connection_accepted two 1).0

abbrev permits_left : ℕ
permits_left = (happens 0 connection_accepted two 1).1

abbrev both_accepted : List Listener
both_accepted = (happens 1 connection_accepted first_accepted permits_left).0

abbrev permits_then : ℕ
permits_then = (happens 1 connection_accepted first_accepted permits_left).1

both-IsReachable : IsReachable 2 1 both_accepted permits_then
both-IsReachable =
    after first_accepted permits_left 1 connection_accepted
      (after two 1 0 connection_accepted at_start)

dropped : all_running both_accepted ≡ 1
unfolding happens serve take_permits
dropped = refl

reachable-IsBalanced_example :
    All IsBalanced both_accepted × (permits_then + all_running both_accepted ≡ 1)
reachable-IsBalanced_example = reachable-IsBalanced 2 1 both_accepted permits_then both-IsReachable
