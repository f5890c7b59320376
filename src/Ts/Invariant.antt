-- ===== src/Ts/Invariant.antt =====
-- What holds of a tailnet between two critical sections, whatever the external calls do and in
-- whatever order commands and notifications come.
use tailhopper.Base.{ℤ, ℕ, Str, Bool, ◌≡◌, ◌≢◌, refl, Option, none, arith}
use tailhopper.Ts.State.{State, connected, has_terminal_error, logging_out}
use tailhopper.Ts.Ipn.{IpnState}
use tailhopper.Ts.Host.{Host}
use tailhopper.Ts.Tailnet.{Tailnet, Machine, Hooks, new_tailnet}
use tailhopper.Ts.Start.{StartCalls, start}
use tailhopper.Ts.Stop.{CloseCalls, stop}
use tailhopper.Ts.Stop.Laws.{IsRunning, HoldsNothing}
use tailhopper.Ts.Logout.{LogoutCalls, in_flight, logout_start, logout_end, dial, nil_dereference}
use tailhopper.Ts.React.{react_to_ipn_state_change, process_in, terminal_cleanup}
use tailhopper.Ts.React.Laws.{
  CanReach, SameHandles, process_in-CanReach, process_in-SameHandles, react-tailnet, cleanup_other,
  cleanup_terminal,
}

abbrev IsSome : Option ℕ → Type 0
IsSome o = o ≢ none

pub record Inv (t : Tailnet) : Type 0 where
  pub server : IsRunning t.current_state → t.server ≢ none
  pub watcher : IsRunning t.current_state → t.watcher ≢ none
  pub socks_proxy : IsRunning t.current_state → t.socks_proxy ≢ none
  pub logging_server : t.current_state ≡ logging_out → t.server ≢ none
  pub released : t.current_state ≡ has_terminal_error → HoldsNothing t

new_tailnet-Inv :
    (id : ℤ) (dir host claimed err : Str) (enabled : Bool) (port : ℤ)
    → Inv (new_tailnet id dir host claimed err enabled port)
unfolding new_tailnet
new_tailnet-Inv id dir host claimed err enabled port = ground arith

module _ {R : Type 0} (h : Hooks R) where
  start-Inv : (c : StartCalls) (m : Machine R) → Inv m.tailnet → Inv (start h c m).0.tailnet
  unfolding start
  start-Inv c m v = ground arith

  stop-Inv : (c : CloseCalls) (m : Machine R) → Inv m.tailnet → Inv (stop h c m).0.tailnet
  unfolding stop
  stop-Inv c m v = ground arith

  logout_start-Inv : (m : Machine R) → Inv m.tailnet → Inv (logout_start h m).0.tailnet
  unfolding logout_start
  logout_start-Inv m v = ground arith

  logout_end-Inv :
      (c : LogoutCalls) (s : ℕ) (m : Machine R)
      → Inv m.tailnet
      → Inv (logout_end h c (in_flight s) m).0.tailnet
  unfolding logout_end
  logout_end-Inv c s m v = ground arith

  settle :
      (c : CloseCalls) (k : State) (m p : Machine R)
      → Inv m.tailnet
      → m.tailnet.current_state ≡ k
      → CanReach k p.tailnet.current_state
      → SameHandles m p
      → Inv (terminal_cleanup c p).tailnet
  settle c connected m p v e r w = ground (arith, cleanup_other c p, cleanup_terminal c p)
  settle c _ m p v e r w = ground (arith, cleanup_other c p, cleanup_terminal c p)

  react-Inv :
      (c : CloseCalls) (s : IpnState) (m : Machine R)
      → Inv m.tailnet
      → Inv (react_to_ipn_state_change h c s m).tailnet
  react-Inv c s m v =
      let k = m.tailnet.current_state in
      let p = (process_in h k s m).0 in
      rw (react-tailnet h c s m)
        (settle c k m p v refl (process_in-CanReach h k s m refl) (process_in-SameHandles h k s m))

-- One critical section of a tailnet, or a change of the outer state by others. The second half of
-- `Logout` belongs to a first half that has put the tailnet into the logging-out state.
pub data Step {R : Type 0} (h : Hooks R) (m : Machine R) : Machine R → Type 0 where
  starts : (c : StartCalls) → Step h m (start h c m).0
  stops : (c : CloseCalls) → Step h m (stop h c m).0
  begins_logout : Step h m (logout_start h m).0
  ends_logout :
      (c : LogoutCalls) (s : ℕ)
      → m.tailnet.current_state ≡ logging_out
      → Step h m (logout_end h c (in_flight s) m).0
  reacts : (c : CloseCalls) (s : IpnState) → Step h m (react_to_ipn_state_change h c s m)
  others : (x : Host) (r : R) → Step h m (record m { host = x; outer = r })

pub data Reach {R : Type 0} (h : Hooks R) (m : Machine R) : Machine R → Type 0 where
  here : Reach h m m
  next : {p q : Machine R} → Reach h m p → Step h p q → Reach h m q

module _ {R : Type 0} (h : Hooks R) where
  Step-Inv : {m m' : Machine R} → Step h m m' → Inv m.tailnet → Inv m'.tailnet
  Step-Inv {m} (starts c) v = start-Inv h c m v
  Step-Inv {m} (stops c) v = stop-Inv h c m v
  Step-Inv {m} begins_logout v = logout_start-Inv h m v
  Step-Inv {m} (ends_logout c s e) v = logout_end-Inv h c s m v
  Step-Inv {m} (reacts c s) v = react-Inv h c s m v
  Step-Inv (others x r) v = v

  -- From a tailnet that satisfies `Inv`, every sequence of starts, stops, halves of a logout and
  -- notifications, with any outcome of the external calls and any changes by others in between,
  -- leads to one that does: a running tailnet has server, watcher and proxy, one that logs out has
  -- a server, and one with a fatal error has released all three.
  pub Reach-Inv : {m m' : Machine R} → Inv m.tailnet → Reach h m m' → Inv m'.tailnet
  Reach-Inv v here = v
  Reach-Inv v (next r st) = Step-Inv st (Reach-Inv v r)

  dial_safe : (t : Tailnet) (network addr : Str) → Inv t → dial t network addr ≢ nil_dereference
  unfolding dial
  dial_safe t network addr v = ground arith

  -- From a new tailnet on, after any sequence of steps, `Dial` does not dereference a nil server.
  pub Reach-dial :
      (id : ℤ) (dir host claimed err : Str) (enabled : Bool) (port : ℤ) (x : Host) (r : R)
      {m : Machine R} (network addr : Str)
      → Reach h
          (record {
            tailnet = new_tailnet id dir host claimed err enabled port;
            host = x;
            outer = r;
          })
          m
      → dial m.tailnet network addr ≢ nil_dereference
  Reach-dial id dir host claimed err enabled port x r {m} network addr path =
      dial_safe m.tailnet network addr
        (Reach-Inv (new_tailnet-Inv id dir host claimed err enabled port) path)
