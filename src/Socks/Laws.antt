-- ===== src/Socks/Laws.antt =====
-- What a connection through the proxy of a tailnet comes to.
use tailhopper.Base.{ℕ, ℤ, Str, ◌≡◌, ◌≢◌, refl, Bool, Option, none, some}
use tailhopper.Ts.State.{State, connected, Error, unable_to_dial}
use tailhopper.Ts.Host.{Host}
use tailhopper.Ts.Tailnet.{Tailnet, Machine, Hooks, new_tailnet}
use tailhopper.Ts.Logout.{dial, nil_dereference}
use tailhopper.Ts.Invariant.{Reach, Reach-dial}
use tailhopper.Logging.Handler.{LogRecord}
use tailhopper.Socks.{
  DialEnd, Listened, Server, made, new_server, dialer_of, logging_dialer, attempt_record,
  failed_record, established_record, after_dial, made_on, listen_addr, not_bound, bound,
}

module _ {R : Type 0} (log : LogRecord → R → R) (server_dial : ℕ → Str → Str → DialEnd) where
  -- What a connection comes to at a tailnet in that state and with that server, and what it leaves
  -- in the log.
  pub data ThroughProxy (k : State) (server : Option ℕ) (took : ℤ) (network addr : Str) (sink : R)
      : Option (DialEnd × R) → Type 0 where
    turned_away :
        k ≢ connected
        → ThroughProxy k server took network addr sink (
            some (
              record { conn = none; err = some (unable_to_dial k) },
              log
                  (failed_record network addr took (unable_to_dial k))
                  (log (attempt_record network addr) sink),
            ))
    failed :
        (s : ℕ) (e : Error)
        → k ≡ connected
        → server ≡ some s
        → (server_dial s network addr).err ≡ some e
        → ThroughProxy k server took network addr sink (
            some (
              record { conn = none; err = some e },
              log (failed_record network addr took e) (log (attempt_record network addr) sink),
            ))
    passed :
        (s : ℕ)
        → k ≡ connected
        → server ≡ some s
        → (server_dial s network addr).err ≡ none
        → ThroughProxy k server took network addr sink (
            some (
              record { conn = (server_dial s network addr).conn; err = none },
              log (established_record network addr took) (log (attempt_record network addr) sink),
            ))

  module _ (took : ℤ) (network addr : Str) (sink : R) where
    at_server :
        (s : ℕ) (d : DialEnd) (o : Option Error)
        → (server_dial s network addr) ≡ d
        → d.err ≡ o
        → ThroughProxy connected
            (some s)
            took
            network
            addr
            sink
            (after_dial log network addr took (some d) (log (attempt_record network addr) sink))
    unfolding after_dial
    at_server s d none e g = rw g (rw (← e) (passed s refl refl (rw e g)))
    at_server s d (some x) e g = rw g (failed s x refl refl (rw e g))

    through :
        (t : Tailnet) (k : State) (o : Option ℕ)
        → t.current_state ≡ k
        → t.server ≡ o
        → dial t network addr ≢ nil_dereference
        → ThroughProxy k o took network addr sink
            (logging_dialer log (dialer_of server_dial t) took network addr sink)
    unfolding logging_dialer dialer_of
    through t connected none e f n = absurd (n (rw e (rw f refl)))
    through t connected (some s) e f n = rw e (rw f (at_server s _ _ refl refl))
    through t _ o e f n = rw e (turned_away (λ q. cc))

  made_dialer :
      (listen : Str → Listened) (t : Tailnet) (server : Server R)
      → new_server log listen (dialer_of server_dial t) t.socks_port ≡ made server
      → server.dialer ≡ logging_dialer log (dialer_of server_dial t)
  unfolding new_server
  made_dialer listen t server e = go (listen (listen_addr t.socks_port)) e
    where
      go :
          (l : Listened)
          → made_on log (dialer_of server_dial t) l ≡ made server
          → server.dialer ≡ logging_dialer log (dialer_of server_dial t)
      go (not_bound x) e = cc
      go (bound a) e = cc

module _ {R S : Type 0} (log : LogRecord → S → S) (server_dial : ℕ → Str → Str → DialEnd)
    (h : Hooks R) where
  -- From a new tailnet on, after any sequence of steps, a connection through a proxy that
  -- `NewServer` has made for it never panics: in a state other than connected it is turned away
  -- with the error of `Dial`; and in the connected state it is what the `Dial` of the server of the
  -- tailnet gives, with no connection if there is an error. The attempt is logged, and then its
  -- failure with the error or its success.
  pub proxied_dial :
      (id : ℤ) (dir host claimed err : Str) (enabled : Bool) (port : ℤ) (x : Host) (r : R)
      {m : Machine R} (listen : Str → Listened) (server : Server S) (took : ℤ) (network addr : Str)
      (sink : S)
      → Reach h
          (record {
            tailnet = new_tailnet id dir host claimed err enabled port;
            host = x;
            outer = r;
          })
          m
      → new_server log listen (dialer_of server_dial m.tailnet) m.tailnet.socks_port ≡ made server
      → ThroughProxy log server_dial m.tailnet.current_state m.tailnet.server took network addr sink
          (server.dialer took network addr sink)
  proxied_dial id dir host claimed err enabled port x r {m} listen server took network addr sink
        path e =
      rw (made_dialer log server_dial listen m.tailnet server e) (
        through log server_dial took network addr sink m.tailnet _ _ refl refl
          (Reach-dial h id dir host claimed err enabled port x r network addr path))
