-- ===== src/Ts/React/Kept.antt =====
-- A notification keeps a relation with the outer state that the hooks keep.
use tailhopper.Base.{
  ℤ, Str, is_empty, str_eq, ◌≡◌, ◌≢◌, refl, sym, subst, Bool, true, false, ◌||◌, Bool-cases, inl,
  inr, Option, none, some, List, [], ◌∷◌, All, arith,
}
use tailhopper.Ts.State.{
  State, connected, needs_login, needs_machine_auth, started, user_disabled, is_user_disabled,
  is_terminal, Error, already_claimed, message, already_claimed_text,
}
use tailhopper.Ts.Ipn.{IpnState, Node}
use tailhopper.Ts.Processor.{
  Op, IpnProcessor, process_ipn, always, one_of, process, run_always, run_one_of,
}
use tailhopper.Ts.Tailnet.{Machine, Hooks, notify_terminal_error_change}
use tailhopper.Ts.Persist.{
  Persist, IsKept, Holds, called_with, notify-Holds, record_user_state-Holds,
}
use tailhopper.Ts.Stop.{CloseCalls}
use tailhopper.Ts.React.{
  is_needs_login, is_needs_machine_auth, is_running, login_at, maybe_transition_to_needs_login,
  maybe_transition_to_needs_machine_auth, maybe_transition_to_connected, update_peers,
  maybe_update_self_node_hostname, hostname_of, set_error_text, disable_user, enter_terminal,
  set_terminal_error, after_claim, maybe_claim_magic_dns_suffix, process_in, terminal_cleanup,
  react_to_ipn_state_change,
}

not_empty : (s : Str) → is_empty s ≡ false → s ≢ []
not_empty s e = ground arith

empty : (s : Str) → is_empty s ≡ true → s ≡ []
empty s e = ground arith

claimed_text : (s : Str) → already_claimed_text s ≢ []
unfolding already_claimed_text
claimed_text s e = cc

module _ {R : Type 0} (h : Hooks R) (id : ℤ) (Q : Persist → R → Type 0) (k : IsKept h id Q) where
  set_error_text-Holds :
      (text : Str) (m : Machine R)
      → text ≢ []
      → Holds id Q m
      → Holds id Q (set_error_text h text m).0
  unfolding set_error_text notify_terminal_error_change
  set_error_text-Holds text m ne (i, q) = elim (Bool-cases (str_eq m.tailnet.terminal_error text)) [
    | inl e ↦ rw e (i, q)
    | inr e ↦ rw e (
        called_with h id Q k h.on_terminal_error_change text
          (record m { tailnet = record m.tailnet { terminal_error = text } }) i
          (k.error _ _ text ne q))
  ]

  disable_user-Holds : (m : Machine R) → Holds id Q m → Holds id Q (disable_user h m).0
  unfolding disable_user
  disable_user-Holds m v = elim (Bool-cases (is_user_disabled m.tailnet.user_state)) [
    | inl e ↦ rw e v
    | inr e ↦ rw e (record_user_state-Holds h id Q k user_disabled m v)
  ]

  enter_terminal-Holds : (m : Machine R) → Holds id Q m → Holds id Q (enter_terminal h m).0
  unfolding enter_terminal
  enter_terminal-Holds m v = elim (Bool-cases (is_terminal m.tailnet.current_state)) [
    | inl e ↦ rw e v
    | inr e ↦ rw e v
  ]

  set_terminal_error-Holds :
      (text : Str) (m : Machine R)
      → text ≢ []
      → Holds id Q m
      → Holds id Q (set_terminal_error h text m).0
  unfolding set_terminal_error
  set_terminal_error-Holds text m ne v =
      enter_terminal-Holds _ (disable_user-Holds _ (set_error_text-Holds text m ne v))

  -- What becomes of an answer that the relation admits.
  after_claim-Holds :
      (s : Str) (m : Machine R) (r : R) (e : Option Error)
      → m.tailnet.id ≡ id
      → (e ≡ none
          → Q
              (record {
                claimed = s;
                wish = m.tailnet.user_state;
                error = m.tailnet.terminal_error;
              })
              r)
      → (e ≢ none → Holds id Q (record m { outer = r }))
      → Holds id Q (after_claim h s m (r, e)).0
  unfolding after_claim
  after_claim-Holds s m r none i q v = (i, q refl)
  after_claim-Holds s m r (some (already_claimed t)) i q v =
      set_terminal_error-Holds (already_claimed_text t) (record m { outer = r }) (claimed_text t)
        (v (λ e. cc))
  after_claim-Holds s m r (some (message t)) i q v = v (λ e. cc)

  claims-Holds :
      (s : Str) (m : Machine R)
      → s ≢ []
      → m.tailnet.claimed_magic_dns_suffix ≡ []
      → Holds id Q m
      → Holds id Q (after_claim h s m (h.claim m.tailnet.id s m.outer)).0
  claims-Holds s m ne none_yet (i, q) =
      subst (λ x. Holds id Q (after_claim h s m (h.claim x s m.outer)).0) (sym i)
        (after_claim-Holds s m (h.claim id s m.outer).0 (h.claim id s m.outer).1 i
          (λ e. k.granted _ m.outer s q none_yet ne e)
          (λ e. (i, k.refused _ m.outer s q none_yet ne e)))

  maybe_claim-Holds :
      (s : IpnState) (m : Machine R)
      → Holds id Q m
      → Holds id Q (maybe_claim_magic_dns_suffix h s m).0
  unfolding maybe_claim_magic_dns_suffix
  maybe_claim-Holds s m v =
      let suffix = s.magic_dns_suffix in
      let claimed = m.tailnet.claimed_magic_dns_suffix in
      elim (Bool-cases (is_empty suffix)) [
        | inl e ↦ rw e v
        | inr e ↦ rw e (elim (Bool-cases (is_empty claimed)) [
          | inr f ↦
              rw f (elim (Bool-cases (str_eq suffix claimed)) [ inl g ↦ rw g v | inr g ↦ rw g v ])
          | inl f ↦ simp f (claims-Holds suffix m (not_empty suffix e) (empty claimed f) v)
        ])
      ]

  login_at-Holds : (url : Option Str) (m : Machine R) → Holds id Q m → Holds id Q (login_at url m).0
  unfolding login_at
  login_at-Holds none m v = v
  login_at-Holds (some url) m v = elim (Bool-cases (is_empty url)) [
    | inl e ↦ rw e v
    | inr e ↦ rw e v
  ]

  -- An operation of the processor keeps the relation.
  abbrev OpKeeps : Op (Machine R) → Type 0
  OpKeeps op = (s : IpnState) (m : Machine R) → Holds id Q m → Holds id Q (op s m).0

  to_login-OpKeeps : OpKeeps maybe_transition_to_needs_login
  unfolding maybe_transition_to_needs_login
  to_login-OpKeeps s m v = elim (Bool-cases (is_needs_login s.state)) [
    | inl e ↦ rw e (login_at-Holds s.browse_to_url m v)
    | inr e ↦ rw e v
  ]

  to_auth-OpKeeps : OpKeeps maybe_transition_to_needs_machine_auth
  unfolding maybe_transition_to_needs_machine_auth
  to_auth-OpKeeps s m v = elim (Bool-cases (is_needs_machine_auth s.state)) [
    | inl e ↦ rw e v
    | inr e ↦ rw e v
  ]

  to_connected-OpKeeps : OpKeeps maybe_transition_to_connected
  unfolding maybe_transition_to_connected
  to_connected-OpKeeps s m v = elim (Bool-cases (is_running s.state)) [
    | inl e ↦ rw e v
    | inr e ↦ rw e v
  ]

  peers-OpKeeps : OpKeeps update_peers
  unfolding update_peers
  peers-OpKeeps s m v = v

  hostname_of-Holds :
      (n : Option Node) (m : Machine R) → Holds id Q m → Holds id Q (hostname_of n m).0
  unfolding hostname_of
  hostname_of-Holds none m v = v
  hostname_of-Holds (some n) m v =
      elim (Bool-cases
        (is_empty n.computed_name || str_eq n.computed_name m.tailnet.self_node_hostname)) [
          | inl e ↦ rw e v
          | inr e ↦ rw e v
        ]

  hostname-OpKeeps : OpKeeps maybe_update_self_node_hostname
  unfolding maybe_update_self_node_hostname
  hostname-OpKeeps s m v = hostname_of-Holds s.self_node m v

  run_always-Holds :
      (s : IpnState) (ops : List (Op (Machine R))) (m : Machine R) (c : Bool)
      → All OpKeeps ops
      → Holds id Q m
      → Holds id Q (run_always s ops m c).0
  unfolding run_always
  run_always-Holds s [] m c a v = v
  run_always-Holds s (op ∷ ops) m c a v = run_always-Holds s ops _ _ a.1 (a.0 s m v)

  run_one_of-Holds :
      (s : IpnState) (ops : List (Op (Machine R))) (m : Machine R) (c : Bool)
      → All OpKeeps ops
      → Holds id Q m
      → Holds id Q (run_one_of s ops m c).0
  unfolding run_one_of
  run_one_of-Holds s [] m c a v = v
  run_one_of-Holds s (op ∷ ops) m c a v = elim (Bool-cases (op s m).1) [
    | inl e ↦ rw e (a.0 s m v)
    | inr e ↦ rw e (run_one_of-Holds s ops _ c a.1 (a.0 s m v))
  ]

  process-Holds :
      (p : IpnProcessor (Machine R)) (m : Machine R)
      → All OpKeeps p.always_ops
      → All OpKeeps p.one_of_ops
      → Holds id Q m
      → Holds id Q (process p m).0
  unfolding process
  process-Holds p m a o v =
      run_one_of-Holds p.ipn_state p.one_of_ops _ _ o
        (run_always-Holds p.ipn_state p.always_ops m false a v)

  process_in-Holds :
      (state : State) (s : IpnState) (m : Machine R)
      → Holds id Q m
      → Holds id Q (process_in h state s m).0
  unfolding process_in process_ipn always one_of
  process_in-Holds connected s m v =
      process-Holds _ m (maybe_claim-Holds, (peers-OpKeeps, (hostname-OpKeeps, tt)))
        (to_login-OpKeeps, (to_auth-OpKeeps, tt)) v
  process_in-Holds started s m v =
      process-Holds _ m (hostname-OpKeeps, tt)
        (to_login-OpKeeps, (to_auth-OpKeeps, (to_connected-OpKeeps, tt))) v
  process_in-Holds needs_login s m v =
      process-Holds _ m (hostname-OpKeeps, tt) (to_auth-OpKeeps, (to_connected-OpKeeps, tt)) v
  process_in-Holds needs_machine_auth s m v =
      process-Holds _ m (maybe_claim-Holds, (hostname-OpKeeps, tt))
        (to_login-OpKeeps, (to_connected-OpKeeps, tt)) v
  process_in-Holds _ s m v = v

  cleanup-Holds :
      (c : CloseCalls) (m : Machine R) → Holds id Q m → Holds id Q (terminal_cleanup c m)
  unfolding terminal_cleanup
  cleanup-Holds c m v = elim (Bool-cases (is_terminal m.tailnet.current_state)) [
    | inl e ↦ rw e v
    | inr e ↦ rw e v
  ]

  pub react-Holds :
      (c : CloseCalls) (s : IpnState) (m : Machine R)
      → Holds id Q m
      → Holds id Q (react_to_ipn_state_change h c s m)
  unfolding react_to_ipn_state_change
  react-Holds c s m v =
      let p = process_in h m.tailnet.current_state s m in
      let w = cleanup-Holds c p.0 (process_in-Holds m.tailnet.current_state s m v) in
      elim (Bool-cases p.1) [ inl e ↦ rw e (notify-Holds h id Q k _ w) | inr e ↦ rw e w ]
