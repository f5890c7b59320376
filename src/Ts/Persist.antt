-- ===== src/Ts/Persist.antt =====
-- What a tailnet has in common with its entry in the registry: the claimed suffix, the user's wish
-- and the fatal error. A relation between these and the outer state that the hooks keep is kept by
-- every method.
use tailhopper.Base.{ℤ, Str, ◌≡◌, ◌≢◌, Option, none, some, []}
use tailhopper.Ts.State.{State, UserState}
use tailhopper.Ts.Tailnet.{
  Tailnet, Machine, Hooks, call, call_with, notify, set_state, with_state, notify_user_state_change,
  record_user_state,
}

pub record Persist : Type 0 where
  pub claimed : Str
  pub wish : UserState
  pub error : Str

abbrev pub persist : Tailnet → Persist
persist t = record {
  claimed = t.claimed_magic_dns_suffix;
  wish = t.user_state;
  error = t.terminal_error;
}

-- A callback that may be nil, on the outer state.
abbrev pub run : {R : Type 0} → Option (R → R) → R → R
run none r = r
run (some f) r = f r

abbrev pub run_with : {A R : Type 0} → Option (A → R → R) → A → R → R
run_with none a r = r
run_with (some f) a r = f a r

-- The relation is kept by each hook of the tailnet with that id.
pub record IsKept {R : Type 0} (h : Hooks R) (id : ℤ) (Q : Persist → R → Type 0) : Type 0 where
  pub broadcast : (p : Persist) (r : R) → Q p r → Q p (run h.broadcast r)
  pub user :
      (p : Persist) (r : R) (u : UserState)
      → Q p r
      → Q (record p { wish = u }) (run_with h.on_user_state_change u r)
  pub error :
      (p : Persist) (r : R) (text : Str)
      → text ≢ []
      → Q p r
      → Q (record p { error = text }) (run_with h.on_terminal_error_change text r)
  pub granted :
      (p : Persist) (r : R) (s : Str)
      → Q p r
      → p.claimed ≡ []
      → s ≢ []
      → (h.claim id s r).1 ≡ none
      → Q (record p { claimed = s }) (h.claim id s r).0
  pub refused :
      (p : Persist) (r : R) (s : Str)
      → Q p r
      → p.claimed ≡ []
      → s ≢ []
      → (h.claim id s r).1 ≢ none
      → Q p (h.claim id s r).0

-- The relation on a machine whose tailnet has that id.
abbrev pub Holds : {R : Type 0} → ℤ → (Persist → R → Type 0) → Machine R → Type 0
Holds id Q m = (m.tailnet.id ≡ id) × Q (persist m.tailnet) m.outer

module _ {R : Type 0} (h : Hooks R) (id : ℤ) (Q : Persist → R → Type 0) (k : IsKept h id Q) where
  called :
      (f : Option (R → R)) (m : Machine R)
      → (m.tailnet.id ≡ id)
      → Q (persist m.tailnet) (run f m.outer)
      → Holds id Q (call f m)
  called none m i q = (i, q)
  called (some f) m i q = (i, q)

  pub notify-Holds : (m : Machine R) → Holds id Q m → Holds id Q (notify h m)
  unfolding notify
  notify-Holds m (i, q) = called h.broadcast m i (k.broadcast _ _ q)

  pub set_state-Holds : (s : State) (m : Machine R) → Holds id Q m → Holds id Q (set_state h s m)
  unfolding set_state
  set_state-Holds s m v = notify-Holds (with_state s m) v

  pub called_with :
      {A : Type 0} (f : Option (A → R → R)) (a : A) (m : Machine R)
      → (m.tailnet.id ≡ id)
      → Q (persist m.tailnet) (run_with f a m.outer)
      → Holds id Q (call_with f a m)
  called_with none a m i q = (i, q)
  called_with (some f) a m i q = (i, q)

  pub record_user_state-Holds :
      (u : UserState) (m : Machine R) → Holds id Q m → Holds id Q (record_user_state h u m)
  unfolding record_user_state notify_user_state_change
  record_user_state-Holds u m (i, q) = called_with h.on_user_state_change u _ i (k.user _ _ u q)
