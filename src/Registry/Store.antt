-- ===== src/Registry/Store.antt =====
-- The methods of `Registry` that work on the configurations: `saveLocked`, `Claim`, the two
-- callbacks and `HasUnconfiguredTailnets`; and the hooks that a tailnet gets.
pub mod Claims
use tailhopper.Base.{
  ℕ, ℤ, Str, is_empty, str_eq, Bool, Option, none, some, List, [], ◌∷◌, any, if◌then◌else◌,
}
use tailhopper.Base.Maps.{lookup, adjust}
use tailhopper.Ts.State.{UserState, is_user_enabled, Error, already_claimed}
use tailhopper.Ts.Tailnet.{Hooks}
use tailhopper.Registry.Config.{
  PersistedTailnet, RegisteredTailnet, Registry, Broadcaster, Disk, Store, write_file, configs,
  tailnet_not_found,
}

abbrev pub has_suffix : Str → ℤ × RegisteredTailnet → Bool
has_suffix suffix e = str_eq e.1.config.claimed_magic_dns_suffix suffix

module _ {B : Type 0} where
  -- `tailnet.config.… = …` for the entry of that id
  unfoldable pub set_config : ℤ → (PersistedTailnet → PersistedTailnet) → Store B → Store B
  set_config id f st = record st {
    registry = record st.registry {
      tailnets = adjust id (λ r. record r { config = f r.config }) st.registry.tailnets;
    };
  }

  -- `saveLocked`
  unfoldable pub save_locked : Store B → Store B × Option Error
  unfolding write_file
  save_locked st =
      let (d, e) = write_file (configs st.registry.tailnets) st.disk in (record st { disk = d }, e)

  -- The body of `userStateChangeCallback`; the error of the save is dropped.
  on_known : Option RegisteredTailnet → (Store B → Store B) → Store B → Store B
  on_known none f st = st
  on_known (some _) f st = (save_locked (f st)).0

  unfoldable pub user_state_change : ℤ → UserState → Store B → Store B
  unfolding on_known
  user_state_change id u st =
      on_known (lookup id st.registry.tailnets)
        (set_config id (λ c. record c { user_enabled = is_user_enabled u })) st

  -- The body of `terminalErrorChangeCallback`
  unfoldable pub terminal_error_change : ℤ → Str → Store B → Store B
  unfolding on_known
  terminal_error_change id text st =
      on_known (lookup id st.registry.tailnets)
        (set_config id (λ c. record c { terminal_error = text })) st

  unfoldable pub has_unconfigured_tailnets : Store B → Bool
  has_unconfigured_tailnets st =
      any (λ e. is_empty e.1.config.claimed_magic_dns_suffix) st.registry.tailnets

  -- `if m.broadcaster != nil { m.broadcaster.BroadcastGlobalChange() }`
  unfoldable pub announce_global : Option (Broadcaster B) → Store B → Store B
  announce_global none st = st
  announce_global (some k) st = record st { events = k.broadcast_global_change st.events }

  unfoldable pub announce_tailnet : Option (Broadcaster B) → ℤ → Store B → Store B
  announce_tailnet none id st = st
  announce_tailnet (some k) id st = record st { events = k.broadcast_tailnet_change id st.events }

module _ {B : Type 0} (b : Option (Broadcaster B)) where
  abbrev announced : Store B × Option Error → Store B × Option Error
  announced (st, some e) = (st, some e)
  announced (st, none) = (announce_global b st, none)

  claim_known : Option RegisteredTailnet → ℤ → Str → Store B → Store B × Option Error
  unfolding announce_global save_locked set_config
  claim_known none id suffix st = (st, some tailnet_not_found)
  claim_known (some _) id suffix st =
      announced
        (save_locked (set_config id (λ c. record c { claimed_magic_dns_suffix = suffix }) st))

  -- `Claim`
  unfoldable pub claim : ℤ → Str → Store B → Store B × Option Error
  unfolding claim_known
  claim id suffix st =
      if any (has_suffix suffix) st.registry.tailnets
      then (st, some (already_claimed suffix))
      else claim_known (lookup id st.registry.tailnets) id suffix st

  -- What `Load` and `Add` hand to `NewTailnet`.
  unfoldable pub hooks : ℤ → Hooks (Store B)
  unfolding announce_tailnet
  hooks id = record {
    claim = claim;
    broadcast = some (announce_tailnet b id);
    on_user_state_change = some (user_state_change id);
    on_terminal_error_change = some (terminal_error_change id);
  }
