-- ===== src/Web/Handlers/Frame.antt =====
-- What a command on a tailnet leaves of the registry: only the wish that it stores may change.
use tailhopper.Base.{
  ℕ, ℤ, Str, ◌≡◌, refl, ap, Option, List, [], ◌∷◌, map, arith, Option-cases, ◌⊎◌, Bool-cases, inl,
  inr, int_eq,
}
use tailhopper.Base.Maps.{adjust, lookup}
use tailhopper.Ts.State.{UserState, user_enabled, user_disabled}
use tailhopper.Ts.Tailnet.{Machine}
use tailhopper.Ts.Start.{StartCalls, start}
use tailhopper.Ts.Stop.{CloseCalls, stop}
use tailhopper.Ts.Logout.{LogoutCalls, logout}
use tailhopper.Registry.Config.{RegisteredTailnet, Broadcaster, Store}
use tailhopper.Registry.Store.{hooks, set_config, save_locked, user_state_change, announce_tailnet}

-- A map without the wishes and fatal errors of its entries.
abbrev pub bare : ℤ × RegisteredTailnet → ℤ × ℕ × Str
bare e = (e.0, e.1.tailnet, e.1.config.claimed_magic_dns_suffix)

abbrev pub bare_entries : {B : Type 0} → Store B → List (ℤ × ℕ × Str)
bare_entries st = map bare st.registry.tailnets

-- What a command keeps: the entries but for their wishes, and the next id.
abbrev pub Kept : {B : Type 0} → Store B → Store B → Type 0
Kept st st' = (bare_entries st' ≡ bare_entries st) × (st'.registry.next_id ≡ st.registry.next_id)

adjust-bare :
    (k : ℤ) (f : RegisteredTailnet → RegisteredTailnet) (m : List (ℤ × RegisteredTailnet))
    → ((j : ℤ) (r : RegisteredTailnet) → bare (j, f r) ≡ bare (j, r))
    → map bare (adjust k f m) ≡ map bare m
unfolding adjust
adjust-bare k f [] p = refl
adjust-bare k f ((j, r) ∷ m) p = elim (Bool-cases (int_eq j k)) [
  | inl e ↦ rw e (ap (λ x. x ∷ map bare m) (p j r))
  | inr e ↦ rw e (ap (λ xs. bare (j, r) ∷ xs) (adjust-bare k f m p))
]

-- What a method of a tailnet keeps.
abbrev pub Keeps : {B : Type 0} → Machine (Store B) → Machine (Store B) → Type 0
Keeps m m' = (m'.tailnet.id ≡ m.tailnet.id) × Kept m.outer m'.outer

module _ {B : Type 0} (b : Option (Broadcaster B)) (id : ℤ) where
  user_state_change-Kept : (u : UserState) (st : Store B) → Kept st (user_state_change id u st)
  unfolding user_state_change save_locked set_config
  user_state_change-Kept u st = elim (Option-cases (lookup id st.registry.tailnets)) [
    | inl e ↦ rw e (refl, refl)
    | inr (r, e) ↦ rw e (adjust-bare id _ st.registry.tailnets (λ j x. refl), refl)
  ]

  announce_tailnet-Kept : (st : Store B) → Kept st (announce_tailnet b id st)
  unfolding announce_tailnet
  announce_tailnet-Kept st = elim (Option-cases b) [
    | inl e ↦ rw e (refl, refl)
    | inr (k, e) ↦ rw e (refl, refl)
  ]

  start-outer :
      (c : StartCalls) (m : Machine (Store B))
      → let m' = (start (hooks b id) c m).0 in
        let st = user_state_change id user_enabled m.outer in
        (m'.tailnet.id ≡ m.tailnet.id)
        × ((m'.outer ≡ m.outer) ⊎ ((m'.outer ≡ st) ⊎ (m'.outer ≡ announce_tailnet b id st)))
  unfolding start hooks
  start-outer c m = ground arith

  stop-outer :
      (c : CloseCalls) (m : Machine (Store B))
      → let m' = (stop (hooks b id) c m).0 in
        let st = user_state_change id user_disabled m.outer in
        (m'.tailnet.id ≡ m.tailnet.id)
        × ((m'.outer ≡ m.outer) ⊎ (m'.outer ≡ announce_tailnet b id st))
  unfolding stop hooks
  stop-outer c m = ground arith

  logout-outer :
      (c : LogoutCalls) (m : Machine (Store B))
      → let m' = (logout (hooks b id) c m).0 in
        let st = user_state_change id user_disabled m.outer in
        (m'.tailnet.id ≡ m.tailnet.id)
        × ((m'.outer ≡ m.outer) ⊎ (m'.outer ≡ announce_tailnet b id (announce_tailnet b id st)))
  unfolding logout hooks
  logout-outer c m = ground arith

  pub start-Keeps : (c : StartCalls) (m : Machine (Store B)) → Keeps m (start (hooks b id) c m).0
  start-Keeps c m =
      let st = user_state_change id user_enabled m.outer in
      ground (
        arith,
        start-outer c m,
        user_state_change-Kept user_enabled m.outer,
        announce_tailnet-Kept st,
      )

  pub stop-Keeps : (c : CloseCalls) (m : Machine (Store B)) → Keeps m (stop (hooks b id) c m).0
  stop-Keeps c m =
      let st = user_state_change id user_disabled m.outer in
      ground (
        arith,
        stop-outer c m,
        user_state_change-Kept user_disabled m.outer,
        announce_tailnet-Kept st,
      )

  pub logout-Keeps : (c : LogoutCalls) (m : Machine (Store B)) → Keeps m (logout (hooks b id) c m).0
  logout-Keeps c m =
      let st = user_state_change id user_disabled m.outer in
      ground (
        arith,
        logout-outer c m,
        user_state_change-Kept user_disabled m.outer,
        announce_tailnet-Kept st,
        announce_tailnet-Kept (announce_tailnet b id st),
      )
