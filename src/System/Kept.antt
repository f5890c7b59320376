-- ===== src/System/Kept.antt =====
-- The hooks of the registry keep the entries and the tailnets together.
use tailhopper.Base.{
  ℕ, ℤ, Str, int_eq, ◌≡◌, ◌≢◌, ◌⊎◌, inl, inr, refl, sym, subst, Bool-cases, Option-cases, Option,
  none, List, [], ◌∷◌, arith,
}
use tailhopper.Base.Maps.{lookup, adjust}
use tailhopper.Ts.State.{UserState, is_user_enabled}
use tailhopper.Ts.Persist.{Persist, IsKept}
use tailhopper.Registry.Config.{PersistedTailnet, RegisteredTailnet, Broadcaster, Store}
use tailhopper.Registry.Store.{
  claim, hooks, user_state_change, terminal_error_change, announce_tailnet, set_config, save_locked,
}
use tailhopper.Registry.Store.Claims.{IsUnique, Unclaimed, suffix_of, claim-IsUnique}
use tailhopper.System.Inv.{View, put, Agrees, Inv, with_config, Inv-unregistered, Inv-with_config}

abbrev entries : {B : Type 0} → Store B → List (ℤ × RegisteredTailnet)
entries st = st.registry.tailnets

-- A write that leaves the suffix alone.
module _ (id : ℤ) (f : PersistedTailnet → PersistedTailnet)
    (keeps : (c : PersistedTailnet)
      → (f c).claimed_magic_dns_suffix ≡ c.claimed_magic_dns_suffix) where
  Unclaimed-with_config :
      (s : Str) (m : List (ℤ × RegisteredTailnet))
      → Unclaimed s m
      → Unclaimed s (with_config id f m)
  unfolding adjust
  Unclaimed-with_config s [] u = tt
  Unclaimed-with_config s ((k, r) ∷ m) u = elim (Bool-cases (int_eq k id)) [
    | inl e ↦ rw e (λ g. u.0 (ground (arith, keeps r.config, g)), u.1)
    | inr e ↦ rw e (u.0, Unclaimed-with_config s m u.1)
  ]

  IsUnique-with_config :
      (m : List (ℤ × RegisteredTailnet)) → IsUnique m → IsUnique (with_config id f m)
  unfolding adjust
  IsUnique-with_config [] u = tt
  IsUnique-with_config ((k, r) ∷ m) u = elim (Bool-cases (int_eq k id)) [
    | inl e ↦ rw e (subst (λ s. (s ≡ []) ⊎ Unclaimed s m) (sym (keeps r.config)) u.0, u.1)
    | inr e ↦ rw e (still (suffix_of (k, r)) m u.0, IsUnique-with_config m u.1)
  ]
    where
      still :
          (s : Str) (l : List (ℤ × RegisteredTailnet))
          → (s ≡ []) ⊎ Unclaimed s l
          → (s ≡ []) ⊎ Unclaimed s (with_config id f l)
      still s l (inl e) = inl e
      still s l (inr u) = inr (Unclaimed-with_config s l u)

module _ {B : Type 0} (b : Option (Broadcaster B)) (id : ℤ) where
  pub announced-entries :
      (st : Store B)
      → (entries (announce_tailnet b id st) ≡ entries st)
        × ((announce_tailnet b id st).registry.next_id ≡ st.registry.next_id)
  unfolding announce_tailnet
  announced-entries st = elim (Option-cases b) [
    | inl e ↦ rw e (refl, refl)
    | inr (k, e) ↦ rw e (refl, refl)
  ]

  abbrev with_wish : UserState → PersistedTailnet → PersistedTailnet
  with_wish u c = record c { user_enabled = is_user_enabled u }

  abbrev with_error : Str → PersistedTailnet → PersistedTailnet
  with_error text c = record c { terminal_error = text }

  abbrev with_suffix : Str → PersistedTailnet → PersistedTailnet
  with_suffix s c = record c { claimed_magic_dns_suffix = s }

  pub user-entries :
      (u : UserState) (st : Store B)
      → let st' = user_state_change id u st in
        (st'.registry.next_id ≡ st.registry.next_id)
        × (((lookup id (entries st) ≡ none) × (entries st' ≡ entries st))
            ⊎ (entries st' ≡ with_config id (with_wish u) (entries st)))
  unfolding user_state_change save_locked set_config
  user-entries u st = elim (Option-cases (lookup id (entries st))) [
    | inl e ↦ rw e (refl, inl (refl, refl))
    | inr (r, e) ↦ rw e (refl, inr refl)
  ]

  pub error-entries :
      (text : Str) (st : Store B)
      → let st' = terminal_error_change id text st in
        (st'.registry.next_id ≡ st.registry.next_id)
        × (((lookup id (entries st) ≡ none) × (entries st' ≡ entries st))
            ⊎ (entries st' ≡ with_config id (with_error text) (entries st)))
  unfolding terminal_error_change save_locked set_config
  error-entries text st = elim (Option-cases (lookup id (entries st))) [
    | inl e ↦ rw e (refl, inl (refl, refl))
    | inr (r, e) ↦ rw e (refl, inr refl)
  ]

  pub claim-entries :
      (s : Str) (st : Store B)
      → let st' = (claim b id s st).0 in
        (st'.registry.next_id ≡ st.registry.next_id)
        × ((entries st' ≡ with_config id (with_suffix s) (entries st))
            ⊎ (((claim b id s st).1 ≢ none) × (entries st' ≡ entries st)))
  unfolding claim
  claim-entries s st = ground arith

  module _ (v : View) (a : ℕ) where
    -- The tailnet at the address with the id, against a store.
    abbrev pub Related : Persist → Store B → Type 0
    Related p st = Inv (entries st) st.registry.next_id (put v a (id, p))

    moved :
        (p : Persist) (st st' : Store B)
        → entries st' ≡ entries st
        → st'.registry.next_id ≡ st.registry.next_id
        → Related p st
        → Related p st'
    moved p st st' e f i =
        subst (λ m. Inv m st'.registry.next_id (put v a (id, p))) (sym e)
          (subst (λ n. Inv (entries st) n (put v a (id, p))) (sym f) i)

    rewritten :
        (p q : Persist) (f : PersistedTailnet → PersistedTailnet) (st st' : Store B)
        → ((c : PersistedTailnet) → (f c).id ≡ c.id)
        → ((c : PersistedTailnet) → Agrees p c → Agrees q (f c))
        → entries st' ≡ with_config id f (entries st)
        → st'.registry.next_id ≡ st.registry.next_id
        → IsUnique (entries st')
        → Related p st
        → Related q st'
    rewritten p q f st st' same agree e g u i =
        subst (λ m. Inv m st'.registry.next_id (put v a (id, q))) (sym e)
          (subst (λ n. Inv (with_config id f (entries st)) n (put v a (id, q))) (sym g)
            (Inv-with_config (entries st) st.registry.next_id v a id p q i f same agree
              (subst IsUnique e u)))

    unregistered :
        (p q : Persist) (st st' : Store B)
        → lookup id (entries st) ≡ none
        → entries st' ≡ entries st
        → st'.registry.next_id ≡ st.registry.next_id
        → Related p st
        → Related q st'
    unregistered p q st st' none_there e f i =
        moved q st st' e f
          (Inv-unregistered (entries st) st.registry.next_id v a id p q i none_there)

    broadcast-Related :
        (p : Persist) (st : Store B) → Related p st → Related p (announce_tailnet b id st)
    broadcast-Related p st i =
        let (e, f) = announced-entries st in moved p st (announce_tailnet b id st) e f i

    user-Related :
        (p : Persist) (st : Store B) (u : UserState)
        → Related p st
        → Related (record p { wish = u }) (user_state_change id u st)
    user-Related p st u i =
        let q : Persist = record p { wish = u } in
        let st' = user_state_change id u st in
        let (g, ends) = user-entries u st in
        elim ends [
          | inl (n, e) ↦ unregistered p q st st' n e g i
          | inr e ↦
              rewritten p q (with_wish u) st st' (λ c. refl)
                (λ c w. record { suffix = w.suffix; error = w.error; wish = inl refl }) e g
                (subst IsUnique (sym e)
                  (IsUnique-with_config id (with_wish u) (λ c. refl) (entries st) i.unique))
                i
        ]

    error-Related :
        (p : Persist) (st : Store B) (text : Str)
        → text ≢ []
        → Related p st
        → Related (record p { error = text }) (terminal_error_change id text st)
    error-Related p st text ne i =
        let q : Persist = record p { error = text } in
        let st' = terminal_error_change id text st in
        let (g, ends) = error-entries text st in
        elim ends [
          | inl (n, e) ↦ unregistered p q st st' n e g i
          | inr e ↦
              rewritten p q (with_error text) st st' (λ c. refl)
                (λ c w. record { suffix = w.suffix; error = refl; wish = inr ne }) e g
                (subst IsUnique (sym e)
                  (IsUnique-with_config id (with_error text) (λ c. refl) (entries st) i.unique))
                i
        ]

    granted-Related :
        (p : Persist) (st : Store B) (s : Str)
        → Related p st
        → p.claimed ≡ []
        → s ≢ []
        → (claim b id s st).1 ≡ none
        → Related (record p { claimed = s }) (claim b id s st).0
    granted-Related p st s i c ne ok =
        let q : Persist = record p { claimed = s } in
        let st' = (claim b id s st).0 in
        let (g, ends) = claim-entries s st in
        elim ends [
          | inr (bad, e) ↦ absurd (bad ok)
          | inl e ↦
              rewritten p q (with_suffix s) st st' (λ c. refl)
                (λ c w. record { suffix = inr refl; error = w.error; wish = w.wish }) e g
                (claim-IsUnique b id s st i.unique) i
        ]

    refused-Related :
        (p : Persist) (st : Store B) (s : Str)
        → Related p st
        → p.claimed ≡ []
        → s ≢ []
        → (claim b id s st).1 ≢ none
        → Related p (claim b id s st).0
    refused-Related p st s i c ne bad =
        let st' = (claim b id s st).0 in
        let (g, ends) = claim-entries s st in
        elim ends [
          | inr (_, e) ↦ moved p st st' e g i
          | inl e ↦
              rewritten p p (with_suffix s) st st' (λ c. refl)
                (λ x w. record { suffix = inl c; error = w.error; wish = w.wish }) e g
                (claim-IsUnique b id s st i.unique) i
        ]

    pub hooks-IsKept : IsKept (hooks b id) id Related
    unfolding hooks
    hooks-IsKept = record {
      broadcast = broadcast-Related;
      user = user-Related;
      error = error-Related;
      granted = granted-Related;
      refused = refused-Related;
    }
