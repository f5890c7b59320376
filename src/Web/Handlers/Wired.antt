-- ===== src/Web/Handlers/Wired.antt =====
-- Entries that stand for tailnets in the heap, and what the handlers' parts do to them.
use tailhopper.Base.{
  ℕ, zero, suc, ◌≤◌, ℤ, int_eq, Str, is_empty, length, get_elem?, set, any, ◌≡◌, refl, sym, subst,
  ap, ◌∙◌, false, Option, none, some, List, [], ◌∷◌, ◌++◌, map, if◌then◌else◌, arith,
}
use tailhopper.Base.Maps.{lookup, insert, delete}
use tailhopper.Ts.Tailnet.{Tailnet, Machine, Hooks}
use tailhopper.Registry.Config.{RegisteredTailnet, Broadcaster, Store}
use tailhopper.Registry.Store.{hooks}
use tailhopper.Registry.World.{World, get, address_of}
use tailhopper.Registry.Running.{run_at}
use tailhopper.Web.Handlers.Frame.{bare, bare_entries, Keeps}

-- What a map without wishes has under an id.
unfoldable pub bare_get : ℤ → List (ℤ × ℕ × Str) → Option ℕ
bare_get k [] = none
bare_get k ((j, a, s) ∷ m) = if int_eq j k then some a else bare_get k m

-- How many entries have no suffix.
unfoldable pub unconfigured : List (ℤ × ℕ × Str) → ℕ
unconfigured [] = 0
unconfigured (e ∷ m) = let n = unconfigured m in if is_empty e.2 then suc n else n

pub lookup-bare :
    (k : ℤ) (m : List (ℤ × RegisteredTailnet)) → address_of (lookup k m) ≡ bare_get k (map bare m)
unfolding lookup bare_get
lookup-bare k [] = refl
lookup-bare k ((j, r) ∷ m) = ground (arith, lookup-bare k m)

pub get-bare : {B : Type 0} (k : ℤ) (w : World B) → get k w ≡ bare_get k (bare_entries w.store)
unfolding get
get-bare k w = lookup-bare k w.store.registry.tailnets

pub unconfigured-insert :
    (k : ℤ) (r : RegisteredTailnet) (m : List (ℤ × RegisteredTailnet))
    → unconfigured (map bare (insert k r m)) ≤ suc (unconfigured (map bare m))
unfolding unconfigured insert
unconfigured-insert k r [] = ground arith
unconfigured-insert k r ((j, x) ∷ m) = ground (arith, unconfigured-insert k r m)

pub unconfigured-delete :
    (k : ℤ) (m : List (ℤ × RegisteredTailnet))
    → unconfigured (map bare (delete k m)) ≤ unconfigured (map bare m)
unfolding unconfigured delete
unconfigured-delete k [] = ground arith
unconfigured-delete k ((j, x) ∷ m) = ground (arith, unconfigured-delete k m)

pub unconfigured-any :
    (m : List (ℤ × RegisteredTailnet))
    → any (λ e. is_empty e.1.config.claimed_magic_dns_suffix) m ≡ false
    → unconfigured (map bare m) ≡ 0
unfolding unconfigured
unconfigured-any [] h = refl
unconfigured-any ((j, x) ∷ m) h = ground (arith, unconfigured-any m)

-- The tailnet of that id stands at the address.
abbrev pub IsAt : List Tailnet → ℕ → ℤ → Type 0
IsAt heap a k = (t : Tailnet) × (get_elem? heap a ≡ some t) × (t.id ≡ k)

pub IsAt-set :
    (heap : List Tailnet) (a c : ℕ) (t s : Tailnet) (k : ℤ)
    → get_elem? heap a ≡ some s
    → t.id ≡ s.id
    → IsAt heap c k
    → IsAt (set heap a t) c k
IsAt-set [] a c t s k e i h = h
IsAt-set (x ∷ xs) zero zero t s k e i (u, f, g) = (t, refl, ground arith)
IsAt-set (x ∷ xs) zero (suc c) t s k e i h = h
IsAt-set (x ∷ xs) (suc a) zero t s k e i h = h
IsAt-set (x ∷ xs) (suc a) (suc c) t s k e i h = IsAt-set xs a c t s k e i h

pub IsAt-append :
    (heap : List Tailnet) (c : ℕ) (t : Tailnet) (k : ℤ) → IsAt heap c k → IsAt (heap ++ t ∷ []) c k
IsAt-append [] c t k (u, f, g) = absurd (ground arith)
IsAt-append (x ∷ xs) zero t k h = h
IsAt-append (x ∷ xs) (suc c) t k h = IsAt-append xs c t k h

pub IsAt-last : (heap : List Tailnet) (t : Tailnet) → IsAt (heap ++ t ∷ []) (length heap) t.id
IsAt-last [] t = (t, refl, refl)
IsAt-last (x ∷ xs) t = IsAt-last xs t

-- Every entry stands for a tailnet of its id, and at most one has no suffix.
pub record IsSound {B : Type 0} (w : World B) : Type 0 where
  pub wired : (k : ℤ) (a : ℕ) → get k w ≡ some a → IsAt w.heap a k
  pub few : unconfigured (bare_entries w.store) ≤ 1

pub record Ran {B A : Type 0} (w : World B) (r : Option (World B × A)) : Type 0 where
  pub world : World B
  pub value : A
  pub ran : r ≡ some (world, value)
  pub sound : IsSound world
  pub same : bare_entries world.store ≡ bare_entries w.store

module _ {B A : Type 0} (b : Option (Broadcaster B))
    (f : Hooks (Store B) → Machine (Store B) → Machine (Store B) × A)
    (keeps : (id : ℤ) (m : Machine (Store B)) → Keeps m (f (hooks b id) m).0) where
  pub run_at-Ran :
      (w : World B) (a : ℕ) (k : ℤ) → IsSound w → get k w ≡ some a → Ran w (run_at b f a w)
  unfolding run_at
  run_at-Ran w a k v e =
      let (t, at, id) = v.wired k a e in
      let m : Machine (Store B) = record { tailnet = t; host = w.host; outer = w.store } in
      let (kept, (same, next)) = keeps t.id m in
      let m' = (f (hooks b t.id) m).0 in
      record {
        world = record { store = m'.outer; heap = set w.heap a m'.tailnet; host = m'.host };
        value = (f (hooks b t.id) m).1;
        ran = rw at refl;
        sound = record {
          wired = λ j c g.
              IsAt-set w.heap a c m'.tailnet t j at kept
                (v.wired j c (get-bare j w ∙ ap (bare_get j) (sym same) ∙ sym (get-bare j _) ∙ g));
          few = subst (λ m. unconfigured m ≤ 1) (sym same) v.few;
        };
        same = same;
      }
