-- ===== src/System/File.antt =====
-- What stands in the config file can be loaded again.
use tailhopper.Base.{
  ℤ, pos, max_int, int_eq_iff, Str, ◌<ℤ◌, ◌≤ℤ◌, ◌≡◌, ◌≢◌, ◌⊎◌, inl, inr, refl, sym, subst, Bool,
  true, false, Option-cases, Option, none, List, [], ◌∷◌, All, All-map, arith,
}
use tailhopper.Base.Maps.{lookup}
use tailhopper.Ts.State.{UserState}
use tailhopper.Registry.Config.{
  RegisteredTailnet, Broadcaster, Store, File, missing, unreadable, invalid, holds, configs,
  write_file,
}
use tailhopper.Registry.Store.{
  claim, user_state_change, terminal_error_change, announce_tailnet, save_locked, set_config,
}
use tailhopper.Registry.Store.Claims.{IsUnique, Unclaimed, suffix_of}
use tailhopper.Registry.World.Laws.{HasDistinctIds}
use tailhopper.System.Inv.{View, Inv, HasDistinctKeys}
use tailhopper.System.Boot.{IsGood, HasDistinctSuffixes}
use tailhopper.System.Pac.{All-found}

abbrev pub IsLoadable : File → Type 0
IsLoadable (holds cs) = IsGood cs
IsLoadable _ = Unit

-- Ids below the next one lie below the largest.
abbrev pub HasRoom : ℤ → Type 0
HasRoom n = n ≤ℤ pos max_int

Unclaimed-configs :
    (s : Str) (m : List (ℤ × RegisteredTailnet))
    → Unclaimed s m
    → All (λ d. d.claimed_magic_dns_suffix ≢ s) (configs m)
unfolding configs
Unclaimed-configs s [] u = tt
Unclaimed-configs s (e ∷ m) u = (u.0, Unclaimed-configs s m u.1)

IsUnique-configs : (m : List (ℤ × RegisteredTailnet)) → IsUnique m → HasDistinctSuffixes (configs m)
unfolding configs
IsUnique-configs [] u = tt
IsUnique-configs (e ∷ m) u = (
  elim u.0 [ inl f ↦ inl f | inr f ↦ inr (Unclaimed-configs (suffix_of e) m f) ],
  IsUnique-configs m u.1,
)

IsKeyed : ℤ × RegisteredTailnet → Type 0
IsKeyed e = e.1.config.id ≡ e.0

absent-configs :
    (k : ℤ) (m : List (ℤ × RegisteredTailnet))
    → All IsKeyed m
    → lookup k m ≡ none
    → All (λ d. d.id ≢ k) (configs m)
unfolding configs lookup IsKeyed
absent-configs k [] h e = tt
absent-configs k ((j, r) ∷ m) h e = (
  λ f. ground (arith, e, h.0, f, int_eq_iff j k),
  absent-configs k m h.1 (ground (arith, e, int_eq_iff j k)),
)

HasDistinctKeys-configs :
    (m : List (ℤ × RegisteredTailnet))
    → All IsKeyed m
    → HasDistinctKeys m
    → HasDistinctIds (configs m)
unfolding configs HasDistinctKeys IsKeyed
HasDistinctKeys-configs [] h d = tt
HasDistinctKeys-configs ((k, r) ∷ m) h d = (
  subst (λ x. All (λ c. c.id ≢ x) (configs m)) (sym h.0) (absent-configs k m h.1 d.0),
  HasDistinctKeys-configs m h.1 d.1,
)

All-configs :
    (P : ℤ → Type 0) (m : List (ℤ × RegisteredTailnet))
    → All IsKeyed m
    → All (λ e. P e.0) m
    → All (λ c. P c.id) (configs m)
unfolding configs IsKeyed
All-configs P [] h p = tt
All-configs P (e ∷ m) h p = (subst P (sym h.0) p.0, All-configs P m h.1 p.1)

-- Entries that belong together with tailnets make a good file.
pub configs-IsGood :
    (m : List (ℤ × RegisteredTailnet)) (n : ℤ) (v : View)
    → HasRoom n
    → Inv m n v
    → IsGood (configs m)
unfolding IsKeyed
configs-IsGood m n v room i =
    let found = All-found m i.distinct in
    let keyed = All-map _ IsKeyed (λ e f. i.keyed e.0 e.1 f) m found in
    record {
      ids = HasDistinctKeys-configs m keyed i.distinct;
      room =
          All-configs (λ k. k <ℤ pos max_int) m keyed
            (All-map _ (λ e. e.0 <ℤ pos max_int)
              (λ e f.
                let (p, at, g) = i.linked e.0 e.1 f in
                omega (arith, room, i.below e.1.tailnet e.0 p at))
              m found);
      suffixes = IsUnique-configs m i.unique;
    }

abbrev is_invalid : File → Bool
is_invalid (invalid e) = true
is_invalid _ = false

invalid-IsLoadable : (f : File) → is_invalid f ≡ true → IsLoadable f
invalid-IsLoadable missing e = tt
invalid-IsLoadable (unreadable x) e = tt
invalid-IsLoadable (invalid x) e = tt
invalid-IsLoadable (holds cs) e = cc

-- How a change of the store leaves the file: as it was, undecodable, or with the entries.
abbrev pub FileEnd : {B : Type 0} → File → Store B → Type 0
FileEnd f st =
    (st.disk.file ≡ f)
    ⊎ (is_invalid st.disk.file ≡ true)
    ⊎ (st.disk.file ≡ holds (configs st.registry.tailnets))

pub record IsSafe {B : Type 0} (st : Store B) : Type 0 where
  pub room : HasRoom st.registry.next_id
  pub loadable : IsLoadable st.disk.file

pub FileEnd-IsSafe :
    {B : Type 0} (f : File) (st : Store B) (v : View)
    → IsLoadable f
    → HasRoom st.registry.next_id
    → Inv st.registry.tailnets st.registry.next_id v
    → FileEnd f st
    → IsSafe st
FileEnd-IsSafe f st v ok room i (inl e) = record {
  room = room;
  loadable = subst IsLoadable (sym e) ok;
}
FileEnd-IsSafe f st v ok room i (inr (inl g)) = record {
  room = room;
  loadable = invalid-IsLoadable st.disk.file g;
}
FileEnd-IsSafe f st v ok room i (inr (inr g)) = record {
  room = room;
  loadable =
      subst IsLoadable (sym g) (configs-IsGood st.registry.tailnets st.registry.next_id v room i);
}

pub save-FileEnd : {B : Type 0} (st : Store B) → FileEnd st.disk.file (save_locked st).0
unfolding save_locked write_file
save-FileEnd st = ground arith

module _ {B : Type 0} (b : Option (Broadcaster B)) (id : ℤ) where
  pub announced-FileEnd : (st : Store B) → FileEnd st.disk.file (announce_tailnet b id st)
  unfolding announce_tailnet
  announced-FileEnd st = ground arith

  pub user-FileEnd :
      (u : UserState) (st : Store B) → FileEnd st.disk.file (user_state_change id u st)
  unfolding user_state_change save_locked set_config
  user-FileEnd u st = elim (Option-cases (lookup id st.registry.tailnets)) [
    | inl e ↦ rw e (inl refl)
    | inr (r, e) ↦ rw e (save-FileEnd (set_config id _ st))
  ]

  pub error-FileEnd :
      (text : Str) (st : Store B) → FileEnd st.disk.file (terminal_error_change id text st)
  unfolding terminal_error_change save_locked set_config
  error-FileEnd text st = elim (Option-cases (lookup id st.registry.tailnets)) [
    | inl e ↦ rw e (inl refl)
    | inr (r, e) ↦ rw e (save-FileEnd (set_config id _ st))
  ]

  pub claim-FileEnd : (s : Str) (st : Store B) → FileEnd st.disk.file (claim b id s st).0
  unfolding claim save_locked set_config write_file announce_tailnet
  claim-FileEnd s st = ground arith
