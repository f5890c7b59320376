-- ===== src/System/Boot.antt =====
-- A registry that is read from a good config file belongs together with its tailnets.
use tailhopper.Base.{
  ℕ, pos, max_int, int_le, int_succ, int_succ-lt, is_empty, length, ◌<ℤ◌, ◌≡◌, ◌≢◌, ◌⊎◌, inl, inr,
  refl, ap, Bool-cases, some, List, [], ◌∷◌, All, if◌then◌else◌, arith,
}
use tailhopper.Ts.Tailnet.{new_tailnet}
use tailhopper.Ts.Persist.{Persist, persist}
use tailhopper.Registry.Config.{PersistedTailnet}
use tailhopper.Registry.Store.Claims.{Unclaimed}
use tailhopper.Registry.World.{World, tailnet_of, register, register_all}
use tailhopper.Registry.World.Laws.{HasDistinctIds}
use tailhopper.Registry.Changes.Laws.{entries}
use tailhopper.System.Inv.{Agrees}
use tailhopper.System.Grown.{view_of, view_of-append_cases, Inv-gains}
use tailhopper.System.Entries.{Unclaimed-insert}
use tailhopper.System.Laws.{IsJoined}

-- No two of them have claimed the same suffix.
abbrev pub HasDistinctSuffixes : List PersistedTailnet → Type 0
HasDistinctSuffixes [] = Unit
HasDistinctSuffixes (c ∷ cs) =
    ((c.claimed_magic_dns_suffix ≡ [])
      ⊎ All (λ d. d.claimed_magic_dns_suffix ≢ c.claimed_magic_dns_suffix) cs)
    × HasDistinctSuffixes cs

pub record IsGood (cs : List PersistedTailnet) : Type 0 where
  pub ids : HasDistinctIds cs
  pub room : All (λ c. c.id <ℤ pos max_int) cs
  pub suffixes : HasDistinctSuffixes cs

tailnet_of-Agrees : (c : PersistedTailnet) → Agrees (persist (tailnet_of c)) c
unfolding tailnet_of new_tailnet
tailnet_of-Agrees c = record { suffix = inr refl; error = refl; wish = ground arith }

module _ {B : Type 0} where
  -- The entry can be added.
  pub record CanJoin (w : World B) (c : PersistedTailnet) : Type 0 where
    pub fresh : (a : ℕ) (p : Persist) → view_of w.heap a ≢ some (c.id, p)
    pub free : (c.claimed_magic_dns_suffix ≡ []) ⊎ Unclaimed c.claimed_magic_dns_suffix (entries w)

  register-IsJoined :
      (c : PersistedTailnet) (w : World B)
      → c.id <ℤ pos max_int
      → CanJoin w c
      → IsJoined w
      → IsJoined (register c w)
  unfolding register tailnet_of new_tailnet
  register-IsJoined c w room j i =
      let n = w.store.registry.next_id in
      Inv-gains (entries w) w.heap (tailnet_of c) n (if int_le n c.id then int_succ c.id else n) i
        j.fresh (λ k h. ground (arith, int_succ-lt c.id room, h))
        (ground (arith, int_succ-lt c.id room)) (record { tailnet = length w.heap; config = c })
        refl refl j.free (tailnet_of-Agrees c)

  register-CanJoin :
      (c d : PersistedTailnet) (w : World B)
      → d.id ≢ c.id
      → (c.claimed_magic_dns_suffix ≡ [])
        ⊎ (d.claimed_magic_dns_suffix ≢ c.claimed_magic_dns_suffix)
      → CanJoin w d
      → CanJoin (register c w) d
  unfolding register tailnet_of new_tailnet
  register-CanJoin c d w ne apart j = record {
    fresh = λ a p e. elim (view_of-append_cases w.heap (tailnet_of c) a (d.id, p) e) [
      | inl f ↦ j.fresh a p f
      | inr (at, f) ↦ ne (ap (λ x. x.0) f)
    ];
    free = elim (Bool-cases (is_empty d.claimed_magic_dns_suffix)) [
      | inl e ↦ inl (ground (arith, e))
      | inr e ↦
          let differ : c.claimed_magic_dns_suffix ≢ d.claimed_magic_dns_suffix =
            λ h. ground (arith, e, apart, h) in
          elim j.free [
            | inl f ↦ inl f
            | inr f ↦ inr (
                Unclaimed-insert d.claimed_magic_dns_suffix c.id
                  (record { tailnet = length w.heap; config = c }) (entries w) differ f)
          ]
    ];
  }

  All-CanJoin :
      (c : PersistedTailnet) (cs : List PersistedTailnet) (w : World B)
      → All (λ d. d.id ≢ c.id) cs
      → (c.claimed_magic_dns_suffix ≡ [])
        ⊎ All (λ d. d.claimed_magic_dns_suffix ≢ c.claimed_magic_dns_suffix) cs
      → All (CanJoin w) cs
      → All (CanJoin (register c w)) cs
  All-CanJoin c [] w ne apart j = tt
  All-CanJoin c (d ∷ cs) w ne apart j = (
    register-CanJoin c d w ne.0 (elim apart [ inl e ↦ inl e | inr e ↦ inr e.0 ]) j.0,
    All-CanJoin c cs w ne.1 (elim apart [ inl e ↦ inl e | inr e ↦ inr e.1 ]) j.1,
  )

  pub register_all-IsJoined :
      (cs : List PersistedTailnet) (w : World B)
      → IsGood cs
      → All (CanJoin w) cs
      → IsJoined w
      → IsJoined (register_all cs w)
  unfolding register_all
  register_all-IsJoined [] w g j i = i
  register_all-IsJoined (c ∷ cs) w g j i =
      register_all-IsJoined cs (register c w)
        (record { ids = g.ids.1; room = g.room.1; suffixes = g.suffixes.1 })
        (All-CanJoin c cs w g.ids.0 g.suffixes.0 j.1) (register-IsJoined c w g.room.0 j.0 i)
