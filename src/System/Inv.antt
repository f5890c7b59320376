-- ===== src/System/Inv.antt =====
-- How the entries of the registry and the tailnets in the heap belong together.
use tailhopper.Base.{
  ℕ, ◌==◌, ==_iff, ℤ, int_eq, int_eq_iff, ◌<ℤ◌, ◌≡◌, ◌≢◌, ◌⊎◌, inl, inr, refl, sym, subst, ap, ◌∙◌,
  Bool-cases, Option-cases, Option, none, some, List, [], ◌∷◌, if◌then◌else◌, arith,
}
unfoldable pub use tailhopper.Base.Maps.{HasDistinctKeys}
use tailhopper.Base.Maps.{lookup, adjust, lookup-adjust}
use tailhopper.Ts.State.{is_user_enabled}
use tailhopper.Ts.Persist.{Persist}
use tailhopper.Registry.Config.{PersistedTailnet, RegisteredTailnet}
use tailhopper.Registry.Store.Claims.{IsUnique}

-- The tailnets in the heap, by id and what they share with their entries.
abbrev pub View : Type 0
View = ℕ → Option (ℤ × Persist)

abbrev pub put : View → ℕ → ℤ × Persist → View
put v a x i = if i == a then some x else v i

-- A tailnet against its entry. With a fatal error the wishes may differ.
pub record Agrees (p : Persist) (c : PersistedTailnet) : Type 0 where
  pub suffix : (p.claimed ≡ []) ⊎ (p.claimed ≡ c.claimed_magic_dns_suffix)
  pub error : p.error ≡ c.terminal_error
  pub wish : (is_user_enabled p.wish ≡ c.user_enabled) ⊎ (c.terminal_error ≢ [])

pub record Inv (m : List (ℤ × RegisteredTailnet)) (n : ℤ) (v : View) : Type 0 where
  pub linked :
      (k : ℤ) (r : RegisteredTailnet)
      → lookup k m ≡ some r
      → (p : Persist) × (v r.tailnet ≡ some (k, p)) × Agrees p r.config
  pub keyed : (k : ℤ) (r : RegisteredTailnet) → lookup k m ≡ some r → r.config.id ≡ k
  pub owner : (a c : ℕ) (k : ℤ) (p q : Persist) → v a ≡ some (k, p) → v c ≡ some (k, q) → a ≡ c
  pub below : (a : ℕ) (k : ℤ) (p : Persist) → v a ≡ some (k, p) → k <ℤ n
  pub distinct : HasDistinctKeys m
  pub unique : IsUnique m

-- A write to the entry with an id, through the pointer that the map holds.
abbrev pub with_config :
    ℤ
    → (PersistedTailnet → PersistedTailnet)
    → List (ℤ × RegisteredTailnet)
    → List (ℤ × RegisteredTailnet)
with_config id f m = adjust id (λ r. record r { config = f r.config }) m

HasDistinctKeys-with_config :
    (id : ℤ) (f : PersistedTailnet → PersistedTailnet) (m : List (ℤ × RegisteredTailnet))
    → HasDistinctKeys m
    → HasDistinctKeys (with_config id f m)
unfolding HasDistinctKeys adjust
HasDistinctKeys-with_config id f [] d = tt
HasDistinctKeys-with_config id f ((k, r) ∷ m) d = elim (Bool-cases (int_eq k id)) [
  | inl e ↦ rw e d
  | inr e ↦ rw e (still_absent, HasDistinctKeys-with_config id f m d.1)
]
  where
    still_absent : lookup k (with_config id f m) ≡ none
    still_absent = ground (arith, lookup-adjust id k (λ r. record r { config = f r.config }) m)

module _ (m : List (ℤ × RegisteredTailnet)) (n : ℤ) (v : View) (a : ℕ) (id : ℤ) (p q : Persist)
    (i : Inv m n (put v a (id, p))) where
  put_here : (x : ℤ × Persist) → put v a x a ≡ some x
  put_here x = rw ((==_iff a a).1 refl)

  -- An address with another tailnet keeps it.
  put_other :
      (c : ℕ) (k : ℤ) (s : Persist)
      → put v a (id, p) c ≡ some (k, s)
      → k ≢ id
      → put v a (id, q) c ≡ some (k, s)
  put_other c k s e ne = ground (arith, ==_iff c a)

  -- The same tailnet, whatever it shares.
  put_same :
      (c : ℕ) (k : ℤ) (s : Persist)
      → put v a (id, q) c ≡ some (k, s)
      → (t : Persist) × (put v a (id, p) c ≡ some (k, t))
  put_same c k s e = elim (Bool-cases (c == a)) [
    | inl t ↦ (p, ground (arith, t, e))
    | inr t ↦ (s, ground (arith, t, e))
  ]

  put-owner :
      (c d : ℕ) (k : ℤ) (s t : Persist)
      → put v a (id, q) c ≡ some (k, s)
      → put v a (id, q) d ≡ some (k, t)
      → c ≡ d
  put-owner c d k s t e f =
      let (s', e') = put_same c k s e in
      let (t', f') = put_same d k t f in i.owner c d k s' t' e' f'

  put-below : (c : ℕ) (k : ℤ) (s : Persist) → put v a (id, q) c ≡ some (k, s) → k <ℤ n
  put-below c k s e = let (s', e') = put_same c k s e in i.below c k s' e'

  -- An unregistered tailnet may change as it likes.
  pub Inv-unregistered : lookup id m ≡ none → Inv m n (put v a (id, q))
  Inv-unregistered none_there = record {
    linked = λ k r e.
        let (s, at, g) = i.linked k r e in (s, put_other r.tailnet k s at (other k r e), g);
    keyed = i.keyed;
    owner = put-owner;
    below = put-below;
    distinct = i.distinct;
    unique = i.unique;
  }
    where
      other : (k : ℤ) (r : RegisteredTailnet) → lookup k m ≡ some r → k ≢ id
      other k r e f = cc

  -- A registered tailnet changes together with its entry.
  pub Inv-with_config :
      (f : PersistedTailnet → PersistedTailnet)
      → ((c : PersistedTailnet) → (f c).id ≡ c.id)
      → ((c : PersistedTailnet) → Agrees p c → Agrees q (f c))
      → IsUnique (with_config id f m)
      → Inv (with_config id f m) n (put v a (id, q))
  Inv-with_config f same_id agree u = record {
    linked = λ k r e. elim (entry_of k r e) [
      | inl (t, (e', g), h) ↦
          let (s, at, ag) = i.linked id t e' in
          let here = i.owner t.tailnet a id s p at (put_here (id, p)) in
          let same : s ≡ p = ground (arith, at, here, put_here (id, p)) in
          (
            q,
            ground (arith, put_here (id, q), here, g, h),
            subst (λ c. Agrees q c) (ap (λ x. x.config) (sym g))
                (agree t.config (subst (λ x. Agrees x t.config) same ag)),
          )
      | inr (ne, e') ↦ let (s, at, ag) = i.linked k r e' in (s, put_other r.tailnet k s at ne, ag)
    ];
    keyed = λ k r e. elim (entry_of k r e) [
      | inl (t, (e', g), h) ↦ ap (λ x. x.config.id) g ∙ same_id t.config ∙ i.keyed id t e' ∙ sym h
      | inr (ne, e') ↦ i.keyed k r e'
    ];
    owner = put-owner;
    below = put-below;
    distinct = HasDistinctKeys-with_config id f m i.distinct;
    unique = u;
  }
    where
      written : RegisteredTailnet → RegisteredTailnet
      written r = record r { config = f r.config }

      entry_of :
          (k : ℤ) (r : RegisteredTailnet)
          → lookup k (with_config id f m) ≡ some r
          → ((t : RegisteredTailnet) × ((lookup id m ≡ some t) × (r ≡ written t)) × (k ≡ id))
            ⊎ ((k ≢ id) × (lookup k m ≡ some r))
      entry_of k r e = elim (Bool-cases (int_eq id k)) [
        | inl t ↦
            let same : k ≡ id = ground (arith, t, int_eq_iff id k) in
            elim (Option-cases (lookup id m)) [
              | inl none_there ↦
                  absurd (ground (arith, t, e, same, none_there, lookup-adjust id k written m))
              | inr (r0, there) ↦ inl (
                r0,
                (there, ground (arith, t, e, same, there, lookup-adjust id k written m)),
                same,
              )
            ]
        | inr t ↦
            inr (
              ground (arith, t, int_eq_iff id k),
              ground (arith, t, e, lookup-adjust id k written m),
            )
      ]
