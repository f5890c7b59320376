-- ===== src/System/Pac.antt =====
-- The PAC file has at most one rule for a suffix.
use tailhopper.Base.{
  ℕ, ℤ, int_eq, int_eq_iff, int_eq_refl, Str, is_empty, get_elem?, ◌≡◌, ◌≢◌, ◌⊎◌, inl, inr, sym,
  subst, ◌∙◌, Bool-cases, Option-cases, Option, some, List, [], ◌∷◌, map, All, All-map, Pairwise,
  if◌then◌else◌, arith,
}
use tailhopper.Base.Maps.{lookup}
use tailhopper.Base.Sort.{sort-Pairwise}
use tailhopper.Ts.Tailnet.{Tailnet}
use tailhopper.Ts.Persist.{persist}
use tailhopper.Registry.Config.{RegisteredTailnet, Broadcaster}
use tailhopper.Registry.Store.Claims.{IsUnique, Unclaimed, suffix_of}
use tailhopper.Registry.World.{World, list, less_id}
use tailhopper.Registry.Changes.{Outside}
use tailhopper.Registry.Changes.Laws.{entries}
use tailhopper.Pac.{handler, deref}
use tailhopper.Pac.Laws.{build_pac_lem, claimed}
use tailhopper.System.{Reach}
use tailhopper.System.Inv.{HasDistinctKeys}
use tailhopper.System.Laws.{IsJoined, Reach-IsJoined}

-- No two of the tailnets at two addresses have claimed the same suffix.
abbrev Apart : List Tailnet → ℕ → ℕ → Type 0
Apart heap a c =
    (s t : Tailnet)
    → get_elem? heap a ≡ some s
    → get_elem? heap c ≡ some t
    → s.claimed_magic_dns_suffix ≢ []
    → t.claimed_magic_dns_suffix ≢ s.claimed_magic_dns_suffix

Apart-symmetric : (heap : List Tailnet) (a c : ℕ) → Apart heap a c → Apart heap c a
Apart-symmetric heap a c p s t e f ne same = p t s f e (λ g. ne (sym same ∙ g)) (sym same)

pub All-found :
    (m : List (ℤ × RegisteredTailnet)) → HasDistinctKeys m → All (λ e. lookup e.0 m ≡ some e.1) m
unfolding HasDistinctKeys lookup
All-found [] d = tt
All-found ((k, r) ∷ m) d = (
  rw (int_eq_refl k),
  All-map _ (λ e. lookup e.0 ((k, r) ∷ m) ≡ some e.1) (λ e f. later e f) m (All-found m d.1),
)
  where
    later :
        (e : ℤ × RegisteredTailnet)
        → lookup e.0 m ≡ some e.1
        → (if int_eq k e.0 then some r else lookup e.0 m) ≡ some e.1
    later e f = ground (arith, f, d.0, int_eq_iff k e.0)

module _ {B : Type 0} (w : World B) (i : IsJoined w) where
  IsFound : ℤ × RegisteredTailnet → Type 0
  IsFound e = lookup e.0 (entries w) ≡ some e.1

  -- The tailnet of an entry has the suffix of the entry, or none.
  suffix_at :
      (e : ℤ × RegisteredTailnet) (t : Tailnet)
      → IsFound e
      → get_elem? w.heap e.1.tailnet ≡ some t
      → (t.claimed_magic_dns_suffix ≡ []) ⊎ (t.claimed_magic_dns_suffix ≡ suffix_of e)
  unfolding IsFound
  suffix_at e t f at =
      let (p, here, agree) = i.linked e.0 e.1 f in
      let same : p ≡ persist t = ground (arith, here, at) in
      subst (λ q. (q.claimed ≡ []) ⊎ (q.claimed ≡ suffix_of e)) same agree.suffix

  Apart-from :
      (e : ℤ × RegisteredTailnet) (l : List (ℤ × RegisteredTailnet))
      → IsFound e
      → All IsFound l
      → (suffix_of e ≡ []) ⊎ Unclaimed (suffix_of e) l
      → All (Apart w.heap e.1.tailnet) (map (λ x. x.1.tailnet) l)
  Apart-from e [] f g u = tt
  Apart-from e (x ∷ l) f g u = (
    λ s t at there ne same.
        ground (arith, u, ne, same, suffix_at e s f at, suffix_at x t g.0 there),
    Apart-from e l f g.1 (elim u [ inl z ↦ inl z | inr z ↦ inr z.1 ]),
  )

  All-Apart :
      (l : List (ℤ × RegisteredTailnet))
      → All IsFound l
      → IsUnique l
      → Pairwise (Apart w.heap) (map (λ x. x.1.tailnet) l)
  All-Apart [] f u = tt
  All-Apart (e ∷ l) f u = (Apart-from e l f.0 f.1 u.0, All-Apart l f.1 u.1)

  list-Apart : Pairwise (Apart w.heap) (list w)
  unfolding list IsFound
  list-Apart =
      sort-Pairwise (less_id w.heap) (Apart w.heap) (Apart-symmetric w.heap) _
        (All-Apart (entries w) (All-found (entries w) i.distinct) i.unique)

abbrev suffixes : List Tailnet → List Str
suffixes ts = map (λ t. t.claimed_magic_dns_suffix) (claimed ts)

module _ (heap : List Tailnet) where
  -- What one address adds to the suffixes.
  data Adds (c : ℕ) (rest : List ℕ) : Type 0 where
    nothing : suffixes (deref heap (c ∷ rest)) ≡ suffixes (deref heap rest) → Adds c rest
    suffix :
        (t : Tailnet)
        → get_elem? heap c ≡ some t
        → t.claimed_magic_dns_suffix ≢ []
        → suffixes (deref heap (c ∷ rest)) ≡ t.claimed_magic_dns_suffix ∷ suffixes (deref heap rest)
        → Adds c rest

  deref-Adds : (c : ℕ) (rest : List ℕ) → Adds c rest
  unfolding deref
  deref-Adds c rest = elim (Option-cases (get_elem? heap c)) [
    | inl f ↦ nothing (ground (arith, f))
    | inr (t, f) ↦ elim (Bool-cases (is_empty t.claimed_magic_dns_suffix)) [
      | inl g ↦ nothing (ground (arith, f, g))
      | inr g ↦ suffix t f (ground (arith, g)) (ground (arith, f, g))
    ]
  ]

  others_differ :
      (a : ℕ) (t : Tailnet) (rest : List ℕ)
      → get_elem? heap a ≡ some t
      → t.claimed_magic_dns_suffix ≢ []
      → All (Apart heap a) rest
      → All (λ s. s ≢ t.claimed_magic_dns_suffix) (suffixes (deref heap rest))
  unfolding deref
  others_differ a t [] e ne p = tt
  others_differ a t (c ∷ rest) e ne p =
      let ih = others_differ a t rest e ne p.1 in
      elim (deref-Adds c rest) [
        | nothing f ↦ subst (All (λ s. s ≢ t.claimed_magic_dns_suffix)) (sym f) ih
        | suffix s at _ f ↦
            subst (All (λ s. s ≢ t.claimed_magic_dns_suffix)) (sym f) (p.0 t s e at ne, ih)
      ]

  deref-Pairwise :
      (at : List ℕ) → Pairwise (Apart heap) at → Pairwise (λ s t. t ≢ s) (suffixes (deref heap at))
  unfolding deref
  deref-Pairwise [] p = tt
  deref-Pairwise (a ∷ rest) p =
      let ih = deref-Pairwise rest p.1 in
      elim (deref-Adds a rest) [
        | nothing f ↦ subst (Pairwise (λ s t. t ≢ s)) (sym f) ih
        | suffix t at ne f ↦
            subst (Pairwise (λ s t. t ≢ s)) (sym f) (others_differ a t rest at ne p.0, ih)
      ]

-- From a world whose entries and tailnets belong together (`IsJoined`), after any critical sections
-- of the tailnets, deleted ones included, and any adds and deletes, in any order and with any
-- outcome of the external calls, each add at a next id below the largest `int`, no two of the
-- suffixes that the PAC file is written for are the same.
pub pac_unambiguous :
    {B : Type 0} (b : Option (Broadcaster B)) (o : Outside) (w w' : World B)
    → IsJoined w
    → Reach b o w w'
    → Pairwise (λ s t. t ≢ s) (handler w').1
unfolding handler
pac_unambiguous b o w w' i r =
    rw (build_pac_lem (deref w'.heap (list w')))
      (deref-Pairwise w'.heap (list w') (list-Apart w' (Reach-IsJoined b o i r)))
