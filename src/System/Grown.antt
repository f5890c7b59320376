-- ===== src/System/Grown.antt =====
-- An add and a delete keep the entries and the tailnets together.
use tailhopper.Base.{
  ℕ, zero, suc, ℤ, pos, max_int, int_eq_iff, int_succ, int_succ-lt, length, get_elem?, ◌<ℤ◌, ◌≡◌,
  ◌≢◌, ◌⊎◌, inl, inr, refl, sym, subst, ap, ◌∙◌, Option-cases, none, some, List, [], ◌∷◌, ◌++◌,
  arith,
}
use mathlib.Core.Option
use mathlib.Core.Path.{fun_ext}
use tailhopper.Base.Maps.{lookup, insert, delete, lookup-insert, lookup-delete}
use tailhopper.Ts.Tailnet.{Tailnet}
use tailhopper.Ts.Persist.{Persist, persist}
use tailhopper.Registry.Config.{RegisteredTailnet}
use tailhopper.Registry.Store.Claims.{Unclaimed, suffix_of}
use tailhopper.System.Entries.{
  HasDistinctKeys-insert, HasDistinctKeys-delete, IsUnique-delete, IsUnique-insert,
}
use tailhopper.System.Inv.{View, Agrees, Inv}

-- What the entries are compared with.
abbrev pub view_of : List Tailnet → View
view_of heap a = Option.map (λ t. (t.id, persist t)) (get_elem? heap a)

pub Inv-ext :
    (m : List (ℤ × RegisteredTailnet)) (n : ℤ) (v v' : View)
    → ((a : ℕ) → v a ≡ v' a)
    → Inv m n v
    → Inv m n v'
Inv-ext m n v v' same i = subst (λ x. Inv m n x) (fun_ext same) i

view_of-append :
    (heap : List Tailnet) (t : Tailnet) (a : ℕ) (x : ℤ × Persist)
    → view_of heap a ≡ some x
    → view_of (heap ++ t ∷ []) a ≡ some x
view_of-append [] t a x e = absurd (ground arith)
view_of-append (s ∷ heap) t zero x e = e
view_of-append (s ∷ heap) t (suc a) x e = view_of-append heap t a x e

view_of-last :
    (heap : List Tailnet) (t : Tailnet)
    → view_of (heap ++ t ∷ []) (length heap) ≡ some (t.id, persist t)
view_of-last [] t = refl
view_of-last (s ∷ heap) t = view_of-last heap t

pub view_of-append_cases :
    (heap : List Tailnet) (t : Tailnet) (a : ℕ) (x : ℤ × Persist)
    → view_of (heap ++ t ∷ []) a ≡ some x
    → (view_of heap a ≡ some x) ⊎ ((a ≡ length heap) × (x ≡ (t.id, persist t)))
view_of-append_cases [] t zero x e = inr (refl, ground arith)
view_of-append_cases [] t (suc a) x e = absurd (ground arith)
view_of-append_cases (s ∷ heap) t zero x e = inl e
view_of-append_cases (s ∷ heap) t (suc a) x e = ground (arith, view_of-append_cases heap t a x e)

below_next : (k n : ℤ) → n <ℤ pos max_int → k <ℤ n → k <ℤ int_succ n
below_next k n room h = omega (arith, int_succ-lt n room)

not_below : (n : ℤ) → n <ℤ n → ⊥
not_below n h = omega arith

-- A new tailnet at the end of the heap, with an id of its own.
module _ (m : List (ℤ × RegisteredTailnet)) (heap : List Tailnet) (t : Tailnet) (n n' : ℤ)
    (i : Inv m n (view_of heap)) (fresh : (a : ℕ) (p : Persist) → view_of heap a ≢ some (t.id, p))
    (further : (k : ℤ) → k <ℤ n → k <ℤ n') (above : t.id <ℤ n') where
  old_id : (a : ℕ) (k : ℤ) (p : Persist) → view_of heap a ≡ some (k, p) → k ≢ t.id
  old_id a k p e f = fresh a p (e ∙ ap (λ x. some (x, p)) f)

  grown-owner :
      (a c : ℕ) (k : ℤ) (p q : Persist)
      → view_of (heap ++ t ∷ []) a ≡ some (k, p)
      → view_of (heap ++ t ∷ []) c ≡ some (k, q)
      → a ≡ c
  grown-owner a c k p q e f = elim (view_of-append_cases heap t a (k, p) e) [
    | inl e' ↦ elim (view_of-append_cases heap t c (k, q) f) [
      | inl f' ↦ i.owner a c k p q e' f'
      | inr (_, f') ↦ absurd (old_id a k p e' (ap (λ x. x.0) f'))
    ]
    | inr (at, e') ↦ elim (view_of-append_cases heap t c (k, q) f) [
      | inl f' ↦ absurd (old_id c k q f' (ap (λ x. x.0) e'))
      | inr (at', _) ↦ at ∙ sym at'
    ]
  ]

  grown-below : (a : ℕ) (k : ℤ) (p : Persist) → view_of (heap ++ t ∷ []) a ≡ some (k, p) → k <ℤ n'
  grown-below a k p e = elim (view_of-append_cases heap t a (k, p) e) [
    | inl e' ↦ further k (i.below a k p e')
    | inr (_, e') ↦ subst (λ x. x <ℤ n') (sym (ap (λ x. x.0) e')) above
  ]

  -- The tailnet alone.
  pub Inv-grows : Inv m n' (view_of (heap ++ t ∷ []))
  Inv-grows = record {
    linked = λ k r e.
        let (p, at, g) = i.linked k r e in (p, view_of-append heap t r.tailnet (k, p) at, g);
    keyed = i.keyed;
    owner = grown-owner;
    below = grown-below;
    distinct = i.distinct;
    unique = i.unique;
  }

  -- The tailnet with its entry.
  pub Inv-gains :
      (r : RegisteredTailnet)
      → r.tailnet ≡ length heap
      → r.config.id ≡ t.id
      → (suffix_of (t.id, r) ≡ []) ⊎ Unclaimed (suffix_of (t.id, r)) m
      → Agrees (persist t) r.config
      → Inv (insert t.id r m) n' (view_of (heap ++ t ∷ []))
  Inv-gains r here id free agree = record {
    linked = λ k s e. elim (found k s e) [
      | inl (f, g) ↦ (
        persist t,
        ap (view_of (heap ++ t ∷ [])) (ap (λ x. x.tailnet) g ∙ here)
            ∙ view_of-last heap t
            ∙ ap (λ x. some (x, persist t)) (sym f),
        subst (λ x. Agrees (persist t) x.config) (sym g) agree,
      )
      | inr e' ↦
          let (p, at, g) = i.linked k s e' in (p, view_of-append heap t s.tailnet (k, p) at, g)
    ];
    keyed = λ k s e. elim (found k s e) [
      | inl (f, g) ↦ ap (λ x. x.config.id) g ∙ id ∙ sym f
      | inr e' ↦ i.keyed k s e'
    ];
    owner = grown-owner;
    below = grown-below;
    distinct = HasDistinctKeys-insert t.id r m i.distinct;
    unique = IsUnique-insert t.id r m free i.unique;
  }
    where
      found :
          (k : ℤ) (s : RegisteredTailnet)
          → lookup k (insert t.id r m) ≡ some s
          → ((k ≡ t.id) × (s ≡ r)) ⊎ (lookup k m ≡ some s)
      found k s e = ground (arith, e, lookup-insert t.id k r m, int_eq_iff t.id k)

-- A new tailnet whose id is the next one.
module _ (m : List (ℤ × RegisteredTailnet)) (heap : List Tailnet) (t : Tailnet)
    (i : Inv m t.id (view_of heap)) (room : t.id <ℤ pos max_int) where
  pub id_free : lookup t.id m ≡ none
  id_free = elim (Option-cases (lookup t.id m)) [
    | inl e ↦ e
    | inr (r, e) ↦
        let (p, at, g) = i.linked t.id r e in absurd (not_below t.id (i.below r.tailnet t.id p at))
  ]

  next_fresh : (a : ℕ) (p : Persist) → view_of heap a ≢ some (t.id, p)
  next_fresh a p e = not_below t.id (i.below a t.id p e)

  pub Inv-grown : Inv m (int_succ t.id) (view_of (heap ++ t ∷ []))
  Inv-grown =
      Inv-grows m heap t t.id (int_succ t.id) i next_fresh (λ k. below_next k t.id room)
        (int_succ-lt t.id room)

  pub Inv-added :
      (r : RegisteredTailnet)
      → r.tailnet ≡ length heap
      → r.config.id ≡ t.id
      → r.config.claimed_magic_dns_suffix ≡ []
      → Agrees (persist t) r.config
      → Inv (insert t.id r m) (int_succ t.id) (view_of (heap ++ t ∷ []))
  Inv-added r here id blank agree =
      Inv-gains m heap t t.id (int_succ t.id) i next_fresh (λ k. below_next k t.id room)
        (int_succ-lt t.id room) r here id (inl blank) agree

-- An id that is used up.
pub Inv-skipped :
    (m : List (ℤ × RegisteredTailnet)) (n : ℤ) (v : View)
    → n <ℤ pos max_int
    → Inv m n v
    → Inv m (int_succ n) v
Inv-skipped m n v room i = record {
  linked = i.linked;
  keyed = i.keyed;
  owner = i.owner;
  below = λ a k p e. below_next k n room (i.below a k p e);
  distinct = i.distinct;
  unique = i.unique;
}

pub Inv-deleted :
    (id : ℤ) (m : List (ℤ × RegisteredTailnet)) (n : ℤ) (v : View)
    → Inv m n v
    → Inv (delete id m) n v
Inv-deleted id m n v i = record {
  linked = λ k r e. i.linked k r (left k r e);
  keyed = λ k r e. i.keyed k r (left k r e);
  owner = i.owner;
  below = i.below;
  distinct = HasDistinctKeys-delete id m i.distinct;
  unique = IsUnique-delete id m i.unique;
}
  where
    left : (k : ℤ) (r : RegisteredTailnet) → lookup k (delete id m) ≡ some r → lookup k m ≡ some r
    left k r e = ground (arith, e, lookup-delete id k m)
