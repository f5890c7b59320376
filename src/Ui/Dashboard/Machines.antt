-- ===== src/Ui/Dashboard/Machines.antt =====
-- Which machines a card shows, how, and in which order.
use mathlib.Core.List.{Perm, append_assoc, append-nil}
use tailhopper.Base.{
  Str, ltb, codes, join, str_eq, str_eq_iff, ◌≡◌, ◌≢◌, ◌<◌, refl, sym, ◌∙◌, true, false, List, [],
  ◌∷◌, ◌++◌, if◌then◌else◌, arith, Bool-cases, inl, inr, All, Pairwise, ◌⊎◌, some,
}
use tailhopper.Base.Sort.{sort, sort-perm, sort-IsSorted, IsSorted, All-sort}
use tailhopper.Ts.Ipn.{Node}
use tailhopper.Ui.Card.{MachineView}
use tailhopper.Ui.Dashboard.{
  str_lt, has_addresses, is_online, machine_view, collect, less_machine, machines_of,
}

str_lt-asym : (s t : Str) → str_lt s t ≡ true → str_lt t s ≡ false
unfolding str_lt
str_lt-asym [] [] h = ground arith
str_lt-asym [] (d ∷ t) h = ground arith
str_lt-asym (c ∷ s) [] h = ground arith
str_lt-asym (c ∷ s) (d ∷ t) h = ground (arith, str_lt-asym s t)

-- Not being less is transitive.
str_lt_trans : (s t u : Str) → str_lt t s ≡ false → str_lt u t ≡ false → str_lt u s ≡ false
unfolding str_lt
str_lt_trans [] [] [] h k = ground arith
str_lt_trans [] [] (e ∷ u) h k = ground arith
str_lt_trans [] (d ∷ t) [] h k = ground arith
str_lt_trans [] (d ∷ t) (e ∷ u) h k = ground arith
str_lt_trans (c ∷ s) [] [] h k = ground arith
str_lt_trans (c ∷ s) [] (e ∷ u) h k = ground arith
str_lt_trans (c ∷ s) (d ∷ t) [] h k = ground arith
str_lt_trans (c ∷ s) (d ∷ t) (e ∷ u) h k = ground (arith, str_lt_trans s t u)

-- The peers with an address, by their views.
abbrev pub shown : List Node → List MachineView
shown [] = []
shown (n ∷ peers) = if has_addresses n then machine_view n ∷ shown peers else shown peers

collect-shown :
    (peers : List Node) (machines : List MachineView)
    → collect peers machines ≡ machines ++ shown peers
unfolding collect
collect-shown [] machines = sym (append-nil machines)
collect-shown (n ∷ peers) machines = elim (Bool-cases (has_addresses n)) [
  | inl e ↦ rw e (
      collect-shown peers (machines ++ machine_view n ∷ [])
      ∙ append_assoc machines (machine_view n ∷ []) (shown peers))
  | inr e ↦ rw e (collect-shown peers machines)
]

-- A view is of one of two status classes.
abbrev HasStatus : MachineView → Type 0
HasStatus v = (v.status_class ≡ codes "online") ⊎ (v.status_class ≡ codes "offline")

machine_view-HasStatus : (n : Node) → HasStatus (machine_view n)
unfolding machine_view
machine_view-HasStatus n = elim (Bool-cases (is_online n.online)) [
  | inl e ↦ rw e (inl refl)
  | inr e ↦ rw e (inr refl)
]

module _ (to_lower : Str → Str) where
  less_machine-asym :
      (a b : MachineView) → less_machine to_lower a b ≡ true → less_machine to_lower b a ≡ false
  unfolding less_machine
  less_machine-asym a b h = ground (
    arith,
    str_eq_iff a.status_class b.status_class,
    str_eq_iff b.status_class a.status_class,
    str_eq_iff a.status_class (codes "online"),
    str_eq_iff b.status_class (codes "online"),
    str_lt-asym (to_lower a.dns_name) (to_lower b.dns_name),
  )

  less_machine_trans :
      (a b c : MachineView)
      → HasStatus a
      → HasStatus b
      → HasStatus c
      → less_machine to_lower b a ≡ false
      → less_machine to_lower c b ≡ false
      → less_machine to_lower c a ≡ false
  unfolding less_machine
  less_machine_trans a b c p q r h k = ground (
    arith,
    str_eq_iff b.status_class a.status_class,
    str_eq_iff c.status_class b.status_class,
    str_eq_iff c.status_class a.status_class,
    str_eq_iff b.status_class (codes "online"),
    str_eq_iff c.status_class (codes "online"),
    str_eq_iff a.status_class (codes "online"),
    str_lt_trans (to_lower a.dns_name) (to_lower b.dns_name) (to_lower c.dns_name),
  )

  shown-HasStatus : (peers : List Node) → All HasStatus (shown peers)
  unfolding machine_view
  shown-HasStatus [] = tt
  shown-HasStatus (n ∷ peers) = elim (Bool-cases (has_addresses n)) [
    | inl e ↦ rw e (machine_view-HasStatus n, shown-HasStatus peers)
    | inr e ↦ rw e (shown-HasStatus peers)
  ]

-- The order of texts: the first differing byte decides, and a text comes before its extensions.
abbrev pub IsBefore : Str → Str → Type 0
IsBefore [] t = Unit
IsBefore (c ∷ s) [] = ⊥
IsBefore (c ∷ s) (d ∷ t) = (c < d) ⊎ ((c ≡ d) × IsBefore s t)

not_less-IsBefore : (s t : Str) → str_lt t s ≡ false → IsBefore s t
unfolding str_lt
not_less-IsBefore [] t h = tt
not_less-IsBefore (c ∷ s) [] h = absurd (ground arith)
not_less-IsBefore (c ∷ s) (d ∷ t) h = elim (Bool-cases (ltb c d)) [
  | inl e ↦ inl (ground arith)
  | inr e ↦ inr (ground arith, not_less-IsBefore s t (ground arith))
]

-- What a card shows of a peer.
pub record IsViewOf (n : Node) (v : MachineView) : Type 0 where
  pub name : v.name ≡ n.computed_name
  pub dns_name : v.dns_name ≡ n.name
  pub status :
      ((n.online ≡ some true)
        × (v.status_class ≡ codes "online")
        × (v.status_text ≡ codes "online"))
      ⊎ ((n.online ≢ some true)
          × (v.status_class ≡ codes "offline")
          × (v.status_text ≡ codes "offline"))
  pub ips : v.ips ≡ join (codes ", ") n.addresses

-- The views of the peers that have an address, in the order of the peers.
pub data AreViews : List Node → List MachineView → Type 0 where
  none_left : AreViews [] []
  skipped :
      (n : Node) {peers : List Node} {views : List MachineView}
      → n.addresses ≡ []
      → AreViews peers views
      → AreViews (n ∷ peers) views
  viewed :
      (n : Node) (v : MachineView) {peers : List Node} {views : List MachineView}
      → n.addresses ≢ []
      → IsViewOf n v
      → AreViews peers views
      → AreViews (n ∷ peers) (v ∷ views)

machine_view-IsViewOf : (n : Node) → IsViewOf n (machine_view n)
unfolding machine_view
machine_view-IsViewOf n = record {
  name = refl;
  dns_name = refl;
  status = elim (Bool-cases (is_online n.online)) [
    | inl e ↦ rw e (inl (ground arith, refl, refl))
    | inr e ↦ rw e (inr ((λ q. ground arith), refl, refl))
  ];
  ips = refl;
}

shown-AreViews : (peers : List Node) → AreViews peers (shown peers)
shown-AreViews [] = none_left
shown-AreViews (n ∷ peers) = elim (Bool-cases (has_addresses n)) [
  | inl e ↦ rw e (
      viewed n (machine_view n) (λ q. ground arith) (machine_view-IsViewOf n)
        (shown-AreViews peers))
  | inr e ↦ rw e (skipped n (ground arith) (shown-AreViews peers))
]

module _ (to_lower : Str → Str) where
  -- Those that are online come first, and then the names decide.
  abbrev pub InOrder : MachineView → MachineView → Type 0
  InOrder a b =
      ((a.status_class ≡ codes "online") × (b.status_class ≡ codes "offline"))
      ⊎ ((a.status_class ≡ b.status_class) × IsBefore (to_lower a.dns_name) (to_lower b.dns_name))

  not_less-InOrder :
      (a b : MachineView)
      → HasStatus a
      → HasStatus b
      → less_machine to_lower b a ≡ false
      → InOrder a b
  unfolding less_machine
  not_less-InOrder a b p q h = elim (Bool-cases (str_eq b.status_class a.status_class)) [
    | inl e ↦ inr (
      sym ((str_eq_iff b.status_class a.status_class).0 e),
      not_less-IsBefore (to_lower a.dns_name) (to_lower b.dns_name) (ground (arith, e, h)),
    )
    | inr e ↦ inl (
        ground (
          arith,
          str_eq_iff b.status_class a.status_class,
          str_eq_iff b.status_class (codes "online"),
        ))
  ]

  sorted-InOrder :
      (vs : List MachineView)
      → All HasStatus vs
      → IsSorted (less_machine to_lower) vs
      → Pairwise InOrder vs
  sorted-InOrder [] p s = tt
  sorted-InOrder (v ∷ vs) p s = (later vs p.1 s.0, sorted-InOrder vs p.1 s.1)
    where
      later :
          (ws : List MachineView)
          → All HasStatus ws
          → All (λ w. less_machine to_lower w v ≡ false) ws
          → All (InOrder v) ws
      later [] q t = tt
      later (w ∷ ws) q t = (not_less-InOrder v w p.0 q.0 t.0, later ws q.1 t.1)

  -- The machines of a card are, in some order, the views of the peers that have an address, one for
  -- each: its name, its DNS name, whether it is online, and its addresses with commas between them.
  -- They are in this order: online machines come first, and within each kind no machine has a
  -- lower-cased DNS name before that of an earlier one, by the order of the bytes.
  pub machines_lem :
      (peers : List Node)
      → (views : List MachineView) × AreViews peers views
        × Perm (machines_of to_lower peers) views
        × Pairwise InOrder (machines_of to_lower peers)
  unfolding machines_of
  machines_lem peers =
      let less = less_machine to_lower in
      rw (collect-shown peers []) (
        shown peers,
        shown-AreViews peers,
        sort-perm less (shown peers),
        sorted-InOrder (sort less (shown peers))
            (All-sort less HasStatus (shown peers) (shown-HasStatus to_lower peers))
            (sort-IsSorted less HasStatus (less_machine-asym to_lower) (less_machine_trans to_lower)
              (shown peers) (shown-HasStatus to_lower peers)),
      )
