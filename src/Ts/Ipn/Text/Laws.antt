-- ===== src/Ts/Ipn/Text/Laws.antt =====
-- The text of a state against its fields.
use mathlib.Core.List.{append_assoc, append-nil}
use tailhopper.Base.{
  ℕ, Str, codes, str_eq, str_eq_iff, length, length-append, join, ◌≡◌, refl, sym, ap, ◌∙◌, false,
  inl, inr, Bool-cases, Option, none, some, List, [], ◌∷◌, ◌++◌, arith,
}
use tailhopper.Ts.Ipn.{IpnState, IpnValue}
use tailhopper.Ts.Ipn.Text.{
  append_field, drop_last, closed, start_text, written, string, state_field, error_field, url_field,
  node_field, peers_field, messages_field,
}

-- The fields that are there.
abbrev pub present : List (Option Str) → List Str
present [] = []
present (none ∷ l) = present l
present (some f ∷ l) = f ∷ present l

append_fields : List (Option Str) → Str → Str
unfolding append_field
append_fields [] sb = sb
append_fields (o ∷ l) sb = append_fields l (append_field o sb)

-- Each field with its space.
spaced : List Str → Str
spaced [] = []
spaced (f ∷ l) = f ++ 32 ∷ spaced l

append_fields_lem :
    (l : List (Option Str)) (sb : Str) → append_fields l sb ≡ sb ++ spaced (present l)
unfolding append_fields spaced
append_fields_lem [] sb = sym (append-nil sb)
append_fields_lem (none ∷ l) sb = append_fields_lem l sb
append_fields_lem (some f ∷ l) sb =
    append_fields_lem l (sb ++ (f ++ 32 ∷ []))
    ∙ append_assoc sb (f ++ 32 ∷ []) (spaced (present l))
    ∙ ap (λ t. sb ++ t) (append_assoc f (32 ∷ []) (spaced (present l)))

drop_last-append : (s : Str) (c : ℕ) (t : Str) → drop_last (s ++ c ∷ t) ≡ s ++ drop_last (c ∷ t)
unfolding drop_last
drop_last-append [] c t = refl
drop_last-append (d ∷ []) c t = refl
drop_last-append (d ∷ e ∷ s) c t = ap (λ u. d ∷ u) (drop_last-append (e ∷ s) c t)

drop_last-spaced :
    (f : Str) (l : List Str) → f ++ drop_last (32 ∷ spaced l) ≡ join (codes " ") (f ∷ l)
unfolding spaced drop_last join
drop_last-spaced f [] = append-nil f
drop_last-spaced f (g ∷ l) =
    ap (λ t. f ++ t)
      (drop_last-append (32 ∷ g) 32 (spaced l) ∙ ap (λ t. 32 ∷ t) (drop_last-spaced g l))

not_start : (f t : Str) → str_eq (start_text ++ (f ++ 32 ∷ t)) start_text ≡ false
not_start f t = elim (Bool-cases (str_eq (start_text ++ (f ++ 32 ∷ t)) start_text)) [
  | inl e ↦
      let same = ap length ((str_eq_iff _ start_text).0 e) in
      absurd (omega (arith, same, length-append f (32 ∷ t)))
  | inr e ↦ e
]

closed_lem :
    (l : List Str)
    → closed (start_text ++ spaced l) ≡ start_text ++ (join (codes " ") l ++ codes "}")
unfolding spaced join str_eq
closed_lem [] = refl
closed_lem (f ∷ l) = rw (not_start f (spaced l)) (
    ap (λ t. t ++ codes "}")
      (drop_last-append (start_text ++ f) 32 (spaced l)
        ∙ ap (λ t. start_text ++ t) (drop_last-spaced f l))
    ∙ append_assoc start_text (join (codes " ") (f ∷ l)) (codes "}"))

pub string_lem :
    (show : IpnValue → Str) (quote : Str → Str) (s : IpnState)
    → let fields = present (
        state_field show quote s
        ∷ error_field show quote s
        ∷ url_field show quote s
        ∷ node_field show quote s
        ∷ peers_field show quote s
        ∷ messages_field show quote s
        ∷ []) in
      string show quote s ≡ codes "IPNState{" ++ (join (codes " ") fields ++ codes "}")
unfolding string written append_fields
string_lem show quote s =
    ap closed (
      append_fields_lem
        (state_field show quote s
          ∷ error_field show quote s
          ∷ url_field show quote s
          ∷ node_field show quote s
          ∷ peers_field show quote s
          ∷ messages_field show quote s
          ∷ [])
        start_text)
    ∙ closed_lem _
