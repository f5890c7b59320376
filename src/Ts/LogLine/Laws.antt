-- ===== src/Ts/LogLine/Laws.antt =====
-- No word of a log line is lost.
use mathlib.Core.List.{append_assoc, append-nil}
use tailhopper.Base.{
  ℕ, Str, codes, is_empty, join, cut, ◌==◌, ==_iff, ◌≡◌, inl, inr, refl, sym, subst, ap, ◌∙◌, true,
  false, All, ◌≢◌, ◌≤◌, ◌⊎◌, Bool-cases, Option-cases, none, some, List, [], ◌∷◌, ◌++◌, arith,
}
use tailhopper.Ts.LogLine.{
  Attr, fields, is_key_char, all_key_chars, attr_in, attr_of, sort_tokens, parse_log_key_values,
}

-- A letter, a digit, an underscore, a hyphen or a dot.
abbrev pub IsKeyChar : ℕ → Type 0
IsKeyChar c =
    ((97 ≤ c) × (c ≤ 122))
    ⊎ ((65 ≤ c) × (c ≤ 90))
    ⊎ ((48 ≤ c) × (c ≤ 57))
    ⊎ (c ≡ 95)
    ⊎ (c ≡ 45)
    ⊎ (c ≡ 46)

abbrev pub IsKey : Str → Type 0
IsKey key = (key ≢ []) × All IsKeyChar key

-- The word that an attribute was.
abbrev pub word_of : Attr → Str
word_of a = a.key ++ 61 ∷ a.value

-- The attributes and the other words, each in their order, make up the tokens; a word is an
-- attribute if it can be read as one.
pub data Merged : List Attr → List Str → List Str → Type 0 where
  nil : Merged [] [] []
  attr :
      (a : Attr) {attrs : List Attr} {clean tokens : List Str}
      → IsKey a.key
      → Merged attrs clean tokens
      → Merged (a ∷ attrs) clean (word_of a ∷ tokens)
  word :
      (w : Str) {attrs : List Attr} {clean tokens : List Str}
      → ((key value : Str) → w ≡ key ++ 61 ∷ value → ¬ IsKey key)
      → Merged attrs clean tokens
      → Merged attrs (w ∷ clean) (w ∷ tokens)

is_key_char-IsKeyChar : (c : ℕ) → is_key_char c ≡ true → IsKeyChar c
unfolding is_key_char
is_key_char-IsKeyChar c e = ground (arith, ==_iff c 95, ==_iff c 45, ==_iff c 46)

IsKeyChar-is_key_char : (c : ℕ) → IsKeyChar c → is_key_char c ≡ true
unfolding is_key_char
IsKeyChar-is_key_char c h = ground (arith, ==_iff c 95, ==_iff c 45, ==_iff c 46)

All-IsKeyChar : (s : Str) → all_key_chars s ≡ true → All IsKeyChar s
unfolding all_key_chars
All-IsKeyChar [] e = tt
All-IsKeyChar (c ∷ s) e =
    (is_key_char-IsKeyChar c (ground (arith, e)), All-IsKeyChar s (ground (arith, e)))

IsKeyChar-All : (s : Str) → All IsKeyChar s → all_key_chars s ≡ true
unfolding all_key_chars
IsKeyChar-All [] h = refl
IsKeyChar-All (c ∷ s) h = rw (IsKeyChar-is_key_char c h.0) (IsKeyChar-All s h.1)

-- The first equals sign ends a key.
cut_key : (key value : Str) → All IsKeyChar key → cut 61 (key ++ 61 ∷ value) ≡ some (key, value)
unfolding cut
cut_key [] value h = refl
cut_key (c ∷ key) value h =
    let other : (c == 61) ≡ false = ground (arith, h.0, ==_iff c 61) in
    rw other (rw (cut_key key value h.1) refl)

attr_of-none :
    (w : Str) → attr_of w ≡ none → (key value : Str) → w ≡ key ++ 61 ∷ value → ¬ IsKey key
unfolding attr_of attr_in
attr_of-none w e key value same (ne, chars) =
    let found : cut 61 w ≡ some (key, value) =
      subst (λ t. cut 61 t ≡ some (key, value)) (sym same) (cut_key key value chars) in
    let valid = IsKeyChar-All key chars in
    let named : is_empty key ≡ false = ground arith in ground (arith, e, found, valid, named)

cut-some : (k : ℕ) (s : Str) (p : Str × Str) → cut k s ≡ some p → s ≡ p.0 ++ k ∷ p.1
unfolding cut
cut-some k [] p e = cc
cut-some k (c ∷ s) p e = elim (Bool-cases (c == k)) [
  | inl f ↦ ground (arith, e, f, ==_iff c k)
  | inr f ↦ elim (Option-cases (cut k s)) [
    | inl g ↦ absurd (ground (arith, e, f, g))
    | inr (q, g) ↦ ground (arith, e, f, g, cut-some k s q)
  ]
]

attr_of-some :
    (token : Str) (a : Attr)
    → attr_of token ≡ some a
    → (token ≡ word_of a) × (is_empty a.key ≡ false) × (all_key_chars a.key ≡ true)
unfolding attr_of attr_in
attr_of-some token a e = elim (Option-cases (cut b'=' token)) [
  | inl f ↦ absurd (ground (arith, e, f))
  | inr (p, f) ↦ ground (arith, e, f, cut-some b'=' token p)
]

record Sorted (tokens : List Str) (attrs : List Attr) (clean : List Str) : Type 0 where
  attributes : List Attr
  words : List Str
  result : sort_tokens tokens attrs clean ≡ (attrs ++ attributes, clean ++ words)
  merged : Merged attributes words tokens

sort_tokens-Sorted :
    (tokens : List Str) (attrs : List Attr) (clean : List Str) → Sorted tokens attrs clean
unfolding sort_tokens
sort_tokens-Sorted [] attrs clean = record {
  attributes = [];
  words = [];
  result = rw (append-nil attrs) (rw (append-nil clean) refl);
  merged = nil;
}
sort_tokens-Sorted (t ∷ tokens) attrs clean = elim (Option-cases (attr_of t)) [
  | inl e ↦
      let r = sort_tokens-Sorted tokens attrs (clean ++ t ∷ []) in
      record {
        attributes = r.attributes;
        words = t ∷ r.words;
        result =
            rw (e, sort_tokens)
              (r.result
                ∙ ap (λ (c : List Str). (attrs ++ r.attributes, c))
                    (append_assoc clean (t ∷ []) r.words));
        merged = word t (attr_of-none t e) r.merged;
      }
  | inr (a, e) ↦
      let (same, key, chars) = attr_of-some t a e in
      let r = sort_tokens-Sorted tokens (attrs ++ a ∷ []) clean in
      record {
        attributes = a ∷ r.attributes;
        words = r.words;
        result =
            rw (e, sort_tokens)
              (r.result
                ∙ ap (λ (c : List Attr). (c, clean ++ r.words))
                    (append_assoc attrs (a ∷ []) r.attributes));
        merged =
            subst (λ (w : Str). Merged (a ∷ r.attributes) r.words (w ∷ tokens)) (sym same)
              (attr a ((λ q. cc (key, ap is_empty q)), All-IsKeyChar a.key chars) r.merged);
      }
]

-- The words of a log line are, in order, the attributes, each printed as key, equals sign and
-- value, with a key that is not empty and made of ASCII letters, digits, underscores, hyphens and
-- dots, and the words of the clean message, none of which is such a key, an equals sign and a
-- value.
pub parse_log_lem :
    (msg : Str)
    → (words : List Str) × ((parse_log_key_values msg).1 ≡ join (codes " ") words)
      × Merged (parse_log_key_values msg).0 words (fields msg)
unfolding parse_log_key_values
parse_log_lem msg =
    let r = sort_tokens-Sorted (fields msg) [] [] in
    (
      r.words,
      ap (λ p. join (codes " ") p.1) r.result,
      subst (λ p. Merged p r.words (fields msg)) (sym (ap (λ p. p.0) r.result)) r.merged,
    )
