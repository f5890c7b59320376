-- ===== src/Pac/Script/Laws.antt =====
-- Where a browser sends a host by the PAC file.
use mathlib.Core.List.{append_assoc}
use tailhopper.Base.{
  Str, codes, is_empty, ◌≡◌, ◌≢◌, refl, ap, ◌∙◌, true, false, Bool-cases, inl, inr, some, List, [],
  ◌∷◌, ◌++◌, map, All, arith,
}
use tailhopper.Base.Lines.{lines_from}
use tailhopper.Ts.Tailnet.{Tailnet}
use tailhopper.Pac.{head_line, last_lines, build_pac_for_tailnets}
use tailhopper.Pac.Laws.{claimed, concat, rule_of, build_pac_lem}
use tailhopper.Pac.Script.{
  statement_of, read_rules, read_statements, read_script, trimmed_statement, trim_left,
  sh_exp_match, first_answer, answer_of, find_proxy,
}
use tailhopper.Pac.Script.Glob.{IsPlain, IsUnder, sh_exp_match-IsUnder, sh_exp_match-not-IsUnder}
use tailhopper.Pac.Script.Rules.{answer_for, rule_statements}

-- The suffixes that tailnets have claimed stand for themselves in a script.
abbrev pub ArePlain : List Tailnet → Type 0
ArePlain ts = All (λ t. All IsPlain t.claimed_magic_dns_suffix) ts

-- What a host gets: the proxy of the first tailnet whose claimed suffix it is under, or no proxy.
pub data Routed (host : Str) : List Tailnet → Str → Type 0 where
  direct : Routed host [] (codes "DIRECT")
  unclaimed :
      {t : Tailnet} {ts : List Tailnet} {answer : Str}
      → t.claimed_magic_dns_suffix ≡ []
      → Routed host ts answer
      → Routed host (t ∷ ts) answer
  other :
      {t : Tailnet} {ts : List Tailnet} {answer : Str}
      → ¬ IsUnder t.claimed_magic_dns_suffix host
      → Routed host ts answer
      → Routed host (t ∷ ts) answer
  through :
      {t : Tailnet} {ts : List Tailnet}
      → t.claimed_magic_dns_suffix ≢ []
      → IsUnder t.claimed_magic_dns_suffix host
      → Routed host (t ∷ ts) (answer_for t)

abbrev rule_read : Tailnet → Str × Str
rule_read t = (codes "*." ++ t.claimed_magic_dns_suffix, answer_for t)

last_read :
    read_rules (map statement_of (lines_from [] last_lines))
    ≡ some (record { rules = []; otherwise = codes "DIRECT" })
unfolding read_rules statement_of lines_from last_lines
last_read = refl

head_read :
    (body : Str)
    → read_script (head_line ++ body) ≡ read_rules (map statement_of (lines_from [] body))
unfolding read_script read_statements statement_of trimmed_statement trim_left lines_from head_line
head_read body = refl

rules_read :
    (ts : List Tailnet)
    → ArePlain ts
    → read_rules
        (map statement_of (lines_from [] (concat (map rule_of (claimed ts)) ++ last_lines)))
      ≡ some (record { rules = map rule_read (claimed ts); otherwise = codes "DIRECT" })
unfolding read_rules
rules_read [] h = last_read
rules_read (t ∷ ts) h = elim (Bool-cases (is_empty t.claimed_magic_dns_suffix)) [
  | inl e ↦ rw e (rules_read ts h.1)
  | inr e ↦ rw e (
      ap (λ s. read_rules (map statement_of (lines_from [] s)))
        (append_assoc (rule_of t) (concat (map rule_of (claimed ts))) last_lines)
      ∙ rw (rule_statements t (concat (map rule_of (claimed ts)) ++ last_lines) h.0)
          (rw (rules_read ts h.1) refl))
]

empty-nil : (s : Str) → is_empty s ≡ true → s ≡ []
empty-nil [] h = refl
empty-nil (c ∷ s) h = ground arith

filled : (s : Str) → is_empty s ≡ false → s ≢ []
filled [] h e = ground arith
filled (c ∷ s) h e = cc

routed :
    (ts : List Tailnet) (host : Str)
    → ArePlain ts
    → Routed host ts (first_answer host (map rule_read (claimed ts)) (codes "DIRECT"))
unfolding first_answer
routed [] host h = direct
routed (t ∷ ts) host h = elim (Bool-cases (is_empty t.claimed_magic_dns_suffix)) [
  | inl e ↦ rw e (unclaimed (empty-nil t.claimed_magic_dns_suffix e) (routed ts host h.1))
  | inr e ↦ rw e (elim (Bool-cases (sh_exp_match (codes "*." ++ t.claimed_magic_dns_suffix) host)) [
    | inl m ↦ rw m (
        through (filled t.claimed_magic_dns_suffix e)
          (sh_exp_match-IsUnder t.claimed_magic_dns_suffix host h.0 m))
    | inr m ↦ rw m (
        other (sh_exp_match-not-IsUnder t.claimed_magic_dns_suffix host h.0 m) (routed ts host h.1))
  ])
]

-- If no claimed suffix has a quote, a backslash, a line end, a star or a question mark in it, then
-- a browser that reads the PAC file answers for every host, after the first tailnet in order whose
-- claimed suffix is not empty and which the host ends in after a name and a dot, with the proxy at
-- localhost and the port of that tailnet, as SOCKS5, then as SOCKS, then directly, and with no
-- proxy if there is no such tailnet; and the suffixes are those that are claimed, in order.
pub find_proxy_lem :
    (ts : List Tailnet) (host : Str)
    → ArePlain ts
    → (answer : Str) × (find_proxy (build_pac_for_tailnets ts).0 host ≡ some answer)
      × Routed host ts answer
      × ((build_pac_for_tailnets ts).1 ≡ map (λ t. t.claimed_magic_dns_suffix) (claimed ts))
unfolding find_proxy answer_of
find_proxy_lem ts host h =
    let built = build_pac_lem ts in
    let read = head_read (concat (map rule_of (claimed ts)) ++ last_lines) ∙ rules_read ts h in
    (
      first_answer host (map rule_read (claimed ts)) (codes "DIRECT"),
      ap (λ p. find_proxy p.0 host) built ∙ ap (answer_of host) read,
      routed ts host h,
      ap (λ p. p.1) built,
    )
