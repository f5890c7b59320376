-- ===== src/Pac/Laws.antt =====
-- The PAC file against a description of it without loops.
use mathlib.Core.List.{append_assoc, append-nil}
use tailhopper.Base.{
  Str, is_empty, ◌≡◌, sym, ◌∙◌, List, [], ◌∷◌, ◌++◌, map, if◌then◌else◌, Bool-cases, inl, inr, refl,
  ap,
}
use tailhopper.Ts.Tailnet.{Tailnet}
use tailhopper.Ui.Dashboard.{socks_addr}
use tailhopper.Pac.{rule, head_line, last_lines, write_rules, build_pac_for_tailnets}

-- The tailnets with a claimed suffix.
abbrev pub claimed : List Tailnet → List Tailnet
claimed [] = []
claimed (t ∷ ts) = if is_empty t.claimed_magic_dns_suffix then claimed ts else t ∷ claimed ts

abbrev pub concat : List Str → Str
concat [] = []
concat (s ∷ ss) = s ++ concat ss

abbrev pub rule_of : Tailnet → Str
rule_of t = rule t.claimed_magic_dns_suffix (socks_addr t)

regroup :
    (sb r rules rest : Str) (suffixes : List Str) (suffix : Str) (more : List Str)
    → ◌≡◌ {A = Str × List Str}
        (sb ++ r ++ (rules ++ rest), suffixes ++ suffix ∷ [] ++ more)
        (sb ++ (r ++ rules ++ rest), suffixes ++ suffix ∷ more)
regroup sb r rules rest suffixes suffix more =
    rw (append_assoc sb r (rules ++ rest))
      (rw (append_assoc r rules rest) (rw (append_assoc suffixes (suffix ∷ []) more) refl))

write_rules_lem :
    (ts : List Tailnet) (sb : Str) (suffixes : List Str)
    → write_rules ts sb suffixes ≡ (
      sb ++ (concat (map rule_of (claimed ts)) ++ last_lines),
      suffixes ++ map (λ t. t.claimed_magic_dns_suffix) (claimed ts),
    )
unfolding write_rules
write_rules_lem [] sb suffixes = ap (λ s. (sb ++ last_lines, s)) (sym (append-nil suffixes))
write_rules_lem (t ∷ ts) sb suffixes = elim (Bool-cases (is_empty t.claimed_magic_dns_suffix)) [
  | inl e ↦ rw e (write_rules_lem ts sb suffixes)
  | inr e ↦ rw e (
      write_rules_lem ts (sb ++ rule_of t) (suffixes ++ t.claimed_magic_dns_suffix ∷ [])
      ∙ regroup sb (rule_of t) (concat (map rule_of (claimed ts))) last_lines suffixes
          t.claimed_magic_dns_suffix (map (λ u. u.claimed_magic_dns_suffix) (claimed ts)))
]

-- The PAC text is the head line, then for each tailnet with a claimed suffix, in order, its rule
-- for that suffix and its proxy, then the last lines; and the suffixes are those of these tailnets,
-- in order.
pub build_pac_lem :
    (ts : List Tailnet)
    → build_pac_for_tailnets ts ≡ (
      head_line ++ (concat (map rule_of (claimed ts)) ++ last_lines),
      map (λ t. t.claimed_magic_dns_suffix) (claimed ts),
    )
unfolding build_pac_for_tailnets
build_pac_lem ts = write_rules_lem ts head_line []
