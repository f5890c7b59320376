-- ===== src/Pac.antt =====
-- Package internal/pac: the text of the PAC file.
pub mod Laws
pub mod Script
use tailhopper.Base.{
  ℕ, Str, codes, is_empty, Option, none, some, List, [], ◌∷◌, ◌++◌, if◌then◌else◌, get_elem?,
}
use tailhopper.Ts.Tailnet.{Tailnet, TailnetSnapshot, snapshot}
use tailhopper.Registry.World.{World, list}
use tailhopper.Ui.Dashboard.{socks_addr}

-- `writePAC`: the headers, and the text.
unfoldable pub write_pac : Str → List (Str × Str) × Str
write_pac content = (
  (codes "Content-Type", codes "application/x-ns-proxy-autoconfig")
      ∷ (
        codes "Content-Disposition",
        codes "inline; filename=" ++ 34 ∷ codes "proxy.pac" ++ 34 ∷ [],
      )
      ∷ (codes "Cache-Control", codes "no-cache, no-store, must-revalidate")
      ∷ (codes "Pragma", codes "no-cache")
      ∷ (codes "Expires", codes "0")
      ∷ [],
  content,
)

abbrev line : Str → Str
line s = s ++ 10 ∷ []

-- The three lines of one tailnet.
unfoldable pub rule : Str → Str → Str
rule suffix addr =
    line (codes "    if (shExpMatch(host, " ++ 34 ∷ codes "*." ++ suffix ++ 34 ∷ codes ")) {")
    ++ line (
        codes "        return "
        ++ 34 ∷ codes "SOCKS5 "
        ++ addr
        ++ codes "; SOCKS "
        ++ addr
        ++ codes "; DIRECT"
        ++ 34 ∷ codes ";")
    ++ line (codes "    }")

unfoldable pub head_line : Str
head_line = line (codes "function FindProxyForURL(url, host) {")

unfoldable pub last_lines : Str
last_lines = line (codes "    return " ++ 34 ∷ codes "DIRECT" ++ 34 ∷ codes ";") ++ line (codes "}")

-- The loop over the tailnets, with the text written so far and the suffixes met.
unfoldable pub write_rules : List Tailnet → Str → List Str → Str × List Str
unfolding rule socks_addr snapshot
write_rules [] sb suffixes = (sb ++ last_lines, suffixes)
write_rules (t ∷ ts) sb suffixes =
    let suffix = (snapshot t).magic_dns_suffix in
    if is_empty suffix
    then write_rules ts sb suffixes
    else write_rules ts (sb ++ rule suffix (socks_addr t)) (suffixes ++ suffix ∷ [])

-- `buildPACForTailnets`
unfoldable pub build_pac_for_tailnets : List Tailnet → Str × List Str
unfolding write_rules
build_pac_for_tailnets ts = write_rules ts head_line []

-- The tailnets at the addresses; one that is not in the heap does not occur.
unfoldable pub deref : List Tailnet → List ℕ → List Tailnet
deref heap [] = []
deref heap (a ∷ rest) =
    let more = deref heap rest in elim (get_elem? heap a) [ none ↦ more | some t ↦ t ∷ more ]

-- `Handler`: what is served, and the suffixes that are logged.
unfoldable pub handler : {B : Type 0} → World B → Str × List Str
unfolding build_pac_for_tailnets deref
handler w = build_pac_for_tailnets (deref w.heap (list w))
