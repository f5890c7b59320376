-- ===== src/Base/Lines.antt =====
-- The lines of a text, and the parts of a line.
use Prim.Native.Nat.{ℕ}
use mathlib.Core.Path.{◌≡◌, refl, ap, ◌∙◌}
use mathlib.Core.Bool.{false}
use mathlib.Core.Logic.{◌≢◌}
use mathlib.Core.Option.{some}
use mathlib.Core.List.{List, [], ◌∷◌, ◌++◌, append_assoc, append-nil}
use native.Mathlib.Omega.{arith}
use tailhopper.Base.Tests.{◌==◌, ==_iff, if◌then◌else◌}
use tailhopper.Base.Lists.{All}
use tailhopper.Base.Text.{Str, cut}

-- The lines that are complete, the first of which has begun with `line`.
unfoldable pub lines_from : Str → Str → List Str
lines_from line [] = []
lines_from line (c ∷ s) =
    let ended = lines_from [] s in
    let longer = lines_from (line ++ c ∷ []) s in if c == 10 then line ∷ ended else longer

pub lines-first :
    (line s rest : Str)
    → All (λ c. c ≢ 10) s
    → lines_from line (s ++ 10 ∷ rest) ≡ (line ++ s) ∷ lines_from [] rest
unfolding lines_from
lines-first line [] rest h = rw (append-nil line) refl
lines-first line (c ∷ s) rest h =
    let other : (c == 10) ≡ false = ground (arith, h.0, ==_iff c 10) in
    rw other (
      lines-first (line ++ c ∷ []) s rest h.1
      ∙ ap (λ l. l ∷ lines_from [] rest) (append_assoc line (c ∷ []) s))

pub cut_first : (k : ℕ) (a b : Str) → All (λ c. c ≢ k) a → cut k (a ++ k ∷ b) ≡ some (a, b)
unfolding cut
cut_first k [] b h = ground (arith, ==_iff k k)
cut_first k (c ∷ a) b h =
    let other : (c == k) ≡ false = ground (arith, h.0, ==_iff c k) in
    rw other (rw (cut_first k a b h.1) refl)
