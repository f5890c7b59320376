-- ===== src/Pac/Script/Rules.antt =====
-- How a browser reads the lines of the PAC file.
use mathlib.Core.List.{append_assoc}
use tailhopper.Base.{
  ℕ, Str, codes, str_eq, ◌≡◌, ◌≢◌, refl, ap, ◌∙◌, some, [], ◌∷◌, ◌++◌, map, All, All-map,
  All-append, arith,
}
use tailhopper.Base.Lines.{lines_from, lines-first, cut_first}
use tailhopper.Base.Decimal.{print_int, print_int-All_above}
use tailhopper.Ts.Tailnet.{Tailnet}
use tailhopper.Ui.Dashboard.{socks_addr}
use tailhopper.Pac.{rule}
use tailhopper.Pac.Laws.{rule_of}
use tailhopper.Pac.Script.{
  if_matches, returns, ends, quoted, first_quote, second_quote, quoted_statement, trimmed_statement,
  trim_left, statement_of,
}
use tailhopper.Pac.Script.Glob.{IsPlain}

-- The line of a text, as it is read.
line-first :
    (s rest : Str)
    → All (λ c. c ≢ 10) s
    → lines_from [] (s ++ 10 ∷ [] ++ rest) ≡ s ∷ lines_from [] rest
line-first s rest h = ap (lines_from []) (append_assoc s (10 ∷ []) rest) ∙ lines-first [] s rest h

quoted_parts :
    (before inner after : Str)
    → All (λ c. c ≢ 34) before
    → All (λ c. c ≢ 34) inner
    → quoted (before ++ 34 ∷ (inner ++ 34 ∷ after)) ≡ some (before, inner, after)
unfolding quoted first_quote
quoted_parts before inner after h k =
    ap first_quote (cut_first 34 before (inner ++ 34 ∷ after) h)
    ∙ ap (second_quote before) (cut_first 34 inner after k)

-- The lines of a rule.
abbrev if_line : Str → Str
if_line suffix = codes "    if (shExpMatch(host, " ++ 34 ∷ codes "*." ++ suffix ++ 34 ∷ codes ")) {"

abbrev return_line : Str → Str
return_line addr =
    codes "        return "
    ++ 34 ∷ codes "SOCKS5 "
    ++ addr
    ++ codes "; SOCKS "
    ++ addr
    ++ codes "; DIRECT"
    ++ 34 ∷ codes ";"

-- The address of the proxy, and the answer that names it.
abbrev pub proxy_of : Tailnet → Str
proxy_of t = codes "localhost:" ++ print_int t.socks_port

abbrev pub answer_for : Tailnet → Str
answer_for t = codes "SOCKS5 " ++ proxy_of t ++ codes "; SOCKS " ++ proxy_of t ++ codes "; DIRECT"

if_statement :
    (suffix : Str)
    → All IsPlain suffix
    → statement_of (if_line suffix) ≡ some (if_matches (codes "*." ++ suffix))
unfolding statement_of quoted_statement str_eq
if_statement suffix h = ap quoted_statement (
    quoted_parts (codes "if (shExpMatch(host, ") (codes "*." ++ suffix) (codes ")) {") (omega arith)
      ((λ q. cc), ((λ q. cc), All-map IsPlain (λ c. c ≢ 34) (λ c p. p.0) suffix h)))

-- No quotes and line ends in an answer.
unquoted_port : (t : Tailnet) → All (λ c. c ≢ 34) (print_int t.socks_port)
unquoted_port t =
    All-map _ _ (λ c h q. omega (arith, h, q)) (print_int t.socks_port)
      (print_int-All_above t.socks_port)

unbroken_port : (t : Tailnet) → All (λ c. c ≢ 10) (print_int t.socks_port)
unbroken_port t =
    All-map _ _ (λ c h q. omega (arith, h, q)) (print_int t.socks_port)
      (print_int-All_above t.socks_port)

module _ (P : ℕ → Type 0) where
  All-proxy :
      (t : Tailnet)
      → All P (codes "localhost:")
      → All P (print_int t.socks_port)
      → All P (proxy_of t)
  All-proxy t h k = All-append P (codes "localhost:") (print_int t.socks_port) h k

  All-answer :
      (t : Tailnet)
      → All P (codes "SOCKS5 ")
      → All P (codes "; SOCKS ")
      → All P (codes "; DIRECT")
      → All P (proxy_of t)
      → All P (answer_for t)
  All-answer t h k l p =
      let a = All-append P (codes "SOCKS5 ") (proxy_of t) h p in
      let b = All-append P (codes "SOCKS5 " ++ proxy_of t) (codes "; SOCKS ") a k in
      let c = All-append P (codes "SOCKS5 " ++ proxy_of t ++ codes "; SOCKS ") (proxy_of t) b p in
      All-append P (codes "SOCKS5 " ++ proxy_of t ++ codes "; SOCKS " ++ proxy_of t)
        (codes "; DIRECT") c l

return_statement :
    (t : Tailnet) → statement_of (return_line (socks_addr t)) ≡ some (returns (answer_for t))
unfolding statement_of quoted_statement str_eq socks_addr
return_statement t = ap quoted_statement (
    quoted_parts (codes "return ") (answer_for t) (codes ";") (omega arith) (
      All-answer (λ c. c ≢ 34) t (omega arith) (omega arith) (omega arith)
        (All-proxy (λ c. c ≢ 34) t (omega arith) (unquoted_port t))))

if_line-unbroken : (suffix : Str) → All IsPlain suffix → All (λ c. c ≢ 10) (if_line suffix)
if_line-unbroken suffix h =
    let start = codes "    if (shExpMatch(host, " ++ 34 ∷ codes "*." in
    All-append _ (start ++ suffix) (34 ∷ codes ")) {")
      (All-append _ start suffix (omega arith)
        (All-map IsPlain (λ c. c ≢ 10) (λ c p. p.1) suffix h))
      (omega arith)

return_line-unbroken : (t : Tailnet) → All (λ c. c ≢ 10) (return_line (socks_addr t))
unfolding socks_addr
return_line-unbroken t =
    All-append (λ c. c ≢ 10) (codes "        return " ++ 34 ∷ answer_for t) (34 ∷ codes ";")
      (All-append (λ c. c ≢ 10) (codes "        return " ++ 34 ∷ []) (answer_for t) (omega arith)
        (All-answer (λ c. c ≢ 10) t (omega arith) (omega arith) (omega arith)
          (All-proxy (λ c. c ≢ 10) t (omega arith) (unbroken_port t))))
      (omega arith)

closing_statement : statement_of (codes "    }") ≡ some ends
unfolding statement_of trimmed_statement trim_left str_eq
closing_statement = refl

-- What the statements of a rule are.
pub rule_statements :
    (t : Tailnet) (rest : Str)
    → All IsPlain t.claimed_magic_dns_suffix
    → map statement_of (lines_from [] (rule_of t ++ rest))
      ≡ some (if_matches (codes "*." ++ t.claimed_magic_dns_suffix))
        ∷ some (returns (answer_for t))
        ∷ some ends
        ∷ map statement_of (lines_from [] rest)
unfolding rule
rule_statements t rest h =
    let a = if_line t.claimed_magic_dns_suffix ++ 10 ∷ [] in
    let b = return_line (socks_addr t) ++ 10 ∷ [] in
    let c = codes "    }" ++ 10 ∷ [] in
    ap (λ s. map statement_of (lines_from [] s))
      (append_assoc (a ++ b) c rest ∙ append_assoc a b (c ++ rest))
    ∙ rw
        (line-first (if_line t.claimed_magic_dns_suffix) (b ++ (c ++ rest))
          (if_line-unbroken t.claimed_magic_dns_suffix h))
        (rw (line-first (return_line (socks_addr t)) (c ++ rest) (return_line-unbroken t)) (
          rw (line-first (codes "    }") rest (omega arith)) (
            rw (if_statement t.claimed_magic_dns_suffix h)
              (rw (return_statement t) (rw closing_statement refl)))))
