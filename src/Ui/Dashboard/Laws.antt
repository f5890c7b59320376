-- ===== src/Ui/Dashboard/Laws.antt =====
-- The address of the proxy on a card.
use tailhopper.Base.{
  suc, Str, codes, ◌≡◌, refl, true, [], ◌∷◌, ◌++◌, arith, All, ◌≤◌, some, max_int, pos_part,
  neg_part,
}
use tailhopper.Base.Decimal.{print_int, print_int-All, atoi, atoi-print_int}
use tailhopper.Ts.State.{connected}
use tailhopper.Ts.Tailnet.{Tailnet}
use tailhopper.Ui.Dashboard.{has_no, cut, host_and_port, card_of, socks_addr, split_host_port}

has_no_colon : (s : Str) → All (λ c. c ≤ 57) s → has_no b':' s ≡ true
unfolding has_no
has_no_colon [] h = refl
has_no_colon (c ∷ s) h = ground (arith, has_no_colon s h.1)

split_local :
    (port : Str)
    → All (λ c. c ≤ 57) port
    → split_host_port (codes "localhost:" ++ port) ≡ (codes "localhost", port)
unfolding split_host_port cut host_and_port
split_local port h = rw (has_no_colon port h) refl

module _ (to_lower : Str → Str) where
  -- If a tailnet is connected and its port is a 64-bit integer, then the card shows the proxy's
  -- host as localhost and a port that `Atoi` reads back as the port of the tailnet.
  pub socks_lem :
      (t : Tailnet)
      → t.current_state ≡ connected
      → pos_part t.socks_port ≤ max_int
      → neg_part t.socks_port ≤ suc max_int
      → ((card_of to_lower t).socks_host ≡ codes "localhost")
        × (atoi (card_of to_lower t).socks_port ≡ some t.socks_port)
  unfolding card_of socks_addr
  socks_lem t c p q =
      let split = split_local (print_int t.socks_port) (print_int-All t.socks_port) in
      rw c (rw split (refl, atoi-print_int t.socks_port p q))
