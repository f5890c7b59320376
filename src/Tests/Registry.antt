-- ===== src/Tests/Registry.antt =====
-- Package registry.
use tailhopper.Base.{
  ℤ, ◌⊎◌, pos, negsuc, Str, codes, int_eq, ◌≡◌, ◌≢◌, refl, Option, none, some, [], ◌∷◌, arith,
}
use tailhopper.Base.Decimal.{atoi, print_int, atoi-print_int}
use tailhopper.Base.Maps.{lookup}
use tailhopper.Base.Sort.{sort}
use tailhopper.Ts.State.{already_claimed, message}
use tailhopper.Registry.Config.{RegisteredTailnet, Broadcaster, holds, saved, next_end, configs}
use tailhopper.Registry.Store.{claim}
use tailhopper.Registry.Store.Claims.{
  IsUnique, Unclaimed, claim-IsUnique, claim_lem, claim_after_failed_save,
}
use tailhopper.Registry.World.{World, list, load}
use tailhopper.Registry.World.Laws.{load_lem}
use tailhopper.Registry.Changes.{add, delete_tailnet, AddCalls}
use tailhopper.Registry.Changes.Laws.{delete_lem}
use tailhopper.Ts.Tailnet.{Tailnet}
use tailhopper.Tests.Fixtures.{
  home, first_config, second_config, two_entries, two_tailnets, failing, world, outside, add_calls,
  empty_disk,
}

abbrev nobody : Option (Broadcaster (Unit {0}))
nobody = none

work : Str
work = codes "work.ts.net"

atoi-print_int_example : atoi (print_int (negsuc 41)) ≡ some (negsuc 41)
atoi-print_int_example = atoi-print_int (negsuc 41) (omega arith) (omega arith)

atoi_test : (atoi (codes "12x") ≡ none) × (atoi (codes "+7") ≡ some (pos 7))
unfolding atoi
atoi_test = (refl, refl)

two_entries-IsUnique : IsUnique two_entries
two_entries-IsUnique = ground arith

claim-IsUnique_example : IsUnique (claim nobody (pos 2) home two_tailnets).0.registry.tailnets
claim-IsUnique_example = claim-IsUnique nobody (pos 2) home two_tailnets two_entries-IsUnique

abbrev second_entry : RegisteredTailnet
second_entry = record { tailnet = 1; config = second_config }

claim_lem_example :
    let (st', answer) = claim nobody (pos 2) (codes "work.ts.net") two_tailnets in
    ((answer ≡ none)
      × Unclaimed (codes "work.ts.net") two_entries
      × (next_end empty_disk.save_ends ≡ saved)
      × (lookup (pos 2) st'.registry.tailnets
          ≡ some (record second_entry {
            config = record second_config { claimed_magic_dns_suffix = codes "work.ts.net" };
          }))
      × ((j : ℤ) → j ≢ pos 2 → lookup j st'.registry.tailnets ≡ lookup j two_entries)
      × (st'.disk.file ≡ holds (configs st'.registry.tailnets)))
    ⊎ ((answer ≢ none)
        × ((¬ Unclaimed (codes "work.ts.net") two_entries)
            ⊎ (next_end empty_disk.save_ends ≢ saved)))
unfolding lookup int_eq
claim_lem_example = claim_lem nobody (pos 2) (codes "work.ts.net") two_tailnets second_entry refl

claim_after_failed_save_example :
    (claim nobody
      (pos 2)
      (codes "work.ts.net")
      (claim nobody (pos 2) (codes "work.ts.net") failing).0).1
    ≡ some (already_claimed (codes "work.ts.net"))
unfolding lookup int_eq
claim_after_failed_save_example =
    (claim_after_failed_save nobody (pos 2) (codes "work.ts.net") failing
      (record { tailnet = 1; config = second_config }) (ground arith) refl (λ e. cc)).2

listed : list world ≡ 0 ∷ 1 ∷ []
unfolding list sort
listed = refl

abbrev saved_world : World (Unit {0})
saved_world = record world {
  store = record two_tailnets {
    disk = record empty_disk { file = holds (first_config ∷ second_config ∷ []) };
  };
}

load_lem_example :
    configs (load saved_world).0.store.registry.tailnets ≡ first_config ∷ second_config ∷ []
load_lem_example =
    (load_lem saved_world (first_config ∷ second_config ∷ []) refl (((λ e. cc), tt), (tt, tt))
      (omega arith, (omega arith, tt))).1

abbrev no_ports : AddCalls
no_ports = record add_calls { port_error = some (message (codes "none")) }

no_ports_left : (add nobody outside no_ports [] world).0.heap ≡ world.heap
unfolding add
no_ports_left = refl

delete_lem_example : (delete_tailnet nobody (pos 1) world).1 ≡ none
unfolding lookup int_eq
delete_lem_example =
    (delete_lem nobody (pos 1) world (record { tailnet = 0; config = first_config }) refl).0
