-- ===== src/Registry/World.antt =====
-- The methods of `Registry` that work on the tailnets: `NewRegistry`, `Load`, `List`, `Get`, `Add`,
-- `Delete` and `RestoreEnabledTailnets`. The tailnets stand in a heap, under their addresses.
pub mod Laws
use tailhopper.Base.{
  ℕ, ℤ, pos, Str, codes, is_empty, int_le, int_lt, int_succ, length, get_elem?, set, Bool, true,
  false, Option, none, some, List, [], ◌∷◌, ◌++◌, ◌&&◌, map, if◌then◌else◌,
}
use tailhopper.Base.Decimal.{print_int}
use tailhopper.Base.Maps.{lookup, insert, delete}
use tailhopper.Base.Sort.{sort}
use tailhopper.Ts.State.{State, stopped, UserState, is_user_enabled, Error, message, error_text}
use tailhopper.Ts.Host.{Host}
use tailhopper.Ts.Tailnet.{Tailnet, Machine, Hooks, new_tailnet, snapshot, TailnetSnapshot}
use tailhopper.Ts.Start.{StartCalls, start}
use tailhopper.Registry.Config.{
  PersistedTailnet, RegisteredTailnet, Registry, Broadcaster, File, missing, unreadable, invalid,
  holds, Disk, Store, tailnet_not_found,
}
use tailhopper.Registry.Store.{save_locked, announce_global, hooks}

pub record World (B : Type 0) : Type 0 where
  pub store : Store B
  pub heap : List Tailnet
  pub host : Host

-- `os.IsNotExist(err)`, or any other failure of `Load`
pub data LoadError : Type 0 where
  not_exist : LoadError
  failed : Error → LoadError

unfoldable pub tailnet_of : PersistedTailnet → Tailnet
tailnet_of c =
    new_tailnet c.id c.state_dir c.hostname c.claimed_magic_dns_suffix c.terminal_error
      c.user_enabled c.socks_port

abbrev pub address_of : Option RegisteredTailnet → Option ℕ
address_of none = none
address_of (some r) = some r.tailnet

-- `t.ID()` through a pointer; an address that is not in the heap does not occur.
abbrev id_of : Option Tailnet → ℤ
id_of none = pos 0
id_of (some t) = t.id

unfoldable pub id_at : List Tailnet → ℕ → ℤ
id_at heap a = id_of (get_elem? heap a)

abbrev pub less_id : List Tailnet → ℕ → ℕ → Bool
less_id heap a c = int_lt (id_at heap a) (id_at heap c)

module _ {B : Type 0} where
  abbrev pub with_registry : (Registry → Registry) → World B → World B
  with_registry f w = record w { store = record w.store { registry = f w.store.registry } }

  -- One round of the loop of `Load`.
  unfoldable pub register : PersistedTailnet → World B → World B
  unfolding tailnet_of
  register c w = record w {
    store = record w.store {
      registry = record r {
        tailnets = insert c.id (record { tailnet = length w.heap; config = c }) r.tailnets;
        next_id = if int_le r.next_id c.id then int_succ c.id else r.next_id;
      };
    };
    heap = w.heap ++ tailnet_of c ∷ [];
  }
    where
      r : Registry
      r = w.store.registry

  unfoldable pub register_all : List PersistedTailnet → World B → World B
  register_all [] w = w
  register_all (c ∷ cs) w = register_all cs (register c w)

  load_file : File → World B → World B × Option LoadError
  unfolding register_all
  load_file missing w = (w, some not_exist)
  load_file (unreadable e) w = (w, some (failed e))
  load_file (invalid e) w = (w, some (failed e))
  load_file (holds list) w =
      (register_all list (with_registry (λ r. record r { tailnets = []; next_id = pos 1 }) w), none)

  -- `Load`
  unfoldable pub load : World B → World B × Option LoadError
  unfolding load_file
  load w = load_file w.store.disk.file w

  accept : World B × Option LoadError → Option Error × World B
  accept (w, none) = (none, w)
  accept (w, some not_exist) = (none, w)
  accept (w, some (failed e)) = (some e, w)

  -- `NewRegistry`: a registry, unless there is an error.
  unfoldable pub new_registry : Str → Disk → B → Host → Option Error × World B
  unfolding load accept
  new_registry path disk events host = accept (
      load (record {
        store = record {
          registry = record { path = path; next_id = pos 1; tailnets = [] };
          disk = disk;
          events = events;
        };
        heap = [];
        host = host;
      }))

  -- `Get`
  unfoldable pub get : ℤ → World B → Option ℕ
  get id w = address_of (lookup id w.store.registry.tailnets)

  -- `List`
  unfoldable pub list : World B → List ℕ
  unfolding id_at
  list w = sort (less_id w.heap) (map (λ e. e.1.tailnet) w.store.registry.tailnets)
