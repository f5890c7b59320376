-- ===== src/Registry/Changes.antt =====
-- `Add` and `Delete` of the registry.
pub mod Laws
pub mod Ends
pub mod Settles
use tailhopper.Base.{
  ℕ, ℤ, Str, codes, is_empty, int_succ, length, Bool, false, not, Option, none, some, List, [], ◌∷◌,
  ◌++◌, if◌then◌else◌,
}
use tailhopper.Base.Decimal.{print_int}
use tailhopper.Base.Maps.{lookup, insert, delete}
use tailhopper.Ts.State.{Error, message, error_text}
use tailhopper.Ts.Tailnet.{new_tailnet}
use tailhopper.Registry.Config.{
  PersistedTailnet, RegisteredTailnet, Registry, Broadcaster, Store, tailnet_not_found,
}
use tailhopper.Registry.Store.{save_locked, announce_global}
use tailhopper.Registry.World.{World, with_registry}

-- What `Add` asks of the operating system: the machine's name and a free port.
pub record AddCalls : Type 0 where
  pub os_hostname : Option Str
  pub port_error : Option Error
  pub port : ℤ

-- `dnsname.SanitizeHostname`, and `filepath.Join` of the config file's directory with two names.
pub record Outside : Type 0 where
  pub sanitize_hostname : Str → Str
  pub beside : Str → Str → Str → Str

pub data Added : Type 0 where
  added : ℕ → Added
  not_added : Error → Added

default_hostname : Outside → Option Str → Str
default_hostname o none = codes "tailhopper"
default_hostname o (some name) = o.sanitize_hostname name ++ codes "-tailhopper"

-- The hostname that `Add` gives a tailnet.
unfoldable pub hostname_for : Outside → Option Str → Str → Str
unfolding default_hostname
hostname_for o os_hostname given = if is_empty given then default_hostname o os_hostname else given

pub no_port : Error → Error
no_port e = message (codes "failed to find available port: " ++ error_text e)

-- The entry that `Add` makes.
unfoldable pub new_config : Outside → Str → ℤ → Str → ℤ → PersistedTailnet
new_config o path id hostname port = record {
  id = id;
  state_dir = o.beside path (codes "tailnets") (print_int id);
  socks_port = port;
  hostname = hostname;
  user_enabled = false;
  claimed_magic_dns_suffix = [];
  terminal_error = [];
}

module _ {B : Type 0} where
  -- The tailnet and its entry, before the save.
  unfoldable pub place : PersistedTailnet → World B → World B
  place c w = record w {
    store = record w.store {
      registry = record w.store.registry {
        tailnets =
            insert c.id (record { tailnet = length w.heap; config = c }) w.store.registry.tailnets;
      };
    };
    heap = w.heap ++ new_tailnet c.id c.state_dir c.hostname [] [] false c.socks_port ∷ [];
  }

  -- `delete(m.tailnets, id)`
  unfoldable pub drop_entry : ℤ → World B → World B
  drop_entry id w = with_registry (λ r. record r { tailnets = delete id r.tailnets }) w

  -- `os.RemoveAll(tailnet.config.StateDir)`, whose error is logged only
  unfoldable pub remove_dir : Str → World B → World B
  remove_dir dir w = if is_empty dir then w else record w {
    store = record w.store { disk = record w.store.disk { removed = dir ∷ w.store.disk.removed } };
  }

  abbrev with_store : World B → Store B → World B
  with_store w st = record w { store = st }

module _ {B : Type 0} (b : Option (Broadcaster B)) where
  -- What becomes of the save: roll back, or announce.
  finish_add : ℤ → ℕ → World B → Store B × Option Error → World B × Added
  unfolding drop_entry announce_global
  finish_add id a w (st, some e) = (drop_entry id (with_store w st), not_added e)
  finish_add id a w (st, none) = (with_store w (announce_global b st), added a)

  add_on : Outside → AddCalls → Str → ℤ → World B → World B × Added
  unfolding finish_add place save_locked hostname_for new_config
  add_on o c given id w = elim c.port_error [
    | some e ↦ (w, not_added (no_port e))
    | none ↦
        let hostname = hostname_for o c.os_hostname given in
        let w' = place (new_config o w.store.registry.path id hostname c.port) w in
        finish_add id (length w.heap) w' (save_locked w'.store)
  ]

  -- `Add`
  unfoldable pub add : Outside → AddCalls → Str → World B → World B × Added
  unfolding add_on
  add o c given w =
      add_on o c given w.store.registry.next_id
        (with_registry (λ r. record r { next_id = int_succ r.next_id }) w)

  delete_known : Option RegisteredTailnet → ℤ → World B → World B × Option Error
  unfolding remove_dir drop_entry save_locked announce_global
  delete_known none id w = (w, some tailnet_not_found)
  delete_known (some r) id w =
      let w' = drop_entry id (remove_dir r.config.state_dir w) in
      (with_store w' (announce_global b (save_locked w'.store).0), none)

  -- `Delete`; the error of the save is dropped.
  unfoldable pub delete_tailnet : ℤ → World B → World B × Option Error
  unfolding delete_known
  delete_tailnet id w = delete_known (lookup id w.store.registry.tailnets) id w
