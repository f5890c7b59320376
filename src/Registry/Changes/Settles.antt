-- ===== src/Registry/Changes/Settles.antt =====
-- What `Add` leaves when it succeeds, and when it fails.
use tailhopper.Base.{ℕ, ℤ, Str, codes, ◌≡◌, ◌≢◌, ◌⊎◌, false, none, some, [], ◌++◌}
use tailhopper.Base.Decimal.{print_int}
use tailhopper.Ts.State.{stopped, user_disabled}
use tailhopper.Ts.Tailnet.{Tailnet}
use tailhopper.Registry.Config.{RegisteredTailnet}
use tailhopper.Registry.World.{World}
use tailhopper.Registry.Changes.{Outside, AddCalls}

module _ (o : Outside) (c : AddCalls) where
  -- The hostname of a new tailnet: the one given, or one made of that of the machine.
  abbrev pub HasHostname : Str → Str → Type 0
  HasHostname given host =
      ((given ≢ []) × (host ≡ given))
      ⊎ ((given ≡ []) × ((c.os_hostname ≡ none) × (host ≡ codes "tailhopper")))
      ⊎ ((given ≡ [])
          × (name : Str) × (c.os_hostname ≡ some name)
          × (host ≡ o.sanitize_hostname name ++ codes "-tailhopper"))

  -- The new tailnet with the id: stopped, disabled, holding and claiming nothing, with the port that
  -- was found and a directory of its own.
  pub record IsNew (path given : Str) (id : ℤ) (t : Tailnet) : Type 0 where
    pub its_id : t.id ≡ id
    pub port : t.socks_port ≡ c.port
    pub state_dir : t.tsnet_state_dir ≡ o.beside path (codes "tailnets") (print_int id)
    pub hostname : HasHostname given t.user_set_hostname
    pub server : t.server ≡ none
    pub watcher : t.watcher ≡ none
    pub socks_proxy : t.socks_proxy ≡ none
    pub claimed : t.claimed_magic_dns_suffix ≡ []
    pub no_error : t.terminal_error ≡ []
    pub state : t.current_state ≡ stopped
    pub wish : t.user_state ≡ user_disabled

-- Its entry, at the address of the tailnet.
pub record IsEntryOf (t : Tailnet) (a : ℕ) (r : RegisteredTailnet) : Type 0 where
  pub address : r.tailnet ≡ a
  pub its_id : r.config.id ≡ t.id
  pub port : r.config.socks_port ≡ t.socks_port
  pub state_dir : r.config.state_dir ≡ t.tsnet_state_dir
  pub hostname : r.config.hostname ≡ t.user_set_hostname
  pub wish : r.config.user_enabled ≡ false
  pub claimed : r.config.claimed_magic_dns_suffix ≡ []
  pub no_error : r.config.terminal_error ≡ []
