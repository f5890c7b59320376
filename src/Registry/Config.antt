-- ===== src/Registry/Config.antt =====
-- The records of internal/registry/registry.go, and the config file as values. How a save ends is
-- fixed in advance by the disk, so that every outcome is covered.
use tailhopper.Base.{ℕ, ℤ, Str, codes, Bool, Option, none, some, List, [], ◌∷◌, map}
use tailhopper.Ts.State.{Error, message}

pub record PersistedTailnet : Type 0 where
  pub id : ℤ
  pub state_dir : Str
  pub socks_port : ℤ
  pub hostname : Str
  pub user_enabled : Bool
  pub claimed_magic_dns_suffix : Str
  pub terminal_error : Str

-- The tailnet is a pointer: an address in the heap of tailnets.
pub record RegisteredTailnet : Type 0 where
  pub tailnet : ℕ
  pub config : PersistedTailnet

pub record Registry : Type 0 where
  pub path : Str
  pub next_id : ℤ
  pub tailnets : List (ℤ × RegisteredTailnet)

-- `sse.Broadcaster`
pub record Broadcaster (B : Type 0) : Type 0 where
  pub broadcast_tailnet_change : ℤ → B → B
  pub broadcast_global_change : B → B

-- The config file: not there, not to be opened, not to be decoded, or a decoded list.
pub data File : Type 0 where
  missing : File
  unreadable invalid : Error → File
  holds : List PersistedTailnet → File

-- How one call of `saveLocked` ends; an encoder that fails leaves a file cut short.
pub data SaveEnd : Type 0 where
  saved : SaveEnd
  no_dir no_file cut_short : Str → SaveEnd

-- The file, how the next saves end (those after the list succeed), and the directories removed.
pub record Disk : Type 0 where
  pub file : File
  pub save_ends : List SaveEnd
  pub removed : List Str

abbrev pub next_end : List SaveEnd → SaveEnd
next_end [] = saved
next_end (e ∷ _) = e

abbrev later_ends : List SaveEnd → List SaveEnd
later_ends [] = []
later_ends (_ ∷ es) = es

end_save : SaveEnd → List PersistedTailnet → Disk → Disk × Option Error
end_save saved list d = (record d { file = holds list }, none)
end_save (no_dir text) list d = (d, some (message text))
end_save (no_file text) list d = (d, some (message text))
end_save (cut_short text) list d = (record d { file = invalid (message text) }, some (message text))

-- Writes the list of configurations.
unfoldable pub write_file : List PersistedTailnet → Disk → Disk × Option Error
unfolding end_save
write_file list d =
    end_save (next_end d.save_ends) list (record d { save_ends = later_ends d.save_ends })

unfoldable pub configs : List (ℤ × RegisteredTailnet) → List PersistedTailnet
configs m = map (λ e. e.1.config) m

-- What the registry's methods run on.
pub record Store (B : Type 0) : Type 0 where
  pub registry : Registry
  pub disk : Disk
  pub events : B

pub tailnet_not_found : Error
tailnet_not_found = message (codes "tailnet not found")
