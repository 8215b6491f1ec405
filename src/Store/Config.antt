-- ===== src/Store/Config.antt =====
-- internal/store/store.go: what is stored of a member.
use fleetbox.Base.{ℕ, List}
use fleetbox.Base.Text.{Text}

-- `Fixture`
pub record Fixture : Type 0 where
  pub host_path : Text
  pub guest_path : Text
  pub label : Text

-- `VM`, less the time it was created at.
pub record Config : Type 0 where
  pub name : Text
  pub mac : Text
  pub cpus : ℕ
  pub memory_mb : ℕ
  pub disk_mb : ℕ
  pub image : Text
  pub fixtures : List Fixture
  pub ip : Text
