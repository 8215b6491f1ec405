-- ===== src/Store/Tree.antt =====
-- internal/store/store.go: the two-level tree clusters/<cluster>/<member>/ and the sockets of run/. A name is
-- one segment of a path. `sock_hash` is the hexadecimal start of the name's SHA-256.
pub mod Placed
pub mod Calls
pub mod Removal
pub mod Listing
pub mod Replay
pub mod Refine
use fleetbox.Base.{
  suc, ◌+◌, ◌-◌, ◌/◌, ◌<◌, Bool, false, not, Option, none, some, List, [], ◌∷◌, ◌++◌, is_some, All,
}
use fleetbox.Base.Text.{Text, codes}
use fleetbox.Base.Results.{Result, ok, err, ◌>>=◌, ◌>>◌}
use fleetbox.Base.Sets.{has, without}
use fleetbox.Base.Int.{dec}
use fleetbox.Base.Dicts.{lookup, insert, delete}
use fleetbox.Base.Strings.{drop}
use fleetbox.Store.Names.{cluster_name}
use fleetbox.Store.Config.{Config}

-- The file config.json: what it parses to, or text that does not parse.
pub data ConfigFile : Type 0 where
  parsed : Config → ConfigFile
  broken : ConfigFile

-- A member's directory: its config.json and the names of its other files.
pub record MemberDir : Type 0 where
  pub config : Option ConfigFile
  pub files : List Text

-- An entry of a directory.
pub data Entry (A : Type 0) : Type 0 where
  folder : A → Entry A
  plain : Entry A

-- The directory clusters/ and the names in run/.
pub record Tree : Type 0 where
  pub clusters : List (Text × Entry (List (Text × Entry MemberDir)))
  pub sockets : List Text

-- `no_such_file` also stands for a path that runs through something else than a directory.
pub data Error : Type 0 where
  not_a_directory no_such_file bad_config missing : Error

abbrev pub Members : Type 0
Members = List (Text × Entry MemberDir)

pub empty_dir : MemberDir
empty_dir = record { config = none; files = [] }

-- `MkdirAll` on the member's directory, within its cluster's.
pub ensure_in : Text → Members → Result Error Members
ensure_in name ms = elim (lookup name ms) [
  | none ↦ ok (insert name (folder empty_dir) ms)
  | some plain ↦ err not_a_directory
  | some (folder d) ↦ ok ms
]

-- `EnsureDir`
pub ensure_dir : Text → Tree → Result Error Tree
ensure_dir name t = elim (lookup (cluster_name name) t.clusters) [
  | none ↦ ok (record t {
    clusters = insert (cluster_name name) (folder (insert name (folder empty_dir) [])) t.clusters;
  })
  | some plain ↦ err not_a_directory
  | some (folder ms) ↦ ensure_in name ms >>= λ ms'.
      ok (record t { clusters = insert (cluster_name name) (folder ms') t.clusters })
]

-- What stands at the member's path in its cluster's directory.
pub members_of : Text → Tree → Members
members_of cluster t = elim (lookup cluster t.clusters) [
  | none ↦ []
  | some plain ↦ []
  | some (folder ms) ↦ ms
]

pub dir_in : Text → Members → Option MemberDir
dir_in name ms = elim (lookup name ms) [
  | none ↦ none
  | some plain ↦ none
  | some (folder d) ↦ some d
]

pub member_dir : Text → Tree → Option MemberDir
member_dir name t = dir_in name (members_of (cluster_name name) t)

-- `Exists`
unfoldable pub exists : Text → Tree → Bool
exists name t = elim (member_dir name t) [ none ↦ false | some d ↦ is_some d.config ]

-- `Save`
pub save : Config → Tree → Result Error Tree
save c t = elim (member_dir c.name t) [
  | none ↦ err no_such_file
  | some d ↦
      let d' : MemberDir = record d { config = some (parsed c) } in
      let ms = insert c.name (folder d') (members_of (cluster_name c.name) t) in
      ok (record t { clusters = insert (cluster_name c.name) (folder ms) t.clusters })
]

-- `Create`
pub create : Config → Tree → Result Error Tree
create c t = ensure_dir c.name t >>= λ t'. save c t'

pub config_of : Option ConfigFile → Result Error Config
config_of none = err no_such_file
config_of (some broken) = err bad_config
config_of (some (parsed c)) = ok c

-- `Load`
pub load : Text → Tree → Result Error Config
load name t = elim (member_dir name t) [ none ↦ err no_such_file | some d ↦ config_of d.config ]

-- `SocketPath` and `ControlSocketPath`, as names in run/.
pub socket_name : (Text → Text) → Text → Text
socket_name sock_hash name = sock_hash name ++ codes ".sock"

pub control_socket_name : (Text → Text) → Text → Text
control_socket_name sock_hash primary = sock_hash primary ++ codes ".ctl"

-- The cluster's directory goes when it is left empty.
pub drop_empty : Text → Members → List (Text × Entry Members) → List (Text × Entry Members)
drop_empty cluster [] cs = delete cluster cs
drop_empty cluster (m ∷ ms) cs = insert cluster (folder (m ∷ ms)) cs

-- `Delete`
unfoldable pub remove : (Text → Text) → Text → Tree → Result Error Tree
remove sock_hash name t = elim (lookup (cluster_name name) t.clusters) [
  | none ↦ err missing
  | some plain ↦ err not_a_directory
  | some (folder ms) ↦ elim (lookup name ms) [
    | none ↦ err missing
    | some e ↦ ok (record {
      clusters = drop_empty (cluster_name name) (delete name ms) t.clusters;
      sockets =
          without (control_socket_name sock_hash name)
            (without (socket_name sock_hash name) t.sockets);
    })
  ]
]

pub member_names : Members → List Text
member_names [] = []
member_names ((m, folder d) ∷ ms) = m ∷ member_names ms
member_names ((m, plain) ∷ ms) = member_names ms

pub names_in : List (Text × Entry Members) → List Text
names_in [] = []
names_in ((c, plain) ∷ cs) = names_in cs
names_in ((c, folder ms) ∷ cs) = member_names ms ++ names_in cs

-- `List`, up to the order in which directories are read.
pub list : Tree → List Text
list t = names_in t.clusters
