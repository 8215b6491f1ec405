-- ===== src/Store/Tree/Calls.antt =====
-- What each call of the store does to a tree in order (store.go).
use fleetbox.Base.{◌≡◌, refl, ◌⊎◌, inl, inr, Option, none, some, arith, Option-cases}
use fleetbox.Base.Text.{Text}
use fleetbox.Base.Results.{Result, ok}
use fleetbox.Base.Dicts.{lookup, AllEntries-lookup}
use fleetbox.Store.Names.{cluster_name}
use fleetbox.Store.Tree.{
  Members, empty_dir, ensure_in, ensure_dir, members_of, dir_in, member_dir, save, parsed,
  MemberDir, Entry, folder, plain, Tree, Error,
}
use fleetbox.Store.Config.{Config}
use fleetbox.Store.Tree.Placed.{
  Whole, MemberPlaced, ClusterPlaced, put_members, put_dir, put_dir-Changed, put_same-Changed,
  IsPlaced, Changed,
}

-- The directory that is there, or a new one.
abbrev pub kept : Option MemberDir → MemberDir
kept none = empty_dir
kept (some d) = d

abbrev pub Gives : Tree → Text → Option MemberDir → Result Error Tree → Type 0
Gives t name d r = (t' : Tree) × (r ≡ ok t') × Changed t name d t'

-- The three states of a member's path in a tree in order.
pub data Standing (t : Tree) (name : Text) : Type 0 where
  no_cluster : lookup (cluster_name name) t.clusters ≡ none → Standing t name
  no_member :
      (ms : Members)
      → lookup (cluster_name name) t.clusters ≡ some (folder ms)
      → lookup name ms ≡ none
      → Standing t name
  member :
      (ms : Members) (d : MemberDir)
      → lookup (cluster_name name) t.clusters ≡ some (folder ms)
      → lookup name ms ≡ some (folder d)
      → Whole d.config
      → Standing t name

pub path_of : (name : Text) (t : Tree) → IsPlaced t → Standing t name
path_of name t p = clusters (Option-cases (lookup (cluster_name name) t.clusters))
  where
    inner :
        (ms : Members)
        → lookup (cluster_name name) t.clusters ≡ some (folder ms)
        → ClusterPlaced (cluster_name name) (folder ms)
        → (v : Option (Entry MemberDir)) → lookup name ms ≡ v
        → Standing t name
    inner ms e a none q = no_member ms e q
    inner ms e a (some plain) q =
        absurd (AllEntries-lookup (MemberPlaced (cluster_name name)) name ms a q)
    inner ms e a (some (folder d)) q =
        member ms d e q (AllEntries-lookup (MemberPlaced (cluster_name name)) name ms a q).1

    clusters :
        (lookup (cluster_name name) t.clusters ≡ none)
          ⊎ ((v : Entry Members) × (lookup (cluster_name name) t.clusters ≡ some v))
        → Standing t name
    clusters (inl e) = no_cluster e
    clusters (inr (plain, e)) =
        absurd (AllEntries-lookup ClusterPlaced (cluster_name name) t.clusters p.entries e)
    clusters (inr (folder ms, e)) =
        inner ms e (AllEntries-lookup ClusterPlaced (cluster_name name) t.clusters p.entries e)
          (lookup name ms) refl

module _ (name : Text) (t : Tree) where
  pub member_dir-no_cluster :
      lookup (cluster_name name) t.clusters ≡ none → member_dir name t ≡ none
  unfolding member_dir dir_in members_of lookup
  member_dir-no_cluster e = ground arith

  module _ (ms : Members) (e : lookup (cluster_name name) t.clusters ≡ some (folder ms)) where
    pub member_dir-no_member : lookup name ms ≡ none → member_dir name t ≡ none
    unfolding member_dir dir_in members_of
    member_dir-no_member q = ground arith

    pub member_dir-member :
        (d : MemberDir) → lookup name ms ≡ some (folder d) → member_dir name t ≡ some d
    unfolding member_dir dir_in members_of
    member_dir-member d q = ground arith

    ensure_dir-no_member : lookup name ms ≡ none → ensure_dir name t ≡ ok (put_dir name empty_dir t)
    unfolding ensure_dir ensure_in members_of empty_dir
    ensure_dir-no_member q = ground arith

    ensure_dir-member :
        (d : MemberDir)
        → lookup name ms ≡ some (folder d)
        → ensure_dir name t
          ≡ ok (put_members (cluster_name name) (members_of (cluster_name name) t) t)
    unfolding ensure_dir ensure_in members_of
    ensure_dir-member d q = ground arith

  ensure_dir-no_cluster :
      lookup (cluster_name name) t.clusters ≡ none
      → ensure_dir name t ≡ ok (put_dir name empty_dir t)
  unfolding ensure_dir members_of empty_dir
  ensure_dir-no_cluster e = ground arith

pub ensure_dir-Gives :
    (name : Text) (t : Tree)
    → IsPlaced t
    → Gives t name (some (kept (member_dir name t))) (ensure_dir name t)
unfolding empty_dir
ensure_dir-Gives name t p = at (path_of name t p)
  where
    at : Standing t name → Gives t name (some (kept (member_dir name t))) (ensure_dir name t)
    at (no_cluster e) = rw (member_dir-no_cluster name t e) (
      put_dir name empty_dir t,
      ensure_dir-no_cluster name t e,
      put_dir-Changed name empty_dir t p tt,
    )
    at (no_member ms e q) = rw (member_dir-no_member name t ms e q) (
      put_dir name empty_dir t,
      ensure_dir-no_member name t ms e q,
      put_dir-Changed name empty_dir t p tt,
    )
    at (member ms d e q w) =
        let there = member_dir-member name t ms e d q in
        rw there (
          put_members (cluster_name name) (members_of (cluster_name name) t) t,
          ensure_dir-member name t ms e d q,
          put_same-Changed name d t p there,
        )

abbrev pub with_config : Config → MemberDir → MemberDir
with_config c d = record d { config = some (parsed c) }

save-at :
    (c : Config) (t : Tree) (d : MemberDir)
    → member_dir c.name t ≡ some d
    → save c t ≡ ok (put_dir c.name (with_config c d) t)
unfolding save
save-at c t d e = ground arith

pub save-Gives :
    (c : Config) (t : Tree) (d : MemberDir)
    → IsPlaced t
    → member_dir c.name t ≡ some d
    → Gives t c.name (some (with_config c d)) (save c t)
save-Gives c t d p e = (
  put_dir c.name (with_config c d) t,
  save-at c t d e,
  put_dir-Changed c.name (with_config c d) t p tt,
)
