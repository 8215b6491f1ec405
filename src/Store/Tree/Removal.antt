-- ===== src/Store/Tree/Removal.antt =====
-- `Delete` and `List` on a tree in order (store.go).
use fleetbox.Base.{◌≡◌, sym, ap, ◌∙◌, subst, ◌≢◌, ◌⊎◌, inl, inr, none, some, [], ◌∷◌, arith}
use fleetbox.Base.Text.{Text, Text-discrete}
use fleetbox.Base.Results.{Result, ok, err}
use fleetbox.Base.Sets.{without}
use fleetbox.Base.Dicts.{
  lookup, delete, lookup-insert_self, lookup-insert_other, lookup-delete_self, lookup-delete_other,
  Distinct-delete, AllEntries, AllEntries-delete,
}
use fleetbox.Store.Names.{cluster_name}
use fleetbox.Store.Tree.{
  Members, members_of, dir_in, member_dir, socket_name, control_socket_name, drop_empty, remove,
  MemberDir, Entry, folder, Tree, Error, missing,
}
use fleetbox.Store.Tree.Placed.{
  MemberPlaced, ClusterPlaced, members_of-Placed, put_members-IsPlaced, IsPlaced, Changed,
}
use fleetbox.Store.Tree.Calls.{
  Gives, path_of, member_dir-no_cluster, member_dir-no_member, Standing, no_cluster, no_member,
  member,
}

module _ (c : Text) (ms : Members) (t : Tree) where
  abbrev dropped : Tree
  dropped = record t { clusters = drop_empty c ms t.clusters }

members_of-dropped_self : (c : Text) (ms : Members) (t : Tree) → members_of c (dropped c ms t) ≡ ms
unfolding members_of drop_empty
members_of-dropped_self c [] t =
    let gone = lookup-delete_self {V = Entry Members} c t.clusters in ground arith
members_of-dropped_self c (m ∷ ms) t =
    let there = lookup-insert_self {V = Entry Members} c (folder (m ∷ ms)) t.clusters in
    ground arith

members_of-dropped_other :
    (c x : Text) (ms : Members) (t : Tree) → c ≢ x → members_of x (dropped c ms t) ≡ members_of x t
unfolding members_of drop_empty
members_of-dropped_other c x [] t n =
    let other = lookup-delete_other {V = Entry Members} c x t.clusters n in ground arith
members_of-dropped_other c x (m ∷ ms) t n =
    let other = lookup-insert_other {V = Entry Members} c x (folder (m ∷ ms)) t.clusters n in
    ground arith

dropped-IsPlaced :
    (c : Text) (ms : Members) (t : Tree)
    → IsPlaced t
    → AllEntries (MemberPlaced c) ms
    → IsPlaced (dropped c ms t)
unfolding drop_empty
dropped-IsPlaced c [] t p a = record {
  distinct = Distinct-delete c t.clusters p.distinct;
  entries = AllEntries-delete ClusterPlaced c t.clusters p.entries;
}
dropped-IsPlaced c (m ∷ ms) t p a = put_members-IsPlaced c (m ∷ ms) t p a

member_dir-dropped :
    (c : Text) (ms : Members) (t : Tree) (n : Text)
    → (c ≡ cluster_name n → dir_in n ms ≡ dir_in n (members_of c t))
    → member_dir n (dropped c ms t) ≡ member_dir n t
unfolding member_dir
member_dir-dropped c ms t n h = elim (Text-discrete c (cluster_name n)) [
  | yes e ↦
      ap (dir_in n)
        (subst (λ x. members_of x (dropped c ms t) ≡ ms) e (members_of-dropped_self c ms t))
      ∙ h e
      ∙ ap (λ x. dir_in n (members_of x t)) e
  | no k ↦ ap (dir_in n) (members_of-dropped_other c (cluster_name n) ms t k)
]

dir_in-delete_other :
    (name n : Text) (ms : Members) → name ≢ n → dir_in n (delete name ms) ≡ dir_in n ms
unfolding dir_in
dir_in-delete_other name n ms h =
    let other = lookup-delete_other {V = Entry MemberDir} name n ms h in ground arith

dir_in-delete_self : (name : Text) (ms : Members) → dir_in name (delete name ms) ≡ none
unfolding dir_in
dir_in-delete_self name ms =
    let gone = lookup-delete_self {V = Entry MemberDir} name ms in ground arith

module _ (sock_hash : Text → Text) (name : Text) (t : Tree) where
  -- The tree after a removal from the cluster's directory `ms`.
  abbrev removed : Members → Tree
  removed ms = record (dropped (cluster_name name) (delete name ms) t) {
    sockets =
        without (control_socket_name sock_hash name)
          (without (socket_name sock_hash name) t.sockets);
  }

  remove-member :
      (ms : Members) (d : MemberDir)
      → lookup (cluster_name name) t.clusters ≡ some (folder ms)
      → lookup name ms ≡ some (folder d)
      → remove sock_hash name t ≡ ok (removed ms)
  unfolding remove
  remove-member ms d e q = ground arith

  members_of-at :
      (ms : Members)
      → lookup (cluster_name name) t.clusters ≡ some (folder ms)
      → members_of (cluster_name name) t ≡ ms
  unfolding members_of
  members_of-at ms e = ground arith

  removed-Changed :
      (ms : Members)
      → IsPlaced t
      → lookup (cluster_name name) t.clusters ≡ some (folder ms)
      → Changed t name none (removed ms)
  unfolding member_dir members_of
  removed-Changed ms p e =
      let c = cluster_name name in
      let there = members_of-at ms e in
      let a : AllEntries (MemberPlaced c) ms =
        subst (AllEntries (MemberPlaced c)) there (members_of-Placed c t p) in
      let q =
        dropped-IsPlaced c (delete name ms) t p (AllEntries-delete (MemberPlaced c) name ms a) in
      record {
        placed = record { distinct = q.distinct; entries = q.entries };
        here =
            ap (dir_in name) (members_of-dropped_self c (delete name ms) t)
            ∙ dir_in-delete_self name ms;
        elsewhere = λ n h.
            member_dir-dropped c (delete name ms) t n
              (λ k. dir_in-delete_other name n ms h ∙ ap (dir_in n) (sym there));
      }

  remove-no_cluster :
      lookup (cluster_name name) t.clusters ≡ none → remove sock_hash name t ≡ err missing
  unfolding remove
  remove-no_cluster e = ground arith

  remove-no_member :
      (ms : Members)
      → lookup (cluster_name name) t.clusters ≡ some (folder ms)
      → lookup name ms ≡ none
      → remove sock_hash name t ≡ err missing
  unfolding remove
  remove-no_member ms e q = ground arith

-- A removal takes away the member's directory, or there was none and it says so.
abbrev Removes : Tree → Text → Result Error Tree → Type 0
Removes t name r = ((member_dir name t ≡ none) × (r ≡ err missing)) ⊎ Gives t name none r

pub remove-Removes :
    (sock_hash : Text → Text) (name : Text) (t : Tree)
    → IsPlaced t
    → Removes t name (remove sock_hash name t)
remove-Removes sock_hash name t p = at (path_of name t p)
  where
    at : Standing t name → Removes t name (remove sock_hash name t)
    at (no_cluster e) = inl (member_dir-no_cluster name t e, remove-no_cluster sock_hash name t e)
    at (no_member ms e q) =
        inl (member_dir-no_member name t ms e q, remove-no_member sock_hash name t ms e q)
    at (member ms d e q w) = inr (
      removed sock_hash name t ms,
      remove-member sock_hash name t ms d e q,
      removed-Changed sock_hash name t ms p e,
    )
