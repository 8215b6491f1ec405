-- ===== src/Store/Tree/Placed.antt =====
-- How the store's tree stays in order, and what each call does to one member's directory (store.go).
use fleetbox.Base.{
  ◌≡◌, refl, ap, ◌∙◌, subst, ◌≢◌, inl, inr, Option, none, some, [], arith, Option-cases, Distinct,
}
use fleetbox.Base.Text.{Text, Text-discrete}
use fleetbox.Base.Dicts.{
  lookup, insert, lookup-insert_self, lookup-insert_other, keys, Distinct-insert, AllEntries,
  AllEntries-insert, AllEntries-lookup,
}
use fleetbox.Store.Names.{cluster_name}
use fleetbox.Store.Tree.{
  Members, members_of, dir_in, member_dir, ConfigFile, parsed, broken, MemberDir, Entry, folder,
  plain, Tree,
}

-- A config.json that is whole, or not there.
abbrev pub Whole : Option ConfigFile → Type 0
Whole none = Unit
Whole (some broken) = ⊥
Whole (some (parsed c)) = Unit

abbrev pub MemberPlaced : Text → Text → Entry MemberDir → Type 0
MemberPlaced c n plain = ⊥
MemberPlaced c n (folder d) = (cluster_name n ≡ c) × Whole d.config

abbrev pub ClusterPlaced : Text → Entry Members → Type 0
ClusterPlaced c plain = ⊥
ClusterPlaced c (folder ms) = AllEntries (MemberPlaced c) ms

-- Every directory stands under its cluster, and nothing else stands there.
pub record IsPlaced (t : Tree) : Type 0 where
  pub distinct : Distinct (keys t.clusters)
  pub entries : AllEntries ClusterPlaced t.clusters

abbrev pub put_members : Text → Members → Tree → Tree
put_members c ms t = record t { clusters = insert c (folder ms) t.clusters }

pub members_of-Placed :
    (c : Text) (t : Tree) → IsPlaced t → AllEntries (MemberPlaced c) (members_of c t)
unfolding members_of
members_of-Placed c t p = elim (Option-cases (lookup c t.clusters)) [
  | inl e ↦ rw (e, members_of) tt
  | inr (v, e) ↦
      rw (e, members_of) (entry v (AllEntries-lookup ClusterPlaced c t.clusters p.entries e))
]
  where
    entry :
        (v : Entry Members)
        → ClusterPlaced c v
        → AllEntries (MemberPlaced c) (elim v as (λ _. Members) [ plain ↦ [] | folder ms ↦ ms ])
    entry plain h = absurd h
    entry (folder ms) h = h

pub put_members-IsPlaced :
    (c : Text) (ms : Members) (t : Tree)
    → IsPlaced t
    → AllEntries (MemberPlaced c) ms
    → IsPlaced (put_members c ms t)
put_members-IsPlaced c ms t p a = record {
  distinct = Distinct-insert c (folder ms) t.clusters p.distinct;
  entries = AllEntries-insert ClusterPlaced c (folder ms) t.clusters a p.entries;
}

members_of-put_self : (c : Text) (ms : Members) (t : Tree) → members_of c (put_members c ms t) ≡ ms
unfolding members_of
members_of-put_self c ms t =
    let self = lookup-insert_self {V = Entry Members} c (folder ms) t.clusters in ground arith

members_of-put_other :
    (c d : Text) (ms : Members) (t : Tree)
    → c ≢ d
    → members_of d (put_members c ms t) ≡ members_of d t
unfolding members_of
members_of-put_other c d ms t n =
    let other = lookup-insert_other {V = Entry Members} c d (folder ms) t.clusters n in ground arith

abbrev pub put_dir : Text → MemberDir → Tree → Tree
put_dir name d t =
    put_members (cluster_name name) (insert name (folder d) (members_of (cluster_name name) t)) t

dir_in-insert_self :
    (name : Text) (d : MemberDir) (ms : Members) → dir_in name (insert name (folder d) ms) ≡ some d
unfolding dir_in
dir_in-insert_self name d ms =
    let there = lookup-insert_self {V = Entry MemberDir} name (folder d) ms in ground arith

dir_in-insert_other :
    (name n : Text) (d : MemberDir) (ms : Members)
    → name ≢ n
    → dir_in n (insert name (folder d) ms) ≡ dir_in n ms
unfolding dir_in
dir_in-insert_other name n d ms h =
    let there = lookup-insert_other {V = Entry MemberDir} name n (folder d) ms h in ground arith

-- A change of one cluster's directory, as it is seen at the path of any member.
member_dir-put :
    (c : Text) (ms : Members) (t : Tree) (n : Text)
    → (c ≡ cluster_name n → dir_in n ms ≡ dir_in n (members_of c t))
    → member_dir n (put_members c ms t) ≡ member_dir n t
unfolding member_dir
member_dir-put c ms t n h = elim (Text-discrete c (cluster_name n)) [
  | yes e ↦
      ap (dir_in n)
        (subst (λ x. members_of x (put_members c ms t) ≡ ms) e (members_of-put_self c ms t))
      ∙ h e
      ∙ ap (λ x. dir_in n (members_of x t)) e
  | no k ↦ ap (dir_in n) (members_of-put_other c (cluster_name n) ms t k)
]

-- A tree in which one member's directory is another, and all else as it was.
pub record Changed (t : Tree) (name : Text) (d : Option MemberDir) (t' : Tree) : Type 0 where
  pub placed : IsPlaced t'
  pub here : member_dir name t' ≡ d
  pub elsewhere : (n : Text) → name ≢ n → member_dir n t' ≡ member_dir n t

pub put_dir-Changed :
    (name : Text) (d : MemberDir) (t : Tree)
    → IsPlaced t
    → Whole d.config
    → Changed t name (some d) (put_dir name d t)
unfolding member_dir
put_dir-Changed name d t p w =
    let c = cluster_name name in
    let ms = insert name (folder d) (members_of c t) in
    record {
      placed = put_members-IsPlaced c ms t p (
          AllEntries-insert (MemberPlaced c) name (folder d) (members_of c t) (refl, w)
            (members_of-Placed c t p));
      here =
          ap (dir_in name) (members_of-put_self c ms t)
          ∙ dir_in-insert_self name d (members_of c t);
      elsewhere =
          λ n h. member_dir-put c ms t n (λ e. dir_in-insert_other name n d (members_of c t) h);
    }

-- A member's directory that is there already is written back as it is.
pub put_same-Changed :
    (name : Text) (d : MemberDir) (t : Tree)
    → IsPlaced t
    → member_dir name t ≡ some d
    → Changed t name (some d) (put_members (cluster_name name) (members_of (cluster_name name) t) t)
put_same-Changed name d t p there =
    let c = cluster_name name in
    let kept = member_dir-put c (members_of c t) t in
    record {
      placed = put_members-IsPlaced c (members_of c t) t p (members_of-Placed c t p);
      here = kept name (λ e. refl) ∙ there;
      elsewhere = λ n h. kept n (λ e. refl);
    }
