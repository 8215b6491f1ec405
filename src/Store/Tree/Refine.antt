-- ===== src/Store/Tree/Refine.antt =====
-- The store as a map from names: what a client of store.go sees over any sequence of calls.
use fleetbox.Base.{
  ◌≡◌, refl, sym, ap, ◌∙◌, subst, ◌≢◌, ◌↔◌, Bool, false, Option, none, some, List, is_some, In,
}
use fleetbox.Base.Text.{Text}
use fleetbox.Base.Results.{Result, ok, err}
use fleetbox.Store.Config.{Config}
use fleetbox.Store.Tree.{
  member_dir, exists, config_of, load, list, ConfigFile, parsed, broken, MemberDir, Tree, Error,
  no_such_file,
}
use fleetbox.Store.Tree.Listing.{In-list}
use fleetbox.Store.Tree.Placed.{Whole, IsPlaced}
use fleetbox.Store.Tree.Calls.{
  path_of, member_dir-no_cluster, member_dir-no_member, member_dir-member, Standing, no_cluster,
  no_member, member,
}
use fleetbox.Store.Tree.Replay.{Call, run, config_in, shown, view, replay, run-Refines}

-- What `Load` and `Exists` say of an abstract entry.
abbrev pub loaded : Option (Option Config) → Result Error Config
loaded none = err no_such_file
loaded (some none) = err no_such_file
loaded (some (some c)) = ok c

abbrev pub stored : Option (Option Config) → Bool
stored none = false
stored (some c) = is_some c

-- What the file of a member that is there holds.
config-Whole :
    (n : Text) (t : Tree) (d : MemberDir) → IsPlaced t → member_dir n t ≡ some d → Whole d.config
config-Whole n t d p e = at (path_of n t p)
  where
    at : Standing t n → Whole d.config
    at (no_cluster q) = let none_there = member_dir-no_cluster n t q in absurd (cc)
    at (no_member ms q r) = let none_there = member_dir-no_member n t ms q r in absurd (cc)
    at (member ms d' q r w) =
        let there = member_dir-member n t ms q d' r in
        let same_dir : d' ≡ d = cc in subst (λ x. Whole x.config) same_dir w

load-view :
    (n : Text) (t : Tree)
    → IsPlaced t
    → (load n t ≡ loaded (view t n)) × (exists n t ≡ stored (view t n))
unfolding load exists view config_of
load-view n t p = at (member_dir n t) refl
  where
    file :
        (f : Option ConfigFile)
        → Whole f
        → (config_of f ≡ loaded (some (config_in f))) × (is_some f ≡ stored (some (config_in f)))
    file none w = (refl, refl)
    file (some broken) w = absurd w
    file (some (parsed c)) w = (refl, refl)

    at :
        (o : Option MemberDir)
        → member_dir n t ≡ o
        → (load n t ≡ loaded (view t n)) × (exists n t ≡ stored (view t n))
    at none e = rw (e, load, exists, view) (refl, refl)
    at (some d) e = rw (e, load, exists, view) (file d.config (config-Whole n t d p e))

view-none : (n : Text) (t : Tree) → (member_dir n t ≢ none) ↔ (view t n ≢ none)
unfolding view
view-none n t = at (member_dir n t)
  where
    at : (o : Option MemberDir) → (o ≢ none) ↔ (shown o ≢ none)
    at none = (λ h. absurd (h refl), λ h. absurd (h refl))
    at (some d) = (λ h q. cc, λ h q. cc)

-- The two-level tree is a map: after any sequence of calls on a tree in order, what `Load`, `Exists` and
-- `List` say of a name is what the same calls on a function from names give for it.
pub run_refines :
    (sock_hash : Text → Text) (cs : List Call) (t : Tree)
    → IsPlaced t
    → (n : Text)
    → let t' = run sock_hash cs t in
      let v = replay cs (view t) n in
      (load n t' ≡ loaded v) × (exists n t' ≡ stored v) × (In n (list t') ↔ (v ≢ none))
run_refines sock_hash cs t p n =
    let t' = run sock_hash cs t in
    let (q, same_view) = run-Refines sock_hash cs t p in
    let (l, e) = load-view n t' q in
    let (there, back) = In-list n t' q in
    let (shows, hides) = view-none n t' in
    (
      l ∙ ap loaded (same_view n),
      e ∙ ap stored (same_view n),
      (
        λ m. subst (λ v. v ≢ none) (same_view n) (shows (there m)),
        λ h. back (hides (subst (λ v. v ≢ none) (sym (same_view n)) h)),
      ),
    )
