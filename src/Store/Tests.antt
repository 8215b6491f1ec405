-- ===== src/Store/Tests.antt =====
-- Names of members and of clusters, and calls on an empty store.
use fleetbox.Base.{◌≡◌, ◌≢◌, ◌↔◌, List, [], ◌∷◌, none, arith, In}
use fleetbox.Base.Text.{Text, codes}
use fleetbox.Base.Dicts.{keys}
use fleetbox.Store.Config.{Config}
use fleetbox.Store.Tree.{Tree, load, exists, list}
use fleetbox.Store.Tree.Placed.{IsPlaced}
use fleetbox.Store.Tree.Replay.{Call, ensure, drop, store, run, replay, view}
use fleetbox.Store.Tree.Refine.{loaded, stored, run_refines}
use fleetbox.Store.Names.{IsMember}

web_two : IsMember (codes "web") (codes "2")
web_two = record { named = λ e. cc; numbered = λ e. cc; decimal = ((omega arith, omega arith), tt) }

abbrev no_tree : Tree
no_tree = record { clusters = []; sockets = [] }

no_tree-IsPlaced : IsPlaced no_tree
unfolding keys
no_tree-IsPlaced = record { distinct = tt; entries = tt }

abbrev web : Text → Config
web name = record {
  name = name;
  mac = codes "52:54:00:00:00:01";
  cpus = 2;
  memory_mb = 2048;
  disk_mb = 10240;
  image = codes "debian-12";
  fixtures = [];
  ip = codes "";
}

abbrev calls : List Call
calls =
    store (web (codes "web-1"))
    ∷ ensure (codes "web-2")
    ∷ store (web (codes "web-2"))
    ∷ drop (codes "web-1")
    ∷ []

run_refines_example :
    (load (codes "web-2") (run (λ n. n) calls no_tree)
      ≡ loaded (replay calls (view no_tree) (codes "web-2")))
    × (exists (codes "web-2") (run (λ n. n) calls no_tree)
        ≡ stored (replay calls (view no_tree) (codes "web-2")))
    × (In (codes "web-2") (list (run (λ n. n) calls no_tree))
        ↔ (replay calls (view no_tree) (codes "web-2") ≢ none))
run_refines_example = run_refines (λ n. n) calls no_tree no_tree-IsPlaced (codes "web-2")
