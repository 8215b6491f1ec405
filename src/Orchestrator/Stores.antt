-- ===== src/Orchestrator/Stores.antt =====
-- What a cluster start that succeeds has stored (orchestrator.go).
use fleetbox.Base.{◌≡◌, inl, inr, true, none, some, List, [], ◌∷◌, Option-cases, All}
use fleetbox.Base.Text.{Text}
use fleetbox.Base.Results.{Result, ok, err}
use fleetbox.Base.Dicts.{lookup}
use fleetbox.Orchestrator.Disks.{exists, Error, World, Outside}
use fleetbox.Store.Config.{Config}
use fleetbox.Orchestrator.Start.{start_on_network, Options, Vm}
use fleetbox.Orchestrator.Cluster.{
  ensure_helper, join, add_with, add, proceed, start_each, start_cluster_detached, Cluster,
}
use fleetbox.Orchestrator.Laws.{
  Removes, Started, exists-some, exists-none, start_on_network-Started,
}
use fleetbox.Orchestrator.Detached.{Started-keeps}

-- Every stored member stays stored, with its configuration.
abbrev Keeps : World → World → Type 0
Keeps w w' = (b : Text) (c : Config) → lookup b w.disks ≡ some c → lookup b w'.disks ≡ some c

Keeps-exists : (w w' : World) → Keeps w w' → (b : Text) → exists b w ≡ true → exists b w' ≡ true
Keeps-exists w w' k b e = elim (Option-cases (lookup b w.disks)) [
  | inl n ↦ let f = exists-none b w n in absurd (cc)
  | inr (c, s) ↦ exists-some b c w' (k b c s)
]

abbrev Added : Text → World → (Cluster × World) × Result Error Vm → Type 0
Added name w (s, err e) = Unit
Added name w (s, ok v) = Keeps w s.1 × (exists name s.1 ≡ true)

join-Added :
    (o : Outside) (name : Text) (w : World) (c : Cluster) (r : World × Result Error Vm)
    → Started o name w r
    → Added name w (join c r)
unfolding join
join-Added o name w c (w', err e) st = tt
join-Added o name w c (w', ok v) st = (λ b d. Started-keeps o name w (w', ok v) b d st, st.2)

add-Added :
    (o : Outside)
    → Removes o
    → (opts : Options) (name : Text) (s : Cluster × World) → Added name s.1 (add o opts name s)
unfolding add
add-Added o removes opts name s = step (ensure_helper o name s.0)
  where
    step : (r : Result Error Cluster) → Added name s.1 (add_with o opts name s r)
    step (err e) = unfold add_with in tt
    step (ok c) =
        unfold add_with in
        join-Added o name s.1 c (start_on_network o opts name s.1)
          (start_on_network-Started o removes opts name s.1)

-- A loop that ends well has stored its names and kept what was there.
abbrev Stores : List Text → World → World × Result Error (Unit {0}) → Type 0
Stores names w (w', err e) = Unit
Stores names w (w', ok u) = Keeps w w' × All (λ n. exists n w' ≡ true) names

Stores-more :
    (name : Text) (names : List Text) (w w1 : World) (r : World × Result Error (Unit {0}))
    → Keeps w w1
    → exists name w1 ≡ true
    → Stores names w1 r
    → Stores (name ∷ names) w r
Stores-more name names w w1 (w', err e) k there st = tt
Stores-more name names w w1 (w', ok u) k there (kept, all) =
    (λ b c e. kept b c (k b c e), (Keeps-exists w1 w' kept name there, all))

proceed-Stores :
    (o : Outside) (name : Text) (names : List Text) (w : World)
    (rest : Cluster × World → World × Result Error (Unit {0}))
    → ((s : Cluster × World) → Stores names s.1 (rest s))
    → (r : (Cluster × World) × Result Error Vm) → Added name w r
    → Stores (name ∷ names) w (proceed o rest r)
unfolding proceed
proceed-Stores o name names w rest ih ((c, w'), err e) a = tt
proceed-Stores o name names w rest ih (s, ok v) (k, there) =
    Stores-more name names w s.1 (rest s) k there (ih s)

start_each-Stores :
    (o : Outside)
    → Removes o
    → (opts : Options) (names : List Text) (s : Cluster × World)
    → Stores names s.1 (start_each o opts names s)
unfolding start_each
start_each-Stores o removes opts [] (c, w) = (λ b d e. e, tt)
start_each-Stores o removes opts (name ∷ names) s =
    proceed-Stores o name names s.1 (λ s'. start_each o opts names s')
      (λ s'. start_each-Stores o removes opts names s') (add o opts name s)
      (add-Added o removes opts name s)

Stores-All :
    (names : List Text) (w : World) (r : World × Result Error (Unit {0})) {u : Unit {0}}
    → r.1 ≡ ok u
    → Stores names w r
    → All (λ n. exists n r.0 ≡ true) names
Stores-All names w (w', err e) q st = absurd (cc)
Stores-All names w (w', ok v) q st = st.1

-- A cluster start that succeeds has every member that it was given stored. The removal of a member's files
-- does not fail.
pub start_cluster_detached-stores :
    (o : Outside)
    → Removes o
    → (opts : Options) (names : List Text) (w : World)
    → (start_cluster_detached o opts names w).1 ≡ ok tt
    → All (λ n. exists n (start_cluster_detached o opts names w).0 ≡ true) names
unfolding start_cluster_detached
start_cluster_detached-stores o removes opts names w e =
    Stores-All names w (start_cluster_detached o opts names w) e
      (start_each-Stores o removes opts names (record { primary = none; vms = [] }, w))
