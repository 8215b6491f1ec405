-- ===== src/Holder/Run.antt =====
-- internal/holder/holder.go: `Run`, from the names on the command line to the end of the process, and what binds a
-- holder to the process that started it.
use fleetbox.Base.{
  ℕ, suc, Bool, true, not, Option, none, some, List, [], ◌∷◌, ◌==◌, ◌&&◌, ◌||◌, ltb, if◌then◌else◌,
}
use fleetbox.Base.Text.{Text, codes, same}
use fleetbox.Base.Split.{split_on}
use fleetbox.Base.Results.{Result, ok, err, ◌>>=◌}
use fleetbox.Holder.State.{drop_machine, Holder, new_holder}
use fleetbox.Holder.Members.{register, stop_all}

-- `GetRunnerVMNames`, with control.RunnerFlag.
abbrev pub runner_flag : Text
runner_flag = codes "--fleetbox-runner"

unfoldable pub runner_names : List Text → List Text
runner_names [] = []
runner_names (arg ∷ []) = []
runner_names (arg ∷ next ∷ args) =
    let rest = runner_names (next ∷ args) in
    if same arg runner_flag then split_on b',' next else rest

-- The names that `Run` registers before it serves. `failure` is what registering a name runs into, if it fails.
unfoldable pub register_names : (Text → Option Text) → List Text → Holder → Result Text Holder
register_names failure [] h = ok h
register_names failure (name ∷ names) h =
    register h name (failure name) >>= register_names failure names

-- `Run` up to the `select`.
unfoldable pub start_run : (Text → Option Text) → List Text → Result Text Holder
start_run failure [] = err (codes "no VM names provided")
start_run failure (name ∷ names) = register_names failure (name ∷ names) new_holder

-- The deferred `Close` of the network.
unfoldable pub close_network : Holder → Holder
close_network h = elim h.network [
  | none ↦ h
  | some nw ↦ record h { networks = drop_machine nw.id h.networks }
]

-- `Run` after the `select`.
unfoldable pub shut_down : Holder → Holder
shut_down h = close_network (stop_all h)

-- `boundShutdown`, which a detached holder has not, and `boundOnce`. `closed` counts the calls of `close`.
pub record Binding : Type 0 where
  pub watched : Bool
  pub once : Bool
  pub closed : ℕ

-- `triggerBoundShutdown`
unfoldable pub trigger_bound_shutdown : Binding → Binding
trigger_bound_shutdown b = if b.once then b else record {
  watched = b.watched;
  once = true;
  closed = if b.watched then suc b.closed else b.closed;
}

-- The loop of `watchParent`, over what `Getppid` gives each second.
unfoldable pub watch_parent : ℕ → List ℕ → Binding → Binding
unfolding trigger_bound_shutdown
watch_parent parent [] b = b
watch_parent parent (p ∷ ps) b =
    let rest = watch_parent parent ps b in if p == parent then rest else trigger_bound_shutdown b

-- The last loop of `handleBindConn`. A read that succeeds is `true`.
unfoldable pub watch_reads : List Bool → Binding → Binding
unfolding trigger_bound_shutdown
watch_reads [] b = b
watch_reads (r ∷ rs) b = let rest = watch_reads rs b in if r then rest else trigger_bound_shutdown b

-- `handleBindConn`: the read of the command, the write of the version, the read of the ack, and the reads after it.
unfoldable pub handle_bind_conn : Bool → Bool → Bool → List Bool → Binding → Binding
unfolding watch_reads
handle_bind_conn command version ack reads b =
    if not command then b else if not version then b else if not ack then b else watch_reads reads b

-- What ends the `select`. The channel of a detached holder is nil and never ready.
unfoldable pub wakes : Bool → Holder → Binding → Bool
wakes signalled h b = signalled || h.done || (b.watched && ltb 0 b.closed)
