-- ===== src/Control/Polling.antt =====
-- internal/control/control.go: the loops of `WaitMembers` and `Stop`. Times are in milliseconds. `at` is what
-- the client sees in a round and `clock` the time at the end of it; a round that runs out of fuel gives `none`.
pub mod Pass
pub mod Wait
pub mod Stopping
use fleetbox.Base.{ℕ, zero, suc, ◌+◌, Bool, true, false, Option, none, some, List, [], ◌∷◌, ltb}
use fleetbox.Base.Text.{Text, codes}
use fleetbox.Base.Results.{Result, ok, err, ◌>>=◌}
use fleetbox.Base.Dicts.{insert}
use fleetbox.Holder.State.{MemberState, downloading, starting, running, stopped, error}
use fleetbox.Holder.Server.{Status}
use fleetbox.Control.Client.{
  World, Answer, unreachable, unsent, unread, replied, Problem, not_connected, not_sent, still_up,
  is_running, get_status, stop_request,
}

-- Why a wait ends without every member.
pub data Failure : Type 0 where
  failed : Text → Text → Failure
  timed_out : List Text → Failure

abbrev pub Statuses : Type 0
Statuses = List (Text × Status)

-- What a pass over the pending members leaves.
pub record Round : Type 0 where
  pub still : List Text
  pub result : Statuses
  pub pulling : Bool

-- What a member's status means for the pass.
pub data Meaning : Type 0 where
  failing ready waiting pulls : Meaning

pub meaning : Status → Meaning
meaning s = elim s.state [
  | error ↦ failing
  | running ↦ elim s.ip [ [] ↦ waiting | _ ∷ _ ↦ ready ]
  | downloading ↦ pulls
  | starting ↦ waiting
  | stopped ↦ waiting
]

pub put_back : Text → Bool → Result Failure Round → Result Failure Round
put_back name p (err e) = err e
put_back name p (ok r) = ok (record {
  still = name ∷ r.still;
  result = r.result;
  pulling = elim p [ true ↦ true | false ↦ r.pulling ];
})

-- A member whose status has a meaning, before the `rest` of the pass.
pub pass_on :
    Text → Status → Meaning → (Statuses → Result Failure Round) → Statuses → Result Failure Round
pass_on name s failing rest result = err (failed name s.err_text)
pass_on name s ready rest result = rest (insert name s result)
pass_on name s waiting rest result = put_back name false (rest result)
pass_on name s pulls rest result = put_back name true (rest result)

pub pass :
    Text
    → Result Problem Status
    → (Statuses → Result Failure Round)
    → Statuses
    → Result Failure Round
pass name (err _) rest result = put_back name false (rest result)
pass name (ok s) rest result = pass_on name s (meaning s) rest result

-- The loop over `pending`.
pub poll : (Text → Result Problem Status) → List Text → Statuses → Result Failure Round
poll get [] result = ok (record { still = []; result = result; pulling = false })
poll get (name ∷ names) result = pass name (get name) (poll get names) result

-- The deadlines of a wait that begins at `start`.
pub record Deadlines : Type 0 where
  pub hard : ℕ
  pub timeout : ℕ

pub finish : Round → Result Failure Statuses
finish r = elim r.still [ [] ↦ ok r.result | n ∷ ns ↦ err (timed_out (n ∷ ns)) ]

-- The loop of `WaitMembers`, in round `k` with the boot deadline `boot`.
pub wait_from :
    (ℕ → World)
    → (ℕ → ℕ)
    → Deadlines
    → ℕ
    → ℕ
    → ℕ
    → List Text
    → Statuses
    → Option (Result Failure Statuses)
wait_from at clock d zero k boot pending result = none
wait_from at clock d (suc f) k boot [] result = some (ok result)
wait_from at clock d (suc f) k boot (p ∷ ps) result =
    elim (poll (get_status (at k)) (p ∷ ps) result) [
      | err e ↦ some (err e)
      | ok r ↦ elim (ltb d.hard (clock k)) [
        | true ↦ some (finish r)
        | false ↦ elim r.pulling [
          | true ↦ wait_from at clock d f (suc k) (clock k + d.timeout) r.still r.result
          | false ↦ elim (ltb boot (clock k)) [
            | true ↦ some (finish r)
            | false ↦ wait_from at clock d f (suc k) boot r.still r.result
          ]
        ]
      ]
    ]

-- `maxDownloadWait`
abbrev pub max_download_wait : ℕ
max_download_wait = 1800000

-- A round lasts half a second at least.
abbrev max_rounds : ℕ
max_rounds = 3602

-- `WaitMembers`
pub wait_members : (ℕ → World) → (ℕ → ℕ) → ℕ → List Text → ℕ → Option (Result Failure Statuses)
wait_members at clock start names within =
    wait_from at clock (record { hard = start + max_download_wait; timeout = within }) max_rounds 0
      (start + within) names []

-- The loop of `Stop`, whose test of the deadline comes first.
pub stop_from : (ℕ → World) → (ℕ → ℕ) → ℕ → ℕ → ℕ → Text → Option (Option Problem)
stop_from at clock deadline zero k name = none
stop_from at clock deadline (suc f) k name = elim (ltb (clock k) deadline) [
  | false ↦ some (some still_up)
  | true ↦ elim (is_running (at k) name) [
    | false ↦ some none
    | true ↦ stop_from at clock deadline f (suc k) name
  ]
]

-- `Stop`: in round 0 the request goes out, and the rounds behind it are the loop's.
unfoldable pub stop : (ℕ → World) → (ℕ → ℕ) → Text → Option (Option Problem)
stop at clock name = elim (is_running (at 0) name) [
  | false ↦ some none
  | true ↦ elim ((at 0).answer name stop_request) [
    | unreachable ↦ some (some not_connected)
    | unsent ↦ some (some not_sent)
    | unread ↦ stop_from at clock (clock 0 + 30000) 61 1 name
    | replied _ ↦ stop_from at clock (clock 0 + 30000) 61 1 name
  ]
]
