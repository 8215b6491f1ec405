-- ===== src/Control/Polling/Pass.antt =====
-- internal/control/control.go: one pass of `WaitMembers` over the pending members.
use fleetbox.Base.{
  ◌≡◌, refl, sym, ◌∙◌, subst, ◌≢◌, ◌⊎◌, inl, inr, Bool, true, false, none, List, [], ◌∷◌, In,
}
use fleetbox.Base.Text.{Text, Text-discrete}
use fleetbox.Base.Results.{Result, ok, err}
use fleetbox.Base.Dicts.{
  lookup, insert, lookup-insert_self, lookup-insert_other, AllEntries, AllEntries-insert,
}
use fleetbox.Holder.State.{MemberState, downloading, starting, running, stopped, error}
use fleetbox.Holder.Server.{Status}
use fleetbox.Control.Client.{Problem}
use fleetbox.Control.Polling.{
  Failure, failed, timed_out, Statuses, Round, Meaning, failing, ready, waiting, pulls, meaning,
  put_back, pass_on, pass, poll,
}

-- Running, with an address.
abbrev pub IsReady : Status → Type 0
IsReady s = (s.state ≡ running) × (s.ip ≢ [])

pub ready-IsReady : (s : Status) → meaning s ≡ ready → IsReady s
unfolding meaning
ready-IsReady s e = on s.state s.ip refl refl
  where
    on : (m : MemberState) (ip : Text) → s.state ≡ m → s.ip ≡ ip → IsReady s
    on running (c ∷ ip) q r = (q, λ z. cc)
    on running [] q r = absurd (cc)
    on error ip q r = absurd (cc)
    on downloading ip q r = absurd (cc)
    on starting ip q r = absurd (cc)
    on stopped ip q r = absurd (cc)

pub IsReady-ready : (s : Status) → IsReady s → meaning s ≡ ready
unfolding meaning
IsReady-ready s (q, h) = on s.ip refl
  where
    on : (ip : Text) → s.ip ≡ ip → meaning s ≡ ready
    on [] r = absurd (h r)
    on (c ∷ ip) r = rw (q, r) refl

pub failing-error : (s : Status) → meaning s ≡ failing → s.state ≡ error
unfolding meaning
failing-error s e = on s.state s.ip refl refl
  where
    on : (m : MemberState) (ip : Text) → s.state ≡ m → s.ip ≡ ip → s.state ≡ error
    on error ip q r = q
    on running (c ∷ ip) q r = absurd (cc)
    on running [] q r = absurd (cc)
    on downloading ip q r = absurd (cc)
    on starting ip q r = absurd (cc)
    on stopped ip q r = absurd (cc)

abbrev NotReady : (Text → Result Problem Status) → Text → Type 0
NotReady get n = (s : Status) → get n ≡ ok s → meaning s ≢ ready

-- A pass that goes on leaves the members that are not ready, and each of the others has its status.
pub record Passed (get : Text → Result Problem Status) (Good : Text → Status → Type 0)
    (ps : List Text) (result : Statuses) (r : Round) : Type 0 where
  pub left_over : (n : Text) → In n r.still → In n ps × NotReady get n
  pub entries : AllEntries Good r.result
  pub accounted : (n : Text) → In n ps → In n r.still ⊎ (lookup n r.result ≢ none)
  pub kept : (n : Text) → lookup n result ≢ none → lookup n r.result ≢ none

abbrev Fails : (Text → Result Problem Status) → List Text → Text → Text → Type 0
Fails get ps n t =
    In n ps × (s : Status) × (get n ≡ ok s) × (meaning s ≡ failing) × (s.err_text ≡ t)

abbrev pub PollExplains :
    (Text → Result Problem Status)
    → (Text → Status → Type 0)
    → List Text
    → Statuses
    → Result Failure Round
    → Type 0
PollExplains get Good ps result (ok r) = Passed get Good ps result r
PollExplains get Good ps result (err (failed n t)) = Fails get ps n t
PollExplains get Good ps result (err (timed_out ns)) = ⊥

module _ (get : Text → Result Problem Status) (Good : Text → Status → Type 0) where
  put_back-Explains :
      (name : Text) (p : Bool) (ps : List Text) (result : Statuses) (x : Result Failure Round)
      → NotReady get name
      → PollExplains get Good ps result x
      → PollExplains get Good (name ∷ ps) result (put_back name p x)
  unfolding put_back
  put_back-Explains name p ps result (err (failed n t)) h (m, s, e, f, q) = (inr m, s, e, f, q)
  put_back-Explains name p ps result (err (timed_out ns)) h e = absurd e
  put_back-Explains name p ps result (ok r) h q = record {
    left_over = λ n m. elim m [
      | inl e ↦ (inl e, subst (NotReady get) e h)
      | inr m' ↦ let (a, b) = q.left_over n m' in (inr a, b)
    ];
    entries = q.entries;
    accounted = λ n m. elim m [
      | inl e ↦ inl (inl e)
      | inr m' ↦ elim (q.accounted n m') [ inl a ↦ inl (inr a) | inr a ↦ inr a ]
    ];
    kept = q.kept;
  }

  -- A status that is kept counts for its member from then on.
  ready-Explains :
      (name : Text) (s : Status) (ps : List Text) (result : Statuses) (x : Result Failure Round)
      → PollExplains get Good ps (insert name s result) x
      → PollExplains get Good (name ∷ ps) result x
  ready-Explains name s ps result (err (failed n t)) (m, u, e, f, q) = (inr m, u, e, f, q)
  ready-Explains name s ps result (err (timed_out ns)) e = absurd e
  ready-Explains name s ps result (ok r) q =
      let there : lookup name r.result ≢ none =
        q.kept name (λ e. let self = lookup-insert_self {V = Status} name s result in cc) in
      record {
        left_over = λ n m. let (a, b) = q.left_over n m in (inr a, b);
        entries = q.entries;
        accounted = λ n m. elim m [
          | inl e ↦ inr (subst (λ y. lookup y r.result ≢ none) e there)
          | inr m' ↦ q.accounted n m'
        ];
        kept = λ n h. elim (Text-discrete name n) [
          | yes e ↦ subst (λ y. lookup y r.result ≢ none) e there
          | no k ↦ q.kept n (λ e. h (sym (lookup-insert_other {V = Status} name n s result k) ∙ e))
        ];
      }

  pub poll-Explains :
      (ps : List Text) (result : Statuses)
      → ((n : Text) (s : Status) → In n ps → get n ≡ ok s → meaning s ≡ ready → Good n s)
      → AllEntries Good result
      → PollExplains get Good ps result (poll get ps result)
  unfolding poll pass pass_on
  poll-Explains [] result g a = record {
    left_over = λ n m. absurd m;
    entries = a;
    accounted = λ n m. absurd m;
    kept = λ n h. h;
  }
  poll-Explains (name ∷ ps) result g a =
      at (λ r b. poll-Explains ps r (λ n t m. g n t (inr m)) b) (get name) refl
    where
      on :
          ((r : Statuses) → AllEntries Good r → PollExplains get Good ps r (poll get ps r))
          → (s : Status) → get name ≡ ok s
          → (m : Meaning) → meaning s ≡ m
          → PollExplains get Good (name ∷ ps) result (pass_on name s m (poll get ps) result)
      on ih s e failing q = (inl refl, s, e, q, refl)
      on ih s e ready q = ready-Explains name s ps result (poll get ps (insert name s result)) (
          ih (insert name s result)
            (AllEntries-insert Good name s result (g name s (inl refl) e q) a))
      on ih s e waiting q =
          put_back-Explains name false ps result (poll get ps result)
            (λ t h r. let same : s ≡ t = cc in cc) (ih result a)
      on ih s e pulls q =
          put_back-Explains name true ps result (poll get ps result)
            (λ t h r. let same : s ≡ t = cc in cc) (ih result a)

      at :
          ((r : Statuses) → AllEntries Good r → PollExplains get Good ps r (poll get ps r))
          → (o : Result Problem Status) → get name ≡ o
          → PollExplains get Good (name ∷ ps) result (pass name o (poll get ps) result)
      at ih (err e) q =
          put_back-Explains name false ps result (poll get ps result) (λ t h r. cc) (ih result a)
      at ih (ok s) q = on ih s q (meaning s) refl
