-- ===== src/Holder/Members.antt =====
-- internal/holder/holder.go: registering, marking, stopping and retiring members, and the counter.
use fleetbox.Base.{
  ℕ, Bool, true, false, Option, none, some, List, [], ◌∷◌, ◌++◌, if◌then◌else◌, length,
}
use fleetbox.Base.Text.{Text}
use fleetbox.Base.Results.{Result, ok, err}
use fleetbox.Base.Sets.{without}
use fleetbox.Base.Int.{inc, dec, is_zero}
use fleetbox.Base.Heap.{get_elem?}
use fleetbox.Base.Dicts.{lookup, insert, delete}
use fleetbox.Holder.State.{
  is_active, is_stopped, write_member, stop_machine, starting, running, stopped, error, Member,
  Holder,
}

-- A member as `register` makes it.
abbrev pub new_member : Text → Member
new_member name = record {
  name = name;
  state = starting;
  ip = [];
  err_text = [];
  vm = none;
  retired = false;
}

-- `register`. `failure` is what making the directory, the socket or the pidfile reports, if they fail.
unfoldable pub register : Holder → Text → Option Text → Result Text Holder
register h name (some failure) = err failure
register h name none = ok (record h {
  members = insert name (length h.objects) h.members;
  active = inc h.active;
  objects = h.objects ++ new_member name ∷ [];
  pidfiles = name ∷ h.pidfiles;
})

-- `memberByName`: the pointer, and the object behind it.
unfoldable pub member_by_name : Holder → Text → Option ℕ
member_by_name h name = lookup name h.members

-- `decRunning`
unfoldable pub dec_running : Holder → Holder
dec_running h =
    let n = dec h.active in record h { active = n; done = if is_zero n then true else h.done }

-- Leave the active states for `state`, and count the member out if it was in one of them.
abbrev pub leave : Holder → ℕ → Member → Bool → Holder
leave h m v was_active = if was_active then dec_running (write_member h m v) else write_member h m v

-- `markError`
unfoldable pub mark_error : Holder → ℕ → Text → Holder
mark_error h m message = elim (get_elem? h.objects m) [
  | none ↦ h
  | some o ↦ leave h m (record o { state = error; err_text = message }) (is_active o.state)
]

-- `markStopped`
unfoldable pub mark_stopped : Holder → ℕ → Holder
mark_stopped h m = elim (get_elem? h.objects m) [
  | none ↦ h
  | some o ↦ leave h m (record o { state = stopped }) (is_active o.state)
]

-- `markRunning`: a member that was stopped meanwhile does not adopt the machine.
unfoldable pub mark_running : Holder → ℕ → ℕ → Text → Holder × Bool
mark_running h m vm ip = elim (get_elem? h.objects m) [
  | none ↦ (h, false)
  | some o ↦
      if is_stopped o.state
      then (h, false)
      else (write_member h m (record o { state = running; vm = some vm; ip = ip }), true)
]

-- `retire`: once for each member, whoever calls it.
unfoldable pub retire : Holder → ℕ → Holder
retire h m = elim (get_elem? h.objects m) [
  | none ↦ h
  | some o ↦ if o.retired then h else record (write_member h m (record o { retired = true })) {
    pidfiles = without o.name h.pidfiles;
    members = delete o.name h.members;
  }
]

abbrev pub stop_vm : Holder → Option ℕ → Holder
stop_vm h none = h
stop_vm h (some vm) = stop_machine h vm

-- What `stopMember` does with a pointer it has found.
unfoldable pub stop_object : Holder → ℕ → Holder
stop_object h m = elim (get_elem? h.objects m) [
  | none ↦ h
  | some o ↦ retire (mark_stopped (stop_vm h o.vm) m) m
]

-- `stopMember`
unfoldable pub stop_member : Holder → Text → Holder
stop_member h name = elim (member_by_name h name) [ none ↦ h | some m ↦ stop_object h m ]

-- One round of the loop in `stopAll`.
unfoldable pub stop_one : Holder → ℕ → Holder
stop_one h m = elim (get_elem? h.objects m) [ none ↦ h | some o ↦ retire (stop_vm h o.vm) m ]

unfoldable pub stop_each : List (Text × ℕ) → Holder → Holder
unfolding stop_one
stop_each [] h = h
stop_each ((name, m) ∷ ms) h = stop_each ms (stop_one h m)

-- `stopAll`, over the members that the registry holds when it starts.
unfoldable pub stop_all : Holder → Holder
unfolding stop_each
stop_all h = stop_each h.members h
