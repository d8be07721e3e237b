-- ===== src/Assembly/Events.antt =====
-- The events against the sweeps that the assembler holds: what a closed volume contains is what was
-- announced sweep by sweep since the volume before it.
use radar_workstation.Common.{
  ℕ, ◌≡◌, refl, leb, ◌-◌, sym, subst, if◌then◌else◌, Bool, true, false, Option, none, some, List,
  [], ◌∷◌, ◌++◌, Bool-cases, Option-cases, inl, inr, ◌==◌,
}
use radar_workstation.Chunk.{ChunkKind, start, intermediate, end_chunk}
use radar_workstation.Decoder.Radial.{Radial}
use radar_workstation.Decoder.Vcp.{VcpDefinition}
use radar_workstation.Assembly.Volume.{
  Sweep, SweepBuilder, VolumeStatus, complete, superseded, timed_out, AssemblyEvent, sweep_closed,
  volume_closed, late_radials_discarded, missing_start_chunk,
}
use radar_workstation.Assembly.{
  AssemblyState, idle, awaiting_data, accumulating, is_accumulating, VolumeAssembler, Step, ◌▹◌,
  contains, close_sweep, close_current, finish_volume, begin_new_volume, route_radial,
  ingest_radial, is_closure_status, accept_radial, ingest_all, on_start_chunk, on_chunk, on_tick,
  HashOrder, late_events, count_late, feed_radials, end_volume, note_missing_start, new, Call,
  start_chunk, chunk, tick, site_change, step, run_calls, is_idle,
}
use radar_workstation.Assembly.Invariant.{IsConsistent, RestOk}
use radar_workstation.Assembly.Preserved.{step-IsConsistent, IsConsistent-new}

-- From the announced sweeps `p`, the events lead to the announced sweeps `q`: a closed sweep is
-- added, and a closed volume has exactly those announced so far, and starts anew.
abbrev pub Replays : List Sweep → List AssemblyEvent → List Sweep → Type 0
Replays p [] q = p ≡ q
Replays p (sweep_closed s volume vcp ∷ events) q = Replays (p ++ s ∷ []) events q
Replays p (volume_closed v ∷ events) q = (v.sweeps ≡ p) × Replays [] events q
Replays p (late_radials_discarded n k ∷ events) q = Replays p events q
Replays p (missing_start_chunk ∷ events) q = Replays p events q

Replays-append :
    (es fs : List AssemblyEvent) (p q r : List Sweep)
    → Replays p es q
    → Replays q fs r
    → Replays p (es ++ fs) r
Replays-append [] fs p q r h k = subst (λ l. Replays l fs r) (sym h) k
Replays-append (sweep_closed s volume vcp ∷ es) fs p q r h k =
    Replays-append es fs (p ++ s ∷ []) q r h k
Replays-append (volume_closed v ∷ es) fs p q r h k = (h.0, Replays-append es fs [] q r h.1 k)
Replays-append (late_radials_discarded n c ∷ es) fs p q r h k = Replays-append es fs p q r h k
Replays-append (missing_start_chunk ∷ es) fs p q r h k = Replays-append es fs p q r h k

-- The events of a call, from the sweeps held before it to those held after it.
abbrev pub Follows : VolumeAssembler → Step → Type 0
Follows a s = Replays a.closed_sweeps s.1 s.0.closed_sweeps

Follows-▹ :
    (a : VolumeAssembler) (s : Step) (f : VolumeAssembler → Step)
    → Follows a s
    → Follows s.0 (f s.0)
    → Follows a (s ▹ f)
Follows-▹ a s f h k =
    Replays-append s.1 (f s.0).1 a.closed_sweeps s.0.closed_sweeps (f s.0).0.closed_sweeps h k

close_current-Follows : (whole : Bool) (a : VolumeAssembler) → Follows a (close_current whole a)
unfolding close_current close_sweep
close_current-Follows whole a = elim (Option-cases a.current_sweep) [
  | inl nothing ↦ rw (nothing, close_current) refl
  | inr (b, some_b) ↦ rw (some_b, close_current) refl
]

route_radial-Follows : (r : Radial) (a : VolumeAssembler) → Follows a (route_radial r a)
unfolding route_radial close_sweep
route_radial-Follows r a = elim (Option-cases a.current_sweep) [
  | inl nothing ↦ rw (nothing, route_radial) refl
  | inr (b, some_b) ↦ elim (Bool-cases (b.elevation_number == r.elevation_number)) [
    | inl same ↦ rw (some_b, route_radial) (rw same refl)
    | inr other ↦ rw (some_b, route_radial) (rw other refl)
  ]
]

close_if-Follows :
    (closes : Bool) (a : VolumeAssembler)
    → Follows a (if closes then close_current true a else (a, []))
close_if-Follows true a = close_current-Follows true a
close_if-Follows false a = refl

ingest_radial-Follows : (r : Radial) (a : VolumeAssembler) → Follows a (ingest_radial r a)
unfolding ingest_radial
ingest_radial-Follows r a =
    Follows-▹ a (route_radial r a)
      (λ b. if is_closure_status r.radial_status then close_current true b else (b, []))
      (route_radial-Follows r a)
      (close_if-Follows (is_closure_status r.radial_status) (route_radial r a).0)

accept_radial-Follows : (r : Radial) (a : VolumeAssembler) → Follows a (accept_radial r a)
unfolding accept_radial
accept_radial-Follows r a = ingest_radial-Follows r _

ingest_all-Follows :
    (rs : List Radial) (late : List (ℕ × ℕ)) (a : VolumeAssembler)
    → Replays a.closed_sweeps (ingest_all rs late a).1 (ingest_all rs late a).0.closed_sweeps
unfolding ingest_all
ingest_all-Follows [] late a = refl
ingest_all-Follows (r ∷ rs) late a =
    elim (Bool-cases (contains a.closed_elevations r.elevation_number)) [
      | inl closed ↦
          rw (closed, ingest_all) (ingest_all-Follows rs (count_late r.elevation_number late) a)
      | inr fresh ↦
          rw (fresh, ingest_all)
            (Replays-append (accept_radial r a).1 _ _ _ _ (accept_radial-Follows r a)
              (ingest_all-Follows rs late (accept_radial r a).0))
    ]

late_events-Follows : (late : List (ℕ × ℕ)) (p : List Sweep) → Replays p (late_events late) p
late_events-Follows [] p = refl
late_events-Follows ((n, k) ∷ late) p = late_events-Follows late p

feed_radials-Follows :
    (order : HashOrder) (rs : List Radial) (a : VolumeAssembler)
    → Follows a (feed_radials order rs a)
unfolding feed_radials
feed_radials-Follows order rs a =
    Replays-append (ingest_all rs [] a).1 _ _ _ _ (ingest_all-Follows rs [] a)
      (late_events-Follows (order.drain (ingest_all rs [] a).2) _)

end_volume-Follows : (status : VolumeStatus) (a : VolumeAssembler) → Follows a (end_volume status a)
unfolding end_volume finish_volume
end_volume-Follows status a =
    Follows-▹ a (close_current false a) (finish_volume status) (close_current-Follows false a)
      (refl, refl)

note_missing_start-Follows : (a : VolumeAssembler) → Follows a (note_missing_start a)
unfolding note_missing_start
note_missing_start-Follows a = elim (Bool-cases (is_idle a.state)) [
  | inl at_rest ↦ rw at_rest refl
  | inr active ↦ rw active refl
]

end_volume-ends :
    (status : VolumeStatus) (a : VolumeAssembler) → (end_volume status a).0.closed_sweeps ≡ []
unfolding end_volume finish_volume
end_volume-ends status a = refl

pub nothing_held :
    (s : AssemblyState) (o : Option SweepBuilder) {ss : List Sweep}
    → is_accumulating s ≡ false
    → RestOk s o ss
    → ss ≡ []
nothing_held idle o n h = h.1
nothing_held awaiting_data o n h = h.1
nothing_held accumulating o n h = cc

pub nothing_open :
    (s : AssemblyState) (o : Option SweepBuilder) (ss : List Sweep)
    → is_accumulating s ≡ false
    → RestOk s o ss
    → o ≡ none
nothing_open idle o ss n h = h.0
nothing_open awaiting_data o ss n h = h.0
nothing_open accumulating o ss n h = cc

-- Before a new volume nothing is pending: either the old one is closed, or there was none.
begin_new_volume-Follows : (a : VolumeAssembler) → IsConsistent a → Follows a (begin_new_volume a)
unfolding begin_new_volume
begin_new_volume-Follows a v = elim (Bool-cases (is_accumulating a.state)) [
  | inl acc ↦ rw acc (
      Replays-append (end_volume superseded a).1 [] a.closed_sweeps _ []
        (end_volume-Follows superseded a) (end_volume-ends superseded a))
  | inr other ↦ rw other (nothing_held a.state a.current_sweep other v.rest)
]

on_start_chunk-Follows :
    (vcp : Option VcpDefinition) (now : ℕ) (a : VolumeAssembler)
    → IsConsistent a
    → Follows a (on_start_chunk vcp now a)
unfolding on_start_chunk
on_start_chunk-Follows none now a v =
    Replays-append (begin_new_volume (record a { last_activity = some now })).1 [] a.closed_sweeps _
      _
      (begin_new_volume-Follows (record a { last_activity = some now })
        (record { held = v.held; rest = v.rest }))
      refl
on_start_chunk-Follows (some p) now a v =
    Replays-append (begin_new_volume (record a { last_activity = some now })).1 [] a.closed_sweeps _
      _
      (begin_new_volume-Follows (record a { last_activity = some now })
        (record { held = v.held; rest = v.rest }))
      refl

feed-Follows :
    (order : HashOrder) (rs : List Radial) (now : ℕ) (a : VolumeAssembler)
    → Follows a (note_missing_start (record a { last_activity = some now }) ▹ feed_radials order rs)
feed-Follows order rs now a =
    let noted = note_missing_start (record a { last_activity = some now }) in
    Replays-append noted.1 (feed_radials order rs noted.0).1 a.closed_sweeps noted.0.closed_sweeps _
      (note_missing_start-Follows (record a { last_activity = some now }))
      (feed_radials-Follows order rs noted.0)

on_chunk-Follows :
    (order : HashOrder) (kind : ChunkKind) (rs : List Radial) (now : ℕ) (a : VolumeAssembler)
    → IsConsistent a
    → Follows a (on_chunk order kind rs now a)
unfolding on_chunk
on_chunk-Follows order start rs now a v =
    begin_new_volume-Follows (record a { last_activity = some now })
      (record { held = v.held; rest = v.rest })
on_chunk-Follows order intermediate rs now a v = feed-Follows order rs now a
on_chunk-Follows order end_chunk rs now a v =
    let fed = note_missing_start (record a { last_activity = some now }) ▹ feed_radials order rs in
    Follows-▹ a fed (end_volume complete) (feed-Follows order rs now a)
      (end_volume-Follows complete fed.0)

on_tick-Follows : (now : ℕ) (a : VolumeAssembler) → Follows a (on_tick now a)
unfolding on_tick
on_tick-Follows now a = elim (Bool-cases (is_idle a.state)) [
  | inl at_rest ↦ rw at_rest refl
  | inr active ↦ rw active (go a.last_activity)
]
  where
    go :
        (o : Option ℕ)
        → Follows a (elim o [
          | none ↦ (a, [])
          | some last ↦
              if leb a.watchdog_timeout (now - last) then end_volume timed_out a else (a, [])
        ])
    go none = refl
    go (some last) = elim (Bool-cases (leb a.watchdog_timeout (now - last))) [
      | inl late ↦ rw late (end_volume-Follows timed_out a)
      | inr early ↦ rw early refl
    ]

-- The calls of a session on one site.
abbrev pub OneSite : List Call → Type 0
OneSite [] = Unit {0}
OneSite (site_change ∷ cs) = ⊥
OneSite (start_chunk vcp now ∷ cs) = OneSite cs
OneSite (chunk kind rs now ∷ cs) = OneSite cs
OneSite (tick now ∷ cs) = OneSite cs

run-Follows :
    (order : HashOrder) (calls : List Call) (a : VolumeAssembler)
    → IsConsistent a
    → OneSite calls
    → Follows a (run_calls order calls a)
unfolding run_calls step
run-Follows order [] a v h = refl
run-Follows order (start_chunk vcp now ∷ cs) a v h =
    Follows-▹ a (on_start_chunk vcp now a) (run_calls order cs) (on_start_chunk-Follows vcp now a v)
      (run-Follows order cs _ (step-IsConsistent order (start_chunk vcp now) a v) h)
run-Follows order (chunk kind rs now ∷ cs) a v h =
    Follows-▹ a (on_chunk order kind rs now a) (run_calls order cs)
      (on_chunk-Follows order kind rs now a v)
      (run-Follows order cs _ (step-IsConsistent order (chunk kind rs now) a v) h)
run-Follows order (tick now ∷ cs) a v h =
    Follows-▹ a (on_tick now a) (run_calls order cs) (on_tick-Follows now a)
      (run-Follows order cs _ (step-IsConsistent order (tick now) a v) h)
run-Follows order (site_change ∷ cs) a v h = absurd h

-- Over any calls on one site, each closed volume has exactly the sweeps announced since the volume
-- before it, in that order; what is announced and in no volume yet is what the assembler holds.
pub run_calls-Replays :
    (order : HashOrder) (timeout : ℕ) (calls : List Call)
    → OneSite calls
    → Replays []
        (run_calls order calls (new timeout)).1
        (run_calls order calls (new timeout)).0.closed_sweeps
run_calls-Replays order timeout calls =
    run-Follows order calls (new timeout) (IsConsistent-new timeout)
