-- ===== src/Watcher/Running/Outage.antt =====
-- The loop of the watcher while etcd does not answer.
use node_wiring_secure.Base.{
  ℕ, ◌+◌, ◌-◌, ◌*◌, ◌≤◌, ◌<◌, Bool, true, false, CString, List, [], ◌∷◌, none, some, if◌then◌else◌,
  ltb, leb, length, ◌≡◌, refl, arith, Bool-cases, inl, inr,
}
use node_wiring_secure.Listener.{Framework}
use node_wiring_secure.Discovery.{Discovery}
use node_wiring_secure.Watcher.{root_path, add_existing}
use node_wiring_secure.Etcd.{Jansson, Perform, document, list_root, etcd_get_endpoints}
use node_wiring_secure.Etcd.Watching.{etcd_watch}
use node_wiring_secure.Watcher.Running.{
  quarter, Setup, Pass, State, is_late, sleeps, highest_of, read_each, add_already_existing_nodes,
  publish_own, take_report, synchronise, run_pass, run_passes, minus_one,
}

-- etcd cannot be reached.
abbrev pub silent : Perform
silent = λ method url body. none

abbrev pub IsSilent : Pass → Type 0
IsSilent p = (p.watching ≡ silent) × (p.publishing ≡ silent) × (p.listing ≡ silent)

-- When a round ends that starts with this time of the last synchronisation, and the time of the last
-- synchronisation then.
abbrev pub ended_at : Pass → ℕ → ℕ
ended_at p before = if is_late p.checked_at before then p.synced_at else p.checked_at

abbrev pub before_next : Pass → ℕ → ℕ
before_next p before = if is_late p.checked_at before then p.synced_at else before

-- The clock does not go back, and a sleep takes the time that it is meant to take.
abbrev pub IsTimed : ℕ → ℕ → List Pass → Type 0
IsTimed now before [] = Unit
IsTimed now before (p ∷ ps) =
    (now ≤ p.watched_at)
    × (p.watched_at + (if sleeps false p.watched_at before then quarter else 0) ≤ p.checked_at)
    × (p.checked_at ≤ p.synced_at)
    × IsTimed (ended_at p before) (before_next p before) ps

abbrev pub end_of : ℕ → ℕ → List Pass → ℕ
end_of now before [] = now
end_of now before (p ∷ ps) = end_of (ended_at p before) (before_next p before) ps

abbrev pub AreSilent : List Pass → Type 0
AreSilent [] = Unit
AreSilent (p ∷ ps) = IsSilent p × AreSilent ps

leb-true : (a b : ℕ) → leb a b ≡ true → a ≤ b
leb-true a b h = ground arith

leb-false : (a b : ℕ) → leb a b ≡ false → b < a
leb-false a b h = ground arith

ltb-true : (a b : ℕ) → ltb a b ≡ true → a < b
ltb-true a b h = ground arith

ltb-false : (a b : ℕ) → ltb a b ≡ false → b ≤ a
ltb-false a b h = ground arith

-- A round takes four seconds, where one that starts at the time of a synchronisation has three to spare
-- and one that starts seven seconds later has none.
step_time :
    (now before w k z : ℕ) (early late : Bool)
    → leb (w - before) 7 ≡ early
    → ltb 7 (k - before) ≡ late
    → before ≤ now
    → now ≤ before + 7
    → now ≤ w
    → w + (if early then 7 else 0) ≤ k
    → k ≤ z
    → (now + 4 + (3 - (now - before))
        ≤ (if late then z else k) + (3 - ((if late then z else k) - (if late then z else before))))
      × ((if late then z else before) ≤ (if late then z else k))
      × ((if late then z else k) ≤ (if late then z else before) + 7)
step_time now before w k z true true a b c d e g h =
    ((omega (arith, c, d, e, g, h)), (omega arith), (omega arith))
step_time now before w k z true false a b c d e g h =
    let late = ltb-false 7 (k - before) b in
    ((omega (arith, late, c, d, e, g, h)), (omega (arith, c, e, g)), (omega (arith, late, c, e, g)))
step_time now before w k z false true a b c d e g h =
    let early = leb-false (w - before) 7 a in
    ((omega (arith, early, c, d, e, g, h)), (omega arith), (omega arith))
step_time now before w k z false false a b c d e g h =
    let early = leb-false (w - before) 7 a in
    let late = ltb-false 7 (k - before) b in absurd (omega (arith, early, late, e, g))

time_lem :
    (now before : ℕ) (ps : List Pass)
    → before ≤ now
    → now ≤ before + 7
    → IsTimed now before ps
    → now + 4 * length ps + (3 - (now - before)) ≤ end_of now before ps + 3
time_lem now before [] past near timed = omega arith
time_lem now before (p ∷ ps) past near timed =
    let step =
      step_time now before p.watched_at p.checked_at p.synced_at (leb (p.watched_at - before) 7)
        (ltb 7 (p.checked_at - before)) refl refl past near timed.0 timed.1 timed.2 in
    let rest = time_lem (ended_at p before) (before_next p before) ps step.1 step.2 timed.3 in
    omega (arith, step.0, rest)

module _ {Json : Type 0} (j : Jansson Json) (f : Framework) (c : Setup) (root : CString)
    (rooted : root_path c.setting.configured ≡ some root) where
  add_already_existing_nodes-silent :
      (reading : Perform) (s : Discovery)
      → add_already_existing_nodes j f c silent reading s ≡ some (s, minus_one, [])
  unfolding add_already_existing_nodes etcd_get_endpoints document list_root read_each add_existing
      highest_of
  add_already_existing_nodes-silent reading s = rw rooted

  run_pass-silent :
      (s : State) (p : Pass) (answers : List Bool)
      → IsSilent p
      → publish_own j f c silent s.discovery ≡ some answers
      → (highest : ℕ) × (run_pass j f c s p
          ≡ some (
            record { discovery = s.discovery; highest = highest; before = before_next p s.before },
            [],
            sleeps false p.watched_at s.before,
          ))
  unfolding run_pass etcd_watch take_report synchronise
  run_pass-silent s p answers quiet published = elim (Bool-cases (is_late p.checked_at s.before)) [
    | inl late ↦ (
      minus_one,
      rw (
        rooted,
        quiet.0,
        quiet.1,
        quiet.2,
        late,
        published,
        add_already_existing_nodes-silent p.reading s.discovery,
      ),
    )
    | inr soon ↦ (s.highest, rw (rooted, quiet.0, soon))
  ]

  passes_lem :
      (s : State) (ps : List Pass) (answers : List Bool)
      → AreSilent ps
      → publish_own j f c silent s.discovery ≡ some answers
      → (last : State) × (slept : List Bool) × (run_passes j f c s ps ≡ some (last, [], slept))
        × (last.discovery ≡ s.discovery)
  unfolding run_passes
  passes_lem s [] answers quiet published = (s, [], refl, refl)
  passes_lem s (p ∷ ps) answers quiet published =
      let (highest, ran) = run_pass-silent s p answers quiet.0 published in
      let (last, slept, rest, same) =
        passes_lem
          (record { discovery = s.discovery; highest = highest; before = before_next p s.before })
          ps answers quiet.1 published in
      (last, sleeps false p.watched_at s.before ∷ slept, rw (ran, rest), same)

  -- Where the root path fits its buffer, and what the own node publishes can be made into requests:
  -- while etcd does not answer, the loop makes any number of rounds without a fault, leaves the
  -- discovery as it is and tells no listener, and, where it starts at most seven seconds after a
  -- synchronisation and the clock does not go back and a sleep takes its seven seconds, so many rounds
  -- take at least four seconds each, less three.
  pub run_passes-silent :
      (s : State) (ps : List Pass) (answers : List Bool) (now : ℕ)
      → AreSilent ps
      → publish_own j f c silent s.discovery ≡ some answers
      → s.before ≤ now
      → now ≤ s.before + 7
      → IsTimed now s.before ps
      → (last : State) × (slept : List Bool) × (run_passes j f c s ps ≡ some (last, [], slept))
        × (last.discovery ≡ s.discovery)
        × (now + 4 * length ps ≤ end_of now s.before ps + 3)
  run_passes-silent s ps answers now quiet published past near timed =
      let (last, slept, ran, same) = passes_lem s ps answers quiet published in
      (last, slept, ran, same, omega (arith, time_lem now s.before ps past near timed))
