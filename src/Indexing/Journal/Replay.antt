-- ===== src/Indexing/Journal/Replay.antt =====
-- The replay and the monitoring against the log of a volume: `log usn` lists the records from a USN on.
use mathlib.Core.List.{map-append}
use mathlib.Core.Path.{◌≡◌, refl, sym, ap, ◌∙◌, subst}
use winindex.Prelude.{
  ℕ, zero, suc, ◌+◌, ◌<◌, Bool, true, some, List, [], ◌++◌, map, length, length-append,
  append_assoc, append-nil, arith, ◌⊎◌, inl, inr, WString, Bool-cases,
}
use winindex.Indexing.Indexer.{FileChangeEvent}
use winindex.Indexing.Journal.{
  UsnRecord, Read, no_records, records_read, Journal, is_available, event_of, replay_loop,
  replay_since, monitor_loop, start_monitoring,
}

-- A read takes records off the front of the log, in batches of any size.
abbrev pub TakesFront : (ℕ → List UsnRecord) → ℕ → Read → Type 0
TakesFront log usn r =
    (next : ℕ) × (rs : List UsnRecord) × (r ≡ records_read next rs)
    × (log usn ≡ rs ++ log next)
    × (0 < length rs)

-- Reads end where the log does.
abbrev pub ReadsLog : Journal → (ℕ → List UsnRecord) → Type 0
ReadsLog j log =
    (k : ℕ) (usn : ℕ)
    → ((log usn ≡ []) × (j.read k usn ≡ no_records)) ⊎ TakesFront log usn (j.read k usn)

-- A live read may also find no records yet.
abbrev pub ReadsLive : Journal → (ℕ → List UsnRecord) → Type 0
ReadsLive j log =
    (k : ℕ) (usn : ℕ) → (j.read k usn ≡ no_records) ⊎ TakesFront log usn (j.read k usn)

module _ (j : Journal) (root : WString) (log : ℕ → List UsnRecord) where
  -- The events of a batch, and of what follows it, behind those so far.
  appended :
      (evs : List FileChangeEvent) (rs rest : List UsnRecord)
      → (evs ++ map (event_of root) rs) ++ map (event_of root) rest
        ≡ evs ++ map (event_of root) (rs ++ rest)
  appended evs rs rest =
      rw (map-append (event_of root) rs rest)
        (append_assoc evs (map (event_of root) rs) (map (event_of root) rest))

  replay_loop-log :
      ReadsLog j log
      → (fuel k usn : ℕ) (evs : List FileChangeEvent) → length (log usn) < fuel
      → (last : ℕ) × (replay_loop j root fuel k (record { last_usn = usn; events = evs })
          ≡ some (record { last_usn = last; events = evs ++ map (event_of root) (log usn) }))
        × (log last ≡ [])
  unfolding replay_loop
  replay_loop-log reads zero k usn evs h = absurd (omega arith)
  replay_loop-log reads (suc fuel) k usn evs h = elim (reads k usn) [
    | inl (done, q) ↦ (usn, rw (q, replay_loop, done, append-nil), done)
    | inr (next, rs, q, e, n) ↦
        let shorter : length (log next) < fuel =
          omega (arith, ap length e, length-append rs (log next)) in
        let (last, p, done) =
          replay_loop-log reads fuel (suc k) next (evs ++ map (event_of root) rs) shorter in
        (
          last,
          rw (q, replay_loop)
              (p
                ∙ ap (λ (t : List FileChangeEvent). some (record { last_usn = last; events = t }))
                    (rw e (appended evs rs (log next)))),
          done,
        )
  ]

  -- If the volume opens and its journal can be queried, every read takes at least one record off
  -- the front of the log or finds the log at its end, and the fuel exceeds the number of records,
  -- then the replay ends with exactly one event for each record of the log behind the saved USN,
  -- in order, and the USN that it returns has no records behind it.
  pub replay_since-log :
      (saved_usn fuel : ℕ)
      → is_available j ≡ true
      → ReadsLog j log
      → length (log saved_usn) < fuel
      → (last : ℕ) × (replay_since j root fuel saved_usn
          ≡ some (record { last_usn = last; events = map (event_of root) (log saved_usn) }))
        × (log last ≡ [])
  unfolding replay_since
  replay_since-log saved_usn fuel available reads h =
      rw available (replay_loop-log reads fuel 0 saved_usn [] h)

  monitor_loop-prefix :
      (stop : ℕ → Bool)
      → ReadsLive j log
      → (rounds k usn fuel : ℕ) (evs : List FileChangeEvent) → stop (rounds + k) ≡ true
      → rounds < fuel
      → (seen : List UsnRecord) × (last : ℕ) × (monitor_loop j stop root fuel k
            (record { last_usn = usn; events = evs })
          ≡ some (record { last_usn = last; events = evs ++ map (event_of root) seen }))
        × (log usn ≡ seen ++ log last)
  unfolding monitor_loop
  monitor_loop-prefix stop reads rounds k usn zero evs h f = absurd (omega arith)
  monitor_loop-prefix stop reads zero k usn (suc fuel) evs h f =
      let now : stop k ≡ true = subst (λ n. stop n ≡ true) {y = k} (omega arith) h in
      ([], usn, rw (now, monitor_loop, append-nil), refl)
  monitor_loop-prefix stop reads (suc rounds) k usn (suc fuel) evs h f =
      elim (Bool-cases (stop k)) [
        | inl stopped ↦ ([], usn, rw (stopped, monitor_loop, append-nil), refl)
        | inr going ↦
            let later : stop (rounds + suc k) ≡ true =
              subst (λ n. stop n ≡ true) {y = rounds + suc k} (omega arith) h in
            elim (reads k usn) [
              | inl q ↦
                  let (seen, last, p, s) =
                    monitor_loop-prefix stop reads rounds (suc k) usn fuel evs later
                      (omega arith) in
                  (seen, last, rw (going, q, monitor_loop) p, s)
              | inr (next, rs, q, e, n) ↦
                  let (seen, last, p, s) =
                    monitor_loop-prefix stop reads rounds (suc k) next fuel
                      (evs ++ map (event_of root) rs) later (omega arith) in
                  (
                    rs ++ seen,
                    last,
                    rw (going, q, monitor_loop)
                        (p
                          ∙ ap
                              (λ (t : List FileChangeEvent).
                                some (record { last_usn = last; events = t }))
                              (appended evs rs seen)),
                    e
                        ∙ ap (λ (t : List UsnRecord). rs ++ t) s
                        ∙ sym (append_assoc rs seen (log last)),
                  )
            ]
      ]

  -- If the volume opens and its journal can be queried, every read takes records off the front of
  -- the log or finds none, and the stop flag is set in a round that the fuel covers, then the
  -- monitoring ends, with one event for each record of a prefix of the log behind its start, in
  -- order.
  start_monitoring-prefix :
      (stop : ℕ → Bool) (rounds start_usn fuel : ℕ)
      → is_available j ≡ true
      → ReadsLive j log
      → stop rounds ≡ true
      → rounds < fuel
      → (seen : List UsnRecord) × (last : ℕ) × (start_monitoring j stop root fuel start_usn
          ≡ some (map (event_of root) seen))
        × (log start_usn ≡ seen ++ log last)
  unfolding start_monitoring
  start_monitoring-prefix stop rounds start_usn fuel available reads h f =
      let (seen, last, p, s) =
        monitor_loop-prefix stop reads rounds 0 start_usn fuel []
          (subst (λ n. stop n ≡ true) {y = rounds + 0} (omega arith) h) f in
      (seen, last, rw (available, p), s)
