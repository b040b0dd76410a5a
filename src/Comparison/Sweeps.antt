-- ===== src/Comparison/Sweeps.antt =====
-- What a sweep of experiments/run_comparison.py returns and leaves behind.
use kv_replication_lab.Prelude.{
  ◌≡◌, ◌≢◌, refl, ap, sym, subst, inl, inr, ◌⊎◌, true, false, List, [], ◌∷◌, ◌++◌, All, All-append,
  In, map, if_cases,
}
use kv_replication_lab.Common.Waiting.{Outcome, returned, raised}
use kv_replication_lab.Comparison.{
  SpawnedNode, stop_node, stop_rest, stop_all, ConfigOutcome, config_result, config_error,
  result_of, error_of, Description, Tried, spawn_each, noted, then_sweep, sweep, mq_config,
  leader_follower_config, leaderless_config, after_wait, with_last,
}
use kv_replication_lab.LoadTest.Runs.{Result, completed, system_exit, failed, prepend}

-- The process exits in time on one of the signals, or has exited.
abbrev pub Stops : SpawnedNode → Type 0
Stops n =
    (n.proc.has_exited ≡ true)
    ⊎ ((n.proc.exits_on_terminate ≡ true) ⊎ (n.proc.exits_on_kill ≡ true))

abbrev pub HasExited : SpawnedNode → Type 0
HasExited n = n.proc.has_exited ≡ true

-- A stop that has worked.
abbrev Stopped : SpawnedNode × Outcome (Unit {0}) → Type 0
Stopped r = HasExited r.0 × (r.1 ≡ returned tt)

stop_node-Stopped : (n : SpawnedNode) → Stops n → Stopped (stop_node n)
unfolding stop_node
stop_node-Stopped n h =
    if_cases Stopped n.proc.has_exited _ _ (λ e. (e, refl))
      (λ not_yet.
        if_cases Stopped n.proc.exits_on_terminate _ _ (λ e. (refl, refl))
          (λ stays.
            if_cases Stopped n.proc.exits_on_kill _ _ (λ e. (refl, refl))
              (λ remains. absurd (not_stopped h not_yet stays remains))))
  where
    not_stopped :
        Stops n
        → n.proc.has_exited ≡ false
        → n.proc.exits_on_terminate ≡ false
        → ¬ (n.proc.exits_on_kill ≡ false)
    not_stopped (inl a) p q r = cc
    not_stopped (inr (inl a)) p q r = cc
    not_stopped (inr (inr a)) p q r = cc

abbrev pub AllStopped : List SpawnedNode × Outcome (Unit {0}) → Type 0
AllStopped r = All HasExited r.0 × (r.1 ≡ returned tt)

pub stop_all-AllStopped : (ns : List SpawnedNode) → All Stops ns → AllStopped (stop_all ns)
unfolding stop_all
stop_all-AllStopped [] h = (tt, refl)
stop_all-AllStopped (n ∷ ns) (h, hs) =
    both (stop_node n) (stop_all ns) (stop_node-Stopped n h) (stop_all-AllStopped ns hs)
  where
    both :
        (r : SpawnedNode × Outcome (Unit {0})) (q : List SpawnedNode × Outcome (Unit {0}))
        → Stopped r
        → AllStopped q
        → AllStopped (stop_rest r ns q)
    both (m, raised) q (e, bad) k = cc bad
    both (m, returned u) (ms, how) (e, good) (es, k) = ((e, es), k)

stop_node-raises : (n : SpawnedNode) → ¬ Stops n → (stop_node n).1 ≡ raised
unfolding stop_node
stop_node-raises n stuck =
    if_cases Raised n.proc.has_exited _ _ (λ e. absurd (stuck (inl e)))
      (λ not_yet.
        if_cases Raised n.proc.exits_on_terminate _ _ (λ e. absurd (stuck (inr (inl e))))
          (λ stays.
            if_cases Raised n.proc.exits_on_kill _ _ (λ e. absurd (stuck (inr (inr e))))
              (λ remains. refl)))
  where
    Raised : SpawnedNode × Outcome (Unit {0}) → Type 0
    Raised r = r.1 ≡ raised

stop_all-raises :
    (ns : List SpawnedNode) (n : SpawnedNode) → In n ns → ¬ Stops n → (stop_all ns).1 ≡ raised
unfolding stop_all
stop_all-raises [] n here stuck = elim here [ ]
stop_all-raises (m ∷ ns) n (inl same) stuck =
    first (stop_node m) (stop_node-raises m (λ h. stuck (subst Stops (sym same) h)))
  where
    first :
        (r : SpawnedNode × Outcome (Unit {0}))
        → r.1 ≡ raised
        → (stop_rest r ns (stop_all ns)).1 ≡ raised
    first (k, raised) h = refl
    first (k, returned u) h = cc h
stop_all-raises (m ∷ ns) n (inr later) stuck =
    rest (stop_node m) (stop_all ns) (stop_all-raises ns n later stuck)
  where
    rest :
        (r : SpawnedNode × Outcome (Unit {0})) (q : List SpawnedNode × Outcome (Unit {0}))
        → q.1 ≡ raised
        → (stop_rest r ns q).1 ≡ raised
    rest (k, raised) q h = refl
    rest (k, returned u) q h = h

-- What is noted of a configuration that raises no `SystemExit`.
abbrev pub note : Description → Result → ConfigOutcome
note d (completed stats) = config_result (result_of d stats)
note d failed = config_error (error_of d)
note d system_exit = config_error (error_of d)

module _ {A : Type 0} (describe : A → Description) (attempt : A → Tried) where
  -- A configuration whose nodes can all be stopped and are all tracked, and that raises no
  -- `SystemExit`.
  pub record IsOrderly (c : A) : Type 0 where
    pub no_exit : (attempt c).result ≢ system_exit
    pub stops : All Stops (attempt c).nodes
    pub tracked : (attempt c).untracked ≡ []

  noted-note : (l : Description) (r : Result) → r ≢ system_exit → noted l r ≡ returned (note l r)
  noted-note l (completed s) h = refl
  noted-note l failed h = refl
  noted-note l system_exit h = absurd (h refl)

  -- A sweep over orderly configurations notes one outcome for each, in their order: the numbers of
  -- the load test where it completed, and an error where the startup or the test failed, which does
  -- not keep the others from being run. No process that it has started is left running.
  pub sweep_complete :
      (cs : List A)
      → All IsOrderly cs
      → ((sweep describe attempt cs).outcomes
          ≡ returned (map (λ c. note (describe c) (attempt c).result) cs))
        × All HasExited (sweep describe attempt cs).left
  unfolding sweep
  sweep_complete [] h = (refl, tt)
  sweep_complete (c ∷ cs) (h, hs) =
      let (outcomes, gone) = sweep_complete cs hs in
      let (stopped, how) = stop_all-AllStopped (attempt c).nodes h.stops in
      rw (noted-note (describe c) (attempt c).result h.no_exit, how, outcomes)
        (
          refl,
          All-append HasExited _ _
              (All-append HasExited _ _ stopped (subst (All HasExited) (sym h.tracked) tt)) gone,
        )

  -- What a sweep does not survive.
  abbrev pub Aborts : A → Type 0
  Aborts c =
      ((attempt c).result ≡ system_exit) ⊎ ((n : SpawnedNode) × In n (attempt c).nodes × ¬ Stops n)

  -- A configuration whose load test raises `SystemExit`, or one of whose nodes does not even exit
  -- in time after it has been killed, makes the whole sweep raise, so that the outcomes of the
  -- other configurations are lost.
  pub sweep_raises :
      (cs : List A) (c : A) → In c cs → Aborts c → (sweep describe attempt cs).outcomes ≡ raised
  unfolding sweep
  sweep_raises [] c here bad = elim here [ ]
  sweep_raises (d ∷ cs) c (inl same) bad = first (subst Aborts same bad)
    where
      left : List SpawnedNode
      left = (stop_all (attempt d).nodes).0 ++ (attempt d).untracked

      not_stopped :
          (o : Outcome ConfigOutcome) (how : Outcome (Unit {0}))
          → how ≡ raised
          → (then_sweep left o how (sweep describe attempt cs)).outcomes ≡ raised
      not_stopped raised how h = refl
      not_stopped (returned o) raised h = refl
      not_stopped (returned o) (returned u) h = cc h

      first :
          Aborts d
          → (then_sweep left
              (noted (describe d) (attempt d).result)
              (stop_all (attempt d).nodes).1
              (sweep describe attempt cs)).outcomes
            ≡ raised
      first (inl exits) = rw exits refl
      first (inr (n, there, stuck)) =
          not_stopped _ _ (stop_all-raises (attempt d).nodes n there stuck)
  sweep_raises (d ∷ cs) c (inr later) bad =
      rest (noted (describe d) (attempt d).result) (stop_all (attempt d).nodes).1
        (sweep_raises cs c later bad)
    where
      left : List SpawnedNode
      left = (stop_all (attempt d).nodes).0 ++ (attempt d).untracked

      rest :
          (o : Outcome ConfigOutcome) (how : Outcome (Unit {0}))
          → (sweep describe attempt cs).outcomes ≡ raised
          → (then_sweep left o how (sweep describe attempt cs)).outcomes ≡ raised
      rest raised how h = refl
      rest (returned o) raised h = refl
      rest (returned o) (returned u) h = ap (prepend o) h

append_nil : {A : Type 0} (xs : List A) → xs ++ [] ≡ xs
append_nil [] = refl
append_nil (x ∷ xs) = ap (◌∷◌ x) (append_nil xs)

after_wait-untracked :
    (ns : List SpawnedNode) (w : Outcome (Unit {0})) (t : Tried)
    → t.untracked ≡ []
    → (after_wait ns w t).untracked ≡ []
after_wait-untracked ns raised t h = refl
after_wait-untracked ns (returned u) t h = h

with_last-untracked :
    (wait : List SpawnedNode → Outcome (Unit {0})) (ns : List SpawnedNode)
    (last : Outcome SpawnedNode) (r : Result)
    → (with_last wait ns last r).untracked ≡ []
with_last-untracked wait ns raised r = refl
with_last-untracked wait ns (returned n) r = after_wait-untracked _ (wait (n ∷ [])) _ refl

module _ (spawned : List (Outcome SpawnedNode)) (wait : List SpawnedNode → Outcome (Unit {0}))
    (load_test : Result) where
  -- The leader-follower sweep and the leaderless sweep stop every process that they have started.
  pub every_node_tracked :
      (leader : Outcome SpawnedNode)
      → ((leader_follower_config spawned leader wait load_test).untracked ≡ [])
        × ((leaderless_config spawned wait load_test).untracked ≡ [])
  unfolding leader_follower_config leaderless_config
  every_node_tracked leader = (
    if_cases (λ (t : Tried). t.untracked ≡ []) (spawn_each spawned).1 _ _
        (λ all_there.
          after_wait-untracked _ (wait (spawn_each spawned).0) _
            (with_last-untracked wait _ leader load_test))
        (λ missing. refl),
    if_cases (λ (t : Tried). t.untracked ≡ []) (spawn_each spawned).1 _ _
        (λ all_there. after_wait-untracked _ (wait (spawn_each spawned).0) _ refl)
        (λ missing. refl),
  )

spawn_each-stops :
    (started : List SpawnedNode) (later : List (Outcome SpawnedNode))
    → spawn_each (map returned started ++ (raised ∷ later)) ≡ (started, false)
spawn_each-stops [] later = refl
spawn_each-stops (n ∷ ns) later = rw (spawn_each-stops ns later) refl

-- If the topic of a message-queue configuration has been reset and some of its followers have been
-- started, and the next cannot be, those that run are not stopped: a sweep over that configuration
-- notes an error, returns, and leaves exactly them as they are.
pub mq_followers_left :
    (started : List SpawnedNode) (later : List (Outcome SpawnedNode))
    (producer : Outcome SpawnedNode) (wait assigned : List SpawnedNode → Outcome (Unit {0}))
    (load_test : Result) (d : Description)
    → ((sweep {A = Description}
          (λ l. l)
          (λ l.
            mq_config
              (returned tt)
              (map returned started ++ (raised ∷ later))
              producer
              wait
              assigned
              load_test)
          (d ∷ [])).outcomes
        ≡ returned (config_error (error_of d) ∷ []))
      × ((sweep {A = Description}
            (λ l. l)
            (λ l.
              mq_config
                (returned tt)
                (map returned started ++ (raised ∷ later))
                producer
                wait
                assigned
                load_test)
            (d ∷ [])).left
          ≡ started)
unfolding sweep mq_config stop_all
mq_followers_left started later producer wait assigned load_test d =
    rw (spawn_each-stops started later) (refl, append_nil started)
