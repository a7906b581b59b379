-- ===== src/Tests/Threads.antt =====
-- Two batches, the first of which is joined while the second is communicated.
use distributed_join.Prelude.{ℕ, ◌+◌, ◌<◌, ◌≡◌, refl, true, false, none, some, List, [], ◌∷◌}
use distributed_join.Join.{local_join_helper}
use distributed_join.Join.Threads.{
  launch_left, launch_right, returned, joining, Threads, update, launches_left, launches_right,
  sets_flag, sees_flag, Reach, here, further, launched,
}
use distributed_join.Join.Threads.Race.{no_race}
use distributed_join.Join.Threads.Ends.{threads_end}
use distributed_join.Tests.Bins.{equi_join}

-- What the batches of a rank hold after the communication.
abbrev left : ℕ → List ℕ
left i = i ∷ []

abbrev right : ℕ → List ℕ
right i = i ∷ (i + 1) ∷ []

abbrev allocated : ℕ → List ℕ
allocated i = 9 ∷ []

abbrev at_start : Threads ℕ ℕ
at_start = launched equi_join 2 left right allocated allocated

Runs : Threads ℕ ℕ → Type 0
Runs = Reach equi_join 2 left right at_start

-- The first batch is flagged, the joining thread has seen it, and the second left table is written.
abbrev overlapping : Threads ℕ ℕ
overlapping = record {
  main = launch_right 1;
  joiner = joining 0;
  communicated_left = update (update allocated 0 (left 0)) 1 (left 1);
  communicated_right = update allocated 0 (right 0);
  flags = update (λ i. false) 0 true;
  batch_join_results = λ i. none;
}

to_overlapping : Runs overlapping
unfolding Runs
to_overlapping =
    further
      (further
        (further (further (further here (launches_left 0 refl refl)) (launches_right 0 refl refl))
          (sets_flag 0 refl refl))
        (sees_flag 0 refl refl refl))
      (launches_left 1 refl refl)

no_race_example :
    (overlapping.communicated_left 0 ≡ left 0)
    × (overlapping.communicated_right 0 ≡ right 0)
    × ¬ (overlapping.main ≡ launch_left 0)
    × ¬ (overlapping.main ≡ launch_right 0)
unfolding Runs
no_race_example =
    no_race equi_join 2 left right allocated allocated overlapping 0 to_overlapping refl

threads_end_example :
    (t : Threads ℕ ℕ) × Reach equi_join 2 left right overlapping t
    × (t.main ≡ returned)
    × ((i : ℕ)
        → i < 2
        → t.batch_join_results i ≡ some (local_join_helper equi_join (left i) (right i)))
unfolding Runs
threads_end_example =
    threads_end equi_join 2 left right allocated allocated overlapping to_overlapping
