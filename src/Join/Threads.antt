-- ===== src/Join/Threads.antt =====
-- distributed_join.cpp: the two threads of a rank, the one that communicates the batches and
-- `inner_join_func`, which joins a batch when its flag is set.
pub mod Ends
pub mod Invariant
pub mod Race
use distributed_join.Prelude.{
  ℕ, zero, suc, ◌+◌, ◌≡◌, Bool, true, false, Option, none, some, List, [], ltb, ◌==◌, if◌then◌else◌,
}
use distributed_join.Join.{Cudf, Joined, local_join_helper}

-- Where the thread that communicates is: at a statement of its loop, at `inner_join_thread.join()`,
-- or behind it.
pub data MainPc : Type 0 where
  launch_left launch_right set_flag : ℕ → MainPc
  waiting returned : MainPc

-- Where `inner_join_func` is: busy waiting for a batch, joining it, or at its end.
pub data JoinPc : Type 0 where
  polling joining : ℕ → JoinPc
  finished : JoinPc

-- The memory that the threads share, and where they are.
pub record Threads (L R : Type 0) : Type 0 where
  pub main : MainPc
  pub joiner : JoinPc
  pub communicated_left : ℕ → List L
  pub communicated_right : ℕ → List R
  pub flags : ℕ → Bool
  pub batch_join_results : ℕ → Option (Joined L R)

abbrev pub update : {B : Type 0} → (ℕ → B) → ℕ → B → ℕ → B
update f i v j = if i == j then v else f j

module _ {L R : Type 0} (cudf : Cudf L R) (over_decom_factor : ℕ) (received_left : ℕ → List L)
    (received_right : ℕ → List R) where
  -- The heads of the two loops.
  abbrev pub next_batch : ℕ → MainPc
  next_batch i = if ltb i over_decom_factor then launch_left i else waiting

  abbrev pub next_join : ℕ → JoinPc
  next_join i = if ltb i over_decom_factor then polling i else finished

  -- One statement of one thread. While its flag is not set the joining thread stays where it is.
  pub data Step (s t : Threads L R) : Type 0 where
    launches_left :
        (i : ℕ)
        → s.main ≡ launch_left i
        → t ≡ record s {
          main = launch_right i;
          communicated_left = update s.communicated_left i (received_left i);
        }
        → Step s t
    launches_right :
        (i : ℕ)
        → s.main ≡ launch_right i
        → t ≡ record s {
          main = set_flag i;
          communicated_right = update s.communicated_right i (received_right i);
        }
        → Step s t
    sets_flag :
        (i : ℕ)
        → s.main ≡ set_flag i
        → t ≡ record s { main = next_batch (i + 1); flags = update s.flags i true }
        → Step s t
    returns : s.main ≡ waiting → s.joiner ≡ finished → t ≡ record s { main = returned } → Step s t
    sees_flag :
        (i : ℕ)
        → s.joiner ≡ polling i
        → s.flags i ≡ true
        → t ≡ record s { joiner = joining i }
        → Step s t
    joins :
        (i : ℕ)
        → s.joiner ≡ joining i
        → t ≡ record s {
          joiner = next_join (i + 1);
          batch_join_results =
              update s.batch_join_results i
                (some (local_join_helper cudf (s.communicated_left i) (s.communicated_right i)));
        }
        → Step s t

  pub data Reach (s : Threads L R) : Threads L R → Type 0 where
    here : Reach s s
    further : {t u : Threads L R} → Reach s t → Step t u → Reach s u

  -- When the joining thread is launched: the tables are allocated, no flag is set, and there are no
  -- results.
  abbrev pub launched : (ℕ → List L) → (ℕ → List R) → Threads L R
  launched left right = record {
    main = next_batch 0;
    joiner = next_join 0;
    communicated_left = left;
    communicated_right = right;
    flags = λ i. false;
    batch_join_results = λ i. none;
  }
