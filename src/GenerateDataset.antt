-- ===== src/GenerateDataset.antt =====
-- generate_dataset.cuh: the keys of the test tables. The threads of init_build_tbl draw lots from one array.
pub mod Unique
pub mod Counts
pub mod Shared
pub mod Filled
pub mod Probe
pub mod Tables
use distributed_join.Prelude.{
  ◌>>=◌, ℕ, zero, suc, ◌+◌, ◌-◌, ◌%◌, ◌≡◌, Bool, true, false, not, Option, none, some, List, [],
  ◌∷◌, map, ◌==◌, if◌then◌else◌, length, get_or, set, ltb, leb, replicate,
}
use distributed_join.Prelude.Ranges.{range, each}

-- What a thread of `init_build_tbl` does next: draw a number for the slot `idx` of the table, read
-- the lottery, or try to swap the value that it has read there for -1.
pub data Phase : Type 0 where
  drawing : ℕ → Phase
  reading : ℕ → ℕ → Phase
  swapping : ℕ → ℕ → ℕ → Phase
  finished : Phase

-- The memory that the threads share, and where they are. `none` in `lottery` is -1, and in
-- `build_tbl` a key that has not been written.
pub record Kernel : Type 0 where
  pub lottery : List (Option ℕ)
  pub build_tbl : List (Option ℕ)
  pub threads : List Phase

-- The number of lots, where `key_max` is the largest number of the key type.
abbrev pub lottery_size : ℕ → ℕ → ℕ
lottery_size key_max rand_max = if ltb rand_max (key_max - 1) then rand_max + 1 else rand_max

module _ (build_tbl_size lots rand_max num_threads : ℕ) (uniq_build_tbl_keys : Bool)
    (draw : ℕ → ℕ → ℕ) where
  -- `idx += stride`, where the stride is the number of threads.
  abbrev pub next_slot : ℕ → Phase
  next_slot idx =
      if ltb (idx + num_threads) build_tbl_size then drawing (idx + num_threads) else finished

  abbrev pub goto : ℕ → Phase → Kernel → Kernel
  goto thread phase s = record s { threads = set s.threads thread phase }

  -- A key is written to the slot, and the thread goes on to its next one.
  abbrev pub write_key : ℕ → ℕ → ℕ → Kernel → Kernel
  write_key thread idx key s = record s {
    build_tbl = set s.build_tbl idx (some key);
    threads = set s.threads thread (next_slot idx);
  }

  abbrev pub next_lot : ℕ → ℕ
  next_lot lottery_idx = (lottery_idx + 1) % lots

  -- `lottery_val = lottery[lottery_idx]`
  abbrev pub read_lot : ℕ → ℕ → ℕ → Option ℕ → Kernel → Kernel
  read_lot thread idx lottery_idx none s = goto thread (reading idx (next_lot lottery_idx)) s
  read_lot thread idx lottery_idx (some lottery_val) s =
      goto thread (swapping idx lottery_idx lottery_val) s

  -- `atomicCAS`, where `lottery_val` has been read: it gives back what is there, and writes -1 if
  -- that is `lottery_val`. The loop goes on if it gives back -1.
  abbrev pub swap_lot : ℕ → ℕ → ℕ → ℕ → Option ℕ → Kernel → Kernel
  swap_lot thread idx lottery_idx lottery_val none s =
      goto thread (reading idx (next_lot lottery_idx)) s
  swap_lot thread idx lottery_idx lottery_val (some old) s =
      write_key thread idx old
        (if old == lottery_val then record s { lottery = set s.lottery lottery_idx none } else s)

  -- A step of a thread. `draw idx m` is the number that is drawn for slot `idx`, times `m` and
  -- rounded down.
  abbrev pub step_from : Phase → ℕ → Kernel → Kernel
  step_from finished thread s = s
  step_from (drawing idx) thread s =
      if uniq_build_tbl_keys
      then goto thread (reading idx (draw idx lots)) s
      else write_key thread idx (draw idx rand_max) s
  step_from (reading idx lottery_idx) thread s =
      read_lot thread idx lottery_idx (get_or s.lottery lottery_idx none) s
  step_from (swapping idx lottery_idx lottery_val) thread s =
      swap_lot thread idx lottery_idx lottery_val (get_or s.lottery lottery_idx none) s

  unfoldable pub init_build_tbl : ℕ → Kernel → Kernel
  init_build_tbl thread s = step_from (get_or s.threads thread finished) thread s

  -- The threads take their steps in the order of `schedule`.
  unfoldable pub interleaved : List ℕ → Kernel → Kernel
  interleaved [] s = s
  interleaved (thread ∷ schedule) s = interleaved schedule (init_build_tbl thread s)

  -- The kernel is launched: the lottery has its numbers if the keys are to be unique, and each
  -- thread starts at the slot with its own number.
  unfoldable pub launched : Kernel
  launched = record {
    lottery = if uniq_build_tbl_keys then map some (range 0 lots) else replicate lots (some 0);
    build_tbl = replicate build_tbl_size none;
    threads = map (λ t. if ltb t build_tbl_size then drawing t else finished) (range 0 num_threads);
  }

-- `thrust::set_difference` of the numbers below `lots` and the keys.
abbrev pub contains : ℕ → List ℕ → Bool
contains v [] = false
contains v (key ∷ keys) = if v == key then true else contains v keys

unfoldable pub left_in_lottery : List ℕ → List ℕ → List ℕ
left_in_lottery [] build_tbl = []
left_in_lottery (v ∷ vs) build_tbl =
    let rest = left_in_lottery vs build_tbl in if contains v build_tbl then rest else v ∷ rest

-- A key of the probe table, from the build table if `selected` and from the lottery otherwise.
-- `draw idx m` is the second number that is drawn for `idx`, times `m` and rounded down; `none` is a
-- read outside the array.
unfoldable pub init_probe_tbl : List ℕ → List ℕ → (ℕ → Bool) → (ℕ → ℕ → ℕ) → ℕ → Option ℕ
init_probe_tbl build_tbl lottery selected draw idx =
    let size = length build_tbl in
    let drawn = draw idx size in
    let build_tbl_idx = if leb size drawn then size - 1 else drawn in
    if selected idx
    then get_or (map some build_tbl) build_tbl_idx none
    else get_or (map some lottery) (draw idx (length lottery)) none

-- `generate_input_tables`, where the threads of init_build_tbl take the steps of `schedule`. `none`
-- where they have not written all keys.
unfoldable pub generate_input_tables :
    (build_tbl_size probe_tbl_size key_max rand_max num_threads : ℕ) (uniq_build_tbl_keys : Bool)
    (draw : ℕ → ℕ → ℕ) (selected : ℕ → Bool) (probe_draw : ℕ → ℕ → ℕ)
    → List ℕ
    → Option (List ℕ × List ℕ)
generate_input_tables build_tbl_size probe_tbl_size key_max rand_max num_threads uniq_build_tbl_keys
      draw selected probe_draw schedule =
    do
      let lots = lottery_size key_max rand_max
      build_tbl ←
          each (λ key. key)
            (interleaved build_tbl_size lots rand_max num_threads uniq_build_tbl_keys draw schedule
              (launched build_tbl_size lots rand_max num_threads uniq_build_tbl_keys
                draw)).build_tbl
      probe_tbl ←
          each
            (init_probe_tbl build_tbl (left_in_lottery (range 0 lots) build_tbl) selected
              probe_draw)
            (range 0 probe_tbl_size)
      some (build_tbl, probe_tbl)
