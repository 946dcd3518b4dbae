-- ===== src/Plan/Checkpoint/Examples.antt =====
-- Checkpoints of three generations, and two comment threads of one task.
use software_builder.Prelude.{ℕ, ◌≤◌, ◌≡◌, refl, String, Option, none, some, List, [], ◌∷◌, All}
use software_builder.Prelude.Dict.{Dict, lookup, insert, update, or_else}
use software_builder.Prelude.Outcome.{return}
use software_builder.Plan.Checkpoint.{
  Checkpoint, outdates, merge_plan_state, threads_of, durable_entry, merge_into,
  merge_comment_threads,
}
use software_builder.Plan.Checkpoint.Newest.{age, after_writes, after_writes-newest}
use software_builder.Plan.Checkpoint.Threads.{
  UniqueThreads, thread, merged_thread, merge_comment_threads-thread,
}

abbrev at_generation : ℕ → Checkpoint
at_generation n = record { state_generation = some n; contents = "" }

abbrev writes : List Checkpoint
writes =
    at_generation 4
    ∷ at_generation 2
    ∷ record { state_generation = none; contents = "damaged" }
    ∷ []

after_writes-newest_example :
    (age (at_generation 3) ≤ age (after_writes (at_generation 3) writes))
    × All (λ c. age c ≤ age (after_writes (at_generation 3) writes)) writes
after_writes-newest_example = after_writes-newest (at_generation 3) writes

newest_stays : (after_writes (at_generation 3) writes).state_generation ≡ some 4
unfolding merge_plan_state outdates
newest_stays = refl

abbrev durable : Dict (Option (Dict String))
durable = ("T1", some (("a", "open") ∷ [])) ∷ []

abbrev incoming : Dict (Option (Dict String))
incoming = ("T1", some (("b", "new") ∷ [])) ∷ []

abbrev both_threads : Dict (Dict String)
both_threads = ("T1", ("a", "open") ∷ ("b", "new") ∷ []) ∷ []

threads_merge : merge_comment_threads durable incoming ≡ return both_threads
unfolding merge_comment_threads merge_into durable_entry threads_of insert update lookup
threads_merge = refl

incoming-UniqueThreads : UniqueThreads incoming
unfolding lookup
incoming-UniqueThreads = (refl, (refl, tt), tt)

merge_comment_threads-thread_example :
    merged_thread "T1" "a" both_threads
    ≡ or_else (thread "T1" "a" incoming) (thread "T1" "a" durable)
merge_comment_threads-thread_example =
    merge_comment_threads-thread durable incoming both_threads "T1" "a" incoming-UniqueThreads
      threads_merge
