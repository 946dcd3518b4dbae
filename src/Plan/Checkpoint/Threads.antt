-- ===== src/Plan/Checkpoint/Threads.antt =====
-- scripts/implementation_plan.py, `_merge_comment_threads`: no thread is lost.
use text.Mathlib.Text.{◌==◌}
use text.Mathlib.TextEquality.{eq_iff}
use software_builder.Prelude.{
  String, ◌≡◌, refl, sym, ◌∙◌, ap, inl, inr, true, false, Option, none, some, [], ◌∷◌, arith, map,
  if◌then◌else◌, Bool-cases,
}
use software_builder.Prelude.Dict.{
  Dict, lookup, insert, update, or_else, lookup-insert, lookup-update, Unique, lookup_last-Unique,
}
use software_builder.Prelude.Outcome.{return}
use software_builder.Plan.Checkpoint.{threads_of, durable_entry, merge_into, merge_comment_threads}

module _ {V : Type 0} where
  abbrev pub entry : String → Option (Option (Dict V)) → Option V
  entry thread_id none = none
  entry thread_id (some none) = none
  entry thread_id (some (some threads)) = lookup thread_id threads

  -- The entry of a thread among those of a task.
  abbrev pub thread : String → String → Dict (Option (Dict V)) → Option V
  thread task_id thread_id d = entry thread_id (lookup task_id d)

  pub merged_thread : String → String → Dict (Dict V) → Option V
  merged_thread task_id thread_id d = lookup thread_id (threads_of task_id d)

  merged_thread-insert :
      (i k j : String) (threads : Dict V) (d : Dict (Dict V))
      → merged_thread k j (insert i threads d)
        ≡ (if i == k then lookup j threads else merged_thread k j d)
  unfolding merged_thread threads_of
  merged_thread-insert i k j threads d = ground (arith, lookup-insert i k threads d)

  -- Every mapping of threads has each key once.
  abbrev pub UniqueThreads : Dict (Option (Dict V)) → Type 0
  UniqueThreads [] = Unit
  UniqueThreads ((k, none) ∷ d) = (lookup k d ≡ none) × UniqueThreads d
  UniqueThreads ((k, some threads) ∷ d) = (lookup k d ≡ none) × Unique threads × UniqueThreads d

  thread-here :
      (i k j : String) (threads : Dict V) (d : Dict (Option (Dict V)))
      → (i == k) ≡ true
      → thread k j ((i, some threads) ∷ d) ≡ lookup j threads
  unfolding lookup
  thread-here i k j threads d e = rw (lookup, e) refl

  thread-later :
      (i k j : String) (threads : Dict V) (d : Dict (Option (Dict V)))
      → (i == k) ≡ false
      → thread k j ((i, some threads) ∷ d) ≡ thread k j d
  unfolding lookup
  thread-later i k j threads d e = rw (lookup, e) refl

  -- One entry of the incoming threads, before the later ones.
  overlay :
      (i k j : String) (threads : Dict V) (later : Dict (Option (Dict V))) (merged : Dict (Dict V))
      → lookup i later ≡ none
      → Unique threads
      → or_else
          (thread k j later)
          (merged_thread k j (insert i (update (threads_of i merged) threads) merged))
        ≡ or_else (thread k j ((i, some threads) ∷ later)) (merged_thread k j merged)
  unfolding merged_thread
  overlay i k j threads later merged fresh unique =
      let inserted = merged_thread-insert i k j (update (threads_of i merged) threads) merged in
      elim (Bool-cases (i == k)) [
        | inl e ↦
            let same : k ≡ i = sym ((eq_iff i k).0 e) in
            let none_later : thread k j later ≡ none =
              ap (entry j) (ap (λ x. lookup x later) same ∙ fresh) in
            let there = (rw e at inserted) ∙ lookup-update j (threads_of i merged) threads in
            rw
              (
                none_later,
                there,
                lookup_last-Unique j threads unique,
                thread-here i k j threads later e,
                same,
              )
              refl
        | inr e ↦
            let there : merged_thread k j (insert i (update (threads_of i merged) threads) merged)
                ≡ merged_thread k j merged =
              inserted ∙ rw e refl in
            rw (there, thread-later i k j threads later e) refl
      ]

  merge_into-thread :
      (k j : String) (incoming : Dict (Option (Dict V))) (merged result : Dict (Dict V))
      → UniqueThreads incoming
      → merge_into merged incoming ≡ return result
      → merged_thread k j result ≡ or_else (thread k j incoming) (merged_thread k j merged)
  unfolding merge_into lookup
  merge_into-thread k j [] merged result u h = ap (merged_thread k j) (sym cc)
  merge_into-thread k j ((i, none) ∷ incoming) merged result u h = absurd (cc h)
  merge_into-thread k j ((i, some threads) ∷ incoming) merged result u h =
      merge_into-thread k j incoming (insert i (update (threads_of i merged) threads) merged) result
        (u.2) h
      ∙ overlay i k j threads incoming merged (u.0) (u.1)

  durable-thread :
      (k j : String) (durable : Dict (Option (Dict V)))
      → merged_thread k j (map durable_entry durable) ≡ thread k j durable
  unfolding durable_entry merged_thread threads_of lookup
  durable-thread k j [] = refl
  durable-thread k j ((i, none) ∷ durable) = ground (arith, durable-thread k j durable)
  durable-thread k j ((i, some threads) ∷ durable) = ground (arith, durable-thread k j durable)

  -- `_merge_comment_threads`, where it returns, keeps for each thread of each task the incoming entry
  -- if there is one, and the durable entry otherwise; the incoming mappings have each key once.
  pub merge_comment_threads-thread :
      (durable incoming : Dict (Option (Dict V))) (result : Dict (Dict V)) (k j : String)
      → UniqueThreads incoming
      → merge_comment_threads durable incoming ≡ return result
      → merged_thread k j result ≡ or_else (thread k j incoming) (thread k j durable)
  unfolding merge_comment_threads
  merge_comment_threads-thread durable incoming result k j u h =
      merge_into-thread k j incoming (map durable_entry durable) result u h
      ∙ ap (or_else (thread k j incoming)) (durable-thread k j durable)
