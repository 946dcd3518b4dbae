-- ===== src/Resume/Examples.antt =====
-- Runs of scripts/builder_resume.py on small branches.
use text.Mathlib.TextEquality.{eq_iff}
use software_builder.Prelude.{
  String, ◌≡◌, refl, ◌↔◌, ◌⊎◌, true, Option, none, some, List, [], ◌∷◌, ◌++◌, arith,
}
use software_builder.Prelude.Text.{append, is_space, strip_prefix, split_lines}
use software_builder.Resume.{
  drop_blanks, take_token, match_trailer, find_trailers, parse_checkpoint_marker,
  implementation_complete, tests_passing, is_checkpoint_marker, CommitInfo, continue_from, escalate,
  decide,
}
use software_builder.Resume.Order.{OutOfOrder, decide_continues, decide_names}
use software_builder.Resume.Trailer.{IsToken, parse_checkpoint_marker-trailer}

-- What a run of the parser computes with.
parser : Unit {0}
unfolding parse_checkpoint_marker find_trailers match_trailer take_token drop_blanks split_lines
    strip_prefix is_space
parser = tt

parse_last : parse_checkpoint_marker "Fix\n\nCheckpoint: a\nCheckpoint:\t b \n" ≡ some "b"
unfolding parser
parse_last = refl

parse_two_words : parse_checkpoint_marker "Checkpoint: a b\n" ≡ none
unfolding parser
parse_two_words = refl

IsToken-tests_passing : IsToken "tests-passing"
unfolding is_space
IsToken-tests_passing = record {
  no_space = ground arith;
  not_empty = λ e. cc ((eq_iff "tests-passing" "").1 e);
}

parse_checkpoint_marker-trailer_example :
    parse_checkpoint_marker
      (append "Fix\n" (append "\n" (append "Checkpoint:" (append " " "tests-passing"))))
    ≡ some "tests-passing"
parse_checkpoint_marker-trailer_example =
    parse_checkpoint_marker-trailer "Fix\n" "tests-passing" IsToken-tests_passing

abbrev commit : String → Option String → CommitInfo
commit sha marker = record { sha = sha; message = ""; checkpoint_marker = marker }

abbrev built : List CommitInfo
built = commit "c1" (some implementation_complete) ∷ []

decide_continues_example :
    ((decide (built ++ commit "c2" (some tests_passing) ∷ []) "base").action ≡ continue_from) ↔ (
      (¬ OutOfOrder (built ++ commit "c2" (some tests_passing) ∷ []))
      × (is_checkpoint_marker (some tests_passing) ≡ true))
decide_continues_example = decide_continues built (commit "c2" (some tests_passing)) "base"

decide_names_example :
    let d = decide (built ++ commit "c2" none ∷ []) "base" in
    ((d.action ≡ continue_from) × (d.last_marker ≡ none) × (d.resume_head ≡ some "c2"))
    ⊎ ((d.action ≡ escalate) × (d.last_marker ≡ none) × (d.resume_head ≡ none))
decide_names_example = decide_names built (commit "c2" none) "base"

decide_runs : (decide (built ++ commit "c2" none ∷ []) "base").action ≡ escalate
unfolding decide
decide_runs = refl
