-- ===== src/Cache/Examples.antt =====
-- The theorems of the cache and its leases at concrete data, and runs of their operations.
use ytdlbot.Prelude.{
  ℕ, ◌≡◌, ◌≤◌, refl, none, some, List, [], ◌∷◌, arith, if◌then◌else◌, length, ltb,
}
use ytdlbot.Cache.Memory
use ytdlbot.Cache.Memory.{MediaCache, prune_memory, oldest, drop_oldest, get_record, make_room}
use ytdlbot.Cache.Calls.{Call, call, call_all, read_record, answer, answer_all, empty_cache, after}
use ytdlbot.Cache.Refinement
use ytdlbot.Cache.Refinement.{ArePartOf}
use ytdlbot.Cache.Bounds
use ytdlbot.Cache.Leases
use ytdlbot.Cache.Leases.{
  prune_expired, acquire_pruned, is_owned, renew_pruned, release_pruned, token, agreed, value_error,
}
use ytdlbot.Cache.Requests.{Request, serve, hear, serve_all}
use ytdlbot.Cache.Exclusion
use ytdlbot.Cache.Exclusion.{new_leases}

program : Unit {0}
unfolding prune_memory oldest drop_oldest get_record Memory.get make_room Memory.set Memory.delete
    call call_all after read_record answer answer_all prune_expired acquire_pruned Leases.acquire
    is_owned renew_pruned Leases.renew release_pruned Leases.release serve hear serve_all
program = tt

-- The third store evicts the entry that expires first, which is the one of "b".
abbrev some_calls : List Call
some_calls =
    Call.set "a" "x" 50 0 0
    ∷ Call.set "b" "y" 20 1 1
    ∷ Call.set "c" "z" 30 2 2
    ∷ Call.get "a" (some 90) 3 3
    ∷ Call.get "b" none 4 4
    ∷ Call.get "a" none 80 80
    ∷ Call.delete "a"
    ∷ Call.get "a" none 81 81
    ∷ []

answers_test :
    call_all (empty_cache 2) some_calls
    ≡ none ∷ none ∷ none ∷ some "x" ∷ none ∷ some "x" ∷ none ∷ none ∷ []
unfolding program
answers_test = refl

unbounded_test :
    answer_all (λ key. none) some_calls
    ≡ none ∷ none ∷ none ∷ some "x" ∷ some "y" ∷ some "x" ∷ none ∷ none ∷ []
unfolding program
unbounded_test = refl

call_all-ArePartOf_example :
    ArePartOf (call_all (empty_cache 2) some_calls) (answer_all (λ key. none) some_calls)
call_all-ArePartOf_example = Refinement.call_all-ArePartOf 2 some_calls

after_within_size_example : length (after (empty_cache 2) some_calls).memory ≤ 2
after_within_size_example = Bounds.after_within_size 2 some_calls (omega arith)

abbrev full_cache : MediaCache
full_cache = record {
  max_memory_entries = 1;
  memory = ("a", record { payload = "x"; expires_at = 50 }) ∷ [];
}

get-set_example :
    (Memory.get (Memory.set full_cache "b" "y" 20 5 5) "b" none 24 24).0
    ≡ (if ltb 24 25 then some "y" else none)
get-set_example = Bounds.get-set full_cache "b" "y" 20 5 5 24 24 none

abbrev some_requests : List (ℕ × Request)
some_requests =
    (1, Request.acquire "k" "one" 10)
    ∷ (5, Request.acquire "k" "two" 10)
    ∷ (12, Request.acquire "k" "two" 10)
    ∷ (13, Request.release "k" "one")
    ∷ (14, Request.renew "k" "two" 20)
    ∷ []

holder_test :
    (((serve_all new_leases some_requests).1 "k" "one" ≡ none)
      × ((serve_all new_leases some_requests).1 "k" "two" ≡ some 34))
unfolding program
holder_test = (refl, refl)

refused_test :
    (Leases.acquire (serve_all new_leases some_requests).0 "k" "three" 5 33).0 ≡ token none
unfolding program
refused_test = refl

-- The owner of the first token has let its lease run out.
abbrev taken_over : List (ℕ × Request)
taken_over =
    (1, Request.acquire "k" "one" 10)
    ∷ (5, Request.acquire "k" "two" 10)
    ∷ (12, Request.acquire "k" "two" 10)
    ∷ []

serve_all-excludes_example : 11 ≤ 15
unfolding program
serve_all-excludes_example =
    Exclusion.serve_all-excludes 0 15 taken_over "k" "two" "one" 22 11
      (omega arith, (omega arith, (omega arith, omega arith))) refl refl (omega arith) refl
