-- ===== src/Tests/Logs.antt =====
-- Runs of the activity log and its audit.
use pinch.Prelude.{ℕ, String, ◌≡◌, ◌≢◌, refl, true, none, some, List, [], ◌∷◌, map, eq_iff, arith}
use pinch.Feed.{NewEvent, event, ActivityEvent, empty_feed, by_time, entry_text, compute_entry_hash}
use pinch.Feed.Audit.{valid, head_id, last_id, walk, entry_break, expected_prev, verify}
use pinch.Feed.Chain.{record_all, record_all-verifies}
use pinch.Feed.Evidence.{Unhashed, overwrite, edit_is_found, unhashed_edits_pass}
use pinch.Tests.{test_runtime, alice, bob}

digest_nonempty : (t : String) → test_runtime.sha256 t ≢ ""
digest_nonempty t h = ground (arith, eq_iff "digest" "")

abbrev two_calls : List (ℕ × NewEvent)
two_calls = (5, event alice "connection_muted") ∷ (9, event bob "connection_blocked") ∷ []

record_all-verifies_example :
    verify test_runtime none (record_all test_runtime two_calls empty_feed)
    ≡ valid 2 2
        (head_id (by_time (record_all test_runtime two_calls empty_feed).rows))
        (last_id (by_time (record_all test_runtime two_calls empty_feed).rows))
record_all-verifies_example =
    record_all-verifies test_runtime digest_nonempty (λ i j l. refl) two_calls
      (ground arith, (ground arith, tt))

abbrev row : String → String → ActivityEvent
row id prev = record {
  id = id;
  connection_address = alice;
  event_type = "connection_muted";
  message_id = none;
  badge = none;
  details = none;
  created_at = 5;
  actor_pubkey = none;
  action_type = some "connection_muted";
  message_hash = none;
  prev_hash = prev;
  entry_hash = "digest";
}

abbrev hidden : ActivityEvent → Unhashed
hidden e = record { event_type = "nothing"; message_id = none; badge = none; details = none }

abbrev edited : ActivityEvent
edited = record (row "1" "") { badge = some "other" }

edit_is_found_example : entry_text test_runtime edited ≡ entry_text test_runtime (row "1" "")
unfolding walk entry_break expected_prev compute_entry_hash entry_text
edit_is_found_example =
    edit_is_found test_runtime true none 0 [] (row "1" "") edited (row "2" "digest") []
      (row "3" "digest" ∷ []) refl (λ same. refl) refl

unhashed_edits_pass_example :
    walk test_runtime true none 0 (map (overwrite hidden) (row "1" "" ∷ row "2" "digest" ∷ []))
    ≡ walk test_runtime true none 0 (row "1" "" ∷ row "2" "digest" ∷ [])
unhashed_edits_pass_example =
    unhashed_edits_pass test_runtime true hidden none 0 (row "1" "" ∷ row "2" "digest" ∷ [])
