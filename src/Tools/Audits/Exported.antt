-- ===== src/Tools/Audits/Exported.antt =====
-- What pinch-audit-export writes of a log (skill/src/tools/pinch-audit-export.ts).
use pinch.Prelude.Act.{ok}
use pinch.Prelude.{
  ℕ, ◌<◌, String, ◌≡◌, ◌≢◌, refl, ap, true, none, List, [], ◌∷◌, eq_iff, keep, length, arith,
}
use pinch.Feed.{Runtime, NewEvent, ActivityEvent, ActivityFeed, empty_feed, by_time, text_leb}
use pinch.Feed.Audit.{walk}
use pinch.Feed.Chain.{record_all, IsAscending, record_all-walks, length-by_time-record_all}
use pinch.Tools.Arguments.{settings, set_until}
use pinch.Tools.Audits.{run_export, parse_export_args}

keep_all : {A : Type 0} (xs : List A) → keep (λ x. true) xs ≡ xs
keep_all [] = refl
keep_all (x ∷ xs) = ap (◌∷◌ x) (keep_all xs)

module _ (rt : Runtime) where
  -- Without bounds every entry is exported.
  run_export-whole :
      (path : String) (f : ActivityFeed)
      → path ≢ ""
      → run_export rt ("--output" ∷ path ∷ []) f ≡ ok (path, by_time f.rows)
  unfolding run_export parse_export_args settings set_until
  run_export-whole path f h = ground (arith, eq_iff path "", h, keep_all f.rows)

  module _ (digest_nonempty : (t : String) → rt.sha256 t ≢ "")
      (uuid_order : (i j : ℕ) → i < j → text_leb (rt.uuid i) (rt.uuid j) ≡ true) where
    -- The file that pinch-audit-export writes without bounds holds every event that was recorded, in an
    -- order in which the walk of the audit finds no break. The times do not go back, no digest is empty, and
    -- UUIDs are ordered as they are made.
    pub export_verifies :
        (path : String) (calls : List (ℕ × NewEvent))
        → path ≢ ""
        → IsAscending 0 calls
        → (es : List ActivityEvent) × (run_export rt
              ("--output" ∷ path ∷ [])
              (record_all rt calls empty_feed)
            ≡ ok (path, es))
          × (length es ≡ length calls)
          × (walk rt true none 0 es ≡ none)
    export_verifies path calls h a =
        let f = record_all rt calls empty_feed in
        (
          by_time f.rows,
          run_export-whole path f h,
          length-by_time-record_all rt digest_nonempty uuid_order calls,
          record_all-walks rt digest_nonempty uuid_order calls a,
        )
