-- ===== src/Messages/History.antt =====
-- The queries of skill/src/message-store.ts.
use pinch.Prelude.Sort.{
  IsSorted, sort_by, sort_by-All, sort_by-IsSorted, IsSorted-take, IsSorted-drop,
}
use pinch.Prelude.{
  ℕ, ◌+◌, ◌≤◌, ◌≡◌, ap, sym, ◌∙◌, take-append-take, drop-drop, true, false, some, ◌++◌, take, drop,
  keep, keep-All, length, length-take-le, All, All-take, All-drop, arith, ◌or◌,
}
use pinch.Messages.{
  MessageRecord, MessageStore, HistoryOptions, matches_options, newest_first, get_history,
}

newest_first_total : (a b : MessageRecord) → newest_first a b ≡ false → newest_first b a ≡ true
newest_first_total a b h = ground arith

newest_first_trans :
    (a b c : MessageRecord)
    → newest_first a b ≡ true
    → newest_first b c ≡ true
    → newest_first a c ≡ true
newest_first_trans a b c h k = ground arith

-- A history holds messages that match every option given, newest first, and no more than the limit,
-- which is 50 if none is given.
pub get_history_page :
    (opts : HistoryOptions) (s : MessageStore)
    → All (λ m. matches_options opts m ≡ true) (get_history opts s)
      × IsSorted newest_first (get_history opts s)
      × (length (get_history opts s) ≤ (opts.limit or 50))
unfolding get_history
get_history_page opts s =
    let rows = keep (matches_options opts) s.messages in
    let n = opts.limit or 50 in
    let o = opts.offset or 0 in
    (
      All-take _ n _ (
          All-drop _ o _
            (sort_by-All _ newest_first rows (keep-All (matches_options opts) s.messages))),
      IsSorted-take newest_first n _ (
          IsSorted-drop newest_first o _
            (sort_by-IsSorted newest_first newest_first_total newest_first_trans rows)),
      length-take-le n (drop o (sort_by newest_first rows)),
    )

-- Two pages of a history, one after the other, are the page that spans both.
pub get_history_pages :
    (opts : HistoryOptions) (n m o : ℕ) (s : MessageStore)
    → get_history (record opts { limit = some n; offset = some o }) s
        ++ get_history (record opts { limit = some m; offset = some (o + n) }) s
      ≡ get_history (record opts { limit = some (n + m); offset = some o }) s
unfolding get_history matches_options
get_history_pages opts n m o s =
    let rows = sort_by newest_first (keep (matches_options opts) s.messages) in
    ap (λ r. take n (drop o rows) ++ take m r) (sym (drop-drop o n rows))
    ∙ take-append-take n m (drop o rows)
