-- ===== src/Connections/Listing.antt =====
-- `listConnections` of skill/src/connection-store.ts.
use pinch.Prelude.Objects.{values}
use pinch.Prelude.Sort.{IsSorted, sort_by-perm, sort_by-IsSorted, sort_by-All}
use pinch.Prelude.{◌≡◌, true, false, Option, Perm, All, keep, keep-All, arith}
use pinch.Connections.{
  ConnectionState, Connection, ConnectionStore, shown_before, matches_filter, list_connections,
}

shown_before_total : (a b : Connection) → shown_before a b ≡ false → shown_before b a ≡ true
unfolding shown_before
shown_before_total a b h = ground arith

shown_before_trans :
    (a b c : Connection)
    → shown_before a b ≡ true
    → shown_before b c ≡ true
    → shown_before a c ≡ true
unfolding shown_before
shown_before_trans a b c h k = ground arith

-- A list of connections is sorted by the priority of their states and then by their last activity,
-- latest first; it has exactly the stored connections that match the filter, each of them once.
pub list_connections_shows :
    (filter : Option ConnectionState) (s : ConnectionStore)
    → IsSorted shown_before (list_connections filter s)
      × All (λ c. matches_filter filter c ≡ true) (list_connections filter s)
      × Perm (list_connections filter s) (keep (matches_filter filter) (values s.connections))
unfolding list_connections
list_connections_shows filter s =
    let found = keep (matches_filter filter) (values s.connections) in
    (
      sort_by-IsSorted shown_before shown_before_total shown_before_trans found,
      sort_by-All _ shown_before found (keep-All (matches_filter filter) (values s.connections)),
      sort_by-perm shown_before found,
    )
