-- ===== src/Tests/Ids.antt =====
-- Row ids of two fragments: the ids 10 to 12, and the ids 20 to 24 without 22.
use lakeql.Base.{◌≡◌, refl, ◌<◌, List, [], ◌∷◌, some, All}
use lakeql.Base.Result.{ok}
use lakeql.Base.Search.{lower_bound, lower_bound_loop, below_at}
use lakeql.RowIds.{
  Segment, Fragment, Resolved, find_in_segment, segment_length, validate_segment, value_in_segment,
  safe_offset, required_range, lower_bound_of, has_at, index_of, valid_holes, above,
  resolve_requested_row_ids, resolve_in_fragments, resolve_in_segments, resolve_in_segment,
  set_address, drop_resolved, has_address, distinct,
}
use lakeql.RowIds.Segments.{find-value}
use lakeql.RowIds.Resolved.{ReadsBack, resolve_requested_row_ids-ReadsBack}

abbrev holed : Segment
holed = Segment.range_with_holes (some 20) (some 25) (22 ∷ [])

abbrev two_fragments : List Fragment
two_fragments =
    record { physical_rows = 3; segments = Segment.range (some 10) (some 13) ∷ [] }
    ∷ record { physical_rows = 4; segments = holed ∷ [] }
    ∷ []

abbrev two_addresses : Resolved
two_addresses =
    (11, record { fragment_index = 0; row_offset = 1 })
    ∷ (24, record { fragment_index = 1; row_offset = 3 })
    ∷ []

holed-valid : validate_segment holed ≡ ok tt
unfolding validate_segment required_range valid_holes above
holed-valid = refl

holed-find : find_in_segment holed 24 ≡ ok (some 3)
unfolding find_in_segment required_range safe_offset lower_bound_of lower_bound lower_bound_loop
    below_at has_at
holed-find = refl

holed-length : segment_length holed ≡ ok 4
unfolding segment_length required_range safe_offset
holed-length = refl

two-resolved : resolve_requested_row_ids (24 ∷ 11 ∷ []) two_fragments ≡ ok two_addresses
unfolding resolve_requested_row_ids resolve_in_fragments resolve_in_segments resolve_in_segment
    set_address drop_resolved has_address distinct index_of validate_segment required_range
    valid_holes above find_in_segment safe_offset lower_bound_of lower_bound lower_bound_loop
    below_at has_at segment_length
two-resolved = refl

find-value_example : (value_in_segment holed 3 ≡ ok 24) × (3 < 4)
find-value_example = find-value holed 24 3 4 holed-valid holed-find holed-length

resolve_requested_row_ids-ReadsBack_example : All (ReadsBack two_fragments) two_addresses
resolve_requested_row_ids-ReadsBack_example =
    resolve_requested_row_ids-ReadsBack (24 ∷ 11 ∷ []) two_fragments two_addresses two-resolved
